-- ===== src/Conversation/Services.antt =====
-- conversation.Service and conversation.MembershipService: what is checked before a store is called.
use al_ur_messenger.Prelude.{ℕ, Bool, List, ◌&&◌}
use al_ur_messenger.Result.{guard, fail_if, banned, forbidden, invalid}
use al_ur_messenger.Runtime.{Runtime, valid_id}
use al_ur_messenger.Identity.{Actor, is_human}
use al_ur_messenger.Store.{Db, MemberRow}
use al_ur_messenger.Store.Tx.{Tx, Post, ◌>>◌, check, check->>=}
use al_ur_messenger.Conversation.{
  Create, Patch, AddMembers, MemberPatch, Trace, validate_create, validate_patch, validate_add,
  validate_member_patch,
}
use al_ur_messenger.Conversation.Access.{Conversation}
use al_ur_messenger.Conversation.Commands.{create, patch}
use al_ur_messenger.Conversation.Members.{add_members, patch_member, remove_member}

-- Service.Create
unfoldable pub request_create : Runtime → Actor → Create → Trace → Tx (Conversation × Bool)
unfolding create validate_create
request_create rt a p trace = do
  check (fail_if a.is_banned banned)
  check (guard (is_human a.kind) forbidden)
  check (validate_create rt a.user_id p)
  create rt a p trace

-- Service.Patch
unfoldable pub request_patch : Runtime → Actor → ℕ → Patch → Trace → Tx Conversation
unfolding patch validate_patch
request_patch rt a id p trace = do
  check (fail_if a.is_banned banned)
  check (guard (valid_id rt id) invalid)
  check (validate_patch rt p)
  patch rt a id p trace

-- MembershipService.Add
unfoldable pub request_add : Runtime → Actor → ℕ → AddMembers → Trace → Tx (List MemberRow)
unfolding add_members validate_add
request_add rt a id p trace = do
  check (guard (valid_id rt id) invalid)
  check (validate_add rt p)
  add_members rt a id p trace

-- MembershipService.Patch
unfoldable pub request_patch_member : Runtime → Actor → ℕ → ℕ → MemberPatch → Trace → Tx MemberRow
unfolding patch_member validate_member_patch
request_patch_member rt a id user p trace = do
  check (guard (valid_id rt id && valid_id rt user) invalid)
  check (validate_member_patch p)
  patch_member rt a id user p trace

-- MembershipService.Remove
unfoldable pub request_remove : Runtime → Actor → ℕ → ℕ → Trace → Tx (Unit {0})
unfolding remove_member
request_remove rt a id user trace = do
  check (guard (valid_id rt id && valid_id rt user) invalid)
  remove_member rt a id user trace

-- What holds after every commit of a store holds after every commit of its service.
module _ (rt : Runtime) (a : Actor) (trace : Trace) (db : Db) where
  pub request_create-Post :
      (Q : Conversation × Bool → Db → Type 0) (p : Create)
      → Post Q (create rt a p trace db)
      → Post Q (request_create rt a p trace db)
  unfolding request_create
  request_create-Post Q p h =
      check->>= Q _ _ db λ _. check->>= Q _ _ db λ _. check->>= Q _ _ db λ _. h

  pub request_patch-Post :
      (Q : Conversation → Db → Type 0) (id : ℕ) (p : Patch)
      → Post Q (patch rt a id p trace db)
      → Post Q (request_patch rt a id p trace db)
  unfolding request_patch
  request_patch-Post Q id p h =
      check->>= Q _ _ db λ _. check->>= Q _ _ db λ _. check->>= Q _ _ db λ _. h

  pub request_add-Post :
      (Q : List MemberRow → Db → Type 0) (id : ℕ) (p : AddMembers)
      → Post Q (add_members rt a id p trace db)
      → Post Q (request_add rt a id p trace db)
  unfolding request_add
  request_add-Post Q id p h = check->>= Q _ _ db λ _. check->>= Q _ _ db λ _. h

  pub request_patch_member-Post :
      (Q : MemberRow → Db → Type 0) (id user : ℕ) (p : MemberPatch)
      → Post Q (patch_member rt a id user p trace db)
      → Post Q (request_patch_member rt a id user p trace db)
  unfolding request_patch_member
  request_patch_member-Post Q id user p h = check->>= Q _ _ db λ _. check->>= Q _ _ db λ _. h

  pub request_remove-Post :
      (Q : Unit {0} → Db → Type 0) (id user : ℕ)
      → Post Q (remove_member rt a id user trace db)
      → Post Q (request_remove rt a id user trace db)
  unfolding request_remove
  request_remove-Post Q id user h = check->>= Q _ _ db λ _. h
