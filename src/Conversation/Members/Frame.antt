-- ===== src/Conversation/Members/Frame.antt =====
-- What each command on memberships does to the tables when it commits: the rows that its checks
-- read, one change of the memberships, and one audited event.
use al_ur_messenger.Prelude.{ℕ, ◌≡◌, Bool, true, false, List, [], ◌∷◌}
use al_ur_messenger.Result.{ok}
use al_ur_messenger.Runtime.{Runtime}
use al_ur_messenger.Identity.{Actor}
use al_ur_messenger.Store.{Db, MemberRow, EventType, Payload}
use al_ur_messenger.Store.Tx.{
  Post, Post-mono, bind->>=, check->>=, query->>=, write->>=, commit-Post,
}
use al_ur_messenger.Store.Query.{Gives->>=}
use al_ur_messenger.Conversation.{AddMembers, MemberPatch, Trace}
use al_ur_messenger.Conversation.Membership.Facts.{
  CanPatch, CanRemove, patch_access-CanPatch, remove_access-CanRemove,
}
use al_ur_messenger.Conversation.Audit.{IsAudited, audit-IsAudited}
use al_ur_messenger.Conversation.Members.{
  patch_member, remove_member, update_member, patched, departed, member_row, upsert, audit_if,
  add_one, add_each, add_members,
}

pub record IsPatched (rt : Runtime) (a : Actor) (id user : ℕ) (p : MemberPatch) (db : Db)
    (m : MemberRow) (db' : Db) : Type 0 where
  pub before : MemberRow
  pub allowed : CanPatch a id user p db before
  pub result :
      member_row a.project_id id user (update_member a.project_id id user (patched p) db) ≡ ok m
  pub audited : IsAudited rt a.project_id id (update_member a.project_id id user (patched p) db) db'

pub patch_member-IsPatched :
    (rt : Runtime) (a : Actor) (id user : ℕ) (p : MemberPatch) (trace : Trace) (db : Db)
    → Post (IsPatched rt a id user p db) (patch_member rt a id user p trace db)
unfolding patch_member
patch_member-IsPatched rt a id user p trace db = check->>= _ _ _ db λ valid.
    Gives->>= _ _ _ db (patch_access-CanPatch a id user p db) λ before allowed. write->>= _ _ _ db (
      query->>= _ _ _ _ λ m result.
        bind->>= _ _ _ _ (audit-IsAudited rt a id _ _ trace _) λ _ db' audited.
          commit-Post _ m db'
            (record { before = before; allowed = allowed; result = result; audited = audited }))

pub record IsRemoved (rt : Runtime) (a : Actor) (id user : ℕ) (db db' : Db) : Type 0 where
  pub before : MemberRow
  pub allowed : CanRemove a id user db before
  pub audited :
      IsAudited rt a.project_id id (update_member a.project_id id user (departed rt) db) db'

pub remove_member-IsRemoved :
    (rt : Runtime) (a : Actor) (id user : ℕ) (trace : Trace) (db : Db)
    → Post (λ _ db'. IsRemoved rt a id user db db') (remove_member rt a id user trace db)
unfolding remove_member
remove_member-IsRemoved rt a id user trace db =
    Gives->>= _ _ _ db (remove_access-CanRemove a id user db) λ before allowed. write->>= _ _ _ db (
      bind->>= _ _ _ _ (audit-IsAudited rt a id _ _ trace _) λ _ db' audited.
        commit-Post _ tt db' (record { before = before; allowed = allowed; audited = audited }))

-- A property of the tables that an upsert and an audited event keep holds after the whole batch.
module _ (rt : Runtime) (a : Actor) (id : ℕ) (trace : Trace) (P : Db → Type 0)
    (upserted : (user : ℕ) (db : Db) → P db → P (upsert rt a.project_id id user db))
    (audited : (db db' : Db) → IsAudited rt a.project_id id db db' → P db → P db') where
  audit_if-keeps :
      (joined : Bool) (user : ℕ) (db : Db)
      → P db
      → Post
          (λ _ db'. P db')
          (audit_if joined rt a id EventType.members_added (Payload.user_ids user) trace db)
  unfolding audit_if
  audit_if-keeps false user db h = commit-Post _ tt db h
  audit_if-keeps true user db h =
      Post-mono _ _ _ (audit-IsAudited rt a id _ _ trace db) λ _ db' e. audited db db' e h

  add_each-keeps :
      (users : List ℕ) (db : Db) → P db → Post (λ _ db'. P db') (add_each rt a id trace users db)
  unfolding add_each add_one
  add_each-keeps [] db h = commit-Post _ [] db h
  add_each-keeps (user ∷ users) db h =
      bind->>= _ _ _ _
        (query->>= (λ _ db'. P db') _ _ db
          λ joined _. write->>= _ _ _ db (
            bind->>= _ _ _ _ (audit_if-keeps joined user _ (upserted user db h))
              λ _ db₁ h₁. query->>= _ _ _ db₁ λ m _. commit-Post _ m db₁ h₁))
        λ m db₁ h₁.
          bind->>= _ _ _ _ (add_each-keeps users db₁ h₁)
            λ items db₂ h₂. commit-Post _ (m ∷ items) db₂ h₂

  pub add_members-keeps :
      (p : AddMembers) (db : Db) → P db → Post (λ _ db'. P db') (add_members rt a id p trace db)
  unfolding add_members
  add_members-keeps p db h =
      check->>= _ _ _ db λ valid. query->>= _ _ _ db λ allowed _. add_each-keeps p.user_ids db h
