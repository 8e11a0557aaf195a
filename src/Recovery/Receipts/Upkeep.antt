-- ===== src/Recovery/Receipts/Upkeep.antt =====
-- The commands of the changefeed on memberships, conversations and receipts keep the positions.
use al_ur_messenger.Prelude.{
  ℕ, refl, inl, inr, true, false, Option, some, none, List, [], ◌∷◌, ◌++◌, arith, Bool-cases, All,
  All-append,
}
use al_ur_messenger.Prelude.Table.{find, update_first-All}
use al_ur_messenger.Runtime.{Runtime}
use al_ur_messenger.Identity.{Actor}
use al_ur_messenger.Store.{Db, MemberRow, ConversationRow, conversation_key, member_key}
use al_ur_messenger.Store.Tx.{
  Post, Post-mono, drawn_once, query->>=, check->>=, draw->>=, write->>=, bind->>=, commit-Post,
}
use al_ur_messenger.Event.{bump_event}
use al_ur_messenger.Conversation.{Create, Patch, AddMembers, MemberPatch, Trace}
use al_ur_messenger.Conversation.Audit.{
  IsAudited, audit-IsAudited, audited_members, audited_conversations,
}
use al_ur_messenger.Conversation.Members.{
  add_members, patch_member, remove_member, update_member, upsert, upsert_at, patched, departed,
  rejoin, has_left,
}
use al_ur_messenger.Conversation.Members.Frame.{
  add_members-keeps, patch_member-IsPatched, remove_member-IsRemoved,
}
use al_ur_messenger.Conversation.Commands.{
  create, create_new, create_or_get, insert_conversation, new_conversation, new_members,
  participants, patch, update_conversation, retitled,
}
use al_ur_messenger.Recovery.Receipts.Positions.{
  HasPositions, IsPlaced, AllPlaced-conversations, last_message-update_first, last_message-append,
}

audited-HasPositions :
    (rt : Runtime) (project id : ℕ) (db db' : Db)
    → IsAudited rt project id db db'
    → HasPositions db
    → HasPositions db'
audited-HasPositions rt project id db db' h v =
    rw (audited_members rt project id db db' h, audited_conversations rt project id db db' h)
      (AllPlaced-conversations db.conversations _ db.members
        (λ p i.
          let same_last =
            last_message-update_first (conversation_key project id) bump_event db.conversations p i
              (λ c. refl) (λ c. refl) (λ c. refl) in
          omega arith)
        v)

-- A member update that keeps the key and the positions.
update_member-HasPositions :
    (project id user : ℕ) (f : MemberRow → MemberRow) (db : Db)
    → ((m : MemberRow) → IsPlaced db.conversations m → IsPlaced db.conversations (f m))
    → HasPositions db
    → HasPositions (update_member project id user f db)
unfolding update_member
update_member-HasPositions project id user f db k v =
    update_first-All (IsPlaced db.conversations) (member_key project id user) f db.members
      (λ m e. k m) v

upsert-HasPositions :
    (rt : Runtime) (project id user : ℕ) (db : Db)
    → HasPositions db
    → HasPositions (upsert rt project id user db)
unfolding upsert
upsert-HasPositions rt project id user db v = go (find (member_key project id user) db.members)
  where
    go :
        (o : Option MemberRow)
        → All (IsPlaced db.conversations) (upsert_at rt project id user db.members o)
    go none = All-append (IsPlaced db.conversations) db.members _ v ((omega arith, omega arith), tt)
    go (some m) = elim (Bool-cases (has_left m)) [
      | inl left ↦ rw left (
          update_first-All (IsPlaced db.conversations) (member_key project id user) rejoin
            db.members (λ m e h. h) v)
      | inr here ↦ rw here v
    ]

pub add_members-HasPositions :
    (rt : Runtime) (a : Actor) (id : ℕ) (p : AddMembers) (trace : Trace) (db : Db)
    → HasPositions db
    → Post (λ _ db'. HasPositions db') (add_members rt a id p trace db)
add_members-HasPositions rt a id p trace db v =
    add_members-keeps rt a id trace HasPositions (upsert-HasPositions rt a.project_id id)
      (audited-HasPositions rt a.project_id id) p db v

pub patch_member-HasPositions :
    (rt : Runtime) (a : Actor) (id user : ℕ) (p : MemberPatch) (trace : Trace) (db : Db)
    → HasPositions db
    → Post (λ _ db'. HasPositions db') (patch_member rt a id user p trace db)
patch_member-HasPositions rt a id user p trace db v =
    Post-mono _ _ _ (patch_member-IsPatched rt a id user p trace db) λ m db' h.
      audited-HasPositions rt a.project_id id _ db' h.audited
        (update_member-HasPositions a.project_id id user (patched p) db (λ m h. h) v)

pub remove_member-HasPositions :
    (rt : Runtime) (a : Actor) (id user : ℕ) (trace : Trace) (db : Db)
    → HasPositions db
    → Post (λ _ db'. HasPositions db') (remove_member rt a id user trace db)
remove_member-HasPositions rt a id user trace db v =
    Post-mono _ _ _ (remove_member-IsRemoved rt a id user trace db) λ _ db' h.
      audited-HasPositions rt a.project_id id _ db' h.audited
        (update_member-HasPositions a.project_id id user (departed rt) db (λ m h. h) v)

new_members-IsPlaced :
    (rt : Runtime) (a : Actor) (id : ℕ) (p : Create) (users : List ℕ) (cs : List ConversationRow)
    → All (IsPlaced cs) (new_members rt a id p users)
new_members-IsPlaced rt a id p [] cs = tt
new_members-IsPlaced rt a id p (user ∷ users) cs =
    ((omega arith, omega arith), new_members-IsPlaced rt a id p users cs)

insert-HasPositions :
    (rt : Runtime) (a : Actor) (id : ℕ) (p : Create) (users : List ℕ) (db : Db)
    → HasPositions db
    → HasPositions (insert_conversation rt a id p users db)
unfolding insert_conversation
insert-HasPositions rt a id p users db v =
    All-append (IsPlaced (db.conversations ++ new_conversation rt a id p ∷ [])) db.members _
      (AllPlaced-conversations db.conversations _ db.members
        (λ project i.
          let same_last =
            last_message-append (new_conversation rt a id p) project i db.conversations refl in
          omega arith)
        v)
      (new_members-IsPlaced rt a id p users _)

create_new-HasPositions :
    (rt : Runtime) (a : Actor) (p : Create) (trace : Trace) (db : Db)
    → HasPositions db
    → Post (λ _ db'. HasPositions db') (create_new rt a p (participants a p) trace db)
unfolding create_new
create_new-HasPositions rt a p trace db v = draw->>= _ rt _ db (
    query->>= _ _ _ _ λ _ free. write->>= _ _ _ _ (
      bind->>= _ _ _ _ (audit-IsAudited rt a _ _ _ trace _) λ _ db' h.
        query->>= _ _ _ db' λ c found.
          commit-Post _ (c, true) db'
            (audited-HasPositions rt a.project_id _ _ db' h
              (insert-HasPositions rt a _ p (participants a p) (drawn_once db) v))))

pub create-HasPositions :
    (rt : Runtime) (a : Actor) (p : Create) (trace : Trace) (db : Db)
    → HasPositions db
    → Post (λ _ db'. HasPositions db') (create rt a p trace db)
unfolding create create_or_get
create-HasPositions rt a p trace db v = check->>= _ _ _ db λ valid. query->>= _ _ _ db λ _ locked.
    query->>= _ _ _ db λ _ users. query->>= _ _ _ db (elim [
      | none ↦ λ e. create_new-HasPositions rt a p trace db v
      | some id ↦ λ e. query->>= _ _ _ db λ c found. commit-Post _ (c, false) db v
    ])

pub patch-HasPositions :
    (rt : Runtime) (a : Actor) (id : ℕ) (p : Patch) (trace : Trace) (db : Db)
    → HasPositions db
    → Post (λ _ db'. HasPositions db') (patch rt a id p trace db)
unfolding patch update_conversation
patch-HasPositions rt a id p trace db v = check->>= _ _ _ db λ valid.
    query->>= _ _ _ db λ before allowed. write->>= _ _ _ db (
      bind->>= _ _ _ _ (audit-IsAudited rt a id _ _ trace _) λ _ db' h.
        query->>= _ _ _ db' λ c found. commit-Post _ c db' (
          audited-HasPositions rt a.project_id id _ db' h (
            AllPlaced-conversations db.conversations _ db.members
              (λ project i.
                let same_last =
                  last_message-update_first (conversation_key a.project_id id) (retitled rt p)
                    db.conversations project i (λ c. refl) (λ c. refl) (λ c. refl) in
                omega arith)
              v)))
