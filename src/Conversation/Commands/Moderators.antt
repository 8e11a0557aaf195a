-- ===== src/Conversation/Commands/Moderators.antt =====
-- A new GROUP or CHANNEL starts with its creator as acting moderator; Patch keeps the moderators.
use al_ur_messenger.Prelude.{
  ℕ, ◌≡◌, refl, ◌∙◌, inl, inr, true, false, ◌&&◌, not, Option, none, some, List, [], ◌∷◌, ◌++◌,
  ◌==◌, arith, Bool-cases, Option-cases,
}
use al_ur_messenger.Prelude.Table.{
  find, exists, exists-append, exists-append_right, exists-order_by, exists-map, find-append_old,
  find-append, find-append_new,
}
use al_ur_messenger.Runtime.{Runtime}
use al_ur_messenger.Identity.{Actor}
use al_ur_messenger.Store.{Db, ConversationRow, ConversationType, conversation_key, is_direct}
use al_ur_messenger.Event.Log.{==_pair}
use al_ur_messenger.Store.Tx.{
  Post, drawn_once, query->>=, check->>=, draw->>=, write->>=, bind->>=, commit-Post,
}
use al_ur_messenger.Conversation.{Create, Patch, Trace}
use al_ur_messenger.Conversation.Audit.{audit-IsAudited}
use al_ur_messenger.Conversation.Members.Moderators.{
  HasModerators, is_acting_of, has_moderators, AreModerated-update_conversation,
  audited-HasModerators,
}
use al_ur_messenger.Conversation.Commands.{
  create, create_new, create_or_get, insert_conversation, new_conversation, new_members,
  participants, patch, update_conversation, retitled, is_direct_type, type_or_group,
}

creator_acts :
    (rt : Runtime) (a : Actor) (id : ℕ) (p : Create)
    → is_direct_type p.type ≡ false
    → exists (is_acting_of a.project_id id) (new_members rt a id p (participants a p)) ≡ true
unfolding exists
creator_acts rt a id p h =
    exists-map _ _ (participants a p)
    ∙ (exists-order_by _ (λ x. x) (a.user_id ∷ p.member_ids) ∙ ground arith)

has_moderators-type :
    (t : Option ConversationType)
    → not (is_direct (type_or_group t)) ≡ true
    → is_direct_type t ≡ false
has_moderators-type t h = ground arith

created_acts :
    (rt : Runtime) (a : Actor) (id : ℕ) (p : Create) (project' id' : ℕ) (cs : List ConversationRow)
    → find (conversation_key project' id') cs ≡ none
    → has_moderators (find (conversation_key project' id') (cs ++ new_conversation rt a id p ∷ []))
      ≡ true
    → exists (is_acting_of project' id') (new_members rt a id p (participants a p)) ≡ true
created_acts rt a id p project' id' cs absent h =
    elim (Bool-cases (a.project_id == project' && id == id')) [
      | inl hit ↦
          let (same_project, same_id) = ==_pair a.project_id id project' id' hit in
          rw (← same_project, ← same_id)
            (creator_acts rt a id p (
              has_moderators-type p.type (
                rw
                  (find-append_new (conversation_key project' id') cs (new_conversation rt a id p)
                    absent hit)
                  at h)))
      | inr miss ↦
          let none_found : false ≡ true =
            rw
              (
                find-append (conversation_key project' id') cs (new_conversation rt a id p) miss,
                absent,
              )
              at h in
          cc
    ]

insert-HasModerators :
    (rt : Runtime) (a : Actor) (id : ℕ) (p : Create) (db : Db)
    → HasModerators db
    → HasModerators (insert_conversation rt a id p (participants a p) db)
unfolding insert_conversation
insert-HasModerators rt a id p db v project' id' h =
    elim (Option-cases (find (conversation_key project' id') db.conversations)) [
      | inr (c, old) ↦ exists-append _ db.members _ (
          v project' id' (
            rw old
              (rw (find-append_old (conversation_key project' id') db.conversations _ c old) at h)))
      | inl absent ↦
          exists-append_right _ db.members _
            (created_acts rt a id p project' id' db.conversations absent h)
    ]

create_new-HasModerators :
    (rt : Runtime) (a : Actor) (p : Create) (trace : Trace) (db : Db)
    → HasModerators db
    → Post (λ _ db'. HasModerators db') (create_new rt a p (participants a p) trace db)
unfolding create_new
create_new-HasModerators rt a p trace db v = draw->>= _ rt _ db (
    query->>= _ _ _ _ λ _ free. write->>= _ _ _ _ (
      bind->>= _ _ _ _ (audit-IsAudited rt a _ _ _ trace _) λ _ db' h.
        query->>= _ _ _ db' λ c found.
          commit-Post _ (c, true) db'
            (audited-HasModerators rt a.project_id _ _ db' h
              (insert-HasModerators rt a _ p (drawn_once db) v))))

pub create-HasModerators :
    (rt : Runtime) (a : Actor) (p : Create) (trace : Trace) (db : Db)
    → HasModerators db
    → Post (λ _ db'. HasModerators db') (create rt a p trace db)
unfolding create create_or_get
create-HasModerators rt a p trace db v = check->>= _ _ _ db λ valid. query->>= _ _ _ db λ _ locked.
    query->>= _ _ _ db λ _ users. query->>= _ _ _ db (elim [
      | none ↦ λ e. create_new-HasModerators rt a p trace db v
      | some id ↦ λ e. query->>= _ _ _ db λ c found. commit-Post _ (c, false) db v
    ])

pub patch-HasModerators :
    (rt : Runtime) (a : Actor) (id : ℕ) (p : Patch) (trace : Trace) (db : Db)
    → HasModerators db
    → Post (λ _ db'. HasModerators db') (patch rt a id p trace db)
unfolding patch update_conversation
patch-HasModerators rt a id p trace db v = check->>= _ _ _ db λ valid.
    query->>= _ _ _ db λ before allowed. write->>= _ _ _ db (
      bind->>= _ _ _ _ (audit-IsAudited rt a id _ _ trace _) λ _ db' h.
        query->>= _ _ _ db' λ c found. commit-Post _ c db' (
          audited-HasModerators rt a.project_id id _ db' h (
            AreModerated-update_conversation _ (retitled rt p) db.conversations db.members
              (λ x. refl) (λ x. refl) (λ x. refl) v)))
