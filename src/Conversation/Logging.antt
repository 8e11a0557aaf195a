-- ===== src/Conversation/Logging.antt =====
-- Every command on conversations and memberships keeps the changefeed in step with the counters.
use al_ur_messenger.Prelude.{
  ℕ, ◌≡◌, refl, ap, inl, inr, true, false, none, some, List, [], ◌∷◌, ◌++◌, Bool-cases,
  Option-cases,
}
use al_ur_messenger.Prelude.Table.{find, find-append, find-append_new, find-append_old}
use al_ur_messenger.Runtime.{Runtime}
use al_ur_messenger.Identity.{Actor}
use al_ur_messenger.Store.{Db, ConversationRow, conversation_key}
use al_ur_messenger.Store.Tx.{
  Post, Post-mono, query->>=, check->>=, draw->>=, write->>=, bind->>=, commit-Post,
}
use al_ur_messenger.Event.Log.{IsLogged, high, sequence_of, high-update_first}
use al_ur_messenger.Conversation.{Create, Patch, AddMembers, MemberPatch, Trace}
use al_ur_messenger.Conversation.Audit.{audit-IsAudited, audited-IsLogged}
use al_ur_messenger.Conversation.Members.{
  add_members, patch_member, remove_member, update_member, upsert,
}
use al_ur_messenger.Conversation.Members.Frame.{
  add_members-keeps, patch_member-IsPatched, remove_member-IsRemoved,
}
use al_ur_messenger.Conversation.Commands.{
  create, create_new, create_or_get, insert_conversation, new_conversation, participants, patch,
  update_conversation, retitled,
}

-- The log does not depend on the tables that it does not read.
pub same_log :
    (db db' : Db)
    → ((project id : ℕ) → high project id db'.conversations ≡ high project id db.conversations)
    → db'.events ≡ db.events
    → db'.outbox ≡ db.outbox
    → IsLogged db
    → IsLogged db'
same_log db db' heights events outbox v = record {
  contiguous = λ project id. rw (events, heights project id) (v.contiguous project id);
  mirrored = rw (events, outbox) v.mirrored;
}

upsert-IsLogged :
    (rt : Runtime) (project id user : ℕ) (db : Db)
    → IsLogged db
    → IsLogged (upsert rt project id user db)
unfolding upsert
upsert-IsLogged rt project id user db v = same_log db _ (λ p i. refl) refl refl v

pub add_members-IsLogged :
    (rt : Runtime) (a : Actor) (id : ℕ) (p : AddMembers) (trace : Trace) (db : Db)
    → IsLogged db
    → Post (λ _ db'. IsLogged db') (add_members rt a id p trace db)
add_members-IsLogged rt a id p trace db v =
    add_members-keeps rt a id trace IsLogged (upsert-IsLogged rt a.project_id id)
      (audited-IsLogged rt a.project_id id) p db v

pub patch_member-IsLogged :
    (rt : Runtime) (a : Actor) (id user : ℕ) (p : MemberPatch) (trace : Trace) (db : Db)
    → IsLogged db
    → Post (λ _ db'. IsLogged db') (patch_member rt a id user p trace db)
unfolding update_member
patch_member-IsLogged rt a id user p trace db v =
    Post-mono _ _ _ (patch_member-IsPatched rt a id user p trace db) λ m db' h.
      audited-IsLogged rt a.project_id id _ db' h.audited (same_log db _ (λ p i. refl) refl refl v)

pub remove_member-IsLogged :
    (rt : Runtime) (a : Actor) (id user : ℕ) (trace : Trace) (db : Db)
    → IsLogged db
    → Post (λ _ db'. IsLogged db') (remove_member rt a id user trace db)
unfolding update_member
remove_member-IsLogged rt a id user trace db v =
    Post-mono _ _ _ (remove_member-IsRemoved rt a id user trace db) λ _ db' h.
      audited-IsLogged rt a.project_id id _ db' h.audited (same_log db _ (λ p i. refl) refl refl v)

-- A new conversation has no events yet.
high-append :
    (rt : Runtime) (a : Actor) (new : ℕ) (p : Create) (project id : ℕ) (cs : List ConversationRow)
    → high project id (cs ++ new_conversation rt a new p ∷ []) ≡ high project id cs
high-append rt a new p project id cs = elim (Option-cases (find (conversation_key project id) cs)) [
  | inr (c, old) ↦
      rw
        (
          old,
          find-append_old (conversation_key project id) cs (new_conversation rt a new p ∷ []) c old,
        )
        refl
  | inl absent ↦ elim (Bool-cases (conversation_key project id (new_conversation rt a new p))) [
    | inl hit ↦
        rw
          (
            absent,
            find-append_new (conversation_key project id) cs (new_conversation rt a new p) absent
                hit,
          )
          refl
    | inr miss ↦ ap sequence_of (find-append (conversation_key project id) cs _ miss)
  ]
]

create_new-IsLogged :
    (rt : Runtime) (a : Actor) (p : Create) (trace : Trace) (db : Db)
    → IsLogged db
    → Post (λ _ db'. IsLogged db') (create_new rt a p (participants a p) trace db)
unfolding create_new insert_conversation
create_new-IsLogged rt a p trace db v = draw->>= _ rt _ db (
    query->>= _ _ _ _ λ _ free. write->>= _ _ _ _ (
      bind->>= _ _ _ _ (audit-IsAudited rt a _ _ _ trace _) λ _ db' h.
        query->>= _ _ _ db' λ c found.
          commit-Post _ (c, true) db'
            (audited-IsLogged rt a.project_id _ _ db' h (
              same_log db _ (λ project id. high-append rt a _ p project id db.conversations) refl
                refl v))))

pub create-IsLogged :
    (rt : Runtime) (a : Actor) (p : Create) (trace : Trace) (db : Db)
    → IsLogged db
    → Post (λ _ db'. IsLogged db') (create rt a p trace db)
unfolding create create_or_get
create-IsLogged rt a p trace db v = check->>= _ _ _ db λ valid. query->>= _ _ _ db λ _ locked.
    query->>= _ _ _ db λ _ users. query->>= _ _ _ db (elim [
      | none ↦ λ e. create_new-IsLogged rt a p trace db v
      | some id ↦ λ e. query->>= _ _ _ db λ c found. commit-Post _ (c, false) db v
    ])

pub patch-IsLogged :
    (rt : Runtime) (a : Actor) (id : ℕ) (p : Patch) (trace : Trace) (db : Db)
    → IsLogged db
    → Post (λ _ db'. IsLogged db') (patch rt a id p trace db)
unfolding patch update_conversation
patch-IsLogged rt a id p trace db v = check->>= _ _ _ db λ valid.
    query->>= _ _ _ db λ before allowed. write->>= _ _ _ db (
      bind->>= _ _ _ _ (audit-IsAudited rt a id _ _ trace _) λ _ db' h.
        query->>= _ _ _ db' λ c found. commit-Post _ c db' (
          audited-IsLogged rt a.project_id id _ db' h (
            same_log db _
              (λ project i.
                high-update_first _ (retitled rt p) db.conversations project i (λ c. refl)
                  (λ c. refl) (λ c. refl))
              refl refl v)))
