-- ===== src/Message/Sequence/Upkeep.antt =====
-- The commands on conversations, memberships and receipts keep the numbers of the messages.
use al_ur_messenger.Prelude.{ℕ, refl, some, none, true, false, List}
use al_ur_messenger.Runtime.{Runtime}
use al_ur_messenger.Identity.{Actor}
use al_ur_messenger.Store.{Db, conversation_key}
use al_ur_messenger.Store.Tx.{
  Post, Post-mono, drawn_once, query->>=, check->>=, draw->>=, write->>=, bind->>=, commit-Post,
}
use al_ur_messenger.Event.{bump_event}
use al_ur_messenger.Conversation.{Create, Patch, AddMembers, MemberPatch, Trace}
use al_ur_messenger.Conversation.Audit.{
  IsAudited, audit-IsAudited, audited_messages, audited_conversations,
}
use al_ur_messenger.Conversation.Members.{
  add_members, patch_member, remove_member, update_member, upsert,
}
use al_ur_messenger.Conversation.Members.Frame.{
  add_members-keeps, patch_member-IsPatched, remove_member-IsRemoved,
}
use al_ur_messenger.Conversation.Commands.{
  create, create_new, create_or_get, insert_conversation, new_conversation, participants, patch,
  retitled,
}
use al_ur_messenger.Recovery.Receipts.{ReceiptKind, receipt, Checkpoint}
use al_ur_messenger.Recovery.Receipts.Facts.{receipt-IsReceived, IsReceived, same, moved}
use al_ur_messenger.Recovery.Receipts.Positions.{last_message-update_first, last_message-append}
use al_ur_messenger.Message.Stable.{IsTouch}
use al_ur_messenger.Message.Sequence.{IsSequenced, IsSequenced-IsStable, same_sequence}

audited-IsSequenced :
    (rt : Runtime) (project id : ℕ) (db db' : Db)
    → IsAudited rt project id db db'
    → IsSequenced db
    → IsSequenced db'
audited-IsSequenced rt project id db db' h v =
    same_sequence db db'
      (λ p i. rw (audited_conversations rt project id db db' h) (
        last_message-update_first (conversation_key project id) bump_event db.conversations p i
          (λ c. refl) (λ c. refl) (λ c. refl)))
      (audited_messages rt project id db db' h) v

-- The members are no part of it.
update_member-IsSequenced :
    (project id user : ℕ) (f : _) (db : Db)
    → IsSequenced db
    → IsSequenced (update_member project id user f db)
unfolding update_member
update_member-IsSequenced project id user f db v = v

upsert-IsSequenced :
    (rt : Runtime) (project id user : ℕ) (db : Db)
    → IsSequenced db
    → IsSequenced (upsert rt project id user db)
unfolding upsert
upsert-IsSequenced rt project id user db v = v

pub add_members-IsSequenced :
    (rt : Runtime) (a : Actor) (id : ℕ) (p : AddMembers) (trace : Trace) (db : Db)
    → IsSequenced db
    → Post (λ _ db'. IsSequenced db') (add_members rt a id p trace db)
add_members-IsSequenced rt a id p trace db v =
    add_members-keeps rt a id trace IsSequenced (upsert-IsSequenced rt a.project_id id)
      (audited-IsSequenced rt a.project_id id) p db v

pub patch_member-IsSequenced :
    (rt : Runtime) (a : Actor) (id user : ℕ) (p : MemberPatch) (trace : Trace) (db : Db)
    → IsSequenced db
    → Post (λ _ db'. IsSequenced db') (patch_member rt a id user p trace db)
patch_member-IsSequenced rt a id user p trace db v =
    Post-mono _ _ _ (patch_member-IsPatched rt a id user p trace db) λ m db' h.
      audited-IsSequenced rt a.project_id id _ db' h.audited
        (update_member-IsSequenced a.project_id id user _ db v)

pub remove_member-IsSequenced :
    (rt : Runtime) (a : Actor) (id user : ℕ) (trace : Trace) (db : Db)
    → IsSequenced db
    → Post (λ _ db'. IsSequenced db') (remove_member rt a id user trace db)
remove_member-IsSequenced rt a id user trace db v =
    Post-mono _ _ _ (remove_member-IsRemoved rt a id user trace db) λ _ db' h.
      audited-IsSequenced rt a.project_id id _ db' h.audited
        (update_member-IsSequenced a.project_id id user _ db v)

insert-IsSequenced :
    (rt : Runtime) (a : Actor) (id : ℕ) (p : Create) (users : List ℕ) (db : Db)
    → IsSequenced db
    → IsSequenced (insert_conversation rt a id p users db)
unfolding insert_conversation
insert-IsSequenced rt a id p users db v =
    same_sequence db (insert_conversation rt a id p users db)
      (λ project i.
        last_message-append (new_conversation rt a id p) project i db.conversations refl)
      refl v

create_new-IsSequenced :
    (rt : Runtime) (a : Actor) (p : Create) (trace : Trace) (db : Db)
    → IsSequenced db
    → Post (λ _ db'. IsSequenced db') (create_new rt a p (participants a p) trace db)
unfolding create_new
create_new-IsSequenced rt a p trace db v = draw->>= _ rt _ db (
    query->>= _ _ _ _ λ _ free. write->>= _ _ _ _ (
      bind->>= _ _ _ _ (audit-IsAudited rt a _ _ _ trace _) λ _ db' h.
        query->>= _ _ _ db' λ c found.
          commit-Post _ (c, true) db'
            (audited-IsSequenced rt a.project_id _ _ db' h
              (insert-IsSequenced rt a _ p (participants a p) (drawn_once db) v))))

pub create-IsSequenced :
    (rt : Runtime) (a : Actor) (p : Create) (trace : Trace) (db : Db)
    → IsSequenced db
    → Post (λ _ db'. IsSequenced db') (create rt a p trace db)
unfolding create create_or_get
create-IsSequenced rt a p trace db v = check->>= _ _ _ db λ valid. query->>= _ _ _ db λ _ locked.
    query->>= _ _ _ db λ _ users. query->>= _ _ _ db (elim [
      | none ↦ λ e. create_new-IsSequenced rt a p trace db v
      | some id ↦ λ e. query->>= _ _ _ db λ c found. commit-Post _ (c, false) db v
    ])

retitled-IsTouch : (rt : Runtime) (p : Patch) → IsTouch (retitled rt p)
retitled-IsTouch rt p = record {
  project = λ c. refl;
  id = λ c. refl;
  type = λ c. refl;
  events = λ c. refl;
  messages = λ c. refl;
}

pub patch-IsSequenced :
    (rt : Runtime) (a : Actor) (id : ℕ) (p : Patch) (trace : Trace) (db : Db)
    → IsSequenced db
    → Post (λ _ db'. IsSequenced db') (patch rt a id p trace db)
unfolding patch
patch-IsSequenced rt a id p trace db v = check->>= _ _ _ db λ valid.
    query->>= _ _ _ db λ before allowed. write->>= _ _ _ db (
      bind->>= _ _ _ _ (audit-IsAudited rt a id _ _ trace _) λ _ db' h.
        query->>= _ _ _ db' λ c found. commit-Post _ c db' (
          audited-IsSequenced rt a.project_id id _ db' h
            (IsSequenced-IsStable.touched a.project_id id _ db (retitled-IsTouch rt p) v)))

pub receipt-IsSequenced :
    (rt : Runtime) (a : Actor) (id : ℕ) (kind : ReceiptKind) (sequence : ℕ) (db : Db)
    → IsSequenced db
    → Post (λ _ db'. IsSequenced db') (receipt rt a id kind sequence db)
receipt-IsSequenced rt a id kind sequence db v =
    Post-mono _ _ _ (receipt-IsReceived rt a id kind sequence db) λ c db' h. go h.0 c db' h.2
  where
    go :
        (m : _) (c : Checkpoint) (db' : Db)
        → IsReceived rt a id kind sequence db m c db'
        → IsSequenced db'
    go m c db' (same h) = v
    go m c db' (moved e h appended) =
        IsSequenced-IsStable.appended rt a.project_id id _ db' e appended
          (update_member-IsSequenced a.project_id id a.user_id _ db v)
