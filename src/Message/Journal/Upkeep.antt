-- ===== src/Message/Journal/Upkeep.antt =====
-- The commands on conversations, memberships and receipts leave the messages as they are.
use al_ur_messenger.Prelude.{ℕ, ◌≡◌, ◌∙◌, some, none, true, false}
use al_ur_messenger.Runtime.{Runtime}
use al_ur_messenger.Identity.{Actor}
use al_ur_messenger.Store.{Db}
use al_ur_messenger.Store.Tx.{
  Post, Post-mono, drawn_once, query->>=, check->>=, draw->>=, write->>=, bind->>=, commit-Post,
}
use al_ur_messenger.Event.Log.{appended_messages}
use al_ur_messenger.Conversation.{Create, Patch, AddMembers, MemberPatch, Trace}
use al_ur_messenger.Conversation.Audit.{IsAudited, audit-IsAudited, audited_messages}
use al_ur_messenger.Conversation.Members.{
  add_members, patch_member, remove_member, update_member, upsert,
}
use al_ur_messenger.Conversation.Members.Frame.{
  add_members-keeps, patch_member-IsPatched, remove_member-IsRemoved,
}
use al_ur_messenger.Conversation.Commands.{
  create, create_new, create_or_get, insert_conversation, participants, patch, update_conversation,
}
use al_ur_messenger.Recovery.Receipts.{ReceiptKind, receipt, Checkpoint}
use al_ur_messenger.Recovery.Receipts.Facts.{receipt-IsReceived, IsReceived, same, moved}

-- The same messages as in the first tables.
abbrev pub SameMessages : Db → Db → Type 0
SameMessages first db = db.messages ≡ first.messages

module _ (first : Db) (rt : Runtime) (a : Actor) where
  audited-SameMessages :
      (id : ℕ) (db db' : Db)
      → IsAudited rt a.project_id id db db'
      → SameMessages first db
      → SameMessages first db'
  audited-SameMessages id db db' h v = audited_messages rt a.project_id id db db' h ∙ v

  update_member-SameMessages :
      (id user : ℕ) (f : _) (db : Db)
      → SameMessages first db
      → SameMessages first (update_member a.project_id id user f db)
  unfolding update_member
  update_member-SameMessages id user f db v = v

  upsert-SameMessages :
      (id user : ℕ) (db : Db)
      → SameMessages first db
      → SameMessages first (upsert rt a.project_id id user db)
  unfolding upsert
  upsert-SameMessages id user db v = v

  pub add_members-SameMessages :
      (id : ℕ) (p : AddMembers) (trace : Trace) (db : Db)
      → SameMessages first db
      → Post (λ _ db'. SameMessages first db') (add_members rt a id p trace db)
  add_members-SameMessages id p trace db v =
      add_members-keeps rt a id trace (SameMessages first) (upsert-SameMessages id)
        (audited-SameMessages id) p db v

  pub patch_member-SameMessages :
      (id user : ℕ) (p : MemberPatch) (trace : Trace) (db : Db)
      → SameMessages first db
      → Post (λ _ db'. SameMessages first db') (patch_member rt a id user p trace db)
  patch_member-SameMessages id user p trace db v =
      Post-mono _ _ _ (patch_member-IsPatched rt a id user p trace db) λ m db' h.
        audited-SameMessages id _ db' h.audited (update_member-SameMessages id user _ db v)

  pub remove_member-SameMessages :
      (id user : ℕ) (trace : Trace) (db : Db)
      → SameMessages first db
      → Post (λ _ db'. SameMessages first db') (remove_member rt a id user trace db)
  remove_member-SameMessages id user trace db v =
      Post-mono _ _ _ (remove_member-IsRemoved rt a id user trace db) λ _ db' h.
        audited-SameMessages id _ db' h.audited (update_member-SameMessages id user _ db v)

  create_new-SameMessages :
      (p : Create) (trace : Trace) (db : Db)
      → SameMessages first db
      → Post (λ _ db'. SameMessages first db') (create_new rt a p (participants a p) trace db)
  unfolding create_new insert_conversation
  create_new-SameMessages p trace db v = draw->>= _ rt _ db (
      query->>= _ _ _ _ λ _ free. write->>= _ _ _ _ (
        bind->>= _ _ _ _ (audit-IsAudited rt a _ _ _ trace _) λ _ db' h.
          query->>= _ _ _ db' λ c found.
            commit-Post _ (c, true) db'
              (audited-SameMessages _
                (insert_conversation rt a _ p (participants a p) (drawn_once db)) db' h v)))

  pub create-SameMessages :
      (p : Create) (trace : Trace) (db : Db)
      → SameMessages first db
      → Post (λ _ db'. SameMessages first db') (create rt a p trace db)
  unfolding create create_or_get
  create-SameMessages p trace db v = check->>= _ _ _ db λ valid. query->>= _ _ _ db λ _ locked.
      query->>= _ _ _ db λ _ users. query->>= _ _ _ db (elim [
        | none ↦ λ e. create_new-SameMessages p trace db v
        | some id ↦ λ e. query->>= _ _ _ db λ c found. commit-Post _ (c, false) db v
      ])

  pub patch-SameMessages :
      (id : ℕ) (p : Patch) (trace : Trace) (db : Db)
      → SameMessages first db
      → Post (λ _ db'. SameMessages first db') (patch rt a id p trace db)
  unfolding patch update_conversation
  patch-SameMessages id p trace db v = check->>= _ _ _ db λ valid.
      query->>= _ _ _ db λ before allowed. write->>= _ _ _ db (
        bind->>= _ _ _ _ (audit-IsAudited rt a id _ _ trace _) λ _ db' h.
          query->>= _ _ _ db' λ c found.
            commit-Post _ c db'
              (audited-SameMessages id (update_conversation a.project_id id _ db) db' h v))

  pub receipt-SameMessages :
      (id : ℕ) (kind : ReceiptKind) (sequence : ℕ) (db : Db)
      → SameMessages first db
      → Post (λ _ db'. SameMessages first db') (receipt rt a id kind sequence db)
  receipt-SameMessages id kind sequence db v =
      Post-mono _ _ _ (receipt-IsReceived rt a id kind sequence db) λ c db' h. go h.0 c db' h.2
    where
      go :
          (m : _) (c : Checkpoint) (db' : Db)
          → IsReceived rt a id kind sequence db m c db'
          → SameMessages first db'
      go m c db' (same h) = v
      go m c db' (moved e h appended) =
          appended_messages rt a.project_id id _ db' e appended
          ∙ update_member-SameMessages id a.user_id _ db v
