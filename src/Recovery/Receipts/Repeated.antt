-- ===== src/Recovery/Receipts/Repeated.antt =====
-- A receipt that arrives twice, as when a client retries it.
use al_ur_messenger.Prelude.{ℕ, ◌≡◌, ap, ◌∙◌, true, arith}
use al_ur_messenger.Prelude.Table.{find-update_first, find_sound}
use al_ur_messenger.Result.{ok}
use al_ur_messenger.Runtime.{Runtime}
use al_ur_messenger.Identity.{Actor}
use al_ur_messenger.Store.{Db, MemberRow, conversation_key, member_key}
use al_ur_messenger.Store.Tx.{query_hit, Post-ok, commit}
use al_ur_messenger.Event.{bump_event}
use al_ur_messenger.Event.Log.{IsAppended, appended_members, appended_conversations, appended_rows}
use al_ur_messenger.Conversation.Members.{update_member}
use al_ur_messenger.Recovery.Access.{receipt_access}
use al_ur_messenger.Recovery.Receipts.{
  Checkpoint, ReceiptKind, advanced, receipt, advance, is_unchanged, checkpoint_of,
}
use al_ur_messenger.Recovery.Receipts.Facts.{
  CanReceive, IsReceived, same, moved, receipt-IsReceived, receipt_access_ok,
}

-- What a receipt of a sequence leaves, the same receipt does not move.
advanced-is_unchanged :
    (kind : ReceiptKind) (sequence : ℕ) (m : MemberRow)
    → is_unchanged kind sequence (advanced kind sequence m) ≡ true
advanced-is_unchanged ReceiptKind.read_receipt sequence m = ground arith
advanced-is_unchanged ReceiptKind.delivered_receipt sequence m = ground arith

receipt_unchanged :
    (rt : Runtime) (a : Actor) (id : ℕ) (kind : ReceiptKind) (sequence : ℕ) (db : Db)
    (m : MemberRow)
    → CanReceive a id sequence db m
    → is_unchanged kind sequence m ≡ true
    → receipt rt a id kind sequence db ≡ ok (checkpoint_of m, db)
unfolding receipt advance commit
receipt_unchanged rt a id kind sequence db m can h =
    query_hit (receipt_access a id sequence) _ db m (receipt_access_ok a id sequence db m can)
    ∙ ap (λ b. advance rt a id kind sequence m b db) h

module _ (rt : Runtime) (a : Actor) (id : ℕ) (kind : ReceiptKind) (sequence : ℕ) where
  -- The caller may still send it to the tables that the first one leaves.
  moved-CanReceive :
      (db db' : Db) (m : MemberRow) (e : _)
      → CanReceive a id sequence db m
      → IsAppended rt a.project_id id
          (update_member a.project_id id a.user_id (advanced kind sequence) db)
          e
          db'
      → CanReceive a id sequence db' (advanced kind sequence m)
  unfolding update_member
  moved-CanReceive db db' m e can h =
      let rows = appended_rows rt a.project_id id _ db' e h in
      record {
        project = can.project;
        in_project = rw rows.0 can.in_project;
        settings = can.settings;
        with_settings = rw rows.1 can.with_settings;
        user = can.user;
        known = rw rows.2 can.known;
        welcome = can.welcome;
        conversation = bump_event can.conversation;
        found = rw (appended_conversations rt a.project_id id _ db' e h) (
            find-update_first (conversation_key a.project_id id) bump_event db.conversations
              can.conversation can.found
              (find_sound (conversation_key a.project_id id) db.conversations can.conversation
                can.found));
        live = can.live;
        member = rw (appended_members rt a.project_id id _ db' e h) (
            find-update_first (member_key a.project_id id a.user_id) (advanced kind sequence)
              db.members m can.member
              (find_sound (member_key a.project_id id a.user_id) db.members m can.member));
        active = can.active;
        allowed = can.allowed;
        reached = can.reached;
      }

  repeated :
      (db db' : Db) (m : MemberRow) (c : Checkpoint)
      → CanReceive a id sequence db m
      → IsReceived rt a id kind sequence db m c db'
      → (rt' : Runtime) → receipt rt' a id kind sequence db' ≡ ok (c, db')
  repeated db db' m c can (same h) rt' = receipt_unchanged rt' a id kind sequence db m can h
  repeated db db' m c can (moved e h appended) rt' =
      receipt_unchanged rt' a id kind sequence db' (advanced kind sequence m)
        (moved-CanReceive db db' m e can appended) (advanced-is_unchanged kind sequence m)

-- If a receipt succeeds, then the same receipt of the same caller, sent again before anything else
-- changes, succeeds with the same checkpoint and leaves every table as it is.
pub receipt_again :
    (rt rt' : Runtime) (a : Actor) (id : ℕ) (kind : ReceiptKind) (sequence : ℕ) (db db' : Db)
    (c : Checkpoint)
    → receipt rt a id kind sequence db ≡ ok (c, db')
    → receipt rt' a id kind sequence db' ≡ ok (c, db')
receipt_again rt rt' a id kind sequence db db' c e =
    let (m, can, h) = Post-ok _ _ c db' (receipt-IsReceived rt a id kind sequence db) e in
    repeated rt a id kind sequence db db' m c can h rt'
