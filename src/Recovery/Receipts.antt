-- ===== src/Recovery/Receipts.antt =====
-- RecoveryStore.Receipt: a user's read and delivered positions in a conversation.
pub mod Facts
pub mod Repeated
pub mod Positions
pub mod Upkeep
pub mod Invariants
use al_ur_messenger.Prelude.{
  ℕ, suc, Bool, true, false, ◌&&◌, not, Option, none, some, ltb, ◌==◌, max, is_none, if◌then◌else◌,
}
use al_ur_messenger.Prelude.Table.{find}
use al_ur_messenger.Result.{
  Result, ok, err, Error, guard, fail_if, or_fail, not_found, no_rows, banned, invalid,
}
use al_ur_messenger.Runtime.{Runtime, valid_id}
use al_ur_messenger.Identity.{Actor}
use al_ur_messenger.Store.{Db, MemberRow, EventType, Payload, user_key}
use al_ur_messenger.Store.Tx.{Tx, Query, ◌>>=◌, ◌>>◌, query, check, write, commit}
use al_ur_messenger.Event.{append}
use al_ur_messenger.Conversation.Members.{update_member}
use al_ur_messenger.Recovery.Access.{receipt_access}

-- message.Checkpoint
pub record Checkpoint : Type 0 where
  pub user_id : ℕ
  pub read : ℕ
  pub delivered : ℕ
  pub version : ℕ

-- "read" or "delivered".
pub data ReceiptKind : Type 0 where
  read_receipt delivered_receipt : ReceiptKind

abbrev pub checkpoint_of : MemberRow → Checkpoint
checkpoint_of m = record {
  user_id = m.user_id;
  read = m.read;
  delivered = m.delivered;
  version = m.version;
}

abbrev pub next_read : ReceiptKind → ℕ → ℕ → ℕ
next_read read_receipt old sequence = max old sequence
next_read delivered_receipt old sequence = old

abbrev pub event_of_kind : ReceiptKind → EventType
event_of_kind read_receipt = EventType.message_read
event_of_kind delivered_receipt = EventType.message_delivered

-- SET last_read_sequence=$4,last_delivered_sequence=$5,version=version+1
abbrev pub advanced : ReceiptKind → ℕ → MemberRow → MemberRow
advanced kind sequence m = record m {
  read = next_read kind m.read sequence;
  delivered = max m.delivered sequence;
  version = suc m.version;
}

abbrev pub is_unchanged : ReceiptKind → ℕ → MemberRow → Bool
is_unchanged kind sequence m =
    next_read kind m.read sequence == m.read && max m.delivered sequence == m.delivered

abbrev receipt_payload : MemberRow → Payload
receipt_payload m = Payload.receipt m.user_id m.read m.delivered m.version

unfoldable pub advance : Runtime → Actor → ℕ → ReceiptKind → ℕ → MemberRow → Bool → Tx Checkpoint
advance rt a id kind sequence m true = commit (checkpoint_of m)
advance rt a id kind sequence m false = do
  write (update_member a.project_id id a.user_id (advanced kind sequence))
  e ← append rt a.project_id id (event_of_kind kind) (receipt_payload (advanced kind sequence m))
  commit (checkpoint_of (advanced kind sequence m))

unfoldable pub receipt : Runtime → Actor → ℕ → ReceiptKind → ℕ → Tx Checkpoint
unfolding advance receipt_access update_member
receipt rt a id kind sequence = do
  m ← query (receipt_access a id sequence)
  advance rt a id kind sequence m (is_unchanged kind sequence m)

-- RecoveryService.Receipt, where the text of the kind is `none` if it is neither.
unfoldable pub request_receipt : Runtime → Actor → ℕ → Option ReceiptKind → ℕ → Tx Checkpoint
request_receipt rt a id none sequence db = err invalid
request_receipt rt a id (some kind) sequence db =
    if valid_id rt id then receipt rt a id kind sequence db else err invalid
