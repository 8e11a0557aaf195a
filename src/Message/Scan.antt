-- ===== src/Message/Scan.antt =====
-- columns and scan of internal/message/repository/postgres.go: one row as a reader sees it.
pub mod Facts
use al_ur_messenger.Prelude.{
  ℕ, suc, Bool, true, false, ◌&&◌, not, Option, none, some, List, [], ◌∷◌, ◌++◌, ltb, leb, ◌==◌,
  if◌then◌else◌, is_some,
}
use al_ur_messenger.Prelude.Table.{find, select, order_by}
use al_ur_messenger.Result.{Result, ok, err, crypto, not_found}
use al_ur_messenger.Text.{Text}
use al_ur_messenger.Runtime.{Runtime}
use al_ur_messenger.Store.{
  Db, MessageRow, ReactionRow, PinRow, AttachmentRow, AttachedRow, message_key,
}
use al_ur_messenger.Store.Tx.{Query}
use al_ur_messenger.Store.Query.{◌>>=◌, row}
use al_ur_messenger.Message.{
  Message, Status, is_active, is_deleted, is_expired, Reaction, Pin, Body, Forward, Outside,
}

abbrev pub has_reaction : MessageRow → ReactionRow → Bool
has_reaction m r =
    r.project_id == m.project_id && r.conversation_id == m.conversation_id && r.message_id == m.id

-- One more of the first reaction when the rows come in order.
abbrev counted : ReactionRow → List Reaction → List Reaction
counted r [] = record { emoji = r.reaction; count = 1 } ∷ []
counted r (c ∷ cs) =
    if r.reaction == c.emoji
    then record { emoji = c.emoji; count = suc c.count } ∷ cs
    else record { emoji = r.reaction; count = 1 } ∷ c ∷ cs

-- GROUP BY reaction, of rows in the order of the reactions.
unfoldable pub grouped : List ReactionRow → List Reaction
grouped [] = []
grouped (r ∷ rs) = counted r (grouped rs)

abbrev pub reactions_of : MessageRow → Db → List Reaction
reactions_of m db = grouped (order_by (λ r. r.reaction) (select (has_reaction m) db.reactions))

abbrev pub has_pin : MessageRow → PinRow → Bool
has_pin m p =
    p.project_id == m.project_id && p.conversation_id == m.conversation_id && p.message_id == m.id

abbrev pub pin_of : MessageRow → Db → Option Pin
pin_of m db = elim (find (has_pin m) db.pins) [
  | none ↦ none
  | some p ↦ some (record {
    message_id = p.message_id;
    pinned_by = p.pinned_by;
    created_at = p.created_at;
    version = m.version;
  })
]

abbrev has_attachment : MessageRow → AttachedRow → Bool
has_attachment m r =
    r.project_id == m.project_id && r.conversation_id == m.conversation_id && r.message_id == m.id

-- message_attachments JOIN attachments
unfoldable pub joined : List AttachmentRow → List AttachedRow → List AttachmentRow
joined all [] = []
joined all (r ∷ rs) =
    let rest = joined all rs in
    elim (find (λ a. a.project_id == r.project_id && a.id == r.attachment_id) all) [
      | none ↦ rest
      | some a ↦ a ∷ rest
    ]

abbrev pub attachments_of : MessageRow → Db → List AttachmentRow
attachments_of m db = joined db.attachments (select (has_attachment m) db.attached)

-- A terminal message: the row without its body and its relations.
abbrev pub tombstone : Status → MessageRow → Message
tombstone status m = record {
  id = m.id;
  conversation_id = m.conversation_id;
  sender_id = m.sender_id;
  type = m.type;
  content = none;
  metadata = none;
  reply = none;
  forward = none;
  status = status;
  sequence = m.sequence;
  version = m.version;
  created_at = m.created_at;
  expires_at = m.expires_at;
  edited_at = m.edited_at;
  deleted_at = m.deleted_at;
  reactions = [];
  pin = none;
  attachments = [];
}

abbrev pub live_message : MessageRow → Body → Db → Message
live_message m b db = record (tombstone is_active m) {
  content = some b.content;
  metadata = b.metadata;
  reply = m.reply_to;
  forward = b.forward;
  reactions = reactions_of m db;
  pin = pin_of m db;
  attachments = attachments_of m db;
}

-- A present header agrees with the sealed payload.
abbrev pub agrees : Option ℕ → Option Forward → Bool
agrees none f = true
agrees (some id) none = false
agrees (some id) (some f) = id == f.message_id

abbrev pub show_body : MessageRow → Db → Option Body → Result Message
show_body m db none = err crypto
show_body m db (some b) =
    if agrees m.forwarded_from b.forward then ok (live_message m b db) else err crypto

abbrev pub decoded : Outside → MessageRow → Db → Result Text → Result Message
decoded o m db (err e) = err e
decoded o m db (ok plain) = show_body m db (o.decode plain)

abbrev pub scan_live : Outside → ℕ → MessageRow → Db → Result Message
scan_live o project m db =
    decoded o m db (o.crypto.open_sealed project m.conversation_id m.id m.sealed)

-- scan
unfoldable pub scan : Runtime → Outside → ℕ → MessageRow → Query Message
scan rt o project m db =
    if is_some m.deleted_at
    then ok (tombstone is_deleted m)
    else if leb m.expires_at rt.db_now
    then ok (tombstone is_expired m)
    else scan_live o project m db

abbrev pub message_row : ℕ → ℕ → Db → Option MessageRow
message_row project id db = find (message_key project id) db.messages

-- scan of the row that the primary key finds.
unfoldable pub scan_id : Runtime → Outside → ℕ → ℕ → Query Message
scan_id rt o project id = do m ← row (message_row project id) not_found; scan rt o project m
