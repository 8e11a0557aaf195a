-- ===== src/Message/Source.antt =====
-- What a forward takes from its source: the reads of Store.forward between the receipt and the new
-- message, in internal/message/repository/forward.go.
use al_ur_messenger.Prelude.{
  ℕ, Bool, true, false, ◌||◌, not, Option, none, some, ◌==◌, length, if◌then◌else◌,
}
use al_ur_messenger.Prelude.Table.{keep_if}
use al_ur_messenger.Text.{Text}
use al_ur_messenger.Result.{Result, ok, err, guard, not_found, no_rows, forbidden}
use al_ur_messenger.Runtime.{Runtime}
use al_ur_messenger.Identity.{Actor}
use al_ur_messenger.Store.{Db, MessageRow, MessageType, Flag}
use al_ur_messenger.Store.Tx.{Query}
use al_ur_messenger.Store.Query.{◌>>=◌, ◌>>◌, row, check, pure}
use al_ur_messenger.Recovery.Access.{read_access, user_row}
use al_ur_messenger.Message.{Message, Content, SenderSnapshot, Outside}
use al_ur_messenger.Message.Scan.{message_row, scan}
use al_ur_messenger.Message.Access.{require_if, is_live}

abbrev pub live_row : Runtime → ℕ → ℕ → Db → Option MessageRow
live_row rt project id db = keep_if (is_live rt) (message_row project id db)

abbrev pub is_image_message : MessageType → Bool
is_image_message MessageType.image_message = true
is_image_message _ = false

abbrev pub can_forward : MessageType → Bool
can_forward MessageType.system_message = false
can_forward _ = true

abbrev pub content_of : Message → Result Content
content_of m = elim m.content [ none ↦ err not_found | some c ↦ ok c ]

abbrev pub forwarded_text : Message → Content → Text
forwarded_text m c = if is_image_message m.type then c.caption else c.text

abbrev one_image : Message → Bool
one_image m = not (is_image_message m.type) || length m.attachments == 1

-- A forward of a forward keeps the sender whom the first one named.
unfoldable pub original_sender : ℕ → Message → Query SenderSnapshot
original_sender project m db = elim m.forward [
  | some f ↦ ok f.original_sender
  | none ↦ elim (user_row project m.sender_id db) [
    | none ↦ err no_rows
    | some u ↦ ok (record { id = m.sender_id; display_name = u.display_name })
  ]
]

-- The source with its content, which the actor has to be able to read.
unfoldable pub read_source : Runtime → Outside → Actor → ℕ → Query (Message × Content)
unfolding read_access scan require_if
read_source rt o a id = do
  r ← row (live_row rt a.project_id id) not_found
  allowed ← read_access a r.conversation_id
  m ← scan rt o a.project_id r
  content ← λ _. content_of m
  check (guard (can_forward m.type) forbidden)
  require_if (is_image_message m.type) a.project_id Flag.allow_images
  check (guard (one_image m) not_found)
  pure (m, content)
