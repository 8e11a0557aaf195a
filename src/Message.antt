-- ===== src/Message.antt =====
-- internal/message/message.go: commands on messages and what a reader sees of one.
pub mod Scan
pub mod Access
pub mod Sending
pub mod Mutations
pub mod Source
pub mod Forwarding
pub mod Relations
pub mod Reading
pub mod Stable
pub mod Sequence
pub mod Upkeep
pub mod Stored
pub mod Retries
pub mod Contents
pub mod Edits
pub mod Forwards
pub mod Journal
pub mod Deletions
use al_ur_messenger.Prelude.{
  ℕ, Bool, true, false, ◌&&◌, ◌||◌, not, Option, none, some, List, [], ◌∷◌, ltb, length, ◌==◌,
  if◌then◌else◌,
}
use al_ur_messenger.Text.{Text, valid_string, byte_length, is_blank, is_empty}
use al_ur_messenger.Result.{Result, ok, err, Error, invalid, guard}
use al_ur_messenger.Runtime.{Runtime, valid_id}
use al_ur_messenger.Cryptography.{Crypto}
use al_ur_messenger.Store.{MessageType, AttachmentRow}

pub record Content : Type 0 where
  pub text : Text
  pub caption : Text

pub record SenderSnapshot : Type 0 where
  pub id : ℕ
  pub display_name : Text

pub record Forward : Type 0 where
  pub message_id : ℕ
  pub original_sender : SenderSnapshot

-- message.Payload. Metadata is an object as JSON text, `none` being a nil map.
pub record Body : Type 0 where
  pub content : Content
  pub metadata : Option Text
  pub forward : Option Forward

-- A message.Send without forwarded_from_message_id. `type` is `none` for any text that is none of
-- the three types.
pub record Send : Type 0 where
  pub client_id : ℕ
  pub type : Option MessageType
  pub content : Content
  pub metadata : Option Text
  pub reply_to : Option ℕ
  pub attachment_ids : List ℕ

-- A message.Send: one that forwards tells whether it has any other field besides.
pub data Command : Type 0 where
  plain : Send → Command
  forwarding : Bool → ℕ → ℕ → Command

abbrev reply_is_valid : Runtime → Bool → Option ℕ → Bool
reply_is_valid rt system none = true
reply_is_valid rt system (some id) = not system && valid_id rt id

abbrev is_one_valid : Runtime → List ℕ → Bool
is_one_valid rt (id ∷ []) = valid_id rt id
is_one_valid rt _ = false

-- What each type asks of the content and of the attachments.
abbrev fits_sender : Runtime → Bool → Send → Bool
fits_sender rt true p = elim p.type [
  | some MessageType.system_message ↦
      not (is_blank p.content.text) && is_empty p.content.caption && length p.attachment_ids == 0
  | _ ↦ false
]
fits_sender rt false p = elim p.type [
  | some MessageType.text_message ↦
      not (is_blank p.content.text) && is_empty p.content.caption && length p.attachment_ids == 0
  | some MessageType.image_message ↦ is_empty p.content.text && is_one_valid rt p.attachment_ids
  | _ ↦ false
]

-- The length of the JSON of the metadata; nil is "null".
abbrev metadata_size : Option Text → ℕ
metadata_size none = 4
metadata_size (some t) = byte_length t

-- Send.Validate
unfoldable pub validate_send : Runtime → Bool → Send → Result (Unit {0})
validate_send rt system p =
    guard
      (reply_is_valid rt system p.reply_to
        && valid_id rt p.client_id
        && valid_string p.content.text
        && valid_string p.content.caption
        && not (ltb 16384 (byte_length p.content.text))
        && not (ltb 4096 (byte_length p.content.caption))
        && fits_sender rt system p
        && not (ltb 8192 (metadata_size p.metadata)))
      invalid

-- Send.Validate of a command that forwards.
unfoldable pub validate_forward : Runtime → Bool → Bool → ℕ → ℕ → Result (Unit {0})
validate_forward rt system mixed client source =
    guard (not system && valid_id rt client && valid_id rt source && not mixed) invalid

abbrev pub empty_object : Text
empty_object = b'{' ∷ b'}' ∷ []

abbrev pub metadata_or_empty : Option Text → Text
metadata_or_empty none = empty_object
metadata_or_empty (some t) = t

-- The values that the JSON text of a command holds, which determine it: conversation, client
-- identifier, and the command, where absent metadata and an empty object are the same.
pub data Canonical : Type 0 where
  plain_form : ℕ → ℕ → Option MessageType → Content → Text → Option ℕ → List ℕ → Canonical
  forward_form : ℕ → ℕ → ℕ → Canonical

-- Send.Canonical
abbrev pub canonical : ℕ → Send → Canonical
canonical conversation p =
    plain_form conversation p.client_id p.type p.content (metadata_or_empty p.metadata) p.reply_to
      p.attachment_ids

pub record Edit : Type 0 where
  pub content : Content
  pub expected_version : ℕ

-- Edit.Validate
unfoldable pub validate_edit : Edit → Result (Unit {0})
validate_edit p =
    guard
      (not (ltb p.expected_version 1)
        && valid_string p.content.text
        && not (ltb 16384 (byte_length p.content.text))
        && not (is_blank p.content.text))
      invalid

pub data Status : Type 0 where
  is_active is_deleted is_expired : Status

pub record Reaction : Type 0 where
  pub emoji : ℕ
  pub count : ℕ

pub record Pin : Type 0 where
  pub message_id : ℕ
  pub pinned_by : ℕ
  pub created_at : ℕ
  pub version : ℕ

-- message.Message. An attachment is shown without its Project, uploader and object.
pub record Message : Type 0 where
  pub id : ℕ
  pub conversation_id : ℕ
  pub sender_id : ℕ
  pub type : MessageType
  pub content : Option Content
  pub metadata : Option Text
  pub reply : Option ℕ
  pub forward : Option Forward
  pub status : Status
  pub sequence : ℕ
  pub version : ℕ
  pub created_at : ℕ
  pub expires_at : ℕ
  pub edited_at : Option ℕ
  pub deleted_at : Option ℕ
  pub reactions : List Reaction
  pub pin : Option Pin
  pub attachments : List AttachmentRow

pub record Sent : Type 0 where
  pub message : Message
  pub deduplicated : Bool
  pub dedup_expires_at : ℕ

-- message.Query: exclusive bounds, which are no negative numbers.
pub record Page : Type 0 where
  pub before : ℕ
  pub since : ℕ
  pub limit : ℕ
  pub forward : Bool

-- Query.Validate
unfoldable pub validate_page : Page → Result (Unit {0})
validate_page q =
    guard
      (not (ltb 0 q.before && (ltb 0 q.since || q.forward))
        && not (ltb q.limit 1)
        && not (ltb 101 q.limit))
      invalid

-- What the repository takes from outside: the keys, encoding/json on a message.Payload, the words
-- of moderation.Words, and the table of emoji.
pub record Outside : Type 0 where
  pub crypto : Crypto Canonical
  pub marshal : Body → Option Text
  pub decode : Text → Option Body
  pub words : Text → List Text
  pub is_reaction_text : ℕ → Bool
  pub reaction_emoji : ℕ → Option ℕ
