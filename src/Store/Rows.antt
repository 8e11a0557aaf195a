-- ===== src/Store/Rows.antt =====
-- The rows of the tables. Columns that no statement of the model reads are left out; a nullable
-- column is an `Option`; bigint and timestamptz columns are numbers.
use al_ur_messenger.Prelude.{ℕ, Bool, true, false, ◌&&◌, Option, none, some, List, ◌==◌}
use al_ur_messenger.Text.{Text}
use al_ur_messenger.Identity.{Kind}

pub data ConversationType : Type 0 where
  direct group channel : ConversationType

abbrev pub is_direct : ConversationType → Bool
is_direct direct = true
is_direct _ = false

abbrev pub is_channel : ConversationType → Bool
is_channel channel = true
is_channel _ = false

pub data Role : Type 0 where
  member moderator : Role

abbrev pub is_moderator : Role → Bool
is_moderator moderator = true
is_moderator member = false

-- policy.FlagNames
pub data Flag : Type 0 where
  allow_images allow_reactions allow_edit allow_delete allow_forward allow_reply : Flag
  allow_pin typing_enabled presence_enabled read_receipts allow_bots allow_webhooks : Flag

-- The names in the changed_fields of an audited change of the settings.
pub data SettingsField : Type 0 where
  flag_field : Flag → SettingsField
  max_upload_field retention_field blacklist_enabled_field blacklist_policy_field : SettingsField

pub data MessageType : Type 0 where
  text_message image_message system_message : MessageType

-- event.Envelope.Type
pub data EventType : Type 0 where
  conversation_created conversation_updated : EventType
  members_added member_updated member_left : EventType
  message_created message_updated message_deleted : EventType
  message_read message_delivered : EventType
  reaction_created reaction_deleted message_pinned message_unpinned : EventType
  sync_advance : EventType

-- event.Envelope.Payload: the maps that the program builds, by their keys.
pub data Payload : Type 0 where
  -- type, member_count
  creation : ConversationType → ℕ → Payload
  -- changed_fields: whether title, whether avatar_url
  changed_fields : Bool → Bool → Payload
  -- user_ids, of one element
  user_ids : ℕ → Payload
  -- user_id, role_changed, ban_changed, mute_changed
  member_change : ℕ → Bool → Bool → Bool → Payload
  -- user_id
  member_ref : ℕ → Payload
  -- message_id, message_sequence, resource_version
  message_ref : ℕ → ℕ → ℕ → Payload
  -- the same with resource_version 1, sender_id and type
  created_ref : ℕ → ℕ → ℕ → MessageType → Payload
  -- the same with forwarded
  forwarded_ref : ℕ → ℕ → ℕ → MessageType → Payload
  -- user_id, last_read_sequence, last_delivered_sequence, member_version
  receipt : ℕ → ℕ → ℕ → ℕ → Payload
  empty_payload : Payload

-- Payload["user_id"], Payload["message_id"] and Payload["message_sequence"].
abbrev pub payload_user : Payload → Option ℕ
payload_user (member_change u r b m) = some u
payload_user (member_ref u) = some u
payload_user (receipt u r d v) = some u
payload_user _ = none

abbrev pub payload_message : Payload → Option ℕ
payload_message (message_ref m s v) = some m
payload_message (created_ref m s u t) = some m
payload_message (forwarded_ref m s u t) = some m
payload_message _ = none

abbrev pub payload_sequence : Payload → Option ℕ
payload_sequence (message_ref m s v) = some s
payload_sequence (created_ref m s u t) = some s
payload_sequence (forwarded_ref m s u t) = some s
payload_sequence _ = none

-- event.Envelope, whose Version is 1 and AggregateType "conversation" throughout.
pub record Envelope : Type 0 where
  pub id : ℕ
  pub kind : EventType
  pub project_id : ℕ
  pub aggregate_id : ℕ
  pub sequence : ℕ
  pub occurred_at : ℕ
  pub payload : Payload

pub record ProjectRow : Type 0 where
  pub id : ℕ
  pub name : Text
  pub active : Bool
  pub policy_version : ℕ

pub record SettingsRow : Type 0 where
  pub project_id : ℕ
  pub flags : Flag → Bool
  pub max_upload_size : ℕ
  pub retention_days : ℕ
  pub blacklist_enabled : Bool
  pub version : ℕ

pub record UserRow : Type 0 where
  pub project_id : ℕ
  pub id : ℕ
  pub kind : Kind
  pub admin : Bool
  pub display_name : Text
  pub banned_at : Option ℕ

pub record ConversationRow : Type 0 where
  pub id : ℕ
  pub project_id : ℕ
  pub type : ConversationType
  pub title : Text
  pub avatar_url : Text
  pub created_by : ℕ
  pub version : ℕ
  pub updated_at : ℕ
  pub deleted_at : Option ℕ
  pub message_sequence : ℕ
  pub event_sequence : ℕ
  pub last_message_id : Option ℕ

pub record PairRow : Type 0 where
  pub project_id : ℕ
  pub low_user_id : ℕ
  pub high_user_id : ℕ
  pub conversation_id : ℕ

pub record MemberRow : Type 0 where
  pub project_id : ℕ
  pub conversation_id : ℕ
  pub user_id : ℕ
  pub role : Role
  pub joined_at : ℕ
  pub left_at : Option ℕ
  pub banned : Bool
  pub muted : Bool
  pub version : ℕ
  pub read : ℕ
  pub delivered : ℕ

-- audit_logs.action with its metadata: an event of a conversation, or a change of the settings.
pub data Action : Type 0 where
  conversation_action : EventType → Payload → Action
  settings_updated : List SettingsField → Action

pub record AuditRow : Type 0 where
  pub id : ℕ
  pub project_id : ℕ
  pub actor_id : ℕ
  pub action : Action
  pub resource_id : ℕ
  pub ip : Text
  pub request_id : Text

pub record EventRow : Type 0 where
  pub id : ℕ
  pub project_id : ℕ
  pub conversation_id : ℕ
  pub sequence : ℕ
  pub envelope : Envelope

pub record OutboxRow : Type 0 where
  pub event_id : ℕ
  pub project_id : ℕ
  pub conversation_id : ℕ
  pub sequence : ℕ
  pub envelope : Envelope
  pub attempts : ℕ
  pub next_attempt_at : ℕ
  pub published_at : Option ℕ
  pub failed : Bool

-- cryptography.Envelope
pub record Sealed : Type 0 where
  pub ciphertext : Text
  pub nonce : Text
  pub key_version : Text
  pub payload_version : ℕ

pub record MessageRow : Type 0 where
  pub id : ℕ
  pub project_id : ℕ
  pub conversation_id : ℕ
  pub sender_id : ℕ
  pub type : MessageType
  pub sealed : Sealed
  pub sequence : ℕ
  pub version : ℕ
  pub created_at : ℕ
  pub expires_at : ℕ
  pub reply_to : Option ℕ
  pub forwarded_from : Option ℕ
  pub edited_at : Option ℕ
  pub deleted_at : Option ℕ

-- message_idempotency: what a repeated send is answered with.
pub record SendRow : Type 0 where
  pub project_id : ℕ
  pub sender_id : ℕ
  pub client_message_id : ℕ
  pub message_id : ℕ
  pub conversation_id : ℕ
  pub fingerprint : Text
  pub fingerprint_version : Text
  pub expires_at : ℕ

pub record SearchRow : Type 0 where
  pub project_id : ℕ
  pub conversation_id : ℕ
  pub message_id : ℕ
  pub key_version : Text
  pub tokens : List Text

-- A reaction is a number as an identifier is: the order is that of the texts in the database.
pub record ReactionRow : Type 0 where
  pub project_id : ℕ
  pub conversation_id : ℕ
  pub message_id : ℕ
  pub user_id : ℕ
  pub reaction : ℕ

pub record PinRow : Type 0 where
  pub project_id : ℕ
  pub conversation_id : ℕ
  pub message_id : ℕ
  pub pinned_by : ℕ
  pub created_at : ℕ

pub data AttachmentStatus : Type 0 where
  uploading ready attached deleted : AttachmentStatus

abbrev pub is_ready : AttachmentStatus → Bool
is_ready ready = true
is_ready _ = false

pub record AttachmentRow : Type 0 where
  pub id : ℕ
  pub project_id : ℕ
  pub uploader_id : ℕ
  pub object_id : ℕ
  pub original_name : Text
  pub mime_type : Text
  pub size : ℕ
  pub width : ℕ
  pub height : ℕ
  pub status : AttachmentStatus
  pub created_at : ℕ
  pub expires_at : ℕ

pub record ObjectRow : Type 0 where
  pub id : ℕ
  pub project_id : ℕ
  pub is_ready : Bool

-- message_attachments, whose position is always 0.
pub record AttachedRow : Type 0 where
  pub project_id : ℕ
  pub conversation_id : ℕ
  pub message_id : ℕ
  pub attachment_id : ℕ

pub record BlacklistRow : Type 0 where
  pub project_id : ℕ
  pub word : Text
  pub enabled : Bool

-- `drawn` counts the identifiers taken from uuid.NewV7 so far.
pub record Db : Type 0 where
  pub projects : List ProjectRow
  pub settings : List SettingsRow
  pub users : List UserRow
  pub conversations : List ConversationRow
  pub direct_pairs : List PairRow
  pub members : List MemberRow
  pub audit_logs : List AuditRow
  pub events : List EventRow
  pub outbox : List OutboxRow
  pub messages : List MessageRow
  pub sends : List SendRow
  pub search : List SearchRow
  pub reactions : List ReactionRow
  pub pins : List PinRow
  pub attachments : List AttachmentRow
  pub objects : List ObjectRow
  pub attached : List AttachedRow
  pub blacklist : List BlacklistRow
  pub drawn : ℕ

-- The conditions on keys, which every statement qualifies by the project.
abbrev pub conversation_key : ℕ → ℕ → ConversationRow → Bool
conversation_key project id c = c.project_id == project && c.id == id

abbrev pub member_of : ℕ → ℕ → MemberRow → Bool
member_of project id m = m.project_id == project && m.conversation_id == id

abbrev pub member_key : ℕ → ℕ → ℕ → MemberRow → Bool
member_key project id user m = member_of project id m && m.user_id == user

abbrev pub user_key : ℕ → ℕ → UserRow → Bool
user_key project id u = u.project_id == project && u.id == id

abbrev pub event_of : ℕ → ℕ → EventRow → Bool
event_of project id e = e.project_id == project && e.conversation_id == id

abbrev pub message_key : ℕ → ℕ → MessageRow → Bool
message_key project id m = m.project_id == project && m.id == id

abbrev pub message_of : ℕ → ℕ → MessageRow → Bool
message_of project id m = m.project_id == project && m.conversation_id == id
