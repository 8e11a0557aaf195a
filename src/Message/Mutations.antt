-- ===== src/Message/Mutations.antt =====
-- Store.Edit and Store.Delete of internal/message/repository/mutations.go.
pub mod Facts
use al_ur_messenger.Prelude.{
  ℕ, suc, Bool, true, false, ◌&&◌, not, Option, none, some, List, [], ◌∷◌, ◌++◌, ltb, ◌==◌, is_some,
  if◌then◌else◌, map,
}
use al_ur_messenger.Prelude.Table.{find, exists, select, order_by, update_first, delete}
use al_ur_messenger.Text.{Text}
use al_ur_messenger.Result.{
  Result, ok, err, guard, not_found, forbidden, conflict, invalid, dependency,
}
use al_ur_messenger.Runtime.{Runtime, valid_id}
use al_ur_messenger.Identity.{Actor}
use al_ur_messenger.Store.{
  Db, MessageRow, MessageType, Sealed, SearchRow, AttachmentRow, AttachedRow, AttachmentStatus,
  ConversationRow, Flag, EventType, Payload, Envelope, message_key, message_of,
}
use al_ur_messenger.Store.Tx.{Tx, Query, ◌>>=◌, ◌>>◌, query, check, write, commit}
use al_ur_messenger.Store.Query
use al_ur_messenger.Event.{append}
use al_ur_messenger.Conversation.Commands.{update_conversation}
use al_ur_messenger.Message.{Edit, Message, Status, is_active, Body, Outside, validate_edit}
use al_ur_messenger.Message.Scan.{scan_id, message_row, has_reaction, has_pin}
use al_ur_messenger.Message.Access.{mutation_access, check_content, is_live}
use al_ur_messenger.Message.Sending.{
  index_of, seal_with, search_row, insert_search, with_last, first_id,
}

abbrev pub message_ref : Message → Payload
message_ref m = Payload.message_ref m.id m.sequence m.version

-- appendMutation
abbrev pub append_mutation : Runtime → ℕ → ℕ → EventType → Message → Tx Envelope
append_mutation rt project conversation kind m = append rt project conversation kind (message_ref m)

abbrev pub status_is_active : Status → Bool
status_is_active is_active = true
status_is_active _ = false

abbrev pub is_text : MessageType → Bool
is_text MessageType.text_message = true
is_text _ = false

unfoldable pub update_message : ℕ → ℕ → (MessageRow → MessageRow) → Db → Db
update_message project id f db = record db {
  messages = update_first (message_key project id) f db.messages;
}

-- SET encrypted_content=…,resource_version=resource_version+1,edited_at=clock_timestamp()
abbrev pub edited : Runtime → Sealed → MessageRow → MessageRow
edited rt sealed m = record m {
  sealed = sealed;
  version = suc m.version;
  edited_at = some rt.db_now;
}

abbrev indexes : ℕ → ℕ → SearchRow → Bool
indexes project id r = r.project_id == project && r.message_id == id

unfoldable pub drop_search : ℕ → ℕ → Db → Db
drop_search project id db = record db { search = delete (indexes project id) db.search }

-- What the edit asks of the message as it is.
unfoldable pub check_editable : Edit → Message → Result (Unit {0})
check_editable p m =
    if not (status_is_active m.status)
    then err not_found
    else if not (is_text m.type)
    then err forbidden
    else if not (m.version == p.expected_version)
    then err conflict
    else ok tt

-- The metadata and the forward header of the old body stay.
abbrev pub new_body : Edit → Message → Body
new_body p m = record { content = p.content; metadata = m.metadata; forward = m.forward }

-- Store.Edit
unfoldable pub edit : Runtime → Outside → Actor → ℕ → Option ℕ → Edit → Tx Message
unfolding validate_edit mutation_access scan_id check_editable seal_with update_message drop_search
    insert_search
edit rt o a id scope p = do
  check (validate_edit p)
  r ← query (mutation_access a id scope Flag.allow_edit)
  m ← query (scan_id rt o a.project_id id)
  check (check_editable p m)
  moderated ← query (check_content o a.project_id p.content.text)
  index ← query (index_of o a p.content.text)
  sealed ← query (seal_with o a r.conversation_id id (new_body p m))
  write (update_message a.project_id id (edited rt sealed))
  write (drop_search a.project_id id)
  write (insert_search (search_row r index))
  shown ← query (scan_id rt o a.project_id id)
  e ← append_mutation rt a.project_id r.conversation_id EventType.message_updated shown
  commit shown

abbrev in_attached : MessageRow → AttachedRow → Bool
in_attached m r =
    r.project_id == m.project_id && r.conversation_id == m.conversation_id && r.message_id == m.id

abbrev give_up : MessageRow → List AttachedRow → AttachmentRow → AttachmentRow
give_up m rows r =
    if r.project_id == m.project_id && exists (λ x. in_attached m x && x.attachment_id == r.id) rows
    then record r { status = AttachmentStatus.deleted }
    else r

-- The relations of the message, and its index, which go with its body.
unfoldable pub drop_relations : MessageRow → Db → Db
drop_relations m db = record db {
  reactions = delete (has_reaction m) db.reactions;
  pins = delete (has_pin m) db.pins;
  attachments = map (give_up m db.attached) db.attachments;
  attached = delete (in_attached m) db.attached;
  search = delete (indexes m.project_id m.id) db.search;
}

-- SET encrypted_content='',reply_to_message_id=NULL,deleted_at=…,resource_version=…+1
abbrev pub wiped : Runtime → MessageRow → MessageRow
wiped rt m = record m {
  sealed = record m.sealed { ciphertext = [] };
  reply_to = none;
  deleted_at = some rt.db_now;
  version = suc m.version;
}

abbrev last_id : List MessageRow → Option ℕ
last_id [] = none
last_id (m ∷ []) = some m.id
last_id (m ∷ n ∷ ms) = last_id (n ∷ ms)

-- The latest live message of the conversation.
unfoldable pub last_live : Runtime → ℕ → ℕ → Db → Option ℕ
unfolding select order_by
last_live rt project conversation db = last_id (
    order_by (λ m. m.sequence)
      (select (λ m. message_of project conversation m && is_live rt m) db.messages))

abbrev pub relast : Runtime → Option ℕ → ConversationRow → ConversationRow
relast rt id c = record c { last_message_id = id; updated_at = rt.db_now }

unfoldable pub set_last : Runtime → ℕ → ℕ → Db → Db
unfolding last_live update_conversation
set_last rt project conversation db =
    update_conversation project conversation (relast rt (last_live rt project conversation db)) db

-- A message that is not deleted yet.
unfoldable pub delete_row : Runtime → Outside → Actor → MessageRow → Tx Message
unfolding drop_relations update_message set_last scan_id
delete_row rt o a r = do
  write (drop_relations r)
  write (update_message a.project_id r.id (wiped rt))
  write (set_last rt a.project_id r.conversation_id)
  shown ← query (scan_id rt o a.project_id r.id)
  e ← append_mutation rt a.project_id r.conversation_id EventType.message_deleted shown
  commit shown

unfoldable pub delete_unless : Runtime → Outside → Actor → MessageRow → Bool → Tx Message
unfolding delete_row scan_id
delete_unless rt o a r false = delete_row rt o a r
delete_unless rt o a r true = do shown ← query (scan_id rt o a.project_id r.id); commit shown

-- Store.Delete
unfoldable pub delete_message : Runtime → Outside → Actor → ℕ → Option ℕ → Tx Message
unfolding mutation_access delete_unless
delete_message rt o a id scope = do
  r ← query (mutation_access a id scope Flag.allow_delete)
  delete_unless rt o a r (is_some r.deleted_at)

abbrev pub scope_is_valid : Runtime → Option ℕ → Bool
scope_is_valid rt none = true
scope_is_valid rt (some s) = valid_id rt s

-- Service.Edit
unfoldable pub request_edit : Runtime → Outside → Actor → ℕ → Option ℕ → Edit → Tx Message
unfolding edit
request_edit rt o a id scope p = do
  check (guard (valid_id rt id && scope_is_valid rt scope) invalid)
  check (validate_edit p)
  edit rt o a id scope p

-- Service.Delete
unfoldable pub request_delete : Runtime → Outside → Actor → ℕ → Option ℕ → Tx Message
unfolding delete_message
request_delete rt o a id scope = do
  check (guard (valid_id rt id && scope_is_valid rt scope) invalid)
  delete_message rt o a id scope
