-- ===== src/Message/Sending.antt =====
-- Store.Send of internal/message/repository/postgres.go, for commands that forward nothing.
use al_ur_messenger.Prelude.{
  ℕ, suc, ◌+◌, ◌*◌, Bool, true, false, ◌&&◌, ◌||◌, not, Option, none, some, List, [], ◌∷◌, ◌++◌,
  ltb, ◌==◌, is_some, is_none, if◌then◌else◌,
}
use al_ur_messenger.Prelude.Table.{find, exists, delete, keep_if}
use al_ur_messenger.Text.{Text, same_text}
use al_ur_messenger.Result.{
  Result, ok, err, guard, fail_if, dependency, not_found, invalid, idempotency_conflict,
  too_many_tokens,
}
use al_ur_messenger.Runtime.{Runtime, valid_id}
use al_ur_messenger.Identity.{Actor}
use al_ur_messenger.Store.{
  Db, ConversationRow, MessageRow, MessageType, SendRow, SearchRow, AttachmentRow, AttachmentStatus,
  is_ready, Sealed, Flag, EventType, Payload,
}
use al_ur_messenger.Store.Tx.{Tx, Query, ◌>>=◌, ◌>>◌, query, check, write, commit, draw}
use al_ur_messenger.Event.{append, conversation_row}
use al_ur_messenger.Conversation.Commands.{update_conversation}
use al_ur_messenger.Message.{
  Canonical, Send, Sent, Body, Outside, canonical, validate_send, metadata_or_empty,
}
use al_ur_messenger.Message.Scan.{scan_id}
use al_ur_messenger.Message.Access.{activity_access, require_if, check_content, is_live}

abbrev pub is_image : Option MessageType → Bool
is_image (some MessageType.image_message) = true
is_image _ = false

-- The text that is moderated and indexed.
abbrev pub words_of : Send → Text
words_of p = if is_image p.type then p.content.caption else p.content.text

abbrev pub send_key : ℕ → ℕ → ℕ → SendRow → Bool
send_key project sender client s =
    s.project_id == project && s.sender_id == sender && s.client_message_id == client

abbrev pub send_row : Actor → ℕ → Db → Option SendRow
send_row a client db = find (send_key a.project_id a.user_id client) db.sends

-- An expired receipt is as good as none.
abbrev pub valid_send_row : Runtime → Actor → ℕ → Db → Option SendRow
valid_send_row rt a client db = keep_if (λ s. ltb rt.now s.expires_at) (send_row a client db)

-- DELETE of an expired receipt.
unfoldable pub drop_send : Actor → ℕ → Db → Db
drop_send a client db = record db {
  sends = delete (send_key a.project_id a.user_id client) db.sends;
}

-- Too many words make a request invalid.
abbrev as_invalid : Result (Text × List Text) → Result (Text × List Text)
as_invalid (err too_many_tokens) = err invalid
as_invalid r = r

abbrev pub index_of : Outside → Actor → Text → Query (Text × List Text)
index_of o a text db = as_invalid (o.crypto.index a.project_id text)

abbrev pub seal_body : Outside → Actor → ℕ → ℕ → Option Text → ℕ → Result Sealed
seal_body o a conversation id none drawn = err invalid
seal_body o a conversation id (some plain) drawn =
    o.crypto.seal drawn a.project_id conversation id plain

unfoldable pub seal_with : Outside → Actor → ℕ → ℕ → Body → Query Sealed
seal_with o a conversation id b db = seal_body o a conversation id (o.marshal b) db.drawn

-- An attachment of the sender that is ready, with its object.
abbrev can_attach : Runtime → Actor → ℕ → Db → AttachmentRow → Bool
can_attach rt a id db r =
    r.project_id == a.project_id
    && r.id == id
    && r.uploader_id == a.user_id
    && is_ready r.status
    && ltb rt.db_now r.expires_at
    && exists (λ x. x.project_id == a.project_id && x.id == r.object_id && x.is_ready) db.objects

-- p.AttachmentIDs[0] of an IMAGE.
abbrev pub first_id : List ℕ → ℕ
first_id [] = 0
first_id (x ∷ xs) = x

unfoldable pub check_attachment : Runtime → Actor → Send → Query (Unit {0})
check_attachment rt a p db =
    if is_image p.type
    then guard (exists (can_attach rt a (first_id p.attachment_ids) db) db.attachments) not_found
    else ok tt

abbrev pub can_answer : Runtime → ℕ → ℕ → Option ℕ → Db → Bool
can_answer rt project conversation none db = true
can_answer rt project conversation (some id) db =
    exists
      (λ m.
        m.project_id == project && m.conversation_id == conversation && m.id == id && is_live rt m)
      db.messages

unfoldable pub check_reply : Runtime → Actor → ℕ → Send → Query (Unit {0})
check_reply rt a conversation p db =
    guard (can_answer rt a.project_id conversation p.reply_to db) not_found

abbrev pub sent_type : Option MessageType → MessageType
sent_type none = MessageType.text_message
sent_type (some t) = t

-- UPDATE … SET message_sequence=message_sequence+1,updated_at=clock_timestamp()
abbrev pub numbered : Runtime → ConversationRow → ConversationRow
numbered rt c = record c { message_sequence = suc c.message_sequence; updated_at = rt.db_now }

abbrev pub with_last : Option ℕ → ConversationRow → ConversationRow
with_last id c = record c { last_message_id = id }

abbrev pub day : ℕ
day = 86400

abbrev pub new_message : Runtime → Actor → ℕ → Send → ℕ → ℕ → ℕ → Sealed → MessageRow
new_message rt a conversation p retention id sequence sealed = record {
  id = id;
  project_id = a.project_id;
  conversation_id = conversation;
  sender_id = a.user_id;
  type = sent_type p.type;
  sealed = sealed;
  sequence = sequence;
  version = 1;
  created_at = rt.db_now;
  expires_at = rt.now + retention * day;
  reply_to = p.reply_to;
  forwarded_from = none;
  edited_at = none;
  deleted_at = none;
}

-- The primary key, UNIQUE(project_id,conversation_id,sequence) and CHECK(expires_at>created_at).
unfoldable pub check_row : MessageRow → Query (Unit {0})
check_row r db =
    fail_if
      (exists (λ m. m.id == r.id) db.messages
        || exists
            (λ m.
              m.project_id == r.project_id
              && m.conversation_id == r.conversation_id
              && m.sequence == r.sequence)
            db.messages
        || not (ltb r.created_at r.expires_at))
      dependency

abbrev consume : ℕ → ℕ → AttachmentRow → AttachmentRow
consume project id r =
    if r.project_id == project && r.id == id && is_ready r.status
    then record r { status = AttachmentStatus.attached }
    else r

abbrev consume_all : ℕ → ℕ → List AttachmentRow → List AttachmentRow
consume_all project id = al_ur_messenger.Prelude.map (consume project id)

-- The rows that tie an IMAGE to its attachment.
unfoldable pub attach : Bool → ℕ → MessageRow → Db → Db
attach false id m db = db
attach true id m db = record db {
  attached =
      db.attached
      ++ record {
        project_id = m.project_id;
        conversation_id = m.conversation_id;
        message_id = m.id;
        attachment_id = id;
      }
        ∷ [];
  attachments = consume_all m.project_id id db.attachments;
}

unfoldable pub insert_message : MessageRow → Db → Db
insert_message m db = record db { messages = db.messages ++ m ∷ [] }

abbrev pub search_row : MessageRow → Text × List Text → SearchRow
search_row m index = record {
  project_id = m.project_id;
  conversation_id = m.conversation_id;
  message_id = m.id;
  key_version = index.0;
  tokens = index.1;
}

unfoldable pub insert_search : SearchRow → Db → Db
insert_search r db = record db { search = db.search ++ r ∷ [] }

unfoldable pub insert_send : SendRow → Db → Db
insert_send r db = record db { sends = db.sends ++ r ∷ [] }

abbrev pub year : ℕ
year = 365 * day

abbrev pub new_send : Runtime → Outside → Actor → ℕ → MessageRow → Text → SendRow
new_send rt o a client m fingerprint = record {
  project_id = a.project_id;
  sender_id = a.user_id;
  client_message_id = client;
  message_id = m.id;
  conversation_id = m.conversation_id;
  fingerprint = fingerprint;
  fingerprint_version = o.crypto.fingerprint_version;
  expires_at = rt.now + year;
}

-- From a row that has been numbered to the committed message.
unfoldable pub store_message :
    Runtime
    → Outside
    → Actor
    → ℕ
    → Canonical
    → Tx (Unit {0})
    → Payload
    → Text × List Text
    → MessageRow
    → Tx Sent
unfolding check_row insert_message update_conversation insert_search insert_send
store_message rt o a client c link payload index m = do
  fits ← query (check_row m)
  write (insert_message m)
  linked ← link
  write (update_conversation a.project_id m.conversation_id (with_last (some m.id)))
  write (insert_search (search_row m index))
  f ← query (λ _. o.crypto.fingerprint a.project_id o.crypto.fingerprint_version c)
  write (insert_send (new_send rt o a client m f))
  e ← append rt a.project_id m.conversation_id EventType.message_created payload
  shown ← query (scan_id rt o a.project_id m.id)
  commit (record { message = shown; deduplicated = false; dedup_expires_at = rt.now + year })

-- The same for a message that forwards nothing.
unfoldable pub store_sent :
    Runtime → Outside → Actor → ℕ → Send → Text × List Text → MessageRow → Tx Sent
unfolding attach store_message
store_sent rt o a conversation p index m =
    store_message rt o a p.client_id (canonical conversation p)
      (write (attach (is_image p.type) (first_id p.attachment_ids) m))
      (Payload.created_ref m.id m.sequence a.user_id m.type) index m

-- A send that no receipt answers.
unfoldable pub send_new : Runtime → Outside → Actor → ℕ → Send → Text × List Text → ℕ → Tx Sent
unfolding drop_send check_attachment check_reply seal_with update_conversation store_sent
send_new rt o a conversation p index retention = do
  write (drop_send a p.client_id)
  moderated ← query (check_content o a.project_id (words_of p))
  attachable ← query (check_attachment rt a p)
  answerable ← query (check_reply rt a conversation p)
  id ← draw rt
  sealed ← query (
      seal_with o a conversation id (record {
        content = p.content;
        metadata = some (metadata_or_empty p.metadata);
        forward = none;
      }))
  c ← query (conversation_row a.project_id conversation)
  write (update_conversation a.project_id conversation (numbered rt))
  store_sent rt o a conversation p index
      (new_message rt a conversation p retention id (suc c.message_sequence) sealed)

-- A retry of a send whose receipt still lives: the current state of its message.
unfoldable pub send_again : Runtime → Outside → Actor → Canonical → SendRow → Tx Sent
send_again rt o a c s = do
  candidate ← query (λ _. o.crypto.fingerprint a.project_id s.fingerprint_version c)
  check (guard (same_text candidate s.fingerprint) idempotency_conflict)
  shown ← query (scan_id rt o a.project_id s.message_id)
  commit (record { message = shown; deduplicated = true; dedup_expires_at = s.expires_at })

unfoldable pub send_or_again :
    Runtime → Outside → Actor → ℕ → Send → Text × List Text → ℕ → Option SendRow → Tx Sent
unfolding send_new send_again
send_or_again rt o a conversation p index retention (some s) =
    send_again rt o a (canonical conversation p) s
send_or_again rt o a conversation p index retention none =
    send_new rt o a conversation p index retention

unfoldable pub valid_row : Runtime → Actor → ℕ → Query (Option SendRow)
valid_row rt a client db = ok (valid_send_row rt a client db)

-- Store.Send
unfoldable pub send : Runtime → Outside → Actor → ℕ → Send → Bool → Tx Sent
unfolding validate_send activity_access require_if valid_row send_or_again
send rt o a conversation p system = do
  check (validate_send rt system p)
  index ← query (index_of o a (words_of p))
  retention ← query (activity_access a conversation system true)
  replies ← query (require_if (is_some p.reply_to) a.project_id Flag.allow_reply)
  images ← query (require_if (is_image p.type) a.project_id Flag.allow_images)
  existing ← query (valid_row rt a p.client_id)
  send_or_again rt o a conversation p index retention existing

-- Service.Send and Service.SendSystem
unfoldable pub request_send : Runtime → Outside → Actor → ℕ → Send → Bool → Tx Sent
unfolding send
request_send rt o a conversation p system = do
  check (guard (valid_id rt conversation) invalid)
  check (validate_send rt system p)
  send rt o a conversation p system
