-- ===== src/Message/Forwarding.antt =====
-- Store.forward of internal/message/repository/forward.go. The advisory lock orders forwards, which
-- run one after another here.
use al_ur_messenger.Prelude.{
  ℕ, suc, ◌+◌, ◌*◌, Bool, true, false, ◌&&◌, Option, none, some, List, [], ◌∷◌, ◌++◌, ◌==◌,
}
use al_ur_messenger.Prelude.Table.{find, exists}
use al_ur_messenger.Text.{Text}
use al_ur_messenger.Result.{ok, err, guard, not_found, invalid}
use al_ur_messenger.Runtime.{Runtime, valid_id}
use al_ur_messenger.Identity.{Actor}
use al_ur_messenger.Store.{
  Db, MessageRow, SendRow, AttachmentRow, AttachmentStatus, Sealed, Flag, Payload,
}
use al_ur_messenger.Store.Tx.{Tx, Query, ◌>>=◌, ◌>>◌, query, check, write, commit, draw}
use al_ur_messenger.Event.{conversation_row}
use al_ur_messenger.Conversation.Commands.{update_conversation}
use al_ur_messenger.Message.{
  Sent, Command, plain, forwarding, Message, Content, SenderSnapshot, Body, Canonical, Outside,
  empty_object, validate_forward,
}
use al_ur_messenger.Message.Source.{original_sender, read_source, forwarded_text, is_image_message}
use al_ur_messenger.Message.Access.{activity_access, require_feature, check_content}
use al_ur_messenger.Message.Sending.{
  valid_row, drop_send, send_again, index_of, seal_with, numbered, store_message, day, send,
  request_send,
}

abbrev is_attached : AttachmentStatus → Bool
is_attached AttachmentStatus.attached = true
is_attached _ = false

-- Whether a row of message_attachments joins the source to the attachment, with a ready object.
abbrev can_share : ℕ → ℕ → Db → AttachmentRow → Bool
can_share project source db r =
    exists (λ x. x.project_id == project && x.message_id == source && x.attachment_id == r.id)
      db.attached
    && r.project_id == project
    && is_attached r.status
    && exists (λ x. x.project_id == project && x.id == r.object_id && x.is_ready) db.objects

-- A logical attachment of its own for the target, over the same object.
abbrev copy_of : Runtime → Actor → ℕ → ℕ → AttachmentRow → AttachmentRow
copy_of rt a id expires r = record {
  id = id;
  project_id = a.project_id;
  uploader_id = a.user_id;
  object_id = r.object_id;
  original_name = r.original_name;
  mime_type = r.mime_type;
  size = r.size;
  width = r.width;
  height = r.height;
  status = AttachmentStatus.attached;
  created_at = rt.db_now;
  expires_at = expires;
}

unfoldable pub attach_copy : Runtime → Actor → ℕ → MessageRow → AttachmentRow → Db → Db
attach_copy rt a id m r db = record db {
  attachments = db.attachments ++ copy_of rt a id m.expires_at r ∷ [];
  attached =
      db.attached
      ++ record {
        project_id = a.project_id;
        conversation_id = m.conversation_id;
        message_id = m.id;
        attachment_id = id;
      }
        ∷ [];
}

unfoldable pub shared_row : ℕ → ℕ → Query AttachmentRow
shared_row project source db = elim (find (can_share project source db) db.attachments) [
  | none ↦ err not_found
  | some r ↦ ok r
]

unfoldable pub share : Runtime → Actor → ℕ → MessageRow → Bool → Tx (Unit {0})
unfolding attach_copy shared_row
share rt a source m false = commit tt
share rt a source m true = do
  id ← draw rt
  r ← query (shared_row a.project_id source)
  write (attach_copy rt a id m r)
  commit tt

abbrev pub forwarded_message : Runtime → Actor → ℕ → Message → ℕ → ℕ → ℕ → Sealed → MessageRow
forwarded_message rt a target source retention id sequence sealed = record {
  id = id;
  project_id = a.project_id;
  conversation_id = target;
  sender_id = a.user_id;
  type = source.type;
  sealed = sealed;
  sequence = sequence;
  version = 1;
  created_at = rt.db_now;
  expires_at = rt.now + retention * day;
  reply_to = none;
  forwarded_from = some source.id;
  edited_at = none;
  deleted_at = none;
}

abbrev pub forwarded_body : Message → Content → SenderSnapshot → Body
forwarded_body source content original = record {
  content = content;
  metadata = some empty_object;
  forward = some (record { message_id = source.id; original_sender = original });
}

-- A message that forwards the source, stored with its own attachment.
unfoldable pub store_forward :
    Runtime → Outside → Actor → ℕ → Canonical → Message → Text × List Text → MessageRow → Tx Sent
unfolding share store_message
store_forward rt o a client c source index m =
    store_message rt o a client c (share rt a source.id m (is_image_message source.type))
      (Payload.forwarded_ref m.id m.sequence a.user_id m.type) index m

-- From a source that has been read to the committed copy.
unfoldable pub forward_new :
    Runtime → Outside → Actor → ℕ → ℕ → Canonical → ℕ → Message → Content → Tx Sent
unfolding original_sender seal_with update_conversation store_forward
forward_new rt o a target client c retention source content = do
  moderated ← query (check_content o a.project_id (forwarded_text source content))
  original ← query (original_sender a.project_id source)
  index ← query (index_of o a (forwarded_text source content))
  id ← draw rt
  sealed ← query (seal_with o a target id (forwarded_body source content original))
  row ← query (conversation_row a.project_id target)
  write (update_conversation a.project_id target (numbered rt))
  store_forward rt o a client c source index
      (forwarded_message rt a target source retention id (suc row.message_sequence) sealed)

unfoldable pub forward_or_again :
    Runtime → Outside → Actor → ℕ → ℕ → ℕ → ℕ → Option SendRow → Tx Sent
unfolding send_again drop_send read_source forward_new
forward_or_again rt o a target client source retention (some s) =
    send_again rt o a (Canonical.forward_form target client source) s
forward_or_again rt o a target client source retention none = do
  write (drop_send a client)
  (m, content) ← query (read_source rt o a source)
  forward_new rt o a target client (Canonical.forward_form target client source) retention m content

-- Store.forward
unfoldable pub forward : Runtime → Outside → Actor → ℕ → ℕ → ℕ → Tx Sent
unfolding activity_access require_feature valid_row forward_or_again
forward rt o a target client source = do
  retention ← query (activity_access a target false true)
  enabled ← query (require_feature a.project_id Flag.allow_forward)
  existing ← query (valid_row rt a client)
  forward_or_again rt o a target client source retention existing

-- Store.Send of any command.
unfoldable pub send_command : Runtime → Outside → Actor → ℕ → Command → Bool → Tx Sent
unfolding send validate_forward forward
send_command rt o a conversation (plain p) system = send rt o a conversation p system
send_command rt o a conversation (forwarding mixed client source) system = do
  check (validate_forward rt system mixed client source)
  forward rt o a conversation client source

-- Service.Send and Service.SendSystem
unfoldable pub request_command : Runtime → Outside → Actor → ℕ → Command → Bool → Tx Sent
unfolding request_send validate_forward send_command
request_command rt o a conversation (plain p) system = request_send rt o a conversation p system
request_command rt o a conversation (forwarding mixed client source) system = do
  check (guard (valid_id rt conversation) invalid)
  check (validate_forward rt system mixed client source)
  send_command rt o a conversation (forwarding mixed client source) system
