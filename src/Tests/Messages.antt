-- ===== src/Tests/Messages.antt =====
-- A message that is sent, sent again, edited and deleted.
use al_ur_messenger.Prelude.{◌≡◌, refl, sym, true, false, some, none, [], ◌∷◌}
use al_ur_messenger.Text.{Text, is_blank, is_space, byte_length, same_text}
use al_ur_messenger.Result.{Result, ok}
use al_ur_messenger.Store.{Db, MessageType, MessageRow}
use al_ur_messenger.Store.Tx.{after, Post}
use al_ur_messenger.Conversation.Commands.{create}
use al_ur_messenger.Prelude.{subst}
use al_ur_messenger.Message.{
  Send, plain, forwarding, Content, SenderSnapshot, Sent, Edit, Message, is_active, is_deleted,
  empty_object,
}
use al_ur_messenger.History.{run}
use al_ur_messenger.Message.Scan.{scan, scan_id, grouped, joined}
use al_ur_messenger.Message.Access.{check_content}
use al_ur_messenger.Message.Sending.{send, drop_send}
use al_ur_messenger.Message.Forwarding.{send_command, request_command, share, forwarded_body}
use al_ur_messenger.Message.Source.{read_source, original_sender}
use al_ur_messenger.Message.Forwards.{IsCopied, forward-IsCopied}
use al_ur_messenger.Message.Mutations.{
  edit, request_edit, request_delete, delete_message, new_body, set_last, drop_relations,
}
use al_ur_messenger.Message.Reading.{get_message}
use al_ur_messenger.Message.Contents.{Carries, send-Carries, is_utf8}
use al_ur_messenger.Message.Retries.{retry-IsRepeated}
use al_ur_messenger.Message.Retries.Success.{send_command-again}
use al_ur_messenger.Message.Deletions.{delete-delete}
use al_ur_messenger.Message.Edits.{IsReplaced, edit-IsReplaced}
use al_ur_messenger.Tests.Codec.{outside, outside-IsFaithful}
use al_ur_messenger.Tests.World.{clock, rt, trace, empty_db, human_actor, group_with, running}

abbrev hi : Text
hi = b'h' ∷ b'i' ∷ []

abbrev pub greeting : Send
greeting = record {
  client_id = 77;
  type = some MessageType.text_message;
  content = record { text = hi; caption = [] };
  metadata = none;
  reply_to = none;
  attachment_ids = [];
}

unfoldable group : Db
group = after empty_db (create rt (human_actor 10) (group_with 11) trace empty_db)

abbrev sending : Result (Sent × Db)
sending = send (clock 600) outside (human_actor 10) 1000 greeting false group

-- What a run of the message commands has to see through.
unfoldable pub running_messages : Unit {0}
unfolding running group send request_edit request_delete send_command request_command run is_blank
    is_space byte_length same_text edit delete_message get_message check_content scan scan_id
    set_last drop_relations grouped joined
running_messages = tt

abbrev pub message : Message
message = record {
  id = 1003;
  conversation_id = 1000;
  sender_id = 10;
  type = MessageType.text_message;
  content = some greeting.content;
  metadata = some empty_object;
  reply = none;
  forward = none;
  status = is_active;
  sequence = 1;
  version = 1;
  created_at = 600;
  expires_at = 2592600;
  edited_at = none;
  deleted_at = none;
  reactions = [];
  pin = none;
  attachments = [];
}

abbrev greeted : Sent
greeted = record { message = message; deduplicated = false; dedup_expires_at = 31536600 }

unfoldable pub with_message : Db
unfolding running_messages
with_message = after empty_db sending

retry-IsRepeated_example :
    Post
      (λ again db''.
        (db'' ≡ with_message)
        × (again.message.id ≡ 1003)
        × (again.deduplicated ≡ true)
        × (again.dedup_expires_at ≡ 31536600))
      (send_command (clock 700) outside (human_actor 10) 1000 (plain greeting) false with_message)
unfolding with_message running_messages
retry-IsRepeated_example =
    retry-IsRepeated (clock 600) (clock 700) outside (human_actor 10) 1000 1000 (plain greeting)
      (plain greeting) false false group with_message greeted refl refl refl

send_command-again_example :
    send_command (clock 700) outside (human_actor 10) 1000 (plain greeting) false with_message
    ≡ ok (
      record { message = message; deduplicated = true; dedup_expires_at = 31536600 },
      with_message,
    )
unfolding with_message running_messages
send_command-again_example =
    send_command-again (clock 600) (clock 700) outside (human_actor 10) 1000 (plain greeting) false
      false group with_message greeted message refl refl
      (record {
        valid = refl;
        index = (1 ∷ [], hi ∷ []);
        indexed = refl;
        retention = 30;
        active = refl;
        replies = refl;
        images = refl;
      })
      refl

send-Carries_example :
    (m : Message) × (get_message (clock 800) outside (human_actor 11) 1003 with_message ≡ ok m)
    × Carries (human_actor 10) 1000 greeting 1 m
unfolding with_message running_messages
send-Carries_example =
    send-Carries (clock 600) (clock 800) outside (human_actor 10) (human_actor 11) 1000 greeting
      false group with_message greeted outside-IsFaithful refl refl refl refl refl

abbrev forwarded : Message
forwarded = record message {
  id = 1005;
  sender_id = 11;
  forward =
      some (record { message_id = 1003; original_sender = record { id = 10; display_name = [] } });
  sequence = 2;
  created_at = 700;
  expires_at = 2592700;
}

abbrev forwarded_once : Sent
forwarded_once = record { message = forwarded; deduplicated = false; dedup_expires_at = 31536700 }

abbrev forwarding_hi : Result (Sent × Db)
forwarding_hi =
    send_command (clock 700) outside (human_actor 11) 1000 (forwarding false 78 1003) false
      with_message

unfoldable with_forward : Db
unfolding running_messages with_message read_source original_sender share
with_forward = after empty_db forwarding_hi

copied_utf8 :
    (m : Message) (c : Content) (s : SenderSnapshot)
    → read_source
        (clock 700)
        outside
        (human_actor 11)
        1003
        (drop_send (human_actor 11) 78 with_message)
      ≡ ok (m, c)
    → original_sender 1 m (drop_send (human_actor 11) 78 with_message) ≡ ok s
    → is_utf8 (forwarded_body m c s) ≡ true
unfolding with_message running_messages read_source original_sender
copied_utf8 m c s e f = named (read_lem _ _ e) f
  where
    read_lem : (x y : Message × Content) → ok x ≡ ok y → x ≡ y
    read_lem x y h = cc

    name_lem : (x y : SenderSnapshot) → ok x ≡ ok y → x ≡ y
    name_lem x y h = cc

    named :
        ◌≡◌ {A = Message × Content} (message, greeting.content) (m, c)
        → original_sender 1 m (drop_send (human_actor 11) 78 with_message) ≡ ok s
        → is_utf8 (forwarded_body m c s) ≡ true
    named e f =
        subst (λ x. is_utf8 (forwarded_body x.0 x.1 s) ≡ true) e
          (subst (λ y. is_utf8 (forwarded_body message greeting.content y) ≡ true)
            (name_lem _ _ (
              subst (λ x. original_sender 1 x.0 (drop_send (human_actor 11) 78 with_message) ≡ ok s)
                (sym e) f))
            refl)

forward-IsCopied_example :
    (m : Message) × (get_message (clock 800) outside (human_actor 10) 1005 with_forward ≡ ok m)
    × IsCopied
        (clock 700)
        outside
        (human_actor 11)
        1000
        1003
        (drop_send (human_actor 11) 78 with_message)
        m
unfolding with_forward with_message running_messages read_source original_sender share
forward-IsCopied_example =
    forward-IsCopied (clock 700) (clock 800) outside (human_actor 11) (human_actor 10) 1000 78 1003
      false false with_message with_forward forwarded_once outside-IsFaithful refl copied_utf8 refl
      refl refl refl

abbrev pub correction : Edit
correction = record { content = record { text = b'h' ∷ []; caption = [] }; expected_version = 1 }

abbrev correcting : Result (Message × Db)
correcting = edit (clock 900) outside (human_actor 10) 1003 none correction with_message

abbrev corrected : Message
corrected = record message { content = some correction.content; version = 2; edited_at = some 900 }

unfoldable with_correction : Db
unfolding running_messages with_message
with_correction = after empty_db correcting

abbrev pub stored : MessageRow
stored = record {
  id = 1003;
  project_id = 1;
  conversation_id = 1000;
  sender_id = 10;
  type = MessageType.text_message;
  sealed = record {
    ciphertext = 1 ∷ 1000 ∷ 1003 ∷ 2 ∷ b'h' ∷ b'i' ∷ 0 ∷ 1 ∷ 2 ∷ b'{' ∷ b'}' ∷ [];
    nonce = 4 ∷ [];
    key_version = 1 ∷ [];
    payload_version = 1;
  };
  sequence = 1;
  version = 1;
  created_at = 600;
  expires_at = 2592600;
  reply_to = none;
  forwarded_from = none;
  edited_at = none;
  deleted_at = none;
}

utf8_lem :
    (m : Message)
    → scan_id (clock 900) outside 1 1003 with_message ≡ ok m
    → is_utf8 (new_body correction m) ≡ true
unfolding with_message running_messages
utf8_lem m e = subst (λ x. is_utf8 (new_body correction x) ≡ true) (ok_lem _ _ e) refl
  where
    ok_lem : (x y : Message) → ok x ≡ ok y → x ≡ y
    ok_lem x y h = cc

edit-IsReplaced_example :
    (m : Message) × (get_message (clock 950) outside (human_actor 11) 1003 with_correction ≡ ok m)
    × IsReplaced (human_actor 10) correction stored m
unfolding with_correction with_message running_messages
edit-IsReplaced_example =
    edit-IsReplaced (clock 900) (clock 950) outside (human_actor 10) (human_actor 11) 1003 none
      correction with_message with_correction corrected stored outside-IsFaithful refl utf8_lem refl
      refl refl refl

abbrev deleting : Result (Message × Db)
deleting = delete_message (clock 990) outside (human_actor 10) 1003 none with_message

abbrev removed : Message
removed = record message {
  content = none;
  metadata = none;
  status = is_deleted;
  version = 2;
  deleted_at = some 990;
}

unfoldable without_message : Db
unfolding running_messages with_message
without_message = after empty_db deleting

abbrev deleted_row : MessageRow
deleted_row = record stored {
  sealed = record stored.sealed { ciphertext = [] };
  version = 2;
  deleted_at = some 990;
}

delete-delete_example :
    delete_message (clock 999) outside (human_actor 10) 1003 (some 1000) without_message
    ≡ ok (removed, without_message)
unfolding without_message with_message running_messages
delete-delete_example =
    delete-delete (clock 990) (clock 999) outside outside (human_actor 10) (human_actor 10) 1003
      none (some 1000) with_message without_message removed deleted_row refl refl refl
