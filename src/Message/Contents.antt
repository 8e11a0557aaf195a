-- ===== src/Message/Contents.antt =====
-- What has been sealed is what a reader gets.
use al_ur_messenger.Prelude.{
  ℕ, suc, ◌≡◌, refl, sym, ◌∙◌, ap, subst, Bool, true, false, ◌&&◌, Option, some, none, ltb, leb,
  ◌==◌, arith, is_some,
}
use al_ur_messenger.Prelude.Table.{find, find-append_new, find-none}
use al_ur_messenger.Text.{Text, valid_string}
use al_ur_messenger.Result.{ok, not_found}
use al_ur_messenger.Runtime.{Runtime}
use al_ur_messenger.Identity.{Actor}
use al_ur_messenger.Store.{Db, MessageRow, Sealed, message_key}
use al_ur_messenger.Store.Tx.{Post-ok}
use al_ur_messenger.Store.Query.{row_hit, bind_hit}
use al_ur_messenger.Recovery.Access.{read_access}
use al_ur_messenger.Recovery.Receipts.Positions.{last_message, messages_of}
use al_ur_messenger.Message.{
  Send, Sent, Body, Forward, Message, Outside, metadata_or_empty, is_active,
}
use al_ur_messenger.Message.Scan.{message_row, scan_id, live_message, agrees}
use al_ur_messenger.Message.Scan.Facts.{scan-live, scan_id-row, found-IsOf, found-id}
use al_ur_messenger.Message.Sending.{send, seal_with, seal_body}
use al_ur_messenger.Message.Stored.{IsSent, by_row, by_receipt, IsNew, send-IsSent, sent_body}
use al_ur_messenger.Message.Reading.{get_message}

abbrev name_is_utf8 : Option Forward → Bool
name_is_utf8 none = true
name_is_utf8 (some f) = valid_string f.original_sender.display_name

-- Go strings that JSON carries unchanged.
abbrev pub is_utf8 : Body → Bool
is_utf8 b = valid_string b.content.text && valid_string b.content.caption && name_is_utf8 b.forward

-- What opens is what was sealed for the same Project, conversation and message, and JSON of a body
-- reads back as the body.
pub record IsFaithful (o : Outside) : Type 0 where
  pub opens :
      (seed project conversation id : ℕ) (plain : Text) (s : Sealed)
      → o.crypto.seal seed project conversation id plain ≡ ok s
      → o.crypto.open_sealed project conversation id s ≡ ok plain
  pub decodes :
      (b : Body) (plain : Text)
      → is_utf8 b ≡ true
      → o.marshal b ≡ some plain
      → o.decode plain ≡ some b

-- A body that has been sealed opens.
pub record IsOpen (o : Outside) (project conversation id : ℕ) (s : Sealed) (b : Body) : Type 0 where
  pub plain : Text
  pub opened : o.crypto.open_sealed project conversation id s ≡ ok plain
  pub decoded : o.decode plain ≡ some b

pub sealed-IsOpen :
    (o : Outside) (a : Actor) (conversation id : ℕ) (b : Body) (db : Db) (s : Sealed)
    → IsFaithful o
    → is_utf8 b ≡ true
    → seal_with o a conversation id b db ≡ ok s
    → IsOpen o a.project_id conversation id s b
unfolding seal_with
sealed-IsOpen o a conversation id b db s f utf8 h = go (o.marshal b) refl h
  where
    go :
        (x : Option Text)
        → o.marshal b ≡ x
        → seal_body o a conversation id x db.drawn ≡ ok s
        → IsOpen o a.project_id conversation id s b
    go none e h = cc
    go (some plain) e h = record {
      plain = plain;
      opened = f.opens db.drawn a.project_id conversation id plain s h;
      decoded = f.decodes b plain utf8 e;
    }

-- The row of a new message is the one that its identifier finds.
pub new-row :
    (rt : Runtime) (o : Outside) (a : Actor) (conversation : ℕ) (p : Send) (db : Db) (sent : Sent)
    (db' : Db) (h : IsNew rt o a conversation p db sent db')
    → message_row a.project_id h.id db' ≡ some h.message
new-row rt o a conversation p db sent db' h =
    ap (find (message_key a.project_id h.id)) h.stored.messages
    ∙ find-append_new (message_key a.project_id h.id) _ _
        (find-none (message_key a.project_id h.id) (λ x. x.id == h.message.id) h.before.messages
          (λ r k.
            subst (λ i. (r.id == i) ≡ true) (sym (ap (λ m. m.id) h.is_message)) (ground arith))
          h.stored.fresh)
        (subst (λ m. message_key a.project_id h.id m ≡ true) (sym h.is_message) (ground arith))

pub lasts : (x y : ℕ) → ltb x y ≡ true → leb y x ≡ false
lasts x y h = ground arith

utf8_send :
    (p : Send)
    → valid_string p.content.text ≡ true
    → valid_string p.content.caption ≡ true
    → is_utf8 (sent_body p) ≡ true
utf8_send p t c = rw (t, c) refl

-- What a reader gets of a new message while it lives.
new-scan :
    (rt rt' : Runtime) (o : Outside) (a : Actor) (conversation : ℕ) (p : Send) (db : Db)
    (sent : Sent) (db' : Db) (h : IsNew rt o a conversation p db sent db')
    → IsFaithful o
    → is_utf8 (sent_body p) ≡ true
    → ltb rt'.db_now h.message.expires_at ≡ true
    → scan_id rt' o a.project_id h.id db' ≡ ok (live_message h.message (sent_body p) db')
new-scan rt rt' o a conversation p db sent db' h f utf8 early =
    let opens : IsOpen o a.project_id conversation h.id h.sealed (sent_body p) =
      sealed-IsOpen o a conversation h.id (sent_body p) _ h.sealed f utf8 h.is_sealed in
    scan_id-row rt' o a.project_id h.id h.message db' (new-row rt o a conversation p db sent db' h)
    ∙ scan-live rt' o a.project_id h.message db' opens.plain (sent_body p)
        (ap (λ m. is_some m.deleted_at) h.is_message) (lasts _ _ early)
        (ap (λ m. o.crypto.open_sealed a.project_id m.conversation_id m.id m.sealed) h.is_message
          ∙ opens.opened)
        opens.decoded (ap (λ m. agrees m.forwarded_from none) h.is_message)

-- The message that carries what the command carried.
pub record Carries (a : Actor) (conversation : ℕ) (p : Send) (sequence : ℕ) (m : Message)
    : Type 0 where
  pub content : m.content ≡ some p.content
  pub metadata : m.metadata ≡ some (metadata_or_empty p.metadata)
  pub reply : m.reply ≡ p.reply_to
  pub sender : m.sender_id ≡ a.user_id
  pub in_conversation : m.conversation_id ≡ conversation
  pub numbered : m.sequence ≡ sequence
  pub version : m.version ≡ 1
  pub status : m.status ≡ is_active

pub get-scan :
    (rt : Runtime) (o : Outside) (a : Actor) (id : ℕ) (r : MessageRow) (db : Db)
    → message_row a.project_id id db ≡ some r
    → read_access a r.conversation_id db ≡ ok tt
    → get_message rt o a id db ≡ scan_id rt o a.project_id id db
unfolding get_message
get-scan rt o a id r db e allowed = row_hit db _ not_found _ r e ∙ bind_hit db _ _ tt allowed

-- A send that is not a duplicate gives the next number of its conversation to its message; and
-- until that expires, every actor of the Project who may read the conversation gets, by the
-- identifier that the send returned, the content, the metadata and the reply reference that were
-- sent, as long as the tables are those that the send left. What was sealed has to open, and JSON
-- of a body has to read back.
pub send-Carries :
    (rt rt' : Runtime) (o : Outside) (a reader : Actor) (conversation : ℕ) (p : Send)
    (system : Bool) (db db' : Db) (sent : Sent)
    → IsFaithful o
    → send rt o a conversation p system db ≡ ok (sent, db')
    → sent.deduplicated ≡ false
    → ltb rt'.db_now sent.message.expires_at ≡ true
    → reader.project_id ≡ a.project_id
    → read_access reader conversation db' ≡ ok tt
    → (m : Message) × (get_message rt' o reader sent.message.id db' ≡ ok m)
      × Carries a conversation p (suc (last_message a.project_id conversation db.conversations)) m
send-Carries rt rt' o a reader conversation p system db db' sent f h new early project allowed =
    let (text, caption, way) =
      Post-ok _ _ sent db' (send-IsSent rt o a conversation p system db) h in
    go (utf8_send p text caption) way
  where
    go :
        is_utf8 (sent_body p) ≡ true
        → IsSent rt o a conversation p db sent db'
        → (m : Message) × (get_message rt' o reader sent.message.id db' ≡ ok m)
          × Carries a conversation p
              (suc (last_message a.project_id conversation db.conversations))
              m
    go utf8 (by_receipt s e k) = cc
    go utf8 (by_row e k) =
        let id : sent.message.id ≡ k.id =
          found-id rt o a.project_id _ db' sent.message k.stored.shown
          ∙ ap (λ m. m.id) k.is_message in
        let same_expiry : sent.message.expires_at ≡ k.message.expires_at =
          (found-IsOf rt o a.project_id k.id db' sent.message k.message
            (ap (λ i. scan_id rt o a.project_id i db') (sym (ap (λ m. m.id) k.is_message))
              ∙ k.stored.shown)
            (new-row rt o a conversation p db sent db' k)).expires in
        let row : message_row reader.project_id sent.message.id db' ≡ some k.message =
          ap (λ i. message_row reader.project_id i db') id
          ∙ (ap (λ q. message_row q k.id db') project
              ∙ new-row rt o a conversation p db sent db' k) in
        (
          live_message k.message (sent_body p) db',
          get-scan rt' o reader sent.message.id k.message db' row (
                subst (λ m. read_access reader m.conversation_id db' ≡ ok tt) (sym k.is_message)
                  allowed)
              ∙ (ap (λ i. scan_id rt' o reader.project_id i db') id
                  ∙ (ap (λ q. scan_id rt' o q k.id db') project
                      ∙ new-scan rt rt' o a conversation p db sent db' k f utf8
                          (ap (ltb rt'.db_now) (sym same_expiry) ∙ early))),
          record {
            content = refl;
            metadata = refl;
            reply = ap (λ m. m.reply_to) k.is_message;
            sender = ap (λ m. m.sender_id) k.is_message;
            in_conversation = ap (λ m. m.conversation_id) k.is_message;
            numbered = ap (λ m. m.sequence) k.is_message ∙ ap suc (sym (ap messages_of k.found));
            version = ap (λ m. m.version) k.is_message;
            status = refl;
          },
        )
