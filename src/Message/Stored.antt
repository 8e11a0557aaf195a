-- ===== src/Message/Stored.antt =====
-- What a send writes: the row of the message, and the receipt of the send.
use al_ur_messenger.Prelude.{
  ℕ, suc, ◌+◌, ◌≡◌, refl, ◌∙◌, ap, Bool, true, false, ◌||◌, not, Option, some, none, List, [], ◌∷◌,
  ◌++◌, ltb, ◌==◌, arith,
}
use al_ur_messenger.Prelude.Table.{find, exists, delete}
use al_ur_messenger.Text.{Text, same_text, valid_string}
use al_ur_messenger.Result.{ok, or_fail-eq-ok, guard, fail_if, dependency}
use al_ur_messenger.Runtime.{Runtime}
use al_ur_messenger.Identity.{Actor}
use al_ur_messenger.Store.{
  Payload, Db, ConversationRow, MessageRow, SendRow, Sealed, conversation_key,
}
use al_ur_messenger.Store.Tx.{
  Tx, write, Post, Post-mono, query->>=, check->>=, draw->>=, write->>=, bind->>=, commit-Post,
}
use al_ur_messenger.Event.{conversation_row, record_event, bump}
use al_ur_messenger.Event.Log.{IsAppended, append-IsAppended}
use al_ur_messenger.Conversation.Commands.{update_conversation}
use al_ur_messenger.Message.{
  Canonical, Send, Sent, Body, Outside, metadata_or_empty, validate_send, canonical,
}
use al_ur_messenger.Message.Scan.{scan_id}
use al_ur_messenger.Message.Sending.{
  store_sent, is_image, first_id, new_message, new_send, send_key, valid_send_row, send, send_new,
  send_again, send_or_again, store_message, insert_message, drop_send, attach, insert_search,
  insert_send, seal_with, check_row, year, valid_row,
}

-- The body that is sealed.
abbrev pub sent_body : Send → Body
sent_body p = record {
  content = p.content;
  metadata = some (metadata_or_empty p.metadata);
  forward = none;
}

-- The tables after a message has been stored.
pub record IsStored (rt : Runtime) (o : Outside) (a : Actor) (client : ℕ) (c : Canonical)
    (m : MessageRow) (db : Db) (sent : Sent) (db' : Db) : Type 0 where
  pub fresh : exists (λ x. x.id == m.id) db.messages ≡ false
  pub lasting : ltb m.created_at m.expires_at ≡ true
  pub messages : db'.messages ≡ db.messages ++ m ∷ []
  pub shown : scan_id rt o a.project_id m.id db' ≡ ok sent.message
  pub new : sent.deduplicated ≡ false
  pub until : sent.dedup_expires_at ≡ rt.now + year
  pub fingerprint : Text
  pub printed : o.crypto.fingerprint a.project_id o.crypto.fingerprint_version c ≡ ok fingerprint
  pub sends : db'.sends ≡ db.sends ++ new_send rt o a client m fingerprint ∷ []

-- A step of a send that leaves the messages and the receipts.
abbrev pub LeavesSends : Db → Db → Type 0
LeavesSends db db' = (db'.messages ≡ db.messages) × (db'.sends ≡ db.sends)

attach-LeavesSends :
    (b : Bool) (id : ℕ) (m : MessageRow) (db : Db)
    → Post (λ _ db'. LeavesSends db db') (write (attach b id m) db)
unfolding attach write
attach-LeavesSends false id m db = Post.committed (refl, refl)
attach-LeavesSends true id m db = Post.committed (refl, refl)

appended_sends :
    (rt : Runtime) (project id : ℕ) (db db' : Db) (e : _)
    → IsAppended rt project id db e db'
    → (db'.messages ≡ db.messages) × (db'.sends ≡ db.sends)
unfolding record_event bump
appended_sends rt project id db db' e h = (rw h.tables, rw h.tables)

pub row_fits :
    (a b c : Bool) → fail_if (a || b || not c) dependency ≡ ok tt → (a ≡ false) × (c ≡ true)
row_fits a b c h = ground arith

pub store_message-IsStored :
    (rt : Runtime) (o : Outside) (a : Actor) (client : ℕ) (c : Canonical) (link : Tx (Unit {0}))
    (payload : Payload) (index : Text × List Text) (m : MessageRow) (db : Db)
    → ((db : Db) → Post (λ _ db'. LeavesSends db db') (link db))
    → Post (IsStored rt o a client c m db) (store_message rt o a client c link payload index m db)
unfolding store_message check_row insert_message update_conversation insert_search insert_send
store_message-IsStored rt o a client c link payload index m db linked = query->>= _ _ _ db λ _ fits.
    write->>= _ _ _ _ (
      bind->>= _ _ _ _ (linked (insert_message m db)) λ _ db₁ left. write->>= _ _ _ _ (
        write->>= _ _ _ _ (
          query->>= _ _ _ _ λ f print. write->>= _ _ _ _ (
            bind->>= _ _ _ _ (append-IsAppended rt a.project_id m.conversation_id _ _ _)
              λ e db' log. query->>= _ _ _ db' λ message seen.
                let (free, lasting) = row_fits _ _ _ fits in
                let (ms, ss) = appended_sends rt _ _ _ db' e log in
                commit-Post _ _ db' (record {
                  fresh = free;
                  lasting = lasting;
                  messages = ms ∙ left.0;
                  shown = seen;
                  new = refl;
                  until = refl;
                  fingerprint = f;
                  printed = print;
                  sends = ss ∙ ap (λ t. t ++ new_send rt o a client m f ∷ []) left.1;
                })))))

store_sent-IsStored :
    (rt : Runtime) (o : Outside) (a : Actor) (conversation : ℕ) (p : Send)
    (index : Text × List Text) (m : MessageRow) (db : Db)
    → Post
        (IsStored rt o a p.client_id (canonical conversation p) m db)
        (store_sent rt o a conversation p index m db)
unfolding store_sent
store_sent-IsStored rt o a conversation p index m db =
    store_message-IsStored rt o a p.client_id _ _ _ index m db
      (attach-LeavesSends (is_image p.type) (first_id p.attachment_ids) m)

-- A send that no receipt answers: the next row of its conversation, with the sealed body.
pub record IsNew (rt : Runtime) (o : Outside) (a : Actor) (conversation : ℕ) (p : Send) (db : Db)
    (sent : Sent) (db' : Db) : Type 0 where
  pub retention : ℕ
  pub drawn : ℕ
  pub id : ℕ
  pub sealed : Sealed
  pub row : ConversationRow
  pub found : find (conversation_key a.project_id conversation) db.conversations ≡ some row
  pub is_sealed :
      seal_with o a conversation id (sent_body p) (record db { drawn = drawn }) ≡ ok sealed
  pub before : Db
  pub same_messages : before.messages ≡ db.messages
  pub dropped : before.sends ≡ delete (send_key a.project_id a.user_id p.client_id) db.sends
  pub message : MessageRow
  pub is_message :
      message ≡ new_message rt a conversation p retention id (suc row.message_sequence) sealed
  pub stored : IsStored rt o a p.client_id (canonical conversation p) message before sent db'

send_new-IsNew :
    (rt : Runtime) (o : Outside) (a : Actor) (conversation : ℕ) (p : Send)
    (index : Text × List Text) (retention : ℕ) (db : Db)
    → Post (IsNew rt o a conversation p db) (send_new rt o a conversation p index retention db)
unfolding send_new drop_send update_conversation seal_with
send_new-IsNew rt o a conversation p index retention db = write->>= _ _ _ db (
    query->>= _ _ _ _ λ _ moderated. query->>= _ _ _ _ λ _ attachable.
      query->>= _ _ _ _ λ _ answerable. draw->>= _ rt _ _ (
        query->>= _ _ _ _ λ sealed is_sealed. query->>= _ (conversation_row _ _) _ _ λ c found.
          write->>= _ _ _ _ (
            Post-mono _ _ _ (store_sent-IsStored rt o a conversation p index _ _) λ sent db' h.
              record {
                retention = retention;
                drawn = suc db.drawn;
                id = rt.new_id db.drawn;
                sealed = sealed;
                row = c;
                found = or_fail-eq-ok _ _ _ found;
                is_sealed = is_sealed;
                before = _;
                same_messages = refl;
                dropped = refl;
                message = _;
                is_message = refl;
                stored = h;
              })))

-- A retry: nothing is written, and the message of the receipt is shown.
pub record IsRepeated (rt : Runtime) (o : Outside) (a : Actor) (c : Canonical) (s : SendRow)
    (db : Db) (sent : Sent) (db' : Db) : Type 0 where
  pub tables : db' ≡ db
  pub shown : scan_id rt o a.project_id s.message_id db ≡ ok sent.message
  pub repeated : sent.deduplicated ≡ true
  pub until : sent.dedup_expires_at ≡ s.expires_at
  pub candidate : Text
  pub printed : o.crypto.fingerprint a.project_id s.fingerprint_version c ≡ ok candidate
  pub same : same_text candidate s.fingerprint ≡ true

pub send_again-IsRepeated :
    (rt : Runtime) (o : Outside) (a : Actor) (c : Canonical) (s : SendRow) (db : Db)
    → Post (IsRepeated rt o a c s db) (send_again rt o a c s db)
unfolding send_again
send_again-IsRepeated rt o a c s db = query->>= _ _ _ db λ f printed. check->>= _ _ _ db λ same.
    query->>= _ _ _ db λ message shown. commit-Post _ _ db (record {
      tables = refl;
      shown = shown;
      repeated = refl;
      until = refl;
      candidate = f;
      printed = printed;
      same = passes _ _ same;
    })
  where
    passes : (b : Bool) (e : _) → guard b e ≡ ok tt → b ≡ true
    passes b e h = ground arith

-- The two ways in which a send commits.
pub data IsSent (rt : Runtime) (o : Outside) (a : Actor) (conversation : ℕ) (p : Send) (db : Db)
    (sent : Sent) (db' : Db) : Type 0 where
  by_row :
      valid_send_row rt a p.client_id db ≡ none
      → IsNew rt o a conversation p db sent db'
      → IsSent rt o a conversation p db sent db'
  by_receipt :
      (s : SendRow)
      → valid_send_row rt a p.client_id db ≡ some s
      → IsRepeated rt o a (canonical conversation p) s db sent db'
      → IsSent rt o a conversation p db sent db'

unfold_valid :
    (rt : Runtime) (system : Bool) (p : Send)
    → validate_send rt system p ≡ ok tt
    → (valid_string p.content.text ≡ true) × (valid_string p.content.caption ≡ true)
unfolding validate_send
unfold_valid rt system p h = (ground arith, ground arith)

pub send-IsSent :
    (rt : Runtime) (o : Outside) (a : Actor) (conversation : ℕ) (p : Send) (system : Bool) (db : Db)
    → Post
        (λ sent db'.
          (valid_string p.content.text ≡ true)
          × (valid_string p.content.caption ≡ true)
          × IsSent rt o a conversation p db sent db')
        (send rt o a conversation p system db)
unfolding send valid_row send_or_again
send-IsSent rt o a conversation p system db = check->>= _ _ _ db λ valid.
    query->>= _ _ _ db λ index _. query->>= _ _ _ db λ retention _. query->>= _ _ _ db λ _ _.
      query->>= _ _ _ db λ _ _. query->>= _ _ _ db λ x e.
        Post-mono _ _ _ (go x index retention (read x e))
          λ sent db' h. let (text, caption) = unfold_valid rt system p valid in (text, caption, h)
  where
    read :
        (x : Option SendRow)
        → valid_row rt a p.client_id db ≡ ok x
        → valid_send_row rt a p.client_id db ≡ x
    read x e = cc

    go :
        (x : Option SendRow) (index : Text × List Text) (retention : ℕ)
        → valid_send_row rt a p.client_id db ≡ x
        → Post
            (IsSent rt o a conversation p db)
            (send_or_again rt o a conversation p index retention x db)
    go none index retention e =
        Post-mono _ _ _ (send_new-IsNew rt o a conversation p index retention db)
          λ sent db' h. by_row e h
    go (some s) index retention e =
        Post-mono _ _ _ (send_again-IsRepeated rt o a (canonical conversation p) s db)
          λ sent db' h. by_receipt s e h
