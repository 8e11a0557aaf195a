-- ===== src/Message/Forwards.antt =====
-- What a forward shows, and of whom.
mod Origin
use Origin.{IsReadable, IsAuthor, read_source-IsReadable, original_sender-IsAuthor}
use al_ur_messenger.Prelude.{
  ℕ, ◌≡◌, refl, sym, ◌∙◌, ap, Bool, true, false, Option, some, none, ltb, ◌==◌, arith, ◌+◌, ◌*◌,
}
use al_ur_messenger.Store.Query.{
  Gives, Gives-ok, given, refused, row-Gives, step-Gives, bind-Gives, check-Gives, pure-Gives,
}
use al_ur_messenger.Store.{UserRow}
use al_ur_messenger.Prelude.Table.{keep_if-eq-some}
use al_ur_messenger.Result.{not_found, no_rows, err}
use al_ur_messenger.Message.{Forward}
use al_ur_messenger.Message.Access.{is_live}
use al_ur_messenger.Message.Source.{content_of, can_forward}
use al_ur_messenger.Message.Scan.Facts.{IsShown, scan-IsShown}
use al_ur_messenger.Prelude.Table.{find, find-append_new, find-none}
use al_ur_messenger.Result.{ok}
use al_ur_messenger.Runtime.{Runtime}
use al_ur_messenger.Identity.{Actor}
use al_ur_messenger.Store.{Db, MessageRow, SendRow, Sealed, message_key}
use al_ur_messenger.Store.Tx.{
  Post, Post-mono, Post-ok, drawn_once, query->>=, check->>=, draw->>=, write->>=,
}
use al_ur_messenger.Event.{conversation_row}
use al_ur_messenger.Conversation.Commands.{update_conversation}
use al_ur_messenger.Message.{
  forwarding, Sent, Message, Content, SenderSnapshot, Canonical, Outside, is_active,
}
use al_ur_messenger.Message.Scan.{message_row, scan_id, live_message, agrees}
use al_ur_messenger.Message.Scan.Facts.{scan-live, scan_id-row, found-id, found-IsOf}
use al_ur_messenger.Message.Source.{read_source, original_sender}
use al_ur_messenger.Message.Sending.{drop_send, seal_with, numbered}
use al_ur_messenger.Message.Forwarding.{
  forward, forward_new, forward_or_again, forwarded_body, send_command, forwarded_message,
}
use al_ur_messenger.Message.Stored.{IsStored, send_again-IsRepeated}
use al_ur_messenger.Message.Retries.{store_forward-IsStored}
use al_ur_messenger.Message.Contents.{IsFaithful, is_utf8, IsOpen, sealed-IsOpen, lasts, get-scan}
use al_ur_messenger.Message.Reading.{get_message}
use al_ur_messenger.Recovery.Access.{read_access}

-- The row that has been stored is the one that its identifier finds.
stored-row :
    (rt : Runtime) (o : Outside) (a : Actor) (client : ℕ) (c : Canonical) (m : MessageRow)
    (before : Db) (sent : Sent) (db' : Db)
    → IsStored rt o a client c m before sent db'
    → m.project_id ≡ a.project_id
    → message_row a.project_id m.id db' ≡ some m
stored-row rt o a client c m before sent db' h project =
    ap (find (message_key a.project_id m.id)) h.messages
    ∙ find-append_new (message_key a.project_id m.id) _ m
        (find-none (message_key a.project_id m.id) (λ x. x.id == m.id) before.messages
          (λ r k. ground arith) h.fresh)
        (rw project (ground arith))

-- How a forward that is not a duplicate was stored.
record IsForwarded (rt : Runtime) (o : Outside) (a : Actor) (target client source : ℕ) (db : Db)
    (sent : Sent) (db' : Db) : Type 0 where
  original : Message
  content : Content
  author : SenderSnapshot
  readable : read_source rt o a source (drop_send a client db) ≡ ok (original, content)
  attributed : original_sender a.project_id original (drop_send a client db) ≡ ok author
  id : ℕ
  retention : ℕ
  sequence : ℕ
  sealed : Sealed
  drawn : Db
  is_sealed : seal_with o a target id (forwarded_body original content author) drawn ≡ ok sealed
  before : Db
  stored :
      IsStored rt o a client
        (Canonical.forward_form target client source)
        (forwarded_message rt a target original retention id sequence sealed)
        before
        sent
        db'

-- The two ways in which a forward commits.
data IsDone (rt : Runtime) (o : Outside) (a : Actor) (target client source : ℕ) (db : Db)
    (sent : Sent) (db' : Db) : Type 0 where
  copied :
      IsForwarded rt o a target client source db sent db'
      → IsDone rt o a target client source db sent db'
  repeated : sent.deduplicated ≡ true → IsDone rt o a target client source db sent db'

module _ (rt : Runtime) (o : Outside) (a : Actor) (target client source : ℕ) (db : Db) where
  forward_new-IsDone :
      (retention : ℕ) (original : Message) (content : Content)
      → read_source rt o a source (drop_send a client db) ≡ ok (original, content)
      → Post (IsDone rt o a target client source db) (
          forward_new rt o a target client
            (Canonical.forward_form target client source)
            retention
            original
            content
            (drop_send a client db))
  unfolding forward_new update_conversation
  forward_new-IsDone retention original content readable =
      query->>= _ _ _ (drop_send a client db) λ _ moderated.
        query->>= _ _ _ (drop_send a client db) λ author attributed.
          query->>= _ _ _ (drop_send a client db) λ index _.
            draw->>= _ rt _ (drop_send a client db) (
              query->>= _ _ _ _ λ sealed is_sealed.
                query->>= _ (conversation_row a.project_id target) _ _ λ row found.
                  write->>= _ _ _ _ (
                    Post-mono _ _ _
                      (store_forward-IsStored rt o a client
                        (Canonical.forward_form target client source) original index _ _)
                      λ sent db' h. copied (record {
                        original = original;
                        content = content;
                        author = author;
                        readable = readable;
                        attributed = attributed;
                        id = _;
                        retention = retention;
                        sequence = _;
                        sealed = sealed;
                        drawn = drawn_once (drop_send a client db);
                        is_sealed = is_sealed;
                        before =
                            update_conversation a.project_id target (numbered rt)
                              (drawn_once (drop_send a client db));
                        stored = h;
                      })))

  forward_or_again-IsDone :
      (retention : ℕ) (x : Option SendRow)
      → Post
          (IsDone rt o a target client source db)
          (forward_or_again rt o a target client source retention x db)
  unfolding forward_or_again
  forward_or_again-IsDone retention (some s) =
      Post-mono _ _ _ (send_again-IsRepeated rt o a _ s db) λ sent db' h. repeated h.repeated
  forward_or_again-IsDone retention none =
      write->>= _ _ _ db
        (query->>= _ _ _ _ λ (m, content) readable. forward_new-IsDone retention m content readable)

  forward-IsDone :
      Post (IsDone rt o a target client source db) (forward rt o a target client source db)
  unfolding forward
  forward-IsDone = query->>= _ _ _ db λ retention _.
      query->>= _ _ _ db λ _ _. query->>= _ _ _ db λ x e. forward_or_again-IsDone retention x

  send_command-IsDone :
      (mixed system : Bool)
      → Post
          (IsDone rt o a target client source db)
          (send_command rt o a target (forwarding mixed client source) system db)
  unfolding send_command
  send_command-IsDone mixed system = check->>= _ _ _ db λ valid. forward-IsDone

-- The copy of a message that the actor could read, attributed to its author.
pub record IsCopied (rt : Runtime) (o : Outside) (a : Actor) (target source : ℕ) (db : Db)
    (m : Message) : Type 0 where
  original : Message
  content : Content
  author : SenderSnapshot
  readable : IsReadable rt o a source db original content
  attributed : IsAuthor original author
  in_target : m.conversation_id ≡ target
  sender : m.sender_id ≡ a.user_id
  same_type : m.type ≡ original.type
  same_content : m.content ≡ some content
  header : m.forward ≡ some (record { message_id = original.id; original_sender = author })
  reply : m.reply ≡ none
  version : m.version ≡ 1
  status : m.status ≡ is_active

agrees_self :
    (n : ℕ) (s : SenderSnapshot)
    → agrees (some n) (some (record { message_id = n; original_sender = s })) ≡ true
agrees_self n s = ground arith

-- What a reader gets of a forward while it lives.
forwarded-scan :
    (rt rt' : Runtime) (o : Outside) (a : Actor) (target client source : ℕ) (db : Db) (sent : Sent)
    (db' : Db) (h : IsForwarded rt o a target client source db sent db')
    → IsFaithful o
    → is_utf8 (forwarded_body h.original h.content h.author) ≡ true
    → ltb rt'.db_now (rt.now + h.retention * 86400) ≡ true
    → scan_id rt' o a.project_id h.id db'
      ≡ ok (
          live_message
            (forwarded_message rt a target h.original h.retention h.id h.sequence h.sealed)
            (forwarded_body h.original h.content h.author)
            db')
forwarded-scan rt rt' o a target client source db sent db' h f utf8 early =
    let opens : IsOpen o a.project_id target h.id h.sealed
        (forwarded_body h.original h.content h.author) =
      sealed-IsOpen o a target h.id _ _ h.sealed f utf8 h.is_sealed in
    scan_id-row rt' o a.project_id h.id _ db'
      (stored-row rt o a client _ _ h.before sent db' h.stored refl)
    ∙ scan-live rt' o a.project_id _ db' opens.plain _ refl (lasts _ _ early) opens.opened
        opens.decoded (agrees_self h.original.id h.author)

-- A forward that is not a duplicate copies a live message, no SYSTEM one, in a conversation that
-- the actor could read when it ran: until the copy expires, as long as the tables are those that the
-- forward left, every actor of the Project who may read the target gets, by the identifier that the
-- forward returned, the content and the type of the source and a header that names the source and
-- its first author, from the sender of the forward. What was sealed has to open, JSON of a body has
-- to read back, and the content and the author's name have to be UTF-8.
pub forward-IsCopied :
    (rt rt' : Runtime) (o : Outside) (a reader : Actor) (target client source : ℕ)
    (mixed system : Bool) (db db' : Db) (sent : Sent)
    → IsFaithful o
    → send_command rt o a target (forwarding mixed client source) system db ≡ ok (sent, db')
    → ((m : Message) (c : Content) (s : SenderSnapshot)
        → read_source rt o a source (drop_send a client db) ≡ ok (m, c)
        → original_sender a.project_id m (drop_send a client db) ≡ ok s
        → is_utf8 (forwarded_body m c s) ≡ true)
    → sent.deduplicated ≡ false
    → ltb rt'.db_now sent.message.expires_at ≡ true
    → reader.project_id ≡ a.project_id
    → read_access reader target db' ≡ ok tt
    → (m : Message) × (get_message rt' o reader sent.message.id db' ≡ ok m)
      × IsCopied rt o a target source (drop_send a client db) m
forward-IsCopied rt rt' o a reader target client source mixed system db db' sent f h utf8 new early
      project allowed =
    go (Post-ok _ _ sent db' (send_command-IsDone rt o a target client source db mixed system) h)
  where
    go :
        IsDone rt o a target client source db sent db'
        → (m : Message) × (get_message rt' o reader sent.message.id db' ≡ ok m)
          × IsCopied rt o a target source (drop_send a client db) m
    go (repeated e) = cc
    go (copied k) =
        let id : sent.message.id ≡ k.id =
          found-id rt o a.project_id k.id db' sent.message k.stored.shown in
        let row : message_row a.project_id k.id db' ≡ some _ =
          stored-row rt o a client _ _ k.before sent db' k.stored refl in
        let same_expiry : sent.message.expires_at ≡ rt.now + k.retention * 86400 =
          (found-IsOf rt o a.project_id k.id db' sent.message _ k.stored.shown row).expires in
        (
          _,
          get-scan rt' o reader sent.message.id _ db'
                (ap (λ i. message_row reader.project_id i db') id
                  ∙ (ap (λ q. message_row q k.id db') project ∙ row))
                allowed
              ∙ (ap (λ i. scan_id rt' o reader.project_id i db') id
                  ∙ (ap (λ q. scan_id rt' o q k.id db') project
                      ∙ forwarded-scan rt rt' o a target client source db sent db' k f
                          (utf8 k.original k.content k.author k.readable k.attributed)
                          (ap (ltb rt'.db_now) (sym same_expiry) ∙ early))),
          record {
            original = k.original;
            content = k.content;
            author = k.author;
            readable =
                Gives-ok (λ x. IsReadable rt o a source (drop_send a client db) x.0 x.1) _ _
                  (read_source-IsReadable rt o a source (drop_send a client db)) k.readable;
            attributed =
                Gives-ok (IsAuthor k.original) _ _
                  (original_sender-IsAuthor a.project_id k.original (drop_send a client db))
                  k.attributed;
            in_target = refl;
            sender = refl;
            same_type = refl;
            same_content = refl;
            header = refl;
            reply = refl;
            version = refl;
            status = refl;
          },
        )
