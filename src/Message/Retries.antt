-- ===== src/Message/Retries.antt =====
-- Repeated sends: at most one message for one client identifier while the receipt lives.
pub mod Success
use al_ur_messenger.Prelude.{
  ℕ, ◌≡◌, refl, sym, ◌∙◌, ap, Bool, true, false, Option, some, none, List, [], ◌∷◌, ◌++◌, ltb,
  arith,
}
use al_ur_messenger.Prelude.Table.{
  find, delete, find-append_new, find-delete, keep_if, keep_if-eq-some,
}
use al_ur_messenger.Text.{Text, same_text}
use al_ur_messenger.Result.{ok}
use al_ur_messenger.Runtime.{Runtime}
use al_ur_messenger.Identity.{Actor}
use al_ur_messenger.Store.{Db, SendRow, MessageRow}
use al_ur_messenger.Store.Tx.{
  Post, Post-mono, Post-ok, query->>=, check->>=, draw->>=, write->>=, commit-Post,
}
use al_ur_messenger.Event.{conversation_row}
use al_ur_messenger.Conversation.Commands.{update_conversation}
use al_ur_messenger.Message.{canonical}
use al_ur_messenger.Message.{Command, plain, forwarding, Sent, Message, Content, Canonical, Outside}
use al_ur_messenger.Message.Scan.Facts.{found-id}
use al_ur_messenger.Message.Source.{is_image_message}
use al_ur_messenger.Message.Sending.{
  send_row, send_key, valid_send_row, valid_row, drop_send, new_send,
}
use al_ur_messenger.Message.Forwarding.{
  share, attach_copy, store_forward, forward, forward_new, forward_or_again, send_command,
}
use al_ur_messenger.Message.Stored.{
  IsSent, IsStored, IsRepeated, LeavesSends, store_message-IsStored, send_again-IsRepeated,
  send-IsSent,
}

-- The two ways in which a send of any command commits.
pub data IsCommitted (rt : Runtime) (o : Outside) (a : Actor) (client : ℕ) (c : Canonical) (db : Db)
    (sent : Sent) (db' : Db) : Type 0 where
  by_row :
      valid_send_row rt a client db ≡ none
      → (m : MessageRow) (before : Db)
      → before.sends ≡ delete (send_key a.project_id a.user_id client) db.sends
      → IsStored rt o a client c m before sent db'
      → IsCommitted rt o a client c db sent db'
  by_receipt :
      (s : SendRow)
      → valid_send_row rt a client db ≡ some s
      → IsRepeated rt o a c s db sent db'
      → IsCommitted rt o a client c db sent db'

abbrev pub client_of : Command → ℕ
client_of (plain p) = p.client_id
client_of (forwarding mixed client source) = client

-- What the fingerprint of a command is taken of.
abbrev pub form_of : ℕ → Command → Canonical
form_of conversation (plain p) = canonical conversation p
form_of conversation (forwarding mixed client source) =
    Canonical.forward_form conversation client source

share-LeavesSends :
    (rt : Runtime) (a : Actor) (source : ℕ) (m : MessageRow) (image : Bool) (db : Db)
    → Post (λ _ db'. LeavesSends db db') (share rt a source m image db)
unfolding share attach_copy
share-LeavesSends rt a source m false db = commit-Post _ tt db (refl, refl)
share-LeavesSends rt a source m true db =
    draw->>= _ rt _ db
      (query->>= _ _ _ _ λ r _. write->>= _ _ _ _ (commit-Post _ tt _ (refl, refl)))

module _ (rt : Runtime) (o : Outside) (a : Actor) where
  pub store_forward-IsStored :
      (client : ℕ) (c : Canonical) (source : Message) (index : Text × List Text) (m : MessageRow)
      (db : Db)
      → Post (IsStored rt o a client c m db) (store_forward rt o a client c source index m db)
  unfolding store_forward
  store_forward-IsStored client c source index m db =
      store_message-IsStored rt o a client c _ _ index m db
        (share-LeavesSends rt a source.id m (is_image_message source.type))

  forward_new-IsCommitted :
      (target client : ℕ) (c : Canonical) (retention : ℕ) (source : Message) (content : Content)
      (db before : Db)
      → valid_send_row rt a client db ≡ none
      → before.sends ≡ delete (send_key a.project_id a.user_id client) db.sends
      → Post
          (IsCommitted rt o a client c db)
          (forward_new rt o a target client c retention source content before)
  unfolding forward_new update_conversation
  forward_new-IsCommitted target client c retention source content db before none_valid dropped =
      query->>= _ _ _ before λ _ moderated. query->>= _ _ _ before λ original _.
        query->>= _ _ _ before λ index _. draw->>= _ rt _ before (
          query->>= _ _ _ _ λ sealed _.
            query->>= _ (conversation_row a.project_id target) _ _ λ row found. write->>= _ _ _ _ (
              Post-mono _ _ _ (store_forward-IsStored client c source index _ _)
                λ sent db' h. by_row none_valid _ _ dropped h))

  forward_or_again-IsCommitted :
      (target client source retention : ℕ) (x : Option SendRow) (db : Db)
      → valid_send_row rt a client db ≡ x
      → Post
          (IsCommitted rt o a client (Canonical.forward_form target client source) db)
          (forward_or_again rt o a target client source retention x db)
  unfolding forward_or_again drop_send
  forward_or_again-IsCommitted target client source retention (some s) db e =
      Post-mono _ _ _ (send_again-IsRepeated rt o a _ s db) λ sent db' h. by_receipt s e h
  forward_or_again-IsCommitted target client source retention none db e = write->>= _ _ _ db (
      query->>= _ _ _ _
        λ (m, content) _. forward_new-IsCommitted target client _ retention m content db _ e refl)

  forward-IsCommitted :
      (target client source : ℕ) (db : Db)
      → Post
          (IsCommitted rt o a client (Canonical.forward_form target client source) db)
          (forward rt o a target client source db)
  unfolding forward valid_row
  forward-IsCommitted target client source db = query->>= _ _ _ db λ retention _.
      query->>= _ _ _ db λ _ _.
        query->>= _ _ _ db
          λ x e. forward_or_again-IsCommitted target client source retention x db (found_lem _ x e)
    where
      found_lem : (y x : Option SendRow) → ok y ≡ ok x → y ≡ x
      found_lem y x e = cc

  pub send_command-IsCommitted :
      (conversation : ℕ) (p : Command) (system : Bool) (db : Db)
      → Post
          (IsCommitted rt o a (client_of p) (form_of conversation p) db)
          (send_command rt o a conversation p system db)
  unfolding send_command
  send_command-IsCommitted conversation (forwarding mixed client source) system db =
      check->>= _ _ _ db λ valid. forward-IsCommitted conversation client source db
  send_command-IsCommitted conversation (plain p) system db =
      Post-mono _ _ _ (send-IsSent rt o a conversation p system db) λ sent db' h. go sent db' h.2
    where
      go :
          (sent : Sent) (db' : Db)
          → IsSent rt o a conversation p db sent db'
          → IsCommitted rt o a p.client_id (canonical conversation p) db sent db'
      go sent db' (IsSent.by_row e h) = by_row e h.message h.before h.dropped h.stored
      go sent db' (IsSent.by_receipt s e h) = by_receipt s e h

-- The receipt that answers for a client identifier.
pub record IsAnswered (rt : Runtime) (o : Outside) (a : Actor) (client : ℕ) (c : Canonical)
    (db' : Db) (sent : Sent) : Type 0 where
  pub row : SendRow
  pub found : send_row a client db' ≡ some row
  pub names : sent.message.id ≡ row.message_id
  pub until : sent.dedup_expires_at ≡ row.expires_at
  pub candidate : Text
  pub printed : o.crypto.fingerprint a.project_id row.fingerprint_version c ≡ ok candidate
  pub same : same_text candidate row.fingerprint ≡ true

new_send-matches :
    (rt : Runtime) (o : Outside) (a : Actor) (client : ℕ) (m : _) (f : _)
    → send_key a.project_id a.user_id client (new_send rt o a client m f) ≡ true
new_send-matches rt o a client m f = ground arith

-- After a send, whichever way it committed, its receipt is there.
same_text_refl : (t : Text) → same_text t t ≡ true
unfolding same_text
same_text_refl [] = refl
same_text_refl (x ∷ t) = ground (arith, same_text_refl t)

pub sent-IsAnswered :
    (rt : Runtime) (o : Outside) (a : Actor) (client : ℕ) (c : Canonical) (db : Db) (sent : Sent)
    (db' : Db)
    → IsCommitted rt o a client c db sent db'
    → IsAnswered rt o a client c db' sent
sent-IsAnswered rt o a client c db sent db' (by_row none_valid m before dropped h) = record {
  row = new_send rt o a client m h.fingerprint;
  found =
      ap (find (send_key a.project_id a.user_id client))
        (h.sends ∙ ap (λ t. t ++ new_send rt o a client m h.fingerprint ∷ []) dropped)
      ∙ find-append_new (send_key a.project_id a.user_id client) _ _
          (find-delete (send_key a.project_id a.user_id client) db.sends)
          (new_send-matches rt o a client m h.fingerprint);
  names = found-id rt o a.project_id m.id db' sent.message h.shown;
  until = h.until;
  candidate = h.fingerprint;
  printed = h.printed;
  same = same_text_refl h.fingerprint;
}
sent-IsAnswered rt o a client c db sent db' (by_receipt s valid h) =
    let (there, lives) = keep_if-eq-some _ _ s valid in
    record {
      row = s;
      found = ap (send_row a client) h.tables ∙ there;
      names = found-id rt o a.project_id s.message_id db sent.message h.shown;
      until = h.until;
      candidate = h.candidate;
      printed = h.printed;
      same = h.same;
    }

pub kept :
    (p : SendRow → Bool) (o : Option SendRow) (s : SendRow)
    → o ≡ some s
    → p s ≡ true
    → keep_if p o ≡ some s
kept p o s e h = rw e (rw h refl)

-- Once a send has committed, be it of new content or a forward, a further send of the same sender
-- under the same client identifier on the tables that the first one left, to any conversation and
-- with any command, before the receipt expires, changes no table and, where it succeeds, shows the
-- message of the first send and says that it is a duplicate.
pub retry-IsRepeated :
    (rt rt' : Runtime) (o : Outside) (a : Actor) (conversation conversation' : ℕ) (p p' : Command)
    (system system' : Bool) (db db' : Db) (sent : Sent)
    → send_command rt o a conversation p system db ≡ ok (sent, db')
    → client_of p' ≡ client_of p
    → ltb rt'.now sent.dedup_expires_at ≡ true
    → Post
        (λ again db''.
          (db'' ≡ db')
          × (again.message.id ≡ sent.message.id)
          × (again.deduplicated ≡ true)
          × (again.dedup_expires_at ≡ sent.dedup_expires_at))
        (send_command rt' o a conversation' p' system' db')
retry-IsRepeated rt rt' o a conversation conversation' p p' system system' db db' sent h same
      early =
    let first = Post-ok _ _ sent db' (send_command-IsCommitted rt o a conversation p system db) h in
    let answered =
      sent-IsAnswered rt o a (client_of p) (form_of conversation p) db sent db' first in
    let there : send_row a (client_of p') db' ≡ some answered.row =
      ap (λ k. find (send_key a.project_id a.user_id k) db'.sends) same ∙ answered.found in
    let valid : valid_send_row rt' a (client_of p') db' ≡ some answered.row =
      kept _ _ answered.row there (ap (ltb rt'.now) (sym answered.until) ∙ early) in
    Post-mono _ _ _ (send_command-IsCommitted rt' o a conversation' p' system' db')
      λ again db'' k. go answered valid again db'' k
  where
    go :
        (x : IsAnswered rt o a (client_of p) (form_of conversation p) db' sent)
        → valid_send_row rt' a (client_of p') db' ≡ some x.row
        → (again : Sent) (db'' : Db)
        → IsCommitted rt' o a (client_of p') (form_of conversation' p') db' again db''
        → (db'' ≡ db')
          × (again.message.id ≡ sent.message.id)
          × (again.deduplicated ≡ true)
          × (again.dedup_expires_at ≡ sent.dedup_expires_at)
    go x valid again db'' (by_row invalid m before dropped k) = cc
    go x valid again db'' (by_receipt s e k) =
        let one : s ≡ x.row = cc in
        (
          k.tables,
          found-id rt' o a.project_id s.message_id db' again.message k.shown
              ∙ (ap (λ t. t.message_id) one ∙ sym x.names),
          k.repeated,
          k.until ∙ (ap (λ t. t.expires_at) one ∙ sym x.until),
        )
