-- ===== src/Event/Log.antt =====
-- What the changefeed promises: the events of a conversation are numbered from 1 without a gap up
-- to its event_sequence, and the outbox holds the same events.
use al_ur_messenger.Prelude.{
  ℕ, suc, ◌≡◌, refl, ap, sym, ◌∙◌, inl, inr, Bool, true, false, ◌&&◌, Option, none, some, List, [],
  ◌∷◌, ◌++◌, map, arith, Bool-cases, ◌==◌,
}
use al_ur_messenger.Prelude.Table.{
  find, select, update_first, find-update_first, find-update_first_other, select-append_hit,
  select-append_miss, find_sound,
}
use al_ur_messenger.Result.{or_fail-eq-ok}
use al_ur_messenger.Runtime.{Runtime}
use al_ur_messenger.Store.{
  Db, EventRow, OutboxRow, Envelope, ConversationRow, EventType, Payload, conversation_key,
  event_of,
}
use al_ur_messenger.Store.Tx.{Post, query->>=, write->>=, draw->>=, commit-Post}
use al_ur_messenger.Event.{append, bump, bump_event, record_event, conversation_row}

-- The rows carry the sequences n+1, n+2, … up to m.
abbrev pub IsNumbered : ℕ → List EventRow → ℕ → Type 0
IsNumbered n [] m = n ≡ m
IsNumbered n (r ∷ rs) m =
    (r.sequence ≡ suc n) × (r.envelope.sequence ≡ suc n) × IsNumbered (suc n) rs m

abbrev pub log : ℕ → ℕ → Db → List EventRow
log project id db = select (event_of project id) db.events

-- The event_sequence of a conversation, 0 before it exists.
abbrev pub sequence_of : Option ConversationRow → ℕ
sequence_of none = 0
sequence_of (some c) = c.event_sequence

abbrev pub high : ℕ → ℕ → List ConversationRow → ℕ
high project id cs = sequence_of (find (conversation_key project id) cs)

abbrev pub IsContiguous : Db → Type 0
IsContiguous db =
    (project id : ℕ) → IsNumbered 0 (log project id db) (high project id db.conversations)

abbrev pub outbox_ref : OutboxRow → ℕ × ℕ × ℕ × ℕ × Envelope
outbox_ref o = (o.event_id, o.project_id, o.conversation_id, o.sequence, o.envelope)

abbrev pub event_ref : EventRow → ℕ × ℕ × ℕ × ℕ × Envelope
event_ref e = (e.id, e.project_id, e.conversation_id, e.sequence, e.envelope)

-- Every event waits in the outbox, or has been published from it, in the same order.
abbrev pub IsMirrored : Db → Type 0
IsMirrored db = map outbox_ref db.outbox ≡ map event_ref db.events

pub record IsLogged (db : Db) : Type 0 where
  pub contiguous : IsContiguous db
  pub mirrored : IsMirrored db

pub IsNumbered-append :
    (n m : ℕ) (rs : List EventRow) (r : EventRow)
    → IsNumbered n rs m
    → r.sequence ≡ suc m
    → r.envelope.sequence ≡ suc m
    → IsNumbered n (rs ++ r ∷ []) (suc m)
IsNumbered-append n m [] r h e f = (omega arith, omega arith, omega arith)
IsNumbered-append n m (x ∷ rs) r h e f = (h.0, h.1, IsNumbered-append (suc n) m rs r h.2 e f)

map-snoc {ℓ κ} :
    {A : Type ℓ} {B : Type κ} (f : A → B) (xs : List A) (x : A)
    → map f (xs ++ x ∷ []) ≡ map f xs ++ f x ∷ []
map-snoc f [] x = refl
map-snoc f (y ∷ xs) x = ap (λ t. f y ∷ t) (map-snoc f xs x)

pub ==_pair : (a b c d : ℕ) → (a == c && b == d) ≡ true → (a ≡ c) × (b ≡ d)
==_pair a b c d h = ground arith

-- The counter of the conversation that is bumped, and of every other.
high-bump_self :
    (project id : ℕ) (cs : List ConversationRow) (c : ConversationRow)
    → find (conversation_key project id) cs ≡ some c
    → high project id (update_first (conversation_key project id) bump_event cs)
      ≡ suc c.event_sequence
high-bump_self project id cs c e = ap sequence_of (
    find-update_first (conversation_key project id) bump_event cs c e
      (find_sound (conversation_key project id) cs c e))

-- An update of conversations that keeps their keys and counters keeps every log.
pub high-update_first :
    (p : ConversationRow → Bool) (f : ConversationRow → ConversationRow) (cs : List ConversationRow)
    (project id : ℕ)
    → ((c : ConversationRow) → (f c).project_id ≡ c.project_id)
    → ((c : ConversationRow) → (f c).id ≡ c.id)
    → ((c : ConversationRow) → (f c).event_sequence ≡ c.event_sequence)
    → high project id (update_first p f cs) ≡ high project id cs
unfolding find update_first
high-update_first p f [] project id hp hi hs = refl
high-update_first p f (c ∷ cs) project id hp hi hs = elim (Bool-cases (p c)) [
  | inl hit ↦ rw hit (ground (arith, hp c, hi c, hs c))
  | inr miss ↦ rw miss (ground (arith, high-update_first p f cs project id hp hi hs))
]

high-bump_hit :
    (project id project' id' : ℕ) (cs : List ConversationRow) (c : ConversationRow)
    → (project == project' && id == id') ≡ true
    → find (conversation_key project id) cs ≡ some c
    → (high project' id' cs ≡ c.event_sequence)
      × (high project' id' (update_first (conversation_key project id) bump_event cs)
          ≡ suc c.event_sequence)
high-bump_hit project id project' id' cs c hit found =
    let (p, q) = ==_pair project id project' id' hit in
    rw (← p, ← q) (ap sequence_of found, high-bump_self project id cs c found)

high-bump_other :
    (project id project' id' : ℕ) (cs : List ConversationRow)
    → (project == project' && id == id') ≡ false
    → high project' id' (update_first (conversation_key project id) bump_event cs)
      ≡ high project' id' cs
high-bump_other project id project' id' cs h = ap sequence_of (
    find-update_first_other (conversation_key project' id') (conversation_key project id) bump_event
      cs (λ c k. ground arith) (λ c k. ground arith))

-- The log of one conversation when an event joins the table: it grows only in its own.
log-append :
    (project id : ℕ) (c : ConversationRow) (cs : List ConversationRow) (rs : List EventRow)
    (r : EventRow)
    → find (conversation_key r.project_id r.conversation_id) cs ≡ some c
    → r.sequence ≡ suc c.event_sequence
    → r.envelope.sequence ≡ suc c.event_sequence
    → IsNumbered 0 (select (event_of project id) rs) (high project id cs)
    → IsNumbered 0 (select (event_of project id) (rs ++ r ∷ [])) (
        high project id
          (update_first (conversation_key r.project_id r.conversation_id) bump_event cs))
log-append project id c cs rs r found next same h =
    elim (Bool-cases (r.project_id == project && r.conversation_id == id)) [
      | inl hit ↦
          let (before, bumped) = high-bump_hit _ _ project id cs c hit found in
          rw (select-append_hit (event_of project id) rs r hit, bumped)
            (IsNumbered-append 0 c.event_sequence _ r (rw before at h) next same)
      | inr miss ↦
          rw
            (
              select-append_miss (event_of project id) rs r miss,
              high-bump_other _ _ project id cs miss,
            )
            h
    ]

-- An event numbered next in its conversation keeps the changefeed and its mirror.
pub record_event-IsLogged :
    (now : ℕ) (e : Envelope) (c : ConversationRow) (db : Db)
    → find (conversation_key e.project_id e.aggregate_id) db.conversations ≡ some c
    → e.sequence ≡ suc c.event_sequence
    → IsLogged db
    → IsLogged (record_event now e (bump e.project_id e.aggregate_id db))
unfolding record_event bump
record_event-IsLogged now e c db found next v = record {
  contiguous = λ project id.
      log-append project id c db.conversations db.events _ found next next
        (v.contiguous project id);
  mirrored =
      map-snoc outbox_ref db.outbox _
      ∙ (ap (λ t. t ++ (e.id, e.project_id, e.aggregate_id, e.sequence, e) ∷ []) v.mirrored
          ∙ sym (map-snoc event_ref db.events _));
}

-- The tables after an event has been appended: the row of its conversation, and what was written.
pub record IsAppended (rt : Runtime) (project id : ℕ) (db : Db) (e : Envelope) (db' : Db)
    : Type 0 where
  pub row : ConversationRow
  pub found : find (conversation_key e.project_id e.aggregate_id) db.conversations ≡ some row
  pub in_project : e.project_id ≡ project
  pub of_aggregate : e.aggregate_id ≡ id
  pub next : e.sequence ≡ suc row.event_sequence
  pub tables :
      db'
      ≡ record_event rt.db_now e
          (bump e.project_id e.aggregate_id (record db { drawn = suc db.drawn }))

pub append-IsAppended :
    (rt : Runtime) (project id : ℕ) (kind : EventType) (payload : Payload) (db : Db)
    → Post (IsAppended rt project id db) (append rt project id kind payload db)
unfolding append
append-IsAppended rt project id kind payload db = draw->>= _ rt _ db (
    query->>= _ (conversation_row project id) _ _ λ c found. write->>= _ _ _ _ (
      write->>= _ _ _ _ (
        commit-Post _ _ _ (record {
          row = c;
          found = or_fail-eq-ok _ _ _ found;
          in_project = refl;
          of_aggregate = refl;
          next = refl;
          tables = refl;
        }))))

pub IsAppended-IsLogged :
    (rt : Runtime) (project id : ℕ) (db db' : Db) (e : Envelope)
    → IsAppended rt project id db e db'
    → IsLogged db
    → IsLogged db'
IsAppended-IsLogged rt project id db db' e h v = rw h.tables (
    record_event-IsLogged rt.db_now e h.row (record db { drawn = suc db.drawn }) h.found h.next
      (record { contiguous = v.contiguous; mirrored = v.mirrored }))

-- An event changes no membership, and of the conversations only the counter of its own.
module _ (rt : Runtime) (project id : ℕ) (db db' : Db) (e : Envelope)
    (h : IsAppended rt project id db e db') where
  pub appended_members : db'.members ≡ db.members
  unfolding record_event bump
  appended_members = rw h.tables

  pub appended_conversations :
      db'.conversations ≡ update_first (conversation_key project id) bump_event db.conversations
  unfolding record_event bump
  appended_conversations = rw h.tables (rw (h.in_project, h.of_aggregate))

  pub appended_messages : db'.messages ≡ db.messages
  unfolding record_event bump
  appended_messages = rw h.tables

  pub appended_rows :
      (db'.projects ≡ db.projects) × (db'.settings ≡ db.settings) × (db'.users ≡ db.users)
  unfolding record_event bump
  appended_rows = (rw h.tables, rw h.tables, rw h.tables)
