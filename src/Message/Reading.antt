-- ===== src/Message/Reading.antt =====
-- Get, History, Search and Pins of internal/message/repository, with their services.
use al_ur_messenger.Prelude.{
  ℕ, Bool, true, false, ◌&&◌, ◌||◌, not, Option, none, some, List, [], ◌∷◌, ltb, ◌==◌,
  if◌then◌else◌, take, ◌++◌, ◌^◌, ◌-◌,
}
use al_ur_messenger.Prelude.Table.{find, exists, select, order_by}
use al_ur_messenger.Text.{Text, same_text, byte_length}
use al_ur_messenger.Result.{Result, ok, err, guard, not_found, invalid, no_rows, too_many_tokens}
use al_ur_messenger.Runtime.{Runtime, valid_id}
use al_ur_messenger.Identity.{Actor}
use al_ur_messenger.Store.{Db, MessageRow, SearchRow, PinRow, message_of}
use al_ur_messenger.Store.Tx.{Query}
use al_ur_messenger.Store.Query.{◌>>=◌, ◌>>◌, row, check, pure}
use al_ur_messenger.Recovery.Access.{read_access}
use al_ur_messenger.Recovery.Replay.{any_conversation}
use al_ur_messenger.Message.{Message, Page, Pin, Outside, validate_page}
use al_ur_messenger.Message.Scan.{scan, scan_id, message_row}
use al_ur_messenger.Message.Access.{is_live}

-- Store.Get
unfoldable pub get_message : Runtime → Outside → Actor → ℕ → Query Message
unfolding read_access scan_id
get_message rt o a id = do
  m ← row (message_row a.project_id id) not_found
  allowed ← read_access a m.conversation_id
  scan_id rt o a.project_id id

-- The loop over the rows of a page.
unfoldable pub scan_all : Runtime → Outside → ℕ → List MessageRow → Query (List Message)
unfolding scan
scan_all rt o project [] = pure []
scan_all rt o project (r ∷ rs) = do
  m ← scan rt o project r
  ms ← scan_all rt o project rs
  pure (m ∷ ms)

abbrev pub reverse : {A : Type 0} → List A → List A
reverse [] = []
reverse (x ∷ xs) = reverse xs ++ x ∷ []

abbrev is_forward : Page → Bool
is_forward q = ltb 0 q.since || q.forward

-- The bound of a backwards page, where 0 is math.MaxInt64.
abbrev is_before : ℕ → ℕ → Bool
is_before bound sequence = if bound == 0 then ltb sequence (2 ^ 63 - 1) else ltb sequence bound

abbrev pub in_page : Page → MessageRow → Bool
in_page q m = if is_forward q then ltb q.since m.sequence else is_before q.before m.sequence

-- ORDER BY m.sequence, in either direction
abbrev ordered : Page → List MessageRow → List MessageRow
ordered q ms =
    if is_forward q then order_by (λ m. m.sequence) ms else reverse (order_by (λ m. m.sequence) ms)

abbrev has_all : List Text → List Text → Bool
has_all words [] = true
has_all words (t ∷ ts) = exists (same_text t) words && has_all words ts

abbrev is_answer : SearchRow → List (Text × List Text) → Bool
is_answer s [] = false
is_answer s (v ∷ vs) = (same_text s.key_version v.0 && has_all s.tokens v.1) || is_answer s vs

-- The conditions that a search adds, for each retained key version.
abbrev pub matches : Runtime → Option (List (Text × List Text)) → Db → MessageRow → Bool
matches rt none db m = true
matches rt (some vs) db m =
    is_live rt m
    && exists
        (λ s.
          s.project_id == m.project_id
          && s.conversation_id == m.conversation_id
          && s.message_id == m.id
          && is_answer s vs)
        db.search

abbrev pub page_rows :
    Runtime → ℕ → ℕ → Page → Option (List (Text × List Text)) → Db → List MessageRow
page_rows rt project conversation q search db = take q.limit (
    ordered q (
      select (λ m. message_of project conversation m && in_page q m && matches rt search db m)
        db.messages))

-- Store.page
unfoldable pub page :
    Runtime → Outside → Actor → ℕ → Page → Option (List (Text × List Text)) → Query (List Message)
unfolding validate_page read_access scan_all
page rt o a conversation q search = do
  check (validate_page q)
  allowed ← read_access a conversation
  λ db. scan_all rt o a.project_id (page_rows rt a.project_id conversation q search db) db

-- Store.History
abbrev pub history : Runtime → Outside → Actor → ℕ → Page → Query (List Message)
history rt o a conversation q = page rt o a conversation q none

abbrev queries_or_invalid : Result (List (Text × List Text)) → Result (List (Text × List Text))
queries_or_invalid (err too_many_tokens) = err invalid
queries_or_invalid r = r

-- Store.Search
unfoldable pub search : Runtime → Outside → Actor → ℕ → Text → Page → Query (List Message)
unfolding page
search rt o a conversation text q = do
  vs ← λ _. queries_or_invalid (o.crypto.queries a.project_id text)
  page rt o a conversation q (some vs)

-- message.PinList
pub record PinList : Type 0 where
  pub items : List Pin
  pub event_sequence : ℕ

-- readPins: the pins of live messages by the order of the messages.
unfoldable pub pins_of : List PinRow → List MessageRow → List Pin
unfolding find
pins_of ps [] = []
pins_of ps (m ∷ ms) =
    let rest = pins_of ps ms in
    elim (find (λ p. p.message_id == m.id) ps) [
      | none ↦ rest
      | some p ↦
          record {
            message_id = p.message_id;
            pinned_by = p.pinned_by;
            created_at = p.created_at;
            version = m.version;
          }
          ∷ rest
    ]

abbrev pub read_pins : Runtime → ℕ → ℕ → Db → List Pin
read_pins rt project conversation db =
    pins_of (select (λ p. p.project_id == project && p.conversation_id == conversation) db.pins) (
      order_by (λ m. m.sequence)
        (select (λ m. message_of project conversation m && is_live rt m) db.messages))

-- Store.Pins
unfoldable pub pins : Runtime → Actor → ℕ → Query PinList
unfolding read_access pins_of
pins rt a conversation = do
  allowed ← read_access a conversation
  c ← row (any_conversation a.project_id conversation) no_rows
  λ db. ok (record {
    items = read_pins rt a.project_id conversation db;
    event_sequence = c.event_sequence;
  })

-- Service.Get
unfoldable pub request_get : Runtime → Outside → Actor → ℕ → Query Message
unfolding get_message
request_get rt o a id = do check (guard (valid_id rt id) invalid); get_message rt o a id

-- Service.History
unfoldable pub request_history : Runtime → Outside → Actor → ℕ → Page → Query (List Message)
unfolding page
request_history rt o a conversation q = do
  check (guard (valid_id rt conversation) invalid)
  check (validate_page q)
  history rt o a conversation q

-- Service.Search
unfoldable pub request_search : Runtime → Outside → Actor → ℕ → Text → Page → Query (List Message)
unfolding search
request_search rt o a conversation text q = do
  check (
      guard
        (valid_id rt conversation
          && not (ltb 16384 (byte_length text))
          && q.since == 0
          && not q.forward)
        invalid)
  check (validate_page q)
  search rt o a conversation text q
