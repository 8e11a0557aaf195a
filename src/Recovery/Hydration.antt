-- ===== src/Recovery/Hydration.antt =====
-- RecoveryStore.Replay with the messages that its events name, and Snapshot.
pub mod Rows
pub mod Current
pub mod Success
use al_ur_messenger.Prelude.{
  ℕ, Bool, true, false, ◌&&◌, ◌||◌, not, ltb, Option, none, some, List, [], ◌∷◌, ◌==◌,
  if◌then◌else◌, take, map,
}
use al_ur_messenger.Prelude.Table.{find, exists, select, order_by}
use al_ur_messenger.Result.{Result, ok, err, guard, resync, no_rows, invalid}
use al_ur_messenger.Runtime.{Runtime, valid_id}
use al_ur_messenger.Identity.{Actor}
use al_ur_messenger.Store.{
  Db, MessageRow, MemberRow, EventType, Envelope, payload_message, message_of, member_key,
}
use al_ur_messenger.Store.Tx.{Query}
use al_ur_messenger.Store.Query.{◌>>=◌, ◌>>◌, row, check, pure}
use al_ur_messenger.Conversation.Access.{Conversation}
use al_ur_messenger.Message.{Message, Outside}
use al_ur_messenger.Message.Reading.{scan_all, reverse, read_pins}
use al_ur_messenger.Recovery.Access.{read_access}
use al_ur_messenger.Recovery.Receipts.{Checkpoint}
use al_ur_messenger.Recovery.Replay.{Replay, replay_window, any_conversation}

-- messageStateEvent
abbrev pub is_state_event : EventType → Bool
is_state_event EventType.message_created = true
is_state_event EventType.message_updated = true
is_state_event EventType.message_deleted = true
is_state_event EventType.reaction_created = true
is_state_event EventType.reaction_deleted = true
is_state_event EventType.message_pinned = true
is_state_event EventType.message_unpinned = true
is_state_event _ = false

-- An event with what e.Payload["message"] is set to.
pub record Hydrated : Type 0 where
  pub envelope : Envelope
  pub message : Option Message

pub record Recovered : Type 0 where
  pub events : List Hydrated
  pub through : ℕ
  pub high : ℕ
  pub more : Bool

-- The page without its messages.
abbrev pub window_of : Recovered → Replay
window_of r = record {
  events = map (λ h. h.envelope) r.events;
  through = r.through;
  high = r.high;
  more = r.more;
}

-- The first loop over the events: the messages that they name.
unfoldable pub state_ids : List Envelope → Result (List ℕ)
state_ids [] = ok []
state_ids (e ∷ es) =
    let rest = state_ids es in
    if is_state_event e.kind
    then (elim (payload_message e.payload) [
      | none ↦ err resync
      | some id ↦ elim rest [ err x ↦ err x | ok ids ↦ ok (id ∷ ids) ]
    ])
    else rest

-- m.id=ANY(ids) in one conversation
abbrev pub named_rows : ℕ → ℕ → List ℕ → Db → List MessageRow
named_rows project id ids db =
    select (λ m. exists (λ i. i == m.id) ids) (select (message_of project id) db.messages)

-- current[id], where no two rows have the same identifier.
abbrev pub current : List Message → Option ℕ → Option Message
current ms none = none
current ms (some id) = find (λ m. m.id == id) ms

-- The second loop: every state event gets its message.
unfoldable pub hydrate : List Message → List Envelope → Result (List Hydrated)
unfolding find
hydrate ms [] = ok []
hydrate ms (e ∷ es) =
    let rest = hydrate ms es in
    if is_state_event e.kind
    then (elim (current ms (payload_message e.payload)) [
      | none ↦ err resync
      | some m ↦ elim rest [
        | err x ↦ err x
        | ok hs ↦ ok (record { envelope = e; message = some m } ∷ hs)
      ]
    ])
    else elim rest [ err x ↦ err x | ok hs ↦ ok (record { envelope = e; message = none } ∷ hs) ]

abbrev pub bare : Envelope → Hydrated
bare e = record { envelope = e; message = none }

unfoldable pub hydrate_named :
    Runtime → Outside → ℕ → ℕ → List ℕ → List Envelope → Query (List Hydrated)
unfolding scan_all hydrate
hydrate_named rt o project id [] es = pure (map bare es)
hydrate_named rt o project id (i ∷ ids) es = do
  ms ← λ db. scan_all rt o project (named_rows project id (i ∷ ids) db) db
  λ _. hydrate ms es

-- Store.Replay
unfoldable pub replay_hydrated : Runtime → Outside → Actor → ℕ → ℕ → ℕ → Query Recovered
unfolding replay_window state_ids hydrate_named
replay_hydrated rt o a id after limit = do
  r ← replay_window a id after limit
  ids ← λ _. state_ids r.events
  es ← hydrate_named rt o a.project_id id ids r.events
  pure (record { events = es; through = r.through; high = r.high; more = r.more })

-- RecoveryService.Replay, whose cursor is no negative number.
unfoldable pub request_replay : Runtime → Outside → Actor → ℕ → ℕ → ℕ → Query Recovered
unfolding replay_hydrated
request_replay rt o a id after limit db =
    if not (valid_id rt id) || ltb limit 1 || ltb 100 limit
    then err invalid
    else replay_hydrated rt o a id after limit db

-- message.Snapshot
pub record Snapshot : Type 0 where
  pub conversation : Conversation
  pub checkpoint : Checkpoint
  pub messages : List Message
  pub pins : List ℕ
  pub event_sequence : ℕ
  pub message_sequence : ℕ

abbrev pub last_rows : ℕ → ℕ → Db → List MessageRow
last_rows project id db =
    take 50 (reverse (order_by (λ m. m.sequence) (select (message_of project id) db.messages)))

abbrev pub checkpoint_of : ℕ → MemberRow → Checkpoint
checkpoint_of user m = record {
  user_id = user;
  read = m.read;
  delivered = m.delivered;
  version = m.version;
}

-- Store.Snapshot
unfoldable pub snapshot : Runtime → Outside → Actor → ℕ → Query Snapshot
unfolding read_access scan_all
snapshot rt o a id = do
  allowed ← read_access a id
  c ← row (any_conversation a.project_id id) no_rows
  m ← row (λ db. find (member_key a.project_id id a.user_id) db.members) no_rows
  ms ← λ db. scan_all rt o a.project_id (last_rows a.project_id id db) db
  λ db. ok (record {
    conversation = record { row = c; membership = m };
    checkpoint = checkpoint_of a.user_id m;
    messages = reverse ms;
    pins = map (λ p. p.message_id) (read_pins rt a.project_id id db);
    event_sequence = c.event_sequence;
    message_sequence = c.message_sequence;
  })

-- RecoveryService.Snapshot
unfoldable pub request_snapshot : Runtime → Outside → Actor → ℕ → Query Snapshot
unfolding snapshot
request_snapshot rt o a id = do check (guard (valid_id rt id) invalid); snapshot rt o a id
