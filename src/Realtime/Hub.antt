-- ===== src/Realtime/Hub.antt =====
-- internal/realtime/hub.go: the connections of the process. A connection is named by a number.
pub mod Invariant
pub mod Draining
use al_ur_messenger.Prelude.{
  ℕ, suc, ◌+◌, ◌-◌, Bool, true, false, ◌&&◌, ◌||◌, not, Option, none, some, List, [], ◌∷◌, map, leb,
  ◌==◌, length, if◌then◌else◌,
}
use al_ur_messenger.Prelude.Table.{select, exists, update_first}
use al_ur_messenger.Realtime.Connection.{Connection, stop, wake_up}

-- An entry of Hub.connections; `project` is 0 until identify, as no Project has that identifier.
pub record Entry : Type 0 where
  pub id : ℕ
  pub project : ℕ
  pub connection : Connection

-- Hub, where `joined` is the counter of its WaitGroup.
pub record Hub : Type 0 where
  pub entries : List Entry
  pub draining : Bool
  pub joined : ℕ

abbrev pub new_hub : Hub
new_hub = record { entries = []; draining = false; joined = 0 }

-- Hub.add, of a connection that is not yet in the hub
unfoldable pub add : ℕ → Connection → Hub → Bool × Hub
add id c h = if h.draining || leb 10000 (length h.entries) then (false, h) else (
  true,
  record h {
    entries = record { id = id; project = 0; connection = c } ∷ h.entries;
    joined = suc h.joined;
  },
)

-- Hub.identify, of a connection in the hub
unfoldable pub identify : ℕ → ℕ → Hub → Hub
identify id project h = record h {
  entries = update_first (λ e. e.id == id) (λ e. record e { project = project }) h.entries;
}

-- Hub.remove, which every connection that was added calls once
unfoldable pub leave : ℕ → Hub → Hub
leave id h = record h { entries = select (λ e. not (e.id == id)) h.entries; joined = h.joined - 1 }

abbrev pub wake_entry : ℕ → Entry → Entry
wake_entry project e =
    if e.project == project then record e { connection = wake_up e.connection } else e

-- Hub.Wake
unfoldable pub wake : ℕ → Hub → Hub
wake project h = record h { entries = map (wake_entry project) h.entries }

abbrev pub drain_entry : Entry → Entry
drain_entry e = record e { connection = stop 1001 "SERVER_DRAINING" e.connection }

-- The start of Hub.Drain: admission stops, and every connection is asked to close.
unfoldable pub drain : Hub → Hub
unfolding stop
drain h = record h { entries = map drain_entry h.entries; draining = true }

-- What the process does with its hub.
pub data Step : Type 0 where
  adds : ℕ → Connection → Step
  identifies : ℕ → ℕ → Step
  leaves : ℕ → Step
  wakes : ℕ → Step
  drains : Step

-- A connection joins under a new name and leaves once, as ServeHTTP does by its deferred call.
abbrev pub has_entry : ℕ → Hub → Bool
has_entry id h = exists (λ e. e.id == id) h.entries

unfoldable pub step : Step → Hub → Hub
unfolding add identify leave wake drain
step (adds id c) h = if has_entry id h then h else (add id c h).1
step (identifies id project) h = identify id project h
step (leaves id) h = if has_entry id h then leave id h else h
step (wakes project) h = wake project h
step drains h = drain h

unfoldable pub run : List Step → Hub → Hub
unfolding step
run [] h = h
run (s ∷ ss) h = run ss (step s h)
