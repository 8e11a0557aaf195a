-- ===== src/Realtime/Session.antt =====
-- internal/realtime/session.go: subscriptions, their cursors and the commands of a session. Every
-- step takes what the services answer at its time.
pub mod Commands
pub mod Cursor
pub mod Limits
pub mod Recovered
use al_ur_messenger.Prelude.{
  ℕ, ◌≡◌, Bool, true, false, ◌&&◌, ◌||◌, not, Option, none, some, List, [], ◌∷◌, ltb, leb, ◌==◌,
  length, if◌then◌else◌, is_some,
}
use al_ur_messenger.Prelude.Table.{find, select}
use al_ur_messenger.Text.{Text}
use al_ur_messenger.Result.{Result, ok, err, Error, invalid, not_found, resync}
use al_ur_messenger.Runtime.{Runtime, valid_id}
use al_ur_messenger.Store.{Envelope, Payload, payload_sequence}
use al_ur_messenger.Recovery.Receipts.{ReceiptKind}
use al_ur_messenger.Recovery.Replay.{Replay}
use al_ur_messenger.Recovery.Replay.Privacy.{IsRun}
use al_ur_messenger.Realtime.Connection.{Connection, Frame, Command, Reply, stop, enqueue, wake_up}

-- A Go map with numbers for keys.
abbrev pub lookup {ℓ} : {V : Type ℓ} → ℕ → List (ℕ × V) → Option (ℕ × V)
lookup k m = find (λ e. e.0 == k) m

abbrev pub remove {ℓ} : {V : Type ℓ} → ℕ → List (ℕ × V) → List (ℕ × V)
remove k m = select (λ e. not (e.0 == k)) m

abbrev pub put {ℓ} : {V : Type ℓ} → ℕ → V → List (ℕ × V) → List (ℕ × V)
put k v m = (k, v) ∷ remove k m

-- The service of message.RecoveryService that a session needs, for its actor: a page follows its
-- cursor without a gap.
pub record Recovery : Type 0 where
  pub replay : ℕ → ℕ → ℕ → Result Replay
  pub runs :
      (id after limit : ℕ) (r : Replay)
      → replay id after limit ≡ ok r
      → IsRun after r.events r.through

-- The services of the gateway, for the session's actor; texts are JSON.
pub record Services : Type 0 where
  pub recovery : Recovery
  -- Messages.Send, Edit, Delete and React, by the command, on a conversation and a decoded request
  pub message : Command → ℕ → Text → Result Text
  pub receipt : ℕ → ReceiptKind → ℕ → Result Text
  pub typing : ℕ → Bool → Result (Unit {0})
  pub statuses : ℕ → List ℕ → Result Text

pub record Session : Type 0 where
  pub connection : Connection
  pub subscriptions : List (ℕ × ℕ)
  pub presence_watch : List (ℕ × List ℕ)
  pub presence_state : List (ℕ × Text)
  pub typing_state : List (ℕ × Text)

-- s.subscriptions[id], which is 0 for a missing key.
abbrev value_or_zero : Option (ℕ × ℕ) → ℕ
value_or_zero none = 0
value_or_zero (some (k, v)) = v

abbrev pub cursor : ℕ → Session → ℕ
cursor id s = value_or_zero (lookup id s.subscriptions)

abbrev pub event_frame : ℕ → Envelope → Frame
event_frame id e = Frame.event id e.id e.sequence e.kind e.payload (payload_sequence e.payload)

abbrev pub say : Frame → Session → Session
say f s = record s { connection = (enqueue f s.connection).1 }

-- The loop of replay over the events of a page: whether it has enqueued them all.
unfoldable pub push_events : ℕ → List Envelope → Session → Bool × Session
unfolding enqueue
push_events id [] s = (true, s)
push_events id (e ∷ es) s =
    let (sent, c) = enqueue (event_frame id e) s.connection in
    let rest =
      push_events id es
        (record s { connection = c; subscriptions = put id e.sequence s.subscriptions }) in
    if sent then rest else (false, record s { connection = c })

abbrev pub unsubscribed : ℕ → Session → Session
unsubscribed id s = record s {
  subscriptions = remove id s.subscriptions;
  presence_watch = remove id s.presence_watch;
}

unfoldable pub replay_failed : ℕ → Error → Session → Session
unfolding enqueue stop
replay_failed id resync s = say (Frame.resync_required id resync) (unsubscribed id s)
replay_failed id not_found s = say (Frame.subscription_revoked id not_found) (unsubscribed id s)
replay_failed id e s = record s { connection = stop 1013 "REPLAY_UNAVAILABLE" s.connection }

abbrev pub complete : ℕ → ℕ → Session → Bool → Session
complete id through s true = say (Frame.sync_complete id through) s
complete id through s false = s

abbrev pub call_again : Session → Bool → Session
call_again s true = record s { connection = wake_up s.connection }
call_again s false = s

abbrev pub replay_served : ℕ → Bool → ℕ → Replay → Bool × Session → Session
replay_served id initial after r (false, s) = s
replay_served id initial after r (true, s) =
    call_again (complete id r.through s (not r.more && (initial || ltb after r.through))) r.more

-- Session.replay
unfoldable pub replay : Recovery → ℕ → Bool → Session → Session
unfolding push_events replay_failed
replay recovery id initial s =
    if ltb 16 (length s.connection.send) && not initial
    then s
    else elim (recovery.replay id (cursor id s) 32) [
      | err e ↦ replay_failed id e s
      | ok r ↦ replay_served id initial (cursor id s) r (push_events id r.events s)
    ]

-- Session.catchup, in the order `ids` in which the map is walked; an entry that is gone by then is
-- not met. Each turn reads anew.
unfoldable pub catch_up : Recovery → List ℕ → Session → Session
unfolding replay
catch_up recovery [] s = s
catch_up recovery (id ∷ ids) s =
    catch_up recovery ids
      (if is_some (lookup id s.subscriptions) then replay recovery id false s else s)
