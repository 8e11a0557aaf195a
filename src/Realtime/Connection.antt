-- ===== src/Realtime/Connection.antt =====
-- internal/realtime/connection.go: the frames and the bounded queues of a connection.
pub mod Bounds
use al_ur_messenger.Prelude.{
  ℕ, Bool, true, false, Option, none, some, List, [], ◌∷◌, ◌++◌, ltb, length, if◌then◌else◌,
}
use Prim.Native.String.{String}
use al_ur_messenger.Text.{Text}
use al_ur_messenger.Result.{Error}
use al_ur_messenger.Store.{EventType, Payload}

-- What a client may ask for, by Frame.Type; `other` is any other text.
pub data Command : Type 0 where
  subscribe unsubscribe : Command
  send_message edit_message delete_message add_reaction remove_reaction : Command
  message_read message_delivered : Command
  typing_start typing_stop presence_watch : Command
  other : Command

-- The replies of the services are texts of JSON.
pub data Reply : Type 0 where
  subscribed : Bool → Reply
  body : Text → Reply
  expires_in_ms : ℕ → Reply

-- Frame, by what the session puts into one. The fields of an event are EventID, EventSequence, Type,
-- Payload and Sequence; those of an ack RequestID, MessageReply with PresenceReply, and the payload.
pub data Frame : Type 0 where
  auth_ok : ℕ → Frame
  auth_expiring : ℕ → Frame
  limited : ℕ → ℕ → Frame
  ack : ℕ → ℕ → Command → Reply → Frame
  failure : ℕ → ℕ → Error → Frame
  event : ℕ → ℕ → ℕ → EventType → Payload → Option ℕ → Frame
  sync_complete : ℕ → ℕ → Frame
  subscription_revoked : ℕ → Error → Frame
  resync_required : ℕ → Error → Frame
  typing_state : ℕ → Text → Frame
  presence_state : ℕ → Text → Frame

-- closeRequest
pub record Close : Type 0 where
  pub code : ℕ
  pub reason : String

-- Connection: `send` and `incoming` hold 64 and 16 frames, `wake` and `closing` one.
pub record Connection : Type 0 where
  pub send : List Frame
  pub incoming : List ℕ
  pub wake : Bool
  pub closing : Option Close

-- Connection.stop: a request that waits already is kept.
unfoldable pub stop : ℕ → String → Connection → Connection
stop code reason c = elim c.closing [
  | none ↦ record c { closing = some (record { code = code; reason = reason }) }
  | some r ↦ c
]

-- Connection.enqueue
unfoldable pub enqueue : Frame → Connection → Bool × Connection
unfolding stop
enqueue f c =
    if ltb (length c.send) 64
    then (true, record c { send = c.send ++ f ∷ [] })
    else (false, stop 1013 "SLOW_CONSUMER" c)

-- The rest of read for a frame that decodes: it is queued, or the socket is closed.
unfoldable pub receive : ℕ → Connection → Bool × Connection
unfolding stop
receive f c =
    if ltb (length c.incoming) 16
    then (true, record c { incoming = c.incoming ++ f ∷ [] })
    else (false, stop 1013 "COMMAND_BACKPRESSURE" c)

-- `case c.wake <- struct{}{}: default:`
abbrev pub wake_up : Connection → Connection
wake_up c = record c { wake = true }
