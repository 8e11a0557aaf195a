-- ===== src/Realtime/Writer.antt =====
-- Session.write: what happens to a queued frame when its turn comes. Every frame is checked anew.
pub mod Privacy
use Prim.Native.String.{String}
use al_ur_messenger.Prelude.{ℕ, zero, suc, Bool, true, false, Option, none, some, List, [], ◌∷◌}
use al_ur_messenger.Text.{Text}
use al_ur_messenger.Result.{Result, ok, err, Error, not_found, resync, unauthenticated, error_code}
use al_ur_messenger.Store.{Envelope}
use al_ur_messenger.Recovery.Replay.{Replay}
use al_ur_messenger.Realtime.Connection.{Frame, Command, Reply, Close}
use al_ur_messenger.Realtime.Session.{Recovery}

-- What the writer asks: whether the conversation is still the actor's (Conversations.Get), the
-- changefeed, the message of an ack (refreshMessageReply), and the payloads of presence and typing.
pub record Checks : Type 0 where
  pub get : ℕ → Result (Unit {0})
  pub recovery : Recovery
  pub refresh : Command → Text → Result Text
  pub presence : ℕ → Text → Text
  pub typing : ℕ → Text

-- The frame is written; the socket is closed; or a request to close it is made instead.
pub data Outcome : Type 0 where
  writes : Frame → Outcome
  closes : Close → Outcome
  stops : String → Outcome

abbrev pub is_message_command : Command → Bool
is_message_command Command.send_message = true
is_message_command Command.edit_message = true
is_message_command Command.delete_message = true
is_message_command Command.add_reaction = true
is_message_command Command.remove_reaction = true
is_message_command _ = false

-- An ack with a message gets the message of the moment.
abbrev pub refreshed : ℕ → ℕ → Command → Result Text → Outcome
refreshed request id c (ok t) = writes (Frame.ack request id c (Reply.body t))
refreshed request id c (err not_found) = writes (Frame.subscription_revoked id not_found)
refreshed request id c (err e) = stops "MESSAGE_UNAVAILABLE"

abbrev pub is_watch : Command → Bool
is_watch Command.presence_watch = true
is_watch _ = false

abbrev pub refresh_if : Bool → Checks → ℕ → ℕ → Command → Text → Outcome
refresh_if true k request id c t = refreshed request id c (k.refresh c t)
refresh_if false k request id c t = writes (Frame.ack request id c (Reply.body t))

abbrev pub body_ack : Bool → Checks → ℕ → ℕ → Command → Text → Outcome
body_ack true k request id c t = writes (Frame.ack request id c (Reply.body (k.presence id t)))
body_ack false k request id c t = refresh_if (is_message_command c) k request id c t

abbrev pub ack_body : Checks → ℕ → ℕ → Command → Reply → Outcome
ack_body k request id c (Reply.body t) = body_ack (is_watch c) k request id c t
ack_body k request id c r = writes (Frame.ack request id c r)

-- The event of a frame, read again from the changefeed; no event has the number 0.
abbrev pub before : Recovery → ℕ → ℕ → Result Replay
before recovery id zero = err Error.invalid
before recovery id (suc n) = recovery.replay id n 1

abbrev pub current_event : ℕ → ℕ → ℕ → Option ℕ → List Envelope → Outcome
current_event id event n m (e ∷ []) = writes (Frame.event id event n e.kind e.payload m)
current_event id event n m es = stops "REPLAY_UNAVAILABLE"

abbrev pub reread : ℕ → ℕ → ℕ → Option ℕ → Result Replay → Outcome
reread id event n m (ok r) = current_event id event n m r.events
reread id event n m (err not_found) = writes (Frame.subscription_revoked id not_found)
reread id event n m (err resync) = writes (Frame.resync_required id resync)
reread id event n m (err e) = stops "REPLAY_UNAVAILABLE"

abbrev pub revoked_or : ℕ → Result (Unit {0}) → Outcome → Outcome
revoked_or id (err e) o = writes (Frame.subscription_revoked id e)
revoked_or id (ok u) o = o

-- The checks of a frame of a conversation; errors, revocations and requests to resync have none.
unfoldable pub recheck : Checks → Frame → Outcome
recheck k (Frame.ack request id c r) = revoked_or id (k.get id) (ack_body k request id c r)
recheck k (Frame.event id event n t p m) =
    revoked_or id (k.get id) (reread id event n m (before k.recovery id n))
recheck k (Frame.sync_complete id n) = revoked_or id (k.get id) (writes (Frame.sync_complete id n))
recheck k (Frame.typing_state id t) =
    revoked_or id (k.get id) (writes (Frame.typing_state id (k.typing id)))
recheck k (Frame.presence_state id t) =
    revoked_or id (k.get id) (writes (Frame.presence_state id (k.presence id t)))
recheck k f = writes f

abbrev pub failure_code : Error → ℕ
failure_code unauthenticated = 4401
failure_code e = 1013

-- One turn of write, after the credential has been verified or not.
unfoldable pub write_frame : Checks → Result (Unit {0}) → Frame → Outcome
unfolding recheck error_code
write_frame k (err e) f = closes (record { code = failure_code e; reason = error_code e })
write_frame k (ok u) f = recheck k f
