-- ===== src/Realtime/Loop/Limits.antt =====
-- Whatever a client and the services do, a session stays within its limits.
use Prim.Native.String.{String}
use al_ur_messenger.Prelude.{
  ℕ, suc, ◌≤◌, inl, inr, Bool, true, false, ◌&&◌, not, Option, none, some, List, [], ◌∷◌, leb, ◌%◌,
  ◌==◌, length, arith, Bool-cases, if◌then◌else◌,
}
use al_ur_messenger.Text.{same_text}
use al_ur_messenger.Result.{Result, ok, err, Error, unauthenticated}
use al_ur_messenger.Runtime.{Runtime}
use al_ur_messenger.Realtime.Connection.{Frame}
use al_ur_messenger.Realtime.Session.{Session, Recovery, Services, lookup}
use al_ur_messenger.Realtime.Session.Limits.{
  IsLimited, say-IsLimited, stop_room, catch_up-IsLimited,
}
use al_ur_messenger.Realtime.Session.Commands.{Request}
use al_ur_messenger.Realtime.Session.Commands.Limits.{command-IsLimited}
use al_ur_messenger.Realtime.Loop.{
  Loop, Turn, token_expired, frame_read, woken, polled, written, Signals, show_typing, show_watched,
  ephemeral, close_loop, refuse, on_frame, warn, tick, on_poll, without_first, take_command,
  wake_taken, order, turn, run, text_or_empty,
}

show_typing-IsLimited :
    (signals : Signals) (id : ℕ) (s : Session) → IsLimited s → IsLimited (show_typing signals id s)
show_typing-IsLimited signals id s v =
    elim (Bool-cases
      (same_text (signals.typing_json id) (text_or_empty (lookup id s.typing_state)))) [
        | inl known ↦ rw known v
        | inr new ↦
            let told = say-IsLimited (Frame.typing_state id (signals.typing_json id)) s v in
            rw new (record { subscribed = told.subscribed; queued = told.queued })
      ]

show_watched-IsLimited :
    (signals : Signals) (id : ℕ) (s : Session) (o : Option (ℕ × List ℕ))
    → IsLimited s
    → IsLimited (show_watched signals id s o)
show_watched-IsLimited signals id s none v = v
show_watched-IsLimited signals id s (some (k, users)) v =
    elim (Bool-cases
      (same_text (signals.presence_json id users) (text_or_empty (lookup id s.presence_state)))) [
        | inl known ↦ rw known v
        | inr new ↦
            let told =
              say-IsLimited (Frame.presence_state id (signals.presence_json id users)) s v in
            rw new (record { subscribed = told.subscribed; queued = told.queued })
      ]

ephemeral-IsLimited :
    (signals : Signals) (ids : List ℕ) (s : Session)
    → IsLimited s
    → IsLimited (ephemeral signals ids s)
unfolding ephemeral
ephemeral-IsLimited signals [] s v = v
ephemeral-IsLimited signals (id ∷ ids) s v =
    ephemeral-IsLimited signals ids _
      (show_watched-IsLimited signals id _ _ (show_typing-IsLimited signals id s v))

close_loop-IsLimited :
    (code : ℕ) (reason : String) (l : Loop)
    → IsLimited l.session
    → IsLimited (close_loop code reason l).session
close_loop-IsLimited code reason l v = record {
  subscribed = v.subscribed;
  queued = rw (stop_room code reason l.session.connection) v.queued;
}

refuse-IsLimited : (e : Error) (l : Loop) → IsLimited l.session → IsLimited (refuse e l).session
unfolding refuse
refuse-IsLimited unauthenticated l v = close_loop-IsLimited 4401 "UNAUTHENTICATED" l v
refuse-IsLimited _ l v = close_loop-IsLimited 1013 "AUTH_UNAVAILABLE" l v

on_frame-IsLimited :
    (rt : Runtime) (verified : Result (Unit {0})) (quota : Result Bool) (services : Services)
    (r : Request) (l : Loop)
    → IsLimited l.session
    → IsLimited (on_frame rt verified quota services r l).session
unfolding on_frame
on_frame-IsLimited rt (err e) quota services r l v = refuse-IsLimited e l v
on_frame-IsLimited rt (ok u) (err e) services r l v = refuse-IsLimited e l v
on_frame-IsLimited rt (ok u) (ok false) services r l v =
    say-IsLimited (Frame.limited r.request_id r.conversation_id) l.session v
on_frame-IsLimited rt (ok u) (ok true) services r l v = command-IsLimited rt services r l.session v

warn-IsLimited : (left : ℕ) (l : Loop) → IsLimited l.session → IsLimited (warn left l).session
warn-IsLimited left l v = elim (Bool-cases (not l.warned && leb left 60)) [
  | inl soon ↦ rw soon (say-IsLimited (Frame.auth_expiring left) l.session v)
  | inr later ↦ rw later v
]

tick-IsLimited :
    (signals : Signals) (l : Loop) → IsLimited l.session → IsLimited (tick signals l).session
tick-IsLimited signals l v = elim (Bool-cases (suc l.ticks % 2 == 0)) [
  | inl even ↦ rw even (ephemeral-IsLimited signals (order l.session) l.session v)
  | inr odd ↦ rw odd v
]

on_poll-IsLimited :
    (verified : Result (Unit {0})) (left : ℕ) (recovery : Recovery) (signals : Signals) (l : Loop)
    → IsLimited l.session
    → IsLimited (on_poll verified left recovery signals l).session
unfolding on_poll
on_poll-IsLimited (err e) left recovery signals l v = refuse-IsLimited e l v
on_poll-IsLimited (ok u) left recovery signals l v =
    tick-IsLimited signals _
      (catch_up-IsLimited recovery (order (warn left l).session) _ (warn-IsLimited left l v))

without_first-le : (fs : List Frame) → length (without_first fs) ≤ length fs
without_first-le [] = omega arith
without_first-le (f ∷ fs) = omega arith

turn-IsLimited :
    (rt : Runtime) (t : Turn) (l : Loop) → IsLimited l.session → IsLimited (turn rt t l).session
unfolding turn
turn-IsLimited rt token_expired l v = close_loop-IsLimited 4401 "TOKEN_EXPIRED" l v
turn-IsLimited rt (frame_read verified quota services r) l v =
    on_frame-IsLimited rt verified quota services r (take_command l)
      (record { subscribed = v.subscribed; queued = v.queued })
turn-IsLimited rt (woken recovery) l v =
    catch_up-IsLimited recovery (order l.session) (wake_taken l.session)
      (record { subscribed = v.subscribed; queued = v.queued })
turn-IsLimited rt (polled verified left recovery signals) l v =
    on_poll-IsLimited verified left recovery signals l v
turn-IsLimited rt written l v = record {
  subscribed = v.subscribed;
  queued =
      (let le = without_first-le l.session.connection.send in let most = v.queued in omega arith);
}

either-IsLimited :
    (b : Bool) (l l' : Loop)
    → IsLimited l.session
    → IsLimited l'.session
    → IsLimited (if b then l else l').session
either-IsLimited true l l' v w = v
either-IsLimited false l l' v w = w

-- From a session with 16 subscriptions and 64 queued frames at most, every sequence of turns of its
-- loop, whatever the client sends and the services answer, leads to such a session again.
pub run-IsLimited :
    (rt : Runtime) (ts : List Turn) (l : Loop)
    → IsLimited l.session
    → IsLimited (run rt ts l).session
unfolding run
run-IsLimited rt [] l v = v
run-IsLimited rt (t ∷ ts) l v =
    either-IsLimited l.ended l (run rt ts (turn rt t l)) v
      (run-IsLimited rt ts (turn rt t l) (turn-IsLimited rt t l v))
