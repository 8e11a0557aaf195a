-- ===== src/Tests/Realtime.antt =====
-- Sessions and the hub at concrete inputs.
use al_ur_messenger.Prelude.{
  ◌≡◌, refl, inl, inr, some, true, false, none, List, [], ◌∷◌, min, ◌+◌, arith,
}
use al_ur_messenger.Result.{ok, err, Error}
use al_ur_messenger.History
use al_ur_messenger.History.{run-IsLogged}
use al_ur_messenger.Realtime.Connection.{Connection, Command}
use al_ur_messenger.Realtime.Session.{Session, Recovery, Services, cursor, replay}
use al_ur_messenger.Realtime.Session.Commands.{Body}
use al_ur_messenger.Realtime.Session.Cursor.{IsFollowed, replay-IsFollowed}
use al_ur_messenger.Realtime.Session.Limits.{IsLimited}
use al_ur_messenger.Realtime.Session.Recovered.{recovery_of, replay_progress, replay_ends, rounds}
use al_ur_messenger.Realtime.Loop
use al_ur_messenger.Realtime.Loop.{Loop, Turn, Signals}
use al_ur_messenger.Realtime.Loop.Limits.{run-IsLimited}
use al_ur_messenger.Realtime.Hub
use al_ur_messenger.Realtime.Hub.{Hub, Step, new_hub, drain}
use al_ur_messenger.Realtime.Hub.Invariant.{IsCounted, run-IsCounted}
use al_ur_messenger.Realtime.Hub.Draining.{IsDraining, run-IsDraining}
use al_ur_messenger.Store.{EventType, Payload, ConversationRow}
use al_ur_messenger.Realtime.Connection.{Frame}
use al_ur_messenger.Realtime.Writer.{write_frame}
use al_ur_messenger.Realtime.Writer.Privacy.{IsSafe, checks_of, write_frame-IsSafe}
use al_ur_messenger.Tests.World.{rt, empty_db, human_actor, running}
use al_ur_messenger.Tests.Codec.{outside}
use al_ur_messenger.Tests.Messages.{message, running_messages}
use al_ur_messenger.Tests.Journal.{opening}
use al_ur_messenger.Tests.Recovery.{changed, calls, conversation, settings}

abbrev idle : Connection
idle = record { send = []; incoming = []; wake = false; closing = none }

-- Subscribed to the group, with its first event applied.
abbrev listening : Session
listening = record {
  connection = idle;
  subscriptions = (1000, 1) ∷ [];
  presence_watch = [];
  presence_state = [];
  typing_state = [];
}

abbrev recovery : Recovery
recovery = recovery_of rt outside (human_actor 10) changed

replay-IsFollowed_example : IsFollowed 1000 listening (replay recovery 1000 true listening)
replay-IsFollowed_example = replay-IsFollowed recovery 1000 true listening

replay_progress_example :
    cursor 1000 (replay (recovery_of rt outside (human_actor 10) changed) 1000 false listening)
    ≡ min (cursor 1000 listening + 32) 3
unfolding changed running History.run
replay_progress_example =
    replay_progress rt outside (human_actor 10) changed 1000 false listening conversation settings
      (run-IsLogged calls empty_db (record { contiguous = λ project id. refl; mirrored = refl }))
      (record { open_rows = tt; named = (inl refl, (inl refl, (inl refl, tt))) }) refl refl refl
      refl (omega arith) (omega arith)

-- The group after the message of its opening.
abbrev written_to : ConversationRow
written_to = record conversation {
  event_sequence = 2;
  message_sequence = 1;
  last_message_id = some 1003;
  updated_at = 600;
}

replay_ends_example :
    cursor 1000 (
      rounds
        (recovery_of rt outside (human_actor 10) (History.run opening empty_db))
        1000
        1
        listening)
    ≡ 2
unfolding running_messages
replay_ends_example =
    replay_ends rt outside (human_actor 10) (History.run opening empty_db) 1000 1 listening
      written_to settings
      (run-IsLogged opening empty_db (record { contiguous = λ project id. refl; mirrored = refl }))
      (record {
        open_rows = ((message, refl), tt);
        named = (inl refl, (inr (1003, refl, refl), tt));
      })
      refl refl refl refl (omega arith) (omega arith)

abbrev services : Services
services = record {
  recovery = recovery;
  message = λ c id t. ok t;
  receipt = λ id kind n. ok [];
  typing = λ id start. ok tt;
  statuses = λ id users. err Error.feature_disabled;
}

abbrev signals : Signals
signals = record { typing_json = λ id. b'a' ∷ []; presence_json = λ id users. [] }

abbrev turns : List Turn
turns =
    Turn.frame_read (ok tt) (ok true) services (record {
      request_id = 5;
      conversation_id = 1000;
      command = Command.subscribe;
      body = Body.after 0;
    })
    ∷ Turn.written
    ∷ Turn.polled (ok tt) 50 recovery signals
    ∷ Turn.polled (ok tt) 49 recovery signals
    ∷ Turn.polled (err Error.unauthenticated) 48 recovery signals
    ∷ []

abbrev started : Loop
started = record { session = listening; warned = false; ticks = 0; ended = false }

run-IsLimited_example : IsLimited (Loop.run rt turns started).session
run-IsLimited_example =
    run-IsLimited rt turns started (record { subscribed = omega arith; queued = omega arith })

abbrev steps : List Step
steps =
    Step.adds 7 idle
    ∷ Step.identifies 7 1
    ∷ Step.adds 8 idle
    ∷ Step.wakes 1
    ∷ Step.leaves 8
    ∷ Step.drains
    ∷ Step.adds 9 idle
    ∷ []

run-IsCounted_example : IsCounted (Hub.run steps new_hub)
run-IsCounted_example =
    run-IsCounted steps new_hub (record { distinct = tt; counted = refl; bounded = omega arith })

run-IsDraining_example :
    IsDraining (Hub.run steps (drain new_hub))
    × (Hub.add 9 idle (Hub.run steps (drain new_hub)) ≡ (false, Hub.run steps (drain new_hub)))
run-IsDraining_example = run-IsDraining steps new_hub 9 idle

-- An event that has waited since the session began.
abbrev queued : Frame
queued = Frame.event 1000 3 2 EventType.members_added (Payload.user_ids 12) none

write_frame-IsSafe_example : IsSafe (human_actor 10) changed (
    write_frame
      (checks_of rt outside
        (human_actor 10)
        changed
        (λ id. ok tt)
        (λ c t. ok t)
        (λ id t. t)
        (λ id. []))
      (ok tt)
      queued)
write_frame-IsSafe_example =
    write_frame-IsSafe rt outside (human_actor 10) changed (λ id. ok tt) (λ c t. ok t) (λ id t. t)
      (λ id. []) (ok tt) queued
