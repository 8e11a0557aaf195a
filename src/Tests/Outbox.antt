-- ===== src/Tests/Outbox.antt =====
-- The worker and the router at concrete inputs.
use al_ur_messenger.Prelude.{ℕ, ◌≡◌, refl, true, false, none, some, List, [], ◌∷◌, ◌==◌, arith}
use al_ur_messenger.Result.{ok}
use al_ur_messenger.Store.{OutboxRow, Envelope, EventRow, EventType, Payload}
use al_ur_messenger.Outbox.{Outbox, Attempt}
use al_ur_messenger.Outbox
use al_ur_messenger.Outbox.Order.{IsOrdered}
use al_ur_messenger.Outbox.Delivery.{IsDelivered}
use al_ur_messenger.Outbox.Runs.{run-IsOrdered, run-IsDelivered}
use al_ur_messenger.Outbox.Router.{Routing, Record, handle, handle_again, handle_hints, AreNew}
use al_ur_messenger.Prelude.Table.{exists}
use al_ur_messenger.Tests.World.{rt, running}

abbrev envelope : ℕ → ℕ → Envelope
envelope id sequence = record {
  id = id;
  kind = EventType.member_left;
  project_id = 1;
  aggregate_id = 1000;
  sequence = sequence;
  occurred_at = 500;
  payload = Payload.member_ref 11;
}

abbrev row : ℕ → ℕ → OutboxRow
row id sequence = record {
  event_id = id;
  project_id = 1;
  conversation_id = 1000;
  sequence = sequence;
  envelope = envelope id sequence;
  attempts = 0;
  next_attempt_at = 0;
  published_at = none;
  failed = false;
}

abbrev waiting : Outbox
waiting = record { rows = row 70 1 ∷ row 71 2 ∷ []; topic = [] }

-- The broker fails first although the record arrives; then it answers.
abbrev batches : List (ℕ × List (ℕ × Attempt))
batches =
    (500, (500, record { locked = true; acknowledged = false; arrived = true; saved = true }) ∷ [])
    ∷ (501, (501, record { locked = true; acknowledged = true; arrived = true; saved = true }) ∷ [])
    ∷ []

run-IsOrdered_example : IsOrdered (Outbox.run batches waiting)
run-IsOrdered_example =
    run-IsOrdered batches waiting
      (record { rows = ((refl, refl, refl), ((refl, refl, refl), tt)); due = tt; topic = tt })

run-IsDelivered_example : IsDelivered (Outbox.run batches waiting)
run-IsDelivered_example =
    run-IsDelivered batches waiting ((refl, λ h. ground arith), ((refl, λ h. ground arith), tt))

abbrev stored : EventRow
stored = record {
  id = 70;
  project_id = 1;
  conversation_id = 1000;
  sequence = 1;
  envelope = envelope 70 1;
}

abbrev received : Record
received = record {
  key = 1000;
  size = 300;
  decoded = some (1, envelope 70 1);
  is_json_of = λ e. e.id == 70;
}

abbrev idle : Routing
idle = record { inbox = []; hints = [] }

abbrev hinted : Routing
hinted = record { inbox = 70 ∷ []; hints = (1, 1000) ∷ [] }

handle_again_example : handle rt (stored ∷ []) false true received hinted ≡ (ok tt, hinted)
unfolding running handle exists
handle_again_example =
    handle_again rt (stored ∷ []) (stored ∷ []) true false received idle hinted refl

handle_hints_example :
    AreNew (stored ∷ []) received idle (handle rt (stored ∷ []) true true received idle).1
handle_hints_example = handle_hints rt (stored ∷ []) true true received idle
