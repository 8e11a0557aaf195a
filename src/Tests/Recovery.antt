-- ===== src/Tests/Recovery.antt =====
-- Receipts and replays at concrete inputs.
use al_ur_messenger.Prelude.{false, ◌≡◌, refl, some, List, [], ◌∷◌, arith}
use al_ur_messenger.Result.{ok, Result}
use al_ur_messenger.Store.{Db, ConversationRow, SettingsRow}
use al_ur_messenger.Store.Tx.{after}
use al_ur_messenger.Event.Log.{IsLogged}
use al_ur_messenger.Conversation.Commands.{create, new_conversation}
use al_ur_messenger.Recovery.Receipts.{Checkpoint, ReceiptKind, receipt}
use al_ur_messenger.Recovery.Receipts.Positions.{HasPositions}
use al_ur_messenger.Recovery.Receipts.Repeated.{receipt_again}
use al_ur_messenger.Recovery.Replay.{Replay, replay_window}
use al_ur_messenger.Recovery.Replay.Paging.{replay_page, full_page}
use al_ur_messenger.Recovery.Replay.Privacy.{IsServed, replay-IsServed}
use al_ur_messenger.History.{
  Call, creates, removes, receives, adds, run, run-IsLogged, run-HasPositions,
}
use al_ur_messenger.Tests.Codec.{outside}
use al_ur_messenger.Tests.World.{
  clock, rt, trace, empty_db, human_actor, group_with, running, at_five, all_flags,
}

-- The conversation 1000 of the users 10 and 11, with five messages.
talking : Db
talking = at_five (after empty_db (create rt (human_actor 10) (group_with 11) trace empty_db))

once : Result (Checkpoint × Db)
unfolding talking
once = receipt (clock 600) (human_actor 11) 1000 ReceiptKind.read_receipt 3 talking

abbrev read_three : Checkpoint
read_three = record { user_id = 11; read = 3; delivered = 3; version = 2 }

receipt_again_example :
    receipt (clock 700) (human_actor 11) 1000 ReceiptKind.read_receipt 3 (after empty_db once)
    ≡ ok (read_three, after empty_db once)
unfolding once talking running
receipt_again_example =
    receipt_again (clock 600) (clock 700) (human_actor 11) 1000 ReceiptKind.read_receipt 3 talking
      (after empty_db once) read_three refl

-- The user 10 opens the group, reads nothing, invites 12, and 11 leaves: three events.
abbrev pub calls : List Call
calls =
    record {
      runtime = rt;
      outside = outside;
      actor = human_actor 10;
      trace = trace;
      command = creates (group_with 11);
    }
    ∷ record {
      runtime = clock 520;
      outside = outside;
      actor = human_actor 10;
      trace = trace;
      command = receives 1000 (some ReceiptKind.read_receipt) 0;
    }
    ∷ record {
      runtime = clock 540;
      outside = outside;
      actor = human_actor 10;
      trace = trace;
      command = adds 1000 (record { user_ids = 12 ∷ [] });
    }
    ∷ record {
      runtime = clock 560;
      outside = outside;
      actor = human_actor 11;
      trace = trace;
      command = removes 1000 11;
    }
    ∷ []

unfoldable pub changed : Db
changed = run calls empty_db

run-IsLogged_example : IsLogged (run calls empty_db)
unfolding running
run-IsLogged_example =
    run-IsLogged calls empty_db (record { contiguous = λ project id. refl; mirrored = refl })

run-HasPositions_example : HasPositions (run calls empty_db)
unfolding running
run-HasPositions_example = run-HasPositions calls empty_db tt

abbrev pub conversation : ConversationRow
conversation = record (new_conversation rt (human_actor 10) 1000 (group_with 11)) {
  event_sequence = 3;
}

abbrev pub settings : SettingsRow
settings = record {
  project_id = 1;
  flags = all_flags;
  max_upload_size = 1000;
  retention_days = 30;
  blacklist_enabled = false;
  version = 1;
}

replay_page_example :
    replay_window (human_actor 10) 1000 1 20 changed
    ≡ ok (full_page (human_actor 10) 1000 1 20 changed conversation settings)
unfolding changed running run
replay_page_example =
    replay_page (human_actor 10) 1000 1 20 changed conversation settings
      (run-IsLogged calls empty_db (record { contiguous = λ project id. refl; mirrored = refl }))
      refl refl refl (omega arith)

second_page : Replay
unfolding changed
second_page = full_page (human_actor 10) 1000 1 1 changed conversation settings

replay-IsServed_example : IsServed (human_actor 10) 1000 1 changed second_page
unfolding second_page changed running run
replay-IsServed_example = replay-IsServed (human_actor 10) 1000 1 1 changed second_page refl
