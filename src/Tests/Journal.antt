-- ===== src/Tests/Journal.antt =====
-- A conversation that opens, gets messages and loses one, as a sequence of calls.
use al_ur_messenger.Prelude.{none, some}
use al_ur_messenger.History.{edits}
use al_ur_messenger.History.Finality.{edit-run, run-IsBlank}
use al_ur_messenger.Store.Tx.{Post}
use al_ur_messenger.Store.Query.{Gives}
use al_ur_messenger.Message.{Message, is_deleted}
use al_ur_messenger.Message.Deletions.{IsBlank}
use al_ur_messenger.Message.Mutations.{edit}
use al_ur_messenger.Message.Reading.{get_message}
use al_ur_messenger.Tests.Messages.{message, correction}
use al_ur_messenger.Prelude.{◌≡◌, refl, some, none, List, [], ◌∷◌, ◌++◌}
use al_ur_messenger.Store.{MessageRow}
use al_ur_messenger.Message.{plain}
use al_ur_messenger.History.{
  Call, creates, sends, deletes, run, run-IsSequenced, run-Steps, run-Lasts,
}
use al_ur_messenger.Message.Journal.{Steps, journal, Lasts, entry}
use al_ur_messenger.Message.Sequence.{IsSequenced}
use al_ur_messenger.Message.Scan.{message_row}
use al_ur_messenger.Tests.Codec.{outside}
use al_ur_messenger.Tests.World.{clock, rt, trace, empty_db, human_actor, group_with}
use al_ur_messenger.Tests.Messages.{greeting, stored, running_messages}

-- The group is opened, a message is sent twice and then deleted, and another is sent.
abbrev pub opening : List Call
opening =
    record {
      runtime = rt;
      outside = outside;
      actor = human_actor 10;
      trace = trace;
      command = creates (group_with 11);
    }
    ∷ record {
      runtime = clock 600;
      outside = outside;
      actor = human_actor 10;
      trace = trace;
      command = sends 1000 (plain greeting);
    }
    ∷ []

abbrev closing : List Call
closing =
    record {
      runtime = clock 610;
      outside = outside;
      actor = human_actor 10;
      trace = trace;
      command = sends 1000 (plain greeting);
    }
    ∷ record {
      runtime = clock 620;
      outside = outside;
      actor = human_actor 10;
      trace = trace;
      command = deletes 1003 none;
    }
    ∷ record {
      runtime = clock 630;
      outside = outside;
      actor = human_actor 11;
      trace = trace;
      command = sends 1000 (plain greeting);
    }
    ∷ []

abbrev talk : List Call
talk = opening ++ closing

run-IsSequenced_example : IsSequenced (run talk empty_db)
unfolding running_messages
run-IsSequenced_example = run-IsSequenced talk empty_db (λ project id. refl)

run-Steps_example : Steps (journal empty_db) (journal (run talk empty_db))
unfolding running_messages
run-Steps_example = run-Steps talk empty_db (λ project id. refl)

opening-IsSequenced : IsSequenced (run opening empty_db)
unfolding running_messages
opening-IsSequenced = run-IsSequenced opening empty_db (λ project id. refl)

run-Lasts_example :
    (s : MessageRow) × (message_row 1 1003 (run closing (run opening empty_db)) ≡ some s)
    × Lasts (entry stored) (entry s)
unfolding running_messages
run-Lasts_example = run-Lasts closing 1 1003 (run opening empty_db) stored opening-IsSequenced refl

-- The author corrects the message, and the member of the group writes.
abbrev correcting : List Call
correcting =
    record {
      runtime = clock 620;
      outside = outside;
      actor = human_actor 10;
      trace = trace;
      command = edits 1003 none correction;
    }
    ∷ []

abbrev erasing : List Call
erasing =
    record {
      runtime = clock 620;
      outside = outside;
      actor = human_actor 10;
      trace = trace;
      command = deletes 1003 none;
    }
    ∷ []

abbrev answering : List Call
answering =
    record {
      runtime = clock 630;
      outside = outside;
      actor = human_actor 11;
      trace = trace;
      command = sends 1000 (plain greeting);
    }
    ∷ []

abbrev corrected : Message
corrected = record message { content = some correction.content; version = 2; edited_at = some 620 }

abbrev erased : Message
erased = record message {
  content = none;
  metadata = none;
  status = is_deleted;
  version = 2;
  deleted_at = some 620;
}

edit-run_example :
    Post
      (λ _ _. ⊥)
      (edit
        (clock 640)
        outside
        (human_actor 10)
        1003
        (some 1000)
        correction
        (run answering (run (opening ++ correcting) empty_db)))
unfolding running_messages
edit-run_example =
    edit-run (clock 620) (clock 640) outside outside (human_actor 10) (human_actor 10) 1003 none
      (some 1000) correction correction (run opening empty_db)
      (run (opening ++ correcting) empty_db) corrected answering refl
      (run-IsSequenced (opening ++ correcting) empty_db (λ project id. refl)) refl refl

run-IsBlank_example : Gives IsBlank (
    get_message
      (clock 640)
      outside
      (human_actor 11)
      1003
      (run answering (run (opening ++ erasing) empty_db)))
unfolding running_messages
run-IsBlank_example =
    run-IsBlank (clock 620) (clock 640) outside outside (human_actor 10) (human_actor 11) 1003 none
      (run opening empty_db) (run (opening ++ erasing) empty_db) erased answering refl
      (run-IsSequenced (opening ++ erasing) empty_db (λ project id. refl)) refl
