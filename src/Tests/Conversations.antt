-- ===== src/Tests/Conversations.antt =====
-- Conversations and memberships at concrete inputs.
use al_ur_messenger.Prelude.{ℕ, ◌≡◌, refl, Bool, true, false, List, [], ◌∷◌}
use al_ur_messenger.Result.{ok, err, Result}
use al_ur_messenger.Store.{Db}
use al_ur_messenger.Store.Tx.{after}
use al_ur_messenger.Conversation.Access.{Conversation}
use al_ur_messenger.Conversation.Commands.{create}
use al_ur_messenger.Conversation.Commands.Direct.{create_direct_twice}
use al_ur_messenger.Conversation.Members.Moderators.{HasModerators}
use al_ur_messenger.History.{Call, creates, removes, run, run-HasModerators}
use al_ur_messenger.Tests.Codec.{outside}
use al_ur_messenger.Tests.World.{
  clock, rt, trace, empty_db, human_actor, direct_with, group_with, running,
}

opened : Result ((Conversation × Bool) × Db)
opened = create rt (human_actor 10) (direct_with 11) trace empty_db

reopened : Result ((Conversation × Bool) × Db)
unfolding opened
reopened = create (clock 600) (human_actor 11) (direct_with 10) trace (after empty_db opened)

abbrev id_of : Result ((Conversation × Bool) × Db) → ℕ
id_of (ok ((c, new), db)) = c.row.id
id_of (err e) = 0

abbrev is_new : Result ((Conversation × Bool) × Db) → Bool
is_new (ok ((c, new), db)) = new
is_new (err e) = true

create_direct_twice_example :
    (id_of reopened ≡ id_of opened)
    × (is_new reopened ≡ false)
    × (after empty_db reopened ≡ after empty_db opened)
unfolding reopened running
create_direct_twice_example =
    create_direct_twice rt (human_actor 10) (human_actor 11) (direct_with 11) (direct_with 10) trace
      trace empty_db _ _ _ _ _ _ refl refl refl refl refl refl refl

abbrev calls : List Call
calls =
    record {
      runtime = rt;
      outside = outside;
      actor = human_actor 10;
      trace = trace;
      command = creates (group_with 11);
    }
    ∷ record {
      runtime = clock 600;
      outside = outside;
      actor = human_actor 10;
      trace = trace;
      command = removes 1000 10;
    }
    ∷ []

run-HasModerators_example : HasModerators (run calls empty_db)
unfolding running
run-HasModerators_example = run-HasModerators calls empty_db (λ project id h. cc)
