-- ===== src/Tests/Hydration.antt =====
-- A page of the changefeed with the messages that it names.
use al_ur_messenger.Prelude.{refl, false, []}
use al_ur_messenger.Result.{Result, ok, err}
use al_ur_messenger.Recovery.Hydration.{
  Recovered, replay_hydrated, state_ids, hydrate, hydrate_named,
}
use al_ur_messenger.Recovery.Hydration.Current.{IsRecovered, replay-IsRecovered}
use al_ur_messenger.Recovery.Replay.{replay_window}
use al_ur_messenger.Message.Reading.{scan_all}
use al_ur_messenger.Tests.Codec.{outside}
use al_ur_messenger.Tests.World.{clock, human_actor}
use al_ur_messenger.Tests.Messages.{with_message, running_messages}

abbrev or_empty : Result Recovered → Recovered
or_empty (ok r) = r
or_empty (err e) = record { events = []; through = 0; high = 0; more = false }

-- The creation of the group and the message, which 11 reads.
unfoldable recovered : Recovered
unfolding with_message running_messages replay_hydrated replay_window state_ids hydrate
    hydrate_named scan_all
recovered = or_empty (replay_hydrated (clock 800) outside (human_actor 11) 1000 0 32 with_message)

replay-IsRecovered_example :
    IsRecovered (clock 800) outside (human_actor 11) 1000 0 32 with_message recovered
unfolding recovered with_message running_messages replay_hydrated replay_window state_ids hydrate
    hydrate_named scan_all
replay-IsRecovered_example =
    replay-IsRecovered (clock 800) outside (human_actor 11) 1000 0 32 with_message recovered refl
