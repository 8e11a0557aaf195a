-- ===== src/Realtime/Loop.antt =====
-- Session.run, whose turns are what its select meets, and the part of Session.write that takes the
-- next frame.
pub mod Limits
use Prim.Native.String.{String}
use al_ur_messenger.Prelude.{
  ℕ, suc, Bool, true, false, ◌&&◌, not, Option, none, some, List, [], ◌∷◌, leb, ◌%◌, ◌==◌,
  if◌then◌else◌, is_some,
}
use al_ur_messenger.Prelude.Table.{find, select}
use al_ur_messenger.Text.{Text, same_text}
use al_ur_messenger.Result.{Result, ok, err, Error, unauthenticated}
use al_ur_messenger.Runtime.{Runtime}
use al_ur_messenger.Realtime.Connection.{Connection, Frame, stop, enqueue}
use al_ur_messenger.Realtime.Session.{
  Session, Recovery, Services, lookup, put, say, replay, catch_up,
}
use al_ur_messenger.Realtime.Session.Commands.{Request, command}

-- Presence, as the session asks it: the JSON of what it shows for a conversation, errors included.
pub record Signals : Type 0 where
  pub typing_json : ℕ → Text
  pub presence_json : ℕ → List ℕ → Text

-- state[id], which is "" for a missing key.
abbrev pub text_or_empty : Option (ℕ × Text) → Text
text_or_empty none = []
text_or_empty (some (k, t)) = t

abbrev pub show_typing : Signals → ℕ → Session → Session
show_typing signals id s =
    if same_text (signals.typing_json id) (text_or_empty (lookup id s.typing_state))
    then s
    else (let told = say (Frame.typing_state id (signals.typing_json id)) s in
        record told { typing_state = put id (signals.typing_json id) s.typing_state })

abbrev pub show_watched : Signals → ℕ → Session → Option (ℕ × List ℕ) → Session
show_watched signals id s none = s
show_watched signals id s (some (k, users)) =
    if same_text (signals.presence_json id users) (text_or_empty (lookup id s.presence_state))
    then s
    else (let told = say (Frame.presence_state id (signals.presence_json id users)) s in
        record told { presence_state = put id (signals.presence_json id users) s.presence_state })

-- Session.ephemeral, over the subscriptions `ids` in the order in which the map is walked.
unfoldable pub ephemeral : Signals → List ℕ → Session → Session
unfolding enqueue
ephemeral signals [] s = s
ephemeral signals (id ∷ ids) s =
    let typed = show_typing signals id s in
    ephemeral signals ids (show_watched signals id typed (lookup id typed.presence_watch))

-- The state of run. It has ended when it has returned.
pub record Loop : Type 0 where
  pub session : Session
  pub warned : Bool
  pub ticks : ℕ
  pub ended : Bool

abbrev pub order : Session → List ℕ
order s = keys s.subscriptions
  where
    keys : List (ℕ × ℕ) → List ℕ
    keys [] = []
    keys (e ∷ es) = e.0 ∷ keys es

-- What one turn meets, with the answers of the services at its time. `verified` is the result of
-- verify, `quota` that of the limiter, and `left` the seconds to the token's expiry.
pub data Turn : Type 0 where
  token_expired : Turn
  frame_read : Result (Unit {0}) → Result Bool → Services → Request → Turn
  woken : Recovery → Turn
  polled : Result (Unit {0}) → ℕ → Recovery → Signals → Turn
  written : Turn

abbrev pub close_loop : ℕ → String → Loop → Loop
close_loop code reason l = record l {
  session = record l.session { connection = stop code reason l.session.connection };
  ended = true;
}

-- authenticationFailure, and the return after it
unfoldable pub refuse : Error → Loop → Loop
unfolding stop
refuse unauthenticated l = close_loop 4401 "UNAUTHENTICATED" l
refuse e l = close_loop 1013 "AUTH_UNAVAILABLE" l

unfoldable pub on_frame :
    Runtime → Result (Unit {0}) → Result Bool → Services → Request → Loop → Loop
unfolding refuse command
on_frame rt (err e) quota services r l = refuse e l
on_frame rt (ok u) (err e) services r l = refuse e l
on_frame rt (ok u) (ok false) services r l = record l {
  session = say (Frame.limited r.request_id r.conversation_id) l.session;
}
on_frame rt (ok u) (ok true) services r l = record l { session = command rt services r l.session }

abbrev pub warn : ℕ → Loop → Loop
warn left l =
    if not l.warned && leb left 60
    then record l { session = say (Frame.auth_expiring left) l.session; warned = true }
    else l

abbrev pub tick : Signals → Loop → Loop
tick signals l =
    if suc l.ticks % 2 == 0
    then record l { session = ephemeral signals (order l.session) l.session; ticks = suc l.ticks }
    else record l { ticks = suc l.ticks }

unfoldable pub on_poll : Result (Unit {0}) → ℕ → Recovery → Signals → Loop → Loop
unfolding refuse ephemeral catch_up
on_poll (err e) left recovery signals l = refuse e l
on_poll (ok u) left recovery signals l =
    let warned = warn left l in
    tick signals
      (record warned { session = catch_up recovery (order warned.session) warned.session })

abbrev pub without_first : List Frame → List Frame
without_first [] = []
without_first (f ∷ fs) = fs

-- The writer takes the first frame.
abbrev pub take_frame : Session → Session
take_frame s = record s {
  connection = record s.connection { send = without_first s.connection.send };
}

-- The loop takes the first command, or the signal to wake up.
abbrev pub drop_first : List ℕ → List ℕ
drop_first [] = []
drop_first (x ∷ xs) = xs

abbrev pub take_command : Loop → Loop
take_command l = record l {
  session = record l.session {
    connection = record l.session.connection {
      incoming = drop_first l.session.connection.incoming;
    };
  };
}

abbrev pub wake_taken : Session → Session
wake_taken s = record s { connection = record s.connection { wake = false } }

unfoldable pub turn : Runtime → Turn → Loop → Loop
unfolding on_frame on_poll stop catch_up
turn rt token_expired l = close_loop 4401 "TOKEN_EXPIRED" l
turn rt (frame_read verified quota services r) l =
    on_frame rt verified quota services r (take_command l)
turn rt (woken recovery) l = record l {
  session = catch_up recovery (order l.session) (wake_taken l.session);
}
turn rt (polled verified left recovery signals) l = on_poll verified left recovery signals l
turn rt written l = record l { session = take_frame l.session }

-- The turns until run returns.
unfoldable pub run : Runtime → List Turn → Loop → Loop
unfolding turn
run rt [] l = l
run rt (t ∷ ts) l = if l.ended then l else run rt ts (turn rt t l)
