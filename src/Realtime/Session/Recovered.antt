-- ===== src/Realtime/Session/Recovered.antt =====
-- The recovery service over the tables is what a session asks for, and sessions reach the end of a
-- gapless changefeed.
use al_ur_messenger.Prelude.{
  ℕ, zero, suc, ◌+◌, ◌*◌, ◌≡◌, ◌≤◌, refl, sym, ap, ◌∙◌, subst, Bool, true, false, ◌&&◌, ◌||◌, not,
  List, [], ◌∷◌, min, ltb, length, length-append, arith, if◌then◌else◌,
}
use al_ur_messenger.Result.{Result, ok, err, invalid}
use al_ur_messenger.Runtime.{Runtime, valid_id}
use al_ur_messenger.Identity.{Actor}
use al_ur_messenger.Prelude.{some, length-take-le, All, All-take, Bool-cases, inl, inr}
use al_ur_messenger.Prelude.Table.{find, select, select-All}
use al_ur_messenger.Store.{
  Db, EventRow, Envelope, ConversationRow, SettingsRow, Flag, conversation_key,
}
use al_ur_messenger.Event.Log.{IsLogged, log}
use al_ur_messenger.Conversation.Access.{settings_row}
use al_ur_messenger.Recovery.Access.{read_access}
use al_ur_messenger.Recovery.Replay.Paging.{full_page, replay_page, length-shown, page, shown_rows}
use al_ur_messenger.Recovery.Replay.{Replay, in_window, replay_window, is_hidden}
use al_ur_messenger.Recovery.Hydration.{Recovered, window_of, replay_hydrated, request_replay}
use al_ur_messenger.Recovery.Hydration.Current.{recovered_window}
use al_ur_messenger.Recovery.Hydration.Success.{
  Succeeds, IsNamed, AreOpen, replay_hydrated-Succeeds,
}
use al_ur_messenger.Message.{Outside}
use al_ur_messenger.Recovery.Replay.Privacy.{IsRun, replay-IsServed}
use al_ur_messenger.Realtime.Connection.{enqueue}
use al_ur_messenger.Realtime.Session.{
  Session, Recovery, cursor, push_events, event_frame, replay, replay_failed, replay_served,
  complete,
}
use al_ur_messenger.Realtime.Session.Cursor.{
  cursor-put, after_event, complete-cursor, call_again-same,
}

-- The page that the service gives, without the messages, which the frames of the model leave out.
abbrev pub page_of : Result Recovered → Result Replay
page_of (ok r) = ok (window_of r)
page_of (err e) = err e

-- A page that the service gives is a page of the changefeed.
pub request_replay-window :
    (rt : Runtime) (o : Outside) (a : Actor) (db : Db) (id after limit : ℕ) (r : Replay)
    → page_of (request_replay rt o a id after limit db) ≡ ok r
    → replay_window a id after limit db ≡ ok r
unfolding request_replay
request_replay-window rt o a db id after limit r h =
    go (not (valid_id rt id) || ltb limit 1 || ltb 100 limit) _ refl h
  where
    served :
        (x : Result Recovered)
        → replay_hydrated rt o a id after limit db ≡ x
        → page_of x ≡ ok r
        → replay_window a id after limit db ≡ ok r
    served (ok p) e k = recovered_window rt o a id after limit db p e ∙ k
    served (err x) e k = cc

    go :
        (b : Bool) (x : Result Recovered)
        → replay_hydrated rt o a id after limit db ≡ x
        → page_of (if b then err invalid else x) ≡ ok r
        → replay_window a id after limit db ≡ ok r
    go true x e k = cc
    go false x e k = served x e k

-- Session.gateway.Recovery for its actor, on the tables of the moment.
abbrev pub recovery_of : Runtime → Outside → Actor → Db → Recovery
recovery_of rt o a db = record {
  replay = λ id after limit. page_of (request_replay rt o a id after limit db);
  runs = λ id after limit r h.
      (replay-IsServed a id after limit db r
        (request_replay-window rt o a db id after limit r h)).run;
}

-- While the queue has room for a whole page, all of it is enqueued.
pub push_events_all :
    (id m : ℕ) (es : List Envelope) (s : Session)
    → IsRun (cursor id s) es m
    → length s.connection.send + length es ≤ 64
    → ((push_events id es s).0 ≡ true) × (cursor id (push_events id es s).1 ≡ m)
unfolding push_events enqueue
push_events_all id m [] s h room = (refl, h)
push_events_all id m (e ∷ es) s h room =
    let free : ltb (length s.connection.send) 64 ≡ true = ground arith in
    let at : cursor id (after_event id e s) ≡ suc (cursor id s) =
      cursor-put id e.sequence s (after_event id e s).connection ∙ h.0 in
    let n = length-append s.connection.send (event_frame id e ∷ []) in
    rw free (
      push_events_all id m es (after_event id e s) (subst (λ k. IsRun k es m) (sym at) h.1)
        (omega arith))

-- The service gives a page that has its messages.
request_replay_passes :
    (rt : Runtime) (o : Outside) (a : Actor) (db : Db) (id after : ℕ) (w : Replay)
    → valid_id rt id ≡ true
    → replay_window a id after 32 db ≡ ok w
    → Succeeds (replay_hydrated rt o a id after 32 db)
    → page_of (request_replay rt o a id after 32 db) ≡ ok w
unfolding request_replay
request_replay_passes rt o a db id after w named served (r, done) =
    rw (named, done) (sym (recovered_window rt o a id after 32 db r done) ∙ served)

-- What a page shows of named events is named.
shown_rows-IsNamed :
    (project id : ℕ) (db : Db) (receipts : Bool) (user : ℕ) (rs : List EventRow)
    → All (λ r. IsNamed project id db r.envelope) rs
    → All (IsNamed project id db) (shown_rows receipts user rs)
shown_rows-IsNamed project id db receipts user [] h = tt
shown_rows-IsNamed project id db receipts user (r ∷ rs) h = (
  (elim (Bool-cases (is_hidden receipts user r.envelope)) [
    | inl hidden ↦ rw hidden (inl refl)
    | inr seen ↦ rw seen h.0
  ]),
  shown_rows-IsNamed project id db receipts user rs h.1,
)

-- The messages of the conversation can be shown, and the events of its changefeed name only those.
pub record IsHydratable (rt : Runtime) (o : Outside) (a : Actor) (id : ℕ) (db : Db) : Type 0 where
  pub open_rows : AreOpen rt o a.project_id id db
  pub named : All (λ r. IsNamed a.project_id id db r.envelope) (log a.project_id id db)

page-IsNamed :
    (rt : Runtime) (o : Outside) (a : Actor) (id after high : ℕ) (receipts : Bool) (db : Db)
    → IsHydratable rt o a id db
    → All
        (IsNamed a.project_id id db)
        (shown_rows receipts a.user_id (page a.project_id id after high 32 db))
page-IsNamed rt o a id after high receipts db h =
    shown_rows-IsNamed a.project_id id db receipts a.user_id _ (
      All-take (λ r. IsNamed a.project_id id db r.envelope) 32 _
        (select-All (λ r. IsNamed a.project_id id db r.envelope) (in_window after high) _ h.named))

served_cursor :
    (id : ℕ) (initial : Bool) (after : ℕ) (r : Replay) (p : Bool × Session)
    → p.0 ≡ true
    → cursor id (replay_served id initial after r p) ≡ cursor id p.1
served_cursor id initial after r (false, s) h = absurd (ground arith)
served_cursor id initial after r (true, s) h =
    let last = not r.more && (initial || ltb after r.through) in
    rw (call_again-same (complete id r.through s last) r.more).1
      (complete-cursor id r.through s last)

replay_cursor :
    (recovery : Recovery) (id : ℕ) (initial : Bool) (s : Session) (r : Replay)
    → recovery.replay id (cursor id s) 32 ≡ ok r
    → length s.connection.send ≤ 16
    → length r.events ≤ 32
    → cursor id (replay recovery id initial s) ≡ r.through
unfolding replay
replay_cursor recovery id initial s r h room short =
    let idle : (ltb 16 (length s.connection.send) && not initial) ≡ false = ground arith in
    let all =
      push_events_all id r.through r.events s (recovery.runs id (cursor id s) 32 r h)
        (omega arith) in
    rw idle (
      ap
        (λ o. cursor id (elim o [
          | err e ↦ replay_failed id e s
          | ok q ↦ replay_served id initial (cursor id s) q (push_events id q.events s)
        ]))
        h
      ∙ (served_cursor id initial (cursor id s) r (push_events id r.events s) all.0 ∙ all.1))

-- If the changefeed is gapless and the member's cursor lies inside it, and no more than 16 frames
-- wait for the writer, and if every message of the conversation can be shown and the changefeed
-- names no other, then one replay moves the cursor by 32 events, or to the end of the changefeed if
-- there are fewer.
pub replay_progress :
    (rt : Runtime) (o : Outside) (a : Actor) (db : Db) (id : ℕ) (initial : Bool) (s : Session)
    (c : ConversationRow) (settings : SettingsRow)
    → IsLogged db
    → IsHydratable rt o a id db
    → valid_id rt id ≡ true
    → read_access a id db ≡ ok tt
    → find (conversation_key a.project_id id) db.conversations ≡ some c
    → settings_row a.project_id db ≡ some settings
    → cursor id s ≤ c.event_sequence
    → length s.connection.send ≤ 16
    → cursor id (replay (recovery_of rt o a db) id initial s)
      ≡ min (cursor id s + 32) c.event_sequence
replay_progress rt o a db id initial s c settings v hydratable named allowed found with_settings
      inside room =
    replay_cursor (recovery_of rt o a db) id initial s
      (full_page a id (cursor id s) 32 db c settings)
      (request_replay_passes rt o a db id (cursor id s) _ named served (
        replay_hydrated-Succeeds rt o a id (cursor id s) 32 db _ hydratable.open_rows served (
          page-IsNamed rt o a id (cursor id s) c.event_sequence (settings.flags Flag.read_receipts)
            db hydratable)))
      room short
  where
    served :
        replay_window a id (cursor id s) 32 db ≡ ok (full_page a id (cursor id s) 32 db c settings)
    served = replay_page a id (cursor id s) 32 db c settings v allowed found with_settings inside

    short : length (full_page a id (cursor id s) 32 db c settings).events ≤ 32
    short =
        let shown_all =
          length-shown (settings.flags Flag.read_receipts) a.user_id
            (page a.project_id id (cursor id s) c.event_sequence 32 db) in
        let le =
          length-take-le 32
            (select (in_window (cursor id s) c.event_sequence) (log a.project_id id db)) in
        omega arith

-- The writer has sent all that waited.
abbrev pub flushed : Session → Session
flushed s = record s { connection = record s.connection { send = [] } }

-- Replays with the writer in between.
abbrev pub rounds : Recovery → ℕ → ℕ → Session → Session
rounds recovery id zero s = s
rounds recovery id (suc n) s = rounds recovery id n (replay recovery id false (flushed s))

-- If the changefeed is gapless and the member's cursor lies inside it, and if every message of the
-- conversation can be shown and the changefeed names no other, then as many replays as it takes at
-- 32 events each, with the writer emptying the queue before each of them, bring the cursor to the
-- end of the changefeed.
pub replay_ends :
    (rt : Runtime) (o : Outside) (a : Actor) (db : Db) (id n : ℕ) (s : Session)
    (c : ConversationRow) (settings : SettingsRow)
    → IsLogged db
    → IsHydratable rt o a id db
    → valid_id rt id ≡ true
    → read_access a id db ≡ ok tt
    → find (conversation_key a.project_id id) db.conversations ≡ some c
    → settings_row a.project_id db ≡ some settings
    → cursor id s ≤ c.event_sequence
    → c.event_sequence ≤ cursor id s + 32 * n
    → cursor id (rounds (recovery_of rt o a db) id n s) ≡ c.event_sequence
replay_ends rt o a db id zero s c settings v hydratable named allowed found with_settings inside
      enough =
    omega (arith, inside, enough)
replay_ends rt o a db id (suc n) s c settings v hydratable named allowed found with_settings inside
      enough =
    let moved : cursor id (replay (recovery_of rt o a db) id false (flushed s))
        ≡ min (cursor id s + 32) c.event_sequence =
      replay_progress rt o a db id false (flushed s) c settings v hydratable named allowed found
        with_settings inside (omega arith) in
    replay_ends rt o a db id n (replay (recovery_of rt o a db) id false (flushed s)) c settings v
      hydratable named allowed found with_settings (at_most _ _ _ moved)
      (omega (arith, moved, enough))
  where
    at_most : (x y z : ℕ) → x ≡ min y z → x ≤ z
    at_most x y z h = omega arith
