-- ===== src/Realtime/Writer/Privacy.antt =====
-- What is written to a socket obeys the rights and flags of the moment of writing.
use al_ur_messenger.Prelude.{
  ℕ, zero, suc, ◌≡◌, refl, Bool, true, false, ◌||◌, not, Option, some, List, [], ◌∷◌,
}
use al_ur_messenger.Text.{Text}
use al_ur_messenger.Result.{Result, ok, err, not_found, resync}
use al_ur_messenger.Runtime.{Runtime}
use al_ur_messenger.Identity.{Actor}
use al_ur_messenger.Store.{Db, SettingsRow, Flag, EventType, Payload, Envelope}
use al_ur_messenger.Conversation.Access.{settings_row}
use al_ur_messenger.Recovery.Access.{read_access}
use al_ur_messenger.Recovery.Replay.{Replay, is_receipt, names_user}
use al_ur_messenger.Recovery.Replay.Privacy.{IsServed, replay-IsServed}
use al_ur_messenger.Realtime.Connection.{Frame, Command, Reply}
use al_ur_messenger.Realtime.Session.Recovered.{recovery_of, page_of, request_replay-window}
use al_ur_messenger.Recovery.Hydration.{request_replay}
use al_ur_messenger.Message.{Outside}
use al_ur_messenger.Realtime.Writer.{
  Checks, Outcome, writes, is_message_command, is_watch, refreshed, refresh_if, body_ack, ack_body,
  before, current_event, reread, revoked_or, recheck, write_frame,
}

-- The actor may read the conversation, and the event is no receipt of another user while receipts
-- are off.
pub record IsPermitted (a : Actor) (id : ℕ) (db : Db) (kind : EventType) (payload : Payload)
    : Type 0 where
  pub allowed : read_access a id db ≡ ok tt
  pub settings : SettingsRow
  pub with_settings : settings_row a.project_id db ≡ some settings
  pub visible :
      (settings.flags Flag.read_receipts || not (is_receipt kind) || names_user a.user_id payload)
      ≡ true

abbrev pub IsSafe : Actor → Db → Outcome → Type 0
IsSafe a db (writes (Frame.event id event n kind payload m)) = IsPermitted a id db kind payload
IsSafe a db _ = Unit

-- What the writer asks, over the tables of the moment.
abbrev pub checks_of :
    Runtime
    → Outside
    → Actor
    → Db
    → (ℕ → Result (Unit {0}))
    → (Command → Text → Result Text)
    → (ℕ → Text → Text)
    → (ℕ → Text)
    → Checks
checks_of rt o a db get refresh presence typing = record {
  get = get;
  recovery = recovery_of rt o a db;
  refresh = refresh;
  presence = presence;
  typing = typing;
}

module _ (rt : Runtime) (o : Outside) (a : Actor) (db : Db) where
  served_lem :
      (id after limit : ℕ) (r : Replay)
      → page_of (request_replay rt o a id after limit db) ≡ ok r
      → IsServed a id after db r
  served_lem id after limit r h =
      replay-IsServed a id after limit db r (request_replay-window rt o a db id after limit r h)

  current-IsSafe :
      (id event n after : ℕ) (m : Option ℕ) (r : Replay) (es : List Envelope)
      → r.events ≡ es
      → IsServed a id after db r
      → IsSafe a db (current_event id event n m es)
  current-IsSafe id event n after m r [] e h = tt
  current-IsSafe id event n after m r (x ∷ y ∷ es) e h = tt
  current-IsSafe id event n after m r (x ∷ []) e h =
      let seen = rw e at h.visible in
      record {
        allowed = h.allowed;
        settings = h.settings;
        with_settings = h.with_settings;
        visible = seen.0;
      }

  reread-IsSafe :
      (id event n after : ℕ) (m : Option ℕ) (x : Result Replay)
      → ((r : Replay) → x ≡ ok r → IsServed a id after db r)
      → IsSafe a db (reread id event n m x)
  reread-IsSafe id event n after m (ok r) h =
      current-IsSafe id event n after m r r.events refl (h r refl)
  reread-IsSafe id event n after m (err not_found) h = tt
  reread-IsSafe id event n after m (err resync) h = tt
  reread-IsSafe id event n after m (err _) h = tt

  event-IsSafe :
      (id event n : ℕ) (m : Option ℕ)
      → IsSafe a db (reread id event n m (before (recovery_of rt o a db) id n))
  event-IsSafe id event zero m = tt
  event-IsSafe id event (suc n) m =
      reread-IsSafe id event (suc n) n m (page_of (request_replay rt o a id n 1 db))
        (λ r h. served_lem id n 1 r h)

  revoked-IsSafe :
      (id : ℕ) (u : Result (Unit {0})) (x : Outcome)
      → IsSafe a db x
      → IsSafe a db (revoked_or id u x)
  revoked-IsSafe id (err e) x h = tt
  revoked-IsSafe id (ok u) x h = h

  refreshed-IsSafe :
      (request id : ℕ) (c : Command) (x : Result Text) → IsSafe a db (refreshed request id c x)
  refreshed-IsSafe request id c (ok t) = tt
  refreshed-IsSafe request id c (err not_found) = tt
  refreshed-IsSafe request id c (err _) = tt

  module _ (get : ℕ → Result (Unit {0})) (refresh : Command → Text → Result Text)
      (presence : ℕ → Text → Text) (typing : ℕ → Text) where
    refresh-IsSafe :
        (b : Bool) (request id : ℕ) (c : Command) (t : Text)
        → IsSafe a db
            (refresh_if b (checks_of rt o a db get refresh presence typing) request id c t)
    refresh-IsSafe true request id c t = refreshed-IsSafe request id c (refresh c t)
    refresh-IsSafe false request id c t = tt

    body-IsSafe :
        (b : Bool) (request id : ℕ) (c : Command) (t : Text)
        → IsSafe a db (body_ack b (checks_of rt o a db get refresh presence typing) request id c t)
    body-IsSafe true request id c t = tt
    body-IsSafe false request id c t = refresh-IsSafe (is_message_command c) request id c t

    ack-IsSafe :
        (request id : ℕ) (c : Command) (r : Reply)
        → IsSafe a db (ack_body (checks_of rt o a db get refresh presence typing) request id c r)
    ack-IsSafe request id c (Reply.subscribed b) = tt
    ack-IsSafe request id c (Reply.expires_in_ms n) = tt
    ack-IsSafe request id c (Reply.body t) = body-IsSafe (is_watch c) request id c t

    recheck-IsSafe :
        (f : Frame) → IsSafe a db (recheck (checks_of rt o a db get refresh presence typing) f)
    unfolding recheck
    recheck-IsSafe (Frame.ack request id c r) =
        revoked-IsSafe id (get id) _ (ack-IsSafe request id c r)
    recheck-IsSafe (Frame.event id event n t p m) =
        revoked-IsSafe id (get id) _ (event-IsSafe id event n m)
    recheck-IsSafe (Frame.sync_complete id n) = revoked-IsSafe id (get id) _ tt
    recheck-IsSafe (Frame.typing_state id t) = revoked-IsSafe id (get id) _ tt
    recheck-IsSafe (Frame.presence_state id t) = revoked-IsSafe id (get id) _ tt
    recheck-IsSafe (Frame.auth_ok t) = tt
    recheck-IsSafe (Frame.auth_expiring t) = tt
    recheck-IsSafe (Frame.limited request id) = tt
    recheck-IsSafe (Frame.failure request id e) = tt
    recheck-IsSafe (Frame.subscription_revoked id e) = tt
    recheck-IsSafe (Frame.resync_required id e) = tt

    -- Whatever frame waits and since when, an event reaches the socket only as the tables of the
    -- moment allow: the actor is an active member of the live conversation, and the event is no
    -- receipt of another user while the Project's receipts are off.
    pub write_frame-IsSafe :
        (verified : Result (Unit {0})) (f : Frame)
        → IsSafe a db (write_frame (checks_of rt o a db get refresh presence typing) verified f)
    unfolding write_frame
    write_frame-IsSafe (err e) f = tt
    write_frame-IsSafe (ok u) f = recheck-IsSafe f
