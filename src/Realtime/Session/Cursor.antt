-- ===== src/Realtime/Session/Cursor.antt =====
-- A session never skips an event: its cursor is the last event of an unbroken run that it enqueued.
use Prim.Native.String.{String}
use al_ur_messenger.Prelude.{
  ℕ, suc, ◌≡◌, refl, sym, ap, ◌∙◌, subst, ◌⊎◌, inl, inr, Bool, true, false, ◌&&◌, ◌||◌, not, none,
  List, [], ◌∷◌, ◌++◌, map, ltb, ◌==◌, length, arith, Bool-cases, All,
}
use al_ur_messenger.Prelude.Table.{find, select}
use al_ur_messenger.Result.{Result, ok, err, Error, not_found, resync}
use al_ur_messenger.Store.{Envelope}
use al_ur_messenger.Recovery.Replay.{Replay}
use al_ur_messenger.Recovery.Replay.Privacy.{IsRun}
use al_ur_messenger.Realtime.Connection.{Connection, Frame, stop, enqueue}
use al_ur_messenger.Realtime.Session.{
  Session, Recovery, lookup, remove, put, cursor, event_frame, say, push_events, replay_failed,
  complete, call_again, replay_served, replay, unsubscribed,
}

append_nil {ℓ} : {A : Type ℓ} (xs : List A) → xs ≡ xs ++ []
append_nil [] = refl
append_nil (x ∷ xs) = ap (λ t. x ∷ t) (append_nil xs)

append_snoc {ℓ} :
    {A : Type ℓ} (xs : List A) (x : A) (ys : List A) → (xs ++ x ∷ []) ++ ys ≡ xs ++ x ∷ ys
append_snoc [] x ys = refl
append_snoc (z ∷ xs) x ys = ap (λ t. z ∷ t) (append_snoc xs x ys)

append_assoc {ℓ} : {A : Type ℓ} (xs ys zs : List A) → (xs ++ ys) ++ zs ≡ xs ++ (ys ++ zs)
append_assoc [] ys zs = refl
append_assoc (x ∷ xs) ys zs = ap (λ t. x ∷ t) (append_assoc xs ys zs)

abbrev pub is_event : Frame → Bool
is_event (Frame.event id i n k p m) = true
is_event _ = false

stop-send : (code : ℕ) (reason : _) (c : Connection) → (stop code reason c).send ≡ c.send
unfolding stop
stop-send code reason c = ground arith

pub cursor-put :
    (id n : ℕ) (s : Session) (c : Connection)
    → cursor id (record s { connection = c; subscriptions = put id n s.subscriptions }) ≡ n
unfolding find
cursor-put id n s c = ground arith

abbrev pub after_event : ℕ → Envelope → Session → Session
after_event id e s = record s {
  connection = record s.connection { send = s.connection.send ++ event_frame id e ∷ [] };
  subscriptions = put id e.sequence s.subscriptions;
}

-- The events that a step enqueues for a conversation, from its cursor to its new cursor.
pub record IsPushed (id : ℕ) (s s' : Session) : Type 0 where
  pub events : List Envelope
  pub sent : s'.connection.send ≡ s.connection.send ++ map (event_frame id) events
  pub run : IsRun (cursor id s) events (cursor id s')

push_events-IsPushed :
    (id m : ℕ) (es : List Envelope) (s : Session)
    → IsRun (cursor id s) es m
    → IsPushed id s (push_events id es s).1
unfolding push_events enqueue
push_events-IsPushed id m [] s h = record { events = []; sent = append_nil _; run = refl }
push_events-IsPushed id m (e ∷ es) s h = elim (Bool-cases (ltb (length s.connection.send) 64)) [
  | inr full ↦ rw full (record {
    events = [];
    sent = stop-send 1013 "SLOW_CONSUMER" s.connection ∙ append_nil _;
    run = refl;
  })
  | inl room ↦
      let next = after_event id e s in
      let at : cursor id next ≡ suc (cursor id s) =
        cursor-put id e.sequence s next.connection ∙ h.0 in
      let rest = push_events-IsPushed id m es next (subst (λ n. IsRun n es m) (sym at) h.1) in
      rw room (record {
        events = e ∷ rest.events;
        sent = rest.sent ∙ append_snoc s.connection.send (event_frame id e) _;
        run = (
          h.0,
          subst (λ n. IsRun n rest.events (cursor id (push_events id es next).1)) at rest.run,
        );
      })
]

-- What a step adds to the queue that is no event.
abbrev Tail : Session → Session → Type 0
Tail s s' =
    (fs : List Frame) × (s'.connection.send ≡ s.connection.send ++ fs)
    × All (λ f. is_event f ≡ false) fs

say-Tail : (f : Frame) (s : Session) → is_event f ≡ false → Tail s (say f s)
unfolding enqueue
say-Tail f s plain = elim (Bool-cases (ltb (length s.connection.send) 64)) [
  | inl room ↦ rw room (f ∷ [], refl, (plain, tt))
  | inr full ↦ rw full ([], stop-send 1013 "SLOW_CONSUMER" s.connection ∙ append_nil _, tt)
]

complete-Tail : (id through : ℕ) (s : Session) (b : Bool) → Tail s (complete id through s b)
complete-Tail id through s true = say-Tail (Frame.sync_complete id through) s refl
complete-Tail id through s false = ([], append_nil _, tt)

pub complete-cursor :
    (id through : ℕ) (s : Session) (b : Bool) → cursor id (complete id through s b) ≡ cursor id s
complete-cursor id through s true = refl
complete-cursor id through s false = refl

pub call_again-same :
    (s : Session) (b : Bool)
    → ((call_again s b).connection.send ≡ s.connection.send)
      × ((call_again s b).subscriptions ≡ s.subscriptions)
call_again-same s true = (refl, refl)
call_again-same s false = (refl, refl)

-- What a replay enqueues for a conversation: events, and then frames that are no events. Either the
-- conversation is no longer subscribed, or the events run without a gap from the cursor before to
-- the cursor after.
pub record IsFollowed (id : ℕ) (s s' : Session) : Type 0 where
  pub events : List Envelope
  pub others : List Frame
  pub sent : s'.connection.send ≡ (s.connection.send ++ map (event_frame id) events) ++ others
  pub plain : All (λ f. is_event f ≡ false) others
  pub at : (lookup id s'.subscriptions ≡ none) ⊎ IsRun (cursor id s) events (cursor id s')

lookup-remove : (id : ℕ) (m : List (ℕ × ℕ)) → lookup id (remove id m) ≡ none
unfolding find select
lookup-remove id [] = refl
lookup-remove id (e ∷ m) = elim (Bool-cases (e.0 == id)) [
  | inl hit ↦ rw hit (lookup-remove id m)
  | inr miss ↦ rw miss (rw miss (lookup-remove id m))
]

dropped-IsFollowed :
    (id : ℕ) (f : Frame) (s : Session)
    → is_event f ≡ false
    → IsFollowed id s (say f (unsubscribed id s))
dropped-IsFollowed id f s plain =
    let (fs, sent, others) = say-Tail f (unsubscribed id s) plain in
    record {
      events = [];
      others = fs;
      sent = sent ∙ ap (λ t. t ++ fs) (append_nil s.connection.send);
      plain = others;
      at = inl (lookup-remove id s.subscriptions);
    }

closed-IsFollowed :
    (id : ℕ) (reason : String) (s : Session)
    → IsFollowed id s (record s { connection = stop 1013 reason s.connection })
closed-IsFollowed id reason s = record {
  events = [];
  others = [];
  sent = stop-send 1013 reason s.connection ∙ (append_nil _ ∙ append_nil _);
  plain = tt;
  at = inr refl;
}

replay_failed-IsFollowed :
    (id : ℕ) (e : Error) (s : Session) → IsFollowed id s (replay_failed id e s)
unfolding replay_failed
replay_failed-IsFollowed id resync s =
    dropped-IsFollowed id (Frame.resync_required id resync) s refl
replay_failed-IsFollowed id not_found s =
    dropped-IsFollowed id (Frame.subscription_revoked id not_found) s refl
replay_failed-IsFollowed id _ s = closed-IsFollowed id "REPLAY_UNAVAILABLE" s

replay_served-IsFollowed :
    (id : ℕ) (initial : Bool) (after : ℕ) (r : Replay) (s : Session) (p : Bool × Session)
    → IsPushed id s p.1
    → IsFollowed id s (replay_served id initial after r p)
replay_served-IsFollowed id initial after r s (false, s') h = record {
  events = h.events;
  others = [];
  sent = h.sent ∙ append_nil _;
  plain = tt;
  at = inr h.run;
}
replay_served-IsFollowed id initial after r s (true, s') h =
    let last = not r.more && (initial || ltb after r.through) in
    let done = complete id r.through s' last in
    let (fs, sent, others) = complete-Tail id r.through s' last in
    let (same_send, same_subscriptions) = call_again-same done r.more in
    record {
      events = h.events;
      others = fs;
      sent = same_send ∙ (sent ∙ ap (λ t. t ++ fs) h.sent);
      plain = others;
      at = inr (
          subst (λ n. IsRun (cursor id s) h.events n)
            (sym (rw same_subscriptions (complete-cursor id r.through s' last))) h.run);
    }

-- A replay for a conversation enqueues first events of it and then frames that are no events; and
-- if the conversation stays subscribed, the events are numbered on from the cursor before without a
-- gap, up to the cursor after, even if the queue fills up in between.
pub replay-IsFollowed :
    (recovery : Recovery) (id : ℕ) (initial : Bool) (s : Session)
    → IsFollowed id s (replay recovery id initial s)
unfolding replay
replay-IsFollowed recovery id initial s =
    elim (Bool-cases (ltb 16 (length s.connection.send) && not initial)) [
      | inl busy ↦ rw busy (record {
        events = [];
        others = [];
        sent = append_nil _ ∙ append_nil _;
        plain = tt;
        at = inr refl;
      })
      | inr free ↦ rw free (go (recovery.replay id (cursor id s) 32) refl)
    ]
  where
    go :
        (o : Result Replay)
        → recovery.replay id (cursor id s) 32 ≡ o
        → IsFollowed id s (elim o [
          | err e ↦ replay_failed id e s
          | ok r ↦ replay_served id initial (cursor id s) r (push_events id r.events s)
        ])
    go (err e) k = replay_failed-IsFollowed id e s
    go (ok r) k =
        replay_served-IsFollowed id initial (cursor id s) r s (push_events id r.events s)
          (push_events-IsPushed id r.through r.events s (recovery.runs id (cursor id s) 32 r k))
