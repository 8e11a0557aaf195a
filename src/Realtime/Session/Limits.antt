-- ===== src/Realtime/Session/Limits.antt =====
-- A session holds 16 subscriptions and 64 queued frames at most.
use Prim.Native.String.{String}
use al_ur_messenger.Prelude.{
  ℕ, suc, ◌≡◌, ◌≤◌, inl, inr, Bool, true, false, ◌&&◌, not, List, [], ◌∷◌, ltb, ◌==◌, length,
  length-append, arith, Bool-cases, is_some,
}
use al_ur_messenger.Prelude.Table.{find, select}
use al_ur_messenger.Result.{Result, ok, err, Error, not_found, resync}
use al_ur_messenger.Store.{Envelope}
use al_ur_messenger.Recovery.Replay.{Replay}
use al_ur_messenger.Realtime.Connection.{Connection, Frame, stop, enqueue}
use al_ur_messenger.Realtime.Session.{
  Session, Recovery, lookup, remove, put, cursor, event_frame, say, push_events, replay_failed,
  complete, call_again, replay_served, replay, unsubscribed, catch_up,
}

module _ {ℓ} {V : Type ℓ} where
  pub length-remove : (k : ℕ) (m : List (ℕ × V)) → length (remove k m) ≤ length m
  unfolding select
  length-remove k [] = omega arith
  length-remove k (e ∷ m) = elim (Bool-cases (e.0 == k)) [
    | inl hit ↦ rw hit (omega (arith, length-remove k m))
    | inr miss ↦ rw miss (omega (arith, length-remove k m))
  ]

  length-remove_held :
      (k : ℕ) (m : List (ℕ × V))
      → is_some (lookup k m) ≡ true
      → suc (length (remove k m)) ≤ length m
  unfolding select find
  length-remove_held k [] h = absurd (ground arith)
  length-remove_held k (e ∷ m) h = elim (Bool-cases (e.0 == k)) [
    | inl hit ↦ rw hit (omega (arith, length-remove k m))
    | inr miss ↦ rw miss (omega (arith, length-remove_held k m (rw miss at h)))
  ]

  -- An entry that is there is replaced, and a new one joins.
  pub length-put_held :
      (k : ℕ) (v : V) (m : List (ℕ × V))
      → is_some (lookup k m) ≡ true
      → length (put k v m) ≤ length m
  length-put_held k v m h = omega (arith, length-remove_held k m h)

  pub lookup-put : (k : ℕ) (v : V) (m : List (ℕ × V)) → is_some (lookup k (put k v m)) ≡ true
  unfolding find
  lookup-put k v m = ground arith

-- The frames that wait for the writer are 64 at most.
enqueue_room : (f : Frame) (c : Connection) → length c.send ≤ 64 → length (enqueue f c).1.send ≤ 64
unfolding enqueue stop
enqueue_room f c h = elim (Bool-cases (ltb (length c.send) 64)) [
  | inl room ↦ rw room (let n = length-append c.send (f ∷ []) in ground arith)
  | inr full ↦ rw full (ground arith)
]

pub stop_room : (code : ℕ) (reason : String) (c : Connection) → (stop code reason c).send ≡ c.send
unfolding stop
stop_room code reason c = ground arith

pub record IsLimited (s : Session) : Type 0 where
  pub subscribed : length s.subscriptions ≤ 16
  pub queued : length s.connection.send ≤ 64

pub say-IsLimited : (f : Frame) (s : Session) → IsLimited s → IsLimited (say f s)
say-IsLimited f s v = record {
  subscribed = v.subscribed;
  queued = enqueue_room f s.connection v.queued;
}

push_events-IsLimited :
    (id : ℕ) (es : List Envelope) (s : Session)
    → is_some (lookup id s.subscriptions) ≡ true
    → IsLimited s
    → IsLimited (push_events id es s).1
unfolding push_events enqueue
push_events-IsLimited id [] s held v = v
push_events-IsLimited id (e ∷ es) s held v = elim (Bool-cases (ltb (length s.connection.send) 64)) [
  | inr full ↦ rw full (record {
    subscribed = v.subscribed;
    queued = rw (stop_room 1013 "SLOW_CONSUMER" s.connection) v.queued;
  })
  | inl room ↦ rw room (
      push_events-IsLimited id es _ (lookup-put id e.sequence s.subscriptions) (record {
        subscribed =
            let le = length-put_held id e.sequence s.subscriptions held in
            let most = v.subscribed in omega arith;
        queued =
            let n = length-append s.connection.send (event_frame id e ∷ []) in
            let small : suc (length s.connection.send) ≤ 64 = ground arith in omega arith;
      }))
]

unsubscribed-IsLimited : (id : ℕ) (s : Session) → IsLimited s → IsLimited (unsubscribed id s)
unsubscribed-IsLimited id s v = record {
  subscribed = let le = length-remove id s.subscriptions in let most = v.subscribed in omega arith;
  queued = v.queued;
}

replay_failed-IsLimited :
    (id : ℕ) (e : Error) (s : Session) → IsLimited s → IsLimited (replay_failed id e s)
unfolding replay_failed
replay_failed-IsLimited id resync s v =
    say-IsLimited (Frame.resync_required id resync) _ (unsubscribed-IsLimited id s v)
replay_failed-IsLimited id not_found s v =
    say-IsLimited (Frame.subscription_revoked id not_found) _ (unsubscribed-IsLimited id s v)
replay_failed-IsLimited id _ s v = record {
  subscribed = v.subscribed;
  queued = rw (stop_room 1013 "REPLAY_UNAVAILABLE" s.connection) v.queued;
}

complete-IsLimited :
    (id through : ℕ) (s : Session) (b : Bool) → IsLimited s → IsLimited (complete id through s b)
complete-IsLimited id through s true v = say-IsLimited (Frame.sync_complete id through) s v
complete-IsLimited id through s false v = v

call_again-IsLimited : (s : Session) (b : Bool) → IsLimited s → IsLimited (call_again s b)
call_again-IsLimited s true v = record { subscribed = v.subscribed; queued = v.queued }
call_again-IsLimited s false v = v

replay_served-IsLimited :
    (id : ℕ) (initial : Bool) (after : ℕ) (r : Replay) (p : Bool × Session)
    → IsLimited p.1
    → IsLimited (replay_served id initial after r p)
replay_served-IsLimited id initial after r (false, s) v = v
replay_served-IsLimited id initial after r (true, s) v =
    call_again-IsLimited _ r.more (complete-IsLimited id r.through s _ v)

pub replay-IsLimited :
    (recovery : Recovery) (id : ℕ) (initial : Bool) (s : Session)
    → is_some (lookup id s.subscriptions) ≡ true
    → IsLimited s
    → IsLimited (replay recovery id initial s)
unfolding replay
replay-IsLimited recovery id initial s held v =
    elim (Bool-cases (ltb 16 (length s.connection.send) && not initial)) [
      | inl busy ↦ rw busy v
      | inr free ↦ rw free (go (recovery.replay id (cursor id s) 32))
    ]
  where
    go :
        (o : Result Replay)
        → IsLimited (elim o [
          | err e ↦ replay_failed id e s
          | ok r ↦ replay_served id initial (cursor id s) r (push_events id r.events s)
        ])
    go (err e) = replay_failed-IsLimited id e s v
    go (ok r) =
        replay_served-IsLimited id initial (cursor id s) r (push_events id r.events s)
          (push_events-IsLimited id r.events s held v)

pub catch_up-IsLimited :
    (recovery : Recovery) (ids : List ℕ) (s : Session)
    → IsLimited s
    → IsLimited (catch_up recovery ids s)
unfolding catch_up
catch_up-IsLimited recovery [] s v = v
catch_up-IsLimited recovery (id ∷ ids) s v =
    catch_up-IsLimited recovery ids _ (elim (Bool-cases (is_some (lookup id s.subscriptions))) [
      | inl held ↦ rw held (replay-IsLimited recovery id false s held v)
      | inr gone ↦ rw gone v
    ])
