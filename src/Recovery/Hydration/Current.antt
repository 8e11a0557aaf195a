-- ===== src/Recovery/Hydration/Current.antt =====
-- What the events of a page carry: the messages as they are now.
use al_ur_messenger.Prelude.{
  ℕ, ◌≡◌, refl, ◌∙◌, ap, Bool, true, false, Option, none, some, List, [], ◌∷◌, ◌==◌, if◌then◌else◌,
  map, All,
}
use al_ur_messenger.Prelude.Table.{find}
use al_ur_messenger.Result.{Result, ok, err, resync}
use al_ur_messenger.Runtime.{Runtime}
use al_ur_messenger.Identity.{Actor}
use al_ur_messenger.Store.{Db, Envelope, payload_message}
use al_ur_messenger.Store.Query.{
  Gives, given, refused, Gives-ok, step-Gives, bind-Gives, pure-Gives,
}
use al_ur_messenger.Message.{Message, Outside}
use al_ur_messenger.Recovery.Replay.{Replay, replay_window}
use al_ur_messenger.Recovery.Hydration.{
  Hydrated, Recovered, is_state_event, state_ids, named_rows, current, hydrate, hydrate_named, bare,
  replay_hydrated, window_of,
}
use al_ur_messenger.Recovery.Hydration.Rows.{IsCurrent, AreShown, scan_all-AreShown, named_row}

-- A state event carries the message that it names, any other event none.
pub data IsHydrated (rt : Runtime) (o : Outside) (project id : ℕ) (db : Db) (h : Hydrated)
    : Type 0 where
  plain :
      is_state_event h.envelope.kind ≡ false → h.message ≡ none → IsHydrated rt o project id db h
  full :
      is_state_event h.envelope.kind ≡ true
      → (n : ℕ) (m : Message) → payload_message h.envelope.payload ≡ some n
      → h.message ≡ some m
      → IsCurrent rt o project id db n m
      → IsHydrated rt o project id db h

-- The events of the page, in order, each with its message.
abbrev pub AreHydrated : Runtime → Outside → ℕ → ℕ → Db → List Envelope → List Hydrated → Type 0
AreHydrated rt o project id db es hs =
    All (IsHydrated rt o project id db) hs × (map (λ h. h.envelope) hs ≡ es)

module _ (rt : Runtime) (o : Outside) (project : ℕ) (db : Db) where
  hydrate-AreHydrated :
      (id : ℕ) (ids : List ℕ) (ms : List Message) (es : List Envelope)
      → AreShown rt o project db (named_rows project id ids db) ms
      → Gives (AreHydrated rt o project id db es) (hydrate ms es)
  unfolding hydrate
  hydrate-AreHydrated id ids ms [] h = given (tt, refl)
  hydrate-AreHydrated id ids ms (e ∷ es) h =
      go (hydrate ms es) (hydrate-AreHydrated id ids ms es h) (is_state_event e.kind) refl
        (payload_message e.payload) refl
    where
      join :
          (m : Option Message) (rest : Result (List Hydrated))
          → IsHydrated rt o project id db (record { envelope = e; message = m })
          → Gives (AreHydrated rt o project id db es) rest
          → Gives
              (AreHydrated rt o project id db (e ∷ es))
              (elim rest [ err x ↦ err x | ok hs ↦ ok (record { envelope = e; message = m } ∷ hs) ])
      join m (err x) one k = refused
      join m (ok hs) one (given k) = given ((one, k.0), ap (λ t. e ∷ t) k.1)

      named :
          (rest : Result (List Hydrated))
          → Gives (AreHydrated rt o project id db es) rest
          → is_state_event e.kind ≡ true
          → (n : ℕ) → payload_message e.payload ≡ some n
          → (x : Option Message) → find (λ m. m.id == n) ms ≡ x
          → Gives (AreHydrated rt o project id db (e ∷ es)) (elim x [
            | none ↦ err resync
            | some m ↦ elim rest [
              | err y ↦ err y
              | ok hs ↦ ok (record { envelope = e; message = some m } ∷ hs)
            ]
          ])
      named rest k state n names none seen = refused
      named rest k state n names (some m) seen =
          let (r, found, shown) = h n m seen in
          join (some m) rest
            (full state n m names refl (record {
              row = r;
              found = named_row rt o project db id ids n r found;
              shown = shown;
            }))
            k

      go :
          (rest : Result (List Hydrated))
          → Gives (AreHydrated rt o project id db es) rest
          → (b : Bool) → is_state_event e.kind ≡ b
          → (p : Option ℕ) → payload_message e.payload ≡ p
          → Gives (AreHydrated rt o project id db (e ∷ es)) (
              if b
              then (elim (current ms p) [
                | none ↦ err resync
                | some m ↦ elim rest [
                  | err x ↦ err x
                  | ok hs ↦ ok (record { envelope = e; message = some m } ∷ hs)
                ]
              ])
              else elim rest [
                | err x ↦ err x
                | ok hs ↦ ok (record { envelope = e; message = none } ∷ hs)
              ])
      go rest k false state p names = join none rest (plain state refl) k
      go rest k true state none names = refused
      go rest k true state (some n) names = named rest k state n names _ refl

  -- Without a state event no message is read.
  bare-AreHydrated :
      (id : ℕ) (es : List Envelope)
      → state_ids es ≡ ok []
      → AreHydrated rt o project id db es (map bare es)
  unfolding state_ids
  bare-AreHydrated id [] h = (tt, refl)
  bare-AreHydrated id (e ∷ es) h =
      go (λ k. bare-AreHydrated id es k) (is_state_event e.kind) refl (payload_message e.payload)
        (state_ids es) refl h
    where
      go :
          (state_ids es ≡ ok [] → AreHydrated rt o project id db es (map bare es))
          → (b : Bool) → is_state_event e.kind ≡ b
          → (p : Option ℕ) (rest : Result (List ℕ)) → state_ids es ≡ rest
          → (if b
              then (elim p [
                | none ↦ err resync
                | some i ↦ elim rest [ err x ↦ err x | ok ids ↦ ok (i ∷ ids) ]
              ])
              else rest)
            ≡ ok []
          → AreHydrated rt o project id db (e ∷ es) (bare e ∷ map bare es)
      go others_of false state p rest same h =
          let others : AreHydrated rt o project id db es (map bare es) = others_of (same ∙ h) in
          ((plain state refl, others.0), ap (λ t. e ∷ t) others.1)
      go others_of true state none rest same h = cc
      go others_of true state (some i) (err x) same h = cc
      go others_of true state (some i) (ok ids) same h = cc

  hydrate_named-AreHydrated :
      (id : ℕ) (ids : List ℕ) (es : List Envelope)
      → state_ids es ≡ ok ids
      → Gives (AreHydrated rt o project id db es) (hydrate_named rt o project id ids es db)
  unfolding hydrate_named
  hydrate_named-AreHydrated id [] es h = pure-Gives _ (map bare es) db (bare-AreHydrated id es h)
  hydrate_named-AreHydrated id (i ∷ ids) es h =
      bind-Gives _ _ _ db (scan_all-AreShown rt o project db (named_rows project id (i ∷ ids) db))
        λ ms shown. hydrate-AreHydrated id (i ∷ ids) ms es shown

-- A page with its messages.
pub record IsRecovered (rt : Runtime) (o : Outside) (a : Actor) (id after limit : ℕ) (db : Db)
    (r : Recovered) : Type 0 where
  pub window : Replay
  pub served : replay_window a id after limit db ≡ ok window
  pub same_through : r.through ≡ window.through
  pub same_high : r.high ≡ window.high
  pub same_more : r.more ≡ window.more
  pub events : AreHydrated rt o a.project_id id db window.events r.events

replay_hydrated-IsRecovered :
    (rt : Runtime) (o : Outside) (a : Actor) (id after limit : ℕ) (db : Db)
    → Gives (IsRecovered rt o a id after limit db) (replay_hydrated rt o a id after limit db)
unfolding replay_hydrated
replay_hydrated-IsRecovered rt o a id after limit db = step-Gives _ _ _ db λ w served.
    step-Gives _ _ _ db λ ids named.
      bind-Gives _ _ _ db (hydrate_named-AreHydrated rt o a.project_id db id ids w.events named)
        λ hs events. pure-Gives _ _ db (record {
          window = w;
          served = served;
          same_through = refl;
          same_high = refl;
          same_more = refl;
          events = events;
        })

-- A page that is served with its messages holds the events of the page without them, in order; an
-- event on the state of a message carries what the row of that message in the conversation shows at
-- this moment, and any other event carries no message.
pub replay-IsRecovered :
    (rt : Runtime) (o : Outside) (a : Actor) (id after limit : ℕ) (db : Db) (r : Recovered)
    → replay_hydrated rt o a id after limit db ≡ ok r
    → IsRecovered rt o a id after limit db r
replay-IsRecovered rt o a id after limit db r =
    Gives-ok (IsRecovered rt o a id after limit db) _ r
      (replay_hydrated-IsRecovered rt o a id after limit db)

-- The page without its messages is the page that has been read.
pub recovered_window :
    (rt : Runtime) (o : Outside) (a : Actor) (id after limit : ℕ) (db : Db) (r : Recovered)
    → replay_hydrated rt o a id after limit db ≡ ok r
    → replay_window a id after limit db ≡ ok (window_of r)
recovered_window rt o a id after limit db r h =
    let k : IsRecovered rt o a id after limit db r =
      replay-IsRecovered rt o a id after limit db r h in
    rw (k.events.1, k.same_through, k.same_high, k.same_more) k.served
