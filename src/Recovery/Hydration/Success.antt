-- ===== src/Recovery/Hydration/Success.antt =====
-- When a page gets its messages: the messages of the conversation open, and its events name them.
use al_ur_messenger.Prelude.{
  ℕ, ◌≡◌, refl, sym, ◌∙◌, subst, inl, inr, ◌⊎◌, Bool, true, false, some, none, List, [], ◌∷◌, ◌==◌,
  arith, Bool-cases, All, All-mono, map,
}
use al_ur_messenger.Prelude.Table.{find, exists, select, select-All}
use al_ur_messenger.Result.{Result, ok}
use al_ur_messenger.Runtime.{Runtime}
use al_ur_messenger.Identity.{Actor}
use al_ur_messenger.Store.{Db, MessageRow, Envelope, payload_message, message_of}
use al_ur_messenger.Store.Query.{Gives-ok, bind_hit, pure}
use al_ur_messenger.Message.{Message, Outside}
use al_ur_messenger.Message.Scan.{scan}
use al_ur_messenger.Message.Scan.Facts.{IsShown, scan-IsShown, shown-IsOf}
use al_ur_messenger.Message.Reading.{scan_all}
use al_ur_messenger.Recovery.Replay.{Replay, replay_window}
use al_ur_messenger.Recovery.Hydration.{
  is_state_event, state_ids, named_rows, hydrate, hydrate_named, replay_hydrated, bare,
}

abbrev pub Succeeds : {A : Type 0} → Result A → Type 0
Succeeds {A} r = (a : A) × (r ≡ ok a)

abbrev pub has_message : ℕ → ℕ → Db → ℕ → Bool
has_message project id db n = exists (λ m. m.id == n) (select (message_of project id) db.messages)

-- An event on the state of a message names one of the conversation.
abbrev pub IsNamed : ℕ → ℕ → Db → Envelope → Type 0
IsNamed project id db e =
    (is_state_event e.kind ≡ false)
    ⊎ ((n : ℕ) × (payload_message e.payload ≡ some n) × (has_message project id db n ≡ true))

-- Every message of the conversation can be shown at this moment.
abbrev pub AreOpen : Runtime → Outside → ℕ → ℕ → Db → Type 0
AreOpen rt o project id db =
    All (λ r. Succeeds (scan rt o project r db)) (select (message_of project id) db.messages)

exists-select :
    {R : Type 0} (p q : R → Bool) (rs : List R)
    → ((x : R) → p x ≡ true → q x ≡ true)
    → exists p rs ≡ true
    → exists p (select q rs) ≡ true
unfolding exists select
exists-select p q [] h e = e
exists-select p q (x ∷ rs) h e = elim (Bool-cases (p x)) [
  | inl mine ↦ rw (h x mine, exists, mine) refl
  | inr other ↦
      let rest : exists p (select q rs) ≡ true = exists-select p q rs h (rw other at e) in
      elim (Bool-cases (q x)) [ inl hit ↦ rw (hit, exists, other) rest | inr miss ↦ rw miss rest ]
]

-- Whether an event asks for a message, and which one it gets.
abbrev Gets : List ℕ → Envelope → Type 0
Gets ids e =
    (is_state_event e.kind ≡ false)
    ⊎ ((n : ℕ) × (payload_message e.payload ≡ some n) × (exists (λ i. i == n) ids ≡ true))

abbrev Has : List Message → Envelope → Type 0
Has ms e =
    (is_state_event e.kind ≡ false)
    ⊎ ((n : ℕ) × (payload_message e.payload ≡ some n)
        × ((m : Message) × (find (λ x. x.id == n) ms ≡ some m)))

Gets-more : (i : ℕ) (ids : List ℕ) (e : Envelope) → Gets ids e → Gets (i ∷ ids) e
unfolding exists
Gets-more i ids e (inl plain) = inl plain
Gets-more i ids e (inr (n, names, there)) = inr (n, names, ground arith)

state_ids-Gets :
    (project id : ℕ) (db : Db) (es : List Envelope)
    → All (IsNamed project id db) es
    → (ids : List ℕ) × (state_ids es ≡ ok ids) × All (Gets ids) es
unfolding state_ids exists
state_ids-Gets project id db [] h = ([], refl, tt)
state_ids-Gets project id db (e ∷ es) h = go h.0 (state_ids-Gets project id db es h.1)
  where
    go :
        IsNamed project id db e
        → (ids : List ℕ) × (state_ids es ≡ ok ids) × All (Gets ids) es
        → (ids : List ℕ) × (state_ids (e ∷ es) ≡ ok ids) × All (Gets ids) (e ∷ es)
    go (inl plain) (ids, same, gets) = (ids, rw plain same, (inl plain, gets))
    go (inr (n, names, there)) (ids, same, gets) = elim (Bool-cases (is_state_event e.kind)) [
      | inl state ↦ (
        n ∷ ids,
        rw (state, names, same) refl,
        (
          inr (n, names, ground arith),
          All-mono (Gets ids) (Gets (n ∷ ids)) es (Gets-more n ids) gets,
        ),
      )
      | inr plain ↦ (ids, rw plain same, (inl plain, gets))
    ]

hydrate-Succeeds :
    (ms : List Message) (es : List Envelope) → All (Has ms) es → Succeeds (hydrate ms es)
unfolding hydrate
hydrate-Succeeds ms [] h = ([], refl)
hydrate-Succeeds ms (e ∷ es) h = go h.0 (hydrate-Succeeds ms es h.1)
  where
    go : Has ms e → Succeeds (hydrate ms es) → Succeeds (hydrate ms (e ∷ es))
    go (inl plain) (hs, same) =
        (record { envelope = e; message = none } ∷ hs, rw (plain, same) refl)
    go (inr (n, names, (m, there))) (hs, same) = elim (Bool-cases (is_state_event e.kind)) [
      | inl state ↦
          (record { envelope = e; message = some m } ∷ hs, rw (state, names, there, same) refl)
      | inr plain ↦ (record { envelope = e; message = none } ∷ hs, rw (plain, same) refl)
    ]

abbrev Finds : List MessageRow → List Message → Type 0
Finds rs ms =
    (n : ℕ)
    → exists (λ x. x.id == n) rs ≡ true
    → (m : Message) × (find (λ x. x.id == n) ms ≡ some m)

Finds-cons :
    (r : MessageRow) (m : Message) (rs : List MessageRow) (ms : List Message)
    → m.id ≡ r.id
    → Finds rs ms
    → Finds (r ∷ rs) (m ∷ ms)
unfolding find exists
Finds-cons r m rs ms same rest n e = elim (Bool-cases (m.id == n)) [
  | inl hit ↦ (m, rw hit refl)
  | inr miss ↦ rw miss (rest n (rw (subst (λ i. (i == n) ≡ false) same miss) at e))
]

module _ (rt : Runtime) (o : Outside) (project : ℕ) (db : Db) where
  scan_all-Succeeds :
      (rs : List MessageRow)
      → All (λ r. Succeeds (scan rt o project r db)) rs
      → (ms : List Message) × (scan_all rt o project rs db ≡ ok ms) × Finds rs ms
  unfolding scan_all pure exists
  scan_all-Succeeds [] h = ([], refl, λ n e. absurd (ground arith))
  scan_all-Succeeds (r ∷ rs) h =
      let (m, seen) = h.0 in
      let (ms, all, finds) = scan_all-Succeeds rs h.1 in
      (
        m ∷ ms,
        bind_hit db (scan rt o project r) _ m seen
            ∙ bind_hit db (scan_all rt o project rs) _ ms all,
        Finds-cons r m rs ms
            (shown-IsOf rt o project r db m
              (Gives-ok (IsShown rt o project r db) _ m (scan-IsShown rt o project r db) seen)).id
            finds,
      )

  named_rows-Succeeds :
      (id : ℕ) (ids : List ℕ)
      → AreOpen rt o project id db
      → (ms : List Message) × (scan_all rt o project (named_rows project id ids db) db ≡ ok ms)
        × Finds (named_rows project id ids db) ms
  named_rows-Succeeds id ids h = scan_all-Succeeds (named_rows project id ids db) (
      select-All (λ r. Succeeds (scan rt o project r db)) (λ m. exists (λ i. i == m.id) ids)
        (select (message_of project id) db.messages) h)

  -- The message that an event names is among those that were read.
  Has-named :
      (id : ℕ) (ids : List ℕ) (ms : List Message) (e : Envelope)
      → Finds (named_rows project id ids db) ms
      → IsNamed project id db e
      → Gets ids e
      → Has ms e
  Has-named id ids ms e finds (inl plain) k = inl plain
  Has-named id ids ms e finds (inr x) (inl plain) = inl plain
  Has-named id ids ms e finds (inr (n, names, there)) (inr (k, names', asked)) =
      let one : k ≡ n = same_id k n (sym names' ∙ names) in
      inr (
        n,
        names,
        finds n (
            exists-select (λ x. x.id == n) (λ m. exists (λ i. i == m.id) ids)
              (select (message_of project id) db.messages)
              (λ x hit.
                subst (λ j. exists (λ i. i == j) ids ≡ true) (one ∙ sym (at x.id n hit)) asked)
              there),
      )
    where
      same_id : (x y : ℕ) → some x ≡ some y → x ≡ y
      same_id x y e = cc

      at : (x y : ℕ) → (x == y) ≡ true → x ≡ y
      at x y h = ground arith

  named_rows-Has :
      (id : ℕ) (ids : List ℕ) (ms : List Message) (es : List Envelope)
      → Finds (named_rows project id ids db) ms
      → All (IsNamed project id db) es
      → All (Gets ids) es
      → All (Has ms) es
  named_rows-Has id ids ms [] finds h k = tt
  named_rows-Has id ids ms (e ∷ es) finds h k =
      (Has-named id ids ms e finds h.0 k.0, named_rows-Has id ids ms es finds h.1 k.1)

  hydrate_named-Succeeds :
      (id : ℕ) (ids : List ℕ) (es : List Envelope)
      → AreOpen rt o project id db
      → All (IsNamed project id db) es
      → All (Gets ids) es
      → Succeeds (hydrate_named rt o project id ids es db)
  unfolding hydrate_named pure
  hydrate_named-Succeeds id [] es open_rows named gets = (map bare es, refl)
  hydrate_named-Succeeds id (i ∷ ids) es open_rows named gets =
      let (ms, all, finds) = named_rows-Succeeds id (i ∷ ids) open_rows in
      let (hs, done) =
        hydrate-Succeeds ms es (named_rows-Has id (i ∷ ids) ms es finds named gets) in
      (
        hs,
        bind_hit db (λ db. scan_all rt o project (named_rows project id (i ∷ ids) db) db) _ ms all
            ∙ done,
      )

-- A page whose state events name messages of the conversation gets them, if each of these can be
-- shown.
pub replay_hydrated-Succeeds :
    (rt : Runtime) (o : Outside) (a : Actor) (id after limit : ℕ) (db : Db) (w : Replay)
    → AreOpen rt o a.project_id id db
    → replay_window a id after limit db ≡ ok w
    → All (IsNamed a.project_id id db) w.events
    → Succeeds (replay_hydrated rt o a id after limit db)
unfolding replay_hydrated pure
replay_hydrated-Succeeds rt o a id after limit db w open_rows served named =
    let (ids, asked, gets) = state_ids-Gets a.project_id id db w.events named in
    let (hs, done) =
      hydrate_named-Succeeds rt o a.project_id db id ids w.events open_rows named gets in
    (
      record { events = hs; through = w.through; high = w.high; more = w.more },
      bind_hit db (replay_window a id after limit) _ w served
          ∙ (bind_hit db (λ _. state_ids w.events) _ ids asked
              ∙ bind_hit db (hydrate_named rt o a.project_id id ids w.events) _ hs done),
    )
