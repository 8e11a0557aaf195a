-- ===== src/Store/Tx.antt =====
-- A transaction reads and writes the tables, and either commits or returns an error; then the
-- deferred Rollback leaves the tables as they were. A `Query` only reads.
use al_ur_messenger.Prelude.{ℕ, suc, ◌≡◌, refl, ap, subst, arith}
use al_ur_messenger.Result.{Result, ok, err, Error}
use al_ur_messenger.Runtime.{Runtime}
use al_ur_messenger.Store.Rows.{Db}

abbrev pub Query : Type 0 → Type 0
Query A = Db → Result A

abbrev pub Tx : Type 0 → Type 0
Tx A = Db → Result (A × Db)

infixl 5 ◌>>=◌ ◌>>◌
unfoldable pub ◌>>=◌ : {A B : Type 0} → Tx A → (A → Tx B) → Tx B
◌>>=◌ m f db = elim (m db) [ err e ↦ err e | ok (a, db') ↦ f a db' ]

unfoldable pub query : {A : Type 0} → Query A → Tx A
query q db = elim (q db) [ err e ↦ err e | ok a ↦ ok (a, db) ]

unfoldable pub check : Result (Unit {0}) → Tx (Unit {0})
check r db = elim r [ err e ↦ err e | ok u ↦ ok (tt, db) ]

unfoldable pub write : (Db → Db) → Tx (Unit {0})
write f db = ok (tt, f db)

unfoldable pub commit : {A : Type 0} → A → Tx A
commit a db = ok (a, db)

abbrev pub ◌>>◌ : {B : Type 0} → Tx (Unit {0}) → Tx B → Tx B
m >> k = m >>= λ _. k

-- uuid.NewV7 takes the next identifier.
abbrev pub drawn_once : Db → Db
drawn_once db = record db { drawn = suc db.drawn }

unfoldable pub draw : Runtime → Tx ℕ
draw rt db = ok (rt.new_id db.drawn, drawn_once db)

-- The tables after a transaction.
abbrev pub after : {A : Type 0} → Db → Result (A × Db) → Db
after db (ok (a, db')) = db'
after db (err e) = db

-- To run a transaction in a test.
unfoldable pub run : {A : Type 0} → Tx A → Db → Result (A × Db)
unfolding ◌>>=◌ query check write commit draw
run m db = m db

-- A read that succeeds is passed on.
pub query_runs :
    {A B : Type 0} (q : Query A) (k : A → Tx B) (a : A) (db : Db)
    → q db ≡ ok a
    → (query q >>= k) db ≡ k a db
unfolding ◌>>=◌ query
query_runs {A} {B} q k a db h = go (q db) h
  where
    go :
        (r : Result A)
        → r ≡ ok a
        → elim (let r' : Result (A × Db) = elim r [ err e ↦ err e | ok a ↦ ok (a, db) ] in r') [
          | err e ↦ err e
          | ok (a, db') ↦ k a db'
        ]
          ≡ k a db
    go (ok b) e = ap (λ t. k t db) (ground arith)
    go (err x) e = cc

pub check_runs :
    {B : Type 0} (r : Result (Unit {0})) (k : Unit {0} → Tx B) (db : Db)
    → r ≡ ok tt
    → (check r >>= k) db ≡ k tt db
unfolding ◌>>=◌ check
check_runs (ok u) k db h = refl
check_runs (err e) k db h = cc

-- What holds of the result and of the tables when a transaction commits.
pub data Post {A : Type 0} (Q : A → Db → Type 0) : Result (A × Db) → Type 0 where
  committed : {a : A} {db : Db} → Q a db → Post Q (ok (a, db))
  rolled_back : {e : Error} → Post Q (err e)

module _ {A B : Type 0} (Q : B → Db → Type 0) where
  pub query->>= :
      (q : Query A) (k : A → Tx B) (db : Db)
      → ((a : A) → q db ≡ ok a → Post Q (k a db))
      → Post Q ((query q >>= k) db)
  unfolding ◌>>=◌ query
  query->>= q k db h = go (q db) refl
    where
      go :
          (r : Result A)
          → q db ≡ r
          → Post Q
              (elim (let r' : Result (A × Db) = elim r [ err e ↦ err e | ok a ↦ ok (a, db) ] in
                r') [ err e ↦ err e | ok (a, db') ↦ k a db' ])
      go (ok a) e = h a e
      go (err x) e = rolled_back

  pub bind->>= :
      {P : A → Db → Type 0} (m : Tx A) (k : A → Tx B) (db : Db)
      → Post P (m db)
      → ((a : A) (db' : Db) → P a db' → Post Q (k a db'))
      → Post Q ((m >>= k) db)
  unfolding ◌>>=◌
  bind->>= {P} m k db p h = go (m db) p
    where
      go :
          (r : Result (A × Db))
          → Post P r
          → Post Q (elim r [ err e ↦ err e | ok (a, db') ↦ k a db' ])
      go (ok (a, db')) (committed x) = h a db' x
      go (err x) y = rolled_back

module _ {B : Type 0} (Q : B → Db → Type 0) where
  pub check->>= :
      (r : Result (Unit {0})) (k : Unit {0} → Tx B) (db : Db)
      → (r ≡ ok tt → Post Q (k tt db))
      → Post Q ((check r >>= k) db)
  unfolding ◌>>=◌ check
  check->>= (ok tt) k db h = h refl
  check->>= (err e) k db h = rolled_back

  pub write->>= :
      (f : Db → Db) (k : Unit {0} → Tx B) (db : Db)
      → Post Q (k tt (f db))
      → Post Q ((write f >>= k) db)
  unfolding ◌>>=◌ write
  write->>= f k db h = h

  pub draw->>= :
      (rt : Runtime) (k : ℕ → Tx B) (db : Db)
      → Post Q (k (rt.new_id db.drawn) (drawn_once db))
      → Post Q ((draw rt >>= k) db)
  unfolding ◌>>=◌ draw
  draw->>= rt k db h = h

  pub commit-Post : (b : B) (db : Db) → Q b db → Post Q (commit b db)
  unfolding commit
  commit-Post b db h = committed h

module _ {B : Type 0} (Q : B → Db → Type 0) where
  pub refuse-Post : (e : Error) (db : Db) → Post Q (query (λ _. err e) db)
  unfolding query
  refuse-Post e db = rolled_back

-- A read that succeeds is passed on.
module _ {A B : Type 0} where
  pub query_hit :
      (q : Query A) (k : A → Tx B) (db : Db) (a : A) → q db ≡ ok a → (query q >>= k) db ≡ k a db
  unfolding ◌>>=◌ query
  query_hit q k db a h = go (q db) h
    where
      go :
          (r : Result A)
          → r ≡ ok a
          → elim (let r' : Result (A × Db) = elim r [ err e ↦ err e | ok b ↦ ok (b, db) ] in r') [
            | err e ↦ err e
            | ok (b, db') ↦ k b db'
          ]
            ≡ k a db
      go (ok b) e = ap (λ t. k t db) (ground arith)
      go (err x) e = ground arith

-- A postcondition as a function of the result.
abbrev pub Ensures : {A : Type 0} → (A → Db → Type 0) → Result (A × Db) → Type 0
Ensures Q (ok (a, db)) = Q a db
Ensures Q (err e) = Unit {0}

pub Post-Ensures : {A : Type 0} {Q : A → Db → Type 0} (r : Result (A × Db)) → Post Q r → Ensures Q r
Post-Ensures (ok (a, db)) (committed h) = h
Post-Ensures (err x) h = tt

-- From a postcondition to what a caller sees of a commit.
pub Post-ok :
    {A : Type 0} (Q : A → Db → Type 0) (r : Result (A × Db)) (a : A) (db : Db)
    → Post Q r
    → r ≡ ok (a, db)
    → Q a db
Post-ok Q r a db h e = subst (Ensures Q) e (Post-Ensures r h)

pub Post-mono :
    {A : Type 0} (P Q : A → Db → Type 0) (r : Result (A × Db))
    → Post P r
    → ((a : A) (db : Db) → P a db → Q a db)
    → Post Q r
Post-mono P Q (ok (a, db)) (committed h) f = committed (f a db h)
Post-mono P Q (err e) h f = rolled_back

-- A property that every commit keeps holds of the tables after the call, however it ends.
pub after_post :
    {A : Type 0} (P : Db → Type 0) (db : Db) (r : Result (A × Db))
    → P db
    → Post (λ _ db'. P db') r
    → P (after db r)
after_post P db (ok (a, db')) h (committed h') = h'
after_post P db (err e) h p = h
