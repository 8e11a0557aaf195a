-- ===== src/Store/Query.antt =====
-- Chains of reads: each step sees the same tables.
use al_ur_messenger.Prelude.{◌≡◌, refl, ap, subst, arith, Option, some, none}
use al_ur_messenger.Result.{Result, ok, err, Error, or_fail}
use al_ur_messenger.Store.Rows.{Db}
use al_ur_messenger.Store.Tx
use al_ur_messenger.Store.Tx.{Query, Tx, Post, query, query->>=}

infixl 5 ◌>>=◌ ◌>>◌
unfoldable pub ◌>>=◌ : {A B : Type 0} → Query A → (A → Query B) → Query B
◌>>=◌ m f db = elim (m db) [ err e ↦ err e | ok a ↦ f a db ]

abbrev pub ◌>>◌ : {B : Type 0} → Query (Unit {0}) → Query B → Query B
m >> k = m >>= λ _. k

-- A row that the WHERE clause finds, or the error.
unfoldable pub row : {A : Type 0} → (Db → Option A) → Error → Query A
row f e db = or_fail (f db) e

unfoldable pub check : Result (Unit {0}) → Query (Unit {0})
check r db = r

unfoldable pub pure : {A : Type 0} → A → Query A
pure a db = ok a

-- To run a read in a test.
unfoldable pub run_query : {A : Type 0} → Query A → Db → Result A
unfolding ◌>>=◌ row check pure
run_query q db = q db

-- What holds of a value that a read gives, if it gives one.
pub data Gives {A : Type 0} (Q : A → Type 0) : Result A → Type 0 where
  given : {a : A} → Q a → Gives Q (ok a)
  refused : {e : Error} → Gives Q (err e)

module _ {A B : Type 0} (Q : B → Type 0) where
  pub step-Gives :
      (m : Query A) (f : A → Query B) (db : Db)
      → ((a : A) → m db ≡ ok a → Gives Q (f a db))
      → Gives Q ((m >>= f) db)
  unfolding ◌>>=◌
  step-Gives m f db h = go (m db) refl
    where
      go : (r : Result A) → m db ≡ r → Gives Q (elim r [ err e ↦ err e | ok a ↦ f a db ])
      go (ok a) e = h a e
      go (err x) e = refused

  pub bind-Gives :
      {P : A → Type 0} (m : Query A) (f : A → Query B) (db : Db)
      → Gives P (m db)
      → ((a : A) → P a → Gives Q (f a db))
      → Gives Q ((m >>= f) db)
  unfolding ◌>>=◌
  bind-Gives {P} m f db p h = go (m db) p
    where
      go : (r : Result A) → Gives P r → Gives Q (elim r [ err e ↦ err e | ok a ↦ f a db ])
      go (ok a) (given x) = h a x
      go (err x) y = refused

  pub row-Gives :
      (o : Db → Option A) (e : Error) (f : A → Query B) (db : Db)
      → ((a : A) → o db ≡ some a → Gives Q (f a db))
      → Gives Q ((row o e >>= f) db)
  unfolding ◌>>=◌ row
  row-Gives o e f db h = go (o db) refl
    where
      go :
          (r : Option A) → o db ≡ r → Gives Q (elim (or_fail r e) [ err x ↦ err x | ok a ↦ f a db ])
      go (some a) k = h a k
      go none k = refused

module _ {B : Type 0} (Q : B → Type 0) where
  pub check-Gives :
      (r : Result (Unit {0})) (f : Unit {0} → Query B) (db : Db)
      → (r ≡ ok tt → Gives Q (f tt db))
      → Gives Q ((check r >>= f) db)
  unfolding ◌>>=◌ check
  check-Gives (ok tt) f db h = h refl
  check-Gives (err e) f db h = refused

  pub pure-Gives : (b : B) (db : Db) → Q b → Gives Q (pure b db)
  unfolding pure
  pure-Gives b db h = given h

-- A postcondition as a function of the result.
abbrev Ensures : {A : Type 0} → (A → Type 0) → Result A → Type 0
Ensures Q (ok a) = Q a
Ensures Q (err e) = Unit {0}

pub Gives-ok : {A : Type 0} (Q : A → Type 0) (r : Result A) (a : A) → Gives Q r → r ≡ ok a → Q a
Gives-ok {A} Q r a h e = subst (Ensures Q) e (ensured r h)
  where
    ensured : (r' : Result A) → Gives Q r' → Ensures Q r'
    ensured (ok b) (given x) = x
    ensured (err x) y = tt

-- A read inside a transaction.
pub Gives->>= :
    {A B : Type 0} {P : A → Type 0} (Q : B → Db → Type 0) (q : Query A) (k : A → Tx B) (db : Db)
    → Gives P (q db)
    → ((a : A) → P a → Post Q (k a db))
    → Post Q (Tx.◌>>=◌ (query q) k db)
Gives->>= {P = P} Q q k db p h = query->>= Q q k db (λ a e. h a (Gives-ok P (q db) a p e))

pub check_end :
    (Q : Unit {0} → Type 0) (r : Result (Unit {0})) (db : Db)
    → (r ≡ ok tt → Q tt)
    → Gives Q (check r db)
unfolding check
check_end Q (ok tt) db h = given (h refl)
check_end Q (err e) db h = refused

-- A row that is there is passed on, and a test that holds lets the query go on.
module _ {A B : Type 0} (db : Db) where
  pub row_hit :
      (o : Db → Option A) (e : Error) (f : A → Query B) (a : A)
      → o db ≡ some a
      → (row o e >>= f) db ≡ f a db
  unfolding ◌>>=◌ row
  row_hit o e f a h = go (o db) h
    where
      go :
          (r : Option A)
          → r ≡ some a
          → elim (or_fail r e) [ err x ↦ err x | ok b ↦ f b db ] ≡ f a db
      go (some b) k = ap (λ t. f t db) (ground arith)
      go none k = ground arith

  pub bind_hit : (q : Query A) (f : A → Query B) (a : A) → q db ≡ ok a → (q >>= f) db ≡ f a db
  unfolding ◌>>=◌
  bind_hit q f a h = go (q db) h
    where
      go : (r : Result A) → r ≡ ok a → elim r [ err x ↦ err x | ok b ↦ f b db ] ≡ f a db
      go (ok b) k = ap (λ t. f t db) (ground arith)
      go (err x) k = ground arith

module _ {B : Type 0} (db : Db) where
  pub check_passes :
      (r : Result (Unit {0})) (f : Unit {0} → Query B) → r ≡ ok tt → (check r >>= f) db ≡ f tt db
  unfolding ◌>>=◌ check
  check_passes r f h = rw h refl
