-- ===== src/Prelude/Table.antt =====
-- A table of rows as a list, with the statements of SQL that the repositories use. A predicate is
-- the WHERE clause. A statement on the primary key meets one row at most, so it stops at the first.
use Prim.Native.Nat.{ℕ}
use mathlib.Core.Path.{◌≡◌, refl, ap, ◌∙◌}
use mathlib.Core.Bool.{Bool, true, false, ◌&&◌, ◌||◌, not}
use mathlib.Core.Option.{Option, none, some}
use mathlib.Core.List.{List, [], ◌∷◌, ◌++◌, map}
use native.Mathlib.Omega.{arith}
use mathlib.Core.Logic.{◌⊎◌, inl, inr}
use al_ur_messenger.Prelude.Tests.{if◌then◌else◌, Bool-cases, leb}
use al_ur_messenger.Prelude.Lists.{All}

module _ {ℓ} {R : Type ℓ} where
  -- SELECT … WHERE p, in the table's order.
  unfoldable pub select : (R → Bool) → List R → List R
  select p [] = []
  select p (r ∷ rs) = let rest = select p rs in if p r then r ∷ rest else rest

  -- SELECT … WHERE p on a unique key.
  unfoldable pub find : (R → Bool) → List R → Option R
  find p [] = none
  find p (r ∷ rs) = if p r then some r else find p rs

  -- SELECT EXISTS(SELECT 1 … WHERE p).
  unfoldable pub exists : (R → Bool) → List R → Bool
  exists p [] = false
  exists p (r ∷ rs) = p r || exists p rs

  -- UPDATE … WHERE p on a unique key.
  unfoldable pub update_first : (R → Bool) → (R → R) → List R → List R
  update_first p f [] = []
  update_first p f (r ∷ rs) = if p r then f r ∷ rs else r ∷ update_first p f rs

  -- DELETE … WHERE p.
  unfoldable pub delete : (R → Bool) → List R → List R
  delete p [] = []
  delete p (r ∷ rs) = let rest = delete p rs in if p r then rest else r ∷ rest

  -- The conditions of a WHERE clause beside a key, on the row that the key finds.
  abbrev pub keep_if : (R → Bool) → Option R → Option R
  keep_if p none = none
  keep_if p (some r) = if p r then some r else none

  pub keep_if-eq-some :
      (p : R → Bool) (o : Option R) (r : R) → keep_if p o ≡ some r → (o ≡ some r) × (p r ≡ true)
  keep_if-eq-some p none r h = cc
  keep_if-eq-some p (some x) r h = ground arith

  -- A row that is found meets the condition.
  pub find_sound : (p : R → Bool) (rs : List R) (r : R) → find p rs ≡ some r → p r ≡ true
  unfolding find
  find_sound p [] r e = cc
  find_sound p (x ∷ rs) r e = ground (arith, find_sound p rs r)

  pub find-All {κ} :
      (P : R → Type κ) (p : R → Bool) (rs : List R) (r : R) → All P rs → find p rs ≡ some r → P r
  unfolding find
  find-All P p [] r h e = cc
  find-All P p (x ∷ rs) r h e = ground (arith, find-All P p rs r h.1)

  pub find-append :
      (p : R → Bool) (rs : List R) (x : R) → p x ≡ false → find p (rs ++ x ∷ []) ≡ find p rs
  unfolding find
  find-append p [] x h = rw h
  find-append p (r ∷ rs) x h = ground (arith, find-append p rs x h)

  pub find-append_new :
      (p : R → Bool) (rs : List R) (x : R)
      → find p rs ≡ none
      → p x ≡ true
      → find p (rs ++ x ∷ []) ≡ some x
  unfolding find
  find-append_new p [] x e h = rw h
  find-append_new p (r ∷ rs) x e h = ground (arith, find-append_new p rs x)

  pub find-append_old :
      (p : R → Bool) (rs xs : List R) (r : R) → find p rs ≡ some r → find p (rs ++ xs) ≡ some r
  unfolding find
  find-append_old p [] xs r e = cc
  find-append_old p (x ∷ rs) xs r e = ground (arith, find-append_old p rs xs r)

  -- The row that an update on the key leaves under the same key.
  pub find-update_first :
      (p : R → Bool) (f : R → R) (rs : List R) (r : R)
      → find p rs ≡ some r
      → p (f r) ≡ true
      → find p (update_first p f rs) ≡ some (f r)
  unfolding find update_first
  find-update_first p f [] r e h = cc
  find-update_first p f (x ∷ rs) r e h = elim (Bool-cases (p x)) [
    | inl hit ↦ rw hit (ground arith)
    | inr miss ↦ rw (miss, find, miss) (find-update_first p f rs r (ground arith) h)
  ]

  -- Another key reads what it read before.
  pub find-update_first_other :
      (p q : R → Bool) (f : R → R) (rs : List R)
      → ((x : R) → q x ≡ true → p x ≡ false)
      → ((x : R) → q x ≡ true → p (f x) ≡ false)
      → find p (update_first q f rs) ≡ find p rs
  unfolding find update_first
  find-update_first_other p q f [] h k = refl
  find-update_first_other p q f (x ∷ rs) h k =
      ground (arith, h x, k x, find-update_first_other p q f rs h k)

  -- A reading that the update keeps stays the same under any condition that the update keeps.
  pub update_first-All {κ} :
      (P : R → Type κ) (p : R → Bool) (f : R → R) (rs : List R)
      → ((r : R) → find p rs ≡ some r → P r → P (f r))
      → All P rs
      → All P (update_first p f rs)
  unfolding find update_first
  update_first-All P p f [] k h = tt
  update_first-All P p f (x ∷ rs) k h = elim (Bool-cases (p x)) [
    | inl hit ↦ rw hit (k x (rw hit) h.0, h.1)
    | inr miss ↦ rw miss (h.0, update_first-All P p f rs (λ r e. k r (rw miss e)) h.1)
  ]

  pub exists_mono :
      (p q : R → Bool) (rs : List R)
      → ((r : R) → p r ≡ true → q r ≡ true)
      → exists p rs ≡ true
      → exists q rs ≡ true
  unfolding exists
  exists_mono p q [] k h = cc
  exists_mono p q (r ∷ rs) k h = ground (arith, k r, exists_mono p q rs k)

  -- A row outside the update keeps an existence true.
  pub exists-update_first_other :
      (p q : R → Bool) (f : R → R) (rs : List R)
      → exists (λ r. p r && not (q r)) rs ≡ true
      → exists p (update_first q f rs) ≡ true
  unfolding exists update_first
  exists-update_first_other p q f [] h = cc
  exists-update_first_other p q f (x ∷ rs) h = elim (Bool-cases (q x)) [
    | inl hit ↦ ground (arith, exists_mono (λ r. p r && not (q r)) p rs (λ r e. ground arith))
    | inr miss ↦ ground (arith, exists-update_first_other p q f rs)
  ]

  -- So does an update that keeps the condition on the row that it meets.
  pub exists-update_first :
      (p q : R → Bool) (f : R → R) (rs : List R)
      → ((r : R) → find q rs ≡ some r → p r ≡ true → p (f r) ≡ true)
      → exists p rs ≡ true
      → exists p (update_first q f rs) ≡ true
  unfolding exists update_first find
  exists-update_first p q f [] k h = cc
  exists-update_first p q f (x ∷ rs) k h = elim (Bool-cases (q x)) [
    | inl hit ↦ let kept = k x (rw hit) in ground (arith, kept)
    | inr miss ↦ ground (arith, exists-update_first p q f rs (λ r e. k r (rw miss e)))
  ]

  pub exists-append :
      (p : R → Bool) (rs xs : List R) → exists p rs ≡ true → exists p (rs ++ xs) ≡ true
  unfolding exists
  exists-append p [] xs h = cc
  exists-append p (r ∷ rs) xs h = ground (arith, exists-append p rs xs)

  pub select-append :
      (p : R → Bool) (rs xs : List R) → select p (rs ++ xs) ≡ select p rs ++ select p xs
  unfolding select
  select-append p [] xs = refl
  select-append p (r ∷ rs) xs = ground (arith, select-append p rs xs)

  pub select-All {κ} :
      (P : R → Type κ) (p : R → Bool) (rs : List R) → All P rs → All P (select p rs)
  unfolding select
  select-All P p [] h = tt
  select-All P p (r ∷ rs) h = ground (arith, select-All P p rs h.1)

  pub select-append_hit :
      (p : R → Bool) (rs : List R) (x : R)
      → p x ≡ true
      → select p (rs ++ x ∷ []) ≡ select p rs ++ x ∷ []
  unfolding select
  select-append_hit p [] x h = rw h
  select-append_hit p (r ∷ rs) x h = ground (arith, select-append_hit p rs x h)

  pub select-append_miss :
      (p : R → Bool) (rs : List R) (x : R) → p x ≡ false → select p (rs ++ x ∷ []) ≡ select p rs
  unfolding select
  select-append_miss p [] x h = rw h
  select-append_miss p (r ∷ rs) x h = ground (arith, select-append_miss p rs x h)

  -- ORDER BY a number, ascending.
  unfoldable pub insert_by : (R → ℕ) → R → List R → List R
  insert_by key x [] = x ∷ []
  insert_by key x (r ∷ rs) = if leb (key x) (key r) then x ∷ r ∷ rs else r ∷ insert_by key x rs

  unfoldable pub order_by : (R → ℕ) → List R → List R
  unfolding insert_by
  order_by key [] = []
  order_by key (r ∷ rs) = insert_by key r (order_by key rs)

  pub insert_by-All {κ} :
      (P : R → Type κ) (key : R → ℕ) (x : R) (rs : List R)
      → P x
      → All P rs
      → All P (insert_by key x rs)
  unfolding insert_by
  insert_by-All P key x [] p h = (p, tt)
  insert_by-All P key x (r ∷ rs) p h = ground (arith, insert_by-All P key x rs p h.1)

  pub order_by-All {κ} :
      (P : R → Type κ) (key : R → ℕ) (rs : List R) → All P rs → All P (order_by key rs)
  unfolding order_by
  order_by-All P key [] h = tt
  order_by-All P key (r ∷ rs) h =
      insert_by-All P key r (order_by key rs) h.0 (order_by-All P key rs h.1)

  -- What is read of a row does not change where an update keeps it, and the condition, everywhere.
  pub find-update_first_same {κ} :
      {X : Type κ} (g : Option R → X) (p q : R → Bool) (f : R → R) (rs : List R)
      → ((r : R) → p (f r) ≡ p r)
      → ((r : R) → g (some (f r)) ≡ g (some r))
      → g (find p (update_first q f rs)) ≡ g (find p rs)
  unfolding find update_first
  find-update_first_same g p q f [] h k = refl
  find-update_first_same g p q f (r ∷ rs) h k = elim (Bool-cases (q r)) [
    | inl hit ↦ rw (hit, find, h r) (same (Bool-cases (p r)))
    | inr miss ↦ rw (miss, find) (rest (Bool-cases (p r)) (find-update_first_same g p q f rs h k))
  ]
    where
      same :
          (p r ≡ true) ⊎ (p r ≡ false)
          → g (if p r then some (f r) else find p rs) ≡ g (if p r then some r else find p rs)
      same (inl e) = rw e (k r)
      same (inr e) = rw e

      rest :
          (p r ≡ true) ⊎ (p r ≡ false)
          → g (find p (update_first q f rs)) ≡ g (find p rs)
          → g (if p r then some r else find p (update_first q f rs))
            ≡ g (if p r then some r else find p rs)
      rest (inl e) ih = rw e
      rest (inr e) ih = rw e ih

  pub find-delete : (p : R → Bool) (rs : List R) → find p (delete p rs) ≡ none
  unfolding find delete
  find-delete p [] = refl
  find-delete p (r ∷ rs) = ground (arith, find-delete p rs)

  pub find-none :
      (p q : R → Bool) (rs : List R)
      → ((r : R) → p r ≡ true → q r ≡ true)
      → exists q rs ≡ false
      → find p rs ≡ none
  unfolding find exists
  find-none p q [] k h = refl
  find-none p q (r ∷ rs) k h = ground (arith, k r, find-none p q rs k)

  pub exists-append_right :
      (p : R → Bool) (rs xs : List R) → exists p xs ≡ true → exists p (rs ++ xs) ≡ true
  unfolding exists
  exists-append_right p [] xs h = h
  exists-append_right p (r ∷ rs) xs h = ground (arith, exists-append_right p rs xs h)

  exists-insert_by :
      (p : R → Bool) (key : R → ℕ) (x : R) (rs : List R)
      → exists p (insert_by key x rs) ≡ (p x || exists p rs)
  unfolding exists insert_by
  exists-insert_by p key x [] = refl
  exists-insert_by p key x (r ∷ rs) = ground (arith, exists-insert_by p key x rs)

  pub exists-order_by :
      (p : R → Bool) (key : R → ℕ) (rs : List R) → exists p (order_by key rs) ≡ exists p rs
  unfolding exists order_by
  exists-order_by p key [] = refl
  exists-order_by p key (r ∷ rs) =
      exists-insert_by p key r (order_by key rs) ∙ ap (λ b. p r || b) (exists-order_by p key rs)

pub exists-map {ℓ κ} :
    {A : Type ℓ} {R : Type κ} (p : R → Bool) (f : A → R) (xs : List A)
    → exists p (map f xs) ≡ exists (λ x. p (f x)) xs
unfolding exists
exists-map p f [] = refl
exists-map p f (x ∷ xs) = ap (λ b. p (f x) || b) (exists-map p f xs)
