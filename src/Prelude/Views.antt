-- ===== src/Prelude/Views.antt =====
-- Tables seen through a function on their rows.
use mathlib.Core.Path.{◌≡◌, refl, ap, sym, subst}
use mathlib.Core.Bool.{Bool}
use mathlib.Core.Option.{some}
use mathlib.Core.List.{List, [], ◌∷◌, ◌++◌, map}
use mathlib.Core.Logic.{inl, inr}
use native.Mathlib.Omega.{arith}
use al_ur_messenger.Prelude.Tests.{Bool-cases}
use al_ur_messenger.Prelude.Lists.{length}
use al_ur_messenger.Prelude.Table.{select, find, update_first}

module _ {ℓ κ} {R : Type ℓ} {S : Type κ} (f : R → S) where
  pub map-append : (rs xs : List R) → map f (rs ++ xs) ≡ map f rs ++ map f xs
  map-append [] xs = refl
  map-append (r ∷ rs) xs = ap (λ t. f r ∷ t) (map-append rs xs)

  pub find-map :
      (q : S → Bool) (rs : List R) (r : R)
      → find (λ x. q (f x)) rs ≡ some r
      → find q (map f rs) ≡ some (f r)
  unfolding find
  find-map q [] r e = cc
  find-map q (x ∷ rs) r e = elim (Bool-cases (q (f x))) [
    | inl hit ↦ rw hit (ap some (ap f (first x r (rw hit at e))))
    | inr miss ↦ rw miss (find-map q rs r (rw miss at e))
  ]
    where
      first : (x r : R) → some x ≡ some r → x ≡ r
      first x r e = cc

  pub length-select-map :
      (q : S → Bool) (rs : List R)
      → length (select q (map f rs)) ≡ length (select (λ x. q (f x)) rs)
  unfolding select
  length-select-map q [] = refl
  length-select-map q (r ∷ rs) = elim (Bool-cases (q (f r))) [
    | inl hit ↦ rw hit (ground (arith, length-select-map q rs))
    | inr miss ↦ rw miss (length-select-map q rs)
  ]

  -- An update that does to the first row what its view shows.
  pub update_first-map :
      (q : S → Bool) (g : R → R) (h : S → S) (rs : List R) (r : R)
      → find (λ x. q (f x)) rs ≡ some r
      → f (g r) ≡ h (f r)
      → map f (update_first (λ x. q (f x)) g rs) ≡ update_first q h (map f rs)
  unfolding find update_first
  update_first-map q g h [] r e same = refl
  update_first-map q g h (x ∷ rs) r e same = elim (Bool-cases (q (f x))) [
    | inl hit ↦
        let one : x ≡ r = first x r (rw hit at e) in
        rw hit (ap (λ t. t ∷ map f rs) (subst (λ y. f (g y) ≡ h (f y)) (sym one) same))
    | inr miss ↦ rw miss (ap (λ t. f x ∷ t) (update_first-map q g h rs r (rw miss at e) same))
  ]
    where
      first : (x r : R) → some x ≡ some r → x ≡ r
      first x r e = cc

  -- A row of the view is the view of the row.
  pub find-map_back :
      (q : S → Bool) (rs : List R) (s : S)
      → find q (map f rs) ≡ some s
      → (r : R) × (find (λ x. q (f x)) rs ≡ some r) × (f r ≡ s)
  unfolding find
  find-map_back q [] s e = cc
  find-map_back q (x ∷ rs) s e = elim (Bool-cases (q (f x))) [
    | inl hit ↦ (x, rw hit refl, first (f x) s (rw hit at e))
    | inr miss ↦ rw miss (find-map_back q rs s (rw miss at e))
  ]
    where
      first : (x s : S) → some x ≡ some s → x ≡ s
      first x s e = cc
