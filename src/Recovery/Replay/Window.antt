-- ===== src/Recovery/Replay/Window.antt =====
-- The rows of a page of a gapless changefeed.
use al_ur_messenger.Prelude.{
  ℕ, zero, suc, ◌+◌, ◌≡◌, ◌≤◌, refl, ◌∙◌, ap, sym, subst, inl, inr, Bool, true, false, ◌&&◌, List,
  [], ◌∷◌, min, take, ltb, leb, arith, Bool-cases,
}
use al_ur_messenger.Prelude.Table.{select, order_by, insert_by}
use al_ur_messenger.Store.{EventRow}
use al_ur_messenger.Event.Log.{IsNumbered}
use al_ur_messenger.Recovery.Replay.{in_window}

pub select-and :
    (p q : EventRow → Bool) (rs : List EventRow)
    → select (λ r. p r && q r) rs ≡ select q (select p rs)
unfolding select
select-and p q [] = refl
select-and p q (r ∷ rs) = ground (arith, select-and p q rs)

pub IsNumbered-le : (n m : ℕ) (rs : List EventRow) → IsNumbered n rs m → n ≤ m
IsNumbered-le n m [] h = omega arith
IsNumbered-le n m (r ∷ rs) h = omega (arith, IsNumbered-le (suc n) m rs h.2)

-- All of a log lies in the window of a cursor before it.
select-all :
    (n m after : ℕ) (rs : List EventRow)
    → IsNumbered n rs m
    → after ≤ n
    → select (in_window after m) rs ≡ rs
unfolding select
select-all n m after [] h le = refl
select-all n m after (r ∷ rs) h le =
    let up = IsNumbered-le (suc n) m rs h.2 in
    let at = h.0 in
    let inside : in_window after m r ≡ true = ground arith in
    rw inside (ap (λ t. r ∷ t) (select-all (suc n) m after rs h.2 (omega arith)))

select-at :
    (n m : ℕ) (rs : List EventRow) → IsNumbered n rs m → IsNumbered n (select (in_window n m) rs) m
select-at n m rs h = rw (select-all n m n rs h (omega arith)) h

-- The events after a cursor inside the log, numbered on from it.
pub select-IsNumbered :
    (n m after : ℕ) (rs : List EventRow)
    → IsNumbered n rs m
    → n ≤ after
    → after ≤ m
    → IsNumbered after (select (in_window after m) rs) m
unfolding select
select-IsNumbered n m after [] h low high = omega arith
select-IsNumbered n m after (r ∷ rs) h low high = elim (Bool-cases (ltb n after)) [
  | inl below ↦
      let outside : in_window after m r ≡ false = (let at = h.0 in ground arith) in
      rw outside (select-IsNumbered (suc n) m after rs h.2 (ground arith) high)
  | inr at ↦
      let here : after ≡ n = ground arith in
      subst (λ k. IsNumbered k (select (in_window k m) (r ∷ rs)) m) (sym here)
        (select-at n m (r ∷ rs) h)
]

pub order_by-IsNumbered :
    (n m : ℕ) (rs : List EventRow) → IsNumbered n rs m → order_by (λ r. r.sequence) rs ≡ rs
unfolding order_by insert_by
order_by-IsNumbered n m [] h = refl
order_by-IsNumbered n m (r ∷ []) h = refl
order_by-IsNumbered n m (r ∷ s ∷ rs) h =
    let first : leb r.sequence s.sequence ≡ true = (let a = h.0 in let b = h.2.0 in ground arith) in
    ap (λ t. insert_by (λ x. x.sequence) r t) (order_by-IsNumbered (suc n) m (s ∷ rs) h.2)
    ∙ rw first refl

-- A page of `limit` events.
pub take-IsNumbered :
    (limit n m : ℕ) (rs : List EventRow)
    → IsNumbered n rs m
    → n ≤ m
    → IsNumbered n (take limit rs) (min (n + limit) m)
take-IsNumbered zero n m rs h le = omega arith
take-IsNumbered (suc k) n m [] h le = omega arith
take-IsNumbered (suc k) n m (r ∷ rs) h le =
    let up = IsNumbered-le (suc n) m rs h.2 in
    let same : min (suc n + k) m ≡ min (n + suc k) m = omega arith in
    (h.0, h.1, rw (← same) (take-IsNumbered k (suc n) m rs h.2 up))
