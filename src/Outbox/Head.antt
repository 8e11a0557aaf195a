-- ===== src/Outbox/Head.antt =====
-- The head of a conversation in the outbox: its first pending row.
use al_ur_messenger.Prelude.{
  ℕ, ◌≡◌, ◌≤◌, refl, inl, inr, Bool, true, ◌&&◌, some, List, [], ◌∷◌, leb, arith, Bool-cases, All,
  All-mono, leb→le,
}
use al_ur_messenger.Prelude.Table.{select, order_by, insert_by, order_by-All}
use al_ur_messenger.Store.{OutboxRow}
use al_ur_messenger.Outbox.{row_of, is_pending, first_row, head}

module _ {ℓ} {A : Type ℓ} where
  insert_by-nil : (key : A → ℕ) (x : A) (rs : List A) → insert_by key x rs ≡ [] → ⊥
  unfolding insert_by
  insert_by-nil key x [] h = ground arith
  insert_by-nil key x (r ∷ rs) h = ground arith

  order_by-nil : (key : A → ℕ) (rs : List A) → order_by key rs ≡ [] → rs ≡ []
  unfolding order_by
  order_by-nil key [] h = refl
  order_by-nil key (r ∷ rs) h = absurd (insert_by-nil key r (order_by key rs) h)

select-All_of {ℓ} :
    (P : OutboxRow → Type ℓ) (p : OutboxRow → Bool) (rs : List OutboxRow)
    → All P (select p rs)
    → All (λ r. p r ≡ true → P r) rs
unfolding select
select-All_of P p [] h = tt
select-All_of P p (r ∷ rs) h = elim (Bool-cases (p r)) [
  | inl hit ↦
      let t : All P (r ∷ select p rs) = rw hit at h in ((λ e. t.0), select-All_of P p rs t.1)
  | inr miss ↦
      let t : All P (select p rs) = rw miss at h in
      ((λ e. absurd (ground arith)), select-All_of P p rs t)
]

-- The row that LIMIT 1 takes comes first.
first-least :
    (rs : List OutboxRow) (r : OutboxRow)
    → first_row (order_by (λ x. x.sequence) rs) ≡ some r
    → All (λ x. r.sequence ≤ x.sequence) rs
unfolding order_by insert_by
first-least [] r h = tt
first-least (x ∷ rs) r h =
    go (order_by (λ y. y.sequence) rs) (first-least rs) (order_by-nil (λ y. y.sequence) rs) h
  where
    go :
        (s : List OutboxRow)
        → ((t : OutboxRow) → first_row s ≡ some t → All (λ y. t.sequence ≤ y.sequence) rs)
        → (s ≡ [] → rs ≡ [])
        → first_row (insert_by (λ y. y.sequence) x s) ≡ some r
        → (r.sequence ≤ x.sequence) × All (λ y. r.sequence ≤ y.sequence) rs
    go [] least empty e =
        let same : x ≡ r = ground arith in (rw same (omega arith), rw (empty refl) tt)
    go (t ∷ s) least empty e = elim (Bool-cases (leb x.sequence t.sequence)) [
      | inl before ↦
          let same : x ≡ r = (let k = rw before at e in ground arith) in
          let le = leb→le x.sequence t.sequence before in
          rw (← same) (
            omega arith,
            All-mono _ (λ y. x.sequence ≤ y.sequence) rs (λ y k. omega arith) (least t refl),
          )
      | inr after ↦
          let same : t ≡ r = (let k = rw after at e in ground arith) in
          rw (← same) (ground arith, least t refl)
    ]

-- A condition on every row holds of the one that is taken.
first_row-All {ℓ} :
    (P : OutboxRow → Type ℓ) (rs : List OutboxRow) (r : OutboxRow)
    → All P rs
    → first_row rs ≡ some r
    → P r
first_row-All P [] r h e = cc
first_row-All P (x ∷ rs) r h e = let same : x ≡ r = ground arith in rw (← same) h.0

select-found : (p : OutboxRow → Bool) (rs : List OutboxRow) → All (λ r. p r ≡ true) (select p rs)
unfolding select
select-found p [] = tt
select-found p (r ∷ rs) = elim (Bool-cases (p r)) [
  | inl hit ↦ rw hit (hit, select-found p rs)
  | inr miss ↦ rw miss (select-found p rs)
]

select-keeps {ℓ} :
    (P : OutboxRow → Type ℓ) (p : OutboxRow → Bool) (rs : List OutboxRow)
    → All P rs
    → All (λ r. (p r ≡ true) × P r) (select p rs)
unfolding select
select-keeps P p [] h = tt
select-keeps P p (r ∷ rs) h = elim (Bool-cases (p r)) [
  | inl hit ↦ rw hit ((hit, h.0), select-keeps P p rs h.1)
  | inr miss ↦ rw miss (select-keeps P p rs h.1)
]

-- The head is pending and in the conversation, and no pending row of it comes earlier.
abbrev pub in_line : ℕ → ℕ → OutboxRow → Bool
in_line project id r = row_of project id r && is_pending r

pub head-All {ℓ} :
    (P : OutboxRow → Type ℓ) (project id : ℕ) (rs : List OutboxRow) (r : OutboxRow)
    → All P rs
    → head project id rs ≡ some r
    → (in_line project id r ≡ true) × P r
unfolding head
head-All P project id rs r h e =
    first_row-All (λ x. (in_line project id x ≡ true) × P x) _ r
      (order_by-All _ _ _ (select-keeps P (in_line project id) rs h)) e

pub head-least :
    (project id : ℕ) (rs : List OutboxRow) (r : OutboxRow)
    → head project id rs ≡ some r
    → All (λ x. in_line project id x ≡ true → r.sequence ≤ x.sequence) rs
unfolding head
head-least project id rs r e =
    select-All_of (λ x. r.sequence ≤ x.sequence) (in_line project id) rs
      (first-least (select (in_line project id) rs) r e)
