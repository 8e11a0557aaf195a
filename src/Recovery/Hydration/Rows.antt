-- ===== src/Recovery/Hydration/Rows.antt =====
-- The messages that a page reads, as their rows show them.
use al_ur_messenger.Prelude.{
  ℕ, ◌≡◌, refl, subst, inl, inr, Bool, true, false, some, List, [], ◌∷◌, ◌==◌, arith, Bool-cases,
  All,
}
use al_ur_messenger.Prelude.Table.{find, exists, select, find_sound, find-All}
use al_ur_messenger.Runtime.{Runtime}
use al_ur_messenger.Store.{Db, MessageRow, message_of}
use al_ur_messenger.Store.Query.{Gives, bind-Gives, pure-Gives}
use al_ur_messenger.Message.{Message, Outside}
use al_ur_messenger.Message.Scan.Facts.{IsShown, scan-IsShown, shown-IsOf}
use al_ur_messenger.Message.Reading.{scan_all}
use al_ur_messenger.Recovery.Hydration.{named_rows}

-- The message is what the row of its identifier shows now.
pub record IsCurrent (rt : Runtime) (o : Outside) (project id : ℕ) (db : Db) (n : ℕ) (m : Message)
    : Type 0 where
  pub row : MessageRow
  pub found : find (λ x. x.id == n) (select (message_of project id) db.messages) ≡ some row
  pub shown : IsShown rt o project row db m

module _ {R : Type 0} where
  -- A search that the selection does not concern.
  find-select :
      (p q : R → Bool) (rs : List R) (r : R)
      → ((x : R) → p x ≡ true → q x ≡ true)
      → find p (select q rs) ≡ some r
      → find p rs ≡ some r
  unfolding find select
  find-select p q [] r h e = cc
  find-select p q (x ∷ rs) r h e = elim (Bool-cases (q x)) [
    | inl hit ↦ elim (Bool-cases (p x)) [
      | inl mine ↦ rw mine (rw (hit, find, mine) at e)
      | inr other ↦ rw other (find-select p q rs r h (rw (hit, find, other) at e))
    ]
    | inr miss ↦ elim (Bool-cases (p x)) [
      | inl mine ↦ absurd (h x mine) miss
      | inr other ↦ rw other (find-select p q rs r h (rw miss at e))
    ]
  ]
    where
      absurd : {A : Type 0} {b : Bool} → b ≡ true → b ≡ false → A
      absurd e f = cc

  selected : (q : R → Bool) (rs : List R) → All (λ r. q r ≡ true) (select q rs)
  unfolding select
  selected q [] = tt
  selected q (x ∷ rs) = elim (Bool-cases (q x)) [
    | inl hit ↦ rw hit (hit, selected q rs)
    | inr miss ↦ rw miss (selected q rs)
  ]

-- The messages that a scan gives are found as their rows are.
abbrev pub AreShown : Runtime → Outside → ℕ → Db → List MessageRow → List Message → Type 0
AreShown rt o project db rs ms =
    (n : ℕ) (m : Message)
    → find (λ x. x.id == n) ms ≡ some m
    → (r : MessageRow) × (find (λ x. x.id == n) rs ≡ some r) × IsShown rt o project r db m

module _ (rt : Runtime) (o : Outside) (project : ℕ) (db : Db) where
  shown-cons :
      (r : MessageRow) (rs : List MessageRow) (m : Message) (ms : List Message)
      → IsShown rt o project r db m
      → AreShown rt o project db rs ms
      → AreShown rt o project db (r ∷ rs) (m ∷ ms)
  unfolding find
  shown-cons r rs m ms one rest n x e = elim (Bool-cases (m.id == n)) [
    | inl hit ↦ (
      r,
      rw (subst (λ i. (i == n) ≡ true) (shown-IsOf rt o project r db m one).id hit) refl,
      subst (IsShown rt o project r db) (same m x (rw hit at e)) one,
    )
    | inr miss ↦
        rw (subst (λ i. (i == n) ≡ false) (shown-IsOf rt o project r db m one).id miss)
          (rest n x (rw miss at e))
  ]
    where
      same : (m x : Message) → some m ≡ some x → m ≡ x
      same m x e = cc

  nothing_shown : AreShown rt o project db [] []
  unfolding find
  nothing_shown n m e = cc

  pub scan_all-AreShown :
      (rs : List MessageRow) → Gives (AreShown rt o project db rs) (scan_all rt o project rs db)
  unfolding scan_all
  scan_all-AreShown [] = pure-Gives _ [] db nothing_shown
  scan_all-AreShown (r ∷ rs) = bind-Gives _ _ _ db (scan-IsShown rt o project r db) λ m one.
      bind-Gives _ _ _ db (scan_all-AreShown rs)
        λ ms rest. pure-Gives _ (m ∷ ms) db (shown-cons r rs m ms one rest)

  -- The row of a message among those that the events name is the row of the conversation.
  pub named_row :
      (id : ℕ) (ids : List ℕ) (n : ℕ) (r : MessageRow)
      → find (λ x. x.id == n) (named_rows project id ids db) ≡ some r
      → find (λ x. x.id == n) (select (message_of project id) db.messages) ≡ some r
  named_row id ids n r e =
      find-select (λ x. x.id == n) (λ m. exists (λ i. i == m.id) ids)
        (select (message_of project id) db.messages) r
        (λ x k.
          subst (λ i. exists (λ j. j == i) ids ≡ true)
            (one_id r.id x.id n (find_sound (λ x. x.id == n) _ r e) k)
            (find-All (λ m. exists (λ i. i == m.id) ids ≡ true) (λ x. x.id == n) _ r
              (selected (λ m. exists (λ i. i == m.id) ids)
                (select (message_of project id) db.messages))
              e))
        e
    where
      one_id : (x y n : ℕ) → (x == n) ≡ true → (y == n) ≡ true → x ≡ y
      one_id x y n h k = ground arith
