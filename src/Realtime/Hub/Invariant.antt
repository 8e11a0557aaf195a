-- ===== src/Realtime/Hub/Invariant.antt =====
-- The hub counts the connections that it holds, and holds 10,000 at most.
use al_ur_messenger.Prelude.{
  ℕ, suc, ◌≡◌, ◌≤◌, refl, inl, inr, Bool, true, false, ◌||◌, not, List, [], ◌∷◌, map, leb, ◌==◌,
  length, arith, Bool-cases,
}
use al_ur_messenger.Prelude.Table.{select, exists, update_first}
use al_ur_messenger.Realtime.Connection.{Connection}
use al_ur_messenger.Realtime.Hub.{
  Entry, Hub, add, identify, leave, wake_entry, wake, drain_entry, drain, Step, adds, identifies,
  leaves, wakes, drains, has_entry, step, run,
}

-- Every entry has another name.
abbrev pub AreDistinct : List Entry → Type 0
AreDistinct [] = Unit
AreDistinct (e ∷ es) = (exists (λ x. x.id == e.id) es ≡ false) × AreDistinct es

pub record IsCounted (h : Hub) : Type 0 where
  pub distinct : AreDistinct h.entries
  pub counted : h.joined ≡ length h.entries
  pub bounded : length h.entries ≤ 10000

-- A change of the entries that keeps their names.
map-exists :
    (f : Entry → Entry) (id : ℕ) (es : List Entry)
    → ((e : Entry) → (f e).id ≡ e.id)
    → exists (λ x. x.id == id) (map f es) ≡ exists (λ x. x.id == id) es
unfolding exists
map-exists f id [] same = refl
map-exists f id (e ∷ es) same = rw (same e, map-exists f id es same) refl

map-AreDistinct :
    (f : Entry → Entry) (es : List Entry)
    → ((e : Entry) → (f e).id ≡ e.id)
    → AreDistinct es
    → AreDistinct (map f es)
map-AreDistinct f [] same h = tt
map-AreDistinct f (e ∷ es) same h =
    (rw (same e, map-exists f e.id es same) h.0, map-AreDistinct f es same h.1)

length-map : (f : Entry → Entry) (es : List Entry) → length (map f es) ≡ length es
length-map f [] = refl
length-map f (e ∷ es) = omega (arith, length-map f es)

map-IsCounted :
    (f : Entry → Entry) (d : Bool) (h : Hub)
    → ((e : Entry) → (f e).id ≡ e.id)
    → IsCounted h
    → IsCounted (record h { entries = map f h.entries; draining = d })
map-IsCounted f d h same v = record {
  distinct = map-AreDistinct f h.entries same v.distinct;
  counted = let n = length-map f h.entries in let k = v.counted in omega arith;
  bounded = let n = length-map f h.entries in let k = v.bounded in omega arith;
}

-- The update of one entry keeps the names as well.
update-exists :
    (p : Entry → Bool) (f : Entry → Entry) (id : ℕ) (es : List Entry)
    → ((e : Entry) → (f e).id ≡ e.id)
    → exists (λ x. x.id == id) (update_first p f es) ≡ exists (λ x. x.id == id) es
unfolding exists update_first
update-exists p f id [] same = refl
update-exists p f id (e ∷ es) same = elim (Bool-cases (p e)) [
  | inl hit ↦ rw hit (rw (same e) refl)
  | inr miss ↦ rw miss (rw (update-exists p f id es same) refl)
]

update-AreDistinct :
    (p : Entry → Bool) (f : Entry → Entry) (es : List Entry)
    → ((e : Entry) → (f e).id ≡ e.id)
    → AreDistinct es
    → AreDistinct (update_first p f es)
unfolding update_first
update-AreDistinct p f [] same h = tt
update-AreDistinct p f (e ∷ es) same h = elim (Bool-cases (p e)) [
  | inl hit ↦ rw hit (rw (same e) h.0, h.1)
  | inr miss ↦ rw miss (rw (update-exists p f e.id es same) h.0, update-AreDistinct p f es same h.1)
]

length-update :
    (p : Entry → Bool) (f : Entry → Entry) (es : List Entry)
    → length (update_first p f es) ≡ length es
unfolding update_first
length-update p f [] = refl
length-update p f (e ∷ es) = ground (arith, length-update p f es)

-- Leaving takes the one entry of the name.
others_stay :
    (id : ℕ) (es : List Entry)
    → exists (λ x. x.id == id) es ≡ false
    → select (λ x. not (x.id == id)) es ≡ es
unfolding exists select
others_stay id [] h = refl
others_stay id (e ∷ es) h = ground (arith, others_stay id es)

length-leave :
    (id : ℕ) (es : List Entry)
    → AreDistinct es
    → exists (λ x. x.id == id) es ≡ true
    → suc (length (select (λ x. not (x.id == id)) es)) ≡ length es
unfolding exists select
length-leave id [] d h = absurd (ground arith)
length-leave id (e ∷ es) d h = elim (Bool-cases (e.id == id)) [
  | inl hit ↦
      let same : e.id ≡ id = ground arith in rw hit (rw (others_stay id es (rw same at d.0)) refl)
  | inr miss ↦ rw miss (omega (arith, length-leave id es d.1 (rw miss at h)))
]

exists-leave :
    (id j : ℕ) (es : List Entry)
    → exists (λ x. x.id == j) es ≡ false
    → exists (λ x. x.id == j) (select (λ x. not (x.id == id)) es) ≡ false
unfolding exists select
exists-leave id j [] h = refl
exists-leave id j (e ∷ es) h = ground (arith, exists-leave id j es)

leave-AreDistinct :
    (id : ℕ) (es : List Entry) → AreDistinct es → AreDistinct (select (λ x. not (x.id == id)) es)
unfolding select
leave-AreDistinct id [] d = tt
leave-AreDistinct id (e ∷ es) d = elim (Bool-cases (e.id == id)) [
  | inl hit ↦ rw hit (leave-AreDistinct id es d.1)
  | inr miss ↦ rw miss (exists-leave id e.id es d.0, leave-AreDistinct id es d.1)
]

wake_entry-id : (project : ℕ) (e : Entry) → (wake_entry project e).id ≡ e.id
wake_entry-id project e = elim (Bool-cases (e.project == project)) [
  | inl hit ↦ rw hit refl
  | inr miss ↦ rw miss refl
]

room_lem : (d : Bool) (n : ℕ) → (d || leb 10000 n) ≡ false → suc n ≤ 10000
room_lem d n h = ground arith

add-IsCounted :
    (id : ℕ) (c : Connection) (h : Hub)
    → has_entry id h ≡ false
    → IsCounted h
    → IsCounted (add id c h).1
unfolding add
add-IsCounted id c h new v = elim (Bool-cases (h.draining || leb 10000 (length h.entries))) [
  | inl full ↦ rw full v
  | inr room ↦ rw room (record {
    distinct = (new, v.distinct);
    counted = let k = v.counted in omega arith;
    bounded = room_lem h.draining (length h.entries) room;
  })
]

leave-IsCounted : (id : ℕ) (h : Hub) → has_entry id h ≡ true → IsCounted h → IsCounted (leave id h)
unfolding leave
leave-IsCounted id h held v =
    let n = length-leave id h.entries v.distinct held in
    record {
      distinct = leave-AreDistinct id h.entries v.distinct;
      counted = let k = v.counted in omega arith;
      bounded = let k = v.bounded in omega arith;
    }

step-IsCounted : (s : Step) (h : Hub) → IsCounted h → IsCounted (step s h)
unfolding step identify wake drain
step-IsCounted (adds id c) h v = elim (Bool-cases (has_entry id h)) [
  | inl old ↦ rw old v
  | inr new ↦ rw new (add-IsCounted id c h new v)
]
step-IsCounted (identifies id project) h v = record {
  distinct =
      update-AreDistinct (λ e. e.id == id) (λ e. record e { project = project }) h.entries
        (λ e. refl) v.distinct;
  counted =
      (let n = length-update (λ e. e.id == id) (λ e. record e { project = project }) h.entries in
        let k = v.counted in omega arith);
  bounded =
      (let n = length-update (λ e. e.id == id) (λ e. record e { project = project }) h.entries in
        let k = v.bounded in omega arith);
}
step-IsCounted (leaves id) h v = elim (Bool-cases (has_entry id h)) [
  | inl held ↦ rw held (leave-IsCounted id h held v)
  | inr gone ↦ rw gone v
]
step-IsCounted (wakes project) h v =
    map-IsCounted (wake_entry project) h.draining h (wake_entry-id project) v
step-IsCounted drains h v = map-IsCounted drain_entry true h (λ e. refl) v

-- From a hub whose counter is the number of its connections, which have different names and are
-- 10,000 at most, every sequence of joining, identifying, leaving, waking and draining leads to such
-- a hub again.
pub run-IsCounted : (ss : List Step) (h : Hub) → IsCounted h → IsCounted (run ss h)
unfolding run
run-IsCounted [] h v = v
run-IsCounted (s ∷ ss) h v = run-IsCounted ss (step s h) (step-IsCounted s h v)
