-- ===== src/Realtime/Hub/Draining.antt =====
-- A hub that drains takes no more connections and has asked every one that it holds to close.
use Prim.Native.String.{String}
use al_ur_messenger.Prelude.{
  ℕ, ◌≡◌, refl, sym, ap, subst, false, inl, inr, true, List, [], ◌∷◌, map, ◌==◌, arith, Bool-cases,
  is_some, All,
}
use al_ur_messenger.Prelude.Table.{select-All, update_first-All}
use al_ur_messenger.Realtime.Connection.{Connection, stop}
use al_ur_messenger.Realtime.Hub.{
  Entry, Hub, add, identify, leave, wake_entry, wake, drain_entry, drain, Step, adds, identifies,
  leaves, wakes, drains, has_entry, step, run,
}

abbrev IsAsked : Entry → Type 0
IsAsked e = is_some e.connection.closing ≡ true

pub record IsDraining (h : Hub) : Type 0 where
  pub draining : h.draining ≡ true
  pub asked : All IsAsked h.entries

map-All :
    (f : Entry → Entry) (es : List Entry)
    → ((e : Entry) → IsAsked e → IsAsked (f e))
    → All IsAsked es
    → All IsAsked (map f es)
map-All f [] k h = tt
map-All f (e ∷ es) k h = (k e h.0, map-All f es k h.1)

stop-asks :
    (code : ℕ) (reason : String) (c : Connection) → is_some (stop code reason c).closing ≡ true
unfolding stop
stop-asks code reason c = ground arith

drain-All : (es : List Entry) → All IsAsked (map drain_entry es)
drain-All [] = tt
drain-All (e ∷ es) = (stop-asks 1001 "SERVER_DRAINING" e.connection, drain-All es)

drain-IsDraining : (h : Hub) → IsDraining (drain h)
unfolding drain
drain-IsDraining h = record { draining = refl; asked = drain-All h.entries }

add-refused : (id : ℕ) (c : Connection) (h : Hub) → h.draining ≡ true → add id c h ≡ (false, h)
unfolding add
add-refused id c h d = rw d refl

wake_entry-IsAsked : (project : ℕ) (e : Entry) → IsAsked e → IsAsked (wake_entry project e)
wake_entry-IsAsked project e h = elim (Bool-cases (e.project == project)) [
  | inl hit ↦ rw hit h
  | inr miss ↦ rw miss h
]

step-IsDraining : (s : Step) (h : Hub) → IsDraining h → IsDraining (step s h)
unfolding step identify leave wake
step-IsDraining (adds id c) h v = elim (Bool-cases (has_entry id h)) [
  | inl old ↦ rw old v
  | inr new ↦ rw new (subst IsDraining (sym (ap (λ x. x.1) (add-refused id c h v.draining))) v)
]
step-IsDraining (identifies id project) h v = record {
  draining = v.draining;
  asked =
      update_first-All IsAsked (λ e. e.id == id) (λ e. record e { project = project }) h.entries
        (λ e found k. k) v.asked;
}
step-IsDraining (leaves id) h v = elim (Bool-cases (has_entry id h)) [
  | inl held ↦
      rw held (record { draining = v.draining; asked = select-All IsAsked _ h.entries v.asked })
  | inr gone ↦ rw gone v
]
step-IsDraining (wakes project) h v = record {
  draining = v.draining;
  asked = map-All (wake_entry project) h.entries (wake_entry-IsAsked project) v.asked;
}
step-IsDraining drains h v = drain-IsDraining h

keeps_IsDraining : (ss : List Step) (h : Hub) → IsDraining h → IsDraining (run ss h)
unfolding run
keeps_IsDraining [] h v = v
keeps_IsDraining (s ∷ ss) h v = keeps_IsDraining ss (step s h) (step-IsDraining s h v)

-- Once a hub drains, it stays so whatever is done with it: every connection that it holds has a
-- request to close, and any connection that asks to join then is refused and changes nothing.
pub run-IsDraining :
    (ss : List Step) (h : Hub) (id : ℕ) (c : Connection)
    → IsDraining (run ss (drain h)) × (add id c (run ss (drain h)) ≡ (false, run ss (drain h)))
run-IsDraining ss h id c =
    let v : IsDraining (run ss (drain h)) = keeps_IsDraining ss (drain h) (drain-IsDraining h) in
    (v, add-refused id c (run ss (drain h)) v.draining)
