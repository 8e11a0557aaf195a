-- ===== src/Outbox/Router.antt =====
-- internal/outbox/router.go: Kafka records become hints to reread a conversation.
use al_ur_messenger.Prelude.{
  ℕ, ◌≡◌, refl, ap, subst, inl, inr, Bool, true, false, ◌&&◌, not, Option, none, some, List, [],
  ◌∷◌, ◌++◌, ltb, ◌==◌, if◌then◌else◌, arith, Bool-cases,
}
use al_ur_messenger.Prelude.Table.{exists, exists-append_right}
use al_ur_messenger.Result.{Result, Error, ok, err, invalid, dependency}
use al_ur_messenger.Runtime.{Runtime, valid_id}
use al_ur_messenger.Store.{EventRow, Envelope, event_of}

-- chat.consumer_inbox of this consumer, and what has been published on the hint channel.
pub record Routing : Type 0 where
  pub inbox : List ℕ
  pub hints : List (ℕ × ℕ)

-- A Kafka record: what encoding/json reads of it, with event_version, and whether PostgreSQL holds
-- its value for equal to the JSON of an envelope.
pub record Record : Type 0 where
  pub key : ℕ
  pub size : ℕ
  pub decoded : Option (ℕ × Envelope)
  pub is_json_of : Envelope → Bool

abbrev is_for : Runtime → Record → ℕ → Envelope → Bool
is_for rt r version e =
    not (ltb 131072 r.size)
    && version == 1
    && e.aggregate_id == r.key
    && valid_id rt e.id
    && valid_id rt e.project_id
    && valid_id rt e.aggregate_id

-- The envelope of a record that passes the first two tests of Handle.
abbrev pub reference : Runtime → Record → Option Envelope
reference rt r = elim r.decoded [
  | none ↦ none
  | some (version, e) ↦ if is_for rt r version e then some e else none
]

abbrev pub is_recorded : List EventRow → Record → Envelope → Bool
is_recorded events r e =
    exists
      (λ x.
        event_of e.project_id e.aggregate_id x
        && x.sequence == e.sequence
        && x.id == e.id
        && r.is_json_of x.envelope)
      events

abbrev pub is_seen : ℕ → Routing → Bool
is_seen event s = exists (λ i. i == event) s.inbox

-- Redis publishes the hint, or not; then the transaction commits, or not.
abbrev deliver : Bool → Bool → Envelope → Routing → Result (Unit {0}) × Routing
deliver false saved e s = (err dependency, s)
deliver true false e s =
    (err dependency, record s { hints = s.hints ++ (e.project_id, e.aggregate_id) ∷ [] })
deliver true true e s = (
  ok tt,
  record { inbox = s.inbox ++ e.id ∷ []; hints = s.hints ++ (e.project_id, e.aggregate_id) ∷ [] },
)

abbrev handle_event :
    List EventRow → Bool → Bool → Record → Routing → Option Envelope → Result (Unit {0}) × Routing
handle_event events redis saved r s none = (err invalid, s)
handle_event events redis saved r s (some e) =
    if is_seen e.id s
    then (if saved then ok tt else err dependency, s)
    else if is_recorded events r e
    then deliver redis saved e s
    else (err invalid, s)

-- Router.Handle, where `redis` and `saved` say whether Redis answers and the commit succeeds.
unfoldable pub handle :
    Runtime → List EventRow → Bool → Bool → Record → Routing → Result (Unit {0}) × Routing
handle rt events redis saved r s = handle_event events redis saved r s (reference rt r)

abbrev failure : Error → Result (Unit {0})
failure e = err e

refused : (e : Error) → failure e ≡ ok tt → ⊥
refused e k = ground arith

seen_event :
    (rt : Runtime) (events : List EventRow) (redis : Bool) (r : Record) (s s' : Routing)
    (e : Envelope)
    → handle_event events redis true r s (some e) ≡ (ok tt, s')
    → is_seen e.id s' ≡ true
unfolding exists
seen_event rt events redis r s s' e h = elim (Bool-cases (is_seen e.id s)) [
  | inl seen ↦ let same : s ≡ s' = (let t = rw seen at h in ap (λ x. x.1) t) in rw (← same) seen
  | inr new ↦ elim (Bool-cases (is_recorded events r e)) [
    | inr unknown ↦ let t = rw (new, unknown) at h in absurd (refused invalid (ap (λ x. x.0) t))
    | inl known ↦ let t = rw (new, known) at h in delivered redis t
  ]
]
  where
    delivered : (b : Bool) → deliver b true e s ≡ (ok tt, s') → is_seen e.id s' ≡ true
    delivered false k = absurd (refused dependency (ap (λ x. x.0) k))
    delivered true k =
        let same = ap (λ x. x.1) k in
        subst (λ x. is_seen e.id x ≡ true) same
          (exists-append_right _ s.inbox (e.id ∷ []) (ground arith))

-- A record that has been handled is in the inbox, and gives no further hint: handling it again, with
-- or without Redis, changes nothing and succeeds if the commit does.
pub handle_again :
    (rt : Runtime) (events events' : List EventRow) (redis redis' : Bool) (r : Record)
    (s s' : Routing)
    → handle rt events redis true r s ≡ (ok tt, s')
    → handle rt events' redis' true r s' ≡ (ok tt, s')
unfolding handle
handle_again rt events events' redis redis' r s s' h = go (reference rt r) h
  where
    go :
        (o : Option Envelope)
        → handle_event events redis true r s o ≡ (ok tt, s')
        → handle_event events' redis' true r s' o ≡ (ok tt, s')
    go none k = absurd (refused invalid (ap (λ x. x.0) k))
    go (some e) k = rw (seen_event rt events redis r s s' e k) refl

-- What handling a record leaves: nothing new; a hint for the conversation of an event of the record
-- that the database holds; or that hint with the event in the inbox.
pub data AreNew (events : List EventRow) (r : Record) (s s' : Routing) : Type 0 where
  nothing_new : s' ≡ s → AreNew events r s s'
  hinted :
      (e : Envelope)
      → is_recorded events r e ≡ true
      → s'.hints ≡ s.hints ++ (e.project_id, e.aggregate_id) ∷ []
      → s'.inbox ≡ s.inbox
      → AreNew events r s s'
  received :
      (e : Envelope)
      → is_recorded events r e ≡ true
      → s'.hints ≡ s.hints ++ (e.project_id, e.aggregate_id) ∷ []
      → s'.inbox ≡ s.inbox ++ e.id ∷ []
      → AreNew events r s s'

-- Whatever record comes and whatever fails, handling it changes nothing, or publishes one hint, for
-- an event of the record that the database holds; and only with that hint the event enters the
-- inbox.
pub handle_hints :
    (rt : Runtime) (events : List EventRow) (redis saved : Bool) (r : Record) (s : Routing)
    → AreNew events r s (handle rt events redis saved r s).1
unfolding handle
handle_hints rt events redis saved r s = go (reference rt r)
  where
    sent :
        (b k : Bool) (e : Envelope)
        → is_recorded events r e ≡ true
        → AreNew events r s (deliver b k e s).1
    sent false k e known = nothing_new refl
    sent true false e known = hinted e known refl refl
    sent true true e known = received e known refl refl

    go : (o : Option Envelope) → AreNew events r s (handle_event events redis saved r s o).1
    go none = nothing_new refl
    go (some e) = elim (Bool-cases (is_seen e.id s)) [
      | inl seen ↦ rw seen (nothing_new refl)
      | inr new ↦ elim (Bool-cases (is_recorded events r e)) [
        | inr unknown ↦ rw (new, unknown) (nothing_new refl)
        | inl known ↦ rw (new, known) (sent redis saved e known)
      ]
    ]
