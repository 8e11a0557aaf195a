-- ===== src/Outbox/Delivery.antt =====
-- An event is only marked as published once the broker has it.
use al_ur_messenger.Prelude.{
  ℕ, ◌≡◌, refl, inl, inr, Bool, true, false, Option, none, some, List, [], ◌∷◌, ◌++◌, leb, ◌==◌,
  arith, Bool-cases, All, All-mono,
}
use al_ur_messenger.Prelude.Table.{
  exists, find_sound, exists-append, exists-append_right, update_first-All,
}
use al_ur_messenger.Store.{OutboxRow, Envelope}
use al_ur_messenger.Outbox.{
  Outbox, Attempt, is_pending, head, failed_at, published, update_row, send_to, publish,
  publish_head, one,
}
use al_ur_messenger.Outbox.Head.{head-All}

abbrev pub has_arrived : ℕ → List Envelope → Bool
has_arrived event topic = exists (λ e. e.id == event) topic

-- The row has the identifier of its envelope, and is in the topic if it is marked as published.
abbrev pub HasArrived : List Envelope → OutboxRow → Type 0
HasArrived topic r =
    (r.envelope.id ≡ r.event_id) × (is_pending r ≡ false → has_arrived r.event_id topic ≡ true)

abbrev pub IsDelivered : Outbox → Type 0
IsDelivered o = All (HasArrived o.topic) o.rows

sent-IsDelivered :
    (arrives : Bool) (e : Envelope) (o : Outbox)
    → IsDelivered o
    → IsDelivered (record o { topic = send_to arrives e o.topic })
sent-IsDelivered false e o v = v
sent-IsDelivered true e o v =
    All-mono (HasArrived o.topic) (HasArrived (o.topic ++ e ∷ [])) o.rows
      (λ r h. (h.0, λ k. exists-append _ o.topic (e ∷ []) (h.1 k))) v

-- The record that has just been sent is there.
sent-has_arrived :
    (e : Envelope) (topic : List Envelope) → has_arrived e.id (send_to true e topic) ≡ true
unfolding exists
sent-has_arrived e topic = exists-append_right _ topic (e ∷ []) (ground arith)

published-IsDelivered :
    (now : ℕ) (r : OutboxRow) (o : Outbox)
    → r.envelope.id ≡ r.event_id
    → IsDelivered o
    → IsDelivered (record {
      rows = update_row (published now) r.event_id o.rows;
      topic = send_to true r.envelope o.topic;
    })
unfolding update_row
published-IsDelivered now r o named v =
    update_first-All (HasArrived (send_to true r.envelope o.topic)) (λ x. x.event_id == r.event_id)
      (published now) o.rows
      (λ x found h.
        let same : x.event_id ≡ r.envelope.id =
          (let k = find_sound (λ y. y.event_id == r.event_id) o.rows x found in ground arith) in
        (h.0, λ _. rw same (sent-has_arrived r.envelope o.topic)))
      (sent-IsDelivered true r.envelope o v)

failed-IsDelivered :
    (now id : ℕ) (o : Outbox)
    → IsDelivered o
    → IsDelivered (record o { rows = update_row (failed_at now) id o.rows })
unfolding update_row
failed-IsDelivered now id o v =
    update_first-All (HasArrived o.topic) (λ x. x.event_id == id) (failed_at now) o.rows
      (λ x found h. h) v

publish-IsDelivered :
    (now : ℕ) (t : Attempt) (o : Outbox) (r : OutboxRow)
    → r.envelope.id ≡ r.event_id
    → IsDelivered o
    → IsDelivered (publish now t r o).1
unfolding publish
publish-IsDelivered now t o r named v = elim (Bool-cases t.acknowledged) [
  | inl acked ↦ elim (Bool-cases t.saved) [
    | inl kept ↦ rw (acked, kept) (published-IsDelivered now r o named v)
    | inr lost ↦ rw (acked, lost) (sent-IsDelivered true r.envelope o v)
  ]
  | inr failed ↦ elim (Bool-cases t.saved) [
    | inl kept ↦
        rw (failed, kept)
          (failed-IsDelivered now r.event_id _ (sent-IsDelivered t.arrived r.envelope o v))
    | inr lost ↦ rw (failed, lost) (sent-IsDelivered t.arrived r.envelope o v)
  ]
]

pub one-IsDelivered :
    (now : ℕ) (t : Attempt) (project id : ℕ) (o : Outbox)
    → IsDelivered o
    → IsDelivered (one now t project id o).1
unfolding one
one-IsDelivered now t project id o v = elim (Bool-cases t.locked) [
  | inr busy ↦ rw busy v
  | inl free ↦ rw free (go (head project id o.rows) refl)
]
  where
    go :
        (h : Option OutboxRow) → head project id o.rows ≡ h → IsDelivered (publish_head now t o h).1
    go none e = v
    go (some r) e = elim (Bool-cases (leb r.next_attempt_at now)) [
      | inl ready ↦
          let named = (head-All (HasArrived o.topic) project id o.rows r v e).1.0 in
          rw ready (publish-IsDelivered now t o r named v)
      | inr waiting ↦ rw waiting v
    ]
