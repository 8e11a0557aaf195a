-- ===== src/Outbox/Order.antt =====
-- The order in which the events of a conversation reach the topic, and what is marked as published.
use al_ur_messenger.Prelude.{
  ℕ, ◌≡◌, ◌≤◌, refl, inl, inr, Bool, true, false, ◌&&◌, Option, none, some, List, [], ◌∷◌, ◌++◌,
  leb, ◌==◌, arith, Bool-cases, All, All-mono, All-append,
}
use al_ur_messenger.Prelude.Table.{update_first-All}
use al_ur_messenger.Store.{OutboxRow, Envelope}
use al_ur_messenger.Outbox.{
  Outbox, Attempt, head, failed_at, published, update_row, send_to, publish, publish_head, one,
}
use al_ur_messenger.Outbox.Head.{in_line, head-All, head-least}

-- The row names what its envelope names.
abbrev pub IsRow : OutboxRow → Type 0
IsRow r =
    (r.envelope.project_id ≡ r.project_id)
    × (r.envelope.aggregate_id ≡ r.conversation_id)
    × (r.envelope.sequence ≡ r.sequence)

abbrev pub same_conversation : Envelope → Envelope → Bool
same_conversation e f = e.project_id == f.project_id && e.aggregate_id == f.aggregate_id

-- An event that has reached the topic is not after a pending one of its conversation.
abbrev pub IsDue : Envelope → OutboxRow → Type 0
IsDue e r = in_line e.project_id e.aggregate_id r ≡ true → e.sequence ≤ r.sequence

-- Two records of one conversation in the topic: the later one is no earlier event.
abbrev pub IsBefore : Envelope → Envelope → Type 0
IsBefore e f = same_conversation e f ≡ true → e.sequence ≤ f.sequence

abbrev pub InOrder : List Envelope → Type 0
InOrder [] = Unit
InOrder (e ∷ es) = All (IsBefore e) es × InOrder es

pub record IsOrdered (o : Outbox) : Type 0 where
  pub rows : All IsRow o.rows
  pub due : All (λ e. All (IsDue e) o.rows) o.topic
  pub topic : InOrder o.topic

InOrder-append :
    (es : List Envelope) (e : Envelope)
    → InOrder es
    → All (λ f. IsBefore f e) es
    → InOrder (es ++ e ∷ [])
InOrder-append [] e h k = (tt, tt)
InOrder-append (f ∷ es) e h k =
    (All-append (IsBefore f) es (e ∷ []) h.0 (k.0, tt), InOrder-append es e h.1 k.1)

-- The update of a row by the worker makes nothing pending and keeps what the row names.
abbrev Settles : (OutboxRow → OutboxRow) → Type 0
Settles f =
    (r : OutboxRow)
    → (IsRow r → IsRow (f r))
      × ((project id : ℕ) → in_line project id (f r) ≡ true → in_line project id r ≡ true)
      × ((f r).sequence ≡ r.sequence)

published-Settles : (now : ℕ) → Settles (published now)
published-Settles now r = ((λ h. h), (λ project id h. ground arith), refl)

failed_at-Settles : (now : ℕ) → Settles (failed_at now)
failed_at-Settles now r = ((λ h. h), (λ project id h. h), refl)

updated-IsOrdered :
    (f : OutboxRow → OutboxRow) (id : ℕ) (o : Outbox)
    → Settles f
    → IsOrdered o
    → IsOrdered (record o { rows = update_row f id o.rows })
unfolding update_row
updated-IsOrdered f id o settles v = record {
  rows = update_first-All IsRow (λ r. r.event_id == id) f o.rows (λ r e. (settles r).0) v.rows;
  due =
      All-mono (λ e. All (IsDue e) o.rows) (λ e. All (IsDue e) (update_row f id o.rows)) o.topic
        (λ e.
          update_first-All (IsDue e) (λ r. r.event_id == id) f o.rows
            (λ r found h line.
              let le = h ((settles r).1 e.project_id e.aggregate_id line) in
              let same = (settles r).2 in omega arith))
        v.due;
  topic = v.topic;
}

-- The event of a head may go to the topic.
sent-IsOrdered :
    (arrives : Bool) (project id : ℕ) (o : Outbox) (r : OutboxRow)
    → head project id o.rows ≡ some r
    → IsOrdered o
    → IsOrdered (record o { topic = send_to arrives r.envelope o.topic })
sent-IsOrdered false project id o r h v = v
sent-IsOrdered true project id o r h v = record {
  rows = v.rows;
  due = All-append (λ e. All (IsDue e) o.rows) o.topic _ v.due (r_due, tt);
  topic =
      InOrder-append o.topic r.envelope v.topic
        (All-mono (λ e. All (IsDue e) o.rows) (λ f. IsBefore f r.envelope) o.topic before v.due);
}
  where
    named : (in_line project id r ≡ true) × IsRow r
    named = head-All IsRow project id o.rows r v.rows h

    r_due : All (IsDue r.envelope) o.rows
    r_due =
        let here = named in
        All-mono (λ x. in_line project id x ≡ true → r.sequence ≤ x.sequence) (IsDue r.envelope)
          o.rows (λ x k line. let le = k (ground arith) in omega arith)
          (head-least project id o.rows r h)

    before : (f : Envelope) → All (IsDue f) o.rows → IsBefore f r.envelope
    before f due same =
        let at = head-All (IsDue f) project id o.rows r due h in
        let here = named in let le = at.1 (ground arith) in omega arith

publish-IsOrdered :
    (now : ℕ) (t : Attempt) (project id : ℕ) (o : Outbox) (r : OutboxRow)
    → head project id o.rows ≡ some r
    → IsOrdered o
    → IsOrdered (publish now t r o).1
unfolding publish
publish-IsOrdered now t project id o r h v = elim (Bool-cases t.acknowledged) [
  | inl acked ↦ elim (Bool-cases t.saved) [
    | inl kept ↦
        rw (acked, kept)
          (updated-IsOrdered (published now) r.event_id _ (published-Settles now)
            (sent-IsOrdered true project id o r h v))
    | inr lost ↦ rw (acked, lost) (sent-IsOrdered true project id o r h v)
  ]
  | inr failed ↦ elim (Bool-cases t.saved) [
    | inl kept ↦
        rw (failed, kept)
          (updated-IsOrdered (failed_at now) r.event_id _ (failed_at-Settles now)
            (sent-IsOrdered t.arrived project id o r h v))
    | inr lost ↦ rw (failed, lost) (sent-IsOrdered t.arrived project id o r h v)
  ]
]

pub one-IsOrdered :
    (now : ℕ) (t : Attempt) (project id : ℕ) (o : Outbox)
    → IsOrdered o
    → IsOrdered (one now t project id o).1
unfolding one
one-IsOrdered now t project id o v = elim (Bool-cases t.locked) [
  | inr busy ↦ rw busy v
  | inl free ↦ rw free (go (head project id o.rows) refl)
]
  where
    go : (h : Option OutboxRow) → head project id o.rows ≡ h → IsOrdered (publish_head now t o h).1
    go none e = v
    go (some r) e = elim (Bool-cases (leb r.next_attempt_at now)) [
      | inl ready ↦ rw ready (publish-IsOrdered now t project id o r e v)
      | inr waiting ↦ rw waiting v
    ]
