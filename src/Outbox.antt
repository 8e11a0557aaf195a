-- ===== src/Outbox.antt =====
-- internal/outbox: the worker that publishes committed events, and the router that consumes them.
pub mod Head
pub mod Delivery
pub mod Order
pub mod Runs
pub mod Router
use al_ur_messenger.Prelude.{
  ℕ, suc, ◌+◌, ◌^◌, min, Bool, true, false, ◌&&◌, ◌||◌, not, Option, none, some, List, [], ◌∷◌,
  ◌++◌, ltb, leb, ◌==◌, take, if◌then◌else◌, is_none,
}
use al_ur_messenger.Prelude.Table.{select, exists, order_by, update_first}
use al_ur_messenger.Result.{Result, ok, err, dependency}
use al_ur_messenger.Store.{OutboxRow, Envelope}

-- The table of pending events, and what has reached the broker's topic, the oldest first.
pub record Outbox : Type 0 where
  pub rows : List OutboxRow
  pub topic : List Envelope

-- What happens around one call: the advisory lock is free; the broker acknowledges; the record has
-- arrived although it was not acknowledged; the transaction commits.
pub record Attempt : Type 0 where
  pub locked : Bool
  pub acknowledged : Bool
  pub arrived : Bool
  pub saved : Bool

abbrev pub row_of : ℕ → ℕ → OutboxRow → Bool
row_of project id r = r.project_id == project && r.conversation_id == id

abbrev pub is_pending : OutboxRow → Bool
is_pending r = is_none r.published_at

abbrev pub first_row : List OutboxRow → Option OutboxRow
first_row [] = none
first_row (r ∷ rs) = some r

-- WHERE … published_at IS NULL ORDER BY sequence LIMIT 1
unfoldable pub head : ℕ → ℕ → List OutboxRow → Option OutboxRow
head project id rs =
    first_row (order_by (λ r. r.sequence) (select (λ r. row_of project id r && is_pending r) rs))

abbrev pub backoff : ℕ → ℕ
backoff attempts = min 60 (2 ^ min attempts 6)

abbrev pub failed_at : ℕ → OutboxRow → OutboxRow
failed_at now r = record r {
  attempts = suc r.attempts;
  next_attempt_at = now + backoff r.attempts;
  failed = true;
}

abbrev pub published : ℕ → OutboxRow → OutboxRow
published now r = record r { published_at = some now; attempts = suc r.attempts; failed = false }

-- UPDATE … WHERE event_id=$1
unfoldable pub update_row : (OutboxRow → OutboxRow) → ℕ → List OutboxRow → List OutboxRow
update_row f id rs = update_first (λ r. r.event_id == id) f rs

abbrev pub send_to : Bool → Envelope → List Envelope → List Envelope
send_to arrives e topic = if arrives then topic ++ e ∷ [] else topic

-- The rest of One, on the head that it has locked.
unfoldable pub publish : ℕ → Attempt → OutboxRow → Outbox → Result Bool × Outbox
unfolding update_row
publish now t r o =
    if t.acknowledged
    then (
      if t.saved then ok true else err dependency,
      record {
        rows = if t.saved then update_row (published now) r.event_id o.rows else o.rows;
        topic = send_to true r.envelope o.topic;
      },
    )
    else (
      err dependency,
      record {
        rows = if t.saved then update_row (failed_at now) r.event_id o.rows else o.rows;
        topic = send_to t.arrived r.envelope o.topic;
      },
    )

abbrev pub publish_head : ℕ → Attempt → Outbox → Option OutboxRow → Result Bool × Outbox
publish_head now t o none = (ok false, o)
publish_head now t o (some r) =
    if leb r.next_attempt_at now then publish now t r o else (ok false, o)

-- Worker.One at the database's time `now`.
unfoldable pub one : ℕ → Attempt → ℕ → ℕ → Outbox → Result Bool × Outbox
unfolding head publish
one now t project id o =
    if t.locked then publish_head now t o (head project id o.rows) else (ok false, o)

-- A ready row with no pending row before it in its conversation.
abbrev pub is_candidate : ℕ → List OutboxRow → OutboxRow → Bool
is_candidate now rs o =
    is_pending o
    && leb o.next_attempt_at now
    && not (
        exists
          (λ h.
            row_of o.project_id o.conversation_id h && is_pending h && ltb h.sequence o.sequence)
          rs)

unfoldable pub candidates : ℕ → List OutboxRow → List OutboxRow
candidates now rs = take 32 (
    order_by (λ r. r.next_attempt_at)
      (order_by (λ r. r.event_id) (select (is_candidate now rs) rs)))

abbrev pub is_progress : Result Bool → Bool
is_progress (ok b) = b
is_progress (err e) = false

-- The loop of Batch, which gives up when its context ends; here, when no attempt is left.
unfoldable pub work_through : List (ℕ × Attempt) → List OutboxRow → Outbox → Bool × Outbox
unfolding one
work_through ts [] o = (false, o)
work_through [] (c ∷ cs) o = (false, o)
work_through ((now, t) ∷ ts) (c ∷ cs) o =
    let (r, o') = one now t c.project_id c.conversation_id o in
    let (rest, o'') = work_through ts cs o' in (is_progress r || rest, o'')

-- Worker.Batch
unfoldable pub batch : ℕ → List (ℕ × Attempt) → Outbox → Bool × Outbox
unfolding candidates work_through
batch now ts o = work_through ts (candidates now o.rows) o

-- The batches of Run, each with the clock of its query and the attempts that it makes.
unfoldable pub run : List (ℕ × List (ℕ × Attempt)) → Outbox → Outbox
unfolding batch
run [] o = o
run ((now, ts) ∷ bs) o = run bs (batch now ts o).1
