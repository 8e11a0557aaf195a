-- ===== src/Outbox/Runs.antt =====
-- Whole runs of the worker.
use al_ur_messenger.Prelude.{ℕ, List, [], ◌∷◌}
use al_ur_messenger.Store.{OutboxRow}
use al_ur_messenger.Outbox.{Outbox, Attempt, one, candidates, work_through, batch, run}
use al_ur_messenger.Outbox.Order.{IsOrdered, one-IsOrdered}
use al_ur_messenger.Outbox.Delivery.{IsDelivered, one-IsDelivered}

-- What One keeps, a run keeps.
module _ (P : Outbox → Type 0)
    (kept : (now : ℕ) (t : Attempt) (project id : ℕ) (o : Outbox)
      → P o
      → P (one now t project id o).1) where
  work_through-keeps :
      (ts : List (ℕ × Attempt)) (cs : List OutboxRow) (o : Outbox)
      → P o
      → P (work_through ts cs o).1
  unfolding work_through
  work_through-keeps ts [] o h = h
  work_through-keeps [] (c ∷ cs) o h = h
  work_through-keeps ((now, t) ∷ ts) (c ∷ cs) o h =
      work_through-keeps ts cs _ (kept now t c.project_id c.conversation_id o h)

  run-keeps : (bs : List (ℕ × List (ℕ × Attempt))) (o : Outbox) → P o → P (run bs o)
  unfolding run batch
  run-keeps [] o h = h
  run-keeps ((now, ts) ∷ bs) o h =
      run-keeps bs _ (work_through-keeps ts (candidates now o.rows) o h)

-- Whatever the broker, the locks and the commits do, a run of batches keeps the order: if no record
-- of the topic precedes an earlier event of its conversation and none is after a pending event of
-- it, then that holds after the run as well.
pub run-IsOrdered :
    (bs : List (ℕ × List (ℕ × Attempt))) (o : Outbox) → IsOrdered o → IsOrdered (run bs o)
run-IsOrdered = run-keeps IsOrdered one-IsOrdered

-- Whatever the broker, the locks and the commits do, after a run of batches every event that is
-- marked as published is in the topic, if that was so before.
pub run-IsDelivered :
    (bs : List (ℕ × List (ℕ × Attempt))) (o : Outbox) → IsDelivered o → IsDelivered (run bs o)
run-IsDelivered = run-keeps IsDelivered one-IsDelivered
