-- ===== src/History.antt =====
-- Sequences of commands on one database. Row and advisory locks make the transactions of the
-- program behave as if they ran one after another; a call that fails has rolled back.
mod Commands
pub mod Finality
mod Moderators
mod Log
mod Positions
mod Sequence
mod Journal
pub use Commands.{
  Command, creates, patches, adds, patches_member, removes, receives, sends, system_sends, edits,
  deletes, reacts, pins,
}
unfoldable pub use Commands.{perform}
use Moderators.{perform-HasModerators}
use Log.{perform-IsLogged}
use Positions.{perform-HasPositions}
use Sequence.{perform-IsSequenced}
use Journal.{perform-Steps}
use al_ur_messenger.Prelude.{◌≡◌, sym, subst}
use al_ur_messenger.Store.{MessageRow}
use al_ur_messenger.Message.Scan.{message_row}
use al_ur_messenger.Message.Journal.{
  Steps, no_step, Steps-trans, Steps-Lasts, journal, Lasts, entry,
}
use al_ur_messenger.Message.Journal.Keeping.{journal-find, journal-find_back}
use al_ur_messenger.Prelude.{ℕ, List, [], ◌∷◌, Option, none, some, true, false, Bool}
use al_ur_messenger.Runtime.{Runtime}
use al_ur_messenger.Result.{err, invalid}
use al_ur_messenger.Prelude.{if◌then◌else◌}
use al_ur_messenger.Identity.{Actor}
use al_ur_messenger.Store.{Db}
use al_ur_messenger.Store.Tx.{after, after_post}
use al_ur_messenger.Conversation.{Create, Patch, AddMembers, MemberPatch, Trace}
use al_ur_messenger.Conversation.Services.{
  request_create, request_patch, request_add, request_patch_member, request_remove,
  request_create-Post, request_patch-Post, request_add-Post, request_patch_member-Post,
  request_remove-Post,
}
use al_ur_messenger.Conversation.Members.Moderators.{
  HasModerators, add_members-HasModerators, patch_member-HasModerators, remove_member-HasModerators,
}
use al_ur_messenger.Conversation.Commands.Moderators.{create-HasModerators, patch-HasModerators}
use al_ur_messenger.Conversation.Logging.{
  create-IsLogged, patch-IsLogged, add_members-IsLogged, patch_member-IsLogged,
  remove_member-IsLogged,
}
use al_ur_messenger.Event.Log.{IsLogged}
use al_ur_messenger.Recovery.Receipts.{ReceiptKind, receipt, request_receipt}
use al_ur_messenger.Recovery.Receipts.Positions.{HasPositions}
use al_ur_messenger.Recovery.Receipts.Upkeep.{
  create-HasPositions, patch-HasPositions, add_members-HasPositions, patch_member-HasPositions,
  remove_member-HasPositions,
}
use al_ur_messenger.Recovery.Receipts.Invariants.{
  receipt-HasPositions, receipt-IsLogged, receipt-HasModerators,
}
use al_ur_messenger.Message.{Send, Edit, Outside}
use al_ur_messenger.Message.Forwarding.{request_command}
use al_ur_messenger.Message.Mutations.{request_edit, request_delete}
use al_ur_messenger.Message.Relations.{request_react, request_set_pin}
use al_ur_messenger.Message.Stable.Forwarding.{request_command-keeps}
use al_ur_messenger.Message.Stable.Mutations.{request_edit-keeps, request_delete-keeps}
use al_ur_messenger.Message.Stable.Relations.{request_react-keeps, request_set_pin-keeps}
use al_ur_messenger.Message.Upkeep.{
  IsLogged-IsStable, HasModerators-IsStable, HasPositions-IsStable,
}
use al_ur_messenger.Message.Sequence.{IsSequenced, IsSequenced-IsStable}
use al_ur_messenger.Message.Sequence.Upkeep.{
  create-IsSequenced, patch-IsSequenced, add_members-IsSequenced, patch_member-IsSequenced,
  remove_member-IsSequenced, receipt-IsSequenced,
}
use al_ur_messenger.Store.Tx.{Post, rolled_back}
use al_ur_messenger.Runtime.{valid_id}
use al_ur_messenger.Recovery.Receipts.{Checkpoint}

-- One call, with the clocks and identifiers of its time and its caller.
pub record Call : Type 0 where
  pub runtime : Runtime
  pub outside : Outside
  pub actor : Actor
  pub trace : Trace
  pub command : Command

unfoldable pub run : List Call → Db → Db
unfolding perform
run [] db = db
run (c ∷ cs) db = run cs (perform c.runtime c.outside c.actor c.trace c.command db)

-- From tables in which every GROUP and CHANNEL has an active member who is a moderator and not
-- banned in it, every sequence of calls of the conversation, membership, receipt and message commands, by
-- any actors and with any outcome, leads to tables in which that still holds.
pub run-HasModerators : (cs : List Call) (db : Db) → HasModerators db → HasModerators (run cs db)
unfolding run
run-HasModerators [] db v = v
run-HasModerators (c ∷ cs) db v =
    run-HasModerators cs _
      (perform-HasModerators c.runtime c.outside c.actor c.trace c.command db v)

-- From tables in which the events of every conversation carry the numbers from 1 to its
-- event_sequence, in order and without a gap, and in which the outbox holds the same events in the
-- same order, every sequence of calls of the conversation, membership, receipt and message commands leads to
-- such tables again, whatever the actors and the outcomes.
pub run-IsLogged : (cs : List Call) (db : Db) → IsLogged db → IsLogged (run cs db)
unfolding run
run-IsLogged [] db v = v
run-IsLogged (c ∷ cs) db v =
    run-IsLogged cs _ (perform-IsLogged c.runtime c.outside c.actor c.trace c.command db v)

-- From tables in which every membership has a read position up to its delivered position and that
-- up to the last message of its conversation, every sequence of calls of the conversation,
-- membership, receipt and message commands leads to such tables again, whatever the actors and the outcomes.
pub run-HasPositions : (cs : List Call) (db : Db) → HasPositions db → HasPositions (run cs db)
unfolding run
run-HasPositions [] db v = v
run-HasPositions (c ∷ cs) db v =
    run-HasPositions cs _ (perform-HasPositions c.runtime c.outside c.actor c.trace c.command db v)

-- From tables in which the messages of every conversation carry the numbers from 1 to its
-- message_sequence, in order and without a gap, every sequence of calls of the conversation,
-- membership, receipt and message commands leads to such tables again, whatever the actors and the
-- outcomes.
pub run-IsSequenced : (cs : List Call) (db : Db) → IsSequenced db → IsSequenced (run cs db)
unfolding run
run-IsSequenced [] db v = v
run-IsSequenced (c ∷ cs) db v =
    run-IsSequenced cs _ (perform-IsSequenced c.runtime c.outside c.actor c.trace c.command db v)

-- From tables in which the messages of every conversation are numbered without a gap, every
-- sequence of calls of the conversation, membership, receipt and message commands, whatever the
-- actors and the outcomes, moves the journal of the messages by its steps: it posts new messages
-- with a fresh identifier, the next number of the conversation and version 1, and changes messages
-- that have not been deleted, to the next version.
pub run-Steps :
    (cs : List Call) (db : Db) → IsSequenced db → Steps (journal db) (journal (run cs db))
unfolding run
run-Steps [] db v = no_step
run-Steps (c ∷ cs) db v =
    Steps-trans _ _ _ (perform-Steps c.runtime c.outside c.actor c.trace db c.command v)
      (run-Steps cs _ (perform-IsSequenced c.runtime c.outside c.actor c.trace c.command db v))

-- From tables in which the messages of every conversation are numbered without a gap, no sequence
-- of calls of the conversation, membership, receipt and message commands loses a message or gives
-- its identifier, conversation, number, author or type to another: its entry in the journal is
-- as it was, or it had not been deleted and has a higher version now.
pub run-Lasts :
    (cs : List Call) (project id : ℕ) (db : Db) (r : MessageRow)
    → IsSequenced db
    → message_row project id db ≡ some r
    → (s : MessageRow) × (message_row project id (run cs db) ≡ some s) × Lasts (entry r) (entry s)
run-Lasts cs project id db r v found =
    let (e, there, lasts) =
      Steps-Lasts project id (journal db) (journal (run cs db)) (entry r) (run-Steps cs db v)
        (journal-find project id db r found) in
    let (s, now, same) = journal-find_back project id (run cs db) e there in
    (s, now, subst (Lasts (entry r)) (sym same) lasts)
