-- ===== src/History/Positions.antt =====
-- Every command, with every outcome, keeps the read positions.
use al_ur_messenger.Prelude.{true, false}
use al_ur_messenger.Runtime.{Runtime}
use al_ur_messenger.Identity.{Actor}
use al_ur_messenger.Store.{Db}
use al_ur_messenger.Store.Tx.{after_post}
use al_ur_messenger.Conversation.{Trace}
use al_ur_messenger.Conversation.Services.{
  request_create-Post, request_patch-Post, request_add-Post, request_patch_member-Post,
  request_remove-Post,
}
use al_ur_messenger.Recovery.Receipts.Positions.{HasPositions}
use al_ur_messenger.Recovery.Receipts.Upkeep.{
  create-HasPositions, patch-HasPositions, add_members-HasPositions, patch_member-HasPositions,
  remove_member-HasPositions,
}
use al_ur_messenger.Recovery.Receipts.Invariants.{receipt-HasPositions}
use al_ur_messenger.Message.{Outside}
use al_ur_messenger.Message.Stable.Forwarding.{request_command-keeps}
use al_ur_messenger.Message.Stable.Mutations.{request_edit-keeps, request_delete-keeps}
use al_ur_messenger.Message.Stable.Relations.{request_react-keeps, request_set_pin-keeps}
use al_ur_messenger.Message.Upkeep.{HasPositions-IsStable}
use al_ur_messenger.History.Commands.{
  Command, perform, request_receipt-keeps, creates, patches, adds, patches_member, removes,
  receives, sends, system_sends, edits, deletes, reacts, pins,
}

pub perform-HasPositions :
    (rt : Runtime) (o : Outside) (a : Actor) (t : Trace) (c : Command) (db : Db)
    → HasPositions db
    → HasPositions (perform rt o a t c db)
unfolding perform
perform-HasPositions rt o a t (creates p) db v =
    after_post HasPositions db _ v
      (request_create-Post rt a t db _ p (create-HasPositions rt a p t db v))
perform-HasPositions rt o a t (patches id p) db v =
    after_post HasPositions db _ v
      (request_patch-Post rt a t db _ id p (patch-HasPositions rt a id p t db v))
perform-HasPositions rt o a t (adds id p) db v =
    after_post HasPositions db _ v
      (request_add-Post rt a t db _ id p (add_members-HasPositions rt a id p t db v))
perform-HasPositions rt o a t (patches_member id user p) db v = after_post HasPositions db _ v (
    request_patch_member-Post rt a t db _ id user p
      (patch_member-HasPositions rt a id user p t db v))
perform-HasPositions rt o a t (removes id user) db v =
    after_post HasPositions db _ v
      (request_remove-Post rt a t db _ id user (remove_member-HasPositions rt a id user t db v))
perform-HasPositions rt o a t (receives id kind sequence) db v = after_post HasPositions db _ v (
    request_receipt-keeps HasPositions rt a id kind sequence db
      λ k. receipt-HasPositions rt a id k sequence db v)
perform-HasPositions rt o a t (sends id p) db v =
    after_post HasPositions db _ v
      (request_command-keeps HasPositions HasPositions-IsStable rt o a id p false db v)
perform-HasPositions rt o a t (system_sends id p) db v =
    after_post HasPositions db _ v
      (request_command-keeps HasPositions HasPositions-IsStable rt o a id p true db v)
perform-HasPositions rt o a t (edits id scope p) db v =
    after_post HasPositions db _ v
      (request_edit-keeps HasPositions HasPositions-IsStable rt o a id scope p db v)
perform-HasPositions rt o a t (deletes id scope) db v =
    after_post HasPositions db _ v
      (request_delete-keeps HasPositions HasPositions-IsStable rt o a id scope db v)
perform-HasPositions rt o a t (reacts id scope emoji add) db v =
    after_post HasPositions db _ v
      (request_react-keeps HasPositions HasPositions-IsStable rt o a id scope emoji add db v)
perform-HasPositions rt o a t (pins conversation id add) db v =
    after_post HasPositions db _ v
      (request_set_pin-keeps HasPositions HasPositions-IsStable rt o a conversation id add db v)
