-- ===== src/History/Sequence.antt =====
-- Every command, with every outcome, keeps the numbers of the messages.
use al_ur_messenger.Prelude.{true, false}
use al_ur_messenger.Runtime.{Runtime}
use al_ur_messenger.Identity.{Actor}
use al_ur_messenger.Store.{Db}
use al_ur_messenger.Store.Tx.{after_post}
use al_ur_messenger.Conversation.{Trace}
use al_ur_messenger.Conversation.Services.{
  request_create-Post, request_patch-Post, request_add-Post, request_patch_member-Post,
  request_remove-Post,
}
use al_ur_messenger.Message.{Outside}
use al_ur_messenger.Message.Stable.Forwarding.{request_command-keeps}
use al_ur_messenger.Message.Stable.Mutations.{request_edit-keeps, request_delete-keeps}
use al_ur_messenger.Message.Stable.Relations.{request_react-keeps, request_set_pin-keeps}
use al_ur_messenger.Message.Sequence.{IsSequenced, IsSequenced-IsStable}
use al_ur_messenger.Message.Sequence.Upkeep.{
  create-IsSequenced, patch-IsSequenced, add_members-IsSequenced, patch_member-IsSequenced,
  remove_member-IsSequenced, receipt-IsSequenced,
}
use al_ur_messenger.History.Commands.{
  Command, perform, request_receipt-keeps, creates, patches, adds, patches_member, removes,
  receives, sends, system_sends, edits, deletes, reacts, pins,
}

pub perform-IsSequenced :
    (rt : Runtime) (o : Outside) (a : Actor) (t : Trace) (c : Command) (db : Db)
    → IsSequenced db
    → IsSequenced (perform rt o a t c db)
unfolding perform
perform-IsSequenced rt o a t (creates p) db v =
    after_post IsSequenced db _ v
      (request_create-Post rt a t db _ p (create-IsSequenced rt a p t db v))
perform-IsSequenced rt o a t (patches id p) db v =
    after_post IsSequenced db _ v
      (request_patch-Post rt a t db _ id p (patch-IsSequenced rt a id p t db v))
perform-IsSequenced rt o a t (adds id p) db v =
    after_post IsSequenced db _ v
      (request_add-Post rt a t db _ id p (add_members-IsSequenced rt a id p t db v))
perform-IsSequenced rt o a t (patches_member id user p) db v = after_post IsSequenced db _ v (
    request_patch_member-Post rt a t db _ id user p
      (patch_member-IsSequenced rt a id user p t db v))
perform-IsSequenced rt o a t (removes id user) db v =
    after_post IsSequenced db _ v
      (request_remove-Post rt a t db _ id user (remove_member-IsSequenced rt a id user t db v))
perform-IsSequenced rt o a t (receives id kind sequence) db v = after_post IsSequenced db _ v (
    request_receipt-keeps IsSequenced rt a id kind sequence db
      λ k. receipt-IsSequenced rt a id k sequence db v)
perform-IsSequenced rt o a t (sends id p) db v =
    after_post IsSequenced db _ v
      (request_command-keeps IsSequenced IsSequenced-IsStable rt o a id p false db v)
perform-IsSequenced rt o a t (system_sends id p) db v =
    after_post IsSequenced db _ v
      (request_command-keeps IsSequenced IsSequenced-IsStable rt o a id p true db v)
perform-IsSequenced rt o a t (edits id scope p) db v =
    after_post IsSequenced db _ v
      (request_edit-keeps IsSequenced IsSequenced-IsStable rt o a id scope p db v)
perform-IsSequenced rt o a t (deletes id scope) db v =
    after_post IsSequenced db _ v
      (request_delete-keeps IsSequenced IsSequenced-IsStable rt o a id scope db v)
perform-IsSequenced rt o a t (reacts id scope emoji add) db v =
    after_post IsSequenced db _ v
      (request_react-keeps IsSequenced IsSequenced-IsStable rt o a id scope emoji add db v)
perform-IsSequenced rt o a t (pins conversation id add) db v =
    after_post IsSequenced db _ v
      (request_set_pin-keeps IsSequenced IsSequenced-IsStable rt o a conversation id add db v)
