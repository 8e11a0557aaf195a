-- ===== src/History/Journal.antt =====
-- Every command, with every outcome, follows the journal of the messages.
use al_ur_messenger.Prelude.{refl, true, false}
use al_ur_messenger.Runtime.{Runtime}
use al_ur_messenger.Identity.{Actor}
use al_ur_messenger.Store.{Db}
use al_ur_messenger.Store.Tx.{after_post}
use al_ur_messenger.Conversation.{Trace}
use al_ur_messenger.Conversation.Services.{
  request_create-Post, request_patch-Post, request_add-Post, request_patch_member-Post,
  request_remove-Post,
}
use al_ur_messenger.Message.{Outside}
use al_ur_messenger.Message.Stable.Forwarding.{request_command-keeps}
use al_ur_messenger.Message.Stable.Mutations.{request_edit-keeps, request_delete-keeps}
use al_ur_messenger.Message.Stable.Relations.{request_react-keeps, request_set_pin-keeps}
use al_ur_messenger.Message.Sequence.{IsSequenced}
use al_ur_messenger.Message.Journal.{Steps, journal, no_step}
use al_ur_messenger.Message.Journal.Keeping.{Follows, Follows-IsStable, follows_same}
use al_ur_messenger.Message.Journal.Upkeep.{
  SameMessages, create-SameMessages, patch-SameMessages, add_members-SameMessages,
  patch_member-SameMessages, remove_member-SameMessages, receipt-SameMessages,
}
use al_ur_messenger.History.Commands.{
  Command, perform, request_receipt-keeps, creates, patches, adds, patches_member, removes,
  receives, sends, system_sends, edits, deletes, reacts, pins,
}

module _ (rt : Runtime) (o : Outside) (a : Actor) (t : Trace) (db : Db) where
  -- A command that leaves the messages takes no step.
  quiet : (db' : Db) → SameMessages db db' → Steps (journal db) (journal db')
  quiet db' e = follows_same db db db' e no_step

  started : IsSequenced db → Follows db db
  started v = (v, no_step)

  pub perform-Steps :
      (c : Command) → IsSequenced db → Steps (journal db) (journal (perform rt o a t c db))
  unfolding perform
  perform-Steps (creates p) v = quiet _ (
      after_post (SameMessages db) db _ refl
        (request_create-Post rt a t db _ p (create-SameMessages db rt a p t db refl)))
  perform-Steps (patches id p) v = quiet _ (
      after_post (SameMessages db) db _ refl
        (request_patch-Post rt a t db _ id p (patch-SameMessages db rt a id p t db refl)))
  perform-Steps (adds id p) v = quiet _ (
      after_post (SameMessages db) db _ refl
        (request_add-Post rt a t db _ id p (add_members-SameMessages db rt a id p t db refl)))
  perform-Steps (patches_member id user p) v = quiet _ (
      after_post (SameMessages db) db _ refl (
        request_patch_member-Post rt a t db _ id user p
          (patch_member-SameMessages db rt a id user p t db refl)))
  perform-Steps (removes id user) v = quiet _ (
      after_post (SameMessages db) db _ refl (
        request_remove-Post rt a t db _ id user
          (remove_member-SameMessages db rt a id user t db refl)))
  perform-Steps (receives id kind sequence) v = quiet _ (
      after_post (SameMessages db) db _ refl (
        request_receipt-keeps (SameMessages db) rt a id kind sequence db
          λ k. receipt-SameMessages db rt a id k sequence db refl))
  perform-Steps (sends id p) v =
      (after_post (Follows db) db _ (started v) (
        request_command-keeps (Follows db) (Follows-IsStable db) rt o a id p false db
          (started v))).1
  perform-Steps (system_sends id p) v =
      (after_post (Follows db) db _ (started v) (
        request_command-keeps (Follows db) (Follows-IsStable db) rt o a id p true db (started v))).1
  perform-Steps (edits id scope p) v =
      (after_post (Follows db) db _ (started v)
        (request_edit-keeps (Follows db) (Follows-IsStable db) rt o a id scope p db (started v))).1
  perform-Steps (deletes id scope) v =
      (after_post (Follows db) db _ (started v)
        (request_delete-keeps (Follows db) (Follows-IsStable db) rt o a id scope db (started v))).1
  perform-Steps (reacts id scope emoji add) v =
      (after_post (Follows db) db _ (started v) (
        request_react-keeps (Follows db) (Follows-IsStable db) rt o a id scope emoji add db
          (started v))).1
  perform-Steps (pins conversation id add) v =
      (after_post (Follows db) db _ (started v) (
        request_set_pin-keeps (Follows db) (Follows-IsStable db) rt o a conversation id add db
          (started v))).1
