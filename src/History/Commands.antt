-- ===== src/History/Commands.antt =====
-- The commands that change the tables of conversations, each through its service.
use al_ur_messenger.Prelude.{ℕ, Option, none, some, true, false, Bool}
use al_ur_messenger.Runtime.{Runtime}
use al_ur_messenger.Result.{err, invalid}
use al_ur_messenger.Prelude.{if◌then◌else◌}
use al_ur_messenger.Identity.{Actor}
use al_ur_messenger.Store.{Db}
use al_ur_messenger.Store.Tx.{after}
use al_ur_messenger.Conversation.{Create, Patch, AddMembers, MemberPatch, Trace}
use al_ur_messenger.Conversation.Services.{
  request_create, request_patch, request_add, request_patch_member, request_remove,
}
use al_ur_messenger.Recovery.Receipts.{ReceiptKind, receipt, request_receipt}
use al_ur_messenger.Message
use al_ur_messenger.Message.{Edit, Outside}
use al_ur_messenger.Message.Forwarding.{request_command}
use al_ur_messenger.Message.Mutations.{request_edit, request_delete}
use al_ur_messenger.Message.Relations.{request_react, request_set_pin}
use al_ur_messenger.Store.Tx.{Post, rolled_back}
use al_ur_messenger.Runtime.{valid_id}
use al_ur_messenger.Recovery.Receipts.{Checkpoint}

pub data Command : Type 0 where
  creates : Create → Command
  patches : ℕ → Patch → Command
  adds : ℕ → AddMembers → Command
  patches_member : ℕ → ℕ → MemberPatch → Command
  removes : ℕ → ℕ → Command
  receives : ℕ → Option ReceiptKind → ℕ → Command
  sends system_sends : ℕ → Message.Command → Command
  edits : ℕ → Option ℕ → Edit → Command
  deletes : ℕ → Option ℕ → Command
  reacts : ℕ → Option ℕ → ℕ → Bool → Command
  pins : ℕ → ℕ → Bool → Command

unfoldable pub perform : Runtime → Outside → Actor → Trace → Command → Db → Db
perform rt o a t (creates p) db = after db (request_create rt a p t db)
perform rt o a t (patches id p) db = after db (request_patch rt a id p t db)
perform rt o a t (adds id p) db = after db (request_add rt a id p t db)
perform rt o a t (patches_member id user p) db = after db (request_patch_member rt a id user p t db)
perform rt o a t (removes id user) db = after db (request_remove rt a id user t db)
perform rt o a t (receives id kind sequence) db =
    after db (request_receipt rt a id kind sequence db)
perform rt o a t (sends id p) db = after db (request_command rt o a id p false db)
perform rt o a t (system_sends id p) db = after db (request_command rt o a id p true db)
perform rt o a t (edits id scope p) db = after db (request_edit rt o a id scope p db)
perform rt o a t (deletes id scope) db = after db (request_delete rt o a id scope db)
perform rt o a t (reacts id scope emoji add) db =
    after db (request_react rt o a id scope emoji add db)
perform rt o a t (pins conversation id add) db =
    after db (request_set_pin rt o a conversation id add db)

-- A request for a receipt keeps what the receipts keep.
pub request_receipt-keeps :
    (P : Db → Type 0) (rt : Runtime) (a : Actor) (id : ℕ) (kind : Option ReceiptKind) (sequence : ℕ)
    (db : Db)
    → ((k : ReceiptKind) → Post (λ _ db'. P db') (receipt rt a id k sequence db))
    → Post (λ _ db'. P db') (request_receipt rt a id kind sequence db)
unfolding request_receipt
request_receipt-keeps P rt a id none sequence db h = rolled_back
request_receipt-keeps P rt a id (some k) sequence db h = go (valid_id rt id)
  where
    go :
        (b : Bool)
        → Post
            (λ (_ : Checkpoint) db'. P db')
            (if b then receipt rt a id k sequence db else err invalid)
    go true = h k
    go false = rolled_back
