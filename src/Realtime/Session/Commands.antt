-- ===== src/Realtime/Session/Commands.antt =====
-- Session.command: what a client's frames do.
pub mod Limits
use al_ur_messenger.Prelude.{
  ℕ, Bool, true, false, ◌&&◌, not, List, ◌∷◌, leb, length, if◌then◌else◌, is_some,
}
use al_ur_messenger.Text.{Text}
use al_ur_messenger.Result.{Result, ok, err, invalid}
use al_ur_messenger.Runtime.{Runtime, valid_id}
use al_ur_messenger.Recovery.Receipts.{ReceiptKind}
use al_ur_messenger.Realtime.Connection.{Frame, Command, Reply, enqueue}
use al_ur_messenger.Realtime.Session.{Session, Recovery, Services, lookup, remove, put, say, replay}

-- The payload of a command, as its decoder reads it: `undecodable` if it does not fit.
pub data Body : Type 0 where
  undecodable nothing : Body
  after : ℕ → Body
  request : Text → Body
  sequence : ℕ → Body
  users : List ℕ → Body

pub record Request : Type 0 where
  pub request_id : ℕ
  pub conversation_id : ℕ
  pub command : Command
  pub body : Body

abbrev pub subscribe : Recovery → ℕ → Body → Session → Result (Reply × Session)
subscribe recovery id (after n) s =
    if not (is_some (lookup id s.subscriptions)) && leb 16 (length s.subscriptions)
    then err invalid
    else elim (recovery.replay id n 1) [
      | err e ↦ err e
      | ok r ↦ ok (Reply.subscribed true, record s { subscriptions = put id n s.subscriptions })
    ]
subscribe recovery id _ s = err invalid

abbrev pub unsubscribe : ℕ → Body → Session → Result (Reply × Session)
unsubscribe id nothing s = ok (
  Reply.subscribed false,
  record s {
    subscriptions = remove id s.subscriptions;
    presence_watch = remove id s.presence_watch;
    presence_state = remove id s.presence_state;
    typing_state = remove id s.typing_state;
  },
)
unsubscribe id _ s = err invalid

-- A command on messages, on receipts and on typing changes nothing in the session.
abbrev pub answer : Session → Result Text → Result (Reply × Session)
answer s (err e) = err e
answer s (ok t) = ok (Reply.body t, s)

abbrev pub message_command : Services → Command → ℕ → Body → Session → Result (Reply × Session)
message_command services command id (request t) s = answer s (services.message command id t)
message_command services command id _ s = err invalid

abbrev pub receipt_command : Services → ReceiptKind → ℕ → Body → Session → Result (Reply × Session)
receipt_command services kind id (sequence n) s = answer s (services.receipt id kind n)
receipt_command services kind id _ s = err invalid

abbrev pub typing_command : Services → Bool → ℕ → Body → Session → Result (Reply × Session)
typing_command services start id nothing s = elim (services.typing id start) [
  | err e ↦ err e
  | ok u ↦ ok (Reply.expires_in_ms 5000, s)
]
typing_command services start id _ s = err invalid

abbrev pub watch : Services → ℕ → Body → Session → Result (Reply × Session)
watch services id (users us) s =
    if is_some (lookup id s.subscriptions)
    then elim (services.statuses id us) [
      | err e ↦ err e
      | ok t ↦ ok (Reply.body t, record s { presence_watch = put id us s.presence_watch })
    ]
    else err invalid
watch services id _ s = err invalid

-- The switch of command.
unfoldable pub dispatch : Services → Command → ℕ → Body → Session → Result (Reply × Session)
dispatch services Command.subscribe id b s = subscribe services.recovery id b s
dispatch services Command.unsubscribe id b s = unsubscribe id b s
dispatch services Command.message_read id b s =
    receipt_command services ReceiptKind.read_receipt id b s
dispatch services Command.message_delivered id b s =
    receipt_command services ReceiptKind.delivered_receipt id b s
dispatch services Command.typing_start id b s = typing_command services true id b s
dispatch services Command.typing_stop id b s = typing_command services false id b s
dispatch services Command.presence_watch id b s = watch services id b s
dispatch services Command.other id b s = err invalid
dispatch services command id b s = message_command services command id b s

abbrev pub is_subscribe : Command → Bool
is_subscribe Command.subscribe = true
is_subscribe _ = false

abbrev pub conclude : Services → Request → Session → Result (Reply × Session) → Session
conclude services r s (err e) = say (Frame.failure r.request_id r.conversation_id e) s
conclude services r s (ok (reply, s')) =
    let acked = say (Frame.ack r.request_id r.conversation_id r.command reply) s' in
    if is_subscribe r.command then replay services.recovery r.conversation_id true acked else acked

-- Session.command
unfoldable pub command : Runtime → Services → Request → Session → Session
unfolding replay dispatch enqueue
command rt services r s =
    if valid_id rt r.conversation_id
    then conclude services r s (dispatch services r.command r.conversation_id r.body s)
    else say (Frame.failure r.request_id r.conversation_id invalid) s
