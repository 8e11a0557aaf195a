-- ===== src/Realtime/Session/Commands/Limits.antt =====
-- Commands keep the limits of a session.
use al_ur_messenger.Prelude.{
  ℕ, suc, ◌≡◌, ◌≤◌, refl, inl, inr, Bool, true, false, ◌&&◌, not, leb, length, arith, Bool-cases,
  is_some,
}
use al_ur_messenger.Text.{Text}
use al_ur_messenger.Result.{Result, ok, err}
use al_ur_messenger.Runtime.{Runtime, valid_id}
use al_ur_messenger.Store.Query.{Gives, given, refused}
use al_ur_messenger.Recovery.Receipts.{ReceiptKind}
use al_ur_messenger.Recovery.Replay.{Replay}
use al_ur_messenger.Realtime.Connection.{Command, Reply, enqueue}
use al_ur_messenger.Realtime.Session.{Session, Services, lookup, put}
use al_ur_messenger.Realtime.Session.Limits.{
  IsLimited, say-IsLimited, replay-IsLimited, length-remove, length-put_held, lookup-put,
}
use al_ur_messenger.Realtime.Session.Commands.{
  Body, undecodable, nothing, after, request, sequence, users, Request, subscribe, unsubscribe,
  answer, message_command, receipt_command, typing_command, watch, dispatch, conclude, command,
  is_subscribe,
}

-- The session is within its limits, and a subscription that a command makes is there.
abbrev IsKept : Command → ℕ → Reply × Session → Type 0
IsKept c id (reply, s) =
    IsLimited s × (is_subscribe c ≡ true → is_some (lookup id s.subscriptions) ≡ true)

put-IsLimited :
    (id n : ℕ) (s : Session)
    → IsLimited s
    → (not (is_some (lookup id s.subscriptions)) && leb 16 (length s.subscriptions)) ≡ false
    → IsLimited (record s { subscriptions = put id n s.subscriptions })
put-IsLimited id n s v h = elim (Bool-cases (is_some (lookup id s.subscriptions))) [
  | inl held ↦ record {
    subscribed =
        (let le = length-put_held id n s.subscriptions held in
          let most = v.subscribed in omega arith);
    queued = v.queued;
  }
  | inr new ↦ record {
    subscribed =
        (let le = length-remove id s.subscriptions in
          let room : suc (length s.subscriptions) ≤ 16 = ground arith in omega arith);
    queued = v.queued;
  }
]

module _ (services : Services) (id : ℕ) (s : Session) (v : IsLimited s) where
  subscribe-IsKept :
      (b : Body) → Gives (IsKept Command.subscribe id) (subscribe services.recovery id b s)
  subscribe-IsKept undecodable = refused
  subscribe-IsKept nothing = refused
  subscribe-IsKept (request t) = refused
  subscribe-IsKept (sequence n) = refused
  subscribe-IsKept (users us) = refused
  subscribe-IsKept (after n) =
      elim (Bool-cases
        (not (is_some (lookup id s.subscriptions)) && leb 16 (length s.subscriptions))) [
          | inl full ↦ rw full refused
          | inr room ↦ rw room (go room (services.recovery.replay id n 1))
        ]
    where
      go :
          (not (is_some (lookup id s.subscriptions)) && leb 16 (length s.subscriptions)) ≡ false
          → (o : Result Replay)
          → Gives (IsKept Command.subscribe id) (elim o [
            | err e ↦ err e
            | ok r ↦
                ok (Reply.subscribed true, record s { subscriptions = put id n s.subscriptions })
          ])
      go room (err e) = refused
      go room (ok r) = given (put-IsLimited id n s v room, λ _. lookup-put id n s.subscriptions)

  unsubscribe-IsKept : (b : Body) → Gives (IsKept Command.unsubscribe id) (unsubscribe id b s)
  unsubscribe-IsKept nothing = given (
    record {
      subscribed =
          (let le = length-remove id s.subscriptions in let most = v.subscribed in omega arith);
      queued = v.queued;
    },
    (λ h. absurd (ground arith)),
  )
  unsubscribe-IsKept undecodable = refused
  unsubscribe-IsKept (after n) = refused
  unsubscribe-IsKept (request t) = refused
  unsubscribe-IsKept (sequence n) = refused
  unsubscribe-IsKept (users us) = refused

  answer-IsKept :
      (c : Command) (r : Result Text) → is_subscribe c ≡ false → Gives (IsKept c id) (answer s r)
  answer-IsKept c (err e) other = refused
  answer-IsKept c (ok t) other = given (v, λ h. absurd (ground arith))

  message-IsKept :
      (c : Command) (b : Body)
      → is_subscribe c ≡ false
      → Gives (IsKept c id) (message_command services c id b s)
  message-IsKept c (request t) other = answer-IsKept c _ other
  message-IsKept c undecodable other = refused
  message-IsKept c nothing other = refused
  message-IsKept c (after n) other = refused
  message-IsKept c (sequence n) other = refused
  message-IsKept c (users us) other = refused

  receipt-IsKept :
      (c : Command) (kind : ReceiptKind) (b : Body)
      → is_subscribe c ≡ false
      → Gives (IsKept c id) (receipt_command services kind id b s)
  receipt-IsKept c kind (sequence n) other = answer-IsKept c _ other
  receipt-IsKept c kind undecodable other = refused
  receipt-IsKept c kind nothing other = refused
  receipt-IsKept c kind (after n) other = refused
  receipt-IsKept c kind (request t) other = refused
  receipt-IsKept c kind (users us) other = refused

  typing-IsKept :
      (c : Command) (start : Bool) (b : Body)
      → is_subscribe c ≡ false
      → Gives (IsKept c id) (typing_command services start id b s)
  typing-IsKept c start nothing other = go (services.typing id start)
    where
      go :
          (o : Result (Unit {0}))
          → Gives (IsKept c id) (elim o [ err e ↦ err e | ok u ↦ ok (Reply.expires_in_ms 5000, s) ])
      go (err e) = refused
      go (ok u) = given (v, λ h. absurd (ground arith))
  typing-IsKept c start undecodable other = refused
  typing-IsKept c start (after n) other = refused
  typing-IsKept c start (request t) other = refused
  typing-IsKept c start (sequence n) other = refused
  typing-IsKept c start (users us) other = refused

  watch-IsKept : (b : Body) → Gives (IsKept Command.presence_watch id) (watch services id b s)
  watch-IsKept (users us) = elim (Bool-cases (is_some (lookup id s.subscriptions))) [
    | inr gone ↦ rw gone refused
    | inl held ↦ rw held (go (services.statuses id us))
  ]
    where
      go :
          (o : Result Text)
          → Gives (IsKept Command.presence_watch id) (elim o [
            | err e ↦ err e
            | ok t ↦ ok (Reply.body t, record s { presence_watch = put id us s.presence_watch })
          ])
      go (err e) = refused
      go (ok t) =
          given
            (record { subscribed = v.subscribed; queued = v.queued }, λ h. absurd (ground arith))
  watch-IsKept undecodable = refused
  watch-IsKept nothing = refused
  watch-IsKept (after n) = refused
  watch-IsKept (request t) = refused
  watch-IsKept (sequence n) = refused

  dispatch-IsKept : (c : Command) (b : Body) → Gives (IsKept c id) (dispatch services c id b s)
  unfolding dispatch
  dispatch-IsKept Command.subscribe b = subscribe-IsKept b
  dispatch-IsKept Command.unsubscribe b = unsubscribe-IsKept b
  dispatch-IsKept Command.message_read b =
      receipt-IsKept Command.message_read ReceiptKind.read_receipt b refl
  dispatch-IsKept Command.message_delivered b =
      receipt-IsKept Command.message_delivered ReceiptKind.delivered_receipt b refl
  dispatch-IsKept Command.typing_start b = typing-IsKept Command.typing_start true b refl
  dispatch-IsKept Command.typing_stop b = typing-IsKept Command.typing_stop false b refl
  dispatch-IsKept Command.presence_watch b = watch-IsKept b
  dispatch-IsKept Command.other b = refused
  dispatch-IsKept Command.send_message b = message-IsKept Command.send_message b refl
  dispatch-IsKept Command.edit_message b = message-IsKept Command.edit_message b refl
  dispatch-IsKept Command.delete_message b = message-IsKept Command.delete_message b refl
  dispatch-IsKept Command.add_reaction b = message-IsKept Command.add_reaction b refl
  dispatch-IsKept Command.remove_reaction b = message-IsKept Command.remove_reaction b refl

pub command-IsLimited :
    (rt : Runtime) (services : Services) (r : Request) (s : Session)
    → IsLimited s
    → IsLimited (command rt services r s)
unfolding command enqueue
command-IsLimited rt services r s v = elim (Bool-cases (valid_id rt r.conversation_id)) [
  | inr malformed ↦ rw malformed (say-IsLimited _ s v)
  | inl named ↦ rw named (
      go (dispatch services r.command r.conversation_id r.body s)
        (dispatch-IsKept services r.conversation_id s v r.command r.body))
]
  where
    go :
        (o : Result (Reply × Session))
        → Gives (IsKept r.command r.conversation_id) o
        → IsLimited (conclude services r s o)
    go (err e) k = say-IsLimited _ s v
    go (ok (reply, s')) (given k) = elim (Bool-cases (is_subscribe r.command)) [
      | inl subscribes ↦ rw subscribes (
          replay-IsLimited services.recovery r.conversation_id true _ (k.1 subscribes)
            (say-IsLimited _ s' k.0))
      | inr other ↦ rw other (say-IsLimited _ s' k.0)
    ]
