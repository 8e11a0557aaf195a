-- ===== src/Recovery/Replay.antt =====
-- RecoveryStore.Replay: a page of the changefeed after a cursor. Hydration adds the messages that the
-- events name.
pub mod Window
pub mod Paging
pub mod Privacy
use al_ur_messenger.Prelude.{
  ℕ, suc, Bool, true, false, ◌&&◌, ◌||◌, not, Option, none, some, List, [], ◌∷◌, ltb, leb, ◌==◌,
  length, take, if◌then◌else◌,
}
use al_ur_messenger.Prelude.Table.{find, select, order_by}
use al_ur_messenger.Result.{Result, ok, err, guard, fail_if, resync, no_rows, invalid}
use al_ur_messenger.Runtime.{Runtime, valid_id}
use al_ur_messenger.Identity.{Actor}
use al_ur_messenger.Store.{
  Db, ConversationRow, EventRow, EventType, Envelope, Flag, Payload, payload_user, conversation_key,
  event_of,
}
use al_ur_messenger.Store.Tx.{Query}
use al_ur_messenger.Store.Query.{◌>>=◌, ◌>>◌, row, check, pure}
use al_ur_messenger.Conversation.Access.{settings_row}
use al_ur_messenger.Recovery.Access.{read_access}

-- message.Replay
pub record Replay : Type 0 where
  pub events : List Envelope
  pub through : ℕ
  pub high : ℕ
  pub more : Bool

abbrev pub is_receipt : EventType → Bool
is_receipt EventType.message_read = true
is_receipt EventType.message_delivered = true
is_receipt _ = false

-- e.Payload["user_id"] == a.User.ID
abbrev pub names_user : ℕ → Payload → Bool
names_user user p = elim (payload_user p) [ none ↦ false | some u ↦ u == user ]

-- The receipt of another user while receipts are off.
abbrev pub is_hidden : Bool → ℕ → Envelope → Bool
is_hidden receipts user e = not receipts && is_receipt e.kind && not (names_user user e.payload)

abbrev pub blank : Envelope → Envelope
blank e = record e { kind = EventType.sync_advance; payload = Payload.empty_payload }

abbrev pub shown : Bool → ℕ → Envelope → Envelope
shown receipts user e = if is_hidden receipts user e then blank e else e

-- The loop over the rows, from the position `through`, with the position that it reaches.
unfoldable pub collect : Bool → ℕ → ℕ → List EventRow → Result (List Envelope × ℕ)
collect receipts user through [] = ok ([], through)
collect receipts user through (r ∷ rs) =
    let rest = collect receipts user r.envelope.sequence rs in
    if r.envelope.sequence == suc through
    then elim rest [ err e ↦ err e | ok (es, t) ↦ ok (shown receipts user r.envelope ∷ es, t) ]
    else err resync

abbrev pub in_window : ℕ → ℕ → EventRow → Bool
in_window after high r = ltb after r.sequence && leb r.sequence high

abbrev pub window_rows : ℕ → ℕ → ℕ → ℕ → ℕ → Db → List EventRow
window_rows project id after high limit db = take limit (
    order_by (λ r. r.sequence)
      (select (λ r. event_of project id r && in_window after high r) db.events))

abbrev pub any_conversation : ℕ → ℕ → Db → Option ConversationRow
any_conversation project id db = find (conversation_key project id) db.conversations

-- Store.Replay, without the messages
unfoldable pub replay_window : Actor → ℕ → ℕ → ℕ → Query Replay
unfolding read_access collect
replay_window a id after limit = do
  allowed ← read_access a id
  c ← row (any_conversation a.project_id id) no_rows
  s ← row (settings_row a.project_id) no_rows
  check (fail_if (ltb c.event_sequence after) resync)
  (events, through) ← λ db.
      collect (s.flags Flag.read_receipts) a.user_id after
        (window_rows a.project_id id after c.event_sequence limit db)
  check (fail_if (ltb through c.event_sequence && ltb (length events) limit) resync)
  pure (record {
    events = events;
    through = through;
    high = c.event_sequence;
    more = ltb through c.event_sequence;
  })
