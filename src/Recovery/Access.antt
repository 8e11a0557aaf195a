-- ===== src/Recovery/Access.antt =====
-- The reads that authorize a receipt and a replay.
use al_ur_messenger.Prelude.{ℕ, Option, ltb, is_none}
use al_ur_messenger.Prelude.Table.{find}
use al_ur_messenger.Result.{guard, fail_if, not_found, no_rows, banned, invalid}
use al_ur_messenger.Identity.{Actor}
use al_ur_messenger.Store.{Db, MemberRow, UserRow, user_key}
use al_ur_messenger.Store.Tx.{Query}
use al_ur_messenger.Store.Query.{◌>>=◌, ◌>>◌, row, check, pure}
use al_ur_messenger.Conversation.Access.{
  active_project, settings_row, live_conversation, active_member,
}

abbrev pub user_row : ℕ → ℕ → Db → Option UserRow
user_row project user db = find (user_key project user) db.users

-- Receipt, up to the bound on the sequence. The flag read_receipts is read and not used.
unfoldable pub receipt_access : Actor → ℕ → ℕ → Query MemberRow
receipt_access a id sequence = do
  p ← row (active_project a.project_id) not_found
  s ← row (settings_row a.project_id) not_found
  u ← row (user_row a.project_id a.user_id) no_rows
  check (guard (is_none u.banned_at) banned)
  c ← row (live_conversation a.project_id id) not_found
  m ← row (active_member a.project_id id a.user_id) not_found
  check (fail_if m.banned banned)
  check (fail_if (ltb c.message_sequence sequence) invalid)
  pure m

-- readAccess
unfoldable pub read_access : Actor → ℕ → Query (Unit {0})
read_access a id = do
  c ← row (live_conversation a.project_id id) not_found
  p ← row (active_project a.project_id) not_found
  m ← row (active_member a.project_id id a.user_id) not_found
  pure tt
