-- ===== src/Policy/Access.antt =====
-- Store.Update of the policy, up to the comparison of versions.
use al_ur_messenger.Prelude.{ℕ, ◌==◌, is_none}
use al_ur_messenger.Result.{guard, forbidden, unauthenticated, banned, conflict, no_rows}
use al_ur_messenger.Identity.{Actor}
use al_ur_messenger.Store.{SettingsRow}
use al_ur_messenger.Store.Tx.{Query}
use al_ur_messenger.Store.Query.{◌>>=◌, ◌>>◌, row, check, pure}
use al_ur_messenger.Conversation.Access.{project_row, settings_row}
use al_ur_messenger.Recovery.Access.{user_row}

unfoldable pub update_access : Actor → ℕ → Query SettingsRow
update_access a expected = do
  p ← row (project_row a.project_id) no_rows
  check (guard p.active unauthenticated)
  u ← row (user_row a.project_id a.user_id) no_rows
  check (guard (is_none u.banned_at) banned)
  check (guard u.admin forbidden)
  s ← row (settings_row a.project_id) no_rows
  check (guard (s.version == expected) conflict)
  pure s
