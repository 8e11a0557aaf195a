-- ===== src/Conversation/Access/Patching.antt =====
-- internal/conversation/repository/postgres.go: the checks of Patch.
use al_ur_messenger.Prelude.{ℕ, ◌==◌, [], ◌∷◌, false}
use al_ur_messenger.Result.{guard, fail_if, not_found, banned, unsupported, forbidden, conflict}
use al_ur_messenger.Identity.{Actor}
use al_ur_messenger.Store.{is_direct, is_moderator}
use al_ur_messenger.Store.Tx.{Query}
use al_ur_messenger.Store.Query.{◌>>=◌, ◌>>◌, row, check, pure}
use al_ur_messenger.Conversation.Access.{
  Conversation, lock_project, lock_users, live_conversation, get,
}

unfoldable pub patch_access : Actor → ℕ → ℕ → Query Conversation
unfolding lock_project lock_users get
patch_access a id expected = do
  lock_project a.project_id
  lock_users a (a.user_id ∷ []) false
  locked ← row (live_conversation a.project_id id) not_found
  c ← get a id
  check (fail_if c.membership.banned banned)
  check (fail_if (is_direct c.row.type) unsupported)
  check (guard (is_moderator c.membership.role) forbidden)
  check (guard (c.row.version == expected) conflict)
  pure c
