-- ===== src/Conversation/Membership.antt =====
-- internal/conversation/repository/membership.go: what each command on memberships checks first.
pub mod Facts
use al_ur_messenger.Prelude.{
  ℕ, Bool, true, false, ◌&&◌, ◌||◌, not, Option, none, some, List, [], ◌∷◌, ◌==◌, is_none, is_some,
}
use al_ur_messenger.Prelude.Table.{find, exists}
use al_ur_messenger.Result.{
  or_fail, guard, fail_if, forbidden, not_found, unsupported, last_moderator, conflict, no_rows,
}
use al_ur_messenger.Identity.{Actor, is_human}
use al_ur_messenger.Store.{
  Db, MemberRow, UserRow, Role, is_moderator, is_direct, member_key, member_of, user_key,
}
use al_ur_messenger.Store.Tx.{Query}
use al_ur_messenger.Store.Query.{◌>>=◌, ◌>>◌, row, check, pure}
use al_ur_messenger.Conversation.{AddMembers, MemberPatch}
use al_ur_messenger.Conversation.Access.{Conversation, membership_tx, active_member}

-- An active, non-banned moderator.
abbrev pub is_acting : MemberRow → Bool
is_acting m = is_moderator m.role && is_none m.left_at && not m.banned

-- keepModerator
unfoldable pub keep_moderator : ℕ → ℕ → ℕ → Query (Unit {0})
keep_moderator project id user db =
    guard
      (exists (λ m. member_of project id m && not (m.user_id == user) && is_acting m) db.members)
      last_moderator

-- The new role is "moderator", and the role is given and is another one.
abbrev pub promotes : MemberPatch → Bool
promotes p = elim p.role [ some (some Role.moderator) ↦ true | _ ↦ false ]

abbrev pub demotes : MemberPatch → Bool
demotes p = elim p.role [ none ↦ false | some (some Role.moderator) ↦ false | some _ ↦ true ]

abbrev pub bans : MemberPatch → Bool
bans p = elim p.banned [ some true ↦ true | _ ↦ false ]

abbrev pub needs_moderator : MemberPatch → Bool
needs_moderator p = is_some p.role || is_some p.banned

abbrev user_kind_row : ℕ → ℕ → Db → Option UserRow
user_kind_row project user db = find (user_key project user) db.users

-- Only a human can be promoted.
check_human : ℕ → ℕ → Bool → Query (Unit {0})
check_human project user false = pure tt
check_human project user true = do
  u ← row (user_kind_row project user) no_rows
  check (guard (is_human u.kind) forbidden)

keep_if_needed : ℕ → ℕ → ℕ → Bool → Query (Unit {0})
keep_if_needed project id user false = pure tt
keep_if_needed project id user true = keep_moderator project id user

unfoldable pub add_access : Actor → ℕ → AddMembers → Query (Unit {0})
unfolding membership_tx
add_access a id p = do
  c ← membership_tx a id p.user_ids true
  check (fail_if (is_direct c.row.type) unsupported)
  check (guard (is_moderator c.membership.role) forbidden)

unfoldable pub patch_access : Actor → ℕ → ℕ → MemberPatch → Query MemberRow
unfolding membership_tx check_human keep_if_needed keep_moderator
patch_access a id user p = do
  c ← membership_tx a id (user ∷ []) false
  check (fail_if (is_direct c.row.type && needs_moderator p) unsupported)
  check (
      fail_if
        ((is_some p.muted && not (user == a.user_id))
          || (needs_moderator p && not (is_moderator c.membership.role)))
        forbidden)
  m ← row (active_member a.project_id id user) not_found
  check (guard (m.version == p.expected_version) conflict)
  check_human a.project_id user (promotes p)
  keep_if_needed a.project_id id user (is_moderator m.role && (demotes p || bans p))
  pure m

unfoldable pub remove_access : Actor → ℕ → ℕ → Query MemberRow
unfolding membership_tx keep_if_needed keep_moderator
remove_access a id user = do
  c ← membership_tx a id (user ∷ []) false
  check (fail_if (is_direct c.row.type) unsupported)
  check (fail_if (not (user == a.user_id) && not (is_moderator c.membership.role)) forbidden)
  m ← row (active_member a.project_id id user) not_found
  keep_if_needed a.project_id id user (is_moderator m.role)
  pure m
