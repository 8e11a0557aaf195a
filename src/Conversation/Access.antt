-- ===== src/Conversation/Access.antt =====
-- The reads that authorize a conversation command: lockProject, lockUsers, get and membershipTx of
-- internal/conversation/repository. Row locks order transactions, which run one after another here.
pub mod Facts
pub mod Patching
use al_ur_messenger.Prelude.{
  ℕ, suc, Bool, true, false, ◌&&◌, ◌||◌, not, Option, none, some, List, [], ◌∷◌, ◌==◌, length,
  if◌then◌else◌, is_none,
}
use al_ur_messenger.Prelude.Table.{find, select, order_by, keep_if}
use al_ur_messenger.Result.{
  Result, ok, err, Error, or_fail, guard, fail_if, unauthenticated, banned, forbidden, not_found,
  feature_disabled, no_rows,
}
use al_ur_messenger.Identity.{Actor, Kind, is_human, is_bot, is_system}
use al_ur_messenger.Store.{
  Db, ProjectRow, UserRow, ConversationRow, MemberRow, SettingsRow, Flag, conversation_key,
  member_key,
}
use al_ur_messenger.Store.Tx.{Query}
use al_ur_messenger.Store.Query.{◌>>=◌, ◌>>◌, row, check, pure}
use al_ur_messenger.Conversation.{contains}

abbrev pub project_row : ℕ → Db → Option ProjectRow
project_row project db = find (λ p. p.id == project) db.projects

abbrev pub settings_row : ℕ → Db → Option SettingsRow
settings_row project db = find (λ s. s.project_id == project) db.settings

-- lockProject
unfoldable pub lock_project : ℕ → Query (Unit {0})
lock_project project = do
  p ← row (project_row project) unauthenticated
  check (guard p.active unauthenticated)

-- The loop over the locked rows: how many there are, and whether one is a bot.
unfoldable pub scan_users : Actor → List UserRow → ℕ → Bool → Result (ℕ × Bool)
scan_users a [] count bots = ok (count, bots)
scan_users a (u ∷ us) count bots =
    if u.id == a.user_id && not (is_none u.banned_at)
    then err banned
    else if u.id == a.user_id && not (is_human u.kind)
    then err forbidden
    else if is_system u.kind
    then err forbidden
    else scan_users a us (suc count) (bots || is_bot u.kind)

bots_allowed : ℕ → Bool → Query (Unit {0})
bots_allowed project false = pure tt
bots_allowed project true = do
  s ← row (settings_row project) no_rows
  check (guard (s.flags Flag.allow_bots) feature_disabled)

abbrev listed_users : ℕ → List ℕ → Db → List UserRow
listed_users project ids db =
    order_by (λ u. u.id) (select (λ u. u.project_id == project && contains u.id ids) db.users)

-- lockUsers
unfoldable pub lock_users : Actor → List ℕ → Bool → Query (Unit {0})
unfolding scan_users bots_allowed
lock_users a ids inviting = do
  (count, bots) ← λ db. scan_users a (listed_users a.project_id ids db) 0 false
  check (guard (count == length ids) not_found)
  bots_allowed a.project_id (bots && inviting)

-- conversation.Conversation: the row with the caller's own membership.
pub record Conversation : Type 0 where
  pub row : ConversationRow
  pub membership : MemberRow

-- The primary key finds one row at most; the other conditions are tested on it.
abbrev pub active_member : ℕ → ℕ → ℕ → Db → Option MemberRow
active_member project id user db =
    keep_if (λ m. is_none m.left_at) (find (member_key project id user) db.members)

abbrev pub live_conversation : ℕ → ℕ → Db → Option ConversationRow
live_conversation project id db =
    keep_if (λ c. is_none c.deleted_at) (find (conversation_key project id) db.conversations)

abbrev pub active_project : ℕ → Db → Option ProjectRow
active_project project db = keep_if (λ p. p.active) (project_row project db)

-- get: the projection joins the conversation, its active Project and the caller's membership.
unfoldable pub get : Actor → ℕ → Query Conversation
get a id = do
  c ← row (live_conversation a.project_id id) not_found
  p ← row (active_project a.project_id) not_found
  m ← row (active_member a.project_id id a.user_id) not_found
  pure (record { row = c; membership = m })

-- The distinct identifiers that membershipTx locks, sorted.
unfoldable pub unique_sorted : List ℕ → List ℕ
unfolding contains
unique_sorted [] = []
unique_sorted (x ∷ xs) =
    let rest = unique_sorted xs in if contains x rest then rest else order_by (λ y. y) (x ∷ rest)

-- membershipTx
unfoldable pub membership_tx : Actor → ℕ → List ℕ → Bool → Query Conversation
unfolding lock_project lock_users unique_sorted get
membership_tx a id others inviting = do
  lock_project a.project_id
  lock_users a (unique_sorted (a.user_id ∷ others)) inviting
  locked ← row (live_conversation a.project_id id) not_found
  c ← get a id
  check (fail_if c.membership.banned banned)
  pure c
