-- ===== src/Policy.antt =====
-- internal/policy/policy.go and internal/policy/repository/postgres.go: the settings of a Project.
-- The column blacklist_policy only ever holds "reject" and is left out.
pub mod Access
pub mod Facts
pub mod Versions
use al_ur_messenger.Prelude.{
  ℕ, suc, ◌*◌, ◌≡◌, Bool, true, false, ◌&&◌, ◌||◌, not, Option, none, some, List, [], ◌∷◌, ◌++◌,
  ltb, ◌==◌, if◌then◌else◌, is_none, is_some,
}
use al_ur_messenger.Prelude.Table.{find, update_first, order_by}
use al_ur_messenger.Result.{
  Result, ok, err, guard, fail_if, invalid, forbidden, unauthenticated, banned, conflict, no_rows,
}
use al_ur_messenger.Runtime.{Runtime}
use al_ur_messenger.Identity.{Actor}
use al_ur_messenger.Store.{
  Db, ProjectRow, SettingsRow, UserRow, Flag, SettingsField, flag_field, max_upload_field,
  retention_field, blacklist_enabled_field, blacklist_policy_field, Action, user_key,
}
use al_ur_messenger.Store.Tx.{Tx, Query, ◌>>=◌, ◌>>◌, query, check, write, commit, draw}
use al_ur_messenger.Conversation.{Trace}
use al_ur_messenger.Conversation.Audit.{log_audit}
use al_ur_messenger.Policy.Access.{update_access}

-- The rank of a name among the names of flags and fields.
abbrev pub flag_rank : Flag → ℕ
flag_rank Flag.allow_bots = 0
flag_rank Flag.allow_delete = 1
flag_rank Flag.allow_edit = 2
flag_rank Flag.allow_forward = 3
flag_rank Flag.allow_images = 4
flag_rank Flag.allow_pin = 5
flag_rank Flag.allow_reactions = 6
flag_rank Flag.allow_reply = 7
flag_rank Flag.allow_webhooks = 8
flag_rank Flag.presence_enabled = 13
flag_rank Flag.read_receipts = 14
flag_rank Flag.typing_enabled = 15

abbrev field_rank : SettingsField → ℕ
field_rank (flag_field f) = flag_rank f
field_rank blacklist_enabled_field = 9
field_rank blacklist_policy_field = 10
field_rank max_upload_field = 11
field_rank retention_field = 12

-- policy.Patch. A flag is `none` for any name outside FlagNames, and its value for null; the policy
-- of the blacklist is given by whether it is "reject".
pub record Patch : Type 0 where
  pub expected_version : ℕ
  pub flags : List (Option Flag × Option Bool)
  pub max_upload_size : Option ℕ
  pub retention_days : Option ℕ
  pub blacklist_enabled : Option Bool
  pub blacklist_policy : Option Bool

abbrev pub no_flags : List (Option Flag × Option Bool) → Bool
no_flags [] = true
no_flags (x ∷ xs) = false

abbrev pub within : ℕ → Option ℕ → Bool
within most none = true
within most (some n) = not (ltb n 1 || ltb most n)

abbrev pub is_reject : Option Bool → Bool
is_reject none = true
is_reject (some b) = b

abbrev pub known_flags : List (Option Flag × Option Bool) → Bool
known_flags [] = true
known_flags ((f, v) ∷ fs) = is_some f && is_some v && known_flags fs

-- Patch.Validate
unfoldable pub validate : Patch → Result (Unit {0})
validate p =
    guard
      (not (
          ltb p.expected_version 1
          || (no_flags p.flags
              && is_none p.max_upload_size
              && is_none p.retention_days
              && is_none p.blacklist_enabled
              && is_none p.blacklist_policy))
        && within (50 * 1024 * 1024) p.max_upload_size
        && within 3650 p.retention_days
        && is_reject p.blacklist_policy
        && known_flags p.flags)
      invalid

abbrev flag_names : List (Option Flag × Option Bool) → List SettingsField
flag_names [] = []
flag_names ((none, v) ∷ fs) = flag_names fs
flag_names ((some f, v) ∷ fs) = flag_field f ∷ flag_names fs

abbrev if_given {ℓ} : {A : Type ℓ} → Option A → SettingsField → List SettingsField
if_given none f = []
if_given (some a) f = f ∷ []

-- Patch.Fields
unfoldable pub fields : Patch → List SettingsField
fields p = order_by field_rank (
    flag_names p.flags
    ++ (if_given p.max_upload_size max_upload_field
        ++ (if_given p.retention_days retention_field
            ++ (if_given p.blacklist_enabled blacklist_enabled_field
                ++ if_given p.blacklist_policy blacklist_policy_field))))

abbrev pub set_flag : (Flag → Bool) → Option Flag × Option Bool → Flag → Bool
set_flag old (some f, some v) g = if flag_rank f == flag_rank g then v else old g
set_flag old _ g = old g

unfoldable pub set_flags : (Flag → Bool) → List (Option Flag × Option Bool) → Flag → Bool
set_flags old [] = old
set_flags old (x ∷ xs) = set_flags (set_flag old x) xs

abbrev pub given_or {ℓ} : {A : Type ℓ} → A → Option A → A
given_or old none = old
given_or old (some v) = v

abbrev pub patched : Patch → SettingsRow → SettingsRow
patched p s = record s {
  flags = set_flags s.flags p.flags;
  max_upload_size = given_or s.max_upload_size p.max_upload_size;
  retention_days = given_or s.retention_days p.retention_days;
  blacklist_enabled = given_or s.blacklist_enabled p.blacklist_enabled;
  version = suc s.version;
}

abbrev pub bump_policy : ProjectRow → ProjectRow
bump_policy p = record p { policy_version = suc p.policy_version }

unfoldable pub write_settings : ℕ → Patch → Db → Db
write_settings project p db = record db {
  settings = update_first (λ s. s.project_id == project) (patched p) db.settings;
  projects = update_first (λ r. r.id == project) bump_policy db.projects;
}

-- Store.Update
unfoldable pub update : Runtime → Actor → Patch → Trace → Tx SettingsRow
unfolding validate update_access write_settings log_audit fields
update rt a p trace = do
  check (guard a.admin forbidden)
  check (validate p)
  s ← query (update_access a p.expected_version)
  write (write_settings a.project_id p)
  id ← draw rt
  write (
      log_audit (record {
        id = id;
        project_id = a.project_id;
        actor_id = a.user_id;
        action = Action.settings_updated (fields p);
        resource_id = a.project_id;
        ip = trace.ip;
        request_id = trace.request_id;
      }))
  commit (patched p s)

-- Service.Update
unfoldable pub request_update : Runtime → Actor → Patch → Trace → Tx SettingsRow
unfolding validate update
request_update rt a p trace = do
  check (guard a.admin forbidden)
  check (fail_if a.is_banned banned)
  check (validate p)
  update rt a p trace
