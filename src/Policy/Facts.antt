-- ===== src/Policy/Facts.antt =====
-- What an update of the settings checks and writes.
use al_ur_messenger.Prelude.{
  ℕ, ◌≡◌, ◌≤◌, refl, Bool, true, ◌&&◌, Option, none, some, ◌==◌, arith, is_none, All,
}
use al_ur_messenger.Prelude.Table.{update_first, update_first-All}
use al_ur_messenger.Result.{ok, guard, invalid}
use al_ur_messenger.Runtime.{Runtime}
use al_ur_messenger.Identity.{Actor}
use al_ur_messenger.Store.{Db, SettingsRow, UserRow}
use al_ur_messenger.Store.Tx.{
  Post, Post-mono, after, after_post, check->>=, write->>=, draw->>=, commit-Post,
}
use al_ur_messenger.Store.Query.{Gives, Gives->>=, row-Gives, check-Gives, pure-Gives}
use al_ur_messenger.Conversation.{Trace}
use al_ur_messenger.Conversation.Access.{settings_row}
use al_ur_messenger.Conversation.Audit.{log_audit}
use al_ur_messenger.Recovery.Access.{user_row}
use al_ur_messenger.Policy.Access.{update_access}
use al_ur_messenger.Policy.{
  Patch, validate, patched, write_settings, update, within, given_or, known_flags, is_reject,
}

-- The caller's row is of an administrator who is not banned, and the settings have the version that
-- the caller expects.
pub record CanUpdate (a : Actor) (expected : ℕ) (db : Db) (s : SettingsRow) : Type 0 where
  pub user : UserRow
  pub known : user_row a.project_id a.user_id db ≡ some user
  pub welcome : is_none user.banned_at ≡ true
  pub administers : user.admin ≡ true
  pub found : settings_row a.project_id db ≡ some s
  pub current : s.version ≡ expected

update_access-CanUpdate :
    (a : Actor) (expected : ℕ) (db : Db)
    → Gives (CanUpdate a expected db) (update_access a expected db)
unfolding update_access
update_access-CanUpdate a expected db = row-Gives _ _ _ _ db λ p _. check-Gives _ _ _ db λ active.
    row-Gives _ _ _ _ db λ u known. check-Gives _ _ _ db λ welcome. check-Gives _ _ _ db λ admin.
      row-Gives _ _ _ _ db λ s found. check-Gives _ _ _ db λ current. pure-Gives _ _ db (record {
        user = u;
        known = known;
        welcome = ground arith;
        administers = ground arith;
        found = found;
        current = ground arith;
      })

pub record IsUpdated (a : Actor) (p : Patch) (db : Db) (r : SettingsRow) (db' : Db) : Type 0 where
  pub administers : a.admin ≡ true
  pub valid : validate p ≡ ok tt
  pub before : SettingsRow
  pub allowed : CanUpdate a p.expected_version db before
  pub result : r ≡ patched p before
  pub settings :
      db'.settings ≡ update_first (λ s. s.project_id == a.project_id) (patched p) db.settings

pub update-IsUpdated :
    (rt : Runtime) (a : Actor) (p : Patch) (trace : Trace) (db : Db)
    → Post (IsUpdated a p db) (update rt a p trace db)
unfolding update write_settings log_audit
update-IsUpdated rt a p trace db = check->>= _ _ _ db λ admin. check->>= _ _ _ db λ valid.
    Gives->>= _ _ _ db (update_access-CanUpdate a p.expected_version db) λ s can.
      write->>= _ _ _ _ (
        draw->>= _ rt _ _ (
          write->>= _ _ _ _ (
            commit-Post _ _ _ (record {
              administers = ground arith;
              valid = valid;
              before = s;
              allowed = can;
              result = refl;
              settings = refl;
            }))))

-- The bounds of policy.Patch.Validate.
abbrev pub IsBounded : SettingsRow → Type 0
IsBounded s =
    (1 ≤ s.max_upload_size)
    × (s.max_upload_size ≤ 52428800)
    × (1 ≤ s.retention_days)
    × (s.retention_days ≤ 3650)

given_or-bounds :
    (most old : ℕ) (o : Option ℕ)
    → within most o ≡ true
    → 1 ≤ old
    → old ≤ most
    → (1 ≤ given_or old o) × (given_or old o ≤ most)
given_or-bounds most old none h low high = (low, high)
given_or-bounds most old (some n) h low high = (ground arith, ground arith)

five : (b c d e f : Bool) → guard (b && c && d && e && f) invalid ≡ ok tt → (c ≡ true) × (d ≡ true)
five b c d e f h = (ground arith, ground arith)

validate-within :
    (p : Patch)
    → validate p ≡ ok tt
    → (within 52428800 p.max_upload_size ≡ true) × (within 3650 p.retention_days ≡ true)
unfolding validate
validate-within p h = five _ _ _ (is_reject p.blacklist_policy) (known_flags p.flags) h

-- Settings within the bounds stay so, whatever the caller sends: an update that would leave them is
-- refused, and no other Project's settings change.
pub update-IsBounded :
    (rt : Runtime) (a : Actor) (p : Patch) (trace : Trace) (db : Db)
    → All IsBounded db.settings
    → All IsBounded (after db (update rt a p trace db)).settings
update-IsBounded rt a p trace db v =
    after_post (λ d. All IsBounded d.settings) db _ v
      (Post-mono _ _ _ (update-IsUpdated rt a p trace db) λ r db' h.
        let (upload, retention) = validate-within p h.valid in
        rw h.settings (
          update_first-All IsBounded (λ s. s.project_id == a.project_id) (patched p) db.settings
            (λ s found k.
              let size =
                given_or-bounds 52428800 s.max_upload_size p.max_upload_size upload k.0 k.1 in
              let days = given_or-bounds 3650 s.retention_days p.retention_days retention k.2 k.3 in
              (size.0, size.1, days.0, days.1))
            v))
