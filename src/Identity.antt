-- ===== src/Identity.antt =====
-- internal/identity/identity.go: profiles and actors. Project data of the token is in `Actor`.
use al_ur_messenger.Prelude.{
  ℕ, Bool, true, false, ◌&&◌, not, Option, none, some, ltb, length, if◌then◌else◌,
}
use al_ur_messenger.Text.{Text, byte_length, has_control, is_trimmed, is_empty}
use al_ur_messenger.Result.{Result, invalid, guard}
use al_ur_messenger.Runtime.{Runtime}

-- chat.users.kind
pub data Kind : Type 0 where
  human bot system : Kind

abbrev pub is_human : Kind → Bool
is_human human = true
is_human _ = false

abbrev pub is_bot : Kind → Bool
is_bot bot = true
is_bot _ = false

abbrev pub is_system : Kind → Bool
is_system system = true
is_system _ = false

-- identity.Actor, with the fields of auth.Identity and identity.User that the program reads.
-- `is_banned` and `kind` are what authentication read, not the current row.
pub record Actor : Type 0 where
  pub project_id : ℕ
  pub user_id : ℕ
  pub admin : Bool
  pub is_banned : Bool
  pub kind : Kind

pub record ProfilePatch : Type 0 where
  pub display_name : Option Text
  pub avatar_url : Option Text

-- The checks that identity and conversation share on an external avatar URL.
unfoldable pub valid_avatar : Runtime → Text → Bool
valid_avatar rt value = if is_empty value then true else elim (rt.parse_url value) [
  | none ↦ false
  | some u ↦ not (ltb 2048 (byte_length value)) && u.is_https && u.has_host && not u.has_user
]

valid_name : Text → Bool
valid_name v = is_trimmed v && not (is_empty v) && not (ltb 128 (length v)) && not (has_control v)

abbrev holds_or_absent : (Text → Bool) → Option Text → Bool
holds_or_absent p none = true
holds_or_absent p (some v) = p v

abbrev is_no_change : ProfilePatch → Bool
is_no_change p = elim p.display_name [
  | none ↦ elim p.avatar_url [ none ↦ true | some v ↦ false ]
  | some v ↦ false
]

-- ProfilePatch.Validate
unfoldable pub validate_profile : Runtime → ProfilePatch → Result (Unit {0})
unfolding valid_avatar valid_name
validate_profile rt p =
    guard
      (not (is_no_change p)
        && holds_or_absent valid_name p.display_name
        && holds_or_absent (valid_avatar rt) p.avatar_url)
      invalid
