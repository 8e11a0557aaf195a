-- ===== src/Conversation.antt =====
-- internal/conversation: requests and their validation. The stores and services are the children.
pub mod Access
pub mod Audit
pub mod Membership
pub mod Members
pub mod Commands
pub mod Logging
pub mod Services
use al_ur_messenger.Prelude.{
  ℕ, Bool, true, false, ◌&&◌, ◌||◌, not, Option, none, some, List, [], ◌∷◌, ltb, ◌==◌, length,
  is_none,
}
use al_ur_messenger.Text.{Text, valid_string, has_control, is_trimmed, is_empty}
use al_ur_messenger.Result.{Result, invalid, guard}
use al_ur_messenger.Runtime.{Runtime, valid_id}
use al_ur_messenger.Identity.{valid_avatar}
use al_ur_messenger.Store.{ConversationType, is_direct, Role}

-- A text field that names a type or a role; `none` is any other text.
pub record Create : Type 0 where
  pub type : Option ConversationType
  pub member_ids : List ℕ
  pub title : Text
  pub avatar_url : Text

pub record Patch : Type 0 where
  pub title : Option Text
  pub avatar_url : Option Text
  pub expected_version : ℕ

pub record AddMembers : Type 0 where
  pub user_ids : List ℕ

pub record MemberPatch : Type 0 where
  pub role : Option (Option Role)
  pub banned : Option Bool
  pub muted : Option Bool
  pub expected_version : ℕ

-- policy.Trace
pub record Trace : Type 0 where
  pub request_id : Text
  pub ip : Text

unfoldable pub valid_title : Text → Bool
valid_title v = valid_string v && not (ltb 128 (length v)) && is_trimmed v && not (has_control v)

-- `seen[id]` of a map that the loop fills.
unfoldable pub contains : ℕ → List ℕ → Bool
contains id [] = false
contains id (x ∷ xs) = id == x || contains id xs

-- The loop over the invited identifiers: each is valid and new.
unfoldable pub all_new : Runtime → List ℕ → List ℕ → Bool
unfolding contains
all_new rt seen [] = true
all_new rt seen (id ∷ ids) = valid_id rt id && not (contains id seen) && all_new rt (id ∷ seen) ids

abbrev is_one : List ℕ → Bool
is_one (x ∷ []) = true
is_one _ = false

abbrev fits_type : Option ConversationType → Create → Bool
fits_type none p = false
fits_type (some ConversationType.direct) p =
    is_one p.member_ids && is_empty p.title && is_empty p.avatar_url
fits_type (some _) p = true

-- Create.Validate
unfoldable pub validate_create : Runtime → ℕ → Create → Result (Unit {0})
unfolding all_new valid_title
validate_create rt actor p =
    guard
      (valid_id rt actor
        && not (ltb 100 (length p.member_ids))
        && valid_title p.title
        && valid_avatar rt p.avatar_url
        && fits_type p.type p
        && all_new rt (actor ∷ []) p.member_ids)
      invalid

abbrev holds_or_absent : (Text → Bool) → Option Text → Bool
holds_or_absent p none = true
holds_or_absent p (some v) = p v

-- Patch.Validate
unfoldable pub validate_patch : Runtime → Patch → Result (Unit {0})
unfolding valid_title
validate_patch rt p =
    guard
      (ltb 0 p.expected_version
        && not (is_none p.title && is_none p.avatar_url)
        && holds_or_absent valid_title p.title
        && holds_or_absent (valid_avatar rt) p.avatar_url)
      invalid

-- AddMembers.Validate
unfoldable pub validate_add : Runtime → AddMembers → Result (Unit {0})
unfolding all_new
validate_add rt p =
    guard
      (ltb 0 (length p.user_ids) && not (ltb 100 (length p.user_ids)) && all_new rt [] p.user_ids)
      invalid

abbrev known_role : Option (Option Role) → Bool
known_role none = true
known_role (some none) = false
known_role (some (some r)) = true

-- MemberPatch.Validate
unfoldable pub validate_member_patch : MemberPatch → Result (Unit {0})
validate_member_patch p =
    guard
      (ltb 0 p.expected_version
        && not (is_none p.role && is_none p.banned && is_none p.muted)
        && known_role p.role)
      invalid
