-- ===== src/Result.antt =====
-- The sentinel errors of the packages, results, and errorCode (internal/realtime/connection.go).
use Prim.Native.String.{String}
use al_ur_messenger.Prelude.{◌≡◌, Bool, true, false, Option, none, some}

-- `no_rows` is pgx.ErrNoRows where a caller does not translate it; `unavailable` is
-- auth.ErrUnavailable; `dependency` stands for any other driver or library error.
pub data Error : Type 0 where
  unauthenticated unavailable : Error
  not_found banned : Error
  forbidden conflict invalid feature_disabled : Error
  unsupported last_moderator : Error
  idempotency_conflict resync content_rejected crypto too_many_tokens : Error
  no_rows dependency : Error

pub data Result {ℓ} (A : Type ℓ) : Type ℓ where
  ok : A → Result A
  err : Error → Result A

module _ {ℓ} {A : Type ℓ} where
  abbrev pub or_fail : Option A → Error → Result A
  or_fail none e = err e
  or_fail (some a) e = ok a

  abbrev pub is_ok : Result A → Bool
  is_ok (ok a) = true
  is_ok (err e) = false

pub or_fail-eq-ok {ℓ} :
    {A : Type ℓ} (o : Option A) (e : Error) (a : A) → or_fail o e ≡ ok a → o ≡ some a
or_fail-eq-ok none e a h = cc
or_fail-eq-ok (some b) e a h = cc

-- `if test { return e }` for a test that must hold, and for one that must not.
abbrev pub guard : Bool → Error → Result (Unit {0})
guard true e = ok tt
guard false e = err e

abbrev pub fail_if : Bool → Error → Result (Unit {0})
fail_if true e = err e
fail_if false e = ok tt

unfoldable pub error_code : Error → String
error_code unauthenticated = "UNAUTHENTICATED"
error_code not_found = "RESOURCE_NOT_FOUND"
error_code banned = "USER_BANNED"
error_code forbidden = "FORBIDDEN"
error_code invalid = "INVALID_REQUEST"
error_code feature_disabled = "FEATURE_DISABLED"
error_code idempotency_conflict = "IDEMPOTENCY_CONFLICT"
error_code conflict = "VERSION_CONFLICT"
error_code resync = "RESYNC_REQUIRED"
error_code content_rejected = "CONTENT_REJECTED"
error_code _ = "DEPENDENCY_UNAVAILABLE"
