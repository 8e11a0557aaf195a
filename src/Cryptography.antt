-- ===== src/Cryptography.antt =====
-- internal/cryptography/crypto.go: what the message repository asks of the keys.
use al_ur_messenger.Prelude.{ℕ, List}
use al_ur_messenger.Text.{Text}
use al_ur_messenger.Result.{Result}
use al_ur_messenger.Store.{Sealed}

-- message.Crypto. `Canonical` is the type of the commands that have a fingerprint. The first
-- argument of `seal` stands for crypto/rand: it is the number of identifiers drawn so far, which
-- no two calls of `seal` share.
pub record Crypto (Canonical : Type 0) : Type 0 where
  pub seal : ℕ → ℕ → ℕ → ℕ → Text → Result Sealed
  pub open_sealed : ℕ → ℕ → ℕ → Sealed → Result Text
  pub index : ℕ → Text → Result (Text × List Text)
  pub queries : ℕ → Text → Result (List (Text × List Text))
  pub fingerprint_version : Text
  pub fingerprint : ℕ → Text → Canonical → Result Text
