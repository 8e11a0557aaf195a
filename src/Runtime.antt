-- ===== src/Runtime.antt =====
-- What the program takes from outside: clocks, github.com/google/uuid, and net/url's Parse.
use al_ur_messenger.Prelude.{ℕ, Bool, false, ◌&&◌, not, Option, none, some, ◌==◌}
use al_ur_messenger.Text.{Text}

-- The parts of a *url.URL that are read.
pub record Url : Type 0 where
  pub is_https : Bool
  pub has_host : Bool
  pub has_user : Bool

-- Identifiers are texts that are only compared and sorted. A text stands as a number: a canonical
-- UUID as its 128 bits, whose order is the order of the texts, and any other text as some other
-- number. `parse` is uuid.Parse, `format` is UUID.String, and 0 is uuid.Nil with its text.
-- `new_id k` is the k-th result of uuid.NewV7. `now` is the process clock and `db_now` the
-- database's clock_timestamp(), in seconds.
pub record Runtime : Type 0 where
  pub parse : ℕ → Option ℕ
  pub format : ℕ → ℕ
  pub new_id : ℕ → ℕ
  pub now : ℕ
  pub db_now : ℕ
  pub parse_url : Text → Option Url

abbrev pub nil_id : ℕ
nil_id = 0

-- conversation.ValidID
unfoldable pub valid_id : Runtime → ℕ → Bool
valid_id rt value = elim (rt.parse value) [
  | none ↦ false
  | some id ↦ not (id == nil_id) && (rt.format id == value)
]
