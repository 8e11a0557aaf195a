-- ===== src/Text.antt =====
-- Go strings as the code points that they hold, with the tests of the standard library that the
-- validations call: utf8.RuneCountInString, len, strings.TrimSpace, unicode.IsControl.
use al_ur_messenger.Prelude.{
  ℕ, ◌+◌, Bool, true, false, ◌&&◌, ◌||◌, not, List, [], ◌∷◌, ltb, leb, ◌==◌, if◌then◌else◌,
}

-- A text that JSON decoding delivers: every element is a Unicode scalar value or, in a byte string
-- that is not valid UTF-8, a number from 0x110000 for a byte that begins no rune.
abbrev pub Text : Type 0
Text = List ℕ

is_scalar : ℕ → Bool
is_scalar c = ltb c 0xd800 || (leb 0xe000 c && ltb c 0x110000)

-- utf8.ValidString
unfoldable pub valid_string : Text → Bool
unfolding is_scalar
valid_string [] = true
valid_string (c ∷ s) = is_scalar c && valid_string s

rune_size : ℕ → ℕ
rune_size c =
    if ltb c 0x80
    then 1
    else if ltb c 0x800
    then 2
    else if ltb c 0x10000
    then 3
    else if ltb c 0x110000
    then 4
    else 1

-- `len` of a Go string: its bytes.
unfoldable pub byte_length : Text → ℕ
unfolding rune_size
byte_length [] = 0
byte_length (c ∷ s) = rune_size c + byte_length s

-- unicode.IsSpace
unfoldable pub is_space : ℕ → Bool
is_space c =
    (leb 9 c && leb c 13)
    || c == 0x20
    || c == 0x85
    || c == 0xa0
    || c == 0x1680
    || (leb 0x2000 c && leb c 0x200a)
    || c == 0x2028
    || c == 0x2029
    || c == 0x202f
    || c == 0x205f
    || c == 0x3000

-- unicode.IsControl
unfoldable pub is_control : ℕ → Bool
is_control c = ltb c 0x20 || (leb 0x7f c && ltb c 0xa0)

-- strings.IndexFunc(value, unicode.IsControl) != -1
unfoldable pub has_control : Text → Bool
unfolding is_control
has_control [] = false
has_control (c ∷ s) = is_control c || has_control s

first_is_space : Text → Bool
unfolding is_space
first_is_space [] = false
first_is_space (c ∷ s) = is_space c

last_is_space : Text → Bool
unfolding is_space
last_is_space [] = false
last_is_space (c ∷ []) = is_space c
last_is_space (c ∷ d ∷ s) = last_is_space (d ∷ s)

-- strings.TrimSpace(value) == value
unfoldable pub is_trimmed : Text → Bool
unfolding first_is_space last_is_space
is_trimmed s = not (first_is_space s) && not (last_is_space s)

-- strings.TrimSpace(value) == ""
unfoldable pub is_blank : Text → Bool
unfolding is_space
is_blank [] = true
is_blank (c ∷ s) = is_space c && is_blank s

unfoldable pub is_empty : Text → Bool
is_empty [] = true
is_empty (c ∷ s) = false

-- Go's == on strings.
unfoldable pub same_text : Text → Text → Bool
same_text [] [] = true
same_text [] (y ∷ ys) = false
same_text (x ∷ xs) [] = false
same_text (x ∷ xs) (y ∷ ys) = x == y && same_text xs ys
