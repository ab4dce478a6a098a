-- ===== src/Ingest/Template.antt =====
-- Capture templates, internal/insamlare/route.go: expandCaptureTemplate. The expression is \\([0-9]+)|\$([0-9]+), which
-- matches a backslash or a dollar sign and the longest run of digits after it.
pub mod Expands
use self_host.Prelude.{
  ℕ, zero, suc, ◌+◌, ◌-◌, ◌*◌, Bool, true, false, ◌&&◌, ◌||◌, Option, none, some, List, [], ◌∷◌,
  ◌++◌, ltb, leb, ◌==◌, if◌then◌else◌, length, is_empty,
}
use self_host.Text.{Text}
use self_host.Ingest.Config.{is_digit, starts_with_digit}

-- The value of decimal digits
unfoldable pub decimal : ℕ → Text → ℕ
decimal n [] = n
decimal n (d ∷ ds) = decimal (10 * n + (d - 48)) ds

-- strconv.Atoi of digits, which fails above the largest int
unfoldable pub atoi : Text → Option ℕ
atoi ds = if leb (decimal 0 ds) 9223372036854775807 then some (decimal 0 ds) else none

unfoldable pub capture_at : List Text → ℕ → Option Text
capture_at [] n = none
capture_at (c ∷ cs) zero = some c
capture_at (c ∷ cs) (suc n) = capture_at cs n

unfoldable pub capture_or : Text → Option Text → Text
capture_or s none = s
capture_or s (some c) = c

-- The function given to ReplaceAllStringFunc, for a match `s` and the number that Atoi makes of it.
unfoldable pub substituted : List Text → Text → Option ℕ → Text
substituted captures s none = s
substituted captures s (some idx) =
    if idx == 0 || ltb (length captures) idx
    then s
    else capture_or s (capture_at captures (idx - 1))

unfoldable pub replacement : List Text → ℕ → Text → Text
replacement captures sign digits = substituted captures (sign ∷ digits) (atoi digits)

-- Whether a match starts at a character, with the text after it.
unfoldable pub starts_match : ℕ → Text → Bool
starts_match c s = (c == 92 || c == 36) && starts_with_digit s

-- A match that is being read: its sign and the digits so far.
abbrev pub Match : Type 0
Match = Option (ℕ × Text)

unfoldable pub begin_match : ℕ → Text → Match
begin_match c s = if starts_match c s then some (c, []) else none

unfoldable pub literal : ℕ → Text → Text
literal c s = if starts_match c s then [] else c ∷ []

unfoldable pub next_match : Match → ℕ → Text → Match
next_match none c s = begin_match c s
next_match (some (sign, digits)) c s =
    if is_digit c then some (sign, digits ++ c ∷ []) else begin_match c s

-- What a character adds to the result
unfoldable pub emitted : List Text → Match → ℕ → Text → Text
emitted captures none c s = literal c s
emitted captures (some (sign, digits)) c s =
    if is_digit c then [] else replacement captures sign digits ++ literal c s

-- ReplaceAllStringFunc, from left to right
unfoldable pub replace_all : List Text → Match → Text → Text
replace_all captures none [] = []
replace_all captures (some (sign, digits)) [] = replacement captures sign digits
replace_all captures m (c ∷ s) = emitted captures m c s ++ replace_all captures (next_match m c s) s

unfoldable pub expand_capture_template : Text → List Text → Text
expand_capture_template template captures =
    if is_empty template || is_empty captures then template else replace_all captures none template
