-- ===== src/Ingest/Topic.antt =====
-- The wildcard matcher of internal/insamlare/route.go: newWildcardMatcher and Match. A topic is split at "/",
-- "+" stands for one segment and a final "#" for all that follow.
pub mod Correct
use self_host.Prelude.{
  ℕ, Bool, true, false, not, ◌&&◌, Option, none, some, List, [], ◌∷◌, ◌++◌, is_empty, Result, ok,
  err, Checked, ◌>>=◌, ◌>>◌, fail_if, if◌then◌else◌,
}
use self_host.Text.{Text, codes, text_eq, contains_char, split}

abbrev pub hash : Text
hash = codes "#"

abbrev pub plus : Text
plus = codes "+"

pub data TopicError : Type 0 where
  hash_not_final : TopicError
  -- The segment that holds the character.
  invalid_hash : Text → TopicError
  invalid_plus : Text → TopicError

pub record WildcardMatcher : Type 0 where
  pub pattern : List Text

-- The switch of the loop, for one segment; `final` where it is the last one.
unfoldable pub check_part : Text → Bool → Checked TopicError
check_part part final =
    if text_eq part hash
    then (if final then ok tt else err hash_not_final)
    else if contains_char part 35
    then err (invalid_hash part)
    else fail_if (contains_char part 43 && not (text_eq part plus)) (invalid_plus part)

unfoldable pub check_parts : List Text → Checked TopicError
check_parts [] = ok tt
check_parts (p ∷ ps) = check_part p (is_empty ps) >> check_parts ps

unfoldable pub new_wildcard_matcher : Text → Result TopicError WildcardMatcher
new_wildcard_matcher topic =
    check_parts (split topic 47) >> ok (record { pattern = split topic 47 })

-- The loop over the pattern with the segments of the topic from index `i` on, and the captures so far.
unfoldable pub match_parts : List Text → List Text → List Text → Option (List Text)
match_parts [] [] captures = some captures
match_parts [] (t ∷ ts) captures = none
match_parts (p ∷ ps) [] captures = if text_eq p hash then some captures else none
match_parts (p ∷ ps) (t ∷ ts) captures =
    let captured = match_parts ps ts (captures ++ t ∷ []) in
    let rest = match_parts ps ts captures in
    if text_eq p hash
    then some captures
    else if text_eq p plus
    then captured
    else if not (text_eq p t)
    then none
    else rest

-- wildcardMatcher.Match
unfoldable pub match : WildcardMatcher → Text → Option (List Text)
match m topic = match_parts m.pattern (split topic 47) []
