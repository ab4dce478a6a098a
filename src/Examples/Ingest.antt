-- ===== src/Examples/Ingest.antt =====
-- The ingestion service at small inputs.
use self_host.Prelude.{◌≡◌, ◌↔◌, refl, some, [], ◌∷◌, ok}
use self_host.Text.{codes, split, text_eq, contains_char, extend_head}
use self_host.Ingest.Topic.{WildcardMatcher, new_wildcard_matcher, check_parts, check_part, match}
use self_host.Ingest.Topic.Correct.{Matches, match_iff}

abbrev levels : WildcardMatcher
levels = record { pattern = codes "site" ∷ codes "+" ∷ codes "#" ∷ [] }

compiles : new_wildcard_matcher (codes "site/+/#") ≡ ok levels
unfolding new_wildcard_matcher check_parts check_part split extend_head text_eq contains_char
compiles = refl

match_iff_example :
    (match levels (codes "site/a/b") ≡ some (codes "a" ∷ []))
    ↔ Matches (split (codes "site/+/#") 47) (split (codes "site/a/b") 47) (codes "a" ∷ [])
match_iff_example = match_iff (codes "site/+/#") levels (codes "site/a/b") (codes "a" ∷ []) compiles
