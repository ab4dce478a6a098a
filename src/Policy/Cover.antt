-- ===== src/Policy/Cover.antt =====
-- sqlLikeMatch and policyResourceCovers of internal/services/policy_validation.go.
pub mod Like
pub mod Literal
pub mod Sound
use self_host.Prelude.{
  ℕ, zero, suc, ◌+◌, Bool, true, false, not, ◌&&◌, ◌||◌, Option, none, some, List, [], ◌∷◌, ◌==◌,
  if◌then◌else◌, length, drop, is_empty,
}
use self_host.Text.{
  Text, text_eq, contains_char, count_char, has_prefix, has_suffix, trim_suffix, index, split,
}
use self_host.Policy.Resource.{wildcard}

-- The loop over the parts: `none` is `return false`, `some idx` the index after the last part.
unfoldable pub like_loop : Text → Text → ℕ → ℕ → List Text → Option ℕ
like_loop pattern resource i idx [] = some idx
like_loop pattern resource i idx (part ∷ parts) =
    let skipped = like_loop pattern resource (suc i) idx parts in
    if is_empty part then skipped else elim (index (drop idx resource) part) [
      | none ↦ none
      | some pos ↦
          let next = like_loop pattern resource (suc i) (idx + (pos + length part)) parts in
          if i == 0 && (not (has_prefix pattern wildcard) && not (pos == 0)) then none else next
    ]

-- The tests after the loop.
unfoldable pub like_end : Text → Text → Option ℕ → Bool
like_end pattern resource none = false
like_end pattern resource (some idx) =
    if not (has_suffix pattern wildcard) && not (idx == length resource) then false else true

unfoldable pub sql_like_match : Text → Text → Bool
unfolding like_end
sql_like_match pattern resource =
    let parts = split pattern b'%' in
    if length parts == 1
    then text_eq pattern resource
    else like_end pattern resource (like_loop pattern resource 0 0 parts)

unfoldable pub policy_resource_covers : Text → Text → Bool
policy_resource_covers existing candidate =
    if text_eq existing wildcard || text_eq existing candidate
    then true
    else if not (contains_char existing b'%')
    then false
    else if count_char existing b'%' == 1 && has_suffix existing wildcard
    then has_prefix candidate (trim_suffix existing wildcard)
    else if not (contains_char candidate b'%')
    then sql_like_match existing candidate
    else false
