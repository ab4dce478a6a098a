-- ===== src/Policy/Resource.antt =====
-- validatePolicyResource of internal/services/policy_validation.go. Each error of the model is one of the
-- messages of the source.
pub mod Grammar
use self_host.Prelude.{
  Bool, not, ◌&&◌, ◌||◌, List, [], ◌∷◌, is_empty, any, ok, Checked, ◌>>=◌, ◌>>◌, fail_if,
}
use self_host.Text.{
  Text, codes, text_eq, is_space, trim_space, contains_char, has_prefix, has_suffix, contains,
  split,
}

pub data ResourceError : Type 0 where
  empty_resource outer_space inner_space outer_slash empty_segment partial_wildcard : ResourceError

abbrev pub slash : Text
slash = b'/' ∷ []

abbrev pub wildcard : Text
wildcard = b'%' ∷ []

-- The loop over the segments.
unfoldable pub validate_segments : List Text → Checked ResourceError
validate_segments [] = ok tt
validate_segments (segment ∷ rest) = do
  fail_if (is_empty segment) empty_segment
  fail_if (contains_char segment b'%' && not (text_eq segment wildcard)) partial_wildcard
  validate_segments rest

unfoldable pub validate_resource : Text → Checked ResourceError
validate_resource resource = do
  fail_if (is_empty resource) empty_resource
  fail_if (not (text_eq resource (trim_space resource))) outer_space
  fail_if (any is_space resource) inner_space
  fail_if (has_prefix resource slash || has_suffix resource slash) outer_slash
  fail_if (contains resource (codes "//")) empty_segment
  validate_segments (split resource b'/')
