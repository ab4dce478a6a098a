-- ===== src/Examples/Policies.antt =====
-- Policies: resources, covering and shadowing at concrete inputs.
use self_host.Prelude.{
  ◌≡◌, ◌↔◌, inl, inr, refl, Bool, true, false, List, [], ◌∷◌, In, Result, ok, err, none,
}
use self_host.Prelude.Int.{pos}
use self_host.Text.{
  codes, text_eq, is_space, trim_left, trim_right, trim_space, contains_char, count_char,
  has_prefix, has_suffix, trim_suffix, index, contains, split, extend_head,
}
use self_host.Policy.Resource.{validate_resource, validate_segments, partial_wildcard}
use self_host.Policy.Resource.Grammar.{IsResource, validate_resource_iff}
use self_host.Policy.Cover.{like_loop, sql_like_match, policy_resource_covers}
use self_host.Policy.Cover.Like.{Like, Like_self}
use self_host.Policy.Cover.Literal.{Literal}
use self_host.Policy.Cover.Sound.{sql_like_match-Literal, covers-Like}
use self_host.Policy.Rule.{
  Uuid, PolicyRule, GroupPolicy, policy_shadows, find_shadow, validate_rule_shape,
  validate_policy_rule, shadowed_by,
}
use self_host.Policy.Rule.Decision.{Decides}
use self_host.Policy.Rule.Redundant.{row}
use self_host.Policy.Rule.Refusal.{IsAcceptable, validate_policy_rule_iff, refused-Decides}

accepts_wildcards : validate_resource (codes "things/%/data") ≡ ok tt
unfolding validate_resource validate_segments text_eq is_space trim_space trim_left trim_right
    contains_char has_prefix has_suffix index contains split extend_head
accepts_wildcards = refl

refuses_partial : validate_resource (codes "things/a%") ≡ err partial_wildcard
unfolding validate_resource validate_segments text_eq is_space trim_space trim_left trim_right
    contains_char has_prefix has_suffix index contains split extend_head
refuses_partial = refl

matches_middle : sql_like_match (codes "things/%/data") (codes "things/7/data") ≡ true
unfolding sql_like_match like_loop text_eq has_prefix has_suffix index split extend_head
matches_middle = refl

abbrev existing : GroupPolicy
existing = record {
  uuid = 7;
  group_uuid = 1;
  priority = pos 0;
  effect = codes "deny";
  action = codes "read";
  resource = codes "things/%";
}

abbrev candidate : PolicyRule
candidate = record {
  id = none;
  group_uuid = 1;
  priority = pos 2;
  effect = codes "allow";
  action = codes "read";
  resource = codes "things/9";
}

abbrev find : Uuid → Result Bool (List GroupPolicy)
find group = ok (existing ∷ [])

covers_things : policy_resource_covers (codes "things/%") (codes "things/9") ≡ true
unfolding policy_resource_covers text_eq contains_char count_char has_prefix has_suffix trim_suffix
covers_things = refl

candidate_refused : validate_policy_rule find candidate ≡ err (shadowed_by 7)
unfolding validate_policy_rule validate_rule_shape find_shadow policy_shadows policy_resource_covers
    validate_resource validate_segments text_eq is_space trim_space trim_left trim_right
    contains_char count_char has_prefix has_suffix trim_suffix index contains split extend_head
candidate_refused = refl

unescaped_things : contains_char (codes "things/%") 92 ≡ false
unfolding contains_char
unescaped_things = refl

unescaped_nine : contains_char (codes "things/9") 92 ≡ false
unfolding contains_char
unescaped_nine = refl

refused-Decides_example :
    Decides (existing ∷ []) (codes "read") (codes "things/9") (codes "deny")
    ↔ Decides (row 8 candidate ∷ existing ∷ []) (codes "read") (codes "things/9") (codes "deny")
refused-Decides_example =
    refused-Decides find candidate (existing ∷ []) refl 7 8 (existing ∷ []) candidate_refused holds
      unescaped_nine (codes "read") (codes "things/9") (codes "deny")
  where
    holds :
        (p : GroupPolicy)
        → In p (existing ∷ [])
        → In p (existing ∷ []) × (contains_char p.resource 92 ≡ false)
    holds p (inr m) = absurd m
    holds p (inl e) = (inl e, rw e unescaped_things)

validate_policy_rule_iff_example :
    (validate_policy_rule find candidate ≡ ok tt) ↔ IsAcceptable (existing ∷ []) candidate
validate_policy_rule_iff_example = validate_policy_rule_iff find candidate (existing ∷ []) refl

validate_resource_iff_example :
    (validate_resource (codes "things/%/data") ≡ ok tt) ↔ IsResource (codes "things/%/data")
validate_resource_iff_example = validate_resource_iff (codes "things/%/data")

covers-Like_example : Like (codes "things/%") (codes "things/9")
covers-Like_example =
    covers-Like (codes "things/%") (codes "things/9") (codes "things/9") unescaped_things
      unescaped_nine covers_things (Like_self (codes "things/9") refl)

literal_middle : Literal (codes "things/%/data") (codes "things/7/data")
literal_middle =
    sql_like_match-Literal (codes "things/%/data") (codes "things/7/data") matches_middle
