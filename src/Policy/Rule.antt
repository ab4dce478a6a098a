-- ===== src/Policy/Rule.antt =====
-- policyRule, policyShadows, validatePolicyRuleShape and validatePolicyRule of
-- internal/services/policy_validation.go. Priorities are int32 values, kept as integers.
pub mod Decision
pub mod Redundant
pub mod Refusal
use self_host.Prelude.{
  ℕ, Bool, true, false, not, ◌&&◌, Option, none, some, List, [], ◌∷◌, ◌==◌, if◌then◌else◌, Result,
  ok, err, Checked, ◌>>=◌, ◌>>◌, fail_if,
}
use self_host.Prelude.Int.{ℤ, pos, ltb_ℤ}
use self_host.Text.{Text, codes, text_eq}
use self_host.Policy.Resource.{ResourceError, validate_resource}
use self_host.Policy.Cover.{policy_resource_covers}

-- A UUID, as the number that its 128 bits are.
abbrev pub Uuid : Type 0
Uuid = ℕ

pub record PolicyRule : Type 0 where
  pub id : Option Uuid
  pub group_uuid : Uuid
  pub priority : ℤ
  pub effect : Text
  pub action : Text
  pub resource : Text

-- A row of group_policies.
pub record GroupPolicy : Type 0 where
  pub uuid : Uuid
  pub group_uuid : Uuid
  pub priority : ℤ
  pub effect : Text
  pub action : Text
  pub resource : Text

-- `E` are the errors of the database.
pub data RuleError (E : Type 0) : Type 0 where
  negative_priority : RuleError E
  bad_resource : ResourceError → RuleError E
  shadowed_by : Uuid → RuleError E
  query_failed : E → RuleError E

abbrev pub deny : Text
deny = codes "deny"

unfoldable pub policy_shadows : GroupPolicy → PolicyRule → Bool
policy_shadows existing candidate =
    if not (policy_resource_covers existing.resource candidate.resource)
    then false
    else if ltb_ℤ existing.priority candidate.priority
    then true
    else if ltb_ℤ candidate.priority existing.priority
    then false
    else if text_eq existing.effect deny
    then true
    else text_eq existing.effect candidate.effect

abbrev pub lift_resource : {E : Type 0} → Checked ResourceError → Checked (RuleError E)
lift_resource (ok u) = ok u
lift_resource (err e) = err (bad_resource e)

unfoldable pub validate_rule_shape : {E : Type 0} → PolicyRule → Checked (RuleError E)
validate_rule_shape rule = do
  fail_if (ltb_ℤ rule.priority (pos 0)) negative_priority
  lift_resource (validate_resource rule.resource)

unfoldable pub is_same_policy : GroupPolicy → PolicyRule → Bool
is_same_policy existing rule = elim rule.id [ none ↦ false | some id ↦ existing.uuid == id ]

-- The loop over the policies of the group.
unfoldable pub find_shadow : {E : Type 0} → List GroupPolicy → PolicyRule → Checked (RuleError E)
unfolding is_same_policy
find_shadow [] rule = ok tt
find_shadow (existing ∷ policies) rule =
    let rest = find_shadow policies rule in
    if is_same_policy existing rule
    then rest
    else if not (text_eq existing.action rule.action)
    then rest
    else if policy_shadows existing rule
    then err (shadowed_by existing.uuid)
    else rest

abbrev pub lift_query : {E A : Type 0} → Result E A → Result (RuleError E) A
lift_query (ok a) = ok a
lift_query (err e) = err (query_failed e)

-- `find` is the query FindPoliciesByGroup.
unfoldable pub validate_policy_rule :
    {E : Type 0} → (Uuid → Result E (List GroupPolicy)) → PolicyRule → Checked (RuleError E)
validate_policy_rule find rule = do
  validate_rule_shape rule
  policies ← lift_query (find rule.group_uuid)
  find_shadow policies rule
