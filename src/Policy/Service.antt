-- ===== src/Policy/Service.antt =====
-- PolicyService of internal/services/policy.go: Add, Update and Delete. The queries of
-- postgres/policies.sql.go are parameters; `E` are the errors of the database.
pub mod Transactions
pub mod Accepted
use self_host.Prelude.{
  ℕ, ◌+◌, Option, none, some, List, ◌==◌, if◌then◌else◌, Result, ok, err, Checked,
}
use self_host.Prelude.Int.{ℤ, wrap_32}
use self_host.Text.{Text}
use self_host.Database.{
  Conn, Faults, Exec, pure, fail, query, optional, when, transaction, step, ◌>>=◌, ◌>>◌,
}
use self_host.Database.Plain.{Statement}
use self_host.Policy.Rule.{Uuid, PolicyRule, GroupPolicy, RuleError, validate_policy_rule}

pub record PolicyQueries (S E : Type 0) : Type 0 where
  -- A query that only reads.
  pub find_policies_by_group : S → Uuid → Result E (List GroupPolicy)
  pub create_policy : PolicyRule → Statement S (RuleError E) GroupPolicy
  pub find_policy_by_uuid : Uuid → Statement S (RuleError E) GroupPolicy
  pub set_policy_group : Uuid → Uuid → Statement S (RuleError E) ℕ
  pub set_policy_priority : Uuid → ℤ → Statement S (RuleError E) ℕ
  pub set_policy_effect : Uuid → Text → Statement S (RuleError E) ℕ
  pub set_policy_action : Uuid → Text → Statement S (RuleError E) ℕ
  pub set_policy_resource : Uuid → Text → Statement S (RuleError E) ℕ
  pub delete_policy_by_uuid : Uuid → Statement S (RuleError E) ℕ
  -- ErrorNotFound of internal/errors
  pub not_found : RuleError E

pub record NewPolicyParams : Type 0 where
  pub group_uuid : Uuid
  pub priority : ℤ
  pub effect : Text
  pub action : Text
  pub resource : Text

pub record UpdatePolicyParams : Type 0 where
  pub group_uuid : Option Uuid
  -- An int, which Update narrows to int32
  pub priority : Option ℤ
  pub effect : Option Text
  pub action : Option Text
  pub resource : Option Text

unfoldable pub new_rule : NewPolicyParams → PolicyRule
new_rule p = record {
  id = none;
  group_uuid = p.group_uuid;
  priority = p.priority;
  effect = p.effect;
  action = p.action;
  resource = p.resource;
}

unfoldable pub given_or {ℓ} : {A : Type ℓ} → Option A → A → A
given_or none a = a
given_or (some b) a = b

-- `int32(*p.Priority)`
unfoldable pub narrowed : Option ℤ → Option ℤ
narrowed none = none
narrowed (some priority) = some (wrap_32 priority)

-- The rule that the policy will have after the update.
unfoldable pub next_rule : Uuid → GroupPolicy → UpdatePolicyParams → PolicyRule
unfolding given_or narrowed
next_rule id current p = record {
  id = some id;
  group_uuid = given_or p.group_uuid current.group_uuid;
  priority = given_or (narrowed p.priority) current.priority;
  effect = given_or p.effect current.effect;
  action = given_or p.action current.action;
  resource = given_or p.resource current.resource;
}

unfoldable pub checked_on : {S E : Type 0} → S → Checked E → Result E (Unit {0} × S)
checked_on s (ok u) = ok (u, s)
checked_on s (err e) = err e

module _ {S E : Type 0} (q : PolicyQueries S E) where
  -- validatePolicyRule, reading the policies of the group.
  unfoldable pub validate_rule : PolicyRule → Statement S (RuleError E) Unit
  unfolding checked_on
  validate_rule rule s = checked_on s (validate_policy_rule (q.find_policies_by_group s) rule)

module _ {S E : Type 0} (q : PolicyQueries S E) (faults : Faults S (RuleError E)) where
  unfoldable pub add : NewPolicyParams → Exec S (RuleError E) GroupPolicy
  add p = do query (validate_rule q (new_rule p)); query (q.create_policy (new_rule p))

  unfoldable pub update : Uuid → UpdatePolicyParams → Exec S (RuleError E) ℕ
  update id p = transaction faults (do
    current ← step faults (q.find_policy_by_uuid id)
    step faults (validate_rule q (next_rule id current p))
    a ← optional p.group_uuid (λ group. step faults (q.set_policy_group id group))
    b ← optional (narrowed p.priority) (λ priority. step faults (q.set_policy_priority id priority))
    c ← optional p.effect (λ effect. step faults (q.set_policy_effect id effect))
    d ← optional p.action (λ action. step faults (q.set_policy_action id action))
    e ← optional p.resource (λ resource. step faults (q.set_policy_resource id resource))
    when (a + b + c + d + e == 0) (do step faults (q.find_policy_by_uuid id); pure 0)
    pure (a + b + c + d + e))

  unfoldable pub delete : Uuid → Exec S (RuleError E) ℕ
  delete id = do
    count ← query (q.delete_policy_by_uuid id)
    if count == 0 then fail q.not_found else pure count
