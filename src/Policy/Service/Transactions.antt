-- ===== src/Policy/Service/Transactions.antt =====
-- Update of a policy against a description without transactions.
use self_host.Prelude.{ℕ, ◌+◌, ◌≡◌, ◌==◌}
use self_host.Database.{Faults}
use self_host.Database.Plain.{Statement, pure, optional, when, ◌>>=◌, ◌>>◌}
use self_host.Database.Refines.{runs_rules, atomically, idle, transaction-atomically}
use self_host.Policy.Rule.{Uuid, RuleError}
use self_host.Policy.Service.{
  PolicyQueries, UpdatePolicyParams, next_rule, narrowed, validate_rule, update,
}

-- Read the policy, validate the rule it will have, write the given fields.
unfoldable pub updated :
    {S E : Type 0} → PolicyQueries S E → Uuid → UpdatePolicyParams → Statement S (RuleError E) ℕ
updated q id p = do
  current ← q.find_policy_by_uuid id
  validate_rule q (next_rule id current p)
  a ← optional p.group_uuid (q.set_policy_group id)
  b ← optional (narrowed p.priority) (q.set_policy_priority id)
  c ← optional p.effect (q.set_policy_effect id)
  d ← optional p.action (q.set_policy_action id)
  e ← optional p.resource (q.set_policy_resource id)
  when (a + b + c + d + e == 0) (do q.find_policy_by_uuid id; pure 0)
  pure (a + b + c + d + e)

-- Update is one atomic statement, the validation of the new rule included: it commits all given fields or
-- leaves the database as it was, and no transaction stays open.
pub update-atomically :
    {S E : Type 0} (q : PolicyQueries S E) (faults : Faults S (RuleError E)) (id : Uuid)
    (p : UpdatePolicyParams) (s : S)
    → update q faults id p (idle s)
      ≡ (let (r, s') = atomically faults (updated q id p) s in (r, idle s'))
unfolding update updated
update-atomically q faults id p s =
    transaction-atomically faults _ (updated q id p) (search runs_rules depth 12) s
