-- ===== src/Examples/PolicyService.antt =====
-- The policy service over a database of one policy.
use self_host.Prelude.{
  ℕ, ◌≡◌, ◌==◌, refl, sym, ap, inl, inr, Bool, true, Option, none, some, [], ◌∷◌, Result, ok, err,
  if◌then◌else◌, Bool-cases,
}
use self_host.Prelude.Int.{pos}
use self_host.Text.{
  codes, text_eq, trim_space, trim_right, trim_left, is_space, has_prefix, has_suffix, contains,
  index, contains_char, count_char, extend_head, split, trim_suffix,
}
use self_host.Database.{
  Faults, transaction, ◌>>=◌, begin_tx, commit, continue, optional, pure, rolled_back, when, step,
  else_rollback, in_tx, query,
}
use self_host.Database.Refines.{atomically, idle}
use self_host.Policy.Rule.{
  Uuid, PolicyRule, GroupPolicy, RuleError, query_failed, validate_policy_rule, validate_rule_shape,
  find_shadow, is_same_policy, policy_shadows,
}
use self_host.Policy.Resource.{validate_resource, validate_segments}
use self_host.Policy.Cover.{policy_resource_covers, sql_like_match, like_loop, like_end}
use self_host.Policy.Service.{
  PolicyQueries, NewPolicyParams, UpdatePolicyParams, new_rule, next_rule, add, update, given_or,
  narrowed, validate_rule,
}
use self_host.Policy.Service.Transactions.{updated, update-atomically}
use self_host.Policy.Service.Accepted.{
  IsStanding, Writes, rule_of, add-IsStanding, update-IsStanding,
}

abbrev read_things : GroupPolicy
read_things = record {
  uuid = 1;
  group_uuid = 7;
  priority = pos 5;
  effect = codes "allow";
  action = codes "read";
  resource = codes "things/%";
}

-- The database holds the two policies that the service changes, under 1 and 2.
abbrev Table : Type 0
Table = GroupPolicy × GroupPolicy

abbrev row : Table → Uuid → Option GroupPolicy
row s id = if id == 1 then some s.0 else if id == 2 then some s.1 else none

abbrev set : (GroupPolicy → GroupPolicy) → Uuid → Table → Result (RuleError Bool) (ℕ × Table)
set f id s =
    if id == 1 then ok (1, (f s.0, s.1)) else if id == 2 then ok (1, (s.0, f s.1)) else ok (0, s)

abbrev find : Uuid → Table → Result (RuleError Bool) (GroupPolicy × Table)
find id s =
    if id == 1 then ok (s.0, s) else if id == 2 then ok (s.1, s) else err (query_failed true)

abbrev inserted : PolicyRule → GroupPolicy
inserted rule = record {
  uuid = 2;
  group_uuid = rule.group_uuid;
  priority = rule.priority;
  effect = rule.effect;
  action = rule.action;
  resource = rule.resource;
}

abbrev queries : PolicyQueries Table Bool
queries = record {
  find_policies_by_group = λ s group. ok (s.0 ∷ []);
  create_policy = λ rule s. ok (inserted rule, (s.0, inserted rule));
  find_policy_by_uuid = find;
  set_policy_group = λ id x s. set (λ r. record r { group_uuid = x }) id s;
  set_policy_priority = λ id x s. set (λ r. record r { priority = x }) id s;
  set_policy_effect = λ id x s. set (λ r. record r { effect = x }) id s;
  set_policy_action = λ id x s. set (λ r. record r { action = x }) id s;
  set_policy_resource = λ id x s. set (λ r. record r { resource = x }) id s;
  delete_policy_by_uuid = λ id s. ok (1, s);
  not_found = query_failed true;
}

pair_state :
    {A B E : Type 0} (a b : A) (s t : B)
    → ◌≡◌ {A = Result E (A × B)} (ok (a, s)) (ok (b, t))
    → (a ≡ b) × (s ≡ t)
pair_state a b s t h = (cc h, cc h)

set-row :
    (f : GroupPolicy → GroupPolicy) (id : Uuid) (s t : Table) (n : ℕ) (r : GroupPolicy)
    → set f id s ≡ ok (n, t)
    → row s id ≡ some r
    → row t id ≡ some (f r)
set-row f id s t n r h k = elim (Bool-cases (id == 1)) [
  | inl e ↦
      let (_, same) = pair_state 1 n (f s.0, s.1) t (rw e at h) in
      rw (e, ← same) (let q : s.0 ≡ r = cc (rw e at k) in ap (λ x. some (f x)) q)
  | inr e ↦ elim (Bool-cases (id == 2)) [
    | inr g ↦ cc (rw (e, g) at k)
    | inl g ↦
        let (_, same) = pair_state 1 n (s.0, f s.1) t (rw (e, g) at h) in
        rw (e, g, ← same) (let q : s.1 ≡ r = cc (rw (e, g) at k) in ap (λ x. some (f x)) q)
  ]
]

find-row :
    (id : Uuid) (s t : Table) (r : GroupPolicy)
    → find id s ≡ ok (r, t)
    → (t ≡ s) × (row s id ≡ some r)
find-row id s t r h = elim (Bool-cases (id == 1)) [
  | inl e ↦ let (p, same) = pair_state s.0 r s t (rw e at h) in (sym same, rw e (ap some p))
  | inr e ↦ elim (Bool-cases (id == 2)) [
    | inr g ↦ cc (rw (e, g) at h)
    | inl g ↦
        let (p, same) = pair_state s.1 r s t (rw (e, g) at h) in (sym same, rw (e, g) (ap some p))
  ]
]

create-row :
    (rule : PolicyRule) (s t : Table) (r : GroupPolicy)
    → queries.create_policy rule s ≡ ok (r, t)
    → (row t r.uuid ≡ some r) × (rule_of rule.id r ≡ rule)
unfolding rule_of
create-row rule s t r h =
    let (p, same) = pair_state (inserted rule) r (s.0, inserted rule) t h in
    (rw (← p, ← same) refl, rw (← p) refl)

writes : Writes queries row
writes = record {
  finds = λ id s t r h. find-row id s t r h;
  creates = λ rule s t r h. create-row rule s t r h;
  sets_group = λ id x s t n r h k. set-row (λ v. record v { group_uuid = x }) id s t n r h k;
  sets_priority = λ id x s t n r h k. set-row (λ v. record v { priority = x }) id s t n r h k;
  sets_effect = λ id x s t n r h k. set-row (λ v. record v { effect = x }) id s t n r h k;
  sets_action = λ id x s t n r h k. set-row (λ v. record v { action = x }) id s t n r h k;
  sets_resource = λ id x s t n r h k. set-row (λ v. record v { resource = x }) id s t n r h k;
}

abbrev database : Table
database = (read_things, record read_things { uuid = 2 })

abbrev sound : Faults Table (RuleError Bool)
sound = record { at_begin = λ s. none; at_commit = λ s. none; tx_done = query_failed true }

abbrev raise : UpdatePolicyParams
raise = record {
  group_uuid = none;
  priority = some (pos 4294967305);
  effect = none;
  action = none;
  resource = none;
}

abbrev write_things : NewPolicyParams
write_things = record {
  group_uuid = 7;
  priority = pos 1;
  effect = codes "deny";
  action = codes "update";
  resource = codes "things/%";
}

update-atomically_example :
    update queries sound 1 raise (idle database)
    ≡ (let (r, s') = atomically sound (updated queries 1 raise) database in (r, idle s'))
update-atomically_example = update-atomically queries sound 1 raise database

add-runs :
    (add queries sound write_things (idle database)).0 ≡ ok (inserted (new_rule write_things))
unfolding add new_rule query ◌>>=◌ continue validate_rule validate_policy_rule validate_rule_shape
    validate_resource validate_segments find_shadow is_same_policy policy_shadows
    policy_resource_covers sql_like_match like_loop like_end text_eq trim_space trim_right trim_left
    is_space has_prefix has_suffix contains index contains_char count_char extend_head split
    trim_suffix
add-runs = refl

update-runs : (update queries sound 1 raise (idle database)).0 ≡ ok 1
unfolding update next_rule given_or narrowed transaction begin_tx commit optional pure rolled_back
    when step else_rollback in_tx query ◌>>=◌ continue validate_rule validate_policy_rule
    validate_rule_shape validate_resource validate_segments find_shadow is_same_policy
    policy_shadows policy_resource_covers sql_like_match like_loop like_end text_eq trim_space
    trim_right trim_left is_space has_prefix has_suffix contains index contains_char count_char
    extend_head split trim_suffix
update-runs = refl

add-IsStanding_example :
    (row (add queries sound write_things (idle database)).1.committed 2
      ≡ some (inserted (new_rule write_things)))
    × (rule_of none (inserted (new_rule write_things)) ≡ new_rule write_things)
    × IsStanding queries database (rule_of none (inserted (new_rule write_things)))
unfolding new_rule
add-IsStanding_example =
    add-IsStanding queries row writes sound write_things (idle database)
      (inserted (new_rule write_things)) add-runs

update-IsStanding_example :
    (r : GroupPolicy) × (row (update queries sound 1 raise (idle database)).1.committed 1 ≡ some r)
    × IsStanding queries database (rule_of (some 1) r)
update-IsStanding_example =
    update-IsStanding queries row writes sound 1 raise database 1 update-runs
