-- ===== src/Policy/Service/Accepted.antt =====
-- Add and Update write a rule only where validation accepts it.
use self_host.Prelude.{
  ℕ, ◌+◌, ◌≡◌, ◌==◌, refl, sym, ap, subst, ◌∙◌, inl, inr, Bool, true, false, Option, none, some,
  List, arith, ok, Result-cases,
}
use self_host.Prelude.Int.{ℤ}
use self_host.Text.{Text}
use self_host.Database
use self_host.Database.{Conn, Faults, query}
use self_host.Database.Refines.{atomically-eq-ok, idle}
use self_host.Database.Plain
use self_host.Database.Plain.{pure, ◌>>=◌, ◌>>◌}
use self_host.Policy.Rule.{Uuid, PolicyRule, GroupPolicy, RuleError, validate_policy_rule}
use self_host.Policy.Rule.Refusal.{IsAcceptable, validate_policy_rule_iff}
use self_host.Policy.Service.{
  PolicyQueries, NewPolicyParams, UpdatePolicyParams, checked_on, given_or, narrowed, new_rule,
  next_rule, validate_rule, add, update,
}
use self_host.Policy.Service.Transactions.{updated, update-atomically}

-- The policies of the rule's group were read, and they leave the rule standing.
pub record IsStanding {S E : Type 0} (q : PolicyQueries S E) (s : S) (rule : PolicyRule)
    : Type 0 where
  pub policies : List GroupPolicy
  pub found : q.find_policies_by_group s rule.group_uuid ≡ ok policies
  pub acceptable : IsAcceptable policies rule

-- The rule of a row
unfoldable pub rule_of : Option Uuid → GroupPolicy → PolicyRule
rule_of id p = record {
  id = id;
  group_uuid = p.group_uuid;
  priority = p.priority;
  effect = p.effect;
  action = p.action;
  resource = p.resource;
}

-- What the statements do: `row` is the row of the table under a key. A SELECT returns it, an UPDATE sets its one column, an
-- INSERT adds a row of the values and returns it.
pub record Writes {S E : Type 0} (q : PolicyQueries S E) (row : S → Uuid → Option GroupPolicy)
    : Type 0 where
  pub finds :
      (id : Uuid) (s t : S) (r : GroupPolicy)
      → q.find_policy_by_uuid id s ≡ ok (r, t)
      → (t ≡ s) × (row s id ≡ some r)
  pub creates :
      (rule : PolicyRule) (s t : S) (r : GroupPolicy)
      → q.create_policy rule s ≡ ok (r, t)
      → (row t r.uuid ≡ some r) × (rule_of rule.id r ≡ rule)
  pub sets_group :
      (id : Uuid) (x : Uuid) (s t : S) (n : ℕ) (r : GroupPolicy)
      → q.set_policy_group id x s ≡ ok (n, t)
      → row s id ≡ some r
      → row t id ≡ some (record r { group_uuid = x })
  pub sets_priority :
      (id : Uuid) (x : ℤ) (s t : S) (n : ℕ) (r : GroupPolicy)
      → q.set_policy_priority id x s ≡ ok (n, t)
      → row s id ≡ some r
      → row t id ≡ some (record r { priority = x })
  pub sets_effect :
      (id : Uuid) (x : Text) (s t : S) (n : ℕ) (r : GroupPolicy)
      → q.set_policy_effect id x s ≡ ok (n, t)
      → row s id ≡ some r
      → row t id ≡ some (record r { effect = x })
  pub sets_action :
      (id : Uuid) (x : Text) (s t : S) (n : ℕ) (r : GroupPolicy)
      → q.set_policy_action id x s ≡ ok (n, t)
      → row s id ≡ some r
      → row t id ≡ some (record r { action = x })
  pub sets_resource :
      (id : Uuid) (x : Text) (s t : S) (n : ℕ) (r : GroupPolicy)
      → q.set_policy_resource id x s ≡ ok (n, t)
      → row s id ≡ some r
      → row t id ≡ some (record r { resource = x })

module _ {S E : Type 0} (q : PolicyQueries S E) where
  group_read :
      (rule : PolicyRule) (s : S)
      → validate_policy_rule (q.find_policies_by_group s) rule ≡ ok tt
      → (ps : List GroupPolicy) × (q.find_policies_by_group s rule.group_uuid ≡ ok ps)
  unfolding validate_policy_rule
  group_read rule s h = ground arith

  valid-IsStanding :
      (rule : PolicyRule) (s : S)
      → validate_policy_rule (q.find_policies_by_group s) rule ≡ ok tt
      → IsStanding q s rule
  valid-IsStanding rule s h =
      let (ps, e) = group_read rule s h in
      record {
        policies = ps;
        found = e;
        acceptable = (validate_policy_rule_iff (q.find_policies_by_group s) rule ps e).0 h;
      }

  checked_valid :
      (rule : PolicyRule) (s : S) (r : Unit × S)
      → validate_rule q rule s ≡ ok r
      → (validate_policy_rule (q.find_policies_by_group s) rule ≡ ok tt) × (r.1 ≡ s)
  unfolding validate_rule checked_on
  checked_valid rule s r h =
      elim (Result-cases (validate_policy_rule (q.find_policies_by_group s) rule)) [
        | inr (x, e) ↦ cc (rw e at h)
        | inl (u, e) ↦ (e, let f : (u, s) ≡ r = cc (rw e at h) in sym (ap (λ x. x.1) f))
      ]

  module _ (row : S → Uuid → Option GroupPolicy) (writes : Writes q row) where
    -- A column that is set where a value is given
    sets-optional :
        {A : Type 0} (id : Uuid) (set : A → Plain.Statement S (RuleError E) ℕ)
        (with : Option A → GroupPolicy → GroupPolicy) (o : Option A) (s t : S) (n : ℕ)
        (r : GroupPolicy)
        → ((p : GroupPolicy) → with none p ≡ p)
        → ((x : A) → set x s ≡ ok (n, t) → row t id ≡ some (with (some x) r))
        → Plain.optional o set s ≡ ok (n, t)
        → row s id ≡ some r
        → row t id ≡ some (with o r)
    unfolding Plain.optional Plain.pure
    sets-optional id set with none s t n r z l h k =
        let same : s ≡ t = cc h in
        subst (λ x. row x id ≡ some (with none r)) same (k ∙ ap some (sym (z r)))
    sets-optional id set with (some x) s t n r z l h k = l x h

    unfoldable reads : Uuid → Plain.Statement S (RuleError E) ℕ
    reads id = do q.find_policy_by_uuid id; pure 0

    when-same :
        (z : Bool) (id : Uuid) (s t : S) (n : ℕ) → Plain.when z (reads id) s ≡ ok (n, t) → t ≡ s
    unfolding Plain.when pure reads
    when-same false id s t n h = let same : s ≡ t = cc h in sym same
    when-same true id s t n h =
        let (r, s', e, k) = Plain.bind-eq-ok (q.find_policy_by_uuid id) _ s h in
        let same : s' ≡ t = cc k in sym same ∙ (writes.finds id s s' r e).0

    unfoldable written : UpdatePolicyParams → GroupPolicy → GroupPolicy
    written p r = record {
      uuid = r.uuid;
      group_uuid = given_or p.group_uuid r.group_uuid;
      priority = given_or (narrowed p.priority) r.priority;
      effect = given_or p.effect r.effect;
      action = given_or p.action r.action;
      resource = given_or p.resource r.resource;
    }

    pure_state : (a n : ℕ) (s t : S) → pure {E = RuleError E} a s ≡ ok (n, t) → s ≡ t
    unfolding pure
    pure_state a n s t h = cc h

    -- The statements of Update after the validation
    unfoldable fields : Uuid → UpdatePolicyParams → Plain.Statement S (RuleError E) ℕ
    unfolding reads
    fields id p = do
      a ← Plain.optional p.group_uuid (q.set_policy_group id)
      b ← Plain.optional (narrowed p.priority) (q.set_policy_priority id)
      c ← Plain.optional p.effect (q.set_policy_effect id)
      d ← Plain.optional p.action (q.set_policy_action id)
      e ← Plain.optional p.resource (q.set_policy_resource id)
      Plain.when (a + b + c + d + e == 0) (reads id)
      pure (a + b + c + d + e)

    fields-written :
        (id : Uuid) (p : UpdatePolicyParams) (s t : S) (n : ℕ) (r : GroupPolicy)
        → fields id p s ≡ ok (n, t)
        → row s id ≡ some r
        → row t id ≡ some (written p r)
    unfolding fields given_or written
    fields-written id p s t n r h k =
        let (a, s1, ea, h1) =
          Plain.bind-eq-ok (Plain.optional p.group_uuid (q.set_policy_group id)) _ s h in
        let (b, s2, eb, h2) =
          Plain.bind-eq-ok (Plain.optional (narrowed p.priority) (q.set_policy_priority id)) _ s1
            h1 in
        let (c, s3, ec, h3) =
          Plain.bind-eq-ok (Plain.optional p.effect (q.set_policy_effect id)) _ s2 h2 in
        let (d, s4, ed, h4) =
          Plain.bind-eq-ok (Plain.optional p.action (q.set_policy_action id)) _ s3 h3 in
        let (e, s5, ee, h5) =
          Plain.bind-eq-ok (Plain.optional p.resource (q.set_policy_resource id)) _ s4 h4 in
        let (w, s6, ew, h6) =
          Plain.bind-eq-ok (Plain.when (a + b + c + d + e == 0) (reads id)) _ s5 h5 in
        let last = pure_state (a + b + c + d + e) n s6 t h6 in
        let k1 =
          sets-optional id (q.set_policy_group id)
            (λ o v. record v { group_uuid = given_or o v.group_uuid }) p.group_uuid s s1 a r
            (λ v. refl) (λ x l. writes.sets_group id x s s1 a r l k) ea k in
        let k2 =
          sets-optional id (q.set_policy_priority id)
            (λ o v. record v { priority = given_or o v.priority }) (narrowed p.priority) s1 s2 b _
            (λ v. refl) (λ x l. writes.sets_priority id x s1 s2 b _ l k1) eb k1 in
        let k3 =
          sets-optional id (q.set_policy_effect id)
            (λ o v. record v { effect = given_or o v.effect }) p.effect s2 s3 c _ (λ v. refl)
            (λ x l. writes.sets_effect id x s2 s3 c _ l k2) ec k2 in
        let k4 =
          sets-optional id (q.set_policy_action id)
            (λ o v. record v { action = given_or o v.action }) p.action s3 s4 d _ (λ v. refl)
            (λ x l. writes.sets_action id x s3 s4 d _ l k3) ed k3 in
        let k5 =
          sets-optional id (q.set_policy_resource id)
            (λ o v. record v { resource = given_or o v.resource }) p.resource s4 s5 e _ (λ v. refl)
            (λ x l. writes.sets_resource id x s4 s5 e _ l k4) ee k4 in
        subst (λ x. row x id ≡ some (written p r))
          (sym (when-same (a + b + c + d + e == 0) id s5 s6 w ew) ∙ last) k5

    updated-row :
        (id : Uuid) (p : UpdatePolicyParams) (s t : S) (n : ℕ)
        → updated q id p s ≡ ok (n, t)
        → (r : GroupPolicy) × (row t id ≡ some r) × IsStanding q s (rule_of (some id) r)
    unfolding updated rule_of next_rule given_or fields reads written
    updated-row id p s t n h =
        let (current, s0, e, h0) = Plain.bind-eq-ok (q.find_policy_by_uuid id) _ s h in
        let (same, found) = writes.finds id s s0 current e in
        let (u, s1, v, h1) = Plain.bind-eq-ok (validate_rule q (next_rule id current p)) _ s0 h0 in
        let (valid, kept) = checked_valid (next_rule id current p) s0 (u, s1) v in
        let at_start : row s1 id ≡ some current =
          subst (λ x. row x id ≡ some current) (sym same ∙ sym kept) found in
        (
          written p current,
          fields-written id p s1 t n current h1 at_start,
          subst (λ x. IsStanding q x (next_rule id current p)) same
              (valid-IsStanding (next_rule id current p) s0 valid),
        )

    -- Where the statements do what they say, and Update of a policy outside any transaction returns a count, the row of the
    -- policy that is then committed holds a rule that passed validation against the policies of its group as they were before.
    pub update-IsStanding :
        (faults : Faults S (RuleError E)) (id : Uuid) (p : UpdatePolicyParams) (s : S) (n : ℕ)
        → (update q faults id p (idle s)).0 ≡ ok n
        → (r : GroupPolicy) × (row (update q faults id p (idle s)).1.committed id ≡ some r)
          × IsStanding q s (rule_of (some id) r)
    update-IsStanding faults id p s n h =
        let same = update-atomically q faults id p s in
        let (t, e, d) = atomically-eq-ok faults (updated q id p) s n (rw same at h) in
        let (r, f, v) = updated-row id p s t n e in
        (r, ap (λ x. row x.1.committed id) same ∙ ap (λ x. row x id) d ∙ f, v)

    -- Where the statements do what they say, and Add returns a row, this row is committed and holds a rule that passed
    -- validation against the policies of its group as they were before, and this rule is that of the parameters.
    pub add-IsStanding :
        (faults : Faults S (RuleError E)) (p : NewPolicyParams) (c : Conn S) (r : GroupPolicy)
        → (add q faults p c).0 ≡ ok r
        → (row (add q faults p c).1.committed r.uuid ≡ some r)
          × (rule_of none r ≡ new_rule p)
          × IsStanding q c.committed (rule_of none r)
    unfolding add validate_rule checked_on query Database.◌>>=◌ Database.continue new_rule
    add-IsStanding faults p c r h =
        elim (Result-cases
          (validate_policy_rule (q.find_policies_by_group c.committed) (new_rule p))) [
            | inr (x, e) ↦ cc (rw e at h)
            | inl (u, e) ↦ elim (Result-cases (q.create_policy (new_rule p) c.committed)) [
              | inr (x, f) ↦ cc (rw (e, f) at h)
              | inl ((r', t), f) ↦
                  let same : r' ≡ r = cc (rw (e, f) at h) in
                  let (held, made) = writes.creates (new_rule p) c.committed t r' f in
                  let made' : rule_of none r ≡ new_rule p = ap (rule_of none) (sym same) ∙ made in
                  (
                    rw (e, f) (subst (λ x. row t x.uuid ≡ some x) same held),
                    made',
                    subst (λ x. IsStanding q c.committed x) (sym made')
                        (valid-IsStanding (new_rule p) c.committed e),
                  )
            ]
          ]
