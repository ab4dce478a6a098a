-- ===== src/Policy/Rule/Refusal.antt =====
-- What validatePolicyRule accepts, and what its refusal of a shadowed policy says of the decisions.
use self_host.Prelude.{
  ◌≡◌, ◌↔◌, ◌⊎◌, inl, inr, refl, sym, subst, ◌∙◌, true, false, List, [], ◌∷◌, arith, Bool-cases, In,
  Result, ok, err,
}
use self_host.Prelude.Int.{pos, ltb_ℤ}
use self_host.Text.{Text, text_eq}
use self_host.Text.Laws.{text_eq_iff}
use self_host.Policy.Resource.{validate_resource}
use self_host.Policy.Resource.Grammar.{IsResource, validate_resource_iff}
use self_host.Policy.Cover.Like.{Unescaped}
use self_host.Policy.Rule.{
  Uuid, PolicyRule, GroupPolicy, shadowed_by, policy_shadows, is_same_policy, find_shadow,
  validate_policy_rule, validate_rule_shape, lift_resource,
}
use self_host.Policy.Rule.Decision.{Decides}
use self_host.Policy.Rule.Redundant.{row, shadowed-Decides}

-- `existing` stands against the rule: another policy for the same action, which shadows it.
pub record Shadows (existing : GroupPolicy) (rule : PolicyRule) : Type 0 where
  pub another : is_same_policy existing rule ≡ false
  pub same_action : existing.action ≡ rule.action
  pub shadows : policy_shadows existing rule ≡ true

module _ {E : Type 0} (e : GroupPolicy) (ps : List GroupPolicy) (rule : PolicyRule) where
  skip_same : is_same_policy e rule ≡ true → find_shadow {E = E} (e ∷ ps) rule ≡ find_shadow ps rule
  unfolding find_shadow
  skip_same h = ground arith

  skip_action :
      text_eq e.action rule.action ≡ false → find_shadow {E = E} (e ∷ ps) rule ≡ find_shadow ps rule
  unfolding find_shadow
  skip_action h = ground arith

  skip_unshadowed :
      policy_shadows e rule ≡ false → find_shadow {E = E} (e ∷ ps) rule ≡ find_shadow ps rule
  unfolding find_shadow
  skip_unshadowed h = ground arith

  stop_at : Shadows e rule → find_shadow {E = E} (e ∷ ps) rule ≡ err (shadowed_by e.uuid)
  unfolding find_shadow
  stop_at s = ground (arith, s.another, s.shadows, text_eq_iff e.action rule.action, s.same_action)

  shadow_cases : Shadows e rule ⊎ (find_shadow {E = E} (e ∷ ps) rule ≡ find_shadow ps rule)
  shadow_cases = elim (Bool-cases (is_same_policy e rule)) [
    | inl a ↦ inr (skip_same a)
    | inr a ↦ elim (Bool-cases (text_eq e.action rule.action)) [
      | inr b ↦ inr (skip_action b)
      | inl b ↦ elim (Bool-cases (policy_shadows e rule)) [
        | inl c ↦ inl (record {
          another = a;
          same_action = (text_eq_iff e.action rule.action).0 b;
          shadows = c;
        })
        | inr c ↦ inr (skip_unshadowed c)
      ]
    ]
  ]

find_shadow-found :
    {E : Type 0} (ps : List GroupPolicy) (rule : PolicyRule) (id : Uuid)
    → find_shadow {E = E} ps rule ≡ err (shadowed_by id)
    → (e : GroupPolicy) × In e ps × (e.uuid ≡ id) × Shadows e rule
find_shadow-found [] rule id h = unfold find_shadow in cc h
find_shadow-found {E} (e ∷ ps) rule id h = elim (shadow_cases {E = E} e ps rule) [
  | inl s ↦ let q = sym (stop_at e ps rule s) ∙ h in (e, inl refl, cc q, s)
  | inr q ↦ let (f, m, u, s) = find_shadow-found ps rule id (sym q ∙ h) in (f, inr m, u, s)
]

head_refutes :
    {E : Type 0} (e : GroupPolicy) (ps : List GroupPolicy) (rule : PolicyRule)
    → find_shadow {E = E} (e ∷ ps) rule ≡ ok tt
    → Shadows e rule
    → ⊥
head_refutes {E} e ps rule h s = cc (stop_at {E = E} e ps rule s, h)

find_shadow_iff :
    {E : Type 0} (ps : List GroupPolicy) (rule : PolicyRule)
    → (find_shadow {E = E} ps rule ≡ ok tt) ↔ ((e : GroupPolicy) → In e ps → ¬ Shadows e rule)
find_shadow_iff [] rule = (λ h e m s. m, λ h. unfold find_shadow in refl)
find_shadow_iff {E} (e ∷ ps) rule = elim (shadow_cases {E = E} e ps rule) [
  | inl s ↦ (λ h. cc (stop_at {E = E} e ps rule s, h), λ h. absurd (h e (inl refl) s))
  | inr q ↦
      let ih = find_shadow_iff {E = E} ps rule in
      (
        λ h f m s. elim m [
          | inl p ↦ head_refutes e ps rule h (subst (λ x. Shadows x rule) p s)
          | inr n ↦ ih.0 (sym q ∙ h) f n s
        ],
        λ h. q ∙ ih.1 (λ f m. h f (inr m)),
      )
]

lift_resource_iff :
    {E : Type 0} (r : PolicyRule)
    → (lift_resource {E = E} (validate_resource r.resource) ≡ ok tt) ↔ IsResource r.resource
lift_resource_iff r = (
  λ h. (validate_resource_iff r.resource).0 (ground arith),
  λ g. rw ((validate_resource_iff r.resource).1 g),
)

-- A rule that the policies of its group leave standing.
pub record IsAcceptable (policies : List GroupPolicy) (rule : PolicyRule) : Type 0 where
  pub not_negative : ltb_ℤ rule.priority (pos 0) ≡ false
  pub is_resource : IsResource rule.resource
  pub unshadowed : (e : GroupPolicy) → In e policies → ¬ Shadows e rule

module _ {E : Type 0} (find : Uuid → Result E (List GroupPolicy)) (rule : PolicyRule)
    (policies : List GroupPolicy) (found : find rule.group_uuid ≡ ok policies) where
  accepted_parts :
      validate_policy_rule find rule ≡ ok tt
      → (ltb_ℤ rule.priority (pos 0) ≡ false)
        × (lift_resource {E = E} (validate_resource rule.resource) ≡ ok tt)
        × (find_shadow {E = E} policies rule ≡ ok tt)
  unfolding validate_policy_rule validate_rule_shape
  accepted_parts h = ground arith

  accepted_whole :
      ltb_ℤ rule.priority (pos 0) ≡ false
      → lift_resource {E = E} (validate_resource rule.resource) ≡ ok tt
      → find_shadow {E = E} policies rule ≡ ok tt
      → validate_policy_rule find rule ≡ ok tt
  unfolding validate_policy_rule validate_rule_shape
  accepted_whole a b c = ground arith

  -- Validation accepts a rule exactly where its priority is not negative, its resource is well formed, and no other policy of its group for the same action shadows it.
  pub validate_policy_rule_iff :
      (validate_policy_rule find rule ≡ ok tt) ↔ IsAcceptable policies rule
  validate_policy_rule_iff = (
    λ h.
        let (a, b, c) = accepted_parts h in
        record {
          not_negative = a;
          is_resource = (lift_resource_iff {E = E} rule).0 b;
          unshadowed = (find_shadow_iff {E = E} policies rule).0 c;
        },
    λ g.
        accepted_whole g.not_negative ((lift_resource_iff {E = E} rule).1 g.is_resource)
          ((find_shadow_iff {E = E} policies rule).1 g.unshadowed),
  )

  refused_by :
      (id : Uuid)
      → validate_policy_rule find rule ≡ err (shadowed_by id)
      → find_shadow {E = E} policies rule ≡ err (shadowed_by id)
  unfolding validate_policy_rule validate_rule_shape
  refused_by id h = ground arith

  -- Where a rule whose resource holds no backslash is refused as shadowed by the policy `id`, then for any user whose
  -- policies hold those of the group, in none of whose resources a backslash stands, a policy with that rule would change
  -- the effect of no decision.
  pub refused-Decides :
      (id new : Uuid) (policies_of_user : List GroupPolicy)
      → validate_policy_rule find rule ≡ err (shadowed_by id)
      → ((p : GroupPolicy) → In p policies → In p policies_of_user × Unescaped p.resource)
      → Unescaped rule.resource
      → (action resource effect : Text)
      → Decides policies_of_user action resource effect
        ↔ Decides (row new rule ∷ policies_of_user) action resource effect
  refused-Decides id new held h within plain =
      let (e, m, _, s) = find_shadow-found policies rule id (refused_by id h) in
      let (n, u) = within e m in shadowed-Decides held e rule new n s.same_action u plain s.shadows
