-- ===== src/Policy/Rule/Redundant.antt =====
-- A policy that is refused as shadowed would have changed no decision.
use mathlib.Core.Bool.{false≢true}
use self_host.Prelude.{
  ◌≡◌, ◌↔◌, ◌⊎◌, inl, inr, sym, ap, subst, ◌∙◌, true, false, List, ◌∷◌, arith, Bool-cases, In,
}
use self_host.Prelude.Int.{ℤ, pos, negsuc, pos_part, neg_part, ltb_ℤ, ◌<ℤ◌}
use self_host.Text.{Text, text_eq}
use self_host.Text.Laws.{text_eq_iff}
use self_host.Policy.Cover.{policy_resource_covers}
use self_host.Policy.Cover.Like.{Unescaped}
use self_host.Policy.Cover.Sound.{covers-Like}
use self_host.Policy.Rule.{Uuid, PolicyRule, GroupPolicy, deny, policy_shadows}
use self_host.Policy.Rule.Decision.{Applies, Before, lower, denies, level, Decides}

-- The row that CreatePolicy writes for a rule.
abbrev pub row : Uuid → PolicyRule → GroupPolicy
row id r = record {
  uuid = id;
  group_uuid = r.group_uuid;
  priority = r.priority;
  effect = r.effect;
  action = r.action;
  resource = r.resource;
}

abbrev AtLeast : GroupPolicy → PolicyRule → Type 0
AtLeast e c =
    (e.priority <ℤ c.priority)
    ⊎ ((e.priority ≡ c.priority) × ((e.effect ≡ deny) ⊎ (e.effect ≡ c.effect)))

not_less : (a b : ℤ) → ltb_ℤ a b ≡ false → ltb_ℤ b a ≡ false → a ≡ b
not_less (pos a) (pos b) h k = ground arith
not_less (pos a) (negsuc b) h k = ground arith
not_less (negsuc a) (pos b) h k = ground arith
not_less (negsuc a) (negsuc b) h k = ground arith

ltb_ℤ→lt : (a b : ℤ) → ltb_ℤ a b ≡ true → a <ℤ b
ltb_ℤ→lt a b h = ground arith

lt_ℤ_irrefl : (a b : ℤ) → a <ℤ b → a ≡ b → ⊥
lt_ℤ_irrefl a b h e = absurd (omega (arith, ap pos_part e, ap neg_part e))

lt_ℤ_asym : (a b : ℤ) → a <ℤ b → b <ℤ a → ⊥
lt_ℤ_asym a b h k = omega arith

lt_ℤ_trans : (a b c : ℤ) → a <ℤ b → b <ℤ c → a <ℤ c
lt_ℤ_trans a b c h k = omega arith

shadows-covers :
    (e : GroupPolicy) (c : PolicyRule)
    → policy_shadows e c ≡ true
    → policy_resource_covers e.resource c.resource ≡ true
unfolding policy_shadows
shadows-covers e c h = ground arith

shadows-AtLeast : (e : GroupPolicy) (c : PolicyRule) → policy_shadows e c ≡ true → AtLeast e c
unfolding policy_shadows
shadows-AtLeast e c h = elim (Bool-cases (ltb_ℤ e.priority c.priority)) [
  | inl a ↦ inl (ltb_ℤ→lt e.priority c.priority a)
  | inr a ↦ elim (Bool-cases (ltb_ℤ c.priority e.priority)) [
    | inl b ↦ absurd (false≢true (ground arith))
    | inr b ↦ inr (
      not_less e.priority c.priority a b,
      elim (Bool-cases (text_eq e.effect deny)) [
        | inl d ↦ inl ((text_eq_iff e.effect deny).0 d)
        | inr d ↦ inr ((text_eq_iff e.effect c.effect).0 (ground arith))
      ],
    )
  ]
]

Before-trans : {p q r : GroupPolicy} → Before p q → Before q r → Before p r
Before-trans {p} {q} {r} (lower h) (lower k) =
    lower (lt_ℤ_trans p.priority q.priority r.priority h k)
Before-trans {p} (lower h) (denies e d) = lower (subst (λ x. p.priority <ℤ x) e h)
Before-trans {p} (lower h) (level e d) = lower (subst (λ x. p.priority <ℤ x) e h)
Before-trans {r} (denies e d) (lower k) = lower (subst (λ x. x <ℤ r.priority) (sym e) k)
Before-trans (denies e d) (denies f g) = denies (e ∙ f) d
Before-trans (denies e d) (level f g) = denies (e ∙ f) d
Before-trans {r} (level e d) (lower k) = lower (subst (λ x. x <ℤ r.priority) (sym e) k)
Before-trans (level e d) (denies f g) = absurd (d g)
Before-trans (level e d) (level f g) = level (e ∙ f) g

AtLeast-Before : (e : GroupPolicy) (id : Uuid) (c : PolicyRule) → AtLeast e c → Before e (row id c)
AtLeast-Before e id c (inl h) = lower h
AtLeast-Before e id c (inr (h, inl d)) = denies h d
AtLeast-Before e id c (inr (h, inr s)) = elim (Bool-cases (text_eq c.effect deny)) [
  | inl d ↦ denies h (s ∙ (text_eq_iff c.effect deny).0 d)
  | inr d ↦ level h (λ q. false≢true (sym d ∙ (text_eq_iff c.effect deny).1 q))
]

-- Two policies each of which may stand before the other have one effect.
tie_effect :
    (e : GroupPolicy) (id : Uuid) (c : PolicyRule)
    → AtLeast e c
    → Before (row id c) e
    → e.effect ≡ c.effect
tie_effect e id c (inl h) (lower k) = absurd (lt_ℤ_asym e.priority c.priority h k)
tie_effect e id c (inl h) (denies q d) = absurd (lt_ℤ_irrefl e.priority c.priority h (sym q))
tie_effect e id c (inl h) (level q d) = absurd (lt_ℤ_irrefl e.priority c.priority h (sym q))
tie_effect e id c (inr (h, inl d)) (lower k) = absurd (lt_ℤ_irrefl c.priority e.priority k (sym h))
tie_effect e id c (inr (h, inl d)) (denies q g) = d ∙ sym g
tie_effect e id c (inr (h, inl d)) (level q g) = absurd (g d)
tie_effect e id c (inr (h, inr s)) b = s

module _ (policies : List GroupPolicy) (e : GroupPolicy) (c : PolicyRule) (id : Uuid)
    (member : In e policies) (same_action : e.action ≡ c.action) (plain : Unescaped e.resource)
    (plain_candidate : Unescaped c.resource) (shadows : policy_shadows e c ≡ true) where
  Applies-existing :
      {action resource : Text} → Applies action resource (row id c) → Applies action resource e
  Applies-existing {resource} a = record {
    same_action = same_action ∙ a.same_action;
    is_like =
        covers-Like e.resource c.resource resource plain plain_candidate
          (shadows-covers e c shadows) a.is_like;
  }

  before : Before e (row id c)
  before = AtLeast-Before e id c (shadows-AtLeast e c shadows)

  still_first :
      {action resource effect : Text}
      → (d : Decides policies action resource effect) (p : GroupPolicy) → In p (row id c ∷ policies)
      → Applies action resource p
      → Before d.winner p
  still_first {action} {resource} d p (inl q) a = subst (Before d.winner) (sym q) (
      Before-trans (d.first e member (Applies-existing (subst (Applies action resource) q a)))
        before)
  still_first d p (inr m) a = d.first p m a

  Decides-cons :
      {action resource effect : Text}
      → Decides policies action resource effect
      → Decides (row id c ∷ policies) action resource effect
  Decides-cons d = record {
    winner = d.winner;
    member = inr d.member;
    applies = d.applies;
    first = still_first d;
    outcome = d.outcome;
  }

  Decides-tail :
      {action resource effect : Text}
      → Decides (row id c ∷ policies) action resource effect
      → Decides policies action resource effect
  Decides-tail {action} {resource} {effect} d = go d.member
    where
      go : In d.winner (row id c ∷ policies) → Decides policies action resource effect
      go (inr m) = record {
        winner = d.winner;
        member = m;
        applies = d.applies;
        first = λ p n a. d.first p (inr n) a;
        outcome = d.outcome;
      }
      go (inl q) =
          let a = Applies-existing (subst (Applies action resource) q d.applies) in
          let back = subst (λ w. Before w e) q (d.first e (inr member) a) in
          record {
            winner = e;
            member = member;
            applies = a;
            first = λ p n b. Before-trans before (subst (λ w. Before w p) q (d.first p (inr n) b));
            outcome =
                tie_effect e id c (shadows-AtLeast e c shadows) back
                ∙ ap (λ (w : GroupPolicy). w.effect) (sym q)
                ∙ d.outcome;
          }

  pub shadowed-Decides :
      (action resource effect : Text)
      → Decides policies action resource effect
        ↔ Decides (row id c ∷ policies) action resource effect
  shadowed-Decides action resource effect = (Decides-cons, Decides-tail)
