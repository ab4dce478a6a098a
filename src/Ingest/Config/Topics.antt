-- ===== src/Ingest/Config/Topics.antt =====
-- The topics that valid routes subscribe to, and the segments of a regular expression.
use self_host.Prelude.{
  Outcome, of_value, of_error, is_empty, bind-Outcome, weaken-Outcome, ok-Outcome, Outcome-ok, ℕ,
  ◌≡◌, refl, sym, ap, subst, ◌∙◌, inl, inr, Bool, true, false, not, ◌&&◌, List, [], ◌∷◌, ◌++◌,
  if◌then◌else◌, Result, ok, err, fail_if, Bool-cases, arith,
}
use mathlib.Core.List.{append_assoc, append-nil}
use self_host.Text.{Text, codes, join, trim_space, trim_suffix}
use self_host.Ingest.Config.{
  ConfigError, RouteConfig, is_blank, validate_subscription_topic, next_class, next_escaped, cuts,
  cons_segment, split_loop, split_regex_path, topic_segments, derive_subscription_topic_from_regex,
  resolve_subscription_topic, validate_route, empty_regex, topic_required, topics_exclusive,
  name_required, trim_caret,
}
use self_host.Ingest.Config.Subscribable.{IsSubscribable, valid-IsSubscribable}

ok_injective : {E A : Type 0} (x y : A) → ◌≡◌ {A = Result E A} (ok x) (ok y) → x ≡ y
ok_injective x y h = cc h

-- There is a first segment, and the segments joined by slashes are the text.
Joins : List Text → Text → Type 0
Joins segments s = (h : Text) × (t : List Text) × (segments ≡ h ∷ t) × (join (h ∷ t) 47 ≡ s)

ended :
    (in_class escaped : Bool) (current : Text) (segments : List Text)
    → split_loop in_class escaped current [] ≡ ok segments
    → segments ≡ current ∷ []
unfolding split_loop
ended false false current segments h = sym (ok_injective _ _ h)
ended true false current segments h = cc h
ended in_class true current segments h = cc h

cut_slash : (in_class escaped : Bool) (r : ℕ) → cuts in_class escaped r ≡ true → r ≡ 47
unfolding cuts
cut_slash in_class escaped r h = ground (arith, h)

cons_segment-ok :
    (current : Text) (rest : Result ConfigError (List Text)) (segments : List Text)
    → cons_segment true current rest ≡ ok segments
    → (tail : List Text) × (rest ≡ ok tail) × (segments ≡ current ∷ tail)
unfolding cons_segment
cons_segment-ok current (ok tail) segments h = (tail, refl, sym (ok_injective _ _ h))
cons_segment-ok current (err e) segments h = cc h

segment-Joins :
    (c : Bool) (r : ℕ) (current rs : Text) (rest : Result ConfigError (List Text))
    (segments : List Text)
    → (c ≡ true → r ≡ 47)
    → ((tail : List Text)
        → rest ≡ ok tail
        → Joins tail ((if c then [] else current ++ r ∷ []) ++ rs))
    → cons_segment c current rest ≡ ok segments
    → Joins segments (current ++ r ∷ rs)
unfolding Joins join cons_segment
segment-Joins true r current rs rest segments slash ih h =
    let (tail, e, f) = cons_segment-ok current rest segments h in
    let (head, more, g, j) = ih tail e in
    (current, head ∷ more, f ∙ ap (λ x. current ∷ x) g, λ i. current ++ (sym (slash refl) i ∷ j i))
segment-Joins false r current rs rest segments slash ih h =
    subst (Joins segments) (append_assoc current (r ∷ []) rs) (ih segments h)

split_loop-Joins :
    (in_class escaped : Bool) (current s : Text) (segments : List Text)
    → split_loop in_class escaped current s ≡ ok segments
    → Joins segments (current ++ s)
unfolding Joins join split_loop
split_loop-Joins in_class escaped current [] segments h =
    (current, [], ended in_class escaped current segments h, sym (append-nil current))
split_loop-Joins in_class escaped current (r ∷ rs) segments h =
    segment-Joins (cuts in_class escaped r) r current rs _ segments (cut_slash in_class escaped r)
      (split_loop-Joins (next_class in_class escaped r) (next_escaped escaped r)
        (if cuts in_class escaped r then [] else current ++ r ∷ []) rs)
      h

-- The segments that splitRegexPath yields, joined by slashes, are the expression.
pub split_regex_path-join :
    (expr : Text) (segments : List Text)
    → split_regex_path expr ≡ ok segments
    → join segments 47 ≡ expr
unfolding split_regex_path Joins
split_regex_path-join expr segments h =
    let (head, more, e, j) = split_loop-Joins false false [] expr segments h in
    ap (λ x. join x 47) e ∙ j

IsTopic : Text → Type 0
IsTopic t = validate_subscription_topic t ≡ ok tt

-- A topic that is derived is one that may be subscribed to.
derived-IsTopic :
    (expr : Text) → Outcome IsTopic (λ e. Unit) (derive_subscription_topic_from_regex expr)
unfolding derive_subscription_topic_from_regex IsTopic
derived-IsTopic expr =
    let trimmed = trim_suffix (trim_caret (trim_space expr)) (codes "$") in
    bind-Outcome (ok-Outcome (fail_if (is_empty trimmed) empty_regex)) λ u _.
      bind-Outcome (ok-Outcome (split_regex_path trimmed)) λ segments _.
        bind-Outcome (ok-Outcome (topic_segments segments)) λ out _.
          bind-Outcome (ok-Outcome (validate_subscription_topic (join out 47))) λ v e. of_value e

resolved-IsTopic :
    (r : RouteConfig)
    → (if not (is_blank r.topic) then validate_subscription_topic r.topic else ok tt) ≡ ok tt
    → (if not (is_blank r.subscription) then validate_subscription_topic r.subscription else ok tt)
      ≡ ok tt
    → Outcome IsTopic (λ e. Unit) (resolve_subscription_topic r)
unfolding resolve_subscription_topic IsTopic
resolved-IsTopic r t s = elim (Bool-cases (not (is_blank r.subscription))) [
  | inl e ↦ rw e (of_value (rw e at s))
  | inr e ↦ rw e (elim (Bool-cases (not (is_blank r.topic))) [
    | inl f ↦ rw f (of_value (rw f at t))
    | inr f ↦ rw f (
        bind-Outcome (ok-Outcome (fail_if (is_blank r.topic_regex) topic_required))
          λ u _. derived-IsTopic r.topic_regex)
  ])
]

-- What is known of the value, and that it is the result.
with_ok :
    {A : Type 0} {P : A → Type 0} (m : Result ConfigError A)
    → Outcome P (λ e. Unit) m
    → Outcome (λ a. (m ≡ ok a) × P a) (λ e. Unit) m
with_ok (ok a) h = of_value (refl, Outcome-ok h)
with_ok (err e) h = of_error tt

Subscribes : RouteConfig → Type 0
unfolding IsTopic
Subscribes r = (t : Text) × (resolve_subscription_topic r ≡ ok t) × IsTopic t

validated-Subscribes :
    (is_uuid : Text → Bool) (r : RouteConfig)
    → Outcome (λ u. Subscribes r) (λ e. Unit) (validate_route is_uuid r)
unfolding validate_route Subscribes
validated-Subscribes is_uuid r =
    let has_topic = not (is_blank r.topic) in
    let has_topic_regex = not (is_blank r.topic_regex) in
    bind-Outcome (ok-Outcome (fail_if (is_blank r.name) name_required)) λ a _.
      bind-Outcome (ok-Outcome (fail_if (not has_topic && not has_topic_regex) topic_required))
        λ b _.
          bind-Outcome (ok-Outcome (fail_if (has_topic && has_topic_regex) topics_exclusive)) λ c _.
            bind-Outcome
              (ok-Outcome (if has_topic then validate_subscription_topic r.topic else ok tt))
              λ d t.
                bind-Outcome
                  (ok-Outcome (
                    if not (is_blank r.subscription)
                    then validate_subscription_topic r.subscription
                    else ok tt))
                  λ f s.
                    bind-Outcome (with_ok (resolve_subscription_topic r) (resolved-IsTopic r t s))
                      λ topic (e, v). weaken-Outcome (ok-Outcome _) λ g _. (topic, e, v)

-- A route that is valid subscribes to a topic, written down or derived from a regular expression, that is not blank and in
-- which "#" stands nowhere but at the end, be it a segment of its own or not.
pub validate_route-topic :
    (is_uuid : Text → Bool) (r : RouteConfig)
    → validate_route is_uuid r ≡ ok tt
    → (t : Text) × (resolve_subscription_topic r ≡ ok t) × IsSubscribable t
unfolding Subscribes IsTopic
validate_route-topic is_uuid r h =
    let (t, e, v) =
      Outcome-ok
        (subst (Outcome (λ u. Subscribes r) (λ e. Unit)) h (validated-Subscribes is_uuid r)) in
    (t, e, valid-IsSubscribable t v)
