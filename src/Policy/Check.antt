-- ===== src/Policy/Check.antt =====
-- internal/services/policy_check.go: access decisions for a token, kept in a cache of the request.
pub mod Key
pub mod Maps
pub mod Transparent
use self_host.Prelude.{
  ℕ, Bool, true, false, not, ◌&&◌, Option, none, some, List, [], ◌∷◌, ◌++◌, map, ◌==◌,
  if◌then◌else◌, is_empty, any, Result, ok, err,
}
use self_host.Prelude.Int.{ℤ}
use self_host.Text.{Text, text_eq}
use self_host.Text.Map.{TextMap, lookup, insert}
use self_host.Text.Order.{sort_texts}
use self_host.Policy.Rule.{Uuid}

pub record AccessDecision : Type 0 where
  pub resource : Text
  pub access : Bool
  pub policy_uuid : Option Uuid
  pub group_uuid : Option Uuid
  pub priority : Option ℤ
  pub effect : Option Text
  pub action : Text
  pub matched_pattern : Option Text

-- A row of the query ExplainUserTokenAccessMany.
pub record ExplainRow : Type 0 where
  pub resource : Text
  pub matched : Bool
  pub access : Bool
  pub policy_uuid : Uuid
  pub group_uuid : Uuid
  pub priority : ℤ
  pub effect : Text
  pub policy_resource : Text

-- The value of policyCheckCacheKey in the context: `none` where no cache was put there.
abbrev pub Context : Type 0
Context = Option (TextMap AccessDecision)

unfoldable pub with_policy_check_cache : Context → Context
with_policy_check_cache none = some []
with_policy_check_cache (some cache) = some cache

unfoldable pub cache_key_string : Text → Text → Text → Text
cache_key_string token action resource = token ++ (0 ∷ (action ++ (0 ∷ resource)))

unfoldable pub cache_lookup : Context → Text → Text → Text → Option AccessDecision
cache_lookup none token action resource = none
cache_lookup (some cache) token action resource =
    lookup (cache_key_string token action resource) cache

unfoldable pub store_decisions :
    Text → Text → List AccessDecision → TextMap AccessDecision → TextMap AccessDecision
store_decisions token action [] cache = cache
store_decisions token action (decision ∷ decisions) cache =
    store_decisions token action decisions
      (insert (cache_key_string token action decision.resource) decision cache)

unfoldable pub cache_store_many : Context → Text → Text → List AccessDecision → Context
unfolding store_decisions
cache_store_many none token action decisions = none
cache_store_many (some cache) token action decisions =
    some (store_decisions token action decisions cache)

-- The loop of dedupeStrings over its set of values seen.
unfoldable pub dedupe_loop : List Text → List Text → List Text
dedupe_loop seen [] = []
dedupe_loop seen (value ∷ values) =
    let known = dedupe_loop seen values in
    let new = value ∷ dedupe_loop (value ∷ seen) values in
    if any (λ s. text_eq s value) seen then known else new

unfoldable pub dedupe_strings : List Text → List Text
unfolding dedupe_loop sort_texts
dedupe_strings values = sort_texts (dedupe_loop [] values)

-- The decision without a row: no access.
unfoldable pub no_decision : Text → Text → AccessDecision
no_decision action resource = record {
  resource = resource;
  access = false;
  policy_uuid = none;
  group_uuid = none;
  priority = none;
  effect = none;
  action = action;
  matched_pattern = none;
}

unfoldable pub decision_of_row : Text → ExplainRow → AccessDecision
decision_of_row action row =
    let decision : AccessDecision = record {
      resource = row.resource;
      access = row.access;
      policy_uuid = none;
      group_uuid = none;
      priority = none;
      effect = none;
      action = action;
      matched_pattern = none;
    } in
    let explained : AccessDecision =
      (if row.matched
        then record decision {
          policy_uuid = some row.policy_uuid;
          group_uuid = some row.group_uuid;
          priority = some row.priority;
          effect = some row.effect;
          matched_pattern = some row.policy_resource;
        }
        else decision) in
    if row.matched && not (row.group_uuid == 0)
    then record explained { group_uuid = some row.group_uuid }
    else explained

-- The loop over the unique resources: the decisions found in the cache, and the resources that are not.
unfoldable pub lookup_pass : Context → Text → Text → List Text → TextMap AccessDecision × List Text
lookup_pass ctx token action [] = ([], [])
lookup_pass ctx token action (resource ∷ rest) =
    let (found, uncached) = lookup_pass ctx token action rest in
    elim (cache_lookup ctx token action resource) [
      | some decision ↦ (insert resource decision found, uncached)
      | none ↦ (found, resource ∷ uncached)
    ]

-- The loop over the rows, which enters each decision under its resource.
unfoldable pub enter_rows : Text → List ExplainRow → TextMap AccessDecision → TextMap AccessDecision
enter_rows action [] by_resource = by_resource
enter_rows action (row ∷ rows) by_resource =
    enter_rows action rows (insert row.resource (decision_of_row action row) by_resource)

-- The last loop: a decision for each resource, in the order asked.
unfoldable pub ordered : Text → TextMap AccessDecision → List Text → List AccessDecision
ordered action by_resource [] = []
ordered action by_resource (resource ∷ rest) = elim (lookup resource by_resource) [
  | some decision ↦ decision ∷ ordered action by_resource rest
  | none ↦ no_decision action resource ∷ ordered action by_resource rest
]

-- The query ExplainUserTokenAccessMany: a token, an action, and the resources.
abbrev pub ExplainQuery : Type 0 → Type 0
ExplainQuery E = Text → Text → List Text → Result E (List ExplainRow)

-- The part after the query.
unfoldable pub answer_rows :
    {E : Type 0}
    → Context
    → Text
    → Text
    → List Text
    → TextMap AccessDecision
    → Result E (List ExplainRow)
    → Result E (List AccessDecision) × Context
answer_rows ctx token action resources by_resource (err e) = (err e, ctx)
answer_rows ctx token action resources by_resource (ok rows) = (
  ok (ordered action (enter_rows action rows by_resource) resources),
  cache_store_many ctx token action (map (decision_of_row action) rows),
)

unfoldable pub explain_user_access_many_via_token :
    {E : Type 0}
    → ExplainQuery E
    → Text
    → Text
    → List Text
    → Context
    → Result E (List AccessDecision) × Context
unfolding dedupe_strings answer_rows
explain_user_access_many_via_token query token action resources ctx =
    if is_empty resources
    then (ok [], ctx)
    else let (by_resource, uncached) = lookup_pass ctx token action (dedupe_strings resources) in
      if is_empty uncached
      then (ok (ordered action by_resource resources), ctx)
      else answer_rows ctx token action resources by_resource (query token action uncached)

first_decision :
    {E : Type 0} → Text → Text → Result E (List AccessDecision) → Result E AccessDecision
first_decision action resource (err e) = err e
first_decision action resource (ok []) = ok (no_decision action resource)
first_decision action resource (ok (decision ∷ _)) = ok decision

unfoldable pub explain_user_access_via_token :
    {E : Type 0} → ExplainQuery E → Text → Text → Text → Context → Result E AccessDecision × Context
unfolding first_decision
explain_user_access_via_token query token action resource ctx =
    let (decisions, ctx') =
      explain_user_access_many_via_token query token action (resource ∷ []) ctx in
    (first_decision action resource decisions, ctx')

access_of : {E : Type 0} → Result E AccessDecision → Result E Bool
access_of (err e) = err e
access_of (ok decision) = ok decision.access

unfoldable pub user_has_access_via_token :
    {E : Type 0} → ExplainQuery E → Text → Text → Text → Context → Result E Bool × Context
unfolding access_of
user_has_access_via_token query token action resource ctx =
    let (decision, ctx') = explain_user_access_via_token query token action resource ctx in
    (access_of decision, ctx')

-- The loop of UserHasManyAccessViaToken.
unfoldable pub all_granted : List AccessDecision → Bool
all_granted [] = true
all_granted (decision ∷ decisions) = if not decision.access then false else all_granted decisions

unfoldable pub grants : {E : Type 0} → Result E (List AccessDecision) → Result E Bool
grants (err e) = err e
grants (ok decisions) = ok (all_granted decisions)

unfoldable pub user_has_many_access_via_token :
    {E : Type 0} → ExplainQuery E → Text → Text → List Text → Context → Result E Bool × Context
unfolding grants all_granted
user_has_many_access_via_token query token action resources ctx =
    if is_empty resources
    then (ok false, ctx)
    else let (decisions, ctx') =
        explain_user_access_many_via_token query token action resources ctx in
      (grants decisions, ctx')
