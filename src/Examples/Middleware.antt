-- ===== src/Examples/Middleware.antt =====
-- The middleware at concrete inputs.
use self_host.Prelude.{◌≡◌, refl, subst, false, Option, some, List, [], ◌∷◌, ok, All}
use self_host.Text.{Text, codes, contains_char, split, text_eq, has_prefix, extend_head}
use self_host.Text.Map.{TextMap, lookup, insert}
use self_host.Policy.Check.{
  AccessDecision, cache_key_string, with_policy_check_cache, cache_lookup, lookup_pass, enter_rows,
  ordered, decision_of_row, explain_user_access_many_via_token, user_has_many_access_via_token,
  cache_store_many,
}
use self_host.Examples.Decisions.{
  grant, everyone, query, query-Answers, empty-IsCurrent, token_plain,
}
use self_host.Middleware.Scope.{rewrite_resource, split_scope}
use self_host.Middleware.Scope.Expanded.{Template, printed, filled, IsPart, rewrite_resource-filled}
use self_host.Middleware.Validator.{
  Databases, Request, ServedContext, served, policy_validator, collect_resources, add_resource,
  check_actions, serve,
}
use self_host.Middleware.Validator.Served.{Visits, IsNulFree, Permits, served-Permits}

abbrev revision : Template
revision = record {
  first = codes "programs/";
  rest = (codes "uuid", codes "/revisions/") ∷ (codes "revision_id", []) ∷ [];
}

abbrev value : Text → Text
value name = codes "7"

revision-IsPart : All (IsPart value) revision.rest
unfolding IsPart contains_char
revision-IsPart = ((refl, refl, refl, refl, refl), ((refl, refl, refl, refl, refl), tt))

rewrite_resource-filled_example : rewrite_resource value (printed revision) ≡ filled value revision
rewrite_resource-filled_example =
    rewrite_resource-filled value revision (unfold contains_char in refl) revision-IsPart

revision_printed : printed revision ≡ codes "programs/{uuid}/revisions/{revision_id}"
unfolding printed
revision_printed = refl

revision_rewritten :
    rewrite_resource value (codes "programs/{uuid}/revisions/{revision_id}")
    ≡ codes "programs/7/revisions/7"
unfolding rewrite_resource has_prefix
revision_rewritten = refl

abbrev dbs : Databases Unit
dbs = record {
  get_db = λ domain. ok tt;
  explain = λ db. query;
  get_user_uuid_from_token = λ db token. ok 7;
}

abbrev request : Request
request = record {
  basic_auth = some (codes "test", codes "tok");
  scopes = some (codes "read:things/{uuid}" ∷ codes "update:things/{uuid}" ∷ []);
  url_param = value;
  context = some [];
}

key_of : (a b c d : Text) → ◌≡◌ {A = Option (Text × Text)} (some (a, b)) (some (c, d)) → b ≡ d
key_of a b c d h = cc h

value_of : {x y : List Text} → some x ≡ some y → x ≡ y
value_of h = cc h

request-IsNulFree : IsNulFree request
unfolding contains_char
request-IsNulFree = record {
  key = λ domain key e.
      subst (λ (k : Text). contains_char k 0 ≡ false) (key_of _ _ _ _ e) token_plain;
  scope = λ scopes e.
      subst (λ (l : List Text). All (λ s. contains_char s 0 ≡ false) l) (value_of e)
        (refl, (refl, tt));
}

same-Visits : Visits (λ m. m)
same-Visits = record { entries = λ m e. (λ i. i, λ i. i) }

-- The decision on the thing that the URL names, which the cache keeps.
abbrev kept : Text → TextMap AccessDecision → TextMap AccessDecision
kept action cache =
    insert (cache_key_string (codes "tok") action (codes "things/7"))
      (decision_of_row action (grant (codes "tok") action (codes "things/7"))) cache

abbrev context : ServedContext Unit
context = record {
  domaintoken = some (codes "test", codes "tok");
  db = tt;
  user_uuid = some 7;
  policy_cache = some (kept (codes "update") (kept (codes "read") []));
}

request_served : policy_validator dbs (λ m. m) request ≡ served context
unfolding policy_validator with_policy_check_cache collect_resources add_resource check_actions
    split_scope split text_eq rewrite_resource has_prefix serve user_has_many_access_via_token
    explain_user_access_many_via_token lookup_pass cache_lookup lookup insert enter_rows ordered
    decision_of_row cache_store_many extend_head cache_key_string
request_served = refl

served-Permits_example : Permits dbs (λ db. grant) (λ db. everyone) request context
served-Permits_example =
    served-Permits dbs (λ db. grant) (λ db. everyone) (λ db. query-Answers) (λ m. m) same-Visits
      request request-IsNulFree (λ db. empty-IsCurrent) context request_served
