-- ===== src/Middleware/Validator.antt =====
-- PolicyValidator of middleware/policyvalidator.go. The databases of postgres.GetDB with the two queries it runs on them, the
-- parameters of the URL and the order in which Go visits a map are parameters.
pub mod Collected
pub mod Served
use self_host.Prelude.{
  ℕ, Bool, true, false, not, ◌&&◌, Option, none, some, List, [], ◌∷◌, ◌++◌, if◌then◌else◌, is_empty,
  any, Result, ok, err,
}
use self_host.Text.{Text, codes, text_eq}
use self_host.Text.Map.{TextMap, insert}
use self_host.Errors.{
  Error, error_forbidden, error_unauthorized, error_unprocessable, new_invalid_request_error,
  parse_db_error, Reply, send_http_error,
}
use self_host.Policy.Rule.{Uuid}
use self_host.Policy.Check.{
  Context, ExplainQuery, with_policy_check_cache, user_has_many_access_via_token,
}
use self_host.Middleware.Scope.{rewrite_resource, split_scope}

-- `D` are the handles of databases.
pub record Databases (D : Type 0) : Type 0 where
  pub get_db : Text → Result Error D
  pub explain : D → ExplainQuery Error
  pub get_user_uuid_from_token : D → Text → Result Error Uuid

pub record Request : Type 0 where
  -- The domain and the API key
  pub basic_auth : Option (Text × Text)
  pub scopes : Option (List Text)
  pub url_param : Text → Text
  pub context : Context

-- The values of the context with which the next handler is called.
pub record ServedContext (D : Type 0) : Type 0 where
  pub domaintoken : Option (Text × Text)
  pub db : D
  pub user_uuid : Option Uuid
  pub policy_cache : Context

pub data Answer (D : Type 0) : Type 0 where
  refused : Reply → Answer D
  served : ServedContext D → Answer D

-- resourcesByAction, with a new key at the end
unfoldable pub add_resource : Text → Text → TextMap (List Text) → TextMap (List Text)
add_resource action resource [] = (action, resource ∷ []) ∷ []
add_resource action resource ((a, rs) ∷ m) =
    let rest = add_resource action resource m in
    if text_eq a action then (a, rs ++ resource ∷ []) ∷ m else (a, rs) ∷ rest

-- The first loop over the scopes
unfoldable pub collect_resources :
    (Text → Text) → List Text → TextMap (List Text) → Result Error (TextMap (List Text))
collect_resources url_param [] m = ok m
collect_resources url_param (scope ∷ scopes) m = elim (split_scope scope) [
  | none ↦ err error_unprocessable
  | some (action, resource) ↦
      collect_resources url_param scopes
        (add_resource action (rewrite_resource url_param resource) m)
]

-- The loop over resourcesByAction, in the order of the entries
unfoldable pub check_actions :
    ExplainQuery Error → Text → TextMap (List Text) → Context → Result Error Unit × Context
check_actions query api_key [] ctx = (ok tt, ctx)
check_actions query api_key ((action, resources) ∷ m) ctx =
    let (access, ctx') = user_has_many_access_via_token query api_key action resources ctx in
    elim access [
      | err e ↦ (err (parse_db_error e), ctx')
      | ok granted ↦ elim granted [
        | false ↦ (err error_forbidden, ctx')
        | true ↦ check_actions query api_key m ctx'
      ]
    ]

needs_user_id : Option (Text × Text) → Bool
needs_user_id none = false
needs_user_id (some (action, resource)) = not (text_eq action (codes "read"))

-- The second loop over the scopes
unfoldable pub requires_user_id : List Text → Bool
unfolding needs_user_id
requires_user_id scopes = any (λ scope. needs_user_id (split_scope scope)) scopes

unfoldable pub domain_token : Text → Text → Option (Text × Text)
domain_token domain api_key =
    if not (is_empty domain) && not (is_empty api_key) then some (domain, api_key) else none

module _ {D : Type 0} (dbs : Databases D) where
  with_user : TextMap Text → ServedContext D → Result Error Uuid → Answer D
  with_user headers c (err e) = refused (send_http_error headers (parse_db_error e))
  with_user headers c (ok id) = served (record c { user_uuid = some id })

  -- After the access checks
  unfoldable pub serve : TextMap Text → Text → Text → List Text → D → Context → Answer D
  unfolding with_user domain_token requires_user_id
  serve headers domain api_key scopes db cache =
      let c : ServedContext D = record {
        domaintoken = domain_token domain api_key;
        db = db;
        user_uuid = none;
        policy_cache = cache;
      } in
      if requires_user_id scopes
      then with_user headers c (dbs.get_user_uuid_from_token db api_key)
      else served c

module _ {D : Type 0} (dbs : Databases D) (visit : TextMap (List Text) → TextMap (List Text)) where
  checked : TextMap Text → Text → Text → List Text → D → Result Error Unit × Context → Answer D
  checked headers domain api_key scopes db (err e, ctx) = refused (send_http_error headers e)
  checked headers domain api_key scopes db (ok u, ctx) =
      serve dbs headers domain api_key scopes db ctx

  collected :
      TextMap Text
      → Text
      → Text
      → List Text
      → D
      → Context
      → Result Error (TextMap (List Text))
      → Answer D
  unfolding checked
  collected headers domain api_key scopes db ctx (err e) = refused (send_http_error headers e)
  collected headers domain api_key scopes db ctx (ok m) =
      checked headers domain api_key scopes db
        (check_actions (dbs.explain db) api_key (visit m) ctx)

  with_db :
      TextMap Text → Text → Text → List Text → (Text → Text) → Context → Result Error D → Answer D
  unfolding collected
  with_db headers domain api_key scopes url_param ctx (err e) =
      refused (send_http_error headers (new_invalid_request_error e))
  with_db headers domain api_key scopes url_param ctx (ok db) =
      collected headers domain api_key scopes db ctx (collect_resources url_param scopes [])

  with_scopes : TextMap Text → Text → Text → (Text → Text) → Context → Option (List Text) → Answer D
  unfolding with_db
  with_scopes headers domain api_key url_param ctx none =
      refused (send_http_error headers error_forbidden)
  with_scopes headers domain api_key url_param ctx (some scopes) =
      with_db headers domain api_key scopes url_param ctx (dbs.get_db domain)

  with_auth : TextMap Text → Request → Option (Text × Text) → Answer D
  unfolding with_scopes
  with_auth headers r none = refused (
      send_http_error
        (insert (codes "WWW-Authenticate") (codes "Basic realm=\"Selfhost API\"") headers)
        error_unauthorized)
  with_auth headers r (some (domain, api_key)) =
      with_scopes headers domain api_key r.url_param (with_policy_check_cache r.context) r.scopes

  unfoldable pub policy_validator : Request → Answer D
  unfolding with_auth with_scopes with_db collected checked
  policy_validator r =
      with_auth (insert (codes "Content-Type") (codes "application/json") []) r r.basic_auth
