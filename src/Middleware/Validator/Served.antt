-- ===== src/Middleware/Validator/Served.antt =====
-- What the policy validator has made sure of where it calls the next handler.
use self_host.Prelude.{
  ◌≡◌, ◌↔◌, inl, inr, refl, ap, subst, Bool, true, false, none, some, List, [], ◌∷◌, Result, ok,
  err, Bool-cases, Option-cases, Result-cases, In, All, is_empty,
}
use self_host.Text.{Text}
use self_host.Text.Map.{TextMap, lookup}
use self_host.Errors.{Error}
use self_host.Policy.Rule.{Uuid}
use self_host.Policy.Check.{
  ExplainRow, Context, ExplainQuery, cache_lookup, with_policy_check_cache,
  user_has_many_access_via_token,
}
use self_host.Policy.Check.Key.{NulFree}
use self_host.Policy.Check.Maps.{Answers, IsCurrent, database_decision}
use self_host.Policy.Check.Transparent.{granted_many, explain_many-IsCurrent}
use self_host.Middleware.Scope.{rewrite_resource, split_scope}
use self_host.Middleware.Validator.{
  Databases, Request, ServedContext, served, requires_user_id, domain_token, serve, with_user,
  checked, collected, with_db, with_scopes, with_auth, policy_validator, collect_resources,
  check_actions,
}
use self_host.Middleware.Validator.Collected.{
  Holds, In-All, KeysFree, Collected, collect_resources-Collected, collect_resources-KeysFree,
}

module _ (row : Text → Text → Text → ExplainRow) (known : Text → Bool) (query : ExplainQuery Error)
    (answers : Answers row known query) (t : Text) (nul_free : NulFree t) where
  -- The database grants every resource of an entry.
  Granted : Text × List Text → Type 0
  Granted (a, rs) = All (λ r. (database_decision row known t a r).access ≡ true) rs

  many-IsCurrent :
      (a : Text) (rs : List Text) (ctx : Context)
      → NulFree a
      → IsCurrent row known ctx
      → IsCurrent row known (user_has_many_access_via_token query t a rs ctx).1
  unfolding user_has_many_access_via_token
  many-IsCurrent a rs ctx f c = elim (Bool-cases (is_empty rs)) [
    | inl e ↦ rw e c
    | inr e ↦ rw e (explain_many-IsCurrent row known query answers t a rs ctx nul_free f c)
  ]

  -- Where the loop over the actions goes through, the database grants every resource, and the cache stays current.
  check_actions-Granted :
      (m : TextMap (List Text)) (ctx ctx' : Context)
      → KeysFree m
      → IsCurrent row known ctx
      → check_actions query t m ctx ≡ (ok tt, ctx')
      → All Granted m × IsCurrent row known ctx'
  unfolding check_actions Granted KeysFree
  check_actions-Granted [] ctx ctx' f c h =
      (tt, subst (IsCurrent row known) (ap (λ (x : Result Error Unit × Context). x.1) h) c)
  check_actions-Granted ((a, rs) ∷ m) ctx ctx' f c h =
      elim (Result-cases (user_has_many_access_via_token query t a rs ctx).0) [
        | inr (x, e) ↦ cc (rw (e, check_actions) at h)
        | inl (false, e) ↦ cc (rw (e, check_actions) at h)
        | inl (true, e) ↦
            let (g, c') =
              check_actions-Granted m (user_has_many_access_via_token query t a rs ctx).1 ctx'
                (λ b qs i. f b qs (inr i)) (many-IsCurrent a rs ctx (f a rs (inl refl)) c)
                (rw (e, check_actions) at h) in
            (
              (
                (granted_many row known query answers t a rs ctx nul_free (f a rs (inl refl)) c
                    e).1,
                g,
              ),
              c',
            )
      ]

served_value : {D : Type 0} {x y : ServedContext D} → served x ≡ served y → x ≡ y
served_value h = cc h

-- A Go map is visited at every entry.
pub record Visits (visit : TextMap (List Text) → TextMap (List Text)) : Type 0 where
  pub entries : (m : TextMap (List Text)) (e : Text × List Text) → In e m ↔ In e (visit m)

-- Neither the API key nor a scope holds a NUL.
pub record IsNulFree (r : Request) : Type 0 where
  pub key : (domain api_key : Text) → r.basic_auth ≡ some (domain, api_key) → NulFree api_key
  pub scope : (scopes : List Text) → r.scopes ≡ some scopes → All (λ s. NulFree s) scopes

module _ {D : Type 0} (dbs : Databases D) (row : D → Text → Text → Text → ExplainRow)
    (known : D → Text → Bool) where
  -- The database grants the scope's action on its resource to the token.
  unfoldable pub GrantedScope : D → Text → (Text → Text) → Text → Type 0
  GrantedScope db t url_param scope =
      (a : Text) × (s : Text) × (split_scope scope ≡ some (a, s))
      × ((database_decision (row db) (known db) t a (rewrite_resource url_param s)).access ≡ true)

  -- What the next handler can rely on.
  pub record Permits (r : Request) (c : ServedContext D) : Type 0 where
    pub domain : Text
    pub api_key : Text
    pub scopes : List Text
    pub credentials : r.basic_auth ≡ some (domain, api_key)
    pub asked : r.scopes ≡ some scopes
    pub connected : dbs.get_db domain ≡ ok c.db
    pub token : c.domaintoken ≡ domain_token domain api_key
    pub granted : All (GrantedScope c.db api_key r.url_param) scopes
    pub current : IsCurrent (row c.db) (known c.db) c.policy_cache
    pub user :
        requires_user_id scopes ≡ true
        → (id : Uuid) × (c.user_uuid ≡ some id)
          × (dbs.get_user_uuid_from_token c.db api_key ≡ ok id)

  module _ (answers : (d : D) → Answers (row d) (known d) (dbs.explain d))
      (visit : TextMap (List Text) → TextMap (List Text)) (visits : Visits visit) (r : Request)
      (plain : IsNulFree r) (fresh : (d : D) → IsCurrent (row d) (known d) r.context) where
    started :
        (d : D) (ctx : Context)
        → IsCurrent (row d) (known d) ctx
        → IsCurrent (row d) (known d) (with_policy_check_cache ctx)
    unfolding with_policy_check_cache cache_lookup lookup
    started d none h = record { holds = λ t a s x f g q. cc q }
    started d (some cache) h = h

    module _ (domain t : Text) (scopes : List Text) (db : D)
        (credentials : r.basic_auth ≡ some (domain, t)) (asked : r.scopes ≡ some scopes)
        (connected : dbs.get_db domain ≡ ok db) where
      serve-Permits :
          (headers : TextMap Text) (cache : Context) (c : ServedContext D)
          → All (GrantedScope db t r.url_param) scopes
          → IsCurrent (row db) (known db) cache
          → serve dbs headers domain t scopes db cache ≡ served c
          → Permits r c
      unfolding serve with_user
      serve-Permits headers cache c g k h = elim (Bool-cases (requires_user_id scopes)) [
        | inl e ↦ elim (Result-cases (dbs.get_user_uuid_from_token db t)) [
          | inr (x, q) ↦ cc (rw (e, q) at h)
          | inl (id, q) ↦ subst (Permits r) (served_value (rw (e, q) at h)) (record {
            domain = domain;
            api_key = t;
            scopes = scopes;
            credentials = credentials;
            asked = asked;
            connected = connected;
            token = refl;
            granted = g;
            current = k;
            user = λ y. (id, refl, q);
          })
        ]
        | inr e ↦ subst (Permits r) (served_value (rw e at h)) (record {
          domain = domain;
          api_key = t;
          scopes = scopes;
          credentials = credentials;
          asked = asked;
          connected = connected;
          token = refl;
          granted = g;
          current = k;
          user = λ y. cc (e, y);
        })
      ]

      -- What the loop over the actions establishes is what each scope asks for.
      scope-Granted :
          (m : TextMap (List Text))
          → All
              (Granted
                (row db)
                (known db)
                (dbs.explain db)
                (answers db)
                t
                (plain.key domain t credentials))
              (visit m)
          → (scope : Text) → Collected r.url_param m scope
          → GrantedScope db t r.url_param scope
      unfolding Collected Granted GrantedScope Holds
      scope-Granted m g scope (a, s, e, (rs, i, j)) =
          (a, s, e, In-All _ rs (In-All _ (visit m) g ((visits.entries m (a, rs)).0 i)) j)

      scopes-Granted :
          (m : TextMap (List Text)) (l : List Text)
          → All
              (Granted
                (row db)
                (known db)
                (dbs.explain db)
                (answers db)
                t
                (plain.key domain t credentials))
              (visit m)
          → All (Collected r.url_param m) l
          → All (GrantedScope db t r.url_param) l
      scopes-Granted m [] g h = tt
      scopes-Granted m (scope ∷ l) g h = (scope-Granted m g scope h.0, scopes-Granted m l g h.1)

      visited-KeysFree : (m : TextMap (List Text)) → KeysFree m → KeysFree (visit m)
      unfolding KeysFree
      visited-KeysFree m f a rs i = f a rs ((visits.entries m (a, rs)).1 i)

      checked-served :
          (headers : TextMap Text) (c : ServedContext D) (p : Result Error Unit × Context)
          → checked dbs visit headers domain t scopes db p ≡ served c
          → (cache : Context) × (p ≡ (ok tt, cache))
            × (serve dbs headers domain t scopes db cache ≡ served c)
      unfolding checked
      checked-served headers c (err e, cache) h = cc
      checked-served headers c (ok u, cache) h = (cache, refl, h)

      collected-Permits :
          (headers : TextMap Text) (c : ServedContext D)
          → collected dbs visit headers domain t scopes db
              (with_policy_check_cache r.context)
              (collect_resources r.url_param scopes [])
            ≡ served c
          → Permits r c
      unfolding collected
      collected-Permits headers c h =
          elim (Result-cases (collect_resources r.url_param scopes [])) [
            | inr (x, e) ↦ cc (rw e at h)
            | inl (m, e) ↦
                let (cache, q, h') =
                  checked-served headers c
                    (check_actions (dbs.explain db) t (visit m) (with_policy_check_cache r.context))
                    (rw e at h) in
                let free =
                  collect_resources-KeysFree r.url_param scopes [] m e (plain.scope scopes asked)
                    (unfold KeysFree in λ a rs i. absurd i) in
                let (g, k) =
                  check_actions-Granted (row db) (known db) (dbs.explain db) (answers db) t
                    (plain.key domain t credentials) (visit m) (with_policy_check_cache r.context)
                    cache (visited-KeysFree m free) (started db r.context (fresh db)) q in
                serve-Permits headers cache c
                  (scopes-Granted m scopes g
                    (collect_resources-Collected r.url_param scopes [] m e))
                  k h'
          ]

    -- PolicyValidator calls the next handler only with the domain and the key of the request and the database of this domain,
    -- where every scope is an action and a resource on which the database grants the key this action, once the parameters of
    -- the URL stand in it. The cache that is passed on holds decisions of the database only, and where a scope has another
    -- action than read, the user is the one of the key. Neither the key nor a scope holds a NUL, and a cache that the request
    -- brings along holds decisions of the database only.
    pub served-Permits :
        (c : ServedContext D) → policy_validator dbs visit r ≡ served c → Permits r c
    unfolding policy_validator with_auth with_scopes with_db
    served-Permits c h = elim (Option-cases r.basic_auth) [
      | inl e ↦ cc (rw (e, with_auth) at h)
      | inr ((domain, t), e) ↦ elim (Option-cases r.scopes) [
        | inl f ↦ cc (rw (e, f, with_auth, with_scopes) at h)
        | inr (scopes, f) ↦ elim (Result-cases (dbs.get_db domain)) [
          | inr (x, g) ↦ cc (rw (e, f, g, with_auth, with_scopes, with_db) at h)
          | inl (db, g) ↦ collected-Permits domain t scopes db e f g _ c (rw (e, f, g) at h)
        ]
      ]
    ]
