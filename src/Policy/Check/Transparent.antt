-- ===== src/Policy/Check/Transparent.antt =====
-- The decision cache is transparent: with or without it a token gets the decisions of the database.
use mathlib.Core.Bool.{false≢true}
use self_host.Prelude.{
  ◌≡◌, ◌≢◌, ◌⊎◌, inl, inr, refl, sym, ap, subst, ◌∙◌, Bool, true, none, some, List, [], ◌∷◌, map,
  arith, is_empty, any, Result, ok, err, Bool-cases, In, All,
}
use self_host.Text.{Text, text_eq}
use self_host.Text.Laws.{text_eq_iff}
use self_host.Text.Map.{TextMap}
use self_host.Text.Order.{In-sort_texts}
use self_host.Policy.Check.{
  AccessDecision, ExplainRow, Context, ExplainQuery, cache_store_many, dedupe_loop, dedupe_strings,
  decision_of_row, lookup_pass, enter_rows, ordered, answer_rows,
  explain_user_access_many_via_token, all_granted, grants, user_has_many_access_via_token,
}
use self_host.Policy.Check.Key.{NulFree}
use self_host.Policy.Check.Maps.{
  Answers, IsCurrent, database_decision, Found, IsRight, RowsRight, enter_rows-IsRight,
  enter_rows-Found, enter_rows-In, lookup_pass-IsRight, lookup_pass-covers, ordered_lem,
  store_decisions-IsCurrent,
}

dedupe_loop-In :
    (r : Text) (seen values : List Text)
    → In r values
    → (any (λ s. text_eq s r) seen ≡ true) ⊎ In r (dedupe_loop seen values)
unfolding dedupe_loop
dedupe_loop-In r seen [] m = absurd m
dedupe_loop-In r seen (v ∷ vs) (inl e) = elim (Bool-cases (any (λ s. text_eq s v) seen)) [
  | inl q ↦ inl (rw e q)
  | inr q ↦ rw (q, dedupe_loop) (inr (inl e))
]
dedupe_loop-In r seen (v ∷ vs) (inr n) = elim (Bool-cases (any (λ s. text_eq s v) seen)) [
  | inl q ↦ rw (q, dedupe_loop) (dedupe_loop-In r seen vs n)
  | inr q ↦
      rw (q, dedupe_loop)
        (elim (dedupe_loop-In r (v ∷ seen) vs n) [
          | inr k ↦ inr (inr k)
          | inl k ↦ elim (Bool-cases (text_eq v r)) [
            | inl p ↦ inr (inl (sym ((text_eq_iff v r).0 p)))
            | inr p ↦ inl (ground arith)
          ]
        ])
]

pub dedupe_strings-In : (r : Text) (values : List Text) → In r values → In r (dedupe_strings values)
unfolding dedupe_strings
dedupe_strings-In r values m = elim (dedupe_loop-In r [] values m) [
  | inl h ↦ cc h
  | inr n ↦ In-sort_texts r (dedupe_loop [] values) n
]

not-In_of_is_empty : (xs : List Text) (r : Text) → is_empty xs ≡ true → In r xs → ⊥
not-In_of_is_empty [] r e m = m
not-In_of_is_empty (x ∷ xs) r e m = cc

ok_injective : {E A : Type 0} (x y : A) → ◌≡◌ {A = Result E A} (ok x) (ok y) → x ≡ y
ok_injective x y h = cc h

nil_of_is_empty : (xs : List Text) → is_empty xs ≡ true → xs ≡ []
nil_of_is_empty [] e = refl
nil_of_is_empty (x ∷ xs) e = cc

module _ {E : Type 0} (row : Text → Text → Text → ExplainRow) (known : Text → Bool)
    (query : ExplainQuery E) (answers : Answers row known query) (t a : Text) (rs : List Text)
    (ctx : Context) (nul_free : NulFree t) (nul_free_action : NulFree a)
    (current : IsCurrent row known ctx) where
  found : TextMap AccessDecision
  found = (lookup_pass ctx t a (dedupe_strings rs)).0

  uncached : List Text
  uncached = (lookup_pass ctx t a (dedupe_strings rs)).1

  found-IsRight : IsRight row known t a found
  unfolding found
  found-IsRight =
      lookup_pass-IsRight row known t a ctx (dedupe_strings rs) nul_free nul_free_action current

  covered : (r : Text) → In r rs → Found r found ⊎ In r uncached
  unfolding found uncached
  covered r m =
      lookup_pass-covers row known t a ctx (dedupe_strings rs) r (dedupe_strings-In r rs m)

  all_cached :
      is_empty uncached ≡ true → ordered a found rs ≡ map (database_decision row known t a) rs
  all_cached e = ordered_lem row known t a found rs found-IsRight λ r m kn. elim (covered r m) [
    | inl f ↦ f
    | inr n ↦ absurd (not-In_of_is_empty uncached r e n)
  ]

  rows_right :
      (rows : List ExplainRow) → query t a uncached ≡ ok rows → RowsRight row known t a rows
  unfolding RowsRight
  rows_right rows q = answers.only t a uncached rows q

  queried :
      (rows : List ExplainRow)
      → query t a uncached ≡ ok rows
      → ordered a (enter_rows a rows found) rs ≡ map (database_decision row known t a) rs
  queried rows q =
      ordered_lem row known t a (enter_rows a rows found) rs
        (enter_rows-IsRight row known t a rows found (rows_right rows q) found-IsRight)
        λ r m kn. elim (covered r m) [
          | inl f ↦ enter_rows-Found row known t a r rows found f
          | inr n ↦
              subst (λ k. Found k (enter_rows a rows found)) (answers.resource_of t a r)
                (enter_rows-In row known t a (row t a r) rows found
                  (answers.complete t a uncached rows q kn r n))
        ]

  stored :
      (c : Context) (rows : List ExplainRow)
      → RowsRight row known t a rows
      → IsCurrent row known c
      → IsCurrent row known (cache_store_many c t a (map (decision_of_row a) rows))
  unfolding cache_store_many
  stored none rows h c = c
  stored (some cache) rows h c =
      store_decisions-IsCurrent row known t a rows cache nul_free nul_free_action h c

  -- Whatever the query returned, the answer is the database's and the cache stays current.
  answer_rows_lem :
      (o : Result E (List ExplainRow))
      → query t a uncached ≡ o
      → ((ds : List AccessDecision)
          → (answer_rows ctx t a rs found o).0 ≡ ok ds
          → ds ≡ map (database_decision row known t a) rs)
        × IsCurrent row known (answer_rows ctx t a rs found o).1
  unfolding answer_rows
  answer_rows_lem (err e) q = (λ ds h. cc h, current)
  answer_rows_lem (ok rows) q = (
    λ ds h. ok_injective ds _ (sym h) ∙ queried rows q,
    stored ctx rows (rows_right rows q) current,
  )

  whole :
      ((ds : List AccessDecision)
        → (explain_user_access_many_via_token query t a rs ctx).0 ≡ ok ds
        → ds ≡ map (database_decision row known t a) rs)
      × IsCurrent row known (explain_user_access_many_via_token query t a rs ctx).1
  unfolding explain_user_access_many_via_token found uncached
  whole = elim (Bool-cases (is_empty rs)) [
    | inl e ↦ rw e (
      λ ds h.
          ok_injective ds [] (sym h)
          ∙ ap (map (database_decision row known t a)) (sym (nil_of_is_empty rs e)),
      current,
    )
    | inr e ↦ elim (Bool-cases (is_empty uncached)) [
      | inl c ↦ rw (e, c) (λ ds h. ok_injective ds _ (sym h) ∙ all_cached c, current)
      | inr c ↦ rw (e, c) (answer_rows_lem (query t a uncached) refl)
    ]
  ]

  -- Where the token and the action hold no NUL, the query answers with the database's rows and the cache of the request
  -- holds decisions of the database only, the decisions explained without an error are those of the database, one for
  -- each resource, in the order asked, however many of them come from the cache.
  pub explain_many-database :
      (ds : List AccessDecision)
      → (explain_user_access_many_via_token query t a rs ctx).0 ≡ ok ds
      → ds ≡ map (database_decision row known t a) rs
  explain_many-database = whole.0

  -- The cache that is left holds decisions of the database only, also where the query failed.
  pub explain_many-IsCurrent :
      IsCurrent row known (explain_user_access_many_via_token query t a rs ctx).1
  explain_many-IsCurrent = whole.1

  all_granted-map :
      (l : List Text)
      → all_granted (map (database_decision row known t a) l) ≡ true
      → All (λ r. (database_decision row known t a r).access ≡ true) l
  unfolding all_granted
  all_granted-map [] h = tt
  all_granted-map (r ∷ l) h = (ground arith, all_granted-map l (ground arith))

  refused_empty :
      is_empty rs ≡ true → (user_has_many_access_via_token query t a rs ctx).0 ≡ ok true → ⊥
  unfolding user_has_many_access_via_token
  refused_empty e h = ground arith

  granted_ok :
      (o : Result E (List AccessDecision))
      → grants o ≡ ok true
      → (ds : List AccessDecision) × (o ≡ ok ds) × (all_granted ds ≡ true)
  unfolding grants
  granted_ok (err e) h = cc
  granted_ok (ok ds) h = (ds, refl, ok_injective _ _ h)

  granted_decisions :
      (user_has_many_access_via_token query t a rs ctx).0 ≡ ok true
      → (rs ≢ [])
        × ((ds : List AccessDecision) × ((explain_user_access_many_via_token query t a rs ctx).0
              ≡ ok ds)
            × (all_granted ds ≡ true))
  unfolding user_has_many_access_via_token
  granted_decisions h = elim (Bool-cases (is_empty rs)) [
    | inl e ↦ absurd (refused_empty e h)
    | inr e ↦ (
      λ n. false≢true (sym e ∙ ap is_empty n),
      granted_ok (explain_user_access_many_via_token query t a rs ctx).0 (rw e at h),
    )
  ]

  -- Where the token and the action hold no NUL, the query answers with the database's rows and the cache of the request
  -- holds decisions of the database only, access to many resources is granted only where there is at least one, and the
  -- database grants each.
  pub granted_many :
      (user_has_many_access_via_token query t a rs ctx).0 ≡ ok true
      → (rs ≢ []) × All (λ r. (database_decision row known t a r).access ≡ true) rs
  granted_many h =
      let (n, (ds, q, g)) = granted_decisions h in
      (n, all_granted-map rs (rw (explain_many-database ds q) at g))
