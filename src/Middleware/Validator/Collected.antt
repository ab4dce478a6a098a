-- ===== src/Middleware/Validator/Collected.antt =====
-- What the loop over the scopes of PolicyValidator leaves in its map.
use self_host.Prelude.{
  ◌≡◌, ◌⊎◌, inl, inr, refl, sym, ap, subst, ◌∙◌, some, List, [], ◌∷◌, ◌++◌, arith, Result, ok,
  Bool-cases, Option-cases, In, All,
}
use self_host.Text.{Text, text_eq, contains_char, split, join}
use self_host.Text.Laws.{text_eq_iff}
use self_host.Text.Map.{TextMap}
use self_host.Text.Segments.{join-split}
use self_host.Errors.{Error}
use self_host.Policy.Check.Key.{NulFree}
use self_host.Middleware.Scope.{rewrite_resource, split_scope, pair_of}
use self_host.Middleware.Validator.{add_resource, collect_resources}

-- The resource stands under the action.
unfoldable pub Holds : Text → Text → TextMap (List Text) → Type 0
Holds a r m = (rs : List Text) × In (a, rs) m × In r rs

In-append_left : {A : Type 0} (x : A) (xs ys : List A) → In x xs → In x (xs ++ ys)
In-append_left x [] ys h = absurd h
In-append_left x (y ∷ xs) ys (inl e) = inl e
In-append_left x (y ∷ xs) ys (inr h) = inr (In-append_left x xs ys h)

pub In-All : {A : Type 0} (P : A → Type 0) {x : A} (xs : List A) → All P xs → In x xs → P x
In-All P [] h i = absurd i
In-All P (y ∷ xs) h (inl e) = subst P (sym e) h.0
In-All P (y ∷ xs) h (inr i) = In-All P xs h.1 i

In-append_last : {A : Type 0} (x : A) (xs : List A) → In x (xs ++ x ∷ [])
In-append_last x [] = inl refl
In-append_last x (y ∷ xs) = inr (In-append_last x xs)

Holds-tail :
    (a r k : Text) (ks : List Text) (m : TextMap (List Text))
    → Holds a r m
    → Holds a r ((k, ks) ∷ m)
unfolding Holds
Holds-tail a r k ks m (rs, i, j) = (rs, inr i, j)

Holds-add_resource_self : (a r : Text) (m : TextMap (List Text)) → Holds a r (add_resource a r m)
unfolding add_resource Holds
Holds-add_resource_self a r [] = (r ∷ [], inl refl, inl refl)
Holds-add_resource_self a r ((k, ks) ∷ m) = elim (Bool-cases (text_eq k a)) [
  | inl e ↦ rw e (
    ks ++ r ∷ [],
    inl (ap (λ (t : Text). (t, ks ++ r ∷ [])) (sym ((text_eq_iff k a).0 e))),
    In-append_last r ks,
  )
  | inr e ↦ rw e (Holds-tail a r k ks (add_resource a r m) (Holds-add_resource_self a r m))
]

Holds-add_resource :
    (a r b s : Text) (m : TextMap (List Text)) → Holds a r m → Holds a r (add_resource b s m)
unfolding add_resource Holds
Holds-add_resource a r b s [] (rs, i, j) = absurd i
Holds-add_resource a r b s ((k, ks) ∷ m) (rs, inl i, j) = elim (Bool-cases (text_eq k b)) [
  | inl e ↦ rw e (
    ks ++ s ∷ [],
    inl (ap (λ (t : Text). (t, ks ++ s ∷ [])) (ap (λ (x : Text × List Text). x.0) i)),
    In-append_left r ks (s ∷ []) (subst (λ l. In r l) (ap (λ (x : Text × List Text). x.1) i) j),
  )
  | inr e ↦ rw e (rs, inl i, j)
]
Holds-add_resource a r b s ((k, ks) ∷ m) (rs, inr i, j) = elim (Bool-cases (text_eq k b)) [
  | inl e ↦ rw e (rs, inr i, j)
  | inr e ↦
      rw e (Holds-tail a r k ks (add_resource b s m) (Holds-add_resource a r b s m (rs, i, j)))
]

-- No action of the map holds a NUL.
unfoldable pub KeysFree : TextMap (List Text) → Type 0
KeysFree m = (a : Text) (rs : List Text) → In (a, rs) m → NulFree a

In-add_resource :
    (a : Text) (rs : List Text) (b s : Text) (m : TextMap (List Text))
    → In (a, rs) (add_resource b s m)
    → (a ≡ b) ⊎ ((qs : List Text) × In (a, qs) m)
unfolding add_resource
In-add_resource a rs b s [] (inl i) = inl (ap (λ (e : Text × List Text). e.0) i)
In-add_resource a rs b s [] (inr i) = absurd i
In-add_resource a rs b s ((k, ks) ∷ m) i = elim (Bool-cases (text_eq k b)) [
  | inl e ↦
      let g : In {A = Text × List Text} (a, rs) ((k, ks ++ s ∷ []) ∷ m) = rw e at i in
      elim g [
        | inl q ↦ inr (ks, inl (ap (λ (t : Text). (t, ks)) (ap (λ (e : Text × List Text). e.0) q)))
        | inr q ↦ inr (rs, inr q)
      ]
  | inr e ↦
      let g : In {A = Text × List Text} (a, rs) ((k, ks) ∷ add_resource b s m) = rw e at i in
      elim g [
        | inl q ↦ inr (rs, inl q)
        | inr q ↦ elim (In-add_resource a rs b s m q) [
          | inl z ↦ inl z
          | inr (qs, z) ↦ inr (qs, inr z)
        ]
      ]
]

KeysFree-add_resource :
    (b s : Text) (m : TextMap (List Text)) → NulFree b → KeysFree m → KeysFree (add_resource b s m)
unfolding KeysFree
KeysFree-add_resource b s m f h a rs i = elim (In-add_resource a rs b s m i) [
  | inl e ↦ subst (λ (t : Text). NulFree t) (sym e) f
  | inr (qs, j) ↦ h a qs j
]

pair_of_lem : (ps : List Text) (a r : Text) → pair_of ps ≡ some (a, r) → ps ≡ a ∷ r ∷ []
unfolding pair_of
pair_of_lem [] a r h = cc
pair_of_lem (x ∷ []) a r h = cc
pair_of_lem (x ∷ y ∷ []) a r h = cc h
pair_of_lem (x ∷ y ∷ z ∷ ps) a r h = cc

-- A scope is its action, a colon and its resource.
split_scope_lem : (scope a r : Text) → split_scope scope ≡ some (a, r) → scope ≡ a ++ 58 ∷ r
unfolding split_scope join
split_scope_lem scope a r h =
    sym (join-split scope 58)
    ∙ ap (λ (ps : List Text). join ps 58) (pair_of_lem (split scope 58) a r h)

pub ok_value : {A : Type 0} {x y : A} → ◌≡◌ {A = Result Error A} (ok x) (ok y) → x ≡ y
ok_value h = cc h

NulFree-left : (a s : Text) → NulFree (a ++ s) → NulFree a
unfolding contains_char
NulFree-left [] s h = refl
NulFree-left (x ∷ a) s h = ground (arith, NulFree-left a s)

-- What the loop over the scopes leaves: each scope has its action and resource in the map.
unfoldable pub Collected : (Text → Text) → TextMap (List Text) → Text → Type 0
Collected url_param m scope =
    (a : Text) × (r : Text) × (split_scope scope ≡ some (a, r))
    × Holds a (rewrite_resource url_param r) m

module _ (url_param : Text → Text) where
  collect_resources-Holds :
      (scopes : List Text) (m m' : TextMap (List Text)) (a r : Text)
      → collect_resources url_param scopes m ≡ ok m'
      → Holds a r m
      → Holds a r m'
  unfolding collect_resources
  collect_resources-Holds [] m m' a r h k = subst (Holds a r) (ok_value h) k
  collect_resources-Holds (scope ∷ scopes) m m' a r h k = elim (Option-cases (split_scope scope)) [
    | inl e ↦ cc (rw (e, collect_resources) at h)
    | inr ((b, s), e) ↦
        collect_resources-Holds scopes (add_resource b (rewrite_resource url_param s) m) m' a r
          (rw (e, collect_resources) at h)
          (Holds-add_resource a r b (rewrite_resource url_param s) m k)
  ]

  pub collect_resources-Collected :
      (scopes : List Text) (m m' : TextMap (List Text))
      → collect_resources url_param scopes m ≡ ok m'
      → All (Collected url_param m') scopes
  unfolding collect_resources Collected
  collect_resources-Collected [] m m' h = tt
  collect_resources-Collected (scope ∷ scopes) m m' h = elim (Option-cases (split_scope scope)) [
    | inl e ↦ cc (rw (e, collect_resources) at h)
    | inr ((b, s), e) ↦
        let resource = rewrite_resource url_param s in
        let rest = add_resource b resource m in
        let h' : collect_resources url_param scopes rest ≡ ok m' = rw (e, collect_resources) at h in
        (
          (
            b,
            s,
            e,
            collect_resources-Holds scopes rest m' b resource h'
                (Holds-add_resource_self b resource m),
          ),
          collect_resources-Collected scopes rest m' h',
        )
  ]

  pub collect_resources-KeysFree :
      (scopes : List Text) (m m' : TextMap (List Text))
      → collect_resources url_param scopes m ≡ ok m'
      → All (λ s. NulFree s) scopes
      → KeysFree m
      → KeysFree m'
  unfolding collect_resources
  collect_resources-KeysFree [] m m' h f k = subst KeysFree (ok_value h) k
  collect_resources-KeysFree (scope ∷ scopes) m m' h (g, f) k =
      elim (Option-cases (split_scope scope)) [
        | inl e ↦ cc (rw (e, collect_resources) at h)
        | inr ((b, s), e) ↦
            let free : NulFree b =
              NulFree-left b (58 ∷ s)
                (subst (λ (t : Text). NulFree t) (split_scope_lem scope b s e) g) in
            collect_resources-KeysFree scopes (add_resource b (rewrite_resource url_param s) m) m'
              (rw (e, collect_resources) at h) f
              (KeysFree-add_resource b (rewrite_resource url_param s) m free k)
      ]
