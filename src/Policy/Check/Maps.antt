-- ===== src/Policy/Check/Maps.antt =====
-- What the loops of ExplainUserAccessManyViaToken keep of the maps they fill: decisions of the database.
use self_host.Prelude.{
  ◌≡◌, ◌⊎◌, inl, inr, refl, sym, ap, ap₂, subst, ◌∙◌, Bool, true, none, some, List, [], ◌∷◌, map,
  arith, if◌then◌else◌, ok, Bool-cases, Option-cases, In,
}
use self_host.Text.{Text, text_eq}
use self_host.Text.Laws.{text_eq_iff}
use self_host.Text.Map.{TextMap, lookup, insert, lookup-insert, lookup-insert_self}
use self_host.Policy.Check.{
  AccessDecision, ExplainRow, Context, ExplainQuery, cache_key_string, cache_lookup,
  store_decisions, no_decision, decision_of_row, lookup_pass, enter_rows, ordered,
}
use self_host.Policy.Check.Key.{NulFree, key_injective}

-- What the access query answers while the database does not change: `row` is its answer for a resource, and a token that `known` rejects has no rows. The order of the rows is open.
pub record Answers {E : Type 0} (row : Text → Text → Text → ExplainRow) (known : Text → Bool)
    (query : ExplainQuery E) : Type 0 where
  pub resource_of : (t a r : Text) → (row t a r).resource ≡ r
  pub only :
      (t a : Text) (rs : List Text) (rows : List ExplainRow)
      → query t a rs ≡ ok rows
      → (w : ExplainRow) → In w rows
      → (known t ≡ true) × (w ≡ row t a w.resource)
  pub complete :
      (t a : Text) (rs : List Text) (rows : List ExplainRow)
      → query t a rs ≡ ok rows
      → known t ≡ true
      → (r : Text) → In r rs
      → In (row t a r) rows

module _ (row : Text → Text → Text → ExplainRow) (known : Text → Bool) where
  -- The decision of the database for one question.
  unfoldable pub database_decision : Text → Text → Text → AccessDecision
  database_decision t a r = if known t then decision_of_row a (row t a r) else no_decision a r

  -- A cache that holds decisions of the database only.
  pub record IsCurrent (ctx : Context) : Type 0 where
    pub holds :
        (t a r : Text) (d : AccessDecision)
        → NulFree t
        → NulFree a
        → cache_lookup ctx t a r ≡ some d
        → (known t ≡ true) × (d ≡ decision_of_row a (row t a r))

unfoldable pub Found : Text → TextMap AccessDecision → Type 0
Found r m = (d : AccessDecision) × (lookup r m ≡ some d)

Found-insert :
    (r k : Text) (d : AccessDecision) (m : TextMap AccessDecision)
    → Found r m
    → Found r (insert k d m)
unfolding Found
Found-insert r k d m (e, h) = elim (Bool-cases (text_eq k r)) [
  | inl q ↦ (d, rw lookup-insert (rw q))
  | inr q ↦ (e, rw lookup-insert (rw q h))
]

Found-insert_self :
    (k : Text) (d : AccessDecision) (m : TextMap AccessDecision) → Found k (insert k d m)
unfolding Found
Found-insert_self k d m = (d, lookup-insert_self k d m)

pub none-ne-some : {A : Type 0} {x : A} → none ≡ some x → ⊥
none-ne-some h = cc

pub decision-resource : (a : Text) (w : ExplainRow) → (decision_of_row a w).resource ≡ w.resource
unfolding decision_of_row
decision-resource a w = ground arith

module _ (row : Text → Text → Text → ExplainRow) (known : Text → Bool) (t a : Text) where
  -- A map by resource that holds the database's decisions for this token and action.
  unfoldable pub IsRight : TextMap AccessDecision → Type 0
  IsRight m =
      (r : Text) (d : AccessDecision)
      → lookup r m ≡ some d
      → (known t ≡ true) × (d ≡ decision_of_row a (row t a r))

  IsRight-insert :
      (k : Text) (d : AccessDecision) (m : TextMap AccessDecision)
      → known t ≡ true
      → d ≡ decision_of_row a (row t a k)
      → IsRight m
      → IsRight (insert k d m)
  unfolding IsRight
  IsRight-insert k d m kn e h r x q = elim (Bool-cases (text_eq k r)) [
    | inl s ↦
        let z : some d ≡ some x = rw s at (rw lookup-insert at q) in
        (kn, subst (λ j. x ≡ decision_of_row a (row t a j)) ((text_eq_iff k r).0 s) (cc (z, e)))
    | inr s ↦ h r x (rw s at (rw lookup-insert at q))
  ]

  -- The rows that the query returned are rows of the database.
  unfoldable pub RowsRight : List ExplainRow → Type 0
  RowsRight rows = (w : ExplainRow) → In w rows → (known t ≡ true) × (w ≡ row t a w.resource)

  pub enter_rows-IsRight :
      (rows : List ExplainRow) (m : TextMap AccessDecision)
      → RowsRight rows
      → IsRight m
      → IsRight (enter_rows a rows m)
  unfolding enter_rows RowsRight
  enter_rows-IsRight [] m h g = g
  enter_rows-IsRight (w ∷ rows) m h g =
      let (kn, e) = h w (inl refl) in
      enter_rows-IsRight rows (insert w.resource (decision_of_row a w) m) (λ v n. h v (inr n))
        (IsRight-insert w.resource (decision_of_row a w) m kn (ap (decision_of_row a) e) g)

  pub enter_rows-Found :
      (r : Text) (rows : List ExplainRow) (m : TextMap AccessDecision)
      → Found r m
      → Found r (enter_rows a rows m)
  unfolding enter_rows
  enter_rows-Found r [] m h = h
  enter_rows-Found r (w ∷ rows) m h =
      enter_rows-Found r rows (insert w.resource (decision_of_row a w) m)
        (Found-insert r w.resource (decision_of_row a w) m h)

  pub enter_rows-In :
      (w : ExplainRow) (rows : List ExplainRow) (m : TextMap AccessDecision)
      → In w rows
      → Found w.resource (enter_rows a rows m)
  unfolding enter_rows
  enter_rows-In w (v ∷ rows) m (inl e) =
      enter_rows-Found w.resource rows (insert v.resource (decision_of_row a v) m) (
        subst (λ (x : ExplainRow). Found x.resource (insert v.resource (decision_of_row a v) m))
          (sym e) (Found-insert_self v.resource (decision_of_row a v) m))
  enter_rows-In w (v ∷ rows) m (inr n) =
      enter_rows-In w rows (insert v.resource (decision_of_row a v) m) n
  enter_rows-In w [] m h = absurd h

  pub lookup_pass-IsRight :
      (ctx : Context) (rs : List Text)
      → NulFree t
      → NulFree a
      → IsCurrent row known ctx
      → IsRight (lookup_pass ctx t a rs).0
  unfolding lookup_pass
  lookup_pass-IsRight ctx [] f g c = unfold IsRight lookup in (λ r d q. cc q)
  lookup_pass-IsRight ctx (r ∷ rs) f g c =
      let ih = lookup_pass-IsRight ctx rs f g c in
      elim (Option-cases (cache_lookup ctx t a r)) [
        | inl e ↦ rw (e, lookup_pass) ih
        | inr (d, e) ↦
            let (kn, q) = c.holds t a r d f g e in
            rw (e, lookup_pass) (IsRight-insert r d (lookup_pass ctx t a rs).0 kn q ih)
      ]

  pub lookup_pass-covers :
      (ctx : Context) (rs : List Text) (r : Text)
      → In r rs
      → Found r (lookup_pass ctx t a rs).0 ⊎ In r (lookup_pass ctx t a rs).1
  unfolding lookup_pass
  lookup_pass-covers ctx [] r m = absurd m
  lookup_pass-covers ctx (s ∷ rs) r (inl q) = elim (Option-cases (cache_lookup ctx t a s)) [
    | inl e ↦ rw (e, lookup_pass) (inr (inl q))
    | inr (d, e) ↦
        rw (e, lookup_pass) (inl (rw q (Found-insert_self s d (lookup_pass ctx t a rs).0)))
  ]
  lookup_pass-covers ctx (s ∷ rs) r (inr n) =
      let ih = lookup_pass-covers ctx rs r n in
      elim (Option-cases (cache_lookup ctx t a s)) [
        | inl e ↦ rw (e, lookup_pass) (elim ih [ inl x ↦ inl x | inr x ↦ inr (inr x) ])
        | inr (d, e) ↦
            rw (e, lookup_pass)
              (elim ih [
                | inl x ↦ inl (Found-insert r s d (lookup_pass ctx t a rs).0 x)
                | inr x ↦ inr x
              ])
      ]

  no_decision-unknown :
      (r : Text) (m : TextMap AccessDecision)
      → lookup r m ≡ none
      → (known t ≡ true → Found r m)
      → no_decision a r ≡ database_decision row known t a r
  unfolding database_decision Found
  no_decision-unknown r m e f = elim (Bool-cases (known t)) [
    | inl kn ↦ let (d, q) = f kn in absurd (none-ne-some (sym e ∙ q))
    | inr kn ↦ rw kn
  ]

  right_decision :
      (r : Text) (d : AccessDecision) (m : TextMap AccessDecision)
      → IsRight m
      → lookup r m ≡ some d
      → d ≡ database_decision row known t a r
  unfolding database_decision IsRight
  right_decision r d m h e = let (kn, q) = h r d e in rw kn q

  pub ordered_lem :
      (m : TextMap AccessDecision) (rs : List Text)
      → IsRight m
      → ((r : Text) → In r rs → known t ≡ true → Found r m)
      → ordered a m rs ≡ map (database_decision row known t a) rs
  unfolding ordered database_decision
  ordered_lem m [] h f = refl
  ordered_lem m (r ∷ rs) h f =
      let ih = ordered_lem m rs h (λ s n. f s (inr n)) in
      elim (Option-cases (lookup r m)) [
        | inl e ↦ rw (e, ordered) (ap₂ ◌∷◌ (no_decision-unknown r m e (λ kn. f r (inl refl) kn)) ih)
        | inr (d, e) ↦ rw (e, ordered) (ap₂ ◌∷◌ (right_decision r d m h e) ih)
      ]

  same_question :
      (w : ExplainRow) (t' a' r : Text) (d : AccessDecision)
      → known t ≡ true
      → w ≡ row t a w.resource
      → t ≡ t'
      → a ≡ a'
      → w.resource ≡ r
      → decision_of_row a w ≡ d
      → (known t' ≡ true) × (d ≡ decision_of_row a' (row t' a' r))
  same_question w t' a' r d kn e u v x z = (cc, cc)

  store_one :
      (w : ExplainRow) (cache : TextMap AccessDecision)
      → NulFree t
      → NulFree a
      → (known t ≡ true) × (w ≡ row t a w.resource)
      → IsCurrent row known (some cache)
      → IsCurrent row known (
          some (
            insert
              (cache_key_string t a (decision_of_row a w).resource)
              (decision_of_row a w)
              cache))
  unfolding cache_lookup
  store_one w cache f g (kn, e) c = record {
    holds = λ t' a' r d f' g' q.
        elim (Bool-cases (
          text_eq (cache_key_string t a (decision_of_row a w).resource)
            (cache_key_string t' a' r))) [
              | inl s ↦
                  let (u, v, x) =
                    key_injective t a (decision_of_row a w).resource t' a' r f g f' g'
                      ((text_eq_iff _ _).0 s) in
                  let z : some (decision_of_row a w) ≡ some d = rw s at (rw lookup-insert at q) in
                  same_question w t' a' r d kn e u v (sym (decision-resource a w) ∙ x) (cc z)
              | inr s ↦ c.holds t' a' r d f' g' (rw s at (rw lookup-insert at q))
            ];
  }

  -- What the loop that stores decisions needs of the cache: the keys are this token's and action's.
  pub store_decisions-IsCurrent :
      (rows : List ExplainRow) (cache : TextMap AccessDecision)
      → NulFree t
      → NulFree a
      → RowsRight rows
      → IsCurrent row known (some cache)
      → IsCurrent row known (some (store_decisions t a (map (decision_of_row a) rows) cache))
  unfolding store_decisions
  store_decisions-IsCurrent [] cache f g h c = c
  store_decisions-IsCurrent (w ∷ rows) cache f g h c =
      store_decisions-IsCurrent rows
        (insert (cache_key_string t a (decision_of_row a w).resource) (decision_of_row a w) cache) f
        g (unfold RowsRight in λ v n. h v (inr n))
        (store_one w cache f g (unfold RowsRight in h w (inl refl)) c)
