-- ===== src/Timeseries/Multi/Results.antt =====
-- What the answer of a query over several series holds for one of them.
use self_host.Prelude.{
  ◌≡◌, inl, inr, refl, sym, ap, subst, ◌∙◌, true, false, List, [], ◌∷◌, ◌==◌, ==_iff, if◌then◌else◌,
  is_empty, any, Bool-cases, In,
}
use self_host.Policy.Rule.{Uuid}
use self_host.Timeseries.Query.{TsRow, Mapping}
use self_host.Timeseries.Multi.{results_of}

-- What the answer holds for a series: nothing where it does not name it.
unfoldable pub data_of : {G : Type 0} → Uuid → List (Uuid × List (TsRow G)) → List (TsRow G)
data_of id [] = []
data_of id ((k, rows) ∷ results) = let rest = data_of id results in if k == id then rows else rest

seen_apart :
    (seen : List Uuid) (key id : Uuid)
    → any (λ k. k == id) seen ≡ true
    → any (λ k. k == key) seen ≡ false
    → (key == id) ≡ false
seen_apart seen key id h e = elim (Bool-cases (key == id)) [
  | inr q ↦ q
  | inl q ↦
      let g : any (λ k. k == id) seen ≡ false =
        subst (λ (j : Uuid). any (λ k. k == j) seen ≡ false) ((==_iff key id).0 q) e in
      cc (h, g)
]

nil_of_empty : {A : Type 0} (xs : List A) → is_empty xs ≡ true → xs ≡ []
nil_of_empty [] h = refl
nil_of_empty (x ∷ xs) h = cc

module _ {G : Type 0} (mapping : Mapping G) (id : Uuid) where
  results_of-seen :
      (seen keys : List Uuid)
      → any (λ k. k == id) seen ≡ true
      → data_of id (results_of mapping seen keys) ≡ []
  unfolding data_of results_of
  results_of-seen seen [] h = refl
  results_of-seen seen (key ∷ keys) h = elim (Bool-cases (any (λ k. k == key) seen)) [
    | inl e ↦ rw e (results_of-seen seen keys h)
    | inr e ↦
        let other : (key == id) ≡ false = seen_apart seen key id h e in
        let rest = results_of-seen (key ∷ seen) keys (rw other h) in
        elim (Bool-cases (is_empty (mapping key))) [
          | inl f ↦ rw (e, f) rest
          | inr f ↦ rw (e, f) (rw other rest)
        ]
  ]

  later : (key : Uuid) (keys : List Uuid) → (key == id) ≡ false → In id (key ∷ keys) → In id keys
  later key keys q (inl e) = absurd (cc (q, (==_iff key id).1 (sym e)))
  later key keys q (inr i) = i

  pub results_of-asked :
      (seen keys : List Uuid)
      → any (λ k. k == id) seen ≡ false
      → In id keys
      → data_of id (results_of mapping seen keys) ≡ mapping id
  unfolding data_of results_of
  results_of-asked seen [] h i = absurd i
  results_of-asked seen (key ∷ keys) h i = elim (Bool-cases (key == id)) [
    | inl q ↦
        let same : key ≡ id = (==_iff key id).0 q in
        let new : any (λ k. k == key) seen ≡ false =
          subst (λ (j : Uuid). any (λ k. k == j) seen ≡ false) (sym same) h in
        elim (Bool-cases (is_empty (mapping key))) [
          | inl f ↦
              rw (new, f)
                (results_of-seen (key ∷ seen) keys (rw q)
                  ∙ sym (ap mapping (sym same) ∙ nil_of_empty (mapping key) f))
          | inr f ↦ rw (new, f) (rw q (ap mapping same))
        ]
    | inr q ↦
        let j : In id keys = later key keys q i in
        elim (Bool-cases (any (λ k. k == key) seen)) [
          | inl e ↦ rw e (results_of-asked seen keys h j)
          | inr e ↦
              let rest = results_of-asked (key ∷ seen) keys (rw q h) j in
              elim (Bool-cases (is_empty (mapping key))) [
                | inl f ↦ rw (e, f) rest
                | inr f ↦ rw (e, f) (rw q rest)
              ]
        ]
  ]
