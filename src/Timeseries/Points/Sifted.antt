-- ===== src/Timeseries/Points/Sifted.antt =====
-- The points of a request that AddDataToTimeseries stores: their values in the unit and the bounds of the series.
use self_host.Prelude.{
  if◌then◌else◌, ℕ, ◌+◌, ◌≡◌, ◌↔◌, ◌≢◌, refl, sym, ap, subst, ◌∙◌, ◌⊎◌, inl, inr, Bool, true, false,
  Option, none, some, List, [], ◌∷◌, ◌++◌, length, is_empty, Result, ok, err, arith, Bool-cases,
  length-append, Result-cases, Option-cases,
}
use self_host.Prelude
use self_host.Text.{Text}
use self_host.Timeseries.Points.{
  DataPoint, Bounds, PointError, Values, convert_value, found_or, below, above, skip_or_add,
  filter_points,
}

-- The units between which the values of a request are converted, from its own to that of the series: none where it names
-- none or that of the series.
pub data Between {F U : Type 0} (v : Values F U) (ts_unit : Text)
    : Option Text → Option (U × U) → Type 0 where
  no_unit : Between v ts_unit none none
  same_unit : {unit : Text} → unit ≡ ts_unit → Between v ts_unit (some unit) none
  other_unit :
      {unit : Text} {from to : U}
      → unit ≢ ts_unit
      → v.find_unit unit ≡ some from
      → v.find_unit ts_unit ≡ some to
      → Between v ts_unit (some unit) (some (from, to))

-- A value in the unit of the series.
pub data Converted {F U : Type 0} (v : Values F U) : Option (U × U) → F → F → Type 0 where
  unchanged : {x : F} → Converted v none x x
  converted :
      {from to : U} {x y : F} → v.convert x from to ≡ some y → Converted v (some (from, to)) x y

-- A value below a lower bound that there is, or above an upper one
unfoldable pub IsBelow : {F U : Type 0} → Values F U → Option F → F → Type 0
IsBelow {F} v o x = (b : F) × (o ≡ some b) × (v.less x b ≡ true)

unfoldable pub IsAbove : {F U : Type 0} → Values F U → Option F → F → Type 0
IsAbove {F} v o x = (b : F) × (o ≡ some b) × (v.less b x ≡ true)

below_iff :
    {F U : Type 0} (v : Values F U) (o : Option F) (x : F) → (below v o x ≡ true) ↔ IsBelow v o x
unfolding below IsBelow
below_iff v none x = (λ h. cc h, λ (b, e, h). cc e)
below_iff v (some b) x = (λ h. (b, refl, h), λ (c, e, h). let same : b ≡ c = cc e in rw same h)

above_iff :
    {F U : Type 0} (v : Values F U) (o : Option F) (x : F) → (above v o x ≡ true) ↔ IsAbove v o x
unfolding above IsAbove
above_iff v none x = (λ h. cc h, λ (b, e, h). cc e)
above_iff v (some b) x = (λ h. (b, refl, h), λ (c, e, h). let same : b ≡ c = cc e in rw same h)

-- The points of a request and those to store: each in the unit of the series, those out of its bounds left out.
pub data Sifted {F U : Type 0} (v : Values F U) (series : Bounds F) (units : Option (U × U))
    : List (DataPoint F) → List (DataPoint F) → Type 0 where
  none_left : Sifted v series units [] []
  keep :
      {p : DataPoint F} {x : F} {ps ks : List (DataPoint F)}
      → Converted v units p.value x
      → ¬ IsBelow v series.lower_bound x
      → ¬ IsAbove v series.upper_bound x
      → Sifted v series units ps ks
      → Sifted v series units (p ∷ ps) (record p { value = x } ∷ ks)
  skip :
      {p : DataPoint F} {x : F} {ps ks : List (DataPoint F)}
      → Converted v units p.value x
      → IsBelow v series.lower_bound x ⊎ IsAbove v series.upper_bound x
      → Sifted v series units ps ks
      → Sifted v series units (p ∷ ps) ks

module _ {F U E : Type 0} (v : Values F U) (series : Bounds F) (units : Option (U × U)) where
  convert_value-Converted :
      (x y : F) → convert_value {E = E} v units x ≡ ok y → Converted v units x y
  unfolding convert_value found_or
  convert_value-Converted x y h =
      elim units as (λ u. convert_value {E = E} v u x ≡ ok y → Converted v u x y) [
        | none ↦ λ k. subst (λ z. Converted v none x z) (cc k) unchanged
        | some (from, to) ↦ λ k. elim (Option-cases (v.convert x from to)) [
          | inl e ↦ cc (rw e at k)
          | inr (z, e) ↦ let same : z ≡ y = cc (rw e at k) in converted (e ∙ ap some same)
        ]
      ]
        h

  skip_or_add-Sifted :
      (p : DataPoint F) (x : F) (ps ks : List (DataPoint F))
      → convert_value {E = E} v units p.value ≡ ok x
      → Sifted v series units ps ks
      → Sifted v series units (p ∷ ps) (skip_or_add v series (record p { value = x }) ks)
  unfolding skip_or_add
  skip_or_add-Sifted p x ps ks k h =
      let e = convert_value-Converted p.value x k in
      elim (Bool-cases (below v series.lower_bound x)) [
        | inl b ↦ rw b (skip e (inl ((below_iff v series.lower_bound x).0 b)) h)
        | inr b ↦ elim (Bool-cases (above v series.upper_bound x)) [
          | inl a ↦ rw b (rw a (skip e (inr ((above_iff v series.upper_bound x).0 a)) h))
          | inr a ↦ rw b (
              rw a (
                keep e (λ k. cc (b, (below_iff v series.lower_bound x).1 k))
                  (λ k. cc (a, (above_iff v series.upper_bound x).1 k)) h))
        ]
      ]

  result-eq-ok :
      {A B : Type 0} (m : Result (PointError E) A) (f : A → Result (PointError E) B) {b : B}
      → Prelude.◌>>=◌ m f ≡ ok b
      → (a : A) × (m ≡ ok a) × (f a ≡ ok b)
  result-eq-ok (ok a) f h = (a, refl, h)
  result-eq-ok (err e) f h = cc

  pub filter_points-Sifted :
      (ps ks : List (DataPoint F))
      → filter_points {E = E} v series units ps ≡ ok ks
      → Sifted v series units ps ks
  unfolding filter_points
  filter_points-Sifted [] ks h =
      let e : [] ≡ ks = cc h in subst (λ k. Sifted v series units [] k) e none_left
  filter_points-Sifted (p ∷ ps) ks h =
      let (x, e, g) = result-eq-ok (convert_value {E = E} v units p.value) _ h in
      let (rest, r, k) = result-eq-ok (filter_points {E = E} v series units ps) _ g in
      let f : skip_or_add v series (record p { value = x }) rest ≡ ks = cc k in
      subst (λ l. Sifted v series units (p ∷ ps) l) f
        (skip_or_add-Sifted p x ps rest e (filter_points-Sifted ps rest r))
