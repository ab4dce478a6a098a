-- ===== src/Timeseries/Points/Batches.antt =====
-- The slices of AddDataToTimeseries: together they are the points, and none is longer than a batch.
use self_host.Prelude.{
  ℕ, zero, suc, ◌+◌, ◌-◌, ◌≤◌, ◌≡◌, refl, sym, ap, ◌∙◌, min, List, [], ◌∷◌, ◌++◌, ltb, arith,
  length, take, drop, Bool-cases, inl, inr,
}
use self_host.Timeseries.Points.{batch_size, batches}

unfoldable pub concat {ℓ} : {A : Type ℓ} → List (List A) → List A
concat [] = []
concat (xs ∷ xss) = xs ++ concat xss

module _ {ℓ} {A : Type ℓ} where
  length-drop : (n : ℕ) (xs : List A) → length (drop n xs) ≡ length xs - n
  length-drop zero xs = omega arith
  length-drop (suc n) [] = omega arith
  length-drop (suc n) (x ∷ xs) = omega (arith, length-drop n xs)

  drop-drop : (m n : ℕ) (xs : List A) → drop (m + n) xs ≡ drop n (drop m xs)
  drop-drop zero n xs = ap (λ k. drop k xs) (let e : 0 + n ≡ n = omega arith in e)
  drop-drop (suc m) zero [] = ap (λ k. drop k []) (let e : suc m + 0 ≡ suc m = omega arith in e)
  drop-drop (suc m) (suc n) [] =
      ap (λ k. drop k []) (let e : suc m + suc n ≡ suc (m + suc n) = omega arith in e)
  drop-drop (suc m) n (x ∷ xs) =
      ap (λ k. drop k (x ∷ xs)) (let e : suc m + n ≡ suc (m + n) = omega arith in e)
      ∙ drop-drop m n xs

  take-min-drop : (n : ℕ) (xs : List A) → take (min n (length xs)) xs ++ drop n xs ≡ xs
  take-min-drop zero xs =
      ap (λ k. take k xs ++ xs) (let e : min 0 (length xs) ≡ 0 = omega arith in e)
  take-min-drop (suc n) [] =
      ap (λ k. take k [] ++ []) (let e : min (suc n) 0 ≡ 0 = omega arith in e)
  take-min-drop (suc n) (x ∷ xs) =
      ap (λ k. take k (x ∷ xs) ++ drop n xs)
        (let e : min (suc n) (suc (length xs)) ≡ suc (min n (length xs)) = omega arith in e)
      ∙ ap (λ ys. x ∷ ys) (take-min-drop n xs)

  slice :
      (start : ℕ) (xs : List A)
      → take (min (start + batch_size) (length xs) - start) (drop start xs)
          ++ drop (start + batch_size) xs
        ≡ drop start xs
  slice start xs =
      let e : min (start + batch_size) (length xs) - start
          ≡ min batch_size (length (drop start xs)) =
        omega (arith, length-drop start xs) in
      ap (λ k. take k (drop start xs) ++ drop (start + batch_size) xs) e
      ∙ ap (λ ys. take (min batch_size (length (drop start xs))) (drop start xs) ++ ys)
          (drop-drop start batch_size xs)
      ∙ take-min-drop batch_size (drop start xs)

  drop_all : (n : ℕ) (xs : List A) → length xs ≤ n → drop n xs ≡ []
  drop_all zero [] h = refl
  drop_all zero (x ∷ xs) h = ground (arith, h)
  drop_all (suc n) [] h = refl
  drop_all (suc n) (x ∷ xs) h = drop_all n xs (omega (arith, h))

  concat-batches_from :
      (fuel start : ℕ) (xs : List A)
      → length xs ≤ start + fuel
      → concat (batches fuel start xs) ≡ drop start xs
  unfolding batches concat
  concat-batches_from zero start xs h = sym (drop_all start xs (omega (arith, h)))
  concat-batches_from (suc fuel) start xs h = elim (Bool-cases (ltb start (length xs))) [
    | inl e ↦ rw e (
        ap (λ ys. take (min (start + batch_size) (length xs) - start) (drop start xs) ++ ys)
          (concat-batches_from fuel (start + batch_size) xs (omega (arith, h)))
        ∙ slice start xs)
    | inr e ↦ rw e (sym (drop_all start xs (ground (arith, e))))
  ]

  -- With as much fuel as points, the slices are the points in order.
  pub concat-batches : (xs : List A) → concat (batches (length xs) 0 xs) ≡ xs
  concat-batches xs = concat-batches_from (length xs) 0 xs (omega arith)
