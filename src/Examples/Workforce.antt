-- ===== src/Examples/Workforce.antt =====
-- A workforce of three workers, one of them lost.
use self_host.Prelude.{
  ℕ, ◌≤◌, ◌≡◌, ◌↔◌, refl, inl, inr, Bool, true, false, List, [], ◌∷◌, ok, In, All, ◌⊎◌,
  if◌then◌else◌, Bool-cases,
}
use self_host.Text.{codes}
use self_host.Workforce.{
  Worker, Workforce, alive_workers, first, less, get_available, clear_inactive,
}
use self_host.Workforce.Available.{
  IsSorted, IsWeakOrder, Sorts, Holds, get_available-least, get_available-returns,
  clear_inactive_iff,
}

abbrev worker : Bool → ℕ → Worker
worker alive load = record { alive = alive; load = load; uri = codes "http://w" }

abbrev workforce : Workforce
workforce =
    (codes "a", worker true 9) ∷ (codes "b", worker false 1) ∷ (codes "c", worker true 4) ∷ []

module _ (less_by : Worker → Worker → Bool) where
  unfoldable place : Worker → List Worker → List Worker
  place w [] = w ∷ []
  place w (v ∷ vs) = let rest = place w vs in if less_by v w then v ∷ rest else w ∷ v ∷ vs

  unfoldable insertion_sort : List Worker → List Worker
  insertion_sort [] = []
  insertion_sort (w ∷ ws) = place w (insertion_sort ws)

  In-place : (x w : Worker) (vs : List Worker) → In x (place w vs) ↔ ((x ≡ w) ⊎ In x vs)
  unfolding place
  In-place x w [] = (λ h. h, λ h. h)
  In-place x w (v ∷ vs) = elim (Bool-cases (less_by v w)) [
    | inr e ↦ simp e (λ h. h, λ h. h)
    | inl e ↦ simp e (
      λ h. elim h [
        | inl g ↦ inr (inl g)
        | inr g ↦ elim ((In-place x w vs).0 g) [ inl i ↦ inl i | inr i ↦ inr (inr i) ]
      ],
      λ h. elim h [
        | inl g ↦ inr ((In-place x w vs).1 (inl g))
        | inr g ↦ elim g [ inl i ↦ inl i | inr i ↦ inr ((In-place x w vs).1 (inr i)) ]
      ],
    )
  ]

  In-insertion_sort : (ws : List Worker) (x : Worker) → In x (insertion_sort ws) ↔ In x ws
  unfolding insertion_sort
  In-insertion_sort [] x = (λ h. h, λ h. h)
  In-insertion_sort (w ∷ ws) x = (
    λ h. elim ((In-place x w (insertion_sort ws)).0 h) [
      | inl g ↦ inl g
      | inr g ↦ inr ((In-insertion_sort ws x).0 g)
    ],
    λ h.
        (In-place x w (insertion_sort ws)).1
          (elim h [ inl g ↦ inl g | inr g ↦ inr ((In-insertion_sort ws x).1 g) ]),
  )

  module _ (order : IsWeakOrder less_by) where
    All-place :
        (b w : Worker) (vs : List Worker)
        → less_by w b ≡ false
        → All (λ v. less_by v b ≡ false) vs
        → All (λ v. less_by v b ≡ false) (place w vs)
    unfolding place
    All-place b w [] h a = (h, tt)
    All-place b w (v ∷ vs) h (c, a) = elim (Bool-cases (less_by v w)) [
      | inr e ↦ simp e (h, (c, a))
      | inl e ↦ simp e (c, All-place b w vs h a)
    ]

    All-below :
        (a b : Worker) (vs : List Worker)
        → less_by b a ≡ false
        → All (λ v. less_by v b ≡ false) vs
        → All (λ v. less_by v a ≡ false) vs
    All-below a b [] h t = tt
    All-below a b (v ∷ vs) h (c, t) = (order.apart a b v h c, All-below a b vs h t)

    place-IsSorted :
        (w : Worker) (vs : List Worker) → IsSorted less_by vs → IsSorted less_by (place w vs)
    unfolding place IsSorted
    place-IsSorted w [] s = (tt, tt)
    place-IsSorted w (v ∷ vs) (a, s) = elim (Bool-cases (less_by v w)) [
      | inr e ↦ simp e ((refl, All-below w v vs e a), (a, s))
      | inl e ↦ simp e (All-place v w vs (order.strict v w e) a, place-IsSorted w vs s)
    ]

    insertion_sort-IsSorted : (ws : List Worker) → IsSorted less_by (insertion_sort ws)
    unfolding insertion_sort IsSorted
    insertion_sort-IsSorted [] = tt
    insertion_sort-IsSorted (w ∷ ws) =
        place-IsSorted w (insertion_sort ws) (insertion_sort-IsSorted ws)

sorts : Sorts insertion_sort
sorts = record {
  sorted = λ f ws order. insertion_sort-IsSorted f order ws;
  same = λ f ws w. In-insertion_sort f ws w;
}

chosen : get_available insertion_sort workforce ≡ ok (worker true 4)
unfolding get_available alive_workers first insertion_sort place less
chosen = refl

get_available-least_example :
    Holds workforce (worker true 4) × ((worker true 4).alive ≡ true) × (4 ≤ 9)
get_available-least_example =
    get_available-least insertion_sort workforce (worker true 4) (codes "a") (worker true 9) sorts
      chosen (inl refl) refl

get_available-returns_example : (w : Worker) × (get_available insertion_sort workforce ≡ ok w)
get_available-returns_example =
    get_available-returns insertion_sort workforce (codes "a") (worker true 9) sorts (inl refl) refl

c_left :
    In (codes "c", worker true 4) (clear_inactive workforce).1
    ↔ (In (codes "c", worker true 4) workforce × ((worker true 4).alive ≡ true))
c_left = clear_inactive_iff workforce (codes "c") (worker true 4)
