-- ===== src/Workforce/Available.antt =====
-- Which worker is chosen, and which are removed.
use self_host.Prelude.{
  Bool, ◌≤◌, ◌≡◌, ◌↔◌, inl, inr, refl, sym, ap, subst, ◌∙◌, true, false, List, [], ◌∷◌, is_empty,
  ok, err, In, All, arith, Bool-cases,
}
use self_host.Text.{Text}
use self_host.Workforce.{
  Worker, Workforce, no_available_worker, alive_workers, first, less, get_available, clear_inactive,
}

-- No worker comes before one that is less.
unfoldable pub IsSorted : (Worker → Worker → Bool) → List Worker → Type 0
IsSorted less_by [] = Unit
IsSorted less_by (w ∷ ws) = All (λ v. less_by v w ≡ false) ws × IsSorted less_by ws

-- A test that sort.Sort may be given: a strict order, and so is being not less.
pub record IsWeakOrder (less_by : Worker → Worker → Bool) : Type 0 where
  pub strict : (a b : Worker) → less_by a b ≡ true → less_by b a ≡ false
  pub apart : (a b c : Worker) → less_by b a ≡ false → less_by c b ≡ false → less_by c a ≡ false

-- sort.Sort orders the elements that it is given by the test that it is given.
pub record Sorts (sort : (Worker → Worker → Bool) → List Worker → List Worker) : Type 0 where
  pub sorted :
      (less_by : Worker → Worker → Bool) (ws : List Worker)
      → IsWeakOrder less_by
      → IsSorted less_by (sort less_by ws)
  pub same :
      (less_by : Worker → Worker → Bool) (ws : List Worker) (w : Worker)
      → In w (sort less_by ws) ↔ In w ws

less-IsWeakOrder : IsWeakOrder less
unfolding less
less-IsWeakOrder = record {
  strict = λ a b h. ground (arith, h);
  apart = λ a b c h k. ground (arith, h, k);
}

not_less : (w v : Worker) → less v w ≡ false → w.load ≤ v.load
unfolding less
not_less w v h = ground (arith, h)

-- The worker stands in the map under some key.
unfoldable pub Holds : Workforce → Worker → Type 0
Holds c w = (k : Text) × In (k, w) c

alive-Holds : (c : Workforce) (w : Worker) → In w (alive_workers c) → Holds c w × (w.alive ≡ true)
unfolding alive_workers Holds
alive-Holds [] w h = elim h [ ]
alive-Holds ((k, v) ∷ c) w h = elim (Bool-cases v.alive) [
  | inl e ↦
      let m : In w (v ∷ alive_workers c) = simp e at h in
      elim m [
        | inl f ↦ ((k, inl (ap (λ x. (k, x)) f)), ap (λ x. x.alive) f ∙ e)
        | inr g ↦ let ((j, i), a) = alive-Holds c w g in ((j, inr i), a)
      ]
  | inr e ↦
      let m : In w (alive_workers c) = simp e at h in
      let ((j, i), a) = alive-Holds c w m in ((j, inr i), a)
]

Holds-alive :
    (c : Workforce) (k : Text) (w : Worker) → In (k, w) c → w.alive ≡ true → In w (alive_workers c)
unfolding alive_workers
Holds-alive [] k w h a = elim h [ ]
Holds-alive ((j, v) ∷ c) k w (inl e) a =
    let f : w ≡ v = ap (λ x. x.1) e in
    let b : v.alive ≡ true = ap (λ x. x.alive) (sym f) ∙ a in simp b (inl f)
Holds-alive ((j, v) ∷ c) k w (inr h) a = elim (Bool-cases v.alive) [
  | inl e ↦ simp e (inr (Holds-alive c k w h a))
  | inr e ↦ simp e (Holds-alive c k w h a)
]

All-lookup : (P : Worker → Type 0) (ws : List Worker) (w : Worker) → All P ws → In w ws → P w
All-lookup P (v ∷ ws) w (p, ps) (inl e) = subst P (sym e) p
All-lookup P (v ∷ ws) w (p, ps) (inr h) = All-lookup P ws w ps h
All-lookup P [] w p h = elim h [ ]

first-In : (ws : List Worker) (w : Worker) → first ws ≡ ok w → In w ws
unfolding first
first-In [] w e = cc e
first-In (x ∷ ws) w e = inl (let f : w ≡ x = cc e in f)

first-least :
    (ws : List Worker) (w v : Worker)
    → IsSorted less ws
    → first ws ≡ ok w
    → In v ws
    → w.load ≤ v.load
unfolding first IsSorted
first-least [] w v s e h = elim h [ ]
first-least (x ∷ ws) w v (s, t) e h =
    let f : x ≡ w = cc e in
    elim h [
      | inl g ↦ subst (λ y. y.load ≤ v.load) (g ∙ f) (let l : v.load ≤ v.load = omega arith in l)
      | inr g ↦
          subst (λ y. y.load ≤ v.load) f
            (not_less x v (All-lookup (λ y. less y x ≡ false) ws v s g))
    ]

available_run :
    (f : (Worker → Worker → Bool) → List Worker → List Worker) (c : Workforce) (w : Worker)
    → get_available f c ≡ ok w
    → first (f less (alive_workers c)) ≡ ok w
unfolding get_available
available_run f c w h = elim (Bool-cases (is_empty (alive_workers c))) [
  | inl e ↦ let k : err no_available_worker ≡ ok w = simp e at h in cc k
  | inr e ↦ simp e at h
]

-- Where sort.Sort orders the workers by the test it is given, the worker that GetAvailable returns is one of the map, is alive, and has a
-- load not above that of any worker of the map that is alive.
pub get_available-least :
    (sort : (Worker → Worker → Bool) → List Worker → List Worker) (c : Workforce) (w : Worker)
    (k : Text) (v : Worker)
    → Sorts sort
    → get_available sort c ≡ ok w
    → In (k, v) c
    → v.alive ≡ true
    → Holds c w × (w.alive ≡ true) × (w.load ≤ v.load)
get_available-least sort c w k v law h i a =
    let run = available_run sort c w h in
    let ws = alive_workers c in
    let (held, alive) = alive-Holds c w ((law.same less ws w).0 (first-In (sort less ws) w run)) in
    let m = (law.same less ws v).1 (Holds-alive c k v i a) in
    (held, alive, first-least (sort less ws) w v (law.sorted less ws less-IsWeakOrder) run m)

In-first : (ws : List Worker) (v : Worker) → In v ws → (w : Worker) × (first ws ≡ ok w)
unfolding first
In-first [] v h = elim h [ ]
In-first (x ∷ ws) v h = (x, refl)

not_empty : (ws : List Worker) (v : Worker) → In v ws → is_empty ws ≡ false
not_empty [] v h = elim h [ ]
not_empty (x ∷ ws) v h = refl

-- Where sort.Sort orders the workers by the test it is given and one of the map is alive, GetAvailable returns a worker.
pub get_available-returns :
    (sort : (Worker → Worker → Bool) → List Worker → List Worker) (c : Workforce) (k : Text)
    (v : Worker)
    → Sorts sort
    → In (k, v) c
    → v.alive ≡ true
    → (w : Worker) × (get_available sort c ≡ ok w)
unfolding get_available
get_available-returns sort c k v law i a =
    let m = Holds-alive c k v i a in
    let (w, e) =
      In-first (sort less (alive_workers c)) v ((law.same less (alive_workers c) v).1 m) in
    (w, simp (not_empty (alive_workers c) v m) e)

-- ClearInactive leaves exactly the workers that are alive.
pub clear_inactive_iff :
    (c : Workforce) (k : Text) (w : Worker)
    → In (k, w) (clear_inactive c).1 ↔ (In (k, w) c × (w.alive ≡ true))
unfolding clear_inactive
clear_inactive_iff [] k w = (λ h. elim h [ ], λ h. elim h.0 [ ])
clear_inactive_iff ((j, v) ∷ c) k w = elim (Bool-cases v.alive) [
  | inl e ↦ (
    λ h.
        let m : In (k, w) ((j, v) ∷ (clear_inactive c).1) = simp e at h in
        elim m [
          | inl g ↦ (inl g, ap (λ x. x.1.alive) g ∙ e)
          | inr g ↦ let (i, a) = (clear_inactive_iff c k w).0 g in (inr i, a)
        ],
    λ (i, a). simp e (elim i [ inl g ↦ inl g | inr g ↦ inr ((clear_inactive_iff c k w).1 (g, a)) ]),
  )
  | inr e ↦ (
    λ h.
        let m : In (k, w) (clear_inactive c).1 = simp e at h in
        let (i, a) = (clear_inactive_iff c k w).0 m in (inr i, a),
    λ (i, a). simp e (elim i [
      | inl g ↦ let b : true ≡ false = sym a ∙ ap (λ x. x.1.alive) g ∙ e in cc b
      | inr g ↦ (clear_inactive_iff c k w).1 (g, a)
    ]),
  )
]
