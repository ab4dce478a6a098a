-- ===== src/Ingest/Writer/Buffers.antt =====
-- The buffer of the Writer as a map, and the points it holds for a series.
use self_host.Prelude.{
  ℕ, ◌+◌, ◌≡◌, refl, Bool, true, false, Option, none, some, List, [], ◌∷◌, ◌++◌, ◌==◌,
  if◌then◌else◌, length, length-append, arith, Bool-cases, inl, inr,
}
use mathlib.Core.List.{append-nil, append_assoc}
use self_host.Policy.Rule.{Uuid}
use self_host.Timeseries.Rollups.{Time}
use self_host.Ingest.Writer.{WriterPoint, Buffer, append_point, Event, done, tick, received}

unfoldable pub or_else : {F : Type 0} → Option F → Option F → Option F
or_else none o = o
or_else (some x) o = some x

pub or_else_assoc :
    {F : Type 0} (a b c : Option F) → or_else (or_else a b) c ≡ or_else a (or_else b c)
unfolding or_else
or_else_assoc none b c = refl
or_else_assoc (some x) b c = refl

pub or_else-none : {F : Type 0} (a : Option F) → or_else a none ≡ a
unfolding or_else
or_else-none none = refl
or_else-none (some x) = refl

pub same_branch : {A : Type 0} (c : Bool) (a : A) → a ≡ (if c then a else a)
same_branch true a = refl
same_branch false a = refl

-- The value of the first point that a column holds under a time: `column` is what it keeps of a time.
unfoldable pub first_at : {F : Type 0} → (Time → Time) → List (WriterPoint F) → Time → Option F
first_at column [] t = none
first_at column (p ∷ ps) t =
    let rest = first_at column ps t in if column p.ts == t then some p.value else rest

pub first_at-append :
    {F : Type 0} (column : Time → Time) (xs ys : List (WriterPoint F)) (t : Time)
    → first_at column (xs ++ ys) t ≡ or_else (first_at column xs t) (first_at column ys t)
unfolding first_at or_else
first_at-append column [] ys t = refl
first_at-append column (x ∷ xs) ys t = ground (arith, first_at-append column xs ys t)

-- All points of a series in a buffer.
unfoldable pub points_of : {F : Type 0} → Uuid → Buffer F → List (WriterPoint F)
points_of k [] = []
points_of k ((id, ps) ∷ b) = let rest = points_of k b in if id == k then ps ++ rest else rest

-- The points of a series that Run received.
unfoldable pub received_for : {F : Type 0} → Uuid → List (Event F) → List (WriterPoint F)
received_for k [] = []
received_for k (done ∷ es) = []
received_for k (tick ∷ es) = received_for k es
received_for k (received p ∷ es) =
    let rest = received_for k es in
    if p.timeseries_uuid == k then record { value = p.value; ts = p.timestamp } ∷ rest else rest

-- A key stands once: no later entry has points of it.
unfoldable pub IsUnique : {F : Type 0} → Buffer F → Type 0
IsUnique [] = Unit
IsUnique ((id, ps) ∷ b) = (points_of id b ≡ []) × IsUnique b

module _ {F : Type 0} where
  unfoldable pub only : Uuid → Uuid → WriterPoint F → List (WriterPoint F)
  only id k p = if id == k then p ∷ [] else []

  pub points_of-append_point :
      (id k : Uuid) (p : WriterPoint F) (b : Buffer F)
      → IsUnique b
      → points_of k (append_point id p b) ≡ points_of k b ++ only id k p
  unfolding append_point points_of only IsUnique
  points_of-append_point id k p [] u = ground arith
  points_of-append_point id k p ((j, ps) ∷ b) (n, u) = grind (
    arith,
    points_of-append_point id k p b u,
    n,
    append-nil (points_of k b),
    append-nil ps,
    append_assoc ps (points_of k b) (p ∷ []),
    append_assoc ps (p ∷ []) (points_of k b),
  )

  pub append_point-IsUnique :
      (id : Uuid) (p : WriterPoint F) (b : Buffer F) → IsUnique b → IsUnique (append_point id p b)
  unfolding append_point points_of only IsUnique
  append_point-IsUnique id p [] u = (refl, tt)
  append_point-IsUnique id p ((j, ps) ∷ b) (n, u) =
      let later = points_of-append_point id j p b u in
      elim (Bool-cases (j == id)) [
        | inl e ↦ rw e (n, u)
        | inr e ↦ rw e (grind (arith, later, n), append_point-IsUnique id p b u)
      ]

  -- How many points a buffer holds.
  unfoldable pub size : Buffer F → ℕ
  size [] = 0
  size ((id, ps) ∷ b) = length ps + size b

  pub size-append_point :
      (id : Uuid) (p : WriterPoint F) (b : Buffer F) → size (append_point id p b) ≡ size b + 1
  unfolding append_point size
  size-append_point id p [] = omega arith
  size-append_point id p ((j, ps) ∷ b) =
      grind (arith, size-append_point id p b, length-append ps (p ∷ []))

  pub size_zero : (k : Uuid) (b : Buffer F) → size b ≡ 0 → points_of k b ≡ []
  unfolding size points_of
  size_zero k [] h = refl
  size_zero k ((j, []) ∷ b) h = grind (arith, size_zero k b (omega (arith, h)))
  size_zero k ((j, p ∷ ps) ∷ b) h = ground (arith, h)
