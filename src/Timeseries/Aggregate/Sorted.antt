-- ===== src/Timeseries/Aggregate/Sorted.antt =====
-- The sorted keys of the buckets.
use self_host.Prelude.{
  ◌≤◌, ◌≡◌, refl, sym, ap, ◌∙◌, inl, inr, Bool, false, ◌||◌, List, [], ◌∷◌, ◌++◌, ltb, ◌==◌,
  Bool-cases, arith,
}
use self_host.Timeseries.Rollups.{Time}
use self_host.Timeseries.Aggregate.{insert_key, sort_keys}

unfoldable pub member : Time → List Time → Bool
member a [] = false
member a (x ∷ xs) = a == x || member a xs

-- No key stands twice.
unfoldable pub IsDistinct : List Time → Type 0
IsDistinct [] = Unit
IsDistinct (x ∷ xs) = (member x xs ≡ false) × IsDistinct xs

unfoldable pub IsAscending : List Time → Type 0
IsAscending [] = Unit
IsAscending (x ∷ xs) = ((a : Time) → a ≤ x → member a xs ≡ false) × IsAscending xs

pub member-append :
    (a : Time) (xs ys : List Time) → member a (xs ++ ys) ≡ (member a xs || member a ys)
unfolding member
member-append a [] ys = refl
member-append a (x ∷ xs) ys = ground (arith, member-append a xs ys)

pub append_one-IsDistinct :
    (xs : List Time) (k : Time) → member k xs ≡ false → IsDistinct xs → IsDistinct (xs ++ k ∷ [])
unfolding member IsDistinct
append_one-IsDistinct [] k h d = (refl, tt)
append_one-IsDistinct (x ∷ xs) k h (e, d) =
    (ground (arith, member-append x xs (k ∷ [])), append_one-IsDistinct xs k (ground arith) d)

member-insert_key :
    (a k : Time) (xs : List Time) → member a (insert_key k xs) ≡ (a == k || member a xs)
unfolding member insert_key
member-insert_key a k [] = refl
member-insert_key a k (x ∷ xs) = ground (arith, member-insert_key a k xs)

pub member-sort_keys : (a : Time) (xs : List Time) → member a (sort_keys xs) ≡ member a xs
unfolding member sort_keys
member-sort_keys a [] = refl
member-sort_keys a (x ∷ xs) =
    member-insert_key a x (sort_keys xs) ∙ ap (λ b. a == x || b) (member-sort_keys a xs)

insert_key-IsAscending :
    (k : Time) (xs : List Time)
    → member k xs ≡ false
    → IsAscending xs
    → IsAscending (insert_key k xs)
unfolding member insert_key IsAscending
insert_key-IsAscending k [] h s = (λ a l. refl, tt)
insert_key-IsAscending k (x ∷ xs) h (f, s) = elim (Bool-cases (ltb x k)) [
  | inl e ↦ rw e (
    λ a l. ground (arith, member-insert_key a k xs, f a l),
    insert_key-IsAscending k xs (ground arith) s,
  )
  | inr e ↦ rw e (λ a l. ground (arith, f a), (f, s))
]

pub sort_keys-IsAscending : (xs : List Time) → IsDistinct xs → IsAscending (sort_keys xs)
unfolding IsDistinct IsAscending sort_keys
sort_keys-IsAscending [] d = tt
sort_keys-IsAscending (x ∷ xs) (e, d) =
    insert_key-IsAscending x (sort_keys xs) (member-sort_keys x xs ∙ e) (sort_keys-IsAscending xs d)

heads_eq :
    (x y : Time) (xs ys : List Time)
    → IsAscending (x ∷ xs)
    → IsAscending (y ∷ ys)
    → ((a : Time) → member a (x ∷ xs) ≡ member a (y ∷ ys))
    → x ≡ y
unfolding member IsAscending
heads_eq x y xs ys (f, s) (g, t) h = ground (arith, h x, h y, f y, g x)

IsAscending-unique :
    (xs ys : List Time)
    → IsAscending xs
    → IsAscending ys
    → ((a : Time) → member a xs ≡ member a ys)
    → xs ≡ ys
unfolding member IsAscending
IsAscending-unique [] [] s t h = refl
IsAscending-unique [] (y ∷ ys) s t h = ground (arith, h y)
IsAscending-unique (x ∷ xs) [] s t h = ground (arith, h x)
IsAscending-unique (x ∷ xs) (y ∷ ys) (f, s) (g, t) h =
    let e = heads_eq x y xs ys (f, s) (g, t) h in
    λ i. e i ∷ IsAscending-unique xs ys s t (λ a. ground (arith, h a, f a, g a, e)) i

-- Distinct keys with the same members have one order.
pub sort_keys_unique :
    (xs ys : List Time)
    → IsDistinct xs
    → IsDistinct ys
    → ((a : Time) → member a xs ≡ member a ys)
    → sort_keys xs ≡ sort_keys ys
sort_keys_unique xs ys d e h =
    IsAscending-unique (sort_keys xs) (sort_keys ys) (sort_keys-IsAscending xs d)
      (sort_keys-IsAscending ys e) λ a. member-sort_keys a xs ∙ h a ∙ sym (member-sort_keys a ys)
