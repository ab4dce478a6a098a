-- ===== src/Text/Segments.antt =====
-- Splitting at a separator and joining are inverse, and what the parts tell of the whole.
use mathlib.Core.List.{append-nil}
use self_host.Prelude.{
  ℕ, ◌≡◌, ◌≢◌, refl, ap, Bool, true, false, List, [], ◌∷◌, ◌++◌, arith, ◌==◌, is_empty, All,
  Bool-cases, inl, inr,
}
use self_host.Text.{Text, text_eq, has_suffix, contains_char, extend_head, split, join}

-- A string holds the separator nowhere.
abbrev pub Free : ℕ → Text → Type 0
Free c s = contains_char s c ≡ false

-- All parts but the first.
abbrev pub later_parts : List Text → List Text
later_parts [] = []
later_parts (p ∷ ps) = ps

-- The text after the first part, each part behind its separator.
abbrev pub tail_text : ℕ → List Text → Text
tail_text c [] = []
tail_text c (p ∷ ps) = c ∷ (p ++ tail_text c ps)

pub join-tail_text : (c : ℕ) (p : Text) (ps : List Text) → join (p ∷ ps) c ≡ p ++ tail_text c ps
unfolding join
join-tail_text c p [] = rw append-nil
join-tail_text c p (q ∷ ps) = rw (join-tail_text c q ps)

join-extend_head : (x c : ℕ) (ps : List Text) → join (extend_head x ps) c ≡ x ∷ join ps c
unfolding join extend_head
join-extend_head x c [] = refl
join-extend_head x c (p ∷ []) = refl
join-extend_head x c (p ∷ q ∷ ps) = refl

join-nil_head : (c : ℕ) (ps : List Text) → ps ≢ [] → join ([] ∷ ps) c ≡ c ∷ join ps c
unfolding join
join-nil_head c [] h = absurd (h refl)
join-nil_head c (p ∷ ps) h = refl

pub split-ne-nil : (s : Text) (c : ℕ) → split s c ≢ []
unfolding split extend_head
split-ne-nil [] c h = cc
split-ne-nil (x ∷ s) c h = ground arith

pub split-cons : (s : Text) (c : ℕ) → (p : Text) × (ps : List Text) × (split s c ≡ p ∷ ps)
split-cons s c = go (split s c) refl
  where
    go : (l : List Text) → split s c ≡ l → (p : Text) × (ps : List Text) × (split s c ≡ p ∷ ps)
    go [] e = absurd (split-ne-nil s c e)
    go (p ∷ ps) e = (p, ps, e)

pub join-split : (s : Text) (c : ℕ) → join (split s c) c ≡ s
unfolding split
join-split [] c = unfold join in refl
join-split (x ∷ s) c = elim (Bool-cases (x == c)) [
  | inl e ↦
      rw e (rw (join-nil_head c (split s c) (split-ne-nil s c)) (ground (arith, join-split s c)))
  | inr e ↦ rw e (rw (join-extend_head x c (split s c)) (rw (join-split s c)))
]

All-Free-extend_head :
    (x c : ℕ) (ps : List Text)
    → (x == c) ≡ false
    → All (Free c) ps
    → All (Free c) (extend_head x ps)
unfolding extend_head contains_char
All-Free-extend_head x c [] e h = ground arith
All-Free-extend_head x c (p ∷ ps) e h = ground arith

pub split-Free : (s : Text) (c : ℕ) → All (Free c) (split s c)
unfolding split contains_char
split-Free [] c = (refl, tt)
split-Free (x ∷ s) c = elim (Bool-cases (x == c)) [
  | inl e ↦ rw e (refl, split-Free s c)
  | inr e ↦ rw e (All-Free-extend_head x c (split s c) e (split-Free s c))
]

split-append : (p : Text) (c : ℕ) (s : Text) → Free c p → split (p ++ c ∷ s) c ≡ p ∷ split s c
unfolding split contains_char extend_head
split-append [] c s h = ground arith
split-append (x ∷ p) c s h = ground (arith, split-append p c s)

split_self : (p : Text) (c : ℕ) → Free c p → split p c ≡ p ∷ []
unfolding split contains_char extend_head
split_self [] c h = refl
split_self (x ∷ p) c h = ground (arith, split_self p c)

pub split-join :
    (c : ℕ) (p : Text) (ps : List Text) → All (Free c) (p ∷ ps) → split (join (p ∷ ps) c) c ≡ p ∷ ps
unfolding join
split-join c p [] h = split_self p c h.0
split-join c p (q ∷ ps) h =
    rw (split-append p c (join (q ∷ ps) c) h.0) (ap (λ t. p ∷ t) (split-join c q ps h.1))

-- The text ends in the separator exactly when the last part, other than the first, is empty.
abbrev pub last_empty : List Text → Bool
last_empty [] = false
last_empty (p ∷ []) = is_empty p
last_empty (p ∷ q ∷ ps) = last_empty (q ∷ ps)

later_parts-extend_head :
    (x : ℕ) (ps : List Text) → ps ≢ [] → later_parts (extend_head x ps) ≡ later_parts ps
unfolding extend_head
later_parts-extend_head x [] h = absurd (h refl)
later_parts-extend_head x (p ∷ ps) h = refl

last_empty-later : (ps : List Text) → last_empty (later_parts ps) ≡ true → last_empty ps ≡ true
last_empty-later [] h = h
last_empty-later (p ∷ []) h = cc
last_empty-later (p ∷ q ∷ ps) h = h

has_suffix-single :
    (x y : ℕ) (s : Text) (c : ℕ)
    → has_suffix (x ∷ y ∷ s) (c ∷ []) ≡ true
    → has_suffix (y ∷ s) (c ∷ []) ≡ true
unfolding has_suffix text_eq
has_suffix-single x y s c h = ground arith

pub has_suffix→last_empty :
    (s : Text) (c : ℕ) → has_suffix s (c ∷ []) ≡ true → last_empty (later_parts (split s c)) ≡ true
unfolding split
has_suffix→last_empty [] c h = unfold has_suffix in cc h
has_suffix→last_empty (x ∷ []) c h = unfold has_suffix text_eq extend_head in ground arith
has_suffix→last_empty (x ∷ y ∷ s) c h =
    let ih = has_suffix→last_empty (y ∷ s) c (has_suffix-single x y s c h) in
    elim (Bool-cases (x == c)) [
      | inl e ↦ rw e (last_empty-later (split (y ∷ s) c) ih)
      | inr e ↦ rw e (rw (later_parts-extend_head x (split (y ∷ s) c) (split-ne-nil (y ∷ s) c)) ih)
    ]
