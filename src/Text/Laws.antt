-- ===== src/Text/Laws.antt =====
-- What the tests on strings decide.
use self_host.Prelude.{
  ℕ, zero, suc, ◌+◌, ◌≡◌, ◌↔◌, inl, inr, refl, ap, sym, ◌∙◌, Bool, true, false, some, [], ◌∷◌, ◌++◌,
  arith, length, drop, any, Bool-cases,
}
use native.Mathlib.Nat.{zero-add}
use self_host.Text.{
  Text, text_eq, has_prefix, has_suffix, trim_suffix, trim_left, trim_right, trim_space, is_space,
  index,
}

pub text_eq_iff : (s t : Text) → (text_eq s t ≡ true) ↔ (s ≡ t)
unfolding text_eq
text_eq_iff [] [] = ground arith
text_eq_iff [] (y ∷ t) = ground arith
text_eq_iff (x ∷ s) [] = ground arith
text_eq_iff (x ∷ s) (y ∷ t) = ground (arith, text_eq_iff s t)

pub text_eq_refl : (s : Text) → text_eq s s ≡ true
text_eq_refl s = (text_eq_iff s s).1 refl

pub has_prefix→append : (s p : Text) → has_prefix s p ≡ true → (t : Text) × (s ≡ p ++ t)
unfolding has_prefix
has_prefix→append s [] h = (s, refl)
has_prefix→append [] (c ∷ p) h = cc
has_prefix→append (x ∷ s) (c ∷ p) h =
    let (t, e) = has_prefix→append s p (ground arith) in (t, ground arith)

pub has_prefix-append : (p t : Text) → has_prefix (p ++ t) p ≡ true
unfolding has_prefix
has_prefix-append [] t = refl
has_prefix-append (c ∷ p) t = ground (arith, has_prefix-append p t)

pub trim_suffix_lem : (s p : Text) → has_suffix s p ≡ true → s ≡ trim_suffix s p ++ p
unfolding has_suffix trim_suffix
trim_suffix_lem [] [] h = refl
trim_suffix_lem [] (c ∷ p) h = cc
trim_suffix_lem (x ∷ s) p h = ground (arith, text_eq_iff (x ∷ s) p, trim_suffix_lem s p)

index_later :
    (x : ℕ) (s p : Text) (n : ℕ)
    → has_prefix (x ∷ s) p ≡ false
    → index (x ∷ s) p ≡ some n
    → (m : ℕ) × (index s p ≡ some m) × (n ≡ suc m)
unfolding index
index_later x s p n e h = ground arith

-- A position that Index returns splits the string around the part.
pub index_split :
    (s p : Text) (n : ℕ)
    → index s p ≡ some n
    → (a : Text) × (b : Text) × (s ≡ a ++ (p ++ b)) × (length a ≡ n)
unfolding index
index_split [] [] n h = ([], [], refl, ground arith)
index_split [] (c ∷ p) n h = cc
index_split (x ∷ s) p n h = elim (Bool-cases (has_prefix (x ∷ s) p)) [
  | inl e ↦ let (t, q) = has_prefix→append (x ∷ s) p e in ([], t, q, ground arith)
  | inr e ↦
      let (m, q, r) = index_later x s p n e h in
      let (a, b, u, v) = index_split s p m q in (x ∷ a, b, ground arith, ground arith)
]

pub drop-append : (a b : Text) → drop (length a) (a ++ b) ≡ b
drop-append [] b = refl
drop-append (x ∷ a) b = drop-append a b

drop-nil : (n : ℕ) → drop {A = ℕ} n [] ≡ []
drop-nil zero = refl
drop-nil (suc n) = refl

pub drop-drop : (m n : ℕ) (s : Text) → drop n (drop m s) ≡ drop (m + n) s
drop-drop zero n s = rw zero-add
drop-drop (suc m) n [] = drop-nil n ∙ sym (drop-nil (suc m + n))
drop-drop (suc m) n (x ∷ s) =
    let e : suc (m + n) ≡ suc m + n = omega arith in drop-drop m n s ∙ ap (λ k. drop k (x ∷ s)) e

-- A string with no white space in it is its own trimming.
trim_left_self : (s : Text) → any is_space s ≡ false → trim_left s ≡ s
unfolding trim_left
trim_left_self [] h = refl
trim_left_self (c ∷ s) h = ground arith

trim_right_self : (s : Text) → any is_space s ≡ false → trim_right s ≡ s
unfolding trim_right
trim_right_self [] h = refl
trim_right_self (c ∷ s) h = ground (arith, trim_right_self s)

pub trim_space_self : (s : Text) → any is_space s ≡ false → trim_space s ≡ s
unfolding trim_space
trim_space_self s h = rw (trim_left_self s h) (trim_right_self s h)

pub any-append :
    (p : ℕ → Bool) (s t : Text) → any p (s ++ t) ≡ false → (any p s ≡ false) × (any p t ≡ false)
any-append p [] t h = (refl, h)
any-append p (x ∷ s) t h = ground (arith, any-append p s t)

pub append-any :
    (p : ℕ → Bool) (s t : Text) → any p s ≡ false → any p t ≡ false → any p (s ++ t) ≡ false
append-any p [] t h k = k
append-any p (x ∷ s) t h k = ground (arith, append-any p s t)
