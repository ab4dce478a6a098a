-- ===== src/Policy/Cover/Literal.antt =====
-- A pattern read with `%` as its only special character, against a text that may itself be a pattern.
use self_host.Prelude.{
  ℕ, suc, ◌+◌, ◌≡◌, ◌⊎◌, inl, inr, refl, sym, ap, ◌∙◌, true, false, some, List, [], ◌∷◌, ◌++◌,
  arith, subst, length-append, length, drop, is_empty,
}
use mathlib.Core.List.{append_assoc}
use self_host.Text.{Text, has_prefix, index}
use self_host.Text.Laws.{index_split, drop-append, drop-drop}
use self_host.Text.Segments.{tail_text, last_empty}
use self_host.Policy.Resource.{wildcard}
use self_host.Policy.Cover.{like_loop}

pub data Literal : Text → Text → Type 0 where
  done : Literal [] []
  same : {c : ℕ} {p s : Text} → Literal p s → Literal (c ∷ p) (c ∷ s)
  leave : {c : ℕ} {p s : Text} → c ≡ b'%' → Literal p s → Literal (c ∷ p) s
  take : {c d : ℕ} {p s : Text} → c ≡ b'%' → Literal (c ∷ p) s → Literal (c ∷ p) (d ∷ s)

pub Literal-refl : (a : Text) → Literal a a
Literal-refl [] = done
Literal-refl (c ∷ a) = same (Literal-refl a)

pub Literal-prefix : (a : Text) {p s : Text} → Literal p s → Literal (a ++ p) (a ++ s)
Literal-prefix [] l = l
Literal-prefix (c ∷ a) l = same (Literal-prefix a l)

pub Literal-skip : (a : Text) {p s : Text} → Literal p s → Literal (b'%' ∷ p) (a ++ s)
Literal-skip [] l = leave refl l
Literal-skip (c ∷ a) l = take refl (Literal-skip a l)

Literal-rest : (s : Text) → Literal (b'%' ∷ []) s
Literal-rest [] = leave refl done
Literal-rest (c ∷ s) = take refl (Literal-rest s)

length_zero : (a : Text) → length a ≡ 0 → a ≡ []
length_zero [] h = refl
length_zero (c ∷ a) h = absurd (omega arith)

-- What the tests after the loop leave: the pattern ends in `%`, or all of the text is used.
abbrev Ended : List Text → ℕ → Text → Type 0
Ended parts idx s = (last_empty parts ≡ true) ⊎ (idx ≡ length s)

Ended-later :
    (c : ℕ) (p : Text) (ps : List Text) (e : ℕ) (s : Text) → Ended ((c ∷ p) ∷ ps) e s → Ended ps e s
Ended-later c p [] e s fin = fin
Ended-later c p (q ∷ ps) e s fin = fin

drop-length : (s : Text) → drop (length s) s ≡ []
drop-length [] = refl
drop-length (c ∷ s) = drop-length s

-- A part that is not empty was found at some position.
part_found :
    (pattern s : Text) (i idx e c : ℕ) (p : Text) (ps : List Text)
    → like_loop pattern s i idx ((c ∷ p) ∷ ps) ≡ some e
    → (pos : ℕ) × (index (drop idx s) (c ∷ p) ≡ some pos)
      × (like_loop pattern s (suc i) (idx + (pos + length (c ∷ p))) ps ≡ some e)
unfolding like_loop
part_found pattern s i idx e c p ps h = ground arith

-- The first part was found at the start.
first_at_start :
    (pattern s : Text) (idx e c pos : ℕ) (p : Text) (ps : List Text)
    → has_prefix pattern wildcard ≡ false
    → like_loop pattern s 0 idx ((c ∷ p) ∷ ps) ≡ some e
    → index (drop idx s) (c ∷ p) ≡ some pos
    → pos ≡ 0
unfolding like_loop
first_at_start pattern s idx e c pos p ps a h k = ground arith

-- Behind a part found at `pos` stands the part, and then what `drop` gives.
found_text :
    (s p : Text) (idx pos : ℕ)
    → index (drop idx s) p ≡ some pos
    → (a : Text) × (drop idx s ≡ a ++ (p ++ drop (idx + (pos + length p)) s)) × (length a ≡ pos)
found_text s p idx pos h =
    let (a, b, e, n) = index_split (drop idx s) p pos h in
    let len : length (a ++ p) ≡ pos + length p = length-append a p ∙ ap (λ k. k + length p) n in
    let rest : drop (idx + (pos + length p)) s ≡ b =
      sym (drop-drop idx (pos + length p) s)
      ∙ ap (λ t. drop (pos + length p) t) (e ∙ sym (append_assoc a p b))
      ∙ ap (λ k. drop k ((a ++ p) ++ b)) (sym len)
      ∙ drop-append (a ++ p) b in
    (a, rw rest e, n)

-- The parts behind the first, each of them behind a `%`, match what is left of the text.
loop-Literal :
    (pattern s : Text) (i idx e : ℕ) (parts : List Text)
    → like_loop pattern s (suc i) idx parts ≡ some e
    → Ended parts e s
    → Literal (tail_text b'%' parts) (drop idx s)
loop-Literal pattern s i idx e [] h (inl f) = cc
loop-Literal pattern s i idx e [] h (inr f) =
    let g : idx ≡ length s = (unfold like_loop in ground arith) in rw g (rw (drop-length s) done)
loop-Literal pattern s i idx e ([] ∷ []) h fin = Literal-rest (drop idx s)
loop-Literal pattern s i idx e ([] ∷ q ∷ ps) h fin =
    leave refl (loop-Literal pattern s (suc i) idx e (q ∷ ps) (unfold like_loop in h) fin)
loop-Literal pattern s i idx e ((c ∷ p) ∷ ps) h fin =
    let (pos, found, onward) = part_found pattern s (suc i) idx e c p ps h in
    let (a, shape, _) = found_text s (c ∷ p) idx pos found in
    rw shape (
      Literal-skip a (
        Literal-prefix (c ∷ p) (
          loop-Literal pattern s (suc i) (idx + (pos + length (c ∷ p))) e ps onward
            (Ended-later c p ps e s fin))))

-- The loop started at the first part.
pub start-Literal :
    (pattern s : Text) (e : ℕ) (p : Text) (ps : List Text)
    → (is_empty p ≡ false → has_prefix pattern wildcard ≡ false)
    → like_loop pattern s 0 0 (p ∷ ps) ≡ some e
    → Ended ps e s
    → Literal (p ++ tail_text b'%' ps) s
start-Literal pattern s e [] ps first h fin =
    loop-Literal pattern s 0 0 e ps (unfold like_loop in h) fin
start-Literal pattern s e (c ∷ p) ps first h fin =
    let (pos, found, onward) = part_found pattern s 0 0 e c p ps h in
    let (a, shape, n) = found_text s (c ∷ p) 0 pos found in
    let z = first_at_start pattern s 0 e c pos p ps (first refl) h found in
    let whole : s ≡ (c ∷ p) ++ drop (0 + (pos + length (c ∷ p))) s =
      shape
      ∙ ap (λ t. t ++ ((c ∷ p) ++ drop (0 + (pos + length (c ∷ p))) s)) (length_zero a (n ∙ z)) in
    subst (Literal ((c ∷ p) ++ tail_text b'%' ps)) (sym whole) (
      Literal-prefix (c ∷ p)
        (loop-Literal pattern s 0 (0 + (pos + length (c ∷ p))) e ps onward fin))
