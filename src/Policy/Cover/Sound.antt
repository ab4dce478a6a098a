-- ===== src/Policy/Cover/Sound.antt =====
-- What an affirmative answer of policyResourceCovers means for the resources that the access queries match.
use self_host.Prelude.{
  ℕ, ◌+◌, ◌≡◌, ◌≢◌, ◌⊎◌, inl, inr, refl, sym, ap, ◌∙◌, true, false, ◌&&◌, Option, none, some, List,
  [], ◌∷◌, ◌++◌, arith, ◌==◌, subst, length, is_empty, All, Bool-cases,
}
use self_host.Text.{
  Text, join, text_eq, contains_char, count_char, has_prefix, has_suffix, trim_suffix, split,
}
use self_host.Text.Laws.{text_eq_iff, any-append, trim_suffix_lem, has_prefix→append}
use self_host.Text.Segments.{
  Free, tail_text, split-cons, split-Free, join-split, join-tail_text, has_suffix→last_empty,
}
use self_host.Policy.Resource.{wildcard}
use self_host.Policy.Cover.{like_loop, like_end, sql_like_match, policy_resource_covers}
use self_host.Policy.Cover.Like.{Like, leave, take, Unescaped, Like-anything, Like-head}
use self_host.Policy.Cover.Literal.{Literal, Literal-refl, start-Literal}

-- The tests after the loop, read backwards.
end_accepts :
    (pattern s : Text) (o : Option ℕ)
    → like_end pattern s o ≡ true
    → (e : ℕ) × (o ≡ some e) × ((has_suffix pattern wildcard ≡ true) ⊎ (e ≡ length s))
unfolding like_end
end_accepts pattern s none h = cc
end_accepts pattern s (some e) h = (
  e,
  refl,
  elim (Bool-cases (has_suffix pattern wildcard)) [ inl y ↦ inl y | inr y ↦ inr (ground arith) ],
)

match_parts :
    (pattern s p : Text) (ps : List Text)
    → split pattern b'%' ≡ p ∷ ps
    → sql_like_match pattern s ≡ true
    → (text_eq pattern s ≡ true)
      ⊎ ((e : ℕ) × (like_loop pattern s 0 0 (p ∷ ps) ≡ some e)
          × ((has_suffix pattern wildcard ≡ true) ⊎ (e ≡ length s)))
unfolding sql_like_match
match_parts pattern s p ps e h = elim (Bool-cases (length (p ∷ ps) == 1)) [
  | inl y ↦ inl (rw (e, y) at h)
  | inr y ↦ inr (end_accepts pattern s (like_loop pattern s 0 0 (p ∷ ps)) (rw (e, y) at h))
]

part_not_wildcard :
    (pattern p : Text) (ps : List Text)
    → pattern ≡ p ++ tail_text b'%' ps
    → Free b'%' p
    → is_empty p ≡ false
    → has_prefix pattern wildcard ≡ false
unfolding has_prefix contains_char
part_not_wildcard pattern [] ps e f h = cc
part_not_wildcard pattern (c ∷ p) ps e f h = rw e (ground arith)

-- sqlLikeMatch answers true only where the pattern, read with `%` as its special character, matches.
pub sql_like_match-Literal :
    (pattern s : Text) → sql_like_match pattern s ≡ true → Literal pattern s
sql_like_match-Literal pattern s h =
    let (p, ps, e) = split-cons pattern b'%' in
    let whole : pattern ≡ p ++ tail_text b'%' ps =
      sym (join-split pattern b'%') ∙ ap (λ l. join l b'%') e ∙ join-tail_text b'%' p ps in
    let parts_free : All (Free b'%') (p ∷ ps) = rw e at (split-Free pattern b'%') in
    let first = part_not_wildcard pattern p ps whole parts_free.0 in
    elim (match_parts pattern s p ps e h) [
      | inl q ↦ subst (Literal pattern) ((text_eq_iff pattern s).0 q) (Literal-refl pattern)
      | inr (n, ran, fin) ↦ rw whole (
          start-Literal pattern s n p ps first ran (elim fin [
            | inl y ↦ inl (rw e at (has_suffix→last_empty pattern b'%' y))
            | inr y ↦ inr y
          ]))
    ]

module _ (x : ℕ) (a : Text) where
  head_plain : Free b'%' (x ∷ a) → x ≢ b'%'
  unfolding contains_char
  head_plain f e = ground arith

  tail_plain : Free b'%' (x ∷ a) → Free b'%' a
  unfolding contains_char
  tail_plain f = ground arith

  head-Unescaped : Unescaped (x ∷ a) → x ≢ 92
  unfolding contains_char
  head-Unescaped f e = ground arith

  tail-Unescaped : Unescaped (x ∷ a) → Unescaped a
  unfolding contains_char
  tail-Unescaped f = ground arith

Like-prefix : (a t r : Text) → Free b'%' a → Unescaped a → Like (a ++ t) r → Like (a ++ wildcard) r
Like-prefix [] t r f u l = Like-anything r
Like-prefix (x ∷ a) t [] f u l = absurd (Like-head [] (head_plain x a f) (head-Unescaped x a u) l)
Like-prefix (x ∷ a) t (d ∷ r) f u l =
    let (l', k) = Like-head (d ∷ r) (head_plain x a f) (head-Unescaped x a u) l in
    k (a ++ wildcard) r (Like-prefix a t r (tail_plain x a f) (tail-Unescaped x a u) l')

Literal→Like :
    {p c : Text} → Literal p c → Free b'%' c → Unescaped c → (r : Text) → Like c r → Like p r
Literal→Like Literal.done f u r l = l
Literal→Like (Literal.same {c} {s} l) f u [] m =
    absurd (Like-head [] (head_plain c s f) (head-Unescaped c s u) m)
Literal→Like (Literal.same {c} {p} {s} l) f u (d ∷ r) m =
    let (m', k) = Like-head (d ∷ r) (head_plain c s f) (head-Unescaped c s u) m in
    k p r (Literal→Like l (tail_plain c s f) (tail-Unescaped c s u) r m')
Literal→Like (Literal.leave e l) f u r m = leave e (Literal→Like l f u r m)
Literal→Like (Literal.take {d} {s} e l) f u [] m =
    absurd (Like-head [] (head_plain d s f) (head-Unescaped d s u) m)
Literal→Like (Literal.take {d} {s} e l) f u (x ∷ r) m =
    let (m', k) = Like-head (x ∷ r) (head_plain d s f) (head-Unescaped d s u) m in
    take e (Literal→Like l (tail_plain d s f) (tail-Unescaped d s u) r m')

-- The four ways in which the answer is yes.
data Reason (existing candidate : Text) : Type 0 where
  everything : existing ≡ wildcard → Reason existing candidate
  equal : existing ≡ candidate → Reason existing candidate
  prefix :
      count_char existing b'%' ≡ 1
      → has_suffix existing wildcard ≡ true
      → has_prefix candidate (trim_suffix existing wildcard) ≡ true
      → Reason existing candidate
  matched :
      Free b'%' candidate → sql_like_match existing candidate ≡ true → Reason existing candidate

covers-Reason :
    (existing candidate : Text)
    → policy_resource_covers existing candidate ≡ true
    → Reason existing candidate
unfolding policy_resource_covers
covers-Reason existing candidate h = elim (Bool-cases (text_eq existing wildcard)) [
  | inl a ↦ everything ((text_eq_iff existing wildcard).0 a)
  | inr a ↦ elim (Bool-cases (text_eq existing candidate)) [
    | inl b ↦ equal ((text_eq_iff existing candidate).0 b)
    | inr b ↦ elim (Bool-cases (count_char existing b'%' == 1 && has_suffix existing wildcard)) [
      | inl c ↦ prefix (ground arith) (ground arith) (ground arith)
      | inr c ↦ matched (ground arith) (ground arith)
    ]
  ]
]

count-append : (s t : Text) (c : ℕ) → count_char (s ++ t) c ≡ count_char s c + count_char t c
unfolding count_char
count-append [] t c = omega arith
count-append (x ∷ s) t c = ground (arith, count-append s t c)

count_zero-Free : (s : Text) (c : ℕ) → count_char s c ≡ 0 → Free c s
unfolding count_char contains_char
count_zero-Free [] c h = refl
count_zero-Free (x ∷ s) c h = ground (arith, count_zero-Free s c)

prefix_parts :
    (a : Text)
    → count_char (a ++ wildcard) b'%' ≡ 1
    → Unescaped (a ++ wildcard)
    → Free b'%' a × Unescaped a
prefix_parts a h u = (
  count_zero-Free a b'%' (unfold count_char in omega (arith, count-append a wildcard b'%')),
  (unfold contains_char in (any-append (λ x. x == 92) a wildcard u).0),
)

-- Where an existing resource covers a candidate, every resource that the access query matches with the candidate it matches with the existing one.
pub covers-Like :
    (existing candidate r : Text)
    → Unescaped existing
    → Unescaped candidate
    → policy_resource_covers existing candidate ≡ true
    → Like candidate r
    → Like existing r
covers-Like existing candidate r u v h l = elim (covers-Reason existing candidate h) [
  | everything e ↦ rw e (Like-anything r)
  | equal e ↦ rw e l
  | prefix one_sign ends starts ↦
      let whole = trim_suffix_lem existing wildcard ends in
      let a = trim_suffix existing wildcard in
      let (t, e) = has_prefix→append candidate a starts in
      let one : count_char (a ++ wildcard) b'%' ≡ 1 = rw whole at one_sign in
      let (free, unescaped) = prefix_parts a one (rw whole at u) in
      rw whole (Like-prefix a t r free unescaped (rw e at l))
  | matched f m ↦ Literal→Like (sql_like_match-Literal existing candidate m) f v r l
]
