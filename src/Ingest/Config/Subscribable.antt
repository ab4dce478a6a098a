-- ===== src/Ingest/Config/Subscribable.antt =====
-- The topics that validateSubscriptionTopic accepts.
use self_host.Prelude.{
  ◌+◌, In, ◌⊎◌, ltb, ==_iff, is_empty, ℕ, ◌≡◌, refl, sym, ap, ◌∙◌, inl, inr, true, false, [], ◌∷◌,
  ◌++◌, ok, Bool-cases, arith,
}
use self_host.Text.{
  Text, codes, trim_space, trim_suffix, trim_left, trim_right, is_space, contains_char, count_char,
  has_suffix,
}
use self_host.Text.Laws.{trim_suffix_lem}
use self_host.Ingest.Config.{is_blank, validate_subscription_topic}

-- A topic that may be subscribed to: some character of it is not a space, and "#" stands nowhere but at the end.
pub record IsSubscribable (t : Text) : Type 0 where
  pub not_blank : (c : ℕ) × (In c t × (is_space c ≡ false))
  pub wildcard : (¬ In 35 t) ⊎ ((s : Text) × ((t ≡ s ++ 35 ∷ []) × (¬ In 35 s)))

visible-trim_left :
    (t : Text) → (is_empty (trim_left t) ≡ false) → (c : ℕ) × (In c t × (is_space c ≡ false))
unfolding trim_left
visible-trim_left [] h = cc h
visible-trim_left (c ∷ t) h = elim (Bool-cases (is_space c)) [
  | inr e ↦ (c, (inl refl, e))
  | inl e ↦ let (d, (i, f)) = visible-trim_left t (rw e at h) in (d, (inr i, f))
]

trim_right-empty : (t : Text) → is_empty t ≡ true → is_empty (trim_right t) ≡ true
unfolding trim_right
trim_right-empty [] h = refl
trim_right-empty (c ∷ t) h = cc h

not_blank-visible : (t : Text) → is_blank t ≡ false → (c : ℕ) × (In c t × (is_space c ≡ false))
unfolding is_blank trim_space
not_blank-visible t h = elim (Bool-cases (is_empty (trim_left t))) [
  | inr e ↦ visible-trim_left t e
  | inl e ↦ cc (h, trim_right-empty (trim_left t) e)
]

absent-count : (t : Text) (c : ℕ) → count_char t c ≡ 0 → ¬ In c t
unfolding count_char
absent-count [] c h i = absurd i
absent-count (x ∷ t) c h (inl e) = ground (arith, h, (==_iff x c).1 (sym e))
absent-count (x ∷ t) c h (inr i) = absent-count t c (ground (arith, h)) i

absent-contains : (t : Text) (c : ℕ) → contains_char t c ≡ false → ¬ In c t
unfolding contains_char
absent-contains [] c h i = absurd i
absent-contains (x ∷ t) c h (inl e) = ground (arith, h, (==_iff x c).1 (sym e))
absent-contains (x ∷ t) c h (inr i) = absent-contains t c (ground (arith, h)) i

count_char-append : (s t : Text) (c : ℕ) → count_char (s ++ t) c ≡ count_char s c + count_char t c
unfolding count_char
count_char-append [] t c = omega arith
count_char-append (x ∷ s) t c = omega (arith, count_char-append s t c)

wildcard_last :
    (t : Text)
    → has_suffix t (35 ∷ []) ≡ true
    → ltb 1 (count_char t 35) ≡ false
    → (s : Text) × ((t ≡ s ++ 35 ∷ []) × (¬ In 35 s))
unfolding count_char
wildcard_last t h k =
    let s = trim_suffix t (35 ∷ []) in
    let e = trim_suffix_lem t (35 ∷ []) h in
    let n = ap (λ x. count_char x 35) e ∙ count_char-append s (35 ∷ []) 35 in
    (s, (e, absent-count s 35 (ground (arith, n, k))))

pub valid-IsSubscribable : (t : Text) → validate_subscription_topic t ≡ ok tt → IsSubscribable t
unfolding validate_subscription_topic
valid-IsSubscribable t h = elim (Bool-cases (is_blank t)) [
  | inl e ↦ cc (rw e at h)
  | inr e ↦ record {
    not_blank = not_blank-visible t e;
    wildcard = elim (Bool-cases (contains_char t 35)) [
      | inr f ↦ inl (absent-contains t 35 f)
      | inl f ↦ elim (Bool-cases (has_suffix t (codes "#"))) [
        | inr g ↦ cc (rw (e, f, g) at h)
        | inl g ↦ elim (Bool-cases (ltb 1 (count_char t 35))) [
          | inl k ↦ cc (rw (e, f, g, k) at h)
          | inr k ↦ inr (wildcard_last t g k)
        ]
      ]
    ];
  }
]
