-- ===== src/Ingest/Template/Expands.antt =====
-- What an expanded capture template holds.
use self_host.Prelude.{
  ℕ, suc, ◌≡◌, refl, sym, ap, ◌∙◌, inl, inr, Bool, true, false, ◌&&◌, ◌||◌, none, some, List, [],
  ◌∷◌, ◌++◌, ltb, ◌==◌, length, is_empty, arith, Bool-cases, zero, ◌<◌, ◌-◌, All,
}
use mathlib.Core.List.{append_assoc, append-nil}
use self_host.Text.{Text}
use self_host.Ingest.Config.{is_digit, starts_with_digit, contains_capture_template}
use self_host.Ingest.Template.{
  atoi, capture_at, capture_or, substituted, replacement, starts_match, begin_match, literal,
  next_match, emitted, replace_all, expand_capture_template,
}

module _ (captures : List Text) where
  replace_all-free :
      (s : Text) → contains_capture_template s ≡ false → replace_all captures none s ≡ s
  unfolding replace_all emitted literal next_match begin_match starts_match
      contains_capture_template
  replace_all-free [] h = refl
  replace_all-free (c ∷ s) h = elim (Bool-cases ((c == 92 || c == 36) && starts_with_digit s)) [
    | inl e ↦ cc (rw e at h)
    | inr e ↦ rw e (ap (λ t. c ∷ t) (replace_all-free s (rw e at h)))
  ]

  pub expand-free :
      (template : Text)
      → contains_capture_template template ≡ false
      → expand_capture_template template captures ≡ template
  unfolding expand_capture_template
  expand-free template h = elim (Bool-cases (is_empty template || is_empty captures)) [
    | inl e ↦ rw e refl
    | inr e ↦ rw e (replace_all-free template h)
  ]

  -- The digits that are left of a match, and what follows it
  replace_all-digits :
      (sign : ℕ) (ds es b : Text)
      → All (λ d. is_digit d ≡ true) es
      → starts_with_digit b ≡ false
      → replace_all captures (some (sign, ds)) (es ++ b)
        ≡ replacement captures sign (ds ++ es) ++ replace_all captures none b
  unfolding replace_all emitted next_match starts_with_digit
  replace_all-digits sign ds [] [] h k = rw (append-nil ds) (sym (append-nil _))
  replace_all-digits sign ds [] (c ∷ b) h k =
      rw (append-nil ds, k) (append_assoc (replacement captures sign ds) (literal c b) _)
  replace_all-digits sign ds (e ∷ es) b (h, hs) k = rw h (
      replace_all-digits sign (ds ++ e ∷ []) es b hs k
      ∙ ap (λ t. replacement captures sign t ++ replace_all captures none b)
          (append_assoc ds (e ∷ []) es))

  is_sign : ℕ → Bool
  is_sign c = c == 92 || c == 36

  is_sign-starts :
      (a : Text) (sign : ℕ) (s : Text)
      → is_sign sign ≡ true
      → starts_with_digit (a ++ sign ∷ s) ≡ starts_with_digit a
  unfolding starts_with_digit is_sign is_digit
  is_sign-starts [] sign s g = ground (arith, g)
  is_sign-starts (c ∷ a) sign s g = refl

  literal_free :
      (c : ℕ) (s t : Text)
      → starts_match c s ≡ false
      → literal c s ++ replace_all captures (begin_match c s) t ≡ c ∷ replace_all captures none t
  unfolding literal begin_match
  literal_free c s t h = rw h refl

  match_starts :
      (c : ℕ) (s t : Text)
      → starts_match c s ≡ true
      → literal c s ++ replace_all captures (begin_match c s) t
        ≡ replace_all captures (some (c, [])) t
  unfolding literal begin_match
  match_starts c s t h = rw h refl

  replace_all-match :
      (a : Text) (sign d : ℕ) (ds b : Text)
      → contains_capture_template a ≡ false
      → is_sign sign ≡ true
      → All (λ e. is_digit e ≡ true) (d ∷ ds)
      → starts_with_digit b ≡ false
      → replace_all captures none (a ++ (sign ∷ d ∷ (ds ++ b)))
        ≡ a ++ (replacement captures sign (d ∷ ds) ++ replace_all captures none b)
  unfolding replace_all emitted literal next_match begin_match starts_match
      contains_capture_template is_sign starts_with_digit
  replace_all-match [] sign d ds b f g (h, hs) k =
      match_starts sign (d ∷ (ds ++ b)) (d ∷ (ds ++ b)) (rw g h)
      ∙ replace_all-digits sign [] (d ∷ ds) b (h, hs) k
  replace_all-match (c ∷ a) sign d ds b f g h k =
      let s : Text = sign ∷ d ∷ (ds ++ b) in
      let e : ((c == 92 || c == 36) && starts_with_digit a) ≡ false = ground (arith, f) in
      let rest : contains_capture_template a ≡ false = ground (arith, f) in
      literal_free c (a ++ s) (a ++ s)
        (ap (λ q. (c == 92 || c == 36) && q) (is_sign-starts a sign (d ∷ (ds ++ b)) g) ∙ e)
      ∙ ap (λ t. c ∷ t) (replace_all-match a sign d ds b rest g h k)

  within :
      (captures' : List Text) (n : ℕ) (c : Text)
      → capture_at captures' n ≡ some c
      → n < length captures'
  unfolding capture_at
  within [] n c h = cc h
  within (x ∷ cs) zero c h = omega arith
  within (x ∷ cs) (suc n) c h = omega (arith, within cs n c h)

  replacement-capture :
      (sign : ℕ) (digits : Text) (n : ℕ) (c : Text)
      → atoi digits ≡ some (suc n)
      → capture_at captures n ≡ some c
      → replacement captures sign digits ≡ c
  unfolding replacement substituted capture_or
  replacement-capture sign digits n c e f =
      let i : ltb (length captures) (suc n) ≡ false = ground (arith, within captures n c f) in
      let j : suc n - 1 ≡ n = omega arith in
      let z : (suc n == 0) ≡ false = ground arith in rw (e, i, z, j, f) refl

  nonempty :
      (captures' : List Text) (n : ℕ) (c : Text)
      → capture_at captures' n ≡ some c
      → is_empty captures' ≡ false
  unfolding capture_at
  nonempty [] n c h = cc h
  nonempty (x ∷ cs) n c h = refl

  expand-loop :
      (s x : Text) (n : ℕ)
      → capture_at captures n ≡ some x
      → expand_capture_template s captures ≡ replace_all captures none s
  unfolding expand_capture_template
  expand-loop [] x n h = unfold replace_all in refl
  expand-loop (c ∷ s) x n h = rw (nonempty captures n x h) refl

  -- The first capture template of a text, a backslash or a dollar sign and the longest run of digits after it, gives way
  -- to the capture that the digits number, from 1 on; the text before it, which has none, stays, and the text after it is
  -- expanded in its turn.
  pub expand-capture :
      (a : Text) (sign d : ℕ) (ds b : Text) (n : ℕ) (c : Text)
      → contains_capture_template a ≡ false
      → (sign == 92 || sign == 36) ≡ true
      → All (λ e. is_digit e ≡ true) (d ∷ ds)
      → starts_with_digit b ≡ false
      → atoi (d ∷ ds) ≡ some (suc n)
      → capture_at captures n ≡ some c
      → expand_capture_template (a ++ (sign ∷ d ∷ (ds ++ b))) captures
        ≡ a ++ (c ++ expand_capture_template b captures)
  unfolding is_sign
  expand-capture a sign d ds b n c f g h k e x =
      expand-loop _ c n x
      ∙ replace_all-match a sign d ds b f g h k
      ∙ ap (λ t. a ++ (t ++ replace_all captures none b))
          (replacement-capture sign (d ∷ ds) n c e x)
      ∙ ap (λ t. a ++ (c ++ t)) (sym (expand-loop b c n x))
