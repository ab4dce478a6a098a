-- ===== src/Middleware/Scope/Expanded.antt =====
-- What the placeholders of a resource become.
use mathlib.Core.List.{append-nil, append_assoc}
use self_host.Prelude.{
  ◌≡◌, refl, sym, ap, ◌∙◌, false, none, some, List, [], ◌∷◌, ◌++◌, ◌==◌, arith, is_empty, All,
}
use self_host.Text.{Text, has_prefix, contains_char}
use self_host.Text.Laws.{has_prefix-append, drop-append}
use self_host.Middleware.Scope.{
  find_params, replace_first, placeholder, replace_params, rewrite_resource,
}

-- A resource of literal text and placeholders: the text before the first placeholder, then each name with the text behind it.
pub record Template : Type 0 where
  pub first : Text
  pub rest : List (Text × Text)

abbrev pub Plain : Text → Type 0
Plain s = contains_char s 123 ≡ false

unfoldable pub printed_rest : List (Text × Text) → Text
unfolding placeholder
printed_rest [] = []
printed_rest ((name, text) ∷ rest) = placeholder name ++ (text ++ printed_rest rest)

unfoldable pub printed : Template → Text
unfolding printed_rest
printed t = t.first ++ printed_rest t.rest

-- Each placeholder is the value of its own parameter.
unfoldable pub filled_rest : (Text → Text) → List (Text × Text) → Text
filled_rest value [] = []
filled_rest value ((name, text) ∷ rest) = value name ++ (text ++ filled_rest value rest)

unfoldable pub filled : (Text → Text) → Template → Text
unfolding filled_rest
filled value t = t.first ++ filled_rest value t.rest

-- A name is not empty and holds no brace, the texts and the value hold no opening brace.
unfoldable pub IsPart : (Text → Text) → Text × Text → Type 0
IsPart value (name, text) =
    (is_empty name ≡ false)
    × Plain name
    × (contains_char name 125 ≡ false)
    × Plain text
    × Plain (value name)

Plain-append : (a b : Text) → Plain a → Plain b → Plain (a ++ b)
unfolding contains_char
Plain-append [] b h k = k
Plain-append (x ∷ a) b h k = ground (arith, Plain-append a b (ground arith) k)

find_params-Plain : (a s : Text) → Plain a → find_params none (a ++ s) ≡ find_params none s
unfolding find_params contains_char
find_params-Plain [] s h = refl
find_params-Plain (x ∷ a) s h = ground (arith, find_params-Plain a s)

find_params-run :
    (run name s : Text)
    → contains_char name 125 ≡ false
    → is_empty (run ++ name) ≡ false
    → find_params (some run) (name ++ 125 ∷ s) ≡ (run ++ name) ∷ find_params none s
unfolding find_params contains_char
find_params-run run [] s h e =
    let g : is_empty run ≡ false = rw append-nil at e in rw append-nil (rw g)
find_params-run run (x ∷ name) s h e =
    let g : (x == 125) ≡ false = ground arith in
    rw g (
      rw
        (find_params-run (run ++ x ∷ []) name s (ground arith)
          (rw (append_assoc run (x ∷ []) name) e))
        (rw (append_assoc run (x ∷ []) name)))

find_params-placeholder :
    (name s : Text)
    → contains_char name 125 ≡ false
    → is_empty name ≡ false
    → find_params none (placeholder name ++ s) ≡ name ∷ find_params none s
unfolding placeholder find_params
find_params-placeholder name s h e =
    rw (append_assoc name (125 ∷ []) s) (find_params-run [] name s h e)

names : List (Text × Text) → List Text
names [] = []
names ((name, text) ∷ rest) = name ∷ names rest

find_params-printed_rest :
    (value : Text → Text) (rest : List (Text × Text))
    → All (IsPart value) rest
    → find_params none (printed_rest rest) ≡ names rest
unfolding printed_rest names IsPart
find_params-printed_rest value [] h = unfold find_params in refl
find_params-printed_rest value ((name, text) ∷ rest) ((e, p, b, t, v), h) =
    rw (find_params-placeholder name (text ++ printed_rest rest) b e) (
      rw (find_params-Plain text (printed_rest rest) t)
        (rw (find_params-printed_rest value rest h)))

replace_first-Plain :
    (pre name s new : Text)
    → Plain pre
    → replace_first (pre ++ (placeholder name ++ s)) (placeholder name) new ≡ pre ++ (new ++ s)
unfolding replace_first contains_char placeholder
replace_first-Plain [] name s new h =
    rw (has_prefix-append (placeholder name) s) (rw (drop-append (placeholder name) s))
replace_first-Plain (x ∷ pre) name s new h =
    let other : has_prefix (x ∷ (pre ++ (placeholder name ++ s))) (placeholder name) ≡ false =
      (unfold has_prefix in ground arith) in
    rw other (ap (λ (t : Text). x ∷ t) (replace_first-Plain pre name s new (ground arith)))

regrouped : (a b c d : Text) → a ++ (b ++ (c ++ d)) ≡ (a ++ (b ++ c)) ++ d
regrouped a b c d = simp append_assoc

replace_params-filled :
    (value : Text → Text) (pre : Text) (rest : List (Text × Text))
    → Plain pre
    → All (IsPart value) rest
    → replace_params value (names rest) (pre ++ printed_rest rest) ≡ pre ++ filled_rest value rest
unfolding replace_params names printed_rest filled_rest IsPart
replace_params-filled value pre [] p h = refl
replace_params-filled value pre ((name, text) ∷ rest) p ((e, n, b, t, v), h) =
    let plain = Plain-append pre (value name ++ text) p (Plain-append (value name) text v t) in
    ap (replace_params value (names rest)) (
      replace_first-Plain pre name (text ++ printed_rest rest) (value name) p
      ∙ regrouped pre (value name) text (printed_rest rest))
    ∙ replace_params-filled value (pre ++ (value name ++ text)) rest plain h
    ∙ sym (regrouped pre (value name) text (filled_rest value rest))

-- Where no literal text and no value of a parameter holds an opening brace, the resource that is checked has at each
-- placeholder the value of its own parameter, and the text between is unchanged.
pub rewrite_resource-filled :
    (value : Text → Text) (t : Template)
    → Plain t.first
    → All (IsPart value) t.rest
    → rewrite_resource value (printed t) ≡ filled value t
unfolding rewrite_resource printed filled
rewrite_resource-filled value t p h =
    rw (find_params-Plain t.first (printed_rest t.rest) p) (
      rw (find_params-printed_rest value t.rest h) (replace_params-filled value t.first t.rest p h))
