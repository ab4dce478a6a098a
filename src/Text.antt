-- ===== src/Text.antt =====
-- Go strings and the functions of package strings that the program calls, as lists of code points.
-- The program's strings are UTF-8, on which these functions agree with their byte versions.
pub mod Laws
pub mod Map
pub mod Order
pub mod Segments
use self_host.Prelude.{
  ℕ, zero, suc, ◌+◌, ◌-◌, ◌≡◌, ◌↔◌, ◌⊎◌, refl, Bool, true, false, not, ◌&&◌, ◌||◌, Option, none,
  some, List, [], ◌∷◌, ◌++◌, String, arith, ltb, leb, ◌==◌, if◌then◌else◌, length, is_empty, any,
}
use Prim.Native.Char.{code}

abbrev pub Text : Type 0
Text = List ℕ

-- The code points of a literal.
abbrev pub codes : String → Text
codes String.[] = []
codes (String.◌∷◌ c s) = code c ∷ codes s

unfoldable pub text_eq : Text → Text → Bool
text_eq [] [] = true
text_eq [] (y ∷ ys) = false
text_eq (x ∷ xs) [] = false
text_eq (x ∷ xs) (y ∷ ys) = x == y && text_eq xs ys

-- unicode.IsSpace
unfoldable pub is_space : ℕ → Bool
is_space c =
    (leb 9 c && leb c 13)
    || c == 32
    || c == 0x85
    || c == 0xa0
    || c == 0x1680
    || (leb 0x2000 c && leb c 0x200a)
    || c == 0x2028
    || c == 0x2029
    || c == 0x202f
    || c == 0x205f
    || c == 0x3000

-- strings.TrimSpace, from the left and from the right
unfoldable pub trim_left : Text → Text
trim_left [] = []
trim_left (c ∷ s) = let rest = trim_left s in if is_space c then rest else c ∷ s

unfoldable pub trim_right : Text → Text
trim_right [] = []
trim_right (c ∷ s) = let rest = trim_right s in if is_space c && is_empty rest then [] else c ∷ rest

unfoldable pub trim_space : Text → Text
trim_space s = trim_right (trim_left s)

-- len, which counts the bytes of the UTF-8 encoding
unfoldable pub byte_length : Text → ℕ
byte_length [] = 0
byte_length (c ∷ s) =
    (if ltb c 0x80 then 1 else if ltb c 0x800 then 2 else if ltb c 0x10000 then 3 else 4)
    + byte_length s

-- strings.Contains of one character
unfoldable pub contains_char : Text → ℕ → Bool
contains_char s c = any (λ x. x == c) s

-- strings.Count of one character
unfoldable pub count_char : Text → ℕ → ℕ
count_char [] c = 0
count_char (x ∷ s) c = (if x == c then 1 else 0) + count_char s c

-- strings.HasPrefix, HasSuffix
unfoldable pub has_prefix : Text → Text → Bool
has_prefix s [] = true
has_prefix [] (p ∷ ps) = false
has_prefix (x ∷ s) (p ∷ ps) = x == p && has_prefix s ps

unfoldable pub has_suffix : Text → Text → Bool
has_suffix [] p = is_empty p
has_suffix (x ∷ s) p = text_eq (x ∷ s) p || has_suffix s p

-- strings.TrimSuffix
unfoldable pub trim_suffix : Text → Text → Text
trim_suffix [] p = []
trim_suffix (x ∷ s) p = if text_eq (x ∷ s) p then [] else x ∷ trim_suffix s p

-- strings.Index; `none` is -1
unfoldable pub index : Text → Text → Option ℕ
index [] p = if is_empty p then some 0 else none
index (x ∷ s) p =
    let rest = index s p in
    if has_prefix (x ∷ s) p then some 0 else elim rest [ none ↦ none | some n ↦ some (suc n) ]

unfoldable pub contains : Text → Text → Bool
contains s p = elim (index s p) [ none ↦ false | some _ ↦ true ]

-- strings.Split at one character
unfoldable pub extend_head : ℕ → List Text → List Text
extend_head c [] = (c ∷ []) ∷ []
extend_head c (p ∷ ps) = (c ∷ p) ∷ ps

unfoldable pub split : Text → ℕ → List Text
split [] c = [] ∷ []
split (x ∷ s) c = let rest = split s c in if x == c then [] ∷ rest else extend_head x rest

-- strings.Join with one character
unfoldable pub join : List Text → ℕ → Text
join [] c = []
join (p ∷ []) c = p
join (p ∷ q ∷ ps) c = p ++ c ∷ join (q ∷ ps) c
