-- ===== src/Policy/Cover/Like.antt =====
-- The LIKE operator of SQL, by which the access queries of postgres/access.sql.go match a resource with
-- the resource of a policy: `%` is any text, `_` any character, `\` makes the next character plain.
use self_host.Prelude.{ℕ, ◌≡◌, ◌≢◌, refl, Bool, false, [], ◌∷◌, arith, ◌==◌, any, ◌||◌}
use self_host.Text.{Text, contains_char}

pub data Like : Text → Text → Type 0 where
  done : Like [] []
  plain : {c : ℕ} {p s : Text} → c ≢ b'%' → c ≢ b'_' → c ≢ 92 → Like p s → Like (c ∷ p) (c ∷ s)
  one : {c d : ℕ} {p s : Text} → c ≡ b'_' → Like p s → Like (c ∷ p) (d ∷ s)
  escaped : {c d : ℕ} {p s : Text} → c ≡ 92 → Like p s → Like (c ∷ d ∷ p) (d ∷ s)
  leave : {c : ℕ} {p s : Text} → c ≡ b'%' → Like p s → Like (c ∷ p) s
  take : {c d : ℕ} {p s : Text} → c ≡ b'%' → Like (c ∷ p) s → Like (c ∷ p) (d ∷ s)

-- A text in which nothing is escaped.
abbrev pub Unescaped : Text → Type 0
Unescaped p = contains_char p 92 ≡ false

pub Like-anything : (s : Text) → Like (b'%' ∷ []) s
Like-anything [] = leave refl done
Like-anything (c ∷ s) = take refl (Like-anything s)

-- A pattern character other than `%` and `\` takes one character, under any pattern behind it.
abbrev pub HeadStep : ℕ → Text → Text → Type 0
HeadStep c p [] = ⊥
HeadStep c p (d ∷ s) = Like p s × ((q t : Text) → Like q t → Like (c ∷ q) (d ∷ t))

pub Like-head : {c : ℕ} {p : Text} (s : Text) → c ≢ b'%' → c ≢ 92 → Like (c ∷ p) s → HeadStep c p s
Like-head s h k (plain a b e l) = (l, λ q t m. plain a b e m)
Like-head s h k (one e l) = (l, λ q t m. one e m)
Like-head s h k (escaped e l) = absurd (k e)
Like-head s h k (leave e l) = absurd (h e)
Like-head s h k (take e l) = absurd (h e)

abbrev is_special : ℕ → Bool
is_special c = c == b'%' || c == b'_' || c == 92

-- A text with no special character matches itself.
pub Like_self : (s : Text) → any is_special s ≡ false → Like s s
Like_self [] h = done
Like_self (c ∷ s) h =
    plain (λ e. ground arith) (λ e. ground arith) (λ e. ground arith) (Like_self s (ground arith))
