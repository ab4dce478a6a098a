-- ===== src/Policy/Check/Key.antt =====
-- Keys of the decision cache are distinct for distinct questions, where neither token nor action holds a NUL.
use self_host.Prelude.{◌≡◌, refl, false, [], ◌∷◌, ◌++◌, arith}
use self_host.Text.{Text, contains_char}
use self_host.Policy.Check.{cache_key_string}

abbrev pub NulFree : Text → Type 0
NulFree s = contains_char s 0 ≡ false

separated :
    (a b s t : Text) → NulFree a → NulFree b → (a ++ (0 ∷ s)) ≡ (b ++ (0 ∷ t)) → (a ≡ b) × (s ≡ t)
unfolding contains_char
separated [] [] s t f g e = (refl, cc e)
separated [] (y ∷ b) s t f g e = absurd (ground arith)
separated (x ∷ a) [] s t f g e = absurd (ground arith)
separated (x ∷ a) (y ∷ b) s t f g e =
    let (p, q) = separated a b s t (ground arith) (ground arith) (ground arith) in (ground arith, q)

pub key_injective :
    (token action resource token' action' resource' : Text)
    → NulFree token
    → NulFree action
    → NulFree token'
    → NulFree action'
    → cache_key_string token action resource ≡ cache_key_string token' action' resource'
    → (token ≡ token') × (action ≡ action') × (resource ≡ resource')
unfolding cache_key_string
key_injective t a r t' a' r' f g f' g' e =
    let (p, q) = separated t t' (a ++ (0 ∷ r)) (a' ++ (0 ∷ r')) f f' e in
    let (u, v) = separated a a' r r' g g' q in (p, u, v)
