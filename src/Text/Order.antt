-- ===== src/Text/Order.antt =====
-- sort.Strings: the order of code points, which is the order of the UTF-8 bytes.
use self_host.Prelude.{
  ◌≡◌, ◌⊎◌, inl, inr, Bool, true, false, ◌&&◌, ◌||◌, List, [], ◌∷◌, ltb, ◌==◌, Bool-cases,
  if◌then◌else◌, In,
}
use self_host.Text.{Text}

unfoldable pub text_leb : Text → Text → Bool
text_leb [] t = true
text_leb (x ∷ s) [] = false
text_leb (x ∷ s) (y ∷ t) = ltb x y || (x == y && text_leb s t)

unfoldable pub insert_text : Text → List Text → List Text
insert_text s [] = s ∷ []
insert_text s (t ∷ ts) =
    let rest = insert_text s ts in if text_leb s t then s ∷ t ∷ ts else t ∷ rest

unfoldable pub sort_texts : List Text → List Text
unfolding insert_text text_leb
sort_texts [] = []
sort_texts (s ∷ ts) = insert_text s (sort_texts ts)

In-insert_text : (r s : Text) (ts : List Text) → (r ≡ s) ⊎ In r ts → In r (insert_text s ts)
unfolding insert_text
In-insert_text r s [] h = h
In-insert_text r s (t ∷ ts) h = elim (Bool-cases (text_leb s t)) [
  | inl a ↦ rw a h
  | inr a ↦ rw a (elim h [
    | inl e ↦ inr (In-insert_text r s ts (inl e))
    | inr (inl e) ↦ inl e
    | inr (inr m) ↦ inr (In-insert_text r s ts (inr m))
  ])
]

pub In-sort_texts : (r : Text) (ts : List Text) → In r ts → In r (sort_texts ts)
unfolding sort_texts
In-sort_texts r [] m = m
In-sort_texts r (s ∷ ts) (inl e) = In-insert_text r s (sort_texts ts) (inl e)
In-sort_texts r (s ∷ ts) (inr m) = In-insert_text r s (sort_texts ts) (inr (In-sort_texts r ts m))
