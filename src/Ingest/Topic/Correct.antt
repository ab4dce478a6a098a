-- ===== src/Ingest/Topic/Correct.antt =====
-- A compiled topic matches as the MQTT wildcards do.
use self_host.Prelude.{
  ◌≡◌, ◌↔◌, ◌≢◌, refl, sym, ap, subst, ◌∙◌, inl, inr, true, false, none, some, List, [], ◌∷◌, ◌++◌,
  ok, arith, Bool-cases,
}
use mathlib.Core.List.{append-nil, append_assoc}
use self_host.Text.{Text, text_eq, split}
use self_host.Text.Laws
use self_host.Ingest.Topic.{
  hash, plus, WildcardMatcher, check_part, check_parts, new_wildcard_matcher, match_parts, match,
}

-- The wildcards of MQTT, without its exception for topics that begin with a dollar sign: a pattern, the segments of a topic, and those that "+" stands for.
pub data Matches : List Text → List Text → List Text → Type 0 where
  end : Matches [] [] []
  all_below : {ts : List Text} → Matches (hash ∷ []) ts []
  one_level :
      {t : Text} {ps ts cs : List Text} → Matches ps ts cs → Matches (plus ∷ ps) (t ∷ ts) (t ∷ cs)
  same :
      {p : Text} {ps ts cs : List Text}
      → p ≢ hash
      → p ≢ plus
      → Matches ps ts cs
      → Matches (p ∷ ps) (p ∷ ts) cs

rest_checked : (p : Text) (ps : List Text) → check_parts (p ∷ ps) ≡ ok tt → check_parts ps ≡ ok tt
unfolding check_parts
rest_checked p ps h = ground (arith, h)

hash_final : (ps : List Text) → check_parts (hash ∷ ps) ≡ ok tt → ps ≡ []
unfolding check_parts check_part text_eq
hash_final [] h = refl
hash_final (q ∷ ps) h = cc h

different : (s t : Text) → text_eq s t ≡ false → s ≢ t
different s t h e =
    let k : text_eq s t ≡ true = (Laws.text_eq_iff s t).1 e in
    let f : true ≡ false = sym k ∙ h in cc f

not_equal : (s t : Text) → s ≢ t → text_eq s t ≡ false
not_equal s t n = elim (Bool-cases (text_eq s t)) [
  | inl e ↦ elim (n ((Laws.text_eq_iff s t).0 e)) [ ]
  | inr e ↦ e
]

unfoldable Found : List Text → List Text → List Text → List Text → Type 0
Found ps ts acc cs = (ds : List Text) × (cs ≡ acc ++ ds) × Matches ps ts ds

captured_none : (acc cs : List Text) → some acc ≡ some cs → cs ≡ acc ++ []
captured_none acc cs h = let k : acc ≡ cs = cc h in sym k ∙ sym (append-nil acc)

hash-Found :
    (p : Text) (ps ts acc cs : List Text)
    → check_parts (p ∷ ps) ≡ ok tt
    → text_eq p hash ≡ true
    → some acc ≡ some cs
    → Found (p ∷ ps) ts acc cs
unfolding Found
hash-Found p ps ts acc cs c e h =
    let is_hash = (Laws.text_eq_iff p hash).0 e in
    let last = hash_final ps (subst (λ x. check_parts (x ∷ ps) ≡ ok tt) is_hash c) in
    let m = subst (λ l. Matches (hash ∷ l) ts []) (sym last) all_below in
    ([], captured_none acc cs h, subst (λ x. Matches (x ∷ ps) ts []) (sym is_hash) m)

plus-Found :
    (p t : Text) (ps ts acc cs : List Text)
    → text_eq p plus ≡ true
    → Found ps ts (acc ++ t ∷ []) cs
    → Found (p ∷ ps) (t ∷ ts) acc cs
unfolding Found
plus-Found p t ps ts acc cs e (ds, k, m) =
    let is_plus = sym ((Laws.text_eq_iff p plus).0 e) in
    (
      t ∷ ds,
      k ∙ append_assoc acc (t ∷ []) ds,
      subst (λ x. Matches (x ∷ ps) (t ∷ ts) (t ∷ ds)) is_plus (one_level m),
    )

same-Found :
    (p t : Text) (ps ts acc cs : List Text)
    → text_eq p hash ≡ false
    → text_eq p plus ≡ false
    → text_eq p t ≡ true
    → Found ps ts acc cs
    → Found (p ∷ ps) (t ∷ ts) acc cs
unfolding Found
same-Found p t ps ts acc cs e f g (ds, k, m) =
    let equal = (Laws.text_eq_iff p t).0 g in
    (
      ds,
      k,
      subst (λ x. Matches (p ∷ ps) (x ∷ ts) ds) equal
          (same (different p hash e) (different p plus f) m),
    )

match_parts-Found :
    (ps ts acc cs : List Text)
    → check_parts ps ≡ ok tt
    → match_parts ps ts acc ≡ some cs
    → Found ps ts acc cs
unfolding match_parts Found
match_parts-Found [] [] acc cs c h = ([], captured_none acc cs h, end)
match_parts-Found [] (t ∷ ts) acc cs c h = cc h
match_parts-Found (p ∷ ps) [] acc cs c h = elim (Bool-cases (text_eq p hash)) [
  | inl e ↦ hash-Found p ps [] acc cs c e (rw e at h)
  | inr e ↦ let k : none ≡ some cs = rw e at h in cc k
]
match_parts-Found (p ∷ ps) (t ∷ ts) acc cs c h = elim (Bool-cases (text_eq p hash)) [
  | inl e ↦ hash-Found p ps (t ∷ ts) acc cs c e (rw e at h)
  | inr e ↦ elim (Bool-cases (text_eq p plus)) [
    | inl f ↦
        plus-Found p t ps ts acc cs f
          (match_parts-Found ps ts (acc ++ t ∷ []) cs (rest_checked p ps c) (rw f at rw e at h))
    | inr f ↦ elim (Bool-cases (text_eq p t)) [
      | inl g ↦
          same-Found p t ps ts acc cs e f g
            (match_parts-Found ps ts acc cs (rest_checked p ps c) (rw g at rw f at rw e at h))
      | inr g ↦ let k : none ≡ some cs = rw g at rw f at rw e at h in cc k
    ]
  ]
]

Matches-match_parts :
    (ps ts ds acc : List Text) → Matches ps ts ds → match_parts ps ts acc ≡ some (acc ++ ds)
unfolding match_parts text_eq
Matches-match_parts _ _ _ acc end = ap some (sym (append-nil acc))
Matches-match_parts _ [] _ acc all_below = ap some (sym (append-nil acc))
Matches-match_parts _ (t ∷ ts) _ acc all_below = ap some (sym (append-nil acc))
Matches-match_parts (_ ∷ ps) (t ∷ ts) (_ ∷ cs) acc (one_level m) =
    Matches-match_parts ps ts cs (acc ++ t ∷ []) m ∙ ap some (append_assoc acc (t ∷ []) cs)
Matches-match_parts (p ∷ ps) (_ ∷ ts) cs acc (same a b m) =
    rw (not_equal p hash a)
      (rw (not_equal p plus b) (rw (Laws.text_eq_refl p) (Matches-match_parts ps ts cs acc m)))

accepted :
    (topic : Text) (m : WildcardMatcher)
    → new_wildcard_matcher topic ≡ ok m
    → (m.pattern ≡ split topic 47) × (check_parts (split topic 47) ≡ ok tt)
unfolding new_wildcard_matcher
accepted topic m h = ground (arith, h)

-- A topic filter that newWildcardMatcher accepts matches a topic exactly where each of its segments is that of the topic or
-- "+" and no segment is left over on either side, or a final "#" stands for all that are left, none included; it
-- captures the segments that "+" stands for, in order. Topics that begin with a dollar sign are no exception.
pub match_iff :
    (filter : Text) (m : WildcardMatcher) (topic : Text) (captures : List Text)
    → new_wildcard_matcher filter ≡ ok m
    → (match m topic ≡ some captures) ↔ Matches (split filter 47) (split topic 47) captures
unfolding match Found
match_iff filter m topic captures h =
    let (e, c) = accepted filter m h in
    (
      λ k.
          let k' : match_parts (split filter 47) (split topic 47) [] ≡ some captures =
            ap (λ ps. match_parts ps (split topic 47) []) (sym e) ∙ k in
          let (ds, d, w) = match_parts-Found (split filter 47) (split topic 47) [] captures c k' in
          subst (λ x. Matches (split filter 47) (split topic 47) x) (sym d) w,
      λ w.
          ap (λ ps. match_parts ps (split topic 47) []) e
          ∙ Matches-match_parts (split filter 47) (split topic 47) captures [] w,
    )
