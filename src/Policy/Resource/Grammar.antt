-- ===== src/Policy/Resource/Grammar.antt =====
-- The resources that validation accepts, described by a grammar: segments joined by slashes.
use self_host.Prelude.{
  ℕ, ◌≡◌, ◌↔◌, ◌⊎◌, inl, inr, refl, sym, ap, ◌∙◌, false, ◌||◌, List, [], ◌∷◌, ◌++◌, arith, ◌==◌,
  is_empty, any, All, ok, Bool-cases,
}
use self_host.Text.{
  Text, codes, is_space, contains_char, has_prefix, has_suffix, contains, index, split, join,
  extend_head,
}
use self_host.Text.Laws.{text_eq_iff, text_eq_refl, trim_space_self, any-append, append-any}
use self_host.Text.Segments.{
  join-split, split-join, split-Free, split-cons, later_parts, last_empty, has_suffix→last_empty,
  tail_text, join-tail_text,
}
use self_host.Policy.Resource.{slash, wildcard, validate_segments, validate_resource}

-- A segment is the wildcard, or a text with no slash, no white space and no percent sign.
pub record IsSegment (p : Text) : Type 0 where
  pub nonempty : is_empty p ≡ false
  pub one_level : contains_char p b'/' ≡ false
  pub unspaced : any is_space p ≡ false
  pub whole_wildcard : (p ≡ wildcard) ⊎ (contains_char p b'%' ≡ false)

-- At least one segment, joined by single slashes.
pub record IsResource (r : Text) : Type 0 where
  pub first : Text
  pub others : List Text
  pub segments : All IsSegment (first ∷ others)
  pub joined : r ≡ join (first ∷ others) b'/'

abbrev NonEmpty : Text → Type 0
NonEmpty p = is_empty p ≡ false

-- Where no part is empty the text neither starts nor ends with the separator, nor doubles it.
no_prefix : (s : Text) → All NonEmpty (split s b'/') → has_prefix s slash ≡ false
unfolding split has_prefix
no_prefix [] h = refl
no_prefix (x ∷ s) h = ground arith

later-extend_head :
    (P : Text → Type 0) (x : ℕ) (ps : List Text)
    → All P (later_parts (extend_head x ps))
    → All P (later_parts ps)
unfolding extend_head
later-extend_head P x [] h = tt
later-extend_head P x (p ∷ ps) h = h

later-All : (P : Text → Type 0) (ps : List Text) → All P ps → All P (later_parts ps)
later-All P [] h = tt
later-All P (p ∷ ps) h = h.1

last_empty-NonEmpty : (ps : List Text) → All NonEmpty ps → last_empty ps ≡ false
last_empty-NonEmpty [] h = refl
last_empty-NonEmpty (p ∷ []) h = h.0
last_empty-NonEmpty (p ∷ q ∷ ps) h = last_empty-NonEmpty (q ∷ ps) h.1

no_suffix : (s : Text) → All NonEmpty (later_parts (split s b'/')) → has_suffix s slash ≡ false
no_suffix s h =
    ground (arith, has_suffix→last_empty s b'/', last_empty-NonEmpty (later_parts (split s b'/')) h)

contains-cons : (x : ℕ) (s p : Text) → contains (x ∷ s) p ≡ (has_prefix (x ∷ s) p || contains s p)
unfolding contains index
contains-cons x s p = ground arith

double_step :
    (x : ℕ) (s : Text)
    → has_prefix s slash ≡ false
    → contains s (codes "//") ≡ false
    → (has_prefix (x ∷ s) (codes "//") || contains s (codes "//")) ≡ false
unfolding has_prefix
double_step x s h k = ground arith

other_step :
    (x : ℕ) (s : Text)
    → (x == b'/') ≡ false
    → contains s (codes "//") ≡ false
    → (has_prefix (x ∷ s) (codes "//") || contains s (codes "//")) ≡ false
unfolding has_prefix
other_step x s h k = ground arith

no_double : (s : Text) → All NonEmpty (later_parts (split s b'/')) → contains s (codes "//") ≡ false
no_double [] h = unfold contains index in refl
no_double (x ∷ s) h = rw contains-cons (elim (Bool-cases (x == b'/')) [
  | inl e ↦
      let parts : All NonEmpty (split s b'/') = (unfold split in rw e at h) in
      double_step x s (no_prefix s parts) (no_double s (later-All NonEmpty (split s b'/') parts))
  | inr e ↦
      let parts : All NonEmpty (later_parts (extend_head x (split s b'/'))) =
        (unfold split in rw e at h) in
      other_step x s e (no_double s (later-extend_head NonEmpty x (split s b'/') parts))
])

accepted-IsSegment :
    (p : Text) (ps : List Text)
    → any is_space p ≡ false
    → contains_char p b'/' ≡ false
    → validate_segments (p ∷ ps) ≡ ok tt
    → IsSegment p × (validate_segments ps ≡ ok tt)
unfolding validate_segments
accepted-IsSegment p ps u v h = (
  record {
    nonempty = ground arith;
    one_level = v;
    unspaced = u;
    whole_wildcard = elim (Bool-cases (contains_char p b'%')) [
      | inl e ↦ inl ((text_eq_iff p wildcard).0 (ground arith))
      | inr e ↦ inr e
    ];
  },
  ground arith,
)

segment_passes :
    (p : Text) (ps : List Text)
    → IsSegment p
    → validate_segments ps ≡ ok tt
    → validate_segments (p ∷ ps) ≡ ok tt
unfolding validate_segments
segment_passes p ps g h = elim g.whole_wildcard [
  | inl e ↦ ground (arith, g.nonempty, (text_eq_iff p wildcard).1 e)
  | inr e ↦ ground (arith, g.nonempty)
]

segments_sound :
    (ps : List Text)
    → All (λ p. any is_space p ≡ false) ps
    → All (λ p. contains_char p b'/' ≡ false) ps
    → validate_segments ps ≡ ok tt
    → All IsSegment ps
segments_sound [] u v h = tt
segments_sound (p ∷ ps) u v h =
    let (g, k) = accepted-IsSegment p ps u.0 v.0 h in (g, segments_sound ps u.1 v.1 k)

segments_complete : (ps : List Text) → All IsSegment ps → validate_segments ps ≡ ok tt
segments_complete [] g = unfold validate_segments in refl
segments_complete (p ∷ ps) g = segment_passes p ps g.0 (segments_complete ps g.1)

unspaced_parts :
    (p : Text) (ps : List Text)
    → any is_space (p ++ tail_text b'/' ps) ≡ false
    → All (λ q. any is_space q ≡ false) (p ∷ ps)
unspaced_parts p [] h = ((any-append is_space p [] h).0, tt)
unspaced_parts p (q ∷ ps) h =
    let (a, b) = any-append is_space p (b'/' ∷ (q ++ tail_text b'/' ps)) h in
    (a, unspaced_parts q ps (unfold is_space in ground arith))

slash_unspaced : (t : Text) → any is_space t ≡ false → any is_space (b'/' ∷ t) ≡ false
unfolding is_space
slash_unspaced t h = h

nonempty-append : (p t : Text) → is_empty p ≡ false → is_empty (p ++ t) ≡ false
nonempty-append [] t h = cc
nonempty-append (x ∷ p) t h = refl

unspaced_whole :
    (p : Text) (ps : List Text)
    → All IsSegment (p ∷ ps)
    → any is_space (p ++ tail_text b'/' ps) ≡ false
unspaced_whole p [] g = append-any is_space p [] g.0.unspaced refl
unspaced_whole p (q ∷ ps) g =
    let rest = unspaced_whole q ps g.1 in
    append-any is_space p (b'/' ∷ (q ++ tail_text b'/' ps)) g.0.unspaced (slash_unspaced _ rest)

All-nonempty : (ps : List Text) → All IsSegment ps → All NonEmpty ps
All-nonempty [] g = tt
All-nonempty (p ∷ ps) g = (g.0.nonempty, All-nonempty ps g.1)

All-one_level : (ps : List Text) → All IsSegment ps → All (λ p. contains_char p b'/' ≡ false) ps
All-one_level [] g = tt
All-one_level (p ∷ ps) g = (g.0.one_level, All-one_level ps g.1)

accepted_checks :
    (r : Text)
    → validate_resource r ≡ ok tt
    → (any is_space r ≡ false) × (validate_segments (split r b'/') ≡ ok tt)
unfolding validate_resource
accepted_checks r h = ground arith

pub accepted-IsResource : (r : Text) → validate_resource r ≡ ok tt → IsResource r
accepted-IsResource r h =
    let (unspaced, valid) = accepted_checks r h in
    let (p, ps, e) = split-cons r b'/' in
    let joined : r ≡ join (p ∷ ps) b'/' = sym (join-split r b'/') ∙ ap (λ l. join l b'/') e in
    let whole : r ≡ p ++ tail_text b'/' ps = joined ∙ join-tail_text b'/' p ps in
    record {
      first = p;
      others = ps;
      segments =
          segments_sound (p ∷ ps) (unspaced_parts p ps (rw whole at unspaced))
            (rw e at (split-Free r b'/')) (rw e at valid);
      joined = joined;
    }

join_checks :
    (r : Text)
    → is_empty r ≡ false
    → any is_space r ≡ false
    → has_prefix r slash ≡ false
    → has_suffix r slash ≡ false
    → contains r (codes "//") ≡ false
    → validate_segments (split r b'/') ≡ ok tt
    → validate_resource r ≡ ok tt
unfolding validate_resource
join_checks r a b c d e f = ground (arith, trim_space_self r b, text_eq_refl r)

IsResource-accepted : (r : Text) → IsResource r → validate_resource r ≡ ok tt
IsResource-accepted r g =
    let parts : split r b'/' ≡ g.first ∷ g.others =
      ap (λ t. split t b'/') g.joined
      ∙ split-join b'/' g.first g.others (All-one_level (g.first ∷ g.others) g.segments) in
    let whole : r ≡ g.first ++ tail_text b'/' g.others =
      g.joined ∙ join-tail_text b'/' g.first g.others in
    let full : All NonEmpty (split r b'/') =
      rw parts (All-nonempty (g.first ∷ g.others) g.segments) in
    let later = later-All NonEmpty (split r b'/') full in
    join_checks r
      (rw whole (nonempty-append g.first (tail_text b'/' g.others) g.segments.0.nonempty))
      (rw whole (unspaced_whole g.first g.others g.segments)) (no_prefix r full) (no_suffix r later)
      (no_double r later) (rw parts (segments_complete (g.first ∷ g.others) g.segments))

-- Validation accepts exactly the resources of the grammar.
pub validate_resource_iff : (r : Text) → (validate_resource r ≡ ok tt) ↔ IsResource r
validate_resource_iff r = (accepted-IsResource r, IsResource-accepted r)
