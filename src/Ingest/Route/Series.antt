-- ===== src/Ingest/Route/Series.antt =====
-- The series of the points that a compiled route makes.
use self_host.Prelude.{
  ◌≡◌, refl, sym, ap, subst, ◌∙◌, inl, inr, true, false, ◌&&◌, ◌||◌, Option, none, some, List, [],
  ◌∷◌, is_empty, arith, Bool-cases, Option-cases, Result-cases, Result, ok, err, All,
}
use self_host.Text.{Text, is_space, trim_left, trim_right, trim_space}
use self_host.Policy.Rule.{Uuid}
use self_host.Ingest.Config.{
  RouteConfig, is_blank, resolve_subscription_topic, starts_with_digit, contains_capture_template,
}
use self_host.Ingest.Template.{expand_capture_template}
use self_host.Ingest.Template.Expands.{expand-free}
use self_host.Ingest.Fixed.{
  Message, Point, FixedTransformer, FixedValue, Formats, or_error, fixed_of, new_fixed_transformer,
  extract, points_at, transform_fixed,
}
use self_host.Ingest.Route.{
  Packages, invalid_subscription, invalid_transformer, Transformer, fixed_transformer,
  CompiledRoute, as_error, new_route_matcher, new_transformer, compile_route, match_route,
  with_captures, run_transformer, transform, fixed_timeseries_uuid,
}

starts_with_digit-trim_right :
    (s : Text) → starts_with_digit s ≡ false → starts_with_digit (trim_right s) ≡ false
unfolding starts_with_digit trim_right
starts_with_digit-trim_right [] h = refl
starts_with_digit-trim_right (c ∷ s) h = elim (Bool-cases (is_space c && is_empty (trim_right s))) [
  | inl e ↦ rw e refl
  | inr e ↦ rw e h
]

contains-trim_right :
    (s : Text)
    → contains_capture_template s ≡ false
    → contains_capture_template (trim_right s) ≡ false
unfolding contains_capture_template trim_right
contains-trim_right [] h = refl
contains-trim_right (c ∷ s) h =
    ground (arith, h, contains-trim_right s, starts_with_digit-trim_right s)

contains-trim_left :
    (s : Text)
    → contains_capture_template s ≡ false
    → contains_capture_template (trim_left s) ≡ false
unfolding contains_capture_template trim_left
contains-trim_left [] h = refl
contains-trim_left (c ∷ s) h = ground (arith, h, contains-trim_left s)

contains-trim_space :
    (s : Text)
    → contains_capture_template s ≡ false
    → contains_capture_template (trim_space s) ≡ false
unfolding trim_space
contains-trim_space s h = contains-trim_right (trim_left s) (contains-trim_left s h)

-- uuid.Parse makes the same of a text and of its trimmed form, where it accepts both.
pub record IgnoresSpace (parse_uuid : Text → Option Uuid) : Type 0 where
  pub same :
      (s : Text) (i j : Uuid) → parse_uuid s ≡ some i → parse_uuid (trim_space s) ≡ some j → i ≡ j

pub or_error-ok : {E A : Type 0} (e : E) (o : Option A) (a : A) → or_error e o ≡ ok a → o ≡ some a
unfolding or_error
or_error-ok e none a h = cc h
or_error-ok e (some b) a h = cc h

pub as_error-ok :
    {E D A : Type 0} (f : E → D) (m : Result E A) (a : A) → as_error f m ≡ ok a → m ≡ ok a
unfolding as_error
as_error-ok f (ok b) a h = cc h
as_error-ok f (err e) a h = cc h

module _ {F T R S : Type 0} (packages : Packages F T R S) (parse_uuid : Text → Option Uuid) where
  pub compile_route-parts :
      (cfg : RouteConfig) (r : CompiledRoute R S)
      → compile_route packages parse_uuid cfg ≡ ok r
      → (r.config ≡ cfg) × (new_transformer packages parse_uuid cfg ≡ ok r.transformer)
  unfolding compile_route
  compile_route-parts cfg r h = elim (Result-cases (new_route_matcher packages parse_uuid cfg)) [
    | inr (x, e) ↦ cc (rw e at h)
    | inl (m, e) ↦
        elim (Result-cases (as_error invalid_subscription (resolve_subscription_topic cfg))) [
          | inr (x, f) ↦ cc (rw (e, f) at h)
          | inl (topic, f) ↦
              elim (Result-cases
                (as_error invalid_transformer (new_transformer packages parse_uuid cfg))) [
                  | inr (x, g) ↦ cc (rw (e, f, g) at h)
                  | inl (t, g) ↦ (
                    cc (rw (e, f, g) at h),
                    let q : t ≡ r.transformer = cc (rw (e, f, g) at h) in
                        as_error-ok invalid_transformer _ t g ∙ ap ok q,
                  )
                ]
        ]
  ]

  pub fixed_timeseries_uuid-some :
      (r : CompiledRoute R S) (id : Uuid)
      → fixed_timeseries_uuid packages parse_uuid r ≡ ok (some id)
      → (is_blank r.config.script_path ≡ true)
        × (contains_capture_template r.config.timeseries_uuid ≡ false)
        × (parse_uuid r.config.timeseries_uuid ≡ some id)
  unfolding fixed_timeseries_uuid or_error
  fixed_timeseries_uuid-some r id h = elim (Bool-cases (is_blank r.config.script_path)) [
    | inr e ↦ cc (rw e at h)
    | inl e ↦
        elim (Bool-cases (
          is_blank r.config.timeseries_uuid
          || contains_capture_template r.config.timeseries_uuid)) [
            | inl f ↦ cc (rw (e, f) at h)
            | inr f ↦ elim (Option-cases (parse_uuid r.config.timeseries_uuid)) [
              | inl g ↦ cc (rw (e, f, g) at h)
              | inr (j, g) ↦ (e, ground (arith, f), g ∙ cc (rw (e, f, g) at h))
            ]
          ]
  ]

  new_transformer-fixed :
      (cfg : RouteConfig) (made : Transformer S)
      → is_blank cfg.script_path ≡ true
      → contains_capture_template cfg.timeseries_uuid ≡ false
      → new_transformer packages parse_uuid cfg ≡ ok made
      → made ≡ fixed_transformer (fixed_of cfg)
  unfolding new_transformer new_fixed_transformer or_error
  new_transformer-fixed cfg made e f h = elim (Option-cases (parse_uuid cfg.timeseries_uuid)) [
    | inl g ↦ cc (rw (e, f, g) at h)
    | inr (j, g) ↦ cc (rw (e, f, g) at h)
  ]

  points_at-All :
      (id : Uuid) (values : List (FixedValue F T))
      → All (λ (p : Point F T). p.timeseries_uuid ≡ id) (points_at id values)
  unfolding points_at
  points_at-All id [] = tt
  points_at-All id (v ∷ values) = (refl, points_at-All id values)

  transform_fixed-points :
      (formats : Formats F T) (t : FixedTransformer) (msg : Message T) (points : List (Point F T))
      → transform_fixed formats t msg parse_uuid ≡ ok points
      → (j : Uuid) × (values : List (FixedValue F T)) × (parse_uuid
            (expand_capture_template t.series_uuid msg.topic_captures)
          ≡ some j)
        × (points_at j values ≡ points)
  unfolding transform_fixed or_error
  transform_fixed-points formats t msg points h = elim (Result-cases (extract formats t msg)) [
    | inr (x, e) ↦ cc (rw e at h)
    | inl (values, e) ↦
        elim (Option-cases
          (parse_uuid (expand_capture_template t.series_uuid msg.topic_captures))) [
            | inl f ↦ cc (rw (e, f) at h)
            | inr (j, f) ↦ (j, values, f, cc (rw (e, f) at h))
          ]
  ]

  -- Where FixedTimeseriesUUID of a compiled route names a series, every point that Transform makes of a message, whatever
  -- its topic and payload, is a point of this series; under the hypothesis that uuid.Parse makes the same of a text and of
  -- its trimmed form where it accepts both.
  pub transform-series :
      (ignores : IgnoresSpace parse_uuid) (formats : Formats F T) (cfg : RouteConfig)
      (r : CompiledRoute R S) (id : Uuid) (msg : Message T) (points : List (Point F T))
      → compile_route packages parse_uuid cfg ≡ ok r
      → fixed_timeseries_uuid packages parse_uuid r ≡ ok (some id)
      → transform packages parse_uuid formats r msg ≡ ok points
      → All (λ (p : Point F T). p.timeseries_uuid ≡ id) points
  unfolding transform or_error run_transformer with_captures fixed_of
  transform-series ignores formats cfg r id msg points c k h =
      let (same, made) = compile_route-parts cfg r c in
      let (script, free, parsed) = fixed_timeseries_uuid-some r id k in
      let fixed =
        new_transformer-fixed cfg r.transformer (rw same at script) (rw same at free) made in
      elim (Option-cases (match_route packages parse_uuid r.matcher msg.topic)) [
        | inl e ↦ cc (rw e at h)
        | inr (captures, e) ↦
            let s : expand_capture_template (trim_space cfg.timeseries_uuid) captures
                ≡ trim_space cfg.timeseries_uuid =
              expand-free captures (trim_space cfg.timeseries_uuid)
                (contains-trim_space cfg.timeseries_uuid (rw same at free)) in
            let (j, values, p, q) =
              transform_fixed-points formats (fixed_of cfg)
                (with_captures packages parse_uuid msg captures) points (rw (e, fixed) at h) in
            let one : id ≡ j =
              ignores.same cfg.timeseries_uuid id j (rw same at parsed)
                (sym (ap parse_uuid s) ∙ p) in
            subst (λ (ps : List (Point F T)). All (λ (p : Point F T). p.timeseries_uuid ≡ id) ps) q
              (subst
                (λ (i : Uuid). All (λ (p : Point F T). p.timeseries_uuid ≡ i) (points_at j values))
                (sym one) (points_at-All j values))
      ]
