-- ===== src/Ingest/Runtime/Safe.antt =====
-- uuid.MustParse of FixedTimeseriesUUID never panics.
use self_host.Prelude.{
  ◌≡◌, ◌≢◌, refl, inl, inr, Bool, true, false, not, ◌||◌, Option, none, some, List, [], ◌∷◌, arith,
  Bool-cases, Option-cases, Result-cases, Result, ok, err, All,
}
use self_host.Text.{Text}
use self_host.Policy.Rule.{Uuid}
use self_host.Ingest.Config.{RouteConfig, is_blank, contains_capture_template}
use self_host.Ingest.Fixed.{or_error, new_fixed_transformer}
use self_host.Ingest.Route.{
  Packages, CompiledRoute, Panic, as_error, compile_route, new_transformer, fixed_timeseries_uuid,
}
use self_host.Ingest.Route.Series.{compile_route-parts}
use self_host.Ingest.Runtime.{panicked, check_series, validate_routes}

module _ {F T R S : Type 0} (packages : Packages F T R S) (parse_uuid : Text → Option Uuid) where
  -- CompileRoute made the route.
  unfoldable pub IsCompiled : CompiledRoute R S → Type 0
  IsCompiled r = (cfg : RouteConfig) × (compile_route packages parse_uuid cfg ≡ ok r)

  unfoldable pub names_none : RouteConfig → Bool
  names_none cfg =
      not (is_blank cfg.script_path)
      || is_blank cfg.timeseries_uuid
      || contains_capture_template cfg.timeseries_uuid

  parsed_or_none :
      (cfg : RouteConfig) (r : CompiledRoute R S)
      → compile_route packages parse_uuid cfg ≡ ok r
      → names_none cfg ≡ false
      → (id : Uuid) × (parse_uuid cfg.timeseries_uuid ≡ some id)
  unfolding names_none new_transformer new_fixed_transformer or_error
  parsed_or_none cfg r c h = elim (Option-cases (parse_uuid cfg.timeseries_uuid)) [
    | inr found ↦ found
    | inl e ↦
        let made = (compile_route-parts packages parse_uuid cfg r c).1 in
        let s : is_blank cfg.script_path ≡ true = ground (arith, h) in
        let f : contains_capture_template cfg.timeseries_uuid ≡ false = ground (arith, h) in
        cc (rw (s, f, e) at made)
  ]

  compiled-ok :
      (r : CompiledRoute R S)
      → IsCompiled r
      → (o : Option Uuid) × (fixed_timeseries_uuid packages parse_uuid r ≡ ok o)
  unfolding IsCompiled fixed_timeseries_uuid names_none or_error
  compiled-ok r (cfg, c) =
      let same = (compile_route-parts packages parse_uuid cfg r c).0 in
      elim (Bool-cases (names_none r.config)) [
        | inl e ↦ (none, rw e refl)
        | inr e ↦
            let (id, f) = parsed_or_none cfg r c (rw same at e) in (some id, rw (e, same, f) refl)
      ]

  module _ {E : Type 0} (series_exists : Uuid → Result E Bool) where
    check_series-safe :
        (r : CompiledRoute R S) (o : Option Uuid) (p : Panic)
        → check_series packages parse_uuid series_exists r o ≢ err (panicked p)
    unfolding check_series as_error
    check_series-safe r none p h = cc h
    check_series-safe r (some id) p h = elim (Result-cases (series_exists id)) [
      | inr (x, e) ↦ cc (rw e at h)
      | inl (true, e) ↦ cc (rw e at h)
      | inl (false, e) ↦ cc (rw e at h)
    ]

    -- validateRoutes never panics on routes that CompileRoute made: the text that FixedTimeseriesUUID gives to
    -- uuid.MustParse is one that uuid.Parse has accepted.
    pub validate_routes-safe :
        (routes : List (CompiledRoute R S)) (p : Panic)
        → All IsCompiled routes
        → validate_routes packages parse_uuid series_exists routes ≢ err (panicked p)
    unfolding validate_routes as_error
    validate_routes-safe [] p c h = cc h
    validate_routes-safe (r ∷ routes) p (c, cs) h =
        let (o, e) = compiled-ok r c in
        elim (Result-cases (check_series packages parse_uuid series_exists r o)) [
          | inr (x, f) ↦ check_series-safe r o p (cc (f, rw (e, f) at h))
          | inl (u, f) ↦ validate_routes-safe routes p cs (rw (e, f) at h)
        ]
