-- ===== src/Ingest/Runtime/Known.antt =====
-- validateRoutes and the points that the transform workers give to the writer.
use self_host.Prelude.{
  ℕ, length, ◌≡◌, refl, ap, subst, ◌∙◌, inl, inr, Bool, true, Option, some, List, [], ◌∷◌, ◌++◌,
  Bool-cases, Result-cases, Result, ok, err, All, In,
}
use self_host.Text.{Text}
use self_host.Policy.Rule.{Uuid}
use self_host.Ingest.Config.{RouteConfig}
use self_host.Ingest.Fixed.{Point, Formats, TransformError}
use self_host.Ingest.Route.{
  Packages, CompiledRoute, as_error, compile_route, transform, fixed_timeseries_uuid,
}
use self_host.Ingest.Route.Series.{IgnoresSpace, transform-series}
use self_host.Ingest.Runtime.{
  enqueue, enqueued, RoutedMessage, TransformState, check_series, validate_routes, transformed,
  handle, transform_loop,
}

All-map :
    {A : Type 0} (P Q : A → Type 0) → ((a : A) → P a → Q a) → (xs : List A) → All P xs → All Q xs
All-map P Q f [] h = tt
All-map P Q f (x ∷ xs) (h, hs) = (f x h, All-map P Q f xs hs)

All-append :
    {A : Type 0} (P : A → Type 0) (xs : List A) (x : A) → All P xs → P x → All P (xs ++ x ∷ [])
All-append P [] x h k = (k, tt)
All-append P (y ∷ xs) x (h, hs) k = (h, All-append P xs x hs k)

module _ {F T R S : Type 0} (packages : Packages F T R S) (parse_uuid : Text → Option Uuid) where
  -- A message of a route among `routes` that CompileRoute made and that names one series.
  pub record NamesSeries (routes : List (CompiledRoute R S)) (item : RoutedMessage T R S)
      : Type 0 where
    pub config : RouteConfig
    pub compiled : compile_route packages parse_uuid config ≡ ok item.route
    pub among : In item.route routes
    pub series : Uuid
    pub named : fixed_timeseries_uuid packages parse_uuid item.route ≡ ok (some series)

  module _ {E : Type 0} (series_exists : Uuid → Result E Bool) where
    checked-exists :
        (r : CompiledRoute R S) (id : Uuid)
        → check_series packages parse_uuid series_exists r (some id) ≡ ok tt
        → series_exists id ≡ ok true
    unfolding check_series as_error
    checked-exists r id h = elim (Result-cases (series_exists id)) [
      | inr (x, e) ↦ cc (rw e at h)
      | inl (b, e) ↦ elim (Bool-cases b) [ inl f ↦ e ∙ ap ok f | inr f ↦ cc (rw (e, f) at h) ]
    ]

    validate_routes-known :
        (routes : List (CompiledRoute R S)) (r : CompiledRoute R S) (id : Uuid)
        → validate_routes packages parse_uuid series_exists routes ≡ ok tt
        → In r routes
        → fixed_timeseries_uuid packages parse_uuid r ≡ ok (some id)
        → series_exists id ≡ ok true
    unfolding validate_routes as_error
    validate_routes-known [] r id h i k = absurd i
    validate_routes-known (q ∷ routes) r id h i k =
        elim (Result-cases (fixed_timeseries_uuid packages parse_uuid q)) [
          | inr (x, e) ↦ cc (rw e at h)
          | inl (o, e) ↦ elim (Result-cases (check_series packages parse_uuid series_exists q o)) [
            | inr (x, f) ↦ cc (rw (e, f) at h)
            | inl (u, f) ↦ elim i [
              | inr j ↦ validate_routes-known routes r id (rw (e, f) at h) j k
              | inl same ↦
                  let o_is : o ≡ some id =
                    cc (e, k, ap (fixed_timeseries_uuid packages parse_uuid) same) in
                  checked-exists q id (
                    subst
                      (λ (x : Option Uuid).
                        check_series packages parse_uuid series_exists q x ≡ ok tt)
                      o_is f)
            ]
          ]
        ]

    -- The series of the points are in the database.
    unfoldable pub IsKnown : List (Point F T) → Type 0
    IsKnown points = All (λ (p : Point F T). series_exists p.timeseries_uuid ≡ ok true) points

    -- The points given to Enqueue and those in the queue are of series in the database.
    unfoldable pub IsSafe : TransformState F T → Type 0
    IsSafe s = All IsKnown s.given × IsKnown s.queued

    module _ (ignores : IgnoresSpace parse_uuid) (formats : Formats F T) (accepts : ℕ → Bool)
        (routes : List (CompiledRoute R S))
        (valid : validate_routes packages parse_uuid series_exists routes ≡ ok tt) where
      transform-IsKnown :
          (item : RoutedMessage T R S) (points : List (Point F T))
          → NamesSeries routes item
          → transform packages parse_uuid formats item.route item.message ≡ ok points
          → IsKnown points
      unfolding IsKnown
      transform-IsKnown item points h e =
          let found = validate_routes-known routes item.route h.series valid h.among h.named in
          let same =
            transform-series packages parse_uuid ignores formats h.config item.route h.series
              item.message points h.compiled h.named e in
          All-map (λ (p : Point F T). p.timeseries_uuid ≡ h.series) _
            (λ p s. ap series_exists s ∙ found) points same

      enqueue-IsKnown :
          (queued points : List (Point F T))
          → IsKnown queued
          → IsKnown points
          → IsKnown (enqueue accepts queued points).1
      unfolding enqueue IsKnown
      enqueue-IsKnown queued [] h k = h
      enqueue-IsKnown queued (p ∷ ps) h (k, ks) = elim (Bool-cases (accepts (length queued))) [
        | inr e ↦ rw e h
        | inl e ↦ rw e (enqueue-IsKnown (queued ++ p ∷ []) ps (All-append _ queued p h k) ks)
      ]

      transformed-IsKnown :
          (made : Result TransformError (List (Point F T))) (s : TransformState F T)
          → ((points : List (Point F T)) → made ≡ ok points → IsKnown points)
          → IsSafe s
          → IsSafe (transformed accepts made s).1
      unfolding transformed enqueued IsSafe
      transformed-IsKnown (err e) s h k = k
      transformed-IsKnown (ok []) s h k = k
      transformed-IsKnown (ok (p ∷ ps)) s h (k, q) =
          let known = h (p ∷ ps) refl in
          (All-append IsKnown s.given (p ∷ ps) k known, enqueue-IsKnown s.queued (p ∷ ps) q known)

      handle-IsKnown :
          (item : RoutedMessage T R S) (s : TransformState F T)
          → NamesSeries routes item
          → IsSafe s
          → IsSafe (handle packages parse_uuid formats accepts item s).1
      unfolding handle
      handle-IsKnown item s h k =
          transformed-IsKnown (transform packages parse_uuid formats item.route item.message) s
            (λ points e. transform-IsKnown item points h e) k

      -- Once validateRoutes has accepted the routes, every point that transformLoop gives to Enqueue, and every point that
      -- Enqueue queues, also where it stops amid a message's points, belongs to a series that the database had then; for
      -- whatever messages of routes among them that CompileRoute made and that name one series, if the points given and
      -- queued before do, and if uuid.Parse makes the same of a text and of its trimmed form where it accepts both.
      pub transform_loop-IsKnown :
          (items : List (RoutedMessage T R S)) (s : TransformState F T)
          → All (NamesSeries routes) items
          → IsSafe s
          → IsSafe (transform_loop packages parse_uuid formats accepts items s)
      unfolding transform_loop
      transform_loop-IsKnown [] s h k = k
      transform_loop-IsKnown (item ∷ items) s (h, hs) k =
          let k' = handle-IsKnown item s h k in
          elim (Bool-cases (handle packages parse_uuid formats accepts item s).0) [
            | inl e ↦ rw e (transform_loop-IsKnown items _ hs k')
            | inr e ↦ rw e k'
          ]
