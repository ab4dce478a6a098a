-- ===== src/Ingest/Runtime.antt =====
-- The runtime, internal/insamlare/runtime.go: validateRoutes and transformLoop. The database's answer to the query of a
-- series is a parameter; the loop is given the messages that it receives, in their order, and for each point whether Enqueue (internal/insamlare/writer.go) queues it.
pub mod Known
pub mod Safe
pub mod Loop
use self_host.Prelude.{
  ℕ, ◌+◌, Bool, true, false, Option, none, some, List, [], ◌∷◌, ◌++◌, if◌then◌else◌, is_empty,
  length, Result, ok, err, ◌>>=◌, ◌>>◌, Checked, fail_if,
}
use self_host.Text.{Text}
use self_host.Policy.Rule.{Uuid}
use self_host.Ingest.Fixed.{Message, Point, Formats, TransformError}
use self_host.Ingest.Route.{
  Packages, Panic, CompiledRoute, transform, fixed_timeseries_uuid, as_error,
}

pub data RuntimeError (E : Type 0) : Type 0 where
  panicked : Panic → RuntimeError E
  query_failed : Text → Uuid → E → RuntimeError E
  unknown_timeseries : Text → Uuid → RuntimeError E

pub record RoutedMessage (T R S : Type 0) : Type 0 where
  pub route : CompiledRoute R S
  pub message : Message T

-- The counters, the points given to Enqueue at each call, and all that Enqueue has put into the queue, in order.
pub record TransformState (F T : Type 0) : Type 0 where
  pub transform_errors : ℕ
  pub transformed_points : ℕ
  pub given : List (List (Point F T))
  pub queued : List (Point F T)

-- Writer.Enqueue. `accepts` tells for each point, by the number of those queued before, whether the select statement puts
-- it into the queue or finds the context done; `false` is the error.
unfoldable pub enqueue :
    {F T : Type 0} → (ℕ → Bool) → List (Point F T) → List (Point F T) → Bool × List (Point F T)
enqueue accepts queued [] = (true, queued)
enqueue accepts queued (p ∷ ps) =
    let rest = enqueue accepts (queued ++ p ∷ []) ps in
    if accepts (length queued) then rest else (false, queued)

unfoldable pub enqueued :
    {F T : Type 0}
    → List (Point F T)
    → TransformState F T
    → Bool × List (Point F T)
    → Bool × TransformState F T
enqueued points s (continues, queue) = (
  continues,
  record {
    transform_errors = s.transform_errors;
    transformed_points = s.transformed_points + length points;
    given = s.given ++ points ∷ [];
    queued = queue;
  },
)

-- What the loop does with the result of Transform; `true` where it goes on.
unfoldable pub transformed :
    {F T : Type 0}
    → (ℕ → Bool)
    → Result TransformError (List (Point F T))
    → TransformState F T
    → Bool × TransformState F T
transformed accepts (err e) s = (true, record (s) { transform_errors = s.transform_errors + 1 })
transformed accepts (ok []) s = (true, s)
transformed accepts (ok (p ∷ ps)) s = enqueued (p ∷ ps) s (enqueue accepts s.queued (p ∷ ps))

module _ {F T R S : Type 0} (packages : Packages F T R S) (parse_uuid : Text → Option Uuid) where
  module _ {E : Type 0} (series_exists : Uuid → Result E Bool) where
    unfoldable pub check_series : CompiledRoute R S → Option Uuid → Checked (RuntimeError E)
    check_series r none = ok tt
    check_series r (some id) =
        as_error (query_failed r.config.name id) (series_exists id) >>= λ exists.
        if exists then ok tt else err (unknown_timeseries r.config.name id)

    unfoldable pub validate_routes : List (CompiledRoute R S) → Checked (RuntimeError E)
    validate_routes [] = ok tt
    validate_routes (r ∷ rs) =
        as_error panicked (fixed_timeseries_uuid packages parse_uuid r) >>= λ id.
        check_series r id >> validate_routes rs

  -- One message; `true` where the loop goes on.
  unfoldable pub handle :
      Formats F T
      → (ℕ → Bool)
      → RoutedMessage T R S
      → TransformState F T
      → Bool × TransformState F T
  handle formats accepts item s =
      transformed accepts (transform packages parse_uuid formats item.route item.message) s

  unfoldable pub transform_loop :
      Formats F T
      → (ℕ → Bool)
      → List (RoutedMessage T R S)
      → TransformState F T
      → TransformState F T
  transform_loop formats accepts [] s = s
  transform_loop formats accepts (item ∷ items) s =
      let (continues, s') = handle formats accepts item s in
      let rest = transform_loop formats accepts items s' in if continues then rest else s'
