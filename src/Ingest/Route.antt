-- ===== src/Ingest/Route.antt =====
-- Compiled routes, internal/insamlare/route.go: CompileRoute, Matches, Transform and FixedTimeseriesUUID. The regular
-- expressions of package regexp and the transformer of a script are parameters.
pub mod Series
use self_host.Prelude.{
  Bool, true, false, not, ◌||◌, Option, none, some, List, if◌then◌else◌, Result, ok, err, ◌>>=◌,
}
use self_host.Text.{Text}
use self_host.Policy.Rule.{Uuid}
use self_host.Ingest.Config.{
  ConfigError, RouteConfig, is_blank, resolve_subscription_topic, contains_capture_template,
}
use self_host.Ingest.Topic.{TopicError, WildcardMatcher, new_wildcard_matcher, match}
use self_host.Ingest.Fixed.{
  Message, Point, TransformError, topic_mismatch, FixedTransformer, Formats, or_error,
  new_fixed_transformer, transform_fixed,
}

-- regexp.Compile and FindStringSubmatch without the whole match; newTengoTransformer and its Transform.
pub record Packages (F T R S : Type 0) : Type 0 where
  pub compile_regex : Text → Option R
  pub find_string_submatch : R → Text → Option (List Text)
  pub new_tengo_transformer : RouteConfig → Result TransformError S
  pub transform_script : S → Message T → Result TransformError (List (Point F T))

pub data RouteError : Type 0 where
  invalid_topic : TopicError → RouteError
  invalid_regex : RouteError
  invalid_subscription : ConfigError → RouteError
  invalid_transformer : TransformError → RouteError

pub data RouteMatcher (R : Type 0) : Type 0 where
  wildcard_matcher : WildcardMatcher → RouteMatcher R
  regex_matcher : R → RouteMatcher R

pub data Transformer (S : Type 0) : Type 0 where
  fixed_transformer : FixedTransformer → Transformer S
  tengo_transformer : S → Transformer S

pub record CompiledRoute (R S : Type 0) : Type 0 where
  pub config : RouteConfig
  pub matcher : RouteMatcher R
  pub transformer : Transformer S
  pub subscription_topic : Text

unfoldable pub as_error : {E D A : Type 0} → (E → D) → Result E A → Result D A
as_error f (ok a) = ok a
as_error f (err e) = err (f e)

-- What uuid.MustParse of a text that uuid.Parse refuses does
pub data Panic : Type 0 where
  must_parse_failed : Text → Panic

module _ {F T R S : Type 0} (packages : Packages F T R S) (parse_uuid : Text → Option Uuid) where
  unfoldable pub new_route_matcher : RouteConfig → Result RouteError (RouteMatcher R)
  new_route_matcher cfg =
      if not (is_blank cfg.topic_regex)
      then (or_error invalid_regex (packages.compile_regex cfg.topic_regex) >>= λ re.
          ok (regex_matcher re))
      else as_error invalid_topic (new_wildcard_matcher cfg.topic) >>= λ m. ok (wildcard_matcher m)

  unfoldable pub new_transformer : RouteConfig → Result TransformError (Transformer S)
  new_transformer cfg =
      if not (is_blank cfg.script_path)
      then (packages.new_tengo_transformer cfg >>= λ s. ok (tengo_transformer s))
      else new_fixed_transformer parse_uuid cfg >>= λ t. ok (fixed_transformer t)

  unfoldable pub compile_route : RouteConfig → Result RouteError (CompiledRoute R S)
  compile_route cfg = new_route_matcher cfg >>= λ matcher.
      as_error invalid_subscription (resolve_subscription_topic cfg) >>= λ topic.
      as_error invalid_transformer (new_transformer cfg) >>= λ transformer. ok (record {
        config = cfg;
        matcher = matcher;
        transformer = transformer;
        subscription_topic = topic;
      })

  unfoldable pub match_route : RouteMatcher R → Text → Option (List Text)
  match_route (wildcard_matcher m) topic = match m topic
  match_route (regex_matcher re) topic = packages.find_string_submatch re topic

  unfoldable pub matches : CompiledRoute R S → Text → Bool
  matches r topic = elim (match_route r.matcher topic) [ none ↦ false | some captures ↦ true ]

  unfoldable pub with_captures : Message T → List Text → Message T
  with_captures msg captures = record (msg) { topic_captures = captures }

  unfoldable pub run_transformer :
      Formats F T → Transformer S → Message T → Result TransformError (List (Point F T))
  run_transformer formats (fixed_transformer t) msg = transform_fixed formats t msg parse_uuid
  run_transformer formats (tengo_transformer s) msg = packages.transform_script s msg

  unfoldable pub transform :
      Formats F T → CompiledRoute R S → Message T → Result TransformError (List (Point F T))
  transform formats r msg =
      or_error topic_mismatch (match_route r.matcher msg.topic) >>= λ captures.
      run_transformer formats r.transformer (with_captures msg captures)

  -- FixedTimeseriesUUID; uuid.MustParse panics where uuid.Parse refuses.
  unfoldable pub fixed_timeseries_uuid : CompiledRoute R S → Result Panic (Option Uuid)
  fixed_timeseries_uuid r =
      if not (is_blank r.config.script_path)
        || is_blank r.config.timeseries_uuid
        || contains_capture_template r.config.timeseries_uuid
      then ok none
      else or_error (must_parse_failed r.config.timeseries_uuid)
          (parse_uuid r.config.timeseries_uuid)
        >>= λ id. ok (some id)
