-- ===== src/Examples/Route.antt =====
-- A route of the ingestion service that is compiled and given messages.
use self_host.Prelude.{
  ltb, ℕ, ◌≡◌, ◌≢◌, refl, inl, sym, ◌∙◌, Bool, true, false, Option, none, some, [], ◌∷◌, ◌++◌,
  Result, ok, err, if◌then◌else◌, is_empty,
}
use self_host.Text.{
  Text, codes, text_eq, trim_space, trim_left, trim_right, is_space, contains_char, split,
  extend_head,
}
use self_host.Policy.Rule.{Uuid}
use self_host.Ingest.Config.{
  RouteConfig, is_blank, is_digit, starts_with_digit, resolve_subscription_topic,
  contains_capture_template, to_lower, payload_format_or_default,
}
use self_host.Ingest.Topic.{new_wildcard_matcher, check_parts, check_part, match, match_parts}
use self_host.Ingest.Template.{
  decimal, atoi, capture_at, capture_or, substituted, replacement, starts_match, begin_match,
  literal, next_match, emitted, replace_all, expand_capture_template,
}
use self_host.Ingest.Template.Expands.{expand-capture}
use self_host.Ingest.Fixed.{
  Formats, script_error, or_error, fixed_of, new_fixed_transformer, parse_numeric_payload, extract,
  received_value, points_at, transform_fixed,
}
use self_host.Ingest.Route.{
  Packages, wildcard_matcher, fixed_transformer, CompiledRoute, must_parse_failed, as_error,
  new_route_matcher, new_transformer, compile_route, match_route, with_captures, run_transformer,
  transform, fixed_timeseries_uuid,
}
use self_host.Ingest.Route.Series.{IgnoresSpace}
use self_host.Ingest.Runtime.{
  panicked, RoutedMessage, TransformState, check_series, validate_routes, transform_loop,
}
use self_host.Ingest.Runtime.Known.{NamesSeries, IsKnown, IsSafe, transform_loop-IsKnown}
use self_host.Ingest.Runtime.Safe.{IsCompiled, validate_routes-safe}
use self_host.Ingest.Runtime.Loop.{transform_loop-after, takes_all, after, results}
use self_host.Examples.Config.{route}

expand-capture_example :
    expand_capture_template (codes "t-$1/x") (codes "hall" ∷ [])
    ≡ codes "t-" ++ (codes "hall" ++ expand_capture_template (codes "/x") (codes "hall" ∷ []))
unfolding is_digit starts_with_digit contains_capture_template atoi decimal capture_at
expand-capture_example =
    expand-capture (codes "hall" ∷ []) (codes "t-") 36 49 [] (codes "/x") 0 (codes "hall") refl refl
      (refl, tt) refl refl refl

expands_both :
    expand_capture_template (codes "a$2-\\1-$3") (codes "x" ∷ codes "y" ∷ []) ≡ codes "ay-x-$3"
unfolding is_digit starts_with_digit atoi decimal capture_at capture_or substituted replacement
    starts_match begin_match literal next_match emitted replace_all expand_capture_template
expands_both = refl

abbrev formats : Formats ℕ ℕ
formats = record {
  parse_float = λ s. if is_empty s then none else atoi s;
  unmarshal = λ s. none;
  parse_rfc3339 = λ s. none;
  unix = λ x t. x;
  unix_milli = λ x t. x;
}

abbrev packages : Packages ℕ ℕ Text Text
packages = record {
  compile_regex = λ s. some s;
  find_string_submatch = λ r s. none;
  new_tengo_transformer = λ cfg. ok cfg.script_path;
  transform_script = λ s msg. err (script_error s);
}

abbrev parse_uuid : Text → Option Uuid
parse_uuid s = if text_eq s (codes "u") then some 1 else none

is_one :
    (b : Bool) (i : Uuid)
    → ◌≡◌ {A = Option Uuid} (if b then some 1 else none) (some i)
    → ◌≡◌ {A = ℕ} 1 i
is_one true i h = cc h
is_one false i h = cc h

parse_uuid-IgnoresSpace : IgnoresSpace parse_uuid
parse_uuid-IgnoresSpace = record {
  same = λ s i j h k.
      sym (is_one (text_eq s (codes "u")) i h) ∙ is_one (text_eq (trim_space s) (codes "u")) j k;
}

abbrev numeric : RouteConfig
numeric = record (route) { payload_format = codes "number" }

abbrev compiled : CompiledRoute Text Text
compiled = record {
  config = numeric;
  matcher = wildcard_matcher (record { pattern = codes "plant" ∷ codes "+" ∷ codes "temp" ∷ [] });
  transformer = fixed_transformer (fixed_of numeric);
  subscription_topic = codes "plant/+/temp";
}

compiles_route : compile_route packages parse_uuid numeric ≡ ok compiled
unfolding compile_route new_route_matcher new_transformer new_fixed_transformer or_error as_error
    new_wildcard_matcher check_parts check_part resolve_subscription_topic is_blank
    contains_capture_template is_digit starts_with_digit trim_space trim_left trim_right is_space
    contains_char split extend_head text_eq
compiles_route = refl

series_named : fixed_timeseries_uuid packages parse_uuid compiled ≡ ok (some 1)
unfolding fixed_timeseries_uuid or_error is_blank contains_capture_template is_digit
    starts_with_digit trim_space trim_left trim_right is_space text_eq
series_named = refl

abbrev series_exists : Uuid → Result Text Bool
series_exists id = ok true

routes_valid : validate_routes packages parse_uuid series_exists (compiled ∷ []) ≡ ok tt
unfolding validate_routes check_series as_error
routes_valid = rw series_named refl

abbrev reading : Text → RoutedMessage ℕ Text Text
reading payload = record {
  route = compiled;
  message = record {
    topic = codes "plant/a/temp";
    payload = payload;
    received_at = 5;
    topic_captures = [];
  };
}

abbrev idle_state : TransformState ℕ ℕ
idle_state = record { transform_errors = 0; transformed_points = 0; given = []; queued = [] }

reading-NamesSeries :
    (payload : Text) → NamesSeries packages parse_uuid (compiled ∷ []) (reading payload)
reading-NamesSeries payload = record {
  config = numeric;
  compiled = compiles_route;
  among = inl refl;
  series = 1;
  named = series_named;
}

reads_number :
    transform packages parse_uuid formats compiled (reading (codes " 42")).message
    ≡ ok (record { timeseries_uuid = 1; timestamp = 5; value = 42 } ∷ [])
unfolding transform match_route match match_parts with_captures run_transformer transform_fixed
    extract fixed_of payload_format_or_default parse_numeric_payload received_value points_at
    or_error as_error expand_capture_template replace_all emitted literal next_match begin_match
    starts_match starts_with_digit is_digit atoi decimal is_blank to_lower trim_space trim_left
    trim_right is_space split extend_head text_eq
reads_number = refl

idle_state-IsSafe : IsSafe packages parse_uuid series_exists idle_state
unfolding IsSafe IsKnown
idle_state-IsSafe = (tt, tt)

transform_loop-IsKnown_example : IsSafe packages parse_uuid series_exists (
    transform_loop packages parse_uuid formats
      (ltb 0)
      (reading (codes " 42") ∷ reading [] ∷ [])
      idle_state)
transform_loop-IsKnown_example =
    transform_loop-IsKnown packages parse_uuid series_exists parse_uuid-IgnoresSpace formats (ltb 0)
      (compiled ∷ []) routes_valid (reading (codes " 42") ∷ reading [] ∷ []) idle_state
      (reading-NamesSeries (codes " 42"), (reading-NamesSeries [], tt)) idle_state-IsSafe

never_panics :
    (validate_routes packages parse_uuid series_exists (compiled ∷ []))
    ≢ err (panicked (must_parse_failed (codes "u")))
never_panics =
    validate_routes-safe packages parse_uuid series_exists (compiled ∷ [])
      (must_parse_failed (codes "u")) (unfold IsCompiled in ((numeric, compiles_route), tt))

transform_loop-after_example :
    transform_loop packages parse_uuid formats takes_all
      (reading (codes " 42") ∷ reading [] ∷ [])
      idle_state
    ≡ after idle_state
        (results packages parse_uuid formats (reading (codes " 42") ∷ reading [] ∷ []))
transform_loop-after_example =
    transform_loop-after packages parse_uuid formats (reading (codes " 42") ∷ reading [] ∷ [])
      idle_state
