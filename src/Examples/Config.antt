-- ===== src/Examples/Config.antt =====
-- A route of the ingestion service, and a regular expression.
use self_host.Prelude.{◌≡◌, refl, true, List, [], ◌∷◌, ok}
use self_host.Text.{
  Text, codes, text_eq, trim_space, trim_left, trim_right, is_space, contains_char, count_char,
  has_suffix, join,
}
use self_host.Ingest.Config.{
  RouteConfig, is_blank, validate_subscription_topic, next_class, next_escaped, cuts, cons_segment,
  split_loop, split_regex_path, resolve_subscription_topic, validate_route,
  contains_capture_template, to_lower, payload_format_or_default,
}
use self_host.Ingest.Config.Subscribable.{IsSubscribable}
use self_host.Ingest.Config.Topics.{split_regex_path-join, validate_route-topic}

abbrev segments : List Text
segments = codes "plant" ∷ codes "[^/]+" ∷ codes "temp" ∷ []

splits : split_regex_path (codes "plant/[^/]+/temp") ≡ ok segments
unfolding split_regex_path split_loop cons_segment cuts next_class next_escaped
splits = refl

split_regex_path-join_example : join segments 47 ≡ codes "plant/[^/]+/temp"
split_regex_path-join_example = split_regex_path-join (codes "plant/[^/]+/temp") segments splits

abbrev pub route : RouteConfig
route = record {
  name = codes "temperature";
  topic = codes "plant/+/temp";
  topic_regex = [];
  subscription = [];
  timeseries_uuid = codes "u";
  script_path = [];
  payload_format = codes "JSON";
  value_key = [];
  timestamp_key = [];
  timestamp_format = [];
}

is_valid : validate_route (λ s. true) route ≡ ok tt
unfolding validate_route resolve_subscription_topic validate_subscription_topic is_blank
    contains_capture_template payload_format_or_default to_lower trim_space trim_left trim_right
    is_space contains_char count_char has_suffix text_eq
is_valid = refl

validate_route-topic_example :
    (t : Text) × (resolve_subscription_topic route ≡ ok t) × IsSubscribable t
validate_route-topic_example = validate_route-topic (λ s. true) route is_valid
