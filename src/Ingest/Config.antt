-- ===== src/Ingest/Config.antt =====
-- The configuration of the ingestion service, internal/insamlare/config.go. uuid.Parse and containsCaptureTemplate, which
-- matches a regular expression, are parameters; a time.Duration is its number of nanoseconds.
pub mod Subscribable
pub mod Topics
use self_host.Prelude.{
  ℕ, ◌+◌, Bool, true, false, not, ◌&&◌, ◌||◌, List, [], ◌∷◌, ◌++◌, ◌==◌, ltb, leb, if◌then◌else◌,
  any, is_empty, Result, ok, err, Checked, ◌>>=◌, ◌>>◌, fail_if,
}
use self_host.Prelude.Int.{ℤ, pos, ltb_ℤ}
use self_host.Text.{
  Text, codes, text_eq, trim_space, contains_char, count_char, has_suffix, trim_suffix, join,
}

pub record RouteConfig : Type 0 where
  pub name : Text
  pub topic : Text
  pub topic_regex : Text
  pub subscription : Text
  pub timeseries_uuid : Text
  pub script_path : Text
  pub payload_format : Text
  pub value_key : Text
  pub timestamp_key : Text
  pub timestamp_format : Text

pub record Config : Type 0 where
  pub broker : Text
  pub dsn : Text
  pub created_by_uuid : Text
  pub batch_size : ℤ
  pub flush_interval : ℤ
  pub workers : ℤ
  pub queue_size : ℤ
  pub load_log_interval : ℤ
  pub transform_timeout : ℤ
  pub routes : List RouteConfig

pub data ConfigError : Type 0 where
  broker_required dsn_required invalid_created_by batch_size_not_positive
        flush_interval_not_positive :
      ConfigError
  workers_not_positive queue_size_not_positive load_log_interval_negative timeout_not_positive :
      ConfigError
  route_required name_required topic_required topics_exclusive : ConfigError
  empty_topic wildcard_not_final many_wildcards : ConfigError
  empty_regex dangling_escape unterminated_class unsafe_regex : ConfigError
  target_required invalid_timeseries empty_script payload_format_unknown timestamp_format_unknown :
      ConfigError

-- `strings.TrimSpace(s) == ""`
unfoldable pub is_blank : Text → Bool
is_blank s = is_empty (trim_space s)

unfoldable pub validate_subscription_topic : Text → Checked ConfigError
validate_subscription_topic topic =
    fail_if (is_blank topic) empty_topic
    >> fail_if (contains_char topic 35 && not (has_suffix topic (codes "#"))) wildcard_not_final
    >> fail_if (ltb 1 (count_char topic 35)) many_wildcards

-- inClass after a character
unfoldable pub next_class : Bool → Bool → ℕ → Bool
next_class in_class true r = in_class
next_class in_class false r =
    if r == 92 then in_class else if r == 91 then true else if r == 93 then false else in_class

-- escaped after a character
unfoldable pub next_escaped : Bool → ℕ → Bool
next_escaped escaped r = not escaped && (r == 92)

-- `r == '/' && !inClass`, outside an escape
unfoldable pub cuts : Bool → Bool → ℕ → Bool
cuts in_class escaped r = not escaped && (r == 47 && not in_class)

unfoldable pub cons_segment :
    Bool → Text → Result ConfigError (List Text) → Result ConfigError (List Text)
cons_segment true current rest = rest >>= λ segments. ok (current ∷ segments)
cons_segment false current rest = rest

-- The loop of splitRegexPath, and its end.
unfoldable pub split_loop : Bool → Bool → Text → Text → Result ConfigError (List Text)
unfolding cons_segment
split_loop in_class escaped current [] =
    fail_if escaped dangling_escape >> fail_if in_class unterminated_class >> ok (current ∷ [])
split_loop in_class escaped current (r ∷ rs) = cons_segment (cuts in_class escaped r) current (
    split_loop (next_class in_class escaped r) (next_escaped escaped r)
      (if cuts in_class escaped r then [] else current ++ r ∷ []) rs)

unfoldable pub split_regex_path : Text → Result ConfigError (List Text)
split_regex_path expr = split_loop false false [] expr

-- The character class of containsRegexMeta
unfoldable pub contains_regex_meta : Text → Bool
contains_regex_meta segment = any (contains_char (codes ".^$*+?()[]{}\\|")) segment

unfoldable pub single_level_capture_regex : Text → Bool
single_level_capture_regex segment = any (text_eq segment) (
    codes "[^/]+"
    ∷ codes "[^/]*"
    ∷ codes "([^/]+)"
    ∷ codes "([^/]*)"
    ∷ codes "(?:[^/]+)"
    ∷ codes "(?:[^/]*)"
    ∷ [])

unfoldable pub topic_segment : Text → Result ConfigError Text
topic_segment segment =
    if is_empty segment
    then ok []
    else if not (contains_regex_meta segment)
    then ok segment
    else if single_level_capture_regex segment
    then ok (codes "+")
    else err unsafe_regex

unfoldable pub topic_segments : List Text → Result ConfigError (List Text)
topic_segments [] = ok []
topic_segments (s ∷ ss) = topic_segment s >>= λ t. topic_segments ss >>= λ ts. ok (t ∷ ts)

-- strings.TrimPrefix of "^"
unfoldable pub trim_caret : Text → Text
trim_caret [] = []
trim_caret (c ∷ cs) = if c == 94 then cs else c ∷ cs

unfoldable pub derive_subscription_topic_from_regex : Text → Result ConfigError Text
derive_subscription_topic_from_regex expr =
    let trimmed = trim_suffix (trim_caret (trim_space expr)) (codes "$") in
    fail_if (is_empty trimmed) empty_regex
    >> (split_regex_path trimmed >>= λ segments. topic_segments segments >>= λ out.
        validate_subscription_topic (join out 47) >> ok (join out 47))

unfoldable pub resolve_subscription_topic : RouteConfig → Result ConfigError Text
resolve_subscription_topic r =
    if not (is_blank r.subscription)
    then ok r.subscription
    else if not (is_blank r.topic)
    then ok r.topic
    else fail_if (is_blank r.topic_regex) topic_required
      >> derive_subscription_topic_from_regex r.topic_regex

unfoldable pub is_digit : ℕ → Bool
is_digit c = leb 48 c && leb c 57

unfoldable pub starts_with_digit : Text → Bool
starts_with_digit [] = false
starts_with_digit (c ∷ cs) = is_digit c

-- A backslash or a dollar sign before a digit
unfoldable pub contains_capture_template : Text → Bool
contains_capture_template [] = false
contains_capture_template (c ∷ cs) =
    ((c == 92 || c == 36) && starts_with_digit cs) || contains_capture_template cs

-- strings.ToLower of ASCII letters: the formats have no others
unfoldable pub to_lower : Text → Text
to_lower [] = []
to_lower (c ∷ cs) = (if leb 65 c && leb c 90 then c + 32 else c) ∷ to_lower cs

unfoldable pub payload_format_or_default : RouteConfig → Text
payload_format_or_default r =
    if is_blank r.payload_format then codes "auto" else trim_space (to_lower r.payload_format)

-- `is_uuid` tells what uuid.Parse accepts.
module _ (is_uuid : Text → Bool) where
  unfoldable pub validate_route : RouteConfig → Checked ConfigError
  validate_route r =
      let has_topic = not (is_blank r.topic) in
      let has_topic_regex = not (is_blank r.topic_regex) in
      let has_uuid = not (is_blank r.timeseries_uuid) in
      let has_script = not (is_blank r.script_path) in
      fail_if (is_blank r.name) name_required
      >> (fail_if (not has_topic && not has_topic_regex) topic_required
          >> (fail_if (has_topic && has_topic_regex) topics_exclusive
              >> ((if has_topic then validate_subscription_topic r.topic else ok tt)
                  >> ((if not (is_blank r.subscription)
                        then validate_subscription_topic r.subscription
                        else ok tt)
                      >> (resolve_subscription_topic r >>= λ topic.
                          fail_if (not has_uuid && not has_script) target_required
                          >> fail_if
                              (has_uuid
                                && (not (contains_capture_template r.timeseries_uuid)
                                    && not (is_uuid r.timeseries_uuid)))
                              invalid_timeseries
                          >> fail_if (has_script && is_blank r.script_path) empty_script
                          >> fail_if
                              (not (
                                any (text_eq (payload_format_or_default r))
                                  (codes "auto" ∷ codes "number" ∷ codes "json" ∷ [])))
                              payload_format_unknown
                          >> fail_if
                              (not (
                                any (text_eq (trim_space r.timestamp_format))
                                  ([] ∷ codes "rfc3339" ∷ codes "unix" ∷ codes "unix_ms" ∷ [])))
                              timestamp_format_unknown)))))

  unfoldable pub validate_routes : List RouteConfig → Checked ConfigError
  validate_routes [] = ok tt
  validate_routes (r ∷ rs) = validate_route r >> validate_routes rs

  unfoldable pub validate : Config → Checked ConfigError
  validate c =
      fail_if (is_blank c.broker) broker_required
      >> fail_if (is_blank c.dsn) dsn_required
      >> fail_if (not (is_uuid c.created_by_uuid)) invalid_created_by
      >> fail_if (not (ltb_ℤ (pos 0) c.batch_size)) batch_size_not_positive
      >> fail_if (not (ltb_ℤ (pos 0) c.flush_interval)) flush_interval_not_positive
      >> fail_if (not (ltb_ℤ (pos 0) c.workers)) workers_not_positive
      >> fail_if (not (ltb_ℤ (pos 0) c.queue_size)) queue_size_not_positive
      >> fail_if (ltb_ℤ c.load_log_interval (pos 0)) load_log_interval_negative
      >> fail_if (not (ltb_ℤ (pos 0) c.transform_timeout)) timeout_not_positive
      >> fail_if (is_empty c.routes) route_required
      >> validate_routes c.routes
