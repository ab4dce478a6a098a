-- ===== src/Ingest/Fixed.antt =====
-- Routes without a script, internal/insamlare/fixed_transform.go, with the Message and Point of route.go. Floating point
-- numbers, times, JSON texts and uuid.Parse are parameters; a payload is the text of its bytes.
use self_host.Prelude.{
  ℕ, ◌+◌, Bool, not, ◌||◌, Option, none, some, List, [], ◌∷◌, if◌then◌else◌, is_empty, Result, ok,
  err, ◌>>=◌, ◌>>◌,
}
use self_host.Text.{Text, codes, text_eq, trim_space}
use self_host.Policy.Rule.{Uuid}
use self_host.Ingest.Config.{RouteConfig, contains_capture_template, payload_format_or_default}
use self_host.Ingest.Template.{expand_capture_template}

pub record Message (T : Type 0) : Type 0 where
  pub topic : Text
  pub payload : Text
  pub received_at : T
  pub topic_captures : List Text

pub record Point (F T : Type 0) : Type 0 where
  pub timeseries_uuid : Uuid
  pub timestamp : T
  pub value : F

mutual
  -- A JSON value as json.Unmarshal makes it of a document.
  pub data Json (F : Type 0) : Type 0 where
    json_null : Json F
    json_bool : Bool → Json F
    json_number : F → Json F
    json_string : Text → Json F
    json_array : Items F → Json F
    json_object : Fields F → Json F

  -- []any
  pub data Items (F : Type 0) : Type 0 where
    no_items : Items F
    item : Json F → Items F → Items F

  -- map[string]any
  pub data Fields (F : Type 0) : Type 0 where
    no_fields : Fields F
    field : Text → Json F → Fields F → Fields F

unfoldable pub field_of : {F : Type 0} → Text → Fields F → Option (Json F)
field_of k no_fields = none
field_of k (field j v raw) = if text_eq j k then some v else field_of k raw

pub data TransformError : Type 0 where
  invalid_number invalid_json unsupported_numeric_type not_object_or_array : TransformError
  expected_rfc3339_string invalid_time invalid_uuid unresolved_series topic_mismatch :
      TransformError
  unsupported_payload_format unsupported_timestamp_format : Text → TransformError
  missing_value_key missing_timestamp_key : Text → TransformError
  value_key timestamp_key : Text → TransformError → TransformError
  -- `points[%d]`
  not_an_object : ℕ → TransformError
  at_point : ℕ → TransformError → TransformError
  script_error : Text → TransformError

pub record FixedTransformer : Type 0 where
  pub series_uuid : Text
  pub payload_format : Text
  pub value_key : Text
  pub timestamp_key : Text
  pub timestamp_format : Text

pub record FixedValue (F T : Type 0) : Type 0 where
  pub value : F
  pub timestamp : T

-- strconv.ParseFloat, json.Unmarshal, time.Parse of RFC 3339, and time.Unix and time.UnixMilli of a number in the location
-- of a time.
pub record Formats (F T : Type 0) : Type 0 where
  pub parse_float : Text → Option F
  pub unmarshal : Text → Option (Json F)
  pub parse_rfc3339 : Text → Option T
  pub unix : F → T → T
  pub unix_milli : F → T → T

unfoldable pub or_error : {E A : Type 0} → E → Option A → Result E A
or_error e none = err e
or_error e (some a) = ok a

-- `fmt.Errorf("...: %w", err)`
unfoldable pub wrapped : {E A : Type 0} → (E → E) → Result E A → Result E A
wrapped f (ok a) = ok a
wrapped f (err e) = err (f e)

unfoldable pub fixed_of : RouteConfig → FixedTransformer
fixed_of cfg = record {
  series_uuid = trim_space cfg.timeseries_uuid;
  payload_format = payload_format_or_default cfg;
  value_key = trim_space cfg.value_key;
  timestamp_key = trim_space cfg.timestamp_key;
  timestamp_format = trim_space cfg.timestamp_format;
}

-- uuid.Parse is `parse_uuid`.
unfoldable pub new_fixed_transformer :
    (Text → Option Uuid) → RouteConfig → Result TransformError FixedTransformer
new_fixed_transformer parse_uuid cfg =
    (if not (contains_capture_template cfg.timeseries_uuid)
      then (or_error invalid_uuid (parse_uuid cfg.timeseries_uuid) >>= λ id. ok tt)
      else ok tt)
    >> ok (fixed_of cfg)

-- The loop of Transform
unfoldable pub points_at : {F T : Type 0} → Uuid → List (FixedValue F T) → List (Point F T)
points_at id [] = []
points_at id (sample ∷ values) =
    record { timeseries_uuid = id; timestamp = sample.timestamp; value = sample.value }
    ∷ points_at id values

module _ {F T : Type 0} (formats : Formats F T) where
  unfoldable pub parse_numeric_payload : Text → Result TransformError F
  parse_numeric_payload payload = or_error invalid_number (formats.parse_float (trim_space payload))

  -- The other types of the switch are not among those of json.Unmarshal.
  unfoldable pub parse_numeric_any : Json F → Result TransformError F
  parse_numeric_any (json_number x) = ok x
  parse_numeric_any (json_string s) = or_error invalid_number (formats.parse_float (trim_space s))
  parse_numeric_any json_null = err unsupported_numeric_type
  parse_numeric_any (json_bool b) = err unsupported_numeric_type
  parse_numeric_any (json_array items) = err unsupported_numeric_type
  parse_numeric_any (json_object raw) = err unsupported_numeric_type

  unfoldable pub parse_rfc3339_any : Json F → Result TransformError T
  parse_rfc3339_any (json_string s) = or_error invalid_time (formats.parse_rfc3339 s)
  parse_rfc3339_any json_null = err expected_rfc3339_string
  parse_rfc3339_any (json_bool b) = err expected_rfc3339_string
  parse_rfc3339_any (json_number x) = err expected_rfc3339_string
  parse_rfc3339_any (json_array items) = err expected_rfc3339_string
  parse_rfc3339_any (json_object raw) = err expected_rfc3339_string

  -- The location is that of `received_at`.
  unfoldable pub parse_timestamp_any : Json F → Text → T → Result TransformError T
  parse_timestamp_any v format received_at =
      if is_empty format || text_eq format (codes "rfc3339")
      then parse_rfc3339_any v
      else if text_eq format (codes "unix")
      then (parse_numeric_any v >>= λ n. ok (formats.unix n received_at))
      else if text_eq format (codes "unix_ms")
      then (parse_numeric_any v >>= λ n. ok (formats.unix_milli n received_at))
      else err (unsupported_timestamp_format format)

  module _ (t : FixedTransformer) (msg : Message T) where
    unfoldable pub value_field : Text
    value_field =
        if is_empty t.value_key
        then codes "value"
        else expand_capture_template t.value_key msg.topic_captures

    unfoldable pub timestamp_field : Text
    timestamp_field = expand_capture_template t.timestamp_key msg.topic_captures

    unfoldable pub point_time : Fields F → Result TransformError T
    point_time raw =
        if is_empty timestamp_field
        then ok msg.received_at
        else or_error (missing_timestamp_key timestamp_field) (field_of timestamp_field raw)
          >>= λ raw_timestamp.
              wrapped (timestamp_key timestamp_field)
                (parse_timestamp_any raw_timestamp t.timestamp_format msg.received_at)

    unfoldable pub extract_json_object : Fields F → Result TransformError (FixedValue F T)
    extract_json_object raw =
        or_error (missing_value_key value_field) (field_of value_field raw) >>= λ raw_value.
        wrapped (value_key value_field) (parse_numeric_any raw_value) >>= λ value.
        point_time raw >>= λ ts. ok (record { value = value; timestamp = ts })

    unfoldable pub extract_item : ℕ → Json F → Result TransformError (FixedValue F T)
    extract_item i (json_object raw) = wrapped (at_point i) (extract_json_object raw)
    extract_item i json_null = err (not_an_object i)
    extract_item i (json_bool b) = err (not_an_object i)
    extract_item i (json_number x) = err (not_an_object i)
    extract_item i (json_string s) = err (not_an_object i)
    extract_item i (json_array items) = err (not_an_object i)

    -- The loop over the items of an array, from index `i` on
    unfoldable pub extract_items : ℕ → Items F → Result TransformError (List (FixedValue F T))
    extract_items i no_items = ok []
    extract_items i (item v items) =
        extract_item i v >>= λ point. extract_items (i + 1) items >>= λ points. ok (point ∷ points)

    unfoldable pub extract_value : Json F → Result TransformError (List (FixedValue F T))
    extract_value (json_object raw) = extract_json_object raw >>= λ point. ok (point ∷ [])
    extract_value (json_array items) = extract_items 0 items
    extract_value json_null = err not_object_or_array
    extract_value (json_bool b) = err not_object_or_array
    extract_value (json_number x) = err not_object_or_array
    extract_value (json_string s) = err not_object_or_array

    unfoldable pub extract_json : Result TransformError (List (FixedValue F T))
    extract_json =
        or_error invalid_json (formats.unmarshal msg.payload) >>= λ raw. extract_value raw

    unfoldable pub received_value : F → List (FixedValue F T)
    received_value value = record { value = value; timestamp = msg.received_at } ∷ []

    unfoldable pub extract : Result TransformError (List (FixedValue F T))
    extract =
        if text_eq t.payload_format (codes "number")
        then (parse_numeric_payload msg.payload >>= λ value. ok (received_value value))
        else if text_eq t.payload_format (codes "json")
        then extract_json
        else if text_eq t.payload_format (codes "auto")
        then elim (parse_numeric_payload msg.payload) [
          | ok value ↦ ok (received_value value)
          | err e ↦ extract_json
        ]
        else err (unsupported_payload_format t.payload_format)

    unfoldable pub transform_fixed : (Text → Option Uuid) → Result TransformError (List (Point F T))
    transform_fixed parse_uuid = extract >>= λ values.
        or_error unresolved_series
          (parse_uuid (expand_capture_template t.series_uuid msg.topic_captures))
        >>= λ id. ok (points_at id values)
