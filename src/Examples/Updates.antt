-- ===== src/Examples/Updates.antt =====
-- The updates of things, alerts and time series over a database of one field.
use self_host.Prelude.{ℕ, ◌≡◌, Bool, true, none, some, [], ok}
use self_host.Text.{Text, codes}
use self_host.Database.{Faults}
use self_host.Database.Refines.{atomically, idle}
use self_host.Things.{ThingQueries, UpdateThingParams, update_by_uuid, Thing}
use self_host.Alerts.{AlertQueries, UpdateAlertByUuidParams, update_alert_by_uuid}
use self_host.Timeseries.Update.{SeriesQueries, Series, UpdateTimeseriesParams, update_timeseries}

abbrev sound : Faults Text Bool
sound = record { at_begin = λ s. none; at_commit = λ s. none; tx_done = true }

abbrev lamp : Thing
lamp = record {
  uuid = 1;
  name = codes "lamp";
  type = none;
  state = codes "active";
  created_by = none;
  tags = [];
}

abbrev things : ThingQueries Text Bool
things = record {
  create_thing = λ p s. ok (lamp, s);
  delete_thing = λ id s. ok (1, s);
  set_name = λ id x s. ok (1, x);
  set_type = λ id x s. ok (1, s);
  set_state = λ id x s. ok (1, s);
  set_tags = λ id x s. ok (1, s);
}

abbrev rename_thing : UpdateThingParams
rename_thing = record { name = some (codes "lamp 2"); type = none; state = none; tags = none }

abbrev alerts : AlertQueries Text Bool
alerts = record {
  create_alert = λ p s. ok (1, s);
  delete_alert = λ id s. ok (1, s);
  set_resource = λ id x s. ok (1, s);
  set_environment = λ id x s. ok (1, s);
  set_event = λ id x s. ok (1, x);
  set_origin = λ id x s. ok (1, s);
  set_severity = λ id x s. ok (1, s);
  set_status = λ id x s. ok (1, s);
  set_service = λ id x s. ok (1, s);
  set_value = λ id x s. ok (1, s);
  set_description = λ id x s. ok (1, s);
  set_tags = λ id x s. ok (1, s);
  set_timeout = λ id x s. ok (1, s);
  set_rawdata = λ id x s. ok (1, s);
}

abbrev rename_alert : UpdateAlertByUuidParams
rename_alert = record {
  resource = none;
  environment = none;
  event = some (codes "heat");
  origin = none;
  severity = none;
  status = none;
  service = none;
  value = none;
  description = none;
  tags = none;
  timeout = none;
  rawdata = none;
}

abbrev flow : Series ℕ
flow = record {
  uuid = 1;
  created_by = none;
  thing_uuid = none;
  name = codes "flow";
  si_unit = codes "m";
  tags = [];
  lower_bound = none;
  upper_bound = none;
}

abbrev series : SeriesQueries ℕ Text Bool
series = record {
  create_timeseries = λ p s. ok (flow, s);
  delete_timeseries = λ id s. ok (1, s);
  delete_ts_data_range = λ p s. ok (1, s);
  zero_float = 0;
  set_name = λ id x s. ok (1, s);
  set_si_unit = λ id x s. ok (1, x);
  set_thing = λ id x s. ok (1, s);
  set_lower_bound = λ id x s. ok (1, s);
  set_upper_bound = λ id x s. ok (1, s);
  set_tags = λ id x s. ok (1, s);
}

abbrev in_metres : UpdateTimeseriesParams ℕ
in_metres = record {
  name = none;
  si_unit = some (codes "m");
  thing = none;
  lower_bound = none;
  upper_bound = none;
  tags = none;
}

renamed_thing : update_by_uuid things sound 1 rename_thing (idle []) ≡ (
    let (r, s') =
      atomically sound (self_host.Things.Transactions.updated things 1 rename_thing) [] in
    (r, idle s'))
renamed_thing =
    self_host.Things.Transactions.update_by_uuid-atomically things sound 1 rename_thing []

update_alert_by_uuid-atomically_example :
    update_alert_by_uuid alerts sound 1 rename_alert (idle []) ≡ (
      let (r, s') =
        atomically sound (self_host.Alerts.Transactions.updated alerts 1 rename_alert) [] in
      (r, idle s'))
update_alert_by_uuid-atomically_example =
    self_host.Alerts.Transactions.update_alert_by_uuid-atomically alerts sound 1 rename_alert []

update_timeseries-atomically_example : update_timeseries series sound 1 in_metres (idle []) ≡ (
    let (r, s') =
      atomically sound (self_host.Timeseries.Update.Transactions.updated series 1 in_metres) [] in
    (r, idle s'))
update_timeseries-atomically_example =
    self_host.Timeseries.Update.Transactions.update_timeseries-atomically series sound 1 in_metres
      []
