-- ===== src/Monitoring/Collections.antt =====
-- The part of homeinfra/monitoring.py that collects a device and writes the outcome into the
-- state. What the collector service answers is an argument.
pub mod Invariant
use homeinfra_control_center.Prelude.{
  ℕ, Bool, true, false, ◌||◌, not, Option, none, some, List, [], ◌∷◌, map, Text, txt, ◌==◌,
  is_empty, take, keep, leb, nat_eq, if◌then◌else◌, or_else,
}
use homeinfra_control_center.Errors.{Error, Result, ok, err, validation_error}
use homeinfra_control_center.Effects.{
  Action, gets, modify, lift, throw, throw_if, or_throw, pure, ◌>>=◌, ◌>>◌,
}
use homeinfra_control_center.Ids.{next_numbered_id}
use homeinfra_control_center.Model.Json.{Value, bool, str, Fields, end, field, set}
use homeinfra_control_center.Model.State.{Device, Record, Alert, State, Stamp, written, isoformat}
use homeinfra_control_center.Model.Store.{Database, sqlite_update}
use homeinfra_control_center.Monitoring.Lookup.{find_device, change_device, add_metric}
use homeinfra_control_center.Monitoring.Public.{PublicDevice, public_device}
use homeinfra_control_center.Monitoring.Observable.{has_observable_collection_data}
use homeinfra_control_center.Monitoring.Alerts.{of_device, reconcile_alerts}

-- `CollectionResult` of homeinfra/contracts.py, without the two fields that are not read.
pub record CollectionResult : Type 0 where
  pub collector : Text
  pub command : Text
  pub status : Text
  pub summary : Text
  pub payload : Fields
  pub data_source : Text
  pub is_real_data : Bool

-- `CollectorError` of homeinfra/collectors.py.
pub record CollectorError : Type 0 where
  pub message : Text
  pub status : Text
  pub reason : Option Text

-- The collector's name and the labels of the collector service.
pub record Source : Type 0 where
  pub name : Text
  pub data_source : Text
  pub is_real_data : Bool

abbrev pub max_collection_records : ℕ
max_collection_records = 5000

-- What a collection answers.
pub record Collected : Type 0 where
  pub device : PublicDevice
  pub item : Record
  pub alerts : List Alert
  pub purpose : Text

unfoldable pub success_code : Bool → Text
success_code observable =
    if observable then txt "collection_succeeded" else txt "collection_succeeded_empty"

-- The payload with the four keys that describe the collection.
unfoldable pub labelled_payload : CollectionResult → Fields
unfolding set has_observable_collection_data success_code
labelled_payload result =
    let observable = has_observable_collection_data result.payload in
    set (txt "__collection_detail_code") (str (success_code observable)) (
      set (txt "__collection_empty") (bool (not observable)) (
        set (txt "__is_real_data") (bool result.is_real_data)
          (set (txt "__data_source") (str result.data_source) result.payload)))

unfoldable pub success_record : ℕ → Text → Device → CollectionResult → List Record → Record
unfolding labelled_payload has_observable_collection_data success_code next_numbered_id
success_record now purpose device result records =
    let observable = has_observable_collection_data result.payload in
    record {
      id = next_numbered_id (txt "col") (map (λ r. r.id) records);
      device_id = device.id;
      group_id = some device.group_id;
      device_name = some device.name;
      purpose = purpose;
      collector = result.collector;
      command = result.command;
      collected_at = now;
      status = result.status;
      summary = result.summary;
      payload = labelled_payload result;
      error_message = none;
      detail_code = some (success_code observable);
      detail_message = some (if observable then result.summary else txt "采集成功但未返回可展示数据");
      data_source = some result.data_source;
      is_real_data = some result.is_real_data;
    }

-- `error.reason or "collection_failed"`
unfoldable pub failure_code : CollectorError → Text
failure_code error = elim error.reason [
  | none ↦ txt "collection_failed"
  | some reason ↦ or_else reason (txt "collection_failed")
]

unfoldable pub failure_record : ℕ → Text → Source → Device → CollectorError → List Record → Record
unfolding failure_code next_numbered_id
failure_record now purpose source device error records = record {
  id = next_numbered_id (txt "col") (map (λ r. r.id) records);
  device_id = device.id;
  group_id = some device.group_id;
  device_name = some device.name;
  purpose = purpose;
  collector = source.name;
  command = txt "ssh probe";
  collected_at = now;
  status = error.status;
  summary = error.message;
  payload = field (txt "purpose") (str purpose) (
      field (txt "__collection_detail_code") (str (failure_code error))
        (field (txt "__collection_detail_message") (str error.message) end));
  error_message = some error.message;
  detail_code = some (failure_code error);
  detail_message = some error.message;
  data_source = some source.data_source;
  is_real_data = some source.is_real_data;
}

-- The record stands in front, and the list is cut.
unfoldable pub push_record : Record → State → State
push_record item state = record state {
  collection_records = take max_collection_records (item ∷ state.collection_records);
}

unfoldable pub after_success : ℕ → Text → Device → Device
after_success now status device = record device {
  last_seen = some (written now);
  status = if status == txt "healthy" then txt "online" else txt "warning";
  verified = true;
  online_status = some (txt "online");
  health_status = some (if status == txt "healthy" then txt "normal" else txt "warning");
  updated_at = now;
}

unfoldable pub after_failure : ℕ → Text → Device → Device
after_failure now status device =
    if status == txt "critical"
    then record device {
      status = txt "offline";
      verified = false;
      online_status = some (txt "offline");
      health_status = some (txt "critical");
      updated_at = now;
    }
    else if status == txt "disabled"
    then record device {
      status = txt "disabled";
      verified = false;
      online_status = some (txt "disabled");
      health_status = some (txt "critical");
      updated_at = now;
    }
    else record device {
      status = txt "warning";
      online_status = some (txt "online");
      health_status = some (txt "warning");
      updated_at = now;
    }

abbrev pub on_alerts : {A : Type 0} → Action (List Alert) A → Action State A
on_alerts m s = let (r, alerts) = m s.alerts in (r, record s { alerts = alerts })

-- The end of both methods. The first loop of `_reconcile_alerts` reads the clock on its own.
unfoldable pub finish_collection :
    (ℕ → ℕ) → ℕ → Text → Text → Device → Record → Action State Collected
unfolding add_metric public_device
finish_collection clock reconciled_at metric_name purpose device item = do
  on_alerts (reconcile_alerts clock reconciled_at device item)
  modify (add_metric metric_name)
  alerts ← gets (λ state. keep (of_device device.id) state.alerts)
  shown ← gets (λ state. public_device state device)
  pure (record { device = shown; item = item; alerts = alerts; purpose = purpose })

unfoldable pub apply_collection_success :
    (ℕ → ℕ) → ℕ → ℕ → Text → Text → Text → CollectionResult → Action State Collected
apply_collection_success clock now reconciled_at device_id purpose metric_name result = do
  device ← find_device device_id
  item ←
      gets (λ state. success_record (isoformat now) purpose device result state.collection_records)
  modify (push_record item)
  modify (change_device device_id (after_success (isoformat now) result.status))
  finish_collection clock reconciled_at metric_name purpose
      (after_success (isoformat now) result.status device) item

unfoldable pub apply_collection_failure :
    (ℕ → ℕ) → ℕ → ℕ → Source → Text → Text → Text → CollectorError → Action State Collected
apply_collection_failure clock now reconciled_at source device_id purpose metric_name error = do
  device ← find_device device_id
  item ←
      gets (λ state.
        failure_record (isoformat now) purpose source device error state.collection_records)
  modify (push_record item)
  modify (change_device device_id (after_failure (isoformat now) error.status))
  finish_collection clock reconciled_at metric_name purpose
      (after_failure (isoformat now) error.status device) item

-- What the collector service does: it answers, it raises a CollectorError, or it raises another
-- exception, such as the IndexError of a parser.
pub data Outcome : Type 0 where
  collected : CollectionResult → Outcome
  failed : CollectorError → Outcome
  raised : Error → Outcome

-- The collector service that the methods hold.
pub data Runtime : Type 0 where
  unconfigured : Runtime
  disabled : Runtime
  configured : (source : Source) (run : Device → ℕ → Text → Outcome) → Runtime

abbrev pub runtime_error : Runtime → Result (Source × (Device → ℕ → Text → Outcome))
runtime_error unconfigured = err (validation_error "采集器未配置")
runtime_error disabled = err (validation_error "全局采集已禁用，当前无可用数据")
runtime_error (configured source run) = ok (source, run)

-- The update that an outcome ends in; `except CollectorError` lets every other exception pass.
unfoldable pub outcome_update :
    Database State
    → (ℕ → ℕ)
    → ℕ
    → ℕ
    → Text
    → Text
    → Text
    → Source
    → Outcome
    → Action State Collected
unfolding sqlite_update
outcome_update database clock now reconciled_at device_id purpose metric_name source o = elim o [
  | collected result ↦
      sqlite_update database
        (apply_collection_success clock now reconciled_at device_id purpose metric_name result)
  | failed error ↦
      sqlite_update database (
        apply_collection_failure clock now reconciled_at source device_id purpose metric_name error)
  | raised error ↦ throw error
]

-- `_collect`: the checks on a snapshot, the collection, and the one update it ends in.
unfoldable pub collect_device :
    Database State → Runtime → (ℕ → ℕ) → ℕ → ℕ → Text → ℕ → Text → Text → Action State Collected
collect_device database runtime clock now reconciled_at device_id timeout purpose metric_name = do
  device ← find_device device_id
  throw_if (nat_eq timeout 0) (validation_error "timeout 必须大于 0")
  runner ← lift (runtime_error runtime)
  throw_if (device.status == txt "disabled") (validation_error "设备采集已禁用，当前无可用数据")
  outcome_update database clock now reconciled_at device_id purpose metric_name runner.0
      (runner.1 device timeout purpose)
