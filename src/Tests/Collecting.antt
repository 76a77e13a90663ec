-- ===== src/Tests/Collecting.antt =====
-- Collections, alerts and the schedule of homeinfra/monitoring.py on the samples.
use homeinfra_control_center.Prelude.{
  ℕ, ◌+◌, ◌*◌, ◌<◌, max, ◌≡◌, refl, true, false, Option, none, some, List, [], ◌∷◌, Text, txt,
  arith, keep, if◌then◌else◌,
}
use homeinfra_control_center.Prelude.Int.{pos}
use homeinfra_control_center.Errors.{ok, err, Result, type_error, index_error}
use homeinfra_control_center.Model.Json.{
  Value, int, dec, str, obj, arr, cons, nil, end, field, Fields,
}
use homeinfra_control_center.Model.State.{
  State, Device, Alert, Record, given, isoformat, from_isoformat,
}
use homeinfra_control_center.Samples.{
  refuses_nothing, disk, nas, nas_record, home, timeout_error, ssh_source,
}
use homeinfra_control_center.Prelude.{String, map}
use homeinfra_control_center.Model.Json.{null}
use homeinfra_control_center.Monitoring.Values.{Check}
use homeinfra_control_center.Monitoring.Alerts.{of_device}
use homeinfra_control_center.Monitoring.Alerts.Invariant.{AlertsValid}
use homeinfra_control_center.Monitoring.Alerts.Reconcile.{
  active_of, reconcile_alerts-AlertsValid, reconcile_alerts-others, reconcile_alerts-failed,
}
use homeinfra_control_center.Monitoring.Collections.{Outcome, failed, raised, Runtime, configured}
use homeinfra_control_center.Monitoring.Collections.Invariant.{collect_device-CollectionsValid}
use homeinfra_control_center.Monitoring.Schedule.{Parsed, naive, Times}
use homeinfra_control_center.Monitoring.Schedule.Due.{
  run_scheduled_collection-CollectionsValid, not_due-after_success, due-after_failure,
  naive_last_seen_blocks,
}
use homeinfra_control_center.Prelude.{
  ◌==◌, is_space, strip, lower_char, lower, upper_char, upper, starts_with, contains, text_le,
}
use homeinfra_control_center.Ids.{
  is_digit, scan_int, unsigned, parse_int, after_last_dash, emit, format_05d, raise_highest,
  highest_of, next_numbered_id,
}
use homeinfra_control_center.Model.Json.{lookup, get_or, get, has, set}
use homeinfra_control_center.Model.Metrics.{increment, metric}
use homeinfra_control_center.Model.Store.{settle, sqlite_update, mock_update}
use homeinfra_control_center.Monitoring.Lookup.{
  find_group, find_device, ensure_group_exists, change_device, count_metric,
}
use homeinfra_control_center.Monitoring.Values.{
  gt, exceeds, is_number, truthy, is_hashable, dictionaries_of, dictionaries,
}
use homeinfra_control_center.Monitoring.Thresholds.{
  above, graded, check_cpu, check_core, check_memory, check_disk, check_partition, check_sensor,
  check_max_temperature, is_abnormal, check_pool, check_raid, evaluate_threshold_alerts,
}
use homeinfra_control_center.Monitoring.Smart.{
  attribute_in, is_bad_status, check_critical_attr, is_over_threshold, check_warning_attr,
  check_attribute, check_attribute_status, smart_status_check, attributes_check,
  evaluate_smart_alert,
}
use homeinfra_control_center.Monitoring.Observable.{is_observable, has_observable_collection_data}
use homeinfra_control_center.Monitoring.Alerts.{
  resolved, resolve_alert_mutate, auto_resolved, resolve_existing_alerts, refreshed, new_alert,
  upsert_alert, upsert_checks, create_threshold_alerts, failure_check, reconcile_alerts,
}
use homeinfra_control_center.Monitoring.Collections.{
  success_code, labelled_payload, success_record, failure_code, failure_record, push_record,
  after_success, after_failure, finish_collection, apply_collection_success,
  apply_collection_failure, collect_device,
}
use homeinfra_control_center.Monitoring.Collections.Invariant.{CollectionsValid}
use homeinfra_control_center.Monitoring.Schedule.{
  parse_last_seen, effective_interval, interval_elapsed, is_due, visit, visit_devices,
  run_scheduled_collection, scheduler_settings,
}
use homeinfra_control_center.Model.Store.{run_statements, transaction}
use homeinfra_control_center.Model.Store.Tables.{
  execute, persist_state_to_tables, normalize_loaded_device_credentials, build_state_from_tables,
  sqlite_database,
}
use homeinfra_control_center.Monitoring.Lookup.{count_write, add_metric}
use homeinfra_control_center.Monitoring.Public.{public_device}
use homeinfra_control_center.Monitoring.Collections.{outcome_update}

-- What the tests run.
unfoldable program : Unit {0}
unfolding outcome_update public_device count_write add_metric execute persist_state_to_tables
    normalize_loaded_device_credentials build_state_from_tables sqlite_database run_statements
    transaction ◌==◌ is_space strip lower_char lower upper_char upper starts_with contains text_le
    is_digit scan_int unsigned parse_int after_last_dash emit format_05d raise_highest highest_of
    next_numbered_id lookup get_or get has set increment metric settle sqlite_update mock_update
    find_group find_device ensure_group_exists change_device count_metric gt exceeds is_number
    truthy is_hashable dictionaries_of dictionaries above graded check_cpu check_core check_memory
    check_disk check_partition check_sensor check_max_temperature is_abnormal check_pool check_raid
    evaluate_threshold_alerts attribute_in is_bad_status check_critical_attr is_over_threshold
    check_warning_attr check_attribute check_attribute_status smart_status_check attributes_check
    evaluate_smart_alert is_observable has_observable_collection_data resolved resolve_alert_mutate
    auto_resolved resolve_existing_alerts refreshed new_alert upsert_alert upsert_checks
    create_threshold_alerts failure_check reconcile_alerts success_code labelled_payload
    success_record failure_code failure_record push_record after_success after_failure
    finish_collection apply_collection_success apply_collection_failure collect_device
    CollectionsValid parse_last_seen effective_interval interval_elapsed is_due visit visit_devices
    run_scheduled_collection scheduler_settings
program = tt

unwrap : {a b : State} → some a ≡ some b → a ≡ b
unwrap same = ground arith

home-AlertsValid : AlertsValid home.alerts
unfolding program
home-AlertsValid = record {
  ids = λ k. ground arith;
  single = λ d c. ground arith;
  settled = (refl, tt);
}

home-CollectionsValid : CollectionsValid home
unfolding program
home-CollectionsValid =
    (record { bounded = omega arith; ids = λ k. ground arith }, home-AlertsValid)

-- A payload over the limits: a float, a partition, and an array that mdstat reports as active.
abbrev hot : Fields
hot = field (txt "cpu_percent") (dec (pos 905) 1) (
    field (txt "partitions")
      (arr (
        cons (obj (field (txt "mount") (str (txt "/")) (field (txt "percent") (int (pos 91)) end)))
          nil))
      (field (txt "nas_raid")
        (arr (
          cons
            (obj
              (field (txt "name") (str (txt "md0")) (field (txt "state") (str (txt "ACTIVE")) end)))
            nil))
        end))

abbrev types_of : Result (List Check) → List Text
types_of (ok checks) = map (λ c. c.type) checks
types_of (err e) = []

hot_types :
    types_of (evaluate_threshold_alerts hot)
    ≡ txt "cpu_high" ∷ txt "partition_critical" ∷ txt "nas_raid_abnormal" ∷ []
unfolding program
hot_types = refl

-- A value that is no number raises.
null_raises : evaluate_threshold_alerts (field (txt "cpu_percent") null end) ≡ err type_error
unfolding program
null_raises = refl

-- An attribute as the parser names it is not recognised.
abbrev attribute : String → Value → Fields
attribute name raw =
    field (txt "smart_attributes")
      (arr (cons (obj (field (txt "attr_name") (str (txt name)) (field (txt "raw") raw end))) nil))
      end

abbrev smart_type : Result (Option Check) → Option Text
smart_type (ok (some c)) = some c.type
smart_type _ = none

smart_lower :
    smart_type (evaluate_smart_alert (attribute "reallocated_sector_ct" (int (pos 3))))
    ≡ some (txt "smart_reallocated_sector_ct")
unfolding program
smart_lower = refl

smart_parsed : evaluate_smart_alert (attribute "Reallocated_Sector_Ct" (str (txt "3"))) ≡ ok none
unfolding program
smart_parsed = refl

abbrev clock : ℕ → ℕ
clock i = 30_000_000

abbrev failed_record : Record
failed_record = record nas_record { id = txt "col-00002"; collected_at = 30 }

reconcile_alerts-AlertsValid_example :
    AlertsValid (reconcile_alerts clock 30_000_000 nas failed_record home.alerts).1
reconcile_alerts-AlertsValid_example =
    reconcile_alerts-AlertsValid clock 30_000_000 nas failed_record home.alerts home-AlertsValid

other_device : (txt "dev-edge" == nas.id) ≡ false
unfolding program
other_device = refl

reconcile_alerts-others_example :
    keep
      (of_device (txt "dev-edge"))
      (reconcile_alerts clock 30_000_000 nas failed_record home.alerts).1
    ≡ keep (of_device (txt "dev-edge")) home.alerts
reconcile_alerts-others_example =
    reconcile_alerts-others clock 30_000_000 nas failed_record (txt "dev-edge") home.alerts
      other_device

record_failed : (failed_record.status == txt "healthy") ≡ false
unfolding program
record_failed = refl

reconcile_alerts-failed_example :
    (a : Alert) × (ys : List Alert) × ((reconcile_alerts clock 30_000_000 nas failed_record
        home.alerts).1
      ≡ a ∷ ys)
    × (active_of nas.id (a ∷ ys) ≡ 1)
    × (a.code ≡ (
        if failed_record.status == txt "critical"
        then txt "device_offline"
        else txt "collection_failed"))
    × (a.last_record_id ≡ some (txt "col-00002"))
reconcile_alerts-failed_example =
    reconcile_alerts-failed clock 30_000_000 nas failed_record home.alerts record_failed

abbrev times_out : Device → ℕ → Text → Outcome
times_out device timeout purpose = failed timeout_error

abbrev failing : Runtime
failing = configured ssh_source times_out

offline_after :
    map
      (λ (d : Device). d.status)
      (collect_device disk failing clock 30_000_000 30_000_000
        (txt "dev-nas")
        5
        (txt "refresh")
        (txt "device_refresh_total")
        home).1.devices
    ≡ txt "offline" ∷ []
unfolding program
offline_after = refl

collect_device-CollectionsValid_example :
    CollectionsValid
      (collect_device disk failing clock 30_000_000 30_000_000
        (txt "dev-nas")
        5
        (txt "refresh")
        (txt "device_refresh_total")
        home).1
collect_device-CollectionsValid_example =
    collect_device-CollectionsValid refuses_nothing failing clock 30_000_000 30_000_000
      (txt "dev-nas") 5 (txt "refresh") (txt "device_refresh_total") home home-CollectionsValid

-- The IndexError of a parser passes, and nothing is written.
abbrev breaks : Device → ℕ → Text → Outcome
breaks device timeout purpose = raised index_error

breaks_through :
    collect_device disk
      (configured ssh_source breaks)
      clock
      30_000_000
      30_000_000
      (txt "dev-nas")
      5
      (txt "refresh")
      (txt "device_refresh_total")
      home
    ≡ (err index_error, home)
unfolding program
breaks_through = refl

abbrev zoneless : Text → Parsed
zoneless s = naive

abbrev times : Text → Times
times id = record { applied_at = 80_000_000; reconciled_at = 80_000_000; checked_at = clock }

one_collected : (run_scheduled_collection disk zoneless failing times 80_000_000 10 home).0 ≡ ok 1
unfolding program
one_collected = refl

run_scheduled_collection-CollectionsValid_example :
    CollectionsValid (run_scheduled_collection disk zoneless failing times 80_000_000 10 home).1
run_scheduled_collection-CollectionsValid_example =
    run_scheduled_collection-CollectionsValid refuses_nothing zoneless failing times 80_000_000 10
      home home-CollectionsValid

soon :
    60_000_000
    < from_isoformat (isoformat 30_500_000)
      + max 30 (effective_interval nas.collection_interval) * 1000000
unfolding program
soon = omega arith

not_due-after_success_example :
    is_due zoneless failing 60_000_000 (after_success (isoformat 30_500_000) (txt "healthy") nas)
    ≡ ok false
not_due-after_success_example =
    not_due-after_success zoneless ssh_source times_out 30_500_000 60_000_000 (txt "healthy") nas
      soon

nas_due : is_due zoneless failing 80_000_000 nas ≡ ok true
unfolding program
nas_due = refl

not_disabled : (txt "critical" == txt "disabled") ≡ false
unfolding program
not_disabled = refl

due-after_failure_example :
    is_due zoneless failing 90_000_000 (after_failure 80 (txt "critical") nas) ≡ ok true
due-after_failure_example =
    due-after_failure zoneless ssh_source times_out 80_000_000 80 90_000_000 (txt "critical") nas
      nas_due (omega arith) not_disabled

-- A device whose last contact came with a request and has no zone.
abbrev zoneless_nas : Device
zoneless_nas = record nas { last_seen = some (given (txt "2026-01-01T00:00:00")) }

abbrev zoneless_home : State
zoneless_home = record home { devices = zoneless_nas ∷ nas ∷ [] }

nas_enabled : (nas.status == txt "disabled") ≡ false
unfolding program
nas_enabled = refl

nas_zoneless : parse_last_seen zoneless zoneless_nas.last_seen ≡ naive
unfolding program
nas_zoneless = refl

naive_last_seen_blocks_example :
    run_scheduled_collection disk zoneless failing times 80_000_000 10 zoneless_home
    ≡ (err type_error, zoneless_home)
naive_last_seen_blocks_example =
    naive_last_seen_blocks zoneless ssh_source times_out disk times 80_000_000 10 zoneless_home
      zoneless_nas (nas ∷ []) refl refl nas_enabled nas_zoneless
