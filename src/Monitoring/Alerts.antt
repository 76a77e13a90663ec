-- ===== src/Monitoring/Alerts.antt =====
-- The part of homeinfra/monitoring.py that opens and resolves alerts. The children prove what
-- holds of the list of alerts.
pub mod Invariant
pub mod Reconcile
use homeinfra_control_center.Prelude.{
  ℕ, suc, Bool, ◌&&◌, Option, none, some, List, [], ◌∷◌, ◌++◌, map, Text, txt, ◌==◌, any, find,
  change_first, if◌then◌else◌,
}
use homeinfra_control_center.Errors.{conflict, not_found}
use homeinfra_control_center.Effects.{
  Action, gets, modify, or_throw, throw_if, lift, pure, ◌>>=◌, ◌>>◌,
}
use homeinfra_control_center.Ids.{next_numbered_id}
use homeinfra_control_center.Model.Json.{str, Fields}
use homeinfra_control_center.Model.State.{
  Message, lit, shown, Device, Record, Alert, State, isoformat,
}
use homeinfra_control_center.Monitoring.Lookup.{count_write}
use homeinfra_control_center.Monitoring.Values.{Check}
use homeinfra_control_center.Monitoring.Thresholds.{evaluate_threshold_alerts}
use homeinfra_control_center.Monitoring.Smart.{evaluate_smart_alert}

abbrev pub is_active : Alert → Bool
is_active alert = alert.status == txt "active"

abbrev pub of_device : Text → Alert → Bool
of_device device_id alert = alert.device_id == device_id

abbrev pub has_alert_id : Text → Alert → Bool
has_alert_id alert_id alert = alert.id == alert_id

-- What marks an alert as resolved.
unfoldable pub resolved : ℕ → Text → Alert → Alert
resolved now actor alert = record alert {
  status = txt "resolved";
  resolved_at = some now;
  resolved_by = some actor;
  updated_at = now;
}

-- The mutator of `resolve_alert`.
unfoldable pub resolve_alert_mutate : ℕ → Text → Text → Action State Alert
unfolding resolved
resolve_alert_mutate now alert_id actor = do
  found ← gets (λ state. find (has_alert_id alert_id) state.alerts)
  alert ← or_throw found (not_found "alert" alert_id)
  throw_if (alert.status == txt "resolved") (conflict "告警已经处理完成")
  modify (λ state. record state {
    alerts = change_first (has_alert_id alert_id) (resolved (isoformat now) actor) state.alerts;
  })
  count_write (txt "alert_resolved_total")
  pure (resolved (isoformat now) actor alert)

-- The body of the loop of `_resolve_existing_alerts`.
unfoldable pub auto_resolved : ℕ → Text → Alert → Alert
unfolding resolved
auto_resolved now device_id alert =
    if of_device device_id alert && is_active alert
    then resolved now (txt "system:auto-recovery") alert
    else alert

unfoldable pub resolve_existing_alerts : ℕ → Text → List Alert → List Alert
unfolding auto_resolved
resolve_existing_alerts now device_id alerts = map (auto_resolved now device_id) alerts

-- The active alert of a device with a code.
abbrev pub is_open : Text → Text → Alert → Bool
is_open device_id code alert = of_device device_id alert && alert.code == code && is_active alert

-- What `_upsert_alert` writes into the alert that is open.
unfoldable pub refreshed : ℕ → Text → Check → Alert → Alert
refreshed now record_id check alert = record alert {
  severity = check.severity;
  title = check.title;
  message = check.message;
  updated_at = now;
  last_record_id = some record_id;
}

unfoldable pub new_alert : ℕ → Text → Check → Device → List Alert → Alert
unfolding next_numbered_id
new_alert now record_id check device alerts = record {
  id = next_numbered_id (txt "alert") (map (λ a. a.id) alerts);
  device_id = device.id;
  group_id = some device.group_id;
  severity = check.severity;
  status = txt "active";
  type = check.type;
  code = check.type;
  title = check.title;
  message = check.message;
  created_at = now;
  updated_at = now;
  resolved_at = none;
  resolved_by = none;
  last_record_id = some record_id;
}

-- `_upsert_alert`; code, severity, title and message are those of a check.
unfoldable pub upsert_alert : ℕ → Text → Device → Check → List Alert → List Alert
unfolding refreshed new_alert
upsert_alert now record_id device check alerts =
    if any (is_open device.id check.type) alerts
    then change_first (is_open device.id check.type) (refreshed now record_id check) alerts
    else new_alert now record_id check device alerts ∷ alerts

-- The loop over the checks; `clock` tells the time at each of them.
unfoldable pub upsert_checks : (ℕ → ℕ) → ℕ → Text → Device → List Check → List Alert → List Alert
unfolding upsert_alert
upsert_checks clock i record_id device [] alerts = alerts
upsert_checks clock i record_id device (check ∷ checks) alerts =
    upsert_checks clock (suc i) record_id device checks
      (upsert_alert (isoformat (clock i)) record_id device check alerts)

-- `if smart_alert: checks.append(smart_alert)`
abbrev pub append_check : Option Check → List Check → List Check
append_check none checks = checks
append_check (some check) checks = checks ++ (check ∷ [])

unfoldable pub create_threshold_alerts :
    (ℕ → ℕ) → Text → Device → Fields → Action (List Alert) (Unit {0})
unfolding evaluate_threshold_alerts evaluate_smart_alert upsert_checks
create_threshold_alerts clock record_id device payload = do
  checks ← lift (evaluate_threshold_alerts payload)
  smart_alert ← lift (evaluate_smart_alert payload)
  modify (upsert_checks clock 0 record_id device (append_check smart_alert checks))

-- The alert of a collection that failed.
unfoldable pub failure_check : Device → Record → Check
failure_check device item =
    let offline = item.status == txt "critical" in
    record {
      severity = if offline then txt "critical" else txt "warning";
      type = if offline then txt "device_offline" else txt "collection_failed";
      title = shown (str device.name) ∷ (if offline then lit " 离线" else lit " 采集异常") ∷ [];
      message = shown (str item.summary) ∷ [];
    }

-- `_reconcile_alerts`
unfoldable pub reconcile_alerts : (ℕ → ℕ) → ℕ → Device → Record → Action (List Alert) (Unit {0})
unfolding resolve_existing_alerts create_threshold_alerts failure_check upsert_alert
reconcile_alerts clock now device item = do
  modify (resolve_existing_alerts (isoformat now) device.id)
  if item.status == txt "healthy"
      then create_threshold_alerts clock item.id device item.payload
      else modify (upsert_alert (isoformat now) item.id device (failure_check device item))
