-- ===== src/Operations.antt =====
-- homeinfra/operations.py: the settings of collection and retention, and the cleanup.
pub mod Cleanup
use homeinfra_control_center.Prelude.{
  ℕ, ◌+◌, ◌-◌, ◌*◌, Bool, true, false, ◌&&◌, ◌||◌, not, Option, none, some, List, [], ◌∷◌, Text,
  String, txt, ◌==◌, mem, is_empty, keep, leb, length, count, if◌then◌else◌,
}
use homeinfra_control_center.Prelude.Int.{ℤ, pos, negsuc, ltb_ℤ, leb_ℤ}
use homeinfra_control_center.Errors.{Result, ok, err, validation_error, type_error}
use homeinfra_control_center.Errors.Checked.{◌>>=◌, ◌>>◌, check}
use homeinfra_control_center.Effects.{Action}
use homeinfra_control_center.Model.Json.{Value, bool, int, obj, Fields, get, has}
use homeinfra_control_center.Monitoring.Schedule.{Parsed, unparsed, naive, aware}
use homeinfra_control_center.Model.State.{
  Record, Alert, AuditEntry, Retention, State, Stamp, written, given, from_isoformat,
}

-- `isinstance(v, int)`, which a Boolean is too.
abbrev pub integer : String → Value → Result ℤ
integer message (int z) = ok z
integer message (bool true) = ok (pos 1)
integer message (bool false) = ok (pos 0)
integer message _ = err (validation_error message)

-- `update_collection_settings`, up to the store.
unfoldable pub validate_collection_settings : Value → Result ℤ
unfolding get has
validate_collection_settings (obj payload) =
    if has (txt "default_collection_interval") payload
    then (do
      z ←
          integer "default_collection_interval 必须是不小于 30 的整数"
            (get (txt "default_collection_interval") payload)
      check (leb_ℤ (pos 30) z) (validation_error "default_collection_interval 必须是不小于 30 的整数")
      ok z)
    else err (validation_error "采集设置更新至少需要一个字段")
validate_collection_settings _ = err (validation_error "采集设置请求体必须是对象")

unfoldable pub update_collection_settings : Value → Action State ℤ
unfolding validate_collection_settings
update_collection_settings payload state = elim (validate_collection_settings payload) [
  | err e ↦ (err e, state)
  | ok z ↦ (ok z, record state { default_collection_interval = z })
]

-- The dictionary `validated`: `none` is a missing key.
pub record RetentionFields : Type 0 where
  pub collection_history_days : Option ℕ
  pub audit_log_days : Option ℕ
  pub resolved_alert_days : Option ℕ

-- A number of days between 1 and 3650.
unfoldable pub days : Value → Result ℕ
days v = elim (integer "{} 必须是 1-3650 之间的整数" v) [
  | err e ↦ err e
  | ok (negsuc n) ↦ err (validation_error "{} 必须是 1-3650 之间的整数")
  | ok (pos n) ↦
      if leb 1 n && leb n 3650 then ok n else err (validation_error "{} 必须是 1-3650 之间的整数")
]

-- `if field not in payload: continue`
unfoldable pub days_at : Text → Fields → Result (Option ℕ)
unfolding has get days
days_at key payload =
    if has key payload then (do n ← days (get key payload); ok (some n)) else ok none

abbrev pub is_missing {ℓ} : {A : Type ℓ} → Option A → Bool
is_missing none = true
is_missing (some a) = false

unfoldable pub validate_retention_settings : Value → Result RetentionFields
unfolding days_at
validate_retention_settings (obj payload) = do
  history ← days_at (txt "collection_history_days") payload
  audit ← days_at (txt "audit_log_days") payload
  alerts ← days_at (txt "resolved_alert_days") payload
  check (not (is_missing history && is_missing audit && is_missing alerts))
      (validation_error "保留策略更新至少需要一个字段")
  ok (record {
    collection_history_days = history;
    audit_log_days = audit;
    resolved_alert_days = alerts;
  })
validate_retention_settings _ = err (validation_error "保留策略请求体必须是对象")

abbrev pub default_to : Option ℕ → ℕ → ℕ
default_to none n = n
default_to (some m) n = m

-- `state["retention_settings"].update(validated)`
unfoldable pub updated_retention : RetentionFields → Retention → Retention
updated_retention f r = record {
  collection_history_days = default_to f.collection_history_days r.collection_history_days;
  audit_log_days = default_to f.audit_log_days r.audit_log_days;
  resolved_alert_days = default_to f.resolved_alert_days r.resolved_alert_days;
}

unfoldable pub update_retention_settings : Value → Action State Retention
unfolding validate_retention_settings updated_retention
update_retention_settings payload state = elim (validate_retention_settings payload) [
  | err e ↦ (err e, state)
  | ok f ↦ (
    ok (updated_retention f state.retention_settings),
    record state { retention_settings = updated_retention f state.retention_settings },
  )
]

-- A day, in microseconds.
abbrev pub day : ℕ
day = 86_400_000_000

-- `now - timedelta(days=n) <= value`
abbrev pub keep_value : ℕ → ℕ → Parsed → Result Bool
keep_value now n unparsed = ok true
keep_value now n naive = err type_error
keep_value now n (aware value) = ok (leb now (value + n * day))

-- `_keep_timestamp(raw, now - timedelta(days=n))`: a time that is missing, empty or no time is kept,
-- and one without a zone cannot be compared.
unfoldable pub keep_timestamp : (Text → Parsed) → ℕ → ℕ → Option Stamp → Result Bool
keep_timestamp parse now n none = ok true
keep_timestamp parse now n (some (given [])) = ok true
keep_timestamp parse now n (some (given (c ∷ s))) = keep_value now n (parse (c ∷ s))
keep_timestamp parse now n (some (written stored)) =
    keep_value now n (aware (from_isoformat stored))

-- What it comes to on the times of the rows, which `isoformat` wrote: none of them is missing.
unfoldable pub is_retained : ℕ → ℕ → ℕ → Bool
is_retained now n stored = leb now (from_isoformat stored + n * day)

-- Active alerts that point to a record protect it.
unfoldable pub protects : Text → Alert → Bool
protects record_id alert = elim alert.last_record_id [
  | none ↦ false
  | some id ↦ alert.status == txt "active" && not (is_empty id) && id == record_id
]

abbrev pub any_protects : Text → List Alert → Bool
any_protects record_id [] = false
any_protects record_id (alert ∷ alerts) = protects record_id alert || any_protects record_id alerts

unfoldable pub keeps_record : ℕ → State → Record → Bool
unfolding protects is_retained
keeps_record now state item =
    any_protects item.id state.alerts
    || is_retained now state.retention_settings.collection_history_days item.collected_at

unfoldable pub keeps_log : ℕ → State → AuditEntry → Bool
unfolding is_retained
keeps_log now state entry = is_retained now state.retention_settings.audit_log_days entry.timestamp

-- `alert.get("resolved_at") or alert.get("updated_at") or …`; `updated_at` is never empty.
abbrev pub resolved_or_updated : Alert → ℕ
resolved_or_updated alert = elim alert.resolved_at [ none ↦ alert.updated_at | some t ↦ t ]

unfoldable pub keeps_alert : ℕ → State → Alert → Bool
unfolding is_retained
keeps_alert now state alert =
    alert.status == txt "active"
    || is_retained now state.retention_settings.resolved_alert_days (resolved_or_updated alert)

-- What a cleanup answers.
pub record Deleted : Type 0 where
  pub retention_settings : Retention
  pub collection_records : ℕ
  pub audit_logs : ℕ
  pub resolved_alerts : ℕ
  pub active_alerts_preserved : ℕ

unfoldable pub cleaned : ℕ → State → State
unfolding keeps_record keeps_log keeps_alert
cleaned now state = record state {
  collection_records = keep (keeps_record now state) state.collection_records;
  audit_logs = keep (keeps_log now state) state.audit_logs;
  alerts = keep (keeps_alert now state) state.alerts;
}

-- The mutator of `cleanup_retention`.
unfoldable pub cleanup_retention_mutate : ℕ → Action State Deleted
unfolding cleaned
cleanup_retention_mutate now state =
    let after = cleaned now state in
    (
      ok (record {
        retention_settings = state.retention_settings;
        collection_records = length state.collection_records - length after.collection_records;
        audit_logs = length state.audit_logs - length after.audit_logs;
        resolved_alerts = length state.alerts - length after.alerts;
        active_alerts_preserved = count (λ a. a.status == txt "active") after.alerts;
      }),
      after,
    )
