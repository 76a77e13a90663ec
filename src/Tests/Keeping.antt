-- ===== src/Tests/Keeping.antt =====
-- The settings, the cleanup and the audit log on the samples.
use homeinfra_control_center.Prelude.{
  Text, ◌⊎◌, ◌+◌, length, ℕ, suc, ◌≡◌, refl, true, txt, arith, All, keep, count,
}
use homeinfra_control_center.Prelude.Int.{pos}
use homeinfra_control_center.Errors.{ok, err, validation_error}
use homeinfra_control_center.Model.Json.{int, obj, end, field}
use homeinfra_control_center.Model.State.{Alert, Record, AuditEntry}
use homeinfra_control_center.Samples.{home}
use homeinfra_control_center.Operations.{Deleted, any_protects, resolved_or_updated}
use homeinfra_control_center.Operations.Cleanup.{
  cleanup_keeps_active, cleanup_keeps_protected, cleanup_idempotent, cleanup_drops_expired, Within,
  recent_record, recent_log,
}
use homeinfra_control_center.Audit.{Event}
use homeinfra_control_center.Audit.Fresh.{AuditValid, has_entry_id, record_mutate-AuditValid}
use homeinfra_control_center.Prelude.{
  ◌==◌, is_space, strip, lower_char, lower, upper_char, upper, starts_with, contains, text_le,
}
use homeinfra_control_center.Ids.{
  is_digit, scan_int, unsigned, parse_int, after_last_dash, emit, format_05d, raise_highest,
  highest_of, next_numbered_id,
}
use homeinfra_control_center.Model.Json.{lookup, get_or, get, has, set}
use homeinfra_control_center.Model.Metrics.{increment, metric}
use homeinfra_control_center.Model.Store.{settle, sqlite_update, mock_update}
use homeinfra_control_center.Operations.{
  validate_collection_settings, update_collection_settings, days, days_at,
  validate_retention_settings, updated_retention, update_retention_settings, keep_timestamp,
  protects, keeps_record, keeps_log, keeps_alert, cleaned, cleanup_retention_mutate,
}
use homeinfra_control_center.Audit.{audit_id, new_entry, push_entry, record_mutate, list_recent}
use homeinfra_control_center.Model.Store.{run_statements, transaction}
use homeinfra_control_center.Model.Store.Tables.{
  execute, persist_state_to_tables, normalize_loaded_device_credentials, build_state_from_tables,
  sqlite_database,
}
use homeinfra_control_center.Operations.{is_retained}

-- What the tests run.
unfoldable program : Unit {0}
unfolding is_retained execute persist_state_to_tables normalize_loaded_device_credentials
    build_state_from_tables sqlite_database run_statements transaction ◌==◌ is_space strip
    lower_char lower upper_char upper starts_with contains text_le is_digit scan_int unsigned
    parse_int after_last_dash emit format_05d raise_highest highest_of next_numbered_id lookup
    get_or get has set increment metric settle sqlite_update mock_update
    validate_collection_settings update_collection_settings days days_at validate_retention_settings
    updated_retention update_retention_settings keep_timestamp protects keeps_record keeps_log
    keeps_alert cleaned cleanup_retention_mutate audit_id new_entry push_entry record_mutate
    list_recent
program = tt

-- A day and a half after the samples, in microseconds.
abbrev late : ℕ
late = 130_000_000_000

-- The log is dropped, the record is protected by its alert.
late_cleanup :
    (cleanup_retention_mutate late home).0
    ≡ ok (record {
      retention_settings = home.retention_settings;
      collection_records = 0;
      audit_logs = 1;
      resolved_alerts = 0;
      active_alerts_preserved = 1;
    })
unfolding program
late_cleanup = refl

cleanup_keeps_active_example :
    (keep (λ (a : Alert). a.status == txt "active") (cleanup_retention_mutate late home).1.alerts
      ≡ keep (λ (a : Alert). a.status == txt "active") home.alerts)
    × ((d : Deleted)
        → (cleanup_retention_mutate late home).0 ≡ ok d
        → d.active_alerts_preserved ≡ count (λ (a : Alert). a.status == txt "active") home.alerts)
cleanup_keeps_active_example = cleanup_keeps_active late home

nas_protected : any_protects (txt "col-00001") home.alerts ≡ true
unfolding program
nas_protected = refl

cleanup_keeps_protected_example :
    count
      (λ (r : Record). r.id == txt "col-00001")
      (cleanup_retention_mutate late home).1.collection_records
    ≡ count (λ (r : Record). r.id == txt "col-00001") home.collection_records
cleanup_keeps_protected_example = cleanup_keeps_protected late home (txt "col-00001") nas_protected

cleanup_idempotent_example :
    ((cleanup_retention_mutate late (cleaned late home)).1.collection_records
      ≡ (cleanup_retention_mutate late home).1.collection_records)
    × ((cleanup_retention_mutate late (cleaned late home)).1.audit_logs
        ≡ (cleanup_retention_mutate late home).1.audit_logs)
    × ((cleanup_retention_mutate late (cleaned late home)).1.alerts
        ≡ (cleanup_retention_mutate late home).1.alerts)
cleanup_idempotent_example = cleanup_idempotent late home

cleanup_drops_expired_example :
    All
      (λ (r : Record). (any_protects r.id home.alerts ≡ true) ⊎ Within late home 1 r.collected_at)
      (cleanup_retention_mutate late home).1.collection_records
    × All
        (λ (a : Alert).
          (a.status == txt "active" ≡ true) ⊎ Within late home 1 (resolved_or_updated a))
        (cleanup_retention_mutate late home).1.alerts
    × All
        (λ (e : AuditEntry). Within late home 1 e.timestamp)
        (cleanup_retention_mutate late home).1.audit_logs
    × ((k : Text)
        → count
            (recent_record late home k)
            (cleanup_retention_mutate late home).1.collection_records
          ≡ count (recent_record late home k) home.collection_records)
    × ((k : Text)
        → count (recent_log late home k) (cleanup_retention_mutate late home).1.audit_logs
          ≡ count (recent_log late home k) home.audit_logs)
    × (d : Deleted) × ((cleanup_retention_mutate late home).0 ≡ ok d)
    × (d.collection_records + length (cleanup_retention_mutate late home).1.collection_records ≡ 1)
    × (d.audit_logs + length (cleanup_retention_mutate late home).1.audit_logs ≡ 1)
    × (d.resolved_alerts + length (cleanup_retention_mutate late home).1.alerts ≡ 1)
cleanup_drops_expired_example = cleanup_drops_expired late home

home-AuditValid : AuditValid home
unfolding program
home-AuditValid = record {
  total = 1;
  counted = refl;
  bounded = omega arith;
  ids = λ k. ground arith;
  numbered = ((1, omega arith, refl), tt);
}

abbrev sign_out : Event
sign_out = record {
  actor = txt "user:root";
  role = txt "admin";
  action = txt "logout";
  resource = txt "session";
  outcome = txt "success";
  request_id = txt "r2";
  details = end;
}

record_mutate-AuditValid_example :
    AuditValid (record_mutate 20_000_000 sign_out home).1
    × (count
          (has_entry_id (new_entry 20_000_000 (suc home-AuditValid.total) sign_out).id)
          home.audit_logs
        ≡ 0)
record_mutate-AuditValid_example = record_mutate-AuditValid 20_000_000 sign_out home home-AuditValid

-- The limits on the settings.
too_short :
    validate_collection_settings
      (obj (field (txt "default_collection_interval") (int (pos 29)) end))
    ≡ err (validation_error "default_collection_interval 必须是不小于 30 的整数")
unfolding program
too_short = refl

too_long :
    validate_retention_settings (obj (field (txt "audit_log_days") (int (pos 3651)) end))
    ≡ err (validation_error "{} 必须是 1-3650 之间的整数")
unfolding program
too_long = refl
