-- ===== src/Operations/Cleanup.antt =====
-- What `cleanup_retention` of homeinfra/operations.py keeps and drops.
use homeinfra_control_center.Prelude.{
  ℕ, ◌+◌, ◌-◌, ◌*◌, ◌≤◌, ◌⊎◌, ◌≡◌, refl, ◌&&◌, leb, length, sym, subst, Bool, true, some, List, [],
  ◌∷◌, Text, txt, ◌==◌, ==_iff, keep, count, All, Bool-cases, inl, inr, arith,
}
use homeinfra_control_center.Prelude.Counting.{count-keep_same, All-weaken, length-keep}
use homeinfra_control_center.Errors.{ok}
use homeinfra_control_center.Monitoring.Schedule.{Parsed}
use homeinfra_control_center.Model.State.{written, from_isoformat, Record, Alert, AuditEntry, State}
use homeinfra_control_center.Operations.{
  protects, any_protects, keeps_record, keeps_log, keeps_alert, is_retained, keep_timestamp,
  resolved_or_updated, cleaned, cleanup_retention_mutate, Deleted,
}

abbrev pub is_active : Alert → Bool
is_active alert = alert.status == txt "active"

-- A filter that a second, weaker test does not see.
module _ {ℓ} {A : Type ℓ} (p q : A → Bool) where
  keep-keep : (xs : List A) → ((x : A) → p x ≡ true → q x ≡ true) → keep p (keep q xs) ≡ keep p xs
  keep-keep [] h = refl
  keep-keep (x ∷ xs) h = ground (arith, h x, keep-keep xs h)

  keep_again : (xs : List A) → ((x : A) → q x ≡ p x) → keep q (keep p xs) ≡ keep p xs
  keep_again [] h = refl
  keep_again (x ∷ xs) h = ground (arith, h x, keep_again xs h)

module _ {ℓ} {A : Type ℓ} (p : A → Bool) where
  kept-All : (xs : List A) → All (λ x. p x ≡ true) (keep p xs)
  kept-All [] = tt
  kept-All (x ∷ xs) = elim (Bool-cases (p x)) [
    | inl kept ↦ rw kept (kept, kept-All xs)
    | inr dropped ↦ rw dropped (kept-All xs)
  ]

any_protects-keep :
    (k : Text) (q : Alert → Bool) (xs : List Alert)
    → ((a : Alert) → is_active a ≡ true → q a ≡ true)
    → any_protects k (keep q xs) ≡ any_protects k xs
unfolding protects
any_protects-keep k q [] h = refl
any_protects-keep k q (a ∷ xs) h = ground (arith, h a, any_protects-keep k q xs h)

-- On a time that `isoformat` wrote, `_keep_timestamp` is the comparison.
keep_timestamp-written :
    (parse : Text → Parsed) (now n stored : ℕ)
    → keep_timestamp parse now n (some (written stored)) ≡ ok (is_retained now n stored)
unfolding keep_timestamp is_retained
keep_timestamp-written parse now n stored = refl

module _ (now : ℕ) (s : State) where
  -- A record of the id, or a log entry, that is within the retention.
  abbrev pub recent_record : Text → Record → Bool
  recent_record k r =
      r.id == k
      && leb now (
          from_isoformat r.collected_at
          + s.retention_settings.collection_history_days * 86_400_000_000)

  abbrev pub recent_log : Text → AuditEntry → Bool
  recent_log k e =
      e.id == k
      && leb now (from_isoformat e.timestamp + s.retention_settings.audit_log_days * 86_400_000_000)

  active_kept : (a : Alert) → is_active a ≡ true → keeps_alert now s a ≡ true
  unfolding keeps_alert
  active_kept a h = ground arith

  -- A cleanup loses no active alert, and the number of preserved alerts that it reports is
  -- theirs.
  pub cleanup_keeps_active :
      (keep is_active (cleanup_retention_mutate now s).1.alerts ≡ keep is_active s.alerts)
      × ((d : Deleted)
          → (cleanup_retention_mutate now s).0 ≡ ok d
          → d.active_alerts_preserved ≡ count is_active s.alerts)
  unfolding cleanup_retention_mutate cleaned
  cleanup_keeps_active = (
    keep-keep is_active (keeps_alert now s) s.alerts active_kept,
    λ d h. ground (arith, count-keep_same is_active (keeps_alert now s) s.alerts active_kept),
  )

  -- Every record that an active alert points to survives a cleanup, however old it is.
  pub cleanup_keeps_protected :
      (record_id : Text)
      → any_protects record_id s.alerts ≡ true
      → count
          (λ (r : Record). r.id == record_id)
          (cleanup_retention_mutate now s).1.collection_records
        ≡ count (λ (r : Record). r.id == record_id) s.collection_records
  unfolding cleanup_retention_mutate cleaned keeps_record
  cleanup_keeps_protected record_id protected =
      count-keep_same (λ (r : Record). r.id == record_id) (keeps_record now s) s.collection_records
        (λ r same. ground (
          arith,
          subst (λ i. any_protects i s.alerts ≡ true) (sym ((==_iff r.id record_id).0 same))
              protected,
        ))

  alerts_again : (a : Alert) → keeps_alert now (cleaned now s) a ≡ keeps_alert now s a
  unfolding keeps_alert cleaned
  alerts_again a = refl

  logs_again : (e : AuditEntry) → keeps_log now (cleaned now s) e ≡ keeps_log now s e
  unfolding keeps_log cleaned
  logs_again e = refl

  records_again : (r : Record) → keeps_record now (cleaned now s) r ≡ keeps_record now s r
  unfolding keeps_record cleaned
  records_again r = ground (arith, any_protects-keep r.id (keeps_alert now s) s.alerts active_kept)

  -- A second cleanup at the same time drops nothing more from the records, the logs and the
  -- alerts.
  pub cleanup_idempotent :
      ((cleanup_retention_mutate now (cleaned now s)).1.collection_records
        ≡ (cleanup_retention_mutate now s).1.collection_records)
      × ((cleanup_retention_mutate now (cleaned now s)).1.audit_logs
          ≡ (cleanup_retention_mutate now s).1.audit_logs)
      × ((cleanup_retention_mutate now (cleaned now s)).1.alerts
          ≡ (cleanup_retention_mutate now s).1.alerts)
  unfolding cleanup_retention_mutate cleaned
  cleanup_idempotent = (
    keep_again (keeps_record now s) (keeps_record now (cleaned now s)) s.collection_records
        records_again,
    keep_again (keeps_log now s) (keeps_log now (cleaned now s)) s.audit_logs logs_again,
    keep_again (keeps_alert now s) (keeps_alert now (cleaned now s)) s.alerts alerts_again,
  )

  abbrev pub Within : ℕ → ℕ → Type 0
  Within n stored = now ≤ from_isoformat stored + n * 86_400_000_000

  retained-Within : (n stored : ℕ) → is_retained now n stored ≡ true → Within n stored
  unfolding is_retained
  retained-Within n stored h = ground arith

  record_left :
      (r : Record)
      → keeps_record now s r ≡ true
      → (any_protects r.id s.alerts ≡ true)
        ⊎ Within s.retention_settings.collection_history_days r.collected_at
  unfolding keeps_record
  record_left r h = elim (Bool-cases (any_protects r.id s.alerts)) [
    | inl protected ↦ inl protected
    | inr open_record ↦
        inr (
          retained-Within s.retention_settings.collection_history_days r.collected_at
            (ground arith))
  ]

  alert_left :
      (a : Alert)
      → keeps_alert now s a ≡ true
      → (is_active a ≡ true)
        ⊎ Within s.retention_settings.resolved_alert_days (resolved_or_updated a)
  unfolding keeps_alert
  alert_left a h = elim (Bool-cases (is_active a)) [
    | inl active ↦ inl active
    | inr resolved ↦ inr (
        retained-Within s.retention_settings.resolved_alert_days (resolved_or_updated a)
          (ground arith))
  ]

  log_left :
      (e : AuditEntry)
      → keeps_log now s e ≡ true
      → Within s.retention_settings.audit_log_days e.timestamp
  unfolding keeps_log
  log_left e h = retained-Within s.retention_settings.audit_log_days e.timestamp h

  -- After a cleanup every record is pointed to by an active alert or at most the days of the
  -- retention old, every alert is active or within its days, and every log entry is within its
  -- days; no record and no log entry that is within its days is lost; and the numbers that it
  -- reports as deleted, with what is left, make up what there was.
  pub cleanup_drops_expired :
      All
        (λ r.
          (any_protects r.id s.alerts ≡ true)
          ⊎ Within s.retention_settings.collection_history_days r.collected_at)
        (cleanup_retention_mutate now s).1.collection_records
      × All
          (λ a.
            (is_active a ≡ true)
            ⊎ Within s.retention_settings.resolved_alert_days (resolved_or_updated a))
          (cleanup_retention_mutate now s).1.alerts
      × All
          (λ e. Within s.retention_settings.audit_log_days e.timestamp)
          (cleanup_retention_mutate now s).1.audit_logs
      × ((k : Text)
          → count (recent_record k) (cleanup_retention_mutate now s).1.collection_records
            ≡ count (recent_record k) s.collection_records)
      × ((k : Text)
          → count (recent_log k) (cleanup_retention_mutate now s).1.audit_logs
            ≡ count (recent_log k) s.audit_logs)
      × (d : Deleted) × ((cleanup_retention_mutate now s).0 ≡ ok d)
      × (d.collection_records + length (cleanup_retention_mutate now s).1.collection_records
          ≡ length s.collection_records)
      × (d.audit_logs + length (cleanup_retention_mutate now s).1.audit_logs ≡ length s.audit_logs)
      × (d.resolved_alerts + length (cleanup_retention_mutate now s).1.alerts ≡ length s.alerts)
  unfolding cleanup_retention_mutate cleaned keeps_record keeps_log is_retained
  cleanup_drops_expired = (
    All-weaken (λ (r : Record). keeps_record now s r ≡ true)
        (λ r.
          (any_protects r.id s.alerts ≡ true)
          ⊎ Within s.retention_settings.collection_history_days r.collected_at)
        (keep (keeps_record now s) s.collection_records) record_left
        (kept-All (keeps_record now s) s.collection_records),
    All-weaken (λ (a : Alert). keeps_alert now s a ≡ true)
        (λ a.
          (is_active a ≡ true)
          ⊎ Within s.retention_settings.resolved_alert_days (resolved_or_updated a))
        (keep (keeps_alert now s) s.alerts) alert_left (kept-All (keeps_alert now s) s.alerts),
    All-weaken (λ (e : AuditEntry). keeps_log now s e ≡ true)
        (λ e. Within s.retention_settings.audit_log_days e.timestamp)
        (keep (keeps_log now s) s.audit_logs) log_left (kept-All (keeps_log now s) s.audit_logs),
    λ k.
        count-keep_same (recent_record k) (keeps_record now s) s.collection_records
          (λ r h. ground arith),
    λ k. count-keep_same (recent_log k) (keeps_log now s) s.audit_logs (λ e h. ground arith),
    record {
      retention_settings = s.retention_settings;
      collection_records =
          length s.collection_records - length (keep (keeps_record now s) s.collection_records);
      audit_logs = length s.audit_logs - length (keep (keeps_log now s) s.audit_logs);
      resolved_alerts = length s.alerts - length (keep (keeps_alert now s) s.alerts);
      active_alerts_preserved =
          count (λ (a : Alert). a.status == txt "active") (keep (keeps_alert now s) s.alerts);
    },
    refl,
    omega (arith, length-keep (keeps_record now s) s.collection_records),
    omega (arith, length-keep (keeps_log now s) s.audit_logs),
    omega (arith, length-keep (keeps_alert now s) s.alerts),
  )
