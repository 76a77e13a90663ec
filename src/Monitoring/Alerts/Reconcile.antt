-- ===== src/Monitoring/Alerts/Reconcile.antt =====
-- What `_reconcile_alerts` and `resolve_alert` of homeinfra/monitoring.py do to the alerts as a whole.
use homeinfra_control_center.Prelude.{
  subst, sym, ℕ, suc, ◌≤◌, ◌≡◌, ◌∙◌, refl, true, false, ◌&&◌, some, List, [], ◌∷◌, Text, txt, ◌==◌,
  ==_iff, ==_refl, any, keep, find, count, change_first, Bool-cases, Option-cases, inl, inr, arith,
  if◌then◌else◌,
}
use homeinfra_control_center.Prelude.Counting.{count-change_first_same, All-change_first}
use homeinfra_control_center.Errors.{Result-cases}
use homeinfra_control_center.Model.Json.{Fields}
use homeinfra_control_center.Model.State.{Alert, Device, Record, State, isoformat}
use homeinfra_control_center.Monitoring.Lookup.{count_metric, count_write}
use homeinfra_control_center.Monitoring.Values.{Check}
use homeinfra_control_center.Monitoring.Thresholds.{evaluate_threshold_alerts}
use homeinfra_control_center.Monitoring.Smart.{evaluate_smart_alert}
use homeinfra_control_center.Monitoring.Alerts.{
  is_active, of_device, has_alert_id, is_open, resolved, resolve_existing_alerts, refreshed,
  new_alert, upsert_alert, upsert_checks, append_check, create_threshold_alerts, reconcile_alerts,
  failure_check, resolve_alert_mutate,
}
use homeinfra_control_center.Monitoring.Alerts.Invariant.{
  AlertsValid, is_settled, resolve_existing_alerts-AlertsValid, resolve_existing_alerts-none,
  resolve_existing_alerts-others, upsert_alert-AlertsValid, resolved_not_active,
  resolved_is_resolved,
}

-- A property that one upsert keeps is kept by all of them, and by what raises before them.
module _ (P : List Alert → Type 0) (clock : ℕ → ℕ) (record_id : Text) (device : Device)
    (keeps : (now : ℕ) (check : Check) (xs : List Alert)
      → P xs
      → P (upsert_alert now record_id device check xs)) where
  upsert_checks-keeps :
      (checks : List Check) (i : ℕ) (xs : List Alert)
      → P xs
      → P (upsert_checks clock i record_id device checks xs)
  unfolding upsert_checks
  upsert_checks-keeps [] i xs h = h
  upsert_checks-keeps (check ∷ checks) i xs h =
      upsert_checks-keeps checks (suc i)
        (upsert_alert (isoformat (clock i)) record_id device check xs)
        (keeps (isoformat (clock i)) check xs h)

  create_threshold_alerts-keeps :
      (payload : Fields) (xs : List Alert)
      → P xs
      → P (create_threshold_alerts clock record_id device payload xs).1
  unfolding create_threshold_alerts
  create_threshold_alerts-keeps payload xs h =
      elim (Result-cases (evaluate_threshold_alerts payload)) [
        | inl (e, raised) ↦ rw raised h
        | inr (checks, evaluated) ↦ elim (Result-cases (evaluate_smart_alert payload)) [
          | inl (e, raised) ↦ rw (evaluated, raised) h
          | inr (smart, decided) ↦
              rw (evaluated, decided) (upsert_checks-keeps (append_check smart checks) 0 xs h)
        ]
      ]

  -- A property that the first loop and an upsert keep is kept by `_reconcile_alerts`.
  pub reconcile_alerts-keeps :
      (now : ℕ) (item : Record) (xs : List Alert)
      → item.id ≡ record_id
      → P (resolve_existing_alerts (isoformat now) device.id xs)
      → P (reconcile_alerts clock now device item xs).1
  unfolding reconcile_alerts
  reconcile_alerts-keeps now item xs same h = elim (Bool-cases (item.status == txt "healthy")) [
    | inl healthy ↦
        rw (healthy, same)
          (create_threshold_alerts-keeps item.payload
            (resolve_existing_alerts (isoformat now) device.id xs) h)
    | inr failed ↦
        rw (failed, same)
          (keeps (isoformat now) (failure_check device item)
            (resolve_existing_alerts (isoformat now) device.id xs) h)
  ]

-- Whatever a collection brought, also where the payload makes a check raise, the alerts stay
-- well-formed: unique ids, at most one active alert per device and code, and a time and an
-- actor on exactly the resolved ones.
pub reconcile_alerts-AlertsValid :
    (clock : ℕ → ℕ) (now : ℕ) (device : Device) (item : Record) (xs : List Alert)
    → AlertsValid xs
    → AlertsValid (reconcile_alerts clock now device item xs).1
reconcile_alerts-AlertsValid clock now device item xs h =
    reconcile_alerts-keeps AlertsValid clock item.id device
      (λ t check ys. upsert_alert-AlertsValid t item.id device check ys) now item xs refl
      (resolve_existing_alerts-AlertsValid (isoformat now) device.id xs h)

module _ (now : ℕ) (record_id : Text) (device : Device) (check : Check) (k : Text)
    (other : k == device.id ≡ false) where
  keep-refreshed :
      (xs : List Alert)
      → keep
          (of_device k)
          (change_first (is_open device.id check.type) (refreshed now record_id check) xs)
        ≡ keep (of_device k) xs
  unfolding refreshed
  keep-refreshed [] = refl
  keep-refreshed (a ∷ xs) = ground (
    arith,
    keep-refreshed xs,
    other,
    ==_iff a.device_id k,
    ==_iff a.device_id device.id,
    ==_iff k device.id,
  )

  upsert_alert-others :
      (xs : List Alert)
      → keep (of_device k) (upsert_alert now record_id device check xs) ≡ keep (of_device k) xs
  unfolding upsert_alert new_alert
  upsert_alert-others xs =
      ground (arith, keep-refreshed xs, other, ==_iff device.id k, ==_iff k device.id)

-- Reconciling the alerts of a device leaves the alerts of every other device as they were, in
-- their order.
pub reconcile_alerts-others :
    (clock : ℕ → ℕ) (now : ℕ) (device : Device) (item : Record) (k : Text) (xs : List Alert)
    → k == device.id ≡ false
    → keep (of_device k) (reconcile_alerts clock now device item xs).1 ≡ keep (of_device k) xs
reconcile_alerts-others clock now device item k xs other =
    reconcile_alerts-keeps (λ ys. keep (of_device k) ys ≡ keep (of_device k) xs) clock item.id
      device (λ t check ys h. upsert_alert-others t item.id device check k other ys ∙ h) now item xs
      refl (resolve_existing_alerts-others (isoformat now) device.id k other xs)

-- The alerts of a device that are active.
abbrev pub active_of : Text → List Alert → ℕ
active_of device_id alerts = count (λ a. of_device device_id a && is_active a) alerts

closed-any :
    (d code : Text) (xs : List Alert) → active_of d xs ≡ 0 → any (is_open d code) xs ≡ false
closed-any d code [] h = refl
closed-any d code (a ∷ xs) h = ground (arith, closed-any d code xs)

active_text : (txt "active" == txt "active") ≡ true
unfolding ◌==◌
active_text = refl

new_alert-active :
    (now : ℕ) (record_id : Text) (device : Device) (check : Check) (xs : List Alert)
    → (of_device device.id (new_alert now record_id check device xs)
        && is_active (new_alert now record_id check device xs))
      ≡ true
unfolding new_alert
new_alert-active now record_id device check xs = ground (arith, active_text, ==_refl device.id)

module _ (now : ℕ) (device : Device) (item : Record) (ys : List Alert) where
  abbrev failure_alert : Alert
  failure_alert = new_alert (isoformat now) item.id (failure_check device item) device ys

  failure_code :
      failure_alert.code
      ≡ (if item.status == txt "critical" then txt "device_offline" else txt "collection_failed")
  unfolding new_alert failure_check
  failure_code = refl

  failure_record : failure_alert.last_record_id ≡ some item.id
  unfolding new_alert
  failure_record = refl

-- After a collection that was not healthy, the device has exactly one active alert: a new one
-- in front of the list, with the code of the failure and the id of the record.
pub reconcile_alerts-failed :
    (clock : ℕ → ℕ) (now : ℕ) (device : Device) (item : Record) (xs : List Alert)
    → item.status == txt "healthy" ≡ false
    → (a : Alert) × (ys : List Alert) × ((reconcile_alerts clock now device item xs).1 ≡ a ∷ ys)
      × (active_of device.id (a ∷ ys) ≡ 1)
      × (a.code ≡ (
          if item.status == txt "critical" then txt "device_offline" else txt "collection_failed"))
      × (a.last_record_id ≡ some item.id)
unfolding reconcile_alerts upsert_alert
reconcile_alerts-failed clock now device item xs failed =
    let ys = resolve_existing_alerts (isoformat now) device.id xs in
    let check = failure_check device item in
    let quiet = resolve_existing_alerts-none (isoformat now) device.id xs in
    let a = new_alert (isoformat now) item.id check device ys in
    (
      a,
      ys,
      ground (arith, failed, closed-any device.id check.type ys quiet),
      ground (arith, quiet, new_alert-active (isoformat now) item.id device check ys),
      failure_code now device item ys,
      failure_record now device item ys,
    )

module _ (now : ℕ) (actor : Text) (x : Text) where
  resolved-count :
      (k c : Text) (xs : List Alert)
      → count (is_open k c) (change_first (has_alert_id x) (resolved now actor) xs)
        ≤ count (is_open k c) xs
  unfolding resolved
  resolved-count k c [] = omega arith
  resolved-count k c (a ∷ xs) = ground (arith, resolved_not_active, resolved-count k c xs)

  resolved-AlertsValid :
      (xs : List Alert)
      → AlertsValid xs
      → AlertsValid (change_first (has_alert_id x) (resolved now actor) xs)
  unfolding resolved
  resolved-AlertsValid xs h =
      let f = resolved now actor in
      record {
        ids = λ k. omega (
          arith,
          h.ids k,
          count-change_first_same (has_alert_id k) (has_alert_id x) f xs (λ a. refl),
        );
        single = λ k c. omega (arith, h.single k c, resolved-count k c xs);
        settled =
            All-change_first (λ a. is_settled a ≡ true) (has_alert_id x) f xs
              (λ a good _. ground (arith, resolved_not_active, resolved_is_resolved)) h.settled;
      }

-- Resolving an alert by hand keeps the alerts well-formed on every branch.
resolve_alert_mutate-AlertsValid :
    (now : ℕ) (alert_id actor : Text) (s : State)
    → AlertsValid s.alerts
    → AlertsValid (resolve_alert_mutate now alert_id actor s).1.alerts
unfolding count_write count_metric resolve_alert_mutate
resolve_alert_mutate-AlertsValid now alert_id actor s h =
    elim (Option-cases (find (has_alert_id alert_id) s.alerts)) [
      | inl absent ↦ rw absent h
      | inr (a, found) ↦ elim (Bool-cases (a.status == txt "resolved")) [
        | inl done ↦ rw (found, done) h
        | inr pending ↦
            let changed : (resolve_alert_mutate now alert_id actor s).1.alerts
                ≡ change_first (has_alert_id alert_id) (resolved (isoformat now) actor) s.alerts =
              ground arith in
            subst AlertsValid (sym changed)
              (resolved-AlertsValid (isoformat now) actor alert_id s.alerts h)
      ]
    ]
