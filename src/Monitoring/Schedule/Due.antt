-- ===== src/Monitoring/Schedule/Due.antt =====
-- Which devices a scheduled run of homeinfra/monitoring.py collects, and what the run keeps.
use homeinfra_control_center.Prelude.{
  ℕ, suc, ◌+◌, ◌*◌, ◌≤◌, ◌<◌, max, ◌≡◌, refl, Bool, true, false, List, [], ◌∷◌, Text, txt, ◌==◌,
  arith,
}
use homeinfra_control_center.Prelude.Int.{ℤ, pos, negsuc}
use homeinfra_control_center.Errors.{Result, ok, err, type_error}
use homeinfra_control_center.Effects.{Action}
use homeinfra_control_center.Model.Store.{Database}
use homeinfra_control_center.Model.Store.Tables.{Sql, sqlite_database}
use homeinfra_control_center.Model.State.{Device, State, from_isoformat, isoformat}
use homeinfra_control_center.Monitoring.Collections.{
  Runtime, configured, Source, Outcome, Collected, after_failure, after_success, collect_device,
}
use homeinfra_control_center.Monitoring.Collections.Invariant.{
  CollectionsValid, collect_device-CollectionsValid,
}
use homeinfra_control_center.Monitoring.Schedule.{
  Parsed, unparsed, naive, aware, parse_last_seen, effective_interval, interval_elapsed, is_due,
  visit, visit_devices, Times, run_scheduled_collection,
}

module _ (P : State → Type 0) (due : Device → Result Bool)
    (collect : Device → Action State Collected)
    (keeps : (d : Device) (s : State) → P s → P (collect d s).1) where
  collected_keeps :
      (f g : Action State ℕ)
      → ((t : State) → P t → P (f t).1)
      → ((t : State) → P t → P (g t).1)
      → (o : Result Collected × State) → P o.1
      → P (visit (ok true) (λ t. o) f g o.1).1
  unfolding visit
  collected_keeps f g kf kg (ok c, t) h = kf t h
  collected_keeps f g kf kg (err e, t) h = kg t h

  visit-keeps :
      (r : Result Bool) (m : Action State Collected) (f g : Action State ℕ) (s : State)
      → ((t : State) → P t → P (m t).1)
      → ((t : State) → P t → P (f t).1)
      → ((t : State) → P t → P (g t).1)
      → P s
      → P (visit r m f g s).1
  unfolding visit
  visit-keeps (err e) m f g s km kf kg h = h
  visit-keeps (ok false) m f g s km kf kg h = kg s h
  visit-keeps (ok true) m f g s km kf kg h = collected_keeps f g kf kg (m s) (km s h)

  visit_devices-keeps :
      (devices : List Device) (n : ℕ) (s : State)
      → P s
      → P (visit_devices due collect devices n s).1
  unfolding visit_devices
  visit_devices-keeps [] n s h = h
  visit_devices-keeps (d ∷ devices) n s h =
      visit-keeps (due d) (collect d) (visit_devices due collect devices (suc n))
        (visit_devices due collect devices n) s (keeps d) (visit_devices-keeps devices (suc n))
        (visit_devices-keeps devices n) h

-- A scheduled run keeps at most 5000 records with unique ids and well-formed alerts in the
-- tables, whichever of its collections answer, raise a CollectorError or raise another
-- exception, and whichever statements SQLite refuses.
pub run_scheduled_collection-CollectionsValid :
    (refuses : Sql → State → Bool) (parse : Text → Parsed) (runtime : Runtime)
    (times : Text → Times) (now timeout : ℕ) (s : State)
    → CollectionsValid s
    → CollectionsValid
        (run_scheduled_collection (sqlite_database refuses) parse runtime times now timeout s).1
unfolding run_scheduled_collection
run_scheduled_collection-CollectionsValid refuses parse runtime times now timeout s h =
    visit_devices-keeps CollectionsValid (is_due parse runtime now)
      (λ d.
        collect_device (sqlite_database refuses) runtime (times d.id).checked_at
          (times d.id).applied_at (times d.id).reconciled_at d.id timeout (txt "scheduled")
          (txt "device_scheduled_total"))
      (λ d t.
        collect_device-CollectionsValid refuses runtime (times d.id).checked_at
          (times d.id).applied_at (times d.id).reconciled_at d.id timeout (txt "scheduled")
          (txt "device_scheduled_total") t)
      s.devices 0 s h

-- The interval of a device is never taken as less than 30 seconds.
effective_interval-min : (z : ℤ) → 30 ≤ effective_interval z
unfolding effective_interval
effective_interval-min (pos n) = ground arith
effective_interval-min (negsuc n) = omega arith

recent :
    (later i seen : ℕ)
    → later < seen + i * 1000000
    → interval_elapsed later i (aware seen) ≡ ok false
unfolding interval_elapsed
recent later i seen soon = ground arith

elapsed_later :
    (now later i : ℕ) (p : Parsed)
    → now ≤ later
    → interval_elapsed now i p ≡ ok true
    → interval_elapsed later i p ≡ ok true
unfolding interval_elapsed
elapsed_later now later i unparsed after h = refl
elapsed_later now later i naive after h = ground arith
elapsed_later now later i (aware seen) after h = ground arith

offline_enabled : (txt "offline" == txt "disabled") ≡ false
unfolding ◌==◌
offline_enabled = refl

warning_enabled : (txt "warning" == txt "disabled") ≡ false
unfolding ◌==◌
warning_enabled = refl

after_failure-keeps :
    (at : ℕ) (status : Text) (d : Device)
    → ((after_failure at status d).enabled ≡ d.enabled)
      × ((after_failure at status d).collection_interval ≡ d.collection_interval)
      × ((after_failure at status d).last_seen ≡ d.last_seen)
unfolding after_failure
after_failure-keeps at status d = (ground arith, ground arith, ground arith)

after_failure-enabled :
    (at : ℕ) (status : Text) (d : Device)
    → status == txt "disabled" ≡ false
    → (after_failure at status d).status == txt "disabled" ≡ false
unfolding after_failure
after_failure-enabled at status d other = ground (arith, offline_enabled, warning_enabled)

module _ (parse : Text → Parsed) (source : Source) (run : Device → ℕ → Text → Outcome) where
  abbrev due : ℕ → Device → Result Bool
  due = is_due parse (configured source run)

  -- After a collection that succeeded, a device is not due before its interval, and never
  -- before 30 seconds, have gone by since the second it was seen in.
  pub not_due-after_success :
      (now later : ℕ) (status : Text) (d : Device)
      → later
        < from_isoformat (isoformat now)
          + max 30 (effective_interval d.collection_interval) * 1000000
      → due later (after_success (isoformat now) status d) ≡ ok false
  unfolding is_due parse_last_seen after_success
  not_due-after_success now later status d soon =
      let i = effective_interval d.collection_interval in
      let quiet =
        recent later i (from_isoformat (isoformat now))
          (omega (arith, effective_interval-min d.collection_interval, soon)) in
      ground (arith, quiet)

  -- A device that was due stays due at every later time after a failure of any status but
  -- `disabled`: a failure does not start the interval anew.
  pub due-after_failure :
      (now at later : ℕ) (status : Text) (d : Device)
      → due now d ≡ ok true
      → now ≤ later
      → status == txt "disabled" ≡ false
      → due later (after_failure at status d) ≡ ok true
  unfolding is_due
  due-after_failure now at later status d h after other =
      let (enabled, interval, seen) = after_failure-keeps at status d in
      ground (
        arith,
        enabled,
        interval,
        seen,
        after_failure-enabled at status d other,
        elapsed_later now later (effective_interval d.collection_interval)
            (parse_last_seen parse d.last_seen) after,
      )

  -- If the first device is enabled, is not disabled, and has a last contact that was given
  -- without a zone, a scheduled run with a configured collector ends with a TypeError and
  -- collects nothing.
  pub naive_last_seen_blocks :
      (database : Database State) (times : Text → Times) (now timeout : ℕ) (s : State) (d : Device)
      (devices : List Device)
      → s.devices ≡ d ∷ devices
      → d.enabled ≡ true
      → d.status == txt "disabled" ≡ false
      → parse_last_seen parse d.last_seen ≡ naive
      → run_scheduled_collection database parse (configured source run) times now timeout s
        ≡ (err type_error, s)
  unfolding run_scheduled_collection is_due visit_devices visit interval_elapsed
  naive_last_seen_blocks database times now timeout s d devices first enabled on zoneless =
      rw first (ground (arith, zoneless))
