-- ===== src/Monitoring/Schedule.antt =====
-- `run_scheduled_collection` of homeinfra/monitoring.py, which the loop of homeinfra/scheduler.py
-- calls at each tick, and `__init__` of that file. The child is about which devices are due.
pub mod Due
use homeinfra_control_center.Prelude.{
  ℕ, suc, ◌-◌, ◌*◌, max, Bool, true, false, ◌&&◌, ◌||◌, not, Option, none, some, List, [], ◌∷◌,
  Text, txt, ◌==◌, ltb, nat_eq, if◌then◌else◌,
}
use homeinfra_control_center.Prelude.Int.{ℤ, pos, negsuc}
use homeinfra_control_center.Errors.{Error, Result, ok, err, type_error}
use homeinfra_control_center.Effects.{Action}
use homeinfra_control_center.Model.Store.{Database}
use homeinfra_control_center.Model.State.{Device, State, Stamp, written, given, from_isoformat}
use homeinfra_control_center.Monitoring.Collections.{
  Runtime, unconfigured, disabled, configured, Collected, collect_device,
}

-- What `datetime.fromisoformat` makes of a text: a ValueError, a time without a zone, or a time.
pub data Parsed : Type 0 where
  unparsed : Parsed
  naive : Parsed
  aware : ℕ → Parsed

-- `_parse_last_seen`; the parameter parses the texts that came with a request.
unfoldable pub parse_last_seen : (Text → Parsed) → Option Stamp → Parsed
parse_last_seen parse none = unparsed
parse_last_seen parse (some (written t)) = aware (from_isoformat t)
parse_last_seen parse (some (given [])) = unparsed
parse_last_seen parse (some (given (c ∷ s))) = parse (c ∷ s)

-- `max(int(interval or 30), 30)`, in seconds.
unfoldable pub effective_interval : ℤ → ℕ
effective_interval (pos n) = if nat_eq n 0 then 30 else max n 30
effective_interval (negsuc n) = 30

-- `last_seen is not None and (now - last_seen).total_seconds() < interval`, negated. The
-- difference with a time that has no zone is a TypeError. A last contact in the future is recent.
unfoldable pub interval_elapsed : ℕ → ℕ → Parsed → Result Bool
interval_elapsed now interval unparsed = ok true
interval_elapsed now interval naive = err type_error
interval_elapsed now interval (aware seen) =
    ok (not (ltb now seen || ltb (now - seen) (interval * 1000000)))

-- The conditions of the loop, in its order.
unfoldable pub is_due : (Text → Parsed) → Runtime → ℕ → Device → Result Bool
unfolding parse_last_seen effective_interval interval_elapsed
is_due parse unconfigured now device =
    if not device.enabled || device.status == txt "disabled" then ok false else err type_error
is_due parse disabled now device = ok false
is_due parse (configured source run) now device =
    if not device.enabled || device.status == txt "disabled"
    then ok false
    else interval_elapsed now (effective_interval device.collection_interval)
        (parse_last_seen parse device.last_seen)

-- One device, with its collection as an argument: an error of the collection is swallowed, and
-- one of the conditions ends the run.
unfoldable pub visit :
    Result Bool → Action State Collected → Action State ℕ → Action State ℕ → Action State ℕ
visit (err e) collect next_counted next state = (err e, state)
visit (ok false) collect next_counted next state = next state
visit (ok true) collect next_counted next state =
    let (r, after) = collect state in elim r [ err e ↦ next after | ok c ↦ next_counted after ]

-- The loop over the devices of the snapshot; `collected` counts.
unfoldable pub visit_devices :
    (Device → Result Bool) → (Device → Action State Collected) → List Device → ℕ → Action State ℕ
unfolding visit
visit_devices due collect [] collected state = (ok collected, state)
visit_devices due collect (device ∷ devices) collected state =
    visit (due device) (collect device) (visit_devices due collect devices (suc collected))
      (visit_devices due collect devices collected) state

-- The times that a collection reads from the clock.
pub record Times : Type 0 where
  pub applied_at : ℕ
  pub reconciled_at : ℕ
  pub checked_at : ℕ → ℕ

-- `run_scheduled_collection`; `times` are those of the collection of a device.
unfoldable pub run_scheduled_collection :
    Database State → (Text → Parsed) → Runtime → (Text → Times) → ℕ → ℕ → Action State ℕ
unfolding is_due visit_devices collect_device
run_scheduled_collection database parse runtime times now timeout state =
    visit_devices (is_due parse runtime now)
      (λ device.
        collect_device database runtime (times device.id).checked_at (times device.id).applied_at
          (times device.id).reconciled_at device.id timeout (txt "scheduled")
          (txt "device_scheduled_total"))
      state.devices 0 state

-- `CollectionScheduler.__init__`: the tick and the timeout that it runs with.
unfoldable pub scheduler_settings : ℤ → ℤ → ℕ × ℕ
scheduler_settings (pos tick) (pos timeout) = (max 1 tick, max 3 timeout)
scheduler_settings (pos tick) (negsuc n) = (max 1 tick, 3)
scheduler_settings (negsuc m) (pos timeout) = (1, max 3 timeout)
scheduler_settings (negsuc m) (negsuc n) = (1, 3)
