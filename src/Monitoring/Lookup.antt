-- ===== src/Monitoring/Lookup.antt =====
-- The lookups that the methods of homeinfra/monitoring.py share, and changes of one device.
use homeinfra_control_center.Prelude.{
  ℕ, Bool, Option, none, some, List, Text, ◌==◌, find, is_empty, change_first, txt,
}
use homeinfra_control_center.Errors.{Result, ok, err, not_found, validation_error, key_error}
use homeinfra_control_center.Effects.{Action, gets, or_throw, throw_if, ◌>>=◌, ◌>>◌}
use homeinfra_control_center.Model.State.{Group, Device, State}
use homeinfra_control_center.Model.Metrics.{increment, metric}

abbrev pub ungrouped_group_id : Text
ungrouped_group_id = txt "grp-ungrouped"

abbrev pub has_group_id : Text → Group → Bool
has_group_id group_id group = group.id == group_id

abbrev pub has_device_id : Text → Device → Bool
has_device_id device_id device = device.id == device_id

unfoldable pub find_group : Text → Action State Group
find_group group_id = do
  found ← gets (λ state. find (has_group_id group_id) state.device_groups)
  or_throw found (not_found "device group" group_id)

unfoldable pub find_device : Text → Action State Device
find_device device_id = do
  found ← gets (λ state. find (has_device_id device_id) state.devices)
  or_throw found (not_found "device" device_id)

unfoldable pub ensure_group_exists : Text → Action State (Unit {0})
unfolding find_group
ensure_group_exists group_id = do
  throw_if (is_empty group_id) (validation_error "group_id 不能为空")
  group ← find_group group_id
  gets (λ state. tt)

-- A change of the device that `_find_device` returned.
unfoldable pub change_device : Text → (Device → Device) → State → State
change_device device_id f state = record state {
  devices = change_first (has_device_id device_id) f state.devices;
}

-- `metrics[name] = metrics.get(name, 0) + 1`
unfoldable pub add_metric : Text → State → State
unfolding increment
add_metric name state = record state { metrics = increment name state.metrics }

abbrev pub counted : Text → List (Text × ℕ) → Option ℕ → List (Text × ℕ)
counted name metrics none = metrics
counted name metrics (some n) = increment name metrics

-- What `metrics[name] += 1` leaves: nothing changes where the counter is missing.
unfoldable pub count_metric : Text → State → State
unfolding increment metric
count_metric name state = record state {
  metrics = counted name state.metrics (metric name state.metrics);
}

abbrev pub or_key_error : Option ℕ → Result (Unit {0})
or_key_error none = err key_error
or_key_error (some n) = ok tt

-- `metrics[name] += 1`; a counter that is missing is a KeyError.
unfoldable pub count_write : Text → Action State (Unit {0})
unfolding metric count_metric
count_write name state = (or_key_error (metric name state.metrics), count_metric name state)
