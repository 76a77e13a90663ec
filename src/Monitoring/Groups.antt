-- ===== src/Monitoring/Groups.antt =====
-- The part of homeinfra/monitoring.py that validates, creates, updates and deletes groups.
pub mod Form
pub mod Invariant
pub mod Update
use homeinfra_control_center.Prelude.{
  ℕ, Bool, true, false, ◌&&◌, ◌||◌, not, Option, none, some, List, [], ◌∷◌, ◌++◌, map, Text, txt,
  ◌==◌, text_le, String, strip, or_else, is_empty, any, keep, sort, change_first, if◌then◌else◌,
}
use homeinfra_control_center.Prelude.Int.{ℤ, pos, ltb_ℤ}
use homeinfra_control_center.Errors.{Result, ok, err, conflict, validation_error}
use homeinfra_control_center.Effects.{Action, gets, modify, pure, throw_if, ◌>>=◌, ◌>>◌}
use homeinfra_control_center.Model.Json.{Value, null, bool, int, str, obj, Fields, get, has}
use homeinfra_control_center.Model.State.{Group, Device, Alert, State, isoformat}
use homeinfra_control_center.Monitoring.Groups.Form.{GroupFields}
use homeinfra_control_center.Monitoring.Lookup.{
  ungrouped_group_id, has_group_id, find_group, ensure_group_exists, count_write,
}
use homeinfra_control_center.Monitoring.Slug.{slugify}

abbrev pub default_to {ℓ} : {A : Type ℓ} → Option A → A → A
default_to none a = a
default_to (some b) a = b

-- `(sort_order, name)`
unfoldable pub group_before : Group → Group → Bool
unfolding text_le
group_before a b =
    ltb_ℤ a.sort_order b.sort_order
    || not (ltb_ℤ b.sort_order a.sort_order) && text_le a.name b.name

unfoldable pub sort_groups : State → State
unfolding group_before
sort_groups state = record state { device_groups = sort group_before state.device_groups }

abbrev pub has_group_name : Text → Group → Bool
has_group_name name group = group.name == name

-- `name` is `validated["name"]`, which a payload that is not partial always has.
unfoldable pub new_group : ℕ → Text → Text → GroupFields → Group
new_group now group_id name f = record {
  id = group_id;
  name = name;
  description = default_to f.description [];
  color = default_to f.color (txt "#7da38f");
  icon = default_to f.icon (txt "server");
  sort_order = default_to f.sort_order (pos 100);
  created_at = now;
  updated_at = now;
}

abbrev pub append_group : Group → State → State
append_group group state = record state { device_groups = state.device_groups ++ (group ∷ []) }

-- `validated.get("id") or f"grp-{_slugify(validated['name'])}"`
unfoldable pub group_id_of : Text → GroupFields → Text
unfolding slugify
group_id_of name f = or_else (default_to f.id []) (txt "grp-" ++ slugify name)

-- The mutator of `create_group`.
unfoldable pub create_group_mutate : ℕ → Text → GroupFields → Action State Group
create_group_mutate now name f = do
  taken ← gets (λ state. any (has_group_id (group_id_of name f)) state.device_groups)
  throw_if taken (conflict "设备分组 ID 已存在")
  named ← gets (λ state. any (has_group_name name) state.device_groups)
  throw_if named (conflict "设备分组名称已存在")
  modify (append_group (new_group (isoformat now) (group_id_of name f) name f))
  modify sort_groups
  count_write (txt "device_group_writes_total")
  pure (new_group (isoformat now) (group_id_of name f) name f)

-- `group.update(validated)` and the time of the update.
unfoldable pub updated_group : ℕ → GroupFields → Group → Group
updated_group now f group = record group {
  id = default_to f.id group.id;
  name = default_to f.name group.name;
  description = default_to f.description group.description;
  color = default_to f.color group.color;
  icon = default_to f.icon group.icon;
  sort_order = default_to f.sort_order group.sort_order;
  updated_at = now;
}

-- Another group has the new name.
unfoldable pub is_name_taken : Text → GroupFields → List Group → Bool
is_name_taken group_id f groups = elim f.name [
  | none ↦ false
  | some name ↦ any (λ g. has_group_name name g && not (has_group_id group_id g)) groups
]

unfoldable pub change_group : Text → (Group → Group) → State → State
change_group group_id f state = record state {
  device_groups = change_first (has_group_id group_id) f state.device_groups;
}

-- The mutator of `update_group`.
unfoldable pub update_group_mutate : ℕ → Text → GroupFields → Action State Group
update_group_mutate now group_id f = do
  group ← find_group group_id
  taken ← gets (λ state. is_name_taken group_id f state.device_groups)
  throw_if taken (conflict "设备分组名称已存在")
  modify (change_group group_id (updated_group (isoformat now) f))
  modify sort_groups
  count_write (txt "device_group_writes_total")
  pure (updated_group (isoformat now) f group)

-- A device of the group moves to the one of the ungrouped.
unfoldable pub reassigned_device : ℕ → Text → Device → Device
reassigned_device now group_id device =
    if device.group_id == group_id
    then record device { group_id = ungrouped_group_id; updated_at = now }
    else device

abbrev pub is_group : Text → Option Text → Bool
is_group group_id none = false
is_group group_id (some g) = g == group_id

unfoldable pub reassigned_alert : ℕ → Text → Alert → Alert
reassigned_alert now group_id alert =
    if is_group group_id alert.group_id
    then record alert { group_id = some ungrouped_group_id; updated_at = now }
    else alert

-- The writes of `delete_group`, with one time for all of them.
unfoldable pub remove_group : ℕ → Text → State → State
unfolding reassigned_device reassigned_alert
remove_group now group_id state = record state {
  device_groups = keep (λ g. not (has_group_id group_id g)) state.device_groups;
  devices = map (reassigned_device now group_id) state.devices;
  alerts = map (reassigned_alert now group_id) state.alerts;
}

-- The mutator of `delete_group`.
unfoldable pub delete_group_mutate : ℕ → Text → Action State (Unit {0})
delete_group_mutate now group_id = do
  group ← find_group group_id
  throw_if (group_id == ungrouped_group_id) (conflict "默认未分组不能删除")
  ensure_group_exists ungrouped_group_id
  modify (remove_group (isoformat now) group_id)
  count_write (txt "device_group_writes_total")
