-- ===== src/Monitoring/Inventory.antt =====
-- The methods of homeinfra/monitoring.py on groups and devices, as one type of requests.
use homeinfra_control_center.Prelude.{ℕ, ◌≡◌, refl, arith, none, List, [], ◌∷◌, map, Text, count}
use homeinfra_control_center.Model.State.{Device, State, isoformat}
use homeinfra_control_center.Monitoring.Lookup.{
  count_write, has_device_id, find_group, find_device, ensure_group_exists, count_metric,
}
use homeinfra_control_center.Monitoring.Groups.Form.{GroupFields}
use homeinfra_control_center.Monitoring.Groups.{
  create_group_mutate, update_group_mutate, delete_group_mutate, remove_group, reassigned_device,
  change_group, sort_groups,
}
use homeinfra_control_center.Monitoring.Groups.Invariant.{
  InventoryValid, create_group_mutate-InventoryValid, delete_group_mutate-InventoryValid,
}
use homeinfra_control_center.Monitoring.Groups.Update.{update_group_mutate-InventoryValid}
use homeinfra_control_center.Monitoring.Devices.Form.{DeviceFields}
use homeinfra_control_center.Monitoring.Devices.{
  Required, create_device_mutate, delete_device_mutate, append_device, remove_device,
}
use homeinfra_control_center.Monitoring.Devices.Invariant.{
  DeviceTableValid, create_device_mutate-DeviceTableValid, delete_device_mutate-DeviceTableValid,
}

pub data InventoryRequest : Type 0 where
  create_group : (name : Text) (f : GroupFields) → InventoryRequest
  update_group : (id : Text) (f : GroupFields) → InventoryRequest
  delete_group : (id : Text) → InventoryRequest
  create_device : (r : Required) (f : DeviceFields) → InventoryRequest
  delete_device : (id : Text) → InventoryRequest

-- The state that the mutator of a request leaves.
unfoldable pub after_request : ℕ → InventoryRequest → State → State
after_request now (create_group name f) s = (create_group_mutate now name f s).1
after_request now (update_group id f) s = (update_group_mutate now id f s).1
after_request now (delete_group id) s = (delete_group_mutate now id s).1
after_request now (create_device r f) s = (create_device_mutate now r f s).1
after_request now (delete_device id) s = (delete_device_mutate id s).1

-- An update of a group whose body has no id.
abbrev pub KeepsId : InventoryRequest → Type 0
KeepsId (update_group id f) = f.id ≡ none
KeepsId _ = Unit

-- The tables of groups and devices.
pub record TablesValid (s : State) : Type 0 where
  pub inventory : InventoryValid s
  pub table : DeviceTableValid s

-- Where the groups are as they were, what the devices keep is enough.
from_devices :
    {s t : State}
    → t.device_groups ≡ s.device_groups
    → TablesValid s
    → DeviceTableValid t
    → TablesValid t
unfolding InventoryValid DeviceTableValid
from_devices {s} {t} same h d = record {
  inventory = record {
    ids = λ k. rw same (h.inventory.ids k);
    names = λ k. rw same (h.inventory.names k);
    home = rw same h.inventory.home;
    linked = d.grouped;
  };
  table = d;
}

-- Where the ids of devices are as they were, what the groups keep is enough.
from_groups :
    {s t : State}
    → ((k : Text) → count (has_device_id k) t.devices ≡ count (has_device_id k) s.devices)
    → TablesValid s
    → InventoryValid t
    → TablesValid t
unfolding InventoryValid DeviceTableValid
from_groups {s} {t} same h i = record {
  inventory = i;
  table = record { ids = λ k. omega (arith, same k, h.table.ids k); grouped = i.linked };
}

create_device-groups :
    (now : ℕ) (r : Required) (f : DeviceFields) (s : State)
    → (create_device_mutate now r f s).1.device_groups ≡ s.device_groups
unfolding count_write create_device_mutate ensure_group_exists find_group count_metric append_device
create_device-groups now r f s = ground arith

delete_device-groups :
    (id : Text) (s : State) → (delete_device_mutate id s).1.device_groups ≡ s.device_groups
unfolding count_write delete_device_mutate find_device count_metric remove_device
delete_device-groups id s = ground arith

create_group-devices :
    (now : ℕ) (name : Text) (f : GroupFields) (s : State)
    → (create_group_mutate now name f s).1.devices ≡ s.devices
unfolding count_write create_group_mutate count_metric sort_groups
create_group-devices now name f s = ground arith

update_group-devices :
    (now : ℕ) (id : Text) (f : GroupFields) (s : State)
    → (update_group_mutate now id f s).1.devices ≡ s.devices
unfolding count_write update_group_mutate find_group count_metric change_group sort_groups
update_group-devices now id f s = ground arith

reassigned_device-id :
    (now : ℕ) (id k : Text) (d : Device)
    → has_device_id k (reassigned_device now id d) ≡ has_device_id k d
unfolding reassigned_device
reassigned_device-id now id k d = ground arith

reassigned-ids :
    (now : ℕ) (id k : Text) (devices : List Device)
    → count (has_device_id k) (map (reassigned_device now id) devices)
      ≡ count (has_device_id k) devices
reassigned-ids now id k [] = refl
reassigned-ids now id k (d ∷ devices) =
    ground (arith, reassigned_device-id now id k d, reassigned-ids now id k devices)

delete_group-ids :
    (now : ℕ) (id k : Text) (s : State)
    → count (has_device_id k) (delete_group_mutate now id s).1.devices
      ≡ count (has_device_id k) s.devices
unfolding count_write delete_group_mutate find_group ensure_group_exists count_metric remove_group
delete_group-ids now id k s = ground (arith, reassigned-ids (isoformat now) id k s.devices)

-- Creating, updating or deleting a group and creating or deleting a device keep, on every
-- branch, the ids and the names of groups unique, the group of the ungrouped, the ids of
-- devices unique, and an existing group for every device, provided that the body of an update
-- of a group has no id.
pub after_request-TablesValid :
    (now : ℕ) (q : InventoryRequest) (s : State)
    → KeepsId q
    → TablesValid s
    → TablesValid (after_request now q s)
unfolding after_request
after_request-TablesValid now (create_group name f) s keeps h =
    from_groups (λ k. rw (create_group-devices now name f s) refl) h
      (create_group_mutate-InventoryValid now name f s h.inventory)
after_request-TablesValid now (update_group id f) s keeps h =
    from_groups (λ k. rw (update_group-devices now id f s) refl) h
      (update_group_mutate-InventoryValid now id f s keeps h.inventory)
after_request-TablesValid now (delete_group id) s keeps h =
    from_groups (λ k. delete_group-ids now id k s) h
      (delete_group_mutate-InventoryValid now id s h.inventory)
after_request-TablesValid now (create_device r f) s keeps h =
    from_devices (create_device-groups now r f s) h
      (create_device_mutate-DeviceTableValid now r f s h.table)
after_request-TablesValid now (delete_device id) s keeps h =
    from_devices (delete_device-groups id s) h (delete_device_mutate-DeviceTableValid id s h.table)
