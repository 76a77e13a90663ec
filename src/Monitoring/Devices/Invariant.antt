-- ===== src/Monitoring/Devices/Invariant.antt =====
-- What creating and deleting a device keep, and what a deletion leaves behind.
use homeinfra_control_center.Prelude.{
  ℕ, ◌≤◌, ◌<◌, ◌≡◌, refl, sym, subst, false, not, some, List, [], ◌∷◌, ◌++◌, Text, txt, ◌==◌,
  ==_iff, count, any, All, find, is_empty, Bool-cases, Option-cases, inl, inr, arith,
}
use homeinfra_control_center.Prelude.Counting.{
  count-append, count-sort, count-keep, count-keep_none, count-find, find-holds, any-eq_false,
  All-sort, All-keep,
}
use homeinfra_control_center.Errors.{ok}
use homeinfra_control_center.Model.State.{Group, Device, State, isoformat}
use homeinfra_control_center.Monitoring.Lookup.{
  count_write, has_group_id, has_device_id, find_group, find_device, ensure_group_exists,
  count_metric,
}
use homeinfra_control_center.Monitoring.Alerts.{of_device}
use homeinfra_control_center.Monitoring.Devices.Form.{DeviceFields}
use homeinfra_control_center.Monitoring.Devices.{
  Required, new_device, device_before, append_device, device_id_of, create_device_mutate, record_of,
  remove_device, delete_device_mutate,
}

-- Ids are unique, and the group of every device exists.
pub record DevicesValid (groups : List Group) (devices : List Device) : Type 0 where
  pub ids : (k : Text) → count (has_device_id k) devices ≤ 1
  pub grouped : All (λ d. 0 < count (has_group_id d.group_id) groups) devices

unfoldable pub DeviceTableValid : State → Type 0
DeviceTableValid s = DevicesValid s.device_groups s.devices

kept_when : {s t : State} → DeviceTableValid t → s ≡ t → DeviceTableValid s
kept_when h e = subst DeviceTableValid (sym e) h

append_id :
    (device : Device) (devices : List Device)
    → any (has_device_id device.id) devices ≡ false
    → ((k : Text) → count (has_device_id k) devices ≤ 1)
    → (k : Text) → count (has_device_id k) (devices ++ (device ∷ [])) ≤ 1
append_id device devices new h k = elim (Bool-cases (device.id == k)) [
  | inl same ↦
      let absent : count (has_device_id k) devices ≡ 0 =
        subst (λ i. count (has_device_id i) devices ≡ 0) ((==_iff device.id k).0 same)
          (any-eq_false (has_device_id device.id) devices new) in
      ground (arith, absent, count-append (has_device_id k) devices (device ∷ []))
  | inr other ↦ ground (arith, h k, count-append (has_device_id k) devices (device ∷ []))
]

module _ {ℓ κ} {A : Type ℓ} (P : A → Type κ) where
  All-append : (xs : List A) (x : A) → All P xs → P x → All P (xs ++ (x ∷ []))
  All-append [] x h last = (last, tt)
  All-append (y ∷ xs) x h last = (h.0, All-append xs x h.1 last)

module _ (now : ℕ) (r : Required) (f : DeviceFields) (s : State) where
  abbrev built : Device
  built = new_device (isoformat now) (device_id_of r.name f) r f

  built_parts : (built.id ≡ device_id_of r.name f) × (built.group_id ≡ r.group_id)
  unfolding new_device
  built_parts = (refl, refl)

  appended_valid :
      {group : Group}
      → any (has_device_id (device_id_of r.name f)) s.devices ≡ false
      → find (has_group_id r.group_id) s.device_groups ≡ some group
      → DeviceTableValid s
      → DeviceTableValid (count_metric (txt "device_writes_total") (append_device built s))
  unfolding DeviceTableValid count_metric append_device
  appended_valid {group} new there h =
      let group_there : 0 < count (has_group_id built.group_id) s.device_groups = ground (
        arith,
        built_parts.1,
        find-holds (has_group_id r.group_id) s.device_groups there,
        count-find (has_group_id r.group_id) {u = group} (has_group_id r.group_id) s.device_groups
            there,
      ) in
      record {
        ids = λ k. omega (
          arith,
          count-sort {0} (has_device_id k) device_before (s.devices ++ (built ∷ [])),
          append_id built s.devices (rw (built_parts.0) new) h.ids k,
        );
        grouped =
            All-sort (λ (d : Device). 0 < count (has_group_id d.group_id) s.device_groups)
              device_before (s.devices ++ (built ∷ []))
              (All-append (λ (d : Device). 0 < count (has_group_id d.group_id) s.device_groups)
                s.devices built h.grouped group_there);
      }

  -- Creating a device keeps, on every branch, the ids of devices unique and an existing group
  -- for every device.
  pub create_device_mutate-DeviceTableValid :
      DeviceTableValid s → DeviceTableValid (create_device_mutate now r f s).1
  unfolding count_write create_device_mutate ensure_group_exists find_group
  create_device_mutate-DeviceTableValid h = elim (Bool-cases (is_empty r.group_id)) [
    | inl blank ↦ kept_when h (ground arith)
    | inr filled ↦ elim (Option-cases (find (has_group_id r.group_id) s.device_groups)) [
      | inl absent ↦ kept_when h (ground arith)
      | inr (group, there) ↦
          elim (Bool-cases (any (has_device_id (device_id_of r.name f)) s.devices)) [
            | inl taken ↦ kept_when h (ground arith)
            | inr new ↦ kept_when (appended_valid new there h) (ground arith)
          ]
    ]
  ]

module _ (device_id : Text) (s : State) where
  abbrev deleted : State
  deleted = count_metric (txt "device_writes_total") (remove_device device_id s)

  deleted_valid : DeviceTableValid s → DeviceTableValid deleted
  unfolding DeviceTableValid count_metric remove_device
  deleted_valid h = record {
    ids = λ k. omega (
      arith,
      h.ids k,
      count-keep {0} (has_device_id k) (λ d. not (has_device_id device_id d)) s.devices,
    );
    grouped =
        All-keep (λ (d : Device). 0 < count (has_group_id d.group_id) s.device_groups)
          (λ d. not (has_device_id device_id d)) s.devices h.grouped;
  }

  -- Deleting a device keeps, on every branch, the ids of devices unique and an existing group
  -- for every device.
  pub delete_device_mutate-DeviceTableValid :
      DeviceTableValid s → DeviceTableValid (delete_device_mutate device_id s).1
  unfolding count_write delete_device_mutate find_device
  delete_device_mutate-DeviceTableValid h =
      elim (Option-cases (find (has_device_id device_id) s.devices)) [
        | inl absent ↦ kept_when h (ground arith)
        | inr (device, there) ↦ kept_when (deleted_valid h) (ground arith)
      ]

  deleted_state :
      (delete_device_mutate device_id s).0 ≡ ok tt → (delete_device_mutate device_id s).1 ≡ deleted
  unfolding count_write delete_device_mutate find_device
  deleted_state done = ground arith

  deleted_rows :
      (count (has_device_id device_id) deleted.devices ≡ 0)
      × (count (record_of device_id) deleted.collection_records ≡ 0)
      × (count (of_device device_id) deleted.alerts ≡ 0)
  unfolding count_metric remove_device
  deleted_rows = (
    count-keep_none (has_device_id device_id) (λ d. not (has_device_id device_id d)) s.devices
        (λ d e. ground arith),
    count-keep_none (record_of device_id) (λ d. not (record_of device_id d)) s.collection_records
        (λ d e. ground arith),
    count-keep_none (of_device device_id) (λ d. not (of_device device_id d)) s.alerts
        (λ d e. ground arith),
  )

  -- A deletion of a device that returns leaves no device of that id, none of its records and
  -- none of its alerts.
  pub delete_device_cascades :
      (delete_device_mutate device_id s).0 ≡ ok tt
      → (count (has_device_id device_id) (delete_device_mutate device_id s).1.devices ≡ 0)
        × (count (record_of device_id) (delete_device_mutate device_id s).1.collection_records ≡ 0)
        × (count (of_device device_id) (delete_device_mutate device_id s).1.alerts ≡ 0)
  delete_device_cascades done = rw (deleted_state done) deleted_rows
