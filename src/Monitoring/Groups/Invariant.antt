-- ===== src/Monitoring/Groups/Invariant.antt =====
-- What the methods on groups keep: unique ids and names, the group of the ungrouped, and a group
-- for every device.
use homeinfra_control_center.Prelude.{
  ℕ, ◌≤◌, ◌<◌, ◌≡◌, refl, sym, subst, false, ◌&&◌, not, List, [], ◌∷◌, ◌++◌, map, Text, txt, ◌==◌,
  ==_iff, count, any, All, find, keep, sort, change_first, Bool-cases, Option-cases, inl, inr,
  arith,
}
use homeinfra_control_center.Prelude.Counting.{
  count-append, count-sort, count-keep, count-keep_same, count-keep_none, any-eq_false, All-weaken,
}
use homeinfra_control_center.Errors.{ok}
use homeinfra_control_center.Model.State.{Group, Device, State, isoformat}
use homeinfra_control_center.Monitoring.Lookup.{
  count_write, ungrouped_group_id, has_group_id, find_group, ensure_group_exists, count_metric,
}
use homeinfra_control_center.Monitoring.Groups.Form.{GroupFields}
use homeinfra_control_center.Monitoring.Groups.{
  has_group_name, group_before, sort_groups, append_group, new_group, group_id_of,
  create_group_mutate, remove_group, reassigned_device, delete_group_mutate,
}

pub record GroupsValid (groups : List Group) (devices : List Device) : Type 0 where
  pub ids : (k : Text) → count (has_group_id k) groups ≤ 1
  pub names : (k : Text) → count (has_group_name k) groups ≤ 1
  pub home : 0 < count (has_group_id ungrouped_group_id) groups
  pub linked : All (λ d. 0 < count (has_group_id d.group_id) groups) devices

unfoldable pub InventoryValid : State → Type 0
InventoryValid s = GroupsValid s.device_groups s.devices

pub kept_when : {s t : State} → InventoryValid t → s ≡ t → InventoryValid s
kept_when h e = subst InventoryValid (sym e) h

-- Groups under which every id keeps its count.
pub same_ids :
    (groups groups' : List Group) (devices : List Device)
    → ((k : Text) → count (has_group_id k) groups' ≡ count (has_group_id k) groups)
    → ((k : Text) → count (has_group_name k) groups' ≤ 1)
    → GroupsValid groups devices
    → GroupsValid groups' devices
same_ids groups groups' devices same names h = record {
  ids = λ k. omega (arith, same k, h.ids k);
  names = names;
  home = omega (arith, same ungrouped_group_id, h.home);
  linked =
      All-weaken (λ (d : Device). 0 < count (has_group_id d.group_id) groups)
        (λ (d : Device). 0 < count (has_group_id d.group_id) groups') devices
        (λ d e. omega (arith, same d.group_id, e)) h.linked;
}

pub tidied-InventoryValid :
    (name : Text) (s : State)
    → InventoryValid s
    → InventoryValid (count_metric name (sort_groups s))
unfolding InventoryValid count_metric sort_groups
tidied-InventoryValid name s h =
    same_ids s.device_groups (sort group_before s.device_groups) s.devices
      (λ k. count-sort (has_group_id k) group_before s.device_groups)
      (λ k.
        omega (arith, h.names k, count-sort {0} (has_group_name k) group_before s.device_groups))
      h

-- A field that no item shares with the new one stays unique.
append_unique :
    (key : Group → Text) (group : Group) (groups : List Group)
    → any (λ g. key g == key group) groups ≡ false
    → ((k : Text) → count (λ g. key g == k) groups ≤ 1)
    → (k : Text) → count (λ g. key g == k) (groups ++ (group ∷ [])) ≤ 1
append_unique key group groups new h k = elim (Bool-cases (key group == k)) [
  | inl same ↦
      let absent : count (λ g. key g == k) groups ≡ 0 =
        subst (λ i. count (λ g. key g == i) groups ≡ 0) ((==_iff (key group) k).0 same)
          (any-eq_false (λ g. key g == key group) groups new) in
      ground (arith, absent, count-append (λ g. key g == k) groups (group ∷ []))
  | inr other ↦ ground (arith, h k, count-append (λ g. key g == k) groups (group ∷ []))
]

append_group-InventoryValid :
    (group : Group) (s : State)
    → any (has_group_id group.id) s.device_groups ≡ false
    → any (has_group_name group.name) s.device_groups ≡ false
    → InventoryValid s
    → InventoryValid (append_group group s)
unfolding InventoryValid
append_group-InventoryValid group s new named h = record {
  ids = λ k. omega (arith, append_unique (λ (g : Group). g.id) group s.device_groups new h.ids k);
  names = λ k.
      omega (arith, append_unique (λ (g : Group). g.name) group s.device_groups named h.names k);
  home = omega (
    arith,
    h.home,
    count-append {0} (has_group_id ungrouped_group_id) s.device_groups (group ∷ []),
  );
  linked =
      All-weaken (λ (d : Device). 0 < count (has_group_id d.group_id) s.device_groups)
        (λ (d : Device). 0 < count (has_group_id d.group_id) (s.device_groups ++ (group ∷ [])))
        s.devices
        (λ d e.
          omega (arith, e, count-append {0} (has_group_id d.group_id) s.device_groups (group ∷ [])))
        h.linked;
}

module _ (now : ℕ) (name : Text) (f : GroupFields) (s : State) where
  appended_valid :
      any (has_group_id (group_id_of name f)) s.device_groups ≡ false
      → any (has_group_name name) s.device_groups ≡ false
      → InventoryValid s
      → InventoryValid (append_group (new_group (isoformat now) (group_id_of name f) name f) s)
  unfolding new_group
  appended_valid new unnamed h =
      append_group-InventoryValid (new_group (isoformat now) (group_id_of name f) name f) s new
        unnamed h

  -- Creating a group keeps, on every branch, the ids and the names of groups unique, the group
  -- of the ungrouped, and an existing group for every device.
  pub create_group_mutate-InventoryValid :
      InventoryValid s → InventoryValid (create_group_mutate now name f s).1
  unfolding count_write create_group_mutate
  create_group_mutate-InventoryValid h =
      elim (Bool-cases (any (has_group_id (group_id_of name f)) s.device_groups)) [
        | inl taken ↦ kept_when h (ground arith)
        | inr new ↦ elim (Bool-cases (any (has_group_name name) s.device_groups)) [
          | inl named ↦ kept_when h (ground arith)
          | inr unnamed ↦
              let group = new_group (isoformat now) (group_id_of name f) name f in
              kept_when
                (tidied-InventoryValid (txt "device_group_writes_total") (append_group group s)
                  (appended_valid new unnamed h))
                (ground arith)
        ]
      ]

module _ (now : ℕ) (group_id : Text) (s : State) where
  reassigned_linked :
      group_id == ungrouped_group_id ≡ false
      → (device : Device) → 0 < count (has_group_id device.group_id) s.device_groups
      → 0 < count (has_group_id ungrouped_group_id) s.device_groups
      → 0
        < count
            (has_group_id (reassigned_device (isoformat now) group_id device).group_id)
            (keep (λ g. not (has_group_id group_id g)) s.device_groups)
  unfolding reassigned_device
  reassigned_linked other device linked home = elim (Bool-cases (device.group_id == group_id)) [
    | inl moved ↦ ground (
      arith,
      home,
      count-keep_same (has_group_id ungrouped_group_id) (λ g. not (has_group_id group_id g))
          s.device_groups
          (λ g e. ground (
            arith,
            other,
            ==_iff g.id ungrouped_group_id,
            ==_iff g.id group_id,
            ==_iff group_id ungrouped_group_id,
          )),
    )
    | inr stays ↦ ground (
      arith,
      linked,
      count-keep_same (has_group_id device.group_id) (λ g. not (has_group_id group_id g))
          s.device_groups
          (λ g e. ground (
            arith,
            stays,
            ==_iff g.id device.group_id,
            ==_iff g.id group_id,
            ==_iff device.group_id group_id,
          )),
    )
  ]

  reassigned-All :
      group_id == ungrouped_group_id ≡ false
      → 0 < count (has_group_id ungrouped_group_id) s.device_groups
      → (devices : List Device)
      → All (λ d. 0 < count (has_group_id d.group_id) s.device_groups) devices
      → All
          (λ d.
            0
            < count
                (has_group_id d.group_id)
                (keep (λ g. not (has_group_id group_id g)) s.device_groups))
          (map (reassigned_device (isoformat now) group_id) devices)
  reassigned-All other home [] h = tt
  reassigned-All other home (d ∷ devices) h =
      (reassigned_linked other d h.0 home, reassigned-All other home devices h.1)

  removed_valid :
      group_id == ungrouped_group_id ≡ false
      → InventoryValid s
      → InventoryValid
          (count_metric (txt "device_group_writes_total") (remove_group (isoformat now) group_id s))
  unfolding InventoryValid count_metric remove_group
  removed_valid other h = record {
    ids = λ k. omega (
      arith,
      h.ids k,
      count-keep {0} (has_group_id k) (λ g. not (has_group_id group_id g)) s.device_groups,
    );
    names = λ k. omega (
      arith,
      h.names k,
      count-keep {0} (has_group_name k) (λ g. not (has_group_id group_id g)) s.device_groups,
    );
    home = omega (
      arith,
      h.home,
      count-keep_same {0} (has_group_id ungrouped_group_id) (λ g. not (has_group_id group_id g))
          s.device_groups
          (λ g e. ground (
            arith,
            other,
            ==_iff g.id ungrouped_group_id,
            ==_iff g.id group_id,
            ==_iff group_id ungrouped_group_id,
          )),
    );
    linked = reassigned-All other h.home s.devices h.linked;
  }

  -- Deleting a group keeps, on every branch, the ids and the names of groups unique, the group
  -- of the ungrouped, and an existing group for every device.
  pub delete_group_mutate-InventoryValid :
      InventoryValid s → InventoryValid (delete_group_mutate now group_id s).1
  unfolding count_write delete_group_mutate find_group ensure_group_exists
  delete_group_mutate-InventoryValid h =
      elim (Option-cases (find (has_group_id group_id) s.device_groups)) [
        | inl absent ↦ kept_when h (ground arith)
        | inr (group, found) ↦ elim (Bool-cases (group_id == ungrouped_group_id)) [
          | inl home ↦ kept_when h (ground arith)
          | inr other ↦
              elim (Option-cases (find (has_group_id ungrouped_group_id) s.device_groups)) [
                | inl homeless ↦ kept_when h (ground arith)
                | inr (home, there) ↦ kept_when (removed_valid other h) (ground arith)
              ]
        ]
      ]

  deleted_state :
      (delete_group_mutate now group_id s).0 ≡ ok tt
      → (group_id == ungrouped_group_id ≡ false)
        × ((delete_group_mutate now group_id s).1
            ≡ count_metric
                (txt "device_group_writes_total")
                (remove_group (isoformat now) group_id s))
  unfolding count_write delete_group_mutate find_group ensure_group_exists
  deleted_state done = (ground arith, ground arith)

  removed_groups :
      count
        (has_group_id group_id)
        (count_metric
          (txt "device_group_writes_total")
          (remove_group (isoformat now) group_id s)).device_groups
      ≡ 0
  unfolding count_metric remove_group
  removed_groups =
      count-keep_none (has_group_id group_id) (λ g. not (has_group_id group_id g)) s.device_groups
        (λ g e. ground arith)

  no_device_left :
      group_id == ungrouped_group_id ≡ false
      → (devices : List Device)
      → count
          (λ d. d.group_id == group_id)
          (map (reassigned_device (isoformat now) group_id) devices)
        ≡ 0
  unfolding reassigned_device
  no_device_left other [] = refl
  no_device_left other (d ∷ devices) = ground (
    arith,
    no_device_left other devices,
    other,
    ==_iff ungrouped_group_id group_id,
    ==_iff group_id ungrouped_group_id,
  )

  removed_devices :
      group_id == ungrouped_group_id ≡ false
      → count
          (λ d. d.group_id == group_id)
          (count_metric
            (txt "device_group_writes_total")
            (remove_group (isoformat now) group_id s)).devices
        ≡ 0
  unfolding count_metric remove_group
  removed_devices other = no_device_left other s.devices

  -- A deletion of a group that returns leaves no group of that id and no device in it.
  pub delete_group_removes :
      (delete_group_mutate now group_id s).0 ≡ ok tt
      → (count (has_group_id group_id) (delete_group_mutate now group_id s).1.device_groups ≡ 0)
        × (count (λ d. d.group_id == group_id) (delete_group_mutate now group_id s).1.devices ≡ 0)
  delete_group_removes done =
      let (other, after) = deleted_state done in
      (
        subst (λ t. count (has_group_id group_id) t.device_groups ≡ 0) (sym after) removed_groups,
        subst (λ t. count (λ (d : Device). d.group_id == group_id) t.devices ≡ 0) (sym after)
            (removed_devices other),
      )

-- The checks of `update_group` on names, as counts.
name_count :
    (group_id name : Text) (groups : List Group)
    → any (λ g. has_group_name name g && not (has_group_id group_id g)) groups ≡ false
    → count (has_group_name name) groups ≤ count (has_group_id group_id) groups
name_count group_id name [] h = omega arith
name_count group_id name (g ∷ groups) h = ground (arith, name_count group_id name groups)

pub renamed_count :
    (group_id name : Text) (f : Group → Group) (groups : List Group)
    → any (λ g. has_group_name name g && not (has_group_id group_id g)) groups ≡ false
    → count (has_group_name name) (change_first (has_group_id group_id) f groups)
      ≤ count (has_group_id group_id) groups
renamed_count group_id name f [] h = omega arith
renamed_count group_id name f (g ∷ groups) h =
    ground (arith, name_count group_id name groups, renamed_count group_id name f groups)
