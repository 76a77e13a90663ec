-- ===== src/Monitoring/Groups/Update.antt =====
-- What an update of a group keeps, given that it brings no id of its own.
use homeinfra_control_center.Prelude.{
  ℕ, ◌≤◌, ◌≡◌, refl, subst, false, ◌&&◌, not, none, some, List, [], ◌∷◌, Text, txt, ◌==◌, ==_iff,
  count, any, find, change_first, Bool-cases, Option-cases, inl, inr, arith,
}
use homeinfra_control_center.Prelude.Counting.{count-change_first_same}
use homeinfra_control_center.Model.State.{Group, State, isoformat}
use homeinfra_control_center.Monitoring.Lookup.{count_write, has_group_id, find_group}
use homeinfra_control_center.Monitoring.Groups.Form.{GroupFields}
use homeinfra_control_center.Monitoring.Groups.{
  has_group_name, updated_group, is_name_taken, change_group, update_group_mutate,
}
use homeinfra_control_center.Monitoring.Groups.Invariant.{
  InventoryValid, kept_when, same_ids, tidied-InventoryValid, renamed_count,
}

module _ (now : ℕ) (group_id : Text) (f : GroupFields) (no_id : f.id ≡ none) where
  updated_id : (g : Group) → (updated_group now f g).id ≡ g.id
  unfolding updated_group
  updated_id g = ground arith

  same_name :
      f.name ≡ none
      → (k : Text) (g : Group) → has_group_name k (updated_group now f g) ≡ has_group_name k g
  unfolding updated_group
  same_name unnamed k g = ground arith

  other_name_count :
      (name k : Text) (groups : List Group)
      → f.name ≡ some name
      → name == k ≡ false
      → count (has_group_name k) (change_first (has_group_id group_id) (updated_group now f) groups)
        ≤ count (has_group_name k) groups
  unfolding updated_group
  other_name_count name k [] named differ = omega arith
  other_name_count name k (g ∷ groups) named differ =
      ground (arith, other_name_count name k groups named differ)

  names_kept :
      (groups : List Group)
      → is_name_taken group_id f groups ≡ false
      → ((k : Text) → count (has_group_id k) groups ≤ 1)
      → ((k : Text) → count (has_group_name k) groups ≤ 1)
      → (k : Text)
      → count (has_group_name k) (change_first (has_group_id group_id) (updated_group now f) groups)
        ≤ 1
  unfolding is_name_taken
  names_kept groups free ids names k = elim (Option-cases f.name) [
    | inl unnamed ↦ omega (
      arith,
      names k,
      count-change_first_same (has_group_name k) (has_group_id group_id) (updated_group now f)
          groups (same_name unnamed k),
    )
    | inr (name, named) ↦ elim (Bool-cases (name == k)) [
      | inr differ ↦ omega (arith, names k, other_name_count name k groups named differ)
      | inl same ↦
          let others : any (λ g. has_group_name name g && not (has_group_id group_id g)) groups
              ≡ false =
            ground arith in
          let one = renamed_count group_id name (updated_group now f) groups others in
          subst
            (λ i.
              count (has_group_name i)
                (change_first (has_group_id group_id) (updated_group now f) groups)
              ≤ 1)
            ((==_iff name k).0 same) (omega (arith, ids group_id, one))
    ]
  ]

  changed_valid :
      (s : State)
      → is_name_taken group_id f s.device_groups ≡ false
      → InventoryValid s
      → InventoryValid (change_group group_id (updated_group now f) s)
  unfolding InventoryValid change_group
  changed_valid s free h =
      same_ids s.device_groups
        (change_first (has_group_id group_id) (updated_group now f) s.device_groups) s.devices
        (λ k.
          count-change_first_same (has_group_id k) (has_group_id group_id) (updated_group now f)
            s.device_groups (λ g. rw (updated_id g) refl))
        (names_kept s.device_groups free h.ids h.names) h

-- Updating a group with a body that has no id keeps, on every branch, the ids and the names of
-- groups unique, the group of the ungrouped, and an existing group for every device.
pub update_group_mutate-InventoryValid :
    (now : ℕ) (group_id : Text) (f : GroupFields) (s : State)
    → f.id ≡ none
    → InventoryValid s
    → InventoryValid (update_group_mutate now group_id f s).1
unfolding count_write update_group_mutate find_group
update_group_mutate-InventoryValid now group_id f s no_id h =
    elim (Option-cases (find (has_group_id group_id) s.device_groups)) [
      | inl absent ↦ kept_when h (ground arith)
      | inr (group, found) ↦ elim (Bool-cases (is_name_taken group_id f s.device_groups)) [
        | inl taken ↦ kept_when h (ground arith)
        | inr free ↦
            kept_when
              (tidied-InventoryValid (txt "device_group_writes_total")
                (change_group group_id (updated_group (isoformat now) f) s)
                (changed_valid (isoformat now) group_id f no_id s free h))
              (ground arith)
      ]
    ]
