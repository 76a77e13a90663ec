-- ===== src/Tests/Inventory.antt =====
-- The groups and devices of homeinfra/monitoring.py on the samples.
use homeinfra_control_center.Prelude.{
  ℕ, ◌≤◌, ◌≡◌, refl, true, false, none, some, List, [], ◌∷◌, Text, txt, arith, count,
}
use homeinfra_control_center.Prelude.Int.{pos}
use homeinfra_control_center.Errors.{ok, err, conflict, forbidden}
use homeinfra_control_center.Model.Json.{Value, int, str, obj, end, field, Fields}
use homeinfra_control_center.Model.State.{Device, Group}
use homeinfra_control_center.Samples.{rack, ungrouped, nas, home}
use homeinfra_control_center.Prelude.{==_iff}
use homeinfra_control_center.Monitoring.Inventory.{
  TablesValid, after_request, delete_group, after_request-TablesValid,
}
use homeinfra_control_center.Monitoring.Lookup.{has_group_id, has_device_id}
use homeinfra_control_center.Monitoring.Alerts.{of_device}
use homeinfra_control_center.Monitoring.Groups.{has_group_name}
use homeinfra_control_center.Monitoring.Groups.Form.{GroupFields}
use homeinfra_control_center.Monitoring.Groups.Invariant.{delete_group_removes}
use homeinfra_control_center.Monitoring.Devices.{Required, device_secrets, record_of}
use homeinfra_control_center.Monitoring.Devices.Form.{DeviceFields}
use homeinfra_control_center.Monitoring.Devices.Credentials.{
  fits, update_device_mutate-fits, update_device_mutate-unverified, operator_update_keeps,
}
use homeinfra_control_center.Monitoring.Devices.Invariant.{delete_device_cascades}
use homeinfra_control_center.Prelude.{
  ◌==◌, is_space, strip, lower_char, lower, upper_char, upper, starts_with, contains, text_le,
}
use homeinfra_control_center.Ids.{
  is_digit, scan_int, unsigned, parse_int, after_last_dash, emit, format_05d, raise_highest,
  highest_of, next_numbered_id,
}
use homeinfra_control_center.Model.Json.{lookup, get_or, get, has, set}
use homeinfra_control_center.Model.Metrics.{increment, metric}
use homeinfra_control_center.Model.Store.{settle, sqlite_update, mock_update}
use homeinfra_control_center.Monitoring.Lookup.{
  find_group, find_device, ensure_group_exists, change_device, count_metric,
}
use homeinfra_control_center.Monitoring.Slug.{is_slug_char, squeeze, strip_dashes, slugify}
use homeinfra_control_center.Monitoring.Groups.{
  group_before, sort_groups, new_group, group_id_of, create_group_mutate, updated_group,
  is_name_taken, change_group, update_group_mutate, reassigned_device, reassigned_alert,
  remove_group, delete_group_mutate,
}
use homeinfra_control_center.Monitoring.Groups.Invariant.{InventoryValid}
use homeinfra_control_center.Monitoring.Groups.Form.{
  filled, group_id, description, with_default, sort_order, group_fields, has_no_fields,
  validate_group_payload,
}
use homeinfra_control_center.Monitoring.Devices.{
  new_device, append_device, device_id_of, create_device_mutate, inherited_interval,
  touches_connection, merged_device, unverified, with_secrets, update_device_mutate,
  has_protected_field, has_disallowed_field, update_device, remove_device, delete_device_mutate,
}
use homeinfra_control_center.Monitoring.Devices.Form.{
  filled_text, supported_type, valid_port, valid_auth_type, tag_list, valid_tags, boolean,
  valid_interval, valid_poll_interval, text_or_null, no_inline_key, valid_status, interval_field,
  device_fields, enforce_auth_shape, normalize_stored_credentials, secrets_of, shaped,
  validate_device_payload,
}
use homeinfra_control_center.Monitoring.Devices.Invariant.{DeviceTableValid}
use homeinfra_control_center.Model.Store.{run_statements, transaction}
use homeinfra_control_center.Model.Store.Tables.{
  execute, persist_state_to_tables, normalize_loaded_device_credentials, build_state_from_tables,
  sqlite_database,
}
use homeinfra_control_center.Monitoring.Lookup.{count_write, add_metric}
use homeinfra_control_center.Monitoring.Public.{public_device}
use homeinfra_control_center.Monitoring.Public.{PublicDevice}
use homeinfra_control_center.Monitoring.Devices.Credentials.{Stored, KeptByOperator}
use homeinfra_control_center.Errors.{Result}
use homeinfra_control_center.Model.State.{State}

-- What the tests run.
unfoldable program : Unit {0}
unfolding public_device count_write add_metric execute persist_state_to_tables
    normalize_loaded_device_credentials build_state_from_tables sqlite_database run_statements
    transaction ◌==◌ is_space strip lower_char lower upper_char upper starts_with contains text_le
    is_digit scan_int unsigned parse_int after_last_dash emit format_05d raise_highest highest_of
    next_numbered_id lookup get_or get has set increment metric settle sqlite_update mock_update
    find_group find_device ensure_group_exists change_device count_metric is_slug_char squeeze
    strip_dashes slugify group_before sort_groups new_group group_id_of create_group_mutate
    updated_group is_name_taken change_group update_group_mutate reassigned_device reassigned_alert
    remove_group delete_group_mutate InventoryValid filled group_id description with_default
    sort_order group_fields has_no_fields validate_group_payload new_device append_device
    device_id_of create_device_mutate inherited_interval touches_connection merged_device unverified
    with_secrets update_device_mutate has_protected_field has_disallowed_field update_device
    remove_device delete_device_mutate filled_text supported_type valid_port valid_auth_type
    tag_list valid_tags boolean valid_interval valid_poll_interval text_or_null no_inline_key
    valid_status interval_field device_fields enforce_auth_shape normalize_stored_credentials
    secrets_of shaped validate_device_payload DeviceTableValid
program = tt

abbrev at : ℕ
at = 20_000_000

abbrev home_groups : List Group
home_groups = rack ∷ ungrouped ∷ []

group_ids : (k : Text) → count (has_group_id k) home_groups ≤ 1
unfolding program
group_ids k = ground (arith, ==_iff (txt "grp-rack") k, ==_iff (txt "grp-ungrouped") k)

group_names : (k : Text) → count (has_group_name k) home_groups ≤ 1
unfolding program
group_names k = ground (arith, ==_iff (txt "rack") k, ==_iff (txt "ungrouped") k)

home-InventoryValid : InventoryValid home
unfolding program
home-InventoryValid = record {
  ids = λ k. group_ids k;
  names = λ k. group_names k;
  home = omega arith;
  linked = (omega arith, tt);
}

home-DeviceTableValid : DeviceTableValid home
unfolding program
home-DeviceTableValid = record { ids = λ k. ground arith; grouped = (omega arith, tt) }

abbrev media : GroupFields
media = record {
  id = none;
  name = some (txt "Media Room");
  description = none;
  color = none;
  icon = none;
  sort_order = some (pos 5);
}

abbrev media_payload : Value
media_payload =
    obj (field (txt "name") (str (txt " Media Room ")) (field (txt "sort_order") (int (pos 5)) end))

media_valid : validate_group_payload media_payload false ≡ ok media
unfolding program
media_valid = refl

media_slug : group_id_of (txt "Media Room") media ≡ txt "grp-media-room"
unfolding program
media_slug = refl

-- A name without a letter or a digit of ASCII gives the id of every such name.
chinese_slug : slugify (txt "媒体室") ≡ slugify (txt "机房")
unfolding program
chinese_slug = refl

rack_deleted : (delete_group_mutate at (txt "grp-rack") home).0 ≡ ok tt
unfolding program
rack_deleted = refl

delete_group_removes_example :
    (count
        (has_group_id (txt "grp-rack"))
        (delete_group_mutate at (txt "grp-rack") home).1.device_groups
      ≡ 0)
    × (count
          (λ (d : Device). d.group_id == txt "grp-rack")
          (delete_group_mutate at (txt "grp-rack") home).1.devices
        ≡ 0)
delete_group_removes_example = delete_group_removes at (txt "grp-rack") home rack_deleted

-- The group of the ungrouped stays.
ungrouped_stays : (delete_group_mutate at (txt "grp-ungrouped") home).0 ≡ err (conflict "默认未分组不能删除")
unfolding program
ungrouped_stays = refl

abbrev new_host : Fields
new_host = field (txt "host") (str (txt "192.0.2.21")) end

abbrev host_fields : DeviceFields
host_fields = record {
  name = none;
  host = some (txt "192.0.2.21");
  port = none;
  username = none;
  auth_type = none;
  device_type = none;
  group_id = none;
  tags = none;
  enabled = none;
  collection_interval = none;
  id = none;
  password = none;
  private_key_path = none;
  inline_private_key = false;
  last_seen = none;
  status = none;
  verified = none;
}

host_valid : validate_device_payload new_host true ≡ ok host_fields
unfolding program
host_valid = refl

abbrev moved_nas : Device
moved_nas = record nas {
  host = txt "192.0.2.21";
  verified = false;
  status = txt "unknown";
  last_seen = none;
  updated_at = 20;
}

abbrev moved : Result PublicDevice × State
moved = update_device_mutate at (txt "dev-nas") host_fields home

nas_moved : moved.0 ≡ ok (public_device moved.1 moved_nas)
unfolding program
nas_moved = refl

update_device_mutate-fits_example :
    (old d : Device) × Stored at
      (txt "dev-nas")
      host_fields
      home
      (public_device moved.1 moved_nas)
      old
      d
    × (fits d.auth_type (device_secrets d) ≡ true)
update_device_mutate-fits_example =
    update_device_mutate-fits at (txt "dev-nas") host_fields home nas_moved

host_touches : touches_connection host_fields ≡ true
unfolding program
host_touches = refl

update_device_mutate-unverified_example :
    (old d : Device) × Stored at
      (txt "dev-nas")
      host_fields
      home
      (public_device moved.1 moved_nas)
      old
      d
    × (d.verified ≡ false)
    × (d.last_seen ≡ none)
    × (d.status == txt "online" ≡ false)
update_device_mutate-unverified_example =
    update_device_mutate-unverified at (txt "dev-nas") host_fields home nas_moved host_touches

-- An operator renames a device, and is refused a new host.
abbrev new_name : Fields
new_name = field (txt "name") (str (txt "vault")) end

abbrev renamed_nas : Device
renamed_nas = record nas { name = txt "vault"; updated_at = 20 }

abbrev renamed : Result PublicDevice × State
renamed = update_device at (txt "dev-nas") new_name false home

nas_renamed : renamed.0 ≡ ok (public_device renamed.1 renamed_nas)
unfolding program
nas_renamed = refl

operator_refused :
    (update_device at (txt "dev-nas") new_host false home).0
    ≡ err (forbidden "operator 不能修改 SSH 凭据或受保护字段")
unfolding program
operator_refused = refl

operator_update_keeps_example :
    (old d : Device) × KeptByOperator at
      (txt "dev-nas")
      new_name
      home
      (public_device renamed.1 renamed_nas)
      old
      d
operator_update_keeps_example = operator_update_keeps at (txt "dev-nas") new_name home nas_renamed

abbrev router : Required
router = record {
  name = txt "edge";
  host = txt "192.0.2.1";
  port = pos 22;
  username = txt "monitor";
  auth_type = txt "none";
  device_type = txt "router";
  group_id = txt "grp-ungrouped";
  tags = [];
  enabled = true;
  collection_interval = pos 30;
}

nas_deleted : (delete_device_mutate (txt "dev-nas") home).0 ≡ ok tt
unfolding program
nas_deleted = refl

delete_device_cascades_example :
    (count (has_device_id (txt "dev-nas")) (delete_device_mutate (txt "dev-nas") home).1.devices
      ≡ 0)
    × (count
          (record_of (txt "dev-nas"))
          (delete_device_mutate (txt "dev-nas") home).1.collection_records
        ≡ 0)
    × (count (of_device (txt "dev-nas")) (delete_device_mutate (txt "dev-nas") home).1.alerts ≡ 0)
delete_device_cascades_example = delete_device_cascades (txt "dev-nas") home nas_deleted

home-TablesValid : TablesValid home
home-TablesValid = record { inventory = home-InventoryValid; table = home-DeviceTableValid }

after_request-TablesValid_example :
    TablesValid (after_request at (delete_group (txt "grp-rack")) home)
after_request-TablesValid_example =
    after_request-TablesValid at (delete_group (txt "grp-rack")) home tt home-TablesValid
