-- ===== src/Monitoring/Devices.antt =====
-- The part of homeinfra/monitoring.py that creates, updates and deletes devices.
pub mod Form
pub mod Credentials
pub mod Invariant
use homeinfra_control_center.Prelude.{
  ℕ, Bool, true, false, ◌&&◌, ◌||◌, not, Option, none, some, List, [], ◌∷◌, ◌++◌, Text, txt, ◌==◌,
  text_le, or_else, any, keep, sort, if◌then◌else◌,
}
use homeinfra_control_center.Prelude.Int.{ℤ}
use homeinfra_control_center.Errors.{Result, ok, err, conflict, forbidden, validation_error}
use homeinfra_control_center.Effects.{Action, gets, modify, lift, pure, throw_if, ◌>>=◌, ◌>>◌}
use homeinfra_control_center.Model.Json.{Fields, has}
use homeinfra_control_center.Model.State.{Device, Record, Alert, State, Stamp, given, isoformat}
use homeinfra_control_center.Monitoring.Lookup.{
  has_device_id, find_device, ensure_group_exists, change_device, count_write,
}
use homeinfra_control_center.Monitoring.Alerts.{of_device}
use homeinfra_control_center.Monitoring.Public.{PublicDevice, public_device}
use homeinfra_control_center.Monitoring.Slug.{slugify}
use homeinfra_control_center.Monitoring.Devices.Form.{
  DeviceFields, Secrets, is_given, secrets_of, enforce_auth_shape, normalize_stored_credentials,
  validate_device_payload,
}

abbrev pub default_to {ℓ} : {A : Type ℓ} → Option A → A → A
default_to none a = a
default_to (some b) a = b

-- A time that came with a request is kept as its text.
abbrev pub given_stamp : Option Text → Option Stamp
given_stamp none = none
given_stamp (some s) = some (given s)

-- The keys that a full payload always has once it is validated.
pub record Required : Type 0 where
  pub name : Text
  pub host : Text
  pub port : ℤ
  pub username : Text
  pub auth_type : Text
  pub device_type : Text
  pub group_id : Text
  pub tags : List Text
  pub enabled : Bool
  pub collection_interval : ℤ

-- `stored.get("last_seen")`
abbrev pub stamp_of : Option (Option Text) → Option Stamp
stamp_of none = none
stamp_of (some o) = given_stamp o

unfoldable pub new_device : ℕ → Text → Required → DeviceFields → Device
unfolding normalize_stored_credentials secrets_of
new_device now device_id r f =
    let secrets = normalize_stored_credentials r.auth_type (secrets_of f) in
    record {
      id = device_id;
      name = r.name;
      host = r.host;
      port = r.port;
      username = r.username;
      auth_type = r.auth_type;
      password = secrets.password;
      private_key_path = secrets.private_key_path;
      device_type = r.device_type;
      group_id = r.group_id;
      tags = r.tags;
      enabled = r.enabled;
      collection_interval = r.collection_interval;
      last_seen = stamp_of f.last_seen;
      status = default_to f.status (txt "unknown");
      verified = default_to f.verified false;
      online_status = none;
      health_status = none;
      created_at = now;
      updated_at = now;
    }

abbrev pub device_before : Device → Device → Bool
device_before a b = text_le a.name b.name

-- `state["devices"].append(device)`, and the sort by name.
unfoldable pub append_device : Device → State → State
append_device device state = record state {
  devices = sort device_before (state.devices ++ (device ∷ []));
}

-- `stored.get("id") or f"dev-{_slugify(stored['name'])}"`
unfoldable pub device_id_of : Text → DeviceFields → Text
unfolding slugify
device_id_of name f = or_else (default_to f.id []) (txt "dev-" ++ slugify name)

-- The mutator of `create_device`.
unfoldable pub create_device_mutate : ℕ → Required → DeviceFields → Action State PublicDevice
unfolding public_device
create_device_mutate now r f = do
  ensure_group_exists r.group_id
  taken ← gets (λ state. any (has_device_id (device_id_of r.name f)) state.devices)
  throw_if taken (conflict "设备 ID 已存在")
  modify (append_device (new_device (isoformat now) (device_id_of r.name f) r f))
  count_write (txt "device_writes_total")
  gets (λ state. public_device state (new_device (isoformat now) (device_id_of r.name f) r f))

-- The interval of a new device: the one of the settings, unless the request names one.
unfoldable pub inherited_interval : Fields → ℤ → ℤ → ℤ
unfolding has
inherited_interval payload default sent =
    if has (txt "collection_interval") payload || has (txt "poll_interval") payload
    then sent
    else default

-- `CONNECTION_RELATED_FIELDS.intersection(validated.keys())`
unfoldable pub touches_connection : DeviceFields → Bool
touches_connection f =
    is_given f.host
    || is_given f.port
    || is_given f.username
    || is_given f.auth_type
    || is_given f.password
    || f.inline_private_key
    || is_given f.private_key_path

-- `merged.update(validated)`
unfoldable pub merged_device : DeviceFields → Device → Device
merged_device f d = record d {
  id = default_to f.id d.id;
  name = default_to f.name d.name;
  host = default_to f.host d.host;
  port = default_to f.port d.port;
  username = default_to f.username d.username;
  auth_type = default_to f.auth_type d.auth_type;
  password = default_to f.password d.password;
  private_key_path = default_to f.private_key_path d.private_key_path;
  device_type = default_to f.device_type d.device_type;
  group_id = default_to f.group_id d.group_id;
  tags = default_to f.tags d.tags;
  enabled = default_to f.enabled d.enabled;
  collection_interval = default_to f.collection_interval d.collection_interval;
  last_seen = elim f.last_seen [ none ↦ d.last_seen | some o ↦ given_stamp o ];
  status = default_to f.status d.status;
  verified = default_to f.verified d.verified;
}

-- After a change of the connection nothing that was known of it holds.
unfoldable pub unverified : Bool → Device → Device
unverified touched d =
    if touched
    then record d {
      verified = false;
      status = if d.status == txt "disabled" then d.status else txt "unknown";
      last_seen = none;
    }
    else d

-- The device with the secrets that the two methods on credentials leave, and the time.
unfoldable pub with_secrets : ℕ → Secrets → Device → Device
with_secrets now secrets d = record d {
  password = secrets.password;
  private_key_path = secrets.private_key_path;
  updated_at = now;
}

abbrev pub device_secrets : Device → Secrets
device_secrets d = record { password = d.password; private_key_path = d.private_key_path }

abbrev pub given_group : DeviceFields → Text → Action State (Unit {0})
given_group f group_id = elim f.group_id [ none ↦ pure tt | some g ↦ ensure_group_exists group_id ]

-- The mutator of `update_device`.
unfoldable pub update_device_mutate : ℕ → Text → DeviceFields → Action State PublicDevice
unfolding public_device
update_device_mutate now device_id f = do
  old ← find_device device_id
  given_group f (merged_device f old).group_id
  secrets ← lift (
      enforce_auth_shape (merged_device f old).auth_type
        (device_secrets (unverified (touches_connection f) (merged_device f old))))
  modify (
      change_device device_id (λ d.
        with_secrets (isoformat now)
          (normalize_stored_credentials (merged_device f old).auth_type secrets)
          (unverified (touches_connection f) (merged_device f old))))
  count_write (txt "device_writes_total")
  gets (λ state. public_device state (
      with_secrets (isoformat now)
        (normalize_stored_credentials (merged_device f old).auth_type secrets)
        (unverified (touches_connection f) (merged_device f old))))

-- `OPERATOR_PROTECTED_DEVICE_FIELDS.intersection(payload)`
unfoldable pub has_protected_field : Fields → Bool
unfolding has
has_protected_field payload =
    any (λ key. has key payload)
      (txt "host"
        ∷ txt "port"
        ∷ txt "device_type"
        ∷ txt "username"
        ∷ txt "auth_type"
        ∷ txt "password"
        ∷ txt "inline_private_key"
        ∷ txt "private_key_path"
        ∷ txt "key_path"
        ∷ txt "encrypted_private_key"
        ∷ [])

-- `set(validated) - OPERATOR_EDITABLE_DEVICE_FIELDS` is not empty.
unfoldable pub has_disallowed_field : DeviceFields → Bool
unfolding touches_connection
has_disallowed_field f =
    touches_connection f
    || is_given f.device_type
    || is_given f.id
    || is_given f.last_seen
    || is_given f.status
    || is_given f.verified

-- `update_device`, up to the store.
unfoldable pub update_device : ℕ → Text → Fields → Bool → Action State PublicDevice
update_device now device_id payload allow_sensitive_fields = do
  throw_if (not allow_sensitive_fields && has_protected_field payload)
      (forbidden "operator 不能修改 SSH 凭据或受保护字段")
  f ← lift (validate_device_payload payload true)
  throw_if (not allow_sensitive_fields && has_disallowed_field f)
      (forbidden "operator 不能修改 SSH 凭据或受保护字段")
  update_device_mutate now device_id f

abbrev pub record_of : Text → Record → Bool
record_of device_id item = item.device_id == device_id

unfoldable pub remove_device : Text → State → State
remove_device device_id state = record state {
  devices = keep (λ d. not (has_device_id device_id d)) state.devices;
  collection_records = keep (λ r. not (record_of device_id r)) state.collection_records;
  alerts = keep (λ a. not (of_device device_id a)) state.alerts;
}

-- The mutator of `delete_device`.
unfoldable pub delete_device_mutate : Text → Action State (Unit {0})
delete_device_mutate device_id = do
  device ← find_device device_id
  modify (remove_device device_id)
  count_write (txt "device_writes_total")
