-- ===== src/Monitoring/Public.antt =====
-- `_public_device` of homeinfra/monitoring.py: the stored device without its secrets, its group, and
-- whether it has records. The keys that repeat the latest record and the mode of the collector are
-- left out.
use homeinfra_control_center.Prelude.{ℕ, Bool, none, some, List, Text, txt, Option, ◌==◌, any, find}
use homeinfra_control_center.Prelude.Int.{ℤ}
use homeinfra_control_center.Model.State.{Device, Group, Record, State, Stamp}
use homeinfra_control_center.Monitoring.Lookup.{has_group_id}

-- There is no key for a password or a key path.
pub record PublicDevice : Type 0 where
  pub id : Text
  pub name : Text
  pub host : Text
  pub port : ℤ
  pub username : Text
  pub auth_type : Text
  pub device_type : Text
  pub group_id : Text
  pub tags : List Text
  pub enabled : Bool
  pub collection_interval : ℤ
  pub last_seen : Option Stamp
  pub status : Text
  pub verified : Bool
  pub online_status : Option Text
  pub health_status : Option Text
  pub created_at : ℕ
  pub updated_at : ℕ
  pub group_name : Text
  pub has_collection_history : Bool

-- A group that is gone is shown as the one of the ungrouped.
abbrev pub group_name_of : Option Group → Text
group_name_of none = txt "未分组"
group_name_of (some group) = group.name

unfoldable pub public_device : State → Device → PublicDevice
public_device state device = record {
  id = device.id;
  name = device.name;
  host = device.host;
  port = device.port;
  username = device.username;
  auth_type = device.auth_type;
  device_type = device.device_type;
  group_id = device.group_id;
  tags = device.tags;
  enabled = device.enabled;
  collection_interval = device.collection_interval;
  last_seen = device.last_seen;
  status = device.status;
  verified = device.verified;
  online_status = device.online_status;
  health_status = device.health_status;
  created_at = device.created_at;
  updated_at = device.updated_at;
  group_name = group_name_of (find (has_group_id device.group_id) state.device_groups);
  has_collection_history = any (λ (r : Record). r.device_id == device.id) state.collection_records;
}
