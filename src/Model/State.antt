-- ===== src/Model/State.antt =====
-- The state dictionary of homeinfra/persistence.py (`STATE_KEYS`): its rows are the columns of the
-- tables, with the keys that only live inside one update as options. A stored time is the whole
-- second since the epoch that `isoformat` prints; `utc_now` counts microseconds.
use homeinfra_control_center.Prelude.{ℕ, ◌*◌, ◌/◌, Bool, Option, List, String, Text}
use homeinfra_control_center.Prelude.Int.{ℤ}
use homeinfra_control_center.Model.Json.{Value, Fields}

-- `isoformat` cuts the microseconds off.
abbrev pub isoformat : ℕ → ℕ
isoformat now = now / 1000000

-- `datetime.fromisoformat` of such a time.
abbrev pub from_isoformat : ℕ → ℕ
from_isoformat stored = stored * 1000000

pub record User : Type 0 where
  pub id : Text
  pub username : Text
  pub role : Text
  pub enabled : Bool
  pub password_hash : Text
  pub password_salt : Text
  pub password_iterations : ℕ
  pub created_at : ℕ
  pub updated_at : ℕ
  pub last_login_at : Option ℕ
  pub password_updated_at : ℕ

pub record Session : Type 0 where
  pub id : Text
  pub user_id : Text
  pub token_hash : Text
  pub created_at : ℕ
  pub last_seen_at : ℕ
  pub expires_at : Option ℕ

pub record Group : Type 0 where
  pub id : Text
  pub name : Text
  pub description : Text
  pub color : Text
  pub icon : Text
  pub sort_order : ℤ
  pub created_at : ℕ
  pub updated_at : ℕ

-- A `last_seen` is a time that `isoformat` wrote, or a text that came with a request.
pub data Stamp : Type 0 where
  written : ℕ → Stamp
  given : Text → Stamp

pub record Device : Type 0 where
  pub id : Text
  pub name : Text
  pub host : Text
  pub port : ℤ
  pub username : Text
  pub auth_type : Text
  pub password : Option Text
  pub private_key_path : Option Text
  pub device_type : Text
  pub group_id : Text
  pub tags : List Text
  pub enabled : Bool
  pub collection_interval : ℤ
  pub last_seen : Option Stamp
  pub status : Text
  pub verified : Bool
  pub online_status : Option Text
  pub health_status : Option Text
  pub created_at : ℕ
  pub updated_at : ℕ

pub record Record : Type 0 where
  pub id : Text
  pub device_id : Text
  pub group_id : Option Text
  pub device_name : Option Text
  pub purpose : Text
  pub collector : Text
  pub command : Text
  pub collected_at : ℕ
  pub status : Text
  pub summary : Text
  pub payload : Fields
  pub error_message : Option Text
  pub detail_code : Option Text
  pub detail_message : Option Text
  pub data_source : Option Text
  pub is_real_data : Option Bool

-- An f-string as its parts: the literal ones, and the values that are printed between them.
pub data Part : Type 0 where
  lit : String → Part
  shown : Value → Part

abbrev pub Message : Type 0
Message = List Part

pub record Alert : Type 0 where
  pub id : Text
  pub device_id : Text
  pub group_id : Option Text
  pub severity : Text
  pub status : Text
  pub type : Text
  pub code : Text
  pub title : Message
  pub message : Message
  pub created_at : ℕ
  pub updated_at : ℕ
  pub resolved_at : Option ℕ
  pub resolved_by : Option Text
  pub last_record_id : Option Text

pub record AuditEntry : Type 0 where
  pub id : Text
  pub timestamp : ℕ
  pub actor : Text
  pub role : Text
  pub action : Text
  pub resource : Text
  pub outcome : Text
  pub request_id : Text
  pub details : Fields

pub record Retention : Type 0 where
  pub collection_history_days : ℕ
  pub audit_log_days : ℕ
  pub resolved_alert_days : ℕ

pub record State : Type 0 where
  pub started_at : ℕ
  pub audit_logs : List AuditEntry
  pub users : List User
  pub sessions : List Session
  pub retention_settings : Retention
  pub default_collection_interval : ℤ
  pub metrics : List (Text × ℕ)
  pub device_groups : List Group
  pub devices : List Device
  pub collection_records : List Record
  pub alerts : List Alert
