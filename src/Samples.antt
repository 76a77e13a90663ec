-- ===== src/Samples.antt =====
-- Small concrete data that the tests run the models on.
use homeinfra_control_center.Model.Store.{Database}
use homeinfra_control_center.Model.Store.Tables.{Sql, sqlite_database}
use homeinfra_control_center.Prelude.{Bool, false, ℕ, true, none, some, [], ◌∷◌, ◌++◌, txt}
use homeinfra_control_center.Prelude.Int.{pos}
use homeinfra_control_center.Model.Json.{end}
use homeinfra_control_center.Model.State.{
  User, Session, Group, Device, Record, Alert, AuditEntry, State, written,
}
use homeinfra_control_center.Auth.Users.{Crypto}
use homeinfra_control_center.Monitoring.Collections.{CollectorError, Source}

-- Functions that stand for the hashes.
abbrev pub plain_crypto : Crypto
plain_crypto = record { pbkdf2 = λ password salt. password ++ salt; sha256 = λ token. token }

abbrev pub second : ℕ
second = 1_000_000

abbrev pub root : User
root = record {
  id = txt "user-00001";
  username = txt "root";
  role = txt "admin";
  enabled = true;
  password_hash = txt "password1ab";
  password_salt = txt "ab";
  password_iterations = 240_000;
  created_at = 5;
  updated_at = 5;
  last_login_at = none;
  password_updated_at = 5;
}

abbrev pub root_session : Session
root_session = record {
  id = txt "sess-00001";
  user_id = txt "user-00001";
  token_hash = txt "tok";
  created_at = 6;
  last_seen_at = 6;
  expires_at = some 1000;
}

abbrev pub ungrouped : Group
ungrouped = record {
  id = txt "grp-ungrouped";
  name = txt "ungrouped";
  description = [];
  color = txt "#7da38f";
  icon = txt "server";
  sort_order = pos 100;
  created_at = 5;
  updated_at = 5;
}

abbrev pub rack : Group
rack = record ungrouped { id = txt "grp-rack"; name = txt "rack" }

abbrev pub nas : Device
nas = record {
  id = txt "dev-nas";
  name = txt "nas";
  host = txt "192.0.2.20";
  port = pos 22;
  username = txt "monitor";
  auth_type = txt "password";
  password = some (txt "secret");
  private_key_path = none;
  device_type = txt "nas";
  group_id = txt "grp-rack";
  tags = [];
  enabled = true;
  collection_interval = pos 60;
  last_seen = some (written 10);
  status = txt "online";
  verified = true;
  online_status = some (txt "online");
  health_status = some (txt "normal");
  created_at = 5;
  updated_at = 5;
}

abbrev pub nas_record : Record
nas_record = record {
  id = txt "col-00001";
  device_id = txt "dev-nas";
  group_id = some (txt "grp-rack");
  device_name = some (txt "nas");
  purpose = txt "refresh";
  collector = txt "ssh";
  command = txt "ssh probe";
  collected_at = 10;
  status = txt "critical";
  summary = txt "timeout";
  payload = end;
  error_message = some (txt "timeout");
  detail_code = some (txt "collection_failed");
  detail_message = some (txt "timeout");
  data_source = some (txt "ssh");
  is_real_data = some true;
}

abbrev pub nas_alert : Alert
nas_alert = record {
  id = txt "alert-00001";
  device_id = txt "dev-nas";
  group_id = some (txt "grp-rack");
  severity = txt "critical";
  status = txt "active";
  type = txt "device_offline";
  code = txt "device_offline";
  title = [];
  message = [];
  created_at = 10;
  updated_at = 10;
  resolved_at = none;
  resolved_by = none;
  last_record_id = some (txt "col-00001");
}

abbrev pub first_entry : AuditEntry
first_entry = record {
  id = txt "audit-00001";
  timestamp = 5;
  actor = txt "user:root";
  role = txt "admin";
  action = txt "login";
  resource = txt "session";
  outcome = txt "success";
  request_id = txt "r1";
  details = end;
}

abbrev pub home : State
home = record {
  started_at = 5;
  audit_logs = first_entry ∷ [];
  users = root ∷ [];
  sessions = root_session ∷ [];
  retention_settings = record {
    collection_history_days = 1;
    audit_log_days = 1;
    resolved_alert_days = 1;
  };
  default_collection_interval = pos 30;
  metrics =
      (txt "audit_events_total", 1)
      ∷ (txt "device_group_writes_total", 0)
      ∷ (txt "device_writes_total", 0)
      ∷ (txt "alert_resolved_total", 0)
      ∷ [];
  device_groups = rack ∷ ungrouped ∷ [];
  devices = nas ∷ [];
  collection_records = nas_record ∷ [];
  alerts = nas_alert ∷ [];
}

abbrev pub timeout_error : CollectorError
timeout_error = record { message = txt "timeout"; status = txt "critical"; reason = none }

abbrev pub ssh_source : Source
ssh_source = record { name = txt "ssh"; data_source = txt "ssh"; is_real_data = true }

-- A database that refuses no statement.
abbrev pub refuses_nothing : Sql → State → Bool
refuses_nothing sql tables = false

abbrev pub disk : Database State
disk = sqlite_database refuses_nothing
