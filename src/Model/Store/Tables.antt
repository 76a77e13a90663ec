-- ===== src/Model/Store/Tables.antt =====
-- `_persist_state_to_tables` and `_build_state_from_tables` of homeinfra/persistence.py. The tables
-- are lists of rows in the order in which they were inserted; which statements SQLite refuses, for
-- a foreign key or a full disk, is a parameter. Rows that an ORDER BY holds equal keep their order.
pub mod Counts
use homeinfra_control_center.Prelude.{
  ℕ, Bool, ◌||◌, ◌&&◌, not, none, some, List, [], ◌∷◌, ◌++◌, map, Text, txt, ◌==◌, Option, keep,
  take, sort, leb, nat_eq, text_le, is_empty, if◌then◌else◌,
}
use homeinfra_control_center.Prelude.Int.{ℤ, ltb_ℤ, leb_ℤ}
use homeinfra_control_center.Model.State.{
  User, Session, Group, Device, Record, Alert, AuditEntry, Retention, State,
}
use homeinfra_control_center.Model.Store.{Database, Statement}

-- The statements, by their text, with the row that they insert.
pub data Sql : Type 0 where
  delete_records delete_alerts delete_sessions delete_logs : Sql
  delete_devices delete_groups delete_users : Sql
  put_config :
      (started_at : ℕ) (retention : Retention) (interval : ℤ) (metrics : List (Text × ℕ)) → Sql
  insert_group : Group → Sql
  insert_device : Device → Sql
  insert_user : User → Sql
  insert_record : Record → Sql
  insert_alert : Alert → Sql
  insert_session : Session → Sql
  insert_log : AuditEntry → Sql

-- INSERT OR REPLACE: the rows that conflict with the new one are deleted.
abbrev pub insert_or_replace {ℓ} : {A : Type ℓ} → (A → A → Bool) → A → List A → List A
insert_or_replace conflicts row rows = keep (λ r. not (conflicts r row)) rows ++ (row ∷ [])

-- There is no column for what a collection makes of the device.
abbrev pub device_row : Device → Device
device_row d = record d { online_status = none; health_status = none }

-- There is no column for the four keys that describe the collection.
abbrev pub record_row : Record → Record
record_row r = record r {
  detail_code = none;
  detail_message = none;
  data_source = none;
  is_real_data = none;
}

unfoldable pub execute : Sql → State → State
execute delete_records s = record s { collection_records = [] }
execute delete_alerts s = record s { alerts = [] }
execute delete_sessions s = record s { sessions = [] }
execute delete_logs s = record s { audit_logs = [] }
execute delete_devices s = record s { devices = [] }
execute delete_groups s = record s { device_groups = [] }
execute delete_users s = record s { users = [] }
execute (put_config started_at retention interval metrics) s = record s {
  started_at = started_at;
  retention_settings = retention;
  default_collection_interval = interval;
  metrics = metrics;
}
execute (insert_group x) s = record s {
  device_groups = insert_or_replace (λ a b. a.id == b.id) x s.device_groups;
}
execute (insert_device x) s = record s {
  devices = insert_or_replace (λ a b. a.id == b.id) (device_row x) s.devices;
}
execute (insert_user x) s = record s {
  users = insert_or_replace (λ a b. a.id == b.id || a.username == b.username) x s.users;
}
execute (insert_record x) s = record s {
  collection_records = insert_or_replace (λ a b. a.id == b.id) (record_row x) s.collection_records;
}
execute (insert_alert x) s = record s {
  alerts = insert_or_replace (λ a b. a.id == b.id) x s.alerts;
}
execute (insert_session x) s = record s {
  sessions = insert_or_replace (λ a b. a.id == b.id) x s.sessions;
}
execute (insert_log x) s = record s {
  audit_logs = insert_or_replace (λ a b. a.id == b.id) x s.audit_logs;
}

-- `_persist_state_to_tables`: all tables are emptied, parents are filled before their children.
unfoldable pub persist_state_to_tables : State → List Sql
persist_state_to_tables s =
    delete_records
    ∷ delete_alerts
    ∷ delete_sessions
    ∷ delete_logs
    ∷ delete_devices
    ∷ delete_groups
    ∷ delete_users
    ∷ put_config s.started_at s.retention_settings s.default_collection_interval s.metrics
    ∷ (map insert_group s.device_groups
        ++ (map insert_device s.devices
            ++ (map insert_user s.users
                ++ (map insert_record s.collection_records
                    ++ (map insert_alert s.alerts
                        ++ (map insert_session s.sessions ++ map insert_log s.audit_logs))))))

-- ORDER BY sort_order, name
abbrev pub group_order : Group → Group → Bool
group_order a b =
    ltb_ℤ a.sort_order b.sort_order || leb_ℤ a.sort_order b.sort_order && text_le a.name b.name

-- ORDER BY collected_at DESC, id DESC
abbrev pub record_order : Record → Record → Bool
record_order a b =
    not (leb a.collected_at b.collected_at)
    || nat_eq a.collected_at b.collected_at && text_le b.id a.id

abbrev pub or_null : Option Text → Option Text
or_null none = none
or_null (some s) = if is_empty s then none else some s

-- `_normalize_loaded_device_credentials`
unfoldable pub normalize_loaded_device_credentials : Device → Device
normalize_loaded_device_credentials d =
    if d.auth_type == txt "password"
    then record d { password = or_null d.password; private_key_path = none }
    else if d.auth_type == txt "private_key"
    then record d { password = none }
    else record d { password = none; private_key_path = none }

-- `_build_state_from_tables`
unfoldable pub build_state_from_tables : State → State
unfolding normalize_loaded_device_credentials
build_state_from_tables s = record s {
  device_groups = sort group_order s.device_groups;
  devices = map normalize_loaded_device_credentials (sort (λ a b. text_le a.name b.name) s.devices);
  collection_records = take 5000 (sort record_order s.collection_records);
  alerts = sort (λ a b. leb b.created_at a.created_at) s.alerts;
  users = sort (λ a b. text_le a.username b.username) s.users;
  audit_logs = take 5000 (sort (λ a b. leb b.timestamp a.timestamp) s.audit_logs);
}

abbrev pub statement : (Sql → State → Bool) → Sql → Statement State
statement refuses sql tables = if refuses sql tables then none else some (execute sql tables)

-- The database of homeinfra/persistence.py.
unfoldable pub sqlite_database : (Sql → State → Bool) → Database State
unfolding persist_state_to_tables build_state_from_tables execute
sqlite_database refuses = record {
  persist = λ s. map (statement refuses) (persist_state_to_tables s);
  build = build_state_from_tables;
}
