-- ===== src/Audit.antt =====
-- homeinfra/audit.py: the audit log.
pub mod Fresh
use homeinfra_control_center.Prelude.{
  ℕ, suc, Option, none, some, List, [], ◌∷◌, ◌++◌, Text, txt, ◌==◌, take, if◌then◌else◌,
}
use homeinfra_control_center.Errors.{key_error}
use homeinfra_control_center.Effects.{Action, gets, modify, or_throw, pure, ◌>>=◌, ◌>>◌}
use homeinfra_control_center.Ids.{format_05d}
use homeinfra_control_center.Model.Json.{Fields}
use homeinfra_control_center.Model.State.{AuditEntry, State, isoformat}
use homeinfra_control_center.Model.Metrics.{increment, metric}

abbrev pub max_audit_logs : ℕ
max_audit_logs = 5000

-- `f"audit-{n:05d}"`
unfoldable pub audit_id : ℕ → Text
unfolding format_05d
audit_id n = txt "audit-" ++ format_05d n

-- The arguments of `record`.
pub record Event : Type 0 where
  pub actor : Text
  pub role : Text
  pub action : Text
  pub resource : Text
  pub outcome : Text
  pub request_id : Text
  pub details : Fields

unfoldable pub new_entry : ℕ → ℕ → Event → AuditEntry
new_entry now n event = record {
  id = audit_id n;
  timestamp = isoformat now;
  actor = event.actor;
  role = event.role;
  action = event.action;
  resource = event.resource;
  outcome = event.outcome;
  request_id = event.request_id;
  details = event.details;
}

unfoldable pub push_entry : AuditEntry → State → State
push_entry entry state = record state {
  audit_logs = take max_audit_logs (entry ∷ state.audit_logs);
  metrics = increment (txt "audit_events_total") state.metrics;
}

-- The mutator of `record`; a counter that is missing is a KeyError.
unfoldable pub record_mutate : ℕ → Event → Action State AuditEntry
record_mutate now event = do
  counter ← gets (λ state. metric (txt "audit_events_total") state.metrics)
  total ← or_throw counter key_error
  modify (push_entry (new_entry now (suc total) event))
  pure (new_entry now (suc total) event)

-- `list_recent`
unfoldable pub list_recent : ℕ → State → List AuditEntry
list_recent limit state = take limit state.audit_logs
