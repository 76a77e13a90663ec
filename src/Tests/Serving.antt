-- ===== src/Tests/Serving.antt =====
-- The HTTP routes, the audit payload and the collectors on samples, and their theorems.
use homeinfra_control_center.Prelude.{
  ℕ, zero, suc, ◌≡◌, ◌≢◌, refl, arith, any, true, false, none, some, [], ◌∷◌, txt, All,
  if◌then◌else◌,
}
use homeinfra_control_center.Prelude.Int.{pos}
use homeinfra_control_center.Errors.{ok, err, forbidden}
use homeinfra_control_center.Model.Json.{null, int, str, arr, obj, nil, cons, Fields, end}
use homeinfra_control_center.Parsers.Tables.{dict}
use homeinfra_control_center.Auth.Operations.{Principal}
use homeinfra_control_center.App.Routes.{serve, logout}
use homeinfra_control_center.App.Routes.Grants.{is_read, viewer}
use homeinfra_control_center.App.Dispatch.{ApiRequest, Answer, Services}
use homeinfra_control_center.App.Dispatch.Guards.{ReadsKeep, viewer_changes_nothing}
use homeinfra_control_center.App.Sanitize.{sanitize, safe_audit_payload}
use homeinfra_control_center.App.Sanitize.Clean.{FieldsClean, safe_audit_payload-FieldsClean}
use homeinfra_control_center.Model.State.{Device}
use homeinfra_control_center.Collectors.Connect.{Host}
use homeinfra_control_center.Collectors.Retry.{RetryStrategy}
use homeinfra_control_center.Collectors.Retry.Delays.{IsStrategy}
use homeinfra_control_center.Collectors.Execute.{Probes, Connect, done, is_disallowed}
use homeinfra_control_center.Collectors.Execute.Attempts.{Ends, execute_commands-Ends}
use homeinfra_control_center.Collectors.HostKeys.{HostKeys}
use homeinfra_control_center.Collectors.HostKeys.RoundTrip.{IsEntry, Distinct, load-saved_entries}
use homeinfra_control_center.Prelude.{
  ◌==◌, is_space, strip, lower_char, lower, upper_char, upper, starts_with, contains, text_le,
}
use homeinfra_control_center.Ids.{
  is_digit, scan_int, unsigned, parse_int, after_last_dash, emit, format_05d, raise_highest,
  highest_of, next_numbered_id,
}
use homeinfra_control_center.Model.Json.{lookup, get_or, get, has, set}
use homeinfra_control_center.Auth.Access.{
  permission_set, compare_levels, require_role, rpartition_colon, requested_permission,
  in_allowed_groups, decide, can_access, has_permission, require_permission,
}
use homeinfra_control_center.Parsers.Text.{
  is_line_break, split_lines, splitlines, begins_word, split, split_on, before_first, after_first,
  after_token, before_token, after_last_token, occurrences, ends_with, is_number_text,
  stripped_lines,
}
use homeinfra_control_center.App.Dispatch.{
  argument_of, body_of, audited, audit_event, perform, serve_guarded, serve_route, dispatch_guarded,
  dispatch_api,
}
use homeinfra_control_center.App.Dispatch.Handle.{
  error_code, record_api_error, on_error, resolve_request_principal, handle_api_request,
}
use homeinfra_control_center.App.Requests.{
  parse_json_object_body, parse_limit, parse_audit_limit, parse_bool_query, int_of, timeout_value,
  checked_timeout, parse_timeout, extract_client_ip, is_confirmed, sanitize_ssh_validation_message,
}
use homeinfra_control_center.App.Routes.{
  is_public_api_route, open_endpoint, path_parts, group_route, user_route, device_route,
  alert_route, resource_route, guarded_route, permission_of, authorise,
}
use homeinfra_control_center.App.Sanitize.{is_sensitive}
use homeinfra_control_center.App.Startup.{
  resolve_collector_mode, prepare_device, count_up, mark_request, mark_error, mark_high_risk_denied,
  ensure_confirmation,
}
use homeinfra_control_center.Collectors.Commands.{
  allow_stored_password_auth, is_command_char, command_allowed,
}
use homeinfra_control_center.Collectors.Connect.{key_secret, password_secret, build_connect_kwargs}
use homeinfra_control_center.Collectors.Execute.{
  set_output, execute_disabled, mock_outputs, execute_mock, run_error, run_output, run_probes,
  connect_and_execute, retry_loop, refusal, execute_commands, quick_verify,
}
use homeinfra_control_center.Collectors.HostKeys.{
  fingerprint_sha256, to_known_hosts_line, put_entry, lookup_entry, read_entry, read_line,
  read_lines, load_entries, join_lines, saved_entries, add_entry, remove_entry,
}
use homeinfra_control_center.Collectors.Retry.{retry_strategy, delay_for}

-- What the tests run.
unfoldable program : Unit {0}
unfolding ◌==◌ is_space strip lower_char lower upper_char upper starts_with contains text_le
    is_digit scan_int unsigned parse_int after_last_dash emit format_05d raise_highest highest_of
    next_numbered_id lookup get_or get has set permission_set compare_levels require_role
    rpartition_colon requested_permission in_allowed_groups decide can_access has_permission
    require_permission is_line_break split_lines splitlines begins_word split split_on before_first
    after_first after_token before_token after_last_token occurrences ends_with is_number_text
    stripped_lines argument_of body_of audited audit_event error_code perform serve_guarded
    serve_route dispatch_guarded dispatch_api record_api_error on_error resolve_request_principal
    handle_api_request parse_json_object_body parse_limit parse_audit_limit parse_bool_query int_of
    timeout_value checked_timeout parse_timeout extract_client_ip is_confirmed
    sanitize_ssh_validation_message is_public_api_route open_endpoint path_parts group_route
    user_route device_route alert_route resource_route guarded_route permission_of authorise
    is_sensitive resolve_collector_mode prepare_device count_up mark_request mark_error
    mark_high_risk_denied ensure_confirmation allow_stored_password_auth is_command_char
    command_allowed key_secret password_secret build_connect_kwargs set_output execute_disabled
    mock_outputs execute_mock run_error run_output run_probes connect_and_execute retry_loop refusal
    execute_commands quick_verify fingerprint_sha256 to_known_hosts_line put_entry lookup_entry
    read_entry read_line read_lines load_entries join_lines saved_entries add_entry remove_entry
    retry_strategy delay_for sanitize
program = tt

-- Services that count the calls which change something.
abbrev answer : Answer
answer = record {
  value = null;
  id = txt "x";
  user_id = txt "usr-00001";
  username = txt "ann";
  role = txt "viewer";
  record_status = txt "success";
  deleted = end;
}

abbrev principal : Principal
principal = record {
  user_id = txt "usr-00002";
  username = txt "ann";
  role = txt "viewer";
  subject = txt "user:ann";
  auth_scheme = txt "session";
  session_id = txt "ses-00002";
  session_expires_at = none;
}

abbrev counting : Services ℕ
counting = record {
  run = λ c s. (ok answer, if is_read c.endpoint then s else suc s);
  audit = λ event s. (ok tt, s);
  resolve_principal = λ headers s. (ok principal, s);
  prepare_device = λ body. ok body;
}

counting-ReadsKeep : ReadsKeep counting
counting-ReadsKeep c s h = rw h refl

abbrev delete_request : ApiRequest
delete_request = record {
  method = txt "DELETE";
  path = txt "/api/v1/devices/dev-nas";
  headers = [];
  body = end;
  query = [];
  client_ip = none;
  request_id = txt "req-000001";
}

not_public : is_public_api_route (txt "DELETE") (txt "/api/v1/devices/dev-nas") ≡ false
unfolding program
not_public = refl

not_logout : guarded_route (txt "DELETE") (txt "/api/v1/devices/dev-nas") ≢ serve logout
unfolding program
not_logout e = cc

viewer_changes_nothing_example : (dispatch_api counting delete_request (some principal) 7).1 ≡ 7
viewer_changes_nothing_example =
    viewer_changes_nothing counting delete_request principal 7 counting-ReadsKeep viewer not_public
      not_logout

viewer_is_refused :
    (dispatch_api counting delete_request (some principal) 7).0 ≡ err (forbidden "{}")
unfolding program
viewer_is_refused = refl

-- A body with a secret below a list.
abbrev secret_body : Fields
secret_body = dict (
    ("name", str (txt "nas"))
    ∷ ("Password", str (txt "s3cret"))
    ∷ ("more", arr (cons (obj (dict (("token", str (txt "t")) ∷ ("port", int (pos 22)) ∷ []))) nil))
    ∷ [])

safe_audit_payload-FieldsClean_example :
    FieldsClean (safe_audit_payload secret_body)
    × (FieldsClean secret_body → safe_audit_payload secret_body ≡ secret_body)
safe_audit_payload-FieldsClean_example = safe_audit_payload-FieldsClean secret_body

secrets_dropped :
    safe_audit_payload secret_body
    ≡ dict (
        ("name", str (txt "nas"))
        ∷ ("more", arr (cons (obj (dict (("port", int (pos 22)) ∷ []))) nil))
        ∷ [])
unfolding program
secrets_dropped = refl

-- A host that answers on the second attempt.
abbrev some_host : Host
some_host = record {
  expanduser = λ path. path;
  exists = λ path. true;
  allow_stored_password = none;
}

abbrev answers_later : Connect
answers_later zero arguments = none
answers_later (suc n) arguments = some (λ command. done command [] (pos 0))

abbrev strategy : RetryStrategy
strategy = record { max_retries = 3; base_delay = 1000; max_delay = 30000; multiplier = 2 }

strategy-IsStrategy : IsStrategy strategy
strategy-IsStrategy = omega arith

abbrev nas : Device
nas = record {
  id = txt "dev-nas";
  name = txt "nas";
  host = txt "192.0.2.7";
  port = pos 22;
  username = txt "root";
  auth_type = txt "password";
  password = some (txt "s3cret");
  private_key_path = none;
  device_type = txt "nas";
  group_id = txt "grp-ungrouped";
  tags = [];
  enabled = true;
  collection_interval = pos 300;
  last_seen = none;
  status = txt "unknown";
  verified = false;
  online_status = none;
  health_status = none;
  created_at = 0;
  updated_at = 0;
}

abbrev probes : Probes
probes = (txt "hostname", txt "hostname") ∷ (txt "df", txt "df -P") ∷ []

execute_commands-Ends_example :
    Ends strategy 4 (execute_commands strategy true some_host answers_later nas probes 10)
    × (any is_disallowed probes ≡ true
        → (execute_commands strategy true some_host answers_later nas probes 10).attempts ≡ 0)
execute_commands-Ends_example =
    execute_commands-Ends strategy true some_host answers_later nas probes 10 strategy-IsStrategy

second_attempt : (execute_commands strategy true some_host answers_later nas probes 10).attempts ≡ 2
unfolding program
second_attempt = refl

one_pause :
    (execute_commands strategy true some_host answers_later nas probes 10).pauses ≡ 1000 ∷ []
unfolding program
one_pause = refl

reboot_refused : command_allowed (txt "hostname; reboot") ≡ false
unfolding program
reboot_refused = refl

semicolon_passes : command_allowed (txt "hostname; touch /tmp/x") ≡ true
unfolding program
semicolon_passes = refl

-- Two known hosts.
abbrev known : HostKeys
known =
    record { hostname = txt "nas"; key_type = txt "rsa"; key_base64 = txt "AB=" }
    ∷ record { hostname = txt "pve"; key_type = txt "rsa"; key_base64 = txt "CD=" }
    ∷ []

known-IsEntry : All IsEntry known
unfolding program
known-IsEntry = (
  record {
    host = (refl, (refl, (refl, tt)));
    kind = (refl, (refl, (refl, tt)));
    key = (refl, (refl, (refl, tt)));
    plain = refl;
  },
  (
    record {
      host = (refl, (refl, (refl, tt)));
      kind = (refl, (refl, (refl, tt)));
      key = (refl, (refl, (refl, tt)));
      plain = refl;
    },
    tt,
  ),
)

known-Distinct : Distinct known
unfolding program
known-Distinct = ((refl, tt), (tt, tt))

load-saved_entries_example : load_entries (saved_entries known) ≡ known
load-saved_entries_example = load-saved_entries known known-IsEntry known-Distinct
