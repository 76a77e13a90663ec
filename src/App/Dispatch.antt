-- ===== src/App/Dispatch.antt =====
-- `dispatch_api` of homeinfra/app.py over the services that they call.
pub mod Guards
pub mod Handle
use homeinfra_control_center.Prelude.{
  ℕ, Bool, true, false, not, Option, none, some, List, [], ◌∷◌, ◌++◌, String, Text, txt, lower,
  starts_with, or_else, if◌then◌else◌,
}
use homeinfra_control_center.Prelude.Int.{pos}
use homeinfra_control_center.Errors.{
  Error, Result, ok, err, auth_required, forbidden, conflict, validation_error, not_found,
  rate_limited, confirmation_required, payload_too_large, key_error, type_error, index_error,
  integrity_error,
}
use homeinfra_control_center.Effects.{Action, pure, throw, lift, ◌>>=◌, ◌>>◌}
use homeinfra_control_center.Model.Json.{Value, str, int, Fields, end}
use homeinfra_control_center.Auth.Operations.{Principal}
use homeinfra_control_center.Auth.Access.{require_role, require_permission}
use homeinfra_control_center.Audit.{Event}
use homeinfra_control_center.Parsers.Tables.{dict}
use homeinfra_control_center.App.Requests.{
  UrlQuery, query_value, parse_limit, parse_audit_limit, parse_bool_query, parse_timeout,
  extract_client_ip,
}
use homeinfra_control_center.App.Sanitize.{safe_audit_payload}
use homeinfra_control_center.App.Routes.{
  Endpoint, live, ready, bootstrap_status, bootstrap, login, logout, metrics, dashboard, me,
  list_groups, create_group, list_devices, create_device, list_collections, list_alerts, list_audit,
  list_users, create_user, get_retention, get_collection, update_collection, update_retention,
  cleanup, get_group, update_group, delete_group, update_user, reset_password, get_device,
  update_device, delete_device, test_device, refresh_device, device_collections, resolve_alert,
  Route, serve, unknown, unknown_user_path, is_public_api_route, open_endpoint, guarded_route,
  authorise,
}

pub record ApiRequest : Type 0 where
  pub method : Text
  pub path : Text
  pub headers : List (Text × Text)
  pub body : Fields
  pub query : UrlQuery
  pub client_ip : Option Text
  pub request_id : Text

-- What a branch reads from the query or the body before it calls the service.
pub data Argument : Type 0 where
  no_argument : Argument
  limit : ℕ → Argument
  timeout : ℕ → Argument
  enabled : Option Bool → Argument

-- A call of a service.
pub record Call : Type 0 where
  pub endpoint : Endpoint
  pub body : Fields
  pub query : UrlQuery
  pub argument : Argument
  pub principal : Option Principal
  pub client_ip : Text

-- The answer of a service, and the values of it that an audit entry shows.
pub record Answer : Type 0 where
  pub value : Value
  pub id : Text
  pub user_id : Text
  pub username : Text
  pub role : Text
  pub record_status : Text
  pub deleted : Fields

-- The services over their state, as `HomeInfraApp` holds them.
pub record Services (S : Type 0) : Type 0 where
  pub run : Call → Action S Answer
  pub audit : Event → Action S (Unit {0})
  pub resolve_principal : List (Text × Text) → Action S Principal
  pub prepare_device : Fields → Result Fields

-- `query.get("limit", [default])[0]`
abbrev limit_text : String → UrlQuery → Text
limit_text default query = elim (query_value (txt "limit") query) [
  | none ↦ txt default
  | some s ↦ s
]

abbrev as_argument : {A : Type 0} → (A → Argument) → Result A → Result Argument
as_argument f (ok a) = ok (f a)
as_argument f (err e) = err e

unfoldable pub argument_of : Endpoint → ApiRequest → Result Argument
unfolding parse_bool_query parse_limit parse_audit_limit parse_timeout
argument_of list_devices req =
    as_argument enabled (parse_bool_query (query_value (txt "enabled") req.query))
argument_of list_collections req =
    as_argument limit (parse_limit (some (limit_text "50" req.query)) 200)
argument_of (device_collections id) req =
    as_argument limit (parse_limit (some (limit_text "20" req.query)) 200)
argument_of list_audit req = as_argument limit (parse_audit_limit (limit_text "50" req.query))
argument_of (test_device id) req = as_argument timeout (parse_timeout req.body req.query)
argument_of (refresh_device id) req = as_argument timeout (parse_timeout req.body req.query)
argument_of _ req = ok no_argument

-- `create_device` adds what the check of the connection found to the body.
unfoldable pub body_of : (Fields → Result Fields) → Endpoint → Fields → Result Fields
body_of prepare create_device body = prepare body
body_of prepare e body = ok body

-- What the audit entry of a branch says: `action`, `resource`, `outcome` and `details`.
pub record Audited : Type 0 where
  pub action : Text
  pub resource : Text
  pub outcome : Text
  pub details : Fields

abbrev success : String → Text → Fields → Option Audited
success action resource details = some (record {
  action = txt action;
  resource = resource;
  outcome = txt "success";
  details = details;
})

abbrev timeout_details : Argument → Fields
timeout_details (timeout n) = dict (("timeout", int (pos n)) ∷ [])
timeout_details _ = end

unfoldable pub audited : Endpoint → Call → Answer → Option Audited
unfolding safe_audit_payload
audited bootstrap c a =
    success "auth.bootstrap" (txt "auth/bootstrap") (dict (("user_id", str a.user_id) ∷ []))
audited login c a = success "auth.login" (txt "auth/login") end
audited logout c a = success "auth.logout" (txt "auth/logout") end
audited create_group c a =
    success "device_group.create" (txt "device-groups/" ++ a.id) (safe_audit_payload c.body)
audited create_device c a =
    success "device.create" (txt "devices/" ++ a.id) (safe_audit_payload c.body)
audited create_user c a = success "user.create" (txt "users/" ++ a.id) (safe_audit_payload c.body)
audited update_collection c a =
    success "collection.update" (txt "settings/collection") (safe_audit_payload c.body)
audited update_retention c a =
    success "retention.update" (txt "settings/retention") (safe_audit_payload c.body)
audited cleanup c a = success "retention.cleanup" (txt "settings/retention/cleanup") a.deleted
audited (update_group id) c a =
    success "device_group.update" (txt "device-groups/" ++ id) (safe_audit_payload c.body)
audited (delete_group id) c a = success "device_group.delete" (txt "device-groups/" ++ id) end
audited (update_user id) c a =
    success "user.update" (txt "users/" ++ id) (safe_audit_payload c.body)
audited (reset_password id) c a =
    success "user.password.reset" (txt "users/" ++ id) (safe_audit_payload c.body)
audited (update_device id) c a =
    success "device.update" (txt "devices/" ++ id) (safe_audit_payload c.body)
audited (delete_device id) c a = success "device.delete" (txt "devices/" ++ id) end
audited (test_device id) c a = some (record {
  action = txt "device.test";
  resource = txt "devices/" ++ id;
  outcome = a.record_status;
  details = timeout_details c.argument;
})
audited (refresh_device id) c a = some (record {
  action = txt "device.refresh";
  resource = txt "devices/" ++ id;
  outcome = a.record_status;
  details = timeout_details c.argument;
})
audited (resolve_alert id) c a = success "alert.resolve" (txt "alerts/" ++ id) end
audited _ c a = none

-- The actor is the principal, or the user of the answer where there is none yet.
unfoldable pub audit_event : Text → Call → Answer → Audited → Event
audit_event request_id c a entry = record {
  actor = elim c.principal [ none ↦ a.username | some p ↦ p.username ];
  role = elim c.principal [ none ↦ a.role | some p ↦ p.role ];
  action = entry.action;
  resource = entry.resource;
  outcome = entry.outcome;
  request_id = request_id;
  details = entry.details;
}

module _ {S : Type 0} (svc : Services S) where
  abbrev pub write_audit : Option Event → Action S (Unit {0})
  write_audit none = pure tt
  write_audit (some event) = svc.audit event

  abbrev pub event_of : Text → Call → Answer → Option Audited → Option Event
  event_of request_id c a none = none
  event_of request_id c a (some entry) = some (audit_event request_id c a entry)

  -- The call of a branch and its audit entry.
  unfoldable pub perform : Text → Call → Action S Value
  perform request_id c = do
    answer ← svc.run c
    write_audit (event_of request_id c answer (audited c.endpoint c answer))
    pure answer.value

  -- A branch below the check of the role.
  unfoldable pub serve_guarded : ApiRequest → Principal → Endpoint → Action S Value
  serve_guarded req p e = do
    lift (authorise p.role e)
    argument ← lift (argument_of e req)
    body ← lift (body_of svc.prepare_device e req.body)
    perform req.request_id (record {
      endpoint = e;
      body = body;
      query = req.query;
      argument = argument;
      principal = some p;
      client_ip = extract_client_ip req.client_ip;
    })

  unfoldable pub serve_route : ApiRequest → Principal → Route → Action S Value
  serve_route req p (serve e) = serve_guarded req p e
  serve_route req p unknown = throw (not_found "route" req.path)
  serve_route req p unknown_user_path = do
    lift (require_permission (some p.role) (txt "users") (txt "write") none none)
    throw (not_found "route" req.path)

  abbrev pub role_of_principal : Option Principal → Option Text
  role_of_principal none = none
  role_of_principal (some p) = some p.role

  -- What stands below the open branches.
  unfoldable pub dispatch_guarded : ApiRequest → Option Principal → Action S Value
  dispatch_guarded req none = do
    lift (require_role none (txt "viewer"))
    throw (auth_required "需要认证")
  dispatch_guarded req (some p) = do
    lift (require_role (some p.role) (txt "viewer"))
    serve_route req p (guarded_route req.method req.path)

  abbrev pub dispatch_to : ApiRequest → Option Principal → Option Endpoint → Action S Value
  dispatch_to req principal none = dispatch_guarded req principal
  dispatch_to req principal (some e) = perform req.request_id (record {
    endpoint = e;
    body = req.body;
    query = req.query;
    argument = no_argument;
    principal = none;
    client_ip = extract_client_ip req.client_ip;
  })

  unfoldable pub dispatch_api : ApiRequest → Option Principal → Action S Value
  dispatch_api req principal = dispatch_to req principal (open_endpoint req.method req.path)
