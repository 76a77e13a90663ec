-- ===== src/App/Routes.antt =====
-- The routes of `dispatch_api` in homeinfra/app.py: what each path is served by, and the permission
-- that it asks for.
pub mod Grants
use homeinfra_control_center.Prelude.{
  ℕ, Bool, true, false, ◌&&◌, ◌||◌, not, Option, none, some, List, [], ◌∷◌, Text, txt, ◌==◌, mem,
  is_empty, keep, if◌then◌else◌,
}
use homeinfra_control_center.Errors.{Result, ok, err}
use homeinfra_control_center.Errors.Checked.{◌>>=◌, ◌>>◌}
use homeinfra_control_center.Auth.Access.{require_role, require_permission}
use homeinfra_control_center.Parsers.Text.{split_on}

-- The branches of `dispatch_api` that call a service.
pub data Endpoint : Type 0 where
  live ready bootstrap_status bootstrap login : Endpoint
  logout metrics dashboard me : Endpoint
  list_groups create_group list_devices create_device : Endpoint
  list_collections list_alerts list_audit list_users create_user : Endpoint
  get_retention get_collection update_collection update_retention cleanup : Endpoint
  get_group update_group delete_group update_user reset_password : Text → Endpoint
  get_device update_device delete_device test_device refresh_device : Text → Endpoint
  device_collections resolve_alert : Text → Endpoint

-- `method == m and path == p`
abbrev is_route : Text → Text → Text → Text → Bool
is_route method path m p = method == m && path == p

abbrev get_method : Text
get_method = txt "GET"

abbrev post_method : Text
post_method = txt "POST"

-- `is_public_api_route`
unfoldable pub is_public_api_route : Text → Text → Bool
is_public_api_route method path =
    is_route method path get_method (txt "/api/v1/health/live")
    || is_route method path get_method (txt "/api/v1/ready")
    || is_route method path get_method (txt "/api/v1/health/ready")
    || is_route method path get_method (txt "/api/v1/auth/bootstrap")
    || is_route method path post_method (txt "/api/v1/auth/bootstrap")
    || is_route method path post_method (txt "/api/v1/auth/login")

-- The branches above the check of the role.
unfoldable pub open_endpoint : Text → Text → Option Endpoint
open_endpoint method path =
    if is_route method path get_method (txt "/api/v1/health/live")
    then some live
    else if method == get_method && mem path (txt "/api/v1/ready" ∷ txt "/api/v1/health/ready" ∷ [])
    then some ready
    else if is_route method path get_method (txt "/api/v1/auth/bootstrap")
    then some bootstrap_status
    else if is_route method path post_method (txt "/api/v1/auth/bootstrap")
    then some bootstrap
    else if is_route method path post_method (txt "/api/v1/auth/login")
    then some login
    else none

-- The fixed paths below it, as a table in the order of the branches.
abbrev pub fixed_routes : List (Text × Text × Endpoint)
fixed_routes =
    (post_method, txt "/api/v1/auth/logout", logout)
    ∷ (get_method, txt "/api/v1/metrics", metrics)
    ∷ (get_method, txt "/api/v1/dashboard", dashboard)
    ∷ (get_method, txt "/api/v1/device-groups", list_groups)
    ∷ (post_method, txt "/api/v1/device-groups", create_group)
    ∷ (get_method, txt "/api/v1/devices", list_devices)
    ∷ (post_method, txt "/api/v1/devices", create_device)
    ∷ (get_method, txt "/api/v1/collections", list_collections)
    ∷ (get_method, txt "/api/v1/alerts", list_alerts)
    ∷ (get_method, txt "/api/v1/audit", list_audit)
    ∷ (get_method, txt "/api/v1/auth/me", me)
    ∷ (get_method, txt "/api/v1/users", list_users)
    ∷ (post_method, txt "/api/v1/users", create_user)
    ∷ (get_method, txt "/api/v1/settings/retention", get_retention)
    ∷ (get_method, txt "/api/v1/settings/collection", get_collection)
    ∷ (txt "PATCH", txt "/api/v1/settings/collection", update_collection)
    ∷ (txt "PATCH", txt "/api/v1/settings/retention", update_retention)
    ∷ (post_method, txt "/api/v1/settings/retention/cleanup", cleanup)
    ∷ []

abbrev pub route_in : List (Text × Text × Endpoint) → Text → Text → Option Endpoint
route_in [] method path = none
route_in ((m, p, e) ∷ routes) method path =
    if is_route method path m p then some e else route_in routes method path

-- `[part for part in path.split("/") if part]`
unfoldable pub path_parts : Text → List Text
unfolding split_on
path_parts path = keep (λ part. not (is_empty part)) (split_on b'/' path)

-- What a path with an id comes to: an endpoint, or nothing; the latter asks for a permission first
-- where the path begins with `users`.
pub data Route : Type 0 where
  serve : Endpoint → Route
  unknown : Route
  unknown_user_path : Route

unfoldable pub group_route : Text → Text → Route
group_route method id =
    if method == get_method
    then serve (get_group id)
    else if method == txt "PATCH"
    then serve (update_group id)
    else if method == txt "DELETE"
    then serve (delete_group id)
    else unknown

unfoldable pub user_route : Text → List Text → Route
user_route method (id ∷ []) =
    if method == txt "PATCH" then serve (update_user id) else unknown_user_path
user_route method (id ∷ action ∷ []) =
    if method == post_method && action == txt "reset-password"
    then serve (reset_password id)
    else unknown_user_path
user_route method _ = unknown_user_path

unfoldable pub device_route : Text → List Text → Route
device_route method (id ∷ []) =
    if method == get_method
    then serve (get_device id)
    else if method == txt "PATCH"
    then serve (update_device id)
    else if method == txt "DELETE"
    then serve (delete_device id)
    else unknown
device_route method (id ∷ action ∷ []) =
    if method == post_method && action == txt "test"
    then serve (test_device id)
    else if method == post_method && action == txt "refresh"
    then serve (refresh_device id)
    else if method == get_method && action == txt "collections"
    then serve (device_collections id)
    else unknown
device_route method _ = unknown

unfoldable pub alert_route : Text → List Text → Route
alert_route method (id ∷ action ∷ []) =
    if method == post_method && action == txt "resolve" then serve (resolve_alert id) else unknown
alert_route method _ = unknown

abbrev group_of_parts : Text → List Text → Route
group_of_parts method (id ∷ []) = group_route method id
group_of_parts method _ = unknown

-- The parts of the path.
unfoldable pub resource_route : Text → List Text → Route
unfolding group_route user_route device_route alert_route
resource_route method (api ∷ version ∷ kind ∷ parts) =
    if not (api == txt "api" && version == txt "v1")
    then unknown
    else if kind == txt "device-groups"
    then group_of_parts method parts
    else if kind == txt "users"
    then user_route method parts
    else if kind == txt "devices"
    then device_route method parts
    else if kind == txt "alerts"
    then alert_route method parts
    else unknown
resource_route method _ = unknown

abbrev pub serve_or : Option Endpoint → Route → Route
serve_or none route = route
serve_or (some e) route = serve e

-- The branches below the check of the role.
unfoldable pub guarded_route : Text → Text → Route
unfolding path_parts resource_route
guarded_route method path =
    serve_or (route_in fixed_routes method path) (resource_route method (path_parts path))

-- The arguments of `require_permission`, in the branches that call it.
unfoldable pub permission_of : Endpoint → Option (Text × Text)
permission_of create_group = some (txt "groups", txt "write")
permission_of create_device = some (txt "devices", txt "write")
permission_of list_audit = some (txt "audit", txt "read")
permission_of list_users = some (txt "users", txt "read")
permission_of create_user = some (txt "users", txt "write")
permission_of get_retention = some (txt "settings", txt "read")
permission_of get_collection = some (txt "settings", txt "read")
permission_of update_collection = some (txt "settings", txt "write")
permission_of update_retention = some (txt "settings", txt "write")
permission_of cleanup = some (txt "settings", txt "write")
permission_of (update_group id) = some (txt "groups", txt "write")
permission_of (delete_group id) = some (txt "groups", txt "delete")
permission_of (update_user id) = some (txt "users", txt "write")
permission_of (reset_password id) = some (txt "users", txt "write")
permission_of (update_device id) = some (txt "devices", txt "write")
permission_of (delete_device id) = some (txt "devices", txt "delete")
permission_of (test_device id) = some (txt "devices", txt "test")
permission_of (refresh_device id) = some (txt "devices", txt "refresh")
permission_of (resolve_alert id) = some (txt "alerts", txt "write")
permission_of _ = none

abbrev pub require : Text → Option (Text × Text) → Result (Unit {0})
require role none = ok tt
require role (some (resource, action)) = require_permission (some role) resource action none none

-- The call of `require_permission` of a branch.
unfoldable pub authorise : Text → Endpoint → Result (Unit {0})
unfolding permission_of require_permission
authorise role e = require role (permission_of e)
