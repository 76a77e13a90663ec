-- ===== src/App/Routes/Grants.antt =====
-- Which endpoints the roles can reach, by the permission sets of homeinfra/auth.py.
use homeinfra_control_center.Prelude.{
  Bool, true, false, ◌||◌, ◌≡◌, refl, arith, Option, none, some, Text, txt, ◌==◌, List, [], ◌∷◌,
  All, if◌then◌else◌,
}
use homeinfra_control_center.Errors.{Result, ok, err}
use homeinfra_control_center.Auth.Access.{require_permission}
use homeinfra_control_center.App.Routes.{
  Endpoint, live, ready, bootstrap_status, logout, metrics, dashboard, me, list_groups,
  create_group, list_devices, create_device, list_collections, list_alerts, list_audit, list_users,
  create_user, get_retention, get_collection, update_collection, update_retention, cleanup,
  get_group, update_group, delete_group, update_user, reset_password, get_device, update_device,
  delete_device, test_device, refresh_device, device_collections, resolve_alert, Route, serve,
  group_route, user_route, device_route, alert_route, group_of_parts, serve_or, resource_route,
  route_in, fixed_routes, guarded_route, path_parts, authorise, is_public_api_route, open_endpoint,
  permission_of,
}

-- The endpoints that only read.
unfoldable pub is_read : Endpoint → Bool
is_read live = true
is_read ready = true
is_read bootstrap_status = true
is_read metrics = true
is_read dashboard = true
is_read me = true
is_read list_groups = true
is_read list_devices = true
is_read list_collections = true
is_read list_alerts = true
is_read list_audit = true
is_read list_users = true
is_read get_retention = true
is_read get_collection = true
is_read (get_group id) = true
is_read (get_device id) = true
is_read (device_collections id) = true
is_read _ = false

-- The endpoints below the check of the role that change something, but for the logout.
unfoldable pub is_change : Endpoint → Bool
is_change create_group = true
is_change create_device = true
is_change create_user = true
is_change update_collection = true
is_change update_retention = true
is_change cleanup = true
is_change (update_group id) = true
is_change (delete_group id) = true
is_change (update_user id) = true
is_change (reset_password id) = true
is_change (update_device id) = true
is_change (delete_device id) = true
is_change (test_device id) = true
is_change (refresh_device id) = true
is_change (resolve_alert id) = true
is_change _ = false

abbrev pub Refused : Result (Unit {0}) → Type 0
Refused (ok u) = ⊥
Refused (err e) = Unit

viewer-Refused : (e : Endpoint) → is_change e ≡ true → Refused (authorise (txt "viewer") e)
unfolding is_change authorise permission_of require_permission ◌==◌
viewer-Refused create_group h = tt
viewer-Refused create_device h = tt
viewer-Refused create_user h = tt
viewer-Refused update_collection h = tt
viewer-Refused update_retention h = tt
viewer-Refused cleanup h = tt
viewer-Refused (update_group id) h = tt
viewer-Refused (delete_group id) h = tt
viewer-Refused (update_user id) h = tt
viewer-Refused (reset_password id) h = tt
viewer-Refused (update_device id) h = tt
viewer-Refused (delete_device id) h = tt
viewer-Refused (test_device id) h = tt
viewer-Refused (refresh_device id) h = tt
viewer-Refused (resolve_alert id) h = tt
viewer-Refused _ h = cc

auditor-Refused : (e : Endpoint) → is_change e ≡ true → Refused (authorise (txt "auditor") e)
unfolding is_change authorise permission_of require_permission ◌==◌
auditor-Refused create_group h = tt
auditor-Refused create_device h = tt
auditor-Refused create_user h = tt
auditor-Refused update_collection h = tt
auditor-Refused update_retention h = tt
auditor-Refused cleanup h = tt
auditor-Refused (update_group id) h = tt
auditor-Refused (delete_group id) h = tt
auditor-Refused (update_user id) h = tt
auditor-Refused (reset_password id) h = tt
auditor-Refused (update_device id) h = tt
auditor-Refused (delete_device id) h = tt
auditor-Refused (test_device id) h = tt
auditor-Refused (refresh_device id) h = tt
auditor-Refused (resolve_alert id) h = tt
auditor-Refused _ h = cc

-- The two roles that may only look.
pub data ReadsOnly : Text → Type 0 where
  viewer : ReadsOnly (txt "viewer")
  auditor : ReadsOnly (txt "auditor")

pub ReadsOnly-Refused :
    {role : Text}
    → ReadsOnly role
    → (e : Endpoint) → is_change e ≡ true
    → Refused (authorise role e)
ReadsOnly-Refused viewer = viewer-Refused
ReadsOnly-Refused auditor = auditor-Refused

abbrev pub has_endpoint : Option Endpoint → Bool
has_endpoint none = false
has_endpoint (some e) = true

pub is_public-open_endpoint :
    (method path : Text)
    → is_public_api_route method path ≡ has_endpoint (open_endpoint method path)
unfolding is_public_api_route open_endpoint
is_public-open_endpoint method path = ground arith

-- What a branch below the check of the role may serve.
abbrev pub is_guarded : Endpoint → Bool
is_guarded logout = true
is_guarded e = is_read e || is_change e

abbrev pub Guarded : Route → Type 0
Guarded (serve e) = is_guarded e ≡ true
Guarded _ = Unit

if-Guarded : (b : Bool) (r s : Route) → Guarded r → Guarded s → Guarded (if b then r else s)
if-Guarded true r s x y = x
if-Guarded false r s x y = y

group_route-Guarded : (method id : Text) → Guarded (group_route method id)
unfolding group_route is_read is_change
group_route-Guarded method id = search (if-Guarded, tt)

user_route-Guarded : (method : Text) (parts : List Text) → Guarded (user_route method parts)
unfolding user_route is_read is_change
user_route-Guarded method [] = tt
user_route-Guarded method (id ∷ []) = search (if-Guarded, tt)
user_route-Guarded method (id ∷ action ∷ []) = search (if-Guarded, tt)
user_route-Guarded method (id ∷ action ∷ part ∷ parts) = tt

device_route-Guarded : (method : Text) (parts : List Text) → Guarded (device_route method parts)
unfolding device_route is_read is_change
device_route-Guarded method [] = tt
device_route-Guarded method (id ∷ []) = search (if-Guarded, tt)
device_route-Guarded method (id ∷ action ∷ []) = search (if-Guarded, tt)
device_route-Guarded method (id ∷ action ∷ part ∷ parts) = tt

alert_route-Guarded : (method : Text) (parts : List Text) → Guarded (alert_route method parts)
unfolding alert_route is_read is_change
alert_route-Guarded method [] = tt
alert_route-Guarded method (id ∷ []) = tt
alert_route-Guarded method (id ∷ action ∷ []) = search (if-Guarded, tt)
alert_route-Guarded method (id ∷ action ∷ part ∷ parts) = tt

group_of_parts-Guarded : (method : Text) (parts : List Text) → Guarded (group_of_parts method parts)
group_of_parts-Guarded method [] = tt
group_of_parts-Guarded method (id ∷ []) = group_route-Guarded method id
group_of_parts-Guarded method (id ∷ part ∷ parts) = tt

resource_route-Guarded : (method : Text) (parts : List Text) → Guarded (resource_route method parts)
unfolding resource_route
resource_route-Guarded method [] = tt
resource_route-Guarded method (api ∷ []) = tt
resource_route-Guarded method (api ∷ version ∷ []) = tt
resource_route-Guarded method (api ∷ version ∷ kind ∷ parts) =
    search
      (
        if-Guarded,
        tt,
        group_of_parts-Guarded method parts,
        user_route-Guarded method parts,
        device_route-Guarded method parts,
        alert_route-Guarded method parts,
      )
      depth 9

abbrev GuardedEndpoint : Option Endpoint → Type 0
GuardedEndpoint none = Unit
GuardedEndpoint (some e) = is_guarded e ≡ true

if-GuardedEndpoint :
    (b : Bool) (e : Endpoint) (o : Option Endpoint)
    → is_guarded e ≡ true
    → GuardedEndpoint o
    → GuardedEndpoint (if b then some e else o)
if-GuardedEndpoint true e o x y = x
if-GuardedEndpoint false e o x y = y

route_in-GuardedEndpoint :
    (routes : List (Text × Text × Endpoint)) (method path : Text)
    → All (λ (r : Text × Text × Endpoint). is_guarded r.2 ≡ true) routes
    → GuardedEndpoint (route_in routes method path)
route_in-GuardedEndpoint [] method path h = tt
route_in-GuardedEndpoint ((m, p, e) ∷ routes) method path h =
    if-GuardedEndpoint _ e (route_in routes method path) h.0
      (route_in-GuardedEndpoint routes method path h.1)

fixed_routes-Guarded : All (λ (r : Text × Text × Endpoint). is_guarded r.2 ≡ true) fixed_routes
unfolding is_read is_change
fixed_routes-Guarded = (
  refl,
  (
    refl,
    (
      refl,
      (
        refl,
        (
          refl,
          (
            refl,
            (
              refl,
              (
                refl,
                (refl, (refl, (refl, (refl, (refl, (refl, (refl, (refl, (refl, (refl, tt)))))))))),
              ),
            ),
          ),
        ),
      ),
    ),
  ),
)

serve_or-Guarded :
    (o : Option Endpoint) (route : Route)
    → GuardedEndpoint o
    → Guarded route
    → Guarded (serve_or o route)
serve_or-Guarded none route h k = k
serve_or-Guarded (some e) route h k = h

pub guarded_route-Guarded : (method path : Text) → Guarded (guarded_route method path)
unfolding guarded_route
guarded_route-Guarded method path =
    serve_or-Guarded (route_in fixed_routes method path) (resource_route method (path_parts path))
      (route_in-GuardedEndpoint fixed_routes method path fixed_routes-Guarded)
      (resource_route-Guarded method (path_parts path))
