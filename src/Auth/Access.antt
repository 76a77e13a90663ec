-- ===== src/Auth/Access.antt =====
-- `ROLE_LEVELS`, `PERMISSION_SETS`, `require_role`, `can_access`, `has_permission` and `require_permission` of
-- homeinfra/auth.py. The child is about what they grant.
pub mod Grants
use homeinfra_control_center.Prelude.{
  ℕ, Bool, true, false, ◌||◌, Option, none, some, List, [], ◌∷◌, ◌++◌, Text, txt, ◌==◌, mem,
  is_empty, nat_eq, ltb, if◌then◌else◌,
}
use homeinfra_control_center.Errors.{Result, ok, err, auth_required, forbidden, key_error}
use homeinfra_control_center.Auth.Validation.{role_level}

-- `PERMISSION_SETS.get(role, set())`
unfoldable pub permission_set : Text → List Text
permission_set role =
    if role == txt "viewer"
    then txt "devices:read"
      ∷ txt "groups:read"
      ∷ txt "alerts:read"
      ∷ txt "collections:read"
      ∷ txt "dashboard:read"
      ∷ txt "retention:read"
      ∷ txt "metrics:read"
      ∷ []
    else if role == txt "auditor"
    then txt "devices:read"
      ∷ txt "groups:read"
      ∷ txt "alerts:read"
      ∷ txt "collections:read"
      ∷ txt "dashboard:read"
      ∷ txt "retention:read"
      ∷ txt "metrics:read"
      ∷ txt "audit:read"
      ∷ txt "users:read"
      ∷ []
    else if role == txt "operator"
    then txt "devices:*"
      ∷ txt "groups:*"
      ∷ txt "alerts:*"
      ∷ txt "collections:*"
      ∷ txt "dashboard:read"
      ∷ txt "retention:read"
      ∷ txt "metrics:read"
      ∷ txt "audit:read"
      ∷ []
    else if role == txt "admin"
    then txt "*:*" ∷ []
    else []

-- A role that is not in `ROLE_LEVELS` is a KeyError.
unfoldable pub compare_levels : Option ℕ → Option ℕ → Result (Unit {0})
compare_levels (some level) (some minimum) =
    if ltb level minimum then err (forbidden "{} 无法访问该接口，需要 {} 权限") else ok tt
compare_levels _ _ = err key_error

-- `require_role`; the principal is given by its role.
unfoldable pub require_role : Option Text → Text → Result (Unit {0})
unfolding compare_levels role_level
require_role none minimum_role = err (auth_required "需要认证")
require_role (some role) minimum_role = compare_levels (role_level role) (role_level minimum_role)

-- What `can_access` is called with: an actor may be None, no dictionary, or a dictionary with or
-- without its two keys.
pub data Actor : Type 0 where
  missing : Actor
  opaque_value : Actor
  holder : (role : Option Text) (permissions : List Text) → Actor

pub record Query : Type 0 where
  pub resource : Option Text
  pub action : Option Text
  pub permission : Option Text
  pub resource_id : Option Text
  pub allowed_groups : Option (List Text)

-- The answer, a dictionary in the source.
pub record Decision : Type 0 where
  pub allowed : Bool
  pub reason : Text

abbrev pub role_of : Actor → Text
role_of (holder (some role) permissions) = role
role_of _ = txt "viewer"

abbrev pub permissions_of : Actor → List Text
permissions_of (holder role permissions) = permissions
permissions_of _ = []

-- The text before the last colon.
abbrev pub before_last_colon : Text → Option Text
before_last_colon [] = none
before_last_colon (c ∷ s) = elim (before_last_colon s) [
  | some prefix ↦ some (c ∷ prefix)
  | none ↦ if nat_eq c b':' then some [] else none
]

-- `requested_permission.rpartition(":")[0]`
unfoldable pub rpartition_colon : Text → Text
rpartition_colon s = elim (before_last_colon s) [ some prefix ↦ prefix | none ↦ [] ]

abbrev pub text_or_empty : Option Text → Text
text_or_empty none = []
text_or_empty (some s) = s

-- `permission or (f"{resource}:{action}" if resource and action else "")`
unfoldable pub requested_permission : Query → Text
requested_permission q =
    let resource = text_or_empty q.resource in
    let action = text_or_empty q.action in
    if is_empty (text_or_empty q.permission)
    then (if is_empty resource || is_empty action then [] else resource ++ txt ":" ++ action)
    else text_or_empty q.permission

-- `resource_id is not None and allowed_groups is not None and resource_id in allowed_groups`
unfoldable pub in_allowed_groups : Query → Bool
in_allowed_groups q = elim q.resource_id [
  | none ↦ false
  | some id ↦ elim q.allowed_groups [ none ↦ false | some groups ↦ mem id groups ]
]

-- The policy, from the test for `admin` on.
unfoldable pub decide : Text → List Text → Query → Decision
unfolding permission_set requested_permission rpartition_colon in_allowed_groups
decide role explicit q =
    let requested = requested_permission q in
    let granted = permission_set role in
    let wildcard = rpartition_colon requested ++ txt ":*" in
    if role == txt "admin"
    then record { allowed = true; reason = txt "admin" }
    else if is_empty requested
    then record { allowed = false; reason = txt "no_permission_specified" }
    else if mem requested explicit
    then record { allowed = true; reason = txt "explicit_permission" }
    else if mem requested granted
    then record { allowed = true; reason = txt "role_permission" }
    else if mem wildcard granted || mem wildcard explicit
    then record { allowed = true; reason = txt "wildcard_permission" }
    else if mem (txt "*:*") granted || mem (txt "*:*") explicit
    then record { allowed = true; reason = txt "global_wildcard" }
    else if in_allowed_groups q
    then record { allowed = true; reason = txt "resource_group_match" }
    else record { allowed = false; reason = txt "default_deny:" ++ role }

-- `can_access`, on an actor that is not wrapped in a payload with the key "actor".
unfoldable pub can_access : Actor → Query → Decision
unfolding decide
can_access missing q = record { allowed = false; reason = txt "missing_actor" }
can_access actor q = decide (role_of actor) (permissions_of actor) q

abbrev pub role_query : Text → Text → Option Text → Option (List Text) → Query
role_query resource action resource_id allowed_groups = record {
  resource = some resource;
  action = some action;
  permission = none;
  resource_id = resource_id;
  allowed_groups = allowed_groups;
}

-- `AuthService.has_permission`
unfoldable pub has_permission : Text → Text → Text → Bool
unfolding can_access
has_permission role resource action =
    (can_access (holder (some role) (permission_set role))
      (role_query resource action none none)).allowed

-- `require_permission`; the principal is given by its role.
unfoldable pub require_permission :
    Option Text → Text → Text → Option Text → Option (List Text) → Result (Unit {0})
unfolding can_access
require_permission none resource action resource_id allowed_groups = err (auth_required "需要认证")
require_permission (some role) resource action resource_id allowed_groups =
    let decision =
      can_access (holder (some role) (permission_set role))
        (role_query resource action resource_id allowed_groups) in
    if decision.allowed then ok tt else err (forbidden "{}")
