-- ===== src/Auth/Access/Grants.antt =====
-- What the permission sets of homeinfra/auth.py come to, given that no resource is wrapped in a
-- group: an exact permission, the wildcard of its resource, or the role `admin`.
use homeinfra_control_center.Prelude.{
  Bool, true, false, ◌||◌, ◌≡◌, refl, none, some, [], ◌∷◌, ◌++◌, Text, txt, ◌==◌, mem, is_empty,
  arith, ◌↔◌, subst, List, Option,
}
use homeinfra_control_center.Errors.{ok}
use homeinfra_control_center.Auth.Access.{
  permission_set, requested_permission, rpartition_colon, in_allowed_groups, decide, can_access,
  has_permission, require_permission, role_query, Query,
}

-- What a role may do without any group: `permission` is a text such as `devices:read`.
unfoldable pub grants : Text → Text → Bool
unfolding permission_set rpartition_colon
grants role permission =
    role == txt "admin"
    || mem permission (permission_set role)
    || mem (rpartition_colon permission ++ txt ":*") (permission_set role)

global_only_admin :
    (role : Text) → role == txt "admin" ≡ false → mem (txt "*:*") (permission_set role) ≡ false
unfolding permission_set ◌==◌
global_only_admin role other = ground arith

decide_iff :
    (role : Text) (q : Query)
    → is_empty (requested_permission q) ≡ false
    → (decide role (permission_set role) q).allowed
      ≡ (grants role (requested_permission q) || in_allowed_groups q)
unfolding decide grants
decide_iff role q named = ground (arith, global_only_admin role)

is_empty-append : (s t : Text) → is_empty s ≡ false → is_empty (s ++ t) ≡ false
is_empty-append [] t h = cc
is_empty-append (c ∷ s) t h = refl

role_query-requested :
    (resource action : Text) (resource_id : Option Text) (groups : Option (List Text))
    → is_empty resource ≡ false
    → is_empty action ≡ false
    → requested_permission (role_query resource action resource_id groups)
      ≡ resource ++ txt ":" ++ action
unfolding requested_permission
role_query-requested resource action resource_id groups named acted = ground arith

-- For a resource and an action that are not empty, `has_permission` holds exactly for the role
-- admin, a role that has the permission, and a role that has the wildcard of what stands before
-- the last colon; `require_permission` passes exactly for these, and where the id of the
-- resource is among the allowed groups.
pub require_permission-grants :
    (role resource action : Text) (resource_id : Option Text) (groups : Option (List Text))
    → is_empty resource ≡ false
    → is_empty action ≡ false
    → (has_permission role resource action ≡ grants role (resource ++ txt ":" ++ action))
      × ((require_permission (some role) resource action resource_id groups ≡ ok tt) ↔ (
          (grants role (resource ++ txt ":" ++ action)
            || in_allowed_groups (role_query resource action resource_id groups))
          ≡ true))
unfolding has_permission require_permission can_access in_allowed_groups
require_permission-grants role resource action resource_id groups named acted =
    let permission = resource ++ txt ":" ++ action in
    let filled : is_empty permission ≡ false =
      is_empty-append (resource ++ txt ":") action (is_empty-append resource (txt ":") named) in
    let decided : (q : Query)
        → requested_permission q ≡ permission
        → (decide role (permission_set role) q).allowed
          ≡ (grants role permission || in_allowed_groups q) =
      λ q requested.
        subst
          (λ r.
            (decide role (permission_set role) q).allowed ≡ (grants role r || in_allowed_groups q))
          requested (decide_iff role q (rw requested filled)) in
    let alone =
      decided (role_query resource action none none)
        (role_query-requested resource action none none named acted) in
    let grouped =
      decided (role_query resource action resource_id groups)
        (role_query-requested resource action resource_id groups named acted) in
    (ground (arith, alone), ground (arith, grouped))
