-- ===== src/Identity/Authorization.antt =====
-- apps/identity-svc/internal/domain/authorization.go: roles, permissions and the decision.
pub mod Decisions
use aureum.Prelude.{
  String, Bool, true, false, not, ◌&&◌, ◌||◌, Option, none, some, List, [], ◌∷◌, str_eq,
  if◌then◌else◌, is_empty,
}
use aureum.Identity.Errors.{Err, access_denied, permission_denied}

-- The types are string types: the last constructor of each is any text that no constant names.
pub data Resource : Type 0 where
  user account ledger tenant : Resource
  other_resource : String → Resource

pub data Action : Type 0 where
  read write delete admin : Action
  other_action : String → Action

pub data RoleName : Type 0 where
  admin user readonly : RoleName
  custom : String → RoleName

-- `==` on them
unfoldable pub same_resource : Resource → Resource → Bool
same_resource Resource.user Resource.user = true
same_resource account account = true
same_resource ledger ledger = true
same_resource tenant tenant = true
same_resource (other_resource s) (other_resource t) = str_eq s t
same_resource r s = false

unfoldable pub same_action : Action → Action → Bool
same_action read read = true
same_action write write = true
same_action delete delete = true
same_action Action.admin Action.admin = true
same_action (other_action s) (other_action t) = str_eq s t
same_action a b = false

unfoldable pub same_role : RoleName → RoleName → Bool
same_role RoleName.admin RoleName.admin = true
same_role RoleName.user RoleName.user = true
same_role readonly readonly = true
same_role (custom s) (custom t) = str_eq s t
same_role r s = false

pub record Permission : Type 0 where
  pub resource : Resource
  pub action : Action

-- The permissions of `DefaultRoles`; `none` is a role that the map does not have.
unfoldable pub default_roles : RoleName → Option (List Permission)
default_roles RoleName.admin = some (
    record { resource = Resource.user; action = Action.admin }
    ∷ record { resource = account; action = Action.admin }
    ∷ record { resource = ledger; action = Action.admin }
    ∷ record { resource = tenant; action = Action.admin }
    ∷ [])
default_roles RoleName.user = some (
    record { resource = Resource.user; action = read }
    ∷ record { resource = Resource.user; action = write }
    ∷ record { resource = account; action = read }
    ∷ record { resource = ledger; action = read }
    ∷ [])
default_roles readonly = some (
    record { resource = Resource.user; action = read }
    ∷ record { resource = account; action = read }
    ∷ record { resource = ledger; action = read }
    ∷ [])
default_roles (custom s) = none

-- The loop over the permissions of a role.
any_grants : List Permission → Resource → Action → Bool
unfolding same_resource same_action
any_grants [] resource action = false
any_grants (p ∷ ps) resource action =
    let rest = any_grants ps resource action in
    if same_resource p.resource resource
      && (same_action p.action Action.admin || same_action p.action action)
    then true
    else rest

-- `RoleHasPermission`
unfoldable pub role_has_permission : RoleName → Resource → Action → Bool
unfolding default_roles any_grants
role_has_permission role resource action = elim (default_roles role) [
  | none ↦ false
  | some ps ↦ any_grants ps resource action
]

-- `HasRequiredRole`
unfoldable pub has_required_role : List RoleName → RoleName → Bool
unfolding same_role
has_required_role [] required = false
has_required_role (r ∷ rs) required =
    let rest = has_required_role rs required in
    if same_role r required || same_role r RoleName.admin then true else rest

-- `User`, with the fields that the authorization reads and writes.
pub record User : Type 0 where
  pub id : String
  pub roles : List RoleName

pub record AbacRequest : Type 0 where
  pub user_id : String
  pub resource_type : Resource
  pub resource_id : String
  pub action : Action
  pub resource_owner_id : String
  pub attributes : Option (List (String × String))  -- a map, or nil

-- `m[k]` on a map of texts.
lookup : String → List (String × String) → Option String
lookup k [] = none
lookup k ((j, v) ∷ m) = if str_eq j k then some v else lookup k m

-- The loop over the roles of the user.
roles_permit : List RoleName → Resource → Action → Bool
unfolding role_has_permission
roles_permit [] resource action = false
roles_permit (r ∷ rs) resource action =
    let rest = roles_permit rs resource action in
    if role_has_permission r resource action then true else rest

-- The owner of the resource has the permissions of a user.
owner_permits : User → AbacRequest → Bool
unfolding role_has_permission
owner_permits u req =
    not (is_empty req.resource_owner_id)
    && str_eq req.resource_owner_id u.id
    && role_has_permission RoleName.user req.resource_type req.action

-- The attribute "tenant_id" of the request is the id of the user.
tenant_permits : User → AbacRequest → Bool
unfolding lookup
tenant_permits u req = elim req.attributes [
  | none ↦ false
  | some m ↦ elim (lookup "tenant_id" m) [ none ↦ false | some t ↦ str_eq t u.id ]
]

-- `EvaluateABAC`; `none` for the user is nil, and `none` for the result grants the request.
unfoldable pub evaluate_abac : Option User → AbacRequest → Option Err
unfolding roles_permit owner_permits tenant_permits
evaluate_abac none req = some access_denied
evaluate_abac (some u) req =
    if roles_permit u.roles req.resource_type req.action
    then none
    else if owner_permits u req
    then none
    else if tenant_permits u req
    then none
    else some permission_denied
