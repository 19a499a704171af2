-- ===== src/Identity/Authorization/Decisions.antt =====
-- Who is granted what.
use text.Mathlib.TextPositions.{eq_refl}
use aureum.Prelude.{
  ◌≡◌, ◌≢◌, ◌⊎◌, ◌↔◌, true, false, none, some, List, [], ◌∷◌, arith, String, eq_iff, is_empty,
}
use aureum.Identity.Authorization.{
  Resource, Action, RoleName, User, AbacRequest, evaluate_abac, role_has_permission,
  has_required_role, same_role, roles_permit,
}

abbrev pub IsKnown : Resource → Type 0
IsKnown r =
    (r ≡ Resource.user) ⊎ (r ≡ Resource.account) ⊎ (r ≡ Resource.ledger) ⊎ (r ≡ Resource.tenant)

-- The roles and what they grant: an administrator everything on the four resources, a user and a
-- reader to read all but tenants, and a user to write users as well.
abbrev pub Grants : RoleName → Resource → Action → Type 0
Grants role r a =
    ((role ≡ RoleName.admin) × IsKnown r)
    ⊎ (((role ≡ RoleName.user) ⊎ (role ≡ RoleName.readonly))
        × (a ≡ Action.read)
        × (IsKnown r × (r ≢ Resource.tenant)))
    ⊎ ((role ≡ RoleName.user) × (r ≡ Resource.user) × (a ≡ Action.write))

-- A role has a permission exactly as the table says, for every role, resource and action.
pub role_has_permission_iff :
    (role : RoleName) (r : Resource) (a : Action)
    → (role_has_permission role r a ≡ true) ↔ Grants role r a
unfolding role_has_permission
role_has_permission_iff RoleName.admin r a = ground arith
role_has_permission_iff RoleName.user r a = ground arith
role_has_permission_iff RoleName.readonly r a = ground arith
role_has_permission_iff (RoleName.custom s) r a = ground arith

-- Some role of the list is granted the action on the resource.
abbrev pub AnyRole : List RoleName → Resource → Action → Type 0
AnyRole [] r a = ⊥
AnyRole (x ∷ xs) r a = Grants x r a ⊎ AnyRole xs r a

roles_permit_iff :
    (rs : List RoleName) (r : Resource) (a : Action) → (roles_permit rs r a ≡ true) ↔ AnyRole rs r a
unfolding roles_permit
roles_permit_iff [] r a = ground arith
roles_permit_iff (x ∷ xs) r a =
    let ih = roles_permit_iff xs r a in
    let p = role_has_permission_iff x r a in ground (arith, ih.0, ih.1, p.0, p.1)

-- The request names the user as the owner of the resource.
abbrev pub IsOwner : User → AbacRequest → Type 0
IsOwner u req = (is_empty req.resource_owner_id ≡ false) × (req.resource_owner_id ≡ u.id)

-- Without attributes a request is granted exactly when a role of the user is granted it, or the user
-- owns the resource and the role of a user is granted it, where an administrator is granted every
-- action on users, accounts, ledgers and tenants, and nothing else, a user and a reader the reading
-- of users, accounts and ledgers, and a user the writing of users.
pub evaluate_abac_iff :
    (u : User) (req : AbacRequest)
    → req.attributes ≡ none
    → (evaluate_abac (some u) req ≡ none) ↔ (
        AnyRole u.roles req.resource_type req.action
        ⊎ (IsOwner u req × Grants RoleName.user req.resource_type req.action))
unfolding evaluate_abac
evaluate_abac_iff u req e =
    let p = roles_permit_iff u.roles req.resource_type req.action in
    let q = role_has_permission_iff RoleName.user req.resource_type req.action in
    ground (arith, p.0, p.1, q.0, q.1, eq_iff req.resource_owner_id u.id)

-- Attributes that come with the request and name the user as the tenant grant it whatever it asks
-- for: any action, on any resource, to a user with any roles or none.
pub evaluate_abac_escalates :
    (u : User) (req : AbacRequest) (m : List (String × String))
    → req.attributes ≡ some (("tenant_id", u.id) ∷ m)
    → evaluate_abac (some u) req ≡ none
unfolding evaluate_abac
evaluate_abac_escalates u req m e = ground (arith, eq_refl u.id)

same_role_iff : (r s : RoleName) → (same_role r s ≡ true) ↔ (r ≡ s)
unfolding same_role
same_role_iff (RoleName.custom s) (RoleName.custom t) = ground (arith, eq_iff s t)
same_role_iff RoleName.admin s = ground arith
same_role_iff RoleName.user s = ground arith
same_role_iff RoleName.readonly s = ground arith
same_role_iff r s = ground arith

-- The list has the role.
abbrev pub HasRole : List RoleName → RoleName → Type 0
HasRole [] r = ⊥
HasRole (x ∷ xs) r = (x ≡ r) ⊎ HasRole xs r

-- An administrator passes every check of a role, and anybody else exactly the checks of the roles
-- that they have.
pub has_required_role_iff :
    (rs : List RoleName) (required : RoleName)
    → (has_required_role rs required ≡ true) ↔ (HasRole rs required ⊎ HasRole rs RoleName.admin)
unfolding has_required_role
has_required_role_iff [] required = ground arith
has_required_role_iff (r ∷ rs) required =
    let ih = has_required_role_iff rs required in
    let p = same_role_iff r required in
    let q = same_role_iff r RoleName.admin in ground (arith, ih.0, ih.1, p.0, p.1, q.0, q.1)
