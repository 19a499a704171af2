-- ===== src/Identity/Roles.antt =====
-- `AssignRole` and `RemoveRole` of apps/identity-svc/internal/application/authorization_service.go, on
-- the rows of internal/infrastructure/persistence/write_db.go and role_repo.go.
pub mod Administrators
pub mod Reassigned
mod Tests
use aureum.Prelude.{
  String, Bool, true, false, not, ◌&&◌, Option, none, some, List, [], ◌∷◌, ◌++◌, str_eq,
  if◌then◌else◌, Result, ok, err,
}
use aureum.Identity.Errors.{
  Err, access_denied, insufficient_role, role_not_found, user_not_found, repository,
}
use aureum.Identity.Authorization.{RoleName, User, same_role, default_roles, has_required_role}

-- The tables `users` and `user_roles`.
pub record World : Type 0 where
  pub users : List User
  pub user_roles : List (String × RoleName)

pub record Faults : Type 0 where
  pub find_requester : Bool
  pub find_target : Bool
  pub write_role : Bool
  pub write_user : Bool

-- `UserWriteRepository.FindByID`
unfoldable pub find_user : String → List User → Option User
find_user id [] = none
find_user id (u ∷ us) = let rest = find_user id us in if str_eq u.id id then some u else rest

unfoldable pub found : Bool → Option User → Option User
found fails u = if fails then none else u

-- `UserWriteRepository.Update`, as far as the roles go.
unfoldable pub update_user : User → List User → List User
update_user u [] = []
update_user u (x ∷ xs) =
    (if str_eq x.id u.id then record x { roles = u.roles } else x) ∷ update_user u xs

-- The loop over `user.Roles` for a role that is there.
unfoldable pub holds : RoleName → List RoleName → Bool
holds role [] = false
holds role (r ∷ rs) = let rest = holds role rs in if same_role r role then true else rest

-- The loop that keeps the other roles.
unfoldable pub without : RoleName → List RoleName → List RoleName
without role [] = []
without role (r ∷ rs) =
    let rest = without role rs in if not (same_role r role) then r ∷ rest else rest

-- `INSERT ... ON CONFLICT DO NOTHING` and `DELETE`
has_row : String → RoleName → List (String × RoleName) → Bool
has_row id role [] = false
has_row id role ((i, r) ∷ rows) =
    let rest = has_row id role rows in if str_eq i id && same_role r role then true else rest

insert_row : String → RoleName → List (String × RoleName) → List (String × RoleName)
unfolding has_row
insert_row id role rows = if has_row id role rows then rows else rows ++ (id, role) ∷ []

delete_row : String → RoleName → List (String × RoleName) → List (String × RoleName)
delete_row id role [] = []
delete_row id role ((i, r) ∷ rows) =
    let rest = delete_row id role rows in
    if str_eq i id && same_role r role then rest else (i, r) ∷ rest

-- `DefaultRoles[role]` is there.
abbrev pub is_default : RoleName → Bool
is_default (RoleName.custom s) = false
is_default r = true

-- The requester is found and has the role of an administrator.
unfoldable pub check_requester : Faults → String → World → Option Err
check_requester faults requester_id w =
    elim (found faults.find_requester (find_user requester_id w.users)) [
      | none ↦ some access_denied
      | some requester ↦
          if not (has_required_role requester.roles RoleName.admin)
          then some insufficient_role
          else none
    ]

-- The two writes, which are not in one transaction.
unfoldable pub write_roles : Faults → User → List (String × RoleName) → World → World × Option Err
write_roles faults user rows w =
    if faults.write_role
    then (w, some repository)
    else if faults.write_user
    then (record w { user_roles = rows }, some repository)
    else (record { users = update_user user w.users; user_roles = rows }, none)

-- `AssignRole`, whose first check compares constants.
unfoldable pub assign : Faults → RoleName → User → World → World × Option Err
unfolding insert_row
assign faults role user w =
    if not (is_default role)
    then (w, some role_not_found)
    else if holds role user.roles
    then (w, some role_not_found)
    else write_roles faults (record user { roles = user.roles ++ role ∷ [] })
        (insert_row user.id role w.user_roles) w

unfoldable pub assign_role : Faults → String → String → RoleName → World → World × Option Err
assign_role faults requester_id target_id role w =
    if not (has_required_role (RoleName.admin ∷ []) RoleName.admin)
    then (w, some insufficient_role)
    else elim (check_requester faults requester_id w) [
      | some e ↦ (w, some e)
      | none ↦ elim (found faults.find_target (find_user target_id w.users)) [
        | none ↦ (w, some user_not_found)
        | some user ↦ assign faults role user w
      ]
    ]

-- `RemoveRole`
unfoldable pub remove : Faults → RoleName → User → World → World × Option Err
unfolding delete_row
remove faults role user w =
    if not (holds role user.roles)
    then (w, some role_not_found)
    else write_roles faults (record user { roles = without role user.roles })
        (delete_row user.id role w.user_roles) w

unfoldable pub remove_role : Faults → String → String → RoleName → World → World × Option Err
remove_role faults requester_id target_id role w = elim (check_requester faults requester_id w) [
  | some e ↦ (w, some e)
  | none ↦ elim (found faults.find_target (find_user target_id w.users)) [
    | none ↦ (w, some user_not_found)
    | some user ↦ remove faults role user w
  ]
]
