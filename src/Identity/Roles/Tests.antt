-- ===== src/Identity/Roles/Tests.antt =====
-- The theorems on the assignment of roles at concrete users.
use aureum.Prelude.{String, ◌≡◌, ◌≢◌, refl, true, false, none, some, [], ◌∷◌, arith, eq_iff}
use aureum.Identity.Authorization.{RoleName, User, has_required_role, same_role}
use aureum.Identity.Roles.{World, find_user, holds, assign_role, remove_role}
use aureum.Identity.Roles.Administrators
use aureum.Identity.Roles.Reassigned

abbrev admin_user : User
admin_user = record { id = "u1"; roles = RoleName.user ∷ RoleName.admin ∷ [] }

abbrev reader : User
reader = record { id = "u2"; roles = RoleName.readonly ∷ [] }

abbrev world : World
world = record { users = admin_user ∷ reader ∷ []; user_roles = [] }

admin_found : find_user "u1" world.users ≡ some admin_user
unfolding find_user
admin_found = refl

reader_found : find_user "u2" world.users ≡ some reader
unfolding find_user
reader_found = refl

admin_holds : holds RoleName.admin admin_user.roles ≡ true
unfolding holds same_role
admin_holds = refl

first_user_administers : Administrators.IsAdmin "u1" world.users
unfolding has_required_role
first_user_administers = (admin_user, admin_found, refl)

others_read :
    (id : String) (x : User)
    → id ≢ "u1"
    → find_user id world.users ≡ some x
    → has_required_role x.roles RoleName.admin ≡ false
unfolding find_user has_required_role
others_read id x ne e = ground (arith, eq_iff "u1" id, eq_iff "u2" id, ne, e)

-- After that the former administrator tries to take the role back.
last_admin_locks_out_example :
    let (w', e) = remove_role Administrators.no_faults "u1" "u1" RoleName.admin world in
    let again = Administrators.assign_call Administrators.no_faults "u1" "u1" RoleName.admin in
    (e ≡ none) × (Administrators.serve_all (again ∷ []) w' ≡ w')
last_admin_locks_out_example =
    Administrators.last_admin_locks_out "u1" world
      (Administrators.assign_call Administrators.no_faults "u1" "u1" RoleName.admin ∷ [])
      admin_found admin_holds others_read

reader_lacks : holds RoleName.user reader.roles ≡ false
unfolding holds same_role
reader_lacks = refl

remove_role-assign_role_example :
    let (w', e) = assign_role Administrators.no_faults "u1" "u2" RoleName.user world in
    let (w'', e') = remove_role Administrators.no_faults "u1" "u2" RoleName.user w' in
    (e ≡ none) × (e' ≡ none) × (find_user "u2" w''.users ≡ find_user "u2" world.users)
remove_role-assign_role_example =
    Reassigned.remove_role-assign_role "u1" "u2" "u2" RoleName.user world first_user_administers
      reader_found refl reader_lacks
