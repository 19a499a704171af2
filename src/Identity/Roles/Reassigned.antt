-- ===== src/Identity/Roles/Reassigned.antt =====
-- A role that is assigned and removed again.
use aureum.Prelude.{
  String, true, false, ◌≡◌, inl, inr, refl, ap, sym, ◌∙◌, none, some, List, [], ◌∷◌, ◌++◌, arith,
  str_eq, eq_iff, Option-cases, Bool-cases,
}
use aureum.Identity.Authorization.{RoleName, User, has_required_role, same_role}
use aureum.Identity.Roles.{
  World, find_user, found, check_requester, assign_role, remove_role, update_user, without, holds,
  assign, remove, write_roles, is_default,
}
use aureum.Identity.Roles.Administrators.{
  IsAdmin, no_faults, find_user-update_user, find_user_absent, find_user-id,
}

same_role_refl : (r : RoleName) → same_role r r ≡ true
unfolding same_role
same_role_refl RoleName.admin = refl
same_role_refl RoleName.user = refl
same_role_refl RoleName.readonly = refl
same_role_refl (RoleName.custom s) = ground (arith, eq_iff s s)

without-append :
    (role : RoleName) (rs : List RoleName)
    → holds role rs ≡ false
    → without role (rs ++ role ∷ []) ≡ rs
unfolding without holds
without-append role [] h = ground (arith, same_role_refl role)
without-append role (r ∷ rs) h = ground (arith, h, without-append role rs)

holds-append : (role : RoleName) (rs : List RoleName) → holds role (rs ++ role ∷ []) ≡ true
unfolding holds
holds-append role [] = ground (arith, same_role_refl role)
holds-append role (r ∷ rs) = ground (arith, holds-append role rs)

has_required_role-append :
    (rs : List RoleName) (role : RoleName)
    → has_required_role rs RoleName.admin ≡ true
    → has_required_role (rs ++ role ∷ []) RoleName.admin ≡ true
unfolding has_required_role
has_required_role-append [] role h = cc
has_required_role-append (r ∷ rs) role h = ground (arith, h, has_required_role-append rs role)

check_requester-admin :
    (id : String) (w : World) → IsAdmin id w.users → check_requester no_faults id w ≡ none
unfolding check_requester found
check_requester-admin id w (u, e, h) = ground (arith, e, h)

-- The user with the role, and the world after a call that an administrator makes.
abbrev with_role : RoleName → User → User
with_role role u = record u { roles = u.roles ++ role ∷ [] }

assign_role-done :
    (r t : String) (role : RoleName) (w : World) {u : User}
    → IsAdmin r w.users
    → find_user t w.users ≡ some u
    → is_default role ≡ true
    → holds role u.roles ≡ false
    → let (w', e) = assign_role no_faults r t role w in
      (e ≡ none) × (w'.users ≡ update_user (with_role role u) w.users)
unfolding assign_role assign write_roles found has_required_role
assign_role-done r t role w a e d h =
    let c = check_requester-admin r w a in (ground (arith, c, e, d, h), ground (arith, c, e, d, h))

remove_role-done :
    (r t : String) (role : RoleName) (w : World) {u : User}
    → IsAdmin r w.users
    → find_user t w.users ≡ some u
    → holds role u.roles ≡ true
    → let (w', e) = remove_role no_faults r t role w in
      (e ≡ none) × (w'.users ≡ update_user (record u { roles = without role u.roles }) w.users)
unfolding remove_role remove write_roles found
remove_role-done r t role w a e h =
    let c = check_requester-admin r w a in (ground (arith, c, e, h), ground (arith, c, e, h))

-- An administrator stays one when anybody is given a role.
IsAdmin-with_role :
    (r t : String) (role : RoleName) (us : List User) {u : User}
    → IsAdmin r us
    → find_user t us ≡ some u
    → IsAdmin r (update_user (with_role role u) us)
IsAdmin-with_role r t role us {u} (a, e, h) f =
    let row = find_user-update_user r (with_role role u) us e in
    let same = find_user-id t us f in
    elim (Bool-cases (str_eq r u.id)) [
      | inl b ↦
          let one : a ≡ u = ground (arith, eq_iff r u.id, same, b, e, f) in
          (
            record a { roles = u.roles ++ role ∷ [] },
            row ∙ ground (arith, b),
            has_required_role-append u.roles role
                (ap (λ x. has_required_role x.roles RoleName.admin) (sym one) ∙ h),
          )
      | inr b ↦ (a, row ∙ ground (arith, b), h)
    ]

-- Two updates of a user find everybody as before, where the second gives the roles back.
update_user-twice :
    (t id : String) (us : List User) (roles : List RoleName) {u : User}
    → find_user t us ≡ some u
    → find_user id (update_user u (update_user (record u { roles = roles }) us)) ≡ find_user id us
update_user-twice t id us roles {u} f = elim (Option-cases (find_user id us)) [
  | inl n ↦
      find_user_absent id u (update_user (record u { roles = roles }) us)
        (find_user_absent id (record u { roles = roles }) us n)
      ∙ sym n
  | inr (y, e) ↦
      let first = find_user-update_user id (record u { roles = roles }) us e in
      let second = find_user-update_user id u (update_user (record u { roles = roles }) us) first in
      let same = find_user-id t us f in
      elim (Bool-cases (str_eq id u.id)) [
        | inl b ↦
            let one : y ≡ u = ground (arith, eq_iff id u.id, same, b, e, f) in
            ground (arith, second, b, one, e)
        | inr b ↦ ground (arith, second, b, e)
      ]
]

-- Where no call fails: an administrator can give a user a role of the service that the user does
-- not have and take it away again, and every user is then found with the roles from before.
pub remove_role-assign_role :
    (r t id : String) (role : RoleName) (w : World) {u : User}
    → IsAdmin r w.users
    → find_user t w.users ≡ some u
    → is_default role ≡ true
    → holds role u.roles ≡ false
    → let (w', e) = assign_role no_faults r t role w in
      let (w'', e') = remove_role no_faults r t role w' in
      (e ≡ none) × (e' ≡ none) × (find_user id w''.users ≡ find_user id w.users)
remove_role-assign_role r t id role w {u} a f d h =
    let w' = (assign_role no_faults r t role w).0 in
    let (done, rows) = assign_role-done r t role w a f d h in
    let u' = with_role role u in
    let same = find_user-id t w.users f in
    let f' : find_user t w'.users ≡ some u' =
      ap (find_user t) rows
      ∙ find_user-update_user t u' w.users f
      ∙ ground (arith, eq_iff t u.id, same) in
    let a' : IsAdmin r w'.users = rw rows (IsAdmin-with_role r t role w.users a f) in
    let (done', rows') = remove_role-done r t role w' a' f' (holds-append role u.roles) in
    (
      done,
      done',
      ap (find_user id) rows'
          ∙ rw (rows, without-append role u.roles h)
              (update_user-twice t id w.users (u.roles ++ role ∷ []) f),
    )
