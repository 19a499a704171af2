-- ===== src/Identity/Roles/Administrators.antt =====
-- Who changes roles.
use aureum.Prelude.{
  String, true, false, ◌≡◌, ◌≢◌, ◌⊎◌, inl, inr, refl, ap, sym, ◌∙◌, Option, none, some, List, [],
  ◌∷◌, arith, str_eq, eq_iff, if◌then◌else◌, Option-cases, Bool-cases,
}
use aureum.Identity.Errors.{Err}
use aureum.Identity.Authorization.{RoleName, User, has_required_role}
use aureum.Identity.Roles.{
  World, Faults, find_user, found, check_requester, assign_role, remove_role, update_user, without,
  holds, remove, write_roles,
}

has_required_role-holds :
    (rs : List RoleName)
    → holds RoleName.admin rs ≡ true
    → has_required_role rs RoleName.admin ≡ true
unfolding has_required_role holds
has_required_role-holds [] h = cc
has_required_role-holds (r ∷ rs) h = ground (arith, has_required_role-holds rs)

-- A call of one of the two methods, by a requester on a target.
pub data Call : Type 0 where
  assign_call : Faults → String → String → RoleName → Call
  remove_call : Faults → String → String → RoleName → Call

abbrev pub requester : Call → String
requester (assign_call faults r t role) = r
requester (remove_call faults r t role) = r

unfoldable pub serve : Call → World → World × Option Err
serve (assign_call faults r t role) w = assign_role faults r t role w
serve (remove_call faults r t role) w = remove_role faults r t role w

unfoldable pub serve_all : List Call → World → World
serve_all [] w = w
serve_all (c ∷ cs) w = serve_all cs (serve c w).0

-- A row of the requester has the role of an administrator.
abbrev pub IsAdmin : String → List User → Type 0
IsAdmin id us =
    (u : User) × (find_user id us ≡ some u) × (has_required_role u.roles RoleName.admin ≡ true)

check_requester-none :
    (faults : Faults) (id : String) (w : World)
    → check_requester faults id w ≡ none
    → IsAdmin id w.users
unfolding check_requester found
check_requester-none faults id w h = elim (Option-cases (find_user id w.users)) [
  | inl e ↦ absurd (ground (arith, h, e))
  | inr (u, e) ↦ (u, e, ground (arith, h, e))
]

serve-IsAdmin :
    (c : Call) (w : World)
    → (((serve c w).0 ≡ w) × ((serve c w).1 ≢ none)) ⊎ IsAdmin (requester c) w.users
unfolding serve assign_role remove_role
serve-IsAdmin (assign_call faults r t role) w = elim (Option-cases (check_requester faults r w)) [
  | inl e ↦ inr (check_requester-none faults r w e)
  | inr (x, e) ↦ inl (ground (arith, e), ground (arith, e))
]
serve-IsAdmin (remove_call faults r t role) w = elim (Option-cases (check_requester faults r w)) [
  | inl e ↦ inr (check_requester-none faults r w e)
  | inr (x, e) ↦ inl (ground (arith, e), ground (arith, e))
]

-- Nobody is an administrator.
abbrev pub NoAdmin : World → Type 0
NoAdmin w =
    (id : String) (u : User)
    → find_user id w.users ≡ some u
    → has_required_role u.roles RoleName.admin ≡ false

NoAdmin-absurd : (id : String) (w : World) → NoAdmin w → IsAdmin id w.users → ⊥
NoAdmin-absurd id w h (u, e, a) = let f = h id u e in cc

serve_all-NoAdmin : (cs : List Call) (w : World) → NoAdmin w → serve_all cs w ≡ w
unfolding serve_all
serve_all-NoAdmin [] w h = refl
serve_all-NoAdmin (c ∷ cs) w h = elim (serve-IsAdmin c w) [
  | inl (e, _) ↦ ap (serve_all cs) e ∙ serve_all-NoAdmin cs w h
  | inr a ↦ absurd (NoAdmin-absurd (requester c) w h a)
]

has_required_role-without :
    (rs : List RoleName) → has_required_role (without RoleName.admin rs) RoleName.admin ≡ false
unfolding has_required_role without
has_required_role-without [] = refl
has_required_role-without (r ∷ rs) = ground (arith, has_required_role-without rs)

-- An update writes the roles into the row of its id, and leaves the others.
pub find_user-update_user :
    (id : String) (u : User) (us : List User) {x : User}
    → find_user id us ≡ some x
    → find_user id (update_user u us)
      ≡ some (if str_eq id u.id then record x { roles = u.roles } else x)
unfolding find_user update_user
find_user-update_user id u [] e = cc
find_user-update_user id u (y ∷ us) {x} e =
    ground (
      arith,
      eq_iff y.id id,
      eq_iff y.id u.id,
      eq_iff id u.id,
      find_user-update_user id u us {x = x},
    )

pub find_user_absent :
    (id : String) (u : User) (us : List User)
    → find_user id us ≡ none
    → find_user id (update_user u us) ≡ none
unfolding find_user update_user
find_user_absent id u [] e = refl
find_user_absent id u (y ∷ us) e =
    ground (arith, eq_iff y.id id, eq_iff y.id u.id, find_user_absent id u us)

pub find_user-id : (id : String) (us : List User) {x : User} → find_user id us ≡ some x → x.id ≡ id
unfolding find_user
find_user-id id [] e = cc
find_user-id id (y ∷ us) {x} e = ground (arith, eq_iff y.id id, find_user-id id us {x = x})

-- No call fails.
abbrev pub no_faults : Faults
no_faults = record {
  find_requester = false;
  find_target = false;
  write_role = false;
  write_user = false;
}

remove_role_self :
    (a : String) (w : World) {u : User}
    → find_user a w.users ≡ some u
    → holds RoleName.admin u.roles ≡ true
    → has_required_role u.roles RoleName.admin ≡ true
    → let (w', e) = remove_role no_faults a a RoleName.admin w in
      (e ≡ none)
      × (w'.users ≡ update_user (record u { roles = without RoleName.admin u.roles }) w.users)
unfolding remove_role check_requester found remove write_roles
remove_role_self a w e h h' = (ground (arith, e, h, h'), ground (arith, e, h, h'))

-- After the update nobody else is an administrator either.
update_user-NoAdmin :
    (a id : String) (us : List User) {u x : User}
    → find_user a us ≡ some u
    → ((id : String) (x : User)
        → id ≢ a
        → find_user id us ≡ some x
        → has_required_role x.roles RoleName.admin ≡ false)
    → find_user id (update_user (record u { roles = without RoleName.admin u.roles }) us) ≡ some x
    → has_required_role x.roles RoleName.admin ≡ false
update_user-NoAdmin a id us {u} {x} e only at =
    let u' : User = record u { roles = without RoleName.admin u.roles } in
    let same = find_user-id a us e in
    elim (Option-cases (find_user id us)) [
      | inl n ↦ let none = find_user_absent id u' us n in absurd (cc (none, at))
      | inr (y, f) ↦
          let row = find_user-update_user id u' us f in
          elim (Bool-cases (str_eq id u.id)) [
            | inl b ↦ ground (arith, row, at, b, has_required_role-without u.roles)
            | inr b ↦
                let ne : id ≢ a = λ t. ground (arith, eq_iff id u.id, same, t, b) in
                ground (arith, row, at, b, only id y ne f)
          ]
    ]

-- The only administrator can give the role up, and then no calls of AssignRole and RemoveRole, by
-- anybody and for any role, change anything.
pub last_admin_locks_out :
    (a : String) (w : World) (cs : List Call) {u : User}
    → find_user a w.users ≡ some u
    → holds RoleName.admin u.roles ≡ true
    → ((id : String) (x : User)
        → id ≢ a
        → find_user id w.users ≡ some x
        → has_required_role x.roles RoleName.admin ≡ false)
    → let (w', e) = remove_role no_faults a a RoleName.admin w in
      (e ≡ none) × (serve_all cs w' ≡ w')
last_admin_locks_out a w cs {u} e h only =
    let (done, rows) = remove_role_self a w e h (has_required_role-holds u.roles h) in
    let w' = (remove_role no_faults a a RoleName.admin w).0 in
    (
      done,
      serve_all-NoAdmin cs w'
          (λ id x at. update_user-NoAdmin a id w.users e only (sym (ap (find_user id) rows) ∙ at)),
    )
