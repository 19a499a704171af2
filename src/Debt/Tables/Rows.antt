-- ===== src/Debt/Tables/Rows.antt =====
-- What the queries find, and what they find after a write, where an id names one row.
use aureum.Prelude.{sym, ◌++◌, ℕ, String, ◌≡◌, ◌≢◌, none, some, List, [], ◌∷◌, arith, eq_iff}
use aureum.Debt.Account.{Debt}
use aureum.Debt.Tables.{find_debt, set_debt, update_debt, delete_debt_row, is_live}

-- No row has the id.
abbrev pub IsFresh : String → List Debt → Type 0
IsFresh id [] = Unit
IsFresh id (r ∷ rs) = (r.id ≢ id) × IsFresh id rs

-- The primary key: no two rows have the same id.
abbrev pub HasUniqueIds : List Debt → Type 0
HasUniqueIds [] = Unit
HasUniqueIds (r ∷ rs) = IsFresh r.id rs × HasUniqueIds rs

IsFresh-update_debt :
    (id : String) (d : Debt) (rs : List Debt) → IsFresh id rs → IsFresh id (update_debt d rs)
unfolding update_debt
IsFresh-update_debt id d [] h = tt
IsFresh-update_debt id d (r ∷ rs) h = ground (arith, IsFresh-update_debt id d rs)

pub HasUniqueIds-update_debt :
    (d : Debt) (rs : List Debt) → HasUniqueIds rs → HasUniqueIds (update_debt d rs)
unfolding update_debt
HasUniqueIds-update_debt d [] h = tt
HasUniqueIds-update_debt d (r ∷ rs) h =
    ground (arith, IsFresh-update_debt r.id d rs, HasUniqueIds-update_debt d rs)

find_fresh : (id user_id : String) (rs : List Debt) → IsFresh id rs → find_debt id user_id rs ≡ none
unfolding find_debt
find_fresh id user_id [] h = ground arith
find_fresh id user_id (r ∷ rs) h = ground (arith, eq_iff r.id id, find_fresh id user_id rs)

pub find_debt-ids :
    (id user_id : String) (rs : List Debt) {r : Debt}
    → find_debt id user_id rs ≡ some r
    → (r.id ≡ id) × (r.user_id ≡ user_id)
unfolding find_debt
find_debt-ids id user_id [] h = cc
find_debt-ids id user_id (r ∷ rs) {r = s} h =
    ground (arith, eq_iff r.id id, eq_iff r.user_id user_id, find_debt-ids id user_id rs {r = s})

-- An id leads two users to the same row.
pub find_debt_unique :
    (id u v : String) (rs : List Debt) {r s : Debt}
    → HasUniqueIds rs
    → find_debt id u rs ≡ some r
    → find_debt id v rs ≡ some s
    → r ≡ s
unfolding find_debt
find_debt_unique id u v [] h e f = cc
find_debt_unique id u v (x ∷ rs) {r} {s} h e f = ground (
  arith,
  eq_iff x.id id,
  find_fresh x.id u rs,
  find_fresh x.id v rs,
  find_debt_unique id u v rs {r = r} {s = s},
)

-- An update writes its columns into the row of its id, and leaves the others.
pub find_debt-update_debt :
    (id user_id : String) (d : Debt) (rs : List Debt) {r : Debt}
    → find_debt id user_id rs ≡ some r
    → d.id ≡ id
    → find_debt id user_id (update_debt d rs) ≡ some (set_debt d r)
unfolding find_debt update_debt
find_debt-update_debt id user_id d [] h e = cc
find_debt-update_debt id user_id d (r ∷ rs) {r = s} h e =
    ground (arith, eq_iff r.id id, find_debt-update_debt id user_id d rs {r = s})

pub find_debt-update_debt_ne :
    (id user_id : String) (d : Debt) (rs : List Debt)
    → d.id ≢ id
    → find_debt id user_id (update_debt d rs) ≡ find_debt id user_id rs
unfolding find_debt update_debt
find_debt-update_debt_ne id user_id d [] e = ground arith
find_debt-update_debt_ne id user_id d (r ∷ rs) e =
    ground (arith, eq_iff r.id id, eq_iff r.id d.id, find_debt-update_debt_ne id user_id d rs)

IsFresh-delete_debt_row :
    (id : String) (now : ℕ) (del u : String) (rs : List Debt)
    → IsFresh id rs
    → IsFresh id (delete_debt_row now del u rs)
unfolding delete_debt_row
IsFresh-delete_debt_row id now del u [] h = tt
IsFresh-delete_debt_row id now del u (r ∷ rs) h =
    ground (arith, IsFresh-delete_debt_row id now del u rs)

-- A deleted row is found by nobody.
pub find_debt-delete_debt_row :
    (now : ℕ) (id u v : String) (rs : List Debt) {r : Debt}
    → HasUniqueIds rs
    → find_debt id u rs ≡ some r
    → find_debt id v (delete_debt_row now id u rs) ≡ none
unfolding find_debt delete_debt_row
find_debt-delete_debt_row now id u v [] h e = cc
find_debt-delete_debt_row now id u v (x ∷ rs) {r} h e = ground (
  arith,
  eq_iff x.id id,
  find_fresh x.id u rs,
  IsFresh-delete_debt_row x.id now id u rs,
  find_fresh x.id v (delete_debt_row now id u rs),
  find_debt-delete_debt_row now id u v rs {r = r},
)

pub find_debt-delete_debt_row_ne :
    (now : ℕ) (id del u v : String) (rs : List Debt)
    → del ≢ id
    → find_debt id v (delete_debt_row now del u rs) ≡ find_debt id v rs
unfolding find_debt delete_debt_row
find_debt-delete_debt_row_ne now id del u v [] e = ground arith
find_debt-delete_debt_row_ne now id del u v (r ∷ rs) e =
    ground (arith, eq_iff r.id id, eq_iff r.id del, find_debt-delete_debt_row_ne now id del u v rs)

pub HasUniqueIds-delete_debt_row :
    (now : ℕ) (del u : String) (rs : List Debt)
    → HasUniqueIds rs
    → HasUniqueIds (delete_debt_row now del u rs)
unfolding delete_debt_row
HasUniqueIds-delete_debt_row now del u [] h = tt
HasUniqueIds-delete_debt_row now del u (r ∷ rs) h =
    ground
      (arith, IsFresh-delete_debt_row r.id now del u rs, HasUniqueIds-delete_debt_row now del u rs)

pub find_debt-append :
    (id user_id : String) (rs : List Debt) (d : Debt)
    → IsFresh id rs
    → d.id ≡ id
    → d.user_id ≡ user_id
    → d.deleted_at ≡ none
    → find_debt id user_id (rs ++ d ∷ []) ≡ some d
unfolding find_debt is_live
find_debt-append id user_id [] d h a b c =
    ground (arith, eq_iff d.id id, eq_iff d.user_id user_id, a, b, c)
find_debt-append id user_id (r ∷ rs) d h a b c =
    ground (arith, eq_iff r.id id, find_debt-append id user_id rs d h.1 a b c, h)

IsFresh-append :
    (id : String) (rs : List Debt) (d : Debt)
    → IsFresh id rs
    → d.id ≢ id
    → IsFresh id (rs ++ d ∷ [])
IsFresh-append id [] d h e = (e, tt)
IsFresh-append id (r ∷ rs) d h e = (h.0, IsFresh-append id rs d h.1 e)

pub HasUniqueIds-append :
    (rs : List Debt) (d : Debt) → HasUniqueIds rs → IsFresh d.id rs → HasUniqueIds (rs ++ d ∷ [])
HasUniqueIds-append [] d u h = (tt, tt)
HasUniqueIds-append (r ∷ rs) d u h =
    (IsFresh-append r.id rs d u.0 (λ e. h.0 (sym e)), HasUniqueIds-append rs d u.1 h.1)

-- A row that was found stays the one that is found when another is added.
pub find_debt-append_found :
    (id user_id : String) (rs : List Debt) (d : Debt) {r : Debt}
    → find_debt id user_id rs ≡ some r
    → find_debt id user_id (rs ++ d ∷ []) ≡ some r
unfolding find_debt
find_debt-append_found id user_id [] d h = cc
find_debt-append_found id user_id (x ∷ rs) d {r} h =
    ground (arith, h, find_debt-append_found id user_id rs d {r = r})
