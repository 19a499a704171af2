-- ===== src/Endpoint/Rows.antt =====
-- What the queries find, and what they find after a write, where an id names one row.
use aureum.Prelude.{
  ℕ, String, ◌≡◌, ◌≢◌, ◌⊎◌, sym, true, false, none, some, List, [], ◌∷◌, ◌++◌, arith, eq_iff,
}
use aureum.Endpoint.{Kind, find_row, update_row, delete_row}

-- What the kinds have in common: no statement changes the id or the owner of a row, an update
-- leaves `deleted_at`, and a deletion sets it.
pub record IsTable (k : Kind) : Type 0 where
  pub id_set : (d r : k.Row) → k.row_id (k.set_columns d r) ≡ k.row_id r
  pub owner_set : (d r : k.Row) → k.owner (k.set_columns d r) ≡ k.owner r
  pub live_set : (d r : k.Row) → k.is_live (k.set_columns d r) ≡ k.is_live r
  pub id_mark : (now : ℕ) (r : k.Row) → k.row_id (k.mark now r) ≡ k.row_id r
  pub owner_mark : (now : ℕ) (r : k.Row) → k.owner (k.mark now r) ≡ k.owner r
  pub dead_mark : (now : ℕ) (r : k.Row) → k.is_live (k.mark now r) ≡ false

module _ (k : Kind) where
  open k use {Row, row_id, owner, is_live}

  -- No row has the id.
  abbrev pub IsFresh : String → List Row → Type 0
  IsFresh id [] = Unit
  IsFresh id (r ∷ rs) = (row_id r ≢ id) × IsFresh id rs

  -- The primary key: no two rows have the same id.
  abbrev pub HasUniqueIds : List Row → Type 0
  HasUniqueIds [] = Unit
  HasUniqueIds (r ∷ rs) = IsFresh (row_id r) rs × HasUniqueIds rs

  -- Every row has the property.
  abbrev pub AllRows : (Row → Type 0) → List Row → Type 0
  AllRows P [] = Unit
  AllRows P (r ∷ rs) = P r × AllRows P rs

  find_fresh :
      (id user_id : String) (rs : List Row) → IsFresh id rs → find_row k id user_id rs ≡ none
  unfolding find_row
  find_fresh id user_id [] h = ground arith
  find_fresh id user_id (r ∷ rs) h = ground (arith, eq_iff (row_id r) id, find_fresh id user_id rs)

  pub find_row-ids :
      (id user_id : String) (rs : List Row) {r : Row}
      → find_row k id user_id rs ≡ some r
      → (row_id r ≡ id) × (owner r ≡ user_id) × (is_live r ≡ true)
  unfolding find_row
  find_row-ids id user_id [] h = cc
  find_row-ids id user_id (r ∷ rs) {r = s} h =
      ground
        (arith, eq_iff (row_id r) id, eq_iff (owner r) user_id, find_row-ids id user_id rs {r = s})

  -- What every row has, a row that is found has.
  pub find_row-AllRows :
      (P : Row → Type 0) (id user_id : String) (rs : List Row) {r : Row}
      → AllRows P rs
      → find_row k id user_id rs ≡ some r
      → P r
  unfolding find_row
  find_row-AllRows P id user_id [] h e = cc e
  find_row-AllRows P id user_id (x ∷ rs) {r} (p, ps) e =
      ground (arith, find_row-AllRows P id user_id rs {r = r} ps)

  -- An id leads two users to the same row.
  pub find_row_unique :
      (id u v : String) (rs : List Row) {r s : Row}
      → HasUniqueIds rs
      → find_row k id u rs ≡ some r
      → find_row k id v rs ≡ some s
      → r ≡ s
  unfolding find_row
  find_row_unique id u v [] h e f = cc
  find_row_unique id u v (x ∷ rs) {r} {s} h e f = ground (
    arith,
    eq_iff (row_id x) id,
    find_fresh (row_id x) u rs,
    find_fresh (row_id x) v rs,
    find_row_unique id u v rs {r = r} {s = s},
  )

  pub find_row-append_found :
      (id u : String) (rs : List Row) (d : Row) {r : Row}
      → find_row k id u rs ≡ some r
      → find_row k id u (rs ++ d ∷ []) ≡ some r
  unfolding find_row
  find_row-append_found id u [] d h = cc
  find_row-append_found id u (x ∷ rs) d {r} h =
      ground (arith, find_row-append_found id u rs d {r = r})

  IsFresh-append :
      (id : String) (rs : List Row) (d : Row)
      → row_id d ≢ id
      → IsFresh id rs
      → IsFresh id (rs ++ d ∷ [])
  IsFresh-append id [] d ne h = (ne, tt)
  IsFresh-append id (x ∷ rs) d ne (p, h) = (p, IsFresh-append id rs d ne h)

  pub HasUniqueIds-append :
      (rs : List Row) (d : Row)
      → HasUniqueIds rs
      → IsFresh (row_id d) rs
      → HasUniqueIds (rs ++ d ∷ [])
  HasUniqueIds-append [] d h f = (tt, tt)
  HasUniqueIds-append (x ∷ rs) d (u, h) (ne, f) =
      (IsFresh-append (row_id x) rs d (λ e. ne (sym e)) u, HasUniqueIds-append rs d h f)

  module _ (t : IsTable k) where
    open t use {id_set, owner_set, live_set, id_mark, owner_mark, dead_mark}

    IsFresh-update_row :
        (id : String) (d : Row) (rs : List Row) → IsFresh id rs → IsFresh id (update_row k d rs)
    unfolding update_row
    IsFresh-update_row id d [] h = tt
    IsFresh-update_row id d (r ∷ rs) h = ground (arith, id_set d r, IsFresh-update_row id d rs)

    pub HasUniqueIds-update_row :
        (d : Row) (rs : List Row) → HasUniqueIds rs → HasUniqueIds (update_row k d rs)
    unfolding update_row
    HasUniqueIds-update_row d [] h = tt
    HasUniqueIds-update_row d (r ∷ rs) h =
        ground (arith, id_set d r, IsFresh-update_row (row_id r) d rs, HasUniqueIds-update_row d rs)

    IsFresh-delete_row :
        (now : ℕ) (id i u : String) (rs : List Row)
        → IsFresh id rs
        → IsFresh id (delete_row k now i u rs)
    unfolding delete_row
    IsFresh-delete_row now id i u [] h = tt
    IsFresh-delete_row now id i u (r ∷ rs) h =
        ground (arith, id_mark now r, IsFresh-delete_row now id i u rs)

    pub HasUniqueIds-delete_row :
        (now : ℕ) (i u : String) (rs : List Row)
        → HasUniqueIds rs
        → HasUniqueIds (delete_row k now i u rs)
    unfolding delete_row
    HasUniqueIds-delete_row now i u [] h = tt
    HasUniqueIds-delete_row now i u (r ∷ rs) h = ground (
      arith,
      id_mark now r,
      IsFresh-delete_row now (row_id r) i u rs,
      HasUniqueIds-delete_row now i u rs,
    )

    -- An update leaves the rows of the other ids.
    pub find_row-update_row_ne :
        (id u : String) (d : Row) (rs : List Row)
        → row_id d ≢ id
        → find_row k id u (update_row k d rs) ≡ find_row k id u rs
    unfolding find_row update_row
    find_row-update_row_ne id u d [] ne = ground arith
    find_row-update_row_ne id u d (r ∷ rs) ne = ground (
      arith,
      id_set d r,
      eq_iff (row_id r) id,
      eq_iff (row_id r) (row_id d),
      find_row-update_row_ne id u d rs ne,
    )

    -- A deletion leaves the rows of the other ids and of the other users.
    pub find_row-delete_row_ne :
        (now : ℕ) (id u i v : String) (rs : List Row)
        → (id ≢ i) ⊎ (u ≢ v)
        → find_row k i v (delete_row k now id u rs) ≡ find_row k i v rs
    unfolding find_row delete_row
    find_row-delete_row_ne now id u i v [] ne = ground arith
    find_row-delete_row_ne now id u i v (r ∷ rs) ne = ground (
      arith,
      id_mark now r,
      owner_mark now r,
      dead_mark now r,
      eq_iff (row_id r) id,
      eq_iff (row_id r) i,
      eq_iff (owner r) u,
      eq_iff (owner r) v,
      find_row-delete_row_ne now id u i v rs ne,
    )

    -- An update writes its columns into the row of its id.
    pub find_row-update_row_same :
        (id u : String) (d : Row) (rs : List Row) {x : Row}
        → find_row k id u rs ≡ some x
        → row_id d ≡ id
        → find_row k id u (update_row k d rs) ≡ some (k.set_columns d x)
    unfolding find_row update_row
    find_row-update_row_same id u d [] e same = cc e
    find_row-update_row_same id u d (r ∷ rs) {x} e same = ground (
      arith,
      id_set d r,
      owner_set d r,
      live_set d r,
      eq_iff (row_id r) id,
      eq_iff (row_id r) (row_id d),
      find_row-update_row_same id u d rs {x = x},
    )
