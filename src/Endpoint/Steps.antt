-- ===== src/Endpoint/Steps.antt =====
-- The handlers as steps on the rows, the cache and the events.
use aureum.Prelude.{
  ℕ, String, ◌≡◌, ◌⊎◌, inl, inr, sym, subst, ◌∙◌, true, false, some, List, [], ◌∷◌, ◌++◌, arith, ok,
  err, Option-cases, Bool-cases, Result-cases,
}
use aureum.Prelude.Dict.{lookup, put, remove}
use aureum.Endpoint.Stores.{Faults, Event, found, read, cache_set, cache_delete, replayed}
use aureum.Endpoint.{
  Kind, State, find_row, update_row, delete_row, write, created_event, updated_event, deleted_event,
  insert, create, get, replace, update, delete,
}
use aureum.Endpoint.Rows.{AllRows, IsFresh, find_row-ids, find_row-AllRows}

-- A property of a row that the domain gives to the rows that it builds from the requests with `Q`, and
-- keeps in those that it changes.
pub record IsSound (k : Kind) (P : k.Row → Type 0) (Q : k.CreateRequest → Type 0) : Type 0 where
  pub built :
      (now : ℕ) (id : String) (req : k.CreateRequest) (d : k.Row)
      → Q req
      → k.build now id req ≡ ok d
      → P d × (k.row_id d ≡ id) × (k.is_live d ≡ true)
  pub changed :
      (now : ℕ) (req : k.UpdateRequest) (x d : k.Row)
      → P x
      → k.change now req x ≡ ok d
      → P d × (k.row_id d ≡ k.row_id x)
  pub set : (d r : k.Row) → P d → P r → P (k.set_columns d r)
  pub marked : (now : ℕ) (r : k.Row) → P r → P (k.mark now r)

module _ (k : Kind) where
  open k use {
    Row, row_id, owner, is_live, respond, cache_key, CreateRequest, build, UpdateRequest, update_id,
    update_user, change,
  }

  -- One request: it does nothing, fills the cache, adds a row, writes one, or deletes one; a deletion
  -- that fails has cleared the cache.
  pub data Step (P : Row → Type 0) (s t : State k) : Type 0 where
    stays : t.rows ≡ s.rows → t.cache ≡ s.cache → t.events ≡ s.events → Step P s t
    fills :
        (id u : String) (d : Row)
        → find_row k id u s.rows ≡ some d
        → t.rows ≡ s.rows
        → t.cache ≡ put (cache_key id u) (respond d) s.cache
        → t.events ≡ s.events
        → Step P s t
    adds :
        (now : ℕ) (d : Row)
        → P d
        → IsFresh k (row_id d) s.rows
        → is_live d ≡ true
        → t.rows ≡ s.rows ++ d ∷ []
        → t.cache ≡ s.cache
        → t.events ≡ s.events ++ created_event k now d ∷ []
        → Step P s t
    writes :
        (now : ℕ) (id u : String) (x d : Row)
        → find_row k id u s.rows ≡ some x
        → row_id d ≡ id
        → P d
        → t.rows ≡ update_row k d s.rows
        → t.cache ≡ remove (cache_key id u) s.cache
        → t.events ≡ s.events ++ updated_event k now d ∷ []
        → Step P s t
    drops :
        (id u : String)
        → t.rows ≡ s.rows
        → t.cache ≡ remove (cache_key id u) s.cache
        → t.events ≡ s.events
        → Step P s t
    deletes :
        (now : ℕ) (id u : String)
        → t.rows ≡ delete_row k now id u s.rows
        → t.cache ≡ remove (cache_key id u) s.cache
        → t.events ≡ s.events ++ deleted_event k now id u ∷ []
        → Step P s t

  -- A write is all of it or an error.
  pub write-cases :
      (faults : Faults) (rows : List Row) (event : Event k.EventType) (s : State k)
      → ((e : k.Err) × (write k faults rows event s ≡ err e))
        ⊎ (write k faults rows event s
            ≡ ok record s { rows = rows; events = s.events ++ event ∷ [] })
  unfolding write
  write-cases faults rows event s = elim (Result-cases (write k faults rows event s)) [
    | inr (e, h) ↦ inl (e, h)
    | inl (t, h) ↦ inr (ground arith)
  ]

  module _ (P : Row → Type 0) where
    pub get-Step :
        (faults : Faults) (id u : String) (s : State k) → Step P s (get k faults id u s).0
    unfolding get cache_set found
    get-Step faults id u s =
        elim (Option-cases (read faults.cache_get (lookup (cache_key id u) s.cache))) [
          | inr (r, h) ↦ stays (ground arith) (ground arith) (ground arith)
          | inl n ↦ elim (Option-cases (find_row k id u s.rows)) [
            | inl e ↦ stays (ground arith) (ground arith) (ground arith)
            | inr (d, e) ↦ elim (Bool-cases faults.find) [
              | inl b ↦ stays (ground arith) (ground arith) (ground arith)
              | inr b ↦ elim (Bool-cases faults.cache_set) [
                | inl b' ↦ stays (ground arith) (ground arith) (ground arith)
                | inr b' ↦ fills id u d e (ground arith) (ground arith) (ground arith)
              ]
            ]
          ]
        ]

    pub delete-Step :
        (faults : Faults) (now : ℕ) (id u : String) (s : State k)
        → faults.cache_delete ≡ false
        → Step P s (delete k faults now id u s).0
    unfolding delete cache_delete
    delete-Step faults now id u s f =
        let forgotten : State k = record s {
          cache = cache_delete faults (cache_key id u) s.cache;
        } in
        elim (write-cases faults (delete_row k now id u s.rows) (deleted_event k now id u)
          forgotten) [
            | inl (e, h) ↦ drops id u (ground arith) (ground arith) (ground arith)
            | inr h ↦ deletes now id u (ground arith) (ground arith) (ground arith)
          ]

    module _ (Q : CreateRequest → Type 0) (sound : IsSound k P Q) where
      open sound use {built, changed}

      insert-Step :
          (faults : Faults) (now : ℕ) (key id : String) (req : CreateRequest) (s : State k)
          → Q req
          → IsFresh k id s.rows
          → Step P s (insert k faults now key (build now id req) s).0
      unfolding insert
      insert-Step faults now key id req s q fresh = elim (Result-cases (build now id req)) [
        | inr (e, h) ↦ stays (ground arith) (ground arith) (ground arith)
        | inl (d, h) ↦
            let (p, same, live) = built now id req d q h in
            let new : IsFresh k (row_id d) s.rows =
              subst (λ i. IsFresh k i s.rows) (sym same) fresh in
            elim (write-cases faults (s.rows ++ d ∷ []) (created_event k now d) s) [
              | inl (e, w) ↦ stays (ground arith) (ground arith) (ground arith)
              | inr w ↦ adds now d p new live (ground arith) (ground arith) (ground arith)
            ]
      ]

      pub create-Step :
          (faults : Faults) (now : ℕ) (id : String) (req : CreateRequest) (s : State k)
          → Q req
          → IsFresh k id s.rows
          → Step P s (create k faults now id req s).0
      unfolding create
      create-Step faults now id req s q fresh =
          elim (Option-cases (replayed faults (k.create_key req) s.keys)) [
            | inr (v, h) ↦ stays (ground arith) (ground arith) (ground arith)
            | inl n ↦
                let past : create k faults now id req s
                    ≡ insert k faults now (k.create_key req) (build now id req) s =
                  ground arith in
                subst (λ t. Step P s t.0) (sym past)
                  (insert-Step faults now (k.create_key req) id req s q fresh)
          ]

      replace-Step :
          (faults : Faults) (now : ℕ) (req : UpdateRequest) (x : Row) (s : State k)
          → faults.cache_delete ≡ false
          → AllRows k P s.rows
          → find_row k (update_id req) (update_user req) s.rows ≡ some x
          → Step P s
              (replace k faults now
                (k.update_key req)
                (update_id req)
                (update_user req)
                (change now req x)
                s).0
      unfolding replace cache_delete
      replace-Step faults now req x s f all e = elim (Result-cases (change now req x)) [
        | inr (e', h) ↦ stays (ground arith) (ground arith) (ground arith)
        | inl (d, h) ↦
            let (p, same) =
              changed now req x d
                (find_row-AllRows k P (update_id req) (update_user req) s.rows all e) h in
            let ids = find_row-ids k (update_id req) (update_user req) s.rows e in
            elim (write-cases faults (update_row k d s.rows) (updated_event k now d) s) [
              | inl (e', w) ↦ stays (ground arith) (ground arith) (ground arith)
              | inr w ↦
                  writes now (update_id req) (update_user req) x d e (same ∙ ids.0) p (ground arith)
                    (ground arith) (ground arith)
            ]
      ]

      pub update-Step :
          (faults : Faults) (now : ℕ) (req : UpdateRequest) (s : State k)
          → faults.cache_delete ≡ false
          → AllRows k P s.rows
          → Step P s (update k faults now req s).0
      unfolding update found
      update-Step faults now req s f all =
          elim (Option-cases (replayed faults (k.update_key req) s.keys)) [
            | inr (v, h) ↦ stays (ground arith) (ground arith) (ground arith)
            | inl n ↦ elim (Option-cases (find_row k (update_id req) (update_user req) s.rows)) [
              | inl e ↦ stays (ground arith) (ground arith) (ground arith)
              | inr (x, e) ↦ elim (Bool-cases faults.find) [
                | inl b ↦ stays (ground arith) (ground arith) (ground arith)
                | inr b ↦
                    let past : update k faults now req s
                        ≡ replace k faults now (k.update_key req) (update_id req) (update_user req)
                            (change now req x) s =
                      ground arith in
                    subst (λ t. Step P s t.0) (sym past) (replace-Step faults now req x s f all e)
              ]
            ]
          ]
