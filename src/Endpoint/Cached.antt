-- ===== src/Endpoint/Cached.antt =====
-- The rows and the cache of one kind of transaction over its requests.
use aureum.Prelude.{
  ℕ, String, ◌≡◌, ◌≢◌, ◌⊎◌, inl, inr, sym, ap, subst, ◌∙◌, some, List, [], ◌∷◌, ◌++◌, str_eq, arith,
  eq_iff, Bool-cases,
}
use aureum.Prelude.Dict.{lookup, put, remove, lookup-put, lookup-remove}
use aureum.Endpoint.{Kind, State, find_row, update_row, delete_row}
use aureum.Endpoint.Rows.{
  IsTable, HasUniqueIds, AllRows, find_row-ids, find_row_unique, find_row-append_found,
  HasUniqueIds-append, HasUniqueIds-update_row, HasUniqueIds-delete_row, find_row-update_row_ne,
  find_row-delete_row_ne,
}
use aureum.Endpoint.Steps.{IsSound, Step, stays, fills, adds, writes, drops, deletes}

module _ (k : Kind) where
  open k use {Row, row_id, owner, Response, respond, cache_key}

  -- A live row under whose key a response is the row's.
  pub record Backed (key : String) (r : Response) (rows : List Row) : Type 0 where
    pub id : String
    pub user_id : String
    pub d : Row
    pub is_key : cache_key id user_id ≡ key
    pub found_row : find_row k id user_id rows ≡ some d
    pub of_row : r ≡ respond d

  -- Each response in the cache is the one of a row.
  abbrev pub Coherent : List Row → List (String × Response) → Type 0
  Coherent rows cache =
      (key : String) (r : Response) → lookup key cache ≡ some r → Backed key r rows

  -- Rows that a write leaves to every key but the one that it clears.
  Coherent-remove :
      (id u : String) (rows rows' : List Row) (cache : List (String × Response))
      → ((i v : String) (d : Row)
          → cache_key i v ≢ cache_key id u
          → find_row k i v rows ≡ some d
          → find_row k i v rows' ≡ some d)
      → Coherent rows cache
      → Coherent rows' (remove (cache_key id u) cache)
  Coherent-remove id u rows rows' cache same c key r h =
      let at = lookup-remove (cache_key id u) key cache in
      let ne : key ≢ cache_key id u = λ e. ground (arith, eq_iff (cache_key id u) key, at, h) in
      let b = c key r (ground (arith, at, h)) in
      record {
        id = b.id;
        user_id = b.user_id;
        d = b.d;
        is_key = b.is_key;
        found_row = same b.id b.user_id b.d (λ e. ne (sym b.is_key ∙ e)) b.found_row;
        of_row = b.of_row;
      }

  Coherent-put :
      (id u : String) (d : Row) (rows : List Row) (cache : List (String × Response))
      → find_row k id u rows ≡ some d
      → Coherent rows cache
      → Coherent rows (put (cache_key id u) (respond d) cache)
  Coherent-put id u d rows cache e c key r h =
      let split = lookup-put (cache_key id u) key (respond d) cache in
      elim (Bool-cases (str_eq (cache_key id u) key)) [
        | inl b ↦ record {
          id = id;
          user_id = u;
          d = d;
          is_key = (eq_iff (cache_key id u) key).0 b;
          found_row = e;
          of_row = ground (arith, split, h, b);
        }
        | inr b ↦ c key r (ground (arith, split, h, b))
      ]

  Coherent-rows :
      (rows rows' : List Row) (cache : List (String × Response))
      → ((i v : String) (d : Row) → find_row k i v rows ≡ some d → find_row k i v rows' ≡ some d)
      → Coherent rows cache
      → Coherent rows' cache
  Coherent-rows rows rows' cache same c key r h =
      let b = c key r h in
      record {
        id = b.id;
        user_id = b.user_id;
        d = b.d;
        is_key = b.is_key;
        found_row = same b.id b.user_id b.d b.found_row;
        of_row = b.of_row;
      }

  -- Where an id names one row, a user whose key is another has another row.
  other_row :
      (id u i v : String) (rows : List Row) {x y : Row}
      → HasUniqueIds k rows
      → find_row k id u rows ≡ some x
      → find_row k i v rows ≡ some y
      → cache_key i v ≢ cache_key id u
      → id ≢ i
  other_row id u i v rows {x} {y} h e f ne same =
      let e' : find_row k i u rows ≡ some x = subst (λ j. find_row k j u rows ≡ some x) same e in
      let x-y : x ≡ y = find_row_unique k i u v rows h e' f in
      let u-v : u ≡ v =
        sym ((find_row-ids k i u rows e').1) ∙ ap owner x-y ∙ (find_row-ids k i v rows f).1 in
      ne (ap (cache_key i) (sym u-v) ∙ ap (λ j. cache_key j u) (sym same))

  other_key : (id u i v : String) → cache_key i v ≢ cache_key id u → (id ≢ i) ⊎ (u ≢ v)
  other_key id u i v ne = elim (Bool-cases (str_eq id i)) [
    | inl b ↦
        inr
          (λ e. ne (ap (λ j. cache_key j v) (sym ((eq_iff id i).0 b)) ∙ ap (cache_key id) (sym e)))
    | inr b ↦ inl (λ e. ground (arith, eq_iff id i, b, e))
  ]

  module _ (P : Row → Type 0) where
    -- Every row has the property, ids name one row, and the cache is in step with the rows.
    pub record InStep (s : State k) : Type 0 where
      pub all : AllRows k P s.rows
      pub unique : HasUniqueIds k s.rows
      pub coherent : Coherent s.rows s.cache

    AllRows-append : (rs : List Row) (d : Row) → P d → AllRows k P rs → AllRows k P (rs ++ d ∷ [])
    AllRows-append [] d p h = (p, tt)
    AllRows-append (r ∷ rs) d p (q, h) = (q, AllRows-append rs d p h)

    module _ (Q : k.CreateRequest → Type 0) (t : IsTable k) (sound : IsSound k P Q) where
      open sound use {set, marked}

      AllRows-update_row :
          (d : Row) (rs : List Row) → P d → AllRows k P rs → AllRows k P (update_row k d rs)
      unfolding update_row
      AllRows-update_row d [] p h = tt
      AllRows-update_row d (r ∷ rs) p h = ground (arith, set d r, AllRows-update_row d rs p)

      AllRows-delete_row :
          (now : ℕ) (id u : String) (rs : List Row)
          → AllRows k P rs
          → AllRows k P (delete_row k now id u rs)
      unfolding delete_row
      AllRows-delete_row now id u [] h = tt
      AllRows-delete_row now id u (r ∷ rs) h =
          ground (arith, marked now r, AllRows-delete_row now id u rs)

      -- A step keeps the rows, their ids and the cache in step.
      pub Step-InStep : (s s' : State k) → Step k P s s' → InStep s → InStep s'
      Step-InStep s s' (stays rs cs es) h = record {
        all = rw rs h.all;
        unique = rw rs h.unique;
        coherent = rw (rs, cs) h.coherent;
      }
      Step-InStep s s' (fills id u d e rs cs es) h = record {
        all = rw rs h.all;
        unique = rw rs h.unique;
        coherent = rw (rs, cs) (Coherent-put id u d s.rows s.cache e h.coherent);
      }
      Step-InStep s s' (adds now d p fresh live rs cs es) h = record {
        all = rw rs (AllRows-append s.rows d p h.all);
        unique = rw rs (HasUniqueIds-append k s.rows d h.unique fresh);
        coherent =
            rw (rs, cs)
              (Coherent-rows s.rows (s.rows ++ d ∷ []) s.cache
                (λ i v x. find_row-append_found k i v s.rows d) h.coherent);
      }
      Step-InStep s s' (writes now id u x d e i p rs cs es) h = record {
        all = rw rs (AllRows-update_row d s.rows p h.all);
        unique = rw rs (HasUniqueIds-update_row k t d s.rows h.unique);
        coherent =
            rw (rs, cs)
              (Coherent-remove id u s.rows (update_row k d s.rows) s.cache
                (λ j v y ne e'.
                  find_row-update_row_ne k t j v d s.rows
                    (λ f. other_row id u j v s.rows h.unique e e' ne (sym i ∙ f))
                  ∙ e')
                h.coherent);
      }
      Step-InStep s s' (drops id u rs cs es) h = record {
        all = rw rs h.all;
        unique = rw rs h.unique;
        coherent =
            rw (rs, cs) (Coherent-remove id u s.rows s.rows s.cache (λ i v x ne e. e) h.coherent);
      }
      Step-InStep s s' (deletes now id u rs cs es) h = record {
        all = rw rs (AllRows-delete_row now id u s.rows h.all);
        unique = rw rs (HasUniqueIds-delete_row k t now id u s.rows h.unique);
        coherent =
            rw (rs, cs)
              (Coherent-remove id u s.rows (delete_row k now id u s.rows) s.cache
                (λ j v y ne e'.
                  find_row-delete_row_ne k t now id u j v s.rows (other_key id u j v ne) ∙ e')
                h.coherent);
      }
