-- ===== src/Endpoint/Runs.antt =====
-- Requests for one kind of transaction in turn, with what the other kinds do between them to the
-- idempotency store and the outbox.
use aureum.Prelude.{
  ℕ, String, ◌≡◌, inl, inr, sym, subst, ◌∙◌, false, none, some, List, [], ◌∷◌, ◌++◌, arith, Result,
  ok, err, Option-cases,
}
use aureum.Prelude.Dict.{lookup}
use aureum.Endpoint.Stores.{Faults, Event, found, read}
use aureum.Endpoint.{Kind, State, find_row, create, get, update, delete}
use aureum.Endpoint.Rows.{IsTable, IsFresh, find_row_unique, find_row-ids, find_row-AllRows}
use aureum.Endpoint.Steps.{IsSound, Step, create-Step, get-Step, update-Step, delete-Step}
use aureum.Endpoint.Cached.{InStep, Step-InStep}
use aureum.Endpoint.Outbox.{IsNamed, Recorded, Step-Recorded, AreForeign, alive_after-AreForeign}

module _ (k : Kind) where
  open k use {Row, Response, CreateRequest, UpdateRequest, respond, cache_key}

  -- A request to the kind, with the calls under it that fail, or the keys and events of the others.
  pub data Request : Type 0 where
    creates : Faults → ℕ → String → CreateRequest → Request
    gets : Faults → String → String → Request
    updates : Faults → ℕ → UpdateRequest → Request
    deletes : Faults → ℕ → String → String → Request
    elsewhere : List (String × k.Stored) → List (Event k.EventType) → Request

  unfoldable pub serve : Request → State k → State k
  serve (creates faults now id req) s = (create k faults now id req s).0
  serve (gets faults id u) s = (get k faults id u s).0
  serve (updates faults now req) s = (update k faults now req s).0
  serve (deletes faults now id u) s = (delete k faults now id u s).0
  serve (elsewhere keys es) s = record s { keys = keys; events = s.events ++ es }

  unfoldable pub serve_all : List Request → State k → State k
  serve_all [] s = s
  serve_all (q ∷ qs) s = serve_all qs (serve q s)

  -- A new row has an id that no row has, and no deletion in the cache fails.
  abbrev pub IsOrderly : (CreateRequest → Type 0) → Request → State k → Type 0
  IsOrderly Q (creates faults now id req) s = Q req × IsFresh k id s.rows
  IsOrderly Q (gets faults id u) s = Unit
  IsOrderly Q (updates faults now req) s = faults.cache_delete ≡ false
  IsOrderly Q (deletes faults now id u) s = faults.cache_delete ≡ false
  IsOrderly Q (elsewhere keys es) s = AreForeign k es

  abbrev pub AllOrderly : (CreateRequest → Type 0) → List Request → State k → Type 0
  AllOrderly Q [] s = Unit
  AllOrderly Q (q ∷ qs) s = IsOrderly Q q s × AllOrderly Q qs (serve q s)

  -- The reference: a read of the rows alone.
  unfoldable pub read_row : String → String → State k → Result k.Err Response
  read_row id u s = elim (find_row k id u s.rows) [
    | none ↦ err k.not_found
    | some d ↦ ok (respond d)
  ]

  module _ (P : Row → Type 0) where
    -- The rows, the cache and the outbox of the kind are in step.
    pub record IsWell (s : State k) : Type 0 where
      pub cached : InStep k P s
      pub recorded : Recorded k s

    module _ (Q : CreateRequest → Type 0) (t : IsTable k) (names : IsNamed k)
        (sound : IsSound k P Q) where
      Step-IsWell : (s s' : State k) → Step k P s s' → IsWell s → IsWell s'
      Step-IsWell s s' step h = record {
        cached = Step-InStep k P Q t sound s s' step h.cached;
        recorded = Step-Recorded k t names P s s' step h.recorded;
      }

      serve-IsWell : (q : Request) (s : State k) → IsOrderly Q q s → IsWell s → IsWell (serve q s)
      unfolding serve
      serve-IsWell (creates faults now id req) s (q, fresh) h =
          Step-IsWell s (create k faults now id req s).0
            (create-Step k P Q sound faults now id req s q fresh) h
      serve-IsWell (gets faults id u) s o h =
          Step-IsWell s (get k faults id u s).0 (get-Step k P faults id u s) h
      serve-IsWell (updates faults now req) s f h =
          Step-IsWell s (update k faults now req s).0
            (update-Step k P Q sound faults now req s f h.cached.all) h
      serve-IsWell (deletes faults now id u) s f h =
          Step-IsWell s (delete k faults now id u s).0 (delete-Step k P faults now id u s f) h
      serve-IsWell (elsewhere keys es) s f h = record {
        cached = record {
          all = h.cached.all;
          unique = h.cached.unique;
          coherent = h.cached.coherent;
        };
        recorded =
            λ id u. h.recorded id u ∙ sym (alive_after-AreForeign k id u false s.events es f);
      }

      pub serve_all-IsWell :
          (qs : List Request) (s : State k) → AllOrderly Q qs s → IsWell s → IsWell (serve_all qs s)
      unfolding serve_all
      serve_all-IsWell [] s o h = h
      serve_all-IsWell (q ∷ qs) s (o, os) h =
          serve_all-IsWell qs (serve q s) os (serve-IsWell q s o h)

    -- A user who has the row reads it, where the keys of the cache tell the ids of the rows apart.
    pub get_refines :
        (faults : Faults) (id u : String) (s : State k) {d : Row}
        → ((i v : String) (x : Row) → P x → k.owner x ≡ v → cache_key i v ≡ cache_key id u → i ≡ id)
        → IsWell s
        → faults.find ≡ false
        → find_row k id u s.rows ≡ some d
        → (get k faults id u s).1 ≡ read_row id u s
    unfolding get read read_row found
    get_refines faults id u s {d} keyed h f e =
        elim (Option-cases (lookup (cache_key id u) s.cache)) [
          | inl n ↦ ground arith
          | inr (r, c) ↦
              let b = h.cached.coherent (cache_key id u) r c in
              let p = find_row-AllRows k P b.id b.user_id s.rows h.cached.all b.found_row in
              let owner = (find_row-ids k b.id b.user_id s.rows b.found_row).1 in
              let same = keyed b.id b.user_id b.d p owner b.is_key in
              let found' : find_row k id b.user_id s.rows ≡ some b.d =
                subst (λ i. find_row k i b.user_id s.rows ≡ some b.d) same b.found_row in
              let row = find_row_unique k id b.user_id u s.rows h.cached.unique found' e in
              ground (arith, b.of_row, row)
        ]

    -- Every user reads what the rows say, where the keys tell the users apart too.
    pub get_isolates :
        (faults : Faults) (id u : String) (s : State k)
        → ((i v : String) (x : Row)
            → P x
            → k.owner x ≡ v
            → cache_key i v ≡ cache_key id u
            → (i ≡ id) × (v ≡ u))
        → IsWell s
        → faults.find ≡ false
        → (get k faults id u s).1 ≡ read_row id u s
    unfolding get read read_row found
    get_isolates faults id u s keyed h f = elim (Option-cases (lookup (cache_key id u) s.cache)) [
      | inl n ↦ elim (Option-cases (find_row k id u s.rows)) [
        | inl m ↦ ground arith
        | inr (x, m) ↦ ground arith
      ]
      | inr (r, c) ↦
          let b = h.cached.coherent (cache_key id u) r c in
          let p = find_row-AllRows k P b.id b.user_id s.rows h.cached.all b.found_row in
          let owner = (find_row-ids k b.id b.user_id s.rows b.found_row).1 in
          let (same, user) = keyed b.id b.user_id b.d p owner b.is_key in
          let row : find_row k id u s.rows ≡ some b.d =
            subst (λ i. find_row k i u s.rows ≡ some b.d) same
              (subst (λ v. find_row k b.id v s.rows ≡ some b.d) user b.found_row) in
          ground (arith, b.of_row, row)
    ]
