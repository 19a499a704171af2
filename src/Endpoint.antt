-- ===== src/Endpoint.antt =====
-- What the handlers of incomes and expenses in apps/transaction-svc/internal/application/service.go
-- and of investments in apps/investment-svc/internal/application/service.go have in common: each
-- creates, reads, updates and deletes the rows of one table, with the same steps in the same order.
pub mod Stores
pub mod Keys
pub mod Rows
pub mod Steps
pub mod Cached
pub mod Outbox
pub mod Runs
use aureum.Prelude.{
  ℕ, String, ◌≡◌, Bool, true, false, ◌&&◌, Option, none, some, List, [], ◌∷◌, ◌++◌, str_eq,
  if◌then◌else◌, Result, ok, err,
}
use aureum.Prelude.Dict.{lookup}
use aureum.Endpoint.Stores.{
  Value, Event, Faults, found, read, cache_set, cache_delete, key_store, replayed,
}

-- What is different: the table with its columns, the response, the key in the cache of an id and a user,
-- the events, the row that a request to create builds, with the id that `uuid.New` returns, and what a
-- request to update makes of the row that was read.
pub record Kind : Type 1 where
  pub Err : Type 0
  pub not_found : Err
  pub database : Err  -- any error of the database driver
  pub Stored : Type 0  -- what the idempotency store keeps
  pub EventType : Type 0
  pub same_event : EventType → EventType → Bool
  pub Row : Type 0
  pub row_id : Row → String
  pub owner : Row → String
  pub is_live : Row → Bool  -- `deleted_at IS NULL`
  pub set_columns : Row → Row → Row  -- the columns that `UPDATE` writes
  pub mark : ℕ → Row → Row  -- `SET deleted_at=$1, updated_at=$1`
  pub Response : Type 0
  pub respond : Row → Response
  pub pack : Response → Stored
  pub unpack : Stored → Response
  pub cache_key : String → String → String
  pub created : EventType
  pub updated : EventType
  pub deleted : EventType
  pub payload : Row → List (String × Value)
  pub updated_payload : Row → List (String × Value)
  pub CreateRequest : Type 0
  pub create_key : CreateRequest → String  -- its idempotency key
  pub build : ℕ → String → CreateRequest → Result Err Row
  pub UpdateRequest : Type 0
  pub update_key : UpdateRequest → String
  pub update_id : UpdateRequest → String
  pub update_user : UpdateRequest → String
  pub change : ℕ → UpdateRequest → Row → Result Err Row

module _ (k : Kind) where
  open k use {
    Err, not_found, database, Stored, EventType, Row, row_id, owner, is_live, set_columns, mark,
    Response, respond, pack, unpack, cache_key, created, updated, deleted, payload, updated_payload,
    CreateRequest, create_key, build, UpdateRequest, update_key, update_id, update_user, change,
  }

  -- The rows of the table, the responses in the cache, and what the kinds share.
  pub record State : Type 0 where
    pub rows : List Row
    pub cache : List (String × Response)
    pub keys : List (String × Stored)
    pub events : List (Event EventType)

  -- `WHERE id=$1 AND user_id=$2 AND deleted_at IS NULL`
  unfoldable pub find_row : String → String → List Row → Option Row
  find_row id user_id [] = none
  find_row id user_id (r ∷ rs) =
      let rest = find_row id user_id rs in
      if str_eq (row_id r) id && str_eq (owner r) user_id && is_live r then some r else rest

  -- `UPDATE ... WHERE id=$n AND deleted_at IS NULL`
  unfoldable pub update_row : Row → List Row → List Row
  update_row d [] = []
  update_row d (r ∷ rs) =
      (if str_eq (row_id r) (row_id d) && is_live r then set_columns d r else r) ∷ update_row d rs

  -- `UPDATE ... SET deleted_at=$1, updated_at=$1 WHERE id=$2 AND user_id=$3 AND deleted_at IS NULL`
  unfoldable pub delete_row : ℕ → String → String → List Row → List Row
  delete_row now id user_id [] = []
  delete_row now id user_id (r ∷ rs) =
      (if str_eq (row_id r) id && str_eq (owner r) user_id && is_live r then mark now r else r)
      ∷ delete_row now id user_id rs

  -- `WithTx` on one statement and the event: all of it is there after the commit, and none of it when
  -- a call fails.
  unfoldable pub write : Faults → List Row → Event EventType → State → Result Err State
  write faults rows event s =
      if faults.begin
      then err database
      else if faults.write
      then err database
      else if faults.save_event
      then err database
      else if faults.commit
      then err database
      else ok record s { rows = rows; events = s.events ++ event ∷ [] }

  pub created_event : ℕ → Row → Event EventType
  created_event now d = record {
    event_type = created;
    entity_id = row_id d;
    user_id = owner d;
    payload = payload d;
    timestamp = now;
  }

  pub updated_event : ℕ → Row → Event EventType
  updated_event now d = record {
    event_type = updated;
    entity_id = row_id d;
    user_id = owner d;
    payload = updated_payload d;
    timestamp = now;
  }

  pub deleted_event : ℕ → String → String → Event EventType
  deleted_event now id user_id = record {
    event_type = deleted;
    entity_id = id;
    user_id = user_id;
    payload = [];
    timestamp = now;
  }

  -- A creation past the idempotency store, with the row that the domain builds from the request.
  unfoldable pub insert : Faults → ℕ → String → Result Err Row → State → State × Result Err Response
  insert faults now key built s = elim built [
    | err e ↦ (s, err e)
    | ok d ↦ elim (write faults (s.rows ++ d ∷ []) (created_event now d) s) [
      | err e ↦ (s, err e)
      | ok t ↦ (record t { keys = key_store faults key (pack (respond d)) t.keys }, ok (respond d))
    ]
  ]

  unfoldable pub create : Faults → ℕ → String → CreateRequest → State → State × Result Err Response
  create faults now id req s = elim (replayed faults (create_key req) s.keys) [
    | some v ↦ (s, ok (unpack v))
    | none ↦ insert faults now (create_key req) (build now id req) s
  ]

  -- A read through the cache.
  unfoldable pub get : Faults → String → String → State → State × Result Err Response
  get faults id user_id s = elim (read faults.cache_get (lookup (cache_key id user_id) s.cache)) [
    | some cached ↦ (s, ok cached)
    | none ↦ elim (found database not_found faults.find (find_row id user_id s.rows)) [
      | err e ↦ (s, err e)
      | ok d ↦ (
        record s { cache = cache_set faults (cache_key id user_id) (respond d) s.cache },
        ok (respond d),
      )
    ]
  ]

  -- An update past the idempotency store, with what the request makes of the row that was read.
  unfoldable pub replace :
      Faults → ℕ → String → String → String → Result Err Row → State → State × Result Err Response
  replace faults now key id user_id changed s = elim changed [
    | err e ↦ (s, err e)
    | ok d ↦ elim (write faults (update_row d s.rows) (updated_event now d) s) [
      | err e ↦ (s, err e)
      | ok t ↦ (
        record t {
          keys = key_store faults key (pack (respond d)) t.keys;
          cache = cache_delete faults (cache_key id user_id) t.cache;
        },
        ok (respond d),
      )
    ]
  ]

  unfoldable pub update : Faults → ℕ → UpdateRequest → State → State × Result Err Response
  update faults now req s = elim (replayed faults (update_key req) s.keys) [
    | some v ↦ (s, ok (unpack v))
    | none ↦
        elim (found database not_found faults.find
          (find_row (update_id req) (update_user req) s.rows)) [
            | err e ↦ (s, err e)
            | ok x ↦
                replace faults now (update_key req) (update_id req) (update_user req)
                  (change now req x) s
          ]
  ]

  -- A deletion: the one in the cache comes first, and then the transaction.
  unfoldable pub delete : Faults → ℕ → String → String → State → State × Option Err
  delete faults now id user_id s =
      let forgotten : State = record s {
        cache = cache_delete faults (cache_key id user_id) s.cache;
      } in
      elim (write faults (delete_row now id user_id s.rows) (deleted_event now id user_id)
        forgotten) [ err e ↦ (forgotten, some e) | ok t ↦ (t, none) ]
