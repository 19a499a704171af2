-- ===== src/Endpoint/Stores.antt =====
-- The stores that a handler of a service calls: the idempotency store (pkg/idempotency), the cache of
-- responses (pkg/cache) and the outbox, and which of its calls fail.
use aureum.Prelude.{
  ℕ, String, Bool, true, false, Option, none, some, List, is_empty, if◌then◌else◌, Result, ok, err,
}
use aureum.Prelude.Dict.{lookup, put, remove}
use aureum.Prelude.Int.{ℤ}

-- A value of the payload of an event is a text or a number.
pub data Value : Type 0 where
  text : String → Value
  number : ℤ → Value

pub record Event {ℓ} (T : Type ℓ) : Type ℓ where
  pub event_type : T
  pub entity_id : String
  pub user_id : String
  pub payload : List (String × Value)
  pub timestamp : ℕ

-- `deleted_at IS NULL`
abbrev pub is_null : Option ℕ → Bool
is_null none = true
is_null (some t) = false

-- Which calls of a request fail. With no cache all of the cache fail; `begin` to `commit` are those of
-- the transaction.
pub record Faults : Type 0 where
  pub key_get : Bool
  pub key_store : Bool
  pub cache_get : Bool
  pub cache_set : Bool
  pub cache_delete : Bool
  pub find : Bool
  pub begin : Bool
  pub write : Bool
  pub save_event : Bool
  pub commit : Bool

-- The result of a `FindByID`.
unfoldable pub found {ℓ κ} : {A : Type ℓ} {E : Type κ} → E → E → Bool → Option A → Result E A
found database not_found fails none = if fails then err database else err not_found
found database not_found fails (some a) = if fails then err database else ok a

-- A read that fails is a miss.
unfoldable pub read {ℓ} : {A : Type ℓ} → Bool → Option A → Option A
read fails value = if fails then none else value

-- `cache.Set` and `cache.Delete`, whose errors are dropped.
unfoldable pub cache_set {ℓ} :
    {V : Type ℓ} → Faults → String → V → List (String × V) → List (String × V)
cache_set faults key value cache = if faults.cache_set then cache else put key value cache

unfoldable pub cache_delete {ℓ} :
    {V : Type ℓ} → Faults → String → List (String × V) → List (String × V)
cache_delete faults key cache = if faults.cache_delete then cache else remove key cache

-- `idempotency.Store`, which is `SetNX`: a key that is there keeps its value. An empty key is not stored.
unfoldable pub key_store {ℓ} :
    {V : Type ℓ} → Faults → String → V → List (String × V) → List (String × V)
key_store faults key value keys =
    if is_empty key
    then keys
    else if faults.key_store
    then keys
    else elim (lookup key keys) [ none ↦ put key value keys | some old ↦ keys ]

-- The text that the idempotency store has for the key of a request.
unfoldable pub replayed {ℓ} : {V : Type ℓ} → Faults → String → List (String × V) → Option V
replayed faults key keys = if is_empty key then none else read faults.key_get (lookup key keys)

-- The conversion of a field that may be left out.
unfoldable pub convert {ℓ κ μ} :
    {A : Type ℓ} {B : Type κ} {E : Type μ} → (A → Result E B) → Option A → Result E (Option B)
convert f none = ok none
convert f (some a) = elim (f a) [ err e ↦ err e | ok b ↦ ok (some b) ]
