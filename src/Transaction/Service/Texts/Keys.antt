-- ===== src/Transaction/Service/Texts/Keys.antt =====
-- The keys of the cache tell ids apart, and those with a user tell users apart.
use Prim.Native.String.{◌++◌}
use aureum.Prelude.{String, ◌≡◌, true}
use aureum.Endpoint.Keys.{has_no_colon, append-cancel, append-split}
use aureum.Transaction.Service.Texts.{cache_key, cache_key_for_user}

pub cache_key-ids : (prefix i id : String) → cache_key prefix i ≡ cache_key prefix id → i ≡ id
unfolding cache_key
cache_key-ids prefix i id h = append-cancel ":" i id (
    append-cancel prefix (":" ++ i) (":" ++ id)
      (append-cancel "txn:" (prefix ++ ":" ++ i) (prefix ++ ":" ++ id) h))

pub cache_key_for_user-ids :
    (prefix i u id v : String)
    → has_no_colon u ≡ true
    → has_no_colon v ≡ true
    → cache_key_for_user prefix i u ≡ cache_key_for_user prefix id v
    → (i ≡ id) × (u ≡ v)
unfolding cache_key_for_user
cache_key_for_user-ids prefix i u id v f g h =
    let rest = append-cancel ":" (u ++ ":" ++ i) (v ++ ":" ++ id) (
      append-cancel prefix (":" ++ u ++ ":" ++ i) (":" ++ v ++ ":" ++ id) (
        append-cancel "txn:" (prefix ++ ":" ++ u ++ ":" ++ i) (prefix ++ ":" ++ v ++ ":" ++ id)
          h)) in
    let (u-v, i-id) = append-split u v i id f g rest in (i-id, u-v)
