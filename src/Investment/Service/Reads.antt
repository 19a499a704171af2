-- ===== src/Investment/Service/Reads.antt =====
-- What users read of their holdings after any requests.
use Prim.Native.String.{◌++◌}
use aureum.Prelude.{String, ◌≡◌, sym, ap, ◌∙◌, true, false, List}
use aureum.Endpoint.{State}
use aureum.Endpoint.Keys.{has_no_colon, append-cancel, append-split}
use aureum.Endpoint.Stores.{Faults}
use aureum.Endpoint.Runs.{
  Request, serve_all, AllOrderly, IsWell, serve_all-IsWell, read_row, get_isolates,
}
use aureum.Investment.Service.{investment_kind, get_investment}
use aureum.Investment.Service.Texts.{cache_key}
use aureum.Investment.Service.Laws.{
  IsProper, IsColonFree, investment-IsTable, investment-IsNamed, investment-IsSound,
}

cache_key-ids :
    (prefix i u id v : String)
    → has_no_colon u ≡ true
    → has_no_colon v ≡ true
    → cache_key prefix u i ≡ cache_key prefix v id
    → (i ≡ id) × (u ≡ v)
unfolding cache_key
cache_key-ids prefix i u id v f g h =
    let rest = append-cancel ":" (u ++ ":" ++ i) (v ++ ":" ++ id) (
      append-cancel prefix (":" ++ u ++ ":" ++ i) (":" ++ v ++ ":" ++ id) (
        append-cancel "inv:" (prefix ++ ":" ++ u ++ ":" ++ i) (prefix ++ ":" ++ v ++ ":" ++ id)
          h)) in
    let (u-v, i-id) = append-split u v i id f g rest in (i-id, u-v)

-- After any creations, reads, updates and deletions of holdings by users whose ids have no colon,
-- whichever of their calls fail but the deletions in the cache, and with new ids for new holdings:
-- every such user reads of an id what the live rows of the user say, whether the answer is cached or
-- not, if the read of the rows does not fail.
pub get_investment-serve_all :
    (qs : List (Request investment_kind)) (faults : Faults) (id u : String)
    (s : State investment_kind)
    → AllOrderly investment_kind IsColonFree qs s
    → IsWell investment_kind IsProper s
    → has_no_colon u ≡ true
    → faults.find ≡ false
    → (get_investment faults id u (serve_all investment_kind qs s)).1
      ≡ read_row investment_kind id u (serve_all investment_kind qs s)
unfolding get_investment
get_investment-serve_all qs faults id u s o h c f =
    get_isolates investment_kind IsProper faults id u (serve_all investment_kind qs s)
      (λ i v x p owner same.
        cache_key-ids "investment" i v id u (ap has_no_colon (sym owner) ∙ p.1) c same)
      (serve_all-IsWell investment_kind IsProper IsColonFree investment-IsTable investment-IsNamed
        investment-IsSound qs s o h)
      f
