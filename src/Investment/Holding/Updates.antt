-- ===== src/Investment/Holding/Updates.antt =====
-- `ApplyUpdate` of apps/investment-svc/internal/domain/investment.go.
pub mod Kept
use aureum.Prelude.{
  ℕ, String, not, ◌&&◌, List, [], ◌∷◌, str_eq, is_empty, Method, modify, fail_if, when_some, ◌>>◌,
  statements,
}
use aureum.Prelude.Int.{ℤ, pos, leb_ℤ, ltb_ℤ}
use aureum.Investment.Errors.{
  Err, missing_field, invalid_asset_type, invalid_quantity, invalid_price, access_denied,
}
use aureum.Investment.Holding.{
  Investment, AssetType, UpdateInvestmentInput, valid_asset, transition_status,
}

-- The statements of `ApplyUpdate`, one for each field.
check_owner : String → Method Investment Err
check_owner user_id c =
    fail_if (not (is_empty user_id) && not (str_eq user_id c.user_id)) access_denied c

set_name : String → Method Investment Err
set_name v = fail_if (is_empty v) missing_field >> modify (λ c. record c { name = v })

set_ticker : String → Method Investment Err
set_ticker v = fail_if (is_empty v) missing_field >> modify (λ c. record c { ticker = v })

set_asset : AssetType → Method Investment Err
unfolding valid_asset
set_asset v =
    fail_if (not (valid_asset v)) invalid_asset_type >> modify (λ c. record c { asset_type = v })

set_quantity : ℤ → Method Investment Err
set_quantity v =
    fail_if (leb_ℤ v (pos 0)) invalid_quantity >> modify (λ c. record c { quantity = v })

set_price : ℤ → Method Investment Err
set_price v =
    fail_if (ltb_ℤ v (pos 0)) invalid_price >> modify (λ c. record c { average_price = v })

set_broker : String → Method Investment Err
set_broker v = modify (λ c. record c { broker = v })

set_updated : ℕ → Method Investment Err
set_updated now = modify (λ c. record c { updated_at = now })

update_statements : ℕ → UpdateInvestmentInput → List (Method Investment Err)
update_statements now input =
    check_owner input.user_id
    ∷ when_some input.name set_name
    ∷ when_some input.ticker set_ticker
    ∷ when_some input.asset_type set_asset
    ∷ when_some input.quantity set_quantity
    ∷ when_some input.average_price set_price
    ∷ when_some input.broker set_broker
    ∷ when_some input.status transition_status
    ∷ set_updated now
    ∷ []

-- `Investment.ApplyUpdate`
unfoldable pub apply_update : ℕ → UpdateInvestmentInput → Method Investment Err
unfolding update_statements check_owner set_name set_ticker set_asset set_quantity set_price
    set_broker transition_status set_updated
apply_update now input = statements (update_statements now input)
