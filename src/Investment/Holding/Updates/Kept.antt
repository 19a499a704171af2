-- ===== src/Investment/Holding/Updates/Kept.antt =====
-- What every update of a holding keeps.
use aureum.Prelude.{
  ℕ, String, ◌≡◌, true, false, none, arith, is_empty, ok, guards-ok, Maintains, when_some-Maintains,
  statements-Maintains,
}
use aureum.Prelude.Int.{ℤ, pos, ◌≤ℤ◌}
use aureum.Investment.Holding.{
  Investment, AssetType, InvestmentStatus, CreateInvestmentInput, UpdateInvestmentInput,
  valid_asset, valid_status, new_investment, investment_guards, fresh_investment, transition_status,
}
use aureum.Investment.Holding.Updates.{
  apply_update, update_statements, check_owner, set_name, set_ticker, set_asset, set_quantity,
  set_price, set_broker, set_updated,
}

-- The checks of `NewInvestment` that a sale leaves, on the record.
pub record IsValid (x : Investment) : Type 0 where
  pub name_ok : is_empty x.name ≡ false
  pub ticker_ok : is_empty x.ticker ≡ false
  pub asset_type_ok : valid_asset x.asset_type ≡ true
  pub quantity_ok : pos 0 ≤ℤ x.quantity
  pub average_price_ok : pos 0 ≤ℤ x.average_price
  pub status_ok : valid_status x.status ≡ true

-- A holding is created only past those checks, for the user of the request, and is not deleted.
pub new_investment-IsValid :
    (now : ℕ) (i : CreateInvestmentInput) {x : Investment}
    → new_investment now i ≡ ok x
    → IsValid x × (x.user_id ≡ i.user_id) × (x.deleted_at ≡ none)
unfolding new_investment
new_investment-IsValid now i h =
    let p = guards-ok (investment_guards i) (ok (fresh_investment now i)) h in ground arith

-- A valid holding with the id j, of the user u.
abbrev pub Keeps : String → String → Investment → Type 0
Keeps j u x = IsValid x × (x.id ≡ j) × (x.user_id ≡ u)

module _ (j u : String) where
  check_owner-Keeps : (v : String) → Maintains (Keeps j u) (check_owner v)
  unfolding check_owner
  check_owner-Keeps v x k = ground arith

  set_name-Keeps : (v : String) → Maintains (Keeps j u) (set_name v)
  unfolding set_name
  set_name-Keeps v x k = ground arith

  set_ticker-Keeps : (v : String) → Maintains (Keeps j u) (set_ticker v)
  unfolding set_ticker
  set_ticker-Keeps v x k = ground arith

  set_asset-Keeps : (v : AssetType) → Maintains (Keeps j u) (set_asset v)
  unfolding set_asset
  set_asset-Keeps v x k = ground arith

  set_quantity-Keeps : (v : ℤ) → Maintains (Keeps j u) (set_quantity v)
  unfolding set_quantity
  set_quantity-Keeps v x k = ground arith

  set_price-Keeps : (v : ℤ) → Maintains (Keeps j u) (set_price v)
  unfolding set_price
  set_price-Keeps v x k = ground arith

  set_broker-Keeps : (v : String) → Maintains (Keeps j u) (set_broker v)
  unfolding set_broker
  set_broker-Keeps v x k = ground arith

  transition_status-Keeps : (v : InvestmentStatus) → Maintains (Keeps j u) (transition_status v)
  unfolding transition_status
  transition_status-Keeps v x k = ground arith

  set_updated-Keeps : (now : ℕ) → Maintains (Keeps j u) (set_updated now)
  unfolding set_updated
  set_updated-Keeps now x k = ground arith

  pub apply_update-Keeps :
      (now : ℕ) (i : UpdateInvestmentInput) → Maintains (Keeps j u) (apply_update now i)
  unfolding apply_update
  apply_update-Keeps now i =
      let P = Keeps j u in
      statements-Maintains P (update_statements now i) (
        check_owner-Keeps i.user_id,
        (
          when_some-Maintains P i.name set_name (λ v _. set_name-Keeps v),
          (
            when_some-Maintains P i.ticker set_ticker (λ v _. set_ticker-Keeps v),
            (
              when_some-Maintains P i.asset_type set_asset (λ v _. set_asset-Keeps v),
              (
                when_some-Maintains P i.quantity set_quantity (λ v _. set_quantity-Keeps v),
                (
                  when_some-Maintains P i.average_price set_price (λ v _. set_price-Keeps v),
                  (
                    when_some-Maintains P i.broker set_broker (λ v _. set_broker-Keeps v),
                    (
                      when_some-Maintains P i.status transition_status
                          (λ v _. transition_status-Keeps v),
                      (set_updated-Keeps now, tt),
                    ),
                  ),
                ),
              ),
            ),
          ),
        ),
      )
