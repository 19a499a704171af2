-- ===== src/Investment/Holding.antt =====
-- apps/investment-svc/internal/domain/investment.go: a holding, its purchases and its sales.
pub mod Updates
pub mod Sales
pub mod Purchases
use aureum.Prelude.{
  ℕ, String, Bool, true, false, not, ◌&&◌, Option, none, some, List, [], ◌∷◌, str_eq, if◌then◌else◌,
  is_empty, contains_by, Result, ok, guards, Method, modify, fail_if, when_some, ◌>>◌, statements,
}
use aureum.Prelude.Int.{ℤ, pos, leb_ℤ, ltb_ℤ, eqb_ℤ, add64, sub64, mul64, div64}
use aureum.Investment.Errors.{
  Err, missing_field, invalid_asset_type, invalid_quantity, invalid_price, invalid_status,
  insufficient_quantity, status_transition, access_denied,
}

-- `AssetType`, a string type: `unlisted` is any text that no constant names.
pub data AssetType : Type 0 where
  stock etf real_estate_fund treasury cdb lci lca crypto pension fund dollar gold other : AssetType
  unlisted : String → AssetType

-- `InvestmentStatus`, a string type, with the same reading of `unknown`.
pub data InvestmentStatus : Type 0 where
  active sold cancelled : InvestmentStatus
  unknown : String → InvestmentStatus

-- `AssetType.Valid`
unfoldable pub valid_asset : AssetType → Bool
valid_asset (unlisted s) = false
valid_asset a = true

-- `InvestmentStatus.Valid`
unfoldable pub valid_status : InvestmentStatus → Bool
valid_status (unknown s) = false
valid_status s = true

-- `assetType == ""` and `status == ""`
abbrev pub asset_is_empty : AssetType → Bool
asset_is_empty (unlisted s) = is_empty s
asset_is_empty a = false

abbrev pub status_is_empty : InvestmentStatus → Bool
status_is_empty (unknown s) = is_empty s
status_is_empty s = false

-- `==` on `InvestmentStatus`
unfoldable pub same : InvestmentStatus → InvestmentStatus → Bool
same active active = true
same sold sold = true
same cancelled cancelled = true
same (unknown s) (unknown t) = str_eq s t
same s t = false

pub record Investment : Type 0 where
  pub id : String
  pub user_id : String
  pub name : String
  pub ticker : String
  pub asset_type : AssetType
  pub quantity : ℤ  -- int64
  pub average_price : ℤ  -- int64
  pub total_invested : ℤ  -- int64
  pub status : InvestmentStatus
  pub broker : String
  pub created_at : ℕ
  pub updated_at : ℕ
  pub deleted_at : Option ℕ

pub record CreateInvestmentInput : Type 0 where
  pub user_id : String
  pub name : String
  pub ticker : String
  pub asset_type : AssetType
  pub quantity : ℤ
  pub average_price : ℤ
  pub broker : String
  pub status : InvestmentStatus

pub record UpdateInvestmentInput : Type 0 where
  pub id : String
  pub user_id : String
  pub name : Option String
  pub ticker : Option String
  pub asset_type : Option AssetType
  pub quantity : Option ℤ
  pub average_price : Option ℤ
  pub broker : Option String
  pub status : Option InvestmentStatus

-- The guards of `NewInvestment`, each with the error that it returns.
investment_guards : CreateInvestmentInput → List (Bool × Err)
unfolding valid_asset valid_status
investment_guards input =
    (is_empty input.user_id, missing_field)
    ∷ (is_empty input.name, missing_field)
    ∷ (is_empty input.ticker, missing_field)
    ∷ (asset_is_empty input.asset_type, missing_field)
    ∷ (not (valid_asset input.asset_type), invalid_asset_type)
    ∷ (leb_ℤ input.quantity (pos 0), invalid_quantity)
    ∷ (ltb_ℤ input.average_price (pos 0), invalid_price)
    ∷ (status_is_empty input.status, missing_field)
    ∷ (not (valid_status input.status), invalid_status)
    ∷ []

-- The holding that it returns past them. The id is set by the caller, and is empty until then.
fresh_investment : ℕ → CreateInvestmentInput → Investment
fresh_investment now input = record {
  id = "";
  user_id = input.user_id;
  name = input.name;
  ticker = input.ticker;
  asset_type = input.asset_type;
  quantity = input.quantity;
  average_price = input.average_price;
  total_invested = mul64 input.quantity input.average_price;
  status = input.status;
  broker = input.broker;
  created_at = now;
  updated_at = now;
  deleted_at = none;
}

-- `NewInvestment`
unfoldable pub new_investment : ℕ → CreateInvestmentInput → Result Err Investment
unfolding investment_guards fresh_investment
new_investment now input = guards (investment_guards input) (ok (fresh_investment now input))

-- The last lines of `Sell`, with the amount that the cost goes down by.
book_sale : ℕ → ℤ → ℤ → Investment → Investment
book_sale now sell_quantity reduction inv =
    let left = sub64 inv.quantity sell_quantity in
    record inv {
      total_invested = sub64 inv.total_invested reduction;
      quantity = left;
      updated_at = now;
      status = if eqb_ℤ left (pos 0) then sold else inv.status;
    }

-- `Investment.Sell`; `none` is a panic.
unfoldable pub sell : ℕ → ℤ → ℤ → Investment → Option (Investment × Option Err)
unfolding book_sale
sell now sell_quantity sell_price inv =
    if leb_ℤ sell_quantity (pos 0)
    then some (inv, some invalid_quantity)
    else if ltb_ℤ sell_price (pos 0)
    then some (inv, some invalid_price)
    else if ltb_ℤ inv.quantity sell_quantity
    then some (inv, some insufficient_quantity)
    else elim (div64 (mul64 inv.total_invested sell_quantity) inv.quantity) [
      | none ↦ none
      | some reduction ↦ some (book_sale now sell_quantity reduction inv, none)
    ]

-- `Investment.UpdateAveragePrice`; `none` is a panic.
unfoldable pub update_average_price : ℕ → ℤ → ℤ → Investment → Option Investment
update_average_price now buy_quantity buy_price inv =
    let total_cost = add64 inv.total_invested (mul64 buy_quantity buy_price) in
    let new_qty = add64 inv.quantity buy_quantity in
    elim (div64 total_cost new_qty) [
      | none ↦ none
      | some average ↦ some (record inv {
        average_price = average;
        quantity = new_qty;
        total_invested = total_cost;
        updated_at = now;
      })
    ]

-- `Investment.Cancel`
unfoldable pub cancel : ℕ → Method Investment Err
unfolding same
cancel now inv =
    if not (same inv.status active)
    then (inv, some status_transition)
    else (record inv { status = cancelled; updated_at = now }, none)

-- The map `allowed` of `TransitionStatus`.
allowed : InvestmentStatus → Option (List InvestmentStatus)
allowed active = some (sold ∷ cancelled ∷ [])
allowed sold = some []
allowed cancelled = some []
allowed (unknown s) = none

-- `Investment.TransitionStatus`
unfoldable pub transition_status : InvestmentStatus → Method Investment Err
unfolding valid_status same allowed
transition_status new inv =
    if not (valid_status new) then (inv, some invalid_status) else elim (allowed inv.status) [
      | none ↦ (inv, some invalid_status)
      | some transitions ↦
          if contains_by same new transitions
          then (record inv { status = new }, none)
          else (inv, some status_transition)
    ]
