-- ===== src/Investment/Service/Texts.antt =====
-- The conversions of apps/investment-svc/internal/application/dto.go from the texts of a request to
-- the types of the domain, the conversions `string(...)` back, and the keys of the cache.
use Prim.Native.String.{◌++◌}
use aureum.Prelude.{String, str_eq, if◌then◌else◌, Result, ok, err}
use aureum.Investment.Errors.{Err, invalid_status, invalid_asset_type, invalid_transaction_type}
use aureum.Investment.Holding.{
  AssetType, InvestmentStatus, stock, etf, real_estate_fund, treasury, cdb, lci, lca, crypto,
  pension, fund, dollar, gold, other, unlisted, active, sold, cancelled, unknown, status_is_empty,
}
use aureum.Investment.Transaction.{TransactionType, buy, sell, dividend, jcp, amortization}

-- `toDomainAssetType`
unfoldable pub to_domain_asset_type : String → Result Err AssetType
to_domain_asset_type t =
    if str_eq t "stock"
    then ok stock
    else if str_eq t "etf"
    then ok etf
    else if str_eq t "real_estate_fund"
    then ok real_estate_fund
    else if str_eq t "treasury"
    then ok treasury
    else if str_eq t "cdb"
    then ok cdb
    else if str_eq t "lci"
    then ok lci
    else if str_eq t "lca"
    then ok lca
    else if str_eq t "crypto"
    then ok crypto
    else if str_eq t "pension"
    then ok pension
    else if str_eq t "fund"
    then ok fund
    else if str_eq t "dollar"
    then ok dollar
    else if str_eq t "gold"
    then ok gold
    else if str_eq t "other"
    then ok other
    else err invalid_asset_type

-- `toDomainTransactionType`
unfoldable pub to_domain_transaction_type : String → Result Err TransactionType
to_domain_transaction_type t =
    if str_eq t "buy"
    then ok buy
    else if str_eq t "sell"
    then ok sell
    else if str_eq t "dividend"
    then ok dividend
    else if str_eq t "jcp"
    then ok jcp
    else if str_eq t "amortization"
    then ok amortization
    else err invalid_transaction_type

-- `toDomainStatus`
unfoldable pub to_domain_status : String → Result Err InvestmentStatus
to_domain_status s =
    if str_eq s "active"
    then ok active
    else if str_eq s "sold"
    then ok sold
    else if str_eq s "cancelled"
    then ok cancelled
    else err invalid_status

-- `string(...)` of each: the texts of the constants of internal/domain.
unfoldable pub asset_type_text : AssetType → String
asset_type_text stock = "stock"
asset_type_text etf = "etf"
asset_type_text real_estate_fund = "real_estate_fund"
asset_type_text treasury = "treasury"
asset_type_text cdb = "cdb"
asset_type_text lci = "lci"
asset_type_text lca = "lca"
asset_type_text crypto = "crypto"
asset_type_text pension = "pension"
asset_type_text fund = "fund"
asset_type_text dollar = "dollar"
asset_type_text gold = "gold"
asset_type_text other = "other"
asset_type_text (unlisted s) = s

unfoldable pub status_text : InvestmentStatus → String
status_text active = "active"
status_text sold = "sold"
status_text cancelled = "cancelled"
status_text (unknown s) = s

unfoldable pub transaction_type_text : TransactionType → String
transaction_type_text buy = "buy"
transaction_type_text sell = "sell"
transaction_type_text dividend = "dividend"
transaction_type_text jcp = "jcp"
transaction_type_text amortization = "amortization"
transaction_type_text (TransactionType.unlisted s) = s

-- `if status == "" { status = domain.StatusActive }`
abbrev pub or_active : InvestmentStatus → InvestmentStatus
or_active status = if status_is_empty status then active else status

-- `cacheKey`
unfoldable pub cache_key : String → String → String → String
cache_key prefix user_id id = "inv:" ++ prefix ++ ":" ++ user_id ++ ":" ++ id
