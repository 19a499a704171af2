-- ===== src/Investment/Errors.antt =====
-- apps/investment-svc/internal/domain/errors.go. An error wrapped by `fmt.Errorf("...%w", e)` is the
-- `e` that `errors.Is` finds in it; `database` is any error of the database driver.
pub data Err : Type 0 where
  not_found validation negative_amount invalid_asset_type invalid_transaction_type : Err
  invalid_quantity invalid_price insufficient_quantity invalid_status invalid_enum : Err
  missing_field invalid_date status_transition access_denied database : Err
