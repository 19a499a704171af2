-- ===== src/Transaction/Errors.antt =====
-- apps/transaction-svc/internal/domain/errors.go; `database` is any error of the database driver.
pub data Err : Type 0 where
  not_found negative_amount invalid_day invalid_status invalid_enum missing_field : Err
  invalid_date invalid_amount status_transition access_denied database : Err
