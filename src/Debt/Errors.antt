-- ===== src/Debt/Errors.antt =====
-- apps/debt-svc/internal/domain/errors.go; `database` is any error of the database driver.
pub data Err : Type 0 where
  not_found negative_amount invalid_debt_type invalid_status invalid_date missing_field : Err
  payment_exceeds_balance debt_already_paid status_transition access_denied database : Err
