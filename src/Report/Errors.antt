-- ===== src/Report/Errors.antt =====
-- apps/report-svc/internal/domain/errors.go; `malformed` is an error of `json.Unmarshal`, or of
-- `parseYear`, and
-- `database` any other error, as a repository wraps it.
pub data Err : Type 0 where
  invalid_date_range missing_field no_data access_denied malformed database : Err
