-- ===== src/Report/Categories.antt =====
-- `CategorySummaryProjector` of apps/report-svc/internal/application/projectors.go, over
-- internal/infrastructure/persistence/category_summary_repo.go.
use aureum.Prelude.{
  String, Bool, true, false, Bytes, ◌&&◌, ◌==◌, Option, none, some, List, [], ◌∷◌, str_eq,
  if◌then◌else◌,
}
use aureum.Prelude.Int.{ℤ, pos, eqb_ℤ, ◌+ℤ◌}
use aureum.Report.Errors.{Err, database}
use aureum.Report.Events.{
  EventType, ReportEvent, Scan, extract_amount, extract_category, extract_year_month,
  income_created, income_updated, income_deleted, other_type,
}

pub record CategorySummary : Type 0 where
  pub user_id : String
  pub year : ℤ
  pub month : ℤ
  pub category_type : String
  pub category_name : Bytes
  pub total_amount : ℤ  -- int64
  pub txn_count : ℤ

-- `==` on texts.
abbrev pub bytes_eq : Bytes → Bytes → Bool
bytes_eq [] [] = true
bytes_eq [] (y ∷ ys) = false
bytes_eq (x ∷ xs) [] = false
bytes_eq (x ∷ xs) (y ∷ ys) = x == y && bytes_eq xs ys

-- `strings.HasPrefix(string(event.Type), "income")`, with the answer for a text that no constant names.
unfoldable pub is_income : (String → Bool) → EventType → Bool
is_income has_prefix income_created = true
is_income has_prefix income_updated = true
is_income has_prefix income_deleted = true
is_income has_prefix (other_type s) = has_prefix s
is_income has_prefix e = false

unfoldable pub category_summary : (String → Bool) → Scan → ℤ × ℤ → ReportEvent → CategorySummary
category_summary has_prefix scan now event =
    let (year, month) = extract_year_month scan now event in
    record {
      user_id = event.user_id;
      year = year;
      month = month;
      category_type = if is_income has_prefix event.event_type then "income" else "expense";
      category_name = extract_category event;
      total_amount = extract_amount event;
      txn_count = pos 1;
    }

abbrev pub same_category : CategorySummary → CategorySummary → Bool
same_category s r =
    str_eq r.user_id s.user_id
    && eqb_ℤ r.year s.year
    && eqb_ℤ r.month s.month
    && str_eq r.category_type s.category_type
    && bytes_eq r.category_name s.category_name

-- `ON CONFLICT ... DO UPDATE SET total_amount = EXCLUDED.total_amount, transaction_count = ...`
unfoldable pub upsert_category : CategorySummary → List CategorySummary → List CategorySummary
upsert_category s [] = s ∷ []
upsert_category s (r ∷ rs) =
    let rest = upsert_category s rs in
    if same_category s r
    then record r { total_amount = s.total_amount; txn_count = r.txn_count +ℤ s.txn_count } ∷ rs
    else r ∷ rest

-- `CategorySummaryProjector.Handle`
unfoldable pub handle_category :
    (String → Bool)
    → Scan
    → Bool
    → ℤ × ℤ
    → ReportEvent
    → List CategorySummary
    → List CategorySummary × Option Err
handle_category has_prefix scan upsert_fails now event rows =
    if upsert_fails
    then (rows, some database)
    else (upsert_category (category_summary has_prefix scan now event) rows, none)
