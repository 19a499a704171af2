-- ===== src/Report/Monthly/Decoded.antt =====
-- The amounts of events that `json.Unmarshal` has decoded.
use package.text.Mathlib.TextPositions.{eq_refl}
use aureum.Prelude.{
  String, Bool, true, false, ◌≡◌, refl, ap, subst, ◌∙◌, inl, inr, Option, none, some, List, [], ◌∷◌,
  arith, eq_iff, Option-cases, Bool-cases,
}
use aureum.Prelude.Dict.{lookup}
use aureum.Prelude.Int.{ℤ, pos, ◌+ℤ◌, ◌-ℤ◌, ◌≤ℤ◌, add64, sub64, IsInt64, wrap64_exact}
use aureum.Report.Events.{
  EventType, ReportEvent, Value, Scan, extract_amount, extract_year_month, as_int64, text, int64,
  int, other_value,
}
use aureum.Report.Consumer.{project, handle_message}
use aureum.Report.Monthly.{
  MonthlySummary, book, existing, handle, is_no_data, has_key, find_row, upsert_row,
  monthly_summary_repo,
}
use aureum.Report.Monthly.Rows.{Call, consumer, consume}
use aureum.Report.Monthly.Totals.{IsBalanced}

-- `json.Unmarshal` into an interface{} makes no int64 and no int: a number becomes a float64.
abbrev pub is_decoded : List (String × Value) → Bool
is_decoded [] = true
is_decoded ((k, text s) ∷ p) = is_decoded p
is_decoded ((k, other_value) ∷ p) = is_decoded p
is_decoded ((k, int64 n) ∷ p) = false
is_decoded ((k, int n) ∷ p) = false

lookup-decoded :
    (k : String) (p : List (String × Value)) → is_decoded p ≡ true → as_int64 (lookup k p) ≡ none
unfolding lookup
lookup-decoded k [] h = refl
lookup-decoded k ((j, text s) ∷ p) h = ground (arith, lookup-decoded k p, h)
lookup-decoded k ((j, other_value) ∷ p) h = ground (arith, lookup-decoded k p, h)
lookup-decoded k ((j, int64 n) ∷ p) h = cc
lookup-decoded k ((j, int n) ∷ p) h = cc

extract_amount-decoded : (e : ReportEvent) → is_decoded e.payload ≡ true → extract_amount e ≡ pos 0
unfolding extract_amount
extract_amount-decoded e h = ground (
  arith,
  lookup-decoded "received_amount" e.payload h,
  lookup-decoded "paid_amount" e.payload h,
  lookup-decoded "amount" e.payload h,
)

-- The event of a message, if it is one, was decoded.
abbrev pub IsDecoded : Option ReportEvent → Type 0
IsDecoded none = Unit
IsDecoded (some e) = is_decoded e.payload ≡ true

abbrev pub AllDecoded : List Call → Type 0
AllDecoded [] = Unit
AllDecoded (c ∷ cs) = IsDecoded c.message × AllDecoded cs

-- A row as the projector keeps it: two totals of int64 that are not negative, and their difference.
pub record IsValid (m : MonthlySummary) : Type 0 where
  pub income_range : IsInt64 m.total_income
  pub income_nonneg : pos 0 ≤ℤ m.total_income
  pub expenses_range : IsInt64 m.total_expenses
  pub expenses_nonneg : pos 0 ≤ℤ m.total_expenses
  pub balanced : IsBalanced m

abbrev pub AllValid : List MonthlySummary → Type 0
AllValid [] = Unit
AllValid (r ∷ rs) = IsValid r × AllValid rs

add-zero : (x : ℤ) → IsInt64 x → add64 x (pos 0) ≡ x
unfolding add64 ◌+ℤ◌
add-zero x h = wrap64_exact (x +ℤ pos 0) (ground arith) ∙ ground arith

sub-zero : (x : ℤ) → IsInt64 x → sub64 x (pos 0) ≡ x
unfolding sub64 ◌-ℤ◌
sub-zero x h = wrap64_exact (x -ℤ pos 0) (ground arith) ∙ ground arith

book-zero : (t : EventType) (m : MonthlySummary) → IsValid m → book t (pos 0) m ≡ m
unfolding book
book-zero t m v = ground (
  arith,
  add-zero m.total_income v.income_range,
  add-zero m.total_expenses v.expenses_range,
  sub-zero m.total_income v.income_range,
  sub-zero m.total_expenses v.expenses_range,
)

-- The row that a query finds, with its key.
find_row-IsValid :
    (u : String) (y m : ℤ) (rows : List MonthlySummary) {r : MonthlySummary}
    → AllValid rows
    → find_row u y m rows ≡ some r
    → IsValid r × (upsert_row r rows ≡ rows) × (r.user_id ≡ u) × (r.year ≡ y) × (r.month ≡ m)
unfolding find_row upsert_row
find_row-IsValid u y m [] v h = absurd (cc h)
find_row-IsValid u y m (x ∷ rows) {r} v h = elim (Bool-cases (has_key u y m x)) [
  | inl k ↦
      let e : x ≡ r = ground (arith, h, k) in
      let p = eq_iff x.user_id u in
      (
        subst IsValid e v.0,
        ground (arith, e, k, p.0, eq_refl x.user_id),
        ground (arith, e, k, p.0),
        ground (arith, e, k),
        ground (arith, e, k),
      )
  | inr k ↦
      let (valid, same, of_user, year, month) =
        find_row-IsValid u y m rows {r = r} v.1 (ground (arith, h, k)) in
      (valid, ground (arith, k, same, of_user, year, month), of_user, year, month)
]

handle-decoded :
    (find_fails upsert_fails : Bool) (scan : Scan) (now : ℤ × ℤ) (e : ReportEvent)
    (rows : List MonthlySummary)
    → is_decoded e.payload ≡ true
    → AllValid rows
    → (handle (monthly_summary_repo find_fails upsert_fails) scan now e rows).0 ≡ rows
unfolding handle existing monthly_summary_repo is_no_data
handle-decoded find_fails upsert_fails scan now e rows d v =
    let (y, m) = extract_year_month scan now e in
    elim (Option-cases (find_row e.user_id y m rows)) [
      | inl f ↦ ground (arith, f)
      | inr (r, f) ↦
          let (valid, same, _, _, _) = find_row-IsValid e.user_id y m rows {r = r} v f in
          ground (arith, f, same, extract_amount-decoded e d, book-zero e.event_type r valid)
    ]

project-decoded :
    (scan : Scan) (c : Call) (t : EventType) (e : ReportEvent) (rows : List MonthlySummary)
    → is_decoded e.payload ≡ true
    → AllValid rows
    → (project (consumer scan c) t e rows).0 ≡ rows
unfolding project
project-decoded scan c t e rows d v =
    ground (arith, handle-decoded c.find_fails c.upsert_fails scan c.now e rows d v)

handle_message-decoded :
    (scan : Scan) (c : Call) (m : Option ReportEvent) (rows : List MonthlySummary)
    → IsDecoded m
    → AllValid rows
    → (handle_message (consumer scan c) m rows).0 ≡ rows
unfolding handle_message
handle_message-decoded scan c none rows d v = refl
handle_message-decoded scan c (some e) rows d v = project-decoded scan c e.event_type e rows d v

-- Messages whose payloads were decoded, of any events and with any numbers in them, leave a table of
-- valid rows exactly as it was, whichever queries and upserts fail.
pub consume_decoded :
    (scan : Scan) (cs : List Call) (rows : List MonthlySummary)
    → AllDecoded cs
    → AllValid rows
    → consume scan cs rows ≡ rows
unfolding consume
consume_decoded scan [] rows d v = refl
consume_decoded scan (c ∷ cs) rows (d, ds) v =
    ap (consume scan cs) (handle_message-decoded scan c c.message rows d v)
    ∙ consume_decoded scan cs rows ds v
