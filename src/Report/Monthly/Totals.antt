-- ===== src/Report/Monthly/Totals.antt =====
-- The totals of the stored months, through any messages to the consumer.
use aureum.Prelude.{
  String, Bool, ◌≡◌, refl, Option, none, some, List, [], ◌∷◌, arith, Option-cases, Bool-cases, inl,
  inr, subst,
}
use aureum.Prelude.Int.{ℤ, sub64}
use aureum.Report.Events.{
  EventType, ReportEvent, Scan, extract_amount, extract_year_month, income_created,
}
use aureum.Report.Consumer.{project, handle_message}
use aureum.Report.Monthly.{
  MonthlySummary, book, existing, handle, find_row, has_key, upsert_row, monthly_summary_repo,
}
use aureum.Report.Monthly.Rows.{Call, consumer, consume}

-- The net savings are the income less the expenses.
abbrev pub IsBalanced : MonthlySummary → Type 0
IsBalanced m = m.net_savings ≡ sub64 m.total_income m.total_expenses

abbrev pub AllBalanced : List MonthlySummary → Type 0
AllBalanced [] = Unit
AllBalanced (r ∷ rs) = IsBalanced r × AllBalanced rs

book-IsBalanced :
    (t : EventType) (amount : ℤ) (m : MonthlySummary) → IsBalanced m → IsBalanced (book t amount m)
unfolding book
book-IsBalanced income_created amount m h = refl
book-IsBalanced t amount m h = ground (arith, h)

find_row-IsBalanced :
    (u : String) (y m : ℤ) (rows : List MonthlySummary) {r : MonthlySummary}
    → AllBalanced rows
    → find_row u y m rows ≡ some r
    → IsBalanced r
unfolding find_row
find_row-IsBalanced u y m [] b h = absurd (cc h)
find_row-IsBalanced u y m (x ∷ rows) {r} b h = elim (Bool-cases (has_key u y m x)) [
  | inl k ↦ let e : x ≡ r = ground (arith, h, k) in subst IsBalanced e b.0
  | inr k ↦ find_row-IsBalanced u y m rows {r = r} b.1 (ground (arith, h, k))
]

upsert_row-AllBalanced :
    (s : MonthlySummary) (rows : List MonthlySummary)
    → IsBalanced s
    → AllBalanced rows
    → AllBalanced (upsert_row s rows)
unfolding upsert_row
upsert_row-AllBalanced s [] h b = (h, tt)
upsert_row-AllBalanced s (r ∷ rows) h b = ground (arith, upsert_row-AllBalanced s rows h b.1)

handle-AllBalanced :
    (find_fails upsert_fails : Bool) (scan : Scan) (now : ℤ × ℤ) (e : ReportEvent)
    (rows : List MonthlySummary)
    → AllBalanced rows
    → AllBalanced (handle (monthly_summary_repo find_fails upsert_fails) scan now e rows).0
unfolding handle existing monthly_summary_repo
handle-AllBalanced find_fails upsert_fails scan now e rows b =
    let (y, m) = extract_year_month scan now e in
    elim (Option-cases (find_row e.user_id y m rows)) [
      | inl f ↦ ground (arith, f)
      | inr (r, f) ↦
          let booked = book e.event_type (extract_amount e) r in
          let kept =
            upsert_row-AllBalanced booked rows
              (book-IsBalanced e.event_type (extract_amount e) r
                (find_row-IsBalanced e.user_id y m rows {r = r} b f))
              b in
          ground (arith, f, kept)
    ]

project-AllBalanced :
    (scan : Scan) (c : Call) (t : EventType) (e : ReportEvent) (rows : List MonthlySummary)
    → AllBalanced rows
    → AllBalanced (project (consumer scan c) t e rows).0
unfolding project
project-AllBalanced scan c t e rows b =
    ground (arith, handle-AllBalanced c.find_fails c.upsert_fails scan c.now e rows b)

handle_message-AllBalanced :
    (scan : Scan) (c : Call) (m : Option ReportEvent) (rows : List MonthlySummary)
    → AllBalanced rows
    → AllBalanced (handle_message (consumer scan c) m rows).0
unfolding handle_message
handle_message-AllBalanced scan c none rows b = b
handle_message-AllBalanced scan c (some e) rows b = project-AllBalanced scan c e.event_type e rows b

-- If the net savings of every row of the table are its income less its expenses, they still are after
-- any messages to the consumer, whichever queries and upserts fail.
pub consume-AllBalanced :
    (scan : Scan) (cs : List Call) (rows : List MonthlySummary)
    → AllBalanced rows
    → AllBalanced (consume scan cs rows)
unfolding consume
consume-AllBalanced scan [] rows b = b
consume-AllBalanced scan (c ∷ cs) rows b =
    consume-AllBalanced scan cs (handle_message (consumer scan c) c.message rows).0
      (handle_message-AllBalanced scan c c.message rows b)
