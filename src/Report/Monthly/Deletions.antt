-- ===== src/Report/Monthly/Deletions.antt =====
-- The deletion of an income or an expense that was counted.
use aureum.Prelude.{◌≡◌, arith, ◌∙◌}
use aureum.Prelude.Int.{
  ℤ, pos, ◌+ℤ◌, ◌-ℤ◌, ◌≤ℤ◌, add64, sub64, IsInt64, add64_exact, sub64_exact, int_laws,
}
use aureum.Report.Events.{
  EventType, income_created, income_deleted, fixed_expense_created, fixed_expense_deleted,
  variable_expense_created, variable_expense_deleted,
}
use aureum.Report.Monthly.{MonthlySummary, book, lower}
use aureum.Report.Monthly.Totals.{IsBalanced}

-- What a month counts, with its events and its total.
pub data Counted : Type 0 where
  income fixed_expense variable_expense : Counted

abbrev pub created : Counted → EventType
created income = income_created
created fixed_expense = fixed_expense_created
created variable_expense = variable_expense_created

abbrev pub deleted : Counted → EventType
deleted income = income_deleted
deleted fixed_expense = fixed_expense_deleted
deleted variable_expense = variable_expense_deleted

abbrev pub total : Counted → MonthlySummary → ℤ
total income m = m.total_income
total fixed_expense m = m.total_expenses
total variable_expense m = m.total_expenses

lower-add64 : (x a : ℤ) → IsInt64 x → IsInt64 (x +ℤ a) → pos 0 ≤ℤ x → lower (add64 x a) a ≡ x
lower-add64 x a hx h p =
    let e : x +ℤ a -ℤ a ≡ x = omega int_laws in
    let s : sub64 (x +ℤ a) a ≡ x = sub64_exact (x +ℤ a) a (rw e hx) ∙ e in
    rw (add64_exact x a h, s) (ground arith)

-- Where no sum leaves the range of int64 and the total was not negative, the deletion of what was
-- just created gives back the summary of the month, of an income and of both kinds of expense.
pub book-deleted-created :
    (k : Counted) (a : ℤ) (m : MonthlySummary)
    → IsBalanced m
    → pos 0 ≤ℤ total k m
    → IsInt64 (total k m)
    → IsInt64 (total k m +ℤ a)
    → book (deleted k) a (book (created k) a m) ≡ m
unfolding book
book-deleted-created income a m b p h h' =
    rw (lower-add64 m.total_income a h h' p) (ground (arith, b))
book-deleted-created fixed_expense a m b p h h' =
    rw (lower-add64 m.total_expenses a h h' p) (ground (arith, b))
book-deleted-created variable_expense a m b p h h' =
    rw (lower-add64 m.total_expenses a h h' p) (ground (arith, b))
