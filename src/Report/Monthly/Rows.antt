-- ===== src/Report/Monthly/Rows.antt =====
-- The table of the summaries, with its queries as they are.
use aureum.Prelude.{Bool, ◌≡◌, refl, ap, ◌∙◌, Option, none, some, List, [], ◌∷◌, arith}
use aureum.Prelude.Int.{ℤ}
use aureum.Report.Errors.{Err}
use aureum.Report.Events.{EventType, ReportEvent, Scan}
use aureum.Report.Monthly.{
  MonthlySummary, find_row, existing, is_no_data, handle, monthly_summary_repo,
}
use aureum.Report.Consumer.{EventHandler, project, handle_message}

-- The consumer with the table of the months as its state. The other projectors have tables of their
-- own, and only their errors count here.
abbrev pub Others : Type 0
Others = ReportEvent → Option Err

pub record Call : Type 0 where
  pub find_fails : Bool
  pub upsert_fails : Bool
  pub now : ℤ × ℤ
  pub others : Others
  pub message : Option ReportEvent

abbrev pub consumer : Scan → Call → EventHandler (List MonthlySummary)
consumer scan c = record {
  monthly_projector = handle (monthly_summary_repo c.find_fails c.upsert_fails) scan c.now;
  category_projector = λ e rows. (rows, c.others e);
  budget_projector = λ e rows. (rows, c.others e);
  portfolio_projector = λ e rows. (rows, c.others e);
  debt_projector = λ e rows. (rows, c.others e);
  credit_card_projector = λ e rows. (rows, c.others e);
}

unfoldable pub consume : Scan → List Call → List MonthlySummary → List MonthlySummary
consume scan [] rows = rows
consume scan (c ∷ cs) rows = consume scan cs (handle_message (consumer scan c) c.message rows).0

handle-empty :
    (find_fails upsert_fails : Bool) (scan : Scan) (now : ℤ × ℤ) (e : ReportEvent)
    → (handle (monthly_summary_repo find_fails upsert_fails) scan now e []).0 ≡ []
unfolding handle monthly_summary_repo find_row existing is_no_data
handle-empty find_fails upsert_fails scan now e = refl

project-empty :
    (scan : Scan) (c : Call) (t : EventType) (e : ReportEvent)
    → (project (consumer scan c) t e []).0 ≡ []
unfolding project
project-empty scan c t e = ground (arith, handle-empty c.find_fails c.upsert_fails scan c.now e)

handle_message-empty :
    (scan : Scan) (c : Call) (m : Option ReportEvent)
    → (handle_message (consumer scan c) m []).0 ≡ []
unfolding handle_message
handle_message-empty scan c none = refl
handle_message-empty scan c (some e) = project-empty scan c e.event_type e

-- From an empty table no messages, whatever they are and whichever calls fail, ever put a month into it: the
-- query for the month that is not there is an error to the projector.
pub consume_stays_empty : (scan : Scan) (cs : List Call) → consume scan cs [] ≡ []
unfolding consume
consume_stays_empty scan [] = refl
consume_stays_empty scan (c ∷ cs) =
    ap (consume scan cs) (handle_message-empty scan c c.message) ∙ consume_stays_empty scan cs
