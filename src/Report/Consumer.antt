-- ===== src/Report/Consumer.antt =====
-- apps/report-svc/internal/infrastructure/messaging/kafka_consumer.go: the event of a message goes to
-- its projectors.
use aureum.Prelude.{Option, none, some, ◌>>◌, Method}
use aureum.Report.Errors.{Err, malformed}
use aureum.Report.Events.{
  EventType, ReportEvent, income_created, income_updated, income_deleted, fixed_expense_created,
  fixed_expense_updated, fixed_expense_deleted, variable_expense_created, variable_expense_updated,
  variable_expense_deleted, budget_created, budget_updated, budget_deleted, investment_created,
  investment_updated, investment_deleted, portfolio_created, portfolio_updated, debt_created,
  debt_updated, debt_deleted, credit_card_created, credit_card_updated, credit_card_deleted,
}

-- `EventHandler`: the `Handle` of each projector.
pub record EventHandler (S : Type 0) : Type 0 where
  pub monthly_projector : ReportEvent → Method S Err
  pub category_projector : ReportEvent → Method S Err
  pub budget_projector : ReportEvent → Method S Err
  pub portfolio_projector : ReportEvent → Method S Err
  pub debt_projector : ReportEvent → Method S Err
  pub credit_card_projector : ReportEvent → Method S Err

module _ {S : Type 0} (h : EventHandler S) where
  -- The switch of `HandleMessage`.
  unfoldable pub project : EventType → ReportEvent → Method S Err
  project income_created e = h.monthly_projector e >> h.category_projector e
  project income_deleted e = h.monthly_projector e >> h.category_projector e
  project fixed_expense_created e = h.monthly_projector e >> h.category_projector e
  project fixed_expense_deleted e = h.monthly_projector e >> h.category_projector e
  project variable_expense_created e = h.monthly_projector e >> h.category_projector e
  project variable_expense_deleted e = h.monthly_projector e >> h.category_projector e
  project income_updated e = h.monthly_projector e
  project fixed_expense_updated e = h.monthly_projector e
  project variable_expense_updated e = h.monthly_projector e
  project budget_created e = h.budget_projector e
  project budget_updated e = h.budget_projector e
  project budget_deleted e = h.budget_projector e
  project investment_created e = h.portfolio_projector e
  project investment_updated e = h.portfolio_projector e
  project investment_deleted e = h.portfolio_projector e
  project portfolio_created e = h.portfolio_projector e
  project portfolio_updated e = h.portfolio_projector e
  project debt_created e = h.debt_projector e
  project debt_updated e = h.debt_projector e
  project debt_deleted e = h.debt_projector e
  project credit_card_created e = h.credit_card_projector e
  project credit_card_updated e = h.credit_card_projector e
  project credit_card_deleted e = h.credit_card_projector e
  project other e = λ s. (s, none)

  -- `HandleMessage`, with the event that `json.Unmarshal` makes of the message.
  unfoldable pub handle_message : Option ReportEvent → Method S Err
  handle_message none s = (s, some malformed)
  handle_message (some e) s = project e.event_type e s
