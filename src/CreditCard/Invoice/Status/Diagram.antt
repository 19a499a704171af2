-- ===== src/CreditCard/Invoice/Status/Diagram.antt =====
-- The statuses that an accepted transition of an invoice joins.
use aureum.Prelude.{ℕ, ◌≡◌, refl, ap, ◌↔◌, none, arith}
use aureum.CreditCard.Invoice.{
  Invoice, InvoiceStatus, opened, closed, paid, overdue, transition_status,
}

-- The moves between the statuses, as docs/adr/004-creditcard-service.md lists them.
infix 40 ◌⟶◌
pub data ◌⟶◌ : InvoiceStatus → InvoiceStatus → Type 0 where
  close : opened ⟶ closed
  miss : opened ⟶ overdue
  expire : closed ⟶ overdue
  settle : closed ⟶ paid
  reopen : overdue ⟶ closed
  settle_late : overdue ⟶ paid

ruleset edges = (close, miss, expire, settle, reopen, settle_late)

transition_status-⟶ :
    (now : ℕ) (st : InvoiceStatus) (inv : Invoice)
    → (transition_status now st inv).1 ≡ none
    → inv.status ⟶ st
unfolding transition_status
transition_status-⟶ now st inv h = grind (arith, edges)

⟶-transition_status :
    {s t : InvoiceStatus} (now : ℕ) (inv : Invoice)
    → s ⟶ t
    → inv.status ≡ s
    → transition_status now t inv ≡ (record inv { status = t; updated_at = now }, none)
unfolding transition_status
⟶-transition_status now inv close e = ground arith
⟶-transition_status now inv miss e = ground arith
⟶-transition_status now inv expire e = ground arith
⟶-transition_status now inv settle e = ground arith
⟶-transition_status now inv reopen e = ground arith
⟶-transition_status now inv settle_late e = ground arith

-- `TransitionStatus` accepts exactly the moves from open to closed or overdue, from closed to overdue or
-- paid, and from overdue to closed or paid, whatever the amounts of the invoice are.
pub invoice_transition_iff :
    (now : ℕ) (st : InvoiceStatus) (inv : Invoice)
    → ((transition_status now st inv).1 ≡ none) ↔ (inv.status ⟶ st)
invoice_transition_iff now st inv =
    (transition_status-⟶ now st inv, λ e. ap (λ r. r.1) (⟶-transition_status now inv e refl))
