-- ===== src/Budget/Plan/Status.antt =====
-- The statuses that an accepted transition of a budget joins.
use aureum.Prelude.{ℕ, ◌≡◌, refl, ◌↔◌, none, arith}
use aureum.Budget.Plan.{
  Budget, BudgetStatus, active, paused, completed, cancelled, transition_status,
}

infix 40 ◌⟶◌
pub data ◌⟶◌ : BudgetStatus → BudgetStatus → Type 0 where
  pause : active ⟶ paused
  complete : active ⟶ completed
  cancel_active : active ⟶ cancelled
  resume : paused ⟶ active
  cancel_paused : paused ⟶ cancelled

ruleset edges = (pause, complete, cancel_active, resume, cancel_paused)

transition_status-⟶ :
    (now : ℕ) (st : BudgetStatus) (b : Budget)
    → (transition_status now st b).1 ≡ none
    → b.status ⟶ st
unfolding transition_status
transition_status-⟶ now st b h = grind (arith, edges)

⟶-transition_status :
    {s t : BudgetStatus} (now : ℕ) (b : Budget)
    → s ⟶ t
    → b.status ≡ s
    → (transition_status now t b).1 ≡ none
unfolding transition_status
⟶-transition_status now b pause e = ground arith
⟶-transition_status now b complete e = ground arith
⟶-transition_status now b cancel_active e = ground arith
⟶-transition_status now b resume e = ground arith
⟶-transition_status now b cancel_paused e = ground arith

-- A transition of a budget is accepted exactly along an edge of the diagram.
pub budget_transition_iff :
    (now : ℕ) (st : BudgetStatus) (b : Budget)
    → ((transition_status now st b).1 ≡ none) ↔ (b.status ⟶ st)
budget_transition_iff now st b =
    (transition_status-⟶ now st b, λ e. ⟶-transition_status now b e refl)
