-- ===== src/Debt/Account/Status.antt =====
-- The statuses that an accepted transition of a debt joins.
use aureum.Prelude.{◌≡◌, refl, ap, ◌↔◌, none, some, arith}
use aureum.Debt.Account.{
  Debt, DebtStatus, active, paused, paid_off, defaulted, settled, transition_status,
}

infix 40 ◌⟶◌
pub data ◌⟶◌ : DebtStatus → DebtStatus → Type 0 where
  pause : active ⟶ paused
  resume : paused ⟶ active
  finish : active ⟶ paid_off
  finish_paused : paused ⟶ paid_off
  default : active ⟶ defaulted
  default_paused : paused ⟶ defaulted
  settle : active ⟶ settled
  settle_paused : paused ⟶ settled
  settle_defaulted : defaulted ⟶ settled

ruleset edges = (
  pause, resume, finish, finish_paused, default, default_paused, settle, settle_paused,
  settle_defaulted,
)

transition_status-⟶ :
    (st : DebtStatus) (d : Debt) → (transition_status st d).1 ≡ none → d.status ⟶ st
unfolding transition_status
transition_status-⟶ st d h = grind (arith, edges)

⟶-transition_status :
    {s t : DebtStatus} (d : Debt)
    → s ⟶ t
    → d.status ≡ s
    → transition_status t d ≡ (record d { status = t }, none)
unfolding transition_status
⟶-transition_status d pause e = ground arith
⟶-transition_status d resume e = ground arith
⟶-transition_status d finish e = ground arith
⟶-transition_status d finish_paused e = ground arith
⟶-transition_status d default e = ground arith
⟶-transition_status d default_paused e = ground arith
⟶-transition_status d settle e = ground arith
⟶-transition_status d settle_paused e = ground arith
⟶-transition_status d settle_defaulted e = ground arith

-- A transition of a debt is accepted exactly along an edge of the diagram.
pub debt_transition_iff :
    (st : DebtStatus) (d : Debt) → ((transition_status st d).1 ≡ none) ↔ (d.status ⟶ st)
debt_transition_iff st d =
    (transition_status-⟶ st d, λ e. ap (λ r. r.1) (⟶-transition_status d e refl))

-- A transition of a debt sets the status, or is refused and changes nothing.
debt_transition_sets :
    (st : DebtStatus) (d : Debt)
    → (transition_status st d).0
      ≡ elim (transition_status st d).1 [ none ↦ record d { status = st } | some _ ↦ d ]
unfolding transition_status
debt_transition_sets st d = ground arith
