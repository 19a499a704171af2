-- ===== src/Transaction/Types/Transitions.antt =====
-- The transitions of a status.
use aureum.Prelude.{◌≡◌, ◌↔◌, ◌⊎◌, true, none, arith}
use aureum.Transaction.Types.{
  TransactionStatus, pending, completed, cancelled, valid_status, transition,
}

-- A transition is accepted exactly from pending to completed or cancelled.
transition_iff :
    (new status : TransactionStatus)
    → ((transition new status).1 ≡ none)
      ↔ ((status ≡ pending) × ((new ≡ completed) ⊎ (new ≡ cancelled)))
unfolding transition
transition_iff new status = ground arith

-- A transition keeps a valid status valid, and every status but pending as it is.
pub transition_keeps :
    (new status : TransactionStatus)
    → valid_status status ≡ true
    → (valid_status (transition new status).0 ≡ true)
      × ((status ≡ pending) ⊎ ((transition new status).0 ≡ status))
unfolding transition
transition_keeps new status h = ground arith
