-- ===== src/Debt/Service/Runs.antt =====
-- Requests in turn keep the cache in step with the rows.
use aureum.Prelude.{ℕ, String, ◌≡◌, inl, inr, sym, subst, ◌∙◌, false, some, List, [], ◌∷◌}
use aureum.Debt.Account.{Debt}
use aureum.Debt.Tables.{find_debt}
use aureum.Debt.Tables.Rows.{
  IsFresh, HasUniqueIds-update_debt, HasUniqueIds-append, find_debt-append_found,
  find_debt-update_debt_ne,
}
use aureum.Debt.Service.{
  World, Faults, RegisterPaymentRequest, get_debt, register_payment, delete_debt,
}
use aureum.Debt.Service.Changes.{
  Setup, CreateDebtRequest, UpdateDebtRequest, create_debt, update_debt_request,
}
use aureum.Debt.Service.Changes.Writes.{create_debt-cases, update_debt_request-cases}
use aureum.Debt.Service.Reads.{read_row, get_debt_refines}
use aureum.Debt.Service.Reads.Coherence.{
  InStep, Coherent-write, read_debt-InStep, pay-InStep, delete-InStep,
}

create-InStep :
    (u : Setup) (faults : Faults) (now : ℕ) (id : String) (req : CreateDebtRequest) (w : World)
    → IsFresh id w.tables.debts
    → InStep w
    → InStep (create_debt u faults now id req w).0
create-InStep u faults now id req w fresh (unique, c) =
    elim (create_debt-cases u faults now id req w) [
      | inl e ↦ subst InStep (sym e) (unique, c)
      | inr (x, same) ↦ (
        rw x.rows (
            HasUniqueIds-append w.tables.debts x.d unique
              (subst (λ i. IsFresh i w.tables.debts) (sym x.is_id) fresh)),
        λ k r h.
            let b = c k r (rw (sym same) h) in
            record {
              owner = b.owner;
              d = b.d;
              found_row =
                  rw x.rows (find_debt-append_found k b.owner w.tables.debts x.d b.found_row);
              of_row = b.of_row;
            },
      )
    ]

update-InStep :
    (u : Setup) (faults : Faults) (now : ℕ) (req : UpdateDebtRequest) (w : World)
    → faults.cache_delete ≡ false
    → InStep w
    → InStep (update_debt_request u faults now req w).0
update-InStep u faults now req w f (unique, c) =
    elim (update_debt_request-cases u faults now req w) [
      | inl e ↦ subst InStep (sym e) (unique, c)
      | inr (x, drop) ↦ (
        rw x.rows (HasUniqueIds-update_debt x.d' w.tables.debts unique),
        Coherent-write faults req.input.id w (update_debt_request u faults now req w).0 f drop
            (λ k v ne.
              rw x.rows
                (find_debt-update_debt_ne k v x.d' w.tables.debts (λ e. ne (sym x.is_id ∙ e))))
            c,
      )
    ]

-- A request to the service, with the calls under it that fail.
pub data Request : Type 0 where
  read_debt : Faults → String → String → Request
  create : Faults → ℕ → String → CreateDebtRequest → Request
  update : Faults → ℕ → UpdateDebtRequest → Request
  pay : Faults → ℕ → String → RegisterPaymentRequest → Request
  delete : Faults → ℕ → String → String → Request

unfoldable pub serve : Setup → Request → World → World
serve u (read_debt faults id user_id) w = (get_debt faults id user_id w).0
serve u (create faults now id req) w = (create_debt u faults now id req w).0
serve u (update faults now req) w = (update_debt_request u faults now req w).0
serve u (pay faults now id req) w = (register_payment faults now id req w).0
serve u (delete faults now id user_id) w = (delete_debt faults now id user_id w).0

unfoldable pub serve_all : Setup → List Request → World → World
serve_all u [] w = w
serve_all u (q ∷ qs) w = serve_all u qs (serve u q w)

-- No deletion in the cache fails, and a new debt has an id that no row has.
abbrev pub Drops : Request → World → Type 0
Drops (read_debt faults id user_id) w = Unit
Drops (create faults now id req) w = IsFresh id w.tables.debts
Drops (update faults now req) w = faults.cache_delete ≡ false
Drops (pay faults now id req) w = faults.cache_delete ≡ false
Drops (delete faults now id user_id) w = faults.cache_delete ≡ false

abbrev pub AllDrop : Setup → List Request → World → Type 0
AllDrop u [] w = Unit
AllDrop u (q ∷ qs) w = Drops q w × AllDrop u qs (serve u q w)

serve-InStep : (u : Setup) (q : Request) (w : World) → Drops q w → InStep w → InStep (serve u q w)
unfolding serve
serve-InStep u (read_debt faults id user_id) w f h = read_debt-InStep faults id user_id w h
serve-InStep u (create faults now id req) w f h = create-InStep u faults now id req w f h
serve-InStep u (update faults now req) w f h = update-InStep u faults now req w f h
serve-InStep u (pay faults now id req) w f h = pay-InStep faults now id req w f h
serve-InStep u (delete faults now id user_id) w f h = delete-InStep faults now id user_id w f h

serve_all-InStep :
    (u : Setup) (qs : List Request) (w : World)
    → AllDrop u qs w
    → InStep w
    → InStep (serve_all u qs w)
unfolding serve_all
serve_all-InStep u [] w f h = h
serve_all-InStep u (q ∷ qs) w (f, fs) h =
    serve_all-InStep u qs (serve u q w) fs (serve-InStep u q w f h)

-- After any reads, creations, updates, payments and deletions, by any users and with any of their
-- calls failing but the deletions in the cache, and with new ids for new debts, from a world whose
-- ids name one row and whose cache is in step with the rows: a user who has a debt reads what a read
-- of the rows alone returns, whichever calls of the cache fail then, if the read of the rows does not
-- fail.
pub serve_all_refines :
    (u : Setup) (qs : List Request) (faults : Faults) (id user_id : String) (w : World) {d : Debt}
    → AllDrop u qs w
    → InStep w
    → faults.find_debt ≡ false
    → find_debt id user_id (serve_all u qs w).tables.debts ≡ some d
    → (get_debt faults id user_id (serve_all u qs w)).1 ≡ read_row id user_id (serve_all u qs w)
serve_all_refines u qs faults id user_id w f h g e =
    let (unique, c) = serve_all-InStep u qs w f h in
    get_debt_refines faults id user_id (serve_all u qs w) g unique c e
