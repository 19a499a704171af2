-- ===== src/Investment/Service/Records/Runs.antt =====
-- Transactions on holdings in turn.
use aureum.Prelude.{
  ℕ, String, ◌≡◌, ◌≢◌, inl, inr, refl, sym, ap, subst, ◌∙◌, Bool, false, Option, none, some, List,
  [], ◌∷◌, str_eq, arith, eq_iff, ok, Bool-cases, Option-cases,
}
use aureum.Prelude.Dict.{lookup}
use aureum.Prelude.Int.{ℤ}
use aureum.Endpoint.{find_row, update_row, get}
use aureum.Endpoint.Stores.{Faults, read}
use aureum.Endpoint.Rows.{
  HasUniqueIds, HasUniqueIds-update_row, find_row-ids, find_row_unique, find_row-update_row_ne,
  find_row-update_row_same,
}
use aureum.Investment.Holding.{Investment}
use aureum.Investment.Service.{investment_kind, get_investment}
use aureum.Investment.Service.Stores.{InvestmentResponse}
use aureum.Investment.Service.Laws.{investment-IsTable}
use aureum.Investment.Service.Texts.{cache_key}
use aureum.Investment.Service.Records.{
  World, RecordTransactionRequest, book_rows, record_transaction,
}
use aureum.Investment.Service.Records.Ledger.{
  moved, moved_of, position, position-append, Moves, booking-Moves, Recorded,
  record_transaction-cases,
}

-- A request with the calls under it that fail, the time and the id that is drawn.
pub record Call : Type 0 where
  pub save_fails : Bool
  pub faults : Faults
  pub now : ℕ
  pub id : String
  pub req : RecordTransactionRequest

unfoldable pub record_all : List Call → World → World
record_all [] w = w
record_all (c ∷ cs) w =
    record_all cs (record_transaction c.save_fails c.faults c.now c.id c.req w).0

-- The live holding of the user has the position that the transactions give, and ids name one row.
pub record IsBooked (id u : String) (q : ℤ) (w : World) : Type 0 where
  pub x : Investment
  pub found_row : find_row investment_kind id u w.holdings.rows ≡ some x
  pub booked : x.quantity ≡ position id q w.transactions
  pub unique : HasUniqueIds investment_kind w.holdings.rows

-- Another transaction moves the position of its own holding.
position-Recorded :
    (id : String) (q : ℤ) (w w' : World) (r : Recorded w w')
    → position id q w'.transactions ≡ moved_of id r.t (position id q w.transactions)
position-Recorded id q w w' r =
    ap (position id q) r.transactions ∙ position-append id q w.transactions r.t

-- The rows of a transaction that writes no holding, and of one that does.
rows-none : (w w' : World) (r : Recorded w w') → r.b ≡ none → w'.holdings.rows ≡ w.holdings.rows
unfolding book_rows
rows-none w w' r e = r.rows ∙ ap (λ b. book_rows b w.holdings.rows) e

rows-some :
    (w w' : World) (r : Recorded w w') {d : Investment}
    → r.b ≡ some d
    → w'.holdings.rows ≡ update_row investment_kind d w.holdings.rows
unfolding book_rows
rows-some w w' r e = r.rows ∙ ap (λ b. book_rows b w.holdings.rows) e

Moves-Recorded :
    (w w' : World) (r : Recorded w w') {b : Option Investment}
    → r.b ≡ b
    → Moves r.t.transaction_type r.t.quantity r.x b
Moves-Recorded w w' r e =
    subst (Moves r.t.transaction_type r.t.quantity r.x) e
      (booking-Moves r.t.transaction_type r.now r.t.quantity r.t.unit_price r.x r.is_booked)

-- A purchase or a sale of the holding itself.
book_own :
    (id u : String) (q : ℤ) (w w' : World) (r : Recorded w w')
    → r.t.investment_id ≡ id
    → IsBooked id u q w
    → IsBooked id u q w'
book_own id u q w w' r same h =
    let found : find_row investment_kind id r.t.user_id w.holdings.rows ≡ some r.x =
      subst (λ i. find_row investment_kind i r.t.user_id w.holdings.rows ≡ some r.x) same
        r.found_row in
    let row : r.x ≡ h.x =
      find_row_unique investment_kind id r.t.user_id u w.holdings.rows h.unique found h.found_row in
    let after : position id q w'.transactions
        ≡ moved r.t.transaction_type r.t.quantity r.x.quantity =
      ground
        (arith, position-Recorded id q w w' r, eq_iff r.t.investment_id id, same, h.booked, row) in
    elim (Option-cases r.b) [
      | inl e ↦ record {
        x = h.x;
        found_row = rw (rows-none w w' r e) h.found_row;
        booked = sym (after ∙ Moves-Recorded w w' r e ∙ ap (λ y. y.quantity) row);
        unique = rw (rows-none w w' r e) h.unique;
      }
      | inr (d, e) ↦
          let (id', moves) = Moves-Recorded w w' r e in
          let row_id : d.id ≡ id =
            id' ∙ (find_row-ids investment_kind id r.t.user_id w.holdings.rows found).0 in
          record {
            x = investment_kind.set_columns d h.x;
            found_row = rw (rows-some w w' r e) (
                find_row-update_row_same investment_kind investment-IsTable id u d w.holdings.rows
                  h.found_row row_id);
            booked = moves ∙ sym after;
            unique = rw (rows-some w w' r e) (
                HasUniqueIds-update_row investment_kind investment-IsTable d w.holdings.rows
                  h.unique);
          }
    ]

-- A purchase or a sale of another holding.
book_other :
    (id u : String) (q : ℤ) (w w' : World) (r : Recorded w w')
    → r.t.investment_id ≢ id
    → IsBooked id u q w
    → IsBooked id u q w'
book_other id u q w w' r ne h =
    let after : position id q w'.transactions ≡ position id q w.transactions =
      ground (arith, position-Recorded id q w w' r, eq_iff r.t.investment_id id, ne) in
    elim (Option-cases r.b) [
      | inl e ↦ record {
        x = h.x;
        found_row = rw (rows-none w w' r e) h.found_row;
        booked = h.booked ∙ sym after;
        unique = rw (rows-none w w' r e) h.unique;
      }
      | inr (d, e) ↦
          let (id', _) = Moves-Recorded w w' r e in
          let row_id : d.id ≡ r.t.investment_id =
            id'
            ∙ (find_row-ids investment_kind r.t.investment_id r.t.user_id w.holdings.rows
                r.found_row).0 in
          record {
            x = h.x;
            found_row = rw (rows-some w w' r e) (
                find_row-update_row_ne investment_kind investment-IsTable id u d w.holdings.rows
                  (λ f. ne (sym row_id ∙ f))
                ∙ h.found_row);
            booked = h.booked ∙ sym after;
            unique = rw (rows-some w w' r e) (
                HasUniqueIds-update_row investment_kind investment-IsTable d w.holdings.rows
                  h.unique);
          }
    ]

record_all-IsBooked :
    (id u : String) (q : ℤ) (cs : List Call) (w : World)
    → IsBooked id u q w
    → IsBooked id u q (record_all cs w)
unfolding record_all
record_all-IsBooked id u q [] w h = h
record_all-IsBooked id u q (c ∷ cs) w h =
    let w' = (record_transaction c.save_fails c.faults c.now c.id c.req w).0 in
    record_all-IsBooked id u q cs w'
      (elim ((record_transaction-cases c.save_fails c.faults c.now c.id c.req w).1) [
        | inl e ↦ subst (IsBooked id u q) (sym e) h
        | inr r ↦ elim (Bool-cases (str_eq r.t.investment_id id)) [
          | inl b ↦ book_own id u q w w' r ((eq_iff r.t.investment_id id).0 b) h
          | inr b ↦
              book_other id u q w w' r (λ e. ground (arith, eq_iff r.t.investment_id id, b, e)) h
        ]
      ])

record_all-cache :
    (cs : List Call) (w : World) → (record_all cs w).holdings.cache ≡ w.holdings.cache
unfolding record_all
record_all-cache [] w = refl
record_all-cache (c ∷ cs) w =
    record_all-cache cs (record_transaction c.save_fails c.faults c.now c.id c.req w).0
    ∙ (record_transaction-cases c.save_fails c.faults c.now c.id c.req w).0

-- After any transactions on any holdings by any users, repeated, refused or with any of their calls
-- failing, where an id names one row: the quantity of a live holding is what the purchases and sales
-- of it that are recorded, each once and in their order, make of the quantity that it had before.
pub record_all_books :
    (id u : String) (cs : List Call) (w : World) {x : Investment}
    → HasUniqueIds investment_kind w.holdings.rows
    → find_row investment_kind id u w.holdings.rows ≡ some x
    → w.transactions ≡ []
    → (y : Investment) × (find_row investment_kind id u (record_all cs w).holdings.rows ≡ some y)
      × (y.quantity ≡ position id x.quantity (record_all cs w).transactions)
unfolding position
record_all_books id u cs w {x} unique e start =
    let h =
      record_all-IsBooked id u x.quantity cs w
        record { x = x; found_row = e; booked = rw start refl; unique = unique } in
    (h.x, h.found_row, h.booked)

-- A holding that is cached is still returned as it was, after any transactions, where the read of the
-- cache does not fail: transactions clear no cached holding.
pub record_all_stale :
    (faults : Faults) (id u : String) (cs : List Call) (w : World) {r : InvestmentResponse}
    → faults.cache_get ≡ false
    → lookup (cache_key "investment" u id) w.holdings.cache ≡ some r
    → (get_investment faults id u (record_all cs w).holdings).1 ≡ ok r
unfolding get_investment get read
record_all_stale faults id u cs w {r} f e = ground (arith, f, e, record_all-cache cs w)
