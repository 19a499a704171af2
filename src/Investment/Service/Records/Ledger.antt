-- ===== src/Investment/Service/Records/Ledger.antt =====
-- The quantity of a holding is what its purchases and sales make of it.
use aureum.Prelude.{
  ℕ, String, ◌≡◌, ◌⊎◌, inl, inr, refl, sym, subst, Bool, Option, none, some, List, [], ◌∷◌, ◌++◌,
  str_eq, if◌then◌else◌, arith, ok, err, Option-cases, Result-cases,
}
use aureum.Prelude.Int.{ℤ, add64, sub64}
use aureum.Endpoint.{find_row}
use aureum.Endpoint.Stores.{Faults, found, replayed}
use aureum.Investment.Holding.{Investment, update_average_price}
use aureum.Investment.Holding as Holding
use aureum.Investment.Holding.Sales.{sell-quantity}
use aureum.Investment.Holding.Purchases.{update_average_price-quantity}
use aureum.Investment.Transaction.{
  InvestmentTransaction, TransactionType, buy, sell, dividend, jcp, amortization, unlisted,
}
use aureum.Investment.Service.{investment_kind}
use aureum.Investment.Service.Records.{
  World, RecordTransactionRequest, transaction_of, booking, book_rows, write_record, record_with,
  record_past, record_transaction,
}

-- What a transaction makes of a quantity.
abbrev pub moved : TransactionType → ℤ → ℤ → ℤ
moved buy quantity q = add64 q quantity
moved sell quantity q = sub64 q quantity
moved transaction_type quantity q = q

abbrev pub moved_of : String → InvestmentTransaction → ℤ → ℤ
moved_of id t q = if str_eq t.investment_id id then moved t.transaction_type t.quantity q else q

-- The position of a holding: its quantity after the transactions, in their order.
unfoldable pub position : String → ℤ → List InvestmentTransaction → ℤ
position id q [] = q
position id q (t ∷ ts) = position id (moved_of id t q) ts

pub position-append :
    (id : String) (q : ℤ) (ts : List InvestmentTransaction) (t : InvestmentTransaction)
    → position id q (ts ++ t ∷ []) ≡ moved_of id t (position id q ts)
unfolding position
position-append id q [] t = refl
position-append id q (x ∷ ts) t = position-append id (moved_of id x q) ts t

-- A holding that is written has the quantity after the transaction, and its id.
abbrev pub Moves : TransactionType → ℤ → Investment → Option Investment → Type 0
Moves type quantity x none = moved type quantity x.quantity ≡ x.quantity
Moves type quantity x (some d) = (d.id ≡ x.id) × (d.quantity ≡ moved type quantity x.quantity)

pub booking-Moves :
    (type : TransactionType) (now : ℕ) (quantity price : ℤ) (x : Investment) {b : Option Investment}
    → booking type now quantity price x ≡ some (ok b)
    → Moves type quantity x b
unfolding booking
booking-Moves buy now quantity price x {b = none} h =
    elim (Option-cases (update_average_price now quantity price x)) [
      | inl e ↦ ground arith
      | inr (x', e) ↦ ground arith
    ]
booking-Moves buy now quantity price x {b = some d} h =
    elim (Option-cases (update_average_price now quantity price x)) [
      | inl e ↦ ground arith
      | inr (x', e) ↦
          ground (arith, update_average_price-quantity now quantity price x {inv' = x'} e)
    ]
booking-Moves sell now quantity price x {b = none} h =
    elim (Option-cases (Holding.sell now quantity price x)) [
      | inl e ↦ ground arith
      | inr ((x', none), e) ↦ ground arith
      | inr ((x', some f), e) ↦ ground arith
    ]
booking-Moves sell now quantity price x {b = some d} h =
    elim (Option-cases (Holding.sell now quantity price x)) [
      | inl e ↦ ground arith
      | inr ((x', none), e) ↦ ground (arith, sell-quantity now quantity price x {inv' = x'} e)
      | inr ((x', some f), e) ↦ ground arith
    ]
booking-Moves dividend now quantity price x {b = none} h = refl
booking-Moves dividend now quantity price x {b = some d} h = ground arith
booking-Moves jcp now quantity price x {b = none} h = refl
booking-Moves jcp now quantity price x {b = some d} h = ground arith
booking-Moves amortization now quantity price x {b = none} h = refl
booking-Moves amortization now quantity price x {b = some d} h = ground arith
booking-Moves (unlisted s) now quantity price x {b = none} h = refl
booking-Moves (unlisted s) now quantity price x {b = some d} h = ground arith

-- A request writes nothing, or one transaction with the holding that it books.
pub record Recorded (w w' : World) : Type 0 where
  pub now : ℕ
  pub t : InvestmentTransaction
  pub x : Investment
  pub b : Option Investment
  pub found_row : find_row investment_kind t.investment_id t.user_id w.holdings.rows ≡ some x
  pub is_booked : booking t.transaction_type now t.quantity t.unit_price x ≡ some (ok b)
  pub rows : w'.holdings.rows ≡ book_rows b w.holdings.rows
  pub transactions : w'.transactions ≡ w.transactions ++ t ∷ []

write_record-cases :
    (save_fails : Bool) (faults : Faults) (now : ℕ) (t : InvestmentTransaction)
    (b : Option Investment) (w : World) {w' : World}
    → write_record save_fails faults now t b w ≡ ok w'
    → (w'.holdings.rows ≡ book_rows b w.holdings.rows)
      × (w'.holdings.cache ≡ w.holdings.cache)
      × (w'.transactions ≡ w.transactions ++ t ∷ [])
unfolding write_record
write_record-cases save_fails faults now t b w h = ground (arith, h)

record_with-cases :
    (save_fails : Bool) (faults : Faults) (now : ℕ) (t : InvestmentTransaction) (w : World)
    {w' : World}
    → record_with save_fails faults now t w ≡ some (ok w')
    → (w'.holdings.cache ≡ w.holdings.cache) × Recorded w w'
unfolding record_with found
record_with-cases save_fails faults now t w {w'} h =
    elim (Option-cases (find_row investment_kind t.investment_id t.user_id w.holdings.rows)) [
      | inl e ↦ ground (arith, h)
      | inr (x, e) ↦
          elim (Option-cases (booking t.transaction_type now t.quantity t.unit_price x)) [
            | inl f ↦ ground (arith, h)
            | inr (err e', f) ↦ ground (arith, h)
            | inr (ok b, f) ↦
                let done : write_record save_fails faults now t b w ≡ ok w' = ground (arith, h) in
                let (rows, cache, transactions) =
                  write_record-cases save_fails faults now t b w done in
                (
                  cache,
                  record {
                    now = now;
                    t = t;
                    x = x;
                    b = b;
                    found_row = e;
                    is_booked = f;
                    rows = rows;
                    transactions = transactions;
                  },
                )
          ]
    ]

record_past-cases :
    (save_fails : Bool) (faults : Faults) (now : ℕ) (id : String) (req : RecordTransactionRequest)
    (w : World)
    → let w' = (record_past save_fails faults now id req w).0 in
      (w'.holdings.cache ≡ w.holdings.cache) × ((w' ≡ w) ⊎ Recorded w w')
unfolding record_past
record_past-cases save_fails faults now id req w = elim (Result-cases (transaction_of now id req)) [
  | inr (e, h) ↦ (ground arith, inl (ground arith))
  | inl (t, h) ↦ elim (Option-cases (record_with save_fails faults now t w)) [
    | inl e ↦ (ground arith, inl (ground arith))
    | inr (err e', e) ↦ (ground arith, inl (ground arith))
    | inr (ok w', e) ↦
        let (cache, r) = record_with-cases save_fails faults now t w e in
        (
          ground (arith, cache),
          inr record {
            now = r.now;
            t = r.t;
            x = r.x;
            b = r.b;
            found_row = r.found_row;
            is_booked = r.is_booked;
            rows = ground (arith, r.rows);
            transactions = ground (arith, r.transactions);
          },
        )
  ]
]

-- A request keeps the cache, and writes nothing or one transaction with its holding.
pub record_transaction-cases :
    (save_fails : Bool) (faults : Faults) (now : ℕ) (id : String) (req : RecordTransactionRequest)
    (w : World)
    → let w' = (record_transaction save_fails faults now id req w).0 in
      (w'.holdings.cache ≡ w.holdings.cache) × ((w' ≡ w) ⊎ Recorded w w')
unfolding record_transaction
record_transaction-cases save_fails faults now id req w =
    elim (Option-cases (replayed faults req.idempotency_key w.holdings.keys)) [
      | inr (v, e) ↦ (ground arith, inl (ground arith))
      | inl e ↦
          let past : record_transaction save_fails faults now id req w
              ≡ record_past save_fails faults now id req w =
            ground arith in
          subst (λ r. (r.0.holdings.cache ≡ w.holdings.cache) × ((r.0 ≡ w) ⊎ Recorded w r.0))
            (sym past) (record_past-cases save_fails faults now id req w)
    ]
