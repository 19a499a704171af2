-- ===== src/Investment/Service/Laws.antt =====
-- The laws of the table `investments` and of its requests.
use aureum.Prelude.{
  ℕ, String, ◌≡◌, refl, inl, inr, ◌∙◌, true, arith, ok, Result-cases, Option-cases,
}
use aureum.Investment.Holding.Updates.{apply_update}
use aureum.Investment.Holding.{
  Investment, CreateInvestmentInput, UpdateInvestmentInput, new_investment,
}
use aureum.Investment.Holding.Updates.Kept.{IsValid, apply_update-Keeps, new_investment-IsValid}
use aureum.Investment.Service.Stores.{same_event}
use aureum.Investment.Service.Texts.{to_domain_asset_type, to_domain_status, or_active}
use aureum.Endpoint.Keys.{has_no_colon}
use aureum.Investment.Service.{
  investment_kind, investment_of, investment_input, change_investment, CreateInvestmentRequest,
  UpdateInvestmentRequest,
}
use aureum.Endpoint.Rows.{IsTable}
use aureum.Endpoint.Steps.{IsSound}
use aureum.Endpoint.Outbox.{IsNamed}

pub investment-IsTable : IsTable investment_kind
investment-IsTable = record {
  id_set = λ d r. refl;
  owner_set = λ d r. refl;
  live_set = λ d r. refl;
  id_mark = λ now r. refl;
  owner_mark = λ now r. refl;
  dead_mark = λ now r. refl;
}

pub investment-IsNamed : IsNamed investment_kind
unfolding same_event
investment-IsNamed = record {
  created_created = refl;
  created_updated = refl;
  created_deleted = refl;
  deleted_deleted = refl;
  deleted_updated = refl;
}

-- A valid holding, of a user whose id has no colon.
abbrev pub IsProper : Investment → Type 0
IsProper x = IsValid x × (has_no_colon x.user_id ≡ true)

abbrev pub IsColonFree : CreateInvestmentRequest → Type 0
IsColonFree req = has_no_colon req.user_id ≡ true

-- What is built is what `NewInvestment` returns, with the id.
investment_of-new :
    (now : ℕ) (id : String) (req : CreateInvestmentRequest) (d : Investment)
    → investment_of now id req ≡ ok d
    → (input : CreateInvestmentInput) × (x : Investment) × (new_investment now input ≡ ok x)
      × (input.user_id ≡ req.user_id)
      × (d ≡ record x { id = id })
unfolding investment_of
investment_of-new now id req d h = elim (Result-cases (to_domain_asset_type req.asset_type)) [
  | inr (e, h0) ↦ ground arith
  | inl (asset_type, h0) ↦ elim (Result-cases (to_domain_status req.status)) [
    | inr (e, h1) ↦ ground arith
    | inl (status, h1) ↦
        let input : CreateInvestmentInput = record {
          user_id = req.user_id;
          name = req.name;
          ticker = req.ticker;
          asset_type = asset_type;
          quantity = req.quantity;
          average_price = req.average_price;
          broker = req.broker;
          status = or_active status;
        } in
        elim (Result-cases (new_investment now input)) [
          | inr (e, n) ↦ ground arith
          | inl (x, n) ↦ (input, x, n, refl, ground arith)
        ]
  ]
]

-- What is changed is what `ApplyUpdate` leaves, when it returns no error.
change_investment-applied :
    (now : ℕ) (req : UpdateInvestmentRequest) (x d : Investment)
    → change_investment now req x ≡ ok d
    → (input : UpdateInvestmentInput) × (d ≡ (apply_update now input x).0)
unfolding change_investment
change_investment-applied now req x d h = elim (Result-cases (investment_input req)) [
  | inr (e, i) ↦ ground arith
  | inl (input, i) ↦ elim (Option-cases ((apply_update now input x).1)) [
    | inl n ↦ (input, ground arith)
    | inr (e, n) ↦ ground arith
  ]
]

-- The checks read these columns.
pub IsValid-columns :
    (x y : Investment)
    → y.name ≡ x.name
    → y.ticker ≡ x.ticker
    → y.asset_type ≡ x.asset_type
    → y.quantity ≡ x.quantity
    → y.average_price ≡ x.average_price
    → y.status ≡ x.status
    → IsValid x
    → IsValid y
IsValid-columns x y e0 e1 e2 e3 e4 e5 v = record {
  name_ok = rw e0 v.name_ok;
  ticker_ok = rw e1 v.ticker_ok;
  asset_type_ok = rw e2 v.asset_type_ok;
  quantity_ok = rw e3 v.quantity_ok;
  average_price_ok = rw e4 v.average_price_ok;
  status_ok = rw e5 v.status_ok;
}

pub investment-IsSound : IsSound investment_kind IsProper IsColonFree
investment-IsSound = record {
  built = λ now id req d colon h.
      let (input, x, n, user, same) = investment_of-new now id req d h in
      let (v, user', live) = new_investment-IsValid now input n in
      (
        rw same (
          IsValid-columns x (record x { id = id }) refl refl refl refl refl refl v,
          rw (user' ∙ user) colon,
        ),
        rw same refl,
        rw (same, live) refl,
      );
  changed = λ now req x d (v, colon) h.
      let (input, same) = change_investment-applied now req x d h in
      let (v', id, user) = apply_update-Keeps x.id x.user_id now input x (v, refl, refl) in
      (rw same (v', rw user colon), rw same id);
  set = λ d r p q.
      (IsValid-columns d (investment_kind.set_columns d r) refl refl refl refl refl refl p.0, q.1);
  marked = λ now r p.
      (IsValid-columns r (investment_kind.mark now r) refl refl refl refl refl refl p.0, p.1);
}
