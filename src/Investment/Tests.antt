-- ===== src/Investment/Tests.antt =====
-- The theorems on holdings at a concrete holding.
use aureum.Prelude.{◌≡◌, none, some, arith}
use aureum.Prelude.Int.{pos}
use aureum.Investment.Holding.{Investment, stock, active, sold, sell}
use aureum.Investment.Holding.Sales
use aureum.Investment.Holding.Purchases

abbrev holding : Investment
holding = record {
  id = "h1";
  user_id = "u1";
  name = "Stock";
  ticker = "AAA3";
  asset_type = stock;
  quantity = pos 3;
  average_price = pos 33;
  total_invested = pos 100;
  status = active;
  broker = "";
  created_at = 1;
  updated_at = 1;
  deleted_at = none;
}

abbrev sold_holding : Investment
sold_holding = record holding { quantity = pos 0; total_invested = pos 0; status = sold }

holding-Holds : Sales.Holds holding 3 100
holding-Holds = ground arith

sold_holding-Holds : Sales.Holds sold_holding 0 0
sold_holding-Holds = ground arith

sell_exact_example :
    sell 2 (pos 2) (pos 50) holding
    ≡ some (record holding { quantity = pos 1; total_invested = pos 34; updated_at = 2 }, none)
sell_exact_example =
    Sales.sell_exact 2 2 3 100 (pos 50) holding holding-Holds (omega arith) (omega arith)
      (ground arith)
