-- ===== src/Stock/Tests.antt =====
-- The stock of one tenant: a receipt, a hold, a release and a deduction that throws.
use werehouse.Prelude.{ℕ, ◌+◌, ◌<◌, ◌≡◌, refl, false, Option, none, some, List, [], ◌∷◌, arith}
use werehouse.Prelude.Int.{ℤ, pos, negsuc}
use werehouse.Prelude.Table.{lookup, insert}
use werehouse.Result.{ok, value_or}
use werehouse.Stock.{
  stock_key_eq, product_key_eq, MovementType, Product, weighted_average, Store, Level, adjustment,
  StockChange, Hold, key_of, apply_stock_change_within, reserve_stock_within,
  release_reservation_within,
}
use werehouse.Stock.Replay.{
  Request, adjust, hold, unhold, run, serve, moved, IsReplayed, serve-IsReplayed,
}
use werehouse.Stock.Tenancy.{run_tenant}
use werehouse.Stock.Invariant.{AllBalanced, apply_oversell}

abbrev shelf : Product
shelf = record {
  cost_price = 25000;
  costing_method = weighted_average;
  batch_tracked = false;
  shelf_life_days = none;
}

-- A tenant with a product and no stock.
abbrev bare : Store
bare = record {
  products = (record { tenant = 1; sku = 5 }, shelf) ∷ [];
  levels = [];
  movements = [];
}

abbrev change_by : ℤ → StockChange
change_by c = record { sku = 5; location = 2; change = some c; type = none; reference_id = none }

abbrev hold_by : ℕ → Hold
hold_by n = record { sku = 5; location = 2; quantity = some (pos n); reference_id = none }

abbrev requests : List (Option ℕ × Request)
requests =
    (some 1, adjust (change_by (pos 10)))
    ∷ (some 1, hold (hold_by 4))
    ∷ (some 1, unhold (hold_by 1))
    ∷ (some 1, adjust (change_by (negsuc 19)))
    ∷ []

serve-IsReplayed_example : IsReplayed (serve requests bare)
unfolding moved lookup
serve-IsReplayed_example =
    serve-IsReplayed requests bare (tt, (tt, (tt, (tt, tt))))
      (record { stock = λ k. refl; holds = λ k. refl })

-- The run ends with ten units, three of them reserved.
ends :
    lookup (key_of 1 5 2) (serve requests bare).levels
    ≡ some (record { quantity = 10; reserved = 3; available = 7 })
unfolding serve run lookup insert apply_stock_change_within reserve_stock_within
    release_reservation_within
ends = refl

-- A row with three of its ten units reserved, and one that the change of a second tenant leaves.
abbrev stocked : Store
stocked = record bare {
  levels =
      (key_of 1 5 2, record { quantity = 10; reserved = 3; available = 7 })
      ∷ (key_of 4 5 2, record { quantity = 6; reserved = 0; available = 6 })
      ∷ [];
}

stocked-AllBalanced : AllBalanced stocked
unfolding lookup
stocked-AllBalanced k = ground arith

abbrev deducted : ℤ → Level × MovementType × Store
deducted c =
    value_or (record { quantity = 0; reserved = 0; available = 0 }, adjustment, stocked)
      (apply_stock_change_within (some 1) (change_by c) stocked)

run_tenant_example :
    (lookup
        (key_of 4 5 2)
        (value_or bare (run (some 1) (adjust (change_by (negsuc 6))) stocked)).levels
      ≡ lookup (key_of 4 5 2) stocked.levels)
    × ((value_or bare (run (some 1) (adjust (change_by (negsuc 6))) stocked)).products
        ≡ stocked.products)
unfolding run apply_stock_change_within lookup
run_tenant_example =
    run_tenant 1 (adjust (change_by (negsuc 6))) stocked (key_of 4 5 2) refl (λ e. omega (arith, e))

-- Eight of ten units are deducted although three are reserved.
apply_oversell_example :
    (r : Level × MovementType × Store) × (apply_stock_change_within
        (some 1)
        (change_by (negsuc 7))
        stocked
      ≡ ok r)
    × (lookup (key_of 1 5 2) r.2.levels ≡ some r.0)
    × (r.0.available ≡ 0)
    × (r.0.reserved ≡ 3)
    × (r.0.quantity + 8 ≡ 10)
    × (r.0.quantity < r.0.reserved)
unfolding lookup
apply_oversell_example =
    apply_oversell 1 7 (change_by (negsuc 7)) stocked refl refl refl refl (omega arith)
      (omega arith)
