-- ===== src/Sales/Tests.antt =====
-- One order of two lines at one place, its confirmation, delivery and payments.
use werehouse.Prelude.{
  ℕ, ◌+◌, ◌-◌, ◌≤◌, ◌≡◌, ◌↔◌, refl, false, none, some, List, [], ◌∷◌, max, arith,
}
use werehouse.Prelude.Tests.{if◌then◌else◌}
use werehouse.Prelude.Table.{nat_eq, ◌==◌, lookup, insert, total}
use werehouse.Result.{ok, value_or}
use werehouse.Stock.{
  StockKey, stock_key_eq, product_key_eq, Product, weighted_average, Store, key_of,
  apply_stock_change_within, reserve_stock_within, release_reservation_within,
}
use werehouse.Stock.Effects.{on_hand, held}
use werehouse.Sales.{
  SalesItem, SalesOrder, SalesStore, draft, cancelled, confirm_sales_order, cancel_sales_order,
  reserve_items, deliver_item, deliver_items, create_payment, paid_for,
}
use werehouse.Sales.Reservation.{demand, available_at}
use werehouse.Sales.Lifecycle.{confirm_iff, cancel-confirm}
use werehouse.Sales.Delivery.{deliver_item_row}
use werehouse.Sales.Payments.{IsPaid}

abbrev goods : Product
goods = record {
  cost_price = 25000;
  costing_method = weighted_average;
  batch_tracked = false;
  shelf_life_days = none;
}

abbrev line : ℕ → SalesItem
line n = record { sku = 5; location = 2; quantity = n; unit_price = 30 }

abbrev lines : List SalesItem
lines = line 4 ∷ line 2 ∷ []

abbrev order : SalesOrder
order = record {
  customer_id = 9;
  status = draft;
  items = lines;
  total_amount = 180;
  paid_amount = 0;
}

abbrev stock_with : ℕ → ℕ → ℕ → Store
stock_with quantity reserved available = record {
  products = (record { tenant = 1; sku = 5 }, goods) ∷ [];
  levels =
      (key_of 1 5 2, record { quantity = quantity; reserved = reserved; available = available })
      ∷ [];
  movements = [];
}

abbrev drafted : SalesStore
drafted = record {
  stock = stock_with 10 1 9;
  customers = (9, tt) ∷ [];
  orders = (3, order) ∷ [];
  payments = [];
}

abbrev after_confirm : SalesStore
after_confirm = value_or drafted (confirm_sales_order (some 1) 3 drafted)

confirm_iff_example :
    ((st' : SalesStore) × (confirm_sales_order (some 1) 3 drafted ≡ ok st'))
    ↔ ((j : StockKey) → demand 1 j lines ≤ available_at (lookup j drafted.stock.levels))
unfolding lookup
confirm_iff_example = confirm_iff 1 3 drafted refl refl (omega arith, (omega arith, tt))

cancel-confirm_example :
    ((cancel_sales_order (some 1) 3 after_confirm).0 ≡ ok tt)
    × (lookup 3 (cancel_sales_order (some 1) 3 after_confirm).1.orders
        ≡ some (record order { status = cancelled }))
    × ((j : StockKey)
        → lookup j (cancel_sales_order (some 1) 3 after_confirm).1.stock.levels
          ≡ lookup j drafted.stock.levels)
unfolding confirm_sales_order reserve_items reserve_stock_within lookup insert
cancel-confirm_example = cancel-confirm 1 3 drafted refl (omega arith, (omega arith, tt)) refl

-- Six units on hand, all of them reserved, and four delivered: four are then available.
abbrev after_line : Store
after_line = value_or (stock_with 6 6 0) (deliver_item (some 1) 3 (line 4) (stock_with 6 6 0))

deliver_item_row_example :
    (lookup (key_of 1 5 2) after_line.levels
      ≡ some (record { quantity = 6 - 4; reserved = 6 - 4; available = max 0 4 }))
    × ((max 0 4 + (6 - 4) ≡ 6 - 4) ↔ (4 ≤ 0))
    × ((j : StockKey)
        → lookup j after_line.levels ≡ (
            if key_of 1 5 2 == j
            then lookup (key_of 1 5 2) after_line.levels
            else lookup j (stock_with 6 6 0).levels))
unfolding deliver_item apply_stock_change_within release_reservation_within lookup insert
deliver_item_row_example =
    deliver_item_row 1 3 (line 4) (stock_with 6 6 0) (omega arith) refl refl refl

abbrev after : Store
after = value_or (stock_with 9 7 2) (deliver_items (some 1) 3 lines (stock_with 9 7 2))

enough_at :
    (j : StockKey)
    → (demand 1 j lines ≤ on_hand (lookup j (stock_with 9 7 2).levels))
      × (demand 1 j lines ≤ held (lookup j (stock_with 9 7 2).levels))
unfolding lookup
enough_at j = ground arith

abbrev after_payment : SalesStore
after_payment = value_or drafted (create_payment 40 3 70 drafted)

drafted-IsPaid : IsPaid drafted
unfolding lookup paid_for total
drafted-IsPaid = record {
  unique = tt;
  paid = λ id o h. ground arith;
  within = λ id o h. ground arith;
}
