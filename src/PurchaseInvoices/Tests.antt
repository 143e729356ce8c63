-- ===== src/PurchaseInvoices/Tests.antt =====
-- One purchase of a plain and of a batch-tracked product, with freight.
use werehouse.Prelude.{ℕ, ◌+◌, ◌*◌, ◌≡◌, refl, true, false, none, some, List, [], ◌∷◌}
use werehouse.Prelude.Int.{pos, ◌+ℤ◌, ◌-ℤ◌, ◌*ℤ◌}
use werehouse.Prelude.Table.{nat_eq, lookup, insert, total}
use werehouse.Prelude.Rows.{AllRows}
use werehouse.Result.{ok, value_or}
use werehouse.Stock.{
  StockKey, stock_key_eq, product_key_eq, Product, weighted_average, key_of,
  apply_stock_change_within,
}
use werehouse.Stock.Effects.{on_hand}
use werehouse.Batches.{BatchStore}
use werehouse.Batches.Receipt.{receive_into_batch_within}
use werehouse.Costing.{by_quantity, apply_inbound_cost, allocate}
use werehouse.Ledger.{post_within}
use werehouse.Ledger.Balance.{net_of}
use werehouse.SalesInvoices.{draft}
use werehouse.PurchaseInvoices.{
  syp, PurchaseItem, PurchaseInvoice, PurchaseStore, recalculated, exact_total, tax_total,
}
use werehouse.PurchaseInvoices.Posting.{final_cost, header_lines, post}
use werehouse.PurchaseInvoices.Drafts.{add_landed_cost}
use werehouse.PurchaseInvoices.Arrival.{bought, post-on_hand}
use werehouse.PurchaseInvoices.Header.{header_lines-balanced}
use werehouse.PurchaseInvoices.Derived.{IsDerived, recalculated-IsDerived}
use werehouse.PurchaseInvoices.Upkeep.{lands, Step-AllDerived}

abbrev plain : Product
plain = record {
  cost_price = 20000;
  costing_method = weighted_average;
  batch_tracked = false;
  shelf_life_days = none;
}

abbrev shelves : BatchStore
shelves = record {
  stock = record {
    products =
        (record { tenant = 1; sku = 5 }, plain)
        ∷ (record { tenant = 1; sku = 6 }, record plain { batch_tracked = true })
        ∷ [];
    levels = (key_of 1 5 2, record { quantity = 8; reserved = 0; available = 8 }) ∷ [];
    movements = [];
  };
  batches = [];
  levels = [];
}

abbrev buys : ℕ → ℕ → PurchaseItem
buys sku quantity = record {
  id = sku;
  purchase_order_item_id = none;
  sku = sku;
  batch_number = none;
  production_date = none;
  expiry_date = some 90;
  quantity = quantity;
  unit_cost = 12345;
  discount_amount = 10;
  tax_amount = pos 25;
  allocated_landed_cost = pos 0;
  final_unit_cost = pos 12345;
  location = 2;
}

abbrev items : List PurchaseItem
items = buys 5 3 ∷ buys 6 4 ∷ []

abbrev drafted : PurchaseInvoice
drafted = record {
  number = 77;
  supplier_id = 9;
  supplier_invoice_number = none;
  purchase_order_id = none;
  year = 2026;
  currency = syp;
  exchange_rate = 0;
  exchange_rate_date = none;
  status = draft;
  items = items;
  landed_costs = (1, record { amount = 700; allocation_method = by_quantity }) ∷ [];
  payments = [];
  subtotal = 864;
  discount_amount = 20;
  tax_amount = pos 50;
  landed_cost_total = 700;
  total_amount = pos 1594;
  paid_amount = 0;
}

abbrev office : PurchaseStore
office = record {
  lots = shelves;
  history = [];
  books = record { account_of = λ r. some 7; entries = [] };
  weights = [];
  suppliers = (9, tt) ∷ [];
  order_lines = [];
  received_orders = [];
  invoices = (3, drafted) ∷ [];
}

abbrev auto : ℕ → ℕ → ℕ
auto number sku = 1000 * number + sku

abbrev new_batch : ℕ → ℕ
new_batch id = id

abbrev stocked : PurchaseStore
stocked = value_or office (post auto new_batch 1 3 100 office)

posts_well : post auto new_batch 1 3 100 office ≡ ok stocked
unfolding post lookup apply_inbound_cost total final_cost ◌+ℤ◌ allocate insert
    apply_stock_change_within receive_into_batch_within post_within ◌*ℤ◌ ◌-ℤ◌
posts_well = refl

post-on_hand_example :
    (drafted.status ≡ draft)
    × ((j : StockKey)
        → on_hand (lookup j stocked.lots.stock.levels)
          ≡ on_hand (lookup j shelves.stock.levels) + bought 1 j items)
unfolding lookup
post-on_hand_example = post-on_hand auto new_batch 1 3 100 office refl posts_well

header_lines-balanced_example : net_of (header_lines (recalculated drafted)) ≡ pos 0
unfolding exact_total tax_total ◌+ℤ◌ ◌-ℤ◌ ◌*ℤ◌
header_lines-balanced_example = header_lines-balanced drafted 159415 refl

office-IsDerived : AllRows IsDerived office.invoices
unfolding recalculated ◌+ℤ◌ ◌-ℤ◌ ◌*ℤ◌
office-IsDerived = (recalculated-IsDerived drafted, tt)

abbrev with_customs : PurchaseStore
with_customs = value_or office (add_landed_cost 3 2 150 none office)

lands_well : add_landed_cost 3 2 150 none office ≡ ok with_customs
unfolding add_landed_cost lookup
lands_well = refl

Step-AllDerived_example : AllRows IsDerived with_customs.invoices
Step-AllDerived_example = Step-AllDerived 1 (lands 3 2 150 none lands_well) office-IsDerived
