-- ===== src/SalesInvoices/Tests.antt =====
-- One invoice of a plain and of a batch-tracked product, posted, paid and cancelled.
use werehouse.Prelude.{ℕ, ◌+◌, ◌≡◌, ◌↔◌, ◌⊎◌, refl, false, true, none, some, List, [], ◌∷◌, arith}
use werehouse.Prelude.Int.{pos, ◌≤ℤ◌, ◌+ℤ◌, ◌-ℤ◌, ◌*ℤ◌}
use werehouse.Prelude.Table.{nat_eq, lookup, insert, IsUnique}
use werehouse.Result.{ok, value_or}
use werehouse.Stock.{
  StockKey, stock_key_eq, product_key_eq, Product, weighted_average, Level, key_of,
  apply_stock_change_within,
}
use werehouse.Stock.Effects.{on_hand}
use werehouse.Batches.{Batch, batch_key_eq, BatchStore, available, allocate, consume_within}
use werehouse.Ledger.{post_within}
use werehouse.Ledger.Numbers.{AllShort}
use werehouse.SalesInvoices.{
  draft, posted, paid, cancelled, issued, InvoiceItem, SalesInvoice, DeliveryNote, InvoiceStore,
  recalculated, outstanding, assert_credit_limit, add_payment,
}
use werehouse.SalesInvoices.Posting.{Shipment, ship_items, post}
use werehouse.SalesInvoices.Cancelling.{shipped_items, cancel}
use werehouse.SalesInvoices.Shipped.{sold, noted}
use werehouse.SalesInvoices.Posted.{post_iff, post_effect}
use werehouse.SalesInvoices.Reversed.{cancel-post}
use werehouse.SalesInvoices.Settling.{amounts_fit, AllSound, pays, Step-AllSound}
use werehouse.SalesInvoices.Credit.{owed, post-within_limit, add_payment-settles}

abbrev plain : Product
plain = record {
  cost_price = 20000;
  costing_method = weighted_average;
  batch_tracked = false;
  shelf_life_days = none;
}

abbrev lot : Batch
lot = record {
  sku = 6;
  batch_number = some 1;
  production_date = none;
  expiry_date = some 90;
  status = available;
  initial_quantity = pos 10;
  quantity = pos 10;
  reserved = pos 0;
  unit_cost = pos 15000;
  created_at = 1;
}

abbrev free : ℕ → Level
free n = record { quantity = n; reserved = 0; available = n }

abbrev shelves : BatchStore
shelves = record {
  stock = record {
    products =
        (record { tenant = 1; sku = 5 }, plain)
        ∷ (record { tenant = 1; sku = 6 }, record plain { batch_tracked = true })
        ∷ [];
    levels = (key_of 1 5 2, free 8) ∷ (key_of 1 6 2, free 10) ∷ [];
    movements = [];
  };
  batches = (1, lot) ∷ [];
  levels = (record { batch_id = 1; location = 2 }, free 10) ∷ [];
}

abbrev sells : ℕ → ℕ → InvoiceItem
sells sku quantity = record {
  sku = sku;
  location = 2;
  quantity = quantity;
  unit_price = 500;
  discount_amount = 100;
  tax_amount = 50;
  batch_id = none;
  unit_cost = pos 0;
}

abbrev items : List InvoiceItem
items = sells 5 3 ∷ sells 6 4 ∷ []

abbrev invoice : SalesInvoice
invoice = record {
  customer_id = 9;
  sales_order_id = none;
  price_tier_id = none;
  year = 2026;
  status = draft;
  items = items;
  subtotal = 3500;
  discount_amount = 200;
  tax_amount = 100;
  total_amount = pos 3400;
  paid_amount = 0;
  cogs_amount = pos 0;
}

abbrev desk : InvoiceStore
desk = record {
  lots = shelves;
  books = record { account_of = λ r. some 7; entries = [] };
  credit_limits = (9, 5000) ∷ [];
  orders = [];
  payments = [];
  invoices = (3, invoice) ∷ [];
  notes = [];
}

abbrev after_post : InvoiceStore
after_post = value_or desk (post 1 40 3 desk)

post_iff_example :
    ((st' : InvoiceStore) × (post 1 40 3 desk ≡ ok st'))
    ↔ ((r : Shipment) × (ship_items 1 3 shelves items shelves ≡ ok r))
unfolding lookup assert_credit_limit outstanding ◌+ℤ◌ ◌-ℤ◌
post_iff_example = post_iff 1 40 3 desk refl refl refl refl tt

posts_well : post 1 40 3 desk ≡ ok after_post
unfolding post lookup ◌-ℤ◌ ◌+ℤ◌ apply_stock_change_within allocate consume_within insert post_within
    ◌*ℤ◌
posts_well = refl

lot_rows_IsUnique : IsUnique shelves.levels
unfolding lookup
lot_rows_IsUnique = (refl, tt)

found_invoice : lookup 3 desk.invoices ≡ some invoice
unfolding lookup
found_invoice = refl

post_effect_example :
    (invoice.status ≡ draft)
    × ((w : SalesInvoice) × (lookup 3 after_post.invoices ≡ some w) × (w.status ≡ posted))
    × ((j : StockKey)
        → on_hand (lookup j after_post.lots.stock.levels) + sold 1 j items
          ≡ on_hand (lookup j shelves.stock.levels))
    × ((n : DeliveryNote) × (lookup 40 after_post.notes ≡ some n)
        × (n.sales_invoice_id ≡ 3)
        × (n.status ≡ issued)
        × ((j : StockKey) → noted 1 j n.items ≡ sold 1 j items))
post_effect_example =
    post_effect 1 40 3 desk lot_rows_IsUnique found_invoice (omega arith, (omega arith, tt))
      posts_well

numbers_short : AllShort after_post.books.entries
unfolding post lookup ◌-ℤ◌ ◌+ℤ◌ apply_stock_change_within allocate consume_within insert post_within
    ◌*ℤ◌
numbers_short = tt

cancel-post_example :
    (st'' : InvoiceStore) × (cancel 1 2026 3 after_post ≡ ok st'')
    × ((j : StockKey)
        → on_hand (lookup j st''.lots.stock.levels) ≡ on_hand (lookup j shelves.stock.levels))
    × ((w : SalesInvoice) × (lookup 3 st''.invoices ≡ some w) × (w.status ≡ cancelled))
unfolding lookup shipped_items
cancel-post_example =
    cancel-post 1 40 2026 3 desk lot_rows_IsUnique found_invoice refl
      (omega arith, (omega arith, tt)) refl refl posts_well numbers_short

totals_kept : recalculated invoice ≡ invoice
unfolding recalculated ◌+ℤ◌ ◌-ℤ◌
totals_kept = refl

post-within_limit_example :
    (limit : ℕ) × (lookup 9 desk.credit_limits ≡ some limit)
    × ((limit ≡ 0) ⊎ (owed 9 after_post.invoices ≤ℤ pos limit))
unfolding lookup
post-within_limit_example =
    post-within_limit 1 40 3 desk (refl, tt) found_invoice totals_kept refl posts_well

abbrev billed : InvoiceStore
billed = record desk { invoices = (3, record invoice { status = posted }) ∷ [] }

add_payment-settles_example :
    (st' : InvoiceStore) × (w : SalesInvoice) × (add_payment 70 3 3400 billed ≡ ok st')
    × (lookup 3 st'.invoices ≡ some w)
    × (w.status ≡ paid)
    × (pos w.paid_amount ≡ pos 3400)
unfolding lookup
add_payment-settles_example = add_payment-settles 70 3 3400 billed refl refl refl

abbrev part_paid : InvoiceStore
part_paid = value_or billed (add_payment 70 3 1400 billed)

billed_sound : AllSound billed
unfolding recalculated ◌+ℤ◌ ◌-ℤ◌ amounts_fit
billed_sound = (record { totalled = refl; settled = refl }, tt)

pays_well : add_payment 70 3 1400 billed ≡ ok part_paid
unfolding add_payment lookup ◌+ℤ◌ ◌-ℤ◌ insert
pays_well = refl

Step-AllSound_example : AllSound part_paid
Step-AllSound_example = Step-AllSound 1 (pays 70 3 1400 (omega arith) pays_well) billed_sound
