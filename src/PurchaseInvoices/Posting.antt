-- ===== src/PurchaseInvoices/Posting.antt =====
-- Posting a purchase invoice: landed costs are allocated, products are revalued, the goods arrive in
-- batches or as plain stock, the purchase order catches up and the ledger gets its entry.
use werehouse.Prelude.{
  ℕ, ◌+◌, ◌*◌, Bool, true, false, not, ◌&&◌, Option, none, some, List, [], ◌∷◌, map,
}
use werehouse.Prelude.Tests.{leb, nat_beq, if◌then◌else◌}
use werehouse.Prelude.Int.{ℤ, pos, pos_part, ◌+ℤ◌, ◌-ℤ◌, ◌*ℤ◌}
use werehouse.Prelude.Table.{Table, nat_eq, lookup, insert}
use werehouse.Result.{
  Result, ok, bad_request, not_found, conflict, ◌>>=◌, ◌>>◌, or_throw, throw_if, invoice_missing,
  invoice_not_draft, invoice_empty,
}
use werehouse.Stock.{Product, product_key_eq, StockChange, apply_stock_change_within}
use werehouse.Batches.{BatchStore}
use werehouse.Batches.Receipt.{round_div, ReceiveIntoBatchInput, receive_into_batch_within}
use werehouse.Costing.{CostLine, apply_inbound_cost, allocate}
use werehouse.Ledger.{LedgerLine, purchase_invoice, post_within, purchase_invoice_lines, is_empty}
use werehouse.SalesInvoices.{posted, is_draft}
use werehouse.PurchaseInvoices.{
  PurchaseItem, LandedCost, PurchaseInvoice, PurchaseOrderLine, PurchaseStore, or_zero,
  recalculated,
}

abbrev pub cost_line : Table ℕ ℕ → PurchaseItem → CostLine
cost_line weights i = record {
  id = i.id;
  value = i.unit_cost * i.quantity;
  quantity = i.quantity;
  weight_kg = or_zero (lookup i.sku weights) * i.quantity;
}

abbrev pub share_or_zero : Option ℤ → ℤ
share_or_zero none = pos 0
share_or_zero (some s) = s

-- `totals.set(lineId, (totals.get(lineId) ?? ZERO).plus(share))`, for the shares of one cost.
unfoldable pub add_shares : Table ℕ ℤ → Table ℕ ℤ → Table ℕ ℤ
add_shares [] totals = totals
add_shares ((id, share) ∷ shares) totals =
    add_shares shares (insert id (share_or_zero (lookup id totals) +ℤ share) totals)

-- The shares of every landed cost, in ten-thousandths.
unfoldable pub add_costs : Table ℕ LandedCost → List CostLine → Table ℕ ℤ → Table ℕ ℤ
unfolding add_shares
add_costs [] lines totals = totals
add_costs ((k, c) ∷ costs) lines totals =
    add_costs costs lines (add_shares (allocate c.allocation_method (100 * c.amount) lines) totals)

unfoldable pub zero_shares : List PurchaseItem → Table ℕ ℤ → Table ℕ ℤ
zero_shares [] totals = totals
zero_shares (i ∷ items) totals = zero_shares items (insert i.id (pos 0) totals)

unfoldable pub allocate_landed_costs : Table ℕ ℕ → PurchaseInvoice → Table ℕ ℤ
unfolding add_costs zero_shares
allocate_landed_costs weights v =
    add_costs v.landed_costs (map (cost_line weights) v.items) (zero_shares v.items [])

-- The unit cost with the line's share of the landed costs, rounded to ten-thousandths.
unfoldable pub final_cost : ℕ → ℕ → ℤ → ℤ
unfolding round_div
final_cost unit_cost quantity share =
    if nat_beq quantity 0
    then pos unit_cost
    else round_div (pos (unit_cost * quantity) +ℤ share) (pos quantity)

abbrev pub costed_item : Table ℕ ℤ → PurchaseItem → PurchaseItem
costed_item shares i =
    let share = share_or_zero (lookup i.id shares) in
    record i {
      allocated_landed_cost = share;
      final_unit_cost = final_cost i.unit_cost i.quantity share;
    }

abbrev pub arrival_of : ℕ → PurchaseItem → StockChange
arrival_of id i = record {
  sku = i.sku;
  location = i.location;
  change = some (pos i.quantity);
  type = none;
  reference_id = some id;
}

-- The product is revalued before the units land. A cost below zero, which only the rounding of the
-- shares of lines without a cost can make, is taken as zero here.
abbrev pub revalued : ℕ → PurchaseItem → PurchaseStore → PurchaseStore
revalued t i st =
    let costs =
      (apply_inbound_cost t i.sku (some (pos i.quantity)) (pos_part i.final_unit_cost)
        (record { stock = st.lots.stock; history = st.history })).1 in
    record st { lots = record st.lots { stock = costs.stock }; history = costs.history }

-- The texts `<invoiceNumber>-<sku>` and the batch numbers that requests name are numbers; `auto` is
-- the text made from the two.
abbrev pub receipt_of : (ℕ → ℕ → ℕ) → ℕ → PurchaseInvoice → PurchaseItem → ReceiveIntoBatchInput
receipt_of auto id v i = record {
  sku = i.sku;
  location = i.location;
  quantity = some (pos i.quantity);
  batch_number = elim i.batch_number [ none ↦ some (auto v.number i.sku) | some n ↦ some n ];
  production_date = i.production_date;
  expiry_date = i.expiry_date;
  unit_cost = some i.final_unit_cost;
  status = none;
  reference_id = some id;
}

abbrev pub goes_to_batch : Option Product → Option ℕ → Bool
goes_to_batch none none = false
goes_to_batch none (some n) = true
goes_to_batch (some p) none = p.batch_tracked
goes_to_batch (some p) (some n) = true

-- The stock and lots after one line; `new_batch` is the id of a batch that is created, `now` the time.
unfoldable pub arrive :
    (ℕ → ℕ → ℕ) → ℕ → ℕ → ℕ → ℕ → PurchaseInvoice → PurchaseItem → BatchStore → Result BatchStore
arrive auto t id new_batch now v i lots =
    if goes_to_batch (lookup (record { tenant = t; sku = i.sku }) lots.stock.products)
      i.batch_number
    then (receive_into_batch_within (some t) (receipt_of auto id v i) new_batch now lots >>= λ r.
        ok r.1)
    else (apply_stock_change_within (some t) (arrival_of id i) lots.stock >>= λ r.
        ok (record lots { stock = r.2 }))

abbrev pub order_line_received :
    Option ℕ → ℕ → Table ℕ PurchaseOrderLine → Table ℕ PurchaseOrderLine
order_line_received none quantity lines = lines
order_line_received (some id) quantity lines = elim (lookup id lines) [
  | none ↦ lines
  | some l ↦ insert id (record l { received_quantity = l.received_quantity + quantity }) lines
]

-- The loop over the lines; each is stored with its share and its cost.
unfoldable pub receive_items :
    (ℕ → ℕ → ℕ)
    → (ℕ → ℕ)
    → ℕ
    → ℕ
    → ℕ
    → PurchaseInvoice
    → List PurchaseItem
    → PurchaseStore
    → Result PurchaseStore
unfolding arrive
receive_items auto new_batch t id now v [] st = ok st
receive_items auto new_batch t id now v (i ∷ items) st = do
  let st' = revalued t i st
  lots ← arrive auto t id (new_batch i.id) now v i st'.lots
  receive_items auto new_batch t id now v items (record st' {
    lots = lots;
    order_lines = order_line_received i.purchase_order_item_id i.quantity st'.order_lines;
  })

-- `poItems.every((i) => i.receivedQuantity >= i.quantity)`
unfoldable pub all_received : ℕ → Table ℕ PurchaseOrderLine → Bool
all_received order [] = true
all_received order ((k, l) ∷ lines) =
    let rest = all_received order lines in
    if nat_beq l.purchase_order_id order && not (leb l.quantity l.received_quantity)
    then false
    else rest

abbrev pub order_received : Option ℕ → PurchaseStore → Table ℕ Bool
order_received none st = st.received_orders
order_received (some order) st = elim (lookup order st.received_orders) [
  | none ↦ st.received_orders
  | some was ↦
      if all_received order st.order_lines
      then insert order true st.received_orders
      else st.received_orders
]

-- The texts `purchase_invoice:post:<id>`, beside those of the sales invoices.
abbrev pub post_ref : ℕ → ℕ
post_ref id = 4 * id + 2

-- The lines of the stored header, in ten-thousandths.
unfoldable pub header_lines : PurchaseInvoice → List LedgerLine
unfolding purchase_invoice_lines
header_lines v =
    purchase_invoice_lines
      (100 *ℤ (pos v.subtotal -ℤ pos v.discount_amount +ℤ pos v.landed_cost_total))
      (100 *ℤ v.tax_amount) (100 *ℤ v.total_amount)

abbrev pub posted_invoice : Table ℕ ℤ → PurchaseInvoice → PurchaseInvoice
posted_invoice shares v =
    recalculated (record v { status = posted; items = map (costed_item shares) v.items })

unfoldable pub post : (ℕ → ℕ → ℕ) → (ℕ → ℕ) → ℕ → ℕ → ℕ → PurchaseStore → Result PurchaseStore
unfolding allocate_landed_costs receive_items all_received recalculated header_lines
post auto new_batch t id now st = do
  v ← or_throw (lookup id st.invoices) (not_found invoice_missing)
  throw_if (not (is_draft v.status)) (conflict invoice_not_draft)
  throw_if (is_empty v.items) (bad_request invoice_empty)
  let shares = allocate_landed_costs st.weights v
  st' ← receive_items auto new_batch t id now v (map (costed_item shares) v.items) st
  let w = posted_invoice shares v
  written ←
      post_within
        (record {
          year = v.year;
          source_type = purchase_invoice;
          source_ref = post_ref id;
          lines = header_lines w;
        })
        st'.books
  ok (record st' {
    books = written.1;
    received_orders = order_received v.purchase_order_id st';
    invoices = insert id w st'.invoices;
  })
