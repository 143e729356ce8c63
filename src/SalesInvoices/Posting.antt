-- ===== src/SalesInvoices/Posting.antt =====
-- Posting a sales invoice: the goods leave the stock, a delivery note is issued, the cost of the
-- goods is frozen and the ledger gets its entry.
use werehouse.Prelude.{ℕ, ◌+◌, ◌*◌, not, Option, none, some, List, [], ◌∷◌, ◌++◌, map}
use werehouse.Prelude.Tests.{ltb, nat_beq, if◌then◌else◌}
use werehouse.Prelude.Int.{ℤ, pos, ◌+ℤ◌, ◌*ℤ◌}
use werehouse.Prelude.Table.{Table, nat_eq, lookup, insert}
use werehouse.Result.{
  Result, ok, bad_request, not_found, conflict, ◌>>=◌, ◌>>◌, or_throw, throw_if, product_missing,
  invoice_missing, invoice_not_draft, invoice_empty, sellable_short,
}
use werehouse.Stock.{Product, product_key_eq, StockChange, negated, apply_stock_change_within}
use werehouse.Batches.{BatchAllocation, BatchStore, fefo, allocate, consume_within}
use werehouse.Batches.Receipt.{round_div}
use werehouse.Ledger.{LedgerLine, sales_invoice, post_within, sales_invoice_lines, is_empty}
use werehouse.Sales.{SalesOrder, delivered}
use werehouse.SalesInvoices.{
  InvoiceItem, SalesInvoice, posted, NoteItem, issued, InvoiceStore, is_draft, recalculated,
  assert_credit_limit,
}

-- What shipping lines leaves: the stock and its lots, the cost of the goods, the lines with their
-- cost, and the items of the delivery note.
pub record Shipment : Type 0 where
  pub lots : BatchStore
  pub cogs : ℤ
  pub items : List InvoiceItem
  pub note_items : List NoteItem

abbrev pub sale_of : ℕ → InvoiceItem → StockChange
sale_of id i = record {
  sku = i.sku;
  location = i.location;
  change = some (negated i.quantity);
  type = none;
  reference_id = some id;
}

-- `a.unitCost.mul(a.quantity)`, summed.
unfoldable pub lot_cost : List BatchAllocation → ℤ
lot_cost [] = pos 0
lot_cost (a ∷ rest) = a.quantity *ℤ a.unit_cost +ℤ lot_cost rest

abbrev pub first_batch : List BatchAllocation → Option ℕ
first_batch [] = none
first_batch (a ∷ rest) = some a.batch_id

abbrev pub note_of_allocation : BatchAllocation → NoteItem
note_of_allocation a = record {
  sku = a.sku;
  batch_id = some a.batch_id;
  quantity = a.quantity;
  location = a.location;
}

abbrev pub note_of_item : InvoiceItem → NoteItem
note_of_item i = record {
  sku = i.sku;
  batch_id = none;
  quantity = i.quantity;
  location = i.location;
}

abbrev pub cost_per_unit : ℤ → ℕ → ℤ
cost_per_unit cost quantity = if nat_beq quantity 0 then pos 0 else round_div cost (pos quantity)

-- The line of a batch-tracked product. The proposal is made outside the transaction: it reads the
-- rows as they were committed before the posting, `committed`, and not what the lines before have
-- taken.
unfoldable pub ship_tracked : ℕ → ℕ → BatchStore → InvoiceItem → BatchStore → Result Shipment
unfolding lot_cost
ship_tracked t id committed i lots = do
  plan ← allocate (some t) i.sku (some (pos i.quantity)) (some i.location) fefo committed
  throw_if (ltb 0 plan.shortfall) (conflict sellable_short)
  lots' ← consume_within (some t) (some id) plan.allocations lots
  let cost = lot_cost plan.allocations
  ok (record {
    lots = lots';
    cogs = cost;
    items =
        record i {
          batch_id = first_batch plan.allocations;
          unit_cost = cost_per_unit cost i.quantity;
        }
        ∷ [];
    note_items = map note_of_allocation plan.allocations;
  })

-- Any other line.
unfoldable pub ship_untracked : ℕ → ℕ → Product → InvoiceItem → BatchStore → Result Shipment
ship_untracked t id p i lots = do
  applied ← apply_stock_change_within (some t) (sale_of id i) lots.stock
  ok (record {
    lots = record lots { stock = applied.2 };
    cogs = i.quantity *ℤ pos p.cost_price;
    items = record i { unit_cost = pos p.cost_price } ∷ [];
    note_items = note_of_item i ∷ [];
  })

unfoldable pub ship_item : ℕ → ℕ → BatchStore → InvoiceItem → BatchStore → Result Shipment
unfolding ship_tracked ship_untracked
ship_item t id committed i lots = do
  p ←
      or_throw (lookup (record { tenant = t; sku = i.sku }) lots.stock.products)
        (not_found product_missing)
  if p.batch_tracked then ship_tracked t id committed i lots else ship_untracked t id p i lots

abbrev pub joined_shipment : Shipment → Shipment → Shipment
joined_shipment a b = record {
  lots = b.lots;
  cogs = a.cogs +ℤ b.cogs;
  items = a.items ++ b.items;
  note_items = a.note_items ++ b.note_items;
}

-- The loop over the lines.
unfoldable pub ship_items : ℕ → ℕ → BatchStore → List InvoiceItem → BatchStore → Result Shipment
unfolding ship_item
ship_items t id committed [] lots =
    ok (record { lots = lots; cogs = pos 0; items = []; note_items = [] })
ship_items t id committed (i ∷ items) lots = do
  shipped ← ship_item t id committed i lots
  rest ← ship_items t id committed items shipped.lots
  ok (joined_shipment shipped rest)

-- `salesOrder.updateMany({ data: { status: 'delivered' } })`
abbrev pub order_delivered : Option ℕ → Table ℕ SalesOrder → Table ℕ SalesOrder
order_delivered none orders = orders
order_delivered (some id) orders = elim (lookup id orders) [
  | none ↦ orders
  | some o ↦ insert id (record o { status = delivered }) orders
]

-- `cogsAmount` has two decimal places, the cost four.
abbrev pub posted_invoice : SalesInvoice → Shipment → SalesInvoice
posted_invoice v shipped = recalculated (record v {
  status = posted;
  items = shipped.items;
  cogs_amount = round_div shipped.cogs (pos 100);
})

-- The texts `sales_invoice:post:<id>` and `sales_invoice:reverse:<id>` are only compared.
abbrev pub post_ref : ℕ → ℕ
post_ref id = 4 * id

abbrev pub reverse_ref : ℕ → ℕ
reverse_ref id = 4 * id + 1

-- The amounts in ten-thousandths.
unfoldable pub invoice_lines : SalesInvoice → ℤ → List LedgerLine
unfolding sales_invoice_lines
invoice_lines v cogs =
    sales_invoice_lines (100 *ℤ v.total_amount) (100 *ℤ pos v.subtotal)
      (100 *ℤ pos v.discount_amount) (100 *ℤ pos v.tax_amount) cogs

unfoldable pub post : ℕ → ℕ → ℕ → InvoiceStore → Result InvoiceStore
unfolding assert_credit_limit ship_items recalculated invoice_lines
post t note_id id st = do
  v ← or_throw (lookup id st.invoices) (not_found invoice_missing)
  throw_if (not (is_draft v.status)) (conflict invoice_not_draft)
  throw_if (is_empty v.items) (bad_request invoice_empty)
  assert_credit_limit v.customer_id v.total_amount id st
  shipped ← ship_items t id st.lots v.items st.lots
  let v' = posted_invoice v shipped
  written ←
      post_within
        (record {
          year = v.year;
          source_type = sales_invoice;
          source_ref = post_ref id;
          lines = invoice_lines v' shipped.cogs;
        })
        st.books
  ok (record st {
    lots = shipped.lots;
    books = written.1;
    orders = order_delivered v.sales_order_id st.orders;
    invoices = insert id v' st.invoices;
    notes =
        insert note_id
          (record { sales_invoice_id = id; status = issued; items = shipped.note_items }) st.notes;
  })
