-- ===== src/SalesInvoices/Drafts.antt =====
-- Drafts of sales invoices: priced by the pricing engine, with a proposed batch for each line.
use werehouse.Prelude.{ℕ, Option, none, some, List, [], ◌∷◌, map}
use werehouse.Prelude.Tests.{if◌then◌else◌}
use werehouse.Prelude.Int.{pos}
use werehouse.Prelude.Table.{nat_eq, lookup, insert, remove}
use werehouse.Result.{Result, ok, not_found, ◌>>=◌, or_throw, unknown_customer}
use werehouse.Stock.{product_key_eq}
use werehouse.Batches.{BatchStore, fefo, allocate}
use werehouse.Pricing.{PricingStore, QuoteLine, PricedLine, number_or}
use werehouse.Pricing.Engine.{quote}
use werehouse.SalesInvoices.{
  InvoiceItem, SalesInvoice, draft, InvoiceStore, recalculated, require_draft,
}
use werehouse.SalesInvoices.Posting.{first_batch}

pub record InvoiceLineDto : Type 0 where
  pub line : QuoteLine
  pub location : Option ℕ

pub record CreateSalesInvoiceDto : Type 0 where
  pub customer_id : ℕ
  pub sales_order_id : Option ℕ
  pub price_tier_id : Option ℕ
  pub year : ℕ
  pub items : List InvoiceLineDto

-- The location 'WH-A'.
abbrev pub wh_a : ℕ
wh_a = 0

abbrev pub lines_of : List InvoiceLineDto → List QuoteLine
lines_of = map (λ (i : InvoiceLineDto). i.line)

-- The batch that a line of a batch-tracked product is proposed.
unfoldable pub propose : ℕ → BatchStore → InvoiceLineDto → Result (Option ℕ)
propose t lots i = elim (lookup (record { tenant = t; sku = i.line.sku }) lots.stock.products) [
  | none ↦ ok none
  | some p ↦
      if p.batch_tracked
      then (allocate (some t) i.line.sku (some (pos i.line.quantity)) i.location fefo lots
          >>= λ plan. ok (first_batch plan.allocations))
      else ok none
]

unfoldable pub propose_all : ℕ → BatchStore → List InvoiceLineDto → Result (List (Option ℕ))
unfolding propose
propose_all t lots [] = ok []
propose_all t lots (i ∷ items) = do
  proposal ← propose t lots i
  proposals ← propose_all t lots items
  ok (proposal ∷ proposals)

abbrev pub drafted_item : InvoiceLineDto → PricedLine → Option ℕ → InvoiceItem
drafted_item i l batch = record {
  sku = i.line.sku;
  location = number_or wh_a i.location;
  quantity = i.line.quantity;
  unit_price = l.unit_price;
  discount_amount = l.discount_amount;
  tax_amount = l.tax_amount;
  batch_id = batch;
  unit_cost = pos 0;
}

abbrev pub head_or_none : List (Option ℕ) → Option ℕ
head_or_none [] = none
head_or_none (p ∷ ps) = p

abbrev pub tail_of : List (Option ℕ) → List (Option ℕ)
tail_of [] = []
tail_of (p ∷ ps) = ps

-- `dto.items.map((item, index) => …)` with `quote.lines[index]` and `proposals[index]`.
unfoldable pub drafted_items :
    List InvoiceLineDto → List PricedLine → List (Option ℕ) → List InvoiceItem
drafted_items [] lines proposals = []
drafted_items (i ∷ items) [] proposals = []
drafted_items (i ∷ items) (l ∷ lines) proposals =
    drafted_item i l (head_or_none proposals) ∷ drafted_items items lines (tail_of proposals)

abbrev pub drafted_invoice : CreateSalesInvoiceDto → Option ℕ → List InvoiceItem → SalesInvoice
drafted_invoice dto tier items = record {
  customer_id = dto.customer_id;
  sales_order_id = dto.sales_order_id;
  price_tier_id = tier;
  year = dto.year;
  status = draft;
  items = items;
  subtotal = 0;
  discount_amount = 0;
  tax_amount = 0;
  total_amount = pos 0;
  paid_amount = 0;
  cogs_amount = pos 0;
}

unfoldable pub create :
    ℕ → ℕ → ℕ → PricingStore → CreateSalesInvoiceDto → InvoiceStore → Result InvoiceStore
unfolding recalculated propose_all drafted_items
create t today id pricing dto st = do
  _ ← or_throw (lookup dto.customer_id st.credit_limits) (not_found unknown_customer)
  q ←
      quote today
        (record {
          customer_id = some dto.customer_id;
          price_tier_id = dto.price_tier_id;
          items = lines_of dto.items;
        })
        pricing
  proposals ← propose_all t st.lots dto.items
  ok (record st {
    invoices =
        insert id
          (recalculated
            (drafted_invoice dto q.price_tier (drafted_items dto.items q.lines proposals)))
          st.invoices;
  })

-- The lines of the request, if it names any, replace those of the draft; none is proposed a batch.
unfoldable pub redrafted :
    ℕ → PricingStore → Option (List InvoiceLineDto) → SalesInvoice → Result SalesInvoice
unfolding drafted_items
redrafted today pricing none v = ok v
redrafted today pricing (some items) v = do
  q ←
      quote today
        (record {
          customer_id = some v.customer_id;
          price_tier_id = v.price_tier_id;
          items = lines_of items;
        })
        pricing
  ok (record v { items = drafted_items items q.lines [] })

-- Of the invoice's date its year is kept; a request may name a new one.
abbrev pub redated : Option ℕ → SalesInvoice → SalesInvoice
redated year v = record v { year = number_or v.year year }

unfoldable pub update :
    ℕ
    → ℕ
    → PricingStore
    → Option ℕ
    → Option (List InvoiceLineDto)
    → InvoiceStore
    → Result InvoiceStore
unfolding require_draft recalculated redrafted
update today id pricing year items st = do
  v ← require_draft id st
  v' ← redrafted today pricing items (redated year v)
  ok (record st { invoices = insert id (recalculated v') st.invoices })

unfoldable pub remove_draft : ℕ → InvoiceStore → Result InvoiceStore
unfolding require_draft
remove_draft id st = do _ ← require_draft id st; ok (record st { invoices = remove id st.invoices })
