-- ===== src/PurchaseInvoices.antt =====
-- Purchase invoices: drafts, landed costs, payments and the derived header,
-- backend-nest/src/purchase-invoices/purchase-invoices.service.ts, with assertRateProvided of
-- accounting/exchange-rate.service.ts. Posting is in PurchaseInvoices/Posting.antt.
-- The tables hold the rows of the request's tenant, a number `t`. Money is in hundredths, unit costs
-- are in ten-thousandths, percentages in thousandths of a percent, dates are numbers.
pub mod Drafts
pub mod Posting
pub mod Header
pub mod Derived
pub mod Upkeep
pub mod Arrival
mod Tests
use werehouse.Prelude.{
  ℕ, zero, suc, ◌+◌, ◌-◌, ◌*◌, Bool, true, false, not, ◌&&◌, ◌||◌, Option, none, some, List, [],
  ◌∷◌, map,
}
use werehouse.Prelude.Tests.{ltb, leb, nat_beq, if◌then◌else◌}
use werehouse.Prelude.Int.{ℤ, pos, is_pos, ◌+ℤ◌, ◌-ℤ◌, ◌*ℤ◌}
use werehouse.Prelude.Lists.{sum_by, keep}
use werehouse.Prelude.Table.{Table, nat_eq, lookup, insert, remove}
use werehouse.Result.{
  Result, ok, err, bad_request, not_found, conflict, ◌>>=◌, ◌>>◌, or_throw, throw_if, unknown_sku,
  invoice_missing, invoice_not_draft, invoice_cancelled, invoice_unposted, payment_above_balance,
  supplier_missing, supplier_invoice_recorded, rate_date_needed, rate_needed, rate_not_positive,
}
use werehouse.Stock.{product_key_eq, Store}
use werehouse.Batches.{BatchStore}
use werehouse.Batches.Receipt.{round_div}
use werehouse.Costing.{round_half_up, CostRow, AllocationMethod, by_value}
use werehouse.Ledger.{Books}
use werehouse.SalesInvoices.{
  DocumentStatus, draft, posted, partially_paid, paid, cancelled, is_draft, is_cancelled, payable,
}

-- The base currency, and the foreign one.
pub data Currency : Type 0 where
  syp usd : Currency

pub record PurchaseItem : Type 0 where
  pub id : ℕ
  pub purchase_order_item_id : Option ℕ
  pub sku : ℕ
  pub batch_number : Option ℕ
  pub production_date : Option ℕ
  pub expiry_date : Option ℕ
  pub quantity : ℕ
  pub unit_cost : ℕ
  pub discount_amount : ℕ
  pub tax_amount : ℤ
  pub allocated_landed_cost : ℤ
  pub final_unit_cost : ℤ
  pub location : ℕ

pub record LandedCost : Type 0 where
  pub amount : ℕ
  pub allocation_method : AllocationMethod

-- The payments are kept by their amounts.
pub record PurchaseInvoice : Type 0 where
  pub number : ℕ
  pub supplier_id : ℕ
  pub supplier_invoice_number : Option ℕ
  pub purchase_order_id : Option ℕ
  pub year : ℕ
  pub currency : Currency
  pub exchange_rate : ℕ
  pub exchange_rate_date : Option ℕ
  pub status : DocumentStatus
  pub items : List PurchaseItem
  pub landed_costs : Table ℕ LandedCost
  pub payments : List ℕ
  pub subtotal : ℕ
  pub discount_amount : ℕ
  pub tax_amount : ℤ
  pub landed_cost_total : ℕ
  pub total_amount : ℤ
  pub paid_amount : ℕ

pub record PurchaseOrderLine : Type 0 where
  pub purchase_order_id : ℕ
  pub quantity : ℕ
  pub received_quantity : ℕ

-- `weights` are the products' unit weights; an order is known by whether its status is 'received'.
pub record PurchaseStore : Type 0 where
  pub lots : BatchStore
  pub history : List CostRow
  pub books : Books
  pub weights : Table ℕ ℕ
  pub suppliers : Table ℕ (Unit {0})
  pub order_lines : Table ℕ PurchaseOrderLine
  pub received_orders : Table ℕ Bool
  pub invoices : Table ℕ PurchaseInvoice

pub record PurchaseLineDto : Type 0 where
  pub id : ℕ
  pub purchase_order_item_id : Option ℕ
  pub sku : ℕ
  pub batch_number : Option ℕ
  pub production_date : Option ℕ
  pub expiry_date : Option ℕ
  pub quantity : ℕ
  pub unit_cost : ℕ
  pub discount_percent : Option ℕ
  pub tax_rate : Option ℕ
  pub location : Option ℕ

pub record CreatePurchaseInvoiceDto : Type 0 where
  pub number : ℕ
  pub supplier_id : ℕ
  pub supplier_invoice_number : Option ℕ
  pub purchase_order_id : Option ℕ
  pub year : ℕ
  pub currency : Currency
  pub exchange_rate : Option ℕ
  pub exchange_rate_date : Option ℕ
  pub items : List PurchaseLineDto

abbrev pub value_of : PurchaseItem → ℕ
value_of i = i.unit_cost * i.quantity

abbrev pub or_zero : Option ℕ → ℕ
or_zero none = 0
or_zero (some n) = n

-- The helper `lineTotals`: the discount and the tax of a line, each rounded to hundredths.
unfoldable pub line_discount : PurchaseLineDto → ℕ
unfolding round_half_up
line_discount i = round_half_up (i.unit_cost * i.quantity * or_zero i.discount_percent) 10000000

unfoldable pub line_tax : PurchaseLineDto → ℤ
unfolding round_div line_discount
line_tax i =
    round_div
      (or_zero i.tax_rate *ℤ (pos (i.unit_cost * i.quantity) -ℤ pos (100 * line_discount i)))
      (pos 10000000)

-- The location 'WH-A'.
abbrev pub wh_a : ℕ
wh_a = 0

abbrev pub place_or : Option ℕ → ℕ
place_or none = wh_a
place_or (some location) = location

unfoldable pub drafted_item : PurchaseLineDto → PurchaseItem
unfolding line_discount line_tax
drafted_item i = record {
  id = i.id;
  purchase_order_item_id = i.purchase_order_item_id;
  sku = i.sku;
  batch_number = i.batch_number;
  production_date = i.production_date;
  expiry_date = i.expiry_date;
  quantity = i.quantity;
  unit_cost = i.unit_cost;
  discount_amount = line_discount i;
  tax_amount = line_tax i;
  allocated_landed_cost = pos 0;
  final_unit_cost = pos i.unit_cost;
  location = place_or i.location;
}

abbrev pub cost_amount : ℕ → LandedCost → ℕ
cost_amount id c = c.amount

abbrev pub landed_total : Table ℕ LandedCost → ℕ
landed_total costs = sum_by (λ (r : ℕ × LandedCost). r.1.amount) costs

unfoldable pub tax_total : List PurchaseItem → ℤ
tax_total [] = pos 0
tax_total (i ∷ items) = i.tax_amount +ℤ tax_total items

-- The status of a posted invoice follows its payments; any other status stays.
abbrev pub settled_status : ℕ → ℤ → DocumentStatus
settled_status paid_amount total =
    if not (is_pos (total -ℤ pos paid_amount)) && is_pos total
    then paid
    else if ltb 0 paid_amount
    then partially_paid
    else posted

abbrev pub derived_status : DocumentStatus → ℕ → ℤ → DocumentStatus
derived_status draft paid_amount total = draft
derived_status cancelled paid_amount total = cancelled
derived_status posted paid_amount total = settled_status paid_amount total
derived_status partially_paid paid_amount total = settled_status paid_amount total
derived_status paid paid_amount total = settled_status paid_amount total

-- The exact total in ten-thousandths.
unfoldable pub exact_total : ℕ → ℕ → ℤ → ℕ → ℤ
exact_total value discount tax landed =
    pos value -ℤ pos (100 * discount) +ℤ 100 *ℤ tax +ℤ pos (100 * landed)

-- The helper `recalculate`. The columns of the header have two decimal places: the subtotal and the
-- total are rounded when they are stored, the status is found from the exact total.
unfoldable pub recalculated : PurchaseInvoice → PurchaseInvoice
unfolding round_half_up exact_total round_div tax_total
recalculated v =
    let value = sum_by value_of v.items in
    let discount = sum_by (λ (i : PurchaseItem). i.discount_amount) v.items in
    let tax = tax_total v.items in
    let landed = landed_total v.landed_costs in
    let paid_now = sum_by (λ (n : ℕ). n) v.payments in
    let total = exact_total value discount tax landed in
    record v {
      subtotal = round_half_up value 100;
      discount_amount = discount;
      tax_amount = tax;
      landed_cost_total = landed;
      total_amount = round_div total (pos 100);
      paid_amount = paid_now;
      status = derived_status v.status (100 * paid_now) total;
    }
