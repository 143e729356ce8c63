-- ===== src/SalesInvoices.antt =====
-- Sales invoices: drafts and their totals, the credit limit and payments,
-- backend-nest/src/sales-invoices/sales-invoices.service.ts. Posting and cancelling are in
-- SalesInvoices/Posting.antt and SalesInvoices/Cancelling.antt.
-- The tables hold the rows of the request's tenant, a number `t`. Money is in hundredths, costs in
-- ten-thousandths, dates are numbers.
pub mod Drafts
pub mod Posting
pub mod Cancelling
pub mod Settling
pub mod Amounts
pub mod Credit
pub mod Shipped
pub mod Posted
pub mod Reversed
mod Tests
use werehouse.Prelude.{
  ℕ, ◌+◌, ◌*◌, Bool, true, false, not, ◌&&◌, ◌||◌, Option, none, some, List, [], ◌∷◌,
}
use werehouse.Prelude.Tests.{nat_beq, if◌then◌else◌}
use werehouse.Prelude.Int.{ℤ, pos, is_pos, ◌+ℤ◌, ◌-ℤ◌}
use werehouse.Prelude.Lists.{sum_by}
use werehouse.Prelude.Table.{Table, nat_eq, lookup, insert}
use werehouse.Result.{
  Result, ok, err, bad_request, not_found, conflict, ◌>>=◌, ◌>>◌, or_throw, throw_if,
  unknown_customer, invoice_missing, invoice_not_draft, invoice_cancelled, invoice_unposted,
  payment_above_balance, credit_limit_exceeded, note_missing, note_cancelled,
}
use werehouse.Batches.{BatchStore}
use werehouse.Ledger.{Books}
use werehouse.Sales.{SalesOrder, Payment}

pub data DocumentStatus : Type 0 where
  draft posted partially_paid paid cancelled : DocumentStatus

-- `unit_cost` is the cost of one unit, known after posting.
pub record InvoiceItem : Type 0 where
  pub sku : ℕ
  pub location : ℕ
  pub quantity : ℕ
  pub unit_price : ℕ
  pub discount_amount : ℕ
  pub tax_amount : ℕ
  pub batch_id : Option ℕ
  pub unit_cost : ℤ

pub record SalesInvoice : Type 0 where
  pub customer_id : ℕ
  pub sales_order_id : Option ℕ
  pub price_tier_id : Option ℕ
  pub year : ℕ
  pub status : DocumentStatus
  pub items : List InvoiceItem
  pub subtotal : ℕ
  pub discount_amount : ℕ
  pub tax_amount : ℕ
  pub total_amount : ℤ
  pub paid_amount : ℕ
  pub cogs_amount : ℤ

pub data NoteStatus : Type 0 where
  issued handed_over withdrawn : NoteStatus

pub record NoteItem : Type 0 where
  pub sku : ℕ
  pub batch_id : Option ℕ
  pub quantity : ℕ
  pub location : ℕ

pub record DeliveryNote : Type 0 where
  pub sales_invoice_id : ℕ
  pub status : NoteStatus
  pub items : List NoteItem

-- `credit_limits` are the customers, by their limits.
pub record InvoiceStore : Type 0 where
  pub lots : BatchStore
  pub books : Books
  pub credit_limits : Table ℕ ℕ
  pub orders : Table ℕ SalesOrder
  pub payments : Table ℕ Payment
  pub invoices : Table ℕ SalesInvoice
  pub notes : Table ℕ DeliveryNote

unfoldable pub line_value : InvoiceItem → ℕ
line_value i = i.unit_price * i.quantity

-- The helper `recalculate`.
unfoldable pub recalculated : SalesInvoice → SalesInvoice
unfolding line_value
recalculated v =
    let subtotal = sum_by line_value v.items in
    let discount = sum_by (λ (i : InvoiceItem). i.discount_amount) v.items in
    let tax = sum_by (λ (i : InvoiceItem). i.tax_amount) v.items in
    record v {
      subtotal = subtotal;
      discount_amount = discount;
      tax_amount = tax;
      total_amount = pos subtotal -ℤ pos discount +ℤ pos tax;
    }

abbrev pub is_draft : DocumentStatus → Bool
is_draft draft = true
is_draft _ = false

abbrev pub is_cancelled : DocumentStatus → Bool
is_cancelled cancelled = true
is_cancelled _ = false

-- The statuses in which an invoice is still owed.
abbrev pub is_open : DocumentStatus → Bool
is_open posted = true
is_open partially_paid = true
is_open _ = false

unfoldable pub require_draft : ℕ → InvoiceStore → Result SalesInvoice
require_draft id st = do
  v ← or_throw (lookup id st.invoices) (not_found invoice_missing)
  throw_if (not (is_draft v.status)) (conflict invoice_not_draft)
  ok v

-- What the customer's other open invoices leave to pay.
abbrev pub balance_of : SalesInvoice → ℤ
balance_of v = v.total_amount -ℤ pos v.paid_amount

abbrev pub is_owed : ℕ → ℕ → ℕ → SalesInvoice → Bool
is_owed customer excluded id v =
    nat_beq v.customer_id customer && not (nat_beq id excluded) && is_open v.status

unfoldable pub outstanding : ℕ → ℕ → Table ℕ SalesInvoice → ℤ
outstanding customer excluded [] = pos 0
outstanding customer excluded ((id, v) ∷ rest) =
    let others = outstanding customer excluded rest in
    if is_owed customer excluded id v then balance_of v +ℤ others else others

-- A limit of zero is no limit.
unfoldable pub assert_credit_limit : ℕ → ℤ → ℕ → InvoiceStore → Result (Unit {0})
unfolding outstanding
assert_credit_limit customer total excluded st = do
  limit ← or_throw (lookup customer st.credit_limits) (not_found unknown_customer)
  throw_if
      (not (nat_beq limit 0)
        && is_pos (outstanding customer excluded st.invoices +ℤ total -ℤ pos limit))
      (conflict credit_limit_exceeded)

abbrev pub payable : DocumentStatus → Result (Unit {0})
payable draft = err (conflict invoice_unposted)
payable cancelled = err (conflict invoice_cancelled)
payable _ = ok tt

abbrev pub status_after : ℕ → ℤ → DocumentStatus
status_after paid_amount total = if is_pos (total -ℤ pos paid_amount) then partially_paid else paid

-- A payment of an invoice that stems from an order is also one of the order, `payment_id`.
abbrev pub order_payment : Option ℕ → ℕ → ℕ → InvoiceStore → InvoiceStore
order_payment none payment_id amount st = st
order_payment (some order) payment_id amount st = record st {
  payments = insert payment_id (record { sales_order_id = order; amount = amount }) st.payments;
  orders = elim (lookup order st.orders) [
    | none ↦ st.orders
    | some o ↦ insert order (record o { paid_amount = o.paid_amount + amount }) st.orders
  ];
}

unfoldable pub add_payment : ℕ → ℕ → ℕ → InvoiceStore → Result InvoiceStore
add_payment payment_id id amount st = do
  v ← or_throw (lookup id st.invoices) (not_found invoice_missing)
  payable v.status
  throw_if (is_pos (pos amount -ℤ balance_of v)) (bad_request payment_above_balance)
  let paid_now = v.paid_amount + amount
  let st' = order_payment v.sales_order_id payment_id amount st
  ok (record st' {
    invoices =
        insert id
          (record v { paid_amount = paid_now; status = status_after paid_now v.total_amount })
          st'.invoices;
  })

abbrev pub is_withdrawn : NoteStatus → Bool
is_withdrawn withdrawn = true
is_withdrawn _ = false

unfoldable pub mark_delivered : ℕ → InvoiceStore → Result InvoiceStore
mark_delivered id st = do
  n ← or_throw (lookup id st.notes) (not_found note_missing)
  throw_if (is_withdrawn n.status) (conflict note_cancelled)
  ok (record st { notes = insert id (record n { status = handed_over }) st.notes })
