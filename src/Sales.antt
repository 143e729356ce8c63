-- ===== src/Sales.antt =====
-- Sales orders: the life of an order (draft, confirmed, delivered, cancelled), its reservations in
-- the stock ledger and its payments, backend-nest/src/sales/sales.service.ts.
-- Amounts of money are in hundredths, and the tables hold the rows of the request's tenant.
pub mod Reservation
pub mod Lifecycle
pub mod Delivery
pub mod Payments
mod Tests
use werehouse.Prelude.{
  ℕ, ◌+◌, ◌-◌, ◌*◌, Bool, true, false, not, ◌||◌, Option, none, some, List, [], ◌∷◌,
}
use werehouse.Prelude.Tests.{ltb, nat_beq, if◌then◌else◌}
use werehouse.Prelude.Int.{pos}
use werehouse.Prelude.Lists.{sum_by}
use werehouse.Prelude.Table.{Table, nat_eq, lookup, insert, remove, total}
use werehouse.Result.{
  Result, ok, err, bad_request, not_found, ◌>>=◌, ◌>>◌, or_throw, throw_if, order_missing,
  order_cancelled, order_processed, order_not_confirmed, order_not_draft, order_delivered,
  order_has_payments, payment_above_remaining, payment_missing, unknown_customer, unknown_sku,
}
use werehouse.Stock.{
  Store, StockChange, Hold, negated, product_key_eq, apply_stock_change_within,
  reserve_stock_within, release_reservation_within,
}

pub data OrderStatus : Type 0 where
  draft confirmed delivered cancelled : OrderStatus

-- A line of an order; the request's validation asks for a whole quantity of 1 or more.
pub record SalesItem : Type 0 where
  pub sku : ℕ
  pub location : ℕ
  pub quantity : ℕ
  pub unit_price : ℕ

pub record SalesOrder : Type 0 where
  pub customer_id : ℕ
  pub status : OrderStatus
  pub items : List SalesItem
  pub total_amount : ℕ
  pub paid_amount : ℕ

pub record Payment : Type 0 where
  pub sales_order_id : ℕ
  pub amount : ℕ

pub record SalesStore : Type 0 where
  pub stock : Store
  pub customers : Table ℕ (Unit {0})
  pub orders : Table ℕ SalesOrder
  pub payments : Table ℕ Payment

-- `items.reduce((sum, item) => sum + item.quantity * item.unitPrice, 0)`
unfoldable pub total_of : List SalesItem → ℕ
total_of = sum_by (λ i. i.quantity * i.unit_price)

-- Each SKU of the order names a product of the tenant: `productCount === new Set(skus).size`.
unfoldable pub skus_known : ℕ → List SalesItem → Store → Bool
skus_known tenant [] s = true
skus_known tenant (i ∷ items) s =
    elim (lookup (record { tenant = tenant; sku = i.sku }) s.products) [
      | none ↦ false
      | some p ↦ skus_known tenant items s
    ]

-- The database chooses the new order's `id`.
unfoldable pub create_sales_order : ℕ → ℕ → ℕ → List SalesItem → SalesStore → Result SalesStore
unfolding total_of skus_known
create_sales_order tenant id customer items st = do
  _ ← or_throw (lookup customer st.customers) (not_found unknown_customer)
  throw_if (not (skus_known tenant items st.stock)) (bad_request unknown_sku)
  ok (record st {
    orders =
        insert id
          (record {
            customer_id = customer;
            status = draft;
            items = items;
            total_amount = total_of items;
            paid_amount = 0;
          })
          st.orders;
  })

-- The items are replaced by those of the request, if it has any.
abbrev pub replaced : List SalesItem → List SalesItem → List SalesItem
replaced old [] = old
replaced old (i ∷ new) = i ∷ new

abbrev pub check_customer : Option ℕ → SalesStore → Result (Unit {0})
check_customer none st = ok tt
check_customer (some c) st = or_throw (lookup c st.customers) (not_found unknown_customer)

abbrev pub customer_or : Option ℕ → ℕ → ℕ
customer_or none old = old
customer_or (some c) old = c

abbrev pub is_draft : OrderStatus → Bool
is_draft draft = true
is_draft _ = false

unfoldable pub update_sales_order :
    ℕ → ℕ → Option ℕ → List SalesItem → SalesStore → Result SalesStore
unfolding total_of skus_known
update_sales_order tenant id customer items st = do
  existing ← or_throw (lookup id st.orders) (not_found order_missing)
  throw_if (not (is_draft existing.status)) (bad_request order_not_draft)
  check_customer customer st
  throw_if (not (skus_known tenant items st.stock)) (bad_request unknown_sku)
  let new_items = replaced existing.items items
  ok (record st {
    orders =
        insert id
          (record existing {
            customer_id = customer_or customer existing.customer_id;
            items = new_items;
            total_amount = total_of new_items;
          })
          st.orders;
  })

abbrev pub hold_of : ℕ → SalesItem → Hold
hold_of id i = record {
  sku = i.sku;
  location = i.location;
  quantity = some (pos i.quantity);
  reference_id = some id;
}

-- Every line is reserved inside one transaction.
unfoldable pub reserve_items : Option ℕ → ℕ → List SalesItem → Store → Result Store
reserve_items scope id [] s = ok s
reserve_items scope id (i ∷ items) s =
    reserve_stock_within scope (hold_of id i) s >>= λ r. reserve_items scope id items r.1

abbrev pub confirmable : OrderStatus → Result (Unit {0})
confirmable draft = ok tt
confirmable cancelled = err (bad_request order_cancelled)
confirmable confirmed = err (bad_request order_processed)
confirmable delivered = err (bad_request order_processed)

abbrev with_status : ℕ → OrderStatus → SalesOrder → SalesStore → SalesStore
with_status id status o st = record st {
  orders = insert id (record o { status = status }) st.orders;
}

unfoldable pub confirm_sales_order : Option ℕ → ℕ → SalesStore → Result SalesStore
confirm_sales_order scope id st = do
  existing ← or_throw (lookup id st.orders) (not_found order_missing)
  confirmable existing.status
  stock ← reserve_items scope id existing.items st.stock
  ok (with_status id confirmed existing (record st { stock = stock }))

abbrev pub deduction_of : ℕ → SalesItem → StockChange
deduction_of id i = record {
  sku = i.sku;
  location = i.location;
  change = some (negated i.quantity);
  type = none;
  reference_id = some id;
}

-- A delivered line: the quantity leaves the stock, then its reservation is released.
unfoldable pub deliver_item : Option ℕ → ℕ → SalesItem → Store → Result Store
deliver_item scope id i s = do
  applied ← apply_stock_change_within scope (deduction_of id i) s
  released ← release_reservation_within scope (hold_of id i) applied.2
  ok released.1

unfoldable pub deliver_items : Option ℕ → ℕ → List SalesItem → Store → Result Store
deliver_items scope id [] s = ok s
deliver_items scope id (i ∷ items) s =
    deliver_item scope id i s >>= λ s'. deliver_items scope id items s'

abbrev pub deliverable : OrderStatus → Result (Unit {0})
deliverable confirmed = ok tt
deliverable _ = err (bad_request order_not_confirmed)

unfoldable pub deliver_sales_order : Option ℕ → ℕ → SalesStore → Result SalesStore
deliver_sales_order scope id st = do
  existing ← or_throw (lookup id st.orders) (not_found order_missing)
  deliverable existing.status
  stock ← deliver_items scope id existing.items st.stock
  ok (with_status id delivered existing (record st { stock = stock }))

-- Cancelling releases each line in a transaction of its own: what was released before a failure
-- stays released. The stock that is left comes back in both cases.
abbrev pub unhold_of : SalesItem → Hold
unhold_of i = record {
  sku = i.sku;
  location = i.location;
  quantity = some (pos i.quantity);
  reference_id = none;
}

unfoldable pub release_items : Option ℕ → List SalesItem → Store → Result (Unit {0}) × Store
release_items scope [] s = (ok tt, s)
release_items scope (i ∷ items) s = elim (release_reservation_within scope (unhold_of i) s) [
  | ok (_, s') ↦ release_items scope items s'
  | err e ↦ (err e, s)
]

abbrev pub release_if_confirmed :
    OrderStatus → Option ℕ → List SalesItem → Store → Result (Unit {0}) × Store
release_if_confirmed confirmed scope items s = release_items scope items s
release_if_confirmed _ scope items s = (ok tt, s)

abbrev pub cancellable : OrderStatus → Result (Unit {0})
cancellable delivered = err (bad_request order_delivered)
cancellable cancelled = err (bad_request order_cancelled)
cancellable _ = ok tt

abbrev pub finish_cancel :
    ℕ → SalesOrder → SalesStore → Result (Unit {0}) × Store → Result (Unit {0}) × SalesStore
finish_cancel id o st (ok _, stock) =
    (ok tt, with_status id cancelled o (record st { stock = stock }))
finish_cancel id o st (err e, stock) = (err e, record st { stock = stock })

abbrev pub cancel_order :
    Option ℕ → ℕ → SalesStore → Result SalesOrder → Result (Unit {0}) × SalesStore
cancel_order scope id st (err e) = (err e, st)
cancel_order scope id st (ok o) =
    finish_cancel id o st (release_if_confirmed o.status scope o.items st.stock)

unfoldable pub cancel_sales_order : Option ℕ → ℕ → SalesStore → Result (Unit {0}) × SalesStore
cancel_sales_order scope id st = cancel_order scope id st (do
  existing ← or_throw (lookup id st.orders) (not_found order_missing)
  cancellable existing.status
  ok existing)

-- What has been paid for an order.
abbrev pub amount_for : ℕ → ℕ → Payment → ℕ
amount_for id payment_id p = if nat_beq p.sales_order_id id then p.amount else 0

unfoldable pub paid_for : ℕ → Table ℕ Payment → ℕ
paid_for id payments = total (amount_for id) payments

abbrev pub removable : OrderStatus → Result (Unit {0})
removable confirmed = err (bad_request order_processed)
removable delivered = err (bad_request order_processed)
removable _ = ok tt

unfoldable pub has_payment : ℕ → Table ℕ Payment → Bool
has_payment id [] = false
has_payment id ((_, p) ∷ rest) = nat_beq p.sales_order_id id || has_payment id rest

unfoldable pub remove_sales_order : ℕ → SalesStore → Result SalesStore
unfolding has_payment
remove_sales_order id st = do
  existing ← or_throw (lookup id st.orders) (not_found order_missing)
  removable existing.status
  throw_if (has_payment id st.payments) (bad_request order_has_payments)
  ok (record st { orders = remove id st.orders })

abbrev pub is_cancelled : OrderStatus → Bool
is_cancelled cancelled = true
is_cancelled _ = false

-- `amount > totalAmount - paidAmount`, a signed difference. The database chooses `payment_id`.
unfoldable pub create_payment : ℕ → ℕ → ℕ → SalesStore → Result SalesStore
create_payment payment_id id amount st = do
  o ← or_throw (lookup id st.orders) (not_found order_missing)
  throw_if (is_cancelled o.status) (bad_request order_cancelled)
  throw_if (ltb o.total_amount (o.paid_amount + amount)) (bad_request payment_above_remaining)
  ok (record st {
    payments = insert payment_id (record { sales_order_id = id; amount = amount }) st.payments;
    orders = insert id (record o { paid_amount = o.paid_amount + amount }) st.orders;
  })

-- `paidAmount: { decrement: amount }` of the payment's order.
unfoldable pub remove_payment : ℕ → SalesStore → Result SalesStore
remove_payment payment_id st = do
  p ← or_throw (lookup payment_id st.payments) (not_found payment_missing)
  o ← or_throw (lookup p.sales_order_id st.orders) (not_found order_missing)
  ok (record st {
    payments = remove payment_id st.payments;
    orders =
        insert p.sales_order_id (record o { paid_amount = o.paid_amount - p.amount }) st.orders;
  })
