-- ===== src/Purchasing.antt =====
-- Purchase orders and goods receipts, backend-nest/src/purchasing/purchasing.service.ts. The tables
-- hold the rows of the request's tenant; the price of an order line is in hundredths, and so is the
-- total of an order. The tenant is named for the stock.
pub mod Arrival
pub mod Retry
mod Tests
use werehouse.Prelude.{
  ℕ, ◌+◌, ◌*◌, Bool, true, false, not, ◌&&◌, Option, none, some, List, [], ◌∷◌, map,
}
use werehouse.Prelude.Tests.{ltb, leb, nat_beq, if◌then◌else◌}
use werehouse.Prelude.Int.{pos}
use werehouse.Prelude.Lists.{sum_by}
use werehouse.Prelude.Table.{Table, nat_eq, lookup, insert, remove}
use werehouse.Result.{
  Result, ok, err, bad_request, not_found, conflict, ◌>>=◌, ◌>>◌, or_throw, throw_if, order_missing,
  order_cancelled, order_not_draft, supplier_missing, unknown_sku, invalid_status,
  order_received_already, order_line_missing, above_remaining, receipt_of_other_order,
  order_has_receipts,
}
use werehouse.Stock.{product_key_eq, Store, StockChange, apply_stock_change_within}
use werehouse.Costing.{CostStore, apply_inbound_cost}

pub data OrderStatus : Type 0 where
  draft sent received cancelled : OrderStatus

pub record OrderItem : Type 0 where
  pub sku : ℕ
  pub quantity : ℕ
  pub received_quantity : ℕ
  pub unit_cost : ℕ

-- The lines of an order are found by their ids.
pub record PurchaseOrder : Type 0 where
  pub supplier_id : ℕ
  pub status : OrderStatus
  pub items : Table ℕ OrderItem
  pub total_amount : ℕ

-- The request's validation asks for a whole quantity of 1 or more, and for a line at least.
pub record ReceivedItem : Type 0 where
  pub purchase_order_item_id : ℕ
  pub quantity : ℕ
  pub location : ℕ

pub record GoodsReceipt : Type 0 where
  pub receipt_number : ℕ
  pub purchase_order_id : ℕ
  pub items : List ReceivedItem

pub record PurchasingStore : Type 0 where
  pub costs : CostStore
  pub suppliers : Table ℕ (Unit {0})
  pub orders : Table ℕ PurchaseOrder
  pub receipts : Table ℕ GoodsReceipt

-- `sum + item.quantity * item.unitCost`
unfoldable pub total_of : Table ℕ OrderItem → ℕ
total_of = sum_by (λ r. r.1.quantity * r.1.unit_cost)

unfoldable pub skus_known : ℕ → Table ℕ OrderItem → Store → Bool
skus_known t [] s = true
skus_known t ((k, i) ∷ items) s =
    let rest = skus_known t items s in
    elim (lookup (record { tenant = t; sku = i.sku }) s.products) [ none ↦ false | some p ↦ rest ]

-- A line of a request, with the id that the database gives it.
abbrev pub unreceived : ℕ × OrderItem → ℕ × OrderItem
unreceived r = (r.0, record r.1 { received_quantity = 0 })

unfoldable pub create_purchase_order :
    ℕ → ℕ → ℕ → Table ℕ OrderItem → PurchasingStore → Result PurchasingStore
unfolding total_of skus_known
create_purchase_order t id supplier items st = do
  _ ← or_throw (lookup supplier st.suppliers) (not_found supplier_missing)
  throw_if (not (skus_known t items st.costs.stock)) (bad_request unknown_sku)
  ok (record st {
    orders =
        insert id
          (record {
            supplier_id = supplier;
            status = draft;
            items = map unreceived items;
            total_amount = total_of items;
          })
          st.orders;
  })

-- The items are replaced by those of the request, if it has any.
abbrev pub replaced : Table ℕ OrderItem → Table ℕ OrderItem → Table ℕ OrderItem
replaced old [] = old
replaced old (i ∷ new) = map unreceived (i ∷ new)

abbrev pub is_draft : OrderStatus → Bool
is_draft draft = true
is_draft _ = false

abbrev pub is_received : OrderStatus → Bool
is_received received = true
is_received _ = false

abbrev pub is_cancelled : OrderStatus → Bool
is_cancelled cancelled = true
is_cancelled _ = false

abbrev pub check_supplier : Option ℕ → PurchasingStore → Result (Unit {0})
check_supplier none st = ok tt
check_supplier (some s) st = or_throw (lookup s st.suppliers) (not_found supplier_missing)

abbrev pub supplier_or : Option ℕ → ℕ → ℕ
supplier_or none old = old
supplier_or (some s) old = s

unfoldable pub has_receipts : ℕ → Table ℕ GoodsReceipt → Bool
has_receipts id [] = false
has_receipts id ((k, r) ∷ receipts) =
    let rest = has_receipts id receipts in if nat_beq r.purchase_order_id id then true else rest

abbrev pub replaces : Table ℕ OrderItem → Bool
replaces [] = false
replaces (i ∷ items) = true

-- A foreign key (`onDelete: Restrict`) keeps the lines that receipts name from being deleted.
unfoldable pub update_purchase_order :
    ℕ → ℕ → Option ℕ → Table ℕ OrderItem → PurchasingStore → Result PurchasingStore
unfolding total_of skus_known has_receipts
update_purchase_order t id supplier items st = do
  existing ← or_throw (lookup id st.orders) (not_found order_missing)
  throw_if (not (is_draft existing.status)) (bad_request order_not_draft)
  check_supplier supplier st
  throw_if (not (skus_known t items st.costs.stock)) (bad_request unknown_sku)
  throw_if (replaces items && has_receipts id st.receipts) (conflict order_has_receipts)
  let new_items = replaced existing.items items
  ok (record st {
    orders =
        insert id
          (record existing {
            supplier_id = supplier_or supplier existing.supplier_id;
            items = new_items;
            total_amount = total_of new_items;
          })
          st.orders;
  })

-- A text that is no status is `none`.
unfoldable pub change_status : ℕ → Option OrderStatus → PurchasingStore → Result PurchasingStore
change_status id wanted st = do
  status ← or_throw wanted (bad_request invalid_status)
  existing ← or_throw (lookup id st.orders) (not_found order_missing)
  throw_if (is_cancelled status && is_received existing.status) (bad_request order_received_already)
  ok (record st { orders = insert id (record existing { status = status }) st.orders })

pub record ReceiveGoodsDto : Type 0 where
  pub items : List ReceivedItem
  pub receipt_number : Option ℕ

pub record Adjustment : Type 0 where
  pub sku : ℕ
  pub location : ℕ
  pub change : ℕ
  pub unit_cost : ℕ

abbrev pub adjustment_of : ReceivedItem → OrderItem → Adjustment
adjustment_of i o = record {
  sku = o.sku;
  location = i.location;
  change = i.quantity;
  unit_cost = o.unit_cost;
}

-- The loop over the request's lines; what remains of a line is compared as integers.
unfoldable pub adjustments : Table ℕ OrderItem → List ReceivedItem → Result (List Adjustment)
adjustments items [] = ok []
adjustments items (i ∷ rest) = do
  o ← or_throw (lookup i.purchase_order_item_id items) (bad_request order_line_missing)
  throw_if (ltb o.quantity (o.received_quantity + i.quantity)) (bad_request above_remaining)
  others ← adjustments items rest
  ok (adjustment_of i o ∷ others)

-- `goodsReceipt.findFirst({ where: { receiptNumber } })`
unfoldable pub find_receipt : ℕ → Table ℕ GoodsReceipt → Option GoodsReceipt
find_receipt n [] = none
find_receipt n ((k, r) ∷ receipts) =
    let rest = find_receipt n receipts in if nat_beq r.receipt_number n then some r else rest

abbrev pub known_receipt : Option ℕ → Table ℕ GoodsReceipt → Option GoodsReceipt
known_receipt none receipts = none
known_receipt (some n) receipts = find_receipt n receipts

-- `receivedQuantity: { increment: incoming.quantity }` for every line.
unfoldable pub incremented : List ReceivedItem → Table ℕ OrderItem → Table ℕ OrderItem
incremented [] items = items
incremented (i ∷ rest) items = incremented rest (elim (lookup i.purchase_order_item_id items) [
  | none ↦ items
  | some o ↦
      insert i.purchase_order_item_id
        (record o { received_quantity = o.received_quantity + i.quantity }) items
])

-- The units of the request for one line of the order.
abbrev pub incoming : ℕ → List ReceivedItem → ℕ
incoming k = sum_by (λ i. if nat_beq i.purchase_order_item_id k then i.quantity else 0)

unfoldable pub all_received : List ReceivedItem → Table ℕ OrderItem → Bool
all_received received_items [] = true
all_received received_items ((k, o) ∷ items) =
    leb o.quantity (o.received_quantity + incoming k received_items)
    && all_received received_items items

abbrev pub change_of : ℕ → Adjustment → StockChange
change_of id a = record {
  sku = a.sku;
  location = a.location;
  change = some (pos a.change);
  type = none;
  reference_id = some id;
}

-- The price of a line has two decimal places, a cost four.
abbrev pub revalued : ℕ → Adjustment → CostStore → CostStore
revalued t a costs =
    if ltb 0 a.unit_cost
    then (apply_inbound_cost t a.sku (some (pos a.change)) (100 * a.unit_cost) costs).1
    else costs

unfoldable pub move_stock : ℕ → ℕ → List Adjustment → CostStore → Result CostStore
move_stock t id [] costs = ok costs
move_stock t id (a ∷ rest) costs = do
  let costs' = revalued t a costs
  applied ← apply_stock_change_within (some t) (change_of id a) costs'.stock
  move_stock t id rest (record costs' { stock = applied.2 })

abbrev pub number_or : Option ℕ → ℕ → ℕ
number_or none fresh = fresh
number_or (some n) fresh = n

-- The answer says whether the receipt was there already.
pub record Receiving : Type 0 where
  pub idempotent : Bool
  pub receipt : GoodsReceipt

abbrev pub receipt_of : ℕ → ℕ → ReceiveGoodsDto → GoodsReceipt
receipt_of id fresh dto = record {
  receipt_number = number_or dto.receipt_number fresh;
  purchase_order_id = id;
  items = dto.items;
}

abbrev pub order_after : ReceiveGoodsDto → PurchaseOrder → PurchaseOrder
order_after dto o = record o {
  items = incremented dto.items o.items;
  status = if all_received dto.items o.items then received else sent;
}

-- The transaction: the paperwork, then the stock.
unfoldable pub store_receipt :
    ℕ
    → ℕ
    → ℕ
    → ℕ
    → ReceiveGoodsDto
    → PurchaseOrder
    → List Adjustment
    → PurchasingStore
    → Result (Receiving × PurchasingStore)
store_receipt t id receipt_id fresh dto o moves st = do
  costs ← move_stock t id moves st.costs
  ok (
    record { idempotent = false; receipt = receipt_of id fresh dto },
    record st {
      costs = costs;
      orders = insert id (order_after dto o) st.orders;
      receipts = insert receipt_id (receipt_of id fresh dto) st.receipts;
    },
  )

-- `fresh` is the number made from the time and a random text, `receipt_id` the new row's id.
unfoldable pub receive_goods :
    ℕ → ℕ → ℕ → ℕ → ReceiveGoodsDto → PurchasingStore → Result (Receiving × PurchasingStore)
receive_goods t id receipt_id fresh dto st = do
  o ← or_throw (lookup id st.orders) (not_found order_missing)
  throw_if (is_cancelled o.status) (bad_request order_cancelled)
  moves ← adjustments o.items dto.items
  elim (known_receipt dto.receipt_number st.receipts) [
    | none ↦ store_receipt t id receipt_id fresh dto o moves st
    | some r ↦
        if nat_beq r.purchase_order_id id
        then ok (record { idempotent = true; receipt = r }, st)
        else err (conflict receipt_of_other_order)
  ]

unfoldable pub remove_purchase_order : ℕ → PurchasingStore → Result PurchasingStore
unfolding has_receipts
remove_purchase_order id st = do
  existing ← or_throw (lookup id st.orders) (not_found order_missing)
  throw_if (is_received existing.status) (bad_request order_received_already)
  throw_if (has_receipts id st.receipts) (bad_request order_has_receipts)
  ok (record st { orders = remove id st.orders })
