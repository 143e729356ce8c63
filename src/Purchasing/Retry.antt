-- ===== src/Purchasing/Retry.antt =====
-- A receipt sent twice under one receipt number: `receiveGoods` of
-- backend-nest/src/purchasing/purchasing.service.ts.
use werehouse.Prelude.{ℕ, ◌+◌, ◌<◌, ◌≡◌, refl, Bool, true, false, none, some, [], ◌∷◌, arith}
use werehouse.Prelude.Tests.{ltb, if◌then◌else◌}
use werehouse.Prelude.Table.{Table, nat_eq, lookup, lookup-insert_self}
use werehouse.Result.{ok, err, bad_request, above_remaining}
use werehouse.Purchasing.{
  received, sent, OrderItem, PurchaseOrder, ReceivedItem, PurchasingStore, ReceiveGoodsDto,
  Receiving, adjustments, known_receipt, incremented, all_received, order_after, receive_goods,
  is_cancelled,
}
use werehouse.Purchasing.Arrival.{receive-Received}

after-open : (b : Bool) → is_cancelled (if b then received else sent) ≡ false
after-open true = refl
after-open false = refl

-- A line that asks for more than remains is refused, and with it the request.
refused :
    (t id receipt_id fresh : ℕ) (dto : ReceiveGoodsDto) (st : PurchasingStore) {o : PurchaseOrder}
    → lookup id st.orders ≡ some o
    → is_cancelled o.status ≡ false
    → adjustments o.items dto.items ≡ err (bad_request above_remaining)
    → receive_goods t id receipt_id fresh dto st ≡ err (bad_request above_remaining)
unfolding receive_goods
refused t id receipt_id fresh dto st found still_open above = rw (found, still_open, above) refl

line_refused :
    (items : Table ℕ OrderItem) (i : ReceivedItem) {line : OrderItem}
    → lookup i.purchase_order_item_id items ≡ some line
    → line.quantity < line.received_quantity + i.quantity
    → adjustments items (i ∷ []) ≡ err (bad_request above_remaining)
unfolding adjustments
line_refused items i {line = line} there above =
    let over : ltb line.quantity (line.received_quantity + i.quantity) ≡ true =
      ground (arith, above) in
    rw (there, over) refl

line_received :
    (items : Table ℕ OrderItem) (i : ReceivedItem) {line : OrderItem}
    → lookup i.purchase_order_item_id items ≡ some line
    → lookup i.purchase_order_item_id (incremented (i ∷ []) items)
      ≡ some (record line { received_quantity = line.received_quantity + i.quantity })
unfolding incremented
line_received items i there =
    rw (incremented, there) (lookup-insert_self i.purchase_order_item_id _ items)

-- A request of one line that takes all that was left of it is received; sent again under the same
-- receipt number, it is refused as above what remains, and not answered with its receipt.
pub receive_goods-again :
    (t id receipt_id fresh again now : ℕ) (dto : ReceiveGoodsDto) (st : PurchasingStore)
    {r : Receiving × PurchasingStore} {o : PurchaseOrder} {line : OrderItem} {i : ReceivedItem}
    → known_receipt dto.receipt_number st.receipts ≡ none
    → lookup id st.orders ≡ some o
    → dto.items ≡ i ∷ []
    → lookup i.purchase_order_item_id o.items ≡ some line
    → line.received_quantity + i.quantity ≡ line.quantity
    → 0 < i.quantity
    → receive_goods t id receipt_id fresh dto st ≡ ok r
    → receive_goods t id again now dto r.1 ≡ err (bad_request above_remaining)
receive_goods-again t id receipt_id fresh again now dto st {o = o} {line = line} {i = i} new found
      one there rest positive h =
    let w = receive-Received t id receipt_id fresh dto st new h in
    let same : w.order ≡ o = cc (w.found, found) in
    let after = line_received o.items i there in
    rw w.stored (
      refused t id again now dto _ (lookup-insert_self id (order_after dto w.order) st.orders)
        (after-open (all_received dto.items w.order.items))
        (rw (same, one)
          (line_refused (incremented (i ∷ []) o.items) i after (omega (arith, rest, positive)))))
