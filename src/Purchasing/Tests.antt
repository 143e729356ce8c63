-- ===== src/Purchasing/Tests.antt =====
-- An order of one line, ten units, four of them there, and a receipt of the other six.
use werehouse.Prelude.{◌+◌, ◌≡◌, ◌↔◌, ℕ, refl, true, false, none, some, [], ◌∷◌, arith}
use werehouse.Prelude.Lists.{All}
use werehouse.Prelude.Table.{nat_eq, lookup, insert, total}
use werehouse.Result.{ok, err, bad_request, value_or, above_remaining}
use werehouse.Stock.{
  StockKey, stock_key_eq, product_key_eq, Product, weighted_average, key_of,
  apply_stock_change_within,
}
use werehouse.Stock.Effects.{on_hand}
use werehouse.Costing.{apply_inbound_cost}
use werehouse.Purchasing.{
  sent, received, incoming, OrderItem, PurchaseOrder, ReceivedItem, PurchasingStore,
  ReceiveGoodsDto, Receiving, adjustments, move_stock, find_receipt, store_receipt, receive_goods,
  order_after, receipt_of,
}
use werehouse.Purchasing.Arrival.{arriving, grown, IsFull, receive_goods-on_hand}
use werehouse.Purchasing.Retry.{receive_goods-again}

abbrev goods : Product
goods = record {
  cost_price = 25000;
  costing_method = weighted_average;
  batch_tracked = false;
  shelf_life_days = none;
}

abbrev line : OrderItem
line = record { sku = 5; quantity = 10; received_quantity = 4; unit_cost = 300 }

abbrev order : PurchaseOrder
order = record { supplier_id = 7; status = sent; items = (31, line) ∷ []; total_amount = 3000 }

abbrev office : PurchasingStore
office = record {
  costs = record {
    stock = record {
      products = (record { tenant = 1; sku = 5 }, goods) ∷ [];
      levels = (key_of 1 5 2, record { quantity = 4; reserved = 0; available = 4 }) ∷ [];
      movements = [];
    };
    history = [];
  };
  suppliers = (7, tt) ∷ [];
  orders = (3, order) ∷ [];
  receipts = [];
}

abbrev delivery : ReceivedItem
delivery = record { purchase_order_item_id = 31; quantity = 6; location = 2 }

abbrev request : ReceiveGoodsDto
request = record { items = delivery ∷ []; receipt_number = some 88 }

abbrev answer : Receiving × PurchasingStore
answer =
    value_or (record { idempotent = true; receipt = receipt_of 3 0 request }, office)
      (receive_goods 1 3 9 500 request office)

received_well : receive_goods 1 3 9 500 request office ≡ ok answer
unfolding receive_goods adjustments store_receipt move_stock find_receipt lookup
    apply_stock_change_within apply_inbound_cost total insert
received_well = refl

receive_goods-on_hand_example :
    ((j : StockKey)
      → on_hand (lookup j answer.1.costs.stock.levels)
        ≡ on_hand (lookup j office.costs.stock.levels) + arriving 1 j order.items request.items)
    × (lookup 9 answer.1.receipts ≡ some (receipt_of 3 500 request))
    × (lookup 3 answer.1.orders ≡ some (order_after request order))
    × ((k : ℕ)
        → lookup k (order_after request order).items
          ≡ grown (incoming k request.items) (lookup k order.items))
    × (((order_after request order).status ≡ received) ↔ All (IsFull request.items) order.items)
unfolding find_receipt lookup
receive_goods-on_hand_example =
    receive_goods-on_hand 1 3 9 500 request office refl refl received_well

receive_goods-again_example :
    receive_goods 1 3 10 501 request answer.1 ≡ err (bad_request above_remaining)
unfolding find_receipt lookup
receive_goods-again_example =
    receive_goods-again 1 3 9 500 10 501 request office refl refl refl refl refl (omega arith)
      received_well
