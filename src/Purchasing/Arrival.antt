-- ===== src/Purchasing/Arrival.antt =====
-- What a receipt of goods does: `receiveGoods` of backend-nest/src/purchasing/purchasing.service.ts.
use werehouse.Prelude.{
  ℕ, ◌+◌, ◌*◌, ◌≤◌, ◌≡◌, ◌↔◌, refl, sym, ap, ◌∙◌, Bool, true, false, Option, inl, inr, none, some,
  List, [], ◌∷◌, arith,
}
use werehouse.Prelude.Tests.{
  leb, ltb, nat_beq, nat_beq_iff, Option-cases, if◌then◌else◌, Bool-cases,
}
use werehouse.Prelude.Int.{pos}
use werehouse.Prelude.Table.{lookup-insert, Table, nat_eq, ◌==◌, lookup, insert, lookup-insert_self}
use werehouse.Result.{
  ok, bad_request, or_throw, throw_if, >>=-eq-ok, or_throw-ok, ok-injective, order_cancelled,
  order_line_missing, above_remaining,
}
use werehouse.Stock.{StockKey, stock_key_eq, product_key_eq, key_of, apply_stock_change_within}
use werehouse.Stock.Effects.{on_hand}
use werehouse.Stock.Receipts.{receive-on_hand}
use werehouse.Costing.{CostStore}
use werehouse.PurchaseInvoices.Arrival.{inbound-same_levels}
use werehouse.Prelude.Lists.{All}
use werehouse.Purchasing.{
  received, sent, incremented, incoming, all_received, OrderItem, PurchaseOrder, ReceivedItem,
  PurchasingStore, ReceiveGoodsDto, Adjustment, Receiving, adjustments, known_receipt, change_of,
  revalued, move_stock, order_after, receipt_of, store_receipt, receive_goods, is_cancelled,
}

-- What a receipt that was new found and stored.
pub record Received (t id receipt_id fresh : ℕ) (dto : ReceiveGoodsDto) (st st' : PurchasingStore)
    : Type 0 where
  pub order : PurchaseOrder
  pub found : lookup id st.orders ≡ some order
  pub moves : List Adjustment
  pub fits : adjustments order.items dto.items ≡ ok moves
  pub costs : CostStore
  pub moved : move_stock t id moves st.costs ≡ ok costs
  pub stored : st' ≡ record st {
    costs = costs;
    orders = insert id (order_after dto order) st.orders;
    receipts = insert receipt_id (receipt_of id fresh dto) st.receipts;
  }

pub receive-Received :
    (t id receipt_id fresh : ℕ) (dto : ReceiveGoodsDto) (st : PurchasingStore)
    {r : Receiving × PurchasingStore}
    → known_receipt dto.receipt_number st.receipts ≡ none
    → receive_goods t id receipt_id fresh dto st ≡ ok r
    → Received t id receipt_id fresh dto st r.1
unfolding receive_goods store_receipt
receive-Received t id receipt_id fresh dto st new h =
    let (o, ho, h1) = >>=-eq-ok (or_throw (lookup id st.orders) _) _ h in
    let (u, hu, h2) =
      >>=-eq-ok (throw_if (is_cancelled o.status) (bad_request order_cancelled)) _ h1 in
    let (moves, fits, h3) = >>=-eq-ok (adjustments o.items dto.items) _ h2 in
    let (costs, moved, h4) = >>=-eq-ok (move_stock t id moves st.costs) _ (rw new at h3) in
    record {
      order = o;
      found = or_throw-ok _ _ ho;
      moves = moves;
      fits = fits;
      costs = costs;
      moved = moved;
      stored = ap (λ (x : Receiving × PurchasingStore). x.1) (sym (ok-injective h4));
    }

-- The units that the lines of a request bring to a key; a line's SKU is that of the order.
unfoldable pub arriving : ℕ → StockKey → Table ℕ OrderItem → List ReceivedItem → ℕ
arriving t j items [] = 0
arriving t j items (i ∷ rest) =
    let others = arriving t j items rest in
    elim (lookup i.purchase_order_item_id items) [
      | none ↦ others
      | some o ↦ (if key_of t o.sku i.location == j then i.quantity else 0) + others
    ]

abbrev moving : ℕ → StockKey → List Adjustment → ℕ
moving t j [] = 0
moving t j (a ∷ rest) = (if key_of t a.sku a.location == j then a.change else 0) + moving t j rest

adjustments-arriving :
    (t : ℕ) (j : StockKey) (items : Table ℕ OrderItem) (lines : List ReceivedItem)
    {moves : List Adjustment}
    → adjustments items lines ≡ ok moves
    → moving t j moves ≡ arriving t j items lines
unfolding adjustments arriving
adjustments-arriving t j items [] h = ap (moving t j) (sym (ok-injective h))
adjustments-arriving t j items (i ∷ rest) h =
    let (o, ho, h1) =
      >>=-eq-ok (or_throw (lookup i.purchase_order_item_id items) (bad_request order_line_missing))
        _ h in
    let (u, hu, h2) =
      >>=-eq-ok
        (throw_if (ltb o.quantity (o.received_quantity + i.quantity)) (bad_request above_remaining))
        _ h1 in
    let (others, hs, h3) = >>=-eq-ok (adjustments items rest) _ h2 in
    let same = adjustments-arriving t j items rest hs in
    rw (sym (ok-injective h3), arriving, or_throw-ok _ _ ho, sym same) refl

revalued-same_levels :
    (t : ℕ) (a : Adjustment) (costs : CostStore)
    → (revalued t a costs).stock.levels ≡ costs.stock.levels
revalued-same_levels t a costs = elim (Bool-cases (ltb 0 a.unit_cost)) [
  | inl priced ↦
      rw priced (inbound-same_levels t a.sku (100 * a.unit_cost) (some (pos a.change)) costs)
  | inr free ↦ rw free refl
]

move_stock-on_hand :
    (t id : ℕ) (moves : List Adjustment) (costs : CostStore) {costs' : CostStore}
    → move_stock t id moves costs ≡ ok costs'
    → (j : StockKey)
    → on_hand (lookup j costs'.stock.levels)
      ≡ on_hand (lookup j costs.stock.levels) + moving t j moves
unfolding move_stock
move_stock-on_hand t id [] costs h j = rw (sym (ok-injective h)) (omega arith)
move_stock-on_hand t id (a ∷ rest) costs h j =
    let (r, hr, h1) =
      >>=-eq-ok (apply_stock_change_within (some t) (change_of id a) (revalued t a costs).stock) _
        h in
    let others = move_stock-on_hand t id rest _ h1 j in
    let this = receive-on_hand t a.change (change_of id a) (revalued t a costs).stock refl hr j in
    let levels = ap (λ x. on_hand (lookup j x)) (revalued-same_levels t a costs) in
    omega (arith, others, this, levels)

-- A line of an order after some units of it were received.
abbrev pub grown : ℕ → Option OrderItem → Option OrderItem
grown n none = none
grown n (some l) = some (record l { received_quantity = l.received_quantity + n })

plus_none : (n : ℕ) → n ≡ n + 0
plus_none n = omega arith

zero_plus : (n : ℕ) → n ≡ 0 + n
zero_plus n = omega arith

grown_zero : (n : ℕ) (x : Option OrderItem) → grown n x ≡ grown (0 + n) x
grown_zero n x = ap (λ (m : ℕ). grown m x) (zero_plus n)

grown_none : (l : OrderItem) → some l ≡ grown 0 (some l)
grown_none l =
    ap (λ (n : ℕ). some (record l { received_quantity = n })) (plus_none l.received_quantity)

grown-grown : (m n : ℕ) (x : Option OrderItem) → grown n (grown m x) ≡ grown (m + n) x
grown-grown m n none = refl
grown-grown m n (some l) = ap (λ (q : ℕ). some (record l { received_quantity = q })) (omega arith)

skipped_line :
    (j k q n : ℕ) (items : Table ℕ OrderItem)
    → lookup j items ≡ none
    → grown n (lookup k items) ≡ grown ((if nat_beq j k then q else 0) + n) (lookup k items)
skipped_line j k q n items missing = elim (Bool-cases (nat_beq j k)) [
  | inl same ↦
      let gone : lookup k items ≡ none =
        ap (λ x. lookup x items) (sym ((nat_beq_iff j k).0 same)) ∙ missing in
      rw gone refl
  | inr other ↦ rw other (grown_zero n (lookup k items))
]

taken_line :
    (j k q n : ℕ) (items : Table ℕ OrderItem) {l : OrderItem}
    → lookup j items ≡ some l
    → grown n (lookup k (insert j (record l { received_quantity = l.received_quantity + q }) items))
      ≡ grown ((if nat_beq j k then q else 0) + n) (lookup k items)
taken_line j k q n items {l = l} found =
    let l' = record l { received_quantity = l.received_quantity + q } in
    elim (Bool-cases (nat_beq j k)) [
      | inl same ↦
          let here : lookup k items ≡ some l =
            ap (λ x. lookup x items) (sym ((nat_beq_iff j k).0 same)) ∙ found in
          rw (lookup-insert j k l' items, same, here) (grown-grown q n (some l))
      | inr other ↦ rw (lookup-insert j k l' items, other) (grown_zero n (lookup k items))
    ]

incremented-grown :
    (k : ℕ) (lines : List ReceivedItem) (items : Table ℕ OrderItem)
    → lookup k (incremented lines items) ≡ grown (incoming k lines) (lookup k items)
unfolding incremented
incremented-grown k [] items = elim (Option-cases (lookup k items)) [
  | inl missing ↦ rw missing refl
  | inr (l, found) ↦ rw found (grown_none l)
]
incremented-grown k (i ∷ rest) items =
    let j = i.purchase_order_item_id in
    elim (Option-cases (lookup j items)) [
      | inl missing ↦ rw missing (
          incremented-grown k rest items
          ∙ skipped_line j k i.quantity (incoming k rest) items missing)
      | inr (l, found) ↦
          let l' = record l { received_quantity = l.received_quantity + i.quantity } in
          rw found (
            incremented-grown k rest (insert j l' items)
            ∙ taken_line j k i.quantity (incoming k rest) items found)
    ]

-- Every line of the order has all its units, those of the request included.
abbrev pub IsFull : List ReceivedItem → ℕ × OrderItem → Type 0
IsFull lines r = r.1.quantity ≤ r.1.received_quantity + incoming r.0 lines

all_received-IsFull :
    (lines : List ReceivedItem) (items : Table ℕ OrderItem)
    → (all_received lines items ≡ true) ↔ All (IsFull lines) items
unfolding all_received
all_received-IsFull lines [] = (λ e. tt, λ h. refl)
all_received-IsFull lines ((k, l) ∷ items) =
    let rest = all_received-IsFull lines items in
    (
      λ e. (ground (arith, e), rest.0 (ground (arith, e))),
      λ h.
          let full : leb l.quantity (l.received_quantity + incoming k lines) ≡ true =
            ground (arith, h.0) in
          rw (full, rest.1 h.1) refl,
    )

status_received : (b : Bool) → ((if b then received else sent) ≡ received) ↔ (b ≡ true)
status_received true = (λ e. refl, λ e. refl)
status_received false = (λ e. cc e, λ e. cc e)

iff_trans : {P Q R : Type 0} → (P ↔ Q) → (Q ↔ R) → P ↔ R
iff_trans f g = (λ p. g.0 (f.0 p), λ r. f.1 (g.1 r))

-- A receipt of goods that was not known before adds at every key exactly the units of its lines to
-- what is on hand, whatever the prices. It stores the receipt; in the order, every line has received
-- what the request brings of it and is otherwise as it was, and the order is received exactly when
-- every line has all its units.
pub receive_goods-on_hand :
    (t id receipt_id fresh : ℕ) (dto : ReceiveGoodsDto) (st : PurchasingStore)
    {r : Receiving × PurchasingStore} {o : PurchaseOrder}
    → known_receipt dto.receipt_number st.receipts ≡ none
    → lookup id st.orders ≡ some o
    → receive_goods t id receipt_id fresh dto st ≡ ok r
    → ((j : StockKey)
        → on_hand (lookup j r.1.costs.stock.levels)
          ≡ on_hand (lookup j st.costs.stock.levels) + arriving t j o.items dto.items)
      × (lookup receipt_id r.1.receipts ≡ some (receipt_of id fresh dto))
      × (lookup id r.1.orders ≡ some (order_after dto o))
      × ((k : ℕ)
          → lookup k (order_after dto o).items ≡ grown (incoming k dto.items) (lookup k o.items))
      × (((order_after dto o).status ≡ received) ↔ All (IsFull dto.items) o.items)
receive_goods-on_hand t id receipt_id fresh dto st {o = o} new found h =
    let w = receive-Received t id receipt_id fresh dto st new h in
    let same : w.order ≡ o = cc (w.found, found) in
    rw w.stored (
      λ j.
          let moved = move_stock-on_hand t id w.moves st.costs w.moved j in
          let fits = adjustments-arriving t j o.items dto.items (rw same at w.fits) in
          omega (arith, moved, fits),
      lookup-insert_self receipt_id _ st.receipts,
      rw same (lookup-insert_self id _ st.orders),
      λ k. incremented-grown k dto.items o.items,
      iff_trans (status_received (all_received dto.items o.items))
          (all_received-IsFull dto.items o.items),
    )
