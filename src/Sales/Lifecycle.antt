-- ===== src/Sales/Lifecycle.antt =====
-- Confirming and cancelling a whole order.
use werehouse.Prelude.{ℕ, ◌≤◌, ◌<◌, ◌≡◌, refl, sym, ap, ◌∙◌, ◌↔◌, Option, none, some, List, arith}
use werehouse.Prelude.Lists.{All}
use werehouse.Prelude.Table.{nat_eq, lookup, insert, lookup-insert_self}
use werehouse.Result.{Result, ok, err, ◌>>=◌, >>=-eq-ok, ok-injective, or_throw, or_throw-ok}
use werehouse.Stock.{StockKey, stock_key_eq, Level, Store}
use werehouse.Sales.{
  SalesItem, SalesOrder, SalesStore, OrderStatus, draft, confirmed, delivered, cancelled,
  confirmable, reserve_items, release_items, confirm_sales_order, cancel_sales_order, finish_cancel,
}
use werehouse.Sales.Reservation.{
  demand, available_at, reserved_at, held_row, freed_row, reserve_items_lem, reserve_items-total,
  release_items_lem,
}

-- Every line asks for one unit or more.
abbrev pub IsPositive : List SalesItem → Type 0
IsPositive = All (λ i. 0 < i.quantity)

confirmable-draft : (x : OrderStatus) {u : Unit} → confirmable x ≡ ok u → x ≡ draft
confirmable-draft draft h = refl
confirmable-draft confirmed h = cc
confirmable-draft delivered h = cc
confirmable-draft cancelled h = cc

-- What a successful confirmation did.
pub record Confirmed (t id : ℕ) (st st' : SalesStore) : Type 0 where
  pub order : SalesOrder
  pub stock : Store
  pub found : lookup id st.orders ≡ some order
  pub was_draft : order.status ≡ draft
  pub reserved : reserve_items (some t) id order.items st.stock ≡ ok stock
  pub stored : st' ≡ record st {
    stock = stock;
    orders = insert id (record order { status = confirmed }) st.orders;
  }

pub confirm-Confirmed :
    (t id : ℕ) (st : SalesStore) {st' : SalesStore}
    → confirm_sales_order (some t) id st ≡ ok st'
    → Confirmed t id st st'
unfolding confirm_sales_order
confirm-Confirmed t id st h =
    let (o, ho, h1) = >>=-eq-ok (or_throw (lookup id st.orders) _) _ h in
    let (u, hu, h2) = >>=-eq-ok (confirmable o.status) _ h1 in
    let (s, hs, h3) = >>=-eq-ok (reserve_items (some t) id o.items st.stock) _ h2 in
    record {
      order = o;
      stock = s;
      found = or_throw-ok _ _ ho;
      was_draft = confirmable-draft o.status hu;
      reserved = hs;
      stored = sym (ok-injective h3);
    }

confirm-of_reserve :
    (t id : ℕ) (st : SalesStore) {o : SalesOrder} {s : Store}
    → lookup id st.orders ≡ some o
    → o.status ≡ draft
    → reserve_items (some t) id o.items st.stock ≡ ok s
    → confirm_sales_order (some t) id st
      ≡ ok (record st { stock = s; orders = insert id (record o { status = confirmed }) st.orders })
unfolding confirm_sales_order
confirm-of_reserve t id st found status reserved = rw (found, status, ◌>>=◌, reserved)

confirm_needs :
    (t id : ℕ) (st : SalesStore) {st' : SalesStore} {o : SalesOrder} (j : StockKey)
    → lookup id st.orders ≡ some o
    → confirm_sales_order (some t) id st ≡ ok st'
    → demand t j o.items ≤ available_at (lookup j st.stock.levels)
confirm_needs t id st {o = o} j found h =
    let c = confirm-Confirmed t id st h in
    let same : c.order ≡ o = cc (c.found, found) in
    (reserve_items_lem t id o.items st.stock j (rw same at c.reserved)).1

-- A draft order, whose lines all ask for one unit or more, is confirmed exactly when at every key
-- the sum of its lines is available.
pub confirm_iff :
    (t id : ℕ) (st : SalesStore) {o : SalesOrder}
    → lookup id st.orders ≡ some o
    → o.status ≡ draft
    → IsPositive o.items
    → ((st' : SalesStore) × (confirm_sales_order (some t) id st ≡ ok st'))
      ↔ ((j : StockKey) → demand t j o.items ≤ available_at (lookup j st.stock.levels))
confirm_iff t id st {o = o} found status positive = (
  λ r j. confirm_needs t id st j found r.1,
  λ enough.
      let (s, hs) = reserve_items-total t id o.items st.stock positive enough in
      (_, confirm-of_reserve t id st found status hs),
)

-- A confirmed order was a draft; it has changed in nothing but its status, and at every key the sum
-- of its lines has gone from available to reserved.
pub confirm_effect :
    (t id : ℕ) (st : SalesStore) {st' : SalesStore} {o : SalesOrder}
    → lookup id st.orders ≡ some o
    → confirm_sales_order (some t) id st ≡ ok st'
    → (o.status ≡ draft)
      × (lookup id st'.orders ≡ some (record o { status = confirmed }))
      × ((j : StockKey)
          → lookup j st'.stock.levels ≡ held_row (demand t j o.items) (lookup j st.stock.levels))
confirm_effect t id st {o = o} found h =
    let c = confirm-Confirmed t id st h in
    let same : c.order ≡ o = cc (c.found, found) in
    (
      rw same at c.was_draft,
      rw (c.stored, same, lookup-insert_self id (record o { status = confirmed }) st.orders),
      λ j. rw c.stored (reserve_items_lem t id o.items st.stock j (rw same at c.reserved)).0,
    )

freed_row-held_row :
    (d : ℕ) (x : Option Level) → d ≤ available_at x → freed_row d (held_row d x) ≡ x
freed_row-held_row d none h = refl
freed_row-held_row d (some l) h = ground arith

reserved-held_row : (d : ℕ) (x : Option Level) → d ≤ available_at x → d ≤ reserved_at (held_row d x)
reserved-held_row d none h = h
reserved-held_row d (some l) h = omega arith

finish_cancel-ok :
    (id : ℕ) (o : SalesOrder) (st : SalesStore) (x : Result (Unit {0}) × Store)
    → x.0 ≡ ok tt
    → finish_cancel id o st x ≡ (
      ok tt,
      record st { stock = x.1; orders = insert id (record o { status = cancelled }) st.orders },
    )
finish_cancel-ok id o st (ok u, s) h = refl
finish_cancel-ok id o st (err e, s) h = cc

cancel-of_release :
    (t id : ℕ) (st : SalesStore) {o : SalesOrder}
    → lookup id st.orders ≡ some o
    → o.status ≡ confirmed
    → (release_items (some t) o.items st.stock).0 ≡ ok tt
    → cancel_sales_order (some t) id st ≡ (
      ok tt,
      record st {
        stock = (release_items (some t) o.items st.stock).1;
        orders = insert id (record o { status = cancelled }) st.orders;
      },
    )
unfolding cancel_sales_order
cancel-of_release t id st {o = o} found status released =
    rw (found, status)
      (finish_cancel-ok id (record o { status = confirmed }) st
        (release_items (some t) o.items st.stock) released)

-- Cancelling an order, whose lines all ask for one unit or more, right after it was confirmed succeeds and undoes it: every stock row is as it
-- was before the confirmation, and the order is cancelled.
pub cancel-confirm :
    (t id : ℕ) (st : SalesStore) {st' : SalesStore} {o : SalesOrder}
    → lookup id st.orders ≡ some o
    → IsPositive o.items
    → confirm_sales_order (some t) id st ≡ ok st'
    → ((cancel_sales_order (some t) id st').0 ≡ ok tt)
      × (lookup id (cancel_sales_order (some t) id st').1.orders
          ≡ some (record o { status = cancelled }))
      × ((j : StockKey)
          → lookup j (cancel_sales_order (some t) id st').1.stock.levels ≡ lookup j st.stock.levels)
cancel-confirm t id st {st' = st'} {o = o} found positive h =
    let (_, stored, rows) = confirm_effect t id st found h in
    let enough = λ (j : StockKey). confirm_needs t id st j found h in
    let (done, freed) =
      release_items_lem t o.items st'.stock positive
        (λ j. rw (rows j) (reserved-held_row (demand t j o.items) _ (enough j))) in
    rw (cancel-of_release t id st' stored refl done) (
      refl,
      lookup-insert_self id _ st'.orders,
      λ j.
          freed j
          ∙ ap (freed_row (demand t j o.items)) (rows j)
          ∙ freed_row-held_row (demand t j o.items) _ (enough j),
    )
