-- ===== src/Sales/Payments.antt =====
-- The payments of sales orders: what an order says is paid is the sum of its payments, and never
-- more than its total.
use werehouse.Prelude.{ℕ, ◌+◌, ◌-◌, ◌≤◌, ◌≡◌, sym, subst, inl, inr, none, some, arith}
use werehouse.Prelude.Tests.{ltb, nat_beq_iff}
use werehouse.Prelude.Table.{
  nat_eq, lookup, insert, remove, IsUnique, insert-IsUnique, remove-IsUnique, total-insert_new,
  total-remove, lookup-insert_cases,
}
use werehouse.Result.{ok, >>=-eq-ok, ok-injective, or_throw, or_throw-ok, throw_if, throw_if-ok}
use werehouse.Sales.{
  SalesOrder, SalesStore, is_cancelled, Payment, amount_for, paid_for, create_payment,
  remove_payment,
}

-- Payments have unique ids, and each order's paid amount is the sum of its payments and is within
-- its total.
pub record IsPaid (st : SalesStore) : Type 0 where
  pub unique : IsUnique st.payments
  pub paid :
      (id : ℕ) (o : SalesOrder)
      → lookup id st.orders ≡ some o
      → o.paid_amount ≡ paid_for id st.payments
  pub within :
      (id : ℕ) (o : SalesOrder) → lookup id st.orders ≡ some o → o.paid_amount ≤ o.total_amount

-- What a recorded payment did.
record Recorded (pid id amount : ℕ) (st st' : SalesStore) : Type 0 where
  order : SalesOrder
  found : lookup id st.orders ≡ some order
  room : order.paid_amount + amount ≤ order.total_amount
  stored : st' ≡ record st {
    payments = insert pid (record { sales_order_id = id; amount = amount }) st.payments;
    orders = insert id (record order { paid_amount = order.paid_amount + amount }) st.orders;
  }

create-Recorded :
    (pid id amount : ℕ) (st : SalesStore) {st' : SalesStore}
    → create_payment pid id amount st ≡ ok st'
    → Recorded pid id amount st st'
unfolding create_payment
create-Recorded pid id amount st h =
    let (o, ho, h1) = >>=-eq-ok (or_throw (lookup id st.orders) _) _ h in
    let (u, hu, h2) = >>=-eq-ok (throw_if (is_cancelled o.status) _) _ h1 in
    let (v, hv, h3) = >>=-eq-ok (throw_if (ltb o.total_amount (o.paid_amount + amount)) _) _ h2 in
    record {
      order = o;
      found = or_throw-ok _ _ ho;
      room = ground (arith, throw_if-ok _ _ hv);
      stored = sym (ok-injective h3);
    }

-- A payment that is recorded keeps the books: the order's paid amount stays the sum of its payments
-- and within its total. The new payment's id is fresh.
pub create_payment-IsPaid :
    (pid id amount : ℕ) (st : SalesStore) {st' : SalesStore}
    → IsPaid st
    → lookup pid st.payments ≡ none
    → create_payment pid id amount st ≡ ok st'
    → IsPaid st'
unfolding paid_for
create_payment-IsPaid pid id amount st v fresh h =
    let w = create-Recorded pid id amount st h in
    let p : Payment = record { sales_order_id = id; amount = amount } in
    let was = v.paid id w.order w.found in
    rw w.stored (record {
      unique = insert-IsUnique pid p st.payments v.unique;
      paid = λ j o e. elim (lookup-insert_cases id j _ st.orders e) [
        | inl (same, eo) ↦
            rw
              (
                eo,
                total-insert_new (amount_for j) pid p st.payments fresh,
                (nat_beq_iff id j).1 same,
              )
              (omega (arith, subst (λ x. w.order.paid_amount ≡ paid_for x st.payments) same was))
        | inr (other, eo) ↦
            rw (total-insert_new (amount_for j) pid p st.payments fresh, other)
              (omega (arith, v.paid j o eo))
      ];
      within = λ j o e. elim (lookup-insert_cases id j _ st.orders e) [
        | inl (same, eo) ↦ rw eo w.room
        | inr (other, eo) ↦ v.within j o eo
      ];
    })

record Removed (pid : ℕ) (st st' : SalesStore) : Type 0 where
  payment : Payment
  order : SalesOrder
  here : lookup pid st.payments ≡ some payment
  found : lookup payment.sales_order_id st.orders ≡ some order
  stored : st' ≡ record st {
    payments = remove pid st.payments;
    orders =
        insert payment.sales_order_id
          (record order { paid_amount = order.paid_amount - payment.amount })
          st.orders;
  }

remove-Removed :
    (pid : ℕ) (st : SalesStore) {st' : SalesStore}
    → remove_payment pid st ≡ ok st'
    → Removed pid st st'
unfolding remove_payment
remove-Removed pid st h =
    let (p, hp, h1) = >>=-eq-ok (or_throw (lookup pid st.payments) _) _ h in
    let (o, ho, h2) = >>=-eq-ok (or_throw (lookup p.sales_order_id st.orders) _) _ h1 in
    record {
      payment = p;
      order = o;
      here = or_throw-ok _ _ hp;
      found = or_throw-ok _ _ ho;
      stored = sym (ok-injective h2);
    }

-- Removing a payment keeps the books too; its amount never exceeds what the order says is paid, so
-- the decrement does not go below zero.
pub remove_payment-IsPaid :
    (pid : ℕ) (st : SalesStore) {st' : SalesStore}
    → IsPaid st
    → remove_payment pid st ≡ ok st'
    → IsPaid st'
unfolding paid_for
remove_payment-IsPaid pid st v h =
    let w = remove-Removed pid st h in
    let id = w.payment.sales_order_id in
    let was = v.paid id w.order w.found in
    let less = λ (j : ℕ). total-remove (amount_for j) pid w.payment st.payments v.unique w.here in
    rw w.stored (record {
      unique = remove-IsUnique pid st.payments v.unique;
      paid = λ j o e. elim (lookup-insert_cases id j _ st.orders e) [
        | inl (same, eo) ↦
            let mine : amount_for j pid w.payment ≡ w.payment.amount =
              rw ((nat_beq_iff id j).1 same) in
            rw eo (
              omega (
                arith,
                mine,
                less j,
                subst (λ x. w.order.paid_amount ≡ paid_for x st.payments) same was,
              ))
        | inr (other, eo) ↦
            let mine : amount_for j pid w.payment ≡ 0 = rw other in
            omega (arith, mine, less j, v.paid j o eo)
      ];
      within = λ j o e. elim (lookup-insert_cases id j _ st.orders e) [
        | inl (same, eo) ↦ rw eo (omega (arith, v.within id w.order w.found))
        | inr (other, eo) ↦ v.within j o eo
      ];
    })
