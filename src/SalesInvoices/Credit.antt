-- ===== src/SalesInvoices/Credit.antt =====
-- The credit limit, and the payment that settles an invoice.
use werehouse.Prelude.{
  ℕ, ◌+◌, ◌≡◌, ◌⊎◌, refl, sym, ap, ◌∙◌, Bool, true, false, not, ◌&&◌, none, some, [], ◌∷◌, inl, inr,
  arith,
}
use werehouse.Prelude.Tests.{nat_beq, nat_beq_iff, if◌then◌else◌, Bool-cases}
use werehouse.Prelude.Int.{ℤ, pos, is_pos, ◌+ℤ◌, ◌-ℤ◌, ◌≤ℤ◌, int_laws}
use werehouse.Prelude.Table.{
  Table, nat_eq, ◌==◌, lookup, insert, lookup-same, lookup-insert_self, IsUnique,
}
use werehouse.Result.{ok, >>=-eq-ok, or_throw, or_throw-ok, throw_if-ok}
use werehouse.SalesInvoices.{
  DocumentStatus, draft, posted, partially_paid, paid, cancelled, SalesInvoice, InvoiceStore,
  recalculated, is_open, balance_of, outstanding, assert_credit_limit, payable, status_after,
  add_payment, order_payment,
}
use werehouse.SalesInvoices.Posting.{posted_invoice, post}
use werehouse.SalesInvoices.Amounts.{posted_invoice-total}
use werehouse.SalesInvoices.Posted.{post-Posted}

-- What a customer owes on open invoices.
abbrev pub owes : ℕ → SalesInvoice → ℤ
owes customer v = if nat_beq v.customer_id customer && is_open v.status then balance_of v else pos 0

unfoldable pub owed : ℕ → Table ℕ SalesInvoice → ℤ
owed customer [] = pos 0
owed customer ((id, v) ∷ rest) = owes customer v +ℤ owed customer rest

pick :
    (mine still_open : Bool) (balance others : ℤ)
    → (if mine && not false && still_open then balance +ℤ others else others)
      ≡ (if mine && still_open then balance else pos 0) +ℤ others
pick true true balance others = refl
pick true false balance others = omega int_laws
pick false still_open balance others = omega int_laws

pass : (mine still_open : Bool) (x y : ℤ) → (if mine && not true && still_open then x else y) ≡ y
pass true still_open x y = refl
pass false still_open x y = refl

outstanding-other :
    (customer id k : ℕ) (v : SalesInvoice) (m : Table ℕ SalesInvoice)
    → (k == id) ≡ false
    → outstanding customer id ((k, v) ∷ m) ≡ owes customer v +ℤ outstanding customer id m
unfolding outstanding
outstanding-other customer id k v m other = rw other (
    pick (nat_beq v.customer_id customer) (is_open v.status) (balance_of v)
      (outstanding customer id m))

outstanding-same :
    (customer id k : ℕ) (v : SalesInvoice) (m : Table ℕ SalesInvoice)
    → (k == id) ≡ true
    → outstanding customer id ((k, v) ∷ m) ≡ outstanding customer id m
unfolding outstanding
outstanding-same customer id k v m same =
    rw same (pass (nat_beq v.customer_id customer) (is_open v.status) _ (outstanding customer id m))

excluded_none :
    (customer id : ℕ) (m : Table ℕ SalesInvoice)
    → lookup id m ≡ none
    → owed customer m ≡ outstanding customer id m
unfolding owed lookup outstanding
excluded_none customer id [] h = refl
excluded_none customer id ((k, v) ∷ m) h = elim (Bool-cases (k == id)) [
  | inl same ↦ cc (rw same at h)
  | inr other ↦
      ap (λ x. owes customer v +ℤ x) (excluded_none customer id m (rw other at h))
      ∙ sym (outstanding-other customer id k v m other)
]

owed_alone :
    (customer id : ℕ) (w : SalesInvoice)
    → owed customer ((id, w) ∷ []) ≡ outstanding customer id [] +ℤ owes customer w
unfolding owed outstanding
owed_alone customer id w = omega int_laws

owed-insert :
    (customer id : ℕ) (w : SalesInvoice) (m : Table ℕ SalesInvoice)
    → IsUnique m
    → owed customer (insert id w m) ≡ outstanding customer id m +ℤ owes customer w
unfolding owed insert
owed-insert customer id w [] u = owed_alone customer id w
owed-insert customer id w ((k, v) ∷ m) u = elim (Bool-cases (k == id)) [
  | inl same ↦
      let gone : lookup id m ≡ none = lookup-same id k m same ∙ u.0 in
      rw (same, outstanding-same customer id k v m same, excluded_none customer id m gone)
        (omega int_laws)
  | inr other ↦
      rw (other, outstanding-other customer id k v m other, owed-insert customer id w m u.1)
        (omega int_laws)
]

within :
    (limit : ℕ) (x : ℤ)
    → (not (nat_beq limit 0) && is_pos (x -ℤ pos limit)) ≡ false
    → (limit ≡ 0) ⊎ (x ≤ℤ pos limit)
unfolding ◌-ℤ◌
within limit x h = ground arith

-- The check passed: there is no limit, or the other open invoices and this one are within it.
credit-passed :
    (customer : ℕ) (total : ℤ) (id : ℕ) (st : InvoiceStore) {u : Unit}
    → assert_credit_limit customer total id st ≡ ok u
    → (limit : ℕ) × (lookup customer st.credit_limits ≡ some limit)
      × ((limit ≡ 0) ⊎ (outstanding customer id st.invoices +ℤ total ≤ℤ pos limit))
unfolding assert_credit_limit
credit-passed customer total id st h =
    let (limit, hl, h1) = >>=-eq-ok (or_throw (lookup customer st.credit_limits) _) _ h in
    let passed =
      throw_if-ok
        (not (nat_beq limit 0)
          && is_pos (outstanding customer id st.invoices +ℤ total -ℤ pos limit))
        _ h1 in
    (limit, or_throw-ok _ _ hl, within limit (outstanding customer id st.invoices +ℤ total) passed)

-- A posted invoice, unpaid before and with the totals of its lines, does not lead its customer over
-- the credit limit: the customer has none, or owes at most the limit on all open invoices, this one
-- included. The rows of the invoices have different keys.
pub post-within_limit :
    (t note_id id : ℕ) (st : InvoiceStore) {st' : InvoiceStore} {v : SalesInvoice}
    → IsUnique st.invoices
    → lookup id st.invoices ≡ some v
    → recalculated v ≡ v
    → v.paid_amount ≡ 0
    → post t note_id id st ≡ ok st'
    → (limit : ℕ) × (lookup v.customer_id st.credit_limits ≡ some limit)
      × ((limit ≡ 0) ⊎ (owed v.customer_id st'.invoices ≤ℤ pos limit))
unfolding recalculated
post-within_limit t note_id id st {st' = st'} {v = v} unique found sound unpaid h =
    let p = post-Posted t note_id id st h in
    let same : p.invoice ≡ v = cc (p.found, found) in
    let total : (posted_invoice v p.shipped).total_amount ≡ v.total_amount =
      posted_invoice-total t id st.lots v st.lots sound (rw same at p.taken) in
    let w = posted_invoice v p.shipped in
    let stored : st'.invoices ≡ insert id w st.invoices =
      ap (λ (x : InvoiceStore). x.invoices) p.stored
      ∙ ap (λ (x : SalesInvoice). insert id (posted_invoice x p.shipped) st.invoices) same in
    let owes_now : owes v.customer_id w ≡ v.total_amount -ℤ pos 0 =
      rw ((nat_beq_iff v.customer_id v.customer_id).1 refl) (
        ap (λ (x : ℤ). x -ℤ pos v.paid_amount) total
        ∙ ap (λ (n : ℕ). v.total_amount -ℤ pos n) unpaid) in
    let sum : owed v.customer_id st'.invoices
        ≡ outstanding v.customer_id id st.invoices +ℤ v.total_amount =
      ap (owed v.customer_id) stored
      ∙ owed-insert v.customer_id id w st.invoices unique
      ∙ ap (λ (x : ℤ). outstanding v.customer_id id st.invoices +ℤ x) (owes_now ∙ omega int_laws) in
    let (limit, row, kept) =
      credit-passed v.customer_id v.total_amount id st (rw same at p.credit) in
    (limit, row, rw sum kept)

open-payable : (x : DocumentStatus) → is_open x ≡ true → payable x ≡ ok tt
open-payable draft h = cc
open-payable posted h = refl
open-payable partially_paid h = refl
open-payable paid h = refl
open-payable cancelled h = cc

nothing_over : (m n : ℕ) → is_pos (pos n -ℤ (pos (m + n) -ℤ pos m)) ≡ false
unfolding ◌-ℤ◌
nothing_over m n = ground arith

nothing_left : (m : ℕ) → status_after m (pos m) ≡ paid
unfolding ◌-ℤ◌
nothing_left m = ground arith

-- A payment of exactly what is left of an open invoice succeeds and leaves the invoice paid, with
-- its total as the paid amount.
pub add_payment-settles :
    (payment_id id n : ℕ) (st : InvoiceStore) {v : SalesInvoice}
    → lookup id st.invoices ≡ some v
    → is_open v.status ≡ true
    → v.total_amount ≡ pos (v.paid_amount + n)
    → (st' : InvoiceStore) × (w : SalesInvoice) × (add_payment payment_id id n st ≡ ok st')
      × (lookup id st'.invoices ≡ some w)
      × (w.status ≡ paid)
      × (pos w.paid_amount ≡ v.total_amount)
unfolding add_payment
add_payment-settles payment_id id n st {v = v} found still_open left =
    let st1 = order_payment v.sales_order_id payment_id n st in
    let w = record v { paid_amount = v.paid_amount + n; status = paid } in
    let exact : is_pos (pos n -ℤ balance_of v) ≡ false = rw left (nothing_over v.paid_amount n) in
    let done : status_after (v.paid_amount + n) v.total_amount ≡ paid =
      rw left (nothing_left (v.paid_amount + n)) in
    (
      record st1 { invoices = insert id w st1.invoices },
      w,
      simp (found, open-payable v.status still_open, exact, done),
      lookup-insert_self id w st1.invoices,
      refl,
      sym left,
    )
