-- ===== src/SalesInvoices/Settling.antt =====
-- The totals, the paid amounts and the statuses of invoices through their whole life.
use werehouse.Prelude.{
  ℕ, ◌+◌, ◌<◌, ◌≡◌, refl, sym, ap, ◌∙◌, Bool, true, false, not, ◌&&◌, ◌||◌, Option, none, some,
  List, inl, inr, arith,
}
use werehouse.Prelude.Tests.{ltb, nat_beq, Bool-cases}
use werehouse.Prelude.Int.{ℤ, pos, is_pos, ◌-ℤ◌}
use werehouse.Prelude.Table.{nat_eq, lookup, insert}
use werehouse.Prelude.Rows.{AllRows, insert-AllRows, lookup-AllRows, remove-AllRows}
use werehouse.Result.{ok, >>=-eq-ok, or_throw, or_throw-ok, throw_if, throw_if-ok, ok-injective}
use werehouse.Batches.Receipt.{round_div}
use werehouse.Ledger.{post_within}
use werehouse.Pricing.{PricingStore}
use werehouse.Pricing.Engine.{quote}
use werehouse.SalesInvoices.{
  DocumentStatus, draft, posted, partially_paid, paid, cancelled, SalesInvoice, InvoiceStore,
  is_draft, is_cancelled, recalculated, require_draft, balance_of, payable, status_after,
  order_payment, add_payment, is_withdrawn, mark_delivered,
}
use werehouse.SalesInvoices.Drafts.{
  InvoiceLineDto, CreateSalesInvoiceDto, propose_all, drafted_items, drafted_invoice, redrafted,
  create, update, redated, remove_draft,
}
use werehouse.SalesInvoices.Posting.{post}
use werehouse.SalesInvoices.Cancelling.{return_items, shipped_items, reverse_posted, cancel}
use werehouse.SalesInvoices.Posted.{post-Posted}

-- Which paid amounts belong to a status: nothing before posting and on a cancelled invoice, part of
-- the total on a partially paid one, the total on a paid one.
unfoldable pub amounts_fit : DocumentStatus → ℕ → ℤ → Bool
amounts_fit draft paid_amount total = nat_beq paid_amount 0
amounts_fit posted paid_amount total = nat_beq paid_amount 0
amounts_fit cancelled paid_amount total = nat_beq paid_amount 0
amounts_fit partially_paid paid_amount total =
    ltb 0 paid_amount && is_pos (total -ℤ pos paid_amount)
amounts_fit paid paid_amount total =
    ltb 0 paid_amount
    && not (is_pos (total -ℤ pos paid_amount))
    && not (is_pos (pos paid_amount -ℤ total))

-- The totals of an invoice are those of its lines, and what is paid fits its status.
pub record IsSound (v : SalesInvoice) : Type 0 where
  pub totalled : recalculated v ≡ v
  pub settled : amounts_fit v.status v.paid_amount v.total_amount ≡ true

-- A call of the service that succeeded.
pub data Step (t : ℕ) : InvoiceStore → InvoiceStore → Type 0 where
  creates :
      {st st' : InvoiceStore} (today id : ℕ) (pricing : PricingStore) (dto : CreateSalesInvoiceDto)
      → create t today id pricing dto st ≡ ok st'
      → Step t st st'
  updates :
      {st st' : InvoiceStore} (today id : ℕ) (pricing : PricingStore) (year : Option ℕ)
      (items : Option (List InvoiceLineDto))
      → update today id pricing year items st ≡ ok st'
      → Step t st st'
  removes : {st st' : InvoiceStore} (id : ℕ) → remove_draft id st ≡ ok st' → Step t st st'
  posts : {st st' : InvoiceStore} (note_id id : ℕ) → post t note_id id st ≡ ok st' → Step t st st'
  cancels : {st st' : InvoiceStore} (year id : ℕ) → cancel t year id st ≡ ok st' → Step t st st'
  pays :
      {st st' : InvoiceStore} (payment_id id amount : ℕ)
      → 0 < amount
      → add_payment payment_id id amount st ≡ ok st'
      → Step t st st'
  delivers : {st st' : InvoiceStore} (id : ℕ) → mark_delivered id st ≡ ok st' → Step t st st'

abbrev pub AllSound : InvoiceStore → Type 0
AllSound st = AllRows IsSound st.invoices

require_draft-ok :
    (id : ℕ) (st : InvoiceStore) {v : SalesInvoice}
    → require_draft id st ≡ ok v
    → (lookup id st.invoices ≡ some v) × (is_draft v.status ≡ true)
unfolding require_draft
require_draft-ok id st h =
    let (v, hv, h1) = >>=-eq-ok (or_throw (lookup id st.invoices) _) _ h in
    let (u, hu, h2) = >>=-eq-ok (throw_if (not (is_draft v.status)) _) _ h1 in
    let drafted : is_draft v.status ≡ true = ground (arith, throw_if-ok _ _ hu) in
    rw (sym (ok-injective h2)) (or_throw-ok _ _ hv, drafted)

draft-unpaid :
    (x : DocumentStatus) (n : ℕ) (total : ℤ)
    → is_draft x ≡ true
    → amounts_fit x n total ≡ true
    → n ≡ 0
unfolding amounts_fit
draft-unpaid x n total h k = ground arith

-- What a payment does to the amounts.
paid-fits :
    (x : DocumentStatus) (n amount : ℕ) (total : ℤ) {u : Unit}
    → 0 < amount
    → payable x ≡ ok u
    → is_pos (pos amount -ℤ (total -ℤ pos n)) ≡ false
    → amounts_fit (status_after (n + amount) total) (n + amount) total ≡ true
unfolding amounts_fit ◌-ℤ◌
paid-fits x n amount total positive allowed within = ground arith

abbrev is_posted : DocumentStatus → Bool
is_posted posted = true
is_posted _ = false

draft_fits : (x : DocumentStatus) → is_draft x ≡ true → amounts_fit x 0 (pos 0) ≡ true
unfolding amounts_fit
draft_fits x h = ground arith

cancelled-IsSound :
    (v : SalesInvoice) → v.paid_amount ≡ 0 → IsSound v → IsSound (record v { status = cancelled })
unfolding amounts_fit recalculated
cancelled-IsSound v unpaid h = record {
  totalled = ap (λ (x : SalesInvoice). record x { status = cancelled }) h.totalled;
  settled = rw unpaid refl;
}

-- A recalculated invoice with nothing paid, in a status that expects this.
fresh-IsSound :
    (v : SalesInvoice)
    → amounts_fit v.status 0 (pos 0) ≡ true
    → v.paid_amount ≡ 0
    → is_draft v.status || is_posted v.status ≡ true
    → IsSound (recalculated v)
unfolding recalculated amounts_fit
fresh-IsSound v fits unpaid kind = record { totalled = refl; settled = ground arith }

redrafted-unpaid :
    (today : ℕ) (pricing : PricingStore) (items : Option (List InvoiceLineDto)) (v : SalesInvoice)
    {w : SalesInvoice}
    → redrafted today pricing items v ≡ ok w
    → (w.status ≡ v.status) × (w.paid_amount ≡ v.paid_amount)
unfolding redrafted
redrafted-unpaid today pricing none v h = rw (sym (ok-injective h)) (refl, refl)
redrafted-unpaid today pricing (some items) v h =
    let (q, hq, h1) = >>=-eq-ok (quote today _ pricing) _ h in
    rw (sym (ok-injective h1)) (refl, refl)

reversed-row :
    (t year id : ℕ) (v : SalesInvoice) (st : InvoiceStore) {st' : InvoiceStore}
    → reverse_posted t year id v st ≡ ok st'
    → (v.paid_amount ≡ 0) × (st'.invoices ≡ insert id (record v { status = cancelled }) st.invoices)
unfolding reverse_posted
reversed-row t year id v st h =
    let (u, hu, h1) = >>=-eq-ok (throw_if (ltb 0 v.paid_amount) _) _ h in
    let (lots, hl, h2) = >>=-eq-ok (return_items t id (shipped_items id st.notes) st.lots) _ h1 in
    let (b, hb, h3) = >>=-eq-ok (post_within _ st.books) _ h2 in
    (
      ground (arith, throw_if-ok _ _ hu),
      sym (ap (λ (x : InvoiceStore). x.invoices) (ok-injective h3)),
    )

cancelled-row :
    (t year id : ℕ) (st : InvoiceStore) {st' : InvoiceStore}
    → AllSound st
    → cancel t year id st ≡ ok st'
    → (v : SalesInvoice) × (lookup id st.invoices ≡ some v)
      × (v.paid_amount ≡ 0)
      × (st'.invoices ≡ insert id (record v { status = cancelled }) st.invoices)
unfolding cancel
cancelled-row t year id st sound h =
    let (v, hv, h1) = >>=-eq-ok (or_throw (lookup id st.invoices) _) _ h in
    let (u, hu, h2) = >>=-eq-ok (throw_if (is_cancelled v.status) _) _ h1 in
    let found = or_throw-ok _ _ hv in
    let row = lookup-AllRows IsSound id st.invoices sound found in
    elim (Bool-cases (is_draft v.status)) [
      | inl drafted ↦ (
        v,
        found,
        draft-unpaid v.status v.paid_amount v.total_amount drafted row.settled,
        sym (ap (λ (x : InvoiceStore). x.invoices) (ok-injective (rw drafted at h2))),
      )
      | inr other ↦
          let (unpaid, stored) = reversed-row t year id v st (rw other at h2) in
          (v, found, unpaid, stored)
    ]

order_payment-invoices :
    (order : Option ℕ) (payment_id amount : ℕ) (st : InvoiceStore)
    → (order_payment order payment_id amount st).invoices ≡ st.invoices
order_payment-invoices none payment_id amount st = refl
order_payment-invoices (some o) payment_id amount st = refl

paid-IsSound :
    (v : SalesInvoice) (amount : ℕ) {u : Unit}
    → 0 < amount
    → payable v.status ≡ ok u
    → is_pos (pos amount -ℤ balance_of v) ≡ false
    → IsSound v
    → IsSound (record v {
      paid_amount = v.paid_amount + amount;
      status = status_after (v.paid_amount + amount) v.total_amount;
    })
unfolding recalculated
paid-IsSound v amount positive allowed within h = record {
  totalled =
      ap
        (λ (x : SalesInvoice). record x {
          paid_amount = v.paid_amount + amount;
          status = status_after (v.paid_amount + amount) v.total_amount;
        })
        h.totalled;
  settled = paid-fits v.status v.paid_amount amount v.total_amount positive allowed within;
}

-- Every call of the service keeps every invoice sound: its totals are the sums over its lines; a
-- draft, a posted and a cancelled invoice have nothing paid, a partially paid one has paid some but
-- less than the total, and a paid one exactly the total. Payments are of a positive amount.
pub Step-AllSound : (t : ℕ) {st st' : InvoiceStore} → Step t st st' → AllSound st → AllSound st'
unfolding create update remove_draft add_payment mark_delivered amounts_fit
Step-AllSound t {st = st} (creates today id pricing dto done) h =
    let (c, hc, h1) = >>=-eq-ok (or_throw (lookup dto.customer_id st.credit_limits) _) _ done in
    let (q, hq, h2) = >>=-eq-ok (quote today _ pricing) _ h1 in
    let (ps, hp, h3) = >>=-eq-ok (propose_all t st.lots dto.items) _ h2 in
    rw (sym (ok-injective h3)) (
      insert-AllRows IsSound id _ st.invoices h (
        fresh-IsSound (drafted_invoice dto q.price_tier (drafted_items dto.items q.lines ps)) refl
          refl refl))
Step-AllSound t {st = st} (updates today id pricing year items done) h =
    let (v, hv, h1) = >>=-eq-ok (require_draft id st) _ done in
    let (w, hw, h2) = >>=-eq-ok (redrafted today pricing items (redated year v)) _ h1 in
    let (found, drafted) = require_draft-ok id st hv in
    let (status, amount) = redrafted-unpaid today pricing items (redated year v) hw in
    let row = lookup-AllRows IsSound id st.invoices h found in
    let unpaid = draft-unpaid v.status v.paid_amount v.total_amount drafted row.settled in
    rw (sym (ok-injective h2)) (
      insert-AllRows IsSound id _ st.invoices h (
        fresh-IsSound w (draft_fits w.status (ap is_draft status ∙ drafted)) (amount ∙ unpaid)
          (rw (ap is_draft status ∙ drafted) refl)))
Step-AllSound t {st = st} (removes id done) h =
    let (v, hv, h1) = >>=-eq-ok (require_draft id st) _ done in
    rw (sym (ok-injective h1)) (remove-AllRows IsSound id st.invoices h)
Step-AllSound t {st = st} (posts note_id id done) h =
    let p = post-Posted t note_id id st done in
    let v = p.invoice in
    let row = lookup-AllRows IsSound id st.invoices h p.found in
    let unpaid =
      draft-unpaid v.status v.paid_amount v.total_amount (ap is_draft p.was_draft) row.settled in
    rw p.stored (
      insert-AllRows IsSound id _ st.invoices h (
        fresh-IsSound
          (record v {
            status = posted;
            items = p.shipped.items;
            cogs_amount = round_div p.shipped.cogs (pos 100);
          })
          refl unpaid refl))
Step-AllSound t {st = st} (cancels year id done) h =
    let (v, found, unpaid, stored) = cancelled-row t year id st h done in
    let row = lookup-AllRows IsSound id st.invoices h found in
    rw stored (insert-AllRows IsSound id _ st.invoices h (cancelled-IsSound v unpaid row))
Step-AllSound t {st = st} (pays payment_id id amount positive done) h =
    let (v, hv, h1) = >>=-eq-ok (or_throw (lookup id st.invoices) _) _ done in
    let (u, hu, h2) = >>=-eq-ok (payable v.status) _ h1 in
    let (w, hw, h3) = >>=-eq-ok (throw_if (is_pos (pos amount -ℤ balance_of v)) _) _ h2 in
    let row = lookup-AllRows IsSound id st.invoices h (or_throw-ok _ _ hv) in
    rw (sym (ok-injective h3), order_payment-invoices v.sales_order_id payment_id amount st)
      (insert-AllRows IsSound id _ st.invoices h
        (paid-IsSound v amount positive hu (throw_if-ok _ _ hw) row))
Step-AllSound t {st = st} (delivers id done) h =
    let (n, hn, h1) = >>=-eq-ok (or_throw (lookup id st.notes) _) _ done in
    let (u, hu, h2) = >>=-eq-ok (throw_if (is_withdrawn n.status) _) _ h1 in
    rw (sym (ok-injective h2)) h
