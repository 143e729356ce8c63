-- ===== src/PurchaseInvoices/Upkeep.antt =====
-- The calls of the service, all but the cancellation, keep the headers derived.
use werehouse.Prelude.{ℕ, ◌≡◌, sym, ap, ◌∙◌, not, Option, List, [], ◌∷◌, map}
use werehouse.Prelude.Int.{pos, is_pos, ◌-ℤ◌}
use werehouse.Prelude.Table.{nat_eq, lookup, insert, remove}
use werehouse.Prelude.Rows.{AllRows, insert-AllRows, remove-AllRows}
use werehouse.Result.{ok, >>=-eq-ok, or_throw, throw_if, ok-injective}
use werehouse.Costing.{AllocationMethod}
use werehouse.Ledger.{post_within, is_empty}
use werehouse.SalesInvoices.{posted, is_draft, payable}
use werehouse.PurchaseInvoices.{
  PurchaseItem, PurchaseInvoice, PurchaseStore, CreatePurchaseInvoiceDto,
}
use werehouse.PurchaseInvoices.Drafts.{
  UpdatePurchaseInvoiceDto, require_draft, products_exist, assert_rate_provided, already_recorded,
  drafted_invoice, recheck_rate, redrafted, redated, new_cost, create, update, remove_draft,
  add_landed_cost, remove_landed_cost, add_payment,
}
use werehouse.PurchaseInvoices.Posting.{
  allocate_landed_costs, costed_item, revalued, arrive, receive_items, posted_invoice, post,
}
use werehouse.PurchaseInvoices.Derived.{IsDerived, recalculated-IsDerived}

-- A call of the service that succeeded; the cancellation is not modelled.
pub data Step (t : ℕ) : PurchaseStore → PurchaseStore → Type 0 where
  creates :
      {st st' : PurchaseStore} (id : ℕ) (dto : CreatePurchaseInvoiceDto)
      → create t id dto st ≡ ok st'
      → Step t st st'
  edits :
      {st st' : PurchaseStore} (id : ℕ) (dto : UpdatePurchaseInvoiceDto)
      → update t id dto st ≡ ok st'
      → Step t st st'
  removes : {st st' : PurchaseStore} (id : ℕ) → remove_draft id st ≡ ok st' → Step t st st'
  lands :
      {st st' : PurchaseStore} (id cost_id amount : ℕ) (method : Option AllocationMethod)
      → add_landed_cost id cost_id amount method st ≡ ok st'
      → Step t st st'
  unlands :
      {st st' : PurchaseStore} (id cost_id : ℕ)
      → remove_landed_cost id cost_id st ≡ ok st'
      → Step t st st'
  pays :
      {st st' : PurchaseStore} (id amount : ℕ) → add_payment id amount st ≡ ok st' → Step t st st'
  posts :
      {st st' : PurchaseStore} (auto : ℕ → ℕ → ℕ) (new_batch : ℕ → ℕ) (id now : ℕ)
      → post auto new_batch t id now st ≡ ok st'
      → Step t st st'

receive_items-invoices :
    (auto : ℕ → ℕ → ℕ) (new_batch : ℕ → ℕ) (t id now : ℕ) (v : PurchaseInvoice)
    (items : List PurchaseItem) (st : PurchaseStore) {st' : PurchaseStore}
    → receive_items auto new_batch t id now v items st ≡ ok st'
    → st'.invoices ≡ st.invoices
unfolding receive_items
receive_items-invoices auto new_batch t id now v [] st h =
    ap (λ (x : PurchaseStore). x.invoices) (sym (ok-injective h))
receive_items-invoices auto new_batch t id now v (i ∷ items) st h =
    let (lots, hl, h1) =
      >>=-eq-ok (arrive auto t id (new_batch i.id) now v i (revalued t i st).lots) _ h in
    receive_items-invoices auto new_batch t id now v items _ h1

-- What a posting stored.
posted-row :
    (auto : ℕ → ℕ → ℕ) (new_batch : ℕ → ℕ) (t id now : ℕ) (st : PurchaseStore) {st' : PurchaseStore}
    → post auto new_batch t id now st ≡ ok st'
    → (v : PurchaseInvoice) × (st'.invoices
        ≡ insert id (posted_invoice (allocate_landed_costs st.weights v) v) st.invoices)
unfolding post
posted-row auto new_batch t id now st h =
    let (w, hw, h1) = >>=-eq-ok (or_throw (lookup id st.invoices) _) _ h in
    let (u, hu, h2) = >>=-eq-ok (throw_if (not (is_draft w.status)) _) _ h1 in
    let (x, hx, h3) = >>=-eq-ok (throw_if (is_empty w.items) _) _ h2 in
    let shares = allocate_landed_costs st.weights w in
    let (st1, hs, h4) =
      >>=-eq-ok (receive_items auto new_batch t id now w (map (costed_item shares) w.items) st) _
        h3 in
    let (b, hb, h5) = >>=-eq-ok (post_within _ st1.books) _ h4 in
    let kept =
      receive_items-invoices auto new_batch t id now w (map (costed_item shares) w.items) st hs in
    (
      w,
      ap (λ (y : PurchaseStore). y.invoices) (sym (ok-injective h5))
          ∙ ap (insert id (posted_invoice shares w)) kept,
    )

-- Every call but the cancellation keeps every header derived: the discount, the tax, the landed costs
-- and the paid amount are the sums over the lines, the costs and the payments, the subtotal and the
-- total are within half a hundredth of the exact ones, and a posted invoice has no payment, a paid one
-- payments that reach its positive total, a partially paid one some but not these.
pub Step-AllDerived :
    (t : ℕ) {st st' : PurchaseStore}
    → Step t st st'
    → AllRows IsDerived st.invoices
    → AllRows IsDerived st'.invoices
unfolding create update remove_draft add_landed_cost remove_landed_cost add_payment
Step-AllDerived t {st = st} (creates id dto done) h =
    let (x, hx, h1) = >>=-eq-ok (or_throw (lookup dto.supplier_id st.suppliers) _) _ done in
    let (y, hy, h2) =
      >>=-eq-ok
        (throw_if (already_recorded dto.supplier_id dto.supplier_invoice_number st.invoices) _) _
        h1 in
    let (z, hz, h3) =
      >>=-eq-ok (throw_if (not (products_exist t dto.items st.lots.stock)) _) _ h2 in
    let (w, hw, h4) =
      >>=-eq-ok (assert_rate_provided dto.currency dto.exchange_rate dto.exchange_rate_date) _ h3 in
    rw (sym (ok-injective h4))
      (insert-AllRows IsDerived id _ st.invoices h (recalculated-IsDerived (drafted_invoice dto)))
Step-AllDerived t {st = st} (edits id dto done) h =
    let (v, hv, h1) = >>=-eq-ok (require_draft id st) _ done in
    let (x, hx, h2) = >>=-eq-ok (recheck_rate dto v) _ h1 in
    let (w, hw, h3) = >>=-eq-ok (redrafted t st.lots.stock dto.items (redated dto v)) _ h2 in
    rw (sym (ok-injective h3))
      (insert-AllRows IsDerived id _ st.invoices h (recalculated-IsDerived w))
Step-AllDerived t {st = st} (removes id done) h =
    let (v, hv, h1) = >>=-eq-ok (require_draft id st) _ done in
    rw (sym (ok-injective h1)) (remove-AllRows IsDerived id st.invoices h)
Step-AllDerived t {st = st} (lands id cost_id amount method done) h =
    let (v, hv, h1) = >>=-eq-ok (require_draft id st) _ done in
    rw (sym (ok-injective h1)) (
      insert-AllRows IsDerived id _ st.invoices h (
        recalculated-IsDerived
          (record v { landed_costs = insert cost_id (new_cost amount method) v.landed_costs })))
Step-AllDerived t {st = st} (unlands id cost_id done) h =
    let (v, hv, h1) = >>=-eq-ok (require_draft id st) _ done in
    rw (sym (ok-injective h1)) (
      insert-AllRows IsDerived id _ st.invoices h
        (recalculated-IsDerived (record v { landed_costs = remove cost_id v.landed_costs })))
Step-AllDerived t {st = st} (pays id amount done) h =
    let (v, hv, h1) = >>=-eq-ok (or_throw (lookup id st.invoices) _) _ done in
    let (u, hu, h2) = >>=-eq-ok (payable v.status) _ h1 in
    let (w, hw, h3) =
      >>=-eq-ok (throw_if (is_pos (pos amount -ℤ (v.total_amount -ℤ pos v.paid_amount))) _) _ h2 in
    rw (sym (ok-injective h3)) (
      insert-AllRows IsDerived id _ st.invoices h
        (recalculated-IsDerived (record v { payments = amount ∷ v.payments })))
Step-AllDerived t {st = st} (posts auto new_batch id now done) h =
    let (v, stored) = posted-row auto new_batch t id now st done in
    rw stored (
      insert-AllRows IsDerived id _ st.invoices h (
        recalculated-IsDerived (record v {
          status = posted;
          items = map (costed_item (allocate_landed_costs st.weights v)) v.items;
        })))
