-- ===== src/SalesInvoices/Posted.antt =====
-- What posting an invoice does, and that the ledger never stands in its way.
use werehouse.Prelude.{ℕ, ◌+◌, ◌<◌, ◌≡◌, ◌↔◌, refl, sym, true, false, not, some, arith}
use werehouse.Prelude.Int.{ℤ, pos, ◌+ℤ◌, ◌-ℤ◌, ◌*ℤ◌, *ℤ_parts, int_laws}
use werehouse.Prelude.Lists.{All}
use werehouse.Prelude.Table.{nat_eq, lookup, insert, lookup-insert_self, IsUnique}
use werehouse.Result.{ok, >>=-eq-ok, or_throw, or_throw-ok, throw_if, throw_if-ok, ok-injective}
use werehouse.Stock.{StockKey, stock_key_eq}
use werehouse.Stock.Effects.{on_hand}
use werehouse.Batches.{batch_key_eq}
use werehouse.Batches.Receipt.{round_div}
use werehouse.Ledger.{PostInput, sales_invoice, Books, post_within, is_empty}
use werehouse.Ledger.Balance.{net_of}
use werehouse.Ledger.Numbers.{AllShort}
use werehouse.Ledger.Posting.{post-total}
use werehouse.Ledger.Shapes.{sales_invoice_lines_iff}
use werehouse.SalesInvoices.{
  DocumentStatus, draft, posted, partially_paid, paid, cancelled, SalesInvoice, DeliveryNote,
  issued, InvoiceStore, is_draft, recalculated, assert_credit_limit,
}
use werehouse.SalesInvoices.Posting.{
  Shipment, ship_items, order_delivered, posted_invoice, post_ref, invoice_lines, post,
}
use werehouse.SalesInvoices.Shipped.{sold, noted, ship_items-Taken}

is_draft-draft : (x : DocumentStatus) → is_draft x ≡ true → x ≡ draft
is_draft-draft draft h = refl
is_draft-draft posted h = cc
is_draft-draft partially_paid h = cc
is_draft-draft paid h = cc
is_draft-draft cancelled h = cc

abbrev pub entry_of_post : ℕ → SalesInvoice → Shipment → PostInput
entry_of_post id v shipped = record {
  year = v.year;
  source_type = sales_invoice;
  source_ref = post_ref id;
  lines = invoice_lines (posted_invoice v shipped) shipped.cogs;
}

-- The store after a posting.
abbrev pub posted_store : ℕ → ℕ → SalesInvoice → Shipment → Books → InvoiceStore → InvoiceStore
posted_store note_id id v shipped books st = record st {
  lots = shipped.lots;
  books = books;
  orders = order_delivered v.sales_order_id st.orders;
  invoices = insert id (posted_invoice v shipped) st.invoices;
  notes =
      insert note_id (record { sales_invoice_id = id; status = issued; items = shipped.note_items })
        st.notes;
}

-- What a successful posting did.
pub record Posted (t note_id id : ℕ) (st st' : InvoiceStore) : Type 0 where
  pub invoice : SalesInvoice
  pub found : lookup id st.invoices ≡ some invoice
  pub was_draft : invoice.status ≡ draft
  pub credit : assert_credit_limit invoice.customer_id invoice.total_amount id st ≡ ok tt
  pub shipped : Shipment
  pub taken : ship_items t id st.lots invoice.items st.lots ≡ ok shipped
  pub books : Books
  pub stored : st' ≡ posted_store note_id id invoice shipped books st

pub post-Posted :
    (t note_id id : ℕ) (st : InvoiceStore) {st' : InvoiceStore}
    → post t note_id id st ≡ ok st'
    → Posted t note_id id st st'
unfolding post
post-Posted t note_id id st h =
    let (v, hv, h1) = >>=-eq-ok (or_throw (lookup id st.invoices) _) _ h in
    let (u, hu, h2) = >>=-eq-ok (throw_if (not (is_draft v.status)) _) _ h1 in
    let (w, hw, h3) = >>=-eq-ok (throw_if (is_empty v.items) _) _ h2 in
    let (c, hc, h4) = >>=-eq-ok (assert_credit_limit v.customer_id v.total_amount id st) _ h3 in
    let (r, hr, h5) = >>=-eq-ok (ship_items t id st.lots v.items st.lots) _ h4 in
    let (b, hb, h6) = >>=-eq-ok (post_within (entry_of_post id v r) st.books) _ h5 in
    record {
      invoice = v;
      found = or_throw-ok _ _ hv;
      was_draft = is_draft-draft v.status (ground (arith, throw_if-ok _ _ hu));
      credit = hc;
      shipped = r;
      taken = hr;
      books = b.1;
      stored = sym (ok-injective h6);
    }

scaled_total :
    (subtotal discount tax : ℕ)
    → 100 *ℤ (pos subtotal -ℤ pos discount +ℤ pos tax) +ℤ 100 *ℤ pos discount
      ≡ 100 *ℤ pos subtotal +ℤ 100 *ℤ pos tax
scaled_total subtotal discount tax = omega (
  int_laws,
  *ℤ_parts 100 (pos subtotal -ℤ pos discount +ℤ pos tax),
  *ℤ_parts 100 (pos discount),
  *ℤ_parts 100 (pos subtotal),
  *ℤ_parts 100 (pos tax),
)

-- The lines of a recalculated invoice balance, whatever the cost of the goods.
pub invoice_lines-balanced :
    (v : SalesInvoice) (cogs : ℤ) → net_of (invoice_lines (recalculated v) cogs) ≡ pos 0
unfolding invoice_lines recalculated
invoice_lines-balanced v cogs =
    let w = recalculated v in
    (sales_invoice_lines_iff (100 *ℤ w.total_amount) (100 *ℤ pos w.subtotal)
        (100 *ℤ pos w.discount_amount) (100 *ℤ pos w.tax_amount) cogs).1
      (scaled_total w.subtotal w.discount_amount w.tax_amount)

-- A draft with lines that passes the credit check is posted exactly when all its lines can be
-- shipped, as long as every number of the journal has its six digits: its journal lines always
-- balance, so that the ledger never refuses them.
pub post_iff :
    (t note_id id : ℕ) (st : InvoiceStore) {v : SalesInvoice}
    → lookup id st.invoices ≡ some v
    → v.status ≡ draft
    → is_empty v.items ≡ false
    → assert_credit_limit v.customer_id v.total_amount id st ≡ ok tt
    → AllShort st.books.entries
    → ((st' : InvoiceStore) × (post t note_id id st ≡ ok st'))
      ↔ ((r : Shipment) × (ship_items t id st.lots v.items st.lots ≡ ok r))
unfolding post
post_iff t note_id id st {v = v} found status some_lines credit short = (
  λ (st', h).
      let p = post-Posted t note_id id st h in
      let same : p.invoice ≡ v = cc (p.found, found) in (p.shipped, rw same at p.taken),
  λ (r, taken).
      let (b, written) = post-total (entry_of_post id v r) st.books short (
        invoice_lines-balanced
          (record v { status = posted; items = r.items; cogs_amount = round_div r.cogs (pos 100) })
          r.cogs) in
      (
        posted_store note_id id v r b.1 st,
        rw (found, status, some_lines, credit, taken, written) refl,
      ),
)

-- Posting an invoice whose lines are of a unit or more: it was a draft and is posted; at every key
-- the sum of its lines has left what is on hand; and the new delivery note is issued for the invoice
-- and names, at every key, the same units. The rows of the lots have different keys.
pub post_effect :
    (t note_id id : ℕ) (st : InvoiceStore) {st' : InvoiceStore} {v : SalesInvoice}
    → IsUnique st.lots.levels
    → lookup id st.invoices ≡ some v
    → All (λ i. 0 < i.quantity) v.items
    → post t note_id id st ≡ ok st'
    → (v.status ≡ draft)
      × ((w : SalesInvoice) × (lookup id st'.invoices ≡ some w) × (w.status ≡ posted))
      × ((j : StockKey)
          → on_hand (lookup j st'.lots.stock.levels) + sold t j v.items
            ≡ on_hand (lookup j st.lots.stock.levels))
      × ((n : DeliveryNote) × (lookup note_id st'.notes ≡ some n)
          × (n.sales_invoice_id ≡ id)
          × (n.status ≡ issued)
          × ((j : StockKey) → noted t j n.items ≡ sold t j v.items))
unfolding recalculated
post_effect t note_id id st {v = v} unique found positive h =
    let p = post-Posted t note_id id st h in
    let same : p.invoice ≡ v = cc (p.found, found) in
    let taken =
      ship_items-Taken t id st.lots v.items st.lots unique positive (rw same at p.taken) in
    rw p.stored (
      rw same at p.was_draft,
      (posted_invoice p.invoice p.shipped, lookup-insert_self id _ st.invoices, refl),
      taken.left,
      (
        record { sales_invoice_id = id; status = issued; items = p.shipped.note_items },
        lookup-insert_self note_id _ st.notes,
        refl,
        refl,
        taken.note,
      ),
    )
