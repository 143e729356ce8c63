-- ===== src/SalesInvoices/Cancelling.antt =====
-- Cancelling a sales invoice: what its delivery notes say has left comes back, and the ledger gets
-- the reversed entry.
use werehouse.Prelude.{ℕ, ◌+◌, Option, none, some, List, [], ◌∷◌, ◌++◌}
use werehouse.Prelude.Tests.{ltb, nat_beq, if◌then◌else◌}
use werehouse.Prelude.Int.{pos, ◌+ℤ◌, ◌*ℤ◌}
use werehouse.Prelude.Table.{Table, nat_eq, lookup, insert}
use werehouse.Result.{
  Result, ok, not_found, conflict, ◌>>=◌, ◌>>◌, or_throw, throw_if, invoice_missing,
  invoice_cancelled, invoice_paid,
}
use werehouse.Stock.{Level, StockChange, apply_stock_change_within}
use werehouse.Batches.{Batch, BatchKey, batch_key_eq, BatchStore}
use werehouse.Ledger.{sales_invoice, post_within, reverse_lines}
use werehouse.SalesInvoices.{
  SalesInvoice, cancelled, NoteItem, DeliveryNote, withdrawn, InvoiceStore, is_draft, is_cancelled,
}
use werehouse.SalesInvoices.Posting.{invoice_lines, reverse_ref}

-- The unguarded increments of a batch and of its row, where they are there.
abbrev pub returned_batch : ℕ → ℕ → Table ℕ Batch → Table ℕ Batch
returned_batch id quantity batches = elim (lookup id batches) [
  | none ↦ batches
  | some b ↦ insert id (record b { quantity = b.quantity +ℤ pos quantity }) batches
]

abbrev pub returned_level : BatchKey → ℕ → Table BatchKey Level → Table BatchKey Level
returned_level k quantity levels = elim (lookup k levels) [
  | none ↦ levels
  | some l ↦
      insert k (record l { quantity = l.quantity + quantity; available = l.available + quantity })
        levels
]

abbrev pub returned_lot : Option ℕ → ℕ → ℕ → BatchStore → BatchStore
returned_lot none location quantity lots = lots
returned_lot (some id) location quantity lots = record lots {
  batches = returned_batch id quantity lots.batches;
  levels = returned_level (record { batch_id = id; location = location }) quantity lots.levels;
}

abbrev pub return_of : ℕ → NoteItem → StockChange
return_of id n = record {
  sku = n.sku;
  location = n.location;
  change = some (pos n.quantity);
  type = none;
  reference_id = some id;
}

unfoldable pub return_items : ℕ → ℕ → List NoteItem → BatchStore → Result BatchStore
return_items t id [] lots = ok lots
return_items t id (n ∷ items) lots =
    let lots' = returned_lot n.batch_id n.location n.quantity lots in
    apply_stock_change_within (some t) (return_of id n) lots'.stock >>= λ applied.
    return_items t id items (record lots' { stock = applied.2 })

-- `invoice.deliveryNotes.flatMap((note) => note.items)`
unfoldable pub shipped_items : ℕ → Table ℕ DeliveryNote → List NoteItem
shipped_items id [] = []
shipped_items id ((k, n) ∷ rest) =
    let others = shipped_items id rest in
    if nat_beq n.sales_invoice_id id then n.items ++ others else others

unfoldable pub withdrawn_notes : ℕ → Table ℕ DeliveryNote → Table ℕ DeliveryNote
withdrawn_notes id [] = []
withdrawn_notes id ((k, n) ∷ rest) =
    let others = withdrawn_notes id rest in
    (k, if nat_beq n.sales_invoice_id id then record n { status = withdrawn } else n) ∷ others

abbrev pub cancelled_invoice : ℕ → SalesInvoice → InvoiceStore → InvoiceStore
cancelled_invoice id v st = record st {
  invoices = insert id (record v { status = cancelled }) st.invoices;
}

-- The goods come back and the ledger gets the reversed lines, in one transaction.
unfoldable pub reverse_posted : ℕ → ℕ → ℕ → SalesInvoice → InvoiceStore → Result InvoiceStore
unfolding return_items shipped_items withdrawn_notes
reverse_posted t year id v st = do
  throw_if (ltb 0 v.paid_amount) (conflict invoice_paid)
  lots ← return_items t id (shipped_items id st.notes) st.lots
  written ←
      post_within
        (record {
          year = year;
          source_type = sales_invoice;
          source_ref = reverse_ref id;
          lines = reverse_lines (invoice_lines v (100 *ℤ v.cogs_amount));
        })
        st.books
  ok (
      cancelled_invoice id v
        (record st { lots = lots; books = written.1; notes = withdrawn_notes id st.notes }))

-- `year` is the current one.
unfoldable pub cancel : ℕ → ℕ → ℕ → InvoiceStore → Result InvoiceStore
unfolding reverse_posted
cancel t year id st = do
  v ← or_throw (lookup id st.invoices) (not_found invoice_missing)
  throw_if (is_cancelled v.status) (conflict invoice_cancelled)
  if is_draft v.status then ok (cancelled_invoice id v st) else reverse_posted t year id v st
