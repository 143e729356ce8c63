-- ===== src/SalesInvoices/Reversed.antt =====
-- Cancelling a posted invoice gives back what its delivery notes say has left.
use werehouse.Prelude.{
  ℕ, ◌+◌, ◌<◌, ◌≡◌, refl, sym, ap, subst, ◌∙◌, Option, none, some, List, [], ◌∷◌, ◌++◌, inl, inr,
  arith,
}
use werehouse.Prelude.Tests.{nat_beq, nat_beq_iff, Bool-cases}
use werehouse.Prelude.Int.{ℤ, pos, ◌+ℤ◌, ◌*ℤ◌, int_laws, parts_of_eq}
use werehouse.Prelude.Lists.{All}
use werehouse.Prelude.Table.{
  Table, nat_eq, lookup, insert, lookup-insert_self, insert_absent, IsUnique,
}
use werehouse.Result.{ok}
use werehouse.Stock.{StockKey, stock_key_eq, product_key_eq}
use werehouse.Stock.Effects.{on_hand}
use werehouse.Stock.Receipts.{receive-total}
use werehouse.Batches.{BatchStore, batch_key_eq}
use werehouse.Batches.Receipt.{round_div}
use werehouse.Ledger.{
  LedgerLine, PostInput, sales_invoice, Books, PostResult, post_within, reverse_lines,
}
use werehouse.Ledger.Balance.{net_of}
use werehouse.Ledger.Numbers.{AllShort}
use werehouse.Ledger.Posting.{post-total}
use werehouse.SalesInvoices.{
  SalesInvoice, posted, cancelled, NoteItem, DeliveryNote, issued, InvoiceStore, recalculated,
}
use werehouse.SalesInvoices.Posting.{invoice_lines, reverse_ref, posted_invoice, post, Shipment}
use werehouse.SalesInvoices.Cancelling.{
  returned_lot, return_of, return_items, shipped_items, withdrawn_notes, cancelled_invoice,
  reverse_posted, cancel,
}
use werehouse.SalesInvoices.Shipped.{noted, IsStocked, same-IsStocked, Taken, ship_items-Taken}
use werehouse.SalesInvoices.Posted.{post-Posted, posted_store, invoice_lines-balanced}

lot-same_stock :
    (batch : Option ℕ) (location quantity : ℕ) (lots : BatchStore)
    → (returned_lot batch location quantity lots).stock ≡ lots.stock
lot-same_stock none location quantity lots = refl
lot-same_stock (some id) location quantity lots = refl

-- Note items of known products all come back.
return_items-total :
    (t id : ℕ) (items : List NoteItem) (lots : BatchStore)
    → All (IsStocked t lots.stock) items
    → (lots' : BatchStore) × (return_items t id items lots ≡ ok lots')
      × ((j : StockKey)
          → on_hand (lookup j lots'.stock.levels)
            ≡ on_hand (lookup j lots.stock.levels) + noted t j items)
unfolding return_items
return_items-total t id [] lots h = (lots, refl, λ j. omega arith)
return_items-total t id (n ∷ items) lots ((positive, (p, known)), rest) =
    let lots1 = returned_lot n.batch_id n.location n.quantity lots in
    let same = lot-same_stock n.batch_id n.location n.quantity lots in
    let (r, done, products, rows) =
      receive-total t n.quantity (return_of id n) lots.stock refl positive known in
    let next : BatchStore = record lots1 { stock = r.2 } in
    let (last, finished, others) =
      return_items-total t id items next
        (same-IsStocked t r.2 lots.stock items (sym products) rest) in
    (last, rw (same, done) finished, λ j. omega (arith, others j, rows j))

append-empty : (xs ys : List NoteItem) → xs ++ ys ≡ [] → (xs ≡ []) × (ys ≡ [])
append-empty [] ys h = (refl, h)
append-empty (x ∷ xs) ys h = cc

-- The only note of an invoice that had none.
shipped_items-append :
    (id : ℕ) (xs ys : Table ℕ DeliveryNote)
    → shipped_items id xs ≡ []
    → shipped_items id (xs ++ ys) ≡ shipped_items id ys
unfolding shipped_items
shipped_items-append id [] ys h = refl
shipped_items-append id ((k, n) ∷ xs) ys h = elim (Bool-cases (nat_beq n.sales_invoice_id id)) [
  | inl mine ↦
      let h' = rw mine at h in
      let (none_here, none_left) = append-empty n.items (shipped_items id xs) h' in
      rw (mine, none_here) (shipped_items-append id xs ys none_left)
  | inr other ↦ rw other (shipped_items-append id xs ys (rw other at h))
]

append_nil : (xs : List NoteItem) → xs ++ [] ≡ xs
append_nil [] = refl
append_nil (x ∷ xs) = ap (λ (ys : List NoteItem). x ∷ ys) (append_nil xs)

own_items :
    (id note_id : ℕ) (n : DeliveryNote)
    → n.sales_invoice_id ≡ id
    → shipped_items id ((note_id, n) ∷ []) ≡ n.items
unfolding shipped_items
own_items id note_id n mine = rw (mine, (nat_beq_iff id id).1 refl) (append_nil n.items)

shipped_items-insert :
    (id note_id : ℕ) (n : DeliveryNote) (notes : Table ℕ DeliveryNote)
    → lookup note_id notes ≡ none
    → shipped_items id notes ≡ []
    → n.sales_invoice_id ≡ id
    → shipped_items id (insert note_id n notes) ≡ n.items
shipped_items-insert id note_id n notes fresh without mine =
    ap (shipped_items id) (insert_absent note_id n notes fresh)
    ∙ shipped_items-append id notes ((note_id, n) ∷ []) without
    ∙ own_items id note_id n mine

net-reverse_lines : (lines : List LedgerLine) → net_of lines +ℤ net_of (reverse_lines lines) ≡ pos 0
unfolding reverse_lines
net-reverse_lines [] = omega int_laws
net-reverse_lines (l ∷ lines) = omega (int_laws, parts_of_eq (net-reverse_lines lines))

reversed-balanced :
    (v : SalesInvoice) (cogs : ℤ)
    → net_of (reverse_lines (invoice_lines (recalculated v) cogs)) ≡ pos 0
reversed-balanced v cogs = omega (
  int_laws,
  parts_of_eq (net-reverse_lines (invoice_lines (recalculated v) cogs)),
  parts_of_eq (invoice_lines-balanced v cogs),
)

abbrev entry_of_reversal : ℕ → ℕ → SalesInvoice → PostInput
entry_of_reversal year id v = record {
  year = year;
  source_type = sales_invoice;
  source_ref = reverse_ref id;
  lines = reverse_lines (invoice_lines v (100 *ℤ v.cogs_amount));
}

-- A posted invoice without payments is cancelled once its goods are back and the ledger took the
-- entry.
cancel-of_return :
    (t year id : ℕ) (st : InvoiceStore) {v : SalesInvoice} {lots : BatchStore}
    {b : PostResult × Books}
    → lookup id st.invoices ≡ some v
    → v.status ≡ posted
    → v.paid_amount ≡ 0
    → return_items t id (shipped_items id st.notes) st.lots ≡ ok lots
    → post_within (entry_of_reversal year id v) st.books ≡ ok b
    → cancel t year id st
      ≡ ok (
          cancelled_invoice id v
            (record st { lots = lots; books = b.1; notes = withdrawn_notes id st.notes }))
unfolding cancel reverse_posted
cancel-of_return t year id st found status unpaid returned written =
    simp (found, status, unpaid, returned, written)

-- The cancelling of what a posting has stored.
abbrev Undone : ℕ → ℕ → ℕ → InvoiceStore → InvoiceStore → Type 0
Undone t year id before st =
    (st' : InvoiceStore) × (cancel t year id st ≡ ok st')
    × ((j : StockKey)
        → on_hand (lookup j st'.lots.stock.levels) ≡ on_hand (lookup j before.lots.stock.levels))
    × ((w : SalesInvoice) × (lookup id st'.invoices ≡ some w) × (w.status ≡ cancelled))

cancel-posted_store :
    (t note_id year id : ℕ) (st : InvoiceStore) (v : SalesInvoice) (r : Shipment) (books : Books)
    → v.paid_amount ≡ 0
    → lookup note_id st.notes ≡ none
    → shipped_items id st.notes ≡ []
    → Taken t v.items st.lots r
    → AllShort books.entries
    → Undone t year id st (posted_store note_id id v r books st)
unfolding recalculated
cancel-posted_store t note_id year id st v r books unpaid fresh without taken short =
    let st1 = posted_store note_id id v r books st in
    let w = posted_invoice v r in
    let note : DeliveryNote = record {
      sales_invoice_id = id;
      status = issued;
      items = r.note_items;
    } in
    let shipped : shipped_items id st1.notes ≡ r.note_items =
      shipped_items-insert id note_id note st.notes fresh without refl in
    let (lots, returned, rows) = return_items-total t id r.note_items r.lots (
      same-IsStocked t r.lots.stock st.lots.stock r.note_items (sym taken.products)
        taken.stocked) in
    let (b, written) = post-total (entry_of_reversal year id w) books short (
      reversed-balanced
        (record v { status = posted; items = r.items; cogs_amount = round_div r.cogs (pos 100) })
        (100 *ℤ w.cogs_amount)) in
    (
      cancelled_invoice id w
          (record st1 { lots = lots; books = b.1; notes = withdrawn_notes id st1.notes }),
      cancel-of_return t year id st1 (lookup-insert_self id w st.invoices) refl unpaid
          (ap (λ x. return_items t id x r.lots) shipped ∙ returned) written,
      λ j. omega (arith, rows j, taken.left j, taken.note j),
      (record w { status = cancelled }, lookup-insert_self id _ st1.invoices, refl),
    )

-- An unpaid draft whose lines are of a unit or more, and for which no note and no row under the new
-- note's id is there, is posted and then cancelled: the cancelling succeeds, every on-hand quantity
-- is what it was before the posting, and the invoice is cancelled. The rows of the lots have
-- different keys, and every number of the journal has its six digits.
pub cancel-post :
    (t note_id year id : ℕ) (st : InvoiceStore) {st' : InvoiceStore} {v : SalesInvoice}
    → IsUnique st.lots.levels
    → lookup id st.invoices ≡ some v
    → v.paid_amount ≡ 0
    → All (λ i. 0 < i.quantity) v.items
    → lookup note_id st.notes ≡ none
    → shipped_items id st.notes ≡ []
    → post t note_id id st ≡ ok st'
    → AllShort st'.books.entries
    → (st'' : InvoiceStore) × (cancel t year id st' ≡ ok st'')
      × ((j : StockKey)
          → on_hand (lookup j st''.lots.stock.levels) ≡ on_hand (lookup j st.lots.stock.levels))
      × ((w : SalesInvoice) × (lookup id st''.invoices ≡ some w) × (w.status ≡ cancelled))
cancel-post t note_id year id st {v = v} unique found unpaid positive fresh without h short =
    let p = post-Posted t note_id id st h in
    let same : p.invoice ≡ v = cc (p.found, found) in
    let v' = p.invoice in
    let taken = ship_items-Taken t id st.lots v'.items st.lots unique (rw same positive) p.taken in
    subst (Undone t year id st) (sym p.stored) (
      cancel-posted_store t note_id year id st v' p.shipped p.books
        (ap (λ x. x.paid_amount) same ∙ unpaid) fresh without taken
        (subst (λ (x : InvoiceStore). AllShort x.books.entries) p.stored short))
