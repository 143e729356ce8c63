-- ===== src/SalesInvoices/Amounts.antt =====
-- Shipping changes the costs and the batches of an invoice's lines, and not its totals.
use werehouse.Prelude.{ℕ, ◌+◌, ◌≡◌, refl, sym, ap, ◌∙◌, List, [], ◌∷◌, ◌++◌, some, inl, inr, arith}
use werehouse.Prelude.Tests.{ltb, Bool-cases}
use werehouse.Prelude.Int.{pos, ◌+ℤ◌, ◌-ℤ◌}
use werehouse.Prelude.Lists.{sum_by}
use werehouse.Prelude.Table.{lookup}
use werehouse.Result.{ok, >>=-eq-ok, or_throw, throw_if, ok-injective}
use werehouse.Stock.{Product, product_key_eq, apply_stock_change_within}
use werehouse.Batches.{BatchStore, fefo, allocate, consume_within}
use werehouse.SalesInvoices.{InvoiceItem, SalesInvoice, line_value, recalculated}
use werehouse.SalesInvoices.Posting.{
  Shipment, sale_of, ship_tracked, ship_untracked, ship_item, ship_items, posted_invoice,
}

-- The three sums that make the totals.
abbrev Amounts : Type 0
Amounts = ℕ × ℕ × ℕ

abbrev amounts_of : List InvoiceItem → Amounts
amounts_of items = (
  sum_by line_value items,
  sum_by (λ (i : InvoiceItem). i.discount_amount) items,
  sum_by (λ (i : InvoiceItem). i.tax_amount) items,
)

abbrev added : Amounts → Amounts → Amounts
added a b = (a.0 + b.0, a.1 + b.1, a.2 + b.2)

amounts-append :
    (xs ys : List InvoiceItem) → amounts_of (xs ++ ys) ≡ added (amounts_of xs) (amounts_of ys)
amounts-append [] ys = ground arith
amounts-append (x ∷ xs) ys = ground (arith, amounts-append xs ys)

tracked-amounts :
    (t id : ℕ) (committed : BatchStore) (i : InvoiceItem) (lots : BatchStore) {r : Shipment}
    → ship_tracked t id committed i lots ≡ ok r
    → amounts_of r.items ≡ amounts_of (i ∷ [])
unfolding ship_tracked line_value
tracked-amounts t id committed i lots h =
    let (a, ha, h1) =
      >>=-eq-ok (allocate (some t) i.sku (some (pos i.quantity)) (some i.location) fefo committed) _
        h in
    let (u, hu, h2) = >>=-eq-ok (throw_if (ltb 0 a.shortfall) _) _ h1 in
    let (lots1, hc, h3) = >>=-eq-ok (consume_within (some t) (some id) a.allocations lots) _ h2 in
    rw (sym (ok-injective h3)) refl

untracked-amounts :
    (t id : ℕ) (p : Product) (i : InvoiceItem) (lots : BatchStore) {r : Shipment}
    → ship_untracked t id p i lots ≡ ok r
    → amounts_of r.items ≡ amounts_of (i ∷ [])
unfolding ship_untracked line_value
untracked-amounts t id p i lots h =
    let (a, ha, h1) =
      >>=-eq-ok (apply_stock_change_within (some t) (sale_of id i) lots.stock) _ h in
    rw (sym (ok-injective h1)) refl

item-amounts :
    (t id : ℕ) (committed : BatchStore) (i : InvoiceItem) (lots : BatchStore) {r : Shipment}
    → ship_item t id committed i lots ≡ ok r
    → amounts_of r.items ≡ amounts_of (i ∷ [])
unfolding ship_item
item-amounts t id committed i lots h =
    let (p, hp, h1) =
      >>=-eq-ok (or_throw (lookup (record { tenant = t; sku = i.sku }) lots.stock.products) _) _
        h in
    elim (Bool-cases p.batch_tracked) [
      | inl tracked ↦ tracked-amounts t id committed i lots (rw tracked at h1)
      | inr untracked ↦ untracked-amounts t id p i lots (rw untracked at h1)
    ]

ship_items-amounts :
    (t id : ℕ) (committed : BatchStore) (items : List InvoiceItem) (lots : BatchStore)
    {r : Shipment}
    → ship_items t id committed items lots ≡ ok r
    → amounts_of r.items ≡ amounts_of items
unfolding ship_items
ship_items-amounts t id committed [] lots h = rw (sym (ok-injective h)) refl
ship_items-amounts t id committed (i ∷ items) lots h =
    let (a, ha, h1) = >>=-eq-ok (ship_item t id committed i lots) _ h in
    let (b, hb, h2) = >>=-eq-ok (ship_items t id committed items a.lots) _ h1 in
    let first = item-amounts t id committed i lots ha in
    let rest = ship_items-amounts t id committed items a.lots hb in
    rw (sym (ok-injective h2)) (
      amounts-append a.items b.items
      ∙ ap (λ x. added x (amounts_of b.items)) first
      ∙ ap (added (amounts_of (i ∷ []))) rest
      ∙ sym (amounts-append (i ∷ []) items))

-- The posted invoice is for the same total as the draft, where that was the total of its lines.
pub posted_invoice-total :
    (t id : ℕ) (committed : BatchStore) (v : SalesInvoice) (lots : BatchStore) {r : Shipment}
    → recalculated v ≡ v
    → ship_items t id committed v.items lots ≡ ok r
    → (posted_invoice v r).total_amount ≡ v.total_amount
unfolding recalculated
posted_invoice-total t id committed v lots sound h =
    let same = ship_items-amounts t id committed v.items lots h in
    ap (λ (x : Amounts). pos x.0 -ℤ pos x.1 +ℤ pos x.2) same
    ∙ ap (λ (x : SalesInvoice). x.total_amount) sound
