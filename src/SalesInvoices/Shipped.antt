-- ===== src/SalesInvoices/Shipped.antt =====
-- What shipping the lines of an invoice takes from the stock, and what its delivery note says.
use werehouse.Prelude.{
  ℕ, zero, suc, ◌+◌, ◌<◌, ◌≡◌, refl, sym, ap, ◌∙◌, inl, inr, Option, some, List, [], ◌∷◌, ◌++◌, map,
  arith,
}
use werehouse.Prelude.Tests.{ltb, Bool-cases, if◌then◌else◌}
use werehouse.Prelude.Int.{pos}
use werehouse.Prelude.Lists.{All}
use werehouse.Prelude.Table.{◌==◌, nat_eq, lookup, lookup-same, IsUnique}
use werehouse.Result.{
  positive_quantity, ok, >>=-eq-ok, or_throw, or_throw-ok, throw_if, throw_if-ok, ok-injective,
}
use werehouse.Stock.{
  StockKey, stock_key_eq, Product, product_key_eq, Store, StockChange, key_of,
  apply_stock_change_within, require_tenant,
}
use werehouse.Stock.Effects.{on_hand}
use werehouse.Stock.Rows.{Deducted, apply-Deducted}
use werehouse.Batches.{
  BatchAllocation, batch_key_eq, BatchStore, fefo, allocate, available_row, key_of_allocation,
  deduction, consume_one, consume_all, consume_within,
}
use werehouse.Batches.Allocation.{drawn_units, allocate_lem, AllocationBacked, allocate-IsBacked}
use werehouse.SalesInvoices.{InvoiceItem, NoteItem}
use werehouse.SalesInvoices.Posting.{
  Shipment, sale_of, note_of_allocation, ship_tracked, ship_untracked, ship_item, ship_items,
}

-- The units of a quantity at a key, of invoice lines, of allocations and of delivery notes.
abbrev pub units_at : StockKey → StockKey → ℕ → ℕ
units_at k j n = if k == j then n else 0

abbrev pub sold : ℕ → StockKey → List InvoiceItem → ℕ
sold t j [] = 0
sold t j (i ∷ items) = units_at (key_of t i.sku i.location) j i.quantity + sold t j items

abbrev pub noted : ℕ → StockKey → List NoteItem → ℕ
noted t j [] = 0
noted t j (n ∷ items) = units_at (key_of t n.sku n.location) j n.quantity + noted t j items

abbrev drawn : ℕ → StockKey → List BatchAllocation → ℕ
drawn t j [] = 0
drawn t j (a ∷ rest) = units_at (key_of t a.sku a.location) j a.quantity + drawn t j rest

-- A note item of some units of a known product.
abbrev pub IsStocked : ℕ → Store → NoteItem → Type 0
IsStocked t s n =
    (0 < n.quantity)
    × ((p : Product) × (lookup (record { tenant = t; sku = n.sku }) s.products ≡ some p))

-- A deduction at one key.
Deducted-on_hand :
    (t n : ℕ) (input : StockChange) (s s' : Store) (j : StockKey)
    → Deducted t n input s s'
    → on_hand (lookup j s'.levels) + units_at (key_of t input.sku input.location) j n
      ≡ on_hand (lookup j s.levels)
Deducted-on_hand t n input s s' j d =
    let k = key_of t input.sku input.location in
    elim (Bool-cases (k == j)) [
      | inl same ↦
          rw (d.rows j, same, lookup-same j k s.levels same, d.found) (omega (arith, d.covered))
      | inr other ↦ rw (d.rows j, other) (omega arith)
    ]

consume_one-stock :
    (t : ℕ) (ref : Option ℕ) (a : BatchAllocation) (st : BatchStore) {st' : BatchStore}
    → 0 < a.quantity
    → consume_one (some t) ref a st ≡ ok st'
    → Deducted t a.quantity (deduction a ref) st.stock st'.stock
unfolding consume_one
consume_one-stock t ref a st positive h =
    let (l, hl, h1) =
      >>=-eq-ok (available_row a.quantity (lookup (key_of_allocation a) st.levels)) _ h in
    let (b, hb, h2) = >>=-eq-ok (or_throw (lookup a.batch_id st.batches) _) _ h1 in
    let (r, hr, h3) =
      >>=-eq-ok (apply_stock_change_within (some t) (deduction a ref) st.stock) _ h2 in
    rw (sym (ok-injective h3))
      (apply-Deducted t a.quantity (deduction a ref) st.stock refl positive hr)

consume_all-stock :
    (t : ℕ) (ref : Option ℕ) (plan : List BatchAllocation) (st : BatchStore) {st' : BatchStore}
    → All (λ a. 0 < a.quantity) plan
    → consume_all (some t) ref plan st ≡ ok st'
    → (st'.stock.products ≡ st.stock.products)
      × ((j : StockKey)
          → on_hand (lookup j st'.stock.levels) + drawn t j plan
            ≡ on_hand (lookup j st.stock.levels))
unfolding consume_all
consume_all-stock t ref [] st positive h = rw (sym (ok-injective h)) (refl, λ j. omega arith)
consume_all-stock t ref (a ∷ plan) st positive h =
    let (st1, h1, rest) = >>=-eq-ok (consume_one (some t) ref a st) _ h in
    let d = consume_one-stock t ref a st positive.0 h1 in
    let (products, rows) = consume_all-stock t ref plan st1 positive.1 rest in
    (
      products ∙ d.same_products,
      λ j.
          omega
            (arith, rows j, Deducted-on_hand t a.quantity (deduction a ref) st.stock st1.stock j d),
    )

-- The allocations of a plan for one SKU at one location.
abbrev Placed : ℕ → ℕ → BatchAllocation → Type 0
Placed sku location a = (0 < a.quantity) × (a.sku ≡ sku) × (a.location ≡ location)

backed-Placed :
    (sku location : ℕ) (st : BatchStore) (plan : List BatchAllocation)
    → All (AllocationBacked sku (some location) st.batches st.levels) plan
    → All (Placed sku location) plan
backed-Placed sku location st [] h = tt
backed-Placed sku location st (a ∷ plan) ((positive, same, backed), rest) =
    ((positive, same, ground (arith, backed.passes)), backed-Placed sku location st plan rest)

Placed-positive :
    (sku location : ℕ) (plan : List BatchAllocation)
    → All (Placed sku location) plan
    → All (λ a. 0 < a.quantity) plan
Placed-positive sku location [] h = tt
Placed-positive sku location (a ∷ plan) h = (h.0.0, Placed-positive sku location plan h.1)

Placed-drawn :
    (t sku location : ℕ) (j : StockKey) (plan : List BatchAllocation)
    → All (Placed sku location) plan
    → drawn t j plan ≡ units_at (key_of t sku location) j (drawn_units plan)
Placed-drawn t sku location j [] h = ground arith
Placed-drawn t sku location j (a ∷ plan) h =
    let ih = Placed-drawn t sku location j plan h.1 in rw (h.0.1, h.0.2, ih) (ground arith)

placed-notes :
    (t sku location : ℕ) (j : StockKey) (plan : List BatchAllocation)
    → drawn t j plan ≡ noted t j (map note_of_allocation plan)
placed-notes t sku location j [] = refl
placed-notes t sku location j (a ∷ plan) =
    ap (λ n. units_at (key_of t a.sku a.location) j a.quantity + n)
      (placed-notes t sku location j plan)

placed-IsStocked :
    (t sku location : ℕ) (s : Store) (plan : List BatchAllocation) {p : Product}
    → lookup (record { tenant = t; sku = sku }) s.products ≡ some p
    → All (Placed sku location) plan
    → All (IsStocked t s) (map note_of_allocation plan)
placed-IsStocked t sku location s [] known h = tt
placed-IsStocked t sku location s (a ∷ plan) {p = p} known h =
    ((h.0.0, (p, rw h.0.1 known)), placed-IsStocked t sku location s plan known h.1)

requested-exact : (n : ℕ) {q : ℕ} → positive_quantity (some (pos n)) ≡ ok q → q ≡ n
unfolding positive_quantity
requested-exact zero h = cc
requested-exact (suc n) h = sym (ok-injective h)

-- What shipping did: the products are as before, the lines' units have left the stock, and the note
-- names them.
pub record Taken (t : ℕ) (items : List InvoiceItem) (before : BatchStore) (r : Shipment)
    : Type 0 where
  pub products : r.lots.stock.products ≡ before.stock.products
  pub left :
      (j : StockKey)
      → on_hand (lookup j r.lots.stock.levels) + sold t j items
        ≡ on_hand (lookup j before.stock.levels)
  pub note : (j : StockKey) → noted t j r.note_items ≡ sold t j items
  pub stocked : All (IsStocked t before.stock) r.note_items

consume_within-all :
    (t : ℕ) (ref : Option ℕ) (plan : List BatchAllocation) (st : BatchStore)
    → consume_within (some t) ref plan st ≡ consume_all (some t) ref plan st
unfolding consume_within require_tenant
consume_within-all t ref plan st = refl

ship_tracked-Taken :
    (t id : ℕ) (committed : BatchStore) (i : InvoiceItem) (lots : BatchStore) {p : Product}
    {r : Shipment}
    → IsUnique committed.levels
    → lookup (record { tenant = t; sku = i.sku }) lots.stock.products ≡ some p
    → ship_tracked t id committed i lots ≡ ok r
    → Taken t (i ∷ []) lots r
unfolding ship_tracked
ship_tracked-Taken t id committed i lots unique known h =
    let (a, ha, h1) =
      >>=-eq-ok (allocate (some t) i.sku (some (pos i.quantity)) (some i.location) fefo committed) _
        h in
    let (u, hu, h2) = >>=-eq-ok (throw_if (ltb 0 a.shortfall) _) _ h1 in
    let (lots1, hc, h3) = >>=-eq-ok (consume_within (some t) (some id) a.allocations lots) _ h2 in
    let (asked, drew) = allocate_lem _ _ _ _ _ committed a ha in
    let requested : a.requested ≡ i.quantity = requested-exact i.quantity asked in
    let backed = allocate-IsBacked _ _ _ _ _ committed a unique ha in
    let placed = backed-Placed i.sku i.location committed a.allocations backed in
    let (products, rows) =
      consume_all-stock t (some id) a.allocations lots
        (Placed-positive i.sku i.location a.allocations placed)
        (sym (consume_within-all t (some id) a.allocations lots) ∙ hc) in
    let short : a.shortfall ≡ 0 = ground (arith, throw_if-ok _ _ hu) in
    let units : drawn_units a.allocations ≡ i.quantity =
      omega (arith, drew.0, drew.1, short, requested) in
    let at = λ (j : StockKey).
      Placed-drawn t i.sku i.location j a.allocations placed
      ∙ ap (units_at (key_of t i.sku i.location) j) units in
    rw (sym (ok-injective h3)) (record {
      products = products;
      left = λ j. omega (arith, rows j, at j);
      note = λ j. omega (arith, placed-notes t i.sku i.location j a.allocations, at j);
      stocked = placed-IsStocked t i.sku i.location lots.stock a.allocations known placed;
    })

ship_untracked-Taken :
    (t id : ℕ) (q : Product) (i : InvoiceItem) (lots : BatchStore) {p : Product} {r : Shipment}
    → 0 < i.quantity
    → lookup (record { tenant = t; sku = i.sku }) lots.stock.products ≡ some p
    → ship_untracked t id q i lots ≡ ok r
    → Taken t (i ∷ []) lots r
unfolding ship_untracked
ship_untracked-Taken t id q i lots {p = p} positive known h =
    let (a, ha, h1) =
      >>=-eq-ok (apply_stock_change_within (some t) (sale_of id i) lots.stock) _ h in
    let d = apply-Deducted t i.quantity (sale_of id i) lots.stock refl positive ha in
    rw (sym (ok-injective h1)) (record {
      products = d.same_products;
      left = λ j. omega (arith, Deducted-on_hand t i.quantity (sale_of id i) lots.stock a.2 j d);
      note = λ j. refl;
      stocked = ((positive, (p, known)), tt);
    })

ship_item-Taken :
    (t id : ℕ) (committed : BatchStore) (i : InvoiceItem) (lots : BatchStore) {r : Shipment}
    → IsUnique committed.levels
    → 0 < i.quantity
    → ship_item t id committed i lots ≡ ok r
    → Taken t (i ∷ []) lots r
unfolding ship_item
ship_item-Taken t id committed i lots unique positive h =
    let (p, hp, h1) =
      >>=-eq-ok (or_throw (lookup (record { tenant = t; sku = i.sku }) lots.stock.products) _) _
        h in
    let known = or_throw-ok _ _ hp in
    elim (Bool-cases p.batch_tracked) [
      | inl tracked ↦ ship_tracked-Taken t id committed i lots unique known (rw tracked at h1)
      | inr untracked ↦ ship_untracked-Taken t id p i lots positive known (rw untracked at h1)
    ]

noted-append :
    (t : ℕ) (j : StockKey) (xs ys : List NoteItem)
    → noted t j (xs ++ ys) ≡ noted t j xs + noted t j ys
noted-append t j [] ys = omega arith
noted-append t j (x ∷ xs) ys = omega (arith, noted-append t j xs ys)

append-IsStocked :
    (t : ℕ) (s : Store) (xs ys : List NoteItem)
    → All (IsStocked t s) xs
    → All (IsStocked t s) ys
    → All (IsStocked t s) (xs ++ ys)
append-IsStocked t s [] ys h k = k
append-IsStocked t s (x ∷ xs) ys h k = (h.0, append-IsStocked t s xs ys h.1 k)

pub same-IsStocked :
    (t : ℕ) (s s' : Store) (xs : List NoteItem)
    → s'.products ≡ s.products
    → All (IsStocked t s') xs
    → All (IsStocked t s) xs
same-IsStocked t s s' [] e h = tt
same-IsStocked t s s' (x ∷ xs) e h =
    ((h.0.0, (h.0.1.0, rw (sym e) h.0.1.1)), same-IsStocked t s s' xs e h.1)

-- Shipping the lines of an invoice, each of a unit or more, takes the sum of the lines from what is
-- on hand at every key, and the delivery note names the same units.
pub ship_items-Taken :
    (t id : ℕ) (committed : BatchStore) (items : List InvoiceItem) (lots : BatchStore)
    {r : Shipment}
    → IsUnique committed.levels
    → All (λ i. 0 < i.quantity) items
    → ship_items t id committed items lots ≡ ok r
    → Taken t items lots r
unfolding ship_items
ship_items-Taken t id committed [] lots unique positive h =
    rw (sym (ok-injective h))
      (record { products = refl; left = λ j. omega arith; note = λ j. refl; stocked = tt })
ship_items-Taken t id committed (i ∷ items) lots unique positive h =
    let (a, ha, h1) = >>=-eq-ok (ship_item t id committed i lots) _ h in
    let (b, hb, h2) = >>=-eq-ok (ship_items t id committed items a.lots) _ h1 in
    let first = ship_item-Taken t id committed i lots unique positive.0 ha in
    let rest = ship_items-Taken t id committed items a.lots unique positive.1 hb in
    rw (sym (ok-injective h2)) (record {
      products = rest.products ∙ first.products;
      left = λ j. omega (arith, first.left j, rest.left j);
      note =
          λ j. omega (arith, first.note j, rest.note j, noted-append t j a.note_items b.note_items);
      stocked =
          append-IsStocked t lots.stock a.note_items b.note_items first.stocked
            (same-IsStocked t lots.stock a.lots.stock b.note_items first.products rest.stocked);
    })
