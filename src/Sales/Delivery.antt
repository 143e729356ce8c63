-- ===== src/Sales/Delivery.antt =====
-- What delivering an order does to the stock ledger.
use werehouse.Prelude.{
  ℕ, ◌+◌, ◌-◌, ◌≤◌, ◌<◌, ◌≡◌, ◌↔◌, refl, sym, ◌∙◌, inl, inr, Bool, true, false, some, List, [], ◌∷◌,
  max, arith,
}
use werehouse.Prelude.Tests.{Bool-cases, Option-cases, if◌then◌else◌}
use werehouse.Prelude.Lists.{All}
use werehouse.Prelude.Table.{◌==◌, lookup, lookup-same, ==_refl}
use werehouse.Result.{ok, ◌>>=◌, >>=-eq-ok, ok-injective}
use werehouse.Stock.{
  StockKey, stock_key_eq, product_key_eq, Level, Product, Store, key_of, apply_stock_change_within,
  release_reservation_within,
}
use werehouse.Stock.Effects.{on_hand, held}
use werehouse.Stock.Rows.{apply-Deducted, release-Freed, deduct-total, release-total}
use werehouse.Sales.{SalesItem, hold_of, deduction_of, deliver_item, deliver_items}
use werehouse.Sales.Reservation.{demand}

-- A row after a delivered line of `n` units.
abbrev pub delivered_row : ℕ → Level → Level
delivered_row n l = record l {
  quantity = l.quantity - n;
  reserved = l.reserved - n;
  available = l.quantity - n - l.reserved + n;
}

-- What a delivered line did: it had enough on hand and enough reserved, and changed one row.
pub record Delivered (t : ℕ) (i : SalesItem) (s s' : Store) : Type 0 where
  pub old : Level
  pub found : lookup (key_of t i.sku i.location) s.levels ≡ some old
  pub on_stock : i.quantity ≤ old.quantity
  pub on_hold : i.quantity ≤ old.reserved
  pub rows :
      (j : StockKey)
      → lookup j s'.levels ≡ (
          if key_of t i.sku i.location == j
          then some (delivered_row i.quantity old)
          else lookup j s.levels)
  pub same_products : s'.products ≡ s.products

collapse {ℓ} :
    {A : Type ℓ} (b : Bool) (x y z : A)
    → (if b then x else (if b then y else z)) ≡ (if b then x else z)
collapse true x y z = refl
collapse false x y z = refl

some-injective {ℓ} : {A : Type ℓ} {a b : A} → some a ≡ some b → a ≡ b
some-injective h = cc

deliver-Delivered :
    (t id : ℕ) (i : SalesItem) (s : Store) {s' : Store}
    → 0 < i.quantity
    → deliver_item (some t) id i s ≡ ok s'
    → Delivered t i s s'
unfolding deliver_item
deliver-Delivered t id i s {s' = s'} positive h =
    let (r, hr, h1) = >>=-eq-ok (apply_stock_change_within (some t) (deduction_of id i) s) _ h in
    let (r2, hr2, h2) = >>=-eq-ok (release_reservation_within (some t) (hold_of id i) r.2) _ h1 in
    let a = apply-Deducted t i.quantity (deduction_of id i) s refl positive hr in
    let b = release-Freed t i.quantity (hold_of id i) r.2 refl hr2 in
    let k = key_of t i.sku i.location in
    let between : b.old ≡ record a.old {
      quantity = a.old.quantity - i.quantity;
      available = a.old.quantity - i.quantity - a.old.reserved;
    } =
      some-injective (sym b.found ∙ a.rows k ∙ rw (==_refl k)) in
    record {
      old = a.old;
      found = a.found;
      on_stock = a.covered;
      on_hold = rw between at b.covered;
      rows = λ j. rw (sym (ok-injective h2), b.rows j, a.rows j, between) (collapse (k == j) _ _ _);
      same_products = rw (sym (ok-injective h2)) (b.same_products ∙ a.same_products);
    }

-- Delivering a line of `n` units from a balanced row takes `n` from what is on hand and from what is
-- reserved, and touches no other row. What is available becomes the larger of `n` and what was
-- available: it is unchanged, and the row balanced again, exactly when `n` was available as well.
pub deliver_item_row :
    (t id : ℕ) (i : SalesItem) (s : Store) {s' : Store} {l : Level}
    → 0 < i.quantity
    → lookup (key_of t i.sku i.location) s.levels ≡ some l
    → l.available + l.reserved ≡ l.quantity
    → deliver_item (some t) id i s ≡ ok s'
    → (lookup (key_of t i.sku i.location) s'.levels
        ≡ some (record {
          quantity = l.quantity - i.quantity;
          reserved = l.reserved - i.quantity;
          available = max l.available i.quantity;
        }))
      × ((max l.available i.quantity + (l.reserved - i.quantity) ≡ l.quantity - i.quantity)
          ↔ (i.quantity ≤ l.available))
      × ((j : StockKey)
          → lookup j s'.levels ≡ (
              if key_of t i.sku i.location == j
              then lookup (key_of t i.sku i.location) s'.levels
              else lookup j s.levels))
deliver_item_row t id i s {s' = s'} {l = l} positive found balanced h =
    let d = deliver-Delivered t id i s positive h in
    let same : d.old ≡ l = some-injective (sym d.found ∙ found) in
    let hold : i.quantity ≤ l.reserved = rw same at d.on_hold in
    let k = key_of t i.sku i.location in
    let left : l.quantity - i.quantity - l.reserved + i.quantity ≡ max l.available i.quantity =
      omega arith in
    (
      d.rows k ∙ rw (==_refl k, same, left),
      (λ e. omega arith, λ e. omega arith),
      λ j. elim (Bool-cases (k == j)) [
        | inl here ↦ rw here (lookup-same j k s'.levels here)
        | inr other ↦ rw other (d.rows j ∙ rw other)
      ],
    )

-- On every delivery of lines of one unit or more: at each key the sum of the lines leaves what is on
-- hand and what is reserved.
pub deliver_items_effect :
    (t id : ℕ) (items : List SalesItem) (s : Store) {s' : Store} (j : StockKey)
    → All (λ i. 0 < i.quantity) items
    → deliver_items (some t) id items s ≡ ok s'
    → (on_hand (lookup j s'.levels) + demand t j items ≡ on_hand (lookup j s.levels))
      × (held (lookup j s'.levels) + demand t j items ≡ held (lookup j s.levels))
unfolding deliver_items
deliver_items_effect t id [] s j positive h = rw (sym (ok-injective h)) (omega arith)
deliver_items_effect t id (i ∷ items) s j positive h =
    let (s1, h1, rest) = >>=-eq-ok (deliver_item (some t) id i s) _ h in
    let d = deliver-Delivered t id i s positive.0 h1 in
    let ih = deliver_items_effect t id items s1 j positive.1 rest in
    let k = key_of t i.sku i.location in
    elim (Bool-cases (k == j)) [
      | inl same ↦
          let row : lookup j s1.levels ≡ some (delivered_row i.quantity d.old) =
            d.rows j ∙ rw same in
          let was : lookup j s.levels ≡ some d.old = lookup-same j k s.levels same ∙ d.found in
          rw (same, was) (omega (arith, d.on_stock, d.on_hold, (rw row at ih)))
      | inr other ↦
          let row : lookup j s1.levels ≡ lookup j s.levels = d.rows j ∙ rw other in
          rw other (omega (arith, (rw row at ih)))
    ]

-- Every line names a product of the tenant.
abbrev pub IsKnown : ℕ → Store → List SalesItem → Type 0
IsKnown t s =
    All (λ i. (p : Product) × (lookup (record { tenant = t; sku = i.sku }) s.products ≡ some p))

deliver_item-total :
    (t id : ℕ) (i : SalesItem) (s : Store) {p : Product}
    → 0 < i.quantity
    → lookup (record { tenant = t; sku = i.sku }) s.products ≡ some p
    → i.quantity ≤ on_hand (lookup (key_of t i.sku i.location) s.levels)
    → i.quantity ≤ held (lookup (key_of t i.sku i.location) s.levels)
    → (s' : Store) × (deliver_item (some t) id i s ≡ ok s')
unfolding deliver_item
deliver_item-total t id i s positive known stocked reserved =
    let k = key_of t i.sku i.location in
    elim (Option-cases (lookup k s.levels)) [
      | inl missing ↦ absurd (omega (arith, positive, rw missing at stocked))
      | inr (l, found) ↦
          let (r, hr) =
            deduct-total t i.quantity (deduction_of id i) s refl positive known found
              (rw found at stocked) in
          let a = apply-Deducted t i.quantity (deduction_of id i) s refl positive hr in
          let same : a.old ≡ l = some-injective (sym a.found ∙ found) in
          let row : lookup k r.2.levels
              ≡ some (record l {
                quantity = l.quantity - i.quantity;
                available = l.quantity - i.quantity - l.reserved;
              }) =
            a.rows k ∙ rw (==_refl k, same) in
          let (r2, hr2) =
            release-total t i.quantity (hold_of id i) r.2 refl positive row
              (rw found at reserved) in
          (r2.1, rw (hr, ◌>>=◌, hr2))
    ]

-- Lines of one unit or more are delivered wherever their products are known and at every key their
-- sum is on hand and reserved.
pub deliver_items-total :
    (t id : ℕ) (items : List SalesItem) (s : Store)
    → All (λ i. 0 < i.quantity) items
    → IsKnown t s items
    → ((j : StockKey)
        → (demand t j items ≤ on_hand (lookup j s.levels))
          × (demand t j items ≤ held (lookup j s.levels)))
    → (s' : Store) × (deliver_items (some t) id items s ≡ ok s')
unfolding deliver_items
deliver_items-total t id [] s positive known enough = (s, refl)
deliver_items-total t id (i ∷ items) s positive known enough =
    let k = key_of t i.sku i.location in
    let first : demand t k (i ∷ items) ≡ i.quantity + demand t k items = rw (==_refl k) in
    let (s1, h1) =
      deliver_item-total t id i s positive.0 known.0.1 (omega (arith, first, (enough k).0))
        (omega (arith, first, (enough k).1)) in
    let d = deliver-Delivered t id i s positive.0 h1 in
    let (s', h') = deliver_items-total t id items s1 positive.1 (rw d.same_products known.1) (λ j.
      let one =
        deliver_items_effect t id (i ∷ []) s {s' = s1} j (positive.0, tt) (rw (h1, ◌>>=◌)) in
      omega (arith, one, enough j)) in
    (s', rw (h1, ◌>>=◌) h')
