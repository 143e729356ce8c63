-- ===== src/Stock/Rows.antt =====
-- When a stock mutation succeeds, and what a delivery does to a row: backend-nest/src/inventory/
-- inventory.service.ts.
use werehouse.Prelude.{ℕ, zero, suc, ◌+◌, ◌-◌, ◌≤◌, ◌<◌, ◌≡◌, refl, inl, inr, some, arith}
use werehouse.Prelude.Tests.{if◌then◌else◌, le→leb, Option-cases}
use werehouse.Prelude.Int.{pos, negsuc, neg_part}
use werehouse.Prelude.Table.{◌==◌, lookup, lookup-insert}
use werehouse.Result.{ok, positive_quantity}
use werehouse.Stock.{
  StockKey, stock_key_eq, product_key_eq, Product, Level, MovementType, reserve, release, Store,
  StockChange, Hold, require_tenant, nonzero_change, key_of, check_deduction, upserted,
  movement_type, reserved_row, released_row, negated, write, apply_stock_change_within,
  reserve_stock_within, release_reservation_within,
}
use werehouse.Stock.Effects.{on_hand, apply-Applied, release-Released}

positive_quantity-pos : (q : ℕ) → 0 < q → positive_quantity (some (pos q)) ≡ ok q
unfolding positive_quantity
positive_quantity-pos zero h = absurd (omega arith)
positive_quantity-pos (suc n) h = refl

-- A reservation succeeds wherever enough is available, and a release where enough is reserved.
pub reserve-total :
    (t q : ℕ) (input : Hold) (s : Store) {l : Level}
    → input.quantity ≡ some (pos q)
    → 0 < q
    → lookup (key_of t input.sku input.location) s.levels ≡ some l
    → q ≤ l.available
    → (r : Level × Store) × (reserve_stock_within (some t) input s ≡ ok r)
unfolding reserve_stock_within require_tenant reserved_row
reserve-total t q input s {l = l} given positive found enough = (
  (
    record l { reserved = l.reserved + q; available = l.available - q },
    write (key_of t input.sku input.location)
        (record l { reserved = l.reserved + q; available = l.available - q }) reserve (pos q)
        input.reference_id s,
  ),
  rw (given, positive_quantity-pos q positive, found, le→leb q l.available enough),
)

pub release-total :
    (t q : ℕ) (input : Hold) (s : Store) {l : Level}
    → input.quantity ≡ some (pos q)
    → 0 < q
    → lookup (key_of t input.sku input.location) s.levels ≡ some l
    → q ≤ l.reserved
    → (r : Level × Store) × (release_reservation_within (some t) input s ≡ ok r)
unfolding release_reservation_within require_tenant released_row
release-total t q input s {l = l} given positive found enough = (
  (
    record l { reserved = l.reserved - q; available = l.available + q },
    write (key_of t input.sku input.location)
        (record l { reserved = l.reserved - q; available = l.available + q }) release (negated q)
        input.reference_id s,
  ),
  rw (given, positive_quantity-pos q positive, found, le→leb q l.reserved enough),
)

-- A deduction succeeds wherever the product is known and enough is on hand.
pub deduct-total :
    (t n : ℕ) (input : StockChange) (s : Store) {l : Level} {p : Product}
    → input.change ≡ some (negated n)
    → 0 < n
    → lookup (record { tenant = t; sku = input.sku }) s.products ≡ some p
    → lookup (key_of t input.sku input.location) s.levels ≡ some l
    → n ≤ l.quantity
    → (r : Level × MovementType × Store) × (apply_stock_change_within (some t) input s ≡ ok r)
unfolding apply_stock_change_within nonzero_change require_tenant check_deduction
deduct-total t zero input s given positive known found enough = absurd (omega arith)
deduct-total t (suc n) input s {l = l} given positive known found enough = (
  (
    upserted (negsuc n) (some l),
    movement_type input.type (negsuc n),
    write (key_of t input.sku input.location) (upserted (negsuc n) (some l))
        (movement_type input.type (negsuc n)) (negsuc n) input.reference_id s,
  ),
  rw (given, known, found, le→leb (suc n) l.quantity enough),
)

-- What a successful deduction of `n` units did.
pub record Deducted (t n : ℕ) (input : StockChange) (s s' : Store) : Type 0 where
  pub old : Level
  pub found : lookup (key_of t input.sku input.location) s.levels ≡ some old
  pub covered : n ≤ old.quantity
  pub rows :
      (j : StockKey)
      → lookup j s'.levels ≡ (
          if key_of t input.sku input.location == j
          then some (record old {
            quantity = old.quantity - n;
            available = old.quantity - n - old.reserved;
          })
          else lookup j s.levels)
  pub same_products : s'.products ≡ s.products

upserted_deduction :
    (n : ℕ) (l : Level)
    → upserted (negated n) (some l)
      ≡ record l { quantity = l.quantity - n; available = l.quantity - n - l.reserved }
unfolding upserted
upserted_deduction zero l = ground arith
upserted_deduction (suc n) l = ground arith

neg_part-negated : (n : ℕ) → neg_part (negated n) ≡ n
neg_part-negated zero = refl
neg_part-negated (suc n) = refl

pub apply-Deducted :
    (t n : ℕ) (input : StockChange) (s : Store) {r : Level × MovementType × Store}
    → input.change ≡ some (negated n)
    → 0 < n
    → apply_stock_change_within (some t) input s ≡ ok r
    → Deducted t n input s r.2
apply-Deducted t n input s given positive h =
    let w = apply-Applied (some t) input s h in
    let k = key_of t input.sku input.location in
    let tenant : w.tenant ≡ t = cc w.in_scope in
    let change : w.change ≡ negated n = cc (w.given, given) in
    let covered : n ≤ on_hand (lookup k s.levels) =
      rw (tenant, change, neg_part-negated n) at w.covered in
    elim (Option-cases (lookup k s.levels)) [
      | inl missing ↦ absurd (omega (arith, positive, rw missing at covered))
      | inr (l, found) ↦ record {
        old = l;
        found = found;
        covered = rw found at covered;
        rows = λ j.
            rw (w.stored, tenant, change, found, upserted_deduction n l)
              (lookup-insert k j _ s.levels);
        same_products = rw w.stored;
      }
    ]

-- What a successful release of `n` units did.
pub record Freed (t n : ℕ) (input : Hold) (s s' : Store) : Type 0 where
  pub old : Level
  pub found : lookup (key_of t input.sku input.location) s.levels ≡ some old
  pub covered : n ≤ old.reserved
  pub rows :
      (j : StockKey)
      → lookup j s'.levels ≡ (
          if key_of t input.sku input.location == j
          then some (record old { reserved = old.reserved - n; available = old.available + n })
          else lookup j s.levels)
  pub same_products : s'.products ≡ s.products

pub release-Freed :
    (t n : ℕ) (input : Hold) (s : Store) {r : Level × Store}
    → input.quantity ≡ some (pos n)
    → release_reservation_within (some t) input s ≡ ok r
    → Freed t n input s r.1
release-Freed t n input s given h =
    let w = release-Released (some t) input s h in
    let k = key_of t input.sku input.location in
    let tenant : w.tenant ≡ t = cc w.in_scope in
    let amount : w.amount ≡ n = cc (w.given, given) in
    record {
      old = w.old;
      found = rw tenant at w.found;
      covered = rw amount at w.covered;
      rows = λ j. rw (w.stored, tenant, amount) (lookup-insert k j _ s.levels);
      same_products = rw w.stored;
    }
