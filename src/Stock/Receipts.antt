-- ===== src/Stock/Receipts.antt =====
-- Units that come in: backend-nest/src/inventory/inventory.service.ts, `applyStockChangeWithin`.
use werehouse.Prelude.{ℕ, zero, suc, ◌+◌, ◌<◌, ◌≡◌, refl, inl, inr, Option, none, some, arith}
use werehouse.Prelude.Tests.{if◌then◌else◌, Bool-cases}
use werehouse.Prelude.Int.{pos}
use werehouse.Prelude.Table.{◌==◌, lookup, lookup-insert, lookup-same}
use werehouse.Result.{ok}
use werehouse.Stock.{
  StockKey, stock_key_eq, product_key_eq, Product, Level, MovementType, Store, StockChange,
  require_tenant, nonzero_change, key_of, check_deduction, upserted, movement_type, write,
  apply_stock_change_within,
}
use werehouse.Stock.Effects.{on_hand, apply-Applied}

received-on_hand : (n : ℕ) (x : Option Level) → (upserted (pos n) x).quantity ≡ on_hand x + n
unfolding upserted
received-on_hand n none = omega arith
received-on_hand n (some l) = omega arith

-- A change by some units of a known product succeeds, keeps the products, and adds the units at its
-- key alone.
pub receive-total :
    (t n : ℕ) (input : StockChange) (s : Store) {p : Product}
    → input.change ≡ some (pos n)
    → 0 < n
    → lookup (record { tenant = t; sku = input.sku }) s.products ≡ some p
    → (r : Level × MovementType × Store) × (apply_stock_change_within (some t) input s ≡ ok r)
      × (r.2.products ≡ s.products)
      × ((j : StockKey)
          → on_hand (lookup j r.2.levels)
            ≡ on_hand (lookup j s.levels)
              + (if key_of t input.sku input.location == j then n else 0))
unfolding apply_stock_change_within nonzero_change require_tenant check_deduction
receive-total t zero input s given positive known = absurd (omega arith)
receive-total t (suc n) input s given positive known =
    let k = key_of t input.sku input.location in
    let l = upserted (pos (suc n)) (lookup k s.levels) in
    let type = movement_type input.type (pos (suc n)) in
    (
      (l, type, write k l type (pos (suc n)) input.reference_id s),
      rw (given, known) refl,
      refl,
      λ j. elim (Bool-cases (k == j)) [
        | inl same ↦
            rw (lookup-insert k j l s.levels, same, lookup-same j k s.levels same)
              (received-on_hand (suc n) (lookup k s.levels))
        | inr other ↦ rw (lookup-insert k j l s.levels, other) (omega arith)
      ],
    )

-- What a successful change by `n` units did to the units at any key.
pub receive-on_hand :
    (t n : ℕ) (input : StockChange) (s : Store) {r : Level × MovementType × Store}
    → input.change ≡ some (pos n)
    → apply_stock_change_within (some t) input s ≡ ok r
    → (j : StockKey)
    → on_hand (lookup j r.2.levels)
      ≡ on_hand (lookup j s.levels) + (if key_of t input.sku input.location == j then n else 0)
receive-on_hand t n input s given h j =
    let w = apply-Applied (some t) input s h in
    let tenant : w.tenant ≡ t = cc w.in_scope in
    let change : w.change ≡ pos n = cc (w.given, given) in
    let k = key_of t input.sku input.location in
    let l = upserted (pos n) (lookup k s.levels) in
    rw (w.stored, tenant, change)
      (elim (Bool-cases (k == j)) [
        | inl same ↦
            rw (lookup-insert k j l s.levels, same, lookup-same j k s.levels same)
              (received-on_hand n (lookup k s.levels))
        | inr other ↦ rw (lookup-insert k j l s.levels, other) (omega arith)
      ])
