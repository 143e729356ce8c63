-- ===== src/Stock/Invariant.antt =====
-- The balance of the rows of `stock_levels`: what is available and what is reserved make up what is
-- on hand.
use werehouse.Prelude.{ℕ, suc, ◌+◌, ◌≤◌, ◌<◌, ◌≡◌, refl, true, inl, inr, Option, none, some, arith}
use werehouse.Prelude.Tests.{leb, Bool-cases}
use werehouse.Prelude.Int.{ℤ, negsuc, neg_part}
use werehouse.Prelude.Table.{Table, ◌==◌, lookup, insert, lookup-insert, lookup-insert_self}
use werehouse.Result.{ok}
use werehouse.Stock.{
  StockKey, stock_key_eq, product_key_eq, Product, nonzero_change, require_tenant, check_deduction,
  movement_type, write, Level, MovementType, Store, StockChange, Hold, key_of, upserted,
  apply_stock_change_within, reserve_stock_within, release_reservation_within,
}
use werehouse.Stock.Effects.{on_hand, held, apply-Applied, reserve-Reserved, release-Released}

abbrev pub IsBalanced : Option Level → Type 0
IsBalanced none = Unit
IsBalanced (some l) = l.available + l.reserved ≡ l.quantity

-- Every row of the table is balanced.
abbrev pub AllBalanced : Store → Type 0
AllBalanced s = (k : StockKey) → IsBalanced (lookup k s.levels)

insert-IsBalanced :
    (k : StockKey) (l : Level) (m : Table StockKey Level)
    → ((j : StockKey) → IsBalanced (lookup j m))
    → l.available + l.reserved ≡ l.quantity
    → (j : StockKey) → IsBalanced (lookup j (insert k l m))
insert-IsBalanced k l m all balanced j = elim (Bool-cases (k == j)) [
  | inl same ↦ rw (lookup-insert k j l m, same) balanced
  | inr other ↦ rw (lookup-insert k j l m, other) (all j)
]

upserted-IsBalanced :
    (c : ℤ) (current : Option Level)
    → IsBalanced current
    → held current + neg_part c ≤ on_hand current
    → IsBalanced (some (upserted c current))
unfolding upserted
upserted-IsBalanced c current b h = ground arith

-- A successful reservation keeps every row balanced.
pub reserve-AllBalanced :
    (scope : Option ℕ) (input : Hold) (s : Store) {r : Level × Store}
    → AllBalanced s
    → reserve_stock_within scope input s ≡ ok r
    → AllBalanced r.1
reserve-AllBalanced scope input s all h =
    let w = reserve-Reserved scope input s h in
    let old : IsBalanced (some w.old) =
      rw w.found at (all (key_of w.tenant input.sku input.location)) in
    rw w.stored (insert-IsBalanced _ _ s.levels all (omega (arith, w.covered, old)))

-- A successful release keeps every row balanced.
pub release-AllBalanced :
    (scope : Option ℕ) (input : Hold) (s : Store) {r : Level × Store}
    → AllBalanced s
    → release_reservation_within scope input s ≡ ok r
    → AllBalanced r.1
release-AllBalanced scope input s all h =
    let w = release-Released scope input s h in
    let old : IsBalanced (some w.old) =
      rw w.found at (all (key_of w.tenant input.sku input.location)) in
    rw w.stored (insert-IsBalanced _ _ s.levels all (omega (arith, w.covered, old)))

-- A successful change that takes no more than what is available (an addition takes nothing) keeps
-- every row balanced.
pub apply-AllBalanced :
    (t : ℕ) (c : ℤ) (input : StockChange) (s : Store) {r : Level × MovementType × Store}
    → AllBalanced s
    → input.change ≡ some c
    → held (lookup (key_of t input.sku input.location) s.levels) + neg_part c
      ≤ on_hand (lookup (key_of t input.sku input.location) s.levels)
    → apply_stock_change_within (some t) input s ≡ ok r
    → AllBalanced r.2
apply-AllBalanced t c input s all given room h =
    let w = apply-Applied (some t) input s h in
    let same_tenant : w.tenant ≡ t = cc w.in_scope in
    let same_change : w.change ≡ c = cc (w.given, given) in
    rw (w.stored, same_tenant, same_change)
      (insert-IsBalanced _ _ s.levels all
        (upserted-IsBalanced c _ (all (key_of t input.sku input.location)) room))

-- A deduction of more than is available but not of more than is on hand is accepted for a known
-- product: the row then has nothing available and more reserved than on hand, so the balance is lost.
pub apply_oversell :
    (t n : ℕ) (input : StockChange) (s : Store) {l : Level} {p : Product}
    → input.change ≡ some (negsuc n)
    → lookup (record { tenant = t; sku = input.sku }) s.products ≡ some p
    → lookup (key_of t input.sku input.location) s.levels ≡ some l
    → l.available + l.reserved ≡ l.quantity
    → l.available < suc n
    → suc n ≤ l.quantity
    → (r : Level × MovementType × Store) × (apply_stock_change_within (some t) input s ≡ ok r)
      × (lookup (key_of t input.sku input.location) r.2.levels ≡ some r.0)
      × (r.0.available ≡ 0)
      × (r.0.reserved ≡ l.reserved)
      × (r.0.quantity + suc n ≡ l.quantity)
      × (r.0.quantity < r.0.reserved)
unfolding apply_stock_change_within nonzero_change require_tenant check_deduction upserted
apply_oversell t n input s {l = l} given known found balanced short enough =
    let k = key_of t input.sku input.location in
    let after = upserted (negsuc n) (some l) in
    let type = movement_type input.type (negsuc n) in
    let covered : leb (suc n) l.quantity ≡ true = ground (arith, enough) in
    (
      (after, type, write k after type (negsuc n) input.reference_id s),
      rw (given, known, found, covered) refl,
      lookup-insert_self k after s.levels,
      ground (arith, short),
      refl,
      ground (arith, enough),
      ground (arith, balanced, short, enough),
    )
