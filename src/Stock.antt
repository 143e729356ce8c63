-- ===== src/Stock.antt =====
-- The aggregate stock ledger: the stock mutations of
-- backend-nest/src/inventory/inventory.service.ts (applyStockChangeWithin, reserveStockWithin,
-- releaseReservationWithin) on the tables `products`, `stock_levels` and `stock_movements`.
pub mod Effects
pub mod Invariant
pub mod Replay
pub mod Rows
pub mod Receipts
pub mod Tenancy
mod Tests
use werehouse.Prelude.{
  ℕ, zero, suc, ◌+◌, ◌-◌, ◌≡◌, refl, ◌↔◌, Bool, true, false, ◌&&◌, Option, none, some, List, ◌∷◌,
  arith,
}
use werehouse.Prelude.Tests.{leb, nat_beq, if◌then◌else◌}
use werehouse.Prelude.Int.{ℤ, pos, negsuc, pos_part, neg_part}
use werehouse.Prelude.Table.{Table, Eq, ◌==◌, nat_eq, lookup, insert}
use werehouse.Result.{
  Result, ok, err, bad_request, not_found, ◌>>=◌, ◌>>◌, or_throw, throw_if, positive_quantity,
  no_tenant, product_missing, stock_level_missing, zero_change, insufficient_on_hand,
  insufficient_available, release_above_reserved,
}

-- Tenants, SKUs and locations are only compared, so they are numbers.
pub record StockKey : Type 0 where
  pub tenant : ℕ
  pub sku : ℕ
  pub location : ℕ

abbrev pub same_key : StockKey → StockKey → Bool
same_key a b = nat_beq a.tenant b.tenant && nat_beq a.sku b.sku && nat_beq a.location b.location

pub same_key_iff : (a b : StockKey) → (same_key a b ≡ true) ↔ (a ≡ b)
same_key_iff a b = ground arith

instance abbrev pub stock_key_eq : Eq StockKey
stock_key_eq = record { beq = same_key; beq_iff = same_key_iff }

-- A row of `products` is found by its tenant and SKU.
pub record ProductKey : Type 0 where
  pub tenant : ℕ
  pub sku : ℕ

abbrev pub same_product : ProductKey → ProductKey → Bool
same_product a b = nat_beq a.tenant b.tenant && nat_beq a.sku b.sku

pub same_product_iff : (a b : ProductKey) → (same_product a b ≡ true) ↔ (a ≡ b)
same_product_iff a b = ground arith

instance abbrev pub product_key_eq : Eq ProductKey
product_key_eq = record { beq = same_product; beq_iff = same_product_iff }

pub data CostingMethod : Type 0 where
  weighted_average last_cost standard : CostingMethod

-- The columns that the modelled code reads; `cost_price` is in units of 0.0001.
pub record Product : Type 0 where
  pub cost_price : ℕ
  pub costing_method : CostingMethod
  pub batch_tracked : Bool
  pub shelf_life_days : Option ℕ

-- A row of `stock_levels`, without its key.
pub record Level : Type 0 where
  pub quantity : ℕ
  pub reserved : ℕ
  pub available : ℕ

pub data MovementType : Type 0 where
  stock_in stock_out adjustment reserve release : MovementType
  purchase_receipt production_output return_to_stock sales_shipment : MovementType
  production_consumption damage_loss warehouse_transfer : MovementType

-- A row of `stock_movements`.
pub record Movement : Type 0 where
  pub key : StockKey
  pub type : MovementType
  pub quantity : ℤ
  pub reference_id : Option ℕ

pub record Store : Type 0 where
  pub products : Table ProductKey Product
  pub levels : Table StockKey Level
  pub movements : List Movement

-- The input of a stock change. `change` is `Math.round(Number(input.change))`, `none` where that is
-- not finite.
pub record StockChange : Type 0 where
  pub sku : ℕ
  pub location : ℕ
  pub change : Option ℤ
  pub type : Option MovementType
  pub reference_id : Option ℕ

-- The input of a reservation or its release, with `quantity` rounded in the same way.
pub record Hold : Type 0 where
  pub sku : ℕ
  pub location : ℕ
  pub quantity : Option ℤ
  pub reference_id : Option ℕ

-- The tenant of the request, if it has one.
unfoldable pub require_tenant : Option ℕ → Result ℕ
require_tenant t = or_throw t (bad_request no_tenant)

abbrev pub key_of : ℕ → ℕ → ℕ → StockKey
key_of t sku location = record { tenant = t; sku = sku; location = location }

-- `!Number.isFinite(change) || change === 0`
unfoldable pub nonzero_change : Option ℤ → Result ℤ
nonzero_change (some (pos (suc n))) = ok (pos (suc n))
nonzero_change (some (negsuc n)) = ok (negsuc n)
nonzero_change (some (pos zero)) = err (bad_request zero_change)
nonzero_change none = err (bad_request zero_change)

-- `change > 0 ? IN : OUT`, for a change that is not zero.
unfoldable pub default_type : ℤ → MovementType
default_type (pos n) = stock_in
default_type (negsuc n) = stock_out

unfoldable pub movement_type : Option MovementType → ℤ → MovementType
unfolding default_type
movement_type (some type) change = type
movement_type none change = default_type change

-- A deduction needs a row with enough on hand.
unfoldable pub check_deduction : ℤ → Option Level → Result (Unit {0})
check_deduction (pos n) current = ok tt
check_deduction (negsuc n) none = err (not_found stock_level_missing)
check_deduction (negsuc n) (some l) =
    if leb (suc n) l.quantity then ok tt else err (bad_request insufficient_on_hand)

-- INSERT … ON CONFLICT DO UPDATE: subtraction that stops at 0 is GREATEST(0, …).
unfoldable pub upserted : ℤ → Option Level → Level
upserted change none = record {
  quantity = pos_part change;
  reserved = 0;
  available = pos_part change;
}
upserted change (some l) =
    let quantity = l.quantity + pos_part change - neg_part change in
    record { quantity = quantity; reserved = l.reserved; available = quantity - l.reserved }

-- The row is written back and the movement is added to the log, newest first.
abbrev pub write : StockKey → Level → MovementType → ℤ → Option ℕ → Store → Store
write k l type quantity reference s = record s {
  levels = insert k l s.levels;
  movements =
      record { key = k; type = type; quantity = quantity; reference_id = reference } ∷ s.movements;
}

unfoldable pub apply_stock_change_within :
    Option ℕ → StockChange → Store → Result (Level × MovementType × Store)
unfolding require_tenant nonzero_change movement_type check_deduction upserted
apply_stock_change_within scope input s = do
  change ← nonzero_change input.change
  tenant ← require_tenant scope
  _ ←
      or_throw (lookup (record { tenant = tenant; sku = input.sku }) s.products)
        (not_found product_missing)
  let k = key_of tenant input.sku input.location
  let current = lookup k s.levels
  check_deduction change current
  let type = movement_type input.type change
  let updated = upserted change current
  ok (updated, type, write k updated type change input.reference_id s)

-- UPDATE … WHERE available >= quantity, and what the code throws when no row matched.
unfoldable pub reserved_row : ℕ → Option Level → Result Level
reserved_row q none = err (not_found stock_level_missing)
reserved_row q (some l) =
    if leb q l.available
    then ok (record l { reserved = l.reserved + q; available = l.available - q })
    else err (bad_request insufficient_available)

unfoldable pub reserve_stock_within : Option ℕ → Hold → Store → Result (Level × Store)
unfolding require_tenant positive_quantity reserved_row
reserve_stock_within scope input s = do
  q ← positive_quantity input.quantity
  tenant ← require_tenant scope
  let k = key_of tenant input.sku input.location
  updated ← reserved_row q (lookup k s.levels)
  ok (updated, write k updated reserve (pos q) input.reference_id s)

-- UPDATE … WHERE reserved >= quantity.
unfoldable pub released_row : ℕ → Option Level → Result Level
released_row q none = err (not_found stock_level_missing)
released_row q (some l) =
    if leb q l.reserved
    then ok (record l { reserved = l.reserved - q; available = l.available + q })
    else err (bad_request release_above_reserved)

-- `-q` as an integer.
abbrev pub negated : ℕ → ℤ
negated zero = pos 0
negated (suc n) = negsuc n

unfoldable pub release_reservation_within : Option ℕ → Hold → Store → Result (Level × Store)
unfolding require_tenant positive_quantity released_row
release_reservation_within scope input s = do
  q ← positive_quantity input.quantity
  tenant ← require_tenant scope
  let k = key_of tenant input.sku input.location
  updated ← released_row q (lookup k s.levels)
  ok (updated, write k updated release (negated q) input.reference_id s)
