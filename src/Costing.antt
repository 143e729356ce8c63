-- ===== src/Costing.antt =====
-- Product costing, backend-nest/src/common/wms/costing.service.ts: revaluation of a product on a
-- receipt and the spreading of landed costs over invoice lines.
-- Costs, amounts and weights are whole numbers of their last decimal place (0.0001); a rounding to
-- four places is a rounding to the nearest whole number, a half upwards.
pub mod Average
pub mod Spread
pub mod Drift
mod Tests
use werehouse.Prelude.{
  ℕ, zero, suc, ◌+◌, ◌-◌, ◌*◌, ◌/◌, Bool, true, false, not, ◌&&◌, Option, none, some, List, [], ◌∷◌,
  map,
}
use werehouse.Prelude.Tests.{nat_beq, if◌then◌else◌}
use werehouse.Prelude.Int.{ℤ, pos, negsuc, sub_ℕ}
use werehouse.Prelude.Lists.{length, sum_by}
use werehouse.Prelude.Table.{Table, nat_eq, lookup, insert, total}
use werehouse.Stock.{
  StockKey, stock_key_eq, Level, Product, ProductKey, product_key_eq, CostingMethod,
  weighted_average, last_cost, standard, Store,
}

-- `div(d).toDecimalPlaces(4)`
unfoldable pub round_half_up : ℕ → ℕ → ℕ
round_half_up n d = (n * 2 + d) / (d * 2)

-- A row of `cost_history`.
pub record CostRow : Type 0 where
  pub sku : ℕ
  pub method : CostingMethod
  pub old_cost : ℕ
  pub new_cost : ℕ
  pub old_quantity : ℕ
  pub quantity_in : ℕ
  pub incoming_cost : ℕ

pub record CostStore : Type 0 where
  pub stock : Store
  pub history : List CostRow

-- The units of a SKU over all locations of the tenant, before the receipt.
abbrev pub units_of : ℕ → ℕ → StockKey → Level → ℕ
units_of tenant sku k l = if nat_beq k.tenant tenant && nat_beq k.sku sku then l.quantity else 0

unfoldable pub on_hand_total : ℕ → ℕ → Table StockKey Level → ℕ
on_hand_total tenant sku levels = total (units_of tenant sku) levels

unfoldable pub average_cost : ℕ → ℕ → ℕ → ℕ → ℕ
unfolding round_half_up
average_cost on_hand old_cost quantity_in incoming =
    if nat_beq (on_hand + quantity_in) 0
    then incoming
    else round_half_up (old_cost * on_hand + incoming * quantity_in) (on_hand + quantity_in)

unfoldable pub new_cost_of : CostingMethod → ℕ → ℕ → ℕ → ℕ → ℕ
unfolding average_cost
new_cost_of last_cost on_hand old_cost quantity_in incoming = incoming
new_cost_of standard on_hand old_cost quantity_in incoming = old_cost
new_cost_of weighted_average on_hand old_cost quantity_in incoming =
    average_cost on_hand old_cost quantity_in incoming

-- The product is revalued, and the history gets a row. The product's column has two decimal places, the
-- history's has four.
abbrev pub revalue : ℕ → ℕ → ℕ → ℕ → Product → CostStore → CostRow × CostStore
revalue tenant sku quantity_in incoming p st =
    let on_hand = on_hand_total tenant sku st.stock.levels in
    let new_cost = new_cost_of p.costing_method on_hand p.cost_price quantity_in incoming in
    let row : CostRow = record {
      sku = sku;
      method = p.costing_method;
      old_cost = p.cost_price;
      new_cost = new_cost;
      old_quantity = on_hand;
      quantity_in = quantity_in;
      incoming_cost = incoming;
    } in
    let key : ProductKey = record { tenant = tenant; sku = sku } in
    let products =
      if nat_beq new_cost p.cost_price
      then st.stock.products
      else insert key (record p { cost_price = 100 * round_half_up new_cost 100 })
          st.stock.products in
    (row, record st { stock = record st.stock { products = products }; history = row ∷ st.history })

abbrev pub revalue_found : ℕ → ℕ → ℕ → ℕ → Option Product → CostStore → Option CostRow × CostStore
revalue_found tenant sku quantity_in incoming none st = (none, st)
revalue_found tenant sku quantity_in incoming (some p) st =
    let (row, st') = revalue tenant sku quantity_in incoming p st in (some row, st')

-- `quantityIn` is the rounded number of units, `none` where it is not finite. A `null` result is
-- `none`.
unfoldable pub apply_inbound_cost : ℕ → ℕ → Option ℤ → ℕ → CostStore → Option CostRow × CostStore
unfolding new_cost_of on_hand_total
apply_inbound_cost tenant sku (some (pos (suc n))) incoming st =
    revalue_found tenant sku (suc n) incoming
      (lookup (record { tenant = tenant; sku = sku }) st.stock.products) st
apply_inbound_cost tenant sku (some (pos zero)) incoming st = (none, st)
apply_inbound_cost tenant sku (some (negsuc n)) incoming st = (none, st)
apply_inbound_cost tenant sku none incoming st = (none, st)

pub data AllocationMethod : Type 0 where
  by_value by_quantity by_weight manual : AllocationMethod

pub record CostLine : Type 0 where
  pub id : ℕ
  pub value : ℕ
  pub quantity : ℕ
  pub weight_kg : ℕ

unfoldable pub weight_of : AllocationMethod → CostLine → ℕ
weight_of by_quantity l = l.quantity
weight_of by_weight l = l.weight_kg
weight_of by_value l = l.value
weight_of manual l = l.value

-- The loop of both branches: each line takes its share, and the last one what is left.
unfoldable pub spread : (CostLine → ℕ) → ℕ → ℕ → List CostLine → List (ℕ × ℤ)
spread share amount allocated [] = []
spread share amount allocated (l ∷ []) = (l.id, sub_ℕ amount allocated) ∷ []
spread share amount allocated (l ∷ m ∷ lines) =
    (l.id, pos (share l)) ∷ spread share amount (allocated + share l) (m ∷ lines)

-- `result.set(line.id, share)` in turn.
unfoldable pub set_all : List (ℕ × ℤ) → Table ℕ ℤ → Table ℕ ℤ
set_all [] m = m
set_all ((id, share) ∷ rest) m = set_all rest (insert id share m)

unfoldable pub share_of : AllocationMethod → ℕ → List CostLine → CostLine → ℕ
unfolding round_half_up weight_of
share_of method amount lines l =
    let basis = sum_by (weight_of method) lines in
    if nat_beq basis 0
    then round_half_up amount (length lines)
    else round_half_up (amount * weight_of method l) basis

unfoldable pub allocate : AllocationMethod → ℕ → List CostLine → Table ℕ ℤ
unfolding share_of spread set_all
allocate method amount lines =
    if nat_beq amount 0
    then set_all (map (λ l. (l.id, pos 0)) lines) []
    else set_all (spread (share_of method amount lines) amount 0 lines) []
