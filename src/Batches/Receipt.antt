-- ===== src/Batches/Receipt.antt =====
-- The creation and receipt of batches, backend-nest/src/batches/batches.service.ts: `create`,
-- `update`, `receiveIntoBatchWithin` and `resolveExpiry`.
use werehouse.Prelude.{ℕ, ◌+◌, Bool, true, false, not, ◌&&◌, Option, none, some, [], ◌∷◌}
use werehouse.Prelude.Tests.{ltb, nat_beq, if◌then◌else◌}
use werehouse.Prelude.Int.{ℤ, pos, negsuc, is_neg, abs, ◌+ℤ◌, ◌-ℤ◌, ◌*ℤ◌}
use werehouse.Prelude.Table.{Table, nat_eq, lookup, insert}
use werehouse.Result.{
  Result, ok, bad_request, not_found, conflict, ◌>>=◌, ◌>>◌, or_throw, throw_if, positive_quantity,
  product_missing, batch_missing, batch_exists, batch_number_needed, expiry_needed,
}
use werehouse.Stock.{
  Level, product_key_eq, StockChange, require_tenant, apply_stock_change_within, stock_in,
}
use werehouse.Costing.{round_half_up}
use werehouse.Batches.{BatchStatus, available, Batch, BatchKey, batch_key_eq, BatchStore}

-- An explicit date wins; else the production date and a positive shelf life give one.
unfoldable pub resolve_expiry : Option ℕ → Option ℕ → Option ℕ → Option ℕ
resolve_expiry (some day) production shelf_life = some day
resolve_expiry none (some made) (some days) = if ltb 0 days then some (made + days) else none
resolve_expiry none _ _ = none

-- `a ?? b`
abbrev pub or_else {ℓ} : {A : Type ℓ} → Option A → Option A → Option A
or_else (some a) b = some a
or_else none b = b

abbrev pub or_value {ℓ} : {A : Type ℓ} → Option A → A → A
or_value (some a) b = a
or_value none b = b

abbrev pub is_none {ℓ} : {A : Type ℓ} → Option A → Bool
is_none none = true
is_none (some a) = false

abbrev pub same_number : Option ℕ → Option ℕ → Bool
same_number (some a) (some b) = nat_beq a b
same_number none none = true
same_number _ _ = false

-- The batch of a SKU with a number: the unique key of `product_batches`.
unfoldable pub find_batch : ℕ → Option ℕ → Table ℕ Batch → Option (ℕ × Batch)
find_batch sku number [] = none
find_batch sku number ((id, b) ∷ rest) =
    let later = find_batch sku number rest in
    if nat_beq b.sku sku && same_number b.batch_number number then some (id, b) else later

-- Signed products and quotients; a quotient is rounded to a whole number, a half away from zero.
abbrev pub scale : ℤ → ℤ → ℤ
scale (pos n) a = n *ℤ a
scale (negsuc n) a = pos 0 -ℤ (1 + n) *ℤ a

unfoldable pub round_div : ℤ → ℤ → ℤ
unfolding round_half_up
round_div n d =
    let size = round_half_up (abs n) (abs d) in
    elim (is_neg n) [
      | true ↦ if is_neg d then pos size else pos 0 -ℤ pos size
      | false ↦ if is_neg d then pos 0 -ℤ pos size else pos size
    ]

-- The cost of a batch that is topped up: the average of its units and the received ones.
unfoldable pub blended_cost : ℤ → ℤ → ℕ → ℤ → ℤ
unfolding round_div
blended_cost old_quantity old_cost quantity unit_cost =
    if nat_beq (abs (old_quantity +ℤ pos quantity)) 0
    then unit_cost
    else round_div (scale old_quantity old_cost +ℤ scale (pos quantity) unit_cost)
        (old_quantity +ℤ pos quantity)

pub record ReceiveIntoBatchInput : Type 0 where
  pub sku : ℕ
  pub location : ℕ
  pub quantity : Option ℤ
  pub batch_number : Option ℕ
  pub production_date : Option ℕ
  pub expiry_date : Option ℕ
  pub unit_cost : Option ℤ
  pub status : Option BatchStatus
  pub reference_id : Option ℕ

abbrev pub topped_up : ReceiveIntoBatchInput → ℕ → ℤ → Option ℕ → Batch → Batch
topped_up input q cost expiry b = record b {
  quantity = b.quantity +ℤ pos q;
  initial_quantity = b.initial_quantity +ℤ pos q;
  unit_cost = blended_cost b.quantity b.unit_cost q cost;
  expiry_date = or_else b.expiry_date expiry;
  production_date = or_else b.production_date input.production_date;
  status = or_value input.status b.status;
}

abbrev pub received_batch : ReceiveIntoBatchInput → ℕ → ℤ → Option ℕ → ℕ → Batch
received_batch input q cost expiry now = record {
  sku = input.sku;
  batch_number = input.batch_number;
  production_date = input.production_date;
  expiry_date = expiry;
  status = or_value input.status available;
  initial_quantity = pos q;
  quantity = pos q;
  reserved = pos 0;
  unit_cost = cost;
  created_at = now;
}

-- The id and the row that the receipt writes; `fresh` is the id of a new row.
abbrev pub receipt_row :
    ReceiveIntoBatchInput → ℕ → ℤ → Option ℕ → ℕ → ℕ → Option (ℕ × Batch) → ℕ × Batch
receipt_row input q cost expiry fresh now (some (id, b)) = (id, topped_up input q cost expiry b)
receipt_row input q cost expiry fresh now none = (fresh, received_batch input q cost expiry now)

-- INSERT ... ON CONFLICT of the sub-ledger.
abbrev pub received_level : ℕ → Option Level → Level
received_level q none = record { quantity = q; reserved = 0; available = q }
received_level q (some l) = record l { quantity = l.quantity + q; available = l.available + q }

abbrev pub receipt_change : ReceiveIntoBatchInput → ℕ → ℕ → StockChange
receipt_change input q id = record {
  sku = input.sku;
  location = input.location;
  change = some (pos q);
  type = some stock_in;
  reference_id = or_else input.reference_id (some id);
}

unfoldable pub receive_into_batch_within :
    Option ℕ → ReceiveIntoBatchInput → ℕ → ℕ → BatchStore → Result (ℕ × BatchStore)
unfolding positive_quantity require_tenant resolve_expiry find_batch
receive_into_batch_within scope input fresh now st = do
  t ← require_tenant scope
  q ← positive_quantity input.quantity
  p ←
      or_throw (lookup (record { tenant = t; sku = input.sku }) st.stock.products)
        (not_found product_missing)
  let expiry = resolve_expiry input.expiry_date input.production_date p.shelf_life_days
  throw_if (p.batch_tracked && is_none input.batch_number) (bad_request batch_number_needed)
  throw_if (p.batch_tracked && is_none expiry) (bad_request expiry_needed)
  let cost = or_value input.unit_cost (pos p.cost_price)
  let found = find_batch input.sku input.batch_number st.batches
  let row = receipt_row input q cost expiry fresh now found
  let place : BatchKey = record { batch_id = row.0; location = input.location }
  applied ← apply_stock_change_within scope (receipt_change input q row.0) st.stock
  ok (
    row.0,
    record {
      stock = applied.2;
      batches = insert row.0 row.1 st.batches;
      levels = insert place (received_level q (lookup place st.levels)) st.levels;
    },
  )

pub record CreateBatchDto : Type 0 where
  pub sku : ℕ
  pub batch_number : Option ℕ
  pub production_date : Option ℕ
  pub expiry_date : Option ℕ
  pub unit_cost : Option ℤ
  pub status : Option BatchStatus

-- An empty lot: the columns `initialQuantity`, `quantity` and `reserved` default to 0.
abbrev pub created_batch : CreateBatchDto → ℤ → Option ℕ → ℕ → Batch
created_batch dto cost expiry now = record {
  sku = dto.sku;
  batch_number = dto.batch_number;
  production_date = dto.production_date;
  expiry_date = expiry;
  status = or_value dto.status available;
  initial_quantity = pos 0;
  quantity = pos 0;
  reserved = pos 0;
  unit_cost = cost;
  created_at = now;
}

-- `tenant` is the one whose products the request sees.
unfoldable pub create : ℕ → CreateBatchDto → ℕ → ℕ → BatchStore → Result BatchStore
unfolding resolve_expiry find_batch
create tenant dto fresh now st = do
  p ←
      or_throw (lookup (record { tenant = tenant; sku = dto.sku }) st.stock.products)
        (not_found product_missing)
  let expiry = resolve_expiry dto.expiry_date dto.production_date p.shelf_life_days
  throw_if (p.batch_tracked && is_none expiry) (bad_request expiry_needed)
  throw_if (not (is_none (find_batch dto.sku dto.batch_number st.batches))) (conflict batch_exists)
  let cost = or_value dto.unit_cost (pos p.cost_price)
  ok (record st { batches = insert fresh (created_batch dto cost expiry now) st.batches })

-- The fields of the request that a correction of a batch sets; an absent one is kept.
pub record UpdateBatchDto : Type 0 where
  pub production_date : Option ℕ
  pub expiry_date : Option ℕ
  pub unit_cost : Option ℤ

unfoldable pub update : ℕ → UpdateBatchDto → BatchStore → Result BatchStore
update id dto st = do
  b ← or_throw (lookup id st.batches) (not_found batch_missing)
  ok (record st {
    batches =
        insert id
          (record b {
            production_date = or_else dto.production_date b.production_date;
            expiry_date = or_else dto.expiry_date b.expiry_date;
            unit_cost = or_value dto.unit_cost b.unit_cost;
          })
          st.batches;
  })
