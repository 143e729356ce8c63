-- ===== src/Batches.antt =====
-- Batches (lots) and their sub-ledger, backend-nest/src/batches/batches.service.ts: the FEFO and
-- FIFO allocation, consumption, reservation and release, receipt, status and expiry.
-- The tables hold the rows of the request's tenant. Dates are day numbers, costs are whole numbers
-- of their last decimal place.
pub mod Offers
pub mod Greedy
pub mod Allocation
pub mod Ledgers
pub mod Receipt
mod Tests
use werehouse.Prelude.{
  ℕ, zero, suc, ◌+◌, ◌-◌, ◌*◌, ◌/◌, ◌↔◌, ◌≡◌, Bool, true, false, not, ◌&&◌, ◌||◌, Option, none,
  some, List, [], ◌∷◌, min, arith,
}
use werehouse.Prelude.Tests.{leb, ltb, nat_beq, if◌then◌else◌}
use werehouse.Prelude.Int.{ℤ, pos, negsuc, is_neg, is_pos, abs, ◌+ℤ◌, ◌-ℤ◌, ◌*ℤ◌}
use werehouse.Prelude.Lists.{keep}
use werehouse.Prelude.Table.{Table, Eq, nat_eq, lookup, insert}
use werehouse.Result.{
  Result, ok, err, bad_request, not_found, conflict, ◌>>=◌, ◌>>◌, or_throw, throw_if,
  positive_quantity, product_missing, batch_missing, batch_reserved, batch_short,
  batch_number_needed, expiry_needed,
}
use werehouse.Stock.{
  Level, Product, product_key_eq, Store, StockChange, negated, require_tenant,
  apply_stock_change_within, stock_in, stock_out,
}

pub data BatchStatus : Type 0 where
  available quarantine near_expiry expired consumed rejected : BatchStatus

-- SELLABLE_BATCH_STATUSES
abbrev pub is_sellable : BatchStatus → Bool
is_sellable available = true
is_sellable near_expiry = true
is_sellable _ = false

-- A row of `product_batches`; an empty batch number is `none`. Prisma's increments and decrements of
-- `quantity` and `reserved` are unguarded, so both are signed.
pub record Batch : Type 0 where
  pub sku : ℕ
  pub batch_number : Option ℕ
  pub production_date : Option ℕ
  pub expiry_date : Option ℕ
  pub status : BatchStatus
  pub initial_quantity : ℤ
  pub quantity : ℤ
  pub reserved : ℤ
  pub unit_cost : ℤ
  pub created_at : ℕ

-- A row of `batch_stock_levels` is found by its batch and location.
pub record BatchKey : Type 0 where
  pub batch_id : ℕ
  pub location : ℕ

abbrev pub same_batch_key : BatchKey → BatchKey → Bool
same_batch_key a b = nat_beq a.batch_id b.batch_id && nat_beq a.location b.location

pub same_batch_key_iff : (a b : BatchKey) → (same_batch_key a b ≡ true) ↔ (a ≡ b)
same_batch_key_iff a b = ground arith

instance abbrev pub batch_key_eq : Eq BatchKey
batch_key_eq = record { beq = same_batch_key; beq_iff = same_batch_key_iff }

pub record BatchStore : Type 0 where
  pub stock : Store
  pub batches : Table ℕ Batch
  pub levels : Table BatchKey Level

pub data Strategy : Type 0 where
  fefo fifo : Strategy

-- A row of the query of `candidateBatches`.
pub record Candidate : Type 0 where
  pub batch_id : ℕ
  pub location : ℕ
  pub available : ℕ
  pub unit_cost : ℤ
  pub expiry_date : Option ℕ
  pub created_at : ℕ

pub record BatchAllocation : Type 0 where
  pub batch_id : ℕ
  pub sku : ℕ
  pub location : ℕ
  pub quantity : ℕ
  pub unit_cost : ℤ
  pub expiry_date : Option ℕ

-- The conditions of the WHERE clause; a request may name no location.
abbrev pub at_location : Option ℕ → ℕ → Bool
at_location none location = true
at_location (some l) location = nat_beq location l

abbrev pub is_candidate : ℕ → Option ℕ → BatchKey → Level → Batch → Bool
is_candidate sku location k l b =
    nat_beq b.sku sku
    && is_sellable b.status
    && ltb 0 l.available
    && at_location location k.location

abbrev pub candidate_of : BatchKey → Level → Batch → Candidate
candidate_of k l b = record {
  batch_id = k.batch_id;
  location = k.location;
  available = l.available;
  unit_cost = b.unit_cost;
  expiry_date = b.expiry_date;
  created_at = b.created_at;
}

-- The join of the two tables, before its rows are ordered.
unfoldable pub joined : ℕ → Option ℕ → Table ℕ Batch → Table BatchKey Level → List Candidate
joined sku location batches [] = []
joined sku location batches ((k, l) ∷ levels) =
    let rest = joined sku location batches levels in
    elim (lookup k.batch_id batches) [
      | none ↦ rest
      | some b ↦ if is_candidate sku location k l b then candidate_of k l b ∷ rest else rest
    ]

-- `"expiryDate" ASC NULLS LAST`: a date before none, and an earlier date before a later one.
abbrev pub expires_before : Option ℕ → Option ℕ → Bool
expires_before (some a) (some b) = ltb a b
expires_before (some a) none = true
expires_before none _ = false

-- The ORDER BY of a strategy: whether `a` may stand before `b`.
unfoldable pub in_order : Strategy → Candidate → Candidate → Bool
in_order fifo a b = leb a.created_at b.created_at
in_order fefo a b =
    expires_before a.expiry_date b.expiry_date
    || (not (expires_before b.expiry_date a.expiry_date) && leb a.created_at b.created_at)

unfoldable pub place : Strategy → Candidate → List Candidate → List Candidate
place strategy c [] = c ∷ []
place strategy c (d ∷ ds) =
    let further = d ∷ place strategy c ds in if in_order strategy c d then c ∷ d ∷ ds else further

unfoldable pub order_by : Strategy → List Candidate → List Candidate
unfolding place
order_by strategy [] = []
order_by strategy (c ∷ cs) = place strategy c (order_by strategy cs)

unfoldable pub candidate_batches : ℕ → Option ℕ → Strategy → BatchStore → List Candidate
unfolding joined order_by
candidate_batches sku location strategy st =
    order_by strategy (joined sku location st.batches st.levels)

abbrev pub allocation_of : ℕ → ℕ → Candidate → BatchAllocation
allocation_of sku take c = record {
  batch_id = c.batch_id;
  sku = sku;
  location = c.location;
  quantity = take;
  unit_cost = c.unit_cost;
  expiry_date = c.expiry_date;
}

-- The loop of `allocate`: the allocations, and what remains.
unfoldable pub take_from : ℕ → ℕ → List Candidate → List BatchAllocation × ℕ
take_from sku remaining [] = ([], remaining)
take_from sku remaining (c ∷ cs) =
    let take = min remaining c.available in
    let skipped = take_from sku remaining cs in
    let rest = take_from sku (remaining - take) cs in
    let taken : List BatchAllocation × ℕ = (allocation_of sku take c ∷ rest.0, rest.1) in
    if nat_beq remaining 0 then ([], remaining) else if nat_beq take 0 then skipped else taken

pub record Allocated : Type 0 where
  pub requested : ℕ
  pub allocated : ℕ
  pub shortfall : ℕ
  pub allocations : List BatchAllocation
  pub blocked : List (ℕ × Batch)

-- The batches of the SKU that hold units but may not be sold, the first 20 of them.
abbrev pub first {ℓ} : {A : Type ℓ} → ℕ → List A → List A
first zero xs = []
first (suc n) [] = []
first (suc n) (x ∷ xs) = x ∷ first n xs

unfoldable pub blocked_batches : ℕ → Table ℕ Batch → List (ℕ × Batch)
blocked_batches sku batches =
    first 20 (
      keep (λ r. nat_beq r.1.sku sku && is_pos r.1.quantity && not (is_sellable r.1.status))
        batches)

unfoldable pub allocate :
    Option ℕ → ℕ → Option ℤ → Option ℕ → Strategy → BatchStore → Result Allocated
unfolding positive_quantity require_tenant candidate_batches take_from blocked_batches
allocate scope sku quantity location strategy st = do
  q ← positive_quantity quantity
  _ ← require_tenant scope
  let drawn = take_from sku q (candidate_batches sku location strategy st)
  ok (record {
    requested = q;
    allocated = q - drawn.1;
    shortfall = drawn.1;
    allocations = drawn.0;
    blocked = blocked_batches sku st.batches;
  })

-- The conditional UPDATE of one row of the sub-ledger: WHERE available >= quantity.
unfoldable pub available_row : ℕ → Option Level → Result Level
available_row q none = err (conflict batch_short)
available_row q (some l) = if leb q l.available then ok l else err (conflict batch_short)

abbrev pub key_of_allocation : BatchAllocation → BatchKey
key_of_allocation a = record { batch_id = a.batch_id; location = a.location }

abbrev pub consumed_level : ℕ → Level → Level
consumed_level q l = record l { quantity = l.quantity - q; available = l.available - q }

-- A batch drained to zero becomes CONSUMED.
abbrev pub drained : Batch → Batch
drained b = if is_pos b.quantity then b else record b { status = consumed }

abbrev pub deduction : BatchAllocation → Option ℕ → StockChange
deduction a reference = record {
  sku = a.sku;
  location = a.location;
  change = some (negated a.quantity);
  type = some stock_out;
  reference_id = reference;
}

unfoldable pub consume_one : Option ℕ → Option ℕ → BatchAllocation → BatchStore → Result BatchStore
unfolding available_row
consume_one scope reference a st = do
  l ← available_row a.quantity (lookup (key_of_allocation a) st.levels)
  b ← or_throw (lookup a.batch_id st.batches) (not_found batch_missing)
  applied ← apply_stock_change_within scope (deduction a reference) st.stock
  ok (record {
    stock = applied.2;
    batches =
        insert a.batch_id (drained (record b { quantity = b.quantity -ℤ pos a.quantity }))
          st.batches;
    levels = insert (key_of_allocation a) (consumed_level a.quantity l) st.levels;
  })

unfoldable pub consume_all :
    Option ℕ → Option ℕ → List BatchAllocation → BatchStore → Result BatchStore
unfolding consume_one
consume_all scope reference [] st = ok st
consume_all scope reference (a ∷ rest) st =
    consume_one scope reference a st >>= λ st'. consume_all scope reference rest st'

unfoldable pub consume_within :
    Option ℕ → Option ℕ → List BatchAllocation → BatchStore → Result BatchStore
unfolding require_tenant consume_all
consume_within scope reference allocations st = do
  _ ← require_tenant scope
  consume_all scope reference allocations st

abbrev pub reserved_level : ℕ → Level → Level
reserved_level q l = record l { reserved = l.reserved + q; available = l.available - q }

unfoldable pub reserve_one : BatchAllocation → BatchStore → Result BatchStore
unfolding available_row
reserve_one a st = do
  l ← available_row a.quantity (lookup (key_of_allocation a) st.levels)
  b ← or_throw (lookup a.batch_id st.batches) (not_found batch_missing)
  ok (record st {
    batches = insert a.batch_id (record b { reserved = b.reserved +ℤ pos a.quantity }) st.batches;
    levels = insert (key_of_allocation a) (reserved_level a.quantity l) st.levels;
  })

unfoldable pub reserve_all : List BatchAllocation → BatchStore → Result BatchStore
unfolding reserve_one
reserve_all [] st = ok st
reserve_all (a ∷ rest) st = reserve_one a st >>= λ st'. reserve_all rest st'

unfoldable pub reserve_within : Option ℕ → List BatchAllocation → BatchStore → Result BatchStore
unfolding require_tenant reserve_all
reserve_within scope allocations st = do _ ← require_tenant scope; reserve_all allocations st

-- `reserved = GREATEST(0, reserved - q), available = available + LEAST(reserved, q)`; no row, no
-- change. The batch is decremented by the whole of `q`.
abbrev pub released_level : ℕ → Level → Level
released_level q l = record l {
  reserved = l.reserved - q;
  available = l.available + min l.reserved q;
}

abbrev pub release_level : BatchAllocation → Table BatchKey Level → Table BatchKey Level
release_level a levels = elim (lookup (key_of_allocation a) levels) [
  | none ↦ levels
  | some l ↦ insert (key_of_allocation a) (released_level a.quantity l) levels
]

unfoldable pub release_one : BatchAllocation → BatchStore → Result BatchStore
release_one a st = do
  b ← or_throw (lookup a.batch_id st.batches) (not_found batch_missing)
  ok (record st {
    batches = insert a.batch_id (record b { reserved = b.reserved -ℤ pos a.quantity }) st.batches;
    levels = release_level a st.levels;
  })

unfoldable pub release_all : List BatchAllocation → BatchStore → Result BatchStore
unfolding release_one
release_all [] st = ok st
release_all (a ∷ rest) st = release_one a st >>= λ st'. release_all rest st'

unfoldable pub release_within : Option ℕ → List BatchAllocation → BatchStore → Result BatchStore
unfolding require_tenant release_all
release_within scope allocations st = do _ ← require_tenant scope; release_all allocations st

-- Quarantine, release, reject, write off: a batch with reserved units stays sellable.
unfoldable pub set_status : ℕ → BatchStatus → BatchStore → Result BatchStore
set_status id status st = do
  b ← or_throw (lookup id st.batches) (not_found batch_missing)
  throw_if (is_pos b.reserved && not (is_sellable status)) (conflict batch_reserved)
  ok (record st { batches = insert id (record b { status = status }) st.batches })
