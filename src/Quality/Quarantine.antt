-- ===== src/Quality/Quarantine.antt =====
-- What the batch allocation does with an inspected batch: backend-nest/src/quality/quality.service.ts
-- and `allocate` of backend-nest/src/batches/batches.service.ts.
use werehouse.Prelude.{
  ℕ, ◌≡◌, refl, sym, ap, ◌∙◌, ◌<◌, false, inl, inr, Option, some, List, [], ◌∷◌, arith,
}
use werehouse.Prelude.Tests.{Option-cases}
use werehouse.Prelude.Int.{ℤ}
use werehouse.Prelude.Lists.{All}
use werehouse.Prelude.Table.{nat_eq, lookup, lookup-insert_self, IsUnique}
use werehouse.Result.{ok, or_throw, >>=-eq-ok, ok-injective}
use werehouse.Stock.{product_key_eq}
use werehouse.Batches.{
  BatchStatus, is_sellable, Batch, batch_key_eq, BatchStore, BatchAllocation, Strategy, Allocated,
  allocate,
}
use werehouse.Batches.Allocation.{AllocationBacked, allocate-IsBacked}
use werehouse.Quality.Verdicts.{record-Recorded}
use werehouse.Quality.{
  QualityInspection, QualityStore, CreateInspectionDto, RecordInspectionDto, failed_units,
  passed_units, with_batch_status, batch_status_of, verdict, create, record_inspection, judged,
}

-- No allocation of a proposal is of the batch.
abbrev pub LeavesOut : ℕ → List BatchAllocation → Type 0
LeavesOut id allocations = All (λ (a : BatchAllocation). ¬ (a.batch_id ≡ id)) allocations

-- The batch has no row, or one that may not be sold.
abbrev Frozen : ℕ → BatchStore → Type 0
Frozen id lots = (b : Batch) → lookup id lots.batches ≡ some b → is_sellable b.status ≡ false

with_batch_status-Frozen :
    (id : ℕ) (status : BatchStatus) (lots : BatchStore)
    → is_sellable status ≡ false
    → Frozen id (with_batch_status (some id) status lots)
with_batch_status-Frozen id status lots frozen b h = elim (Option-cases (lookup id lots.batches)) [
  | inl missing ↦ cc (missing, rw (with_batch_status, missing) at h)
  | inr (old, found) ↦
      let row = lookup-insert_self id (record old { status = status }) lots.batches in
      let same : record old { status = status } ≡ b =
        cc (row, rw (with_batch_status, found) at h) in
      ap (λ (x : Batch). is_sellable x.status) (sym same) ∙ frozen
]

Frozen-LeavesOut :
    (id sku : ℕ) (location : Option ℕ) (lots : BatchStore) (allocations : List BatchAllocation)
    → Frozen id lots
    → All (AllocationBacked sku location lots.batches lots.levels) allocations
    → LeavesOut id allocations
Frozen-LeavesOut id sku location lots [] frozen h = tt
Frozen-LeavesOut id sku location lots (a ∷ rest) frozen h = (
  λ same.
      let backed = h.0.2 in
      let unsold =
        frozen backed.batch (ap (λ j. lookup j lots.batches) (sym same) ∙ backed.batch_row) in
      ground (arith, unsold, backed.passes),
  Frozen-LeavesOut id sku location lots rest frozen h.1,
)

-- Once an inspection that names a batch is opened, no batch proposal draws from that batch, whatever
-- the product, quantity, place and strategy. The rows of the sub-ledger have different keys.
pub allocate-create :
    (t id batch_id : ℕ) (dto : CreateInspectionDto) (st : QualityStore) {st' : QualityStore}
    (scope : Option ℕ) (sku : ℕ) (quantity : Option ℤ) (location : Option ℕ) (s : Strategy)
    {r : Allocated}
    → IsUnique st'.lots.levels
    → dto.batch_id ≡ some batch_id
    → create t id dto st ≡ ok st'
    → allocate scope sku quantity location s st'.lots ≡ ok r
    → LeavesOut batch_id r.allocations
unfolding create
allocate-create t id batch_id dto st {st' = st'} scope sku quantity location s {r = r} unique named
      h proposed =
    let (p, hp, h1) = >>=-eq-ok (or_throw (lookup _ st.lots.stock.products) _) _ h in
    let stored = ap (λ (x : QualityStore). x.lots) (sym (ok-injective h1)) in
    Frozen-LeavesOut batch_id sku location st'.lots r.allocations
      (rw (stored, named) (with_batch_status-Frozen batch_id _ st.lots refl))
      (allocate-IsBacked scope sku quantity location s st'.lots r unique proposed)

verdict-unsold : (good bad : ℕ) → 0 < bad → is_sellable (batch_status_of (verdict good bad)) ≡ false
unfolding verdict
verdict-unsold good bad h = ground arith

-- An inspection of a batch that is recorded with a failed unit keeps the batch out of every batch
-- proposal, partly failed or not. The rows of the sub-ledger have different keys.
pub allocate-record_inspection :
    (id now batch_id : ℕ) (dto : RecordInspectionDto) (st : QualityStore) {st' : QualityStore}
    {v : QualityInspection} (scope : Option ℕ) (sku : ℕ) (quantity : Option ℤ) (location : Option ℕ)
    (s : Strategy) {r : Allocated}
    → IsUnique st'.lots.levels
    → lookup id st.inspections ≡ some v
    → v.batch_id ≡ some batch_id
    → 0 < failed_units dto v
    → record_inspection id now dto st ≡ ok st'
    → allocate scope sku quantity location s st'.lots ≡ ok r
    → LeavesOut batch_id r.allocations
unfolding judged
allocate-record_inspection id now batch_id dto st {st' = st'} {v = v} scope sku quantity location s
      {r = r} unique found named bad h proposed =
    let done = record-Recorded id now dto st h in
    let same : done.inspection ≡ v = cc (done.found, found) in
    Frozen-LeavesOut batch_id sku location st'.lots r.allocations
      (rw (done.stored, same, named)
        (with_batch_status-Frozen batch_id _ st.lots
          (verdict-unsold (passed_units dto) (failed_units dto v) bad)))
      (allocate-IsBacked scope sku quantity location s st'.lots r unique proposed)
