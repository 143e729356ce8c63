-- ===== src/Quality.antt =====
-- Quality inspections, backend-nest/src/quality/quality.service.ts: opening an inspection freezes its
-- batch, and the verdict releases or keeps it. The tables hold the rows of the request's tenant; the
-- tenant is named for the products alone.
pub mod Verdicts
pub mod Quarantine
mod Tests
use werehouse.Prelude.{ℕ, ◌+◌, Bool, true, false, not, Option, none, some}
use werehouse.Prelude.Tests.{ltb, nat_beq, if◌then◌else◌}
use werehouse.Prelude.Int.{ℤ, pos, pos_part, ◌-ℤ◌}
use werehouse.Prelude.Table.{Table, nat_eq, lookup, insert}
use werehouse.Result.{
  Result, ok, err, bad_request, not_found, conflict, ◌>>=◌, ◌>>◌, or_throw, throw_if,
  product_missing, inspection_missing, inspection_recorded, inspected_exceeded,
}
use werehouse.Stock.{product_key_eq, Store}
use werehouse.Batches.{
  BatchStatus, available, quarantine, rejected, Batch, batch_key_eq, BatchStore,
}

pub data QcStatus : Type 0 where
  pending passed failed partial : QcStatus

pub record QualityInspection : Type 0 where
  pub sku : ℕ
  pub batch_id : Option ℕ
  pub goods_receipt_item_id : Option ℕ
  pub quantity_inspected : ℕ
  pub quantity_passed : ℕ
  pub quantity_failed : ℕ
  pub status : QcStatus
  pub inspected_at : Option ℕ

-- The columns of a received line that an inspection writes.
pub record GoodsReceiptItem : Type 0 where
  pub qc_status : QcStatus
  pub qc_at : Option ℕ

pub record QualityStore : Type 0 where
  pub lots : BatchStore
  pub inspections : Table ℕ QualityInspection
  pub receipt_items : Table ℕ GoodsReceiptItem

-- The request's validation asks for a whole quantity of 1 or more.
pub record CreateInspectionDto : Type 0 where
  pub sku : ℕ
  pub quantity_inspected : ℕ
  pub batch_id : Option ℕ
  pub goods_receipt_item_id : Option ℕ

pub record RecordInspectionDto : Type 0 where
  pub quantity_passed : ℤ
  pub quantity_failed : Option ℤ

-- `productBatch.updateMany({ where: { id }, data: { status } })`
abbrev pub with_batch_status : Option ℕ → BatchStatus → BatchStore → BatchStore
with_batch_status none status lots = lots
with_batch_status (some id) status lots = elim (lookup id lots.batches) [
  | none ↦ lots
  | some b ↦ record lots { batches = insert id (record b { status = status }) lots.batches }
]

-- `goodsReceiptItem.updateMany({ where: { id }, data })`
abbrev pub with_qc :
    Option ℕ
    → (GoodsReceiptItem → GoodsReceiptItem)
    → Table ℕ GoodsReceiptItem
    → Table ℕ GoodsReceiptItem
with_qc none change items = items
with_qc (some id) change items = elim (lookup id items) [
  | none ↦ items
  | some i ↦ insert id (change i) items
]

abbrev pub opened : CreateInspectionDto → QualityInspection
opened dto = record {
  sku = dto.sku;
  batch_id = dto.batch_id;
  goods_receipt_item_id = dto.goods_receipt_item_id;
  quantity_inspected = dto.quantity_inspected;
  quantity_passed = 0;
  quantity_failed = 0;
  status = pending;
  inspected_at = none;
}

-- The database chooses the new inspection's `id`.
unfoldable pub create : ℕ → ℕ → CreateInspectionDto → QualityStore → Result QualityStore
create t id dto st = do
  _ ←
      or_throw (lookup (record { tenant = t; sku = dto.sku }) st.lots.stock.products)
        (not_found product_missing)
  ok (record st {
    lots = with_batch_status dto.batch_id quarantine st.lots;
    inspections = insert id (opened dto) st.inspections;
    receipt_items =
        with_qc dto.goods_receipt_item_id (λ i. record i { qc_status = pending }) st.receipt_items;
  })

-- `Math.max(0, Math.round(dto.quantityPassed))`
abbrev pub passed_units : RecordInspectionDto → ℕ
passed_units dto = pos_part dto.quantity_passed

-- `dto.quantityFailed ?? inspection.quantityInspected - passed`
abbrev pub failed_or : Option ℤ → ℤ → ℤ
failed_or none rest = rest
failed_or (some n) rest = n

abbrev pub failed_units : RecordInspectionDto → QualityInspection → ℕ
failed_units dto v =
    pos_part (failed_or dto.quantity_failed (pos v.quantity_inspected -ℤ pos (passed_units dto)))

unfoldable pub verdict : ℕ → ℕ → QcStatus
verdict good bad = if nat_beq bad 0 then passed else if nat_beq good 0 then failed else partial

abbrev pub batch_status_of : QcStatus → BatchStatus
batch_status_of passed = available
batch_status_of failed = rejected
batch_status_of _ = quarantine

abbrev pub is_pending : QcStatus → Bool
is_pending pending = true
is_pending _ = false

unfoldable pub judged : ℕ → RecordInspectionDto → QualityInspection → QualityInspection
unfolding verdict
judged now dto v = record v {
  quantity_passed = passed_units dto;
  quantity_failed = failed_units dto v;
  status = verdict (passed_units dto) (failed_units dto v);
  inspected_at = some now;
}

-- `record` of the source.
unfoldable pub record_inspection : ℕ → ℕ → RecordInspectionDto → QualityStore → Result QualityStore
unfolding judged
record_inspection id now dto st = do
  v ← or_throw (lookup id st.inspections) (not_found inspection_missing)
  throw_if (not (is_pending v.status)) (conflict inspection_recorded)
  throw_if (ltb v.quantity_inspected (passed_units dto + failed_units dto v))
      (bad_request inspected_exceeded)
  let w = judged now dto v
  ok (record st {
    lots = with_batch_status v.batch_id (batch_status_of w.status) st.lots;
    inspections = insert id w st.inspections;
    receipt_items =
        with_qc v.goods_receipt_item_id (λ i. record i { qc_status = w.status; qc_at = some now })
          st.receipt_items;
  })
