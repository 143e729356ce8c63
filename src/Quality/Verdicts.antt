-- ===== src/Quality/Verdicts.antt =====
-- What the verdicts of the inspections say: `create` and `record` of
-- backend-nest/src/quality/quality.service.ts.
use werehouse.Prelude.{
  ℕ, ◌+◌, ◌≤◌, ◌<◌, ◌≡◌, refl, sym, ap, ◌∙◌, false, not, inl, inr, none, some, arith,
}
use werehouse.Prelude.Tests.{ltb, nat_beq, nat_beq_iff, Bool-cases}
use werehouse.Prelude.Table.{nat_eq, lookup, insert, lookup-insert}
use werehouse.Prelude.Rows.{AllRows, insert-AllRows}
use werehouse.Result.{
  ok, conflict, bad_request, or_throw, throw_if, >>=-eq-ok, or_throw-ok, throw_if-ok, ok-injective,
  inspection_recorded, inspected_exceeded,
}
use werehouse.Stock.{product_key_eq}
use werehouse.Quality.{
  QcStatus, pending, passed, failed, partial, QualityInspection, QualityStore, CreateInspectionDto,
  RecordInspectionDto, opened, failed_units, passed_units, with_batch_status, batch_status_of,
  with_qc, verdict, is_pending, judged, create, record_inspection,
}

abbrev pub judged_store :
    ℕ → ℕ → RecordInspectionDto → QualityInspection → QualityStore → QualityStore
judged_store id now dto v st =
    let w = judged now dto v in
    record st {
      lots = with_batch_status v.batch_id (batch_status_of w.status) st.lots;
      inspections = insert id w st.inspections;
      receipt_items =
          with_qc v.goods_receipt_item_id (λ i. record i { qc_status = w.status; qc_at = some now })
            st.receipt_items;
    }

-- What a recording that succeeds found and stored.
pub record Recorded (id now : ℕ) (dto : RecordInspectionDto) (st st' : QualityStore) : Type 0 where
  pub inspection : QualityInspection
  pub found : lookup id st.inspections ≡ some inspection
  pub undecided : inspection.status ≡ pending
  pub within : passed_units dto + failed_units dto inspection ≤ inspection.quantity_inspected
  pub stored : st' ≡ judged_store id now dto inspection st

is_pending-pending : (s : QcStatus) → not (is_pending s) ≡ false → s ≡ pending
is_pending-pending s h = ground arith

pub record-Recorded :
    (id now : ℕ) (dto : RecordInspectionDto) (st : QualityStore) {st' : QualityStore}
    → record_inspection id now dto st ≡ ok st'
    → Recorded id now dto st st'
unfolding record_inspection
record-Recorded id now dto st h =
    let (v, hv, h1) = >>=-eq-ok (or_throw (lookup id st.inspections) _) _ h in
    let (u, hu, h2) =
      >>=-eq-ok (throw_if (not (is_pending v.status)) (conflict inspection_recorded)) _ h1 in
    let (x, hx, h3) =
      >>=-eq-ok
        (throw_if (ltb v.quantity_inspected (passed_units dto + failed_units dto v))
          (bad_request inspected_exceeded))
        _ h2 in
    record {
      inspection = v;
      found = or_throw-ok _ _ hv;
      undecided = is_pending-pending v.status (throw_if-ok _ _ hu);
      within = ground (arith, throw_if-ok _ _ hx);
      stored = sym (ok-injective h3);
    }

-- What a status says of the units that passed and of those that failed.
abbrev pub Says : QcStatus → ℕ → ℕ → Type 0
Says pending good bad = (good ≡ 0) × (bad ≡ 0)
Says passed good bad = bad ≡ 0
Says failed good bad = (good ≡ 0) × (0 < bad)
Says partial good bad = (0 < good) × (0 < bad)

abbrev pub IsSettled : QualityInspection → Type 0
IsSettled v =
    (v.quantity_passed + v.quantity_failed ≤ v.quantity_inspected)
    × Says v.status v.quantity_passed v.quantity_failed

verdict-Says : (good bad : ℕ) → Says (verdict good bad) good bad
unfolding verdict
verdict-Says good bad = ground arith

-- One accepted call of the service; a new inspection has a new id.
pub data Step (t : ℕ) (st st' : QualityStore) : Type 0 where
  opens :
      (id : ℕ) (dto : CreateInspectionDto)
      → lookup id st.inspections ≡ none
      → create t id dto st ≡ ok st'
      → Step t st st'
  records :
      (id now : ℕ) (dto : RecordInspectionDto)
      → record_inspection id now dto st ≡ ok st'
      → Step t st st'

create-inspections :
    (t id : ℕ) (dto : CreateInspectionDto) (st : QualityStore) {st' : QualityStore}
    → create t id dto st ≡ ok st'
    → st'.inspections ≡ insert id (opened dto) st.inspections
unfolding create
create-inspections t id dto st h =
    let (p, hp, h1) = >>=-eq-ok (or_throw (lookup _ st.lots.stock.products) _) _ h in
    ap (λ (x : QualityStore). x.inspections) (sym (ok-injective h1))

-- Every call keeps the verdicts true: no more units are judged than were inspected, nothing is judged
-- of a pending inspection, no unit failed of a passed one, none passed but some failed of a failed
-- one, and of a partial one some passed and some failed.
pub Step-AllSettled :
    (t : ℕ) {st st' : QualityStore}
    → Step t st st'
    → AllRows IsSettled st.inspections
    → AllRows IsSettled st'.inspections
unfolding judged
Step-AllSettled t {st = st} (opens id dto new done) h =
    rw (create-inspections t id dto st done)
      (insert-AllRows IsSettled id _ st.inspections h (omega arith, (refl, refl)))
Step-AllSettled t {st = st} (records id now dto done) h =
    let r = record-Recorded id now dto st done in
    rw r.stored (
      insert-AllRows IsSettled id _ st.inspections h
        (r.within, verdict-Says (passed_units dto) (failed_units dto r.inspection)))

-- A verdict is final: no call changes an inspection that has one.
pub Step-judged :
    (t id : ℕ) {st st' : QualityStore} {v : QualityInspection}
    → Step t st st'
    → lookup id st.inspections ≡ some v
    → ¬ (v.status ≡ pending)
    → lookup id st'.inspections ≡ some v
Step-judged t id {st = st} (opens k dto new done) found judged_before =
    elim (Bool-cases (nat_beq k id)) [
      | inl same ↦ cc (new, found, (nat_beq_iff k id).0 same)
      | inr other ↦
          rw
            (
              create-inspections t k dto st done,
              lookup-insert k id (opened dto) st.inspections,
              other,
            )
            found
    ]
Step-judged t id {st = st} {v = v} (records k now dto done) found judged_before =
    let r = record-Recorded k now dto st done in
    elim (Bool-cases (nat_beq k id)) [
      | inl same ↦
          let one : r.inspection ≡ v = cc (r.found, found, (nat_beq_iff k id).0 same) in
          absurd (judged_before (ap (λ (x : QualityInspection). x.status) (sym one) ∙ r.undecided))
      | inr other ↦
          rw (r.stored, lookup-insert k id (judged now dto r.inspection) st.inspections, other)
            found
    ]
