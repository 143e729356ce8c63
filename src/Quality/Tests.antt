-- ===== src/Quality/Tests.antt =====
-- An inspection of six units of one lot, four of which pass.
use werehouse.Prelude.{ℕ, refl, true, none, some, [], ◌∷◌, arith}
use werehouse.Prelude.Int.{pos, ◌-ℤ◌}
use werehouse.Prelude.Table.{nat_eq, lookup, insert}
use werehouse.Prelude.Rows.{AllRows}
use werehouse.Result.{value_or}
use werehouse.Stock.{product_key_eq, Product, weighted_average, Level, key_of}
use werehouse.Batches.{
  available, Batch, batch_key_eq, BatchStore, fefo, Allocated, in_order, allocate,
}
use werehouse.Quality.{
  QualityStore, CreateInspectionDto, RecordInspectionDto, create, record_inspection,
}
use werehouse.Quality.Verdicts.{IsSettled, records, Step-AllSettled}
use werehouse.Quality.Quarantine.{LeavesOut, allocate-create, allocate-record_inspection}

abbrev lot : ℕ → Batch
lot expiry = record {
  sku = 5;
  batch_number = some expiry;
  production_date = none;
  expiry_date = some expiry;
  status = available;
  initial_quantity = pos 6;
  quantity = pos 6;
  reserved = pos 0;
  unit_cost = pos 25000;
  created_at = 1;
}

abbrev free : ℕ → Level
free n = record { quantity = n; reserved = 0; available = n }

abbrev goods : Product
goods = record {
  cost_price = 25000;
  costing_method = weighted_average;
  batch_tracked = true;
  shelf_life_days = none;
}

abbrev lots : BatchStore
lots = record {
  stock = record {
    products = (record { tenant = 1; sku = 5 }, goods) ∷ [];
    levels = (key_of 1 5 2, free 12) ∷ [];
    movements = [];
  };
  batches = (11, lot 60) ∷ (12, lot 90) ∷ [];
  levels =
      (record { batch_id = 11; location = 2 }, free 6)
      ∷ (record { batch_id = 12; location = 2 }, free 6)
      ∷ [];
}

abbrev arrived : QualityStore
arrived = record { lots = lots; inspections = []; receipt_items = [] }

abbrev sample : CreateInspectionDto
sample = record {
  sku = 5;
  quantity_inspected = 6;
  batch_id = some 11;
  goods_receipt_item_id = none;
}

abbrev inspecting : QualityStore
inspecting = value_or arrived (create 1 8 sample arrived)

abbrev four_pass : RecordInspectionDto
four_pass = record { quantity_passed = pos 4; quantity_failed = none }

abbrev inspected : QualityStore
inspected = value_or inspecting (record_inspection 8 100 four_pass inspecting)

abbrev nothing_drawn : Allocated
nothing_drawn = record {
  requested = 0;
  allocated = 0;
  shortfall = 0;
  allocations = [];
  blocked = [];
}

abbrev proposal : QualityStore → Allocated
proposal st = value_or nothing_drawn (allocate (some 1) 5 (some (pos 7)) none fefo st.lots)

allocate-create_example : LeavesOut 11 (proposal inspecting).allocations
unfolding create allocate lookup insert in_order
allocate-create_example =
    allocate-create 1 8 11 sample arrived (some 1) 5 (some (pos 7)) none fefo (refl, (refl, tt))
      refl refl refl

allocate-record_inspection_example : LeavesOut 11 (proposal inspected).allocations
unfolding record_inspection create allocate lookup insert in_order ◌-ℤ◌
allocate-record_inspection_example =
    allocate-record_inspection 8 100 11 four_pass inspecting (some 1) 5 (some (pos 7)) none fefo
      (refl, (refl, tt)) refl refl (omega arith) refl refl

Step-AllSettled_example : AllRows IsSettled inspected.inspections
unfolding create record_inspection lookup insert ◌-ℤ◌
Step-AllSettled_example =
    Step-AllSettled 1 {st = inspecting} (records 8 100 four_pass refl)
      ((omega arith, (refl, refl)), tt)
