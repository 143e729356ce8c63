-- ===== src/Counts/Tests.antt =====
-- A count of two lines, one of them short, recorded and closed.
use werehouse.Prelude.{ℕ, ◌≡◌, refl, false, none, some, List, [], ◌∷◌, arith}
use werehouse.Prelude.Int.{pos, negsuc, ◌+ℤ◌, ◌-ℤ◌}
use werehouse.Prelude.Table.{nat_eq, lookup, insert}
use werehouse.Result.{value_or}
use werehouse.Stock.{
  stock_key_eq, product_key_eq, Product, weighted_average, Level, key_of, apply_stock_change_within,
}
use werehouse.Stock.Effects.{on_hand}
use werehouse.Ledger.{role_code}
use werehouse.Counts.{
  pending, in_progress, review, CountItem, CycleCount, CountStore, CountLine, record_counts,
  approve,
}
use werehouse.Counts.Recording.{AllRecorded, IsSummed, book, record_counts-AllRecorded}
use werehouse.Counts.Closing.{approve-counted}

abbrev goods : Product
goods = record {
  cost_price = 25000;
  costing_method = weighted_average;
  batch_tracked = false;
  shelf_life_days = none;
}

abbrev line : ℕ → ℕ → CountItem
line location n = record {
  sku = 5;
  location = location;
  system_quantity = n;
  counted_quantity = none;
  variance = pos 0;
  variance_value = pos 0;
  status = pending;
  recount_required = false;
}

abbrev counting : CycleCount
counting = record {
  status = in_progress;
  items = (1, line 2 100) ∷ (2, line 3 40) ∷ [];
  counted_lines = 0;
  variance_lines = 0;
  variance_value = pos 0;
  adjustments_posted = false;
}

abbrev free : ℕ → Level
free n = record { quantity = n; reserved = 0; available = n }

abbrev open_count : CountStore
open_count = record {
  stock = record {
    products = (record { tenant = 1; sku = 5 }, goods) ∷ [];
    levels = (key_of 1 5 2, free 100) ∷ (key_of 1 5 3, free 40) ∷ [];
    movements = [];
  };
  books = record { account_of = λ r. some (role_code r); entries = [] };
  counts = (7, counting) ∷ [];
}

abbrev counted_lines : List CountLine
counted_lines =
    record { item_id = 1; counted_quantity = pos 98 }
    ∷ record { item_id = 2; counted_quantity = pos 40 }
    ∷ []

abbrev recorded : CountStore
recorded = value_or open_count (record_counts 1 7 counted_lines open_count)

counting-AllRecorded : AllRecorded counting.items
unfolding AllRecorded lookup
counting-AllRecorded i item h n e = ground arith

record_counts-AllRecorded_example :
    (c' : CycleCount) × (lookup 7 recorded.counts ≡ some c')
    × AllRecorded c'.items
    × ((i : ℕ) → book (lookup i c'.items) ≡ book (lookup i counting.items))
    × IsSummed c'
unfolding record_counts lookup insert
record_counts-AllRecorded_example =
    record_counts-AllRecorded 1 7 counted_lines open_count counting refl counting-AllRecorded refl

-- The count as recorded: two units are missing at the first place.
abbrev short : CountItem
short = record (line 2 100) {
  counted_quantity = some 98;
  variance = negsuc 1;
  variance_value = negsuc 499;
}

abbrev exact : CountItem
exact = record (line 3 40) { counted_quantity = some 40 }

abbrev reviewed : CycleCount
reviewed = record counting {
  status = review;
  items = (1, short) ∷ (2, exact) ∷ [];
  counted_lines = 2;
  variance_lines = 1;
  variance_value = negsuc 499;
}

abbrev to_close : CountStore
to_close = record open_count { counts = (7, reviewed) ∷ [] }

abbrev closed : CountStore
closed = value_or to_close (approve (some 1) 2026 12 7 false to_close)

approve-counted_example : on_hand (lookup (key_of 1 5 2) closed.stock.levels) ≡ 98
unfolding approve lookup insert apply_stock_change_within ◌+ℤ◌ ◌-ℤ◌
approve-counted_example =
    approve-counted 1 2026 12 7 false to_close reviewed 1 98 short [] ((2, exact) ∷ []) refl refl
      refl refl refl tt (refl, tt) refl
