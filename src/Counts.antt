-- ===== src/Counts.antt =====
-- Cycle counts, backend-nest/src/cycle-counts/cycle-counts.service.ts: start, recording of counted
-- lines, approval with its stock adjustments and journal entry, and cancellation.
-- The rows of a batch-tracked line's batch, which an approval also increments, are not part of this
-- model. Costs are in units of 0.0001, values of a variance in units of 0.01.
pub mod Recording
pub mod Closing
mod Tests
use werehouse.Prelude.{
  ℕ, zero, suc, ◌+◌, ◌*◌, Bool, true, false, not, ◌&&◌, ◌||◌, Option, none, some, List, [], ◌∷◌,
}
use werehouse.Prelude.Tests.{leb, ltb, nat_beq, if◌then◌else◌}
use werehouse.Prelude.Int.{ℤ, pos, abs, pos_part, sub_ℕ, ◌+ℤ◌, ◌*ℤ◌}
use werehouse.Prelude.Lists.{length, keep}
use werehouse.Prelude.Table.{Table, nat_eq, lookup, insert}
use werehouse.Result.{
  Result, ok, bad_request, not_found, conflict, ◌>>=◌, ◌>>◌, or_throw, throw_if, count_missing,
  count_not_draft, count_not_in_progress, count_completed, count_cancelled, line_not_in_document,
  lines_uncounted, lines_to_recount,
}
use werehouse.Stock.{
  Product, product_key_eq, Store, StockChange, apply_stock_change_within, adjustment,
}
use werehouse.Ledger.{
  PostInput, cycle_count, Books, PostResult, is_zero, post_within, cycle_count_lines, is_empty,
}
use werehouse.Batches.Receipt.{scale, round_div}

pub data CountStatus : Type 0 where
  draft in_progress review completed cancelled : CountStatus

pub data CountItemStatus : Type 0 where
  pending counted recount approved rejected : CountItemStatus

-- A row of `cycle_count_items`; `system_quantity` is the book quantity when the count was created.
pub record CountItem : Type 0 where
  pub sku : ℕ
  pub location : ℕ
  pub system_quantity : ℕ
  pub counted_quantity : Option ℕ
  pub variance : ℤ
  pub variance_value : ℤ
  pub status : CountItemStatus
  pub recount_required : Bool

pub record CycleCount : Type 0 where
  pub status : CountStatus
  pub items : Table ℕ CountItem
  pub counted_lines : ℕ
  pub variance_lines : ℕ
  pub variance_value : ℤ
  pub adjustments_posted : Bool

pub record CountStore : Type 0 where
  pub stock : Store
  pub books : Books
  pub counts : Table ℕ CycleCount

abbrev pub is_draft : CountStatus → Bool
is_draft draft = true
is_draft _ = false

abbrev pub is_in_progress : CountStatus → Bool
is_in_progress in_progress = true
is_in_progress _ = false

abbrev pub is_completed : CountStatus → Bool
is_completed completed = true
is_completed _ = false

abbrev pub is_cancelled : CountStatus → Bool
is_cancelled cancelled = true
is_cancelled _ = false

unfoldable pub start : ℕ → CountStore → Result CountStore
start id st = do
  c ← or_throw (lookup id st.counts) (not_found count_missing)
  throw_if (not (is_draft c.status)) (conflict count_not_draft)
  ok (record st { counts = insert id (record c { status = in_progress }) st.counts })

-- Five units off, or a tenth of the book quantity.
unfoldable pub needs_recount : ℤ → ℕ → Bool
needs_recount variance system_quantity =
    let absolute = abs variance in
    not (nat_beq absolute 0)
    && (leb 5 absolute || (ltb 0 system_quantity && leb system_quantity (absolute * 10)))

-- The cost of a product, 0 where it is not found, and the value of a variance.
abbrev pub cost_or_zero : Option Product → ℕ
cost_or_zero none = 0
cost_or_zero (some p) = p.cost_price

unfoldable pub value_of : ℕ → ℤ → ℤ
unfolding round_div
value_of cost variance = round_div (scale (pos cost) variance) (pos 100)

abbrev pub cost_of : ℕ → ℕ → Store → ℕ
cost_of tenant sku s = cost_or_zero (lookup (record { tenant = tenant; sku = sku }) s.products)

-- One physical count of a line; `Math.max(0, ...)` of the rounded number.
pub record CountLine : Type 0 where
  pub item_id : ℕ
  pub counted_quantity : ℤ

unfoldable pub recorded_item : ℕ → ℕ → CountItem → CountItem
unfolding needs_recount value_of
recorded_item cost n item =
    let variance = sub_ℕ n item.system_quantity in
    record item {
      counted_quantity = some n;
      variance = variance;
      variance_value = value_of cost variance;
      status = counted;
      recount_required = needs_recount variance item.system_quantity;
    }

-- The loop over the lines: `original` are the items as read before the transaction.
unfoldable pub record_lines :
    ℕ → Store → Table ℕ CountItem → List CountLine → Table ℕ CountItem → Result (Table ℕ CountItem)
unfolding recorded_item
record_lines tenant s original [] items = ok items
record_lines tenant s original (line ∷ lines) items =
    or_throw (lookup line.item_id original) (bad_request line_not_in_document) >>= λ item.
    record_lines tenant s original lines (
      insert line.item_id
        (recorded_item (cost_of tenant item.sku s) (pos_part line.counted_quantity) item) items)

abbrev pub is_counted : ℕ × CountItem → Bool
is_counted r = elim r.1.counted_quantity [ none ↦ false | some n ↦ true ]

abbrev pub is_adjusted : ℕ × CountItem → Bool
is_adjusted r = is_counted r && not (is_zero r.1.variance)

unfoldable pub value_total : Table ℕ CountItem → ℤ
value_total [] = pos 0
value_total (r ∷ items) = r.1.variance_value +ℤ value_total items

-- The header after the lines.
unfoldable pub recorded_count : Table ℕ CountItem → CycleCount → CycleCount
unfolding value_total
recorded_count items c =
    let counted_lines = length (keep is_counted items) in
    record c {
      items = items;
      counted_lines = counted_lines;
      variance_lines = length (keep is_adjusted items);
      variance_value = value_total items;
      status = if leb (length items) counted_lines then review else in_progress;
    }

-- `tenant` is the one whose products the request sees.
unfoldable pub record_counts : ℕ → ℕ → List CountLine → CountStore → Result CountStore
unfolding record_lines recorded_count
record_counts tenant id lines st = do
  c ← or_throw (lookup id st.counts) (not_found count_missing)
  throw_if (not (is_in_progress c.status)) (conflict count_not_in_progress)
  items ← record_lines tenant st.stock c.items lines c.items
  ok (record st { counts = insert id (recorded_count items c) st.counts })

abbrev pub is_uncounted : ℕ × CountItem → Bool
is_uncounted r = not (is_counted r)

abbrev pub is_pending_recount : ℕ × CountItem → Bool
is_pending_recount r = r.1.recount_required && not (elim r.1.status [ approved ↦ true | _ ↦ false ])

abbrev pub adjustment_of : ℕ → CountItem → StockChange
adjustment_of id item = record {
  sku = item.sku;
  location = item.location;
  change = some item.variance;
  type = some adjustment;
  reference_id = some id;
}

-- The loop over the adjustments: the stock, and the lines marked approved.
unfoldable pub post_adjustments :
    Option ℕ
    → ℕ
    → Table ℕ CountItem
    → Store
    → Table ℕ CountItem
    → Result (Store × Table ℕ CountItem)
post_adjustments scope id [] s items = ok (s, items)
post_adjustments scope id ((i, item) ∷ rest) s items =
    apply_stock_change_within scope (adjustment_of id item) s >>= λ applied.
    post_adjustments scope id rest applied.2 (insert i (record item { status = approved }) items)

-- The journal entry of the net variance, if it is not zero.
unfoldable pub post_variance : ℕ → ℕ → ℤ → Books → Result Books
unfolding post_within cycle_count_lines
post_variance year ref net books =
    if is_zero net
    then ok books
    else (post_within
          (record {
            year = year;
            source_type = cycle_count;
            source_ref = ref;
            lines = cycle_count_lines net;
          })
          books
        >>= λ r. ok r.1)

-- `ref` is the key `cycle_count:approve:<id>`.
unfoldable pub approve : Option ℕ → ℕ → ℕ → ℕ → Bool → CountStore → Result CountStore
unfolding post_adjustments post_variance value_total
approve scope year ref id force st = do
  c ← or_throw (lookup id st.counts) (not_found count_missing)
  throw_if (is_completed c.status) (conflict count_completed)
  throw_if (is_cancelled c.status) (conflict count_cancelled)
  throw_if (not (is_empty (keep is_uncounted c.items)) && not force) (conflict lines_uncounted)
  throw_if (not (is_empty (keep is_pending_recount c.items)) && not force)
      (conflict lines_to_recount)
  let adjustments = keep is_adjusted c.items
  posted ← post_adjustments scope id adjustments st.stock c.items
  let closed = record c { items = posted.1; status = completed; adjustments_posted = true }
  books ← post_variance year ref (value_total adjustments) st.books
  ok (record { stock = posted.0; books = books; counts = insert id closed st.counts })

unfoldable pub cancel : ℕ → CountStore → Result CountStore
cancel id st = do
  c ← or_throw (lookup id st.counts) (not_found count_missing)
  throw_if (is_completed c.status) (conflict count_completed)
  ok (record st { counts = insert id (record c { status = cancelled }) st.counts })
