-- ===== src/Counts/Recording.antt =====
-- The recording of counted lines: backend-nest/src/cycle-counts/cycle-counts.service.ts, `record` and
-- `needsRecount`.
use werehouse.Prelude.{
  ℕ, ◌+◌, ◌-◌, ◌*◌, ◌≤◌, ◌<◌, ◌≡◌, ◌↔◌, ◌⊎◌, refl, sym, ap, subst, ◌∙◌, true, not, Option, none,
  some, List, [], ◌∷◌, inl, inr, arith,
}
use werehouse.Prelude.Tests.{Bool-cases, leb, nat_beq, nat_beq_iff, if◌then◌else◌}
use werehouse.Prelude.Int.{pos_part, neg_part, sub_ℕ, int_laws}
use werehouse.Prelude.Lists.{length, keep, sum_by}
use werehouse.Prelude.Table.{Table, nat_eq, lookup, insert, lookup-insert, lookup-insert_self}
use werehouse.Result.{
  ok, conflict, not_found, bad_request, >>=-eq-ok, or_throw, or_throw-ok, throw_if, ok-injective,
  count_missing, count_not_in_progress, line_not_in_document,
}
use werehouse.Stock.{Store}
use werehouse.Counts.{
  review, in_progress, is_in_progress, CountItem, CycleCount, CountStore, CountLine, cost_of,
  needs_recount, recorded_item, record_lines, is_counted, is_adjusted, value_total, recorded_count,
  record_counts,
}

-- A count that is to be repeated: it is off by five units or more, or by a tenth of the book quantity.
abbrev pub gap : ℕ → ℕ → ℕ
gap counted_units book_units = (counted_units - book_units) + (book_units - counted_units)

abbrev pub IsOff : ℕ → ℕ → Type 0
IsOff counted_units book_units =
    (0 < gap counted_units book_units)
    × ((5 ≤ gap counted_units book_units)
        ⊎ ((0 < book_units) × (book_units ≤ 10 * gap counted_units book_units)))

-- A counted line has the variance of its count against the book, and is flagged exactly when the count
-- is off.
abbrev pub IsRecorded : CountItem → Type 0
IsRecorded item =
    (n : ℕ)
    → item.counted_quantity ≡ some n
    → (item.variance ≡ sub_ℕ n item.system_quantity)
      × ((item.recount_required ≡ true) ↔ IsOff n item.system_quantity)

unfoldable pub AllRecorded : Table ℕ CountItem → Type 0
AllRecorded items = (i : ℕ) (item : CountItem) → lookup i items ≡ some item → IsRecorded item

-- The book quantity of a line.
abbrev pub book : Option CountItem → Option ℕ
book none = none
book (some item) = some item.system_quantity

needs_recount-IsOff :
    (n book_units : ℕ) → (needs_recount (sub_ℕ n book_units) book_units ≡ true) ↔ IsOff n book_units
unfolding needs_recount
needs_recount-IsOff n book_units = ground arith

recorded_item-IsRecorded : (cost n : ℕ) (item : CountItem) → IsRecorded (recorded_item cost n item)
unfolding recorded_item
recorded_item-IsRecorded cost n item m h =
    let same : n ≡ m = ground (arith, h) in
    rw (sym same) (refl, needs_recount-IsOff n item.system_quantity)

insert-AllRecorded :
    (i : ℕ) (item : CountItem) (items : Table ℕ CountItem)
    → IsRecorded item
    → AllRecorded items
    → AllRecorded (insert i item items)
unfolding AllRecorded
insert-AllRecorded i item items new all j x h =
    let found = sym (lookup-insert i j item items) ∙ h in
    elim (Bool-cases (nat_beq i j)) [
      | inl same ↦ let e : item ≡ x = ground (arith, same, found) in subst IsRecorded e new
      | inr other ↦ all j x (ground (arith, other, found))
    ]

insert-book :
    (i j : ℕ) (item new : CountItem) (items original : Table ℕ CountItem)
    → lookup i original ≡ some item
    → new.system_quantity ≡ item.system_quantity
    → book (lookup j items) ≡ book (lookup j original)
    → book (lookup j (insert i new items)) ≡ book (lookup j original)
insert-book i j item new items original was kept same =
    let now = lookup-insert i j new items in
    elim (Bool-cases (nat_beq i j)) [
      | inl here ↦
          let e = (nat_beq_iff i j).0 here in
          let found : lookup j original ≡ some item =
            subst (λ x. lookup x original ≡ some item) e was in
          let written : lookup j (insert i new items) ≡ some new = ground (arith, now, here) in
          ap book written ∙ ap some kept ∙ sym (ap book found)
      | inr there ↦
          let left : lookup j (insert i new items) ≡ lookup j items = ground (arith, now, there) in
          ap book left ∙ same
    ]

recorded_item-book :
    (cost n : ℕ) (item : CountItem)
    → (recorded_item cost n item).system_quantity ≡ item.system_quantity
unfolding recorded_item
recorded_item-book cost n item = refl

record_lines_lem :
    (tenant : ℕ) (s : Store) (original : Table ℕ CountItem) (lines : List CountLine)
    (items : Table ℕ CountItem) {items' : Table ℕ CountItem}
    → AllRecorded items
    → ((i : ℕ) → book (lookup i items) ≡ book (lookup i original))
    → record_lines tenant s original lines items ≡ ok items'
    → AllRecorded items' × ((i : ℕ) → book (lookup i items') ≡ book (lookup i original))
unfolding record_lines
record_lines_lem tenant s original [] items all same h =
    let e = ok-injective h in
    (subst AllRecorded e all, λ i. ap (λ m. book (lookup i m)) (sym e) ∙ same i)
record_lines_lem tenant s original (line ∷ lines) items all same h =
    let (item, h1, h2) =
      >>=-eq-ok (or_throw (lookup line.item_id original) (bad_request line_not_in_document)) _ h in
    let was = or_throw-ok _ _ h1 in
    let n = pos_part line.counted_quantity in
    let new = recorded_item (cost_of tenant item.sku s) n item in
    record_lines_lem tenant s original lines (insert line.item_id new items)
      (insert-AllRecorded line.item_id new items
        (recorded_item-IsRecorded (cost_of tenant item.sku s) n item) all)
      (λ i.
        insert-book line.item_id i item new items original was
          (recorded_item-book (cost_of tenant item.sku s) n item) (same i))
      h2

-- 1 for a line that is counted, and 1 for one that is counted with a variance.
abbrev pub one_counted : CountItem → ℕ
one_counted item = elim item.counted_quantity [ none ↦ 0 | some n ↦ 1 ]

abbrev pub one_off : CountItem → ℕ
one_off item = elim item.counted_quantity [
  | none ↦ 0
  | some n ↦ if nat_beq (pos_part item.variance + neg_part item.variance) 0 then 0 else 1
]

counted-sum :
    (items : Table ℕ CountItem)
    → length (keep is_counted items) ≡ sum_by (λ (r : ℕ × CountItem). one_counted r.1) items
counted-sum [] = refl
counted-sum ((k, item) ∷ items) = ground (arith, counted-sum items)

adjusted-sum :
    (items : Table ℕ CountItem)
    → length (keep is_adjusted items) ≡ sum_by (λ (r : ℕ × CountItem). one_off r.1) items
adjusted-sum [] = refl
adjusted-sum ((k, item) ∷ items) = ground (arith, adjusted-sum items)

counted-le :
    (items : Table ℕ CountItem)
    → sum_by (λ (r : ℕ × CountItem). one_counted r.1) items ≤ length items
counted-le [] = omega arith
counted-le ((k, item) ∷ items) = ground (arith, counted-le items)

value_total-parts :
    (items : Table ℕ CountItem)
    → pos_part (value_total items)
        + sum_by (λ (r : ℕ × CountItem). neg_part r.1.variance_value) items
      ≡ neg_part (value_total items)
        + sum_by (λ (r : ℕ × CountItem). pos_part r.1.variance_value) items
unfolding value_total
value_total-parts [] = refl
value_total-parts ((k, item) ∷ items) = omega (int_laws, value_total-parts items)

recorded_count-items :
    (items : Table ℕ CountItem) (c : CycleCount) → (recorded_count items c).items ≡ items
unfolding recorded_count
recorded_count-items items c = refl

-- What the header of a count says of its lines: how many are counted, how many of these have a
-- variance, the sum of the values of the variances, and whether a line is left to count.
pub record IsSummed (c : CycleCount) : Type 0 where
  pub lines_counted : c.counted_lines ≡ sum_by (λ (r : ℕ × CountItem). one_counted r.1) c.items
  pub lines_off : c.variance_lines ≡ sum_by (λ (r : ℕ × CountItem). one_off r.1) c.items
  pub value :
      pos_part c.variance_value
        + sum_by (λ (r : ℕ × CountItem). neg_part r.1.variance_value) c.items
      ≡ neg_part c.variance_value
        + sum_by (λ (r : ℕ × CountItem). pos_part r.1.variance_value) c.items
  pub progress :
      ((c.status ≡ review) × (c.counted_lines ≡ length c.items))
      ⊎ ((c.status ≡ in_progress) × (c.counted_lines < length c.items))

progress_of :
    (lines counted_lines : ℕ)
    → counted_lines ≤ lines
    → (((if leb lines counted_lines then review else in_progress) ≡ review)
        × (counted_lines ≡ lines))
      ⊎ (((if leb lines counted_lines then review else in_progress) ≡ in_progress)
          × (counted_lines < lines))
progress_of lines counted_lines h = elim (Bool-cases (leb lines counted_lines)) [
  | inl all ↦ inl (rw all refl, ground arith)
  | inr some_left ↦ inr (rw some_left refl, ground arith)
]

recorded_count-IsSummed :
    (items : Table ℕ CountItem) (c : CycleCount) → IsSummed (recorded_count items c)
unfolding recorded_count
recorded_count-IsSummed items c =
    let le = counted-le items in
    let sum = counted-sum items in
    record {
      lines_counted = sum;
      lines_off = adjusted-sum items;
      value = value_total-parts items;
      progress =
          progress_of (length items) (length (keep is_counted items)) (omega (arith, le, sum));
    }

-- Recording counts keeps the book quantities that the count froze, and leaves every counted line with
-- the variance of its count against them, flagged exactly when it is off by five units or more or by a
-- tenth of the book. The header then has the number of counted lines, of those with a variance, and
-- the sum of the variances' values, and is under review exactly when every line is counted.
pub record_counts-AllRecorded :
    (tenant id : ℕ) (lines : List CountLine) (st : CountStore) {st' : CountStore} (c : CycleCount)
    → lookup id st.counts ≡ some c
    → AllRecorded c.items
    → record_counts tenant id lines st ≡ ok st'
    → (c' : CycleCount) × (lookup id st'.counts ≡ some c')
      × AllRecorded c'.items
      × ((i : ℕ) → book (lookup i c'.items) ≡ book (lookup i c.items))
      × IsSummed c'
unfolding record_counts
record_counts-AllRecorded tenant id lines st {st'} c found all h =
    let (d, hd, h1) = >>=-eq-ok (or_throw (lookup id st.counts) (not_found count_missing)) _ h in
    let (u, hu, h2) =
      >>=-eq-ok (throw_if (not (is_in_progress d.status)) (conflict count_not_in_progress)) _ h1 in
    let (items, hi, h3) = >>=-eq-ok (record_lines tenant st.stock d.items lines d.items) _ h2 in
    let same : d ≡ c = cc (sym (or_throw-ok _ _ hd) ∙ found) in
    let all' = subst (λ x. AllRecorded x.items) (sym same) all in
    let (recorded, books) =
      record_lines_lem tenant st.stock d.items lines d.items all' (λ i. refl) hi in
    let now =
      sym (ap (λ x. lookup id x.counts) (ok-injective h3))
      ∙ lookup-insert_self id (recorded_count items d) st.counts in
    (
      recorded_count items d,
      now,
      subst AllRecorded (sym (recorded_count-items items d)) recorded,
      λ i.
          ap (λ m. book (lookup i m)) (recorded_count-items items d)
          ∙ books i
          ∙ ap (λ x. book (lookup i x.items)) same,
      recorded_count-IsSummed items d,
    )
