-- ===== src/Counts/Closing.antt =====
-- What closing a cycle count does to the stock: backend-nest/src/cycle-counts/cycle-counts.service.ts,
-- `approve` and `cancel`.
use werehouse.Prelude.{
  ℕ, ◌+◌, ◌≡◌, refl, sym, ap, ◌∙◌, Bool, true, false, not, ◌&&◌, ◌||◌, ◌≤◌, subst, Option, none,
  some, [], ◌∷◌, ◌++◌, inl, inr, arith,
}
use werehouse.Prelude.Tests.{if◌then◌else◌, Bool-cases}
use werehouse.Prelude.Int.{ℤ, pos_part, neg_part, sub_ℕ}
use werehouse.Prelude.Lists.{sum_by, keep, keep-true, keep-false, All}
use werehouse.Prelude.Table.{
  Table, nat_eq, ==_refl, lookup, insert, lookup-insert, lookup-same, lookup-insert_self,
}
use werehouse.Result.{
  ok, err, conflict, not_found, >>=-eq-ok, or_throw, or_throw-ok, throw_if, throw_if-ok,
  ok-injective, count_missing, count_completed, count_cancelled, lines_uncounted, lines_to_recount,
}
use werehouse.Stock.{
  StockKey, same_key, stock_key_eq, Level, Store, key_of, upserted, apply_stock_change_within,
  MovementType,
}
use werehouse.Stock.Effects.{on_hand, apply-Applied}
use werehouse.Ledger.{is_zero, is_empty}
use werehouse.Counts.{
  CountItem, CycleCount, CountStore, is_adjusted, is_uncounted, is_pending_recount, adjustment_of,
  post_adjustments, post_variance, approve, cancel, value_total, completed, is_completed,
  is_cancelled,
}

-- The surplus and the shortage that the lines report at a place.
abbrev pub surplus_of : ℕ → StockKey → ℕ × CountItem → ℕ
surplus_of t k r = if same_key (key_of t r.1.sku r.1.location) k then pos_part r.1.variance else 0

abbrev pub shortage_of : ℕ → StockKey → ℕ × CountItem → ℕ
shortage_of t k r = if same_key (key_of t r.1.sku r.1.location) k then neg_part r.1.variance else 0

abbrev pub surplus : ℕ → StockKey → Table ℕ CountItem → ℕ
surplus t k items = sum_by (surplus_of t k) (keep is_adjusted items)

abbrev pub shortage : ℕ → StockKey → Table ℕ CountItem → ℕ
shortage t k items = sum_by (shortage_of t k) (keep is_adjusted items)

upserted-quantity :
    (c : ℤ) (current : Option Level)
    → neg_part c ≤ on_hand current
    → (upserted c current).quantity + neg_part c ≡ on_hand current + pos_part c
unfolding upserted
upserted-quantity c none h = omega arith
upserted-quantity c (some l) h = omega (arith, h)

-- The effect of a change of one row on the units at any place.
abbrev RowChange : StockKey → StockKey → ℤ → ℕ → ℕ → Type 0
RowChange key k c now old =
    now + (if same_key key k then neg_part c else 0)
    ≡ old + (if same_key key k then pos_part c else 0)

row_change :
    (c : ℤ) (key k : StockKey) (levels : Table StockKey Level)
    → neg_part c ≤ on_hand (lookup key levels)
    → RowChange key k c
        (on_hand (lookup k (insert key (upserted c (lookup key levels)) levels)))
        (on_hand (lookup k levels))
row_change c key k levels h = elim (Bool-cases (same_key key k)) [
  | inl same ↦
      rw
        (
          lookup-insert key k (upserted c (lookup key levels)) levels,
          same,
          lookup-same k key levels same,
        )
        (upserted-quantity c (lookup key levels) h)
  | inr other ↦ rw (lookup-insert key k (upserted c (lookup key levels)) levels, other) refl
]

one_adjustment :
    (t id : ℕ) (k : StockKey) (i : ℕ) (item : CountItem) (s : Store)
    {r : Level × MovementType × Store}
    → apply_stock_change_within (some t) (adjustment_of id item) s ≡ ok r
    → on_hand (lookup k r.2.levels) + shortage_of t k (i, item)
      ≡ on_hand (lookup k s.levels) + surplus_of t k (i, item)
one_adjustment t id k i item s {r} h =
    let w = apply-Applied (some t) (adjustment_of id item) s h in
    let key = key_of t item.sku item.location in
    let tenant : w.tenant ≡ t = cc w.in_scope in
    let change : w.change ≡ item.variance = cc w.given in
    let old = on_hand (lookup k s.levels) in
    let base = row_change w.change (key_of w.tenant item.sku item.location) k s.levels w.covered in
    let kept =
      subst (λ n. RowChange (key_of w.tenant item.sku item.location) k w.change n old)
        (sym (ap (λ x. on_hand (lookup k x.levels)) w.stored)) base in
    subst (λ c. RowChange key k c (on_hand (lookup k r.2.levels)) old) change
      (subst
        (λ t'.
          RowChange (key_of t' item.sku item.location) k w.change (on_hand (lookup k r.2.levels))
            old)
        tenant kept)

-- The loop moves the units of every place by what its lines report.
post_adjustments-on_hand :
    (t id : ℕ) (k : StockKey) (rows : Table ℕ CountItem) (s : Store) (items : Table ℕ CountItem)
    {r : Store × Table ℕ CountItem}
    → post_adjustments (some t) id rows s items ≡ ok r
    → on_hand (lookup k r.0.levels) + sum_by (shortage_of t k) rows
      ≡ on_hand (lookup k s.levels) + sum_by (surplus_of t k) rows
unfolding post_adjustments
post_adjustments-on_hand t id k [] s items h =
    let e = sym (ok-injective h) in ap (λ x. on_hand (lookup k x.0.levels) + 0) e
post_adjustments-on_hand t id k ((i, item) ∷ rest) s items h =
    let (applied, h1, h2) =
      >>=-eq-ok (apply_stock_change_within (some t) (adjustment_of id item) s) _ h in
    let first = one_adjustment t id k i item s h1 in
    let further = post_adjustments-on_hand t id k rest applied.2 _ h2 in
    omega (arith, first, further)

-- What a successful approval passed and did.
pub record Approved (scope : Option ℕ) (id : ℕ) (force : Bool) (st st' : CountStore) : Type 0 where
  pub count : CycleCount
  pub found : lookup id st.counts ≡ some count
  pub not_completed : is_completed count.status ≡ false
  pub not_cancelled : is_cancelled count.status ≡ false
  pub all_counted : force || is_empty (keep is_uncounted count.items) ≡ true
  pub none_flagged : force || is_empty (keep is_pending_recount count.items) ≡ true
  pub items_now : Table ℕ CountItem
  pub posted :
      post_adjustments scope id (keep is_adjusted count.items) st.stock count.items
      ≡ ok (st'.stock, items_now)
  pub counts_now :
      st'.counts
      ≡ insert id
          (record count { items = items_now; status = completed; adjustments_posted = true })
          st.counts

guard-passed : (empty force : Bool) → (not empty && not force) ≡ false → force || empty ≡ true
guard-passed empty force h = ground arith

pub approve-Approved :
    (scope : Option ℕ) (year ref id : ℕ) (force : Bool) (st : CountStore) {st' : CountStore}
    → approve scope year ref id force st ≡ ok st'
    → Approved scope id force st st'
unfolding approve
approve-Approved scope year ref id force st {st'} h =
    let (c, hc, h1) = >>=-eq-ok (or_throw (lookup id st.counts) (not_found count_missing)) _ h in
    let (u1, g1, h2) =
      >>=-eq-ok (throw_if (is_completed c.status) (conflict count_completed)) _ h1 in
    let (u2, g2, h3) =
      >>=-eq-ok (throw_if (is_cancelled c.status) (conflict count_cancelled)) _ h2 in
    let lacking = is_empty (keep is_uncounted c.items) in
    let flagged = is_empty (keep is_pending_recount c.items) in
    let (u3, g3, h4) =
      >>=-eq-ok (throw_if (not lacking && not force) (conflict lines_uncounted)) _ h3 in
    let (u4, g4, h5) =
      >>=-eq-ok (throw_if (not flagged && not force) (conflict lines_to_recount)) _ h4 in
    let (p, hp, h6) =
      >>=-eq-ok (post_adjustments scope id (keep is_adjusted c.items) st.stock c.items) _ h5 in
    let (b, hb, h7) =
      >>=-eq-ok (post_variance year ref (value_total (keep is_adjusted c.items)) st.books) _ h6 in
    let e = ok-injective h7 in
    record {
      count = c;
      found = or_throw-ok _ _ hc;
      not_completed = throw_if-ok _ _ g1;
      not_cancelled = throw_if-ok _ _ g2;
      all_counted = guard-passed lacking force (throw_if-ok _ _ g3);
      none_flagged = guard-passed flagged force (throw_if-ok _ _ g4);
      items_now = p.1;
      posted = hp ∙ ap (λ (x : Store). ok (x, p.1)) (ap (λ x. x.stock) e);
      counts_now = sym (ap (λ x. x.counts) e);
    }

-- An approval passes only with force, or with every line counted and none flagged for a recount. It
-- moves the units of every place of the tenant by what the lines with a variance report there.
pub approve-on_hand :
    (t year ref id : ℕ) (force : Bool) (st : CountStore) {st' : CountStore}
    → approve (some t) year ref id force st ≡ ok st'
    → (c : CycleCount) × (lookup id st.counts ≡ some c)
      × (force || is_empty (keep is_uncounted c.items) ≡ true)
      × (force || is_empty (keep is_pending_recount c.items) ≡ true)
      × ((k : StockKey)
          → on_hand (lookup k st'.stock.levels) + shortage t k c.items
            ≡ on_hand (lookup k st.stock.levels) + surplus t k c.items)
approve-on_hand t year ref id force st h =
    let w = approve-Approved (some t) year ref id force st h in
    (
      w.count,
      w.found,
      w.all_counted,
      w.none_flagged,
      λ k.
          post_adjustments-on_hand t id k (keep is_adjusted w.count.items) st.stock w.count.items
            w.posted,
    )

-- The line is at another place.
abbrev pub Elsewhere : ℕ → StockKey → ℕ × CountItem → Type 0
Elsewhere t k r = same_key (key_of t r.1.sku r.1.location) k ≡ false

skip_others :
    (t : ℕ) (k : StockKey) (rows more : Table ℕ CountItem)
    → All (Elsewhere t k) rows
    → (surplus t k (rows ++ more) ≡ surplus t k more)
      × (shortage t k (rows ++ more) ≡ shortage t k more)
skip_others t k [] more h = (refl, refl)
skip_others t k (r ∷ rows) more h =
    let ih = skip_others t k rows more h.1 in
    let there = h.0 in
    elim (Bool-cases (is_adjusted r)) [
      | inl hit ↦
          let e = keep-true is_adjusted r (rows ++ more) hit in
          (
            ap (sum_by (surplus_of t k)) e ∙ ground (arith, ih.0, there),
            ap (sum_by (shortage_of t k)) e ∙ ground (arith, ih.1, there),
          )
      | inr miss ↦
          let e = keep-false is_adjusted r (rows ++ more) miss in
          (ap (sum_by (surplus_of t k)) e ∙ ih.0, ap (sum_by (shortage_of t k)) e ∙ ih.1)
    ]

only_others :
    (t : ℕ) (k : StockKey) (rows : Table ℕ CountItem)
    → All (Elsewhere t k) rows
    → (surplus t k rows ≡ 0) × (shortage t k rows ≡ 0)
only_others t k [] h = (refl, refl)
only_others t k (r ∷ rows) h =
    let ih = only_others t k rows h.1 in
    let there = h.0 in
    elim (Bool-cases (is_adjusted r)) [
      | inl hit ↦
          let e = keep-true is_adjusted r rows hit in
          (
            ap (sum_by (surplus_of t k)) e ∙ ground (arith, ih.0, there),
            ap (sum_by (shortage_of t k)) e ∙ ground (arith, ih.1, there),
          )
      | inr miss ↦
          let e = keep-false is_adjusted r rows miss in
          (ap (sum_by (surplus_of t k)) e ∙ ih.0, ap (sum_by (shortage_of t k)) e ∙ ih.1)
    ]

-- The one line of a place that was counted, with the variance that a count records.
counted_line :
    (t i n : ℕ) (item : CountItem) (rest : Table ℕ CountItem)
    → let k = key_of t item.sku item.location in
      item.counted_quantity ≡ some n
      → item.variance ≡ sub_ℕ n item.system_quantity
      → All (Elsewhere t k) rest
      → surplus t k ((i, item) ∷ rest) + item.system_quantity ≡ n + shortage t k ((i, item) ∷ rest)
counted_line t i n item rest counted variance others =
    let k = key_of t item.sku item.location in
    let none_else = only_others t k rest others in
    let same = ==_refl k in
    elim (Bool-cases (is_adjusted (i, item))) [
      | inl hit ↦
          let e = keep-true is_adjusted (i, item) rest hit in
          let up = ap (sum_by (surplus_of t k)) e in
          let down = ap (sum_by (shortage_of t k)) e in
          let here : surplus t k ((i, item) ∷ rest) ≡ pos_part item.variance + surplus t k rest =
            up ∙ ground (arith, same) in
          let lost : shortage t k ((i, item) ∷ rest) ≡ neg_part item.variance + shortage t k rest =
            down ∙ ground (arith, same) in
          let gain = ap pos_part variance in
          let loss = ap neg_part variance in ground (arith, here, lost, gain, loss, none_else)
      | inr miss ↦
          let e = keep-false is_adjusted (i, item) rest miss in
          let up = ap (sum_by (surplus_of t k)) e in
          let down = ap (sum_by (shortage_of t k)) e in
          let no_variance : is_zero item.variance ≡ true = ground (arith, miss, counted) in
          let exact : n ≡ item.system_quantity = ground (arith, no_variance, variance) in
          omega (arith, up, down, none_else, exact)
    ]

-- A place whose units are still what the book said when the count was created, and which one line of
-- the count covers, holds what was counted there when the count is approved.
pub approve-counted :
    (t year ref id : ℕ) (force : Bool) (st : CountStore) {st' : CountStore} (c : CycleCount)
    (i n : ℕ) (item : CountItem) (xs ys : Table ℕ CountItem)
    → approve (some t) year ref id force st ≡ ok st'
    → lookup id st.counts ≡ some c
    → c.items ≡ xs ++ (i, item) ∷ ys
    → item.counted_quantity ≡ some n
    → item.variance ≡ sub_ℕ n item.system_quantity
    → All (Elsewhere t (key_of t item.sku item.location)) xs
    → All (Elsewhere t (key_of t item.sku item.location)) ys
    → on_hand (lookup (key_of t item.sku item.location) st.stock.levels) ≡ item.system_quantity
    → on_hand (lookup (key_of t item.sku item.location) st'.stock.levels) ≡ n
approve-counted t year ref id force st {st'} c i n item xs ys h found split counted variance before
      after book =
    let k = key_of t item.sku item.location in
    let (c', found', counted_guard, recount_guard, moved) =
      approve-on_hand t year ref id force st h in
    let same : c' ≡ c = cc (sym found' ∙ found) in
    let rows = ap (λ x. x.items) same ∙ split in
    let skip = skip_others t k xs ((i, item) ∷ ys) before in
    let line = counted_line t i n item ys counted variance after in
    let up = ap (surplus t k) rows in
    let down = ap (shortage t k) rows in
    let now = moved k in omega (arith, up, down, skip, line, now, book)

-- A count is closed once: an approved count is not found open again, so approving it a second time and
-- cancelling it are conflicts, in whatever stock, books and other counts are there by then.
pub approve-approve :
    (scope : Option ℕ) (year ref id : ℕ) (force again : Bool) (st st'' : CountStore)
    {st' : CountStore}
    → approve scope year ref id force st ≡ ok st'
    → lookup id st''.counts ≡ lookup id st'.counts
    → (approve scope year ref id again st'' ≡ err (conflict count_completed))
      × (cancel id st'' ≡ err (conflict count_completed))
unfolding approve cancel
approve-approve scope year ref id force again st st'' h still =
    let w = approve-Approved scope year ref id force st h in
    let closed = record w.count {
      items = w.items_now;
      status = completed;
      adjustments_posted = true;
    } in
    let found = still ∙ ap (lookup id) w.counts_now ∙ lookup-insert_self id closed st.counts in
    (rw found refl, rw found refl)
