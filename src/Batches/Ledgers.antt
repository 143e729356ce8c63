-- ===== src/Batches/Ledgers.antt =====
-- The batch ledger and its rows: backend-nest/src/batches/batches.service.ts, `receiveIntoBatchWithin`,
-- `consumeWithin`, `reserveWithin` and `releaseWithin`.
use werehouse.Prelude.{
  ℕ, ◌+◌, ◌-◌, ◌≤◌, ◌≡◌, sym, ap, subst, ◌∙◌, Option, none, some, List, [], ◌∷◌, inl, inr, arith,
}
use werehouse.Prelude.Tests.{nat_beq, nat_beq_iff, if◌then◌else◌, Bool-cases}
use werehouse.Prelude.Int.{pos, ◌+ℤ◌, ◌-ℤ◌}
use werehouse.Prelude.Table.{Table, nat_eq, lookup, insert, lookup-insert, total, total-insert}
use werehouse.Result.{ok, or_throw, not_found, batch_missing, >>=-eq-ok, or_throw-ok, ok-injective}
use werehouse.Stock.{Level, require_tenant, apply_stock_change_within}
use werehouse.Batches.{
  Batch, BatchKey, same_batch_key, batch_key_eq, BatchStore, BatchAllocation, key_of_allocation,
  available_row, consumed_level, drained, deduction, consume_one, consume_all, consume_within,
  reserved_level, reserve_one, reserve_all, reserve_within,
}

-- The units of a batch over the rows of the sub-ledger.
abbrev pub units : ℕ → BatchKey → Level → ℕ
units id k l = if nat_beq k.batch_id id then l.quantity else 0

abbrev pub held_units : ℕ → BatchKey → Level → ℕ
held_units id k l = if nat_beq k.batch_id id then l.reserved else 0

-- The header of a batch agrees with its rows.
abbrev pub Agrees : BatchStore → ℕ → Batch → Type 0
Agrees st id b =
    (b.quantity ≡ pos (total (units id) st.levels))
    × (b.reserved ≡ pos (total (held_units id) st.levels))

unfoldable pub AllAgree : BatchStore → Type 0
AllAgree st = (id : ℕ) (b : Batch) → lookup id st.batches ≡ some b → Agrees st id b

-- Every row has its units reserved or available.
unfoldable pub RowsBalanced : BatchStore → Type 0
RowsBalanced st =
    (k : BatchKey) (l : Level) → lookup k st.levels ≡ some l → l.quantity ≡ l.reserved + l.available

available_row-ok :
    (q : ℕ) (found : Option Level) {l : Level}
    → available_row q found ≡ ok l
    → (found ≡ some l) × (q ≤ l.available)
unfolding available_row
available_row-ok q none h = cc
available_row-ok q (some l) h = ground arith

-- What a change of one row and its batch does: the row and the batch that were there, and the new ones.
record Moved (a : BatchAllocation) (st st' : BatchStore) (row : Level → Level)
    (head : Batch → Batch) : Type 0 where
  level : Level
  batch : Batch
  enough : a.quantity ≤ level.available
  level_was : lookup (key_of_allocation a) st.levels ≡ some level
  batch_was : lookup a.batch_id st.batches ≡ some batch
  levels_now : st'.levels ≡ insert (key_of_allocation a) (row level) st.levels
  batches_now : st'.batches ≡ insert a.batch_id (head batch) st.batches

reserve_one-Moved :
    (a : BatchAllocation) (st : BatchStore) {st' : BatchStore}
    → reserve_one a st ≡ ok st'
    → Moved a st st'
        (reserved_level a.quantity)
        (λ b. record b { reserved = b.reserved +ℤ pos a.quantity })
unfolding reserve_one
reserve_one-Moved a st h =
    let (l, hl, h1) =
      >>=-eq-ok (available_row a.quantity (lookup (key_of_allocation a) st.levels)) _ h in
    let (b, hb, h2) = >>=-eq-ok _ _ h1 in
    let e = ok-injective h2 in
    let row = available_row-ok a.quantity _ hl in
    record {
      level = l;
      batch = b;
      enough = row.1;
      level_was = row.0;
      batch_was = or_throw-ok _ _ hb;
      levels_now = sym (ap (λ x. x.levels) e);
      batches_now = sym (ap (λ x. x.batches) e);
    }

consume_one-Moved :
    (scope reference : Option ℕ) (a : BatchAllocation) (st : BatchStore) {st' : BatchStore}
    → consume_one scope reference a st ≡ ok st'
    → Moved a st st'
        (consumed_level a.quantity)
        (λ b. drained (record b { quantity = b.quantity -ℤ pos a.quantity }))
unfolding consume_one
consume_one-Moved scope reference a st h =
    let (l, hl, h1) =
      >>=-eq-ok (available_row a.quantity (lookup (key_of_allocation a) st.levels)) _ h in
    let (b, hb, h2) =
      >>=-eq-ok (or_throw (lookup a.batch_id st.batches) (not_found batch_missing)) _ h1 in
    let (applied, ha, h3) =
      >>=-eq-ok (apply_stock_change_within scope (deduction a reference) st.stock) _ h2 in
    let e = ok-injective h3 in
    let row = available_row-ok a.quantity _ hl in
    record {
      level = l;
      batch = b;
      enough = row.1;
      level_was = row.0;
      batch_was = or_throw-ok _ _ hb;
      levels_now = sym (ap (λ x. x.levels) e);
      batches_now = sym (ap (λ x. x.batches) e);
    }

-- A row has at most the units of its batch.
units-le :
    (id : ℕ) (k : BatchKey) (l : Level) (levels : Table BatchKey Level)
    → lookup k levels ≡ some l
    → units id k l ≤ total (units id) levels
units-le id k l levels h =
    let empty : Level = record { quantity = 0; reserved = 0; available = 0 } in
    ground (arith, total-insert (units id) k empty l levels h)

-- What a changed row does to the header of its batch: it adds the row's new units and takes the old.
abbrev Fits : BatchAllocation → Level → Level → Batch → Batch → Type 0
Fits a l l' b b' =
    (T R : ℕ)
    → b.quantity ≡ pos T
    → b.reserved ≡ pos R
    → l.quantity ≤ T
    → (b'.quantity ≡ pos (T + l'.quantity - l.quantity))
      × (b'.reserved ≡ pos (R + l'.reserved - l.reserved))

Moved-AllAgree :
    (a : BatchAllocation) (st st' : BatchStore) (row : Level → Level) (head : Batch → Batch)
    (m : Moved a st st' row head)
    → Fits a m.level (row m.level) m.batch (head m.batch)
    → AllAgree st
    → AllAgree st'
unfolding AllAgree
Moved-AllAgree a st st' row head m fits agree id b h =
    let k = key_of_allocation a in
    let u = total-insert (units id) k (row m.level) m.level st.levels m.level_was in
    let v = total-insert (held_units id) k (row m.level) m.level st.levels m.level_was in
    let found =
      sym (lookup-insert a.batch_id id (head m.batch) st.batches)
      ∙ ap (lookup id) (sym m.batches_now)
      ∙ h in
    let units_now = ap (total (units id)) m.levels_now in
    let held_now = ap (total (held_units id)) m.levels_now in
    elim (Bool-cases (nat_beq a.batch_id id)) [
      | inl same ↦
          let e = (nat_beq_iff a.batch_id id).0 same in
          let was = subst (λ i. lookup i st.batches ≡ some m.batch) e m.batch_was in
          let old = agree id m.batch was in
          let bound = units-le id k m.level st.levels m.level_was in
          let new =
            fits (total (units id) st.levels) (total (held_units id) st.levels) old.0 old.1
              (ground (arith, same, bound)) in
          let b_is : head m.batch ≡ b = ground (arith, same, found) in
          (
            ap (λ b. b.quantity) (sym b_is) ∙ new.0 ∙ ap pos (ground (arith, u, same, units_now)),
            ap (λ b. b.reserved) (sym b_is) ∙ new.1 ∙ ap pos (ground (arith, v, same, held_now)),
          )
      | inr other ↦
          let old = agree id b (ground (arith, other, found)) in
          (
            old.0 ∙ ap pos (ground (arith, u, other, units_now)),
            old.1 ∙ ap pos (ground (arith, v, other, held_now)),
          )
    ]

Moved-RowsBalanced :
    (a : BatchAllocation) (st st' : BatchStore) (row : Level → Level) (head : Batch → Batch)
    (m : Moved a st st' row head)
    → (row m.level).quantity ≡ (row m.level).reserved + (row m.level).available
    → RowsBalanced st
    → RowsBalanced st'
unfolding RowsBalanced
Moved-RowsBalanced a st st' row head m new balanced k l h =
    let found =
      sym (lookup-insert (key_of_allocation a) k (row m.level) st.levels)
      ∙ ap (lookup k) (sym m.levels_now)
      ∙ h in
    elim (Bool-cases (same_batch_key (key_of_allocation a) k)) [
      | inl same ↦
          let l_is : row m.level ≡ l = ground (arith, same, found) in
          subst (λ x. x.quantity ≡ x.reserved + x.available) l_is new
      | inr other ↦ balanced k l (ground (arith, other, found))
    ]

-- Both parts of the invariant of the sub-ledger.
abbrev pub IsConsistent : BatchStore → Type 0
IsConsistent st = RowsBalanced st × AllAgree st

drained-keeps :
    (b : Batch) → ((drained b).quantity ≡ b.quantity) × ((drained b).reserved ≡ b.reserved)
drained-keeps b = ground arith

pos-sub : (n q : ℕ) → q ≤ n → pos n -ℤ pos q ≡ pos (n - q)
unfolding ◌-ℤ◌
pos-sub n q h = ground arith

pos-add : (n q : ℕ) → pos n +ℤ pos q ≡ pos (n + q)
unfolding ◌+ℤ◌
pos-add n q = ground arith

reserve_one-IsConsistent :
    (a : BatchAllocation) (st : BatchStore) {st' : BatchStore}
    → reserve_one a st ≡ ok st'
    → IsConsistent st
    → IsConsistent st'
unfolding RowsBalanced
reserve_one-IsConsistent a st {st'} h (balanced, agree) =
    let m = reserve_one-Moved a st h in
    let head : Batch → Batch = λ b. record b { reserved = b.reserved +ℤ pos a.quantity } in
    let row = balanced (key_of_allocation a) m.level m.level_was in
    let enough = m.enough in
    (
      Moved-RowsBalanced a st st' (reserved_level a.quantity) head m (omega (arith, row, enough))
          balanced,
      Moved-AllAgree a st st' (reserved_level a.quantity) head m
          (λ T R t r le. (
            t ∙ ap pos (omega (arith, le)),
            ap (λ x. x +ℤ pos a.quantity) r ∙ pos-add R a.quantity ∙ ap pos (omega arith),
          ))
          agree,
    )

consume_one-IsConsistent :
    (scope reference : Option ℕ) (a : BatchAllocation) (st : BatchStore) {st' : BatchStore}
    → consume_one scope reference a st ≡ ok st'
    → IsConsistent st
    → IsConsistent st'
unfolding RowsBalanced
consume_one-IsConsistent scope reference a st {st'} h (balanced, agree) =
    let m = consume_one-Moved scope reference a st h in
    let less : Batch → Batch = λ b. record b { quantity = b.quantity -ℤ pos a.quantity } in
    let row = balanced (key_of_allocation a) m.level m.level_was in
    let enough = m.enough in
    let kept = drained-keeps (less m.batch) in
    (
      Moved-RowsBalanced a st st' (consumed_level a.quantity) (λ b. drained (less b)) m
          (omega (arith, row, enough)) balanced,
      Moved-AllAgree a st st' (consumed_level a.quantity) (λ b. drained (less b)) m
          (λ T R t r le. (
            kept.0
                ∙ ap (λ x. x -ℤ pos a.quantity) t
                ∙ pos-sub T a.quantity (omega (arith, le, row, enough))
                ∙ ap pos (omega (arith, le, row, enough)),
            kept.1 ∙ r ∙ ap pos (omega arith),
          ))
          agree,
    )

reserve_all-IsConsistent :
    (allocations : List BatchAllocation) (st : BatchStore) {st' : BatchStore}
    → reserve_all allocations st ≡ ok st'
    → IsConsistent st
    → IsConsistent st'
unfolding reserve_all
reserve_all-IsConsistent [] st h c = subst IsConsistent (ok-injective h) c
reserve_all-IsConsistent (a ∷ rest) st h c =
    let (middle, h1, h2) = >>=-eq-ok (reserve_one a st) _ h in
    reserve_all-IsConsistent rest middle h2 (reserve_one-IsConsistent a st h1 c)

consume_all-IsConsistent :
    (scope reference : Option ℕ) (allocations : List BatchAllocation) (st : BatchStore)
    {st' : BatchStore}
    → consume_all scope reference allocations st ≡ ok st'
    → IsConsistent st
    → IsConsistent st'
unfolding consume_all
consume_all-IsConsistent scope reference [] st h c = subst IsConsistent (ok-injective h) c
consume_all-IsConsistent scope reference (a ∷ rest) st h c =
    let (middle, h1, h2) = >>=-eq-ok (consume_one scope reference a st) _ h in
    consume_all-IsConsistent scope reference rest middle h2
      (consume_one-IsConsistent scope reference a st h1 c)

-- Holding the units of batches for an order keeps the sub-ledger consistent: in every row the units
-- are the reserved and the available ones, and the quantity and the reserved units of every batch are
-- the sums over its rows.
pub reserve_within-IsConsistent :
    (scope : Option ℕ) (allocations : List BatchAllocation) (st : BatchStore) {st' : BatchStore}
    → reserve_within scope allocations st ≡ ok st'
    → IsConsistent st
    → IsConsistent st'
unfolding reserve_within
reserve_within-IsConsistent scope allocations st h c =
    let (t, scoped, h1) = >>=-eq-ok (require_tenant scope) _ h in
    reserve_all-IsConsistent allocations st h1 c

-- Shipping the units of batches keeps the sub-ledger consistent: in every row the units are the
-- reserved and the available ones, and the quantity and the reserved units of every batch are the sums
-- over its rows.
pub consume_within-IsConsistent :
    (scope reference : Option ℕ) (allocations : List BatchAllocation) (st : BatchStore)
    {st' : BatchStore}
    → consume_within scope reference allocations st ≡ ok st'
    → IsConsistent st
    → IsConsistent st'
unfolding consume_within
consume_within-IsConsistent scope reference allocations st h c =
    let (t, scoped, h1) = >>=-eq-ok (require_tenant scope) _ h in
    consume_all-IsConsistent scope reference allocations st h1 c
