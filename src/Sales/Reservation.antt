-- ===== src/Sales/Reservation.antt =====
-- What confirming an order does to the stock ledger, and that cancelling it undoes this.
use werehouse.Prelude.{
  ℕ, ◌+◌, ◌-◌, ◌≤◌, ◌<◌, ◌≡◌, refl, sym, ap, ◌∙◌, inl, inr, Option, none, some, List, [], ◌∷◌,
  arith,
}
use werehouse.Prelude.Tests.{Bool-cases, Option-cases, if◌then◌else◌}
use werehouse.Prelude.Lists.{All}
use werehouse.Prelude.Table.{◌==◌, lookup, lookup-insert, lookup-same}
use werehouse.Result.{ok, ◌>>=◌, >>=-eq-ok, ok-injective}
use werehouse.Stock.{
  StockKey, stock_key_eq, Level, Store, key_of, reserve_stock_within, release_reservation_within,
}
use werehouse.Stock.Effects.{reserve-Reserved, release-Released}
use werehouse.Stock.Rows.{reserve-total, release-total}
use werehouse.Sales.{SalesItem, hold_of, unhold_of, reserve_items, release_items}

-- The units that a line, and a list of lines, ask for at a key.
abbrev pub line_demand : ℕ → StockKey → SalesItem → ℕ
line_demand t k i = if key_of t i.sku i.location == k then i.quantity else 0

abbrev pub demand : ℕ → StockKey → List SalesItem → ℕ
demand t k [] = 0
demand t k (i ∷ items) = line_demand t k i + demand t k items

abbrev pub available_at : Option Level → ℕ
available_at none = 0
available_at (some l) = l.available

abbrev pub reserved_at : Option Level → ℕ
reserved_at none = 0
reserved_at (some l) = l.reserved

-- A row with `d` more units held back, and with `d` fewer.
abbrev pub held_row : ℕ → Option Level → Option Level
held_row d none = none
held_row d (some l) = some (record l { reserved = l.reserved + d; available = l.available - d })

abbrev pub freed_row : ℕ → Option Level → Option Level
freed_row d none = none
freed_row d (some l) = some (record l { reserved = l.reserved - d; available = l.available + d })

held_row-zero : (x : Option Level) → held_row 0 x ≡ x
held_row-zero none = refl
held_row-zero (some l) = ground arith

held_row-held_row : (a b : ℕ) (x : Option Level) → held_row b (held_row a x) ≡ held_row (a + b) x
held_row-held_row a b none = refl
held_row-held_row a b (some l) = ground arith

pub available-held_row :
    (a : ℕ) (x : Option Level) → available_at (held_row a x) ≡ available_at x - a
available-held_row a none = omega arith
available-held_row a (some l) = refl

freed_row-zero : (x : Option Level) → freed_row 0 x ≡ x
freed_row-zero none = refl
freed_row-zero (some l) = ground arith

freed_row-freed_row :
    (a b : ℕ) (x : Option Level) → freed_row b (freed_row a x) ≡ freed_row (a + b) x
freed_row-freed_row a b none = refl
freed_row-freed_row a b (some l) = ground arith

reserved-freed_row : (a : ℕ) (x : Option Level) → reserved_at (freed_row a x) ≡ reserved_at x - a
reserved-freed_row a none = omega arith
reserved-freed_row a (some l) = refl

reserve_line :
    (t id : ℕ) (i : SalesItem) (s : Store) {r : Level × Store} (j : StockKey)
    → reserve_stock_within (some t) (hold_of id i) s ≡ ok r
    → (lookup j r.1.levels ≡ held_row (line_demand t j i) (lookup j s.levels))
      × (line_demand t j i ≤ available_at (lookup j s.levels))
reserve_line t id i s j h =
    let w = reserve-Reserved (some t) (hold_of id i) s h in
    let k = key_of t i.sku i.location in
    let tenant : w.tenant ≡ t = cc w.in_scope in
    let amount : w.amount ≡ i.quantity = cc w.given in
    let found : lookup k s.levels ≡ some w.old = rw tenant at w.found in
    elim (Bool-cases (k == j)) [
      | inl same ↦
          rw
            (
              w.stored,
              tenant,
              amount,
              lookup-insert k j _ s.levels,
              same,
              lookup-same j k s.levels same,
              found,
            )
            (refl, rw amount at w.covered)
      | inr other ↦
          rw (w.stored, tenant, lookup-insert k j _ s.levels, other)
            (sym (held_row-zero _), omega arith)
    ]

-- When every line is reserved, each row has the order's demand more held back, and it had as much
-- available.
pub reserve_items_lem :
    (t id : ℕ) (items : List SalesItem) (s : Store) {s' : Store} (j : StockKey)
    → reserve_items (some t) id items s ≡ ok s'
    → (lookup j s'.levels ≡ held_row (demand t j items) (lookup j s.levels))
      × (demand t j items ≤ available_at (lookup j s.levels))
unfolding reserve_items
reserve_items_lem t id [] s j h = (rw (sym (ok-injective h)) (sym (held_row-zero _)), omega arith)
reserve_items_lem t id (i ∷ items) s j h =
    let (r, hr, rest) = >>=-eq-ok (reserve_stock_within (some t) (hold_of id i) s) _ h in
    let (row, enough) = reserve_line t id i s j hr in
    let (row', enough') = reserve_items_lem t id items r.1 j rest in
    (
      row' ∙ ap (held_row (demand t j items)) row ∙ held_row-held_row (line_demand t j i) _ _,
      omega (arith, enough, (rw (row, available-held_row) at enough')),
    )

line_demand_self :
    (t : ℕ) (i : SalesItem) → line_demand t (key_of t i.sku i.location) i ≡ i.quantity
line_demand_self t i = ground arith

-- One line is reserved wherever enough is available.
reserve_line-total :
    (t id : ℕ) (i : SalesItem) (s : Store)
    → 0 < i.quantity
    → i.quantity ≤ available_at (lookup (key_of t i.sku i.location) s.levels)
    → (r : Level × Store) × (reserve_stock_within (some t) (hold_of id i) s ≡ ok r)
reserve_line-total t id i s positive enough =
    elim (Option-cases (lookup (key_of t i.sku i.location) s.levels)) [
      | inl missing ↦ absurd (omega (arith, positive, (rw missing at enough)))
      | inr (l, found) ↦
          reserve-total t i.quantity (hold_of id i) s refl positive found (rw found at enough)
    ]

-- An order is reserved as a whole wherever, at every key, the sum of its lines is available.
pub reserve_items-total :
    (t id : ℕ) (items : List SalesItem) (s : Store)
    → All (λ i. 0 < i.quantity) items
    → ((j : StockKey) → demand t j items ≤ available_at (lookup j s.levels))
    → (s' : Store) × (reserve_items (some t) id items s ≡ ok s')
unfolding reserve_items
reserve_items-total t id [] s positive enough = (s, refl)
reserve_items-total t id (i ∷ items) s positive enough =
    let (r, hr) =
      reserve_line-total t id i s positive.0
        (omega (arith, enough (key_of t i.sku i.location), line_demand_self t i)) in
    let (s', hs) =
      reserve_items-total t id items r.1 positive.1
        (λ j. rw ((reserve_line t id i s j hr).0, available-held_row) (omega (arith, enough j))) in
    (s', rw (hr, ◌>>=◌) hs)

-- A line is released wherever enough is reserved.
release_line :
    (t : ℕ) (i : SalesItem) (s : Store) {r : Level × Store} (j : StockKey)
    → release_reservation_within (some t) (unhold_of i) s ≡ ok r
    → lookup j r.1.levels ≡ freed_row (line_demand t j i) (lookup j s.levels)
release_line t i s j h =
    let w = release-Released (some t) (unhold_of i) s h in
    let k = key_of t i.sku i.location in
    let tenant : w.tenant ≡ t = cc w.in_scope in
    let amount : w.amount ≡ i.quantity = cc w.given in
    let found : lookup k s.levels ≡ some w.old = rw tenant at w.found in
    elim (Bool-cases (k == j)) [
      | inl same ↦ rw (
        w.stored,
        tenant,
        amount,
        lookup-insert k j _ s.levels,
        same,
        lookup-same j k s.levels same,
        found,
      )
      | inr other ↦
          rw (w.stored, tenant, lookup-insert k j _ s.levels, other) (sym (freed_row-zero _))
    ]

release_line-total :
    (t : ℕ) (i : SalesItem) (s : Store)
    → 0 < i.quantity
    → i.quantity ≤ reserved_at (lookup (key_of t i.sku i.location) s.levels)
    → (r : Level × Store) × (release_reservation_within (some t) (unhold_of i) s ≡ ok r)
release_line-total t i s positive enough =
    elim (Option-cases (lookup (key_of t i.sku i.location) s.levels)) [
      | inl missing ↦ absurd (omega (arith, positive, (rw missing at enough)))
      | inr (l, found) ↦
          release-total t i.quantity (unhold_of i) s refl positive found (rw found at enough)
    ]

-- The lines are all released wherever, at every key, their sum is reserved; each row then has the
-- order's demand less held back.
pub release_items_lem :
    (t : ℕ) (items : List SalesItem) (s : Store)
    → All (λ i. 0 < i.quantity) items
    → ((j : StockKey) → demand t j items ≤ reserved_at (lookup j s.levels))
    → ((release_items (some t) items s).0 ≡ ok tt)
      × ((j : StockKey)
          → lookup j (release_items (some t) items s).1.levels
            ≡ freed_row (demand t j items) (lookup j s.levels))
unfolding release_items
release_items_lem t [] s positive enough = (refl, λ j. sym (freed_row-zero _))
release_items_lem t (i ∷ items) s positive enough =
    let (r, hr) =
      release_line-total t i s positive.0
        (omega (arith, enough (key_of t i.sku i.location), line_demand_self t i)) in
    let row = λ (j : StockKey). release_line t i s j hr in
    let (done, rows) =
      release_items_lem t items r.1 positive.1
        (λ j. rw (row j, reserved-freed_row) (omega (arith, enough j))) in
    rw (hr, release_items)
      (
        done,
        λ j.
            rows j
            ∙ ap (freed_row (demand t j items)) (row j)
            ∙ freed_row-freed_row (line_demand t j i) _ _,
      )
