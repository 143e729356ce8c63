-- ===== src/Costing/Tests.antt =====
-- Freight over three lines of an invoice, and a receipt at another cost.
use werehouse.Prelude.{ℕ, ◌≡◌, refl, List, [], ◌∷◌, arith}
use werehouse.Prelude.Int.{pos}
use werehouse.Prelude.Table.{nat_eq, lookup}
use werehouse.Costing.{CostLine, by_quantity, weight_of, share_of, spread, allocate}
use werehouse.Costing.Spread.{sum_shares, sum_shares-allocate}
use werehouse.Costing.Drift.{AllNear, allocate_proportional}

abbrev line : ℕ → CostLine
line id = record { id = id; value = 50; quantity = 1; weight_kg = 2 }

abbrev two : List CostLine
two = line 2 ∷ line 3 ∷ []

-- 100 over three equal lines: 33, 33 and 34.
sum_shares-allocate_example : sum_shares (allocate by_quantity 100 (line 1 ∷ two)) ≡ pos 100
unfolding lookup
sum_shares-allocate_example =
    sum_shares-allocate by_quantity 100 (line 1) two (λ e. omega (arith, e))
      (refl, (refl, (refl, tt)))

allocate_proportional_example :
    AllNear
      (weight_of by_quantity)
      3
      100
      3
      (spread (share_of by_quantity 100 (line 1 ∷ two)) 100 0 (line 1 ∷ two))
      (line 1 ∷ two)
unfolding weight_of
allocate_proportional_example =
    allocate_proportional by_quantity 100 (line 1) two (λ e. omega (arith, e))
