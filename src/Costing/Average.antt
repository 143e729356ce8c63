-- ===== src/Costing/Average.antt =====
-- The weighted average cost.
use werehouse.Prelude.{ℕ, ◌+◌, ◌*◌, ◌≤◌, ◌<◌, ◌≡◌, false, arith, min, max}
use werehouse.Prelude.Tests.{nat_beq}
use werehouse.Costing.{round_half_up, average_cost}

-- The rounded quotient is within half a unit of the exact one.
pub round_half_up_near :
    (n d : ℕ)
    → 0 < d
    → (round_half_up n d * d * 2 ≤ n * 2 + d) × (n * 2 < round_half_up n d * d * 2 + d)
unfolding round_half_up
round_half_up_near n d h = grind arith

round_half_up_between :
    (n d lo hi : ℕ)
    → 0 < d
    → lo * d ≤ n
    → n ≤ hi * d
    → (lo ≤ round_half_up n d) × (round_half_up n d ≤ hi)
unfolding round_half_up
round_half_up_between n d lo hi h below above = grind arith

-- The weighted average lies between the old cost and the incoming one, and revaluing the whole stock
-- at it changes the value of the stock and the receipt by half a unit of cost for each unit at most.
pub average_cost_bounds :
    (on_hand old_cost quantity_in incoming : ℕ)
    → 0 < quantity_in
    → let new_cost = average_cost on_hand old_cost quantity_in incoming in
      let units = on_hand + quantity_in in
      let value = old_cost * on_hand + incoming * quantity_in in
      (min old_cost incoming ≤ new_cost)
      × (new_cost ≤ max old_cost incoming)
      × (new_cost * units * 2 ≤ value * 2 + units)
      × (value * 2 < new_cost * units * 2 + units)
unfolding average_cost
average_cost_bounds on_hand old_cost quantity_in incoming h =
    let units = on_hand + quantity_in in
    let value = old_cost * on_hand + incoming * quantity_in in
    let some_units : 0 < units = omega arith in
    let near = round_half_up_near value units some_units in
    let between =
      round_half_up_between value units (min old_cost incoming) (max old_cost incoming) some_units
        (grind arith) (grind arith) in
    let not_empty : nat_beq units 0 ≡ false = ground arith in
    rw not_empty (between.0, between.1, near.0, near.1)
