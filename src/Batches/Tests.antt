-- ===== src/Batches/Tests.antt =====
-- Two lots of one product at two places, drawn by expiry.
use werehouse.Prelude.{ℕ, ◌-◌, ◌≡◌, refl, true, none, some, List, [], ◌∷◌, ◌++◌, min, arith}
use werehouse.Prelude.Int.{pos, ◌-ℤ◌}
use werehouse.Prelude.Lists.{All}
use werehouse.Prelude.Table.{nat_eq, lookup, insert, total}
use werehouse.Result.{ok, value_or}
use werehouse.Stock.{
  stock_key_eq, product_key_eq, Product, weighted_average, Level, key_of, apply_stock_change_within,
}
use werehouse.Batches.{
  BatchStatus, available, near_expiry, Batch, batch_key_eq, BatchStore, fefo, Candidate,
  BatchAllocation, Allocated, in_order, allocate, consume_within,
}
use werehouse.Batches.Allocation.{drawn_units, offered_units, Drawn, allocate-Drawn}
use werehouse.Batches.Offers.{sellable_units, IsOffer, InSequence}
use werehouse.Batches.Greedy.{IsDrawn, allocate-greedy}
use werehouse.Batches.Ledgers.{AllAgree, RowsBalanced, IsConsistent, consume_within-IsConsistent}

abbrev lot : ℕ → BatchStatus → ℕ → Batch
lot expiry status n = record {
  sku = 5;
  batch_number = some expiry;
  production_date = none;
  expiry_date = some expiry;
  status = status;
  initial_quantity = pos n;
  quantity = pos n;
  reserved = pos 0;
  unit_cost = pos 25000;
  created_at = 1;
}

abbrev free : ℕ → Level
free n = record { quantity = n; reserved = 0; available = n }

abbrev goods : Product
goods = record {
  cost_price = 25000;
  costing_method = weighted_average;
  batch_tracked = true;
  shelf_life_days = none;
}

-- The first lot expires last.
abbrev lots : BatchStore
lots = record {
  stock = record {
    products = (record { tenant = 1; sku = 5 }, goods) ∷ [];
    levels = (key_of 1 5 2, free 6) ∷ (key_of 1 5 3, free 4) ∷ [];
    movements = [];
  };
  batches = (11, lot 90 available 6) ∷ (12, lot 60 near_expiry 4) ∷ [];
  levels =
      (record { batch_id = 11; location = 2 }, free 6)
      ∷ (record { batch_id = 12; location = 3 }, free 4)
      ∷ [];
}

abbrev nothing_drawn : Allocated
nothing_drawn = record {
  requested = 0;
  allocated = 0;
  shortfall = 0;
  allocations = [];
  blocked = [];
}

abbrev proposal : Allocated
proposal = value_or nothing_drawn (allocate (some 1) 5 (some (pos 7)) none fefo lots)

allocate-Drawn_example :
    (r : Allocated) × (allocate (some 1) 5 (some (pos 7)) none fefo lots ≡ ok r)
    × (r.requested ≡ 7)
    × Drawn 5 none lots r
allocate-Drawn_example = allocate-Drawn 1 5 7 none fefo lots (omega arith)

abbrev second_lot : List Candidate
second_lot =
    record {
      batch_id = 12;
      location = 3;
      available = 4;
      unit_cost = pos 25000;
      expiry_date = some 60;
      created_at = 1;
    }
    ∷ []

abbrev first_lot : List Candidate
first_lot =
    record {
      batch_id = 11;
      location = 2;
      available = 6;
      unit_cost = pos 25000;
      expiry_date = some 90;
      created_at = 1;
    }
    ∷ []

allocate-greedy_example :
    All (IsOffer 5 none lots.batches lots.levels) (second_lot ++ first_lot)
    × (offered_units (second_lot ++ first_lot) ≡ sellable_units 5 none lots)
    × InSequence fefo (second_lot ++ first_lot)
    × ((a : List BatchAllocation) × (b : List BatchAllocation) × (proposal.allocations ≡ a ++ b)
        × All (IsDrawn 5 second_lot) a
        × All (IsDrawn 5 first_lot) b
        × (drawn_units a ≡ min proposal.requested (offered_units second_lot))
        × (drawn_units b
            ≡ min (proposal.requested - offered_units second_lot) (offered_units first_lot)))
unfolding allocate lookup in_order
allocate-greedy_example =
    allocate-greedy (some 1) 5 (some (pos 7)) none fefo lots proposal second_lot first_lot refl refl

lots-IsConsistent : IsConsistent lots
unfolding AllAgree RowsBalanced lookup total
lots-IsConsistent = (λ k l h. ground arith, λ id b h. ground (arith, h))

consume_within-IsConsistent_example :
    IsConsistent (value_or lots (consume_within (some 1) none proposal.allocations lots))
unfolding consume_within allocate lookup insert in_order ◌-ℤ◌ apply_stock_change_within
consume_within-IsConsistent_example =
    consume_within-IsConsistent (some 1) none proposal.allocations lots refl lots-IsConsistent
