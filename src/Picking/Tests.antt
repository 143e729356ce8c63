-- ===== src/Picking/Tests.antt =====
-- Three planned lines, two of them for one bin, and a pick of a list of two lines.
use werehouse.Prelude.{ℕ, ◌≡◌, refl, false, ◌||◌, ◌⊎◌, none, some, List, [], ◌∷◌, arith}
use werehouse.Prelude.Int.{pos}
use werehouse.Prelude.Lists.{All}
use werehouse.Prelude.Table.{Table, nat_eq, lookup, insert}
use werehouse.Result.{value_or}
use werehouse.Picking.{
  PlannedLine, consolidate, PickList, PickLine, PickItem, pending, assigned, is_completed,
  is_cancelled, record_picks,
}
use werehouse.Picking.Consolidation.{AllDistinct, units_like, consolidate_lem}
use werehouse.Picking.Recording.{AllWithin, record_picks-AllWithin}

abbrev planned : ℕ → ℕ → ℕ → PlannedLine
planned order location n = record {
  sales_order_id = some order;
  sku = 5;
  batch_id = none;
  location = location;
  quantity_requested = n;
}

abbrev plan : List PlannedLine
plan = planned 1 2 4 ∷ planned 1 3 1 ∷ planned 2 2 6 ∷ []

consolidate_lem_example :
    AllDistinct (consolidate plan)
    × ((p : PlannedLine) → units_like p (consolidate plan) ≡ units_like p plan)
consolidate_lem_example = consolidate_lem plan

-- The shared bin is visited once, for ten units of no single order.
consolidated :
    consolidate plan ≡ record (planned 1 2 10) { sales_order_id = none } ∷ planned 1 3 1 ∷ []
unfolding consolidate
consolidated = refl

abbrev to_pick : ℕ → PickItem
to_pick n = record { quantity_requested = n; quantity_picked = 0; status = pending }

abbrev round : PickList
round = record {
  status = assigned;
  assigned_to = some 8;
  items = (1, to_pick 4) ∷ (2, to_pick 1) ∷ [];
  completed_lines = 0;
}

abbrev rounds : Table ℕ PickList
rounds = (3, round) ∷ []

abbrev picks : List PickLine
picks =
    record { item_id = 2; quantity_picked = pos 1 }
    ∷ record { item_id = 1; quantity_picked = pos 4 }
    ∷ []

record_picks-AllWithin_example :
    (is_completed round.status || is_cancelled round.status ≡ false)
    × ((l' : PickList) × (lookup 3 (value_or rounds (record_picks 3 picks rounds)) ≡ some l')
        × AllWithin l'.items
        × ((is_completed l'.status ≡ false)
            ⊎ All (λ r. r.1.quantity_picked ≡ r.1.quantity_requested) l'.items))
unfolding record_picks lookup insert
record_picks-AllWithin_example =
    record_picks-AllWithin 3 picks rounds round refl
      ((omega arith, λ done. cc done), ((omega arith, λ done. cc done), tt)) refl
