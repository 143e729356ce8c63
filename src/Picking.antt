-- ===== src/Picking.antt =====
-- Pick lists, backend-nest/src/fulfillment/picking.service.ts: consolidation of planned lines,
-- assignment, start, recording of picks and cancellation. The walking order of the lines and the
-- planning against stock are not part of this model.
pub mod Consolidation
pub mod Recording
mod Tests
use werehouse.Prelude.{
  ℕ, ◌+◌, Bool, true, false, not, ◌&&◌, ◌||◌, Option, none, some, List, [], ◌∷◌,
}
use werehouse.Prelude.Tests.{leb, ltb, nat_beq, if◌then◌else◌}
use werehouse.Prelude.Int.{ℤ, pos_part}
use werehouse.Prelude.Lists.{length, keep}
use werehouse.Prelude.Table.{Table, nat_eq, lookup, insert}
use werehouse.Result.{
  Result, ok, bad_request, not_found, conflict, ◌>>=◌, ◌>>◌, or_throw, throw_if, pick_list_missing,
  pick_list_completed, pick_list_cancelled, pick_above_requested, line_not_in_document,
}

-- A line of the plan. The text key of the source is the SKU, the location and the batch.
pub record PlannedLine : Type 0 where
  pub sales_order_id : Option ℕ
  pub sku : ℕ
  pub batch_id : Option ℕ
  pub location : ℕ
  pub quantity_requested : ℕ

abbrev pub same_id : Option ℕ → Option ℕ → Bool
same_id none none = true
same_id (some a) (some b) = nat_beq a b
same_id _ _ = false

-- The source joins the three into one text, with `|` between them; no SKU, location or id is taken to
-- contain that sign, so that the texts agree exactly where the three do.
abbrev pub same_line : PlannedLine → PlannedLine → Bool
same_line a b =
    nat_beq a.sku b.sku && nat_beq a.location b.location && same_id a.batch_id b.batch_id

-- `existing` takes in a line of its key; it loses its order if that of the line is another.
abbrev pub merged_line : PlannedLine → PlannedLine → PlannedLine
merged_line existing line = record existing {
  quantity_requested = existing.quantity_requested + line.quantity_requested;
  sales_order_id =
      if same_id existing.sales_order_id line.sales_order_id then existing.sales_order_id else none;
}

unfoldable pub merge_line : PlannedLine → List PlannedLine → List PlannedLine
merge_line line [] = line ∷ []
merge_line line (m ∷ merged) =
    let further = m ∷ merge_line line merged in
    if same_line m line then merged_line m line ∷ merged else further

-- The loop of `consolidate`, with the map so far.
unfoldable pub consolidate_into : List PlannedLine → List PlannedLine → List PlannedLine
unfolding merge_line
consolidate_into [] merged = merged
consolidate_into (line ∷ lines) merged = consolidate_into lines (merge_line line merged)

unfoldable pub consolidate : List PlannedLine → List PlannedLine
unfolding consolidate_into
consolidate lines = consolidate_into lines []

pub data PickStatus : Type 0 where
  pending assigned in_progress completed cancelled : PickStatus

abbrev pub is_completed : PickStatus → Bool
is_completed completed = true
is_completed _ = false

abbrev pub is_cancelled : PickStatus → Bool
is_cancelled cancelled = true
is_cancelled _ = false

pub record PickItem : Type 0 where
  pub quantity_requested : ℕ
  pub quantity_picked : ℕ
  pub status : PickStatus

pub record PickList : Type 0 where
  pub status : PickStatus
  pub assigned_to : Option ℕ
  pub items : Table ℕ PickItem
  pub completed_lines : ℕ

abbrev pub or_else : Option ℕ → Option ℕ → Option ℕ
or_else (some a) b = some a
or_else none b = b

unfoldable pub assign : ℕ → ℕ → Table ℕ PickList → Result (Table ℕ PickList)
assign id user lists = do
  l ← or_throw (lookup id lists) (not_found pick_list_missing)
  throw_if (is_completed l.status) (conflict pick_list_completed)
  ok (insert id (record l { assigned_to = some user; status = assigned }) lists)

unfoldable pub start : ℕ → Option ℕ → Table ℕ PickList → Result (Table ℕ PickList)
start id actor lists = do
  l ← or_throw (lookup id lists) (not_found pick_list_missing)
  throw_if (is_completed l.status || is_cancelled l.status) (conflict pick_list_completed)
  ok (
      insert id (record l { status = in_progress; assigned_to = or_else l.assigned_to actor })
        lists)

-- One reported pick, its quantity a rounded number.
pub record PickLine : Type 0 where
  pub item_id : ℕ
  pub quantity_picked : ℤ

abbrev pub picked_item : ℕ → PickItem → PickItem
picked_item n item = record item {
  quantity_picked = n;
  status = if leb item.quantity_requested n then completed else in_progress;
}

-- The loop over the lines: `original` are the items as read before the transaction.
unfoldable pub record_lines :
    Table ℕ PickItem → List PickLine → Table ℕ PickItem → Result (Table ℕ PickItem)
record_lines original [] items = ok items
record_lines original (line ∷ lines) items =
    let picked = pos_part line.quantity_picked in
    or_throw (lookup line.item_id original) (bad_request line_not_in_document) >>= λ item.
    throw_if (ltb item.quantity_requested picked) (bad_request pick_above_requested)
    >> record_lines original lines (insert line.item_id (picked_item picked item) items)

abbrev pub is_done : ℕ × PickItem → Bool
is_done r = is_completed r.1.status

unfoldable pub recorded_list : Table ℕ PickItem → PickList → PickList
recorded_list items l =
    let completed_lines = length (keep is_done items) in
    record l {
      items = items;
      completed_lines = completed_lines;
      status = if leb (length items) completed_lines then completed else in_progress;
    }

unfoldable pub record_picks : ℕ → List PickLine → Table ℕ PickList → Result (Table ℕ PickList)
unfolding record_lines recorded_list
record_picks id lines lists = do
  l ← or_throw (lookup id lists) (not_found pick_list_missing)
  throw_if (is_completed l.status) (conflict pick_list_completed)
  throw_if (is_cancelled l.status) (conflict pick_list_cancelled)
  items ← record_lines l.items lines l.items
  ok (insert id (recorded_list items l) lists)

unfoldable pub cancel : ℕ → Table ℕ PickList → Result (Table ℕ PickList)
cancel id lists = do
  l ← or_throw (lookup id lists) (not_found pick_list_missing)
  throw_if (is_completed l.status) (conflict pick_list_completed)
  ok (insert id (record l { status = cancelled }) lists)
