-- ===== src/Picking/Recording.antt =====
-- What recording picks keeps: backend-nest/src/fulfillment/picking.service.ts, `recordPicks`.
use werehouse.Prelude.{
  ℕ, ◌≤◌, ◌≡◌, sym, ap, subst, ◌∙◌, true, false, ◌||◌, some, List, [], ◌∷◌, ◌⊎◌, inl, inr, refl,
  arith,
}
use werehouse.Prelude.Tests.{leb, leb→le, ltb, nat_beq, Bool-cases}
use werehouse.Prelude.Int.{pos_part}
use werehouse.Prelude.Lists.{length, keep, keep-true, keep-false, All}
use werehouse.Prelude.Table.{Table, nat_eq, lookup, insert, lookup-insert_self}
use werehouse.Result.{
  ok, conflict, not_found, bad_request, >>=-eq-ok, or_throw, or_throw-ok, throw_if, throw_if-ok,
  ok-injective, pick_list_missing, pick_list_completed, pick_list_cancelled, pick_above_requested,
  line_not_in_document,
}
use werehouse.Picking.{
  PickItem, PickList, PickLine, is_completed, is_cancelled, picked_item, record_lines, is_done,
  recorded_list, record_picks,
}

-- Not more is picked than requested, and a completed line has all of it.
abbrev pub IsWithin : PickItem → Type 0
IsWithin item =
    (item.quantity_picked ≤ item.quantity_requested)
    × (is_completed item.status ≡ true → item.quantity_picked ≡ item.quantity_requested)

abbrev pub AllWithin : Table ℕ PickItem → Type 0
AllWithin items = All (λ r. IsWithin r.1) items

insert-AllWithin :
    (i : ℕ) (item : PickItem) (items : Table ℕ PickItem)
    → IsWithin item
    → AllWithin items
    → AllWithin (insert i item items)
unfolding insert
insert-AllWithin i item [] new all = (new, tt)
insert-AllWithin i item ((j, old) ∷ items) new all = elim (Bool-cases (nat_beq j i)) [
  | inl same ↦ rw same (new, all.1)
  | inr other ↦ rw other (all.0, insert-AllWithin i item items new all.1)
]

picked_item-IsWithin :
    (n : ℕ) (item : PickItem)
    → ltb item.quantity_requested n ≡ false
    → IsWithin (picked_item n item)
picked_item-IsWithin n item h = (ground arith, λ done. ground (arith, done))

record_lines-AllWithin :
    (original : Table ℕ PickItem) (lines : List PickLine) (items : Table ℕ PickItem)
    {items' : Table ℕ PickItem}
    → AllWithin items
    → record_lines original lines items ≡ ok items'
    → AllWithin items'
unfolding record_lines
record_lines-AllWithin original [] items all h = subst AllWithin (ok-injective h) all
record_lines-AllWithin original (line ∷ lines) items all h =
    let n = pos_part line.quantity_picked in
    let (item, h1, h2) =
      >>=-eq-ok (or_throw (lookup line.item_id original) (bad_request line_not_in_document)) _ h in
    let (u, hu, h3) =
      >>=-eq-ok (throw_if (ltb item.quantity_requested n) (bad_request pick_above_requested)) _
        h2 in
    record_lines-AllWithin original lines (insert line.item_id (picked_item n item) items)
      (insert-AllWithin line.item_id (picked_item n item) items
        (picked_item-IsWithin n item (throw_if-ok _ _ hu)) all)
      h3

length-keep_done : (items : Table ℕ PickItem) → length (keep is_done items) ≤ length items
length-keep_done [] = omega arith
length-keep_done (r ∷ items) = elim (Bool-cases (is_done r)) [
  | inl done ↦ omega (arith, ap length (keep-true is_done r items done), length-keep_done items)
  | inr not_done ↦
      omega (arith, ap length (keep-false is_done r items not_done), length-keep_done items)
]

-- A table of which every line counts as done has every line fully picked.
each_done :
    (items : Table ℕ PickItem)
    → AllWithin items
    → length items ≤ length (keep is_done items)
    → All (λ r. r.1.quantity_picked ≡ r.1.quantity_requested) items
each_done [] all h = tt
each_done (r ∷ items) all h = elim (Bool-cases (is_done r)) [
  | inl done ↦
      let e = ap length (keep-true is_done r items done) in
      (all.0.1 done, each_done items all.1 (omega (arith, e, h)))
  | inr not_done ↦
      let e = ap length (keep-false is_done r items not_done) in
      absurd (omega (arith, e, h, length-keep_done items))
]

-- Recording picks succeeds only on a list that is neither completed nor cancelled. If no line was
-- picked above its request before, and the completed lines in full, this holds afterwards; and a list
-- that the recording completes has every line picked in full.
pub record_picks-AllWithin :
    (id : ℕ) (lines : List PickLine) (lists : Table ℕ PickList) {lists' : Table ℕ PickList}
    (l : PickList)
    → lookup id lists ≡ some l
    → AllWithin l.items
    → record_picks id lines lists ≡ ok lists'
    → (is_completed l.status || is_cancelled l.status ≡ false)
      × ((l' : PickList) × (lookup id lists' ≡ some l')
          × AllWithin l'.items
          × ((is_completed l'.status ≡ false)
              ⊎ All (λ r. r.1.quantity_picked ≡ r.1.quantity_requested) l'.items))
unfolding record_picks recorded_list
record_picks-AllWithin id lines lists {lists'} l found all h =
    let (d, hd, h1) = >>=-eq-ok (or_throw (lookup id lists) (not_found pick_list_missing)) _ h in
    let (u, hu, h2) =
      >>=-eq-ok (throw_if (is_completed d.status) (conflict pick_list_completed)) _ h1 in
    let (v, hv, h3) =
      >>=-eq-ok (throw_if (is_cancelled d.status) (conflict pick_list_cancelled)) _ h2 in
    let (items, hi, h4) = >>=-eq-ok (record_lines d.items lines d.items) _ h3 in
    let same : d ≡ l = cc (sym (or_throw-ok _ _ hd) ∙ found) in
    let still = throw_if-ok _ _ hu in
    let alive = throw_if-ok _ _ hv in
    let within =
      record_lines-AllWithin d.items lines d.items (subst (λ x. AllWithin x.items) (sym same) all)
        hi in
    (
      subst (λ x. is_completed x.status || is_cancelled x.status ≡ false) same (rw still alive),
      (
        recorded_list items d,
        sym (ap (lookup id) (ok-injective h4))
            ∙ lookup-insert_self id (recorded_list items d) lists,
        within,
        elim (Bool-cases (leb (length items) (length (keep is_done items)))) [
          | inl all_picked ↦ inr (each_done items within (leb→le _ _ all_picked))
          | inr some_left ↦ inl (rw some_left refl)
        ],
      ),
    )
