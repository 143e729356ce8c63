-- ===== src/Picking/Consolidation.antt =====
-- What consolidation keeps: backend-nest/src/fulfillment/picking.service.ts, `consolidate`.
use werehouse.Prelude.{ℕ, ◌+◌, ◌≡◌, true, false, List, [], ◌∷◌, inl, inr, arith}
use werehouse.Prelude.Tests.{if◌then◌else◌, Bool-cases}
use werehouse.Prelude.Lists.{sum_by, All}
use werehouse.Picking.{PlannedLine, same_line, merge_line, consolidate_into, consolidate}

-- The units that a list of lines asks for in the place of a line.
abbrev pub units_like : PlannedLine → List PlannedLine → ℕ
units_like p lines = sum_by (λ m. if same_line m p then m.quantity_requested else 0) lines

-- No two lines of a list are for the same SKU, location and batch.
abbrev pub AllDistinct : List PlannedLine → Type 0
AllDistinct [] = Unit
AllDistinct (m ∷ lines) = All (λ n. same_line m n ≡ false) lines × AllDistinct lines

same_line_trans : (a b p : PlannedLine) → same_line a b ≡ true → same_line a p ≡ same_line b p
same_line_trans a b p h = ground arith

merge_line-units :
    (p line : PlannedLine) (merged : List PlannedLine)
    → units_like p (merge_line line merged) ≡ units_like p (line ∷ merged)
unfolding merge_line
merge_line-units p line [] = omega arith
merge_line-units p line (m ∷ merged) = elim (Bool-cases (same_line m line)) [
  | inl same ↦ rw same (ground (arith, same_line_trans m line p same))
  | inr other ↦ rw other (omega (arith, merge_line-units p line merged))
]

merge_line-apart :
    (m line : PlannedLine) (merged : List PlannedLine)
    → same_line m line ≡ false
    → All (λ n. same_line m n ≡ false) merged
    → All (λ n. same_line m n ≡ false) (merge_line line merged)
unfolding merge_line
merge_line-apart m line [] h hs = (h, tt)
merge_line-apart m line (n ∷ merged) h hs = elim (Bool-cases (same_line n line)) [
  | inl same ↦ rw same (hs.0, hs.1)
  | inr other ↦ rw other (hs.0, merge_line-apart m line merged h hs.1)
]

merge_line-AllDistinct :
    (line : PlannedLine) (merged : List PlannedLine)
    → AllDistinct merged
    → AllDistinct (merge_line line merged)
unfolding merge_line
merge_line-AllDistinct line [] d = (tt, tt)
merge_line-AllDistinct line (m ∷ merged) d = elim (Bool-cases (same_line m line)) [
  | inl same ↦ rw same (d.0, d.1)
  | inr other ↦
      rw other (merge_line-apart m line merged other d.0, merge_line-AllDistinct line merged d.1)
]

consolidate_into_lem :
    (lines merged : List PlannedLine)
    → AllDistinct merged
    → AllDistinct (consolidate_into lines merged)
      × ((p : PlannedLine)
          → units_like p (consolidate_into lines merged) ≡ units_like p lines + units_like p merged)
unfolding consolidate_into
consolidate_into_lem [] merged d = (d, λ p. omega arith)
consolidate_into_lem (line ∷ lines) merged d =
    let further =
      consolidate_into_lem lines (merge_line line merged) (merge_line-AllDistinct line merged d) in
    (further.0, λ p. omega (arith, further.1 p, merge_line-units p line merged))

-- A consolidated pick list visits no place twice for the same SKU and batch, and asks in every place
-- for exactly the units of the planned lines.
pub consolidate_lem :
    (lines : List PlannedLine)
    → AllDistinct (consolidate lines)
      × ((p : PlannedLine) → units_like p (consolidate lines) ≡ units_like p lines)
unfolding consolidate
consolidate_lem lines = let r = consolidate_into_lem lines [] tt in (r.0, λ p. omega (arith, r.1 p))
