-- ===== src/Costing/Drift.antt =====
-- How far a share of a landed cost can be from its exact proportion.
use werehouse.Prelude.{ℕ, ◌+◌, ◌*◌, ◌≤◌, ◌≡◌, ◌≢◌, refl, ap, false, List, [], ◌∷◌, arith}
use werehouse.Prelude.Tests.{nat_beq}
use werehouse.Prelude.Int.{ℤ, pos_part, neg_part, sub_ℕ, sub_ℕ_parts}
use werehouse.Prelude.Lists.{length, sum_by}
use werehouse.Costing.{CostLine, AllocationMethod, weight_of, round_half_up, spread, share_of}
use werehouse.Costing.Average.{round_half_up_near}

-- `share` is within `drift / 2` of `amount * w / basis`.
abbrev pub IsNear : ℕ → ℕ → ℕ → ℕ → ℤ → Type 0
IsNear basis amount drift w share =
    (pos_part share * basis * 2 ≤ amount * w * 2 + neg_part share * basis * 2 + drift * basis)
    × (amount * w * 2 + neg_part share * basis * 2 ≤ pos_part share * basis * 2 + drift * basis)

abbrev pub AllNear : (CostLine → ℕ) → ℕ → ℕ → ℕ → List (ℕ × ℤ) → List CostLine → Type 0
AllNear w basis amount drift ((id, share) ∷ rows) (l ∷ lines) =
    (id ≡ l.id) × IsNear basis amount drift (w l) share × AllNear w basis amount drift rows lines
AllNear w basis amount drift [] [] = Unit
AllNear w basis amount drift _ _ = ⊥

module _ (w share : CostLine → ℕ) (basis amount total_lines : ℕ) where
  -- Every line but the last is rounded, and the last takes the drift of the others.
  spread-AllNear :
      ((l : CostLine)
        → (share l * basis * 2 ≤ amount * w l * 2 + basis)
          × (amount * w l * 2 ≤ share l * basis * 2 + basis))
      → (l : CostLine) (lines : List CostLine) (allocated done n : ℕ)
      → done + sum_by w (l ∷ lines) ≡ basis
      → n + length (l ∷ lines) ≡ total_lines
      → allocated * basis * 2 ≤ amount * done * 2 + n * basis
      → amount * done * 2 ≤ allocated * basis * 2 + n * basis
      → AllNear w basis amount total_lines (spread share amount allocated (l ∷ lines)) (l ∷ lines)
  unfolding spread
  spread-AllNear near l [] allocated done n all count below above =
      let last = sub_ℕ amount allocated in
      let left = ap (λ (x : ℕ). x * basis) (sub_ℕ_parts amount allocated) in
      let whole = ap (λ (x : ℕ). amount * x) all in
      let many = ap (λ (x : ℕ). x * basis) count in
      (refl, (omega (arith, left, whole, many), omega (arith, left, whole, many)), tt)
  spread-AllNear near l (m ∷ lines) allocated done n all count below above =
      let many = ap (λ (x : ℕ). x * basis) count in
      (
        refl,
        (omega (arith, near l, many), omega (arith, near l, many)),
        spread-AllNear near m lines (allocated + share l) (done + w l) (n + 1) (omega arith)
            (omega arith) (omega (arith, near l)) (omega (arith, near l)),
      )

-- With a basis that is not zero, the share of each of `n` lines is within `n / 2` units of its exact
-- proportion of the cost, the last line included.
pub allocate_proportional :
    (method : AllocationMethod) (amount : ℕ) (l : CostLine) (lines : List CostLine)
    → let all : List CostLine = l ∷ lines in
      let basis = sum_by (weight_of method) all in
      basis ≢ 0
      → AllNear
          (weight_of method)
          basis
          amount
          (length all)
          (spread (share_of method amount all) amount 0 all)
          all
unfolding share_of
allocate_proportional method amount l lines nonzero =
    let all : List CostLine = l ∷ lines in
    let basis = sum_by (weight_of method) all in
    let test : nat_beq basis 0 ≡ false = ground arith in
    spread-AllNear (weight_of method) (share_of method amount all) basis amount (length all)
      (λ x. rw test (near_share x)) l lines 0 0 0 (omega arith) (omega arith) (omega arith)
      (omega arith)
  where
    near_share :
        (x : CostLine)
        → let basis = sum_by (weight_of method) (l ∷ lines) in
          let rounded = round_half_up (amount * weight_of method x) basis in
          (rounded * basis * 2 ≤ amount * weight_of method x * 2 + basis)
          × (amount * weight_of method x * 2 ≤ rounded * basis * 2 + basis)
    near_share x =
        let near =
          round_half_up_near (amount * weight_of method x) (sum_by (weight_of method) (l ∷ lines))
            (omega arith) in
        (near.0, omega (arith, near.1))
