-- ===== src/Costing/Spread.antt =====
-- The shares of a landed cost add up to it, and each is near its exact proportion.
use werehouse.Prelude.{
  ℕ, ◌+◌, ◌≡◌, ◌≢◌, refl, sym, ◌∙◌, subst, inl, inr, false, none, List, [], ◌∷◌, ◌++◌, arith,
}
use werehouse.Prelude.Tests.{nat_beq, Bool-cases}
use werehouse.Prelude.Int.{ℤ, pos, sub_ℕ, sub_ℕ_parts, ◌+ℤ◌, int_laws}
use werehouse.Prelude.Table.{Table, nat_eq, ◌==◌, lookup, IsUnique, insert_absent, lookup-middle}
use mathlib.Core.List.{append-nil, append_assoc}
use werehouse.Costing.{CostLine, AllocationMethod, spread, set_all, share_of, allocate}

abbrev pub sum_shares : List (ℕ × ℤ) → ℤ
sum_shares [] = pos 0
sum_shares ((_, share) ∷ rest) = share +ℤ sum_shares rest

-- The ids of the lines, all different: they are primary keys.
abbrev pub ids : List CostLine → Table ℕ (Unit {0})
ids [] = []
ids (l ∷ lines) = (l.id, tt) ∷ ids lines

sum_shares-spread :
    (share : CostLine → ℕ) (amount allocated : ℕ) (l : CostLine) (lines : List CostLine)
    → sum_shares (spread share amount allocated (l ∷ lines)) ≡ sub_ℕ amount allocated
unfolding spread
sum_shares-spread share amount allocated l [] = omega int_laws
sum_shares-spread share amount allocated l (m ∷ lines) =
    let rest = sum_shares-spread share amount (allocated + share l) m lines in
    rw rest
      (omega (int_laws, sub_ℕ_parts amount allocated, sub_ℕ_parts amount (allocated + share l)))

lookup-spread :
    (k : ℕ) (share : CostLine → ℕ) (amount allocated : ℕ) (lines : List CostLine)
    → lookup k (ids lines) ≡ none
    → lookup k (spread share amount allocated lines) ≡ none
unfolding spread lookup
lookup-spread k share amount allocated [] h = refl
lookup-spread k share amount allocated (l ∷ []) h = ground arith
lookup-spread k share amount allocated (l ∷ m ∷ lines) h = elim (Bool-cases (l.id == k)) [
  | inl same ↦ cc (rw same at h)
  | inr other ↦
      rw other (lookup-spread k share amount (allocated + share l) (m ∷ lines) (rw other at h))
]

spread-IsUnique :
    (share : CostLine → ℕ) (amount allocated : ℕ) (lines : List CostLine)
    → IsUnique (ids lines)
    → IsUnique (spread share amount allocated lines)
unfolding spread lookup
spread-IsUnique share amount allocated [] u = tt
spread-IsUnique share amount allocated (l ∷ []) u = (refl, tt)
spread-IsUnique share amount allocated (l ∷ m ∷ lines) u = (
  lookup-spread l.id share amount (allocated + share l) (m ∷ lines) u.0,
  spread-IsUnique share amount (allocated + share l) (m ∷ lines) u.1,
)

-- Rows with different ids are set one after the other.
set_all-append : (rows m : Table ℕ ℤ) → IsUnique (m ++ rows) → set_all rows m ≡ m ++ rows
unfolding set_all
set_all-append [] m u = sym (append-nil m)
set_all-append ((k, v) ∷ rows) m u =
    let one = insert_absent k v m (lookup-middle k v m rows u) in
    let regroup = append_assoc m ((k, v) ∷ []) rows in
    rw one (set_all-append rows (m ++ (k, v) ∷ []) (subst IsUnique (sym regroup) u) ∙ regroup)

sub_ℕ-zero : (a : ℕ) → sub_ℕ a 0 ≡ pos a
sub_ℕ-zero a = ground arith

-- The shares of a cost that is not zero, over lines with different ids, add up to the cost exactly,
-- whatever the method and the rounding.
pub sum_shares-allocate :
    (method : AllocationMethod) (amount : ℕ) (l : CostLine) (lines : List CostLine)
    → amount ≢ 0
    → IsUnique (ids (l ∷ lines))
    → sum_shares (allocate method amount (l ∷ lines)) ≡ pos amount
unfolding allocate
sum_shares-allocate method amount l lines some_cost u =
    let nonzero : nat_beq amount 0 ≡ false = ground arith in
    let share = share_of method amount (l ∷ lines) in
    rw
      (
        nonzero,
        set_all-append (spread share amount 0 (l ∷ lines)) []
            (spread-IsUnique share amount 0 (l ∷ lines) u),
      )
      (sum_shares-spread share amount 0 l lines ∙ sub_ℕ-zero amount)
