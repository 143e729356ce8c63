-- ===== src/Ledger/Balance.antt =====
-- Merging and netting keep the balance: the netted debits exceed the netted credits by as much as the
-- debits of the lines exceed their credits.
use werehouse.Prelude.{ℕ, ◌≡◌, ◌↔◌, subst, inl, inr, true, false, Option, List, [], ◌∷◌, arith}
use werehouse.Prelude.Tests.{Bool-cases, Option-cases, nat_beq, if◌then◌else◌}
use werehouse.Prelude.Int.{ℤ, pos, is_pos, is_neg, abs, ◌+ℤ◌, ◌-ℤ◌, parts_of_eq, int_laws}
use werehouse.Prelude.Lists.{All, keep}
use werehouse.Prelude.Table.{Table, nat_eq, lookup, insert}
use werehouse.Ledger.{
  LedgerRole, LedgerLine, role_code, has_role, needed_roles, is_unmapped, missing_roles,
  sides_or_zero, add_line, merge, net_line, netted, total_debit, total_credit, is_empty,
}

-- The debits of the lines less their credits.
abbrev pub net_of : List LedgerLine → ℤ
net_of [] = pos 0
net_of (l ∷ lines) = l.debit -ℤ l.credit +ℤ net_of lines

abbrev net_table : Table ℕ (ℤ × ℤ) → ℤ
net_table [] = pos 0
net_table ((_, (debit, credit)) ∷ rest) = debit -ℤ credit +ℤ net_table rest

abbrev net_sides : ℤ × ℤ → ℤ
net_sides (debit, credit) = debit -ℤ credit

net_table-insert :
    (account : ℕ) (v : ℤ × ℤ) (m : Table ℕ (ℤ × ℤ))
    → net_table (insert account v m) +ℤ net_sides (sides_or_zero (lookup account m))
      ≡ net_table m +ℤ net_sides v
unfolding lookup insert
net_table-insert account v [] = omega int_laws
net_table-insert account v ((a, w) ∷ m) = elim (Bool-cases (nat_beq a account)) [
  | inl same ↦ rw same (omega int_laws)
  | inr other ↦ rw other (omega (int_laws, parts_of_eq (net_table-insert account v m)))
]

net_table-add_line :
    (account : ℕ) (l : LedgerLine) (m : Table ℕ (ℤ × ℤ))
    → net_table (add_line account l m) ≡ net_table m +ℤ (l.debit -ℤ l.credit)
net_table-add_line account l m =
    let old = sides_or_zero (lookup account m) in
    omega (int_laws, parts_of_eq (net_table-insert account (old.0 +ℤ l.debit, old.1 +ℤ l.credit) m))

abbrev pub AllMapped : (LedgerRole → Option ℕ) → List LedgerLine → Type 0
AllMapped account_of = All (λ l. is_unmapped account_of l.role ≡ false)

net_table-merge :
    (account_of : LedgerRole → Option ℕ) (lines : List LedgerLine) (m : Table ℕ (ℤ × ℤ))
    → AllMapped account_of lines
    → net_table (merge account_of lines m) ≡ net_table m +ℤ net_of lines
unfolding merge
net_table-merge account_of [] m h = omega int_laws
net_table-merge account_of (l ∷ lines) m h = elim (Option-cases (account_of l.role)) [
  | inl missing ↦ cc (rw (missing, is_unmapped) at h.0)
  | inr (a, found) ↦ rw found (
      omega (
        int_laws,
        parts_of_eq (net_table-merge account_of lines (add_line a l m) h.1),
        parts_of_eq (net_table-add_line a l m),
      ))
]

one_side : (n : ℤ) → pos (if is_pos n then abs n else 0) ≡ n +ℤ pos (if is_neg n then abs n else 0)
unfolding ◌+ℤ◌
one_side n = ground arith

net_line-parts :
    (account : ℕ) (sides : ℤ × ℤ)
    → pos (net_line account sides).debit ≡ sides.0 -ℤ sides.1 +ℤ pos (net_line account sides).credit
unfolding net_line
net_line-parts account (debit, credit) = one_side (debit -ℤ credit)

netted-parts :
    (m : Table ℕ (ℤ × ℤ))
    → pos (total_debit (netted m)) ≡ net_table m +ℤ pos (total_credit (netted m))
unfolding netted total_debit total_credit
netted-parts [] = omega int_laws
netted-parts ((a, sides) ∷ m) =
    omega (int_laws, parts_of_eq (netted-parts m), parts_of_eq (net_line-parts a sides))

-- The merged and netted entry of lines that all have an account balances exactly when the lines do.
pub netted-balanced :
    (account_of : LedgerRole → Option ℕ) (lines : List LedgerLine)
    → AllMapped account_of lines
    → (total_debit (netted (merge account_of lines []))
        ≡ total_credit (netted (merge account_of lines [])))
      ↔ (net_of lines ≡ pos 0)
netted-balanced account_of lines mapped =
    let m = merge account_of lines [] in
    let parts = parts_of_eq (netted-parts m) in
    let sum = parts_of_eq (net_table-merge account_of lines [] mapped) in
    (λ e. omega (int_laws, parts, sum), λ e. omega (int_laws, parts, sum, parts_of_eq e))

-- A role that is needed is mapped, if none is missing.
same_role : (a b : LedgerRole) → nat_beq (role_code a) (role_code b) ≡ true → a ≡ b
same_role a b h = ground arith

seen_mapped :
    (account_of : LedgerRole → Option ℕ) (r : LedgerRole) (seen : List LedgerRole)
    → All (λ x. is_unmapped account_of x ≡ false) seen
    → has_role r seen ≡ true
    → is_unmapped account_of r ≡ false
seen_mapped account_of r [] h e = cc
seen_mapped account_of r (x ∷ seen) h e = elim (Bool-cases (nat_beq (role_code x) (role_code r))) [
  | inl same ↦ subst (λ y. is_unmapped account_of y ≡ false) (same_role x r same) h.0
  | inr other ↦ seen_mapped account_of r seen h.1 (rw other at e)
]

keeps_head :
    (account_of : LedgerRole → Option ℕ) (r : LedgerRole) (roles : List LedgerRole)
    → is_empty (keep (is_unmapped account_of) (r ∷ roles)) ≡ true
    → is_unmapped account_of r ≡ false
keeps_head account_of r roles e = ground arith

keeps_tail :
    (account_of : LedgerRole → Option ℕ) (r : LedgerRole) (roles : List LedgerRole)
    → is_unmapped account_of r ≡ false
    → is_empty (keep (is_unmapped account_of) (r ∷ roles)) ≡ true
    → is_empty (keep (is_unmapped account_of) roles) ≡ true
keeps_tail account_of r roles m e = ground arith

needed-AllMapped :
    (account_of : LedgerRole → Option ℕ) (seen : List LedgerRole) (lines : List LedgerLine)
    → All (λ x. is_unmapped account_of x ≡ false) seen
    → is_empty (keep (is_unmapped account_of) (needed_roles seen lines)) ≡ true
    → AllMapped account_of lines
unfolding needed_roles
needed-AllMapped account_of seen [] h e = tt
needed-AllMapped account_of seen (l ∷ lines) h e = elim (Bool-cases (has_role l.role seen)) [
  | inl again ↦ (
    seen_mapped account_of l.role seen h again,
    needed-AllMapped account_of seen lines h (rw again at e),
  )
  | inr new ↦
      let mapped = keeps_head account_of l.role _ (rw new at e) in
      (
        mapped,
        needed-AllMapped account_of (l.role ∷ seen) lines (mapped, h)
            (keeps_tail account_of l.role _ mapped (rw new at e)),
      )
]

pub missing-AllMapped :
    (account_of : LedgerRole → Option ℕ) (lines : List LedgerLine)
    → is_empty (missing_roles account_of lines) ≡ true
    → AllMapped account_of lines
unfolding missing_roles
missing-AllMapped account_of lines e = needed-AllMapped account_of [] lines tt e
