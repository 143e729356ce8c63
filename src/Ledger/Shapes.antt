-- ===== src/Ledger/Shapes.antt =====
-- The entry shapes of the documents, and reversal.
use werehouse.Prelude.{◌≡◌, ◌↔◌, refl, ap, ◌∙◌, inl, inr, List, [], ◌∷◌}
use werehouse.Prelude.Tests.{nat_beq, if◌then◌else◌, Bool-cases}
use werehouse.Prelude.Int.{ℤ, pos, negsuc, ◌+ℤ◌, ◌-ℤ◌, parts_of_eq, int_laws}
use werehouse.Result.{ok}
use werehouse.Ledger.{
  LedgerRole, LedgerLine, PostInput, PostResult, Books, role_code, purchase_invoice_lines,
  sales_invoice_lines, cycle_count_lines, reverse_lines, post_within,
}
use werehouse.Ledger.Balance.{net_of}
use werehouse.Ledger.Numbers.{AllShort}
use werehouse.Ledger.Posting.{post-total}

-- A purchase invoice's lines balance exactly when the payable total is the goods and the tax.
pub purchase_invoice_lines_iff :
    (goods tax payable : ℤ)
    → (net_of (purchase_invoice_lines goods tax payable) ≡ pos 0) ↔ (goods +ℤ tax ≡ payable)
unfolding purchase_invoice_lines
purchase_invoice_lines_iff goods tax payable =
    (λ e. omega (int_laws, parts_of_eq e), λ e. omega (int_laws, parts_of_eq e))

-- A sales invoice's lines balance exactly when the receivable and the discount make up the revenue
-- and the tax, whatever the cost of the goods.
pub sales_invoice_lines_iff :
    (receivable revenue discount tax cost : ℤ)
    → (net_of (sales_invoice_lines receivable revenue discount tax cost) ≡ pos 0)
      ↔ (receivable +ℤ discount ≡ revenue +ℤ tax)
unfolding sales_invoice_lines
sales_invoice_lines_iff receivable revenue discount tax cost =
    (λ e. omega (int_laws, parts_of_eq e), λ e. omega (int_laws, parts_of_eq e))

net_of-cycle_count : (value : ℤ) → net_of (cycle_count_lines value) ≡ pos 0
unfolding cycle_count_lines
net_of-cycle_count (pos n) = omega int_laws
net_of-cycle_count (negsuc n) = omega int_laws

-- The lines of a stock count of any value, surplus or shortage, are posted without an exception, as
-- long as every number of the journal has its six digits.
pub post-cycle_count_lines :
    (value : ℤ) (input : PostInput) (b : Books)
    → AllShort b.entries
    → input.lines ≡ cycle_count_lines value
    → (r : PostResult × Books) × (post_within input b ≡ ok r)
post-cycle_count_lines value input b short e =
    post-total input b short (ap net_of e ∙ net_of-cycle_count value)

-- The debits of one role less its credits.
abbrev pub role_net : LedgerRole → List LedgerLine → ℤ
role_net r [] = pos 0
role_net r (l ∷ lines) =
    if nat_beq (role_code l.role) (role_code r)
    then l.debit -ℤ l.credit +ℤ role_net r lines
    else role_net r lines

-- A reversal mirrors its lines: it undoes them in every role, and reversing it gives them back.
pub reverse_lines_lem :
    (lines : List LedgerLine)
    → ((r : LedgerRole) → role_net r lines +ℤ role_net r (reverse_lines lines) ≡ pos 0)
      × (reverse_lines (reverse_lines lines) ≡ lines)
unfolding reverse_lines
reverse_lines_lem [] = (λ r. omega int_laws, refl)
reverse_lines_lem (l ∷ lines) =
    let ih = reverse_lines_lem lines in
    (
      λ r. elim (Bool-cases (nat_beq (role_code l.role) (role_code r))) [
        | inl mine ↦ rw mine (omega (int_laws, parts_of_eq (ih.0 r)))
        | inr other ↦ rw other (ih.0 r)
      ],
      ap (λ (rest : List LedgerLine). l ∷ rest) ih.1,
    )
