-- ===== src/PurchaseInvoices/Header.antt =====
-- The derived header of a purchase invoice: its journal lines balance after rounding, and it keeps up
-- with the lines, the landed costs and the payments.
use werehouse.Prelude.{ℕ, ◌+◌, ◌*◌, ◌≡◌, refl, sym, ap, ◌∙◌, arith}
use werehouse.Prelude.Int.{
  ℤ, pos, pos_part, neg_part, ◌+ℤ◌, ◌-ℤ◌, ◌*ℤ◌, *ℤ_parts, parts_of_eq, int_laws,
}
use werehouse.Prelude.Lists.{sum_by}
use werehouse.Batches.Receipt.{round_div}
use werehouse.Costing.{round_half_up}
use werehouse.Ledger.Balance.{net_of}
use werehouse.Ledger.Shapes.{purchase_invoice_lines_iff}
use werehouse.SalesInvoices.{DocumentStatus, draft, posted, partially_paid, paid, cancelled}
use werehouse.PurchaseInvoices.{
  PurchaseItem, PurchaseInvoice, value_of, tax_total, landed_total, settled_status, derived_status,
  exact_total, recalculated,
}
use werehouse.PurchaseInvoices.Posting.{header_lines}

-- Rounding to hundredths commutes with adding hundredths.
rounded_shift :
    (value m a b : ℕ)
    → value + 100 * a ≡ m + 100 * b
    → round_half_up value 100 + a ≡ round_half_up m 100 + b
unfolding round_half_up
rounded_shift value m a b h = omega arith

plus_zero : (m : ℕ) → m + 0 ≡ m
plus_zero m = omega arith

round_div-hundred : (m : ℕ) → round_div (pos m) (pos 100) ≡ pos (round_half_up m 100)
unfolding round_div
round_div-hundred m = ap (λ (n : ℕ). pos (round_half_up n 100)) (plus_zero m)

exact_parts :
    (value discount landed m : ℕ) (tax : ℤ)
    → exact_total value discount tax landed ≡ pos m
    → value + 100 * (landed + pos_part tax) ≡ m + 100 * (discount + neg_part tax)
unfolding exact_total
exact_parts value discount landed m tax h = omega (int_laws, parts_of_eq h, *ℤ_parts 100 tax)

sums_of_rounded :
    (subtotal discount landed total : ℕ) (tax : ℤ)
    → subtotal + (landed + pos_part tax) ≡ total + (discount + neg_part tax)
    → 100 *ℤ (pos subtotal -ℤ pos discount +ℤ pos landed) +ℤ 100 *ℤ tax ≡ 100 *ℤ pos total
sums_of_rounded subtotal discount landed total tax h = omega (
  int_laws,
  *ℤ_parts 100 (pos subtotal -ℤ pos discount +ℤ pos landed),
  *ℤ_parts 100 tax,
  *ℤ_parts 100 (pos total),
  h,
)

-- The exact total of an invoice's lines and landed costs, in ten-thousandths.
abbrev pub total_before_rounding : PurchaseInvoice → ℤ
total_before_rounding v =
    exact_total (sum_by value_of v.items) (sum_by (λ (i : PurchaseItem). i.discount_amount) v.items)
      (tax_total v.items) (landed_total v.landed_costs)

-- The journal lines of a recalculated header balance although its subtotal and its total are rounded
-- to hundredths each on its own, wherever the exact total is not negative.
pub header_lines-balanced :
    (v : PurchaseInvoice) (m : ℕ)
    → total_before_rounding v ≡ pos m
    → net_of (header_lines (recalculated v)) ≡ pos 0
unfolding header_lines recalculated
header_lines-balanced v m h =
    let w = recalculated v in
    let total : w.total_amount ≡ pos (round_half_up m 100) =
      ap (λ (x : ℤ). round_div x (pos 100)) h ∙ round_div-hundred m in
    let value = sum_by value_of v.items in
    let parts = exact_parts value w.discount_amount w.landed_cost_total m w.tax_amount h in
    let rounded =
      rounded_shift value m (w.landed_cost_total + pos_part w.tax_amount)
        (w.discount_amount + neg_part w.tax_amount) parts in
    (purchase_invoice_lines_iff
        (100 *ℤ (pos w.subtotal -ℤ pos w.discount_amount +ℤ pos w.landed_cost_total))
        (100 *ℤ w.tax_amount) (100 *ℤ w.total_amount)).1
      (sums_of_rounded w.subtotal w.discount_amount w.landed_cost_total (round_half_up m 100)
          w.tax_amount rounded
        ∙ ap (λ (x : ℤ). 100 *ℤ x) (sym total))

settled_again :
    (n : ℕ) (total : ℤ) → derived_status (settled_status n total) n total ≡ settled_status n total
unfolding ◌-ℤ◌
settled_again n total = ground arith

derived_again :
    (s : DocumentStatus) (n : ℕ) (total : ℤ)
    → derived_status (derived_status s n total) n total ≡ derived_status s n total
derived_again draft n total = refl
derived_again cancelled n total = refl
derived_again posted n total = settled_again n total
derived_again partially_paid n total = settled_again n total
derived_again paid n total = settled_again n total

-- Recalculating a header twice gives what recalculating it once gives: the status is stable too.
pub recalculated-recalculated :
    (v : PurchaseInvoice) → recalculated (recalculated v) ≡ recalculated v
unfolding recalculated
recalculated-recalculated v =
    ap (λ (s : DocumentStatus). record (recalculated v) { status = s })
      (derived_again v.status (100 * sum_by (λ (n : ℕ). n) v.payments) (total_before_rounding v))
