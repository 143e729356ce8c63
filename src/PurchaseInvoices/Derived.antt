-- ===== src/PurchaseInvoices/Derived.antt =====
-- What the derived fields of a purchase invoice's header say, apart from `recalculate` of
-- backend-nest/src/purchase-invoices/purchase-invoices.service.ts, and that it derives them so.
use werehouse.Prelude.{ℕ, ◌+◌, ◌*◌, ◌≤◌, ◌<◌, ◌≡◌, ◌⊎◌, refl, List, [], ◌∷◌, arith}
use werehouse.Prelude.Int.{ℤ, pos, pos_part, neg_part, ◌-ℤ◌, *ℤ_parts, int_laws}
use werehouse.Prelude.Lists.{sum_by}
use werehouse.Batches.Receipt.{round_div}
use werehouse.Costing.{round_half_up}
use werehouse.SalesInvoices.{DocumentStatus, draft, posted, partially_paid, paid, cancelled}
use werehouse.PurchaseInvoices.{
  PurchaseItem, LandedCost, PurchaseInvoice, tax_total, settled_status, derived_status, exact_total,
  recalculated,
}

-- What the lines, their taxes and the landed costs add to the total, and what they take from it, in
-- ten-thousandths.
abbrev pub charged : PurchaseInvoice → ℕ
charged v =
    sum_by (λ (i : PurchaseItem). i.unit_cost * i.quantity) v.items
    + 100 * sum_by (λ (i : PurchaseItem). pos_part i.tax_amount) v.items
    + 100 * sum_by (λ (r : ℕ × LandedCost). r.1.amount) v.landed_costs

abbrev pub deducted : PurchaseInvoice → ℕ
deducted v =
    100 * sum_by (λ (i : PurchaseItem). i.discount_amount) v.items
    + 100 * sum_by (λ (i : PurchaseItem). neg_part i.tax_amount) v.items

-- The status that goes with an amount paid, in hundredths: paid is a positive total that the payments
-- reach, partially paid a payment short of that, and posted no payment.
abbrev pub StatusFits : DocumentStatus → ℕ → ℕ → ℕ → Type 0
StatusFits draft amount plus minus = Unit
StatusFits cancelled amount plus minus = Unit
StatusFits paid amount plus minus = (minus < plus) × (plus ≤ 100 * amount + minus)
StatusFits partially_paid amount plus minus =
    (0 < amount) × ((plus ≤ minus) ⊎ (100 * amount + minus < plus))
StatusFits posted amount plus minus =
    (amount ≡ 0) × ((plus ≤ minus) ⊎ (100 * amount + minus < plus))

-- The header agrees with its lines, landed costs and payments; the subtotal and the total are within
-- half a hundredth of the exact ones.
pub record IsDerived (v : PurchaseInvoice) : Type 0 where
  pub subtotal_above :
      sum_by (λ (i : PurchaseItem). i.unit_cost * i.quantity) v.items ≤ 100 * v.subtotal + 50
  pub subtotal_below :
      100 * v.subtotal ≤ sum_by (λ (i : PurchaseItem). i.unit_cost * i.quantity) v.items + 50
  pub discount : v.discount_amount ≡ sum_by (λ (i : PurchaseItem). i.discount_amount) v.items
  pub tax :
      pos_part v.tax_amount + sum_by (λ (i : PurchaseItem). neg_part i.tax_amount) v.items
      ≡ neg_part v.tax_amount + sum_by (λ (i : PurchaseItem). pos_part i.tax_amount) v.items
  pub landed : v.landed_cost_total ≡ sum_by (λ (r : ℕ × LandedCost). r.1.amount) v.landed_costs
  pub total_above :
      charged v + 100 * neg_part v.total_amount ≤ 100 * pos_part v.total_amount + deducted v + 50
  pub total_below :
      100 * pos_part v.total_amount + deducted v ≤ charged v + 100 * neg_part v.total_amount + 50
  pub received : v.paid_amount ≡ sum_by (λ (n : ℕ). n) v.payments
  pub fits : StatusFits v.status v.paid_amount (charged v) (deducted v)

tax_total-parts :
    (items : List PurchaseItem)
    → pos_part (tax_total items) + sum_by (λ (i : PurchaseItem). neg_part i.tax_amount) items
      ≡ neg_part (tax_total items) + sum_by (λ (i : PurchaseItem). pos_part i.tax_amount) items
unfolding tax_total
tax_total-parts [] = refl
tax_total-parts (i ∷ items) = omega (int_laws, tax_total-parts items)

half : (n : ℕ) → (100 * round_half_up n 100 ≤ n + 50) × (n ≤ 100 * round_half_up n 100 + 50)
unfolding round_half_up
half n = (omega arith, omega arith)

-- Rounding an integer to hundredths moves it by half a hundredth at most.
round_div-half :
    (n : ℤ)
    → (pos_part n + 100 * neg_part (round_div n (pos 100))
        ≤ 100 * pos_part (round_div n (pos 100)) + neg_part n + 50)
      × (100 * pos_part (round_div n (pos 100)) + neg_part n
          ≤ pos_part n + 100 * neg_part (round_div n (pos 100)) + 50)
unfolding round_div round_half_up ◌-ℤ◌
round_div-half n = ground arith

settled-StatusFits :
    (amount plus minus : ℕ) (total : ℤ)
    → plus + neg_part total ≡ minus + pos_part total
    → StatusFits (settled_status (100 * amount) total) amount plus minus
unfolding ◌-ℤ◌
settled-StatusFits amount plus minus total h = ground (arith, h)

derived-StatusFits :
    (s : DocumentStatus) (amount plus minus : ℕ) (total : ℤ)
    → plus + neg_part total ≡ minus + pos_part total
    → StatusFits (derived_status s (100 * amount) total) amount plus minus
derived-StatusFits draft amount plus minus total h = tt
derived-StatusFits cancelled amount plus minus total h = tt
derived-StatusFits posted amount plus minus total h = settled-StatusFits amount plus minus total h
derived-StatusFits partially_paid amount plus minus total h =
    settled-StatusFits amount plus minus total h
derived-StatusFits paid amount plus minus total h = settled-StatusFits amount plus minus total h

exact_total-parts :
    (value discount more less landed : ℕ) (tax : ℤ)
    → pos_part tax + less ≡ neg_part tax + more
    → value + 100 * more + 100 * landed + neg_part (exact_total value discount tax landed)
      ≡ 100 * discount + 100 * less + pos_part (exact_total value discount tax landed)
unfolding exact_total
exact_total-parts value discount more less landed tax h = omega (int_laws, *ℤ_parts 100 tax, h)

-- A recalculated header is derived.
pub recalculated-IsDerived : (v : PurchaseInvoice) → IsDerived (recalculated v)
unfolding recalculated
recalculated-IsDerived v =
    let value = sum_by (λ (i : PurchaseItem). i.unit_cost * i.quantity) v.items in
    let discount = sum_by (λ (i : PurchaseItem). i.discount_amount) v.items in
    let more = sum_by (λ (i : PurchaseItem). pos_part i.tax_amount) v.items in
    let less = sum_by (λ (i : PurchaseItem). neg_part i.tax_amount) v.items in
    let landed = sum_by (λ (r : ℕ × LandedCost). r.1.amount) v.landed_costs in
    let total = exact_total value discount (tax_total v.items) landed in
    let parts =
      exact_total-parts value discount more less landed (tax_total v.items)
        (tax_total-parts v.items) in
    let near = round_div-half total in
    record {
      subtotal_above = (half value).1;
      subtotal_below = (half value).0;
      discount = refl;
      tax = tax_total-parts v.items;
      landed = refl;
      total_above = omega (arith, near, parts);
      total_below = omega (arith, near, parts);
      received = refl;
      fits = derived-StatusFits v.status (sum_by (λ (n : ℕ). n) v.payments) _ _ total parts;
    }
