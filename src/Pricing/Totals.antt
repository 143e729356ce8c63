-- ===== src/Pricing/Totals.antt =====
-- The arithmetic of a quote.
use werehouse.Prelude.{
  ℕ, ◌+◌, ◌-◌, ◌*◌, ◌≤◌, ◌≡◌, refl, sym, not, Option, List, [], ◌∷◌, map, max, arith,
}
use werehouse.Prelude.Tests.{ltb}
use werehouse.Prelude.Lists.{All, sum_by}
use werehouse.Prelude.Table.{nat_eq, lookup}
use werehouse.Result.{ok, >>=-eq-ok, or_throw, throw_if, throw_if-ok, ok-injective}
use werehouse.Costing.{round_half_up}
use werehouse.Pricing.{
  PriceTier, ProductPrice, PricingStore, QuoteLine, QuoteDto, PricedLine, Quote, resolve_tier,
}
use werehouse.Pricing.Engine.{
  unit_price_of, discount_of, tax_rate_of, price_line, price_lines, all_priced, no_lines, gross_of,
  tier_prices, totals_of, quote,
}

-- A line's discount is within its value, its tax is its rate's share of the rest to the nearest
-- hundredth, and its total is the rest with the tax.
pub record IsPriced (l : PricedLine) : Type 0 where
  pub within : l.discount_amount ≤ gross_of l
  pub rest : l.line_subtotal + l.discount_amount ≡ gross_of l
  pub tax_above : l.line_subtotal * l.tax_rate * 2 ≤ l.tax_amount * 200000 + 100000
  pub tax_below : l.tax_amount * 200000 ≤ l.line_subtotal * l.tax_rate * 2 + 100000
  pub sum : l.line_total ≡ l.line_subtotal + l.tax_amount

tax_near :
    (n : ℕ)
    → (n * 2 ≤ round_half_up n 100000 * 200000 + 100000)
      × (round_half_up n 100000 * 200000 ≤ n * 2 + 100000)
unfolding round_half_up
tax_near n = omega arith

price_line-IsPriced :
    (st : PricingStore) (tier : Option (ℕ × PriceTier)) (prices : List ProductPrice)
    (item : QuoteLine) {l : PricedLine}
    → price_line st tier prices item ≡ ok l
    → IsPriced l × (l.sku ≡ item.sku) × (l.quantity ≡ max 1 item.quantity)
unfolding price_line
price_line-IsPriced st tier prices item h =
    let (p, hp, h1) = >>=-eq-ok (or_throw (lookup item.sku st.products) _) _ h in
    let gross = (unit_price_of item p tier prices).0 * max 1 item.quantity in
    let discount = discount_of gross item in
    let (u, hu, h2) = >>=-eq-ok (throw_if (ltb gross discount) _) _ h1 in
    let le : discount ≤ gross = ground (arith, throw_if-ok _ _ hu) in
    let near = tax_near ((gross - discount) * tax_rate_of item p st) in
    rw (sym (ok-injective h2)) (
      record {
        within = le;
        rest = omega arith;
        tax_above = near.0;
        tax_below = near.1;
        sum = refl;
      },
      refl,
      refl,
    )

-- The SKUs of the lines, in order.
abbrev pub line_skus : List PricedLine → List ℕ
line_skus = map (λ (l : PricedLine). l.sku)

abbrev pub item_skus : List QuoteLine → List ℕ
item_skus = map (λ (i : QuoteLine). i.sku)

price_lines-IsPriced :
    (st : PricingStore) (tier : Option (ℕ × PriceTier)) (prices : List ProductPrice)
    (items : List QuoteLine) {ls : List PricedLine}
    → price_lines st tier prices items ≡ ok ls
    → All IsPriced ls × (line_skus ls ≡ item_skus items)
unfolding price_lines
price_lines-IsPriced st tier prices [] h = rw (sym (ok-injective h)) (tt, refl)
price_lines-IsPriced st tier prices (item ∷ items) h =
    let (l, hl, h1) = >>=-eq-ok (price_line st tier prices item) _ h in
    let (ls, hls, h2) = >>=-eq-ok (price_lines st tier prices items) _ h1 in
    let (priced, sku, _) = price_line-IsPriced st tier prices item hl in
    let (all, skus) = price_lines-IsPriced st tier prices items hls in
    rw (sym (ok-injective h2)) ((priced, all), rw (sku, skus) refl)

-- The sums of the lines' parts.
sums :
    (ls : List PricedLine)
    → All IsPriced ls
    → (sum_by (λ (l : PricedLine). l.discount_amount) ls ≤ sum_by gross_of ls)
      × (sum_by (λ (l : PricedLine). l.line_total) ls
            + sum_by (λ (l : PricedLine). l.discount_amount) ls
          ≡ sum_by gross_of ls + sum_by (λ (l : PricedLine). l.tax_amount) ls)
sums [] h = (omega arith, refl)
sums (l ∷ ls) h =
    let (le, eq) = sums ls h.1 in (omega (arith, h.0.within), omega (arith, h.0.rest, h.0.sum))

-- A quote has one line for each requested item, in order, and each line adds up; the discounts are
-- within the subtotal, and the total is the sum of the lines' totals, which is the subtotal less the
-- discounts and with the taxes.
pub quote-IsPriced :
    (today : ℕ) (dto : QuoteDto) (st : PricingStore) {q : Quote}
    → quote today dto st ≡ ok q
    → All IsPriced q.lines
      × (line_skus q.lines ≡ item_skus dto.items)
      × (q.discount_amount ≤ q.subtotal)
      × (q.total ≡ sum_by (λ (l : PricedLine). l.line_total) q.lines)
      × (q.total + q.discount_amount ≡ q.subtotal + q.tax_amount)
unfolding quote totals_of
quote-IsPriced today dto st h =
    let (u, hu, h1) = >>=-eq-ok (throw_if (no_lines dto.items) _) _ h in
    let (v, hv, h2) = >>=-eq-ok (throw_if (not (all_priced dto.items st)) _) _ h1 in
    let (tier, ht, h3) = >>=-eq-ok (resolve_tier dto.price_tier_id dto.customer_id st) _ h2 in
    let (ls, hls, h4) =
      >>=-eq-ok (price_lines st tier (tier_prices today tier st.prices) dto.items) _ h3 in
    let (priced, skus) = price_lines-IsPriced st tier _ dto.items hls in
    let (le, eq) = sums ls priced in
    rw (sym (ok-injective h4)) (priced, skus, le, omega arith, omega arith)
