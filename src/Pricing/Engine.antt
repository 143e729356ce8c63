-- ===== src/Pricing/Engine.antt =====
-- The pricing engine: the price of one unit, a line's discount and tax, and the totals of a basket.
use werehouse.Prelude.{
  ℕ, ◌+◌, ◌-◌, ◌*◌, Bool, true, false, not, ◌&&◌, Option, none, some, List, [], ◌∷◌, max,
}
use werehouse.Prelude.Tests.{leb, ltb, nat_beq, if◌then◌else◌}
use werehouse.Prelude.Lists.{sum_by}
use werehouse.Prelude.Table.{Table, nat_eq, lookup}
use werehouse.Result.{
  Result, ok, bad_request, not_found, ◌>>=◌, ◌>>◌, or_throw, throw_if, unknown_sku, no_quote_lines,
  discount_above_line,
}
use werehouse.Costing.{round_half_up}
use werehouse.Pricing.{
  TaxRate, PriceTier, ProductPrice, PricedProduct, PricingStore, QuoteLine, QuoteDto, PriceSource,
  list_source, tier_discount, manual, tier_break, PricedLine, Quote, number_or, default_rate,
  resolve_tier,
}

abbrev pub has_begun : ℕ → Option ℕ → Bool
has_begun today none = true
has_begun today (some day) = leb day today

abbrev pub not_over : ℕ → Option ℕ → Bool
not_over today none = true
not_over today (some day) = leb today day

-- The rows of the tier that are valid today, before they are ordered.
unfoldable pub valid_prices : ℕ → ℕ → Table ℕ ProductPrice → List ProductPrice
valid_prices today tier [] = []
valid_prices today tier ((k, p) ∷ rest) =
    let later = valid_prices today tier rest in
    if nat_beq p.price_tier_id tier && has_begun today p.valid_from && not_over today p.valid_to
    then p ∷ later
    else later

-- `orderBy: { minQuantity: 'desc' }`
unfoldable pub place_price : ProductPrice → List ProductPrice → List ProductPrice
place_price p [] = p ∷ []
place_price p (q ∷ qs) =
    let further = q ∷ place_price p qs in
    if leb q.min_quantity p.min_quantity then p ∷ q ∷ qs else further

unfoldable pub by_min_quantity : List ProductPrice → List ProductPrice
unfolding place_price
by_min_quantity [] = []
by_min_quantity (p ∷ ps) = place_price p (by_min_quantity ps)

unfoldable pub tier_prices : ℕ → Option (ℕ × PriceTier) → Table ℕ ProductPrice → List ProductPrice
unfolding valid_prices by_min_quantity
tier_prices today none prices = []
tier_prices today (some (id, t)) prices = by_min_quantity (valid_prices today id prices)

abbrev pub reaches : ℕ → ℕ → ProductPrice → Bool
reaches sku quantity p = nat_beq p.sku sku && leb p.min_quantity quantity

unfoldable pub find_break : ℕ → ℕ → List ProductPrice → Option ProductPrice
find_break sku quantity [] = none
find_break sku quantity (p ∷ ps) =
    let later = find_break sku quantity ps in if reaches sku quantity p then some p else later

-- `listPrice.mul(100 - discountPercent).div(100).toDecimalPlaces(2)`
unfoldable pub tier_price : ℕ → Option (ℕ × PriceTier) → ℕ × PriceSource
unfolding round_half_up
tier_price list_price none = (list_price, list_source)
tier_price list_price (some (id, t)) =
    if nat_beq t.discount_percent 0
    then (list_price, list_source)
    else (round_half_up (list_price * (100000 - t.discount_percent)) 100000, tier_discount)

abbrev pub break_or : Option ProductPrice → ℕ × PriceSource → ℕ × PriceSource
break_or none other = other
break_or (some p) other = (p.price, tier_break p.min_quantity)

abbrev pub manual_or : Option ℕ → ℕ × PriceSource → ℕ × PriceSource
manual_or none other = other
manual_or (some price) other = (price, manual)

-- The price of one unit, and the rule that set it.
unfoldable pub unit_price_of :
    QuoteLine → PricedProduct → Option (ℕ × PriceTier) → List ProductPrice → ℕ × PriceSource
unfolding find_break tier_price
unit_price_of item p tier prices =
    manual_or item.unit_price
      (break_or (find_break item.sku (max 1 item.quantity) prices) (tier_price p.unit_price tier))

-- The two discounts of a line together, rounded to hundredths.
unfoldable pub discount_of : ℕ → QuoteLine → ℕ
unfolding round_half_up
discount_of gross item =
    round_half_up
      (gross * number_or 0 item.discount_percent + number_or 0 item.discount_amount * 100000) 100000

abbrev pub rate_of : Option TaxRate → ℕ
rate_of none = 0
rate_of (some r) = r.rate

abbrev pub product_rate : PricedProduct → PricingStore → Option TaxRate
product_rate p st = elim p.tax_rate_id [ none ↦ none | some id ↦ lookup id st.tax_rates ]

abbrev pub rate_or : Option TaxRate → Option TaxRate → ℕ
rate_or none other = rate_of other
rate_or (some r) other = r.rate

unfoldable pub tax_rate_of : QuoteLine → PricedProduct → PricingStore → ℕ
unfolding default_rate
tax_rate_of item p st =
    number_or (rate_or (product_rate p st) (default_rate st.tax_rates)) item.tax_rate

abbrev pub priced_line : QuoteLine → ℕ × PriceSource → ℕ → ℕ → ℕ → PricedLine
priced_line item (unit_price, source) discount rate tax =
    let quantity = max 1 item.quantity in
    let rest = unit_price * quantity - discount in
    record {
      sku = item.sku;
      quantity = quantity;
      unit_price = unit_price;
      discount_percent = number_or 0 item.discount_percent;
      discount_amount = discount;
      tax_rate = rate;
      tax_amount = tax;
      line_subtotal = rest;
      line_total = rest + tax;
      price_source = source;
    }

-- A line whose discount is above its value is refused. Tax is charged on what is left.
unfoldable pub price_line :
    PricingStore → Option (ℕ × PriceTier) → List ProductPrice → QuoteLine → Result PricedLine
unfolding round_half_up unit_price_of discount_of tax_rate_of
price_line st tier prices item = do
  p ← or_throw (lookup item.sku st.products) (not_found unknown_sku)
  let price = unit_price_of item p tier prices
  let gross = price.0 * max 1 item.quantity
  let discount = discount_of gross item
  throw_if (ltb gross discount) (bad_request discount_above_line)
  let rate = tax_rate_of item p st
  ok (priced_line item price discount rate (round_half_up ((gross - discount) * rate) 100000))

unfoldable pub price_lines :
    PricingStore
    → Option (ℕ × PriceTier)
    → List ProductPrice
    → List QuoteLine
    → Result (List PricedLine)
unfolding price_line
price_lines st tier prices [] = ok []
price_lines st tier prices (item ∷ items) = do
  line ← price_line st tier prices item
  lines ← price_lines st tier prices items
  ok (line ∷ lines)

abbrev pub all_priced : List QuoteLine → PricingStore → Bool
all_priced [] st = true
all_priced (item ∷ items) st = elim (lookup item.sku st.products) [
  | none ↦ false
  | some p ↦ all_priced items st
]

abbrev pub no_lines : List QuoteLine → Bool
no_lines [] = true
no_lines (item ∷ items) = false

abbrev pub tier_id : Option (ℕ × PriceTier) → Option ℕ
tier_id none = none
tier_id (some (id, t)) = some id

abbrev pub gross_of : PricedLine → ℕ
gross_of l = l.unit_price * l.quantity

unfoldable pub totals_of : Option ℕ → List PricedLine → Quote
totals_of tier lines =
    let subtotal = sum_by gross_of lines in
    let discount = sum_by (λ (l : PricedLine). l.discount_amount) lines in
    let tax = sum_by (λ (l : PricedLine). l.tax_amount) lines in
    record {
      price_tier = tier;
      lines = lines;
      subtotal = subtotal;
      discount_amount = discount;
      tax_amount = tax;
      total = subtotal - discount + tax;
    }

unfoldable pub quote : ℕ → QuoteDto → PricingStore → Result Quote
unfolding resolve_tier tier_prices price_lines totals_of
quote today dto st = do
  throw_if (no_lines dto.items) (bad_request no_quote_lines)
  throw_if (not (all_priced dto.items st)) (not_found unknown_sku)
  tier ← resolve_tier dto.price_tier_id dto.customer_id st
  lines ← price_lines st tier (tier_prices today tier st.prices) dto.items
  ok (totals_of (tier_id tier) lines)
