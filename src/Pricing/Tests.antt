-- ===== src/Pricing/Tests.antt =====
-- A basket of two lines for a wholesale customer.
use werehouse.Prelude.{ℕ, ◌+◌, ◌≤◌, ◌≡◌, refl, true, none, some, [], ◌∷◌, arith}
use werehouse.Prelude.Lists.{All, sum_by}
use werehouse.Prelude.Table.{nat_eq, lookup, total}
use werehouse.Result.{value_or}
use werehouse.Costing.{round_half_up}
use werehouse.Pricing.{
  PriceTier, ProductPrice, PricingStore, QuoteLine, QuoteDto, PricedLine, Quote, default_rate,
  default_tier, resolve_tier,
}
use werehouse.Pricing.Engine.{
  valid_prices, place_price, by_min_quantity, tier_prices, find_break, tier_price, unit_price_of,
  discount_of, tax_rate_of, price_line, price_lines, totals_of, quote,
}
use werehouse.Pricing.Catalogue.{PriceTierDto, tier_code_taken, create_price_tier}
use werehouse.Pricing.Defaults.{default_rates, default_tiers, IsSingle, adds_tier, Upkeep-IsSingle}
use werehouse.Pricing.Breaks.{Deepest, find_break-tier_prices}
use werehouse.Pricing.Totals.{IsPriced, line_skus, item_skus, quote-IsPriced}

abbrev wholesale : PriceTier
wholesale = record { code = 2; discount_percent = 15000; is_default = true; is_active = true }

abbrev break_at : ℕ → ℕ → ProductPrice
break_at threshold price = record {
  sku = 5;
  price_tier_id = 7;
  min_quantity = threshold;
  price = price;
  valid_from = none;
  valid_to = some 40;
}

abbrev shop : PricingStore
shop = record {
  products =
      (5, record { unit_price = 1000; tax_rate_id = some 3 })
      ∷ (6, record { unit_price = 333; tax_rate_id = none })
      ∷ [];
  tax_rates = (3, record { code = 1; rate = 11000; is_default = true; is_active = true }) ∷ [];
  tiers = (7, wholesale) ∷ [];
  prices = (1, break_at 1 900) ∷ (2, break_at 10 800) ∷ [];
  customer_tiers = (9, none) ∷ [];
}

abbrev asks : ℕ → ℕ → QuoteLine
asks sku quantity = record {
  sku = sku;
  quantity = quantity;
  unit_price = none;
  discount_percent = none;
  discount_amount = some 50;
  tax_rate = none;
}

abbrev basket : QuoteDto
basket = record { customer_id = some 9; price_tier_id = none; items = asks 5 12 ∷ asks 6 3 ∷ [] }

abbrev no_quote : Quote
no_quote = record {
  price_tier = none;
  lines = [];
  subtotal = 0;
  discount_amount = 0;
  tax_amount = 0;
  total = 0;
}

abbrev offer : Quote
offer = value_or no_quote (quote 20 basket shop)

offer_total : offer.total ≡ 11488
unfolding quote resolve_tier default_tier tier_prices valid_prices by_min_quantity place_price
    price_lines price_line unit_price_of find_break tier_price discount_of tax_rate_of default_rate
    round_half_up totals_of lookup
offer_total = refl

quote-IsPriced_example :
    All IsPriced offer.lines
    × (line_skus offer.lines ≡ item_skus basket.items)
    × (offer.discount_amount ≤ offer.subtotal)
    × (offer.total ≡ sum_by (λ (l : PricedLine). l.line_total) offer.lines)
    × (offer.total + offer.discount_amount ≡ offer.subtotal + offer.tax_amount)
unfolding quote resolve_tier default_tier tier_prices valid_prices by_min_quantity place_price
    price_lines price_line unit_price_of find_break tier_price discount_of tax_rate_of default_rate
    round_half_up totals_of lookup
quote-IsPriced_example = quote-IsPriced 20 basket shop refl

find_break-tier_prices_example :
    Deepest 20 7 5 12 shop.prices
      (find_break 5 12 (tier_prices 20 (some (7, wholesale)) shop.prices))
find_break-tier_prices_example = find_break-tier_prices 20 5 12 7 wholesale shop.prices

abbrev new_tier : PriceTierDto
new_tier = record { code = 4; discount_percent = none; is_default = some true; is_active = none }

abbrev shop_after : PricingStore
shop_after = value_or shop (create_price_tier 8 new_tier shop)

Upkeep-IsSingle_example : IsSingle shop_after
unfolding create_price_tier tier_code_taken default_rates default_tiers total
Upkeep-IsSingle_example =
    Upkeep-IsSingle (adds_tier {st = shop} {st' = shop_after} 8 new_tier refl)
      (record { one_rate = omega arith; one_tier = omega arith })
