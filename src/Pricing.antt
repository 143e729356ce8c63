-- ===== src/Pricing.antt =====
-- Tax rates, price tiers, quantity breaks and the quotation of a basket,
-- backend-nest/src/pricing/pricing.service.ts.
-- The tables hold the rows of the request's tenant. Money is in hundredths, percentages are in
-- thousandths of a percent, dates are day numbers.
pub mod Engine
pub mod Catalogue
pub mod Defaults
pub mod Breaks
pub mod Totals
mod Tests
use werehouse.Prelude.{
  ℕ, ◌+◌, ◌-◌, ◌*◌, Bool, true, false, not, ◌&&◌, Option, none, some, List, [], ◌∷◌, max,
}
use werehouse.Prelude.Tests.{leb, ltb, nat_beq, if◌then◌else◌}
use werehouse.Prelude.Lists.{sum_by, keep}
use werehouse.Prelude.Table.{Table, nat_eq, lookup}
use werehouse.Result.{
  Result, ok, err, bad_request, not_found, ◌>>=◌, ◌>>◌, or_throw, throw_if, unknown_sku,
  tier_missing, no_quote_lines, discount_above_line,
}
use werehouse.Costing.{round_half_up}

pub record TaxRate : Type 0 where
  pub code : ℕ
  pub rate : ℕ
  pub is_default : Bool
  pub is_active : Bool

pub record PriceTier : Type 0 where
  pub code : ℕ
  pub discount_percent : ℕ
  pub is_default : Bool
  pub is_active : Bool

-- A quantity break of a tier.
pub record ProductPrice : Type 0 where
  pub sku : ℕ
  pub price_tier_id : ℕ
  pub min_quantity : ℕ
  pub price : ℕ
  pub valid_from : Option ℕ
  pub valid_to : Option ℕ

-- The columns of a product that pricing reads.
pub record PricedProduct : Type 0 where
  pub unit_price : ℕ
  pub tax_rate_id : Option ℕ

pub record PricingStore : Type 0 where
  pub products : Table ℕ PricedProduct
  pub tax_rates : Table ℕ TaxRate
  pub tiers : Table ℕ PriceTier
  pub prices : Table ℕ ProductPrice
  pub customer_tiers : Table ℕ (Option ℕ)

pub record QuoteLine : Type 0 where
  pub sku : ℕ
  pub quantity : ℕ
  pub unit_price : Option ℕ
  pub discount_percent : Option ℕ
  pub discount_amount : Option ℕ
  pub tax_rate : Option ℕ

pub record QuoteDto : Type 0 where
  pub customer_id : Option ℕ
  pub price_tier_id : Option ℕ
  pub items : List QuoteLine

pub data PriceSource : Type 0 where
  list_source tier_discount manual : PriceSource
  tier_break : ℕ → PriceSource

pub record PricedLine : Type 0 where
  pub sku : ℕ
  pub quantity : ℕ
  pub unit_price : ℕ
  pub discount_percent : ℕ
  pub discount_amount : ℕ
  pub tax_rate : ℕ
  pub tax_amount : ℕ
  pub line_subtotal : ℕ
  pub line_total : ℕ
  pub price_source : PriceSource

pub record Quote : Type 0 where
  pub price_tier : Option ℕ
  pub lines : List PricedLine
  pub subtotal : ℕ
  pub discount_amount : ℕ
  pub tax_amount : ℕ
  pub total : ℕ

abbrev pub number_or : ℕ → Option ℕ → ℕ
number_or other none = other
number_or other (some n) = n

-- The rows that are the default and active; `findFirst` takes one of them.
unfoldable pub default_rate : Table ℕ TaxRate → Option TaxRate
default_rate [] = none
default_rate ((k, r) ∷ rest) =
    let later = default_rate rest in if r.is_default && r.is_active then some r else later

unfoldable pub default_tier : Table ℕ PriceTier → Option (ℕ × PriceTier)
default_tier [] = none
default_tier ((k, t) ∷ rest) =
    let later = default_tier rest in if t.is_default && t.is_active then some (k, t) else later

-- A row of the table that is active.
abbrev pub active_tier : ℕ → Table ℕ PriceTier → Option (ℕ × PriceTier)
active_tier id tiers = elim (lookup id tiers) [
  | none ↦ none
  | some t ↦ if t.is_active then some (id, t) else none
]

abbrev pub customer_tier : ℕ → PricingStore → Option (ℕ × PriceTier)
customer_tier customer st = elim (lookup customer st.customer_tiers) [
  | none ↦ none
  | some none ↦ none
  | some (some id) ↦ active_tier id st.tiers
]

abbrev pub tier_or : Option (ℕ × PriceTier) → Option (ℕ × PriceTier) → Option (ℕ × PriceTier)
tier_or none other = other
tier_or (some t) other = some t

unfoldable pub resolve_tier : Option ℕ → Option ℕ → PricingStore → Result (Option (ℕ × PriceTier))
unfolding default_tier
resolve_tier (some id) customer st =
    or_throw (active_tier id st.tiers) (not_found tier_missing) >>= λ t. ok (some t)
resolve_tier none (some customer) st =
    ok (tier_or (customer_tier customer st) (default_tier st.tiers))
resolve_tier none none st = ok (default_tier st.tiers)
