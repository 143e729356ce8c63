-- ===== src/Pricing/Catalogue.antt =====
-- The upkeep of tax rates, price tiers and quantity breaks.
use werehouse.Prelude.{ℕ, Bool, true, false, ◌&&◌, ◌||◌, Option, none, some, [], ◌∷◌}
use werehouse.Prelude.Tests.{nat_beq, if◌then◌else◌}
use werehouse.Prelude.Table.{Table, nat_eq, lookup, insert, remove}
use werehouse.Result.{
  Result, ok, not_found, conflict, ◌>>=◌, ◌>>◌, or_throw, throw_if, unknown_sku, tax_rate_missing,
  tax_rate_exists, tax_rate_assigned, tier_missing, tier_exists, tier_assigned, price_missing,
}
use werehouse.Pricing.{TaxRate, PriceTier, ProductPrice, PricedProduct, PricingStore, number_or}

pub record TaxRateDto : Type 0 where
  pub code : ℕ
  pub rate : ℕ
  pub is_default : Option Bool
  pub is_active : Option Bool

pub record UpdateTaxRateDto : Type 0 where
  pub rate : Option ℕ
  pub is_default : Option Bool
  pub is_active : Option Bool

pub record PriceTierDto : Type 0 where
  pub code : ℕ
  pub discount_percent : Option ℕ
  pub is_default : Option Bool
  pub is_active : Option Bool

pub record UpdatePriceTierDto : Type 0 where
  pub discount_percent : Option ℕ
  pub is_default : Option Bool
  pub is_active : Option Bool

pub record UpsertProductPriceDto : Type 0 where
  pub sku : ℕ
  pub price_tier_id : ℕ
  pub min_quantity : Option ℕ
  pub price : ℕ
  pub valid_from : Option ℕ
  pub valid_to : Option ℕ

abbrev pub flag_or : Bool → Option Bool → Bool
flag_or other none = other
flag_or other (some b) = b

unfoldable pub rate_code_taken : ℕ → Table ℕ TaxRate → Bool
rate_code_taken code [] = false
rate_code_taken code ((k, r) ∷ rest) = nat_beq r.code code || rate_code_taken code rest

unfoldable pub tier_code_taken : ℕ → Table ℕ PriceTier → Bool
tier_code_taken code [] = false
tier_code_taken code ((k, t) ∷ rest) = nat_beq t.code code || tier_code_taken code rest

-- `taxRate.updateMany({ data: { isDefault: false } })`
unfoldable pub demoted_rates : Table ℕ TaxRate → Table ℕ TaxRate
demoted_rates [] = []
demoted_rates ((k, r) ∷ rest) = (k, record r { is_default = false }) ∷ demoted_rates rest

unfoldable pub demoted_tiers : Table ℕ PriceTier → Table ℕ PriceTier
demoted_tiers [] = []
demoted_tiers ((k, t) ∷ rest) = (k, record t { is_default = false }) ∷ demoted_tiers rest

-- `if (dto.isDefault)`: the others lose the flag.
abbrev pub rates_before : Option Bool → Table ℕ TaxRate → Table ℕ TaxRate
rates_before flag rates = if flag_or false flag then demoted_rates rates else rates

abbrev pub tiers_before : Option Bool → Table ℕ PriceTier → Table ℕ PriceTier
tiers_before flag tiers = if flag_or false flag then demoted_tiers tiers else tiers

unfoldable pub create_tax_rate : ℕ → TaxRateDto → PricingStore → Result PricingStore
unfolding rate_code_taken demoted_rates
create_tax_rate id dto st = do
  throw_if (rate_code_taken dto.code st.tax_rates) (conflict tax_rate_exists)
  ok (record st {
    tax_rates =
        insert id
          (record {
            code = dto.code;
            rate = dto.rate;
            is_default = flag_or false dto.is_default;
            is_active = flag_or true dto.is_active;
          })
          (rates_before dto.is_default st.tax_rates);
  })

-- The transaction updates the row as the demotion left it.
unfoldable pub update_tax_rate : ℕ → UpdateTaxRateDto → PricingStore → Result PricingStore
unfolding demoted_rates
update_tax_rate id dto st = do
  _ ← or_throw (lookup id st.tax_rates) (not_found tax_rate_missing)
  let rates = rates_before dto.is_default st.tax_rates
  r ← or_throw (lookup id rates) (not_found tax_rate_missing)
  ok (record st {
    tax_rates =
        insert id
          (record r {
            rate = number_or r.rate dto.rate;
            is_default = flag_or r.is_default dto.is_default;
            is_active = flag_or r.is_active dto.is_active;
          })
          rates;
  })

abbrev pub names_rate : ℕ → Option ℕ → Bool
names_rate id none = false
names_rate id (some r) = nat_beq r id

unfoldable pub rate_assigned : ℕ → Table ℕ PricedProduct → Bool
rate_assigned id [] = false
rate_assigned id ((k, p) ∷ rest) = names_rate id p.tax_rate_id || rate_assigned id rest

-- A delete of a missing row throws in the database client.
unfoldable pub delete_tax_rate : ℕ → PricingStore → Result PricingStore
unfolding rate_assigned
delete_tax_rate id st = do
  throw_if (rate_assigned id st.products) (conflict tax_rate_assigned)
  _ ← or_throw (lookup id st.tax_rates) (not_found tax_rate_missing)
  ok (record st { tax_rates = remove id st.tax_rates })

unfoldable pub create_price_tier : ℕ → PriceTierDto → PricingStore → Result PricingStore
unfolding tier_code_taken demoted_tiers
create_price_tier id dto st = do
  throw_if (tier_code_taken dto.code st.tiers) (conflict tier_exists)
  ok (record st {
    tiers =
        insert id
          (record {
            code = dto.code;
            discount_percent = number_or 0 dto.discount_percent;
            is_default = flag_or false dto.is_default;
            is_active = flag_or true dto.is_active;
          })
          (tiers_before dto.is_default st.tiers);
  })

unfoldable pub update_price_tier : ℕ → UpdatePriceTierDto → PricingStore → Result PricingStore
unfolding demoted_tiers
update_price_tier id dto st = do
  _ ← or_throw (lookup id st.tiers) (not_found tier_missing)
  let tiers = tiers_before dto.is_default st.tiers
  t ← or_throw (lookup id tiers) (not_found tier_missing)
  ok (record st {
    tiers =
        insert id
          (record t {
            discount_percent = number_or t.discount_percent dto.discount_percent;
            is_default = flag_or t.is_default dto.is_default;
            is_active = flag_or t.is_active dto.is_active;
          })
          tiers;
  })

unfoldable pub tier_assigned_to : ℕ → Table ℕ (Option ℕ) → Bool
tier_assigned_to id [] = false
tier_assigned_to id ((k, t) ∷ rest) = names_rate id t || tier_assigned_to id rest

unfoldable pub delete_price_tier : ℕ → PricingStore → Result PricingStore
unfolding tier_assigned_to
delete_price_tier id st = do
  throw_if (tier_assigned_to id st.customer_tiers) (conflict tier_assigned)
  _ ← or_throw (lookup id st.tiers) (not_found tier_missing)
  ok (record st { tiers = remove id st.tiers })

-- The row of a SKU, a tier and a threshold.
unfoldable pub find_price : ℕ → ℕ → ℕ → Table ℕ ProductPrice → Option ℕ
find_price sku tier threshold [] = none
find_price sku tier threshold ((k, p) ∷ rest) =
    let later = find_price sku tier threshold rest in
    if nat_beq p.sku sku && nat_beq p.price_tier_id tier && nat_beq p.min_quantity threshold
    then some k
    else later

-- The row that is there is replaced, and `fresh` is the id of one that is not.
unfoldable pub upsert_product_price : ℕ → UpsertProductPriceDto → PricingStore → Result PricingStore
unfolding find_price
upsert_product_price fresh dto st = do
  _ ← or_throw (lookup dto.sku st.products) (not_found unknown_sku)
  _ ← or_throw (lookup dto.price_tier_id st.tiers) (not_found tier_missing)
  let threshold = number_or 1 dto.min_quantity
  let id = number_or fresh (find_price dto.sku dto.price_tier_id threshold st.prices)
  ok (record st {
    prices =
        insert id
          (record {
            sku = dto.sku;
            price_tier_id = dto.price_tier_id;
            min_quantity = threshold;
            price = dto.price;
            valid_from = dto.valid_from;
            valid_to = dto.valid_to;
          })
          st.prices;
  })

unfoldable pub delete_product_price : ℕ → PricingStore → Result PricingStore
delete_product_price id st = do
  _ ← or_throw (lookup id st.prices) (not_found price_missing)
  ok (record st { prices = remove id st.prices })
