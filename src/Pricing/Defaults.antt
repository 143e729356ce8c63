-- ===== src/Pricing/Defaults.antt =====
-- At most one tax rate and one price tier is the default.
use werehouse.Prelude.{
  ℕ, ◌+◌, ◌≤◌, ◌≡◌, refl, sym, inl, inr, Bool, false, Option, some, [], ◌∷◌, arith,
}
use werehouse.Prelude.Tests.{if◌then◌else◌, Bool-cases}
use werehouse.Prelude.Table.{Table, Eq, nat_eq, ◌==◌, lookup, insert, remove, total, total-insert}
use werehouse.Result.{ok, >>=-eq-ok, or_throw, or_throw-ok, throw_if, ok-injective}
use werehouse.Pricing.{TaxRate, PriceTier, PricingStore}
use werehouse.Pricing.Catalogue.{
  TaxRateDto, UpdateTaxRateDto, PriceTierDto, UpdatePriceTierDto, flag_or, rate_code_taken,
  tier_code_taken, demoted_rates, demoted_tiers, rates_before, tiers_before, create_tax_rate,
  update_tax_rate, delete_tax_rate, create_price_tier, update_price_tier, delete_price_tier,
  rate_assigned, tier_assigned_to,
}

abbrev pub one_if : Bool → ℕ
one_if flag = if flag then 1 else 0

unfoldable pub default_rates : Table ℕ TaxRate → ℕ
default_rates = total (λ k r. one_if r.is_default)

unfoldable pub default_tiers : Table ℕ PriceTier → ℕ
default_tiers = total (λ k t. one_if t.is_default)

module _ {ℓ κ} {K : Type ℓ} {V : Type κ} ⦃e : Eq K⦄ (f : K → V → ℕ) where
  total-insert-le : (k : K) (v : V) (m : Table K V) → total f (insert k v m) ≤ total f m + f k v
  unfolding total insert
  total-insert-le k v [] = omega arith
  total-insert-le k v ((i, w) ∷ m) = elim (Bool-cases (i == k)) [
    | inl old ↦ rw old (omega arith)
    | inr new ↦ rw new (omega (arith, total-insert-le k v m))
  ]

  total-remove-le : (k : K) (m : Table K V) → total f (remove k m) ≤ total f m
  unfolding total remove
  total-remove-le k [] = omega arith
  total-remove-le k ((i, w) ∷ m) = elim (Bool-cases (i == k)) [
    | inl old ↦ rw old (omega (arith, total-remove-le k m))
    | inr new ↦ rw new (omega (arith, total-remove-le k m))
  ]

demoted_rates-none : (m : Table ℕ TaxRate) → default_rates (demoted_rates m) ≡ 0
unfolding default_rates total demoted_rates
demoted_rates-none [] = refl
demoted_rates-none ((k, r) ∷ m) = omega (arith, demoted_rates-none m)

demoted_tiers-none : (m : Table ℕ PriceTier) → default_tiers (demoted_tiers m) ≡ 0
unfolding default_tiers total demoted_tiers
demoted_tiers-none [] = refl
demoted_tiers-none ((k, t) ∷ m) = omega (arith, demoted_tiers-none m)

-- At most one rate and one tier carry the flag.
pub record IsSingle (st : PricingStore) : Type 0 where
  pub one_rate : default_rates st.tax_rates ≤ 1
  pub one_tier : default_tiers st.tiers ≤ 1

-- A call of the catalogue's upkeep that succeeded.
pub data Upkeep : PricingStore → PricingStore → Type 0 where
  adds_rate :
      {st st' : PricingStore} (id : ℕ) (dto : TaxRateDto)
      → create_tax_rate id dto st ≡ ok st'
      → Upkeep st st'
  edits_rate :
      {st st' : PricingStore} (id : ℕ) (dto : UpdateTaxRateDto)
      → update_tax_rate id dto st ≡ ok st'
      → Upkeep st st'
  drops_rate : {st st' : PricingStore} (id : ℕ) → delete_tax_rate id st ≡ ok st' → Upkeep st st'
  adds_tier :
      {st st' : PricingStore} (id : ℕ) (dto : PriceTierDto)
      → create_price_tier id dto st ≡ ok st'
      → Upkeep st st'
  edits_tier :
      {st st' : PricingStore} (id : ℕ) (dto : UpdatePriceTierDto)
      → update_price_tier id dto st ≡ ok st'
      → Upkeep st st'
  drops_tier : {st st' : PricingStore} (id : ℕ) → delete_price_tier id st ≡ ok st' → Upkeep st st'

added_rate :
    (id : ℕ) (row : TaxRate) (flag : Option Bool) (rates : Table ℕ TaxRate)
    → row.is_default ≡ flag_or false flag
    → default_rates rates ≤ 1
    → default_rates (insert id row (rates_before flag rates)) ≤ 1
unfolding default_rates
added_rate id row flag rates same h =
    let bound =
      total-insert-le (λ (k : ℕ) (r : TaxRate). one_if r.is_default) id row
        (rates_before flag rates) in
    ground (arith, bound, same, demoted_rates-none rates, h)

edited_rate :
    (id : ℕ) (row old : TaxRate) (flag : Option Bool) (rates : Table ℕ TaxRate)
    → lookup id (rates_before flag rates) ≡ some old
    → row.is_default ≡ flag_or old.is_default flag
    → default_rates rates ≤ 1
    → default_rates (insert id row (rates_before flag rates)) ≤ 1
unfolding default_rates
edited_rate id row old flag rates found same h =
    let f = λ (k : ℕ) (r : TaxRate). one_if r.is_default in
    let bound = total-insert-le f id row (rates_before flag rates) in
    let exact = total-insert f id row old (rates_before flag rates) found in
    ground (arith, bound, exact, same, demoted_rates-none rates, h)

added_tier :
    (id : ℕ) (row : PriceTier) (flag : Option Bool) (tiers : Table ℕ PriceTier)
    → row.is_default ≡ flag_or false flag
    → default_tiers tiers ≤ 1
    → default_tiers (insert id row (tiers_before flag tiers)) ≤ 1
unfolding default_tiers
added_tier id row flag tiers same h =
    let bound =
      total-insert-le (λ (k : ℕ) (t : PriceTier). one_if t.is_default) id row
        (tiers_before flag tiers) in
    ground (arith, bound, same, demoted_tiers-none tiers, h)

edited_tier :
    (id : ℕ) (row old : PriceTier) (flag : Option Bool) (tiers : Table ℕ PriceTier)
    → lookup id (tiers_before flag tiers) ≡ some old
    → row.is_default ≡ flag_or old.is_default flag
    → default_tiers tiers ≤ 1
    → default_tiers (insert id row (tiers_before flag tiers)) ≤ 1
unfolding default_tiers
edited_tier id row old flag tiers found same h =
    let f = λ (k : ℕ) (t : PriceTier). one_if t.is_default in
    let bound = total-insert-le f id row (tiers_before flag tiers) in
    let exact = total-insert f id row old (tiers_before flag tiers) found in
    ground (arith, bound, exact, same, demoted_tiers-none tiers, h)

fewer_rates :
    (id : ℕ) (rates : Table ℕ TaxRate)
    → default_rates rates ≤ 1
    → default_rates (remove id rates) ≤ 1
unfolding default_rates
fewer_rates id rates h =
    omega (arith, total-remove-le (λ (k : ℕ) (r : TaxRate). one_if r.is_default) id rates)

fewer_tiers :
    (id : ℕ) (tiers : Table ℕ PriceTier)
    → default_tiers tiers ≤ 1
    → default_tiers (remove id tiers) ≤ 1
unfolding default_tiers
fewer_tiers id tiers h =
    omega (arith, total-remove-le (λ (k : ℕ) (t : PriceTier). one_if t.is_default) id tiers)

-- The calls that add, edit and delete tax rates and price tiers keep at most one rate and at most
-- one tier the default.
pub Upkeep-IsSingle : {st st' : PricingStore} → Upkeep st st' → IsSingle st → IsSingle st'
unfolding create_tax_rate update_tax_rate delete_tax_rate create_price_tier update_price_tier
    delete_price_tier
Upkeep-IsSingle {st = st} (adds_rate id dto done) h =
    let (u, hu, h1) = >>=-eq-ok (throw_if (rate_code_taken dto.code st.tax_rates) _) _ done in
    rw (sym (ok-injective h1)) (record {
      one_rate = added_rate id _ dto.is_default st.tax_rates refl h.one_rate;
      one_tier = h.one_tier;
    })
Upkeep-IsSingle {st = st} (edits_rate id dto done) h =
    let (u, hu, h1) = >>=-eq-ok (or_throw (lookup id st.tax_rates) _) _ done in
    let (r, hr, h2) =
      >>=-eq-ok (or_throw (lookup id (rates_before dto.is_default st.tax_rates)) _) _ h1 in
    rw (sym (ok-injective h2)) (record {
      one_rate =
          edited_rate id _ r dto.is_default st.tax_rates (or_throw-ok _ _ hr) refl h.one_rate;
      one_tier = h.one_tier;
    })
Upkeep-IsSingle {st = st} (drops_rate id done) h =
    let (u, hu, h1) = >>=-eq-ok (throw_if (rate_assigned id st.products) _) _ done in
    let (r, hr, h2) = >>=-eq-ok (or_throw (lookup id st.tax_rates) _) _ h1 in
    rw (sym (ok-injective h2))
      (record { one_rate = fewer_rates id st.tax_rates h.one_rate; one_tier = h.one_tier })
Upkeep-IsSingle {st = st} (adds_tier id dto done) h =
    let (u, hu, h1) = >>=-eq-ok (throw_if (tier_code_taken dto.code st.tiers) _) _ done in
    rw (sym (ok-injective h1)) (record {
      one_rate = h.one_rate;
      one_tier = added_tier id _ dto.is_default st.tiers refl h.one_tier;
    })
Upkeep-IsSingle {st = st} (edits_tier id dto done) h =
    let (u, hu, h1) = >>=-eq-ok (or_throw (lookup id st.tiers) _) _ done in
    let (t, ht, h2) =
      >>=-eq-ok (or_throw (lookup id (tiers_before dto.is_default st.tiers)) _) _ h1 in
    rw (sym (ok-injective h2)) (record {
      one_rate = h.one_rate;
      one_tier = edited_tier id _ t dto.is_default st.tiers (or_throw-ok _ _ ht) refl h.one_tier;
    })
Upkeep-IsSingle {st = st} (drops_tier id done) h =
    let (u, hu, h1) = >>=-eq-ok (throw_if (tier_assigned_to id st.customer_tiers) _) _ done in
    let (t, ht, h2) = >>=-eq-ok (or_throw (lookup id st.tiers) _) _ h1 in
    rw (sym (ok-injective h2))
      (record { one_rate = h.one_rate; one_tier = fewer_tiers id st.tiers h.one_tier })
