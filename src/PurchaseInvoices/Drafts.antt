-- ===== src/PurchaseInvoices/Drafts.antt =====
-- Drafts of purchase invoices, their landed costs, and payments.
use werehouse.Prelude.{
  ℕ, zero, suc, Bool, true, false, not, ◌&&◌, ◌||◌, Option, none, some, List, [], ◌∷◌, map,
}
use werehouse.Prelude.Tests.{nat_beq, if◌then◌else◌}
use werehouse.Prelude.Int.{pos, is_pos, ◌-ℤ◌}
use werehouse.Prelude.Table.{Table, nat_eq, lookup, insert, remove}
use werehouse.Result.{
  Result, ok, err, bad_request, not_found, conflict, ◌>>=◌, ◌>>◌, or_throw, throw_if, unknown_sku,
  invoice_missing, invoice_not_draft, payment_above_balance, supplier_missing,
  supplier_invoice_recorded, rate_date_needed, rate_needed, rate_not_positive,
}
use werehouse.Stock.{product_key_eq, Store}
use werehouse.Costing.{AllocationMethod, by_value}
use werehouse.SalesInvoices.{draft, is_draft, is_cancelled, payable}
use werehouse.PurchaseInvoices.{
  Currency, syp, usd, LandedCost, PurchaseInvoice, PurchaseStore, PurchaseLineDto,
  CreatePurchaseInvoiceDto, or_zero, drafted_item, recalculated,
}

unfoldable pub require_draft : ℕ → PurchaseStore → Result PurchaseInvoice
require_draft id st = do
  v ← or_throw (lookup id st.invoices) (not_found invoice_missing)
  throw_if (not (is_draft v.status)) (conflict invoice_not_draft)
  ok v

unfoldable pub products_exist : ℕ → List PurchaseLineDto → Store → Bool
products_exist t [] s = true
products_exist t (i ∷ items) s = elim (lookup (record { tenant = t; sku = i.sku }) s.products) [
  | none ↦ false
  | some p ↦ products_exist t items s
]

abbrev pub check_rate : Option ℕ → Result (Unit {0})
check_rate none = err (bad_request rate_needed)
check_rate (some zero) = err (bad_request rate_not_positive)
check_rate (some (suc n)) = ok tt

-- A foreign invoice names the date of its rate, and a positive rate.
unfoldable pub assert_rate_provided : Currency → Option ℕ → Option ℕ → Result (Unit {0})
assert_rate_provided syp rate date = ok tt
assert_rate_provided usd rate none = err (bad_request rate_date_needed)
assert_rate_provided usd rate (some date) = check_rate rate

abbrev pub same_paper : ℕ → ℕ → PurchaseInvoice → Bool
same_paper supplier number v =
    nat_beq v.supplier_id supplier
    && (elim v.supplier_invoice_number [ none ↦ false | some n ↦ nat_beq n number ])
    && not (is_cancelled v.status)

unfoldable pub is_recorded : ℕ → ℕ → Table ℕ PurchaseInvoice → Bool
is_recorded supplier number [] = false
is_recorded supplier number ((id, v) ∷ rest) =
    same_paper supplier number v || is_recorded supplier number rest

abbrev pub already_recorded : ℕ → Option ℕ → Table ℕ PurchaseInvoice → Bool
already_recorded supplier none invoices = false
already_recorded supplier (some number) invoices = is_recorded supplier number invoices

abbrev pub drafted_invoice : CreatePurchaseInvoiceDto → PurchaseInvoice
drafted_invoice dto = record {
  number = dto.number;
  supplier_id = dto.supplier_id;
  supplier_invoice_number = dto.supplier_invoice_number;
  purchase_order_id = dto.purchase_order_id;
  year = dto.year;
  currency = dto.currency;
  exchange_rate = or_zero dto.exchange_rate;
  exchange_rate_date = dto.exchange_rate_date;
  status = draft;
  items = map drafted_item dto.items;
  landed_costs = [];
  payments = [];
  subtotal = 0;
  discount_amount = 0;
  tax_amount = pos 0;
  landed_cost_total = 0;
  total_amount = pos 0;
  paid_amount = 0;
}

unfoldable pub create : ℕ → ℕ → CreatePurchaseInvoiceDto → PurchaseStore → Result PurchaseStore
unfolding drafted_item recalculated products_exist assert_rate_provided is_recorded
create t id dto st = do
  _ ← or_throw (lookup dto.supplier_id st.suppliers) (not_found supplier_missing)
  throw_if (already_recorded dto.supplier_id dto.supplier_invoice_number st.invoices)
      (conflict supplier_invoice_recorded)
  throw_if (not (products_exist t dto.items st.lots.stock)) (not_found unknown_sku)
  assert_rate_provided dto.currency dto.exchange_rate dto.exchange_rate_date
  ok (record st { invoices = insert id (recalculated (drafted_invoice dto)) st.invoices })

abbrev pub store_recalculated : ℕ → PurchaseInvoice → PurchaseStore → PurchaseStore
store_recalculated id v st = record st { invoices = insert id (recalculated v) st.invoices }

pub record UpdatePurchaseInvoiceDto : Type 0 where
  pub supplier_invoice_number : Option ℕ
  pub year : Option ℕ
  pub currency : Option Currency
  pub exchange_rate : Option ℕ
  pub exchange_rate_date : Option ℕ
  pub items : Option (List PurchaseLineDto)

abbrev pub given_or : Option ℕ → Option ℕ → Option ℕ
given_or none other = other
given_or (some n) other = some n

abbrev pub rate_or : ℕ → Option ℕ → ℕ
rate_or other none = other
rate_or other (some n) = n

abbrev pub currency_or : Currency → Option Currency → Currency
currency_or other none = other
currency_or other (some c) = c

abbrev pub is_given {ℓ} : {A : Type ℓ} → Option A → Bool
is_given none = false
is_given (some a) = true

-- The rate is checked if the request touches the currency, the rate or its date.
unfoldable pub recheck_rate : UpdatePurchaseInvoiceDto → PurchaseInvoice → Result (Unit {0})
unfolding assert_rate_provided
recheck_rate dto v =
    if is_given dto.currency || is_given dto.exchange_rate || is_given dto.exchange_rate_date
    then assert_rate_provided (currency_or v.currency dto.currency)
        (given_or dto.exchange_rate (some v.exchange_rate))
        (given_or dto.exchange_rate_date v.exchange_rate_date)
    else ok tt

unfoldable pub redrafted :
    ℕ → Store → Option (List PurchaseLineDto) → PurchaseInvoice → Result PurchaseInvoice
unfolding products_exist drafted_item
redrafted t s none v = ok v
redrafted t s (some items) v = do
  throw_if (not (products_exist t items s)) (not_found unknown_sku)
  ok (record v { items = map drafted_item items })

abbrev pub redated : UpdatePurchaseInvoiceDto → PurchaseInvoice → PurchaseInvoice
redated dto v = record v {
  supplier_invoice_number = given_or dto.supplier_invoice_number v.supplier_invoice_number;
  year = rate_or v.year dto.year;
  currency = currency_or v.currency dto.currency;
  exchange_rate = rate_or v.exchange_rate dto.exchange_rate;
  exchange_rate_date = given_or dto.exchange_rate_date v.exchange_rate_date;
}

unfoldable pub update : ℕ → ℕ → UpdatePurchaseInvoiceDto → PurchaseStore → Result PurchaseStore
unfolding require_draft recheck_rate redrafted recalculated
update t id dto st = do
  v ← require_draft id st
  recheck_rate dto v
  w ← redrafted t st.lots.stock dto.items (redated dto v)
  ok (store_recalculated id w st)

unfoldable pub remove_draft : ℕ → PurchaseStore → Result PurchaseStore
unfolding require_draft
remove_draft id st = do _ ← require_draft id st; ok (record st { invoices = remove id st.invoices })

abbrev pub method_or : Option AllocationMethod → AllocationMethod
method_or none = by_value
method_or (some m) = m

abbrev pub new_cost : ℕ → Option AllocationMethod → LandedCost
new_cost amount method = record { amount = amount; allocation_method = method_or method }

unfoldable pub add_landed_cost :
    ℕ → ℕ → ℕ → Option AllocationMethod → PurchaseStore → Result PurchaseStore
unfolding require_draft recalculated
add_landed_cost id cost_id amount method st = do
  v ← require_draft id st
  ok (
      store_recalculated id
        (record v { landed_costs = insert cost_id (new_cost amount method) v.landed_costs }) st)

unfoldable pub remove_landed_cost : ℕ → ℕ → PurchaseStore → Result PurchaseStore
unfolding require_draft recalculated
remove_landed_cost id cost_id st = do
  v ← require_draft id st
  ok (store_recalculated id (record v { landed_costs = remove cost_id v.landed_costs }) st)

unfoldable pub add_payment : ℕ → ℕ → PurchaseStore → Result PurchaseStore
unfolding recalculated
add_payment id amount st = do
  v ← or_throw (lookup id st.invoices) (not_found invoice_missing)
  payable v.status
  throw_if (is_pos (pos amount -ℤ (v.total_amount -ℤ pos v.paid_amount)))
      (bad_request payment_above_balance)
  ok (store_recalculated id (record v { payments = amount ∷ v.payments }) st)
