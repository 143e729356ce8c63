-- ===== src/Result.antt =====
-- The outcome of a service call: a value, or one of the HTTP exceptions that the services throw
-- (BadRequestException, NotFoundException, ConflictException), with the guard that threw it.
use werehouse.Prelude.{
  ℕ, zero, suc, ◌≡◌, refl, ◌⊎◌, inl, inr, Bool, true, false, Option, none, some,
}
use werehouse.Prelude.Int.{ℤ, pos, negsuc}

pub data Reason : Type 0 where
  no_tenant product_missing stock_level_missing : Reason
  zero_change quantity_not_positive insufficient_on_hand insufficient_available : Reason
  release_above_reserved : Reason
  order_missing order_cancelled order_processed order_not_confirmed order_not_draft : Reason
  order_delivered order_has_payments payment_above_remaining payment_missing : Reason
  unknown_customer unknown_sku : Reason
  batch_missing batch_reserved batch_short batch_exists batch_number_needed expiry_needed : Reason
  unbalanced_entry entry_number_taken : Reason
  count_missing count_not_draft count_not_in_progress count_completed count_cancelled : Reason
  line_not_in_document lines_uncounted lines_to_recount : Reason
  pick_list_missing pick_list_completed pick_list_cancelled pick_above_requested : Reason
  shipment_missing transition_not_allowed carrier_missing carrier_exists : Reason
  invoice_missing invoice_not_draft invoice_empty invoice_cancelled invoice_paid : Reason
  invoice_unposted payment_above_balance credit_limit_exceeded sellable_short : Reason
  note_missing note_cancelled : Reason
  tax_rate_missing tax_rate_exists tax_rate_assigned tier_missing tier_exists tier_assigned : Reason
  no_quote_lines discount_above_line price_missing : Reason
  supplier_missing supplier_invoice_recorded rate_date_needed rate_needed rate_not_positive : Reason
  inspection_missing inspection_recorded inspected_exceeded : Reason
  invalid_status order_received_already order_line_missing above_remaining : Reason
  receipt_of_other_order order_has_receipts : Reason

pub data Error : Type 0 where
  bad_request not_found conflict : Reason → Error

-- A value, or the exception.
pub data Result {ℓ} (A : Type ℓ) : Type ℓ where
  err : Error → Result A
  ok : A → Result A

infixl 5 ◌>>=◌ ◌>>◌
abbrev pub ◌>>=◌ {ℓ κ} : {B : Type κ} {A : Type ℓ} → Result A → (A → Result B) → Result B
err thrown >>= next = err thrown
ok value >>= next = next value

abbrev pub ◌>>◌ {κ} : {B : Type κ} → Result (Unit {0}) → Result B → Result B
check >> next = check >>= λ _. next

-- `if (test) throw e`
abbrev pub throw_if : Bool → Error → Result (Unit {0})
throw_if true e = err e
throw_if false e = ok tt

-- `if (!found) throw e`
abbrev pub or_throw {ℓ} : {A : Type ℓ} → Option A → Error → Result A
or_throw none e = err e
or_throw (some a) e = ok a

-- The two steps of a sequence that did not throw.
pub >>=-eq-ok {ℓ κ} :
    {A : Type ℓ} {B : Type κ} (first : Result A) (next : A → Result B) {last : B}
    → (first >>= next) ≡ ok last
    → (value : A) × (first ≡ ok value) × (next value ≡ ok last)
>>=-eq-ok (err thrown) next h = cc
>>=-eq-ok (ok value) next h = (value, refl, h)

pub or_throw-ok {ℓ} :
    {A : Type ℓ} (x : Option A) (e : Error) {a : A} → or_throw x e ≡ ok a → x ≡ some a
or_throw-ok none e h = cc
or_throw-ok (some a) e h = cc

pub throw_if-ok : (test : Bool) (e : Error) {u : Unit} → throw_if test e ≡ ok u → test ≡ false
throw_if-ok true e h = cc
throw_if-ok false e h = refl

pub ok-injective {ℓ} : {A : Type ℓ} {a b : A} → ok a ≡ ok b → a ≡ b
ok-injective h = cc

pub Result-cases {ℓ} :
    {A : Type ℓ} (r : Result A) → ((a : A) × (r ≡ ok a)) ⊎ ((e : Error) × (r ≡ err e))
Result-cases (ok a) = inl (a, refl)
Result-cases (err e) = inr (e, refl)

-- `Math.round(Number(x))` of a request's number: `none` where the result is not finite. The guard
-- `!Number.isFinite(quantity) || quantity <= 0`.
unfoldable pub positive_quantity : Option ℤ → Result ℕ
positive_quantity (some (pos (suc n))) = ok (suc n)
positive_quantity (some (pos zero)) = err (bad_request quantity_not_positive)
positive_quantity (some (negsuc n)) = err (bad_request quantity_not_positive)
positive_quantity none = err (bad_request quantity_not_positive)

-- The value of a result, or another one where it threw.
abbrev pub value_or {ℓ} : {A : Type ℓ} → A → Result A → A
value_or other (ok a) = a
value_or other (err e) = other
