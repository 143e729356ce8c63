-- ===== src/Shipping.antt =====
-- Carriers, packages and shipments, backend-nest/src/fulfillment/shipping.service.ts.
-- The tables hold the rows of the request's tenant. Weights are in grams, times and texts are
-- numbers, and a new row's id is chosen by the database. Notifications, webhooks, the drawn barcodes
-- and the documents' numbers are left out.
pub mod Lifecycle
pub mod Reachable
pub mod Closing
pub mod Parcels
mod Tests
use werehouse.Prelude.{
  ℕ, ◌+◌, ◌*◌, ◌/◌, Bool, true, false, not, ◌||◌, Option, none, some, List, [], ◌∷◌, map,
}
use werehouse.Prelude.Tests.{nat_beq, if◌then◌else◌}
use werehouse.Prelude.Lists.{length, sum_by}
use werehouse.Prelude.Table.{Table, nat_eq, lookup, insert}
use werehouse.Result.{
  Result, ok, err, not_found, conflict, ◌>>=◌, ◌>>◌, or_throw, throw_if, carrier_missing,
  carrier_exists, shipment_missing, transition_not_allowed,
}

pub data ShipmentStatus : Type 0 where
  pending labeled dispatched in_transit delivered returned cancelled : ShipmentStatus

pub data LabelFormat : Type 0 where
  code128 qr : LabelFormat

-- The parts that the label's payload joins: the shipment, the tracking number if there is one, the
-- parcels, and the weight in hundredths of a kilogram.
pub data LabelPart : Type 0 where
  shipment_part tracking_part parcels_part weight_part : ℕ → LabelPart

pub record Label : Type 0 where
  pub payload : List LabelPart
  pub format : LabelFormat

pub record Shipment : Type 0 where
  pub sales_order_id : Option ℕ
  pub sales_invoice_id : Option ℕ
  pub carrier_id : Option ℕ
  pub tracking_number : Option ℕ
  pub status : ShipmentStatus
  pub total_weight : ℕ
  pub package_count : ℕ
  pub label : Option Label
  pub shipped_at : Option ℕ
  pub delivered_at : Option ℕ
  pub notes : Option ℕ

pub record PackageItem : Type 0 where
  pub sku : ℕ
  pub batch_id : Option ℕ
  pub quantity : ℕ

pub record Package : Type 0 where
  pub shipment_id : Option ℕ
  pub sales_order_id : Option ℕ
  pub weight : ℕ
  pub packed_at : ℕ
  pub items : List PackageItem

pub record Carrier : Type 0 where
  pub code : ℕ
  pub is_active : Bool

-- A product's unit weight may be missing.
pub record ShippingStore : Type 0 where
  pub unit_weights : Table ℕ (Option ℕ)
  pub carriers : Table ℕ Carrier
  pub packages : Table ℕ Package
  pub shipments : Table ℕ Shipment

pub record CreatePackage : Type 0 where
  pub shipment_id : Option ℕ
  pub sales_order_id : Option ℕ
  pub weight : Option ℕ
  pub items : List PackageItem

pub record CreateShipment : Type 0 where
  pub sales_order_id : Option ℕ
  pub sales_invoice_id : Option ℕ
  pub carrier_id : Option ℕ
  pub tracking_number : Option ℕ
  pub notes : Option ℕ
  pub package_ids : List ℕ

pub record UpdateShipmentStatus : Type 0 where
  pub status : ShipmentStatus
  pub tracking_number : Option ℕ
  pub notes : Option ℕ

abbrev pub active_or : Bool → Option Bool → Bool
active_or other none = other
active_or other (some b) = b

unfoldable pub carrier_code_taken : ℕ → Table ℕ Carrier → Bool
carrier_code_taken code [] = false
carrier_code_taken code ((id, c) ∷ rest) = nat_beq c.code code || carrier_code_taken code rest

-- A new carrier is active unless the request says otherwise.
unfoldable pub create_carrier : ℕ → ℕ → Option Bool → ShippingStore → Result ShippingStore
unfolding carrier_code_taken
create_carrier id code active st = do
  throw_if (carrier_code_taken code st.carriers) (conflict carrier_exists)
  ok (record st {
    carriers = insert id (record { code = code; is_active = active_or true active }) st.carriers;
  })

unfoldable pub update_carrier : ℕ → Option Bool → ShippingStore → Result ShippingStore
update_carrier id active st = do
  c ← or_throw (lookup id st.carriers) (not_found carrier_missing)
  ok (record st {
    carriers = insert id (record c { is_active = active_or c.is_active active }) st.carriers;
  })

-- `value ?? other`
abbrev pub given_or : Option ℕ → Option ℕ → Option ℕ
given_or none other = other
given_or (some a) other = some a

-- `D(p.weightKg ?? 0)`, and `?? ZERO` for a SKU that names no product.
abbrev pub weight_of : ℕ → Table ℕ (Option ℕ) → ℕ
weight_of sku weights = elim (lookup sku weights) [ none ↦ 0 | some none ↦ 0 | some (some w) ↦ w ]

unfoldable pub computed_weight : Table ℕ (Option ℕ) → List PackageItem → ℕ
computed_weight weights = sum_by (λ i. weight_of i.sku weights * i.quantity)

abbrev pub weight_or : Option ℕ → ℕ → ℕ
weight_or none computed = computed
weight_or (some w) computed = w

unfoldable pub create_package : ℕ → ℕ → CreatePackage → ShippingStore → ShippingStore
unfolding computed_weight
create_package id now dto st = record st {
  packages =
      insert id
        (record {
          shipment_id = dto.shipment_id;
          sales_order_id = dto.sales_order_id;
          weight = weight_or dto.weight (computed_weight st.unit_weights dto.items);
          packed_at = now;
          items = dto.items;
        })
        st.packages;
}

-- `packages.findMany({ where: { shipmentId } })`
abbrev pub is_some_of : ℕ → Option ℕ → Bool
is_some_of id none = false
is_some_of id (some s) = nat_beq s id

abbrev pub in_shipment : ℕ → Package → Bool
in_shipment id p = is_some_of id p.shipment_id

unfoldable pub packages_of : ℕ → Table ℕ Package → List Package
packages_of id [] = []
packages_of id ((k, p) ∷ rest) =
    let others = packages_of id rest in if in_shipment id p then p ∷ others else others

unfoldable pub recounted : List Package → Shipment → Shipment
recounted parcels s = record s {
  package_count = length parcels;
  total_weight = sum_by (λ p. p.weight) parcels;
}

unfoldable pub recalculate_shipment : ℕ → ShippingStore → Result ShippingStore
unfolding packages_of recounted
recalculate_shipment id st = do
  s ← or_throw (lookup id st.shipments) (not_found shipment_missing)
  ok (record st { shipments = insert id (recounted (packages_of id st.packages) s) st.shipments })

abbrev pub includes : ℕ → List ℕ → Bool
includes id [] = false
includes id (x ∷ ids) = nat_beq x id || includes id ids

-- `package.updateMany({ where: { id: { in: packageIds } }, data: { shipmentId } })`
unfoldable pub attach : ℕ → List ℕ → Table ℕ Package → Table ℕ Package
attach id ids [] = []
attach id ids ((k, p) ∷ rest) =
    let others = attach id ids rest in
    (k, if includes k ids then record p { shipment_id = some id } else p) ∷ others

abbrev pub new_shipment : CreateShipment → Shipment
new_shipment dto = record {
  sales_order_id = dto.sales_order_id;
  sales_invoice_id = dto.sales_invoice_id;
  carrier_id = dto.carrier_id;
  tracking_number = dto.tracking_number;
  status = pending;
  total_weight = 0;
  package_count = 0;
  label = none;
  shipped_at = none;
  delivered_at = none;
  notes = dto.notes;
}

abbrev pub check_carrier : Option ℕ → ShippingStore → Result (Unit {0})
check_carrier none st = ok tt
check_carrier (some c) st = elim (lookup c st.carriers) [
  | none ↦ err (not_found carrier_missing)
  | some carrier ↦ ok tt
]

unfoldable pub create_shipment : ℕ → CreateShipment → ShippingStore → Result ShippingStore
unfolding attach recalculate_shipment
create_shipment id dto st = do
  check_carrier dto.carrier_id st
  recalculate_shipment id (record st {
    shipments = insert id (new_shipment dto) st.shipments;
    packages = attach id dto.package_ids st.packages;
  })

abbrev pub tracking_parts : Option ℕ → List LabelPart → List LabelPart
tracking_parts none rest = rest
tracking_parts (some t) rest = tracking_part t ∷ rest

-- `toFixed(2)` of the weight rounds grams to tens of grams.
unfoldable pub label_of : ℕ → LabelFormat → Shipment → Label
label_of id format s = record {
  payload =
      shipment_part id
      ∷ tracking_parts s.tracking_number
          (parcels_part s.package_count ∷ weight_part ((s.total_weight + 5) / 10) ∷ []);
  format = format;
}

unfoldable pub generate_label : ℕ → LabelFormat → ShippingStore → Result ShippingStore
unfolding label_of
generate_label id format st = do
  s ← or_throw (lookup id st.shipments) (not_found shipment_missing)
  ok (record st {
    shipments =
        insert id (record s { label = some (label_of id format s); status = labeled }) st.shipments;
  })

-- The statuses that may follow one.
unfoldable pub allowed : ShipmentStatus → List ShipmentStatus
allowed pending = labeled ∷ cancelled ∷ []
allowed labeled = dispatched ∷ cancelled ∷ []
allowed dispatched = in_transit ∷ delivered ∷ returned ∷ []
allowed in_transit = delivered ∷ returned ∷ []
allowed delivered = returned ∷ []
allowed returned = []
allowed cancelled = []

abbrev pub status_code : ShipmentStatus → ℕ
status_code pending = 0
status_code labeled = 1
status_code dispatched = 2
status_code in_transit = 3
status_code delivered = 4
status_code returned = 5
status_code cancelled = 6

abbrev pub shipped_time : ShipmentStatus → ℕ → Option ℕ → Option ℕ
shipped_time dispatched now old = some now
shipped_time _ now old = old

abbrev pub delivered_time : ShipmentStatus → ℕ → Option ℕ → Option ℕ
delivered_time delivered now old = some now
delivered_time _ now old = old

unfoldable pub moved : ℕ → UpdateShipmentStatus → Shipment → Shipment
moved now dto s = record s {
  status = dto.status;
  tracking_number = given_or dto.tracking_number s.tracking_number;
  shipped_at = shipped_time dto.status now s.shipped_at;
  delivered_at = delivered_time dto.status now s.delivered_at;
  notes = given_or dto.notes s.notes;
}

unfoldable pub update_status : ℕ → ℕ → UpdateShipmentStatus → ShippingStore → Result ShippingStore
unfolding allowed moved
update_status id now dto st = do
  s ← or_throw (lookup id st.shipments) (not_found shipment_missing)
  throw_if (not (includes (status_code dto.status) (map status_code (allowed s.status))))
      (conflict transition_not_allowed)
  ok (record st { shipments = insert id (moved now dto s) st.shipments })
