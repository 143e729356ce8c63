-- ===== src/Shipping/Reachable.antt =====
-- The shipments that the calls of the service can reach, and their dates.
use werehouse.Prelude.{ℕ, ◌+◌, ◌≡◌, refl, sym, ap, Bool, true, false, Option, none, some, arith}
use werehouse.Prelude.Tests.{if◌then◌else◌}
use werehouse.Prelude.Table.{nat_eq, lookup, insert, lookup-insert_self}
use werehouse.Prelude.Rows.{AllRows, insert-AllRows, lookup-AllRows}
use werehouse.Result.{ok, >>=-eq-ok, or_throw, throw_if, or_throw-ok, ok-injective}
use werehouse.Shipping.{
  ShipmentStatus, pending, labeled, dispatched, in_transit, delivered, returned, cancelled,
  Shipment, ShippingStore, CreatePackage, CreateShipment, UpdateShipmentStatus, is_some_of,
  create_package, packages_of, recounted, recalculate_shipment, attach, new_shipment, check_carrier,
  create_shipment, create_carrier, update_carrier, carrier_code_taken, LabelFormat, label_of,
  generate_label, shipped_time, delivered_time, moved, update_status,
}
use werehouse.Shipping.Lifecycle.{
  ◌⟶◌, print, drop, leave, withdraw, travel, hand_over, come_back, arrive, turn_round, send_back,
  update_status-Moved,
}

-- A call that succeeded, the shipment whose status it updated and the one it printed a label of. A new
-- shipment has a new id.
pub data Step : Option ℕ → Option ℕ → ShippingStore → ShippingStore → Type 0 where
  hires :
      {st st' : ShippingStore} (id code : ℕ) (active : Option Bool)
      → create_carrier id code active st ≡ ok st'
      → Step none none st st'
  rehires :
      {st st' : ShippingStore} (id : ℕ) (active : Option Bool)
      → update_carrier id active st ≡ ok st'
      → Step none none st st'
  packs :
      {st : ShippingStore} (id now : ℕ) (dto : CreatePackage)
      → Step none none st (create_package id now dto st)
  ships :
      {st st' : ShippingStore} (id : ℕ) (dto : CreateShipment)
      → lookup id st.shipments ≡ none
      → create_shipment id dto st ≡ ok st'
      → Step none none st st'
  recounts :
      {st st' : ShippingStore} (id : ℕ)
      → recalculate_shipment id st ≡ ok st'
      → Step none none st st'
  labels :
      {st st' : ShippingStore} (id : ℕ) (format : LabelFormat)
      → generate_label id format st ≡ ok st'
      → Step none (some id) st st'
  updates :
      {st st' : ShippingStore} (id now : ℕ) (dto : UpdateShipmentStatus)
      → update_status id now dto st ≡ ok st'
      → Step (some id) none st st'

abbrev pub counted : ℕ → Option ℕ → ℕ
counted id target = if is_some_of id target then 1 else 0

-- A run of calls, the number of its updates of one shipment and the number of labels it printed of it.
pub data Run (id : ℕ) : ℕ → ℕ → ShippingStore → ShippingStore → Type 0 where
  stop : {st : ShippingStore} → Run id 0 0 st st
  next :
      {target printed : Option ℕ} {n k : ℕ} {st st' st'' : ShippingStore}
      → Step target printed st st'
      → Run id n k st' st''
      → Run id (counted id target + n) (counted id printed + k) st st''

-- The dates that a status asks for: a pending shipment has none, one that is on the way or came back
-- has the time it left, one that is delivered both. A label may be printed at any time.
unfoldable pub dates_fit : ShipmentStatus → Option ℕ → Option ℕ → Bool
dates_fit pending none none = true
dates_fit labeled shipped arrived = true
dates_fit cancelled shipped arrived = true
dates_fit dispatched (some shipped) arrived = true
dates_fit in_transit (some shipped) arrived = true
dates_fit delivered (some shipped) (some handed) = true
dates_fit returned (some shipped) arrived = true
dates_fit status shipped arrived = false

unfoldable pub IsDated : Shipment → Type 0
IsDated s = dates_fit s.status s.shipped_at s.delivered_at ≡ true

dates_fit-⟶ :
    {a b : ShipmentStatus} (now : ℕ) (shipped arrived : Option ℕ)
    → a ⟶ b
    → dates_fit a shipped arrived ≡ true
    → dates_fit b (shipped_time b now shipped) (delivered_time b now arrived) ≡ true
unfolding dates_fit
dates_fit-⟶ now shipped arrived print h = ground arith
dates_fit-⟶ now shipped arrived drop h = ground arith
dates_fit-⟶ now shipped arrived leave h = ground arith
dates_fit-⟶ now shipped arrived withdraw h = ground arith
dates_fit-⟶ now shipped arrived travel h = ground arith
dates_fit-⟶ now shipped arrived hand_over h = ground arith
dates_fit-⟶ now shipped arrived come_back h = ground arith
dates_fit-⟶ now shipped arrived arrive h = ground arith
dates_fit-⟶ now shipped arrived turn_round h = ground arith
dates_fit-⟶ now shipped arrived send_back h = ground arith

-- What a recount stored.
pub recalculate-stored :
    (id : ℕ) (st : ShippingStore) {st' : ShippingStore}
    → recalculate_shipment id st ≡ ok st'
    → (s : Shipment) × (lookup id st.shipments ≡ some s)
      × (st' ≡ record st {
        shipments = insert id (recounted (packages_of id st.packages) s) st.shipments;
      })
unfolding recalculate_shipment
recalculate-stored id st h =
    let (s, hs, h1) = >>=-eq-ok (or_throw (lookup id st.shipments) _) _ h in
    (s, or_throw-ok _ _ hs, sym (ok-injective h1))

-- What a new shipment stored.
pub create-stored :
    (id : ℕ) (dto : CreateShipment) (st : ShippingStore) {st' : ShippingStore}
    → create_shipment id dto st ≡ ok st'
    → st' ≡ record st {
      packages = attach id dto.package_ids st.packages;
      shipments =
          insert id
            (recounted (packages_of id (attach id dto.package_ids st.packages)) (new_shipment dto))
            (insert id (new_shipment dto) st.shipments);
    }
unfolding create_shipment
create-stored id dto st h =
    let (u, hu, h1) = >>=-eq-ok (check_carrier dto.carrier_id st) _ h in
    let (s, found, stored) = recalculate-stored id _ h1 in
    let same : s ≡ new_shipment dto =
      cc (found, lookup-insert_self id (new_shipment dto) st.shipments) in
    rw same at stored

-- What a label stored.
pub label-stored :
    (id : ℕ) (format : LabelFormat) (st : ShippingStore) {st' : ShippingStore}
    → generate_label id format st ≡ ok st'
    → (s : Shipment) × (lookup id st.shipments ≡ some s)
      × (st' ≡ record st {
        shipments =
            insert id
              (record s { label = some (label_of id format s); status = labeled })
              st.shipments;
      })
unfolding generate_label
label-stored id format st h =
    let (s, hs, h1) = >>=-eq-ok (or_throw (lookup id st.shipments) _) _ h in
    (s, or_throw-ok _ _ hs, sym (ok-injective h1))

-- The calls on carriers leave the shipments.
pub create_carrier-shipments :
    (id code : ℕ) (active : Option Bool) (st : ShippingStore) {st' : ShippingStore}
    → create_carrier id code active st ≡ ok st'
    → st'.shipments ≡ st.shipments
unfolding create_carrier
create_carrier-shipments id code active st h =
    let (u, hu, h1) = >>=-eq-ok (throw_if (carrier_code_taken code st.carriers) _) _ h in
    ap (λ (x : ShippingStore). x.shipments) (sym (ok-injective h1))

pub update_carrier-shipments :
    (id : ℕ) (active : Option Bool) (st : ShippingStore) {st' : ShippingStore}
    → update_carrier id active st ≡ ok st'
    → st'.shipments ≡ st.shipments
unfolding update_carrier
update_carrier-shipments id active st h =
    let (c, hc, h1) = >>=-eq-ok (or_throw (lookup id st.carriers) _) _ h in
    ap (λ (x : ShippingStore). x.shipments) (sym (ok-injective h1))

Step-AllDated :
    {target printed : Option ℕ} {st st' : ShippingStore}
    → Step target printed st st'
    → AllRows IsDated st.shipments
    → AllRows IsDated st'.shipments
unfolding create_package IsDated dates_fit recounted moved
Step-AllDated (hires {st = st} id code active done) h =
    rw (create_carrier-shipments id code active st done) h
Step-AllDated (rehires {st = st} id active done) h =
    rw (update_carrier-shipments id active st done) h
Step-AllDated (packs id now dto) h = h
Step-AllDated (ships {st = st} id dto new made) h = rw (create-stored id dto st made) (
    insert-AllRows IsDated id _ _ (insert-AllRows IsDated id (new_shipment dto) st.shipments h refl)
      refl)
Step-AllDated (recounts {st = st} id done) h =
    let (s, found, stored) = recalculate-stored id st done in
    rw stored
      (insert-AllRows IsDated id _ st.shipments h (lookup-AllRows IsDated id st.shipments h found))
Step-AllDated (labels {st = st} id format done) h =
    let (s, found, stored) = label-stored id format st done in
    rw stored (insert-AllRows IsDated id _ st.shipments h refl)
Step-AllDated (updates {st = st} id now dto done) h =
    let m = update_status-Moved id now dto st done in
    let old = lookup-AllRows IsDated id st.shipments h m.found in
    rw m.stored (insert-AllRows IsDated id _ st.shipments h (dates_fit-⟶ now _ _ m.edge old))

-- Through any run of the calls of the service, labels included, the dates of every shipment keep fitting
-- its status: no shipment is on the way, delivered or returned without the time it left, and none is
-- delivered without the time it was handed over.
pub Run-AllDated :
    (id n k : ℕ) {st st' : ShippingStore}
    → AllRows IsDated st.shipments
    → Run id n k st st'
    → AllRows IsDated st'.shipments
Run-AllDated id n k h stop = h
Run-AllDated id n k h (next s r) = Run-AllDated id _ _ (Step-AllDated s h) r
