-- ===== src/Shipping/Parcels.antt =====
-- The parcels of a shipment: what attaching, recounting and labelling do.
use werehouse.Prelude.{ℕ, ◌≡◌, refl, sym, false, some, List, [], ◌∷◌, arith}
use werehouse.Prelude.Tests.{nat_beq_iff, if◌then◌else◌}
use werehouse.Prelude.Lists.{length, sum_by}
use werehouse.Prelude.Table.{Table, nat_eq, ◌==◌, lookup, insert, lookup-insert, lookup-insert_self}
use werehouse.Prelude.Rows.{AllRows}
use werehouse.Result.{ok, ok-injective}
use werehouse.Shipping.{
  labeled, cancelled, Shipment, Package, ShippingStore, CreateShipment, UpdateShipmentStatus,
  LabelFormat, in_shipment, includes, packages_of, attach, recounted, new_shipment, create_shipment,
  generate_label, label_of, update_status, moved,
}
use werehouse.Shipping.Lifecycle.{withdraw, update_status-of_edge}
use werehouse.Shipping.Reachable.{create-stored}

-- The rows of the named packages.
abbrev pub named : List ℕ → Table ℕ Package → List Package
named ids [] = []
named ids ((k, p) ∷ rest) =
    let others = named ids rest in if includes k ids then p ∷ others else others

length-attach :
    (id : ℕ) (ids : List ℕ) (packages : Table ℕ Package)
    → AllRows (λ p. in_shipment id p ≡ false) packages
    → length (packages_of id (attach id ids packages)) ≡ length (named ids packages)
unfolding packages_of attach
length-attach id ids [] h = refl
length-attach id ids ((k, p) ∷ rest) h =
    ground (arith, length-attach id ids rest h.1, nat_beq_iff id id, h.0)

weight-attach :
    (id : ℕ) (ids : List ℕ) (packages : Table ℕ Package)
    → AllRows (λ p. in_shipment id p ≡ false) packages
    → sum_by (λ p. p.weight) (packages_of id (attach id ids packages))
      ≡ sum_by (λ p. p.weight) (named ids packages)
unfolding packages_of attach
weight-attach id ids [] h = refl
weight-attach id ids ((k, p) ∷ rest) h =
    ground (arith, weight-attach id ids rest h.1, nat_beq_iff id id, h.0)

-- A shipment created under an id that no package has is stored with the number of the packages that
-- the request names and that exist, and with the sum of their weights.
pub create_shipment-named :
    (id : ℕ) (dto : CreateShipment) (st : ShippingStore) {st' : ShippingStore}
    → AllRows (λ p. in_shipment id p ≡ false) st.packages
    → create_shipment id dto st ≡ ok st'
    → lookup id st'.shipments
      ≡ some (record (new_shipment dto) {
        package_count = length (named dto.package_ids st.packages);
        total_weight = sum_by (λ p. p.weight) (named dto.package_ids st.packages);
      })
unfolding recounted
create_shipment-named id dto st free h =
    rw
      (
        create-stored id dto st h,
        lookup-insert_self id _ (insert id (new_shipment dto) st.shipments),
        length-attach id dto.package_ids st.packages free,
        weight-attach id dto.package_ids st.packages free,
      )
      refl

-- The parcels that a shipment has, less those a new shipment takes.
abbrev pub left_in : ℕ → List ℕ → Table ℕ Package → List Package
left_in old ids [] = []
left_in old ids ((k, p) ∷ rest) =
    let others = left_in old ids rest in
    if includes k ids then others else (if in_shipment old p then p ∷ others else others)

packages_of-attach :
    (id old : ℕ) (ids : List ℕ) (packages : Table ℕ Package)
    → (id == old) ≡ false
    → packages_of old (attach id ids packages) ≡ left_in old ids packages
unfolding packages_of attach
packages_of-attach id old ids [] h = refl
packages_of-attach id old ids ((k, p) ∷ rest) h =
    ground (arith, packages_of-attach id old ids rest h)

-- The packages that a new shipment takes leave their other shipment, whose row is not recounted: it
-- keeps its parcel count and its weight as they were.
pub create_shipment-left :
    (id old : ℕ) (dto : CreateShipment) (st : ShippingStore) {st' : ShippingStore}
    → (id == old) ≡ false
    → create_shipment id dto st ≡ ok st'
    → (packages_of old st'.packages ≡ left_in old dto.package_ids st.packages)
      × (lookup old st'.shipments ≡ lookup old st.shipments)
create_shipment-left id old dto st other h =
    rw
      (
        create-stored id dto st h,
        lookup-insert id old _ (insert id (new_shipment dto) st.shipments),
        lookup-insert id old (new_shipment dto) st.shipments,
        other,
      )
      (packages_of-attach id old dto.package_ids st.packages other, refl)

-- Printing a label, then cancelling, succeeds whatever the status was: a delivered or a returned
-- shipment is cancelled, with its dates as they were.
pub update_status-generate_label :
    (id now : ℕ) (format : LabelFormat) (dto : UpdateShipmentStatus) (st : ShippingStore)
    {s : Shipment} {st' : ShippingStore}
    → lookup id st.shipments ≡ some s
    → dto.status ≡ cancelled
    → generate_label id format st ≡ ok st'
    → (st'' : ShippingStore) × (s' : Shipment) × (update_status id now dto st' ≡ ok st'')
      × (lookup id st''.shipments ≡ some s')
      × (s'.status ≡ cancelled)
      × (s'.shipped_at ≡ s.shipped_at)
      × (s'.delivered_at ≡ s.delivered_at)
unfolding generate_label moved
update_status-generate_label id now format dto st {s = s} found target h =
    let labelled : Shipment = record s { label = some (label_of id format s); status = labeled } in
    let shipments = insert id labelled st.shipments in
    let stored = sym (ok-injective (rw found at h)) in
    let there : lookup id shipments ≡ some labelled = lookup-insert_self id labelled st.shipments in
    rw stored (
      _,
      moved now dto labelled,
      update_status-of_edge id now dto (record st { shipments = shipments }) there
          (rw target withdraw),
      lookup-insert_self id (moved now dto labelled) shipments,
      target,
      rw target refl,
      rw target refl,
    )
