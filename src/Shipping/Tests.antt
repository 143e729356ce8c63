-- ===== src/Shipping/Tests.antt =====
-- One shipment of two parcels, from the packing bench to the customer.
use werehouse.Prelude.{ℕ, ◌+◌, ◌*◌, ◌≤◌, ◌≡◌, ◌⊎◌, refl, inl, true, none, some, [], ◌∷◌}
use werehouse.Prelude.Table.{nat_eq, lookup, insert}
use werehouse.Prelude.Rows.{AllRows}
use werehouse.Result.{
  ok, err, not_found, conflict, shipment_missing, transition_not_allowed, value_or,
}
use werehouse.Shipping.{
  labeled, delivered, cancelled, code128, shipment_part, tracking_part, parcels_part, weight_part,
  Shipment, ShippingStore, CreatePackage, CreateShipment, UpdateShipmentStatus, new_shipment,
  computed_weight, create_package, packages_of, recounted, recalculate_shipment, attach,
  create_shipment, label_of, generate_label, allowed, moved, update_status,
}
use werehouse.Shipping.Lifecycle.{◌⟶◌, update_status-cases}
use werehouse.Shipping.Reachable.{Run, stop, next, ships, updates, IsDated, Run-AllDated}
use werehouse.Shipping.Closing.{rank, Run-updates-le, Run-Delivers}
use werehouse.Shipping.Parcels.{create_shipment-named, update_status-generate_label}

abbrev parcel : CreatePackage
parcel = record {
  shipment_id = none;
  sales_order_id = none;
  weight = none;
  items =
      record { sku = 5; batch_id = none; quantity = 3 }
      ∷ record { sku = 6; batch_id = none; quantity = 1 }
      ∷ [];
}

abbrev bench : ShippingStore
bench = record {
  unit_weights = (5, some 1204) ∷ (6, none) ∷ [];
  carriers = (1, record { code = 77; is_active = true }) ∷ [];
  packages = [];
  shipments = [];
}

abbrev packed : ShippingStore
packed =
    create_package 21 100 (record parcel { weight = some 500 }) (create_package 20 90 parcel bench)

abbrev consignment : CreateShipment
consignment = record {
  sales_order_id = some 3;
  sales_invoice_id = none;
  carrier_id = some 1;
  tracking_number = none;
  notes = none;
  package_ids = 20 ∷ 21 ∷ 99 ∷ [];
}

abbrev made : ShippingStore
made = value_or packed (create_shipment 8 consignment packed)

abbrev row : Shipment
row = record (new_shipment consignment) { package_count = 2; total_weight = 4112 }

abbrev to : UpdateShipmentStatus
to = record { status = labeled; tracking_number = some 555; notes = none }

abbrev sent : ShippingStore
sent = value_or made (update_status 8 200 to made)

abbrev lost : UpdateShipmentStatus
lost = record to { status = delivered }

update_status-cases_example :
    ((lookup 8 made.shipments ≡ none)
      × (update_status 8 200 lost made ≡ err (not_found shipment_missing)))
    ⊎ ((s : Shipment) × (lookup 8 made.shipments ≡ some s)
        × (((s.status ⟶ delivered)
              × (update_status 8 200 lost made
                  ≡ ok (record made { shipments = insert 8 (moved 200 lost s) made.shipments })))
            ⊎ (¬ (s.status ⟶ delivered)
                × (update_status 8 200 lost made ≡ err (conflict transition_not_allowed)))))
update_status-cases_example = update_status-cases 8 200 lost made

two_calls : Run 8 1 0 packed sent
unfolding create_shipment create_package computed_weight attach packages_of recounted
    recalculate_shipment update_status allowed moved lookup insert
two_calls = next (ships 8 consignment refl refl) (next (updates 8 200 to refl) stop)

Run-AllDated_example : AllRows IsDated sent.shipments
unfolding create_package
Run-AllDated_example = Run-AllDated 8 1 0 tt two_calls

one_call : Run 8 1 0 made sent
unfolding create_shipment create_package computed_weight attach packages_of recounted
    recalculate_shipment update_status allowed moved lookup insert
one_call = next (updates 8 200 to refl) stop

stored_row : lookup 8 made.shipments ≡ some row
unfolding create_shipment create_package computed_weight attach packages_of recounted
    recalculate_shipment lookup insert
stored_row = create_shipment-named 8 consignment packed (refl, (refl, tt)) refl

Run-updates-le_example :
    (s' : Shipment) × (lookup 8 sent.shipments ≡ some s')
    × (1 + rank s'.status ≤ rank row.status + 4 * 0)
Run-updates-le_example = Run-updates-le 8 1 0 stored_row one_call

Run-Delivers_example :
    (n : ℕ) × (st' : ShippingStore) × (s' : Shipment) × Run 8 n 0 made st'
    × (lookup 8 st'.shipments ≡ some s')
    × (s'.status ≡ delivered)
Run-Delivers_example = Run-Delivers 8 made stored_row (inl refl)

abbrev finished : ShippingStore
finished = record made {
  shipments =
      (8, record row { status = delivered; shipped_at = some 300; delivered_at = some 400 }) ∷ [];
}

abbrev printed : ShippingStore
printed = value_or finished (generate_label 8 code128 finished)

abbrev scrapped : UpdateShipmentStatus
scrapped = record to { status = cancelled }

update_status-generate_label_example :
    (st'' : ShippingStore) × (s' : Shipment) × (update_status 8 500 scrapped printed ≡ ok st'')
    × (lookup 8 st''.shipments ≡ some s')
    × (s'.status ≡ cancelled)
    × (s'.shipped_at ≡ some 300)
    × (s'.delivered_at ≡ some 400)
unfolding generate_label label_of lookup insert
update_status-generate_label_example =
    update_status-generate_label 8 500 code128 scrapped finished refl refl refl

label_parts :
    (label_of 8 code128 (record row { tracking_number = some 555 })).payload
    ≡ shipment_part 8 ∷ tracking_part 555 ∷ parcels_part 2 ∷ weight_part 411 ∷ []
unfolding label_of
label_parts = refl
