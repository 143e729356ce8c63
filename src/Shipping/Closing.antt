-- ===== src/Shipping/Closing.antt =====
-- How many status updates a shipment can take, and that it can always be brought to an end.
use werehouse.Prelude.{
  ℕ, suc, ◌+◌, ◌*◌, ◌≤◌, ◌≡◌, ◌⊎◌, refl, ap, subst, inl, inr, Option, none, some, arith,
}
use werehouse.Prelude.Tests.{nat_beq_iff, Bool-cases}
use werehouse.Prelude.Table.{nat_eq, ◌==◌, lookup, insert, lookup-insert, lookup-insert_self}
use werehouse.Shipping.{
  ShipmentStatus, pending, labeled, dispatched, in_transit, delivered, returned, cancelled,
  Shipment, ShippingStore, UpdateShipmentStatus, label_of, create_package, packages_of, recounted,
  moved,
}
use werehouse.Shipping.Lifecycle.{
  ◌⟶◌, print, drop, leave, withdraw, travel, hand_over, come_back, arrive, turn_round, send_back,
  update_status-Moved, update_status-of_edge,
}
use werehouse.Shipping.Reachable.{
  Step, hires, rehires, packs, ships, recounts, labels, updates, counted, label-stored,
  create_carrier-shipments, update_carrier-shipments, Run, stop, next, recalculate-stored,
  create-stored,
}

-- The updates that a status leaves.
abbrev pub rank : ShipmentStatus → ℕ
rank pending = 5
rank labeled = 4
rank dispatched = 3
rank in_transit = 2
rank delivered = 1
rank returned = 0
rank cancelled = 0

rank-⟶ : {a b : ShipmentStatus} → a ⟶ b → suc (rank b) ≤ rank a
rank-⟶ print = omega arith
rank-⟶ drop = omega arith
rank-⟶ leave = omega arith
rank-⟶ withdraw = omega arith
rank-⟶ travel = omega arith
rank-⟶ hand_over = omega arith
rank-⟶ come_back = omega arith
rank-⟶ arrive = omega arith
rank-⟶ turn_round = omega arith
rank-⟶ send_back = omega arith

-- The shipment is still there, and the updates are paid by its rank and by four for each label.
abbrev Paid : ℕ → ℕ → ℕ → ShippingStore → Shipment → Type 0
Paid id n k st' s =
    (s' : Shipment) × (lookup id st'.shipments ≡ some s')
    × (n + rank s'.status ≤ rank s.status + 4 * k)

Step-Paid :
    (id : ℕ) {target printed : Option ℕ} {st st' : ShippingStore} {s : Shipment}
    → Step target printed st st'
    → lookup id st.shipments ≡ some s
    → Paid id (counted id target) (counted id printed) st' s
unfolding create_package recounted moved
Step-Paid id {st = st} {s = s} (hires k code active done) found =
    (s, rw (create_carrier-shipments k code active st done) found, omega arith)
Step-Paid id {st = st} {s = s} (rehires k active done) found =
    (s, rw (update_carrier-shipments k active st done) found, omega arith)
Step-Paid id {s = s} (packs k now dto) found = (s, found, omega arith)
Step-Paid id {st = st} {s = s} (ships k dto new made) found = elim (Bool-cases (k == id)) [
  | inl same ↦ cc (ap (λ x. lookup x st.shipments) ((nat_beq_iff k id).0 same), new, found)
  | inr other ↦ (
    s,
    rw
        (
          create-stored k dto st made,
          lookup-insert k id _ (insert k _ st.shipments),
          lookup-insert k id _ st.shipments,
          other,
        )
        found,
    omega arith,
  )
]
Step-Paid id {st = st} {s = s} (recounts k done) found =
    let (o, at_k, stored) = recalculate-stored k st done in
    elim (Bool-cases (k == id)) [
      | inl same ↦
          let e : o ≡ s =
            cc (ap (λ x. lookup x st.shipments) ((nat_beq_iff k id).0 same), at_k, found) in
          (
            recounted (packages_of k st.packages) o,
            rw (stored, lookup-insert k id _ st.shipments, same) refl,
            rw e (omega arith),
          )
      | inr other ↦ (s, rw (stored, lookup-insert k id _ st.shipments, other) found, omega arith)
    ]
Step-Paid id {st = st} {s = s} (labels k format done) found =
    let (o, at_k, stored) = label-stored k format st done in
    elim (Bool-cases (k == id)) [
      | inl same ↦ (
        record o { label = some (label_of k format o); status = labeled },
        rw (stored, lookup-insert k id _ st.shipments, same) refl,
        rw same (omega arith),
      )
      | inr other ↦
          (s, rw (stored, lookup-insert k id _ st.shipments, other) found, rw other (omega arith))
    ]
Step-Paid id {st = st} {s = s} (updates k now dto done) found =
    let m = update_status-Moved k now dto st done in
    elim (Bool-cases (k == id)) [
      | inl same ↦
          let e : m.before ≡ s =
            cc (ap (λ x. lookup x st.shipments) ((nat_beq_iff k id).0 same), m.found, found) in
          (
            moved now dto m.before,
            rw (m.stored, lookup-insert k id _ st.shipments, same) refl,
            rw (same) (omega (arith, rank-⟶ (subst (λ x. x.status ⟶ dto.status) e m.edge))),
          )
      | inr other ↦
          (s, rw (m.stored, lookup-insert k id _ st.shipments, other) found, rw other (omega arith))
    ]

-- In any run of the calls of the service a shipment that is there stays there, and its accepted updates
-- are at most what its rank falls by and four for each label printed of it: without a label at most
-- five in its life, and none once it is returned or cancelled.
pub Run-updates-le :
    (id n k : ℕ) {st st' : ShippingStore} {s : Shipment}
    → lookup id st.shipments ≡ some s
    → Run id n k st st'
    → (s' : Shipment) × (lookup id st'.shipments ≡ some s')
      × (n + rank s'.status ≤ rank s.status + 4 * k)
Run-updates-le id n k {s = s} found stop = (s, found, omega arith)
Run-updates-le id n k found (next step rest) =
    let (s1, found1, le1) = Step-Paid id step found in
    let (s2, found2, le2) = Run-updates-le id _ _ found1 rest in (s2, found2, omega arith)

abbrev request : ShipmentStatus → UpdateShipmentStatus
request to = record { status = to; tracking_number = none; notes = none }

-- One accepted update along an edge.
forward :
    (id : ℕ) (st : ShippingStore) {s : Shipment} {to : ShipmentStatus}
    → lookup id st.shipments ≡ some s
    → s.status ⟶ to
    → (st' : ShippingStore) × Step (some id) none st st'
      × (lookup id st'.shipments ≡ some (moved 0 (request to) s))
forward id st {s = s} {to = to} found edge = (
  record st { shipments = insert id (moved 0 (request to) s) st.shipments },
  updates id 0 (request to) (update_status-of_edge id 0 (request to) st found edge),
  lookup-insert_self id (moved 0 (request to) s) st.shipments,
)

-- A run that ends with the shipment delivered.
abbrev pub Delivers : ℕ → ShippingStore → Type 0
Delivers id st =
    (n : ℕ) × (st' : ShippingStore) × (s' : Shipment) × Run id n 0 st st'
    × (lookup id st'.shipments ≡ some s')
    × (s'.status ≡ delivered)

through :
    (id : ℕ) (st : ShippingStore) {s : Shipment} {to : ShipmentStatus}
    → lookup id st.shipments ≡ some s
    → s.status ⟶ to
    → ((st' : ShippingStore)
        → lookup id st'.shipments ≡ some (moved 0 (request to) s)
        → Delivers id st')
    → Delivers id st
through id st found edge onward =
    let (st1, step, found1) = forward id st found edge in
    let (n, st2, s2, run, found2, end) = onward st1 found1 in
    (_, st2, s2, next step run, found2, end)

deliver_now :
    (id : ℕ) (st : ShippingStore) {s : Shipment}
    → lookup id st.shipments ≡ some s
    → s.status ≡ delivered
    → Delivers id st
deliver_now id st {s = s} found end = (0, st, s, stop, found, end)

deliver_dispatched :
    (id : ℕ) (st : ShippingStore) {s : Shipment}
    → lookup id st.shipments ≡ some s
    → s.status ≡ dispatched
    → Delivers id st
unfolding moved
deliver_dispatched id st found status =
    through id st found (rw status hand_over) (λ st' found'. deliver_now id st' found' refl)

deliver_labeled :
    (id : ℕ) (st : ShippingStore) {s : Shipment}
    → lookup id st.shipments ≡ some s
    → s.status ≡ labeled
    → Delivers id st
unfolding moved
deliver_labeled id st found status =
    through id st found (rw status leave) (λ st' found'. deliver_dispatched id st' found' refl)

-- A shipment that is pending, labeled, dispatched or in transit can be delivered: there is a run of
-- accepted calls, none of which prints a label of it, that ends with it delivered.
pub Run-Delivers :
    (id : ℕ) (st : ShippingStore) {s : Shipment}
    → lookup id st.shipments ≡ some s
    → (s.status ≡ pending)
      ⊎ (s.status ≡ labeled)
      ⊎ (s.status ≡ dispatched)
      ⊎ (s.status ≡ in_transit)
    → (n : ℕ) × (st' : ShippingStore) × (s' : Shipment) × Run id n 0 st st'
      × (lookup id st'.shipments ≡ some s')
      × (s'.status ≡ delivered)
unfolding moved
Run-Delivers id st found (inl status) =
    through id st found (rw status print) (λ st' found'. deliver_labeled id st' found' refl)
Run-Delivers id st found (inr (inl status)) = deliver_labeled id st found status
Run-Delivers id st found (inr (inr (inl status))) = deliver_dispatched id st found status
Run-Delivers id st found (inr (inr (inr status))) =
    through id st found (rw status arrive) (λ st' found'. deliver_now id st' found' refl)
