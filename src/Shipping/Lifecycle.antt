-- ===== src/Shipping/Lifecycle.antt =====
-- What a status update does to a shipment, and what it refuses.
use werehouse.Prelude.{ℕ, ◌≡◌, ◌⊎◌, refl, sym, inl, inr, Bool, true, not, none, some, map, arith}
use werehouse.Prelude.Tests.{Bool-cases, Option-cases}
use werehouse.Prelude.Table.{nat_eq, lookup, insert}
use werehouse.Result.{
  ok, err, not_found, conflict, >>=-eq-ok, or_throw, or_throw-ok, throw_if, throw_if-ok,
  ok-injective, shipment_missing, transition_not_allowed,
}
use werehouse.Shipping.{
  ShipmentStatus, pending, labeled, dispatched, in_transit, delivered, returned, cancelled,
  Shipment, ShippingStore, UpdateShipmentStatus, includes, allowed, status_code, moved,
  update_status,
}

-- The diagram of the statuses.
infix 40 ◌⟶◌
pub data ◌⟶◌ : ShipmentStatus → ShipmentStatus → Type 0 where
  print : pending ⟶ labeled
  drop : pending ⟶ cancelled
  leave : labeled ⟶ dispatched
  withdraw : labeled ⟶ cancelled
  travel : dispatched ⟶ in_transit
  hand_over : dispatched ⟶ delivered
  come_back : dispatched ⟶ returned
  arrive : in_transit ⟶ delivered
  turn_round : in_transit ⟶ returned
  send_back : delivered ⟶ returned

pub ruleset edges =
    (print, drop, leave, withdraw, travel, hand_over, come_back, arrive, turn_round, send_back)

-- `allowed[from].includes(to)`
abbrev pub may_move : ShipmentStatus → ShipmentStatus → Bool
unfolding allowed
may_move from to = includes (status_code to) (map status_code (allowed from))

pub may_move-⟶ : (from to : ShipmentStatus) → may_move from to ≡ true → from ⟶ to
unfolding allowed
may_move-⟶ from to h = grind (arith, edges)

pub ⟶-may_move : {from to : ShipmentStatus} → from ⟶ to → may_move from to ≡ true
unfolding allowed
⟶-may_move print = refl
⟶-may_move drop = refl
⟶-may_move leave = refl
⟶-may_move withdraw = refl
⟶-may_move travel = refl
⟶-may_move hand_over = refl
⟶-may_move come_back = refl
⟶-may_move arrive = refl
⟶-may_move turn_round = refl
⟶-may_move send_back = refl

-- What an accepted update did.
pub record Moved (id now : ℕ) (dto : UpdateShipmentStatus) (st st' : ShippingStore) : Type 0 where
  pub before : Shipment
  pub found : lookup id st.shipments ≡ some before
  pub edge : before.status ⟶ dto.status
  pub stored : st' ≡ record st { shipments = insert id (moved now dto before) st.shipments }

pub update_status-Moved :
    (id now : ℕ) (dto : UpdateShipmentStatus) (st : ShippingStore) {st' : ShippingStore}
    → update_status id now dto st ≡ ok st'
    → Moved id now dto st st'
unfolding update_status
update_status-Moved id now dto st h =
    let (s, hs, h1) = >>=-eq-ok (or_throw (lookup id st.shipments) _) _ h in
    let (u, hu, h2) = >>=-eq-ok (throw_if (not (may_move s.status dto.status)) _) _ h1 in
    let accepted : may_move s.status dto.status ≡ true = ground (arith, throw_if-ok _ _ hu) in
    record {
      before = s;
      found = or_throw-ok _ _ hs;
      edge = may_move-⟶ _ _ accepted;
      stored = sym (ok-injective h2);
    }

pub update_status-of_edge :
    (id now : ℕ) (dto : UpdateShipmentStatus) (st : ShippingStore) {s : Shipment}
    → lookup id st.shipments ≡ some s
    → s.status ⟶ dto.status
    → update_status id now dto st
      ≡ ok (record st { shipments = insert id (moved now dto s) st.shipments })
unfolding update_status
update_status-of_edge id now dto st found edge = rw (found, ⟶-may_move edge) refl

-- Every status update has one of three outcomes: an unknown shipment is not found; an edge of the
-- diagram is accepted, and stores the shipment moved along it; and where the diagram has no such
-- edge the update is a conflict.
pub update_status-cases :
    (id now : ℕ) (dto : UpdateShipmentStatus) (st : ShippingStore)
    → ((lookup id st.shipments ≡ none)
        × (update_status id now dto st ≡ err (not_found shipment_missing)))
      ⊎ ((s : Shipment) × (lookup id st.shipments ≡ some s)
          × (((s.status ⟶ dto.status)
                × (update_status id now dto st
                    ≡ ok (record st { shipments = insert id (moved now dto s) st.shipments })))
              ⊎ (¬ (s.status ⟶ dto.status)
                  × (update_status id now dto st ≡ err (conflict transition_not_allowed)))))
unfolding update_status
update_status-cases id now dto st = elim (Option-cases (lookup id st.shipments)) [
  | inl missing ↦ inl (missing, rw missing refl)
  | inr (s, found) ↦ elim (Bool-cases (may_move s.status dto.status)) [
    | inl accepted ↦
        let edge = may_move-⟶ _ _ accepted in
        inr (s, found, inl (edge, update_status-of_edge id now dto st found edge))
    | inr refused ↦ inr (s, found, inr (λ e. cc (⟶-may_move e, refused), rw (found, refused) refl))
  ]
]
