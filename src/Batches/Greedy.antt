-- ===== src/Batches/Greedy.antt =====
-- The order in which an allocation draws: backend-nest/src/batches/batches.service.ts,
-- `candidateBatches` and the loop of `allocate`.
use mathlib.Core.List.{Memᴰ}
use mathlib.Core.List.Memᴰ.{head, tail}
use werehouse.Prelude.{
  ℕ, ◌<◌, ◌≤◌, not, ◌&&◌, ◌||◌, none, some, ◌-◌, ◌≡◌, refl, sym, ap, subst, ◌∙◌, true, false,
  Option, List, [], ◌∷◌, ◌++◌, inl, inr, min, arith,
}
use werehouse.Prelude.Tests.{leb, nat_beq, Bool-cases}
use werehouse.Prelude.Lists.{All}
use werehouse.Prelude.Int.{ℤ}
use werehouse.Result.{ok, >>=-eq-ok, ok-injective, positive_quantity}
use werehouse.Stock.{require_tenant}
use werehouse.Batches.{
  BatchStore, Strategy, fefo, fifo, Candidate, BatchAllocation, in_order, place, order_by,
  expires_before, allocation_of, candidate_batches, take_from, Allocated, allocate, joined,
}
use werehouse.Batches.Offers.{
  sellable_units, joined-units, IsOffer, joined-IsOffer, ExpiresFirst, ComesFirst, InSequence,
}
use werehouse.Batches.Allocation.{
  drawn_units, offered_units, take_from_lem, order_by-offered, order_by-All,
}

abbrev pub IsInOrder : Strategy → List Candidate → Type 0
IsInOrder s [] = Unit
IsInOrder s (c ∷ cs) = All (λ d. in_order s c d ≡ true) cs × IsInOrder s cs

in_order_total : (s : Strategy) (a b : Candidate) → in_order s a b ≡ false → in_order s b a ≡ true
unfolding in_order
in_order_total fifo a b h = ground arith
in_order_total fefo a b h = ground arith

in_order_trans :
    (s : Strategy) (a b c : Candidate)
    → in_order s a b ≡ true
    → in_order s b c ≡ true
    → in_order s a c ≡ true
unfolding in_order
in_order_trans fifo a b c h k = ground arith
in_order_trans fefo a b c h k = ground arith

below_each :
    (s : Strategy) (a b : Candidate) (cs : List Candidate)
    → in_order s a b ≡ true
    → All (λ d. in_order s b d ≡ true) cs
    → All (λ d. in_order s a d ≡ true) cs
below_each s a b [] h hs = tt
below_each s a b (c ∷ cs) h hs = (in_order_trans s a b c h hs.0, below_each s a b cs h hs.1)

place-All :
    (s : Strategy) (a c : Candidate) (cs : List Candidate)
    → in_order s a c ≡ true
    → All (λ d. in_order s a d ≡ true) cs
    → All (λ d. in_order s a d ≡ true) (place s c cs)
unfolding place
place-All s a c [] h hs = (h, tt)
place-All s a c (d ∷ ds) h hs = elim (Bool-cases (in_order s c d)) [
  | inl before ↦ rw before (h, hs)
  | inr after ↦ rw after (hs.0, place-All s a c ds h hs.1)
]

place-IsInOrder :
    (s : Strategy) (c : Candidate) (cs : List Candidate)
    → IsInOrder s cs
    → IsInOrder s (place s c cs)
unfolding place
place-IsInOrder s c [] h = (tt, tt)
place-IsInOrder s c (d ∷ ds) h = elim (Bool-cases (in_order s c d)) [
  | inl before ↦ rw before ((before, below_each s c d ds before h.0), h)
  | inr after ↦
      rw after (place-All s d c ds (in_order_total s c d after) h.0, place-IsInOrder s c ds h.1)
]

order_by-IsInOrder : (s : Strategy) (cs : List Candidate) → IsInOrder s (order_by s cs)
unfolding order_by
order_by-IsInOrder s [] = tt
order_by-IsInOrder s (c ∷ cs) = place-IsInOrder s c (order_by s cs) (order_by-IsInOrder s cs)

take_from_zero : (sku : ℕ) (cs : List Candidate) → take_from sku 0 cs ≡ ([], 0)
unfolding take_from
take_from_zero sku [] = refl
take_from_zero sku (c ∷ cs) = refl

-- A list drawn in two parts.
take_from-append :
    (sku q : ℕ) (xs ys : List Candidate)
    → let r = take_from sku q xs in
      let r' = take_from sku r.1 ys in take_from sku q (xs ++ ys) ≡ (r.0 ++ r'.0, r'.1)
unfolding take_from
take_from-append sku q [] ys = refl
take_from-append sku q (c ∷ cs) ys = elim (Bool-cases (nat_beq q 0)) [
  | inl done ↦ let e : q ≡ 0 = ground arith in rw done (rw e (rw (take_from_zero sku ys) refl))
  | inr more ↦ elim (Bool-cases (nat_beq (min q c.available) 0)) [
    | inl nothing ↦ rw more (rw nothing (take_from-append sku q cs ys))
    | inr some_units ↦
        rw more (rw some_units (rw (take_from-append sku (q - min q c.available) cs ys) refl))
  ]
]

expires_before-ExpiresFirst :
    (x y : Option ℕ) (m n : ℕ)
    → (expires_before x y || (not (expires_before y x) && leb m n)) ≡ true
    → ExpiresFirst x y m n
expires_before-ExpiresFirst none none m n h = ground arith
expires_before-ExpiresFirst (some a) none m n h = tt
expires_before-ExpiresFirst none (some b) m n h = ground arith
expires_before-ExpiresFirst (some a) (some b) m n h = ground arith

in_order-ComesFirst : (s : Strategy) (c d : Candidate) → in_order s c d ≡ true → ComesFirst s c d
unfolding in_order
in_order-ComesFirst fifo c d h = ground arith
in_order-ComesFirst fefo c d h =
    expires_before-ExpiresFirst c.expiry_date d.expiry_date c.created_at d.created_at h

first_of_all :
    (s : Strategy) (c : Candidate) (cs : List Candidate)
    → All (λ d. in_order s c d ≡ true) cs
    → All (ComesFirst s c) cs
first_of_all s c [] h = tt
first_of_all s c (d ∷ cs) h = (in_order-ComesFirst s c d h.0, first_of_all s c cs h.1)

IsInOrder-InSequence : (s : Strategy) (cs : List Candidate) → IsInOrder s cs → InSequence s cs
IsInOrder-InSequence s [] h = tt
IsInOrder-InSequence s (c ∷ cs) h = (first_of_all s c cs h.0, IsInOrder-InSequence s cs h.1)

-- An allocation of some of the units that one of the candidates offers.
pub record IsDrawn (sku : ℕ) (cs : List Candidate) (a : BatchAllocation) : Type 0 where
  pub row : Candidate
  pub among : Memᴰ row cs
  pub batch : a.batch_id ≡ row.batch_id
  pub place : a.location ≡ row.location
  pub product : a.sku ≡ sku
  pub cost : a.unit_cost ≡ row.unit_cost
  pub some_units : 0 < a.quantity
  pub enough : a.quantity ≤ row.available

IsDrawn-tail :
    (sku : ℕ) (c : Candidate) (cs : List Candidate) (allocations : List BatchAllocation)
    → All (IsDrawn sku cs) allocations
    → All (IsDrawn sku (c ∷ cs)) allocations
IsDrawn-tail sku c cs [] h = tt
IsDrawn-tail sku c cs (a ∷ rest) h =
    let d = h.0 in
    (
      record {
        row = d.row;
        among = tail d.among;
        batch = d.batch;
        place = d.place;
        product = d.product;
        cost = d.cost;
        some_units = d.some_units;
        enough = d.enough;
      },
      IsDrawn-tail sku c cs rest h.1,
    )

take_from-IsDrawn : (sku q : ℕ) (cs : List Candidate) → All (IsDrawn sku cs) (take_from sku q cs).0
unfolding take_from
take_from-IsDrawn sku q [] = tt
take_from-IsDrawn sku q (c ∷ cs) =
    let take = min q c.available in
    elim (Bool-cases (nat_beq q 0)) [
      | inl done ↦ rw done tt
      | inr more ↦ elim (Bool-cases (nat_beq take 0)) [
        | inl nothing ↦ rw more (rw nothing (IsDrawn-tail sku c cs _ (take_from-IsDrawn sku q cs)))
        | inr some_left ↦
            let row : IsDrawn sku (c ∷ cs) (allocation_of sku take c) = record {
              row = c;
              among = head refl;
              batch = refl;
              place = refl;
              product = refl;
              cost = refl;
              some_units = ground (arith, some_left);
              enough = omega arith;
            } in
            rw more
              (rw some_left (row, IsDrawn-tail sku c cs _ (take_from-IsDrawn sku (q - take) cs)))
      ]
    ]

-- A proposal goes through a list of candidates: each is a row of the sub-ledger with units available,
-- of an available or nearly expired batch of the SKU at a location the request allows, together they
-- offer all the units of such rows, and they stand in the order of the strategy (for FEFO the earliest
-- expiry first, a row without one last, then the earliest receipt; for FIFO the earliest receipt
-- first). The proposal is greedy: wherever that list is cut in two, each of its first allocations
-- draws some units of a candidate of the first part, together the smaller of the request and what
-- that part offers, and each of the others of a candidate of the second, for what is then missing.
pub allocate-greedy :
    (scope : Option ℕ) (sku : ℕ) (quantity : Option ℤ) (location : Option ℕ) (s : Strategy)
    (st : BatchStore) (r : Allocated) (xs ys : List Candidate)
    → allocate scope sku quantity location s st ≡ ok r
    → candidate_batches sku location s st ≡ xs ++ ys
    → All (IsOffer sku location st.batches st.levels) (xs ++ ys)
      × (offered_units (xs ++ ys) ≡ sellable_units sku location st)
      × InSequence s (xs ++ ys)
      × ((a : List BatchAllocation) × (b : List BatchAllocation) × (r.allocations ≡ a ++ b)
          × All (IsDrawn sku xs) a
          × All (IsDrawn sku ys) b
          × (drawn_units a ≡ min r.requested (offered_units xs))
          × (drawn_units b ≡ min (r.requested - offered_units xs) (offered_units ys)))
unfolding allocate candidate_batches
allocate-greedy scope sku quantity location s st r xs ys h cut =
    let (q, positive, h1) = >>=-eq-ok (positive_quantity quantity) _ h in
    let (t, scoped, h2) = >>=-eq-ok (require_tenant scope) _ h1 in
    let e = ok-injective h2 in
    let rows = joined sku location st.batches st.levels in
    let P = IsOffer sku location st.batches st.levels in
    let offers = order_by-All P s rows (joined-IsOffer sku location st.batches st.levels) in
    let ordered = IsInOrder-InSequence s _ (order_by-IsInOrder s rows) in
    let total = order_by-offered s rows ∙ joined-units sku location st.batches st.levels in
    let first = take_from_lem sku q xs in
    let left = (take_from sku q xs).1 in
    let second = take_from_lem sku left ys in
    let parts =
      ap (λ cs. (take_from sku q cs).0) cut ∙ ap (λ p. p.0) (take_from-append sku q xs ys) in
    rw (sym e) (
      subst (All P) cut offers,
      subst (λ cs. offered_units cs ≡ sellable_units sku location st) cut total,
      subst (InSequence s) cut ordered,
      (
        (take_from sku q xs).0,
        (take_from sku left ys).0,
        parts,
        take_from-IsDrawn sku q xs,
        take_from-IsDrawn sku left ys,
        first.1,
        omega (arith, first, second),
      ),
    )
