-- ===== src/Batches/Allocation.antt =====
-- What an allocation draws: backend-nest/src/batches/batches.service.ts, `allocate`.
use werehouse.Batches.Offers.{sellable_units, joined-units}
use werehouse.Prelude.{
  ℕ, zero, suc, ◌+◌, ◌-◌, ◌≤◌, ◌<◌, ◌≡◌, refl, sym, ap, subst, ◌∙◌, true, Option, none, some, List,
  [], ◌∷◌, inl, inr, min, arith,
}
use werehouse.Prelude.Tests.{nat_beq, Bool-cases, Option-cases}
use werehouse.Prelude.Lists.{sum_by, All}
use werehouse.Prelude.Table.{Table, nat_eq, lookup, IsUnique}
use werehouse.Prelude.Int.{ℤ, pos}
use werehouse.Result.{ok, >>=-eq-ok, ok-injective, positive_quantity}
use werehouse.Stock.{Level, require_tenant}
use werehouse.Batches.{
  Batch, BatchKey, same_batch_key, same_batch_key_iff, batch_key_eq, BatchStore, Strategy,
  Candidate, BatchAllocation, is_candidate, candidate_of, joined, in_order, place, order_by,
  candidate_batches, take_from, Allocated, allocate,
}

abbrev pub drawn_units : List BatchAllocation → ℕ
drawn_units allocations = sum_by (λ a. a.quantity) allocations

abbrev pub offered_units : List Candidate → ℕ
offered_units cs = sum_by (λ c. c.available) cs

-- What is drawn and what remains make the request, and what remains is what the candidates lack.
pub take_from_lem :
    (sku q : ℕ) (cs : List Candidate)
    → let r = take_from sku q cs in
      (drawn_units r.0 + r.1 ≡ q) × (drawn_units r.0 ≡ min q (offered_units cs))
unfolding take_from
take_from_lem sku q [] = ground arith
take_from_lem sku q (c ∷ cs) =
    ground (arith, take_from_lem sku q cs, take_from_lem sku (q - min q c.available) cs)

place-offered :
    (s : Strategy) (c : Candidate) (cs : List Candidate)
    → offered_units (place s c cs) ≡ c.available + offered_units cs
unfolding place
place-offered s c [] = omega arith
place-offered s c (d ∷ ds) = ground (arith, place-offered s c ds)

pub order_by-offered :
    (s : Strategy) (cs : List Candidate) → offered_units (order_by s cs) ≡ offered_units cs
unfolding order_by
order_by-offered s [] = refl
order_by-offered s (c ∷ cs) =
    omega (arith, place-offered s c (order_by s cs), order_by-offered s cs)

-- What is drawn and what is short make the request, and what is drawn is the smaller of the request and
-- the units that the sellable rows offer.
abbrev pub Drawn : ℕ → Option ℕ → BatchStore → Allocated → Type 0
Drawn sku location st r =
    (drawn_units r.allocations ≡ r.allocated)
    × (r.allocated + r.shortfall ≡ r.requested)
    × (r.allocated ≡ min r.requested (sellable_units sku location st))

-- What a proposal that succeeded draws.
pub allocate_lem :
    (scope : Option ℕ) (sku : ℕ) (quantity : Option ℤ) (location : Option ℕ) (s : Strategy)
    (st : BatchStore) (r : Allocated)
    → allocate scope sku quantity location s st ≡ ok r
    → (positive_quantity quantity ≡ ok r.requested) × Drawn sku location st r
unfolding allocate candidate_batches
allocate_lem scope sku quantity location s st r h =
    let (q, positive, h1) = >>=-eq-ok (positive_quantity quantity) _ h in
    let (t, scoped, h2) = >>=-eq-ok (require_tenant scope) _ h1 in
    let rows = joined sku location st.batches st.levels in
    let drawn = take_from_lem sku q (order_by s rows) in
    let offered = order_by-offered s rows in
    let units = joined-units sku location st.batches st.levels in
    rw (sym (ok-injective h2))
      (positive, (omega (arith, drawn), omega (arith, drawn), omega (arith, drawn, offered, units)))

-- Within a tenant every request of a positive number of units succeeds: it draws the smaller of the
-- request and the units available of the SKU's available and nearly expired batches at the allowed
-- locations, and reports the rest as short.
pub allocate-Drawn :
    (t sku n : ℕ) (location : Option ℕ) (s : Strategy) (st : BatchStore)
    → 0 < n
    → (r : Allocated) × (allocate (some t) sku (some (pos n)) location s st ≡ ok r)
      × (r.requested ≡ n)
      × Drawn sku location st r
unfolding allocate positive_quantity require_tenant candidate_batches
allocate-Drawn t sku zero location s st positive = absurd (omega arith)
allocate-Drawn t sku (suc n) location s st positive =
    let rows = joined sku location st.batches st.levels in
    let drawn = take_from_lem sku (suc n) (order_by s rows) in
    let offered = order_by-offered s rows in
    let units = joined-units sku location st.batches st.levels in
    (
      _,
      refl,
      refl,
      (omega (arith, drawn), omega (arith, drawn), omega (arith, drawn, offered, units)),
    )

-- An allocation is of a sellable batch of the SKU, at a place the request allows, and asks for some of
-- the units that the row of the sub-ledger has available.
pub record IsBacked (sku : ℕ) (location : Option ℕ) (batches : Table ℕ Batch)
    (levels : Table BatchKey Level) (quantity : ℕ) (batch_id place : ℕ) : Type 0 where
  pub batch : Batch
  pub level : Level
  pub batch_row : lookup batch_id batches ≡ some batch
  pub level_row : lookup (record { batch_id = batch_id; location = place }) levels ≡ some level
  pub passes :
      is_candidate sku location (record { batch_id = batch_id; location = place }) level batch
      ≡ true
  pub enough : quantity ≤ level.available

abbrev pub CandidateBacked :
    ℕ → Option ℕ → Table ℕ Batch → Table BatchKey Level → Candidate → Type 0
CandidateBacked sku location batches levels c =
    IsBacked sku location batches levels c.available c.batch_id c.location

abbrev pub AllocationBacked :
    ℕ → Option ℕ → Table ℕ Batch → Table BatchKey Level → BatchAllocation → Type 0
AllocationBacked sku location batches levels a =
    (0 < a.quantity)
    × (a.sku ≡ sku)
    × IsBacked sku location batches levels a.quantity a.batch_id a.location

weaken :
    (sku : ℕ) (location : Option ℕ) (batches : Table ℕ Batch) (k : BatchKey) (l : Level)
    (levels : Table BatchKey Level) (c : Candidate)
    → lookup k levels ≡ none
    → CandidateBacked sku location batches levels c
    → CandidateBacked sku location batches ((k, l) ∷ levels) c
unfolding lookup
weaken sku location batches k l levels c new b =
    let key : BatchKey = record { batch_id = c.batch_id; location = c.location } in
    record {
      batch = b.batch;
      level = b.level;
      batch_row = b.batch_row;
      level_row = elim (Bool-cases (same_batch_key k key)) [
        | inl same ↦
            cc (
              sym new ∙ ap (λ j. lookup j levels) ((same_batch_key_iff k key).0 same) ∙ b.level_row)
        | inr other ↦ rw other b.level_row
      ];
      passes = b.passes;
      enough = b.enough;
    }

weaken_each :
    (sku : ℕ) (location : Option ℕ) (batches : Table ℕ Batch) (k : BatchKey) (l : Level)
    (levels : Table BatchKey Level) (cs : List Candidate)
    → lookup k levels ≡ none
    → All (CandidateBacked sku location batches levels) cs
    → All (CandidateBacked sku location batches ((k, l) ∷ levels)) cs
weaken_each sku location batches k l levels [] new bs = tt
weaken_each sku location batches k l levels (c ∷ cs) new bs = (
  weaken sku location batches k l levels c new bs.0,
  weaken_each sku location batches k l levels cs new bs.1,
)

joined-backed :
    (sku : ℕ) (location : Option ℕ) (batches : Table ℕ Batch) (levels : Table BatchKey Level)
    → IsUnique levels
    → All (CandidateBacked sku location batches levels) (joined sku location batches levels)
unfolding joined lookup
joined-backed sku location batches [] u = tt
joined-backed sku location batches ((k, l) ∷ levels) u =
    let rest = joined sku location batches levels in
    let further =
      weaken_each sku location batches k l levels rest u.0
        (joined-backed sku location batches levels u.1) in
    let P = CandidateBacked sku location batches ((k, l) ∷ levels) in
    elim (Option-cases (lookup k.batch_id batches)) [
      | inl absent ↦
          let e : joined sku location batches ((k, l) ∷ levels) ≡ rest = ground (arith, absent) in
          subst (All P) (sym e) further
      | inr (b, found) ↦ elim (Bool-cases (is_candidate sku location k l b)) [
        | inl passes ↦
            let e : joined sku location batches ((k, l) ∷ levels) ≡ candidate_of k l b ∷ rest =
              ground (arith, found, passes) in
            let same = (same_batch_key_iff k k).1 refl in
            let row : P (candidate_of k l b) = record {
              batch = b;
              level = l;
              batch_row = found;
              level_row = rw same refl;
              passes = passes;
              enough = omega arith;
            } in
            subst (All P) (sym e) (row, further)
        | inr shut ↦
            let e : joined sku location batches ((k, l) ∷ levels) ≡ rest =
              ground (arith, found, shut) in
            subst (All P) (sym e) further
      ]
    ]

place-All :
    (P : Candidate → Type 0) (s : Strategy) (c : Candidate) (cs : List Candidate)
    → P c
    → All P cs
    → All P (place s c cs)
unfolding place
place-All P s c [] p ps = (p, tt)
place-All P s c (d ∷ ds) p ps = elim (Bool-cases (in_order s c d)) [
  | inl before ↦ rw before (p, ps)
  | inr after ↦ rw after (ps.0, place-All P s c ds p ps.1)
]

pub order_by-All :
    (P : Candidate → Type 0) (s : Strategy) (cs : List Candidate) → All P cs → All P (order_by s cs)
unfolding order_by
order_by-All P s [] ps = tt
order_by-All P s (c ∷ cs) ps = place-All P s c (order_by s cs) ps.0 (order_by-All P s cs ps.1)

take_from-backed :
    (sku : ℕ) (location : Option ℕ) (batches : Table ℕ Batch) (levels : Table BatchKey Level)
    (q : ℕ) (cs : List Candidate)
    → All (CandidateBacked sku location batches levels) cs
    → All (AllocationBacked sku location batches levels) (take_from sku q cs).0
unfolding take_from
take_from-backed sku location batches levels q [] ps = tt
take_from-backed sku location batches levels q (c ∷ cs) ps =
    let take = min q c.available in
    let b = ps.0 in
    elim (Bool-cases (nat_beq q 0)) [
      | inl done ↦ rw done tt
      | inr more ↦ elim (Bool-cases (nat_beq take 0)) [
        | inl nothing ↦
            rw more (rw nothing (take_from-backed sku location batches levels q cs ps.1))
        | inr some_units ↦
            let row : IsBacked sku location batches levels take c.batch_id c.location = record {
              batch = b.batch;
              level = b.level;
              batch_row = b.batch_row;
              level_row = b.level_row;
              passes = b.passes;
              enough = grind (arith, b.enough);
            } in
            rw more (
              rw some_units (
                (ground (arith, some_units), refl, row),
                take_from-backed sku location batches levels (q - take) cs ps.1,
              ))
      ]
    ]

-- Every allocation of a proposal is for some units of a sellable batch of the requested SKU, from a row
-- of the sub-ledger at a location the request allows that has that many units available. The rows of
-- the sub-ledger have different keys.
pub allocate-IsBacked :
    (scope : Option ℕ) (sku : ℕ) (quantity : Option ℤ) (location : Option ℕ) (s : Strategy)
    (st : BatchStore) (r : Allocated)
    → IsUnique st.levels
    → allocate scope sku quantity location s st ≡ ok r
    → All (AllocationBacked sku location st.batches st.levels) r.allocations
unfolding allocate candidate_batches
allocate-IsBacked scope sku quantity location s st r u h =
    let (q, positive, h1) = >>=-eq-ok (positive_quantity quantity) _ h in
    let (t, scoped, h2) = >>=-eq-ok (require_tenant scope) _ h1 in
    let rows = joined sku location st.batches st.levels in
    let P = CandidateBacked sku location st.batches st.levels in
    rw (sym (ok-injective h2)) (
      take_from-backed sku location st.batches st.levels q (order_by s rows)
        (order_by-All P s rows (joined-backed sku location st.batches st.levels u)))
