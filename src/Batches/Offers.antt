-- ===== src/Batches/Offers.antt =====
-- Which rows of the sub-ledger may be sold, apart from the query of `candidateBatches` in
-- backend-nest/src/batches/batches.service.ts, and that the query finds these.
use mathlib.Core.List.{Memᴰ}
use mathlib.Core.List.Memᴰ.{head, tail}
use werehouse.Prelude.{
  ℕ, ◌<◌, ◌≤◌, ◌≡◌, ◌⊎◌, refl, subst, sym, ap, true, inl, inr, Option, none, some, List, [], ◌∷◌,
  arith,
}
use werehouse.Prelude.Tests.{nat_beq, if◌then◌else◌, Bool-cases, Option-cases}
use werehouse.Prelude.Lists.{All, sum_by}
use werehouse.Prelude.Table.{Table, nat_eq, lookup}
use werehouse.Stock.{Level}
use werehouse.Batches.{
  BatchStatus, available, quarantine, near_expiry, expired, consumed, rejected, is_sellable, Batch,
  BatchKey, BatchStore, Strategy, fefo, fifo, Candidate, at_location, is_candidate, candidate_of,
  joined,
}

-- The units that a row offers of a SKU: those available of an available or nearly expired batch of the
-- SKU, at a location the request allows.
abbrev pub sold_units : BatchStatus → ℕ → ℕ
sold_units available n = n
sold_units near_expiry n = n
sold_units quarantine n = 0
sold_units expired n = 0
sold_units consumed n = 0
sold_units rejected n = 0

abbrev pub units_there : Option ℕ → ℕ → ℕ → ℕ
units_there none place n = n
units_there (some location) place n = if nat_beq place location then n else 0

abbrev pub units_of : ℕ → Option ℕ → Table ℕ Batch → BatchKey × Level → ℕ
units_of sku location batches (k, l) = elim (lookup k.batch_id batches) [
  | none ↦ 0
  | some b ↦
      if nat_beq b.sku sku
      then sold_units b.status (units_there location k.location l.available)
      else 0
]

abbrev pub sellable_units : ℕ → Option ℕ → BatchStore → ℕ
sellable_units sku location st = sum_by (units_of sku location st.batches) st.levels

candidate-units :
    (sku : ℕ) (location : Option ℕ) (k : BatchKey) (l : Level) (b : Batch)
    → (if is_candidate sku location k l b then l.available else 0) ≡ (
        if nat_beq b.sku sku
        then sold_units b.status (units_there location k.location l.available)
        else 0)
candidate-units sku none k l b = ground arith
candidate-units sku (some location) k l b = ground arith

pub joined-units :
    (sku : ℕ) (location : Option ℕ) (batches : Table ℕ Batch) (levels : Table BatchKey Level)
    → sum_by (λ (c : Candidate). c.available) (joined sku location batches levels)
      ≡ sum_by (units_of sku location batches) levels
unfolding joined
joined-units sku location batches [] = refl
joined-units sku location batches ((k, l) ∷ levels) =
    let rest = joined sku location batches levels in
    let further = joined-units sku location batches levels in
    let U = λ (cs : List Candidate). sum_by (λ (c : Candidate). c.available) cs in
    elim (Option-cases (lookup k.batch_id batches)) [
      | inl absent ↦
          let e : joined sku location batches ((k, l) ∷ levels) ≡ rest = ground (arith, absent) in
          let units : units_of sku location batches (k, l) ≡ 0 = rw (units_of, absent) refl in
          omega (arith, ap U e, further, units)
      | inr (b, found) ↦
          let same = candidate-units sku location k l b in
          let units : units_of sku location batches (k, l) ≡ (
              if nat_beq b.sku sku
              then sold_units b.status (units_there location k.location l.available)
              else 0) =
            rw (units_of, found) refl in
          elim (Bool-cases (is_candidate sku location k l b)) [
            | inl passes ↦
                let e : joined sku location batches ((k, l) ∷ levels) ≡ candidate_of k l b ∷ rest =
                  ground (arith, found, passes) in
                omega (arith, ap U e, further, units, rw passes at same)
            | inr shut ↦
                let e : joined sku location batches ((k, l) ∷ levels) ≡ rest =
                  ground (arith, found, shut) in
                omega (arith, ap U e, further, units, rw shut at same)
          ]
    ]

abbrev pub IsAllowed : Option ℕ → ℕ → Type 0
IsAllowed none place = Unit
IsAllowed (some location) place = place ≡ location

-- A candidate is a row of the sub-ledger with units available, of an available or nearly expired batch
-- of the SKU, at a location the request allows, with the dates of that batch.
pub record IsOffer (sku : ℕ) (location : Option ℕ) (batches : Table ℕ Batch)
    (levels : Table BatchKey Level) (c : Candidate) : Type 0 where
  pub level : Level
  pub batch : Batch
  pub level_row : Memᴰ (record { batch_id = c.batch_id; location = c.location }, level) levels
  pub batch_row : lookup c.batch_id batches ≡ some batch
  pub of_sku : batch.sku ≡ sku
  pub sold : (batch.status ≡ available) ⊎ (batch.status ≡ near_expiry)
  pub allowed : IsAllowed location c.location
  pub some_units : 0 < level.available
  pub units : c.available ≡ level.available
  pub expiry : c.expiry_date ≡ batch.expiry_date
  pub created : c.created_at ≡ batch.created_at

sellable-sold : (s : BatchStatus) → is_sellable s ≡ true → (s ≡ available) ⊎ (s ≡ near_expiry)
sellable-sold s h = ground arith

at_location-IsAllowed :
    (location : Option ℕ) (place : ℕ) → at_location location place ≡ true → IsAllowed location place
at_location-IsAllowed none place h = tt
at_location-IsAllowed (some location) place h = ground arith

IsOffer-tail :
    (sku : ℕ) (location : Option ℕ) (batches : Table ℕ Batch) (row : BatchKey × Level)
    (levels : Table BatchKey Level) (cs : List Candidate)
    → All (IsOffer sku location batches levels) cs
    → All (IsOffer sku location batches (row ∷ levels)) cs
IsOffer-tail sku location batches row levels [] h = tt
IsOffer-tail sku location batches row levels (c ∷ cs) h =
    let o = h.0 in
    (
      record {
        level = o.level;
        batch = o.batch;
        level_row = tail o.level_row;
        batch_row = o.batch_row;
        of_sku = o.of_sku;
        sold = o.sold;
        allowed = o.allowed;
        some_units = o.some_units;
        units = o.units;
        expiry = o.expiry;
        created = o.created;
      },
      IsOffer-tail sku location batches row levels cs h.1,
    )

pub joined-IsOffer :
    (sku : ℕ) (location : Option ℕ) (batches : Table ℕ Batch) (levels : Table BatchKey Level)
    → All (IsOffer sku location batches levels) (joined sku location batches levels)
unfolding joined
joined-IsOffer sku location batches [] = tt
joined-IsOffer sku location batches ((k, l) ∷ levels) =
    let further =
      IsOffer-tail sku location batches (k, l) levels (joined sku location batches levels)
        (joined-IsOffer sku location batches levels) in
    let rest = joined sku location batches levels in
    let P = IsOffer sku location batches ((k, l) ∷ levels) in
    elim (Option-cases (lookup k.batch_id batches)) [
      | inl absent ↦
          let e : joined sku location batches ((k, l) ∷ levels) ≡ rest = ground (arith, absent) in
          subst (All P) (sym e) further
      | inr (b, found) ↦ elim (Bool-cases (is_candidate sku location k l b)) [
        | inl passes ↦
            let e : joined sku location batches ((k, l) ∷ levels) ≡ candidate_of k l b ∷ rest =
              ground (arith, found, passes) in
            let row : P (candidate_of k l b) = record {
              level = l;
              batch = b;
              level_row = head refl;
              batch_row = found;
              of_sku = ground arith;
              sold = sellable-sold b.status (ground arith);
              allowed = at_location-IsAllowed location k.location (ground arith);
              some_units = ground arith;
              units = refl;
              expiry = refl;
              created = refl;
            } in
            subst (All P) (sym e) (row, further)
        | inr shut ↦
            let e : joined sku location batches ((k, l) ∷ levels) ≡ rest =
              ground (arith, found, shut) in
            subst (All P) (sym e) further
      ]
    ]

-- The order of a strategy: by receipt for FIFO; for FEFO by expiry, a row without one last, and by
-- receipt among equals.
abbrev pub ExpiresFirst : Option ℕ → Option ℕ → ℕ → ℕ → Type 0
ExpiresFirst none none m n = m ≤ n
ExpiresFirst (some a) none m n = Unit
ExpiresFirst none (some b) m n = 1 ≤ 0
ExpiresFirst (some a) (some b) m n = (a < b) ⊎ ((a ≡ b) × (m ≤ n))

abbrev pub ComesFirst : Strategy → Candidate → Candidate → Type 0
ComesFirst fifo c d = c.created_at ≤ d.created_at
ComesFirst fefo c d = ExpiresFirst c.expiry_date d.expiry_date c.created_at d.created_at

abbrev pub InSequence : Strategy → List Candidate → Type 0
InSequence s [] = Unit
InSequence s (c ∷ cs) = All (ComesFirst s c) cs × InSequence s cs
