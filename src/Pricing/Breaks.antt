-- ===== src/Pricing/Breaks.antt =====
-- Which quantity break the engine picks.
use mathlib.Core.List.{Memᴰ}
use mathlib.Core.List.Memᴰ
use mathlib.Core.List.Memᴰ.{head, tail}
use werehouse.Prelude.{
  ℕ, ◌≤◌, ◌≡◌, ◌⊎◌, refl, ap, ◌∙◌, Bool, ◌&&◌, inl, inr, true, false, Option, none, some, List, [],
  ◌∷◌, map, arith,
}
use werehouse.Prelude.Tests.{leb, nat_beq, nat_beq_iff, Bool-cases}
use werehouse.Prelude.Lists.{All}
use werehouse.Prelude.Table.{Table}
use werehouse.Pricing.{ProductPrice, PriceTier}
use werehouse.Pricing.Engine.{
  has_begun, not_over, reaches, find_break, place_price, by_min_quantity, valid_prices, tier_prices,
}

abbrev IsDescending : List ProductPrice → Type 0
IsDescending [] = Unit
IsDescending (p ∷ ps) = All (λ q. q.min_quantity ≤ p.min_quantity) ps × IsDescending ps

module _ (P : ProductPrice → Type 0) where
  place-All :
      (p : ProductPrice) (ps : List ProductPrice) → P p → All P ps → All P (place_price p ps)
  unfolding place_price
  place-All p [] h hs = (h, tt)
  place-All p (q ∷ qs) h hs = elim (Bool-cases (leb q.min_quantity p.min_quantity)) [
    | inl first ↦ rw first (h, hs)
    | inr later ↦ rw later (hs.0, place-All p qs h hs.1)
  ]

  All-place :
      (p : ProductPrice) (ps : List ProductPrice) → All P (place_price p ps) → P p × All P ps
  unfolding place_price
  All-place p [] h = h
  All-place p (q ∷ qs) h = elim (Bool-cases (leb q.min_quantity p.min_quantity)) [
    | inl first ↦ rw first at h
    | inr later ↦ let h' = rw later at h in let (hp, hqs) = All-place p qs h'.1 in (hp, (h'.0, hqs))
  ]

  All-by_min_quantity : (ps : List ProductPrice) → All P (by_min_quantity ps) → All P ps
  unfolding by_min_quantity
  All-by_min_quantity [] h = tt
  All-by_min_quantity (p ∷ ps) h =
      let (hp, hps) = All-place p (by_min_quantity ps) h in (hp, All-by_min_quantity ps hps)

weaken_each :
    (a b : ℕ) (ps : List ProductPrice)
    → a ≤ b
    → All (λ q. q.min_quantity ≤ a) ps
    → All (λ q. q.min_quantity ≤ b) ps
weaken_each a b [] le h = tt
weaken_each a b (p ∷ ps) le h = (omega (arith, h.0), weaken_each a b ps le h.1)

place-IsDescending :
    (p : ProductPrice) (ps : List ProductPrice) → IsDescending ps → IsDescending (place_price p ps)
unfolding place_price
place-IsDescending p [] h = (tt, tt)
place-IsDescending p (q ∷ qs) h = elim (Bool-cases (leb q.min_quantity p.min_quantity)) [
  | inl first ↦
      let le : q.min_quantity ≤ p.min_quantity = ground arith in
      rw first ((le, weaken_each q.min_quantity p.min_quantity qs le h.0), h)
  | inr later ↦ rw later (
    place-All (λ r. r.min_quantity ≤ q.min_quantity) p qs (ground arith) h.0,
    place-IsDescending p qs h.1,
  )
]

by_min_quantity-IsDescending : (ps : List ProductPrice) → IsDescending (by_min_quantity ps)
unfolding by_min_quantity
by_min_quantity-IsDescending [] = tt
by_min_quantity-IsDescending (p ∷ ps) = place-IsDescending p _ (by_min_quantity-IsDescending ps)

-- A row that applies to a line: it is of the tier and the SKU, today is within its dates, and the
-- quantity reaches its threshold.
abbrev pub HasBegun : ℕ → Option ℕ → Type 0
HasBegun today none = Unit
HasBegun today (some day) = day ≤ today

abbrev pub IsCurrent : ℕ → Option ℕ → Type 0
IsCurrent today none = Unit
IsCurrent today (some day) = today ≤ day

pub record Applies (today tier sku quantity : ℕ) (p : ProductPrice) : Type 0 where
  pub of_tier : p.price_tier_id ≡ tier
  pub of_sku : p.sku ≡ sku
  pub begun : HasBegun today p.valid_from
  pub current : IsCurrent today p.valid_to
  pub reached : p.min_quantity ≤ quantity

-- What the engine finds among the tier's rows: nothing where no row applies, or a row that applies and
-- whose threshold no other such row exceeds.
abbrev pub Deepest : ℕ → ℕ → ℕ → ℕ → Table ℕ ProductPrice → Option ProductPrice → Type 0
Deepest today tier sku quantity prices none =
    All (λ (r : ℕ × ProductPrice). ¬ Applies today tier sku quantity r.1) prices
Deepest today tier sku quantity prices (some p) =
    Memᴰ p (map (λ (r : ℕ × ProductPrice). r.1) prices)
    × Applies today tier sku quantity p
    × All
        (λ (r : ℕ × ProductPrice).
          (¬ Applies today tier sku quantity r.1) ⊎ (r.1.min_quantity ≤ p.min_quantity))
        prices

-- The same in a list of valid rows, by the engine's tests.
abbrev Found : ℕ → ℕ → List ProductPrice → Option ProductPrice → Type 0
Found sku quantity ps none = All (λ q. reaches sku quantity q ≡ false) ps
Found sku quantity ps (some p) =
    Memᴰ p ps
    × (reaches sku quantity p ≡ true)
    × All (λ q. (reaches sku quantity q ≡ false) ⊎ (q.min_quantity ≤ p.min_quantity)) ps

below_each :
    (sku quantity a : ℕ) (ps : List ProductPrice)
    → All (λ q. q.min_quantity ≤ a) ps
    → All (λ q. (reaches sku quantity q ≡ false) ⊎ (q.min_quantity ≤ a)) ps
below_each sku quantity a [] h = tt
below_each sku quantity a (p ∷ ps) h = (inr h.0, below_each sku quantity a ps h.1)

Found-skip :
    (sku quantity : ℕ) (p : ProductPrice) (ps : List ProductPrice) (found : Option ProductPrice)
    → reaches sku quantity p ≡ false
    → Found sku quantity ps found
    → Found sku quantity (p ∷ ps) found
Found-skip sku quantity p ps none miss h = (miss, h)
Found-skip sku quantity p ps (some q) miss h = (tail h.0, h.1, (inl miss, h.2))

find_break-Found :
    (sku quantity : ℕ) (ps : List ProductPrice)
    → IsDescending ps
    → Found sku quantity ps (find_break sku quantity ps)
unfolding find_break
find_break-Found sku quantity [] h = tt
find_break-Found sku quantity (p ∷ ps) h = elim (Bool-cases (reaches sku quantity p)) [
  | inl hit ↦
      let le : p.min_quantity ≤ p.min_quantity = omega arith in
      rw hit (head refl, hit, (inr le, below_each sku quantity p.min_quantity ps h.0))
  | inr miss ↦ rw miss (Found-skip sku quantity p ps _ miss (find_break-Found sku quantity ps h.1))
]

Memᴰ-place :
    (p q : ProductPrice) (ps : List ProductPrice) → Memᴰ q (place_price p ps) → Memᴰ q (p ∷ ps)
unfolding place_price
Memᴰ-place p q [] h = h
Memᴰ-place p q (r ∷ rs) h = elim (Bool-cases (leb r.min_quantity p.min_quantity)) [
  | inl first ↦ rw first at h
  | inr later ↦ elim (Memᴰ.cases_cons (rw later at h)) [
    | inl same ↦ tail (head same)
    | inr further ↦ elim (Memᴰ.cases_cons (Memᴰ-place p q rs further)) [
      | inl same ↦ head same
      | inr there ↦ tail (tail there)
    ]
  ]
]

Memᴰ-by_min_quantity :
    (q : ProductPrice) (ps : List ProductPrice) → Memᴰ q (by_min_quantity ps) → Memᴰ q ps
unfolding by_min_quantity
Memᴰ-by_min_quantity q [] h = h
Memᴰ-by_min_quantity q (p ∷ ps) h = elim (Memᴰ.cases_cons (Memᴰ-place p q (by_min_quantity ps) h)) [
  | inl same ↦ head same
  | inr there ↦ tail (Memᴰ-by_min_quantity q ps there)
]

Found-unsorted :
    (sku quantity : ℕ) (ps : List ProductPrice) (found : Option ProductPrice)
    → Found sku quantity (by_min_quantity ps) found
    → Found sku quantity ps found
Found-unsorted sku quantity ps none h = All-by_min_quantity _ ps h
Found-unsorted sku quantity ps (some p) h =
    (Memᴰ-by_min_quantity p ps h.0, h.1, All-by_min_quantity _ ps h.2)

abbrev is_valid : ℕ → ℕ → ProductPrice → Bool
is_valid today tier p =
    nat_beq p.price_tier_id tier && has_begun today p.valid_from && not_over today p.valid_to

has_begun-HasBegun : (today : ℕ) (day : Option ℕ) → has_begun today day ≡ true → HasBegun today day
has_begun-HasBegun today none h = tt
has_begun-HasBegun today (some day) h = ground arith

not_over-IsCurrent : (today : ℕ) (day : Option ℕ) → not_over today day ≡ true → IsCurrent today day
not_over-IsCurrent today none h = tt
not_over-IsCurrent today (some day) h = ground arith

HasBegun-has_begun : (today : ℕ) (day : Option ℕ) → HasBegun today day → has_begun today day ≡ true
HasBegun-has_begun today none h = refl
HasBegun-has_begun today (some day) h = ground arith

IsCurrent-not_over : (today : ℕ) (day : Option ℕ) → IsCurrent today day → not_over today day ≡ true
IsCurrent-not_over today none h = refl
IsCurrent-not_over today (some day) h = ground arith

valid_reaches-Applies :
    (today tier sku quantity : ℕ) (p : ProductPrice)
    → is_valid today tier p ≡ true
    → reaches sku quantity p ≡ true
    → Applies today tier sku quantity p
valid_reaches-Applies today tier sku quantity p valid hit = record {
  of_tier = ground arith;
  of_sku = ground arith;
  begun = has_begun-HasBegun today p.valid_from (ground arith);
  current = not_over-IsCurrent today p.valid_to (ground arith);
  reached = ground arith;
}

Applies-valid :
    (today tier sku quantity : ℕ) (p : ProductPrice)
    → Applies today tier sku quantity p
    → (is_valid today tier p ≡ true) × (reaches sku quantity p ≡ true)
Applies-valid today tier sku quantity p h =
    let begun = HasBegun-has_begun today p.valid_from h.begun in
    let now = IsCurrent-not_over today p.valid_to h.current in
    let tiers = (nat_beq_iff p.price_tier_id tier).1 h.of_tier in
    let skus = (nat_beq_iff p.sku sku).1 h.of_sku in
    let le : leb p.min_quantity quantity ≡ true = ground (arith, h.reached) in
    (rw (tiers, begun, now) refl, rw (skus, le) refl)

missed-each :
    (today tier sku quantity : ℕ) (prices : Table ℕ ProductPrice)
    → All (λ q. reaches sku quantity q ≡ false) (valid_prices today tier prices)
    → All (λ (r : ℕ × ProductPrice). ¬ Applies today tier sku quantity r.1) prices
unfolding valid_prices
missed-each today tier sku quantity [] h = tt
missed-each today tier sku quantity ((k, p) ∷ rest) h = elim (Bool-cases (is_valid today tier p)) [
  | inl valid ↦
      let h' = rw valid at h in
      (
        λ a. cc (h'.0, (Applies-valid today tier sku quantity p a).1),
        missed-each today tier sku quantity rest h'.1,
      )
  | inr over ↦ (
    λ a. cc (over, (Applies-valid today tier sku quantity p a).0),
    missed-each today tier sku quantity rest (rw over at h),
  )
]

bounded-each :
    (today tier sku quantity a : ℕ) (prices : Table ℕ ProductPrice)
    → All
        (λ q. (reaches sku quantity q ≡ false) ⊎ (q.min_quantity ≤ a))
        (valid_prices today tier prices)
    → All
        (λ (r : ℕ × ProductPrice). (¬ Applies today tier sku quantity r.1) ⊎ (r.1.min_quantity ≤ a))
        prices
unfolding valid_prices
bounded-each today tier sku quantity a [] h = tt
bounded-each today tier sku quantity a ((k, p) ∷ rest) h =
    elim (Bool-cases (is_valid today tier p)) [
      | inl valid ↦
          let h' = rw valid at h in
          (
            elim h'.0 [
              | inl miss ↦ inl (λ x. cc (miss, (Applies-valid today tier sku quantity p x).1))
              | inr le ↦ inr le
            ],
            bounded-each today tier sku quantity a rest h'.1,
          )
      | inr over ↦ (
        inl (λ x. cc (over, (Applies-valid today tier sku quantity p x).0)),
        bounded-each today tier sku quantity a rest (rw over at h),
      )
    ]

Memᴰ-valid_prices :
    (today tier : ℕ) (q : ProductPrice) (prices : Table ℕ ProductPrice)
    → Memᴰ q (valid_prices today tier prices)
    → Memᴰ q (map (λ (r : ℕ × ProductPrice). r.1) prices) × (is_valid today tier q ≡ true)
unfolding valid_prices
Memᴰ-valid_prices today tier q [] h = absurd (Memᴰ.not-nil h)
Memᴰ-valid_prices today tier q ((k, p) ∷ rest) h = elim (Bool-cases (is_valid today tier p)) [
  | inl valid ↦ elim (Memᴰ.cases_cons (rw valid at h)) [
    | inl same ↦ (head same, ap (is_valid today tier) same ∙ valid)
    | inr there ↦
        let (among, ok_there) = Memᴰ-valid_prices today tier q rest there in (tail among, ok_there)
  ]
  | inr over ↦
      let (among, ok_there) = Memᴰ-valid_prices today tier q rest (rw over at h) in
      (tail among, ok_there)
]

Found-Deepest :
    (today tier sku quantity : ℕ) (prices : Table ℕ ProductPrice) (found : Option ProductPrice)
    → Found sku quantity (valid_prices today tier prices) found
    → Deepest today tier sku quantity prices found
Found-Deepest today tier sku quantity prices none h = missed-each today tier sku quantity prices h
Found-Deepest today tier sku quantity prices (some p) h =
    let (among, valid) = Memᴰ-valid_prices today tier p prices h.0 in
    (
      among,
      valid_reaches-Applies today tier sku quantity p valid h.1,
      bounded-each today tier sku quantity p.min_quantity prices h.2,
    )

-- The engine picks a row of the price table that applies to the line (of the tier and the SKU, today
-- within its dates, its threshold reached) and that has the largest threshold of all such rows; it
-- picks none exactly where no row applies.
pub find_break-tier_prices :
    (today sku quantity id : ℕ) (t : PriceTier) (prices : Table ℕ ProductPrice)
    → Deepest today id sku quantity prices
        (find_break sku quantity (tier_prices today (some (id, t)) prices))
unfolding tier_prices
find_break-tier_prices today sku quantity id t prices =
    Found-Deepest today id sku quantity prices _ (
      Found-unsorted sku quantity (valid_prices today id prices) _ (
        find_break-Found sku quantity _
          (by_min_quantity-IsDescending (valid_prices today id prices))))
