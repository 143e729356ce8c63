-- ===== src/Prelude/Table.antt =====
-- A database table under a unique index, as an association list from the index to the rest of the
-- row. A write to a key that is there replaces the row, any other adds one.
use mathlib.Core.Path.{◌≡◌, refl, sym, ap, ◌∙◌, subst}
use mathlib.Core.Logic.{◌↔◌, ◌⊎◌, inl, inr}
use mathlib.Core.Bool.{Bool, true, false}
use mathlib.Core.Option.{Option, none, some}
use mathlib.Core.List.{List, [], ◌∷◌, ◌++◌}
use Prim.Native.Nat.{ℕ, ◌+◌}
use native.Mathlib.Omega.{arith}
use werehouse.Prelude.Tests.{nat_beq, nat_beq_iff, if◌then◌else◌, Bool-cases}

abbrev pub Table {ℓ κ} : Type ℓ → Type κ → Type (ℓ ⊔ κ)
Table K V = List (K × V)

-- The test by which a table finds a key.
pub record Eq {ℓ} (K : Type ℓ) : Type ℓ where
  pub beq : K → K → Bool
  pub beq_iff : (j k : K) → (beq j k ≡ true) ↔ (j ≡ k)

instance abbrev pub nat_eq : Eq ℕ
nat_eq = record { beq = nat_beq; beq_iff = nat_beq_iff }

infix 50 ◌==◌
abbrev pub ◌==◌ {ℓ} : {K : Type ℓ} ⦃e : Eq K⦄ → K → K → Bool
◌==◌ ⦃e⦄ = e.beq

pub ==_refl {ℓ} : {K : Type ℓ} ⦃e : Eq K⦄ (k : K) → (k == k) ≡ true
==_refl ⦃e⦄ k = (e.beq_iff k k).1 refl

-- Two keys that pass the test share every other test.
pub ==_same {ℓ} : {K : Type ℓ} ⦃e : Eq K⦄ (i j k : K) → (j == k) ≡ true → (i == k) ≡ (i == j)
==_same ⦃e⦄ i j k h = ap (λ (x : _). e.beq i x) (sym ((e.beq_iff j k).0 h))

module _ {ℓ κ} {K : Type ℓ} {V : Type κ} ⦃e : Eq K⦄ where
  unfoldable pub lookup : K → Table K V → Option V
  lookup key [] = none
  lookup key ((i, row) ∷ rest) = if i == key then some row else lookup key rest

  unfoldable pub insert : K → V → Table K V → Table K V
  insert key row [] = (key, row) ∷ []
  insert key row ((i, old) ∷ rest) =
      if i == key then (key, row) ∷ rest else (i, old) ∷ insert key row rest

  pub lookup-same : (j k : K) (m : Table K V) → (k == j) ≡ true → lookup j m ≡ lookup k m
  lookup-same j k m h = ap (λ (x : K). lookup x m) (sym ((e.beq_iff k j).0 h))

  pub lookup-insert :
      (key j : K) (row : V) (rows : Table K V)
      → lookup j (insert key row rows) ≡ (if key == j then some row else lookup j rows)
  unfolding lookup insert
  lookup-insert key j row [] = refl
  lookup-insert k j v ((i, w) ∷ m) = elim (Bool-cases (i == k)) [
    | inl old ↦
        let same : (i == j) ≡ (k == j) = ap (λ (x : K). x == j) ((e.beq_iff i k).0 old) in
        rw (old, same) (ground arith)
    | inr new ↦
        ground (arith, lookup-insert k j v m, e.beq_iff k j, e.beq_iff i j, e.beq_iff i k, new)
  ]

  pub lookup-insert_self : (k : K) (v : V) (m : Table K V) → lookup k (insert k v m) ≡ some v
  lookup-insert_self k v m = rw (lookup-insert k k v m, ==_refl k)

  pub lookup-insert_cases :
      (k j : K) (v : V) (m : Table K V) {w : V}
      → lookup j (insert k v m) ≡ some w
      → ((k ≡ j) × (w ≡ v)) ⊎ (((k == j) ≡ false) × (lookup j m ≡ some w))
  lookup-insert_cases k j v m h = elim (Bool-cases (k == j)) [
    | inl same ↦ inl ((e.beq_iff k j).0 same, cc (rw (lookup-insert k j v m, same) at h))
    | inr other ↦ inr (other, rw (lookup-insert k j v m, other) at h)
  ]

  -- DELETE of the row at a key.
  unfoldable pub remove : K → Table K V → Table K V
  remove k [] = []
  remove k ((j, v) ∷ m) = let rest = remove k m in if j == k then rest else (j, v) ∷ rest

  -- The unique index: no key stands twice.
  abbrev pub IsUnique : Table K V → Type κ
  IsUnique [] = Unit
  IsUnique ((k, v) ∷ m) = (lookup k m ≡ none) × IsUnique m

  pub lookup-remove_ne :
      (k j : K) (m : Table K V) → (k == j) ≡ false → lookup j (remove k m) ≡ lookup j m
  unfolding lookup remove
  lookup-remove_ne k j [] h = refl
  lookup-remove_ne k j ((i, w) ∷ m) h = elim (Bool-cases (i == k)) [
    | inl old ↦
        let other : (i == j) ≡ false = ap (λ (x : K). x == j) ((e.beq_iff i k).0 old) ∙ h in
        rw (old, other) (lookup-remove_ne k j m h)
    | inr new ↦ rw new (ground (arith, lookup-remove_ne k j m h))
  ]

  pub insert-IsUnique : (k : K) (v : V) (m : Table K V) → IsUnique m → IsUnique (insert k v m)
  unfolding insert lookup
  insert-IsUnique k v [] u = (refl, tt)
  insert-IsUnique k v ((i, w) ∷ m) u = elim (Bool-cases (i == k)) [
    | inl old ↦ rw old (ap (λ (x : K). lookup x m) (sym ((e.beq_iff i k).0 old)) ∙ u.0, u.1)
    | inr new ↦
        let other : (k == i) ≡ false = ground (arith, e.beq_iff k i, e.beq_iff i k, new) in
        rw new (lookup-insert k i v m ∙ rw other u.0, insert-IsUnique k v m u.1)
  ]

  pub remove-IsUnique : (k : K) (m : Table K V) → IsUnique m → IsUnique (remove k m)
  unfolding remove
  remove-IsUnique k [] u = u
  remove-IsUnique k ((i, w) ∷ m) u = elim (Bool-cases (i == k)) [
    | inl old ↦ rw old (remove-IsUnique k m u.1)
    | inr new ↦
        let other : (k == i) ≡ false = ground (arith, e.beq_iff k i, e.beq_iff i k, new) in
        rw new (lookup-remove_ne k i m other ∙ u.0, remove-IsUnique k m u.1)
  ]

  -- The sum of a number over the rows.
  module _ (f : K → V → ℕ) where
    unfoldable pub total : Table K V → ℕ
    total [] = 0
    total ((k, v) ∷ m) = f k v + total m

    pub total-insert_new :
        (k : K) (v : V) (m : Table K V) → lookup k m ≡ none → total (insert k v m) ≡ total m + f k v
    unfolding total insert lookup
    total-insert_new k v [] h = omega arith
    total-insert_new k v ((i, w) ∷ m) h = ground (arith, total-insert_new k v m)

    pub total-insert :
        (k : K) (v old : V) (m : Table K V)
        → lookup k m ≡ some old
        → total (insert k v m) + f k old ≡ total m + f k v
    unfolding total insert lookup
    total-insert k v old [] h = cc
    total-insert k v old ((i, w) ∷ m) h = ground (arith, total-insert k v old m, e.beq_iff i k)

    total-remove-none : (k : K) (m : Table K V) → lookup k m ≡ none → total (remove k m) ≡ total m
    unfolding total remove lookup
    total-remove-none k [] h = refl
    total-remove-none k ((i, w) ∷ m) h = ground (arith, total-remove-none k m)

    pub total-remove :
        (k : K) (v : V) (m : Table K V)
        → IsUnique m
        → lookup k m ≡ some v
        → total (remove k m) + f k v ≡ total m
    unfolding total remove lookup
    total-remove k v [] u h = cc
    total-remove k v ((i, w) ∷ m) u h = elim (Bool-cases (i == k)) [
      | inl old ↦
          let e' = (e.beq_iff i k).0 old in
          ground (arith, total-remove-none k m (subst (λ x. lookup x m ≡ none) e' u.0), e')
      | inr new ↦ ground (arith, total-remove k v m u.1)
    ]

  pub insert_absent :
      (k : K) (v : V) (m : Table K V) → lookup k m ≡ none → insert k v m ≡ m ++ (k, v) ∷ []
  unfolding insert lookup
  insert_absent k v [] h = refl
  insert_absent k v ((i, w) ∷ m) h = ground (arith, insert_absent k v m)

  -- A key that is written in a row is found.
  lookup-append_here :
      (k : K) (v : V) (i : K) (m rest : Table K V)
      → (i == k) ≡ true
      → lookup i (m ++ (k, v) ∷ rest) ≡ none
      → ⊥
  unfolding lookup
  lookup-append_here k v i [] rest same h = ground (arith, e.beq_iff i k, e.beq_iff k i, same, h)
  lookup-append_here k v i ((j, w) ∷ m) rest same h = elim (Bool-cases (j == i)) [
    | inl old ↦ cc (rw old at h)
    | inr new ↦ lookup-append_here k v i m rest same (rw new at h)
  ]

  pub lookup-middle :
      (k : K) (v : V) (m rest : Table K V) → IsUnique (m ++ (k, v) ∷ rest) → lookup k m ≡ none
  unfolding lookup
  lookup-middle k v [] rest u = refl
  lookup-middle k v ((i, w) ∷ m) rest u = elim (Bool-cases (i == k)) [
    | inl same ↦ absurd (lookup-append_here k v i m rest same u.0)
    | inr other ↦ rw other (lookup-middle k v m rest u.1)
  ]
