-- ===== src/Prelude/Rows.antt =====
-- A predicate on every row of a table.
use mathlib.Core.Path.{◌≡◌, subst}
use mathlib.Core.Logic.{inl, inr}
use mathlib.Core.Option.{some}
use mathlib.Core.List.{[], ◌∷◌}
use werehouse.Prelude.Tests.{Bool-cases}
use werehouse.Prelude.Lists.{All}
use werehouse.Prelude.Table.{Table, Eq, ◌==◌, lookup, insert, remove}

module _ {ℓ κ μ} {K : Type ℓ} {V : Type κ} ⦃e : Eq K⦄ (P : V → Type μ) where
  abbrev pub AllRows : Table K V → Type μ
  AllRows = All (λ (r : K × V). P r.1)

  pub insert-AllRows : (k : K) (v : V) (m : Table K V) → AllRows m → P v → AllRows (insert k v m)
  unfolding insert
  insert-AllRows k v [] h p = (p, tt)
  insert-AllRows k v ((j, w) ∷ m) h p = elim (Bool-cases (j == k)) [
    | inl old ↦ rw old (p, h.1)
    | inr new ↦ rw new (h.0, insert-AllRows k v m h.1 p)
  ]

  pub lookup-AllRows : (k : K) (m : Table K V) {v : V} → AllRows m → lookup k m ≡ some v → P v
  unfolding lookup
  lookup-AllRows k [] h found = cc
  lookup-AllRows k ((j, w) ∷ m) {v = v} h found = elim (Bool-cases (j == k)) [
    | inl old ↦ let same : w ≡ v = cc (rw old at found) in subst P same h.0
    | inr new ↦ lookup-AllRows k m h.1 (rw new at found)
  ]

  pub remove-AllRows : (k : K) (m : Table K V) → AllRows m → AllRows (remove k m)
  unfolding remove
  remove-AllRows k [] h = tt
  remove-AllRows k ((j, w) ∷ m) h = elim (Bool-cases (j == k)) [
    | inl old ↦ rw old (remove-AllRows k m h.1)
    | inr new ↦ rw new (h.0, remove-AllRows k m h.1)
  ]
