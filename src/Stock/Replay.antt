-- ===== src/Stock/Replay.antt =====
-- The movement log explains the rows: `stock_movements` replayed gives `stock_levels`.
use werehouse.Prelude.{
  ℕ, zero, suc, ◌-◌, ◌≤◌, ◌≡◌, inl, inr, Bool, true, false, not, ◌&&◌, Option, none, some, List, [],
  ◌∷◌, arith, ap, ◌∙◌, refl, subst,
}
use werehouse.Prelude.Tests.{Bool-cases, if◌then◌else◌}
use werehouse.Prelude.Int.{ℤ, pos, neg_part, ◌+ℤ◌, int_laws}
use werehouse.Prelude.Table.{◌==◌, lookup, lookup-insert, lookup-same}
use werehouse.Result.{Result, ok, err, ◌>>=◌, >>=-eq-ok, ok-injective, Result-cases}
use werehouse.Prelude.Lists.{All}
use werehouse.Stock.{
  StockKey, stock_key_eq, Level, MovementType, reserve, release, Movement, Store, StockChange, Hold,
  upserted, movement_type, default_type, negated, write, apply_stock_change_within,
  reserve_stock_within, release_reservation_within,
}
use werehouse.Stock.Effects.{on_hand, held, apply-Applied, reserve-Reserved, release-Released}

-- A movement either holds stock back (RESERVE, RELEASE) or changes what is on hand.
abbrev pub is_hold : MovementType → Bool
is_hold reserve = true
is_hold release = true
is_hold _ = false

abbrev count : Bool → StockKey → Movement → ℤ → ℤ
count hold k m rest =
    if (m.key == k) && (if hold then is_hold m.type else not (is_hold m.type))
    then m.quantity +ℤ rest
    else rest

-- The sum of the movements of one kind at a key.
unfoldable pub moved : Bool → StockKey → List Movement → ℤ
moved hold k [] = pos 0
moved hold k (m ∷ ms) = count hold k m (moved hold k ms)

-- The type that a request may name changes what is on hand (`@IsIn` in AdjustStockDto).
abbrev pub Stocks : Option MovementType → Type 0
Stocks none = Unit
Stocks (some type) = is_hold type ≡ false

-- At every key, what is on hand and what is reserved are the sums of the movements.
pub record IsReplayed (s : Store) : Type 0 where
  pub stock : (k : StockKey) → pos (on_hand (lookup k s.levels)) ≡ moved false k s.movements
  pub holds : (k : StockKey) → pos (held (lookup k s.levels)) ≡ moved true k s.movements

zero-+ℤ : (x : ℤ) → pos 0 +ℤ x ≡ x
zero-+ℤ x = omega int_laws

add_count :
    (b : Bool) (q x rest new : ℤ)
    → new ≡ (if b then q else pos 0) +ℤ x
    → x ≡ rest
    → new ≡ (if b then q +ℤ rest else rest)
add_count true q x rest new h e = rw (h, e)
add_count false q x rest new h e = h ∙ zero-+ℤ x ∙ e

if-not {ℓ} : {A : Type ℓ} (b : Bool) (x y : A) → (if b then x else y) ≡ (if not b then y else x)
if-not true x y = refl
if-not false x y = refl

module _ (k : StockKey) (l : Level) (type : MovementType) (q : ℤ) (ref : Option ℕ) (s : Store) where
  -- A write keeps the replay if it changes the quantity by its movement, and the reservation too.
  write-IsReplayed :
      IsReplayed s
      → pos l.quantity ≡ (if is_hold type then pos 0 else q) +ℤ pos (on_hand (lookup k s.levels))
      → pos l.reserved ≡ (if is_hold type then q else pos 0) +ℤ pos (held (lookup k s.levels))
      → IsReplayed (write k l type q ref s)
  unfolding moved
  write-IsReplayed v hq hr = record {
    stock = λ j. elim (Bool-cases (k == j)) [
      | inl same ↦
          rw (lookup-insert k j l s.levels, same)
            (add_count (not (is_hold type)) q _ _ (pos l.quantity)
              (hq
                ∙ ap (λ (x : ℤ). x +ℤ pos (on_hand (lookup k s.levels)))
                    (if-not (is_hold type) (pos 0) q))
              (rw (lookup-same j k s.levels same) at (v.stock j)))
      | inr other ↦ rw (lookup-insert k j l s.levels, other) (v.stock j)
    ];
    holds = λ j. elim (Bool-cases (k == j)) [
      | inl same ↦
          rw (lookup-insert k j l s.levels, same)
            (add_count (is_hold type) q _ _ (pos l.reserved) hr
              (rw (lookup-same j k s.levels same) at (v.holds j)))
      | inr other ↦ rw (lookup-insert k j l s.levels, other) (v.holds j)
    ];
  }

released_parts : (r q : ℕ) → q ≤ r → pos (r - q) ≡ negated q +ℤ pos r
released_parts r zero h = omega int_laws
released_parts r (suc q) h = omega int_laws

upserted-parts :
    (c : ℤ) (current : Option Level)
    → neg_part c ≤ on_hand current
    → (pos (upserted c current).quantity ≡ c +ℤ pos (on_hand current))
      × (pos (upserted c current).reserved ≡ pos 0 +ℤ pos (held current))
unfolding upserted
upserted-parts c none h = (omega int_laws, omega int_laws)
upserted-parts c (some l) h = (omega int_laws, omega int_laws)

movement_type-stock :
    (type : Option MovementType) (c : ℤ) → Stocks type → is_hold (movement_type type c) ≡ false
unfolding movement_type default_type
movement_type-stock none c h = ground arith
movement_type-stock (some type) c h = h

-- A successful stock change, reservation or release keeps the replay.
pub apply-IsReplayed :
    (scope : Option ℕ) (input : StockChange) (s : Store) {r : Level × MovementType × Store}
    → Stocks input.type
    → IsReplayed s
    → apply_stock_change_within scope input s ≡ ok r
    → IsReplayed r.2
apply-IsReplayed scope input s typed v h =
    let w = apply-Applied scope input s h in
    let parts = upserted-parts w.change _ w.covered in
    let kind = movement_type-stock input.type w.change typed in
    rw w.stored (write-IsReplayed _ _ _ _ _ s v (rw kind parts.0) (rw kind parts.1))

pub reserve-IsReplayed :
    (scope : Option ℕ) (input : Hold) (s : Store) {r : Level × Store}
    → IsReplayed s
    → reserve_stock_within scope input s ≡ ok r
    → IsReplayed r.1
reserve-IsReplayed scope input s v h =
    let w = reserve-Reserved scope input s h in
    rw w.stored
      (write-IsReplayed _ _ _ _ _ s v (rw w.found (omega int_laws)) (rw w.found (omega int_laws)))

pub release-IsReplayed :
    (scope : Option ℕ) (input : Hold) (s : Store) {r : Level × Store}
    → IsReplayed s
    → release_reservation_within scope input s ≡ ok r
    → IsReplayed r.1
release-IsReplayed scope input s v h =
    let w = release-Released scope input s h in
    rw w.stored (
      write-IsReplayed _ _ _ _ _ s v (rw w.found (omega int_laws))
        (rw w.found (released_parts w.old.reserved w.amount w.covered)))

-- One request of the stock endpoints (adjustStock, reserveStock, releaseReservation), with the
-- tenant that it comes from. Each runs in a transaction of its own.
pub data Request : Type 0 where
  adjust : StockChange → Request
  hold : Hold → Request
  unhold : Hold → Request

unfoldable pub run : Option ℕ → Request → Store → Result Store
run scope (adjust input) s = apply_stock_change_within scope input s >>= λ r. ok r.2
run scope (hold input) s = reserve_stock_within scope input s >>= λ r. ok r.1
run scope (unhold input) s = release_reservation_within scope input s >>= λ r. ok r.1

-- A request that throws is rolled back.
abbrev pub committed : Store → Result Store → Store
committed s (ok s') = s'
committed s (err e) = s

unfoldable pub serve : List (Option ℕ × Request) → Store → Store
serve [] s = s
serve ((scope, request) ∷ rest) s = serve rest (committed s (run scope request s))

abbrev pub StocksRequest : Request → Type 0
StocksRequest (adjust input) = Stocks input.type
StocksRequest _ = Unit

run-IsReplayed :
    (scope : Option ℕ) (request : Request) (s : Store) {s' : Store}
    → StocksRequest request
    → IsReplayed s
    → run scope request s ≡ ok s'
    → IsReplayed s'
unfolding run
run-IsReplayed scope (adjust input) s typed v h =
    let (r, hr, e) = >>=-eq-ok (apply_stock_change_within scope input s) _ h in
    subst IsReplayed (ok-injective e) (apply-IsReplayed scope input s typed v hr)
run-IsReplayed scope (hold input) s typed v h =
    let (r, hr, e) = >>=-eq-ok (reserve_stock_within scope input s) _ h in
    subst IsReplayed (ok-injective e) (reserve-IsReplayed scope input s v hr)
run-IsReplayed scope (unhold input) s typed v h =
    let (r, hr, e) = >>=-eq-ok (release_reservation_within scope input s) _ h in
    subst IsReplayed (ok-injective e) (release-IsReplayed scope input s v hr)

committed-IsReplayed :
    (scope : Option ℕ) (request : Request) (s : Store)
    → StocksRequest request
    → IsReplayed s
    → IsReplayed (committed s (run scope request s))
committed-IsReplayed scope request s typed v = elim (Result-cases (run scope request s)) [
  | inl (s', e) ↦ rw e (run-IsReplayed scope request s typed v e)
  | inr (x, e) ↦ rw e v
]

-- After any sequence of requests of any tenants, failed ones among them, the movement log still
-- explains every row: on-hand quantities are the sums of the stock movements, and reservations are
-- the sums of the RESERVE and RELEASE movements. The requests name no RESERVE or RELEASE as the type
-- of an adjustment.
pub serve-IsReplayed :
    (requests : List (Option ℕ × Request)) (s : Store)
    → All (λ r. StocksRequest r.1) requests
    → IsReplayed s
    → IsReplayed (serve requests s)
unfolding serve
serve-IsReplayed [] s typed v = v
serve-IsReplayed ((scope, request) ∷ rest) s typed v =
    serve-IsReplayed rest _ typed.1 (committed-IsReplayed scope request s typed.0 v)
