-- ===== src/Stock/Tenancy.antt =====
-- The raw SQL of the stock ledger names the tenant: a call changes no row of another factory.
use werehouse.Prelude.{ℕ, ◌≡◌, ◌≢◌, false, some, arith, sym, refl}
use werehouse.Prelude.Table.{◌==◌, lookup, insert, lookup-insert, Table}
use werehouse.Result.{ok, >>=-eq-ok, ok-injective}
use werehouse.Stock.{
  StockKey, stock_key_eq, Level, Store, apply_stock_change_within, reserve_stock_within,
  release_reservation_within,
}
use werehouse.Stock.Effects.{apply-Applied, reserve-Reserved, release-Released}
use werehouse.Stock.Replay.{Request, adjust, hold, unhold, run}

other_key : (t : ℕ) (j k : StockKey) → k.tenant ≡ t → j.tenant ≢ t → (k == j) ≡ false
other_key t j k e ne = ground arith

lookup-other :
    (t : ℕ) (j k : StockKey) (l : Level) (m : Table StockKey Level)
    → k.tenant ≡ t
    → j.tenant ≢ t
    → lookup j (insert k l m) ≡ lookup j m
lookup-other t j k l m e ne = rw (lookup-insert k j l m, other_key t j k e ne)

-- A request of one tenant leaves the rows of every other tenant as they are, the catalogue too.
pub run_tenant :
    (t : ℕ) (request : Request) (s : Store) {s' : Store} (j : StockKey)
    → run (some t) request s ≡ ok s'
    → j.tenant ≢ t
    → (lookup j s'.levels ≡ lookup j s.levels) × (s'.products ≡ s.products)
unfolding run
run_tenant t (adjust input) s j h ne =
    let (r, hr, e) = >>=-eq-ok (apply_stock_change_within (some t) input s) _ h in
    let w = apply-Applied (some t) input s hr in
    rw (sym (ok-injective e), w.stored) (lookup-other t j _ _ s.levels (cc w.in_scope) ne, refl)
run_tenant t (hold input) s j h ne =
    let (r, hr, e) = >>=-eq-ok (reserve_stock_within (some t) input s) _ h in
    let w = reserve-Reserved (some t) input s hr in
    rw (sym (ok-injective e), w.stored) (lookup-other t j _ _ s.levels (cc w.in_scope) ne, refl)
run_tenant t (unhold input) s j h ne =
    let (r, hr, e) = >>=-eq-ok (release_reservation_within (some t) input s) _ h in
    let w = release-Released (some t) input s hr in
    rw (sym (ok-injective e), w.stored) (lookup-other t j _ _ s.levels (cc w.in_scope) ne, refl)
