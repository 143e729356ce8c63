-- ===== src/Stock/Effects.antt =====
-- What a successful stock mutation found and wrote: one row, and the movement that goes with it.
use werehouse.Prelude.{ℕ, zero, suc, ◌+◌, ◌-◌, ◌≤◌, ◌<◌, ◌≡◌, refl, Option, none, some, arith}
use werehouse.Prelude.Int.{ℤ, pos, negsuc, neg_part}
use werehouse.Prelude.Table.{lookup}
use werehouse.Result.{ok, >>=-eq-ok, or_throw, positive_quantity}
use werehouse.Stock.{
  stock_key_eq, product_key_eq, Level, MovementType, reserve, release, Store, StockChange, Hold,
  require_tenant, nonzero_change, key_of, check_deduction, upserted, movement_type, reserved_row,
  released_row, negated, write, apply_stock_change_within, reserve_stock_within,
  release_reservation_within,
}

-- The quantity on hand and the quantity held back in a row that may be missing.
abbrev pub on_hand : Option Level → ℕ
on_hand none = 0
on_hand (some l) = l.quantity

abbrev pub held : Option Level → ℕ
held none = 0
held (some l) = l.reserved

nonzero_change-ok : (x : Option ℤ) {c : ℤ} → nonzero_change x ≡ ok c → x ≡ some c
unfolding nonzero_change
nonzero_change-ok x h = ground arith

pub require_tenant-ok : (scope : Option ℕ) {t : ℕ} → require_tenant scope ≡ ok t → scope ≡ some t
unfolding require_tenant
require_tenant-ok scope h = ground arith

pub positive_quantity-ok :
    (x : Option ℤ) {q : ℕ} → positive_quantity x ≡ ok q → (x ≡ some (pos q)) × (0 < q)
unfolding positive_quantity
positive_quantity-ok (some (pos zero)) h = cc
positive_quantity-ok (some (pos (suc n))) h = ground arith
positive_quantity-ok (some (negsuc n)) h = cc
positive_quantity-ok none h = cc

check_deduction-ok :
    (c : ℤ) (current : Option Level) {u : Unit}
    → check_deduction c current ≡ ok u
    → neg_part c ≤ on_hand current
unfolding check_deduction
check_deduction-ok c current h = ground arith

-- What a successful stock change did.
pub record Applied (scope : Option ℕ) (input : StockChange) (s : Store)
    (r : Level × MovementType × Store) : Type 0 where
  pub tenant : ℕ
  pub change : ℤ
  pub in_scope : scope ≡ some tenant
  pub given : input.change ≡ some change
  pub covered : neg_part change ≤ on_hand (lookup (key_of tenant input.sku input.location) s.levels)
  pub stored :
      r.2
      ≡ write
          (key_of tenant input.sku input.location)
          (upserted change (lookup (key_of tenant input.sku input.location) s.levels))
          (movement_type input.type change)
          change
          input.reference_id
          s

pub apply-Applied :
    (scope : Option ℕ) (input : StockChange) (s : Store) {r : Level × MovementType × Store}
    → apply_stock_change_within scope input s ≡ ok r
    → Applied scope input s r
unfolding apply_stock_change_within
apply-Applied scope input s h =
    let (c, hc, h1) = >>=-eq-ok (nonzero_change input.change) _ h in
    let (t, ht, h2) = >>=-eq-ok (require_tenant scope) _ h1 in
    let (p, hp, h3) =
      >>=-eq-ok (or_throw (lookup (record { tenant = t; sku = input.sku }) s.products) _) _ h2 in
    let (u, hu, h4) =
      >>=-eq-ok (check_deduction c (lookup (key_of t input.sku input.location) s.levels)) _ h3 in
    record {
      tenant = t;
      change = c;
      in_scope = require_tenant-ok scope ht;
      given = nonzero_change-ok _ hc;
      covered = check_deduction-ok _ _ hu;
      stored = cc;
    }

-- What a successful reservation did.
pub record Reserved (scope : Option ℕ) (input : Hold) (s : Store) (r : Level × Store) : Type 0 where
  pub tenant : ℕ
  pub amount : ℕ
  pub old : Level
  pub in_scope : scope ≡ some tenant
  pub given : input.quantity ≡ some (pos amount)
  pub positive : 0 < amount
  pub found : lookup (key_of tenant input.sku input.location) s.levels ≡ some old
  pub covered : amount ≤ old.available
  pub stored :
      r.1
      ≡ write
          (key_of tenant input.sku input.location)
          (record old { reserved = old.reserved + amount; available = old.available - amount })
          reserve
          (pos amount)
          input.reference_id
          s

-- What a successful release did.
pub record Released (scope : Option ℕ) (input : Hold) (s : Store) (r : Level × Store) : Type 0 where
  pub tenant : ℕ
  pub amount : ℕ
  pub old : Level
  pub in_scope : scope ≡ some tenant
  pub given : input.quantity ≡ some (pos amount)
  pub positive : 0 < amount
  pub found : lookup (key_of tenant input.sku input.location) s.levels ≡ some old
  pub covered : amount ≤ old.reserved
  pub stored :
      r.1
      ≡ write
          (key_of tenant input.sku input.location)
          (record old { reserved = old.reserved - amount; available = old.available + amount })
          release
          (negated amount)
          input.reference_id
          s

reserved_row-ok :
    (q : ℕ) (current : Option Level) {l' : Level}
    → reserved_row q current ≡ ok l'
    → (l : Level) × (current ≡ some l)
      × (q ≤ l.available)
      × (l' ≡ record l { reserved = l.reserved + q; available = l.available - q })
unfolding reserved_row
reserved_row-ok q none h = cc
reserved_row-ok q (some l) h = (l, refl, ground arith, ground arith)

released_row-ok :
    (q : ℕ) (current : Option Level) {l' : Level}
    → released_row q current ≡ ok l'
    → (l : Level) × (current ≡ some l)
      × (q ≤ l.reserved)
      × (l' ≡ record l { reserved = l.reserved - q; available = l.available + q })
unfolding released_row
released_row-ok q none h = cc
released_row-ok q (some l) h = (l, refl, ground arith, ground arith)

pub reserve-Reserved :
    (scope : Option ℕ) (input : Hold) (s : Store) {r : Level × Store}
    → reserve_stock_within scope input s ≡ ok r
    → Reserved scope input s r
unfolding reserve_stock_within
reserve-Reserved scope input s h =
    let (q, hq, h1) = >>=-eq-ok (positive_quantity input.quantity) _ h in
    let (t, ht, h2) = >>=-eq-ok (require_tenant scope) _ h1 in
    let (l', hl, h3) =
      >>=-eq-ok (reserved_row q (lookup (key_of t input.sku input.location) s.levels)) _ h2 in
    let (l, found, covered, e) = reserved_row-ok q _ hl in
    let (given, positive) = positive_quantity-ok _ hq in
    record {
      tenant = t;
      amount = q;
      old = l;
      in_scope = require_tenant-ok scope ht;
      given = given;
      positive = positive;
      found = found;
      covered = covered;
      stored = cc;
    }

pub release-Released :
    (scope : Option ℕ) (input : Hold) (s : Store) {r : Level × Store}
    → release_reservation_within scope input s ≡ ok r
    → Released scope input s r
unfolding release_reservation_within
release-Released scope input s h =
    let (q, hq, h1) = >>=-eq-ok (positive_quantity input.quantity) _ h in
    let (t, ht, h2) = >>=-eq-ok (require_tenant scope) _ h1 in
    let (l', hl, h3) =
      >>=-eq-ok (released_row q (lookup (key_of t input.sku input.location) s.levels)) _ h2 in
    let (l, found, covered, e) = released_row-ok q _ hl in
    let (given, positive) = positive_quantity-ok _ hq in
    record {
      tenant = t;
      amount = q;
      old = l;
      in_scope = require_tenant-ok scope ht;
      given = given;
      positive = positive;
      found = found;
      covered = covered;
      stored = cc;
    }
