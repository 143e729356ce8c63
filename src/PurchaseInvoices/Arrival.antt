-- ===== src/PurchaseInvoices/Arrival.antt =====
-- What posting a purchase invoice adds to the stock.
use werehouse.Prelude.{
  ℕ, zero, suc, ◌+◌, ◌≡◌, refl, sym, ap, ◌∙◌, true, not, ◌&&◌, Option, none, some, List, [], ◌∷◌,
  map, inl, inr, arith,
}
use werehouse.Prelude.Tests.{if◌then◌else◌, Bool-cases, Option-cases}
use werehouse.Prelude.Int.{ℤ, pos, negsuc, pos_part}
use werehouse.Prelude.Table.{Table, nat_eq, ◌==◌, lookup}
use werehouse.Result.{
  ok, >>=-eq-ok, or_throw, or_throw-ok, throw_if, throw_if-ok, ok-injective, positive_quantity,
}
use werehouse.Stock.{
  StockKey, stock_key_eq, product_key_eq, key_of, require_tenant, apply_stock_change_within,
}
use werehouse.Stock.Effects.{on_hand}
use werehouse.Stock.Receipts.{receive-on_hand}
use werehouse.Batches.{BatchStore}
use werehouse.Batches.Receipt.{
  ReceiveIntoBatchInput, is_none, resolve_expiry, find_batch, or_value, receipt_row, receipt_change,
  receive_into_batch_within,
}
use werehouse.Costing.{CostStore, apply_inbound_cost}
use werehouse.Ledger.{post_within, is_empty}
use werehouse.SalesInvoices.{DocumentStatus, draft, is_draft}
use werehouse.PurchaseInvoices.{PurchaseItem, PurchaseInvoice, PurchaseStore}
use werehouse.PurchaseInvoices.Posting.{
  allocate_landed_costs, costed_item, arrival_of, revalued, receipt_of, arrive, goes_to_batch,
  receive_items, post,
}

-- The units of the lines at a key.
abbrev pub bought : ℕ → StockKey → List PurchaseItem → ℕ
bought t j [] = 0
bought t j (i ∷ items) =
    (if key_of t i.sku i.location == j then i.quantity else 0) + bought t j items

requested-exact : (n : ℕ) {q : ℕ} → positive_quantity (some (pos n)) ≡ ok q → q ≡ n
unfolding positive_quantity
requested-exact zero h = cc
requested-exact (suc n) h = sym (ok-injective h)

-- A receipt into a batch adds its units to the stock table.
receive_into_batch-on_hand :
    (t n : ℕ) (input : ReceiveIntoBatchInput) (fresh now : ℕ) (st : BatchStore) {r : ℕ × BatchStore}
    → input.quantity ≡ some (pos n)
    → receive_into_batch_within (some t) input fresh now st ≡ ok r
    → (j : StockKey)
    → on_hand (lookup j r.1.stock.levels)
      ≡ on_hand (lookup j st.stock.levels)
        + (if key_of t input.sku input.location == j then n else 0)
unfolding receive_into_batch_within require_tenant
receive_into_batch-on_hand t n input fresh now st given h j =
    let (q, hq, h2) = >>=-eq-ok (positive_quantity input.quantity) _ h in
    let (p, hp, h3) =
      >>=-eq-ok (or_throw (lookup (record { tenant = t; sku = input.sku }) st.stock.products) _) _
        h2 in
    let expiry = resolve_expiry input.expiry_date input.production_date p.shelf_life_days in
    let (u, hu, h4) = >>=-eq-ok (throw_if (p.batch_tracked && is_none input.batch_number) _) _ h3 in
    let (w, hw, h5) = >>=-eq-ok (throw_if (p.batch_tracked && is_none expiry) _) _ h4 in
    let row =
      receipt_row input q (or_value input.unit_cost (pos p.cost_price)) expiry fresh now
        (find_batch input.sku input.batch_number st.batches) in
    let (a, ha, h6) =
      >>=-eq-ok (apply_stock_change_within (some t) (receipt_change input q row.0) st.stock) _ h5 in
    let amount : q ≡ n = requested-exact n (rw given at hq) in
    ap (λ (x : ℕ × BatchStore). on_hand (lookup j x.1.stock.levels)) (sym (ok-injective h6))
    ∙ receive-on_hand t q (receipt_change input q row.0) st.stock refl ha j
    ∙ ap
        (λ (m : ℕ).
          on_hand (lookup j st.stock.levels)
          + (if key_of t input.sku input.location == j then m else 0))
        amount

arrive-on_hand :
    (auto : ℕ → ℕ → ℕ) (t id new_batch now : ℕ) (v : PurchaseInvoice) (i : PurchaseItem)
    (lots : BatchStore) {lots' : BatchStore}
    → arrive auto t id new_batch now v i lots ≡ ok lots'
    → (j : StockKey)
    → on_hand (lookup j lots'.stock.levels)
      ≡ on_hand (lookup j lots.stock.levels)
        + (if key_of t i.sku i.location == j then i.quantity else 0)
unfolding arrive
arrive-on_hand auto t id new_batch now v i lots h j =
    elim (Bool-cases (
      goes_to_batch (lookup (record { tenant = t; sku = i.sku }) lots.stock.products)
        i.batch_number)) [
          | inl batch ↦
              let (r, hr, h1) =
                >>=-eq-ok
                  (receive_into_batch_within (some t) (receipt_of auto id v i) new_batch now lots) _
                  (rw batch at h) in
              rw (sym (ok-injective h1)) (
                receive_into_batch-on_hand t i.quantity (receipt_of auto id v i) new_batch now lots
                  refl hr j)
          | inr plain ↦
              let (r, hr, h1) =
                >>=-eq-ok (apply_stock_change_within (some t) (arrival_of id i) lots.stock) _
                  (rw plain at h) in
              rw (sym (ok-injective h1))
                (receive-on_hand t i.quantity (arrival_of id i) lots.stock refl hr j)
        ]

-- Revaluing a product moves no units.
pub inbound-same_levels :
    (t sku incoming : ℕ) (quantity : Option ℤ) (st : CostStore)
    → (apply_inbound_cost t sku quantity incoming st).1.stock.levels ≡ st.stock.levels
unfolding apply_inbound_cost
inbound-same_levels t sku incoming none st = refl
inbound-same_levels t sku incoming (some (negsuc n)) st = refl
inbound-same_levels t sku incoming (some (pos zero)) st = refl
inbound-same_levels t sku incoming (some (pos (suc n))) st =
    elim (Option-cases (lookup (record { tenant = t; sku = sku }) st.stock.products)) [
      | inl missing ↦ rw missing refl
      | inr (p, found) ↦ rw found refl
    ]

revalued-same_levels :
    (t : ℕ) (i : PurchaseItem) (st : PurchaseStore)
    → (revalued t i st).lots.stock.levels ≡ st.lots.stock.levels
revalued-same_levels t i st =
    inbound-same_levels t i.sku (pos_part i.final_unit_cost) (some (pos i.quantity))
      (record { stock = st.lots.stock; history = st.history })

receive_items-on_hand :
    (auto : ℕ → ℕ → ℕ) (new_batch : ℕ → ℕ) (t id now : ℕ) (v : PurchaseInvoice)
    (items : List PurchaseItem) (st : PurchaseStore) {st' : PurchaseStore}
    → receive_items auto new_batch t id now v items st ≡ ok st'
    → (j : StockKey)
    → on_hand (lookup j st'.lots.stock.levels)
      ≡ on_hand (lookup j st.lots.stock.levels) + bought t j items
unfolding receive_items
receive_items-on_hand auto new_batch t id now v [] st h j = rw (sym (ok-injective h)) (omega arith)
receive_items-on_hand auto new_batch t id now v (i ∷ items) st h j =
    let (lots, hl, h1) =
      >>=-eq-ok (arrive auto t id (new_batch i.id) now v i (revalued t i st).lots) _ h in
    let rest = receive_items-on_hand auto new_batch t id now v items _ h1 j in
    let this = arrive-on_hand auto t id (new_batch i.id) now v i (revalued t i st).lots hl j in
    let levels = ap (λ x. on_hand (lookup j x)) (revalued-same_levels t i st) in
    omega (arith, rest, this, levels)

bought-costed :
    (t : ℕ) (j : StockKey) (shares : Table ℕ ℤ) (items : List PurchaseItem)
    → bought t j (map (costed_item shares) items) ≡ bought t j items
bought-costed t j shares [] = refl
bought-costed t j shares (i ∷ items) =
    ap (λ n. (if key_of t i.sku i.location == j then i.quantity else 0) + n)
      (bought-costed t j shares items)

is_draft-draft : (x : DocumentStatus) → is_draft x ≡ true → x ≡ draft
is_draft-draft x h = ground arith

-- Posting a purchase invoice, which was a draft, adds at every key the sum of its lines to what is on
-- hand, whether a line goes into a batch or not; revaluing the products and the landed costs move no
-- unit.
pub post-on_hand :
    (auto : ℕ → ℕ → ℕ) (new_batch : ℕ → ℕ) (t id now : ℕ) (st : PurchaseStore) {st' : PurchaseStore}
    {v : PurchaseInvoice}
    → lookup id st.invoices ≡ some v
    → post auto new_batch t id now st ≡ ok st'
    → (v.status ≡ draft)
      × ((j : StockKey)
          → on_hand (lookup j st'.lots.stock.levels)
            ≡ on_hand (lookup j st.lots.stock.levels) + bought t j v.items)
unfolding post
post-on_hand auto new_batch t id now st {v = v} found h =
    let (w, hw, h1) = >>=-eq-ok (or_throw (lookup id st.invoices) _) _ h in
    let same : w ≡ v = cc (or_throw-ok _ _ hw, found) in
    let (u, hu, h2) = >>=-eq-ok (throw_if (not (is_draft w.status)) _) _ h1 in
    let (x, hx, h3) = >>=-eq-ok (throw_if (is_empty w.items) _) _ h2 in
    let shares = allocate_landed_costs st.weights w in
    let (st1, hs, h4) =
      >>=-eq-ok (receive_items auto new_batch t id now w (map (costed_item shares) w.items) st) _
        h3 in
    let (b, hb, h5) = >>=-eq-ok (post_within _ st1.books) _ h4 in
    let drafted : is_draft w.status ≡ true = ground (arith, throw_if-ok _ _ hu) in
    let levels = ap (λ (y : PurchaseStore). y.lots.stock.levels) (sym (ok-injective h5)) in
    (
      ap (λ (y : PurchaseInvoice). y.status) (sym same) ∙ is_draft-draft w.status drafted,
      λ j.
          ap (λ y. on_hand (lookup j y)) levels
          ∙ receive_items-on_hand auto new_batch t id now w (map (costed_item shares) w.items) st hs
              j
          ∙ ap (λ n. on_hand (lookup j st.lots.stock.levels) + n)
              (bought-costed t j shares w.items
                ∙ ap (λ (y : PurchaseInvoice). bought t j y.items) same),
    )
