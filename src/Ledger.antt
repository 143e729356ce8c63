-- ===== src/Ledger.antt =====
-- Journal entries for warehouse documents, backend-nest/src/common/wms/ledger-posting.service.ts.
-- The amounts of a posting are signed whole numbers of ten-thousandths, those of a stored entry are in
-- hundredths.
pub mod Balance
pub mod Numbers
pub mod Posting
pub mod Shapes
mod Tests
use werehouse.Prelude.{
  ℕ, zero, suc, ◌+◌, ◌-◌, ◌*◌, ◌/◌, ◌^◌, Bool, true, false, not, ◌&&◌, ◌||◌, Option, none, some,
  List, [], ◌∷◌, map,
}
use werehouse.Costing.{round_half_up}
use werehouse.Prelude.Tests.{leb, ltb, nat_beq, if◌then◌else◌}
use werehouse.Prelude.Int.{ℤ, pos, negsuc, is_pos, is_neg, abs, ◌+ℤ◌, ◌-ℤ◌}
use werehouse.Prelude.Lists.{keep}
use werehouse.Prelude.Table.{Table, Eq, nat_eq, lookup, insert}
use werehouse.Result.{
  Result, ok, err, bad_request, conflict, ◌>>=◌, ◌>>◌, throw_if, unbalanced_entry,
  entry_number_taken,
}

pub data LedgerRole : Type 0 where
  inventory accounts_payable accounts_receivable sales_revenue cogs : LedgerRole
  tax_input tax_output sales_discount inventory_adjustment : LedgerRole

-- A missing side is 0.
pub record LedgerLine : Type 0 where
  pub role : LedgerRole
  pub debit : ℤ
  pub credit : ℤ

pub data SourceType : Type 0 where
  purchase_invoice sales_invoice cycle_count : SourceType

-- The idempotency key is only compared, so it is a number.
pub record PostInput : Type 0 where
  pub year : ℕ
  pub source_type : SourceType
  pub source_ref : ℕ
  pub lines : List LedgerLine

-- A line of a journal entry: an account and its two sides.
pub record EntryLine : Type 0 where
  pub account : ℕ
  pub debit : ℕ
  pub credit : ℕ

pub record JournalEntry : Type 0 where
  pub year : ℕ
  pub number : ℕ
  pub source_type : SourceType
  pub source_ref : ℕ
  pub lines : List EntryLine

-- The tenant's mapping of roles to accounts and its journal, newest entry first.
pub record Books : Type 0 where
  pub account_of : LedgerRole → Option ℕ
  pub entries : List JournalEntry

pub data PostResult : Type 0 where
  posted : ℕ → PostResult
  unmapped : List LedgerRole → PostResult
  duplicate : ℕ → PostResult
  nothing : PostResult

abbrev pub is_zero : ℤ → Bool
is_zero (pos zero) = true
is_zero _ = false

abbrev pub has_amount : LedgerLine → Bool
has_amount l = not (is_zero l.debit) || not (is_zero l.credit)

unfoldable pub find_entry : ℕ → List JournalEntry → Option JournalEntry
find_entry ref [] = none
find_entry ref (e ∷ entries) = if nat_beq e.source_ref ref then some e else find_entry ref entries

abbrev pub role_code : LedgerRole → ℕ
role_code inventory = 0
role_code accounts_payable = 1
role_code accounts_receivable = 2
role_code sales_revenue = 3
role_code cogs = 4
role_code tax_input = 5
role_code tax_output = 6
role_code sales_discount = 7
role_code inventory_adjustment = 8

abbrev pub has_role : LedgerRole → List LedgerRole → Bool
has_role r [] = false
has_role r (x ∷ roles) = nat_beq (role_code x) (role_code r) || has_role r roles

-- `[...new Set(lines.map((l) => l.role))]`, after the roles already seen.
unfoldable pub needed_roles : List LedgerRole → List LedgerLine → List LedgerRole
needed_roles seen [] = []
needed_roles seen (l ∷ lines) =
    let again = needed_roles seen lines in
    let new = l.role ∷ needed_roles (l.role ∷ seen) lines in
    if has_role l.role seen then again else new

abbrev pub is_unmapped : (LedgerRole → Option ℕ) → LedgerRole → Bool
is_unmapped account_of r = elim (account_of r) [ none ↦ true | some a ↦ false ]

unfoldable pub missing_roles : (LedgerRole → Option ℕ) → List LedgerLine → List LedgerRole
unfolding needed_roles
missing_roles account_of lines = keep (is_unmapped account_of) (needed_roles [] lines)

-- `byAccount.get(accountId) ?? { debit: ZERO, credit: ZERO }`
abbrev pub sides_or_zero : Option (ℤ × ℤ) → ℤ × ℤ
sides_or_zero none = (pos 0, pos 0)
sides_or_zero (some sides) = sides

abbrev pub add_line : ℕ → LedgerLine → Table ℕ (ℤ × ℤ) → Table ℕ (ℤ × ℤ)
add_line account l by_account =
    let (debit, credit) = sides_or_zero (lookup account by_account) in
    insert account (debit +ℤ l.debit, credit +ℤ l.credit) by_account

-- The lines, merged by account. Every role has an account here.
unfoldable pub merge : (LedgerRole → Option ℕ) → List LedgerLine → Table ℕ (ℤ × ℤ) → Table ℕ (ℤ × ℤ)
merge account_of [] by_account = by_account
merge account_of (l ∷ lines) by_account =
    merge account_of lines (elim (account_of l.role) [
      | none ↦ by_account
      | some account ↦ add_line account l by_account
    ])

-- One account's sides, netted: only the larger one is left, by its excess.
unfoldable pub net_line : ℕ → ℤ × ℤ → EntryLine
net_line account (debit, credit) =
    let net = debit -ℤ credit in
    record {
      account = account;
      debit = if is_pos net then abs net else 0;
      credit = if is_neg net then abs net else 0;
    }

unfoldable pub netted : Table ℕ (ℤ × ℤ) → List EntryLine
unfolding net_line
netted [] = []
netted ((account, sides) ∷ rest) = net_line account sides ∷ netted rest

unfoldable pub total_debit : List EntryLine → ℕ
total_debit [] = 0
total_debit (l ∷ lines) = l.debit + total_debit lines

unfoldable pub total_credit : List EntryLine → ℕ
total_credit [] = 0
total_credit (l ∷ lines) = l.credit + total_credit lines

abbrev pub entry_has_amount : EntryLine → Bool
entry_has_amount l = not (nat_beq l.debit 0) || not (nat_beq l.credit 0)

-- The digits of a number beyond the six that it is padded to; `fuel` is at least the number.
unfoldable pub excess_digits : ℕ → ℕ → ℕ
excess_digits zero n = 0
excess_digits (suc fuel) n = elim (ltb n 1000000) [
  | true ↦ 0
  | false ↦ suc (excess_digits fuel (n / 10))
]

-- Whether the text of a padded number is at most that of another: the shorter one is filled up at its
-- end with zeros, the least digit, and stands first where this makes the two equal.
unfoldable pub text_leb : ℕ → ℕ → Bool
unfolding excess_digits
text_leb m n =
    let k = excess_digits m m in
    let l = excess_digits n n in
    let a = m * 10 ^ (l - k) in let b = n * 10 ^ (k - l) in if nat_beq a b then leb k l else ltb a b

unfoldable pub text_max : ℕ → ℕ → ℕ
unfolding text_leb
text_max m n = if text_leb m n then n else m

-- `MAX("entryNumber")` over the year's entries, the largest as a text; 0 where there is none.
unfoldable pub last_number : ℕ → List JournalEntry → ℕ
unfolding text_max
last_number year [] = 0
last_number year (e ∷ entries) =
    let rest = last_number year entries in
    if nat_beq e.year year then text_max e.number rest else rest

unfoldable pub next_entry_number : ℕ → List JournalEntry → ℕ
unfolding last_number
next_entry_number year entries = suc (last_number year entries)

-- `@@unique([tenantId, entryNumber])`; the year is part of the number's text.
unfoldable pub number_taken : ℕ → ℕ → List JournalEntry → Bool
number_taken year n [] = false
number_taken year n (e ∷ entries) =
    nat_beq e.year year && nat_beq e.number n || number_taken year n entries

-- The columns are `Decimal(12, 2)`: an amount is stored in hundredths, rounded.
abbrev pub stored_line : EntryLine → EntryLine
stored_line l = record l { debit = round_half_up l.debit 100; credit = round_half_up l.credit 100 }

abbrev pub entry_of : PostInput → ℕ → List EntryLine → JournalEntry
entry_of input number lines = record {
  year = input.year;
  number = number;
  source_type = input.source_type;
  source_ref = input.source_ref;
  lines = map stored_line (keep entry_has_amount lines);
}

abbrev pub is_empty {ℓ} : {A : Type ℓ} → List A → Bool
is_empty [] = true
is_empty (x ∷ xs) = false

abbrev pub create_entry : PostInput → List EntryLine → Books → Result (PostResult × Books)
create_entry input lines b = do
  let number = next_entry_number input.year b.entries
  throw_if (number_taken input.year number b.entries) (conflict entry_number_taken)
  ok (posted number, record b { entries = entry_of input number lines ∷ b.entries })

-- The netted entry is written, if it has an amount and balances. The database refuses a number that
-- is taken.
unfoldable pub write_entry : PostInput → List EntryLine → Books → Result (PostResult × Books)
unfolding total_debit total_credit next_entry_number number_taken
write_entry input lines b = do
  throw_if (not (nat_beq (total_debit lines) (total_credit lines))) (bad_request unbalanced_entry)
  if nat_beq (total_debit lines) 0 then ok (nothing, b) else create_entry input lines b

unfoldable pub post_mapped : PostInput → List LedgerLine → Books → Result (PostResult × Books)
unfolding missing_roles merge netted write_entry
post_mapped input lines b =
    let missing = missing_roles b.account_of lines in
    let written = write_entry input (netted (merge b.account_of lines [])) b in
    if is_empty missing then written else ok (unmapped missing, b)

abbrev pub post_new :
    Option JournalEntry → PostInput → List LedgerLine → Books → Result (PostResult × Books)
post_new (some e) input lines b = ok (duplicate e.number, b)
post_new none input lines b = post_mapped input lines b

unfoldable pub post_within : PostInput → Books → Result (PostResult × Books)
unfolding find_entry post_mapped
post_within input b =
    let lines = keep has_amount input.lines in
    if is_empty lines
    then ok (nothing, b)
    else post_new (find_entry input.source_ref b.entries) input lines b

abbrev pub debit_line : LedgerRole → ℤ → LedgerLine
debit_line role amount = record { role = role; debit = amount; credit = pos 0 }

abbrev pub credit_line : LedgerRole → ℤ → LedgerLine
credit_line role amount = record { role = role; debit = pos 0; credit = amount }

unfoldable pub purchase_invoice_lines : ℤ → ℤ → ℤ → List LedgerLine
purchase_invoice_lines goods_value tax_amount payable_total =
    debit_line inventory goods_value
    ∷ debit_line tax_input tax_amount
    ∷ credit_line accounts_payable payable_total
    ∷ []

unfoldable pub sales_invoice_lines : ℤ → ℤ → ℤ → ℤ → ℤ → List LedgerLine
sales_invoice_lines receivable revenue discount tax_amount cost =
    debit_line accounts_receivable receivable
    ∷ credit_line sales_revenue revenue
    ∷ debit_line sales_discount discount
    ∷ credit_line tax_output tax_amount
    ∷ debit_line cogs cost
    ∷ credit_line inventory cost
    ∷ []

unfoldable pub cycle_count_lines : ℤ → List LedgerLine
cycle_count_lines (pos n) =
    debit_line inventory (pos n) ∷ credit_line inventory_adjustment (pos n) ∷ []
cycle_count_lines (negsuc n) =
    debit_line inventory_adjustment (pos (suc n)) ∷ credit_line inventory (pos (suc n)) ∷ []

unfoldable pub reverse_lines : List LedgerLine → List LedgerLine
reverse_lines [] = []
reverse_lines (l ∷ lines) =
    record { role = l.role; debit = l.credit; credit = l.debit } ∷ reverse_lines lines
