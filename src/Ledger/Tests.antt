-- ===== src/Ledger/Tests.antt =====
-- A purchase invoice and a stock shortage posted to an empty journal.
use werehouse.Prelude.{◌≡◌, refl, some, []}
use werehouse.Prelude.Int.{pos, negsuc, ◌+ℤ◌, ◌-ℤ◌}
use werehouse.Prelude.Table.{nat_eq, lookup, insert}
use werehouse.Result.{ok, value_or}
use werehouse.Ledger.{
  LedgerRole, role_code, PostInput, purchase_invoice, cycle_count, Books, PostResult, nothing,
  post_within, purchase_invoice_lines, cycle_count_lines, reverse_lines,
}
use werehouse.Ledger.Posting.{IsJournal, post-IsJournal, post-total}
use werehouse.Ledger.Shapes.{role_net, reverse_lines_lem}

abbrev books : Books
books = record { account_of = λ r. some (role_code r); entries = [] }

abbrev invoice : PostInput
invoice = record {
  year = 2026;
  source_type = purchase_invoice;
  source_ref = 7;
  lines = purchase_invoice_lines (pos 100) (pos 15) (pos 115);
}

abbrev after : PostResult × Books
after = value_or (nothing, books) (post_within invoice books)

post-IsJournal_example : IsJournal after.1.entries
unfolding post_within purchase_invoice_lines insert lookup ◌+ℤ◌ ◌-ℤ◌
post-IsJournal_example = post-IsJournal invoice books tt refl

post-total_example : (r : PostResult × Books) × (post_within invoice books ≡ ok r)
unfolding purchase_invoice_lines ◌+ℤ◌ ◌-ℤ◌
post-total_example = post-total invoice books tt refl

abbrev shortage : PostInput
shortage = record {
  year = 2026;
  source_type = cycle_count;
  source_ref = 8;
  lines = cycle_count_lines (negsuc 11);
}

reverse_lines_lem_example :
    ((r : LedgerRole)
      → role_net r (cycle_count_lines (negsuc 11))
          +ℤ role_net r (reverse_lines (cycle_count_lines (negsuc 11)))
        ≡ pos 0)
    × (reverse_lines (reverse_lines (cycle_count_lines (negsuc 11)))
        ≡ cycle_count_lines (negsuc 11))
reverse_lines_lem_example = reverse_lines_lem (cycle_count_lines (negsuc 11))
