-- ===== src/Ledger/Posting.antt =====
-- What posting does to the journal.
use werehouse.Prelude.{
  ℕ, ◌+◌, ◌*◌, ◌≤◌, ◌≡◌, ◌⊎◌, refl, sym, ap, ◌∙◌, inl, inr, Bool, true, false, not, ◌||◌, none,
  List, [], ◌∷◌, map, arith,
}
use werehouse.Prelude.Tests.{Bool-cases, Option-cases, nat_beq, nat_beq_iff, if◌then◌else◌}
use werehouse.Prelude.Int.{ℤ, pos, is_pos, is_neg, abs, ◌+ℤ◌, ◌-ℤ◌, int_laws}
use werehouse.Prelude.Lists.{All, length, keep, keep-true, keep-false}
use werehouse.Prelude.Table.{Table}
use werehouse.Costing.{round_half_up}
use werehouse.Result.{
  Result, ok, conflict, entry_number_taken, Result-cases, >>=-eq-ok, ok-injective, throw_if,
  throw_if-ok,
}
use werehouse.Ledger.{
  LedgerLine, PostInput, EntryLine, JournalEntry, Books, PostResult, posted, unmapped, duplicate,
  nothing, is_zero, has_amount, find_entry, missing_roles, merge, netted, total_debit, total_credit,
  entry_has_amount, next_entry_number, number_taken, stored_line, entry_of, is_empty, write_entry,
  post_mapped, post_within,
}
use werehouse.Ledger.Numbers.{AllShort, next-free}
use werehouse.Ledger.Balance.{net_of, netted-balanced, missing-AllMapped}

-- One of the two sides is 0.
abbrev pub IsOneSided : EntryLine → Type 0
IsOneSided l = (l.debit ≡ 0) ⊎ (l.credit ≡ 0)

-- The stored debits and credits of lines are within half a hundredth for each line.
abbrev pub IsNear : List EntryLine → Type 0
IsNear lines =
    (2 * total_debit lines ≤ 2 * total_credit lines + length lines)
    × (2 * total_credit lines ≤ 2 * total_debit lines + length lines)

-- Each line of an entry has one side, and the sides agree up to the rounding of the lines.
abbrev pub IsBalanced : JournalEntry → Type 0
IsBalanced e = IsNear e.lines × All IsOneSided e.lines

-- Every entry is balanced, and no two entries share a source, or a number of one year.
abbrev pub IsJournal : List JournalEntry → Type 0
IsJournal [] = Unit
IsJournal (e ∷ entries) =
    IsBalanced e
    × (find_entry e.source_ref entries ≡ none)
    × (number_taken e.year e.number entries ≡ false)
    × IsJournal entries

total_debit-keep :
    (lines : List EntryLine) → total_debit (keep entry_has_amount lines) ≡ total_debit lines
unfolding total_debit
total_debit-keep [] = refl
total_debit-keep (l ∷ lines) = ground (arith, total_debit-keep lines)

total_credit-keep :
    (lines : List EntryLine) → total_credit (keep entry_has_amount lines) ≡ total_credit lines
unfolding total_credit
total_credit-keep [] = refl
total_credit-keep (l ∷ lines) = ground (arith, total_credit-keep lines)

stored_half : (n : ℕ) → (100 * round_half_up n 100 ≤ n + 50) × (n ≤ 100 * round_half_up n 100 + 50)
unfolding round_half_up
stored_half n = (omega arith, omega arith)

stored_zero : round_half_up 0 100 ≡ 0
unfolding round_half_up
stored_zero = refl

stored-IsOneSided : (l : EntryLine) → IsOneSided l → IsOneSided (stored_line l)
stored-IsOneSided l (inl none_left) = inl (rw none_left stored_zero)
stored-IsOneSided l (inr none_left) = inr (rw none_left stored_zero)

-- The rounding of a line moves the difference of the two sides by half a hundredth at most.
stored_shift :
    (l : EntryLine)
    → IsOneSided l
    → (100 * (stored_line l).debit + l.credit ≤ 100 * (stored_line l).credit + l.debit + 50)
      × (100 * (stored_line l).credit + l.debit ≤ 100 * (stored_line l).debit + l.credit + 50)
stored_shift l (inl none_left) =
    let half = stored_half l.credit in
    rw (none_left, stored_zero) (omega (arith, half), omega (arith, half))
stored_shift l (inr none_left) =
    let half = stored_half l.debit in
    rw (none_left, stored_zero) (omega (arith, half), omega (arith, half))

stored_lines-shift :
    (lines : List EntryLine)
    → All IsOneSided lines
    → let stored = map stored_line lines in
      (100 * total_debit stored + total_credit lines
        ≤ 100 * total_credit stored + total_debit lines + 50 * length stored)
      × (100 * total_credit stored + total_debit lines
          ≤ 100 * total_debit stored + total_credit lines + 50 * length stored)
      × All IsOneSided stored
unfolding total_debit total_credit
stored_lines-shift [] h = (omega arith, omega arith, tt)
stored_lines-shift (l ∷ lines) h =
    let this = stored_shift l h.0 in
    let rest = stored_lines-shift lines h.1 in
    (omega (arith, this, rest), omega (arith, this, rest), (stored-IsOneSided l h.0, rest.2))

keep-IsOneSided :
    (lines : List EntryLine) → All IsOneSided lines → All IsOneSided (keep entry_has_amount lines)
keep-IsOneSided [] h = tt
keep-IsOneSided (l ∷ lines) h = elim (Bool-cases (entry_has_amount l)) [
  | inl kept ↦ rw (keep-true entry_has_amount l lines kept) (h.0, keep-IsOneSided lines h.1)
  | inr dropped ↦ rw (keep-false entry_has_amount l lines dropped) (keep-IsOneSided lines h.1)
]

sides_apart :
    (n : ℤ) → ((if is_pos n then abs n else 0) ≡ 0) ⊎ ((if is_neg n then abs n else 0) ≡ 0)
sides_apart n = ground arith

netted-IsOneSided : (m : Table ℕ (ℤ × ℤ)) → All IsOneSided (netted m)
unfolding netted
netted-IsOneSided [] = tt
netted-IsOneSided ((a, (debit, credit)) ∷ m) = (sides_apart (debit -ℤ credit), netted-IsOneSided m)

no_amount :
    (debit credit : ℤ)
    → (not (is_zero debit) || not (is_zero credit)) ≡ false
    → (debit ≡ pos 0) × (credit ≡ pos 0)
no_amount debit credit h = ground arith

net_of-keep : (lines : List LedgerLine) → net_of (keep has_amount lines) ≡ net_of lines
net_of-keep [] = refl
net_of-keep (l ∷ lines) = elim (Bool-cases (has_amount l)) [
  | inl kept ↦
      rw (keep-true has_amount l lines kept)
        (ap (λ (x : ℤ). l.debit -ℤ l.credit +ℤ x) (net_of-keep lines))
  | inr dropped ↦
      let (debit, credit) = no_amount l.debit l.credit dropped in
      rw (keep-false has_amount l lines dropped, debit, credit) (net_of-keep lines ∙ omega int_laws)
]

-- The lines of an input that have an amount, merged and netted.
abbrev netted_input : PostInput → Books → List EntryLine
netted_input input b = netted (merge b.account_of (keep has_amount input.lines) [])

-- What a call that posted did.
record Posted (input : PostInput) (b : Books) (r : PostResult × Books) : Type 0 where
  fresh : find_entry input.source_ref b.entries ≡ none
  equal : total_debit (netted_input input b) ≡ total_credit (netted_input input b)
  free : number_taken input.year (next_entry_number input.year b.entries) b.entries ≡ false
  result : r.0 ≡ posted (next_entry_number input.year b.entries)
  stored : r.1 ≡ record b {
    entries =
        entry_of input (next_entry_number input.year b.entries) (netted_input input b) ∷ b.entries;
  }

abbrev is_posted : PostResult → Bool
is_posted (posted n) = true
is_posted _ = false

quiet :
    (x : PostResult) (b : Books) {r : PostResult × Books}
    → is_posted x ≡ false
    → ◌≡◌ {A = Result (PostResult × Books)} (ok (x, b)) (ok r)
    → (r.1 ≡ b) × (is_posted r.0 ≡ false)
quiet x b e h = rw (sym (ok-injective h)) (refl, e)

write-Posted :
    (input : PostInput) (lines : List EntryLine) (b : Books) {r : PostResult × Books}
    → write_entry input lines b ≡ ok r
    → (total_debit lines ≡ total_credit lines)
      × (((r.1 ≡ b) × (is_posted r.0 ≡ false))
          ⊎ ((number_taken input.year (next_entry_number input.year b.entries) b.entries ≡ false)
              × (r ≡ (
                posted (next_entry_number input.year b.entries),
                record b {
                  entries =
                      entry_of input (next_entry_number input.year b.entries) lines ∷ b.entries;
                },
              ))))
unfolding write_entry
write-Posted input lines b h =
    let (u, hu, h1) =
      >>=-eq-ok (throw_if (not (nat_beq (total_debit lines) (total_credit lines))) _) _ h in
    let equal : total_debit lines ≡ total_credit lines = ground (arith, throw_if-ok _ _ hu) in
    elim (Bool-cases (nat_beq (total_debit lines) 0)) [
      | inl none_left ↦ (equal, inl (quiet nothing b refl (rw none_left at h1)))
      | inr some_left ↦
          let (v, hv, h2) =
            >>=-eq-ok
              (throw_if (number_taken input.year (next_entry_number input.year b.entries) b.entries)
                (conflict entry_number_taken))
              _ (rw some_left at h1) in
          (equal, inr (throw_if-ok _ _ hv, sym (ok-injective h2)))
    ]

-- A successful call leaves the books alone or writes one entry.
post-Posted :
    (input : PostInput) (b : Books) {r : PostResult × Books}
    → post_within input b ≡ ok r
    → ((r.1 ≡ b) × (is_posted r.0 ≡ false)) ⊎ Posted input b r
unfolding post_within post_mapped
post-Posted input b h =
    let lines = keep has_amount input.lines in
    elim (Bool-cases (is_empty lines)) [
      | inl empty ↦ inl (quiet nothing b refl (rw empty at h))
      | inr some_lines ↦ elim (Option-cases (find_entry input.source_ref b.entries)) [
        | inr (e, old) ↦ inl (quiet (duplicate e.number) b refl (rw (some_lines, old) at h))
        | inl fresh ↦ elim (Bool-cases (is_empty (missing_roles b.account_of lines))) [
          | inr missing ↦ inl (
              quiet (unmapped (missing_roles b.account_of lines)) b refl
                (rw (some_lines, fresh, missing) at h))
          | inl mapped ↦
              let (equal, outcome) =
                write-Posted input (netted_input input b) b (rw (some_lines, fresh, mapped) at h) in
              elim outcome [
                | inl same ↦ inl same
                | inr (free, e) ↦ inr (record {
                  fresh = fresh;
                  equal = equal;
                  free = free;
                  result = ap (λ (x : PostResult × Books). x.0) e;
                  stored = ap (λ (x : PostResult × Books). x.1) e;
                })
              ]
        ]
      ]
    ]

-- Posting keeps the journal: whatever the input, each line of every entry has at most one side, the
-- stored debits and credits of an entry differ by at most half a hundredth for each of its lines (the
-- columns round what balanced before), no two entries come from one source, and no two of a year
-- have one number.
pub post-IsJournal :
    (input : PostInput) (b : Books) {r : PostResult × Books}
    → IsJournal b.entries
    → post_within input b ≡ ok r
    → IsJournal r.1.entries
post-IsJournal input b v h = elim (post-Posted input b h) [
  | inl (same, _) ↦ rw same v
  | inr p ↦
      let lines = netted_input input b in
      let kept = keep entry_has_amount lines in
      let (more, less, one_sided) =
        stored_lines-shift kept (keep-IsOneSided lines (netted-IsOneSided _)) in
      let equal : total_debit kept ≡ total_credit kept =
        total_debit-keep lines ∙ p.equal ∙ sym (total_credit-keep lines) in
      rw p.stored
        (((omega (arith, more, equal), omega (arith, less, equal)), one_sided), p.fresh, p.free, v)
]

beq_self : (n : ℕ) → nat_beq n n ≡ true
beq_self n = (nat_beq_iff n n).1 refl

balanced_write :
    (input : PostInput) (lines : List EntryLine) (b : Books)
    → total_debit lines ≡ total_credit lines
    → number_taken input.year (next_entry_number input.year b.entries) b.entries ≡ false
    → (r : PostResult × Books) × (write_entry input lines b ≡ ok r)
unfolding write_entry
balanced_write input lines b equal free = elim (Result-cases (write_entry input lines b)) [
  | inl r ↦ r
  | inr (e, he) ↦ elim (Bool-cases (nat_beq (total_debit lines) 0)) [
    | inl none_left ↦ cc (rw (sym equal, beq_self, none_left) at he)
    | inr some_left ↦ cc (rw (sym equal, beq_self, some_left, free) at he)
  ]
]

-- A call whose lines balance never throws, whatever the mapping, as long as every number of the
-- journal has its six digits.
pub post-total :
    (input : PostInput) (b : Books)
    → AllShort b.entries
    → net_of input.lines ≡ pos 0
    → (r : PostResult × Books) × (post_within input b ≡ ok r)
unfolding post_within post_mapped
post-total input b short h =
    let lines = keep has_amount input.lines in
    elim (Result-cases (post_within input b)) [
      | inl r ↦ r
      | inr (e, he) ↦ elim (Bool-cases (is_empty lines)) [
        | inl empty ↦ cc (rw empty at he)
        | inr some_lines ↦ elim (Option-cases (find_entry input.source_ref b.entries)) [
          | inr (x, old) ↦ cc (rw (some_lines, old) at he)
          | inl fresh ↦ elim (Bool-cases (is_empty (missing_roles b.account_of lines))) [
            | inr missing ↦ cc (rw (some_lines, fresh, missing) at he)
            | inl mapped ↦
                let equal =
                  (netted-balanced b.account_of lines
                      (missing-AllMapped b.account_of lines mapped)).1
                    (net_of-keep input.lines ∙ h) in
                let (r, written) =
                  balanced_write input _ b equal (next-free input.year b.entries short) in
                cc (rw (some_lines, fresh, mapped) at he, written)
          ]
        ]
      ]
    ]

-- After a post that wrote an entry, a second post of the same source writes nothing and reports the
-- number of the first entry, whatever its other lines are, if one of them has an amount.
pub post-post :
    (input again : PostInput) (b : Books) {n : ℕ} {b' : Books}
    → again.source_ref ≡ input.source_ref
    → is_empty (keep has_amount again.lines) ≡ false
    → post_within input b ≡ ok (posted n, b')
    → post_within again b' ≡ ok (duplicate n, b')
unfolding post_within find_entry
post-post input again b same some_lines h = elim (post-Posted input b h) [
  | inl (_, silent) ↦ cc silent
  | inr p ↦ rw (p.stored, some_lines, same, beq_self input.source_ref) (cc p.result)
]
