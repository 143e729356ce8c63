-- ===== src/Ledger/Numbers.antt =====
-- The numbers of the journal entries: `nextEntryNumber` of
-- backend-nest/src/common/wms/ledger-posting.service.ts takes the last one as a text.
use werehouse.Prelude.{
  ℕ, zero, suc, ◌≤◌, ◌<◌, ◌≡◌, refl, inl, inr, true, false, List, [], ◌∷◌, arith,
}
use werehouse.Prelude.Tests.{ltb, nat_beq, Bool-cases}
use werehouse.Prelude.Lists.{All}
use werehouse.Ledger.{
  JournalEntry, excess_digits, text_leb, text_max, last_number, next_entry_number, number_taken,
}

-- Every number still has its six digits.
abbrev pub AllShort : List JournalEntry → Type 0
AllShort = All (λ (e : JournalEntry). e.number ≤ 999999)

short_excess : (n : ℕ) → n ≤ 999999 → excess_digits n n ≡ 0
unfolding excess_digits
short_excess zero h = refl
short_excess (suc n) h =
    let few : ltb (suc n) 1000000 ≡ true = ground (arith, h) in rw (excess_digits, few) refl

-- Numbers of six digits are ordered as their texts.
text_max-short :
    (m n : ℕ)
    → m ≤ 999999
    → n ≤ 999999
    → (m ≤ text_max m n) × (n ≤ text_max m n) × (text_max m n ≤ 999999)
unfolding text_max text_leb
text_max-short m n hm hn = rw (short_excess m hm, short_excess n hn) (ground arith)

last_number-short :
    (year : ℕ) (entries : List JournalEntry) → AllShort entries → last_number year entries ≤ 999999
unfolding last_number
last_number-short year [] h = omega arith
last_number-short year (e ∷ entries) h =
    let rest = last_number-short year entries h.1 in
    let top = text_max-short e.number (last_number year entries) h.0 rest in
    ground (arith, rest, top)

above-free :
    (year n : ℕ) (entries : List JournalEntry)
    → AllShort entries
    → last_number year entries < n
    → number_taken year n entries ≡ false
unfolding last_number number_taken
above-free year n [] h above = refl
above-free year n (e ∷ entries) h above =
    let rest = last_number-short year entries h.1 in
    let top = text_max-short e.number (last_number year entries) h.0 rest in
    elim (Bool-cases (nat_beq e.year year)) [
      | inl same ↦
          let above' : text_max e.number (last_number year entries) < n = rw same at above in
          let free = above-free year n entries h.1 (omega (arith, top, above')) in
          let other : nat_beq e.number n ≡ false = ground (arith, top, above') in
          rw (same, other) free
      | inr other ↦ rw other (above-free year n entries h.1 (rw other at above))
    ]

pub next-free :
    (year : ℕ) (entries : List JournalEntry)
    → AllShort entries
    → number_taken year (next_entry_number year entries) entries ≡ false
unfolding next_entry_number
next-free year entries h = above-free year _ entries h (omega arith)
