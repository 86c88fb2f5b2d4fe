-- ===== src/Dump/Count.antt =====
-- dump_pt_summary and dump_pt agree on how many entries are mapped.
use dangless_malloc.Prelude.{
  ℕ, zero, suc, ◌+◌, ◌≡◌, sym, ap, ◌∙◌, inl, inr, Bool, true, false, not, List, [], ◌∷◌, length,
  ltb, ◌==◌, if◌then◌else◌, arith, Bool-cases,
}
use dangless_malloc.VirtMem.{pt_num_entries, pt_level_shift}
use dangless_malloc.Dump.{
  Region, region_before, kind_changed, dump_entries, dump_pt, summarise, dump_pt_summary,
}

-- The entries of the lines that say Mapped.
abbrev pub num_mapped : List Region → ℕ
num_mapped [] = 0
num_mapped (r ∷ rest) = (if r.mapped then r.entries else 0) + num_mapped rest

-- One entry: what the line before it and the lines behind it count.
num_mapped_step :
    (shift i : ℕ) (mapped kind : Bool) (count listed : ℕ) (rest : ℕ → List Region)
    → ((c : ℕ) → num_mapped (rest c) ≡ (if kind then c else 0) + listed)
    → num_mapped (
        let changed = kind_changed mapped kind count in
        if changed
        then region_before shift mapped i count ∷ rest ((if changed then 0 else count) + 1)
        else rest ((if changed then 0 else count) + 1))
      ≡ (if mapped then count else 0) + ((if kind then 1 else 0) + listed)
num_mapped_step shift i true true count listed rest h = omega (arith, h (count + 1))
num_mapped_step shift i false false count listed rest h = omega (arith, h (count + 1))
num_mapped_step shift i true false zero listed rest h = omega (arith, h 1)
num_mapped_step shift i false true zero listed rest h = omega (arith, h 1)
num_mapped_step shift i true false (suc count) listed rest h =
    let there : ltb 0 (suc count) ≡ true = ground arith in rw there (omega (arith, h 1))
num_mapped_step shift i false true (suc count) listed rest h =
    let there : ltb 0 (suc count) ≡ true = ground arith in rw there (omega (arith, h 1))

length-dump_entries :
    (pt : ℕ → ℕ) (level n i : ℕ)
    → length (dump_entries pt level (suc n) i)
      ≡ (if not (pt i == 0) then 1 else 0) + length (dump_entries pt level n (i + 1))
unfolding dump_entries
length-dump_entries pt level n i = elim (Bool-cases (pt i == 0)) [
  | inl empty ↦ rw empty (omega arith)
  | inr used ↦ rw used (omega arith)
]

num_mapped-summarise :
    (pt : ℕ → ℕ) (level shift n i : ℕ) (mapped : Bool) (count : ℕ)
    → num_mapped (summarise pt shift n i mapped count)
      ≡ (if mapped then count else 0) + length (dump_entries pt level n i)
unfolding summarise dump_entries
num_mapped-summarise pt level shift zero i true zero = ground arith
num_mapped-summarise pt level shift zero i false zero = ground arith
num_mapped-summarise pt level shift zero i true (suc count) = ground arith
num_mapped-summarise pt level shift zero i false (suc count) = ground arith
num_mapped-summarise pt level shift (suc n) i mapped count =
    num_mapped_step shift i mapped (not (pt i == 0)) count
      (length (dump_entries pt level n (i + 1))) (summarise pt shift n (i + 1) (not (pt i == 0)))
      (num_mapped-summarise pt level shift n (i + 1) (not (pt i == 0)))
    ∙ ap (λ l. (if mapped then count else 0) + l) (sym (length-dump_entries pt level n i))

-- From the first entry, with nothing before it.
num_mapped_all :
    (pt : ℕ → ℕ) (level shift n : ℕ)
    → num_mapped (summarise pt shift n 0 false 0) ≡ length (dump_entries pt level n 0)
num_mapped_all pt level shift n = omega (arith, num_mapped-summarise pt level shift n 0 false 0)

-- For a page table of any entries and any level: the numbers of entries in the lines of
-- dump_pt_summary that say Mapped add up to the number of lines that dump_pt prints.
pub num_mapped-dump_pt_summary :
    (pt : ℕ → ℕ) (level : ℕ) → num_mapped (dump_pt_summary pt level) ≡ length (dump_pt pt level)
unfolding dump_pt_summary dump_pt
num_mapped-dump_pt_summary pt level = num_mapped_all pt level (pt_level_shift level) pt_num_entries
