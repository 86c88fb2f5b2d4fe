-- ===== src/Dump.antt =====
-- The dumps of a page table, sources/src/dump.c: dump_pte, dump_pt and dump_pt_summary. What they
-- print is a list of reports.
pub mod Summary
pub mod Count
pub mod Tests
use dangless_malloc.Prelude.{
  ℕ, zero, suc, ◌+◌, ◌-◌, ◌*◌, ◌%◌, ◌^◌, Bool, true, false, not, ◌&&◌, List, [], ◌∷◌, ltb, ◌==◌,
  if◌then◌else◌, bit_and,
}
use dangless_malloc.VirtMem.{
  pte_v, pte_w, pte_ps, pte_nx, pte_frame, pt_num_entries, pt_level_shift,
}

abbrev pub pte_u : ℕ
pte_u = 0x4

-- In an entry of level 1 the bit of PTE_PS is PTE_PAT.
abbrev pub pte_pat : ℕ
pte_pat = 0x80

-- The bits that dump_pte names, in its order.
abbrev pub handled_bits : ℕ → List ℕ
handled_bits level = pte_v ∷ pte_w ∷ pte_u ∷ pte_nx ∷ (if level == 1 then pte_pat else pte_ps) ∷ []

-- The bits of a list that an entry has.
abbrev pub bits_set : ℕ → List ℕ → List ℕ
bits_set pte [] = []
bits_set pte (bit ∷ bits) =
    let rest = bits_set pte bits in if bit_and pte bit == 0 then rest else bit ∷ rest

-- A line of `dump_pte`.
pub record PteReport : Type 0 where
  pub addr : ℕ
  pub bits : List ℕ
  pub raw : ℕ

unfoldable pub dump_pte : ℕ → ℕ → PteReport
dump_pte pte level = record {
  addr = bit_and pte pte_frame;
  bits = bits_set pte (handled_bits level);
  raw = pte;
}

-- `(uintptr_t)i << level_shift`
abbrev pub entry_address : ℕ → ℕ → ℕ
entry_address shift i = i * 2 ^ shift % 2 ^ 64

-- A line of `dump_pt`.
pub record EntryReport : Type 0 where
  pub begin : ℕ
  pub end : ℕ
  pub by : PteReport

-- The loop of `dump_pt` over the `n` entries from number `i` on.
unfoldable pub dump_entries : (ℕ → ℕ) → ℕ → ℕ → ℕ → List EntryReport
unfolding dump_pte
dump_entries pt level zero i = []
dump_entries pt level (suc n) i =
    let rest = dump_entries pt level n (i + 1) in
    if pt i == 0
    then rest
    else record {
      begin = entry_address (pt_level_shift level) i;
      end = entry_address (pt_level_shift level) (i + 1);
      by = dump_pte (pt i) level;
    }
      ∷ rest

unfoldable pub dump_pt : (ℕ → ℕ) → ℕ → List EntryReport
unfolding dump_entries
dump_pt pt level = dump_entries pt level pt_num_entries 0

-- A line of `dump_pt_summary`.
pub record Region : Type 0 where
  pub mapped : Bool
  pub begin : ℕ
  pub end : ℕ
  pub entries : ℕ

-- The line for the `count` entries before number `i`.
abbrev pub region_before : ℕ → Bool → ℕ → ℕ → Region
region_before shift mapped i count = record {
  mapped = mapped;
  begin = entry_address shift (i - count);
  end = entry_address shift i;
  entries = count;
}

-- `mapped` is of another kind than the entry, and there are entries before it.
abbrev pub kind_changed : Bool → Bool → ℕ → Bool
kind_changed mapped true count = not mapped && ltb 0 count
kind_changed mapped false count = mapped && ltb 0 count

-- The loop of `dump_pt_summary` over the `n` entries from number `i` on, and the line behind it.
unfoldable pub summarise : (ℕ → ℕ) → ℕ → ℕ → ℕ → Bool → ℕ → List Region
summarise pt shift zero i mapped count =
    if ltb 0 count then region_before shift mapped i count ∷ [] else []
summarise pt shift (suc n) i mapped count =
    let changed = kind_changed mapped (not (pt i == 0)) count in
    let rest =
      summarise pt shift n (i + 1) (not (pt i == 0)) ((if changed then 0 else count) + 1) in
    if changed then region_before shift mapped i count ∷ rest else rest

unfoldable pub dump_pt_summary : (ℕ → ℕ) → ℕ → List Region
unfolding summarise
dump_pt_summary pt level = summarise pt (pt_level_shift level) pt_num_entries 0 false 0
