-- ===== src/Dump/Tests.antt =====
-- Runs of the dumps on small tables, and their theorems at concrete inputs.
use dangless_malloc.Prelude.{
  ℕ, ◌≡◌, refl, arith, true, false, [], ◌∷◌, length, ◌==◌, ◌||◌, if◌then◌else◌,
}
use dangless_malloc.VirtMem.{pt_level_shift}
use dangless_malloc.Dump.{dump_pte, summarise, dump_pt, dump_pt_summary}
use dangless_malloc.Dump.Summary.{is_mapped, region_of, Tiles, dump_pt_summary-Tiles}
use dangless_malloc.Dump.Count.{num_mapped, num_mapped-dump_pt_summary}

-- Entries 1 and 2 are used.
abbrev two_entries : ℕ → ℕ
two_entries i = if i == 1 || i == 2 then 0x5083 else 0

test_summary :
    summarise two_entries 12 4 0 false 0
    ≡ region_of 12 false 0 1 ∷ region_of 12 true 1 3 ∷ region_of 12 false 3 4 ∷ []
unfolding summarise
test_summary = refl

test_pte : dump_pte 0x5083 1 ≡ record { addr = 0x5000; bits = 1 ∷ 2 ∷ 0x80 ∷ []; raw = 0x5083 }
unfolding dump_pte
test_pte = refl

dump_pt_summary-Tiles_example :
    Tiles two_entries (pt_level_shift 2) (is_mapped two_entries 0) 0 (dump_pt_summary two_entries 2)
dump_pt_summary-Tiles_example = dump_pt_summary-Tiles two_entries 2 (omega arith) (omega arith)

num_mapped-dump_pt_summary_example :
    num_mapped (dump_pt_summary two_entries 1) ≡ length (dump_pt two_entries 1)
num_mapped-dump_pt_summary_example = num_mapped-dump_pt_summary two_entries 1
