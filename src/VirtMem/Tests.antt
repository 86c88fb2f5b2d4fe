-- ===== src/VirtMem/Tests.antt =====
-- A small machine with an empty root table, and the page table functions run on it.
use dangless_malloc.Prelude.{
  ℕ, suc, ◌+◌, ◌-◌, ◌*◌, ◌^◌, ◌<◌, ◌≡◌, refl, arith, none, some, [], ltb, leb, ◌==◌, if◌then◌else◌,
}
use dangless_malloc.Dune.{Dune, Machine}
use dangless_malloc.VirtMem.{
  flag_isset, pt_walk, pt_resolve_page, pt_map_page, pt_unmap_page, pte_w,
}
use dangless_malloc.Page.{pgsize}
use dangless_malloc.VirtMem.{pt_map_region}
use dangless_malloc.VirtMem.Region.{InPage}
use dangless_malloc.VirtMem.Undo.{Placed}
use dangless_malloc.VirtMem.Place.{pt_map_region-Placed}
use dangless_malloc.VirtMem.Entries.{IsFrame, IsFlags}
use dangless_malloc.VirtMem.Tree.{IsLayout, Sites, IsTree}
use dangless_malloc.VirtMem.Walk.{Found, pt_walk-Found}
use dangless_malloc.VirtMem.Map.{Mapped, pt_map_page-Mapped}
use dangless_malloc.VirtMem.Unmap.{Unmapped, pt_unmap_page-Unmapped}

-- One megabyte of physical memory: 64 KB of stack on top, 64 KB of mmap() below, three free pages.
abbrev pub small_dune : Dune
small_dune = record {
  stack_base = 2 ^ 40;
  gpa_stack_size = 2 ^ 16;
  mmap_base = 2 ^ 36;
  gpa_map_size = 2 ^ 16;
  phys_limit = 2 ^ 20;
  va_to_pa = λ a.
      if leb (2 ^ 40) a
      then a - 2 ^ 40 + 983040
      else if leb (2 ^ 36) a
      then a - 2 ^ 36 + 917504
      else a;
  page_at = λ n. if ltb n 3 then (n + 2) * 4096 else 0;
}

pub small_dune-IsLayout : IsLayout small_dune
small_dune-IsLayout = record {
  room = omega arith;
  stack_pa = refl;
  mmap_pa = refl;
  limit = omega arith;
  mmap_pa_aligned = refl;
  mmap_aligned = refl;
  above = omega arith;
  mmap_fits = omega arith;
  page_aligned = λ n. ground arith;
  page_low = λ n. ground arith;
  page_once = λ n k got same. ground (arith, got, same);
}

abbrev pub empty_machine : Machine
empty_machine = record { mem = λ a. 0; cr3 = 4096; calls = 0; flushed = [] }

abbrev pub only_root : Sites
only_root pa = if pa == 4096 then some (4, 0) else none

pub empty_machine-IsTree : IsTree small_dune only_root empty_machine
unfolding flag_isset
empty_machine-IsTree = record {
  root = refl;
  page = λ pa level x s. record { aligned = ground (arith, s); below = ground (arith, s) };
  child = λ pa k x i s h v ps. absurd (cc v);
  fresh = λ n h got. ground arith;
}

mapped_walk : pt_walk small_dune empty_machine 0x400000 1 ≡ some (4, 4096)
unfolding pt_walk
mapped_walk = refl

unmapped_before : pt_resolve_page small_dune empty_machine 0x400000 ≡ some (0, 0)
unfolding pt_resolve_page
unmapped_before = refl

IsFrame-five : IsFrame 0x5000
IsFrame-five = record { aligned = refl; fits = omega arith }

writable : IsFlags pte_w
writable = record { no_frame = refl; no_ps = refl }

pt_map_page-Mapped_example :
    Mapped small_dune empty_machine 0x5000 0x400000
      (pt_map_page small_dune 0x5000 0x400000 pte_w empty_machine)
pt_map_page-Mapped_example =
    pt_map_page-Mapped small_dune-IsLayout 0x5000 0x400000 pte_w IsFrame-five refl writable
      only_root empty_machine empty_machine-IsTree unmapped_before

pt_unmap_page-Unmapped_example :
    Unmapped small_dune only_root empty_machine 0x400000
      (pt_unmap_page small_dune 0x400000 1 empty_machine)
pt_unmap_page-Unmapped_example =
    pt_unmap_page-Unmapped small_dune-IsLayout 0x400000 empty_machine empty_machine-IsTree

pt_walk-Found_example :
    (k : ℕ) × (e : ℕ) × (pt_walk small_dune empty_machine 0x400000 1 ≡ some (suc k, e))
    × Found small_dune only_root empty_machine 0x400000 k e
pt_walk-Found_example = pt_walk-Found small_dune-IsLayout empty_machine-IsTree 0x400000

no_translation :
    (va' k : ℕ)
    → k < 2
    → InPage 0x400000 k va'
    → pt_resolve_page small_dune empty_machine va' ≡ some (0, 0)
unfolding pt_resolve_page
no_translation va' k h e = refl

pt_map_region-Placed_example :
    Placed small_dune empty_machine 0x5000 0x400000 2
      (pt_map_region small_dune 0x5000 0x400000 (2 * pgsize) pte_w empty_machine)
pt_map_region-Placed_example =
    pt_map_region-Placed small_dune-IsLayout 0x5000 0x400000 2 pte_w refl (omega arith) refl
      (omega arith) writable only_root empty_machine empty_machine-IsTree no_translation
