-- ===== src/VirtMem/Tree.antt =====
-- The shape of the page tables that CR3 points to: a tree, in which every table has one place.
use dangless_malloc.Prelude.{
  ℕ, suc, ◌+◌, ◌-◌, ◌*◌, ◌%◌, ◌^◌, ◌≤◌, ◌<◌, ◌≡◌, ◌≢◌, true, false, arith, bit_and, Option, none,
  some, word_size,
}
use dangless_malloc.Page.{pgsize}
use dangless_malloc.Dune.{Dune, Machine, stack_pa_base, mmap_pa_base, table_vaddr}
use dangless_malloc.VirtMem.{flag_isset, pte_v, pte_ps, pte_frame, entry_at}
use dangless_malloc.VirtMem.Entries.{index, pt_level_offset_lem}

-- The memory layout that the comments of platform/dune describe: the stack lies on top of physical
-- memory, the mmap() region below it, and the pages of the page allocator below that, at their own
-- addresses; `dune_page_alloc` gives whole pages, none of them twice.
pub record IsLayout (dune : Dune) : Type 0 where
  pub room : dune.gpa_stack_size + dune.gpa_map_size ≤ dune.phys_limit
  pub stack_pa : stack_pa_base dune ≡ dune.phys_limit - dune.gpa_stack_size
  pub mmap_pa : mmap_pa_base dune ≡ dune.phys_limit - dune.gpa_stack_size - dune.gpa_map_size
  pub limit : dune.phys_limit ≤ 2 ^ 52
  pub mmap_pa_aligned : mmap_pa_base dune % pgsize ≡ 0
  pub mmap_aligned : dune.mmap_base % pgsize ≡ 0
  pub above : mmap_pa_base dune ≤ dune.mmap_base
  pub mmap_fits : dune.mmap_base + dune.gpa_map_size < word_size
  pub page_aligned : (n : ℕ) → dune.page_at n % pgsize ≡ 0
  pub page_low : (n : ℕ) → dune.page_at n < mmap_pa_base dune
  pub page_once : (n k : ℕ) → dune.page_at n ≢ 0 → dune.page_at n ≡ dune.page_at k → n ≡ k

-- A page that may hold a table.
pub record IsTablePage (dune : Dune) (pa : ℕ) : Type 0 where
  pub aligned : pa % pgsize ≡ 0
  pub below : pa < stack_pa_base dune

module _ {dune : Dune} (lay : IsLayout dune) where
  -- Tables lie at whole pages, different tables at different ones, and below 2 ^ 64.
  pub table_vaddr_lem :
      {pa : ℕ}
      → IsTablePage dune pa
      → (table_vaddr dune pa % pgsize ≡ 0) × (table_vaddr dune pa + pgsize ≤ word_size)
  unfolding table_vaddr
  table_vaddr_lem {pa} t = ground (
    arith, t.aligned, t.below, lay.room, lay.stack_pa, lay.mmap_pa, lay.limit, lay.mmap_pa_aligned,
    lay.mmap_aligned, lay.above, lay.mmap_fits,
  )

  pub table_vaddr_injective :
      {pa pa' : ℕ}
      → IsTablePage dune pa
      → IsTablePage dune pa'
      → table_vaddr dune pa ≡ table_vaddr dune pa'
      → pa ≡ pa'
  unfolding table_vaddr
  table_vaddr_injective t t' e = ground (
    arith, t.aligned, t.below, lay.room, lay.stack_pa, lay.mmap_pa, lay.limit, t'.aligned, t'.below,
    lay.mmap_pa_aligned, lay.mmap_aligned, lay.above, lay.mmap_fits,
  )

-- The place of a table: its level, and the number of the region that it maps.
abbrev pub Sites : Type 0
Sites = ℕ → Option (ℕ × ℕ)

-- The address of entry `i` of the table at `pa`.
abbrev pub entry : Dune → ℕ → ℕ → ℕ
entry dune pa i = table_vaddr dune pa + 8 * i

pub record IsTree (dune : Dune) (site : Sites) (m : Machine) : Type 0 where
  pub root : site m.cr3 ≡ some (4, 0)
  pub page : (pa level x : ℕ) → site pa ≡ some (level, x) → IsTablePage dune pa
  pub child :
      (pa k x i : ℕ)
      → site pa ≡ some (suc (suc k), x)
      → i < 512
      → flag_isset (m.mem (entry dune pa i)) pte_v ≡ true
      → flag_isset (m.mem (entry dune pa i)) pte_ps ≡ false
      → site (bit_and (m.mem (entry dune pa i)) pte_frame) ≡ some (suc k, x * 512 + i)
  pub fresh : (n : ℕ) → m.calls ≤ n → dune.page_at n ≢ 0 → site (dune.page_at n) ≡ none

module _ {dune : Dune} (lay : IsLayout dune) where
  pub entry_injective :
      {pa pa' : ℕ} (i i' : ℕ)
      → IsTablePage dune pa
      → IsTablePage dune pa'
      → i < 512
      → i' < 512
      → entry dune pa i ≡ entry dune pa' i'
      → (pa ≡ pa') × (i ≡ i')
  entry_injective {pa} {pa'} i i' t t' h h' e =
      let (a, _) = table_vaddr_lem lay t in
      let (a', _) = table_vaddr_lem lay t' in
      let same : table_vaddr dune pa ≡ table_vaddr dune pa' = omega arith in
      (table_vaddr_injective lay t t' same, omega arith)

  pub entry_at_lem :
      {pa : ℕ} (va k : ℕ)
      → IsTablePage dune pa
      → k < 4
      → entry_at (table_vaddr dune pa) va (suc k) ≡ entry dune pa (index va k)
  unfolding entry_at
  entry_at_lem va k t h = omega (arith, pt_level_offset_lem va k h, (table_vaddr_lem lay t).1)
