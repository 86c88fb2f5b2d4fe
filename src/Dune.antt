-- ===== src/Dune.antt =====
-- What the program takes from Dune (a git submodule, not in the repository): the layout of guest
-- physical memory, its page allocator, and the canonical mapping `dune_va_to_pa`; and the two
-- files that wrap it, sources/src/platform/dune/mem.c and physmem_alloc.c.
use dangless_malloc.Prelude.{
  ℕ, ◌+◌, ◌*◌, Option, none, some, ltb, leb, ◌==◌, if◌then◌else◌, ◌&&◌, List, add64, sub64, Cmd,
  ◌≡◌, ◌≢◌, refl, ne→==, ok, pure, assert, ◌>>=◌, ◌>>◌,
}
use dangless_malloc.Page.{pgsize}

-- `page_at n` is the physical address of the page that the n-th call of `dune_page_alloc` returns,
-- 0 if it returns NULL. The other fields are the names of dune.h.
pub record Dune : Type 0 where
  pub stack_base : ℕ
  pub gpa_stack_size : ℕ
  pub mmap_base : ℕ
  pub gpa_map_size : ℕ
  pub phys_limit : ℕ
  pub va_to_pa : ℕ → ℕ
  pub page_at : ℕ → ℕ

-- Physical memory as the guest sees it through pointers to page-table entries: the 64-bit word at
-- each address. `calls` counts the calls of `dune_page_alloc`; `flushed` has the addresses given to
-- `tlb_flush_one`, the last first.
pub record Machine : Type 0 where
  pub mem : ℕ → ℕ
  pub cr3 : ℕ
  pub calls : ℕ
  pub flushed : List ℕ

-- `memset(va, 0, npages * PGSIZE)`
unfoldable pub cleared : ℕ → ℕ → (ℕ → ℕ) → ℕ → ℕ
cleared va npages mem a = if leb va a && ltb a (va + npages * pgsize) then 0 else mem a

module _ (dune : Dune) where
  open dune use {stack_base, gpa_stack_size, mmap_base, gpa_map_size, phys_limit, va_to_pa, page_at}

  -- The two addresses that `pt_paddr2vaddr` computes in its first call.
  abbrev pub stack_pa_base : ℕ
  stack_pa_base = va_to_pa stack_base

  abbrev pub mmap_pa_base : ℕ
  mmap_pa_base = va_to_pa mmap_base

  -- The result of `pt_paddr2vaddr`, and the function with its assertion.
  unfoldable pub table_vaddr : ℕ → ℕ
  table_vaddr pa =
      if leb mmap_pa_base pa
      then add64 (add64 (sub64 (add64 pa mmap_base) phys_limit) gpa_stack_size) gpa_map_size
      else pa

  unfoldable pub pt_paddr2vaddr : ℕ → Option ℕ
  unfolding table_vaddr
  pt_paddr2vaddr pa = if ltb pa stack_pa_base then some (table_vaddr pa) else none

  -- `pp_alloc`: 0 is the failure of the page allocator.
  unfoldable pub pp_alloc : ℕ → Cmd Machine ℕ
  pp_alloc npages = do
    assert (npages == 1)
    λ m. pure (page_at m.calls) (record m { calls = m.calls + 1 })

  -- `pp_zalloc`: the page is cleared through its identity mapping.
  unfoldable pub pp_zalloc : ℕ → Cmd Machine ℕ
  unfolding pp_alloc cleared
  pp_zalloc npages = do
    pa ← pp_alloc npages
    λ m. if pa == 0 then ok pa m else ok pa (record m { mem = cleared pa npages m.mem })

  -- A page from `pp_zalloc` is cleared; a failed call changes nothing but the count.
  pub pp_zalloc-page :
      (m : Machine)
      → page_at m.calls ≢ 0
      → pp_zalloc 1 m
        ≡ ok
            (page_at m.calls)
            (record m { mem = cleared (page_at m.calls) 1 m.mem; calls = m.calls + 1 })
  unfolding pp_zalloc
  pp_zalloc-page m got = rw (ne→== _ _ got) refl

  pub pp_zalloc-null :
      (m : Machine) → page_at m.calls ≡ 0 → pp_zalloc 1 m ≡ ok 0 (record m { calls = m.calls + 1 })
  unfolding pp_zalloc
  pp_zalloc-null m none_left = rw none_left
