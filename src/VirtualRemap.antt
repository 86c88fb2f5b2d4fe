-- ===== src/VirtualRemap.antt =====
-- Remapping on Dune, sources/src/platform/dune/virtual_remap.c and the result codes of
-- sources/include/dangless/platform/virtual_remap.h. Logging and the checks that are compiled in
-- only with DANGLESS_CONFIG_DEBUG_VIRTREMAP are left out.
pub mod Ready
pub mod Alias
pub mod Original
pub mod Session
pub mod Revocation
pub mod Progress
pub mod Tests
use dangless_malloc.Prelude.{
  ℕ, zero, suc, ◌+◌, ◌*◌, ◌/◌, Bool, not, ◌==◌, Option, none, some, if◌then◌else◌, bit_and, bit_or,
  add64, mul64, ℤ, pos, negsuc, is_negative, Run, ok, fault, Cmd, pure, assert, get, put, ◌>>=◌,
  ◌>>◌,
}
use dangless_malloc.Page.{pgsize, round_down, round_up, num_spanned_pages}
use dangless_malloc.FreeList.{FreeList, freelist_alloc, freelist_free}
use dangless_malloc.Dune.{Dune, Machine, pt_paddr2vaddr}
use dangless_malloc.VirtMem.{get_page_offset, pte_w, pte_nx, pt_map_region, pt_resolve}

-- The state that the library keeps: g_freelist_main, the page tables, vremap_last_result, and the
-- code segment register.
pub record Process : Type 0 where
  pub list : FreeList
  pub machine : Machine
  pub last_result : ℤ
  pub cs : ℕ

abbrev pub ring_mask : ℕ
ring_mask = 0x3

unfoldable pub in_kernel_mode : Process → Bool
in_kernel_mode s = bit_and s.cs ring_mask == 0

-- The result codes.
abbrev pub vrem_ok : ℤ
vrem_ok = pos 0

abbrev pub vrem_not_remapped : ℤ
vrem_not_remapped = pos 1

abbrev pub evrem_no_vm : ℤ
evrem_no_vm = negsuc 0

abbrev pub evrem_virt_map : ℤ
evrem_virt_map = negsuc 1

abbrev pub evrem_no_phys_back : ℤ
evrem_no_phys_back = negsuc 2

-- A run of the page tables, and one of the list, in the whole state.
unfoldable pub on_machine : {A : Type 0} → Process → Run Machine A → Run Process A
on_machine s (ok a m) = ok a (record s { machine = m })
on_machine s fault = fault

unfoldable pub on_list : Process → Run FreeList ℤ → Run Process ℤ
on_list s (ok code l) = ok code (record s { list = l })
on_list s fault = fault

-- `vp_alloc`
unfoldable pub vp_alloc : ℕ → Cmd Process ℕ
vp_alloc npages s =
    ok (freelist_alloc npages s.list).0 (record s { list = (freelist_alloc npages s.list).1 })

-- `vp_free`
unfoldable pub vp_free : Bool → ℕ → ℕ → Cmd Process ℤ
unfolding on_list
vp_free room p npages s = on_list s (freelist_free room p npages s.list)

-- `RETURN(CODE)`, with the out parameter where it has been set.
unfoldable pub return_code : ℤ → Option ℕ → Cmd Process (ℤ × Option ℕ)
return_code code out s = ok (code, out) (record s { last_result = code })

module _ (dune : Dune) where
  -- The end of `vremap_map`, with the pages at `va`; `room` is whether vp_free gets memory.
  unfoldable pub remap_pages : Bool → ℕ → ℕ → ℕ → ℕ → Cmd Process (ℤ × Option ℕ)
  unfolding on_machine vp_free return_code
  remap_pages room pa_page va npages inpage_offset = do
    result ← λ s.
        on_machine s
          (pt_map_region dune pa_page va (mul64 npages pgsize) (bit_or pte_w pte_nx) s.machine)
    (if is_negative result
        then (do vp_free room va npages; return_code evrem_virt_map none)
        else return_code vrem_ok (some (add64 va inpage_offset)))

  -- `vremap_map`
  unfoldable pub vremap_map : Bool → ℕ → ℕ → Cmd Process (ℤ × Option ℕ)
  unfolding vp_alloc return_code remap_pages in_kernel_mode
  vremap_map room ptr size = do
    assert (not (ptr == 0))
    assert (not (size == 0))
    s ← get
    assert (in_kernel_mode s)
    assert (
        num_spanned_pages ptr size == round_up (add64 (get_page_offset ptr 1) size) pgsize / pgsize)
    va ← vp_alloc (num_spanned_pages ptr size)
    (if va == 0
        then return_code evrem_no_vm none
        else remap_pages room (round_down (dune.va_to_pa ptr) pgsize) va
            (num_spanned_pages ptr size) (get_page_offset ptr 1))

  -- `vremap_resolve` behind the walk: `pa` is the physical address, 0 if there is none.
  unfoldable pub resolve_original : ℕ → ℕ → Cmd Process (ℤ × Option ℕ)
  unfolding return_code
  resolve_original ptr pa =
      if pa == 0
      then return_code evrem_no_phys_back none
      else if dune.va_to_pa ptr == pa
      then return_code vrem_not_remapped (some ptr)
      else (elim (pt_paddr2vaddr dune pa) [
        | none ↦ λ s. fault
        | some original ↦ return_code vrem_ok (some original)
      ])

  -- `vremap_resolve`
  unfoldable pub vremap_resolve : ℕ → Cmd Process (ℤ × Option ℕ)
  unfolding resolve_original in_kernel_mode
  vremap_resolve ptr = do
    s ← get
    assert (in_kernel_mode s)
    (elim (pt_resolve dune s.machine ptr) [
      | none ↦ λ s'. fault
      | some pa ↦ resolve_original ptr pa
    ])

-- The entries of g_result_diagnostics, and the message for a code outside it.
pub data Diagnostic : Type 0 where
  no_error : Diagnostic
  not_a_remapped_one : Diagnostic
  out_of_virtual_memory : Diagnostic
  failed_to_map : Diagnostic
  not_backed : Diagnostic
  invalid_code : Diagnostic

-- `vremap_diag`
unfoldable pub vremap_diag : ℤ → Diagnostic
vremap_diag (pos zero) = no_error
vremap_diag (pos (suc zero)) = not_a_remapped_one
vremap_diag (pos (suc (suc n))) = invalid_code
vremap_diag (negsuc zero) = out_of_virtual_memory
vremap_diag (negsuc (suc zero)) = failed_to_map
vremap_diag (negsuc (suc (suc zero))) = not_backed
vremap_diag (negsuc (suc (suc (suc n)))) = invalid_code
