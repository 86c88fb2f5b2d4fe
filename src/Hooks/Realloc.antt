-- ===== src/Hooks/Realloc.antt =====
-- dangless_realloc and dangless_get_canonical of sources/src/dangless_malloc.c.
use dangless_malloc.Prelude.{
  ℕ, ◌+◌, ◌-◌, ltb, leb, ◌==◌, if◌then◌else◌, add64, is_negative, Cmd, pure, assert, get, ◌>>=◌,
  ◌>>◌,
}
use dangless_malloc.Page.{pgsize, round_up, num_spanned_pages}
use dangless_malloc.Dune.{Dune}
use dangless_malloc.VirtualRemap.{vremap_resolve}
use dangless_malloc.Invalidate.{virtual_invalidate}
use dangless_malloc.SysMalloc.{SysMalloc}
use dangless_malloc.Hooks.{
  SpanMemory, Dangless, in_realloc, on_process, on_heap, on_machine_of, count, count_allocation,
  hook_enter, hook_return, is_zero, out_or, do_vremap,
}

module _ (dune : Dune) {H : Type 0} (sys : SysMalloc H) where
  -- A block that changed its place, or grew: a new alias for it.
  unfoldable pub realloc_move : SpanMemory H → ℕ → ℕ → ℕ → ℕ → Cmd (Dangless H) ℕ
  unfolding on_machine_of
  realloc_move spans p old_npages newp new_size = do
    on_machine_of (virtual_invalidate dune p old_npages)
    do_vremap dune sys spans newp new_size

  -- The block stayed where it was: the alias stays too, perhaps with fewer pages.
  unfoldable pub realloc_in_place : SpanMemory H → ℕ → ℕ → ℕ → ℕ → ℕ → Cmd (Dangless H) ℕ
  unfolding on_machine_of realloc_move
  realloc_in_place spans p old_npages newp new_size actual_new_size =
      let new_npages = num_spanned_pages newp actual_new_size in
      if new_npages == old_npages
      then pure p
      else if ltb new_npages old_npages
      then (do
        on_machine_of (
            virtual_invalidate dune (round_up (add64 p actual_new_size) pgsize)
              (old_npages - new_npages))
        pure p)
      else realloc_move spans p old_npages newp new_size

  -- `dangless_realloc` of a remapped pointer.
  unfoldable pub realloc_remapped : SpanMemory H → ℕ → ℕ → ℕ → Cmd (Dangless H) ℕ
  unfolding on_heap count realloc_in_place realloc_move
  realloc_remapped spans p original_ptr new_size = do
    d ← get
    count (λ c. record c {
      num_reallocated_vpages =
          c.num_reallocated_vpages
          + num_spanned_pages original_ptr (sys.sysmalloc_usable_size d.heap original_ptr);
    })
    newp ← on_heap (sys.sysrealloc original_ptr new_size)
    d' ← get
    (if newp == 0 then pure 0 else (do
      assert (leb new_size (sys.sysmalloc_usable_size d'.heap newp))
      (if newp == original_ptr
          then realloc_in_place spans p
              (num_spanned_pages original_ptr (sys.sysmalloc_usable_size d.heap original_ptr)) newp
              new_size (sys.sysmalloc_usable_size d'.heap newp)
          else realloc_move spans p
              (num_spanned_pages original_ptr (sys.sysmalloc_usable_size d.heap original_ptr)) newp
              new_size)))

  -- `dangless_realloc` of NULL, or of a pointer that is not remapped.
  unfoldable pub realloc_plain : SpanMemory H → ℕ → ℕ → Cmd (Dangless H) ℕ
  unfolding on_heap
  realloc_plain spans p new_size = do
    newp ← on_heap (sys.sysrealloc p new_size)
    do_vremap dune sys spans newp new_size

  -- Between entering and leaving the hook.
  unfoldable pub realloc_body : SpanMemory H → ℕ → ℕ → Cmd (Dangless H) ℕ
  unfolding on_process is_zero count realloc_remapped realloc_plain
  realloc_body spans p new_size =
      if p == 0 then (do count count_allocation; realloc_plain spans p new_size) else (do
        count (λ c. record c { num_reallocations = c.num_reallocations + 1 })
        (result, out) ← on_process (vremap_resolve dune p)
        (if is_zero result
            then realloc_remapped spans p (out_or p out) new_size
            else realloc_plain spans p new_size))

  -- `dangless_realloc`
  unfoldable pub realloc : SpanMemory H → ℕ → ℕ → Cmd (Dangless H) ℕ
  unfolding on_heap hook_enter hook_return realloc_body
  realloc spans p new_size = do
    entered ← hook_enter in_realloc
    (if entered
        then hook_return (realloc_body spans p new_size)
        else on_heap (sys.sysrealloc p new_size))

-- `dangless_get_canonical`
unfoldable pub get_canonical : Dune → {H : Type 0} → ℕ → Cmd (Dangless H) ℕ
unfolding on_process
get_canonical dune p = do
  (result, out) ← on_process (vremap_resolve dune p)
  pure (if is_negative result then 0 else out_or 0 out)
