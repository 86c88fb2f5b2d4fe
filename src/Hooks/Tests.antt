-- ===== src/Hooks/Tests.antt =====
-- One block of 32 bytes, allocated and freed through the hooks.
use dangless_malloc.Prelude.{
  length, ◌-◌, ℕ, ◌+◌, ◌≡◌, refl, arith, true, none, some, inl, [], ◌∷◌, pos, Run, ok, fault, After,
}
use dangless_malloc.VirtualRemap.{Process}
use dangless_malloc.VirtMem.Tests.{small_dune, small_dune-IsLayout}
use dangless_malloc.VirtualRemap.Original.{IsMmap}
use dangless_malloc.VirtualRemap.Session.{here, Session, opened}
use dangless_malloc.VirtualRemap.Tests.{
  two_pages, two_pages-IsReady, small_ptr, small_ptr-IsBacked, remapped, small_alias, one_alias,
}
use dangless_malloc.SysMalloc.{SysMalloc}
use dangless_malloc.Hooks.{SpanMemory, Counters, Dangless, in_free, malloc, free}
use dangless_malloc.Page.{num_spanned_pages, pg_offset}
use dangless_malloc.Dune.{pp_zalloc, pt_paddr2vaddr}
use dangless_malloc.FreeList.{freelist_alloc, span_num_pages}
use dangless_malloc.VirtualRemap.Progress.{HasMemory}
use dangless_malloc.Hooks.Progress.{malloc-succeeds}
use dangless_malloc.VirtMem.{get_page_offset, pt_map_region, pt_walk, flag_isset, pt_resolve}
use dangless_malloc.VirtualRemap.{vremap_map, vremap_resolve}
use dangless_malloc.Invalidate.{
  virtual_invalidate, invalidate_pages, invalidate_chunk, invalidate_ptes,
}
use dangless_malloc.Hooks.Realloc.{realloc}
use dangless_malloc.Hooks.Resize.{Reallocated, realloc-Reallocated}
use dangless_malloc.Hooks.Client.{
  IsServed, Trace, started, called, malloced, realloced_in_place, freed, an_alias,
}
use dangless_malloc.Hooks.Client.Safety.{IsProtected, Trace-IsProtected}
use dangless_malloc.Hooks.Reentry.{IsTransparent, hooks-IsTransparent}
use dangless_malloc.Hooks.Depth.{IsBalanced, hooks-IsBalanced}
use dangless_malloc.Hooks.Malloc.{Handed, malloc-Handed}
use dangless_malloc.Hooks.Free.{Freed, free-Freed}

-- A system allocator with one block, whose state counts the calls.
abbrev one_block : SysMalloc ℕ
one_block = record {
  sysmalloc = λ size h. ok small_ptr (h + 1);
  syscalloc = λ num size h. ok small_ptr (h + 1);
  sysrealloc = λ p size h. ok small_ptr (h + 1);
  sysmemalign = λ pp align size h. ok (pos 12, none) (h + 1);
  sysfree = λ p h. ok tt (h + 1);
  sysmalloc_usable_size = λ h p. 0x20;
}

abbrev no_counts : Counters
no_counts = record {
  num_allocations = 0;
  num_allocations_2mb_plus = 0;
  num_allocations_1gb_plus = 0;
  num_reallocations = 0;
  num_reallocated_vpages = 0;
  num_deallocations = 0;
  num_deallocated_vpages = 0;
}

-- The allocator's state counts its calls. A span more was allocated, a span less was freed.
abbrev span_calls : SpanMemory ℕ
span_calls = record {
  has_room = λ call. true;
  heap_after = λ s s' h.
      h
      + (length s'.list.items - length s.list.items)
      + (length s.list.items - length s'.list.items);
}

abbrev with_process : Process → Dangless ℕ
with_process s = record {
  process = s;
  heap = 0;
  auto_dedicate_happened = true;
  hook_depth = 0;
  hook_funcname = none;
  counters = no_counts;
}

malloc-Handed_example :
    After
      (λ out d'. Handed small_dune span_calls two_pages [] [] small_ptr 0x20 1 out d')
      (malloc small_dune one_block span_calls 0x1c (with_process two_pages))
malloc-Handed_example =
    malloc-Handed small_dune-IsLayout one_block span_calls refl [] [] small_ptr 0x1c
      (λ e. absurd (omega arith)) (λ e. absurd (omega arith)) (with_process two_pages) 1
      (opened two_pages-IsReady) refl refl small_ptr-IsBacked refl

start-IsMmap : IsMmap small_dune small_ptr
start-IsMmap = record { above = omega arith; below = omega arith; moved = refl }

free-Freed_example :
    (d' : Dangless ℕ) × (free small_dune one_block 0x400010 (with_process remapped) ≡ ok tt d')
    × Freed small_dune (with_process remapped) d' small_alias 1 [] []
free-Freed_example =
    free-Freed small_dune-IsLayout one_block (with_process remapped) small_alias one_alias here refl
      start-IsMmap (λ e. absurd (omega (arith, e))) refl 1 refl

-- In another hook.
abbrev nested_call : Dangless ℕ
nested_call = record (with_process two_pages) { hook_depth = 1; hook_funcname = some in_free }

hooks-IsTransparent_example : IsTransparent small_dune one_block span_calls nested_call
hooks-IsTransparent_example =
    hooks-IsTransparent small_dune one_block span_calls nested_call (inl (omega arith))

hooks-IsBalanced_example : IsBalanced small_dune one_block span_calls (with_process remapped)
hooks-IsBalanced_example = hooks-IsBalanced small_dune one_block span_calls (with_process remapped)

-- A program that allocates 28 bytes, asks for 30 in their place, and frees them.
abbrev state_after : {A : Type 0} → Run (Dangless ℕ) A → Dangless ℕ
state_after (ok r d) = d
state_after fault = nested_call

abbrev allocated : Dangless ℕ
allocated = state_after (malloc small_dune one_block span_calls 0x1c (with_process two_pages))

abbrev reallocated : Dangless ℕ
reallocated = state_after (realloc small_dune one_block span_calls 0x400010 0x1e allocated)

abbrev given_back : Dangless ℕ
given_back = state_after (free small_dune one_block 0x400010 reallocated)

allocated_run :
    malloc small_dune one_block span_calls 0x1c (with_process two_pages) ≡ ok 0x400010 allocated
unfolding malloc vremap_map num_spanned_pages get_page_offset freelist_alloc pt_map_region pt_walk
    pp_zalloc
allocated_run = refl

reallocated_run :
    realloc small_dune one_block span_calls 0x400010 0x1e allocated ≡ ok 0x400010 reallocated
unfolding malloc realloc vremap_map vremap_resolve num_spanned_pages get_page_offset freelist_alloc
    pt_map_region pt_walk pp_zalloc pt_paddr2vaddr flag_isset pt_resolve
reallocated_run = refl

given_back_run : free small_dune one_block 0x400010 reallocated ≡ ok tt given_back
unfolding malloc realloc free vremap_map vremap_resolve num_spanned_pages get_page_offset
    freelist_alloc pt_map_region pt_walk pp_zalloc pt_paddr2vaddr flag_isset virtual_invalidate
    invalidate_pages invalidate_chunk pg_offset invalidate_ptes pt_resolve
given_back_run = refl

small_ptr-IsServed : (h' : ℕ) → IsServed small_dune one_block small_ptr h'
small_ptr-IsServed h' = record {
  not_null = λ e. absurd (omega (arith, e));
  backed = small_ptr-IsBacked;
}

one-Trace :
    Trace small_dune one_block span_calls given_back
      (record { held = []; freed = small_alias ∷ [] })
one-Trace =
    called
      (called
        (called (started (opened two_pages-IsReady) refl refl) (
          malloced 0x1c small_ptr 0x400010 1 (λ e. absurd (omega arith)) refl (small_ptr-IsServed 1)
            allocated_run))
        (realloced_in_place small_alias 0x1e 0x400010 (allocated.heap + 1) here start-IsMmap
          (λ e. absurd (omega (arith, e))) refl (λ e. absurd (omega arith)) refl
          (small_ptr-IsServed (allocated.heap + 1)) (omega arith) (omega arith) reallocated_run))
      (freed small_alias (reallocated.heap + 1) here
        (an_alias start-IsMmap (λ e. absurd (omega (arith, e)))) refl refl given_back_run)

Trace-IsProtected_example :
    IsProtected small_dune given_back (record { held = []; freed = small_alias ∷ [] })
Trace-IsProtected_example =
    Trace-IsProtected small_dune-IsLayout one_block span_calls refl one-Trace

realloc-Reallocated_example :
    After
      (λ out d'.
        Reallocated small_dune span_calls remapped.list [] [] small_alias small_ptr 0x20 1 out d')
      (realloc small_dune one_block span_calls 0x400010 0x1e (with_process remapped))
realloc-Reallocated_example =
    realloc-Reallocated small_dune-IsLayout one_block span_calls refl small_alias here 0x1e
      (λ e. absurd (omega arith)) (with_process remapped) one_alias refl refl start-IsMmap
      (λ e. absurd (omega (arith, e))) refl small_ptr 1 refl (λ e. absurd (omega arith))
      (omega arith) small_ptr-IsBacked

two_pages-HasMemory : HasMemory small_dune two_pages (num_spanned_pages small_ptr 0x20)
unfolding num_spanned_pages span_num_pages
two_pages-HasMemory = record {
  virtual = λ h. absurd (omega (arith, h.0));
  physical = λ call low high e. absurd (ground (arith, low, high, e));
}

malloc-succeeds_example :
    (out : ℕ) × (d' : Dangless ℕ) × (malloc small_dune one_block span_calls 0x1c
        (with_process two_pages)
      ≡ ok out d')
    × Session small_dune d'.process (record { ptr = small_ptr; out = out; size = 0x20 } ∷ []) []
    × (d'.heap ≡ span_calls.heap_after two_pages d'.process 1)
    × (d'.hook_depth ≡ 0)
malloc-succeeds_example =
    malloc-succeeds small_dune-IsLayout one_block span_calls refl small_ptr 0x1c
      (λ e. absurd (omega arith)) (λ e. absurd (omega arith)) (with_process two_pages) 1
      (opened two_pages-IsReady) refl refl small_ptr-IsBacked two_pages-HasMemory
