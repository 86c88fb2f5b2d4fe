-- ===== src/Hooks/Progress.antt =====
-- dangless_malloc gives out an alias where there is memory for it.
use dangless_malloc.Prelude.{
  ℕ, ◌+◌, ◌-◌, ◌≡◌, ◌≢◌, refl, true, false, none, List, ◌∷◌, ok, ltb, arith, ne→==,
}
use dangless_malloc.Page.{num_spanned_pages}
use dangless_malloc.Dune.{Dune}
use dangless_malloc.VirtMem.Tree.{IsLayout}
use dangless_malloc.VirtualRemap.Alias.{IsBacked}
use dangless_malloc.VirtualRemap.Progress.{HasMemory, vremap_map-succeeds}
use dangless_malloc.VirtualRemap.Session.{Alias, Session, aliased}
use dangless_malloc.VirtualRemap.Revocation.{Session-IsSound}
use dangless_malloc.SysMalloc.{SysMalloc}
use dangless_malloc.Hooks.{
  SpanMemory, Dangless, on_spans, on_heap, count, count_size, count_allocation, is_hook_running,
  hook_enter, hook_exit, hook_return, is_no_vm, remap_retrying, do_vremap, malloc,
}

module _ {dune : Dune} (lay : IsLayout dune) {H : Type 0} (sys : SysMalloc H) (spans : SpanMemory H)
    (some_room : spans.has_room 512 ≡ true) {live dead : List Alias} (p size : ℕ) (not_null : p ≢ 0)
    (some_size : size ≢ 0) (d : Dangless H) (h' : H) (session : Session dune d.process live dead)
    (outside : d.hook_depth ≡ 0) (allocated : sys.sysmalloc size d.heap ≡ ok p h')
    (backed : IsBacked dune p (sys.sysmalloc_usable_size h' p))
    (has : HasMemory dune d.process (num_spanned_pages p (sys.sysmalloc_usable_size h' p))) where
  -- With the layout that platform/dune assumes, in a state reached from a ready one by the
  -- steps of a session, outside all hooks, where sysmalloc of size > 0 bytes gives a block p
  -- whose usable bytes fulfil the conditions of vremap_map, and where a free span has the
  -- pages that they span and none of the next calls of the page allocator returns 0, three for
  -- each of these pages: dangless_malloc returns an alias of the usable bytes of p, never p
  -- itself for want of one; no hook is running, and the state of the system allocator is what
  -- sysmalloc left, and what the calls of sysfree and sysmalloc that vp_alloc and vp_free make
  -- for their spans make of it.
  pub malloc-succeeds :
      (out : ℕ) × (d' : Dangless H) × (malloc dune sys spans size d ≡ ok out d')
      × Session dune d'.process
          (record { ptr = p; out = out; size = sys.sysmalloc_usable_size h' p } ∷ live)
          dead
      × (d'.heap ≡ spans.heap_after d.process d'.process h')
      × (d'.hook_depth ≡ 0)
  unfolding malloc on_heap hook_enter is_hook_running count hook_return hook_exit do_vremap
      remap_retrying on_spans is_no_vm
  malloc-succeeds =
      let ready = (Session-IsSound lay session).ready in
      let actual_sz = sys.sysmalloc_usable_size h' p in
      let (out, s', run) = vremap_map-succeeds lay ready p actual_sz backed has in
      let not_running : ltb 0 d.hook_depth ≡ false = ground (arith, outside) in
      let running : ltb 0 (d.hook_depth + 1) ≡ true = ground arith in
      (
        out,
        record {
          process = s';
          heap = spans.heap_after d.process s' h';
          auto_dedicate_happened = d.auto_dedicate_happened;
          hook_depth = d.hook_depth + 1 - 1;
          hook_funcname = none;
          counters = count_size actual_sz (count_allocation d.counters);
        },
        rw (allocated, on_heap, malloc)
            (rw (not_running, ready.kernel)
              (rw (ne→== _ _ not_null, ne→== _ _ some_size)
                (rw some_room (rw (run, on_spans, malloc) (rw running refl))))),
        aliased p actual_sz out session backed run,
        refl,
        omega (arith, outside),
      )
