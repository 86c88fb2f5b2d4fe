-- ===== src/Hooks/Depth.antt =====
-- The depth of hooks: all functions of dangless_malloc.c leave it as they found it.
use dangless_malloc.Prelude.{
  ℕ, zero, suc, ◌+◌, ◌-◌, ◌*◌, refl, inl, inr, not, ◌&&◌, ◌||◌, ltb, leb, ◌==◌, add64, mul64, ℤ,
  pos, pure, ◌>>=◌, Option-cases,
}
use dangless_malloc.Page.{pgsize, round_up, num_spanned_pages}
use dangless_malloc.Dune.{Dune, pt_paddr2vaddr}
use dangless_malloc.VirtMem.{pt_num_entries}
use dangless_malloc.FreeList.{vp_free_region}
use dangless_malloc.VirtualRemap.{on_list, vremap_map, vremap_resolve}
use dangless_malloc.Invalidate.{virtual_invalidate}
use dangless_malloc.SysMalloc.{SysMalloc, sysmalloc_spanned_pages}
use dangless_malloc.Hooks.{
  SpanMemory, Counters, Dangless, in_malloc, in_calloc, in_posix_memalign, in_free, in_realloc,
  count_size, count_allocation, dedicate_vmem, dedicate_entries, auto_dedicate_vmem, count,
  is_no_vm, is_zero, out_or, remap_retrying, do_vremap, malloc, calloc, posix_memalign, free_alias,
  free,
}
use dangless_malloc.Hooks.Realloc.{
  realloc_move, realloc_in_place, realloc_remapped, realloc_plain, realloc_body, realloc,
}
use dangless_malloc.Hooks.Balance.{
  goes_on, stops, Ends-bind, At, EndsAt, count-EndsAt, assert-EndsAt, on_process-EndsAt,
  on_spans-EndsAt, on_heap-EndsAt, on_machine_of-EndsAt, ends_if, hook_exit-EndsAt,
  hook_return-EndsAt, hook_enter-EndsAt,
}

module _ (dune : Dune) {H : Type 0} {n : ℕ} where
  dedicate_vmem-EndsAt :
      (spans : SpanMemory H) (call start end : ℕ) {d : Dangless H}
      → At n d
      → EndsAt n (dedicate_vmem spans call start end d)
  unfolding dedicate_vmem
  dedicate_vmem-EndsAt spans call start end e =
      on_spans-EndsAt spans (λ s. on_list s (vp_free_region (spans.has_room call) start end s.list))
        e

  dedicate_entries-EndsAt :
      (spans : SpanMemory H) (left i ptroot : ℕ) {d : Dangless H}
      → At n d
      → EndsAt n (dedicate_entries dune spans left i ptroot d)
  unfolding dedicate_entries
  dedicate_entries-EndsAt spans zero i ptroot e = goes_on e
  dedicate_entries-EndsAt spans (suc left) i ptroot {d} e =
      Ends-bind _
        (ends_if _ _ (d.process.machine.mem (ptroot + 8 * i) == 0)
          (Ends-bind _ (dedicate_vmem-EndsAt spans i _ _ e) (λ _ d' e'. goes_on e')) (goes_on e))
        (λ _ d' e'. dedicate_entries-EndsAt spans left (i + 1) ptroot e')

  auto_dedicate_vmem-EndsAt :
      (spans : SpanMemory H) {d : Dangless H} → At n d → EndsAt n (auto_dedicate_vmem dune spans d)
  unfolding auto_dedicate_vmem
  auto_dedicate_vmem-EndsAt spans {d} e =
      elim (Option-cases (pt_paddr2vaddr dune d.process.machine.cr3)) [
        | inl nowhere ↦ rw (nowhere, auto_dedicate_vmem) stops
        | inr (ptroot, found) ↦
            rw (found, auto_dedicate_vmem)
              (Ends-bind _ (dedicate_entries-EndsAt spans pt_num_entries 0 ptroot e)
                (λ _ d' e'. goes_on (record { depth = e'.depth })))
      ]

module _ (dune : Dune) {H : Type 0} (sys : SysMalloc H) (spans : SpanMemory H) where
  module _ {n : ℕ} where
    remap_retrying-EndsAt :
        (p actual_sz : ℕ) {d : Dangless H}
        → At n d
        → EndsAt n (remap_retrying dune sys spans p actual_sz d)
    unfolding remap_retrying
    remap_retrying-EndsAt p actual_sz e =
        Ends-bind _ (on_spans-EndsAt spans (vremap_map dune (spans.has_room 512) p actual_sz) e)
          (λ r d e'.
            ends_if _ _ (is_no_vm r.0 && not d.auto_dedicate_happened)
              (Ends-bind _ (auto_dedicate_vmem-EndsAt dune spans e') (λ _ d' e''.
                on_spans-EndsAt spans (vremap_map dune (spans.has_room 513) p actual_sz) e''))
              (goes_on e'))

    do_vremap-EndsAt :
        (p sz : ℕ) {d : Dangless H} → At n d → EndsAt n (do_vremap dune sys spans p sz d)
    unfolding do_vremap count
    do_vremap-EndsAt p sz {d} e = ends_if _ _ (p == 0 || sz == 0) (goes_on e) (
        (let e' : At n (record d {
          counters = (count_size (sys.sysmalloc_usable_size d.heap p)) d.counters;
        }) =
            record { depth = e.depth } in
          Ends-bind _ (remap_retrying-EndsAt p (sys.sysmalloc_usable_size d.heap p) e')
            (λ r d'' e''. goes_on e'')))

    free_alias-EndsAt :
        (p original : ℕ) (result : ℤ) {d : Dangless H}
        → At n d
        → EndsAt n (free_alias dune sys p original result d)
    unfolding free_alias
    free_alias-EndsAt p original result {d} e =
        ends_if _ _ (is_zero result)
          (Ends-bind _
            (on_machine_of-EndsAt
              (virtual_invalidate dune p (sysmalloc_spanned_pages sys d.heap original)) e)
            (λ _ d' e'.
              count-EndsAt
                (λ c. record c {
                  num_deallocated_vpages =
                      c.num_deallocated_vpages + sysmalloc_spanned_pages sys d.heap original;
                })
                e'))
          (goes_on e)

    realloc_move-EndsAt :
        (p old_npages newp size : ℕ) {d : Dangless H}
        → At n d
        → EndsAt n (realloc_move dune sys spans p old_npages newp size d)
    unfolding realloc_move
    realloc_move-EndsAt p old_npages newp size e =
        Ends-bind _ (on_machine_of-EndsAt (virtual_invalidate dune p old_npages) e)
          (λ _ d' e'. do_vremap-EndsAt newp size e')

    realloc_in_place-EndsAt :
        (p old_npages newp size actual : ℕ) {d : Dangless H}
        → At n d
        → EndsAt n (realloc_in_place dune sys spans p old_npages newp size actual d)
    unfolding realloc_in_place
    realloc_in_place-EndsAt p old_npages newp size actual e =
        ends_if _ _ (num_spanned_pages newp actual == old_npages) (goes_on e) (
          ends_if _ _ (ltb (num_spanned_pages newp actual) old_npages)
            (Ends-bind _
              (on_machine_of-EndsAt
                (virtual_invalidate dune (round_up (add64 p actual) pgsize)
                  (old_npages - num_spanned_pages newp actual))
                e)
              (λ _ d' e'. goes_on e'))
            (realloc_move-EndsAt p old_npages newp size e))

    realloc_remapped-EndsAt :
        (p original size : ℕ) {d : Dangless H}
        → At n d
        → EndsAt n (realloc_remapped dune sys spans p original size d)
    unfolding realloc_remapped count
    realloc_remapped-EndsAt p original size {d} e =
        (let e' : At n (record d {
          counters =
              (λ (c : Counters). record c {
                num_reallocated_vpages =
                    c.num_reallocated_vpages
                    + num_spanned_pages original (sys.sysmalloc_usable_size d.heap original);
              })
                d.counters;
        }) =
            record { depth = e.depth } in
          Ends-bind _ (on_heap-EndsAt (sys.sysrealloc original size) e') (λ newp d'' e''.
            ends_if _ _ (newp == 0) (goes_on e'') (
              Ends-bind _ (assert-EndsAt (leb size (sys.sysmalloc_usable_size d''.heap newp)) e'')
                (λ _ t f.
                  ends_if _ _ (newp == original) (realloc_in_place-EndsAt p _ newp size _ f)
                    (realloc_move-EndsAt p _ newp size f)))))

    realloc_plain-EndsAt :
        (p size : ℕ) {d : Dangless H} → At n d → EndsAt n (realloc_plain dune sys spans p size d)
    unfolding realloc_plain
    realloc_plain-EndsAt p size e =
        Ends-bind _ (on_heap-EndsAt (sys.sysrealloc p size) e)
          (λ newp d' e'. do_vremap-EndsAt newp size e')

    realloc_body-EndsAt :
        (p size : ℕ) {d : Dangless H} → At n d → EndsAt n (realloc_body dune sys spans p size d)
    unfolding realloc_body count
    realloc_body-EndsAt p size {d} e =
        ends_if _ _ (p == 0)
          ((let e' : At n (record d { counters = count_allocation d.counters }) = record {
            depth = e.depth;
          } in
            realloc_plain-EndsAt p size e'))
          ((let e' : At n (record d {
            counters =
                (λ (c : Counters). record c { num_reallocations = c.num_reallocations + 1 })
                  d.counters;
          }) =
              record { depth = e.depth } in
            Ends-bind _ (on_process-EndsAt (vremap_resolve dune p) e') (λ r d'' e''.
              ends_if _ _ (is_zero r.0) (realloc_remapped-EndsAt p _ size e'')
                (realloc_plain-EndsAt p size e''))))

  module _ {n : ℕ} where
    malloc-EndsAt : (size : ℕ) {d : Dangless H} → At n d → EndsAt n (malloc dune sys spans size d)
    unfolding malloc count
    malloc-EndsAt size {d} e = Ends-bind _ (on_heap-EndsAt (sys.sysmalloc size) e) (λ p d' e'.
        hook_enter-EndsAt _ _ in_malloc e'
          (λ t f.
            (let f' : At (n + 1) (record t { counters = count_allocation t.counters }) = record {
              depth = f.depth;
            } in
              hook_return-EndsAt (do_vremap dune sys spans p size) (do_vremap-EndsAt p size f')))
          (goes_on e'))

    calloc-EndsAt :
        (num size : ℕ) {d : Dangless H} → At n d → EndsAt n (calloc dune sys spans num size d)
    unfolding calloc count
    calloc-EndsAt num size e = Ends-bind _ (on_heap-EndsAt (sys.syscalloc num size) e) (λ p d' e'.
        hook_enter-EndsAt _ _ in_calloc e'
          (λ t f.
            (let f' : At (n + 1) (record t { counters = count_allocation t.counters }) = record {
              depth = f.depth;
            } in
              hook_return-EndsAt (do_vremap dune sys spans p (mul64 num size))
                (do_vremap-EndsAt p (mul64 num size) f')))
          (goes_on e'))

    posix_memalign-EndsAt :
        (old align size : ℕ) {d : Dangless H}
        → At n d
        → EndsAt n (posix_memalign dune sys spans old align size d)
    unfolding posix_memalign
    posix_memalign-EndsAt old align size e =
        Ends-bind _ (on_heap-EndsAt (sys.sysmemalign old align size) e) (λ r d' e'.
          ends_if _ _ (not (is_zero r.0)) (goes_on e') (
            hook_enter-EndsAt _ _ in_posix_memalign e'
              (λ t f.
                hook_return-EndsAt
                  (do_vremap dune sys spans (out_or old r.1) size >>= λ p. pure (pos 0, p))
                  (Ends-bind (λ p. pure (pos 0, p)) (do_vremap-EndsAt (out_or old r.1) size f)
                    (λ p t' f'. goes_on f')))
              (goes_on e')))

    free-EndsAt : (p : ℕ) {d : Dangless H} → At n d → EndsAt n (free dune sys p d)
    unfolding free count
    free-EndsAt p e = ends_if _ _ (p == 0) (goes_on e) (
        hook_enter-EndsAt _ _ in_free e
          (λ t f.
            (let f' : At (n + 1) (record t {
              counters =
                  (λ (c : Counters). record c { num_deallocations = c.num_deallocations + 1 })
                    t.counters;
            }) =
                record { depth = f.depth } in
              Ends-bind _ (on_process-EndsAt (vremap_resolve dune p) f') (λ r u g.
                Ends-bind _ (free_alias-EndsAt p _ r.0 g) (λ _ u' g'.
                  Ends-bind _ (on_heap-EndsAt (sys.sysfree (out_or p r.1)) g')
                    (λ _ u'' g''. hook_exit-EndsAt g'')))))
          (on_heap-EndsAt (sys.sysfree p) e))

    realloc-EndsAt :
        (p size : ℕ) {d : Dangless H} → At n d → EndsAt n (realloc dune sys spans p size d)
    unfolding realloc
    realloc-EndsAt p size e =
        hook_enter-EndsAt _ _ in_realloc e
          (λ t f.
            hook_return-EndsAt (realloc_body dune sys spans p size) (realloc_body-EndsAt p size f))
          (on_heap-EndsAt (sys.sysrealloc p size) e)

-- Each hook that returns leaves the depth as it found it.
pub record IsBalanced {H : Type 0} (dune : Dune) (sys : SysMalloc H) (spans : SpanMemory H)
    (d : Dangless H) : Type 0 where
  pub malloc_ends : (size : ℕ) → EndsAt d.hook_depth (malloc dune sys spans size d)
  pub calloc_ends : (num size : ℕ) → EndsAt d.hook_depth (calloc dune sys spans num size d)
  pub posix_memalign_ends :
      (old align size : ℕ) → EndsAt d.hook_depth (posix_memalign dune sys spans old align size d)
  pub free_ends : (p : ℕ) → EndsAt d.hook_depth (free dune sys p d)
  pub realloc_ends : (p size : ℕ) → EndsAt d.hook_depth (realloc dune sys spans p size d)

-- Each of dangless_malloc, dangless_calloc, dangless_posix_memalign, dangless_free and
-- dangless_realloc, from any state and with any arguments, either stops at a failed assertion
-- or returns with g_hook_depth as it found it, whatever branch it takes.
pub hooks-IsBalanced :
    (dune : Dune) {H : Type 0} (sys : SysMalloc H) (spans : SpanMemory H) (d : Dangless H)
    → IsBalanced dune sys spans d
hooks-IsBalanced dune sys spans d = record {
  malloc_ends = λ size. malloc-EndsAt dune sys spans size (record { depth = refl });
  calloc_ends = λ num size. calloc-EndsAt dune sys spans num size (record { depth = refl });
  posix_memalign_ends = λ old align size.
      posix_memalign-EndsAt dune sys spans old align size (record { depth = refl });
  free_ends = λ p. free-EndsAt dune sys spans p (record { depth = refl });
  realloc_ends = λ p size. realloc-EndsAt dune sys spans p size (record { depth = refl });
}
