-- ===== src/Hooks/Free.antt =====
-- dangless_free on an alias that is in use.
use dangless_malloc.Prelude.{
  ◌+◌, ◌-◌, ◌≡◌, ◌≢◌, refl, true, false, some, List, ◌∷◌, ok, none, ltb, arith, ne→==,
}
use dangless_malloc.Dune.{Dune, Machine}
use dangless_malloc.VirtMem.Tree.{IsLayout}
use dangless_malloc.VirtualRemap.{Process, vrem_ok, vremap_resolve}
use dangless_malloc.VirtualRemap.Original.{IsMmap}
use dangless_malloc.VirtualRemap.Session.{
  Alias, npages_of, Picked, Session, resolved, revoked, Holds,
}
use dangless_malloc.VirtualRemap.Revocation.{IsSound, Session-IsSound}
use dangless_malloc.VirtualRemap.Session.Revoke.{Picked-AllHold}
use dangless_malloc.Hooks.Resolve.{vremap_resolve-Holds}
use dangless_malloc.Invalidate.{virtual_invalidate}
use dangless_malloc.Invalidate.Revoke.{virtual_invalidate-Revoked}
use dangless_malloc.SysMalloc.{SysMalloc, sysmalloc_spanned_pages}
use dangless_malloc.Hooks.{
  Dangless, on_process, on_heap, on_machine_of, count, is_hook_running, hook_enter, hook_exit,
  is_zero, free_alias, free,
}

-- What the free of an alias leaves.
pub record Freed {H : Type 0} (dune : Dune) (d d' : Dangless H) (x : Alias) (h' : H)
    (rest dead : List Alias) : Type 0 where
  pub session : Session dune d'.process rest (x ∷ dead)
  pub heap : d'.heap ≡ h'
  pub depth : d'.hook_depth ≡ 0
  pub dedicated : d'.auto_dedicate_happened ≡ d.auto_dedicate_happened
  pub counted : d'.counters.num_deallocated_vpages ≡ d.counters.num_deallocated_vpages + npages_of x

module _ {dune : Dune} (lay : IsLayout dune) {H : Type 0} (sys : SysMalloc H) where
  module _ (d : Dangless H) {live rest dead : List Alias} (x : Alias)
      (session : Session dune d.process live dead) (picked : Picked x live rest)
      (outside : d.hook_depth ≡ 0) (mmap : IsMmap dune x.ptr)
      (remapped : dune.va_to_pa x.out ≢ dune.va_to_pa x.ptr)
      (usable : sys.sysmalloc_usable_size d.heap x.ptr ≡ x.size) where
    so : IsSound dune d.process live dead
    so = Session-IsSound lay session

    held : Holds dune d.process x
    held = (Picked-AllHold picked so.hold).0

    abbrev resolved_process : Process
    resolved_process = record d.process { last_result = vrem_ok }

    resolve_run : vremap_resolve dune x.out d.process ≡ ok (vrem_ok, some x.ptr) resolved_process
    resolve_run = vremap_resolve-Holds lay x so held mmap remapped

    abbrev after_free : Machine → H → Dangless H
    after_free m' h' = record {
      process = record resolved_process { machine = m' };
      heap = h';
      auto_dedicate_happened = d.auto_dedicate_happened;
      hook_depth = d.hook_depth + 1 - 1;
      hook_funcname = none;
      counters = record d.counters {
        num_deallocations = d.counters.num_deallocations + 1;
        num_deallocated_vpages = d.counters.num_deallocated_vpages + npages_of x;
      };
    }

    free_run :
        (m' : Machine) (h' : H)
        → virtual_invalidate dune x.out (npages_of x) d.process.machine ≡ ok tt m'
        → sys.sysfree x.ptr d.heap ≡ ok tt h'
        → free dune sys x.out d ≡ ok tt (after_free m' h')
    unfolding free hook_enter is_hook_running on_process free_alias is_zero sysmalloc_spanned_pages
        on_machine_of on_heap hook_exit count
    free_run m' h' run freed =
        let not_running : ltb 0 d.hook_depth ≡ false = ground arith in
        let running : ltb 0 (d.hook_depth + 1) ≡ true = ground arith in
        rw (ne→== _ _ held.not_null, not_running, so.ready.kernel)
          (rw (resolve_run, on_process, free)
            (rw usable (rw (run, on_machine_of) (rw (freed, on_heap) (rw running refl)))))

    -- With the layout that platform/dune assumes, in a state reached from a ready one by calls
    -- of vremap_map, vremap_resolve and virtual_invalidate, for a live alias x of the number
    -- of bytes that the system allocator calls usable, whose memory mmap() gave out and which
    -- is not an address with the same physical one, outside all hooks and where sysfree
    -- returns: dangless_free of the alias returns; from then on x is one of the revoked
    -- aliases and the others are live as before, the block has been given to sysfree, no hook
    -- is running and the counter of freed pages has grown by the pages of x.
    pub free-Freed :
        (h' : H)
        → sys.sysfree x.ptr d.heap ≡ ok tt h'
        → (d' : Dangless H) × (free dune sys x.out d ≡ ok tt d') × Freed dune d d' x h' rest dead
    free-Freed h' freed =
        let (m', run, r) =
          virtual_invalidate-Revoked lay x.out (npages_of x) held.reserved.fits d.process.machine
            so.ready.tree held.mapped in
        (
          after_free m' h',
          free_run m' h' run freed,
          record {
            session = revoked x (resolved x.out session resolve_run) picked run;
            heap = refl;
            depth = omega (arith, outside);
            dedicated = refl;
            counted = refl;
          },
        )
