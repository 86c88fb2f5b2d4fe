-- ===== src/Init/Tests.antt =====
-- Start-up, and a fault on a page that was taken down.
use dangless_malloc.Prelude.{◌+◌, ◌≡◌, refl, arith, false, List, length, [], ◌∷◌, ok, ℤ, pos}
use dangless_malloc.Page.{page_base, num_spanned_pages}
use dangless_malloc.Dune.{Machine}
use dangless_malloc.VirtMem.Tests.{small_dune, small_dune-IsLayout}
use dangless_malloc.VirtualRemap.Tests.{remapped, small_alias, one_alias}
use dangless_malloc.VirtualRemap.Revocation.{IsSound, Session-IsSound}
use dangless_malloc.Invalidate.{virtual_invalidate}
use dangless_malloc.Vmcall.Tests.{one_alias_below, small_call}
use dangless_malloc.Init.{Startup, init}
use dangless_malloc.Init.Fault.{Diagnosed, fault-Diagnosed}
use dangless_malloc.Init.Once.{IsStarted, later, init-IsStarted}

sound : IsSound small_dune remapped (small_alias ∷ []) []
sound = Session-IsSound small_dune-IsLayout one_alias

fault-Diagnosed_example :
    (m' : Machine) × (virtual_invalidate small_dune 0x400010 1 remapped.machine ≡ ok tt m')
    × Diagnosed small_dune m' (page_base 0x400010) 1
unfolding num_spanned_pages
fault-Diagnosed_example =
    fault-Diagnosed small_dune-IsLayout 0x400010 1 remapped.machine (omega arith) sound.ready.tree
      sound.hold.0.mapped

abbrev not_started : Startup
not_started = record {
  init_happened = 0;
  initialized = false;
  in_dune = false;
  fixups = small_call.fixups;
  prehook_set = false;
  posthook_set = false;
  pgflt_handler_set = false;
}

init-IsStarted_example :
    (s' : Startup) × (init one_alias_below 8 (pos 0) (pos 0) not_started ≡ ok tt s')
    × IsStarted one_alias_below 8 s'
    × ((calls : List (ℤ × ℤ))
        → later one_alias_below 8 calls s'
          ≡ ok tt (record s' { init_happened = s'.init_happened + length calls }))
init-IsStarted_example = init-IsStarted one_alias_below 8 not_started refl
