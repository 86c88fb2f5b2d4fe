-- ===== src/VirtualRemap/Tests.antt =====
-- An allocation of 32 bytes in the mmap() region, remapped and resolved.
use dangless_malloc.Prelude.{
  ℕ, ◌+◌, ◌^◌, ◌≡◌, refl, arith, true, Option, some, [], ◌∷◌, Run, ok, fault, pos, ℤ,
}
use dangless_malloc.Page.{num_spanned_pages, page_base, pg_offset}
use dangless_malloc.Dune.{Machine, pp_zalloc}
use dangless_malloc.FreeList.{freelist_alloc, span, freelist_init}
use dangless_malloc.FreeList.Order.{covers}
use dangless_malloc.FreeList.Contract.{owns}
use dangless_malloc.VirtMem.{pt_resolve_page, get_page_offset, pt_map_region, pt_walk, flag_isset}
use dangless_malloc.VirtMem.Tests.{
  small_dune, small_dune-IsLayout, empty_machine, empty_machine-IsTree, only_root,
}
use dangless_malloc.VirtualRemap.{Process, in_kernel_mode, vrem_ok, vremap_map, vremap_resolve}
use dangless_malloc.VirtualRemap.Ready.{IsReady}
use dangless_malloc.VirtualRemap.Alias.{IsBacked, Remapped, vremap_map-Remapped}
use dangless_malloc.VirtualRemap.Session.{Alias, npages_of, here, Session, opened, aliased, revoked}
use dangless_malloc.VirtualRemap.Revocation.{IsSound, Session-IsSound}
use dangless_malloc.Invalidate.{
  virtual_invalidate, invalidate_pages, invalidate_chunk, invalidate_ptes,
}
use dangless_malloc.Invalidate.Revoke.{Revoked, virtual_invalidate-Revoked}
use dangless_malloc.VirtualRemap.Original.{IsMmap, vremap_resolve-vremap_map}

abbrev pub two_pages : Process
two_pages = record {
  list = record freelist_init { items = span 0x400000 0x402000 ∷ [] };
  machine = empty_machine;
  last_result = pos 0;
  cs = 0;
}

pub two_pages-IsReady : IsReady small_dune only_root two_pages
unfolding owns covers pt_resolve_page in_kernel_mode
two_pages-IsReady = record {
  valid = record {
    sorted = (
      omega arith,
      record {
        nonempty = omega arith;
        fits = omega arith;
        start_aligned = refl;
        end_aligned = refl;
      },
      tt,
    );
  };
  tree = empty_machine-IsTree;
  kernel = refl;
  no_null = refl;
  low = λ a h. ground (arith, h);
  free = λ a h. refl;
}

abbrev pub small_ptr : ℕ
small_ptr = 2 ^ 36 + 0x1010

pub small_ptr-IsBacked : IsBacked small_dune small_ptr 0x20
small_ptr-IsBacked = record {
  not_null = omega arith;
  some_bytes = omega arith;
  fits = omega arith;
  offset = refl;
  above = omega arith;
  below = omega arith;
}

vremap_map-Remapped_example :
    Remapped small_dune only_root two_pages small_ptr 0x20
      (vremap_map small_dune true small_ptr 0x20 two_pages)
vremap_map-Remapped_example =
    vremap_map-Remapped small_dune-IsLayout two_pages-IsReady small_ptr 0x20 small_ptr-IsBacked

-- The state after the call.
abbrev remapped_state : Run Process (ℤ × Option ℕ) → Process
remapped_state (ok r s) = s
remapped_state fault = two_pages

abbrev pub remapped : Process
remapped = remapped_state (vremap_map small_dune true small_ptr 0x20 two_pages)

remapped_run :
    vremap_map small_dune true small_ptr 0x20 two_pages ≡ ok (vrem_ok, some 0x400010) remapped
unfolding vremap_map num_spanned_pages get_page_offset freelist_alloc pt_map_region pt_walk
    pp_zalloc
remapped_run = refl

small_ptr-IsMmap : IsMmap small_dune (small_ptr + 5)
small_ptr-IsMmap = record { above = omega arith; below = omega arith; moved = refl }

vremap_resolve-vremap_map_example :
    vremap_resolve small_dune (0x400010 + 5) remapped
    ≡ ok (vrem_ok, some (small_ptr + 5)) (record remapped { last_result = vrem_ok })
vremap_resolve-vremap_map_example =
    vremap_resolve-vremap_map small_dune-IsLayout two_pages-IsReady small_ptr 0x20
      small_ptr-IsBacked 0x400010 5 remapped remapped_run (omega arith) small_ptr-IsMmap refl
      (omega arith)

abbrev pub small_alias : Alias
small_alias = record { ptr = small_ptr; out = 0x400010; size = 0x20 }

pub one_alias : Session small_dune remapped (small_alias ∷ []) []
one_alias =
    aliased small_ptr 0x20 0x400010 (opened two_pages-IsReady) small_ptr-IsBacked remapped_run

-- The machine after the alias has been revoked.
abbrev machine_of : Run Machine (Unit {0}) → Machine
machine_of (ok r m) = m
machine_of fault = empty_machine

abbrev revoked_machine : Machine
revoked_machine = machine_of (virtual_invalidate small_dune 0x400010 1 remapped.machine)

revoked_run :
    virtual_invalidate small_dune 0x400010 (npages_of small_alias) remapped.machine
    ≡ ok tt revoked_machine
unfolding virtual_invalidate vremap_map num_spanned_pages get_page_offset freelist_alloc
    pt_map_region pt_walk pp_zalloc flag_isset invalidate_pages invalidate_chunk pg_offset
    invalidate_ptes
revoked_run = refl

Session-IsSound_example :
    IsSound small_dune (record remapped { machine = revoked_machine }) [] (small_alias ∷ [])
Session-IsSound_example =
    Session-IsSound small_dune-IsLayout (revoked small_alias one_alias here revoked_run)

remapped_site : IsSound small_dune remapped (small_alias ∷ []) []
remapped_site = Session-IsSound small_dune-IsLayout one_alias

virtual_invalidate-Revoked_example :
    (m' : Machine) × (virtual_invalidate small_dune 0x400010 1 remapped.machine ≡ ok tt m')
    × Revoked small_dune remapped_site.site remapped.machine m' (page_base 0x400010) 1
unfolding num_spanned_pages
virtual_invalidate-Revoked_example =
    virtual_invalidate-Revoked small_dune-IsLayout 0x400010 1 (omega arith) remapped.machine
      remapped_site.ready.tree remapped_site.hold.0.mapped
