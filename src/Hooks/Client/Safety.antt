-- ===== src/Hooks/Client/Safety.antt =====
-- What a program that calls the hooks can rely on.
use dangless_malloc.Prelude.{◌≡◌, true, []}
use dangless_malloc.Dune.{Dune}
use dangless_malloc.VirtMem.Tree.{IsLayout, Sites}
use dangless_malloc.VirtualRemap.Ready.{IsReady}
use dangless_malloc.VirtualRemap.Revocation.{Session-IsSound}
use dangless_malloc.SysMalloc.{SysMalloc}
use dangless_malloc.Hooks.{SpanMemory, Dangless}
use dangless_malloc.Hooks.Client.{Ledger, Trace, started, called}
use dangless_malloc.Hooks.Client.Tracks.{
  nothing, AllServed, AllRevoked, AllDistinct, Tracks-AllServed, Tracks-AllRevoked,
  Tracks-AllDistinct,
}
use dangless_malloc.Hooks.Client.Served.{Tracked, Step-Tracked}

-- The state is ready for the next call, what the program holds is in use, what it has freed is not.
pub record IsProtected {H : Type 0} (dune : Dune) (d : Dangless H) (l : Ledger) : Type 0 where
  pub site : Sites
  pub ready : IsReady dune site d.process
  pub served : AllServed dune d.process l.held
  pub distinct : AllDistinct l.held
  pub revoked : AllRevoked dune d.process l.freed
  pub depth : d.hook_depth ≡ 0

module _ {dune : Dune} (lay : IsLayout dune) {H : Type 0} (sys : SysMalloc H) (spans : SpanMemory H)
    (some_room : spans.has_room 512 ≡ true) where
  Trace-Tracked : {d : Dangless H} {l : Ledger} → Trace dune sys spans d l → Tracked dune d l
  Trace-Tracked (started session outside happened) = record {
    live = [];
    dead = [];
    session = session;
    held = nothing;
    gone = nothing;
    depth = outside;
    dedicated = happened;
  }
  Trace-Tracked (called trace step) =
      Step-Tracked lay sys spans some_room step (Trace-Tracked trace)

  -- With the layout that platform/dune assumes, after automatic dedication, for a program
  -- outside all hooks that makes any sequence of calls of malloc, calloc, posix_memalign, free
  -- and realloc, with arguments other than 0, on blocks that it holds, and where each time the
  -- system allocator serves the call with a block that fulfils the conditions of vremap_map,
  -- keeps the usable size of a block until it is freed or resized, and MALLOC in vp_free does
  -- not fail: the state is ready again and no hook is running; every block that the program
  -- holds either has its own address, since no alias could be made, or an alias each byte of
  -- which translates to that of the block; no two such aliases share a page; and no address in
  -- a page of an alias that the program has freed, or that a reallocation has moved, is
  -- translated or owned by the allocator. For a block to be freed or resized, vremap_resolve
  -- must be able to tell what it is: the block of an alias is mmap() memory with another
  -- physical address than the alias, a block without one is translated as dune_va_to_pa says.
  pub Trace-IsProtected :
      {d : Dangless H} {l : Ledger} → Trace dune sys spans d l → IsProtected dune d l
  Trace-IsProtected {d} trace =
      let t = Trace-Tracked trace in
      let so = Session-IsSound lay t.session in
      record {
        site = so.site;
        ready = so.ready;
        served = Tracks-AllServed dune d.process t.held so.hold;
        distinct = Tracks-AllDistinct t.held so.apart;
        revoked = Tracks-AllRevoked dune d.process t.gone so.gone;
        depth = t.depth;
      }
