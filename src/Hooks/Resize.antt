-- ===== src/Hooks/Resize.antt =====
-- dangless_realloc of an alias that is in use.
use dangless_malloc.Prelude.{
  ℕ, ◌+◌, ◌-◌, ◌≤◌, ◌<◌, ◌≡◌, ◌≢◌, ◌==◌, refl, sym, ap, subst, ◌∙◌, inl, inr, ◌⊎◌, true, false,
  some, List, ◌∷◌, ok, ltb, leb, arith, ne→==, if◌then◌else◌, Bool-cases, returns, After,
  after_bind, after_map, add64,
}
use dangless_malloc.Page.{pgsize, round_up, num_spanned_pages}
use dangless_malloc.FreeList.{FreeList}
use dangless_malloc.Dune.{Dune, Machine}
use dangless_malloc.VirtMem.Tree.{IsLayout}
use dangless_malloc.VirtualRemap.{Process, vrem_ok, vremap_resolve}
use dangless_malloc.VirtualRemap.Alias.{IsBacked}
use dangless_malloc.VirtualRemap.Original.{IsMmap}
use dangless_malloc.VirtualRemap.Session.{
  Alias, npages_of, resize, tail_of, Picked, Session, resolved, revoked, resized, shrunk, Holds,
}
use dangless_malloc.VirtualRemap.Session.Resize.{
  npages_of-tail_of, Reserved-tail_of, tail_of-IsMapped,
}
use dangless_malloc.VirtualRemap.Session.Revoke.{Picked-AllHold}
use dangless_malloc.VirtualRemap.Revocation.{Session-IsSound}
use dangless_malloc.Invalidate.{virtual_invalidate}
use dangless_malloc.Invalidate.Revoke.{virtual_invalidate-Revoked}
use dangless_malloc.SysMalloc.{SysMalloc}
use dangless_malloc.Hooks.{
  SpanMemory, Dangless, on_process, on_heap, on_machine_of, count, is_hook_running, hook_enter,
  hook_exit, hook_return, is_zero, in_realloc,
}
use dangless_malloc.Hooks.Realloc.{
  realloc_move, realloc_in_place, realloc_remapped, realloc_body, realloc,
}
use dangless_malloc.Hooks.Malloc.{do_vremap-Handed}
use dangless_malloc.Hooks.Resolve.{vremap_resolve-Holds}

-- What becomes of the alias `x`, whose block is now `actual_sz` bytes at `newp`, when `out` is
-- returned. `rest` are the other live aliases.
pub data Placed (dune : Dune) (rest dead : List Alias) (x : Alias) (newp actual_sz out : ℕ)
    (s' : Process) : Type 0 where
  kept :
      newp ≡ x.ptr
      → num_spanned_pages newp actual_sz ≡ npages_of x
      → out ≡ x.out
      → Session dune s' (resize x actual_sz ∷ rest) dead
      → Placed dune rest dead x newp actual_sz out s'
  shortened :
      newp ≡ x.ptr
      → num_spanned_pages newp actual_sz < npages_of x
      → out ≡ x.out
      → Session dune s' (resize x actual_sz ∷ rest) (tail_of x actual_sz ∷ dead)
      → Placed dune rest dead x newp actual_sz out s'
  moved :
      (newp ≡ x.ptr → npages_of x < num_spanned_pages newp actual_sz)
      → Session dune s' (record { ptr = newp; out = out; size = actual_sz } ∷ rest) (x ∷ dead)
        ⊎ ((out ≡ newp) × Session dune s' rest (x ∷ dead))
      → Placed dune rest dead x newp actual_sz out s'

-- The state of the system allocator is `h`, or what the calls for spans have made of it, where the
-- free list was `list` before them.
pub data HeapAfter {H : Type 0} (spans : SpanMemory H) (list : FreeList) (s' : Process) (h h'' : H)
    : Type 0 where
  untouched : h'' ≡ h → HeapAfter spans list s' h h''
  bookkept :
      (s : Process) → s.list ≡ list → h'' ≡ spans.heap_after s s' h → HeapAfter spans list s' h h''

-- What a reallocation leaves.
pub record Reallocated {H : Type 0} (dune : Dune) (spans : SpanMemory H) (list : FreeList)
    (rest dead : List Alias) (x : Alias) (newp actual_sz : ℕ) (h' : H) (out : ℕ) (d' : Dangless H)
    : Type 0 where
  pub placed : Placed dune rest dead x newp actual_sz out d'.process
  pub heap : HeapAfter spans list d'.process h' d'.heap
  pub depth : d'.hook_depth ≡ 0
  pub dedicated : d'.auto_dedicate_happened ≡ true

-- The same inside the hook, from the state in which the block has its size.
abbrev Done :
    {H : Type 0} (dune : Dune) (spans : SpanMemory H) (rest dead : List Alias) (x : Alias)
    (d : Dangless H) (newp actual_sz out : ℕ) (d' : Dangless H)
    → Type 0
Done dune spans rest dead x d newp actual_sz out d' =
    Placed dune rest dead x newp actual_sz out d'.process
    × HeapAfter spans d.process.list d'.process d.heap d'.heap
    × (d'.hook_depth ≡ d.hook_depth)
    × (d'.auto_dedicate_happened ≡ true)

module _ {dune : Dune} (lay : IsLayout dune) {H : Type 0} (sys : SysMalloc H) (spans : SpanMemory H)
    (some_room : spans.has_room 512 ≡ true) {live rest dead : List Alias} (x : Alias)
    (picked : Picked x live rest) (new_size : ℕ) (some_size : new_size ≢ 0) where
  module _ (d : Dangless H) (session : Session dune d.process live dead)
      (happened : d.auto_dedicate_happened ≡ true) where
    held : Holds dune d.process x
    held = (Picked-AllHold picked (Session-IsSound lay session).hold).0

    realloc_move-Done :
        (newp : ℕ)
        → newp ≢ 0
        → IsBacked dune newp (sys.sysmalloc_usable_size d.heap newp)
        → (newp ≡ x.ptr
            → npages_of x < num_spanned_pages newp (sys.sysmalloc_usable_size d.heap newp))
        → After
            (λ out d'.
              Done dune spans rest dead x d newp (sys.sysmalloc_usable_size d.heap newp) out d')
            (realloc_move dune sys spans x.out (npages_of x) newp new_size d)
    unfolding realloc_move on_machine_of
    realloc_move-Done newp not_null backed grown =
        let so = Session-IsSound lay session in
        let (m', run, r) =
          virtual_invalidate-Revoked lay x.out (npages_of x) held.reserved.fits d.process.machine
            so.ready.tree held.mapped in
        rw (run, on_machine_of, realloc_move)
          (after_map
            (do_vremap-Handed lay sys spans some_room rest (x ∷ dead) newp new_size not_null
              some_size _ (revoked x session picked run) backed happened)
            (λ out d' h. (moved grown h.0, bookkept _ refl h.1, h.2, h.3)))

    abbrev actual_sz : ℕ
    actual_sz = sys.sysmalloc_usable_size d.heap x.ptr

    module _ (backed : IsBacked dune x.ptr actual_sz) where
      tail_start :
          num_spanned_pages x.ptr actual_sz < npages_of x
          → round_up (add64 x.out actual_sz) pgsize ≡ (tail_of x actual_sz).out
      unfolding round_up num_spanned_pages
      tail_start fewer =
          omega (arith, held.offset, held.reserved.fits, backed.fits, backed.some_bytes)

      shorten :
          num_spanned_pages x.ptr actual_sz < npages_of x
          → (m' : Machine) × (virtual_invalidate dune
                (tail_of x actual_sz).out
                (npages_of x - num_spanned_pages x.ptr actual_sz)
                d.process.machine
              ≡ ok tt m')
      shorten fewer =
          let y = tail_of x actual_sz in
          let so = Session-IsSound lay session in
          let reserved = Reserved-tail_of x actual_sz held.backed backed fewer held.reserved in
          let (m', run, r) =
            virtual_invalidate-Revoked lay y.out (npages_of y) reserved.fits d.process.machine
              so.ready.tree (tail_of-IsMapped x actual_sz held.backed backed fewer held) in
          (
            m',
            ap (λ c. virtual_invalidate dune y.out c d.process.machine)
                  (sym (npages_of-tail_of x actual_sz held.backed backed fewer))
                ∙ run,
          )

      realloc_in_place-Done :
          x.ptr ≢ 0
          → After
              (λ out d'. Done dune spans rest dead x d x.ptr actual_sz out d')
              (realloc_in_place dune sys spans x.out (npages_of x) x.ptr new_size actual_sz d)
      unfolding realloc_in_place on_machine_of
      realloc_in_place-Done not_null =
          elim (Bool-cases (num_spanned_pages x.ptr actual_sz == npages_of x)) [
            | inl same ↦
                let e : num_spanned_pages x.ptr actual_sz ≡ npages_of x = ground (arith, same) in
                rw same (
                  returns (
                    kept refl e refl (resized x actual_sz session picked backed e),
                    untouched refl,
                    refl,
                    happened,
                  ))
            | inr other ↦
                elim (Bool-cases (ltb (num_spanned_pages x.ptr actual_sz) (npages_of x))) [
                  | inl less ↦
                      let fewer : num_spanned_pages x.ptr actual_sz < npages_of x =
                        ground (arith, less) in
                      let (m', run) = shorten fewer in
                      rw (other, less, tail_start fewer)
                        (rw (run, on_machine_of, realloc_in_place)
                          (returns (
                            shortened refl fewer refl
                                (shrunk x actual_sz session picked backed fewer run),
                            untouched refl,
                            refl,
                            happened,
                          )))
                  | inr more ↦
                      rw (other, more)
                        (realloc_move-Done x.ptr not_null backed (λ e. ground (arith, other, more)))
                ]
          ]

  module _ (d : Dangless H) (session : Session dune d.process live dead)
      (outside : d.hook_depth ≡ 0) (happened : d.auto_dedicate_happened ≡ true)
      (mmap : IsMmap dune x.ptr) (remapped : dune.va_to_pa x.out ≢ dune.va_to_pa x.ptr)
      (usable : sys.sysmalloc_usable_size d.heap x.ptr ≡ x.size) (newp : ℕ) (h' : H)
      (reallocated : sys.sysrealloc x.ptr new_size d.heap ≡ ok newp h') (not_null : newp ≢ 0)
      (enough : new_size ≤ sys.sysmalloc_usable_size h' newp)
      (backed : IsBacked dune newp (sys.sysmalloc_usable_size h' newp)) where
    resolve_run :
        vremap_resolve dune x.out d.process
        ≡ ok (vrem_ok, some x.ptr) (record d.process { last_result = vrem_ok })
    resolve_run =
        vremap_resolve-Holds lay x (Session-IsSound lay session) (held d session happened) mmap
          remapped

    -- Where sysrealloc has returned.
    abbrev inside : Dangless H
    inside = record {
      process = record d.process { last_result = vrem_ok };
      heap = h';
      auto_dedicate_happened = d.auto_dedicate_happened;
      hook_depth = d.hook_depth + 1;
      hook_funcname = some in_realloc;
      counters = record d.counters {
        num_reallocations = d.counters.num_reallocations + 1;
        num_reallocated_vpages = d.counters.num_reallocated_vpages + npages_of x;
      };
    }

    placed_inside :
        After
          (λ out d'.
            Done dune spans rest dead x inside newp (sys.sysmalloc_usable_size h' newp) out d')
          ((if newp == x.ptr
              then realloc_in_place dune sys spans x.out
                  (npages_of x)
                  newp
                  new_size
                  (sys.sysmalloc_usable_size h' newp)
              else realloc_move dune sys spans x.out (npages_of x) newp new_size)
            inside)
    placed_inside =
        let session' = resolved x.out session resolve_run in
        elim (Bool-cases (newp == x.ptr)) [
          | inr other ↦ rw other (
              realloc_move-Done inside session' happened newp not_null backed
                (λ e. absurd (ground (arith, e, other))))
          | inl same ↦
              let e : x.ptr ≡ newp = ground (arith, same) in
              rw same (
                subst
                  (λ q.
                    IsBacked dune q (sys.sysmalloc_usable_size h' q)
                    → q ≢ 0
                    → After
                        (λ out d'.
                          Done dune spans rest dead x inside q (sys.sysmalloc_usable_size h' q) out
                            d')
                        (realloc_in_place dune sys spans x.out (npages_of x) q new_size
                          (sys.sysmalloc_usable_size h' q) inside))
                  e (realloc_in_place-Done inside session' happened) backed not_null)
        ]

    -- With the layout that platform/dune assumes, in a state reached from a ready one by the
    -- steps of a session, outside all hooks, after automatic dedication, for a live alias x of
    -- the number of bytes that the system allocator calls usable, whose memory mmap() gave out
    -- and which is not an address with the same physical one, where sysrealloc of the block to
    -- new_size > 0 bytes gives newp with at least new_size usable bytes that fulfil the
    -- conditions of vremap_map, and where MALLOC in vp_free does not fail: dangless_realloc
    -- returns, no hook is running and the state of the system allocator is what sysrealloc
    -- left, or what the calls of sysfree and sysmalloc for spans make of that, from the free
    -- list as it was before. If newp is the old block and takes as many pages, x is returned,
    -- a live alias of all the usable bytes from then on; if it takes fewer, x is returned so
    -- too, and the pages behind are one of the revoked aliases; if newp is another block or
    -- takes more pages, x is one of the revoked aliases, and what is returned is a live alias
    -- of newp, or newp itself.
    pub realloc-Reallocated :
        After
          (λ out d'.
            Reallocated dune spans d.process.list rest dead x newp
              (sys.sysmalloc_usable_size h' newp)
              h'
              out
              d')
          (realloc dune sys spans x.out new_size d)
    unfolding realloc realloc_in_place realloc_move hook_enter is_hook_running realloc_body
        on_process is_zero realloc_remapped on_heap hook_return hook_exit count
    realloc-Reallocated =
        let so = Session-IsSound lay session in
        let not_running : ltb 0 d.hook_depth ≡ false = ground (arith, outside) in
        let covers_it : leb new_size (sys.sysmalloc_usable_size h' newp) ≡ true = ground arith in
        rw (not_running, so.ready.kernel)
          (rw (ne→== _ _ (held d session happened).not_null) (
            rw (resolve_run, on_process, realloc)
              (rw usable (
                rw (reallocated, on_heap, realloc)
                  (rw (ne→== _ _ not_null, covers_it)
                    (after_bind _ placed_inside (λ out d' h.
                      let running : ltb 0 d'.hook_depth ≡ true = ground (arith, h.2) in
                      rw running (
                        returns (record {
                          placed = h.0;
                          heap = h.1;
                          depth = omega (arith, h.2, outside);
                          dedicated = h.3;
                        })))))))))
