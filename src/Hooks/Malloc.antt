-- ===== src/Hooks/Malloc.antt =====
-- dangless_malloc: an alias of the block, or the block itself.
use dangless_malloc.Prelude.{
  ℕ, ◌≡◌, ◌≢◌, refl, ◌∙◌, inl, inr, ◌⊎◌, Bool, true, false, not, ◌&&◌, some, List, ◌∷◌, Run, ok,
  fault, ltb, arith, mul64, pos, sym, ne→==, if◌then◌else◌, ℤ, Option, is_negative, returns,
  and_then, After, after_bind,
}
use dangless_malloc.Dune.{Dune}
use dangless_malloc.VirtMem.Tree.{IsLayout, Sites}
use dangless_malloc.VirtualRemap.{Process, vrem_ok, evrem_no_vm, evrem_virt_map, vremap_map}
use dangless_malloc.VirtualRemap.Alias.{
  IsBacked, Remapped, alias, no_vm, virt_map, vremap_map-Remapped,
}
use dangless_malloc.VirtualRemap.Session.{Alias, Session, aliased, refused}
use dangless_malloc.VirtualRemap.Revocation.{Session-IsSound}
use dangless_malloc.SysMalloc.{SysMalloc}
use dangless_malloc.Hooks.{
  Dangless, SpanMemory, on_spans, on_heap, count, is_hook_running, hook_enter, hook_exit,
  hook_return, is_no_vm, out_or, remap_retrying, do_vremap, malloc, calloc, posix_memalign, is_zero,
}

-- What malloc leaves: a new alias, or the block where there is none. The state of the system allocator
-- is `h'`, and what the calls for spans have made of it.
pub record Handed {H : Type 0} (dune : Dune) (spans : SpanMemory H) (s : Process)
    (live dead : List Alias) (p actual_sz : ℕ) (h' : H) (out : ℕ) (d' : Dangless H) : Type 0 where
  pub session :
      Session dune d'.process (record { ptr = p; out = out; size = actual_sz } ∷ live) dead
      ⊎ ((out ≡ p) × Session dune d'.process live dead)
  pub heap : d'.heap ≡ spans.heap_after s d'.process h'
  pub depth : d'.hook_depth ≡ 0
  pub dedicated : d'.auto_dedicate_happened ≡ true

-- What a call of vremap_map inside the hook leaves: an alias or an error, and all else as it was.
record Mapped {H : Type 0} (dune : Dune) (spans : SpanMemory H) (live dead : List Alias)
    (p actual_sz : ℕ) (d : Dangless H) (res : ℤ × Option ℕ) (d' : Dangless H) : Type 0 where
  outcome :
      ((out : ℕ) × (res ≡ (vrem_ok, some out))
        × Session dune d'.process (record { ptr = p; out = out; size = actual_sz } ∷ live) dead)
      ⊎ ((is_negative res.0 ≡ true) × Session dune d'.process live dead)
  heap : d'.heap ≡ spans.heap_after d.process d'.process d.heap
  depth : d'.hook_depth ≡ d.hook_depth
  dedicated : d'.auto_dedicate_happened ≡ d.auto_dedicate_happened

module _ (dune : Dune) {H : Type 0} (spans : SpanMemory H) {live dead : List Alias}
    (p actual_sz : ℕ) (d : Dangless H) (session : Session dune d.process live dead)
    (backed : IsBacked dune p actual_sz) where
  Mapped-Remapped :
      {site : Sites} {r : Run Process (ℤ × Option ℕ)}
      → Remapped dune site d.process p actual_sz r
      → vremap_map dune true p actual_sz d.process ≡ r
      → After
          (λ res d'. Mapped dune spans live dead p actual_sz d res d')
          (elim r as (λ _. Run (Dangless H) (ℤ × Option ℕ)) [
            | ok a s ↦ ok a (record d { process = s; heap = spans.heap_after d.process s d.heap })
            | fault ↦ fault
          ])
  Mapped-Remapped (alias out ready offset at fits mapped owned others before) run =
      returns (record {
        outcome = inl (out, refl, aliased p actual_sz out session backed run);
        heap = refl;
        depth = refl;
        dedicated = refl;
      })
  Mapped-Remapped (no_vm short ready same items) run = returns (record {
    outcome = inr (refl, refused p actual_sz evrem_no_vm session backed run);
    heap = refl;
    depth = refl;
    dedicated = refl;
  })
  Mapped-Remapped (virt_map call null first last ready same items) run = returns (record {
    outcome = inr (refl, refused p actual_sz evrem_virt_map session backed run);
    heap = refl;
    depth = refl;
    dedicated = refl;
  })

-- A result that is returned beside a constant.
after_paired :
    {S A B : Type 0} {P : A → S → Type 0} {m : Run S A} (z : B)
    → After P m
    → After (λ (res : B × A) s. (res.0 ≡ z) × P res.1 s) (and_then m (λ q. ok (z, q)))
after_paired z (returns h) = returns (refl, h)

no_retry : (failed happened : Bool) → happened ≡ true → (failed && not happened) ≡ false
no_retry failed happened h = ground (arith, h)

module _ {dune : Dune} (lay : IsLayout dune) {H : Type 0} (sys : SysMalloc H) (spans : SpanMemory H)
    (some_room : spans.has_room 512 ≡ true) (live dead : List Alias) (p size : ℕ) (not_null : p ≢ 0)
    (some_size : size ≢ 0) where
  remap_retrying-Mapped :
      (actual_sz : ℕ) (d : Dangless H)
      → Session dune d.process live dead
      → IsBacked dune p actual_sz
      → d.auto_dedicate_happened ≡ true
      → After
          (λ res d'. Mapped dune spans live dead p actual_sz d res d')
          (remap_retrying dune sys spans p actual_sz d)
  unfolding remap_retrying on_spans
  remap_retrying-Mapped actual_sz d session backed happened =
      let so = Session-IsSound lay session in
      rw some_room (
        after_bind _
          (Mapped-Remapped dune spans p actual_sz d session backed
            (vremap_map-Remapped lay so.ready p actual_sz backed) refl)
          (λ res d' m.
            rw (no_retry (is_no_vm res.0) d'.auto_dedicate_happened (m.dedicated ∙ happened))
              (returns m)))

  -- The result of do_vremap for the two outcomes.
  do_vremap-result :
      {actual_sz : ℕ} {d : Dangless H} (res : ℤ × Option ℕ) (d' : Dangless H)
      → Mapped dune spans live dead p actual_sz d res d'
      → Session dune d'.process
          (record {
            ptr = p;
            out = if is_negative res.0 then p else out_or 0 res.1;
            size = actual_sz;
          }
            ∷ live)
          dead
        ⊎ (((if is_negative res.0 then p else out_or 0 res.1) ≡ p)
            × Session dune d'.process live dead)
  do_vremap-result res d' m = elim m.outcome [
    | inl (out, e, session) ↦ inl (rw e session)
    | inr (negative, session) ↦ inr (rw negative refl, session)
  ]

  pub do_vremap-Handed :
      (d : Dangless H)
      → Session dune d.process live dead
      → IsBacked dune p (sys.sysmalloc_usable_size d.heap p)
      → d.auto_dedicate_happened ≡ true
      → After
          (λ out d'.
            (Session dune d'.process
                (record { ptr = p; out = out; size = sys.sysmalloc_usable_size d.heap p } ∷ live)
                dead
              ⊎ ((out ≡ p) × Session dune d'.process live dead))
            × (d'.heap ≡ spans.heap_after d.process d'.process d.heap)
            × (d'.hook_depth ≡ d.hook_depth)
            × (d'.auto_dedicate_happened ≡ true))
          (do_vremap dune sys spans p size d)
  unfolding do_vremap count
  do_vremap-Handed d session backed happened =
      rw (ne→== _ _ not_null, ne→== _ _ some_size)
        (after_bind _ (remap_retrying-Mapped _ _ session backed happened) (λ res d' m.
          returns (do_vremap-result res d' m, m.heap, m.depth, m.dedicated ∙ happened)))

  -- From inside a hook to its end.
  pub hook_return-Handed :
      (d : Dangless H)
      → Session dune d.process live dead
      → IsBacked dune p (sys.sysmalloc_usable_size d.heap p)
      → d.auto_dedicate_happened ≡ true
      → d.hook_depth ≡ 1
      → After
          (λ out d'.
            Handed dune spans d.process live dead p
              (sys.sysmalloc_usable_size d.heap p)
              d.heap
              out
              d')
          (hook_return (do_vremap dune sys spans p size) d)
  unfolding hook_return hook_exit is_hook_running
  hook_return-Handed d session backed happened inside =
      after_bind _ (do_vremap-Handed _ session backed happened) (λ out d' h.
        let running : ltb 0 d'.hook_depth ≡ true = ground (arith, h.2, inside) in
        rw running (
          returns (record {
            session = h.0;
            heap = h.1;
            depth = omega (arith, h.2, inside);
            dedicated = h.3;
          })))

  module _ (d : Dangless H) (h' : H) (session : Session dune d.process live dead)
      (outside : d.hook_depth ≡ 0) (happened : d.auto_dedicate_happened ≡ true)
      (backed : IsBacked dune p (sys.sysmalloc_usable_size h' p)) where
    not_running : ltb 0 d.hook_depth ≡ false
    not_running = ground (arith, outside)

    -- With the layout that platform/dune assumes, in a state reached from a ready one by calls
    -- of vremap_map, vremap_resolve and virtual_invalidate, outside all hooks, after automatic
    -- dedication, where sysmalloc of size > 0 bytes gives a block p whose usable bytes fulfil
    -- the conditions of vremap_map, and where MALLOC in vp_free does not fail: dangless_malloc
    -- returns either an address which is from then on a live alias of the usable bytes of p,
    -- or p itself with the live aliases as before; no hook is running, and the state of the
    -- system allocator is what sysmalloc left, and what the calls of sysfree and sysmalloc
    -- that vp_alloc and vp_free make for their spans make of it.
    pub malloc-Handed :
        sys.sysmalloc size d.heap ≡ ok p h'
        → After
            (λ out d'.
              Handed dune spans d.process live dead p (sys.sysmalloc_usable_size h' p) h' out d')
            (malloc dune sys spans size d)
    unfolding malloc on_heap hook_enter is_hook_running count
    malloc-Handed allocated =
        rw (allocated, on_heap, malloc)
          (rw (not_running, (Session-IsSound lay session).ready.kernel)
            (hook_return-Handed _ session backed happened (omega (arith, outside))))

    pub calloc-Handed :
        (num each : ℕ)
        → size ≡ mul64 num each
        → sys.syscalloc num each d.heap ≡ ok p h'
        → After
            (λ out d'.
              Handed dune spans d.process live dead p (sys.sysmalloc_usable_size h' p) h' out d')
            (calloc dune sys spans num each d)
    unfolding calloc on_heap hook_enter is_hook_running count
    calloc-Handed num each total allocated =
        rw (allocated, on_heap, calloc)
          (rw (not_running, (Session-IsSound lay session).ready.kernel, sym total)
            (hook_return-Handed _ session backed happened (omega (arith, outside))))

    pub posix_memalign-Handed :
        (old align : ℕ)
        → sys.sysmemalign old align size d.heap ≡ ok (pos 0, some p) h'
        → After
            (λ res d'.
              (res.0 ≡ pos 0)
              × Handed dune spans d.process live dead p
                  (sys.sysmalloc_usable_size h' p)
                  h'
                  res.1
                  d')
            (posix_memalign dune sys spans old align size d)
    unfolding posix_memalign on_heap hook_enter is_hook_running is_zero hook_return hook_exit
    posix_memalign-Handed old align allocated =
        rw (allocated, on_heap, posix_memalign)
          (rw (not_running, (Session-IsSound lay session).ready.kernel)
            (after_bind _ (after_paired (pos 0) (do_vremap-Handed _ session backed happened))
              (λ res d' h.
                let running : ltb 0 d'.hook_depth ≡ true = ground (arith, h.1.2) in
                rw running (
                  returns (
                    h.0,
                    record {
                      session = h.1.0;
                      heap = h.1.1;
                      depth = omega (arith, h.1.2, outside);
                      dedicated = h.1.3;
                    },
                  )))))
