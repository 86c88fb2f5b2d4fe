-- ===== src/Hooks/Client/Served.antt =====
-- What one call of a hook does to the ledger.
use dangless_malloc.Prelude.{
  ℕ, ◌≤◌, ◌<◌, ◌≡◌, ◌⊎◌, refl, sym, ap, subst, ◌∙◌, inl, inr, true, List, ◌∷◌, ok, after_ok, arith,
}
use dangless_malloc.FreeList.{FreeList}
use dangless_malloc.VirtualRemap.{Process}
use dangless_malloc.Dune.{Dune}
use dangless_malloc.VirtMem.Tree.{IsLayout}
use dangless_malloc.Page.{num_spanned_pages}
use dangless_malloc.VirtualRemap.Session.{Alias, npages_of, resize, tail_of, Picked, Session}
use dangless_malloc.SysMalloc.{SysMalloc}
use dangless_malloc.Hooks.{SpanMemory, Dangless, free}
use dangless_malloc.Hooks.Malloc.{Handed, malloc-Handed, calloc-Handed, posix_memalign-Handed}
use dangless_malloc.Hooks.Free.{free-Freed}
use dangless_malloc.Hooks.Resize.{kept, shortened, moved, Reallocated, realloc-Reallocated}
use dangless_malloc.Hooks.Plain.{free-IsPlain, realloc-IsPlain, realloc-null}
use dangless_malloc.Hooks.Client.{
  Ledger, Recognised, an_alias, a_block, Step, malloced, calloced, memaligned, freed,
  realloced_null, realloced_in_place, realloced,
}
use dangless_malloc.Hooks.Client.Tracks.{
  Tracks, alias, block, beside, Left, Picked-Tracks, Tracks-rest,
}
use dangless_malloc.Hooks.Client.Tracks

-- The ledger is that of a session of remappings, outside all hooks.
pub record Tracked {H : Type 0} (dune : Dune) (d : Dangless H) (l : Ledger) : Type 0 where
  pub live : List Alias
  pub dead : List Alias
  pub session : Session dune d.process live dead
  pub held : Tracks l.held live
  pub gone : Tracks l.freed dead
  pub depth : d.hook_depth ≡ 0
  pub dedicated : d.auto_dedicate_happened ≡ true

module _ {dune : Dune} {H : Type 0} where
  -- A block that has just been handed out.
  Tracked-Session :
      {live dead held gone : List Alias} {p actual_sz out : ℕ} {d' : Dangless H}
      → Session dune d'.process (record { ptr = p; out = out; size = actual_sz } ∷ live) dead
        ⊎ ((out ≡ p) × Session dune d'.process live dead)
      → d'.hook_depth ≡ 0
      → d'.auto_dedicate_happened ≡ true
      → Tracks held live
      → Tracks gone dead
      → Tracked dune d'
          (record { held = record { ptr = p; out = out; size = actual_sz } ∷ held; freed = gone })
  Tracked-Session {live} {dead} {p = p} {actual_sz} {out} outcome depth dedicated t g =
      elim outcome [
        | inl session ↦ record {
          live = record { ptr = p; out = out; size = actual_sz } ∷ live;
          dead = dead;
          session = session;
          held = alias t;
          gone = g;
          depth = depth;
          dedicated = dedicated;
        }
        | inr (e, session) ↦ record {
          live = live;
          dead = dead;
          session = session;
          held = block e t;
          gone = g;
          depth = depth;
          dedicated = dedicated;
        }
      ]

  Tracked-Handed :
      {live dead held gone : List Alias} {spans : SpanMemory H} {s : Process} {p actual_sz out : ℕ}
      {h' : H} {d' : Dangless H}
      → Handed dune spans s live dead p actual_sz h' out d'
      → Tracks held live
      → Tracks gone dead
      → Tracked dune d'
          (record { held = record { ptr = p; out = out; size = actual_sz } ∷ held; freed = gone })
  Tracked-Handed h t g = Tracked-Session h.session h.depth h.dedicated t g

  module _ (lay : IsLayout dune) (sys : SysMalloc H) {d d' : Dangless H} {l : Ledger}
      (t : Tracked dune d l) {rest : List Alias} (x : Alias) (picked : Picked x l.held rest)
      (usable : sys.sysmalloc_usable_size d.heap x.ptr ≡ x.size) where
    freed-Tracked :
        (h' : H)
        → Recognised dune d.process x
        → Left x rest t.live
        → sys.sysfree x.ptr d.heap ≡ ok tt h'
        → free dune sys x.out d ≡ ok tt d'
        → Tracked dune d' (record { held = rest; freed = x ∷ l.freed })
    freed-Tracked h' (an_alias mmap remapped) (Tracks.no_alias e r) given run =
        absurd (remapped (ap dune.va_to_pa e))
    freed-Tracked h' (an_alias mmap remapped) (Tracks.an_alias {live'} picked' r) given run =
        let (d'', run', f) =
          free-Freed lay sys d x t.session picked' t.depth mmap remapped usable h' given in
        let same : d'' ≡ d' = cc (sym run' ∙ run) in
        subst (λ u. Tracked dune u (record { held = rest; freed = x ∷ l.freed })) same
          (record {
            live = live';
            dead = x ∷ t.dead;
            session = f.session;
            held = r;
            gone = alias t.gone;
            depth = f.depth;
            dedicated = f.dedicated ∙ t.dedicated;
          })
    freed-Tracked h' (a_block e plain) left given run =
        let (d'', run', session, heap, depth, dedicated) =
          free-IsPlain lay sys d t.session t.depth x.out plain h'
            (ap (λ q. sys.sysfree q d.heap) e ∙ given) in
        let same : d'' ≡ d' = cc (sym run' ∙ run) in
        subst (λ u. Tracked dune u (record { held = rest; freed = x ∷ l.freed })) same
          (record {
            live = t.live;
            dead = t.dead;
            session = session;
            held = Tracks-rest t.held picked;
            gone = block e t.gone;
            depth = depth;
            dedicated = dedicated ∙ t.dedicated;
          })

    -- An entry that a reallocation has replaced by a new one.
    replaced-Tracked :
        {live' : List Alias} {spans : SpanMemory H} {list : FreeList} {p actual_sz out : ℕ} {h' : H}
        → Reallocated dune spans list live' t.dead x p actual_sz h' out d'
        → Tracks rest live'
        → (p ≡ x.ptr → npages_of x < num_spanned_pages p actual_sz)
        → Tracked dune d' (record {
          held = record { ptr = p; out = out; size = actual_sz } ∷ rest;
          freed = x ∷ l.freed;
        })
    replaced-Tracked r tracks grown = elim r.placed [
      | kept place same e session ↦ absurd (omega (arith, grown place))
      | shortened place fewer e session ↦ absurd (omega (arith, grown place))
      | moved grown' outcome ↦ Tracked-Session outcome r.depth r.dedicated tracks (alias t.gone)
    ]

    stayed-Tracked :
        {live' : List Alias} {spans : SpanMemory H} {list : FreeList} {actual_sz out : ℕ} {h' : H}
        → Reallocated dune spans list live' t.dead x x.ptr actual_sz h' out d'
        → Tracks rest live'
        → num_spanned_pages x.ptr actual_sz ≤ npages_of x
        → Tracked dune d' (record {
          held = record { ptr = x.ptr; out = out; size = actual_sz } ∷ rest;
          freed = l.freed;
        })
    stayed-Tracked {live'} {actual_sz} {out} r tracks fits = elim r.placed [
      | kept place same e session ↦ record {
        live = resize x actual_sz ∷ live';
        dead = t.dead;
        session = session;
        held =
            subst
              (λ o.
                Tracks (record { ptr = x.ptr; out = o; size = actual_sz } ∷ rest)
                  (resize x actual_sz ∷ live'))
              (sym e) (alias tracks);
        gone = t.gone;
        depth = r.depth;
        dedicated = r.dedicated;
      }
      | shortened place fewer e session ↦ record {
        live = resize x actual_sz ∷ live';
        dead = tail_of x actual_sz ∷ t.dead;
        session = session;
        held =
            subst
              (λ o.
                Tracks (record { ptr = x.ptr; out = o; size = actual_sz } ∷ rest)
                  (resize x actual_sz ∷ live'))
              (sym e) (alias tracks);
        gone = beside t.gone;
        depth = r.depth;
        dedicated = r.dedicated;
      }
      | moved grown outcome ↦ absurd (omega (arith, grown refl))
    ]

module _ {dune : Dune} (lay : IsLayout dune) {H : Type 0} (sys : SysMalloc H) (spans : SpanMemory H)
    (some_room : spans.has_room 512 ≡ true) where
  pub Step-Tracked :
      {d d' : Dangless H} {l l' : Ledger}
      → Step dune sys spans d d' l l'
      → Tracked dune d l
      → Tracked dune d' l'
  Step-Tracked {d} {d'} (malloced size p out h' some_size given served run) t =
      Tracked-Handed
        (after_ok
          (malloc-Handed lay sys spans some_room t.live t.dead p size served.not_null some_size d h'
            t.session t.depth t.dedicated served.backed given)
          run)
        t.held t.gone
  Step-Tracked {d} {d'} (calloced num size p out h' some_size given served run) t =
      Tracked-Handed
        (after_ok
          (calloc-Handed lay sys spans some_room t.live t.dead p _ served.not_null some_size d h'
            t.session t.depth t.dedicated served.backed num size refl given)
          run)
        t.held t.gone
  Step-Tracked {d} {d'} (memaligned old align size p out h' some_size given served run) t =
      Tracked-Handed
        (after_ok
          (posix_memalign-Handed lay sys spans some_room t.live t.dead p size served.not_null
            some_size d h' t.session t.depth t.dedicated served.backed old align given)
          run).1
        t.held t.gone
  Step-Tracked (freed x h' picked known usable given run) t =
      freed-Tracked lay sys t x picked usable h' known (Picked-Tracks t.held picked) given run
  Step-Tracked {d} (realloced_null size p out h' some_size given served run) t =
      Tracked-Handed
        (after_ok
          (realloc-null lay sys d t.session t.depth spans some_room t.dedicated size p h' some_size
            served.not_null given served.backed)
          run)
        t.held t.gone
  Step-Tracked {d}
        (realloced_in_place x size out h' picked mmap remapped usable some_size given served enough
          fits run)
        t =
      elim (Picked-Tracks t.held picked) [
        | Tracks.no_alias e r ↦ absurd (remapped (ap dune.va_to_pa e))
        | Tracks.an_alias picked' r ↦
            stayed-Tracked lay sys t x picked usable
              (after_ok
                (realloc-Reallocated lay sys spans some_room x picked' size some_size d t.session
                  t.depth t.dedicated mmap remapped usable x.ptr h' given served.not_null enough
                  served.backed)
                run)
              r fits
      ]
  Step-Tracked {d}
        (realloced x size p out h' picked
          (an_alias mmap remapped)
          usable
          some_size
          given
          served
          enough
          grown
          run)
        t =
      elim (Picked-Tracks t.held picked) [
        | Tracks.no_alias e r ↦ absurd (remapped (ap dune.va_to_pa e))
        | Tracks.an_alias picked' r ↦
            replaced-Tracked lay sys t x picked usable
              (after_ok
                (realloc-Reallocated lay sys spans some_room x picked' size some_size d t.session
                  t.depth t.dedicated mmap remapped usable p h' given served.not_null enough
                  served.backed)
                run)
              r (grown (λ e. remapped (ap dune.va_to_pa e)))
      ]
  Step-Tracked {d}
        (realloced x size p out h' picked
          (a_block e plain)
          usable
          some_size
          given
          served
          enough
          grown
          run)
        t =
      Tracked-Handed
        (after_ok
          (realloc-IsPlain lay sys d t.session t.depth x.out plain spans some_room t.dedicated size
            p h' some_size served.not_null (ap (λ q. sys.sysrealloc q size d.heap) e ∙ given)
            served.backed)
          run)
        (Tracks-rest t.held picked) (block e t.gone)
