-- ===== src/Hooks/Client.antt =====
-- A program that calls the hooks, one call after another, and the ledger of what it was given.
pub mod Tracks
pub mod Served
pub mod Safety
use dangless_malloc.Prelude.{ℕ, ◌≤◌, ◌<◌, ◌≡◌, ◌≢◌, Bool, true, pos, some, List, [], ◌∷◌, ok, mul64}
use dangless_malloc.Page.{num_spanned_pages}
use dangless_malloc.Dune.{Dune}
use dangless_malloc.VirtualRemap.{Process}
use dangless_malloc.VirtualRemap.Alias.{IsBacked}
use dangless_malloc.VirtualRemap.Original.{IsMmap}
use dangless_malloc.VirtualRemap.Session.{Alias, npages_of, Picked, Session}
use dangless_malloc.SysMalloc.{SysMalloc}
use dangless_malloc.Hooks.{SpanMemory, Dangless, malloc, calloc, posix_memalign, free}
use dangless_malloc.Hooks.Realloc.{realloc}
use dangless_malloc.Hooks.Resolve.{IsPlain}

-- The blocks that the program holds, each with the address that it was given, and those that it has
-- freed. Where no alias could be made, the address is that of the block.
pub record Ledger : Type 0 where
  pub held : List Alias
  pub freed : List Alias

-- What tells vremap_resolve an alias, whose memory mmap() gave out, from the block itself.
pub data Recognised (dune : Dune) (s : Process) (x : Alias) : Type 0 where
  an_alias : IsMmap dune x.ptr → dune.va_to_pa x.out ≢ dune.va_to_pa x.ptr → Recognised dune s x
  a_block : x.out ≡ x.ptr → IsPlain dune s x.out → Recognised dune s x

module _ (dune : Dune) {H : Type 0} (sys : SysMalloc H) where
  -- The block `p` that the system allocator has just given out has its usable bytes at physical
  -- addresses that vremap_map can use.
  pub record IsServed (p : ℕ) (h' : H) : Type 0 where
    pub not_null : p ≢ 0
    pub backed : IsBacked dune p (sys.sysmalloc_usable_size h' p)

  abbrev pub entry : ℕ → ℕ → H → Alias
  entry p out h' = record { ptr = p; out = out; size = sys.sysmalloc_usable_size h' p }

  -- A call of a hook that the system allocator serves, from one state and ledger to the next.
  pub data Step (spans : SpanMemory H) (d d' : Dangless H) : Ledger → Ledger → Type 0 where
    malloced :
        {l : Ledger} (size p out : ℕ) (h' : H)
        → size ≢ 0
        → sys.sysmalloc size d.heap ≡ ok p h'
        → IsServed p h'
        → malloc dune sys spans size d ≡ ok out d'
        → Step spans d d' l (record { held = entry p out h' ∷ l.held; freed = l.freed })
    calloced :
        {l : Ledger} (num size p out : ℕ) (h' : H)
        → mul64 num size ≢ 0
        → sys.syscalloc num size d.heap ≡ ok p h'
        → IsServed p h'
        → calloc dune sys spans num size d ≡ ok out d'
        → Step spans d d' l (record { held = entry p out h' ∷ l.held; freed = l.freed })
    memaligned :
        {l : Ledger} (old align size p out : ℕ) (h' : H)
        → size ≢ 0
        → sys.sysmemalign old align size d.heap ≡ ok (pos 0, some p) h'
        → IsServed p h'
        → posix_memalign dune sys spans old align size d ≡ ok (pos 0, out) d'
        → Step spans d d' l (record { held = entry p out h' ∷ l.held; freed = l.freed })
    freed :
        {l : Ledger} {rest : List Alias} (x : Alias) (h' : H)
        → Picked x l.held rest
        → Recognised dune d.process x
        → sys.sysmalloc_usable_size d.heap x.ptr ≡ x.size
        → sys.sysfree x.ptr d.heap ≡ ok tt h'
        → free dune sys x.out d ≡ ok tt d'
        → Step spans d d' l (record { held = rest; freed = x ∷ l.freed })
    realloced_null :
        {l : Ledger} (size p out : ℕ) (h' : H)
        → size ≢ 0
        → sys.sysrealloc 0 size d.heap ≡ ok p h'
        → IsServed p h'
        → realloc dune sys spans 0 size d ≡ ok out d'
        → Step spans d d' l (record { held = entry p out h' ∷ l.held; freed = l.freed })
    -- The block keeps its place and needs no more pages: its alias stays.
    realloced_in_place :
        {l : Ledger} {rest : List Alias} (x : Alias) (size out : ℕ) (h' : H)
        → Picked x l.held rest
        → IsMmap dune x.ptr
        → dune.va_to_pa x.out ≢ dune.va_to_pa x.ptr
        → sys.sysmalloc_usable_size d.heap x.ptr ≡ x.size
        → size ≢ 0
        → sys.sysrealloc x.ptr size d.heap ≡ ok x.ptr h'
        → IsServed x.ptr h'
        → size ≤ sys.sysmalloc_usable_size h' x.ptr
        → num_spanned_pages x.ptr (sys.sysmalloc_usable_size h' x.ptr) ≤ npages_of x
        → realloc dune sys spans x.out size d ≡ ok out d'
        → Step spans d d' l (record { held = entry x.ptr out h' ∷ rest; freed = l.freed })
    -- The block has moved or grown, or had no alias: the old address is no longer the program's.
    realloced :
        {l : Ledger} {rest : List Alias} (x : Alias) (size p out : ℕ) (h' : H)
        → Picked x l.held rest
        → Recognised dune d.process x
        → sys.sysmalloc_usable_size d.heap x.ptr ≡ x.size
        → size ≢ 0
        → sys.sysrealloc x.ptr size d.heap ≡ ok p h'
        → IsServed p h'
        → size ≤ sys.sysmalloc_usable_size h' p
        → (x.out ≢ x.ptr
            → p ≡ x.ptr
            → npages_of x < num_spanned_pages p (sys.sysmalloc_usable_size h' p))
        → realloc dune sys spans x.out size d ≡ ok out d'
        → Step spans d d' l (record { held = entry p out h' ∷ rest; freed = x ∷ l.freed })

  -- The calls of the program since the virtual memory was dedicated.
  pub data Trace (spans : SpanMemory H) : Dangless H → Ledger → Type 0 where
    started :
        {d : Dangless H}
        → Session dune d.process [] []
        → d.hook_depth ≡ 0
        → d.auto_dedicate_happened ≡ true
        → Trace spans d (record { held = []; freed = [] })
    called :
        {d d' : Dangless H} {l l' : Ledger}
        → Trace spans d l
        → Step spans d d' l l'
        → Trace spans d' l'
