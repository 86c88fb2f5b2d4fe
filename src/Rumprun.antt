-- ===== src/Rumprun.antt =====
-- The page allocator on rumprun, sources/src/platform/rumprun/physmem_alloc.c, and mem.c beside it:
-- spans of free 4K pages, cut from 2 MB pages that rumprun's own allocator gives.
--
-- A page index is a uint32_t. PGSIZE is an enumeration constant, so an int, and the product of an index
-- and PGSIZE is taken in 32 bits. rumprun is a parameter: `block n` is what the n-th call of
-- bmk_pgalloc_align returns, 0 for NULL. `resolve` is what pt_resolve_page returns and stores for an
-- address, none where it stops the program; `room` is whether MALLOC has memory for a span.
pub mod Pages
pub mod Ledger
pub mod Disjoint
pub mod Tests
use dangless_malloc.Prelude.{
  ℕ, ◌+◌, ◌-◌, ◌*◌, ◌/◌, ◌%◌, ◌^◌, Bool, Option, none, some, List, [], ◌∷◌, ltb, leb, ◌==◌,
  if◌then◌else◌, Run, ok, fault, Cmd, pure, assert, ◌>>=◌, ◌>>◌,
}
use dangless_malloc.Page.{pgsize}
use dangless_malloc.Dune.{cleared}

abbrev pub bmk_pgalloc_npages : ℕ
bmk_pgalloc_npages = 512

-- `pt_paddr2vaddr`: all physical memory is mapped at its own address.
unfoldable pub flat_paddr2vaddr : ℕ → ℕ
flat_paddr2vaddr pa = pa

unfoldable pub pa2ppindex : ℕ → ℕ
pa2ppindex pa = pa / pgsize % 2 ^ 32

unfoldable pub ppindex2pa : ℕ → ℕ
ppindex2pa i = i * pgsize % 2 ^ 32

-- Sum and difference of two uint32_t.
abbrev pub add32 : ℕ → ℕ → ℕ
add32 a b = (a + b) % 2 ^ 32

abbrev pub sub32 : ℕ → ℕ → ℕ
sub32 a b = (a + 2 ^ 32 - b) % 2 ^ 32

pub record PpSpan : Type 0 where
  pub begin : ℕ
  pub end : ℕ

-- The list of free spans, the calls of bmk_pgalloc_align so far, the blocks given back, and memory.
pub record Physmem : Type 0 where
  pub freelist : List PpSpan
  pub calls : ℕ
  pub given_back : List ℕ
  pub mem : ℕ → ℕ

pub record Bmk : Type 0 where
  pub block : ℕ → ℕ
  pub resolve : ℕ → Option (ℕ × ℕ)

-- The span that starts behind the pages that were taken, unless it is empty.
unfoldable pub advance : ℕ → PpSpan → List PpSpan → List PpSpan
advance npages ps rest =
    if add32 ps.begin npages == ps.end
    then rest
    else record { begin = add32 ps.begin npages; end = ps.end } ∷ rest

-- The search of `pp_alloc`, and taking the pages from the span found: the index of the first, and
-- the list.
unfoldable pub take_from : ℕ → List PpSpan → Option (ℕ × List PpSpan)
unfolding advance
take_from npages [] = none
take_from npages (ps ∷ rest) =
    if leb npages (sub32 ps.end ps.begin)
    then some (ps.begin, advance npages ps rest)
    else elim (take_from npages rest) [ none ↦ none | some (i, spans) ↦ some (i, ps ∷ spans) ]

-- LIST_INSERT_HEAD of a span, and bmk_pgfree.
abbrev pub push_span : PpSpan → Cmd Physmem (Option PpSpan)
push_span ps s = ok (some ps) (record s { freelist = ps ∷ s.freelist })

abbrev pub give_back : ℕ → Cmd Physmem (Option PpSpan)
give_back p s = ok none (record s { given_back = p ∷ s.given_back })

-- `pp_alloc` on a span that was just acquired, which is the first of the list.
unfoldable pub take_acquired : ℕ → Option PpSpan → Cmd Physmem ℕ
take_acquired npages none s = ok 0 s
take_acquired npages (some ps) s = elim s.freelist [
  | [] ↦ fault
  | first ∷ rest ↦ ok (ppindex2pa first.begin) (record s { freelist = advance npages first rest })
]

module _ (bmk : Bmk) where
  -- The end of `physmem_acquire` for the block `p`.
  unfoldable pub add_block : Bool → ℕ → Cmd Physmem (Option PpSpan)
  add_block room p = elim (bmk.resolve p) [
    | none ↦ λ s. fault
    | some (pa, level) ↦ do
      assert (ltb 0 pa)
      assert (level == 2)
      (if room
          then push_span
              (record { begin = pa2ppindex pa; end = add32 (pa2ppindex pa) bmk_pgalloc_npages })
          else give_back p)
  ]

  -- `physmem_acquire`
  unfoldable pub physmem_acquire : Bool → Cmd Physmem (Option PpSpan)
  unfolding add_block
  physmem_acquire room s =
      if bmk.block s.calls == 0
      then ok none (record s { calls = s.calls + 1 })
      else add_block room (bmk.block s.calls) (record s { calls = s.calls + 1 })

  -- `pp_alloc` behind its assertion.
  unfoldable pub find_pages : Bool → ℕ → Cmd Physmem ℕ
  unfolding take_from physmem_acquire take_acquired
  find_pages room npages s = elim (take_from npages s.freelist) [
    | some (i, spans) ↦ ok (ppindex2pa i) (record s { freelist = spans })
    | none ↦ (do ps ← physmem_acquire room; take_acquired npages ps) s
  ]

  -- `pp_alloc`
  unfoldable pub rumprun_pp_alloc : Bool → ℕ → Cmd Physmem ℕ
  unfolding find_pages
  rumprun_pp_alloc room npages = do assert (ltb npages bmk_pgalloc_npages); find_pages room npages

  -- `pp_zalloc`
  unfoldable pub rumprun_pp_zalloc : Bool → ℕ → Cmd Physmem ℕ
  unfolding rumprun_pp_alloc cleared
  rumprun_pp_zalloc room npages = do
    pa ← rumprun_pp_alloc room npages
    λ s. if pa == 0 then ok 0 s else ok pa (record s { mem = cleared pa npages s.mem })

-- `pp_free`
unfoldable pub rumprun_pp_free : Bool → ℕ → ℕ → Cmd Physmem (Unit {0})
rumprun_pp_free room pa npages = do
  assert (pa % pgsize == 0)
  assert (ltb 0 npages)
  assert (ltb npages bmk_pgalloc_npages)
  assert room
  λ s. ok tt (record s {
    freelist = record { begin = pa2ppindex pa; end = add32 (pa2ppindex pa) npages } ∷ s.freelist;
  })
