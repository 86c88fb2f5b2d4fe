-- ===== src/Rumprun/Disjoint.antt =====
-- Any sequence of calls of pp_alloc and pp_free on rumprun: no page is handed out twice.
use dangless_malloc.Prelude.{
  ℕ, ◌+◌, ◌*◌, ◌/◌, ◌%◌, ◌^◌, ◌≤◌, ◌<◌, ◌≡◌, ◌≢◌, refl, Bool, true, List, ◌∷◌, ltb, ok, arith,
  After, returns, after_ok,
}
use dangless_malloc.Page.{pgsize}
use dangless_malloc.Rumprun.{
  PpSpan, Physmem, Bmk, bmk_pgalloc_npages, pa2ppindex, add32, rumprun_pp_alloc, rumprun_pp_free,
}
use dangless_malloc.Rumprun.Pages.{within, tally, AllSpans}
use dangless_malloc.Rumprun.Ledger.{
  IsBmk, block_index, PpAllocated, from_span, from_block, failed, rumprun_pp_alloc-PpAllocated,
}

-- The allocator, and the spans that its clients hold.
pub record Pool : Type 0 where
  pub physmem : Physmem
  pub held : List PpSpan

-- What pp_alloc relies on of rumprun: the block that is next holds no page in use here.
abbrev pub IsFresh : Bmk → Pool → Type 0
IsFresh bmk pool =
    (k : ℕ)
    → block_index bmk pool.physmem ≤ k
    → k < block_index bmk pool.physmem + 512
    → tally pool.physmem.freelist k + tally pool.held k ≡ 0

-- A call. What is freed may be a part of what was allocated, or of several allocations side by side.
pub data Step (bmk : Bmk) : Pool → Pool → Type 0 where
  allocated :
      {pool : Pool} {s' : Physmem} {pa : ℕ} (room : Bool) (npages : ℕ)
      → 0 < npages
      → npages < 512
      → IsFresh bmk pool
      → rumprun_pp_alloc bmk room npages pool.physmem ≡ ok pa s'
      → pa ≢ 0
      → Step bmk pool (record {
        physmem = s';
        held = record { begin = pa / pgsize; end = pa / pgsize + npages } ∷ pool.held;
      })
  refused :
      {pool : Pool} {s' : Physmem} (room : Bool) (npages : ℕ)
      → 0 < npages
      → npages < 512
      → IsFresh bmk pool
      → rumprun_pp_alloc bmk room npages pool.physmem ≡ ok 0 s'
      → Step bmk pool (record { physmem = s'; held = pool.held })
  freed :
      {pool : Pool} {s' : Physmem} {held' : List PpSpan} (i npages : ℕ)
      → 0 < npages
      → npages < 512
      → i + npages ≤ 2 ^ 20
      → ((k : ℕ) → tally pool.held k ≡ tally held' k + within i (i + npages) k)
      → rumprun_pp_free true (i * pgsize) npages pool.physmem ≡ ok tt s'
      → Step bmk pool (record { physmem = s'; held = held' })

pub data Reach (bmk : Bmk) (pool : Pool) : Pool → Type 0 where
  start : Reach bmk pool pool
  step :
      {pool' pool'' : Pool} → Reach bmk pool pool' → Step bmk pool' pool'' → Reach bmk pool pool''

-- Every page is free once at most, or held once at most, and not both.
pub record IsDisjoint (pool : Pool) : Type 0 where
  pub valid : AllSpans pool.physmem.freelist
  pub once : (k : ℕ) → tally pool.physmem.freelist k + tally pool.held k ≤ 1

moved_once : (f f' h w : ℕ) → f ≡ f' + w → f + h ≤ 1 → f' + (w + h) ≤ 1
moved_once f f' h w e h' = omega arith

freed_once : (f h h' w : ℕ) → h ≡ h' + w → f + h ≤ 1 → w + f + h' ≤ 1
freed_once f h h' w e once = omega arith

rumprun_pp_free-freelist :
    (s : Physmem) (i npages : ℕ)
    → 0 < npages
    → npages < 512
    → i + npages ≤ 2 ^ 20
    → After
        (λ _ s'. s'.freelist ≡ record { begin = i; end = i + npages } ∷ s.freelist)
        (rumprun_pp_free true (i * pgsize) npages s)
unfolding rumprun_pp_free pa2ppindex
rumprun_pp_free-freelist s i npages some_pages few fits =
    let aligned : i * pgsize % pgsize ≡ 0 = omega arith in
    let index : i * pgsize / pgsize % 2 ^ 32 ≡ i = omega arith in
    let sum : add32 i npages ≡ i + npages = omega arith in
    let positive : ltb 0 npages ≡ true = ground (arith, some_pages) in
    let below : ltb npages bmk_pgalloc_npages ≡ true = ground (arith, few) in
    rw (aligned, rumprun_pp_free) (rw (positive, below) (returns (rw index (rw sum refl))))

module _ {bmk : Bmk} (is_bmk : IsBmk bmk) {pool : Pool} (h : IsDisjoint pool) where
  -- A block that nothing uses counts no page twice.
  block_once :
      IsFresh bmk pool
      → (k : ℕ)
      → within (block_index bmk pool.physmem) (block_index bmk pool.physmem + 512) k
          + tally pool.physmem.freelist k
          + tally pool.held k
        ≤ 1
  block_once fresh k = ground (arith, fresh k, h.once k)

  -- The pages that pp_alloc gives were free and are not any more.
  PpAllocated-IsDisjoint :
      {room : Bool} {npages pa : ℕ} {s' : Physmem}
      → IsFresh bmk pool
      → PpAllocated bmk room pool.physmem npages pa s'
      → AllSpans s'.freelist
        × ((k : ℕ) → tally s'.freelist k + tally pool.held k ≤ 1)
        × (pa ≢ 0
            → (k : ℕ)
            → tally s'.freelist k
                + (within (pa / pgsize) (pa / pgsize + npages) k + tally pool.held k)
              ≤ 1)
  PpAllocated-IsDisjoint {npages = npages} {s' = s'} fresh (from_span i t same) = (
    t.valid,
    λ k. omega (arith, t.moved k, h.once k),
    λ _ k.
        let number : i * pgsize / pgsize ≡ i = omega arith in
        rw number (moved_once _ _ _ _ (t.moved k) (h.once k)),
  )
  PpAllocated-IsDisjoint {npages = npages} {s' = s'} fresh (from_block short got t one) = (
    t.valid,
    λ k. omega (arith, t.moved k, block_once fresh k),
    λ _ k.
        let b = block_index bmk pool.physmem in
        let number : b * pgsize / pgsize ≡ b = omega arith in
        rw number (moved_once _ _ _ _ (t.moved k) (block_once fresh k)),
  )
  PpAllocated-IsDisjoint fresh (failed short why same one) =
      (rw same h.valid, λ k. rw same (h.once k), λ some_page. absurd (some_page refl))

  Step-IsDisjoint : {pool' : Pool} → Step bmk pool pool' → IsDisjoint pool'
  Step-IsDisjoint (allocated room npages some_pages few fresh run some_page) =
      let (valid, _, once) = PpAllocated-IsDisjoint fresh (
        after_ok
          (rumprun_pp_alloc-PpAllocated is_bmk room pool.physmem npages h.valid some_pages few)
          run) in
      record { valid = valid; once = once some_page }
  Step-IsDisjoint (refused room npages some_pages few fresh run) =
      let (valid, once, _) = PpAllocated-IsDisjoint fresh (
        after_ok
          (rumprun_pp_alloc-PpAllocated is_bmk room pool.physmem npages h.valid some_pages few)
          run) in
      record { valid = valid; once = once }
  Step-IsDisjoint (freed {held' = held'} i npages some_pages few fits left run) =
      let list =
        after_ok (rumprun_pp_free-freelist pool.physmem i npages some_pages few fits) run in
      record {
        valid = rw list ((omega arith, fits), h.valid);
        once = λ k. rw list (freed_once _ _ _ _ (left k) (h.once k));
      }

-- With such blocks, for any sequence of calls of pp_alloc and pp_free with more than 0 and
-- fewer than 512 pages, where the block that rumprun would give next holds no page that is
-- free or held here, where only held pages are freed, and where pp_free has memory for a span:
-- a page that is free or held at the end is so once, never both free and held or held twice,
-- if that was so at the start.
pub Reach-IsDisjoint :
    (bmk : Bmk)
    → IsBmk bmk
    → {pool pool' : Pool} → IsDisjoint pool
    → Reach bmk pool pool'
    → IsDisjoint pool'
Reach-IsDisjoint bmk is_bmk h start = h
Reach-IsDisjoint bmk is_bmk h (step before s) =
    Step-IsDisjoint is_bmk (Reach-IsDisjoint bmk is_bmk h before) s
