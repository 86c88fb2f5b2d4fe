-- ===== src/Rumprun/Ledger.antt =====
-- pp_alloc and pp_free on rumprun: no page is handed out twice.
use dangless_malloc.Prelude.{
  ℕ, ◌+◌, ◌*◌, ◌/◌, ◌%◌, ◌^◌, ◌≤◌, ◌<◌, ◌≡◌, ◌≢◌, refl, ◌⊎◌, inl, inr, Bool, true, false, none,
  some, ◌∷◌, ltb, if◌then◌else◌, ok, arith, Bool-cases, ne→==, eq→==, After, returns,
}
use native.Mathlib.Decide.{ℕ_discrete}
use dangless_malloc.Page.{pgsize}
use dangless_malloc.Rumprun.{
  PpSpan, Physmem, Bmk, bmk_pgalloc_npages, pa2ppindex, ppindex2pa, add32, add_block,
  physmem_acquire, take_acquired, find_pages, rumprun_pp_alloc,
}
use dangless_malloc.Rumprun.Pages.{AllSpans, AllShort, Taken, advance-Taken, take_from-Taken}

-- What the comments say of rumprun: a block is 2 MB at a multiple of its size in the first 4 GB, which
-- are mapped at their own addresses by pages of 2 MB.
pub record IsBmk (bmk : Bmk) : Type 0 where
  pub aligned : (n : ℕ) → bmk.block n % 2 ^ 21 ≡ 0
  pub low : (n : ℕ) → bmk.block n + 2 ^ 21 ≤ 2 ^ 32
  pub flat : (n : ℕ) → bmk.block n ≢ 0 → bmk.resolve (bmk.block n) ≡ some (bmk.block n, 2)

-- The pages that a call of pp_alloc has to choose from: those of the list, and, where no span has
-- `npages` pages, those of the next block.
abbrev pub block_index : Bmk → Physmem → ℕ
block_index bmk s = bmk.block s.calls / pgsize

-- What pp_alloc promises.
pub data PpAllocated (bmk : Bmk) (room : Bool) (s : Physmem) (npages : ℕ)
    : ℕ → Physmem → Type 0 where
  from_span :
      {s' : Physmem} (i : ℕ)
      → Taken npages i s.freelist s'.freelist
      → s'.calls ≡ s.calls
      → PpAllocated bmk room s npages (i * pgsize) s'
  from_block :
      {s' : Physmem}
      → AllShort npages s.freelist
      → bmk.block s.calls ≢ 0
      → Taken npages
          (block_index bmk s)
          (record { begin = block_index bmk s; end = block_index bmk s + 512 } ∷ s.freelist)
          s'.freelist
      → s'.calls ≡ s.calls + 1
      → PpAllocated bmk room s npages (block_index bmk s * pgsize) s'
  failed :
      {s' : Physmem}
      → AllShort npages s.freelist
      → (bmk.block s.calls ≡ 0) ⊎ (room ≡ false)
      → s'.freelist ≡ s.freelist
      → s'.calls ≡ s.calls + 1
      → PpAllocated bmk room s npages 0 s'

module _ {bmk : Bmk} (is_bmk : IsBmk bmk) (room : Bool) where
  block_begin : (n : ℕ) → pa2ppindex (bmk.block n) ≡ bmk.block n / pgsize
  unfolding pa2ppindex
  block_begin n = omega (arith, is_bmk.low n)

  block_end : (n : ℕ) → add32 (bmk.block n / pgsize) bmk_pgalloc_npages ≡ bmk.block n / pgsize + 512
  block_end n = omega (arith, is_bmk.low n)

  positive : (n : ℕ) → bmk.block n ≢ 0 → ltb 0 (bmk.block n) ≡ true
  positive n got = ground (arith, got)

  small_index : (i n : ℕ) → 0 < n → i + n ≤ 2 ^ 20 → ppindex2pa i ≡ i * pgsize
  unfolding ppindex2pa
  small_index i n some_pages fits = omega arith

  -- The span of a block.
  abbrev block_span : ℕ → PpSpan
  block_span n = record { begin = bmk.block n / pgsize; end = bmk.block n / pgsize + 512 }

  add_block-run :
      (s : Physmem) (n : ℕ)
      → bmk.block n ≢ 0
      → add_block bmk room (bmk.block n) s ≡ (
          if room
          then ok (some (block_span n)) (record s { freelist = block_span n ∷ s.freelist })
          else ok none (record s { given_back = bmk.block n ∷ s.given_back }))
  unfolding add_block
  add_block-run s n got = elim (Bool-cases room) [
    | inl memory ↦
        rw (is_bmk.flat n got, add_block)
          (rw (positive n got, memory) (rw (block_begin n) (rw (block_end n) refl)))
    | inr full ↦ rw (is_bmk.flat n got, add_block) (rw (positive n got, full) refl)
  ]

  find_pages-PpAllocated :
      (s : Physmem) (npages : ℕ)
      → AllSpans s.freelist
      → 0 < npages
      → npages < 512
      → After (λ pa s'. PpAllocated bmk room s npages pa s') (find_pages bmk room npages s)
  unfolding find_pages physmem_acquire take_acquired
  find_pages-PpAllocated s npages valid some_pages few =
      elim (take_from-Taken npages s.freelist some_pages valid) [
        | inr (i, spans', found, t) ↦
            rw (found, find_pages)
              (rw (small_index i npages some_pages t.fits) (returns (from_span i t refl)))
        | inl (nowhere, short) ↦ elim (ℕ_discrete (bmk.block s.calls) 0) [
          | yes null ↦
              rw (nowhere, find_pages)
                (rw (eq→== _ _ null) (returns (failed short (inl null) refl refl)))
          | no got ↦ elim (Bool-cases room) [
            | inr full ↦
                rw (nowhere, find_pages)
                  (rw (ne→== _ _ got) (
                    rw (add_block-run (record s { calls = s.calls + 1 }) s.calls got, find_pages)
                      (rw full (returns (failed short (inr refl) refl refl)))))
            | inl memory ↦
                rw (nowhere, find_pages)
                  (rw (ne→== _ _ got) (
                    rw (add_block-run (record s { calls = s.calls + 1 }) s.calls got, find_pages)
                      (rw memory (
                        rw
                          (small_index (block_index bmk s) npages some_pages
                            (omega (arith, is_bmk.low s.calls)))
                          (returns (
                            from_block short got
                              (advance-Taken npages (block_span s.calls) s.freelist some_pages
                                (
                                  omega (arith, is_bmk.low s.calls),
                                  omega (arith, is_bmk.low s.calls),
                                )
                                valid (omega arith))
                              refl))))))
          ]
        ]
      ]

  -- Where blocks of rumprun are 2 MB at a multiple of that below 4 GB, mapped at their own
  -- addresses by pages of 2 MB, and every span of the free list has a page and ends at or
  -- below 4 GB: pp_alloc of more than 0 and fewer than 512 pages returns. Either it gives
  -- pages of the free list; or no span has so many pages, and it gives the first pages of the
  -- next block, the others of which are added to the list; or no span has so many pages, and
  -- rumprun has no block or MALLOC no memory, and it gives 0 and leaves the list as it is.
  -- Pages given are no longer counted in the list, all other pages are counted as often as
  -- before, the spans left each have a page, and no block is asked for in the first case.
  pub rumprun_pp_alloc-PpAllocated :
      (s : Physmem) (npages : ℕ)
      → AllSpans s.freelist
      → 0 < npages
      → npages < 512
      → After (λ pa s'. PpAllocated bmk room s npages pa s') (rumprun_pp_alloc bmk room npages s)
  unfolding rumprun_pp_alloc
  rumprun_pp_alloc-PpAllocated s npages valid some_pages few =
      let allowed : ltb npages bmk_pgalloc_npages ≡ true = ground (arith, few) in
      rw (allowed, rumprun_pp_alloc) (find_pages-PpAllocated s npages valid some_pages few)
