-- ===== src/Invalidate.antt =====
-- virtual_invalidate of sources/src/dangless_malloc.c: the pages of a freed alias are marked in
-- their level-1 entries, whole runs of neighbouring entries of one table at a time.
pub mod Near
pub mod Chunk
pub mod Loop
pub mod Revoke
use dangless_malloc.Prelude.{
  ℕ, zero, suc, ◌+◌, ◌-◌, ◌*◌, ◌==◌, Bool, true, false, ltb, if◌then◌else◌, add64, mul64, ok, fault,
  Cmd, pure, assert, ◌>>=◌, ◌>>◌,
}
use dangless_malloc.Page.{pgsize, round_down, pg_offset}
use dangless_malloc.Dune.{Dune, Machine}
use dangless_malloc.VirtMem.{
  flag_isset, pte_v, pte_invalidated, pt_num_entries, pt_level_offset, walk_cmd, load_pte,
  write_pte, tlb_flush_one,
}

-- `MIN(A, B)`
abbrev pub min_of : ℕ → ℕ → ℕ
min_of a b = if ltb a b then a else b

-- `virtual_invalidate_pte`
unfoldable pub virtual_invalidate_pte : ℕ → Cmd Machine (Unit {0})
unfolding write_pte
virtual_invalidate_pte ppte = write_pte ppte pte_invalidated

-- The inner loop, `count` entries from number `pte_offset` on.
unfoldable pub invalidate_ptes : ℕ → ℕ → ℕ → ℕ → Cmd Machine (Unit {0})
unfolding virtual_invalidate_pte tlb_flush_one
invalidate_ptes zero ppte ppage pte_offset = pure tt
invalidate_ptes (suc count) ppte ppage pte_offset = do
  virtual_invalidate_pte (add64 ppte (8 * pte_offset))
  tlb_flush_one (pg_offset ppage pte_offset)
  invalidate_ptes count ppte ppage (pte_offset + 1)

module _ (dune : Dune) where
  -- One round of the outer loop: `nptes`, the number of pages done.
  unfoldable pub invalidate_chunk : ℕ → ℕ → ℕ → Cmd Machine ℕ
  invalidate_chunk p npages page_offset = do
    (level, ppte) ← walk_cmd dune (pg_offset p page_offset) 1
    assert (level == 1)
    pte ← load_pte dune ppte
    assert (flag_isset pte pte_v)
    invalidate_ptes
        (min_of (pt_num_entries - pt_level_offset (pg_offset p page_offset) 1)
          (npages - page_offset))
        ppte (pg_offset p page_offset) 0
    pure (
        min_of (pt_num_entries - pt_level_offset (pg_offset p page_offset) 1)
          (npages - page_offset))

  -- The outer loop. Each round does a page at least, so `npages` rounds of fuel are enough.
  unfoldable pub invalidate_pages : ℕ → ℕ → ℕ → ℕ → Cmd Machine (Unit {0})
  invalidate_pages zero p npages page_offset =
      if ltb page_offset npages then (λ m. fault) else pure tt
  invalidate_pages (suc fuel) p npages page_offset = elim (ltb page_offset npages) [
    | false ↦ pure tt
    | true ↦ do
      nptes ← invalidate_chunk p npages page_offset
      invalidate_pages fuel p npages (page_offset + nptes)
  ]

  -- `virtual_invalidate`
  unfoldable pub virtual_invalidate : ℕ → ℕ → Cmd Machine (Unit {0})
  virtual_invalidate p npages = invalidate_pages npages (round_down p pgsize) npages 0
