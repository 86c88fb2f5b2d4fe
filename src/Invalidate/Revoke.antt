-- ===== src/Invalidate/Revoke.antt =====
-- What virtual_invalidate promises about the translations of addresses.
use dangless_malloc.Prelude.{
  ℕ, ◌+◌, ◌*◌, ◌^◌, ◌≤◌, ◌<◌, ◌≡◌, refl, sym, ◌∙◌, false, arith, some, ok,
}
use dangless_malloc.Page.{pgsize, page_base, round_down}
use dangless_malloc.Dune.{Dune, Machine}
use dangless_malloc.VirtMem.{flag_isset, pte_v, pte_invalidated, pt_walk, pt_resolve_page}
use dangless_malloc.VirtMem.Entries.{region, region_add}
use dangless_malloc.VirtMem.Tree.{IsLayout, Sites, IsTree}
use dangless_malloc.VirtMem.Leaf.{pt_resolve_page-leaf}
use dangless_malloc.VirtMem.Region.{InPage, IsMapped}
use dangless_malloc.VirtualRemap.Ready.{resolve_alike}
use dangless_malloc.Invalidate.{virtual_invalidate}
use dangless_malloc.Invalidate.Chunk.{Invalidated}
use dangless_malloc.Invalidate.Loop.{mapped_walk, Invalidated-others, invalidate_pages-Invalidated}

-- From `m` to `m'`, the `n` pages from `p` on have lost their translation: the walk for any address
-- in them ends at an entry with the marker.
pub record Revoked (dune : Dune) (site : Sites) (m m' : Machine) (p n : ℕ) : Type 0 where
  pub tree : IsTree dune site m'
  pub marked :
      (va k : ℕ)
      → k < n
      → InPage p k va
      → (e : ℕ) × (pt_walk dune m' va 1 ≡ some (1, e)) × (m'.mem e ≡ pte_invalidated)
  pub gone : (va k : ℕ) → k < n → InPage p k va → pt_resolve_page dune m' va ≡ some (0, 0)
  pub others :
      (va : ℕ)
      → ((k : ℕ) → k < n → ¬ InPage p k va)
      → pt_resolve_page dune m' va ≡ pt_resolve_page dune m va

-- The STATIC_ASSERT of virtmem.h on the marker.
pub invalidated_absent : flag_isset pte_invalidated pte_v ≡ false
unfolding flag_isset
invalidated_absent = refl

module _ {dune : Dune} (lay : IsLayout dune) {site : Sites} (p npages : ℕ)
    (fits : page_base p + npages * pgsize ≤ 2 ^ 48) where
  revoked_marked :
      (m m' : Machine) (va k : ℕ)
      → IsTree dune site m
      → Invalidated dune site m m' (page_base p) 0 npages
      → ((k : ℕ) → k < npages → IsMapped dune m ((page_base p) + k * pgsize))
      → k < npages
      → InPage (page_base p) k va
      → (e : ℕ) × (pt_walk dune m' va 1 ≡ some (1, e)) × (m'.mem e ≡ pte_invalidated)
  revoked_marked m m' va k tree inv mapped h inside =
      let (pa, there) = mapped k h in
      let alike : region va 0 ≡ region ((page_base p) + k * pgsize) 0 =
        inside ∙ sym (region_add (page_base p) k (omega arith) (omega arith)) in
      let (e, walked, valid) =
        mapped_walk lay (page_base p) npages (omega arith) (omega arith) m va tree
          (pa, resolve_alike lay tree ((page_base p) + k * pgsize) va alike ∙ there) in
      (e, inv.walks va ∙ walked, inv.marked va k e (omega arith) h inside walked)

  -- With the layout that platform/dune assumes and well-formed page tables, for npages pages
  -- from that of p on which end at or below 2^48 and are mapped at level 1: virtual_invalidate
  -- ends without a failed assertion, npages rounds of its loop being enough; the tables are
  -- well-formed, the walk for each address in these pages ends at level 1 at an entry that is
  -- PTE_INVALIDATED, no such address is translated, and all other addresses are translated as
  -- before.
  pub virtual_invalidate-Revoked :
      (m : Machine)
      → IsTree dune site m
      → ((k : ℕ) → k < npages → IsMapped dune m (page_base p + k * pgsize))
      → (m' : Machine) × (virtual_invalidate dune p npages m ≡ ok tt m')
        × Revoked dune site m m' (page_base p) npages
  unfolding virtual_invalidate round_down
  virtual_invalidate-Revoked m tree mapped =
      let (m', run, inv) =
        invalidate_pages-Invalidated lay (page_base p) npages (omega arith) (omega arith) npages 0 m
          (omega arith) (omega arith) tree (λ k low high. mapped k high) in
      (
        m',
        run,
        record {
          tree = inv.tree;
          marked = λ va k h inside. revoked_marked m m' va k tree inv mapped h inside;
          gone = λ va k h inside.
              let (e, walked, mark) = revoked_marked m m' va k tree inv mapped h inside in
              pt_resolve_page-leaf dune m' va e walked ∙ (rw (mark, invalidated_absent) refl);
          others = λ va out. Invalidated-others lay va tree inv (λ k low high. out k high);
        },
      )
