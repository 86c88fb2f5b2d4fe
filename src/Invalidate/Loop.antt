-- ===== src/Invalidate/Loop.antt =====
-- virtual_invalidate as a whole: it ends, and no page of the alias has a translation any more.
use dangless_malloc.Prelude.{
  ℕ, zero, suc, ◌+◌, ◌-◌, ◌*◌, ◌%◌, ◌^◌, ◌≤◌, ◌<◌, ◌≡◌, refl, sym, ap, subst, ◌∙◌, true, false,
  arith, some, ltb, Bool-cases, inl, inr, lt→ltb, word_size, ok,
}
use native.Mathlib.Decide.{dec_lt}
use dangless_malloc.Page.{pgsize, pg_offset}
use dangless_malloc.Dune.{Dune, Machine}
use dangless_malloc.VirtMem.{flag_isset, pte_v, pt_walk, pt_resolve_page, load_pte}
use dangless_malloc.VirtMem.Entries.{index, region_add, region_beside, pt_level_offset_lem}
use dangless_malloc.VirtMem.Tree.{IsLayout, Sites, IsTree, table_vaddr_lem}
use dangless_malloc.VirtMem.Walk.{pt_walk-Found}
use dangless_malloc.VirtMem.Create.{pt_resolve_page_eq}
use dangless_malloc.VirtMem.Leaf.{leaf_result, pt_resolve_page-leaf}
use dangless_malloc.VirtMem.Map.{walk_cmd_lem}
use dangless_malloc.VirtMem.Region.{InPage, IsMapped, level_one}
use dangless_malloc.Invalidate.{min_of, invalidate_ptes, invalidate_chunk, invalidate_pages}
use dangless_malloc.Invalidate.Near.{pt_walk-Beside}
use dangless_malloc.Invalidate.Chunk.{
  Invalidated, Invalidated-none, Invalidated-trans, invalidate_ptes-Invalidated,
}

pg_offset_small : (p k : ℕ) → p + k * pgsize < word_size → pg_offset p k ≡ p + k * pgsize
unfolding pg_offset
pg_offset_small p k h = omega arith

min_of_bounds : (a b : ℕ) → (min_of a b ≤ a) × (min_of a b ≤ b)
min_of_bounds a b = ground arith

leaf_valid : (w pa : ℕ) → leaf_result w ≡ some (pa, 1) → flag_isset w pte_v ≡ true
leaf_valid w pa h = elim (Bool-cases (flag_isset w pte_v)) [
  | inl valid ↦ valid
  | inr absent ↦ absurd (ground (arith, h, absent))
]

invalidate_chunk_lem :
    (dune : Dune) (p npages : ℕ) (m m' : Machine) (offset e n : ℕ)
    → pg_offset p offset ≡ p + offset * pgsize
    → pt_walk dune m (p + offset * pgsize) 1 ≡ some (1, e)
    → flag_isset (m.mem e) pte_v ≡ true
    → min_of (512 - index (p + offset * pgsize) 0) (npages - offset) ≡ n
    → invalidate_ptes n e (p + offset * pgsize) 0 m ≡ ok tt m'
    → invalidate_chunk dune p npages offset m ≡ ok n m'
unfolding invalidate_chunk load_pte
invalidate_chunk_lem dune p npages m m' offset e n at walked valid count run =
    let va : ℕ = p + offset * pgsize in
    rw (at, walk_cmd_lem dune va 1 walked)
      (rw (valid, pt_level_offset_lem va 0 (omega arith), count, run) refl)

invalidate_pages-done :
    (dune : Dune) (fuel p npages offset : ℕ) (m : Machine)
    → ltb offset npages ≡ false
    → invalidate_pages dune fuel p npages offset m ≡ ok tt m
unfolding invalidate_pages
invalidate_pages-done dune zero p npages offset m h = rw h refl
invalidate_pages-done dune (suc fuel) p npages offset m h = rw (h, invalidate_pages) refl

invalidate_pages-suc :
    (dune : Dune) (fuel p npages offset n : ℕ) (m m' : Machine)
    → ltb offset npages ≡ true
    → invalidate_chunk dune p npages offset m ≡ ok n m'
    → invalidate_pages dune (suc fuel) p npages offset m
      ≡ invalidate_pages dune fuel p npages (offset + n) m'
unfolding invalidate_pages
invalidate_pages-suc dune fuel p npages offset n m m' h run = rw (h, invalidate_pages) (rw run refl)

pub Invalidated-others :
    {dune : Dune} (lay : IsLayout dune) {site : Sites} {m m' : Machine} {p i j : ℕ} (va : ℕ)
    → IsTree dune site m
    → Invalidated dune site m m' p i j
    → ((k : ℕ) → i ≤ k → k < j → ¬ InPage p k va)
    → pt_resolve_page dune m' va ≡ pt_resolve_page dune m va
Invalidated-others {dune} lay {m = m} {m'} va tree inv out =
    let (k, e, walked, found) = pt_walk-Found lay tree va in
    pt_resolve_page_eq dune m m' va (suc k) e walked (inv.walks va ∙ walked)
      (inv.kept va (suc k) e out walked)

module _ {dune : Dune} (lay : IsLayout dune) {site : Sites} (p npages : ℕ)
    (aligned : p % pgsize ≡ 0) (fits : p + npages * pgsize ≤ 2 ^ 48) where
  -- Where the walk for a mapped page ends.
  pub mapped_walk :
      (m : Machine) (va : ℕ)
      → IsTree dune site m
      → IsMapped dune m va
      → (e : ℕ) × (pt_walk dune m va 1 ≡ some (1, e)) × (flag_isset (m.mem e) pte_v ≡ true)
  mapped_walk m va tree (pa, h) =
      let (k, e, walked, found) = pt_walk-Found lay tree va in
      let one = level_one dune m va (suc k) e pa walked h in
      let walked' : pt_walk dune m va 1 ≡ some (1, e) =
        subst (λ n. pt_walk dune m va 1 ≡ some (n, e)) one walked in
      (e, walked', leaf_valid (m.mem e) pa (sym (pt_resolve_page-leaf dune m va e walked') ∙ h))

  -- The entries of the pages that follow, in the table of `e`.
  following :
      (m : Machine) (offset e i : ℕ)
      → IsTree dune site m
      → pt_walk dune m (p + offset * pgsize) 1 ≡ some (1, e)
      → offset + i < npages
      → index (p + offset * pgsize) 0 + i < 512
      → pt_walk dune m (p + (offset + i) * pgsize) 1 ≡ some (1, e + 8 * i)
  following m offset e i tree walked h h' =
      let va : ℕ = p + offset * pgsize in
      let same : p + (offset + i) * pgsize ≡ va + i * pgsize = omega arith in
      let (near, number) = region_beside va i (omega (arith, aligned)) (omega arith) h' in
      let b = pt_walk-Beside lay tree va (va + i * pgsize) near walked in
      rw same (b.there ∙ ap (λ x. some (1, x)) (omega (arith, number, b.here)))

  table_room :
      (m : Machine) (va e : ℕ)
      → IsTree dune site m
      → pt_walk dune m va 1 ≡ some (1, e)
      → e + 8 * (512 - index va 0) ≤ word_size
  table_room m va e tree walked =
      let b = pt_walk-Beside lay tree va va refl walked in
      omega (arith, b.here, (table_vaddr_lem lay (tree.page b.table _ _ b.place)).1)

  -- One round: a page at least, and none behind the last.
  invalidate_chunk-Invalidated :
      (m : Machine) (offset : ℕ)
      → IsTree dune site m
      → offset < npages
      → IsMapped dune m (p + offset * pgsize)
      → (n : ℕ) × (m' : Machine) × (invalidate_chunk dune p npages offset m ≡ ok n m')
        × (0 < n)
        × (offset + n ≤ npages)
        × Invalidated dune site m m' p offset (offset + n)
  invalidate_chunk-Invalidated m offset tree h mapped =
      let va : ℕ = p + offset * pgsize in
      let at : pg_offset p offset ≡ va = pg_offset_small p offset (omega arith) in
      let (e, walked, valid) = mapped_walk m va tree mapped in
      let n : ℕ = min_of (512 - index va 0) (npages - offset) in
      let small : index va 0 < 512 = omega arith in
      let bounds = min_of_bounds (512 - index va 0) (npages - offset) in
      let (m', run, inv) =
        invalidate_ptes-Invalidated lay p aligned n offset 0 e va m (grind arith)
          (omega (arith, table_room m va e tree walked)) tree
          (λ i low high. following m offset e i tree walked (omega arith) (omega arith)) in
      let base : offset + 0 ≡ offset = omega arith in
      (
        n,
        m',
        invalidate_chunk_lem dune p npages m m' offset e n at walked valid refl run,
        ground arith,
        omega arith,
        subst (λ x. Invalidated dune site m m' p x (x + n)) base inv,
      )

  -- The pages that are still to be marked stay mapped.
  still-IsMapped :
      (m m' : Machine) (i j k : ℕ)
      → Invalidated dune site m m' p i j
      → IsTree dune site m
      → p + k * pgsize < 2 ^ 48
      → j ≤ k
      → IsMapped dune m (p + k * pgsize)
      → IsMapped dune m' (p + k * pgsize)
  still-IsMapped m m' i j k inv tree h le (pa, mapped) =
      let number = region_add p k aligned h in
      (
        pa,
        Invalidated-others lay (p + k * pgsize) tree inv (λ k' low high e. absurd (omega arith))
            ∙ mapped,
      )

  -- The rounds from page `offset` on, with fuel for each page.
  pub invalidate_pages-Invalidated :
      (fuel offset : ℕ) (m : Machine)
      → npages ≤ fuel + offset
      → offset ≤ npages
      → IsTree dune site m
      → ((k : ℕ) → offset ≤ k → k < npages → IsMapped dune m (p + k * pgsize))
      → (m' : Machine) × (invalidate_pages dune fuel p npages offset m ≡ ok tt m')
        × Invalidated dune site m m' p offset npages
  invalidate_pages-Invalidated zero offset m enough le tree mapped =
      let end : offset ≡ npages = omega arith in
      (
        m,
        invalidate_pages-done dune zero p npages offset m (ground arith),
        subst (λ x. Invalidated dune site m m p offset x) end (Invalidated-none p offset tree),
      )
  invalidate_pages-Invalidated (suc fuel) offset m enough le tree mapped =
      elim (dec_lt offset npages) [
        | no stop ↦
            let end : offset ≡ npages = omega arith in
            (
              m,
              invalidate_pages-done dune (suc fuel) p npages offset m (ground arith),
              subst (λ x. Invalidated dune site m m p offset x) end
                  (Invalidated-none p offset tree),
            )
        | yes more ↦
            let (n, m', run, some_done, last, inv) =
              invalidate_chunk-Invalidated m offset tree more (mapped offset (omega arith) more) in
            let (m'', run', inv') =
              invalidate_pages-Invalidated fuel (offset + n) m' (omega arith) last inv.tree
                (λ k low high.
                  still-IsMapped m m' offset (offset + n) k inv tree (omega arith) (omega arith)
                    (mapped k (omega arith) high)) in
            (
              m'',
              invalidate_pages-suc dune fuel p npages offset n m m' (lt→ltb _ _ more) run ∙ run',
              Invalidated-trans npages (omega arith) last inv inv',
            )
      ]
