-- ===== src/VirtMem/Walk.antt =====
-- The walk through a tree of tables: where it ends, and what a write to one entry changes.
use dangless_malloc.Prelude.{
  ℕ, zero, suc, ◌≤◌, ◌<◌, ◌≡◌, refl, sym, ap, ◌∙◌, true, false, arith, bit_and, some, lt→ltb,
  if◌then◌else◌, Bool-cases, inl, inr,
}
use dangless_malloc.Dune.{Dune, Machine, table_vaddr, pt_paddr2vaddr}
use dangless_malloc.VirtMem.{flag_isset, pte_v, pte_ps, pte_frame, walk_stops, walk_levels, pt_walk}
use dangless_malloc.VirtMem.Entries.{region, index, region_split, region_top}
use dangless_malloc.VirtMem.Tree.{IsLayout, IsTablePage, Sites, entry, IsTree, entry_at_lem}

-- A full walk always ends at level 1, and above it at what is absent or a huge page.
pub full_stops_one : (pte : ℕ) → walk_stops 1 1 pte ≡ true
unfolding walk_stops
full_stops_one pte = ground arith

pub full_goes_on :
    (k pte : ℕ)
    → walk_stops 1 (suc (suc k)) pte ≡ false
    → (flag_isset pte pte_v ≡ true) × (flag_isset pte pte_ps ≡ false)
unfolding walk_stops
full_goes_on k pte h = ground arith

pub full_stops_absent :
    (level pte : ℕ) → flag_isset pte pte_v ≡ false → walk_stops 1 level pte ≡ true
unfolding walk_stops
full_stops_absent level pte h = ground arith

pub full_stops_not :
    (k pte : ℕ)
    → flag_isset pte pte_v ≡ true
    → flag_isset pte pte_ps ≡ false
    → walk_stops 1 (suc (suc k)) pte ≡ false
unfolding walk_stops
full_stops_not k pte h h' = ground arith

pub pt_paddr2vaddr-IsTablePage :
    {dune : Dune} {pa : ℕ}
    → IsTablePage dune pa
    → pt_paddr2vaddr dune pa ≡ some (table_vaddr dune pa)
unfolding pt_paddr2vaddr
pt_paddr2vaddr-IsTablePage t = rw (lt→ltb _ _ t.below)

module _ {dune : Dune} (lay : IsLayout dune) where
  -- One level of the walk.
  pub walk_step :
      (m : Machine) (va k pa e : ℕ)
      → IsTablePage dune pa
      → k < 4
      → walk_levels dune m va 1 (suc k) pa e ≡ (
          if walk_stops 1 (suc k) (m.mem (entry dune pa (index va k)))
          then some (suc k, entry dune pa (index va k))
          else walk_levels dune m va 1 k
              (bit_and (m.mem (entry dune pa (index va k))) pte_frame)
              (entry dune pa (index va k)))
  unfolding walk_levels
  walk_step m va k pa e t h =
      rw (pt_paddr2vaddr-IsTablePage t, walk_levels) (rw (entry_at_lem lay va k t h) refl)

-- Where a full walk for `va` ends: at an entry of level `suc k`, in the table for `va`.
pub record Found (dune : Dune) (site : Sites) (m : Machine) (va k e : ℕ) : Type 0 where
  pub table : ℕ
  pub place : site table ≡ some (suc k, region va (suc k))
  pub here : e ≡ entry dune table (index va k)
  pub stop : walk_stops 1 (suc k) (m.mem e) ≡ true
  pub low : k < 4

module _ {dune : Dune} (lay : IsLayout dune) {site : Sites} {m : Machine}
    (tree : IsTree dune site m) (va : ℕ) where
  -- The table that the walk goes on with is the one for `va` of the next level.
  pub next_place :
      (j pa : ℕ)
      → site pa ≡ some (suc (suc j), region va (suc (suc j)))
      → walk_stops 1 (suc (suc j)) (m.mem (entry dune pa (index va (suc j)))) ≡ false
      → site (bit_and (m.mem (entry dune pa (index va (suc j)))) pte_frame)
        ≡ some (suc j, region va (suc j))
  next_place j pa s on =
      let (v, ps) = full_goes_on j _ on in
      tree.child pa j _ (index va (suc j)) s (omega arith) v ps
      ∙ ap (λ x. some (suc j, x)) (sym (region_split va (suc j)))

  -- The walk from the table for `va` of any level ends, without a failed assertion.
  pub walk_levels-Found :
      (j pa e : ℕ)
      → site pa ≡ some (suc j, region va (suc j))
      → j < 4
      → (k : ℕ) × (e' : ℕ) × (walk_levels dune m va 1 (suc j) pa e ≡ some (suc k, e'))
        × Found dune site m va k e'
        × (k ≤ j)
  walk_levels-Found zero pa e s h =
      let here : ℕ = entry dune pa (index va 0) in
      let stop = full_stops_one (m.mem here) in
      (
        0,
        here,
        rw (walk_step lay m va 0 pa e (tree.page pa _ _ s) h, stop) refl,
        record { table = pa; place = s; here = refl; stop = stop; low = h },
        omega arith,
      )
  walk_levels-Found (suc j) pa e s h =
      let here : ℕ = entry dune pa (index va (suc j)) in
      elim (Bool-cases (walk_stops 1 (suc (suc j)) (m.mem here))) [
        | inl stop ↦ (
          suc j,
          here,
          rw (walk_step lay m va (suc j) pa e (tree.page pa _ _ s) h, stop) refl,
          record { table = pa; place = s; here = refl; stop = stop; low = h },
          omega arith,
        )
        | inr on ↦
            let below = next_place j pa s on in
            let (k, e', walked, found, le) = walk_levels-Found j _ here below (omega arith) in
            (
              k,
              e',
              rw (walk_step lay m va (suc j) pa e (tree.page pa _ _ s) h, on) walked,
              found,
              omega arith,
            )
      ]

  -- With the layout of physical memory that platform/dune assumes and well-formed page tables,
  -- the full walk for any address fails no assertion. It ends at a level from 1 to 4, at the
  -- entry that the address selects in the table of that level for the address, and there is a
  -- reason to stop there: the level is 1, the entry is absent or it is a huge page.
  pub pt_walk-Found :
      (k : ℕ) × (e : ℕ) × (pt_walk dune m va 1 ≡ some (suc k, e)) × Found dune site m va k e
  unfolding pt_walk
  pt_walk-Found =
      let top : site m.cr3 ≡ some (4, region va 4) =
        tree.root ∙ ap (λ x. some (4, x)) (sym (region_top va)) in
      let (k, e, walked, found, le) = walk_levels-Found 3 m.cr3 0 top (omega arith) in
      (k, e, walked, found)

  -- A walk that ends at the level where it begins ends at its first entry.
  pub last_here :
      (j pa e e' : ℕ)
      → site pa ≡ some (suc j, region va (suc j))
      → j < 4
      → walk_levels dune m va 1 (suc j) pa e ≡ some (suc j, e')
      → entry dune pa (index va j) ≡ e'
  last_here zero pa e e' s h walked =
      let step = walk_step lay m va 0 pa e (tree.page pa _ _ s) h in
      let stop = full_stops_one (m.mem (entry dune pa (index va 0))) in ground (arith, step, stop)
  last_here (suc j) pa e e' s h walked =
      let here : ℕ = entry dune pa (index va (suc j)) in
      let step = walk_step lay m va (suc j) pa e (tree.page pa _ _ s) h in
      elim (Bool-cases (walk_stops 1 (suc (suc j)) (m.mem here))) [
        | inl stop ↦ ground (arith, step, stop)
        | inr on ↦
            let (k, e'', walked', found, le) =
              walk_levels-Found j _ here (next_place j pa s on) (omega arith) in
            absurd (ground (arith, step, on, walked'))
      ]
