-- ===== src/Invalidate/Near.antt =====
-- Addresses that one level-1 table maps: their walks end at neighbouring entries of it.
use dangless_malloc.Prelude.{
  ℕ, zero, suc, ◌%◌, ◌<◌, ◌≡◌, refl, sym, ap, ◌∙◌, arith, some, Bool-cases, inl, inr,
}
use dangless_malloc.Dune.{Dune, Machine}
use dangless_malloc.VirtMem.{walk_stops, walk_levels, pt_walk}
use dangless_malloc.VirtMem.Entries.{region, index, region_top, region_up}
use dangless_malloc.VirtMem.Tree.{IsLayout, Sites, entry, IsTree}
use dangless_malloc.VirtMem.Walk.{full_stops_one, walk_step, next_place}

-- The walks for `va` and `va'` end in one level-1 table.
pub record Beside (dune : Dune) (site : Sites) (m : Machine) (va va' e : ℕ) : Type 0 where
  pub table : ℕ
  pub place : site table ≡ some (1, region va 1)
  pub here : e ≡ entry dune table (index va 0)
  pub there : pt_walk dune m va' 1 ≡ some (1, entry dune table (index va' 0))

module _ {dune : Dune} (lay : IsLayout dune) {site : Sites} {m : Machine}
    (tree : IsTree dune site m) (va va' : ℕ) (near : region va 1 ≡ region va' 1) where
  abbrev Sides : ℕ → ℕ → ℕ → Type 0
  Sides j pa e =
      (table : ℕ) × (site table ≡ some (1, region va 1))
      × (e ≡ entry dune table (index va 0))
      × ((e' : ℕ)
          → walk_levels dune m va' 1 (suc j) pa e' ≡ some (1, entry dune table (index va' 0)))

  walk_levels-Sides :
      (j pa e e' : ℕ)
      → site pa ≡ some (suc j, region va (suc j))
      → j < 4
      → walk_levels dune m va 1 (suc j) pa e' ≡ some (1, e)
      → Sides j pa e
  walk_levels-Sides zero pa e e' s h walked =
      let t = tree.page pa _ _ s in
      let stop = full_stops_one (m.mem (entry dune pa (index va 0))) in
      let step = walk_step lay m va 0 pa e' t h in
      (
        pa,
        s,
        ground (arith, walked, step, stop),
        λ e''.
            rw
              (
                walk_step lay m va' 0 pa e'' t h,
                full_stops_one (m.mem (entry dune pa (index va' 0))),
              )
              refl,
      )
  walk_levels-Sides (suc j) pa e e' s h walked =
      let t = tree.page pa _ _ s in
      let here : ℕ = entry dune pa (index va (suc j)) in
      elim (Bool-cases (walk_stops 1 (suc (suc j)) (m.mem here))) [
        | inl stop ↦ absurd (ground (arith, walked, walk_step lay m va (suc j) pa e' t h, stop))
        | inr on ↦
            let same : index va' (suc j) ≡ index va (suc j) =
              ap (λ r. r % 512) (sym (region_up va va' 1 (suc j) (omega arith) near)) in
            let below = rw (walk_step lay m va (suc j) pa e' t h, on) at walked in
            let (table, place, at, there) =
              walk_levels-Sides j _ e here (next_place lay tree va j pa s on) (omega arith) below in
            (
              table,
              place,
              at,
              λ e''. rw (walk_step lay m va' (suc j) pa e'' t h, same, on) (there here),
            )
      ]

  pub pt_walk-Beside : {e : ℕ} → pt_walk dune m va 1 ≡ some (1, e) → Beside dune site m va va' e
  unfolding pt_walk
  pt_walk-Beside {e} walked =
      let top : site m.cr3 ≡ some (4, region va 4) =
        tree.root ∙ ap (λ x. some (4, x)) (sym (region_top va)) in
      let (table, place, here, there) = walk_levels-Sides 3 m.cr3 e 0 top (omega arith) walked in
      record { table = table; place = place; here = here; there = there 0 }
