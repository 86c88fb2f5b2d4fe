-- ===== src/VirtMem/Change.antt =====
-- What a change of one entry does to the walks: those for other regions stay as they are, and those
-- for its region go on behind it.
use dangless_malloc.Prelude.{
  ℕ, zero, suc, ◌+◌, ◌*◌, ◌%◌, ◌≤◌, ◌<◌, ◌≡◌, ◌≢◌, refl, sym, ap, subst, ◌∙◌, arith, bit_and,
  Option, some, if◌then◌else◌, Bool-cases, inl, inr,
}
use native.Mathlib.Decide.{ℕ_discrete}
use dangless_malloc.Dune.{Dune, Machine}
use dangless_malloc.VirtMem.{pte_frame, walk_stops, walk_levels, pt_walk}
use dangless_malloc.VirtMem.Entries.{region, index, region_split, region_up, region_top}
use dangless_malloc.VirtMem.Tree.{IsLayout, IsTablePage, Sites, entry, IsTree, entry_injective}
use dangless_malloc.VirtMem.Walk.{full_stops_one, walk_step, next_place, last_here, Found}

-- `m'` differs from `m`, in what the tables of `site` hold, at most at the entry `e`, the one of
-- level `suc k` for the region `number`.
pub record Change (dune : Dune) (site : Sites) (m m' : Machine) (e k number : ℕ) : Type 0 where
  pub table : ℕ
  pub x : ℕ
  pub i : ℕ
  pub place : site table ≡ some (suc k, x)
  pub small : i < 512
  pub here : e ≡ entry dune table i
  pub numbered : number ≡ x * 512 + i
  pub cr3 : m'.cr3 ≡ m.cr3
  pub same :
      (pa l y j : ℕ)
      → site pa ≡ some (l, y)
      → j < 512
      → entry dune pa j ≢ e
      → m'.mem (entry dune pa j) ≡ m.mem (entry dune pa j)

module _ {dune : Dune} (lay : IsLayout dune) {site : Sites} {m m' : Machine} {e k number : ℕ}
    (tree : IsTree dune site m) (c : Change dune site m m' e k number) where
  -- An entry that a walk for another region reads is another entry.
  entry_ne :
      (va j pa : ℕ)
      → site pa ≡ some (suc j, region va (suc j))
      → (j ≡ k → region va k ≢ number)
      → entry dune pa (index va j) ≢ e
  entry_ne va j pa s other eq =
      let t : IsTablePage dune pa = tree.page pa (suc j) (region va (suc j)) s in
      let t' : IsTablePage dune c.table = tree.page c.table (suc k) c.x c.place in
      let (same_table, same_index) =
        entry_injective lay (index va j) c.i t t' (omega arith) c.small (eq ∙ c.here) in
      let places : ◌≡◌ {A = Option (ℕ × ℕ)} (some (suc j, region va (suc j))) (some (suc k, c.x)) =
        sym s ∙ ap site same_table ∙ c.place in
      let level : j ≡ k = ground arith in
      let high : region va (suc j) ≡ c.x = ground arith in
      other level (ap (region va) (sym level) ∙ region_split va j ∙ omega (arith, c.numbered))

  -- The entry that a walk for another region reads is unchanged.
  unchanged :
      (va j pa : ℕ)
      → site pa ≡ some (suc j, region va (suc j))
      → (j ≡ k → region va k ≢ number)
      → m'.mem (entry dune pa (index va j)) ≡ m.mem (entry dune pa (index va j))
  unchanged va j pa s other = c.same pa _ _ (index va j) s (omega arith) (entry_ne va j pa s other)

  module _ (va : ℕ) (other : region va k ≢ number) where
    walk_levels-miss :
        (j pa e' : ℕ)
        → site pa ≡ some (suc j, region va (suc j))
        → j < 4
        → walk_levels dune m' va 1 (suc j) pa e' ≡ walk_levels dune m va 1 (suc j) pa e'
    walk_levels-miss zero pa e' s h =
        let t = tree.page pa _ _ s in
        rw (
          walk_step lay m' va 0 pa e' t h,
          walk_step lay m va 0 pa e' t h,
          unchanged va 0 pa s (λ _. other),
          full_stops_one (m.mem (entry dune pa (index va 0))),
        )
    walk_levels-miss (suc j) pa e' s h =
        let t = tree.page pa _ _ s in
        let here : ℕ = entry dune pa (index va (suc j)) in
        elim (Bool-cases (walk_stops 1 (suc (suc j)) (m.mem here))) [
          | inl stop ↦ rw (
            walk_step lay m' va (suc j) pa e' t h,
            walk_step lay m va (suc j) pa e' t h,
            unchanged va (suc j) pa s (λ _. other),
            stop,
          )
          | inr on ↦
              rw
                (
                  walk_step lay m' va (suc j) pa e' t h,
                  walk_step lay m va (suc j) pa e' t h,
                  unchanged va (suc j) pa s (λ _. other),
                  on,
                )
                (walk_levels-miss j _ here (next_place lay tree va j pa s on) (omega arith))
        ]

    pub pt_walk-miss : pt_walk dune m' va 1 ≡ pt_walk dune m va 1
    unfolding pt_walk
    pt_walk-miss =
        let top : site m.cr3 ≡ some (4, region va 4) =
          tree.root ∙ ap (λ x. some (4, x)) (sym (region_top va)) in
        ap (λ r. walk_levels dune m' va 1 4 r 0) c.cr3
        ∙ walk_levels-miss 3 m.cr3 0 top (omega arith)

    pub Found-miss : {j e' : ℕ} → Found dune site m va j e' → m'.mem e' ≡ m.mem e'
    Found-miss {j} f = rw f.here (unchanged va j f.table f.place (λ _. other))

  -- A walk that ended at the changed entry, for any address of its region: it goes on there, or
  -- ends there, by what the entry now holds.
  module _ (va va' : ℕ) (alike : region va' k ≡ region va k) where
    abbrev Hits : ℕ → ℕ → ℕ → Type 0
    Hits j pa e' = walk_levels dune m' va' 1 (suc j) pa e' ≡ (
        if walk_stops 1 (suc k) (m'.mem e)
        then some (suc k, e)
        else walk_levels dune m' va' 1 k (bit_and (m'.mem e) pte_frame) e)

    same_index : (j pa : ℕ) → k ≤ j → entry dune pa (index va' j) ≡ entry dune pa (index va j)
    same_index j pa le = ap (λ r. entry dune pa (r % 512)) (region_up va' va k j le alike)

    hit_last :
        (pa e' : ℕ)
        → site pa ≡ some (suc k, region va (suc k))
        → k < 4
        → walk_levels dune m va 1 (suc k) pa e' ≡ some (suc k, e)
        → Hits k pa e'
    hit_last pa e' s h walked =
        let here' : entry dune pa (index va' k) ≡ e =
          same_index k pa (omega arith) ∙ last_here lay tree va k pa e' e s h walked in
        rw (walk_step lay m' va' k pa e' (tree.page pa _ _ s) h, here')

    hit_at_last :
        (j pa e' : ℕ)
        → j ≡ k
        → site pa ≡ some (suc j, region va (suc j))
        → j < 4
        → walk_levels dune m va 1 (suc j) pa e' ≡ some (suc k, e)
        → Hits j pa e'
    hit_at_last j pa e' eq =
        subst
          (λ n.
            site pa ≡ some (suc n, region va (suc n))
            → n < 4
            → walk_levels dune m va 1 (suc n) pa e' ≡ some (suc k, e)
            → Hits n pa e')
          (sym eq) (hit_last pa e')

    walk_levels-hit :
        (j pa e' : ℕ)
        → site pa ≡ some (suc j, region va (suc j))
        → j < 4
        → k ≤ j
        → walk_levels dune m va 1 (suc j) pa e' ≡ some (suc k, e)
        → Hits j pa e'
    walk_levels-hit zero pa e' s h le walked = hit_at_last 0 pa e' (omega arith) s h walked
    walk_levels-hit (suc j) pa e' s h le walked = elim (ℕ_discrete (suc j) k) [
      | yes last ↦ hit_at_last (suc j) pa e' last s h walked
      | no higher ↦
          let t = tree.page pa _ _ s in
          let here : ℕ = entry dune pa (index va (suc j)) in
          elim (Bool-cases (walk_stops 1 (suc (suc j)) (m.mem here))) [
            | inl stop ↦
                absurd (higher (ground (arith, walk_step lay m va (suc j) pa e' t h, stop)))
            | inr on ↦
                let walked' = rw (walk_step lay m va (suc j) pa e' t h, on) at walked in
                rw
                  (
                    walk_step lay m' va' (suc j) pa e' t h,
                    same_index (suc j) pa (omega arith),
                    unchanged va (suc j) pa s (λ eq. absurd (higher eq)),
                    on,
                  )
                  (walk_levels-hit j _ here (next_place lay tree va j pa s on) (omega arith)
                    (omega arith) walked')
          ]
    ]

    pub pt_walk-hit :
        k < 4
        → pt_walk dune m va 1 ≡ some (suc k, e)
        → pt_walk dune m' va' 1 ≡ (
            if walk_stops 1 (suc k) (m'.mem e)
            then some (suc k, e)
            else walk_levels dune m' va' 1 k (bit_and (m'.mem e) pte_frame) e)
    unfolding pt_walk
    pt_walk-hit low walked =
        let top : site m.cr3 ≡ some (4, region va 4) =
          tree.root ∙ ap (λ x. some (4, x)) (sym (region_top va)) in
        ap (λ r. walk_levels dune m' va' 1 4 r 0) c.cr3
        ∙ walk_levels-hit 3 m.cr3 0 top (omega arith) (omega arith) walked

-- No change at all is a change of the entry where a walk ends.
pub no-Change :
    {dune : Dune} {site : Sites} {m : Machine} {va k e : ℕ}
    → Found dune site m va k e
    → Change dune site m m e k (region va k)
no-Change {va} {k} f = record {
  table = f.table;
  x = region va (suc k);
  i = index va k;
  place = f.place;
  small = omega arith;
  here = f.here;
  numbered = region_split va k;
  cr3 = refl;
  same = λ pa l y j s h ne. refl;
}

module _ {dune : Dune} (lay : IsLayout dune) {site : Sites} {m : Machine} {va k e : ℕ}
    (tree : IsTree dune site m) (found : Found dune site m va k e)
    (walked : pt_walk dune m va 1 ≡ some (suc k, e)) where
  -- All addresses of the region of an entry where a walk ends have their walks end there.
  pub pt_walk-alike :
      (va' : ℕ) → region va' k ≡ region va k → pt_walk dune m va' 1 ≡ some (suc k, e)
  pt_walk-alike va' alike =
      pt_walk-hit lay tree (no-Change found) va va' alike found.low walked ∙ rw found.stop
