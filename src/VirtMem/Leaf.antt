-- ===== src/VirtMem/Leaf.antt =====
-- A write to an entry of a level-1 table: no walk changes, and only the addresses of its page are
-- translated differently.
use dangless_malloc.Prelude.{
  ℕ, suc, ◌<◌, ◌≡◌, ◌≢◌, refl, sym, ap, ◌∙◌, arith, ◌==◌, bit_and, Option, some, if◌then◌else◌,
  ne→==, eq→==,
}
use native.Mathlib.Decide.{ℕ_discrete}
use dangless_malloc.Dune.{Dune, Machine}
use dangless_malloc.VirtMem.{flag_isset, pte_v, pte_frame, pt_walk, pt_resolve_page, frame_of}
use dangless_malloc.VirtMem.Entries.{region, index, region_split}
use dangless_malloc.VirtMem.Tree.{IsLayout, Sites, entry, IsTree, entry_injective}
use dangless_malloc.VirtMem.Walk.{full_stops_one, Found, pt_walk-Found}
use dangless_malloc.VirtMem.Change.{Change, pt_walk-miss, Found-miss, pt_walk-hit, pt_walk-alike}
use dangless_malloc.VirtMem.Create.{pt_resolve_page_eq}

abbrev pub written : Machine → ℕ → ℕ → Machine
written m e w = record m { mem = λ a. if a == e then w else m.mem a }

-- What an entry of level 1 says of its page.
abbrev pub leaf_result : ℕ → Option (ℕ × ℕ)
leaf_result w = if flag_isset w pte_v then some (bit_and w pte_frame, 1) else some (0, 0)

pub pt_resolve_page-leaf :
    (dune : Dune) (m : Machine) (va e : ℕ)
    → pt_walk dune m va 1 ≡ some (1, e)
    → pt_resolve_page dune m va ≡ leaf_result (m.mem e)
unfolding pt_resolve_page frame_of
pt_resolve_page-leaf dune m va e walked = rw (walked, pt_resolve_page) refl

module _ {dune : Dune} (lay : IsLayout dune) {site : Sites} (m : Machine) (va e w : ℕ)
    (tree : IsTree dune site m) (walked : pt_walk dune m va 1 ≡ some (1, e))
    (found : Found dune site m va 0 e) where
  leaf-Change : Change dune site m (written m e w) e 0 (region va 0)
  leaf-Change = record {
    table = found.table;
    x = region va 1;
    i = index va 0;
    place = found.place;
    small = omega arith;
    here = found.here;
    numbered = region_split va 0;
    cr3 = refl;
    same = λ pa l y j s h ne. rw (ne→== _ _ ne);
  }

  leaf_child :
      (pa j x i : ℕ)
      → site pa ≡ some (suc (suc j), x)
      → i < 512
      → (written m e w).mem (entry dune pa i) ≡ m.mem (entry dune pa i)
  leaf_child pa j x i s h =
      let t = tree.page pa (suc (suc j)) x s in
      let t' = tree.page found.table 1 (region va 1) found.place in
      let ne : entry dune pa i ≢ e = λ eq.
        let places : ◌≡◌ {A = Option (ℕ × ℕ)} (some (suc (suc j), x)) (some (1, region va 1)) =
          sym s
          ∙ ap site (entry_injective lay i (index va 0) t t' h (omega arith) (eq ∙ found.here)).0
          ∙ found.place in
        absurd (ground (arith, places)) in
      leaf-Change.same pa _ _ i s h ne

  pub leaf-IsTree : IsTree dune site (written m e w)
  leaf-IsTree = record {
    root = tree.root;
    page = tree.page;
    child = λ pa j x i s h v ps.
        let kept = leaf_child pa j x i s h in
        ap (λ c. site (bit_and c pte_frame)) kept
        ∙ tree.child pa j x i s h (rw kept at v) (rw kept at ps);
    fresh = tree.fresh;
  }

  pub leaf-here :
      (va' : ℕ)
      → region va' 0 ≡ region va 0
      → pt_resolve_page dune (written m e w) va' ≡ leaf_result w
  leaf-here va' alike =
      let there : pt_walk dune (written m e w) va' 1 ≡ some (1, e) =
        pt_walk-hit lay tree leaf-Change va va' alike (omega arith) walked
        ∙ rw (full_stops_one ((written m e w).mem e)) in
      pt_resolve_page-leaf dune (written m e w) va' e there ∙ rw (eq→== e e refl)

  pub leaf-other :
      (va' : ℕ)
      → region va' 0 ≢ region va 0
      → pt_resolve_page dune (written m e w) va' ≡ pt_resolve_page dune m va'
  leaf-other va' other =
      let (j, e', walked', found') = pt_walk-Found lay tree va' in
      pt_resolve_page_eq dune m (written m e w) va' (suc j) e' walked'
        (pt_walk-miss lay tree leaf-Change va' other ∙ walked')
        (Found-miss lay tree leaf-Change va' other found')

  -- No walk goes another way.
  pub leaf_walk : (va' : ℕ) → pt_walk dune (written m e w) va' 1 ≡ pt_walk dune m va' 1
  leaf_walk va' = elim (ℕ_discrete (region va' 0) (region va 0)) [
    | no other ↦ pt_walk-miss lay tree leaf-Change va' other
    | yes alike ↦
        pt_walk-hit lay tree leaf-Change va va' alike (omega arith) walked
        ∙ (rw (full_stops_one ((written m e w).mem e)))
        ∙ sym (pt_walk-alike lay tree found walked va' alike)
  ]

  -- The entries where the walks for other pages end are as before.
  pub leaf_kept :
      {j e' : ℕ} (va' : ℕ)
      → region va' 0 ≢ region va 0
      → Found dune site m va' j e'
      → (written m e w).mem e' ≡ m.mem e'
  leaf_kept va' other found' = Found-miss lay tree leaf-Change va' other found'
