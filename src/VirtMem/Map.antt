-- ===== src/VirtMem/Map.antt =====
-- pt_map_page as a whole.
use mathlib.Core.Option
use dangless_malloc.Prelude.{
  ℕ, zero, suc, ◌+◌, ◌-◌, ◌%◌, ◌≤◌, ◌<◌, ◌≡◌, ◌≢◌, refl, sym, ap, ◌∙◌, false, arith, Option, none,
  some, Bool-cases, inl, inr, eq→==, ok, and_then, pure, Run, ℤ, pos, negsuc,
}
use native.Mathlib.Decide.{ℕ_discrete}
use dangless_malloc.Page.{pgsize}
use dangless_malloc.Dune.{Dune, Machine, pp_zalloc-null}
use dangless_malloc.VirtMem.{
  flag_isset, pte_v, pt_walk, pt_resolve_page, frame_of, pt_map_page_create_level, create_levels,
  map_leaf, pt_map_page, walk_cmd, load_pte,
}
use dangless_malloc.VirtMem.Entries.{
  region, IsFlags, IsFrame, entry_of, entry_of-valid, entry_of-frame,
}
use dangless_malloc.VirtMem.Tree.{IsLayout, Sites, IsTree}
use dangless_malloc.VirtMem.Walk.{pt_walk-Found}
use dangless_malloc.VirtMem.Create.{
  Absent, SameTranslation, absent', same_translation, create_level_runs,
}
use dangless_malloc.VirtMem.Leaf.{written, leaf-IsTree, leaf-here, leaf-other}

-- What CREATE_LEVEL for all missing levels comes to: the walk ends at an absent entry of level 1,
-- or a call of the page allocator failed. Nothing is translated differently.
pub data LevelsMade (dune : Dune) (m : Machine) (va k : ℕ) : Run Machine (Option ℕ) → Type 0 where
  made :
      {site : Sites} {m' : Machine} {e : ℕ}
      → Absent dune site m' va 0 e
      → SameTranslation dune m m'
      → m.calls ≤ m'.calls
      → m'.calls ≤ m.calls + k
      → LevelsMade dune m va k (ok (some e) m')
  no_page :
      {site : Sites} {m' : Machine} (n : ℕ)
      → n < k
      → dune.page_at (m.calls + n) ≡ 0
      → IsTree dune site m'
      → SameTranslation dune m m'
      → LevelsMade dune m va k (ok none m')

-- One level more, above the others.
Levels-suc :
    {dune : Dune} {va k : ℕ} {r : Run Machine (Option ℕ)} (m m' : Machine)
    → m'.calls ≡ m.calls + 1
    → SameTranslation dune m m'
    → LevelsMade dune m' va k r
    → LevelsMade dune m va (suc k) r
Levels-suc m m' c same (made o same' low high) =
    made o (λ va'. same' va' ∙ same va') (omega arith) (omega arith)
Levels-suc {dune} m m' c same (no_page n h null tree same') =
    no_page (suc n) (omega arith) (ap dune.page_at (omega (arith, c)) ∙ null) tree
      (λ va'. same' va' ∙ same va')

module _ {dune : Dune} (lay : IsLayout dune) (va flags : ℕ) (f : IsFlags flags) where
  create_level_null :
      (m : Machine) (level e : ℕ)
      → dune.page_at m.calls ≡ 0
      → pt_map_page_create_level dune e va level flags m
        ≡ ok none (record m { calls = m.calls + 1 })
  unfolding pt_map_page_create_level
  create_level_null m level e null = rw (pp_zalloc-null dune m null) refl

  null_IsTree :
      {site : Sites} {m : Machine}
      → IsTree dune site m
      → IsTree dune site (record m { calls = m.calls + 1 })
  null_IsTree t = record {
    root = t.root;
    page = t.page;
    child = t.child;
    fresh = λ n h. t.fresh n (omega arith);
  }

  null_same : (m : Machine) → SameTranslation dune m (record m { calls = m.calls + 1 })
  unfolding pt_resolve_page
  null_same m va = refl

  create_levels-LevelsMade :
      (k : ℕ) (site : Sites) (m : Machine) (e : ℕ)
      → Absent dune site m va k e
      → LevelsMade dune m va k (create_levels dune k e va flags m)
  unfolding create_levels
  create_levels-LevelsMade zero site m e o = made o (λ va'. refl) (omega arith) (omega arith)
  create_levels-LevelsMade (suc k) site m e o = elim (ℕ_discrete (dune.page_at m.calls) 0) [
    | yes null ↦ rw (create_level_null m (suc k) e null) (
        no_page 0 (omega arith) (ap dune.page_at (omega arith) ∙ null) (null_IsTree o.tree)
          (null_same m))
    | no got ↦ rw (create_level_runs lay m va k e flags o f got) (
        Levels-suc m _ refl (same_translation lay m va k e flags o f got)
          (create_levels-LevelsMade k _ _ _ (absent' lay m va k e flags o f got)))
  ]

-- The two outcomes of mapping the page of `va` to `pa`.
pub data Mapped (dune : Dune) (m : Machine) (pa va : ℕ) : Run Machine ℤ → Type 0 where
  mapped :
      {site : Sites} {m' : Machine}
      → IsTree dune site m'
      → ((va' : ℕ) → region va' 0 ≡ region va 0 → pt_resolve_page dune m' va' ≡ some (pa, 1))
      → ((va' : ℕ)
          → region va' 0 ≢ region va 0
          → pt_resolve_page dune m' va' ≡ pt_resolve_page dune m va')
      → m.calls ≤ m'.calls
      → m'.calls ≤ m.calls + 3
      → Mapped dune m pa va (ok (pos 0) m')
  out_of_pages :
      {site : Sites} {m' : Machine} (n : ℕ)
      → n < 3
      → dune.page_at (m.calls + n) ≡ 0
      → IsTree dune site m'
      → SameTranslation dune m m'
      → Mapped dune m pa va (ok (negsuc 0) m')

module _ {dune : Dune} (lay : IsLayout dune) (pa va flags : ℕ) (fr : IsFrame pa)
    (f : IsFlags flags) where
  -- The last entry is absent, so nothing is flushed.
  map_leaf-Absent :
      (m : Machine) (e : ℕ)
      → flag_isset (m.mem e) pte_v ≡ false
      → map_leaf dune pa va flags e m ≡ ok (pos 0) (written m e (entry_of pa flags))
  unfolding map_leaf
  map_leaf-Absent m e absent = rw absent refl

  Mapped-leaf :
      {site : Sites} (m m' : Machine) (e : ℕ)
      → Absent dune site m' va 0 e
      → SameTranslation dune m m'
      → m.calls ≤ m'.calls
      → m'.calls ≤ m.calls + 3
      → Mapped dune m pa va (map_leaf dune pa va flags e m')
  Mapped-leaf m m' e o same low high = rw (map_leaf-Absent m' e o.absent) (
      mapped (leaf-IsTree lay m' va e w o.tree o.walked o.found)
        (λ va' alike.
          leaf-here lay m' va e w o.tree o.walked o.found va' alike
          ∙ rw (entry_of-valid pa flags) (ap (λ p. some (p, 1)) (entry_of-frame fr f)))
        (λ va' other. leaf-other lay m' va e w o.tree o.walked o.found va' other ∙ same va') low
        high)
    where
      w : ℕ
      w = entry_of pa flags

pub walk_cmd_lem :
    (dune : Dune) {m : Machine} (va requested : ℕ) {level e : ℕ}
    → pt_walk dune m va requested ≡ some (level, e)
    → walk_cmd dune va requested m ≡ ok (level, e) m
unfolding walk_cmd
walk_cmd_lem dune va requested walked = rw (walked, walk_cmd)

no_level_zero : (k : ℕ) (o : Option ℕ) → Option.map {B = ℕ × ℕ} (λ pa. (pa, suc k)) o ≢ some (0, 0)
no_level_zero k none h = cc
no_level_zero k (some pa) h = absurd (ground arith)

-- An address with no translation is one whose walk ends at an absent entry.
pub absent_of_unmapped :
    (dune : Dune) (m : Machine) (va k e : ℕ)
    → pt_walk dune m va 1 ≡ some (suc k, e)
    → pt_resolve_page dune m va ≡ some (0, 0)
    → flag_isset (m.mem e) pte_v ≡ false
unfolding pt_resolve_page frame_of
absent_of_unmapped dune m va k e walked h = elim (Bool-cases (flag_isset (m.mem e) pte_v)) [
  | inr absent ↦ absent
  | inl present ↦
      let here : pt_resolve_page dune m va
          ≡ Option.map (λ pa. (pa, suc k)) (frame_of dune (suc k) (m.mem e)) =
        rw (walked, pt_resolve_page) (rw present refl) in
      absurd (no_level_zero k _ (sym here ∙ h))
]

module _ {dune : Dune} (lay : IsLayout dune) (pa va flags : ℕ) (fr : IsFrame pa)
    (va_aligned : va % pgsize ≡ 0) (f : IsFlags flags) where
  Mapped-LevelsMade :
      {r : Run Machine (Option ℕ)} (m : Machine) (k : ℕ)
      → k < 4
      → LevelsMade dune m va k r
      → Mapped dune m pa va (
          and_then r
            λ last. elim last [ none ↦ pure (negsuc 0) | some e ↦ map_leaf dune pa va flags e ])
  Mapped-LevelsMade m k h (made o same low high) =
      Mapped-leaf lay pa va flags fr f m _ _ o same low (omega arith)
  Mapped-LevelsMade m k h (no_page n h' null tree same) =
      out_of_pages n (omega arith) null tree same

  pred_suc : (k : ℕ) → suc k - 1 ≡ k
  pred_suc k = omega arith

  -- With the layout of physical memory that platform/dune assumes, well-formed page tables,
  -- and a page va that has no translation: pt_map_page of the whole page pa below 2^52 to va,
  -- with flags that touch neither the frame bits nor PTE_PS, does not fault. It returns 0, the
  -- tables are well-formed, every address of va's page translates to pa at level 1 and every
  -- other address as before; or one of its at most three calls of the page allocator failed,
  -- it returns -1, the tables are well-formed and every address translates as before.
  pub pt_map_page-Mapped :
      (site : Sites) (m : Machine)
      → IsTree dune site m
      → pt_resolve_page dune m va ≡ some (0, 0)
      → Mapped dune m pa va (pt_map_page dune pa va flags m)
  unfolding pt_map_page load_pte
  pt_map_page-Mapped site m tree unmapped =
      let (k, e, walked, found) = pt_walk-Found lay tree va in
      let absent = absent_of_unmapped dune m va k e walked unmapped in
      let made_levels =
        create_levels-LevelsMade lay va flags f k site m e
          (record { tree = tree; walked = walked; found = found; absent = absent }) in
      rw (eq→== _ _ fr.aligned, eq→== _ _ va_aligned, walk_cmd_lem dune va 1 walked, absent)
        (rw (pred_suc k) (Mapped-LevelsMade m k found.low made_levels))
