-- ===== src/VirtMem/Create.antt =====
-- One CREATE_LEVEL of pt_map_page: a fresh, cleared table under an absent entry. The tables stay a
-- tree, the walk goes one level further, and no address is translated differently.
use dangless_malloc.Prelude.{
  ℕ, suc, ◌+◌, ◌*◌, ◌<◌, ◌≡◌, ◌≢◌, refl, sym, ap, ap₂, ◌∙◌, true, false, arith, ◌==◌, bit_and,
  Option, none, some, if◌then◌else◌, ne→==, eq→==, ok,
}
use dangless_malloc.Prelude.Bits.{zero-bit_and}
use native.Mathlib.Decide.{ℕ_discrete}
use dangless_malloc.Dune.{Dune, Machine, table_vaddr, cleared, pp_zalloc-page}
use dangless_malloc.VirtMem.{
  flag_isset, pte_v, pte_ps, pte_frame, pt_walk, pt_resolve_page, pt_map_page_create_level,
  hang_table,
}
use dangless_malloc.VirtMem.Entries.{
  region, index, region_split, IsFlags, IsFrame, entry_of, entry_of-valid, entry_of-frame,
  entry_of-ps,
}
use dangless_malloc.VirtMem.Tree.{
  IsLayout, IsTablePage, Sites, entry, IsTree, entry_injective, entry_at_lem, table_vaddr_lem,
  table_vaddr_injective,
}
use dangless_malloc.VirtMem.Walk.{
  full_stops_absent, full_stops_not, walk_step, Found, pt_walk-Found, pt_paddr2vaddr-IsTablePage,
}
use dangless_malloc.VirtMem.Change.{pt_walk-alike, Change, pt_walk-miss, Found-miss, pt_walk-hit}

-- The full walk for `va` ends at the absent entry `e` of level `suc k`.
pub record Absent (dune : Dune) (site : Sites) (m : Machine) (va k e : ℕ) : Type 0 where
  pub tree : IsTree dune site m
  pub walked : pt_walk dune m va 1 ≡ some (suc k, e)
  pub found : Found dune site m va k e
  pub absent : flag_isset (m.mem e) pte_v ≡ false

-- Every address is translated as before.
abbrev pub SameTranslation : Dune → Machine → Machine → Type 0
SameTranslation dune m m' = (va : ℕ) → pt_resolve_page dune m' va ≡ pt_resolve_page dune m va

-- An address whose walk ends at an absent entry has no translation.
pub pt_resolve_page-absent :
    (dune : Dune) (m : Machine) (va level e : ℕ)
    → pt_walk dune m va 1 ≡ some (level, e)
    → flag_isset (m.mem e) pte_v ≡ false
    → pt_resolve_page dune m va ≡ some (0, 0)
unfolding pt_resolve_page
pt_resolve_page-absent dune m va level e walked absent = rw (walked, pt_resolve_page) (rw absent)

-- The translation depends on the walk and on the entry that it ends at.
pub pt_resolve_page_eq :
    (dune : Dune) (m m' : Machine) (va level e : ℕ)
    → pt_walk dune m va 1 ≡ some (level, e)
    → pt_walk dune m' va 1 ≡ some (level, e)
    → m'.mem e ≡ m.mem e
    → pt_resolve_page dune m' va ≡ pt_resolve_page dune m va
unfolding pt_resolve_page
pt_resolve_page_eq dune m m' va level e walked walked' same =
    rw (walked', pt_resolve_page) (rw (walked, pt_resolve_page) (rw same refl))

pub flag_isset-zero : (bit : ℕ) → flag_isset 0 bit ≡ false
unfolding flag_isset
flag_isset-zero bit = rw (zero-bit_and bit)

abbrev pub with_site : Sites → ℕ → ℕ × ℕ → Sites
with_site site pa place p = if p == pa then some place else site p

-- The state behind pt_map_page_create_level: `page` is cleared and hangs under `e`.
abbrev pub with_table : Machine → ℕ → ℕ → ℕ → Machine
with_table m page e flags = record m {
  mem = λ a. if a == e then entry_of page flags else cleared page 1 m.mem a;
  calls = m.calls + 1;
}

module _ {dune : Dune} (lay : IsLayout dune) {site : Sites} (m : Machine) (va k e flags : ℕ)
    (o : Absent dune site m va (suc k) e) (f : IsFlags flags) (got : dune.page_at m.calls ≢ 0) where
  abbrev pub page : ℕ
  page = dune.page_at m.calls

  abbrev pub m' : Machine
  m' = with_table m page e flags

  abbrev pub site' : Sites
  site' = with_site site page (suc k, region va (suc k))

  page-IsTablePage : IsTablePage dune page
  page-IsTablePage = record {
    aligned = lay.page_aligned m.calls;
    below = omega (arith, lay.page_low m.calls, lay.room, lay.stack_pa, lay.mmap_pa);
  }

  page-IsFrame : IsFrame page
  page-IsFrame = record {
    aligned = lay.page_aligned m.calls;
    fits = omega (arith, lay.page_low m.calls, lay.mmap_pa, lay.limit);
  }

  -- It is mapped at its own address.
  table_vaddr-page : table_vaddr dune page ≡ page
  unfolding table_vaddr
  table_vaddr-page = ground (arith, lay.page_low m.calls)

  unplaced : site page ≡ none
  unplaced = o.tree.fresh m.calls (omega arith) got

  placed_ne : {pa : ℕ} {place : ℕ × ℕ} → site pa ≡ some place → pa ≢ page
  placed_ne s eq = cc (unplaced, s, eq)

  -- The entries of the tables so far lie outside the new page.
  entry_outside :
      (pa j l x : ℕ)
      → site pa ≡ some (l, x)
      → j < 512
      → cleared page 1 m.mem (entry dune pa j) ≡ m.mem (entry dune pa j)
  unfolding cleared
  entry_outside pa j l x s h =
      let t = o.tree.page pa l x s in
      let apart : table_vaddr dune pa ≢ table_vaddr dune page =
        λ eq. placed_ne s (table_vaddr_injective lay t page-IsTablePage eq) in
      ground (
        arith,
        apart,
        table_vaddr-page,
        page-IsTablePage.aligned,
        table_vaddr_lem lay t,
        table_vaddr_lem lay page-IsTablePage,
      )

  change : Change dune site m m' e (suc k) (region va (suc k))
  change = record {
    table = o.found.table;
    x = region va (suc (suc k));
    i = index va (suc k);
    place = o.found.place;
    small = omega arith;
    here = o.found.here;
    numbered = region_split va (suc k);
    cr3 = refl;
    same = λ pa l y j s h ne. rw (ne→== _ _ ne) (entry_outside pa j l y s h);
  }

  new_entry : (j : ℕ) → j < 512 → m'.mem (entry dune page j) ≡ 0
  unfolding cleared
  new_entry j h =
      let t = o.tree.page o.found.table _ _ o.found.place in
      let ne : entry dune page j ≢ e = λ eq. placed_ne o.found.place (
        sym
          (entry_injective lay j (index va (suc k)) page-IsTablePage t h (omega arith)
            (eq ∙ o.found.here)).0) in
      rw (ne→== _ _ ne) (ground (arith, table_vaddr-page))

  filled : m'.mem e ≡ entry_of page flags
  filled = rw (eq→== e e refl)

  -- Behind the filled entry the walk goes on in the new table, and ends there.
  walk_on :
      (va' : ℕ)
      → region va' (suc k) ≡ region va (suc k)
      → pt_walk dune m' va' 1 ≡ some (suc k, entry dune page (index va' k))
  walk_on va' alike =
      let on =
        full_stops_not k (m'.mem e) (rw filled (entry_of-valid page flags))
          (rw filled (entry_of-ps page-IsFrame f)) in
      let frame : bit_and (m'.mem e) pte_frame ≡ page = rw filled (entry_of-frame page-IsFrame f) in
      let stop =
        full_stops_absent (suc k) (m'.mem (entry dune page (index va' k)))
          (rw (new_entry (index va' k) (omega arith)) (flag_isset-zero pte_v)) in
      let low = o.found.low in
      let hit = pt_walk-hit lay o.tree change va va' alike low o.walked in
      hit ∙ rw (on, frame, walk_step lay m' va' k page e page-IsTablePage (omega arith), stop)

  site'_old : {pa : ℕ} → pa ≢ page → site' pa ≡ site pa
  site'_old ne = rw (ne→== _ _ ne)

  site'_page : site' page ≡ some (suc k, region va (suc k))
  site'_page = rw (eq→== page page refl)

  -- The table under `e` has its place, and every other entry is as before.
  child' :
      (pa j x i : ℕ)
      → site' pa ≡ some (suc (suc j), x)
      → i < 512
      → flag_isset (m'.mem (entry dune pa i)) pte_v ≡ true
      → flag_isset (m'.mem (entry dune pa i)) pte_ps ≡ false
      → site' (bit_and (m'.mem (entry dune pa i)) pte_frame) ≡ some (suc j, x * 512 + i)
  child' pa j x i s h v ps = elim (ℕ_discrete pa page) [
    | yes new ↦
        let blank : m'.mem (entry dune pa i) ≡ 0 =
          ap (λ p. m'.mem (entry dune p i)) new ∙ new_entry i h in
        absurd (cc (v, ap (λ w. flag_isset w pte_v) blank, flag_isset-zero pte_v))
    | no old ↦ elim (ℕ_discrete (entry dune pa i) e) [
      | yes there ↦
          let s' : site pa ≡ some (suc (suc j), x) = sym (site'_old old) ∙ s in
          let t = o.tree.page pa (suc (suc j)) x s' in
          let t' = o.tree.page o.found.table _ _ o.found.place in
          let (same_table, same_index) =
            entry_injective lay i (index va (suc k)) t t' h (omega arith) (there ∙ o.found.here) in
          let places : ◌≡◌ {A = Option (ℕ × ℕ)} (some (suc (suc j), x))
              (some (suc (suc k), region va (suc (suc k)))) =
            sym s' ∙ ap site same_table ∙ o.found.place in
          let frame : bit_and (m'.mem (entry dune pa i)) pte_frame ≡ page =
            ap (λ a. bit_and (m'.mem a) pte_frame) there
            ∙ rw filled (entry_of-frame page-IsFrame f) in
          let number : region va (suc k) ≡ x * 512 + i =
            region_split va (suc k) ∙ ground (arith, places, same_index) in
          let level : k ≡ j = ground (arith, places) in
          ap site' frame ∙ site'_page ∙ ap₂ (λ a b. some (suc a, b)) level number
      | no other ↦
          let s' : site pa ≡ some (suc (suc j), x) = sym (site'_old old) ∙ s in
          let kept : m'.mem (entry dune pa i) ≡ m.mem (entry dune pa i) =
            change.same pa _ _ i s' h other in
          let below = o.tree.child pa j x i s' h (rw kept at v) (rw kept at ps) in
          ap (λ w. site' (bit_and w pte_frame)) kept ∙ site'_old (placed_ne below) ∙ below
    ]
  ]

  tree' : IsTree dune site' m'
  tree' = record {
    root = rw (ne→== _ _ (placed_ne o.tree.root)) o.tree.root;
    page = λ pa level x s. elim (ℕ_discrete pa page) [
      | yes new ↦ rw new page-IsTablePage
      | no old ↦ o.tree.page pa level x (sym (site'_old old) ∙ s)
    ];
    child = child';
    fresh = λ n h got'.
        let later : dune.page_at n ≢ page =
          λ eq. absurd (ground (arith, lay.page_once n m.calls got' eq)) in
        site'_old later ∙ o.tree.fresh n (omega arith) got';
  }

  pub same_translation : SameTranslation dune m m'
  same_translation va' = elim (ℕ_discrete (region va' (suc k)) (region va (suc k))) [
    | yes alike ↦
        pt_resolve_page-absent dune m' va' (suc k) _ (walk_on va' alike)
          (rw (new_entry (index va' k) (omega arith)) (flag_isset-zero pte_v))
        ∙ sym (
            pt_resolve_page-absent dune m va' _ e
              (pt_walk-alike lay o.tree o.found o.walked va' alike) o.absent)
    | no other ↦
        let (j, e', walked, found) = pt_walk-Found lay o.tree va' in
        pt_resolve_page_eq dune m m' va' (suc j) e' walked
          (pt_walk-miss lay o.tree change va' other ∙ walked)
          (Found-miss lay o.tree change va' other found)
  ]

  pub absent' : Absent dune site' m' va k (entry dune page (index va k))
  absent' =
      let empty : flag_isset (m'.mem (entry dune page (index va k))) pte_v ≡ false =
        rw (new_entry (index va k) (omega arith)) (flag_isset-zero pte_v) in
      record {
        tree = tree';
        walked = walk_on va refl;
        found = record {
          table = page;
          place = site'_page;
          here = refl;
          stop = full_stops_absent (suc k) _ empty;
          low = omega (arith, o.found.low);
        };
        absent = empty;
      }

  hang_table_lem :
      hang_table dune e va
        (suc k)
        flags
        page
        (record m { mem = cleared page 1 m.mem; calls = m.calls + 1 })
      ≡ ok (some (entry dune page (index va k))) m'
  unfolding hang_table
  hang_table_lem = rw (ne→== _ _ got) (
      rw (pt_paddr2vaddr-IsTablePage page-IsTablePage)
        (rw (entry_at_lem lay va k page-IsTablePage (omega (arith, o.found.low))) refl))

  pub create_level_runs :
      pt_map_page_create_level dune e va (suc k) flags m
      ≡ ok (some (entry dune page (index va k))) m'
  unfolding pt_map_page_create_level
  create_level_runs = rw (pp_zalloc-page dune m got) hang_table_lem
