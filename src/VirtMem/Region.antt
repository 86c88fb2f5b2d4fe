-- ===== src/VirtMem/Region.antt =====
-- pt_map_region: the loop that maps the pages of a range, and the one that takes them back.
use mathlib.Core.Option
use dangless_malloc.Prelude.{
  and_then, pure, is_negative, ℕ, zero, suc, ◌+◌, ◌-◌, ◌*◌, ◌%◌, ◌^◌, ◌≤◌, ◌<◌, ◌≡◌, ◌≢◌, refl, sym,
  ap, ap₂, ◌∙◌, arith, add64, Option, some, none, Run, ℤ, pos, negsuc, ok, Bool-cases, inl, inr,
  if◌then◌else◌,
}
use native.Mathlib.Decide.{ℕ_discrete}
use dangless_malloc.Page.{pgsize}
use dangless_malloc.Dune.{Dune, Machine}
use dangless_malloc.VirtMem.{
  flag_isset, pte_v, pt_walk, pt_resolve_page, frame_of, pt_map_page, map_pages,
}
use dangless_malloc.VirtMem.Entries.{region, region_add, IsFlags, IsFrame}
use dangless_malloc.VirtMem.Tree.{IsLayout, Sites, IsTree}
use dangless_malloc.VirtMem.Map.{Mapped, mapped, out_of_pages, pt_map_page-Mapped}

-- The address lies in page `k` of the range from `va` on, counted from 0.
abbrev pub InPage : ℕ → ℕ → ℕ → Type 0
InPage va k va' = region va' 0 ≡ region va 0 + k

-- The page of the address is mapped by an entry of level 1.
abbrev pub IsMapped : Dune → Machine → ℕ → Type 0
IsMapped dune m va = (pa : ℕ) × (pt_resolve_page dune m va ≡ some (pa, 1))

-- From `m` to `m'`, the pages from number `j` up to `i` have become those of `pa`.
pub record Filled (dune : Dune) (m m' : Machine) (pa va j i : ℕ) : Type 0 where
  pub inside :
      (va' k : ℕ)
      → j ≤ k
      → k < i
      → InPage va k va'
      → pt_resolve_page dune m' va' ≡ some (pa + k * pgsize, 1)
  pub outside :
      (va' : ℕ)
      → ((k : ℕ) → j ≤ k → k < i → ¬ InPage va k va')
      → pt_resolve_page dune m' va' ≡ pt_resolve_page dune m va'

-- From `m` to `m'`, the pages from number `j` up to `i` have lost their translation.
pub record Emptied (dune : Dune) (m m' : Machine) (va j i : ℕ) : Type 0 where
  pub inside :
      (va' k : ℕ) → j ≤ k → k < i → InPage va k va' → pt_resolve_page dune m' va' ≡ some (0, 0)
  pub outside :
      (va' : ℕ)
      → ((k : ℕ) → j ≤ k → k < i → ¬ InPage va k va')
      → pt_resolve_page dune m' va' ≡ pt_resolve_page dune m va'

-- The outcomes of the loop of pt_map_region from page `j` up to page `n`.
pub data MapRun (dune : Dune) (m : Machine) (pa va j n : ℕ) : Run Machine (ℤ × ℕ) → Type 0 where
  all :
      {site : Sites} {m' : Machine}
      → IsTree dune site m'
      → Filled dune m m' pa va j n
      → MapRun dune m pa va j n (ok (pos 0, n * pgsize) m')
  stopped :
      {site : Sites} {m' : Machine} (i call : ℕ)
      → j ≤ i
      → i < n
      → dune.page_at call ≡ 0
      → m.calls ≤ call
      → call < m.calls + 3 * (n - j)
      → IsTree dune site m'
      → Filled dune m m' pa va j i
      → MapRun dune m pa va j n (ok (negsuc 0, i * pgsize) m')

level_of_map :
    (level p : ℕ) (o : Option ℕ)
    → Option.map {B = ℕ × ℕ} (λ pa. (pa, level)) o ≡ some (p, 1)
    → level ≡ 1
level_of_map level p none h = cc
level_of_map level p (some pa) h = ground arith

map_pages-zero :
    (dune : Dune) (pa va offset flags : ℕ) (m : Machine)
    → map_pages dune zero pa va offset flags m ≡ ok (pos 0, offset) m
unfolding map_pages
map_pages-zero dune pa va offset flags m = refl

map_pages-suc :
    (dune : Dune) (pages pa va offset flags : ℕ) (m : Machine) {to at : ℕ}
    → add64 pa offset ≡ to
    → add64 va offset ≡ at
    → map_pages dune (suc pages) pa va offset flags m
      ≡ and_then (pt_map_page dune to at flags m) (λ result.
        if is_negative result
        then pure (result, offset)
        else map_pages dune pages pa va (offset + pgsize) flags)
unfolding map_pages
map_pages-suc dune pages pa va offset flags m e e' =
    ap₂
      (λ x y. and_then (pt_map_page dune x y flags m) (λ result.
        if is_negative result
        then pure (result, offset)
        else map_pages dune pages pa va (offset + pgsize) flags))
      e e'

-- An address that translates at level 1 is one whose walk ends there.
pub level_one :
    (dune : Dune) (m : Machine) (va level e p : ℕ)
    → pt_walk dune m va 1 ≡ some (level, e)
    → pt_resolve_page dune m va ≡ some (p, 1)
    → level ≡ 1
unfolding pt_resolve_page
level_one dune m va level e p walked h = elim (Bool-cases (flag_isset (m.mem e) pte_v)) [
  | inr absent ↦
      let here : pt_resolve_page dune m va ≡ some (0, 0) =
        rw (walked, pt_resolve_page) (rw absent refl) in
      absurd (ground (arith, sym here ∙ h))
  | inl present ↦
      let here : pt_resolve_page dune m va
          ≡ Option.map (λ pa. (pa, level)) (frame_of dune level (m.mem e)) =
        rw (walked, pt_resolve_page) (rw present refl) in
      level_of_map level p _ (sym here ∙ h)
]

module _ {dune : Dune} (lay : IsLayout dune) (pa va n : ℕ) (pa_aligned : pa % pgsize ≡ 0)
    (pa_fits : pa + n * pgsize ≤ 2 ^ 52) (va_aligned : va % pgsize ≡ 0)
    (va_fits : va + n * pgsize ≤ 2 ^ 48) where
  -- One page more, in front of the others.
  Filled-step :
      {m m' m'' : Machine} (j i : ℕ)
      → j < n
      → ((va' : ℕ)
          → region va' 0 ≡ region (va + j * pgsize) 0
          → pt_resolve_page dune m' va' ≡ some (pa + j * pgsize, 1))
      → ((va' : ℕ)
          → region va' 0 ≢ region (va + j * pgsize) 0
          → pt_resolve_page dune m' va' ≡ pt_resolve_page dune m va')
      → Filled dune m' m'' pa va (suc j) i
      → j < i
      → Filled dune m m'' pa va j i
  Filled-step {m} {m'} {m''} j i h here other f lt = record {
    inside = λ va' k low high e. elim (ℕ_discrete k j) [
      | yes same ↦
          f.outside va' (λ k' low' high' e'. absurd (omega arith))
          ∙ here va' (
              sym (
                region_add va j va_aligned (omega arith)
                ∙ ap (λ x. region va 0 + x) (sym same)
                ∙ sym e))
          ∙ ap (λ x. some (pa + x * pgsize, 1)) (sym same)
      | no differ ↦ f.inside va' k (omega arith) high e
    ];
    outside = λ va' out.
        f.outside va' (λ k low high e. out k (omega arith) high e)
        ∙ other va' (λ e. out j (omega arith) lt (e ∙ region_add va j va_aligned (omega arith)));
  }

  MapRun-step :
      {m m' : Machine} {r : Run Machine (ℤ × ℕ)} (j : ℕ)
      → j < n
      → ((va' : ℕ)
          → region va' 0 ≡ region (va + j * pgsize) 0
          → pt_resolve_page dune m' va' ≡ some (pa + j * pgsize, 1))
      → ((va' : ℕ)
          → region va' 0 ≢ region (va + j * pgsize) 0
          → pt_resolve_page dune m' va' ≡ pt_resolve_page dune m va')
      → m.calls ≤ m'.calls
      → m'.calls ≤ m.calls + 3
      → MapRun dune m' pa va (suc j) n r
      → MapRun dune m pa va j n r
  MapRun-step j h here other low' high' (all t f) = all t (Filled-step j n h here other f h)
  MapRun-step j h here other low' high' (stopped i call low high null first last t f) =
      stopped i call (omega arith) high null (omega arith) (omega arith) t
        (Filled-step j i h here other f (omega arith))

  module _ (flags : ℕ) (fl : IsFlags flags) where
    -- One round, and the rounds that follow.
    MapRun-Mapped :
        {r : Run Machine ℤ} (pages j : ℕ) (m : Machine)
        → suc j + pages ≡ n
        → ((k : ℕ) → j ≤ k → k < n → pt_resolve_page dune m (va + k * pgsize) ≡ some (0, 0))
        → ((site : Sites) (m' : Machine)
            → IsTree dune site m'
            → ((k : ℕ)
                → suc j ≤ k
                → k < n
                → pt_resolve_page dune m' (va + k * pgsize) ≡ some (0, 0))
            → MapRun dune m' pa va
                (suc j)
                n
                (map_pages dune pages pa va (j * pgsize + pgsize) flags m'))
        → Mapped dune m (pa + j * pgsize) (va + j * pgsize) r
        → MapRun dune m pa va j n (
            and_then r λ result.
              if is_negative result
              then pure (result, j * pgsize)
              else map_pages dune pages pa va (j * pgsize + pgsize) flags)
    MapRun-Mapped pages j m e free rest (mapped {site} {m'} t here other first last) =
        MapRun-step j (omega arith) here other first last (
          rest site m' t (λ k low high.
            other (va + k * pgsize) (λ same. absurd (
              omega (
                arith,
                same,
                region_add va k va_aligned (omega arith),
                region_add va j va_aligned (omega arith),
              )))
            ∙ free k (omega arith) high))
    MapRun-Mapped pages j m e free rest (out_of_pages call h null t same) =
        stopped j (m.calls + call) (omega arith) (omega arith) null (omega arith) (omega arith) t
          (record {
            inside = λ va' k low high e'. absurd (omega arith);
            outside = λ va' out. same va';
          })

    pub map_pages-MapRun :
        (pages j : ℕ) (site : Sites) (m : Machine)
        → j + pages ≡ n
        → IsTree dune site m
        → ((k : ℕ) → j ≤ k → k < n → pt_resolve_page dune m (va + k * pgsize) ≡ some (0, 0))
        → MapRun dune m pa va j n (map_pages dune pages pa va (j * pgsize) flags m)
    map_pages-MapRun zero j site m e tree free =
        let same : n ≡ j = omega arith in
        rw (same, map_pages-zero dune pa va (j * pgsize) flags m)
          (all tree (record {
            inside = λ va' k low high e'. absurd (omega arith);
            outside = λ va' out. refl;
          }))
    map_pages-MapRun (suc pages) j site m e tree free =
        let to : add64 pa (j * pgsize) ≡ pa + j * pgsize = omega arith in
        let at : add64 va (j * pgsize) ≡ va + j * pgsize = omega arith in
        let off : j * pgsize + pgsize ≡ suc j * pgsize = omega arith in
        let frame : IsFrame (pa + j * pgsize) = record {
          aligned = omega arith;
          fits = omega arith;
        } in
        rw (map_pages-suc dune pages pa va (j * pgsize) flags m to at) (
          MapRun-Mapped pages j m (omega arith) free
            (λ site' m' t free'.
              rw off (map_pages-MapRun pages (suc j) site' m' (omega arith) t free'))
            (pt_map_page-Mapped lay (pa + j * pgsize) (va + j * pgsize) flags frame (omega arith) fl
              site m tree (free j (omega arith) (omega arith))))
