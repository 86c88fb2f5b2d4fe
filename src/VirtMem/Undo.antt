-- ===== src/VirtMem/Undo.antt =====
-- The end of pt_map_region: what has been mapped is taken back where a page cannot be mapped.
use dangless_malloc.Prelude.{
  ℕ, zero, suc, ◌+◌, ◌-◌, ◌*◌, ◌%◌, ◌^◌, ◌≤◌, ◌<◌, ◌≡◌, ◌≢◌, refl, sym, ap, ◌∙◌, arith, add64, some,
  Run, ok, ℤ, pos, negsuc, and_then,
}
use native.Mathlib.Decide.{ℕ_discrete, dec_le, dec_lt}
use dangless_malloc.Page.{pgsize}
use dangless_malloc.Dune.{Dune, Machine}
use dangless_malloc.VirtMem.{pt_resolve_page, unmap_pages, pt_unmap_page}
use dangless_malloc.VirtMem.Entries.{region, region_add}
use dangless_malloc.VirtMem.Tree.{IsLayout, Sites, IsTree}
use dangless_malloc.VirtMem.Create.{SameTranslation}
use dangless_malloc.VirtMem.Unmap.{Unmapped, unmapped, no_table, pt_unmap_page-Unmapped}
use dangless_malloc.VirtMem.Region.{InPage, Filled, Emptied, level_one}

-- The outcome of the loop at fail_unmap from page `j` up to page `i`.
pub data UnmapRun (dune : Dune) (m : Machine) (va j i : ℕ) : Run Machine (Unit {0}) → Type 0 where
  taken :
      {site : Sites} {m' : Machine}
      → IsTree dune site m'
      → Emptied dune m m' va j i
      → UnmapRun dune m va j i (ok tt m')

unmap_pages-zero :
    (dune : Dune) (va offset : ℕ) (m : Machine) → unmap_pages dune zero va offset m ≡ ok tt m
unfolding unmap_pages
unmap_pages-zero dune va offset m = refl

unmap_pages-suc :
    (dune : Dune) (pages va offset : ℕ) (m : Machine) {at : ℕ}
    → add64 va offset ≡ at
    → unmap_pages dune (suc pages) va offset m
      ≡ and_then (pt_unmap_page dune at 1 m) (λ _. unmap_pages dune pages va (offset + pgsize))
unfolding unmap_pages
unmap_pages-suc dune pages va offset m e =
    ap (λ x. and_then (pt_unmap_page dune x 1 m) (λ _. unmap_pages dune pages va (offset + pgsize)))
      e

module _ {dune : Dune} (lay : IsLayout dune) (va i : ℕ) (va_aligned : va % pgsize ≡ 0)
    (va_fits : va + i * pgsize ≤ 2 ^ 48) where
  -- The pages from number `j` on translate at level 1.
  abbrev MappedFrom : ℕ → Machine → Type 0
  MappedFrom j m =
      (k : ℕ) → j ≤ k → k < i → (p : ℕ) × (pt_resolve_page dune m (va + k * pgsize) ≡ some (p, 1))

  Emptied-step :
      {m m' m'' : Machine} (j : ℕ)
      → j < i
      → ((va' : ℕ)
          → region va' 0 ≡ region (va + j * pgsize) 0
          → pt_resolve_page dune m' va' ≡ some (0, 0))
      → ((va' : ℕ)
          → region va' 0 ≢ region (va + j * pgsize) 0
          → pt_resolve_page dune m' va' ≡ pt_resolve_page dune m va')
      → Emptied dune m' m'' va (suc j) i
      → Emptied dune m m'' va j i
  Emptied-step j h here other f = record {
    inside = λ va' k low high e. elim (ℕ_discrete k j) [
      | yes same ↦
          f.outside va' (λ k' low' high' e'. absurd (omega arith))
          ∙ here va'
              (e ∙ ap (λ x. region va 0 + x) same ∙ sym (region_add va j va_aligned (omega arith)))
      | no differ ↦ f.inside va' k (omega arith) high e
    ];
    outside = λ va' out.
        f.outside va' (λ k low high e. out k (omega arith) high e)
        ∙ other va' (λ e. out j (omega arith) h (e ∙ region_add va j va_aligned (omega arith)));
  }

  UnmapRun-step :
      {m m' : Machine} {r : Run Machine (Unit {0})} (j : ℕ)
      → j < i
      → ((va' : ℕ)
          → region va' 0 ≡ region (va + j * pgsize) 0
          → pt_resolve_page dune m' va' ≡ some (0, 0))
      → ((va' : ℕ)
          → region va' 0 ≢ region (va + j * pgsize) 0
          → pt_resolve_page dune m' va' ≡ pt_resolve_page dune m va')
      → UnmapRun dune m' va (suc j) i r
      → UnmapRun dune m va j i r
  UnmapRun-step j h here other (taken t f) = taken t (Emptied-step j h here other f)

  -- One round, and the rounds that follow.
  UnmapRun-Unmapped :
      {r : Run Machine ℤ} {site : Sites} (pages j : ℕ) (m : Machine)
      → suc j + pages ≡ i
      → MappedFrom j m
      → ((site : Sites) (m' : Machine)
          → IsTree dune site m'
          → MappedFrom (suc j) m'
          → UnmapRun dune m' va (suc j) i (unmap_pages dune pages va (j * pgsize + pgsize) m'))
      → Unmapped dune site m (va + j * pgsize) r
      → UnmapRun dune m va j i (and_then r (λ _. unmap_pages dune pages va (j * pgsize + pgsize)))
  UnmapRun-Unmapped {site = site} pages j m e before rest (unmapped {m'} t here other) =
      UnmapRun-step j (omega arith) here other (
        rest site m' t (λ k low high.
          let (p, there) = before k (omega arith) high in
          (
            p,
            other (va + k * pgsize) (λ same. absurd (
                  omega (
                    arith,
                    same,
                    region_add va k va_aligned (omega arith),
                    region_add va j va_aligned (omega arith),
                  )))
                ∙ there,
          )))
  UnmapRun-Unmapped pages j m e before rest (no_table level entry walked ne) =
      let (p, there) = before j (omega arith) (omega arith) in
      absurd (ne (level_one dune m (va + j * pgsize) level entry p walked there))

  pub unmap_pages-UnmapRun :
      (pages j : ℕ) (site : Sites) (m : Machine)
      → j + pages ≡ i
      → IsTree dune site m
      → MappedFrom j m
      → UnmapRun dune m va j i (unmap_pages dune pages va (j * pgsize) m)
  unmap_pages-UnmapRun zero j site m e tree before = rw (unmap_pages-zero dune va (j * pgsize) m) (
      taken tree
        (record { inside = λ va' k low high e'. absurd (omega arith); outside = λ va' out. refl }))
  unmap_pages-UnmapRun (suc pages) j site m e tree before =
      let at : add64 va (j * pgsize) ≡ va + j * pgsize = omega arith in
      let off : j * pgsize + pgsize ≡ suc j * pgsize = omega arith in
      rw (unmap_pages-suc dune pages va (j * pgsize) m at) (
        UnmapRun-Unmapped pages j m (omega arith) before
          (λ site' m' t before'.
            rw off (unmap_pages-UnmapRun pages (suc j) site' m' (omega arith) t before'))
          (pt_unmap_page-Unmapped lay (va + j * pgsize) m tree))

-- The two outcomes of mapping a range of `n` pages.
pub data Placed (dune : Dune) (m : Machine) (pa va n : ℕ) : Run Machine ℤ → Type 0 where
  placed :
      {site : Sites} {m' : Machine}
      → IsTree dune site m'
      → Filled dune m m' pa va 0 n
      → Placed dune m pa va n (ok (pos 0) m')
  undone :
      {site : Sites} {m' : Machine} (call : ℕ)
      → dune.page_at call ≡ 0
      → m.calls ≤ call
      → call < m.calls + 3 * n
      → IsTree dune site m'
      → SameTranslation dune m m'
      → Placed dune m pa va n (ok (negsuc 0) m')

-- Mapped pages that have been taken back are as before.
pub SameTranslation-Emptied :
    (dune : Dune) {m m' m'' : Machine} (pa va i : ℕ)
    → ((va' k : ℕ) → k < i → InPage va k va' → pt_resolve_page dune m va' ≡ some (0, 0))
    → Filled dune m m' pa va 0 i
    → Emptied dune m' m'' va 0 i
    → SameTranslation dune m m''
SameTranslation-Emptied dune {m} {m'} {m''} pa va i free f e va' =
    elim (dec_le (region va 0) (region va' 0)) [
      | no below ↦ outside (λ k low high h. below (omega arith))
      | yes above ↦ elim (dec_lt (region va' 0 - region va 0) i) [
        | yes within ↦
            e.inside va' (region va' 0 - region va 0) (omega arith) within (omega arith)
            ∙ sym (free va' (region va' 0 - region va 0) within (omega arith))
        | no behind ↦ outside (λ k low high h. behind (omega arith))
      ]
    ]
  where
    outside :
        ((k : ℕ) → 0 ≤ k → k < i → ¬ InPage va k va')
        → pt_resolve_page dune m'' va' ≡ pt_resolve_page dune m va'
    outside out = e.outside va' out ∙ f.outside va' out
