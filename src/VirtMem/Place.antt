-- ===== src/VirtMem/Place.antt =====
-- pt_map_region as a whole: the range is mapped, or nothing has changed.
use dangless_malloc.Prelude.{
  ℕ, ◌+◌, ◌*◌, ◌/◌, ◌%◌, ◌^◌, ◌≤◌, ◌<◌, ◌≡◌, refl, arith, some, Run, Cmd, ℤ, pos, negsuc, and_then,
  pure, is_negative, eq→==, if◌then◌else◌, ◌>>◌,
}
use dangless_malloc.Page.{pgsize}
use dangless_malloc.Dune.{Dune, Machine}
use dangless_malloc.VirtMem.{pt_resolve_page, map_pages, unmap_pages, pt_map_region}
use dangless_malloc.VirtMem.Entries.{region_add, IsFlags}
use dangless_malloc.VirtMem.Tree.{IsLayout, Sites, IsTree}
use dangless_malloc.VirtMem.Region.{InPage, Filled, MapRun, all, stopped, map_pages-MapRun}
use dangless_malloc.VirtMem.Undo.{
  UnmapRun, taken, unmap_pages-UnmapRun, Placed, placed, undone, SameTranslation-Emptied,
}

-- What pt_map_region does with the result of its loop.
abbrev region_end : Dune → ℕ → ℤ × ℕ → Cmd Machine ℤ
region_end dune va (result, max_offset) =
    if is_negative result
    then (do unmap_pages dune (max_offset / pgsize) va 0; pure (negsuc 0))
    else pure (pos 0)

pt_map_region_lem :
    (dune : Dune) (pa va n flags : ℕ) (m : Machine)
    → pa % pgsize ≡ 0
    → va % pgsize ≡ 0
    → pt_map_region dune pa va (n * pgsize) flags m
      ≡ and_then (map_pages dune n pa va (0 * pgsize) flags m) (region_end dune va)
unfolding pt_map_region
pt_map_region_lem dune pa va n flags m e e' =
    let whole : n * pgsize % pgsize ≡ 0 = omega arith in
    let count : n * pgsize / pgsize ≡ n = omega arith in
    rw (eq→== _ _ e, eq→== _ _ e', eq→== _ _ whole, count) refl

module _ {dune : Dune} (lay : IsLayout dune) (pa va n flags : ℕ) (pa_aligned : pa % pgsize ≡ 0)
    (pa_fits : pa + n * pgsize ≤ 2 ^ 52) (va_aligned : va % pgsize ≡ 0)
    (va_fits : va + n * pgsize ≤ 2 ^ 48) (fl : IsFlags flags) where
  abbrev pub IsFree : Machine → Type 0
  IsFree m = (va' k : ℕ) → k < n → InPage va k va' → pt_resolve_page dune m va' ≡ some (0, 0)

  Placed-UnmapRun :
      {m m' : Machine} {r : Run Machine (Unit {0})} (i call : ℕ)
      → i < n
      → IsFree m
      → dune.page_at call ≡ 0
      → m.calls ≤ call
      → call < m.calls + 3 * n
      → Filled dune m m' pa va 0 i
      → UnmapRun dune m' va 0 i r
      → Placed dune m pa va n (and_then r (λ _. pure (negsuc 0)))
  Placed-UnmapRun i call h free null first last f (taken t e) =
      undone call null first last t
        (SameTranslation-Emptied dune pa va i (λ va' k low. free va' k (omega arith)) f e)

  Placed-MapRun :
      {r : Run Machine (ℤ × ℕ)} (m : Machine)
      → IsFree m
      → MapRun dune m pa va 0 n r
      → Placed dune m pa va n (and_then r (region_end dune va))
  Placed-MapRun m free (all t f) = placed t f
  Placed-MapRun m free (stopped {site} {m'} i call low high null first last t f) =
      let count : i * pgsize / pgsize ≡ i = omega arith in
      rw count (
        Placed-UnmapRun i call high free null first (omega arith) f (
          unmap_pages-UnmapRun lay va i va_aligned (omega arith) i 0 site m' (omega arith) t
            (λ k low' high'. (
              pa + k * pgsize,
              f.inside (va + k * pgsize) k low' high' (region_add va k va_aligned (omega arith)),
            ))))

  -- With the layout of physical memory that platform/dune assumes and well-formed page tables,
  -- for n whole pages pa that end below 2^52 and n pages va that end below 2^48 and have no
  -- translation, with flags that touch neither the frame bits nor PTE_PS: pt_map_region does
  -- not fault and leaves well-formed tables. It returns 0 and page k of va translates to page
  -- k of pa at level 1, all other addresses as before; or one of the next 3n calls of the page
  -- allocator failed, it returns -1, and the pages mapped so far have been unmapped, so that
  -- every address translates as before.
  pub pt_map_region-Placed :
      (site : Sites) (m : Machine)
      → IsTree dune site m
      → IsFree m
      → Placed dune m pa va n (pt_map_region dune pa va (n * pgsize) flags m)
  pt_map_region-Placed site m tree free =
      rw (pt_map_region_lem dune pa va n flags m pa_aligned va_aligned) (
        Placed-MapRun m free (
          map_pages-MapRun lay pa va n pa_aligned pa_fits va_aligned va_fits flags fl n 0 site m
            (omega arith) tree
            (λ k low high.
              free (va + k * pgsize) k high (region_add va k va_aligned (omega arith)))))
