-- ===== src/VirtualRemap/Session/Resize.antt =====
-- The memory behind an alias has got another size at its place, on no more pages than before.
use dangless_malloc.Prelude.{
  ℕ, ◌+◌, ◌-◌, ◌*◌, ◌%◌, ◌≤◌, ◌<◌, ◌≡◌, ◌≢◌, ◌==◌, refl, sym, ap, subst, ◌∙◌, arith, some,
  if◌then◌else◌, inl, inr, Bool-cases, word_size, add64,
}
use native.Mathlib.Decide.{dec_lt}
use dangless_malloc.Page.{pgsize, page_base, num_spanned_pages, num_spanned_pages_bounds}
use dangless_malloc.Dune.{Dune, Machine}
use dangless_malloc.VirtMem.{pt_resolve_page, pt_resolve}
use dangless_malloc.VirtMem.Entries.{region, region_at}
use dangless_malloc.VirtMem.Region.{IsMapped}
use dangless_malloc.VirtMem.Tree.{IsLayout, Sites}
use dangless_malloc.VirtualRemap.{Process}
use dangless_malloc.VirtualRemap.Ready.{IsReady, get_page_offset_lem, resolve_alike}
use dangless_malloc.VirtualRemap.Alias.{IsBacked}
use dangless_malloc.VirtualRemap.Session.{
  Alias, npages_of, resize, tail_of, InAlias, Reserved, Holds,
}

num_pages_aligned :
    (q n : ℕ)
    → q % pgsize ≡ 0
    → q + n * pgsize + pgsize ≤ word_size
    → num_spanned_pages q (n * pgsize) ≡ n
unfolding num_spanned_pages
num_pages_aligned q n aligned fits = omega arith

-- A byte of a small page, from its frame.
pt_resolve-frame :
    (dune : Dune) (m : Machine) (p frame : ℕ)
    → pt_resolve_page dune m p ≡ some (frame, 1)
    → pt_resolve dune m p ≡ some (if frame == 0 then 0 else add64 frame (p % pgsize))
unfolding pt_resolve
pt_resolve-frame dune m p frame page = rw (page, pt_resolve) (rw (get_page_offset_lem p) refl)

-- Where one byte of a small page is translated, so are those behind it.
pt_resolve-behind :
    (dune : Dune) (m : Machine) (p i pa frame : ℕ)
    → pt_resolve_page dune m p ≡ some (frame, 1)
    → pt_resolve_page dune m (p + i) ≡ some (frame, 1)
    → pt_resolve dune m p ≡ some pa
    → pa ≢ 0
    → pa + i < word_size
    → p % pgsize + i < pgsize
    → pt_resolve dune m (p + i) ≡ some (pa + i)
pt_resolve-behind dune m p i pa frame page page' at not_null fits same =
    let sum : (if frame == 0 then 0 else add64 frame (p % pgsize)) ≡ pa =
      cc (sym (pt_resolve-frame dune m p frame page) ∙ at) in
    elim (Bool-cases (frame == 0)) [
      | inl null ↦ absurd (not_null (sym sum ∙ (rw null refl)))
      | inr some_frame ↦
          let sum' : add64 frame (p % pgsize) ≡ pa = rw some_frame at sum in
          pt_resolve-frame dune m (p + i) frame page'
          ∙ (rw some_frame (ap (λ x. some x) (omega (arith, sum'))))
    ]

module _ {dune : Dune} (lay : IsLayout dune) {site : Sites} {s : Process}
    (ready : IsReady dune site s) (x : Alias) (size : ℕ) (h : Holds dune s x)
    (backed : IsBacked dune x.ptr size) (no_more : num_spanned_pages x.ptr size ≤ npages_of x) where
  pub Reserved-resize : Reserved s (resize x size)
  Reserved-resize = record {
    fits = omega (arith, h.reserved.fits);
    unowned = λ a at. h.reserved.unowned a (at.0, omega (arith, at.1));
  }

  -- A byte of a page has the frame of the page.
  frame_at :
      (a k : ℕ) (lt : k < npages_of x)
      → page_base x.out + k * pgsize ≤ a
      → a < page_base x.out + k * pgsize + pgsize
      → pt_resolve_page dune s.machine a ≡ some ((h.mapped k lt).0, 1)
  frame_at a k lt low high =
      let va : ℕ = page_base x.out in
      let b : ℕ = a - va in
      let at = λ (c : ℕ) (inside : c < npages_of x * pgsize).
        region_at va (npages_of x) c (omega arith) h.reserved.fits inside in
      let alike : region a 0 ≡ region (va + k * pgsize) 0 =
        ap (λ y. region y 0) (omega (arith, low))
        ∙ at b (omega (arith, high))
        ∙ ap (λ y. region va 0 + y) (omega (arith, low, high))
        ∙ sym (at (k * pgsize) (omega arith)) in
      resolve_alike lay ready.tree (va + k * pgsize) a alike ∙ (h.mapped k lt).1

  maps_more :
      (i : ℕ)
      → i < size
      → ¬ (i < x.size)
      → pt_resolve dune s.machine (x.out + i) ≡ some (dune.va_to_pa x.ptr + i)
  maps_more i lt more =
      let bounds = num_spanned_pages_bounds x.ptr size backed.some_bytes backed.fits in
      let bounds' = num_spanned_pages_bounds x.ptr x.size h.backed.some_bytes h.backed.fits in
      let last : npages_of x - 1 < npages_of x = omega (arith, bounds') in
      let j : ℕ = x.size - 1 in
      let byte : x.out + i ≡ x.out + j + (i - j) = omega (arith, h.backed.some_bytes) in
      let sum : dune.va_to_pa x.ptr + j + (i - j) ≡ dune.va_to_pa x.ptr + i =
        omega (arith, h.backed.some_bytes) in
      ap (λ y. pt_resolve dune s.machine y) byte
      ∙ pt_resolve-behind dune s.machine (x.out + j) (i - j) (dune.va_to_pa x.ptr + j)
          (h.mapped (npages_of x - 1) last).0
          (frame_at (x.out + j) (npages_of x - 1) last
            (omega (arith, h.offset, h.backed.some_bytes)) (omega (arith, h.offset)))
          (frame_at (x.out + j + (i - j)) (npages_of x - 1) last
            (omega (arith, h.offset, h.backed.some_bytes)) (omega (arith, h.offset, no_more)))
          (h.maps j (omega (arith, h.backed.some_bytes)))
          (λ e. absurd (omega (arith, h.backed.above, e))) (omega (arith, backed.below))
          (omega (arith, h.offset, no_more, h.backed.some_bytes))
      ∙ ap (λ y. some y) sum

  pub Holds-resize : Holds dune s (resize x size)
  Holds-resize = record {
    reserved = Reserved-resize;
    backed = backed;
    not_null = h.not_null;
    offset = h.offset;
    inside = λ i lt.
        let bounds = num_spanned_pages_bounds x.ptr size backed.some_bytes backed.fits in
        (omega arith, omega (arith, h.offset, bounds));
    mapped = λ k lt. h.mapped k (omega arith);
    maps =
        λ i lt. elim (dec_lt i x.size) [ yes old ↦ h.maps i old | no more ↦ maps_more i lt more ];
  }

-- The pages that the memory no longer takes.
module _ {dune : Dune} (x : Alias) (size : ℕ) (old : IsBacked dune x.ptr x.size)
    (backed : IsBacked dune x.ptr size) (fewer : num_spanned_pages x.ptr size < npages_of x) where
  abbrev tail : Alias
  tail = tail_of x size

  pub npages_of-tail_of : npages_of tail ≡ npages_of x - num_spanned_pages x.ptr size
  npages_of-tail_of =
      let bounds = num_spanned_pages_bounds x.ptr x.size old.some_bytes old.fits in
      num_pages_aligned (page_base x.ptr + num_spanned_pages x.ptr size * pgsize)
        (npages_of x - num_spanned_pages x.ptr size) (omega arith) (omega (arith, old.fits))

  pub InAlias-tail_of : (a : ℕ) → InAlias tail a → InAlias x a
  InAlias-tail_of a at = let e = npages_of-tail_of in (omega (arith, at.0), omega (arith, at.1, e))

  pub Reserved-tail_of : {s : Process} → Reserved s x → Reserved s tail
  Reserved-tail_of r = record {
    fits = omega (arith, r.fits, npages_of-tail_of);
    unowned = λ a at. r.unowned a (InAlias-tail_of a at);
  }

  pub tail_of-IsMapped :
      {s : Process}
      → Holds dune s x
      → (k : ℕ) → k < npages_of tail
      → IsMapped dune s.machine (page_base tail.out + k * pgsize)
  tail_of-IsMapped {s} h k lt =
      subst (λ a. IsMapped dune s.machine a) (omega arith)
        (h.mapped (num_spanned_pages x.ptr size + k) (omega (arith, npages_of-tail_of)))
