-- ===== src/VirtualRemap/Alias.antt =====
-- vremap_map: the returned addresses are an alias of the physical memory behind the given ones.
use dangless_malloc.Prelude.{
  Cmd, and_then, is_negative, ◌>>◌, ℕ, ◌+◌, ◌*◌, ◌/◌, ◌%◌, ◌^◌, ◌≤◌, ◌<◌, ◌≡◌, ◌≢◌, ◌==◌, refl, sym,
  subst, ap, ◌∙◌, arith, true, false, Option, some, none, word_size, Run, ok, ℤ, pos, bit_or, add64,
  mul64, if◌then◌else◌, eq→==, ne→==, inl, inr,
}
use dangless_malloc.Page.{
  pgsize, page_base, round_down, round_up, num_spanned_pages, num_spanned_pages_offset,
  num_spanned_pages_bounds,
}
use dangless_malloc.FreeList.{FreeList, freelist_alloc, freelist_free}
use dangless_malloc.FreeList.Take.{Short}
use dangless_malloc.FreeList.Order.{covers}
use dangless_malloc.FreeList.Contract.{
  owns, Allocated, freelist_alloc-cases, freelist_alloc-Short, freelist_free-freelist_alloc,
}
use dangless_malloc.Dune.{Dune, Machine}
use dangless_malloc.VirtMem.{pt_resolve_page, pt_resolve, get_page_offset, pte_w, pte_nx}
use dangless_malloc.VirtMem.Entries.{region, region_at, region_add, region_range}
use dangless_malloc.VirtMem.Tree.{IsLayout, Sites, IsTree}
use dangless_malloc.VirtMem.Create.{SameTranslation}
use dangless_malloc.VirtMem.Region.{IsMapped, Filled}
use dangless_malloc.VirtMem.Undo.{Placed, placed, undone}
use dangless_malloc.VirtMem.Place.{pt_map_region-Placed}
use dangless_malloc.VirtualRemap.{
  Process, in_kernel_mode, vrem_ok, evrem_no_vm, evrem_virt_map, on_machine, return_code, vp_free,
  remap_pages, vremap_map,
}
use dangless_malloc.VirtualRemap.Ready.{
  IsReady, remap-IsFlags, get_page_offset_lem, alloc_not_null, alloc_low, alloc_free, still_owned,
}

-- What vremap_map relies on for the memory at `ptr`: dune_va_to_pa keeps the offset in the page,
-- and the physical pages lie above the first and below 2 ^ 52.
pub record IsBacked (dune : Dune) (ptr size : ℕ) : Type 0 where
  pub not_null : ptr ≢ 0
  pub some_bytes : 0 < size
  pub fits : ptr + size + pgsize < word_size
  pub offset : dune.va_to_pa ptr % pgsize ≡ ptr % pgsize
  pub above : pgsize ≤ dune.va_to_pa ptr
  pub below : dune.va_to_pa ptr + size + pgsize ≤ 2 ^ 52

-- The three outcomes of vremap_map.
pub data Remapped (dune : Dune) (site : Sites) (s : Process) (ptr size : ℕ)
    : Run Process (ℤ × Option ℕ) → Type 0 where
  alias :
      {site' : Sites} {s' : Process} (out : ℕ)
      → IsReady dune site' s'
      → out % pgsize ≡ ptr % pgsize
      → ((i : ℕ) → i < size → pt_resolve dune s'.machine (out + i) ≡ some (dune.va_to_pa ptr + i))
      → page_base out + num_spanned_pages ptr size * pgsize ≤ 2 ^ 48
      → ((k : ℕ)
          → k < num_spanned_pages ptr size
          → IsMapped dune s'.machine (page_base out + k * pgsize))
      → ((a : ℕ)
          → page_base out ≤ a
          → a < page_base out + num_spanned_pages ptr size * pgsize
          → (owns s.list a ≡ true) × (owns s'.list a ≡ false))
      → ((a : ℕ)
          → a < 2 ^ 48
          → owns s.list a ≡ false
          → pt_resolve_page dune s'.machine a ≡ pt_resolve_page dune s.machine a)
      → ((a : ℕ) → owns s'.list a ≡ true → owns s.list a ≡ true)
      → Remapped dune site s ptr size (ok (vrem_ok, some out) s')
  no_vm :
      {s' : Process}
      → Short (num_spanned_pages ptr size) s.list.items
      → IsReady dune site s'
      → s'.machine ≡ s.machine
      → s'.list.items ≡ s.list.items
      → Remapped dune site s ptr size (ok (evrem_no_vm, none) s')
  virt_map :
      {site' : Sites} {s' : Process} (call : ℕ)
      → dune.page_at call ≡ 0
      → s.machine.calls ≤ call
      → call < s.machine.calls + 3 * num_spanned_pages ptr size
      → IsReady dune site' s'
      → SameTranslation dune s.machine s'.machine
      → s'.list.items ≡ s.list.items
      → Remapped dune site s ptr size (ok (evrem_virt_map, none) s')

pt_resolve_small :
    (dune : Dune) (m : Machine) (p pa : ℕ)
    → pt_resolve_page dune m p ≡ some (pa, 1)
    → pa ≢ 0
    → pa + pgsize < word_size
    → pt_resolve dune m p ≡ some (pa + p % pgsize)
unfolding pt_resolve
pt_resolve_small dune m p pa h ne fits =
    let exact : add64 pa (get_page_offset p 1) ≡ pa + p % pgsize =
      omega (arith, get_page_offset_lem p) in
    rw (h, pt_resolve) (rw (ne→== _ _ ne, exact) refl)

vp_free_lem :
    (s : Process) (va npages : ℕ) {l' : FreeList}
    → freelist_free true va npages s.list ≡ ok (pos 0) l'
    → vp_free true va npages s ≡ ok (pos 0) (record s { list = l' })
unfolding vp_free
vp_free_lem s va npages run = rw (run, vp_free) refl

-- A state with the same spans and the same translations is as ready as it was.
IsReady-again :
    {dune : Dune} {site site' : Sites} {s s' : Process}
    → IsReady dune site s
    → s'.cs ≡ s.cs
    → s'.list.items ≡ s.list.items
    → IsTree dune site' s'.machine
    → SameTranslation dune s.machine s'.machine
    → IsReady dune site' s'
unfolding owns in_kernel_mode
IsReady-again r c e t same = record {
  valid = record { sorted = rw e r.valid.sorted };
  tree = t;
  kernel = rw c r.kernel;
  no_null = rw e r.no_null;
  low = λ a h. r.low a (ap (λ x. covers x a) (sym e) ∙ h);
  free = λ a h. same a ∙ r.free a (ap (λ x. covers x a) (sym e) ∙ h);
}

module _ {dune : Dune} (lay : IsLayout dune) {site : Sites} {s : Process}
    (ready : IsReady dune site s) (ptr size : ℕ) (backed : IsBacked dune ptr size) where
  abbrev npages : ℕ
  npages = num_spanned_pages ptr size

  abbrev pa_page : ℕ
  pa_page = round_down (dune.va_to_pa ptr) pgsize

  pa_page_lem : pa_page + ptr % pgsize ≡ dune.va_to_pa ptr
  unfolding round_down
  pa_page_lem = omega (arith, backed.offset)

  pa_page_aligned : pa_page % pgsize ≡ 0
  unfolding round_down
  pa_page_aligned = omega arith

  pa_page_fits : pa_page + npages * pgsize ≤ 2 ^ 52
  pa_page_fits = omega (
    arith,
    pa_page_lem,
    backed.below,
    num_spanned_pages_bounds ptr size backed.some_bytes backed.fits,
  )

  module _ {va : ℕ} {l : FreeList} (w : Allocated npages s.list va l) where
    some_pages : 0 < npages
    some_pages = (num_spanned_pages_bounds ptr size backed.some_bytes backed.fits).0

    va_fits : va + npages * pgsize ≤ 2 ^ 48
    va_fits = alloc_low lay ready some_pages w

    -- Byte `i` of the alias.
    alias_at :
        (m : Machine) (i : ℕ)
        → Filled dune s.machine m pa_page va 0 npages
        → i < size
        → pt_resolve dune m (va + ptr % pgsize + i) ≡ some (dune.va_to_pa ptr + i)
    alias_at m i f h =
        let b : ℕ = ptr % pgsize + i in
        let bounds = num_spanned_pages_bounds ptr size backed.some_bytes backed.fits in
        let here : region (va + ptr % pgsize + i) 0 ≡ region va 0 + b / pgsize =
          ap (λ x. region x 0) (omega arith)
          ∙ region_at va npages b w.pages.aligned va_fits (omega arith) in
        let page = f.inside (va + ptr % pgsize + i) (b / pgsize) (omega arith) (omega arith) here in
        pt_resolve_small dune m _ _ page (λ e. absurd (omega (arith, pa_page_lem, backed.above)))
          (omega (arith, pa_page_fits))
        ∙ ap (λ x. some x) (omega (arith, pa_page_lem, w.pages.aligned))

    alias-IsReady :
        {site' : Sites} {m : Machine} (code : ℤ)
        → IsTree dune site' m
        → Filled dune s.machine m pa_page va 0 npages
        → IsReady dune site' (record s { list = l; machine = m; last_result = code })
    unfolding in_kernel_mode owns
    alias-IsReady code t f = record {
      valid = w.valid;
      tree = t;
      kernel = ready.kernel;
      no_null = ground (arith, w.pages.left 0, ready.no_null);
      low = λ a h. ready.low a (still_owned lay ready some_pages w a h).0;
      free = λ a h.
          let (before, apart) = still_owned lay ready some_pages w a h in
          f.outside a (λ k low high. apart k high) ∙ ready.free a before;
    }

    alias_page : page_base (va + ptr % pgsize) ≡ va
    alias_page = omega (arith, w.pages.aligned)

    alias_owned :
        (a : ℕ)
        → page_base (va + ptr % pgsize) ≤ a
        → a < page_base (va + ptr % pgsize) + npages * pgsize
        → (owns s.list a ≡ true) × (owns l a ≡ false)
    unfolding owns
    alias_owned a low high =
        let base = alias_page in (w.pages.owned a (ground arith), ground (arith, w.pages.left a))

    alias-IsMapped :
        {m : Machine} (k : ℕ)
        → Filled dune s.machine m pa_page va 0 npages
        → k < npages
        → IsMapped dune m (page_base (va + ptr % pgsize) + k * pgsize)
    alias-IsMapped {m} k f h =
        subst (λ b. IsMapped dune m (b + k * pgsize)) (sym alias_page)
          (
            pa_page + k * pgsize,
            f.inside (va + k * pgsize) k (omega arith) h
                (region_add va k w.pages.aligned (omega (arith, va_fits))),
          )

    -- Outside the pages that were taken nothing is translated differently.
    alias_others :
        {m : Machine} (a : ℕ)
        → Filled dune s.machine m pa_page va 0 npages
        → a < 2 ^ 48
        → owns s.list a ≡ false
        → pt_resolve_page dune m a ≡ pt_resolve_page dune s.machine a
    unfolding owns
    alias_others a f h un = f.outside a (λ k low high e.
        let (above, below) = region_range va npages k a w.pages.aligned va_fits h high e in
        absurd (ground (arith, un, w.pages.owned a)))

    abbrev after_map : ℤ → Cmd Process (ℤ × Option ℕ)
    after_map result =
        if is_negative result
        then (do vp_free true va npages; return_code evrem_virt_map none)
        else return_code vrem_ok (some (va + ptr % pgsize))

    Remapped-Placed :
        {r : Run Machine ℤ} (l' : FreeList)
        → freelist_free true va npages l ≡ ok (pos 0) l'
        → l'.items ≡ s.list.items
        → Placed dune s.machine pa_page va npages r
        → Remapped dune site s ptr size (and_then (on_machine (record s { list = l }) r) after_map)
    unfolding on_machine return_code
    Remapped-Placed l' run e (placed {m'} t f) =
        alias (va + ptr % pgsize) (alias-IsReady vrem_ok t f) (omega (arith, w.pages.aligned))
          (λ i h. alias_at m' i f h) (omega (arith, alias_page, va_fits))
          (λ k h. alias-IsMapped k f h) alias_owned (λ a h un. alias_others a f h un)
          (λ a h. (still_owned lay ready some_pages w a h).0)
    Remapped-Placed l' run e (undone {m'} call null first last t same) =
        rw (vp_free_lem (record s { list = l; machine = m' }) va npages run)
          (virt_map call null first last (IsReady-again ready refl e t same) same e)

    remap_pages-Remapped :
        (l' : FreeList)
        → freelist_free true va npages l ≡ ok (pos 0) l'
        → l'.items ≡ s.list.items
        → Remapped dune site s ptr size (
            remap_pages dune true pa_page va npages (get_page_offset ptr 1) (record s { list = l }))
    unfolding remap_pages
    remap_pages-Remapped l' run e =
        let bytes : mul64 npages pgsize ≡ npages * pgsize = omega (arith, va_fits) in
        let out : add64 va (get_page_offset ptr 1) ≡ va + ptr % pgsize =
          omega (arith, va_fits, get_page_offset_lem ptr) in
        rw (bytes, out)
          (Remapped-Placed l' run e (
            pt_map_region-Placed lay pa_page va npages (bit_or pte_w pte_nx) pa_page_aligned
              pa_page_fits w.pages.aligned va_fits remap-IsFlags site s.machine ready.tree
              (alloc_free lay ready some_pages w)))

  entry_asserts :
      num_spanned_pages ptr size ≡ round_up (add64 (get_page_offset ptr 1) size) pgsize / pgsize
  entry_asserts =
      let sum : add64 (get_page_offset ptr 1) size ≡ ptr % pgsize + size =
        omega (arith, get_page_offset_lem ptr, backed.fits) in
      num_spanned_pages_offset ptr size backed.some_bytes backed.fits
      ∙ ap (λ x. round_up x pgsize / pgsize) (sym sum)

  -- `vremap_map` once its assertions have held.
  abbrev remap_body : ℕ × FreeList → Run Process (ℤ × Option ℕ)
  remap_body (va, l) =
      (if va == 0
          then return_code evrem_no_vm none
          else remap_pages dune true pa_page va npages (get_page_offset ptr 1))
        (record s { list = l })

  vremap_map_lem : vremap_map dune true ptr size s ≡ remap_body (freelist_alloc npages s.list)
  unfolding vremap_map
  vremap_map_lem =
      let some_size : size ≢ 0 = λ e. absurd (omega (arith, e, backed.some_bytes)) in
      rw (ne→== _ _ backed.not_null, ne→== _ _ some_size, ready.kernel, eq→== _ _ entry_asserts)
        refl

  no_vm_Remapped :
      Short npages s.list.items
      → Remapped dune site s ptr size (remap_body (freelist_alloc npages s.list))
  unfolding return_code
  no_vm_Remapped short =
      rw (freelist_alloc-Short npages s.list short)
        (no_vm short (IsReady-again ready refl refl ready.tree (λ va. refl)) refl refl)

  -- In a ready state (a well-formed list that owns only addresses below 2^48 other than 0,
  -- none of them translated; well-formed page tables; kernel mode), with the layout that
  -- platform/dune assumes, for size > 0 bytes at ptr that end more than a page below 2^64 and
  -- whose physical address, between the first page and 2^52, has ptr's offset in its page, and
  -- where MALLOC in vp_free does not fail: vremap_map does not fault and leaves a ready state.
  -- It returns VREM_OK and an address out with ptr's offset in its page, such that each byte
  -- out + i translates to the physical address of ptr plus i; every page of the spanned ones
  -- lies below 2^48, is mapped, was owned by the list and no longer is; and every address
  -- below 2^48 that the list did not own translates as before, and the list owns nothing new;
  -- or, only if no span has the pages, EVREM_NO_VM with spans and page tables as before; or,
  -- only if the page allocator returns 0 at one of its next calls, three for each page,
  -- EVREM_VIRT_MAP with the spans as before and every address translated as before.
  pub vremap_map-Remapped : Remapped dune site s ptr size (vremap_map dune true ptr size s)
  vremap_map-Remapped = rw vremap_map_lem (elim (freelist_alloc-cases npages s.list ready.valid) [
    | inr short ↦ no_vm_Remapped short
    | inl w ↦
        let not_null = alloc_not_null lay ready (some_pages w) w in
        let enough : ¬ Short npages s.list.items =
          λ short. absurd (not_null (ap (λ r. r.0) (freelist_alloc-Short npages s.list short))) in
        let (l', run, e) =
          freelist_free-freelist_alloc npages s.list ready.valid (some_pages w) enough in
        rw (ne→== _ _ not_null) (remap_pages-Remapped w l' run e)
  ])
