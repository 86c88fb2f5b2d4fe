-- ===== src/VirtualRemap/Ready.antt =====
-- The state between two calls of the remapper, and what it takes from the code below.
use dangless_malloc.Prelude.{
  ℕ, ◌+◌, ◌-◌, ◌*◌, ◌%◌, ◌^◌, ◌≤◌, ◌<◌, ◌≡◌, ◌≢◌, refl, sym, ◌∙◌, arith, true, false, some, bit_or,
}
use dangless_malloc.Prelude.Bits.{bit_and-ones}
use dangless_malloc.Page.{pgsize}
use dangless_malloc.FreeList.{FreeList}
use dangless_malloc.FreeList.Contract.{IsFreeList, owns, Allocated}
use dangless_malloc.Dune.{Dune, Machine}
use dangless_malloc.VirtMem.{pt_resolve_page, get_page_offset, pte_w, pte_nx}
use dangless_malloc.VirtMem.Entries.{region, region_up, region_range, region_add, IsFlags}
use dangless_malloc.VirtMem.Tree.{IsLayout, Sites, IsTree}
use dangless_malloc.VirtMem.Walk.{pt_walk-Found}
use dangless_malloc.VirtMem.Change.{pt_walk-alike}
use dangless_malloc.VirtMem.Region.{InPage}
use dangless_malloc.VirtualRemap.{Process, in_kernel_mode}

-- The list is well-formed and owns addresses below 2 ^ 48 other than 0, none of which has
-- a translation; the page tables are well-formed; the process is in kernel mode.
pub record IsReady (dune : Dune) (site : Sites) (s : Process) : Type 0 where
  pub valid : IsFreeList s.list
  pub tree : IsTree dune site s.machine
  pub kernel : in_kernel_mode s ≡ true
  pub no_null : owns s.list 0 ≡ false
  pub low : (a : ℕ) → owns s.list a ≡ true → a < 2 ^ 48
  pub free : (a : ℕ) → owns s.list a ≡ true → pt_resolve_page dune s.machine a ≡ some (0, 0)

pub remap-IsFlags : IsFlags (bit_or pte_w pte_nx)
remap-IsFlags = record { no_frame = refl; no_ps = refl }

pub get_page_offset_lem : (a : ℕ) → get_page_offset a 1 ≡ a % pgsize
unfolding get_page_offset
get_page_offset_lem a = bit_and-ones 12 a

-- All addresses of a page have one translation.
pub resolve_alike :
    {dune : Dune} (lay : IsLayout dune) {site : Sites} {m : Machine}
    → IsTree dune site m
    → (va va' : ℕ) → region va' 0 ≡ region va 0
    → pt_resolve_page dune m va' ≡ pt_resolve_page dune m va
unfolding pt_resolve_page
resolve_alike {dune} lay {site} {m} tree va va' alike =
    let (k, e, walked, found) = pt_walk-Found lay tree va in
    let walked' =
      pt_walk-alike lay tree found walked va' (region_up va' va 0 k (omega arith) alike) in
    rw (walked, walked', pt_resolve_page) refl

module _ {dune : Dune} (lay : IsLayout dune) {site : Sites} {s : Process}
    (ready : IsReady dune site s) {npages va : ℕ} {l : FreeList} (some_pages : 0 < npages)
    (w : Allocated npages s.list va l) where
  -- Every address of the allocated pages was owned.
  was_owned : (a : ℕ) → va ≤ a → a < va + npages * pgsize → owns s.list a ≡ true
  unfolding owns
  was_owned a h h' = w.pages.owned a (ground arith)

  pub alloc_not_null : va ≢ 0
  alloc_not_null e = absurd (cc (sym (was_owned 0 (omega arith) (omega arith)) ∙ ready.no_null))

  pub alloc_low : va + npages * pgsize ≤ 2 ^ 48
  alloc_low =
      let last = ready.low (va + npages * pgsize - 1) (was_owned _ (omega arith) (omega arith)) in
      omega arith

  pub alloc_free :
      (va' k : ℕ) → k < npages → InPage va k va' → pt_resolve_page dune s.machine va' ≡ some (0, 0)
  alloc_free va' k h e =
      resolve_alike lay ready.tree (va + k * pgsize) va'
        (e ∙ sym (region_add va k w.pages.aligned (omega (arith, alloc_low))))
      ∙ ready.free (va + k * pgsize) (was_owned _ (omega arith) (omega arith))

  -- What the list still owns lies in no page that was allocated.
  pub still_owned :
      (a : ℕ) → owns l a ≡ true → (owns s.list a ≡ true) × ((k : ℕ) → k < npages → ¬ InPage va k a)
  unfolding owns
  still_owned a h =
      let before : owns s.list a ≡ true = ground (arith, w.pages.left a) in
      (
        before,
        λ k lt e.
            let inside =
              region_range va npages k a w.pages.aligned alloc_low (ready.low a before) lt e in
            absurd (ground (arith, w.pages.left a, inside)),
      )
