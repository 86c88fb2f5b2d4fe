-- ===== src/VirtualRemap/Progress.antt =====
-- vremap_map succeeds where there is memory for it.
use dangless_malloc.Prelude.{ℕ, ◌+◌, ◌*◌, ◌≤◌, ◌<◌, ◌≡◌, ◌≢◌, refl, true, Option, some, Run, ok, ℤ}
use dangless_malloc.Page.{num_spanned_pages}
use dangless_malloc.FreeList.Take.{Short}
use dangless_malloc.Dune.{Dune}
use dangless_malloc.VirtMem.Tree.{IsLayout, Sites}
use dangless_malloc.VirtualRemap.{Process, vrem_ok, vremap_map}
use dangless_malloc.VirtualRemap.Ready.{IsReady}
use dangless_malloc.VirtualRemap.Alias.{
  IsBacked, Remapped, alias, no_vm, virt_map, vremap_map-Remapped,
}

-- A span has the pages, and the page allocator has one for each of three new tables a page.
pub record HasMemory (dune : Dune) (s : Process) (npages : ℕ) : Type 0 where
  pub virtual : ¬ Short npages s.list.items
  pub physical :
      (call : ℕ)
      → s.machine.calls ≤ call
      → call < s.machine.calls + 3 * npages
      → dune.page_at call ≢ 0

Remapped-succeeds :
    {dune : Dune} {site : Sites} {s : Process} {ptr size : ℕ} {r : Run Process (ℤ × Option ℕ)}
    → HasMemory dune s (num_spanned_pages ptr size)
    → Remapped dune site s ptr size r
    → (out : ℕ) × (s' : Process) × (r ≡ ok (vrem_ok, some out) s')
Remapped-succeeds has (alias {s'} out ready offset at fits mapped owned others before) =
    (out, s', refl)
Remapped-succeeds has (no_vm short ready same items) = absurd (has.virtual short)
Remapped-succeeds has (virt_map call null first last ready same items) =
    absurd (has.physical call first last null)

pub vremap_map-succeeds :
    {dune : Dune} (lay : IsLayout dune) {site : Sites} {s : Process}
    → IsReady dune site s
    → (ptr size : ℕ) → IsBacked dune ptr size
    → HasMemory dune s (num_spanned_pages ptr size)
    → (out : ℕ) × (s' : Process) × (vremap_map dune true ptr size s ≡ ok (vrem_ok, some out) s')
vremap_map-succeeds lay ready ptr size backed has =
    Remapped-succeeds has (vremap_map-Remapped lay ready ptr size backed)
