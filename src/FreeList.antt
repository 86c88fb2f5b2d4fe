-- ===== src/FreeList.antt =====
-- The virtual page allocator, sources/src/virtmem_alloc.c: a list of spans of free virtual memory,
-- ordered by address, from which whole pages are taken first-fit and to which they are given back.
--
-- The LIST_ macros of queue.h are the operations of `List`: a loop LIST_FOREACH that looks for the
-- place of a span keeps what it has passed, nearest first, so `prev_span` is the head of what was
-- passed and `next_span` the head of what is left. A function runs under the list's mutex from its
-- first access on, so it is one step. STATISTIC_UPDATE blocks are taken as compiled in. Whether MALLOC has
-- a span is an argument here; what MALLOC and FREE of spans do to the system allocator is not part of this
-- state, and follows in `Hooks.on_spans`.
pub mod Order
pub mod Take
pub mod Give
pub mod Canonical
pub mod Contract
pub mod Commute
pub mod Ledger
pub mod Tests
use dangless_malloc.Prelude.{
  ℕ, suc, ◌+◌, ◌/◌, ◌%◌, ◌≡◌, Bool, true, false, not, ◌&&◌, Option, none, some, List, [], ◌∷◌, ltb,
  leb, ◌==◌, if◌then◌else◌, sub64, add64, mul64, ℤ, pos, negsuc, Run, ok, fault, Cmd, assert, ◌>>=◌,
  ◌>>◌,
}
use dangless_malloc.Page.{pgsize, pg_offset}

-- `struct vp_span`: the addresses from `start` up to `end`, `end` not included.
pub record Span : Type 0 where
  pub start : ℕ
  pub end : ℕ

abbrev pub span : ℕ → ℕ → Span
span a b = record { start = a; end = b }

unfoldable pub span_num_pages : Span → ℕ
span_num_pages s = sub64 s.end s.start / pgsize

unfoldable pub span_empty : Span → Bool
span_empty s = s.start == s.end

-- `struct vp_freelist`, with the file's statistics counters.
pub record FreeList : Type 0 where
  pub items : List Span
  pub nallocs : ℕ
  pub num_allocations : ℕ
  pub num_allocations_failed : ℕ
  pub num_allocated_pages : ℕ

-- VP_FREELIST_INIT: no memory is owned.
abbrev pub freelist_init : FreeList
freelist_init = record {
  items = [];
  nallocs = 0;
  num_allocations = 0;
  num_allocations_failed = 0;
  num_allocated_pages = 0;
}

-- The pages are taken from the front of `s`; an empty span is unlinked and freed.
unfoldable pub carve : ℕ → Span → List Span → List Span
unfolding span_empty
carve npages s rest =
    let s' = span (add64 s.start (mul64 npages pgsize)) s.end in
    if span_empty s' then rest else s' ∷ rest

-- The first span with enough pages: its address, and the list without the pages.
unfoldable pub take_pages : ℕ → List Span → Option (ℕ × List Span)
unfolding span_num_pages carve
take_pages npages [] = none
take_pages npages (s ∷ rest) =
    if leb npages (span_num_pages s)
    then some (s.start, carve npages s rest)
    else elim (take_pages npages rest) [ none ↦ none | some (va, items) ↦ some (va, s ∷ items) ]

-- `freelist_alloc`; 0 is NULL.
unfoldable pub freelist_alloc : ℕ → FreeList → ℕ × FreeList
unfolding take_pages
freelist_alloc npages l = elim (take_pages npages l.items) [
  | none ↦ (0, record l { num_allocations_failed = l.num_allocations_failed + 1 })
  | some (va, items) ↦ (
    va,
    record l {
      items = items;
      nallocs = l.nallocs + 1;
      num_allocations = l.num_allocations + 1;
      num_allocated_pages = l.num_allocated_pages + npages;
    },
  )
]

-- The search of `freelist_free`: the spans in front of the first that starts at `end` or later,
-- nearest first, and the rest.
unfoldable pub locate : ℕ → List Span → List Span → List Span × List Span
locate end before [] = (before, [])
locate end before (next ∷ after) =
    if leb end next.start then (before, next ∷ after) else locate end (next ∷ before) after

-- The list again, from both sides of a place in it.
unfoldable pub rejoin : List Span → List Span → List Span
rejoin [] after = after
rejoin (s ∷ before) after = rejoin before (s ∷ after)

-- `try_merge_spans` at the spans on both sides of a place: `none` is its failed assertion.
unfoldable pub try_merge_spans : List Span → Span → Span → List Span → Option (List Span)
unfolding rejoin
try_merge_spans before left right after =
    if leb left.end right.start
    then some (
        if left.end == right.start
        then rejoin before (span left.start right.end ∷ after)
        else rejoin before (left ∷ right ∷ after))
    else none

-- What the attempt to merge a freed range into its neighbours comes to.
pub data Merge : Type 0 where
  merged : List Span → Merge
  unmerged : Merge
  clash : Merge

abbrev pub merge_result : Option (List Span) → Merge
merge_result none = clash
merge_result (some items) = merged items

-- `next_span->start == end`: the range goes in front of `next_span`, and both perhaps to
-- `prev_span`.
unfoldable pub merge_next : ℕ → ℕ → List Span → List Span → Merge
unfolding try_merge_spans rejoin
merge_next start end before [] = unmerged
merge_next start end [] (next ∷ after) =
    if next.start == end then merged (span start next.end ∷ after) else unmerged
merge_next start end (prev ∷ before) (next ∷ after) =
    if next.start == end
    then merge_result (try_merge_spans before prev (span start next.end) after)
    else unmerged

-- `prev_span->end == start`: the range goes behind `prev_span`, and `next_span` perhaps too.
unfoldable pub merge_prev : ℕ → ℕ → List Span → List Span → Merge
unfolding merge_next
merge_prev start end [] after = merge_next start end [] after
merge_prev start end (prev ∷ before) [] =
    if prev.end == start
    then merged (rejoin before (span prev.start end ∷ []))
    else merge_next start end (prev ∷ before) []
merge_prev start end (prev ∷ before) (next ∷ after) =
    if prev.end == start
    then merge_result (try_merge_spans before (span prev.start end) next after)
    else merge_next start end (prev ∷ before) (next ∷ after)

-- What `freelist_free` does with the list once it has found the place. `room` says whether
-- MALLOC(struct vp_span) succeeds. The three ways to insert the new span all put it at the place.
unfoldable pub give_pages : Bool → ℕ → ℕ → List Span → List Span → Run (List Span) ℤ
unfolding merge_prev
give_pages room start end before after = elim (merge_prev start end before after) [
  | merged items ↦ ok (pos 0) items
  | clash ↦ fault
  | unmerged ↦
      if room
      then ok (pos 0) (rejoin before (span start end ∷ after))
      else ok (negsuc 0) (rejoin before after)
]

-- The list with other spans.
unfoldable pub with_items : FreeList → Run (List Span) ℤ → Run FreeList ℤ
with_items l (ok code items) = ok code (record l { items = items })
with_items l fault = fault

-- `freelist_free`
unfoldable pub freelist_free : Bool → ℕ → ℕ → Cmd FreeList ℤ
unfolding give_pages locate pg_offset with_items
freelist_free room p npages = do
  assert (p % pgsize == 0)
  assert (ltb 0 npages)
  λ l.
      let end = pg_offset p npages in
      let (before, after) = locate end [] l.items in
      with_items l (give_pages room p end before after)

-- `freelist_reset`: the counters of the file stay.
unfoldable pub freelist_reset : FreeList → FreeList
freelist_reset l = record l { items = []; nallocs = 0 }

-- `vp_free_region`
unfoldable pub vp_free_region : Bool → ℕ → ℕ → Cmd FreeList ℤ
unfolding freelist_free
vp_free_region room start end = freelist_free room start (sub64 end start / pgsize)
