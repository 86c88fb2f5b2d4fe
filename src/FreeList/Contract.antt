-- ===== src/FreeList/Contract.antt =====
-- What `vp_alloc`, `vp_free` and `vp_reset` promise about the set of owned addresses.
use dangless_malloc.Prelude.{
  ℕ, ◌+◌, ◌*◌, ◌%◌, ◌<◌, ◌≡◌, ◌⊎◌, inl, inr, refl, sym, ◌∙◌, ap, subst₂, Bool, true, false, ◌||◌,
  List, [], arith, Option-cases, word_size, ℤ, pos, negsuc, Run, ok, eq→==, lt→ltb,
}
use dangless_malloc.Page.{pgsize, pg_offset}
use dangless_malloc.FreeList.{
  Span, span, FreeList, take_pages, freelist_alloc, locate, freelist_free, with_items,
}
use dangless_malloc.FreeList.Order.{in_range, covers, IsSpan, Sorted, covers-rejoin, covers-Apart}
use dangless_malloc.FreeList.Take.{Taken, take_pages-Taken, Short, take_pages-none_iff}
use dangless_malloc.FreeList.Give.{Located, locate-Located, Given, given, no_room, give_pages-Given}
use dangless_malloc.FreeList.Canonical.{eq_of_covers}

-- The well-formed lists: ascending spans of whole pages with a gap between any two.
pub record IsFreeList (l : FreeList) : Type 0 where
  pub sorted : Sorted 0 l.items

-- The addresses that the allocator owns.
unfoldable pub owns : FreeList → ℕ → Bool
owns l a = covers l.items a

-- An allocation that found a span.
pub record Allocated (npages : ℕ) (l : FreeList) (va : ℕ) (l' : FreeList) : Type 0 where
  pub valid : IsFreeList l'
  pub pages : Taken npages l.items va l'.items
  pub counted : l'.nallocs ≡ l.nallocs + 1

-- On a well-formed list with a span of at least npages pages, freelist_alloc leaves a well-
-- formed list and returns the address of npages whole pages below 2^64 which the list owned
-- before, and exactly which it no longer owns; nallocs is one more.
pub freelist_alloc-Allocated :
    (npages : ℕ) (l : FreeList)
    → IsFreeList l
    → ¬ Short npages l.items
    → Allocated npages l (freelist_alloc npages l).0 (freelist_alloc npages l).1
unfolding freelist_alloc
freelist_alloc-Allocated npages l v enough = elim (Option-cases (take_pages npages l.items)) [
  | inl e ↦ absurd (enough ((take_pages-none_iff npages l.items).0 e))
  | inr ((va, items), e) ↦
      let (low, sorted, taken) = take_pages-Taken npages l.items 0 va items v.sorted e in
      rw (e, freelist_alloc)
        (record { valid = record { sorted = sorted }; pages = taken; counted = refl })
]

-- When no span has npages pages, freelist_alloc returns NULL and changes nothing but the
-- counter of failed allocations.
pub freelist_alloc-Short :
    (npages : ℕ) (l : FreeList)
    → Short npages l.items
    → freelist_alloc npages l
      ≡ (0, record l { num_allocations_failed = l.num_allocations_failed + 1 })
unfolding freelist_alloc
freelist_alloc-Short npages l short =
    rw ((take_pages-none_iff npages l.items).1 short, freelist_alloc)

-- An allocation returns pages, or no span has them.
pub freelist_alloc-cases :
    (npages : ℕ) (l : FreeList)
    → IsFreeList l
    → Allocated npages l (freelist_alloc npages l).0 (freelist_alloc npages l).1
      ⊎ Short npages l.items
freelist_alloc-cases npages l v = elim (Option-cases (take_pages npages l.items)) [
  | inl e ↦ inr ((take_pages-none_iff npages l.items).0 e)
  | inr (r, e) ↦ inl (
      freelist_alloc-Allocated npages l v
        (λ short. cc (sym ((take_pages-none_iff npages l.items).1 short) ∙ e)))
]

-- The two outcomes of giving pages back.
pub data Freed (room : Bool) (p npages : ℕ) (l : FreeList) : ℤ → FreeList → Type 0 where
  freed :
      {l' : FreeList}
      → IsFreeList l'
      → ((a : ℕ) → owns l' a ≡ (owns l a || in_range p (p + npages * pgsize) a))
      → Freed room p npages l (pos 0) l'
  kept : room ≡ false → Freed room p npages l (negsuc 0) l

-- A range of whole pages below the end of the address space, of which nothing is owned yet.
pub record IsGift (p npages : ℕ) (l : FreeList) : Type 0 where
  pub aligned : p % pgsize ≡ 0
  pub some_pages : 0 < npages
  pub fits : p + npages * pgsize < word_size
  pub unowned : (a : ℕ) → in_range p (p + npages * pgsize) a ≡ true → owns l a ≡ false

gift-IsSpan :
    {p npages : ℕ} {l : FreeList} → IsGift p npages l → IsSpan (span p (p + npages * pgsize))
gift-IsSpan g = record {
  nonempty = omega (arith, g.some_pages);
  fits = g.fits;
  start_aligned = g.aligned;
  end_aligned = omega (arith, g.aligned);
}

pg_offset_lem :
    (p npages : ℕ) → p + npages * pgsize < word_size → pg_offset p npages ≡ p + npages * pgsize
unfolding pg_offset
pg_offset_lem p npages h = omega arith

-- From the list of spans to the whole record.
Given-Freed :
    (room : Bool) (p npages : ℕ) (l : FreeList) (before after : List Span) (r : Run (List Span) ℤ)
    → Located l.items p (p + npages * pgsize) before after
    → Given room p (p + npages * pgsize) before after r
    → (code : ℤ) × (l' : FreeList) × (with_items l r ≡ ok code l') × Freed room p npages l code l'
unfolding owns with_items
Given-Freed room p npages l before after r w (given {items} o same) = (
  pos 0,
  record l { items = items },
  refl,
  freed (record { sorted = o }) (λ a. ground (arith, same a, w.same, covers-rejoin before after a)),
)
Given-Freed room p npages l before after r w (no_room e) = (negsuc 0, l, rw (w.same), kept e)

-- freelist_free on a well-formed list (ascending spans of whole pages, a gap between any two),
-- of a range of npages > 0 whole pages that ends below 2^64 and of which the list owns nothing
-- yet, does not fault. It returns 0 with a well-formed list that owns exactly what it owned
-- before and the range; or, only where MALLOC fails, it returns -1 and the list is as before.
pub freelist_free-Freed :
    (room : Bool) (p npages : ℕ) (l : FreeList)
    → IsFreeList l
    → IsGift p npages l
    → (code : ℤ) × (l' : FreeList) × (freelist_free room p npages l ≡ ok code l')
      × Freed room p npages l code l'
unfolding freelist_free owns
freelist_free-Freed room p npages l v g =
    let end : ℕ = p + npages * pgsize in
    let apart = covers-Apart l.items 0 v.sorted (omega (arith, g.some_pages)) g.unowned in
    let w =
      locate-Located p end [] l.items (omega (arith, g.some_pages)) tt v.sorted (omega arith)
        apart in
    let i : IsSpan (span p end) = gift-IsSpan g in
    let result =
      Given-Freed room p npages l (locate end [] l.items).0 (locate end [] l.items).1 _ w
        (give_pages-Given room p end i _ _ w.falling w.behind w.ahead) in
    rw (eq→== _ _ g.aligned, lt→ltb _ _ g.some_pages, pg_offset_lem p npages g.fits) result

-- The same of a run that is given.
pub Freed-run :
    {room : Bool} {p npages : ℕ} {l l' : FreeList} {code : ℤ}
    → IsFreeList l
    → IsGift p npages l
    → freelist_free room p npages l ≡ ok code l'
    → Freed room p npages l code l'
Freed-run {room} {p} {npages} {l} {l'} {code} v g run =
    let (code', m, run', outcome) = freelist_free-Freed room p npages l v g in
    let same : ok code' m ≡ ok code l' = sym run' ∙ run in
    subst₂ (Freed room p npages l) (cc same) (cc same) outcome

-- What was just allocated may be given back.
Allocated-IsGift :
    {npages va : ℕ} {l l' : FreeList} → 0 < npages → Allocated npages l va l' → IsGift va npages l'
unfolding owns
Allocated-IsGift n w = record {
  aligned = w.pages.aligned;
  some_pages = n;
  fits = w.pages.fits;
  unowned = λ a r. ground (arith, w.pages.left a);
}

-- Giving back what was allocated restores the very list of spans, whichever of them it came from.
module _ (npages : ℕ) (l : FreeList) (v : IsFreeList l) (some_pages : 0 < npages) where
  restored :
      {va : ℕ} {m : FreeList} {code : ℤ} {l' : FreeList}
      → Allocated npages l va m
      → Freed true va npages m code l'
      → (code ≡ pos 0) × (l'.items ≡ l.items)
  unfolding owns
  restored {va} w (freed {l'} v' same) = (
    refl,
    eq_of_covers l'.items l.items 0 v'.sorted v.sorted
        (λ a. ground (arith, same a, w.pages.left a, w.pages.owned a)),
  )
  restored w (kept e) = cc

  -- On a well-formed list that has a span of at least npages > 0 pages, giving back the npages
  -- that freelist_alloc returned, where MALLOC does not fail, returns 0 and restores the very
  -- list of spans from before the allocation.
  pub freelist_free-freelist_alloc :
      ¬ Short npages l.items
      → (l' : FreeList) × (freelist_free true
            (freelist_alloc npages l).0
            npages
            (freelist_alloc npages l).1
          ≡ ok (pos 0) l')
        × (l'.items ≡ l.items)
  freelist_free-freelist_alloc enough =
      let w = freelist_alloc-Allocated npages l v enough in
      let (code, l', run, outcome) =
        freelist_free-Freed true _ npages _ w.valid (Allocated-IsGift some_pages w) in
      let (zero_code, same) = restored w outcome in (l', run ∙ ap (λ c. ok c l') zero_code, same)
