-- ===== src/FreeList/Tests.antt =====
-- A list of two spans, and the operations of the virtual page allocator run on it.
use dangless_malloc.Prelude.{ℕ, ◌%◌, ◌≤◌, ◌≡◌, refl, arith, true, [], ◌∷◌, ok, ℤ, pos}
use dangless_malloc.FreeList.{
  span, span_num_pages, FreeList, freelist_init, freelist_alloc, freelist_free,
}
use dangless_malloc.FreeList.Order.{covers}
use dangless_malloc.FreeList.Take.{Short}
use dangless_malloc.FreeList.Commute.{freelist_free-commutes}
use dangless_malloc.FreeList.Contract.{
  IsFreeList, owns, Allocated, freelist_alloc-Allocated, freelist_alloc-Short, IsGift, Freed,
  freelist_free-Freed, freelist_free-freelist_alloc,
}
use dangless_malloc.FreeList.Ledger.{
  holders, Client, give, alloc, Reach, start, next, IsFair, Reach-IsFair,
}

-- Two pages from 0x1000 on and one at 0x5000: the two pages between them are in use.
abbrev two_spans : FreeList
two_spans = record freelist_init { items = span 0x1000 0x3000 ∷ span 0x5000 0x6000 ∷ [] }

two_spans-IsFreeList : IsFreeList two_spans
two_spans-IsFreeList = record {
  sorted = (
    omega arith,
    record { nonempty = omega arith; fits = omega arith; start_aligned = refl; end_aligned = refl },
    (
      omega arith,
      record {
        nonempty = omega arith;
        fits = omega arith;
        start_aligned = refl;
        end_aligned = refl;
      },
      tt,
    ),
  );
}

two_spans-IsGift : IsGift 0x3000 2 two_spans
unfolding owns covers
two_spans-IsGift = record {
  aligned = refl;
  some_pages = omega arith;
  fits = omega arith;
  unowned = λ a r. ground (arith, r);
}

filled :
    freelist_free true 0x3000 2 two_spans
    ≡ ok (pos 0) (record two_spans { items = span 0x1000 0x6000 ∷ [] })
unfolding freelist_free
filled = refl

two_spans-not_Short : ¬ Short 1 two_spans.items
unfolding span_num_pages
two_spans-not_Short s = absurd (omega (arith, s))

three-Short : Short 3 two_spans.items
unfolding span_num_pages
three-Short = (omega arith, (omega arith, tt))

freelist_free-Freed_example :
    (code : ℤ) × (l' : FreeList) × (freelist_free true 0x3000 2 two_spans ≡ ok code l')
    × Freed true 0x3000 2 two_spans code l'
freelist_free-Freed_example =
    freelist_free-Freed true 0x3000 2 two_spans two_spans-IsFreeList two_spans-IsGift

freelist_alloc-Allocated_example :
    Allocated 1 two_spans (freelist_alloc 1 two_spans).0 (freelist_alloc 1 two_spans).1
freelist_alloc-Allocated_example =
    freelist_alloc-Allocated 1 two_spans two_spans-IsFreeList two_spans-not_Short

freelist_alloc-Short_example :
    freelist_alloc 3 two_spans ≡ (0, record two_spans { num_allocations_failed = 1 })
freelist_alloc-Short_example = freelist_alloc-Short 3 two_spans three-Short

freelist_free-freelist_alloc_example :
    (l' : FreeList) × (freelist_free true
        (freelist_alloc 1 two_spans).0
        1
        (freelist_alloc 1 two_spans).1
      ≡ ok (pos 0) l')
    × (l'.items ≡ two_spans.items)
freelist_free-freelist_alloc_example =
    freelist_free-freelist_alloc 1 two_spans two_spans-IsFreeList (omega arith) two_spans-not_Short

-- Each page of the gap alone.
gap-IsGift : (p : ℕ) → p % 0x1000 ≡ 0 → 0x3000 ≤ p → p ≤ 0x4000 → IsGift p 1 two_spans
unfolding owns covers
gap-IsGift p aligned low high = record {
  aligned = aligned;
  some_pages = omega arith;
  fits = omega arith;
  unowned = λ a r. ground (arith, r, low, high);
}

freelist_free-commutes_example :
    (m m' l' l'' : FreeList) × (freelist_free true 0x3000 1 two_spans ≡ ok (pos 0) m)
    × (freelist_free true 0x4000 1 m ≡ ok (pos 0) l')
    × (freelist_free true 0x4000 1 two_spans ≡ ok (pos 0) m')
    × (freelist_free true 0x3000 1 m' ≡ ok (pos 0) l'')
    × (l'.items ≡ l''.items)
freelist_free-commutes_example =
    freelist_free-commutes 0x3000 1 0x4000 1 two_spans two_spans-IsFreeList
      (gap-IsGift 0x3000 refl (omega arith) (omega arith))
      (gap-IsGift 0x4000 refl (omega arith) (omega arith)) (λ a inside. ground (arith, inside))

-- One page is dedicated to an empty list and allocated.
abbrev one_page : FreeList
one_page = record freelist_init { items = span 0x1000 0x2000 ∷ [] }

abbrev holding : Client
holding = record {
  list = record freelist_init { nallocs = 1; num_allocations = 1; num_allocated_pages = 1 };
  held = (0x1000, 1) ∷ [];
}

one_page-IsGift : IsGift 0x1000 1 freelist_init
unfolding owns covers
one_page-IsGift = record {
  aligned = refl;
  some_pages = omega arith;
  fits = omega arith;
  unowned = λ a r. refl;
}

holding-Reach : Reach holding
unfolding freelist_free freelist_alloc holders
holding-Reach =
    next (next start (give true 0x1000 1 (pos 0) one_page one_page-IsGift (λ a h. refl) refl))
      (alloc 1 0x1000 holding.list refl (omega arith))

Reach-IsFair_example : IsFair holding
Reach-IsFair_example = Reach-IsFair holding-Reach
