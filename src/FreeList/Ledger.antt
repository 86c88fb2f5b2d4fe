-- ===== src/FreeList/Ledger.antt =====
-- A client of the allocator over time: which ranges it holds, and that no page is held twice.
use dangless_malloc.Prelude.{
  ℕ, ◌+◌, ◌*◌, ◌%◌, ◌≤◌, ◌<◌, ◌≡◌, ◌≢◌, sym, ap, ◌∙◌, Bool, true, List, [], ◌∷◌, ◌++◌, arith,
  if◌then◌else◌, ℤ, ok, word_size, subst, inl, inr,
}
use dangless_malloc.Page.{pgsize}
use dangless_malloc.FreeList.{
  FreeList, freelist_init, freelist_alloc, freelist_free, freelist_reset,
}
use dangless_malloc.FreeList.Order.{in_range, covers}
use dangless_malloc.FreeList.Contract.{
  IsFreeList, owns, Allocated, freelist_alloc-cases, freelist_alloc-Short, IsGift, Freed, freed,
  kept, Freed-run,
}

-- Address and number of pages.
abbrev pub Range : Type 0
Range = ℕ × ℕ

abbrev pub within : Range → ℕ → Bool
within (p, npages) a = in_range p (p + npages * pgsize) a

-- How many of the ranges hold the address.
unfoldable pub holders : List Range → ℕ → ℕ
holders [] a = 0
holders (r ∷ held) a = (if within r a then 1 else 0) + holders held a

holders-append : (xs ys : List Range) (a : ℕ) → holders (xs ++ ys) a ≡ holders xs a + holders ys a
unfolding holders
holders-append [] ys a = omega arith
holders-append (r ∷ xs) ys a = omega (arith, holders-append xs ys a)

pub record Client : Type 0 where
  pub list : FreeList
  pub held : List Range

-- `alloc`: `vp_alloc` returned `va`, which is not NULL. `give`: a range that nobody holds or owns
-- is dedicated to the allocator. `back`: a held range is returned; if there is no memory for a
-- span it is lost. `reset`: `vp_reset`.
pub data Step (s : Client) : Client → Type 0 where
  alloc :
      (npages va : ℕ) (l : FreeList)
      → freelist_alloc npages s.list ≡ (va, l)
      → va ≢ 0
      → Step s (record { list = l; held = (va, npages) ∷ s.held })
  exhausted :
      (npages : ℕ) (l : FreeList)
      → freelist_alloc npages s.list ≡ (0, l)
      → Step s (record s { list = l })
  give :
      (room : Bool) (p npages : ℕ) (code : ℤ) (l : FreeList)
      → IsGift p npages s.list
      → ((a : ℕ) → within (p, npages) a ≡ true → holders s.held a ≡ 0)
      → freelist_free room p npages s.list ≡ ok code l
      → Step s (record s { list = l })
  back :
      (room : Bool) (p npages : ℕ) (before after : List Range) (code : ℤ) (l : FreeList)
      → s.held ≡ before ++ ((p, npages) ∷ after)
      → 0 < npages
      → freelist_free room p npages s.list ≡ ok code l
      → Step s (record { list = l; held = before ++ after })
  reset : Step s (record s { list = freelist_reset s.list })

pub data Reach : Client → Type 0 where
  start : Reach (record { list = freelist_init; held = [] })
  next : {s t : Client} → Reach s → Step s t → Reach t

-- Ranges of whole pages.
abbrev pub Whole : List Range → Type 0
Whole [] = Unit
Whole ((p, npages) ∷ held) = (p % pgsize ≡ 0) × (p + npages * pgsize < word_size) × Whole held

Whole-middle :
    (before : List Range) (r : Range) (after : List Range)
    → Whole (before ++ (r ∷ after))
    → Whole (r ∷ []) × Whole (before ++ after)
Whole-middle [] r after w = ((w.0, w.1, tt), w.2)
Whole-middle (q ∷ before) r after w =
    let (here, rest) = Whole-middle before r after w.2 in (here, (w.0, w.1, rest))

-- Every address is held at most once, and not at all while the allocator owns it.
pub record IsFair (s : Client) : Type 0 where
  pub valid : IsFreeList s.list
  pub whole : Whole s.held
  pub once : (a : ℕ) → holders s.held a + (if owns s.list a then 1 else 0) ≤ 1

Freed-once :
    {room : Bool} {p npages : ℕ} {l l' : FreeList} {code : ℤ} (held : List Range) (a : ℕ)
    → Freed room p npages l code l'
    → holders held a + (if within (p, npages) a then 1 else 0) + (if owns l a then 1 else 0) ≤ 1
    → holders held a + (if owns l' a then 1 else 0) ≤ 1
Freed-once held a (freed v same) h = ground (arith, same a)
Freed-once held a (kept e) h = omega arith

Freed-IsFreeList :
    {room : Bool} {p npages : ℕ} {l l' : FreeList} {code : ℤ}
    → Freed room p npages l code l'
    → IsFreeList l
    → IsFreeList l'
Freed-IsFreeList (freed v same) w = v
Freed-IsFreeList (kept e) w = w

alloc-IsFair :
    (npages va : ℕ) (s : Client) (l : FreeList)
    → IsFair s
    → freelist_alloc npages s.list ≡ (va, l)
    → va ≢ 0
    → IsFair (record { list = l; held = (va, npages) ∷ s.held })
unfolding holders owns
alloc-IsFair npages va s l f e ne = elim (freelist_alloc-cases npages s.list f.valid) [
  | inl w ↦
      let w' : Allocated npages s.list va l = subst (λ r. Allocated npages s.list r.0 r.1) e w in
      record {
        valid = w'.valid;
        whole = (w'.pages.aligned, w'.pages.fits, f.whole);
        once = λ a. ground (arith, f.once a, w'.pages.left a, w'.pages.owned a);
      }
  | inr failed ↦ absurd (ne (ground (arith, sym e ∙ freelist_alloc-Short npages s.list failed)))
]

exhausted-IsFair :
    (npages : ℕ) (s : Client) (l : FreeList)
    → IsFair s
    → freelist_alloc npages s.list ≡ (0, l)
    → IsFair (record s { list = l })
unfolding owns
exhausted-IsFair npages s l f e = elim (freelist_alloc-cases npages s.list f.valid) [
  | inl w ↦
      let w' : Allocated npages s.list 0 l = subst (λ r. Allocated npages s.list r.0 r.1) e w in
      record {
        valid = w'.valid;
        whole = f.whole;
        once = λ a. ground (arith, f.once a, w'.pages.left a);
      }
  | inr failed ↦
      let same : l.items ≡ s.list.items =
        ground (arith, sym e ∙ freelist_alloc-Short npages s.list failed) in
      record {
        valid = record { sorted = rw same f.valid.sorted };
        whole = f.whole;
        once = λ a. rw same (f.once a);
      }
]

module _ (before after : List Range) (p npages : ℕ) (a : ℕ) where
  holders-middle :
      holders (before ++ ((p, npages) ∷ after)) a
      ≡ holders (before ++ after) a + (if within (p, npages) a then 1 else 0)
  unfolding holders
  holders-middle =
      omega (arith, holders-append before ((p, npages) ∷ after) a, holders-append before after a)

back-IsFair :
    (room : Bool) (p npages : ℕ) (before after : List Range) (code : ℤ) (s : Client) (l : FreeList)
    → IsFair s
    → s.held ≡ before ++ ((p, npages) ∷ after)
    → 0 < npages
    → freelist_free room p npages s.list ≡ ok code l
    → IsFair (record { list = l; held = before ++ after })
back-IsFair room p npages before after code s l f split n run =
    let (here, rest) = Whole-middle before (p, npages) after (subst Whole split f.whole) in
    let count : (a : ℕ)
        → holders s.held a ≡ holders (before ++ after) a + (if within (p, npages) a then 1 else 0) =
      λ a. ap (λ h. holders h a) split ∙ holders-middle before after p npages a in
    let g : IsGift p npages s.list = record {
      aligned = here.0;
      some_pages = n;
      fits = here.1;
      unowned = λ a r. ground (arith, f.once a, count a);
    } in
    let outcome = Freed-run f.valid g run in
    record {
      valid = Freed-IsFreeList outcome f.valid;
      whole = rest;
      once = λ a. Freed-once (before ++ after) a outcome (ground (arith, f.once a, count a));
    }

pub Step-IsFair : {s t : Client} → Step s t → IsFair s → IsFair t
unfolding holders owns freelist_reset covers
Step-IsFair {s} (alloc npages va l e ne) f = alloc-IsFair npages va s l f e ne
Step-IsFair {s} (exhausted npages l e) f = exhausted-IsFair npages s l f e
Step-IsFair {s} (give room p npages code l g nobody run) f =
    let outcome = Freed-run f.valid g run in
    record {
      valid = Freed-IsFreeList outcome f.valid;
      whole = f.whole;
      once = λ a. Freed-once s.held a outcome (ground (arith, f.once a, nobody a, g.unowned a));
    }
Step-IsFair {s} (back room p npages before after code l split n run) f =
    back-IsFair room p npages before after code s l f split n run
Step-IsFair reset f = record {
  valid = record { sorted = tt };
  whole = f.whole;
  once = λ a. ground (arith, f.once a);
}

-- After any sequence of allocations, failed allocations, ranges dedicated that nobody holds or
-- owns, held ranges given back, and resets, from the empty list on: the list is well-formed,
-- the held ranges are whole pages below 2^64, every address is held at most once, and none
-- that is held is owned by the list.
pub Reach-IsFair : {s : Client} → Reach s → IsFair s
unfolding holders owns covers
Reach-IsFair start = record { valid = record { sorted = tt }; whole = tt; once = λ a. omega arith }
Reach-IsFair (next r st) = Step-IsFair st (Reach-IsFair r)
