-- ===== src/FreeList/Commute.antt =====
-- The order in which pages are given back leaves no trace in the list.
use dangless_malloc.Prelude.{
  ℕ, ◌+◌, ◌*◌, ◌≡◌, refl, sym, ap, ◌∙◌, true, false, ◌||◌, ℤ, pos, ok, Bool, Bool-cases, inl, inr,
}
use dangless_malloc.Page.{pgsize}
use dangless_malloc.FreeList.{FreeList, freelist_free}
use dangless_malloc.FreeList.Order.{in_range, covers}
use dangless_malloc.FreeList.Canonical.{eq_of_covers}
use dangless_malloc.FreeList.Contract.{
  IsFreeList, owns, IsGift, Freed, freed, kept, freelist_free-Freed,
}

-- The two ranges share no page.
abbrev pub Disjoint : ℕ → ℕ → ℕ → ℕ → Type 0
Disjoint p n q k =
    (a : ℕ) → in_range p (p + n * pgsize) a ≡ true → in_range q (q + k * pgsize) a ≡ false

-- Where there is memory, giving back succeeds.
Freed-outcome :
    {p n : ℕ} {l : FreeList} {code : ℤ} {l' : FreeList}
    → Freed true p n l code l'
    → (code ≡ pos 0)
      × IsFreeList l'
      × ((a : ℕ) → owns l' a ≡ (owns l a || in_range p (p + n * pgsize) a))
Freed-outcome (freed v same) = (refl, v, same)
Freed-outcome (kept e) = absurd (cc e)

give_all :
    (p n : ℕ) (l : FreeList)
    → IsFreeList l
    → IsGift p n l
    → (l' : FreeList) × (freelist_free true p n l ≡ ok (pos 0) l')
      × IsFreeList l'
      × ((a : ℕ) → owns l' a ≡ (owns l a || in_range p (p + n * pgsize) a))
give_all p n l v g =
    let (code, l', run, outcome) = freelist_free-Freed true p n l v g in
    let (zero_code, v', same) = Freed-outcome outcome in
    (l', run ∙ ap (λ c. ok c l') zero_code, v', same)

-- The second range is still a gift behind the first.
still-IsGift :
    (p n q k : ℕ) (l l' : FreeList)
    → Disjoint p n q k
    → IsGift q k l
    → ((a : ℕ) → owns l' a ≡ (owns l a || in_range p (p + n * pgsize) a))
    → IsGift q k l'
still-IsGift p n q k l l' apart g same = record {
  aligned = g.aligned;
  some_pages = g.some_pages;
  fits = g.fits;
  unowned = λ a inside. elim (Bool-cases (in_range p (p + n * pgsize) a)) [
    | inl clash ↦ absurd (cc (sym (apart a clash) ∙ inside))
    | inr other ↦ same a ∙ rw (g.unowned a inside, other) refl
  ];
}

-- Both ranges, one after the other.
give_both :
    (p n q k : ℕ) (l : FreeList)
    → IsFreeList l
    → IsGift p n l
    → IsGift q k l
    → Disjoint p n q k
    → (m : FreeList) × (l' : FreeList) × (freelist_free true p n l ≡ ok (pos 0) m)
      × (freelist_free true q k m ≡ ok (pos 0) l')
      × IsFreeList l'
      × ((a : ℕ)
          → owns l' a
            ≡ ((owns l a || in_range p (p + n * pgsize) a) || in_range q (q + k * pgsize) a))
give_both p n q k l v g h apart =
    let (m, run, v', same) = give_all p n l v g in
    let (l', run', v'', same') = give_all q k m v' (still-IsGift p n q k l m apart h same) in
    (m, l', run, run', v'', λ a. same' a ∙ ap (λ b. b || in_range q (q + k * pgsize) a) (same a))

or_swap : (a b c : Bool) → ((a || b) || c) ≡ ((a || c) || b)
or_swap true b c = refl
or_swap false true true = refl
or_swap false true false = refl
or_swap false false true = refl
or_swap false false false = refl

-- On a well-formed list that owns nothing of two ranges of whole pages, which share no page
-- and end below 2^64, and where MALLOC does not fail: freelist_free of the one and then of the
-- other, and of the other and then of the one, each return 0 every time, and leave the very
-- same list of spans.
pub freelist_free-commutes :
    (p n q k : ℕ) (l : FreeList)
    → IsFreeList l
    → IsGift p n l
    → IsGift q k l
    → Disjoint p n q k
    → (m m' l' l'' : FreeList) × (freelist_free true p n l ≡ ok (pos 0) m)
      × (freelist_free true q k m ≡ ok (pos 0) l')
      × (freelist_free true q k l ≡ ok (pos 0) m')
      × (freelist_free true p n m' ≡ ok (pos 0) l'')
      × (l'.items ≡ l''.items)
unfolding owns
freelist_free-commutes p n q k l v g h apart =
    let apart' : Disjoint q k p n = λ a inside. elim (Bool-cases (in_range p (p + n * pgsize) a)) [
      | inl clash ↦ absurd (cc (sym (apart a clash) ∙ inside))
      | inr other ↦ other
    ] in
    let (m, l', run, run', v', same) = give_both p n q k l v g h apart in
    let (m', l'', run'', run''', v'', same') = give_both q k p n l v h g apart' in
    (
      m,
      m',
      l',
      l'',
      run,
      run',
      run'',
      run''',
      eq_of_covers l'.items l''.items 0 v'.sorted v''.sorted
          (λ a. same a ∙ or_swap (covers l.items a) _ _ ∙ sym (same' a)),
    )
