-- ===== src/FreeList/Take.antt =====
-- `freelist_alloc` on the list of spans: what is taken, what is left, and when nothing fits.
use dangless_malloc.Prelude.{
  ℕ, ◌+◌, ◌-◌, ◌*◌, ◌%◌, ◌≤◌, ◌<◌, ◌≡◌, ◌↔◌, refl, true, not, ◌&&◌, List, [], ◌∷◌, none, some,
  arith, leb, leb→le, Bool-cases, Option-cases, word_size, add64, mul64, ◌==◌, if◌then◌else◌, inl,
  inr,
}
use mathlib.Core.Path.{subst₂}
use dangless_malloc.Page.{pgsize}
use dangless_malloc.FreeList.{Span, span, span_num_pages, carve, take_pages}
use dangless_malloc.FreeList.Order.{in_range, covers, IsSpan, Sorted, Sorted-weaken, covers_below}

-- The pages of a span, without the wrap-around of the subtraction.
span_num_pages_lem : (s : Span) → IsSpan s → span_num_pages s * pgsize ≡ s.end - s.start
unfolding span_num_pages
span_num_pages_lem s i = omega arith

-- Where the span has the pages, its new start does not wrap.
module _ (npages : ℕ) (s : Span) (rest : List Span) (i : IsSpan s)
    (enough : npages ≤ span_num_pages s) where
  abbrev mid : ℕ
  mid = s.start + npages * pgsize

  mid-le : mid ≤ s.end
  mid-le = omega (arith, span_num_pages_lem s i, i.nonempty)

  carve_lem : carve npages s rest ≡ (if mid == s.end then rest else span mid s.end ∷ rest)
  unfolding carve
  carve_lem =
      let exact : add64 s.start (mul64 npages pgsize) ≡ mid = omega (arith, mid-le, i.fits) in
      rw exact

  carve-Sorted : (lo : ℕ) → lo ≤ s.start → Sorted (s.end + 1) rest → Sorted lo (carve npages s rest)
  carve-Sorted lo h o = rw carve_lem (elim (Bool-cases (mid == s.end)) [
    | inl e ↦ rw e (Sorted-weaken rest (omega (arith, i.nonempty)) o)
    | inr e ↦ rw e (omega arith, ground (arith, mid-le), o)
  ])

  -- Exactly the pages at the front of the span are no longer owned.
  covers-carve :
      (a : ℕ)
      → Sorted (s.end + 1) rest
      → covers (carve npages s rest) a ≡ (covers (s ∷ rest) a && not (in_range s.start mid a))
  unfolding covers
  covers-carve a o = rw carve_lem (ground (arith, mid-le, i.nonempty, covers_below rest a o))

-- What a successful allocation of `npages` pages at `va` did to the spans.
pub record Taken (npages : ℕ) (items : List Span) (va : ℕ) (items' : List Span) : Type 0 where
  pub aligned : va % pgsize ≡ 0
  pub fits : va + npages * pgsize < word_size
  pub owned : (a : ℕ) → in_range va (va + npages * pgsize) a ≡ true → covers items a ≡ true
  pub left :
      (a : ℕ) → covers items' a ≡ (covers items a && not (in_range va (va + npages * pgsize) a))

-- A span in front of the one that is used stays.
Taken-cons :
    {npages va : ℕ} {items items' : List Span} (s : Span)
    → s.end ≤ va
    → Taken npages items va items'
    → Taken npages (s ∷ items) va (s ∷ items')
unfolding covers
Taken-cons s h t = record {
  aligned = t.aligned;
  fits = t.fits;
  owned = λ a r. ground (arith, t.owned a r);
  left = λ a. ground (arith, t.left a);
}

carve-Taken :
    (npages lo : ℕ) (s : Span) (rest : List Span)
    → Sorted lo (s ∷ rest)
    → npages ≤ span_num_pages s
    → (lo ≤ s.start)
      × Sorted lo (carve npages s rest)
      × Taken npages (s ∷ rest) s.start (carve npages s rest)
unfolding covers
carve-Taken npages lo s rest o enough = (
  o.0,
  carve-Sorted npages s rest o.1 enough lo o.0 o.2,
  record {
    aligned = o.1.start_aligned;
    fits = omega (arith, mid-le npages s rest o.1 enough, o.1.fits);
    owned = λ a r. ground (arith, mid-le npages s rest o.1 enough);
    left = λ a. covers-carve npages s rest o.1 enough a o.2;
  },
)

-- The search over all spans: the result is in order again, and the address lies in the list.
pub take_pages-Taken :
    (npages : ℕ) (items : List Span) (lo va : ℕ) (items' : List Span)
    → Sorted lo items
    → take_pages npages items ≡ some (va, items')
    → (lo ≤ va) × Sorted lo items' × Taken npages items va items'
unfolding take_pages
take_pages-Taken npages [] lo va items' o e = cc
take_pages-Taken npages (s ∷ rest) lo va items' o e =
    elim (Bool-cases (leb npages (span_num_pages s))) [
      | inl enough ↦
          let here : s.start ≡ va = ground arith in
          let there : carve npages s rest ≡ items' = ground arith in
          subst₂ (λ v l. (lo ≤ v) × Sorted lo l × Taken npages (s ∷ rest) v l) here there
            (carve-Taken npages lo s rest o (leb→le _ _ enough))
      | inr short ↦ elim (Option-cases (take_pages npages rest)) [
        | inl nowhere ↦ cc (rw (short, nowhere) at e)
        | inr ((v, l), found) ↦
            let here : v ≡ va = ground arith in
            let there : s ∷ l ≡ items' = ground arith in
            let (low, sorted, taken) = take_pages-Taken npages rest (s.end + 1) v l o.2 found in
            subst₂ (λ v l. (lo ≤ v) × Sorted lo l × Taken npages (s ∷ rest) v l) here there
              (omega (arith, o.1.nonempty), (o.0, o.1, sorted), Taken-cons s (omega arith) taken)
      ]
    ]

-- No span has the pages.
abbrev pub Short : ℕ → List Span → Type 0
Short npages [] = Unit
Short npages (s ∷ rest) = (span_num_pages s < npages) × Short npages rest

pub take_pages-none_iff :
    (npages : ℕ) (items : List Span) → (take_pages npages items ≡ none) ↔ Short npages items
unfolding take_pages
take_pages-none_iff npages [] = (λ e. tt, λ h. refl)
take_pages-none_iff npages (s ∷ rest) =
    let (there, back) = take_pages-none_iff npages rest in
    (λ e. (ground arith, there (ground arith)), λ h. ground (arith, back h.1))
