-- ===== src/Rumprun/Pages.antt =====
-- The pages that a list of spans holds, and what the allocator on rumprun takes from it.
use dangless_malloc.Prelude.{
  ℕ, ◌+◌, ◌-◌, ◌^◌, ◌≤◌, ◌<◌, ◌≡◌, refl, ◌⊎◌, inl, inr, ◌&&◌, none, some, List, [], ◌∷◌, ltb, leb,
  if◌then◌else◌, arith, Bool-cases, ne→==, eq→==,
}
use native.Mathlib.Decide.{ℕ_discrete}
use dangless_malloc.Rumprun.{PpSpan, add32, sub32, advance, take_from}

-- 1 for a page from number `b` up to `e`.
abbrev pub within : ℕ → ℕ → ℕ → ℕ
within b e k = if leb b k && ltb k e then 1 else 0

-- How often the spans hold page `k`.
abbrev pub tally : List PpSpan → ℕ → ℕ
tally [] k = 0
tally (ps ∷ rest) k = within ps.begin ps.end k + tally rest k

-- A span has a page, and ends below 4 GB.
abbrev pub IsPpSpan : PpSpan → Type 0
IsPpSpan ps = (ps.begin < ps.end) × (ps.end ≤ 2 ^ 20)

abbrev pub AllSpans : List PpSpan → Type 0
AllSpans [] = Unit
AllSpans (ps ∷ rest) = IsPpSpan ps × AllSpans rest

-- No span has `npages` pages.
abbrev pub AllShort : ℕ → List PpSpan → Type 0
AllShort npages [] = Unit
AllShort npages (ps ∷ rest) = (ps.end - ps.begin < npages) × AllShort npages rest

-- The pages from number `i` on have left the list.
pub record Taken (npages i : ℕ) (spans spans' : List PpSpan) : Type 0 where
  pub fits : i + npages ≤ 2 ^ 20
  pub valid : AllSpans spans'
  pub moved : (k : ℕ) → tally spans k ≡ tally spans' k + within i (i + npages) k

pub advance-Taken :
    (npages : ℕ) (ps : PpSpan) (rest : List PpSpan)
    → 0 < npages
    → IsPpSpan ps
    → AllSpans rest
    → npages ≤ ps.end - ps.begin
    → Taken npages ps.begin (ps ∷ rest) (advance npages ps rest)
unfolding advance
advance-Taken npages ps rest some_pages h valid enough =
    let sum : add32 ps.begin npages ≡ ps.begin + npages = omega arith in
    elim (ℕ_discrete (ps.begin + npages) ps.end) [
      | yes all ↦
          rw (sum, eq→== _ _ all)
            (record { fits = omega arith; valid = valid; moved = λ k. ground (arith, all) })
      | no part ↦
          rw (sum, ne→== _ _ part)
            (record {
              fits = omega arith;
              valid = ((omega arith, h.1), valid);
              moved = λ k. ground (arith, part, h.0, enough);
            })
    ]

pub take_from-Taken :
    (npages : ℕ) (spans : List PpSpan)
    → 0 < npages
    → AllSpans spans
    → ((take_from npages spans ≡ none) × AllShort npages spans)
      ⊎ ((i : ℕ) × (spans' : List PpSpan) × (take_from npages spans ≡ some (i, spans'))
          × Taken npages i spans spans')
unfolding take_from
take_from-Taken npages [] some_pages valid = inl (refl, tt)
take_from-Taken npages (ps ∷ rest) some_pages valid =
    let size : sub32 ps.end ps.begin ≡ ps.end - ps.begin = omega arith in
    elim (Bool-cases (leb npages (ps.end - ps.begin))) [
      | inl enough ↦ inr (
        ps.begin,
        advance npages ps rest,
        rw (size, enough) refl,
        advance-Taken npages ps rest some_pages valid.0 valid.1 (ground (arith, enough)),
      )
      | inr short ↦ elim (take_from-Taken npages rest some_pages valid.1) [
        | inl (nowhere, all_short) ↦
            inl (rw (size, short) (rw nowhere refl), (ground (arith, short), all_short))
        | inr (i, spans', found, t) ↦ inr (
          i,
          ps ∷ spans',
          rw (size, short) (rw found refl),
          record {
            fits = t.fits;
            valid = (valid.0, t.valid);
            moved = λ k. omega (arith, t.moved k);
          },
        )
      ]
    ]
