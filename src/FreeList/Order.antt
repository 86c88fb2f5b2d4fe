-- ===== src/FreeList/Order.antt =====
-- The order that `struct vp_freelist` keeps, and the set of addresses that a list of spans covers.
use dangless_malloc.Prelude.{
  ℕ, ◌+◌, ◌%◌, ◌≤◌, ◌<◌, ◌≡◌, refl, ◌⊎◌, inl, inr, Bool, true, false, ◌&&◌, ◌||◌, List, [], ◌∷◌,
  arith, ltb, leb, word_size,
}
use native.Mathlib.Decide.{dec_le}
use dangless_malloc.Page.{pgsize}
use dangless_malloc.FreeList.{Span, rejoin}

abbrev pub in_range : ℕ → ℕ → ℕ → Bool
in_range start end a = leb start a && ltb a end

-- The addresses that the spans own.
unfoldable pub covers : List Span → ℕ → Bool
covers [] a = false
covers (s ∷ rest) a = in_range s.start s.end a || covers rest a

-- A span of whole pages, at least one.
pub record IsSpan (s : Span) : Type 0 where
  pub nonempty : s.start < s.end
  pub fits : s.end < word_size
  pub start_aligned : s.start % pgsize ≡ 0
  pub end_aligned : s.end % pgsize ≡ 0

-- Ascending from `lo` on, with a gap between any two: neighbours have been merged.
abbrev pub Sorted : ℕ → List Span → Type 0
Sorted lo [] = Unit
Sorted lo (s ∷ rest) = (lo ≤ s.start) × IsSpan s × Sorted (s.end + 1) rest

-- The least address at which a span may start behind those passed.
abbrev pub bound : List Span → ℕ
bound [] = 0
bound (s ∷ before) = s.end + 1

-- What has been passed, nearest first.
abbrev pub Falling : List Span → Type 0
Falling [] = Unit
Falling (s ∷ before) = (bound before ≤ s.start) × IsSpan s × Falling before

pub Sorted-weaken : {lo lo' : ℕ} (items : List Span) → lo' ≤ lo → Sorted lo items → Sorted lo' items
Sorted-weaken [] h o = tt
Sorted-weaken (s ∷ rest) h o = (omega arith, o.1, o.2)

pub rejoin-Sorted :
    (before after : List Span)
    → Falling before
    → Sorted (bound before) after
    → Sorted 0 (rejoin before after)
unfolding rejoin
rejoin-Sorted [] after f o = o
rejoin-Sorted (s ∷ before) after f o = rejoin-Sorted before (s ∷ after) f.2 (f.0, f.1, o)

pub covers-rejoin :
    (before after : List Span) (a : ℕ)
    → covers (rejoin before after) a ≡ (covers before a || covers after a)
unfolding covers rejoin
covers-rejoin [] after a = refl
covers-rejoin (s ∷ before) after a = ground (arith, covers-rejoin before (s ∷ after) a)

-- Below its lower bound a sorted list covers nothing.
pub covers_below :
    {lo : ℕ} (items : List Span) (a : ℕ) → Sorted lo items → a < lo → covers items a ≡ false
unfolding covers
covers_below [] a o h = refl
covers_below (s ∷ rest) a o h =
    ground
      (arith, o.1.nonempty, covers_below {lo = s.end + 1} rest a o.2 (omega (arith, o.1.nonempty)))

-- Every span lies on one side of the range.
abbrev pub Apart : ℕ → ℕ → List Span → Type 0
Apart start end [] = Unit
Apart start end (s ∷ rest) = ((s.end ≤ start) ⊎ (end ≤ s.start)) × Apart start end rest

-- A range none of whose addresses is owned lies apart from every span.
pub covers-Apart :
    {start end : ℕ} (items : List Span) (lo : ℕ)
    → Sorted lo items
    → start < end
    → ((a : ℕ) → in_range start end a ≡ true → covers items a ≡ false)
    → Apart start end items
unfolding covers
covers-Apart [] lo o h free = tt
covers-Apart {start} {end} (s ∷ rest) lo o h free =
    (side (dec_le s.end start) (dec_le end s.start), covers-Apart rest (s.end + 1) o.2 h rest_free)
  where
    side : Dec (s.end ≤ start) → Dec (end ≤ s.start) → (s.end ≤ start) ⊎ (end ≤ s.start)
    side (yes p) d = inl p
    side (no n) (yes p) = inr p
    side (no n) (no n') = absurd (ground (arith, o.1.nonempty, free start, free s.start))

    rest_free : (a : ℕ) → in_range start end a ≡ true → covers rest a ≡ false
    rest_free a i = ground (arith, free a i)
