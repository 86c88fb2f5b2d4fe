-- ===== src/FreeList/Give.antt =====
-- `freelist_free` on the list of spans: a range that is not owned yet is added, the order is kept,
-- and the range is merged with the neighbours that it touches.
use dangless_malloc.Prelude.{
  ℕ, ◌+◌, ◌≤◌, ◌<◌, ◌≡◌, refl, ◌∙◌, Bool, false, ◌||◌, List, [], ◌∷◌, arith, leb, if◌then◌else◌,
  Bool-cases, leb→le, inl, inr, ℤ, pos, negsuc, Run, ok,
}
use native.Mathlib.Decide.{ℕ_discrete}
use dangless_malloc.FreeList.{Span, span, locate, rejoin, give_pages}
use dangless_malloc.FreeList.Order.{
  in_range, covers, IsSpan, Sorted, Falling, bound, rejoin-Sorted, covers-rejoin, Apart,
}

-- The place that the search finds: what was passed ends at `start` or before, the rest begins at
-- `end` or behind, and together they are still `items`.
pub record Located (items : List Span) (start end : ℕ) (before after : List Span) : Type 0 where
  pub falling : Falling before
  pub sorted : Sorted (bound before) after
  pub behind : bound before ≤ start + 1
  pub ahead : Sorted end after
  pub same : rejoin before after ≡ items

abbrev pub LocatedAt : List Span → ℕ → ℕ → List Span × List Span → Type 0
LocatedAt items start end (before, after) = Located items start end before after

pub locate-Located :
    (start end : ℕ) (before after : List Span)
    → start < end
    → Falling before
    → Sorted (bound before) after
    → bound before ≤ start + 1
    → Apart start end after
    → LocatedAt (rejoin before after) start end (locate end before after)
unfolding locate rejoin
locate-Located start end before [] h f o b apart = record {
  falling = f;
  sorted = tt;
  behind = b;
  ahead = tt;
  same = refl;
}
locate-Located start end before (next ∷ after) h f o b apart =
    elim (Bool-cases (leb end next.start)) [
      | inl e ↦ rw e (record {
        falling = f;
        sorted = o;
        behind = b;
        ahead = (leb→le _ _ e, o.1, o.2);
        same = refl;
      })
      | inr e ↦ rw e (
          locate-Located start end (next ∷ before) after h (o.0, o.1, f) o.2 (ground arith) apart.1)
    ]

-- What giving back `[start, end)` between `before` and `after` may come to.
pub data Given (room : Bool) (start end : ℕ) (before after : List Span)
    : Run (List Span) ℤ → Type 0 where
  given :
      {items : List Span}
      → Sorted 0 items
      → ((a : ℕ) → covers items a ≡ (covers before a || covers after a || in_range start end a))
      → Given room start end before after (ok (pos 0) items)
  no_room : room ≡ false → Given room start end before after (ok (negsuc 0) (rejoin before after))

-- A span put at a place where it fits.
placed :
    {room : Bool} {start end : ℕ} {before after : List Span} (front back : List Span) (s : Span)
    → Falling front
    → IsSpan s
    → bound front ≤ s.start
    → Sorted (s.end + 1) back
    → ((a : ℕ)
        → (covers front a || in_range s.start s.end a || covers back a)
          ≡ (covers before a || covers after a || in_range start end a))
    → Given room start end before after (ok (pos 0) (rejoin front (s ∷ back)))
unfolding covers
placed front back s f i b o same =
    given (rejoin-Sorted front (s ∷ back) f (b, i, o))
      (λ a. covers-rejoin front (s ∷ back) a ∙ ground (arith, same a))

module _ (room : Bool) (start end : ℕ) (i : IsSpan (span start end)) where
  -- Neither neighbour touches the range: a span of its own, if there is memory for it.
  created :
      (before after : List Span)
      → Falling before
      → bound before ≤ start
      → Sorted (end + 1) after
      → Given room start end before after (
          if room
          then ok (pos 0) (rejoin before (span start end ∷ after))
          else ok (negsuc 0) (rejoin before after))
  created before after f b o = elim (Bool-cases room) [
    | inl e ↦ rw e (placed before after (span start end) f i b o (λ a. ground arith))
    | inr e ↦ rw e (no_room refl)
  ]

  -- The four shapes of the result, by which neighbours the range touches.
  join_both :
      (prev : Span) (before : List Span) (next : Span) (after : List Span)
      → Falling (prev ∷ before)
      → prev.end ≡ start
      → Sorted end (next ∷ after)
      → next.start ≡ end
      → Given room start end
          (prev ∷ before)
          (next ∷ after)
          (ok (pos 0) (rejoin before (span prev.start next.end ∷ after)))
  unfolding covers
  join_both prev before next after f e o e' =
      placed before after (span prev.start next.end) f.2
        (ground (arith, f.1.nonempty, o.1.nonempty, i.nonempty)) f.0 o.2
        (λ a. ground (arith, f.1.nonempty, o.1.nonempty, i.nonempty))

  join_prev :
      (prev : Span) (before after : List Span)
      → Falling (prev ∷ before)
      → prev.end ≡ start
      → Sorted (end + 1) after
      → Given room start end
          (prev ∷ before)
          after
          (ok (pos 0) (rejoin before (span prev.start end ∷ after)))
  unfolding covers
  join_prev prev before after f e o =
      placed before after (span prev.start end) f.2 (ground (arith, f.1.nonempty, i.nonempty)) f.0 o
        (λ a. ground (arith, f.1.nonempty, i.nonempty))

  join_next :
      (before : List Span) (next : Span) (after : List Span)
      → Falling before
      → bound before ≤ start
      → Sorted end (next ∷ after)
      → next.start ≡ end
      → Given room start end before
          (next ∷ after)
          (ok (pos 0) (rejoin before (span start next.end ∷ after)))
  unfolding covers
  join_next before next after f b o e =
      placed before after (span start next.end) f (ground (arith, o.1.nonempty, i.nonempty)) b o.2
        (λ a. ground (arith, o.1.nonempty, i.nonempty))

  give_first :
      (next : Span) (after : List Span)
      → Sorted end (next ∷ after)
      → Given room start end [] (next ∷ after) (give_pages room start end [] (next ∷ after))
  unfolding give_pages
  give_first next after o = elim (ℕ_discrete next.start end) [
    | yes e ↦
        let r : give_pages room start end [] (next ∷ after)
            ≡ ok (pos 0) (span start next.end ∷ after) =
          ground arith in
        rw r (join_next [] next after tt (omega arith) o e)
    | no n ↦
        let r : give_pages room start end [] (next ∷ after) ≡ (
            if room
            then ok (pos 0) (span start end ∷ next ∷ after)
            else ok (negsuc 0) (next ∷ after)) =
          ground arith in
        rw r (created [] (next ∷ after) tt (omega arith) (omega arith, o.1, o.2))
  ]

  give_last :
      (prev : Span) (before : List Span)
      → Falling (prev ∷ before)
      → prev.end ≤ start
      → Given room start end (prev ∷ before) [] (give_pages room start end (prev ∷ before) [])
  unfolding give_pages
  give_last prev before f b = elim (ℕ_discrete prev.end start) [
    | yes e ↦
        let r : give_pages room start end (prev ∷ before) []
            ≡ ok (pos 0) (rejoin before (span prev.start end ∷ [])) =
          ground arith in
        rw r (join_prev prev before [] f e tt)
    | no n ↦
        let r : give_pages room start end (prev ∷ before) [] ≡ (
            if room
            then ok (pos 0) (rejoin (prev ∷ before) (span start end ∷ []))
            else ok (negsuc 0) (rejoin (prev ∷ before) [])) =
          ground arith in
        rw r (created (prev ∷ before) [] f (omega arith) tt)
  ]

  give_between :
      (prev : Span) (before : List Span) (next : Span) (after : List Span)
      → Falling (prev ∷ before)
      → prev.end ≤ start
      → Sorted end (next ∷ after)
      → Given room start end
          (prev ∷ before)
          (next ∷ after)
          (give_pages room start end (prev ∷ before) (next ∷ after))
  unfolding give_pages
  give_between prev before next after f b o = elim (ℕ_discrete prev.end start) [
    | yes e ↦ elim (ℕ_discrete next.start end) [
      | yes e' ↦
          let r : give_pages room start end (prev ∷ before) (next ∷ after)
              ≡ ok (pos 0) (rejoin before (span prev.start next.end ∷ after)) =
            ground arith in
          rw r (join_both prev before next after f e o e')
      | no n ↦
          let r : give_pages room start end (prev ∷ before) (next ∷ after)
              ≡ ok (pos 0) (rejoin before (span prev.start end ∷ next ∷ after)) =
            ground arith in
          rw r (join_prev prev before (next ∷ after) f e (omega arith, o.1, o.2))
    ]
    | no n ↦ elim (ℕ_discrete next.start end) [
      | yes e ↦
          let r : give_pages room start end (prev ∷ before) (next ∷ after)
              ≡ ok (pos 0) (rejoin (prev ∷ before) (span start next.end ∷ after)) =
            ground arith in
          rw r (join_next (prev ∷ before) next after f (omega arith) o e)
      | no n' ↦
          let r : give_pages room start end (prev ∷ before) (next ∷ after) ≡ (
              if room
              then ok (pos 0) (rejoin (prev ∷ before) (span start end ∷ next ∷ after))
              else ok (negsuc 0) (rejoin (prev ∷ before) (next ∷ after))) =
            ground arith in
          rw r (created (prev ∷ before) (next ∷ after) f (omega arith) (omega arith, o.1, o.2))
    ]
  ]

  pub give_pages-Given :
      (before after : List Span)
      → Falling before
      → bound before ≤ start + 1
      → Sorted end after
      → Given room start end before after (give_pages room start end before after)
  unfolding give_pages
  give_pages-Given [] [] f b o = created [] [] tt (omega arith) tt
  give_pages-Given [] (next ∷ after) f b o = give_first next after o
  give_pages-Given (prev ∷ before) [] f b o = give_last prev before f (omega arith)
  give_pages-Given (prev ∷ before) (next ∷ after) f b o =
      give_between prev before next after f (omega arith) o
