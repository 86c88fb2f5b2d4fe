-- ===== src/FreeList/Canonical.antt =====
-- A set of addresses has one ordered list of spans: that neighbours are merged leaves no choice.
use dangless_malloc.Prelude.{ℕ, ◌+◌, ◌≤◌, ◌≡◌, refl, sym, ap₂, List, [], ◌∷◌, arith}
use dangless_malloc.FreeList.{Span}
use dangless_malloc.FreeList.Order.{covers, Sorted, covers_below}

abbrev SameCover : List Span → List Span → Type 0
SameCover xs ys = (a : ℕ) → covers xs a ≡ covers ys a

module _ (x y : Span) (xs ys : List Span) {lo : ℕ} (o : Sorted lo (x ∷ xs)) (p : Sorted lo (y ∷ ys))
    (same : SameCover (x ∷ xs) (y ∷ ys)) where
  start-le : x.start ≤ y.start
  unfolding covers
  start-le = ground (arith, o.1.nonempty, p.1.nonempty, same y.start, covers_below xs y.start o.2)

  end-le : y.start ≤ x.start → y.end ≤ x.end
  unfolding covers
  end-le h = ground (arith, o.1.nonempty, p.1.nonempty, same x.end, covers_below xs x.end o.2)

  rest_same : x.start ≡ y.start → x.end ≡ y.end → SameCover xs ys
  unfolding covers
  rest_same e e' a = ground (arith, same a, covers_below xs a o.2, covers_below ys a p.2)

-- Two well-formed lists of spans that own the same addresses are the same list, so merging
-- neighbours leaves one representation of a set of pages.
pub eq_of_covers :
    (xs ys : List Span) (lo : ℕ) → Sorted lo xs → Sorted lo ys → SameCover xs ys → xs ≡ ys
unfolding covers
eq_of_covers [] [] lo o p same = refl
eq_of_covers [] (y ∷ ys) lo o p same = absurd (ground (arith, p.1.nonempty, same y.start))
eq_of_covers (x ∷ xs) [] lo o p same = absurd (ground (arith, o.1.nonempty, same x.start))
eq_of_covers (x ∷ xs) (y ∷ ys) lo o p same =
    let back : SameCover (y ∷ ys) (x ∷ xs) = λ a. sym (same a) in
    let h = start-le x y xs ys o p same in
    let h' = start-le y x ys xs p o back in
    let e : x.start ≡ y.start = omega arith in
    let k = end-le x y xs ys o p same (omega arith) in
    let k' = end-le y x ys xs p o back (omega arith) in
    let e' : x.end ≡ y.end = omega arith in
    ap₂ ◌∷◌ (ground arith)
      (eq_of_covers xs ys (x.end + 1) o.2 (rw e' p.2) (rest_same x y xs ys o p same e e'))
