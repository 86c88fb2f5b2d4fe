-- ===== src/Statistics/Chain.antt =====
-- A list linked by `next`, and appending to it.
use dangless_malloc.Prelude.{
  ℕ, ◌≡◌, ◌≢◌, refl, sym, ap, subst, ◌∙◌, List, [], ◌∷◌, ◌++◌, eq→==, ne→==,
}
use dangless_malloc.Statistics.{set_at}

-- The list that begins at `p` has the nodes `ps`.
abbrev pub IsChain : (ℕ → ℕ) → ℕ → List ℕ → Type 0
IsChain next p [] = p ≡ 0
IsChain next p (q ∷ qs) = (p ≡ q) × (q ≢ 0) × IsChain next (next q) qs

-- The last node, 0 if there is none.
abbrev pub last_of : List ℕ → ℕ
last_of [] = 0
last_of (q ∷ []) = q
last_of (q ∷ q' ∷ qs) = last_of (q' ∷ qs)

-- The last node of a list points nowhere.
pub next-last_of :
    (next : ℕ → ℕ) (p : ℕ) (q : ℕ) (qs : List ℕ)
    → IsChain next p (q ∷ qs)
    → next (last_of (q ∷ qs)) ≡ 0
next-last_of next p q [] (at, some_node, ends) = ends
next-last_of next p q (q' ∷ qs) (at, some_node, rest) = next-last_of next (next q) q' qs rest

pub set_at-same : {A : Type 0} (f : ℕ → A) (p : ℕ) (a : A) → set_at f p a p ≡ a
set_at-same f p a = rw (eq→== p p refl) refl

pub set_at-other : {A : Type 0} (f : ℕ → A) (p : ℕ) (a : A) (q : ℕ) → q ≢ p → set_at f p a q ≡ f q
set_at-other f p a q other = rw (ne→== q p other) refl

-- A change of `next` at the last node, to a new one, appends it.
pub IsChain-append :
    (next next' : ℕ → ℕ) (p q y : ℕ) (qs : List ℕ)
    → IsChain next p (q ∷ qs)
    → y ≢ 0
    → next' (last_of (q ∷ qs)) ≡ y
    → next' y ≡ 0
    → ((k : ℕ) → k ≢ last_of (q ∷ qs) → next' k ≡ next k)
    → IsChain next' p ((q ∷ qs) ++ y ∷ [])
IsChain-append next next' p q y [] (at, some_node, ends) some_y link end same =
    (at, some_node, (link, some_y, end))
IsChain-append next next' p q y (q' ∷ qs) (at, some_node, rest) some_y link end same =
    let onward : next q ≢ 0 = λ nowhere. rest.1 (sym rest.0 ∙ nowhere) in
    let not_last : q ≢ last_of (q' ∷ qs) =
      λ is_last. onward (ap next is_last ∙ next-last_of next (next q) q' qs rest) in
    (
      at,
      some_node,
      subst (λ n. IsChain next' n ((q' ∷ qs) ++ y ∷ [])) (sym (same q not_last))
          (IsChain-append next next' (next q) q' y qs rest some_y link end same),
    )

-- Whoever is in the list.
abbrev pub AllNodes : (ℕ → Type 0) → List ℕ → Type 0
AllNodes P [] = Unit
AllNodes P (q ∷ qs) = P q × AllNodes P qs

-- A list keeps its nodes where `next` of each of them stays.
pub IsChain-frame :
    (next next' : ℕ → ℕ) (p : ℕ) (qs : List ℕ)
    → IsChain next p qs
    → AllNodes (λ q. next' q ≡ next q) qs
    → IsChain next' p qs
IsChain-frame next next' p [] ends same = ends
IsChain-frame next next' p (q ∷ qs) (at, some_node, rest) (here, same) = (
  at,
  some_node,
  subst (λ n. IsChain next' n qs) (sym here) (IsChain-frame next next' (next q) qs rest same),
)
