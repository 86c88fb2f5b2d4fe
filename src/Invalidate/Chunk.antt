-- ===== src/Invalidate/Chunk.antt =====
-- The inner loop of virtual_invalidate, and how what it does adds up.
use dangless_malloc.Prelude.{
  ℕ, zero, suc, ◌+◌, ◌*◌, ◌%◌, ◌^◌, ◌≤◌, ◌<◌, ◌≡◌, refl, sym, ap₂, subst, subst₂, ◌∙◌, arith,
  Option, some, List, ◌∷◌, ◌==◌, if◌then◌else◌, eq→==, add64, word_size, ok,
}
use native.Mathlib.Decide.{dec_lt}
use dangless_malloc.Page.{pgsize, pg_offset}
use dangless_malloc.Dune.{Dune, Machine}
use dangless_malloc.VirtMem.{pte_invalidated, pt_walk}
use dangless_malloc.VirtMem.Entries.{region, region_add}
use dangless_malloc.VirtMem.Tree.{IsLayout, Sites, IsTree}
use dangless_malloc.VirtMem.Walk.{Found, pt_walk-Found}
use dangless_malloc.VirtMem.Change.{pt_walk-alike}
use dangless_malloc.VirtMem.Leaf.{written, leaf-IsTree, leaf_walk, leaf_kept}
use dangless_malloc.VirtMem.Region.{InPage}
use dangless_malloc.Invalidate.{invalidate_ptes}

-- From `m` to `m'`, exactly the entries of the pages of `p` from number `i` up to `j` are marked.
pub record Invalidated (dune : Dune) (site : Sites) (m m' : Machine) (p i j : ℕ) : Type 0 where
  pub tree : IsTree dune site m'
  pub walks : (va : ℕ) → pt_walk dune m' va 1 ≡ pt_walk dune m va 1
  pub marked :
      (va k e : ℕ)
      → i ≤ k
      → k < j
      → InPage p k va
      → pt_walk dune m va 1 ≡ some (1, e)
      → m'.mem e ≡ pte_invalidated
  pub kept :
      (va level e : ℕ)
      → ((k : ℕ) → i ≤ k → k < j → ¬ InPage p k va)
      → pt_walk dune m va 1 ≡ some (level, e)
      → m'.mem e ≡ m.mem e
  pub calls : m'.calls ≡ m.calls

pub Invalidated-none :
    {dune : Dune} {site : Sites} {m : Machine} (p i : ℕ)
    → IsTree dune site m
    → Invalidated dune site m m p i i
Invalidated-none p i tree = record {
  tree = tree;
  walks = λ va. refl;
  marked = λ va k e low high. absurd (omega arith);
  kept = λ va level e out walked. refl;
  calls = refl;
}

pub Invalidated-trans :
    {dune : Dune} {site : Sites} {m m' m'' : Machine} {p i j : ℕ} (l : ℕ)
    → i ≤ j
    → j ≤ l
    → Invalidated dune site m m' p i j
    → Invalidated dune site m' m'' p j l
    → Invalidated dune site m m'' p i l
Invalidated-trans {j = j} l h h' a b = record {
  tree = b.tree;
  walks = λ va. b.walks va ∙ a.walks va;
  marked = λ va k e low high inside walked. elim (dec_lt k j) [
    | yes first ↦
        b.kept va 1 e (λ k' low' high' inside'. absurd (omega arith)) (a.walks va ∙ walked)
        ∙ a.marked va k e low first inside walked
    | no second ↦ b.marked va k e (omega arith) high inside (a.walks va ∙ walked)
  ];
  kept = λ va level e out walked.
      b.kept va level e (λ k low high. out k (omega arith) high) (a.walks va ∙ walked)
      ∙ a.kept va level e (λ k low high. out k low (omega arith)) walked;
  calls = b.calls ∙ a.calls;
}

-- A machine in which one entry is written and a flush is noted.
abbrev marked_one : Machine → ℕ → ℕ → Machine
marked_one m e a = record m {
  mem = λ b. if b == e then pte_invalidated else m.mem b;
  flushed = a ∷ m.flushed;
}

flushed_walk :
    (dune : Dune) (m : Machine) (log : List ℕ) (va : ℕ)
    → pt_walk dune (record m { flushed = log }) va 1 ≡ pt_walk dune m va 1
unfolding pt_walk
flushed_walk dune m log va = refl

walk-Found :
    {dune : Dune} (lay : IsLayout dune) {site : Sites} {m : Machine} (tree : IsTree dune site m)
    (va level e : ℕ)
    → pt_walk dune m va 1 ≡ some (level, e)
    → (k : ℕ) × (level ≡ suc k) × Found dune site m va k e
walk-Found {dune} lay {site} {m} tree va level e walked =
    let (k, e', walked', found) = pt_walk-Found lay tree va in
    let same : ◌≡◌ {A = Option (ℕ × ℕ)} (some (suc k, e')) (some (level, e)) =
      sym walked' ∙ walked in
    let number : level ≡ suc k = cc same in
    let entry : e' ≡ e = cc same in (k, number, subst (λ x. Found dune site m va k x) entry found)

pub Found-last :
    {dune : Dune} (lay : IsLayout dune) {site : Sites} {m : Machine} (tree : IsTree dune site m)
    (va e : ℕ)
    → pt_walk dune m va 1 ≡ some (1, e)
    → Found dune site m va 0 e
Found-last {dune} lay {site} {m} tree va e walked =
    let (k, number, found) = walk-Found lay tree va 1 e walked in
    let last : k ≡ 0 = omega arith in subst (λ n. Found dune site m va n e) last found

invalidate_ptes-zero :
    (ppte ppage offset : ℕ) (m : Machine) → invalidate_ptes zero ppte ppage offset m ≡ ok tt m
unfolding invalidate_ptes
invalidate_ptes-zero ppte ppage offset m = refl

-- One round of the inner loop.
invalidate_ptes-suc :
    (count ppte ppage offset : ℕ) (m : Machine) {e a : ℕ}
    → add64 ppte (8 * offset) ≡ e
    → pg_offset ppage offset ≡ a
    → invalidate_ptes (suc count) ppte ppage offset m
      ≡ invalidate_ptes count ppte ppage (offset + 1) (marked_one m e a)
unfolding invalidate_ptes
invalidate_ptes-suc count ppte ppage offset m e e' =
    ap₂ (λ x y. invalidate_ptes count ppte ppage (offset + 1) (marked_one m x y)) e e'

module _ {dune : Dune} (lay : IsLayout dune) {site : Sites} (p : ℕ) (aligned : p % pgsize ≡ 0) where
  -- One entry.
  Invalidated-one :
      (m : Machine) (k e a : ℕ)
      → p + k * pgsize < 2 ^ 48
      → IsTree dune site m
      → pt_walk dune m (p + k * pgsize) 1 ≡ some (1, e)
      → Invalidated dune site m (marked_one m e a) p k (k + 1)
  Invalidated-one m k e a fits tree walked =
      let va : ℕ = p + k * pgsize in
      let w : Machine = written m e pte_invalidated in
      let found = Found-last lay tree va e walked in
      let number : InPage p k va = region_add p k aligned fits in
      let t = leaf-IsTree lay m va e pte_invalidated tree walked found in
      record {
        tree = record { root = t.root; page = t.page; child = t.child; fresh = t.fresh };
        walks = λ va'.
            flushed_walk dune w (a ∷ m.flushed) va'
            ∙ leaf_walk lay m va e pte_invalidated tree walked found va';
        marked = λ va' k' e' low high inside walked'.
            let alike : region va' 0 ≡ region va 0 = omega arith in
            let there : ◌≡◌ {A = Option (ℕ × ℕ)} (some (1, e')) (some (1, e)) =
              sym walked' ∙ pt_walk-alike lay tree found walked va' alike in
            let same : e' ≡ e = cc there in rw (eq→== e' e same);
        kept = λ va' level e' out walked'.
            let (j, number', found') = walk-Found lay tree va' level e' walked' in
            leaf_kept lay m va e pte_invalidated tree walked found va'
              (λ eq. out k (omega arith) (omega arith) (omega arith)) found';
        calls = refl;
      }

  -- The entries of the pages from number `b` on lie one behind the other from `ppte` on.
  pub invalidate_ptes-Invalidated :
      (count b offset ppte ppage : ℕ) (m : Machine)
      → p + (b + offset + count) * pgsize ≤ 2 ^ 48
      → ppte + 8 * (offset + count) ≤ word_size
      → IsTree dune site m
      → ((i : ℕ)
          → offset ≤ i
          → i < offset + count
          → pt_walk dune m (p + (b + i) * pgsize) 1 ≡ some (1, ppte + 8 * i))
      → (m' : Machine) × (invalidate_ptes count ppte ppage offset m ≡ ok tt m')
        × Invalidated dune site m m' p (b + offset) (b + offset + count)
  invalidate_ptes-Invalidated zero b offset ppte ppage m fits low tree walked =
      let none_left : b + offset + 0 ≡ b + offset = omega arith in
      (
        m,
        invalidate_ptes-zero ppte ppage offset m,
        rw none_left (Invalidated-none p (b + offset) tree),
      )
  invalidate_ptes-Invalidated (suc count) b offset ppte ppage m fits low tree walked =
      let e : ℕ = ppte + 8 * offset in
      let a : ℕ = pg_offset ppage offset in
      let at : add64 ppte (8 * offset) ≡ e = omega arith in
      let one =
        Invalidated-one m (b + offset) e a (omega arith) tree
          (walked offset (omega arith) (omega arith)) in
      let (m', run, rest) =
        invalidate_ptes-Invalidated count b (offset + 1) ppte ppage (marked_one m e a) (omega arith)
          (omega arith) one.tree (λ i h h'. one.walks _ ∙ walked i (omega arith) (omega arith)) in
      let first : b + (offset + 1) ≡ b + offset + 1 = omega arith in
      let last : b + (offset + 1) + count ≡ b + offset + suc count = omega arith in
      (
        m',
        invalidate_ptes-suc count ppte ppage offset m at refl ∙ run,
        Invalidated-trans (b + offset + suc count) (omega arith) (omega arith) one
            (subst₂ (λ x y. Invalidated dune site (marked_one m e a) m' p x y) first last rest),
      )
