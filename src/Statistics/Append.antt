-- ===== src/Statistics/Append.antt =====
-- statistic_register: it appends a counter to the list of its file.
use dangless_malloc.Prelude.{
  ℕ, ◌+◌, ◌≡◌, ◌≢◌, refl, sym, ap, subst, ◌∙◌, List, [], ◌∷◌, ◌++◌, eq→==, ne→==, length,
}
use native.Mathlib.Decide.{ℕ_discrete}
use dangless_malloc.Statistics.{StatisticFile, Registry, set_at, statistic_register}
use dangless_malloc.Statistics.Chain.{
  IsChain, last_of, set_at-same, set_at-other, IsChain-append, AllNodes, IsChain-frame,
}
use dangless_malloc.Statistics.Refines.{
  Represents, kept, AllNodes-map, AllNodes-append, AllNodes-last, last_of-append, length-append,
}

-- A file has the counters `sts`.
abbrev IsFile : (ℕ → ℕ) → (ℕ → ℕ) → StatisticFile → List ℕ → ℕ → Type 0
IsFile owner next file sts g =
    IsChain next file.first sts
    × (file.last ≡ last_of sts)
    × (file.num_statistics ≡ length sts)
    × AllNodes (λ st. owner st ≡ g) sts

-- What holds after an assignment to one file.
at_one :
    (P : StatisticFile → List ℕ → ℕ → Type 0) (file : ℕ → StatisticFile) (of : ℕ → List ℕ) (f : ℕ)
    (new : StatisticFile) (sts : List ℕ)
    → P new sts f
    → ((g : ℕ) → g ≢ f → P (file g) (of g) g)
    → (g : ℕ) → P (set_at file f new g) (set_at of f sts g) g
at_one P file of f new sts here others g = elim (ℕ_discrete g f) [
  | yes at ↦ rw (eq→== g f at) (subst (P new sts) (sym at) here)
  | no other ↦ rw (ne→== g f other) (others g other)
]

file_of :
    {owner : ℕ → ℕ} {r : Registry} {fs : List ℕ} {of : ℕ → List ℕ}
    → Represents owner r fs of
    → (g : ℕ) → IsFile owner r.next (r.file g) (of g) g
file_of h g = (h.counters g, h.counters_last g, h.counted g, h.owned g)

AllNodes-all : {P : ℕ → Type 0} (qs : List ℕ) → ((q : ℕ) → P q) → AllNodes P qs
AllNodes-all [] h = tt
AllNodes-all (q ∷ qs) h = (h q, AllNodes-all qs h)

-- The lists of counters change, and that of files does not.
with_counters :
    {owner : ℕ → ℕ} {r : Registry} {fs : List ℕ} {of : ℕ → List ℕ} (r' : Registry)
    (of' : ℕ → List ℕ)
    → Represents owner r fs of
    → r'.first ≡ r.first
    → r'.last ≡ r.last
    → ((g : ℕ) → (r'.file g).next ≡ (r.file g).next)
    → ((g : ℕ) → (r'.file g).is_linked ≡ (r.file g).is_linked)
    → ((g : ℕ) → IsFile owner r'.next (r'.file g) (of' g) g)
    → Represents owner r' fs of'
with_counters {owner} {r} {fs} {of} r' of' h first last next linked per_file = record {
  files = rw first (
      IsChain-frame (λ g. (r.file g).next) (λ g. (r'.file g).next) r.first fs h.files
        (AllNodes-all fs next));
  files_last = last ∙ h.files_last;
  linked = AllNodes-map fs (λ g was. linked g ∙ was) h.linked;
  unlinked = λ g was. next g ∙ h.unlinked g (sym (linked g) ∙ was);
  counters = λ g. (per_file g).0;
  counters_last = λ g. (per_file g).1;
  counted = λ g. (per_file g).2;
  owned = λ g. (per_file g).3;
}

module _ (owner : ℕ → ℕ) (r : Registry) (fs : List ℕ) (of : ℕ → List ℕ) (st : ℕ)
    (h : Represents owner r fs of) (some_counter : st ≢ 0) (ends : r.next st ≡ 0)
    (fresh : (r.file (owner st)).last ≢ st) where
  -- The first counter of a file.
  first_counter :
      of (owner st) ≡ []
      → Represents owner (statistic_register (owner st) st r) fs (set_at of (owner st) (st ∷ []))
  unfolding statistic_register
  first_counter empty =
      let f = owner st in
      let nothing : (r.file f).first ≡ 0 =
        subst (IsChain r.next (r.file f).first) empty (h.counters f) in
      let begun : StatisticFile = record (r.file f) { first = st } in
      let file1 : ℕ → StatisticFile = set_at r.file f begun in
      let new : StatisticFile = record (file1 f) {
        last = st;
        num_statistics = (file1 f).num_statistics + 1;
      } in
      let number : (file1 f).num_statistics ≡ 0 =
        kept (λ x. x.num_statistics) r.file f begun refl f ∙ h.counted f ∙ ap length empty in
      let per_file : (g : ℕ)
          → IsFile owner r.next (set_at file1 f new g) (set_at of f (st ∷ []) g) g =
        at_one (IsFile owner r.next) file1 of f new (st ∷ [])
          (
            (ap (λ x. x.first) (set_at-same r.file f begun), some_counter, ends),
            refl,
            ap (λ n. n + 1) number,
            (refl, tt),
          )
          (λ g other.
            subst (λ x. IsFile owner r.next x (of g) g) (sym (set_at-other r.file f begun g other))
              (file_of h g)) in
      rw (eq→== (r.file f).first 0 nothing) (
        with_counters (record r { file = set_at file1 f new }) (set_at of f (st ∷ [])) h refl refl
          (λ g. kept (λ x. x.next) file1 f new refl g ∙ kept (λ x. x.next) r.file f begun refl g)
          (λ g.
            kept (λ x. x.is_linked) file1 f new refl g
            ∙ kept (λ x. x.is_linked) r.file f begun refl g)
          per_file)

  -- A counter of a file that has some.
  next_counter :
      (q : ℕ) (qs : List ℕ)
      → of (owner st) ≡ q ∷ qs
      → Represents owner
          (statistic_register (owner st) st r)
          fs
          (set_at of (owner st) ((q ∷ qs) ++ st ∷ []))
  unfolding statistic_register
  next_counter q qs some_counters =
      let f = owner st in
      let chain : IsChain r.next (r.file f).first (q ∷ qs) =
        subst (IsChain r.next (r.file f).first) some_counters (h.counters f) in
      let at_last : (r.file f).last ≡ last_of (q ∷ qs) =
        h.counters_last f ∙ ap last_of some_counters in
      let nonempty : (r.file f).first ≢ 0 = λ nothing. chain.1 (sym chain.0 ∙ nothing) in
      let next' : ℕ → ℕ = set_at r.next (r.file f).last st in
      let new : StatisticFile = record (r.file f) {
        last = st;
        num_statistics = (r.file f).num_statistics + 1;
      } in
      let owned : AllNodes (λ k. owner k ≡ f) (q ∷ qs) =
        subst (AllNodes (λ k. owner k ≡ f)) some_counters (h.owned f) in
      let elsewhere : (k g : ℕ) → owner k ≡ g → g ≢ f → next' k ≡ r.next k = λ k g mine other.
        set_at-other r.next (r.file f).last st k (λ is_last. other (
          sym mine ∙ ap owner (is_last ∙ at_last) ∙ AllNodes-last (λ k. owner k ≡ f) q qs owned)) in
      rw (ne→== (r.file f).first 0 nonempty) (
        with_counters (record r { file = set_at r.file f new; next = next' })
          (set_at of f ((q ∷ qs) ++ st ∷ [])) h refl refl
          (λ g. kept (λ x. x.next) r.file f new refl g)
          (λ g. kept (λ x. x.is_linked) r.file f new refl g)
          (at_one (IsFile owner next') r.file of f new ((q ∷ qs) ++ st ∷ [])
            (
              IsChain-append r.next next' (r.file f).first q st qs chain some_counter
                  (ap next' (sym at_last) ∙ set_at-same r.next (r.file f).last st)
                  (set_at-other r.next (r.file f).last st st (λ e. fresh (sym e)) ∙ ends)
                  (λ k other. set_at-other r.next (r.file f).last st k (λ e. other (e ∙ at_last))),
              sym (last_of-append (q ∷ qs) st),
              ap (λ n. n + 1) (h.counted f ∙ ap length some_counters)
                  ∙ sym (length-append (q ∷ qs) st),
              AllNodes-append (λ k. owner k ≡ f) (q ∷ qs) st owned refl,
            )
            (λ g other. (
              IsChain-frame r.next next' (r.file g).first (of g) (h.counters g)
                  (AllNodes-map (of g) (λ k mine. elsewhere k g mine other) (h.owned g)),
              h.counters_last g,
              h.counted g,
              h.owned g,
            ))))

  statistic_register-list :
      (sts : List ℕ)
      → of (owner st) ≡ sts
      → Represents owner
          (statistic_register (owner st) st r)
          fs
          (set_at of (owner st) (sts ++ st ∷ []))
  statistic_register-list [] e = first_counter e
  statistic_register-list (q ∷ qs) e = next_counter q qs e

  pub statistic_register-Represents :
      Represents owner
        (statistic_register (owner st) st r)
        fs
        (set_at of (owner st) (of (owner st) ++ st ∷ []))
  statistic_register-Represents = statistic_register-list (of (owner st)) refl
