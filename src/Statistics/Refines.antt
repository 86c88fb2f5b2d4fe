-- ===== src/Statistics/Refines.antt =====
-- statistic_file_register and statistic_register append to the lists that the registry stands for.
use dangless_malloc.Prelude.{
  ℕ, suc, ◌+◌, ◌≡◌, ◌≢◌, refl, sym, ap, subst, ◌∙◌, true, false, List, [], ◌∷◌, ◌++◌, if◌then◌else◌,
  arith, eq→==, ne→==, length, Bool-cases, inl, inr,
}
use native.Mathlib.Decide.{ℕ_discrete}
use dangless_malloc.Statistics.{StatisticFile, Registry, set_at, statistic_file_register}
use dangless_malloc.Statistics.Chain.{
  IsChain, last_of, set_at-same, set_at-other, IsChain-append, AllNodes,
}

-- The registry stands for the files `fs`, and for the counters `of f` of each file. A counter belongs
-- to the file that defines it.
pub record Represents (owner : ℕ → ℕ) (r : Registry) (fs : List ℕ) (of : ℕ → List ℕ) : Type 0 where
  pub files : IsChain (λ f. (r.file f).next) r.first fs
  pub files_last : r.last ≡ last_of fs
  pub linked : AllNodes (λ f. (r.file f).is_linked ≡ true) fs
  pub unlinked : (f : ℕ) → (r.file f).is_linked ≡ false → (r.file f).next ≡ 0
  pub counters : (f : ℕ) → IsChain r.next (r.file f).first (of f)
  pub counters_last : (f : ℕ) → (r.file f).last ≡ last_of (of f)
  pub counted : (f : ℕ) → (r.file f).num_statistics ≡ length (of f)
  pub owned : (f : ℕ) → AllNodes (λ st. owner st ≡ f) (of f)

-- An assignment to another field keeps a field.
pub kept :
    {B : Type 0} (field : StatisticFile → B) (file : ℕ → StatisticFile) (f : ℕ)
    (new : StatisticFile)
    → field new ≡ field (file f)
    → (g : ℕ) → field (set_at file f new g) ≡ field (file g)
kept field file f new same g = elim (ℕ_discrete g f) [
  | yes at ↦ rw (eq→== g f at) (rw at same)
  | no other ↦ rw (ne→== g f other) refl
]

pub AllNodes-map :
    {P Q : ℕ → Type 0} (qs : List ℕ) → ((q : ℕ) → P q → Q q) → AllNodes P qs → AllNodes Q qs
AllNodes-map [] weaken h = tt
AllNodes-map (q ∷ qs) weaken (h, rest) = (weaken q h, AllNodes-map qs weaken rest)

pub AllNodes-append :
    (P : ℕ → Type 0) (qs : List ℕ) (y : ℕ) → AllNodes P qs → P y → AllNodes P (qs ++ y ∷ [])
AllNodes-append P [] y h now = (now, tt)
AllNodes-append P (q ∷ qs) y (h, rest) now = (h, AllNodes-append P qs y rest now)

pub AllNodes-last :
    (P : ℕ → Type 0) (q : ℕ) (qs : List ℕ) → AllNodes P (q ∷ qs) → P (last_of (q ∷ qs))
AllNodes-last P q [] h = h.0
AllNodes-last P q (q' ∷ qs) h = AllNodes-last P q' qs h.1

pub last_of-append : (qs : List ℕ) (y : ℕ) → last_of (qs ++ y ∷ []) ≡ y
last_of-append [] y = refl
last_of-append (q ∷ []) y = refl
last_of-append (q ∷ q' ∷ qs) y = last_of-append (q' ∷ qs) y

pub length-append : (qs : List ℕ) (y : ℕ) → length (qs ++ y ∷ []) ≡ length qs + 1
length-append [] y = refl
length-append (q ∷ qs) y = ap suc (length-append qs y) ∙ omega arith

-- A file that is not registered after the assignment was not registered before it.
unlinked_before :
    (file : ℕ → StatisticFile) (f : ℕ) (new : StatisticFile)
    → new.is_linked ≡ true
    → (g : ℕ) → (set_at file f new g).is_linked ≡ false
    → (g ≢ f) × ((file g).is_linked ≡ false)
unlinked_before file f new now g still = elim (ℕ_discrete g f) [
  | yes at ↦ absurd (
      cc (
        sym now
        ∙ ap (λ x. x.is_linked) (sym (set_at-same file f new))
        ∙ ap (λ k. (set_at file f new k).is_linked) (sym at)
        ∙ still))
  | no other ↦ (other, ap (λ x. x.is_linked) (sym (set_at-other file f new g other)) ∙ still)
]

-- The files after the first assignment of statistic_file_register, and after that to the last of the list.
module _ (f : ℕ) (r : Registry) where
  abbrev linked_file : StatisticFile
  linked_file = record (r.file f) { is_linked = true }

  abbrev file1 : ℕ → StatisticFile
  file1 = set_at r.file f linked_file

  abbrev append : StatisticFile
  append = record (file1 r.last) { next = f }

  abbrev file2 : ℕ → StatisticFile
  file2 = set_at file1 r.last append

  both_kept :
      {B : Type 0} (field : StatisticFile → B)
      → field append ≡ field (file1 r.last)
      → field linked_file ≡ field (r.file f)
      → (g : ℕ) → field (file2 g) ≡ field (r.file g)
  both_kept field same same' g =
      kept field file1 r.last append same g ∙ kept field r.file f linked_file same' g

  -- Registered before, registered after.
  still_linked : (g : ℕ) → (r.file g).is_linked ≡ true → (file2 g).is_linked ≡ true
  still_linked g was = kept (λ x. x.is_linked) file1 r.last append refl g ∙ elim (ℕ_discrete g f) [
    | yes at ↦
        ap (λ k. (file1 k).is_linked) at ∙ ap (λ x. x.is_linked) (set_at-same r.file f linked_file)
    | no other ↦ ap (λ x. x.is_linked) (set_at-other r.file f linked_file g other) ∙ was
  ]

module _ {owner : ℕ → ℕ} (f : ℕ) (r : Registry) (of : ℕ → List ℕ) (some_file : f ≢ 0)
    (new : (r.file f).is_linked ≡ false) where
  first_file :
      Represents owner r [] of → Represents owner (statistic_file_register f r).1 (f ∷ []) of
  unfolding statistic_file_register
  first_file h = rw new (
      rw (eq→== r.first 0 h.files) (record {
        files = (
          refl,
          some_file,
          kept (λ x. x.next) r.file f (linked_file f r) refl f ∙ h.unlinked f new,
        );
        files_last = refl;
        linked = (ap (λ x. x.is_linked) (set_at-same r.file f (linked_file f r)), tt);
        unlinked = λ g still.
            kept (λ x. x.next) r.file f (linked_file f r) refl g
            ∙ h.unlinked g (unlinked_before r.file f (linked_file f r) refl g still).1;
        counters = λ g. rw (kept (λ x. x.first) r.file f (linked_file f r) refl g) (h.counters g);
        counters_last =
            λ g. kept (λ x. x.last) r.file f (linked_file f r) refl g ∙ h.counters_last g;
        counted = λ g. kept (λ x. x.num_statistics) r.file f (linked_file f r) refl g ∙ h.counted g;
        owned = h.owned;
      }))

  next_file :
      (q : ℕ) (qs : List ℕ)
      → Represents owner r (q ∷ qs) of
      → Represents owner (statistic_file_register f r).1 ((q ∷ qs) ++ f ∷ []) of
  unfolding statistic_file_register
  next_file q qs h =
      let last_linked : (r.file r.last).is_linked ≡ true =
        ap (λ k. (r.file k).is_linked) h.files_last
        ∙ AllNodes-last (λ k. (r.file k).is_linked ≡ true) q qs h.linked in
      let not_last : (g : ℕ) → (r.file g).is_linked ≡ false → g ≢ r.last =
        λ g no at. absurd (cc (sym last_linked ∙ ap (λ k. (r.file k).is_linked) (sym at) ∙ no)) in
      let next_kept : (g : ℕ) → g ≢ r.last → ((file2 f r) g).next ≡ (r.file g).next = λ g other.
        ap (λ x. x.next) (set_at-other (file1 f r) r.last (append f r) g other)
        ∙ kept (λ x. x.next) r.file f (linked_file f r) refl g in
      let nonempty : r.first ≢ 0 = λ nothing. h.files.1 (sym h.files.0 ∙ nothing) in
      rw new (
        rw (ne→== r.first 0 nonempty) (record {
          files =
              IsChain-append (λ g. (r.file g).next) (λ g. ((file2 f r) g).next) r.first q f qs
                h.files some_file
                (ap (λ k. ((file2 f r) k).next) (sym h.files_last)
                  ∙ ap (λ x. x.next) (set_at-same (file1 f r) r.last (append f r)))
                (next_kept f (not_last f new) ∙ h.unlinked f new)
                (λ k other. next_kept k (λ at. other (at ∙ h.files_last)));
          files_last = sym (last_of-append (q ∷ qs) f);
          linked =
              AllNodes-append (λ k. ((file2 f r) k).is_linked ≡ true) (q ∷ qs) f
                (AllNodes-map (q ∷ qs) (still_linked f r) h.linked)
                (kept (λ x. x.is_linked) (file1 f r) r.last (append f r) refl f
                  ∙ ap (λ x. x.is_linked) (set_at-same r.file f (linked_file f r)));
          unlinked = λ g still.
              (let no =
                  (unlinked_before r.file f (linked_file f r) refl g (
                    sym (kept (λ x. x.is_linked) (file1 f r) r.last (append f r) refl g)
                    ∙ still)).1 in
                next_kept g (not_last g no) ∙ h.unlinked g no);
          counters = λ g. rw (both_kept f r (λ x. x.first) refl refl g) (h.counters g);
          counters_last = λ g. both_kept f r (λ x. x.last) refl refl g ∙ h.counters_last g;
          counted = λ g. both_kept f r (λ x. x.num_statistics) refl refl g ∙ h.counted g;
          owned = h.owned;
        }))

  -- The lists after statistic_file_register.
  pub statistic_file_register-new :
      (fs : List ℕ)
      → Represents owner r fs of
      → Represents owner (statistic_file_register f r).1 (fs ++ f ∷ []) of
  statistic_file_register-new [] h = first_file h
  statistic_file_register-new (q ∷ qs) h = next_file q qs h

pub statistic_file_register-Represents :
    (owner : ℕ → ℕ) (f : ℕ) (r : Registry) (fs : List ℕ) (of : ℕ → List ℕ)
    → f ≢ 0
    → Represents owner r fs of
    → Represents owner
        (statistic_file_register f r).1
        (if (r.file f).is_linked then fs else fs ++ f ∷ [])
        of
unfolding statistic_file_register
statistic_file_register-Represents owner f r fs of some_file h =
    elim (Bool-cases (r.file f).is_linked) [
      | inl there ↦ rw there h
      | inr new ↦
          subst
            (λ b.
              Represents owner (statistic_file_register f r).1 (if b then fs else fs ++ f ∷ []) of)
            (sym new) (statistic_file_register-new f r of some_file new fs h)
    ]
