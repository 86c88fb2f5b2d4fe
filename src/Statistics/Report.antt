-- ===== src/Statistics/Report.antt =====
-- The counters are reported by file, each list in the order of registration.
use dangless_malloc.Prelude.{
  ℕ, zero, suc, ◌+◌, ◌<◌, ◌≡◌, ◌≢◌, refl, sym, ap, ◌∙◌, some, List, [], ◌∷◌, ◌++◌, ◌==◌,
  if◌then◌else◌, arith, eq→==, ne→==, length, Bool-cases, inl, inr,
}
use dangless_malloc.Statistics.{
  Registry, set_at, statistic_file_register, define_counter, report_counters, report_files,
  dangless_report_statistics,
}
use dangless_malloc.Statistics.Chain.{IsChain, last_of, AllNodes}
use dangless_malloc.Statistics.Refines.{
  Represents, AllNodes-map, statistic_file_register-Represents,
}
use dangless_malloc.Statistics.Append.{statistic_register-Represents}

-- The lines for counters, and for files.
abbrev pub lines_of : (ℕ → ℕ) → List ℕ → List (ℕ × ℕ)
lines_of value [] = []
lines_of value (st ∷ sts) = (st, value st) ∷ lines_of value sts

abbrev pub report_of : (ℕ → ℕ) → (ℕ → List ℕ) → List ℕ → List (ℕ × List (ℕ × ℕ))
report_of value of [] = []
report_of value of (f ∷ fs) = (f, lines_of value (of f)) ∷ report_of value of fs

report_counters_lem :
    (fuel : ℕ) (next value : ℕ → ℕ) (p : ℕ) (sts : List ℕ)
    → IsChain next p sts
    → length sts < fuel
    → report_counters fuel next value p ≡ some (lines_of value sts)
unfolding report_counters
report_counters_lem zero next value p sts chain enough = absurd (omega (arith, enough))
report_counters_lem (suc fuel) next value p [] chain enough = rw (eq→== p 0 chain) refl
report_counters_lem (suc fuel) next value p (st ∷ sts) (at, some_node, rest) enough =
    ap (report_counters (suc fuel) next value) at
    ∙ rw (ne→== st 0 some_node)
        (rw (report_counters_lem fuel next value (next st) sts rest (omega (arith, enough))) refl)

module _ (r : Registry) (of : ℕ → List ℕ) where
  report_files_lem :
      (fuel p : ℕ) (fs : List ℕ)
      → ((f : ℕ) → IsChain r.next (r.file f).first (of f))
      → IsChain (λ f. (r.file f).next) p fs
      → length fs < fuel
      → AllNodes (λ f. length (of f) + length fs < fuel) fs
      → report_files fuel r p ≡ some (report_of r.value of fs)
  unfolding report_files
  report_files_lem zero p fs counters chain enough long = absurd (omega (arith, enough))
  report_files_lem (suc fuel) p [] counters chain enough long = rw (eq→== p 0 chain) refl
  report_files_lem (suc fuel) p (f ∷ fs) counters (at, some_node, rest) enough (here, long) =
      let lines =
        report_counters_lem fuel r.next r.value (r.file f).first (of f) (counters f)
          (omega (arith, here)) in
      let files =
        report_files_lem fuel (r.file f).next fs counters rest (omega (arith, enough))
          (AllNodes-map fs (λ g l. omega (arith, l)) long) in
      ap (report_files (suc fuel) r) at ∙ rw (ne→== f 0 some_node) (rw lines (rw files refl))

-- statistic_file_register leaves the lists of counters.
statistic_file_register-next :
    (f : ℕ) (r : Registry) → (statistic_file_register f r).1.next ≡ r.next
unfolding statistic_file_register
statistic_file_register-next f r = elim (Bool-cases (r.file f).is_linked) [
  | inl there ↦ rw there refl
  | inr new ↦ elim (Bool-cases (r.first == 0)) [
    | inl empty ↦ rw new (rw empty refl)
    | inr nonempty ↦ rw new (rw nonempty refl)
  ]
]

-- The files after the registration of a counter.
abbrev pub files_with : ℕ → Registry → List ℕ → List ℕ
files_with f r fs = if (r.file f).is_linked then fs else fs ++ f ∷ []

-- Where the registry stands for a list of files and, for each, a list of its counters, after
-- the constructor function of a counter, where neither it nor its file is NULL, its next is
-- NULL and it is not the last of its file: the registry stands for the same lists, with the
-- counter appended to those of its file, and with the file appended to the files if it was not
-- registered. Standing for the lists is that the links, the first and last pointers, the flags
-- and the number of counters of every file agree with them, and that each counter is under the
-- file that defines it.
pub define_counter-Represents :
    (owner : ℕ → ℕ) (r : Registry) (fs : List ℕ) (of : ℕ → List ℕ) (st : ℕ)
    → Represents owner r fs of
    → owner st ≢ 0
    → st ≢ 0
    → r.next st ≡ 0
    → last_of (of (owner st)) ≢ st
    → Represents owner
        (define_counter (owner st) st r)
        (files_with (owner st) r fs)
        (set_at of (owner st) (of (owner st) ++ st ∷ []))
unfolding define_counter
define_counter-Represents owner r fs of st h some_file some_counter ends fresh =
    let f = owner st in
    let h' = statistic_file_register-Represents owner f r fs of some_file h in
    statistic_register-Represents owner (statistic_file_register f r).1 (files_with f r fs) of st h'
      some_counter (ap (λ next. next st) (statistic_file_register-next f r) ∙ ends)
      (λ e. fresh (sym (h'.counters_last f) ∙ e))

-- Where the registry stands for such lists, dangless_report_statistics ends and prints each
-- file in their order, and under it its counters in their order, each with its value. Fuel
-- that is more than the number of files and the longest list of counters together is enough.
pub dangless_report_statistics-Represents :
    (owner : ℕ → ℕ) (r : Registry) (fs : List ℕ) (of : ℕ → List ℕ) (fuel : ℕ)
    → Represents owner r fs of
    → length fs < fuel
    → AllNodes (λ f. length (of f) + length fs < fuel) fs
    → dangless_report_statistics fuel r ≡ some (report_of r.value of fs)
unfolding dangless_report_statistics
dangless_report_statistics-Represents owner r fs of fuel h enough long =
    report_files_lem r of fuel r.first fs h.counters h.files enough long
