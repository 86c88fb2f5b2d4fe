-- ===== src/Statistics.antt =====
-- The registry of counters, sources/src/common/statistics.c and
-- sources/include/dangless/common/statistics.h: linked lists of files, and of the counters of each.
--
-- A pointer is a number, NULL is 0. What the report prints is a list. Reading a list is bounded by
-- fuel; the theorem on the report gives enough.
pub mod Chain
pub mod Refines
pub mod Append
pub mod Report
pub mod Tests
use dangless_malloc.Prelude.{
  ℕ, zero, suc, ◌+◌, Bool, true, false, Option, none, some, List, [], ◌∷◌, ◌==◌, if◌then◌else◌,
}

-- `struct statistic_file`
pub record StatisticFile : Type 0 where
  pub is_linked : Bool
  pub first : ℕ
  pub last : ℕ
  pub num_statistics : ℕ
  pub next : ℕ

-- `g_statistics_file_first` and `g_statistics_file_last`, the files, and `next` and the value of each
-- counter.
pub record Registry : Type 0 where
  pub first : ℕ
  pub last : ℕ
  pub file : ℕ → StatisticFile
  pub next : ℕ → ℕ
  pub value : ℕ → ℕ

-- A function that is changed at one argument: an assignment through a pointer.
abbrev pub set_at : {A : Type 0} → (ℕ → A) → ℕ → A → ℕ → A
set_at f p a q = if q == p then a else f q

abbrev pub set_file : ℕ → StatisticFile → Registry → Registry
set_file f file r = record r { file = set_at r.file f file }

-- `statistic_file_register`: the result, and the lists.
unfoldable pub statistic_file_register : ℕ → Registry → Bool × Registry
statistic_file_register f r =
    if (r.file f).is_linked
    then (false, r)
    else (let linked = set_file f (record (r.file f) { is_linked = true }) r in
        let appended =
          (if linked.first == 0
            then record linked { first = f }
            else set_file linked.last (record (linked.file linked.last) { next = f }) linked) in
        (true, record appended { last = f }))

-- `statistic_register`
unfoldable pub statistic_register : ℕ → ℕ → Registry → Registry
statistic_register f st r =
    let appended =
      (if (r.file f).first == 0
        then set_file f (record (r.file f) { first = st }) r
        else record r { next = set_at r.next (r.file f).last st }) in
    set_file f
      (record (appended.file f) {
        last = st;
        num_statistics = (appended.file f).num_statistics + 1;
      })
      appended

-- The constructor function of a counter that STATISTIC_DEFINE_COUNTER defines.
unfoldable pub define_counter : ℕ → ℕ → Registry → Registry
unfolding statistic_file_register statistic_register
define_counter f st r = statistic_register f st (statistic_file_register f r).1

-- The lines of a file: each counter with its value. `none` is out of fuel.
unfoldable pub report_counters : ℕ → (ℕ → ℕ) → (ℕ → ℕ) → ℕ → Option (List (ℕ × ℕ))
report_counters zero next value st = none
report_counters (suc fuel) next value st =
    let rest = report_counters fuel next value (next st) in
    if st == 0
    then some []
    else elim rest [ none ↦ none | some lines ↦ some ((st, value st) ∷ lines) ]

-- The loop of `dangless_report_statistics` over the files.
unfoldable pub report_files : ℕ → Registry → ℕ → Option (List (ℕ × List (ℕ × ℕ)))
unfolding report_counters
report_files zero r f = none
report_files (suc fuel) r f =
    let rest = report_files fuel r (r.file f).next in
    if f == 0 then some [] else elim (report_counters fuel r.next r.value (r.file f).first) [
      | none ↦ none
      | some lines ↦ elim rest [ none ↦ none | some files ↦ some ((f, lines) ∷ files) ]
    ]

-- `dangless_report_statistics`; an empty list is the line that nothing is registered.
unfoldable pub dangless_report_statistics : ℕ → Registry → Option (List (ℕ × List (ℕ × ℕ)))
unfolding report_files
dangless_report_statistics fuel r = report_files fuel r r.first
