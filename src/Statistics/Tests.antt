-- ===== src/Statistics/Tests.antt =====
-- A run of the registry of counters, and its theorems at concrete inputs.
use dangless_malloc.Prelude.{ℕ, ◌+◌, ◌/◌, ◌≡◌, refl, arith, false, some, [], ◌∷◌}
use dangless_malloc.Statistics.{Registry, set_at, define_counter, dangless_report_statistics}
use dangless_malloc.Statistics.Refines.{Represents}
use dangless_malloc.Statistics.Report.{
  report_of, define_counter-Represents, dangless_report_statistics-Represents,
}

-- Nothing is registered. A counter has the number of its file times ten, and more.
abbrev nothing_registered : Registry
nothing_registered = record {
  first = 0;
  last = 0;
  file = λ _. record { is_linked = false; first = 0; last = 0; num_statistics = 0; next = 0 };
  next = λ _. 0;
  value = λ st. st + 100;
}

abbrev owner : ℕ → ℕ
owner st = st / 10

test_report :
    dangless_report_statistics 5
      (define_counter 1 11 (define_counter 2 20 (define_counter 1 10 nothing_registered)))
    ≡ some ((1, (10, 110) ∷ (11, 111) ∷ []) ∷ (2, (20, 120) ∷ []) ∷ [])
unfolding dangless_report_statistics define_counter
test_report = refl

nothing_registered-Represents : Represents owner nothing_registered [] (λ _. [])
nothing_registered-Represents = record {
  files = refl;
  files_last = refl;
  linked = tt;
  unlinked = λ f no. refl;
  counters = λ f. refl;
  counters_last = λ f. refl;
  counted = λ f. refl;
  owned = λ f. tt;
}

one_counter-Represents :
    Represents owner
      (define_counter 1 10 nothing_registered)
      (1 ∷ [])
      (set_at (λ _. []) 1 (10 ∷ []))
one_counter-Represents =
    define_counter-Represents owner nothing_registered [] (λ _. []) 10 nothing_registered-Represents
      (omega arith) (omega arith) refl (omega arith)

-- A second counter of the same file.
define_counter-Represents_example :
    Represents owner
      (define_counter 1 11 (define_counter 1 10 nothing_registered))
      (1 ∷ [])
      (set_at (set_at (λ _. []) 1 (10 ∷ [])) 1 (10 ∷ 11 ∷ []))
unfolding define_counter
define_counter-Represents_example =
    define_counter-Represents owner (define_counter 1 10 nothing_registered) (1 ∷ [])
      (set_at (λ _. []) 1 (10 ∷ [])) 11 one_counter-Represents (omega arith) (omega arith) refl
      (omega arith)

dangless_report_statistics-Represents_example :
    dangless_report_statistics 3 (define_counter 1 10 nothing_registered)
    ≡ some (report_of (λ st. st + 100) (set_at (λ _. []) 1 (10 ∷ [])) (1 ∷ []))
unfolding define_counter
dangless_report_statistics-Represents_example =
    dangless_report_statistics-Represents owner (define_counter 1 10 nothing_registered) (1 ∷ [])
      (set_at (λ _. []) 1 (10 ∷ [])) 3 one_counter-Represents (omega arith) (omega arith, tt)
