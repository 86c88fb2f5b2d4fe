-- ===== src/PerfEvents/Lifecycle.antt =====
-- From start-up to the end: which events run, and that they are all stopped, read and closed.
use mathlib.Core.List.{map, append_assoc, append-nil}
use dangless_malloc.Prelude.{
  ℕ, ◌≡◌, refl, sym, ap, ◌∙◌, none, Option, List, [], ◌∷◌, ◌++◌, length, arith, Option-cases, inl,
  inr,
}
use dangless_malloc.PerfEvents.{
  Kernel, disabling, reading, closing, PerfEvent, Globals, Perf, change_each, note_each, opened,
  note_opened, perfevents_init, perfevents_finalize,
}
use dangless_malloc.PerfEvents.Loops.{
  live, AllFresh, running, note_disabled-calls, note_read-calls, note_closed-calls,
  note_not_run-calls, live-closed, pe_count-note_enabled, leader-note_enabled, live-enabled,
  live-running, live-opened,
}

-- What start-up and the end leave, where `fds` run.
pub record Completed (s1 s2 : Perf) (fds : List (Option ℕ)) : Type 0 where
  pub ran : live s1.pe_list ≡ fds
  pub counted : s1.globals.pe_count ≡ length fds
  pub calls :
      s2.globals.calls
      ≡ s1.globals.calls ++ (map disabling fds ++ (map reading fds ++ map closing fds))
  pub stopped : live s2.pe_list ≡ []
  pub uncounted : s2.globals.pe_count ≡ 0

module _ (k : Kernel) (s : Perf) (fresh : AllFresh s.pe_list) (no_count : s.globals.pe_count ≡ 0)
    (no_leader : s.globals.group_leader_fd ≡ none) where
  abbrev after_init : Perf
  after_init = perfevents_init k s

  ran : live after_init.pe_list ≡ running k s.pe_list
  unfolding perfevents_init
  ran = live-running k s.pe_list fresh

  -- The first loop counts nothing.
  count_opened :
      (es : List PerfEvent) (g : Globals) → (note_each (note_opened k) es g).pe_count ≡ g.pe_count
  unfolding note_each note_opened
  count_opened [] g = refl
  count_opened (pe ∷ rest) g = count_opened rest (note_opened k pe g) ∙ ground arith

  counted : after_init.globals.pe_count ≡ length (running k s.pe_list)
  unfolding perfevents_init
  counted =
      pe_count-note_enabled k (change_each (opened k) s.pe_list)
        (note_each (note_opened k) s.pe_list s.globals)
      ∙ omega (arith, ap (λ l. length l) ran, count_opened s.pe_list s.globals, no_count)

  -- Without a leader nothing runs.
  none_runs : after_init.globals.group_leader_fd ≡ none → running k s.pe_list ≡ []
  unfolding perfevents_init
  none_runs h =
      sym ran
      ∙ live-enabled k (change_each (opened k) s.pe_list) (
          live-opened k s.pe_list s.globals fresh
            (sym (leader-note_enabled k (change_each (opened k) s.pe_list) _) ∙ h))

  -- From a state in which no event is initialised, none is counted and there is no leader, for
  -- any kernel: after perfevents_init exactly those events are initialised for which
  -- perf_event_open and the three ioctl calls succeed, and g_pe_count is their number;
  -- perfevents_finalize then asks the kernel to disable each of them, to read each and to
  -- close each, in the order of the list, and nothing else; no event is initialised from then
  -- on, and g_pe_count is 0.
  pub perfevents_finalize-perfevents_init :
      Completed after_init (perfevents_finalize k after_init) (running k s.pe_list)
  unfolding perfevents_finalize
  perfevents_finalize-perfevents_init = elim (Option-cases after_init.globals.group_leader_fd) [
    | inl no_one ↦
        rw (no_one, perfevents_finalize)
          (record {
            ran = ran;
            counted = counted;
            calls = rw (none_runs no_one) (sym (append-nil _));
            stopped = ran ∙ none_runs no_one;
            uncounted = counted ∙ rw (none_runs no_one) refl;
          })
    | inr (leader, some_one) ↦
        rw (some_one, perfevents_finalize)
          (record {
            ran = ran;
            counted = counted;
            calls = simp (
              note_closed-calls, note_not_run-calls, note_read-calls, note_disabled-calls, ran,
              append_assoc,
            );
            stopped = live-closed after_init.pe_list;
            uncounted = refl;
          })
  ]
