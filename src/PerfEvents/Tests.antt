-- ===== src/PerfEvents/Tests.antt =====
-- Two events, of which the kernel has one.
use dangless_malloc.Prelude.{◌+◌, ◌≡◌, refl, ltb, true, false, none, some, [], ◌∷◌}
use dangless_malloc.PerfEvents.{
  Kernel, counted, Perf, perf_event_register, perfevents_init, perfevents_finalize,
}
use dangless_malloc.PerfEvents.Loops.{running}
use dangless_malloc.PerfEvents.Lifecycle.{Completed, perfevents_finalize-perfevents_init}

abbrev one_counter : Kernel
one_counter = record {
  open_event = λ name. some (name + 5);
  event_id = λ fd. some 1;
  reset = λ fd. true;
  enable = λ fd. elim fd [ none ↦ false | some n ↦ ltb n 6 ];
  read = λ fd. counted 10 2 1;
}

abbrev registered : Perf
registered = perf_event_register 0 (
    perf_event_register 1 (record {
      pe_list = [];
      globals = record {
        pe_list_length = 0;
        pe_count = 0;
        group_leader_fd = none;
        calls = [];
        reports = [];
      };
    }))

one_runs : running one_counter registered.pe_list ≡ some 5 ∷ []
unfolding perf_event_register
one_runs = refl

perfevents_finalize-perfevents_init_example :
    Completed
      (perfevents_init one_counter registered)
      (perfevents_finalize one_counter (perfevents_init one_counter registered))
      (running one_counter registered.pe_list)
unfolding perf_event_register
perfevents_finalize-perfevents_init_example =
    perfevents_finalize-perfevents_init one_counter registered (refl, (refl, tt)) refl refl
