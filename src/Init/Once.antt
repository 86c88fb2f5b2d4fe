-- ===== src/Init/Once.antt =====
-- Start-up happens once, however often it is called.
use dangless_malloc.Prelude.{
  ℕ, ◌+◌, ◌≡◌, refl, true, false, ok, Bool-cases, inl, inr, List, [], ◌∷◌, length, Cmd, pure, ◌>>◌,
  arith, ap, sym, ◌∙◌, ℤ, pos,
}
use dangless_malloc.Vmcall.{Fixups, Below}
use dangless_malloc.Vmcall.Restore.{grow_records_buffer, restore_init}
use dangless_malloc.Hooks.{is_zero}
use dangless_malloc.Init.{Startup, enter_dune, vmcall_hooks_init, on_fixups, init}

-- In Dune mode, with the hooks of system calls and the handler of page faults in place, and with the
-- buffer of records where there was memory for it.
pub record IsStarted (below : Below) (initial : ℕ) (s : Startup) : Type 0 where
  pub initialized : s.initialized ≡ true
  pub in_dune : s.in_dune ≡ true
  pub buffer : below.grow initial ≡ true → s.fixups.capacity ≡ initial
  pub prehook_set : s.prehook_set ≡ true
  pub posthook_set : s.posthook_set ≡ true
  pub pgflt_handler_set : s.pgflt_handler_set ≡ true

module _ (below : Below) (initial : ℕ) where
  abbrev started : Startup → Fixups → Startup
  started s fixups = record {
    init_happened = s.init_happened + 1;
    initialized = true;
    in_dune = true;
    fixups = fixups;
    prehook_set = true;
    posthook_set = true;
    pgflt_handler_set = true;
  }

  -- Later calls, each with its results of dune_init() and dune_enter().
  abbrev pub later : List (ℤ × ℤ) → Cmd Startup (Unit {0})
  later [] = pure tt
  later ((a, b) ∷ calls) = init below initial a b >> later calls

  -- Any number of calls that find the program started do no more than count.
  init-again :
      (calls : List (ℤ × ℤ)) (s : Startup)
      → s.initialized ≡ true
      → later calls s ≡ ok tt (record s { init_happened = s.init_happened + length calls })
  unfolding init
  init-again [] s done = ap (λ n. ok tt (record s { init_happened = n })) (omega arith)
  init-again ((a, b) ∷ calls) s done = rw done (
      init-again calls (record s { init_happened = s.init_happened + 1; initialized = true }) refl
      ∙ ap (λ n. ok tt (record s { init_happened = n; initialized = true })) (omega arith))

  -- Where start-up has not happened and dune_init() and dune_enter() return 0: dangless_init
  -- returns with the program in Dune mode, the hooks of system calls and the handler of page
  -- faults set, and the buffer of records at its initial capacity if there is memory for it;
  -- any number of later calls, one after another, whatever the two functions would return in
  -- each, change nothing but the counter of calls, which counts them all.
  pub init-IsStarted :
      (s : Startup)
      → s.initialized ≡ false
      → (s' : Startup) × (init below initial (pos 0) (pos 0) s ≡ ok tt s')
        × IsStarted below initial s'
        × ((calls : List (ℤ × ℤ))
            → later calls s'
              ≡ ok tt (record s' { init_happened = s'.init_happened + length calls }))
  unfolding init enter_dune on_fixups vmcall_hooks_init is_zero restore_init grow_records_buffer
  init-IsStarted s new = elim (Bool-cases (below.grow initial)) [
    | inl room ↦
        let s' = started s (record s.fixups {
          capacity = initial;
          counters = record s.fixups.counters {
            restore_buffer_highest_capacity = initial;
            restore_buffer_grow_count = s.fixups.counters.restore_buffer_grow_count + 1;
          };
        }) in
        (
          s',
          rw new (rw (room, on_fixups) refl),
          record {
            initialized = refl;
            in_dune = refl;
            buffer = λ e. refl;
            prehook_set = refl;
            posthook_set = refl;
            pgflt_handler_set = refl;
          },
          λ calls. init-again calls s' refl,
        )
    | inr full ↦
        let s' = started s s.fixups in
        (
          s',
          rw new (rw (full, on_fixups) refl),
          record {
            initialized = refl;
            in_dune = refl;
            buffer = λ e. absurd (cc (sym e ∙ full));
            prehook_set = refl;
            posthook_set = refl;
            pgflt_handler_set = refl;
          },
          λ calls. init-again calls s' refl,
        )
  ]
