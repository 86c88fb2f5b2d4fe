-- ===== src/Vmcall/Steps.antt =====
-- The steps of the hooks around a system call: putting back, tracing, statistics, the brk() hotfix.
use dangless_malloc.Prelude.{
  ℕ, ◌+◌, ◌≡◌, refl, sym, ap, ◌∙◌, inl, inr, Bool, true, false, not, ◌&&◌, List, [], ◌∷◌, ltb, ◌==◌,
  if◌then◌else◌, arith, Bool-cases, Cmd, Run, ok, fault, returns, After, after_bind, after_if,
  length,
}
use dangless_malloc.Vmcall.{Restoration, Fixups}
use dangless_malloc.Vmcall.Restore.{store, tally, restore_records, restore_originals}
use dangless_malloc.Vmcall.Records.{undo_words, Left, HasBuffer, same_buffer}
use dangless_malloc.Vmcall.Hooks.{
  Vmcalls, on_fixups, is_vmcall_hook_running, should_trace_current, update_mem_stats, update_stats,
  brk_hotfix,
}

pub restore_records-Left :
    (rs : List Restoration) (s : Fixups)
    → HasBuffer s
    → After (λ _ s'. Left (undo_words rs s.words) s.depth s.records s') (restore_records rs s)
unfolding restore_records store tally
restore_records-Left [] s h =
    returns (record { words = refl; depth = refl; records = refl; buffer = h })
restore_records-Left (r ∷ rs) s h = restore_records-Left rs _ (same_buffer _ h refl refl)

pub empty_of_length : (rs : List Restoration) → (length rs == 0) ≡ true → rs ≡ []
empty_of_length [] h = refl
empty_of_length (r ∷ rs) h = absurd (ground (arith, h))

-- All records are put back, and none is left.
pub restore_originals-Left :
    (s : Fixups)
    → HasBuffer s
    → After (λ _ s'. Left (undo_words s.records s.words) s.depth [] s') (restore_originals s)
unfolding restore_originals
restore_originals-Left s h = elim (Bool-cases (length s.records == 0)) [
  | inl none_left ↦
      let e = empty_of_length s.records none_left in
      rw (none_left, restore_originals)
        (returns (record {
          words = ap (λ rs. undo_words rs s.words) (sym e);
          depth = refl;
          records = e;
          buffer = h;
        }))
  | inr some_left ↦
      rw (some_left, restore_originals)
        (after_bind _ (restore_records-Left s.records s h) (λ _ t l. returns (record {
          words = l.words;
          depth = l.depth;
          records = refl;
          buffer = record { some_capacity = l.buffer.some_capacity; inside = omega arith };
        })))
]

-- What is the same in two states, next to the fixups.
pub record SameCall (v v' : Vmcalls) : Type 0 where
  pub depth : v'.vmcall_hook_depth ≡ v.vmcall_hook_depth
  pub number : v'.current_syscallno ≡ v.current_syscallno
  pub arguments : v'.current_syscall_args ≡ v.current_syscall_args

pub lifted-After :
    {A : Type 0} {Q : A → Fixups → Type 0} (v : Vmcalls) {r : Run Fixups A}
    → After Q r
    → After
        (λ a v'. Q a v'.fixups × SameCall v v')
        (elim r as (λ _. Run Vmcalls A) [ ok a s ↦ ok a (record v { fixups = s }) | fault ↦ fault ])
lifted-After v (returns h) = returns (h, record { depth = refl; number = refl; arguments = refl })

pub on_fixups-After :
    {A : Type 0} {Q : A → Fixups → Type 0} (c : Cmd Fixups A) (v : Vmcalls)
    → After Q (c v.fixups)
    → After (λ a v'. Q a v'.fixups × SameCall v v') (on_fixups c v)
unfolding on_fixups
on_fixups-After c v h = lifted-After v h

-- The test whether to trace changes nothing.
pub should_trace_current-After :
    (v : Vmcalls) → v.vmcall_hook_depth ≡ 1 → After (λ _ v'. v' ≡ v) (should_trace_current v)
unfolding should_trace_current is_vmcall_hook_running
should_trace_current-After v depth =
    let running : ltb 0 v.vmcall_hook_depth ≡ true = ground (arith, depth) in
    rw running (
      after_if _ _ (not v.fixups.external) (returns refl) (
        after_if _ _ (v.current_syscallno == 186) (returns refl) (
          after_if _ _ (v.current_syscallno == 1 && v.current_syscall_args 0 == 1) (returns refl) (
            after_if _ _ (v.current_syscallno == 1 && v.current_syscall_args 0 == 2) (returns refl)
              (returns refl)))))

-- The statistics leave all else alone.
pub record SameFixups (v v' : Vmcalls) : Type 0 where
  pub fixups : v'.fixups ≡ v.fixups
  pub call : SameCall v v'

pub update_mem_stats-Same : (v : Vmcalls) → SameFixups v (update_mem_stats v)
unfolding update_mem_stats
update_mem_stats-Same v = elim (Bool-cases (v.current_syscallno == 9)) [
  | inl mmap ↦ elim (Bool-cases v.fixups.external) [
    | inl external ↦
        rw (mmap, external)
          (record {
            fixups = refl;
            call = record { depth = refl; number = refl; arguments = refl };
          })
    | inr internal ↦
        rw (mmap, internal)
          (record {
            fixups = refl;
            call = record { depth = refl; number = refl; arguments = refl };
          })
  ]
  | inr other ↦
      elim (Bool-cases (v.current_syscallno == 12 && ltb v.last_brk (v.current_syscall_args 0))) [
        | inl brk ↦
            rw (other, brk)
              (record {
                fixups = refl;
                call = record { depth = refl; number = refl; arguments = refl };
              })
        | inr neither ↦
            rw (other, neither)
              (record {
                fixups = refl;
                call = record { depth = refl; number = refl; arguments = refl };
              })
      ]
]

pub SameCall-trans : {v v' v'' : Vmcalls} → SameCall v v' → SameCall v' v'' → SameCall v v''
SameCall-trans c c' = record {
  depth = c'.depth ∙ c.depth;
  number = c'.number ∙ c.number;
  arguments = c'.arguments ∙ c.arguments;
}

pub counted-Same :
    (external : Bool) (v : Vmcalls)
    → SameFixups v
        (update_mem_stats (if external then record v { vmcall_count = v.vmcall_count + 1 } else v))
counted-Same false v = update_mem_stats-Same v
counted-Same true v =
    let s = update_mem_stats-Same (record v { vmcall_count = v.vmcall_count + 1 }) in
    record {
      fixups = s.fixups;
      call = record { depth = s.call.depth; number = s.call.number; arguments = s.call.arguments };
    }

pub update_stats-Same : (v : Vmcalls) → SameFixups v (update_stats v)
unfolding update_stats
update_stats-Same v = counted-Same v.fixups.external v

pub brk_hotfix-After :
    (result : ℕ) (t : Vmcalls)
    → After
        (λ told t'.
          SameFixups t t'
          × (told ≡ (
              if t.current_syscallno == 12 && ltb 0x100000000 (t.current_syscall_args 0)
              then 0
              else result)))
        (brk_hotfix result t)
unfolding brk_hotfix
brk_hotfix-After result t =
    elim (Bool-cases (t.current_syscallno == 12 && ltb 0x100000000 (t.current_syscall_args 0))) [
      | inl high ↦ rw high (
          returns (
            record {
              fixups = refl;
              call = record { depth = refl; number = refl; arguments = refl };
            },
            refl,
          ))
      | inr low ↦ rw low (
          returns (
            record {
              fixups = refl;
              call = record { depth = refl; number = refl; arguments = refl };
            },
            refl,
          ))
    ]
