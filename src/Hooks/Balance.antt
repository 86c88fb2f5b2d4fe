-- ===== src/Hooks/Balance.antt =====
-- Every hook leaves g_hook_depth as it found it.
use dangless_malloc.Prelude.{
  ℕ, ◌+◌, ◌≡◌, ap, inl, inr, Bool, true, false, ltb, arith, if◌then◌else◌, Cmd, Run, ok, fault,
  assert, and_then, Bool-cases, Run-cases,
}
use dangless_malloc.Dune.{Machine}
use dangless_malloc.VirtualRemap.{Process, in_kernel_mode}
use dangless_malloc.Hooks.{
  SpanMemory, Counters, Dangless, HookName, on_process, on_spans, on_heap, on_machine_of, count,
  is_hook_running, hook_enter, hook_exit, hook_return,
}

-- Where the run goes on, `Q` holds.
pub data Ends {S A : Type 0} (Q : A → S → Type 0) : Run S A → Type 0 where
  goes_on : {a : A} {s : S} → Q a s → Ends Q (ok a s)
  stops : Ends Q fault

pub Ends-bind :
    {S A B : Type 0} {P : A → S → Type 0} {Q : B → S → Type 0} {m : Run S A} (k : A → Cmd S B)
    → Ends P m
    → ((a : A) (s : S) → P a s → Ends Q (k a s))
    → Ends Q (and_then m k)
Ends-bind k (goes_on {a} {s} h) next = next a s h
Ends-bind k stops next = stops

Ends-map :
    {S A : Type 0} {P Q : A → S → Type 0} {m : Run S A}
    → Ends P m
    → ((a : A) (s : S) → P a s → Q a s)
    → Ends Q m
Ends-map (goes_on {a} {s} h) weaken = goes_on (weaken a s h)
Ends-map stops weaken = stops

-- The depth is `n`.
pub record At {H : Type 0} (n : ℕ) (d : Dangless H) : Type 0 where
  pub depth : d.hook_depth ≡ n

-- Where the run goes on, the depth is `n`.
abbrev pub EndsAt : {H A : Type 0} → ℕ → Run (Dangless H) A → Type 0
EndsAt n r = Ends (λ _ d'. At n d') r

module _ {H : Type 0} {n : ℕ} where
  pub count-EndsAt : (f : Counters → Counters) {d : Dangless H} → At n d → EndsAt n (count f d)
  unfolding count
  count-EndsAt f e = goes_on (record { depth = e.depth })

  pub assert-EndsAt : (b : Bool) {d : Dangless H} → At n d → EndsAt n (assert b d)
  assert-EndsAt true e = goes_on (record { depth = e.depth })
  assert-EndsAt false e = stops

  pub on_process-EndsAt :
      {A : Type 0} (c : Cmd Process A) {d : Dangless H} → At n d → EndsAt n (on_process c d)
  unfolding on_process
  on_process-EndsAt c {d} e = elim (Run-cases (c d.process)) [
    | inl failed ↦ rw (failed, on_process) stops
    | inr (a, s, returned) ↦ rw (returned, on_process) (goes_on (record { depth = e.depth }))
  ]

  pub on_spans-EndsAt :
      {A : Type 0} (spans : SpanMemory H) (c : Cmd Process A) {d : Dangless H}
      → At n d
      → EndsAt n (on_spans spans c d)
  unfolding on_spans
  on_spans-EndsAt spans c {d} e = elim (Run-cases (c d.process)) [
    | inl failed ↦ rw (failed, on_spans) stops
    | inr (a, s, returned) ↦ rw (returned, on_spans) (goes_on (record { depth = e.depth }))
  ]

  pub on_heap-EndsAt : {A : Type 0} (c : Cmd H A) {d : Dangless H} → At n d → EndsAt n (on_heap c d)
  unfolding on_heap
  on_heap-EndsAt c {d} e = elim (Run-cases (c d.heap)) [
    | inl failed ↦ rw (failed, on_heap) stops
    | inr (a, s, returned) ↦ rw (returned, on_heap) (goes_on (record { depth = e.depth }))
  ]

  pub on_machine_of-EndsAt :
      {A : Type 0} (c : Cmd Machine A) {d : Dangless H} → At n d → EndsAt n (on_machine_of c d)
  unfolding on_machine_of
  on_machine_of-EndsAt c {d} e = elim (Run-cases (c d.process.machine)) [
    | inl failed ↦ rw (failed, on_machine_of) stops
    | inr (a, s, returned) ↦ rw (returned, on_machine_of) (goes_on (record { depth = e.depth }))
  ]

  pub ends_if :
      {A : Type 0} (c c' : Cmd (Dangless H) A) {d : Dangless H} (b : Bool)
      → EndsAt n (c d)
      → EndsAt n (c' d)
      → EndsAt n ((if b then c else c') d)
  ends_if c c' true h h' = h
  ends_if c c' false h h' = h'

  -- Leaving a hook.
  pub hook_exit-EndsAt : {d : Dangless H} → At (n + 1) d → EndsAt n (hook_exit d)
  unfolding hook_exit is_hook_running
  hook_exit-EndsAt {d} e =
      let test : ltb 0 d.hook_depth ≡ true = ground (arith, e.depth) in
      rw test (goes_on (record { depth = omega (arith, e.depth) }))

  pub hook_return-EndsAt :
      {A : Type 0} (value : Cmd (Dangless H) A) {d : Dangless H}
      → EndsAt (n + 1) (value d)
      → EndsAt n (hook_return value d)
  unfolding hook_return
  hook_return-EndsAt value h =
      Ends-bind _ h (λ a d' e. Ends-bind _ (hook_exit-EndsAt e) (λ _ d'' e'. goes_on e'))

  -- A hook: its body leaves it, and the rest runs where it is not entered.
  pub hook_enter-EndsAt :
      {A : Type 0} (body other : Cmd (Dangless H) A) (name : HookName) {d : Dangless H}
      → At n d
      → ((d' : Dangless H) → At (n + 1) d' → EndsAt n (body d'))
      → EndsAt n (other d)
      → EndsAt n (and_then (hook_enter name d) (λ entered. if entered then body else other))
  unfolding hook_enter is_hook_running
  hook_enter-EndsAt body other name {d} e inside outside = elim (Bool-cases (ltb 0 d.hook_depth)) [
    | inl running ↦ rw running outside
    | inr idle ↦ elim (Bool-cases (in_kernel_mode d.process)) [
      | inr user ↦ rw (idle, user) outside
      | inl kernel ↦ rw (idle, kernel) (inside _ (record { depth = ap (λ x. x + 1) e.depth }))
    ]
  ]
