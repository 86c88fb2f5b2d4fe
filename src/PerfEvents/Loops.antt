-- ===== src/PerfEvents/Loops.antt =====
-- The loops over the events: whom they leave initialised, and what they ask the kernel.
use mathlib.Core.List.{map, append_assoc, append-nil}
use dangless_malloc.Prelude.{
  ℕ, ◌+◌, ◌≡◌, ◌≢◌, refl, sym, ◌∙◌, false, ◌&&◌, Option, none, some, List, [], ◌∷◌, ◌++◌,
  if◌then◌else◌, arith, length, Bool-cases, Option-cases, inl, inr,
}
use dangless_malloc.PerfEvents.{
  Kernel, KernelCall, disabling, reading, closing, PerfEvent, Globals, change_each, note_each,
  opened, note_opened, enabled, note_enabled, note_disabled, note_read, note_not_run, closed,
  note_closed,
}

-- The file descriptors of the events that are initialised.
abbrev pub live : List PerfEvent → List (Option ℕ)
live [] = []
live (pe ∷ rest) = if pe.initialized then pe.fd ∷ live rest else live rest

abbrev pub AllFresh : List PerfEvent → Type 0
AllFresh [] = Unit
AllFresh (pe ∷ rest) = (pe.initialized ≡ false) × AllFresh rest

-- The descriptors of the events for which the kernel says yes to all four questions, in order.
abbrev pub running : Kernel → List PerfEvent → List (Option ℕ)
running k [] = []
running k (pe ∷ rest) = elim (k.open_event pe.name) [
  | none ↦ running k rest
  | some fd ↦ elim (k.event_id (some fd)) [
    | none ↦ running k rest
    | some id ↦
        if k.reset (some fd) && k.enable (some fd) then some fd ∷ running k rest else running k rest
  ]
]

-- A loop that asks one question for each initialised event.
note_each-calls :
    (call : Option ℕ → KernelCall) (note : PerfEvent → Globals → Globals)
    → ((pe : PerfEvent) (g : Globals)
        → (note pe g).calls ≡ g.calls ++ (if pe.initialized then call pe.fd ∷ [] else []))
    → (es : List PerfEvent) (g : Globals)
    → (note_each note es g).calls ≡ g.calls ++ map call (live es)
unfolding note_each
note_each-calls call note asks [] g = sym (append-nil g.calls)
note_each-calls call note asks (pe ∷ rest) g =
    note_each-calls call note asks rest (note pe g) ∙ elim (Bool-cases pe.initialized) [
      | inl on ↦ rw (asks pe g, on) (append_assoc g.calls (call pe.fd ∷ []) (map call (live rest)))
      | inr off ↦ rw (asks pe g, off) (append_assoc g.calls [] (map call (live rest)))
    ]

pub note_disabled-calls :
    (es : List PerfEvent) (g : Globals)
    → (note_each note_disabled es g).calls ≡ g.calls ++ map disabling (live es)
unfolding note_disabled
note_disabled-calls = note_each-calls disabling note_disabled (λ pe g.
    elim (Bool-cases pe.initialized) [
      | inl on ↦ rw on refl
      | inr off ↦ rw off (sym (append-nil g.calls))
    ])

pub note_read-calls :
    (k : Kernel) (es : List PerfEvent) (g : Globals)
    → (note_each (note_read k) es g).calls ≡ g.calls ++ map reading (live es)
unfolding note_read
note_read-calls k = note_each-calls reading (note_read k) (λ pe g.
    elim (Bool-cases pe.initialized) [
      | inl on ↦ rw on refl
      | inr off ↦ rw off (sym (append-nil g.calls))
    ])

pub note_closed-calls :
    (es : List PerfEvent) (g : Globals)
    → (note_each note_closed es g).calls ≡ g.calls ++ map closing (live es)
unfolding note_closed
note_closed-calls = note_each-calls closing note_closed (λ pe g. elim (Bool-cases pe.initialized) [
  | inl on ↦ rw on refl
  | inr off ↦ rw off (sym (append-nil g.calls))
])

pub note_not_run-calls :
    (es : List PerfEvent) (g : Globals) → (note_each note_not_run es g).calls ≡ g.calls
unfolding note_each note_not_run
note_not_run-calls [] g = refl
note_not_run-calls (pe ∷ rest) g =
    note_not_run-calls rest (note_not_run pe g)
    ∙ elim (Bool-cases pe.initialized) [ inl on ↦ rw on refl | inr off ↦ rw off refl ]

pub live-closed : (es : List PerfEvent) → live (change_each closed es) ≡ []
unfolding change_each closed
live-closed [] = refl
live-closed (pe ∷ rest) = elim (Bool-cases pe.initialized) [
  | inl on ↦ rw on (live-closed rest)
  | inr off ↦ rw off (live-closed rest)
]

module _ (k : Kernel) where
  pub pe_count-note_enabled :
      (es : List PerfEvent) (g : Globals)
      → (note_each (note_enabled k) es g).pe_count
        ≡ g.pe_count + length (live (change_each (enabled k) es))
  unfolding note_each note_enabled change_each enabled
  pe_count-note_enabled [] g = omega arith
  pe_count-note_enabled (pe ∷ rest) g =
      let ih = pe_count-note_enabled rest (note_enabled k pe g) in
      elim (Bool-cases pe.initialized) [
        | inr off ↦ ground (arith, ih, off)
        | inl on ↦ elim (Bool-cases (k.reset pe.fd)) [
          | inr no_reset ↦ ground (arith, ih, on, no_reset)
          | inl reset ↦ ground (arith, ih, on, reset)
        ]
      ]

  pub leader-note_enabled :
      (es : List PerfEvent) (g : Globals)
      → (note_each (note_enabled k) es g).group_leader_fd ≡ g.group_leader_fd
  unfolding note_each note_enabled
  leader-note_enabled [] g = refl
  leader-note_enabled (pe ∷ rest) g = leader-note_enabled rest (note_enabled k pe g) ∙ ground arith

  pub live-enabled : (es : List PerfEvent) → live es ≡ [] → live (change_each (enabled k) es) ≡ []
  unfolding change_each enabled
  live-enabled [] none_on = refl
  live-enabled (pe ∷ rest) none_on = elim (Bool-cases pe.initialized) [
    | inl on ↦ absurd (ground (arith, none_on, on))
    | inr off ↦ ground (arith, live-enabled rest, none_on, off)
  ]

  leader_kept :
      (es : List PerfEvent) (g : Globals) (fd : ℕ)
      → g.group_leader_fd ≡ some fd
      → (note_each (note_opened k) es g).group_leader_fd ≡ some fd
  unfolding note_each note_opened
  leader_kept [] g fd h = h
  leader_kept (pe ∷ rest) g fd h = leader_kept rest (note_opened k pe g) fd (ground (arith, h))

  pub live-running :
      (es : List PerfEvent)
      → AllFresh es
      → live (change_each (enabled k) (change_each (opened k) es)) ≡ running k es
  unfolding change_each enabled opened
  live-running [] fresh = refl
  live-running (pe ∷ rest) fresh = ground (arith, fresh.0, live-running rest fresh.1)

  -- An event that the kernel has identified leaves a leader behind.
  leader_set :
      (pe : PerfEvent) (rest : List PerfEvent) (g : Globals) (fd id : ℕ)
      → k.open_event pe.name ≡ some fd
      → k.event_id (some fd) ≡ some id
      → (note_each (note_opened k) rest (note_opened k pe g)).group_leader_fd ≢ none
  unfolding note_opened
  leader_set pe rest g fd id is_open identified h = elim (Option-cases g.group_leader_fd) [
    | inl first ↦ absurd (
        ground (
          arith,
          h,
          leader_kept rest (note_opened k pe g) fd (ground (arith, is_open, identified, first)),
        ))
    | inr (leader, later) ↦ absurd (
        ground (
          arith,
          h,
          leader_kept rest (note_opened k pe g) leader (ground (arith, is_open, identified, later)),
        ))
  ]

  pub live-opened :
      (es : List PerfEvent) (g : Globals)
      → AllFresh es
      → (note_each (note_opened k) es g).group_leader_fd ≡ none
      → live (change_each (opened k) es) ≡ []
  unfolding change_each opened note_each note_opened
  live-opened [] g fresh h = refl
  live-opened (pe ∷ rest) g fresh h = elim (Option-cases (k.open_event pe.name)) [
    | inl failed ↦ ground (arith, fresh.0, failed, live-opened rest (note_opened k pe g) fresh.1)
    | inr (fd, is_open) ↦ elim (Option-cases (k.event_id (some fd))) [
      | inl failed ↦
          ground (arith, fresh.0, is_open, failed, live-opened rest (note_opened k pe g) fresh.1)
      | inr (id, identified) ↦ absurd (leader_set pe rest g fd id is_open identified h)
    ]
  ]
