-- ===== src/PerfEvents.antt =====
-- The performance events, sources/src/common/perf_events.c, without groups (USE_GROUPS is 0): they are
-- registered, opened and enabled at start-up, and read and closed at the end. The kernel's answers
-- to perf_event_open, ioctl and read are a parameter; -1 as a file descriptor is `none`. The
-- attributes of an event, logging, and the scaling of the printed numbers are left out.
pub mod Loops
pub mod Lifecycle
pub mod Tests
use dangless_malloc.Prelude.{
  ℕ, ◌+◌, Bool, true, false, not, Option, none, some, List, [], ◌∷◌, ◌++◌, if◌then◌else◌,
}

-- What read() gives: the end of the file, an error, or the data.
pub data ReadResult : Type 0 where
  end_of_file : ReadResult
  read_error : ReadResult
  counted : ℕ → ℕ → ℕ → ReadResult

-- The kernel: perf_event_open() of an event, and the calls on a file descriptor.
pub record Kernel : Type 0 where
  pub open_event : ℕ → Option ℕ
  pub event_id : Option ℕ → Option ℕ
  pub reset : Option ℕ → Bool
  pub enable : Option ℕ → Bool
  pub read : Option ℕ → ReadResult

-- A call to the kernel.
pub data KernelCall : Type 0 where
  opening : ℕ → KernelCall
  asking_id : Option ℕ → KernelCall
  resetting : Option ℕ → KernelCall
  enabling : Option ℕ → KernelCall
  disabling : Option ℕ → KernelCall
  reading : Option ℕ → KernelCall
  closing : Option ℕ → KernelCall

-- A line that is printed.
pub data Report : Type 0 where
  nothing_to_report : Report
  heading : Report
  result_of : ℕ → ReadResult → Report
  not_run : ℕ → Report

-- `struct perf_event_desc`; the name is a number.
pub record PerfEvent : Type 0 where
  pub name : ℕ
  pub fd : Option ℕ
  pub id : ℕ
  pub initialized : Bool

-- The globals other than the list, what the kernel was asked, and what was printed.
pub record Globals : Type 0 where
  pub pe_list_length : ℕ
  pub pe_count : ℕ
  pub group_leader_fd : Option ℕ
  pub calls : List KernelCall
  pub reports : List Report

pub record Perf : Type 0 where
  pub pe_list : List PerfEvent
  pub globals : Globals

-- LIST_FOREACH with a body that changes the event as `change` says, and all else as `note` does.
unfoldable pub change_each : (PerfEvent → PerfEvent) → List PerfEvent → List PerfEvent
change_each change [] = []
change_each change (pe ∷ rest) = change pe ∷ change_each change rest

unfoldable pub note_each : (PerfEvent → Globals → Globals) → List PerfEvent → Globals → Globals
note_each note [] g = g
note_each note (pe ∷ rest) g = note_each note rest (note pe g)

abbrev pub foreach : (PerfEvent → PerfEvent) → (PerfEvent → Globals → Globals) → Perf → Perf
foreach change note s = record {
  pe_list = change_each change s.pe_list;
  globals = note_each note s.pe_list s.globals;
}

abbrev pub ask : KernelCall → Globals → Globals
ask call g = record g { calls = g.calls ++ call ∷ [] }

abbrev pub print : Report → Globals → Globals
print report g = record g { reports = g.reports ++ report ∷ [] }

-- `perf_event_register`
unfoldable pub perf_event_register : ℕ → Perf → Perf
perf_event_register name s = record {
  pe_list = record { name = name; fd = some 0; id = 0; initialized = false } ∷ s.pe_list;
  globals = record s.globals { pe_list_length = s.globals.pe_list_length + 1 };
}

-- `g_group_leader_fd`, once an event has been opened.
abbrev pub leader_or : Option ℕ → Option ℕ → Option ℕ
leader_or none fd = fd
leader_or (some leader) fd = some leader

module _ (k : Kernel) where
  -- The first loop of `perfevents_init`.
  unfoldable pub opened : PerfEvent → PerfEvent
  opened pe = elim (k.open_event pe.name) [
    | none ↦ record pe { fd = none }
    | some fd ↦ elim (k.event_id (some fd)) [
      | none ↦ record pe { fd = some fd }
      | some id ↦ record pe { fd = some fd; id = id; initialized = true }
    ]
  ]

  unfoldable pub note_opened : PerfEvent → Globals → Globals
  note_opened pe g = elim (k.open_event pe.name) [
    | none ↦ ask (opening pe.name) g
    | some fd ↦ elim (k.event_id (some fd)) [
      | none ↦ ask (asking_id (some fd)) (ask (opening pe.name) g)
      | some id ↦
          let g' = ask (asking_id (some fd)) (ask (opening pe.name) g) in
          record g' { group_leader_fd = leader_or g'.group_leader_fd (some fd) }
    ]
  ]

  -- The second loop.
  unfoldable pub enabled : PerfEvent → PerfEvent
  enabled pe =
      if not pe.initialized
      then pe
      else if not (k.reset pe.fd)
      then record pe { initialized = false }
      else if not (k.enable pe.fd)
      then record pe { initialized = false }
      else pe

  unfoldable pub note_enabled : PerfEvent → Globals → Globals
  note_enabled pe g =
      if not pe.initialized
      then g
      else if not (k.reset pe.fd)
      then ask (resetting pe.fd) g
      else if not (k.enable pe.fd)
      then ask (enabling pe.fd) (ask (resetting pe.fd) g)
      else (let g' = ask (enabling pe.fd) (ask (resetting pe.fd) g) in
          record g' { pe_count = g'.pe_count + 1 })

  -- `perfevents_init`
  unfoldable pub perfevents_init : Perf → Perf
  perfevents_init s = foreach enabled note_enabled (foreach opened note_opened s)

-- The loops of `perfevents_finalize`: stop, report, report those that did not run, close.
unfoldable pub note_disabled : PerfEvent → Globals → Globals
note_disabled pe g = if not pe.initialized then g else ask (disabling pe.fd) g

unfoldable pub note_read : Kernel → PerfEvent → Globals → Globals
note_read k pe g =
    if not pe.initialized
    then g
    else print (result_of pe.name (k.read pe.fd)) (ask (reading pe.fd) g)

unfoldable pub note_not_run : PerfEvent → Globals → Globals
note_not_run pe g = if pe.initialized then g else print (not_run pe.name) g

unfoldable pub closed : PerfEvent → PerfEvent
closed pe = if not pe.initialized then pe else record pe { initialized = false }

unfoldable pub note_closed : PerfEvent → Globals → Globals
note_closed pe g = if not pe.initialized then g else ask (closing pe.fd) g

-- `perfevents_finalize`
unfoldable pub perfevents_finalize : Kernel → Perf → Perf
perfevents_finalize k s = elim s.globals.group_leader_fd [
  | none ↦ record s { globals = print nothing_to_report s.globals }
  | some leader ↦
      let stopped = note_each note_disabled s.pe_list s.globals in
      let reported =
        note_each note_not_run s.pe_list
          (note_each (note_read k) s.pe_list (print heading stopped)) in
      let s' = foreach closed note_closed (record s { globals = reported }) in
      record s' { globals = record s'.globals { pe_count = 0 } }
]
