-- ===== src/Init.antt =====
-- Start-up on Dune and the handler of page faults, sources/src/platform/dune/init.c. The results of
-- dune_init() and dune_enter() are arguments; a report stands for what the handler prints before
-- dune_die().
pub mod Fault
pub mod Once
pub mod Tests
use dangless_malloc.Prelude.{
  ℕ, ◌+◌, Bool, true, false, not, Option, none, some, Run, ok, fault, Cmd, pure, assert, ◌>>=◌,
  ◌>>◌, ◌==◌, if◌then◌else◌, ℤ, pos, negsuc,
}
use dangless_malloc.Page.{pgsize, round_down}
use dangless_malloc.Dune.{Dune, Machine}
use dangless_malloc.VirtMem.{flag_isset, pte_invalidated, pt_walk}
use dangless_malloc.Hooks.{is_zero}
use dangless_malloc.Vmcall.{Fixups, Below}
use dangless_malloc.Vmcall.Restore.{restore_init}

abbrev pub pgflt_flag_ispresent : ℕ
pgflt_flag_ispresent = 0x1

abbrev pub pgflt_flag_iswrite : ℕ
pgflt_flag_iswrite = 0x2

abbrev pub pgflt_flag_isuser : ℕ
pgflt_flag_isuser = 0x4

-- What the handler says of a fault; `dangling` is the entry of the page tables with the marker, and
-- its level.
pub record FaultReport : Type 0 where
  pub addr : ℕ
  pub from_user : Bool
  pub is_write : Bool
  pub protection_violation : Bool
  pub dangling : Option (ℕ × ℕ)

-- The entry is the marker of an invalidated page.
abbrev pub dangling_at : Machine → ℕ → ℕ → Option (ℕ × ℕ)
dangling_at m level ppte = if m.mem ppte == pte_invalidated then some (ppte, level) else none

abbrev pub report_of : ℕ → ℕ → Option (ℕ × ℕ) → FaultReport
report_of addr flags dangling = record {
  addr = addr;
  from_user = flag_isset flags pgflt_flag_isuser;
  is_write = flag_isset flags pgflt_flag_iswrite;
  protection_violation = flag_isset flags pgflt_flag_ispresent;
  dangling = dangling;
}

-- The check for a dangling pointer; none where the walk fails an assertion.
unfoldable pub check_dangling : Dune → Machine → ℕ → ℕ → Option FaultReport
check_dangling dune m addr flags = elim (pt_walk dune m (round_down addr pgsize) 1) [
  | none ↦ none
  | some (level, ppte) ↦ some (report_of addr flags (dangling_at m level ppte))
]

-- `dangless_pagefault_handler`
unfoldable pub pagefault_handler : Dune → Machine → ℕ → ℕ → Option FaultReport
pagefault_handler dune m addr flags =
    if not (flag_isset flags pgflt_flag_ispresent)
    then check_dangling dune m addr flags
    else some (report_of addr flags none)

-- What start-up changes: the mode, the buffer of records, the hooks of system calls and the handler.
pub record Startup : Type 0 where
  pub init_happened : ℕ
  pub initialized : Bool
  pub in_dune : Bool
  pub fixups : Fixups
  pub prehook_set : Bool
  pub posthook_set : Bool
  pub pgflt_handler_set : Bool

-- `dangless_enter_dune`, with the results of dune_init() and dune_enter().
unfoldable pub enter_dune : ℤ → ℤ → Cmd Startup (Unit {0})
unfolding is_zero
enter_dune init_result enter_result s =
    if not (is_zero init_result)
    then fault
    else if not (is_zero enter_result)
    then fault
    else ok tt (record s { in_dune = true })

-- `vmcall_hooks_init`
unfoldable pub vmcall_hooks_init : Cmd Startup (Unit {0})
vmcall_hooks_init s = ok tt (record s { prehook_set = true; posthook_set = true })

unfoldable pub on_fixups : Cmd Fixups Bool → Cmd Startup (Unit {0})
on_fixups c s = elim (c s.fixups) [ ok a f ↦ ok tt (record s { fixups = f }) | fault ↦ fault ]

-- `dangless_init`; `initial` is the configured size of the buffer.
unfoldable pub init : Below → ℕ → ℤ → ℤ → Cmd Startup (Unit {0})
unfolding enter_dune on_fixups restore_init vmcall_hooks_init
init below initial init_result enter_result s =
    (if s.initialized then pure tt else (do
      (λ t. ok tt (record t { initialized = true }))
      enter_dune init_result enter_result
      on_fixups (restore_init below initial)
      vmcall_hooks_init
      λ t. ok tt (record t { pgflt_handler_set = true })))
      (record s { init_happened = s.init_happened + 1 })
