-- ===== src/Vmcall/Hooks.antt =====
-- The hooks that Dune calls around a system call, vmcall_hooks.c, in a build without support for
-- several threads. Tracing is left out but for the test whether to trace.
use dangless_malloc.Prelude.{
  ℕ, ◌+◌, ◌-◌, ◌*◌, Bool, true, false, not, ◌&&◌, List, ltb, ◌==◌, if◌then◌else◌, add64, Cmd, ok,
  fault, pure, assert, get, ◌>>=◌, ◌>>◌,
}
use dangless_malloc.Vmcall.{Fixups, Below}
use dangless_malloc.Vmcall.Info.{FixupInfo}
use dangless_malloc.Vmcall.Restore.{restore_originals}
use dangless_malloc.Vmcall.Fixup.{fixup_args}

-- The state of the file, over that of the fixups. `current_syscall_args i` is argument `i`.
pub record Vmcalls : Type 0 where
  pub fixups : Fixups
  pub vmcall_hook_depth : ℕ
  pub current_syscallno : ℕ
  pub current_syscall_args : ℕ → ℕ
  pub current_syscall_return_addr : ℕ
  pub vmcall_count : ℕ
  pub internal_mmap_total : ℕ
  pub external_mmap_total : ℕ
  pub brk_total : ℕ
  pub last_brk : ℕ
  pub errno : ℕ

abbrev pub enomem : ℕ
enomem = 12

unfoldable pub on_fixups : {A : Type 0} → Cmd Fixups A → Cmd Vmcalls A
on_fixups c v = elim (c v.fixups) [ ok a s ↦ ok a (record v { fixups = s }) | fault ↦ fault ]

-- `is_vmcall_hook_running`
unfoldable pub is_vmcall_hook_running : Vmcalls → Bool
is_vmcall_hook_running v = ltb 0 v.vmcall_hook_depth

-- `vmcall_should_trace_current`, with both configured exceptions.
unfoldable pub should_trace_current : Cmd Vmcalls Bool
unfolding is_vmcall_hook_running
should_trace_current = do
  v ← get
  assert (is_vmcall_hook_running v)
  (if not v.fixups.external
      then pure false
      else if v.current_syscallno == 186
      then pure false
      else if v.current_syscallno == 1 && v.current_syscall_args 0 == 1
      then pure false
      else if v.current_syscallno == 1 && v.current_syscall_args 0 == 2
      then pure false
      else pure true)

-- `update_mem_stats`
unfoldable pub update_mem_stats : Vmcalls → Vmcalls
update_mem_stats v =
    if v.current_syscallno == 9
    then if v.fixups.external
      then record v { external_mmap_total = add64 v.external_mmap_total (v.current_syscall_args 1) }
      else record v { internal_mmap_total = add64 v.internal_mmap_total (v.current_syscall_args 1) }
    else if v.current_syscallno == 12 && ltb v.last_brk (v.current_syscall_args 0)
    then record v {
      brk_total =
          if v.last_brk == 0
          then v.brk_total
          else add64 v.brk_total (v.current_syscall_args 0 - v.last_brk);
      last_brk = v.current_syscall_args 0;
    }
    else v

-- The statistics at the start of the prehook.
unfoldable pub update_stats : Vmcalls → Vmcalls
unfolding update_mem_stats
update_stats v =
    update_mem_stats
      (if v.fixups.external then record v { vmcall_count = v.vmcall_count + 1 } else v)

-- `g_vmcall_hook_depth++` behind the check, and `g_vmcall_hook_depth--`
unfoldable pub vmcall_enter : Cmd Vmcalls (Unit {0})
vmcall_enter v =
    if v.vmcall_hook_depth == 0 then ok tt (record v { vmcall_hook_depth = 1 }) else fault

unfoldable pub vmcall_leave : Cmd Vmcalls (Unit {0})
vmcall_leave v = ok tt (record v { vmcall_hook_depth = v.vmcall_hook_depth - 1 })

-- What the prehook keeps of the system call.
unfoldable pub note_syscall : ℕ → ℕ → ℕ → Cmd Vmcalls (Unit {0})
unfolding update_stats
note_syscall syscallno args retaddr v = ok tt (
    update_stats (record v {
      current_syscallno = syscallno;
      current_syscall_args = λ i. v.fixups.words (args + 8 * i);
      current_syscall_return_addr = retaddr;
    }))

-- `dangless_vmcall_prehook`
unfoldable pub prehook : Below → ℕ → List FixupInfo → ℕ → ℕ → ℕ → Cmd Vmcalls (Unit {0})
unfolding vmcall_enter note_syscall should_trace_current on_fixups fixup_args vmcall_leave
prehook below fuel table syscallno args retaddr = do
  vmcall_enter
  note_syscall syscallno args retaddr
  should_trace_current
  on_fixups (fixup_args below fuel table syscallno args)
  should_trace_current
  vmcall_leave

-- The hotfix for brk(): what the program is told, and errno.
unfoldable pub brk_hotfix : ℕ → Cmd Vmcalls ℕ
brk_hotfix result v =
    if v.current_syscallno == 12 && ltb 0x100000000 (v.current_syscall_args 0)
    then ok 0 (record v { errno = enomem })
    else ok result v

-- `dangless_vmcall_posthook`: the value of `*presult` in the end.
unfoldable pub posthook : ℕ → Cmd Vmcalls ℕ
unfolding vmcall_enter should_trace_current brk_hotfix on_fixups restore_originals vmcall_leave
posthook result = do
  vmcall_enter
  should_trace_current
  told ← brk_hotfix result
  on_fixups restore_originals
  vmcall_leave
  pure told
