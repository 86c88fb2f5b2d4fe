-- ===== src/Hooks.antt =====
-- The allocation functions that replace the C library's, sources/src/dangless_malloc.c, over the
-- remapper, the page tables and the system allocator. Tracing and logging are left out; automatic
-- dedication and the fallback to the system allocator are taken as configured, as they are by
-- default. `pthread_once` is that of pthread_mock.h, which calls its function each time.
--
-- A function of the source `dangless_f` is `f` here.

pub mod Realloc
pub mod Resolve
pub mod Resize
pub mod Plain
pub mod Progress
pub mod Client
pub mod Free
pub mod Malloc
pub mod Balance
pub mod Depth
pub mod Reentry
pub mod Tests
use dangless_malloc.Prelude.{
  ℕ, zero, suc, ◌+◌, ◌-◌, ◌*◌, ◌/◌, ◌^◌, Bool, true, false, not, ◌&&◌, ◌||◌, Option, none, some,
  ltb, leb, ◌==◌, if◌then◌else◌, add64, mul64, ℤ, pos, negsuc, is_negative, Run, ok, fault, Cmd,
  pure, assert, get, ◌>>=◌, ◌>>◌,
}
use dangless_malloc.Page.{pgsize, round_up, num_spanned_pages}
use dangless_malloc.FreeList.{vp_free_region}
use dangless_malloc.Dune.{Dune, Machine, pt_paddr2vaddr}
use dangless_malloc.VirtMem.{pt_level_shift, pt_num_entries}
use dangless_malloc.VirtualRemap.{Process, in_kernel_mode, on_list, vremap_map, vremap_resolve}
use dangless_malloc.Invalidate.{virtual_invalidate}
use dangless_malloc.SysMalloc.{SysMalloc, sysmalloc_spanned_pages}

-- The hook that runs: `g_hook_funcname`.
pub data HookName : Type 0 where
  in_malloc : HookName
  in_calloc : HookName
  in_posix_memalign : HookName
  in_free : HookName
  in_realloc : HookName

pub record Counters : Type 0 where
  pub num_allocations : ℕ
  pub num_allocations_2mb_plus : ℕ
  pub num_allocations_1gb_plus : ℕ
  pub num_reallocations : ℕ
  pub num_reallocated_vpages : ℕ
  pub num_deallocations : ℕ
  pub num_deallocated_vpages : ℕ

-- The state: that of the remapper, of the system allocator, and this file's.
pub record Dangless (H : Type 0) : Type 0 where
  pub process : Process
  pub heap : H
  pub auto_dedicate_happened : Bool
  pub hook_depth : ℕ
  pub hook_funcname : Option HookName
  pub counters : Counters

-- The system allocator as the list of spans uses it: vp_free gets a span from MALLOC, where it has room,
-- and vp_alloc gives one that is empty to FREE. `has_room` is whether the calls of MALLOC succeed, and
-- `heap_after s s' h` what the calls of both leave of the allocator's state `h`, where the remapper has
-- gone from `s` to `s'`. Where a span lies is not in the model of the list, so this is a parameter.
pub record SpanMemory (H : Type 0) : Type 0 where
  pub has_room : ℕ → Bool
  pub heap_after : Process → Process → H → H

module _ {H : Type 0} where
  -- A run of the remapper, or of the system allocator, in the whole state.
  unfoldable pub on_process : {A : Type 0} → Cmd Process A → Cmd (Dangless H) A
  on_process c d = elim (c d.process) [ ok a s ↦ ok a (record d { process = s }) | fault ↦ fault ]

  -- A run of the remapper that may call vp_alloc and vp_free.
  unfoldable pub on_spans : {A : Type 0} → SpanMemory H → Cmd Process A → Cmd (Dangless H) A
  on_spans spans c d = elim (c d.process) [
    | ok a s ↦ ok a (record d { process = s; heap = spans.heap_after d.process s d.heap })
    | fault ↦ fault
  ]

  unfoldable pub on_heap : {A : Type 0} → Cmd H A → Cmd (Dangless H) A
  on_heap c d = elim (c d.heap) [ ok a h ↦ ok a (record d { heap = h }) | fault ↦ fault ]

  unfoldable pub on_machine_of : {A : Type 0} → Cmd Machine A → Cmd (Dangless H) A
  on_machine_of c d = elim (c d.process.machine) [
    | ok a m ↦ ok a (record d { process = record d.process { machine = m } })
    | fault ↦ fault
  ]

  -- STATISTIC_UPDATE
  unfoldable pub count : (Counters → Counters) → Cmd (Dangless H) (Unit {0})
  count f d = ok tt (record d { counters = f d.counters })

  -- `dangless_is_hook_running`
  unfoldable pub is_hook_running : Dangless H → Bool
  is_hook_running d = ltb 0 d.hook_depth

  -- `do_hook_enter`
  unfoldable pub hook_enter : HookName → Cmd (Dangless H) Bool
  unfolding is_hook_running in_kernel_mode
  hook_enter name d =
      if is_hook_running d
      then ok false d
      else if not (in_kernel_mode d.process)
      then ok false d
      else ok true (record d { hook_depth = d.hook_depth + 1; hook_funcname = some name })

  -- `do_hook_exit`
  unfoldable pub hook_exit : Cmd (Dangless H) (Unit {0})
  unfolding is_hook_running
  hook_exit d =
      if is_hook_running d
      then ok tt (record d { hook_depth = d.hook_depth - 1; hook_funcname = none })
      else fault

  -- `HOOK_RETURN(V)`
  unfoldable pub hook_return : {A : Type 0} → Cmd (Dangless H) A → Cmd (Dangless H) A
  unfolding hook_exit
  hook_return value = do result ← value; hook_exit; pure result

  -- `dangless_dedicate_vmem`; `call` is the number of the call of MALLOC.
  unfoldable pub dedicate_vmem : SpanMemory H → ℕ → ℕ → ℕ → Cmd (Dangless H) ℤ
  unfolding on_spans on_list
  dedicate_vmem spans call start end =
      on_spans spans (λ s. on_list s (vp_free_region (spans.has_room call) start end s.list))

-- `pte_mapped_size` of PT_L4
abbrev pub pml4e_size : ℕ
pml4e_size = 2 ^ 39

module _ (dune : Dune) {H : Type 0} where
  -- The loop of `auto_dedicate_vmem`: `left` entries from number `i` on of the table at `ptroot`.
  unfoldable pub dedicate_entries : SpanMemory H → ℕ → ℕ → ℕ → Cmd (Dangless H) (Unit {0})
  unfolding dedicate_vmem
  dedicate_entries spans zero i ptroot = pure tt
  dedicate_entries spans (suc left) i ptroot = do
    d ← get
    (if d.process.machine.mem (ptroot + 8 * i) == 0
        then (do dedicate_vmem spans i (i * pml4e_size) ((i + 1) * pml4e_size); pure tt)
        else pure tt)
    dedicate_entries spans left (i + 1) ptroot

  -- `auto_dedicate_vmem`; the call of MALLOC is that of the entry.
  unfoldable pub auto_dedicate_vmem : SpanMemory H → Cmd (Dangless H) (Unit {0})
  unfolding dedicate_entries
  auto_dedicate_vmem spans = do
    d ← get
    (elim (pt_paddr2vaddr dune d.process.machine.cr3) [
      | none ↦ λ d'. fault
      | some ptroot ↦ dedicate_entries spans pt_num_entries 0 ptroot
    ])
    λ d'. ok tt (record d' { auto_dedicate_happened = true })

-- The statistics of `do_vremap` on the actual size.
abbrev pub count_size : ℕ → Counters → Counters
count_size actual_sz c =
    if leb (1024 * 1024 * 1024) actual_sz
    then record c { num_allocations_1gb_plus = c.num_allocations_1gb_plus + 1 }
    else if leb (2 * 1024 * 1024) actual_sz
    then record c { num_allocations_2mb_plus = c.num_allocations_2mb_plus + 1 }
    else c

abbrev pub count_allocation : Counters → Counters
count_allocation c = record c { num_allocations = c.num_allocations + 1 }

-- `result == EVREM_NO_VM`
unfoldable pub is_no_vm : ℤ → Bool
is_no_vm (negsuc zero) = true
is_no_vm (negsuc (suc n)) = false
is_no_vm (pos n) = false

-- `result == 0`, and VREM_OK is 0
unfoldable pub is_zero : ℤ → Bool
is_zero (pos zero) = true
is_zero (pos (suc n)) = false
is_zero (negsuc n) = false

-- An out parameter that keeps its value where it is not written.
abbrev pub out_or : ℕ → Option ℕ → ℕ
out_or p none = p
out_or p (some q) = q

module _ (dune : Dune) {H : Type 0} (sys : SysMalloc H) where
  -- `vremap_map`, and after the automatic dedication once more: it sets the flag, so the test
  -- before `goto retry` fails the second time. The last numbers are for the calls of `vp_free`.
  unfoldable pub remap_retrying : SpanMemory H → ℕ → ℕ → Cmd (Dangless H) (ℤ × Option ℕ)
  unfolding on_spans is_no_vm
  remap_retrying spans p actual_sz = do
    (result, out) ← on_spans spans (vremap_map dune (spans.has_room 512) p actual_sz)
    d ← get
    (if is_no_vm result && not d.auto_dedicate_happened
        then (do
          auto_dedicate_vmem dune spans
          on_spans spans (vremap_map dune (spans.has_room 513) p actual_sz))
        else pure (result, out))

  -- `do_vremap`: the fallback on failure is `p` itself.
  unfoldable pub do_vremap : SpanMemory H → ℕ → ℕ → Cmd (Dangless H) ℕ
  unfolding remap_retrying count
  do_vremap spans p sz = if p == 0 || sz == 0 then pure 0 else (do
    d ← get
    count (count_size (sys.sysmalloc_usable_size d.heap p))
    (result, out) ← remap_retrying spans p (sys.sysmalloc_usable_size d.heap p)
    pure (if is_negative result then p else out_or 0 out))

  -- `dangless_malloc`
  unfoldable pub malloc : SpanMemory H → ℕ → Cmd (Dangless H) ℕ
  unfolding on_heap hook_enter count hook_return do_vremap
  malloc spans size = do
    p ← on_heap (sys.sysmalloc size)
    entered ← hook_enter in_malloc
    (if entered then (do count count_allocation; hook_return (do_vremap spans p size)) else pure p)

  -- `dangless_calloc`
  unfoldable pub calloc : SpanMemory H → ℕ → ℕ → Cmd (Dangless H) ℕ
  unfolding on_heap hook_enter count hook_return do_vremap
  calloc spans num size = do
    p ← on_heap (sys.syscalloc num size)
    entered ← hook_enter in_calloc
    (if entered
        then (do count count_allocation; hook_return (do_vremap spans p (mul64 num size)))
        else pure p)

  -- `dangless_posix_memalign`, with `*pp` as the caller left it in `old`.
  unfoldable pub posix_memalign : SpanMemory H → ℕ → ℕ → ℕ → Cmd (Dangless H) (ℤ × ℕ)
  unfolding on_heap hook_enter hook_return do_vremap is_zero
  posix_memalign spans old align size = do
    (result, out) ← on_heap (sys.sysmemalign old align size)
    (if not (is_zero result) then pure (result, out_or old out) else (do
      entered ← hook_enter in_posix_memalign
      (if entered
          then hook_return (do p ← do_vremap spans (out_or old out) size; pure (pos 0, p))
          else pure (result, out_or old out))))

  -- The middle of `dangless_free`: the alias is taken down where there is one.
  unfoldable pub free_alias : ℕ → ℕ → ℤ → Cmd (Dangless H) (Unit {0})
  unfolding is_zero on_machine_of count sysmalloc_spanned_pages
  free_alias p original_ptr result =
      if is_zero result
      then (do
        d ← get
        on_machine_of (virtual_invalidate dune p (sysmalloc_spanned_pages sys d.heap original_ptr))
        count (λ c. record c {
          num_deallocated_vpages =
              c.num_deallocated_vpages + sysmalloc_spanned_pages sys d.heap original_ptr;
        }))
      else pure tt

  -- `dangless_free`
  unfoldable pub free : ℕ → Cmd (Dangless H) (Unit {0})
  unfolding on_heap on_process hook_enter hook_exit count free_alias
  free p = if p == 0 then pure tt else (do
    entered ← hook_enter in_free
    (if entered
        then (do
          count (λ c. record c { num_deallocations = c.num_deallocations + 1 })
          (result, out) ← on_process (vremap_resolve dune p)
          free_alias p (out_or p out) result
          on_heap (sys.sysfree (out_or p out))
          hook_exit)
        else on_heap (sys.sysfree p)))
