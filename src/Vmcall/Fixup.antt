-- ===== src/Vmcall/Fixup.antt =====
-- The replacement of remapped pointers, vmcall_fixup.c. Addresses of items and fields do not wrap.
use dangless_malloc.Prelude.{
  ℕ, zero, suc, ◌+◌, ◌-◌, ◌*◌, Bool, true, false, not, ◌&&◌, ◌||◌, Option, none, some, List, [],
  ◌∷◌, ltb, leb, ◌==◌, if◌then◌else◌, ℤ, pos, negsuc, is_negative, Cmd, ok, fault, pure, get, ◌>>=◌,
  ◌>>◌,
}
use dangless_malloc.Page.{pgsize}
use dangless_malloc.VirtualRemap.{vrem_ok, vrem_not_remapped}
use dangless_malloc.Vmcall.{FixupCounters, Fixups, Below}
use dangless_malloc.Vmcall.Restore.{tally, store, restore_on_return}
use dangless_malloc.Vmcall.Info.{
  ParamFixup, no_fixup, flat_ptr, iovec, ptr_ptr, msghdr, FixupInfo, get_fixup_info,
}

-- `result--`
abbrev pub decrement : ℤ → ℤ
decrement (pos zero) = negsuc 0
decrement (pos (suc n)) = pos n
decrement (negsuc n) = negsuc (suc n)

-- `FIXUP_SCOPE`: fixup_enter and fixup_leave around a block.
unfoldable pub fixup_enter : Cmd Fixups (Unit {0})
fixup_enter s = ok tt (record s { depth = s.depth + 1 })

unfoldable pub fixup_leave : Cmd Fixups (Unit {0})
fixup_leave s = if ltb 0 s.depth then ok tt (record s { depth = s.depth - 1 }) else fault

unfoldable pub fixup_scope : Cmd Fixups ℤ → Cmd Fixups ℤ
unfolding fixup_enter fixup_leave
fixup_scope block = do fixup_enter; result ← block; fixup_leave; pure result

-- A counter that is kept for external system calls.
unfoldable pub tally_external : (FixupCounters → FixupCounters) → Cmd Fixups (Unit {0})
unfolding tally
tally_external f s = (if s.external then tally f else pure tt) s

-- The counter of a pointer that was not fixed up, by the result.
unfoldable pub miss_counter : ℤ → FixupCounters → FixupCounters
miss_counter (pos n) c = record c { ptr_fixup_misses = c.ptr_fixup_misses + 1 }
miss_counter (negsuc zero) c = record c { ptr_fixup_failures = c.ptr_fixup_failures + 1 }
miss_counter (negsuc (suc zero)) c = record c { ptr_fixup_failures = c.ptr_fixup_failures + 1 }
miss_counter (negsuc (suc (suc zero))) c = record c { invalid_ptrs = c.invalid_ptrs + 1 }
miss_counter (negsuc (suc (suc (suc n)))) c = record c {
  ptr_fixup_failures = c.ptr_fixup_failures + 1;
}

-- `result != EVREM_NO_PHYS_BACK`
unfoldable pub is_valid : ℤ → Bool
is_valid (pos n) = true
is_valid (negsuc zero) = true
is_valid (negsuc (suc zero)) = true
is_valid (negsuc (suc (suc zero))) = false
is_valid (negsuc (suc (suc (suc n)))) = true

-- What vremap_resolve says of a pointer: the canonical one, or its code.
pub data Resolved : Type 0 where
  canonical : ℕ → Resolved
  unchanged : ℤ → Resolved

unfoldable pub resolved : ℤ × Option ℕ → Resolved
resolved (pos zero, some q) = canonical q
resolved (pos zero, none) = unchanged vrem_ok
resolved (pos (suc n), o) = unchanged (pos (suc n))
resolved (negsuc n, o) = unchanged (negsuc n)

-- One failure more, if the result is one.
abbrev pub fail_if : ℤ × Bool → ℤ → ℤ
fail_if r result = if is_negative r.0 then decrement result else result

-- `result` after the pointer to the whole has been fixed up.
abbrev pub start_result : ℤ × Bool → ℤ
start_result r = if is_negative r.0 then negsuc 1 else pos 0

-- Whether the argument behind is the length that has been used.
unfoldable pub uses_next : ParamFixup → Bool
uses_next iovec = true
uses_next no_fixup = false
uses_next flat_ptr = false
uses_next ptr_ptr = false
uses_next msghdr = false

unfoldable pub needs_fixup : ParamFixup → Bool
needs_fixup no_fixup = false
needs_fixup flat_ptr = true
needs_fixup iovec = true
needs_fixup ptr_ptr = true
needs_fixup msghdr = true

module _ (below : Below) where
  -- `is_trivially_not_remapped`
  unfoldable pub is_trivially_not_remapped : ℕ → Bool
  is_trivially_not_remapped p =
      leb below.stack_base p && ltb p (below.stack_base + below.gpa_stack_size)

  -- `fixup_ptr` where the pointer at `pptr` is the alias `p` of `q`.
  unfoldable pub replace_ptr : ℕ → ℕ → ℕ → Cmd Fixups (ℤ × Bool)
  unfolding store tally_external restore_on_return
  replace_ptr pptr p q = do
    store pptr q
    tally_external (λ c. record c { ptr_fixups = c.ptr_fixups + 1 })
    s ← get
    (if ltb 1 s.depth
        then (do
          restore_on_return below pptr p
          tally_external (λ c. record c { nested_ptr_fixups = c.nested_ptr_fixups + 1 }))
        else pure tt)
    pure (vrem_ok, true)

  -- `fixup_ptr` behind the quick tests.
  unfoldable pub fixup_resolved : ℕ → ℕ → Resolved → Cmd Fixups (ℤ × Bool)
  unfolding replace_ptr tally_external miss_counter is_valid
  fixup_resolved pptr p (canonical q) = replace_ptr pptr p q
  fixup_resolved pptr p (unchanged result) = do
    tally_external (miss_counter result)
    pure (result, is_valid result)

  -- `fixup_ptr`: the result, and what it stores to `is_valid`.
  unfoldable pub fixup_ptr : ℕ → Cmd Fixups (ℤ × Bool)
  unfolding is_trivially_not_remapped fixup_resolved resolved
  fixup_ptr pptr = do
    s ← get
    (if ltb (s.words pptr) pgsize
        then pure (vrem_not_remapped, false)
        else if is_trivially_not_remapped (s.words pptr)
        then pure (vrem_not_remapped, true)
        else (elim (below.resolve (s.words pptr)) [
          | none ↦ λ s'. fault
          | some r ↦ fixup_resolved pptr (s.words pptr) (resolved r)
        ]))

  -- The loop of `fixup_ptr_ptr_nullterm` from item `i` on; the fuel bounds the number of items.
  unfoldable pub fixup_items : ℕ → ℕ → ℕ → ℤ → Cmd Fixups ℤ
  unfolding fixup_ptr
  fixup_items zero ptrs i result s = if s.words (ptrs + 8 * i) == 0 then ok result s else fault
  fixup_items (suc fuel) ptrs i result s =
      (if s.words (ptrs + 8 * i) == 0
          then pure result
          else (do r ← fixup_ptr (ptrs + 8 * i); fixup_items fuel ptrs (i + 1) (fail_if r result)))
        s

  -- `fixup_ptr_ptr_nullterm`
  unfoldable pub fixup_ptr_ptr_nullterm : ℕ → ℕ → Cmd Fixups ℤ
  unfolding fixup_ptr fixup_items fixup_scope
  fixup_ptr_ptr_nullterm fuel pptrs = do
    r ← fixup_ptr pptrs
    s ← get
    (if not r.1
        then pure (negsuc 0)
        else fixup_scope (fixup_items fuel (s.words pptrs) 0 (start_result r)))

  -- The loop of `fixup_iovec_array`: `left` items from number `i` on.
  unfoldable pub fixup_iovecs : ℕ → ℕ → ℕ → ℤ → Cmd Fixups ℤ
  unfolding fixup_ptr
  fixup_iovecs zero i piovecs result = pure result
  fixup_iovecs (suc left) i piovecs result = do
    s ← get
    r ← fixup_ptr (s.words piovecs + 16 * i)
    fixup_iovecs left (i + 1) piovecs (fail_if r result)

  -- `fixup_iovec_array`
  unfoldable pub fixup_iovec_array : ℕ → ℕ → Cmd Fixups ℤ
  unfolding fixup_ptr fixup_iovecs fixup_scope
  fixup_iovec_array piovecs num_iovecs = do
    r ← fixup_ptr piovecs
    (if not r.1
        then pure (negsuc 0)
        else fixup_scope (fixup_iovecs num_iovecs 0 piovecs (start_result r)))

  -- The block of `fixup_msghdr`: msg_name, msg_iov with msg_iovlen, msg_control.
  unfoldable pub fixup_fields : ℕ → ℤ → Cmd Fixups ℤ
  unfolding fixup_ptr fixup_iovec_array
  fixup_fields hdr result = do
    name ← fixup_ptr hdr
    s ← get
    iov ← fixup_iovec_array (hdr + 16) (s.words (hdr + 24))
    control ← fixup_ptr (hdr + 32)
    pure (fail_if control (fail_if (iov, true) (fail_if name result)))

  -- `fixup_msghdr`
  unfoldable pub fixup_msghdr : ℕ → Cmd Fixups ℤ
  unfolding fixup_ptr fixup_fields fixup_scope
  fixup_msghdr pmsghdr = do
    r ← fixup_ptr pmsghdr
    s ← get
    (if not r.1
        then pure (negsuc 0)
        else fixup_scope (fixup_fields (s.words pmsghdr) (start_result r)))

  -- The switch of `vmcall_fixup_args`; the length of an iovec array is the next argument.
  unfoldable pub fixup_arg : ℕ → ParamFixup → ℕ → Cmd Fixups ℤ
  unfolding fixup_ptr fixup_iovec_array fixup_ptr_ptr_nullterm fixup_msghdr
  fixup_arg fuel no_fixup parg = λ s. fault
  fixup_arg fuel flat_ptr parg = do r ← fixup_ptr parg; pure r.0
  fixup_arg fuel iovec parg = do s ← get; fixup_iovec_array parg (s.words (parg + 8))
  fixup_arg fuel ptr_ptr parg = fixup_ptr_ptr_nullterm fuel parg
  fixup_arg fuel msghdr parg = fixup_msghdr parg

  -- The loop of `vmcall_fixup_args` over the parameters that are left, the first at `parg`; `used`
  -- says that it is the length of an array before it.
  unfoldable pub fixup_params : ℕ → FixupInfo → ℕ → Bool → ℤ → Cmd Fixups ℤ
  unfolding tally_external fixup_scope fixup_arg uses_next needs_fixup
  fixup_params fuel [] parg used final_result = pure final_result
  fixup_params fuel (t ∷ ts) parg used final_result = do
    s ← get
    (if used || not (needs_fixup t) || ltb (s.words parg) pgsize
        then fixup_params fuel ts (parg + 8) false final_result
        else (do
          tally_external (λ c. record c { arg_needed_fixups = c.arg_needed_fixups + 1 })
          result ← fixup_scope (fixup_arg fuel t parg)
          fixup_params fuel ts (parg + 8) (uses_next t) (fail_if (result, true) final_result)))

  -- `vmcall_fixup_args`, with the arguments from the address `args` on.
  unfoldable pub fixup_args : ℕ → List FixupInfo → ℕ → ℕ → Cmd Fixups ℤ
  unfolding fixup_params get_fixup_info
  fixup_args fuel table syscallno args = elim (get_fixup_info table syscallno) [
    | none ↦ pure (pos 0)
    | some info ↦ fixup_params fuel info args false (pos 0)
  ]
