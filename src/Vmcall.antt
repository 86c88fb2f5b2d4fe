-- ===== src/Vmcall.antt =====
-- Fixups of system call arguments, sources/src/platform/dune/vmcall_fixup.c, their undoing,
-- vmcall_fixup_restore.c, and the hooks around a system call, vmcall_hooks.c. The host kernel knows
-- nothing of remapped pointers, so they are replaced before the call and put back after it.
--
-- Memory is a function from the address of a 64-bit word to the word; the arguments are words of
-- it too. Two parameters stand for the code below: `resolve p` is what vremap_resolve returns and
-- stores, none where it stops the program, and `grow n` whether sysrealloc has room for `n` records.
-- Logging, and its loop that counts the items of an array, are left out.
pub mod Restore
pub mod Fixup
pub mod Info
pub mod Hooks
pub mod Records
pub mod Undo
pub mod Steps
pub mod Canonical
pub mod Remapped
pub mod Nested
pub mod Roundtrip
pub mod Tests
use dangless_malloc.Prelude.{ℕ, Bool, Option, ℤ, List}

-- A record of vmcall_fixup_restore.c.
pub record Restoration : Type 0 where
  pub location : ℕ
  pub value : ℕ

-- The counters of the two files.
pub record FixupCounters : Type 0 where
  pub arg_needed_fixups : ℕ
  pub ptr_fixups : ℕ
  pub ptr_fixup_misses : ℕ
  pub ptr_fixup_failures : ℕ
  pub nested_ptr_fixups : ℕ
  pub invalid_ptrs : ℕ
  pub restore_buffer_highest_capacity : ℕ
  pub restore_buffer_grow_count : ℕ
  pub restore_record_count : ℕ
  pub restore_record_failed_count : ℕ
  pub restore_applied_count : ℕ

-- The state: the records are the first g_record_count of g_records, in order. `external` is
-- in_external_vmcall().
pub record Fixups : Type 0 where
  pub words : ℕ → ℕ
  pub depth : ℕ
  pub records : List Restoration
  pub capacity : ℕ
  pub external : Bool
  pub counters : FixupCounters

-- The code below: vremap_resolve, sysrealloc and the stack of Dune.
pub record Below : Type 0 where
  pub resolve : ℕ → Option (ℤ × Option ℕ)
  pub grow : ℕ → Bool
  pub stack_base : ℕ
  pub gpa_stack_size : ℕ
