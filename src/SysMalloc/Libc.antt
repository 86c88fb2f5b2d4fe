-- ===== src/SysMalloc/Libc.antt =====
-- The system allocator over the C library's, sources/src/platform/dune/sysmalloc.c: the functions of
-- the library are looked up upon the first call. Logging is left out.
use dangless_malloc.Prelude.{
  ℕ, ◌+◌, ◌-◌, ◌%◌, ◌^◌, pos, negsuc, ltb, none, Bool, true, false, not, Option, List, [], ◌∷◌, leb,
  if◌then◌else◌, mul64, ℤ, ok, fault, Cmd, pure, assert, get, ◌>>=◌, ◌>>◌,
}
use dangless_malloc.SysMalloc.{SysMalloc}

-- The names that `HANDLE_SYM` is used with.
pub data Symbol : Type 0 where
  sym_malloc : Symbol
  sym_calloc : Symbol
  sym_realloc : Symbol
  sym_memalign : Symbol
  sym_free : Symbol

-- The code below: the C library's functions of these names, which of them dlsym finds, and the calls of
-- calloc, as the arguments, that the first dlsym makes; and the buffer for these. `memalign` takes the
-- alignment and the size, and returns the block.
pub record Libc (C : Type 0) : Type 0 where
  pub libc_malloc : ℕ → Cmd C ℕ
  pub libc_calloc : ℕ → ℕ → Cmd C ℕ
  pub libc_realloc : ℕ → ℕ → Cmd C ℕ
  pub libc_memalign : ℕ → ℕ → Cmd C ℕ
  pub libc_free : ℕ → Cmd C (Unit {0})
  pub libc_usable_size : C → ℕ → ℕ
  pub found : Symbol → Bool
  pub dlsym_callocs : List (ℕ × ℕ)
  pub s_storage : ℕ
  pub storage_size : ℕ

-- The state: that of the library, and of this file. All addresses are set together.
pub record SysState (C : Type 0) : Type 0 where
  pub library : C
  pub populated : Bool
  pub populating : Bool
  pub storage_used : Bool
  pub sysmalloc_count : ℕ
  pub syscalloc_count : ℕ
  pub sysrealloc_count : ℕ
  pub sysfree_count : ℕ

-- The low 32 bits of a register as an int.
abbrev pub int_of : ℕ → ℤ
int_of r = if ltb (r % 2 ^ 32) (2 ^ 31) then pos (r % 2 ^ 32) else negsuc (2 ^ 32 - 1 - r % 2 ^ 32)

module _ {C : Type 0} (libc : Libc C) where
  -- `syscalloc_special`
  unfoldable pub syscalloc_special : ℕ → ℕ → Cmd (SysState C) ℕ
  syscalloc_special num size = do
    s ← get
    assert (not s.storage_used)
    λ s'. ok tt (record s' { storage_used = true })
    assert (leb (mul64 num size) libc.storage_size)
    pure libc.s_storage

  -- The calls that dlsym makes: `syscalloc` without an address while they are being looked up.
  unfoldable pub dlsym_calls : List (ℕ × ℕ) → Cmd (SysState C) (Unit {0})
  unfolding syscalloc_special
  dlsym_calls [] = pure tt
  dlsym_calls ((num, size) ∷ rest) = do
    λ s. ok tt (record s { syscalloc_count = s.syscalloc_count + 1 })
    syscalloc_special num size
    dlsym_calls rest

  -- `populate_addrs`
  unfoldable pub populate_addrs : Cmd (SysState C) (Unit {0})
  unfolding dlsym_calls
  populate_addrs = do
    s ← get
    assert (not s.populating)
    λ s'. ok tt (record s' { populating = true })
    dlsym_calls libc.dlsym_callocs
    assert (libc.found sym_malloc)
    assert (libc.found sym_calloc)
    assert (libc.found sym_realloc)
    assert (libc.found sym_memalign)
    assert (libc.found sym_free)
    λ s'. ok tt (record s' { populated = true; populating = false })

  -- `if (!addr_f) populate_addrs();`
  unfoldable pub ensure_populated : Cmd (SysState C) (Unit {0})
  unfolding populate_addrs
  ensure_populated = do s ← get; (if s.populated then pure tt else populate_addrs)

  -- A call of the library.
  unfoldable pub on_library : {A : Type 0} → Cmd C A → Cmd (SysState C) A
  on_library c s = elim (c s.library) [ ok a h ↦ ok a (record s { library = h }) | fault ↦ fault ]

  -- `sysmalloc`
  unfoldable pub sysmalloc : ℕ → Cmd (SysState C) ℕ
  unfolding ensure_populated on_library
  sysmalloc sz = do
    λ s. ok tt (record s { sysmalloc_count = s.sysmalloc_count + 1 })
    ensure_populated
    on_library (libc.libc_malloc sz)

  -- `syscalloc`
  unfoldable pub syscalloc : ℕ → ℕ → Cmd (SysState C) ℕ
  unfolding syscalloc_special populate_addrs on_library
  syscalloc num size = do
    λ s. ok tt (record s { syscalloc_count = s.syscalloc_count + 1 })
    s ← get
    (if s.populated
        then on_library (libc.libc_calloc num size)
        else if s.populating
        then syscalloc_special num size
        else (do populate_addrs; on_library (libc.libc_calloc num size)))

  -- `sysrealloc`
  unfoldable pub sysrealloc : ℕ → ℕ → Cmd (SysState C) ℕ
  unfolding ensure_populated on_library
  sysrealloc p sz = do
    λ s. ok tt (record s { sysrealloc_count = s.sysrealloc_count + 1 })
    ensure_populated
    on_library (libc.libc_realloc p sz)

  -- `sysmemalign`: the address is that of memalign, called as if it were posix_memalign. It takes the
  -- first two arguments, and its result is read as an int.
  unfoldable pub sysmemalign : ℕ → ℕ → ℕ → Cmd (SysState C) (ℤ × Option ℕ)
  unfolding ensure_populated on_library
  sysmemalign pp align sz = do
    ensure_populated
    p ← on_library (libc.libc_memalign pp align)
    pure (int_of p, none)

  -- `sysfree`
  unfoldable pub sysfree : ℕ → Cmd (SysState C) (Unit {0})
  unfolding ensure_populated on_library
  sysfree p = do
    λ s. ok tt (record s { sysfree_count = s.sysfree_count + 1 })
    ensure_populated
    on_library (libc.libc_free p)

  -- The system allocator of Dune.
  abbrev pub dune_sysmalloc : SysMalloc (SysState C)
  dune_sysmalloc = record {
    sysmalloc = sysmalloc;
    syscalloc = syscalloc;
    sysrealloc = sysrealloc;
    sysmemalign = sysmemalign;
    sysfree = sysfree;
    sysmalloc_usable_size = λ s p. libc.libc_usable_size s.library p;
  }
