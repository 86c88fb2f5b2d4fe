-- ===== src/SysMalloc.antt =====
-- The system allocator as the hooks use it, sources/include/dangless/platform/sysmalloc.h. It is
-- an interface: sources/src/platform/dune/sysmalloc.c provides it over the C library.
pub mod Libc
pub mod Refines
pub mod Tests
use dangless_malloc.Prelude.{ℕ, Option, ℤ, Cmd}
use dangless_malloc.Page.{num_spanned_pages}

-- `H` is the state of the allocator. `sysmemalign` returns its code and what it stored in `*pp`.
pub record SysMalloc (H : Type 0) : Type 0 where
  pub sysmalloc : ℕ → Cmd H ℕ
  pub syscalloc : ℕ → ℕ → Cmd H ℕ
  pub sysrealloc : ℕ → ℕ → Cmd H ℕ
  pub sysmemalign : ℕ → ℕ → ℕ → Cmd H (ℤ × Option ℕ)
  pub sysfree : ℕ → Cmd H (Unit {0})
  pub sysmalloc_usable_size : H → ℕ → ℕ

-- `sysmalloc_spanned_pages`
unfoldable pub sysmalloc_spanned_pages : {H : Type 0} → SysMalloc H → H → ℕ → ℕ
sysmalloc_spanned_pages sys h p = num_spanned_pages p (sys.sysmalloc_usable_size h p)
