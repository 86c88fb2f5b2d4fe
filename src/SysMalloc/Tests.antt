-- ===== src/SysMalloc/Tests.antt =====
-- A library whose dlsym calls calloc once.
use dangless_malloc.Prelude.{
  ℕ, ◌+◌, ◌^◌, ◌≡◌, false, refl, arith, inr, true, none, [], ◌∷◌, pos, ok,
}
use dangless_malloc.SysMalloc.Libc.{Libc, SysState, sysmemalign, dune_sysmalloc}
use dangless_malloc.SysMalloc.Refines.{IsLibc, Refines, dune_sysmalloc-Refines}

abbrev small_libc : Libc ℕ
small_libc = record {
  libc_malloc = λ size h. ok h (h + size);
  libc_calloc = λ num size h. ok h (h + size);
  libc_realloc = λ p size h. ok h (h + size);
  libc_memalign = λ align size h. ok h (h + size);
  libc_free = λ p h. ok tt h;
  libc_usable_size = λ h p. 32;
  found = λ name. true;
  dlsym_callocs = (1, 32) ∷ [];
  s_storage = 0x1000;
  storage_size = 32;
}

small_libc-IsLibc : IsLibc small_libc
small_libc-IsLibc = record { found = λ name. refl; calls = inr (1, 32, refl, omega arith) }

abbrev looked_up_state : SysState ℕ
looked_up_state = record {
  library = 0;
  populated = true;
  populating = false;
  storage_used = true;
  sysmalloc_count = 0;
  syscalloc_count = 1;
  sysrealloc_count = 0;
  sysfree_count = 0;
}

dune_sysmalloc-Refines_example : Refines small_libc (dune_sysmalloc small_libc)
dune_sysmalloc-Refines_example = dune_sysmalloc-Refines small_libc small_libc-IsLibc

-- A block at 4 GB and 16 bytes, asked for as the place 0x7000 and the alignment 64.
test_memalign :
    sysmemalign
      (record small_libc { libc_memalign = λ align size h. ok (2 ^ 32 + 16) (h + align + size) })
      0x7000
      64
      128
      looked_up_state
    ≡ ok (pos 16, none) (record looked_up_state { library = 0x7040 })
unfolding sysmemalign
test_memalign = refl
