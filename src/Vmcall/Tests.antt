-- ===== src/Vmcall/Tests.antt =====
-- execve with an array of one remapped pointer, and the hooks around it.
use dangless_malloc.Prelude.{
  fault, none, ok, ℕ, ◌+◌, ◌*◌, ◌^◌, ◌≤◌, ◌≡◌, refl, sym, ap, subst, ◌∙◌, inl, inr, true, false,
  some, List, [], ◌∷◌, ◌==◌, if◌then◌else◌, arith, Bool-cases, ==→eq, pos, After, length, ◌>>◌,
}
use dangless_malloc.Vmcall.{Fixups, FixupCounters, Below}
use dangless_malloc.Vmcall.Info.{FixupInfo, no_fixup, ptr_ptr, get_fixup_info}
use dangless_malloc.Vmcall.Fixup.{resolved, fixup_ptr}
use dangless_malloc.Vmcall.Restore.{restore_on_return}
use dangless_malloc.VirtMem.{pt_map_region, get_page_offset, flag_isset, pt_walk, pt_resolve}
use dangless_malloc.Page.{num_spanned_pages}
use dangless_malloc.FreeList.{freelist_alloc}
use dangless_malloc.Dune.{pt_paddr2vaddr, pp_zalloc}
use dangless_malloc.VirtMem.Tests.{small_dune, small_dune-IsLayout}
use dangless_malloc.VirtualRemap.{vremap_map, evrem_no_phys_back, vremap_resolve}
use dangless_malloc.VirtualRemap.Tests.{small_ptr, remapped, small_alias, one_alias}
use dangless_malloc.VirtualRemap.Revocation.{Session-IsSound}
use dangless_malloc.Vmcall.Remapped.{below_of, vremap_resolve-Resolves}
use dangless_malloc.Vmcall.Records.{Settled, IsBelow}
use dangless_malloc.Vmcall.Nested.{IsTerminated}
use dangless_malloc.Vmcall.Hooks.{Vmcalls, prehook, posthook}
use dangless_malloc.Vmcall.Canonical.{Presented, Resolves, fixup_ptr-Presented}
use dangless_malloc.Vmcall.Roundtrip.{Returned, posthook-prehook}

-- One alias, 0x400010 of 0x10000.
abbrev pub one_alias_below : Below
one_alias_below = record {
  resolve = λ p. if p == 0x400010 then some (pos 0, some 0x10000) else some (pos 1, some p);
  grow = λ n. true;
  stack_base = 2 ^ 40;
  gpa_stack_size = 0x10000;
}

Settled-other : (p : ℕ) → (p == 0x400010) ≡ false → Settled one_alias_below p
unfolding resolved
Settled-other p other r q found e =
    let plain : r ≡ (pos 1, some p) = cc (simp other at found) in
    absurd (ground (arith, sym (ap resolved plain) ∙ e))

one_alias_below-IsBelow : IsBelow one_alias_below
unfolding resolved
one_alias_below-IsBelow = record {
  total = λ p h. elim (Bool-cases (p == 0x400010)) [
    | inl alias ↦ absurd (ground (arith, simp alias at h))
    | inr other ↦ absurd (ground (arith, simp other at h))
  ];
  settles = λ p q r found e. elim (Bool-cases (p == 0x400010)) [
    | inl alias ↦
        let plain : r ≡ (pos 0, some 0x10000) = cc (simp alias at found) in
        let number : q ≡ 0x10000 = cc (sym (ap resolved plain) ∙ e) in
        subst (λ x. Settled one_alias_below x) (sym number) (Settled-other 0x10000 refl)
    | inr other ↦ absurd (Settled-other p other r q found e)
  ];
  roomy = λ n. refl;
}

-- The arguments are at 0x20000, the array at 0x30000.
abbrev small_words : ℕ → ℕ
small_words a = if a == 0x20000 then 0x30000 else if a == 0x30000 then 0x400010 else 0

small_words-IsTerminated : IsTerminated small_words 1
small_words-IsTerminated p = elim (Bool-cases (p == 0x20000)) [
  | inl argument ↦ (1, omega arith, rw (==→eq p 0x20000 argument) refl)
  | inr other ↦ elim (Bool-cases (p == 0x30000)) [
    | inl array ↦ (1, omega arith, rw (==→eq p 0x30000 array) refl)
    | inr empty ↦
        let here : p + 8 * 0 ≡ p = omega arith in (0, omega arith, rw (here, other, empty) refl)
  ]
]

abbrev no_counters : FixupCounters
no_counters = record {
  arg_needed_fixups = 0;
  ptr_fixups = 0;
  ptr_fixup_misses = 0;
  ptr_fixup_failures = 0;
  nested_ptr_fixups = 0;
  invalid_ptrs = 0;
  restore_buffer_highest_capacity = 32;
  restore_buffer_grow_count = 1;
  restore_record_count = 0;
  restore_record_failed_count = 0;
  restore_applied_count = 0;
}

abbrev pub small_call : Vmcalls
small_call = record {
  fixups = record {
    words = small_words;
    depth = 0;
    records = [];
    capacity = 32;
    external = true;
    counters = no_counters;
  };
  vmcall_hook_depth = 0;
  current_syscallno = 0;
  current_syscall_args = λ i. 0;
  current_syscall_return_addr = 0;
  vmcall_count = 0;
  internal_mmap_total = 0;
  external_mmap_total = 0;
  brk_total = 0;
  last_brk = 0;
  errno = 0;
}

abbrev small_table : List FixupInfo
small_table = (ptr_ptr ∷ no_fixup ∷ []) ∷ []

small_table_few : (info : FixupInfo) → get_fixup_info small_table 0 ≡ some info → length info ≤ 6
unfolding get_fixup_info
small_table_few info h =
    let same : ptr_ptr ∷ no_fixup ∷ [] ≡ info = cc h in subst (λ i. length i ≤ 6) same (omega arith)

posthook-prehook_example :
    After
      (λ told v'. Returned small_call 0 0x20000 7 told v')
      ((prehook one_alias_below 1 small_table 0 0x20000 0x1234 >> posthook 7) small_call)
posthook-prehook_example =
    posthook-prehook one_alias_below-IsBelow 1 small_table 0 0x20000 0x1234 7 small_call refl refl
      refl (omega arith) small_words-IsTerminated small_table_few

-- The fixups over the tables of an allocation that has been remapped: the item of the array is its alias.
abbrev remapped_below : Below
remapped_below = below_of small_dune remapped (λ n. true) (2 ^ 40) 0x10000

small_ptr_run :
    vremap_resolve small_dune small_ptr remapped
    ≡ ok (evrem_no_phys_back, none) (record remapped { last_result = evrem_no_phys_back })
unfolding vremap_resolve pt_resolve pt_walk get_page_offset flag_isset pt_paddr2vaddr vremap_map
    num_spanned_pages freelist_alloc pt_map_region pp_zalloc
small_ptr_run = refl

small_alias-Resolves : Resolves remapped_below 0x400010
unfolding resolved
small_alias-Resolves =
    let sound = Session-IsSound small_dune-IsLayout one_alias in
    vremap_resolve-Resolves small_dune-IsLayout remapped (λ n. true) (2 ^ 40) 0x10000 small_alias
      (evrem_no_phys_back, none) (record remapped { last_result = evrem_no_phys_back })
      evrem_no_phys_back sound sound.hold.0
      (record { above = omega arith; below = omega arith; moved = refl })
      (λ e. absurd (omega (arith, e))) small_ptr_run refl

-- In the fixups of the array, where a record is made.
abbrev nested_fixups : Fixups
nested_fixups = record small_call.fixups { depth = 2 }

fixup_ptr-Presented_example :
    After
      (λ _ s'. Presented remapped_below 0x30000 nested_fixups s')
      (fixup_ptr remapped_below 0x30000 nested_fixups)
fixup_ptr-Presented_example =
    fixup_ptr-Presented (λ n. refl) 0x30000 nested_fixups small_alias-Resolves
      (record { some_capacity = omega arith; inside = omega arith })

-- Twice the capacity of an empty buffer is none: the record is stored behind it.
test_empty_buffer :
    restore_on_return one_alias_below 0x30000 0x400010 (record small_call.fixups { capacity = 0 })
    ≡ fault
unfolding restore_on_return
test_empty_buffer = refl
