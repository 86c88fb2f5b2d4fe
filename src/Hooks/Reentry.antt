-- ===== src/Hooks/Reentry.antt =====
-- The hooks while another one runs, or outside kernel mode: the system allocator alone.
use dangless_malloc.Prelude.{
  ℕ, ◌<◌, ◌≡◌, ◌≢◌, refl, inl, inr, ◌⊎◌, true, false, ltb, arith, ne→==, ok, pure, ◌>>=◌,
  Bool-cases, Run-cases,
}
use dangless_malloc.Dune.{Dune}
use dangless_malloc.VirtualRemap.{in_kernel_mode}
use dangless_malloc.SysMalloc.{SysMalloc}
use dangless_malloc.Hooks.{
  SpanMemory, Dangless, HookName, in_malloc, in_calloc, in_posix_memalign, in_free, in_realloc,
  on_heap, is_hook_running, hook_enter, is_zero, out_or, malloc, calloc, posix_memalign, free,
}
use dangless_malloc.Hooks.Realloc.{realloc}

-- A call in a hook, or of a program that is not in kernel mode.
abbrev pub Bypasses : {H : Type 0} → Dangless H → Type 0
Bypasses d = (0 < d.hook_depth) ⊎ (in_kernel_mode d.process ≡ false)

module _ {H : Type 0} where
  hook_enter-Bypasses :
      (name : HookName) (d : Dangless H) → Bypasses d → hook_enter name d ≡ ok false d
  unfolding hook_enter is_hook_running
  hook_enter-Bypasses name d (inl nested) =
      let running : ltb 0 d.hook_depth ≡ true = ground arith in rw running refl
  hook_enter-Bypasses name d (inr user) = elim (Bool-cases (ltb 0 d.hook_depth)) [
    | inl running ↦ rw running refl
    | inr idle ↦ rw (idle, user) refl
  ]

-- Each hook is the function of the system allocator.
pub record IsTransparent {H : Type 0} (dune : Dune) (sys : SysMalloc H) (spans : SpanMemory H)
    (d : Dangless H) : Type 0 where
  pub malloc_same : (size : ℕ) → malloc dune sys spans size d ≡ on_heap (sys.sysmalloc size) d
  pub calloc_same :
      (num size : ℕ) → calloc dune sys spans num size d ≡ on_heap (sys.syscalloc num size) d
  pub realloc_same :
      (p size : ℕ) → realloc dune sys spans p size d ≡ on_heap (sys.sysrealloc p size) d
  pub free_same : (p : ℕ) → p ≢ 0 → free dune sys p d ≡ on_heap (sys.sysfree p) d
  pub posix_memalign_same :
      (old align size : ℕ)
      → posix_memalign dune sys spans old align size d
        ≡ (on_heap (sys.sysmemalign old align size) >>= λ r. pure (r.0, out_or old r.1)) d

module _ (dune : Dune) {H : Type 0} (sys : SysMalloc H) (spans : SpanMemory H) (d : Dangless H)
    (bypasses : Bypasses d) where
  malloc-Bypasses : (size : ℕ) → malloc dune sys spans size d ≡ on_heap (sys.sysmalloc size) d
  unfolding malloc on_heap
  malloc-Bypasses size = elim (Run-cases (sys.sysmalloc size d.heap)) [
    | inl stops ↦ rw (stops, on_heap, malloc) refl
    | inr (a, h, returned) ↦
        rw (returned, on_heap, malloc)
          (rw (hook_enter-Bypasses in_malloc (record d { heap = h }) bypasses) refl)
  ]

  calloc-Bypasses :
      (num size : ℕ) → calloc dune sys spans num size d ≡ on_heap (sys.syscalloc num size) d
  unfolding calloc on_heap
  calloc-Bypasses num size = elim (Run-cases (sys.syscalloc num size d.heap)) [
    | inl stops ↦ rw (stops, on_heap, calloc) refl
    | inr (a, h, returned) ↦
        rw (returned, on_heap, calloc)
          (rw (hook_enter-Bypasses in_calloc (record d { heap = h }) bypasses) refl)
  ]

  posix_memalign-Bypasses :
      (old align size : ℕ)
      → posix_memalign dune sys spans old align size d
        ≡ (on_heap (sys.sysmemalign old align size) >>= λ r. pure (r.0, out_or old r.1)) d
  unfolding posix_memalign on_heap
  posix_memalign-Bypasses old align size =
      elim (Run-cases (sys.sysmemalign old align size d.heap)) [
        | inl stops ↦ rw (stops, on_heap, posix_memalign) refl
        | inr ((code, out), h, returned) ↦ elim (Bool-cases (is_zero code)) [
          | inr failed ↦ rw (returned, on_heap, posix_memalign) (rw failed refl)
          | inl succeeded ↦
              rw (returned, on_heap, posix_memalign)
                (rw
                  (
                    succeeded,
                    hook_enter-Bypasses in_posix_memalign (record d { heap = h }) bypasses,
                  )
                  refl)
        ]
      ]

  -- While another hook runs, or outside kernel mode, dangless_malloc, dangless_calloc,
  -- dangless_realloc, dangless_posix_memalign and, for a pointer other than NULL,
  -- dangless_free do exactly what the function of the system allocator does, and nothing else
  -- in the state changes.
  pub hooks-IsTransparent : IsTransparent dune sys spans d
  unfolding malloc calloc realloc free
  hooks-IsTransparent = record {
    malloc_same = malloc-Bypasses;
    calloc_same = calloc-Bypasses;
    realloc_same = λ p size. rw (hook_enter-Bypasses in_realloc d bypasses) refl;
    free_same = λ p some_p. rw (ne→== _ _ some_p, hook_enter-Bypasses in_free d bypasses) refl;
    posix_memalign_same = posix_memalign-Bypasses;
  }
