-- ===== src/Hooks/Plain.antt =====
-- dangless_free and dangless_realloc of a pointer that was not remapped: the block itself, which
-- the hooks return where no alias could be made.
use dangless_malloc.Prelude.{
  ℕ, ◌+◌, ◌-◌, ◌≡◌, ◌≢◌, refl, true, false, none, List, ok, ltb, arith, ne→==, After,
}
use dangless_malloc.Dune.{Dune}
use dangless_malloc.VirtMem.Tree.{IsLayout}
use dangless_malloc.VirtualRemap.{vrem_not_remapped}
use dangless_malloc.VirtualRemap.Alias.{IsBacked}
use dangless_malloc.VirtualRemap.Session.{Alias, Session, resolved}
use dangless_malloc.VirtualRemap.Revocation.{Session-IsSound}
use dangless_malloc.SysMalloc.{SysMalloc}
use dangless_malloc.Hooks.{
  SpanMemory, Dangless, on_process, on_heap, count, is_hook_running, hook_enter, hook_exit, is_zero,
  free_alias, free, hook_return,
}
use dangless_malloc.Hooks.Realloc.{realloc_plain, realloc_body, realloc}
use dangless_malloc.Hooks.Malloc.{Handed, hook_return-Handed}
use dangless_malloc.Hooks.Resolve.{IsPlain, vremap_resolve-IsPlain}

module _ {dune : Dune} (lay : IsLayout dune) {H : Type 0} (sys : SysMalloc H) (d : Dangless H)
    {live dead : List Alias} (session : Session dune d.process live dead)
    (outside : d.hook_depth ≡ 0) (p : ℕ) (plain : IsPlain dune d.process p) where
  resolved_session : Session dune (record d.process { last_result = vrem_not_remapped }) live dead
  resolved_session =
      resolved p session
        (vremap_resolve-IsPlain dune d.process p (Session-IsSound lay session).ready.kernel plain)

  pub free-IsPlain :
      (h' : H)
      → sys.sysfree p d.heap ≡ ok tt h'
      → (d' : Dangless H) × (free dune sys p d ≡ ok tt d')
        × Session dune d'.process live dead
        × (d'.heap ≡ h')
        × (d'.hook_depth ≡ 0)
        × (d'.auto_dedicate_happened ≡ d.auto_dedicate_happened)
  unfolding free hook_enter is_hook_running on_process free_alias is_zero on_heap hook_exit count
  free-IsPlain h' freed =
      let not_running : ltb 0 d.hook_depth ≡ false = ground (arith, outside) in
      let running : ltb 0 (d.hook_depth + 1) ≡ true = ground arith in
      (
        record {
          process = record d.process { last_result = vrem_not_remapped };
          heap = h';
          auto_dedicate_happened = d.auto_dedicate_happened;
          hook_depth = d.hook_depth + 1 - 1;
          hook_funcname = none;
          counters = record d.counters { num_deallocations = d.counters.num_deallocations + 1 };
        },
        rw (ne→== _ _ plain.not_null, not_running, (Session-IsSound lay session).ready.kernel)
            (rw
              (
                vremap_resolve-IsPlain dune d.process p (Session-IsSound lay session).ready.kernel
                    plain,
                on_process,
                free,
              )
              (rw (freed, on_heap) (rw running refl))),
        resolved_session,
        refl,
        omega (arith, outside),
        refl,
      )

  -- The new block is handed out as that of a malloc.
  pub realloc-IsPlain :
      (spans : SpanMemory H)
      → spans.has_room 512 ≡ true
      → d.auto_dedicate_happened ≡ true
      → (new_size newp : ℕ) (h' : H) → new_size ≢ 0
      → newp ≢ 0
      → sys.sysrealloc p new_size d.heap ≡ ok newp h'
      → IsBacked dune newp (sys.sysmalloc_usable_size h' newp)
      → After
          (λ out d'.
            Handed dune spans
              (record d.process { last_result = vrem_not_remapped })
              live
              dead
              newp
              (sys.sysmalloc_usable_size h' newp)
              h'
              out
              d')
          (realloc dune sys spans p new_size d)
  unfolding realloc hook_enter is_hook_running realloc_body on_process is_zero realloc_plain on_heap
      count hook_return
  realloc-IsPlain spans some_room happened new_size newp h' some_size not_null reallocated backed =
      let not_running : ltb 0 d.hook_depth ≡ false = ground (arith, outside) in
      rw (not_running, (Session-IsSound lay session).ready.kernel)
        (rw (ne→== _ _ plain.not_null) (
          rw
            (
              vremap_resolve-IsPlain dune d.process p (Session-IsSound lay session).ready.kernel
                  plain,
              on_process,
              realloc,
            )
            (rw (reallocated, on_heap, realloc)
              (hook_return-Handed lay sys spans some_room live dead newp new_size not_null some_size
                _ resolved_session backed happened (omega (arith, outside))))))

-- realloc(NULL, size)
pub realloc-null :
    {dune : Dune} (lay : IsLayout dune) {H : Type 0} (sys : SysMalloc H) (d : Dangless H)
    {live dead : List Alias}
    → Session dune d.process live dead
    → d.hook_depth ≡ 0
    → (spans : SpanMemory H) → spans.has_room 512 ≡ true
    → d.auto_dedicate_happened ≡ true
    → (new_size newp : ℕ) (h' : H) → new_size ≢ 0
    → newp ≢ 0
    → sys.sysrealloc 0 new_size d.heap ≡ ok newp h'
    → IsBacked dune newp (sys.sysmalloc_usable_size h' newp)
    → After
        (λ out d'.
          Handed dune spans d.process live dead newp (sys.sysmalloc_usable_size h' newp) h' out d')
        (realloc dune sys spans 0 new_size d)
unfolding realloc hook_enter is_hook_running realloc_body realloc_plain on_heap count hook_return
realloc-null lay sys d {live} {dead} session outside spans some_room happened new_size newp h'
      some_size not_null reallocated backed =
    let not_running : ltb 0 d.hook_depth ≡ false = ground (arith, outside) in
    rw (not_running, (Session-IsSound lay session).ready.kernel)
      (rw (reallocated, on_heap, realloc)
        (hook_return-Handed lay sys spans some_room live dead newp new_size not_null some_size _
          session backed happened (omega (arith, outside))))
