-- ===== src/Vmcall/Roundtrip.antt =====
-- The hooks around a system call leave the program's memory as it was.
use dangless_malloc.Prelude.{
  ◌<◌, ℕ, ◌+◌, ◌*◌, ◌≤◌, ◌≡◌, refl, sym, ap, subst, subst₂, ◌∙◌, inl, true, ◌&&◌, some, List, [],
  ltb, ◌==◌, if◌then◌else◌, arith, returns, After, after_bind, length, ◌>>◌,
}
use dangless_malloc.Vmcall.{Below}
use dangless_malloc.Vmcall.Info.{FixupInfo, get_fixup_info}
use dangless_malloc.Vmcall.Restore.{restore_originals}
use dangless_malloc.Vmcall.Fixup.{fixup_args}
use dangless_malloc.Vmcall.Records.{IsBelow, undo_words, HasBuffer}
use dangless_malloc.Vmcall.Undo.{Outside, Undoable}
use dangless_malloc.Vmcall.Nested.{IsTerminated, fixup_args-Kept}
use dangless_malloc.Vmcall.Hooks.{
  Vmcalls, update_stats, vmcall_enter, vmcall_leave, note_syscall, prehook, posthook,
}
use dangless_malloc.Vmcall.Steps.{
  restore_originals-Left, SameCall, on_fixups-After, should_trace_current-After, SameCall-trans,
  update_stats-Same, brk_hotfix-After,
}

-- What the prehook leaves for the posthook.
pub record Prepared (below : Below) (v : Vmcalls) (syscallno args : ℕ) (v' : Vmcalls) : Type 0 where
  pub undoable : Undoable below v.fixups.words args 0 v'.fixups
  pub depth : v'.vmcall_hook_depth ≡ 0
  pub number : v'.current_syscallno ≡ syscallno
  pub first : v'.current_syscall_args 0 ≡ v.fixups.words args

module _ {below : Below} (lawful : IsBelow below) (fuel : ℕ) (table : List FixupInfo)
    (syscallno args retaddr : ℕ) (v : Vmcalls) (idle : v.vmcall_hook_depth ≡ 0)
    (outside : v.fixups.depth ≡ 0) (no_records : v.fixups.records ≡ [])
    (some_capacity : 0 < v.fixups.capacity) (ends : IsTerminated v.fixups.words fuel)
    (few : (info : FixupInfo) → get_fixup_info table syscallno ≡ some info → length info ≤ 6) where
  at_start : Undoable below v.fixups.words args 0 v.fixups
  at_start = record {
    depth = outside;
    undo = λ a out. ap (λ rs. undo_words rs v.fixups.words a) no_records;
    kept = λ a out. inl refl;
    zeros = λ a null. null;
    buffer = record { some_capacity = some_capacity; inside = rw no_records (omega arith) };
  }

  -- The state with the system call noted.
  abbrev noted : Vmcalls
  noted = record v {
    vmcall_hook_depth = 1;
    current_syscallno = syscallno;
    current_syscall_args = λ i. v.fixups.words (args + 8 * i);
    current_syscall_return_addr = retaddr;
  }

  leave-Prepared :
      (t : Vmcalls)
      → Undoable below v.fixups.words args 0 t.fixups
      → SameCall noted t
      → After (λ _ v'. Prepared below v syscallno args v') (vmcall_leave t)
  unfolding vmcall_leave
  leave-Prepared t u c = returns (record {
    undoable = u;
    depth = omega (arith, c.depth);
    number = c.number;
    first = ap (λ f. f 0) c.arguments ∙ ap v.fixups.words (omega arith);
  })

  -- The prehook ends, and leaves what the posthook needs.
  pub prehook-Prepared :
      After
        (λ _ v'. Prepared below v syscallno args v')
        (prehook below fuel table syscallno args retaddr v)
  unfolding prehook vmcall_enter note_syscall
  prehook-Prepared =
      let entered : (v.vmcall_hook_depth == 0) ≡ true = ground (arith, idle) in
      let s = update_stats-Same noted in
      rw entered (
        after_bind _ (should_trace_current-After (update_stats noted) s.call.depth) (λ _ t e.
          let c = subst (λ x. SameCall noted x) (sym e) s.call in
          let u =
            subst (λ f. Undoable below v.fixups.words args 0 f)
              (sym (ap (λ x. x.fixups) e ∙ s.fixups)) at_start in
          after_bind _
            (on_fixups-After (fixup_args below fuel table syscallno args) t
              (fixup_args-Kept lawful v.fixups.words args fuel table syscallno ends few u))
            (λ _ t' h.
              let c' = SameCall-trans c h.1 in
              after_bind _ (should_trace_current-After t' c'.depth) (λ _ t'' e'.
                subst (λ x. After (λ _ v'. Prepared below v syscallno args v') (vmcall_leave x))
                  (sym e') (leave-Prepared t' h.0 c')))))

-- What the program finds after a system call that was `syscallno` and returned `result`.
pub record Returned (v : Vmcalls) (syscallno args result told : ℕ) (v' : Vmcalls) : Type 0 where
  pub memory : (a : ℕ) → Outside args a → v'.fixups.words a ≡ v.fixups.words a
  pub records : v'.fixups.records ≡ []
  pub buffer : 0 < v'.fixups.capacity
  pub depth : v'.fixups.depth ≡ 0
  pub hook_depth : v'.vmcall_hook_depth ≡ 0
  pub answer :
      told ≡ (if syscallno == 12 && ltb 0x100000000 (v.fixups.words args) then 0 else result)

posthook-Returned :
    {below : Below} {v v' : Vmcalls} (syscallno args result : ℕ)
    → Prepared below v syscallno args v'
    → After (λ told t. Returned v syscallno args result told t) (posthook result v')
unfolding posthook vmcall_enter vmcall_leave
posthook-Returned {v = v} {v'} syscallno args result p =
    let entered : (v'.vmcall_hook_depth == 0) ≡ true = ground (arith, p.depth) in
    let inside : Vmcalls = record v' { vmcall_hook_depth = 1 } in
    rw entered (
      after_bind _ (should_trace_current-After inside refl) (λ _ t e.
        after_bind _ (brk_hotfix-After result t) (λ told t' h.
          let fixups = h.0.fixups ∙ ap (λ x. x.fixups) e in
          after_bind _
            (on_fixups-After restore_originals t' (
              restore_originals-Left t'.fixups
                (subst (λ f. HasBuffer f) (sym fixups) p.undoable.buffer)))
            (λ _ t'' l. returns (record {
              memory = λ a out.
                  ap (λ m. m a) l.0.words
                  ∙ ap (λ f. undo_words f.records f.words a) fixups
                  ∙ p.undoable.undo a out;
              records = l.0.records;
              buffer = l.0.buffer.some_capacity;
              depth = l.0.depth ∙ ap (λ f. f.depth) fixups ∙ p.undoable.depth;
              hook_depth =
                  omega (arith, l.1.depth, h.0.call.depth, ap (λ x. x.vmcall_hook_depth) e);
              answer =
                  h.1
                  ∙ subst₂
                      (λ n a.
                        (if t.current_syscallno == 12 && ltb 0x100000000 (t.current_syscall_args 0)
                          then 0
                          else result)
                        ≡ (if n == 12 && ltb 0x100000000 a then 0 else result))
                      (ap (λ x. x.current_syscallno) e ∙ p.number)
                      (ap (λ x. x.current_syscall_args 0) e ∙ p.first) refl;
            })))))

module _ {below : Below} (lawful : IsBelow below) (fuel : ℕ) (table : List FixupInfo)
    (syscallno args retaddr result : ℕ) (v : Vmcalls) (idle : v.vmcall_hook_depth ≡ 0)
    (outside : v.fixups.depth ≡ 0) (no_records : v.fixups.records ≡ [])
    (some_capacity : 0 < v.fixups.capacity) (ends : IsTerminated v.fixups.words fuel)
    (few : (info : FixupInfo) → get_fixup_info table syscallno ≡ some info → length info ≤ 6) where
  -- Where vremap_resolve returns and gives canonical pointers that are no aliases themselves,
  -- where the buffer of records can grow, where each array of pointers in memory ends within
  -- the fuel, and for a system call of at most six parameters, from a state outside both
  -- hooks, without records and with a buffer of at least one record: the prehook and then the
  -- posthook return, every word of memory but the six arguments is what it was, no record has
  -- been stored behind the buffer, none is left, the buffer still has a capacity, both depths
  -- are 0 again, and the program is told 0 for a brk() above 4 GB and the result of the system
  -- call otherwise.
  pub posthook-prehook :
      After
        (λ told v'. Returned v syscallno args result told v')
        ((prehook below fuel table syscallno args retaddr >> posthook result) v)
  posthook-prehook =
      after_bind _
        (prehook-Prepared lawful fuel table syscallno args retaddr v idle outside no_records
          some_capacity ends few)
        (λ _ t p. posthook-Returned syscallno args result p)
