-- ===== src/Vmcall/Nested.antt =====
-- Every fixup of vmcall_fixup.c ends, and can be undone.
use dangless_malloc.Prelude.{
  ℕ, zero, suc, ◌+◌, ◌*◌, ◌<◌, ◌≤◌, ◌≡◌, ◌≢◌, refl, sym, ap, subst, ◌∙◌, ◌⊎◌, inl, inr, Bool, true,
  false, not, ◌||◌, some, List, [], ◌∷◌, ltb, ◌==◌, arith, Bool-cases, Option-cases, eq→==, ℤ, pos,
  Cmd, returns, After, after_bind, after_if, length,
}
use dangless_malloc.Page.{pgsize}
use dangless_malloc.Vmcall.{Fixups, Below}
use dangless_malloc.Vmcall.Info.{
  ParamFixup, no_fixup, flat_ptr, iovec, ptr_ptr, msghdr, FixupInfo, get_fixup_info,
}
use dangless_malloc.Vmcall.Fixup.{
  fail_if, start_result, fixup_enter, fixup_leave, fixup_scope, fixup_items, fixup_ptr_ptr_nullterm,
  fixup_iovecs, fixup_iovec_array, fixup_fields, fixup_msghdr, fixup_arg, uses_next, needs_fixup,
  fixup_params, fixup_args,
}
use dangless_malloc.Vmcall.Records.{IsBelow, tally_external-Left, same_buffer}
use dangless_malloc.Vmcall.Undo.{Outside, Undoable, Undoable-Left, Kept, fixup_ptr-Kept}

-- The array of pointers at any address ends with a null pointer after at most `fuel` items.
abbrev pub IsTerminated : (ℕ → ℕ) → ℕ → Type 0
IsTerminated w fuel = (p : ℕ) → (k : ℕ) × (k ≤ fuel) × (w (p + 8 * k) ≡ 0)

needed : (used needs small : Bool) → (used || not needs || small) ≡ false → needs ≡ true
needed used needs small h = ground (arith, h)

module _ {below : Below} (lawful : IsBelow below) (w : ℕ → ℕ) (args : ℕ) where
  -- What a fixup at depth `d` leaves.
  abbrev pub KeptAt : {A : Type 0} → ℕ → A → Fixups → Type 0
  KeptAt d = Kept lawful w args d

  enter-Kept :
      (d : ℕ) (s : Fixups)
      → Undoable below w args d s
      → Undoable below w args (d + 1) (record s { depth = s.depth + 1 })
  enter-Kept d s u = record {
    depth = ap (λ x. x + 1) u.depth;
    undo = u.undo;
    kept = u.kept;
    zeros = u.zeros;
    buffer = same_buffer _ u.buffer refl refl;
  }

  fixup_leave-Kept :
      (d : ℕ) (s : Fixups) → Undoable below w args (d + 1) s → After (KeptAt d) (fixup_leave s)
  unfolding fixup_leave
  fixup_leave-Kept d s u =
      let running : ltb 0 s.depth ≡ true = ground (arith, u.depth) in
      rw running (
        returns (record {
          depth = omega (arith, u.depth);
          undo = u.undo;
          kept = u.kept;
          zeros = u.zeros;
          buffer = same_buffer _ u.buffer refl refl;
        }))

  fixup_scope-Kept :
      (d : ℕ) {s : Fixups} (block : Cmd Fixups ℤ)
      → Undoable below w args d s
      → ((t : Fixups) → Undoable below w args (d + 1) t → After (KeptAt (d + 1)) (block t))
      → After (KeptAt d) (fixup_scope block s)
  unfolding fixup_scope fixup_enter
  fixup_scope-Kept d {s} block u inside =
      after_bind _ (inside _ (enter-Kept d s u))
        (λ r t u'. after_bind _ (fixup_leave-Kept d t u') (λ _ t' u''. returns u''))

  fixup_items-Kept :
      (fuel ptrs i : ℕ) (result : ℤ) (d : ℕ) {s : Fixups}
      → 1 < d
      → (k : ℕ) × (i ≤ k) × (k ≤ i + fuel) × (w (ptrs + 8 * k) ≡ 0)
      → Undoable below w args d s
      → After (KeptAt d) (fixup_items below fuel ptrs i result s)
  unfolding fixup_items
  fixup_items-Kept zero ptrs i result d {s} nested (k, low, high, null) u =
      let last : k ≡ i = omega arith in
      let stop = u.zeros (ptrs + 8 * i) (subst (λ x. w (ptrs + 8 * x) ≡ 0) last null) in
      rw (eq→== _ _ stop) (returns u)
  fixup_items-Kept (suc fuel) ptrs i result d {s} nested (k, low, high, null) u =
      elim (Bool-cases (s.words (ptrs + 8 * i) == 0)) [
        | inl stop ↦ rw (stop, fixup_items) (returns u)
        | inr more ↦
            let further : i ≢ k = λ e. absurd (
              ground (arith, more, u.zeros (ptrs + 8 * i) (ap (λ x. w (ptrs + 8 * x)) e ∙ null))) in
            rw (more, fixup_items)
              (after_bind _ (fixup_ptr-Kept lawful w args d (ptrs + 8 * i) u (inl nested))
                (λ r t u'.
                  fixup_items-Kept fuel ptrs (i + 1) (fail_if r result) d nested
                    (k, omega arith, omega arith, null) u'))
      ]

  fixup_iovecs-Kept :
      (left i piovecs : ℕ) (result : ℤ) (d : ℕ) {s : Fixups}
      → 1 < d
      → Undoable below w args d s
      → After (KeptAt d) (fixup_iovecs below left i piovecs result s)
  unfolding fixup_iovecs
  fixup_iovecs-Kept zero i piovecs result d nested u = returns u
  fixup_iovecs-Kept (suc left) i piovecs result d {s} nested u =
      after_bind _ (fixup_ptr-Kept lawful w args d (s.words piovecs + 16 * i) u (inl nested))
        (λ r t u'. fixup_iovecs-Kept left (i + 1) piovecs (fail_if r result) d nested u')

  fixup_ptr_ptr_nullterm-Kept :
      (fuel p d : ℕ) {s : Fixups}
      → 0 < d
      → IsTerminated w fuel
      → Undoable below w args d s
      → (1 < d) ⊎ (¬ Outside args p)
      → After (KeptAt d) (fixup_ptr_ptr_nullterm below fuel p s)
  unfolding fixup_ptr_ptr_nullterm
  fixup_ptr_ptr_nullterm-Kept fuel p d deep ends u place =
      after_bind _ (fixup_ptr-Kept lawful w args d p u place) (λ r t u'.
        let (k, few, null) = ends (t.words p) in
        after_if _ _ (not r.1) (returns u') (
          fixup_scope-Kept d _ u' (λ t' u''.
            fixup_items-Kept fuel (t.words p) 0 (start_result r) (d + 1) (omega arith)
              (k, omega arith, omega arith, null) u'')))

  fixup_iovec_array-Kept :
      (p num_iovecs d : ℕ) {s : Fixups}
      → 0 < d
      → Undoable below w args d s
      → (1 < d) ⊎ (¬ Outside args p)
      → After (KeptAt d) (fixup_iovec_array below p num_iovecs s)
  unfolding fixup_iovec_array
  fixup_iovec_array-Kept p num_iovecs d deep u place =
      after_bind _ (fixup_ptr-Kept lawful w args d p u place) (λ r t u'.
        after_if _ _ (not r.1) (returns u') (
          fixup_scope-Kept d _ u' (λ t' u''.
            fixup_iovecs-Kept num_iovecs 0 p (start_result r) (d + 1) (omega arith) u'')))

  fixup_fields-Kept :
      (hdr : ℕ) (result : ℤ) (d : ℕ) {s : Fixups}
      → 1 < d
      → Undoable below w args d s
      → After (KeptAt d) (fixup_fields below hdr result s)
  unfolding fixup_fields
  fixup_fields-Kept hdr result d nested u =
      after_bind _ (fixup_ptr-Kept lawful w args d hdr u (inl nested)) (λ r t u'.
        after_bind _
          (fixup_iovec_array-Kept (hdr + 16) (t.words (hdr + 24)) d (omega arith) u' (inl nested))
          (λ r' t' u''.
            after_bind _ (fixup_ptr-Kept lawful w args d (hdr + 32) u'' (inl nested))
              (λ r'' t'' v. returns v)))

  fixup_msghdr-Kept :
      (p d : ℕ) {s : Fixups}
      → 0 < d
      → Undoable below w args d s
      → (1 < d) ⊎ (¬ Outside args p)
      → After (KeptAt d) (fixup_msghdr below p s)
  unfolding fixup_msghdr
  fixup_msghdr-Kept p d deep u place =
      after_bind _ (fixup_ptr-Kept lawful w args d p u place) (λ r t u'.
        after_if _ _ (not r.1) (returns u') (
          fixup_scope-Kept d _ u'
            (λ t' u''. fixup_fields-Kept (t.words p) (start_result r) (d + 1) (omega arith) u'')))

  fixup_arg-Kept :
      (fuel : ℕ) (t : ParamFixup) (p : ℕ) {s : Fixups}
      → IsTerminated w fuel
      → needs_fixup t ≡ true
      → Undoable below w args 1 s
      → ¬ Outside args p
      → After (KeptAt 1) (fixup_arg below fuel t p s)
  unfolding fixup_arg needs_fixup
  fixup_arg-Kept fuel no_fixup p ends needs u place = absurd (ground (arith, needs))
  fixup_arg-Kept fuel flat_ptr p ends needs u place =
      after_bind _ (fixup_ptr-Kept lawful w args 1 p u (inr place)) (λ r t u'. returns u')
  fixup_arg-Kept fuel iovec p {s} ends needs u place =
      fixup_iovec_array-Kept p (s.words (p + 8)) 1 (omega arith) u (inr place)
  fixup_arg-Kept fuel ptr_ptr p ends needs u place =
      fixup_ptr_ptr_nullterm-Kept fuel p 1 (omega arith) ends u (inr place)
  fixup_arg-Kept fuel msghdr p ends needs u place =
      fixup_msghdr-Kept p 1 (omega arith) u (inr place)

  fixup_params-Kept :
      (fuel : ℕ) (ts : FixupInfo) (i : ℕ) (used : Bool) (final : ℤ) {s : Fixups}
      → IsTerminated w fuel
      → i + length ts ≤ 6
      → Undoable below w args 0 s
      → After (KeptAt 0) (fixup_params below fuel ts (args + 8 * i) used final s)
  unfolding fixup_params
  fixup_params-Kept fuel [] i used final ends few u = returns u
  fixup_params-Kept fuel (t ∷ ts) i used final {s} ends few u =
      let next : args + 8 * i + 8 ≡ args + 8 * (i + 1) = omega arith in
      let inside : ¬ Outside args (args + 8 * i) = λ out. out i (omega arith) refl in
      elim (Bool-cases (used || not (needs_fixup t) || ltb (s.words (args + 8 * i)) pgsize)) [
        | inl skip ↦
            rw (skip, next, fixup_params)
              (fixup_params-Kept fuel ts (i + 1) false final ends (omega arith) u)
        | inr some_ptr ↦
            let needs = needed used (needs_fixup t) _ some_ptr in
            rw (some_ptr, next, fixup_params)
              (after_bind _ (tally_external-Left _ s u.buffer) (λ _ t' l.
                after_bind _
                  (fixup_scope-Kept 0 _ (Undoable-Left lawful w args 0 u l)
                    (λ t'' u'. fixup_arg-Kept fuel t (args + 8 * i) ends needs u' inside))
                  (λ result t'' u'.
                    fixup_params-Kept fuel ts (i + 1) (uses_next t) _ ends (omega arith) u')))
      ]

  -- The fixups of a system call whose table entry has at most six parameters.
  pub fixup_args-Kept :
      (fuel : ℕ) (table : List FixupInfo) (syscallno : ℕ) {s : Fixups}
      → IsTerminated w fuel
      → ((info : FixupInfo) → get_fixup_info table syscallno ≡ some info → length info ≤ 6)
      → Undoable below w args 0 s
      → After (KeptAt 0) (fixup_args below fuel table syscallno args s)
  unfolding fixup_args
  fixup_args-Kept fuel table syscallno {s} ends few u =
      elim (Option-cases (get_fixup_info table syscallno)) [
        | inl unknown ↦ rw (unknown, fixup_args) (returns u)
        | inr (info, known) ↦
            let first : args ≡ args + 8 * 0 = omega arith in
            rw (known, fixup_args)
              (subst (λ p. After (KeptAt 0) (fixup_params below fuel info p false (pos 0) s))
                (sym first)
                (fixup_params-Kept fuel info 0 false (pos 0) ends (omega (arith, few info known))
                  u))
      ]
