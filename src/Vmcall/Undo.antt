-- ===== src/Vmcall/Undo.antt =====
-- Fixing up a pointer can be undone: with the records, memory is what it was.
use dangless_malloc.Prelude.{
  ℕ, ◌+◌, ◌*◌, ◌<◌, ◌≡◌, ◌≢◌, refl, sym, ap, subst, ◌∙◌, ◌⊎◌, inl, inr, false, Option, some, [],
  ◌∷◌, ◌++◌, ltb, ◌==◌, arith, Bool-cases, Option-cases, ==→eq, ℤ, ap₂, returns, After, after_bind,
  after_map,
}
use dangless_malloc.Page.{pgsize}
use dangless_malloc.Vmcall.{Fixups, Below}
use dangless_malloc.Vmcall.Restore.{store}
use dangless_malloc.Vmcall.Fixup.{
  Resolved, canonical, unchanged, resolved, replace_ptr, fixup_resolved, fixup_ptr,
  is_trivially_not_remapped,
}
use dangless_malloc.Vmcall.Records.{
  Settled, IsBelow, undo_words, undo_words_eq, undo_words_append, stored, stored_cases, Left,
  tally_external-Left, Left-trans, restore_on_return-Left, Left-append, HasBuffer, same_buffer,
}

-- The address is not one of the six arguments.
abbrev pub Outside : ℕ → ℕ → Type 0
Outside args a = (i : ℕ) → i < 6 → a ≢ args + 8 * i

-- At depth `d` of fixups that began with the memory `w`: outside the arguments, the records undo
-- them, and every changed pointer is no alias any more; a zero word is still zero.
pub record Undoable (below : Below) (w : ℕ → ℕ) (args d : ℕ) (s : Fixups) : Type 0 where
  pub depth : s.depth ≡ d
  pub undo : (a : ℕ) → Outside args a → undo_words s.records s.words a ≡ w a
  pub kept : (a : ℕ) → Outside args a → (s.words a ≡ w a) ⊎ Settled below (s.words a)
  pub zeros : (a : ℕ) → w a ≡ 0 → s.words a ≡ 0
  pub buffer : HasBuffer s

module _ {below : Below} (lawful : IsBelow below) (w : ℕ → ℕ) (args d : ℕ) where
  -- A pointer at `p` of which a record is made, or which is an argument, may be replaced.
  module _ {s : Fixups} (u : Undoable below w args d s) (p q : ℕ) (r : ℤ × Option ℕ)
      (found : below.resolve (s.words p) ≡ some r) (alias : resolved r ≡ canonical q)
      (some_ptr : s.words p ≢ 0) where
    was_first : Outside args p → s.words p ≡ w p
    was_first out = elim (u.kept p out) [
      | inl same ↦ same
      | inr settled ↦ absurd (settled r q found alias)
    ]

    replaced_kept :
        (a : ℕ)
        → Outside args a
        → (stored p q s.words a ≡ w a) ⊎ Settled below (stored p q s.words a)
    replaced_kept a out = elim (stored_cases p q s.words a) [
      | inl (same, e) ↦
          inr (subst (λ x. Settled below x) (sym e) (lawful.settles (s.words p) q r found alias))
      | inr (differ, e) ↦ elim (u.kept a out) [
        | inl first ↦ inl (e ∙ first)
        | inr settled ↦ inr (subst (λ x. Settled below x) (sym e) settled)
      ]
    ]

    replaced_zeros : (a : ℕ) → w a ≡ 0 → stored p q s.words a ≡ 0
    replaced_zeros a null = elim (stored_cases p q s.words a) [
      | inl (same, e) ↦ absurd (some_ptr (ap s.words (sym same) ∙ u.zeros a null))
      | inr (differ, e) ↦ e ∙ u.zeros a null
    ]

    recorded_undo :
        (a : ℕ)
        → Outside args a
        → undo_words
            (s.records ++ record { location = p; value = s.words p } ∷ [])
            (stored p q s.words)
            a
          ≡ w a
    recorded_undo a out =
        undo_words_append s.records p (s.words p) (stored p q s.words) a
        ∙ (elim (Bool-cases (a == p)) [
          | inl same ↦
              let here : a ≡ p = ==→eq a p same in
              rw same (was_first (subst (λ x. Outside args x) here out) ∙ ap w (sym here))
          | inr differ ↦ rw differ (
              undo_words_eq s.records (stored p q s.words) s.words a (rw differ refl)
              ∙ u.undo a out)
        ])

    argument_undo :
        ¬ Outside args p
        → (a : ℕ) → Outside args a
        → undo_words s.records (stored p q s.words) a ≡ w a
    argument_undo inside a out = elim (stored_cases p q s.words a) [
      | inl (same, e) ↦ absurd (inside (subst (λ x. Outside args x) same out))
      | inr (differ, e) ↦ undo_words_eq s.records _ _ a e ∙ u.undo a out
    ]

  -- What a fixup leaves.
  abbrev pub Kept : {A : Type 0} → A → Fixups → Type 0
  Kept r s = Undoable below w args d s

  pub Undoable-Left :
      {s s' : Fixups}
      → Undoable below w args d s
      → Left s.words s.depth s.records s'
      → Undoable below w args d s'
  Undoable-Left u l = record {
    depth = l.depth ∙ u.depth;
    undo = λ a out. ap₂ (λ rs m. undo_words rs m a) l.records l.words ∙ u.undo a out;
    kept = λ a out. subst (λ m. (m a ≡ w a) ⊎ Settled below (m a)) (sym l.words) (u.kept a out);
    zeros = λ a null. ap (λ m. m a) l.words ∙ u.zeros a null;
    buffer = l.buffer;
  }

  module _ {s : Fixups} (u : Undoable below w args d s) (p q : ℕ) (r : ℤ × Option ℕ)
      (found : below.resolve (s.words p) ≡ some r) (alias : resolved r ≡ canonical q)
      (some_ptr : s.words p ≢ 0) where
    -- The two ends of replace_ptr.
    Undoable-recorded :
        {s' : Fixups}
        → Left
            (stored p q s.words)
            s.depth
            (s.records ++ record { location = p; value = s.words p } ∷ [])
            s'
        → Undoable below w args d s'
    Undoable-recorded l = record {
      depth = l.depth ∙ u.depth;
      undo = λ a out.
          ap₂ (λ rs m. undo_words rs m a) l.records l.words
          ∙ recorded_undo u p q r found alias some_ptr a out;
      kept = λ a out.
          subst (λ m. (m a ≡ w a) ⊎ Settled below (m a)) (sym l.words)
            (replaced_kept u p q r found alias some_ptr a out);
      zeros = λ a null. ap (λ m. m a) l.words ∙ replaced_zeros u p q r found alias some_ptr a null;
      buffer = l.buffer;
    }

    Undoable-argument :
        {s' : Fixups}
        → ¬ Outside args p
        → Left (stored p q s.words) s.depth s.records s'
        → Undoable below w args d s'
    Undoable-argument inside l = record {
      depth = l.depth ∙ u.depth;
      undo = λ a out.
          ap₂ (λ rs m. undo_words rs m a) l.records l.words
          ∙ argument_undo u p q r found alias some_ptr inside a out;
      kept = λ a out.
          subst (λ m. (m a ≡ w a) ⊎ Settled below (m a)) (sym l.words)
            (replaced_kept u p q r found alias some_ptr a out);
      zeros = λ a null. ap (λ m. m a) l.words ∙ replaced_zeros u p q r found alias some_ptr a null;
      buffer = l.buffer;
    }

    replace_ptr-Kept :
        (1 < d) ⊎ (¬ Outside args p) → After Kept (replace_ptr below p (s.words p) q s)
    unfolding replace_ptr store
    replace_ptr-Kept place =
        after_bind _
          (tally_external-Left _ (record s { words = stored p q s.words })
            (same_buffer _ u.buffer refl refl))
          (λ _ s' l. elim (Bool-cases (ltb 1 s'.depth)) [
            | inl nested ↦ rw nested (
                after_bind _
                  (after_bind _
                    (restore_on_return-Left below lawful.roomy p (s.words p) s' l.buffer)
                    (λ _ s'' l'.
                      after_map (tally_external-Left _ s'' l'.buffer)
                        (λ _ t l''. Undoable-recorded (Left-trans (Left-append _ l l') l''))))
                  (λ _ t u'. returns u'))
            | inr top ↦ rw top (
                returns (elim place [
                  | inl nested ↦ absurd (ground (arith, l.depth, u.depth, top))
                  | inr inside ↦ Undoable-argument inside l
                ]))
          ])

  some_pointer : (p : ℕ) → ltb p pgsize ≡ false → p ≢ 0
  some_pointer p h e = absurd (ground arith)

  fixup_resolved-Kept :
      {s : Fixups} (p : ℕ) (r : ℤ × Option ℕ)
      → Undoable below w args d s
      → below.resolve (s.words p) ≡ some r
      → s.words p ≢ 0
      → (1 < d) ⊎ (¬ Outside args p)
      → (o : Resolved) → resolved r ≡ o
      → After Kept (fixup_resolved below p (s.words p) o s)
  unfolding fixup_resolved
  fixup_resolved-Kept p r u found ne place (canonical q) e =
      replace_ptr-Kept u p q r found e ne place
  fixup_resolved-Kept {s} p r u found ne place (unchanged code) e =
      after_bind _ (tally_external-Left _ s u.buffer) (λ _ s' l. returns (Undoable-Left u l))

  -- A nested pointer, or an argument, may be fixed up.
  pub fixup_ptr-Kept :
      {s : Fixups} (p : ℕ)
      → Undoable below w args d s
      → (1 < d) ⊎ (¬ Outside args p)
      → After Kept (fixup_ptr below p s)
  unfolding fixup_ptr
  fixup_ptr-Kept {s} p u place = elim (Bool-cases (ltb (s.words p) pgsize)) [
    | inl small ↦ rw small (returns u)
    | inr large ↦ elim (Bool-cases (is_trivially_not_remapped below (s.words p))) [
      | inl stack ↦ rw (large, stack) (returns u)
      | inr other ↦ elim (Option-cases (below.resolve (s.words p))) [
        | inl stop ↦ absurd (lawful.total (s.words p) stop)
        | inr (r, found) ↦
            rw (large, other, found, fixup_ptr)
              (fixup_resolved-Kept p r u found (some_pointer _ large) place (resolved r) refl)
      ]
    ]
  ]
