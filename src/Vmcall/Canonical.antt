-- ===== src/Vmcall/Canonical.antt =====
-- After fixup_ptr the host kernel sees no alias.
use dangless_malloc.Prelude.{
  ℕ, ◌<◌, ◌≡◌, ◌≢◌, refl, sym, ap, subst, ◌∙◌, ◌⊎◌, inl, inr, true, some, ltb, arith, Bool-cases,
  Option, ne→==, eq→==, ltb→lt, ℤ, After, returns, after_bind, after_map,
}
use dangless_malloc.Page.{pgsize}
use dangless_malloc.Vmcall.{Fixups, Below}
use dangless_malloc.Vmcall.Restore.{store}
use dangless_malloc.Vmcall.Fixup.{
  Resolved, canonical, unchanged, resolved, is_trivially_not_remapped, replace_ptr, fixup_resolved,
  fixup_ptr,
}
use dangless_malloc.Vmcall.Records.{
  Settled, HasBuffer, same_buffer, stored, tally_external-Left, restore_on_return-Left,
}

-- The host kernel may be given the pointer: it is too small for one, on the stack, or no alias.
abbrev pub IsPresentable : Below → ℕ → Type 0
IsPresentable below p =
    (p < pgsize) ⊎ ((is_trivially_not_remapped below p ≡ true) ⊎ Settled below p)

-- What fixup_ptr leaves.
pub record Presented (below : Below) (pptr : ℕ) (s s' : Fixups) : Type 0 where
  pub pointer : IsPresentable below (s'.words pptr)
  pub others : (a : ℕ) → a ≢ pptr → s'.words a ≡ s.words a
  pub depth : s'.depth ≡ s.depth

-- vremap_resolve returns for the pointer, and the pointer that it gives for an alias is none itself.
pub record Resolves (below : Below) (p : ℕ) : Type 0 where
  pub outcome : ℤ × Option ℕ
  pub returned : below.resolve p ≡ some outcome
  pub settles : (q : ℕ) → resolved outcome ≡ canonical q → Settled below q

module _ {below : Below} (roomy : (n : ℕ) → below.grow n ≡ true) (p : ℕ) (s : Fixups)
    (resolves : Resolves below (s.words p)) (buffer : HasBuffer s) where
  replace_ptr-words :
      (q : ℕ)
      → After
          (λ _ s'. (s'.words ≡ stored p q s.words) × (s'.depth ≡ s.depth))
          (replace_ptr below p (s.words p) q s)
  unfolding replace_ptr store
  replace_ptr-words q =
      after_bind _
        (tally_external-Left _ (record s { words = stored p q s.words })
          (same_buffer _ buffer refl refl))
        (λ _ s' l. elim (Bool-cases (ltb 1 s'.depth)) [
          | inl nested ↦ rw nested (
              after_bind _
                (after_bind _ (restore_on_return-Left below roomy p (s.words p) s' l.buffer)
                  (λ _ s'' l'.
                    after_map (tally_external-Left _ s'' l'.buffer) (λ _ t l''.
                      (l''.words ∙ l'.words ∙ l.words, l''.depth ∙ l'.depth ∙ l.depth))))
                (λ _ t h. returns h))
          | inr top ↦ rw top (returns (l.words, l.depth))
        ])

  -- A pointer that vremap_resolve does not replace is none to be replaced.
  Settled-unchanged :
      (r : ℤ × Option ℕ) (code : ℤ)
      → below.resolve (s.words p) ≡ some r
      → resolved r ≡ unchanged code
      → Settled below (s.words p)
  Settled-unchanged r code found e r' q found' e' =
      let same : r ≡ r' = cc (sym found ∙ found') in
      absurd (ground (arith, sym e ∙ ap resolved same ∙ e'))

  fixup_resolved-Presented :
      (o : Resolved)
      → resolved resolves.outcome ≡ o
      → After (λ _ s'. Presented below p s s') (fixup_resolved below p (s.words p) o s)
  unfolding fixup_resolved
  fixup_resolved-Presented (canonical q) e = after_map (replace_ptr-words q) (λ _ s' h. record {
    pointer =
        subst (λ x. IsPresentable below x) (sym (ap (λ m. m p) h.0 ∙ rw (eq→== p p refl) refl))
          (inr (inr (resolves.settles q e)));
    others = λ a ne. ap (λ m. m a) h.0 ∙ rw (ne→== a p ne) refl;
    depth = h.1;
  })
  fixup_resolved-Presented (unchanged code) e =
      after_bind _ (tally_external-Left _ s buffer) (λ _ s' l. returns (record {
        pointer =
            subst (λ x. IsPresentable below x) (sym (ap (λ m. m p) l.words))
              (inr (inr (Settled-unchanged resolves.outcome code resolves.returned e)));
        others = λ a ne. ap (λ m. m a) l.words;
        depth = l.depth;
      }))

  -- Where vremap_resolve returns for the pointer that is at a place, and, if it is an alias,
  -- gives a pointer that is none itself, where the buffer of records can grow, and where it is
  -- not empty and holds the records: fixup_ptr of the place returns, without a store behind
  -- the buffer, and the word there is then below PGSIZE, on the stack or not an alias; no
  -- other word of memory has changed, nor the depth.
  pub fixup_ptr-Presented : After (λ _ s'. Presented below p s s') (fixup_ptr below p s)
  unfolding fixup_ptr
  fixup_ptr-Presented = elim (Bool-cases (ltb (s.words p) pgsize)) [
    | inl small ↦
        rw small (
          returns
            (record { pointer = inl (ltb→lt _ _ small); others = λ a ne. refl; depth = refl }))
    | inr large ↦ elim (Bool-cases (is_trivially_not_remapped below (s.words p))) [
      | inl stack ↦
          rw (large, stack)
            (returns (record { pointer = inr (inl stack); others = λ a ne. refl; depth = refl }))
      | inr other ↦
          rw (large, other, resolves.returned, fixup_ptr)
            (fixup_resolved-Presented (resolved resolves.outcome) refl)
    ]
  ]
