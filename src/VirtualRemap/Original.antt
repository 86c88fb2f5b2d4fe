-- ===== src/VirtualRemap/Original.antt =====
-- vremap_resolve: from an alias back to the pointer that was remapped.
use dangless_malloc.Prelude.{
  ℕ, ◌+◌, ◌-◌, ◌≤◌, ◌<◌, ◌≡◌, ◌≢◌, refl, sym, ap, subst, subst₂, ◌∙◌, arith, true, Option, some,
  ◌==◌, Bool-cases, Option-cases, inl, inr, Run, ok, ℤ, ne→==,
}
use dangless_malloc.Dune.{Dune, pt_paddr2vaddr, table_vaddr, mmap_pa_base}
use dangless_malloc.VirtMem.{pt_resolve}
use dangless_malloc.VirtMem.Tree.{IsLayout, Sites}
use dangless_malloc.VirtualRemap.{
  Process, in_kernel_mode, vrem_ok, vrem_not_remapped, evrem_no_phys_back, return_code,
  resolve_original, vremap_map, vremap_resolve,
}
use dangless_malloc.VirtualRemap.Ready.{IsReady}
use dangless_malloc.VirtualRemap.Alias.{
  IsBacked, Remapped, alias, no_vm, virt_map, vremap_map-Remapped,
}

-- An address that mmap() gave out: dune_va_to_pa moves it to the region below the stack.
pub record IsMmap (dune : Dune) (p : ℕ) : Type 0 where
  pub above : dune.mmap_base ≤ p
  pub below : p < dune.mmap_base + dune.gpa_map_size
  pub moved : dune.va_to_pa p ≡ p - dune.mmap_base + mmap_pa_base dune

-- vremap_resolve changes no more than vremap_last_result.
resolve_original-same :
    (dune : Dune) (p pa : ℕ) (s : Process) {s' : Process} {r : ℤ × Option ℕ}
    → resolve_original dune p pa s ≡ ok r s'
    → (code : ℤ) × (s' ≡ record s { last_result = code })
unfolding resolve_original return_code
resolve_original-same dune p pa s run = elim (Bool-cases (pa == 0)) [
  | inl null ↦ (evrem_no_phys_back, cc (simp null at run))
  | inr some_pa ↦ elim (Bool-cases (dune.va_to_pa p == pa)) [
    | inl plain ↦ (vrem_not_remapped, cc (simp (some_pa, plain) at run))
    | inr other ↦ elim (Option-cases (pt_paddr2vaddr dune pa)) [
      | inl failed ↦ absurd (ground (arith, simp (some_pa, other, failed) at run))
      | inr (q, found) ↦ (vrem_ok, cc (simp (some_pa, other, found) at run))
    ]
  ]
]

pub vremap_resolve-same :
    (dune : Dune) (p : ℕ) (s : Process) {s' : Process} {r : ℤ × Option ℕ}
    → vremap_resolve dune p s ≡ ok r s'
    → (code : ℤ) × (s' ≡ record s { last_result = code })
unfolding vremap_resolve
vremap_resolve-same dune p s run = elim (Bool-cases (in_kernel_mode s)) [
  | inr user ↦ absurd (ground (arith, simp user at run))
  | inl kernel ↦ elim (Option-cases (pt_resolve dune s.machine p)) [
    | inl failed ↦ absurd (ground (arith, simp (kernel, failed) at run))
    | inr (pa, found) ↦ resolve_original-same dune p pa s (simp (kernel, found) at run)
  ]
]

module _ {dune : Dune} (lay : IsLayout dune) where
  -- pt_paddr2vaddr reverses dune_va_to_pa there.
  pt_paddr2vaddr-IsMmap : (p : ℕ) → IsMmap dune p → pt_paddr2vaddr dune (dune.va_to_pa p) ≡ some p
  unfolding pt_paddr2vaddr table_vaddr
  pt_paddr2vaddr-IsMmap p h = ground (
    arith, h.above, h.below, h.moved, lay.room, lay.stack_pa, lay.mmap_pa, lay.limit, lay.above,
    lay.mmap_fits,
  )

  resolve_original-IsMmap :
      (s : Process) (p q : ℕ)
      → dune.va_to_pa q ≢ 0
      → dune.va_to_pa p ≢ dune.va_to_pa q
      → IsMmap dune q
      → resolve_original dune p (dune.va_to_pa q) s
        ≡ ok (vrem_ok, some q) (record s { last_result = vrem_ok })
  unfolding resolve_original return_code
  resolve_original-IsMmap s p q ne other h =
      rw (ne→== _ _ ne, ne→== _ _ other) (rw (pt_paddr2vaddr-IsMmap q h, resolve_original) refl)

  pub vremap_resolve-IsMmap :
      (s : Process) (p q : ℕ)
      → in_kernel_mode s ≡ true
      → pt_resolve dune s.machine p ≡ some (dune.va_to_pa q)
      → dune.va_to_pa q ≢ 0
      → dune.va_to_pa p ≢ dune.va_to_pa q
      → IsMmap dune q
      → vremap_resolve dune p s ≡ ok (vrem_ok, some q) (record s { last_result = vrem_ok })
  unfolding vremap_resolve
  vremap_resolve-IsMmap s p q kernel walked ne other h =
      rw (kernel, walked, vremap_resolve) (resolve_original-IsMmap s p q ne other h)

-- What the run of vremap_map leaves, where it returned an alias.
alias-Remapped :
    {dune : Dune} {site : Sites} {s s' : Process} {ptr size out : ℕ}
    {r : Run Process (ℤ × Option ℕ)}
    → Remapped dune site s ptr size r
    → r ≡ ok (vrem_ok, some out) s'
    → (in_kernel_mode s' ≡ true)
      × ((i : ℕ) → i < size → pt_resolve dune s'.machine (out + i) ≡ some (dune.va_to_pa ptr + i))
alias-Remapped {dune} {s' = s'} {ptr} {size} {out}
      (alias {s' = t} out' ready offset at fits mapped owned others before) e =
    let same : out' ≡ out = cc e in
    let state : t ≡ s' = cc e in
    (
      subst (λ u. in_kernel_mode u ≡ true) state ready.kernel,
      subst₂
          (λ o u.
            (i : ℕ) → i < size → pt_resolve dune u.machine (o + i) ≡ some (dune.va_to_pa ptr + i))
          same state at,
    )
alias-Remapped (no_vm short ready same items) e = absurd (ground (arith, e))
alias-Remapped (virt_map call null first last ready same items) e = absurd (ground (arith, e))

module _ {dune : Dune} (lay : IsLayout dune) {site : Sites} {s : Process}
    (ready : IsReady dune site s) (ptr size : ℕ) (backed : IsBacked dune ptr size) where
  -- Under the conditions of vremap_map, if it returned VREM_OK and out, then for each i < size
  -- for which ptr + i is an mmap() address that dune_va_to_pa moves linearly, and out + i is
  -- not one with the same physical address, vremap_resolve of out + i returns VREM_OK and ptr
  -- + i and changes only vremap_last_result.
  pub vremap_resolve-vremap_map :
      (out i : ℕ) (s' : Process)
      → vremap_map dune true ptr size s ≡ ok (vrem_ok, some out) s'
      → i < size
      → IsMmap dune (ptr + i)
      → dune.va_to_pa (ptr + i) ≡ dune.va_to_pa ptr + i
      → dune.va_to_pa (out + i) ≢ dune.va_to_pa (ptr + i)
      → vremap_resolve dune (out + i) s'
        ≡ ok (vrem_ok, some (ptr + i)) (record s' { last_result = vrem_ok })
  vremap_resolve-vremap_map out i s' run h mmap linear remapped =
      let (kernel, at) = alias-Remapped (vremap_map-Remapped lay ready ptr size backed) run in
      vremap_resolve-IsMmap lay s' (out + i) (ptr + i) kernel
        (at i h ∙ ap (λ x. some x) (sym linear)) (λ e. absurd (omega (arith, backed.above)))
        remapped mmap
