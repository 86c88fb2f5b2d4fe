-- ===== src/Vmcall/Remapped.antt =====
-- vremap_resolve as the fixups of system calls use it: of an alias that is in use.
use dangless_malloc.Prelude.{
  ℕ, ◌≡◌, ◌≢◌, sym, ap, ◌∙◌, Bool, Option, none, some, List, ℤ, Run, ok, fault, arith, subst,
}
use dangless_malloc.Dune.{Dune}
use dangless_malloc.VirtMem.Tree.{IsLayout}
use dangless_malloc.VirtualRemap.{Process, vrem_ok, vremap_resolve}
use dangless_malloc.VirtualRemap.Original.{IsMmap}
use dangless_malloc.VirtualRemap.Session.{Alias, Holds}
use dangless_malloc.VirtualRemap.Revocation.{IsSound}
use dangless_malloc.Hooks.Resolve.{vremap_resolve-Holds}
use dangless_malloc.Vmcall.{Below}
use dangless_malloc.Vmcall.Fixup.{unchanged, resolved}
use dangless_malloc.Vmcall.Records.{Settled}
use dangless_malloc.Vmcall.Canonical.{Resolves}

-- The result of a run, none if it stops.
abbrev pub result_of : {S A : Type 0} → Run S A → Option A
result_of (ok a s) = some a
result_of fault = none

-- The code below the fixups, with vremap_resolve of sources/src/platform/dune/virtual_remap.c.
abbrev pub below_of : Dune → Process → (ℕ → Bool) → ℕ → ℕ → Below
below_of dune s grow stack_base gpa_stack_size = record {
  resolve = λ p. result_of (vremap_resolve dune p s);
  grow = grow;
  stack_base = stack_base;
  gpa_stack_size = gpa_stack_size;
}

module _ {dune : Dune} (lay : IsLayout dune) (s : Process) (grow : ℕ → Bool)
    (stack_base gpa_stack_size : ℕ) where
  -- A pointer that vremap_resolve does not replace.
  Settled-vremap_resolve :
      (p : ℕ) (r : ℤ × Option ℕ) (s' : Process) (code : ℤ)
      → vremap_resolve dune p s ≡ ok r s'
      → resolved r ≡ unchanged code
      → Settled (below_of dune s grow stack_base gpa_stack_size) p
  Settled-vremap_resolve p r s' code run e r' q found e' =
      let same : r ≡ r' = cc (sym (ap result_of run) ∙ found) in
      absurd (ground (arith, sym e ∙ ap resolved same ∙ e'))

  -- The pointer of an alias is replaced by that of its block, which is replaced no more.
  pub vremap_resolve-Resolves :
      {live dead : List Alias} (x : Alias) (r : ℤ × Option ℕ) (s' : Process) (code : ℤ)
      → IsSound dune s live dead
      → Holds dune s x
      → IsMmap dune x.ptr
      → dune.va_to_pa x.out ≢ dune.va_to_pa x.ptr
      → vremap_resolve dune x.ptr s ≡ ok r s'
      → resolved r ≡ unchanged code
      → Resolves (below_of dune s grow stack_base gpa_stack_size) x.out
  unfolding resolved
  vremap_resolve-Resolves x r s' code so held mmap remapped run e = record {
    outcome = (vrem_ok, some x.ptr);
    returned = ap result_of (vremap_resolve-Holds lay x so held mmap remapped);
    settles = λ q same.
        subst (λ p. Settled (below_of dune s grow stack_base gpa_stack_size) p) (cc same)
          (Settled-vremap_resolve x.ptr r s' code run e);
  }
