-- ===== src/Hooks/Resolve.antt =====
-- vremap_resolve as the hooks call it: of an alias that is in use.
use dangless_malloc.Prelude.{ℕ, true, refl, ne→==, eq→==, ◌+◌, ◌≡◌, ◌≢◌, some, List, ok, arith}
use dangless_malloc.Dune.{Dune}
use dangless_malloc.VirtMem.{pt_resolve}
use dangless_malloc.VirtMem.Tree.{IsLayout}
use dangless_malloc.VirtualRemap.{
  Process, in_kernel_mode, vrem_ok, vrem_not_remapped, return_code, resolve_original,
  vremap_resolve,
}
use dangless_malloc.VirtualRemap.Original.{IsMmap, vremap_resolve-IsMmap}
use dangless_malloc.VirtualRemap.Session.{Alias, Holds}
use dangless_malloc.VirtualRemap.Revocation.{IsSound}

-- The pointer is translated as dune_va_to_pa says, as all memory is that was not remapped.
pub record IsPlain (dune : Dune) (s : Process) (p : ℕ) : Type 0 where
  pub not_null : p ≢ 0
  pub backed : dune.va_to_pa p ≢ 0
  pub direct : pt_resolve dune s.machine p ≡ some (dune.va_to_pa p)

pub vremap_resolve-IsPlain :
    (dune : Dune) (s : Process) (p : ℕ)
    → in_kernel_mode s ≡ true
    → IsPlain dune s p
    → vremap_resolve dune p s
      ≡ ok (vrem_not_remapped, some p) (record s { last_result = vrem_not_remapped })
unfolding vremap_resolve resolve_original return_code
vremap_resolve-IsPlain dune s p kernel h =
    rw (kernel, h.direct) (rw (ne→== _ _ h.backed, eq→== _ _ refl) refl)

module _ {dune : Dune} (lay : IsLayout dune) {s : Process} where
  -- The first byte of an alias is translated to that of its memory.
  first_byte :
      (x : Alias) → Holds dune s x → pt_resolve dune s.machine x.out ≡ some (dune.va_to_pa x.ptr)
  first_byte x h =
      let o : x.out + 0 ≡ x.out = omega arith in
      let p : dune.va_to_pa x.ptr + 0 ≡ dune.va_to_pa x.ptr = omega arith in
      simp (o, p) at (h.maps 0 h.backed.some_bytes)

  pub vremap_resolve-Holds :
      {live dead : List Alias} (x : Alias)
      → IsSound dune s live dead
      → Holds dune s x
      → IsMmap dune x.ptr
      → dune.va_to_pa x.out ≢ dune.va_to_pa x.ptr
      → vremap_resolve dune x.out s ≡ ok (vrem_ok, some x.ptr) (record s { last_result = vrem_ok })
  vremap_resolve-Holds x so held mmap remapped =
      vremap_resolve-IsMmap lay s x.out x.ptr so.ready.kernel (first_byte x held)
        (λ e. absurd (omega (arith, held.backed.above, e))) remapped mmap
