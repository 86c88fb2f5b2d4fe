-- ===== src/VirtMem/Unmap.antt =====
-- pt_unmap_page as a whole.
use dangless_malloc.Prelude.{
  ℕ, suc, ◌≡◌, ◌≢◌, refl, ap, subst, ◌∙◌, arith, some, Bool-cases, inl, inr, ne→==, ok, List, ◌∷◌,
  Run, ℤ, pos, negsuc,
}
use native.Mathlib.Decide.{ℕ_discrete}
use dangless_malloc.Dune.{Dune, Machine}
use dangless_malloc.VirtMem.{flag_isset, pte_v, pt_walk, pt_resolve_page, pt_unmap_page}
use dangless_malloc.VirtMem.Entries.{region}
use dangless_malloc.VirtMem.Tree.{IsLayout, Sites, IsTree}
use dangless_malloc.VirtMem.Walk.{Found, pt_walk-Found}
use dangless_malloc.VirtMem.Create.{SameTranslation, flag_isset-zero}
use dangless_malloc.VirtMem.Leaf.{written, leaf-IsTree, leaf-here, leaf-other}
use dangless_malloc.VirtMem.Map.{walk_cmd_lem}

-- The two outcomes of unmapping the page of `va`.
pub data Unmapped (dune : Dune) (site : Sites) (m : Machine) (va : ℕ) : Run Machine ℤ → Type 0 where
  unmapped :
      {m' : Machine}
      → IsTree dune site m'
      → ((va' : ℕ) → region va' 0 ≡ region va 0 → pt_resolve_page dune m' va' ≡ some (0, 0))
      → ((va' : ℕ)
          → region va' 0 ≢ region va 0
          → pt_resolve_page dune m' va' ≡ pt_resolve_page dune m va')
      → Unmapped dune site m va (ok (pos 0) m')
  no_table :
      (level e : ℕ)
      → pt_walk dune m va 1 ≡ some (level, e)
      → level ≢ 1
      → Unmapped dune site m va (ok (negsuc 0) m)

flushed_IsTree :
    {dune : Dune} {site : Sites} {m : Machine} (log : List ℕ)
    → IsTree dune site m
    → IsTree dune site (record m { flushed = log })
flushed_IsTree log t = record { root = t.root; page = t.page; child = t.child; fresh = t.fresh }

flushed_same :
    (dune : Dune) (m : Machine) (log : List ℕ) → SameTranslation dune m (record m { flushed = log })
unfolding pt_resolve_page
flushed_same dune m log va = refl

module _ {dune : Dune} (lay : IsLayout dune) (va : ℕ) {site : Sites} (m : Machine)
    (tree : IsTree dune site m) where
  unmap_run :
      (e : ℕ)
      → pt_walk dune m va 1 ≡ some (1, e)
      → (log : List ℕ) × (pt_unmap_page dune va 1 m
          ≡ ok (pos 0) (record (written m e 0) { flushed = log }))
  unfolding pt_unmap_page
  unmap_run e walked = elim (Bool-cases (flag_isset (m.mem e) pte_v)) [
    | inl present ↦ (va ∷ m.flushed, rw (walk_cmd_lem dune va 1 walked, present) refl)
    | inr absent ↦ (m.flushed, rw (walk_cmd_lem dune va 1 walked, absent) refl)
  ]

  Unmapped-leaf :
      (e : ℕ)
      → pt_walk dune m va 1 ≡ some (1, e)
      → Found dune site m va 0 e
      → Unmapped dune site m va (pt_unmap_page dune va 1 m)
  Unmapped-leaf e walked found =
      let (log, run) = unmap_run e walked in
      rw run (
        unmapped (flushed_IsTree log (leaf-IsTree lay m va e 0 tree walked found))
          (λ va' alike.
            flushed_same dune (written m e 0) log va'
            ∙ leaf-here lay m va e 0 tree walked found va' alike
            ∙ rw (flag_isset-zero pte_v))
          (λ va' other.
            flushed_same dune (written m e 0) log va'
            ∙ leaf-other lay m va e 0 tree walked found va' other))

  -- With the layout of physical memory that platform/dune assumes and well-formed page tables:
  -- pt_unmap_page of va at level 1 does not fault. Either the walk for va ends at level 1, it
  -- returns 0, the tables are well-formed, no address of va's page has a translation and every
  -- other address translates as before; or the walk ends at a higher level, and it returns -1
  -- with nothing changed.
  pub pt_unmap_page-Unmapped : Unmapped dune site m va (pt_unmap_page dune va 1 m)
  unfolding pt_unmap_page
  pt_unmap_page-Unmapped =
      let (k, e, walked, found) = pt_walk-Found lay tree va in
      elim (ℕ_discrete k 0) [
        | yes zero_level ↦
            Unmapped-leaf e (walked ∙ ap (λ n. some (suc n, e)) zero_level)
              (subst (λ n. Found dune site m va n e) zero_level found)
        | no higher ↦
            rw (walk_cmd_lem dune va 1 walked, ne→== (suc k) 1 (λ eq. higher (omega arith)))
              (no_table (suc k) e walked (λ eq. higher (omega arith)))
      ]
