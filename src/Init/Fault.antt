-- ===== src/Init/Fault.antt =====
-- The handler of page faults on pages that virtual_invalidate has taken down, and on others.
use dangless_malloc.Prelude.{
  ℕ, ◌+◌, suc, ◌*◌, ◌^◌, ◌≤◌, ◌<◌, ◌≡◌, ◌≢◌, refl, sym, ap, ◌∙◌, true, false, not, Option, none,
  some, ok, arith, ne→==, ◌==◌, if◌then◌else◌, Bool-cases, inl, inr,
}
use dangless_malloc.Page.{pgsize, page_base, round_down}
use dangless_malloc.Dune.{Dune, Machine}
use dangless_malloc.VirtMem.{flag_isset, pte_v, pte_invalidated, pt_walk, pt_resolve_page}
use dangless_malloc.VirtMem.Entries.{region, region-page_base}
use dangless_malloc.VirtMem.Tree.{IsLayout, Sites, IsTree}
use dangless_malloc.VirtMem.Walk.{pt_walk-Found}
use dangless_malloc.VirtMem.Create.{pt_resolve_page-absent}
use dangless_malloc.VirtMem.Region.{InPage, IsMapped}
use dangless_malloc.VirtualRemap.Ready.{resolve_alike}
use dangless_malloc.Invalidate.{virtual_invalidate}
use dangless_malloc.Invalidate.Revoke.{virtual_invalidate-Revoked, invalidated_absent}
use dangless_malloc.Init.{
  pgflt_flag_ispresent, report_of, dangling_at, check_dangling, pagefault_handler,
}

region-round_down : (a : ℕ) → region (round_down a pgsize) 0 ≡ region a 0
unfolding round_down
region-round_down a = region-page_base a

-- The handler for a page that is not present.
pagefault_handler-walk :
    (dune : Dune) (m : Machine) (addr flags level e : ℕ)
    → flag_isset flags pgflt_flag_ispresent ≡ false
    → pt_walk dune m (round_down addr pgsize) 1 ≡ some (level, e)
    → pagefault_handler dune m addr flags ≡ some (report_of addr flags (dangling_at m level e))
unfolding pagefault_handler check_dangling
pagefault_handler-walk dune m addr flags level e absent walked =
    ap (λ b. if not b then check_dangling dune m addr flags else some (report_of addr flags none))
      absent
    ∙ rw (walked, check_dangling) refl

-- An entry that is present is not the marker.
not-marker : (w : ℕ) → flag_isset w pte_v ≡ true → (w == pte_invalidated) ≡ false
not-marker w v = ne→== _ _ (λ (e : w ≡ pte_invalidated).
    absurd (cc (sym v ∙ ap (λ x. flag_isset x pte_v) e ∙ invalidated_absent)))

level_of : {pa level : ℕ} → ◌≡◌ {A = Option (ℕ × ℕ)} (some (pa, level)) (some (0, 0)) → level ≡ 0
level_of e = ground (arith, e)

handler_no_marker :
    (dune : Dune) (m : Machine) (addr flags level e : ℕ)
    → pt_walk dune m (round_down addr pgsize) 1 ≡ some (level, e)
    → (m.mem e == pte_invalidated) ≡ false
    → pagefault_handler dune m addr flags ≡ some (report_of addr flags none)
unfolding pagefault_handler
handler_no_marker dune m addr flags level e walked other =
    elim (Bool-cases (flag_isset flags pgflt_flag_ispresent)) [
      | inl present ↦
          ap
            (λ b.
              if not b then check_dangling dune m addr flags else some (report_of addr flags none))
            present
      | inr absent ↦ pagefault_handler-walk dune m addr flags level e absent walked ∙ rw other refl
    ]

-- What the handler says of two kinds of addresses after n pages from p on have been taken down.
pub record Diagnosed (dune : Dune) (m' : Machine) (p n : ℕ) : Type 0 where
  -- A dangling pointer: the marker is found.
  pub dangling :
      (addr flags k : ℕ)
      → flag_isset flags pgflt_flag_ispresent ≡ false
      → k < n
      → InPage p k addr
      → (e : ℕ) × (pagefault_handler dune m' addr flags ≡ some (report_of addr flags (some (e, 1))))
  -- An address with a translation: none is found.
  pub other :
      (addr flags pa level : ℕ)
      → pt_resolve_page dune m' addr ≡ some (pa, level)
      → level ≢ 0
      → pagefault_handler dune m' addr flags ≡ some (report_of addr flags none)

module _ {dune : Dune} (lay : IsLayout dune) {site : Sites} where
  other_address :
      (m : Machine)
      → IsTree dune site m
      → (addr flags pa level : ℕ) → pt_resolve_page dune m addr ≡ some (pa, level)
      → level ≢ 0
      → pagefault_handler dune m addr flags ≡ some (report_of addr flags none)
  other_address m tree addr flags pa level found present =
      let base : ℕ = round_down addr pgsize in
      let same = resolve_alike lay tree addr base (region-round_down addr) ∙ found in
      let (k, e, walked, reached) = pt_walk-Found lay tree base in
      elim (Bool-cases (flag_isset (m.mem e) pte_v)) [
        | inr absent ↦ absurd (
            present
              (level_of (sym same ∙ pt_resolve_page-absent dune m base (suc k) e walked absent)))
        | inl valid ↦ handler_no_marker dune m addr flags (suc k) e walked (not-marker _ valid)
      ]

  -- With the layout that platform/dune assumes and well-formed page tables, for npages pages
  -- from that of p on which end at or below 2^48 and are mapped at level 1: virtual_invalidate
  -- ends without a failed assertion, and in the state it leaves the handler of page faults
  -- says of a fault on any address in these pages, whose flags do not have
  -- PGFLT_FLAG_ISPRESENT, that the access was through a dangling pointer, with the level 1,
  -- and of no fault on an address that has a translation.
  pub fault-Diagnosed :
      (p npages : ℕ) (m : Machine)
      → page_base p + npages * pgsize ≤ 2 ^ 48
      → IsTree dune site m
      → ((k : ℕ) → k < npages → IsMapped dune m (page_base p + k * pgsize))
      → (m' : Machine) × (virtual_invalidate dune p npages m ≡ ok tt m')
        × Diagnosed dune m' (page_base p) npages
  fault-Diagnosed p npages m fits tree mapped =
      let (m', run, r) = virtual_invalidate-Revoked lay p npages fits m tree mapped in
      (
        m',
        run,
        record {
          dangling = λ addr flags k absent lt inside.
              let (e, walked, marked) =
                r.marked (round_down addr pgsize) k lt (region-round_down addr ∙ inside) in
              (e, pagefault_handler-walk dune m' addr flags 1 e absent walked ∙ rw marked refl);
          other = λ addr flags pa level found present.
              other_address m' r.tree addr flags pa level found present;
        },
      )
