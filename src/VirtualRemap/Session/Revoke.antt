-- ===== src/VirtualRemap/Session/Revoke.antt =====
-- What taking an alias out of a list, and revoking its pages, does to the others.
use dangless_malloc.Prelude.{
  ℕ, ◌+◌, ◌-◌, ◌*◌, ◌/◌, ◌^◌, ◌<◌, ◌≡◌, sym, ap, ◌∙◌, arith, some, List, [], ◌∷◌,
}
use native.Mathlib.Decide.{dec_le, dec_lt}
use dangless_malloc.Page.{pgsize, page_base}
use dangless_malloc.Dune.{Dune, Machine}
use dangless_malloc.VirtMem.{pt_resolve_page}
use dangless_malloc.VirtMem.Entries.{region_range, region_at, region}
use dangless_malloc.VirtMem.Tree.{IsLayout, Sites}
use dangless_malloc.VirtMem.Region.{InPage}
use dangless_malloc.VirtualRemap.{Process, in_kernel_mode}
use dangless_malloc.VirtualRemap.Ready.{IsReady}
use dangless_malloc.VirtualRemap.Session.{
  Alias, npages_of, InAlias, Picked, here, there, Reserved, Holds, AllHold, AllGone, Apart,
  ApartFrom, AllApart, Continues,
}
use dangless_malloc.VirtualRemap.Session.Keep.{Reserved-Continues, Holds-Continues}
use dangless_malloc.Invalidate.Revoke.{Revoked}

pub Picked-AllHold :
    {dune : Dune} {s : Process} {x : Alias} {xs ys : List Alias}
    → Picked x xs ys
    → AllHold dune s xs
    → Holds dune s x × AllHold dune s ys
Picked-AllHold here h = h
Picked-AllHold (there p) h = let (x_holds, rest) = Picked-AllHold p h.1 in (x_holds, (h.0, rest))

pub Picked-ApartFrom :
    (z : Alias) {x : Alias} {xs ys : List Alias}
    → Picked x xs ys
    → ApartFrom z xs
    → Apart z x × ApartFrom z ys
Picked-ApartFrom z here h = h
Picked-ApartFrom z (there p) h =
    let (apart, rest) = Picked-ApartFrom _ p h.1 in (apart, (h.0, rest))

pub Picked-AllApart :
    {x : Alias} {xs ys : List Alias} → Picked x xs ys → AllApart xs → ApartFrom x ys × AllApart ys
Picked-AllApart here h = h
Picked-AllApart (there p) h =
    let (apart, rest) = Picked-AllApart p h.1 in
    let (away, others) = Picked-ApartFrom _ p h.0 in
    ((λ a at at'. away a at' at, apart), (others, rest))

-- Pages among those of an alias lie apart where the alias does.
pub ApartFrom-within :
    (x y : Alias) (zs : List Alias)
    → ((a : ℕ) → InAlias y a → InAlias x a)
    → ApartFrom x zs
    → ApartFrom y zs
ApartFrom-within x y [] inside apart = tt
ApartFrom-within x y (z ∷ zs) inside apart =
    (λ a at. apart.0 a (inside a at), ApartFrom-within x y zs inside apart.1)

-- The aliases apart from one hold when its pages alone have changed.
pub AllHold-apart :
    {dune : Dune} {s s' : Process} (x : Alias) (xs : List Alias)
    → Continues dune s s' (λ a. ¬ InAlias x a)
    → ApartFrom x xs
    → AllHold dune s xs
    → AllHold dune s' xs
AllHold-apart x [] c apart h = tt
AllHold-apart x (y ∷ ys) c apart h =
    (Holds-Continues c y (λ a at at'. apart.0 a at' at) h.0, AllHold-apart x ys c apart.1 h.1)

InAlias-cases : (x : Alias) (a : ℕ) → Dec (InAlias x a)
InAlias-cases x a = elim (dec_le (page_base x.out) a) [
  | no below ↦ no (λ h. below h.0)
  | yes low ↦ elim (dec_lt a (page_base x.out + npages_of x * pgsize)) [
    | no above ↦ no (λ h. above h.1)
    | yes high ↦ yes (low, high)
  ]
]

module _ {dune : Dune} (lay : IsLayout dune) {site : Sites} {s : Process}
    (ready : IsReady dune site s) (x : Alias) (h : Reserved s x) {m' : Machine}
    (r : Revoked dune site s.machine m' (page_base x.out) (npages_of x)) where
  outside_pages :
      (a : ℕ)
      → a < 2 ^ 48
      → ¬ InAlias x a
      → (k : ℕ) → k < npages_of x
      → ¬ InPage (page_base x.out) k a
  outside_pages a low out k lt e =
      let (above, below) =
        region_range (page_base x.out) (npages_of x) k a (omega arith) h.fits low lt e in
      out (omega arith, omega arith)

  pub Continues-Revoked : Continues dune s (record s { machine = m' }) (λ a. ¬ InAlias x a)
  unfolding in_kernel_mode
  Continues-Revoked = record {
    site = site;
    ready = record {
      valid = ready.valid;
      tree = r.tree;
      kernel = ready.kernel;
      no_null = ready.no_null;
      low = ready.low;
      free = λ a owned.
          r.others a
            (outside_pages a (ready.low a owned) (λ at. absurd (cc (sym owned ∙ h.unowned a at))))
          ∙ ready.free a owned;
    };
    before = λ a owned. owned;
    others = λ a low un out. r.others a (outside_pages a low out);
  }

  pub absent_now : (a : ℕ) → InAlias x a → pt_resolve_page dune m' a ≡ some (0, 0)
  absent_now a at =
      let b : ℕ = a - page_base x.out in
      let same : a ≡ page_base x.out + b = omega (arith, at.0) in
      r.gone a (b / pgsize) (omega (arith, at.1)) (
        ap (λ y. region y 0) same
        ∙ region_at (page_base x.out) (npages_of x) b (omega arith) h.fits (omega (arith, at.1)))

  -- Those that were revoked before stay so, and `x` is one of them.
  pub AllGone-Revoked :
      (xs : List Alias) → AllGone dune s xs → AllGone dune (record s { machine = m' }) xs
  AllGone-Revoked [] g = tt
  AllGone-Revoked (y ∷ ys) g = (
    record {
      reserved = Reserved-Continues Continues-Revoked y g.0.reserved;
      absent = λ a at. elim (InAlias-cases x a) [
        | yes in_x ↦ absent_now a in_x
        | no out ↦
            r.others a (outside_pages a (omega (arith, g.0.reserved.fits, at.1)) out)
            ∙ g.0.absent a at
      ];
    },
    AllGone-Revoked ys g.1,
  )
