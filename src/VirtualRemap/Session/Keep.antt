-- ===== src/VirtualRemap/Session/Keep.antt =====
-- What the steps of a session keep: aliases whose translations stay are held or gone as before.
use dangless_malloc.Prelude.{
  ℕ, ◌+◌, ◌*◌, ◌<◌, ◌≡◌, refl, sym, ap, subst, subst₂, ◌∙◌, arith, true, Option, some, List, [],
  ◌∷◌, Run, ok, ℤ, Bool-cases, inl, inr,
}
use dangless_malloc.Page.{pgsize, page_base, num_spanned_pages_bounds}
use dangless_malloc.FreeList.Order.{covers}
use dangless_malloc.FreeList.Contract.{owns}
use dangless_malloc.Dune.{Dune, Machine}
use dangless_malloc.VirtMem.{pt_resolve_page, pt_resolve}
use dangless_malloc.VirtMem.Tree.{Sites}
use dangless_malloc.VirtualRemap.{Process, vrem_ok}
use dangless_malloc.VirtualRemap.Ready.{IsReady}
use dangless_malloc.VirtualRemap.Alias.{IsBacked, Remapped, alias, no_vm, virt_map}
use dangless_malloc.VirtualRemap.Session.{
  Alias, npages_of, InAlias, Reserved, Holds, AllHold, AllGone, ApartFrom, Continues,
}

pt_resolve_eq :
    (dune : Dune) (m m' : Machine) (p : ℕ)
    → pt_resolve_page dune m' p ≡ pt_resolve_page dune m p
    → pt_resolve dune m' p ≡ pt_resolve dune m p
unfolding pt_resolve
pt_resolve_eq dune m m' p e = rw (e, pt_resolve) refl

-- The page boundaries of an alias are among its addresses.
pub InAlias-page : (x : Alias) (k : ℕ) → k < npages_of x → InAlias x (page_base x.out + k * pgsize)
InAlias-page x k h = (omega arith, omega arith)

module _ {dune : Dune} {s s' : Process} {Kept : ℕ → Type 0} (c : Continues dune s s' Kept) where
  pub Reserved-Continues : (x : Alias) → Reserved s x → Reserved s' x
  Reserved-Continues x r = record {
    fits = r.fits;
    unowned = λ a h. elim (Bool-cases (owns s'.list a)) [
      | inl yes' ↦ absurd (cc (sym (c.before a yes') ∙ r.unowned a h))
      | inr no' ↦ no'
    ];
  }

  same_translation :
      (x : Alias) (a : ℕ)
      → Reserved s x
      → InAlias x a
      → Kept a
      → pt_resolve_page dune s'.machine a ≡ pt_resolve_page dune s.machine a
  same_translation x a r h kept = c.others a (omega (arith, r.fits, h.1)) (r.unowned a h) kept

  pub Holds-Continues :
      (x : Alias) → ((a : ℕ) → InAlias x a → Kept a) → Holds dune s x → Holds dune s' x
  Holds-Continues x kept h = record {
    reserved = Reserved-Continues x h.reserved;
    backed = h.backed;
    not_null = h.not_null;
    offset = h.offset;
    inside = h.inside;
    mapped = λ k lt.
        let at = InAlias-page x k lt in
        ((h.mapped k lt).0, same_translation x _ h.reserved at (kept _ at) ∙ (h.mapped k lt).1);
    maps = λ i lt.
        let at = h.inside i lt in
        pt_resolve_eq dune s.machine s'.machine _ (same_translation x _ h.reserved at (kept _ at))
        ∙ h.maps i lt;
  }

  pub AllHold-Continues :
      (xs : List Alias) → ((a : ℕ) → Kept a) → AllHold dune s xs → AllHold dune s' xs
  AllHold-Continues [] kept h = tt
  AllHold-Continues (x ∷ xs) kept h =
      (Holds-Continues x (λ a _. kept a) h.0, AllHold-Continues xs kept h.1)

  pub AllGone-Continues :
      (xs : List Alias) → ((a : ℕ) → Kept a) → AllGone dune s xs → AllGone dune s' xs
  AllGone-Continues [] kept h = tt
  AllGone-Continues (x ∷ xs) kept h = (
    record {
      reserved = Reserved-Continues x h.0.reserved;
      absent = λ a at. same_translation x a h.0.reserved at (kept a) ∙ h.0.absent a at;
    },
    AllGone-Continues xs kept h.1,
  )

-- Any address is kept.
abbrev pub All : ℕ → Type 0
All a = Unit

module _ {dune : Dune} {s : Process} where
  pub Continues-Remapped :
      {site : Sites} {ptr size : ℕ} {r : Run Process (ℤ × Option ℕ)} {res : ℤ × Option ℕ}
      {s' : Process}
      → Remapped dune site s ptr size r
      → r ≡ ok res s'
      → Continues dune s s' All
  unfolding owns
  Continues-Remapped
        (alias {site' = site'} {s' = t} out ready offset at fits mapped owned others before) e =
      subst (λ u. Continues dune s u All) (cc e)
        (record {
          site = site';
          ready = ready;
          before = before;
          others = λ a h un _. others a h un;
        })
  Continues-Remapped {site} (no_vm {s' = t} short ready same items) e =
      subst (λ u. Continues dune s u All) (cc e)
        (record {
          site = site;
          ready = ready;
          before = λ a h. ap (λ x. covers x a) (sym items) ∙ h;
          others = λ a h un _. ap (λ m. pt_resolve_page dune m a) same;
        })
  Continues-Remapped (virt_map {site' = site'} {s' = t} call null first last ready same items) e =
      subst (λ u. Continues dune s u All) (cc e)
        (record {
          site = site';
          ready = ready;
          before = λ a h. ap (λ x. covers x a) (sym items) ∙ h;
          others = λ a h un _. same a;
        })

-- What was owned a moment ago lies apart from all aliases.
pub ApartFrom-AllHold :
    (dune : Dune) (s : Process) (x : Alias) (ys : List Alias)
    → ((a : ℕ) → InAlias x a → owns s.list a ≡ true)
    → AllHold dune s ys
    → ApartFrom x ys
ApartFrom-AllHold dune s x [] owned h = tt
ApartFrom-AllHold dune s x (y ∷ ys) owned h = (
  λ a at at'. absurd (cc (sym (owned a at) ∙ h.0.reserved.unowned a at')),
  ApartFrom-AllHold dune s x ys owned h.1,
)

-- The alias that a call has just returned.
pub Holds-Remapped :
    {dune : Dune} {site : Sites} {s s' : Process} {ptr size out : ℕ}
    {r : Run Process (ℤ × Option ℕ)}
    → IsReady dune site s
    → IsBacked dune ptr size
    → Remapped dune site s ptr size r
    → r ≡ ok (vrem_ok, some out) s'
    → ((a : ℕ) → InAlias (record { ptr = ptr; out = out; size = size }) a → owns s.list a ≡ true)
      × Holds dune s' (record { ptr = ptr; out = out; size = size })
Holds-Remapped {dune} {s = s} {s'} {ptr} {size} {out} ready backed
      (alias {s' = t} out' after offset at fits mapped owned others before) e =
    let number : out' ≡ out = cc e in
    let state : t ≡ s' = cc e in
    let bounds = num_spanned_pages_bounds ptr size backed.some_bytes backed.fits in
    subst₂
      (λ o u.
        ((a : ℕ) → InAlias (record { ptr = ptr; out = o; size = size }) a → owns s.list a ≡ true)
        × Holds dune u (record { ptr = ptr; out = o; size = size }))
      number state
      (
        λ a h. (owned a h.0 h.1).0,
        record {
          reserved = record { fits = fits; unowned = λ a h. (owned a h.0 h.1).1 };
          backed = backed;
          not_null = λ e.
              let owned_null = (owned out' (omega arith) (omega (arith, offset, bounds))).0 in
              absurd (cc (sym owned_null ∙ ap (λ a. owns s.list a) e ∙ ready.no_null));
          offset = offset;
          inside = λ i lt. (omega arith, omega (arith, offset, bounds));
          mapped = mapped;
          maps = at;
        },
      )
Holds-Remapped ready backed (no_vm short after same items) e = absurd (ground (arith, e))
Holds-Remapped ready backed (virt_map call null first last after same items) e =
    absurd (ground (arith, e))
