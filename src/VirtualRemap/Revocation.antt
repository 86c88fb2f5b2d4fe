-- ===== src/VirtualRemap/Revocation.antt =====
-- The invariant of all sessions.
use dangless_malloc.Prelude.{
  ℕ, ◌+◌, ◌*◌, ◌-◌, ◌<◌, ◌≡◌, arith, ap, refl, sym, subst, ◌∙◌, Option, ℤ, List, ◌∷◌, ok,
}
use dangless_malloc.Page.{pgsize, page_base, num_spanned_pages}
use dangless_malloc.Dune.{Dune, Machine}
use dangless_malloc.VirtMem.Region.{IsMapped}
use dangless_malloc.VirtMem.Tree.{IsLayout, Sites}
use dangless_malloc.VirtualRemap.{Process, in_kernel_mode, vremap_resolve}
use dangless_malloc.VirtualRemap.Original.{vremap_resolve-same}
use dangless_malloc.VirtualRemap.Ready.{IsReady}
use dangless_malloc.VirtualRemap.Alias.{IsBacked, vremap_map-Remapped}
use dangless_malloc.VirtualRemap.Session.{
  Alias, npages_of, Picked, Session, opened, aliased, refused, resolved, revoked, resized, shrunk,
  resize, tail_of, Reserved, AllHold, ApartFrom, AllGone, AllApart, Continues,
}
use dangless_malloc.VirtualRemap.Session.Resize.{
  Holds-resize, npages_of-tail_of, InAlias-tail_of, Reserved-tail_of, tail_of-IsMapped,
}
use dangless_malloc.VirtualRemap.Session.Keep.{
  All, Reserved-Continues, AllHold-Continues, AllGone-Continues, Continues-Remapped,
  ApartFrom-AllHold, Holds-Remapped,
}
use dangless_malloc.VirtualRemap.Session.Revoke.{
  Picked-AllHold, Picked-AllApart, AllHold-apart, ApartFrom-within, Continues-Revoked, absent_now,
  AllGone-Revoked,
}
use dangless_malloc.Invalidate.{virtual_invalidate}
use dangless_malloc.Invalidate.Revoke.{Revoked, virtual_invalidate-Revoked}

-- The state is ready, every live alias is backed by its memory, no two share a page, and no page of
-- a revoked alias is translated or can be handed out.
pub record IsSound (dune : Dune) (s : Process) (live dead : List Alias) : Type 0 where
  pub site : Sites
  pub ready : IsReady dune site s
  pub hold : AllHold dune s live
  pub apart : AllApart live
  pub gone : AllGone dune s dead

module _ {dune : Dune} (lay : IsLayout dune) where
  -- The pages of `y` are revoked, and `rest` holds with them apart.
  IsSound-without :
      {s : Process} {m' : Machine} {live rest dead : List Alias} (y : Alias)
      → IsSound dune s live dead
      → Reserved s y
      → ((k : ℕ) → k < npages_of y → IsMapped dune s.machine (page_base y.out + k * pgsize))
      → AllHold dune s rest
      → ApartFrom y rest
      → AllApart rest
      → virtual_invalidate dune y.out (npages_of y) s.machine ≡ ok tt m'
      → IsSound dune (record s { machine = m' }) rest (y ∷ dead)
  IsSound-without {s} {m'} {rest = rest} {dead} y so reserved mapped hold apart rest_apart run =
      let (m'', run', r'') =
        virtual_invalidate-Revoked lay y.out (npages_of y) reserved.fits s.machine so.ready.tree
          mapped in
      let same : m'' ≡ m' = cc (sym run' ∙ run) in
      let r =
        subst (λ m. Revoked dune so.site s.machine m (page_base y.out) (npages_of y)) same r'' in
      let c = Continues-Revoked lay so.ready y reserved r in
      record {
        site = c.site;
        ready = c.ready;
        hold = AllHold-apart y rest c apart hold;
        apart = rest_apart;
        gone = (
          record {
            reserved = Reserved-Continues c y reserved;
            absent = absent_now lay so.ready y reserved r;
          },
          AllGone-Revoked lay so.ready y reserved r dead so.gone,
        );
      }

  IsSound-revoked :
      {s : Process} {m' : Machine} {live rest dead : List Alias} (x : Alias)
      → IsSound dune s live dead
      → Picked x live rest
      → virtual_invalidate dune x.out (npages_of x) s.machine ≡ ok tt m'
      → IsSound dune (record s { machine = m' }) rest (x ∷ dead)
  IsSound-revoked x so picked run =
      let (held, rest_hold) = Picked-AllHold picked so.hold in
      let (apart, rest_apart) = Picked-AllApart picked so.apart in
      IsSound-without x so held.reserved held.mapped rest_hold apart rest_apart run

  IsSound-resized :
      {s : Process} {live rest dead : List Alias} (x : Alias) (size : ℕ)
      → IsSound dune s live dead
      → Picked x live rest
      → IsBacked dune x.ptr size
      → num_spanned_pages x.ptr size ≡ npages_of x
      → IsSound dune s (resize x size ∷ rest) dead
  IsSound-resized {rest = rest} x size so picked backed same =
      let (held, rest_hold) = Picked-AllHold picked so.hold in
      let (apart, rest_apart) = Picked-AllApart picked so.apart in
      record {
        site = so.site;
        ready = so.ready;
        hold = (Holds-resize lay so.ready x size held backed (omega arith), rest_hold);
        apart = (
          ApartFrom-within x (resize x size) rest (λ a at. (at.0, omega arith)) apart,
          rest_apart,
        );
        gone = so.gone;
      }

  IsSound-shrunk :
      {s : Process} {m' : Machine} {live rest dead : List Alias} (x : Alias) (size : ℕ)
      → IsSound dune s live dead
      → Picked x live rest
      → IsBacked dune x.ptr size
      → num_spanned_pages x.ptr size < npages_of x
      → virtual_invalidate dune
          (tail_of x size).out
          (npages_of x - num_spanned_pages x.ptr size)
          s.machine
        ≡ ok tt m'
      → IsSound dune (record s { machine = m' }) (resize x size ∷ rest) (tail_of x size ∷ dead)
  IsSound-shrunk {s} {rest = rest} x size so picked backed fewer run =
      let (held, rest_hold) = Picked-AllHold picked so.hold in
      let (apart, rest_apart) = Picked-AllApart picked so.apart in
      let y = tail_of x size in
      let count = npages_of-tail_of x size held.backed backed fewer in
      let inside = InAlias-tail_of x size held.backed backed fewer in
      IsSound-without y so (Reserved-tail_of x size held.backed backed fewer held.reserved)
        (tail_of-IsMapped x size held.backed backed fewer held)
        (Holds-resize lay so.ready x size held backed (omega arith), rest_hold)
        (λ a at at'. absurd (omega (arith, at.0, at'.1)), ApartFrom-within x y rest inside apart)
        (ApartFrom-within x (resize x size) rest (λ a at. (at.0, omega arith)) apart, rest_apart)
        (ap (λ c. virtual_invalidate dune y.out c s.machine) count ∙ run)

  IsSound-resolved :
      {s s' : Process} {live dead : List Alias} {r : ℤ × Option ℕ} (p : ℕ)
      → IsSound dune s live dead
      → vremap_resolve dune p s ≡ ok r s'
      → IsSound dune s' live dead
  unfolding in_kernel_mode
  IsSound-resolved {s} {live = live} {dead} p so run =
      let (code, same) = vremap_resolve-same dune p s run in
      let c : Continues dune s (record s { last_result = code }) All = record {
        site = so.site;
        ready = record {
          valid = so.ready.valid;
          tree = so.ready.tree;
          kernel = so.ready.kernel;
          no_null = so.ready.no_null;
          low = so.ready.low;
          free = so.ready.free;
        };
        before = λ a h. h;
        others = λ a low un kept. refl;
      } in
      subst (λ u. IsSound dune u live dead) (sym same)
        (record {
          site = c.site;
          ready = c.ready;
          hold = AllHold-Continues c live (λ a. tt) so.hold;
          apart = so.apart;
          gone = AllGone-Continues c dead (λ a. tt) so.gone;
        })

  -- With the layout that platform/dune assumes, after any number of calls from a ready state
  -- on, each of vremap_map with its conditions and with or without success, of vremap_resolve,
  -- of virtual_invalidate on the pages of a live alias, or on those that a block which has
  -- shrunk at its place no longer takes, and after a change of size that leaves the pages of a
  -- block as they are: the state is ready again; every live alias lies below 2^48 and has the
  -- offset of its memory in the page, every byte of it translates to the physical address of
  -- the byte of the memory it was made for, and its pages are mapped and not owned by the
  -- allocator; no two live aliases share a page; and no address in a page of a revoked alias
  -- is translated or owned by the allocator.
  pub Session-IsSound :
      {s : Process} {live dead : List Alias} → Session dune s live dead → IsSound dune s live dead
  Session-IsSound (opened {site} ready) = record {
    site = site;
    ready = ready;
    hold = tt;
    apart = tt;
    gone = tt;
  }
  Session-IsSound (aliased {s} {live = xs} {dead} ptr size out session backed run) =
      let so = Session-IsSound session in
      let outcome = vremap_map-Remapped lay so.ready ptr size backed in
      let c = Continues-Remapped outcome run in
      let (owned, holds) = Holds-Remapped so.ready backed outcome run in
      record {
        site = c.site;
        ready = c.ready;
        hold = (holds, AllHold-Continues c xs (λ a. tt) so.hold);
        apart = (
          ApartFrom-AllHold dune s (record { ptr = ptr; out = out; size = size }) xs owned so.hold,
          so.apart,
        );
        gone = AllGone-Continues c dead (λ a. tt) so.gone;
      }
  Session-IsSound (refused {live = xs} {dead} ptr size code session backed run) =
      let so = Session-IsSound session in
      let c = Continues-Remapped (vremap_map-Remapped lay so.ready ptr size backed) run in
      record {
        site = c.site;
        ready = c.ready;
        hold = AllHold-Continues c xs (λ a. tt) so.hold;
        apart = so.apart;
        gone = AllGone-Continues c dead (λ a. tt) so.gone;
      }
  Session-IsSound (resolved p session run) = IsSound-resolved p (Session-IsSound session) run
  Session-IsSound (revoked x session picked run) =
      IsSound-revoked x (Session-IsSound session) picked run
  Session-IsSound (resized x size session picked backed same) =
      IsSound-resized x size (Session-IsSound session) picked backed same
  Session-IsSound (shrunk x size session picked backed fewer run) =
      IsSound-shrunk x size (Session-IsSound session) picked backed fewer run
