-- ===== src/VirtualRemap/Session.antt =====
-- Many remappings and revocations in a row: no two aliases share a page, live ones stay what they
-- were, and revoked ones are never translated again.
pub mod Keep
pub mod Revoke
pub mod Resize
use dangless_malloc.Prelude.{
  ℕ, ◌+◌, ◌-◌, ◌*◌, ◌%◌, ◌^◌, ◌≤◌, ◌<◌, ◌≡◌, ◌≢◌, refl, sym, ap, subst, subst₂, ◌∙◌, arith, true,
  false, Option, some, none, List, [], ◌∷◌, Run, ok, ℤ, Bool-cases, inl, inr,
}
use dangless_malloc.Page.{pgsize, page_base, num_spanned_pages, num_spanned_pages_bounds}
use dangless_malloc.FreeList.Order.{covers}
use dangless_malloc.FreeList.Contract.{owns}
use dangless_malloc.Dune.{Dune, Machine}
use dangless_malloc.VirtMem.{pt_resolve_page, pt_resolve}
use dangless_malloc.VirtMem.Tree.{Sites}
use dangless_malloc.VirtMem.Region.{IsMapped}
use dangless_malloc.VirtualRemap.{Process, vrem_ok, vremap_map, vremap_resolve}
use dangless_malloc.VirtualRemap.Ready.{IsReady}
use dangless_malloc.VirtualRemap.Alias.{IsBacked, Remapped, alias, no_vm, virt_map}
use dangless_malloc.Invalidate.{virtual_invalidate}

-- A successful call of vremap_map.
pub record Alias : Type 0 where
  pub ptr : ℕ
  pub out : ℕ
  pub size : ℕ

-- The pages of the alias.
abbrev pub npages_of : Alias → ℕ
npages_of x = num_spanned_pages x.ptr x.size

-- The address lies in a page of the alias.
abbrev pub InAlias : Alias → ℕ → Type 0
InAlias x a = (page_base x.out ≤ a) × (a < page_base x.out + npages_of x * pgsize)

-- The alias once the memory behind it has `size` bytes, at the place where it was.
abbrev pub resize : Alias → ℕ → Alias
resize x size = record { ptr = x.ptr; out = x.out; size = size }

-- The pages of the alias behind those that `size` bytes take.
abbrev pub tail_of : Alias → ℕ → Alias
tail_of x size = record {
  ptr = page_base x.ptr + num_spanned_pages x.ptr size * pgsize;
  out = page_base x.out + num_spanned_pages x.ptr size * pgsize;
  size = (npages_of x - num_spanned_pages x.ptr size) * pgsize;
}

-- Taking `x` out of a list leaves the other.
pub data Picked (x : Alias) : List Alias → List Alias → Type 0 where
  here : {xs : List Alias} → Picked x (x ∷ xs) xs
  there : {y : Alias} {xs ys : List Alias} → Picked x xs ys → Picked x (y ∷ xs) (y ∷ ys)

-- The calls of vremap_map, vremap_resolve and virtual_invalidate since a ready state, and the changes
-- of size of the memory behind an alias: the live aliases, and those that have been revoked, the
-- last first.
pub data Session (dune : Dune) : Process → List Alias → List Alias → Type 0 where
  opened : {site : Sites} {s : Process} → IsReady dune site s → Session dune s [] []
  aliased :
      {s s' : Process} {live dead : List Alias} (ptr size out : ℕ)
      → Session dune s live dead
      → IsBacked dune ptr size
      → vremap_map dune true ptr size s ≡ ok (vrem_ok, some out) s'
      → Session dune s' (record { ptr = ptr; out = out; size = size } ∷ live) dead
  refused :
      {s s' : Process} {live dead : List Alias} (ptr size : ℕ) (code : ℤ)
      → Session dune s live dead
      → IsBacked dune ptr size
      → vremap_map dune true ptr size s ≡ ok (code, none) s'
      → Session dune s' live dead
  resolved :
      {s s' : Process} {live dead : List Alias} {r : ℤ × Option ℕ} (p : ℕ)
      → Session dune s live dead
      → vremap_resolve dune p s ≡ ok r s'
      → Session dune s' live dead
  revoked :
      {s : Process} {m' : Machine} {live rest dead : List Alias} (x : Alias)
      → Session dune s live dead
      → Picked x live rest
      → virtual_invalidate dune x.out (npages_of x) s.machine ≡ ok tt m'
      → Session dune (record s { machine = m' }) rest (x ∷ dead)
  resized :
      {s : Process} {live rest dead : List Alias} (x : Alias) (size : ℕ)
      → Session dune s live dead
      → Picked x live rest
      → IsBacked dune x.ptr size
      → num_spanned_pages x.ptr size ≡ npages_of x
      → Session dune s (resize x size ∷ rest) dead
  shrunk :
      {s : Process} {m' : Machine} {live rest dead : List Alias} (x : Alias) (size : ℕ)
      → Session dune s live dead
      → Picked x live rest
      → IsBacked dune x.ptr size
      → num_spanned_pages x.ptr size < npages_of x
      → virtual_invalidate dune
          (tail_of x size).out
          (npages_of x - num_spanned_pages x.ptr size)
          s.machine
        ≡ ok tt m'
      → Session dune (record s { machine = m' }) (resize x size ∷ rest) (tail_of x size ∷ dead)

-- The pages of the alias are not the allocator's.
pub record Reserved (s : Process) (x : Alias) : Type 0 where
  pub fits : page_base x.out + npages_of x * pgsize ≤ 2 ^ 48
  pub unowned : (a : ℕ) → InAlias x a → owns s.list a ≡ false

-- Every page of the alias is mapped, and every byte is one of the memory at `ptr`.
pub record Holds (dune : Dune) (s : Process) (x : Alias) : Type 0 where
  pub reserved : Reserved s x
  pub backed : IsBacked dune x.ptr x.size
  pub not_null : x.out ≢ 0
  pub offset : x.out % pgsize ≡ x.ptr % pgsize
  pub inside : (i : ℕ) → i < x.size → InAlias x (x.out + i)
  pub mapped : (k : ℕ) → k < npages_of x → IsMapped dune s.machine (page_base x.out + k * pgsize)
  pub maps :
      (i : ℕ) → i < x.size → pt_resolve dune s.machine (x.out + i) ≡ some (dune.va_to_pa x.ptr + i)

-- No address of the alias is translated.
pub record Gone (dune : Dune) (s : Process) (x : Alias) : Type 0 where
  pub reserved : Reserved s x
  pub absent : (a : ℕ) → InAlias x a → pt_resolve_page dune s.machine a ≡ some (0, 0)

abbrev pub AllHold : Dune → Process → List Alias → Type 0
AllHold dune s [] = Unit
AllHold dune s (x ∷ xs) = Holds dune s x × AllHold dune s xs

abbrev pub AllGone : Dune → Process → List Alias → Type 0
AllGone dune s [] = Unit
AllGone dune s (x ∷ xs) = Gone dune s x × AllGone dune s xs

-- No address lies in a page of both.
abbrev pub Apart : Alias → Alias → Type 0
Apart x y = (a : ℕ) → InAlias x a → ¬ InAlias y a

abbrev pub ApartFrom : Alias → List Alias → Type 0
ApartFrom x [] = Unit
ApartFrom x (y ∷ ys) = Apart x y × ApartFrom x ys

abbrev pub AllApart : List Alias → Type 0
AllApart [] = Unit
AllApart (x ∷ xs) = ApartFrom x xs × AllApart xs

-- What every step keeps: nothing new is owned, and no translation changes of an address that `Kept`
-- holds of.
pub record Continues (dune : Dune) (s s' : Process) (Kept : ℕ → Type 0) : Type 0 where
  pub site : Sites
  pub ready : IsReady dune site s'
  pub before : (a : ℕ) → owns s'.list a ≡ true → owns s.list a ≡ true
  pub others :
      (a : ℕ)
      → a < 2 ^ 48
      → owns s.list a ≡ false
      → Kept a
      → pt_resolve_page dune s'.machine a ≡ pt_resolve_page dune s.machine a
