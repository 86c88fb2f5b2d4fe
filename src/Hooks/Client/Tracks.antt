-- ===== src/Hooks/Client/Tracks.antt =====
-- Which entries of a ledger are aliases.
use dangless_malloc.Prelude.{◌≡◌, ◌⊎◌, inl, inr, List, [], ◌∷◌}
use dangless_malloc.Dune.{Dune}
use dangless_malloc.VirtualRemap.{Process}
use dangless_malloc.VirtualRemap.Session.{
  Alias, Picked, here, there, Holds, Gone, AllHold, AllGone, Apart, ApartFrom, AllApart,
}

-- Every entry of the first list is in the second, in this order, or is no alias.
pub data Tracks : List Alias → List Alias → Type 0 where
  nothing : Tracks [] []
  alias : {x : Alias} {xs ys : List Alias} → Tracks xs ys → Tracks (x ∷ xs) (x ∷ ys)
  block : {x : Alias} {xs ys : List Alias} → x.out ≡ x.ptr → Tracks xs ys → Tracks (x ∷ xs) ys
  beside : {y : Alias} {xs ys : List Alias} → Tracks xs ys → Tracks xs (y ∷ ys)

-- What is left of both lists when an entry is taken out.
pub data Left (x : Alias) (rest live : List Alias) : Type 0 where
  an_alias : {live' : List Alias} → Picked x live live' → Tracks rest live' → Left x rest live
  no_alias : x.out ≡ x.ptr → Tracks rest live → Left x rest live

Left-alias :
    {x y : Alias} {rest live : List Alias} → Left x rest live → Left x (y ∷ rest) (y ∷ live)
Left-alias (an_alias picked t) = an_alias (there picked) (alias t)
Left-alias (no_alias e t) = no_alias e (alias t)

Left-block :
    {x y : Alias} {rest live : List Alias}
    → y.out ≡ y.ptr
    → Left x rest live
    → Left x (y ∷ rest) live
Left-block e (an_alias picked t) = an_alias picked (block e t)
Left-block e (no_alias e' t) = no_alias e' (block e t)

Left-beside : {x y : Alias} {rest live : List Alias} → Left x rest live → Left x rest (y ∷ live)
Left-beside (an_alias picked t) = an_alias (there picked) (beside t)
Left-beside (no_alias e t) = no_alias e (beside t)

pub Picked-Tracks :
    {x : Alias} {held rest live : List Alias}
    → Tracks held live
    → Picked x held rest
    → Left x rest live
Picked-Tracks nothing p = elim p [ ]
Picked-Tracks (alias t) here = an_alias here t
Picked-Tracks (alias t) (there p) = Left-alias (Picked-Tracks t p)
Picked-Tracks (block e t) here = no_alias e t
Picked-Tracks (block e t) (there p) = Left-block e (Picked-Tracks t p)
Picked-Tracks (beside t) p = Left-beside (Picked-Tracks t p)

-- An entry that is left out of the first list alone.
pub Tracks-rest :
    {x : Alias} {held rest live : List Alias}
    → Tracks held live
    → Picked x held rest
    → Tracks rest live
Tracks-rest nothing p = elim p [ ]
Tracks-rest (alias t) here = beside t
Tracks-rest (alias t) (there p) = alias (Tracks-rest t p)
Tracks-rest (block e t) here = t
Tracks-rest (block e t) (there p) = block e (Tracks-rest t p)
Tracks-rest (beside t) p = beside (Tracks-rest t p)

-- Each entry is no alias, or its bytes are translated to those of its block.
abbrev pub AllServed : Dune → Process → List Alias → Type 0
AllServed dune s [] = Unit
AllServed dune s (x ∷ xs) = ((x.out ≡ x.ptr) ⊎ Holds dune s x) × AllServed dune s xs

-- Each entry is no alias, or no address in its pages is translated.
abbrev pub AllRevoked : Dune → Process → List Alias → Type 0
AllRevoked dune s [] = Unit
AllRevoked dune s (x ∷ xs) = ((x.out ≡ x.ptr) ⊎ Gone dune s x) × AllRevoked dune s xs

-- No two entries that are aliases share a page.
abbrev pub DistinctFrom : Alias → List Alias → Type 0
DistinctFrom x [] = Unit
DistinctFrom x (y ∷ ys) = ((y.out ≡ y.ptr) ⊎ Apart x y) × DistinctFrom x ys

abbrev pub AllDistinct : List Alias → Type 0
AllDistinct [] = Unit
AllDistinct (x ∷ xs) = ((x.out ≡ x.ptr) ⊎ DistinctFrom x xs) × AllDistinct xs

pub Tracks-AllServed :
    (dune : Dune) (s : Process) {xs ys : List Alias}
    → Tracks xs ys
    → AllHold dune s ys
    → AllServed dune s xs
Tracks-AllServed dune s nothing h = tt
Tracks-AllServed dune s (alias t) h = (inr h.0, Tracks-AllServed dune s t h.1)
Tracks-AllServed dune s (block e t) h = (inl e, Tracks-AllServed dune s t h)
Tracks-AllServed dune s (beside t) h = Tracks-AllServed dune s t h.1

pub Tracks-AllRevoked :
    (dune : Dune) (s : Process) {xs ys : List Alias}
    → Tracks xs ys
    → AllGone dune s ys
    → AllRevoked dune s xs
Tracks-AllRevoked dune s nothing h = tt
Tracks-AllRevoked dune s (alias t) h = (inr h.0, Tracks-AllRevoked dune s t h.1)
Tracks-AllRevoked dune s (block e t) h = (inl e, Tracks-AllRevoked dune s t h)
Tracks-AllRevoked dune s (beside t) h = Tracks-AllRevoked dune s t h.1

Tracks-DistinctFrom :
    (x : Alias) {xs ys : List Alias} → Tracks xs ys → ApartFrom x ys → DistinctFrom x xs
Tracks-DistinctFrom x nothing h = tt
Tracks-DistinctFrom x (alias t) h = (inr h.0, Tracks-DistinctFrom x t h.1)
Tracks-DistinctFrom x (block e t) h = (inl e, Tracks-DistinctFrom x t h)
Tracks-DistinctFrom x (beside t) h = Tracks-DistinctFrom x t h.1

pub Tracks-AllDistinct : {xs ys : List Alias} → Tracks xs ys → AllApart ys → AllDistinct xs
Tracks-AllDistinct nothing h = tt
Tracks-AllDistinct (alias t) h = (inr (Tracks-DistinctFrom _ t h.0), Tracks-AllDistinct t h.1)
Tracks-AllDistinct (block e t) h = (inl e, Tracks-AllDistinct t h)
Tracks-AllDistinct (beside t) h = Tracks-AllDistinct t h.1
