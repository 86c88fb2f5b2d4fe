-- ===== src/VirtMem.antt =====
-- Page tables, sources/src/virtmem.c and sources/include/dangless/virtmem.h: the walk, the
-- translation of an address, mapping and unmapping. A level is its number, PT_L1 = 1 to PT_L4 = 4.
pub mod Entries
pub mod Tree
pub mod Walk
pub mod Change
pub mod Create
pub mod Leaf
pub mod Map
pub mod Unmap
pub mod Region
pub mod Undo
pub mod Place
pub mod Tests
use dangless_malloc.Prelude.{
  ℕ, zero, suc, ◌+◌, ◌-◌, ◌*◌, ◌/◌, ◌%◌, ◌^◌, Bool, not, ◌&&◌, ◌||◌, Option, none, some, ◌==◌,
  if◌then◌else◌, bit_and, bit_or, add64, ℤ, pos, negsuc, is_negative, ok, fault, Cmd, pure, assert,
  ◌>>=◌, ◌>>◌, ◌∷◌,
}
use mathlib.Core.Option
use dangless_malloc.Page.{pgshift, pgsize}
use dangless_malloc.Dune.{Dune, Machine, pt_paddr2vaddr, pp_zalloc}

-- `FLAG_ISSET(BITSET, BIT)`
unfoldable pub flag_isset : ℕ → ℕ → Bool
flag_isset bitset bit = not (bit_and bitset bit == 0)

-- `enum pte_flags` and the frame masks.
abbrev pub pte_v : ℕ
pte_v = 0x1

abbrev pub pte_w : ℕ
pte_w = 0x2

abbrev pub pte_ps : ℕ
pte_ps = 0x80

abbrev pub pte_nx : ℕ
pte_nx = 0x8000000000000000

abbrev pub pte_frame : ℕ
pte_frame = 0x000ffffffffff000

abbrev pub pte_frame_2m : ℕ
pte_frame_2m = 0x000fffffffe00000

abbrev pub pte_frame_1g : ℕ
pte_frame_1g = 0x000fffffc0000000

abbrev pub pte_invalidated : ℕ
pte_invalidated = 0xdead00

abbrev pub pt_bits_per_level : ℕ
pt_bits_per_level = 9

abbrev pub pt_num_entries : ℕ
pt_num_entries = 2 ^ pt_bits_per_level

unfoldable pub pt_level_shift : ℕ → ℕ
pt_level_shift level = pgshift + (level - 1) * pt_bits_per_level

unfoldable pub pt_num_mapped_pages : ℕ → ℕ
pt_num_mapped_pages level = 2 ^ ((level - 1) * pt_bits_per_level)

unfoldable pub pt_level_offset : ℕ → ℕ → ℕ
unfolding pt_level_shift
pt_level_offset va level = bit_and (va / 2 ^ pt_level_shift level) (pt_num_entries - 1)

unfoldable pub get_page_offset : ℕ → ℕ → ℕ
unfolding pt_level_shift
get_page_offset addr level = bit_and addr (2 ^ pt_level_shift level - 1)

-- Entries are 8 bytes: `&((pte_t *)base)[pt_level_offset(va, level)]`.
unfoldable pub entry_at : ℕ → ℕ → ℕ → ℕ
unfolding pt_level_offset
entry_at base va level = add64 base (8 * pt_level_offset va level)

unfoldable pub write_pte : ℕ → ℕ → Cmd Machine (Unit {0})
write_pte ppte pte m = ok tt (record m { mem = λ a. if a == ppte then pte else m.mem a })

unfoldable pub tlb_flush_one : ℕ → Cmd Machine (Unit {0})
tlb_flush_one addr m = ok tt (record m { flushed = addr ∷ m.flushed })

-- The test of WALK_LEVEL: whether the walk ends at the entry `pte` of `level`.
unfoldable pub walk_stops : ℕ → ℕ → ℕ → Bool
unfolding flag_isset
walk_stops requested level pte =
    not (flag_isset pte pte_v) || (not (level == 1) && flag_isset pte pte_ps) || requested == level

module _ (dune : Dune) where
  -- WALK_LEVEL for `level` and those below it, from the table at `paddr`; `ppte` is the entry that
  -- the level above ended with. `none` is the failed assertion of `pt_paddr2vaddr`.
  unfoldable pub walk_levels : Machine → ℕ → ℕ → ℕ → ℕ → ℕ → Option (ℕ × ℕ)
  unfolding entry_at walk_stops pt_paddr2vaddr
  walk_levels m va requested zero paddr ppte = some (1, ppte)
  walk_levels m va requested (suc l) paddr ppte = elim (pt_paddr2vaddr dune paddr) [
    | none ↦ none
    | some base ↦
        let ppte' = entry_at base va (suc l) in
        let rest = walk_levels m va requested l (bit_and (m.mem ppte') pte_frame) ppte' in
        if walk_stops requested (suc l) (m.mem ppte') then some (suc l, ppte') else rest
  ]

  -- `pt_walk`: the level and the address of the last entry that was read.
  unfoldable pub pt_walk : Machine → ℕ → ℕ → Option (ℕ × ℕ)
  unfolding walk_levels
  pt_walk m va requested = walk_levels m va requested 4 m.cr3 0

  -- The `switch` of `pt_resolve_page` at a present entry. `none` is an assertion that fails.
  unfoldable pub frame_of : ℕ → ℕ → Option ℕ
  unfolding flag_isset
  frame_of level pte =
      if level == 1
      then some (bit_and pte pte_frame)
      else if level == 2
      then (if flag_isset pte pte_ps then some (bit_and pte pte_frame_2m) else none)
      else if level == 3
      then (if flag_isset pte pte_ps then some (bit_and pte pte_frame_1g) else none)
      else none

  -- `pt_resolve_page`: address of the page and its level, (0, 0) if there is none.
  unfoldable pub pt_resolve_page : Machine → ℕ → Option (ℕ × ℕ)
  unfolding pt_walk frame_of
  pt_resolve_page m p = elim (pt_walk m p 1) [
    | none ↦ none
    | some (level, ppte) ↦
        if flag_isset (m.mem ppte) pte_v
        then Option.map (λ pa. (pa, level)) (frame_of level (m.mem ppte))
        else some (0, 0)
  ]

  -- `pt_resolve`
  unfoldable pub pt_resolve : Machine → ℕ → Option ℕ
  unfolding pt_resolve_page get_page_offset
  pt_resolve m p =
      Option.map (λ (pa, level). if pa == 0 then 0 else add64 pa (get_page_offset p level))
        (pt_resolve_page m p)

  -- `pt_map_page_create_level` behind the call of the allocator, which returned `ptpa`.
  unfoldable pub hang_table : ℕ → ℕ → ℕ → ℕ → ℕ → Cmd Machine (Option ℕ)
  unfolding entry_at write_pte
  hang_table ppte va level flags ptpa m =
      if ptpa == 0
      then ok none m
      else (let m' = record m {
        mem = λ a. if a == ppte then bit_or (bit_or ptpa flags) pte_v else m.mem a;
      } in
          elim (pt_paddr2vaddr dune ptpa) [
            | none ↦ fault
            | some base ↦ ok (some (entry_at base va level)) m'
          ])

  -- `pt_map_page_create_level`: the new entry pointer, `none` for the result -1.
  unfoldable pub pt_map_page_create_level : ℕ → ℕ → ℕ → ℕ → Cmd Machine (Option ℕ)
  unfolding hang_table
  pt_map_page_create_level ppte va level flags = do
    ptpa ← pp_zalloc dune 1
    hang_table ppte va level flags ptpa

  -- The `switch` of `pt_map_page`: CREATE_LEVEL for `level` and those below it.
  unfoldable pub create_levels : ℕ → ℕ → ℕ → ℕ → Cmd Machine (Option ℕ)
  unfolding pt_map_page_create_level
  create_levels zero ppte va flags = pure (some ppte)
  create_levels (suc l) ppte va flags = do
    created ← pt_map_page_create_level ppte va (suc l) flags
    elim created [ none ↦ pure none | some ppte' ↦ create_levels l ppte' va flags ]

  unfoldable pub load_pte : ℕ → Cmd Machine ℕ
  load_pte ppte m = ok (m.mem ppte) m

  unfoldable pub walk_cmd : ℕ → ℕ → Cmd Machine (ℕ × ℕ)
  walk_cmd va requested m = elim (pt_walk m va requested) [ none ↦ fault | some r ↦ ok r m ]

  -- The end of `pt_map_page`: the last entry is written.
  unfoldable pub map_leaf : ℕ → ℕ → ℕ → ℕ → Cmd Machine ℤ
  unfolding load_pte flag_isset tlb_flush_one write_pte
  map_leaf pa va flags ppte = do
    old ← load_pte ppte
    (if flag_isset old pte_v then tlb_flush_one va else pure tt)
    write_pte ppte (bit_or (bit_or pa flags) pte_v)
    pure (pos 0)

  -- `pt_map_page`
  unfoldable pub pt_map_page : ℕ → ℕ → ℕ → Cmd Machine ℤ
  unfolding walk_cmd load_pte create_levels map_leaf
  pt_map_page pa va flags = do
    assert (pa % pgsize == 0)
    assert (va % pgsize == 0)
    (level, ppte) ← walk_cmd va 1
    pte ← load_pte ppte
    assert (not (flag_isset pte pte_v))
    last ← create_levels (level - 1) ppte va flags
    elim last [ none ↦ pure (negsuc 0) | some ppte' ↦ map_leaf pa va flags ppte' ]

  -- `pt_unmap_page`
  unfoldable pub pt_unmap_page : ℕ → ℕ → Cmd Machine ℤ
  unfolding walk_cmd load_pte write_pte tlb_flush_one flag_isset
  pt_unmap_page va on_level = do
    (level, ppte) ← walk_cmd va on_level
    (if level == on_level
        then (do
          old ← load_pte ppte
          write_pte ppte 0
          (if flag_isset old pte_v then tlb_flush_one va else pure tt)
          pure (pos 0))
        else pure (negsuc 0))

  -- The loop at `fail_unmap`: `pages` pages from `offset` on.
  unfoldable pub unmap_pages : ℕ → ℕ → ℕ → Cmd Machine (Unit {0})
  unfolding pt_unmap_page
  unmap_pages zero va offset = pure tt
  unmap_pages (suc pages) va offset = do
    pt_unmap_page (add64 va offset) 1
    unmap_pages pages va (offset + pgsize)

  -- The loop of `pt_map_region`, with `pages` rounds left: the result, and where it stopped.
  unfoldable pub map_pages : ℕ → ℕ → ℕ → ℕ → ℕ → Cmd Machine (ℤ × ℕ)
  unfolding pt_map_page
  map_pages zero pa va offset flags = pure (pos 0, offset)
  map_pages (suc pages) pa va offset flags = do
    result ← pt_map_page (add64 pa offset) (add64 va offset) flags
    (if is_negative result
        then pure (result, offset)
        else map_pages pages pa va (offset + pgsize) flags)

  -- `pt_map_region`
  unfoldable pub pt_map_region : ℕ → ℕ → ℕ → ℕ → Cmd Machine ℤ
  unfolding map_pages unmap_pages
  pt_map_region pa va size flags = do
    assert (pa % pgsize == 0)
    assert (va % pgsize == 0)
    assert (size % pgsize == 0)
    (result, max_offset) ← map_pages (size / pgsize) pa va 0 flags
    (if is_negative result
        then (do unmap_pages (max_offset / pgsize) va 0; pure (negsuc 0))
        else pure (pos 0))
