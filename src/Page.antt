-- ===== src/Page.antt =====
-- Page arithmetic: the constants and macros of sources/include/dangless/platform/mem.h, and the
-- rounding macros of sources/include/dangless/common/util.h, over 64-bit words.
pub mod Tests
use dangless_malloc.Prelude.{
  ℕ, ◌+◌, ◌-◌, ◌*◌, ◌/◌, ◌%◌, ◌^◌, ◌≤◌, ◌<◌, ◌≡◌, arith, Bool, ◌==◌, word_size, add64, sub64, mul64,
}

abbrev pub pgshift : ℕ
pgshift = 12

abbrev pub pgsize : ℕ
pgsize = 2 ^ pgshift

-- `ROUND_DOWN(A, N)`; the difference of a number and its remainder does not wrap.
unfoldable pub round_down : ℕ → ℕ → ℕ
round_down a n = a - a % n

-- The page of an address.
abbrev pub page_base : ℕ → ℕ
page_base p = p - p % pgsize

-- `ROUND_UP(A, N)` on `uintptr_t`.
unfoldable pub round_up : ℕ → ℕ → ℕ
round_up a n = mul64 (sub64 (add64 a n) 1 / n) n

-- `PG_OFFSET(BASE, NPAGES)`
unfoldable pub pg_offset : ℕ → ℕ → ℕ
pg_offset base npages = add64 base (mul64 npages pgsize)

-- `PG_INDEX(PTR)`
unfoldable pub pg_index : ℕ → ℕ
pg_index p = p / pgsize

-- `PG_IS_SAME(PTR1, PTR2)`
unfoldable pub pg_is_same : ℕ → ℕ → Bool
unfolding pg_index
pg_is_same p q = pg_index p == pg_index q

-- `NUM_SPANNED_PAGES(ADDR, SIZE)`
unfoldable pub num_spanned_pages : ℕ → ℕ → ℕ
unfolding round_up round_down
num_spanned_pages addr size =
    sub64 (round_up (add64 addr size) pgsize) (round_down addr pgsize) / pgsize

-- Away from the end of the address space, a rounded address is the page boundary at or below it.
pub round_down_page :
    (a : ℕ)
    → (round_down a pgsize % pgsize ≡ 0)
      × (round_down a pgsize ≤ a)
      × (a < round_down a pgsize + pgsize)
unfolding round_down
round_down_page a = omega arith

-- Below the last page, a rounded-up address is the page boundary at or above it.
pub round_up_page :
    (a : ℕ)
    → a + pgsize < word_size
    → (round_up a pgsize % pgsize ≡ 0) × (a ≤ round_up a pgsize) × (round_up a pgsize < a + pgsize)
unfolding round_up
round_up_page a h = omega arith

-- For a range of size > 0 bytes that ends more than a page below 2^64, NUM_SPANNED_PAGES
-- counts the pages from that of the first byte up to that of the last.
pub num_spanned_pages_exact :
    (addr size : ℕ)
    → 0 < size
    → addr + size + pgsize < word_size
    → num_spanned_pages addr size ≡ pg_index (addr + size - 1) - pg_index addr + 1
unfolding num_spanned_pages pg_index
num_spanned_pages_exact addr size pos fits = omega arith

-- For a range of size > 0 bytes that ends more than a page below 2^64, NUM_SPANNED_PAGES
-- equals the number of pages that vremap_map asserts it to be, which is computed from the
-- offset of the address in its page.
pub num_spanned_pages_offset :
    (addr size : ℕ)
    → 0 < size
    → addr + size + pgsize < word_size
    → num_spanned_pages addr size ≡ round_up (addr % pgsize + size) pgsize / pgsize
unfolding num_spanned_pages
num_spanned_pages_offset addr size pos fits = omega arith

-- The counted pages hold the range and less than a page more.
pub num_spanned_pages_bounds :
    (addr size : ℕ)
    → 0 < size
    → addr + size + pgsize < word_size
    → (0 < num_spanned_pages addr size)
      × (addr % pgsize + size ≤ num_spanned_pages addr size * pgsize)
      × (num_spanned_pages addr size * pgsize < addr % pgsize + size + pgsize)
unfolding num_spanned_pages
num_spanned_pages_bounds addr size some_bytes fits = omega arith
