-- ===== src/Page/Tests.antt =====
-- Page counts at concrete addresses.
use dangless_malloc.Prelude.{◌+◌, ◌-◌, ◌/◌, ◌%◌, ◌≡◌, refl, arith}
use dangless_malloc.Page.{
  pgsize, pg_index, round_up, num_spanned_pages, num_spanned_pages_exact, num_spanned_pages_offset,
}

-- 0x20 bytes that cross a page boundary.
crossing : num_spanned_pages 0x1ff0 0x20 ≡ 2
unfolding num_spanned_pages
crossing = refl

num_spanned_pages_exact_example :
    num_spanned_pages 0x1ff0 0x20 ≡ pg_index (0x1ff0 + 0x20 - 1) - pg_index 0x1ff0 + 1
num_spanned_pages_exact_example = num_spanned_pages_exact 0x1ff0 0x20 (omega arith) (omega arith)

num_spanned_pages_offset_example :
    num_spanned_pages 0x1ff0 0x20 ≡ round_up (0x1ff0 % pgsize + 0x20) pgsize / pgsize
num_spanned_pages_offset_example = num_spanned_pages_offset 0x1ff0 0x20 (omega arith) (omega arith)
