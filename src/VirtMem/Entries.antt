-- ===== src/VirtMem/Entries.antt =====
-- What the masks read from an entry that pt_map_page writes, and from an address at each level.
use dangless_malloc.Prelude.{
  ℕ, zero, suc, ◌+◌, ◌-◌, ◌*◌, ◌/◌, ◌%◌, ◌^◌, ◌≤◌, ◌<◌, ◌≡◌, refl, ap, ap₂, subst, ◌∙◌, true, false,
  arith, bit_and, bit_or,
}
use dangless_malloc.Prelude.Bits.{
  bit_and-shift, bit_and-ones, bit_and-one, bit_and-bit_or, bit_or-zero, bit_or_digits,
}
use native.Mathlib.Decide.{ℕ_discrete}
use dangless_malloc.Page.{pgsize, page_base}
use dangless_malloc.VirtMem.{flag_isset, pte_v, pte_ps, pte_frame, pt_level_offset}

bit_and-pte_frame : (w : ℕ) → bit_and w pte_frame ≡ w / 2 ^ 12 % 2 ^ 40 * 2 ^ 12
bit_and-pte_frame w =
    bit_and-shift 12 w (2 ^ 40 - 1) ∙ ap (λ b. b * 2 ^ 12) (bit_and-ones 40 (w / 2 ^ 12))

bit_and-pte_ps : (w : ℕ) → bit_and w pte_ps ≡ w / 2 ^ 7 % 2 * 2 ^ 7
bit_and-pte_ps w = bit_and-shift 7 w 1 ∙ ap (λ b. b * 2 ^ 7) (bit_and-one (w / 2 ^ 7))

-- The frame of an entry is a whole page below 2 ^ 52.
pub record IsFrame (pa : ℕ) : Type 0 where
  pub aligned : pa % pgsize ≡ 0
  pub fits : pa < 2 ^ 52

-- Flags that touch neither the frame bits nor the page-size bit.
pub record IsFlags (flags : ℕ) : Type 0 where
  pub no_frame : bit_and flags pte_frame ≡ 0
  pub no_ps : bit_and flags pte_ps ≡ 0

abbrev pub entry_of : ℕ → ℕ → ℕ
entry_of pa flags = bit_or (bit_or pa flags) pte_v

pub entry_of-valid : (pa flags : ℕ) → flag_isset (entry_of pa flags) pte_v ≡ true
unfolding flag_isset
entry_of-valid pa flags =
    ground (arith, bit_and-one (entry_of pa flags), bit_or_digits (bit_or pa flags) 1)

entry_of_mask :
    (pa flags mask : ℕ)
    → bit_and flags mask ≡ 0
    → bit_and pte_v mask ≡ 0
    → bit_and (entry_of pa flags) mask ≡ bit_and pa mask
entry_of_mask pa flags mask h k =
    bit_and-bit_or (bit_or pa flags) pte_v mask
    ∙ ap₂ bit_or (bit_and-bit_or pa flags mask ∙ ap (bit_or (bit_and pa mask)) h) k
    ∙ bit_or-zero _
    ∙ bit_or-zero _

pub entry_of-frame :
    {pa flags : ℕ} → IsFrame pa → IsFlags flags → bit_and (entry_of pa flags) pte_frame ≡ pa
entry_of-frame {pa} {flags} f g =
    entry_of_mask pa flags pte_frame g.no_frame refl
    ∙ bit_and-pte_frame pa
    ∙ omega (arith, f.aligned, f.fits)

pub entry_of-ps :
    {pa flags : ℕ} → IsFrame pa → IsFlags flags → flag_isset (entry_of pa flags) pte_ps ≡ false
unfolding flag_isset
entry_of-ps {pa} {flags} f g =
    let clear : bit_and (entry_of pa flags) pte_ps ≡ 0 =
      entry_of_mask pa flags pte_ps g.no_ps refl ∙ bit_and-pte_ps pa ∙ omega (arith, f.aligned) in
    rw clear

-- The part of the address space that the entry of level `suc k` for `va` maps, by its number.
pub region : ℕ → ℕ → ℕ
region va zero = va / pgsize % 2 ^ 36
region va (suc k) = region va k / 512

abbrev pub index : ℕ → ℕ → ℕ
index va k = region va k % 512

pub pt_level_offset_lem : (va k : ℕ) → k < 4 → pt_level_offset va (suc k) ≡ index va k
unfolding pt_level_offset region
pt_level_offset_lem va zero h = bit_and-ones 9 (va / 2 ^ 12) ∙ omega arith
pt_level_offset_lem va (suc zero) h = bit_and-ones 9 (va / 2 ^ 21) ∙ omega arith
pt_level_offset_lem va (suc (suc zero)) h = bit_and-ones 9 (va / 2 ^ 30) ∙ omega arith
pt_level_offset_lem va (suc (suc (suc zero))) h = bit_and-ones 9 (va / 2 ^ 39) ∙ omega arith
pt_level_offset_lem va (suc (suc (suc (suc k)))) h = absurd (omega arith)

-- The whole address space is one region of the level above the root.
pub region_top : (va : ℕ) → region va 4 ≡ 0
unfolding region
region_top va = omega arith

pub region_split : (va k : ℕ) → region va k ≡ region va (suc k) * 512 + index va k
unfolding region
region_split va k = omega arith

-- Addresses in one page below 2 ^ 48 are those with the same region of level 1.
pub region_page :
    (va va' : ℕ)
    → va < 2 ^ 48
    → va' < 2 ^ 48
    → region va 0 ≡ region va' 0
    → va / pgsize ≡ va' / pgsize
unfolding region
region_page va va' h h' e = omega arith

-- A region determines those above it.
pub region_up : (va va' k j : ℕ) → k ≤ j → region va k ≡ region va' k → region va j ≡ region va' j
unfolding region
region_up va va' zero zero h e = e
region_up va va' (suc k) zero h e = absurd (omega arith)
region_up va va' k (suc j) h e = elim (ℕ_discrete k (suc j)) [
  | yes same ↦ subst (λ n. region va n ≡ region va' n) same e
  | no below ↦ ap (λ r. r / 512) (region_up va va' k j (omega arith) e)
]

-- The pages from `va` on have consecutive numbers.
pub region_add :
    (va k : ℕ)
    → va % pgsize ≡ 0
    → va + k * pgsize < 2 ^ 48
    → region (va + k * pgsize) 0 ≡ region va 0 + k
unfolding region
region_add va k h h' = omega arith

-- Below 2 ^ 48 an address in one of the pages from `va` on lies in their range.
pub region_range :
    (va n k a : ℕ)
    → va % pgsize ≡ 0
    → va + n * pgsize ≤ 2 ^ 48
    → a < 2 ^ 48
    → k < n
    → region a 0 ≡ region va 0 + k
    → (va ≤ a) × (a < va + n * pgsize)
unfolding region
region_range va n k a aligned fits low lt e = omega arith

-- An address and the boundary of its page lie in one page.
pub region-page_base : (a : ℕ) → region (page_base a) 0 ≡ region a 0
unfolding region
region-page_base a = omega arith

pub region_at :
    (va n b : ℕ)
    → va % pgsize ≡ 0
    → va + n * pgsize ≤ 2 ^ 48
    → b < n * pgsize
    → region (va + b) 0 ≡ region va 0 + b / pgsize
unfolding region
region_at va n b aligned fits h = omega arith

-- The pages that one level-1 table maps: as long as the index stays in the table.
pub region_beside :
    (va i : ℕ)
    → va % pgsize ≡ 0
    → va + i * pgsize < 2 ^ 48
    → index va 0 + i < 512
    → (region va 1 ≡ region (va + i * pgsize) 1) × (index (va + i * pgsize) 0 ≡ index va 0 + i)
unfolding region
region_beside va i aligned fits h = omega arith
