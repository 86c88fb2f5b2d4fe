-- ===== src/Dump/Summary.antt =====
-- dump_pt_summary: its lines describe the whole table, each entry once.
use dangless_malloc.Prelude.{
  ℕ, zero, suc, ◌+◌, ◌-◌, ◌*◌, ◌^◌, ◌≤◌, ◌<◌, ◌≡◌, refl, sym, ap, subst₂, ◌∙◌, ◌⊎◌, inl, inr, Bool,
  true, false, not, List, [], ◌∷◌, ltb, ◌==◌, arith,
}
use native.Mathlib.Decide.{ℕ_discrete}
use dangless_malloc.VirtMem.{pt_num_entries, pt_level_shift}
use dangless_malloc.Dump.{
  Region, entry_address, region_before, kind_changed, summarise, dump_pt_summary,
}

-- Whether an entry is other than 0.
abbrev pub is_mapped : (ℕ → ℕ) → ℕ → Bool
is_mapped pt i = not (pt i == 0)

-- The entries from number `b` up to `e` are all of one kind.
abbrev pub AllKind : (ℕ → ℕ) → Bool → ℕ → ℕ → Type 0
AllKind pt mapped b e = (k : ℕ) → b ≤ k → k < e → is_mapped pt k ≡ mapped

-- A line for the entries from number `b` up to `e`.
abbrev pub region_of : ℕ → Bool → ℕ → ℕ → Region
region_of shift mapped b e = record {
  mapped = mapped;
  begin = b * 2 ^ shift;
  end = e * 2 ^ shift;
  entries = e - b;
}

-- The lines describe the entries from number `b` to the last. Each is for some entries, all of one
-- kind; the first is for the kind that is named, and the next is for the other kind.
pub data Tiles (pt : ℕ → ℕ) (shift : ℕ) : Bool → ℕ → List Region → Type 0 where
  last :
      {mapped : Bool} {b : ℕ}
      → b < pt_num_entries
      → AllKind pt mapped b pt_num_entries
      → Tiles pt shift mapped b (region_of shift mapped b pt_num_entries ∷ [])
  more :
      {mapped : Bool} {b : ℕ} {rest : List Region} (c : ℕ)
      → b < c
      → AllKind pt mapped b c
      → Tiles pt shift (not mapped) c rest
      → Tiles pt shift mapped b (region_of shift mapped b c ∷ rest)

-- An entry is of the kind of those before it, or ends their line.
kind_change :
    (mapped kind : Bool) (count : ℕ)
    → 0 < count
    → ((kind ≡ mapped) × (kind_changed mapped kind count ≡ false))
      ⊎ ((kind ≡ not mapped) × (kind_changed mapped kind count ≡ true))
kind_change true true count some_before = inl (refl, refl)
kind_change true false count some_before = inr (refl, ground (arith, some_before))
kind_change false true count some_before = inr (refl, ground (arith, some_before))
kind_change false false count some_before = inl (refl, refl)

unchanged : (kind : Bool) → kind_changed false kind 0 ≡ false
unchanged true = refl
unchanged false = refl

-- One entry more of a kind.
AllKind-suc :
    (pt : ℕ → ℕ) {mapped : Bool} {b b' i : ℕ}
    → AllKind pt mapped b i
    → b ≡ b'
    → is_mapped pt i ≡ mapped
    → AllKind pt mapped b' (i + 1)
AllKind-suc pt {i = i} kind same now k from to = elim (ℕ_discrete k i) [
  | yes at ↦ ap (is_mapped pt) at ∙ now
  | no before ↦ kind k (omega (arith, same)) (omega (arith, before))
]

module _ (pt : ℕ → ℕ) (shift : ℕ)
    (exact : (i : ℕ) → i ≤ 512 → entry_address shift i ≡ i * 2 ^ shift) where
  -- The line for the `count` entries before number `i`.
  region_before_lem :
      (mapped : Bool) (i count : ℕ)
      → count ≤ i
      → i ≤ 512
      → region_before shift mapped i count ≡ region_of shift mapped (i - count) i
  region_before_lem mapped i count some_before bound =
      let size : i - (i - count) ≡ count = omega arith in
      rw (exact i bound, exact (i - count) (omega arith)) (rw size refl)

  summarise-Tiles :
      (n i : ℕ) (mapped : Bool) (count : ℕ)
      → n + i ≡ 512
      → 0 < count
      → count ≤ i
      → AllKind pt mapped (i - count) i
      → Tiles pt shift mapped (i - count) (summarise pt shift n i mapped count)
  unfolding summarise
  summarise-Tiles zero i mapped count sum some_before within kind =
      let there : ltb 0 count ≡ true = ground (arith, some_before) in
      let end : i ≡ 512 = omega (arith, sum) in
      rw there (
        rw (region_before_lem mapped i count within (omega arith)) (
          rw end (
            last (omega arith)
              (λ k from to. kind k (omega (arith, end, from)) (omega (arith, end, to))))))
  summarise-Tiles (suc n) i mapped count sum some_before within kind =
      elim (kind_change mapped (is_mapped pt i) count some_before) [
        | inl (same, stays) ↦
            let begin : i + 1 - (count + 1) ≡ i - count = omega arith in
            let rest =
              summarise-Tiles n (i + 1) mapped (count + 1) (omega (arith, sum)) (omega arith)
                (omega arith) (AllKind-suc pt kind (sym begin) same) in
            rw stays (
              subst₂
                (λ b kind'.
                  Tiles pt shift mapped b (summarise pt shift n (i + 1) kind' (count + 1)))
                begin (sym same) rest)
        | inr (other, turned) ↦
            let begin : i + 1 - 1 ≡ i = omega arith in
            let rest =
              summarise-Tiles n (i + 1) (not mapped) 1 (omega (arith, sum)) (omega arith)
                (omega arith) (λ k from to. ap (is_mapped pt) (omega (arith, from, to)) ∙ other) in
            rw turned (
              rw (region_before_lem mapped i count within (omega (arith, sum))) (
                more i (omega (arith, some_before, within)) kind (
                  subst₂
                    (λ b kind'.
                      Tiles pt shift (not mapped) b (summarise pt shift n (i + 1) kind' 1))
                    begin (sym other) rest)))
      ]

  -- The loop from the start, where there is nothing before the first entry.
  summarise_all :
      (n : ℕ)
      → suc n ≡ 512
      → Tiles pt shift (is_mapped pt 0) 0 (summarise pt shift (suc n) 0 false 0)
  unfolding summarise
  summarise_all n sum =
      let nothing : kind_changed false (is_mapped pt 0) 0 ≡ false = unchanged (is_mapped pt 0) in
      rw nothing (
        summarise-Tiles n 1 (is_mapped pt 0) 1 (omega (arith, sum)) (omega arith) (omega arith)
          (λ k from to. ap (is_mapped pt) (omega (arith, to))))

-- An address of an entry of a table does not wrap.
entry_address_lem :
    (level : ℕ)
    → 1 ≤ level
    → level ≤ 4
    → (i : ℕ) → i ≤ 512
    → entry_address (pt_level_shift level) i ≡ i * 2 ^ pt_level_shift level
unfolding pt_level_shift
entry_address_lem zero some_level known i bound = absurd (omega (arith, some_level))
entry_address_lem (suc zero) some_level known i bound = omega arith
entry_address_lem (suc (suc zero)) some_level known i bound = omega arith
entry_address_lem (suc (suc (suc zero))) some_level known i bound = omega arith
entry_address_lem (suc (suc (suc (suc zero)))) some_level known i bound = omega arith
entry_address_lem (suc (suc (suc (suc (suc n))))) some_level known i bound =
    absurd (omega (arith, known))

-- For a page table of any entries and a level from 1 to 4: the lines of dump_pt_summary
-- describe all 512 entries, each once and in order. Each line is for one or more entries that
-- are all 0 (Unmapped) or all other than 0 (Mapped), gives their number and the exact
-- addresses at which they begin and end, without wrap-around, and a line and the next are of
-- different kinds.
pub dump_pt_summary-Tiles :
    (pt : ℕ → ℕ) (level : ℕ)
    → 1 ≤ level
    → level ≤ 4
    → Tiles pt (pt_level_shift level) (is_mapped pt 0) 0 (dump_pt_summary pt level)
unfolding dump_pt_summary
dump_pt_summary-Tiles pt level some_level known =
    summarise_all pt (pt_level_shift level) (entry_address_lem level some_level known) 511 refl
