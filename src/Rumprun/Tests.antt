-- ===== src/Rumprun/Tests.antt =====
-- Runs of the page allocator on rumprun, and its theorems at concrete inputs.
use dangless_malloc.Prelude.{
  ℕ, ◌*◌, ◌^◌, ◌≡◌, refl, true, false, some, [], ◌∷◌, ◌==◌, if◌then◌else◌, ok, fault, arith, After,
}
use dangless_malloc.Page.{pgsize}
use dangless_malloc.Rumprun.{
  Physmem, Bmk, pa2ppindex, ppindex2pa, rumprun_pp_alloc, rumprun_pp_free,
}
use dangless_malloc.Rumprun.Ledger.{IsBmk, PpAllocated, rumprun_pp_alloc-PpAllocated}
use dangless_malloc.Rumprun.Disjoint.{
  Pool, Step, allocated, freed, start, step, IsDisjoint, Reach-IsDisjoint,
}

-- One block of 2 MB, at 2 MB.
abbrev one_block : Bmk
one_block = record { block = λ n. if n == 0 then 2 ^ 21 else 0; resolve = λ p. some (p, 2) }

one_block-IsBmk : IsBmk one_block
one_block-IsBmk = record {
  aligned = λ n. ground arith;
  low = λ n. ground arith;
  flat = λ n got. refl;
}

abbrev fresh : Physmem
fresh = record { freelist = []; calls = 0; given_back = []; mem = λ _. 7 }

abbrev acquired : ℕ → ℕ → Physmem
acquired b e = record {
  freelist = record { begin = b; end = e } ∷ [];
  calls = 1;
  given_back = [];
  mem = λ _. 7;
}

test_acquired : rumprun_pp_alloc one_block true 3 fresh ≡ ok (2 ^ 21) (acquired 515 1024)
unfolding rumprun_pp_alloc ppindex2pa pa2ppindex
test_acquired = refl

test_last_pages :
    rumprun_pp_alloc one_block true 3 (acquired 1021 1024)
    ≡ ok (1021 * 4096) (record (acquired 0 0) { freelist = [] })
unfolding rumprun_pp_alloc ppindex2pa pa2ppindex
test_last_pages = refl

-- The second call finds no block.
test_exhausted :
    rumprun_pp_alloc one_block true 3 (acquired 1022 1024)
    ≡ ok 0 (record (acquired 1022 1024) { calls = 2 })
unfolding rumprun_pp_alloc ppindex2pa pa2ppindex
test_exhausted = refl

test_no_memory :
    rumprun_pp_alloc one_block false 3 fresh
    ≡ ok 0 (record fresh { calls = 1; given_back = 2 ^ 21 ∷ [] })
unfolding rumprun_pp_alloc ppindex2pa pa2ppindex
test_no_memory = refl

test_too_many : rumprun_pp_alloc one_block true 512 fresh ≡ fault
unfolding rumprun_pp_alloc ppindex2pa pa2ppindex
test_too_many = refl

test_unaligned : rumprun_pp_free true 4097 1 fresh ≡ fault
unfolding rumprun_pp_free pa2ppindex
test_unaligned = refl

rumprun_pp_alloc-PpAllocated_example :
    After
      (λ pa s'. PpAllocated one_block true fresh 3 pa s')
      (rumprun_pp_alloc one_block true 3 fresh)
rumprun_pp_alloc-PpAllocated_example =
    rumprun_pp_alloc-PpAllocated one_block-IsBmk true fresh 3 tt (omega arith) (omega arith)

abbrev initial : Pool
initial = record { physmem = fresh; held = [] }

-- Three pages are allocated, and the middle one is given back.
abbrev three_pages : Pool
three_pages = record { physmem = acquired 515 1024; held = record { begin = 512; end = 515 } ∷ [] }

abbrev two_pages : Pool
two_pages = record {
  physmem = record (acquired 0 0) {
    freelist = record { begin = 513; end = 514 } ∷ record { begin = 515; end = 1024 } ∷ [];
  };
  held = record { begin = 512; end = 513 } ∷ record { begin = 514; end = 515 } ∷ [];
}

allocated_three : Step one_block initial three_pages
allocated_three =
    allocated true 3 (omega arith) (omega arith) (λ k _ _. refl) test_acquired (omega arith)

middle_run : rumprun_pp_free true (513 * pgsize) 1 (acquired 515 1024) ≡ ok tt two_pages.physmem
unfolding rumprun_pp_free pa2ppindex
middle_run = refl

freed_middle : Step one_block three_pages two_pages
freed_middle = freed 513 1 (omega arith) (omega arith) (omega arith) (λ k. ground arith) middle_run

initial-IsDisjoint : IsDisjoint initial
initial-IsDisjoint = record { valid = tt; once = λ k. omega arith }

Reach-IsDisjoint_example : IsDisjoint two_pages
Reach-IsDisjoint_example =
    Reach-IsDisjoint one_block one_block-IsBmk initial-IsDisjoint
      (step (step start allocated_three) freed_middle)
