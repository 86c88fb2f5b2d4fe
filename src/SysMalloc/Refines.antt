-- ===== src/SysMalloc/Refines.antt =====
-- The system allocator of Dune is the C library's: the look-up is not seen.
use dangless_malloc.Prelude.{
  ℕ, ◌≤◌, ◌≡◌, refl, subst, ◌∙◌, ◌⊎◌, inl, inr, true, false, [], ◌∷◌, le→leb, mul64, Run, ok, fault,
  Run-cases, Cmd, ◌>>◌, pure, none, and_then, After, returns,
}
use dangless_malloc.SysMalloc.{SysMalloc}
use dangless_malloc.SysMalloc.Libc.{
  Libc, Symbol, sym_malloc, sym_calloc, sym_realloc, sym_memalign, sym_free, int_of, SysState,
  syscalloc_special, dlsym_calls, populate_addrs, ensure_populated, on_library, sysmalloc,
  syscalloc, sysrealloc, sysmemalign, sysfree, dune_sysmalloc,
}

-- dlsym finds the functions, and calls calloc once at most, for no more than the buffer holds.
pub record IsLibc {C : Type 0} (libc : Libc C) : Type 0 where
  pub found : (name : Symbol) → libc.found name ≡ true
  pub calls :
      (libc.dlsym_callocs ≡ [])
      ⊎ ((num : ℕ) × (size : ℕ) × (libc.dlsym_callocs ≡ (num, size) ∷ [])
          × (mul64 num size ≤ libc.storage_size))

-- Between two calls: the functions have been looked up, or nothing has happened yet.
pub data IsIdle {C : Type 0} (s : SysState C) : Type 0 where
  looked_up : s.populated ≡ true → IsIdle s
  fresh : s.populated ≡ false → s.populating ≡ false → s.storage_used ≡ false → IsIdle s

-- The run of the allocator is that of the library.
pub data Agrees {C A : Type 0} : Run C A → Run (SysState C) A → Type 0 where
  both :
      {a : A} {h : C} {s : SysState C}
      → s.library ≡ h
      → s.populated ≡ true
      → Agrees (ok a h) (ok a s)
  neither : Agrees fault fault

module _ {C : Type 0} {libc : Libc C} (lawful : IsLibc libc) where
  on_library-Agrees :
      {A : Type 0} (c : Cmd C A) (s : SysState C) {h : C}
      → s.library ≡ h
      → s.populated ≡ true
      → Agrees (c h) (on_library libc c s)
  unfolding on_library
  on_library-Agrees c s {h} same populated = elim (Run-cases (c s.library)) [
    | inl failed ↦
        rw (failed, on_library) (subst (λ x. Agrees (c x) fault) same (rw failed neither))
    | inr (a, h', returned) ↦
        rw (returned, on_library)
          (subst (λ x. Agrees (c x) (ok a (record s { library = h' }))) same
            (rw returned (both refl populated)))
  ]

  -- What the look-up leaves.
  abbrev LookedUp : SysState C → Unit {0} → SysState C → Type 0
  LookedUp s _ s' = (s'.library ≡ s.library) × (s'.populated ≡ true)

  populate_addrs-LookedUp :
      (s : SysState C)
      → s.populating ≡ false
      → s.storage_used ≡ false
      → After (LookedUp s) (populate_addrs libc s)
  unfolding populate_addrs dlsym_calls syscalloc_special
  populate_addrs-LookedUp s idle unused = elim lawful.calls [
    | inl silent ↦
        rw (idle, silent)
          (rw
            (
              lawful.found sym_malloc,
              lawful.found sym_calloc,
              lawful.found sym_realloc,
              lawful.found sym_memalign,
              lawful.found sym_free,
            )
            (returns (refl, refl)))
    | inr (num, size, once, fits) ↦
        rw (idle, once)
          (rw (unused, le→leb _ _ fits)
            (rw
              (
                lawful.found sym_malloc,
                lawful.found sym_calloc,
                lawful.found sym_realloc,
                lawful.found sym_memalign,
                lawful.found sym_free,
              )
              (returns (refl, refl))))
  ]

  ensure_populated-LookedUp :
      (s : SysState C) → IsIdle s → After (LookedUp s) (ensure_populated libc s)
  unfolding ensure_populated
  ensure_populated-LookedUp s (looked_up done) = simp done (returns (refl, done))
  ensure_populated-LookedUp s (fresh not_yet idle unused) =
      simp not_yet (populate_addrs-LookedUp s idle unused)

  Agrees-bind :
      {A : Type 0} (s : SysState C) {r : Run C A} {m : Run (SysState C) (Unit {0})}
      (k : Unit {0} → Cmd (SysState C) A)
      → After (LookedUp s) m
      → ((s' : SysState C) → LookedUp s tt s' → Agrees r (k tt s'))
      → Agrees r (and_then m k)
  Agrees-bind s k (returns {s = s'} h) next = next s' h

  -- A call behind the look-up.
  call-Agrees :
      {A : Type 0} (c : Cmd C A) (s : SysState C)
      → IsIdle s
      → Agrees (c s.library) ((ensure_populated libc >> on_library libc c) s)
  call-Agrees c s idle =
      Agrees-bind s _ (ensure_populated-LookedUp s idle) (λ s' h. on_library-Agrees c s' h.0 h.1)

  -- The state with a call counted.
  counted :
      {s : SysState C} (s' : SysState C)
      → s'.populated ≡ s.populated
      → s'.populating ≡ s.populating
      → s'.storage_used ≡ s.storage_used
      → IsIdle s
      → IsIdle s'
  counted s' e e' e'' (looked_up done) = looked_up (e ∙ done)
  counted s' e e' e'' (fresh not_yet idle unused) = fresh (e ∙ not_yet) (e' ∙ idle) (e'' ∙ unused)

  syscalloc-Agrees :
      (num size : ℕ) (s : SysState C)
      → IsIdle s
      → Agrees (libc.libc_calloc num size s.library) (syscalloc libc num size s)
  unfolding syscalloc
  syscalloc-Agrees num size s (looked_up done) =
      simp done (on_library-Agrees (libc.libc_calloc num size) _ refl refl)
  syscalloc-Agrees num size s (fresh not_yet idle unused) =
      simp (not_yet, idle)
        (Agrees-bind s _ (populate_addrs-LookedUp _ refl unused)
          (λ s' h. on_library-Agrees (libc.libc_calloc num size) s' h.0 h.1))

-- Each function runs as the library's of its name, but sysmemalign runs memalign with the place for the
-- block as the alignment, and the alignment as the size; it stores no block.
pub record Refines {C : Type 0} (libc : Libc C) (sys : SysMalloc (SysState C)) : Type 0 where
  pub malloc_agrees :
      (s : SysState C) (size : ℕ)
      → IsIdle s
      → Agrees (libc.libc_malloc size s.library) (sys.sysmalloc size s)
  pub calloc_agrees :
      (s : SysState C) (num size : ℕ)
      → IsIdle s
      → Agrees (libc.libc_calloc num size s.library) (sys.syscalloc num size s)
  pub realloc_agrees :
      (s : SysState C) (p size : ℕ)
      → IsIdle s
      → Agrees (libc.libc_realloc p size s.library) (sys.sysrealloc p size s)
  pub memalign_confused :
      (s : SysState C) (pp align size : ℕ)
      → IsIdle s
      → Agrees
          (and_then (libc.libc_memalign pp align s.library) (λ p. pure (int_of p, none)))
          (sys.sysmemalign pp align size s)
  pub free_agrees :
      (s : SysState C) (p : ℕ) → IsIdle s → Agrees (libc.libc_free p s.library) (sys.sysfree p s)
  pub usable_agrees :
      (s : SysState C) (p : ℕ) → libc.libc_usable_size s.library p ≡ sys.sysmalloc_usable_size s p

Agrees-map :
    {C A B : Type 0} (f : A → B) {r : Run C A} {m : Run (SysState C) A}
    → Agrees r m
    → Agrees (and_then r (λ a. pure (f a))) (and_then m (λ a. pure (f a)))
Agrees-map f (both same populated) = both same populated
Agrees-map f neither = neither

-- Where dlsym finds the five symbols in the C library and makes at most one call of calloc,
-- for no more bytes than the special buffer holds: from any state between two calls, before or
-- after the addresses have been looked up, sysmalloc, syscalloc, sysrealloc and sysfree each
-- return what malloc, calloc, realloc and free of the library return, leave the library in the
-- same state and have the addresses looked up, or fail as it fails; sysmalloc_usable_size is
-- the library's. But sysmemalign runs the library's memalign with the address pp as the
-- alignment and the alignment as the size, returns the low 32 bits of its result as an int,
-- and stores nothing to *pp.
pub dune_sysmalloc-Refines :
    {C : Type 0} (libc : Libc C) → IsLibc libc → Refines libc (dune_sysmalloc libc)
unfolding sysmalloc sysrealloc sysmemalign sysfree
dune_sysmalloc-Refines libc lawful = record {
  malloc_agrees = λ s size idle.
      call-Agrees lawful (libc.libc_malloc size) _ (counted lawful _ refl refl refl idle);
  calloc_agrees = λ s num size idle. syscalloc-Agrees lawful num size s idle;
  realloc_agrees = λ s p size idle.
      call-Agrees lawful (libc.libc_realloc p size) _ (counted lawful _ refl refl refl idle);
  memalign_confused = λ s pp align size idle.
      Agrees-bind lawful s _ (ensure_populated-LookedUp lawful s idle) (λ s' h.
        Agrees-map (λ p. (int_of p, none))
          (on_library-Agrees lawful (libc.libc_memalign pp align) s' h.0 h.1));
  free_agrees =
      λ s p idle. call-Agrees lawful (libc.libc_free p) _ (counted lawful _ refl refl refl idle);
  usable_agrees = λ s p. refl;
}
