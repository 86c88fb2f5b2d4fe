-- ===== src/Vmcall/Records.antt =====
-- The records of replaced pointers: what the bookkeeping leaves, and what putting back gives.
use dangless_malloc.Prelude.{
  ℕ, suc, ◌*◌, ◌+◌, ◌≤◌, ◌<◌, ltb, ◌≡◌, ◌≢◌, refl, ap, ◌∙◌, ◌⊎◌, inl, inr, true, Option, none, some,
  List, [], ◌∷◌, ◌++◌, ◌==◌, if◌then◌else◌, arith, Bool-cases, ==→eq, ℤ, returns, After, length,
}
use dangless_malloc.Vmcall.{Restoration, FixupCounters, Fixups, Below}
use dangless_malloc.Vmcall.Restore.{tally, grow_records_buffer, append_record, restore_on_return}
use dangless_malloc.Vmcall.Fixup.{canonical, resolved, tally_external}

-- The pointer is not an alias.
abbrev pub Settled : Below → ℕ → Type 0
Settled below p = (r : ℤ × Option ℕ) (q : ℕ) → below.resolve p ≡ some r → resolved r ≢ canonical q

-- What the fixups rely on: vremap_resolve returns, the pointer that it gives for an alias is none
-- itself, and the buffer of records can grow.
pub record IsBelow (below : Below) : Type 0 where
  pub total : (p : ℕ) → below.resolve p ≢ none
  pub settles :
      (p q : ℕ) (r : ℤ × Option ℕ)
      → below.resolve p ≡ some r
      → resolved r ≡ canonical q
      → Settled below q
  pub roomy : (n : ℕ) → below.grow n ≡ true

-- Memory after the records have been put back, in order.
abbrev pub undo_words : List Restoration → (ℕ → ℕ) → ℕ → ℕ
undo_words [] w = w
undo_words (r ∷ rs) w = undo_words rs (λ b. if b == r.location then r.value else w b)

-- Putting back depends, at an address, on the word there.
pub undo_words_eq :
    (rs : List Restoration) (w w' : ℕ → ℕ) (a : ℕ)
    → w a ≡ w' a
    → undo_words rs w a ≡ undo_words rs w' a
undo_words_eq [] w w' a h = h
undo_words_eq (r ∷ rs) w w' a h =
    undo_words_eq rs _ _ a (ap (λ x. if a == r.location then r.value else x) h)

pub undo_words_append :
    (rs : List Restoration) (l v : ℕ) (w : ℕ → ℕ) (a : ℕ)
    → undo_words (rs ++ record { location = l; value = v } ∷ []) w a
      ≡ (if a == l then v else undo_words rs w a)
undo_words_append [] l v w a = refl
undo_words_append (r ∷ rs) l v w a = undo_words_append rs l v _ a

-- A store to memory.
abbrev pub stored : ℕ → ℕ → (ℕ → ℕ) → ℕ → ℕ
stored p q w b = if b == p then q else w b

pub stored_cases :
    (p q : ℕ) (w : ℕ → ℕ) (a : ℕ)
    → ((a ≡ p) × (stored p q w a ≡ q)) ⊎ ((a ≢ p) × (stored p q w a ≡ w a))
stored_cases p q w a = elim (Bool-cases (a == p)) [
  | inl same ↦ inl (==→eq a p same, rw same refl)
  | inr differ ↦ inr (ground (arith, differ), rw differ refl)
]

-- The records are in the buffer, which is not empty: without one, twice its capacity is none either.
pub record HasBuffer (s : Fixups) : Type 0 where
  pub some_capacity : 0 < s.capacity
  pub inside : length s.records ≤ s.capacity

-- What a step of the bookkeeping leaves in the state.
pub record Left (m : ℕ → ℕ) (d : ℕ) (rs : List Restoration) (s' : Fixups) : Type 0 where
  pub words : s'.words ≡ m
  pub depth : s'.depth ≡ d
  pub records : s'.records ≡ rs
  pub buffer : HasBuffer s'

-- A step that keeps the records and the buffer.
pub same_buffer :
    {s : Fixups} (s' : Fixups)
    → HasBuffer s
    → s'.records ≡ s.records
    → s'.capacity ≡ s.capacity
    → HasBuffer s'
same_buffer s' h same same' = record {
  some_capacity = rw same' h.some_capacity;
  inside = rw (same, same') h.inside;
}

length-append : (rs : List Restoration) (r : Restoration) → length (rs ++ r ∷ []) ≡ length rs + 1
length-append [] r = refl
length-append (r' ∷ rs) r = ap suc (length-append rs r) ∙ omega arith

pub tally_external-Left :
    (f : FixupCounters → FixupCounters) (s : Fixups)
    → HasBuffer s
    → After (λ _ s'. Left s.words s.depth s.records s') (tally_external f s)
unfolding tally_external tally
tally_external-Left f s h = elim (Bool-cases s.external) [
  | inl external ↦ rw external (
      returns
        (record { words = refl; depth = refl; records = refl; buffer = same_buffer _ h refl refl }))
  | inr internal ↦ rw internal (
      returns
        (record { words = refl; depth = refl; records = refl; buffer = same_buffer _ h refl refl }))
]

pub Left-trans :
    {m : ℕ → ℕ} {d : ℕ} {rs : List Restoration} {s s' : Fixups}
    → Left m d rs s
    → Left s.words s.depth s.records s'
    → Left m d rs s'
Left-trans l l' = record {
  words = l'.words ∙ l.words;
  depth = l'.depth ∙ l.depth;
  records = l'.records ∙ l.records;
  buffer = l'.buffer;
}

-- There is always room for a record.
pub restore_on_return-Left :
    (below : Below) (roomy : (n : ℕ) → below.grow n ≡ true) (l v : ℕ) (s : Fixups)
    → HasBuffer s
    → After
        (λ _ s'. Left s.words s.depth (s.records ++ record { location = l; value = v } ∷ []) s')
        (restore_on_return below l v s)
unfolding restore_on_return append_record grow_records_buffer
restore_on_return-Left below roomy l v s h = elim (Bool-cases (length s.records == s.capacity)) [
  | inl full ↦
      let twice : ltb (length s.records) (s.capacity * 2) ≡ true =
        ground (arith, h.some_capacity, full) in
      rw (full, roomy (s.capacity * 2))
        (rw twice (
          returns (record {
            words = refl;
            depth = refl;
            records = refl;
            buffer = record {
              some_capacity = omega (arith, h.some_capacity);
              inside =
                  rw (length-append s.records (record { location = l; value = v }))
                    (omega (arith, h.some_capacity, h.inside));
            };
          })))
  | inr room ↦
      let below_it : ltb (length s.records) s.capacity ≡ true = ground (arith, h.inside, room) in
      rw room (
        rw below_it (
          returns (record {
            words = refl;
            depth = refl;
            records = refl;
            buffer = record {
              some_capacity = h.some_capacity;
              inside =
                  rw (length-append s.records (record { location = l; value = v }))
                    (ground (arith, h.inside, room));
            };
          })))
]

pub Left-append :
    {m : ℕ → ℕ} {d : ℕ} {rs : List Restoration} (ts : List Restoration) {s s' : Fixups}
    → Left m d rs s
    → Left s.words s.depth (s.records ++ ts) s'
    → Left m d (rs ++ ts) s'
Left-append ts l l' = record {
  words = l'.words ∙ l.words;
  depth = l'.depth ∙ l.depth;
  records = l'.records ∙ ap (λ x. x ++ ts) l.records;
  buffer = l'.buffer;
}
