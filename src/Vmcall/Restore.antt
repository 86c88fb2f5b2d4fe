-- ===== src/Vmcall/Restore.antt =====
-- The records of pointers to be put back, vmcall_fixup_restore.c. The records in the buffer are a list:
-- storing to g_records[g_record_count++] appends. A store behind the buffer is a fault.
use dangless_malloc.Prelude.{
  ℕ, ◌+◌, ◌*◌, Bool, true, false, List, [], ◌∷◌, ◌++◌, ◌==◌, ltb, if◌then◌else◌, Cmd, ok, fault,
  pure, get, ◌>>=◌, ◌>>◌, length,
}
use dangless_malloc.Vmcall.{Restoration, FixupCounters, Fixups, Below}

-- `STATISTIC_UPDATE`
unfoldable pub tally : (FixupCounters → FixupCounters) → Cmd Fixups (Unit {0})
tally f s = ok tt (record s { counters = f s.counters })

-- A store to memory.
unfoldable pub store : ℕ → ℕ → Cmd Fixups (Unit {0})
store a w s = ok tt (record s { words = λ b. if b == a then w else s.words b })

module _ (below : Below) where
  -- `grow_records_buffer`
  unfoldable pub grow_records_buffer : ℕ → Cmd Fixups Bool
  grow_records_buffer new_capacity s =
      if below.grow new_capacity
      then ok true (record s {
        capacity = new_capacity;
        counters = record s.counters {
          restore_buffer_highest_capacity = new_capacity;
          restore_buffer_grow_count = s.counters.restore_buffer_grow_count + 1;
        };
      })
      else ok false s

  -- `vmcall_fixup_restore_init`, with the configured size of the buffer.
  unfoldable pub restore_init : ℕ → Cmd Fixups Bool
  unfolding grow_records_buffer
  restore_init initial = grow_records_buffer initial

  -- The end of `vmcall_fixup_restore_on_return`: the record is stored, if that is in the buffer.
  unfoldable pub append_record : ℕ → ℕ → Cmd Fixups (Unit {0})
  append_record location original_value s =
      if ltb (length s.records) s.capacity
      then ok tt (record s {
        records = s.records ++ record { location = location; value = original_value } ∷ [];
        counters = record s.counters { restore_record_count = s.counters.restore_record_count + 1 };
      })
      else fault

  -- `vmcall_fixup_restore_on_return`
  unfoldable pub restore_on_return : ℕ → ℕ → Cmd Fixups (Unit {0})
  unfolding grow_records_buffer append_record tally
  restore_on_return location original_value = do
    s ← get
    (if length s.records == s.capacity
        then (do
          grown ← grow_records_buffer (s.capacity * 2)
          (if grown
              then append_record location original_value
              else tally (λ c. record c {
                restore_record_failed_count = c.restore_record_failed_count + 1;
              })))
        else append_record location original_value)

-- The loop of `vmcall_fixup_restore_originals`.
unfoldable pub restore_records : List Restoration → Cmd Fixups (Unit {0})
unfolding store tally
restore_records [] = pure tt
restore_records (r ∷ rs) = do
  store r.location r.value
  tally (λ c. record c { restore_applied_count = c.restore_applied_count + 1 })
  restore_records rs

-- `vmcall_fixup_restore_originals`
unfoldable pub restore_originals : Cmd Fixups (Unit {0})
unfolding restore_records
restore_originals = do
  s ← get
  (if length s.records == 0
      then pure tt
      else (do restore_records s.records; λ s'. ok tt (record s' { records = [] })))
