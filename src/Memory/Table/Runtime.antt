-- ===== src/Memory/Table/Runtime.antt =====
-- The calls of src/guest_memory.c on the table of runtime mappings. Each takes the mutex for its
-- whole body, so a call is one step on the table.
use alpine_on_qnx.Prelude.{
  ℕ, ◌+◌, ◌-◌, ◌≤◌, ◌<◌, ◌≡◌, ◌⊎◌, refl, Bool, true, false, Option, none, some, List, [], ◌∷◌, leb,
  ltb, ◌==◌, ◌&&◌, ◌||◌, if◌then◌else◌, Bool-cases, inl, inr, length, arith,
}
use alpine_on_qnx.Words.{uintptr_max}
use alpine_on_qnx.Memory.Table.{
  Mapping, max_runtime_mappings, compacted_table, runtime_replace_locked,
  runtime_range_owned_locked, mapping_at,
}
use alpine_on_qnx.Memory.Table.Replace.{
  IsTable, replaced, compacted_table-Chain, mapping_at-compacted_table, compacted_table-IsCompact,
  length-compacted_table, length-scratch,
}

-- What a call returns, with `errno` where it is set.
pub data Status : Type 0 where
  done : Status
  not_owned : Status
  invalid : Status
  no_memory : Status

-- `length == 0 || length > UINTPTR_MAX - address`
abbrev pub bad_range : ℕ → ℕ → Bool
bad_range address length = (length == 0) || ltb (uintptr_max - address) length

unfoldable pub guest_memory_runtime_owned : List Mapping → ℕ → ℕ → Bool
guest_memory_runtime_owned ms address length =
    if bad_range address length
    then false
    else runtime_range_owned_locked address (address + length) ms

abbrev pub keep : List Mapping → Option (List Mapping) → Status × List Mapping
keep ms none = (no_memory, ms)
keep ms (some table) = (done, table)

unfoldable pub guest_memory_runtime_map : List Mapping → ℕ → ℕ → ℕ → Status × List Mapping
guest_memory_runtime_map ms address length executable =
    if bad_range address length
    then (invalid, ms)
    else keep ms (runtime_replace_locked address (address + length) true executable ms)

unfoldable pub guest_memory_runtime_protect : List Mapping → ℕ → ℕ → ℕ → Status × List Mapping
guest_memory_runtime_protect ms address length executable =
    if bad_range address length
    then (invalid, ms)
    else if runtime_range_owned_locked address (address + length) ms
    then keep ms (runtime_replace_locked address (address + length) true executable ms)
    else (not_owned, ms)

-- The result of the replacement is not looked at.
unfoldable pub guest_memory_runtime_unmap : List Mapping → ℕ → ℕ → List Mapping
guest_memory_runtime_unmap ms address length =
    if bad_range address length
    then ms
    else (keep ms (runtime_replace_locked address (address + length) false 0 ms)).1

module _ (ms : List Mapping) (table : IsTable ms) (s e : ℕ) (range : s < e)
    (within : e ≤ uintptr_max) (add : Bool) (x : ℕ) where
  -- The replacement takes effect whenever two places are free.
  pub replace_succeeds :
      length ms + 2 ≤ max_runtime_mappings
      → runtime_replace_locked s e add x ms ≡ some (compacted_table s e add x ms)
  unfolding runtime_replace_locked
  replace_succeeds room = ground (
    arith,
    length-compacted_table s e add x ms,
    length-scratch s e range x uintptr_max ms table.in_order within add,
  )

  -- Whatever it returns keeps the invariant.
  keep-IsTable : IsTable (keep ms (runtime_replace_locked s e add x ms)).1
  unfolding runtime_replace_locked
  keep-IsTable =
      elim (Bool-cases (ltb max_runtime_mappings (length (compacted_table s e add x ms)))) [
        | inl full ↦ rw full table
        | inr fits ↦ rw fits (record {
          in_order = compacted_table-Chain s e range x uintptr_max ms table.in_order within add;
          compact = compacted_table-IsCompact s e add x ms;
          fits = ground arith;
        })
      ]

  -- On success the range has changed and nothing else; on failure nothing has.
  pub keep_view :
      (a : ℕ)
      → let (status, new) = keep ms (runtime_replace_locked s e add x ms) in
        ((status ≡ done)
          × (mapping_at new a ≡ (if leb s a && ltb a e then replaced add x else mapping_at ms a)))
        ⊎ ((status ≡ no_memory) × (new ≡ ms))
  unfolding runtime_replace_locked
  keep_view a =
      elim (Bool-cases (ltb max_runtime_mappings (length (compacted_table s e add x ms)))) [
        | inl full ↦ rw full (inr (refl, refl))
        | inr fits ↦ rw fits (
            inl (
              refl,
              mapping_at-compacted_table s e range x uintptr_max ms table.in_order within add a,
            ))
      ]

-- A call on the table, and what it does to the table.
pub data TableCall : Type 0 where
  map : ℕ → ℕ → ℕ → TableCall
  protect : ℕ → ℕ → ℕ → TableCall
  unmap : ℕ → ℕ → TableCall

unfoldable pub call : TableCall → List Mapping → List Mapping
call (map address length executable) ms = (guest_memory_runtime_map ms address length executable).1
call (protect address length executable) ms =
    (guest_memory_runtime_protect ms address length executable).1
call (unmap address length) ms = guest_memory_runtime_unmap ms address length

unfoldable pub run_calls : List TableCall → List Mapping → List Mapping
run_calls [] ms = ms
run_calls (c ∷ cs) ms = run_calls cs (call c ms)

pub good_range :
    (address length : ℕ)
    → bad_range address length ≡ false
    → (address < address + length) × (address + length ≤ uintptr_max)
good_range address length h = ground arith

pub guest_memory_runtime_map-IsTable :
    (ms : List Mapping) (a l x : ℕ) → IsTable ms → IsTable (guest_memory_runtime_map ms a l x).1
unfolding guest_memory_runtime_map
guest_memory_runtime_map-IsTable ms a l x t = elim (Bool-cases (bad_range a l)) [
  | inl bad ↦ rw bad t
  | inr good ↦
      let (lt, le) = good_range a l good in rw good (keep-IsTable ms t a (a + l) lt le true x)
]

pub guest_memory_runtime_protect-IsTable :
    (ms : List Mapping) (a l x : ℕ) → IsTable ms → IsTable (guest_memory_runtime_protect ms a l x).1
unfolding guest_memory_runtime_protect
guest_memory_runtime_protect-IsTable ms a l x t = elim (Bool-cases (bad_range a l)) [
  | inl bad ↦ rw bad t
  | inr good ↦
      let (lt, le) = good_range a l good in
      elim (Bool-cases (runtime_range_owned_locked a (a + l) ms)) [
        | inl owned ↦ rw (good, owned) (keep-IsTable ms t a (a + l) lt le true x)
        | inr other ↦ rw (good, other) t
      ]
]

pub guest_memory_runtime_unmap-IsTable :
    (ms : List Mapping) (a l : ℕ) → IsTable ms → IsTable (guest_memory_runtime_unmap ms a l)
unfolding guest_memory_runtime_unmap
guest_memory_runtime_unmap-IsTable ms a l t = elim (Bool-cases (bad_range a l)) [
  | inl bad ↦ rw bad t
  | inr good ↦
      let (lt, le) = good_range a l good in rw good (keep-IsTable ms t a (a + l) lt le false 0)
]

-- Whatever calls are made on a table that is in order, compact and within its 2048 places, in any
-- sequence and with any arguments, the table is so afterwards.
pub run_calls-IsTable :
    (cs : List TableCall) {ms : List Mapping} → IsTable ms → IsTable (run_calls cs ms)
unfolding run_calls call
run_calls-IsTable [] t = t
run_calls-IsTable (map a l x ∷ cs) {ms} t =
    run_calls-IsTable cs (guest_memory_runtime_map-IsTable ms a l x t)
run_calls-IsTable (protect a l x ∷ cs) {ms} t =
    run_calls-IsTable cs (guest_memory_runtime_protect-IsTable ms a l x t)
run_calls-IsTable (unmap a l ∷ cs) {ms} t =
    run_calls-IsTable cs (guest_memory_runtime_unmap-IsTable ms a l t)
