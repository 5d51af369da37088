-- ===== src/Memory/Table/Refine.antt =====
-- The calls on the table as updates of the address space that it stands for.
use alpine_on_qnx.Prelude.{
  ℕ, ◌+◌, ◌≤◌, ◌≡◌, ◌⊎◌, refl, Bool, true, false, Option, none, some, List, leb, ltb, ◌&&◌,
  if◌then◌else◌, Bool-cases, inl, inr, length, arith,
}
use alpine_on_qnx.Memory.Table.{
  Mapping, max_runtime_mappings, runtime_replace_locked, runtime_range_owned_locked, mapping_at,
}
use alpine_on_qnx.Memory.Table.Replace.{IsTable}
use alpine_on_qnx.Memory.Table.Owned.{AllMapped, runtime_range_owned_locked_iff}
use alpine_on_qnx.Memory.Table.Runtime.{
  Status, bad_range, good_range, keep_view, replace_succeeds, guest_memory_runtime_map,
  guest_memory_runtime_protect, guest_memory_runtime_unmap,
}

-- `length` bytes from `address` are mapped as `value` says; all other bytes are as in `old`.
abbrev pub update_range : (ℕ → Option ℕ) → ℕ → ℕ → Option ℕ → ℕ → Option ℕ
update_range old address length value a =
    if leb address a && ltb a (address + length) then value else old a

-- On a table in order of which two places are free, `guest_memory_runtime_map` refuses an empty or
-- a wrapping range and changes nothing; else it succeeds, and exactly the bytes of the range take
-- the new protection.
pub guest_memory_runtime_map_refines :
    (ms : List Mapping) (address len executable a : ℕ)
    → IsTable ms
    → length ms + 2 ≤ max_runtime_mappings
    → let (status, new) = guest_memory_runtime_map ms address len executable in
      ((bad_range address len ≡ true) × (status ≡ Status.invalid) × (new ≡ ms))
      ⊎ ((bad_range address len ≡ false)
          × (status ≡ Status.done)
          × (mapping_at new a ≡ update_range (mapping_at ms) address len (some executable) a))
unfolding guest_memory_runtime_map
guest_memory_runtime_map_refines ms address len executable a t room =
    elim (Bool-cases (bad_range address len)) [
      | inl bad ↦ rw bad (inl (refl, refl, refl))
      | inr good ↦
          let (lt, le) = good_range address len good in
          let e = replace_succeeds ms t address (address + len) lt le true executable room in
          rw (good, e)
            (ground (arith, keep_view ms t address (address + len) lt le true executable a, e))
    ]

-- For a good range on a table in order, whether or not a place is free,
-- `guest_memory_runtime_protect` changes the table only where every byte of the range is mapped
-- already, and then only the protection of those bytes, or reports that memory is short; where
-- some byte is not mapped it says so.
pub guest_memory_runtime_protect_refines :
    (ms : List Mapping) (address len executable a : ℕ)
    → IsTable ms
    → bad_range address len ≡ false
    → let (status, new) = guest_memory_runtime_protect ms address len executable in
      (AllMapped ms address (address + len)
        × (((status ≡ Status.done)
              × (mapping_at new a ≡ update_range (mapping_at ms) address len (some executable) a))
            ⊎ ((status ≡ Status.no_memory) × (new ≡ ms))))
      ⊎ ((¬ AllMapped ms address (address + len)) × (status ≡ Status.not_owned) × (new ≡ ms))
unfolding guest_memory_runtime_protect
guest_memory_runtime_protect_refines ms address len executable a t good =
    let (lt, le) = good_range address len good in
    let iff = runtime_range_owned_locked_iff address (address + len) ms in
    elim (Bool-cases (runtime_range_owned_locked address (address + len) ms)) [
      | inl owned ↦
          rw (good, owned)
            (inl (iff.0 owned, keep_view ms t address (address + len) lt le true executable a))
      | inr other ↦ rw (good, other) (inr ((λ all. cc (iff.1 all)), refl, refl))
    ]

-- On a table in order of which two places are free, `guest_memory_runtime_unmap` of a good range
-- forgets exactly its bytes.
pub guest_memory_runtime_unmap_refines :
    (ms : List Mapping) (address len a : ℕ)
    → IsTable ms
    → bad_range address len ≡ false
    → length ms + 2 ≤ max_runtime_mappings
    → mapping_at (guest_memory_runtime_unmap ms address len) a
      ≡ update_range (mapping_at ms) address len none a
unfolding guest_memory_runtime_unmap
guest_memory_runtime_unmap_refines ms address len a t good room =
    let (lt, le) = good_range address len good in
    let e = replace_succeeds ms t address (address + len) lt le false 0 room in
    rw (good, e) (ground (arith, keep_view ms t address (address + len) lt le false 0 a, e))

abbrev pub is_done : Status → Bool
is_done Status.done = true
is_done _ = false

module _ (ms : List Mapping) (address len executable : ℕ) (t : IsTable ms) where
  -- With or without free places: what a map that succeeds has done, and that one that fails
  -- has done nothing.
  pub runtime_map_view :
      is_done (guest_memory_runtime_map ms address len executable).0 ≡ true
      → (a : ℕ)
      → mapping_at (guest_memory_runtime_map ms address len executable).1 a
        ≡ update_range (mapping_at ms) address len (some executable) a
  unfolding guest_memory_runtime_map
  runtime_map_view ok a = elim (Bool-cases (bad_range address len)) [
    | inl bad ↦ absurd (cc (rw bad at ok))
    | inr good ↦
        let (lt, le) = good_range address len good in
        let ok' = rw good at ok in
        rw good
          (ground (arith, keep_view ms t address (address + len) lt le true executable a, ok'))
  ]

  pub runtime_map_failed :
      is_done (guest_memory_runtime_map ms address len executable).0 ≡ false
      → (guest_memory_runtime_map ms address len executable).1 ≡ ms
  unfolding guest_memory_runtime_map runtime_replace_locked
  runtime_map_failed h = ground arith

  -- An unmap has forgotten the bytes of the range, or changed nothing.
  pub runtime_unmap_view :
      (a : ℕ)
      → (mapping_at (guest_memory_runtime_unmap ms address len) a
          ≡ update_range (mapping_at ms) address len none a)
        ⊎ (guest_memory_runtime_unmap ms address len ≡ ms)
  unfolding guest_memory_runtime_unmap
  runtime_unmap_view a = elim (Bool-cases (bad_range address len)) [
    | inl bad ↦ rw bad (inr refl)
    | inr good ↦
        let (lt, le) = good_range address len good in
        rw good (ground (arith, keep_view ms t address (address + len) lt le false 0 a))
  ]
