-- ===== src/Memory/Table/Tests.antt =====
-- Tests of the table of runtime mappings.
use alpine_on_qnx.Prelude.{
  ℕ, suc, ◌+◌, ◌-◌, Bool, ◌≡◌, ◌⊎◌, refl, true, false, none, some, List, leb, ltb, ◌&&◌,
  if◌then◌else◌, arith, [], ◌∷◌, ◌↔◌,
}
use alpine_on_qnx.Memory.Table.{
  Mapping, runtime_range_owned_locked, owned_from, runtime_replace_locked, mapping_at,
  compacted_table, cut_all, insert_item, sort_items, compact_items, scratch, cut, compact_item,
}
use alpine_on_qnx.Memory.Table.Replace.{IsTable, replaced, mapping_at-compacted_table}
use alpine_on_qnx.Memory.Table.Owned.{AllMapped, runtime_range_owned_locked_lem}
use alpine_on_qnx.Memory.Table.Runtime.{
  Status, bad_range, guest_memory_runtime_map, guest_memory_runtime_protect,
  guest_memory_runtime_unmap, TableCall, call, run_calls, run_calls-IsTable, map, unmap,
}
use alpine_on_qnx.Memory.Table.Refine.{
  update_range, guest_memory_runtime_map_refines, guest_memory_runtime_protect_refines,
  guest_memory_runtime_unmap_refines,
}
use alpine_on_qnx.Words.{uintptr_max}
use alpine_on_qnx.Memory.Table.Canonical.{run_calls-canonical}

abbrev two_ranges : List Mapping
two_ranges =
    record { start = 0x20000000; end = 0x20002000; executable = 1 }
    ∷ record { start = 0x20003000; end = 0x20004000; executable = 0 }
    ∷ []

two_ranges-IsTable : IsTable two_ranges
two_ranges-IsTable = record {
  in_order = (omega arith, omega arith, (omega arith, omega arith, omega arith));
  compact = ((λ e. absurd (omega arith)), tt);
  fits = omega arith;
}

-- The middle of the first range, and the gap.
abbrev calls : List TableCall
calls = map 0x20001000 0x2000 0 ∷ unmap 0x20000000 0x800 ∷ []

-- A range cut out of the middle of another splits it in two.
split_in_two :
    cut 4 8 (record { start = 0; end = 10; executable = 1 })
    ≡ record { start = 0; end = 4; executable = 1 }
      ∷ record { start = 8; end = 10; executable = 1 }
      ∷ []
unfolding cut
split_in_two = refl

-- Two ranges with the same protection that meet become one.
made_whole :
    compacted_table 4 8 true 1 (record { start = 0; end = 4; executable = 1 } ∷ [])
    ≡ record { start = 0; end = 8; executable = 1 } ∷ []
unfolding compacted_table scratch cut_all cut sort_items insert_item compact_items compact_item
made_whole = refl

guest_memory_runtime_map_refines_example :
    let (status, new) = guest_memory_runtime_map two_ranges 0x20001000 0x2000 0 in
    ((bad_range 0x20001000 0x2000 ≡ true) × (status ≡ Status.invalid) × (new ≡ two_ranges))
    ⊎ ((bad_range 0x20001000 0x2000 ≡ false)
        × (status ≡ Status.done)
        × (mapping_at new 0x20002800
            ≡ update_range (mapping_at two_ranges) 0x20001000 0x2000 (some 0) 0x20002800))
guest_memory_runtime_map_refines_example =
    guest_memory_runtime_map_refines two_ranges 0x20001000 0x2000 0 0x20002800 two_ranges-IsTable
      (omega arith)

guest_memory_runtime_protect_refines_example :
    let (status, new) = guest_memory_runtime_protect two_ranges 0x20001000 0x2000 0 in
    (AllMapped two_ranges 0x20001000 (0x20001000 + 0x2000)
      × (((status ≡ Status.done)
            × (mapping_at new 0x20002800
                ≡ update_range (mapping_at two_ranges) 0x20001000 0x2000 (some 0) 0x20002800))
          ⊎ ((status ≡ Status.no_memory) × (new ≡ two_ranges))))
    ⊎ ((¬ AllMapped two_ranges 0x20001000 (0x20001000 + 0x2000))
        × (status ≡ Status.not_owned)
        × (new ≡ two_ranges))
guest_memory_runtime_protect_refines_example =
    guest_memory_runtime_protect_refines two_ranges 0x20001000 0x2000 0 0x20002800
      two_ranges-IsTable refl

guest_memory_runtime_unmap_refines_example :
    mapping_at (guest_memory_runtime_unmap two_ranges 0x20001000 0x2000) 0x20002800
    ≡ update_range (mapping_at two_ranges) 0x20001000 0x2000 none 0x20002800
guest_memory_runtime_unmap_refines_example =
    guest_memory_runtime_unmap_refines two_ranges 0x20001000 0x2000 0x20002800 two_ranges-IsTable
      refl (omega arith)

run_calls-IsTable_example : IsTable (run_calls calls two_ranges)
run_calls-IsTable_example = run_calls-IsTable calls two_ranges-IsTable

-- The two ends of a range in either order.
abbrev left_first : List TableCall
left_first = map 0x30000000 0x1000 1 ∷ map 0x30001000 0x1000 1 ∷ []

abbrev right_first : List TableCall
right_first = map 0x30001000 0x1000 1 ∷ map 0x30000000 0x1000 1 ∷ unmap 0x50000000 0x1000 ∷ []

same_bytes :
    (a : ℕ)
    → mapping_at (run_calls left_first two_ranges) a
      ≡ mapping_at (run_calls right_first two_ranges) a
unfolding run_calls guest_memory_runtime_map guest_memory_runtime_unmap call runtime_replace_locked
    compacted_table scratch cut_all cut sort_items insert_item compact_items compact_item
same_bytes a = refl

run_calls-canonical_example : run_calls left_first two_ranges ≡ run_calls right_first two_ranges
run_calls-canonical_example =
    run_calls-canonical left_first right_first two_ranges-IsTable same_bytes

mapping_at-compacted_table_example :
    mapping_at (compacted_table 0x20001000 0x20003000 true 1 two_ranges) 0x20002800 ≡ (
      if leb 0x20001000 0x20002800 && ltb 0x20002800 0x20003000
      then replaced true 1
      else mapping_at two_ranges 0x20002800)
mapping_at-compacted_table_example =
    mapping_at-compacted_table 0x20001000 0x20003000 (omega arith) 1 uintptr_max two_ranges
      two_ranges-IsTable.in_order (omega arith) true 0x20002800

runtime_range_owned_locked_lem_example :
    (b : Bool) × (owned_from (suc (0x20001000 - 0x20000000)) 0x20000000 0x20001000 two_ranges
      ≡ some b)
    × (runtime_range_owned_locked 0x20000000 0x20001000 two_ranges ≡ b)
    × ((b ≡ true) ↔ AllMapped two_ranges 0x20000000 0x20001000)
runtime_range_owned_locked_lem_example =
    runtime_range_owned_locked_lem 0x20000000 0x20001000 two_ranges
