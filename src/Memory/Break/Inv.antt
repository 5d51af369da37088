-- ===== src/Memory/Break/Inv.antt =====
-- The invariant of the program break: its pages are the ones that the runtime table maps.
use alpine_on_qnx.Prelude.{
  eq_of_some, subst, ℕ, ◌+◌, ◌-◌, ◌≤◌, ◌<◌, ◌≡◌, refl, inl, inr, true, not, ◌||◌, some, List, ltb,
  leb, ◌==◌, Bool-cases, arith,
}
use alpine_on_qnx.Words.{IsPage, page_bounds, align_up_lem, align_up, floor_mono}
use alpine_on_qnx.Memory.Table.{Mapping}
use alpine_on_qnx.Memory.Table.Replace.{IsTable}
use alpine_on_qnx.Memory.Table.Owned.{AllMapped}
use alpine_on_qnx.Memory.Table.Runtime.{
  guest_memory_runtime_map, guest_memory_runtime_map-IsTable, guest_memory_runtime_unmap-IsTable,
}
use alpine_on_qnx.Memory.Table.Refine.{is_done, runtime_map_view, runtime_unmap_view}
use alpine_on_qnx.Memory.Segments.{
  HostCall, MmapResult, map_failed, mapped_at, guest_min_address, guest_max_address,
}
use alpine_on_qnx.Memory.Break.{Break, guest_brk_initialize, shrink, mapped_break, grow}

-- The break lies between its first value and the end of the guest's addresses; the mapping ends at
-- the first page boundary from it on; and every byte of the pages that were added is mapped.
pub record IsBreak (page_size : ℕ) (b : Break) : Type 0 where
  pub low : guest_min_address ≤ b.minimum
  pub ordered : b.minimum ≤ b.current
  pub high : b.current < guest_max_address
  pub page_end : b.mapping_end ≡ align_up b.current page_size
  pub table : IsTable b.table
  pub owned : AllMapped b.table (align_up b.minimum page_size) b.mapping_end

module _ {page_size : ℕ} (page : IsPage page_size) where
  -- Below the end of the guest's addresses no rounding wraps.
  align_up_mono :
      (x y : ℕ) → x ≤ y → y ≤ guest_max_address → align_up x page_size ≤ align_up y page_size
  align_up_mono x y le high = omega (
    arith,
    page_bounds page,
    align_up_lem page x (omega (arith, page_bounds page)),
    align_up_lem page y (omega (arith, page_bounds page)),
    floor_mono page (x + page_size - 1) (y + page_size - 1) (omega arith),
  )

  pub guest_brk_initialize-IsBreak :
      (initial : ℕ) (table : List Mapping) (calls : List HostCall) {b : Break}
      → IsTable table
      → guest_brk_initialize page_size initial table calls ≡ some b
      → IsBreak page_size b
  unfolding guest_brk_initialize
  guest_brk_initialize-IsBreak initial table calls {b} t e =
      elim (Bool-cases (ltb initial guest_min_address || leb guest_max_address initial)) [
        | inl bad ↦ absurd (cc (rw bad at e))
        | inr good ↦
            let made = eq_of_some (rw good at e) in
            subst (IsBreak page_size) made (record {
              low = ground arith;
              ordered = omega arith;
              high = ground arith;
              page_end = refl;
              table = t;
              owned = λ a le lt. absurd (omega arith);
            })
      ]

  pub shrink-IsBreak :
      (requested : ℕ) (b : Break)
      → IsBreak page_size b
      → b.minimum ≤ requested
      → requested < b.current
      → IsBreak page_size (shrink page_size requested b)
  unfolding shrink
  shrink-IsBreak requested b v above below =
      elim (Bool-cases (ltb (align_up requested page_size) b.mapping_end)) [
        | inl less ↦ rw less (record {
          low = v.low;
          ordered = above;
          high = omega (arith, v.high);
          page_end = refl;
          table = guest_memory_runtime_unmap-IsTable b.table _ _ v.table;
          owned = λ a le lt.
              elim (runtime_unmap_view b.table (align_up requested page_size)
                (b.mapping_end - align_up requested page_size) 0 v.table a) [
                  | inl gone ↦ ground (arith, gone, v.owned a)
                  | inr same ↦ rw same (v.owned a le (ground arith))
                ];
        })
        | inr same ↦ rw same (record {
          low = v.low;
          ordered = above;
          high = omega (arith, v.high);
          page_end = ground (arith, v.page_end, align_up_mono requested b.current);
          table = v.table;
          owned = v.owned;
        })
      ]

  -- The host calls are no part of the invariant.
  recall :
      (b : Break) (calls : List HostCall)
      → IsBreak page_size b
      → IsBreak page_size (record b { calls = calls })
  recall b calls v = record {
    low = v.low;
    ordered = v.ordered;
    high = v.high;
    page_end = v.page_end;
    table = v.table;
    owned = v.owned;
  }

  grown-owned :
      (b : Break) (end : ℕ)
      → IsBreak page_size b
      → b.mapping_end < end
      → is_done (guest_memory_runtime_map b.table b.mapping_end (end - b.mapping_end) 0).0 ≡ true
      → AllMapped
          (guest_memory_runtime_map b.table b.mapping_end (end - b.mapping_end) 0).1
          (align_up b.minimum page_size)
          end
  grown-owned b end v more ok a le lt =
      rw (runtime_map_view b.table b.mapping_end (end - b.mapping_end) 0 v.table ok a)
        (ground (arith, v.owned a))

  mapped_break-IsBreak :
      (requested : ℕ) (b : Break) (r : MmapResult)
      → IsBreak page_size b
      → b.current ≤ requested
      → requested < guest_max_address
      → b.mapping_end < align_up requested page_size
      → IsBreak page_size (mapped_break requested (align_up requested page_size) r b)
  unfolding mapped_break
  mapped_break-IsBreak requested b (map_failed e) v above high more = v
  mapped_break-IsBreak requested b (mapped_at at) v above high more =
      let end = align_up requested page_size in
      let len = end - b.mapping_end in
      elim (Bool-cases (not (at == b.mapping_end))) [
        | inl elsewhere ↦ rw elsewhere (recall b _ v)
        | inr there ↦
            elim (Bool-cases (is_done (guest_memory_runtime_map b.table b.mapping_end len 0).0)) [
              | inr full ↦ rw (there, full) (recall b _ v)
              | inl room ↦
                  rw (there, room)
                    (record {
                      low = v.low;
                      ordered = omega (arith, v.ordered);
                      high = high;
                      page_end = refl;
                      table = guest_memory_runtime_map-IsTable b.table _ _ 0 v.table;
                      owned = grown-owned b end v more room;
                    })
            ]
      ]

  pub grow-IsBreak :
      (mmap_result : ℕ → ℕ → MmapResult) (requested : ℕ) (b : Break)
      → IsBreak page_size b
      → b.current ≤ requested
      → requested < guest_max_address
      → IsBreak page_size (grow page_size mmap_result requested b)
  unfolding grow
  grow-IsBreak mmap_result requested b v above high =
      let end = align_up requested page_size in
      elim (Bool-cases (ltb b.mapping_end end)) [
        | inr within ↦ rw within (record {
          low = v.low;
          ordered = omega (arith, v.ordered);
          high = high;
          page_end = ground (arith, v.page_end, align_up_mono b.current requested);
          table = v.table;
          owned = v.owned;
        })
        | inl beyond ↦ rw beyond (
            mapped_break-IsBreak requested b (mmap_result b.mapping_end (end - b.mapping_end)) v
              above high (ground arith))
      ]
