-- ===== src/Memory/Break.antt =====
-- src/guest_memory.c: the program break, guest_brk_initialize and guest_brk_set.
pub mod Inv
pub mod Calls
use alpine_on_qnx.Prelude.{
  ℕ, ◌+◌, ◌-◌, ◌≤◌, ◌<◌, Bool, true, false, not, ◌||◌, Option, none, some, List, [], ◌∷◌, ltb, leb,
  ◌==◌, if◌then◌else◌,
}
use alpine_on_qnx.Words.{uintptr_max, align_up}
use alpine_on_qnx.Memory.Table.{Mapping}
use alpine_on_qnx.Memory.Table.Runtime.{guest_memory_runtime_map, guest_memory_runtime_unmap}
use alpine_on_qnx.Memory.Table.Refine.{is_done}
use alpine_on_qnx.Memory.Segments.{
  HostCall, mmap, munmap, MmapResult, map_failed, mapped_at, guest_min_address, guest_max_address,
}

-- `current_break`, `minimum_break`, `break_mapping_end`, with the table of runtime mappings and
-- the host calls, last one first.
pub record Break : Type 0 where
  pub current : ℕ
  pub minimum : ℕ
  pub mapping_end : ℕ
  pub table : List Mapping
  pub calls : List HostCall

-- `none` is the error ENOEXEC.
unfoldable pub guest_brk_initialize : ℕ → ℕ → List Mapping → List HostCall → Option Break
guest_brk_initialize page_size initial_break table calls =
    if ltb initial_break guest_min_address || leb guest_max_address initial_break
    then none
    else some (record {
      current = initial_break;
      minimum = initial_break;
      mapping_end = align_up initial_break page_size;
      table = table;
      calls = calls;
    })

-- The branch of `guest_brk_set` below the current break.
unfoldable pub shrink : ℕ → ℕ → Break → Break
shrink page_size requested b =
    let end = align_up requested page_size in
    let len = b.mapping_end - end in
    let released : Break = record {
      current = requested;
      minimum = b.minimum;
      mapping_end = end;
      table = guest_memory_runtime_unmap b.table end len;
      calls = munmap end len ∷ b.calls;
    } in
    if ltb end b.mapping_end then released else record b { current = requested }

-- What the branch above it does with the host's answer to its call of `mmap`.
unfoldable pub mapped_break : ℕ → ℕ → MmapResult → Break → Break
mapped_break requested end (map_failed error) b = b
mapped_break requested end (mapped_at at) b =
    let len = end - b.mapping_end in
    let mapped = mmap at len ∷ b.calls in
    let (status, table) = guest_memory_runtime_map b.table b.mapping_end len 0 in
    let grown : Break = record {
      current = requested;
      minimum = b.minimum;
      mapping_end = end;
      table = table;
      calls = mapped;
    } in
    let refused : Break = record b { calls = munmap at len ∷ mapped } in
    if not (at == b.mapping_end) then refused else if is_done status then grown else refused

unfoldable pub grow : ℕ → (ℕ → ℕ → MmapResult) → ℕ → Break → Break
unfolding mapped_break
grow page_size mmap_result requested b =
    let end = align_up requested page_size in
    if ltb b.mapping_end end
    then mapped_break requested end (mmap_result b.mapping_end (end - b.mapping_end)) b
    else record b { current = requested }

unfoldable pub guest_brk_set : ℕ → (ℕ → ℕ → MmapResult) → ℕ → Break → ℕ × Break
guest_brk_set page_size mmap_result requested b =
    let new : Break =
      if (requested == 0) || ltb requested b.minimum
      then b
      else if ltb requested b.current
      then shrink page_size requested b
      else if leb guest_max_address requested || ltb (uintptr_max - (page_size - 1)) requested
      then b
      else grow page_size mmap_result requested b in
    (new.current, new)
