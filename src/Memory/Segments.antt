-- ===== src/Memory/Segments.antt =====
-- src/guest_memory.c: the segments of the loaded ELF files, and the host mappings they live in.
-- `load_segments` with `load_segment_count` is a list with the last segment first, since the code
-- adds and removes at that end.
pub mod Mapped
pub mod Loading
use Prim.Native.Nat.{bit_and}
use alpine_on_qnx.Prelude.{
  ℕ, zero, suc, ◌+◌, ◌-◌, ◌<◌, Bool, true, false, not, ◌&&◌, ◌||◌, Option, none, some, List, [],
  ◌∷◌, ltb, leb, ◌==◌, if◌then◌else◌, length,
}
use alpine_on_qnx.Words.{uintptr_max, align_down, align_up}
use alpine_on_qnx.Abi.Errno.{Errno, enoexec, e2big, eexist}
use alpine_on_qnx.Memory.Table.{ranges_overlap}

-- GUEST_MIN_ADDRESS, GUEST_MAX_ADDRESS, MAX_LOAD_SEGMENTS
abbrev pub guest_min_address : ℕ
guest_min_address = 0x00010000

abbrev pub guest_max_address : ℕ
guest_max_address = 0x70000000

abbrev pub max_load_segments : ℕ
max_load_segments = 32

-- The bits of PROT_READ, PROT_WRITE and PROT_EXEC; none is PROT_NONE.
pub record Protection : Type 0 where
  pub read : Bool
  pub write : Bool
  pub exec : Bool

-- `struct load_segment`
pub record LoadSegment : Type 0 where
  pub map_start : ℕ
  pub map_length : ℕ
  pub final_protection : Protection

-- `Elf32_Phdr`
pub record ProgramHeader : Type 0 where
  pub p_type : ℕ
  pub p_offset : ℕ
  pub p_vaddr : ℕ
  pub p_filesz : ℕ
  pub p_memsz : ℕ
  pub p_flags : ℕ
  pub p_align : ℕ

-- What the code asks of the host's memory manager, a call with what it returned.
pub data HostCall : Type 0 where
  mmap : ℕ → ℕ → HostCall
  munmap : ℕ → ℕ → HostCall
  mprotect : ℕ → ℕ → Protection → HostCall
  msync : ℕ → ℕ → HostCall

-- The answers of the host: where an anonymous mapping is made, or the error; the error of reading
-- a piece of the file, if any; and the bytes of the file.
pub data MmapResult : Type 0 where
  map_failed : Errno → MmapResult
  mapped_at : ℕ → MmapResult

pub record Host : Type 0 where
  pub mmap_result : ℕ → ℕ → MmapResult
  pub read_error : ℕ → ℕ → Option Errno
  pub file : ℕ → ℕ

-- The state: the segments, the bytes of the address space, and the host calls, last one first.
pub record Space : Type 0 where
  pub segments : List LoadSegment
  pub bytes : ℕ → ℕ
  pub calls : List HostCall

abbrev pub segment_end : LoadSegment → ℕ
segment_end s = s.map_start + s.map_length

unfoldable pub overlaps_any : ℕ → ℕ → List LoadSegment → Bool
overlaps_any start end [] = false
overlaps_any start end (s ∷ rest) =
    ranges_overlap start end s.map_start (segment_end s) || overlaps_any start end rest

unfoldable pub validate_load_range : ℕ → ℕ → List LoadSegment → Option Errno
unfolding overlaps_any
validate_load_range start end segments =
    if ltb start guest_min_address || leb end start || ltb guest_max_address end
    then some enoexec
    else if overlaps_any start end segments
    then some enoexec
    else none

-- `(word & bit) != 0`
abbrev pub has_bit : ℕ → ℕ → Bool
has_bit word bit = not (bit_and word bit == 0)

-- PF_X is 1, PF_W is 2 and PF_R is 4.
unfoldable pub protection_from_flags : ℕ → Protection
protection_from_flags flags = record {
  read = has_bit flags 4;
  write = has_bit flags 2;
  exec = has_bit flags 1;
}

-- Writes `f 0`, `f 1`, … to the `length` bytes from `start`.
abbrev pub fill : ℕ → ℕ → (ℕ → ℕ) → (ℕ → ℕ) → ℕ → ℕ
fill start length f bytes a =
    if leb start a && ltb a (start + length) then f (a - start) else bytes a

-- The first checks of `guest_memory_map_load_segment`. `file_size` is an `off_t` that the callers
-- have found not to be negative.
unfoldable pub segment_in_file : ProgramHeader → ℕ → ℕ → Bool
segment_in_file h load_bias file_size = not (
    ltb h.p_memsz h.p_filesz
    || (not (h.p_filesz == 0)
        && (ltb file_size h.p_offset || ltb (file_size - h.p_offset) h.p_filesz))
    || ltb (uintptr_max - h.p_vaddr) load_bias)

abbrev pub mapped_bytes : Host → ProgramHeader → ℕ → ℕ → (ℕ → ℕ) → ℕ → ℕ
mapped_bytes host h start map_start bytes =
    let loaded = fill start h.p_filesz (λ i. host.file (h.p_offset + i)) bytes in
    let cleared = fill (start + h.p_filesz) (h.p_memsz - h.p_filesz) (λ i. 0) loaded in
    fill map_start (start - map_start) (λ i. 0) cleared

-- From the `mmap` on. A fresh anonymous mapping reads as zeros.
unfoldable pub map_range : Host → ProgramHeader → ℕ → ℕ → ℕ → Space → Option Errno × Space
map_range host h start map_start map_end st =
    let len = map_end - map_start in
    elim (host.mmap_result map_start len) [
      | map_failed error ↦ (some error, st)
      | mapped_at at ↦
          let mapped = mmap at len ∷ st.calls in
          let undone = munmap at len ∷ mapped in
          let fresh = fill at len (λ i. 0) st.bytes in
          let segment : LoadSegment = record {
            map_start = map_start;
            map_length = len;
            final_protection = protection_from_flags h.p_flags;
          } in
          let loaded : Space = record {
            segments = segment ∷ st.segments;
            bytes = mapped_bytes host h start map_start fresh;
            calls = mapped;
          } in
          let failed : Space = record st { calls = undone } in
          let error = if h.p_filesz == 0 then none else host.read_error h.p_offset h.p_filesz in
          if not (at == map_start)
          then (some eexist, failed)
          else elim error [ none ↦ (none, loaded) | some e ↦ (some e, failed) ]
    ]

-- `guest_memory_map_load_segment`: the error, if any, and the new state.
unfoldable pub guest_memory_map_load_segment :
    ℕ → Host → ProgramHeader → ℕ → ℕ → Space → Option Errno × Space
unfolding segment_in_file validate_load_range
guest_memory_map_load_segment page_size host h load_bias file_size st =
    let start = load_bias + h.p_vaddr in
    let end = start + h.p_memsz in
    let map_start = align_down start page_size in
    let map_end = align_up end page_size in
    let go = map_range host h start map_start map_end st in
    if not (segment_in_file h load_bias file_size)
      || ltb (uintptr_max - start) h.p_memsz
      || ltb (uintptr_max - (page_size - 1)) end
    then (some enoexec, st)
    else elim (validate_load_range map_start map_end st.segments) [
      | some error ↦ (some error, st)
      | none ↦ if length st.segments == max_load_segments then (some e2big, st) else go
    ]

-- `guest_memory_rollback`: on the count of segments to go.
unfoldable pub guest_memory_rollback_by :
    ℕ → List LoadSegment → List HostCall → List LoadSegment × List HostCall
guest_memory_rollback_by zero segments calls = (segments, calls)
guest_memory_rollback_by (suc n) [] calls = ([], calls)
guest_memory_rollback_by (suc n) (s ∷ segments) calls =
    guest_memory_rollback_by n segments (munmap s.map_start s.map_length ∷ calls)

unfoldable pub guest_memory_rollback : ℕ → Space → Space
unfolding guest_memory_rollback_by
guest_memory_rollback segment_count st =
    let (segments, calls) =
      guest_memory_rollback_by (length st.segments - segment_count) st.segments st.calls in
    record st { segments = segments; calls = calls }
