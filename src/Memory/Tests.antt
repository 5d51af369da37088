-- ===== src/Memory/Tests.antt =====
-- Tests of the guest's memory.
use alpine_on_qnx.Prelude.{
  ℕ, ◌+◌, ◌-◌, ◌≤◌, ◌≡◌, true, false, ◌&&◌, none, [], ◌∷◌, ltb, leb, if◌then◌else◌, length, arith,
  refl, some, ◌%◌,
}
use alpine_on_qnx.Words.{IsPage, align_down, align_up}
use alpine_on_qnx.Memory.Segments.{
  LoadSegment, ProgramHeader, Host, Space, overlaps_any, segment_in_file, validate_load_range,
  max_load_segments, guest_memory_map_load_segment, mapped_at, protection_from_flags, map_range,
}
use alpine_on_qnx.Memory.Segments.Loading.{IsLayout, load-IsLayout, load_bytes}
use alpine_on_qnx.Memory.Query.{guest_memory_is_executable, guest_memory_range_owned}
use alpine_on_qnx.Memory.Page.{guest_memory_initialize}
use alpine_on_qnx.Memory.Break.{Break}

abbrev page_size : ℕ
page_size = 4096

page : IsPage 4096
page = record {
  low_bits = 12;
  high_bits = 20;
  is_power = refl;
  in_word = refl;
  above_one = omega arith;
}

abbrev host : Host
host = record {
  mmap_result = λ address len. mapped_at address;
  read_error = λ offset len. none;
  file = λ i. i % 256;
}

abbrev text : ProgramHeader
text = record {
  p_type = 1;
  p_offset = 0x1010;
  p_vaddr = 0x10;
  p_filesz = 8;
  p_memsz = 16;
  p_flags = 5;
  p_align = 4096;
}

abbrev fresh_space : Space
fresh_space = record { segments = []; bytes = λ a. 0; calls = [] }

abbrev segment : LoadSegment
segment = record {
  map_start = 0x20000000;
  map_length = 4096;
  final_protection = record { read = true; write = false; exec = true };
}

loads : (guest_memory_map_load_segment page_size host text 0x20000000 0x2000 fresh_space).0 ≡ none
unfolding guest_memory_map_load_segment map_range segment_in_file validate_load_range overlaps_any
    align_down align_up protection_from_flags
loads = refl

one-IsLayout : IsLayout (segment ∷ [])
one-IsLayout = (omega arith, omega arith, omega arith, tt, tt)

abbrev at_start : Break
at_start = record {
  current = 0x20000800;
  minimum = 0x20000800;
  mapping_end = 0x20001000;
  table = [];
  calls = [];
}

owned : guest_memory_range_owned (segment ∷ []) [] 0x20000000 0x10 ≡ true
unfolding guest_memory_range_owned
owned = refl

executable : guest_memory_is_executable (segment ∷ []) [] 0x20000000 0x10 ≡ true
unfolding guest_memory_is_executable
executable = refl

initialized : guest_memory_initialize page_size ≡ some page_size
unfolding guest_memory_initialize
initialized = refl

load_bytes_example :
    let start = 0x20000000 + text.p_vaddr in
    (guest_memory_map_load_segment page_size host text 0x20000000 0x2000 fresh_space).1.bytes
      0x20000012
    ≡ (if leb (align_down start page_size) 0x20000012
          && ltb 0x20000012 (align_up (start + text.p_memsz) page_size)
        then (if leb start 0x20000012 && ltb 0x20000012 (start + text.p_filesz)
            then host.file (text.p_offset + (0x20000012 - start))
            else 0)
        else fresh_space.bytes 0x20000012)
load_bytes_example =
    load_bytes page_size host text 0x20000000 0x2000 fresh_space page loads 0x20000012

load-IsLayout_example :
    IsLayout
      (guest_memory_map_load_segment page_size host text 0x20000000 0x2000
        (record { segments = segment ∷ []; bytes = λ a. 0; calls = [] })).1.segments
    × (length
          (guest_memory_map_load_segment page_size host text 0x20000000 0x2000
            (record { segments = segment ∷ []; bytes = λ a. 0; calls = [] })).1.segments
        ≤ max_load_segments)
load-IsLayout_example =
    load-IsLayout page_size host text 0x20000000 0x2000
      (record { segments = segment ∷ []; bytes = λ a. 0; calls = [] }) one-IsLayout (omega arith)
