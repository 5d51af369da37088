-- ===== src/Elf/Tests.antt =====
-- Tests of the loader.
use alpine_on_qnx.Prelude.{◌+◌, ◌≤◌, ◌≡◌, ◌⊎◌, refl, true, false, ◌&&◌, arith, [], ◌∷◌, length}
use alpine_on_qnx.Prelude.{Bool, inr, some, none, ◌%◌, ◌==◌, if◌then◌else◌}
use alpine_on_qnx.Elf.Load.{
  load_elf_object, try_biases, attempt, load_headers, load_header, patch_file, find_program_headers,
}
use alpine_on_qnx.Memory.Segments.{
  guest_memory_map_load_segment, map_range, overlaps_any, validate_load_range, segment_in_file,
}
use alpine_on_qnx.Words.{align_down, align_up}
use alpine_on_qnx.Elf.Image.{finish_image, load_interpreter}
use alpine_on_qnx.Memory.Break.{guest_brk_initialize}
use alpine_on_qnx.Memory.Query.{guest_memory_finalize}
use alpine_on_qnx.Abi.Errno.{Errno}
use alpine_on_qnx.Elf.Load.{
  ElfFile, LoadState, headers_from, valid_header, all_valid, interpreter_count, check_file,
}
use alpine_on_qnx.Elf.Interpreter.{read_interpreter}
use alpine_on_qnx.Elf.Image.{World, LoadEnd, started, failed, faulted, load_guest_image}
use alpine_on_qnx.GuestPath.Links.{other}
use alpine_on_qnx.Memory.Segments.{mapped_at, mmap, munmap, mprotect, msync}
use alpine_on_qnx.Elf.Types.{SectionHeader}
use alpine_on_qnx.Memory.Segments.{ProgramHeader, protection_from_flags}
use alpine_on_qnx.Elf.Checks.{
  range_in_file, valid_alignment, bad_load, validate_program_header, validate_program_header_lem,
}
use alpine_on_qnx.Memory.Query.{guest_memory_is_executable}
use alpine_on_qnx.Patch.{
  Code, arm_patch_range, arm_linux_svc_0, patch_words, patch_word, is_trapped,
}
use alpine_on_qnx.Elf.Sections.{
  section_in_executable_load, Loaded, accepted_section, patch_each, patch_executable_sections,
}

abbrev text : ProgramHeader
text = record {
  p_type = 1;
  p_offset = 0x1010;
  p_vaddr = 0x10;
  p_filesz = 0x100;
  p_memsz = 0x200;
  p_flags = 5;
  p_align = 4096;
}

valid : validate_program_header text 0x2000 ≡ true
unfolding validate_program_header bad_load range_in_file valid_alignment
valid = refl

-- Pages that are both writable and executable are refused.
refused : validate_program_header (record text { p_flags = 7 }) 0x2000 ≡ false
unfolding validate_program_header bad_load range_in_file valid_alignment
refused = refl

abbrev code_section : SectionHeader
code_section = record {
  sh_type = 1;
  sh_flags = 6;
  sh_addr = 0x10;
  sh_offset = 0x1010;
  sh_size = 8;
  sh_addralign = 4;
}

abbrev loaded : Loaded
loaded = record {
  segments =
      record {
        map_start = 0x20000000;
        map_length = 4096;
        final_protection = record { read = true; write = false; exec = true };
      }
      ∷ [];
  mappings = [];
  headers = text ∷ [];
  load_bias = 0x20000000;
  file_size = 0x2000;
}

abbrev before : Code
before = record { words = λ a. arm_linux_svc_0; patches = [] }

accepts : accepted_section loaded code_section ≡ true
unfolding accepted_section range_in_file valid_alignment section_in_executable_load
    guest_memory_is_executable
accepts = refl

patches_two : length (patch_executable_sections loaded (code_section ∷ []) before).1.patches ≡ 2
unfolding patch_executable_sections patch_each accepted_section range_in_file valid_alignment
    section_in_executable_load guest_memory_is_executable arm_patch_range patch_words patch_word
    is_trapped
patches_two = refl

validate_program_header_lem_example :
    (text.p_filesz ≤ text.p_memsz)
    × ((text.p_filesz ≡ 0) ⊎ (text.p_offset + text.p_filesz ≤ 0x2000))
    × ((protection_from_flags text.p_flags).write && (protection_from_flags text.p_flags).exec
        ≡ false)
validate_program_header_lem_example =
    validate_program_header_lem text 0x2000 valid refl (λ e. absurd (omega (arith, e)))

-- A file of one segment, with its code as above, at address 0x10 in a page of memory.
abbrev program : ElfFile
program = record {
  open_error = none;
  size = 0x2000;
  header = record {
    magic = 0x7f ∷ b'E' ∷ b'L' ∷ b'F' ∷ [];
    ident_class = 1;
    ident_encoding = 1;
    ident_version = 1;
    e_type = 3;
    e_machine = 40;
    e_version = 1;
    e_entry = 0x10;
    e_phoff = 52;
    e_shoff = 0x1200;
    e_ehsize = 52;
    e_phentsize = 32;
    e_phnum = 1;
    e_shentsize = 40;
    e_shnum = 1;
  };
  table_error = none;
  table = λ i. text;
  sections = some (code_section ∷ []);
  host = record {
    mmap_result = λ at len. mapped_at at;
    read_error = λ at len. none;
    file = λ i. if i % 4 == 3 then 0xef else 0;
  };
  late_errno = λ bias. Errno.enone;
}

abbrev nothing_loaded : LoadState
nothing_loaded = record {
  space = record { segments = []; bytes = λ a. 0; calls = [] };
  code = record { words = λ a. 0; patches = [] };
}

checked : check_file true (some 64) program ≡ inr []
unfolding check_file headers_from valid_header all_valid interpreter_count read_interpreter
    validate_program_header bad_load range_in_file valid_alignment
checked = refl

abbrev world : World
world = record {
  page_size = 4096;
  mappings = [];
  paths = record {
    path_max = 64;
    root_path = b'/' ∷ [];
    guest_cwd = b'/' ∷ [];
    lstat = λ p. other;
  };
  files = λ path. program;
  succeeds = λ call. true;
}

-- A host that refuses to flush the instruction cache once the code is read-only.
abbrev stubborn : World
stubborn = record world {
  succeeds = λ call. elim call [
    | msync at len ↦ false
    | mmap at len ↦ true
    | munmap at len ↦ true
    | mprotect at len p ↦ true
  ];
}

abbrev is_faulted : LoadEnd → Bool
is_faulted (faulted b) = true
is_faulted (failed b) = false
is_faulted (started image b) = false

-- The rollback stores to the code.
rollback_of_code_faults :
    is_faulted (load_guest_image stubborn (b'/' ∷ b'x' ∷ []) nothing_loaded).0 ≡ true
unfolding load_guest_image load_elf_object try_biases attempt load_headers load_header patch_file
    find_program_headers guest_memory_map_load_segment map_range overlaps_any validate_load_range
    segment_in_file align_down align_up finish_image load_interpreter guest_brk_initialize
    guest_memory_finalize check_file valid_header all_valid headers_from validate_program_header
    bad_load interpreter_count read_interpreter range_in_file valid_alignment accepted_section
    patch_each patch_executable_sections section_in_executable_load guest_memory_is_executable
    arm_patch_range is_trapped patch_word patch_words protection_from_flags
rollback_of_code_faults = refl
