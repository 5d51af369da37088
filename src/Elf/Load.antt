-- ===== src/Elf/Load.antt =====
-- src/elf_loader.c: load_elf_object. Memory has two views here: the bytes that loading puts into the
-- segments, and the words that patching reads and writes; a load brings the words of its pages up
-- to date, and nothing reads a byte of a page after it has been loaded.
use alpine_on_qnx.Prelude.{
  ℕ, zero, suc, ◌+◌, ◌-◌, ◌*◌, ◌%◌, ◌⊎◌, inl, inr, Bool, true, false, not, ◌&&◌, ◌||◌, Option, none,
  some, List, [], ◌∷◌, ltb, leb, ◌==◌, if◌then◌else◌, length,
}
use alpine_on_qnx.Words.{uintptr_max, u32}
use alpine_on_qnx.Abi.Errno.{Errno, enone, enoexec, eexist}
use alpine_on_qnx.Elf.Types.{
  ElfHeader, SectionHeader, is_elf_magic, elfclass32, elfdata2lsb, ev_current, em_arm, et_exec,
  et_dyn, pt_load, pt_interp, ehdr_size, phdr_size, shdr_size,
}
use alpine_on_qnx.Elf.Checks.{validate_program_header}
use alpine_on_qnx.Elf.Interpreter.{read_interpreter}
use alpine_on_qnx.Elf.Sections.{Loaded, patch_executable_sections}
use alpine_on_qnx.GuestPath.{Bytes}
use alpine_on_qnx.Memory.Table.{Mapping}
use alpine_on_qnx.Memory.Segments.{
  LoadSegment, ProgramHeader, Host, Space, max_load_segments, guest_memory_map_load_segment,
  guest_memory_rollback,
}
use alpine_on_qnx.Patch.{Code, arm_patch_rollback}

-- What is found of a file: the error of opening it, of asking for its size, which must be that of an
-- object in memory, or of reading its header, if any; its size; its header; the error of reading the
-- program headers, if any; the i-th program header; the sections, unless they cannot be read; the
-- host's answers; and `errno` after an attempt at a bias that fails, but not in loading a segment.
pub record ElfFile : Type 0 where
  pub open_error : Option Errno
  pub size : ℕ
  pub header : ElfHeader
  pub table_error : Option Errno
  pub table : ℕ → ProgramHeader
  pub sections : Option (List SectionHeader)
  pub host : Host
  pub late_errno : ℕ → Errno

-- `struct elf_object`
pub record ElfObject : Type 0 where
  pub entry : ℕ
  pub load_bias : ℕ
  pub program_headers : ℕ
  pub program_header_size : ℕ
  pub program_header_count : ℕ
  pub data_end : ℕ

pub record LoadState : Type 0 where
  pub space : Space
  pub code : Code

unfoldable pub headers_from : (ℕ → ProgramHeader) → ℕ → ℕ → List ProgramHeader
headers_from table i zero = []
headers_from table i (suc n) = table i ∷ headers_from table (suc i) n

abbrev pub program_headers_of : ElfFile → List ProgramHeader
program_headers_of file = headers_from file.table 0 file.header.e_phnum

-- The checks of the header, and of the place of the program headers in the file.
unfoldable pub valid_header : Bool → ElfHeader → ℕ → Bool
valid_header allow_executable h size =
    is_elf_magic h.magic
    && (h.ident_class == elfclass32
        && (h.ident_encoding == elfdata2lsb
            && (h.ident_version == ev_current
                && (h.e_version == ev_current
                    && (h.e_machine == em_arm
                        && ((h.e_type == et_dyn || (allow_executable && h.e_type == et_exec))
                            && (h.e_ehsize == ehdr_size
                                && (h.e_phentsize == phdr_size
                                    && (not (h.e_phnum == 0)
                                        && (leb h.e_phnum max_load_segments
                                            && (leb h.e_phoff size
                                                && (h.e_entry % 2 == 0
                                                    && leb (h.e_phnum * phdr_size)
                                                        (size - h.e_phoff)))))))))))))

unfoldable pub all_valid : List ProgramHeader → ℕ → Bool
all_valid [] size = true
all_valid (h ∷ rest) size = validate_program_header h size && all_valid rest size

unfoldable pub interpreter_count : List ProgramHeader → ℕ
interpreter_count [] = 0
interpreter_count (h ∷ rest) =
    if h.p_type == pt_interp then suc (interpreter_count rest) else interpreter_count rest

-- The little-endian word at an address.
abbrev pub word_at : (ℕ → ℕ) → ℕ → ℕ
word_at bytes a = bytes a + 256 * bytes (a + 1) + 65536 * bytes (a + 2) + 16777216 * bytes (a + 3)

-- The words of the pages that the last segment has.
abbrev pub refresh : List LoadSegment → (ℕ → ℕ) → (ℕ → ℕ) → ℕ → ℕ
refresh [] bytes words a = words a
refresh (s ∷ rest) bytes words a =
    if leb s.map_start a && ltb a (s.map_start + s.map_length) then word_at bytes a else words a

-- One segment.
unfoldable pub load_header : ℕ → ElfFile → ℕ → ProgramHeader → LoadState → Option Errno × LoadState
load_header page_size file load_bias h st =
    let (failed, space) =
      guest_memory_map_load_segment page_size file.host h load_bias file.size st.space in
    let loaded : LoadState = record {
      space = space;
      code = record st.code { words = refresh space.segments space.bytes st.code.words };
    } in
    elim failed [ some e ↦ (some e, record st { space = space }) | none ↦ (none, loaded) ]

-- The loop over the program headers, with `data_end`.
unfoldable pub load_headers :
    ℕ → ElfFile → ℕ → List ProgramHeader → ℕ → LoadState → Option Errno × ℕ × LoadState
load_headers page_size file load_bias [] data_end st = (none, data_end, st)
load_headers page_size file load_bias (h ∷ rest) data_end st =
    let end = u32 (load_bias + h.p_vaddr + h.p_memsz) in
    let (failed, loaded) = load_header page_size file load_bias h st in
    let skipped = load_headers page_size file load_bias rest data_end st in
    let next =
      load_headers page_size file load_bias rest (if ltb data_end end then end else data_end)
        loaded in
    if h.p_type == pt_load && not (h.p_memsz == 0)
    then elim failed [ some e ↦ (some e, data_end, loaded) | none ↦ next ]
    else skipped

-- `patch_executable_sections`, with the checks on the place of the section table.
unfoldable pub patch_file : List Mapping → ElfFile → ℕ → LoadState → Bool × Code
patch_file mappings file load_bias st =
    let h = file.header in
    let loaded : Loaded = record {
      segments = st.space.segments;
      mappings = mappings;
      headers = program_headers_of file;
      load_bias = load_bias;
      file_size = file.size;
    } in
    if h.e_shnum == 0
      || (not (h.e_shentsize == shdr_size)
          || (ltb file.size h.e_shoff || ltb (file.size - h.e_shoff) (h.e_shnum * shdr_size)))
    then (false, st.code)
    else elim file.sections [
      | none ↦ (false, st.code)
      | some sections ↦ patch_executable_sections loaded sections st.code
    ]

abbrev pub or_enoexec : Errno → Errno
or_enoexec enone = enoexec
or_enoexec e = e

abbrev pub roll_back : LoadState → LoadState → LoadState
roll_back before st = record {
  space = guest_memory_rollback (length before.space.segments) st.space;
  code = arm_patch_rollback (length before.code.patches) st.code;
}

-- One round of the loop over the biases: an error, or the end of the data.
unfoldable pub attempt : ℕ → List Mapping → ElfFile → ℕ → LoadState → (Errno ⊎ ℕ) × LoadState
attempt page_size mappings file load_bias st =
    let (failed, data_end, loaded) =
      load_headers page_size file load_bias (program_headers_of file) 0 st in
    let (patched, code) = patch_file mappings file load_bias loaded in
    let late = or_enoexec (file.late_errno load_bias) in
    let with_code = record loaded { code = code } in
    let patching : (Errno ⊎ ℕ) × LoadState =
      if patched && leb load_bias (uintptr_max - file.header.e_entry)
      then (inr data_end, with_code)
      else (inl late, roll_back st with_code) in
    let loading : (Errno ⊎ ℕ) × LoadState =
      if length loaded.space.segments == length st.space.segments
      then (inl late, roll_back st loaded)
      else patching in
    elim failed [ some e ↦ (inl (or_enoexec e), roll_back st loaded) | none ↦ loading ]

abbrev pub is_eexist : Errno → Bool
is_eexist eexist = true
is_eexist _ = false

-- The loop: the error, or the bias and the end of the data.
unfoldable pub try_biases :
    ℕ → List Mapping → ElfFile → List ℕ → LoadState → (Errno ⊎ (ℕ × ℕ)) × LoadState
try_biases page_size mappings file [] st = (inl eexist, st)
try_biases page_size mappings file (bias ∷ biases) st =
    let (result, new) = attempt page_size mappings file bias st in
    let more = try_biases page_size mappings file biases new in
    elim result [
      | inr data_end ↦ (inr (bias, data_end), new)
      | inl e ↦ if file.header.e_type == et_dyn && is_eexist e then more else (inl e, new)
    ]

-- MAIN_ET_DYN_BIAS and INTERPRETER_BIAS
abbrev pub main_et_dyn_bias : ℕ
main_et_dyn_bias = 0x20000000

abbrev pub interpreter_bias : ℕ
interpreter_bias = 0x60000000

-- The biases that are tried.
abbrev pub biases_for : ElfFile → ℕ → List ℕ
biases_for file dynamic_bias =
    let main_biases = 0x20000000 ∷ 0x30000000 ∷ 0x40000000 ∷ 0x50000000 ∷ [] in
    let interpreter_biases = 0x60000000 ∷ 0x50000000 ∷ 0x40000000 ∷ 0x30000000 ∷ [] in
    if not (file.header.e_type == et_dyn)
    then 0 ∷ []
    else if dynamic_bias == interpreter_bias
    then interpreter_biases
    else main_biases

-- Where the program headers are in memory: 0 where no segment has them.
unfoldable pub find_program_headers : List ProgramHeader → ElfHeader → ℕ → ℕ
find_program_headers [] e load_bias = 0
find_program_headers (h ∷ rest) e load_bias =
    let delta = e.e_phoff - h.p_offset in
    if not (h.p_type == pt_load) || ltb e.e_phoff h.p_offset
    then find_program_headers rest e load_bias
    else if leb delta h.p_filesz && leb (e.e_phnum * phdr_size) (h.p_filesz - delta)
    then u32 (load_bias + h.p_vaddr + delta)
    else find_program_headers rest e load_bias

abbrev pub object_of : ElfFile → ℕ → ℕ → ElfObject
object_of file load_bias data_end = record {
  entry = load_bias + file.header.e_entry;
  load_bias = load_bias;
  program_headers = find_program_headers (program_headers_of file) file.header load_bias;
  program_header_size = file.header.e_phentsize;
  program_header_count = file.header.e_phnum;
  data_end = data_end;
}

-- What the checks before the first attempt say: an error, or the path of the interpreter, which is
-- empty where there is none. `capacity` is none where the caller takes no interpreter.
unfoldable pub check_file : Bool → Option ℕ → ElfFile → Errno ⊎ Bytes
check_file allow_executable capacity file =
    let headers = program_headers_of file in
    let count = interpreter_count headers in
    let limit : ℕ = elim capacity [ some n ↦ n | none ↦ 0 ] in
    let has_room : Bool = elim capacity [ some n ↦ true | none ↦ false ] in
    let checked : Errno ⊎ Bytes =
      if not (all_valid headers file.size) || (ltb 1 count || (not (count == 0) && not has_room))
      then inl enoexec
      else read_interpreter file.host limit headers in
    let tabled : Errno ⊎ Bytes = elim file.table_error [ some e ↦ inl e | none ↦ checked ] in
    elim file.open_error [
      | some e ↦ inl e
      | none ↦ if valid_header allow_executable file.header file.size then tabled else inl enoexec
    ]

unfoldable pub load_elf_object :
    ℕ
    → List Mapping
    → ElfFile
    → ℕ
    → Bool
    → Option ℕ
    → LoadState
    → (Errno ⊎ (ElfObject × Bytes)) × LoadState
load_elf_object page_size mappings file dynamic_bias allow_executable capacity st =
    elim (check_file allow_executable capacity file) [
      | inl e ↦ (inl e, st)
      | inr interpreter ↦
          let (result, new) =
            try_biases page_size mappings file (biases_for file dynamic_bias) st in
          elim result [
            | inl e ↦ (inl e, new)
            | inr (bias, data_end) ↦ (inr (object_of file bias data_end, interpreter), new)
          ]
    ]
