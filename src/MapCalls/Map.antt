-- ===== src/MapCalls/Map.antt =====
-- src/linux_syscall.c: linux_mmap2. `off_t` has 64 bits, so that an offset in pages is not negative.
use Prim.Native.Nat.{bit_and}
use alpine_on_qnx.Prelude.{
  ℕ, ◌+◌, ◌-◌, ◌*◌, ◌%◌, ◌⊎◌, inl, inr, Bool, true, false, not, ◌&&◌, ◌||◌, Option, none, some,
  List, ltb, leb, ◌==◌, min, if◌then◌else◌,
}
use alpine_on_qnx.Words.{not32, has_flag, align_up, uintptr_max}
use alpine_on_qnx.Abi.Errno.{Errno, einval, enomem, eopnotsupp}
use alpine_on_qnx.Memory.Table.{Mapping}
use alpine_on_qnx.Memory.Table.Runtime.{guest_memory_runtime_owned, guest_memory_runtime_map}
use alpine_on_qnx.Memory.Segments.{
  Protection, MmapResult, map_failed, mapped_at, mmap, munmap, mprotect, msync, guest_min_address,
  guest_max_address,
}
use alpine_on_qnx.Patch.{Code, arm_patch_forget_range}
use alpine_on_qnx.Patch.Sections.{MappedFile, arm_patch_elf_mapping}
use alpine_on_qnx.MapCalls.{AddressSpace, translate_protection, status_error, logged}

-- What the call returns: an address, the negative of a constant of the host's header, or the negative
-- of what `linux_errno_number` makes of an error.
pub data MapEnd : Type 0 where
  address : ℕ → MapEnd
  constant : Errno → MapEnd
  number : Errno → MapEnd

-- The answer of `fstat`: an error, a size below 0, or the size.
pub data FileStatus : Type 0 where
  stat_failed : Errno → FileStatus
  negative : FileStatus
  file_size : ℕ → FileStatus

-- The answers of the host: where `mmap` maps, or its error; what `fstat` says; the error of reading
-- the file, and its bytes; the words of memory that the new mapping shows; what `arm_patch_elf_mapping` can read of
-- the file, and `errno` where it fails; the errors of `msync` and of `mprotect`; and what `errno` is
-- where nothing sets it.
pub record MapAnswers : Type 0 where
  pub mapping : MmapResult
  pub status : FileStatus
  pub read_error : Option Errno
  pub content : ℕ → ℕ
  pub shown : ℕ → ℕ
  pub file : Option MappedFile
  pub patch_error : Errno
  pub sync : Option Errno
  pub protect : Option Errno
  pub stale : Errno

-- What the arguments ask for, once they have been checked.
pub record MapRequest : Type 0 where
  pub requested_length : ℕ
  pub mapped_length : ℕ
  pub shared : Bool
  pub anonymous : Bool
  pub protection : Protection
  pub offset : ℕ

-- LINUX_MAP_SHARED, LINUX_MAP_PRIVATE, LINUX_MAP_FIXED, LINUX_MAP_ANONYMOUS, LINUX_MAP_KNOWN
abbrev pub linux_map_shared : ℕ
linux_map_shared = 1

abbrev pub linux_map_private : ℕ
linux_map_private = 2

abbrev pub linux_map_fixed : ℕ
linux_map_fixed = 0x10

abbrev pub linux_map_anonymous : ℕ
linux_map_anonymous = 0x20

abbrev pub linux_map_known : ℕ
linux_map_known = 0x33

-- Whether the mapping is to be shared; `none` is EINVAL.
unfoldable pub map_flags : ℕ → Option Bool
map_flags flags =
    if not (bit_and flags (not32 linux_map_known) == 0)
    then none
    else if bit_and flags 3 == 3
    then none
    else if has_flag flags linux_map_shared
    then some true
    else if has_flag flags linux_map_private
    then some false
    else none

-- The checks before `mmap`: an error, which is returned as a constant, or the request.
unfoldable pub map_request : ℕ → List Mapping → ℕ → ℕ → ℕ → ℕ → ℕ → Errno ⊎ MapRequest
map_request page_size table requested_address len linux_protection flags page_offset =
    elim (translate_protection linux_protection) [
      | none ↦ inl einval
      | some p ↦ elim (map_flags flags) [
        | none ↦ inl einval
        | some shared ↦
            let mapped_length = align_up len page_size in
            if len == 0 || ltb (uintptr_max - (page_size - 1)) len
            then inl einval
            else if has_flag flags linux_map_fixed
                && (not (bit_and requested_address (page_size - 1) == 0)
                    || not (guest_memory_runtime_owned table requested_address mapped_length))
            then inl enomem
            else if shared && p.exec
            then inl eopnotsupp
            else inr (record {
              requested_length = len;
              mapped_length = mapped_length;
              shared = shared;
              anonymous = has_flag flags linux_map_anonymous;
              protection = p;
              offset = page_offset * 4096;
            })
      ]
    ]

-- `copy_executable_file`
abbrev pub copies : MapRequest → Bool
copies r = not r.shared && (not r.anonymous && r.protection.exec)

-- `mapping_protection != host_protection`: a private mapping of a file is made readable, writable
-- and not executable at first.
abbrev pub reprotects : MapRequest → Bool
reprotects r =
    not r.shared
    && (not r.anonymous && (not r.protection.read || (not r.protection.write || r.protection.exec)))

-- `file_bytes`
abbrev pub copied_length : MapAnswers → MapRequest → ℕ
copied_length answers r = elim answers.status [
  | stat_failed e ↦ 0
  | negative ↦ 0
  | file_size size ↦ min r.requested_length (size - r.offset)
]

-- The byte at a place of an anonymous mapping to which the file has been copied.
abbrev pub copied_byte : MapAnswers → MapRequest → ℕ → ℕ
copied_byte answers r i =
    if ltb i (copied_length answers r) then answers.content (r.offset + i) % 256 else 0

-- The words of the mapping at `at`, little-endian: the copy of the file, or what the host shows.
abbrev pub shown_words : MapAnswers → MapRequest → ℕ → ℕ → ℕ
shown_words answers r at a =
    let i = a - at in
    if copies r
    then copied_byte answers r i
      + 256 * copied_byte answers r (i + 1)
      + 65536 * copied_byte answers r (i + 2)
      + 16777216 * copied_byte answers r (i + 3)
    else answers.shown a

-- How copying the file fails, if it does. A file that ends in the range is copied up to its end.
unfoldable pub copy_error : MapAnswers → MapRequest → Option MapEnd
copy_error answers r =
    let read : Option MapEnd = elim answers.read_error [ some e ↦ some (number e) | none ↦ none ] in
    let from_status : Option MapEnd = elim answers.status [
      | stat_failed e ↦ some (number e)
      | negative ↦ some (constant einval)
      | file_size size ↦
          if ltb size r.offset
          then some (constant einval)
          else if min r.requested_length (size - r.offset) == 0
          then none
          else read
    ] in
    if copies r then from_status else none

-- A failure once the patches of the range have been touched.
abbrev pub give_up : ℕ → ℕ → AddressSpace → AddressSpace
give_up at len s = record (logged (munmap at len) s) { code = arm_patch_forget_range at len s.code }

abbrev pub exec_flag : MapRequest → ℕ
exec_flag r = if r.protection.exec then 1 else 0

-- From `msync` on.
unfoldable pub register_mapping : MapAnswers → MapRequest → ℕ → AddressSpace → MapEnd × AddressSpace
register_mapping answers r at s =
    let len = r.mapped_length in
    let synced = if r.protection.exec then logged (msync at len) s else s in
    let ready = if reprotects r then logged (mprotect at len r.protection) synced else synced in
    let (status, table) = guest_memory_runtime_map s.table at len (exec_flag r) in
    elim (if r.protection.exec then answers.sync else none) [
      | some e ↦ (number e, give_up at len s)
      | none ↦ elim (if reprotects r then answers.protect else none) [
        | some e ↦ (number e, give_up at len synced)
        | none ↦ elim (status_error answers.stale status) [
          | some e ↦ (number e, give_up at len ready)
          | none ↦ (address at, record ready { table = table })
        ]
      ]
    ]

-- The code of a mapping that has been filled: the old patches of the range go, and the code sections
-- of the file are patched.
unfoldable pub patch_mapping : MapAnswers → MapRequest → ℕ → Code → Bool × Code
patch_mapping answers r at c =
    let forgotten = arm_patch_forget_range at r.mapped_length c in
    if r.anonymous
    then (true, forgotten)
    else arm_patch_elf_mapping answers.file r.offset at r.mapped_length forgotten

-- From the test of the copying of the file on, for a mapping in the guest's addresses.
unfoldable pub fill_mapping : MapAnswers → MapRequest → ℕ → AddressSpace → MapEnd × AddressSpace
fill_mapping answers r at s =
    let (patched, code) = patch_mapping answers r at s.code in
    let with_code = record s { code = code } in
    let patching =
      if patched
      then register_mapping answers r at with_code
      else (number answers.patch_error, give_up at r.mapped_length with_code) in
    elim (copy_error answers r) [
      | some failed ↦ (failed, logged (munmap at r.mapped_length) s)
      | none ↦ patching
    ]

-- The words of memory under a new mapping.
abbrev pub show : ℕ → ℕ → (ℕ → ℕ) → (ℕ → ℕ) → ℕ → ℕ
show at len shown words a = if leb at a && ltb a (at + len) then shown a else words a

-- The range does not lie in the guest's addresses.
abbrev pub misplaced : ℕ → ℕ → Bool
misplaced at len =
    ltb at guest_min_address || (leb guest_max_address at || ltb (guest_max_address - at) len)

-- From `mmap` on. The host maps whole pages. The words are those after the copying of the file; where
-- it fails, they are unmapped with the range.
unfoldable pub place_mapping : MapAnswers → MapRequest → AddressSpace → MapEnd × AddressSpace
place_mapping answers r s = elim answers.mapping [
  | map_failed e ↦ (number e, s)
  | mapped_at at ↦
      let len = r.mapped_length in
      let mapped = record (logged (mmap at len) s) {
        code = record s.code { words = show at len (shown_words answers r at) s.code.words };
      } in
      if misplaced at len
      then (constant enomem, logged (munmap at len) mapped)
      else fill_mapping answers r at mapped
]

-- The arguments are the page size, the host's answers, and the registers r0, r1, r2, r3 and r5; r4 is
-- the file that the answers are about.
unfoldable pub linux_mmap2 :
    ℕ → MapAnswers → ℕ → ℕ → ℕ → ℕ → ℕ → AddressSpace → MapEnd × AddressSpace
linux_mmap2 page_size answers requested_address len linux_protection flags page_offset s =
    elim (map_request page_size s.table requested_address len linux_protection flags page_offset) [
      | inl e ↦ (constant e, s)
      | inr r ↦ place_mapping answers r s
    ]
