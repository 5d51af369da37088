-- ===== src/Startup/Stack.antt =====
-- src/runtime.c: create_guest_stack. A string is the list of its bytes before the NUL. `errno` is not
-- modelled.
use alpine_on_qnx.Prelude.{
  ℕ, zero, suc, ◌+◌, ◌-◌, ◌*◌, ◌/◌, ◌%◌, ◌^◌, Bool, true, false, not, ◌&&◌, ◌||◌, Option, none,
  some, List, [], ◌∷◌, ◌++◌, ltb, ◌==◌, if◌then◌else◌, length,
}
use alpine_on_qnx.Words.{align_down}
use alpine_on_qnx.Elf.Image.{GuestImage}
use alpine_on_qnx.GuestPath.{Bytes}
use alpine_on_qnx.MapCalls.Map.{misplaced}
use alpine_on_qnx.Memory.Segments.{HostCall, MmapResult, map_failed, mapped_at, mmap, munmap, fill}
use alpine_on_qnx.Memory.Table.{Mapping}
use alpine_on_qnx.Memory.Table.Refine.{is_done}
use alpine_on_qnx.Memory.Table.Runtime.{guest_memory_runtime_map, guest_memory_runtime_unmap}

-- GUEST_STACK_SIZE
abbrev pub guest_stack_size : ℕ
guest_stack_size = 1048576

unfoldable pub starts_with : Bytes → Bytes → Bool
starts_with [] text = true
starts_with (c ∷ prefix) [] = false
starts_with (c ∷ prefix) (d ∷ text) = c == d && starts_with prefix text

-- `LINUXEMU_` and `LD_LIBRARY_PATH=`
abbrev pub linuxemu_prefix : Bytes
linuxemu_prefix = b'L' ∷ b'I' ∷ b'N' ∷ b'U' ∷ b'X' ∷ b'E' ∷ b'M' ∷ b'U' ∷ b'_' ∷ []

abbrev pub library_path_prefix : Bytes
library_path_prefix =
    b'L' ∷ b'D' ∷ b'_' ∷ b'L' ∷ b'I' ∷ b'B' ∷ b'R' ∷ b'A' ∷ b'R' ∷ b'Y' ∷ b'_' ∷ b'P' ∷ b'A' ∷ b'T'
    ∷ b'H' ∷ b'=' ∷ []

unfoldable pub guest_environment_entry : Bytes → Bool
unfolding starts_with
guest_environment_entry value =
    not (starts_with linuxemu_prefix value) && not (starts_with library_path_prefix value)

-- The entries that the guest gets.
unfoldable pub guest_environment : List Bytes → List Bytes
guest_environment [] = []
guest_environment (e ∷ rest) =
    if guest_environment_entry e then e ∷ guest_environment rest else guest_environment rest

-- The stack while it is filled: the place of the last byte written, and memory.
pub record Filling : Type 0 where
  pub cursor : ℕ
  pub bytes : ℕ → ℕ

-- The i-th byte of a list, and 0 behind it.
abbrev pub byte_at : Bytes → ℕ → ℕ
byte_at [] i = 0
byte_at (c ∷ rest) zero = c
byte_at (c ∷ rest) (suc i) = byte_at rest i

-- `none` is E2BIG; else the address is the new cursor.
unfoldable pub push_bytes : ℕ → Bytes → Filling → Option Filling
push_bytes lower_bound source f =
    let cursor = f.cursor - length source in
    if ltb (f.cursor - lower_bound) (length source)
    then none
    else some
        (record { cursor = cursor; bytes = fill cursor (length source) (byte_at source) f.bytes })

abbrev pub with_nul : Bytes → Bytes
with_nul text = text ++ (0 ∷ [])

abbrev pub prepend : ℕ → Option (List ℕ × Filling) → Option (List ℕ × Filling)
prepend a none = none
prepend a (some (addresses, f)) = some (a ∷ addresses, f)

-- The environment: the first entry first. The addresses are in the order of the entries.
unfoldable pub push_environment : ℕ → List Bytes → Filling → Option (List ℕ × Filling)
push_environment lower_bound [] f = some ([], f)
push_environment lower_bound (text ∷ rest) f = elim (push_bytes lower_bound (with_nul text) f) [
  | none ↦ none
  | some pushed ↦ prepend pushed.cursor (push_environment lower_bound rest pushed)
]

-- The arguments: the last one first.
unfoldable pub push_arguments : ℕ → List Bytes → Filling → Option (List ℕ × Filling)
push_arguments lower_bound [] f = some ([], f)
push_arguments lower_bound (text ∷ rest) f = elim (push_arguments lower_bound rest f) [
  | none ↦ none
  | some (addresses, pushed) ↦ elim (push_bytes lower_bound (with_nul text) pushed) [
    | none ↦ none
    | some top ↦ some (top.cursor ∷ addresses, top)
  ]
]

-- getuid and its kin, and the page size.
pub record Identity : Type 0 where
  pub uid : ℕ
  pub euid : ℕ
  pub gid : ℕ
  pub egid : ℕ
  pub page_size : ℕ

-- The auxiliary vector, with the pair that ends it. The types are the LINUX_AT_ constants.
unfoldable pub auxiliary : Identity → GuestImage → ℕ → ℕ → List ℕ
auxiliary who image random_address name =
    let rest =
      4 ∷ image.program_header_size ∷ 5 ∷ image.program_header_count ∷ 6 ∷ who.page_size ∷ 7
      ∷ image.interpreter_base ∷ 9 ∷ image.entry ∷ 11 ∷ who.uid ∷ 12 ∷ who.euid ∷ 13 ∷ who.gid ∷ 14
      ∷ who.egid ∷ 23 ∷ 0 ∷ 25 ∷ random_address ∷ 31 ∷ name ∷ 0 ∷ 0 ∷ [] in
    if image.program_headers == 0 then rest else 3 ∷ (image.program_headers ∷ rest)

abbrev pub first_of : List ℕ → ℕ
first_of [] = 0
first_of (a ∷ rest) = a

-- The words at the top of the stack.
abbrev pub vector_of : List ℕ → List ℕ → List ℕ → List ℕ
vector_of arguments environment aux =
    length arguments ∷ (arguments ++ (0 ∷ (environment ++ (0 ∷ aux))))

abbrev pub word_of : List ℕ → ℕ → ℕ
word_of [] i = 0
word_of (w ∷ rest) zero = w
word_of (w ∷ rest) (suc i) = word_of rest i

-- The byte of a list of little-endian words.
abbrev pub vector_byte : List ℕ → ℕ → ℕ
vector_byte words i = word_of words (i / 4) / 256 ^ (i % 4) % 256

-- A finished stack: where it begins, with the addresses of the strings and the words.
pub record Built : Type 0 where
  pub start : ℕ
  pub arguments : List ℕ
  pub environment : List ℕ
  pub random_address : ℕ
  pub vector : List ℕ
  pub bytes : ℕ → ℕ

-- From the random bytes on.
unfoldable pub finish_stack :
    ℕ → Identity → GuestImage → Bytes → List ℕ → List ℕ → Filling → Option Built
finish_stack lower_bound who image random arguments environment f =
    elim (push_bytes lower_bound random (record f { cursor = align_down f.cursor 16 })) [
      | none ↦ none
      | some g ↦
          let vector =
            vector_of arguments environment (auxiliary who image g.cursor (first_of arguments)) in
          let start = align_down (g.cursor - length vector * 4) 16 in
          let built : Built = record {
            start = start;
            arguments = arguments;
            environment = environment;
            random_address = g.cursor;
            vector = vector;
            bytes = fill start (4 * length vector) (vector_byte vector) g.bytes;
          } in
          if ltb ((g.cursor - lower_bound) / 4) (length vector)
          then none
          else if ltb start lower_bound
          then none
          else some built
    ]

-- The stack in the mapping at `lower_bound`; `none` is `goto fail`, and so is a lack of memory for
-- the addresses. The random bytes are `none` where they cannot be had.
unfoldable pub build_stack :
    ℕ
    → Identity
    → GuestImage
    → Bool
    → Option Bytes
    → List Bytes
    → List Bytes
    → (ℕ → ℕ)
    → Option Built
build_stack lower_bound who image memory random arguments environ bytes =
    let empty : Filling = record { cursor = lower_bound + guest_stack_size; bytes = bytes } in
    let pushed : Option Built =
      elim (push_environment lower_bound (guest_environment environ) empty) [
        | none ↦ none
        | some (environment, f) ↦ elim (push_arguments lower_bound arguments f) [
          | none ↦ none
          | some (addresses, g) ↦ elim random [
            | none ↦ none
            | some bytes' ↦ finish_stack lower_bound who image bytes' addresses environment g
          ]
        ]
      ] in
    if memory then pushed else none

pub record StackSpace : Type 0 where
  pub table : List Mapping
  pub bytes : ℕ → ℕ
  pub calls : List HostCall

-- `create_guest_stack`: `none` is the result 0.
unfoldable pub create_guest_stack :
    MmapResult
    → Identity
    → GuestImage
    → Bool
    → Option Bytes
    → List Bytes
    → List Bytes
    → StackSpace
    → Option Built × StackSpace
create_guest_stack mapping who image memory random [] environ s = (none, s)
create_guest_stack (map_failed e) who image memory random (name ∷ arguments) environ s = (none, s)
create_guest_stack (mapped_at lower) who image memory random (name ∷ arguments) environ s =
    let size = guest_stack_size in
    let mapped = mmap lower size ∷ s.calls in
    let (status, table) = guest_memory_runtime_map s.table lower size 0 in
    let refused : StackSpace = record s { calls = munmap lower size ∷ mapped } in
    let failed : StackSpace = record refused {
      table = guest_memory_runtime_unmap table lower size;
    } in
    let built = build_stack lower who image memory random (name ∷ arguments) environ s.bytes in
    if misplaced lower size || not (is_done status) then (none, refused) else elim built [
      | none ↦ (none, failed)
      | some b ↦ (some b, record s { table = table; bytes = b.bytes; calls = mapped })
    ]
