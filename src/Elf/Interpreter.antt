-- ===== src/Elf/Interpreter.antt =====
-- src/elf_loader.c: the path of the interpreter that a file names.
use alpine_on_qnx.Prelude.{
  ℕ, zero, suc, ◌+◌, ◌-◌, ◌⊎◌, inl, inr, Bool, true, false, not, ◌&&◌, ◌||◌, Option, none, some,
  List, [], ◌∷◌, ltb, ◌==◌, if◌then◌else◌, length,
}
use alpine_on_qnx.Abi.Errno.{Errno, enoexec}
use alpine_on_qnx.Elf.Types.{pt_interp}
use alpine_on_qnx.GuestPath.{Bytes, same_bytes, dot, dot_dot}
use alpine_on_qnx.Memory.Segments.{ProgramHeader, Host}

-- A component that the loop lets pass; it is given with its last byte first, which does not matter to
-- the tests.
abbrev pub good_component : Bytes → Bool
good_component c = not (length c == 0) && not (same_bytes c dot) && not (same_bytes c dot_dot)

-- The loop over the components of a path that does not end in a slash.
unfoldable pub good_components : Bytes → Bytes → Bool
good_components current [] = good_component current
good_components current (c ∷ rest) =
    let ended = good_components [] rest in
    let longer = good_components (c ∷ current) rest in
    if c == b'/' then good_component current && ended else longer

abbrev pub ends_in_slash : Bytes → Bool
ends_in_slash [] = false
ends_in_slash (c ∷ []) = c == b'/'
ends_in_slash (c ∷ (d ∷ rest)) = ends_in_slash (d ∷ rest)

unfoldable pub safe_interpreter_path : Bytes → Bool
unfolding good_components
safe_interpreter_path [] = false
safe_interpreter_path (c ∷ path) =
    c == b'/' && not (length path == 0) && not (ends_in_slash (c ∷ path)) && good_components [] path

-- `length` bytes of the file from `offset`.
unfoldable pub bytes_from : (ℕ → ℕ) → ℕ → ℕ → Bytes
bytes_from file offset zero = []
bytes_from file offset (suc n) = file offset ∷ bytes_from file (suc offset) n

unfoldable pub has_nul : Bytes → Bool
has_nul [] = false
has_nul (c ∷ rest) = c == 0 || has_nul rest

-- One header of the interpreter: `none` is ENOEXEC.
unfoldable pub interpreter_path : Host → ℕ → ProgramHeader → Option Bytes
interpreter_path host capacity h =
    let last = h.p_filesz - 1 in
    let path = bytes_from host.file h.p_offset last in
    let read : Bool = elim (host.read_error h.p_offset h.p_filesz) [
      | some e ↦ false
      | none ↦ true
    ] in
    if ltb h.p_filesz 2
      || ltb capacity h.p_filesz
      || not read
      || not (host.file (h.p_offset + last) == 0)
      || has_nul path
      || not (safe_interpreter_path path)
    then none
    else some path

-- The loop over the program headers, of which one at most names an interpreter.
unfoldable pub read_interpreter : Host → ℕ → List ProgramHeader → Errno ⊎ Bytes
read_interpreter host capacity [] = inr []
read_interpreter host capacity (h ∷ rest) =
    let others = read_interpreter host capacity rest in
    if h.p_type == pt_interp
    then elim (interpreter_path host capacity h) [ none ↦ inl enoexec | some path ↦ inr path ]
    else others
