-- ===== src/Elf/Checks.antt =====
-- src/elf_loader.c: the checks of a program header. Files are no longer than 2 ^ 64 bytes and their
-- sizes not negative, which the caller has found before.
use Prim.Native.Nat.{bit_and}
use alpine_on_qnx.Prelude.{
  ℕ, ◌+◌, ◌-◌, ◌*◌, ◌/◌, ◌%◌, ◌^◌, ◌≤◌, ◌≡◌, ◌≢◌, ◌⊎◌, refl, Bool, true, false, not, ◌&&◌, ◌||◌,
  ltb, leb, ◌==◌, if◌then◌else◌, arith,
}
use alpine_on_qnx.Words.{u32, not32, pred32}
use alpine_on_qnx.Bits.{bit_and_digit, bit_and_low}
use alpine_on_qnx.Elf.Types.{pt_load, pt_interp}
use alpine_on_qnx.Memory.Segments.{ProgramHeader, protection_from_flags}

unfoldable pub range_in_file : ℕ → ℕ → ℕ → Bool
range_in_file offset len file_size = leb offset file_size && leb len (file_size - offset)

unfoldable pub valid_alignment : ℕ → Bool
valid_alignment alignment =
    alignment == 0 || (alignment == 1 || bit_and alignment (pred32 alignment) == 0)

-- The condition under which a header of a segment with memory is refused.
unfoldable pub bad_load : ProgramHeader → ℕ → Bool
unfolding range_in_file valid_alignment
bad_load h file_size =
    ltb h.p_memsz h.p_filesz
    || ((not (h.p_filesz == 0) && not (range_in_file h.p_offset h.p_filesz file_size))
        || (not (valid_alignment h.p_align)
            || ((ltb 1 h.p_align
                  && not (bit_and (u32 (h.p_vaddr + (2 ^ 32 - h.p_offset))) (h.p_align - 1) == 0))
                || (not (bit_and h.p_flags (not32 7) == 0) || bit_and h.p_flags 3 == 3))))

-- True is the result 0, false ENOEXEC.
unfoldable pub validate_program_header : ProgramHeader → ℕ → Bool
validate_program_header h file_size =
    if h.p_type == pt_load && not (h.p_memsz == 0)
    then not (bad_load h file_size)
    else if h.p_type == pt_interp
    then range_in_file h.p_offset h.p_filesz file_size
    else true

and_zero : (a : ℕ) → bit_and a 0 ≡ 0
and_zero a = bit_and_low 0 a a 0 (omega arith) (omega arith)

and_one : (a : ℕ) → bit_and a 1 ≡ a % 2
and_one a = omega (arith, bit_and_digit a 1, and_zero (a / 2))

and_two : (a : ℕ) → bit_and a 2 ≡ ((a / 2) % 2) * 2
and_two a = omega (arith, bit_and_digit a 2, and_one (a / 2))

and_three : (a : ℕ) → bit_and a 3 ≡ ((a / 2) % 2) * 2 + a % 2
and_three a = omega (arith, bit_and_digit a 3, and_one (a / 2))

write_or_execute :
    (flags : ℕ)
    → bit_and flags 3 ≢ 3
    → (protection_from_flags flags).write && (protection_from_flags flags).exec ≡ false
unfolding protection_from_flags
write_or_execute flags h = ground (arith, and_one flags, and_two flags, and_three flags)

or_false : (a b : Bool) → a || b ≡ false → (a ≡ false) × (b ≡ false)
or_false true b h = absurd cc
or_false false b h = (refl, h)

not-true : (b : Bool) → not b ≡ true → b ≡ false
not-true true h = absurd cc
not-true false h = refl

in_file :
    (h : ProgramHeader) (file_size : ℕ)
    → not (h.p_filesz == 0) && not (range_in_file h.p_offset h.p_filesz file_size) ≡ false
    → (h.p_filesz ≡ 0) ⊎ (h.p_offset + h.p_filesz ≤ file_size)
unfolding range_in_file
in_file h file_size good = ground arith

not_three : (n : ℕ) → n == 3 ≡ false → n ≢ 3
not_three n h = ground arith

good_load :
    (h : ProgramHeader) (file_size : ℕ)
    → bad_load h file_size ≡ false
    → (h.p_filesz ≤ h.p_memsz)
      × ((h.p_filesz ≡ 0) ⊎ (h.p_offset + h.p_filesz ≤ file_size))
      × (bit_and h.p_flags 3 ≢ 3)
unfolding bad_load
good_load h file_size good =
    let first = or_false (ltb h.p_memsz h.p_filesz) _ good in
    let second =
      or_false (not (h.p_filesz == 0) && not (range_in_file h.p_offset h.p_filesz file_size)) _
        first.1 in
    let third = or_false (not (valid_alignment h.p_align)) _ second.1 in
    let fourth =
      or_false
        (ltb 1 h.p_align
          && not (bit_and (u32 (h.p_vaddr + (2 ^ 32 - h.p_offset))) (h.p_align - 1) == 0))
        _ third.1 in
    let fifth =
      or_false (not (bit_and h.p_flags (not32 7) == 0)) (bit_and h.p_flags 3 == 3) fourth.1 in
    (ground (arith, first.0), in_file h file_size second.0, not_three (bit_and h.p_flags 3) fifth.1)

-- A header of a segment with memory that is let through describes a range of the file that is there
-- or empty, no longer than the memory, and pages that are not both writable and executable.
pub validate_program_header_lem :
    (h : ProgramHeader) (file_size : ℕ)
    → validate_program_header h file_size ≡ true
    → h.p_type ≡ pt_load
    → h.p_memsz ≢ 0
    → (h.p_filesz ≤ h.p_memsz)
      × ((h.p_filesz ≡ 0) ⊎ (h.p_offset + h.p_filesz ≤ file_size))
      × ((protection_from_flags h.p_flags).write && (protection_from_flags h.p_flags).exec ≡ false)
unfolding validate_program_header
validate_program_header_lem h file_size valid load memory =
    let checked : h.p_type == pt_load && not (h.p_memsz == 0) ≡ true = ground arith in
    let good = good_load h file_size (not-true (bad_load h file_size) (rw checked at valid)) in
    (good.0, good.1, write_or_execute h.p_flags good.2)
