-- ===== src/Patch/Sections.antt =====
-- src/arm_patch.c, arm_patch_elf_mapping: the code sections of a file that a new mapping shows.
use alpine_on_qnx.Prelude.{
  ℕ, zero, suc, ◌+◌, ◌-◌, ◌*◌, ◌%◌, ◌^◌, ◌≤◌, ◌<◌, ◌≡◌, ◌⊎◌, inl, inr, Bool, true, false, not, ◌&&◌,
  ◌||◌, Option, none, some, List, [], ◌∷◌, ltb, leb, ◌==◌, if◌then◌else◌, Bool-cases, arith,
}
use alpine_on_qnx.Words.{uintptr_max, u32}
use alpine_on_qnx.Elf.Types.{
  ElfHeader, SectionHeader, is_elf_magic, elfclass32, elfdata2lsb, em_arm, sht_progbits,
  shf_execinstr, shdr_size,
}
use alpine_on_qnx.Memory.Segments.{has_bit}
use alpine_on_qnx.Patch.{Code, arm_patch_range}

-- What can be read of the file: its size, its header, and the section table unless memory for it
-- or the read fails.
pub record MappedFile : Type 0 where
  pub size : ℕ
  pub header : ElfHeader
  pub sections : Option (List SectionHeader)

-- The place in the guest's addresses of a position in the file.
abbrev pub place : ℕ → ℕ → ℕ → ℕ
place address mapping_start position = u32 (address + u32 (position - mapping_start))

-- `while (patch_start < patch_end && (place & 3u) != 0) patch_start++`, on fuel.
unfoldable pub align_patch : ℕ → ℕ → ℕ → ℕ → ℕ → ℕ
align_patch zero address mapping_start start end = start
align_patch (suc fuel) address mapping_start start end =
    let rest = align_patch fuel address mapping_start (start + 1) end in
    if ltb start end && not (place address mapping_start start % 4 == 0) then rest else start

-- The sections that the loop passes over.
unfoldable pub skipped : ℕ → ℕ → SectionHeader → Bool
skipped mapping_start mapping_end s =
    let section_end = s.sh_offset + s.sh_size in
    not (s.sh_type == sht_progbits)
    || not (has_bit s.sh_flags shf_execinstr)
    || s.sh_size == 0
    || ltb section_end s.sh_offset
    || leb mapping_end s.sh_offset
    || leb section_end mapping_start

-- The positions in the file that one section has patched, from the first to before the second.
-- Four rounds of the loop are enough: see `patch_bounds_lem`.
unfoldable pub patch_bounds : ℕ → ℕ → ℕ → SectionHeader → ℕ × ℕ
unfolding align_patch
patch_bounds address mapping_start mapping_end s =
    let section_end = s.sh_offset + s.sh_size in
    let first = if ltb mapping_start s.sh_offset then s.sh_offset else mapping_start in
    let last = if ltb section_end mapping_end then section_end else mapping_end in
    let start = align_patch 4 address mapping_start first last in (start, last - (last - start) % 4)

-- The loop over the sections: whether all went well.
unfoldable pub patch_sections : ℕ → ℕ → ℕ → List SectionHeader → Code → Bool × Code
patch_sections address mapping_start mapping_end [] c = (true, c)
patch_sections address mapping_start mapping_end (s ∷ rest) c =
    let (start, end) = patch_bounds address mapping_start mapping_end s in
    let (error, patched) = arm_patch_range (place address mapping_start start) (end - start) c in
    let go_on = patch_sections address mapping_start mapping_end rest c in
    let go_on_patched = patch_sections address mapping_start mapping_end rest patched in
    if skipped mapping_start mapping_end s || leb end start
    then go_on
    else elim error [ none ↦ go_on_patched | some e ↦ (false, patched) ]

-- The tests on the header, and on the place of the section table in the file.
unfoldable pub has_sections : MappedFile → Bool
has_sections f =
    is_elf_magic f.header.magic
    && f.header.ident_class == elfclass32
    && f.header.ident_encoding == elfdata2lsb
    && f.header.e_machine == em_arm
    && not (f.header.e_shnum == 0)
    && f.header.e_shentsize == shdr_size
    && leb f.header.e_shoff f.size
    && leb (f.header.e_shnum * shdr_size) (f.size - f.header.e_shoff)

-- `arm_patch_elf_mapping`: true is the result 0. `none` is a file descriptor that is negative,
-- or whose status or header cannot be read; `offset` is an `off_t` that is not negative.
unfoldable pub arm_patch_elf_mapping : Option MappedFile → ℕ → ℕ → ℕ → Code → Bool × Code
arm_patch_elf_mapping none offset address len c = (true, c)
arm_patch_elf_mapping (some f) offset address len c =
    if len == 0 || ltb (2 ^ 64 - 1 - offset) len || not (has_sections f)
    then (true, c)
    else elim f.sections [
      | none ↦ (false, c)
      | some sections ↦ patch_sections address offset (offset + len) sections c
    ]

align_patch_lem :
    (fuel address mapping_start start end : ℕ)
    → start ≤ end
    → let r = align_patch fuel address mapping_start start end in (start ≤ r) × (r ≤ end)
unfolding align_patch
align_patch_lem zero address mapping_start start end h = omega arith
align_patch_lem (suc fuel) address mapping_start start end h =
    ground (arith, align_patch_lem fuel address mapping_start (start + 1) end)

-- Where the mapping itself does not pass the end of memory, positions are places, and as many
-- rounds as lack to the next multiple of four are enough.
align_patch_aligned :
    (fuel need address mapping_start start end : ℕ)
    → need ≤ fuel
    → mapping_start ≤ start
    → start ≤ end
    → address + (end - mapping_start) ≤ uintptr_max
    → (address + (start - mapping_start) + need) % 4 ≡ 0
    → let r = align_patch fuel address mapping_start start end in
      (r ≡ end) ⊎ (place address mapping_start r % 4 ≡ 0)
unfolding align_patch
align_patch_aligned zero need address mapping_start start end few le h top m = inr (omega arith)
align_patch_aligned (suc fuel) zero address mapping_start start end few le h top m =
    elim (Bool-cases (ltb start end && not (place address mapping_start start % 4 == 0))) [
      | inl more ↦ absurd (ground arith)
      | inr stop ↦ rw stop (inr (omega arith))
    ]
align_patch_aligned (suc fuel) (suc need) address mapping_start start end few le h top m =
    elim (Bool-cases (ltb start end && not (place address mapping_start start % 4 == 0))) [
      | inl more ↦ rw more (
          align_patch_aligned fuel need address mapping_start (start + 1) end (omega arith)
            (omega arith) (ground arith) top (omega arith))
      | inr stop ↦ rw stop (ground arith)
    ]

missing_to_word : (n : ℕ) → (n + (4 - n % 4) % 4) % 4 ≡ 0
missing_to_word n = omega arith

aligned_range :
    (address offset first last : ℕ)
    → offset ≤ first
    → first ≤ last
    → address + (last - offset) ≤ uintptr_max
    → let start = align_patch 4 address offset first last in
      let end = last - (last - start) % 4 in
      start < end
      → (first ≤ start)
        × (end ≤ last)
        × (place address offset start % 4 ≡ 0)
        × ((end - start) % 4 ≡ 0)
aligned_range address offset first last le h top some_words =
    let (low, high) = align_patch_lem 4 address offset first last h in
    elim (align_patch_aligned 4 ((4 - (address + (first - offset)) % 4) % 4) address offset first
      last (omega arith) le h top (missing_to_word (address + (first - offset)))) [
        | inl at_end ↦ absurd (omega arith)
        | inr aligned ↦ (low, omega arith, aligned, omega arith)
      ]

section_range :
    (offset len : ℕ) (s : SectionHeader)
    → skipped offset (offset + len) s ≡ false
    → let section_end = s.sh_offset + s.sh_size in
      let first = if ltb offset s.sh_offset then s.sh_offset else offset in
      let last = if ltb section_end (offset + len) then section_end else offset + len in
      (s.sh_offset ≤ first)
      × (offset ≤ first)
      × (first ≤ last)
      × (last ≤ section_end)
      × (last ≤ offset + len)
unfolding skipped
section_range offset len s used = ground arith

-- What a section that is not skipped has patched, where anything is and the mapping does not wrap,
-- lies in the section and in the mapping, begins at
-- a word of memory and is a number of words.
pub patch_bounds_lem :
    (address offset len : ℕ) (s : SectionHeader)
    → skipped offset (offset + len) s ≡ false
    → address + len ≤ uintptr_max
    → (patch_bounds address offset (offset + len) s).0
      < (patch_bounds address offset (offset + len) s).1
    → let (start, end) = patch_bounds address offset (offset + len) s in
      (s.sh_offset ≤ start)
      × (end ≤ s.sh_offset + s.sh_size)
      × (offset ≤ start)
      × (end ≤ offset + len)
      × (place address offset start % 4 ≡ 0)
      × ((end - start) % 4 ≡ 0)
unfolding skipped patch_bounds
patch_bounds_lem address offset len s used top some_words =
    let (in_section, in_mapping, ordered, to_section, to_mapping) =
      section_range offset len s used in
    let (low, high, aligned, whole) =
      aligned_range address offset _ _ in_mapping ordered (omega arith) some_words in
    (omega arith, omega arith, omega arith, omega arith, aligned, whole)
