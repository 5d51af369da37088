-- ===== src/Elf/Sections.antt =====
-- src/elf_loader.c, patch_executable_sections: the code sections of a file that is loaded.
use alpine_on_qnx.Prelude.{
  ℕ, suc, ◌+◌, ◌-◌, ◌%◌, ◌≡◌, Bool, true, false, not, ◌&&◌, ◌||◌, Option, none, some, List, [], ◌∷◌,
  ltb, leb, ◌==◌, if◌then◌else◌, length, Bool-cases, Option-cases, inl, inr,
}
use alpine_on_qnx.Words.{uintptr_max}
use alpine_on_qnx.Elf.Types.{SectionHeader, pt_load, pf_x, sht_progbits, shf_write, shf_execinstr}
use alpine_on_qnx.Elf.Checks.{range_in_file, valid_alignment}
use alpine_on_qnx.Memory.Table.{Mapping}
use alpine_on_qnx.Memory.Segments.{LoadSegment, ProgramHeader, has_bit}
use alpine_on_qnx.Memory.Query.{guest_memory_is_executable}
use alpine_on_qnx.Patch.{Code, arm_patch_range, arm_patch_rollback}
use alpine_on_qnx.Patch.Undo.{
  Undone, Undone-trans, Undone-refl, arm_patch_range-Undone, rollback-Undone,
}

unfoldable pub section_in_executable_load : SectionHeader → List ProgramHeader → Bool
section_in_executable_load s [] = false
section_in_executable_load s (h ∷ rest) =
    let passed =
      not (h.p_type == pt_load)
      || (not (has_bit h.p_flags pf_x)
          || (ltb s.sh_addr h.p_vaddr || ltb s.sh_offset h.p_offset)) in
    let file_delta = s.sh_offset - h.p_offset in
    let found =
      s.sh_addr - h.p_vaddr == file_delta
      && (leb file_delta h.p_filesz && leb s.sh_size (h.p_filesz - file_delta)) in
    if not passed && found then true else section_in_executable_load s rest

-- What the code knows when it comes to the sections: the loaded program and the file's headers.
pub record Loaded : Type 0 where
  pub segments : List LoadSegment
  pub mappings : List Mapping
  pub headers : List ProgramHeader
  pub load_bias : ℕ
  pub file_size : ℕ

-- The checks of one section with code.
unfoldable pub accepted_section : Loaded → SectionHeader → Bool
unfolding section_in_executable_load
accepted_section loaded s =
    s.sh_type == sht_progbits
    && (range_in_file s.sh_offset s.sh_size loaded.file_size
        && (valid_alignment s.sh_addralign
            && (not (has_bit s.sh_flags shf_write)
                && (section_in_executable_load s loaded.headers
                    && (leb loaded.load_bias (uintptr_max - s.sh_addr)
                        && ((loaded.load_bias + s.sh_addr) % 4 == 0
                            && (s.sh_size % 4 == 0
                                && guest_memory_is_executable loaded.segments loaded.mappings
                                    (loaded.load_bias + s.sh_addr) s.sh_size)))))))

-- The loop, with its count of executable sections; `none` is `goto done` with an error.
unfoldable pub patch_each : Loaded → List SectionHeader → ℕ → Code → Option ℕ × Code
patch_each loaded [] executable_sections c = (some executable_sections, c)
patch_each loaded (s ∷ rest) executable_sections c =
    let (error, patched) = arm_patch_range (loaded.load_bias + s.sh_addr) s.sh_size c in
    let passed = patch_each loaded rest executable_sections c in
    let counted = patch_each loaded rest (suc executable_sections) patched in
    if not (has_bit s.sh_flags shf_execinstr) || s.sh_size == 0
    then passed
    else if accepted_section loaded s
    then elim error [ none ↦ counted | some e ↦ (none, patched) ]
    else (none, c)

-- `patch_executable_sections` from the section table on: true is the result 0.
unfoldable pub patch_executable_sections : Loaded → List SectionHeader → Code → Bool × Code
patch_executable_sections loaded sections c =
    let (count, patched) = patch_each loaded sections 0 c in
    elim count [ none ↦ (false, patched) | some n ↦ (not (n == 0), patched) ]

pub patch_each-Undone :
    (loaded : Loaded) (sections : List SectionHeader) (n : ℕ) (c : Code)
    → Undone c (patch_each loaded sections n c).1
unfolding patch_each
patch_each-Undone loaded [] n c = Undone-refl c
patch_each-Undone loaded (s ∷ rest) n c =
    let one = arm_patch_range-Undone (loaded.load_bias + s.sh_addr) s.sh_size c in
    let result = arm_patch_range (loaded.load_bias + s.sh_addr) s.sh_size c in
    elim (Bool-cases (not (has_bit s.sh_flags shf_execinstr) || s.sh_size == 0)) [
      | inl e ↦ rw (e, patch_each) (patch_each-Undone loaded rest n c)
      | inr e ↦ elim (Bool-cases (accepted_section loaded s)) [
        | inr f ↦ rw (e, f, patch_each) (Undone-refl c)
        | inl f ↦ elim (Option-cases result.0) [
          | inl g ↦
              rw (e, f, g, patch_each)
                (Undone-trans one (patch_each-Undone loaded rest (suc n) result.1))
          | inr (error, g) ↦ rw (e, f, g, patch_each) one
        ]
      ]
    ]

-- Whether the sections are accepted or not, a rollback of the patches to the count of before brings
-- every word and every record back.
pub patch_executable_sections-rollback :
    (loaded : Loaded) (sections : List SectionHeader) (c : Code)
    → arm_patch_rollback (length c.patches) (patch_executable_sections loaded sections c).1 ≡ c
unfolding patch_executable_sections
patch_executable_sections-rollback loaded sections c =
    elim (Option-cases (patch_each loaded sections 0 c).0) [
      | inl e ↦
          rw (e, patch_executable_sections)
            (rollback-Undone (patch_each-Undone loaded sections 0 c))
      | inr (n, e) ↦
          rw (e, patch_executable_sections)
            (rollback-Undone (patch_each-Undone loaded sections 0 c))
    ]
