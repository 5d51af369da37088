-- ===== src/Patch/Forget.antt =====
-- src/arm_patch.c: arm_patch_forget_range and arm_patch_elf_mapping as the guest sees them.
use alpine_on_qnx.Prelude.{
  ℕ, ◌+◌, ◌-◌, ◌≤◌, ◌<◌, ◌≡◌, ◌⊎◌, refl, ap₂, ◌∙◌, inl, inr, false, not, ◌||◌, Option, none, some,
  List, [], ◌∷◌, ltb, leb, ◌==◌, Bool-cases, Option-cases, arith,
}
use alpine_on_qnx.Prelude.{◌^◌}
use alpine_on_qnx.Words.{uintptr_max}
use alpine_on_qnx.Elf.Types.{SectionHeader}
use alpine_on_qnx.Patch.{
  PatchRecord, Code, arm_patch_range, arm_patch_original, forget, arm_patch_forget_range,
}
use alpine_on_qnx.Patch.Guest.{IsCoherent, guest_word}
use alpine_on_qnx.Patch.Range.{arm_patch_range_unseen}
use alpine_on_qnx.Patch.Sections.{
  MappedFile, skipped, patch_bounds, place, patch_sections, has_sections, arm_patch_elf_mapping,
}

abbrev pub Beside : ℕ → ℕ → ℕ → Type 0
Beside start end a = (a < start) ⊎ (end ≤ a)

-- Beside the range the records are as before, and in it there are none.
pub forget_outside :
    (start end a : ℕ) (patches : List PatchRecord)
    → Beside start end a
    → arm_patch_original a (forget start end patches) ≡ arm_patch_original a patches
unfolding forget arm_patch_original
forget_outside start end a [] out = refl
forget_outside start end a (p ∷ rest) out = ground (arith, forget_outside start end a rest out)

pub forget_within :
    (start end a : ℕ) (patches : List PatchRecord)
    → start ≤ a
    → a < end
    → arm_patch_original a (forget start end patches) ≡ none
unfolding forget arm_patch_original
forget_within start end a [] le lt = refl
forget_within start end a (p ∷ rest) le lt = ground (arith, forget_within start end a rest le lt)

-- What is left is coherent with any memory that agrees beside the range.
pub forget-IsCoherent :
    (start end : ℕ) (words after : ℕ → ℕ) (patches : List PatchRecord)
    → ((a : ℕ) → Beside start end a → after a ≡ words a)
    → IsCoherent words patches
    → IsCoherent after (forget start end patches)
unfolding forget
forget-IsCoherent start end words after [] same c = tt
forget-IsCoherent start end words after (p ∷ rest) same c =
    let ih = forget-IsCoherent start end words after rest same c.1 in
    elim (Bool-cases (ltb p.address start || leb end p.address)) [
      | inl out ↦ rw out (same p.address (ground arith) ∙ c.0, ih)
      | inr within ↦ rw within ih
    ]

pub guest_word_cong :
    (c d : Code) (a : ℕ)
    → arm_patch_original a d.patches ≡ arm_patch_original a c.patches
    → d.words a ≡ c.words a
    → guest_word d a ≡ guest_word c a
guest_word_cong c d a records words =
    ap₂ (λ (o : Option ℕ) (w : ℕ). elim o [ some word ↦ word | none ↦ w ]) records words

pub forget_range_end :
    (start len : ℕ) (c : Code)
    → start + len ≤ uintptr_max
    → arm_patch_forget_range start len c
      ≡ record c { patches = forget start (start + len) c.patches }
unfolding arm_patch_forget_range
forget_range_end start len c le =
    let fits : ltb (uintptr_max - start) len ≡ false = ground arith in rw fits refl

module _ (P : Code → Type 0)
    (keep : (start len : ℕ) (c : Code) → P c → P (arm_patch_range start len c).1) where
  patch_sections_keep :
      (address start end : ℕ) (sections : List SectionHeader) (c : Code)
      → P c
      → P (patch_sections address start end sections c).1
  unfolding patch_sections
  patch_sections_keep address start end [] c h = h
  patch_sections_keep address start end (s ∷ rest) c h =
      let from = place address start (patch_bounds address start end s).0 in
      let size = (patch_bounds address start end s).1 - (patch_bounds address start end s).0 in
      let done = arm_patch_range from size c in
      let p = keep from size c h in
      elim (Bool-cases (
        skipped start end s
        || leb (patch_bounds address start end s).1 (patch_bounds address start end s).0)) [
          | inl e ↦ rw (e, patch_sections) (patch_sections_keep address start end rest c h)
          | inr e ↦ elim (Option-cases done.0) [
            | inl f ↦
                rw (e, f, patch_sections) (patch_sections_keep address start end rest done.1 p)
            | inr (error, f) ↦ rw (e, f, patch_sections) p
          ]
        ]

  pub elf_mapping_keep :
      (file : Option MappedFile) (offset address len : ℕ) (c : Code)
      → P c
      → P (arm_patch_elf_mapping file offset address len c).1
  unfolding arm_patch_elf_mapping
  elf_mapping_keep none offset address len c h = h
  elf_mapping_keep (some f) offset address len c h =
      elim (Bool-cases (len == 0 || ltb (2 ^ 64 - 1 - offset) len || not (has_sections f))) [
        | inl e ↦ rw e h
        | inr e ↦ elim (Option-cases f.sections) [
          | inl g ↦ rw (e, g, arm_patch_elf_mapping) h
          | inr (sections, g) ↦
              rw (e, g, arm_patch_elf_mapping)
                (patch_sections_keep address offset (offset + len) sections c h)
        ]
      ]

-- However far the patching of a mapped file comes, the guest sees the words that it would see without,
-- and every recorded address holds the trapping instruction.
pub elf_mapping_unseen :
    (file : Option MappedFile) (offset address len : ℕ) (c : Code)
    → IsCoherent c.words c.patches
    → let new = (arm_patch_elf_mapping file offset address len c).1 in
      ((a : ℕ) → guest_word new a ≡ guest_word c a) × IsCoherent new.words new.patches
elf_mapping_unseen file offset address len c h =
    elf_mapping_keep
      (λ (t : Code). ((a : ℕ) → guest_word t a ≡ guest_word c a) × IsCoherent t.words t.patches)
      (λ start size t p. (
        λ a. (arm_patch_range_unseen start size t a p.1).0 ∙ p.0 a,
        (arm_patch_range_unseen start size t 0 p.1).1,
      ))
      file offset address len c (λ a. refl, h)
