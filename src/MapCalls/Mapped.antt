-- ===== src/MapCalls/Mapped.antt =====
-- src/linux_syscall.c with src/arm_patch.c and src/guest_memory.c: what linux_mmap2 leaves behind.
use alpine_on_qnx.Prelude.{
  ℕ, ◌+◌, ◌≤◌, ◌<◌, ◌≡◌, refl, ◌∙◌, inl, inr, Bool, true, false, ◌&&◌, some, List, [], ◌∷◌, leb,
  ltb, if◌then◌else◌, Bool-cases, arith,
}
use alpine_on_qnx.Words.{uintptr_max}
use alpine_on_qnx.Memory.Table.{mapping_at}
use alpine_on_qnx.Memory.Table.Replace.{IsTable}
use alpine_on_qnx.Memory.Table.Refine.{update_range}
use alpine_on_qnx.Memory.Segments.{
  HostCall, mmap, munmap, mprotect, msync, guest_min_address, guest_max_address,
}
use alpine_on_qnx.Patch.{Code, arm_patch_original, forget, arm_patch_forget_range}
use alpine_on_qnx.Patch.Guest.{IsCoherent, guest_word}
use alpine_on_qnx.Patch.Forget.{
  Beside, forget_outside, forget_within, forget-IsCoherent, guest_word_cong, forget_range_end,
  elf_mapping_unseen,
}
use alpine_on_qnx.MapCalls.{AddressSpace}
use alpine_on_qnx.MapCalls.Map.{
  MapEnd, address, constant, number, MapAnswers, MapRequest, patch_mapping, show,
}

-- What the log of the host's calls, the latest first, leaves mapped at an address.
abbrev pub host_maps : List HostCall → ℕ → Bool
host_maps [] a = false
host_maps (mmap start len ∷ calls) a =
    if leb start a && ltb a (start + len) then true else host_maps calls a
host_maps (munmap start len ∷ calls) a =
    if leb start a && ltb a (start + len) then false else host_maps calls a
host_maps (mprotect start len p ∷ calls) a = host_maps calls a
host_maps (msync start len ∷ calls) a = host_maps calls a

abbrev pub is_address : MapEnd → Bool
is_address (address at) = true
is_address (constant e) = false
is_address (number e) = false

module _ (at len : ℕ) where
  -- Beside the range the guest's program is the same, and no record of a patch is wrong.
  pub record Aside (before after : Code) : Type 0 where
    pub words : (a : ℕ) → Beside at (at + len) a → guest_word after a ≡ guest_word before a
    pub coherent : IsCoherent after.words (forget at (at + len) after.patches)

  -- The host maps the range, or does not, and the other addresses as it did.
  pub record HostRange (mapped : Bool) (old new : List HostCall) : Type 0 where
    pub in_range : (a : ℕ) → at ≤ a → a < at + len → host_maps new a ≡ mapped
    pub elsewhere : (a : ℕ) → Beside at (at + len) a → host_maps new a ≡ host_maps old a

  pub mmap-HostRange : (calls : List HostCall) → HostRange true calls (mmap at len ∷ calls)
  mmap-HostRange calls = record {
    in_range = λ a le lt. ground (arith, le, lt);
    elsewhere = λ a out. ground (arith, out);
  }

  pub munmap-HostRange :
      (old calls : List HostCall)
      → HostRange true old calls
      → HostRange false old (munmap at len ∷ calls)
  munmap-HostRange old calls h = record {
    in_range = λ a le lt. ground (arith, le, lt);
    elsewhere = λ a out. let same = h.elsewhere a out in ground (arith, out, same);
  }

  -- A range that was mapped and given back: nothing is mapped there then.
  pub record Undone (s new : AddressSpace) : Type 0 where
    pub table : new.table ≡ s.table
    pub host : HostRange false s.calls new.calls
    pub aside : Aside s.code new.code

  -- A range that is mapped, with the words that it shows and its mark in the table.
  pub record Made (executable : ℕ) (shown : ℕ → ℕ) (s new : AddressSpace) : Type 0 where
    pub low : guest_min_address ≤ at
    pub high : at + len ≤ guest_max_address
    pub table : IsTable s.table → IsTable new.table
    pub view :
        IsTable s.table
        → (a : ℕ)
        → mapping_at new.table a ≡ update_range (mapping_at s.table) at len (some executable) a
    pub host : HostRange true s.calls new.calls
    pub beside : (a : ℕ) → Beside at (at + len) a → guest_word new.code a ≡ guest_word s.code a
    pub within : (a : ℕ) → at ≤ a → a < at + len → guest_word new.code a ≡ shown a
    pub coherent : IsCoherent new.code.words new.code.patches

  module _ (shown : ℕ → ℕ) (c : Code) (coherent : IsCoherent c.words c.patches) where
    abbrev pub shown_code : Code
    shown_code = record c { words = show at len shown c.words }

    abbrev forgotten : Code
    forgotten = record shown_code { patches = forget at (at + len) c.patches }

    show_outside : (a : ℕ) → Beside at (at + len) a → show at len shown c.words a ≡ c.words a
    show_outside a out = ground arith

    pub shown_code-Aside : Aside c shown_code
    shown_code-Aside = record {
      words = λ a out. guest_word_cong c shown_code a refl (show_outside a out);
      coherent = forget-IsCoherent at (at + len) c.words _ c.patches show_outside coherent;
    }

    pub forgotten_outside :
        (a : ℕ) → Beside at (at + len) a → guest_word forgotten a ≡ guest_word c a
    forgotten_outside a out =
        guest_word_cong c forgotten a (forget_outside at (at + len) a c.patches out)
          (show_outside a out)

    pub forgotten_within : (a : ℕ) → at ≤ a → a < at + len → guest_word forgotten a ≡ shown a
    unfolding arm_patch_original
    forgotten_within a le lt =
        let gone = forget_within at (at + len) a c.patches le lt in
        let here : show at len shown c.words a ≡ shown a = ground arith in
        guest_word_cong (record { words = shown; patches = [] }) forgotten a gone here

    pub forgotten-IsCoherent : IsCoherent forgotten.words forgotten.patches
    forgotten-IsCoherent = forget-IsCoherent at (at + len) c.words _ c.patches show_outside coherent

  -- What `patch_mapping` hands on.
  pub record Filled (shown : ℕ → ℕ) (before after : Code) : Type 0 where
    pub beside : (a : ℕ) → Beside at (at + len) a → guest_word after a ≡ guest_word before a
    pub within : (a : ℕ) → at ≤ a → a < at + len → guest_word after a ≡ shown a
    pub coherent : IsCoherent after.words after.patches

  pub Filled-give_up :
      (shown : ℕ → ℕ) (before after : Code)
      → at + len ≤ uintptr_max
      → Filled shown before after
      → Aside before (arm_patch_forget_range at len after)
  Filled-give_up shown before after le f = rw (forget_range_end at len after le) (record {
    words = λ a out.
        guest_word_cong after (record after { patches = forget at (at + len) after.patches }) a
          (forget_outside at (at + len) a after.patches out) refl
        ∙ f.beside a out;
    coherent =
        forget-IsCoherent at (at + len) after.words after.words _ (λ a out. refl)
          (forget-IsCoherent at (at + len) after.words after.words after.patches (λ a out. refl)
            f.coherent);
  })

  pub patch_mapping-Filled :
      (shown : ℕ → ℕ) (answers : MapAnswers) (r : MapRequest) (c : Code)
      (coherent : IsCoherent c.words c.patches)
      → r.mapped_length ≡ len
      → at + len ≤ uintptr_max
      → Filled shown c (patch_mapping answers r at (shown_code shown c coherent)).1
  unfolding patch_mapping
  patch_mapping-Filled shown answers r c coherent size le =
      let gone = forgotten shown c coherent in
      let same = forget_range_end at len (shown_code shown c coherent) le in
      let (unseen, kept) =
        elf_mapping_unseen answers.file r.offset at len gone
          (forgotten-IsCoherent shown c coherent) in
      elim (Bool-cases r.anonymous) [
        | inl e ↦
            rw (e, size, same)
              (record {
                beside = forgotten_outside shown c coherent;
                within = forgotten_within shown c coherent;
                coherent = forgotten-IsCoherent shown c coherent;
              })
        | inr e ↦
            rw (e, size, same)
              (record {
                beside = λ a out. unseen a ∙ forgotten_outside shown c coherent a out;
                within = λ a le' lt. unseen a ∙ forgotten_within shown c coherent a le' lt;
                coherent = kept;
              })
      ]
