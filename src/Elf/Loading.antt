-- ===== src/Elf/Loading.antt =====
-- src/elf_loader.c: load_elf_object, which loads a file or leaves nothing behind.
use alpine_on_qnx.Prelude.{
  ℕ, ◌+◌, ◌-◌, ◌*◌, ◌≤◌, ◌<◌, ◌≡◌, ◌≢◌, ◌⊎◌, refl, inl, inr, Bool, not, ◌&&◌, ◌||◌, Option, none,
  List, [], ◌∷◌, ltb, leb, ◌==◌, if◌then◌else◌, length, Bool-cases, Option-cases, arith,
}
use alpine_on_qnx.Words.{uintptr_max, u32}
use alpine_on_qnx.Abi.Errno.{Errno}
use alpine_on_qnx.Elf.Types.{pt_load, et_dyn, shdr_size}
use alpine_on_qnx.Elf.Sections.{Loaded, patch_each, patch_each-Undone, patch_executable_sections}
use alpine_on_qnx.Elf.Load.{
  ElfFile, ElfObject, LoadState, program_headers_of, refresh, load_header, load_headers, patch_file,
  attempt, is_eexist, try_biases, biases_for, check_file, load_elf_object,
}
use alpine_on_qnx.Elf.Restore.{
  Held, Traced-same, Traced-Undone, Good, Progress, Restored, Restored-refl, Restored-trans,
  Restored-Progress, Progress-refl, Progress-trans, roll_back-Progress,
}
use alpine_on_qnx.GuestPath.{Bytes}
use alpine_on_qnx.Memory.Table.{Mapping}
use alpine_on_qnx.Memory.Segments.{LoadSegment, ProgramHeader, guest_memory_map_load_segment}
use alpine_on_qnx.Memory.Segments.Loading.{Clear, load-IsLayout, validate_load_range_lem}
use alpine_on_qnx.Memory.Segments.Mapped.{load_outcome, load-Grown}
use alpine_on_qnx.Memory.Query.{segment_at, outside}
use alpine_on_qnx.Patch.Undo.{Undone, Undone-refl}

kept_word :
    (low high a : ℕ) (segments : List LoadSegment) (x y : ℕ)
    → low < high
    → Clear low high segments
    → segment_at segments a ≢ none
    → (if leb low a && ltb a (low + (high - low)) then x else y) ≡ y
kept_word low high a segments x y lt clear held =
    elim (Bool-cases (leb low a && ltb a (low + (high - low)))) [
      | inl here ↦ absurd (held (outside low high a segments clear (ground arith) (ground arith)))
      | inr there ↦ rw there refl
    ]

module _ (page_size : ℕ) (file : ElfFile) (load_bias : ℕ) where
  -- The new segment is apart from those that are held, so their words stay.
  refresh_same :
      (h : ProgramHeader) (st : LoadState) (a : ℕ)
      → let space =
          (guest_memory_map_load_segment page_size file.host h load_bias file.size st.space) in
        space.0 ≡ none
        → Held st a
        → refresh space.1.segments space.1.bytes st.code.words a ≡ st.code.words a
  refresh_same h st a done held =
      elim (load_outcome page_size file.host h load_bias file.size st.space) [
        | inr (failed, same) ↦ absurd (failed done)
        | inl (p, ok, t) ↦
            let (low, lt, high, clear) = validate_load_range_lem _ _ st.space.segments ok.valid in
            rw t.segments_eq (kept_word _ _ a st.space.segments _ _ lt clear held)
      ]

  load_header-Progress :
      (h : ProgramHeader) (st : LoadState)
      → Progress st (load_header page_size file load_bias h st).1
  unfolding load_header
  load_header-Progress h st =
      let result =
        guest_memory_map_load_segment page_size file.host h load_bias file.size st.space in
      let grown = load-Grown page_size file.host h load_bias file.size st.space in
      let good =
        λ (g : Good st). load-IsLayout page_size file.host h load_bias file.size st.space g.0 g.1 in
      elim (Option-cases result.0) [
        | inr (e, f) ↦
            rw (f, load_header)
              (record { grown = grown; traced = Traced-same refl (λ a k. refl); good = good })
        | inl f ↦
            rw (f, load_header)
              (record {
                grown = grown;
                traced = Traced-same refl (λ a k. refresh_same h st a f k);
                good = good;
              })
      ]

  load_headers-Progress :
      (headers : List ProgramHeader) (data_end : ℕ) (st : LoadState)
      → Progress st (load_headers page_size file load_bias headers data_end st).2
  unfolding load_headers
  load_headers-Progress [] data_end st = Progress-refl st
  load_headers-Progress (h ∷ rest) data_end st =
      let (failed, loaded) = load_header page_size file load_bias h st in
      let end = u32 (load_bias + h.p_vaddr + h.p_memsz) in
      let one = load_header-Progress h st in
      elim (Bool-cases (h.p_type == pt_load && not (h.p_memsz == 0))) [
        | inr other ↦ rw other (load_headers-Progress rest data_end st)
        | inl load ↦ elim (Option-cases failed) [
          | inr (e, f) ↦ rw (load, f, load_headers) one
          | inl f ↦
              rw (load, f, load_headers)
                (Progress-trans one
                  (load_headers-Progress rest (if ltb data_end end then end else data_end) loaded))
        ]
      ]

  patch_file-Undone :
      (mappings : List Mapping) (st : LoadState)
      → Undone st.code (patch_file mappings file load_bias st).1
  unfolding patch_file patch_executable_sections
  patch_file-Undone mappings st =
      let h = file.header in
      let loaded : Loaded = record {
        segments = st.space.segments;
        mappings = mappings;
        headers = program_headers_of file;
        load_bias = load_bias;
        file_size = file.size;
      } in
      elim (Bool-cases (
        h.e_shnum == 0
        || (not (h.e_shentsize == shdr_size)
            || (ltb file.size h.e_shoff || ltb (file.size - h.e_shoff) (h.e_shnum * shdr_size))))) [
              | inl bad ↦ rw bad (Undone-refl st.code)
              | inr good ↦ elim (Option-cases file.sections) [
                | inl e ↦ rw (good, e, patch_file) (Undone-refl st.code)
                | inr (sections, e) ↦
                    let undone = patch_each-Undone loaded sections 0 st.code in
                    elim (Option-cases (patch_each loaded sections 0 st.code).0) [
                      | inl f ↦ rw (good, e, f, patch_file, patch_executable_sections) undone
                      | inr (n, f) ↦ rw (good, e, f, patch_file, patch_executable_sections) undone
                    ]
              ]
            ]

-- A failure leaves nothing behind; a success can be taken back.
abbrev pub Ended : {A : Type 0} → (A → Type 0) → LoadState → Errno ⊎ A → LoadState → Type 0
Ended P st (inl e) new = Restored st new
Ended P st (inr x) new = Progress st new × P x

abbrev pub OneOf : List ℕ → ℕ → Type 0
OneOf [] n = ⊥
OneOf (x ∷ rest) n = (n ≡ x) ⊎ OneOf rest n

Ended-after :
    {A : Type 0} {P Q : A → Type 0} {st mid : LoadState} (r : Errno ⊎ A) (new : LoadState)
    → Restored st mid
    → Ended P mid r new
    → ((x : A) → P x → Q x)
    → Ended Q st r new
Ended-after (inl e) new g h sub = Restored-trans g h
Ended-after (inr x) new g h sub = (Progress-trans (Restored-Progress g) h.0, sub x h.1)

module _ (page_size : ℕ) (mappings : List Mapping) (file : ElfFile) where
  -- The entry does not pass the end of memory.
  abbrev pub Enters : ℕ → Type 0
  Enters load_bias = load_bias ≤ uintptr_max - file.header.e_entry

  attempt-Ended :
      (bias : ℕ) (st : LoadState)
      → let (result, new) = attempt page_size mappings file bias st in
        Ended (λ data_end. Enters bias) st result new
  unfolding attempt
  attempt-Ended bias st =
      let headers = program_headers_of file in
      let (failed, data_end, loaded) = load_headers page_size file bias headers 0 st in
      let progress = load_headers-Progress page_size file bias headers 0 st in
      let (patched, code) = patch_file mappings file bias loaded in
      let new : LoadState = record loaded { code = code } in
      let patching : Progress loaded new = record {
        grown = record { added = []; segments_eq = refl; live_eq = refl };
        traced = Traced-Undone (patch_file-Undone page_size file bias mappings loaded);
        good = λ g. g;
      } in
      let all = Progress-trans progress patching in
      elim (Option-cases failed) [
        | inr (e, f) ↦ rw (f, attempt) (roll_back-Progress progress)
        | inl f ↦ elim (Bool-cases (length loaded.space.segments == length st.space.segments)) [
          | inl same ↦ rw (f, attempt, same) (roll_back-Progress progress)
          | inr more ↦ elim (Bool-cases (patched && leb bias (uintptr_max - file.header.e_entry))) [
            | inl ok ↦ rw (f, attempt, more, ok) (all, ground arith)
            | inr bad ↦ rw (f, attempt, more, bad) (roll_back-Progress all)
          ]
        ]
      ]

  try_biases-Ended :
      (biases : List ℕ) (st : LoadState)
      → let (result, new) = try_biases page_size mappings file biases st in
        Ended (λ (r : ℕ × ℕ). OneOf biases r.0 × Enters r.0) st result new
  unfolding try_biases
  try_biases-Ended [] st = Restored-refl st
  try_biases-Ended (bias ∷ biases) st =
      step (attempt page_size mappings file bias st).0 (attempt-Ended bias st) refl
        (try_biases-Ended biases (attempt page_size mappings file bias st).1)
    where
      step :
          (r : Errno ⊎ ℕ)
          → Ended (λ data_end. Enters bias) st r (attempt page_size mappings file bias st).1
          → (attempt page_size mappings file bias st).0 ≡ r
          → (let next = (attempt page_size mappings file bias st).1 in
              let (result, new) = try_biases page_size mappings file biases next in
              Ended (λ (r : ℕ × ℕ). OneOf biases r.0 × Enters r.0) next result new)
          → let (result, new) = try_biases page_size mappings file (bias ∷ biases) st in
            Ended (λ (r : ℕ × ℕ). OneOf (bias ∷ biases) r.0 × Enters r.0) st result new
      step (inr data_end) h e ih = rw (e, try_biases) (h.0, (inl refl, h.1))
      step (inl error) h e ih =
          elim (Bool-cases (file.header.e_type == et_dyn && is_eexist error)) [
            | inr stop ↦ rw (e, try_biases, stop) h
            | inl again ↦ rw (e, try_biases, again) (Ended-after _ _ h ih (λ r p. (inr p.0, p.1)))
          ]

  -- What is known of an object once it is loaded.
  pub record IsLoaded (dynamic_bias : ℕ) (object : ElfObject) : Type 0 where
    pub bias : OneOf (biases_for file dynamic_bias) object.load_bias
    pub entry : object.entry ≡ object.load_bias + file.header.e_entry
    pub no_wrap : Enters object.load_bias

  -- A file that cannot be loaded leaves nothing behind, wherever loading it fails and however many
  -- biases are tried: the segments, the mappings of the host, the records of patches and the words
  -- of the segments are those of before. Where it is loaded, at one of the biases, what has come can
  -- be taken back, and segments that are apart, in the guest's addresses and at most 32 are so still.
  pub load_elf_object-Ended :
      (dynamic_bias : ℕ) (allow_executable : Bool) (capacity : Option ℕ) (st : LoadState)
      → let (result, new) =
          load_elf_object page_size mappings file dynamic_bias allow_executable capacity st in
        Ended (λ (r : ElfObject × Bytes). IsLoaded dynamic_bias r.0) st result new
  unfolding load_elf_object
  load_elf_object-Ended dynamic_bias allow_executable capacity st =
      checked (check_file allow_executable capacity file) refl
    where
      tried :
          (interpreter : Bytes) (r : Errno ⊎ (ℕ × ℕ))
          → let biases = biases_for file dynamic_bias in
            check_file allow_executable capacity file ≡ inr interpreter
            → (try_biases page_size mappings file biases st).0 ≡ r
            → Ended
                (λ (r : ℕ × ℕ). OneOf biases r.0 × Enters r.0)
                st
                r
                (try_biases page_size mappings file biases st).1
            → let (result, new) =
                load_elf_object page_size mappings file dynamic_bias allow_executable capacity st in
              Ended (λ (r : ElfObject × Bytes). IsLoaded dynamic_bias r.0) st result new
      tried interpreter (inl error) c e h = rw (c, load_elf_object, e) h
      tried interpreter (inr (bias, data_end)) c e h =
          rw (c, load_elf_object, e) (h.0, record { bias = h.1.0; entry = refl; no_wrap = h.1.1 })

      checked :
          (c : Errno ⊎ Bytes)
          → check_file allow_executable capacity file ≡ c
          → let (result, new) =
              load_elf_object page_size mappings file dynamic_bias allow_executable capacity st in
            Ended (λ (r : ElfObject × Bytes). IsLoaded dynamic_bias r.0) st result new
      checked (inl error) c = rw (c, load_elf_object) (Restored-refl st)
      checked (inr interpreter) c =
          tried interpreter _ c refl (try_biases-Ended (biases_for file dynamic_bias) st)
