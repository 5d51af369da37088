-- ===== src/Elf/Image.antt =====
-- src/elf_loader.c: load_guest_image, the program and its interpreter. `errno` after a failure is not
-- modelled here.
use alpine_on_qnx.Prelude.{
  ℕ, zero, suc, ◌+◌, ◌-◌, inl, inr, Bool, true, false, not, ◌&&◌, ◌||◌, ltb, leb, Option, none,
  some, List, [], ◌∷◌, ◌==◌, if◌then◌else◌, length,
}
use alpine_on_qnx.Elf.Load.{
  ElfFile, ElfObject, LoadState, roll_back, main_et_dyn_bias, interpreter_bias, load_elf_object,
}
use alpine_on_qnx.GuestPath.{ok, err, err_unset, overrun, Bytes}
use alpine_on_qnx.GuestPath.Links.{Paths}
use alpine_on_qnx.GuestPath.Resolve.{guest_path_resolve}
use alpine_on_qnx.Memory.Break.{Break, guest_brk_initialize}
use alpine_on_qnx.Memory.Table.{Mapping}
use alpine_on_qnx.Memory.Segments.{HostCall, mmap, munmap, mprotect, msync}
use alpine_on_qnx.Patch.{PatchRecord}
use alpine_on_qnx.Memory.Query.{guest_memory_is_executable, guest_memory_finalize}

-- `struct guest_image`
pub record GuestImage : Type 0 where
  pub entry : ℕ
  pub start_entry : ℕ
  pub interpreter_base : ℕ
  pub program_headers : ℕ
  pub program_header_size : ℕ
  pub program_header_count : ℕ
  pub initial_brk : ℕ

-- What does not change while an image is loaded: the page size, the runtime mappings, the state of
-- the paths, the files of the host by their paths, and which calls of the host succeed at the end.
pub record World : Type 0 where
  pub page_size : ℕ
  pub mappings : List Mapping
  pub paths : Paths
  pub files : Bytes → ElfFile
  pub succeeds : HostCall → Bool

abbrev pub image_of : ElfObject → GuestImage
image_of object = record {
  entry = object.entry;
  start_entry = object.entry;
  interpreter_base = 0;
  program_headers = object.program_headers;
  program_header_size = object.program_header_size;
  program_header_count = object.program_header_count;
  initial_brk = object.data_end;
}

-- The interpreter, where the program names one: `none` is `goto fail`.
unfoldable pub load_interpreter :
    World → Bytes → GuestImage → LoadState → Option GuestImage × LoadState
load_interpreter w [] image st = (some image, st)
load_interpreter w (c ∷ path) image st =
    elim (guest_path_resolve w.paths (c ∷ path) false w.paths.path_max) [
      | ok host_path ↦
          let (result, new) =
            load_elf_object w.page_size w.mappings (w.files host_path) interpreter_bias false none
              st in
          elim result [
            | inl e ↦ (none, new)
            | inr (object, unused) ↦ (
              some (record image {
                start_entry = object.entry;
                interpreter_base = object.load_bias;
              }),
              new,
            )
          ]
      | err e ↦ (none, st)
      | err_unset ↦ (none, st)
      | overrun ↦ (none, st)
    ]

-- How the last checks and steps end: refused before the segments are protected, or with a segment that
-- could not be, or with the image; the break has been set then.
pub data Finish : Type 0 where
  refused : Finish
  unprotected : Break → Finish
  finished : GuestImage → Break → Finish

unfoldable pub finish_image : World → GuestImage → LoadState → Finish × LoadState
finish_image w image st =
    let executable = guest_memory_is_executable st.space.segments w.mappings in
    elim (guest_brk_initialize w.page_size image.initial_brk w.mappings st.space.calls) [
      | none ↦ (refused, st)
      | some break ↦
          let (protected, calls) =
            guest_memory_finalize w.succeeds st.space.segments st.space.calls in
          let finalized = record st { space = record st.space { calls = calls } } in
          let finalizing : Finish × LoadState =
            if protected
            then (finished image break, finalized)
            else (unprotected break, finalized) in
          if length st.code.patches == 0
            || (not (executable image.entry 4) || not (executable image.start_entry 4))
          then (refused, st)
          else finalizing
    ]

-- Whether the host lets the program write at an address, after the calls of the log.
abbrev pub is_writable : (HostCall → Bool) → List HostCall → ℕ → Bool
is_writable succeeds [] a = true
is_writable succeeds (mmap start len ∷ calls) a =
    if leb start a && ltb a (start + len) then true else is_writable succeeds calls a
is_writable succeeds (munmap start len ∷ calls) a =
    if leb start a && ltb a (start + len) then false else is_writable succeeds calls a
is_writable succeeds (mprotect start len p ∷ calls) a =
    if leb start a && (ltb a (start + len) && succeeds (mprotect start len p))
    then p.write
    else is_writable succeeds calls a
is_writable succeeds (msync start len ∷ calls) a = is_writable succeeds calls a

-- Whether `arm_patch_rollback` stores to a place that cannot be written, on its way through the latest
-- records.
abbrev pub rollback_faults : (HostCall → Bool) → List HostCall → ℕ → List PatchRecord → Bool
rollback_faults succeeds calls zero patches = false
rollback_faults succeeds calls (suc n) [] = false
rollback_faults succeeds calls (suc n) (p ∷ rest) =
    not (is_writable succeeds calls p.address) || rollback_faults succeeds calls n rest

-- How the load ends: with the image and its break; with -1, with the break that has been set all the
-- same, if one has; or with a fault in `arm_patch_rollback`, where code is no longer writable.
pub data LoadEnd : Type 0 where
  started : GuestImage → Break → LoadEnd
  failed : Option Break → LoadEnd
  faulted : Break → LoadEnd

-- The state of a fault is the one in which the rollback begins.
abbrev pub settle : World → LoadState → Finish × LoadState → LoadEnd × LoadState
settle w before (refused, st) = (failed none, roll_back before st)
settle w before (unprotected break, st) =
    let added = length st.code.patches - length before.code.patches in
    if rollback_faults w.succeeds st.space.calls added st.code.patches
    then (faulted break, st)
    else (failed (some break), roll_back before st)
settle w before (finished image break, st) = (started image break, st)

unfoldable pub load_guest_image : World → Bytes → LoadState → LoadEnd × LoadState
load_guest_image w path st =
    let (result, loaded) =
      load_elf_object w.page_size w.mappings (w.files path) main_et_dyn_bias true
        (some w.paths.path_max) st in
    elim result [
      | inl e ↦ (failed none, roll_back st loaded)
      | inr (object, interpreter) ↦
          let (image, with_interpreter) = load_interpreter w interpreter (image_of object) loaded in
          elim image [
            | none ↦ (failed none, roll_back st with_interpreter)
            | some image ↦ settle w st (finish_image w image with_interpreter)
          ]
    ]
