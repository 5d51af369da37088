-- ===== src/Memory/Segments/Loading.antt =====
-- The layout of the loaded segments, and the bytes that a load puts there.
use native.Mathlib.Nat.{mod-lt}
use alpine_on_qnx.Prelude.{
  ℕ, ◌+◌, ◌-◌, ◌≤◌, ◌<◌, ◌≡◌, ◌⊎◌, ap, ◌∙◌, inl, inr, true, false, ◌&&◌, Option, none, List, [],
  ◌∷◌, ltb, leb, if◌then◌else◌, length, arith,
}
use alpine_on_qnx.Words.{IsPage, page_bounds, align_down_lem, align_up_lem, align_down, align_up}
use alpine_on_qnx.Abi.Errno.{Errno}
use alpine_on_qnx.Memory.Segments.{
  LoadSegment, ProgramHeader, Host, Space, segment_end, guest_min_address, guest_max_address,
  overlaps_any, segment_in_file, validate_load_range, max_load_segments, fill, mapped_bytes,
  guest_memory_map_load_segment,
}
use alpine_on_qnx.Memory.Segments.Mapped.{load_outcome}

-- The range overlaps no segment of the list.
abbrev pub Clear : ℕ → ℕ → List LoadSegment → Type 0
Clear start end [] = Unit {0}
Clear start end (s ∷ rest) = ((end ≤ s.map_start) ⊎ (segment_end s ≤ start)) × Clear start end rest

-- Every segment lies in the guest's addresses, is not empty, and overlaps no other.
abbrev pub IsLayout : List LoadSegment → Type 0
IsLayout [] = Unit {0}
IsLayout (s ∷ rest) =
    (guest_min_address ≤ s.map_start)
    × (0 < s.map_length)
    × (segment_end s ≤ guest_max_address)
    × Clear s.map_start (segment_end s) rest
    × IsLayout rest

overlaps_any-Clear :
    (start end : ℕ) (segments : List LoadSegment)
    → start < end
    → overlaps_any start end segments ≡ false
    → Clear start end segments
unfolding overlaps_any
overlaps_any-Clear start end [] lt h = tt
overlaps_any-Clear start end (s ∷ rest) lt h =
    (ground arith, overlaps_any-Clear start end rest lt (ground arith))

-- The check lets through exactly the ranges that can be added to the layout.
pub validate_load_range_lem :
    (start end : ℕ) (segments : List LoadSegment)
    → validate_load_range start end segments ≡ none
    → (guest_min_address ≤ start)
      × (start < end)
      × (end ≤ guest_max_address)
      × Clear start end segments
unfolding validate_load_range
validate_load_range_lem start end segments h =
    let lt : start < end = ground arith in
    (ground arith, lt, ground arith, overlaps_any-Clear start end segments lt (ground arith))

in_file-le :
    (h : ProgramHeader) (bias file_size : ℕ)
    → segment_in_file h bias file_size ≡ true
    → h.p_filesz ≤ h.p_memsz
unfolding segment_in_file
in_file-le h bias file_size e = ground arith

-- The four writes of a load, one after the other.
mapped_bytes_lem :
    (host : Host) (h : ProgramHeader) (start low high : ℕ) (bytes : ℕ → ℕ) (a : ℕ)
    → low ≤ start
    → start + h.p_memsz ≤ high
    → h.p_filesz ≤ h.p_memsz
    → mapped_bytes host h start low (fill low (high - low) (λ i. 0) bytes) a ≡ (
        if leb low a && ltb a high
        then (if leb start a && ltb a (start + h.p_filesz)
            then host.file (h.p_offset + (a - start))
            else 0)
        else bytes a)
mapped_bytes_lem host h start low high bytes a p q r = ground arith

module _ (page_size : ℕ) (host : Host) (h : ProgramHeader) (bias file_size : ℕ) (st : Space) where
  abbrev new : Option Errno × Space
  new = guest_memory_map_load_segment page_size host h bias file_size st

  -- A load on segments that are apart, in the guest's addresses and at most 32 keeps them so,
  -- whatever the file's header says and however the host answers.
  pub load-IsLayout :
      IsLayout st.segments
      → length st.segments ≤ max_load_segments
      → IsLayout new.1.segments × (length new.1.segments ≤ max_load_segments)
  load-IsLayout layout few = elim (load_outcome page_size host h bias file_size st) [
    | inr (p, same) ↦ rw same.segments_eq (layout, few)
    | inl (p, ok, t) ↦
        let (low, lt, high, clear) = validate_load_range_lem _ _ st.segments ok.valid in
        let whole = add_sub _ _ lt in
        rw t.segments_eq
          ((low, omega arith, omega (arith, whole), rw whole clear, layout), omega arith)
  ]
    where
      add_sub : (a b : ℕ) → a < b → a + (b - a) ≡ b
      add_sub a b lt = omega arith

  -- With a page size that can be accepted, after a load with no error the pages of the segment
  -- hold the bytes of the file at their places, zeros elsewhere, and no byte outside of these
  -- pages has changed.
  pub load_bytes :
      IsPage page_size
      → new.0 ≡ none
      → (a : ℕ)
      → let start = bias + h.p_vaddr in
        new.1.bytes a ≡ (
          if leb (align_down start page_size) a && ltb a (align_up (start + h.p_memsz) page_size)
          then (if leb start a && ltb a (start + h.p_filesz)
              then host.file (h.p_offset + (a - start))
              else 0)
          else st.bytes a)
  load_bytes page done a = elim (load_outcome page_size host h bias file_size st) [
    | inr (failed, same) ↦ absurd (failed done)
    | inl (p, ok, t) ↦
        let start = bias + h.p_vaddr in
        let end = start + h.p_memsz in
        let (positive, small) = page_bounds page in
        ap (λ f. f a) t.bytes_eq
        ∙ mapped_bytes_lem host h start (align_down start page_size) (align_up end page_size)
            st.bytes a (omega (arith, align_down_lem page start (omega arith)))
            (omega
              (arith, align_up_lem page end (omega arith), mod-lt (end + page_size - 1) positive))
            (in_file-le h bias file_size ok.in_file)
  ]
