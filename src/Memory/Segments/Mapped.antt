-- ===== src/Memory/Segments/Mapped.antt =====
-- The host mappings that the loader holds: a failed load gives back what it took, and a rollback
-- all that was taken since.
use mathlib.Core.List.{append_assoc}
use alpine_on_qnx.Prelude.{
  ℕ, ◌+◌, ◌-◌, ◌≤◌, ◌≡◌, ◌≢◌, ◌⊎◌, refl, ap, sym, ◌∙◌, inl, inr, true, not, ◌&&◌, ◌||◌, Option,
  none, some, List, [], ◌∷◌, ◌++◌, ltb, ◌==◌, if◌then◌else◌, length, Bool-cases, Option-cases,
  length-append, arith,
}
use alpine_on_qnx.Words.{uintptr_max, align_down, align_up}
use alpine_on_qnx.Abi.Errno.{Errno}
use alpine_on_qnx.Memory.Segments.{
  LoadSegment, ProgramHeader, fill, HostCall, MmapResult, mmap, munmap, mprotect, msync, Host,
  Space, map_failed, mapped_at, mapped_bytes, protection_from_flags, segment_in_file,
  validate_load_range, max_load_segments, map_range, guest_memory_map_load_segment,
  guest_memory_rollback_by, guest_memory_rollback,
}

-- The first entry for a range goes.
abbrev pub erase : ℕ → ℕ → List (ℕ × ℕ) → List (ℕ × ℕ)
erase start len [] = []
erase start len ((a, l) ∷ rest) =
    if (a == start) && (l == len) then rest else (a, l) ∷ erase start len rest

-- The ranges that are mapped and not yet unmapped, last one first.
abbrev pub live : List HostCall → List (ℕ × ℕ)
live [] = []
live (mmap start len ∷ calls) = (start, len) ∷ live calls
live (munmap start len ∷ calls) = erase start len (live calls)
live (mprotect start len p ∷ calls) = live calls
live (msync start len ∷ calls) = live calls

abbrev pub regions : List LoadSegment → List (ℕ × ℕ)
regions [] = []
regions (s ∷ rest) = (s.map_start, s.map_length) ∷ regions rest

pub erase_head :
    (start len : ℕ) (rest : List (ℕ × ℕ)) → erase start len ((start, len) ∷ rest) ≡ rest
erase_head start len rest = ground arith

-- The later state has more segments, and the host has mapped just their ranges beside the old.
pub record Grown (st new : Space) : Type 0 where
  pub added : List LoadSegment
  pub segments_eq : new.segments ≡ added ++ st.segments
  pub live_eq : live new.calls ≡ regions added ++ live st.calls

pub Grown-refl : (st : Space) → Grown st st
Grown-refl st = record { added = []; segments_eq = refl; live_eq = refl }

pub Grown-trans : {st mid new : Space} → Grown st mid → Grown mid new → Grown st new
Grown-trans {st} {mid} {new} g h = record {
  added = h.added ++ g.added;
  segments_eq =
      h.segments_eq
      ∙ ap (λ t. h.added ++ t) g.segments_eq
      ∙ sym (append_assoc h.added g.added st.segments);
  live_eq =
      h.live_eq
      ∙ ap (λ t. regions h.added ++ t) g.live_eq
      ∙ sym (regions_append h.added g.added (live st.calls));
}
  where
    regions_append :
        (xs ys : List LoadSegment) (rest : List (ℕ × ℕ))
        → regions (xs ++ ys) ++ rest ≡ regions xs ++ (regions ys ++ rest)
    regions_append [] ys rest = refl
    regions_append (x ∷ xs) ys rest =
        ap (λ t. (x.map_start, x.map_length) ∷ t) (regions_append xs ys rest)

rollback_by_added :
    (added segments : List LoadSegment) (calls : List HostCall) (rest : List (ℕ × ℕ))
    → live calls ≡ regions added ++ rest
    → let (segs, calls') = guest_memory_rollback_by (length added) (added ++ segments) calls in
      (segs ≡ segments) × (live calls' ≡ rest)
unfolding guest_memory_rollback_by
rollback_by_added [] segments calls rest e = (refl, e)
rollback_by_added (s ∷ added) segments calls rest e =
    rollback_by_added added segments (munmap s.map_start s.map_length ∷ calls) rest (
      ap (erase s.map_start s.map_length) e
      ∙ erase_head s.map_start s.map_length (regions added ++ rest))

-- Where some segments have been added, with just their ranges mapped, a rollback to the old count
-- brings back the old segments, and the host has just the old ranges mapped.
pub rollback-Grown :
    {st new : Space}
    → Grown st new
    → ((guest_memory_rollback (length st.segments) new).segments ≡ st.segments)
      × (live (guest_memory_rollback (length st.segments) new).calls ≡ live st.calls)
unfolding guest_memory_rollback
rollback-Grown {st} {new} g =
    let count : length new.segments - length st.segments ≡ length g.added =
      omega (arith, ap length g.segments_eq, length-append g.added st.segments) in
    rw (count, g.segments_eq)
      (rollback_by_added g.added st.segments new.calls (live st.calls) g.live_eq)

module _ (page_size : ℕ) (host : Host) (h : ProgramHeader) (bias file_size : ℕ) (st : Space) where
  abbrev start : ℕ
  start = bias + h.p_vaddr

  abbrev map_start : ℕ
  map_start = align_down start page_size

  abbrev map_end : ℕ
  map_end = align_up (start + h.p_memsz) page_size

  abbrev loaded : Option Errno × Space
  loaded = guest_memory_map_load_segment page_size host h bias file_size st

  -- What is known where the load reaches `mmap`.
  pub record Accepted : Type 0 where
    pub in_file : segment_in_file h bias file_size ≡ true
    pub no_wrap : start + h.p_memsz ≤ uintptr_max
    pub aligns : start + h.p_memsz ≤ uintptr_max - (page_size - 1)
    pub valid : validate_load_range map_start map_end st.segments ≡ none
    pub room : length st.segments ≢ max_load_segments

  pub load_cases :
      ((e : Errno) × (loaded ≡ (some e, st)))
      ⊎ (Accepted × (loaded ≡ map_range host h start map_start map_end st))
  unfolding guest_memory_map_load_segment
  load_cases =
      elim (Bool-cases (
        not (segment_in_file h bias file_size)
        || ltb (uintptr_max - start) h.p_memsz
        || ltb (uintptr_max - (page_size - 1)) (start + h.p_memsz))) [
          | inl bad ↦ inl (Errno.enoexec, rw bad)
          | inr good ↦ elim (Option-cases (validate_load_range map_start map_end st.segments)) [
            | inr (e, refused) ↦ inl (e, rw (good, refused))
            | inl valid ↦ elim (Bool-cases (length st.segments == max_load_segments)) [
              | inl full ↦ inl (Errno.e2big, rw (good, valid, full))
              | inr room ↦ inr (
                record {
                  in_file = ground arith;
                  no_wrap = ground arith;
                  aligns = ground arith;
                  valid = valid;
                  room = ground arith;
                },
                rw (good, valid, room),
              )
            ]
          ]
        ]

  abbrev segment : LoadSegment
  segment = record {
    map_start = map_start;
    map_length = map_end - map_start;
    final_protection = protection_from_flags h.p_flags;
  }

  abbrev new_bytes : ℕ → ℕ
  new_bytes =
      mapped_bytes host h start map_start (fill map_start (map_end - map_start) (λ i. 0) st.bytes)

  -- One segment more, which the host has mapped.
  pub record Taken (new : Space) : Type 0 where
    pub segments_eq : new.segments ≡ segment ∷ st.segments
    pub bytes_eq : new.bytes ≡ new_bytes
    pub live_eq : live new.calls ≡ (map_start, map_end - map_start) ∷ live st.calls

  -- The segments, the bytes and the host's mappings are as they were.
  pub record Untouched (new : Space) : Type 0 where
    pub segments_eq : new.segments ≡ st.segments
    pub bytes_eq : new.bytes ≡ st.bytes
    pub live_eq : live new.calls ≡ live st.calls

  abbrev pub Outcome : Option Errno × Space → Type 0
  Outcome r = ((r.0 ≡ none) × Accepted × Taken r.1) ⊎ ((r.0 ≢ none) × Untouched r.1)

  map_range-Outcome :
      (r : MmapResult)
      → Accepted
      → host.mmap_result map_start (map_end - map_start) ≡ r
      → Outcome (map_range host h start map_start map_end st)
  unfolding map_range
  map_range-Outcome (map_failed error) ok e =
      rw (e, map_range)
        (inr ((λ p. cc), record { segments_eq = refl; bytes_eq = refl; live_eq = refl }))
  map_range-Outcome (mapped_at at) ok e = elim (Bool-cases (at == map_start)) [
    | inr elsewhere ↦
        rw (e, map_range, elsewhere)
          (inr (
            (λ p. cc),
            record {
              segments_eq = refl;
              bytes_eq = refl;
              live_eq = erase_head at (map_end - map_start) (live st.calls);
            },
          ))
    | inl there ↦
        let same : at ≡ map_start = ground arith in
        let e' = e ∙ ap mapped_at same in
        let test : (map_start == map_start) ≡ true = ground arith in
        elim (Option-cases
          (if h.p_filesz == 0 then none else host.read_error h.p_offset h.p_filesz)) [
            | inl read ↦
                rw (e', map_range, test, read)
                  (inl (refl, ok, record { segments_eq = refl; bytes_eq = refl; live_eq = refl }))
            | inr (error, failed) ↦
                rw (e', map_range, test, failed)
                  (inr (
                    (λ p. cc),
                    record {
                      segments_eq = refl;
                      bytes_eq = refl;
                      live_eq = erase_head map_start (map_end - map_start) (live st.calls);
                    },
                  ))
          ]
  ]

  -- A load either takes one segment more, which the host has mapped, or reports an error and
  -- leaves the segments, the bytes and the host's mappings as they were.
  pub load_outcome : Outcome loaded
  load_outcome = elim load_cases [
    | inl (e, refused) ↦
        rw refused (inr ((λ p. cc), record { segments_eq = refl; bytes_eq = refl; live_eq = refl }))
    | inr (accepted, reached) ↦ rw reached (map_range-Outcome _ accepted refl)
  ]

  pub load-Grown : Grown st loaded.1
  load-Grown = elim load_outcome [
    | inl (p, ok, t) ↦ record {
      added = segment ∷ [];
      segments_eq = t.segments_eq;
      live_eq = t.live_eq;
    }
    | inr (p, u) ↦ record { added = []; segments_eq = u.segments_eq; live_eq = u.live_eq }
  ]
