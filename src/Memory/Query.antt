-- ===== src/Memory/Query.antt =====
-- src/guest_memory.c: the last step of loading, and what the rest of the emulator asks about an
-- address. (`guest_memory_is_executable` reads the runtime table with no lock; the model answers
-- from one state of it.)
use alpine_on_qnx.Prelude.{
  ℕ, ◌+◌, ◌-◌, ◌≤◌, ◌<◌, ◌≡◌, ◌≢◌, ◌⊎◌, refl, inl, inr, Bool, true, false, not, ◌&&◌, ◌||◌, Option,
  none, some, List, [], ◌∷◌, ltb, leb, ◌==◌, if◌then◌else◌, Bool-cases, rev_onto, arith,
}
use alpine_on_qnx.Words.{uintptr_max}
use alpine_on_qnx.Memory.Table.{Mapping, covers, mapping_at, runtime_range_owned_locked}
use alpine_on_qnx.Memory.Table.Owned.{runtime_range_owned_locked_iff}
use alpine_on_qnx.Memory.Table.Replace.{IsTable}
use alpine_on_qnx.Memory.Table.Runtime.{bad_range}
use alpine_on_qnx.Memory.Segments.{LoadSegment, segment_end, HostCall, mprotect, msync}
use alpine_on_qnx.Memory.Segments.Loading.{Clear, IsLayout}
use alpine_on_qnx.Memory.Segments.Mapped.{live}
use alpine_on_qnx.Memory.Table.Chain.{Chain}

in_executable_segment : ℕ → ℕ → List LoadSegment → Bool
in_executable_segment address end [] = false
in_executable_segment address end (s ∷ rest) =
    (s.final_protection.exec && (leb s.map_start address && leb end (segment_end s)))
    || in_executable_segment address end rest

in_executable_mapping : ℕ → ℕ → List Mapping → Bool
in_executable_mapping address end [] = false
in_executable_mapping address end (m ∷ rest) =
    (not (m.executable == 0) && (leb m.start address && leb end m.end))
    || in_executable_mapping address end rest

unfoldable pub guest_memory_is_executable : List LoadSegment → List Mapping → ℕ → ℕ → Bool
unfolding in_executable_segment in_executable_mapping
guest_memory_is_executable segments mappings address len =
    if ltb (uintptr_max - address) len
    then false
    else in_executable_segment address (address + len) segments
      || in_executable_mapping address (address + len) mappings

in_segment : ℕ → ℕ → List LoadSegment → Bool
in_segment address end [] = false
in_segment address end (s ∷ rest) =
    (leb s.map_start address && leb end (segment_end s)) || in_segment address end rest

unfoldable pub guest_memory_range_owned : List LoadSegment → List Mapping → ℕ → ℕ → Bool
unfolding in_segment
guest_memory_range_owned segments mappings address len =
    if bad_range address len
    then false
    else in_segment address (address + len) segments
      || runtime_range_owned_locked address (address + len) mappings

-- The protection under which the loader leaves a byte.
unfoldable pub segment_at : List LoadSegment → ℕ → Option Bool
segment_at [] a = none
segment_at (s ∷ rest) a =
    if leb s.map_start a && ltb a (segment_end s)
    then some s.final_protection.exec
    else segment_at rest a

-- A byte of the loaded files or of the runtime table.
abbrev pub IsOwned : List LoadSegment → List Mapping → ℕ → Type 0
IsOwned segments mappings a = (segment_at segments a ≢ none) ⊎ (mapping_at mappings a ≢ none)

in_segment_sound :
    (address end a : ℕ) (segments : List LoadSegment)
    → in_segment address end segments ≡ true
    → address ≤ a
    → a < end
    → segment_at segments a ≢ none
unfolding in_segment segment_at
in_segment_sound address end a [] h le lt = cc
in_segment_sound address end a (s ∷ rest) h le lt =
    ground (arith, in_segment_sound address end a rest)

-- A range that is said to be owned is neither empty nor does it wrap, and each of its bytes is a
-- byte of a loaded segment or of a runtime mapping.
pub guest_memory_range_owned_sound :
    (segments : List LoadSegment) (mappings : List Mapping) (address len a : ℕ)
    → guest_memory_range_owned segments mappings address len ≡ true
    → address ≤ a
    → a < address + len
    → (0 < len) × (address + len ≤ uintptr_max) × IsOwned segments mappings a
unfolding guest_memory_range_owned
guest_memory_range_owned_sound segments mappings address len a h le lt =
    elim (Bool-cases (in_segment address (address + len) segments)) [
      | inl loaded ↦ (
        ground arith,
        ground arith,
        inl (in_segment_sound address (address + len) a segments loaded le lt),
      )
      | inr other ↦ (
        ground arith,
        ground arith,
        inr (
            (runtime_range_owned_locked_iff address (address + len) mappings).0 (ground arith) a le
              lt),
      )
    ]

-- The calls that give each segment its final protection, and make the host see new code.
abbrev pub protect_calls : List LoadSegment → List HostCall → List HostCall
protect_calls [] calls = calls
protect_calls (s ∷ rest) calls =
    let protected = mprotect s.map_start s.map_length s.final_protection ∷ calls in
    protect_calls rest
      (if s.final_protection.exec then msync s.map_start s.map_length ∷ protected else protected)

finalize_segments : (HostCall → Bool) → List LoadSegment → List HostCall → Bool × List HostCall
finalize_segments succeeds [] calls = (true, calls)
finalize_segments succeeds (s ∷ rest) calls =
    let protect = mprotect s.map_start s.map_length s.final_protection in
    let sync = msync s.map_start s.map_length in
    let after_protect = finalize_segments succeeds rest (protect ∷ calls) in
    let after_sync = finalize_segments succeeds rest (sync ∷ (protect ∷ calls)) in
    if not (succeeds protect)
    then (false, protect ∷ calls)
    else if s.final_protection.exec
    then (if succeeds sync then after_sync else (false, sync ∷ (protect ∷ calls)))
    else after_protect

-- `guest_memory_finalize`: whether each host call succeeds is given. Segment 0 comes first.
unfoldable pub guest_memory_finalize :
    (HostCall → Bool) → List LoadSegment → List HostCall → Bool × List HostCall
unfolding finalize_segments
guest_memory_finalize succeeds segments calls =
    finalize_segments succeeds (rev_onto [] segments) calls

finalize_segments_lem :
    (succeeds : HostCall → Bool) (segments : List LoadSegment) (calls : List HostCall)
    → (finalize_segments succeeds segments calls).0 ≡ true
    → (finalize_segments succeeds segments calls).1 ≡ protect_calls segments calls
unfolding finalize_segments
finalize_segments_lem succeeds [] calls h = refl
finalize_segments_lem succeeds (s ∷ rest) calls h =
    let protect = mprotect s.map_start s.map_length s.final_protection in
    let sync = msync s.map_start s.map_length in
    ground (
      arith,
      finalize_segments_lem succeeds rest (protect ∷ calls),
      finalize_segments_lem succeeds rest (sync ∷ (protect ∷ calls)),
    )

-- Protecting the segments neither maps nor unmaps.
finalize_segments-live :
    (succeeds : HostCall → Bool) (segments : List LoadSegment) (calls : List HostCall)
    → live (finalize_segments succeeds segments calls).1 ≡ live calls
unfolding finalize_segments
finalize_segments-live succeeds [] calls = refl
finalize_segments-live succeeds (s ∷ rest) calls =
    let protect = mprotect s.map_start s.map_length s.final_protection in
    let sync = msync s.map_start s.map_length in
    ground (
      arith,
      finalize_segments-live succeeds rest (protect ∷ calls),
      finalize_segments-live succeeds rest (sync ∷ (protect ∷ calls)),
    )

pub guest_memory_finalize-live :
    (succeeds : HostCall → Bool) (segments : List LoadSegment) (calls : List HostCall)
    → live (guest_memory_finalize succeeds segments calls).1 ≡ live calls
unfolding guest_memory_finalize
guest_memory_finalize-live succeeds segments calls =
    finalize_segments-live succeeds (rev_onto [] segments) calls

pub outside :
    (start end a : ℕ) (segments : List LoadSegment)
    → Clear start end segments
    → start ≤ a
    → a < end
    → segment_at segments a ≡ none
unfolding segment_at
outside start end a [] c le lt = refl
outside start end a (s ∷ rest) c le lt = ground (arith, outside start end a rest c.1)

in_executable_segment_sound :
    (address end a : ℕ) (segments : List LoadSegment)
    → IsLayout segments
    → in_executable_segment address end segments ≡ true
    → address ≤ a
    → a < end
    → segment_at segments a ≡ some true
unfolding in_executable_segment segment_at
in_executable_segment_sound address end a [] v h le lt = cc
in_executable_segment_sound address end a (s ∷ rest) v h le lt = ground (
  arith,
  in_executable_segment_sound address end a rest v.4,
  outside s.map_start (segment_end s) a rest v.3,
)

executable_mapping_above :
    (lo hi address end : ℕ) (mappings : List Mapping)
    → Chain lo hi mappings
    → in_executable_mapping address end mappings ≡ true
    → lo ≤ address
unfolding in_executable_mapping
executable_mapping_above lo hi address end [] v h = cc
executable_mapping_above lo hi address end (m ∷ rest) v h =
    ground (arith, executable_mapping_above m.end hi address end rest v.2)

in_executable_mapping_sound :
    (lo hi address end a : ℕ) (mappings : List Mapping)
    → Chain lo hi mappings
    → in_executable_mapping address end mappings ≡ true
    → address ≤ a
    → a < end
    → (x : ℕ) × (mapping_at mappings a ≡ some x) × (x ≢ 0)
unfolding in_executable_mapping mapping_at
in_executable_mapping_sound lo hi address end a [] v h le lt = cc
in_executable_mapping_sound lo hi address end a (m ∷ rest) v h le lt =
    elim (Bool-cases (covers m a)) [
      | inl here ↦ (
        m.executable,
        rw here,
        ground (arith, executable_mapping_above m.end hi address end rest v.2),
      )
      | inr there ↦
          rw there
            (in_executable_mapping_sound m.end hi address end a rest v.2 (ground arith) le lt)
    ]

-- With segments that are apart and a table of mappings in order, what is said to be executable is
-- so in every byte: the byte is one of a loaded segment with PROT_EXEC, or of a runtime mapping
-- that is marked executable.
pub guest_memory_is_executable_sound :
    (segments : List LoadSegment) (mappings : List Mapping) (address len a : ℕ)
    → IsLayout segments
    → IsTable mappings
    → guest_memory_is_executable segments mappings address len ≡ true
    → address ≤ a
    → a < address + len
    → (segment_at segments a ≡ some true) ⊎ ((x : ℕ) × (mapping_at mappings a ≡ some x) × (x ≢ 0))
unfolding guest_memory_is_executable
guest_memory_is_executable_sound segments mappings address len a layout table h le lt =
    elim (Bool-cases (in_executable_segment address (address + len) segments)) [
      | inl loaded ↦
          inl (in_executable_segment_sound address (address + len) a segments layout loaded le lt)
      | inr other ↦ inr (
          in_executable_mapping_sound 0 uintptr_max address (address + len) a mappings
            table.in_order (ground arith) le lt)
    ]
