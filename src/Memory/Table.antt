-- ===== src/Memory/Table.antt =====
-- src/guest_memory.c: the table of runtime mappings and the ranges that the guest owns.
-- `runtime_mappings` with `runtime_mapping_count` is a list; a scratch array that is filled from
-- the left is a list with its last element first, turned round where the code reads it from index 0.
pub mod Chain
mod Cut
mod Sort
mod Compact
pub mod Replace
pub mod Owned
pub mod Runtime
pub mod Refine
pub mod Canonical
mod Tests
use alpine_on_qnx.Prelude.{
  ℕ, zero, suc, ◌+◌, ◌-◌, ◌<◌, Bool, true, false, not, ◌&&◌, ◌||◌, Option, none, some, List, [],
  ◌∷◌, ◌++◌, ltb, leb, ◌==◌, if◌then◌else◌, length, rev_onto,
}
use alpine_on_qnx.Words.{uintptr_max}

-- `struct runtime_mapping`
pub record Mapping : Type 0 where
  pub start : ℕ
  pub end : ℕ
  pub executable : ℕ

abbrev pub max_runtime_mappings : ℕ
max_runtime_mappings = 2048

abbrev pub ranges_overlap : ℕ → ℕ → ℕ → ℕ → Bool
ranges_overlap first_start first_end second_start second_end =
    ltb first_start second_end && ltb second_start first_end

-- What the first loop of `runtime_replace_locked` keeps of one mapping.
unfoldable pub cut : ℕ → ℕ → Mapping → List Mapping
cut start end old =
    if not (ranges_overlap start end old.start old.end)
    then old ∷ []
    else (if ltb old.start start then record old { end = start } ∷ [] else [])
      ++ (if ltb end old.end then record old { start = end } ∷ [] else [])

unfoldable pub cut_all : ℕ → ℕ → List Mapping → List Mapping
cut_all start end [] = []
cut_all start end (old ∷ rest) = cut start end old ++ cut_all start end rest

abbrev pub replacement : ℕ → ℕ → Bool → ℕ → List Mapping
replacement start end add_replacement executable =
    if add_replacement
    then record { start = start; end = end; executable = executable } ∷ []
    else []

-- The inner loop of the sort: `item` moves left past every later start. The sorted prefix is
-- given with its last element first.
unfoldable pub insert_item : Mapping → List Mapping → List Mapping
insert_item item [] = item ∷ []
insert_item item (last ∷ prefix) =
    if ltb item.start last.start then last ∷ insert_item item prefix else item ∷ last ∷ prefix

unfoldable pub sort_items : List Mapping → List Mapping → List Mapping
sort_items prefix [] = prefix
sort_items prefix (item ∷ rest) = sort_items (insert_item item prefix) rest

-- One round of the last loop: extend the last compacted mapping, or append.
unfoldable pub compact_item : List Mapping → Mapping → List Mapping
compact_item [] item = item ∷ []
compact_item (last ∷ compacted) item =
    if last.end == item.start && last.executable == item.executable
    then record last { end = item.end } ∷ compacted
    else item ∷ last ∷ compacted

unfoldable pub compact_items : List Mapping → List Mapping → List Mapping
compact_items compacted [] = compacted
compact_items compacted (item ∷ rest) = compact_items (compact_item compacted item) rest

-- The scratch array before the sort.
unfoldable pub scratch : ℕ → ℕ → Bool → ℕ → List Mapping → List Mapping
scratch start end add executable mappings =
    cut_all start end mappings ++ replacement start end add executable

unfoldable pub compacted_table : ℕ → ℕ → Bool → ℕ → List Mapping → List Mapping
compacted_table start end add executable mappings =
    rev_onto []
      (compact_items [] (rev_onto [] (sort_items [] (scratch start end add executable mappings))))

-- `runtime_replace_locked`: `none` is the result -1, which leaves the table as it was.
unfoldable pub runtime_replace_locked : ℕ → ℕ → Bool → ℕ → List Mapping → Option (List Mapping)
runtime_replace_locked start end add executable mappings =
    let table = compacted_table start end add executable mappings in
    if ltb max_runtime_mappings (length table) then none else some table

-- The inner loop of `runtime_range_owned_locked`.
unfoldable pub covered_end : ℕ → ℕ → List Mapping → ℕ
covered_end cursor covered [] = covered
covered_end cursor covered (m ∷ rest) =
    covered_end cursor (if leb m.start cursor && ltb covered m.end then m.end else covered) rest

-- The outer loop, on fuel: every round but the last moves the cursor on. `none` is a loop that has not
-- ended.
unfoldable pub owned_from : ℕ → ℕ → ℕ → List Mapping → Option Bool
owned_from zero cursor end mappings = none
owned_from (suc fuel) cursor end mappings =
    let covered = covered_end cursor cursor mappings in
    let rest = owned_from fuel covered end mappings in
    if ltb cursor end then (if covered == cursor then some false else rest) else some true

unfoldable pub runtime_range_owned_locked : ℕ → ℕ → List Mapping → Bool
unfolding owned_from covered_end
runtime_range_owned_locked start end mappings =
    elim (owned_from (suc (end - start)) start end mappings) [ none ↦ false | some owned ↦ owned ]

-- The abstract view of a table: the protection of the byte at an address, if it is mapped.
abbrev pub covers : Mapping → ℕ → Bool
covers m address = leb m.start address && ltb address m.end

unfoldable pub mapping_at : List Mapping → ℕ → Option ℕ
mapping_at [] address = none
mapping_at (m ∷ rest) address =
    if covers m address then some m.executable else mapping_at rest address
