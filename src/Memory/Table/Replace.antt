-- ===== src/Memory/Table/Replace.antt =====
-- `runtime_replace_locked` as an update of the address space: what it maps, that it keeps the
-- table in order, and that its scratch array is large enough.
use mathlib.Core.List.{append-nil}
use alpine_on_qnx.Prelude.{
  ℕ, ◌+◌, ◌≤◌, ◌<◌, ◌≡◌, ◌≢◌, refl, ap, ◌∙◌, Bool, true, false, Option, none, some, List, [], ◌∷◌,
  leb, ltb, ◌&&◌, if◌then◌else◌, length, length-append, length-rev_onto, rev_onto, arith,
}
use alpine_on_qnx.Words.{uintptr_max}
use alpine_on_qnx.Memory.Table.{
  Mapping, max_runtime_mappings, cut_all, insert_item, sort_items, compact_items, scratch,
  compacted_table, mapping_at,
}
use alpine_on_qnx.Memory.Table.Chain.{
  Chain, Below, or_else, rev_onto-Chain, rev_onto-Below, mapping_at-rev_onto,
  mapping_at-rev_onto-Below,
}
use alpine_on_qnx.Memory.Table.Cut.{
  Avoids, mapping_at-cut_all, cut_all-Avoids, cut_all-Chain, length-cut_all,
}
use alpine_on_qnx.Memory.Table.Sort.{
  sort_items-snoc, sort_items-Chain, insert_item-Below, mapping_at-insert_item, Avoids-rev_onto,
  length-insert_item,
}
use alpine_on_qnx.Memory.Table.Compact.{
  IsCompactRev, compact_items-Below, mapping_at-compact_items, compact_items-IsCompactRev,
  length-compact_items,
}

-- No mapping touches the next one with the same protection.
abbrev pub IsCompact : List Mapping → Type 0
IsCompact [] = Unit {0}
IsCompact (m ∷ []) = Unit {0}
IsCompact (m ∷ (n ∷ ms)) = (m.end ≡ n.start → m.executable ≢ n.executable) × IsCompact (n ∷ ms)

-- The invariant of the table of runtime mappings.
pub record IsTable (ms : List Mapping) : Type 0 where
  pub in_order : Chain 0 uintptr_max ms
  pub compact : IsCompact ms
  pub fits : length ms ≤ max_runtime_mappings

abbrev Apart : List Mapping → List Mapping → Type 0
Apart (x ∷ xs) (m ∷ ms) = m.end ≡ x.start → m.executable ≢ x.executable
Apart [] (m ∷ ms) = Unit {0}
Apart xs [] = Unit {0}

rev_onto-IsCompact :
    (xs ms : List Mapping)
    → IsCompact xs
    → IsCompactRev ms
    → Apart xs ms
    → IsCompact (rev_onto xs ms)
rev_onto-IsCompact xs [] c r a = c
rev_onto-IsCompact [] (m ∷ []) c r a = tt
rev_onto-IsCompact (x ∷ xs) (m ∷ []) c r a = (a, c)
rev_onto-IsCompact [] (m ∷ (p ∷ ms)) c r a = rev_onto-IsCompact (m ∷ []) (p ∷ ms) tt r.1 r.0
rev_onto-IsCompact (x ∷ xs) (m ∷ (p ∷ ms)) c r a =
    rev_onto-IsCompact (m ∷ (x ∷ xs)) (p ∷ ms) (a, c) r.1 r.0

-- What the bytes of the range become.
abbrev pub replaced : Bool → ℕ → Option ℕ
replaced add executable = if add then some executable else none

module _ (s e : ℕ) (range : s < e) (x hi : ℕ) (ms : List Mapping) (ordered : Chain 0 hi ms)
    (within : e ≤ hi) where
  abbrev item : Mapping
  item = record { start = s; end = e; executable = x }

  -- The pieces of the old table, last first.
  abbrev pieces : List Mapping
  pieces = rev_onto [] (cut_all s e ms)

  pieces-Below : Below hi pieces
  pieces-Below = rev_onto-Below 0 hi [] _ tt (cut_all-Chain s e range 0 hi ms ordered)

  pieces-Avoids : Avoids s e range pieces
  pieces-Avoids = Avoids-rev_onto item range [] _ tt (cut_all-Avoids s e range ms)

  mapping_at-pieces :
      (a : ℕ) → mapping_at pieces a ≡ (if leb s a && ltb a e then none else mapping_at ms a)
  unfolding mapping_at
  mapping_at-pieces a =
      mapping_at-rev_onto-Below 0 hi [] _ a tt (cut_all-Chain s e range 0 hi ms ordered)
      ∙ mapping_at-cut_all s e range ms a

  abbrev sorted : Bool → List Mapping
  sorted add = sort_items [] (scratch s e add x ms)

  sorted_lem : (add : Bool) → sorted add ≡ (if add then insert_item item pieces else pieces)
  unfolding scratch
  sorted_lem true =
      sort_items-snoc [] (cut_all s e ms) item
      ∙ ap (insert_item item)
          (sort_items-Chain 0 hi [] _ tt (cut_all-Chain s e range 0 hi ms ordered))
  sorted_lem false =
      ap (sort_items []) (append-nil (cut_all s e ms))
      ∙ sort_items-Chain 0 hi [] _ tt (cut_all-Chain s e range 0 hi ms ordered)

  sorted-Below : (add : Bool) → Below hi (sorted add)
  sorted-Below true =
      rw (sorted_lem true)
        (insert_item-Below item range hi pieces pieces-Below within pieces-Avoids)
  sorted-Below false = rw (sorted_lem false) pieces-Below

  mapping_at-sorted :
      (add : Bool) (a : ℕ)
      → mapping_at (sorted add) a ≡ (if leb s a && ltb a e then replaced add x else mapping_at ms a)
  mapping_at-sorted true a =
      ap (λ t. mapping_at t a) (sorted_lem true)
      ∙ mapping_at-insert_item item range hi pieces a pieces-Below pieces-Avoids
      ∙ ground (arith, mapping_at-pieces a)
  mapping_at-sorted false a = ap (λ t. mapping_at t a) (sorted_lem false) ∙ mapping_at-pieces a

  forward-Chain : (add : Bool) → Chain 0 hi (rev_onto [] (sorted add))
  forward-Chain add = rev_onto-Chain hi hi [] (sorted add) (omega arith) (sorted-Below add)

  or_else-none : (o : Option ℕ) → or_else o none ≡ o
  or_else-none none = refl
  or_else-none (some v) = refl

  mapping_at-forward :
      (add : Bool) (a : ℕ) → mapping_at (rev_onto [] (sorted add)) a ≡ mapping_at (sorted add) a
  unfolding mapping_at
  mapping_at-forward add a =
      mapping_at-rev_onto hi hi [] (sorted add) a (omega arith) (sorted-Below add) ∙ or_else-none _

  abbrev joined : Bool → List Mapping
  joined add = compact_items [] (rev_onto [] (sorted add))

  joined-Below : (add : Bool) → Below hi (joined add)
  joined-Below add = compact_items-Below 0 hi [] _ tt (forward-Chain add)

  -- The new table is in order.
  pub compacted_table-Chain : (add : Bool) → Chain 0 hi (compacted_table s e add x ms)
  unfolding compacted_table
  compacted_table-Chain add = rev_onto-Chain hi hi [] (joined add) (omega arith) (joined-Below add)

  -- The bytes of the range are as asked for, all others as before.
  pub mapping_at-compacted_table :
      (add : Bool) (a : ℕ)
      → mapping_at (compacted_table s e add x ms) a
        ≡ (if leb s a && ltb a e then replaced add x else mapping_at ms a)
  unfolding compacted_table mapping_at
  mapping_at-compacted_table add a =
      mapping_at-rev_onto hi hi [] (joined add) a (omega arith) (joined-Below add)
      ∙ or_else-none _
      ∙ mapping_at-compact_items 0 hi [] _ a tt (forward-Chain add)
      ∙ mapping_at-forward add a
      ∙ mapping_at-sorted add a

  -- For a range that is not empty and a table in order, the scratch array has at most two places
  -- more than the table.
  pub length-scratch : (add : Bool) → length (scratch s e add x ms) ≤ length ms + 2
  unfolding scratch
  length-scratch true =
      omega (
        arith,
        length-append (cut_all s e ms) (item ∷ []),
        length-cut_all s e range 0 hi ms ordered,
      )
  length-scratch false =
      omega (arith, length-append (cut_all s e ms) [], length-cut_all s e range 0 hi ms ordered)

pub compacted_table-IsCompact :
    (s e : ℕ) (add : Bool) (x : ℕ) (ms : List Mapping) → IsCompact (compacted_table s e add x ms)
unfolding compacted_table
compacted_table-IsCompact s e add x ms =
    rev_onto-IsCompact [] _ tt (compact_items-IsCompactRev [] _ tt) (apart_nil _)
  where
    apart_nil : (ms : List Mapping) → Apart [] ms
    apart_nil [] = tt
    apart_nil (m ∷ ms) = tt

length-sort_items :
    (prefix xs : List Mapping) → length (sort_items prefix xs) ≡ length prefix + length xs
unfolding sort_items
length-sort_items prefix [] = omega arith
length-sort_items prefix (x ∷ xs) =
    omega (arith, length-insert_item x prefix, length-sort_items (insert_item x prefix) xs)

-- Sorting and joining need no more places than the scratch array has entries.
pub length-compacted_table :
    (s e : ℕ) (add : Bool) (x : ℕ) (ms : List Mapping)
    → length (compacted_table s e add x ms) ≤ length (scratch s e add x ms)
unfolding compacted_table
length-compacted_table s e add x ms =
    let sorted = sort_items [] (scratch s e add x ms) in
    omega (
      arith,
      length-rev_onto [] (compact_items [] (rev_onto [] sorted)),
      length-compact_items [] (rev_onto [] sorted),
      length-rev_onto [] sorted,
      length-sort_items [] (scratch s e add x ms),
    )
