-- ===== src/Memory/Table/Compact.antt =====
-- The last loop of `runtime_replace_locked`: adjacent mappings of one protection become one.
use alpine_on_qnx.Prelude.{ℕ, suc, ◌+◌, ◌≤◌, ◌<◌, ◌≡◌, ◌≢◌, refl, List, [], ◌∷◌, length, arith}
use alpine_on_qnx.Memory.Table.{Mapping, compact_item, compact_items, mapping_at}
use alpine_on_qnx.Memory.Table.Chain.{Chain, Below, Below-mono, mapping_at-Below, or_else}

compact_item-Below :
    (lo : ℕ) (acc : List Mapping) (m : Mapping)
    → Below lo acc
    → lo ≤ m.start
    → m.start < m.end
    → Below m.end (compact_item acc m)
unfolding compact_item
compact_item-Below lo [] m b le lt = omega arith
compact_item-Below lo (p ∷ acc) m b le lt = ground (arith, Below-mono lo m.start (p ∷ acc))

mapping_at-compact_item :
    (lo : ℕ) (acc : List Mapping) (m : Mapping) (a : ℕ)
    → Below lo acc
    → lo ≤ m.start
    → m.start < m.end
    → mapping_at (compact_item acc m) a ≡ or_else (mapping_at acc a) (mapping_at (m ∷ []) a)
unfolding compact_item mapping_at
mapping_at-compact_item lo [] m a b le lt = refl
mapping_at-compact_item lo (p ∷ acc) m a b le lt =
    ground (arith, mapping_at-Below p.start acc a b.2)

-- The loop keeps the order and the view.
pub compact_items-Below :
    (lo hi : ℕ) (acc ms : List Mapping)
    → Below lo acc
    → Chain lo hi ms
    → Below hi (compact_items acc ms)
unfolding compact_items
compact_items-Below lo hi acc [] b c = Below-mono lo hi acc c b
compact_items-Below lo hi acc (m ∷ ms) b c =
    compact_items-Below m.end hi (compact_item acc m) ms (compact_item-Below lo acc m b c.0 c.1) c.2

pub mapping_at-compact_items :
    (lo hi : ℕ) (acc ms : List Mapping) (a : ℕ)
    → Below lo acc
    → Chain lo hi ms
    → mapping_at (compact_items acc ms) a ≡ or_else (mapping_at acc a) (mapping_at ms a)
unfolding compact_items mapping_at
mapping_at-compact_items lo hi acc [] a b c = ground arith
mapping_at-compact_items lo hi acc (m ∷ ms) a b c = ground (
  arith,
  mapping_at-compact_items m.end hi (compact_item acc m) ms a
      (compact_item-Below lo acc m b c.0 c.1) c.2,
  mapping_at-compact_item lo acc m a b c.0 c.1,
)

length-compact_item :
    (acc : List Mapping) (m : Mapping) → length (compact_item acc m) ≤ suc (length acc)
unfolding compact_item
length-compact_item [] m = omega arith
length-compact_item (p ∷ acc) m = ground arith

pub length-compact_items :
    (acc ms : List Mapping) → length (compact_items acc ms) ≤ length acc + length ms
unfolding compact_items
length-compact_items acc [] = omega arith
length-compact_items acc (m ∷ ms) =
    omega (arith, length-compact_item acc m, length-compact_items (compact_item acc m) ms)

-- Two mappings that the code would have joined.
abbrev Joinable : Mapping → Mapping → Type 0
Joinable first second = (first.end ≡ second.start) × (first.executable ≡ second.executable)

-- No mapping can be joined with the one after it; the last mapping comes first.
abbrev pub IsCompactRev : List Mapping → Type 0
IsCompactRev [] = Unit {0}
IsCompactRev (m ∷ []) = Unit {0}
IsCompactRev (m ∷ (p ∷ ms)) =
    (p.end ≡ m.start → p.executable ≢ m.executable) × IsCompactRev (p ∷ ms)

compact_item-IsCompactRev :
    (acc : List Mapping) (m : Mapping) → IsCompactRev acc → IsCompactRev (compact_item acc m)
unfolding compact_item
compact_item-IsCompactRev [] m h = tt
compact_item-IsCompactRev (p ∷ []) m h = ground arith
compact_item-IsCompactRev (p ∷ (q ∷ acc)) m h = ground arith

pub compact_items-IsCompactRev :
    (acc ms : List Mapping) → IsCompactRev acc → IsCompactRev (compact_items acc ms)
unfolding compact_items
compact_items-IsCompactRev acc [] h = h
compact_items-IsCompactRev acc (m ∷ ms) h =
    compact_items-IsCompactRev (compact_item acc m) ms (compact_item-IsCompactRev acc m h)
