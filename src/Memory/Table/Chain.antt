-- ===== src/Memory/Table/Chain.antt =====
-- Tables in order: mappings that are not empty, each one ending before the next begins.
use alpine_on_qnx.Prelude.{
  ℕ, ◌≤◌, ◌<◌, ◌≡◌, refl, Option, none, some, List, [], ◌∷◌, ◌++◌, rev_onto, arith,
}
use alpine_on_qnx.Memory.Table.{Mapping, mapping_at}

-- In ascending order, between `lo` and `hi`.
abbrev pub Chain : ℕ → ℕ → List Mapping → Type 0
Chain lo hi [] = lo ≤ hi
Chain lo hi (m ∷ rest) = (lo ≤ m.start) × (m.start < m.end) × Chain m.end hi rest

-- The same with the last mapping first, as the code's loops build a table.
abbrev pub Below : ℕ → List Mapping → Type 0
Below hi [] = Unit {0}
Below hi (m ∷ rest) = (m.end ≤ hi) × (m.start < m.end) × Below m.start rest

pub Below-mono : (hi hi' : ℕ) (ms : List Mapping) → hi ≤ hi' → Below hi ms → Below hi' ms
Below-mono hi hi' [] le h = tt
Below-mono hi hi' (m ∷ ms) le h = (omega arith, h.1, h.2)

pub Chain-mono : (lo lo' hi : ℕ) (ms : List Mapping) → lo' ≤ lo → Chain lo hi ms → Chain lo' hi ms
Chain-mono lo lo' hi [] le h = omega arith
Chain-mono lo lo' hi (m ∷ ms) le h = (omega arith, h.1, h.2)

pub Chain-le : (lo hi : ℕ) (ms : List Mapping) → Chain lo hi ms → lo ≤ hi
Chain-le lo hi [] h = h
Chain-le lo hi (m ∷ ms) h = omega (arith, Chain-le m.end hi ms h.2)

-- Above a descending table nothing is mapped, and below an ascending one.
pub mapping_at-Below :
    (hi : ℕ) (ms : List Mapping) (a : ℕ) → Below hi ms → hi ≤ a → mapping_at ms a ≡ none
unfolding mapping_at
mapping_at-Below hi [] a h le = refl
mapping_at-Below hi (m ∷ ms) a h le =
    ground (arith, mapping_at-Below m.start ms a h.2 (omega arith))

pub mapping_at-Chain :
    (lo hi : ℕ) (ms : List Mapping) (a : ℕ) → Chain lo hi ms → a < lo → mapping_at ms a ≡ none
unfolding mapping_at
mapping_at-Chain lo hi [] a h lt = refl
mapping_at-Chain lo hi (m ∷ ms) a h lt =
    ground (arith, mapping_at-Chain m.end hi ms a h.2 (omega arith))

-- The first answer, or the second where the first is none.
abbrev pub or_else : Option ℕ → Option ℕ → Option ℕ
or_else none y = y
or_else (some x) y = some x

pub mapping_at-append :
    (xs ys : List Mapping) (a : ℕ)
    → mapping_at (xs ++ ys) a ≡ or_else (mapping_at xs a) (mapping_at ys a)
unfolding mapping_at
mapping_at-append [] ys a = refl
mapping_at-append (x ∷ xs) ys a = ground (arith, mapping_at-append xs ys a)

-- Turning a descending table round, onto an ascending one that lies above it.
pub rev_onto-Chain :
    (lo hi : ℕ) (xs ms : List Mapping) → Chain lo hi xs → Below lo ms → Chain 0 hi (rev_onto xs ms)
rev_onto-Chain lo hi xs [] c b = Chain-mono lo 0 hi xs (omega arith) c
rev_onto-Chain lo hi xs (m ∷ ms) c b =
    rev_onto-Chain m.start hi (m ∷ xs) ms (omega arith, b.1, Chain-mono lo m.end hi xs b.0 c) b.2

pub mapping_at-rev_onto :
    (lo hi : ℕ) (xs ms : List Mapping) (a : ℕ)
    → Chain lo hi xs
    → Below lo ms
    → mapping_at (rev_onto xs ms) a ≡ or_else (mapping_at ms a) (mapping_at xs a)
unfolding mapping_at
mapping_at-rev_onto lo hi xs [] a c b = refl
mapping_at-rev_onto lo hi xs (m ∷ ms) a c b = ground (
  arith,
  mapping_at-rev_onto m.start hi (m ∷ xs) ms a (omega arith, b.1, Chain-mono lo m.end hi xs b.0 c)
      b.2,
  mapping_at-Below m.start ms a b.2,
)

-- Turning an ascending table round, onto a descending one that lies below it.
pub rev_onto-Below :
    (lo hi : ℕ) (acc ms : List Mapping) → Below lo acc → Chain lo hi ms → Below hi (rev_onto acc ms)
rev_onto-Below lo hi acc [] b c = Below-mono lo hi acc c b
rev_onto-Below lo hi acc (m ∷ ms) b c =
    rev_onto-Below m.end hi (m ∷ acc) ms (omega arith, c.1, Below-mono lo m.start acc c.0 b) c.2

pub mapping_at-rev_onto-Below :
    (lo hi : ℕ) (acc ms : List Mapping) (a : ℕ)
    → Below lo acc
    → Chain lo hi ms
    → mapping_at (rev_onto acc ms) a ≡ or_else (mapping_at acc a) (mapping_at ms a)
unfolding mapping_at
mapping_at-rev_onto-Below lo hi acc [] a b c = ground arith
mapping_at-rev_onto-Below lo hi acc (m ∷ ms) a b c = ground (
  arith,
  mapping_at-rev_onto-Below m.end hi (m ∷ acc) ms a
      (omega arith, c.1, Below-mono lo m.start acc c.0 b) c.2,
  mapping_at-Below lo acc a b,
)
