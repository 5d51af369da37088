-- ===== src/Memory/Table/Canonical.antt =====
-- A table is the normal form of the address space that it stands for.
use alpine_on_qnx.Prelude.{
  ℕ, ◌≤◌, ◌≡◌, ◌≢◌, refl, sym, subst, ◌∙◌, ap, ap₂, some, List, [], ◌∷◌, ltb, Bool-cases, inl, inr,
  arith,
}
use alpine_on_qnx.Words.{uintptr_max}
use alpine_on_qnx.Memory.Table.Runtime.{TableCall, run_calls, run_calls-IsTable}
use alpine_on_qnx.Memory.Table.{Mapping, mapping_at}
use alpine_on_qnx.Memory.Table.Chain.{Chain, mapping_at-Chain}
use alpine_on_qnx.Memory.Table.Replace.{IsTable, IsCompact}

-- The first byte of a table's first mapping, and the bytes below it.
head_mapped :
    (lo hi : ℕ) (m : Mapping) (ms : List Mapping)
    → Chain lo hi (m ∷ ms)
    → mapping_at (m ∷ ms) m.start ≡ some m.executable
unfolding mapping_at
head_mapped lo hi m ms c = ground arith

heads_start :
    (lo hi : ℕ) (m n : Mapping) (ms ns : List Mapping)
    → Chain lo hi (m ∷ ms)
    → Chain lo hi (n ∷ ns)
    → ((a : ℕ) → mapping_at (m ∷ ms) a ≡ mapping_at (n ∷ ns) a)
    → n.start ≤ m.start
heads_start lo hi m n ms ns c d ext = elim (Bool-cases (ltb m.start n.start)) [
  | inl lt ↦ cc (
    ext m.start,
    head_mapped lo hi m ms c,
    mapping_at-Chain n.start hi (n ∷ ns) m.start (omega arith, d.1, d.2) (ground arith),
  )
  | inr ge ↦ ground arith
]

-- The byte just after a mapping of a compact table does not carry its protection on.
next_differs :
    (lo hi : ℕ) (m : Mapping) (ms : List Mapping)
    → Chain lo hi (m ∷ ms)
    → IsCompact (m ∷ ms)
    → mapping_at (m ∷ ms) m.end ≢ some m.executable
unfolding mapping_at
next_differs lo hi m [] c k e = ground arith
next_differs lo hi m (n ∷ ms) c k e = ground (arith, mapping_at-Chain n.end hi ms m.end c.2.2)

IsCompact-tail : (m : Mapping) (ms : List Mapping) → IsCompact (m ∷ ms) → IsCompact ms
IsCompact-tail m [] k = tt
IsCompact-tail m (n ∷ ms) k = k.1

module _ (lo hi : ℕ) (m n : Mapping) (ms ns : List Mapping) (c : Chain lo hi (m ∷ ms))
    (d : Chain lo hi (n ∷ ns)) (ext : (a : ℕ) → mapping_at (m ∷ ms) a ≡ mapping_at (n ∷ ns) a) where
  starts_eq : m.start ≡ n.start
  starts_eq = omega (
    arith,
    heads_start lo hi m n ms ns c d ext,
    heads_start lo hi n m ns ms d c (λ a. sym (ext a)),
  )

  protections_eq : m.executable ≡ n.executable
  protections_eq =
      let same : some m.executable ≡ some n.executable =
        sym (head_mapped lo hi m ms c)
        ∙ ext m.start
        ∙ ap (mapping_at (n ∷ ns)) starts_eq
        ∙ head_mapped lo hi n ns d in
      cc

ends_le :
    (lo hi : ℕ) (m n : Mapping) (ms ns : List Mapping)
    → Chain lo hi (m ∷ ms)
    → Chain lo hi (n ∷ ns)
    → IsCompact (m ∷ ms)
    → ((a : ℕ) → mapping_at (m ∷ ms) a ≡ mapping_at (n ∷ ns) a)
    → n.end ≤ m.end
unfolding mapping_at
ends_le lo hi m n ms ns c d k ext = elim (Bool-cases (ltb m.end n.end)) [
  | inr ge ↦ ground arith
  | inl lt ↦ absurd (
      ground (
        arith,
        next_differs lo hi m ms c k,
        ext m.end,
        starts_eq lo hi m n ms ns c d ext,
        protections_eq lo hi m n ms ns c d ext,
      ))
]

tail_view :
    (lo hi : ℕ) (m n : Mapping) (ms ns : List Mapping)
    → Chain lo hi (m ∷ ms)
    → Chain lo hi (n ∷ ns)
    → m ≡ n
    → ((a : ℕ) → mapping_at (m ∷ ms) a ≡ mapping_at (n ∷ ns) a)
    → (a : ℕ) → mapping_at ms a ≡ mapping_at ns a
unfolding mapping_at
tail_view lo hi m n ms ns c d e ext a =
    ground (arith, ext a, mapping_at-Chain m.end hi ms a c.2, mapping_at-Chain n.end hi ns a d.2)

view-injective :
    (lo hi : ℕ) (ms ns : List Mapping)
    → Chain lo hi ms
    → Chain lo hi ns
    → IsCompact ms
    → IsCompact ns
    → ((a : ℕ) → mapping_at ms a ≡ mapping_at ns a)
    → ms ≡ ns
unfolding mapping_at
view-injective lo hi [] [] c d k l ext = refl
view-injective lo hi [] (n ∷ ns) c d k l ext = cc (ext n.start, head_mapped lo hi n ns d)
view-injective lo hi (m ∷ ms) [] c d k l ext = cc (ext m.start, head_mapped lo hi m ms c)
view-injective lo hi (m ∷ ms) (n ∷ ns) c d k l ext =
    let back : (a : ℕ) → mapping_at (n ∷ ns) a ≡ mapping_at (m ∷ ms) a = λ a. sym (ext a) in
    let ends : m.end ≡ n.end =
      omega (arith, ends_le lo hi m n ms ns c d k ext, ends_le lo hi n m ns ms d c l back) in
    let starts : m.start ≡ n.start = starts_eq lo hi m n ms ns c d ext in
    let same : m ≡ n = ground (arith, protections_eq lo hi m n ms ns c d ext) in
    ap₂ ◌∷◌ same (
      view-injective m.end hi ms ns c.2 (subst (λ (t : ℕ). Chain t hi ns) (sym ends) d.2)
        (IsCompact-tail m ms k) (IsCompact-tail n ns l) (tail_view lo hi m n ms ns c d same ext))

-- Two tables that keep the invariant and map the same bytes with the same protections are equal:
-- how a table came about leaves no trace in it.
pub tables_canonical :
    {ms ns : List Mapping}
    → IsTable ms
    → IsTable ns
    → ((a : ℕ) → mapping_at ms a ≡ mapping_at ns a)
    → ms ≡ ns
tables_canonical {ms} {ns} t u ext =
    view-injective 0 uintptr_max ms ns t.in_order u.in_order t.compact u.compact ext

-- Two sequences of calls on a table in order that leave the same bytes mapped with the same
-- protections leave the same table.
pub run_calls-canonical :
    (cs ds : List TableCall) {ms : List Mapping}
    → IsTable ms
    → ((a : ℕ) → mapping_at (run_calls cs ms) a ≡ mapping_at (run_calls ds ms) a)
    → run_calls cs ms ≡ run_calls ds ms
run_calls-canonical cs ds t same =
    tables_canonical (run_calls-IsTable cs t) (run_calls-IsTable ds t) same
