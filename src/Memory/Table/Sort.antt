-- ===== src/Memory/Table/Sort.antt =====
-- The insertion sort of `runtime_replace_locked`, at the arrays that reach it.
use alpine_on_qnx.Prelude.{
  ℕ, ◌≤◌, ◌<◌, ◌≡◌, refl, some, List, [], ◌∷◌, ◌++◌, ◌∙◌, suc, length, if◌then◌else◌, rev_onto, ap,
  arith,
}
use alpine_on_qnx.Memory.Table.{Mapping, insert_item, sort_items, covers, mapping_at}
use alpine_on_qnx.Memory.Table.Chain.{Chain, Below, Below-mono}
use alpine_on_qnx.Memory.Table.Cut.{Avoids}

pub sort_items-snoc :
    (prefix xs : List Mapping) (r : Mapping)
    → sort_items prefix (xs ++ (r ∷ [])) ≡ insert_item r (sort_items prefix xs)
unfolding sort_items
sort_items-snoc prefix [] r = refl
sort_items-snoc prefix (x ∷ xs) r = sort_items-snoc (insert_item x prefix) xs r

insert_item_last :
    (lo : ℕ) (m : Mapping) (prefix : List Mapping)
    → Below lo prefix
    → lo ≤ m.start
    → insert_item m prefix ≡ m ∷ prefix
unfolding insert_item
insert_item_last lo m [] b le = refl
insert_item_last lo m (p ∷ prefix) b le = ground arith

-- An array in order is left as it is.
pub sort_items-Chain :
    (lo hi : ℕ) (prefix xs : List Mapping)
    → Below lo prefix
    → Chain lo hi xs
    → sort_items prefix xs ≡ rev_onto prefix xs
unfolding sort_items
sort_items-Chain lo hi prefix [] b c = refl
sort_items-Chain lo hi prefix (x ∷ xs) b c =
    ap (λ (t : List Mapping). sort_items t xs) (insert_item_last lo x prefix b c.0)
    ∙ sort_items-Chain x.end hi (x ∷ prefix) xs
        (omega arith, c.1, Below-mono lo x.start prefix c.0 b) c.2

module _ (r : Mapping) (range : r.start < r.end) where
  -- A mapping that overlaps none of a table is put into its place.
  pub insert_item-Below :
      (hi : ℕ) (ms : List Mapping)
      → Below hi ms
      → r.end ≤ hi
      → Avoids r.start r.end range ms
      → Below hi (insert_item r ms)
  unfolding insert_item
  insert_item-Below hi [] b le v = (le, range, tt)
  insert_item-Below hi (m ∷ ms) b le v = ground (arith, insert_item-Below m.start ms b.2, v.1)

  pub mapping_at-insert_item :
      (hi : ℕ) (ms : List Mapping) (a : ℕ)
      → Below hi ms
      → Avoids r.start r.end range ms
      → mapping_at (insert_item r ms) a
        ≡ (if covers r a then some r.executable else mapping_at ms a)
  unfolding insert_item mapping_at
  mapping_at-insert_item hi [] a b v = refl
  mapping_at-insert_item hi (m ∷ ms) a b v =
      ground (arith, mapping_at-insert_item m.start ms a b.2 v.1)

  pub Avoids-rev_onto :
      (acc ms : List Mapping)
      → Avoids r.start r.end range acc
      → Avoids r.start r.end range ms
      → Avoids r.start r.end range (rev_onto acc ms)
  Avoids-rev_onto acc [] v w = v
  Avoids-rev_onto acc (m ∷ ms) v w = Avoids-rev_onto (m ∷ acc) ms (w.0, v) w.1

pub length-insert_item :
    (r : Mapping) (ms : List Mapping) → length (insert_item r ms) ≡ suc (length ms)
unfolding insert_item
length-insert_item r [] = refl
length-insert_item r (m ∷ ms) = ground (arith, length-insert_item r ms)
