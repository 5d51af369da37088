-- ===== src/GuestPath/Links/Plain.antt =====
-- src/guest_path.c: no symbolic link is left in a path that `resolve_guest_symlinks` returns.
use alpine_on_qnx.Prelude.{
  ◌+◌, ◌<◌, ◌≡◌, refl, sym, ap, ◌∙◌, ◌⊎◌, inl, inr, Bool, true, false, List, [], ◌∷◌, ◌++◌, ltb,
  leb, ◌==◌, length, rev_onto, Bool-cases, length-rev_onto, arith,
}
use alpine_on_qnx.Abi.Errno.{Errno, enoent}
use alpine_on_qnx.GuestPath.{Bytes}
use alpine_on_qnx.GuestPath.Components.{NoSlash, IsName, AllNames, join, rev_onto-rev_onto}
use alpine_on_qnx.GuestPath.Links.{
  Node, absent, link, unreadable, other, Paths, Visit, settled, refused, follow, onward, finished,
  is_enoent, host_candidate, visit_node, visit, last_turn, walk,
}

-- The leaf may be missing where the caller allows it.
abbrev pub IsLeaf : Bool → Node → Type 0
IsLeaf allow_missing_leaf node =
    (node ≡ other) ⊎ ((allow_missing_leaf ≡ true) × (node ≡ absent enoent))

-- Every component of a path is something other than a symbolic link on the host.
abbrev pub Plain : Paths → Bool → Bytes → List Bytes → Type 0
Plain paths allow_missing_leaf parent [] = Unit {0}
Plain paths allow_missing_leaf parent (c ∷ []) =
    IsLeaf allow_missing_leaf (paths.lstat (host_candidate paths parent c))
Plain paths allow_missing_leaf parent (c ∷ (d ∷ rest)) =
    (paths.lstat (host_candidate paths parent c) ≡ other)
    × Plain paths allow_missing_leaf (parent ++ (b'/' ∷ c)) (d ∷ rest)

-- What a turn of the loop shows of the node it has looked at.
Seen : Bool → Bool → Bytes → Bytes → Node → Visit → Type 0
Seen allow_missing_leaf last parent component node settled =
    (last ≡ true) × IsLeaf allow_missing_leaf node
Seen allow_missing_leaf last parent component node (refused e) = Unit {0}
Seen allow_missing_leaf last parent component node (follow target) = Unit {0}
Seen allow_missing_leaf last parent component node (onward longer) =
    (last ≡ false) × (node ≡ other) × (longer ≡ parent ++ (b'/' ∷ component))

enoent_lem : (e : Errno) → is_enoent e ≡ true → e ≡ enoent
enoent_lem enoent h = refl
enoent_lem _ h = absurd cc

visit_node_lem :
    (paths : Paths) (allow last : Bool) (parent component : Bytes) (node : Node)
    → Seen allow last parent component node (visit_node paths allow last parent component node)
unfolding Seen
visit_node_lem paths true true parent component (absent e) = elim (Bool-cases (is_enoent e)) [
  | inl h ↦ rw h (refl, inr (refl, ap absent (enoent_lem e h)))
  | inr h ↦ rw h tt
]
visit_node_lem paths true false parent component (absent e) = tt
visit_node_lem paths false last parent component (absent e) = tt
visit_node_lem paths allow last parent component (link target) = tt
visit_node_lem paths allow last parent component (unreadable e) = tt
visit_node_lem paths allow true parent component other =
    elim (Bool-cases (leb paths.path_max (length (parent ++ (b'/' ∷ component))))) [
      | inl h ↦ rw h tt
      | inr h ↦ rw h (refl, inl refl)
    ]
visit_node_lem paths allow false parent component other =
    elim (Bool-cases (leb paths.path_max (length (parent ++ (b'/' ∷ component))))) [
      | inl h ↦ rw h tt
      | inr h ↦ rw h (refl, refl, refl)
    ]

visit_lem :
    (paths : Paths) (allow last : Bool) (parent component : Bytes)
    → Seen allow last parent component
        (paths.lstat (host_candidate paths parent component))
        (visit paths allow last parent component)
unfolding visit Seen
visit_lem paths allow last parent component =
    elim (Bool-cases (ltb paths.path_max (length component + 1))) [
      | inl e ↦ rw e tt
      | inr e ↦
          elim (Bool-cases (leb paths.path_max (length (host_candidate paths parent component)))) [
            | inl f ↦ rw (e, f) tt
            | inr f ↦
                rw (e, f)
                  (visit_node_lem paths allow last parent component
                    (paths.lstat (host_candidate paths parent component)))
          ]
    ]

walk_name :
    (paths : Paths) (allow : Bool) (parent part c rest : Bytes)
    → NoSlash c
    → walk paths allow parent part (c ++ (b'/' ∷ rest))
      ≡ walk paths allow parent (rev_onto part c) (b'/' ∷ rest)
unfolding walk
walk_name paths allow parent part [] rest h = refl
walk_name paths allow parent part (x ∷ c) rest h =
    let slash : (x == b'/') ≡ false = ground (arith, h.0) in
    rw slash (walk_name paths allow parent (x ∷ part) c rest h.1)

walk_last :
    (paths : Paths) (allow : Bool) (parent part c : Bytes)
    → NoSlash c
    → walk paths allow parent part c ≡ walk paths allow parent (rev_onto part c) []
unfolding walk
walk_last paths allow parent part [] h = refl
walk_last paths allow parent part (x ∷ c) h =
    let slash : (x == b'/') ≡ false = ground (arith, h.0) in
    rw slash (walk_last paths allow parent (x ∷ part) c h.1)

walk_end :
    (paths : Paths) (allow : Bool) (parent part : Bytes)
    → 0 < length part
    → walk paths allow parent part []
      ≡ last_turn parent (visit paths allow true parent (rev_onto [] part))
unfolding walk
walk_end paths allow parent [] h = absurd (omega arith)
walk_end paths allow parent (p ∷ part) h = refl

IsLeaf-Seen :
    (allow : Bool) (parent component : Bytes) (node : Node) (v : Visit)
    → Seen allow true parent component node v
    → last_turn parent v ≡ finished
    → IsLeaf allow node
unfolding Seen
IsLeaf-Seen allow parent component node settled seen h = seen.1
IsLeaf-Seen allow parent component node (refused e) seen h = absurd cc
IsLeaf-Seen allow parent component node (follow target) seen h = absurd cc
IsLeaf-Seen allow parent component node (onward longer) seen h = absurd (cc seen.0)

IsLeaf-walk :
    (paths : Paths) (allow : Bool) (parent c : Bytes)
    → IsName c
    → walk paths allow parent [] c ≡ finished
    → IsLeaf allow (paths.lstat (host_candidate paths parent c))
IsLeaf-walk paths allow parent c name h =
    let long : 0 < length (rev_onto [] c) = omega (arith, length-rev_onto [] c, name.not_empty) in
    let turn : last_turn parent (visit paths allow true parent c) ≡ finished =
      ap (λ p. last_turn parent (visit paths allow true parent p)) (sym (rev_onto-rev_onto [] c))
      ∙ sym (walk_end paths allow parent (rev_onto [] c) long)
      ∙ sym (walk_last paths allow parent [] c name.no_slash)
      ∙ h in
    IsLeaf-Seen allow parent c (paths.lstat (host_candidate paths parent c))
      (visit paths allow true parent c) (visit_lem paths allow true parent c) turn

-- A turn that is not the last, after which the loop finishes.
turn_seen :
    (paths : Paths) (allow : Bool) (parent part rest : Bytes) (v : Visit)
    → visit paths allow false parent (rev_onto [] part) ≡ v
    → walk paths allow parent part (b'/' ∷ rest) ≡ finished
    → (next : Bytes) × (visit paths allow false parent (rev_onto [] part) ≡ onward next)
      × (walk paths allow next [] rest ≡ finished)
unfolding walk Seen
turn_seen paths allow parent part rest settled e h =
    let seen = visit_lem paths allow false parent (rev_onto [] part) in
    absurd (cc ((rw e at seen).0))
turn_seen paths allow parent part rest (refused r) e h = absurd (cc (rw e at h))
turn_seen paths allow parent part rest (follow target) e h = absurd (cc (rw e at h))
turn_seen paths allow parent part rest (onward next) e h = (next, e, rw e at h)

onward_seen :
    (paths : Paths) (allow : Bool) (parent c next : Bytes)
    → visit paths allow false parent c ≡ onward next
    → (paths.lstat (host_candidate paths parent c) ≡ other) × (next ≡ parent ++ (b'/' ∷ c))
unfolding Seen
onward_seen paths allow parent c next e =
    let seen = visit_lem paths allow false parent c in
    let there = rw e at seen in (there.1, there.2)

pub walk-Plain :
    (paths : Paths) (allow : Bool) (parent : Bytes) (names : List Bytes)
    → AllNames names
    → walk paths allow parent [] (join names) ≡ finished
    → Plain paths allow parent names
walk-Plain paths allow parent [] hn h = tt
walk-Plain paths allow parent (c ∷ []) hn h = IsLeaf-walk paths allow parent c hn.0 h
walk-Plain paths allow parent (c ∷ (d ∷ rest)) hn h =
    let visited = visit paths allow false parent (rev_onto [] (rev_onto [] c)) in
    let started = sym (walk_name paths allow parent [] c (join (d ∷ rest)) hn.0.no_slash) ∙ h in
    let turn =
      turn_seen paths allow parent (rev_onto [] c) (join (d ∷ rest)) visited refl started in
    let here_visit : visit paths allow false parent c ≡ onward turn.0 =
      ap (λ p. visit paths allow false parent p) (sym (rev_onto-rev_onto [] c)) ∙ turn.1 in
    let seen = onward_seen paths allow parent c turn.0 here_visit in
    (
      seen.0,
      walk-Plain paths allow (parent ++ (b'/' ∷ c)) (d ∷ rest) hn.1
          (ap (λ p. walk paths allow p [] (join (d ∷ rest))) (sym seen.1) ∙ turn.2),
    )
