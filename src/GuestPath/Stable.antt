-- ===== src/GuestPath/Stable.antt =====
-- src/guest_path.c: `normalize_guest_path` leaves a path in normal form as it is, and has room for
-- the components of the paths that callers can name.
use alpine_on_qnx.Prelude.{
  ℕ, suc, ◌+◌, ◌*◌, ◌/◌, ◌≤◌, ◌<◌, ◌≡◌, ◌≢◌, refl, ap, false, Option, some, List, [], ◌∷◌, ltb, leb,
  ◌==◌, length, length-append, rev_onto, Bool-cases, inl, inr, arith,
}
use alpine_on_qnx.GuestPath.{
  Outcome, ok, err, err_unset, overrun, Bytes, same_bytes, flush, parts, dot, dot_dot, tail,
  add_part, add_parts, emit, put_before, combine, normalize_guest_path,
}
use alpine_on_qnx.GuestPath.Components.{AllNames, join, parts-join, rev_onto-rev_onto}
use alpine_on_qnx.GuestPath.Normal.{IsNormal}

length-flush :
    (current : Bytes) (rest : List Bytes)
    → length (flush current rest) * 2 ≤ length current + 1 + length rest * 2
length-flush [] rest = omega arith
length-flush (c ∷ current) rest = omega arith

-- A string has at most one part for two of its bytes, the last one aside.
length-parts :
    (current text : Bytes) → length (parts current text) * 2 ≤ length current + length text + 1
unfolding parts
length-parts current [] = omega (arith, length-flush current [])
length-parts current (c ∷ cs) = elim (Bool-cases (c == b'/')) [
  | inl e ↦ rw e (omega (arith, length-flush current (parts [] cs), length-parts [] cs))
  | inr e ↦ rw e (omega (arith, length-parts (c ∷ current) cs))
]

tail_short : (names : List Bytes) → length (tail names) ≤ length names
tail_short [] = omega arith
tail_short (c ∷ names) = omega arith

Added : ℕ → Option (List Bytes) → Type 0
Added bound o = (names : List Bytes) × (o ≡ some names) × (length names ≤ bound)

add_part_room :
    (limit : ℕ) (part : Bytes) (names : List Bytes)
    → length names < limit
    → Added (suc (length names)) (add_part limit part names)
unfolding add_part Added
add_part_room limit part names h = elim (Bool-cases (same_bytes part dot)) [
  | inl e ↦ (names, rw e refl, omega arith)
  | inr e ↦ elim (Bool-cases (same_bytes part dot_dot)) [
    | inl f ↦ (tail names, rw (e, f) refl, omega (arith, tail_short names))
    | inr f ↦
        let g : leb limit (length names) ≡ false = ground arith in
        (part ∷ names, rw (e, f, g) refl, omega arith)
  ]
]

add_parts_room :
    (limit : ℕ) (split names : List Bytes)
    → length names + length split ≤ limit
    → (added : List Bytes) × (add_parts limit split names ≡ some added)
unfolding add_parts Added
add_parts_room limit [] names h = (names, refl)
add_parts_room limit (part ∷ rest) names h =
    let more = add_part_room limit part names (omega arith) in
    let all = add_parts_room limit rest more.0 (omega (arith, more.2)) in
    (all.0, rw (more.1, add_parts) all.1)

half : (n m : ℕ) → n * 2 ≤ m → n ≤ m / 2
half n m h = omega arith

put_before_kept : (start : Bytes) (o : Outcome Bytes) → o ≢ overrun → put_before start o ≢ overrun
put_before_kept start (ok bytes) h w = cc
put_before_kept start (err e) h w = cc
put_before_kept start err_unset h w = cc
put_before_kept start overrun h w = h refl

emit_kept : (size position : ℕ) (names : List Bytes) → emit size position names ≢ overrun
unfolding emit
emit_kept size position [] w = cc
emit_kept size position (c ∷ []) w = elim (Bool-cases (leb size (position + length c))) [
  | inl e ↦ absurd (cc (rw e at w))
  | inr e ↦ absurd (cc (rw e at w))
]
emit_kept size position (c ∷ (d ∷ rest)) w =
    elim (Bool-cases (leb size (position + length c + 1))) [
      | inl e ↦ absurd (cc (rw e at w))
      | inr e ↦
          put_before_kept c (emit size (position + length c + 1) (d ∷ rest))
            (emit_kept size (position + length c + 1) (d ∷ rest)) (rw e at w)
    ]

-- The array of `normalize_guest_path` has room for the components of a path whose text, with the
-- working directory before it if it is relative, is shorter than PATH_MAX.
pub normalize_guest_path_room :
    (path_max : ℕ) (cwd path : Bytes) (size : ℕ)
    → length (combine cwd path) < path_max
    → normalize_guest_path path_max cwd path size ≢ overrun
unfolding normalize_guest_path
normalize_guest_path_room path_max cwd path size h w =
    let count = length-parts [] (combine cwd path) in
    let room =
      add_parts_room (path_max / 2) (parts [] (combine cwd path)) []
        (omega (arith, half (length (parts [] (combine cwd path))) path_max (omega arith))) in
    elim (Bool-cases (length path == 0)) [
      | inl e ↦ absurd (cc (rw e at w))
      | inr e ↦ elim (Bool-cases (leb (path_max * 2) (length (combine cwd path)))) [
        | inl f ↦ absurd (cc (rw (e, f) at w))
        | inr f ↦ elim (Bool-cases (ltb size 2)) [
          | inl k ↦ absurd (cc (rw (e, f, room.1, k) at w))
          | inr k ↦
              put_before_kept [] (emit size 1 (rev_onto [] room.0))
                (emit_kept size 1 (rev_onto [] room.0)) (rw (e, f, room.1, k) at w)
        ]
      ]
    ]

-- A name that is already there is added as it is.
add_parts_names :
    (limit : ℕ) (split names : List Bytes)
    → AllNames split
    → length names + length split ≤ limit
    → add_parts limit split names ≡ some (rev_onto names split)
unfolding add_parts add_part
add_parts_names limit [] names hs h = refl
add_parts_names limit (c ∷ rest) names hs h =
    let g : leb limit (length names) ≡ false = ground arith in
    rw (hs.0.not_dot, hs.0.not_dot_dot, g, add_part, add_parts)
      (add_parts_names limit rest (c ∷ names) hs.1 (omega arith))

length-join : (names : List Bytes) → AllNames names → length names * 2 ≤ length (join names) + 1
length-join [] h = omega arith
length-join (c ∷ []) h = omega (arith, h.0.not_empty)
length-join (c ∷ (d ∷ rest)) h =
    omega
      (arith, h.0.not_empty, length-join (d ∷ rest) h.1, length-append c (b'/' ∷ join (d ∷ rest)))

emit-join :
    (size position : ℕ) (names : List Bytes)
    → position + length (join names) < size
    → emit size position names ≡ ok (join names)
unfolding emit
emit-join size position [] h = refl
emit-join size position (c ∷ []) h = ground arith
emit-join size position (c ∷ (d ∷ rest)) h =
    let len = length-append c (b'/' ∷ join (d ∷ rest)) in
    let g : leb size (position + length c + 1) ≡ false = ground arith in
    rw g (ap (put_before c) (emit-join size (position + length c + 1) (d ∷ rest) (omega arith)))

again_joined :
    (path_max : ℕ) (cwd : Bytes) (names : List Bytes) (size : ℕ)
    → AllNames names
    → suc (length (join names)) < size
    → size ≤ path_max
    → normalize_guest_path path_max cwd (b'/' ∷ join names) size ≡ ok (b'/' ∷ join names)
unfolding normalize_guest_path parts
again_joined path_max cwd names size hn fits small =
    let short = length-join names hn in
    let f : leb (path_max * 2) (suc (length (join names))) ≡ false = ground arith in
    let k : ltb size 2 ≡ false = ground arith in
    let g : add_parts (path_max / 2) names [] ≡ some (rev_onto [] names) =
      add_parts_names (path_max / 2) names [] hn
        (omega (arith, half (length names) path_max (omega arith))) in
    let z : (suc (length (join names)) == 0) ≡ false = ground arith in
    rw
      (
        z,
        f,
        parts-join names hn,
        g,
        k,
        rev_onto-rev_onto [] names,
        emit-join size 1 names (omega arith),
      )
      refl

-- A path in normal form that fits into a buffer of at most PATH_MAX bytes is left as it is:
-- normalizing twice is normalizing once.
pub normalize_guest_path_again :
    (path_max : ℕ) (cwd path : Bytes) (size : ℕ)
    → IsNormal size path
    → size ≤ path_max
    → normalize_guest_path path_max cwd path size ≡ ok path
normalize_guest_path_again path_max cwd path size h small = rw h.joined (
    again_joined path_max cwd h.names size h.all_names (omega (arith, h.fits, ap length h.joined))
      small)
