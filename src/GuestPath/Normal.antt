-- ===== src/GuestPath/Normal.antt =====
-- src/guest_path.c: what `normalize_guest_path` returns.
use alpine_on_qnx.Prelude.{
  ℕ, ◌+◌, ◌*◌, ◌/◌, ◌≤◌, ◌<◌, ◌≡◌, refl, ap, subst, ◌∙◌, some, List, [], ◌∷◌, ◌++◌, ltb, leb, ◌==◌,
  length, length-append, rev_onto, Bool-cases, Option-cases, inl, inr, arith, eq_of_some,
}
use alpine_on_qnx.GuestPath.{
  Outcome, ok, err, err_unset, overrun, Bytes, same_bytes, parts, dot, dot_dot, tail, add_part,
  add_parts, emit, put_before, combine, normalize_guest_path,
}
use alpine_on_qnx.GuestPath.Components.{IsName, AllNames, IsPart, AllParts, join, parts-AllParts}

tail-AllNames : (names : List Bytes) → AllNames names → AllNames (tail names)
tail-AllNames [] h = tt
tail-AllNames (c ∷ names) h = h.1

length-tail : (names : List Bytes) → length (tail names) ≤ length names
length-tail [] = omega arith
length-tail (c ∷ names) = omega arith

add_part-AllNames :
    (limit : ℕ) (part : Bytes) (names added : List Bytes)
    → IsPart part
    → AllNames names
    → add_part limit part names ≡ some added
    → AllNames added
unfolding add_part
add_part-AllNames limit part names added hp hn h = elim (Bool-cases (same_bytes part dot)) [
  | inl e ↦ subst AllNames (eq_of_some (rw e at h)) hn
  | inr e ↦ elim (Bool-cases (same_bytes part dot_dot)) [
    | inl f ↦
        let r : some (tail names) ≡ some added = rw (e, f) at h in
        subst AllNames (eq_of_some r) (tail-AllNames names hn)
    | inr f ↦ elim (Bool-cases (leb limit (length names))) [
      | inl g ↦ absurd (cc (rw (e, f, g) at h))
      | inr g ↦
          let r : some (part ∷ names) ≡ some added = rw (e, f, g) at h in
          let name : IsName part = record {
            not_empty = hp.0;
            no_slash = hp.1;
            not_dot = e;
            not_dot_dot = f;
          } in
          subst AllNames (eq_of_some r) (name, hn)
    ]
  ]
]

pub add_parts-AllNames :
    (limit : ℕ) (split : List Bytes) (names added : List Bytes)
    → AllParts split
    → AllNames names
    → add_parts limit split names ≡ some added
    → AllNames added
unfolding add_parts
add_parts-AllNames limit [] names added hp hn h = subst AllNames (eq_of_some h) hn
add_parts-AllNames limit (part ∷ rest) names added hp hn h =
    elim (Option-cases (add_part limit part names)) [
      | inl e ↦ absurd (cc (rw (e, add_parts) at h))
      | inr (more, e) ↦
          add_parts-AllNames limit rest more added hp.1
            (add_part-AllNames limit part names more hp.0 hn e) (rw (e, add_parts) at h)
    ]

pub rev_onto-AllNames :
    (acc names : List Bytes) → AllNames acc → AllNames names → AllNames (rev_onto acc names)
rev_onto-AllNames acc [] ha hn = ha
rev_onto-AllNames acc (c ∷ names) ha hn = rev_onto-AllNames (c ∷ acc) names (hn.0, ha) hn.1

ok_cases :
    (start : Bytes) (o : Outcome Bytes) (bytes : Bytes)
    → put_before start o ≡ ok bytes
    → (later : Bytes) × (o ≡ ok later) × (bytes ≡ start ++ (b'/' ∷ later))
ok_cases start (ok later) bytes h = (later, refl, cc)
ok_cases start (err e) bytes h = absurd cc
ok_cases start err_unset bytes h = absurd cc
ok_cases start overrun bytes h = absurd cc

-- What the output loop writes is the names joined, and it fits.
pub emit_lem :
    (size position : ℕ) (names : List Bytes) (bytes : Bytes)
    → position < size
    → emit size position names ≡ ok bytes
    → (bytes ≡ join names) × (position + length bytes < size)
unfolding emit
emit_lem size position [] bytes hp h = (cc, ground arith)
emit_lem size position (c ∷ []) bytes hp h = elim (Bool-cases (leb size (position + length c))) [
  | inl e ↦ absurd (cc (rw e at h))
  | inr e ↦ let same : bytes ≡ c = cc (rw e at h) in (same, rw same (ground arith))
]
emit_lem size position (c ∷ (d ∷ rest)) bytes hp h =
    elim (Bool-cases (leb size (position + length c + 1))) [
      | inl e ↦ absurd (cc (rw e at h))
      | inr e ↦
          let fits : position + length c + 1 < size = ground arith in
          let put = ok_cases c (emit size (position + length c + 1) (d ∷ rest)) bytes (rw e at h) in
          let later = emit_lem size (position + length c + 1) (d ∷ rest) put.0 fits put.1 in
          (
            put.2 ∙ ap (λ b. c ++ (b'/' ∷ b)) later.0,
            rw put.2 (omega (arith, length-append c (b'/' ∷ put.0), later.1)),
          )
    ]

-- A path of the guest in normal form: a slash, and names between slashes.
pub record IsNormal (size : ℕ) (path : Bytes) : Type 0 where
  pub names : List Bytes
  pub all_names : AllNames names
  pub joined : path ≡ b'/' ∷ join names
  pub fits : length path < size

-- What `normalize_guest_path` returns is in normal form and fits into its buffer of `size` bytes:
-- it is absolute, and no name in it is empty, `.` or `..`, so it does not lead out of the root.
pub normalize_guest_path-IsNormal :
    (path_max : ℕ) (cwd path : Bytes) (size : ℕ) (result : Bytes)
    → normalize_guest_path path_max cwd path size ≡ ok result
    → IsNormal size result
unfolding normalize_guest_path
normalize_guest_path-IsNormal path_max cwd path size result h =
    elim (Bool-cases (length path == 0)) [
      | inl e ↦ absurd (cc (rw e at h))
      | inr e ↦ elim (Bool-cases (leb (path_max * 2) (length (combine cwd path)))) [
        | inl f ↦ absurd (cc (rw (e, f) at h))
        | inr f ↦ elim (Option-cases (add_parts (path_max / 2) (parts [] (combine cwd path)) [])) [
          | inl g ↦ absurd (cc (rw (e, f, g) at h))
          | inr (components, g) ↦ elim (Bool-cases (ltb size 2)) [
            | inl k ↦ absurd (cc (rw (e, f, g, k) at h))
            | inr k ↦
                let start : AllNames components =
                  add_parts-AllNames (path_max / 2) (parts [] (combine cwd path)) [] components
                    (parts-AllParts [] (combine cwd path) tt) tt g in
                let put =
                  ok_cases [] (emit size 1 (rev_onto [] components)) result
                    (rw (e, f, g, k) at h) in
                let room : 1 < size = ground arith in
                let out = emit_lem size 1 (rev_onto [] components) put.0 room put.1 in
                record {
                  names = rev_onto [] components;
                  all_names = rev_onto-AllNames [] components tt start;
                  joined = put.2 ∙ ap (λ b. b'/' ∷ b) out.0;
                  fits = rw put.2 (omega (arith, out.1));
                }
          ]
        ]
      ]
    ]
