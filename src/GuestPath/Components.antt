-- ===== src/GuestPath/Components.antt =====
-- Splitting a string at its slashes, and joining it again.
use alpine_on_qnx.Prelude.{
  ℕ, ◌<◌, ◌≡◌, ◌≢◌, refl, ap, ◌∙◌, false, List, [], ◌∷◌, ◌++◌, ◌==◌, length, rev_onto, Bool-cases,
  inl, inr, length-rev_onto, arith,
}
use alpine_on_qnx.GuestPath.{Bytes, same_bytes, flush, parts, dot, dot_dot}

abbrev pub NoSlash : Bytes → Type 0
NoSlash [] = Unit {0}
NoSlash (c ∷ cs) = (c ≢ b'/') × NoSlash cs

-- A name that stands for itself: not empty, with no slash, and neither `.` nor `..`.
pub record IsName (c : Bytes) : Type 0 where
  pub not_empty : 0 < length c
  pub no_slash : NoSlash c
  pub not_dot : same_bytes c dot ≡ false
  pub not_dot_dot : same_bytes c dot_dot ≡ false

abbrev pub AllNames : List Bytes → Type 0
AllNames [] = Unit {0}
AllNames (c ∷ cs) = IsName c × AllNames cs

-- The bytes of a path after its first slash.
abbrev pub join : List Bytes → Bytes
join [] = []
join (c ∷ []) = c
join (c ∷ (d ∷ rest)) = c ++ (b'/' ∷ join (d ∷ rest))

-- A part of a path before the next slash or the end.
parts_name :
    (current c rest : Bytes)
    → NoSlash c
    → parts current (c ++ (b'/' ∷ rest)) ≡ flush (rev_onto current c) (parts [] rest)
unfolding parts
parts_name current [] rest h = refl
parts_name current (x ∷ c) rest h = ground (arith, parts_name (x ∷ current) c rest h.1)

parts_last : (current c : Bytes) → NoSlash c → parts current c ≡ flush (rev_onto current c) []
unfolding parts
parts_last current [] h = refl
parts_last current (x ∷ c) h = ground (arith, parts_last (x ∷ current) c h.1)

pub rev_onto-rev_onto :
    {A : Type 0} (acc xs : List A) → rev_onto [] (rev_onto acc xs) ≡ rev_onto xs acc
rev_onto-rev_onto acc [] = refl
rev_onto-rev_onto acc (x ∷ xs) = rev_onto-rev_onto (x ∷ acc) xs

flush-rev_onto :
    (x : ℕ) (acc xs : Bytes) (rest : List Bytes)
    → flush (rev_onto (x ∷ acc) xs) rest ≡ rev_onto [] (rev_onto (x ∷ acc) xs) ∷ rest
flush-rev_onto x acc [] rest = refl
flush-rev_onto x acc (y ∷ xs) rest = flush-rev_onto y (x ∷ acc) xs rest

flush_name : (c : Bytes) (rest : List Bytes) → 0 < length c → flush (rev_onto [] c) rest ≡ c ∷ rest
flush_name [] rest h = absurd (omega arith)
flush_name (x ∷ c) rest h =
    flush-rev_onto x [] c rest ∙ ap (λ n. n ∷ rest) (rev_onto-rev_onto [] (x ∷ c))

-- Splitting what was joined from names gives the names back.
pub parts-join : (names : List Bytes) → AllNames names → parts [] (join names) ≡ names
unfolding parts
parts-join [] h = refl
parts-join (c ∷ []) h = parts_last [] c h.0.no_slash ∙ flush_name c [] h.0.not_empty
parts-join (c ∷ (d ∷ rest)) h =
    parts_name [] c (join (d ∷ rest)) h.0.no_slash
    ∙ flush_name c (parts [] (join (d ∷ rest))) h.0.not_empty
    ∙ ap (λ n. c ∷ n) (parts-join (d ∷ rest) h.1)

-- A part as it is read: not empty, with no slash.
abbrev pub IsPart : Bytes → Type 0
IsPart c = (0 < length c) × NoSlash c

abbrev pub AllParts : List Bytes → Type 0
AllParts [] = Unit {0}
AllParts (c ∷ cs) = IsPart c × AllParts cs

rev_onto-NoSlash : (acc xs : Bytes) → NoSlash acc → NoSlash xs → NoSlash (rev_onto acc xs)
rev_onto-NoSlash acc [] ha hx = ha
rev_onto-NoSlash acc (x ∷ xs) ha hx = rev_onto-NoSlash (x ∷ acc) xs (hx.0, ha) hx.1

flush-AllParts :
    (current : Bytes) (rest : List Bytes)
    → NoSlash current
    → AllParts rest
    → AllParts (flush current rest)
flush-AllParts [] rest hc hr = hr
flush-AllParts (c ∷ current) rest hc hr =
    let long : 0 < length (rev_onto [] (c ∷ current)) =
      omega (arith, length-rev_onto (c ∷ []) current) in
    ((long, rev_onto-NoSlash [] (c ∷ current) tt hc), hr)

other_byte : (c : ℕ) → (c == b'/') ≡ false → c ≢ b'/'
other_byte c e = ground arith

-- What is read between the slashes of any string are parts.
pub parts-AllParts : (current text : Bytes) → NoSlash current → AllParts (parts current text)
unfolding parts
parts-AllParts current [] h = flush-AllParts current [] h tt
parts-AllParts current (c ∷ cs) h = elim (Bool-cases (c == b'/')) [
  | inl e ↦ rw e (flush-AllParts current (parts [] cs) h (parts-AllParts [] cs tt))
  | inr e ↦ rw e (parts-AllParts (c ∷ current) cs (other_byte c e, h))
]
