-- ===== src/GuestPath.antt =====
-- src/guest_path.c: paths of the guest, inside its root directory. A C string is the list of its
-- bytes; PATH_MAX is the host's, a parameter `path_max`.
pub mod Components
pub mod Normal
pub mod Stable
pub mod Links
pub mod Resolve
pub mod At
mod Tests
use alpine_on_qnx.Prelude.{
  ℕ, zero, suc, ◌+◌, ◌-◌, ◌*◌, ◌/◌, ◌<◌, Bool, true, false, not, ◌&&◌, ◌||◌, Option, none, some,
  List, [], ◌∷◌, ◌++◌, ltb, leb, ◌==◌, if◌then◌else◌, length, rev_onto,
}
use alpine_on_qnx.Abi.Errno.{Errno, enoent, enametoolong, erange}

-- The result of a function that returns -1 on failure: with `errno` set, or with `errno` left as
-- some earlier call set it, or not at all, since a write beyond an array has come before.
pub data Outcome (A : Type 0) : Type 0 where
  ok : A → Outcome A
  err : Errno → Outcome A
  err_unset : Outcome A
  overrun : Outcome A

abbrev pub Bytes : Type 0
Bytes = List ℕ

-- What a caller does that returns -1 as soon as the function that it calls has.
abbrev pub and_then : Outcome Bytes → (Bytes → Outcome Bytes) → Outcome Bytes
and_then (ok bytes) next = next bytes
and_then (err e) next = err e
and_then err_unset next = err_unset
and_then overrun next = overrun

abbrev pub same_bytes : Bytes → Bytes → Bool
same_bytes [] [] = true
same_bytes (a ∷ as') (b ∷ bs) = a == b && same_bytes as' bs
same_bytes _ _ = false

-- The parts of a string between slashes that are not empty. The part that is being read is given
-- with its last byte first.
abbrev pub flush : Bytes → List Bytes → List Bytes
flush [] rest = rest
flush (c ∷ current) rest = rev_onto [] (c ∷ current) ∷ rest

unfoldable pub parts : Bytes → Bytes → List Bytes
parts current [] = flush current []
parts current (c ∷ cs) =
    let ended = flush current (parts [] cs) in
    let longer = parts (c ∷ current) cs in if c == b'/' then ended else longer

abbrev pub dot : Bytes
dot = b'.' ∷ []

abbrev pub dot_dot : Bytes
dot_dot = b'.' ∷ b'.' ∷ []

abbrev pub tail : List Bytes → List Bytes
tail [] = []
tail (c ∷ components) = components

-- One part, against `components` and `count`; the last component is first. `none` is a write
-- beyond the end of `components`, which has room for `limit` pointers.
unfoldable pub add_part : ℕ → Bytes → List Bytes → Option (List Bytes)
add_part limit part components =
    if same_bytes part dot
    then some components
    else if same_bytes part dot_dot
    then some (tail components)
    else if leb limit (length components)
    then none
    else some (part ∷ components)

unfoldable pub add_parts : ℕ → List Bytes → List Bytes → Option (List Bytes)
add_parts limit [] components = some components
add_parts limit (part ∷ rest) components = elim (add_part limit part components) [
  | none ↦ none
  | some added ↦ add_parts limit rest added
]

-- `start` and a slash, before what is written after them.
abbrev pub put_before : Bytes → Outcome Bytes → Outcome Bytes
put_before start (ok bytes) = ok (start ++ (b'/' ∷ bytes))
put_before start (err e) = err e
put_before start err_unset = err_unset
put_before start overrun = overrun

-- The loop that writes the output, from `position` on: what it appends.
unfoldable pub emit : ℕ → ℕ → List Bytes → Outcome Bytes
emit size position [] = ok []
emit size position (c ∷ []) = if leb size (position + length c) then err enametoolong else ok c
emit size position (c ∷ (d ∷ rest)) =
    let later = emit size (position + length c + 1) (d ∷ rest) in
    if leb size (position + length c + 1) then err enametoolong else put_before c later

-- The string `combined` of `normalize_guest_path`.
abbrev pub combine : Bytes → Bytes → Bytes
combine cwd [] = []
combine cwd (c ∷ path) = if c == b'/' then c ∷ path else cwd ++ (b'/' ∷ (c ∷ path))

module _ (path_max : ℕ) where
  unfoldable pub normalize_guest_path : Bytes → Bytes → ℕ → Outcome Bytes
  unfolding add_parts add_part parts emit
  normalize_guest_path cwd path size =
      let combined = combine cwd path in
      if length path == 0
      then err enoent
      else if leb (path_max * 2) (length combined)
      then err enametoolong
      else elim (add_parts (path_max / 2) (parts [] combined) []) [
        | none ↦ overrun
        | some components ↦
            if ltb size 2 then err erange else put_before [] (emit size 1 (rev_onto [] components))
      ]
