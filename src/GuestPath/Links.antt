-- ===== src/GuestPath/Links.antt =====
-- src/guest_path.c: `resolve_guest_symlinks` and `guest_path_resolve`. The host's file system is a
-- parameter: what `lstat` and `readlink` answer for a path.
pub mod Plain
pub mod Resolved
use alpine_on_qnx.Prelude.{
  ℕ, zero, suc, ◌+◌, ◌-◌, ◌*◌, ◌/◌, ◌<◌, Bool, true, false, not, ◌&&◌, ◌||◌, Option, none, some,
  List, [], ◌∷◌, ◌++◌, ltb, leb, ◌==◌, if◌then◌else◌, length, take, rev_onto,
}
use alpine_on_qnx.Abi.Errno.{Errno, enoent, enametoolong, eloop}
use alpine_on_qnx.GuestPath.{
  Outcome, ok, err, err_unset, overrun, Bytes, and_then, same_bytes, normalize_guest_path,
}

-- What stands at a host path: nothing that `lstat` can reach, a symbolic link with its target, one
-- that `readlink` fails on, or anything else.
pub data Node : Type 0 where
  absent : Errno → Node
  link : Bytes → Node
  unreadable : Errno → Node
  other : Node

pub record Paths : Type 0 where
  pub path_max : ℕ
  pub root_path : Bytes
  pub guest_cwd : Bytes
  pub lstat : Bytes → Node

-- How one turn of the loop over the components ends.
pub data Visit : Type 0 where
  settled : Visit
  refused : Errno → Visit
  follow : Bytes → Visit
  onward : Bytes → Visit

-- How the loop ends; `restarted` carries the string `combined`.
pub data Walk : Type 0 where
  finished : Walk
  failed : Errno → Walk
  restarted : Bytes → Walk

abbrev pub is_enoent : Errno → Bool
is_enoent enoent = true
is_enoent _ = false

abbrev pub host_candidate : Paths → Bytes → Bytes → Bytes
host_candidate paths parent component = paths.root_path ++ (parent ++ (b'/' ∷ component))

abbrev pub visit_node : Paths → Bool → Bool → Bytes → Bytes → Node → Visit
visit_node paths allow_missing_leaf last parent component (absent e) =
    if allow_missing_leaf && last && is_enoent e then settled else refused e
visit_node paths allow_missing_leaf last parent component (unreadable e) = refused e
visit_node paths allow_missing_leaf last parent component (link target) =
    follow (take (paths.path_max - 1) target)
visit_node paths allow_missing_leaf last parent component other =
    let longer = parent ++ (b'/' ∷ component) in
    if leb paths.path_max (length longer)
    then refused enametoolong
    else if last
    then settled
    else onward longer

unfoldable pub visit : Paths → Bool → Bool → Bytes → Bytes → Visit
visit paths allow_missing_leaf last parent component =
    let candidate = host_candidate paths parent component in
    if ltb paths.path_max (length component + 1)
    then refused enametoolong
    else if leb paths.path_max (length candidate)
    then refused enametoolong
    else visit_node paths allow_missing_leaf last parent component (paths.lstat candidate)

-- The path to start again with: the link's target in place of the link, before the rest.
abbrev pub redirect : Bytes → Bytes → Bytes → Bytes
redirect [] [] rest = b'/' ∷ (b'/' ∷ rest)
redirect (p ∷ parent) [] rest = (p ∷ parent) ++ (b'/' ∷ rest)
redirect [] (t ∷ target) rest =
    if t == b'/' then (t ∷ target) ++ rest else b'/' ∷ (b'/' ∷ ((t ∷ target) ++ rest))
redirect (p ∷ parent) (t ∷ target) rest =
    if t == b'/' then (t ∷ target) ++ rest else (p ∷ parent) ++ (b'/' ∷ ((t ∷ target) ++ rest))

abbrev pub last_turn : Bytes → Visit → Walk
last_turn parent settled = finished
last_turn parent (refused e) = failed e
last_turn parent (follow target) = restarted (redirect parent target [])
last_turn parent (onward longer) = finished

-- The loop over the components; the one that is being read is given with its last byte first.
unfoldable pub walk : Paths → Bool → Bytes → Bytes → Bytes → Walk
walk paths allow_missing_leaf parent [] [] = finished
walk paths allow_missing_leaf parent (p ∷ part) [] =
    last_turn parent (visit paths allow_missing_leaf true parent (rev_onto [] (p ∷ part)))
walk paths allow_missing_leaf parent part (c ∷ cs) =
    let longer = walk paths allow_missing_leaf parent (c ∷ part) cs in
    let ended : Walk = elim (visit paths allow_missing_leaf false parent (rev_onto [] part)) [
      | settled ↦ finished
      | refused e ↦ failed e
      | follow target ↦ restarted (redirect parent target (b'/' ∷ cs))
      | onward next ↦ walk paths allow_missing_leaf next [] cs
    ] in
    if c == b'/' then ended else longer

abbrev pub after_slash : Bytes → Bytes
after_slash [] = []
after_slash (c ∷ path) = path

-- From `restart` on, when `left` more links may be followed.
unfoldable pub resolve_from : Paths → Bool → ℕ → Bytes → Outcome Bytes
resolve_from paths allow_missing_leaf zero current =
    elim (walk paths allow_missing_leaf [] [] (after_slash current)) [
      | finished ↦ ok current
      | failed e ↦ err e
      | restarted combined ↦ err eloop
    ]
resolve_from paths allow_missing_leaf (suc left) current =
    elim (walk paths allow_missing_leaf [] [] (after_slash current)) [
      | finished ↦ ok current
      | failed e ↦ err e
      | restarted combined ↦
          if leb (paths.path_max * 2) (length combined)
          then err_unset
          else and_then
              (normalize_guest_path paths.path_max paths.guest_cwd combined paths.path_max)
              (λ next. resolve_from paths allow_missing_leaf left next)
    ]

abbrev pub max_links : ℕ
max_links = 40

-- A path that is copied to a buffer of `size` bytes.
abbrev pub copied : Bytes → ℕ → Outcome Bytes
copied path size = if ltb size (length path + 1) then err enametoolong else ok path

unfoldable pub resolve_guest_symlinks : Paths → Bytes → Bool → ℕ → Outcome Bytes
resolve_guest_symlinks paths normalized allow_missing_leaf resolved_size =
    if ltb paths.path_max (length normalized + 1)
    then err enametoolong
    else and_then (resolve_from paths allow_missing_leaf max_links normalized)
        (λ current. copied current resolved_size)
