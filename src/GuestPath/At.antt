-- ===== src/GuestPath/At.antt =====
-- src/guest_path.c: paths whose last component is not followed, paths below an open directory, and
-- the changes of directory.
pub mod Leaf
pub mod Kept
use alpine_on_qnx.Prelude.{
  ℕ, zero, suc, ◌+◌, ◌-◌, ◌*◌, Bool, true, false, not, ◌&&◌, ◌||◌, Option, none, some, List, [],
  ◌∷◌, ◌++◌, ltb, leb, ◌==◌, if◌then◌else◌, length, take,
}
use alpine_on_qnx.Abi.Errno.{Errno, enoent, enametoolong, ebadf, eacces, enotdir}
use alpine_on_qnx.GuestPath.{
  Outcome, ok, err, err_unset, overrun, Bytes, and_then, same_bytes, normalize_guest_path,
}
use alpine_on_qnx.GuestPath.Links.{Paths, copied, resolve_guest_symlinks}
use alpine_on_qnx.GuestPath.Resolve.{dev_null, guest_path_resolve}

abbrev pub slash : Bytes
slash = b'/' ∷ []

abbrev pub has_slash : Bytes → Bool
has_slash [] = false
has_slash (c ∷ rest) = c == b'/' || has_slash rest

-- What stands before and after the last slash of a path, which begins with one: `strrchr`.
unfoldable pub before_last : Bytes → Bytes
before_last [] = []
before_last (c ∷ rest) = if has_slash rest then c ∷ before_last rest else []

unfoldable pub after_last : Bytes → Bytes
after_last [] = []
after_last (c ∷ rest) = if has_slash rest then after_last rest else rest

abbrev pub or_slash : Bytes → Bytes
or_slash [] = slash
or_slash (c ∷ rest) = c ∷ rest

abbrev pub parent_of : Bytes → Bytes
parent_of path = or_slash (before_last path)

-- The string that `snprintf` writes: the root, the parent, a slash unless the parent ends in one, and
-- the leaf.
abbrev pub below : Paths → Bytes → Bytes → Bytes
below paths parent leaf =
    paths.root_path ++ (parent ++ (if same_bytes parent slash then leaf else b'/' ∷ leaf))

-- A path that is not a device's.
unfoldable pub resolve_leaf : Paths → Bytes → ℕ → Outcome Bytes
resolve_leaf paths guest_path host_path_size =
    if same_bytes guest_path slash
    then copied paths.root_path host_path_size
    else and_then (resolve_guest_symlinks paths (parent_of guest_path) false paths.path_max)
        (λ parent.
          if leb host_path_size (length (below paths parent (after_last guest_path)))
          then err enametoolong
          else ok (below paths parent (after_last guest_path)))

unfoldable pub guest_path_resolve_nofollow : Paths → Bytes → ℕ → Outcome Bytes
guest_path_resolve_nofollow paths path host_path_size =
    if length paths.root_path == 0
    then err_unset
    else and_then (normalize_guest_path paths.path_max paths.guest_cwd path paths.path_max)
        (λ guest_path.
          if same_bytes guest_path dev_null
          then copied dev_null host_path_size
          else resolve_leaf paths guest_path host_path_size)

-- What is left of a path after the root directory, or `none` where it does not lie there.
unfoldable pub after_root : Bytes → Bytes → Option Bytes
after_root [] [] = some []
after_root [] (c ∷ rest) = if c == b'/' then some (c ∷ rest) else none
after_root (r ∷ root) [] = none
after_root (r ∷ root) (c ∷ rest) = if r == c then after_root root rest else none

abbrev pub resolve_either : Paths → Bytes → Bool → Bool → ℕ → Outcome Bytes
resolve_either paths path allow_missing_leaf nofollow host_path_size =
    if nofollow
    then guest_path_resolve_nofollow paths path host_path_size
    else guest_path_resolve paths path allow_missing_leaf host_path_size

-- A relative path, from the place of its directory in the guest's tree.
unfoldable pub resolve_from_directory : Paths → Bytes → Bytes → Bool → Bool → ℕ → Outcome Bytes
resolve_from_directory paths guest_directory path allow_missing_leaf nofollow host_path_size =
    let combined = guest_directory ++ (b'/' ∷ path) in
    if leb (paths.path_max * 2) (length combined)
    then err enametoolong
    else resolve_either paths combined allow_missing_leaf nofollow host_path_size

abbrev pub is_absolute : Bytes → Bool
is_absolute [] = false
is_absolute (c ∷ rest) = c == b'/'

-- The host's directory is none for a null pointer.
unfoldable pub guest_path_resolve_at :
    Paths → Option Bytes → Bytes → Bool → Bool → ℕ → Outcome Bytes
guest_path_resolve_at paths host_directory path allow_missing_leaf nofollow host_path_size =
    let relative : Outcome Bytes = elim host_directory [
      | none ↦ err ebadf
      | some directory ↦
          if length paths.root_path == 0
          then err ebadf
          else elim (after_root paths.root_path directory) [
            | none ↦ err eacces
            | some rest ↦
                resolve_from_directory paths (or_slash rest) path allow_missing_leaf nofollow
                  host_path_size
          ]
    ] in
    if length path == 0
    then err enoent
    else if is_absolute path
    then resolve_either paths path allow_missing_leaf nofollow host_path_size
    else relative

-- What `readlink` of the host brings, cut to the caller's buffer by the host.
unfoldable pub guest_path_readlink : Paths → (Bytes → ℕ → Outcome Bytes) → Bytes → ℕ → Outcome Bytes
guest_path_readlink paths readlink path size =
    and_then (guest_path_resolve_nofollow paths path paths.path_max)
      (λ candidate. readlink candidate size)

-- `guest_path_initialize`, with the answer of `realpath`.
unfoldable pub guest_path_initialize : Paths → Option Bytes → Outcome Bytes → Option Errno × Paths
guest_path_initialize paths root realpath =
    let resolved : Option Errno × Paths = elim realpath [
      | ok path ↦ (none, record paths { root_path = path })
      | err e ↦ (some e, paths)
      | err_unset ↦ (some enoent, paths)
      | overrun ↦ (some enoent, paths)
    ] in
    elim root [
      | none ↦ (some enoent, paths)
      | some r ↦ if length r == 0 then (some enoent, paths) else resolved
    ]

-- What `stat` says of a host path: an error, a directory, or something else.
pub data Place : Type 0 where
  unreachable : Errno → Place
  directory : Place
  elsewhere : Place

-- Where the guest would be after the call.
unfoldable pub chdir_target : Paths → (Bytes → Place) → Bytes → Outcome Bytes
chdir_target paths stat path =
    and_then (normalize_guest_path paths.path_max paths.guest_cwd path paths.path_max)
      (λ normalized.
        and_then (resolve_guest_symlinks paths normalized false paths.path_max) (λ resolved.
          if leb paths.path_max (length (paths.root_path ++ resolved))
          then err enametoolong
          else elim (stat (paths.root_path ++ resolved)) [
            | unreachable e ↦ err e
            | directory ↦ ok resolved
            | elsewhere ↦ err enotdir
          ]))

-- A change of the state by the target; the result is as that of the C function.
abbrev pub moved : Paths → Outcome Bytes → Outcome Bytes × Paths
moved paths (ok resolved) = (ok resolved, record paths { guest_cwd = resolved })
moved paths (err e) = (err e, paths)
moved paths err_unset = (err_unset, paths)
moved paths overrun = (overrun, paths)

unfoldable pub guest_path_chdir : Paths → (Bytes → Place) → Bytes → Outcome Bytes × Paths
guest_path_chdir paths stat path = moved paths (chdir_target paths stat path)

unfoldable pub guest_path_fchdir : Paths → (Bytes → Place) → Option Bytes → Outcome Bytes × Paths
guest_path_fchdir paths stat host_path =
    if length paths.root_path == 0 then (err ebadf, paths) else elim host_path [
      | none ↦ (err ebadf, paths)
      | some path ↦ elim (after_root paths.root_path path) [
        | none ↦ (err eacces, paths)
        | some rest ↦ guest_path_chdir paths stat (or_slash rest)
      ]
    ]
