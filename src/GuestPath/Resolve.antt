-- ===== src/GuestPath/Resolve.antt =====
-- src/guest_path.c: `guest_path_resolve` and `guest_path_getcwd`.
pub mod Inside
use alpine_on_qnx.Prelude.{
  ℕ, zero, suc, ◌+◌, ◌-◌, ◌*◌, ◌/◌, ◌<◌, Bool, true, false, not, ◌&&◌, ◌||◌, Option, none, some,
  List, [], ◌∷◌, ◌++◌, ltb, leb, ◌==◌, if◌then◌else◌, length, take, rev_onto,
}
use alpine_on_qnx.Abi.Errno.{Errno, enoent, enametoolong, erange}
use alpine_on_qnx.GuestPath.{
  Outcome, ok, err, err_unset, overrun, Bytes, and_then, same_bytes, normalize_guest_path,
}
use alpine_on_qnx.GuestPath.Links.{Paths, copied, resolve_guest_symlinks}

abbrev pub dev_null : Bytes
dev_null = b'/' ∷ b'd' ∷ b'e' ∷ b'v' ∷ b'/' ∷ b'n' ∷ b'u' ∷ b'l' ∷ b'l' ∷ []

-- The part of `guest_path_resolve` after the search among the devices.
unfoldable pub resolve_in_root : Paths → Bytes → Bool → ℕ → Outcome Bytes
resolve_in_root paths guest_path allow_missing_leaf host_path_size =
    and_then (resolve_guest_symlinks paths guest_path allow_missing_leaf paths.path_max)
      (λ resolved.
        if leb paths.path_max (length (paths.root_path ++ resolved))
        then err enametoolong
        else copied (paths.root_path ++ resolved) host_path_size)

unfoldable pub guest_path_resolve : Paths → Bytes → Bool → ℕ → Outcome Bytes
guest_path_resolve paths path allow_missing_leaf host_path_size =
    if length paths.root_path == 0
    then err_unset
    else and_then (normalize_guest_path paths.path_max paths.guest_cwd path paths.path_max)
        (λ guest_path.
          if same_bytes guest_path dev_null
          then copied dev_null host_path_size
          else resolve_in_root paths guest_path allow_missing_leaf host_path_size)

unfoldable pub guest_path_getcwd : Paths → ℕ → Outcome Bytes
guest_path_getcwd paths size =
    if ltb size (length paths.guest_cwd + 1) then err erange else ok paths.guest_cwd
