-- ===== src/Fs/Request/Names.antt =====
-- src/fs.rs: the requests that name one file. The host's file system as the source calls it, names
-- and paths, and the replies to `FUSE_LOOKUP`, `FUSE_GETATTR` and `FUSE_OPEN`.
use libvirtio.Base.{
  ℕ, zero, suc, length, ◌&&◌, ◌||◌, Bool, true, false, not, Option, none, some, List, [], ◌∷◌, ◌++◌,
  ltb, leb, ◌==◌, if◌then◌else◌,
}
use libvirtio.Error.{DeviceError}
use libvirtio.Outcome.{Outcome, ok, reject_if, ok_or, ◌>>=◌ as bind, ◌>>◌ as then_do}
use libvirtio.State.{M, pure, lift, on_host, on_rest, ◌>>=◌, ◌>>◌}
use libvirtio.Fs.{Name, PathBuf}
use libvirtio.Fs.Inodes.{FsInodes, same_name, id_for_path}
use libvirtio.Fs.Reply.{Metadata, entry_out, attr_out, open_out}

-- The calls on the host's file system. A read is `open`, `seek` and one `read` of at most as many
-- bytes; the entries of a directory come in an order of the host's, and each may be an error.
pub record HostFs (F : Type 0) : Type 0 where
  pub symlink_metadata : PathBuf → M F Metadata
  pub is_dir : PathBuf → F → Bool
  pub read_dir : PathBuf → M F (List (Outcome Name))
  pub read_file : PathBuf → ℕ → ℕ → M F (List ℕ)

-- `std::str::from_utf8`, of the bytes of a name: a lead byte, the range of the byte behind it, and
-- the continuation bytes that follow.
abbrev within : ℕ → ℕ → ℕ → Bool
within low high b = leb low b && leb b high

abbrev tail_of : ℕ → List ℕ → Option (List ℕ)
tail_of zero bs = some bs
tail_of (suc n) [] = none
tail_of (suc n) (b ∷ bs) = if within 128 191 b then tail_of n bs else none

-- The bounds of the second byte and how many follow it, by the lead byte.
abbrev lead : ℕ → Option (ℕ × ℕ × ℕ)
lead b =
    if within 194 223 b
    then some (128, 191, 0)
    else if b == 224
    then some (160, 191, 1)
    else if within 225 236 b || within 238 239 b
    then some (128, 191, 1)
    else if b == 237
    then some (128, 159, 1)
    else if b == 240
    then some (144, 191, 2)
    else if within 241 243 b
    then some (128, 191, 2)
    else if b == 244
    then some (128, 143, 2)
    else none

-- The rest behind a first character of more than one byte.
abbrev after_lead : List ℕ → ℕ → Option (List ℕ)
after_lead [] b = none
after_lead (c ∷ bs) b = elim (lead b) [
  | none ↦ none
  | some (low, high, more) ↦ if within low high c then tail_of more bs else none
]

-- On as many rounds as there are bytes.
abbrev utf8_rounds : ℕ → List ℕ → Bool
utf8_rounds zero bs = true
utf8_rounds (suc n) [] = true
utf8_rounds (suc n) (b ∷ bs) =
    if ltb b 128
    then utf8_rounds n bs
    else elim (after_lead bs b) [ none ↦ false | some rest ↦ utf8_rounds n rest ]

abbrev pub is_utf8 : List ℕ → Bool
is_utf8 bs = utf8_rounds (length bs) bs

-- `strip_suffix(&[0])`
abbrev pub strip_nul : List ℕ → Option (List ℕ)
strip_nul [] = none
strip_nul (b ∷ []) = if b == 0 then some [] else none
strip_nul (b ∷ c ∷ bs) = elim (strip_nul (c ∷ bs)) [ none ↦ none | some rest ↦ some (b ∷ rest) ]

-- `Path::starts_with`
abbrev pub starts_with : PathBuf → PathBuf → Bool
starts_with path [] = true
starts_with [] (n ∷ root) = false
starts_with (m ∷ path) (n ∷ root) = same_name m n && starts_with path root

-- `contains('/')`
abbrev pub has_slash : Name → Bool
has_slash [] = false
has_slash (b ∷ bs) = b == 47 || has_slash bs

-- Empty, `.`, `..` or with a slash.
abbrev pub is_unsafe : Name → Bool
is_unsafe name =
    same_name name [] || same_name name (46 ∷ []) || same_name name (46 ∷ 46 ∷ []) || has_slash name

-- The name that a `FUSE_LOOKUP` asks for.
unfoldable pub lookup_name : List ℕ → Outcome Name
lookup_name payload =
    bind
      (ok_or (strip_nul payload) (DeviceError.descriptor "FUSE_LOOKUP name is not NUL terminated"))
      λ name.
        then_do
          (reject_if (not (is_utf8 name)) (DeviceError.descriptor "FUSE_LOOKUP name is not UTF-8"))
          (then_do (reject_if (is_unsafe name) (DeviceError.descriptor "unsafe FUSE_LOOKUP name"))
            (ok name))

-- `by_id.get(…)` under the lock
abbrev pub path_of : {F : Type 0} → ℕ → DeviceError → M (F × FsInodes) PathBuf
path_of node_id e = on_rest (λ inodes. (ok_or (inodes.by_id node_id) e, inodes))

abbrev pub no_symlink : DeviceError
no_symlink = DeviceError.descriptor "virtio-fs symlink is not supported"

unfoldable pub lookup_reply :
    {F : Type 0} → HostFs F → PathBuf → ℕ → List ℕ → M (F × FsInodes) (List ℕ)
unfolding lookup_name id_for_path
lookup_reply host root parent payload = do
  name ← lift (lookup_name payload)
  parent_path ← path_of parent (DeviceError.descriptor "unknown FUSE parent inode")
  let path = parent_path ++ (name ∷ [])
  metadata ← on_host (host.symlink_metadata path)
  lift (reject_if (metadata.is_symlink || not (starts_with path root)) no_symlink)
  node_id ← on_rest (id_for_path path)
  pure (entry_out node_id metadata)

unfoldable pub getattr_reply : {F : Type 0} → HostFs F → ℕ → M (F × FsInodes) (List ℕ)
getattr_reply host node_id = do
  path ← path_of node_id (DeviceError.descriptor "unknown FUSE inode")
  metadata ← on_host (host.symlink_metadata path)
  lift (reject_if metadata.is_symlink no_symlink)
  pure (attr_out node_id metadata)

unfoldable pub open_reply : {F : Type 0} → HostFs F → ℕ → M (F × FsInodes) (List ℕ)
open_reply host node_id = do
  path ← path_of node_id (DeviceError.descriptor "unknown FUSE inode")
  metadata ← on_host (host.symlink_metadata path)
  lift (reject_if metadata.is_symlink no_symlink)
  pure (open_out node_id)
