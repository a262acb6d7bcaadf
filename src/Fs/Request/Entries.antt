-- ===== src/Fs/Request/Entries.antt =====
-- src/fs.rs: the requests for what a file or a directory holds, `FUSE_READ` and `FUSE_READDIR`.
use libvirtio.Base.{
  ℕ, ◌+◌, ◌*◌, ◌||◌, min, Bool, true, not, none, some, List, [], ◌∷◌, ◌++◌, length, ltb,
  if◌then◌else◌,
}
use libvirtio.Error.{DeviceError}
use libvirtio.Outcome.{Outcome, reject_if}
use libvirtio.State.{M, pure, lift, on_host, on_rest, ◌>>=◌, ◌>>◌}
use libvirtio.Dma.{checked_add}
use libvirtio.Fs.{Name, PathBuf}
use libvirtio.Fs.Inodes.{FsInodes, id_for_path}
use libvirtio.Fs.Reply.{read_u32, read_u64, dirent}
use libvirtio.Fs.Request.Names.{HostFs, is_utf8, starts_with, path_of}

unfoldable pub read_reply : {F : Type 0} → HostFs F → ℕ → List ℕ → M (F × FsInodes) (List ℕ)
read_reply host node_id payload = do
  lift (reject_if (ltb (length payload) 24) (DeviceError.descriptor "short FUSE_READ request"))
  offset ← lift (read_u64 payload 8)
  size ← lift (read_u32 payload 16)
  path ← path_of node_id (DeviceError.descriptor "unknown FUSE inode")
  on_host (host.read_file path offset (min size (1024 * 1024)))

-- `entries.len()` and the record's length do not fit the reply, or a `usize`.
abbrev pub is_over : ℕ → List ℕ → List ℕ → Bool
is_over maximum entries entry = elim (checked_add (length entries) (length entry)) [
  | none ↦ true
  | some total ↦ ltb maximum total
]

-- The loop over the entries of a directory.
unfoldable pub read_entries :
    {F : Type 0}
    → HostFs F
    → PathBuf
    → ℕ
    → ℕ
    → List (Outcome Name)
    → ℕ
    → List ℕ
    → M (F × FsInodes) (List ℕ)
unfolding id_for_path dirent
read_entries host path offset maximum [] index entries = pure entries
read_entries host path offset maximum (entry ∷ rest) index entries = do
  name ← lift entry
  let skipped = read_entries host path offset maximum rest (index + 1) entries
  let taken = do
    metadata ← on_host (host.symlink_metadata (path ++ (name ∷ [])))
    let listed = do
      lift (reject_if (not (is_utf8 name)) (DeviceError.descriptor "non-UTF-8 virtio-fs name"))
      id ← on_rest (id_for_path (path ++ (name ∷ [])))
      entry ← lift (dirent id (index + 1) name metadata)
      let more = read_entries host path offset maximum rest (index + 1) (entries ++ entry)
      if is_over maximum entries entry then pure entries else more
    if metadata.is_symlink then skipped else listed
  if ltb index offset then skipped else taken

unfoldable pub readdir_reply :
    {F : Type 0} → HostFs F → PathBuf → ℕ → List ℕ → M (F × FsInodes) (List ℕ)
unfolding read_entries
readdir_reply host root node_id payload = do
  lift (reject_if (ltb (length payload) 24) (DeviceError.descriptor "short FUSE_READDIR request"))
  offset ← lift (read_u64 payload 8)
  maximum ← lift (read_u32 payload 16)
  path ← path_of node_id (DeviceError.descriptor "unknown FUSE inode")
  λ (f, inodes).
      let m = do
        lift (
            reject_if (not (starts_with path root) || not (host.is_dir path f))
              (DeviceError.descriptor "FUSE_READDIR inode is not a directory"))
        names ← on_host (host.read_dir path)
        read_entries host path offset maximum names 0 []
      in m (f, inodes)
