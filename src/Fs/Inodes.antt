-- ===== src/Fs/Inodes.antt =====
-- src/fs.rs: the inode table, `FsInodes`. A map is a function to an option.
pub mod Paths
pub mod Valid
use libvirtio.Base.{
  ℕ, ◌+◌, ◌^◌, ◌&&◌, Bool, true, false, Option, none, some, List, [], ◌∷◌, ltb, ◌==◌, if◌then◌else◌,
}
use libvirtio.Error.{DeviceError}
use libvirtio.Outcome.{Outcome, ok, err}
use libvirtio.State.{M}
use libvirtio.Fs.{Name, PathBuf}

abbrev pub same_name : Name → Name → Bool
same_name [] [] = true
same_name [] (b ∷ m) = false
same_name (a ∷ n) [] = false
same_name (a ∷ n) (b ∷ m) = a == b && same_name n m

abbrev pub same_path : PathBuf → PathBuf → Bool
same_path [] [] = true
same_path [] (m ∷ q) = false
same_path (n ∷ p) [] = false
same_path (n ∷ p) (m ∷ q) = same_name n m && same_path p q

pub record FsInodes : Type 0 where
  pub next : ℕ
  pub by_id : ℕ → Option PathBuf
  pub by_path : PathBuf → Option ℕ

-- `insert` into either map
abbrev pub put_id : ℕ → PathBuf → (ℕ → Option PathBuf) → ℕ → Option PathBuf
put_id id path old i = if i == id then some path else old i

abbrev pub put_path : PathBuf → ℕ → (PathBuf → Option ℕ) → PathBuf → Option ℕ
put_path path id old p = if same_path p path then some id else old p

-- `FsInodes::new`
unfoldable pub new_inodes : PathBuf → FsInodes
new_inodes root = record {
  next = 1 + 1;
  by_id = put_id 1 root (λ _. none);
  by_path = put_path root 1 (λ _. none);
}

-- `FsInodes::id_for_path`
unfoldable pub id_for_path : PathBuf → M FsInodes ℕ
id_for_path path inodes = elim (inodes.by_path path) [
  | some id ↦ (ok id, inodes)
  | none ↦
      let id = inodes.next in
      let added : FsInodes = record {
        next = id + 1;
        by_id = put_id id path inodes.by_id;
        by_path = put_path path id inodes.by_path;
      } in
      if ltb (id + 1) (2 ^ 64)
      then (ok id, added)
      else (err (DeviceError.invalid_layout "virtio-fs inode id overflow"), inodes)
]
