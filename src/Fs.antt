-- ===== src/Fs.antt =====
-- src/fs.rs: the virtio-fs device. Its specification and configuration; paths are the names from
-- the root of the host on, a name is its bytes. The inode table, the requests, the replies and the
-- device are modules of their own.
pub mod Inodes
pub mod Reply
pub mod Request
pub mod Device
use libvirtio.Base.{
  ℕ, ◌+◌, ◌-◌, ◌^◌, ◌||◌, ◌&&◌, not, Bool, true, false, List, [], ◌∷◌, length, replicate, ltb, ◌==◌,
  Option, some, none, if◌then◌else◌,
}
use libvirtio.Base.Bytes.{to_le_bytes}
use libvirtio.Error.{DeviceError}
use libvirtio.Outcome.{Outcome, ok, panic, reject_if, expect, ◌>>=◌, ◌>>◌}
use libvirtio.Transfer.{copy_at}
use libvirtio.Device.{DeviceLayout}

abbrev pub Name : Type 0
Name = List ℕ

abbrev pub PathBuf : Type 0
PathBuf = List Name

pub record FsConfig : Type 0 where
  pub tag : List ℕ
  pub request_queue_count : ℕ

pub record FsSpec : Type 0 where
  pub root : PathBuf
  pub tag : List ℕ
  pub request_queue_count : ℕ
  pub maximum_queue_size : ℕ

-- `FsSpec::open`. `canonicalize` and whether a path is a directory are the operating system's; the
-- end of a string is a character boundary.
unfoldable pub open_spec :
    {P : Type 0} → (P → Outcome PathBuf) → (PathBuf → Bool) → P → List ℕ → ℕ → ℕ → Outcome FsSpec
open_spec canonicalize is_dir path tag request_queue_count maximum_queue_size = do
  root ← canonicalize path
  reject_if (not (is_dir root)) (DeviceError.invalid_layout "virtio-fs root is not a directory")
  reject_if (length tag == 0 || ltb 36 (length tag))
      (DeviceError.invalid_layout "invalid virtio-fs tag")
  reject_if (request_queue_count == 0 || ltb (2 ^ 16 - 1 - 1) request_queue_count)
      (DeviceError.invalid_layout "invalid virtio-fs request queue count")
  ok (record {
    root = root;
    tag = copy_at 0 tag (replicate 36 0);
    request_queue_count = request_queue_count;
    maximum_queue_size = maximum_queue_size;
  })

-- `u32::try_from`
abbrev pub try_u32 : ℕ → Option ℕ
try_u32 n = if ltb n (2 ^ 32) then some n else none

-- `FsSpec::config`
unfoldable pub config : FsSpec → Outcome FsConfig
config spec = do
  count ← expect (try_u32 spec.request_queue_count)
  ok (record { tag = spec.tag; request_queue_count = count })

-- `FsSpec::config_bytes`
unfoldable pub config_bytes : FsSpec → Outcome (List ℕ)
unfolding config
config_bytes spec = do
  found ← config spec
  let bytes = copy_at 0 found.tag (replicate 40 0)
  ok (copy_at 36 (to_le_bytes 4 found.request_queue_count) bytes)

unfoldable pub layout : FsSpec → DeviceLayout
layout spec = record {
  queue_count = spec.request_queue_count + 1;
  maximum_queue_size = spec.maximum_queue_size;
  notifier_count = spec.request_queue_count + 1;
  required_features = 2 ^ 32;
  optional_features = 0;
}
