-- ===== src/Fs/Reply.antt =====
-- src/fs.rs: the fields of requests and the bytes of replies.
use libvirtio.Base.{
  ℕ, ◌-◌, ◌*◌, ◌/◌, ◌%◌, ◌^◌, Bool, List, ◌++◌, length, replicate, ltb, ◌==◌, not, if◌then◌else◌,
}
use libvirtio.Base.Bytes.{to_le_bytes, from_le_bytes}
use libvirtio.Error.{DeviceError}
use libvirtio.Outcome.{Outcome, ok, reject_if, ok_or, expect, ◌>>=◌, ◌>>◌}
use libvirtio.Dma.{checked_add}
use libvirtio.Queue.{slice}
use libvirtio.Transfer.{copy_at}
use libvirtio.Fs.{Name, try_u32}

-- `bytes.get(offset..end)` of as many bytes as the field has.
unfoldable pub read_field : ℕ → List ℕ → ℕ → Outcome ℕ
read_field size bytes offset = do
  end ← ok_or (checked_add offset size) (DeviceError.descriptor "FUSE field overflow")
  reject_if (ltb (length bytes) end) (DeviceError.descriptor "short FUSE field")
  ok (from_le_bytes (slice bytes offset end))

abbrev pub read_u32 : List ℕ → ℕ → Outcome ℕ
read_u32 = read_field 4

abbrev pub read_u64 : List ℕ → ℕ → Outcome ℕ
read_u64 = read_field 8

-- What is asked of `fs::Metadata`.
pub record Metadata : Type 0 where
  pub is_symlink : Bool
  pub is_directory : Bool
  pub length : ℕ

-- `FUSE_INIT`
unfoldable pub init_reply : List ℕ → Outcome (List ℕ)
init_reply payload = do
  reject_if (ltb (length payload) 16) (DeviceError.descriptor "short FUSE_INIT request")
  major ← read_u32 payload 0
  reject_if (not (major == 7)) (DeviceError.descriptor "unsupported FUSE major version")
  let reply = copy_at 0 (to_le_bytes 4 7) (replicate 64 0)
  let reply = copy_at 4 (to_le_bytes 4 31) reply
  let reply = copy_at 8 (to_le_bytes 4 (1024 * 1024)) reply
  let reply = copy_at 20 (to_le_bytes 4 (1024 * 1024)) reply
  let reply = copy_at 24 (to_le_bytes 4 1) reply
  ok (copy_at 28 (to_le_bytes 2 256) reply)

unfoldable pub statfs_reply : List ℕ
statfs_reply =
    copy_at 48 (to_le_bytes 4 4096)
      (copy_at 44 (to_le_bytes 4 255) (copy_at 40 (to_le_bytes 4 4096) (replicate 80 0)))

-- The mode is that of a directory or a file that all may read.
unfoldable pub fuse_attr : ℕ → Metadata → List ℕ
fuse_attr node_id metadata =
    let mode = if metadata.is_directory then 16749 else 33060 in
    let result = copy_at 0 (to_le_bytes 8 node_id) (replicate 88 0) in
    let result = copy_at 8 (to_le_bytes 8 metadata.length) result in
    let result = copy_at 60 (to_le_bytes 4 mode) result in
    let result = copy_at 64 (to_le_bytes 4 1) result in copy_at 84 (to_le_bytes 4 4096) result

unfoldable pub entry_out : ℕ → Metadata → List ℕ
unfolding fuse_attr
entry_out node_id metadata =
    let result = copy_at 0 (to_le_bytes 8 node_id) (replicate 128 0) in
    let result = copy_at 16 (to_le_bytes 8 1) result in
    let result = copy_at 24 (to_le_bytes 8 1) result in
    copy_at 40 (fuse_attr node_id metadata) result

unfoldable pub attr_out : ℕ → Metadata → List ℕ
unfolding fuse_attr
attr_out node_id metadata =
    copy_at 16 (fuse_attr node_id metadata) (copy_at 0 (to_le_bytes 8 1) (replicate 104 0))

unfoldable pub open_out : ℕ → List ℕ
open_out node_id = copy_at 0 (to_le_bytes 8 node_id) (replicate 16 0)

-- `& !7` takes the three lowest bits away.
unfoldable pub dirent : ℕ → ℕ → Name → Metadata → Outcome (List ℕ)
dirent node_id offset name metadata = do
  name_length ← ok_or (try_u32 (length name)) (DeviceError.descriptor "directory name too long")
  raw_length ←
      ok_or (checked_add 24 (length name)) (DeviceError.descriptor "directory entry overflow")
  padded ← ok_or (checked_add raw_length 7) (DeviceError.descriptor "directory entry overflow")
  let kind = if metadata.is_directory then 4 else 8
  let result = copy_at 0 (to_le_bytes 8 node_id) (replicate (padded / 8 * 8) 0)
  let result = copy_at 8 (to_le_bytes 8 offset) result
  let result = copy_at 16 (to_le_bytes 4 name_length) result
  let result = copy_at 20 (to_le_bytes 4 kind) result
  ok (copy_at 24 name result)

unfoldable pub success_reply : ℕ → List ℕ → Outcome (List ℕ)
success_reply unique body = do
  total ← expect (checked_add 16 (length body))
  field ← expect (try_u32 total)
  ok (to_le_bytes 4 field ++ (to_le_bytes 4 0 ++ (to_le_bytes 8 unique ++ body)))

-- `-error` of an error number that an `i32` holds, as its bytes have it.
abbrev pub negated : ℕ → ℕ
negated error = (2 ^ 32 - error) % 2 ^ 32

unfoldable pub error_reply : ℕ → ℕ → List ℕ
error_reply unique error =
    to_le_bytes 4 16 ++ (to_le_bytes 4 (negated error) ++ to_le_bytes 8 unique)
