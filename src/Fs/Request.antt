-- ===== src/Fs/Request.antt =====
-- src/fs.rs: a FUSE request and its execution. The file system of the host is a parameter that acts
-- on a state of its own, and so are the error numbers of the C library.
pub mod Names
pub mod Entries
pub mod Contained
use libvirtio.Base.{
  ℕ, Bool, true, false, Option, none, some, List, [], ◌∷◌, length, drop, ltb, ◌==◌, ◌||◌, not,
  if◌then◌else◌,
}
use libvirtio.Error.{DeviceError}
use libvirtio.Outcome.{Outcome, ok, err, panic, hang, reject_if, ◌>>=◌ as bind, ◌>>◌ as then_do}
use libvirtio.State.{M, pure, lift, ◌>>=◌}
use libvirtio.Fs.{PathBuf}
use libvirtio.Fs.Inodes.{FsInodes}
use libvirtio.Fs.Reply.{read_u32, read_u64, init_reply, statfs_reply, success_reply, error_reply}
use libvirtio.Fs.Request.Names.{HostFs, lookup_reply, getattr_reply, open_reply}
use libvirtio.Fs.Request.Entries.{read_reply, readdir_reply}

pub record FuseInHeader : Type 0 where
  pub length : ℕ
  pub opcode : ℕ
  pub unique : ℕ
  pub node_id : ℕ

-- `FuseInHeader::parse`
unfoldable pub parse_header : List ℕ → Outcome FuseInHeader
parse_header bytes =
    then_do (reject_if (ltb (length bytes) 40) (DeviceError.descriptor "short FUSE request header"))
      (bind (read_u32 bytes 0) λ size. bind (read_u32 bytes 4) λ opcode.
        bind (read_u64 bytes 8) λ unique. bind (read_u64 bytes 16) λ node_id.
          ok (record { length = size; opcode = opcode; unique = unique; node_id = node_id }))

-- The error numbers of the C library.
pub record Errno : Type 0 where
  pub einval : ℕ
  pub enosys : ℕ
  pub efault : ℕ
  pub eio : ℕ

unfoldable pub fuse_errno : Errno → DeviceError → ℕ
fuse_errno errno (DeviceError.io (some number)) = number
fuse_errno errno (DeviceError.io none) = errno.eio
fuse_errno errno (DeviceError.descriptor what) = errno.einval
fuse_errno errno (DeviceError.invalid_layout what) = errno.einval
fuse_errno errno (DeviceError.dma_range gpa n) = errno.efault
fuse_errno errno (DeviceError.dma_alignment gpa) = errno.efault
fuse_errno errno (DeviceError.down reason) = errno.eio
fuse_errno errno (DeviceError.invalid_queue i what) = errno.eio
fuse_errno errno (DeviceError.worker what) = errno.eio

-- The second `match` of `execute_request`, over the opcodes that are supported.
unfoldable pub dispatch :
    {F : Type 0} → HostFs F → PathBuf → FuseInHeader → List ℕ → M (F × FsInodes) (List ℕ)
dispatch host root header payload =
    let opcode = header.opcode in
    let node = header.node_id in
    if opcode == 26
    then lift (init_reply payload)
    else if opcode == 1
    then lookup_reply host root node payload
    else if opcode == 3
    then getattr_reply host node
    else if opcode == 14 || opcode == 27
    then open_reply host node
    else if opcode == 15
    then read_reply host node payload
    else if opcode == 28
    then readdir_reply host root node payload
    else if opcode == 17
    then pure statfs_reply
    else lift panic

-- The third `match`: what is made of the result.
abbrev pub reply_of : Errno → ℕ → Outcome (List ℕ) → Outcome (List ℕ)
reply_of errno unique (ok body) = success_reply unique body
reply_of errno unique (err e) = ok (error_reply unique (fuse_errno errno e))
reply_of errno unique panic = panic
reply_of errno unique hang = hang

abbrev pub silent : List ℕ
silent = 2 ∷ 18 ∷ 29 ∷ 38 ∷ []

abbrev pub supported : List ℕ
supported = 26 ∷ 1 ∷ 3 ∷ 14 ∷ 27 ∷ 15 ∷ 28 ∷ 17 ∷ []

abbrev pub has : List ℕ → ℕ → Bool
has [] opcode = false
has (o ∷ os) opcode = opcode == o || has os opcode

unfoldable pub execute_request :
    {F : Type 0} → HostFs F → Errno → PathBuf → List ℕ → M (F × FsInodes) (List ℕ)
unfolding parse_header fuse_errno dispatch
execute_request host errno root request = lift (parse_header request) >>= λ header.
    if not (header.length == length request)
    then pure (error_reply header.unique errno.einval)
    else if has silent header.opcode
    then pure []
    else if not (has supported header.opcode)
    then pure (error_reply header.unique errno.enosys)
    else λ s.
        let (result, s') = dispatch host root header (drop 40 request) s in
        (reply_of errno header.unique result, s')
