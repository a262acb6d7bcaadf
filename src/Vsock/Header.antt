-- ===== src/Vsock/Header.antt =====
-- src/vsock.rs: the header of a packet, and that it survives its encoding.
use libvirtio.Base.{ℕ, ◌^◌, ◌<◌, ◌≡◌, refl, ap, List, not, replicate, ◌==◌}
use libvirtio.Base.{length as count}
use libvirtio.Base.Bytes.{to_le_bytes, from_le_bytes, from_le_bytes-to_le_bytes}
use libvirtio.Error.{DeviceError}
use libvirtio.Outcome.{Outcome, ok, reject_if, ◌>>◌}
use libvirtio.Queue.{slice}
use libvirtio.Transfer.{copy_at}

pub record VsockHeader : Type 0 where
  pub source_cid : ℕ
  pub destination_cid : ℕ
  pub source_port : ℕ
  pub destination_port : ℕ
  pub length : ℕ
  pub packet_type : ℕ
  pub operation : ℕ
  pub flags : ℕ
  pub buffer_allocation : ℕ
  pub forward_count : ℕ

-- The fields of 44 bytes.
unfoldable pub header_of : List ℕ → VsockHeader
header_of bytes = record {
  source_cid = from_le_bytes (slice bytes 0 8);
  destination_cid = from_le_bytes (slice bytes 8 16);
  source_port = from_le_bytes (slice bytes 16 20);
  destination_port = from_le_bytes (slice bytes 20 24);
  length = from_le_bytes (slice bytes 24 28);
  packet_type = from_le_bytes (slice bytes 28 30);
  operation = from_le_bytes (slice bytes 30 32);
  flags = from_le_bytes (slice bytes 32 36);
  buffer_allocation = from_le_bytes (slice bytes 36 40);
  forward_count = from_le_bytes (slice bytes 40 44);
}

-- `VsockHeader::decode`
unfoldable pub decode_header : List ℕ → Outcome VsockHeader
unfolding header_of
decode_header bytes = do
  reject_if (not (count bytes == 44)) (DeviceError.descriptor "invalid virtio-vsock header length")
  ok (header_of bytes)

-- `VsockHeader::encode`
unfoldable pub encode_header : VsockHeader → List ℕ
encode_header h =
    let b = copy_at 0 (to_le_bytes 8 h.source_cid) (replicate 44 0) in
    let b = copy_at 8 (to_le_bytes 8 h.destination_cid) b in
    let b = copy_at 16 (to_le_bytes 4 h.source_port) b in
    let b = copy_at 20 (to_le_bytes 4 h.destination_port) b in
    let b = copy_at 24 (to_le_bytes 4 h.length) b in
    let b = copy_at 28 (to_le_bytes 2 h.packet_type) b in
    let b = copy_at 30 (to_le_bytes 2 h.operation) b in
    let b = copy_at 32 (to_le_bytes 4 h.flags) b in
    let b = copy_at 36 (to_le_bytes 4 h.buffer_allocation) b in
    copy_at 40 (to_le_bytes 4 h.forward_count) b

-- The widths of the Rust types.
pub record IsTypedHeader (h : VsockHeader) : Type 0 where
  pub source_cid : h.source_cid < 256 ^ 8
  pub destination_cid : h.destination_cid < 256 ^ 8
  pub source_port : h.source_port < 256 ^ 4
  pub destination_port : h.destination_port < 256 ^ 4
  pub length : h.length < 256 ^ 4
  pub packet_type : h.packet_type < 256 ^ 2
  pub operation : h.operation < 256 ^ 2
  pub flags : h.flags < 256 ^ 4
  pub buffer_allocation : h.buffer_allocation < 256 ^ 4
  pub forward_count : h.forward_count < 256 ^ 4

pub length-encode_header : (h : VsockHeader) → count (encode_header h) ≡ 44
unfolding encode_header to_le_bytes
length-encode_header h = refl

module _ (h : VsockHeader) where
  source_cid_lem : slice (encode_header h) 0 8 ≡ to_le_bytes 8 h.source_cid
  unfolding encode_header to_le_bytes
  source_cid_lem = refl

  destination_cid_lem : slice (encode_header h) 8 16 ≡ to_le_bytes 8 h.destination_cid
  unfolding encode_header to_le_bytes
  destination_cid_lem = refl

  source_port_lem : slice (encode_header h) 16 20 ≡ to_le_bytes 4 h.source_port
  unfolding encode_header to_le_bytes
  source_port_lem = refl

  destination_port_lem : slice (encode_header h) 20 24 ≡ to_le_bytes 4 h.destination_port
  unfolding encode_header to_le_bytes
  destination_port_lem = refl

  length_lem : slice (encode_header h) 24 28 ≡ to_le_bytes 4 h.length
  unfolding encode_header to_le_bytes
  length_lem = refl

  packet_type_lem : slice (encode_header h) 28 30 ≡ to_le_bytes 2 h.packet_type
  unfolding encode_header to_le_bytes
  packet_type_lem = refl

  operation_lem : slice (encode_header h) 30 32 ≡ to_le_bytes 2 h.operation
  unfolding encode_header to_le_bytes
  operation_lem = refl

  flags_lem : slice (encode_header h) 32 36 ≡ to_le_bytes 4 h.flags
  unfolding encode_header to_le_bytes
  flags_lem = refl

  buffer_allocation_lem : slice (encode_header h) 36 40 ≡ to_le_bytes 4 h.buffer_allocation
  unfolding encode_header to_le_bytes
  buffer_allocation_lem = refl

  forward_count_lem : slice (encode_header h) 40 44 ≡ to_le_bytes 4 h.forward_count
  unfolding encode_header to_le_bytes
  forward_count_lem = refl

  pub header_of-encode_header : IsTypedHeader h → header_of (encode_header h) ≡ h
  unfolding header_of
  header_of-encode_header t =
      rw
        (
          source_cid_lem,
          from_le_bytes-to_le_bytes 8 h.source_cid t.source_cid,
          destination_cid_lem,
          from_le_bytes-to_le_bytes 8 h.destination_cid t.destination_cid,
          source_port_lem,
          from_le_bytes-to_le_bytes 4 h.source_port t.source_port,
          destination_port_lem,
          from_le_bytes-to_le_bytes 4 h.destination_port t.destination_port,
          length_lem,
          from_le_bytes-to_le_bytes 4 h.length t.length,
          packet_type_lem,
          from_le_bytes-to_le_bytes 2 h.packet_type t.packet_type,
          operation_lem,
          from_le_bytes-to_le_bytes 2 h.operation t.operation,
          flags_lem,
          from_le_bytes-to_le_bytes 4 h.flags t.flags,
          buffer_allocation_lem,
          from_le_bytes-to_le_bytes 4 h.buffer_allocation t.buffer_allocation,
          forward_count_lem,
          from_le_bytes-to_le_bytes 4 h.forward_count t.forward_count,
        )
        refl

  -- A header whose fields have the widths of their Rust types is decoded from its encoding.
  pub decode_header-encode_header : IsTypedHeader h → decode_header (encode_header h) ≡ ok h
  unfolding decode_header
  decode_header-encode_header t = rw (length-encode_header h) (ap ok (header_of-encode_header t))

pub decode_header_ok :
    (bytes : List ℕ) → count bytes ≡ 44 → decode_header bytes ≡ ok (header_of bytes)
unfolding decode_header
decode_header_ok bytes e = rw e refl
