-- ===== src/Vsock/Packet.antt =====
-- src/vsock.rs: packets, and how they are read from and written to a chain.
pub mod Read
pub mod Write
use libvirtio.Base.{ℕ, ◌+◌, Bool, not, ◌||◌, any, List, ◌++◌, ltb, ◌==◌, take, drop}
use libvirtio.Base.{length as count}
use libvirtio.Error.{DeviceError}
use libvirtio.Outcome.{Outcome, ok, reject_if, ok_or, ◌>>=◌, ◌>>◌}
use libvirtio.State.{M, pure, lift, ◌>>=◌ as and_then}
use libvirtio.Dma.{DmaMemory}
use libvirtio.Lease.{Host}
use libvirtio.Queue.{DescriptorChain}
use libvirtio.Transfer.{is_writable}
use libvirtio.Buffers.{gather, capacity_from, scatter}
use libvirtio.Vsock.Header.{VsockHeader, decode_header, encode_header}

pub record VsockPacket : Type 0 where
  pub header : VsockHeader
  pub payload : List ℕ

-- `VsockPacket::validate`
unfoldable pub validate_packet : VsockPacket → Outcome (Unit {0})
validate_packet p =
    reject_if
      (not (p.header.packet_type == 1 || p.header.packet_type == 2)
        || (not (p.header.length == count p.payload) || ltb 65536 (count p.payload)))
      (DeviceError.descriptor "invalid virtio-vsock packet")

-- `read_packet` from the bytes of the chain on.
unfoldable pub parse_packet : List ℕ → Outcome VsockPacket
parse_packet bytes = do
  reject_if (ltb (count bytes) 44) (DeviceError.descriptor "short virtio-vsock TX chain")
  header ← decode_header (take 44 bytes)
  reject_if (not (count bytes == 44 + header.length))
      (DeviceError.descriptor "virtio-vsock TX chain length mismatch")
  let packet : VsockPacket = record { header = header; payload = drop 44 bytes }
  validate_packet packet
  ok packet

unfoldable pub read_packet : DmaMemory → DescriptorChain → M Host VsockPacket
read_packet memory chain =
    and_then
      (lift (
        reject_if (any is_writable chain.descriptors)
          (DeviceError.descriptor "vsock TX chain is writable")))
      λ _. and_then (gather memory chain.descriptors) λ bytes. lift (parse_packet bytes)

unfoldable pub packet_bytes : VsockPacket → Outcome (List ℕ)
packet_bytes p = do validate_packet p; ok (encode_header p.header ++ p.payload)

-- The checks that `write_packet` makes first.
unfoldable pub check_room : DescriptorChain → List ℕ → Outcome (Unit {0})
check_room chain bytes = do
  reject_if (any (λ d. not (is_writable d)) chain.descriptors)
      (DeviceError.descriptor "vsock RX chain is readable")
  capacity ←
      ok_or (capacity_from 0 chain.descriptors)
        (DeviceError.descriptor "vsock RX capacity overflows usize")
  reject_if (ltb capacity (count bytes))
      (DeviceError.descriptor "virtio-vsock RX chain is too short")

unfoldable pub write_packet : DmaMemory → DescriptorChain → List ℕ → M Host (Unit {0})
write_packet memory chain bytes =
    and_then (lift (check_room chain bytes))
      λ _. and_then (scatter memory bytes 0 chain.descriptors) λ offset. pure tt
