-- ===== src/Memory/Request.antt =====
-- src/memory.rs: the requests of a virtio-mem driver and the answers to them.
pub mod Wire
pub mod Parse
use libvirtio.Base.{ℕ, ◌||◌, not, Bool, List, get_elem?, length, replicate, ◌==◌, if◌then◌else◌}
use libvirtio.Base.Bytes.{to_le_bytes, from_le_bytes}
use libvirtio.Error.{DeviceError}
use libvirtio.Outcome.{Outcome, ok, err, reject_if, expect}
use libvirtio.State.{M, pure, lift, ◌>>=◌, ◌>>◌}
use libvirtio.Dma.{DmaMemory}
use libvirtio.Lease.{Host}
use libvirtio.Queue.{Descriptor, DescriptorChain, slice}
use libvirtio.Transfer.{copy_at, is_writable, read_array, write_array}

-- An address and a number of blocks, where the request has them.
pub data MemoryRequest : Type 0 where
  plug unplug : ℕ → ℕ → MemoryRequest
  unplug_all : MemoryRequest
  state : ℕ → ℕ → MemoryRequest

pub data MemoryResponse : Type 0 where
  ack nack busy error : MemoryResponse
  state : ℕ → MemoryResponse

-- The `match` on the type of a request.
unfoldable pub interpret_request : ℕ → ℕ → ℕ → Outcome MemoryRequest
interpret_request ty addr blocks =
    if ty == 0
    then ok (MemoryRequest.plug addr blocks)
    else if ty == 1
    then ok (MemoryRequest.unplug addr blocks)
    else if ty == 2
    then ok MemoryRequest.unplug_all
    else if ty == 3
    then ok (MemoryRequest.state addr blocks)
    else err (DeviceError.descriptor "unknown virtio-mem request")

unfoldable pub parse_request : DmaMemory → DescriptorChain → M Host MemoryRequest
parse_request memory chain = do
  lift (
      reject_if (not (length chain.descriptors == 2))
        (DeviceError.descriptor "virtio-mem request must have two descriptors"))
  request ← lift (expect (get_elem? chain.descriptors 0))
  response ← lift (expect (get_elem? chain.descriptors 1))
  lift (
      reject_if (is_writable request || not (request.length == 24))
        (DeviceError.descriptor "invalid virtio-mem request descriptor"))
  lift (
      reject_if (not (is_writable response) || not (response.length == 10))
        (DeviceError.descriptor "invalid virtio-mem response descriptor"))
  bytes ← read_array memory request.address 24
  lift (
      interpret_request (from_le_bytes (slice bytes 0 2)) (from_le_bytes (slice bytes 8 16))
        (from_le_bytes (slice bytes 16 18)))

unfoldable pub response_type : MemoryResponse → ℕ
response_type MemoryResponse.ack = 0
response_type MemoryResponse.nack = 1
response_type MemoryResponse.busy = 2
response_type MemoryResponse.error = 3
response_type (MemoryResponse.state _) = 0

-- The array that `write_response` fills.
unfoldable pub response_bytes : MemoryResponse → List ℕ
unfolding response_type
response_bytes response =
    let bytes = copy_at 0 (to_le_bytes 2 (response_type response)) (replicate 10 0) in
    elim response [
      | MemoryResponse.state s ↦ copy_at 8 (to_le_bytes 2 s) bytes
      | MemoryResponse.ack ↦ bytes
      | MemoryResponse.nack ↦ bytes
      | MemoryResponse.busy ↦ bytes
      | MemoryResponse.error ↦ bytes
    ]

unfoldable pub write_response : DmaMemory → DescriptorChain → MemoryResponse → M Host (Unit {0})
write_response memory chain response = do
  descriptor ← lift (expect (get_elem? chain.descriptors 1))
  write_array memory descriptor.address (response_bytes response)
