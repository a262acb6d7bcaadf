-- ===== src/Block/Request.antt =====
-- src/block.rs: `parse_request`, with the loops that it runs over the header and the payload.
pub mod Header
pub mod Payload
pub mod Frame
pub mod Parse
use libvirtio.Base.{
  ℕ, ◌+◌, ◌-◌, ◌||◌, ◌&&◌, not, Bool, true, false, List, [], ◌∷◌, length, get_elem?, take, drop,
  replicate, ltb, leb, ◌==◌, if◌then◌else◌,
}
use libvirtio.Base.Bytes.{from_le_bytes}
use libvirtio.Error.{DeviceError}
use libvirtio.Outcome.{Outcome, ok, err, reject_if, expect, ◌>>=◌ as bind, ◌>>◌ as then_do}
use libvirtio.State.{M, pure, lift, ◌>>=◌, ◌>>◌}
use libvirtio.Dma.{DmaRange, DmaPart, DmaMemory, check_range}
use libvirtio.Lease.{Host, with_lease, read_slice}
use libvirtio.Queue.{Descriptor, DescriptorChain, slice}
use libvirtio.Transfer.{copy_at, is_writable}
use libvirtio.Buffers.{range_of}
use libvirtio.Block.{BlockRequestType, BlockRequest}

-- `descriptor_range`
unfoldable pub descriptor_range : Descriptor → Outcome DmaRange
descriptor_range d =
    then_do (reject_if (d.length == 0) (DeviceError.descriptor "zero-length descriptor"))
      (ok (range_of d))

-- The loop of `copy_from_lease`: the bytes of the target, and the offset reached.
unfoldable pub copy_parts : List ℕ → ℕ → List DmaPart → M Host (List ℕ × ℕ)
unfolding read_slice
copy_parts target offset [] = pure (target, offset)
copy_parts target offset (p ∷ ps) = do
  bytes ← read_slice p
  let end = offset + length bytes
  let rest = copy_parts (copy_at offset bytes target) end ps
  if ltb (length target) end
      then lift (err (DeviceError.descriptor "block header has invalid length"))
      else rest

unfoldable pub copy_from_lease : List ℕ → List DmaPart → M Host (List ℕ)
unfolding copy_parts
copy_from_lease target parts = do
  (bytes, offset) ← copy_parts target 0 parts
  lift (
      reject_if (not (offset == length bytes)) (DeviceError.descriptor "block header is truncated"))
  pure bytes

unfoldable pub request_type_of : ℕ → BlockRequestType
request_type_of code =
    if code == 0
    then BlockRequestType.input
    else if code == 1
    then BlockRequestType.output
    else if code == 4
    then BlockRequestType.flush
    else BlockRequestType.unsupported code

-- The `match` on the type of the request and the access to the descriptor.
unfoldable pub check_access : BlockRequestType → Descriptor → Outcome (Unit {0})
check_access BlockRequestType.input d =
    reject_if (not (is_writable d)) (DeviceError.descriptor "block read payload is not writable")
check_access BlockRequestType.output d =
    reject_if (is_writable d) (DeviceError.descriptor "block write payload is writable")
check_access BlockRequestType.flush d = err (DeviceError.descriptor "block flush has payload")
check_access (BlockRequestType.unsupported code) d = ok tt

-- The loop over the payload's descriptors.
unfoldable pub payload_ranges :
    DmaMemory → BlockRequestType → List Descriptor → Outcome (List DmaRange)
unfolding check_access descriptor_range
payload_ranges memory ty [] = ok []
payload_ranges memory ty (d ∷ ds) = then_do (check_access ty d) (
    bind (descriptor_range d) λ range.
      then_do (check_range memory range)
        (bind (payload_ranges memory ty ds) λ ranges. ok (range ∷ ranges)))

-- `matches!(request_type, In | Out)`
abbrev pub moves_data : BlockRequestType → Bool
moves_data BlockRequestType.input = true
moves_data BlockRequestType.output = true
moves_data BlockRequestType.flush = false
moves_data (BlockRequestType.unsupported code) = false

-- `&chain.descriptors[1..chain.descriptors.len() - 1]`, of two descriptors at least
abbrev pub inner : List Descriptor → List Descriptor
inner ds = take (length ds - 1 - 1) (drop 1 ds)

-- What follows the header's bytes.
unfoldable pub interpret_request :
    DmaMemory → List Descriptor → DmaRange → List ℕ → Outcome BlockRequest
unfolding payload_ranges request_type_of
interpret_request memory ds status bytes =
    let ty = request_type_of (from_le_bytes (slice bytes 0 4)) in
    bind (payload_ranges memory ty (inner ds)) λ payload.
      then_do
        (reject_if (moves_data ty && length payload == 0)
          (DeviceError.descriptor "block request has no payload"))
        (then_do (check_range memory status) (
          ok (record {
            request_type = ty;
            sector = from_le_bytes (slice bytes 8 16);
            payload = payload;
            status = status;
          })))

unfoldable pub parse_request : DmaMemory → DescriptorChain → M Host BlockRequest
unfolding copy_from_lease interpret_request
parse_request memory chain = do
  let ds = chain.descriptors
  lift (
      reject_if (ltb (length ds) 2)
        (DeviceError.descriptor "block request has too few descriptors"))
  header ← lift (expect (get_elem? ds 0))
  status ← lift (expect (get_elem? ds (length ds - 1)))
  lift (
      reject_if (is_writable header || not (header.length == 16))
        (DeviceError.descriptor "invalid block request header"))
  lift (
      reject_if (not (is_writable status) || not (status.length == 1))
        (DeviceError.descriptor "invalid block request status byte"))
  header_range ← lift (descriptor_range header)
  status_range ← lift (descriptor_range status)
  bytes ← with_lease memory header_range (copy_from_lease (replicate 16 0))
  lift (interpret_request memory ds status_range bytes)
