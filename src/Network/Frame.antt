-- ===== src/Network/Frame.antt =====
-- src/network.rs: frames and control requests in chains. `gather` and `scatter` are its loops in
-- `read_chain` and `write_chain`.
pub mod Moved
pub mod Written
use libvirtio.Base.{
  ℕ, ◌+◌, ◌-◌, ◌^◌, ◌≤◌, Bool, not, ◌||◌, any, Option, none, some, List, [], ◌∷◌, ◌++◌, ltb, leb,
  ◌==◌, length, drop, replicate, get_elem?, if◌then◌else◌,
}
use libvirtio.Error.{DeviceError}
use libvirtio.Outcome.{Outcome, ok, panic, reject_if, ok_or, expect, ◌>>=◌ as bind}
use libvirtio.State.{M, pure, lift, ◌>>=◌, ◌>>◌}
use libvirtio.Dma.{DmaMemory, DmaPart}
use libvirtio.Lease.{Host, with_lease, read_parts, write_slice}
use libvirtio.Queue.{Descriptor, DescriptorChain}
use libvirtio.Transfer.{is_writable}
use libvirtio.Buffers.{range_of, gather, capacity_from, scatter}

unfoldable pub read_chain_range : DmaMemory → ℕ → ℕ → M Host (List ℕ)
read_chain_range memory address n =
    with_lease memory (record { gpa = address; length = n })
      λ parts. do
        bytes ← read_parts parts
        lift (
            reject_if (not (length bytes == n))
              (DeviceError.descriptor "short virtio-net control read"))
        pure bytes

-- `chain.descriptors.last()`
abbrev pub last : List Descriptor → Option Descriptor
last [] = none
last (d ∷ []) = some d
last (d ∷ e ∷ ds) = last (e ∷ ds)

-- `lease.parts_mut()[0].write_slice()[0] = status`
abbrev set_first : ℕ → List DmaPart → M Host (Unit {0})
set_first status [] = lift panic
set_first status (p ∷ ps) = if p.length == 0 then lift panic else write_slice p (status ∷ [])

unfoldable pub write_control_status : DmaMemory → DescriptorChain → ℕ → M Host (Unit {0})
write_control_status memory chain status = do
  descriptor ← lift (expect (last chain.descriptors))
  lift (
      reject_if (not (is_writable descriptor) || not (descriptor.length == 1))
        (DeviceError.descriptor "invalid virtio-net control status"))
  with_lease memory (record { gpa = descriptor.address; length = 1 }) (set_first status)

-- The checks of `read_tx_frame` on the bytes of a chain, which begin with a header of 12.
unfoldable pub parse_frame : List ℕ → Outcome (List ℕ)
parse_frame bytes =
    bind
      (reject_if (leb (length bytes) 12 || ltb 65536 (length bytes - 12))
        (DeviceError.descriptor "invalid virtio-net TX frame length"))
      (λ _. ok (drop 12 bytes))

unfoldable pub read_tx_frame : DmaMemory → DescriptorChain → M Host (List ℕ)
read_tx_frame memory chain = do
  lift (
      reject_if (any is_writable chain.descriptors)
        (DeviceError.descriptor "virtio-net TX chain is writable"))
  bytes ← gather memory chain.descriptors
  lift (parse_frame bytes)

unfoldable pub write_chain : DmaMemory → DescriptorChain → List ℕ → M Host (Unit {0})
write_chain memory chain bytes = do
  capacity ← lift (
      ok_or (capacity_from 0 chain.descriptors)
        (DeviceError.descriptor "virtio-net RX capacity overflows usize"))
  lift (
      reject_if (ltb capacity (length bytes))
        (DeviceError.descriptor "virtio-net RX chain is too short"))
  offset ← scatter memory bytes 0 chain.descriptors
  pure tt

-- The result is the number of bytes written.
unfoldable pub write_rx_frame : DmaMemory → DescriptorChain → List ℕ → M Host ℕ
write_rx_frame memory chain frame = do
  lift (
      reject_if (length frame == 0 || ltb 65536 (length frame))
        (DeviceError.descriptor "invalid virtio-net RX frame length"))
  lift (
      reject_if (any (λ d. not (is_writable d)) chain.descriptors)
        (DeviceError.descriptor "virtio-net RX chain is readable"))
  let bytes = replicate 12 0 ++ frame
  write_chain memory chain bytes
  lift (
      ok_or (if ltb (length bytes) (2 ^ 32) then some (length bytes) else none)
        (DeviceError.descriptor "virtio-net used length overflow"))
