-- ===== src/Rng.antt =====
-- src/rng.rs: the virtio-rng device. `arc4random_buf` of the C library is a parameter: the bytes it
-- yields, one after the other, as a stream. The state is the host's, how many bytes have been
-- drawn, the queue's, and whether the device is down.
pub mod Parts
pub mod Fill
pub mod Serve
use libvirtio.Base.{
  ℕ, zero, suc, ◌+◌, ◌^◌, ◌||◌, not, Bool, true, false, Option, none, some, List, [], ◌∷◌, map, ltb,
  ◌==◌, if◌then◌else◌, range_from,
}
use libvirtio.Error.{DeviceError, DeviceDownReason}
use libvirtio.Outcome.{Outcome, ok, err, hang, reject_if, ok_or, ◌>>◌ as then_do}
use libvirtio.State.{M, pure, lift, get, modify, on_host, on_rest, on_ends, repeat, ◌>>=◌, ◌>>◌}
use libvirtio.Dma.{DmaPart, DmaMemory, checked_add}
use libvirtio.Lease.{Host, write_slice, revoke, wait_for_drain}
use libvirtio.Lease.Held.{with_lease_on}
use libvirtio.Layout.{is_power_of_two}
use libvirtio.Queue.{Descriptor, DescriptorChain, QueueState, VirtQueue, pop, complete}
use libvirtio.Transfer.{is_writable}
use libvirtio.Buffers.{range_of}
use libvirtio.Device.{
  Interrupt, DeviceLayout, DeviceResources, queue_at, notify, validate_resources,
}

pub record RngSpec : Type 0 where
  pub maximum_queue_size : ℕ

-- `RngSpec::new`
unfoldable pub new_spec : ℕ → Outcome RngSpec
new_spec size =
    then_do
      (reject_if (size == 0 || not (is_power_of_two 16 size))
        (DeviceError.invalid_layout "invalid virtio-rng queue size"))
      (ok (record { maximum_queue_size = size }))

unfoldable pub layout : RngSpec → DeviceLayout
layout spec = record {
  queue_count = 1;
  maximum_queue_size = spec.maximum_queue_size;
  notifier_count = 1;
  required_features = 2 ^ 32;
  optional_features = 0;
}

pub record RngDevice : Type 0 where
  pub resources : DeviceResources

-- `RngSpec::activate`
unfoldable pub activate : RngSpec → DeviceResources → Outcome RngDevice
unfolding layout
activate spec resources =
    then_do (validate_resources resources (layout spec)) (ok (record { resources = resources }))

-- `arc4random_buf`: the next `n` bytes of the stream.
abbrev pub random_bytes : (ℕ → ℕ) → ℕ → M ℕ (List ℕ)
random_bytes entropy n position = (ok (map entropy (range_from position n)), position + n)

-- The loop over the parts of a lease, with the length so far.
unfoldable pub fill_parts : (ℕ → ℕ) → ℕ → List DmaPart → M (Host × ℕ) ℕ
unfolding write_slice
fill_parts entropy total [] = pure total
fill_parts entropy total (p ∷ ps) = do
  bytes ← on_rest (random_bytes entropy p.length)
  on_host (write_slice p bytes)
  total ←
      lift
        (ok_or (checked_add total p.length) (DeviceError.descriptor "virtio-rng length overflow"))
  fill_parts entropy total ps

-- The loop over the descriptors.
unfoldable pub fill_descriptors : (ℕ → ℕ) → DmaMemory → ℕ → List Descriptor → M (Host × ℕ) ℕ
unfolding fill_parts with_lease_on
fill_descriptors entropy memory total [] = pure total
fill_descriptors entropy memory total (d ∷ ds) = do
  lift (
      reject_if (not (is_writable d) || d.length == 0)
        (DeviceError.descriptor "virtio-rng descriptor is not writable"))
  total ← with_lease_on memory (range_of d) (fill_parts entropy total)
  fill_descriptors entropy memory total ds

unfoldable pub fill_chain : (ℕ → ℕ) → DmaMemory → DescriptorChain → M (Host × ℕ) ℕ
unfolding fill_descriptors
fill_chain entropy memory chain = do
  length ← fill_descriptors entropy memory 0 chain.descriptors
  lift (
      reject_if (not (ltb length (2 ^ 32)))
        (DeviceError.descriptor "virtio-rng length exceeds u32"))
  pure length

unfoldable pub process_queue : (ℕ → ℕ) → RngDevice → M ((Host × ℕ) × QueueState) Bool
unfolding fill_chain
process_queue entropy device = do
  let dma = device.resources.dma
  queue ← lift (queue_at device.resources 0)
  popped ← on_ends (pop queue dma)
  elim popped [
    | none ↦ pure false
    | some chain ↦ do
      length ← on_host (fill_chain entropy dma chain)
      on_ends (complete queue dma chain length)
      lift (notify device.resources 0 (Interrupt.queue 0 0))
      pure true
  ]

-- A round of the loop of `run` behind the wait for a wake-up, with the rounds allowed to its inner
-- loop: whether `run` returns. The wait for the leases is told what the other tasks do meanwhile.
unfoldable pub run_round :
    (ℕ → ℕ) → ℕ → List (Host → Host) → RngDevice → M (((Host × ℕ) × QueueState) × Bool) Bool
unfolding process_queue repeat wait_for_drain
run_round entropy rounds others device = do
  (_, down) ← get
  let drained = do on_host (on_host (on_host (wait_for_drain others))); pure true
  let served = do on_host (repeat rounds (process_queue entropy device)); pure false
  if down then drained else served

-- `RngDevice::stop`, less the wake-up of `run`.
unfoldable pub stop : DeviceDownReason → M (((Host × ℕ) × QueueState) × Bool) (Unit {0})
stop reason = do modify (λ (w, _). (w, true)); on_host (on_host (on_host revoke))
