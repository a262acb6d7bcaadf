-- ===== src/Console.antt =====
-- src/console.rs: the virtio-console device, with queue 0 for input and 1 for output. `gather` and
-- `scatter` are its loops in `read_chain` and `write_chain`. The state is the host's, the queues',
-- and the backend's, beside whether the device is down.
pub mod Capacity
use libvirtio.Base.{
  ℕ, ◌^◌, Bool, true, false, not, ◌||◌, any, Option, none, some, List, [], ◌∷◌, ltb, ◌==◌, length,
  replicate, if◌then◌else◌,
}
use libvirtio.Error.{DeviceError, DeviceDownReason}
use libvirtio.Outcome.{Outcome, ok, reject_if, ok_or, ◌>>=◌ as bind, ◌>>◌ as then_do}
use libvirtio.State.{M, pure, lift, get, modify, on_host, on_rest, repeat, ◌>>=◌, ◌>>◌}
use libvirtio.Dma.{DmaMemory, checked_add}
use libvirtio.Lease.{Host, revoke, wait_for_drain}
use libvirtio.Layout.{is_power_of_two}
use libvirtio.Queue.{QueueState, Descriptor, DescriptorChain, new_state}
use libvirtio.Device.{
  Interrupt, DeviceLayout, DeviceResources, notify, pop_at, complete_at, validate_resources,
  closes_host_backend,
}
use libvirtio.Transfer.{is_writable}
use libvirtio.Buffers.{gather, scatter}

pub record ConsoleBackend (B : Type 0) : Type 0 where
  pub has_input : B → Bool
  pub read_input : ℕ → M B (Option (List ℕ))
  pub write_output : List ℕ → M B (Unit {0})
  pub shutdown : B → B

pub record ConsoleSpec : Type 0 where
  pub maximum_queue_size : ℕ

-- `ConsoleSpec::new`
unfoldable pub new_spec : ℕ → Outcome ConsoleSpec
new_spec size =
    then_do
      (reject_if (size == 0 || not (is_power_of_two 16 size))
        (DeviceError.invalid_layout "invalid virtio-console queue size"))
      (ok (record { maximum_queue_size = size }))

unfoldable pub layout : ConsoleSpec → DeviceLayout
layout spec = record {
  queue_count = 2;
  maximum_queue_size = spec.maximum_queue_size;
  notifier_count = 2;
  required_features = 2 ^ 32;
  optional_features = 0;
}

pub record ConsoleDevice (B : Type 0) : Type 0 where
  pub resources : DeviceResources
  pub backend : ConsoleBackend B

-- `ConsoleSpec::activate`: the device, and the states of its queues.
unfoldable pub activate :
    {B : Type 0}
    → ConsoleSpec
    → ConsoleBackend B
    → DeviceResources
    → Outcome (ConsoleDevice B × List QueueState)
unfolding layout
activate spec backend resources =
    then_do (validate_resources resources (layout spec))
      (ok (record { resources = resources; backend = backend }, replicate 2 new_state))

unfoldable pub read_chain : DmaMemory → DescriptorChain → M Host (List ℕ)
read_chain memory chain = do
  lift (
      reject_if (any is_writable chain.descriptors)
        (DeviceError.descriptor "console transmit chain is writable"))
  gather memory chain.descriptors

-- The loop of `writable_capacity`.
unfoldable pub writable_capacity_from : ℕ → List Descriptor → Outcome ℕ
writable_capacity_from capacity [] = ok capacity
writable_capacity_from capacity (d ∷ ds) =
    then_do
      (reject_if (not (is_writable d)) (DeviceError.descriptor "console receive chain is readable"))
      (bind
        (ok_or (checked_add capacity d.length)
          (DeviceError.descriptor "console receive capacity overflows usize"))
        (λ total. writable_capacity_from total ds))

unfoldable pub writable_capacity : DescriptorChain → Outcome ℕ
writable_capacity chain = writable_capacity_from 0 chain.descriptors

unfoldable pub write_chain : DmaMemory → DescriptorChain → List ℕ → M Host (Unit {0})
write_chain memory chain bytes = do
  capacity ← lift (writable_capacity chain)
  lift (
      reject_if (ltb capacity (length bytes))
        (DeviceError.descriptor "console receive chain is too short"))
  offset ← scatter memory bytes 0 chain.descriptors
  pure tt

unfoldable pub process_transmit :
    {B : Type 0} → ConsoleDevice B → M ((Host × List QueueState) × B) Bool
process_transmit device = do
  let r = device.resources
  popped ← on_host (pop_at r 1)
  elim popped [
    | none ↦ pure false
    | some chain ↦ do
      bytes ← on_host (on_host (read_chain r.dma chain))
      on_rest (device.backend.write_output bytes)
      on_host (complete_at r 1 chain 0)
      lift (notify r 1 (Interrupt.queue 1 1))
      pure true
  ]

-- What `process_receive` does with a chain.
unfoldable pub receive :
    {B : Type 0} → ConsoleDevice B → DescriptorChain → M ((Host × List QueueState) × B) Bool
receive device chain = do
  let r = device.resources
  capacity ← lift (writable_capacity chain)
  input ← on_rest (device.backend.read_input capacity)
  bytes ← lift (ok_or input (DeviceError.down DeviceDownReason.stop))
  on_host (on_host (write_chain r.dma chain bytes))
  used_length ← lift (
      ok_or (if ltb (length bytes) (2 ^ 32) then some (length bytes) else none)
        (DeviceError.descriptor "console input too large"))
  on_host (complete_at r 0 chain used_length)
  lift (notify r 0 (Interrupt.queue 0 0))
  pure true

unfoldable pub process_receive :
    {B : Type 0} → ConsoleDevice B → M ((Host × List QueueState) × B) Bool
unfolding receive
process_receive device = do
  (_, b) ← get
  if not (device.backend.has_input b) then pure false else do
    popped ← on_host (pop_at device.resources 0)
    elim popped [ none ↦ pure false | some chain ↦ receive device chain ]

-- A round of the loop of `run` behind the wait for a wake-up: whether `run` returns. The wait for
-- the leases is told what the other tasks do meanwhile.
unfoldable pub run_round :
    {B : Type 0}
    → ℕ
    → List (Host → Host)
    → ConsoleDevice B
    → M (((Host × List QueueState) × B) × Bool) Bool
unfolding process_transmit process_receive wait_for_drain
run_round rounds others device = do
  (_, down) ← get
  let drained = do on_host (on_host (on_host (wait_for_drain others))); pure true
  if down then drained else do
    on_host (repeat rounds (process_transmit device))
    on_host (repeat rounds (process_receive device))
    pure false

-- `ConsoleDevice::stop`, less the wake-up of `run`.
unfoldable pub stop :
    {B : Type 0}
    → ConsoleDevice B
    → DeviceDownReason
    → M (((Host × List QueueState) × B) × Bool) (Unit {0})
stop device reason = do
  modify (λ (w, _). (w, true))
  if closes_host_backend reason then on_host (on_rest (modify device.backend.shutdown)) else pure tt
  on_host (on_host (on_host revoke))
