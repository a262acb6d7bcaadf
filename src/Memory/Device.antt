-- ===== src/Memory/Device.antt =====
-- src/memory.rs: the virtio-mem device. The state is the host's, the queue's, the backend's, and
-- whether the device is down. The backend is the monitor's: its calls are parameters that act on a
-- state of its own.
pub mod Serve
pub mod Stop
use libvirtio.Base.{
  ℕ, zero, suc, ◌^◌, ◌||◌, not, Bool, true, false, List, Option, none, some, get_elem?, bit_or,
  ◌==◌, if◌then◌else◌,
}
use libvirtio.Error.{DeviceError, DeviceDownReason}
use libvirtio.Outcome.{Outcome, ok, hang, reject_if, expect, ◌>>=◌ as bind, ◌>>◌ as then_do}
use libvirtio.State.{M, pure, lift, get, modify, on_host, on_rest, ◌>>=◌, ◌>>◌}
use libvirtio.Dma.{DmaMemory}
use libvirtio.Lease.{Host, revoke, wait_for_drain}
use libvirtio.Layout.{is_power_of_two}
use libvirtio.Queue.{QueueState, VirtQueue, pop, complete}
use libvirtio.Device.{
  Interrupt, DeviceLayout, DeviceResources, queue_at, notify, validate_resources,
  closes_host_backend,
}
use libvirtio.Memory.Config.{MemoryConfigState, validate_config}
use libvirtio.Memory.Request.{MemoryRequest, MemoryResponse, parse_request, write_response}

pub record MemoryBackend (B : Type 0) : Type 0 where
  pub config_state : MemoryConfigState
  pub handle : MemoryRequest → M B MemoryResponse
  pub shutdown : B → B

pub record MemorySpec : Type 0 where
  pub maximum_queue_size : ℕ
  pub optional_features : ℕ

-- `MemorySpec::new`
unfoldable pub new_spec : ℕ → Outcome MemorySpec
new_spec size =
    then_do
      (reject_if (size == 0 || not (is_power_of_two 16 size))
        (DeviceError.invalid_layout "invalid virtio-mem queue size"))
      (ok (record { maximum_queue_size = size; optional_features = 2 }))

unfoldable pub with_acpi_pxm : MemorySpec → MemorySpec
with_acpi_pxm spec = record spec { optional_features = bit_or spec.optional_features 1 }

unfoldable pub layout : MemorySpec → DeviceLayout
layout spec = record {
  queue_count = 1;
  maximum_queue_size = spec.maximum_queue_size;
  notifier_count = 2;
  required_features = 2 ^ 32;
  optional_features = spec.optional_features;
}

pub record MemoryDevice (B : Type 0) : Type 0 where
  pub resources : DeviceResources
  pub backend : MemoryBackend B

-- `MemorySpec::activate`
unfoldable pub activate :
    {B : Type 0} → MemorySpec → MemoryBackend B → DeviceResources → Outcome (MemoryDevice B)
unfolding layout
activate spec backend resources = then_do (validate_resources resources (layout spec)) (
    bind (validate_config backend.config_state.config)
      (λ _. ok (record { resources = resources; backend = backend })))

unfoldable pub process_request : {B : Type 0} → MemoryDevice B → M ((Host × QueueState) × B) Bool
process_request device = do
  let dma = device.resources.dma
  queue ← lift (queue_at device.resources 0)
  popped ← on_host (pop queue dma)
  elim popped [
    | none ↦ pure false
    | some chain ↦ do
      request ← on_host (on_host (parse_request dma chain))
      response ← on_rest (device.backend.handle request)
      on_host (on_host (write_response dma chain response))
      on_host (complete queue dma chain 10)
      lift (notify device.resources 0 (Interrupt.queue 0 0))
      pure true
  ]

-- `while self.process_request().await? {}`, with the rounds allowed.
unfoldable pub process_requests :
    {B : Type 0} → ℕ → MemoryDevice B → M ((Host × QueueState) × B) (Unit {0})
process_requests zero device = lift hang
process_requests (suc rounds) device = do
  more ← process_request device
  let rest = process_requests rounds device
  if more then rest else pure tt

-- A round of the loop of `run` behind the wait for a wake-up: whether `run` returns. The wait for
-- the leases is told what the other tasks do meanwhile.
unfoldable pub run_round :
    {B : Type 0}
    → ℕ
    → List (Host → Host)
    → MemoryDevice B
    → M (((Host × QueueState) × B) × Bool) Bool
unfolding process_requests wait_for_drain
run_round rounds others device = do
  (_, down) ← get
  let drained = do on_host (on_host (on_host (wait_for_drain others))); pure true
  let served = do on_host (process_requests rounds device); pure false
  if down then drained else served

-- `MemoryDevice::stop`, less the wake-up of `run`.
unfoldable pub stop :
    {B : Type 0}
    → MemoryDevice B
    → DeviceDownReason
    → M (((Host × QueueState) × B) × Bool) (Unit {0})
stop device reason = do
  modify (λ (w, _). (w, true))
  if closes_host_backend reason then on_host (on_rest (modify device.backend.shutdown)) else pure tt
  on_host (on_host (on_host revoke))
