-- ===== src/Vsock/Device.antt =====
-- src/vsock.rs: the virtio-vsock device, with queue 0 for packets to the guest, 1 for packets from
-- it, and 2 for events. The state is the host's, the three queues', and the backend's, beside the
-- device's two flags.
pub mod Send
use libvirtio.Base.{
  ℕ, ◌+◌, ◌-◌, ◌^◌, ◌≤◌, min, Bool, true, false, not, ◌||◌, Option, none, some, List, [], ◌∷◌, ltb,
  leb, ◌==◌, bit_and, length, replicate, if◌then◌else◌,
}
use libvirtio.Error.{DeviceError, DeviceDownReason}
use libvirtio.Outcome.{Outcome, ok, reject_if, ok_or, ◌>>◌ as then_do}
use libvirtio.State.{M, pure, lift, get, modify, on_host, on_rest, repeat, ◌>>=◌, ◌>>◌}
use libvirtio.Lease.{Host, revoke, wait_for_drain}
use libvirtio.Layout.{is_power_of_two}
use libvirtio.Queue.{QueueState, DescriptorChain, new_state}
use libvirtio.Device.{
  Interrupt, DeviceLayout, DeviceResources, notify, pop_at, complete_at, validate_resources,
  closes_host_backend,
}
use libvirtio.Vsock.Packet.{VsockPacket, packet_bytes, read_packet, write_packet}

pub record VsockBackend (B : Type 0) : Type 0 where
  pub receive_packet : VsockPacket → M B (Unit {0})
  pub has_packet : B → Bool
  pub take_packet : M B (Option VsockPacket)
  pub shutdown : B → B

pub record VsockSpec : Type 0 where
  pub guest_cid : ℕ
  pub maximum_queue_size : ℕ

-- `VsockSpec::new`
unfoldable pub new_spec : ℕ → ℕ → Outcome VsockSpec
new_spec cid size =
    then_do
      (reject_if (leb cid 2 || (size == 0 || not (is_power_of_two 16 size)))
        (DeviceError.invalid_layout "invalid virtio-vsock spec"))
      (ok (record { guest_cid = cid; maximum_queue_size = size }))

unfoldable pub layout : VsockSpec → DeviceLayout
layout spec = record {
  queue_count = 3;
  maximum_queue_size = spec.maximum_queue_size;
  notifier_count = 4;
  required_features = 2 ^ 32;
  optional_features = 3;
}

pub record VsockDevice (B : Type 0) : Type 0 where
  pub resources : DeviceResources
  pub backend : VsockBackend B
  pub stream_supported : Bool
  pub seqpacket_supported : Bool

-- `VsockSpec::activate`: the device, and the states of its queues.
unfoldable pub activate :
    {B : Type 0}
    → VsockSpec
    → VsockBackend B
    → DeviceResources
    → Outcome (VsockDevice B × List QueueState)
unfolding layout
activate spec backend resources = then_do (validate_resources resources (layout spec)) (
    ok (
      record {
        resources = resources;
        backend = backend;
        stream_supported = true;
        seqpacket_supported = not (bit_and resources.negotiated_features 2 == 0);
      },
      replicate 3 new_state,
    ))

unfoldable pub is_supported : {B : Type 0} → VsockDevice B → VsockPacket → Bool
is_supported device p =
    if p.header.packet_type == 1
    then device.stream_supported
    else if p.header.packet_type == 2
    then device.seqpacket_supported
    else false

unfoldable pub validate_packet_type :
    {B : Type 0} → VsockDevice B → VsockPacket → Outcome (Unit {0})
unfolding is_supported
validate_packet_type device p =
    reject_if (not (is_supported device p))
      (DeviceError.descriptor "virtio-vsock packet type was not negotiated")

unfoldable pub notify_queue : {B : Type 0} → VsockDevice B → ℕ → Outcome (Unit {0})
notify_queue device i = notify device.resources i (Interrupt.queue i i)

-- A round of the loop of `process_tx`: whether there was a packet.
unfoldable pub tx_round : {B : Type 0} → VsockDevice B → M ((Host × List QueueState) × B) Bool
tx_round device = do
  let r = device.resources
  popped ← on_host (pop_at r 1)
  elim popped [
    | none ↦ pure false
    | some chain ↦ do
      packet ← on_host (on_host (read_packet r.dma chain))
      lift (validate_packet_type device packet)
      let used_length = min (packet.header.length + 44) (2 ^ 32 - 1)
      on_rest (device.backend.receive_packet packet)
      on_host (complete_at r 1 chain used_length)
      lift (notify_queue device 1)
      pure true
  ]

unfoldable pub process_tx :
    {B : Type 0} → ℕ → VsockDevice B → M ((Host × List QueueState) × B) (Unit {0})
unfolding tx_round
process_tx rounds device = repeat rounds (tx_round device)

-- What `process_rx` does with a chain.
unfoldable pub deliver :
    {B : Type 0} → VsockDevice B → DescriptorChain → M ((Host × List QueueState) × B) Bool
deliver device chain = do
  let r = device.resources
  taken ← on_rest device.backend.take_packet
  packet ← lift (ok_or taken (DeviceError.descriptor "vsock packet disappeared"))
  lift (validate_packet_type device packet)
  bytes ← lift (packet_bytes packet)
  on_host (on_host (write_packet r.dma chain bytes))
  used_length ← lift (
      ok_or (if ltb (length bytes) (2 ^ 32) then some (length bytes) else none)
        (DeviceError.descriptor "vsock packet too large"))
  on_host (complete_at r 0 chain used_length)
  lift (notify_queue device 0)
  pure true

-- A round of the loop of `process_rx`.
unfoldable pub rx_round : {B : Type 0} → VsockDevice B → M ((Host × List QueueState) × B) Bool
unfolding deliver
rx_round device = do
  (_, b) ← get
  if not (device.backend.has_packet b) then pure false else do
    popped ← on_host (pop_at device.resources 0)
    elim popped [ none ↦ pure false | some chain ↦ deliver device chain ]

unfoldable pub process_rx :
    {B : Type 0} → ℕ → VsockDevice B → M ((Host × List QueueState) × B) (Unit {0})
unfolding rx_round
process_rx rounds device = repeat rounds (rx_round device)

-- A round of the loop of `process_event`.
unfoldable pub event_round : DeviceResources → M (Host × List QueueState) Bool
event_round r = do
  popped ← pop_at r 2
  elim popped [ none ↦ pure false | some chain ↦ do complete_at r 2 chain 0; pure true ]

unfoldable pub process_event : ℕ → DeviceResources → M (Host × List QueueState) (Unit {0})
unfolding event_round
process_event rounds r = repeat rounds (event_round r)

pub record Flags : Type 0 where
  pub kicked : Bool
  pub down : Bool

unfoldable pub kick : {W : Type 0} → M (W × Flags) (Unit {0})
kick = modify (λ (w, flags). (w, record flags { kicked = true }))

-- What `run` does once it is kicked.
unfoldable pub serve_queues :
    {B : Type 0} → ℕ → VsockDevice B → M ((Host × List QueueState) × B) (Unit {0})
unfolding process_tx process_rx process_event
serve_queues rounds device = do
  process_tx rounds device
  process_rx rounds device
  on_host (process_event rounds device.resources)

-- A round of the loop of `run` behind the wait for a wake-up: whether `run` returns. The wait for
-- the leases is told what the other tasks do meanwhile.
unfoldable pub run_round :
    {B : Type 0}
    → ℕ
    → List (Host → Host)
    → VsockDevice B
    → M (((Host × List QueueState) × B) × Flags) Bool
unfolding serve_queues wait_for_drain
run_round {B} rounds others device = do
  (_, flags) ← get
  let kicked : M (((Host × List QueueState) × B) × Flags) Bool = do
    modify (λ (w, f). (w, record f { kicked = false }))
    on_host (serve_queues rounds device)
    pure false
  let drained = do on_host (on_host (on_host (wait_for_drain others))); pure true
  if flags.down then drained else if flags.kicked then kicked else pure false

-- `VsockDevice::stop`, less the wake-up of `run`.
unfoldable pub stop :
    {B : Type 0}
    → VsockDevice B
    → DeviceDownReason
    → M (((Host × List QueueState) × B) × Flags) (Unit {0})
stop device reason = do
  modify (λ (w, f). (w, record f { down = true }))
  if closes_host_backend reason then on_host (on_rest (modify device.backend.shutdown)) else pure tt
  on_host (on_host (on_host revoke))
