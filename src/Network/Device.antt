-- ===== src/Network/Device.antt =====
-- src/network.rs: the virtio-net device. Pair `p` has queue 2p for frames to the guest and 2p + 1
-- for frames from it; the last queue is the control queue. The state is the host's, the queues',
-- the backend's, and the pairs', beside the device's two flags.
pub mod Control
use libvirtio.Base.{
  ℕ, zero, suc, ◌+◌, ◌-◌, ◌*◌, ◌/◌, ◌%◌, ◌^◌, Bool, true, false, not, ◌||◌, any, Option, none, some,
  List, [], ◌∷◌, ◌++◌, ltb, leb, ◌==◌, bit_and, bit_or, get_elem?, length, replicate, if◌then◌else◌,
}
use libvirtio.Base.Bytes.{to_le_bytes, from_le_bytes}
use libvirtio.Error.{DeviceError, DeviceDownReason}
use libvirtio.Outcome.{Outcome, ok, err, panic, reject_if, ok_or, expect, ◌>>◌ as then_do}
use libvirtio.State.{M, pure, lift, get, modify, on_host, on_rest, repeat, ◌>>=◌, ◌>>◌}
use libvirtio.Lease.{Host, revoke, wait_for_drain}
use libvirtio.Layout.{is_power_of_two}
use libvirtio.Queue.{QueueState, DescriptorChain, add_u64, new_state}
use libvirtio.Device.{
  Interrupt, DeviceLayout, DeviceResources, notify, pop_at, complete_at, validate_resources,
  closes_host_backend,
}
use libvirtio.Transfer.{copy_at, is_writable}
use libvirtio.Network.Frame.{read_chain_range, write_control_status, read_tx_frame, write_rx_frame}

pub record NetworkBackend (B : Type 0) : Type 0 where
  pub transmit : List ℕ → M B (Unit {0})
  pub has_frame : B → Bool
  pub take_frame : M B (Option (List ℕ))
  pub shutdown : B → B

-- The address has six bytes.
pub record NetworkSpec : Type 0 where
  pub mac : List ℕ
  pub queue_pairs : ℕ
  pub maximum_queue_size : ℕ

-- `mac == [0; 6] || mac[0] & 1 != 0`
abbrev is_bad_mac : List ℕ → Bool
is_bad_mac [] = true
is_bad_mac (b ∷ bs) = not (any (λ c. not (c == 0)) (b ∷ bs)) || not (bit_and b 1 == 0)

-- `NetworkSpec::new`
unfoldable pub new_spec : List ℕ → ℕ → ℕ → Outcome NetworkSpec
new_spec mac pairs size =
    then_do
      (reject_if (pairs == 0 || ltb 65535 pairs)
        (DeviceError.invalid_layout "invalid virtio-net queue pair count"))
      (then_do
        (reject_if (size == 0 || not (is_power_of_two 16 size))
          (DeviceError.invalid_layout "invalid virtio-net queue size"))
        (then_do
          (reject_if (is_bad_mac mac) (DeviceError.invalid_layout "invalid virtio-net MAC address"))
          (ok (record { mac = mac; queue_pairs = pairs; maximum_queue_size = size }))))

-- The status is that the link is up.
unfoldable pub config_bytes : NetworkSpec → List ℕ
config_bytes spec =
    let b = copy_at 0 spec.mac (replicate 10 0) in
    let b = copy_at 6 (to_le_bytes 2 1) b in copy_at 8 (to_le_bytes 2 spec.queue_pairs) b

unfoldable pub layout : NetworkSpec → DeviceLayout
layout spec = record {
  queue_count = spec.queue_pairs * 2 + 1;
  maximum_queue_size = spec.maximum_queue_size;
  notifier_count = spec.queue_pairs * 2 + 2;
  required_features = 2 ^ 32;
  optional_features = bit_or (2 ^ 5) (bit_or (2 ^ 16) (bit_or (2 ^ 17) (2 ^ 22)));
}

pub record NetworkDevice (B : Type 0) : Type 0 where
  pub resources : DeviceResources
  pub backend : NetworkBackend B

pub record Pairs : Type 0 where
  pub active_queue_pairs : ℕ
  pub next_rx_pair : ℕ

pub record Flags : Type 0 where
  pub kicked : Bool
  pub down : Bool

abbrev pub World : Type 0 → Type 0
World B = (Host × List QueueState) × (B × Pairs)

-- `NetworkSpec::activate`: the device, and the states of its queues and of its pairs.
unfoldable pub activate :
    {B : Type 0}
    → NetworkSpec
    → NetworkBackend B
    → DeviceResources
    → Outcome (NetworkDevice B × List QueueState × Pairs)
unfolding layout
activate spec backend resources = then_do (validate_resources resources (layout spec)) (
    ok (
      record { resources = resources; backend = backend },
      replicate (length resources.queues) new_state,
      record { active_queue_pairs = 1; next_rx_pair = 0 },
    ))

unfoldable pub maximum_queue_pairs : DeviceResources → ℕ
maximum_queue_pairs r = (length r.queues - 1) / 2

abbrev pub rx_queue : ℕ → ℕ
rx_queue pair = pair * 2

abbrev pub tx_queue : ℕ → ℕ
tx_queue pair = pair * 2 + 1

abbrev pub control_queue : ℕ → ℕ
control_queue pairs = pairs * 2

-- `u16::try_from(index).expect(…)` stands in the call of the notifier.
unfoldable pub complete_and_notify :
    DeviceResources → ℕ → DescriptorChain → ℕ → M (Host × List QueueState) (Unit {0})
complete_and_notify r index chain used_length = do
  complete_at r index chain used_length
  lift (if ltb index (2 ^ 16) then notify r index (Interrupt.queue index index) else panic)

-- The answer to a control request, and the number of pairs that it activates, if any.
unfoldable pub control_answer : ℕ → ℕ → ℕ × Option ℕ
control_answer maximum pairs =
    if pairs == 0 || ltb maximum pairs then (1, none) else (0, some pairs)

unfoldable pub activate_pairs : {B : Type 0} → Option ℕ → M (World B) (Unit {0})
activate_pairs none = pure tt
activate_pairs (some pairs) =
    on_rest (modify (λ (b, p). (b, record p { active_queue_pairs = pairs })))

unfoldable pub handle_control : {B : Type 0} → NetworkDevice B → DescriptorChain → M (World B) ℕ
handle_control device chain = do
  let dma = device.resources.dma
  lift (
      reject_if (ltb (length chain.descriptors) 2)
        (DeviceError.descriptor "virtio-net control chain is too short"))
  header ← lift (expect (get_elem? chain.descriptors 0))
  lift (
      reject_if (is_writable header || not (header.length == 2))
        (DeviceError.descriptor "invalid virtio-net control header"))
  command ← on_host (on_host (read_chain_range dma header.address 2))
  class ← lift (expect (get_elem? command 0))
  order ← lift (expect (get_elem? command 1))
  if not (class == 4) || not (order == 0) then pure 1 else do
    request ← lift (expect (get_elem? chain.descriptors 1))
    lift (
        reject_if (is_writable request || not (request.length == 2))
          (DeviceError.descriptor "invalid virtio-net queue-pair request"))
    bytes ← on_host (on_host (read_chain_range dma request.address 2))
    let (status, activated) =
        control_answer (maximum_queue_pairs device.resources) (from_le_bytes bytes)
    activate_pairs activated
    pure status

-- A round of the loop of `process_control`.
unfoldable pub control_round : {B : Type 0} → NetworkDevice B → M (World B) Bool
unfolding handle_control complete_and_notify
control_round device = do
  let r = device.resources
  let index = control_queue (maximum_queue_pairs r)
  popped ← on_host (pop_at r index)
  elim popped [
    | none ↦ pure false
    | some chain ↦ do
      status ← handle_control device chain
      on_host (on_host (write_control_status r.dma chain status))
      on_host (complete_and_notify r index chain 1)
      pure true
  ]

-- A round of the inner loop of `process_tx`.
unfoldable pub tx_round : {B : Type 0} → NetworkDevice B → ℕ → M (World B) Bool
unfolding complete_and_notify
tx_round device pair = do
  let r = device.resources
  popped ← on_host (pop_at r (tx_queue pair))
  elim popped [
    | none ↦ pure false
    | some chain ↦ do
      frame ← on_host (on_host (read_tx_frame r.dma chain))
      on_rest (on_host (device.backend.transmit frame))
      on_host (complete_and_notify r (tx_queue pair) chain 0)
      pure true
  ]

-- The outer loop, for `n` pairs from `pair` on.
unfoldable pub tx_pairs : {B : Type 0} → ℕ → NetworkDevice B → ℕ → ℕ → M (World B) (Unit {0})
unfolding tx_round
tx_pairs rounds device pair zero = pure tt
tx_pairs rounds device pair (suc n) =
    let rest = tx_pairs rounds device (pair + 1) n in repeat rounds (tx_round device pair) >> rest

unfoldable pub process_tx : {B : Type 0} → ℕ → NetworkDevice B → M (World B) (Unit {0})
unfolding tx_pairs
process_tx rounds device = do (_, (_, p)) ← get; tx_pairs rounds device 0 p.active_queue_pairs

-- The pair that the next frame goes to; `fetch_add` wraps, and a remainder by 0 is a panic.
unfoldable pub next_pair : {B : Type 0} → M (World B) ℕ
next_pair = do
  (_, (_, p)) ← get
  on_rest (modify (λ (b, q). (b, record q { next_rx_pair = add_u64 q.next_rx_pair 1 })))
  if p.active_queue_pairs == 0 then lift panic else pure (p.next_rx_pair % p.active_queue_pairs)

-- What `process_rx` does with a chain.
unfoldable pub deliver : {B : Type 0} → NetworkDevice B → ℕ → DescriptorChain → M (World B) Bool
unfolding complete_and_notify
deliver device index chain = do
  let r = device.resources
  taken ← on_rest (on_host device.backend.take_frame)
  frame ← lift (ok_or taken (DeviceError.descriptor "virtio-net frame disappeared"))
  used_length ← on_host (on_host (write_rx_frame r.dma chain frame))
  on_host (complete_and_notify r index chain used_length)
  pure true

-- A round of the loop of `process_rx`.
unfoldable pub rx_round : {B : Type 0} → NetworkDevice B → M (World B) Bool
unfolding next_pair deliver
rx_round device = do
  (_, (b, _)) ← get
  if not (device.backend.has_frame b) then pure false else do
    pair ← next_pair
    popped ← on_host (pop_at device.resources (rx_queue pair))
    elim popped [ none ↦ pure false | some chain ↦ deliver device (rx_queue pair) chain ]

-- What `run` does once it is kicked: the control queue, then the frames from and to the guest.
unfoldable pub serve_queues : {B : Type 0} → ℕ → NetworkDevice B → M (World B) (Unit {0})
unfolding control_round process_tx rx_round
serve_queues rounds device = do
  repeat rounds (control_round device)
  process_tx rounds device
  repeat rounds (rx_round device)

unfoldable pub kick : {W : Type 0} → M (W × Flags) (Unit {0})
kick = modify (λ (w, flags). (w, record flags { kicked = true }))

-- A round of the loop of `run` behind the wait for a wake-up: whether `run` returns. The wait for
-- the leases is told what the other tasks do meanwhile.
unfoldable pub run_round :
    {B : Type 0} → ℕ → List (Host → Host) → NetworkDevice B → M (World B × Flags) Bool
unfolding serve_queues wait_for_drain
run_round {B} rounds others device = do
  (_, flags) ← get
  let kicked : M (World B × Flags) Bool = do
    modify (λ (w, f). (w, record f { kicked = false }))
    on_host (serve_queues rounds device)
    pure false
  let drained = do on_host (on_host (on_host (wait_for_drain others))); pure true
  if flags.down then drained else if flags.kicked then kicked else pure false

-- `NetworkDevice::stop`, less the wake-up of `run`.
unfoldable pub stop :
    {B : Type 0} → NetworkDevice B → DeviceDownReason → M (World B × Flags) (Unit {0})
stop device reason = do
  modify (λ (w, f). (w, record f { down = true }))
  if closes_host_backend reason
      then on_host (on_rest (on_host (modify device.backend.shutdown)))
      else pure tt
  on_host (on_host (on_host revoke))
