-- ===== src/Device.antt =====
-- src/device.rs: what an embedding monitor hands to a device, and its validation; and which ways
-- down close the host's end. `bit_and` is `&` on `u64`.
pub mod Valid
pub mod Ready
pub mod States
use libvirtio.Base.{
  ℕ, ◌+◌, Bool, true, false, not, List, [], ◌∷◌, ltb, ◌==◌, length, get_elem?, set, Option, none,
  some, bit_and,
}
use libvirtio.Error.{DeviceError, DeviceDownReason}
use libvirtio.Outcome.{Outcome, ok, panic, reject_if, expect, ◌>>=◌, ◌>>◌}
use libvirtio.Dma.{DmaMemory}
use libvirtio.Layout.{QueueLayout, validate}
use libvirtio.Lease.{Host}
use libvirtio.Queue.{VirtQueue, QueueState, DescriptorChain, new, pop, complete}
use libvirtio.State.{M, lift, ◌>>=◌ as and_then}

-- src/interrupt.rs
pub data Interrupt : Type 0 where
  queue : ℕ → ℕ → Interrupt
  config : ℕ → Interrupt

-- `Arc<dyn InterruptNotifier>`: the monitor's answer to an interrupt.
abbrev pub Notifier : Type 0
Notifier = Interrupt → Outcome (Unit {0})

pub record DeviceLayout : Type 0 where
  pub queue_count : ℕ
  pub maximum_queue_size : ℕ
  pub notifier_count : ℕ
  pub required_features : ℕ
  pub optional_features : ℕ

pub record DeviceResources : Type 0 where
  pub queues : List QueueLayout
  pub dma : DmaMemory
  pub interrupts : List Notifier
  pub negotiated_features : ℕ

-- The loop over the queues.
unfoldable pub validate_queues : DmaMemory → ℕ → List QueueLayout → Outcome (Unit {0})
validate_queues dma maximum [] = ok tt
validate_queues dma maximum (q ∷ qs) = do
  reject_if (ltb maximum q.size)
      (DeviceError.invalid_queue q.index "queue size exceeds device limit")
  validate q dma
  validate_queues dma maximum qs

-- `DeviceResources::validate`
unfoldable pub validate_resources : DeviceResources → DeviceLayout → Outcome (Unit {0})
validate_resources r layout = do
  reject_if (not (length r.queues == layout.queue_count))
      (DeviceError.invalid_layout "unexpected queue count")
  reject_if (ltb (length r.interrupts) layout.notifier_count)
      (DeviceError.invalid_layout "missing interrupt notifier")
  reject_if
      (not (bit_and r.negotiated_features layout.required_features == layout.required_features))
      (DeviceError.invalid_layout "required feature not negotiated")
  validate_queues r.dma layout.maximum_queue_size r.queues

unfoldable pub closes_host_backend : DeviceDownReason → Bool
closes_host_backend DeviceDownReason.surprise_removal = true
closes_host_backend DeviceDownReason.stop = false
closes_host_backend DeviceDownReason.reset = false
closes_host_backend DeviceDownReason.revoked = false

-- `VirtQueue::new(self.resources.queues[i], &self.resources.dma)?`
unfoldable pub queue_at : DeviceResources → ℕ → Outcome VirtQueue
queue_at r i = do layout ← expect (get_elem? r.queues i); new layout r.dma

-- `self.resources.interrupts[i].notify(interrupt).await?`
unfoldable pub notify : DeviceResources → ℕ → Interrupt → Outcome (Unit {0})
notify r i interrupt = do notifier ← expect (get_elem? r.interrupts i); notifier interrupt

-- A call on `&mut states[i]`.
unfoldable pub on_state : {A : Type 0} → ℕ → M (Host × QueueState) A → M (Host × List QueueState) A
on_state i m (h, states) = elim (get_elem? states i) [
  | none ↦ (panic, (h, states))
  | some s ↦ let (o, (h', s')) = m (h, s) in (o, (h', set states i s'))
]

-- A chain taken from queue `i`, and one given back to it.
unfoldable pub pop_at : DeviceResources → ℕ → M (Host × List QueueState) (Option DescriptorChain)
pop_at r i = and_then (lift (queue_at r i)) λ queue. on_state i (pop queue r.dma)

unfoldable pub complete_at :
    DeviceResources → ℕ → DescriptorChain → ℕ → M (Host × List QueueState) (Unit {0})
complete_at r i chain n =
    and_then (lift (queue_at r i)) λ queue. on_state i (complete queue r.dma chain n)
