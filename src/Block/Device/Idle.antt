-- ===== src/Block/Device/Idle.antt =====
-- `take_work` of src/block.rs: what it takes of a queue.
use libvirtio.Base.{
  ℕ, ◌≡◌, inl, inr, refl, sym, ap, ap₂, ◌∙◌, Option, none, some, List, get_elem?, set, Option-cases,
}
use libvirtio.Error.{DeviceError}
use libvirtio.Outcome.{ok, ok_or, expect}
use libvirtio.State.{
  M, continue_with, continue_with-eq-ok, lift-eq-ok, on_host, on_ends, on_ends-eq-ok,
}
use libvirtio.Dma.Segments.{IsDisjoint}
use libvirtio.Lease.{Host}
use libvirtio.Queue.{VirtQueue, QueueState, DescriptorChain, new, pop}
use libvirtio.Queue.Pop.{Pops, pop-Pops}
use libvirtio.Device.{queue_at, on_state}
use libvirtio.Device.States.{on_state-eq-ok, set_same}
use libvirtio.Block.Request.{parse_request}
use libvirtio.Block.Device.{BlockDevice, BlockWork, BlockState, take_work}

-- The driver has made nothing available in queue `i` that has not been taken.
abbrev pub IsIdle : {F : Type 0} → BlockDevice F → ℕ → BlockState F → Type 0
IsIdle device i ((h, f), states) =
    (queue : VirtQueue) × (queue_at device.resources i ≡ ok queue)
    × (s : QueueState) × (get_elem? states i ≡ some s)
    × Pops queue device.resources.dma h s (ok none, (h, s))

pub some_of : {A : Type 0} (o : Option A) (e : DeviceError) {a : A} → ok_or o e ≡ ok a → o ≡ some a
some_of none e k = cc
some_of (some b) e k = cc

pub expect-some : {A : Type 0} (o : Option A) {a : A} → expect o ≡ ok a → o ≡ some a
expect-some none k = cc
expect-some (some b) k = cc

on_state_slot :
    {A : Type 0} (i : ℕ) (m : M (Host × QueueState) A) (h : Host) (states : List QueueState) {a : A}
    {w : Host × List QueueState}
    → on_state i m (h, states) ≡ (ok a, w)
    → (s : QueueState) × (get_elem? states i ≡ some s)
unfolding on_state
on_state_slot i m h states e = elim (Option-cases (get_elem? states i)) [
  | inl missing ↦ let wrong = rw (on_state, missing) at e in cc
  | inr found ↦ found
]

module _ {F : Type 0} (device : BlockDevice F) (v : IsDisjoint device.resources.dma.segments)
    (i : ℕ) (h : Host) (f : F) (states : List QueueState) where
  -- What is done with what is popped.
  abbrev pub parse : Option DescriptorChain → M (BlockState F) (Option BlockWork)
  parse popped = elim popped [
    | none ↦ λ w. (ok none, w)
    | some chain ↦ λ w.
        continue_with (on_host (on_host (parse_request device.resources.dma chain)) w)
          λ r w. (ok (some (record { queue_index = i; chain = chain; request = r })), w)
  ]

  abbrev missing : DeviceError
  missing = DeviceError.invalid_layout "queue index is not configured"

  taken_apart :
      {o : Option BlockWork} {w : BlockState F}
      → take_work device i ((h, f), states) ≡ (ok o, w)
      → (queue : VirtQueue) × (queue_at device.resources i ≡ ok queue)
        × (popped : Option DescriptorChain) × (w' : BlockState F) × (on_ends
              (on_state i (pop queue device.resources.dma))
              ((h, f), states)
            ≡ (ok popped, w'))
        × (parse popped w' ≡ (ok o, w))
  unfolding take_work queue_at
  taken_apart e =
      let (q, there, r1) =
        lift-eq-ok (ok_or (get_elem? device.resources.queues i) missing) ((h, f), states) _ e in
      let (queue, made, r2) = lift-eq-ok (new q device.resources.dma) ((h, f), states) _ r1 in
      let (popped, w3, e3, r3) =
        continue_with-eq-ok (on_ends (on_state i (pop queue device.resources.dma)) ((h, f), states))
          _ r2 in
      (queue, rw (some_of _ missing there) made, popped, w3, e3, r3)

  -- What a pop that succeeds leaves, with the slot of the queue.
  popped_apart :
      (queue : VirtQueue) {popped : Option DescriptorChain} {w : BlockState F}
      → on_ends (on_state i (pop queue device.resources.dma)) ((h, f), states) ≡ (ok popped, w)
      → (s : QueueState) × (get_elem? states i ≡ some s)
        × (t : QueueState) × (w ≡ ((w.0.0, f), set states i t))
        × Pops queue device.resources.dma h s (ok popped, (w.0.0, t))
  popped_apart queue {popped} {w} e =
      let (e1, kept) = on_ends-eq-ok (on_state i (pop queue device.resources.dma)) h f states e in
      let (s, slot) = on_state_slot i (pop queue device.resources.dma) h states e1 in
      let (t, p, moved) = on_state-eq-ok i (pop queue device.resources.dma) h states s slot e1 in
      (
        s,
        slot,
        t,
        ap₂ (λ f states. ((w.0.0, f), states)) kept moved,
        rw p at (pop-Pops queue device.resources.dma v h s),
      )

  pub take_work-none :
      {w : BlockState F}
      → take_work device i ((h, f), states) ≡ (ok none, w)
      → (w ≡ ((h, f), states)) × IsIdle device i ((h, f), states)
  take_work-none e =
      let (queue, at, popped, w', e1, r) = taken_apart e in none_of queue at popped w' e1 r
    where
      none_of :
          {w : BlockState F} (queue : VirtQueue)
          → queue_at device.resources i ≡ ok queue
          → (popped : Option DescriptorChain) (w' : BlockState F)
          → on_ends (on_state i (pop queue device.resources.dma)) ((h, f), states) ≡ (ok popped, w')
          → parse popped w' ≡ (ok none, w)
          → (w ≡ ((h, f), states)) × IsIdle device i ((h, f), states)
      none_of queue at none w' e1 r =
          let (s, slot, t, moved, (same, kept, index)) = popped_apart queue e1 in
          (
            sym (ap (λ r. r.1) r)
                ∙ moved
                ∙ ap₂ (λ g t. ((g, f), set states i t)) same kept
                ∙ ap (λ states. ((h, f), states)) (set_same states i slot),
            (queue, at, s, slot, (refl, refl, index)),
          )
      none_of queue at (some chain) w' e1 r =
          let (_, _, _, wrong) =
            continue_with-eq-ok (on_host (on_host (parse_request device.resources.dma chain)) w') _
              r in
          cc
