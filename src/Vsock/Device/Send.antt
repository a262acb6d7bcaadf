-- ===== src/Vsock/Device/Send.antt =====
-- `process_tx` of src/vsock.rs: what a round of its loop does with a packet, and that it returns.
use libvirtio.Base.{
  ℕ, ◌+◌, ◌-◌, ◌^◌, ◌<◌, ◌≡◌, ◌⊎◌, refl, sym, ap, ap₂, subst, ◌∙◌, Bool, true, false, not, Option,
  none, some, List, arith, All, min, get_elem?, set,
}
use libvirtio.Outcome.{Outcome, ok, err, panic, hang}
use libvirtio.State.{
  M, continue_with, continue_with-eq-ok, continue_with-settles, on_host-eq-ok, on_rest-eq-ok,
  on_host, on_rest, IsSettled, reject_if-IsSettled,
}
use libvirtio.Dma.{DmaMemory}
use libvirtio.Dma.Segments.{IsDisjoint}
use libvirtio.Layout.Valid.{reject_if-eq-ok}
use libvirtio.Lease.{Host}
use libvirtio.Lease.Write.{NoAlias}
use libvirtio.Queue.{VirtQueue, QueueState, DescriptorChain, pop, complete}
use libvirtio.Queue.Pop.{IsNext, pop-Pops, Pops, taken}
use libvirtio.Queue.Complete.{UsedFits, Completes, complete-Completes}
use libvirtio.Queue.Settled.{complete-IsSettled}
use libvirtio.Device.{Interrupt, DeviceLayout, queue_at, complete_at, validate_resources}
use libvirtio.Device.Ready.{queue_at-UsedFits, notify-IsSettled}
use libvirtio.Device.States.{
  set-set, set_same, get_elem?-set_slot, on_state_lem, on_state-eq-ok, on_state-IsSettled,
  pop_at_lem, complete_at_lem,
}
use libvirtio.Vsock.Packet.{VsockPacket, read_packet}
use libvirtio.Vsock.Packet.Read.{ReadsPacket, read_packet-ReadsPacket, read_packet-IsSettled}
use libvirtio.Vsock.Device.{VsockDevice, is_supported, validate_packet_type, notify_queue, tx_round}

-- The types of packets that a driver may send.
abbrev pub IsNegotiated : {B : Type 0} → VsockDevice B → VsockPacket → Type 0
IsNegotiated device p =
    ((p.header.packet_type ≡ 1) × (device.stream_supported ≡ true))
    ⊎ ((p.header.packet_type ≡ 2) × (device.seqpacket_supported ≡ true))

abbrev pub tx_used : VsockPacket → ℕ
tx_used p = min (p.header.length + 44) (2 ^ 32 - 1)

validate_packet_type-IsNegotiated :
    {B : Type 0} (device : VsockDevice B) (p : VsockPacket) {u : Unit {0}}
    → validate_packet_type device p ≡ ok u
    → IsNegotiated device p
unfolding validate_packet_type is_supported
validate_packet_type-IsNegotiated device p e = supported (reject_if-eq-ok _ _ e)
  where
    supported : not (is_supported device p) ≡ false → IsNegotiated device p
    supported k = ground (arith, k)

validate_packet_type-IsSettled :
    {B : Type 0} (device : VsockDevice B) (p : VsockPacket)
    → IsSettled (validate_packet_type device p)
unfolding validate_packet_type
validate_packet_type-IsSettled device p = reject_if-IsSettled _ _

-- A packet sent from the state `h`, `s` of queue 1, `b`, and the state after it.
pub record Sent {B : Type 0} (device : VsockDevice B) (queue : VirtQueue) (h : Host)
    (states : List QueueState) (s : QueueState) (b : B) (w : (Host × List QueueState) × B)
    : Type 0 where
  pub chain : DescriptorChain
  pub next : IsNext queue device.resources.dma h s.last_available chain
  pub packet : VsockPacket
  pub read : ReadsPacket device.resources.dma chain h (ok packet, h)
  pub negotiated : IsNegotiated device packet
  pub received : device.backend.receive_packet packet b ≡ (ok tt, w.1)
  pub state : QueueState
  pub completed :
      Completes queue device.resources.dma h
        (taken s)
        chain
        (tx_used packet)
        (ok tt, (w.0.0, state))
  pub queues : w.0.1 ≡ set states 1 state
  pub notified : notify_queue device 1 ≡ ok tt

-- What a round of `process_tx` is to do.
abbrev pub Sends :
    {B : Type 0}
    → VsockDevice B
    → VirtQueue
    → Host
    → List QueueState
    → QueueState
    → B
    → Outcome Bool × ((Host × List QueueState) × B)
    → Type 0
Sends device queue h states s b (ok true, w) = Sent device queue h states s b w
Sends device queue h states s b (ok false, w) =
    (w ≡ ((h, states), b)) × Pops queue device.resources.dma h s (ok none, (h, s))
Sends device queue h states s b (err e, w) = Unit {0}
Sends device queue h states s b (panic, w) = ⊥
Sends device queue h states s b (hang, w) = ⊥

module _ {B : Type 0} (device : VsockDevice B) (queue : VirtQueue)
    (at : queue_at device.resources 1 ≡ ok queue) (v : IsDisjoint device.resources.dma.segments)
    (h : Host) (states : List QueueState) (s : QueueState) (slot : get_elem? states 1 ≡ some s)
    (b : B) where
  abbrev dma : DmaMemory
  dma = device.resources.dma

  abbrev after : List QueueState
  after = set states 1 (taken s)

  slot_after : get_elem? after 1 ≡ some (taken s)
  slot_after = get_elem?-set_slot states 1 (taken s) slot

  -- What is left to do once the backend has the packet, and once a chain is popped.
  abbrev finish : DescriptorChain → VsockPacket → M ((Host × List QueueState) × B) Bool
  finish chain packet w =
      continue_with (on_host (complete_at device.resources 1 chain (tx_used packet)) w)
        λ _ w. continue_with (notify_queue device 1, w) λ _ w. (ok true, w)

  abbrev hand : DescriptorChain → VsockPacket → M ((Host × List QueueState) × B) Bool
  hand chain packet w =
      continue_with (validate_packet_type device packet, w)
        λ _ w.
          continue_with (on_rest (device.backend.receive_packet packet) w)
            λ _ w. finish chain packet w

  abbrev send : DescriptorChain → M ((Host × List QueueState) × B) Bool
  send chain w =
      continue_with (on_host (on_host (read_packet dma chain)) w) λ packet w. hand chain packet w

  tx_round_lem :
      (o : Outcome (Option DescriptorChain)) (g : Host) (t : QueueState)
      → pop queue dma (h, s) ≡ (o, (g, t))
      → tx_round device ((h, states), b)
        ≡ continue_with
            (o, ((g, set states 1 t), b))
            (λ popped. elim popped [ none ↦ λ w. (ok false, w) | some chain ↦ send chain ])
  unfolding tx_round continue_with
  tx_round_lem o g t e =
      rw
        (
          pop_at_lem device.resources 1 queue at (h, states),
          on_state_lem 1 (pop queue dma) h states s slot,
          e,
        )
        refl

  module _ (d : NoAlias dma.segments) (fits : UsedFits queue.layout) (chain : DescriptorChain) where
    finished :
        (packet : VsockPacket) (c : B) {x : Bool} {w : (Host × List QueueState) × B}
        → finish chain packet ((h, after), c) ≡ (ok x, w)
        → (x ≡ true)
          × (w.1 ≡ c)
          × (notify_queue device 1 ≡ ok tt)
          × (t : QueueState) × (w.0.1 ≡ set states 1 t)
          × Completes queue dma h (taken s) chain (tx_used packet) (ok tt, (w.0.0, t))
    finished packet c {x} {w} e =
        let (_, w1, e1, r1) =
          continue_with-eq-ok
            (on_host (complete_at device.resources 1 chain (tx_used packet)) ((h, after), c)) _ e in
        let (f1, back) =
          on_host-eq-ok (complete_at device.resources 1 chain (tx_used packet)) (h, after) c e1 in
        let (t, p1, kept) =
          on_state-eq-ok 1 (complete queue dma chain (tx_used packet)) h after (taken s) slot_after
            (sym (complete_at_lem device.resources 1 queue at chain (tx_used packet) (h, after))
              ∙ f1) in
        let (_, w2, e2, r2) = continue_with-eq-ok (notify_queue device 1, w1) _ r1 in
        let final : w1 ≡ w = ap (λ r. r.1) e2 ∙ ap (λ r. r.1) r2 in
        let same : ok true ≡ ok x = ap (λ r. r.0) r2 in
        (
          cc same,
          ap (λ w. w.1) (sym final) ∙ back,
          ap (λ r. r.0) e2,
          t,
          ap (λ w. w.0.1) (sym final) ∙ kept ∙ set-set states 1 (taken s) t,
          subst (λ w. Completes queue dma h (taken s) chain (tx_used packet) (ok tt, (w.0.0, t)))
              final
              (rw p1 at (complete-Completes queue dma h (taken s) chain (tx_used packet) v d fits)),
        )

    handed :
        (packet : VsockPacket) {x : Bool} {w : (Host × List QueueState) × B}
        → hand chain packet ((h, after), b) ≡ (ok x, w)
        → IsNegotiated device packet
          × (c : B) × (device.backend.receive_packet packet b ≡ (ok tt, c))
          × (finish chain packet ((h, after), c) ≡ (ok x, w))
    handed packet e =
        let (_, w2, e2, r2) =
          continue_with-eq-ok (validate_packet_type device packet, ((h, after), b)) _ e in
        let state2 : w2 ≡ ((h, after), b) = sym (ap (λ r. r.1) e2) in
        let (_, w3, e3, r3) =
          continue_with-eq-ok (on_rest (device.backend.receive_packet packet) ((h, after), b)) _
            (rw state2 at r2) in
        let (received, kept3) =
          on_rest-eq-ok (device.backend.receive_packet packet) (h, after) b e3 in
        let state3 : w3 ≡ ((h, after), w3.1) = ap (λ p. (p, w3.1)) kept3 in
        (
          validate_packet_type-IsNegotiated device packet (ap (λ r. r.0) e2),
          w3.1,
          received,
          rw state3 at r3,
        )

    reading :
        {x : Bool} {w : (Host × List QueueState) × B}
        → send chain ((h, after), b) ≡ (ok x, w)
        → (packet : VsockPacket) × (ReadsPacket dma chain h (ok packet, h))
          × (hand chain packet ((h, after), b) ≡ (ok x, w))
    reading e =
        let (packet, w1, e1, r1) =
          continue_with-eq-ok (on_host (on_host (read_packet dma chain)) ((h, after), b)) _ e in
        let (f1, back) = on_host-eq-ok (on_host (read_packet dma chain)) (h, after) b e1 in
        let (p1, kept) = on_host-eq-ok (read_packet dma chain) h after f1 in
        let reads : ReadsPacket dma chain h (ok packet, w1.0.0) =
          rw p1 at (read_packet-ReadsPacket dma chain v h) in
        let state1 : w1 ≡ ((h, after), b) =
          ap₂ (λ p c. (p, c)) (ap₂ (λ g t. (g, t)) reads.0 kept) back in
        (packet, subst (λ g. ReadsPacket dma chain h (ok packet, g)) reads.0 reads, rw state1 at r1)

    send-Sent :
        IsNext queue dma h s.last_available chain
        → {x : Bool} {w : (Host × List QueueState) × B} → send chain ((h, after), b) ≡ (ok x, w)
        → (x ≡ true) × Sent device queue h states s b w
    send-Sent next {x} {w} e =
        let (packet, reads, r1) = reading e in
        let (negotiated, c, received, r2) = handed packet r1 in
        let (true_lem, back, notified, t, queues, completed) = finished packet c r2 in
        (
          true_lem,
          record {
            chain = chain;
            next = next;
            packet = packet;
            read = reads;
            negotiated = negotiated;
            received = received ∙ ap (λ c. (ok tt, c)) (sym back);
            state = t;
            completed = completed;
            queues = queues;
            notified = notified;
          },
        )

    module _
        (receives : (p : VsockPacket) (b : B) → IsSettled (device.backend.receive_packet p b).0)
        (notifies : IsSettled (notify_queue device 1)) where
      finish-IsSettled :
          (packet : VsockPacket) (w : (Host × List QueueState) × B)
          → w.0.1 ≡ after
          → IsSettled (finish chain packet w).0
      finish-IsSettled packet w e =
          continue_with-settles (on_host (complete_at device.resources 1 chain (tx_used packet)) w)
            _
            (rw (complete_at_lem device.resources 1 queue at chain (tx_used packet) w.0) (
              on_state-IsSettled 1 (complete queue dma chain (tx_used packet)) w.0.0 w.0.1 (taken s)
                (ap (λ states. get_elem? states 1) e ∙ slot_after)
                (complete-IsSettled queue dma v w.0.0 (taken s) chain (tx_used packet) d fits)))
            λ _ w1 e1. continue_with-settles (notify_queue device 1, w1) _ notifies λ _ w2 e2. tt

      hand-IsSettled :
          (packet : VsockPacket) (w : (Host × List QueueState) × B)
          → w.0.1 ≡ after
          → IsSettled (hand chain packet w).0
      hand-IsSettled packet w e =
          continue_with-settles (validate_packet_type device packet, w) _
            (validate_packet_type-IsSettled device packet)
            λ _ w1 e1.
              continue_with-settles (on_rest (device.backend.receive_packet packet) w1) _
                (receives packet w1.1)
                λ _ w2 e2. finish-IsSettled packet w2 (
                  ap (λ p. p.1)
                    (on_rest-eq-ok (device.backend.receive_packet packet) w1.0 w1.1 e2).1
                  ∙ sym (ap (λ r. r.1.0.1) e1)
                  ∙ e)

      send-IsSettled : IsSettled (send chain ((h, after), b)).0
      send-IsSettled =
          continue_with-settles (on_host (on_host (read_packet dma chain)) ((h, after), b)) _
            (read_packet-IsSettled dma chain v h)
            λ packet w1 e1.
              hand-IsSettled packet w1
                (on_host-eq-ok (read_packet dma chain) h after
                  (on_host-eq-ok (on_host (read_packet dma chain)) (h, after) b e1).0).1

      send-Sends :
          IsNext queue dma h s.last_available chain
          → Sends device queue h states s b (send chain ((h, after), b))
      send-Sends next = go (send chain ((h, after), b)) refl send-IsSettled
        where
          go :
              (r : Outcome Bool × ((Host × List QueueState) × B))
              → send chain ((h, after), b) ≡ r
              → IsSettled r.0
              → Sends device queue h states s b r
          go (ok true, w) e k = (send-Sent next e).1
          go (ok false, w) e k = let (wrong, _) = send-Sent next e in cc
          go (err x, w) e k = tt
          go (panic, w) e k = absurd k
          go (hang, w) e k = absurd k

  module _ (d : NoAlias dma.segments) (fits : UsedFits queue.layout)
      (receives : (p : VsockPacket) (b : B) → IsSettled (device.backend.receive_packet p b).0)
      (notifies : IsSettled (notify_queue device 1)) where
    popped_Sends :
        (r : Outcome (Option DescriptorChain) × (Host × QueueState))
        → pop queue dma (h, s) ≡ r
        → Pops queue dma h s r
        → Sends device queue h states s b (tx_round device ((h, states), b))
    unfolding continue_with
    popped_Sends (ok none, (g, t)) e (same, kept, index) = rw (tx_round_lem (ok none) g t e) (
      ap₂ (λ g t. ((g, set states 1 t), b)) same kept
          ∙ ap (λ states. ((h, states), b)) (set_same states 1 slot),
      (refl, refl, index),
    )
    popped_Sends (ok (some chain), (g, t)) e (same, kept, next) =
        rw (tx_round_lem (ok (some chain)) g t e, same, kept)
          (send-Sends d fits chain receives notifies next)
    popped_Sends (err x, (g, t)) e p = rw (tx_round_lem (err x) g t e) tt
    popped_Sends (panic, (g, t)) e p = absurd p
    popped_Sends (hang, (g, t)) e p = absurd p

-- A round of `process_tx` of a virtio-vsock device that has accepted its resources, over disjoint
-- segments of which no two guest addresses share a host address, with a state for queue 1 and with
-- a backend and notifiers that return: it returns. If it reports that there was nothing to do, the
-- queue was empty and nothing has changed. If it reports a packet sent, the next chain of queue 1
-- was taken and read as a valid packet of a negotiated type, the backend was called with that
-- packet, the chain was completed with the packet's length, and of the queues' states only that of
-- queue 1 has changed.
pub tx_round-Sends :
    {B : Type 0} (device : VsockDevice B) (l : DeviceLayout) (h : Host) (states : List QueueState)
    (s : QueueState) (b : B)
    → IsDisjoint device.resources.dma.segments
    → NoAlias device.resources.dma.segments
    → validate_resources device.resources l ≡ ok tt
    → 1 < l.queue_count
    → 1 < l.notifier_count
    → get_elem? states 1 ≡ some s
    → ((p : VsockPacket) (b : B) → IsSettled (device.backend.receive_packet p b).0)
    → All (λ n. (k : Interrupt) → IsSettled (n k)) device.resources.interrupts
    → (queue : VirtQueue) × (queue_at device.resources 1 ≡ ok queue)
      × Sends device queue h states s b (tx_round device ((h, states), b))
unfolding notify_queue
tx_round-Sends device l h states s b v d accepted queues notifiers slot receives notifies =
    let (queue, at, fits) = queue_at-UsedFits device.resources l v accepted 1 queues in
    let settled =
      notify-IsSettled device.resources l v accepted 1 (Interrupt.queue 1 1) notifiers notifies in
    (
      queue,
      at,
      popped_Sends device queue at v h states s slot b d fits receives settled
          (pop queue device.resources.dma (h, s)) refl (pop-Pops queue device.resources.dma v h s),
    )
