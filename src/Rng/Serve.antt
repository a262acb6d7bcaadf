-- ===== src/Rng/Serve.antt =====
-- `process_queue` of src/rng.rs: what it does with a chain, and that it returns.
use libvirtio.Base.{
  ℕ, ◌<◌, ◌≡◌, refl, sym, ap, ap₂, subst, ◌∙◌, Bool, true, false, Option, none, some, All,
}
use libvirtio.Outcome.{Outcome, ok, err, panic, hang}
use libvirtio.State.{
  M, continue_with, continue_with-eq-ok, continue_with-settles, on_host-eq-ok, on_host, on_ends,
  on_ends-eq-ok, IsSettled,
}
use libvirtio.Dma.{DmaMemory}
use libvirtio.Dma.Segments.{IsDisjoint}
use libvirtio.Lease.{Host}
use libvirtio.Lease.Write.{NoAlias}
use libvirtio.Queue.{VirtQueue, QueueState, DescriptorChain, pop, complete}
use libvirtio.Queue.Pop.{taken, IsNext, pop-Pops, Pops}
use libvirtio.Queue.Complete.{UsedFits, Completes, complete-Completes}
use libvirtio.Queue.Settled.{complete-IsSettled}
use libvirtio.Device.{Interrupt, DeviceLayout, queue_at, notify, validate_resources}
use libvirtio.Device.Ready.{queue_at-UsedFits, notify-IsSettled}
use libvirtio.Rng.{RngDevice, fill_chain, process_queue}
use libvirtio.Rng.Fill.{FillsChain, fill_chain-FillsChain}

-- A chain served from the state `h`, `position`, `s`, and the state after it.
pub record Served (entropy : ℕ → ℕ) (device : RngDevice) (queue : VirtQueue) (h : Host)
    (position : ℕ) (s : QueueState) (w : (Host × ℕ) × QueueState) : Type 0 where
  pub chain : DescriptorChain
  pub next : IsNext queue device.resources.dma h s.last_available chain
  pub length : ℕ
  pub between : Host
  pub filled :
      FillsChain entropy device.resources.dma chain h position (ok length, (between, w.0.1))
  pub completed :
      Completes queue device.resources.dma between (taken s) chain length (ok tt, (w.0.0, w.1))
  pub notified : notify device.resources 0 (Interrupt.queue 0 0) ≡ ok tt

-- What `process_queue` is to do.
abbrev pub Serves :
    (ℕ → ℕ)
    → RngDevice
    → VirtQueue
    → Host
    → ℕ
    → QueueState
    → Outcome Bool × ((Host × ℕ) × QueueState)
    → Type 0
Serves entropy device queue h position s (ok true, w) = Served entropy device queue h position s w
Serves entropy device queue h position s (ok false, w) =
    (w ≡ ((h, position), s)) × Pops queue device.resources.dma h s (ok none, (h, s))
Serves entropy device queue h position s (err e, w) = Unit {0}
Serves entropy device queue h position s (panic, w) = ⊥
Serves entropy device queue h position s (hang, w) = ⊥

module _ (entropy : ℕ → ℕ) (device : RngDevice) (queue : VirtQueue)
    (at : queue_at device.resources 0 ≡ ok queue) (v : IsDisjoint device.resources.dma.segments)
    (h : Host) (position : ℕ) (s : QueueState) where
  abbrev dma : DmaMemory
  dma = device.resources.dma

  -- What is left to do once a chain is filled, and once it is popped.
  abbrev finish : DescriptorChain → ℕ → M ((Host × ℕ) × QueueState) Bool
  finish chain n w =
      continue_with (on_ends (complete queue dma chain n) w) λ _ w.
        continue_with (notify device.resources 0 (Interrupt.queue 0 0), w) λ _ w. (ok true, w)

  abbrev serve : DescriptorChain → M ((Host × ℕ) × QueueState) Bool
  serve chain w = continue_with (on_host (fill_chain entropy dma chain) w) λ n w. finish chain n w

  process_queue_lem :
      (o : Outcome (Option DescriptorChain)) (g : Host) (t : QueueState)
      → pop queue dma (h, s) ≡ (o, (g, t))
      → process_queue entropy device ((h, position), s)
        ≡ continue_with
            (o, ((g, position), t))
            (λ popped. elim popped [ none ↦ λ w. (ok false, w) | some chain ↦ serve chain ])
  unfolding process_queue continue_with
  process_queue_lem o g t e = rw (at, e) refl

  module _ (d : NoAlias dma.segments) (fits : UsedFits queue.layout) (chain : DescriptorChain) where
    finished :
        (n : ℕ) (k : Host) (q : ℕ) {x : Bool} {w : (Host × ℕ) × QueueState}
        → finish chain n ((k, q), taken s) ≡ (ok x, w)
        → (x ≡ true)
          × (w.0.1 ≡ q)
          × (notify device.resources 0 (Interrupt.queue 0 0) ≡ ok tt)
          × Completes queue dma k (taken s) chain n (ok tt, (w.0.0, w.1))
    finished n k q {x} {w} e =
        let (_, w1, e1, r1) =
          continue_with-eq-ok (on_ends (complete queue dma chain n) ((k, q), taken s)) _ e in
        let (completed, kept) = on_ends-eq-ok (complete queue dma chain n) k q (taken s) e1 in
        let (_, w2, e2, r2) =
          continue_with-eq-ok (notify device.resources 0 (Interrupt.queue 0 0), w1) _ r1 in
        let final : w1 ≡ w = ap (λ r. r.1) e2 ∙ ap (λ r. r.1) r2 in
        let same : ok true ≡ ok x = ap (λ r. r.0) r2 in
        (
          cc same,
          ap (λ w. w.0.1) (sym final) ∙ kept,
          ap (λ r. r.0) e2,
          subst (λ w. Completes queue dma k (taken s) chain n (ok tt, (w.0.0, w.1))) final
              (rw completed at (complete-Completes queue dma k (taken s) chain n v d fits)),
        )

    serve-Served :
        IsNext queue dma h s.last_available chain
        → {x : Bool} {w : (Host × ℕ) × QueueState}
        → serve chain ((h, position), taken s) ≡ (ok x, w)
        → (x ≡ true) × Served entropy device queue h position s w
    serve-Served next {x} {w} e =
        let (n, w1, e1, r1) =
          continue_with-eq-ok (on_host (fill_chain entropy dma chain) ((h, position), taken s)) _
            e in
        let (filled, kept) =
          on_host-eq-ok (fill_chain entropy dma chain) (h, position) (taken s) e1 in
        let fills : FillsChain entropy dma chain h position (ok n, w1.0) =
          rw filled at (fill_chain-FillsChain entropy dma v d chain h position) in
        let state1 : w1 ≡ ((w1.0.0, w1.0.1), taken s) = ap (λ t. (w1.0, t)) kept in
        let (true_lem, place, notified, completed) = finished n w1.0.0 w1.0.1 (rw state1 at r1) in
        (
          true_lem,
          record {
            chain = chain;
            next = next;
            length = n;
            between = w1.0.0;
            filled =
                subst (λ q. FillsChain entropy dma chain h position (ok n, (w1.0.0, q))) (sym place)
                  fills;
            completed = completed;
            notified = notified;
          },
        )

    module _ (notifies : IsSettled (notify device.resources 0 (Interrupt.queue 0 0))) where
      fill_chain-IsSettled :
          (g : Host) (q : ℕ) (r : Outcome ℕ × (Host × ℕ))
          → FillsChain entropy dma chain g q r
          → IsSettled r.0
      fill_chain-IsSettled g q (ok n, w) f = tt
      fill_chain-IsSettled g q (err e, w) f = tt
      fill_chain-IsSettled g q (panic, w) f = absurd f
      fill_chain-IsSettled g q (hang, w) f = absurd f

      serve-IsSettled : (w : (Host × ℕ) × QueueState) → IsSettled (serve chain w).0
      serve-IsSettled w =
          continue_with-settles (on_host (fill_chain entropy dma chain) w) _
            (fill_chain-IsSettled w.0.0 w.0.1 _
              (fill_chain-FillsChain entropy dma v d chain w.0.0 w.0.1))
            λ n w1 e1.
              continue_with-settles (on_ends (complete queue dma chain n) w1) _
                (complete-IsSettled queue dma v w1.0.0 w1.1 chain n d fits)
                λ _ w2 e2.
                  continue_with-settles (notify device.resources 0 (Interrupt.queue 0 0), w2) _
                    notifies λ _ w3 e3. tt

      serve-Serves :
          IsNext queue dma h s.last_available chain
          → Serves entropy device queue h position s (serve chain ((h, position), taken s))
      serve-Serves next =
          go (serve chain ((h, position), taken s)) refl (serve-IsSettled ((h, position), taken s))
        where
          go :
              (r : Outcome Bool × ((Host × ℕ) × QueueState))
              → serve chain ((h, position), taken s) ≡ r
              → IsSettled r.0
              → Serves entropy device queue h position s r
          go (ok true, w) e k = (serve-Served next e).1
          go (ok false, w) e k = let (wrong, _) = serve-Served next e in cc
          go (err x, w) e k = tt
          go (panic, w) e k = absurd k
          go (hang, w) e k = absurd k

  module _ (d : NoAlias dma.segments) (fits : UsedFits queue.layout)
      (notifies : IsSettled (notify device.resources 0 (Interrupt.queue 0 0))) where
    popped_Serves :
        (r : Outcome (Option DescriptorChain) × (Host × QueueState))
        → pop queue dma (h, s) ≡ r
        → Pops queue dma h s r
        → Serves entropy device queue h position s (process_queue entropy device ((h, position), s))
    unfolding continue_with
    popped_Serves (ok none, (g, t)) e (same, kept, index) =
        rw (process_queue_lem (ok none) g t e)
          (ap₂ (λ g t. ((g, position), t)) same kept, (refl, refl, index))
    popped_Serves (ok (some chain), (g, t)) e (same, kept, next) =
        rw (process_queue_lem (ok (some chain)) g t e, same, kept)
          (serve-Serves d fits chain notifies next)
    popped_Serves (err x, (g, t)) e p = rw (process_queue_lem (err x) g t e) tt
    popped_Serves (panic, (g, t)) e p = absurd p
    popped_Serves (hang, (g, t)) e p = absurd p

-- `process_queue` of a virtio-rng device that has accepted its resources, over disjoint segments
-- of which no two guest addresses share a host address, with notifiers that return: it returns. If
-- it reports that there was nothing to do, the queue was empty and nothing has changed. If it
-- reports a chain served, the next chain was taken, all its descriptors are writable and not empty,
-- the bytes at their addresses were overwritten in order with the next bytes of the random source,
-- one for each address and no more drawn, no other byte was changed by that, the chain was
-- completed with their number, which is below 2 ^ 32, and the monitor was notified.
pub process_queue-Serves :
    (entropy : ℕ → ℕ) (device : RngDevice) (l : DeviceLayout) (h : Host) (position : ℕ)
    (s : QueueState)
    → IsDisjoint device.resources.dma.segments
    → NoAlias device.resources.dma.segments
    → validate_resources device.resources l ≡ ok tt
    → 0 < l.queue_count
    → 0 < l.notifier_count
    → All (λ n. (k : Interrupt) → IsSettled (n k)) device.resources.interrupts
    → (queue : VirtQueue) × (queue_at device.resources 0 ≡ ok queue)
      × Serves entropy device queue h position s (process_queue entropy device ((h, position), s))
process_queue-Serves entropy device l h position s v d accepted queues notifiers notifies =
    let (queue, at, fits) = queue_at-UsedFits device.resources l v accepted 0 queues in
    let settled =
      notify-IsSettled device.resources l v accepted 0 (Interrupt.queue 0 0) notifiers notifies in
    (
      queue,
      at,
      popped_Serves entropy device queue at v h position s d fits settled
          (pop queue device.resources.dma (h, s)) refl (pop-Pops queue device.resources.dma v h s),
    )
