-- ===== src/Memory/Device/Serve.antt =====
-- `process_request` of src/memory.rs: what it does for a request, and that it returns.
use libvirtio.Base.{
  ◌<◌, ◌≡◌, refl, sym, ap, ap₂, subst, ◌∙◌, Bool, true, false, Option, none, some, All,
}
use libvirtio.Outcome.{Outcome, ok, err, panic, hang}
use libvirtio.State.{
  M, continue_with, continue_with-eq-ok, continue_with-settles, on_host-eq-ok, on_rest-eq-ok,
  on_host, on_rest, IsSettled,
}
use libvirtio.Dma.{DmaMemory}
use libvirtio.Dma.Segments.{IsDisjoint}
use libvirtio.Lease.{Host}
use libvirtio.Lease.Write.{NoAlias}
use libvirtio.Queue.{VirtQueue, QueueState, DescriptorChain, pop, complete}
use libvirtio.Queue.Pop.{taken, IsNext, pop-Pops, Pops}
use libvirtio.Queue.Complete.{UsedFits, Completes, complete-Completes}
use libvirtio.Queue.Settled.{complete-IsSettled}
use libvirtio.Device.{Interrupt, DeviceLayout, queue_at, notify, validate_resources}
use libvirtio.Device.Ready.{queue_at-UsedFits, notify-IsSettled}
use libvirtio.Memory.Request.{MemoryRequest, MemoryResponse, parse_request, write_response}
use libvirtio.Memory.Request.Wire.{IsRequestChain}
use libvirtio.Memory.Request.Parse.{
  parse_request-Parses, parse_request-IsSettled, write_response-IsSettled,
}
use libvirtio.Memory.Device.{MemoryDevice, process_request}

-- A request served from the state `h`, `s`, `b`, and the state after it.
pub record Served {B : Type 0} (device : MemoryDevice B) (queue : VirtQueue) (h : Host)
    (s : QueueState) (b : B) (w : (Host × QueueState) × B) : Type 0 where
  pub chain : DescriptorChain
  pub next : IsNext queue device.resources.dma h s.last_available chain
  pub shape : IsRequestChain chain
  pub request : MemoryRequest
  pub parsed : parse_request device.resources.dma chain h ≡ (ok request, h)
  pub response : MemoryResponse
  pub handled : device.backend.handle request b ≡ (ok response, w.1)
  pub between : Host
  pub responded : write_response device.resources.dma chain response h ≡ (ok tt, between)
  pub completed : Completes queue device.resources.dma between (taken s) chain 10 (ok tt, w.0)
  pub notified : notify device.resources 0 (Interrupt.queue 0 0) ≡ ok tt

-- What `process_request` is to do.
abbrev pub Serves :
    {B : Type 0}
    → MemoryDevice B
    → VirtQueue
    → Host
    → QueueState
    → B
    → Outcome Bool × ((Host × QueueState) × B)
    → Type 0
Serves device queue h s b (ok true, w) = Served device queue h s b w
Serves device queue h s b (ok false, w) =
    (w ≡ ((h, s), b)) × Pops queue device.resources.dma h s (ok none, (h, s))
Serves device queue h s b (err e, w) = Unit {0}
Serves device queue h s b (panic, w) = ⊥
Serves device queue h s b (hang, w) = ⊥

module _ {B : Type 0} (device : MemoryDevice B) (queue : VirtQueue)
    (at : queue_at device.resources 0 ≡ ok queue) (v : IsDisjoint device.resources.dma.segments)
    (h : Host) (s : QueueState) (b : B) where
  abbrev dma : DmaMemory
  dma = device.resources.dma

  -- What is left to do once there is a response, and once a chain is popped.
  abbrev answer : DescriptorChain → MemoryResponse → M ((Host × QueueState) × B) Bool
  answer chain response w =
      continue_with (on_host (on_host (write_response dma chain response)) w) λ _ w.
        continue_with (on_host (complete queue dma chain 10) w) λ _ w.
          continue_with (notify device.resources 0 (Interrupt.queue 0 0), w) λ _ w. (ok true, w)

  abbrev serve : DescriptorChain → M ((Host × QueueState) × B) Bool
  serve chain w = continue_with (on_host (on_host (parse_request dma chain)) w) λ request w.
      continue_with (on_rest (device.backend.handle request) w)
        λ response w. answer chain response w

  process_request_lem :
      (o : Outcome (Option DescriptorChain)) (g : Host) (t : QueueState)
      → pop queue dma (h, s) ≡ (o, (g, t))
      → process_request device ((h, s), b)
        ≡ continue_with
            (o, ((g, t), b))
            (λ popped. elim popped [ none ↦ λ w. (ok false, w) | some chain ↦ serve chain ])
  unfolding process_request continue_with
  process_request_lem o g t e = rw (at, e) refl

  module _ (d : NoAlias dma.segments) (fits : UsedFits queue.layout) (chain : DescriptorChain) where
    answered :
        (response : MemoryResponse) (c : B) {x : Bool} {w : (Host × QueueState) × B}
        → answer chain response ((h, taken s), c) ≡ (ok x, w)
        → (x ≡ true)
          × (w.1 ≡ c)
          × (notify device.resources 0 (Interrupt.queue 0 0) ≡ ok tt)
          × (k : Host) × (write_response dma chain response h ≡ (ok tt, k))
          × Completes queue dma k (taken s) chain 10 (ok tt, w.0)
    answered response c {x} {w} e =
        let (_, w3, e3, r3) =
          continue_with-eq-ok
            (on_host (on_host (write_response dma chain response)) ((h, taken s), c)) _ e in
        let (f3, back) =
          on_host-eq-ok (on_host (write_response dma chain response)) (h, taken s) c e3 in
        let (responded, kept) = on_host-eq-ok (write_response dma chain response) h (taken s) f3 in
        let state3 : w3 ≡ ((w3.0.0, taken s), c) = ap₂ (λ t c. ((w3.0.0, t), c)) kept back in
        let (_, w4, e4, r4) =
          continue_with-eq-ok (on_host (complete queue dma chain 10) ((w3.0.0, taken s), c)) _
            (rw state3 at r3) in
        let (completed, back4) =
          on_host-eq-ok (complete queue dma chain 10) (w3.0.0, taken s) c e4 in
        let (_, w5, e5, r5) =
          continue_with-eq-ok (notify device.resources 0 (Interrupt.queue 0 0), w4) _ r4 in
        let final : w4 ≡ w = ap (λ r. r.1) e5 ∙ ap (λ r. r.1) r5 in
        let same : ok true ≡ ok x = ap (λ r. r.0) r5 in
        (
          cc same,
          ap (λ w. w.1) (sym final) ∙ back4,
          ap (λ r. r.0) e5,
          w3.0.0,
          responded,
          subst (λ w. Completes queue dma w3.0.0 (taken s) chain 10 (ok tt, w.0)) final
              (rw completed at (complete-Completes queue dma w3.0.0 (taken s) chain 10 v d fits)),
        )

    serve-Served :
        IsNext queue dma h s.last_available chain
        → {x : Bool} {w : (Host × QueueState) × B} → serve chain ((h, taken s), b) ≡ (ok x, w)
        → (x ≡ true) × Served device queue h s b w
    serve-Served next {x} {w} e =
        let (request, w1, e1, r1) =
          continue_with-eq-ok (on_host (on_host (parse_request dma chain)) ((h, taken s), b)) _ e in
        let (f1, back) = on_host-eq-ok (on_host (parse_request dma chain)) (h, taken s) b e1 in
        let (p1, kept) = on_host-eq-ok (parse_request dma chain) h (taken s) f1 in
        let (same, shape, _, _, _, _) = rw p1 at (parse_request-Parses dma chain h v) in
        let state1 : w1 ≡ ((h, taken s), b) =
          ap₂ (λ p c. (p, c)) (ap₂ (λ g t. (g, t)) same kept) back in
        let (response, w2, e2, r2) =
          continue_with-eq-ok (on_rest (device.backend.handle request) ((h, taken s), b)) _
            (rw state1 at r1) in
        let (handled, kept2) = on_rest-eq-ok (device.backend.handle request) (h, taken s) b e2 in
        let state2 : w2 ≡ ((h, taken s), w2.1) = ap (λ p. (p, w2.1)) kept2 in
        let (true_lem, back2, notified, k, responded, completed) =
          answered response w2.1 (rw state2 at r2) in
        (
          true_lem,
          record {
            chain = chain;
            next = next;
            shape = shape;
            request = request;
            parsed = p1 ∙ ap (λ g. (ok request, g)) same;
            response = response;
            handled = handled ∙ ap (λ c. (ok response, c)) (sym back2);
            between = k;
            responded = responded;
            completed = completed;
            notified = notified;
          },
        )

    module _ (handles : (r : MemoryRequest) (b : B) → IsSettled (device.backend.handle r b).0)
        (notifies : IsSettled (notify device.resources 0 (Interrupt.queue 0 0))) where
      serve-IsSettled : (w : (Host × QueueState) × B) → IsSettled (serve chain w).0
      serve-IsSettled w =
          continue_with-settles (on_host (on_host (parse_request dma chain)) w) _
            (parse_request-IsSettled dma chain v w.0.0)
            λ request w1 e1.
              continue_with-settles (on_rest (device.backend.handle request) w1) _
                (handles request w1.1)
                λ response w2 e2.
                  continue_with-settles (on_host (on_host (write_response dma chain response)) w2) _
                    (write_response-IsSettled dma chain v response w2.0.0 (shape_of w request w1 e1)
                      d)
                    λ _ w3 e3.
                      continue_with-settles (on_host (complete queue dma chain 10) w3) _
                        (complete-IsSettled queue dma v w3.0.0 w3.0.1 chain 10 d fits)
                        λ _ w4 e4.
                          continue_with-settles
                            (notify device.resources 0 (Interrupt.queue 0 0), w4) _ notifies
                            λ _ w5 e5. tt
        where
          shape_of :
              (w : (Host × QueueState) × B) (request : MemoryRequest) (w1 : (Host × QueueState) × B)
              → on_host (on_host (parse_request dma chain)) w ≡ (ok request, w1)
              → IsRequestChain chain
          shape_of w request w1 e =
              let (f, _) = on_host-eq-ok (on_host (parse_request dma chain)) w.0 w.1 e in
              let (p, _) = on_host-eq-ok (parse_request dma chain) w.0.0 w.0.1 f in
              (rw p at (parse_request-Parses dma chain w.0.0 v)).1

      serve-Serves :
          IsNext queue dma h s.last_available chain
          → Serves device queue h s b (serve chain ((h, taken s), b))
      serve-Serves next =
          go (serve chain ((h, taken s), b)) refl (serve-IsSettled ((h, taken s), b))
        where
          go :
              (r : Outcome Bool × ((Host × QueueState) × B))
              → serve chain ((h, taken s), b) ≡ r
              → IsSettled r.0
              → Serves device queue h s b r
          go (ok true, w) e k = (serve-Served next e).1
          go (ok false, w) e k = let (wrong, _) = serve-Served next e in cc
          go (err x, w) e k = tt
          go (panic, w) e k = absurd k
          go (hang, w) e k = absurd k

  module _ (d : NoAlias dma.segments) (fits : UsedFits queue.layout)
      (handles : (r : MemoryRequest) (b : B) → IsSettled (device.backend.handle r b).0)
      (notifies : IsSettled (notify device.resources 0 (Interrupt.queue 0 0))) where
    popped_Serves :
        (r : Outcome (Option DescriptorChain) × (Host × QueueState))
        → pop queue dma (h, s) ≡ r
        → Pops queue dma h s r
        → Serves device queue h s b (process_request device ((h, s), b))
    unfolding continue_with
    popped_Serves (ok none, (g, t)) e (same, kept, index) =
        rw (process_request_lem (ok none) g t e)
          (ap₂ (λ g t. ((g, t), b)) same kept, (refl, refl, index))
    popped_Serves (ok (some chain), (g, t)) e (same, kept, next) =
        rw (process_request_lem (ok (some chain)) g t e, same, kept)
          (serve-Serves d fits chain handles notifies next)
    popped_Serves (err x, (g, t)) e p = rw (process_request_lem (err x) g t e) tt
    popped_Serves (panic, (g, t)) e p = absurd p
    popped_Serves (hang, (g, t)) e p = absurd p

-- `process_request` of a virtio-mem device that has accepted its resources, over disjoint segments
-- of which no two guest addresses share a host address, with a backend and notifiers that return:
-- it returns. If it reports that there was nothing to do, the queue was empty and nothing has
-- changed. If it reports a request served, the next chain was taken and had the shape of a request,
-- the backend was called with the request parsed from it and its answer is the backend's state
-- now, the response was written, the chain was completed with ten bytes, and the monitor was
-- notified.
pub process_request-Serves :
    {B : Type 0} (device : MemoryDevice B) (l : DeviceLayout) (h : Host) (s : QueueState) (b : B)
    → IsDisjoint device.resources.dma.segments
    → NoAlias device.resources.dma.segments
    → validate_resources device.resources l ≡ ok tt
    → 0 < l.queue_count
    → 0 < l.notifier_count
    → ((r : MemoryRequest) (b : B) → IsSettled (device.backend.handle r b).0)
    → All (λ n. (k : Interrupt) → IsSettled (n k)) device.resources.interrupts
    → (queue : VirtQueue) × (queue_at device.resources 0 ≡ ok queue)
      × Serves device queue h s b (process_request device ((h, s), b))
process_request-Serves device l h s b v d accepted queues notifiers handles notifies =
    let (queue, at, fits) = queue_at-UsedFits device.resources l v accepted 0 queues in
    let settled =
      notify-IsSettled device.resources l v accepted 0 (Interrupt.queue 0 0) notifiers notifies in
    (
      queue,
      at,
      popped_Serves device queue at v h s b d fits handles settled
          (pop queue device.resources.dma (h, s)) refl (pop-Pops queue device.resources.dma v h s),
    )
