-- ===== src/Memory/Device/Stop.antt =====
-- `stop` of src/memory.rs, and what a device does once it has been stopped.
use libvirtio.Base.{ℕ, ◌<◌, ◌≡◌, refl, Bool, true, List}
use libvirtio.Error.{DeviceDownReason}
use libvirtio.Outcome.{Outcome, ok, err, panic, hang}
use libvirtio.State.{continue_with}
use libvirtio.Dma.Segments.{IsDisjoint}
use libvirtio.Lease.{Host, is_down, wait_for_drain}
use libvirtio.Lease.Drain.{Drains, wait_for_drain-Drains}
use libvirtio.Queue.{QueueState, VirtQueue}
use libvirtio.Queue.Settled.{pop_revoked}
use libvirtio.Device.{DeviceLayout, closes_host_backend, queue_at, validate_resources}
use libvirtio.Device.Ready.{queue_at-UsedFits}
use libvirtio.Memory.Device.{MemoryDevice, process_request, run_round, stop}

module _ {B : Type 0} (device : MemoryDevice B) where
  -- The state that `stop` leaves: the backend is shut down on a surprise removal only.
  pub stopped : DeviceDownReason → (Host × QueueState) × B → (Host × QueueState) × B
  unfolding closes_host_backend
  stopped DeviceDownReason.surprise_removal ((h, s), b) =
      ((record h { revoked = true }, s), device.backend.shutdown b)
  stopped DeviceDownReason.stop ((h, s), b) = ((record h { revoked = true }, s), b)
  stopped DeviceDownReason.reset ((h, s), b) = ((record h { revoked = true }, s), b)
  stopped DeviceDownReason.revoked ((h, s), b) = ((record h { revoked = true }, s), b)

  stop_lem :
      (reason : DeviceDownReason) (w : (Host × QueueState) × B) (down : Bool)
      → stop device reason (w, down) ≡ (ok tt, (stopped reason w, true))
  unfolding stop stopped closes_host_backend continue_with
  stop_lem DeviceDownReason.surprise_removal w down = refl
  stop_lem DeviceDownReason.stop w down = refl
  stop_lem DeviceDownReason.reset w down = refl
  stop_lem DeviceDownReason.revoked w down = refl

  stopped-revoked :
      (reason : DeviceDownReason) (w : (Host × QueueState) × B)
      → (stopped reason w).0.0.revoked ≡ true
  unfolding stopped
  stopped-revoked DeviceDownReason.surprise_removal w = refl
  stopped-revoked DeviceDownReason.stop w = refl
  stopped-revoked DeviceDownReason.reset w = refl
  stopped-revoked DeviceDownReason.revoked w = refl

  process_request_revoked :
      (queue : VirtQueue) (w : (Host × QueueState) × B)
      → queue_at device.resources 0 ≡ ok queue
      → w.0.0.revoked ≡ true
      → process_request device w ≡ (err is_down, w)
  unfolding process_request continue_with
  process_request_revoked queue w at e =
      rw (at, pop_revoked queue device.resources.dma w.0.0 w.0.1 e) refl

  -- How a round of the loop of `run` is to end for a device that is down, in the state `w`: it
  -- returns once the leases are gone, and changes nothing itself.
  abbrev pub EndsDrained :
      List (Host → Host)
      → (Host × QueueState) × B
      → Outcome Bool × (((Host × QueueState) × B) × Bool)
      → Type 0
  EndsDrained others w (ok more, (((g, s), b), down)) =
      (more ≡ true) × (down ≡ true) × (s ≡ w.0.1) × (b ≡ w.1) × Drains others w.0.0 (ok tt, g)
  EndsDrained others w (err e, t) = ⊥
  EndsDrained others w (panic, t) = ⊥
  EndsDrained others w (hang, (((g, s), b), down)) = Drains others w.0.0 (hang, g)

  drained_lem :
      (others : List (Host → Host)) (w : (Host × QueueState) × B) (r : Outcome (Unit {0}) × Host)
      → Drains others w.0.0 r
      → EndsDrained others w (continue_with (r.0, (((r.1, w.0.1), w.1), true)) λ _ t. (ok true, t))
  unfolding continue_with
  drained_lem others w (ok u, g) d = (refl, refl, refl, refl, d)
  drained_lem others w (err e, g) d = absurd d
  drained_lem others w (panic, g) d = absurd d
  drained_lem others w (hang, g) d = d

  run_round_down :
      (rounds : ℕ) (others : List (Host → Host)) (w : (Host × QueueState) × B)
      → EndsDrained others w (run_round rounds others device (w, true))
  unfolding run_round continue_with
  run_round_down rounds others w =
      drained_lem others w (wait_for_drain others w.0.0) (wait_for_drain-Drains others w.0.0)

  -- `stop` marks the device as down, revokes its memory and, on a surprise removal only, shuts the
  -- backend down; it changes nothing else. The round of the loop of `run` that follows serves
  -- nothing: it looks at the count of leases at once and then at each wake-up, with what other
  -- tasks do in between given as functions on the host; it returns at the first look at which no
  -- lease is live, the host being as the others have left it and the queue's counts and the backend
  -- as `stop` has; and if there is no such look it waits on. A call of `process_request` fails as
  -- revoked and changes nothing. This holds for a device that has accepted its resources over
  -- disjoint segments.
  pub stop-stopped :
      (l : DeviceLayout)
      → IsDisjoint device.resources.dma.segments
      → validate_resources device.resources l ≡ ok tt
      → 0 < l.queue_count
      → (reason : DeviceDownReason) (w : (Host × QueueState) × B) (down : Bool) (rounds : ℕ)
        (others : List (Host → Host))
      → (stop device reason (w, down) ≡ (ok tt, (stopped reason w, true)))
        × EndsDrained others
            (stopped reason w)
            (run_round rounds others device (stopped reason w, true))
        × (process_request device (stopped reason w) ≡ (err is_down, stopped reason w))
  stop-stopped l v accepted queues reason w down rounds others =
      let (queue, at, _) = queue_at-UsedFits device.resources l v accepted 0 queues in
      (
        stop_lem reason w down,
        run_round_down rounds others (stopped reason w),
        process_request_revoked queue (stopped reason w) at (stopped-revoked reason w),
      )
