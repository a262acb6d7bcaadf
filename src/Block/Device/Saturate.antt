-- ===== src/Block/Device/Saturate.antt =====
-- `take_work` of src/block.rs returns, and the loop of `run` that calls it takes what there is.
use libvirtio.Base.{
  ℕ, ◌+◌, ◌*◌, ◌^◌, ◌≤◌, ◌<◌, ◌≡◌, ◌⊎◌, inl, inr, refl, ap, ◌∙◌, Option, none, some, List, length,
  get_elem?, Option-cases, arith, ◌++◌, ◌-◌, length-append, length-set,
}
use libvirtio.Outcome.{Outcome, ok, err, panic, hang, ok_or, expect, >>=-eq-ok}
use libvirtio.State.{
  M, IsSettled, continue_with, continue_with-keeps, continue_with-settles, on_host, on_ends,
}
use libvirtio.Dma.Segments.{IsDisjoint}
use libvirtio.Lease.{Host}
use libvirtio.Queue.{VirtQueue, QueueState, DescriptorChain, new, pop}
use libvirtio.Queue.Pop.{taken}
use libvirtio.Device.{DeviceLayout, queue_at, on_state, validate_resources}
use libvirtio.Device.Ready.{queue_at-UsedFits, get_elem?-lt}
use libvirtio.Queue.Settled.{pop-IsSettled}
use libvirtio.Device.States.{on_state-IsSettled}
use libvirtio.Block.{BlockRequest}
use libvirtio.Block.Request.{parse_request}
use libvirtio.Block.Request.Frame.{ParsesBlock}
use libvirtio.Block.Request.Parse.{parse_request-ParsesBlock}
use libvirtio.Block.Device.{BlockDevice, BlockWork, BlockState, take_work, maximum_inflight, fill}
use libvirtio.Block.Device.Schedule.{fill-Fills, fill_settles}
use libvirtio.Block.Device.Idle.{IsIdle, parse, expect-some, take_work-none}

-- `take_work` keeps as many states of queues as there are, and returns for a queue that has one.
module _ {F : Type 0} (device : BlockDevice F) (l : DeviceLayout)
    (v : IsDisjoint device.resources.dma.segments)
    (accepted : validate_resources device.resources l ≡ ok tt) where
  abbrev HasStates : BlockState F → Type 0
  HasStates w = length w.1 ≡ l.queue_count

  on_state_keeps :
      {A : Type 0} (i : ℕ) (m : M (Host × QueueState) A) (w : BlockState F)
      → HasStates w
      → HasStates (on_ends (on_state i m) w).1
  unfolding on_state
  on_state_keeps i m w h = elim (Option-cases (get_elem? w.1 i)) [
    | inl e ↦ rw (on_state, e) h
    | inr (s, e) ↦ rw (on_state, e) (length-set w.1 i _ ∙ h)
  ]

  parse_keeps :
      (i : ℕ) (popped : Option DescriptorChain) (w : BlockState F)
      → HasStates w
      → HasStates (parse device v i w.0.0 w.0.1 w.1 popped w).1
  parse_keeps i none w h = h
  parse_keeps i (some chain) w h =
      continue_with-keeps HasStates (on_host (on_host (parse_request device.resources.dma chain)) w)
        _ h λ r w k. k

  take_work_keeps : (i : ℕ) (w : BlockState F) → HasStates w → HasStates (take_work device i w).1
  unfolding take_work
  take_work_keeps i w h =
      continue_with-keeps HasStates (ok_or (get_elem? device.resources.queues i) _, w) _ h
        λ q w h.
          continue_with-keeps HasStates (new q device.resources.dma, w) _ h
            λ queue w h.
              continue_with-keeps HasStates
                (on_ends (on_state i (pop queue device.resources.dma)) w) _
                (on_state_keeps i (pop queue device.resources.dma) w h)
                λ popped w h. parse_keeps i popped w h

  parse_request-IsSettled :
      (chain : DescriptorChain) (h : Host) (r : Outcome BlockRequest × Host)
      → ParsesBlock device.resources.dma chain h r
      → IsSettled r.0
  parse_request-IsSettled chain h (ok r, g) p = tt
  parse_request-IsSettled chain h (err e, g) p = tt
  parse_request-IsSettled chain h (panic, g) p = absurd p
  parse_request-IsSettled chain h (hang, g) p = absurd p

  parse_settles :
      (i : ℕ) (popped : Option DescriptorChain) (w : BlockState F)
      → IsSettled (parse device v i w.0.0 w.0.1 w.1 popped w).0
  parse_settles i none w = tt
  parse_settles i (some chain) w =
      continue_with-settles (on_host (on_host (parse_request device.resources.dma chain)) w) _
        (parse_request-IsSettled chain w.0.0 _
          (parse_request-ParsesBlock device.resources.dma chain w.0.0 v))
        λ r w e. tt

  take_work_lem :
      (i : ℕ) (w : BlockState F) (queue : VirtQueue)
      → queue_at device.resources i ≡ ok queue
      → take_work device i w
        ≡ continue_with
            (on_ends (on_state i (pop queue device.resources.dma)) w)
            (parse device v i w.0.0 w.0.1 w.1)
  unfolding take_work queue_at continue_with
  take_work_lem i w queue at =
      let (q, there, made) =
        >>=-eq-ok (expect (get_elem? device.resources.queues i)) (λ q. new q device.resources.dma)
          at in
      rw (expect-some (get_elem? device.resources.queues i) there, made) refl

  take_work_settles :
      (i : ℕ) (w : BlockState F)
      → i < l.queue_count
      → HasStates w
      → IsSettled (take_work device i w).0
  take_work_settles i w lt h =
      let (queue, at, _) = queue_at-UsedFits device.resources l v accepted i lt in
      let (s, slot) = get_elem?-lt w.1 i (rw h lt) in
      rw (take_work_lem i w queue at) (
        continue_with-settles (on_ends (on_state i (pop queue device.resources.dma)) w) _
          (on_state-IsSettled i (pop queue device.resources.dma) w.0.0 w.1 s slot
            (pop-IsSettled queue device.resources.dma v w.0.0 s))
          λ popped t e. parse_settles i popped t)

inflight_bounds : (queues : ℕ) → (1 ≤ maximum_inflight queues) × (maximum_inflight queues ≤ 64)
unfolding maximum_inflight
inflight_bounds queues = (ground arith, ground arith)

-- What the `while` loop of `run` is to do.
abbrev pub Saturates :
    {F : Type 0}
    → BlockDevice F
    → ℕ
    → List BlockWork
    → Outcome (List BlockWork × ℕ) × BlockState F
    → Type 0
Saturates device queues pending (ok (p, n), w) =
    (taken : List BlockWork) × (p ≡ pending ++ taken)
    × (length p ≤ maximum_inflight queues)
    × (1 ≤ maximum_inflight queues)
    × (maximum_inflight queues ≤ 64)
    × ((length p ≡ maximum_inflight queues) ⊎ ((i : ℕ) → i < queues → IsIdle device i w))
Saturates device queues pending (err e, w) = Unit {0}
Saturates device queues pending (panic, w) = ⊥
Saturates device queues pending (hang, w) = ⊥

module _ {F : Type 0} (device : BlockDevice F) (l : DeviceLayout)
    (v : IsDisjoint device.resources.dma.segments)
    (accepted : validate_resources device.resources l ≡ ok tt) (pending : List BlockWork)
    (few : length pending ≤ maximum_inflight l.queue_count) where
  abbrev room : ℕ
  room = maximum_inflight l.queue_count - length pending

  saturated :
      (next : ℕ) (w : BlockState F)
      → next + l.queue_count * room ≤ 2 ^ 64
      → (r : Outcome (List BlockWork × ℕ) × BlockState F)
      → fill (take_work device) l.queue_count room pending next w ≡ r
      → IsSettled r.0
      → Saturates device l.queue_count pending r
  saturated next w small (ok (p, n), w') e k =
      let (taken, added, bound, ends) =
        fill-Fills (take_work device) l.queue_count
          (λ i ((h, f), states) t k. (take_work-none device v i h f states k).0) room next pending w
          w' p n e small in
      let total = ap length added ∙ length-append pending taken in
      let (least, most) = inflight_bounds l.queue_count in
      (
        taken,
        added,
        omega (arith, few, bound, total),
        least,
        most,
        elim ends [
          | inl full ↦ inl (omega (arith, few, full, total))
          | inr quiet ↦ inr (λ i lt. (take_work-none device v i w'.0.0 w'.0.1 w'.1 (quiet i lt)).1)
        ],
      )
  saturated next w small (err x, w') e k = tt
  saturated next w small (panic, w') e k = absurd k
  saturated next w small (hang, w') e k = absurd k

  -- The `while` loop of `run` that takes work, for a virtio-blk device that has accepted its
  -- resources, over disjoint segments, with a state for each of its queues, of which there is one
  -- at least, with no more pending than the bound, and while the counter of queues is not about to
  -- wrap at 2 ^ 64: it returns. If it reports no error, what it has taken stands behind what was
  -- pending, no more is pending than the bound, which is between 1 and 64, and either as much is
  -- pending as the bound allows or no queue has anything left that the driver has made available.
  pub fill-Saturates :
      (next : ℕ) (w : BlockState F)
      → 0 < l.queue_count
      → length w.1 ≡ l.queue_count
      → next + l.queue_count * room ≤ 2 ^ 64
      → Saturates device l.queue_count pending
          (fill (take_work device) l.queue_count room pending next w)
  fill-Saturates next w some_queue states small = saturated next w small _ refl (
      fill_settles (take_work device) l.queue_count some_queue (HasStates device l v accepted)
        (take_work_keeps device l v accepted) (take_work_settles device l v accepted) room next
        pending w states)
