-- ===== src/Block/Device.antt =====
-- src/block.rs: the device and the loop of `run`. The state is the host's, the file's, the queues'
-- and what `run` keeps. A request is executed at one moment between the ones at which it is taken
-- and completed; which of those pending is completed next, or that a wake-up comes first, is an
-- event given from outside.
pub mod Schedule
pub mod Idle
pub mod Saturate
use libvirtio.Base.{
  ℕ, zero, suc, ◌+◌, ◌-◌, ◌*◌, ◌^◌, ◌%◌, ◌&&◌, ◌||◌, not, min, Bool, true, false, String, Option,
  none, some, List, [], ◌∷◌, ◌++◌, length, get_elem?, take, drop, replicate, ltb, ◌==◌, bit_and,
  if◌then◌else◌,
}
use libvirtio.Error.{DeviceError, DeviceDownReason}
use libvirtio.Outcome.{Outcome, ok, reject_if, ok_or, expect, ◌>>=◌ as bind, ◌>>◌ as then_do}
use libvirtio.State.{M, pure, lift, modify, on_host, on_ends, ◌>>=◌, ◌>>◌}
use libvirtio.Lease.{Host, revoke, wait_for_drain}
use libvirtio.Queue.{DescriptorChain, QueueState, new, new_state, pop}
use libvirtio.Device.{Interrupt, DeviceResources, on_state, complete_at, validate_resources}
use libvirtio.Block.{BlockRequest, BlockCompletion, BlockSpec, layout, try_u16}
use libvirtio.Block.File.{HostFile}
use libvirtio.Block.Request.{parse_request}
use libvirtio.Block.Execute.{Limits, execute}

pub record BlockDevice (F : Type 0) : Type 0 where
  pub file : HostFile F
  pub resources : DeviceResources
  pub read_only : Bool
  pub capacity : ℕ

-- `BlockDevice::open`, with the states of the queues. The opened file and its length are the
-- operating system's.
unfoldable pub open_device :
    {F : Type 0}
    → (String → Bool → Outcome (HostFile F))
    → (HostFile F → Outcome ℕ)
    → BlockSpec
    → DeviceResources
    → Outcome (BlockDevice F × List QueueState)
open_device open_file file_length spec resources =
    bind (open_file spec.path (not spec.read_only)) λ file. bind (file_length file) λ capacity.
      then_do
        (reject_if (not (capacity == spec.capacity))
          (DeviceError.invalid_layout "block image changed after spec"))
        (ok (
          record {
            file = file;
            resources = resources;
            read_only = spec.read_only;
            capacity = capacity;
          },
          replicate (length resources.queues) new_state,
        ))

-- `BlockSpec::activate`
unfoldable pub activate :
    {F : Type 0}
    → (String → Bool → Outcome (HostFile F))
    → (HostFile F → Outcome ℕ)
    → BlockSpec
    → DeviceResources
    → Outcome (BlockDevice F × List QueueState)
unfolding layout open_device
activate open_file file_length spec resources =
    then_do (validate_resources resources (layout spec))
      (open_device open_file file_length spec resources)

pub record BlockWork : Type 0 where
  pub queue_index : ℕ
  pub chain : DescriptorChain
  pub request : BlockRequest

abbrev pub BlockState : Type 0 → Type 0
BlockState F = (Host × F) × List QueueState

unfoldable pub take_work : {F : Type 0} → BlockDevice F → ℕ → M (BlockState F) (Option BlockWork)
take_work device i = do
  let dma = device.resources.dma
  queue_layout ← lift (
      ok_or (get_elem? device.resources.queues i)
        (DeviceError.invalid_layout "queue index is not configured"))
  queue ← lift (new queue_layout dma)
  popped ← on_ends (on_state i (pop queue dma))
  elim popped [
    | none ↦ pure none
    | some chain ↦ do
      request ← on_host (on_host (parse_request dma chain))
      pure (some (record { queue_index = i; chain = chain; request = request }))
  ]

-- `flush_supported`: whether bit 9 is negotiated.
unfoldable pub limits : {F : Type 0} → BlockDevice F → Limits
limits device = record {
  capacity = device.capacity;
  read_only = device.read_only;
  flush_supported = not (bit_and device.resources.negotiated_features (2 ^ 9) == 0);
}

unfoldable pub execute_work :
    {F : Type 0} → BlockDevice F → Bool → BlockWork → M (BlockState F) (BlockWork × BlockCompletion)
unfolding limits
execute_work device down work = do
  completion ← on_host (execute device.file (limits device) down device.resources.dma work.request)
  pure (work, completion)

unfoldable pub complete_work :
    {F : Type 0} → BlockDevice F → BlockWork × BlockCompletion → M (BlockState F) (Unit {0})
complete_work device (work, completion) = do
  let i = work.queue_index
  on_ends (complete_at device.resources i work.chain completion.used_length)
  notifier ← lift (
      ok_or (get_elem? device.resources.interrupts i)
        (DeviceError.invalid_layout "missing queue interrupt notifier"))
  queue_index ← lift (ok_or (try_u16 i) (DeviceError.invalid_layout "queue index exceeds u16"))
  vector ← lift (ok_or (try_u16 i) (DeviceError.invalid_layout "vector exceeds u16"))
  lift (notifier (Interrupt.queue queue_index vector))

-- `(queues.len() * 4).clamp(1, 64)`, the product not beyond a `usize`
unfoldable pub maximum_inflight : ℕ → ℕ
maximum_inflight queues =
    let wanted = min (queues * 4) (2 ^ 64 - 1) in
    if ltb wanted 1 then 1 else if ltb 64 wanted then 64 else wanted

-- The `for` loop over the queues, with the rounds left: the first work found, and the next queue.
unfoldable pub scan : {S W : Type 0} → (ℕ → M S (Option W)) → ℕ → ℕ → ℕ → M S (Option W × ℕ)
scan take_from queues zero next = pure (none, next)
scan take_from queues (suc rounds) next = do
  work ← take_from (next % queues)
  let next = (next + 1) % 2 ^ 64
  elim work [ none ↦ scan take_from queues rounds next | some w ↦ pure (some w, next) ]

-- The `while` loop that takes work, with the room left among those pending, which is the number of
-- its rounds.
unfoldable pub fill : {S W : Type 0} → (ℕ → M S (Option W)) → ℕ → ℕ → List W → ℕ → M S (List W × ℕ)
unfolding scan
fill take_from queues zero pending next = pure (pending, next)
fill take_from queues (suc room) pending next = do
  (work, next) ← scan take_from queues queues next
  elim work [
    | none ↦ pure (pending, next)
    | some w ↦ fill take_from queues room (pending ++ (w ∷ [])) next
  ]

-- The local variables of `run`.
pub record Run : Type 0 where
  pub pending : List BlockWork
  pub next_queue : ℕ
  pub scan_queues : Bool

abbrev pub started : Run
started = record { pending = []; next_queue = 0; scan_queues = false }

-- What the `select!` waits for: that the pending request at a place is done, and whether the device
-- was down already when its execution began; or a wake-up.
pub data Event : Type 0 where
  done : ℕ → Bool → Event
  woken : Event

-- The arm of a request that is done: it is completed, unless the device is down.
unfoldable pub finish : {F : Type 0} → BlockDevice F → Bool → Bool → Run → ℕ → M (BlockState F) Run
unfolding execute_work complete_work
finish device early down run i = do
  work ← lift (expect (get_elem? run.pending i))
  completion ← execute_work device early work
  let left = record run { pending = take i run.pending ++ drop (i + 1) run.pending }
  let completed = do complete_work device completion; pure (record left { scan_queues = true })
  if down then pure left else completed

-- What follows the work taken in a round: whether `run` returns. The wait for the leases is told
-- what the other tasks do meanwhile.
unfoldable pub settle :
    {F : Type 0}
    → BlockDevice F
    → Bool
    → List (Host → Host)
    → Event
    → Run
    → M (BlockState F) (Bool × Run)
unfolding finish wait_for_drain
settle device down others event run =
    let drained = (do on_host (on_host (wait_for_drain others)); pure (true, run)) in
    if down && length run.pending == 0
    then drained
    else if length run.pending == 0
    then pure (false, run)
    else elim event [
      | Event.woken ↦ pure (false, record run { scan_queues = true })
      | Event.done i early ↦ do run ← finish device early down run i; pure (false, run)
    ]

-- A round of the loop of `run` of a device that is down or not; the wait for a wake-up at its start
-- is over.
unfoldable pub run_round :
    {F : Type 0}
    → BlockDevice F
    → Bool
    → List (Host → Host)
    → Event
    → Run
    → M (BlockState F) (Bool × Run)
unfolding maximum_inflight fill take_work settle
run_round device down others event run = do
  let queues = length device.resources.queues
  let idle = length run.pending == 0
  let scans = not down && (run.scan_queues || idle)
  let room = maximum_inflight queues - length run.pending
  (pending, next) ←
      if scans
      then fill (take_work device) queues room run.pending run.next_queue
      else pure (run.pending, run.next_queue)
  settle device down others event
      (record { pending = pending; next_queue = next; scan_queues = false })

-- `BlockDevice::stop`, less the wake-up of `run`.
unfoldable pub stop : {F : Type 0} → DeviceDownReason → M (BlockState F × Bool) (Unit {0})
stop reason = do modify (λ (w, _). (w, true)); on_host (on_host (on_host revoke))
