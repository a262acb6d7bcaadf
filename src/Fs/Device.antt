-- ===== src/Fs/Device.antt =====
-- src/fs.rs: the device and the loop of `run`. The state is the host's, the file system's, the
-- inode table, the queues' and what `run` keeps. A request is executed at one moment between the
-- ones at which it is taken and completed, and an event says which comes next.
pub mod Reply
use libvirtio.Base.{
  ℕ, zero, suc, ◌+◌, ◌-◌, ◌^◌, ◌&&◌, ◌||◌, not, min, Bool, true, false, Option, none, some, List,
  [], ◌∷◌, ◌++◌, length, get_elem?, take, drop, replicate, ltb, ◌==◌, if◌then◌else◌,
}
use libvirtio.Error.{DeviceError, DeviceDownReason}
use libvirtio.Outcome.{
  Outcome, ok, err, panic, hang, reject_if, ok_or, expect, ◌>>=◌ as bind, ◌>>◌ as then_do,
}
use libvirtio.State.{M, pure, lift, modify, on_host, on_rest, on_ends, ◌>>=◌, ◌>>◌}
use libvirtio.Dma.{DmaRange, DmaPart, DmaMemory, checked_add}
use libvirtio.Lease.{Host, with_lease, read_parts, write_slice, revoke, wait_for_drain}
use libvirtio.Queue.{Descriptor, DescriptorChain, QueueState, new, new_state, pop, complete}
use libvirtio.Transfer.{is_writable}
use libvirtio.Device.{Interrupt, DeviceResources, on_state, validate_resources}
use libvirtio.Block.{try_u16}
use libvirtio.Block.Device.{Event, maximum_inflight, fill}
use libvirtio.Fs.{FsSpec, PathBuf, layout, try_u32}
use libvirtio.Fs.Inodes.{FsInodes, new_inodes}
use libvirtio.Fs.Request.{Errno, execute_request}
use libvirtio.Fs.Request.Names.{HostFs}

unfoldable pub descriptor_range : ℕ → ℕ → Outcome DmaRange
descriptor_range address n =
    then_do (reject_if (n == 0) (DeviceError.descriptor "zero-length virtio-fs descriptor"))
      (ok (record { gpa = address; length = n }))

unfoldable pub read_range : DmaMemory → DmaRange → M Host (List ℕ)
read_range memory range = with_lease memory range read_parts

-- The loop of `parse_chain`, with the request and the ranges of the reply so far.
unfoldable pub sort_descriptors :
    DmaMemory → List Descriptor → List ℕ → List DmaRange → M Host (List ℕ × List DmaRange)
unfolding descriptor_range read_range
sort_descriptors memory [] request reply = pure (request, reply)
sort_descriptors memory (d ∷ ds) request reply = do
  range ← lift (descriptor_range d.address d.length)
  let answered = sort_descriptors memory ds request (reply ++ (range ∷ []))
  let asked = do
    bytes ← read_range memory range
    sort_descriptors memory ds (request ++ bytes) reply
  if is_writable d then answered else asked

abbrev pub has_none : List DmaRange → Bool
has_none [] = true
has_none (r ∷ rs) = false

unfoldable pub parse_chain : DmaMemory → DescriptorChain → M Host (List ℕ × List DmaRange)
unfolding sort_descriptors
parse_chain memory chain = do
  (request, reply) ← sort_descriptors memory chain.descriptors [] []
  lift (
      reject_if (ltb (length request) 40 || has_none reply)
        (DeviceError.descriptor "invalid virtio-fs descriptor directions"))
  pure (request, reply)

-- The sum of the lengths, none if it exceeds a `usize`.
unfoldable pub reply_capacity : ℕ → List DmaRange → Option ℕ
reply_capacity total [] = some total
reply_capacity total (r ∷ rs) = elim (checked_add total r.length) [
  | none ↦ none
  | some total ↦ reply_capacity total rs
]

-- The loops of `write_reply`: how much is copied, up to where all of the reply is.
unfoldable pub copy_parts : List ℕ → ℕ → List DmaPart → M Host ℕ
unfolding write_slice
copy_parts reply copied [] = pure copied
copy_parts reply copied (p ∷ ps) = do
  let n = min (length reply - copied) p.length
  write_slice p (take n (drop copied reply))
  let rest = copy_parts reply (copied + n) ps
  if copied + n == length reply then pure (copied + n) else rest

unfoldable pub copy_ranges : DmaMemory → List ℕ → ℕ → List DmaRange → M Host ℕ
unfolding copy_parts
copy_ranges memory reply copied [] =
    lift (err (DeviceError.descriptor "short virtio-fs reply write"))
copy_ranges memory reply copied (r ∷ rs) = do
  copied ← with_lease memory r (copy_parts reply copied)
  let rest = copy_ranges memory reply copied rs
  if copied == length reply then pure copied else rest

unfoldable pub write_reply : DmaMemory → List DmaRange → List ℕ → M Host ℕ
unfolding reply_capacity copy_ranges
write_reply memory ranges [] = pure 0
write_reply memory ranges (b ∷ bs) = do
  let reply = b ∷ bs
  capacity ←
      lift (
        ok_or (reply_capacity 0 ranges)
          (DeviceError.descriptor "virtio-fs reply capacity overflow"))
  lift (
      reject_if (ltb capacity (length reply))
        (DeviceError.descriptor "virtio-fs reply does not fit descriptors"))
  copied ← copy_ranges memory reply 0 ranges
  lift (ok_or (try_u32 copied) (DeviceError.descriptor "virtio-fs reply too large"))

pub record FsDevice (F : Type 0) : Type 0 where
  pub host : HostFs F
  pub errno : Errno
  pub root : PathBuf
  pub resources : DeviceResources

pub record FsWork : Type 0 where
  pub queue_index : ℕ
  pub chain : DescriptorChain
  pub request : List ℕ
  pub reply : List DmaRange

pub record FsCompletion : Type 0 where
  pub work : FsWork
  pub reply : List ℕ

abbrev pub FsState : Type 0 → Type 0
FsState F = (Host × (F × FsInodes)) × List QueueState

-- `FsDevice::new`, with the inode table and the states of the queues.
unfoldable pub new_device :
    {F : Type 0}
    → HostFs F
    → Errno
    → FsSpec
    → DeviceResources
    → FsDevice F × (FsInodes × List QueueState)
unfolding new_inodes
new_device host errno spec resources = (
  record { host = host; errno = errno; root = spec.root; resources = resources },
  (new_inodes spec.root, replicate (length resources.queues) new_state),
)

-- `FsSpec::activate`
unfoldable pub activate :
    {F : Type 0}
    → HostFs F
    → Errno
    → FsSpec
    → DeviceResources
    → Outcome (FsDevice F × (FsInodes × List QueueState))
unfolding layout new_device
activate host errno spec resources =
    then_do (validate_resources resources (layout spec)) (ok (new_device host errno spec resources))

unfoldable pub check_live : Bool → Outcome (Unit {0})
check_live down = reject_if down (DeviceError.down DeviceDownReason.revoked)

unfoldable pub take_work : {F : Type 0} → FsDevice F → ℕ → M (FsState F) (Option FsWork)
unfolding parse_chain
take_work device i = do
  let dma = device.resources.dma
  queue_layout ← lift (expect (get_elem? device.resources.queues i))
  queue ← lift (new queue_layout dma)
  popped ← on_ends (on_state i (pop queue dma))
  elim popped [
    | none ↦ pure none
    | some chain ↦ do
      (request, reply) ← on_host (on_host (parse_chain dma chain))
      pure (some (record { queue_index = i; chain = chain; request = request; reply = reply }))
  ]

-- A panic of the blocking task is an error of its worker.
abbrev pub joined : {A : Type 0} → Outcome A → Outcome A
joined (ok a) = ok a
joined (err e) = err e
joined panic = err (DeviceError.worker "task panicked")
joined hang = hang

abbrev pub spawn_blocking : {S A : Type 0} → M S A → M S A
spawn_blocking m s = let (o, s') = m s in (joined o, s')

unfoldable pub execute_work : {F : Type 0} → FsDevice F → Bool → FsWork → M (FsState F) FsCompletion
unfolding check_live
execute_work device down work = do
  lift (check_live down)
  reply ←
      on_host (
        on_rest
          (spawn_blocking (execute_request device.host device.errno device.root work.request)))
  pure (record { work = work; reply = reply })

unfoldable pub complete_work : {F : Type 0} → FsDevice F → FsCompletion → M (FsState F) (Unit {0})
unfolding write_reply
complete_work device completion = do
  let dma = device.resources.dma
  let work = completion.work
  let i = work.queue_index
  used_length ← on_host (on_host (write_reply dma work.reply completion.reply))
  queue_layout ← lift (expect (get_elem? device.resources.queues i))
  queue ← lift (new queue_layout dma)
  on_ends (on_state i (complete queue dma work.chain used_length))
  notifier ← lift (
      ok_or (get_elem? device.resources.interrupts i)
        (DeviceError.invalid_layout "missing virtio-fs interrupt notifier"))
  queue_index ← lift (ok_or (try_u16 i) (DeviceError.invalid_layout "queue index exceeds u16"))
  vector ← lift (ok_or (try_u16 i) (DeviceError.invalid_layout "queue vector exceeds u16"))
  lift (notifier (Interrupt.queue queue_index vector))

-- The local variables of `run`.
pub record Run : Type 0 where
  pub pending : List FsWork
  pub next_queue : ℕ
  pub scan_queues : Bool

abbrev pub started : Run
started = record { pending = []; next_queue = 0; scan_queues = false }

-- The arm of a request that is done: it is completed, unless the device is down.
unfoldable pub finish : {F : Type 0} → FsDevice F → Bool → Bool → Run → ℕ → M (FsState F) Run
unfolding execute_work complete_work
finish device early down run i = do
  work ← lift (expect (get_elem? run.pending i))
  completion ← execute_work device early work
  let left = record run { pending = take i run.pending ++ drop (i + 1) run.pending }
  let completed = do complete_work device completion; pure (record left { scan_queues = true })
  if down then pure left else completed

-- What follows the work taken in a round: whether `run` returns. The wait for the leases is told
-- what the other tasks do meanwhile.
unfoldable pub settle :
    {F : Type 0} → FsDevice F → Bool → List (Host → Host) → Event → Run → M (FsState F) (Bool × Run)
unfolding finish wait_for_drain
settle device down others event run =
    let drained = (do on_host (on_host (wait_for_drain others)); pure (true, run)) in
    if down && length run.pending == 0
    then drained
    else if length run.pending == 0
    then pure (false, run)
    else elim event [
      | Event.woken ↦ pure (false, record run { scan_queues = true })
      | Event.done i early ↦ do run ← finish device early down run i; pure (false, run)
    ]

-- A round of the loop of `run` of a device that is down or not; the wait for a wake-up at its start
-- is over.
unfoldable pub run_round :
    {F : Type 0} → FsDevice F → Bool → List (Host → Host) → Event → Run → M (FsState F) (Bool × Run)
unfolding maximum_inflight fill take_work settle
run_round device down others event run = do
  let queues = length device.resources.queues
  let idle = length run.pending == 0
  let scans = not down && (run.scan_queues || idle)
  let room = maximum_inflight queues - length run.pending
  (pending, next) ←
      if scans
      then fill (take_work device) queues room run.pending run.next_queue
      else pure (run.pending, run.next_queue)
  settle device down others event
      (record { pending = pending; next_queue = next; scan_queues = false })

-- `FsDevice::stop`, less the wake-up of `run`.
unfoldable pub stop : {F : Type 0} → DeviceDownReason → M (FsState F × Bool) (Unit {0})
stop reason = do modify (λ (w, _). (w, true)); on_host (on_host (on_host revoke))
