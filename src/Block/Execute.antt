-- ===== src/Block/Execute.antt =====
-- src/block.rs: the execution of a request, over the host's memory and the file.
pub mod Sums
pub mod Leases
pub mod Effect
pub mod Move
pub mod Perform
pub mod Contained
pub mod Complete
pub mod Serve
use libvirtio.Base.{
  ℕ, ◌+◌, ◌-◌, ◌*◌, ◌^◌, ◌||◌, ◌&&◌, not, Bool, true, false, List, [], ◌∷◌, ◌++◌, map, Option, none,
  some, length, get_elem?, ltb, ◌==◌, bit_and, if◌then◌else◌,
}
use libvirtio.Error.{DeviceError, DeviceDownReason}
use libvirtio.Outcome.{Outcome, ok, err, panic, hang, reject_if, ok_or}
use libvirtio.State.{M, pure, lift, on_host, on_rest, ◌>>=◌, ◌>>◌}
use libvirtio.Dma.{DmaPart, DmaMemory, checked_add}
use libvirtio.Dma.Translate.{part_addresses}
use libvirtio.Lease.{Host, write_slice}
use libvirtio.Lease.Write.{poke}
use libvirtio.Lease.Held.{with_lease_on, with_leases}
use libvirtio.Block.{BlockRequestType, BlockRequest, BlockCompletion}
use libvirtio.Block.File.{HostFile}

-- What `execute_blocking` is told of the device.
pub record Limits : Type 0 where
  pub capacity : ℕ
  pub read_only : Bool
  pub flush_supported : Bool

-- `checked_mul` on `u64`
abbrev pub checked_mul : ℕ → ℕ → Option ℕ
checked_mul a b = if ltb (a * b) (2 ^ 64) then some (a * b) else none

-- The two loops that sum the lengths of the parts.
unfoldable pub sum_parts : ℕ → List DmaPart → Option ℕ
sum_parts total [] = some total
sum_parts total (p ∷ ps) = elim (checked_add total p.length) [
  | none ↦ none
  | some sum ↦ sum_parts sum ps
]

unfoldable pub sum_leases : ℕ → List (List DmaPart) → Option ℕ
unfolding sum_parts
sum_leases total [] = some total
sum_leases total (ps ∷ leases) = elim (sum_parts total ps) [
  | none ↦ none
  | some sum ↦ sum_leases sum leases
]

-- The buffers of all the leases, in order: the vector `iovecs`.
unfoldable pub buffers : List (List DmaPart) → List DmaPart
buffers [] = []
buffers (ps ∷ leases) = ps ++ buffers leases

-- The sum of the lengths as a `u32`.
unfoldable pub sum_used : ℕ → List DmaPart → Option ℕ
sum_used total [] = some total
sum_used total (p ∷ ps) =
    if ltb p.length (2 ^ 32) && ltb (total + p.length) (2 ^ 32)
    then sum_used (total + p.length) ps
    else none

-- `preadv` and `pwritev` over the buffers.
unfoldable pub read_into : {F : Type 0} → HostFile F → List DmaPart → ℕ → M (Host × F) (Option ℕ)
read_into file parts at (h, f) =
    let (result, f') = file.preadv (length (part_addresses parts)) at f in
    (ok result.count, (record h { ram = poke h.ram (part_addresses parts) result.placed }, f'))

unfoldable pub write_from : {F : Type 0} → HostFile F → List DmaPart → ℕ → M (Host × F) (Option ℕ)
write_from file parts at (h, f) =
    let (count, f') = file.pwritev (map h.ram (part_addresses parts)) at f in (ok count, (h, f'))

abbrev pub is_output : BlockRequestType → Bool
is_output BlockRequestType.output = true
is_output BlockRequestType.input = false
is_output BlockRequestType.flush = false
is_output (BlockRequestType.unsupported code) = false

-- The arm of a request to read or to write: the status.
unfoldable pub transfer :
    {F : Type 0} → HostFile F → Limits → Bool → ℕ → List (List DmaPart) → M (Host × F) ℕ
unfolding sum_leases buffers read_into write_from
transfer file limits output sector payload = do
  offset ← lift (ok_or (checked_mul sector 512) (DeviceError.descriptor "block sector overflow"))
  length ←
      lift (ok_or (sum_leases 0 payload) (DeviceError.descriptor "block request length overflow"))
  let iovecs = buffers payload
  let move = if output then write_from file iovecs offset else read_into file iovecs offset
  let attempt = do
    lift (
        reject_if (not (ltb (libvirtio.Base.length iovecs) (2 ^ 31)))
          (DeviceError.descriptor "too many block I/O vectors"))
    lift (
        reject_if (not (ltb offset (2 ^ 63)))
          (DeviceError.descriptor "block offset exceeds host off_t"))
    result ← move
    pure (elim result [ none ↦ 1 | some n ↦ if n == length then 0 else 1 ])
  if ltb limits.capacity offset
        || (ltb (limits.capacity - offset) length || (output && limits.read_only))
      then pure 1
      else attempt

-- The arm of a request to flush.
unfoldable pub synchronize :
    {F : Type 0} → HostFile F → Limits → List (List DmaPart) → M (Host × F) ℕ
synchronize file limits payload =
    let sync = do
      lift
          (reject_if (not (length payload == 0)) (DeviceError.descriptor "block flush has payload"))
      synced ← on_rest λ f. let (o, f') = file.sync_data f in (ok o, f')
      pure (elim synced [ none ↦ 1 | some _ ↦ 0 ])
    in if limits.flush_supported then sync else pure 2

-- The status of a request, in `execute_blocking`.
unfoldable pub perform :
    {F : Type 0} → HostFile F → Limits → BlockRequest → List (List DmaPart) → M (Host × F) ℕ
unfolding transfer synchronize
perform file limits request payload = elim request.request_type [
  | BlockRequestType.flush ↦ synchronize file limits payload
  | BlockRequestType.unsupported code ↦ pure 2
  | BlockRequestType.input ↦ transfer file limits false request.sector payload
  | BlockRequestType.output ↦ transfer file limits true request.sector payload
]

abbrev pub is_input : BlockRequestType → Bool
is_input BlockRequestType.input = true
is_input BlockRequestType.output = false
is_input BlockRequestType.flush = false
is_input (BlockRequestType.unsupported code) = false

-- The length to report for a status.
unfoldable pub used_length : BlockRequestType → List (List DmaPart) → ℕ → Option ℕ
unfolding sum_used buffers
used_length ty payload status =
    if status == 0 && is_input ty then sum_used 1 (buffers payload) else some 1

unfoldable pub execute_blocking :
    {F : Type 0}
    → HostFile F
    → Limits
    → BlockRequest
    → List (List DmaPart)
    → M (Host × F) BlockCompletion
unfolding perform used_length
execute_blocking file limits request payload = do
  status ← perform file limits request payload
  used ← lift (
      ok_or (used_length request.request_type payload status)
        (DeviceError.descriptor "used length overflow"))
  pure (record { status = status; used_length = used })

unfoldable pub write_status : List DmaPart → ℕ → M Host (Unit {0})
unfolding write_slice
write_status [] status = lift (err (DeviceError.descriptor "block status lease is malformed"))
write_status (p ∷ q ∷ ps) status =
    lift (err (DeviceError.descriptor "block status lease is malformed"))
write_status (p ∷ []) status = do
  lift (reject_if (not (p.length == 1)) (DeviceError.descriptor "block status lease is malformed"))
  write_slice p (status ∷ [])

abbrev joined : {A : Type 0} → Outcome A → Outcome A
joined (ok a) = ok a
joined (err e) = err e
joined panic = err (DeviceError.worker "panic")
joined hang = hang

-- `spawn_blocking(…).await`: a panic of the worker is an error of the caller.
abbrev pub spawn_blocking : {S A : Type 0} → M S A → M S A
spawn_blocking m s = let (o, s') = m s in (joined o, s')

-- `BlockDevice::check_live`, of the flag as it is at the call.
unfoldable pub check_live : Bool → Outcome (Unit {0})
check_live down = reject_if down (DeviceError.down DeviceDownReason.revoked)

-- `BlockDevice::execute`
unfoldable pub execute :
    {F : Type 0}
    → HostFile F
    → Limits
    → Bool
    → DmaMemory
    → BlockRequest
    → M (Host × F) BlockCompletion
unfolding check_live with_leases with_lease_on execute_blocking write_status
execute file limits down memory request = do
  lift (check_live down)
  with_leases memory request.payload λ payload. with_lease_on memory request.status λ status. do
    on_rest file.clone_handle
    spawn_blocking do
      completion ← execute_blocking file limits request payload
      on_host (write_status status completion.status)
      pure completion
