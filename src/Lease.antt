-- ===== src/Lease.antt =====
-- src/dma.rs: leases on guest memory and what is read and written through them. The state is the
-- host's: the bytes at host addresses, and the lease state that every handle on the memory shares.
-- A lease lives until the end of the block that takes it, so it is a bracket round the block.
-- The count of live leases is unbounded here; each of them takes host memory.
pub mod Read
pub mod Write
pub mod Held
pub mod Drain
use libvirtio.Base.{
  ℕ, ◌+◌, ◌-◌, Bool, true, List, [], ◌∷◌, ◌++◌, map, ◌==◌, leb, length, take, drop, if◌then◌else◌,
  range_from,
}
use libvirtio.Error.{DeviceError, DeviceDownReason}
use libvirtio.Outcome.{Outcome, ok, err, panic, hang}
use libvirtio.State.{M, pure, lift, get, modify, ◌>>=◌, ◌>>◌}
use libvirtio.Dma.{DmaRange, DmaPart, DmaMemory, translate}

pub record Host : Type 0 where
  pub ram : ℕ → ℕ
  pub revoked : Bool
  pub active : ℕ

abbrev pub is_down : DeviceError
is_down = DeviceError.down DeviceDownReason.revoked

-- `DmaMemory::is_revoked`
abbrev pub is_revoked : M Host Bool
is_revoked h = (ok h.revoked, h)

-- `DmaMemory::revoke`
abbrev pub revoke : M Host (Unit {0})
revoke = modify (λ h. record h { revoked = true })

-- `DmaLease::drop_active`, less the wake-up of the tasks that wait for the count to reach 0.
abbrev pub drop_active : M Host (Unit {0})
drop_active = modify (λ h. record h { active = h.active - 1 })

-- `DmaMemory::wait_for_drain`. What the other tasks do to the host between a look at the count and
-- the wake-up that follows is given from outside, and so is how many wake-ups there are: a wait for
-- one that does not come is without end.
unfoldable pub wait_for_drain : List (Host → Host) → M Host (Unit {0})
wait_for_drain [] = do h ← get; if h.active == 0 then pure tt else lift hang
wait_for_drain (others ∷ later) = do
  h ← get
  let waited = do modify others; wait_for_drain later
  if h.active == 0 then pure tt else waited

abbrev settle : Outcome (List DmaPart) → M Host (List DmaPart)
settle (ok parts) = pure parts
settle (err e) = drop_active >> lift (err e)
settle panic = lift panic
settle hang = lift hang

-- `DmaMemory::lease`. The flag is read before and after the count goes up.
unfoldable pub lease : DmaMemory → DmaRange → M Host (List DmaPart)
lease memory r = do
  revoked ← is_revoked
  if revoked then lift (err is_down) else do
    modify (λ h. record h { active = h.active + 1 })
    revoked' ← is_revoked
    if revoked' then (drop_active >> lift (err is_down)) else settle (translate memory r)

abbrev release : {A : Type 0} → Outcome A × Host → Outcome A × Host
release (o, h) = (o, record h { active = h.active - 1 })

-- A block that holds a lease: the lease is dropped on every way out of the block.
unfoldable pub with_lease :
    {A : Type 0} → DmaMemory → DmaRange → (List DmaPart → M Host A) → M Host A
unfolding lease
with_lease memory r body = do parts ← lease memory r; λ h. release (body parts h)

-- `DmaPart::read_slice`
unfoldable pub read_slice : DmaPart → M Host (List ℕ)
read_slice p h = (ok (map h.ram (range_from p.base p.length)), h)

abbrev pub update : (ℕ → ℕ) → ℕ → ℕ → ℕ → ℕ
update ram a b c = if a == c then b else ram c

-- The bytes written from host address `a` on.
unfoldable pub store : (ℕ → ℕ) → ℕ → List ℕ → ℕ → ℕ
store ram a [] = ram
store ram a (b ∷ bs) = store (update ram a b) (a + 1) bs

-- `DmaPart::write_slice` with the `copy_from_slice` that follows it: a slice of another length
-- than the bytes copied is a panic, which the caller rules out.
unfoldable pub write_slice : DmaPart → List ℕ → M Host (Unit {0})
unfolding store
write_slice p bs = modify (λ h. record h { ram = store h.ram p.base bs })

-- The bytes of the parts, in order.
unfoldable pub read_parts : List DmaPart → M Host (List ℕ)
unfolding read_slice
read_parts [] = pure []
read_parts (p ∷ ps) = do bs ← read_slice p; rest ← read_parts ps; pure (bs ++ rest)

-- The loops of `write_bytes`: each part takes the next bytes. The result is the offset reached.
unfoldable pub write_parts : List ℕ → ℕ → List DmaPart → M Host ℕ
unfolding write_slice
write_parts bytes offset [] = pure offset
write_parts bytes offset (p ∷ ps) =
    let rest = write_parts bytes (offset + p.length) ps in
    if leb (offset + p.length) (length bytes)
    then (write_slice p (take p.length (drop offset bytes)) >> rest)
    else lift panic
