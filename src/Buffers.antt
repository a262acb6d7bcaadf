-- ===== src/Buffers.antt =====
-- The bytes of a whole chain: the loops of `read_chain`, `write_packet` and `write_chain` that
-- src/vsock.rs, src/console.rs and src/network.rs have in common.
pub mod Gather
pub mod Room
pub mod Deposit
pub mod Parts
pub mod Scatter
use libvirtio.Base.{
  ℕ, zero, ◌+◌, ◌-◌, min, Bool, Option, some, none, List, [], ◌∷◌, ◌++◌, length, take, drop, ◌==◌,
  if◌then◌else◌,
}
use libvirtio.Outcome.{Outcome}
use libvirtio.State.{M, pure, ◌>>=◌, ◌>>◌}
use libvirtio.Dma.{DmaRange, DmaPart, DmaMemory, checked_add}
use libvirtio.Lease.{Host, with_lease, read_parts, write_slice}
use libvirtio.Queue.{Descriptor}

-- `DmaRange::new(descriptor.address, length)`
abbrev pub range_of : Descriptor → DmaRange
range_of d = record { gpa = d.address; length = d.length }

-- The loop of `read_chain`: the bytes of the descriptors, in order.
unfoldable pub gather : DmaMemory → List Descriptor → M Host (List ℕ)
gather memory [] = pure []
gather memory (d ∷ ds) = do
  bytes ← with_lease memory (range_of d) read_parts
  rest ← gather memory ds
  pure (bytes ++ rest)

-- The sum of the lengths, none if it exceeds a `usize`.
unfoldable pub capacity_from : ℕ → List Descriptor → Option ℕ
capacity_from total [] = some total
capacity_from total (d ∷ ds) = elim (checked_add total d.length) [
  | none ↦ none
  | some total ↦ capacity_from total ds
]

-- The inner loop of `write_chain`: a part takes as many of the bytes left as it has room for. The
-- result is the offset reached.
unfoldable pub scatter_parts : List ℕ → ℕ → List DmaPart → M Host ℕ
scatter_parts bytes offset [] = pure offset
scatter_parts bytes offset (p ∷ ps) =
    let count = min p.length (length bytes - offset) in
    let rest = scatter_parts bytes (offset + count) ps in
    if offset == length bytes
    then pure offset
    else (write_slice p (take count (drop offset bytes)) >> rest)

-- The outer loop: no lease is taken once all the bytes are written.
unfoldable pub scatter : DmaMemory → List ℕ → ℕ → List Descriptor → M Host ℕ
unfolding scatter_parts
scatter memory bytes offset [] = pure offset
scatter memory bytes offset (d ∷ ds) =
    let write = with_lease memory (range_of d) (scatter_parts bytes offset) in
    if offset == length bytes
    then pure offset
    else (write >>= λ reached. scatter memory bytes reached ds)
