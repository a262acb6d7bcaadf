-- ===== src/Transfer.antt =====
-- The loops that move bytes between a lease and an array of fixed size: those of src/memory.rs
-- and src/vsock.rs.
pub mod Same
use libvirtio.Base.{
  ℕ, ◌+◌, List, [], ◌∷◌, ◌++◌, length, take, drop, replicate, leb, bit_and, ◌==◌, Bool, not,
  if◌then◌else◌,
}
use libvirtio.Outcome.{panic}
use libvirtio.State.{M, pure, lift, ◌>>=◌}
use libvirtio.Dma.{DmaPart, DmaMemory}
use libvirtio.Lease.{Host, with_lease, read_slice, write_parts}
use libvirtio.Queue.{Descriptor}

-- `bytes[offset..offset + source.len()].copy_from_slice(source)` within the bounds
abbrev pub copy_at : ℕ → List ℕ → List ℕ → List ℕ
copy_at offset source bytes = take offset bytes ++ (source ++ drop (offset + length source) bytes)

-- `descriptor.flags & WRITE_FLAG != 0`
abbrev pub is_writable : Descriptor → Bool
is_writable d = not (bit_and d.flags 2 == 0)

-- Each part is copied behind the part before it; a copy past the end of the array is a panic.
unfoldable pub fill_array : List ℕ → ℕ → List DmaPart → M Host (List ℕ)
fill_array bytes offset [] = pure bytes
fill_array bytes offset (p ∷ ps) = do
  source ← read_slice p
  let end = offset + length source
  let rest = fill_array (copy_at offset source bytes) end ps
  if leb end (length bytes) then rest else lift panic

-- An array of `n` bytes read from the guest.
unfoldable pub read_array : DmaMemory → ℕ → ℕ → M Host (List ℕ)
read_array memory gpa n =
    with_lease memory (record { gpa = gpa; length = n })
      (λ parts. fill_array (replicate n 0) 0 parts)

-- An array written to the guest, with no check behind the loop.
unfoldable pub write_array : DmaMemory → ℕ → List ℕ → M Host (Unit {0})
write_array memory gpa bytes =
    with_lease memory (record { gpa = gpa; length = length bytes })
      λ parts. do offset ← write_parts bytes 0 parts; pure tt
