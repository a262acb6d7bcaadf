-- ===== src/Tests/Queue.antt =====
-- queue.rs
use libvirtio.Base.{◌≤◌, ◌<◌, ◌≡◌, range_from, length, refl, [], ◌∷◌, some, none, arith}
use libvirtio.Base.Bytes.{from_le_bytes}
use libvirtio.Outcome.{ok}
use libvirtio.State.{continue_with, IsSettled}
use libvirtio.Lease.Write.{poke, Writes}
use libvirtio.Lease.Read.{Reads}
use libvirtio.Queue.Access.{span, read_bytes-Reads, write_bytes-Writes, read_bytes-write_bytes}
use libvirtio.Queue.Chain.{Linked, read_chain-IsSettled, read_chain-Linked, read_chain_complete}
use libvirtio.Queue.Pop.{IsNext, Pops, pop-Pops, pop_complete}
use libvirtio.Queue.Complete.{Completes, complete-Completes}
use libvirtio.Dma.{translate}
use libvirtio.Lease.{Host, with_lease, read_parts, write_parts}
use libvirtio.Queue.{
  pop, complete, read_u16, read_bytes, copy_from_lease, read_chain, read_descriptors,
  read_descriptor, parse_descriptor, write_bytes,
}
use libvirtio.Tests.Fixture.{
  memory, memory-IsDisjoint, memory-NoAlias, queue-UsedFits, queue, host, first_chain, second_chain,
  counts,
}

pops_first : pop queue memory (host, counts 0 0) ≡ (ok (some first_chain), (host, counts 1 0))
unfolding pop read_u16 read_bytes with_lease copy_from_lease read_parts read_chain read_descriptors
    read_descriptor parse_descriptor continue_with translate from_le_bytes
pops_first = refl

pops_second : pop queue memory (host, counts 1 0) ≡ (ok (some second_chain), (host, counts 2 0))
unfolding pop read_u16 read_bytes with_lease copy_from_lease read_parts read_chain read_descriptors
    read_descriptor parse_descriptor continue_with translate from_le_bytes
pops_second = refl

pops_none : pop queue memory (host, counts 2 0) ≡ (ok none, (host, counts 2 0))
unfolding pop read_u16 read_bytes with_lease copy_from_lease read_parts continue_with translate
    from_le_bytes
pops_none = refl

-- The state after the bytes of the used entry are written.
abbrev written : Host
written = record host { ram = poke host.ram (range_from 0x70a4 4) (1 ∷ 0 ∷ 0 ∷ 0 ∷ []) }

writes_head : write_bytes memory 0x10a4 (1 ∷ 0 ∷ 0 ∷ 0 ∷ []) host ≡ (ok tt, written)
unfolding write_bytes with_lease write_parts continue_with translate
writes_head = refl

reads_chain : read_chain queue memory 1 host ≡ (ok second_chain, host)
unfolding read_chain read_descriptors read_descriptor read_bytes with_lease copy_from_lease
    read_parts parse_descriptor continue_with translate from_le_bytes
reads_chain = refl

read_bytes-Reads_example :
    ((read_bytes memory 0x1000 16 host).1 ≡ host)
    × Reads memory (span 0x1000 16) host (read_bytes memory 0x1000 16 host).0
read_bytes-Reads_example = read_bytes-Reads memory 0x1000 16 host memory-IsDisjoint

write_bytes-Writes_example :
    Writes memory 0x10a4
      (1 ∷ 0 ∷ 0 ∷ 0 ∷ [])
      host
      (write_bytes memory 0x10a4 (1 ∷ 0 ∷ 0 ∷ 0 ∷ []) host)
write_bytes-Writes_example =
    write_bytes-Writes memory 0x10a4 (1 ∷ 0 ∷ 0 ∷ 0 ∷ []) host memory-IsDisjoint memory-NoAlias

read_bytes-write_bytes_example :
    read_bytes memory 0x10a4 4 written ≡ (ok (1 ∷ 0 ∷ 0 ∷ 0 ∷ []), written)
read_bytes-write_bytes_example =
    read_bytes-write_bytes memory 0x10a4 (1 ∷ 0 ∷ 0 ∷ 0 ∷ []) host memory-IsDisjoint memory-NoAlias
      writes_head

read_chain-IsSettled_example : IsSettled (read_chain queue memory 0 host).0
read_chain-IsSettled_example = read_chain-IsSettled queue memory memory-IsDisjoint 0 host

read_chain-Linked_example :
    (host ≡ host)
    × (second_chain.head ≡ 1)
    × (1 < 8)
    × (length second_chain.descriptors ≤ 8)
    × Linked queue memory host 1 second_chain.descriptors
read_chain-Linked_example = read_chain-Linked queue memory memory-IsDisjoint 1 host reads_chain

pop-Pops_example : Pops queue memory host (counts 1 0) (pop queue memory (host, counts 1 0))
pop-Pops_example = pop-Pops queue memory memory-IsDisjoint host (counts 1 0)

next : IsNext queue memory host 1 second_chain
next = (rw pops_second at pop-Pops_example).2

pop_complete_example :
    pop queue memory (host, counts 1 0) ≡ (ok (some second_chain), (host, counts 2 0))
pop_complete_example =
    pop_complete queue memory memory-IsDisjoint host (counts 1 0) second_chain refl next

read_chain_complete_example : read_chain queue memory 1 host ≡ (ok second_chain, host)
read_chain_complete_example =
    read_chain_complete queue memory memory-IsDisjoint 1 second_chain.descriptors host refl
      (omega arith) next.linked (omega arith)

complete-Completes_example :
    Completes queue memory host
      (counts 2 0)
      second_chain
      512
      (complete queue memory second_chain 512 (host, counts 2 0))
complete-Completes_example =
    complete-Completes queue memory host (counts 2 0) second_chain 512 memory-IsDisjoint
      memory-NoAlias queue-UsedFits
