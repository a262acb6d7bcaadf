-- ===== src/Tests/Fixture.antt =====
-- A guest with 512 bytes of memory at 0x1000, mapped at the host's 0x7000, and one virtqueue of
-- eight entries: the fixture of the tests in queue.rs.
use libvirtio.Base.{ℕ, false, [], ◌∷◌, arith}
use libvirtio.Dma.{DmaSegment, DmaMemory}
use libvirtio.Dma.Segments.{IsDisjoint}
use libvirtio.Dma.Translate.{host_address}
use libvirtio.Lease.{Host}
use libvirtio.Lease.Write.{NoAlias, poke}
use libvirtio.Layout.{QueueLayout}
use libvirtio.Queue.{VirtQueue, QueueState, DescriptorChain}
use libvirtio.Queue.Complete.{UsedFits}

abbrev pub segment : DmaSegment
segment = record { gpa = 0x1000; base = 0x7000; length = 512 }

abbrev pub memory : DmaMemory
memory = record { generation = 1; segments = segment ∷ [] }

pub memory-IsDisjoint : IsDisjoint (segment ∷ [])
memory-IsDisjoint = omega arith

pub memory-NoAlias : NoAlias (segment ∷ [])
unfolding host_address
memory-NoAlias a b c h k = ground arith

abbrev pub layout : QueueLayout
layout = record {
  index = 0;
  size = 8;
  descriptors = record { gpa = 0x1000; length = 128 };
  available = record { gpa = 0x1080; length = 20 };
  used = record { gpa = 0x10a0; length = 68 };
}

abbrev pub queue : VirtQueue
queue = record { layout = layout }

pub queue-UsedFits : UsedFits layout
queue-UsedFits = omega arith

-- Two chains of one descriptor each, both made available.
abbrev pub ram : ℕ → ℕ
ram =
    poke (λ _. 0) (0x7001 ∷ 0x7009 ∷ 0x7011 ∷ 0x7019 ∷ 0x7082 ∷ 0x7086 ∷ [])
      (0x11 ∷ 2 ∷ 0x12 ∷ 2 ∷ 2 ∷ 1 ∷ [])

abbrev pub host : Host
host = record { ram = ram; revoked = false; active = 0 }

abbrev pub first_chain : DescriptorChain
first_chain = record {
  head = 0;
  descriptors = record { address = 0x1100; length = 512; flags = 0; next = 0 } ∷ [];
}

abbrev pub second_chain : DescriptorChain
second_chain = record {
  head = 1;
  descriptors = record { address = 0x1200; length = 512; flags = 0; next = 0 } ∷ [];
}

abbrev pub counts : ℕ → ℕ → QueueState
counts a u = record { last_available = a; next_used = u }
