-- ===== src/Queue.antt =====
-- src/queue.rs: the split virtqueue. The driver's rings are read, and the used ring is written,
-- in guest memory. `+` on addresses is that of `u64`, which wraps in a release build; on a
-- validated layout it does not. An index is reduced by a size that `new` has found not to be 0.
pub mod Access
pub mod Chain
pub mod Pop
pub mod Written
pub mod Complete
pub mod Settled
use libvirtio.Base.{
  ℕ, zero, suc, ◌+◌, ◌*◌, ◌%◌, ◌^◌, ◌-◌, Bool, true, false, not, List, [], ◌∷◌, Option, none, some,
  ltb, leb, ◌==◌, if◌then◌else◌, length, take, drop, bit_and,
}
use libvirtio.Base.Bytes.{to_le_bytes, from_le_bytes}
use libvirtio.Error.{DeviceError}
use libvirtio.Outcome.{Outcome, ok, reject_if, ok_or, ◌>>=◌ as bind}
use libvirtio.State.{M, pure, lift, get, modify, on_host, ◌>>=◌, ◌>>◌}
use libvirtio.Dma.{DmaRange, DmaPart, DmaMemory, checked_add}
use libvirtio.Lease.{Host, with_lease, read_parts, write_parts}
use libvirtio.Layout.{QueueLayout, validate}

pub record QueueState : Type 0 where
  pub last_available : ℕ
  pub next_used : ℕ

pub record Descriptor : Type 0 where
  pub address : ℕ
  pub length : ℕ
  pub flags : ℕ
  pub next : ℕ

pub record DescriptorChain : Type 0 where
  pub head : ℕ
  pub descriptors : List Descriptor

pub record VirtQueue : Type 0 where
  pub layout : QueueLayout

-- `VirtQueue::new`
unfoldable pub new : QueueLayout → DmaMemory → Outcome VirtQueue
new layout memory = bind (validate layout memory) (λ _. ok (record { layout = layout }))

-- `QueueState::new`
abbrev pub new_state : QueueState
new_state = record { last_available = 0; next_used = 0 }

abbrev pub add_u64 : ℕ → ℕ → ℕ
add_u64 a b = (a + b) % 2 ^ 64

abbrev pub add_u16 : ℕ → ℕ → ℕ
add_u16 a b = (a + b) % 2 ^ 16

-- `u16::wrapping_sub`
abbrev pub sub_u16 : ℕ → ℕ → ℕ
sub_u16 a b = (a + 2 ^ 16 - b) % 2 ^ 16

-- `&bytes[from..to]` within the bounds
abbrev pub slice : List ℕ → ℕ → ℕ → List ℕ
slice bytes from to = take (to - from) (drop from bytes)

unfoldable pub copy_from_lease : List DmaPart → ℕ → M Host (List ℕ)
copy_from_lease parts n = do
  bytes ← read_parts parts
  lift (reject_if (not (length bytes == n)) (DeviceError.descriptor "short virtqueue read"))
  pure bytes

unfoldable pub read_bytes : DmaMemory → ℕ → ℕ → M Host (List ℕ)
read_bytes memory gpa n =
    with_lease memory (record { gpa = gpa; length = n }) (λ parts. copy_from_lease parts n)

unfoldable pub write_bytes : DmaMemory → ℕ → List ℕ → M Host (Unit {0})
write_bytes memory gpa bytes =
    with_lease memory (record { gpa = gpa; length = length bytes })
      λ parts. do
        offset ← write_parts bytes 0 parts
        lift (
            reject_if (not (offset == length bytes))
              (DeviceError.descriptor "short virtqueue write"))

-- The bytes read are as many as asked for, so the conversion to an array succeeds.
unfoldable pub read_u16 : DmaMemory → ℕ → M Host ℕ
read_u16 memory gpa = do bytes ← read_bytes memory gpa 2; pure (from_le_bytes bytes)

unfoldable pub parse_descriptor : List ℕ → Descriptor
parse_descriptor bytes = record {
  address = from_le_bytes (slice bytes 0 8);
  length = from_le_bytes (slice bytes 8 12);
  flags = from_le_bytes (slice bytes 12 14);
  next = from_le_bytes (slice bytes 14 16);
}

unfoldable pub read_descriptor : VirtQueue → DmaMemory → ℕ → M Host Descriptor
read_descriptor queue memory index = do
  gpa ← lift (
      ok_or (checked_add queue.layout.descriptors.gpa (index * 16))
        (DeviceError.descriptor "descriptor GPA overflow"))
  bytes ← read_bytes memory gpa 16
  pure (parse_descriptor bytes)

-- `descriptor.flags & VIRTQ_DESC_F_NEXT != 0`
abbrev pub has_next : Descriptor → Bool
has_next d = not (bit_and d.flags 1 == 0)

-- What the loop of `read_chain` does with a descriptor; `loop` is its next round.
unfoldable pub follow :
    VirtQueue → Descriptor → (ℕ → M Host (List Descriptor)) → M Host (List Descriptor)
follow queue d loop =
    if has_next d
    then (do
      lift (
          reject_if (leb queue.layout.size d.next)
            (DeviceError.descriptor "next index exceeds queue size"))
      rest ← loop d.next
      pure (d ∷ rest))
    else pure (d ∷ [])

-- The `for` loop of `read_chain`, with the rounds left. The descriptors read come first.
unfoldable pub read_descriptors : VirtQueue → DmaMemory → ℕ → ℕ → M Host (List Descriptor)
unfolding follow
read_descriptors queue memory zero current =
    lift (Outcome.err (DeviceError.descriptor "descriptor chain loop"))
read_descriptors queue memory (suc rounds) current = do
  d ← read_descriptor queue memory current
  follow queue d (read_descriptors queue memory rounds)

unfoldable pub read_chain : VirtQueue → DmaMemory → ℕ → M Host DescriptorChain
read_chain queue memory head = do
  lift (
      reject_if (leb queue.layout.size head)
        (DeviceError.descriptor "head index exceeds queue size"))
  descriptors ← read_descriptors queue memory queue.layout.size head
  pure (record { head = head; descriptors = descriptors })

-- The state behind `&mut QueueState` stands beside the host.
unfoldable pub pop : VirtQueue → DmaMemory → M (Host × QueueState) (Option DescriptorChain)
pop queue memory = do
  available_index ← on_host (read_u16 memory (add_u64 queue.layout.available.gpa 2))
  (_, state) ← get
  if available_index == state.last_available then pure none else do
    lift (
        reject_if (ltb queue.layout.size (sub_u16 available_index state.last_available))
          (DeviceError.invalid_queue queue.layout.index "available index exceeds queue size"))
    let slot = state.last_available % queue.layout.size
    head ← on_host (read_u16 memory (add_u64 (add_u64 queue.layout.available.gpa 4) (slot * 2)))
    chain ← on_host (read_chain queue memory head)
    modify (λ (h, s). (h, record s { last_available = add_u16 s.last_available 1 }))
    pure (some chain)

unfoldable pub complete :
    VirtQueue → DmaMemory → DescriptorChain → ℕ → M (Host × QueueState) (Unit {0})
complete queue memory chain used_length = do
  (_, state) ← get
  let slot = state.next_used % queue.layout.size
  let offset = add_u64 (add_u64 queue.layout.used.gpa 4) (slot * 8)
  on_host (write_bytes memory offset (to_le_bytes 4 chain.head))
  on_host (write_bytes memory (add_u64 offset 4) (to_le_bytes 4 used_length))
  modify (λ (h, s). (h, record s { next_used = add_u16 s.next_used 1 }))
  (_, after) ← get
  on_host (write_bytes memory (add_u64 queue.layout.used.gpa 2) (to_le_bytes 2 after.next_used))
