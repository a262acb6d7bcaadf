-- ===== src/Queue/Pop.antt =====
-- `pop`: which chains a device takes from the available ring.
use libvirtio.Base.{
  ℕ, ◌*◌, ◌%◌, ◌≤◌, ◌<◌, ◌≡◌, ◌≢◌, inl, inr, refl, true, false, List, Option, none, some, arith,
  Bool-cases, length, ltb, ◌==◌,
}
use libvirtio.Base.Bytes.{from_le_bytes}
use libvirtio.Error.{DeviceError}
use libvirtio.Outcome.{Outcome, ok, err, panic, hang}
use libvirtio.State.{continue_with, reader_cases, continue_with-eq-ok}
use libvirtio.Dma.{DmaMemory}
use libvirtio.Dma.Segments.{IsDisjoint}
use libvirtio.Lease.{Host}
use libvirtio.Queue.{
  VirtQueue, QueueState, DescriptorChain, read_bytes, read_u16, read_chain, pop, add_u64, add_u16,
  sub_u16,
}
use libvirtio.Queue.Access.{Holds, read_bytes_sound, read_bytes_complete}
use libvirtio.Queue.Chain.{
  Linked, read_u16-IsReader, read_u16-IsSettled, read_chain-IsReader, read_chain-IsSettled,
  read_chain-Linked, read_chain_complete,
}

-- The `u16` that the guest has at an address.
abbrev pub HoldsU16 : DmaMemory → Host → ℕ → ℕ → Type 0
HoldsU16 memory h gpa n =
    (bytes : List ℕ) × (length bytes ≡ 2) × Holds memory h gpa bytes × (n ≡ from_le_bytes bytes)

-- The driver's index in the available ring, and the head in slot `i` of the ring.
abbrev pub available_index_at : VirtQueue → ℕ
available_index_at queue = add_u64 queue.layout.available.gpa 2

abbrev pub available_slot_at : VirtQueue → ℕ → ℕ
available_slot_at queue i = add_u64 (add_u64 queue.layout.available.gpa 4) (i * 2)

-- The chain that a `pop` at the count `last` is to return.
pub record IsNext (queue : VirtQueue) (memory : DmaMemory) (h : Host) (last : ℕ)
    (chain : DescriptorChain) : Type 0 where
  pub index : ℕ
  pub published : HoldsU16 memory h (available_index_at queue) index
  pub pending : index ≢ last
  pub fits : sub_u16 index last ≤ queue.layout.size
  pub entry : HoldsU16 memory h (available_slot_at queue (last % queue.layout.size)) chain.head
  pub head_in : chain.head < queue.layout.size
  pub short : length chain.descriptors ≤ queue.layout.size
  pub linked : Linked queue memory h chain.head chain.descriptors

-- The state once a chain is taken.
abbrev pub taken : QueueState → QueueState
taken s = record s { last_available = add_u16 s.last_available 1 }

-- What `pop` is to do from the state `s`.
abbrev pub Pops :
    VirtQueue
    → DmaMemory
    → Host
    → QueueState
    → Outcome (Option DescriptorChain) × (Host × QueueState)
    → Type 0
Pops queue memory h s (ok none, (g, t)) =
    (g ≡ h) × (t ≡ s) × HoldsU16 memory h (available_index_at queue) s.last_available
Pops queue memory h s (ok (some chain), (g, t)) =
    (g ≡ h)
    × (t ≡ record s { last_available = add_u16 s.last_available 1 })
    × IsNext queue memory h s.last_available chain
Pops queue memory h s (err e, (g, t)) = (g ≡ h) × (t ≡ s)
Pops queue memory h s (panic, (g, t)) = ⊥
Pops queue memory h s (hang, (g, t)) = ⊥

module _ (queue : VirtQueue) (memory : DmaMemory) (v : IsDisjoint memory.segments) where
  read_u16_sound :
      (gpa : ℕ) (h : Host) {n : ℕ} {g : Host}
      → read_u16 memory gpa h ≡ (ok n, g)
      → HoldsU16 memory h gpa n
  unfolding read_u16
  read_u16_sound gpa h e =
      let (bytes, t, e1, e2) = continue_with-eq-ok (read_bytes memory gpa 2 h) _ e in
      let (_, l, holds) = read_bytes_sound memory gpa 2 h v e1 in (bytes, l, holds, cc e2)

  read_u16_complete :
      (gpa : ℕ) (h : Host) {n : ℕ}
      → h.revoked ≡ false
      → HoldsU16 memory h gpa n
      → read_u16 memory gpa h ≡ (ok n, h)
  unfolding read_u16 continue_with
  read_u16_complete gpa h live (bytes, l, (small, there), e) =
      rw (read_bytes_complete memory gpa 2 bytes h v live (rw l at small) (rw l at there), e)

  module _ (h : Host) (s : QueueState) where
    -- The part of `pop` behind the tests of the index.
    pop_index_err :
        (e : DeviceError)
        → read_u16 memory (available_index_at queue) h ≡ (err e, h)
        → pop queue memory (h, s) ≡ (err e, (h, s))
    unfolding pop continue_with
    pop_index_err e r = rw r

    pop_empty :
        (index : ℕ)
        → read_u16 memory (available_index_at queue) h ≡ (ok index, h)
        → (index == s.last_available) ≡ true
        → pop queue memory (h, s) ≡ (ok none, (h, s))
    unfolding pop continue_with
    pop_empty index r e = rw (r, e)

    pop_over :
        (index : ℕ)
        → read_u16 memory (available_index_at queue) h ≡ (ok index, h)
        → (index == s.last_available) ≡ false
        → ltb queue.layout.size (sub_u16 index s.last_available) ≡ true
        → (e : DeviceError) × (pop queue memory (h, s) ≡ (err e, (h, s)))
    unfolding pop continue_with
    pop_over index r e o = (
      DeviceError.invalid_queue queue.layout.index "available index exceeds queue size",
      rw (r, e, o),
    )

    pop_entry_err :
        (index : ℕ) (x : DeviceError)
        → read_u16 memory (available_index_at queue) h ≡ (ok index, h)
        → (index == s.last_available) ≡ false
        → ltb queue.layout.size (sub_u16 index s.last_available) ≡ false
        → read_u16 memory (available_slot_at queue (s.last_available % queue.layout.size)) h
          ≡ (err x, h)
        → pop queue memory (h, s) ≡ (err x, (h, s))
    unfolding pop continue_with
    pop_entry_err index x r e o r' = rw (r, e, o, r')

    pop_chain :
        (index head : ℕ)
        → read_u16 memory (available_index_at queue) h ≡ (ok index, h)
        → (index == s.last_available) ≡ false
        → ltb queue.layout.size (sub_u16 index s.last_available) ≡ false
        → read_u16 memory (available_slot_at queue (s.last_available % queue.layout.size)) h
          ≡ (ok head, h)
        → ((x : DeviceError)
            → read_chain queue memory head h ≡ (err x, h)
            → pop queue memory (h, s) ≡ (err x, (h, s)))
          × ((chain : DescriptorChain)
              → read_chain queue memory head h ≡ (ok chain, h)
              → pop queue memory (h, s)
                ≡ (ok (some chain), (h, record s { last_available = add_u16 s.last_available 1 })))
    unfolding pop continue_with
    pop_chain index head r e o r' = (λ x c. rw (r, e, o, r', c), λ chain c. rw (r, e, o, r', c))

    chain_Pops :
        (index head : ℕ)
        → read_u16 memory (available_index_at queue) h ≡ (ok index, h)
        → (index == s.last_available) ≡ false
        → ltb queue.layout.size (sub_u16 index s.last_available) ≡ false
        → read_u16 memory (available_slot_at queue (s.last_available % queue.layout.size)) h
          ≡ (ok head, h)
        → Pops queue memory h s (pop queue memory (h, s))
    chain_Pops index head r e o r' =
        let (failed, popped) = pop_chain index head r e o r' in
        elim (reader_cases (read_chain queue memory head) h
          (read_chain-IsReader queue memory v head) (read_chain-IsSettled queue memory v head h)) [
            | inr (x, c) ↦ rw (failed x c) (refl, refl)
            | inl (chain, c) ↦
                let (_, hd, inside, short, linked) = read_chain-Linked queue memory v head h c in
                rw (popped chain c) (
                  refl,
                  refl,
                  record {
                    index = index;
                    published = read_u16_sound (available_index_at queue) h r;
                    pending = ground (arith, e);
                    fits = ground (arith, o);
                    entry = rw hd (read_u16_sound _ h r');
                    head_in = rw hd inside;
                    short = short;
                    linked = rw hd linked;
                  },
                )
          ]

    -- `pop` over disjoint segments leaves the host as it was, on every branch. It returns no chain
    -- only if its count equals the driver's index, and then keeps the state; it returns a chain
    -- only if the index differs and is at most the queue size ahead, modulo 2 ^ 16, and then it is
    -- the linked chain whose head stands in the slot of the count, and the count alone goes up by
    -- one, modulo 2 ^ 16; an error leaves the state as it was; and it neither panics nor runs on.
    pub pop-Pops : Pops queue memory h s (pop queue memory (h, s))
    pop-Pops =
        elim (reader_cases (read_u16 memory (available_index_at queue)) h
          (read_u16-IsReader queue memory v (available_index_at queue))
          (read_u16-IsSettled queue memory v (available_index_at queue) h)) [
            | inr (x, r) ↦ rw (pop_index_err x r) (refl, refl)
            | inl (index, r) ↦ elim (Bool-cases (index == s.last_available)) [
              | inl e ↦
                  let same : index ≡ s.last_available = ground (arith, e) in
                  rw (pop_empty index r e) (refl, refl, rw same at (read_u16_sound _ h r))
              | inr e ↦ elim (Bool-cases (ltb queue.layout.size (sub_u16 index s.last_available))) [
                | inl o ↦ let (x, p) = pop_over index r e o in rw p (refl, refl)
                | inr o ↦
                    elim (reader_cases
                      (read_u16 memory
                        (available_slot_at queue (s.last_available % queue.layout.size)))
                      h (read_u16-IsReader queue memory v _)
                      (read_u16-IsSettled queue memory v _ h)) [
                        | inr (x, r') ↦ rw (pop_entry_err index x r e o r') (refl, refl)
                        | inl (head, r') ↦ chain_Pops index head r e o r'
                      ]
              ]
            ]
          ]

    -- Over disjoint segments, a chain that is next is popped, if the memory is not revoked.
    pub pop_complete :
        (chain : DescriptorChain)
        → h.revoked ≡ false
        → IsNext queue memory h s.last_available chain
        → pop queue memory (h, s)
          ≡ (ok (some chain), (h, record s { last_available = add_u16 s.last_available 1 }))
    pop_complete chain live next =
        (pop_chain next.index chain.head
            (read_u16_complete (available_index_at queue) h live next.published)
            (ground (arith, next.pending)) (ground (arith, next.fits))
            (read_u16_complete _ h live next.entry)).1
          chain
          (read_chain_complete queue memory v chain.head chain.descriptors h live next.head_in
            next.linked next.short)
