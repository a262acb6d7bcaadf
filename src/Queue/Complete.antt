-- ===== src/Queue/Complete.antt =====
-- `complete`: what the device publishes in the used ring.
use libvirtio.Base.{
  ℕ, ◌+◌, ◌*◌, ◌%◌, ◌^◌, ◌≤◌, ◌<◌, ◌≡◌, ◌⊎◌, inl, inr, refl, sym, subst, ◌∙◌, false, arith, length,
}
use libvirtio.Base.Bytes.{to_le_bytes, length-to_le_bytes}
use libvirtio.Error.{DeviceError}
use libvirtio.Outcome.{Outcome, ok, err, panic, hang}
use libvirtio.State.{continue_with}
use libvirtio.Dma.{DmaMemory}
use libvirtio.Dma.Segments.{IsDisjoint}
use libvirtio.Lease.{Host}
use libvirtio.Lease.Read.{guest_byte}
use libvirtio.Lease.Write.{NoAlias}
use libvirtio.Layout.{QueueLayout}
use libvirtio.Queue.{
  VirtQueue, QueueState, DescriptorChain, write_bytes, complete, add_u64, add_u16,
}
use libvirtio.Queue.Access.{Holds}
use libvirtio.Queue.Written.{SameBytes, Holds-same, Wrote, write_cases}
use native.Mathlib.Nat.{mod-lt}

-- The used ring holds its entries below 2 ^ 64, and is not empty.
pub record UsedFits (q : QueueLayout) : Type 0 where
  pub not_empty : 0 < q.size
  pub room : 4 + q.size * 8 ≤ q.used.length
  pub below : q.used.gpa + q.used.length < 2 ^ 64

-- Where `complete` writes: the entry in the slot of the count, and the index.
abbrev pub used_entry_at : VirtQueue → QueueState → ℕ
used_entry_at queue s = queue.layout.used.gpa + 4 + s.next_used % queue.layout.size * 8

abbrev pub used_index_at : VirtQueue → ℕ
used_index_at queue = queue.layout.used.gpa + 2

abbrev pub advanced : QueueState → QueueState
advanced s = record s { next_used = add_u16 s.next_used 1 }

abbrev Elsewhere : VirtQueue → QueueState → ℕ → Type 0
Elsewhere queue s x =
    ((x < used_index_at queue) ⊎ (used_index_at queue + 2 ≤ x))
    × ((x < used_entry_at queue s) ⊎ (used_entry_at queue s + 8 ≤ x))

-- What `complete` is to do from the state `s`.
abbrev pub Completes :
    VirtQueue
    → DmaMemory
    → Host
    → QueueState
    → DescriptorChain
    → ℕ
    → Outcome (Unit {0}) × (Host × QueueState)
    → Type 0
Completes queue memory h s chain used_length (ok u, (g, t)) =
    (t ≡ advanced s)
    × (g.revoked ≡ false)
    × (g.active ≡ h.active)
    × Holds memory g (used_entry_at queue s) (to_le_bytes 4 chain.head)
    × Holds memory g (used_entry_at queue s + 4) (to_le_bytes 4 used_length)
    × Holds memory g (used_index_at queue) (to_le_bytes 2 t.next_used)
    × SameBytes memory h g (Elsewhere queue s)
Completes queue memory h s chain used_length (err e, (g, t)) =
    ((t ≡ s) ⊎ (t ≡ advanced s)) × SameBytes memory h g (Elsewhere queue s)
Completes queue memory h s chain used_length (panic, (g, t)) = ⊥
Completes queue memory h s chain used_length (hang, (g, t)) = ⊥

-- A number written: the bytes before and behind it stay.
beside :
    (memory : DmaMemory) (a w n x : ℕ) (h g : Host)
    → Wrote memory a (to_le_bytes w n) h g
    → (x < a) ⊎ (a + w ≤ x)
    → guest_byte memory g x ≡ guest_byte memory h x
beside memory a w n x h g wrote out =
    wrote.rest x (subst (λ l. (x < a) ⊎ (a + l ≤ x)) (sym (length-to_le_bytes w n)) out)

module _ (queue : VirtQueue) (memory : DmaMemory) (h : Host) (s : QueueState)
    (chain : DescriptorChain) (used_length : ℕ) (v : IsDisjoint memory.segments)
    (d : NoAlias memory.segments) (fits : UsedFits queue.layout) where
  slot_below : s.next_used % queue.layout.size < queue.layout.size
  slot_below = mod-lt s.next_used fits.not_empty

  entry_wraps_not :
      add_u64 (add_u64 queue.layout.used.gpa 4) (s.next_used % queue.layout.size * 8)
      ≡ used_entry_at queue s
  entry_wraps_not = omega (arith, slot_below, fits.room, fits.below)

  second_wraps_not : add_u64 (used_entry_at queue s) 4 ≡ used_entry_at queue s + 4
  second_wraps_not = omega (arith, slot_below, fits.room, fits.below)

  index_wraps_not : add_u64 queue.layout.used.gpa 2 ≡ used_index_at queue
  index_wraps_not = omega (arith, slot_below, fits.room, fits.below)

  one_err :
      (e : DeviceError)
      → write_bytes memory (used_entry_at queue s) (to_le_bytes 4 chain.head) h ≡ (err e, h)
      → complete queue memory chain used_length (h, s) ≡ (err e, (h, s))
  unfolding complete continue_with
  one_err e r = rw (entry_wraps_not, r)

  module _ (g : Host)
      (one : write_bytes memory (used_entry_at queue s) (to_le_bytes 4 chain.head) h
        ≡ (ok tt, g)) where
    two_err :
        (e : DeviceError)
        → write_bytes memory (used_entry_at queue s + 4) (to_le_bytes 4 used_length) g ≡ (err e, g)
        → complete queue memory chain used_length (h, s) ≡ (err e, (g, s))
    unfolding complete continue_with
    two_err e r = rw (entry_wraps_not, one, second_wraps_not, r)

    three :
        (k k' : Host) (o : Outcome (Unit {0}))
        → write_bytes memory (used_entry_at queue s + 4) (to_le_bytes 4 used_length) g ≡ (ok tt, k)
        → write_bytes memory (used_index_at queue) (to_le_bytes 2 (advanced s).next_used) k
          ≡ (o, k')
        → complete queue memory chain used_length (h, s) ≡ (o, (k', advanced s))
    unfolding complete continue_with
    three k k' o r r' = rw (entry_wraps_not, one, second_wraps_not, r, index_wraps_not, r')

    module _ (k : Host)
        (two : write_bytes memory (used_entry_at queue s + 4) (to_le_bytes 4 used_length) g
          ≡ (ok tt, k))
        (w1 : Wrote memory (used_entry_at queue s) (to_le_bytes 4 chain.head) h g)
        (w2 : Wrote memory (used_entry_at queue s + 4) (to_le_bytes 4 used_length) g k) where
      entry_same : SameBytes memory h k (Elsewhere queue s)
      entry_same x (_, off) =
          beside memory (used_entry_at queue s + 4) 4 used_length x g k w2 (second off)
          ∙ beside memory (used_entry_at queue s) 4 chain.head x h g w1 (first off)
        where
          second :
              (x < used_entry_at queue s) ⊎ (used_entry_at queue s + 8 ≤ x)
              → (x < used_entry_at queue s + 4) ⊎ (used_entry_at queue s + 4 + 4 ≤ x)
          second (inl lt) = inl (omega arith)
          second (inr le) = inr (omega arith)

          first :
              (x < used_entry_at queue s) ⊎ (used_entry_at queue s + 8 ≤ x)
              → (x < used_entry_at queue s) ⊎ (used_entry_at queue s + 4 ≤ x)
          first (inl lt) = inl lt
          first (inr le) = inr (omega arith)

      published :
          (k' : Host)
          → write_bytes memory (used_index_at queue) (to_le_bytes 2 (advanced s).next_used) k
            ≡ (ok tt, k')
          → Wrote memory (used_index_at queue) (to_le_bytes 2 (advanced s).next_used) k k'
          → Completes queue memory h s chain used_length
              (complete queue memory chain used_length (h, s))
      published k' r w3 = rw (three k k' (ok tt) two r) (
        refl,
        w3.live,
        w3.leases ∙ w2.leases ∙ w1.leases,
        Holds-same memory g k' _ _ w1.written (λ x (lo, hi). last x lo ∙ middle x (below hi)),
        Holds-same memory k k' _ _ w2.written (λ x (lo, hi). last x (omega arith)),
        w3.written,
        λ x (index, entry).
            beside memory (used_index_at queue) 2 _ x k k' w3 index ∙ entry_same x (index, entry),
      )
        where
          last :
              (x : ℕ) → used_entry_at queue s ≤ x → guest_byte memory k' x ≡ guest_byte memory k x
          last x le = beside memory (used_index_at queue) 2 _ x k k' w3 (inr (omega arith))

          middle :
              (x : ℕ)
              → x < used_entry_at queue s + 4
              → guest_byte memory k x ≡ guest_byte memory g x
          middle x lt = beside memory (used_entry_at queue s + 4) 4 used_length x g k w2 (inl lt)

          below :
              {x : ℕ}
              → x < used_entry_at queue s + length (to_le_bytes 4 chain.head)
              → x < used_entry_at queue s + 4
          below lt = omega (arith, length-to_le_bytes 4 chain.head)

  -- `complete` over disjoint segments, no two guest addresses sharing a host address, in a used
  -- ring that lies below 2 ^ 64 and has its room. If it succeeds, the guest has the head of the
  -- chain and the length, four bytes each, in the entry of the slot of the count, and the new count
  -- in the ring's index; the count has gone up by one, modulo 2 ^ 16, all other bytes of the guest
  -- and the lease count are as before. If it fails, at most that entry and that index have changed,
  -- and of the state at most the count, which then has gone up. It neither panics nor runs on.
  pub complete-Completes :
      Completes queue memory h s chain used_length (complete queue memory chain used_length (h, s))
  complete-Completes =
      elim (write_cases memory (used_entry_at queue s) (to_le_bytes 4 chain.head) h v d) [
        | inr (e, r) ↦ rw (one_err e r) (inl refl, λ x _. refl)
        | inl (g, one, w1) ↦
            elim (write_cases memory (used_entry_at queue s + 4) (to_le_bytes 4 used_length) g v
              d) [
                | inr (e, r) ↦
                    rw (two_err g one e r)
                      (inl refl, λ x (_, off). beside memory _ 4 _ x h g w1 (first off))
                | inl (k, two, w2) ↦
                    elim (write_cases memory (used_index_at queue)
                      (to_le_bytes 2 (advanced s).next_used) k v d) [
                        | inr (e, r) ↦
                            rw (three g one k k (err e) two r)
                              (inr refl, entry_same g one k two w1 w2)
                        | inl (k', r, w3) ↦ published g one k two w1 w2 k' r w3
                      ]
              ]
      ]
    where
      first :
          {x : ℕ}
          → (x < used_entry_at queue s) ⊎ (used_entry_at queue s + 8 ≤ x)
          → (x < used_entry_at queue s) ⊎ (used_entry_at queue s + 4 ≤ x)
      first (inl lt) = inl lt
      first (inr le) = inr (omega arith)
