-- ===== src/Queue/Settled.antt =====
-- The operations of a virtqueue return, and a popped chain leaves the host as it was.
use libvirtio.Base.{ℕ, ◌≡◌, refl, true, Option, none, some}
use libvirtio.Outcome.{Outcome, ok, err, panic, hang}
use libvirtio.State.{IsSettled, continue_with}
use libvirtio.Dma.{DmaMemory}
use libvirtio.Dma.Segments.{IsDisjoint}
use libvirtio.Lease.{Host, is_down}
use libvirtio.Lease.Read.{with_lease_revoked}
use libvirtio.Lease.Write.{NoAlias}
use libvirtio.Queue.{
  VirtQueue, QueueState, DescriptorChain, add_u64, copy_from_lease, read_bytes, read_u16, pop,
  complete,
}
use libvirtio.Queue.Access.{span}
use libvirtio.Queue.Pop.{Pops, pop-Pops}
use libvirtio.Queue.Complete.{UsedFits, Completes, complete-Completes}

module _ (queue : VirtQueue) (memory : DmaMemory) (v : IsDisjoint memory.segments) (h : Host)
    (s : QueueState) where
  pub pop-IsSettled : IsSettled (pop queue memory (h, s)).0
  pop-IsSettled = go (pop queue memory (h, s)) (pop-Pops queue memory v h s)
    where
      go :
          (r : Outcome (Option DescriptorChain) × (Host × QueueState))
          → Pops queue memory h s r
          → IsSettled r.0
      go (ok none, w) p = tt
      go (ok (some c), w) p = tt
      go (err e, w) p = tt
      go (panic, w) p = p
      go (hang, w) p = p

  pub complete-IsSettled :
      (chain : DescriptorChain) (n : ℕ)
      → NoAlias memory.segments
      → UsedFits queue.layout
      → IsSettled (complete queue memory chain n (h, s)).0
  complete-IsSettled chain n d fits =
      go (complete queue memory chain n (h, s))
        (complete-Completes queue memory h s chain n v d fits)
    where
      go :
          (r : Outcome (Unit {0}) × (Host × QueueState))
          → Completes queue memory h s chain n r
          → IsSettled r.0
      go (ok u, w) p = tt
      go (err e, w) p = tt
      go (panic, w) p = p
      go (hang, w) p = p

  pub pop-IsNext :
      {chain : DescriptorChain} {g : Host} {t : QueueState}
      → pop queue memory (h, s) ≡ (ok (some chain), (g, t))
      → Pops queue memory h s (ok (some chain), (g, t))
  pop-IsNext e = rw e at (pop-Pops queue memory v h s)

-- A revoked memory gives no chain.
pub pop_revoked :
    (queue : VirtQueue) (memory : DmaMemory) (h : Host) (s : QueueState)
    → h.revoked ≡ true
    → pop queue memory (h, s) ≡ (err is_down, (h, s))
unfolding pop read_u16 read_bytes continue_with
pop_revoked queue memory h s e =
    rw
      (with_lease_revoked memory (span (add_u64 queue.layout.available.gpa 2) 2)
        (λ parts. copy_from_lease parts 2) h e)
      refl
