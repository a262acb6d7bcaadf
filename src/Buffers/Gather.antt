-- ===== src/Buffers/Gather.antt =====
-- Which bytes `gather` returns.
use libvirtio.Base.{
  ℕ, ◌+◌, ◌^◌, ◌<◌, ◌≡◌, refl, sym, ap₂, ◌∙◌, List, [], ◌∷◌, ◌++◌, map, some, All, range_from,
}
use mathlib.Core.List.{map-append}
use libvirtio.Outcome.{Outcome, ok, err, panic, hang}
use libvirtio.State.{continue_with}
use libvirtio.Dma.{DmaMemory}
use libvirtio.Dma.Segments.{IsDisjoint}
use libvirtio.Lease.{Host, with_lease, read_parts}
use libvirtio.Lease.Read.{
  guest_byte, leased, leased-Reads, Reads, read_parts_lem, with_lease-leased,
}
use libvirtio.Queue.{Descriptor}
use libvirtio.Buffers.{range_of, gather}

-- The guest addresses of the descriptors, in order.
unfoldable pub addresses : List Descriptor → List ℕ
addresses [] = []
addresses (d ∷ ds) = range_from d.address d.length ++ addresses ds

-- What `gather` is to return.
abbrev pub Gathers : DmaMemory → List Descriptor → Host → Outcome (List ℕ) × Host → Type 0
Gathers memory ds h (ok bytes, g) =
    (g ≡ h)
    × All (λ d. d.address + d.length < 2 ^ 64) ds
    × (map some bytes ≡ map (guest_byte memory h) (addresses ds))
Gathers memory ds h (err e, g) = g ≡ h
Gathers memory ds h (panic, g) = ⊥
Gathers memory ds h (hang, g) = ⊥

module _ (memory : DmaMemory) (v : IsDisjoint memory.segments) (h : Host) where
  gather_one :
      (d : Descriptor)
      → with_lease memory (range_of d) read_parts h ≡ (leased memory (range_of d) ok h, h)
  gather_one d =
      with_lease-leased memory (range_of d) ok h read_parts v (λ ps g. read_parts_lem ps g)

  step :
      (d : Descriptor) (ds : List Descriptor) (o : Outcome (List ℕ)) (r : Outcome (List ℕ) × Host)
      → Reads memory (range_of d) h o
      → gather memory ds h ≡ r
      → Gathers memory ds h r
      → Gathers memory (d ∷ ds) h (
          continue_with
            (o, h)
            (λ bytes s. continue_with (gather memory ds s) (λ rest s. (ok (bytes ++ rest), s))))
  unfolding continue_with addresses
  step d ds (ok bytes) (ok rest, g) (_, small, here) e (same, all, there) = rw e (
    same,
    (small, all),
    map-append some bytes rest
        ∙ ap₂ ◌++◌ here there
        ∙ sym (map-append (guest_byte memory h) (range_from d.address d.length) (addresses ds)),
  )
  step d ds (ok bytes) (err x, g) t e same = rw e same
  step d ds (ok bytes) (panic, g) t e p = absurd p
  step d ds (ok bytes) (hang, g) t e p = absurd p
  step d ds (err x) r t e p = refl
  step d ds panic r t e p = absurd t
  step d ds hang r t e p = absurd t

  -- Reading the descriptors of a chain one after the other, over disjoint segments, leaves the host
  -- as it was and neither panics nor runs on. If it succeeds, the range of every descriptor ends
  -- below 2 ^ 64 and the result is the bytes that the guest has at the addresses of the
  -- descriptors, in order.
  pub gather-Gathers : (ds : List Descriptor) → Gathers memory ds h (gather memory ds h)
  unfolding gather continue_with addresses
  gather-Gathers [] = (refl, tt, refl)
  gather-Gathers (d ∷ ds) = rw (gather_one d) (
      step d ds (leased memory (range_of d) ok h) (gather memory ds h)
        (leased-Reads memory (range_of d) h v) refl (gather-Gathers ds))
