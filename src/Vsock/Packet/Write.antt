-- ===== src/Vsock/Packet/Write.antt =====
-- What `write_packet` writes.
use libvirtio.Base.{
  ℕ, ◌≤◌, ◌≡◌, ◌≢◌, ◌⊎◌, inl, inr, refl, true, not, any, All, List, arith, ltb, Bool-cases,
  Option-cases, length,
}
use libvirtio.Error.{DeviceError}
use libvirtio.Outcome.{Outcome, ok, err, panic, hang}
use libvirtio.State.{continue_with}
use libvirtio.Dma.{DmaMemory}
use libvirtio.Dma.Segments.{IsDisjoint}
use libvirtio.Lease.{Host}
use libvirtio.Lease.Read.{guest_byte}
use libvirtio.Lease.Write.{NoAlias}
use libvirtio.Queue.{DescriptorChain}
use libvirtio.Transfer.{is_writable}
use libvirtio.Buffers.{capacity_from, scatter}
use libvirtio.Buffers.Room.{writable-All, capacity_from_sound}
use libvirtio.Buffers.Gather.{addresses}
use libvirtio.Buffers.Deposit.{deposit}
use libvirtio.Buffers.Scatter.{Scatters, scatter-Scatters}
use libvirtio.Vsock.Packet.{check_room, write_packet}

-- What `write_packet` is to do.
abbrev pub WritesPacket :
    DmaMemory → DescriptorChain → List ℕ → Host → Outcome (Unit {0}) × Host → Type 0
WritesPacket memory chain bytes h (ok u, g) =
    All (λ d. is_writable d ≡ true) chain.descriptors
    × (length bytes ≤ length (addresses chain.descriptors))
    × (g.revoked ≡ h.revoked)
    × (g.active ≡ h.active)
    × ((x : ℕ)
        → guest_byte memory g x
          ≡ deposit (guest_byte memory h) (addresses chain.descriptors) bytes x)
WritesPacket memory chain bytes h (err e, g) =
    (g.active ≡ h.active)
    × ((x : ℕ)
        → All (λ a. a ≢ x) (addresses chain.descriptors)
        → guest_byte memory g x ≡ guest_byte memory h x)
WritesPacket memory chain bytes h (panic, g) = ⊥
WritesPacket memory chain bytes h (hang, g) = ⊥

module _ (chain : DescriptorChain) (bytes : List ℕ) where
  room_cases :
      ((check_room chain bytes ≡ ok tt)
        × All (λ d. is_writable d ≡ true) chain.descriptors
        × (length bytes ≤ length (addresses chain.descriptors)))
      ⊎ ((e : DeviceError) × (check_room chain bytes ≡ err e))
  unfolding check_room
  room_cases = elim (Bool-cases (any (λ d. not (is_writable d)) chain.descriptors)) [
    | inl a ↦ inr (DeviceError.descriptor "vsock RX chain is readable", rw a refl)
    | inr a ↦ elim (Option-cases (capacity_from 0 chain.descriptors)) [
      | inl b ↦ inr (DeviceError.descriptor "vsock RX capacity overflows usize", rw (a, b) refl)
      | inr (c, b) ↦ elim (Bool-cases (ltb c (length bytes))) [
        | inl l ↦
            inr (DeviceError.descriptor "virtio-vsock RX chain is too short", rw (a, b, l) refl)
        | inr l ↦ inl (
          rw (a, b, l) refl,
          writable-All chain.descriptors a,
          ground (arith, l, capacity_from_sound chain.descriptors 0 b),
        )
      ]
    ]
  ]

module _ (memory : DmaMemory) (chain : DescriptorChain) (bytes : List ℕ) (h : Host) where
  write_rejected :
      (e : DeviceError)
      → check_room chain bytes ≡ err e
      → write_packet memory chain bytes h ≡ (err e, h)
  unfolding write_packet continue_with
  write_rejected e r = rw r refl

  write_scatters :
      check_room chain bytes ≡ ok tt
      → write_packet memory chain bytes h
        ≡ continue_with (scatter memory bytes 0 chain.descriptors h) (λ _ s. (ok tt, s))
  unfolding write_packet continue_with
  write_scatters r = rw r refl

  written :
      All (λ d. is_writable d ≡ true) chain.descriptors
      → length bytes ≤ length (addresses chain.descriptors)
      → (r : Outcome ℕ × Host) → Scatters memory bytes 0 chain.descriptors h r
      → WritesPacket memory chain bytes h (continue_with r (λ _ s. (ok tt, s)))
  unfolding continue_with
  written a l (ok n, g) (rev, act, _, w) = (a, l, rev, act, w)
  written a l (err e, g) p = p
  written a l (panic, g) p = absurd p
  written a l (hang, g) p = absurd p

  -- `write_packet`, over disjoint segments of which no two guest addresses share a host address,
  -- neither panics nor runs on. It succeeds only on a chain without a readable descriptor and with
  -- room for all the bytes; then they lie at the chain's addresses in order, a later one over an
  -- earlier one, and all other bytes of the guest and the lease state are as before. If it fails,
  -- no byte at another address has changed.
  pub write_packet-WritesPacket :
      IsDisjoint memory.segments
      → NoAlias memory.segments
      → WritesPacket memory chain bytes h (write_packet memory chain bytes h)
  write_packet-WritesPacket v d = elim (room_cases chain bytes) [
    | inl (r, a, l) ↦ rw (write_scatters r) (
        written a l (scatter memory bytes 0 chain.descriptors h)
          (scatter-Scatters memory v d bytes 0 chain.descriptors h (omega arith)))
    | inr (e, r) ↦ rw (write_rejected e r) (refl, λ x out. refl)
  ]
