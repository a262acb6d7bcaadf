-- ===== src/Network/Frame/Moved.antt =====
-- Which frames `read_tx_frame` reads and what `write_rx_frame` writes.
use libvirtio.Base.{
  ℕ, ◌+◌, ◌-◌, ◌≤◌, ◌<◌, ◌≡◌, inl, inr, refl, Bool, true, false, ◌||◌, any, All, List, map, some,
  arith, ltb, leb, Bool-cases, length, drop, length-drop,
}
use libvirtio.Error.{DeviceError}
use libvirtio.Outcome.{Outcome, ok, err, panic, hang}
use libvirtio.State.{continue_with}
use libvirtio.Dma.{DmaMemory}
use libvirtio.Dma.Segments.{IsDisjoint}
use libvirtio.Lease.{Host}
use libvirtio.Lease.Read.{guest_byte}
use libvirtio.Queue.{DescriptorChain}
use libvirtio.Transfer.{is_writable}
use libvirtio.Buffers.{gather}
use libvirtio.Buffers.Room.{readable-All}
use libvirtio.Buffers.Gather.{addresses, Gathers, gather-Gathers}
use libvirtio.Network.Frame.{parse_frame, read_tx_frame}

-- What `read_tx_frame` is to do.
abbrev pub ReadsFrame : DmaMemory → DescriptorChain → Host → Outcome (List ℕ) × Host → Type 0
ReadsFrame memory chain h (ok frame, g) =
    (g ≡ h)
    × All (λ d. is_writable d ≡ false) chain.descriptors
    × (bytes : List ℕ) × (map some bytes ≡ map (guest_byte memory h) (addresses chain.descriptors))
    × (length bytes ≡ 12 + length frame)
    × (frame ≡ drop 12 bytes)
    × (0 < length frame)
    × (length frame ≤ 65536)
ReadsFrame memory chain h (err e, g) = g ≡ h
ReadsFrame memory chain h (panic, g) = ⊥
ReadsFrame memory chain h (hang, g) = ⊥

module _ (bytes : List ℕ) where
  abbrev bad : Bool
  bad = leb (length bytes) 12 || ltb 65536 (length bytes - 12)

  parse_frame_err :
      bad ≡ true
      → parse_frame bytes ≡ err (DeviceError.descriptor "invalid virtio-net TX frame length")
  unfolding parse_frame
  parse_frame_err e = rw e refl

  parse_frame_ok : bad ≡ false → parse_frame bytes ≡ ok (drop 12 bytes)
  unfolding parse_frame
  parse_frame_ok e = rw e refl

  frame_bounds : bad ≡ false → (12 < length bytes) × (length bytes - 12 ≤ 65536)
  frame_bounds e = ground (arith, e)

module _ (memory : DmaMemory) (chain : DescriptorChain) (h : Host) where
  frame_writable :
      any is_writable chain.descriptors ≡ true
      → read_tx_frame memory chain h
        ≡ (err (DeviceError.descriptor "virtio-net TX chain is writable"), h)
  unfolding read_tx_frame continue_with
  frame_writable e = rw e refl

  frame_readable :
      any is_writable chain.descriptors ≡ false
      → read_tx_frame memory chain h
        ≡ continue_with (gather memory chain.descriptors h) (λ bytes s. (parse_frame bytes, s))
  unfolding read_tx_frame continue_with
  frame_readable e = rw e refl

  parsed :
      any is_writable chain.descriptors ≡ false
      → (r : Outcome (List ℕ) × Host) → Gathers memory chain.descriptors h r
      → ReadsFrame memory chain h (continue_with r (λ bytes s. (parse_frame bytes, s)))
  unfolding continue_with
  parsed e (ok bytes, g) (same, _, there) = elim (Bool-cases (bad bytes)) [
    | inl b ↦ rw (parse_frame_err bytes b) same
    | inr b ↦
        let (lower, upper) = frame_bounds bytes b in
        rw (parse_frame_ok bytes b) (
          same,
          readable-All chain.descriptors e,
          bytes,
          there,
          omega (arith, lower, length-drop 12 bytes),
          refl,
          omega (arith, lower, length-drop 12 bytes),
          omega (arith, upper, length-drop 12 bytes),
        )
  ]
  parsed e (err x, g) same = same
  parsed e (panic, g) p = absurd p
  parsed e (hang, g) p = absurd p

  -- `read_tx_frame`, over disjoint segments, leaves the host as it was and neither panics nor runs
  -- on. It returns a frame only for a chain without a writable descriptor, and then all the bytes
  -- that the guest has at the addresses of the chain but the 12 of the header, which are one at
  -- least and 64 KiB at most.
  pub read_tx_frame-ReadsFrame :
      IsDisjoint memory.segments → ReadsFrame memory chain h (read_tx_frame memory chain h)
  read_tx_frame-ReadsFrame v = elim (Bool-cases (any is_writable chain.descriptors)) [
    | inl e ↦ rw (frame_writable e) refl
    | inr e ↦
        rw (frame_readable e) (
          parsed e (gather memory chain.descriptors h)
            (gather-Gathers memory v h chain.descriptors))
  ]
