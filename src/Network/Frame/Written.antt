-- ===== src/Network/Frame/Written.antt =====
-- What `write_rx_frame` writes.
use libvirtio.Base.{
  ℕ, ◌+◌, ◌^◌, ◌≤◌, ◌<◌, ◌≡◌, ◌≢◌, inl, inr, refl, Bool, true, false, not, ◌||◌, any, All, List,
  ◌++◌, none, some, arith, ltb, ◌==◌, Bool-cases, Option-cases, length, replicate, length-append,
}
use libvirtio.Error.{DeviceError}
use libvirtio.Outcome.{Outcome, ok, err, panic, hang}
use libvirtio.State.{continue_with}
use libvirtio.Dma.{DmaMemory}
use libvirtio.Dma.Segments.{IsDisjoint}
use libvirtio.Lease.{Host}
use libvirtio.Lease.Read.{guest_byte}
use libvirtio.Lease.Write.{NoAlias}
use libvirtio.Queue.{DescriptorChain}
use libvirtio.Transfer.{is_writable}
use libvirtio.Buffers.{capacity_from, scatter}
use libvirtio.Buffers.Room.{writable-All, capacity_from_sound}
use libvirtio.Buffers.Gather.{addresses}
use libvirtio.Buffers.Deposit.{deposit}
use libvirtio.Buffers.Scatter.{Scatters, scatter-Scatters}
use libvirtio.Network.Frame.{write_chain, write_rx_frame}

-- A frame behind the header of 12 zeros.
abbrev pub framed : List ℕ → List ℕ
framed frame = replicate 12 0 ++ frame

-- What `write_rx_frame` is to do.
abbrev pub WritesFrame : DmaMemory → DescriptorChain → List ℕ → Host → Outcome ℕ × Host → Type 0
WritesFrame memory chain frame h (ok n, g) =
    All (λ d. is_writable d ≡ true) chain.descriptors
    × (0 < length frame)
    × (length frame ≤ 65536)
    × (n ≡ 12 + length frame)
    × (n ≤ length (addresses chain.descriptors))
    × (g.revoked ≡ h.revoked)
    × (g.active ≡ h.active)
    × ((x : ℕ)
        → guest_byte memory g x
          ≡ deposit (guest_byte memory h) (addresses chain.descriptors) (framed frame) x)
WritesFrame memory chain frame h (err e, g) =
    (g.active ≡ h.active)
    × ((x : ℕ)
        → All (λ a. a ≢ x) (addresses chain.descriptors)
        → guest_byte memory g x ≡ guest_byte memory h x)
WritesFrame memory chain frame h (panic, g) = ⊥
WritesFrame memory chain frame h (hang, g) = ⊥

module _ (memory : DmaMemory) (chain : DescriptorChain) (frame : List ℕ) (h : Host) where
  abbrev any_readable : Bool
  any_readable = any (λ d. not (is_writable d)) chain.descriptors

  abbrev bad_length : Bool
  bad_length = length frame == 0 || ltb 65536 (length frame)

  framed_length : length (framed frame) ≡ 12 + length frame
  framed_length = length-append (replicate 12 0) frame

  frame_rejected :
      bad_length ≡ true
      → write_rx_frame memory chain frame h
        ≡ (err (DeviceError.descriptor "invalid virtio-net RX frame length"), h)
  unfolding write_rx_frame continue_with
  frame_rejected a = rw a refl

  chain_rejected :
      bad_length ≡ false
      → any_readable ≡ true
      → write_rx_frame memory chain frame h
        ≡ (err (DeviceError.descriptor "virtio-net RX chain is readable"), h)
  unfolding write_rx_frame continue_with
  chain_rejected a b = rw (a, b) refl

  overflow_rejected :
      bad_length ≡ false
      → any_readable ≡ false
      → capacity_from 0 chain.descriptors ≡ none
      → write_rx_frame memory chain frame h
        ≡ (err (DeviceError.descriptor "virtio-net RX capacity overflows usize"), h)
  unfolding write_rx_frame write_chain continue_with
  overflow_rejected a b c = rw (a, b, c) refl

  short_rejected :
      (n : ℕ)
      → bad_length ≡ false
      → any_readable ≡ false
      → capacity_from 0 chain.descriptors ≡ some n
      → ltb n (length (framed frame)) ≡ true
      → write_rx_frame memory chain frame h
        ≡ (err (DeviceError.descriptor "virtio-net RX chain is too short"), h)
  unfolding write_rx_frame write_chain continue_with
  short_rejected n a b c l = rw (a, b, c, l) refl

  frame_scatters :
      (n : ℕ) (r : Outcome ℕ × Host)
      → bad_length ≡ false
      → any_readable ≡ false
      → capacity_from 0 chain.descriptors ≡ some n
      → ltb n (length (framed frame)) ≡ false
      → ltb (length (framed frame)) (2 ^ 32) ≡ true
      → scatter memory (framed frame) 0 chain.descriptors h ≡ r
      → write_rx_frame memory chain frame h
        ≡ continue_with r (λ _ s. (ok (length (framed frame)), s))
  unfolding write_rx_frame write_chain continue_with
  frame_scatters n (ok o, g) a b c l u e = rw (a, b, c, l, e, u) refl
  frame_scatters n (err x, g) a b c l u e = rw (a, b, c, l, e) refl
  frame_scatters n (panic, g) a b c l u e = rw (a, b, c, l, e) refl
  frame_scatters n (hang, g) a b c l u e = rw (a, b, c, l, e) refl

  written :
      All (λ d. is_writable d ≡ true) chain.descriptors
      → (0 < length frame) × (length frame ≤ 65536)
      → 12 + length frame ≤ length (addresses chain.descriptors)
      → (r : Outcome ℕ × Host) → Scatters memory (framed frame) 0 chain.descriptors h r
      → WritesFrame memory chain frame h (continue_with r (λ _ s. (ok (length (framed frame)), s)))
  unfolding continue_with
  written a (lo, hi) l (ok n, g) (rev, act, _, w) =
      (a, lo, hi, framed_length, omega (arith, framed_length, l), rev, act, w)
  written a k l (err e, g) p = p
  written a k l (panic, g) p = absurd p
  written a k l (hang, g) p = absurd p

  bounds : bad_length ≡ false → (0 < length frame) × (length frame ≤ 65536)
  bounds e = ground (arith, e)

  -- `write_rx_frame`, over disjoint segments of which no two guest addresses share a host address,
  -- neither panics nor runs on. It succeeds only for a frame of one byte at least and 64 KiB at
  -- most, on a chain without a readable descriptor and with room for the frame and its header; then
  -- 12 zeros and the frame lie at the chain's addresses in order, a later byte over an earlier one,
  -- the result is their number, and all other bytes of the guest and the lease state are as before.
  -- If it fails, no byte at another address has changed.
  pub write_rx_frame-WritesFrame :
      IsDisjoint memory.segments
      → NoAlias memory.segments
      → WritesFrame memory chain frame h (write_rx_frame memory chain frame h)
  write_rx_frame-WritesFrame v d = elim (Bool-cases bad_length) [
    | inl a ↦ rw (frame_rejected a) (refl, λ x out. refl)
    | inr a ↦ elim (Bool-cases any_readable) [
      | inl b ↦ rw (chain_rejected a b) (refl, λ x out. refl)
      | inr b ↦ elim (Option-cases (capacity_from 0 chain.descriptors)) [
        | inl c ↦ rw (overflow_rejected a b c) (refl, λ x out. refl)
        | inr (n, c) ↦ elim (Bool-cases (ltb n (length (framed frame)))) [
          | inl l ↦ rw (short_rejected n a b c l) (refl, λ x out. refl)
          | inr l ↦
              rw
                (frame_scatters n (scatter memory (framed frame) 0 chain.descriptors h) a b c l
                  (narrow a) refl)
                (written (writable-All chain.descriptors b) (bounds a) (room n c l)
                  (scatter memory (framed frame) 0 chain.descriptors h)
                  (scatter-Scatters memory v d (framed frame) 0 chain.descriptors h (omega arith)))
        ]
      ]
    ]
  ]
    where
      narrow : bad_length ≡ false → ltb (length (framed frame)) (2 ^ 32) ≡ true
      narrow a =
          let (_, hi) = bounds a in
          let small : length (framed frame) < 2 ^ 32 = omega (arith, framed_length, hi) in
          ground (arith, small)

      room :
          (n : ℕ)
          → capacity_from 0 chain.descriptors ≡ some n
          → ltb n (length (framed frame)) ≡ false
          → 12 + length frame ≤ length (addresses chain.descriptors)
      room n c l =
          let fits : length (framed frame) ≤ n = ground (arith, l) in
          omega (arith, framed_length, fits, capacity_from_sound chain.descriptors 0 c)
