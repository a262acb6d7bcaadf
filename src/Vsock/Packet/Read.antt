-- ===== src/Vsock/Packet/Read.antt =====
-- Which packets `read_packet` reads.
use libvirtio.Base.{
  ℕ, ◌+◌, ◌≤◌, ◌≡◌, ◌⊎◌, inl, inr, refl, sym, ap, ap₂, ◌∙◌, Bool, true, false, not, ◌||◌, any, All,
  List, ◌++◌, map, some, arith, ltb, ◌==◌, Bool-cases, take, drop, length-take, length-append,
  take-append_left, drop-append_left,
}
use libvirtio.Base.{length as count}
use libvirtio.Error.{DeviceError}
use libvirtio.Outcome.{Outcome, ok, err, panic, hang}
use libvirtio.State.{continue_with, IsSettled}
use libvirtio.Dma.{DmaMemory}
use libvirtio.Dma.Segments.{IsDisjoint}
use libvirtio.Lease.{Host}
use libvirtio.Lease.Read.{guest_byte}
use libvirtio.Queue.{DescriptorChain}
use libvirtio.Transfer.{is_writable}
use libvirtio.Buffers.{gather}
use libvirtio.Buffers.Room.{readable-All}
use libvirtio.Buffers.Gather.{addresses, Gathers, gather-Gathers}
use libvirtio.Vsock.Header.{
  header_of, encode_header, IsTypedHeader, length-encode_header, header_of-encode_header,
  decode_header_ok,
}
use libvirtio.Vsock.Packet.{VsockPacket, validate_packet, parse_packet, read_packet, packet_bytes}

-- A packet of a known type whose header tells the length of its payload, of 64 KiB at most.
pub record IsValidPacket (p : VsockPacket) : Type 0 where
  pub known : (p.header.packet_type ≡ 1) ⊎ (p.header.packet_type ≡ 2)
  pub length : p.header.length ≡ count p.payload
  pub small : count p.payload ≤ 65536

-- The packet that stands in a list of bytes.
abbrev pub packet_of : List ℕ → VsockPacket
packet_of bytes = record { header = header_of (take 44 bytes); payload = drop 44 bytes }

-- What `read_packet` is to do.
abbrev pub ReadsPacket : DmaMemory → DescriptorChain → Host → Outcome VsockPacket × Host → Type 0
ReadsPacket memory chain h (ok p, g) =
    (g ≡ h)
    × All (λ d. is_writable d ≡ false) chain.descriptors
    × (bytes : List ℕ) × (map some bytes ≡ map (guest_byte memory h) (addresses chain.descriptors))
    × (count bytes ≡ 44 + count p.payload)
    × (p ≡ packet_of bytes)
    × IsValidPacket p
ReadsPacket memory chain h (err e, g) = g ≡ h
ReadsPacket memory chain h (panic, g) = ⊥
ReadsPacket memory chain h (hang, g) = ⊥

abbrev valid_guard : VsockPacket → Bool
valid_guard p =
    not (p.header.packet_type == 1 || p.header.packet_type == 2)
    || (not (p.header.length == count p.payload) || ltb 65536 (count p.payload))

valid_guard-IsValidPacket : (p : VsockPacket) → valid_guard p ≡ false → IsValidPacket p
valid_guard-IsValidPacket p e = record {
  known = ground (arith, e);
  length = ground (arith, e);
  small = ground (arith, e);
}

valid_guard_complete : (p : VsockPacket) → IsValidPacket p → valid_guard p ≡ false
valid_guard_complete p w = ground (arith, w.known, w.length, w.small)

pub validate_packet_complete : (p : VsockPacket) → IsValidPacket p → validate_packet p ≡ ok tt
unfolding validate_packet
validate_packet_complete p w = rw (valid_guard_complete p w) refl

-- What `parse_packet` does with the bytes of a chain.
module _ (bytes : List ℕ) where
  abbrev told : ℕ
  told = (header_of (take 44 bytes)).length

  measured : ltb (count bytes) 44 ≡ false → count (take 44 bytes) ≡ 44
  measured e = let le : 44 ≤ count bytes = ground (arith, e) in omega (arith, length-take 44 bytes)

  parse_packet_short :
      ltb (count bytes) 44 ≡ true
      → parse_packet bytes ≡ err (DeviceError.descriptor "short virtio-vsock TX chain")
  unfolding parse_packet
  parse_packet_short a = rw a refl

  parse_packet_mismatch :
      ltb (count bytes) 44 ≡ false
      → not (count bytes == 44 + told) ≡ true
      → parse_packet bytes ≡ err (DeviceError.descriptor "virtio-vsock TX chain length mismatch")
  unfolding parse_packet
  parse_packet_mismatch a b = rw (a, decode_header_ok (take 44 bytes) (measured a), b) refl

  parse_packet_invalid :
      ltb (count bytes) 44 ≡ false
      → not (count bytes == 44 + told) ≡ false
      → valid_guard (packet_of bytes) ≡ true
      → parse_packet bytes ≡ err (DeviceError.descriptor "invalid virtio-vsock packet")
  unfolding parse_packet validate_packet
  parse_packet_invalid a b c = rw (a, decode_header_ok (take 44 bytes) (measured a), b, c) refl

  parse_packet_ok :
      ltb (count bytes) 44 ≡ false
      → not (count bytes == 44 + told) ≡ false
      → valid_guard (packet_of bytes) ≡ false
      → parse_packet bytes ≡ ok (packet_of bytes)
  unfolding parse_packet validate_packet
  parse_packet_ok a b c = rw (a, decode_header_ok (take 44 bytes) (measured a), b, c) refl

  parse_packet_cases :
      ((parse_packet bytes ≡ ok (packet_of bytes))
        × (count bytes ≡ 44 + told)
        × IsValidPacket (packet_of bytes))
      ⊎ ((e : DeviceError) × (parse_packet bytes ≡ err e))
  parse_packet_cases = elim (Bool-cases (ltb (count bytes) 44)) [
    | inl a ↦ inr (_, parse_packet_short a)
    | inr a ↦ elim (Bool-cases (not (count bytes == 44 + told))) [
      | inl b ↦ inr (_, parse_packet_mismatch a b)
      | inr b ↦ elim (Bool-cases (valid_guard (packet_of bytes))) [
        | inl c ↦ inr (_, parse_packet_invalid a b c)
        | inr c ↦ inl (
          parse_packet_ok a b c,
          ground (arith, b),
          valid_guard-IsValidPacket (packet_of bytes) c,
        )
      ]
    ]
  ]

  parse_packet_complete :
      count bytes ≡ 44 + told
      → IsValidPacket (packet_of bytes)
      → parse_packet bytes ≡ ok (packet_of bytes)
  parse_packet_complete e w =
      parse_packet_ok (ground (arith, e)) (ground (arith, e))
        (valid_guard_complete (packet_of bytes) w)

module _ (memory : DmaMemory) (chain : DescriptorChain) (v : IsDisjoint memory.segments)
    (h : Host) where
  read_writable :
      any is_writable chain.descriptors ≡ true
      → read_packet memory chain h ≡ (err (DeviceError.descriptor "vsock TX chain is writable"), h)
  unfolding read_packet continue_with
  read_writable e = rw e refl

  read_readable :
      any is_writable chain.descriptors ≡ false
      → read_packet memory chain h
        ≡ continue_with (gather memory chain.descriptors h) (λ bytes s. (parse_packet bytes, s))
  unfolding read_packet continue_with
  read_readable e = rw e refl

  parsed :
      any is_writable chain.descriptors ≡ false
      → (r : Outcome (List ℕ) × Host) → Gathers memory chain.descriptors h r
      → ReadsPacket memory chain h (continue_with r (λ bytes s. (parse_packet bytes, s)))
  unfolding continue_with
  parsed e (ok bytes, g) (same, _, there) = elim (parse_packet_cases bytes) [
    | inl (q, whole, valid) ↦ rw q (
      same,
      readable-All chain.descriptors e,
      bytes,
      there,
      whole ∙ ap (λ n. 44 + n) valid.length,
      refl,
      valid,
    )
    | inr (x, q) ↦ rw q same
  ]
  parsed e (err x, g) same = same
  parsed e (panic, g) p = absurd p
  parsed e (hang, g) p = absurd p

  -- `read_packet`, over disjoint segments, leaves the host as it was and neither panics nor runs
  -- on. It returns a packet only for a chain without a writable descriptor, and then the packet
  -- whose header is the first 44 bytes at the addresses of the chain, as the guest has them, and
  -- whose payload is all the others; its type is known, its header tells the length of its payload,
  -- and that is 64 KiB at most.
  pub read_packet-ReadsPacket : ReadsPacket memory chain h (read_packet memory chain h)
  read_packet-ReadsPacket = elim (Bool-cases (any is_writable chain.descriptors)) [
    | inl e ↦ rw (read_writable e) refl
    | inr e ↦
        rw (read_readable e) (
          parsed e (gather memory chain.descriptors h)
            (gather-Gathers memory v h chain.descriptors))
  ]

-- The bytes that `packet_bytes` gives a packet are read as that packet, if its header's fields have
-- the widths of their Rust types; and it gives bytes to every valid packet.
pub parse_packet-packet_bytes :
    (p : VsockPacket)
    → IsTypedHeader p.header
    → IsValidPacket p
    → (bytes : List ℕ) × (packet_bytes p ≡ ok bytes) × (parse_packet bytes ≡ ok p)
unfolding packet_bytes
parse_packet-packet_bytes p typed valid = (
  encode_header p.header ++ p.payload,
  rw (validate_packet_complete p valid) refl,
  rw back at (parse_packet_complete (encode_header p.header ++ p.payload) whole (rw back valid)),
)
  where
    front : take 44 (encode_header p.header ++ p.payload) ≡ encode_header p.header
    front =
        take-append_left (encode_header p.header) p.payload 44 (sym (length-encode_header p.header))

    back : packet_of (encode_header p.header ++ p.payload) ≡ p
    back =
        ap₂ (λ h bs. record { header = h; payload = bs })
          (ap header_of front ∙ header_of-encode_header p.header typed)
          (drop-append_left (encode_header p.header) p.payload 44
            (sym (length-encode_header p.header)))

    whole :
        count (encode_header p.header ++ p.payload)
        ≡ 44 + (header_of (take 44 (encode_header p.header ++ p.payload))).length
    whole =
        length-append (encode_header p.header) p.payload
        ∙ ap₂ (λ m n. m + n) (length-encode_header p.header)
            (sym (ap (λ q. q.header.length) back ∙ valid.length))

pub read_packet-IsSettled :
    (memory : DmaMemory) (chain : DescriptorChain)
    → IsDisjoint memory.segments
    → (h : Host) → IsSettled (read_packet memory chain h).0
read_packet-IsSettled memory chain v h =
    go (read_packet memory chain h) (read_packet-ReadsPacket memory chain v h)
  where
    go : (r : Outcome VsockPacket × Host) → ReadsPacket memory chain h r → IsSettled r.0
    go (ok p, g) r = tt
    go (err e, g) r = tt
    go (panic, g) r = r
    go (hang, g) r = r
