-- ===== src/Block/Request/Parse.antt =====
-- `parse_request` of src/block.rs on every chain.
use libvirtio.Base.{
  ℕ, ◌≡◌, ◌≢◌, inl, inr, refl, ap, subst, ◌∙◌, Bool, true, false, not, ◌||◌, ◌&&◌, List, [], ◌∷◌,
  map, All, length, arith, ltb, ◌==◌, Bool-cases, replicate,
}
use libvirtio.Base.Bytes.{from_le_bytes}
use libvirtio.Error.{DeviceError}
use libvirtio.Outcome.{
  Outcome, ok, err, reject_if, Decides, reject_if-Decides, >>=-Decides, Decides-iff,
}
use libvirtio.State.{continue_with, reader_cases}
use libvirtio.Dma.{DmaMemory, check_range}
use libvirtio.Dma.Segments.{IsDisjoint}
use libvirtio.Layout.Valid.{IsMappedRange}
use libvirtio.Lease.{Host, with_lease}
use libvirtio.Queue.{Descriptor, DescriptorChain, slice, read_bytes}
use libvirtio.Queue.Access.{
  Holds, read_bytes_sound, read_bytes_complete, read_bytes-Reads, read_bytes-IsSettled,
}
use libvirtio.Transfer.{is_writable}
use libvirtio.Buffers.{range_of}
use libvirtio.Block.{BlockRequestType, BlockRequest}
use libvirtio.Block.Request.{
  descriptor_range, copy_from_lease, request_type_of, payload_ranges, moves_data, inner,
  interpret_request, parse_request,
}
use libvirtio.Block.Request.Header.{header-read_bytes}
use libvirtio.Block.Request.Payload.{IsPayload, check_range-Decides, payload_ranges-Decides}
use libvirtio.Block.Request.Frame.{
  IsParsed, ParsesBlock, framed, length-framed, last_lem, inner_lem, snoc_cases, framed_eq, given,
  missing,
}

module _ (memory : DmaMemory) (v : IsDisjoint memory.segments) (head : ℕ) (h : Host) where
  abbrev chain_of : List Descriptor → DescriptorChain
  chain_of ds = record { head = head; descriptors = ds }

  too_short :
      (ds : List Descriptor)
      → ltb (length ds) 2 ≡ true
      → ParsesBlock memory (chain_of ds) h (parse_request memory (chain_of ds) h)
  unfolding parse_request continue_with
  too_short ds e = rw e (
    refl,
    λ r p.
        let long = length-framed p.header p.status p.payload in
        let same = ap length p.shape in ground (arith, e, long, same),
  )

  module _ (a s : Descriptor) (mid : List Descriptor) where
    abbrev chain : DescriptorChain
    chain = chain_of (framed a s mid)

    long : ltb (length (framed a s mid)) 2 ≡ false
    long = let e = length-framed a s mid in ground (arith, e)

    abbrev header_guard : Bool
    header_guard = is_writable a || not (a.length == 16)

    abbrev status_guard : Bool
    status_guard = not (is_writable s) || not (s.length == 1)

    header_rejected :
        header_guard ≡ true
        → parse_request memory chain h
          ≡ (err (DeviceError.descriptor "invalid block request header"), h)
    unfolding parse_request continue_with
    header_rejected e = rw (long, last_lem a s mid, e) refl

    status_rejected :
        header_guard ≡ false
        → status_guard ≡ true
        → parse_request memory chain h
          ≡ (err (DeviceError.descriptor "invalid block request status byte"), h)
    unfolding parse_request continue_with
    status_rejected e k = rw (long, last_lem a s mid, e, k) refl

    abbrev interpreted : List ℕ → Outcome BlockRequest
    interpreted bytes = interpret_request memory (framed a s mid) (range_of s) bytes

    accepted :
        header_guard ≡ false
        → status_guard ≡ false
        → parse_request memory chain h
          ≡ continue_with (read_bytes memory a.address 16 h) λ bytes w. (interpreted bytes, w)
    unfolding parse_request continue_with descriptor_range
    accepted e k =
        let nonempty : (a.length == 0) ≡ false = ground (arith, e) in
        let status_nonempty : (s.length == 0) ≡ false = ground (arith, k) in
        let sixteen : a.length ≡ 16 = ground (arith, e) in
        rw (long, last_lem a s mid, e, k, nonempty, status_nonempty)
          (ap (λ q. continue_with q (λ bytes w. (interpreted bytes, w)))
            (ap
                (λ n.
                  with_lease memory (record { gpa = a.address; length = n })
                    (copy_from_lease (replicate 16 0)) h)
                sixteen
              ∙ header-read_bytes memory a.address 16 h v))

    abbrev type_of : List ℕ → BlockRequestType
    type_of bytes = request_type_of (from_le_bytes (slice bytes 0 4))

    abbrev found : List ℕ → BlockRequest
    found bytes = record {
      request_type = type_of bytes;
      sector = from_le_bytes (slice bytes 8 16);
      payload = map range_of mid;
      status = range_of s;
    }

    abbrev HasPayload : List ℕ → Type 0
    HasPayload bytes =
        All (IsPayload memory (type_of bytes)) mid
        × (moves_data (type_of bytes) ≡ true → mid ≢ [])
        × IsMappedRange memory (range_of s)

    interpreted-Decides :
        (bytes : List ℕ) → Decides (HasPayload bytes) (found bytes) (interpreted bytes)
    unfolding interpret_request
    interpreted-Decides bytes =
        Decides-iff _ (λ (p, (q, (m, _))). (p, q, m)) (λ (p, q, m). (p, (q, (m, tt))))
          (>>=-Decides (payload_ranges memory (type_of bytes) (inner (framed a s mid))) _
            (rw (inner_lem a s mid) (payload_ranges-Decides memory v (type_of bytes) mid))
            λ _.
              >>=-Decides
                (reject_if (moves_data (type_of bytes) && length (map range_of mid) == 0) _) _
                (reject_if-Decides _ _ _ (given (moves_data (type_of bytes)) mid)
                  (missing (moves_data (type_of bytes)) mid))
                λ _.
                  >>=-Decides (check_range memory (range_of s)) _
                    (check_range-Decides memory v (range_of s)) λ _. inl (tt, refl))

    abbrev Shaped : Type 0
    Shaped = (is_writable a ≡ false) × (a.length ≡ 16) × (is_writable s ≡ true) × (s.length ≡ 1)

    shaped : header_guard ≡ false → status_guard ≡ false → Shaped
    shaped e k = (ground (arith, e), ground (arith, e), ground (arith, k), ground (arith, k))

    -- What a request that stands in this chain tells of its ends and its bytes.
    ends :
        (r : BlockRequest)
        → IsParsed memory chain h r
        → (header_guard ≡ false) × (status_guard ≡ false)
    ends r p =
        let (same_a, same_s, _) = framed_eq a s p.header p.status mid p.payload p.shape in
        let readable : is_writable a ≡ false = rw same_a p.header_readable in
        let sixteen : a.length ≡ 16 = rw same_a p.header_length in
        let writable : is_writable s ≡ true = rw same_s p.status_writable in
        let one : s.length ≡ 1 = rw same_s p.status_length in
        (ground (arith, readable, sixteen), ground (arith, writable, one))

    read_lem :
        (r : BlockRequest) (p : IsParsed memory chain h r)
        → (read_bytes memory a.address 16 h ≡ (ok p.bytes, h)) × HasPayload p.bytes
    read_lem r p =
        let (same_a, same_s, same_mid) = framed_eq a s p.header p.status mid p.payload p.shape in
        let holds : Holds memory h a.address p.bytes = rw same_a p.holds in
        let (below, there) = rw p.bytes_length at holds in
        (
          read_bytes_complete memory a.address 16 p.bytes h v p.live below there,
          (
            rw same_mid (subst (λ t. All (IsPayload memory t) p.payload) p.request_type p.all),
            rw same_mid
                (subst (λ t. moves_data t ≡ true → p.payload ≢ []) p.request_type p.some_payload),
            rw same_s p.status_mapped,
          ),
        )

    module _ (e : header_guard ≡ false) (k : status_guard ≡ false) where
      parsed :
          (bytes : List ℕ)
          → read_bytes memory a.address 16 h ≡ (ok bytes, h)
          → HasPayload bytes
          → IsParsed memory chain h (found bytes)
      parsed bytes read (all, some_payload, mapped) =
          let (readable, sixteen, writable, one) = shaped e k in
          let (live, size, holds) = read_bytes_sound memory a.address 16 h v read in
          record {
            live = live;
            header = a;
            payload = mid;
            status = s;
            shape = refl;
            header_readable = readable;
            header_length = sixteen;
            status_writable = writable;
            status_length = one;
            bytes = bytes;
            bytes_length = size;
            holds = holds;
            request_type = refl;
            sector = refl;
            ranges = refl;
            status_range = refl;
            all = all;
            some_payload = some_payload;
            status_mapped = mapped;
          }

      read_Parses :
          (bytes : List ℕ)
          → read_bytes memory a.address 16 h ≡ (ok bytes, h)
          → Decides (HasPayload bytes) (found bytes) (interpreted bytes)
          → ParsesBlock memory chain h (interpreted bytes, h)
      read_Parses bytes read (inl (has, i)) = rw i (refl, parsed bytes read has)
      read_Parses bytes read (inr (x, i, wrong)) = rw i (
        refl,
        λ r p.
            let (again, has) = read_lem r p in
            let same : bytes ≡ p.bytes = cc (read, again) in wrong (rw same has),
      )

      accepted_Parses :
          ParsesBlock memory chain h
            (continue_with (read_bytes memory a.address 16 h) (λ bytes w. (interpreted bytes, w)))
      unfolding continue_with
      accepted_Parses =
          elim (reader_cases (read_bytes memory a.address 16) h
            (λ w. (read_bytes-Reads memory a.address 16 w v).0)
            (read_bytes-IsSettled memory a.address 16 h v)) [
              | inl (bytes, q) ↦ rw q (read_Parses bytes q (interpreted-Decides bytes))
              | inr (x, q) ↦ rw q (refl, λ r p. let (again, _) = read_lem r p in cc)
            ]

    framed_Parses : ParsesBlock memory chain h (parse_request memory chain h)
    framed_Parses = elim (Bool-cases header_guard) [
      | inl e ↦ rw (header_rejected e) (refl, λ r p. let (good, _) = ends r p in cc)
      | inr e ↦ elim (Bool-cases status_guard) [
        | inl k ↦ rw (status_rejected e k) (refl, λ r p. let (_, good) = ends r p in cc)
        | inr k ↦ rw (accepted e k) (accepted_Parses e k)
      ]
    ]

  on_descriptors :
      (ds : List Descriptor)
      → ParsesBlock memory (chain_of ds) h (parse_request memory (chain_of ds) h)
  on_descriptors [] = too_short [] refl
  on_descriptors (a ∷ []) = too_short (a ∷ []) refl
  on_descriptors (a ∷ b ∷ ds) = let (mid, s, e) = snoc_cases b ds in rw e (framed_Parses a s mid)

-- `parse_request` of src/block.rs, over disjoint segments, neither panics nor runs on, and leaves
-- the host as it was. If it returns a request, that stands in the chain: the memory is not revoked,
-- the chain begins with a readable descriptor of 16 bytes and ends with a writable one of one byte,
-- which is mapped, the type and the sector are those that the 16 bytes encode, and the payload is
-- the ranges of the descriptors between, none of them empty, all mapped, all writable for a request
-- to read and readable for one to write, at least one for these two and none for a flush. If it
-- fails, no request stands in the chain.
pub parse_request-ParsesBlock :
    (memory : DmaMemory) (chain : DescriptorChain) (h : Host)
    → IsDisjoint memory.segments
    → ParsesBlock memory chain h (parse_request memory chain h)
parse_request-ParsesBlock memory chain h v = on_descriptors memory v chain.head h chain.descriptors
