-- ===== src/Memory/Request/Parse.antt =====
-- `parse_request` and `write_response` on every chain.
use libvirtio.Base.{
  ℕ, suc, ◌<◌, ◌^◌, ◌≡◌, ◌⊎◌, inl, inr, refl, ap, true, false, not, ◌||◌, List, [], ◌∷◌, length,
  arith, ◌==◌, Bool-cases,
}
use libvirtio.Base.Bytes.{to_le_bytes, from_le_bytes, from_le_bytes-to_le_bytes}
use libvirtio.Error.{DeviceError}
use libvirtio.Outcome.{Outcome, ok, err, panic, hang}
use libvirtio.State.{continue_with, reader_cases, IsSettled}
use libvirtio.Dma.{DmaMemory}
use libvirtio.Dma.Segments.{IsDisjoint}
use libvirtio.Lease.{Host}
use libvirtio.Lease.Write.{NoAlias}
use libvirtio.Queue.{Descriptor, DescriptorChain, slice, read_bytes, write_bytes}
use libvirtio.Queue.Access.{Holds, read_bytes_sound, read_bytes-Reads, read_bytes-IsSettled}
use libvirtio.Queue.Written.{Wrote, write_cases}
use libvirtio.Transfer.{is_writable}
use libvirtio.Transfer.Same.{read_array-read_bytes, write_array-write_bytes}
use libvirtio.Memory.Request.{
  MemoryRequest, MemoryResponse, interpret_request, parse_request, response_type, response_bytes,
  write_response,
}
use libvirtio.Memory.Request.Wire.{IsRequestChain, decode_request}

-- What `parse_request` is to do.
abbrev pub Parses : DmaMemory → DescriptorChain → Host → Outcome MemoryRequest × Host → Type 0
Parses memory chain h (ok r, g) =
    (g ≡ h)
    × (c : IsRequestChain chain) × (bytes : List ℕ) × (length bytes ≡ 24)
    × Holds memory h c.request.address bytes
    × (decode_request bytes ≡ ok r)
Parses memory chain h (err e, g) = g ≡ h
Parses memory chain h (panic, g) = ⊥
Parses memory chain h (hang, g) = ⊥

interpret_settles :
    (ty addr blocks : ℕ)
    → ((r : MemoryRequest) × (interpret_request ty addr blocks ≡ ok r))
      ⊎ ((e : DeviceError) × (interpret_request ty addr blocks ≡ err e))
unfolding interpret_request
interpret_settles ty addr blocks = elim (Bool-cases (ty == 0)) [
  | inl a ↦ inl (MemoryRequest.plug addr blocks, rw a)
  | inr a ↦ elim (Bool-cases (ty == 1)) [
    | inl b ↦ inl (MemoryRequest.unplug addr blocks, rw (a, b))
    | inr b ↦ elim (Bool-cases (ty == 2)) [
      | inl c ↦ inl (MemoryRequest.unplug_all, rw (a, b, c))
      | inr c ↦ elim (Bool-cases (ty == 3)) [
        | inl d ↦ inl (MemoryRequest.state addr blocks, rw (a, b, c, d))
        | inr d ↦ inr (DeviceError.descriptor "unknown virtio-mem request", rw (a, b, c, d))
      ]
    ]
  ]
]

module _ (memory : DmaMemory) (v : IsDisjoint memory.segments) (head : ℕ) (h : Host) where
  abbrev chain_of : List Descriptor → DescriptorChain
  chain_of ds = record { head = head; descriptors = ds }

  module _ (a b : Descriptor) where
    request_rejected :
        (is_writable a || not (a.length == 24)) ≡ true
        → parse_request memory (chain_of (a ∷ b ∷ [])) h
          ≡ (err (DeviceError.descriptor "invalid virtio-mem request descriptor"), h)
    unfolding parse_request continue_with
    request_rejected e = rw e

    response_rejected :
        (is_writable a || not (a.length == 24)) ≡ false
        → (not (is_writable b) || not (b.length == 10)) ≡ true
        → parse_request memory (chain_of (a ∷ b ∷ [])) h
          ≡ (err (DeviceError.descriptor "invalid virtio-mem response descriptor"), h)
    unfolding parse_request continue_with
    response_rejected e k = rw (e, k)

    accepted :
        (is_writable a || not (a.length == 24)) ≡ false
        → (not (is_writable b) || not (b.length == 10)) ≡ false
        → parse_request memory (chain_of (a ∷ b ∷ [])) h
          ≡ continue_with (read_bytes memory a.address 24 h) (λ bytes s. (decode_request bytes, s))
    unfolding parse_request continue_with
    accepted e k = rw (e, k, read_array-read_bytes memory a.address 24 h v) refl

    request_shape :
        (is_writable a || not (a.length == 24)) ≡ false → (is_writable a ≡ false) × (a.length ≡ 24)
    request_shape e = ground arith

    response_shape :
        (not (is_writable b) || not (b.length == 10)) ≡ false
        → (is_writable b ≡ true) × (b.length ≡ 10)
    response_shape e = ground arith

    module _ (e : (is_writable a || not (a.length == 24)) ≡ false)
        (k : (not (is_writable b) || not (b.length == 10)) ≡ false) where
      abbrev shape : IsRequestChain (chain_of (a ∷ b ∷ []))
      shape = record {
        request = a;
        response = b;
        both = refl;
        request_readable = (request_shape e).0;
        request_length = (request_shape e).1;
        response_writable = (response_shape k).0;
        response_length = (response_shape k).1;
      }

      parsed_bytes :
          (bytes : List ℕ)
          → read_bytes memory a.address 24 h ≡ (ok bytes, h)
          → Parses memory (chain_of (a ∷ b ∷ [])) h (decode_request bytes, h)
      parsed_bytes bytes q =
          let (_, l, holds) = read_bytes_sound memory a.address 24 h v q in
          elim (interpret_settles (from_le_bytes (slice bytes 0 2))
            (from_le_bytes (slice bytes 8 16)) (from_le_bytes (slice bytes 16 18))) [
              | inl (r, p) ↦ rw p (refl, shape, bytes, l, holds, p)
              | inr (x, p) ↦ rw p refl
            ]

      parsed :
          Parses memory (chain_of (a ∷ b ∷ [])) h (
            continue_with (read_bytes memory a.address 24 h) (λ bytes s. (decode_request bytes, s)))
      unfolding continue_with
      parsed =
          elim (reader_cases (read_bytes memory a.address 24) h
            (λ s. (read_bytes-Reads memory a.address 24 s v).0)
            (read_bytes-IsSettled memory a.address 24 h v)) [
              | inl (bytes, q) ↦ rw q (parsed_bytes bytes q)
              | inr (x, q) ↦ rw q refl
            ]

  too_long : (n : ℕ) → (suc (suc (suc n)) == 2) ≡ false
  too_long n = ground arith

  length_rejected :
      (ds : List Descriptor)
      → (length ds == 2) ≡ false
      → parse_request memory (chain_of ds) h
        ≡ (err (DeviceError.descriptor "virtio-mem request must have two descriptors"), h)
  unfolding parse_request continue_with
  length_rejected ds e = rw e

  on_descriptors :
      (ds : List Descriptor) → Parses memory (chain_of ds) h (parse_request memory (chain_of ds) h)
  on_descriptors [] = rw (length_rejected [] refl) refl
  on_descriptors (a ∷ []) = rw (length_rejected (a ∷ []) refl) refl
  on_descriptors (a ∷ b ∷ []) = elim (Bool-cases (is_writable a || not (a.length == 24))) [
    | inl e ↦ rw (request_rejected a b e) refl
    | inr e ↦ elim (Bool-cases (not (is_writable b) || not (b.length == 10))) [
      | inl k ↦ rw (response_rejected a b e k) refl
      | inr k ↦ rw (accepted a b e k) (parsed a b e k)
    ]
  ]
  on_descriptors (a ∷ b ∷ c ∷ ds) =
      rw (length_rejected (a ∷ b ∷ c ∷ ds) (too_long (length ds))) refl

-- Over disjoint segments `parse_request` neither panics nor runs on, and leaves the host as it was.
-- It returns a request only for a chain of two descriptors, a readable one of 24 bytes and a
-- writable one of 10, and then the request that the first one's bytes in guest memory stand for.
pub parse_request-Parses :
    (memory : DmaMemory) (chain : DescriptorChain) (h : Host)
    → IsDisjoint memory.segments
    → Parses memory chain h (parse_request memory chain h)
parse_request-Parses memory chain h v = on_descriptors memory v chain.head h chain.descriptors

-- What a driver reads of a response: its type and, for a request of the state, the state.
unfoldable pub decode_response : List ℕ → ℕ × ℕ
decode_response bytes = (from_le_bytes (slice bytes 0 2), from_le_bytes (slice bytes 8 10))

-- The type and the state that a response stands for.
unfoldable pub meaning : MemoryResponse → ℕ × ℕ
meaning MemoryResponse.ack = (0, 0)
meaning MemoryResponse.nack = (1, 0)
meaning MemoryResponse.busy = (2, 0)
meaning MemoryResponse.error = (3, 0)
meaning (MemoryResponse.state s) = (0, s)

abbrev pub IsTypedResponse : MemoryResponse → Type 0
IsTypedResponse (MemoryResponse.state s) = s < 256 ^ 2
IsTypedResponse MemoryResponse.ack = Unit {0}
IsTypedResponse MemoryResponse.nack = Unit {0}
IsTypedResponse MemoryResponse.busy = Unit {0}
IsTypedResponse MemoryResponse.error = Unit {0}

decode_response-response_bytes :
    (r : MemoryResponse) → IsTypedResponse r → decode_response (response_bytes r) ≡ meaning r
unfolding decode_response response_bytes meaning to_le_bytes from_le_bytes response_type
decode_response-response_bytes MemoryResponse.ack _ = refl
decode_response-response_bytes MemoryResponse.nack _ = refl
decode_response-response_bytes MemoryResponse.busy _ = refl
decode_response-response_bytes MemoryResponse.error _ = refl
decode_response-response_bytes (MemoryResponse.state s) t =
    ap (λ n. (0, n)) (from_le_bytes-to_le_bytes 2 s t)

length-response_bytes : (r : MemoryResponse) → length (response_bytes r) ≡ 10
unfolding response_bytes response_type to_le_bytes
length-response_bytes MemoryResponse.ack = refl
length-response_bytes MemoryResponse.nack = refl
length-response_bytes MemoryResponse.busy = refl
length-response_bytes MemoryResponse.error = refl
length-response_bytes (MemoryResponse.state s) = refl

-- What `write_response` is to do: the driver finds the response, and nothing else has changed.
abbrev pub Responds : DmaMemory → ℕ → MemoryResponse → Host → Outcome (Unit {0}) × Host → Type 0
Responds memory gpa r h (ok u, g) =
    (bytes : List ℕ) × (length bytes ≡ 10)
    × Wrote memory gpa bytes h g
    × (decode_response bytes ≡ meaning r)
Responds memory gpa r h (err e, g) = g ≡ h
Responds memory gpa r h (panic, g) = ⊥
Responds memory gpa r h (hang, g) = ⊥

write_response_lem :
    (memory : DmaMemory) (chain : DescriptorChain) (c : IsRequestChain chain) (r : MemoryResponse)
    (h : Host)
    → IsDisjoint memory.segments
    → write_response memory chain r h ≡ write_bytes memory c.response.address (response_bytes r) h
unfolding write_response continue_with
write_response_lem memory chain c r h v =
    rw c.both (write_array-write_bytes memory c.response.address (response_bytes r) h v)

-- `write_response` on a chain of a request's shape, over disjoint segments of which no two guest
-- addresses share a host address: it writes the ten bytes that stand for the response to the second
-- descriptor and changes no other byte of the guest, or it fails and leaves the host as it was; a
-- state that is reported is below 2 ^ 16.
pub write_response-Responds :
    (memory : DmaMemory) (chain : DescriptorChain) (c : IsRequestChain chain) (r : MemoryResponse)
    (h : Host)
    → IsDisjoint memory.segments
    → NoAlias memory.segments
    → IsTypedResponse r
    → Responds memory c.response.address r h (write_response memory chain r h)
write_response-Responds memory chain c r h v d t =
    rw (write_response_lem memory chain c r h v)
      (elim (write_cases memory c.response.address (response_bytes r) h v d) [
        | inl (g, e, w) ↦
            rw e (response_bytes r, length-response_bytes r, w, decode_response-response_bytes r t)
        | inr (x, e) ↦ rw e refl
      ])

module _ (memory : DmaMemory) (chain : DescriptorChain) (v : IsDisjoint memory.segments) where
  pub parse_request-IsSettled : (h : Host) → IsSettled (parse_request memory chain h).0
  parse_request-IsSettled h =
      go (parse_request memory chain h) (parse_request-Parses memory chain h v)
    where
      go : (r : Outcome MemoryRequest × Host) → Parses memory chain h r → IsSettled r.0
      go (ok r, g) p = tt
      go (err e, g) p = tt
      go (panic, g) p = p
      go (hang, g) p = p

  pub write_response-IsSettled :
      (r : MemoryResponse) (h : Host)
      → IsRequestChain chain
      → NoAlias memory.segments
      → IsSettled (write_response memory chain r h).0
  write_response-IsSettled r h c d =
      rw (write_response_lem memory chain c r h v)
        (elim (write_cases memory c.response.address (response_bytes r) h v d) [
          | inl (g, e, w) ↦ rw e tt
          | inr (x, e) ↦ rw e tt
        ])
