-- ===== src/Memory/Request/Wire.antt =====
-- The bytes of virtio-mem's requests and responses, as the standard lays them out.
use libvirtio.Base.{
  ℕ, ◌^◌, ◌<◌, ◌≡◌, refl, ap, ◌∙◌, true, false, List, [], ◌∷◌, ◌++◌, length, replicate, arith,
}
use libvirtio.Base.Bytes.{to_le_bytes, from_le_bytes, from_le_bytes-to_le_bytes}
use libvirtio.Outcome.{Outcome, ok}
use libvirtio.State.{continue_with}
use libvirtio.Dma.{DmaMemory}
use libvirtio.Dma.Segments.{IsDisjoint}
use libvirtio.Lease.{Host}
use libvirtio.Queue.{Descriptor, DescriptorChain, slice}
use libvirtio.Queue.Access.{Holds, read_bytes_complete}
use libvirtio.Transfer.{is_writable, read_array}
use libvirtio.Transfer.Same.{read_array-read_bytes}
use libvirtio.Memory.Request.{MemoryRequest, interpret_request, parse_request}

-- A read-only descriptor of 24 bytes, then a writable one of 10.
pub record IsRequestChain (chain : DescriptorChain) : Type 0 where
  pub request : Descriptor
  pub response : Descriptor
  pub both : chain.descriptors ≡ request ∷ response ∷ []
  pub request_readable : is_writable request ≡ false
  pub request_length : request.length ≡ 24
  pub response_writable : is_writable response ≡ true
  pub response_length : response.length ≡ 10

-- What a driver writes: the type, an address and a number of blocks, with padding.
unfoldable pub wire : ℕ → ℕ → ℕ → List ℕ
wire ty addr blocks =
    to_le_bytes 2 ty
    ++ (replicate 6 0 ++ (to_le_bytes 8 addr ++ (to_le_bytes 2 blocks ++ replicate 6 0)))

unfoldable pub encode_request : MemoryRequest → List ℕ
unfolding wire
encode_request (MemoryRequest.plug addr blocks) = wire 0 addr blocks
encode_request (MemoryRequest.unplug addr blocks) = wire 1 addr blocks
encode_request MemoryRequest.unplug_all = wire 2 0 0
encode_request (MemoryRequest.state addr blocks) = wire 3 addr blocks

abbrev pub IsTypedRequest : MemoryRequest → Type 0
IsTypedRequest (MemoryRequest.plug addr blocks) = (addr < 256 ^ 8) × (blocks < 256 ^ 2)
IsTypedRequest (MemoryRequest.unplug addr blocks) = (addr < 256 ^ 8) × (blocks < 256 ^ 2)
IsTypedRequest MemoryRequest.unplug_all = Unit {0}
IsTypedRequest (MemoryRequest.state addr blocks) = (addr < 256 ^ 8) × (blocks < 256 ^ 2)

-- The request that the code takes 24 bytes for.
abbrev pub decode_request : List ℕ → Outcome MemoryRequest
decode_request bytes =
    interpret_request (from_le_bytes (slice bytes 0 2)) (from_le_bytes (slice bytes 8 16))
      (from_le_bytes (slice bytes 16 18))

module _ (ty addr blocks : ℕ) where
  type_lem : slice (wire ty addr blocks) 0 2 ≡ to_le_bytes 2 ty
  unfolding wire to_le_bytes
  type_lem = refl

  addr_lem : slice (wire ty addr blocks) 8 16 ≡ to_le_bytes 8 addr
  unfolding wire to_le_bytes
  addr_lem = refl

  blocks_lem : slice (wire ty addr blocks) 16 18 ≡ to_le_bytes 2 blocks
  unfolding wire to_le_bytes
  blocks_lem = refl

  decode_request-wire :
      ty < 256 ^ 2
      → addr < 256 ^ 8
      → blocks < 256 ^ 2
      → decode_request (wire ty addr blocks) ≡ interpret_request ty addr blocks
  decode_request-wire a b c =
      rw
        (
          type_lem,
          from_le_bytes-to_le_bytes 2 ty a,
          addr_lem,
          from_le_bytes-to_le_bytes 8 addr b,
          blocks_lem,
          from_le_bytes-to_le_bytes 2 blocks c,
        )
        refl

  length-wire : length (wire ty addr blocks) ≡ 24
  unfolding wire to_le_bytes
  length-wire = refl

decode_request-encode_request :
    (r : MemoryRequest) → IsTypedRequest r → decode_request (encode_request r) ≡ ok r
unfolding encode_request interpret_request
decode_request-encode_request (MemoryRequest.plug addr blocks) (a, b) =
    decode_request-wire 0 addr blocks (omega arith) a b
decode_request-encode_request (MemoryRequest.unplug addr blocks) (a, b) =
    decode_request-wire 1 addr blocks (omega arith) a b
decode_request-encode_request MemoryRequest.unplug_all _ =
    decode_request-wire 2 0 0 (omega arith) (omega arith) (omega arith)
decode_request-encode_request (MemoryRequest.state addr blocks) (a, b) =
    decode_request-wire 3 addr blocks (omega arith) a b

length-encode_request : (r : MemoryRequest) → length (encode_request r) ≡ 24
unfolding encode_request
length-encode_request (MemoryRequest.plug addr blocks) = length-wire 0 addr blocks
length-encode_request (MemoryRequest.unplug addr blocks) = length-wire 1 addr blocks
length-encode_request MemoryRequest.unplug_all = length-wire 2 0 0
length-encode_request (MemoryRequest.state addr blocks) = length-wire 3 addr blocks

module _ (memory : DmaMemory) (v : IsDisjoint memory.segments) (head : ℕ)
    (request response : Descriptor) (q1 : is_writable request ≡ false) (q2 : request.length ≡ 24)
    (q3 : is_writable response ≡ true) (q4 : response.length ≡ 10) (h : Host) where
  parse_request_read :
      (o : Outcome (List ℕ))
      → read_array memory request.address 24 h ≡ (o, h)
      → parse_request memory (record { head = head; descriptors = request ∷ response ∷ [] }) h
        ≡ continue_with (o, h) (λ bytes s. (decode_request bytes, s))
  unfolding parse_request continue_with
  parse_request_read o e = rw (q1, q2, q3, q4, e) refl

-- A driver's request in the bytes of a well-formed chain is parsed to that request, over disjoint
-- segments of live memory and if its numbers have the widths of their Rust types.
pub parse_request-encode_request :
    (memory : DmaMemory) (chain : DescriptorChain) (c : IsRequestChain chain) (r : MemoryRequest)
    (h : Host)
    → IsDisjoint memory.segments
    → h.revoked ≡ false
    → IsTypedRequest r
    → Holds memory h c.request.address (encode_request r)
    → parse_request memory chain h ≡ (ok r, h)
unfolding continue_with
parse_request-encode_request memory chain c r h v live typed (small, there) =
    ap (λ ds. parse_request memory (record { head = chain.head; descriptors = ds }) h) c.both
    ∙ parse_request_read memory v chain.head c.request c.response c.request_readable
        c.request_length c.response_writable c.response_length h (ok (encode_request r))
        (read_array-read_bytes memory c.request.address 24 h v
          ∙ read_bytes_complete memory c.request.address 24 (encode_request r) h v live
              (rw (length-encode_request r) at small) (rw (length-encode_request r) at there))
    ∙ ap (λ o. (o, h)) (decode_request-encode_request r typed)
