-- ===== src/Block/Request/Frame.antt =====
-- The request that stands in a chain, as a driver lays it out, and what the chain determines of it.
use libvirtio.Base.{
  ℕ, suc, ◌-◌, ◌≡◌, ◌≢◌, refl, sym, ap, ◌∙◌, Bool, true, false, ◌&&◌, List, [], ◌∷◌, ◌++◌, map,
  some, All, length, length-append, get_elem?, arith, ◌==◌, take-append_left, cons_eq,
}
use libvirtio.Base.Bytes.{from_le_bytes}
use libvirtio.Outcome.{Outcome, ok, err, panic, hang}
use libvirtio.Dma.{DmaMemory}
use libvirtio.Layout.Valid.{IsMappedRange}
use libvirtio.Lease.{Host}
use libvirtio.Queue.{Descriptor, DescriptorChain, slice}
use libvirtio.Queue.Access.{Holds}
use libvirtio.Transfer.{is_writable}
use libvirtio.Buffers.{range_of}
use libvirtio.Block.{BlockRequest}
use libvirtio.Block.Request.{request_type_of, moves_data, inner}
use libvirtio.Block.Request.Payload.{IsPayload}

-- The request that stands in a chain, on a host.
pub record IsParsed (memory : DmaMemory) (chain : DescriptorChain) (h : Host) (r : BlockRequest)
    : Type 0 where
  pub live : h.revoked ≡ false
  pub header : Descriptor
  pub payload : List Descriptor
  pub status : Descriptor
  pub shape : chain.descriptors ≡ header ∷ (payload ++ (status ∷ []))
  pub header_readable : is_writable header ≡ false
  pub header_length : header.length ≡ 16
  pub status_writable : is_writable status ≡ true
  pub status_length : status.length ≡ 1
  pub bytes : List ℕ
  pub bytes_length : length bytes ≡ 16
  pub holds : Holds memory h header.address bytes
  pub request_type : r.request_type ≡ request_type_of (from_le_bytes (slice bytes 0 4))
  pub sector : r.sector ≡ from_le_bytes (slice bytes 8 16)
  pub ranges : r.payload ≡ map range_of payload
  pub status_range : r.status ≡ range_of status
  pub all : All (IsPayload memory r.request_type) payload
  pub some_payload : moves_data r.request_type ≡ true → payload ≢ []
  pub status_mapped : IsMappedRange memory (range_of status)

-- What `parse_request` is to do.
abbrev pub ParsesBlock : DmaMemory → DescriptorChain → Host → Outcome BlockRequest × Host → Type 0
ParsesBlock memory chain h (ok r, g) = (g ≡ h) × IsParsed memory chain h r
ParsesBlock memory chain h (err e, g) =
    (g ≡ h) × ((r : BlockRequest) → IsParsed memory chain h r → ⊥)
ParsesBlock memory chain h (panic, g) = ⊥
ParsesBlock memory chain h (hang, g) = ⊥

pub get_elem?-last :
    (mid : List Descriptor) (s : Descriptor) → get_elem? (mid ++ (s ∷ [])) (length mid) ≡ some s
get_elem?-last [] s = refl
get_elem?-last (x ∷ mid) s = get_elem?-last mid s

module _ (a s : Descriptor) (mid : List Descriptor) where
  abbrev pub framed : List Descriptor
  framed = a ∷ (mid ++ (s ∷ []))

  pub length-framed : length framed ≡ suc (suc (length mid))
  length-framed = omega (arith, length-append mid (s ∷ []))

  pub last_lem : get_elem? framed (length framed - 1) ≡ some s
  last_lem = ap (get_elem? framed) place ∙ get_elem?-last mid s
    where
      place : length framed - 1 ≡ suc (length mid)
      place = omega (arith, length-framed)

  pub inner_lem : inner framed ≡ mid
  inner_lem = take-append_left mid (s ∷ []) (length framed - 1 - 1) (omega (arith, length-framed))

pub snoc_cases :
    (b : Descriptor) (ds : List Descriptor)
    → (mid : List Descriptor) × (s : Descriptor) × (b ∷ ds ≡ mid ++ (s ∷ []))
snoc_cases b [] = ([], b, refl)
snoc_cases b (c ∷ ds) = let (mid, s, e) = snoc_cases c ds in (b ∷ mid, s, ap (◌∷◌ b) e)

-- Both ends and what is between them are determined by the chain.
pub framed_eq :
    (a s a' s' : Descriptor) (mid mid' : List Descriptor)
    → framed a s mid ≡ framed a' s' mid'
    → (a ≡ a') × (s ≡ s') × (mid ≡ mid')
framed_eq a s a' s' mid mid' e =
    let last : some s ≡ some s' =
      sym (last_lem a s mid) ∙ ap (λ ds. get_elem? ds (length ds - 1)) e ∙ last_lem a' s' mid' in
    ((cons_eq e).0, cc last, sym (inner_lem a s mid) ∙ ap inner e ∙ inner_lem a' s' mid')

pub given :
    (b : Bool) (ds : List Descriptor)
    → (b && length (map range_of ds) == 0) ≡ false
    → b ≡ true
    → ds ≢ []
given true [] e m n = cc
given true (d ∷ ds) e m n = cc
given false ds e m n = cc

pub missing :
    (b : Bool) (ds : List Descriptor)
    → (b && length (map range_of ds) == 0) ≡ true
    → (b ≡ true → ds ≢ [])
    → ⊥
missing true [] e f = f refl refl
missing true (d ∷ ds) e f = ground (arith, e)
missing false ds e f = cc
