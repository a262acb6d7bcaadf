-- ===== src/Queue/Written.antt =====
-- What a write leaves behind, in terms of the guest's bytes.
use libvirtio.Base.{
  ℕ, ◌+◌, ◌≤◌, ◌<◌, ◌≡◌, ◌⊎◌, inl, inr, refl, sym, ap, ◌∙◌, false, List, length, map-range_from,
}
use libvirtio.Error.{DeviceError}
use libvirtio.Outcome.{Outcome, ok, err, panic, hang}
use libvirtio.Dma.{DmaMemory}
use libvirtio.Dma.Segments.{IsDisjoint}
use libvirtio.Lease.{Host}
use libvirtio.Lease.Read.{guest_byte}
use libvirtio.Lease.Write.{NoAlias, Writes}
use libvirtio.Queue.{write_bytes}
use libvirtio.Queue.Access.{Holds, write_bytes-Writes, written_bytes, outside}

-- The same bytes in the guest's memory at some addresses.
abbrev pub SameBytes : DmaMemory → Host → Host → (ℕ → Type 0) → Type 0
SameBytes memory h g P = (x : ℕ) → P x → guest_byte memory g x ≡ guest_byte memory h x

pub Holds-same :
    (memory : DmaMemory) (h g : Host) (gpa : ℕ) (bytes : List ℕ)
    → Holds memory h gpa bytes
    → SameBytes memory h g (λ x. (gpa ≤ x) × (x < gpa + length bytes))
    → Holds memory g gpa bytes
Holds-same memory h g gpa bytes (small, there) same = (
  small,
  there
      ∙ map-range_from (guest_byte memory h) (guest_byte memory g) gpa (length bytes)
          λ x lo hi. sym (same x (lo, hi)),
)

-- A write that returned: what it leaves.
pub record Wrote (memory : DmaMemory) (gpa : ℕ) (bytes : List ℕ) (h g : Host) : Type 0 where
  pub live : g.revoked ≡ false
  pub leases : g.active ≡ h.active
  pub written : Holds memory g gpa bytes
  pub rest : SameBytes memory h g (λ x. (x < gpa) ⊎ (gpa + length bytes ≤ x))

-- A write succeeds and writes, or fails and leaves the host as it was.
pub write_cases :
    (memory : DmaMemory) (gpa : ℕ) (bytes : List ℕ) (h : Host)
    → IsDisjoint memory.segments
    → NoAlias memory.segments
    → ((g : Host) × (write_bytes memory gpa bytes h ≡ (ok tt, g)) × Wrote memory gpa bytes h g)
      ⊎ ((e : DeviceError) × (write_bytes memory gpa bytes h ≡ (err e, h)))
write_cases memory gpa bytes h v d =
    go (write_bytes memory gpa bytes h) refl (write_bytes-Writes memory gpa bytes h v d)
  where
    go :
        (r : Outcome (Unit {0}) × Host)
        → write_bytes memory gpa bytes h ≡ r
        → Writes memory gpa bytes h r
        → ((g : Host) × (write_bytes memory gpa bytes h ≡ (ok tt, g)) × Wrote memory gpa bytes h g)
          ⊎ ((e : DeviceError) × (write_bytes memory gpa bytes h ≡ (err e, h)))
    go (ok u, g) q (_, small, live, leases, w) = inl (
      g,
      q,
      record {
        live = live;
        leases = leases;
        written = (small, written_bytes memory gpa bytes h g w);
        rest = λ x out. w x ∙ outside gpa bytes x (guest_byte memory h x) out;
      },
    )
    go (err x, g) q (same, _) = inr (x, q ∙ ap (λ t. (err x, t)) same)
    go (panic, g) q w = absurd w
    go (hang, g) q w = absurd w
