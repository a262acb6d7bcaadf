-- ===== src/Lease/Held.antt =====
-- src/dma.rs: leases held while a part of the state that is not the host's is at work too: a
-- source of bytes, or a file. A lease lives until the end of the block that takes it; one that is
-- dropped a little earlier in the source is not told apart.
use libvirtio.Base.{
  ◌+◌, ◌-◌, ◌^◌, ◌<◌, ◌≡◌, ◌⊎◌, inl, inr, refl, true, false, List, [], ◌∷◌, map, some, arith,
  Bool-cases, range_from,
}
use libvirtio.Error.{DeviceError}
use libvirtio.Outcome.{Outcome, ok, err, panic, hang}
use libvirtio.State.{M, on_host, continue_with, ◌>>=◌}
use libvirtio.Dma.{DmaRange, DmaPart, DmaMemory, translate}
use libvirtio.Dma.Segments.{IsDisjoint}
use libvirtio.Dma.Translate.{host_address, part_addresses, Translates, translate-Translates}
use libvirtio.Lease.{Host, is_down, lease}

abbrev pub held : Host → Host
held h = record h { active = h.active + 1 }

abbrev pub dropped : {T A : Type 0} → Outcome A × (Host × T) → Outcome A × (Host × T)
dropped (o, (h, t)) = (o, (record h { active = h.active - 1 }, t))

unfoldable pub with_lease_on :
    {T A : Type 0} → DmaMemory → DmaRange → (List DmaPart → M (Host × T) A) → M (Host × T) A
unfolding lease
with_lease_on memory r body = do parts ← on_host (lease memory r); λ w. dropped (body parts w)

-- A loop that takes a lease of each range and keeps them all: if one is refused, those before it
-- are dropped.
unfoldable pub with_leases :
    {T A : Type 0}
    → DmaMemory
    → List DmaRange
    → (List (List DmaPart) → M (Host × T) A)
    → M (Host × T) A
unfolding with_lease_on
with_leases memory [] body = body []
with_leases memory (r ∷ rs) body =
    with_lease_on memory r λ parts. with_leases memory rs λ rest. body (parts ∷ rest)

-- A lease that is granted.
pub record Granted (memory : DmaMemory) (r : DmaRange) (h : Host) (ps : List DmaPart) : Type 0 where
  pub live : h.revoked ≡ false
  pub below : r.gpa + r.length < 2 ^ 64
  pub there :
      map some (part_addresses ps) ≡ map (host_address memory.segments) (range_from r.gpa r.length)

module _ {T A : Type 0} (memory : DmaMemory) (r : DmaRange) (body : List DmaPart → M (Host × T) A)
    (h : Host) (t : T) where
  held_revoked : h.revoked ≡ true → with_lease_on memory r body (h, t) ≡ (err is_down, (h, t))
  unfolding with_lease_on continue_with
  held_revoked e = rw e

  held_err :
      {x : DeviceError}
      → h.revoked ≡ false
      → translate memory r ≡ err x
      → with_lease_on memory r body (h, t) ≡ (err x, (h, t))
  unfolding with_lease_on continue_with
  held_err e k = ground arith

  held_ok :
      {ps : List DmaPart}
      → h.revoked ≡ false
      → translate memory r ≡ ok ps
      → with_lease_on memory r body (h, t) ≡ dropped (body ps (held h, t))
  unfolding with_lease_on continue_with
  held_ok e k = rw (e, k)

  -- A lease is refused with nothing changed, or it is granted and the block runs.
  pub lease_cases :
      IsDisjoint memory.segments
      → ((x : DeviceError) × (with_lease_on memory r body (h, t) ≡ (err x, (h, t))))
        ⊎ ((ps : List DmaPart) × Granted memory r h ps
            × (with_lease_on memory r body (h, t) ≡ dropped (body ps (held h, t))))
  lease_cases v = elim (Bool-cases h.revoked) [
    | inl e ↦ inl (is_down, held_revoked e)
    | inr e ↦ live e (translate memory r) refl (translate-Translates memory r v)
  ]
    where
      live :
          h.revoked ≡ false
          → (o : Outcome (List DmaPart)) → translate memory r ≡ o
          → Translates memory.segments r (translate memory r)
          → ((x : DeviceError) × (with_lease_on memory r body (h, t) ≡ (err x, (h, t))))
            ⊎ ((ps : List DmaPart) × Granted memory r h ps
                × (with_lease_on memory r body (h, t) ≡ dropped (body ps (held h, t))))
      live e (ok ps) k w =
          let (below, there) = rw k at w in
          inr (ps, record { live = e; below = below; there = there }, held_ok e k)
      live e (err x) k w = inl (x, held_err e k)
      live e panic k w = absurd (rw k at w)
      live e hang k w = absurd (rw k at w)
