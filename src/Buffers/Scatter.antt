-- ===== src/Buffers/Scatter.antt =====
-- Which bytes of the guest `scatter` changes.
use libvirtio.Base.{
  ℕ, ◌+◌, ◌-◌, ◌≤◌, min, ◌≡◌, ◌≢◌, ◌⊎◌, inl, inr, refl, sym, ap, ◌∙◌, true, false, List, [], ◌∷◌,
  map, Option, some, arith, All, All-append_inv, Bool-cases, length, drop, range_from, ◌==◌,
  length-range_from, length-append, drop-drop,
}
use native.Mathlib.Decide.{dec_le}
use libvirtio.Error.{DeviceError}
use libvirtio.Outcome.{Outcome, ok, err, panic, hang}
use libvirtio.State.{continue_with}
use libvirtio.Dma.{DmaPart, DmaMemory, translate}
use libvirtio.Dma.Segments.{IsDisjoint}
use libvirtio.Dma.Translate.{host_address, part_addresses, Translates, translate-Translates}
use libvirtio.Lease.{Host, with_lease}
use libvirtio.Lease.Read.{
  guest_byte, length-part_addresses, with_lease_revoked, with_lease_ok, with_lease_err,
}
use libvirtio.Lease.Write.{NoAlias, poke}
use libvirtio.Queue.{Descriptor}
use libvirtio.Buffers.{range_of, scatter_parts, scatter}
use libvirtio.Buffers.Parts.{scatter_parts_lem}
use libvirtio.Buffers.Gather.{addresses}
use libvirtio.Buffers.Deposit.{
  deposit, deposit_nil, deposit-congr, deposit-append, deposit_outside, guest_byte-poke, drop_all,
}

-- What `scatter` is to do with the bytes from `offset` on.
abbrev pub Scatters : DmaMemory → List ℕ → ℕ → List Descriptor → Host → Outcome ℕ × Host → Type 0
Scatters memory bytes offset ds h (ok n, g) =
    (g.revoked ≡ h.revoked)
    × (g.active ≡ h.active)
    × (n ≡ min (offset + length (addresses ds)) (length bytes))
    × ((x : ℕ)
        → guest_byte memory g x
          ≡ deposit (guest_byte memory h) (addresses ds) (drop offset bytes) x)
Scatters memory bytes offset ds h (err e, g) =
    (g.active ≡ h.active)
    × ((x : ℕ) → All (λ a. a ≢ x) (addresses ds) → guest_byte memory g x ≡ guest_byte memory h x)
Scatters memory bytes offset ds h (panic, g) = ⊥
Scatters memory bytes offset ds h (hang, g) = ⊥

drop-min : (n : ℕ) (bs : List ℕ) → drop (min n (length bs)) bs ≡ drop n bs
drop-min n bs = elim (dec_le n (length bs)) [
  | yes le ↦ ap (λ m. drop m bs) (omega arith)
  | no gt ↦ drop_all (min n (length bs)) bs (omega arith) ∙ sym (drop_all n bs (omega arith))
]

module _ (memory : DmaMemory) (v : IsDisjoint memory.segments) (distinct : NoAlias memory.segments)
    (bytes : List ℕ) where
  -- One descriptor written.
  abbrev WroteOne : ℕ → Descriptor → Host → Host → Type 0
  WroteOne offset d h g =
      (g.revoked ≡ h.revoked)
      × (g.active ≡ h.active)
      × ((x : ℕ)
          → guest_byte memory g x
            ≡ deposit (guest_byte memory h) (range_from d.address d.length) (drop offset bytes) x)

  abbrev write_one : ℕ → Descriptor → Host → Outcome ℕ × Host
  write_one offset d h = with_lease memory (range_of d) (scatter_parts bytes offset) h

  abbrev reached : ℕ → Descriptor → ℕ
  reached offset d = min (offset + d.length) (length bytes)

  translated :
      (offset : ℕ) (d : Descriptor) (h : Host) (ps : List DmaPart)
      → offset ≤ length bytes
      → h.revoked ≡ false
      → translate memory (range_of d) ≡ ok ps
      → map some (part_addresses ps)
        ≡ map (host_address memory.segments) (range_from d.address d.length)
      → (g : Host) × (write_one offset d h ≡ (ok (reached offset d), g)) × WroteOne offset d h g
  unfolding guest_byte
  translated offset d h ps le live t there = (
    record h {
      ram = poke h.ram (part_addresses ps) (drop offset bytes);
      active = h.active + 1 - 1;
    },
    rw
        (
          with_lease_ok memory (range_of d) (scatter_parts bytes offset) h live t,
          scatter_parts_lem bytes offset ps (record h { active = h.active + 1 }) le,
          length-part_addresses memory.segments (range_of d) ps there,
        )
        refl,
    (
      refl,
      omega arith,
      guest_byte-poke memory distinct (part_addresses ps) (range_from d.address d.length)
          (drop offset bytes) h there,
    ),
  )

  write_one_cases :
      (offset : ℕ) (d : Descriptor) (h : Host)
      → offset ≤ length bytes
      → ((g : Host) × (write_one offset d h ≡ (ok (reached offset d), g)) × WroteOne offset d h g)
        ⊎ ((e : DeviceError) × (write_one offset d h ≡ (err e, h)))
  write_one_cases offset d h le = elim (Bool-cases h.revoked) [
    | inl e ↦ inr (_, with_lease_revoked memory (range_of d) (scatter_parts bytes offset) h e)
    | inr e ↦
        live e (translate memory (range_of d)) refl (translate-Translates memory (range_of d) v)
  ]
    where
      live :
          h.revoked ≡ false
          → (o : Outcome (List DmaPart)) → translate memory (range_of d) ≡ o
          → Translates memory.segments (range_of d) (translate memory (range_of d))
          → ((g : Host) × (write_one offset d h ≡ (ok (reached offset d), g))
              × WroteOne offset d h g)
            ⊎ ((e : DeviceError) × (write_one offset d h ≡ (err e, h)))
      live e (ok ps) t w = inl (translated offset d h ps le e t (rw t at w).1)
      live e (err x) t w =
          inr (x, with_lease_err memory (range_of d) (scatter_parts bytes offset) h e t)
      live e panic t w = absurd (rw t at w)
      live e hang t w = absurd (rw t at w)

  scatter_done :
      (offset : ℕ) (d : Descriptor) (ds : List Descriptor) (h : Host)
      → (offset == length bytes) ≡ true
      → scatter memory bytes offset (d ∷ ds) h ≡ (ok offset, h)
  unfolding scatter
  scatter_done offset d ds h e = rw e refl

  scatter_err :
      (offset : ℕ) (d : Descriptor) (ds : List Descriptor) (h : Host) (x : DeviceError)
      → (offset == length bytes) ≡ false
      → write_one offset d h ≡ (err x, h)
      → scatter memory bytes offset (d ∷ ds) h ≡ (err x, h)
  unfolding scatter continue_with
  scatter_err offset d ds h x e w = rw (e, w) refl

  scatter_ok :
      (offset : ℕ) (d : Descriptor) (ds : List Descriptor) (h g : Host)
      → (offset == length bytes) ≡ false
      → write_one offset d h ≡ (ok (reached offset d), g)
      → scatter memory bytes offset (d ∷ ds) h ≡ scatter memory bytes (reached offset d) ds g
  unfolding scatter continue_with
  scatter_ok offset d ds h g e w = rw (e, w) refl

  laid :
      (offset : ℕ) (d : Descriptor) (ds : List Descriptor) (f : ℕ → Option ℕ)
      → deposit
          (deposit f (range_from d.address d.length) (drop offset bytes))
          (addresses ds)
          (drop (reached offset d) bytes)
        ≡ deposit f (addresses (d ∷ ds)) (drop offset bytes)
  unfolding addresses
  laid offset d ds f =
      ap (deposit (deposit f (range_from d.address d.length) (drop offset bytes)) (addresses ds)) (
        drop-min (offset + d.length) bytes
        ∙ sym (drop-drop offset d.length bytes)
        ∙ ap (λ n. drop n (drop offset bytes)) (sym (length-range_from d.address d.length)))
      ∙ sym (deposit-append (range_from d.address d.length) (addresses ds) (drop offset bytes) f)

  measured :
      (d : Descriptor) (ds : List Descriptor)
      → length (addresses (d ∷ ds)) ≡ d.length + length (addresses ds)
  unfolding addresses
  measured d ds = rw (length-append, length-range_from)

  apart :
      (x : ℕ) (d : Descriptor) (ds : List Descriptor)
      → All (λ a. a ≢ x) (addresses (d ∷ ds))
      → All (λ a. a ≢ x) (range_from d.address d.length) × All (λ a. a ≢ x) (addresses ds)
  unfolding addresses
  apart x d ds out = All-append_inv (λ a. a ≢ x) (range_from d.address d.length) (addresses ds) out

  after_one :
      (offset : ℕ) (d : Descriptor) (ds : List Descriptor) (h g : Host)
      → WroteOne offset d h g
      → (r : Outcome ℕ × Host) → Scatters memory bytes (reached offset d) ds g r
      → Scatters memory bytes offset (d ∷ ds) h r
  after_one offset d ds h g (rev, act, w) (ok n, k) (rev', act', m, w') = (
    rev' ∙ rev,
    act' ∙ act,
    omega (arith, m, measured d ds),
    λ x.
        w' x
        ∙ deposit-congr (addresses ds) (drop (reached offset d) bytes) (guest_byte memory g) _ w x
        ∙ ap (λ f. f x) (laid offset d ds (guest_byte memory h)),
  )
  after_one offset d ds h g (rev, act, w) (err x, k) (act', same) = (
    act' ∙ act,
    λ x out.
        let (here, later) = apart x d ds out in
        same x later
        ∙ w x
        ∙ deposit_outside (range_from d.address d.length) (drop offset bytes) (guest_byte memory h)
            x here,
  )
  after_one offset d ds h g w (panic, k) p = absurd p
  after_one offset d ds h g w (hang, k) p = absurd p

  -- Writing bytes from an offset on to the descriptors of a chain, over disjoint segments of which
  -- no two guest addresses share a host address, neither panics nor runs on. If it succeeds, it has
  -- written as many bytes as there are, or as the descriptors have room for: they lie at the
  -- descriptors' addresses in order, a later one over an earlier one, and every other byte of the
  -- guest and the lease state are as before. If it fails, bytes at other addresses are as before.
  pub scatter-Scatters :
      (offset : ℕ) (ds : List Descriptor) (h : Host)
      → offset ≤ length bytes
      → Scatters memory bytes offset ds h (scatter memory bytes offset ds h)
  unfolding scatter addresses deposit
  scatter-Scatters offset [] h le = (refl, refl, omega arith, λ x. refl)
  scatter-Scatters offset (d ∷ ds) h le = elim (Bool-cases (offset == length bytes)) [
    | inl e ↦ rw (scatter_done offset d ds h e) (
      refl,
      refl,
      ground (arith, e),
      λ x.
          ap (λ f. f x)
            (sym (
              ap (deposit (guest_byte memory h) (addresses (d ∷ ds)))
                (drop_all offset bytes (ground (arith, e)))
              ∙ deposit_nil (guest_byte memory h) (addresses (d ∷ ds)))),
    )
    | inr e ↦ elim (write_one_cases offset d h le) [
      | inl (g, w, wrote) ↦ rw (scatter_ok offset d ds h g e w) (
          after_one offset d ds h g wrote (scatter memory bytes (reached offset d) ds g)
            (scatter-Scatters (reached offset d) ds g (omega arith)))
      | inr (x, w) ↦ rw (scatter_err offset d ds h x e w) (refl, λ x out. refl)
    ]
  ]
