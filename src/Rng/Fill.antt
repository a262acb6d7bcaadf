-- ===== src/Rng/Fill.antt =====
-- `fill_chain` of src/rng.rs: which bytes of the guest it fills, and with what.
use libvirtio.Base.{
  ℕ, ◌+◌, ◌^◌, ◌<◌, ◌≡◌, ◌≢◌, inl, inr, refl, sym, ap, ◌∙◌, true, false, not, ◌||◌, List, [], ◌∷◌,
  Option, arith, All, All-append_inv, Bool-cases, length, range_from, ◌==◌, ltb, ltb→lt,
  length-range_from, length-append,
}
use libvirtio.Error.{DeviceError}
use libvirtio.Outcome.{Outcome, ok, err, panic, hang}
use libvirtio.State.{continue_with}
use libvirtio.Dma.{DmaMemory}
use libvirtio.Dma.Segments.{IsDisjoint}
use libvirtio.Lease.{Host}
use libvirtio.Lease.Read.{guest_byte}
use libvirtio.Lease.Write.{NoAlias}
use libvirtio.Queue.{Descriptor, DescriptorChain}
use libvirtio.Transfer.{is_writable}
use libvirtio.Buffers.Gather.{addresses}
use libvirtio.Buffers.Deposit.{deposit, deposit-congr, deposit_outside, deposit_halves}
use libvirtio.Rng.Parts.{drawn, length-drawn, drawn-add, FillsOne, fill_one, fill_one-FillsOne}
use libvirtio.Rng.{fill_descriptors, fill_chain}

-- A descriptor that `fill_chain` takes.
abbrev pub IsFillable : Descriptor → Type 0
IsFillable d = (is_writable d ≡ true) × ((d.length == 0) ≡ false)

module _ (entropy : ℕ → ℕ) (memory : DmaMemory) where
  -- What `fill_chain` is to do, less the bound on the length.
  abbrev pub Fills : ℕ → List Descriptor → Host → ℕ → Outcome ℕ × (Host × ℕ) → Type 0
  Fills total ds h position (ok n, (g, position')) =
      (g.revoked ≡ h.revoked)
      × (g.active ≡ h.active)
      × All IsFillable ds
      × (n ≡ total + length (addresses ds))
      × (position' ≡ position + length (addresses ds))
      × ((x : ℕ)
          → guest_byte memory g x
            ≡ deposit (guest_byte memory h) (addresses ds)
                (drawn entropy position (length (addresses ds))) x)
  Fills total ds h position (err e, (g, position')) =
      (g.active ≡ h.active)
      × ((x : ℕ) → All (λ a. a ≢ x) (addresses ds) → guest_byte memory g x ≡ guest_byte memory h x)
  Fills total ds h position (panic, w) = ⊥
  Fills total ds h position (hang, w) = ⊥

  -- What `fill_chain` is to do.
  abbrev pub FillsChain : DescriptorChain → Host → ℕ → Outcome ℕ × (Host × ℕ) → Type 0
  FillsChain chain h position (ok n, w) =
      (n < 2 ^ 32) × Fills 0 chain.descriptors h position (ok n, w)
  FillsChain chain h position (err e, w) = Fills 0 chain.descriptors h position (err e, w)
  FillsChain chain h position (panic, w) = ⊥
  FillsChain chain h position (hang, w) = ⊥

module _ (entropy : ℕ → ℕ) (memory : DmaMemory) (v : IsDisjoint memory.segments)
    (distinct : NoAlias memory.segments) where
  module _ (d : Descriptor) (ds : List Descriptor) (total : ℕ) (h : Host) (position : ℕ) where
    descriptor_rejected :
        (not (is_writable d) || d.length == 0) ≡ true
        → fill_descriptors entropy memory total (d ∷ ds) (h, position)
          ≡ (err (DeviceError.descriptor "virtio-rng descriptor is not writable"), (h, position))
    unfolding fill_descriptors continue_with
    descriptor_rejected e = rw (fill_descriptors, e) refl

    descriptor_taken :
        (not (is_writable d) || d.length == 0) ≡ false
        → fill_descriptors entropy memory total (d ∷ ds) (h, position)
          ≡ continue_with
              (fill_one entropy memory total d (h, position))
              λ n w. fill_descriptors entropy memory n ds w
    unfolding fill_descriptors continue_with
    descriptor_taken e = rw (fill_descriptors, e) refl

    measured_rest : length (addresses (d ∷ ds)) ≡ d.length + length (addresses ds)
    unfolding addresses
    measured_rest = rw (length-append, length-range_from)

    laid :
        (f : ℕ → Option ℕ)
        → deposit
            (deposit f (range_from d.address d.length) (drawn entropy position d.length))
            (addresses ds)
            (drawn entropy (position + d.length) (length (addresses ds)))
          ≡ deposit f (addresses (d ∷ ds)) (drawn entropy position (length (addresses (d ∷ ds))))
    unfolding addresses
    laid f =
        rw (length-append, length-range_from, drawn-add entropy)
          (sym (
            deposit_halves (range_from d.address d.length) (addresses ds)
              (drawn entropy position d.length)
              (drawn entropy (position + d.length) (length (addresses ds))) f
              (length-range_from d.address d.length
                ∙ sym (length-drawn entropy position d.length))))

    apart :
        (x : ℕ)
        → All (λ a. a ≢ x) (addresses (d ∷ ds))
        → All (λ a. a ≢ x) (range_from d.address d.length) × All (λ a. a ≢ x) (addresses ds)
    unfolding addresses
    apart x out = All-append_inv (λ a. a ≢ x) (range_from d.address d.length) (addresses ds) out

    then_rest :
        IsFillable d
        → (n : ℕ) (g : Host) (position' : ℕ)
        → FillsOne entropy memory d total h position (ok n, (g, position'))
        → (r : Outcome ℕ × (Host × ℕ)) → Fills entropy memory n ds g position' r
        → Fills entropy memory total (d ∷ ds) h position r
    then_rest fits n g position' (rev, act, count, place, w) (ok m, (k, q))
          (rev', act', all, count', place', w') =
        (
          rev' ∙ rev,
          act' ∙ act,
          (fits, all),
          omega (arith, count, count', measured_rest),
          omega (arith, place, place', measured_rest),
          λ x.
              w' x
              ∙ deposit-congr (addresses ds) _ (guest_byte memory g) _ w x
              ∙ ap
                  (λ p.
                    deposit
                      (deposit (guest_byte memory h) (range_from d.address d.length)
                        (drawn entropy position d.length))
                      (addresses ds) (drawn entropy p (length (addresses ds))) x)
                  place
              ∙ ap (λ f. f x) (laid (guest_byte memory h)),
        )
    then_rest fits n g position' (rev, act, count, place, w) (err e, (k, q)) (act', same) = (
      act' ∙ act,
      λ x out.
          let (here, later) = apart x out in
          same x later ∙ w x ∙ deposit_outside (range_from d.address d.length) _ _ x here,
    )
    then_rest fits n g position' w (panic, k) r = absurd r
    then_rest fits n g position' w (hang, k) r = absurd r

    fillable : (not (is_writable d) || d.length == 0) ≡ false → IsFillable d
    fillable e = (ground (arith, e), ground (arith, e))

    then_Fills :
        IsFillable d
        → (r : Outcome ℕ × (Host × ℕ)) → FillsOne entropy memory d total h position r
        → ((n : ℕ) (g : Host) (position' : ℕ)
            → Fills entropy memory n ds g position'
                (fill_descriptors entropy memory n ds (g, position')))
        → Fills entropy memory total
            (d ∷ ds)
            h
            position
            (continue_with r (λ n w. fill_descriptors entropy memory n ds w))
    unfolding continue_with
    then_Fills fits (ok n, (g, q)) one rest = then_rest fits n g q one _ (rest n g q)
    then_Fills fits (err e, (g, q)) (act, same) rest = (act, λ x out. same x (apart x out).0)
    then_Fills fits (panic, w) one rest = absurd one
    then_Fills fits (hang, w) one rest = absurd one

  fill_descriptors-Fills :
      (ds : List Descriptor) (total : ℕ) (h : Host) (position : ℕ)
      → Fills entropy memory total ds h position
          (fill_descriptors entropy memory total ds (h, position))
  unfolding fill_descriptors addresses deposit
  fill_descriptors-Fills [] total h position = (refl, refl, tt, omega arith, omega arith, λ x. refl)
  fill_descriptors-Fills (d ∷ ds) total h position =
      elim (Bool-cases (not (is_writable d) || d.length == 0)) [
        | inl e ↦ rw (descriptor_rejected d ds total h position e) (refl, λ x out. refl)
        | inr e ↦ rw (descriptor_taken d ds total h position e) (
            then_Fills d ds total h position (fillable d ds total h position e) _
              (fill_one-FillsOne entropy memory v distinct d total h position)
              (λ n g q. fill_descriptors-Fills ds n g q))
      ]

  limited :
      (chain : DescriptorChain) (h : Host) (position : ℕ) (r : Outcome ℕ × (Host × ℕ))
      → fill_descriptors entropy memory 0 chain.descriptors (h, position) ≡ r
      → Fills entropy memory 0 chain.descriptors h position r
      → FillsChain entropy memory chain h position (fill_chain entropy memory chain (h, position))
  unfolding fill_chain continue_with
  limited chain h position (ok n, w) e fills = elim (Bool-cases (ltb n (2 ^ 32))) [
    | inl b ↦ rw (e, b) (ltb→lt n (2 ^ 32) b, fills)
    | inr b ↦
        rw (e, b)
          (fills.1, λ x out. fills.5 x ∙ deposit_outside (addresses chain.descriptors) _ _ x out)
  ]
  limited chain h position (err x, w) e fills = rw e fills
  limited chain h position (panic, w) e fills = absurd fills
  limited chain h position (hang, w) e fills = absurd fills

  pub fill_chain-FillsChain :
      (chain : DescriptorChain) (h : Host) (position : ℕ)
      → FillsChain entropy memory chain h position (fill_chain entropy memory chain (h, position))
  fill_chain-FillsChain chain h position =
      limited chain h position _ refl (fill_descriptors-Fills chain.descriptors 0 h position)
