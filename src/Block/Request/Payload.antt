-- ===== src/Block/Request/Payload.antt =====
-- The payload of a block request: which descriptors the loop of `parse_request` takes.
use libvirtio.Base.{
  ◌≡◌, ◌≢◌, inl, inr, refl, true, false, not, List, [], ◌∷◌, map, arith, All, ◌==◌,
}
use libvirtio.Error.{DeviceError}
use libvirtio.Outcome.{
  Outcome, ok, err, panic, hang, reject_if, Decides, reject_if-Decides, >>=-Decides, Decides-iff,
}
use libvirtio.Dma.{DmaRange, DmaPart, DmaMemory, translate, check_range}
use libvirtio.Dma.Translate.{Translates, translate-Translates}
use libvirtio.Dma.Segments.{IsDisjoint}
use libvirtio.Layout.Valid.{IsMappedRange, check_range-IsMappedRange, check_range_complete}
use libvirtio.Queue.{Descriptor}
use libvirtio.Transfer.{is_writable}
use libvirtio.Buffers.{range_of}
use libvirtio.Block.{BlockRequestType}
use libvirtio.Block.Request.{check_access, descriptor_range, payload_ranges}

-- A descriptor that suits the type of the request.
abbrev pub Suits : BlockRequestType → Descriptor → Type 0
Suits BlockRequestType.input d = is_writable d ≡ true
Suits BlockRequestType.output d = is_writable d ≡ false
Suits BlockRequestType.flush d = ⊥
Suits (BlockRequestType.unsupported code) d = Unit {0}

pub record IsPayload (memory : DmaMemory) (ty : BlockRequestType) (d : Descriptor) : Type 0 where
  pub suits : Suits ty d
  pub nonempty : d.length ≢ 0
  pub mapped : IsMappedRange memory (range_of d)

check_access-Decides :
    (ty : BlockRequestType) (d : Descriptor) → Decides (Suits ty d) tt (check_access ty d)
unfolding check_access
check_access-Decides BlockRequestType.input d =
    reject_if-Decides _ (not (is_writable d)) _ (λ e. ground arith) (λ e s. cc)
check_access-Decides BlockRequestType.output d =
    reject_if-Decides _ (is_writable d) _ (λ e. e) (λ e s. cc)
check_access-Decides BlockRequestType.flush d = inr (_, refl, λ s. s)
check_access-Decides (BlockRequestType.unsupported code) d = inl (tt, refl)

descriptor_range-Decides :
    (d : Descriptor) → Decides (d.length ≢ 0) (range_of d) (descriptor_range d)
unfolding descriptor_range
descriptor_range-Decides d =
    Decides-iff _ (λ p. p.0) (λ n. (n, tt))
      (>>=-Decides (reject_if (d.length == 0) (DeviceError.descriptor "zero-length descriptor"))
        (λ _. ok (range_of d))
        (reject_if-Decides (d.length ≢ 0) (d.length == 0) _ (λ e z. ground (arith, e, z))
          (λ e n. n (ground (arith, e))))
        (λ n. inl (tt, refl)))

module _ (memory : DmaMemory) (v : IsDisjoint memory.segments) where
  pub check_range-Decides :
      (r : DmaRange) → Decides (IsMappedRange memory r) tt (check_range memory r)
  unfolding check_range
  check_range-Decides r = go (translate memory r) refl (translate-Translates memory r v)
    where
      go :
          (o : Outcome (List DmaPart))
          → translate memory r ≡ o
          → Translates memory.segments r (translate memory r)
          → Decides (IsMappedRange memory r) tt (check_range memory r)
      go (ok ps) e t =
          let fine : check_range memory r ≡ ok tt = rw (e, check_range) in
          inl (check_range-IsMappedRange memory v r fine, fine)
      go (err x) e t =
          let fails : check_range memory r ≡ err x = rw (e, check_range) in
          inr (x, fails, λ m. let fine = check_range_complete memory v r m in cc)
      go panic e t = absurd (rw e at t)
      go hang e t = absurd (rw e at t)

  -- The loop over the payload succeeds exactly if each descriptor suits the request, is not empty
  -- and is mapped, and then with their ranges.
  pub payload_ranges-Decides :
      (ty : BlockRequestType) (ds : List Descriptor)
      → Decides (All (IsPayload memory ty) ds) (map range_of ds) (payload_ranges memory ty ds)
  unfolding payload_ranges
  payload_ranges-Decides ty [] = inl (tt, refl)
  payload_ranges-Decides ty (d ∷ ds) =
      Decides-iff _
        (λ (s, (n, (m, (all, _)))). (record { suits = s; nonempty = n; mapped = m }, all))
        (λ (p, all). (p.suits, (p.nonempty, (p.mapped, (all, tt)))))
        (>>=-Decides (check_access ty d) _ (check_access-Decides ty d) λ _.
          >>=-Decides (descriptor_range d) _ (descriptor_range-Decides d) λ _.
            >>=-Decides (check_range memory (range_of d)) _ (check_range-Decides (range_of d)) λ _.
              >>=-Decides (payload_ranges memory ty ds) _ (payload_ranges-Decides ty ds)
                λ _. inl (tt, refl))
