-- ===== src/Console/Capacity.antt =====
-- How much room `writable_capacity` of src/console.rs finds in a chain.
use libvirtio.Base.{
  ℕ, ◌+◌, ◌^◌, ◌<◌, ◌≡◌, ◌↔◌, inl, inr, refl, sym, ap, ◌∙◌, true, false, All, List, [], ◌∷◌, arith,
  ltb, Bool-cases, length, length-append, length-range_from,
}
use libvirtio.Error.{DeviceError}
use libvirtio.Outcome.{ok, err}
use libvirtio.Queue.{Descriptor, DescriptorChain}
use libvirtio.Transfer.{is_writable}
use libvirtio.Buffers.Gather.{addresses}
use libvirtio.Console.{writable_capacity_from, writable_capacity}

module _ (d : Descriptor) (ds : List Descriptor) (total : ℕ) where
  readable_err :
      is_writable d ≡ false
      → writable_capacity_from total (d ∷ ds)
        ≡ err (DeviceError.descriptor "console receive chain is readable")
  unfolding writable_capacity_from
  readable_err a = rw (writable_capacity_from, a) refl

  over_err :
      is_writable d ≡ true
      → ltb (total + d.length) (2 ^ 64) ≡ false
      → writable_capacity_from total (d ∷ ds)
        ≡ err (DeviceError.descriptor "console receive capacity overflows usize")
  unfolding writable_capacity_from
  over_err a b = rw (writable_capacity_from, a, b) refl

  step :
      is_writable d ≡ true
      → ltb (total + d.length) (2 ^ 64) ≡ true
      → writable_capacity_from total (d ∷ ds) ≡ writable_capacity_from (total + d.length) ds
  unfolding writable_capacity_from
  step a b = rw (writable_capacity_from, a, b) refl

  measured : length (addresses (d ∷ ds)) ≡ d.length + length (addresses ds)
  unfolding addresses
  measured = rw (length-append, length-range_from)

ok_eq : {m n : ℕ} → ok m ≡ ok n → n ≡ m
ok_eq e = cc

-- From `total` on; `total` is below 2 ^ 64.
sound :
    (ds : List Descriptor) (total n : ℕ)
    → total < 2 ^ 64
    → writable_capacity_from total ds ≡ ok n
    → All (λ d. is_writable d ≡ true) ds × (n ≡ total + length (addresses ds)) × (n < 2 ^ 64)
unfolding writable_capacity_from addresses
sound [] total n small e = (tt, omega (arith, ok_eq e), omega (arith, ok_eq e))
sound (d ∷ ds) total n small e = elim (Bool-cases (is_writable d)) [
  | inr a ↦ let wrong = sym (readable_err d ds total a) ∙ e in cc
  | inl a ↦ elim (Bool-cases (ltb (total + d.length) (2 ^ 64))) [
    | inr b ↦ let wrong = sym (over_err d ds total a b) ∙ e in cc
    | inl b ↦
        let (all, sum, low) =
          sound ds (total + d.length) n (ground (arith, b)) (sym (step d ds total a b) ∙ e) in
        ((a, all), omega (arith, sum, measured d ds total), low)
  ]
]

complete :
    (ds : List Descriptor) (total : ℕ)
    → All (λ d. is_writable d ≡ true) ds
    → total + length (addresses ds) < 2 ^ 64
    → writable_capacity_from total ds ≡ ok (total + length (addresses ds))
unfolding writable_capacity_from addresses
complete [] total all small = ap ok (omega arith)
complete (d ∷ ds) total (a, all) small =
    let within : total + d.length + length (addresses ds) < 2 ^ 64 =
      omega (arith, small, measured d ds total) in
    let fits : total + d.length < 2 ^ 64 = omega (arith, within) in
    step d ds total a (ground (arith, fits))
    ∙ complete ds (total + d.length) all within
    ∙ ap ok (omega (arith, measured d ds total))

-- `writable_capacity` finds the room `n` in a chain exactly if the chain has no readable descriptor
-- and `n` is the sum of the lengths of its descriptors and below 2 ^ 64.
pub writable_capacity_iff :
    (chain : DescriptorChain) (n : ℕ)
    → (writable_capacity chain ≡ ok n) ↔ (
        All (λ d. is_writable d ≡ true) chain.descriptors
        × (n ≡ length (addresses chain.descriptors))
        × (n < 2 ^ 64))
unfolding writable_capacity
writable_capacity_iff chain n = (
  λ e.
      let (all, sum, small) = sound chain.descriptors 0 n (omega arith) e in
      (all, omega (arith, sum), small),
  λ (all, sum, small).
      complete chain.descriptors 0 all (omega (arith, sum, small)) ∙ ap ok (omega (arith, sum)),
)
