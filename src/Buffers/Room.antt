-- ===== src/Buffers/Room.antt =====
-- The checks of a chain before its bytes are moved: its flags, and its room.
use libvirtio.Base.{
  ℕ, ◌+◌, ◌^◌, ◌≡◌, inl, inr, refl, sym, ◌∙◌, true, false, not, any, All, List, [], ◌∷◌, none, some,
  arith, ltb, Bool-cases, length, length-append, length-range_from,
}
use libvirtio.Queue.{Descriptor}
use libvirtio.Transfer.{is_writable}
use libvirtio.Buffers.{capacity_from}
use libvirtio.Buffers.Gather.{addresses}

pub readable-All :
    (ds : List Descriptor) → any is_writable ds ≡ false → All (λ d. is_writable d ≡ false) ds
readable-All [] e = tt
readable-All (d ∷ ds) e = (ground (arith, e), readable-All ds (ground (arith, e)))

module _ (d : Descriptor) (ds : List Descriptor) (total : ℕ) where
  capacity_from_over : ltb (total + d.length) (2 ^ 64) ≡ false → capacity_from total (d ∷ ds) ≡ none
  unfolding capacity_from
  capacity_from_over e = rw (capacity_from, e) refl

  capacity_from_step :
      ltb (total + d.length) (2 ^ 64) ≡ true
      → capacity_from total (d ∷ ds) ≡ capacity_from (total + d.length) ds
  unfolding capacity_from
  capacity_from_step e = rw (capacity_from, e) refl

  length-addresses : length (addresses (d ∷ ds)) ≡ d.length + length (addresses ds)
  unfolding addresses
  length-addresses = rw (length-append, length-range_from)

some_eq : {a b : ℕ} → some a ≡ some b → b ≡ a
some_eq e = cc

pub capacity_from_sound :
    (ds : List Descriptor) (total : ℕ) {c : ℕ}
    → capacity_from total ds ≡ some c
    → c ≡ total + length (addresses ds)
unfolding capacity_from addresses
capacity_from_sound [] total e = omega (arith, some_eq e)
capacity_from_sound (d ∷ ds) total e = elim (Bool-cases (ltb (total + d.length) (2 ^ 64))) [
  | inl b ↦
      let rest =
        capacity_from_sound ds (total + d.length) (sym (capacity_from_step d ds total b) ∙ e) in
      omega (arith, rest, length-addresses d ds total)
  | inr b ↦ let wrong = sym (capacity_from_over d ds total b) ∙ e in cc
]

pub writable-All :
    (ds : List Descriptor)
    → any (λ d. not (is_writable d)) ds ≡ false
    → All (λ d. is_writable d ≡ true) ds
writable-All [] e = tt
writable-All (d ∷ ds) e = (ground (arith, e), writable-All ds (ground (arith, e)))
