-- ===== src/Block/Execute/Sums.antt =====
-- The lengths that `execute_blocking` sums: those of the buffers.
use libvirtio.Base.{
  ℕ, ◌+◌, ◌^◌, ◌≡◌, inl, inr, refl, sym, ap, ◌∙◌, Bool, true, false, ◌&&◌, List, [], ◌∷◌, ◌++◌,
  none, some, arith, ltb, Bool-cases, Option-cases, length, length-append, length-range_from,
  range_from,
}
use mathlib.Core.List.{append_assoc}
use libvirtio.Dma.{DmaPart}
use libvirtio.Dma.Translate.{part_addresses}
use libvirtio.Block.Execute.{sum_parts, sum_leases, sum_used, buffers}

pub part_addresses-append :
    (ps qs : List DmaPart) → part_addresses (ps ++ qs) ≡ part_addresses ps ++ part_addresses qs
part_addresses-append [] qs = refl
part_addresses-append (p ∷ ps) qs =
    ap (λ xs. range_from p.base p.length ++ xs) (part_addresses-append ps qs)
    ∙ sym (append_assoc (range_from p.base p.length) (part_addresses ps) (part_addresses qs))

some_eq : {a b : ℕ} → some a ≡ some b → b ≡ a
some_eq e = cc

module _ (p : DmaPart) (ps : List DmaPart) (total : ℕ) where
  measured : length (part_addresses (p ∷ ps)) ≡ p.length + length (part_addresses ps)
  measured = rw (length-append, length-range_from)

  sum_over : ltb (total + p.length) (2 ^ 64) ≡ false → sum_parts total (p ∷ ps) ≡ none
  unfolding sum_parts
  sum_over e = rw (sum_parts, e) refl

  sum_step :
      ltb (total + p.length) (2 ^ 64) ≡ true
      → sum_parts total (p ∷ ps) ≡ sum_parts (total + p.length) ps
  unfolding sum_parts
  sum_step e = rw (sum_parts, e) refl

  abbrev small : Bool
  small = ltb p.length (2 ^ 32) && ltb (total + p.length) (2 ^ 32)

  used_over : small ≡ false → sum_used total (p ∷ ps) ≡ none
  unfolding sum_used
  used_over e = rw (sum_used, e) refl

  used_step : small ≡ true → sum_used total (p ∷ ps) ≡ sum_used (total + p.length) ps
  unfolding sum_used
  used_step e = rw (sum_used, e) refl

pub sum_parts_sound :
    (ps : List DmaPart) (total : ℕ) {n : ℕ}
    → sum_parts total ps ≡ some n
    → n ≡ total + length (part_addresses ps)
unfolding sum_parts
sum_parts_sound [] total e = omega (arith, some_eq e)
sum_parts_sound (p ∷ ps) total e = elim (Bool-cases (ltb (total + p.length) (2 ^ 64))) [
  | inl b ↦
      let rest = sum_parts_sound ps (total + p.length) (sym (sum_step p ps total b) ∙ e) in
      omega (arith, rest, measured p ps total)
  | inr b ↦ let wrong = sym (sum_over p ps total b) ∙ e in cc
]

pub sum_used_sound :
    (ps : List DmaPart) (total : ℕ) {n : ℕ}
    → sum_used total ps ≡ some n
    → n ≡ total + length (part_addresses ps)
unfolding sum_used
sum_used_sound [] total e = omega (arith, some_eq e)
sum_used_sound (p ∷ ps) total e = elim (Bool-cases (small p ps total)) [
  | inl b ↦
      let rest = sum_used_sound ps (total + p.length) (sym (used_step p ps total b) ∙ e) in
      omega (arith, rest, measured p ps total)
  | inr b ↦ let wrong = sym (used_over p ps total b) ∙ e in cc
]

module _ (ps : List DmaPart) (pss : List (List DmaPart)) (total : ℕ) where
  leases_over : sum_parts total ps ≡ none → sum_leases total (ps ∷ pss) ≡ none
  unfolding sum_leases
  leases_over e = rw (sum_leases, e) refl

  leases_step :
      {m : ℕ} → sum_parts total ps ≡ some m → sum_leases total (ps ∷ pss) ≡ sum_leases m pss
  unfolding sum_leases
  leases_step e = rw (sum_leases, e) refl

  measured_leases :
      length (part_addresses (buffers (ps ∷ pss)))
      ≡ length (part_addresses ps) + length (part_addresses (buffers pss))
  unfolding buffers
  measured_leases =
      ap length (part_addresses-append ps (buffers pss))
      ∙ length-append (part_addresses ps) (part_addresses (buffers pss))

pub sum_leases_sound :
    (pss : List (List DmaPart)) (total : ℕ) {n : ℕ}
    → sum_leases total pss ≡ some n
    → n ≡ total + length (part_addresses (buffers pss))
unfolding sum_leases buffers
sum_leases_sound [] total e = omega (arith, some_eq e)
sum_leases_sound (ps ∷ pss) total e = elim (Option-cases (sum_parts total ps)) [
  | inl k ↦ let wrong = sym (leases_over ps pss total k) ∙ e in cc
  | inr (m, k) ↦
      let rest = sum_leases_sound pss m (sym (leases_step ps pss total k) ∙ e) in
      let one = sum_parts_sound ps total k in omega (arith, rest, one, measured_leases ps pss total)
]
