-- ===== src/Buffers/Parts.antt =====
-- The inner loop of `scatter`, over the parts of a lease.
use libvirtio.Base.{
  ℕ, ◌+◌, ◌-◌, ◌≤◌, min, ◌≡◌, inl, inr, refl, sym, ap, ap₂, ◌∙◌, true, false, List, [], ◌∷◌, arith,
  Bool-cases, length, take, drop, ◌==◌, length-drop, length-range_from, length-append,
}
use native.Mathlib.Decide.{dec_le}
use libvirtio.Outcome.{ok}
use libvirtio.State.{continue_with}
use libvirtio.Dma.{DmaPart}
use libvirtio.Dma.Translate.{part_addresses}
use libvirtio.Lease.{Host, write_slice, store}
use libvirtio.Lease.Write.{poke, part_ram}
use libvirtio.Buffers.{scatter_parts}
use libvirtio.Buffers.Deposit.{store-poke_part, poke_nil, take_all, drop_all}

-- What the loop over the parts of a lease leaves.
module _ (bytes : List ℕ) where
  part_stop :
      (offset : ℕ) (p : DmaPart) (ps : List DmaPart) (h : Host)
      → (offset == length bytes) ≡ true
      → scatter_parts bytes offset (p ∷ ps) h ≡ (ok offset, h)
  unfolding scatter_parts
  part_stop offset p ps h e = rw e refl

  part_step :
      (offset : ℕ) (p : DmaPart) (ps : List DmaPart) (h : Host) (count : ℕ)
      → (offset == length bytes) ≡ false
      → min p.length (length bytes - offset) ≡ count
      → scatter_parts bytes offset (p ∷ ps) h
        ≡ scatter_parts bytes
            (offset + count)
            ps
            (record h { ram = store h.ram p.base (take count (drop offset bytes)) })
  unfolding scatter_parts write_slice continue_with
  part_step offset p ps h count e c = rw (e, c) refl

  part_final :
      (offset : ℕ) (ps : List DmaPart) (h : Host)
      → offset ≡ length bytes
      → scatter_parts bytes offset ps h ≡ (ok offset, h)
  unfolding scatter_parts
  part_final offset [] h e = refl
  part_final offset (p ∷ ps) h e = part_stop offset p ps h (ground (arith, e))

  pub scatter_parts_lem :
      (offset : ℕ) (ps : List DmaPart) (h : Host)
      → offset ≤ length bytes
      → scatter_parts bytes offset ps h ≡ (
        ok (min (offset + length (part_addresses ps)) (length bytes)),
        record h { ram = poke h.ram (part_addresses ps) (drop offset bytes) },
      )
  unfolding scatter_parts
  scatter_parts_lem offset [] h le = ap (λ n. (ok n, h)) (omega arith)
  scatter_parts_lem offset (p ∷ ps) h le = elim (Bool-cases (offset == length bytes)) [
    | inl e ↦
        part_stop offset p ps h e
        ∙ ap₂ (λ n ram. (ok n, record h { ram = ram })) (ground (arith, e))
            (sym (
              rw (drop_all offset bytes (ground (arith, e)))
                (poke_nil (part_addresses (p ∷ ps)) h.ram)))
    | inr e ↦ elim (dec_le p.length (length bytes - offset)) [
      | yes fits ↦
          part_step offset p ps h p.length e (omega arith)
          ∙ scatter_parts_lem (offset + p.length) ps _ (ground (arith, e))
          ∙ ap₂ (λ n ram. (ok n, record h { ram = ram })) (omega (arith, total))
              (part_ram bytes offset p ps h.ram (ground (arith, e)))
      | no over ↦
          part_step offset p ps h (length bytes - offset) e (omega arith)
          ∙ part_final (offset + (length bytes - offset)) ps _ (omega arith)
          ∙ ap₂ (λ n ram. (ok n, record h { ram = ram })) (omega (arith, total))
              (ap (store h.ram p.base)
                  (take_all (length bytes - offset) (drop offset bytes) (omega (arith, left)))
                ∙ store-poke_part (drop offset bytes) p.length p.base (part_addresses ps) h.ram
                    (omega (arith, left)))
    ]
  ]
    where
      total : length (part_addresses (p ∷ ps)) ≡ p.length + length (part_addresses ps)
      total = rw (length-append, length-range_from)

      left : length (drop offset bytes) ≡ length bytes - offset
      left = length-drop offset bytes
