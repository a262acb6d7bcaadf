-- ===== src/Rng/Parts.antt =====
-- The loop of `fill_chain` of src/rng.rs over the parts of a lease, and one descriptor filled.
use libvirtio.Base.{
  ℕ, ◌+◌, ◌^◌, ◌≡◌, ◌≢◌, inl, inr, refl, sym, ap, ap₂, ◌∙◌, true, false, List, [], ◌∷◌, ◌++◌, map,
  arith, All, Bool-cases, length, take, drop, range_from, ltb, length-range_from, length-append,
  length-map, range_from-append, take-append_left, drop-append_left,
}
use mathlib.Core.List.{map-append}
use libvirtio.Error.{DeviceError}
use libvirtio.Outcome.{Outcome, ok, err, panic, hang}
use libvirtio.State.{continue_with}
use libvirtio.Dma.{DmaPart, DmaMemory}
use libvirtio.Dma.Segments.{IsDisjoint}
use libvirtio.Dma.Translate.{part_addresses}
use libvirtio.Lease.{Host, store}
use libvirtio.Lease.Read.{guest_byte, length-part_addresses}
use libvirtio.Lease.Write.{NoAlias, poke, part_ram}
use libvirtio.Lease.Held.{Granted, held, dropped, with_lease_on, lease_cases}
use libvirtio.Queue.{Descriptor}
use libvirtio.Buffers.{range_of}
use libvirtio.Buffers.Deposit.{deposit, deposit_outside, guest_byte-poke, store-poke_part}
use libvirtio.Rng.{fill_parts}

module _ (entropy : ℕ → ℕ) where
  -- The `n` bytes of the stream behind the first `position`.
  abbrev pub drawn : ℕ → ℕ → List ℕ
  drawn position n = map entropy (range_from position n)

  pub length-drawn : (position n : ℕ) → length (drawn position n) ≡ n
  length-drawn position n =
      length-map (range_from position n) entropy ∙ length-range_from position n

  pub drawn-add : (p m n : ℕ) → drawn p (m + n) ≡ drawn p m ++ drawn (p + m) n
  drawn-add p m n =
      ap (map entropy) (range_from-append p m n)
      ∙ map-append entropy (range_from p m) (range_from (p + m) n)

  abbrev filled : Host → List ℕ → ℕ → ℕ → Host × ℕ
  filled h xs position n = (record h { ram = poke h.ram xs (drawn position n) }, position + n)

  -- What the loop over the parts of a lease is to do.
  abbrev FillsParts : ℕ → List ℕ → Host → ℕ → Outcome ℕ × (Host × ℕ) → Type 0
  FillsParts total xs h position (ok t, w) =
      (t ≡ total + length xs) × (w ≡ filled h xs position (length xs))
  FillsParts total xs h position (err e, w) = (n : ℕ) × (w ≡ filled h xs position n)
  FillsParts total xs h position (panic, w) = ⊥
  FillsParts total xs h position (hang, w) = ⊥

  poke_part :
      (p : DmaPart) (ps : List DmaPart) (ram : ℕ → ℕ) (position n : ℕ)
      → poke
          (store ram p.base (drawn position p.length))
          (part_addresses ps)
          (drawn (position + p.length) n)
        ≡ poke ram (part_addresses (p ∷ ps)) (drawn position (p.length + n))
  poke_part p ps ram position n =
      let all : drawn position p.length ++ drawn (position + p.length) n
          ≡ drawn position (p.length + n) =
        sym (drawn-add position p.length n) in
      ap₂ (λ bs cs. poke (store ram p.base bs) (part_addresses ps) cs)
        (sym (
            take-append_left (drawn position p.length) (drawn (position + p.length) n) p.length
              (sym (length-drawn position p.length)))
          ∙ ap (take p.length) all)
        (sym (
            drop-append_left (drawn position p.length) (drawn (position + p.length) n) p.length
              (sym (length-drawn position p.length)))
          ∙ ap (drop p.length) all)
      ∙ ap (λ m. poke (store ram p.base (take p.length bytes)) (part_addresses ps) (drop m bytes))
          (omega arith)
      ∙ part_ram bytes 0 p ps ram (omega (arith, length-drawn position (p.length + n)))
    where
      bytes : List ℕ
      bytes = drawn position (p.length + n)

  filled_part :
      (p : DmaPart) (ps : List DmaPart) (h : Host) (position n : ℕ)
      → filled
          (record h { ram = store h.ram p.base (drawn position p.length) })
          (part_addresses ps)
          (position + p.length)
          n
        ≡ filled h (part_addresses (p ∷ ps)) position (p.length + n)
  filled_part p ps h position n =
      ap₂ (λ ram m. (record h { ram = ram }, m)) (poke_part p ps h.ram position n) (omega arith)

  module _ (p : DmaPart) (ps : List DmaPart) (total : ℕ) (h : Host) (position : ℕ) where
    abbrev part_filled : Host
    part_filled = record h { ram = store h.ram p.base (drawn position p.length) }

    part_overflow :
        ltb (total + p.length) (2 ^ 64) ≡ false
        → fill_parts entropy total (p ∷ ps) (h, position) ≡ (
          err (DeviceError.descriptor "virtio-rng length overflow"),
          (part_filled, position + p.length),
        )
    unfolding fill_parts continue_with
    part_overflow e = rw (fill_parts, e) refl

    part_step :
        ltb (total + p.length) (2 ^ 64) ≡ true
        → fill_parts entropy total (p ∷ ps) (h, position)
          ≡ fill_parts entropy (total + p.length) ps (part_filled, position + p.length)
    unfolding fill_parts continue_with
    part_step e = rw (fill_parts, e) refl

    part_then :
        (r : Outcome ℕ × (Host × ℕ))
        → FillsParts (total + p.length) (part_addresses ps) part_filled (position + p.length) r
        → FillsParts total (part_addresses (p ∷ ps)) h position r
    part_then (ok t, w) (count, state) = (
      omega (arith, count, measured),
      state
          ∙ filled_part p ps h position (length (part_addresses ps))
          ∙ ap (filled h (part_addresses (p ∷ ps)) position) (sym measured),
    )
      where
        measured : length (part_addresses (p ∷ ps)) ≡ p.length + length (part_addresses ps)
        measured = rw (length-append, length-range_from)
    part_then (err x, w) (n, state) = (p.length + n, state ∙ filled_part p ps h position n)
    part_then (panic, w) r = absurd r
    part_then (hang, w) r = absurd r

  fill_parts-FillsParts :
      (ps : List DmaPart) (total : ℕ) (h : Host) (position : ℕ)
      → FillsParts total (part_addresses ps) h position (fill_parts entropy total ps (h, position))
  unfolding fill_parts
  fill_parts-FillsParts [] total h position = (omega arith, ap (λ n. (h, n)) (omega arith))
  fill_parts-FillsParts (p ∷ ps) total h position =
      elim (Bool-cases (ltb (total + p.length) (2 ^ 64))) [
        | inl e ↦ rw (part_step p ps total h position e) (
            part_then p ps total h position _ (
              fill_parts-FillsParts ps (total + p.length) (part_filled p ps total h position)
                (position + p.length)))
        | inr e ↦ rw (part_overflow p ps total h position e) (
          p.length,
          ap (λ ram. (record h { ram = ram }, position + p.length))
              (store-poke_part (drawn position p.length) p.length p.base (part_addresses ps) h.ram
                (omega (arith, length-drawn position p.length))),
        )
      ]

module _ (entropy : ℕ → ℕ) (memory : DmaMemory) where
  -- One descriptor filled, or not.
  abbrev pub FillsOne : Descriptor → ℕ → Host → ℕ → Outcome ℕ × (Host × ℕ) → Type 0
  FillsOne d total h position (ok n, (g, position')) =
      (g.revoked ≡ h.revoked)
      × (g.active ≡ h.active)
      × (n ≡ total + d.length)
      × (position' ≡ position + d.length)
      × ((x : ℕ)
          → guest_byte memory g x
            ≡ deposit (guest_byte memory h) (range_from d.address d.length)
                (drawn entropy position d.length) x)
  FillsOne d total h position (err e, (g, position')) =
      (g.active ≡ h.active)
      × ((x : ℕ)
          → All (λ a. a ≢ x) (range_from d.address d.length)
          → guest_byte memory g x ≡ guest_byte memory h x)
  FillsOne d total h position (panic, w) = ⊥
  FillsOne d total h position (hang, w) = ⊥

  abbrev pub fill_one : ℕ → Descriptor → Host × ℕ → Outcome ℕ × (Host × ℕ)
  fill_one total d w = with_lease_on memory (range_of d) (fill_parts entropy total) w

module _ (entropy : ℕ → ℕ) (memory : DmaMemory) (v : IsDisjoint memory.segments)
    (distinct : NoAlias memory.segments) where
  module _ (d : Descriptor) (total : ℕ) (h : Host) (position : ℕ) where
    parts_FillsOne :
        (ps : List DmaPart) (granted : Granted memory (range_of d) h ps)
        → (r : Outcome ℕ × (Host × ℕ))
        → FillsParts entropy total (part_addresses ps) (held h) position r
        → FillsOne entropy memory d total h position (dropped r)
    unfolding guest_byte
    parts_FillsOne ps granted (ok t, w) (count, state) = rw state (
      refl,
      omega arith,
      count ∙ ap (λ n. total + n) measured,
      ap (λ n. position + n) measured,
      rw measured (
          guest_byte-poke memory distinct (part_addresses ps) (range_from d.address d.length)
            (drawn entropy position d.length) h granted.there),
    )
      where
        measured : length (part_addresses ps) ≡ d.length
        measured = length-part_addresses memory.segments (range_of d) ps granted.there
    parts_FillsOne ps granted (err x, w) (n, state) = rw state (
      omega arith,
      λ y out.
          guest_byte-poke memory distinct (part_addresses ps) (range_from d.address d.length)
            (drawn entropy position n) h granted.there y
          ∙ deposit_outside (range_from d.address d.length) (drawn entropy position n)
              (guest_byte memory h) y out,
    )
    parts_FillsOne ps granted (panic, w) r = absurd r
    parts_FillsOne ps granted (hang, w) r = absurd r

    pub fill_one-FillsOne :
        FillsOne entropy memory d total h position (fill_one entropy memory total d (h, position))
    fill_one-FillsOne =
        elim (lease_cases memory (range_of d) (fill_parts entropy total) h position v) [
          | inl (x, e) ↦ rw e (refl, λ y out. refl)
          | inr (ps, granted, e) ↦ rw e (
              parts_FillsOne ps granted _
                (fill_parts-FillsParts entropy ps total (held h) position))
        ]
