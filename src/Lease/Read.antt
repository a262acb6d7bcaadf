-- ===== src/Lease/Read.antt =====
-- Reading through a lease: what is read, and that the host is left as it was.
use libvirtio.Base.{
  ℕ, ◌+◌, ◌-◌, ◌^◌, ◌≤◌, ◌<◌, ◌≡◌, ◌⊎◌, inl, inr, refl, sym, ap, ◌∙◌, true, false, List, [], ◌∷◌,
  map, length, length-map, length-range_from, Option, none, some, arith, Bool-cases, range_from,
}
use libvirtio.Error.{DeviceError}
use libvirtio.Outcome.{Outcome, ok, err, panic, hang, ◌>>=◌ as bind}
use libvirtio.State.{continue_with, M}
use libvirtio.Dma.{DmaSegment, DmaRange, DmaPart, DmaMemory, translate, unmapped}
use libvirtio.Dma.Segments.{IsDisjoint}
use libvirtio.Dma.Translate.{host_address, part_addresses, Translates, translate-Translates}
use libvirtio.Lease.{Host, is_down, with_lease, read_parts}
use mathlib.Core.Option
use mathlib.Core.List.{map-append}

-- The byte that the guest has at an address.
unfoldable pub guest_byte : DmaMemory → Host → ℕ → Option ℕ
guest_byte memory h a = Option.map h.ram (host_address memory.segments a)

pub read_parts_lem :
    (ps : List DmaPart) (h : Host) → read_parts ps h ≡ (ok (map h.ram (part_addresses ps)), h)
unfolding read_parts continue_with
read_parts_lem [] h = refl
read_parts_lem (p ∷ ps) h = rw (read_parts_lem ps h, map-append)

counted : (h : Host) → record h { active = h.active + 1 - 1 } ≡ h
counted h = ap (λ n. record h { active = n }) (omega arith)

pub with_lease_revoked :
    {A : Type 0} (memory : DmaMemory) (r : DmaRange) (body : List DmaPart → M Host A) (h : Host)
    → h.revoked ≡ true
    → with_lease memory r body h ≡ (err is_down, h)
unfolding with_lease continue_with
with_lease_revoked memory r body h e = rw e

pub with_lease_err :
    {A : Type 0} (memory : DmaMemory) (r : DmaRange) (body : List DmaPart → M Host A) (h : Host)
    {x : DeviceError}
    → h.revoked ≡ false
    → translate memory r ≡ err x
    → with_lease memory r body h ≡ (err x, h)
unfolding with_lease continue_with
with_lease_err memory r body h {x} e t = ground arith

pub with_lease_ok :
    {A : Type 0} (memory : DmaMemory) (r : DmaRange) (body : List DmaPart → M Host A) (h : Host)
    {ps : List DmaPart}
    → h.revoked ≡ false
    → translate memory r ≡ ok ps
    → with_lease memory r body h ≡ (
        let (o, g) = body ps (record h { active = h.active + 1 }) in
        (o, record g { active = g.active - 1 }))
unfolding with_lease continue_with
with_lease_ok memory r body h e t = rw (e, t)

-- The outcome of a block that only reads the bytes of its lease.
unfoldable pub leased :
    {A : Type 0} → DmaMemory → DmaRange → (List ℕ → Outcome A) → Host → Outcome A
leased memory r f h = elim h.revoked [
  | true ↦ err is_down
  | false ↦ bind (translate memory r) (λ ps. f (map h.ram (part_addresses ps)))
]

module _ {A : Type 0} (memory : DmaMemory) (r : DmaRange) (f : List ℕ → Outcome A) (h : Host) where
  leased_revoked : h.revoked ≡ true → leased memory r f h ≡ err is_down
  unfolding leased
  leased_revoked e = rw (e, leased)

  leased_live :
      h.revoked ≡ false
      → leased memory r f h ≡ bind (translate memory r) (λ ps. f (map h.ram (part_addresses ps)))
  unfolding leased
  leased_live e = rw (e, leased)

  -- A block that only reads its lease's bytes leaves the host as it was.
  pub with_lease-leased :
      (body : List DmaPart → M Host A)
      → IsDisjoint memory.segments
      → ((ps : List DmaPart) (g : Host) → body ps g ≡ (f (map g.ram (part_addresses ps)), g))
      → with_lease memory r body h ≡ (leased memory r f h, h)
  with_lease-leased body v b = elim (Bool-cases h.revoked) [
    | inl e ↦ rw (with_lease_revoked memory r body h e, leased_revoked e)
    | inr e ↦ live e (translate memory r) refl (translate-Translates memory r v)
  ]
    where
      pair_of : List DmaPart → Host → Outcome A × Host
      pair_of ps g = (f (map h.ram (part_addresses ps)), g)

      live :
          h.revoked ≡ false
          → (o : Outcome (List DmaPart)) → translate memory r ≡ o
          → Translates memory.segments r (translate memory r)
          → with_lease memory r body h ≡ (leased memory r f h, h)
      live e (ok ps) t w =
          rw (with_lease_ok memory r body h e t, leased_live e, t, b) (ap (pair_of ps) (counted h))
      live e (err x) t w = rw (with_lease_err memory r body h e t, leased_live e, t)
      live e panic t w = absurd (rw t at w)
      live e hang t w = absurd (rw t at w)

-- What a read of a range is to do: it returns the bytes that the guest has there, in order; and it
-- fails only if the memory is revoked, or if the range is not mapped as a whole.
abbrev pub Reads : DmaMemory → DmaRange → Host → Outcome (List ℕ) → Type 0
Reads memory r h (ok bs) =
    (h.revoked ≡ false)
    × (r.gpa + r.length < 2 ^ 64)
    × (map some bs ≡ map (guest_byte memory h) (range_from r.gpa r.length))
Reads memory r h (err e) =
    ((h.revoked ≡ true) × (e ≡ is_down))
    ⊎ ((h.revoked ≡ false)
        × (e ≡ unmapped r)
        × ((2 ^ 64 ≤ r.gpa + r.length)
            ⊎ ((a : ℕ) × (r.gpa ≤ a) × (a < r.gpa + r.length) × (guest_byte memory h a ≡ none))))
Reads memory r h panic = ⊥
Reads memory r h hang = ⊥

map-some-map : (f : ℕ → ℕ) (xs : List ℕ) → map some (map f xs) ≡ map (Option.map f) (map some xs)
map-some-map f [] = refl
map-some-map f (x ∷ xs) = ap (◌∷◌ (some (f x))) (map-some-map f xs)

map-guest_byte :
    (memory : DmaMemory) (h : Host) (xs : List ℕ)
    → map (Option.map h.ram) (map (host_address memory.segments) xs) ≡ map (guest_byte memory h) xs
unfolding guest_byte
map-guest_byte memory h [] = refl
map-guest_byte memory h (x ∷ xs) = ap (◌∷◌ (guest_byte memory h x)) (map-guest_byte memory h xs)

-- What is at the host addresses is what the guest has at its addresses.
pub map-some-ram :
    (memory : DmaMemory) (h : Host) (hosts guests : List ℕ)
    → map some hosts ≡ map (host_address memory.segments) guests
    → map some (map h.ram hosts) ≡ map (guest_byte memory h) guests
map-some-ram memory h hosts guests e =
    map-some-map h.ram hosts ∙ ap (map (Option.map h.ram)) e ∙ map-guest_byte memory h guests

pub guest_byte_missing :
    (memory : DmaMemory) (h : Host) (a : ℕ)
    → host_address memory.segments a ≡ none
    → guest_byte memory h a ≡ none
unfolding guest_byte
guest_byte_missing memory h a e = rw (e, guest_byte)

Reads-of_Translates :
    (memory : DmaMemory) (r : DmaRange) (h : Host) (o : Outcome (List DmaPart))
    → h.revoked ≡ false
    → Translates memory.segments r o
    → Reads memory r h (bind o (λ ps. ok (map h.ram (part_addresses ps))))
Reads-of_Translates memory r h (ok ps) e (lt, t) =
    (e, lt, map-some-ram memory h (part_addresses ps) (range_from r.gpa r.length) t)
Reads-of_Translates memory r h (err x) e (u, inl big) = inr (e, u, inl big)
Reads-of_Translates memory r h (err x) e (u, inr (a, low, high, missing)) =
    inr (e, u, inr (a, low, high, guest_byte_missing memory h a missing))
Reads-of_Translates memory r h panic e t = t
Reads-of_Translates memory r h hang e t = t

pub leased-Reads :
    (memory : DmaMemory) (r : DmaRange) (h : Host)
    → IsDisjoint memory.segments
    → Reads memory r h (leased memory r ok h)
leased-Reads memory r h v = elim (Bool-cases h.revoked) [
  | inl e ↦ rw (leased_revoked memory r ok h e) (inl (e, refl))
  | inr e ↦
      rw (leased_live memory r ok h e)
        (Reads-of_Translates memory r h (translate memory r) e (translate-Translates memory r v))
]

pub length-part_addresses :
    (segments : List DmaSegment) (r : DmaRange) (ps : List DmaPart)
    → map some (part_addresses ps) ≡ map (host_address segments) (range_from r.gpa r.length)
    → length (part_addresses ps) ≡ r.length
length-part_addresses segments r ps e =
    sym (length-map (part_addresses ps) some)
    ∙ ap length e
    ∙ length-map (range_from r.gpa r.length) (host_address segments)
    ∙ length-range_from r.gpa r.length

-- What is done with the bytes of a lease matters only for as many bytes as the range holds.
pub leased-congr :
    {A : Type 0} (memory : DmaMemory) (r : DmaRange) (f g : List ℕ → Outcome A) (h : Host)
    → IsDisjoint memory.segments
    → ((bs : List ℕ) → length bs ≡ r.length → f bs ≡ g bs)
    → leased memory r f h ≡ leased memory r g h
leased-congr {A} memory r f g h v same = elim (Bool-cases h.revoked) [
  | inl e ↦ leased_revoked memory r f h e ∙ sym (leased_revoked memory r g h e)
  | inr e ↦
      leased_live memory r f h e
      ∙ bound (translate memory r) (translate-Translates memory r v)
      ∙ sym (leased_live memory r g h e)
]
  where
    bound :
        (o : Outcome (List DmaPart))
        → Translates memory.segments r o
        → bind {B = A} o (λ ps. f (map h.ram (part_addresses ps)))
          ≡ bind o (λ ps. g (map h.ram (part_addresses ps)))
    bound (ok ps) t =
        same (map h.ram (part_addresses ps))
          (length-map (part_addresses ps) h.ram ∙ length-part_addresses memory.segments r ps t.1)
    bound (err x) t = refl
    bound panic t = absurd t
    bound hang t = absurd t
