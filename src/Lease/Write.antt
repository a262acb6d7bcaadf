-- ===== src/Lease/Write.antt =====
-- Writing through a lease: which bytes of the guest change, and to what.
use libvirtio.Base.{
  ℕ, zero, suc, ◌+◌, ◌-◌, ◌^◌, ◌≤◌, ◌<◌, ◌≡◌, ◌≢◌, ◌⊎◌, inl, inr, refl, sym, ap, ◌∙◌, true, false,
  List, [], ◌∷◌, ◌++◌, map, Option, none, some, arith, length, range_from, get_elem?, take, drop,
  length-range_from, cons_eq, map-some-range, length-append, length-take, length-drop, drop-drop,
  le→leb, ltb, ◌&&◌, Option-cases, leb, if◌then◌else◌,
}
use libvirtio.Error.{DeviceError}
use libvirtio.Outcome.{Outcome, ok, err, panic, hang}
use libvirtio.State.{continue_with}
use libvirtio.Dma.{DmaSegment, DmaPart, DmaMemory}
use libvirtio.Dma.Translate.{host_address, part_addresses}
use libvirtio.Lease.{Host, is_down, write_parts, store, update}
use libvirtio.Lease.Read.{guest_byte}
use native.Mathlib.Decide.{ℕ_discrete, dec_lt}

-- Bytes written to host addresses, one by one.
abbrev pub poke : (ℕ → ℕ) → List ℕ → List ℕ → ℕ → ℕ
poke ram [] bs = ram
poke ram (a ∷ hosts) [] = ram
poke ram (a ∷ hosts) (b ∷ bs) = poke (update ram a b) hosts bs

store-poke :
    (bs : List ℕ) (ram : ℕ → ℕ) (a : ℕ) → store ram a bs ≡ poke ram (range_from a (length bs)) bs
unfolding store
store-poke [] ram a = refl
store-poke (b ∷ bs) ram a = store-poke bs (update ram a b) (a + 1)

poke-append :
    (xs ys bs : List ℕ) (ram : ℕ → ℕ)
    → length xs ≤ length bs
    → poke ram (xs ++ ys) bs ≡ poke (poke ram xs (take (length xs) bs)) ys (drop (length xs) bs)
poke-append [] ys bs ram h = refl
poke-append (x ∷ xs) ys [] ram h = absurd (omega arith)
poke-append (x ∷ xs) ys (b ∷ bs) ram h = poke-append xs ys bs (update ram x b) (omega arith)

write_parts_step :
    (bytes : List ℕ) (offset : ℕ) (p : DmaPart) (ps : List DmaPart) (h : Host)
    → leb (offset + p.length) (length bytes) ≡ true
    → write_parts bytes offset (p ∷ ps) h
      ≡ write_parts bytes
          (offset + p.length)
          ps
          (record h { ram = store h.ram p.base (take p.length (drop offset bytes)) })
unfolding write_parts continue_with
write_parts_step bytes offset p ps h e = rw (e, write_parts)

pub part_ram :
    (bytes : List ℕ) (offset : ℕ) (p : DmaPart) (ps : List DmaPart) (ram : ℕ → ℕ)
    → offset + p.length ≤ length bytes
    → poke
        (store ram p.base (take p.length (drop offset bytes)))
        (part_addresses ps)
        (drop (offset + p.length) bytes)
      ≡ poke ram (part_addresses (p ∷ ps)) (drop offset bytes)
part_ram bytes offset p ps ram le =
    let taken : length (take p.length (drop offset bytes)) ≡ p.length =
      omega (arith, length-take p.length (drop offset bytes), length-drop offset bytes) in
    let all : length (range_from p.base p.length) ≤ length (drop offset bytes) =
      omega (arith, length-range_from p.base p.length, length-drop offset bytes) in
    rw (
      store-poke (take p.length (drop offset bytes)) ram p.base,
      taken,
      poke-append (range_from p.base p.length) (part_addresses ps) (drop offset bytes) ram all,
      length-range_from,
      drop-drop,
    )

-- The loop writes all the bytes, if the parts hold as many as are left.
pub write_parts_lem :
    (bytes : List ℕ) (offset : ℕ) (ps : List DmaPart) (h : Host)
    → offset + length (part_addresses ps) ≡ length bytes
    → write_parts bytes offset ps h
      ≡ (ok (length bytes), record h { ram = poke h.ram (part_addresses ps) (drop offset bytes) })
unfolding write_parts continue_with
write_parts_lem bytes offset [] h e = ap (λ n. (ok n, h)) (omega arith)
write_parts_lem bytes offset (p ∷ ps) h e =
    rw (write_parts_step bytes offset p ps h (le→leb _ _ fits)) (
      write_parts_lem bytes (offset + p.length) ps _ rest
      ∙ ap (λ ram. (ok (length bytes), record h { ram = ram }))
          (part_ram bytes offset p ps h.ram fits))
  where
    total : length (part_addresses (p ∷ ps)) ≡ p.length + length (part_addresses ps)
    total = rw (length-append, length-range_from)

    rest : offset + p.length + length (part_addresses ps) ≡ length bytes
    rest = omega (arith, total)

    fits : offset + p.length ≤ length bytes
    fits = omega (arith, total)

-- No two guest addresses are mapped at one host address.
abbrev pub NoAlias : List DmaSegment → Type 0
NoAlias segments =
    (a b c : ℕ) → host_address segments a ≡ some c → host_address segments b ≡ some c → a ≡ b

pub update_ne : (ram : ℕ → ℕ) (a b c : ℕ) → a ≢ c → update ram a b c ≡ ram c
update_ne ram a b c h = ground arith

pub update_eq : (ram : ℕ → ℕ) (a b c : ℕ) → a ≡ c → update ram a b c ≡ b
update_eq ram a b c h = ground arith

-- Where a host address is not written, and where it is, in the order of the guest's addresses.
module _ (segments : List DmaSegment) (distinct : NoAlias segments) where
  poke_outside :
      (hosts bs : List ℕ) (ram : ℕ → ℕ) (g n x c : ℕ)
      → map some hosts ≡ map (host_address segments) (range_from g n)
      → host_address segments x ≡ some c
      → (x < g) ⊎ (g + n ≤ x)
      → poke ram hosts bs c ≡ ram c
  poke_outside [] bs ram g n x c e m o = refl
  poke_outside (a ∷ hosts) [] ram g n x c e m o = refl
  poke_outside (a ∷ hosts) (b ∷ bs) ram g zero x c e m o = cc
  poke_outside (a ∷ hosts) (b ∷ bs) ram g (suc n) x c e m o =
      let (here, rest) = cons_eq e in
      let apart : a ≢ c = λ same. ends (distinct g x c (sym here ∙ ap some same) m) in
      poke_outside hosts bs (update ram a b) (g + 1) n x c rest m (later o)
      ∙ update_ne ram a b c apart
    where
      ends : g ≢ x
      ends q = elim o [ inl lt ↦ omega arith | inr le ↦ omega arith ]

      later : (x < g) ⊎ (g + suc n ≤ x) → (x < g + 1) ⊎ (g + 1 + n ≤ x)
      later (inl lt) = inl (omega arith)
      later (inr le) = inr (omega arith)

  poke_inside :
      (hosts bs : List ℕ) (ram : ℕ → ℕ) (g n x c : ℕ)
      → map some hosts ≡ map (host_address segments) (range_from g n)
      → length bs ≡ n
      → host_address segments x ≡ some c
      → g ≤ x
      → x < g + n
      → some (poke ram hosts bs c) ≡ get_elem? bs (x - g)
  poke_inside hosts bs ram g zero x c e l m lo hi = absurd (omega arith)
  poke_inside [] bs ram g (suc n) x c e l m lo hi = cc
  poke_inside (a ∷ hosts) [] ram g (suc n) x c e l m lo hi = absurd (omega arith)
  poke_inside (a ∷ hosts) (b ∷ bs) ram g (suc n) x c e l m lo hi = elim (ℕ_discrete g x) [
    | yes same ↦
        let (here, rest) = cons_eq e in
        let at : x - g ≡ 0 = omega arith in
        let host : a ≡ c = cc (here, m, ap (host_address segments) same) in
        rw at (
          ap some (
            poke_outside hosts bs (update ram a b) (g + 1) n x c rest m (inl (omega arith))
            ∙ update_eq ram a b c host))
    | no other ↦
        let (_, rest) = cons_eq e in
        let at : x - g ≡ suc (x - (g + 1)) = omega arith in
        rw at (
          poke_inside hosts bs (update ram a b) (g + 1) n x c rest (omega arith) m (omega arith)
            (omega arith))
  ]

-- The byte at `x` when `bytes` have been written from `gpa` on, and was `old` before.
abbrev pub overwritten : ℕ → List ℕ → ℕ → Option ℕ → Option ℕ
overwritten gpa bytes x old =
    if leb gpa x && ltb x (gpa + length bytes) then get_elem? bytes (x - gpa) else old

-- What a write is to do.
abbrev pub Writes : DmaMemory → ℕ → List ℕ → Host → Outcome (Unit {0}) × Host → Type 0
Writes memory gpa bytes h (ok _, g) =
    (h.revoked ≡ false)
    × (gpa + length bytes < 2 ^ 64)
    × (g.revoked ≡ false)
    × (g.active ≡ h.active)
    × ((x : ℕ) → guest_byte memory g x ≡ overwritten gpa bytes x (guest_byte memory h x))
Writes memory gpa bytes h (err e, g) =
    (g ≡ h)
    × (((h.revoked ≡ true) × (e ≡ is_down))
        ⊎ ((e ≡ DeviceError.dma_range gpa (length bytes))
            × ((2 ^ 64 ≤ gpa + length bytes)
                ⊎ ((a : ℕ) × (gpa ≤ a)
                    × (a < gpa + length bytes)
                    × (guest_byte memory h a ≡ none)))))
Writes memory gpa bytes h (panic, g) = ⊥
Writes memory gpa bytes h (hang, g) = ⊥

guest_byte-some :
    (memory : DmaMemory) (h : Host) (x : ℕ) {c : ℕ}
    → host_address memory.segments x ≡ some c
    → guest_byte memory h x ≡ some (h.ram c)
unfolding guest_byte
guest_byte-some memory h x e = rw (e, guest_byte)

guest_byte-none :
    (memory : DmaMemory) (h : Host) (x : ℕ)
    → host_address memory.segments x ≡ none
    → guest_byte memory h x ≡ none
unfolding guest_byte
guest_byte-none memory h x e = rw (e, guest_byte)

module _ (memory : DmaMemory) (gpa : ℕ) (bytes hosts : List ℕ) (h g : Host)
    (distinct : NoAlias memory.segments)
    (there : map some hosts ≡ map (host_address memory.segments) (range_from gpa (length bytes)))
    (written : g.ram ≡ poke h.ram hosts bytes) where
  byte_inside :
      (x : ℕ) → gpa ≤ x → x < gpa + length bytes → guest_byte memory g x ≡ get_elem? bytes (x - gpa)
  byte_inside x lo hi =
      let (c, m) =
        map-some-range (host_address memory.segments) hosts gpa (length bytes) x there lo hi in
      guest_byte-some memory g x m
      ∙ ap (λ (ram : ℕ → ℕ). some (ram c)) written
      ∙ poke_inside memory.segments distinct hosts bytes h.ram gpa (length bytes) x c there refl m
          lo hi

  byte_outside :
      (x : ℕ) → (x < gpa) ⊎ (gpa + length bytes ≤ x) → guest_byte memory g x ≡ guest_byte memory h x
  byte_outside x o = elim (Option-cases (host_address memory.segments x)) [
    | inl m ↦ guest_byte-none memory g x m ∙ sym (guest_byte-none memory h x m)
    | inr (c, m) ↦
        guest_byte-some memory g x m
        ∙ ap (λ (ram : ℕ → ℕ). some (ram c)) written
        ∙ ap some (
            poke_outside memory.segments distinct hosts bytes h.ram gpa (length bytes) x c there m
              o)
        ∙ sym (guest_byte-some memory h x m)
  ]

  pub poke-overwritten :
      (x : ℕ) → guest_byte memory g x ≡ overwritten gpa bytes x (guest_byte memory h x)
  poke-overwritten x = elim (dec_lt x gpa) [
    | yes low ↦ ground (arith, byte_outside x (inl low))
    | no high ↦ elim (dec_lt x (gpa + length bytes)) [
      | yes lt ↦ ground (arith, byte_inside x)
      | no out ↦ ground (arith, byte_outside x (inr (omega arith)))
    ]
  ]
