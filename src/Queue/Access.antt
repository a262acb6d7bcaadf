-- ===== src/Queue/Access.antt =====
-- `read_bytes` and `write_bytes` of queue.rs against the guest's bytes.
use libvirtio.Base.{
  ℕ, ◌+◌, ◌-◌, ◌^◌, ◌≤◌, ◌<◌, ◌≡◌, ◌⊎◌, inl, inr, refl, sym, ap, ◌∙◌, true, false, not, List, map,
  Option, none, some, arith, Bool-cases, length, length-map, range_from, get_elem?, ◌==◌,
  map-some-injective, map-some-range, map-some_of_get, length-range_from,
}
use libvirtio.Error.{DeviceError}
use libvirtio.Outcome.{Outcome, ok, err, panic, hang, reject_if, ◌>>=◌ as bind}
use libvirtio.State.{IsSettled, M, lift, ◌>>=◌, continue_with}
use libvirtio.Dma.{DmaRange, DmaPart, DmaMemory, translate}
use libvirtio.Dma.Segments.{IsDisjoint}
use libvirtio.Dma.Translate.{part_addresses, Translates, translate-Translates}
use libvirtio.Lease.{Host, is_down, with_lease, write_parts}
use libvirtio.Lease.Read.{
  guest_byte, guest_byte_missing, length-part_addresses, leased, leased-Reads, leased-congr, Reads,
  with_lease-leased, with_lease_ok, with_lease_err, with_lease_revoked, read_parts_lem,
}
use libvirtio.Lease.Write.{NoAlias, Writes, overwritten, poke, poke-overwritten, write_parts_lem}
use libvirtio.Queue.{copy_from_lease, read_bytes, write_bytes}

abbrev pub span : ℕ → ℕ → DmaRange
span gpa n = record { gpa = gpa; length = n }

abbrev pub checked : ℕ → List ℕ → Outcome (List ℕ)
checked n bs =
    bind (reject_if (not (length bs == n)) (DeviceError.descriptor "short virtqueue read"))
      (λ _. ok bs)

pub copy_from_lease_lem :
    (n : ℕ) (ps : List DmaPart) (h : Host)
    → copy_from_lease ps n h ≡ (checked n (map h.ram (part_addresses ps)), h)
unfolding copy_from_lease continue_with
copy_from_lease_lem n ps h = ground (arith, read_parts_lem ps h)

-- The length check never fails: the parts hold the whole range.
pub checked-ok : (n : ℕ) (bs : List ℕ) → length bs ≡ n → checked n bs ≡ ok bs
checked-ok n bs e = ground arith

pub read_bytes_lem :
    (memory : DmaMemory) (gpa n : ℕ) (h : Host)
    → IsDisjoint memory.segments
    → read_bytes memory gpa n h ≡ (leased memory (span gpa n) ok h, h)
unfolding read_bytes
read_bytes_lem memory gpa n h v =
    with_lease-leased memory (span gpa n) (checked n) h (λ ps. copy_from_lease ps n) v
      (copy_from_lease_lem n)
    ∙ ap (λ o. (o, h)) (leased-congr memory (span gpa n) (checked n) ok h v (checked-ok n))

-- `read_bytes` over disjoint segments leaves the host as it was. It returns the bytes that the
-- guest has in the range, in order; it fails only if the memory is revoked, with that error, or if
-- the end of the range is 2 ^ 64 or more or one of its addresses is not mapped, with an error that
-- names the range; and it neither panics nor runs on.
pub read_bytes-Reads :
    (memory : DmaMemory) (gpa n : ℕ) (h : Host)
    → IsDisjoint memory.segments
    → ((read_bytes memory gpa n h).1 ≡ h)
      × Reads memory (span gpa n) h (read_bytes memory gpa n h).0
read_bytes-Reads memory gpa n h v =
    rw (read_bytes_lem memory gpa n h v) (refl, leased-Reads memory (span gpa n) h v)

-- The bytes that the guest has from an address on.
abbrev pub Holds : DmaMemory → Host → ℕ → List ℕ → Type 0
Holds memory h gpa bytes =
    (gpa + length bytes < 2 ^ 64)
    × (map some bytes ≡ map (guest_byte memory h) (range_from gpa (length bytes)))

pub read_bytes_sound :
    (memory : DmaMemory) (gpa n : ℕ) (h : Host) {bytes : List ℕ} {g : Host}
    → IsDisjoint memory.segments
    → read_bytes memory gpa n h ≡ (ok bytes, g)
    → (h.revoked ≡ false) × (length bytes ≡ n) × Holds memory h gpa bytes
read_bytes_sound memory gpa n h {bytes} {g} v e =
    let (live, small, there) = (rw e at (read_bytes-Reads memory gpa n h v)).1 in
    let m : length bytes ≡ n =
      sym (length-map bytes some)
      ∙ ap length there
      ∙ length-map (range_from gpa n) (guest_byte memory h)
      ∙ length-range_from gpa n in
    (live, m, rw m (small, there))

pub read_bytes-IsSettled :
    (memory : DmaMemory) (gpa n : ℕ) (h : Host)
    → IsDisjoint memory.segments
    → IsSettled (read_bytes memory gpa n h).0
read_bytes-IsSettled memory gpa n h v =
    settle (read_bytes memory gpa n h).0 (read_bytes-Reads memory gpa n h v).1
  where
    settle : (o : Outcome (List ℕ)) → Reads memory (span gpa n) h o → IsSettled o
    settle (ok bs) t = tt
    settle (err e) t = tt
    settle panic t = t
    settle hang t = t

-- Mapped bytes of a live memory are read.
pub read_bytes_complete :
    (memory : DmaMemory) (gpa n : ℕ) (bs : List ℕ) (h : Host)
    → IsDisjoint memory.segments
    → h.revoked ≡ false
    → gpa + n < 2 ^ 64
    → map some bs ≡ map (guest_byte memory h) (range_from gpa n)
    → read_bytes memory gpa n h ≡ (ok bs, h)
read_bytes_complete memory gpa n bs h v live small e =
    read_bytes_lem memory gpa n h v
    ∙ ap (λ o. (o, h)) (decide _ (leased-Reads memory (span gpa n) h v))
  where
    decide : (o : Outcome (List ℕ)) → Reads memory (span gpa n) h o → o ≡ ok bs
    decide (ok cs) (_, _, t) = ap ok (map-some-injective cs bs (t ∙ sym e))
    decide (err x) (inl (down, _)) = cc
    decide (err x) (inr (_, _, inl big)) = absurd (omega arith)
    decide (err x) (inr (_, _, inr (a, low, high, missing))) =
        let (c, m) = map-some-range (guest_byte memory h) bs gpa n a e low high in cc
    decide panic t = absurd t
    decide hang t = absurd t

-- The block of `write_bytes`.
abbrev pub write_block : List ℕ → List DmaPart → M Host (Unit {0})
write_block bytes parts = do
  offset ← write_parts bytes 0 parts
  lift (reject_if (not (offset == length bytes)) (DeviceError.descriptor "short virtqueue write"))

pub write_block_lem :
    (bytes : List ℕ) (ps : List DmaPart) (h : Host)
    → length (part_addresses ps) ≡ length bytes
    → write_block bytes ps h ≡ (ok tt, record h { ram = poke h.ram (part_addresses ps) bytes })
unfolding continue_with
write_block_lem bytes ps h e = ground (arith, write_parts_lem bytes 0 ps h)

-- `write_bytes` over disjoint segments, no two guest addresses sharing a host address: if it
-- succeeds, the end of the range is below 2 ^ 64, the guest's bytes in the range are those
-- given, all its other bytes are as before, and so is the lease state; if it fails, the host is
-- as before, and the memory is revoked or the range is not mapped as a whole, as the error
-- says; and it neither panics nor runs on.
pub write_bytes-Writes :
    (memory : DmaMemory) (gpa : ℕ) (bytes : List ℕ) (h : Host)
    → IsDisjoint memory.segments
    → NoAlias memory.segments
    → Writes memory gpa bytes h (write_bytes memory gpa bytes h)
unfolding write_bytes
write_bytes-Writes memory gpa bytes h v d = elim (Bool-cases h.revoked) [
  | inl e ↦ rw (with_lease_revoked memory r (write_block bytes) h e) (refl, inl (e, refl))
  | inr e ↦ live e (translate memory r) refl (translate-Translates memory r v)
]
  where
    r : DmaRange
    r = span gpa (length bytes)

    live :
        h.revoked ≡ false
        → (o : Outcome (List DmaPart)) → translate memory r ≡ o
        → Translates memory.segments r (translate memory r)
        → Writes memory gpa bytes h (with_lease memory r (write_block bytes) h)
    live e (ok ps) t w =
        let (small, there) = rw t at w in
        let n = length-part_addresses memory.segments r ps there in
        let g : Host = record h { active = h.active + 1 } in
        rw (with_lease_ok memory r (write_block bytes) h e t, write_block_lem bytes ps g n)
          (
            e,
            small,
            e,
            omega arith,
            poke-overwritten memory gpa bytes (part_addresses ps) h
                (record h { ram = poke h.ram (part_addresses ps) bytes; active = h.active + 1 - 1 })
                d there refl,
          )
    live e (err x) t w =
        rw (with_lease_err memory r (write_block bytes) h e t) (refl, why (rw t at w))
      where
        why :
            Translates memory.segments r (err x)
            → ((h.revoked ≡ true) × (x ≡ is_down))
              ⊎ ((x ≡ DeviceError.dma_range gpa (length bytes))
                  × ((2 ^ 64 ≤ gpa + length bytes)
                      ⊎ ((a : ℕ) × (gpa ≤ a)
                          × (a < gpa + length bytes)
                          × (guest_byte memory h a ≡ none))))
        why (u, inl big) = inr (u, inl big)
        why (u, inr (a, lo, hi, m)) = inr (u, inr (a, lo, hi, guest_byte_missing memory h a m))
    live e panic t w = absurd (rw t at w)
    live e hang t w = absurd (rw t at w)

inside :
    (gpa : ℕ) (bytes : List ℕ) (x : ℕ) (old : Option ℕ)
    → gpa ≤ x
    → x < gpa + length bytes
    → overwritten gpa bytes x old ≡ get_elem? bytes (x - gpa)
inside gpa bytes x old lo hi = ground arith

pub outside :
    (gpa : ℕ) (bytes : List ℕ) (x : ℕ) (old : Option ℕ)
    → (x < gpa) ⊎ (gpa + length bytes ≤ x)
    → overwritten gpa bytes x old ≡ old
outside gpa bytes x old (inl lt) = ground arith
outside gpa bytes x old (inr le) = ground arith

-- Bytes written stand in the guest's memory.
pub written_bytes :
    (memory : DmaMemory) (gpa : ℕ) (bytes : List ℕ) (h g : Host)
    → ((x : ℕ) → guest_byte memory g x ≡ overwritten gpa bytes x (guest_byte memory h x))
    → map some bytes ≡ map (guest_byte memory g) (range_from gpa (length bytes))
written_bytes memory gpa bytes h g w = map-some_of_get (guest_byte memory g) bytes gpa λ i lt.
    w (gpa + i)
    ∙ inside gpa bytes (gpa + i) _ (omega arith) (omega arith)
    ∙ ap (get_elem? bytes) (omega arith)

-- Over disjoint segments of which no two guest addresses share a host address: if `write_bytes`
-- succeeds, `read_bytes` of as many bytes at the same guest address, in the state that it leaves,
-- returns the bytes written and changes nothing.
pub read_bytes-write_bytes :
    (memory : DmaMemory) (gpa : ℕ) (bytes : List ℕ) (h : Host) {g : Host}
    → IsDisjoint memory.segments
    → NoAlias memory.segments
    → write_bytes memory gpa bytes h ≡ (ok tt, g)
    → read_bytes memory gpa (length bytes) g ≡ (ok bytes, g)
read_bytes-write_bytes memory gpa bytes h {g} v d e =
    let (_, small, live, _, w) = rw e at (write_bytes-Writes memory gpa bytes h v d) in
    read_bytes_complete memory gpa (length bytes) bytes g v live small
      (written_bytes memory gpa bytes h g w)
