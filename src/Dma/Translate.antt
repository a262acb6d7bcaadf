-- ===== src/Dma/Translate.antt =====
-- `translate` against the map of single addresses that the segments stand for.
use libvirtio.Base.{
  ℕ, zero, suc, ◌+◌, ◌-◌, ◌^◌, ◌≤◌, ◌<◌, ◌≡◌, ◌⊎◌, inl, inr, refl, sym, min, true, false, List, [],
  ◌∷◌, ◌++◌, map, Option, none, some, arith, ltb, find?, All, Bool-cases, Option-cases, ltb→lt,
  range_from, range_from-append,
}
use libvirtio.Outcome.{Outcome, ◌>>=◌, ok, err, panic, hang}
use libvirtio.Dma.{
  DmaRange, DmaSegment, DmaPart, DmaMemory, segment_end, range_end, covers, unmapped,
  translate_loop, translate, checked_add,
}
use libvirtio.Dma.Segments.{IsDisjoint}
use mathlib.Core.List.{map-append}
use mathlib.Core.Path.{ap₂}
use native.Mathlib.Nat.{le_refl}

-- The host address of a guest physical address.
unfoldable pub host_address : List DmaSegment → ℕ → Option ℕ
unfolding covers
host_address segments a = elim (find? (covers a) segments) [
  | none ↦ none
  | some s ↦ some (s.base + (a - s.gpa))
]

-- The host addresses of the bytes of some parts, in order.
abbrev pub part_addresses : List DmaPart → List ℕ
part_addresses [] = []
part_addresses (p ∷ ps) = range_from p.base p.length ++ part_addresses ps

covers_bounds :
    (c : ℕ) (s : DmaSegment)
    → covers c s ≡ true
    → (s.gpa ≤ c)
      × (c < s.gpa + s.length)
      × (segment_end s ≡ some (s.gpa + s.length))
      × (s.gpa + s.length < 2 ^ 64)
unfolding covers
covers_bounds c s h = ground arith

covers_intro :
    (c : ℕ) (s : DmaSegment)
    → s.gpa ≤ c
    → c < s.gpa + s.length
    → s.gpa + s.length < 2 ^ 64
    → covers c s ≡ true
unfolding covers
covers_intro c s h k l = ground arith

find-covers :
    (c : ℕ) (segments : List DmaSegment) {s : DmaSegment}
    → find? (covers c) segments ≡ some s
    → covers c s ≡ true
find-covers c [] h = cc
find-covers c (t ∷ ts) {s} h = ground (arith, find-covers c ts {s = s})

find-after :
    (c e : ℕ) (segments : List DmaSegment) {s : DmaSegment}
    → All (λ t. e ≤ t.gpa) segments
    → find? (covers c) segments ≡ some s
    → e ≤ s.gpa
find-after c e [] a h = cc
find-after c e (t ∷ ts) {s} a h = ground (arith, find-after c e ts {s = s} a.1)

-- The segment found for one address is found for all that follow within it.
find-same :
    (c d : ℕ) (segments : List DmaSegment) {s : DmaSegment}
    → IsDisjoint segments
    → find? (covers c) segments ≡ some s
    → c ≤ d
    → d < s.gpa + s.length
    → find? (covers d) segments ≡ some s
find-same c d [] v h le lt = cc
find-same c d (t ∷ ts) {s} v h le lt = elim (Bool-cases (covers c t)) [
  | inl e ↦ ground (arith, covers_bounds c t e, covers_intro d t)
  | inr e ↦ ground (
    arith,
    find-after c (t.gpa + t.length) ts {s = s} v.1,
    covers_bounds d t,
    find-covers c ts {s = s},
    covers_bounds c s,
    find-same c d ts {s = s} v.2,
  )
]

host_address_found :
    (segments : List DmaSegment) (s : DmaSegment) (c d : ℕ)
    → IsDisjoint segments
    → find? (covers c) segments ≡ some s
    → c ≤ d
    → d < s.gpa + s.length
    → host_address segments d ≡ some (s.base + (d - s.gpa))
unfolding host_address
host_address_found segments s c d v h le lt =
    rw (find-same c d segments {s = s} v h le lt, host_address)

host_address_missing :
    (segments : List DmaSegment) (c : ℕ)
    → find? (covers c) segments ≡ none
    → host_address segments c ≡ none
unfolding host_address
host_address_missing segments c h = rw (h, host_address)

-- The guest addresses from `d` on lie in the segment found for `c`.
segment_addresses :
    (segments : List DmaSegment) (s : DmaSegment) (c d n : ℕ)
    → IsDisjoint segments
    → find? (covers c) segments ≡ some s
    → c ≤ d
    → d + n ≤ s.gpa + s.length
    → map some (range_from (s.base + (d - s.gpa)) n) ≡ map (host_address segments) (range_from d n)
segment_addresses segments s c d zero v h le le' = refl
segment_addresses segments s c d (suc n) v h le le' =
    let bounds = covers_bounds c s (find-covers c segments {s = s} h) in
    let next : s.base + (d - s.gpa) + 1 ≡ s.base + (d + 1 - s.gpa) = next_address bounds.0 in
    ap₂ ◌∷◌ (sym (host_address_found segments s c d v h le (omega arith)))
      (rw next (segment_addresses segments s c (d + 1) n v h (omega arith) (omega arith)))
  where
    next_address : s.gpa ≤ c → s.base + (d - s.gpa) + 1 ≡ s.base + (d + 1 - s.gpa)
    next_address l = omega arith

-- What the loop has done when it returns from `cursor`.
abbrev Translated : List DmaSegment → DmaRange → ℕ → ℕ → Outcome (List DmaPart) → Type 0
Translated segments r end c (ok parts) =
    map some (part_addresses parts) ≡ map (host_address segments) (range_from c (end - c))
Translated segments r end c (err e) =
    (e ≡ unmapped r) × ((a : ℕ) × (c ≤ a) × (a < end) × (host_address segments a ≡ none))
Translated segments r end c panic = ⊥
Translated segments r end c hang = ⊥

module _ (segments : List DmaSegment) (r : DmaRange) (end : ℕ) where
  Translated-step :
      (s : DmaSegment) (c e : ℕ) (o : Outcome (List DmaPart))
      → IsDisjoint segments
      → find? (covers c) segments ≡ some s
      → c ≤ e
      → e ≤ end
      → e ≤ s.gpa + s.length
      → Translated segments r end e o
      → Translated segments r end c (
          o >>= λ rest. ok (record { gpa = c; base = s.base + (c - s.gpa); length = e - c } ∷ rest))
  Translated-step s c e (ok parts) v h le le' le'' t =
      let split : end - c ≡ (e - c) + (end - e) = omega arith in
      let back : c + (e - c) ≡ e = omega arith in
      rw (
        split,
        range_from-append,
        back,
        map-append,
        map-append,
        ← t,
        segment_addresses segments s c c (e - c) v h (le_refl c) (omega arith),
      )
  Translated-step s c e (err x) v h le le' le'' t =
      let (eq, witness) = t in
      let (a, low, high, missing) = witness in (eq, (a, omega arith, high, missing))
  Translated-step s c e panic v h le le' le'' t = t
  Translated-step s c e hang v h le le' le'' t = t

  stop_round : (fuel c : ℕ) → ltb c end ≡ false → translate_loop segments r end fuel c ≡ ok []
  unfolding translate_loop
  stop_round zero c e = rw (e, translate_loop)
  stop_round (suc fuel) c e = rw (e, translate_loop)

  missing_round :
      (fuel c : ℕ)
      → ltb c end ≡ true
      → find? (covers c) segments ≡ none
      → translate_loop segments r end (suc fuel) c ≡ err (unmapped r)
  unfolding translate_loop
  missing_round fuel c e n = rw (e, n, translate_loop)

  found_round :
      (fuel c : ℕ) (s : DmaSegment)
      → ltb c end ≡ true
      → find? (covers c) segments ≡ some s
      → segment_end s ≡ some (s.gpa + s.length)
      → translate_loop segments r end (suc fuel) c ≡ (
          translate_loop segments r end fuel (min (s.gpa + s.length) end) >>= λ rest. ok (
            record { gpa = c; base = s.base + (c - s.gpa); length = min (s.gpa + s.length) end - c }
            ∷ rest))
  unfolding translate_loop
  found_round fuel c s e n b = rw (e, n, b, translate_loop)

  translate_loop-Translated :
      (fuel c : ℕ)
      → IsDisjoint segments
      → end ≤ c + fuel
      → Translated segments r end c (translate_loop segments r end fuel c)
  translate_loop-Translated zero c v f = stopped (stop_round zero c (ground (arith, f)))
    where
      stopped :
          translate_loop segments r end zero c ≡ ok []
          → Translated segments r end c (translate_loop segments r end zero c)
      stopped e = let empty : end - c ≡ 0 = omega arith in rw e (rw empty)
  translate_loop-Translated (suc fuel) c v f = elim (Bool-cases (ltb c end)) [
    | inr stop ↦
        let empty : end - c ≡ 0 = ground (arith, stop) in
        rw (stop_round (suc fuel) c stop) (rw empty)
    | inl go ↦ elim (Option-cases (find? (covers c) segments)) [
      | inl missing ↦
          rw (missing_round fuel c go missing)
            (refl, (c, le_refl c, ltb→lt c end go, host_address_missing segments c missing))
      | inr (s, found) ↦
          let (low, high, ends, _) = covers_bounds c s (find-covers c segments {s = s} found) in
          let e : ℕ = min (s.gpa + s.length) end in
          let lt : c < end = ltb→lt c end go in
          rw (found_round fuel c s go found ends) (
            Translated-step s c e _ v found (omega arith) (omega arith) (omega arith)
              (translate_loop-Translated fuel e v (omega arith)))
    ]
  ]

-- What `translate` is to do: the host addresses of the parts are those of the guest addresses of
-- the range, in order; and it fails only where one of these is not mapped or is no address.
abbrev pub Translates : List DmaSegment → DmaRange → Outcome (List DmaPart) → Type 0
Translates segments r (ok parts) =
    (r.gpa + r.length < 2 ^ 64)
    × (map some (part_addresses parts) ≡ map (host_address segments) (range_from r.gpa r.length))
Translates segments r (err e) =
    (e ≡ unmapped r)
    × ((2 ^ 64 ≤ r.gpa + r.length)
        ⊎ ((a : ℕ) × (r.gpa ≤ a) × (a < r.gpa + r.length) × (host_address segments a ≡ none)))
Translates segments r panic = ⊥
Translates segments r hang = ⊥

translate_overflow :
    (memory : DmaMemory) (r : DmaRange)
    → ltb (r.gpa + r.length) (2 ^ 64) ≡ false
    → translate memory r ≡ err (unmapped r)
unfolding translate range_end
translate_overflow memory r e = rw (e, translate, range_end, checked_add)

translate_fits :
    (memory : DmaMemory) (r : DmaRange)
    → ltb (r.gpa + r.length) (2 ^ 64) ≡ true
    → translate memory r ≡ translate_loop memory.segments r (r.gpa + r.length) r.length r.gpa
unfolding translate range_end
translate_fits memory r e = rw (e, translate, range_end, checked_add)

Translates-of_Translated :
    (segments : List DmaSegment) (r : DmaRange) (o : Outcome (List DmaPart))
    → r.gpa + r.length < 2 ^ 64
    → Translated segments r (r.gpa + r.length) r.gpa o
    → Translates segments r o
Translates-of_Translated segments r (ok parts) lt t =
    let e : r.gpa + r.length - r.gpa ≡ r.length = omega arith in (lt, rw e at t)
Translates-of_Translated segments r (err e) lt t = (t.0, inr t.1)
Translates-of_Translated segments r panic lt t = t
Translates-of_Translated segments r hang lt t = t

-- Over disjoint segments `translate` ends, and does not panic. If it succeeds, the end of the
-- range is below 2 ^ 64, and the bytes of the parts are, in order, the host addresses of the guest
-- addresses of the range. If it fails, the error names the range, and the end of the range is
-- 2 ^ 64 or more or one of its addresses is not mapped.
pub translate-Translates :
    (memory : DmaMemory) (r : DmaRange)
    → IsDisjoint memory.segments
    → Translates memory.segments r (translate memory r)
translate-Translates memory r v = elim (Bool-cases (ltb (r.gpa + r.length) (2 ^ 64))) [
  | inl fits ↦ rw (translate_fits memory r fits) (
      Translates-of_Translated memory.segments r _ (ltb→lt _ _ fits) (
        translate_loop-Translated memory.segments r (r.gpa + r.length) r.length r.gpa v
          (le_refl _)))
  | inr over ↦ rw (translate_overflow memory r over) (refl, inl (ground (arith, over)))
]
