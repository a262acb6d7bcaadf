-- ===== src/Layout/Valid.antt =====
-- Which queue layouts `QueueLayout::validate` accepts.
use libvirtio.Base.{
  ℕ, zero, suc, ◌+◌, ◌*◌, ◌^◌, ◌≤◌, ◌<◌, ◌≡◌, ◌≢◌, ◌↔◌, inl, inr, refl, ap, ◌∙◌, Bool, true, false,
  none, List, arith, Bool-cases, ◌==◌, ◌||◌, not, map-some-range,
}
use libvirtio.Error.{DeviceError}
use native.Mathlib.Nat.{pow-suc}
use native.Mathlib.Decide.{ℕ_discrete}
use libvirtio.Outcome.{reject_if, Outcome, ok, err, panic, hang, >>=-eq-ok}
use libvirtio.Dma.{DmaRange, DmaPart, DmaMemory, translate, check_range}
use libvirtio.Dma.Segments.{IsDisjoint}
use libvirtio.Dma.Translate.{host_address, part_addresses, Translates, translate-Translates}
use libvirtio.Layout.{QueueLayout, is_power_of_two, rings_too_small, validate}

-- Every address of the range is mapped, and its end is below 2 ^ 64.
pub record IsMappedRange (memory : DmaMemory) (r : DmaRange) : Type 0 where
  pub below : r.gpa + r.length < 2 ^ 64
  pub mapped : (a : ℕ) → r.gpa ≤ a → a < r.gpa + r.length → host_address memory.segments a ≢ none

pub record IsValidLayout (memory : DmaMemory) (q : QueueLayout) : Type 0 where
  pub exponent : ℕ
  pub exponent_small : exponent < 16
  pub size_power : q.size ≡ 2 ^ exponent
  pub descriptors_room : q.size * 16 ≤ q.descriptors.length
  pub available_room : 4 + q.size * 2 ≤ q.available.length
  pub used_room : 4 + q.size * 8 ≤ q.used.length
  pub descriptors_mapped : IsMappedRange memory q.descriptors
  pub available_mapped : IsMappedRange memory q.available
  pub used_mapped : IsMappedRange memory q.used

pub is_power_of_two-true : (w n : ℕ) → is_power_of_two w n ≡ true → (k : ℕ) × (k < w) × (n ≡ 2 ^ k)
unfolding is_power_of_two
is_power_of_two-true zero n e = cc
is_power_of_two-true (suc w) n e = elim (Bool-cases (n == 2 ^ w)) [
  | inl same ↦ (w, omega arith, ground (arith, same))
  | inr other ↦
      let (k, lt, p) = is_power_of_two-true w n (rw (other, is_power_of_two) at e) in
      (k, omega arith, p)
]

pub power-is_power_of_two : (w n k : ℕ) → k < w → n ≡ 2 ^ k → is_power_of_two w n ≡ true
unfolding is_power_of_two
power-is_power_of_two zero n k lt e = absurd (omega arith)
power-is_power_of_two (suc w) n k lt e = elim (ℕ_discrete k w) [
  | yes same ↦ let top : n ≡ 2 ^ w = e ∙ ap (λ j. 2 ^ j) same in ground (arith, top)
  | no other ↦ ground (arith, power-is_power_of_two w n k (omega arith) e)
]

module _ (memory : DmaMemory) (v : IsDisjoint memory.segments) (r : DmaRange) where
  pub check_range-IsMappedRange : check_range memory r ≡ ok tt → IsMappedRange memory r
  unfolding check_range
  check_range-IsMappedRange e =
      let (ps, e1, _) = >>=-eq-ok (translate memory r) _ e in
      let (small, there) = rw e1 at (translate-Translates memory r v) in
      record {
        below = small;
        mapped = λ a lo hi missing.
            let (c, m) =
              map-some-range (host_address memory.segments) (part_addresses ps) r.gpa r.length a
                there lo hi in
            cc;
      }

  pub check_range_complete : IsMappedRange memory r → check_range memory r ≡ ok tt
  unfolding check_range
  check_range_complete m = go (translate memory r) refl (translate-Translates memory r v)
    where
      go :
          (o : Outcome (List DmaPart))
          → translate memory r ≡ o
          → Translates memory.segments r (translate memory r)
          → check_range memory r ≡ ok tt
      go (ok ps) e t = rw (e, check_range)
      go (err x) e t = absurd (no (rw e at t))
        where
          no : Translates memory.segments r (err x) → ⊥
          no (_, inl big) = omega (arith, m.below)
          no (_, inr (a, lo, hi, missing)) = m.mapped a lo hi missing
      go panic e t = absurd (rw e at t)
      go hang e t = absurd (rw e at t)

pub reject_if-eq-ok : (b : Bool) (e : DeviceError) {u : Unit {0}} → reject_if b e ≡ ok u → b ≡ false
reject_if-eq-ok true e h = cc
reject_if-eq-ok false e h = refl

pub power_pos : (k : ℕ) → 0 < 2 ^ k
power_pos zero = omega arith
power_pos (suc k) = omega (arith, pow-suc 2 k, power_pos k)

size_guard : (n : ℕ) → (n == 0 || not (is_power_of_two 16 n)) ≡ false → is_power_of_two 16 n ≡ true
size_guard n h = ground arith

size_guard_complete :
    (n : ℕ) → 0 < n → is_power_of_two 16 n ≡ true → (n == 0 || not (is_power_of_two 16 n)) ≡ false
size_guard_complete n h k = ground arith

rings_room :
    (q : QueueLayout)
    → rings_too_small q ≡ false
    → (q.size * 16 ≤ q.descriptors.length)
      × (4 + q.size * 2 ≤ q.available.length)
      × (4 + q.size * 8 ≤ q.used.length)
unfolding rings_too_small
rings_room q h = ground arith

rings_room_complete :
    (q : QueueLayout)
    → q.size * 16 ≤ q.descriptors.length
    → 4 + q.size * 2 ≤ q.available.length
    → 4 + q.size * 8 ≤ q.used.length
    → rings_too_small q ≡ false
unfolding rings_too_small
rings_room_complete q a b c = ground arith

module _ (memory : DmaMemory) (q : QueueLayout) (v : IsDisjoint memory.segments) where
  validate-IsValidLayout : validate q memory ≡ ok tt → IsValidLayout memory q
  unfolding validate
  validate-IsValidLayout h =
      let (_, e1, h1) = >>=-eq-ok (reject_if _ _) _ h in
      let (_, e2, h2) = >>=-eq-ok (reject_if _ _) _ h1 in
      let (_, e3, h3) = >>=-eq-ok (check_range memory q.descriptors) _ h2 in
      let (_, e4, h4) = >>=-eq-ok (check_range memory q.available) _ h3 in
      let (_, e5, _) = >>=-eq-ok (check_range memory q.used) _ h4 in
      let (k, lt, p) =
        is_power_of_two-true 16 q.size (size_guard q.size (reject_if-eq-ok _ _ e1)) in
      let (a, b, c) = rings_room q (reject_if-eq-ok _ _ e2) in
      record {
        exponent = k;
        exponent_small = lt;
        size_power = p;
        descriptors_room = a;
        available_room = b;
        used_room = c;
        descriptors_mapped = check_range-IsMappedRange memory v q.descriptors e3;
        available_mapped = check_range-IsMappedRange memory v q.available e4;
        used_mapped = check_range-IsMappedRange memory v q.used e5;
      }

  validate_complete : IsValidLayout memory q → validate q memory ≡ ok tt
  unfolding validate
  validate_complete w = rw (
    size_guard_complete q.size (rw w.size_power (power_pos w.exponent))
        (power-is_power_of_two 16 q.size w.exponent w.exponent_small w.size_power),
    rings_room_complete q w.descriptors_room w.available_room w.used_room,
    check_range_complete memory v q.descriptors w.descriptors_mapped,
    check_range_complete memory v q.available w.available_mapped,
    check_range_complete memory v q.used w.used_mapped,
  )

  -- Over disjoint segments `QueueLayout::validate` accepts a layout exactly if its size is a power
  -- of two below 2 ^ 16, each of its three rings is long enough for that size, and every address of
  -- each ring is mapped and its end below 2 ^ 64.
  pub validate_iff : (validate q memory ≡ ok tt) ↔ IsValidLayout memory q
  validate_iff = (validate-IsValidLayout, validate_complete)
