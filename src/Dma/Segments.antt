-- ===== src/Dma/Segments.antt =====
-- The segments that `DmaMemory::new` accepts: mapped, in order, disjoint.
use libvirtio.Base.{
  ℕ, ◌+◌, ◌^◌, ◌≤◌, ◌<◌, ◌≡◌, ◌≢◌, refl, List, [], ◌∷◌, Option, none, some, arith, leb, All,
  Bool-cases, inl, inr,
}
use libvirtio.Outcome.{ok, >>=-eq-ok}
use libvirtio.Dma.{DmaSegment, DmaMemory, insert_segment, sort_segments, check_segments, new}
use mathlib.Core.List.{Perm}
use mathlib.Core.List.Perm

-- Not empty, and the end of the segment is an address.
abbrev pub IsMapped : DmaSegment → Type 0
IsMapped s = (0 < s.length) × (s.gpa + s.length < 2 ^ 64)

-- Each segment ends at or before the start of every later one.
abbrev pub IsDisjoint : List DmaSegment → Type 0
IsDisjoint [] = Unit {0}
IsDisjoint (s ∷ ss) = IsMapped s × All (λ t. s.gpa + s.length ≤ t.gpa) ss × IsDisjoint ss

-- What `check_segments` sees of the segment before.
abbrev Follows : Option DmaSegment → List DmaSegment → Type 0
Follows none ss = Unit {0}
Follows (some p) ss = All (λ t. p.gpa + p.length ≤ t.gpa) ss

abbrev IsMapped? : Option DmaSegment → Type 0
IsMapped? none = Unit {0}
IsMapped? (some p) = IsMapped p

All-weaken :
    (a b : ℕ) (ss : List DmaSegment) → a ≤ b → All (λ t. b ≤ t.gpa) ss → All (λ t. a ≤ t.gpa) ss
All-weaken a b [] h k = tt
All-weaken a b (s ∷ ss) h k = (omega arith, All-weaken a b ss h k.1)

first_check :
    (s : DmaSegment) (ss : List DmaSegment)
    → check_segments none (s ∷ ss) ≡ ok tt
    → IsMapped s × (check_segments (some s) ss ≡ ok tt)
unfolding check_segments
first_check s ss h = ground arith

next_check :
    (p s : DmaSegment) (ss : List DmaSegment)
    → IsMapped p
    → check_segments (some p) (s ∷ ss) ≡ ok tt
    → IsMapped s × (p.gpa + p.length ≤ s.gpa) × (check_segments (some s) ss ≡ ok tt)
unfolding check_segments
next_check p s ss m h = ground arith

check_segments-IsDisjoint :
    (p : Option DmaSegment) (ss : List DmaSegment)
    → IsMapped? p
    → check_segments p ss ≡ ok tt
    → IsDisjoint ss × Follows p ss
check_segments-IsDisjoint none [] m h = (tt, tt)
check_segments-IsDisjoint (some p) [] m h = (tt, tt)
check_segments-IsDisjoint none (s ∷ ss) m h =
    let (ms, rest) = first_check s ss h in
    let (d, f) = check_segments-IsDisjoint (some s) ss ms rest in ((ms, f, d), tt)
check_segments-IsDisjoint (some p) (s ∷ ss) m h =
    let (ms, le, rest) = next_check p s ss m h in
    let (d, f) = check_segments-IsDisjoint (some s) ss ms rest in
    ((ms, f, d), (le, All-weaken _ (s.gpa + s.length) ss (omega arith) f))

check_segments_complete_from :
    (p : DmaSegment) (ss : List DmaSegment)
    → IsMapped p
    → IsDisjoint (p ∷ ss)
    → check_segments (some p) ss ≡ ok tt
unfolding check_segments
check_segments_complete_from p [] m d = refl
check_segments_complete_from p (s ∷ ss) m d =
    ground (arith, check_segments_complete_from s ss d.2.0 d.2)

check_segments_complete : (ss : List DmaSegment) → IsDisjoint ss → check_segments none ss ≡ ok tt
unfolding check_segments
check_segments_complete [] d = refl
check_segments_complete (s ∷ ss) d = ground (arith, check_segments_complete_from s ss d.0 d)

insert_segment-perm : (s : DmaSegment) (ss : List DmaSegment) → Perm (insert_segment s ss) (s ∷ ss)
unfolding insert_segment
insert_segment-perm s [] = Perm.refl _
insert_segment-perm s (t ∷ ts) = elim (Bool-cases (leb s.gpa t.gpa)) [
  | inl e ↦ rw e (Perm.refl _)
  | inr e ↦ rw e (Perm.trans (Perm.cons t (insert_segment-perm s ts)) (Perm.swap s t ts))
]

sort_segments-perm : (ss : List DmaSegment) → Perm (sort_segments ss) ss
unfolding sort_segments
sort_segments-perm [] = Perm.refl []
sort_segments-perm (s ∷ ss) =
    Perm.trans (insert_segment-perm s (sort_segments ss)) (Perm.cons s (sort_segments-perm ss))

new_unfolded :
    (generation : ℕ) (s : DmaSegment) (ss : List DmaSegment) {memory : DmaMemory}
    → new generation (s ∷ ss) ≡ ok memory
    → (memory ≡ record { generation = generation; segments = sort_segments (s ∷ ss) })
      × (check_segments none (sort_segments (s ∷ ss)) ≡ ok tt)
unfolding new
new_unfolded generation s ss h =
    let (_, e, r) = >>=-eq-ok (check_segments none (sort_segments (s ∷ ss))) _ h in (cc, e)

not-new-nil : (generation : ℕ) {memory : DmaMemory} → new generation [] ≢ ok memory
unfolding new
not-new-nil generation h = cc

-- If `DmaMemory::new` succeeds, the memory has the given generation and its segments are those
-- given, in another order, each non-empty with an end below 2 ^ 64, and each ending at or before
-- the start of every later one.
pub new-IsDisjoint :
    (generation : ℕ) (segments : List DmaSegment) {memory : DmaMemory}
    → new generation segments ≡ ok memory
    → (memory.generation ≡ generation) × Perm memory.segments segments × IsDisjoint memory.segments
new-IsDisjoint generation [] h = absurd (not-new-nil generation h)
new-IsDisjoint generation (s ∷ ss) h =
    let (e, c) = new_unfolded generation s ss h in
    rw e (
      refl,
      sort_segments-perm (s ∷ ss),
      (check_segments-IsDisjoint none (sort_segments (s ∷ ss)) tt c).0,
    )

insert_segment_first :
    (s : DmaSegment) (ss : List DmaSegment)
    → All (λ t. s.gpa + s.length ≤ t.gpa) ss
    → insert_segment s ss ≡ s ∷ ss
unfolding insert_segment
insert_segment_first s [] h = refl
insert_segment_first s (t ∷ ts) h = ground arith

sort_segments_sorted : (ss : List DmaSegment) → IsDisjoint ss → sort_segments ss ≡ ss
unfolding sort_segments
sort_segments_sorted [] d = refl
sort_segments_sorted (s ∷ ss) d = rw (sort_segments_sorted ss d.2) (insert_segment_first s ss d.1)

-- `DmaMemory::new` accepts every non-empty list of such segments, and keeps it as it is.
pub new_complete :
    (generation : ℕ) (s : DmaSegment) (ss : List DmaSegment)
    → IsDisjoint (s ∷ ss)
    → new generation (s ∷ ss) ≡ ok (record { generation = generation; segments = s ∷ ss })
unfolding new
new_complete generation s ss d =
    rw (sort_segments_sorted (s ∷ ss) d, check_segments_complete (s ∷ ss) d)
