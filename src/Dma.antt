-- ===== src/Dma.antt =====
-- src/dma.rs: the guest's address space as segments of host memory, and leases on ranges of it.
pub mod Segments
pub mod Translate
use libvirtio.Base.{
  ℕ, zero, suc, ◌+◌, ◌-◌, ◌^◌, min, Bool, true, false, ◌&&◌, ◌||◌, List, [], ◌∷◌, ◌++◌, map, Option,
  none, some, ltb, leb, ◌==◌, if◌then◌else◌, find?, length,
}
use libvirtio.Error.{DeviceError}
use libvirtio.Outcome.{Outcome, ok, err, panic, hang, ◌>>=◌, ◌>>◌, reject_if, ok_or, expect}

-- A guest physical range. Addresses are below 2 ^ 64, lengths are `usize` of 64 bits.
pub record DmaRange : Type 0 where
  pub gpa : ℕ
  pub length : ℕ

-- `base` is the host address that the segment's first byte is mapped at.
pub record DmaSegment : Type 0 where
  pub gpa : ℕ
  pub base : ℕ
  pub length : ℕ

pub record DmaPart : Type 0 where
  pub gpa : ℕ
  pub base : ℕ
  pub length : ℕ

-- The lease state is kept in `Host`, which every operation shares.
pub record DmaMemory : Type 0 where
  pub generation : ℕ
  pub segments : List DmaSegment

-- `u64::checked_add`
abbrev pub checked_add : ℕ → ℕ → Option ℕ
checked_add a b = if ltb (a + b) (2 ^ 64) then some (a + b) else none

unfoldable pub range_end : DmaRange → Option ℕ
range_end r = checked_add r.gpa r.length

unfoldable pub segment_end : DmaSegment → Option ℕ
segment_end s = checked_add s.gpa s.length

abbrev pub is_none : {A : Type 0} → Option A → Bool
is_none none = true
is_none (some _) = false

abbrev pub is_some_and : Option ℕ → (ℕ → Bool) → Bool
is_some_and none p = false
is_some_and (some a) p = p a

-- `sort_unstable_by_key`: insertion by the key.
unfoldable pub insert_segment : DmaSegment → List DmaSegment → List DmaSegment
insert_segment s [] = s ∷ []
insert_segment s (t ∷ ts) = if leb s.gpa t.gpa then s ∷ t ∷ ts else t ∷ insert_segment s ts

unfoldable pub sort_segments : List DmaSegment → List DmaSegment
sort_segments [] = []
sort_segments (s ∷ ss) = insert_segment s (sort_segments ss)

-- The loop over the sorted segments; the option is the segment before, if any.
unfoldable pub check_segments : Option DmaSegment → List DmaSegment → Outcome (Unit {0})
unfolding segment_end
check_segments previous [] = ok tt
check_segments none (s ∷ ss) = do
  reject_if (s.length == 0 || is_none (segment_end s))
      (DeviceError.invalid_layout "invalid DMA segment")
  check_segments (some s) ss
check_segments (some p) (s ∷ ss) = do
  reject_if (s.length == 0 || is_none (segment_end s))
      (DeviceError.invalid_layout "invalid DMA segment")
  e ← expect (segment_end p)
  reject_if (ltb s.gpa e) (DeviceError.invalid_layout "overlapping DMA segments")
  check_segments (some s) ss

abbrev is_empty : List DmaSegment → Bool
is_empty [] = true
is_empty (_ ∷ _) = false

-- `DmaMemory::new`
unfoldable pub new : ℕ → List DmaSegment → Outcome DmaMemory
new generation segments = do
  reject_if (is_empty segments) (DeviceError.invalid_layout "DMA mapping has no segments")
  let sorted = sort_segments segments
  check_segments none sorted
  ok (record { generation = generation; segments = sorted })

-- The test that `find` makes on each segment.
unfoldable pub covers : ℕ → DmaSegment → Bool
unfolding segment_end
covers cursor s = leb s.gpa cursor && is_some_and (segment_end s) (ltb cursor)

abbrev pub unmapped : DmaRange → DeviceError
unmapped r = DeviceError.dma_range r.gpa r.length

-- The `while` loop of `translate`. A round moves the cursor on, so the length of the range is
-- fuel enough.
unfoldable pub translate_loop : List DmaSegment → DmaRange → ℕ → ℕ → ℕ → Outcome (List DmaPart)
unfolding segment_end covers
translate_loop segments r end zero cursor = if ltb cursor end then hang else ok []
translate_loop segments r end (suc fuel) cursor = elim (ltb cursor end) [
  | false ↦ ok []
  | true ↦ do
    s ← ok_or (find? (covers cursor) segments) (unmapped r)
    e ← expect (segment_end s)
    let part_end = min e end
    rest ← translate_loop segments r end fuel part_end
    ok (
        record { gpa = cursor; base = s.base + (cursor - s.gpa); length = part_end - cursor }
        ∷ rest)
]

-- `DmaMemory::translate`
unfoldable pub translate : DmaMemory → DmaRange → Outcome (List DmaPart)
unfolding range_end translate_loop
translate memory r = do
  end ← ok_or (range_end r) (unmapped r)
  translate_loop memory.segments r end r.length r.gpa

-- `DmaMemory::check_range`
unfoldable pub check_range : DmaMemory → DmaRange → Outcome (Unit {0})
check_range memory r = do parts ← translate memory r; ok tt
