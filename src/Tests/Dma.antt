-- ===== src/Tests/Dma.antt =====
-- dma.rs: two segments side by side, as in its test.
use libvirtio.Base.{ℕ, ◌≡◌, refl, [], ◌∷◌, arith}
use libvirtio.Outcome.{ok, err}
use libvirtio.Dma.{
  DmaRange, DmaSegment, DmaMemory, new, translate, sort_segments, check_segments, insert_segment,
  unmapped,
}
use libvirtio.Dma.Segments.{IsDisjoint, new-IsDisjoint, new_complete}
use libvirtio.Dma.Translate.{Translates, translate-Translates}
use mathlib.Core.List.{Perm}

abbrev low : DmaSegment
low = record { gpa = 0x1000; base = 0x5000; length = 16 }

abbrev high : DmaSegment
high = record { gpa = 0x1010; base = 0x9000; length = 16 }

abbrev both : DmaMemory
both = record { generation = 7; segments = low ∷ high ∷ [] }

abbrev across : DmaRange
across = record { gpa = 0x1008; length = 16 }

sorts : new 7 (high ∷ low ∷ []) ≡ ok both
unfolding new sort_segments insert_segment check_segments
sorts = refl

overlap_refused :
    new 7 (high ∷ record low { length = 17 } ∷ [])
    ≡ err (libvirtio.Error.invalid_layout "overlapping DMA segments")
unfolding new sort_segments insert_segment check_segments
overlap_refused = refl

translates_across :
    translate both across
    ≡ ok (
        record { gpa = 0x1008; base = 0x5008; length = 8 }
        ∷ record { gpa = 0x1010; base = 0x9000; length = 8 }
        ∷ [])
unfolding translate
translates_across = refl

past_the_end :
    translate both (record across { length = 25 }) ≡ err (unmapped (record across { length = 25 }))
unfolding translate
past_the_end = refl

both-IsDisjoint : IsDisjoint (low ∷ high ∷ [])
both-IsDisjoint = omega arith

new-IsDisjoint_example :
    (◌≡◌ {A = ℕ} 7 7) × Perm (low ∷ high ∷ []) (high ∷ low ∷ []) × IsDisjoint (low ∷ high ∷ [])
new-IsDisjoint_example = new-IsDisjoint 7 (high ∷ low ∷ []) {memory = both} sorts

both_accepted : new 7 (low ∷ high ∷ []) ≡ ok both
both_accepted = new_complete 7 low (high ∷ []) both-IsDisjoint

translate-Translates_example : Translates (low ∷ high ∷ []) across (translate both across)
translate-Translates_example = translate-Translates both across both-IsDisjoint
