-- ===== src/Block/Request/Header.antt =====
-- The header of a block request: over disjoint segments its bytes are read as `read_bytes` of
-- queue.rs reads them.
use libvirtio.Base.{
  ℕ, ◌+◌, ◌≡◌, refl, sym, ap, ap₂, ◌∙◌, true, false, List, [], ◌∷◌, ◌++◌, map, arith, length,
  length-map, length-append, length-drop, length-replicate, drop, replicate, range_from, ltb, ◌==◌,
}
use mathlib.Core.List.{append_assoc, map-append}
use libvirtio.Outcome.{ok}
use libvirtio.State.{continue_with}
use libvirtio.Dma.{DmaPart, DmaMemory}
use libvirtio.Dma.Segments.{IsDisjoint}
use libvirtio.Dma.Translate.{part_addresses}
use libvirtio.Lease.{Host, with_lease}
use libvirtio.Queue.{read_bytes}
use libvirtio.Queue.Access.{span, copy_from_lease_lem, checked-ok}
use libvirtio.Transfer.Same.{with_lease-congr, copy_at-append}
use libvirtio.Block.Request.{copy_parts, copy_from_lease}

copy_parts_lem :
    (before after : List ℕ) (n : ℕ) (ps : List DmaPart) (h : Host)
    → n ≡ length before
    → length (part_addresses ps) ≡ length after
    → copy_parts (before ++ after) n ps h
      ≡ (ok (before ++ map h.ram (part_addresses ps), n + length after), h)
unfolding copy_parts continue_with
copy_parts_lem before [] n [] h k e = ap (λ n. (ok (before ++ [], n), h)) (omega arith)
copy_parts_lem before (a ∷ after) n [] h k e = absurd (omega arith)
copy_parts_lem before after n (p ∷ ps) h k e =
    rw (k, fits, copy_at-append before source after)
      (copy_parts_lem (before ++ source) (drop (length source) after)
          (length before + length source) ps h (sym (length-append before source)) rest
        ∙ ap₂ (λ bs n. (ok (bs, n), h))
            (append_assoc before source (map h.ram (part_addresses ps))
              ∙ ap (λ bs. before ++ bs)
                  (sym (map-append h.ram (range_from p.base p.length) (part_addresses ps))))
            (omega (arith, split, length-drop (length source) after)))
  where
    source : List ℕ
    source = map h.ram (range_from p.base p.length)

    split : length source + length (part_addresses ps) ≡ length after
    split =
        ap (λ l. l + length (part_addresses ps)) (length-map (range_from p.base p.length) h.ram)
        ∙ sym (length-append (range_from p.base p.length) (part_addresses ps))
        ∙ e

    small : length (before ++ after) ≡ length before + length source + length (part_addresses ps)
    small = omega (arith, split, length-append before after)

    fits : ltb (length (before ++ after)) (length before + length source) ≡ false
    fits = ground (arith, small)

    rest : length (part_addresses ps) ≡ length (drop (length source) after)
    rest = omega (arith, split, length-drop (length source) after)

copy_from_lease_block :
    (n : ℕ) (ps : List DmaPart) (h : Host)
    → length (part_addresses ps) ≡ n
    → copy_from_lease (replicate n 0) ps h ≡ (ok (map h.ram (part_addresses ps)), h)
unfolding copy_from_lease continue_with
copy_from_lease_block n ps h e =
    rw (copy_parts_lem [] (replicate n 0) 0 ps h refl (e ∙ sym (length-replicate n 0)), reached)
      refl
  where
    zeros : List ℕ
    zeros = replicate n 0

    many : length zeros ≡ n
    many = length-replicate n _

    reached : (0 + length zeros == length (map h.ram (part_addresses ps))) ≡ true
    reached = ground (arith, e, many, length-map (part_addresses ps) h.ram)

pub header-read_bytes :
    (memory : DmaMemory) (gpa n : ℕ) (h : Host)
    → IsDisjoint memory.segments
    → with_lease memory (span gpa n) (copy_from_lease (replicate n 0)) h ≡ read_bytes memory gpa n h
unfolding read_bytes
header-read_bytes memory gpa n h v = with_lease-congr memory (span gpa n) _ _ h v λ ps g e.
    copy_from_lease_block n ps g e
    ∙ sym (
        copy_from_lease_lem n ps g
        ∙ ap (λ o. (o, g)) (checked-ok n _ (length-map (part_addresses ps) g.ram ∙ e)))
