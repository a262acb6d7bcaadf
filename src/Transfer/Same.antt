-- ===== src/Transfer/Same.antt =====
-- Over disjoint segments these loops do what `read_bytes` and `write_bytes` of queue.rs do.
use libvirtio.Base.{
  ℕ, ◌+◌, ◌≡◌, inl, inr, refl, sym, ap, ◌∙◌, true, false, List, [], ◌∷◌, ◌++◌, map, arith,
  Bool-cases, length, length-map, length-append, length-drop, length-replicate, drop, replicate,
  range_from, leb, take-append_left, drop-append_left, drop-drop, le→leb,
}
use mathlib.Core.List.{append_assoc, map-append}
use libvirtio.Outcome.{Outcome, ok, err, panic, hang}
use libvirtio.State.{M, continue_with}
use libvirtio.Dma.{DmaRange, DmaPart, DmaMemory, translate}
use libvirtio.Dma.Segments.{IsDisjoint}
use libvirtio.Dma.Translate.{part_addresses, Translates, translate-Translates}
use libvirtio.Lease.{Host, with_lease, read_slice}
use libvirtio.Lease.Read.{length-part_addresses, with_lease_revoked, with_lease_ok, with_lease_err}
use libvirtio.Lease.Write.{write_parts_lem}
use libvirtio.Queue.{read_bytes, write_bytes}
use libvirtio.Queue.Access.{span, copy_from_lease_lem, checked-ok, write_block, write_block_lem}
use libvirtio.Transfer.{copy_at, fill_array, read_array, write_array}

-- Blocks that agree on the parts of a translated range agree under its lease.
module _ {A : Type 0} (memory : DmaMemory) (r : DmaRange) (body other : List DmaPart → M Host A)
    (h : Host) (v : IsDisjoint memory.segments)
    (same : (ps : List DmaPart) (g : Host)
      → length (part_addresses ps) ≡ r.length
      → body ps g ≡ other ps g) where
  live-congr :
      h.revoked ≡ false
      → (o : Outcome (List DmaPart)) → translate memory r ≡ o
      → Translates memory.segments r o
      → with_lease memory r body h ≡ with_lease memory r other h
  live-congr e (ok ps) t (_, there) = rw (
    with_lease_ok memory r body h e t,
    with_lease_ok memory r other h e t,
    same ps (record h { active = h.active + 1 }) (length-part_addresses memory.segments r ps there),
  )
  live-congr e (err x) t w =
      with_lease_err memory r body h e t ∙ sym (with_lease_err memory r other h e t)
  live-congr e panic t w = absurd w
  live-congr e hang t w = absurd w

  pub with_lease-congr : with_lease memory r body h ≡ with_lease memory r other h
  with_lease-congr = elim (Bool-cases h.revoked) [
    | inl e ↦ with_lease_revoked memory r body h e ∙ sym (with_lease_revoked memory r other h e)
    | inr e ↦ live-congr e (translate memory r) refl (translate-Translates memory r v)
  ]

pub copy_at-append :
    (before source after : List ℕ)
    → copy_at (length before) source (before ++ after)
      ≡ (before ++ source) ++ drop (length source) after
copy_at-append before source after = rw (
  take-append_left before after (length before) refl,
  ← drop-drop (length before) (length source) (before ++ after),
  drop-append_left before after (length before) refl,
  append_assoc before source (drop (length source) after),
)

fill_array_lem :
    (before after : List ℕ) (n : ℕ) (ps : List DmaPart) (h : Host)
    → n ≡ length before
    → length (part_addresses ps) ≡ length after
    → fill_array (before ++ after) n ps h ≡ (ok (before ++ map h.ram (part_addresses ps)), h)
unfolding fill_array read_slice continue_with
fill_array_lem before [] n [] h k e = ap (λ bs. (ok bs, h)) refl
fill_array_lem before (a ∷ after) n [] h k e = absurd (omega arith)
fill_array_lem before after n (p ∷ ps) h k e =
    rw (k, fits, copy_at-append before source after)
      (fill_array_lem (before ++ source) (drop (length source) after)
          (length before + length source) ps h (sym (length-append before source)) rest
        ∙ ap (λ bs. (ok bs, h))
            (append_assoc before source (map h.ram (part_addresses ps))
              ∙ ap (λ bs. before ++ bs)
                  (sym (map-append h.ram (range_from p.base p.length) (part_addresses ps)))))
  where
    source : List ℕ
    source = map h.ram (range_from p.base p.length)

    split : length source + length (part_addresses ps) ≡ length after
    split =
        ap (λ l. l + length (part_addresses ps)) (length-map (range_from p.base p.length) h.ram)
        ∙ sym (length-append (range_from p.base p.length) (part_addresses ps))
        ∙ e

    fits : leb (length before + length source) (length (before ++ after)) ≡ true
    fits = le→leb _ _ (omega (arith, split, length-append before after))

    rest : length (part_addresses ps) ≡ length (drop (length source) after)
    rest = omega (arith, split, length-drop (length source) after)

pub read_array-read_bytes :
    (memory : DmaMemory) (gpa n : ℕ) (h : Host)
    → IsDisjoint memory.segments
    → read_array memory gpa n h ≡ read_bytes memory gpa n h
unfolding read_array read_bytes
read_array-read_bytes memory gpa n h v = with_lease-congr memory (span gpa n) _ _ h v λ ps g e.
    fill_array_lem [] (replicate n 0) 0 ps g refl (e ∙ sym (length-replicate n 0))
    ∙ sym (
        copy_from_lease_lem n ps g
        ∙ ap (λ o. (o, g)) (checked-ok n _ (length-map (part_addresses ps) g.ram ∙ e)))

pub write_array-write_bytes :
    (memory : DmaMemory) (gpa : ℕ) (bytes : List ℕ) (h : Host)
    → IsDisjoint memory.segments
    → write_array memory gpa bytes h ≡ write_bytes memory gpa bytes h
unfolding write_array write_bytes continue_with
write_array-write_bytes memory gpa bytes h v =
    with_lease-congr memory (span gpa (length bytes)) _ (write_block bytes) h v λ ps g e.
      ap (λ t. continue_with t (λ _ s. (ok tt, s)))
        (write_parts_lem bytes 0 ps g (omega (arith, e)))
      ∙ sym (write_block_lem bytes ps g e)
