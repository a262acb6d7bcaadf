-- ===== src/Block/Execute/Move.antt =====
-- The arms of `execute_blocking` that move data: what they do has the effect promised.
use libvirtio.Base.{
  ℕ, ◌-◌, ◌*◌, ◌^◌, ◌≡◌, ◌⊎◌, inl, inr, refl, ap, ◌∙◌, Bool, true, false, ◌&&◌, ◌||◌, List, Option,
  none, some, arith, ltb, ◌==◌, Bool-cases, Option-cases, length, if◌then◌else◌,
}
use libvirtio.Error.{DeviceError}
use libvirtio.Outcome.{Outcome, ok, err}
use libvirtio.State.{M, continue_with}
use libvirtio.Dma.{DmaPart}
use libvirtio.Dma.Translate.{part_addresses}
use libvirtio.Lease.{Host}
use libvirtio.Block.File.{HostFile}
use libvirtio.Block.Execute.{Limits, sum_leases, buffers, read_into, write_from, transfer}
use libvirtio.Block.Execute.Sums.{sum_leases_sound}

-- The guard of the arm, and the status that a result of the file's call stands for.
abbrev pub out_of_range : Limits → Bool → ℕ → ℕ → Bool
out_of_range limits output offset n =
    ltb limits.capacity offset || (ltb (limits.capacity - offset) n || (output && limits.read_only))

abbrev pub status_of : ℕ → Option ℕ → ℕ
status_of n result = elim result [ none ↦ 1 | some m ↦ if m == n then 0 else 1 ]

module _ {F : Type 0} (file : HostFile F) (limits : Limits) (output : Bool) (sector : ℕ)
    (pss : List (List DmaPart)) (h : Host) (f : F) where
  abbrev offset : ℕ
  offset = sector * 512

  abbrev pub move : M (Host × F) (Option ℕ)
  move =
      if output then write_from file (buffers pss) offset else read_into file (buffers pss) offset

  abbrev moved : Outcome ℕ × (Host × F)
  moved = transfer file limits output sector pss (h, f)

  mul_err :
      ltb offset (2 ^ 64) ≡ false
      → moved ≡ (err (DeviceError.descriptor "block sector overflow"), (h, f))
  unfolding transfer continue_with
  mul_err e = rw e refl

  module _ (e : ltb offset (2 ^ 64) ≡ true) where
    sum_err :
        sum_leases 0 pss ≡ none
        → moved ≡ (err (DeviceError.descriptor "block request length overflow"), (h, f))
    unfolding transfer continue_with
    sum_err k = rw (e, k) refl

    module _ {n : ℕ} (k : sum_leases 0 pss ≡ some n) where
      refused_lem : out_of_range limits output offset n ≡ true → moved ≡ (ok 1, (h, f))
      unfolding transfer continue_with
      refused_lem g = rw (e, k, g) refl

      module _ (g : out_of_range limits output offset n ≡ false) where
        many_err :
            ltb (length (buffers pss)) (2 ^ 31) ≡ false
            → moved ≡ (err (DeviceError.descriptor "too many block I/O vectors"), (h, f))
        unfolding transfer continue_with
        many_err m = rw (e, k, g, m) refl

        far_err :
            ltb (length (buffers pss)) (2 ^ 31) ≡ true
            → ltb offset (2 ^ 63) ≡ false
            → moved ≡ (err (DeviceError.descriptor "block offset exceeds host off_t"), (h, f))
        unfolding transfer continue_with
        far_err m l = rw (e, k, g, m, l) refl

        moved_lem :
            ltb (length (buffers pss)) (2 ^ 31) ≡ true
            → ltb offset (2 ^ 63) ≡ true
            → moved ≡ continue_with (move (h, f)) (λ result w. (ok (status_of n result), w))
        unfolding transfer continue_with
        moved_lem m l = rw (e, k, g, m, l) refl

  -- An arm that moves data fails with nothing changed, or the request is out of range and nothing
  -- is changed either, or the file is called.
  pub transfer_cases :
      ((x : DeviceError) × (moved ≡ (err x, (h, f))))
      ⊎ (((moved ≡ (ok 1, (h, f)))
            × (out_of_range limits output offset (length (part_addresses (buffers pss))) ≡ true))
          ⊎ ((out_of_range limits output offset (length (part_addresses (buffers pss))) ≡ false)
              × (moved
                  ≡ continue_with (move (h, f)) (λ result w.
                    (ok (status_of (length (part_addresses (buffers pss))) result), w)))))
  transfer_cases = elim (Bool-cases (ltb offset (2 ^ 64))) [
    | inr e ↦ inl (_, mul_err e)
    | inl e ↦ elim (Option-cases (sum_leases 0 pss)) [
      | inl k ↦ inl (_, sum_err e k)
      | inr (n, k) ↦
          let total : sum_leases 0 pss ≡ some (length (part_addresses (buffers pss))) =
            k ∙ ap some (sum_leases_sound pss 0 k ∙ omega arith) in
          elim (Bool-cases
            (out_of_range limits output offset (length (part_addresses (buffers pss))))) [
              | inl g ↦ inr (inl (refused_lem e total g, g))
              | inr g ↦ elim (Bool-cases (ltb (length (buffers pss)) (2 ^ 31))) [
                | inr m ↦ inl (_, many_err e total g m)
                | inl m ↦ elim (Bool-cases (ltb offset (2 ^ 63))) [
                  | inr l ↦ inl (_, far_err e total g m l)
                  | inl l ↦ inr (inr (g, moved_lem e total g m l))
                ]
              ]
            ]
    ]
  ]
