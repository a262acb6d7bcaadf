-- ===== src/Block/Execute/Leases.antt =====
-- Several leases held at once: what `with_leases` hands to its block.
use libvirtio.Base.{
  ℕ, suc, ◌+◌, ◌-◌, ◌≡◌, ◌⊎◌, inl, inr, refl, sym, ap, ap₂, ◌∙◌, List, [], ◌∷◌, ◌++◌, map, some,
  arith, length, range_from,
}
use mathlib.Core.List.{map-append}
use libvirtio.Error.{DeviceError}
use libvirtio.Outcome.{Outcome, err}
use libvirtio.State.{M}
use libvirtio.Dma.{DmaRange, DmaPart, DmaMemory}
use libvirtio.Dma.Segments.{IsDisjoint}
use libvirtio.Dma.Translate.{host_address, part_addresses}
use libvirtio.Lease.{Host}
use libvirtio.Lease.Held.{held, dropped, with_leases, lease_cases}
use libvirtio.Block.Execute.{buffers}
use libvirtio.Block.Execute.Sums.{part_addresses-append}

-- The guest addresses of the ranges, in order.
unfoldable pub covered : List DmaRange → List ℕ
covered [] = []
covered (r ∷ rs) = range_from r.gpa r.length ++ covered rs

-- `n` leases more held, and `n` dropped.
abbrev pub holding : ℕ → Host → Host
holding n h = record h { active = h.active + n }

abbrev pub dropping : {T A : Type 0} → ℕ → Outcome A × (Host × T) → Outcome A × (Host × T)
dropping n (o, (h, t)) = (o, (record h { active = h.active - n }, t))

holding_none : (h : Host) → holding 0 h ≡ h
holding_none h = ap (λ n. record h { active = n }) (omega arith)

holding-suc : (n : ℕ) (h : Host) → holding n (held h) ≡ holding (suc n) h
holding-suc n h = ap (λ n. record h { active = n }) (omega arith)

pub counted : (h : Host) → record h { active = h.active + 1 - 1 } ≡ h
counted h = ap (λ n. record h { active = n }) (omega arith)

module _ (memory : DmaMemory) (v : IsDisjoint memory.segments) {T A : Type 0} where
  dropping_none : (r : Outcome A × (Host × T)) → dropping 0 r ≡ r
  dropping_none (o, (h, t)) = ap (λ n. (o, (record h { active = n }, t))) (omega arith)

  dropping-suc : (n : ℕ) (r : Outcome A × (Host × T)) → dropped (dropping n r) ≡ dropping (suc n) r
  dropping-suc n (o, (h, t)) = ap (λ n. (o, (record h { active = n }, t))) (omega arith)

  -- One of the leases is refused and nothing has changed, or the block has run with the parts of
  -- all of them, which are those of the ranges in order.
  pub with_leases_cases :
      (rs : List DmaRange) (body : List (List DmaPart) → M (Host × T) A) (h : Host) (t : T)
      → ((x : DeviceError) × (with_leases memory rs body (h, t) ≡ (err x, (h, t))))
        ⊎ ((pss : List (List DmaPart)) × (map some (part_addresses (buffers pss))
              ≡ map (host_address memory.segments) (covered rs))
            × (with_leases memory rs body (h, t)
                ≡ dropping (length rs) (body pss (holding (length rs) h, t))))
  unfolding with_leases covered buffers
  with_leases_cases [] body h t =
      inr ([], refl, sym (dropping_none _ ∙ ap (λ h. body [] (h, t)) (holding_none h)))
  with_leases_cases (r ∷ rs) body h t =
      elim (lease_cases memory r (λ ps. with_leases memory rs (λ pss. body (ps ∷ pss))) h t v) [
        | inl (x, e) ↦ inl (x, e)
        | inr (ps, granted, e) ↦ elim (with_leases_cases rs (λ pss. body (ps ∷ pss)) (held h) t) [
          | inl (x, k) ↦ inl (x, e ∙ ap dropped k ∙ ap (λ h. (err x, (h, t))) (counted h))
          | inr (pss, there, k) ↦ inr (
            ps ∷ pss,
            ap (map some) (part_addresses-append ps (buffers pss))
                ∙ map-append some (part_addresses ps) (part_addresses (buffers pss))
                ∙ ap₂ ◌++◌ granted.there there
                ∙ sym (
                    map-append (host_address memory.segments) (range_from r.gpa r.length)
                      (covered rs)),
            e
                ∙ ap dropped k
                ∙ dropping-suc (length rs) _
                ∙ ap (λ h. dropping (suc (length rs)) (body (ps ∷ pss) (h, t)))
                    (holding-suc (length rs) h),
          )
        ]
      ]
