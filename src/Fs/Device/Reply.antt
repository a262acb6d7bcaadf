-- ===== src/Fs/Device/Reply.antt =====
-- `write_reply` of src/fs.rs: what it leaves in the guest's memory, by way of the loops that it
-- shares with src/network.rs.
use libvirtio.Base.{
  ℕ, ◌+◌, ◌-◌, ◌^◌, ◌≤◌, ◌<◌, ◌≡◌, ◌≢◌, inl, inr, refl, sym, ap, ◌∙◌, min, true, false, Bool-cases,
  Option-cases, List, [], ◌∷◌, map, length, ltb, ◌==◌, if◌then◌else◌, All, arith,
}
use mathlib.Core.Path.{fun_ext}
use libvirtio.Error.{DeviceError}
use libvirtio.Outcome.{Outcome, ok, err, panic, hang, ok_or}
use libvirtio.State.{M, pure, continue_with}
use libvirtio.Dma.{DmaRange, DmaPart, DmaMemory}
use libvirtio.Dma.Segments.{IsDisjoint}
use libvirtio.Lease.{Host, with_lease, write_slice}
use libvirtio.Lease.Write.{NoAlias}
use libvirtio.Queue.{Descriptor}
use libvirtio.Buffers.{scatter, scatter_parts}
use libvirtio.Buffers.{capacity_from}
use libvirtio.Buffers.Gather.{addresses}
use libvirtio.Buffers.Room.{capacity_from_sound}
use libvirtio.Buffers.Deposit.{deposit, deposit_nil, deposit_outside}
use libvirtio.Buffers.Scatter.{Scatters, scatter-Scatters}
use libvirtio.Lease.Read.{guest_byte}
use libvirtio.Fs.{try_u32}
use libvirtio.Fs.Device.{copy_parts, copy_ranges, reply_capacity, write_reply}

-- A range as the descriptor that it comes from.
abbrev pub as_descriptor : DmaRange → Descriptor
as_descriptor r = record { address = r.gpa; length = r.length; flags = 2; next = 0 }

-- The loop that goes on to the end of the parts does nothing once all is copied.
scatter_parts_done :
    (bytes : List ℕ) (offset : ℕ) (ps : List DmaPart) (h : Host)
    → (offset == length bytes) ≡ true
    → scatter_parts bytes offset ps h ≡ (ok offset, h)
unfolding scatter_parts
scatter_parts_done bytes offset [] h e = refl
scatter_parts_done bytes offset (p ∷ ps) h e = rw e refl

scatter_done :
    (memory : DmaMemory) (bytes : List ℕ) (offset : ℕ) (ds : List Descriptor) (h : Host)
    → (offset == length bytes) ≡ true
    → scatter memory bytes offset ds h ≡ (ok offset, h)
unfolding scatter
scatter_done memory bytes offset [] h e = refl
scatter_done memory bytes offset (d ∷ ds) h e = rw e refl

module _ (memory : DmaMemory) (reply : List ℕ) where
  copy_parts_lem :
      (ps : List DmaPart) (copied : ℕ) (h : Host)
      → (copied == length reply) ≡ false
      → copy_parts reply copied ps h ≡ scatter_parts reply copied ps h
  unfolding copy_parts scatter_parts continue_with write_slice
  copy_parts_lem [] copied h e = refl
  copy_parts_lem (p ∷ ps) copied h e =
      let swap : min (length reply - copied) p.length ≡ min p.length (length reply - copied) =
        omega arith in
      elim (Bool-cases (copied + min p.length (length reply - copied) == length reply)) [
        | inl done ↦ rw (e, swap, done) (sym (scatter_parts_done reply _ ps _ done))
        | inr more ↦ rw (e, swap, more) (copy_parts_lem ps _ _ more)
      ]

  -- The check behind the loops.
  abbrev checked : Outcome ℕ × Host → Outcome ℕ × Host
  checked r = continue_with r λ n h.
      if n == length reply
      then (ok n, h)
      else (err (DeviceError.descriptor "short virtio-fs reply write"), h)

  abbrev descriptors : List DmaRange → List Descriptor
  descriptors = map as_descriptor

  -- What is left to do behind the first range.
  abbrev go_on : List DmaRange → ℕ → M Host ℕ
  go_on rs c = if c == length reply then pure c else copy_ranges memory reply c rs

  module _ (rs : List DmaRange)
      (rest : (c : ℕ) (h : Host)
        → (c == length reply) ≡ false
        → copy_ranges memory reply c rs h
          ≡ checked (scatter memory reply c (descriptors rs) h)) where
    go_on_lem :
        (c : ℕ) (h : Host) → go_on rs c h ≡ checked (scatter memory reply c (descriptors rs) h)
    unfolding continue_with
    go_on_lem c h = elim (Bool-cases (c == length reply)) [
      | inl e ↦ rw (scatter_done memory reply c (descriptors rs) h e, e) refl
      | inr e ↦ rw e (rest c h e)
    ]

    behind_lem :
        (r : Outcome ℕ × Host)
        → continue_with r (go_on rs)
          ≡ checked (continue_with r (λ c. scatter memory reply c (descriptors rs)))
    unfolding continue_with
    behind_lem (ok c, h) = go_on_lem c h
    behind_lem (err x, h) = refl
    behind_lem (panic, h) = refl
    behind_lem (hang, h) = refl

  copy_ranges_lem :
      (rs : List DmaRange) (copied : ℕ) (h : Host)
      → (copied == length reply) ≡ false
      → copy_ranges memory reply copied rs h
        ≡ checked (scatter memory reply copied (descriptors rs) h)
  unfolding copy_ranges scatter continue_with
  copy_ranges_lem [] copied h e = rw e refl
  copy_ranges_lem (r ∷ rs) copied h e =
      let same : copy_parts reply copied ≡ scatter_parts reply copied =
        fun_ext (λ ps. fun_ext (λ g. copy_parts_lem ps copied g e)) in
      rw (same, e)
        (behind_lem rs (copy_ranges_lem rs) (with_lease memory r (scatter_parts reply copied) h))

reply_capacity_lem :
    (rs : List DmaRange) (total : ℕ)
    → reply_capacity total rs ≡ capacity_from total (map as_descriptor rs)
unfolding reply_capacity capacity_from
reply_capacity_lem [] total = refl
reply_capacity_lem (r ∷ rs) total = elim (Bool-cases (ltb (total + r.length) (2 ^ 64))) [
  | inl e ↦ rw (reply_capacity, capacity_from, e) (reply_capacity_lem rs (total + r.length))
  | inr e ↦ rw (reply_capacity, capacity_from, e) refl
]

-- The guest addresses that the ranges cover, in order.
abbrev pub covered : List DmaRange → List ℕ
covered ranges = addresses (map as_descriptor ranges)

-- What `write_reply` is to do.
abbrev pub WritesReply : DmaMemory → List DmaRange → List ℕ → Host → Outcome ℕ × Host → Type 0
WritesReply memory ranges reply h (ok n, g) =
    (n ≡ length reply)
    × (n < 2 ^ 32)
    × (g.revoked ≡ h.revoked)
    × (g.active ≡ h.active)
    × ((x : ℕ) → guest_byte memory g x ≡ deposit (guest_byte memory h) (covered ranges) reply x)
WritesReply memory ranges reply h (err e, g) =
    (g.active ≡ h.active)
    × ((x : ℕ) → All (λ a. a ≢ x) (covered ranges) → guest_byte memory g x ≡ guest_byte memory h x)
WritesReply memory ranges reply h (panic, g) = ⊥
WritesReply memory ranges reply h (hang, g) = ⊥

module _ (memory : DmaMemory) (ranges : List DmaRange) (reply : List ℕ) (h : Host) where
  -- The check of the length behind the copy, as a `u32`.
  as_u32 :
      (n : ℕ) (g : Host)
      → n ≡ length reply
      → Scatters memory reply 0 (map as_descriptor ranges) h (ok n, g)
      → WritesReply memory ranges reply h
          (ok_or (try_u32 n) (DeviceError.descriptor "virtio-fs reply too large"), g)
  as_u32 n g e (rev, act, m, w) = elim (Bool-cases (ltb n (2 ^ 32))) [
    | inl b ↦ rw b (e, ground (arith, b), rev, act, w)
    | inr b ↦ rw b (act, λ x out. w x ∙ deposit_outside (covered ranges) reply _ x out)
  ]

  after_copy :
      (r : Outcome ℕ × Host)
      → length reply ≤ length (covered ranges)
      → Scatters memory reply 0 (map as_descriptor ranges) h r
      → WritesReply memory ranges reply h (
          continue_with
            (checked memory reply r)
            λ n g. (ok_or (try_u32 n) (DeviceError.descriptor "virtio-fs reply too large"), g))
  unfolding continue_with
  after_copy (ok n, g) fits s =
      let (_, _, m, _) = s in
      let e : n ≡ length reply = omega (arith, m, fits) in
      let all : (n == length reply) ≡ true = ground (arith, e) in rw all (as_u32 n g e s)
  after_copy (err x, g) fits s = s
  after_copy (panic, g) fits s = absurd s
  after_copy (hang, g) fits s = absurd s

-- `write_reply` over disjoint segments of which no two guest addresses share a host address
-- returns. It succeeds only with the length of the reply, which a `u32` holds; then the addresses
-- of the ranges hold the reply from the first on, the rest of the guest's memory is as it was, and
-- so are the leases. If it fails, no byte outside the ranges differs, and the leases are as they
-- were.
pub write_reply-WritesReply :
    (memory : DmaMemory) (ranges : List DmaRange) (reply : List ℕ) (h : Host)
    → IsDisjoint memory.segments
    → NoAlias memory.segments
    → WritesReply memory ranges reply h (write_reply memory ranges reply h)
unfolding write_reply continue_with
write_reply-WritesReply memory ranges [] h v d =
    (refl, omega arith, refl, refl, λ x. ap (λ f. f x) (sym (deposit_nil _ (covered ranges))))
write_reply-WritesReply memory ranges (b ∷ bs) h v d =
    elim (Option-cases (capacity_from 0 (map as_descriptor ranges))) [
      | inl e ↦ rw (reply_capacity_lem ranges 0, e) (refl, λ x out. refl)
      | inr (c, e) ↦ elim (Bool-cases (ltb c (length (b ∷ bs)))) [
        | inl over ↦ rw (reply_capacity_lem ranges 0, e, over) (refl, λ x out. refl)
        | inr fits ↦
            let total = capacity_from_sound (map as_descriptor ranges) 0 e in
            rw
              (
                reply_capacity_lem ranges 0,
                e,
                fits,
                copy_ranges_lem memory (b ∷ bs) ranges 0 h (ground arith),
              )
              (after_copy memory ranges (b ∷ bs) h _ (ground (arith, fits, total))
                (scatter-Scatters memory v d (b ∷ bs) 0 (map as_descriptor ranges) h (omega arith)))
      ]
    ]
