-- ===== src/Block/Execute/Perform.antt =====
-- The status that `execute_blocking` comes to has the effect promised.
use libvirtio.Base.{
  ℕ, ◌+◌, ◌<◌, ◌≡◌, ◌≢◌, ◌⊎◌, inl, inr, refl, sym, ap, ◌∙◌, Bool, true, false, ◌&&◌, List, map,
  Option, none, some, arith, ◌==◌, Bool-cases, Option-cases, length, length-map, range_from,
}
use native.Mathlib.Decide.{dec_lt}
use libvirtio.Error.{DeviceError}
use libvirtio.Outcome.{Outcome, ok, err, panic, hang}
use libvirtio.State.{M, continue_with}
use libvirtio.Dma.{DmaPart, DmaMemory}
use libvirtio.Dma.Translate.{host_address, part_addresses}
use libvirtio.Lease.{Host}
use libvirtio.Lease.Read.{guest_byte, map-some-ram}
use libvirtio.Lease.Write.{NoAlias, poke}
use libvirtio.Buffers.Deposit.{deposit, guest_byte-poke, deposit_outside, take_all}
use libvirtio.Block.{BlockRequestType, BlockRequest}
use libvirtio.Block.File.{HostFile, IsFile, laid_at}
use libvirtio.Block.Execute.{Limits, buffers, read_into, write_from, transfer, synchronize, perform}
use libvirtio.Block.Execute.Leases.{covered}
use libvirtio.Block.Execute.Effect.{
  Effect, start, span_length, Fits, Given, did_read, did_write, did_flush, refused, read_failed,
  write_failed, flush_failed, not_supported,
}
use libvirtio.Block.Execute.Move.{out_of_range, status_of, move, transfer_cases}

-- What a call that comes to a status is to do.
abbrev pub Performs :
    {F : Type 0}
    → HostFile F
    → (F → ℕ → ℕ)
    → DmaMemory
    → Limits
    → BlockRequest
    → Host
    → F
    → Outcome ℕ × (Host × F)
    → Type 0
Performs file contents memory limits r h f (ok status, (g, k)) =
    (g.revoked ≡ h.revoked)
    × (g.active ≡ h.active)
    × Effect file f limits r (contents f) (guest_byte memory h) (contents k) (guest_byte memory g)
        status
Performs file contents memory limits r h f (err e, w) = w ≡ (h, f)
Performs file contents memory limits r h f (panic, w) = ⊥
Performs file contents memory limits r h f (hang, w) = ⊥

pub length-mapped :
    (f : ℕ → Option ℕ) (xs ys : List ℕ) → map some xs ≡ map f ys → length xs ≡ length ys
length-mapped f xs ys e = sym (length-map xs some) ∙ ap length e ∙ length-map ys f

module _ {F : Type 0} (file : HostFile F) (contents : F → ℕ → ℕ) (is_file : IsFile file contents)
    (memory : DmaMemory) (distinct : NoAlias memory.segments) (limits : Limits) (r : BlockRequest)
    (pss : List (List DmaPart))
    (there : map some (part_addresses (buffers pss))
      ≡ map (host_address memory.segments) (covered r.payload))
    (h : Host) (f : F) where
  abbrev xs : List ℕ
  xs = part_addresses (buffers pss)

  abbrev Does : Outcome ℕ × (Host × F) → Type 0
  Does = Performs file contents memory limits r h f

  size : length xs ≡ span_length r
  size = length-mapped _ xs (covered r.payload) there

  fits :
      (output : Bool)
      → out_of_range limits output (start r) (length xs) ≡ false
      → Fits limits r × ((output && limits.read_only) ≡ false)
  fits output e = (ground (arith, e, size), ground (arith, e))

  refuses :
      (output : Bool)
      → (output ≡ true → r.request_type ≡ BlockRequestType.output)
      → out_of_range limits output (start r) (length xs) ≡ true
      → (limits.capacity < start r + span_length r)
        ⊎ ((r.request_type ≡ BlockRequestType.output) × (limits.read_only ≡ true))
  refuses output ty e = elim (dec_lt limits.capacity (start r + span_length r)) [
    | yes lt ↦ inl lt
    | no ge ↦
        let writes : (output && limits.read_only) ≡ true = ground (arith, e, size, ge) in
        inr (ty (ground (arith, writes)), ground (arith, writes))
  ]

  -- What `preadv` leaves.
  read_view :
      (placed : List ℕ) (x : ℕ)
      → guest_byte memory (record h { ram = poke h.ram xs placed }) x
        ≡ deposit (guest_byte memory h) (covered r.payload) placed x
  read_view placed x = guest_byte-poke memory distinct xs (covered r.payload) placed h there x

  -- A result of the file's call that is not the whole length.
  short_none : (o : Option ℕ) → o ≡ none → o ≢ some (span_length r)
  short_none o e wrong = cc

  short_some :
      (o : Option ℕ) (m : ℕ) → o ≡ some m → (m == length xs) ≡ false → o ≢ some (span_length r)
  short_some o m e q wrong = let same : m ≡ span_length r = cc in ground (arith, q, size, same)

  whole : (m : ℕ) → (m == length xs) ≡ true → m ≡ span_length r
  whole m q = ground (arith, q, size)

  read_count :
      (file.preadv (span_length r) (start r) f).0.count
      ≡ (file.preadv (length xs) (start r) f).0.count
  read_count = ap (λ n. (file.preadv n (start r) f).0.count) (sym size)

  read_Performs :
      r.request_type ≡ BlockRequestType.input
      → Fits limits r
      → Does (
          continue_with
            (read_into file (buffers pss) (start r) (h, f))
            (λ result w. (ok (status_of (length xs) result), w)))
  unfolding read_into continue_with
  read_Performs ty fit = elim (Option-cases (file.preadv (length xs) (start r) f).0.count) [
    | inl e ↦ rw e (
      refl,
      refl,
      read_failed ty fit (short_none _ (read_count ∙ e))
          (λ x. is_file.read_keeps (length xs) (start r) f x)
          (λ x out. read_view _ x ∙ deposit_outside (covered r.payload) _ _ x out),
    )
    | inr (m, e) ↦ elim (Bool-cases (m == length xs)) [
      | inl q ↦
          rw (e, q)
            (
              refl,
              refl,
              did_read ty fit (λ x. is_file.read_keeps (length xs) (start r) f x)
                  (λ x.
                    read_view _ x
                    ∙ ap (λ bs. deposit (guest_byte memory h) (covered r.payload) bs x)
                        ((is_file.reads (length xs) (start r) m f e).1
                          ∙ ap (λ k. map (contents f) (range_from (start r) k)) (whole m q))),
            )
      | inr q ↦
          rw (e, q)
            (
              refl,
              refl,
              read_failed ty fit (short_some _ m (read_count ∙ e) q)
                  (λ x. is_file.read_keeps (length xs) (start r) f x)
                  (λ x out. read_view _ x ∙ deposit_outside (covered r.payload) _ _ x out),
            )
    ]
  ]

  abbrev bytes : List ℕ
  bytes = map h.ram xs

  bytes_size : length bytes ≡ span_length r
  bytes_size = length-map xs h.ram ∙ size

  write_Performs :
      r.request_type ≡ BlockRequestType.output
      → Fits limits r
      → limits.read_only ≡ false
      → Does (
          continue_with
            (write_from file (buffers pss) (start r) (h, f))
            (λ result w. (ok (status_of (length xs) result), w)))
  unfolding write_from continue_with
  write_Performs ty fit writable = elim (Option-cases (file.pwritev bytes (start r) f).0) [
    | inl e ↦ rw (e) (refl, refl, failed (short_none _ e))
    | inr (m, e) ↦ elim (Bool-cases (m == length xs)) [
      | inl q ↦
          rw (e, q)
            (
              refl,
              refl,
              did_write bytes ty fit writable given
                  (λ x.
                    (is_file.writes bytes (start r) m f e).1 x
                    ∙ ap (λ bs. laid_at (start r) bs (contents f) x)
                        (take_all m bytes (omega (arith, whole m q, bytes_size))))
                  (λ x. refl),
            )
      | inr q ↦ rw (e, q) (refl, refl, failed (short_some _ m e q))
    ]
  ]
    where
      given : Given r (guest_byte memory h) bytes
      given = map-some-ram memory h xs (covered r.payload) there

      failed :
          (file.pwritev bytes (start r) f).0 ≢ some (span_length r)
          → Effect file f limits r
              (contents f)
              (guest_byte memory h)
              (contents (file.pwritev bytes (start r) f).1)
              (guest_byte memory h)
              1
      failed short =
          write_failed bytes ty fit writable given short
            (λ x out. is_file.writes_within bytes (start r) f x (rw bytes_size out)) (λ x. refl)

  same_Does :
      (status : ℕ)
      → Effect file f limits r
          (contents f)
          (guest_byte memory h)
          (contents f)
          (guest_byte memory h)
          status
      → Does (ok status, (h, f))
  same_Does status effect = (refl, refl, effect)

  transfer_Performs :
      (output : Bool)
      → (output ≡ true → r.request_type ≡ BlockRequestType.output)
      → (Fits limits r
          → (output && limits.read_only) ≡ false
          → Does (
              continue_with
                (move file limits output r.sector pss h f (h, f))
                (λ result w. (ok (status_of (length xs) result), w))))
      → Does (transfer file limits output r.sector pss (h, f))
  transfer_Performs output ty called = elim (transfer_cases file limits output r.sector pss h f) [
    | inl (x, e) ↦ rw e refl
    | inr (inl (e, guard)) ↦
        rw e (same_Does 1 (refused (refuses output ty guard) (λ x. refl) (λ x. refl)))
    | inr (inr (guard, e)) ↦ let (fit, writable) = fits output guard in rw e (called fit writable)
  ]

  module _ (ty : r.request_type ≡ BlockRequestType.flush) where
    unflushed : limits.flush_supported ≡ false → synchronize file limits pss (h, f) ≡ (ok 2, (h, f))
    unfolding synchronize continue_with
    unflushed e = rw e refl

    loaded :
        limits.flush_supported ≡ true
        → (length pss == 0) ≡ false
        → synchronize file limits pss (h, f)
          ≡ (err (DeviceError.descriptor "block flush has payload"), (h, f))
    unfolding synchronize continue_with
    loaded e k = rw (e, k) refl

    flushed :
        limits.flush_supported ≡ true
        → (length pss == 0) ≡ true
        → synchronize file limits pss (h, f)
          ≡ (ok (elim (file.sync_data f).0 [ none ↦ 1 | some _ ↦ 0 ]), (h, (file.sync_data f).1))
    unfolding synchronize continue_with
    flushed e k = rw (e, k) refl

    synchronize_Performs : Does (synchronize file limits pss (h, f))
    synchronize_Performs = elim (Bool-cases limits.flush_supported) [
      | inr e ↦ rw (unflushed e) (same_Does 2 (not_supported (inl (ty, e)) (λ x. refl) (λ x. refl)))
      | inl e ↦ elim (Bool-cases (length pss == 0)) [
        | inr k ↦ rw (loaded e k) refl
        | inl k ↦ elim (Option-cases (file.sync_data f).0) [
          | inl o ↦
              rw (flushed e k, o)
                (refl, refl, flush_failed ty e o (λ x. is_file.sync_keeps f x) (λ x. refl))
          | inr (u, o) ↦
              rw (flushed e k, o)
                (refl, refl, did_flush ty e o (λ x. is_file.sync_keeps f x) (λ x. refl))
        ]
      ]
    ]

  abbrev chosen : BlockRequestType → M (Host × F) ℕ
  chosen ty = elim ty [
    | BlockRequestType.flush ↦ synchronize file limits pss
    | BlockRequestType.unsupported code ↦ λ w. (ok 2, w)
    | BlockRequestType.input ↦ transfer file limits false r.sector pss
    | BlockRequestType.output ↦ transfer file limits true r.sector pss
  ]

  perform_lem :
      (ty : BlockRequestType)
      → r.request_type ≡ ty
      → perform file limits r pss (h, f) ≡ chosen ty (h, f)
  unfolding perform
  perform_lem ty e = ap (λ ty. chosen ty (h, f)) e

  pub perform-Performs : Does (perform file limits r pss (h, f))
  perform-Performs = go r.request_type refl
    where
      go : (ty : BlockRequestType) → r.request_type ≡ ty → Does (perform file limits r pss (h, f))
      go BlockRequestType.input ty =
          rw (perform_lem _ ty)
            (transfer_Performs false (λ wrong. cc) (λ fit _. read_Performs ty fit))
      go BlockRequestType.output ty =
          rw (perform_lem _ ty)
            (transfer_Performs true (λ _. ty) (λ fit writable. write_Performs ty fit writable))
      go BlockRequestType.flush ty = rw (perform_lem _ ty) (synchronize_Performs ty)
      go (BlockRequestType.unsupported code) ty =
          rw (perform_lem _ ty)
            (same_Does 2 (not_supported (inr (code, ty)) (λ x. refl) (λ x. refl)))
