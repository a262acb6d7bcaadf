-- ===== src/Block/Execute/Complete.antt =====
-- `execute_blocking` and `write_status` of src/block.rs, under leases that are held.
use libvirtio.Base.{
  ℕ, ◌+◌, ◌≡◌, inl, inr, refl, sym, ap, ◌∙◌, Bool, true, false, ◌&&◌, List, [], ◌∷◌, map, none,
  some, arith, ◌==◌, Bool-cases, Option-cases, length, range_from, length-append, length-range_from,
}
use libvirtio.Error.{DeviceError}
use libvirtio.Outcome.{Outcome, ok, err, panic, hang}
use libvirtio.State.{M, continue_with, on_host}
use libvirtio.Dma.{DmaPart, DmaMemory}
use libvirtio.Dma.Translate.{host_address, part_addresses}
use libvirtio.Lease.{Host, store}
use libvirtio.Lease.Read.{guest_byte}
use libvirtio.Lease.Write.{NoAlias}
use libvirtio.Buffers.Deposit.{overlay, deposit, guest_byte-poke}
use libvirtio.Block.{BlockRequest, BlockCompletion}
use libvirtio.Block.File.{HostFile, IsFile}
use libvirtio.Block.Execute.{
  Limits, is_input, buffers, sum_used, used_length, perform, execute_blocking, write_status,
}
use libvirtio.Block.Execute.Sums.{sum_used_sound}
use libvirtio.Block.Execute.Leases.{covered}
use libvirtio.Block.Execute.Effect.{Contents, Effect, span_length, reported}
use libvirtio.Block.Execute.Perform.{Performs, perform-Performs, length-mapped}
use libvirtio.Block.Execute.Contained.{Contained, Effect-Contained, all_same}

-- A request executed: from the host `h` and the contents `d`, with the file called in the state
-- `f`, to the host `g` and the file's state `k`.
pub record Executed {F : Type 0} (file : HostFile F) (contents : F → ℕ → ℕ) (memory : DmaMemory)
    (limits : Limits) (r : BlockRequest) (f : F) (d : Contents) (h : Host) (c : BlockCompletion)
    (g : Host) (k : F) : Type 0 where
  pub revoked : g.revoked ≡ h.revoked
  pub active : g.active ≡ h.active
  pub middle : Host
  pub effect :
      Effect file f limits r d
        (guest_byte memory h)
        (contents k)
        (guest_byte memory middle)
        c.status
  pub used : c.used_length ≡ reported r c.status
  -- The status byte is written last.
  pub written :
      (x : ℕ) → guest_byte memory g x ≡ overlay (guest_byte memory middle) r.status.gpa c.status x

-- What is left as it was where a request fails.
pub record Kept {F : Type 0} (contents : F → ℕ → ℕ) (memory : DmaMemory) (limits : Limits)
    (r : BlockRequest) (d : Contents) (h g : Host) (k : F) : Type 0 where
  pub active : g.active ≡ h.active
  pub contained : Contained limits r d (guest_byte memory h) (contents k) (guest_byte memory g)

-- What an execution is to do.
abbrev pub Executes :
    {F : Type 0}
    → HostFile F
    → (F → ℕ → ℕ)
    → DmaMemory
    → Limits
    → BlockRequest
    → F
    → (ℕ → ℕ)
    → Host
    → Outcome BlockCompletion × (Host × F)
    → Type 0
Executes file contents memory limits r f d h (ok c, (g, k)) =
    Executed file contents memory limits r f d h c g k
Executes file contents memory limits r f d h (err e, (g, k)) = Kept contents memory limits r d h g k
Executes file contents memory limits r f d h (panic, w) = ⊥
Executes file contents memory limits r f d h (hang, w) = ⊥

-- What the worker does from a completion on, and all that it does.
abbrev close : {F : Type 0} → List DmaPart → BlockCompletion → M (Host × F) BlockCompletion
close sp c w = continue_with (on_host (write_status sp c.status) w) λ _ w. (ok c, w)

abbrev pub work :
    {F : Type 0}
    → HostFile F
    → Limits
    → BlockRequest
    → List (List DmaPart)
    → List DmaPart
    → M (Host × F) BlockCompletion
work file limits r pss sp w =
    continue_with (execute_blocking file limits r pss w) λ c w. close sp c w

module _ {F : Type 0} (file : HostFile F) (contents : F → ℕ → ℕ) (is_file : IsFile file contents)
    (memory : DmaMemory) (distinct : NoAlias memory.segments) (limits : Limits) (r : BlockRequest)
    (pss : List (List DmaPart))
    (there : map some (part_addresses (buffers pss))
      ≡ map (host_address memory.segments) (covered r.payload))
    (h : Host) (f : F) where
  abbrev Does : Outcome BlockCompletion × (Host × F) → Type 0
  Does = Executes file contents memory limits r f (contents f) h

  abbrev IsStatusLease : List DmaPart → Type 0
  IsStatusLease sp =
      map some (part_addresses sp)
      ≡ map (host_address memory.segments) (range_from r.status.gpa r.status.length)

  abbrev measures : ℕ → Bool
  measures status = status == 0 && is_input r.request_type

  used_input :
      (status : ℕ)
      → measures status ≡ true
      → used_length r.request_type pss status ≡ sum_used 1 (buffers pss)
  unfolding used_length
  used_input status b = rw (used_length, b) refl

  used_other :
      (status : ℕ) → measures status ≡ false → used_length r.request_type pss status ≡ some 1
  unfolding used_length
  used_other status b = rw (used_length, b) refl

  size : length (part_addresses (buffers pss)) ≡ span_length r
  size = length-mapped _ (part_addresses (buffers pss)) (covered r.payload) there

  some_eq : {a b : ℕ} → some a ≡ some b → b ≡ a
  some_eq e = cc

  used_sound :
      (status n : ℕ) → used_length r.request_type pss status ≡ some n → n ≡ reported r status
  used_sound status n e = elim (Bool-cases (measures status)) [
    | inl b ↦
        let sum = sum_used_sound (buffers pss) 1 (sym (used_input status b) ∙ e) in
        rw b (sum ∙ ap (λ m. 1 + m) size)
    | inr b ↦ rw b (some_eq (sym (used_other status b) ∙ e))
  ]

  module _ (status : ℕ) (g : Host) (k : F)
      (done : Performs file contents memory limits r h f (ok status, (g, k))) where
    kept : Kept contents memory limits r (contents f) h g k
    kept = record {
      active = done.1;
      contained = Effect-Contained file f limits r _ _ _ _ status done.2;
    }

    module _ (n : ℕ) (used : n ≡ reported r status) where
      abbrev completion : BlockCompletion
      completion = record { status = status; used_length = n }

      malformed :
          (sp : List DmaPart)
          → write_status sp status g
            ≡ (err (DeviceError.descriptor "block status lease is malformed"), g)
          → Does (close sp completion (g, k))
      unfolding continue_with
      malformed sp e = rw e kept

      one_byte :
          (p : DmaPart)
          → (p.length == 1) ≡ true
          → IsStatusLease (p ∷ [])
          → write_status (p ∷ []) status g
            ≡ (ok tt, record g { ram = store g.ram p.base (status ∷ []) })
      unfolding write_status continue_with
      one_byte p e lease = rw (write_status, e) refl

      laid :
          (p : DmaPart)
          → p.length ≡ 1
          → IsStatusLease (p ∷ [])
          → (x : ℕ)
          → guest_byte memory (record g { ram = store g.ram p.base (status ∷ []) }) x
            ≡ overlay (guest_byte memory g) r.status.gpa status x
      unfolding store deposit
      laid p e lease x =
          guest_byte-poke memory distinct (p.base ∷ []) (r.status.gpa ∷ []) (status ∷ []) g here x
        where
          one : r.status.length ≡ 1
          one =
              sym (length-range_from r.status.gpa r.status.length)
              ∙ sym (length-mapped _ (part_addresses (p ∷ [])) _ lease)
              ∙ length-append (range_from p.base p.length) []
              ∙ omega (arith, e, length-range_from p.base p.length)

          here : map some (p.base ∷ []) ≡ map (host_address memory.segments) (r.status.gpa ∷ [])
          here = rw (e, one) at lease

      close-Does : (sp : List DmaPart) → IsStatusLease sp → Does (close sp completion (g, k))
      unfolding write_status continue_with
      close-Does [] lease = malformed [] refl
      close-Does (p ∷ q ∷ ps) lease = malformed (p ∷ q ∷ ps) refl
      close-Does (p ∷ []) lease = elim (Bool-cases (p.length == 1)) [
        | inr e ↦ malformed (p ∷ []) (rw (write_status, e) refl)
        | inl e ↦ rw (one_byte p e lease) (record {
          revoked = done.0;
          active = done.1;
          middle = g;
          effect = done.2;
          used = used;
          written = laid p (ground (arith, e)) lease;
        })
      ]

  blocking_err :
      (x : DeviceError) (w : Host × F)
      → perform file limits r pss (h, f) ≡ (err x, w)
      → execute_blocking file limits r pss (h, f) ≡ (err x, w)
  unfolding execute_blocking continue_with
  blocking_err x w e = rw (execute_blocking, e) refl

  blocking_over :
      (status : ℕ) (w : Host × F)
      → perform file limits r pss (h, f) ≡ (ok status, w)
      → used_length r.request_type pss status ≡ none
      → execute_blocking file limits r pss (h, f)
        ≡ (err (DeviceError.descriptor "used length overflow"), w)
  unfolding execute_blocking continue_with
  blocking_over status w e k = rw (execute_blocking, e, k) refl

  blocking_ok :
      (status n : ℕ) (w : Host × F)
      → perform file limits r pss (h, f) ≡ (ok status, w)
      → used_length r.request_type pss status ≡ some n
      → execute_blocking file limits r pss (h, f)
        ≡ (ok (record { status = status; used_length = n }), w)
  unfolding execute_blocking continue_with
  blocking_ok status n w e k = rw (execute_blocking, e, k) refl

  unchanged : Kept contents memory limits r (contents f) h h f
  unchanged = record { active = refl; contained = all_same limits r (λ x. refl) (λ x. refl) }

  performed_Does :
      (sp : List DmaPart)
      → IsStatusLease sp
      → (q : Outcome ℕ × (Host × F)) → perform file limits r pss (h, f) ≡ q
      → Performs file contents memory limits r h f q
      → Does (work file limits r pss sp (h, f))
  unfolding continue_with
  performed_Does sp lease (err x, w) e same = rw (blocking_err x w e, same) unchanged
  performed_Does sp lease (ok status, (g, k)) e done =
      elim (Option-cases (used_length r.request_type pss status)) [
        | inl o ↦ rw (blocking_over status (g, k) e o) (kept status g k done)
        | inr (n, o) ↦
            rw (blocking_ok status n (g, k) e o)
              (close-Does status g k done n (used_sound status n o) sp lease)
      ]
  performed_Does sp lease (panic, w) e p = absurd p
  performed_Does sp lease (hang, w) e p = absurd p

  pub work-Executes :
      (sp : List DmaPart) → IsStatusLease sp → Does (work file limits r pss sp (h, f))
  work-Executes sp lease =
      performed_Does sp lease (perform file limits r pss (h, f)) refl
        (perform-Performs file contents is_file memory distinct limits r pss there h f)
