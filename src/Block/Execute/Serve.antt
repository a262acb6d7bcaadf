-- ===== src/Block/Execute/Serve.antt =====
-- `execute` of src/block.rs implements what a block device promises.
use libvirtio.Base.{
  ℕ, ◌≡◌, inl, inr, refl, subst, Bool, true, false, List, map, some, arith, length, range_from,
}
use mathlib.Core.Path.{fun_ext}
use libvirtio.Error.{DeviceError, DeviceDownReason}
use libvirtio.Outcome.{Outcome, ok, err, panic, hang}
use libvirtio.State.{M, continue_with, on_rest, IsSettled}
use libvirtio.Dma.{DmaPart, DmaMemory}
use libvirtio.Dma.Segments.{IsDisjoint}
use libvirtio.Dma.Translate.{host_address, part_addresses}
use libvirtio.Lease.{Host}
use libvirtio.Lease.Read.{guest_byte}
use libvirtio.Lease.Write.{NoAlias}
use libvirtio.Lease.Held.{held, with_lease_on, with_leases, lease_cases}
use libvirtio.Block.{BlockRequest, BlockCompletion}
use libvirtio.Block.File.{HostFile, IsFile}
use libvirtio.Block.Execute.{Limits, buffers, joined, spawn_blocking, execute}
use libvirtio.Block.Execute.Leases.{covered, holding, dropping, with_leases_cases}
use libvirtio.Block.Execute.Effect.{Contents}
use libvirtio.Block.Execute.Contained.{all_same}
use libvirtio.Block.Execute.Complete.{Kept, Executes, work, work-Executes}

module _ {F : Type 0} (file : HostFile F) (contents : F → ℕ → ℕ) (memory : DmaMemory)
    (limits : Limits) (r : BlockRequest) (f : F) (d : Contents) where
  joined-Executes :
      (h : Host) (q : Outcome BlockCompletion × (Host × F))
      → Executes file contents memory limits r f d h q
      → Executes file contents memory limits r f d h (joined q.0, q.1)
  joined-Executes h (ok c, w) e = e
  joined-Executes h (err x, w) e = e
  joined-Executes h (panic, w) e = absurd e
  joined-Executes h (hang, w) e = absurd e

  -- Leases taken for the work and dropped after it.
  released_Executes :
      (n : ℕ) (h : Host) (q : Outcome BlockCompletion × (Host × F))
      → Executes file contents memory limits r f d (holding n h) q
      → Executes file contents memory limits r f d h (dropping n q)
  unfolding guest_byte
  released_Executes n h (ok c, (g, k)) e = record {
    revoked = e.revoked;
    active = let same = e.active in omega (arith, same);
    middle = e.middle;
    effect = e.effect;
    used = e.used;
    written = e.written;
  }
  released_Executes n h (err x, (g, k)) e = record {
    active = let same = e.active in omega (arith, same);
    contained = e.contained;
  }
  released_Executes n h (panic, w) e = absurd e
  released_Executes n h (hang, w) e = absurd e

module _ {F : Type 0} (file : HostFile F) (contents : F → ℕ → ℕ) (is_file : IsFile file contents)
    (memory : DmaMemory) (v : IsDisjoint memory.segments) (distinct : NoAlias memory.segments)
    (limits : Limits) (r : BlockRequest) (f : F) where
  -- The state in which the calls are made.
  abbrev cloned : F
  cloned = (file.clone_handle f).1

  abbrev Does : Host → Outcome BlockCompletion × (Host × F) → Type 0
  Does h q = Executes file contents memory limits r cloned (contents f) h q

  cloned_same : contents cloned ≡ contents f
  cloned_same = fun_ext (is_file.clone_keeps f)

  unchanged : (h : Host) → Kept contents memory limits r (contents f) h h f
  unchanged h = record { active = refl; contained = all_same limits r (λ x. refl) (λ x. refl) }

  -- The block under the leases.
  abbrev under : List (List DmaPart) → List DmaPart → M (Host × F) BlockCompletion
  under pss sp w =
      continue_with (on_rest file.clone_handle w)
        λ _ w. spawn_blocking (work file limits r pss sp) w

  module _ (pss : List (List DmaPart))
      (there : map some (part_addresses (buffers pss))
        ≡ map (host_address memory.segments) (covered r.payload))
      (h : Host) where
    worked :
        (sp : List DmaPart)
        → map some (part_addresses sp)
          ≡ map (host_address memory.segments) (range_from r.status.gpa r.status.length)
        → Does h (spawn_blocking (work file limits r pss sp) (h, cloned))
    worked sp lease =
        subst
          (λ d.
            Executes file contents memory limits r cloned d h
              (spawn_blocking (work file limits r pss sp) (h, cloned)))
          cloned_same
          (joined-Executes file contents memory limits r cloned (contents cloned) h
            (work file limits r pss sp (h, cloned))
            (work-Executes file contents is_file memory distinct limits r pss there h cloned sp
              lease))

    under-Does :
        (sp : List DmaPart)
        → map some (part_addresses sp)
          ≡ map (host_address memory.segments) (range_from r.status.gpa r.status.length)
        → Does h (under pss sp (h, f))
    unfolding continue_with
    under-Does sp lease = go (file.clone_handle f).0 refl (is_file.clone_returns f)
      where
        go :
            (o : Outcome (Unit {0}))
            → (file.clone_handle f).0 ≡ o
            → IsSettled o
            → Does h (under pss sp (h, f))
        go (ok _) e k = rw e (worked sp lease)
        go (err x) e k = rw e (record {
          active = refl;
          contained = all_same limits r (is_file.clone_keeps f) (λ x. refl);
        })
        go panic e k = absurd k
        go hang e k = absurd k

  with_status_Does :
      (pss : List (List DmaPart))
      → map some (part_addresses (buffers pss))
        ≡ map (host_address memory.segments) (covered r.payload)
      → (h : Host) → Does h (with_lease_on memory r.status (under pss) (h, f))
  with_status_Does pss there h = elim (lease_cases memory r.status (under pss) h f v) [
    | inl (x, e) ↦ rw e (unchanged h)
    | inr (sp, granted, e) ↦ rw e (
        released_Executes file contents memory limits r cloned (contents f) 1 h
          (under pss sp (held h, f)) (under-Does pss there (held h) sp granted.there))
  ]

  leased_Does :
      (h : Host)
      → Does h
          (with_leases memory r.payload (λ pss. with_lease_on memory r.status (under pss)) (h, f))
  leased_Does h =
      elim (with_leases_cases memory v r.payload (λ pss. with_lease_on memory r.status (under pss))
        h f) [
          | inl (x, e) ↦ rw e (unchanged h)
          | inr (pss, there, e) ↦ rw e (
              released_Executes file contents memory limits r cloned (contents f) (length r.payload)
                h _ (with_status_Does pss there (holding (length r.payload) h)))
        ]

  execute_down :
      (h : Host)
      → execute file limits true memory r (h, f)
        ≡ (err (DeviceError.down DeviceDownReason.revoked), (h, f))
  unfolding execute continue_with
  execute_down h = refl

  execute_live :
      (h : Host)
      → execute file limits false memory r (h, f)
        ≡ with_leases memory r.payload (λ pss. with_lease_on memory r.status (under pss)) (h, f)
  unfolding execute continue_with
  execute_live h = refl

  -- `execute` of a request, over disjoint segments of which no two guest addresses share a host
  -- address, on a file whose calls do what their manual says: it returns, the file's calls being
  -- made in the state that cloning its handle leaves. If it returns a completion, the status byte
  -- lies at the status address, and the rest of the guest's memory and the file's contents are as
  -- the effect of the request with that status says: a read that succeeds has put the sector's
  -- bytes at the payload's addresses in order, a write has put those addresses' bytes at the
  -- sector, within the capacity and not on a disk that is read only, a flush has synchronised the
  -- file; an error is reported only for a request beyond the capacity, for a write to a disk that
  -- is read only, or where the file's call fell short; and the length is one more than that of the
  -- payload for a read that succeeds, else one. If it fails, the contents at and beyond the
  -- capacity, those of a disk that is read only, those before a request that is not a write and the
  -- guest's bytes outside of the payload are as before. In either case as many leases are held as
  -- before.
  pub execute-Executes :
      (h : Host) (down : Bool) → Does h (execute file limits down memory r (h, f))
  execute-Executes h true = rw (execute_down h) (unchanged h)
  execute-Executes h false = rw (execute_live h) (leased_Does h)
