-- ===== src/Block/Execute/Effect.antt =====
-- What a block device promises: the effect of a request on a disk and on the guest's memory, less
-- the status byte. It knows of no leases, parts or buffers.
use libvirtio.Base.{
  ℕ, ◌+◌, ◌*◌, ◌≤◌, ◌<◌, ◌≡◌, ◌≢◌, ◌⊎◌, true, false, ◌&&◌, List, map, Option, none, some, All,
  length, range_from, ◌==◌, if◌then◌else◌,
}
use libvirtio.Buffers.Deposit.{deposit}
use libvirtio.Block.{BlockRequestType, BlockRequest}
use libvirtio.Block.File.{HostFile, laid_at}
use libvirtio.Block.Execute.{Limits, is_input}
use libvirtio.Block.Execute.Leases.{covered}

-- What the guest has at its addresses, and the file at its places.
abbrev pub View : Type 0
View = ℕ → Option ℕ

abbrev pub Contents : Type 0
Contents = ℕ → ℕ

abbrev pub start : BlockRequest → ℕ
start r = r.sector * 512

abbrev pub span_length : BlockRequest → ℕ
span_length r = length (covered r.payload)

abbrev pub Fits : Limits → BlockRequest → Type 0
Fits limits r = start r + span_length r ≤ limits.capacity

abbrev pub Untouched : {A : Type 0} → (ℕ → A) → (ℕ → A) → Type 0
Untouched f g = (x : ℕ) → g x ≡ f x

-- The byte at a guest address is not one of the payload's.
abbrev pub OutsidePayload : BlockRequest → ℕ → Type 0
OutsidePayload r x = All (λ a. a ≢ x) (covered r.payload)

-- The bytes that a request to write takes from the guest.
abbrev pub Given : BlockRequest → View → List ℕ → Type 0
Given r view bytes = map some bytes ≡ map view (covered r.payload)

-- How the disk `d` and the view `v` before, the disk `d'` and the view `v'` after, and a status
-- agree with a request; the file is in the state `f` when its calls are made.
pub data Effect {F : Type 0} (file : HostFile F) (f : F) (limits : Limits) (r : BlockRequest)
    (d : Contents) (v : View) (d' : Contents) (v' : View) : ℕ → Type 0 where
  did_read :
      r.request_type ≡ BlockRequestType.input
      → Fits limits r
      → Untouched d d'
      → ((x : ℕ)
          → v' x ≡ deposit v (covered r.payload) (map d (range_from (start r) (span_length r))) x)
      → Effect file f limits r d v d' v' 0
  did_write :
      (bytes : List ℕ)
      → r.request_type ≡ BlockRequestType.output
      → Fits limits r
      → limits.read_only ≡ false
      → Given r v bytes
      → Untouched (laid_at (start r) bytes d) d'
      → Untouched v v'
      → Effect file f limits r d v d' v' 0
  did_flush :
      r.request_type ≡ BlockRequestType.flush
      → limits.flush_supported ≡ true
      → (file.sync_data f).0 ≡ some tt
      → Untouched d d'
      → Untouched v v'
      → Effect file f limits r d v d' v' 0
  -- The request is beyond the capacity, or would write to a disk that is read only.
  refused :
      (limits.capacity < start r + span_length r)
        ⊎ ((r.request_type ≡ BlockRequestType.output) × (limits.read_only ≡ true))
      → Untouched d d'
      → Untouched v v'
      → Effect file f limits r d v d' v' 1
  read_failed :
      r.request_type ≡ BlockRequestType.input
      → Fits limits r
      → (file.preadv (span_length r) (start r) f).0.count ≢ some (span_length r)
      → Untouched d d'
      → ((x : ℕ) → OutsidePayload r x → v' x ≡ v x)
      → Effect file f limits r d v d' v' 1
  write_failed :
      (bytes : List ℕ)
      → r.request_type ≡ BlockRequestType.output
      → Fits limits r
      → limits.read_only ≡ false
      → Given r v bytes
      → (file.pwritev bytes (start r) f).0 ≢ some (span_length r)
      → ((x : ℕ) → (x < start r) ⊎ (start r + span_length r ≤ x) → d' x ≡ d x)
      → Untouched v v'
      → Effect file f limits r d v d' v' 1
  flush_failed :
      r.request_type ≡ BlockRequestType.flush
      → limits.flush_supported ≡ true
      → (file.sync_data f).0 ≡ none
      → Untouched d d'
      → Untouched v v'
      → Effect file f limits r d v d' v' 1
  not_supported :
      ((r.request_type ≡ BlockRequestType.flush) × (limits.flush_supported ≡ false))
        ⊎ ((code : ℕ) × (r.request_type ≡ BlockRequestType.unsupported code))
      → Untouched d d'
      → Untouched v v'
      → Effect file f limits r d v d' v' 2

-- The length to report: the bytes written to the guest, the status byte included.
abbrev pub reported : BlockRequest → ℕ → ℕ
reported r status = if status == 0 && is_input r.request_type then 1 + span_length r else 1
