-- ===== src/Block/File.antt =====
-- The file behind a block device, as src/block.rs uses it: the operating system's calls on it are
-- parameters that act on a state of their own.
use libvirtio.Base.{
  ℕ, ◌+◌, ◌-◌, ◌≤◌, ◌<◌, ◌≡◌, ◌⊎◌, List, map, Option, none, some, length, take, range_from, leb,
  get_elem?, if◌then◌else◌,
}
use libvirtio.State.{M, IsSettled}

-- What `preadv` puts into the buffers, from their start on, and the number it returns, none if that
-- is negative.
pub record ReadResult : Type 0 where
  pub placed : List ℕ
  pub count : Option ℕ

pub record HostFile (F : Type 0) : Type 0 where
  -- `try_clone`
  pub clone_handle : M F (Unit {0})
  -- `sync_data`: whether it succeeds.
  pub sync_data : F → Option (Unit {0}) × F
  -- `preadv` into buffers of a length in all, from an offset on.
  pub preadv : ℕ → ℕ → F → ReadResult × F
  -- `pwritev` of the buffers' bytes from an offset on: the number it returns, none if negative.
  pub pwritev : List ℕ → ℕ → F → Option ℕ × F

-- The byte at a place once `bytes` lie from `at` on.
unfoldable pub laid_at : ℕ → List ℕ → (ℕ → ℕ) → ℕ → ℕ
laid_at at bytes f x = elim (get_elem? bytes (x - at)) [
  | none ↦ f x
  | some b ↦ if leb at x then b else f x
]

-- What the manual says of these calls, of a file whose byte at a place is `contents f place`: a
-- read returns the bytes that are there, as many as it says and no more than asked for; a write
-- puts the bytes there, and one that falls short changes nothing but the places asked for; the
-- other calls leave the contents as they are, and a handle is cloned or it is not.
pub record IsFile {F : Type 0} (file : HostFile F) (contents : F → ℕ → ℕ) : Type 0 where
  pub clone_returns : (f : F) → IsSettled (file.clone_handle f).0
  pub clone_keeps : (f : F) (x : ℕ) → contents (file.clone_handle f).1 x ≡ contents f x
  pub sync_keeps : (f : F) (x : ℕ) → contents (file.sync_data f).1 x ≡ contents f x
  pub read_keeps : (n at : ℕ) (f : F) (x : ℕ) → contents (file.preadv n at f).1 x ≡ contents f x
  pub reads :
      (n at k : ℕ) (f : F)
      → (file.preadv n at f).0.count ≡ some k
      → (k ≤ n) × ((file.preadv n at f).0.placed ≡ map (contents f) (range_from at k))
  pub writes :
      (bytes : List ℕ) (at k : ℕ) (f : F)
      → (file.pwritev bytes at f).0 ≡ some k
      → (k ≤ length bytes)
        × ((x : ℕ)
            → contents (file.pwritev bytes at f).1 x ≡ laid_at at (take k bytes) (contents f) x)
  pub writes_within :
      (bytes : List ℕ) (at : ℕ) (f : F) (x : ℕ)
      → (x < at) ⊎ (at + length bytes ≤ x)
      → contents (file.pwritev bytes at f).1 x ≡ contents f x
