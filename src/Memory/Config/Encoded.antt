-- ===== src/Memory/Config/Encoded.antt =====
-- The bytes of a configuration, and what a driver reads of them.
use libvirtio.Base.{
  ℕ, zero, suc, ◌+◌, ◌-◌, ◌^◌, ◌≤◌, ◌<◌, ◌≡◌, inl, inr, refl, ap, ◌∙◌, List, [], ◌∷◌, arith, length,
  take, drop, length-take, length-drop, ltb, get_elem?, Bool-cases,
}
use libvirtio.Base.Bytes.{to_le_bytes, from_le_bytes, from_le_bytes-to_le_bytes}
use libvirtio.Error.{DeviceError}
use libvirtio.Outcome.{Outcome, ok, err, panic, hang}
use native.Mathlib.Decide.{dec_le}
use libvirtio.Queue.{slice}
use libvirtio.Memory.Config.{MemoryConfig, MemoryConfigState, encode_config, read_config}

-- The fields at the offsets of the standard.
unfoldable pub decode_config : List ℕ → MemoryConfig
decode_config bytes = record {
  block_size = from_le_bytes (slice bytes 0 8);
  node_id = from_le_bytes (slice bytes 8 10);
  addr = from_le_bytes (slice bytes 16 24);
  region_size = from_le_bytes (slice bytes 24 32);
  usable_region_size = from_le_bytes (slice bytes 32 40);
  plugged_size = from_le_bytes (slice bytes 40 48);
  requested_size = from_le_bytes (slice bytes 48 56);
}

-- The widths of the Rust types.
pub record IsTyped (c : MemoryConfig) : Type 0 where
  pub block_size : c.block_size < 256 ^ 8
  pub node_id : c.node_id < 256 ^ 2
  pub addr : c.addr < 256 ^ 8
  pub region_size : c.region_size < 256 ^ 8
  pub usable_region_size : c.usable_region_size < 256 ^ 8
  pub plugged_size : c.plugged_size < 256 ^ 8
  pub requested_size : c.requested_size < 256 ^ 8

length-encode_config : (c : MemoryConfig) → length (encode_config c) ≡ 56
unfolding encode_config to_le_bytes
length-encode_config c = refl

module _ (c : MemoryConfig) where
  block_size_lem : slice (encode_config c) 0 8 ≡ to_le_bytes 8 c.block_size
  unfolding encode_config to_le_bytes
  block_size_lem = refl

  node_id_lem : slice (encode_config c) 8 10 ≡ to_le_bytes 2 c.node_id
  unfolding encode_config to_le_bytes
  node_id_lem = refl

  addr_lem : slice (encode_config c) 16 24 ≡ to_le_bytes 8 c.addr
  unfolding encode_config to_le_bytes
  addr_lem = refl

  region_size_lem : slice (encode_config c) 24 32 ≡ to_le_bytes 8 c.region_size
  unfolding encode_config to_le_bytes
  region_size_lem = refl

  usable_region_size_lem : slice (encode_config c) 32 40 ≡ to_le_bytes 8 c.usable_region_size
  unfolding encode_config to_le_bytes
  usable_region_size_lem = refl

  plugged_size_lem : slice (encode_config c) 40 48 ≡ to_le_bytes 8 c.plugged_size
  unfolding encode_config to_le_bytes
  plugged_size_lem = refl

  requested_size_lem : slice (encode_config c) 48 56 ≡ to_le_bytes 8 c.requested_size
  unfolding encode_config to_le_bytes
  requested_size_lem = refl

  -- The bytes that `MemoryConfig::encode` gives a configuration hold its seven fields, each in
  -- little-endian order at its place, if the fields have the widths of their Rust types.
  pub decode_config-encode_config : IsTyped c → decode_config (encode_config c) ≡ c
  unfolding decode_config
  decode_config-encode_config t =
      rw
        (
          block_size_lem,
          from_le_bytes-to_le_bytes 8 c.block_size t.block_size,
          node_id_lem,
          from_le_bytes-to_le_bytes 2 c.node_id t.node_id,
          addr_lem,
          from_le_bytes-to_le_bytes 8 c.addr t.addr,
          region_size_lem,
          from_le_bytes-to_le_bytes 8 c.region_size t.region_size,
          usable_region_size_lem,
          from_le_bytes-to_le_bytes 8 c.usable_region_size t.usable_region_size,
          plugged_size_lem,
          from_le_bytes-to_le_bytes 8 c.plugged_size t.plugged_size,
          requested_size_lem,
          from_le_bytes-to_le_bytes 8 c.requested_size t.requested_size,
        )
        refl

-- A read of the configuration space: within its 56 bytes the bytes there, an error beyond.
abbrev pub ReadsConfig : MemoryConfigState → ℕ → ℕ → Outcome (List ℕ) → Type 0
ReadsConfig s offset n (ok bytes) =
    (offset + n ≤ 56)
    × (length bytes ≡ n)
    × ((i : ℕ) → i < n → get_elem? bytes i ≡ get_elem? (encode_config s.config) (offset + i))
ReadsConfig s offset n (err e) = 56 < offset + n
ReadsConfig s offset n panic = ⊥
ReadsConfig s offset n hang = ⊥

get_elem?-take : (n i : ℕ) (xs : List ℕ) → i < n → get_elem? (take n xs) i ≡ get_elem? xs i
get_elem?-take zero i xs h = absurd (omega arith)
get_elem?-take (suc n) i [] h = refl
get_elem?-take (suc n) zero (x ∷ xs) h = refl
get_elem?-take (suc n) (suc i) (x ∷ xs) h = get_elem?-take n i xs (omega arith)

get_elem?-drop : (n i : ℕ) (xs : List ℕ) → get_elem? (drop n xs) i ≡ get_elem? xs (n + i)
get_elem?-drop zero i xs = ap (get_elem? xs) (omega arith)
get_elem?-drop (suc n) i [] = refl
get_elem?-drop (suc n) i (x ∷ xs) =
    let e : suc n + i ≡ suc (n + i) = omega arith in rw e (get_elem?-drop n i xs)

module _ (s : MemoryConfigState) (offset n : ℕ) where
  read_config_in :
      offset + n ≤ 56
      → read_config s offset n ≡ ok (slice (encode_config s.config) offset (offset + n))
  unfolding read_config
  read_config_in le = ground arith

  read_config_out : 56 < offset + n → (e : DeviceError) × (read_config s offset n ≡ err e)
  unfolding read_config
  read_config_out lt = elim (Bool-cases (ltb (offset + n) (2 ^ 64))) [
    | inl b ↦ (DeviceError.invalid_layout "virtio-mem config read exceeds size", ground arith)
    | inr b ↦ (DeviceError.invalid_layout "virtio-mem config offset overflow", ground arith)
  ]

  -- A read of `n` bytes at an offset of the configuration space gives those bytes of the encoded
  -- configuration, if they are within its 56 bytes; any other read fails.
  pub read_config-ReadsConfig : ReadsConfig s offset n (read_config s offset n)
  read_config-ReadsConfig = elim (dec_le (offset + n) 56) [
    | yes le ↦ rw (read_config_in le) (
      le,
      measured le,
      λ i lt.
          get_elem?-take (offset + n - offset) i (drop offset (encode_config s.config))
            (omega arith)
          ∙ get_elem?-drop offset i (encode_config s.config),
    )
    | no gt ↦ let (e, r) = read_config_out (omega arith) in rw r (omega arith)
  ]
    where
      measured : offset + n ≤ 56 → length (slice (encode_config s.config) offset (offset + n)) ≡ n
      measured le = omega (
        arith,
        length-take (offset + n - offset) (drop offset (encode_config s.config)),
        length-drop offset (encode_config s.config),
        length-encode_config s.config,
      )
