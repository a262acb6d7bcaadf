-- ===== src/Memory/Config.antt =====
-- src/memory.rs: the configuration of a virtio-mem device, its validation, its bytes, and the state
-- that a monitor updates. The lock is the value it guards. The watch channel is its value, the
-- count of updates, and how many receivers it has.
pub mod Valid
pub mod Encoded
use libvirtio.Base.{
  ℕ, ◌+◌, ◌-◌, ◌%◌, if◌then◌else◌, Bool, not, ◌||◌, any, List, [], ◌∷◌, Option, none, some,
  replicate, ltb, ◌==◌,
}
use libvirtio.Base.Bytes.{to_le_bytes}
use libvirtio.Error.{DeviceError}
use libvirtio.Outcome.{Outcome, ok, err, panic, hang, reject_if, ok_or, ◌>>=◌, ◌>>◌}
use libvirtio.State.{M, lift, modify, ◌>>=◌ as sequence}
use libvirtio.Dma.{checked_add}
use libvirtio.Layout.{is_power_of_two}
use libvirtio.Queue.{add_u64, slice}
use libvirtio.Transfer.{copy_at}

-- `node_id` is a `u16`, the others are `u64`.
pub record MemoryConfig : Type 0 where
  pub block_size : ℕ
  pub node_id : ℕ
  pub addr : ℕ
  pub region_size : ℕ
  pub usable_region_size : ℕ
  pub plugged_size : ℕ
  pub requested_size : ℕ

-- The values that the loop of `validate` goes through.
abbrev pub aligned_values : MemoryConfig → List ℕ
aligned_values c =
    c.addr ∷ c.region_size ∷ c.usable_region_size ∷ c.plugged_size ∷ c.requested_size ∷ []

-- `MemoryConfig::validate`. The loop stops at the first value that is not aligned.
unfoldable pub validate_config : MemoryConfig → Outcome MemoryConfig
validate_config c = do
  reject_if (c.block_size == 0 || not (is_power_of_two 64 c.block_size))
      (DeviceError.invalid_layout "virtio-mem block size is not a power of two")
  reject_if (any (λ value. not (value % c.block_size == 0)) (aligned_values c))
      (DeviceError.invalid_layout "virtio-mem value is not block aligned")
  reject_if
      (ltb c.region_size c.usable_region_size
        || (ltb c.usable_region_size c.plugged_size || ltb c.usable_region_size c.requested_size))
      (DeviceError.invalid_layout "invalid virtio-mem region sizes")
  ok c

abbrev pub config_size : ℕ
config_size = 56

-- `MemoryConfig::encode`
unfoldable pub encode_config : MemoryConfig → List ℕ
encode_config c =
    let b = copy_at 0 (to_le_bytes 8 c.block_size) (replicate config_size 0) in
    let b = copy_at 8 (to_le_bytes 2 c.node_id) b in
    let b = copy_at 16 (to_le_bytes 8 c.addr) b in
    let b = copy_at 24 (to_le_bytes 8 c.region_size) b in
    let b = copy_at 32 (to_le_bytes 8 c.usable_region_size) b in
    let b = copy_at 40 (to_le_bytes 8 c.plugged_size) b in
    copy_at 48 (to_le_bytes 8 c.requested_size) b

pub record MemoryConfigState : Type 0 where
  pub config : MemoryConfig
  pub updates : ℕ
  pub receivers : ℕ

-- `MemoryConfigState::new`. The receiver of the new channel is dropped at once.
unfoldable pub new_config_state : MemoryConfig → Outcome MemoryConfigState
new_config_state c = do
  _ ← validate_config c
  ok (record { config = c; updates = 0; receivers = 0 })

-- `watch::Sender::send`: with no receiver it fails, and the channel keeps its value.
abbrev pub send : ℕ → MemoryConfigState → MemoryConfigState
send value state = if state.receivers == 0 then state else record state { updates = value }

-- `MemoryConfigState::update`, with the state behind its references. Whether the count has been sent
-- is not looked at.
unfoldable pub update_config : MemoryConfig → M MemoryConfigState (Unit {0})
update_config c =
    sequence (lift (validate_config c))
      λ _. modify (λ state. send (add_u64 state.updates 1) (record state { config = c }))

-- `MemoryConfigState::subscribe`: one receiver more, which a drop takes away.
unfoldable pub subscribe : M MemoryConfigState (Unit {0})
subscribe = modify (λ state. record state { receivers = state.receivers + 1 })

abbrev pub drop_receiver : M MemoryConfigState (Unit {0})
drop_receiver = modify (λ state. record state { receivers = state.receivers - 1 })

-- `ConfigView::read` of `n` bytes
unfoldable pub read_config : MemoryConfigState → ℕ → ℕ → Outcome (List ℕ)
read_config state offset n = do
  end ←
      ok_or (checked_add offset n) (DeviceError.invalid_layout "virtio-mem config offset overflow")
  reject_if (ltb config_size end) (DeviceError.invalid_layout "virtio-mem config read exceeds size")
  ok (slice (encode_config state.config) offset end)
