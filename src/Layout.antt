-- ===== src/Layout.antt =====
-- src/queue.rs: the layout of a virtqueue and its validation.
pub mod Valid
use libvirtio.Base.{ℕ, zero, suc, ◌+◌, ◌*◌, ◌^◌, Bool, true, false, not, ◌||◌, ltb, ◌==◌}
use libvirtio.Error.{DeviceError}
use libvirtio.Outcome.{Outcome, ok, err, reject_if, ◌>>=◌, ◌>>◌}
use libvirtio.Dma.{DmaRange, DmaMemory, check_range}

-- `index` and `size` are `u16`.
pub record QueueLayout : Type 0 where
  pub index : ℕ
  pub size : ℕ
  pub descriptors : DmaRange
  pub available : DmaRange
  pub used : DmaRange

-- `n.is_power_of_two()`: one of the powers below 2 ^ bits.
unfoldable pub is_power_of_two : ℕ → ℕ → Bool
is_power_of_two zero n = false
is_power_of_two (suc bits) n = n == 2 ^ bits || is_power_of_two bits n

unfoldable pub rings_too_small : QueueLayout → Bool
rings_too_small q =
    ltb q.descriptors.length (q.size * 16)
    || (ltb q.available.length (4 + q.size * 2) || ltb q.used.length (4 + q.size * 8))

-- `QueueLayout::validate`
unfoldable pub validate : QueueLayout → DmaMemory → Outcome (Unit {0})
unfolding rings_too_small
validate q memory = do
  reject_if (q.size == 0 || not (is_power_of_two 16 q.size))
      (DeviceError.invalid_queue q.index "size must be a non-zero power of two")
  reject_if (rings_too_small q) (DeviceError.invalid_queue q.index "virtqueue ring is too small")
  check_range memory q.descriptors
  check_range memory q.available
  check_range memory q.used
  ok tt
