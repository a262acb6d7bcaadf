-- ===== src/Block.antt =====
-- src/block.rs: the virtio-blk device. Its specification and configuration; the requests, their
-- execution and the device are modules of their own. The metadata of a path are the operating
-- system's: a parameter.
pub mod Request
pub mod File
pub mod Execute
pub mod Device
use libvirtio.Base.{
  ℕ, ◌-◌, ◌/◌, ◌%◌, ◌^◌, ◌||◌, not, Bool, true, false, String, Option, none, some, ltb, ◌==◌, List,
  bit_or, if◌then◌else◌,
}
use libvirtio.Error.{DeviceError}
use libvirtio.Outcome.{Outcome, ok, reject_if, expect, ◌>>=◌, ◌>>◌}
use libvirtio.Dma.{DmaRange}
use libvirtio.Device.{DeviceLayout}

pub data BlockRequestType : Type 0 where
  input output flush : BlockRequestType
  unsupported : ℕ → BlockRequestType

pub record BlockRequest : Type 0 where
  pub request_type : BlockRequestType
  pub sector : ℕ
  pub payload : List DmaRange
  pub status : DmaRange

pub record BlockCompletion : Type 0 where
  pub status : ℕ
  pub used_length : ℕ

pub record BlockSpec : Type 0 where
  pub path : String
  pub capacity : ℕ
  pub queue_count : ℕ
  pub maximum_queue_size : ℕ
  pub read_only : Bool

pub record BlockConfig : Type 0 where
  pub capacity_sectors : ℕ
  pub read_only : Bool
  pub queue_count : ℕ

-- What `std::fs::metadata` tells of a path, as far as it is asked.
pub record Metadata : Type 0 where
  pub is_file : Bool
  pub length : ℕ

-- `BlockSpec::open`
unfoldable pub open_spec : (String → Outcome Metadata) → String → ℕ → ℕ → Outcome BlockSpec
open_spec metadata path queue_count maximum_queue_size = do
  found ← metadata path
  let capacity = found.length
  reject_if (not found.is_file || (capacity == 0 || not (capacity % 512 == 0)))
      (DeviceError.invalid_layout "block image must be a non-zero sector-aligned regular file")
  reject_if (queue_count == 0 || ltb (2 ^ 16 - 1) queue_count)
      (DeviceError.invalid_layout "invalid block queue count")
  ok (record {
    path = path;
    capacity = capacity;
    queue_count = queue_count;
    maximum_queue_size = maximum_queue_size;
    read_only = false;
  })

-- `BlockSpec::read_only`
unfoldable pub as_read_only : BlockSpec → BlockSpec
as_read_only spec = record spec { read_only = true }

-- `u16::try_from`
abbrev pub try_u16 : ℕ → Option ℕ
try_u16 n = if ltb n (2 ^ 16) then some n else none

-- `BlockSpec::config`
unfoldable pub config : BlockSpec → Outcome BlockConfig
config spec = do
  count ← expect (try_u16 spec.queue_count)
  ok (record {
    capacity_sectors = spec.capacity / 512;
    read_only = spec.read_only;
    queue_count = count;
  })

unfoldable pub layout : BlockSpec → DeviceLayout
layout spec = record {
  queue_count = spec.queue_count;
  maximum_queue_size = spec.maximum_queue_size;
  notifier_count = spec.queue_count;
  required_features = 2 ^ 32;
  optional_features = bit_or (2 ^ 9) (if ltb 1 spec.queue_count then 2 ^ 12 else 0);
}
