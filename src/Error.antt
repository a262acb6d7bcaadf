-- ===== src/Error.antt =====
-- src/error.rs: why a device is down, and the errors that its operations return.
-- An `io::Error` is the operating system's error number, where it has one.
use libvirtio.Base.{ℕ, String, Option}

pub data DeviceDownReason : Type 0 where
  stop reset revoked surprise_removal : DeviceDownReason

pub data DeviceError : Type 0 where
  down : DeviceDownReason → DeviceError
  invalid_layout : String → DeviceError
  invalid_queue : ℕ → String → DeviceError
  dma_range : ℕ → ℕ → DeviceError
  dma_alignment : ℕ → DeviceError
  descriptor : String → DeviceError
  io : Option ℕ → DeviceError
  worker : String → DeviceError
