-- ===== src/Memory.antt =====
-- src/memory.rs: the virtio-mem device. Its configuration is in Memory/Config, its requests in
-- Memory/Request, the device in Memory/Device.
pub mod Config
pub mod Request
pub mod Device
