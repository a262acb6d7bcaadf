-- ===== src/Vsock.antt =====
-- src/vsock.rs: the virtio-vsock device. Its packets are in Vsock/Packet, with their headers in
-- Vsock/Header; the device is in Vsock/Device.
pub mod Header
pub mod Packet
pub mod Device
