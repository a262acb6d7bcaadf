-- ===== src/Network.antt =====
-- src/network.rs: the virtio-net device. What is read from and written to its chains is in
-- Network/Frame and Network/Control, the device in Network/Device.
pub mod Frame
pub mod Device
