-- ===== src/Tests.antt =====
-- Runs of the model on small inputs, most of them those of the tests in the sources, and the
-- theorems at such inputs.
mod Fixture
mod Dma
mod Queue
mod Device
mod Memory
mod Vsock
mod Race
mod Network
mod Console
mod Fs
mod Rng
mod Block
