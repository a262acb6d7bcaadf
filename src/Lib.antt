-- ===== src/Lib.antt =====
-- A verification library for libvirtio, a library of virtio devices.
--
-- The crate is used by a monitor. The monitor gives a device a mapping of the guest's memory and
-- the layout of the device's virtqueues; the device reads the driver's requests from the queues,
-- serves them, and writes the answers and the used rings back into the guest's memory.
--
-- The parts, each with the file it models and its module here:
--   * src/dma.rs: Dma (DmaRange, DmaSegment, DmaMemory::new, translate, check_range) and Lease
--     (is_revoked, revoke, wait_for_drain, lease, drop_active, read_slice, write_slice).
--     DmaMemory's segments are sorted and checked as in the source; its shared lease state is the
--     record Host, beside the bytes at host addresses.
--     Race has the same operations, and wait_for_drain, as the atomic steps of tasks that run at
--     once.
--   * src/queue.rs: Layout (QueueLayout and validate) and Queue (QueueState, VirtQueue, pop,
--     complete, read_chain, read_descriptor, read_u16, read_bytes, write_bytes, copy_from_lease).
--   * src/device.rs, src/interrupt.rs: Device (DeviceResources::validate, closes_host_backend).
--   * src/memory.rs: Memory.Config (MemoryConfig, MemoryConfigState, ConfigView::read),
--     Memory.Request (parse_request, write_response) and Memory.Device (MemorySpec, MemoryDevice:
--     activate, process_request, run, stop). Transfer has its loops between leases and arrays.
--   * src/vsock.rs: Vsock.Header and Vsock.Packet (VsockHeader, VsockPacket, read_packet,
--     write_packet) and Vsock.Device (VsockSpec, VsockDevice: process_tx, process_rx,
--     process_event, run, kick, stop). Buffers has its loops over the descriptors of a chain.
--   * src/network.rs: Network.Frame (read_tx_frame, write_rx_frame, write_control_status) and
--     Network.Device (NetworkSpec, NetworkDevice: process_tx, process_rx, process_control,
--     handle_control, run, kick, stop).
--   * src/console.rs: Console (ConsoleSpec, ConsoleDevice: process_transmit, process_receive,
--     writable_capacity, read_chain, write_chain, run, stop).
--   * src/rng.rs: Rng (RngSpec, RngDevice: fill_chain, process_queue, run, stop).
--   * src/block.rs: Block (BlockSpec, its configuration), Block.Request (parse_request),
--     Block.File (the calls on the file), Block.Execute (execute, execute_blocking, write_status;
--     Block.Execute.Effect is what a request is to do, with no leases or buffers) and Block.Device
--     (BlockDevice, take_work, execute_work, complete_work, run, stop).
--   * src/fs.rs: Fs (FsSpec, its configuration), Fs.Inodes (FsInodes), Fs.Reply (the bytes of the
--     replies), Fs.Request (FuseInHeader, execute_request, with the requests for names in
--     Fs.Request.Names and for contents in Fs.Request.Entries) and Fs.Device (FsDevice,
--     parse_chain, write_reply, take_work, execute_work, complete_work, run, stop). A path is the
--     list of the names below the root of the host.
--   * src/error.rs: Error.
-- Base holds what they share: tests on numbers, lists, bytes in little-endian order. Outcome is a
-- result with the panics of the source and a value for a loop that runs on; State passes a state
-- along such results. Tests holds runs on small inputs.
--
-- Numbers are natural numbers. Where the source adds with a check or with wrap-around, so does the
-- model; addresses added with `+` wrap at 2 ^ 64, as in a release build. The loop of `translate`
-- runs on the length of the range as fuel, that of `read_chain` on the size of the queue, which is
-- its bound in the source.
--
-- The loops that serve a queue for as long as the driver adds to it (`process_requests`,
-- `process_tx`, `process_rx`, `process_event`, `process_control`,
-- and the two of the console) run on a number of rounds, for which a driver gives no bound; the
-- theorems are about their rounds.
--
-- A lease is a bracket round the block that holds it. The operations of a device are the only
-- ones to run between two of its steps, except in Race and in wait_for_drain: elsewhere the
-- guest's and the monitor's steps are not modelled. wait_for_drain, which the rounds of run end
-- with, is told what the other tasks do to the host before each wake-up, as a list of functions. Two mapped guest addresses are at two host addresses where a
-- theorem says NoAlias.
--
-- Backends and notifiers belong to the monitor. They are parameters, functions on a state of their
-- own; a theorem that needs them to return says so.
--
-- A panic of the blocking task that executes a FUSE request is an error of the worker, as it is
-- for the runtime; the text of that error is not the runtime's.
pub mod Base
pub mod Error
pub mod Outcome
pub mod State
pub mod Dma
pub mod Lease
pub mod Race
pub mod Layout
pub mod Queue
pub mod Device
pub mod Transfer
pub mod Buffers
pub mod Memory
pub mod Vsock
pub mod Network
pub mod Console
pub mod Rng
pub mod Block
pub mod Fs
pub mod Tests
