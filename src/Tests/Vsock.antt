-- ===== src/Tests/Vsock.antt =====
-- vsock.rs: a driver sends three bytes, and a packet is written to a chain.
use libvirtio.Base.{ℕ, ◌≡◌, refl, true, false, List, [], ◌∷◌, none, arith, inl}
use libvirtio.Base.Bytes.{to_le_bytes, from_le_bytes}
use libvirtio.Error.{DeviceError}
use libvirtio.Outcome.{ok, err}
use libvirtio.State.{continue_with}
use libvirtio.Dma.{translate, check_range}
use libvirtio.Lease.{Host, with_lease, read_parts, write_parts, write_slice}
use libvirtio.Lease.Write.{poke}
use libvirtio.Layout.{is_power_of_two, validate}
use libvirtio.Queue.{
  DescriptorChain, QueueState, VirtQueue, new, pop, complete, read_u16, read_bytes, copy_from_lease,
  read_chain, read_descriptors, read_descriptor, parse_descriptor, write_bytes,
}
use libvirtio.Device.{
  DeviceLayout, queue_at, notify, on_state, pop_at, complete_at, validate_queues,
  validate_resources,
}
use libvirtio.Buffers.{gather, capacity_from, scatter, scatter_parts}
use libvirtio.Buffers.Scatter.{Scatters, scatter-Scatters}
use libvirtio.Vsock.Header.{
  VsockHeader, header_of, decode_header, encode_header, IsTypedHeader, decode_header-encode_header,
}
use libvirtio.Vsock.Packet.{
  VsockPacket, validate_packet, parse_packet, read_packet, packet_bytes, check_room, write_packet,
}
use libvirtio.Vsock.Packet.Read.{
  IsValidPacket, ReadsPacket, read_packet-ReadsPacket, parse_packet-packet_bytes,
}
use libvirtio.Vsock.Packet.Write.{WritesPacket, write_packet-WritesPacket}
use libvirtio.Vsock.Device.{VsockDevice, validate_packet_type, is_supported, notify_queue, tx_round}
use libvirtio.Vsock.Device.Send.{Sends, tx_round-Sends}
use libvirtio.Tests.Fixture.{memory, memory-IsDisjoint, memory-NoAlias, layout, counts}

abbrev header : VsockHeader
header = record {
  source_cid = 0;
  destination_cid = 0;
  source_port = 0;
  destination_port = 0;
  length = 3;
  packet_type = 1;
  operation = 5;
  flags = 0;
  buffer_allocation = 0;
  forward_count = 0;
}

abbrev packet : VsockPacket
packet = record { header = header; payload = 7 ∷ 8 ∷ 9 ∷ [] }

header-IsTypedHeader : IsTypedHeader header
header-IsTypedHeader = record {
  source_cid = omega arith;
  destination_cid = omega arith;
  source_port = omega arith;
  destination_port = omega arith;
  length = omega arith;
  packet_type = omega arith;
  operation = omega arith;
  flags = omega arith;
  buffer_allocation = omega arith;
  forward_count = omega arith;
}

packet-IsValidPacket : IsValidPacket packet
packet-IsValidPacket = record { known = inl refl; length = refl; small = omega arith }

decode_header-encode_header_example : decode_header (encode_header header) ≡ ok header
decode_header-encode_header_example = decode_header-encode_header header header-IsTypedHeader

parse_packet-packet_bytes_example :
    (bytes : List ℕ) × (packet_bytes packet ≡ ok bytes) × (parse_packet bytes ≡ ok packet)
parse_packet-packet_bytes_example =
    parse_packet-packet_bytes packet header-IsTypedHeader packet-IsValidPacket

-- The packet at 0x1100, in a chain of one descriptor at head 0, made available.
abbrev host : Host
host = record {
  ram =
      poke (λ _. 0)
        (0x7001 ∷ 0x7008 ∷ 0x7082 ∷ 0x7118 ∷ 0x711c ∷ 0x711e ∷ 0x712c ∷ 0x712d ∷ 0x712e ∷ [])
        (0x11 ∷ 47 ∷ 1 ∷ 3 ∷ 1 ∷ 5 ∷ 7 ∷ 8 ∷ 9 ∷ []);
  revoked = false;
  active = 0;
}

abbrev chain : DescriptorChain
chain = record {
  head = 0;
  descriptors = record { address = 0x1100; length = 47; flags = 0; next = 0 } ∷ [];
}

abbrev target : DescriptorChain
target = record {
  head = 1;
  descriptors =
      record { address = 0x1180; length = 2; flags = 3; next = 2 }
      ∷ record { address = 0x1190; length = 8; flags = 2; next = 0 }
      ∷ [];
}

reads : read_packet memory chain host ≡ (ok packet, host)
unfolding read_packet gather parse_packet decode_header header_of validate_packet with_lease
    read_parts continue_with translate from_le_bytes
reads = refl

read_packet-ReadsPacket_example : ReadsPacket memory chain host (read_packet memory chain host)
read_packet-ReadsPacket_example = read_packet-ReadsPacket memory chain memory-IsDisjoint host

writes : (write_packet memory target (1 ∷ 2 ∷ 3 ∷ []) host).0 ≡ ok tt
unfolding write_packet check_room capacity_from scatter scatter_parts with_lease continue_with
    translate write_slice
writes = refl

too_short :
    (write_packet memory target (1 ∷ 2 ∷ 3 ∷ 4 ∷ 5 ∷ 6 ∷ 7 ∷ 8 ∷ 9 ∷ 10 ∷ 11 ∷ []) host).0
    ≡ err (DeviceError.descriptor "virtio-vsock RX chain is too short")
unfolding write_packet check_room capacity_from continue_with
too_short = refl

write_packet-WritesPacket_example :
    WritesPacket memory target
      (1 ∷ 2 ∷ 3 ∷ [])
      host
      (write_packet memory target (1 ∷ 2 ∷ 3 ∷ []) host)
write_packet-WritesPacket_example =
    write_packet-WritesPacket memory target (1 ∷ 2 ∷ 3 ∷ []) host memory-IsDisjoint memory-NoAlias

scatter-Scatters_example :
    Scatters memory
      (1 ∷ 2 ∷ 3 ∷ [])
      1
      target.descriptors
      host
      (scatter memory (1 ∷ 2 ∷ 3 ∷ []) 1 target.descriptors host)
scatter-Scatters_example =
    scatter-Scatters memory memory-IsDisjoint memory-NoAlias (1 ∷ 2 ∷ 3 ∷ []) 1 target.descriptors
      host (omega arith)

-- A backend that keeps the packets it is given.
abbrev device : VsockDevice (List VsockPacket)
device = record {
  resources = record {
    queues = layout ∷ layout ∷ layout ∷ [];
    dma = memory;
    interrupts = (λ _. ok tt) ∷ (λ _. ok tt) ∷ (λ _. ok tt) ∷ (λ _. ok tt) ∷ [];
    negotiated_features = 0x100000001;
  };
  backend = record {
    receive_packet = λ p ps. (ok tt, p ∷ ps);
    has_packet = λ _. false;
    take_packet = λ ps. (ok none, ps);
    shutdown = λ ps. ps;
  };
  stream_supported = true;
  seqpacket_supported = false;
}

abbrev device_layout : DeviceLayout
device_layout = record {
  queue_count = 3;
  maximum_queue_size = 8;
  notifier_count = 4;
  required_features = 0x100000000;
  optional_features = 3;
}

abbrev states : List QueueState
states = counts 0 0 ∷ counts 0 0 ∷ counts 0 0 ∷ []

accepts : validate_resources device.resources device_layout ≡ ok tt
unfolding validate_resources validate_queues validate check_range translate is_power_of_two
accepts = refl

rejects_seqpacket :
    validate_packet_type device (record packet { header = record header { packet_type = 2 } })
    ≡ err (DeviceError.descriptor "virtio-vsock packet type was not negotiated")
unfolding validate_packet_type is_supported
rejects_seqpacket = refl

sends : (tx_round device ((host, states), [])).1.1 ≡ packet ∷ []
unfolding tx_round queue_at pop_at complete_at on_state new notify notify_queue validate check_range
    is_power_of_two pop complete read_u16 read_bytes write_bytes with_lease copy_from_lease
    read_parts write_parts read_chain read_descriptors read_descriptor parse_descriptor read_packet
    gather parse_packet decode_header header_of validate_packet validate_packet_type is_supported
    continue_with translate from_le_bytes to_le_bytes
sends = refl

tx_round-Sends_example :
    (queue : VirtQueue) × (queue_at device.resources 1 ≡ ok queue)
    × Sends device queue host states (counts 0 0) [] (tx_round device ((host, states), []))
tx_round-Sends_example =
    tx_round-Sends device device_layout host states (counts 0 0) [] memory-IsDisjoint memory-NoAlias
      accepts (omega arith) (omega arith) refl (λ _ _. tt)
      ((λ _. tt), ((λ _. tt), ((λ _. tt), ((λ _. tt), tt))))
