-- ===== src/Tests/Network.antt =====
-- network.rs: a frame read from a chain and one written to it, and a control request.
use libvirtio.Base.{ℕ, ◌≡◌, ◌^◌, refl, false, [], ◌∷◌, none, arith}
use libvirtio.Base.Bytes.{from_le_bytes}
use libvirtio.Error.{DeviceError}
use libvirtio.Outcome.{ok, err}
use libvirtio.State.{continue_with}
use libvirtio.Dma.{translate}
use libvirtio.Lease.{Host, with_lease, read_parts, write_slice}
use libvirtio.Lease.Write.{poke}
use libvirtio.Layout.{is_power_of_two}
use libvirtio.Queue.{DescriptorChain}
use libvirtio.Buffers.{gather, capacity_from, scatter, scatter_parts}
use libvirtio.Network.Frame.{
  parse_frame, read_chain_range, read_tx_frame, write_chain, write_rx_frame,
}
use libvirtio.Network.Frame.Moved.{ReadsFrame, read_tx_frame-ReadsFrame}
use libvirtio.Network.Frame.Written.{WritesFrame, write_rx_frame-WritesFrame}
use libvirtio.Network.Device.{
  NetworkDevice, World, new_spec, activate_pairs, control_answer, handle_control,
  maximum_queue_pairs,
}
use libvirtio.Network.Device.Control.{IsActive, handle_control-IsActive}
use libvirtio.Tests.Fixture.{memory, memory-IsDisjoint, memory-NoAlias, layout, counts}

-- A frame of two bytes at 0x110c behind its header, and a control request for two pairs.
abbrev host : Host
host = record {
  ram = poke (λ _. 0) (0x710c ∷ 0x710d ∷ 0x7180 ∷ 0x7184 ∷ []) (5 ∷ 6 ∷ 4 ∷ 2 ∷ []);
  revoked = false;
  active = 0;
}

abbrev chain : DescriptorChain
chain = record {
  head = 0;
  descriptors = record { address = 0x1100; length = 14; flags = 0; next = 0 } ∷ [];
}

abbrev target : DescriptorChain
target = record {
  head = 0;
  descriptors = record { address = 0x1100; length = 32; flags = 2; next = 0 } ∷ [];
}

reads : read_tx_frame memory chain host ≡ (ok (5 ∷ 6 ∷ []), host)
unfolding read_tx_frame gather parse_frame with_lease read_parts continue_with translate
reads = refl

read_tx_frame-ReadsFrame_example : ReadsFrame memory chain host (read_tx_frame memory chain host)
read_tx_frame-ReadsFrame_example = read_tx_frame-ReadsFrame memory chain host memory-IsDisjoint

writes : (write_rx_frame memory target (7 ∷ 8 ∷ []) host).0 ≡ ok 14
unfolding write_rx_frame write_chain capacity_from scatter scatter_parts with_lease write_slice
    continue_with translate
writes = refl

write_rx_frame-WritesFrame_example :
    WritesFrame memory target (7 ∷ 8 ∷ []) host (write_rx_frame memory target (7 ∷ 8 ∷ []) host)
write_rx_frame-WritesFrame_example =
    write_rx_frame-WritesFrame memory target (7 ∷ 8 ∷ []) host memory-IsDisjoint memory-NoAlias

rejects_multicast :
    new_spec (1 ∷ 0 ∷ 0 ∷ 0 ∷ 0 ∷ 9 ∷ []) 1 8
    ≡ err (DeviceError.invalid_layout "invalid virtio-net MAC address")
unfolding new_spec is_power_of_two
rejects_multicast = refl

-- Two pairs, of which one is active; the driver asks for both.
abbrev device : NetworkDevice ℕ
device = record {
  resources = record {
    queues = layout ∷ layout ∷ layout ∷ layout ∷ layout ∷ [];
    dma = memory;
    interrupts = (λ _. ok tt) ∷ [];
    negotiated_features = 2 ^ 32;
  };
  backend = record {
    transmit = λ _ frames. (ok tt, frames);
    has_frame = λ _. false;
    take_frame = λ frames. (ok none, frames);
    shutdown = λ frames. frames;
  };
}

abbrev request : DescriptorChain
request = record {
  head = 0;
  descriptors =
      record { address = 0x1180; length = 2; flags = 1; next = 1 }
      ∷ record { address = 0x1184; length = 2; flags = 1; next = 2 }
      ∷ record { address = 0x1188; length = 1; flags = 2; next = 0 }
      ∷ [];
}

abbrev world : World ℕ
world = ((host, counts 0 0 ∷ []), (0, record { active_queue_pairs = 1; next_rx_pair = 0 }))

activates :
    handle_control device request world
    ≡ (ok 0, ((host, counts 0 0 ∷ []), (0, record { active_queue_pairs = 2; next_rx_pair = 0 })))
unfolding handle_control activate_pairs control_answer maximum_queue_pairs read_chain_range
    with_lease read_parts continue_with translate from_le_bytes
activates = refl

handle_control-IsActive_example : IsActive device (handle_control device request world).1
unfolding maximum_queue_pairs
handle_control-IsActive_example =
    handle_control-IsActive device request world (omega arith, omega arith)
