-- ===== src/Tests/Rng.antt =====
-- Tests for rng.rs: a chain of two writable descriptors, filled with the bytes 100, 101, ….
use libvirtio.Base.{ℕ, ◌+◌, ◌≡◌, refl, Bool, true, false, [], ◌∷◌, map, arith}
use libvirtio.Outcome.{Outcome, ok}
use libvirtio.State.{continue_with}
use libvirtio.Dma.{translate, check_range}
use libvirtio.Lease.{Host, with_lease, read_parts, write_parts}
use libvirtio.Lease.Held.{with_lease_on}
use libvirtio.Lease.Write.{poke}
use libvirtio.Base.Bytes.{to_le_bytes, from_le_bytes}
use libvirtio.Layout.{validate, is_power_of_two}
use libvirtio.Queue.{
  VirtQueue, QueueState, new, pop, complete, copy_from_lease, read_bytes, write_bytes, read_u16,
  parse_descriptor, read_descriptor, read_descriptors, read_chain,
}
use libvirtio.Device.{DeviceLayout, queue_at, notify, validate_resources, validate_queues}
use libvirtio.Rng.{
  RngDevice, new_spec, layout, process_queue, fill_parts, fill_descriptors, fill_chain,
}
use libvirtio.Rng.Serve.{Serves, process_queue-Serves}
use libvirtio.Tests.Fixture.{
  memory, memory-IsDisjoint, memory-NoAlias, layout as ring_layout, counts,
}

abbrev ram : ℕ → ℕ
ram =
    poke (λ _. 0)
      (0x7000 ∷ 0x7001 ∷ 0x7008 ∷ 0x700c ∷ 0x700e ∷ 0x7010 ∷ 0x7011 ∷ 0x7018 ∷ 0x701c ∷ 0x7082 ∷ [])
      (0x80 ∷ 0x11 ∷ 4 ∷ 3 ∷ 1 ∷ 0x90 ∷ 0x11 ∷ 2 ∷ 2 ∷ 1 ∷ [])

abbrev host : Host
host = record { ram = ram; revoked = false; active = 0 }

abbrev entropy : ℕ → ℕ
entropy n = 100 + n

abbrev device : RngDevice
device = record {
  resources = record {
    queues = ring_layout ∷ [];
    dma = memory;
    interrupts = (λ _. ok tt) ∷ [];
    negotiated_features = 0x100000000;
  };
}

abbrev device_layout : DeviceLayout
device_layout = record {
  queue_count = 1;
  maximum_queue_size = 8;
  notifier_count = 1;
  required_features = 0x100000000;
  optional_features = 0;
}

accepts_size : new_spec 128 ≡ ok (record { maximum_queue_size = 128 })
unfolding new_spec is_power_of_two
accepts_size = refl

rejects_size : (new_spec 96 ≡ ok (record { maximum_queue_size = 96 })) → ⊥
unfolding new_spec is_power_of_two
rejects_size e = cc

requires_version : layout (record { maximum_queue_size = 8 }) ≡ device_layout
unfolding layout
requires_version = refl

accepts : validate_resources device.resources device_layout ≡ ok tt
unfolding validate_resources validate_queues validate check_range translate is_power_of_two
accepts = refl

abbrev end : Outcome Bool × ((Host × ℕ) × QueueState)
unfolding process_queue
end = process_queue entropy device ((host, 3), counts 0 0)

-- The outcome and the bytes drawn, and the bytes filled and the length used.
serves : (end.0 ≡ ok true) × (end.1.0.1 ≡ 9)
unfolding process_queue queue_at new notify validate check_range is_power_of_two pop complete
    read_u16 read_bytes write_bytes with_lease with_lease_on copy_from_lease read_parts read_chain
    read_descriptors read_descriptor parse_descriptor fill_chain fill_descriptors fill_parts
    continue_with translate from_le_bytes to_le_bytes write_parts
serves = (refl, refl)

fills :
    map end.1.0.0.ram (0x7180 ∷ 0x7181 ∷ 0x7182 ∷ 0x7183 ∷ 0x7184 ∷ 0x7190 ∷ 0x7191 ∷ 0x70a8 ∷ [])
    ≡ 103 ∷ 104 ∷ 105 ∷ 106 ∷ 0 ∷ 107 ∷ 108 ∷ 6 ∷ []
unfolding process_queue queue_at new notify validate check_range is_power_of_two pop complete
    read_u16 read_bytes write_bytes with_lease with_lease_on copy_from_lease read_parts read_chain
    read_descriptors read_descriptor parse_descriptor fill_chain fill_descriptors fill_parts
    continue_with translate from_le_bytes to_le_bytes write_parts
fills = refl

process_queue-Serves_example :
    (queue : VirtQueue) × (queue_at device.resources 0 ≡ ok queue)
    × Serves entropy device queue host 3
        (counts 0 0)
        (process_queue entropy device ((host, 3), counts 0 0))
process_queue-Serves_example =
    process_queue-Serves entropy device device_layout host 3 (counts 0 0) memory-IsDisjoint
      memory-NoAlias accepts (omega arith) (omega arith) ((λ _. tt), tt)
