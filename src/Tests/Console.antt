-- ===== src/Tests/Console.antt =====
-- console.rs: the room of a chain.
use libvirtio.Base.{◌<◌, ◌≡◌, ◌↔◌, ◌^◌, refl, true, [], ◌∷◌, All, length}
use libvirtio.Error.{DeviceError}
use libvirtio.Outcome.{ok, err}
use libvirtio.Queue.{DescriptorChain}
use libvirtio.Transfer.{is_writable}
use libvirtio.Buffers.Gather.{addresses}
use libvirtio.Console.{writable_capacity, writable_capacity_from}
use libvirtio.Console.Capacity.{writable_capacity_iff}

abbrev chain : DescriptorChain
chain = record {
  head = 0;
  descriptors =
      record { address = 0x1100; length = 20; flags = 3; next = 1 }
      ∷ record { address = 0x1180; length = 12; flags = 2; next = 0 }
      ∷ [];
}

room : writable_capacity chain ≡ ok 32
unfolding writable_capacity writable_capacity_from
room = refl

refuses_readable :
    writable_capacity (record chain {
      descriptors = record { address = 0x1100; length = 20; flags = 0; next = 0 } ∷ [];
    })
    ≡ err (DeviceError.descriptor "console receive chain is readable")
unfolding writable_capacity writable_capacity_from
refuses_readable = refl

writable_capacity_iff_example : (writable_capacity chain ≡ ok 32) ↔ (
    All (λ d. is_writable d ≡ true) chain.descriptors
    × (32 ≡ length (addresses chain.descriptors))
    × (32 < 2 ^ 64))
writable_capacity_iff_example = writable_capacity_iff chain 32
