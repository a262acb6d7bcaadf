-- ===== src/Tests/Device.antt =====
-- device.rs and `QueueLayout::validate`
use libvirtio.Base.{◌≡◌, ◌↔◌, refl, [], ◌∷◌}
use libvirtio.Error.{DeviceError}
use libvirtio.Outcome.{ok, err}
use libvirtio.Dma.{translate, check_range}
use libvirtio.Layout.{is_power_of_two, validate}
use libvirtio.Layout.Valid.{IsValidLayout, validate_iff}
use libvirtio.Device.{DeviceLayout, DeviceResources, validate_queues, validate_resources}
use libvirtio.Device.Valid.{IsAccepted, validate_resources_iff}
use libvirtio.Tests.Fixture.{memory, memory-IsDisjoint, layout}

accepts_layout : validate layout memory ≡ ok tt
unfolding validate check_range translate is_power_of_two
accepts_layout = refl

rejects_size :
    validate (record layout { size = 6 }) memory
    ≡ err (DeviceError.invalid_queue 0 "size must be a non-zero power of two")
unfolding validate is_power_of_two
rejects_size = refl

abbrev device_layout : DeviceLayout
device_layout = record {
  queue_count = 1;
  maximum_queue_size = 8;
  notifier_count = 1;
  required_features = 0x100000000;
  optional_features = 0;
}

abbrev resources : DeviceResources
resources = record {
  queues = layout ∷ [];
  dma = memory;
  interrupts = (λ _. ok tt) ∷ [];
  negotiated_features = 0x100000001;
}

accepts_resources : validate_resources resources device_layout ≡ ok tt
unfolding validate_resources validate_queues validate check_range translate is_power_of_two
accepts_resources = refl

validate_iff_example : (validate layout memory ≡ ok tt) ↔ IsValidLayout memory layout
validate_iff_example = validate_iff memory layout memory-IsDisjoint

validate_resources_iff_example :
    (validate_resources resources device_layout ≡ ok tt) ↔ IsAccepted resources device_layout
validate_resources_iff_example = validate_resources_iff resources device_layout memory-IsDisjoint
