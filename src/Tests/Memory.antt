-- ===== src/Tests/Memory.antt =====
-- memory.rs: a driver asks for the state of two blocks.
use libvirtio.Base.{ℕ, ◌+◌, ◌-◌, ◌≡◌, ◌↔◌, refl, true, false, [], ◌∷◌, arith}
use libvirtio.Base.Bytes.{to_le_bytes, from_le_bytes}
use libvirtio.Error.{DeviceError, DeviceDownReason}
use libvirtio.Outcome.{ok, err, hang}
use libvirtio.State.{continue_with}
use libvirtio.Dma.{DmaMemory, translate, check_range}
use libvirtio.Lease.{Host, is_down, wait_for_drain, with_lease, read_parts, write_parts}
use libvirtio.Lease.Write.{poke}
use libvirtio.Layout.{is_power_of_two, validate}
use libvirtio.Queue.{
  DescriptorChain, QueueState, VirtQueue, new, pop, complete, read_u16, read_bytes, copy_from_lease,
  read_chain, read_descriptors, read_descriptor, parse_descriptor, write_bytes,
}
use libvirtio.Queue.Access.{Holds}
use libvirtio.Device.{
  DeviceLayout, closes_host_backend, queue_at, notify, validate_queues, validate_resources,
}
use libvirtio.Transfer.{fill_array, read_array, write_array}
use libvirtio.Memory.Config.{
  subscribe, MemoryConfig, MemoryConfigState, validate_config, encode_config, new_config_state,
  update_config, read_config,
}
use libvirtio.Memory.Config.Valid.{
  IsValidConfig, validate_config_iff, Updates, update_config-Updates, Reachable,
  Reachable-IsValidConfig,
}
use libvirtio.Memory.Config.Encoded.{
  IsTyped, decode_config, decode_config-encode_config, ReadsConfig, read_config-ReadsConfig,
}
use libvirtio.Memory.Request.{
  MemoryRequest, MemoryResponse, interpret_request, parse_request, response_bytes, response_type,
  write_response,
}
use libvirtio.Memory.Request.Wire.{
  IsRequestChain, wire, encode_request, parse_request-encode_request,
}
use libvirtio.Memory.Request.Parse.{Parses, parse_request-Parses, Responds, write_response-Responds}
use libvirtio.Memory.Device.{MemoryDevice, process_request, run_round, stop}
use libvirtio.Memory.Device.Serve.{Serves, process_request-Serves}
use libvirtio.Memory.Device.Stop.{stopped, EndsDrained, stop-stopped}
use libvirtio.Tests.Fixture.{memory, memory-IsDisjoint, memory-NoAlias, layout, counts}

-- The configuration of the tests in the source.
abbrev config : MemoryConfig
config = record {
  block_size = 4096;
  node_id = 0;
  addr = 0;
  region_size = 4096;
  usable_region_size = 4096;
  plugged_size = 0;
  requested_size = 0;
}

abbrev requested : MemoryConfig
requested = record config { requested_size = 4096 }

abbrev created : MemoryConfigState
created = record { config = config; updates = 0; receivers = 0 }

abbrev watched : MemoryConfigState
watched = record created { receivers = 1 }

accepts_config : validate_config config ≡ ok config
unfolding validate_config is_power_of_two
accepts_config = refl

subscribes : subscribe created ≡ (ok tt, watched)
unfolding subscribe
subscribes = refl

advances :
    update_config requested watched
    ≡ (ok tt, record { config = requested; updates = 1; receivers = 1 })
unfolding update_config validate_config is_power_of_two continue_with
advances = refl

-- With no receiver the count stays.
unwatched :
    update_config requested created
    ≡ (ok tt, record { config = requested; updates = 0; receivers = 0 })
unfolding update_config validate_config is_power_of_two continue_with
unwatched = refl

refuses :
    update_config (record config { requested_size = 8192 }) created
    ≡ (err (DeviceError.invalid_layout "invalid virtio-mem region sizes"), created)
unfolding update_config validate_config is_power_of_two continue_with
refuses = refl

validate_config_iff_example : (validate_config config ≡ ok config) ↔ IsValidConfig config
validate_config_iff_example = validate_config_iff config

update_config-Updates_example : Updates requested watched (update_config requested watched)
update_config-Updates_example = update_config-Updates requested watched

creates : new_config_state config ≡ ok created
unfolding new_config_state validate_config is_power_of_two
creates = refl

Reachable-IsValidConfig_example : IsValidConfig (update_config requested created).1.config
Reachable-IsValidConfig_example =
    Reachable-IsValidConfig (Reachable.updated requested (Reachable.created config creates))

requested-IsTyped : IsTyped requested
requested-IsTyped = record {
  block_size = omega arith;
  node_id = omega arith;
  addr = omega arith;
  region_size = omega arith;
  usable_region_size = omega arith;
  plugged_size = omega arith;
  requested_size = omega arith;
}

decode_config-encode_config_example : decode_config (encode_config requested) ≡ requested
decode_config-encode_config_example = decode_config-encode_config requested requested-IsTyped

read_config-ReadsConfig_example : ReadsConfig created 48 8 (read_config created 48 8)
read_config-ReadsConfig_example = read_config-ReadsConfig created 48 8

-- A request at 0x1180, a response at 0x11a0, and the chain of the two at head 0.
abbrev request : MemoryRequest
request = MemoryRequest.state 0x4000 2

abbrev chain : DescriptorChain
chain = record {
  head = 0;
  descriptors =
      record { address = 0x1180; length = 24; flags = 1; next = 1 }
      ∷ record { address = 0x11a0; length = 10; flags = 2; next = 0 }
      ∷ [];
}

abbrev chain_shape : IsRequestChain chain
chain_shape = record {
  request = record { address = 0x1180; length = 24; flags = 1; next = 1 };
  response = record { address = 0x11a0; length = 10; flags = 2; next = 0 };
  both = refl;
  request_readable = refl;
  request_length = refl;
  response_writable = refl;
  response_length = refl;
}

abbrev ram : ℕ → ℕ
ram =
    poke (λ _. 0)
      (0x7001 ∷ 0x7000 ∷ 0x7008 ∷ 0x700c ∷ 0x700e ∷ 0x7010 ∷ 0x7011 ∷ 0x7018 ∷ 0x701c ∷ 0x7082
        ∷ 0x7180 ∷ 0x7189 ∷ 0x7190 ∷ [])
      (0x11 ∷ 0x80 ∷ 24 ∷ 1 ∷ 1 ∷ 0xa0 ∷ 0x11 ∷ 10 ∷ 2 ∷ 1 ∷ 3 ∷ 0x40 ∷ 2 ∷ [])

abbrev host : Host
host = record { ram = ram; revoked = false; active = 0 }

request-Holds : Holds memory host 0x1180 (encode_request request)
unfolding encode_request wire to_le_bytes libvirtio.Lease.Read.guest_byte
    libvirtio.Dma.Translate.host_address
request-Holds = (omega arith, refl)

parse_request-encode_request_example : parse_request memory chain host ≡ (ok request, host)
parse_request-encode_request_example =
    parse_request-encode_request memory chain chain_shape request host memory-IsDisjoint refl
      (omega arith, omega arith) request-Holds

parse_request-Parses_example : Parses memory chain host (parse_request memory chain host)
parse_request-Parses_example = parse_request-Parses memory chain host memory-IsDisjoint

write_response-Responds_example :
    Responds memory 0x11a0
      (MemoryResponse.state 1)
      host
      (write_response memory chain (MemoryResponse.state 1) host)
write_response-Responds_example =
    write_response-Responds memory chain chain_shape (MemoryResponse.state 1) host memory-IsDisjoint
      memory-NoAlias (omega arith)

-- A backend that counts its calls.
abbrev device : MemoryDevice ℕ
device = record {
  resources = record {
    queues = layout ∷ [];
    dma = memory;
    interrupts = (λ _. ok tt) ∷ (λ _. ok tt) ∷ [];
    negotiated_features = 0x100000000;
  };
  backend = record {
    config_state = created;
    handle = λ _ calls. (ok (MemoryResponse.state 1), calls + 1);
    shutdown = λ calls. calls;
  };
}

abbrev device_layout : DeviceLayout
device_layout = record {
  queue_count = 1;
  maximum_queue_size = 8;
  notifier_count = 2;
  required_features = 0x100000000;
  optional_features = 2;
}

accepts : validate_resources device.resources device_layout ≡ ok tt
unfolding validate_resources validate_queues validate check_range translate is_power_of_two
accepts = refl

serves : (process_request device ((host, counts 0 0), 0)).0 ≡ ok true
unfolding process_request queue_at new notify validate check_range is_power_of_two pop complete
    read_u16 read_bytes write_bytes with_lease copy_from_lease read_parts write_parts read_chain
    read_descriptors read_descriptor parse_descriptor parse_request interpret_request write_response
    response_bytes response_type read_array write_array fill_array continue_with translate
    from_le_bytes to_le_bytes
serves = refl

process_request-Serves_example :
    (queue : VirtQueue) × (queue_at device.resources 0 ≡ ok queue)
    × Serves device queue host (counts 0 0) 0 (process_request device ((host, counts 0 0), 0))
process_request-Serves_example =
    process_request-Serves device device_layout host (counts 0 0) 0 memory-IsDisjoint memory-NoAlias
      accepts (omega arith) (omega arith) (λ _ _. tt) ((λ _. tt), ((λ _. tt), tt))

-- Another task holds a lease, and drops it.
abbrev leased : (Host × QueueState) × ℕ
leased = ((record host { active = 1 }, counts 0 0), 0)

abbrev release_one : Host → Host
release_one h = record h { active = h.active - 1 }

waits_on : (run_round 8 [] device (stop device DeviceDownReason.reset (leased, false)).1).0 ≡ hang
unfolding run_round stop wait_for_drain continue_with closes_host_backend
waits_on = refl

returns_drained :
    (run_round 8 (release_one ∷ []) device (stop device DeviceDownReason.reset (leased, false)).1).0
    ≡ ok true
unfolding run_round stop wait_for_drain continue_with closes_host_backend
returns_drained = refl

stop-stopped_example :
    (stop device DeviceDownReason.reset (leased, false)
      ≡ (ok tt, (stopped device DeviceDownReason.reset leased, true)))
    × EndsDrained device
        (release_one ∷ [])
        (stopped device DeviceDownReason.reset leased)
        (run_round 8 (release_one ∷ []) device (stopped device DeviceDownReason.reset leased, true))
    × (process_request device (stopped device DeviceDownReason.reset leased)
        ≡ (err is_down, stopped device DeviceDownReason.reset leased))
stop-stopped_example =
    stop-stopped device device_layout memory-IsDisjoint accepts (omega arith) DeviceDownReason.reset
      leased false 8 (release_one ∷ [])
