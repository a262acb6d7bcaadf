-- ===== src/Tests/Block.antt =====
-- Tests for block.rs: a request to read four bytes of the second sector of a disk of two sectors.
use libvirtio.Base.{
  ℕ, ◌+◌, ◌*◌, ◌-◌, ◌^◌, ◌%◌, ◌≤◌, ◌≡◌, refl, sym, ap, true, false, some, List, [], ◌∷◌, map, arith,
  length, range_from,
}
use libvirtio.Base.Bytes.{from_le_bytes}
use libvirtio.Outcome.{Outcome, ok}
use libvirtio.State.{continue_with}
use libvirtio.Dma.{translate, check_range}
use libvirtio.Lease.{Host, with_lease, read_slice, read_parts, write_slice, lease}
use libvirtio.Lease.Held.{with_lease_on, with_leases}
use libvirtio.Lease.Write.{poke}
use libvirtio.Layout.{validate, is_power_of_two}
use libvirtio.Buffers.Deposit.{take_all}
use libvirtio.Queue.{
  DescriptorChain, QueueState, new, pop, copy_from_lease, read_bytes, read_u16, parse_descriptor,
  read_descriptor, read_descriptors, read_chain,
}
use libvirtio.Device.{DeviceLayout, on_state, validate_resources, validate_queues}
use libvirtio.Block.{
  BlockRequestType, BlockRequest, BlockCompletion, BlockSpec, open_spec, as_read_only, config,
  layout,
}
use libvirtio.Block.File.{HostFile, IsFile, laid_at}
use libvirtio.Block.Request.{
  parse_request, copy_from_lease as copy_header, copy_parts, interpret_request, payload_ranges,
  check_access, descriptor_range, request_type_of,
}
use libvirtio.Block.Request.Frame.{ParsesBlock}
use libvirtio.Block.Request.Parse.{parse_request-ParsesBlock}
use libvirtio.Block.Execute.{
  Limits, execute, execute_blocking, perform, transfer, used_length, write_status, check_live,
  sum_leases, sum_parts, sum_used, buffers, read_into,
}
use libvirtio.Block.Execute.Contained.{laid_at_outside}
use libvirtio.Block.Execute.Complete.{Executes}
use libvirtio.Block.Execute.Serve.{execute-Executes}
use libvirtio.Block.Device.{BlockDevice, maximum_inflight, fill, scan, take_work}
use libvirtio.Block.Device.Saturate.{Saturates, fill-Saturates}
use libvirtio.Tests.Fixture.{
  memory, memory-IsDisjoint, memory-NoAlias, layout as ring_layout, counts,
}

-- A file that always serves calls as a whole.
abbrev file : HostFile (ℕ → ℕ)
file = record {
  clone_handle = λ f. (ok tt, f);
  sync_data = λ f. (some tt, f);
  preadv = λ n at f. (record { placed = map f (range_from at n); count = some n }, f);
  pwritev = λ bytes at f. (some (length bytes), laid_at at bytes f);
}

abbrev contents : (ℕ → ℕ) → ℕ → ℕ
contents f = f

some_eq : {a b : ℕ} → some a ≡ some b → b ≡ a
some_eq e = cc

file-IsFile : IsFile file contents
file-IsFile = record {
  clone_returns = λ f. tt;
  clone_keeps = λ f x. refl;
  sync_keeps = λ f x. refl;
  read_keeps = λ n at f x. refl;
  reads =
      λ n at k f e. (omega (arith, some_eq e), ap (λ m. map f (range_from at m)) (sym (some_eq e)));
  writes = λ bytes at k f e. (
    omega (arith, some_eq e),
    λ x. ap (λ bs. laid_at at bs f x) (sym (take_all k bytes (omega (arith, some_eq e)))),
  );
  writes_within = λ bytes at f x out. laid_at_outside at bytes f x out;
}

abbrev chain : DescriptorChain
chain = record {
  head = 0;
  descriptors =
      record { address = 0x1180; length = 16; flags = 1; next = 1 }
      ∷ record { address = 0x1100; length = 4; flags = 3; next = 2 }
      ∷ record { address = 0x1110; length = 1; flags = 2; next = 0 }
      ∷ [];
}

abbrev ram : ℕ → ℕ
ram =
    poke (λ _. 0)
      (0x7000 ∷ 0x7001 ∷ 0x7008 ∷ 0x700c ∷ 0x700e ∷ 0x7011 ∷ 0x7018 ∷ 0x701c ∷ 0x701e ∷ 0x7020
        ∷ 0x7021 ∷ 0x7028 ∷ 0x702c ∷ 0x7082 ∷ 0x7188 ∷ 0x7110 ∷ [])
      (128 ∷ 17 ∷ 16 ∷ 1 ∷ 1 ∷ 17 ∷ 4 ∷ 3 ∷ 2 ∷ 16 ∷ 17 ∷ 1 ∷ 2 ∷ 1 ∷ 1 ∷ 9 ∷ [])

abbrev host : Host
host = record { ram = ram; revoked = false; active = 0 }

abbrev request : BlockRequest
request = record {
  request_type = BlockRequestType.input;
  sector = 1;
  payload = record { gpa = 0x1100; length = 4 } ∷ [];
  status = record { gpa = 0x1110; length = 1 };
}

parses : parse_request memory chain host ≡ (ok request, host)
unfolding parse_request copy_header copy_parts interpret_request payload_ranges check_access
    descriptor_range request_type_of with_lease read_slice continue_with translate check_range
    from_le_bytes
parses = refl

parse_request-ParsesBlock_example : ParsesBlock memory chain host (parse_request memory chain host)
parse_request-ParsesBlock_example = parse_request-ParsesBlock memory chain host memory-IsDisjoint

-- The byte at each place is the place's number, less multiples of 256.
abbrev disk : ℕ → ℕ
disk x = x % 256

abbrev small_disk : Limits
small_disk = record { capacity = 1024; read_only = false; flush_supported = true }

abbrev served : Outcome BlockCompletion × (Host × (ℕ → ℕ))
unfolding execute
served = execute file small_disk false memory request (host, disk)

completes : served.0 ≡ ok (record { status = 0; used_length = 5 })
unfolding execute execute_blocking perform transfer used_length write_status check_live with_leases
    with_lease_on lease continue_with translate sum_leases sum_parts sum_used buffers read_into
    write_slice
completes = refl

reads :
    map served.1.0.ram (0x7100 ∷ 0x7101 ∷ 0x7102 ∷ 0x7103 ∷ 0x7104 ∷ 0x7110 ∷ [])
    ≡ 0 ∷ 1 ∷ 2 ∷ 3 ∷ 0 ∷ 0 ∷ []
unfolding execute execute_blocking perform transfer used_length write_status check_live with_leases
    with_lease_on lease continue_with translate sum_leases sum_parts sum_used buffers read_into
    write_slice
reads = refl

-- The last sector is the second.
abbrev beyond : BlockRequest
beyond = record request { sector = 2 }

refuses :
    (execute file small_disk false memory beyond (host, disk)).0
    ≡ ok (record { status = 1; used_length = 1 })
unfolding execute execute_blocking perform transfer used_length write_status check_live with_leases
    with_lease_on lease continue_with translate sum_leases sum_parts sum_used buffers read_into
    write_slice
refuses = refl

execute-Executes_example :
    Executes file contents memory small_disk request disk disk host
      (execute file small_disk false memory request (host, disk))
execute-Executes_example =
    execute-Executes file contents file-IsFile memory memory-IsDisjoint memory-NoAlias small_disk
      request disk host false

abbrev device : BlockDevice (ℕ → ℕ)
device = record {
  file = file;
  resources = record {
    queues = ring_layout ∷ [];
    dma = memory;
    interrupts = (λ _. ok tt) ∷ [];
    negotiated_features = 0x100000000;
  };
  read_only = false;
  capacity = 1024;
}

abbrev device_layout : DeviceLayout
device_layout = record {
  queue_count = 1;
  maximum_queue_size = 8;
  notifier_count = 1;
  required_features = 0x100000000;
  optional_features = 0x200;
}

abbrev spec : BlockSpec
spec = record {
  path = "disk.img";
  capacity = 1024;
  queue_count = 1;
  maximum_queue_size = 8;
  read_only = false;
}

opens : open_spec (λ _. ok (record { is_file = true; length = 1024 })) "disk.img" 1 8 ≡ ok spec
unfolding open_spec
opens = refl

configures :
    config (as_read_only spec)
    ≡ ok (record { capacity_sectors = 2; read_only = true; queue_count = 1 })
unfolding config as_read_only
configures = refl

lays_out : layout spec ≡ device_layout
unfolding layout
lays_out = refl

accepts : validate_resources device.resources device_layout ≡ ok tt
unfolding validate_resources validate_queues validate check_range translate is_power_of_two
accepts = refl

inflight : (maximum_inflight 0 ≡ 1) × (maximum_inflight 3 ≡ 12) × (maximum_inflight 20 ≡ 64)
unfolding maximum_inflight
inflight = (refl, refl, refl)

abbrev states : List QueueState
states = counts 0 0 ∷ []

-- The request is taken and pending.
takes :
    (fill (take_work device) 1 4 [] 0 ((host, disk), states)).0
    ≡ ok (record { queue_index = 0; chain = chain; request = request } ∷ [], 2)
unfolding fill scan take_work on_state new pop validate check_range is_power_of_two read_u16
    read_bytes with_lease copy_from_lease read_parts read_chain read_descriptors read_descriptor
    parse_descriptor parse_request copy_header copy_parts interpret_request payload_ranges
    check_access descriptor_range request_type_of read_slice continue_with translate from_le_bytes
takes = refl

small : 0 + 1 * (maximum_inflight 1 - 0) ≤ 2 ^ 64
unfolding maximum_inflight
small = omega arith

fill-Saturates_example :
    Saturates device 1 []
      (fill (take_work device) 1 (maximum_inflight 1 - 0) [] 0 ((host, disk), states))
fill-Saturates_example =
    fill-Saturates device device_layout memory-IsDisjoint accepts [] (omega arith) 0
      ((host, disk), states) (omega arith) refl small
