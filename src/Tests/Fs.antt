-- ===== src/Tests/Fs.antt =====
-- Tests for fs.rs: a root with one directory `a`, and a guest that asks for it.
use libvirtio.Base.{ℕ, ◌+◌, ◌≡◌, refl, true, false, some, List, [], ◌∷◌, ◌++◌, length, replicate}
use libvirtio.Base.Bytes.{to_le_bytes, from_le_bytes}
use libvirtio.Outcome.{ok}
use libvirtio.State.{continue_with}
use libvirtio.Dma.{DmaRange, translate, check_range}
use libvirtio.Lease.{Host, with_lease, write_slice, store}
use libvirtio.Fs.{Name, PathBuf}
use libvirtio.Fs.Inodes.{new_inodes, id_for_path}
use libvirtio.Fs.Inodes.Paths.{is_unsafe-IsSafeName}
use libvirtio.Fs.Inodes.Valid.{Keeps, new_inodes-IsTable}
use libvirtio.Fs.Reply.{Metadata, read_field, error_reply}
use libvirtio.Fs.Request.{Errno, parse_header, dispatch, fuse_errno, execute_request}
use libvirtio.Fs.Request.Names.{HostFs, lookup_name, lookup_reply}
use libvirtio.Fs.Request.Contained.{HasEntries, execute_request-Keeps}
use libvirtio.Fs.Device.{reply_capacity, copy_parts, copy_ranges, write_reply}
use libvirtio.Fs.Device.Reply.{WritesReply, write_reply-WritesReply}
use libvirtio.Tests.Fixture.{memory, memory-IsDisjoint, memory-NoAlias}

abbrev letter : Name
letter = 97 ∷ []

abbrev directory : Metadata
directory = record { is_symlink = false; is_directory = true; length = 64 }

abbrev disk : HostFs (Unit {0})
disk = record {
  symlink_metadata = λ path f. (ok directory, f);
  is_dir = λ path f. true;
  read_dir = λ path f. (ok (ok letter ∷ []), f);
  read_file = λ path offset size f. (ok [], f);
}

disk-HasEntries : HasEntries disk
disk-HasEntries path f = (is_unsafe-IsSafeName letter refl, tt)

abbrev errno : Errno
errno = record { einval = 22; enosys = 38; efault = 14; eio = 5 }

-- The header of 40 bytes, less the length: of opcode `o`, about the root.
abbrev asks : ℕ → List ℕ → List ℕ
asks o payload =
    to_le_bytes 4 (40 + length payload)
    ++ (to_le_bytes 4 o ++ (to_le_bytes 8 7 ++ (to_le_bytes 8 1 ++ (replicate 16 0 ++ payload))))

abbrev root : PathBuf
root = (104 ∷ []) ∷ []

-- The name is looked up, and has the next number.
looked_up :
    (execute_request disk errno root (asks 1 (97 ∷ 0 ∷ [])) (tt, new_inodes root)).1.1.by_id 2
    ≡ some ((104 ∷ []) ∷ (97 ∷ []) ∷ [])
unfolding execute_request parse_header dispatch read_field lookup_reply lookup_name id_for_path
    new_inodes continue_with to_le_bytes from_le_bytes
looked_up = refl

-- The way up is refused.
way_up :
    (execute_request disk errno root (asks 1 (46 ∷ 46 ∷ 0 ∷ [])) (tt, new_inodes root)).0
    ≡ ok (error_reply 7 22)
unfolding execute_request parse_header dispatch fuse_errno read_field lookup_reply lookup_name
    new_inodes continue_with to_le_bytes from_le_bytes
way_up = refl

execute_request-Keeps_example :
    Keeps root
      (new_inodes root)
      (execute_request disk errno root (asks 1 (97 ∷ 0 ∷ [])) (tt, new_inodes root)).1.1
execute_request-Keeps_example =
    execute_request-Keeps disk errno root (asks 1 (97 ∷ 0 ∷ [])) tt (new_inodes root)
      disk-HasEntries (new_inodes-IsTable root)

abbrev host : Host
host = record { ram = λ _. 0; revoked = false; active = 0 }

abbrev ranges : List DmaRange
ranges = record { gpa = 0x1180; length = 2 } ∷ record { gpa = 0x1190; length = 4 } ∷ []

written : (write_reply memory ranges (5 ∷ 6 ∷ 7 ∷ []) host).0 ≡ ok 3
unfolding write_reply reply_capacity copy_ranges copy_parts with_lease translate check_range
    write_slice continue_with store
written = refl

write_reply-WritesReply_example :
    WritesReply memory ranges
      (5 ∷ 6 ∷ 7 ∷ [])
      host
      (write_reply memory ranges (5 ∷ 6 ∷ 7 ∷ []) host)
write_reply-WritesReply_example =
    write_reply-WritesReply memory ranges (5 ∷ 6 ∷ 7 ∷ []) host memory-IsDisjoint memory-NoAlias
