-- ===== src/Fs/Request/Contained.antt =====
-- No request leads out of the root: what `execute_request` of src/fs.rs does to the inode table.
use libvirtio.Base.{
  ℕ, ◌+◌, ◌≡◌, inl, inr, ap, subst, ◌∙◌, Bool-cases, ◌||◌, not, Option, none, some, Option-cases,
  List, [], ◌∷◌, ◌++◌, All, length, ltb, ◌==◌, drop,
}
use mathlib.Core.List.{append_assoc}
use libvirtio.Error.{DeviceError}
use libvirtio.Outcome.{Outcome, ok, err, panic, hang, reject_if, ok_or}
use libvirtio.State.{
  M, on_host, on_rest, continue_with, continue_with-keeps, continue_with-preserves, if-keeps,
}
use libvirtio.Fs.{Name, PathBuf}
use libvirtio.Fs.Inodes.{FsInodes, id_for_path}
use libvirtio.Fs.Inodes.Paths.{IsUnder, IsSafeName, is_unsafe-IsSafeName}
use libvirtio.Fs.Inodes.Valid.{IsTable, Keeps, id_for_path-Keeps}
use libvirtio.Fs.Reply.{Metadata, read_u32, read_u64, dirent}
use libvirtio.Fs.Request.{
  Errno, FuseInHeader, parse_header, dispatch, has, silent, supported, execute_request,
}
use libvirtio.Fs.Request.Names.{
  HostFs, is_utf8, is_unsafe, strip_nul, lookup_name, path_of, lookup_reply, getattr_reply,
  open_reply,
}
use libvirtio.Fs.Request.Entries.{read_reply, read_entries, readdir_reply, is_over}

-- What the operating system says of the entries of a directory: none is `.` or `..`, and a name
-- has no slash.
abbrev pub IsEntry : Outcome Name → Type 0
IsEntry (ok name) = IsSafeName name
IsEntry (err e) = Unit {0}
IsEntry panic = Unit {0}
IsEntry hang = Unit {0}

abbrev pub AreEntries : Outcome (List (Outcome Name)) → Type 0
AreEntries (ok names) = All IsEntry names
AreEntries (err e) = Unit {0}
AreEntries panic = Unit {0}
AreEntries hang = Unit {0}

abbrev pub HasEntries : {F : Type 0} → HostFs F → Type 0
HasEntries {F} host = (path : PathBuf) (f : F) → AreEntries (host.read_dir path f).0

All-append :
    {A : Type 0} (P : A → Type 0) (xs : List A) {y : A} → All P xs → P y → All P (xs ++ (y ∷ []))
All-append P [] h k = (k, tt)
All-append P (x ∷ xs) (h, hs) k = (h, All-append P xs hs k)

-- A safe name leads further down.
join-IsUnder :
    (root path : PathBuf) (name : Name)
    → IsUnder root path
    → IsSafeName name
    → IsUnder root (path ++ (name ∷ []))
join-IsUnder root path name (rest, e, safe) h = (
  rest ++ (name ∷ []),
  ap (λ p. p ++ (name ∷ [])) e ∙ append_assoc root rest (name ∷ []),
  All-append IsSafeName rest safe h,
)

ok_or-some : {A : Type 0} (o : Option A) (e : DeviceError) {a : A} → ok_or o e ≡ ok a → o ≡ some a
ok_or-some none e h = cc h
ok_or-some (some a) e h = let same = h in cc same

lookup_name-safe :
    (payload : List ℕ) {name : Name} → lookup_name payload ≡ ok name → IsSafeName name
unfolding lookup_name
lookup_name-safe payload {name} e = elim (Option-cases (strip_nul payload)) [
  | inl b ↦ let wrong = rw (lookup_name, b) at e in cc wrong
  | inr (n, b) ↦ elim (Bool-cases (is_utf8 n)) [
    | inr u ↦ let wrong = rw (lookup_name, b, u) at e in cc wrong
    | inl u ↦ elim (Bool-cases (is_unsafe n)) [
      | inl s ↦ let wrong = rw (lookup_name, b, u, s) at e in cc wrong
      | inr s ↦
          let same : n ≡ name = let found = rw (lookup_name, b, u, s) at e in cc found in
          subst IsSafeName same (is_unsafe-IsSafeName n s)
    ]
  ]
]

module _ {F : Type 0} (host : HostFs F) (root : PathBuf) (old : FsInodes) where
  abbrev Kept : F × FsInodes → Type 0
  Kept w = Keeps root old w.1

  abbrev KeepsAll : {A : Type 0} → M (F × FsInodes) A → Type 0
  KeepsAll m = (w : F × FsInodes) → Kept w → Kept (m w).1

  -- The path of a number that is found leads down from the root.
  path_of-IsUnder :
      (node : ℕ) (e : DeviceError) (w : F × FsInodes) {path : PathBuf} {w' : F × FsInodes}
      → Kept w
      → path_of node e w ≡ (ok path, w')
      → IsUnder root path
  path_of-IsUnder node e w (t, more) h =
      t.rooted node (ok_or-some (w.1.by_id node) e (ap (λ r. r.0) h))

  checked_metadata :
      (path : PathBuf) (reply : Metadata → List ℕ) (e : DeviceError)
      → KeepsAll (λ w. continue_with (on_host (host.symlink_metadata path) w) λ metadata w.
        continue_with (reject_if metadata.is_symlink e, w) λ _ w. (ok (reply metadata), w))
  checked_metadata path reply e w h =
      continue_with-keeps Kept (on_host (host.symlink_metadata path) w) _ h
        λ metadata w h. continue_with-keeps Kept (reject_if metadata.is_symlink e, w) _ h λ _ w h. h

  getattr_keeps : (node : ℕ) → KeepsAll (getattr_reply host node)
  unfolding getattr_reply
  getattr_keeps node w h =
      continue_with-keeps Kept (path_of node _ w) _ h λ path w h. checked_metadata path _ _ w h

  open_keeps : (node : ℕ) → KeepsAll (open_reply host node)
  unfolding open_reply
  open_keeps node w h =
      continue_with-keeps Kept (path_of node _ w) _ h λ path w h. checked_metadata path _ _ w h

  lookup_keeps : (node : ℕ) (payload : List ℕ) → KeepsAll (lookup_reply host root node payload)
  unfolding lookup_reply
  lookup_keeps node payload w h =
      continue_with-preserves Kept (lookup_name payload, w) _ h
        λ name w e h. continue_with-preserves Kept (path_of node _ w) _ h λ parent w' found h'.
          let path = parent ++ (name ∷ []) in
          let under =
            join-IsUnder root parent name (path_of-IsUnder node _ w h found)
              (lookup_name-safe payload (ap (λ r. r.0) e)) in
          continue_with-keeps Kept (on_host (host.symlink_metadata path) w') _ h' λ metadata w h.
            continue_with-keeps Kept (reject_if _ _, w) _ h
              λ _ w h.
                continue_with-keeps Kept (on_rest (id_for_path path) w) _
                  (id_for_path-Keeps root path old w.1 h under) λ id w h. h

  read_keeps : (node : ℕ) (payload : List ℕ) → KeepsAll (read_reply host node payload)
  unfolding read_reply
  read_keeps node payload w h =
      continue_with-keeps Kept (reject_if _ _, w) _ h
        λ _ w h.
          continue_with-keeps Kept (read_u64 payload 8, w) _ h
            λ offset w h.
              continue_with-keeps Kept (read_u32 payload 16, w) _ h
                λ size w h. continue_with-keeps Kept (path_of node _ w) _ h λ path w h. h

  entries_keep :
      (path : PathBuf) (offset maximum : ℕ) (names : List (Outcome Name)) (index : ℕ)
      (entries : List ℕ)
      → IsUnder root path
      → All IsEntry names
      → KeepsAll (read_entries host path offset maximum names index entries)
  unfolding read_entries
  entries_keep path offset maximum [] index entries under safe w h = h
  entries_keep path offset maximum (entry ∷ names) index entries under (ok_entry, safe) w h =
      let skipped : KeepsAll (read_entries host path offset maximum names (index + 1) entries) =
        entries_keep path offset maximum names (index + 1) entries under safe in
      continue_with-preserves Kept (entry, w) _ h
        λ name w e h.
          let ok_name : IsSafeName name = subst IsEntry (ap (λ r. r.0) e) ok_entry in
          if-keeps Kept (ltb index offset) _ _ w (skipped w h) (
            continue_with-keeps Kept (on_host (host.symlink_metadata (path ++ (name ∷ []))) w) _ h
              λ metadata w h. if-keeps Kept metadata.is_symlink _ _ w (skipped w h) (
                continue_with-keeps Kept (reject_if _ _, w) _ h
                  λ _ w h.
                    continue_with-keeps Kept (on_rest (id_for_path (path ++ (name ∷ []))) w) _
                      (id_for_path-Keeps root _ old w.1 h
                        (join-IsUnder root path name under ok_name))
                      λ id w h.
                        continue_with-keeps Kept (dirent id (index + 1) name metadata, w) _ h
                          λ listed w h. if-keeps Kept (is_over maximum entries listed) _ _ w h (
                            entries_keep path offset maximum names (index + 1) (entries ++ listed)
                              under safe w h)))

  module _ (honest : HasEntries host) where
    listed_keeps :
        (path : PathBuf) (offset maximum : ℕ)
        → IsUnder root path
        → (w : F × FsInodes) → Kept w
        → Kept
            (continue_with
              (on_host (host.read_dir path) w)
              λ names. read_entries host path offset maximum names 0 []).1
    listed_keeps path offset maximum under w h =
        continue_with-preserves Kept (on_host (host.read_dir path) w) _ h λ names w' e h.
          entries_keep path offset maximum names 0 [] under
            (subst AreEntries (ap (λ r. r.0) e) (honest path w.0)) w' h

    readdir_keeps : (node : ℕ) (payload : List ℕ) → KeepsAll (readdir_reply host root node payload)
    unfolding readdir_reply
    readdir_keeps node payload w h =
        continue_with-keeps Kept (reject_if _ _, w) _ h
          λ _ w h.
            continue_with-keeps Kept (read_u64 payload 8, w) _ h
              λ offset w h.
                continue_with-keeps Kept (read_u32 payload 16, w) _ h
                  λ maximum w h.
                    continue_with-preserves Kept (path_of node _ w) _ h λ path w' found h'.
                      continue_with-keeps Kept (reject_if _ _, w') _ h'
                        λ _ w'' h''.
                          listed_keeps path offset maximum (path_of-IsUnder node _ w h found) w''
                            h''

    dispatch_keeps :
        (header : FuseInHeader) (payload : List ℕ) → KeepsAll (dispatch host root header payload)
    unfolding dispatch
    dispatch_keeps header payload w h =
        let o = header.opcode in
        let node = header.node_id in
        if-keeps Kept (o == 26) _ _ w h (
          if-keeps Kept (o == 1) _ _ w (lookup_keeps node payload w h) (
            if-keeps Kept (o == 3) _ _ w (getattr_keeps node w h) (
              if-keeps Kept (o == 14 || o == 27) _ _ w (open_keeps node w h) (
                if-keeps Kept (o == 15) _ _ w (read_keeps node payload w h) (
                  if-keeps Kept (o == 28) _ _ w (readdir_keeps node payload w h)
                    (if-keeps Kept (o == 17) _ _ w h h))))))

-- `execute_request` of a virtio-fs device on any bytes, over a host whose directories list no empty
-- name, no `.` or `..` and no name with a slash, from an inode table whose two maps are inverse,
-- whose numbers lie from one up to the next to be given and whose paths lead down from the root by
-- such names: the table is such a one again, whether the request is served or refused, and each
-- number stands for the path it stood for.
pub execute_request-Keeps :
    {F : Type 0} (host : HostFs F) (errno : Errno) (root : PathBuf) (request : List ℕ) (f : F)
    (inodes : FsInodes)
    → HasEntries host
    → IsTable root inodes
    → Keeps root inodes (execute_request host errno root request (f, inodes)).1.1
unfolding execute_request
execute_request-Keeps host errno root request f inodes honest table =
    let same : Keeps root inodes inodes = (table, λ i p e. e) in
    continue_with-keeps (Kept host root inodes) (parse_header request, (f, inodes)) _ same
      λ header w h.
        if-keeps (Kept host root inodes) (not (header.length == length request)) _ _ w h (
          if-keeps (Kept host root inodes) (has silent header.opcode) _ _ w h (
            if-keeps (Kept host root inodes) (not (has supported header.opcode)) _ _ w h
              (dispatch_keeps host root inodes honest header (drop 40 request) w h)))
