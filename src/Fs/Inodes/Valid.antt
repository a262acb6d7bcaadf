-- ===== src/Fs/Inodes/Valid.antt =====
-- The inode table of src/fs.rs: its two maps are inverse to each other, and every path lies under
-- the root, reached by safe names.
use libvirtio.Base.{
  ℕ, ◌+◌, ◌^◌, ◌≤◌, ◌<◌, ◌≡◌, ◌⊎◌, inl, inr, refl, sym, ap, subst, ◌∙◌, true, false, Bool-cases,
  none, some, Option-cases, [], ltb, ◌==◌, arith,
}
use mathlib.Core.List.{append-nil}
use libvirtio.Fs.{PathBuf}
use libvirtio.Fs.Inodes.{FsInodes, same_path, put_id, put_path, new_inodes, id_for_path}
use libvirtio.Fs.Inodes.Paths.{same_path_sound, same_path_refl, IsUnder}

-- The invariant of the table of a device with this root.
pub record IsTable (root : PathBuf) (inodes : FsInodes) : Type 0 where
  pub bound : inodes.next < 2 ^ 64
  pub numbered : (i : ℕ) {p : PathBuf} → inodes.by_id i ≡ some p → (1 ≤ i) × (i < inodes.next)
  pub there : (i : ℕ) {p : PathBuf} → inodes.by_id i ≡ some p → inodes.by_path p ≡ some i
  pub back : (p : PathBuf) {i : ℕ} → inodes.by_path p ≡ some i → inodes.by_id i ≡ some p
  pub rooted : (i : ℕ) {p : PathBuf} → inodes.by_id i ≡ some p → IsUnder root p
  pub root_there : inodes.by_id 1 ≡ some root

-- A later table: what a number stands for stays.
abbrev pub Extends : FsInodes → FsInodes → Type 0
Extends old new = (i : ℕ) (p : PathBuf) → old.by_id i ≡ some p → new.by_id i ≡ some p

equal_refl : (n : ℕ) → (n == n) ≡ true
equal_refl n = ground arith

-- A new entry, where the path has none.
module _ (root path : PathBuf) (inodes : FsInodes) (t : IsTable root inodes)
    (fresh : inodes.by_path path ≡ none) (under : IsUnder root path)
    (room : inodes.next + 1 < 2 ^ 64) where
  abbrev added : FsInodes
  added = record {
    next = inodes.next + 1;
    by_id = put_id inodes.next path inodes.by_id;
    by_path = put_path path inodes.next inodes.by_path;
  }

  -- The new number, or an old one.
  put_id_cases :
      (i : ℕ) {p : PathBuf}
      → added.by_id i ≡ some p
      → ((i ≡ inodes.next) × (p ≡ path)) ⊎ ((i == inodes.next) ≡ false) × (inodes.by_id i ≡ some p)
  put_id_cases i e = elim (Bool-cases (i == inodes.next)) [
    | inl b ↦ inl (ground (arith, b), let same = rw b at e in cc same)
    | inr b ↦ inr (b, rw b at e)
  ]

  put_path_cases :
      (p : PathBuf) {i : ℕ}
      → added.by_path p ≡ some i
      → ((p ≡ path) × (i ≡ inodes.next)) ⊎ (inodes.by_path p ≡ some i)
  put_path_cases p e = elim (Bool-cases (same_path p path)) [
    | inl b ↦ inl (same_path_sound p path b, let same = rw b at e in cc same)
    | inr b ↦ inr (rw b at e)
  ]

  -- The path of an old number is not the new one.
  old_path : (i : ℕ) {p : PathBuf} → inodes.by_id i ≡ some p → same_path p path ≡ false
  old_path i {p} e = elim (Bool-cases (same_path p path)) [
    | inl b ↦
        let known : inodes.by_path path ≡ some i =
          ap inodes.by_path (sym (same_path_sound p path b)) ∙ t.there i e in
        cc (known, fresh)
    | inr b ↦ b
  ]

  old_number : (i : ℕ) {p : PathBuf} → inodes.by_id i ≡ some p → (i == inodes.next) ≡ false
  old_number i e = let (_, below) = t.numbered i e in ground (arith, below)

  added-IsTable : IsTable root added
  added-IsTable = record {
    bound = room;
    numbered = λ i e. elim (put_id_cases i e) [
      | inl (same, _) ↦
          let (low, high) = t.numbered 1 t.root_there in omega (arith, same, low, high)
      | inr (_, old) ↦ let (low, high) = t.numbered i old in (low, omega (arith, high))
    ];
    there = λ i {p} e. elim (put_id_cases i e) [
      | inl (same, path_lem) ↦ rw (path_lem, same_path_refl path) (ap some (sym same))
      | inr (_, old) ↦ rw (old_path i old) (t.there i old)
    ];
    back = λ p {i} e. elim (put_path_cases p e) [
      | inl (path_lem, same) ↦ rw (path_lem, same, equal_refl inodes.next) refl
      | inr old ↦ rw (old_number i (t.back p old)) (t.back p old)
    ];
    rooted = λ i {p} e. elim (put_id_cases i e) [
      | inl (_, path_lem) ↦ subst (IsUnder root) (sym path_lem) under
      | inr (_, old) ↦ t.rooted i old
    ];
    root_there = rw (old_number 1 t.root_there) t.root_there;
  }

  added-Extends : Extends inodes added
  added-Extends i p e = rw (old_number i e) e

-- What a call may do to the table.
abbrev pub Keeps : PathBuf → FsInodes → FsInodes → Type 0
Keeps root old new = IsTable root new × Extends old new

pub id_for_path-Keeps :
    (root path : PathBuf) (old inodes : FsInodes)
    → Keeps root old inodes
    → IsUnder root path
    → Keeps root old (id_for_path path inodes).1
unfolding id_for_path
id_for_path-Keeps root path old inodes (t, more) under = elim (Option-cases (inodes.by_path path)) [
  | inr (i, e) ↦ rw (id_for_path, e) (t, more)
  | inl e ↦ elim (Bool-cases (ltb (inodes.next + 1) (2 ^ 64))) [
    | inl b ↦
        rw (id_for_path, e, b)
          (
            added-IsTable root path inodes t e under (ground (arith, b)),
            λ i p h. added-Extends root path inodes t e under (ground (arith, b)) i p (more i p h),
          )
    | inr b ↦ rw (id_for_path, e, b) (t, more)
  ]
]

-- The table that `new` makes.
pub new_inodes-IsTable : (root : PathBuf) → IsTable root (new_inodes root)
unfolding new_inodes
new_inodes-IsTable root = record {
  bound = omega arith;
  numbered = λ i e. elim (Bool-cases (i == 1)) [
    | inl b ↦ ground (arith, b)
    | inr b ↦ let wrong = rw b at e in cc wrong
  ];
  there = λ i {p} e. elim (Bool-cases (i == 1)) [
    | inl b ↦
        let same : root ≡ p = let found = rw b at e in cc found in
        rw (sym same, same_path_refl root) (ap some (ground (arith, b)))
    | inr b ↦ let wrong = rw b at e in cc wrong
  ];
  back = λ p {i} e. elim (Bool-cases (same_path p root)) [
    | inl b ↦
        let one : 1 ≡ i = let found = rw b at e in cc found in
        rw (sym one) (ap some (sym (same_path_sound p root b)))
    | inr b ↦ let wrong = rw b at e in cc wrong
  ];
  rooted = λ i {p} e. elim (Bool-cases (i == 1)) [
    | inl b ↦
        let same : root ≡ p = let found = rw b at e in cc found in
        subst (IsUnder root) same ([], sym (append-nil root), tt)
    | inr b ↦ let wrong = rw b at e in cc wrong
  ];
  root_there = refl;
}
