-- ===== src/Fs/Inodes/Paths.antt =====
-- Paths of src/fs.rs: the comparison that the maps of the inode table make, and the paths that
-- lead down from the root.
use libvirtio.Base.{◌≡◌, ◌≢◌, refl, ap₂, subst, true, false, List, [], ◌∷◌, ◌++◌, All, arith}
use libvirtio.Fs.{Name, PathBuf}
use libvirtio.Fs.Inodes.{same_name, same_path}
use libvirtio.Fs.Request.Names.{has_slash, is_unsafe}

pub same_name_sound : (n m : Name) → same_name n m ≡ true → n ≡ m
same_name_sound [] [] e = refl
same_name_sound [] (b ∷ m) e = cc
same_name_sound (a ∷ n) [] e = cc
same_name_sound (a ∷ n) (b ∷ m) e =
    ap₂ ◌∷◌ (ground (arith, e)) (same_name_sound n m (ground (arith, e)))

pub same_name_refl : (n : Name) → same_name n n ≡ true
same_name_refl [] = refl
same_name_refl (a ∷ n) = ground (arith, same_name_refl n)

pub same_path_sound : (p q : PathBuf) → same_path p q ≡ true → p ≡ q
same_path_sound [] [] e = refl
same_path_sound [] (m ∷ q) e = cc
same_path_sound (n ∷ p) [] e = cc
same_path_sound (n ∷ p) (m ∷ q) e =
    ap₂ ◌∷◌ (same_name_sound n m (ground (arith, e))) (same_path_sound p q (ground (arith, e)))

pub same_path_refl : (p : PathBuf) → same_path p p ≡ true
same_path_refl [] = refl
same_path_refl (n ∷ p) = rw (same_name_refl n, same_path_refl p) refl

-- A name of an entry below a directory: not empty, `.` or `..`, and without a slash.
abbrev pub IsSafeName : Name → Type 0
IsSafeName n = (n ≢ []) × (n ≢ 46 ∷ []) × (n ≢ 46 ∷ 46 ∷ []) × All (λ b. b ≢ 47) n

other_name : (n m : Name) → same_name n m ≡ false → n ≢ m
other_name n m e h =
    let same : same_name n m ≡ true = subst (λ m. same_name n m ≡ true) h (same_name_refl n) in
    cc (e, same)

no_slash : (n : Name) → has_slash n ≡ false → All (λ b. b ≢ 47) n
no_slash [] e = tt
no_slash (b ∷ n) e = (ground (arith, e), no_slash n (ground (arith, e)))

pub is_unsafe-IsSafeName : (n : Name) → is_unsafe n ≡ false → IsSafeName n
is_unsafe-IsSafeName n e = (
  other_name n [] (ground (arith, e)),
  other_name n (46 ∷ []) (ground (arith, e)),
  other_name n (46 ∷ 46 ∷ []) (ground (arith, e)),
  no_slash n (ground (arith, e)),
)

-- A path that leads down from the root by such names.
abbrev pub IsUnder : PathBuf → PathBuf → Type 0
IsUnder root p = (rest : List Name) × (p ≡ root ++ rest) × All IsSafeName rest
