-- ===== src/Buffers/Deposit.antt =====
-- Bytes laid over the guest's memory at a list of addresses, and that a write to the host's memory
-- does that.
use libvirtio.Base.{
  ℕ, zero, suc, ◌+◌, ◌≤◌, ◌≡◌, ◌≢◌, inl, inr, refl, sym, ap, ◌∙◌, true, false, List, [], ◌∷◌, ◌++◌,
  map, Option, some, arith, All, Option-cases, length, take, drop, range_from, cons_eq,
  if◌then◌else◌, ◌==◌,
}
use native.Mathlib.Decide.{ℕ_discrete}
use libvirtio.Dma.{DmaMemory}
use libvirtio.Dma.Translate.{host_address}
use libvirtio.Lease.{Host, update, store}
use libvirtio.Lease.Read.{guest_byte}
use libvirtio.Lease.Write.{NoAlias, poke, update_ne, update_eq}

-- `f` with `b` at the guest's address `a`.
abbrev pub overlay : (ℕ → Option ℕ) → ℕ → ℕ → ℕ → Option ℕ
overlay f a b x = if a == x then some b else f x

-- The bytes at the addresses, one by one; a later byte at an address hides an earlier one.
unfoldable pub deposit : (ℕ → Option ℕ) → List ℕ → List ℕ → ℕ → Option ℕ
deposit f [] bs = f
deposit f (a ∷ xs) [] = f
deposit f (a ∷ xs) (b ∷ bs) = deposit (overlay f a b) xs bs

pub deposit_nil : (f : ℕ → Option ℕ) (xs : List ℕ) → deposit f xs [] ≡ f
unfolding deposit
deposit_nil f [] = refl
deposit_nil f (a ∷ xs) = refl

overlay-congr : (f g : ℕ → Option ℕ) (a b x : ℕ) → f x ≡ g x → overlay f a b x ≡ overlay g a b x
overlay-congr f g a b x e = ap (λ o. if a == x then some b else o) e

pub deposit-congr :
    (xs bs : List ℕ) (f g : ℕ → Option ℕ)
    → ((x : ℕ) → f x ≡ g x)
    → (x : ℕ) → deposit f xs bs x ≡ deposit g xs bs x
unfolding deposit
deposit-congr [] bs f g e x = e x
deposit-congr (a ∷ xs) [] f g e x = e x
deposit-congr (a ∷ xs) (b ∷ bs) f g e x =
    deposit-congr xs bs (overlay f a b) (overlay g a b) (λ y. overlay-congr f g a b y (e y)) x

pub deposit-append :
    (xs cs bs : List ℕ) (f : ℕ → Option ℕ)
    → deposit f (xs ++ cs) bs ≡ deposit (deposit f xs bs) cs (drop (length xs) bs)
unfolding deposit
deposit-append [] cs bs f = refl
deposit-append (a ∷ xs) cs [] f = sym (deposit_nil f cs)
deposit-append (a ∷ xs) cs (b ∷ bs) f = deposit-append xs cs bs (overlay f a b)

-- Bytes for each half of the addresses.
pub deposit_halves :
    (xs ys bs cs : List ℕ) (f : ℕ → Option ℕ)
    → length xs ≡ length bs
    → deposit f (xs ++ ys) (bs ++ cs) ≡ deposit (deposit f xs bs) ys cs
unfolding deposit
deposit_halves [] ys [] cs f e = refl
deposit_halves [] ys (b ∷ bs) cs f e = absurd (omega arith)
deposit_halves (x ∷ xs) ys [] cs f e = absurd (omega arith)
deposit_halves (x ∷ xs) ys (b ∷ bs) cs f e =
    deposit_halves xs ys bs cs (overlay f x b) (omega arith)

pub deposit_outside :
    (xs bs : List ℕ) (f : ℕ → Option ℕ) (x : ℕ) → All (λ a. a ≢ x) xs → deposit f xs bs x ≡ f x
unfolding deposit
deposit_outside [] bs f x h = refl
deposit_outside (a ∷ xs) [] f x h = refl
deposit_outside (a ∷ xs) (b ∷ bs) f x (ne, h) =
    deposit_outside xs bs (overlay f a b) x h ∙ ground (arith, ne)

equal_lem : (g x : ℕ) → g ≡ x → (g == x) ≡ true
equal_lem g x e = ground arith

unequal_lem : (g x : ℕ) → g ≢ x → (g == x) ≡ false
unequal_lem g x e = ground arith

module _ (memory : DmaMemory) (distinct : NoAlias memory.segments) where
  guest_byte-update :
      (h : Host) (a b g x : ℕ)
      → host_address memory.segments g ≡ some a
      → guest_byte memory (record h { ram = update h.ram a b }) x
        ≡ overlay (guest_byte memory h) g b x
  unfolding guest_byte
  guest_byte-update h a b g x e = elim (ℕ_discrete g x) [
    | yes same ↦
        rw (sym (ap (host_address memory.segments) same) ∙ e, equal_lem g x same)
          (ap some (update_eq h.ram a b a refl))
    | no other ↦ elim (Option-cases (host_address memory.segments x)) [
      | inl missing ↦ rw (missing, unequal_lem g x other) refl
      | inr (c, there) ↦
          rw (there, unequal_lem g x other)
            (ap some (update_ne h.ram a b c λ s. other (distinct g x c (e ∙ ap some s) there)))
    ]
  ]

  pub guest_byte-poke :
      (hosts guests bs : List ℕ) (h : Host)
      → map some hosts ≡ map (host_address memory.segments) guests
      → (x : ℕ)
      → guest_byte memory (record h { ram = poke h.ram hosts bs }) x
        ≡ deposit (guest_byte memory h) guests bs x
  unfolding deposit
  guest_byte-poke [] [] bs h e x = refl
  guest_byte-poke [] (g ∷ guests) bs h e x = cc
  guest_byte-poke (a ∷ hosts) [] bs h e x = cc
  guest_byte-poke (a ∷ hosts) (g ∷ guests) [] h e x = refl
  guest_byte-poke (a ∷ hosts) (g ∷ guests) (b ∷ bs) h e x =
      let (here, rest) = cons_eq e in
      guest_byte-poke hosts guests bs (record h { ram = update h.ram a b }) rest x
      ∙ deposit-congr guests bs _ (overlay (guest_byte memory h) g b)
          (λ y. guest_byte-update h a b g y (sym here)) x

-- What a part takes of the bytes left, and what of them is written once they run out.
pub store-poke_part :
    (bs : List ℕ) (n a : ℕ) (ys : List ℕ) (ram : ℕ → ℕ)
    → length bs ≤ n
    → store ram a bs ≡ poke ram (range_from a n ++ ys) bs
unfolding store
store-poke_part [] zero a [] ram h = refl
store-poke_part [] zero a (y ∷ ys) ram h = refl
store-poke_part [] (suc n) a ys ram h = refl
store-poke_part (b ∷ bs) zero a ys ram h = absurd (omega arith)
store-poke_part (b ∷ bs) (suc n) a ys ram h =
    store-poke_part bs n (a + 1) ys (update ram a b) (omega arith)

pub poke_nil : (xs : List ℕ) (ram : ℕ → ℕ) → poke ram xs [] ≡ ram
poke_nil [] ram = refl
poke_nil (x ∷ xs) ram = refl

pub take_all : (n : ℕ) (bs : List ℕ) → length bs ≤ n → take n bs ≡ bs
take_all zero [] h = refl
take_all zero (b ∷ bs) h = absurd (omega arith)
take_all (suc n) [] h = refl
take_all (suc n) (b ∷ bs) h = ap (◌∷◌ b) (take_all n bs (omega arith))

pub drop_all : (n : ℕ) (bs : List ℕ) → length bs ≤ n → drop n bs ≡ []
drop_all zero [] h = refl
drop_all zero (b ∷ bs) h = absurd (omega arith)
drop_all (suc n) [] h = refl
drop_all (suc n) (b ∷ bs) h = drop_all n bs (omega arith)
