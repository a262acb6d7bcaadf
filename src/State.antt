-- ===== src/State.antt =====
-- Stateful calls: a Rust method that reads and updates what lies behind its references takes the
-- state and returns it beside its outcome, also where it fails.
use libvirtio.Base.{
  ℕ, zero, suc, Bool, true, false, if◌then◌else◌, sym, ◌≡◌, ◌⊎◌, inl, inr, refl, ap, ◌∙◌,
}
use libvirtio.Error.{DeviceError}
use libvirtio.Outcome.{Outcome, ok, err, panic, hang, reject_if}

abbrev pub M : Type 0 → Type 0 → Type 0
M S A = S → Outcome A × S

abbrev pub pure : {S A : Type 0} → A → M S A
pure a s = (ok a, s)

abbrev pub lift : {S A : Type 0} → Outcome A → M S A
lift o s = (o, s)

unfoldable pub continue_with : {S A B : Type 0} → Outcome A × S → (A → M S B) → Outcome B × S
continue_with (ok a, s) f = f a s
continue_with (err e, s) f = (err e, s)
continue_with (panic, s) f = (panic, s)
continue_with (hang, s) f = (hang, s)

infixl 5 ◌>>=◌ ◌>>◌
abbrev pub ◌>>=◌ : {S A B : Type 0} → M S A → (A → M S B) → M S B
◌>>=◌ m f s = continue_with (m s) f

abbrev pub ◌>>◌ : {S B : Type 0} → M S (Unit {0}) → M S B → M S B
m >> k = m >>= λ _. k

-- `get` reads the state, `modify` updates it.
abbrev pub get : {S : Type 0} → M S S
get s = (ok s, s)

abbrev pub modify : {S : Type 0} → (S → S) → M S (Unit {0})
modify f s = (ok tt, f s)

-- A call that touches only the first part of the state.
abbrev pub on_host : {H T A : Type 0} → M H A → M (H × T) A
on_host m (h, t) = let (o, h') = m h in (o, (h', t))

-- A call that touches only the second part.
abbrev pub on_rest : {H T A : Type 0} → M T A → M (H × T) A
on_rest m (h, t) = let (o, t') = m t in (o, (h, t'))

-- A call that touches the first and the third part.
abbrev pub on_ends : {H T S A : Type 0} → M (H × S) A → M ((H × T) × S) A
on_ends m ((h, t), s) = let (o, (h', s')) = m (h, s) in (o, ((h', t), s'))

-- A loop whose body tells whether to go on, with the rounds allowed.
unfoldable pub repeat : {S : Type 0} → ℕ → M S Bool → M S (Unit {0})
repeat zero body = lift hang
repeat (suc rounds) body =
    let rest = repeat rounds body in body >>= λ more. if more then rest else pure tt

-- A call that leaves the state as it was.
abbrev pub IsReader : {S A : Type 0} → M S A → Type 0
IsReader {S} m = (s : S) → (m s).1 ≡ s

continue_with-same :
    {S A B : Type 0} (r : Outcome A × S) (f : A → M S B) (s : S)
    → r.1 ≡ s
    → ((a : A) → IsReader (f a))
    → (continue_with r f).1 ≡ s
unfolding continue_with
continue_with-same (ok a, s') f s e h = h a s' ∙ e
continue_with-same (err x, s') f s e h = e
continue_with-same (panic, s') f s e h = e
continue_with-same (hang, s') f s e h = e

pub >>=-IsReader :
    {S A B : Type 0} (m : M S A) (f : A → M S B)
    → IsReader m
    → ((a : A) → IsReader (f a))
    → IsReader (m >>= f)
>>=-IsReader m f h k s = continue_with-same (m s) f s (h s) k

pub if-IsReader :
    {S A : Type 0} (b : Bool) (m k : M S A)
    → IsReader m
    → IsReader k
    → IsReader (if b then m else k)
if-IsReader true m k h h' = h
if-IsReader false m k h h' = h'

-- Inversion of a successful bind.
pub continue_with-eq-ok :
    {S A B : Type 0} (r : Outcome A × S) (f : A → M S B) {b : B} {s : S}
    → continue_with r f ≡ (ok b, s)
    → (a : A) × (t : S) × (r ≡ (ok a, t)) × (f a t ≡ (ok b, s))
unfolding continue_with
continue_with-eq-ok (ok a, t) f e = (a, t, refl, e)
continue_with-eq-ok (err x, t) f e = cc
continue_with-eq-ok (panic, t) f e = cc
continue_with-eq-ok (hang, t) f e = cc

pub lift-eq-ok :
    {S A B : Type 0} (o : Outcome A) (s : S) (f : A → M S B) {b : B} {t : S}
    → continue_with (o, s) f ≡ (ok b, t)
    → (a : A) × (o ≡ ok a) × (f a s ≡ (ok b, t))
unfolding continue_with
lift-eq-ok (ok a) s f e = (a, refl, e)
lift-eq-ok (err x) s f e = cc
lift-eq-ok panic s f e = cc
lift-eq-ok hang s f e = cc

-- A call that returns: it neither panics nor runs on.
abbrev pub IsSettled {ℓ} : {A : Type ℓ} → Outcome A → Type 0
IsSettled (ok a) = Unit {0}
IsSettled (err e) = Unit {0}
IsSettled panic = ⊥
IsSettled hang = ⊥

pub reject_if-IsSettled : (b : Bool) (e : DeviceError) → IsSettled (reject_if b e)
reject_if-IsSettled true e = tt
reject_if-IsSettled false e = tt

pub continue_with-IsSettled :
    {S A B : Type 0} (r : Outcome A × S) (f : A → M S B)
    → IsSettled r.0
    → ((a : A) (s : S) → IsSettled (f a s).0)
    → IsSettled (continue_with r f).0
unfolding continue_with
continue_with-IsSettled (ok a, s) f h k = k a s
continue_with-IsSettled (err e, s) f h k = tt
continue_with-IsSettled (panic, s) f h k = h
continue_with-IsSettled (hang, s) f h k = h

pair_cases :
    {S A : Type 0} (r : Outcome A × S) (s : S)
    → r.1 ≡ s
    → IsSettled r.0
    → ((a : A) × (r ≡ (ok a, s))) ⊎ ((e : DeviceError) × (r ≡ (err e, s)))
pair_cases (ok a, t) s e h = inl (a, ap (λ t. (ok a, t)) e)
pair_cases (err x, t) s e h = inr (x, ap (λ t. (err x, t)) e)
pair_cases (panic, t) s e h = absurd h
pair_cases (hang, t) s e h = absurd h

-- What can come of a call that returns and leaves the state alone.
pub reader_cases :
    {S A : Type 0} (m : M S A) (s : S)
    → IsReader m
    → IsSettled (m s).0
    → ((a : A) × (m s ≡ (ok a, s))) ⊎ ((e : DeviceError) × (m s ≡ (err e, s)))
reader_cases m s h k = pair_cases (m s) s (h s) k

-- The same where what is left to do may rest on the result.
pub continue_with-settles :
    {S A B : Type 0} (r : Outcome A × S) (f : A → M S B)
    → IsSettled r.0
    → ((a : A) (s : S) → r ≡ (ok a, s) → IsSettled (f a s).0)
    → IsSettled (continue_with r f).0
unfolding continue_with
continue_with-settles (ok a, s) f h k = k a s refl
continue_with-settles (err e, s) f h k = tt
continue_with-settles (panic, s) f h k = h
continue_with-settles (hang, s) f h k = h

-- A successful call of either part, taken apart.
pub on_host-eq-ok :
    {H T A : Type 0} (m : M H A) (h : H) (t : T) {a : A} {w : H × T}
    → on_host m (h, t) ≡ (ok a, w)
    → (m h ≡ (ok a, w.0)) × (w.1 ≡ t)
on_host-eq-ok m h t e = (ap (λ r. (r.0, r.1.0)) e, sym (ap (λ r. r.1.1) e))

pub on_rest-eq-ok :
    {H T A : Type 0} (m : M T A) (h : H) (t : T) {a : A} {w : H × T}
    → on_rest m (h, t) ≡ (ok a, w)
    → (m t ≡ (ok a, w.1)) × (w.0 ≡ h)
on_rest-eq-ok m h t e = (ap (λ r. (r.0, r.1.1)) e, sym (ap (λ r. r.1.0) e))

pub on_ends-eq-ok :
    {H T S A : Type 0} (m : M (H × S) A) (h : H) (t : T) (s : S) {a : A} {w : (H × T) × S}
    → on_ends m ((h, t), s) ≡ (ok a, w)
    → (m (h, s) ≡ (ok a, (w.0.0, w.1))) × (w.0.1 ≡ t)
on_ends-eq-ok m h t s e = (ap (λ r. (r.0, (r.1.0.0, r.1.1))) e, sym (ap (λ r. r.1.0.1) e))

-- What every step keeps, a chain of steps keeps.
pub continue_with-keeps :
    {S A B : Type 0} (P : S → Type 0) (r : Outcome A × S) (f : A → M S B)
    → P r.1
    → ((a : A) (s : S) → P s → P (f a s).1)
    → P (continue_with r f).1
unfolding continue_with
continue_with-keeps P (ok a, s) f h k = k a s h
continue_with-keeps P (err e, s) f h k = h
continue_with-keeps P (panic, s) f h k = h
continue_with-keeps P (hang, s) f h k = h

-- The same where what is left to do may rest on the result.
pub continue_with-preserves :
    {S A B : Type 0} (P : S → Type 0) (r : Outcome A × S) (f : A → M S B)
    → P r.1
    → ((a : A) (s : S) → r ≡ (ok a, s) → P s → P (f a s).1)
    → P (continue_with r f).1
unfolding continue_with
continue_with-preserves P (ok a, s) f h k = k a s refl h
continue_with-preserves P (err e, s) f h k = h
continue_with-preserves P (panic, s) f h k = h
continue_with-preserves P (hang, s) f h k = h

pub if-keeps :
    {S A : Type 0} (P : S → Type 0) (b : Bool) (m k : M S A) (s : S)
    → P (m s).1
    → P (k s).1
    → P ((if b then m else k) s).1
if-keeps P true m k s h h' = h
if-keeps P false m k s h h' = h'
