-- ===== src/Outcome.antt =====
-- What a call of the Rust code ends in, and the two monads of the model: a pure call, and one
-- that updates a state.
use libvirtio.Base.{Bool, true, false, Option, none, some, ◌≡◌, ◌⊎◌, inl, inr, refl, ap, ◌∙◌}
use libvirtio.Error.{DeviceError}

-- `panic` is a Rust panic. `hang` is no Rust value: a loop of the model ran out of fuel.
pub data Outcome {ℓ} (A : Type ℓ) : Type ℓ where
  ok : A → Outcome A
  err : DeviceError → Outcome A
  panic : Outcome A
  hang : Outcome A

infixl 5 ◌>>=◌ ◌>>◌
abbrev pub ◌>>=◌ {ℓ ℓ'} : {A : Type ℓ} {B : Type ℓ'} → Outcome A → (A → Outcome B) → Outcome B
ok a >>= f = f a
err e >>= f = err e
panic >>= f = panic
hang >>= f = hang

-- `if fails { return Err(e) }`
abbrev pub reject_if : Bool → DeviceError → Outcome (Unit {0})
reject_if true e = err e
reject_if false e = ok tt

-- `o.ok_or(e)?`
abbrev pub ok_or {ℓ} : {A : Type ℓ} → Option A → DeviceError → Outcome A
ok_or none e = err e
ok_or (some a) e = ok a

-- `o.expect(…)`, and an index into a slice.
abbrev pub expect {ℓ} : {A : Type ℓ} → Option A → Outcome A
expect none = panic
expect (some a) = ok a

-- A call for its effect alone.
abbrev pub ◌>>◌ {ℓ} : {A : Type ℓ} → Outcome (Unit {0}) → Outcome A → Outcome A
o >> next = o >>= λ _. next

pub >>=-eq-ok {ℓ κ} :
    {A : Type ℓ} {B : Type κ} (o : Outcome A) (f : A → Outcome B) {b : B}
    → (o >>= f) ≡ ok b
    → (a : A) × (o ≡ ok a) × (f a ≡ ok b)
>>=-eq-ok (ok a) f h = (a, refl, h)
>>=-eq-ok (err e) f h = cc
>>=-eq-ok panic f h = cc
>>=-eq-ok hang f h = cc

-- Of a call that checks a condition: the condition holds and it succeeds, or neither.
abbrev pub Decides {ℓ} : {A : Type ℓ} → Type 0 → A → Outcome A → Type ℓ
Decides P a o = (P × (o ≡ ok a)) ⊎ ((e : DeviceError) × (o ≡ err e) × (P → ⊥))

pub reject_if-Decides :
    (P : Type 0) (b : Bool) (e : DeviceError)
    → (b ≡ false → P)
    → (b ≡ true → P → ⊥)
    → Decides P tt (reject_if b e)
reject_if-Decides P true e h k = inr (e, refl, k refl)
reject_if-Decides P false e h k = inl (h refl, refl)

pub >>=-Decides {ℓ κ} :
    {A : Type ℓ} {B : Type κ} {P Q : Type 0} (o : Outcome A) (f : A → Outcome B) {a : A} {b : B}
    → Decides P a o
    → (P → Decides Q b (f a))
    → Decides (P × Q) b (o >>= f)
>>=-Decides o f (inr (e, k, wrong)) h = inr (e, ap (λ o. o >>= f) k, λ (p, _). wrong p)
>>=-Decides o f (inl (p, k)) h = elim (h p) [
  | inl (q, l) ↦ inl ((p, q), ap (λ o. o >>= f) k ∙ l)
  | inr (e, l, wrong) ↦ inr (e, ap (λ o. o >>= f) k ∙ l, λ (_, q). wrong q)
]

pub Decides-iff {ℓ} :
    {A : Type ℓ} {P Q : Type 0} (o : Outcome A) {a : A}
    → (P → Q)
    → (Q → P)
    → Decides P a o
    → Decides Q a o
Decides-iff o h k (inl (p, e)) = inl (h p, e)
Decides-iff o h k (inr (x, e, wrong)) = inr (x, e, λ q. wrong (k q))
