-- ===== src/Memory/Config/Valid.antt =====
-- Which configurations virtio-mem accepts, and that an update keeps them acceptable.
use libvirtio.Base.{
  subst, ◌⊎◌, ℕ, ◌%◌, ◌^◌, ◌≤◌, ◌<◌, ◌≡◌, ◌↔◌, inl, inr, refl, sym, ◌∙◌, true, false, not, ◌||◌,
  List, [], ◌∷◌, All, any, arith, ltb, ◌==◌, Bool-cases,
}
use libvirtio.Error.{DeviceError}
use libvirtio.Outcome.{Outcome, ok, err, panic, hang, reject_if, >>=-eq-ok}
use libvirtio.State.{continue_with}
use libvirtio.Layout.{is_power_of_two}
use libvirtio.Layout.Valid.{is_power_of_two-true, power-is_power_of_two, power_pos, reject_if-eq-ok}
use libvirtio.Queue.{add_u64}
use libvirtio.Memory.Config.{
  MemoryConfig, MemoryConfigState, aligned_values, validate_config, new_config_state, send,
  update_config, subscribe, drop_receiver,
}

-- The block size is a power of two, everything else a multiple of it, and the sizes are in order.
pub record IsValidConfig (c : MemoryConfig) : Type 0 where
  pub exponent : ℕ
  pub exponent_small : exponent < 64
  pub block_power : c.block_size ≡ 2 ^ exponent
  pub aligned : All (λ value. value % c.block_size ≡ 0) (aligned_values c)
  pub usable_within : c.usable_region_size ≤ c.region_size
  pub plugged_within : c.plugged_size ≤ c.usable_region_size
  pub requested_within : c.requested_size ≤ c.usable_region_size

aligned_sound :
    (b : ℕ) (vs : List ℕ) → any (λ v. not (v % b == 0)) vs ≡ false → All (λ v. v % b ≡ 0) vs
aligned_sound b [] h = tt
aligned_sound b (v ∷ vs) h = (ground (arith, h), aligned_sound b vs (ground (arith, h)))

aligned_complete :
    (b : ℕ) (vs : List ℕ) → All (λ v. v % b ≡ 0) vs → any (λ v. not (v % b == 0)) vs ≡ false
aligned_complete b [] h = refl
aligned_complete b (v ∷ vs) (e, rest) = rw e (aligned_complete b vs rest)

power_guard : (n : ℕ) → (n == 0 || not (is_power_of_two 64 n)) ≡ false → is_power_of_two 64 n ≡ true
power_guard n h = ground arith

power_guard_complete :
    (n : ℕ) → 0 < n → is_power_of_two 64 n ≡ true → (n == 0 || not (is_power_of_two 64 n)) ≡ false
power_guard_complete n h k = ground arith

module _ (c : MemoryConfig) where
  sizes_sound :
      (ltb c.region_size c.usable_region_size
          || (ltb c.usable_region_size c.plugged_size || ltb c.usable_region_size c.requested_size))
        ≡ false
      → (c.usable_region_size ≤ c.region_size)
        × (c.plugged_size ≤ c.usable_region_size)
        × (c.requested_size ≤ c.usable_region_size)
  sizes_sound h = ground arith

  validate_config-IsValidConfig :
      {d : MemoryConfig} → validate_config c ≡ ok d → IsValidConfig c × (d ≡ c)
  unfolding validate_config
  validate_config-IsValidConfig h =
      let (_, e1, h1) = >>=-eq-ok (reject_if _ _) _ h in
      let (_, e2, h2) = >>=-eq-ok (reject_if _ _) _ h1 in
      let (_, e3, h3) = >>=-eq-ok (reject_if _ _) _ h2 in
      let (k, lt, p) =
        is_power_of_two-true 64 c.block_size (power_guard c.block_size (reject_if-eq-ok _ _ e1)) in
      let (a, b, d) = sizes_sound (reject_if-eq-ok _ _ e3) in
      (
        record {
          exponent = k;
          exponent_small = lt;
          block_power = p;
          aligned = aligned_sound c.block_size (aligned_values c) (reject_if-eq-ok _ _ e2);
          usable_within = a;
          plugged_within = b;
          requested_within = d;
        },
        cc h3,
      )

  validate_config_complete : IsValidConfig c → validate_config c ≡ ok c
  unfolding validate_config
  validate_config_complete w =
      rw
        (
          power_guard_complete c.block_size (rw w.block_power (power_pos w.exponent))
              (power-is_power_of_two 64 c.block_size w.exponent w.exponent_small w.block_power),
          aligned_complete c.block_size (aligned_values c) w.aligned,
        )
        (ground (arith, w.usable_within, w.plugged_within, w.requested_within))

  -- `MemoryConfig::validate` accepts a configuration exactly if its block size is a power of two
  -- below 2 ^ 64, its address and its sizes are multiples of the block size, the usable region is
  -- within the region, and what is plugged and what is requested is within the usable region.
  pub validate_config_iff : (validate_config c ≡ ok c) ↔ IsValidConfig c
  validate_config_iff = (λ e. (validate_config-IsValidConfig e).0, validate_config_complete)

-- What an update leaves, and the state that it is applied to.
abbrev pub Updates :
    MemoryConfig → MemoryConfigState → Outcome (Unit {0}) × MemoryConfigState → Type 0
Updates c s (ok u, t) =
    (t.config ≡ c)
    × (t.receivers ≡ s.receivers)
    × (s.receivers ≡ 0 → t.updates ≡ s.updates)
    × (0 < s.receivers → t.updates ≡ add_u64 s.updates 1)
    × IsValidConfig c
Updates c s (err e, t) = (t ≡ s) × (IsValidConfig c → ⊥)
Updates c s (panic, t) = ⊥
Updates c s (hang, t) = ⊥

module _ (c : MemoryConfig) where
  validate_config-settles :
      (validate_config c ≡ ok c) ⊎ ((e : DeviceError) × (validate_config c ≡ err e))
  unfolding validate_config
  validate_config-settles =
      elim (Bool-cases (c.block_size == 0 || not (is_power_of_two 64 c.block_size))) [
        | inl a ↦
            inr (DeviceError.invalid_layout "virtio-mem block size is not a power of two", rw a)
        | inr a ↦
            elim (Bool-cases (any (λ value. not (value % c.block_size == 0)) (aligned_values c))) [
              | inl b ↦
                  inr
                    (DeviceError.invalid_layout "virtio-mem value is not block aligned", rw (a, b))
              | inr b ↦ sizes a b
            ]
      ]
    where
      sizes :
          (c.block_size == 0 || not (is_power_of_two 64 c.block_size)) ≡ false
          → any (λ value. not (value % c.block_size == 0)) (aligned_values c) ≡ false
          → (validate_config c ≡ ok c) ⊎ ((e : DeviceError) × (validate_config c ≡ err e))
      sizes a b =
          elim (Bool-cases (
            ltb c.region_size c.usable_region_size
            || (ltb c.usable_region_size c.plugged_size
                || ltb c.usable_region_size c.requested_size))) [
                  | inl d ↦
                      inr
                        (DeviceError.invalid_layout "invalid virtio-mem region sizes", rw (a, b, d))
                  | inr d ↦ inl (rw (a, b, d))
                ]

  update_config_ok :
      (s : MemoryConfigState)
      → validate_config c ≡ ok c
      → update_config c s ≡ (ok tt, send (add_u64 s.updates 1) (record s { config = c }))
  unfolding update_config continue_with
  update_config_ok s e = rw e

  update_config_err :
      (s : MemoryConfigState) (x : DeviceError)
      → validate_config c ≡ err x
      → update_config c s ≡ (err x, s)
  unfolding update_config continue_with
  update_config_err s x e = rw e

  sent_Updates :
      (s : MemoryConfigState)
      → IsValidConfig c
      → Updates c s (ok tt, send (add_u64 s.updates 1) (record s { config = c }))
  sent_Updates s w = elim (Bool-cases (s.receivers == 0)) [
    | inl e ↦ rw e (refl, refl, λ none_left. refl, λ some_left. absurd (ground (arith, e)), w)
    | inr e ↦ rw e (refl, refl, λ none_left. absurd (ground (arith, e)), λ some_left. refl, w)
  ]

  -- `MemoryConfigState::update` takes a valid configuration, which is the state's from then on, and
  -- counts one update more, modulo 2 ^ 64, if the channel has a receiver; with none the count stays.
  -- It refuses any other configuration and leaves the state as it was.
  pub update_config-Updates : (s : MemoryConfigState) → Updates c s (update_config c s)
  update_config-Updates s = elim validate_config-settles [
    | inl e ↦ rw (update_config_ok s e) (sent_Updates s (validate_config-IsValidConfig c e).0)
    | inr (x, e) ↦
        rw (update_config_err s x e)
          (refl, λ w. let k : err x ≡ ok c = sym e ∙ validate_config_complete c w in cc)
  ]

-- The states that a monitor can bring about.
pub data Reachable : MemoryConfigState → Type 0 where
  created : (c : MemoryConfig) {s : MemoryConfigState} → new_config_state c ≡ ok s → Reachable s
  updated :
      {s : MemoryConfigState} (c : MemoryConfig) → Reachable s → Reachable (update_config c s).1
  subscribed : {s : MemoryConfigState} → Reachable s → Reachable (subscribe s).1
  dropped : {s : MemoryConfigState} → Reachable s → Reachable (drop_receiver s).1

update-IsValidConfig :
    (c : MemoryConfig) (s : MemoryConfigState) (r : Outcome (Unit {0}) × MemoryConfigState)
    → Updates c s r
    → IsValidConfig s.config
    → IsValidConfig r.1.config
update-IsValidConfig c s (ok u, t) (e, _, _, _, w) old = rw e w
update-IsValidConfig c s (err x, t) (e, _) old = rw e old
update-IsValidConfig c s (panic, t) w old = absurd w
update-IsValidConfig c s (hang, t) w old = absurd w

-- The configuration of a state that was created and then updated any number of times, refused
-- updates included, while receivers come and go, is valid.
pub Reachable-IsValidConfig : {s : MemoryConfigState} → Reachable s → IsValidConfig s.config
unfolding new_config_state subscribe
Reachable-IsValidConfig (created c {s} e) =
    let (d, e1, e2) = >>=-eq-ok (validate_config c) _ e in
    let same : c ≡ s.config = cc e2 in
    subst IsValidConfig same (validate_config-IsValidConfig c e1).0
Reachable-IsValidConfig (updated {s} c r) =
    update-IsValidConfig c s (update_config c s) (update_config-Updates c s)
      (Reachable-IsValidConfig r)
Reachable-IsValidConfig (subscribed r) = Reachable-IsValidConfig r
Reachable-IsValidConfig (dropped r) = Reachable-IsValidConfig r
