-- ===== src/Network/Device/Control.antt =====
-- The control queue of src/network.rs: how many pairs a driver can activate.
use libvirtio.Base.{
  ℕ, ◌≤◌, ◌<◌, ◌≡◌, inl, inr, refl, not, ◌||◌, Option, none, some, arith, ltb, ◌==◌, Bool-cases,
}
use libvirtio.Base.Bytes.{from_le_bytes}
use libvirtio.State.{continue_with-keeps, if-keeps}
use libvirtio.Queue.{DescriptorChain}
use libvirtio.Network.Device.{
  NetworkDevice, World, maximum_queue_pairs, control_answer, activate_pairs, handle_control,
}

-- The pairs in use are one at least and as many as there are at most.
abbrev pub IsActive : {B : Type 0} → NetworkDevice B → World B → Type 0
IsActive device (_, (_, p)) =
    (0 < p.active_queue_pairs) × (p.active_queue_pairs ≤ maximum_queue_pairs device.resources)

-- A request for no pairs or for too many activates none.
control_answer-bounds :
    (maximum pairs n : ℕ) → (control_answer maximum pairs).1 ≡ some n → (0 < n) × (n ≤ maximum)
unfolding control_answer
control_answer-bounds maximum pairs n e = elim (Bool-cases (pairs == 0 || ltb maximum pairs)) [
  | inl b ↦ let wrong : none ≡ some n = rw b at e in cc
  | inr b ↦
      let same : some pairs ≡ some n = rw b at e in
      let k : pairs ≡ n = cc same in ground (arith, k, b)
]

module _ {B : Type 0} (device : NetworkDevice B) where
  activate_pairs-IsActive :
      (o : Option ℕ) (w : World B)
      → ((n : ℕ) → o ≡ some n → (0 < n) × (n ≤ maximum_queue_pairs device.resources))
      → IsActive device w
      → IsActive device (activate_pairs o w).1
  unfolding activate_pairs
  activate_pairs-IsActive none w bounds h = h
  activate_pairs-IsActive (some n) w bounds h = bounds n refl

  -- Whatever a driver asks for on the control queue, and whether or not the request is refused or
  -- fails, one pair is active at least afterwards and as many as the device has at most, if it was
  -- so before.
  pub handle_control-IsActive :
      (chain : DescriptorChain) (w : World B)
      → IsActive device w
      → IsActive device (handle_control device chain w).1
  unfolding handle_control
  handle_control-IsActive chain w h = continue_with-keeps (IsActive device) _ _ h λ _ w1 h1.
      continue_with-keeps (IsActive device) _ _ h1 λ _ w2 h2.
        continue_with-keeps (IsActive device) _ _ h2 λ _ w3 h3.
          continue_with-keeps (IsActive device) _ _ h3 λ _ w4 h4.
            continue_with-keeps (IsActive device) _ _ h4 λ class w5 h5.
              continue_with-keeps (IsActive device) _ _ h5 λ order w6 h6.
                if-keeps (IsActive device) (not (class == 4) || not (order == 0)) _ _ w6 h6 (
                  continue_with-keeps (IsActive device) _ _ h6 λ _ w7 h7.
                    continue_with-keeps (IsActive device) _ _ h7 λ _ w8 h8.
                      continue_with-keeps (IsActive device) _ _ h8 λ bytes w9 h9.
                        continue_with-keeps (IsActive device) _ _
                          (activate_pairs-IsActive
                            (control_answer (maximum_queue_pairs device.resources)
                              (from_le_bytes bytes)).1
                            w9
                            (control_answer-bounds (maximum_queue_pairs device.resources)
                              (from_le_bytes bytes))
                            h9)
                          λ _ w10 h10. h10)
