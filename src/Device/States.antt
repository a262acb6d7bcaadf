-- ===== src/Device/States.antt =====
-- Calls on one of a device's queue states.
use libvirtio.Base.{ℕ, zero, suc, ◌≡◌, refl, sym, ap, ◌∙◌, List, [], ◌∷◌, some, get_elem?, set}
use libvirtio.Outcome.{ok}
use libvirtio.State.{M, continue_with, IsSettled}
use libvirtio.Lease.{Host}
use libvirtio.Queue.{VirtQueue, QueueState, DescriptorChain, pop, complete}
use libvirtio.Device.{DeviceResources, queue_at, on_state, pop_at, complete_at}

pub set-set {ℓ} : {A : Type ℓ} (xs : List A) (i : ℕ) (a b : A) → set (set xs i a) i b ≡ set xs i b
set-set [] i a b = refl
set-set (x ∷ xs) zero a b = refl
set-set (x ∷ xs) (suc i) a b = ap (◌∷◌ x) (set-set xs i a b)

pub set_same {ℓ} :
    {A : Type ℓ} (xs : List A) (i : ℕ) {a : A} → get_elem? xs i ≡ some a → set xs i a ≡ xs
set_same [] i e = refl
set_same (x ∷ xs) zero e = ap (λ y. y ∷ xs) (sym (cc e))
set_same (x ∷ xs) (suc i) e = ap (◌∷◌ x) (set_same xs i e)

pub get_elem?-set_slot {ℓ} :
    {A : Type ℓ} (xs : List A) (i : ℕ) {a : A} (b : A)
    → get_elem? xs i ≡ some a
    → get_elem? (set xs i b) i ≡ some b
get_elem?-set_slot [] i b e = cc
get_elem?-set_slot (x ∷ xs) zero b e = refl
get_elem?-set_slot (x ∷ xs) (suc i) b e = get_elem?-set_slot xs i b e

module _ {A : Type 0} (i : ℕ) (m : M (Host × QueueState) A) (h : Host) (states : List QueueState)
    (s : QueueState) (slot : get_elem? states i ≡ some s) where
  pub on_state_lem :
      on_state i m (h, states) ≡ ((m (h, s)).0, ((m (h, s)).1.0, set states i (m (h, s)).1.1))
  unfolding on_state
  on_state_lem = rw (on_state, slot) refl

  pub on_state-eq-ok :
      {a : A} {w : Host × List QueueState}
      → on_state i m (h, states) ≡ (ok a, w)
      → (t : QueueState) × (m (h, s) ≡ (ok a, (w.0, t))) × (w.1 ≡ set states i t)
  on_state-eq-ok e =
      let t : QueueState = (m (h, s)).1.1 in
      let e' = sym on_state_lem ∙ e in (t, ap (λ r. (r.0, (r.1.0, t))) e', sym (ap (λ r. r.1.1) e'))

  pub on_state-IsSettled : IsSettled (m (h, s)).0 → IsSettled (on_state i m (h, states)).0
  on_state-IsSettled k = rw on_state_lem k

module _ (r : DeviceResources) (i : ℕ) (queue : VirtQueue) (at : queue_at r i ≡ ok queue) where
  pub pop_at_lem : (w : Host × List QueueState) → pop_at r i w ≡ on_state i (pop queue r.dma) w
  unfolding pop_at continue_with
  pop_at_lem w = rw at refl

  pub complete_at_lem :
      (chain : DescriptorChain) (n : ℕ) (w : Host × List QueueState)
      → complete_at r i chain n w ≡ on_state i (complete queue r.dma chain n) w
  unfolding complete_at continue_with
  complete_at_lem chain n w = rw at refl
