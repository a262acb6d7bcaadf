-- ===== src/Device/Ready.antt =====
-- What a device finds in resources that it has accepted: each of its queues, and its notifiers.
use libvirtio.Base.{
  ℕ, zero, suc, ◌<◌, ◌≡◌, subst, refl, List, [], ◌∷◌, some, arith, length, get_elem?, All,
}
use libvirtio.Outcome.{ok}
use libvirtio.State.{IsSettled}
use libvirtio.Dma.{DmaMemory}
use libvirtio.Dma.Segments.{IsDisjoint}
use libvirtio.Layout.{QueueLayout}
use libvirtio.Layout.Valid.{IsValidLayout, validate_iff, power_pos}
use libvirtio.Queue.{VirtQueue, new}
use libvirtio.Queue.Complete.{UsedFits}
use libvirtio.Device.{
  Interrupt, DeviceLayout, DeviceResources, validate_resources, queue_at, notify,
}
use libvirtio.Device.Valid.{validate_resources_iff}

pub get_elem?-lt {ℓ} :
    {A : Type ℓ} (xs : List A) (i : ℕ) → i < length xs → (x : A) × (get_elem? xs i ≡ some x)
get_elem?-lt [] i h = absurd (omega arith)
get_elem?-lt (x ∷ xs) zero h = (x, refl)
get_elem?-lt (x ∷ xs) (suc i) h = get_elem?-lt xs i (omega arith)

pub All-get_elem? {ℓ κ} :
    {A : Type ℓ} (P : A → Type κ) (xs : List A) (i : ℕ) {x : A}
    → All P xs
    → get_elem? xs i ≡ some x
    → P x
All-get_elem? P [] i h e = cc
All-get_elem? P (x ∷ xs) zero h e = subst P (cc e) h.0
All-get_elem? P (x ∷ xs) (suc i) h e = All-get_elem? P xs i h.1 e

valid-UsedFits : (memory : DmaMemory) (q : QueueLayout) → IsValidLayout memory q → UsedFits q
valid-UsedFits memory q w = record {
  not_empty = rw w.size_power (power_pos w.exponent);
  room = w.used_room;
  below = w.used_mapped.below;
}

module _ (r : DeviceResources) (layout : DeviceLayout) (v : IsDisjoint r.dma.segments)
    (e : validate_resources r layout ≡ ok tt) where
  pub queue_at-UsedFits :
      (i : ℕ)
      → i < layout.queue_count
      → (queue : VirtQueue) × (queue_at r i ≡ ok queue) × UsedFits queue.layout
  unfolding queue_at new
  queue_at-UsedFits i lt =
      let a = (validate_resources_iff r layout v).0 e in
      let (q, at) = get_elem?-lt r.queues i (rw a.queue_count lt) in
      let (_, valid) = All-get_elem? _ r.queues i a.queues at in
      (
        record { layout = q },
        rw (at, (validate_iff r.dma q v).1 valid) refl,
        valid-UsedFits r.dma q valid,
      )

  pub notify-IsSettled :
      (i : ℕ) (interrupt : Interrupt)
      → i < layout.notifier_count
      → All (λ n. (k : Interrupt) → IsSettled (n k)) r.interrupts
      → IsSettled (notify r i interrupt)
  unfolding notify
  notify-IsSettled i interrupt lt settles =
      let a = (validate_resources_iff r layout v).0 e in
      let (n, at) = get_elem?-lt r.interrupts i (omega (arith, a.notifiers)) in
      rw at (All-get_elem? _ r.interrupts i settles at interrupt)
