-- ===== src/Device/Valid.antt =====
-- Which resources a device accepts.
use libvirtio.Base.{
  ℕ, ◌≤◌, ◌≡◌, ◌↔◌, refl, false, not, List, [], ◌∷◌, arith, ltb, ◌==◌, length, bit_and, All,
}
use libvirtio.Outcome.{ok, reject_if, >>=-eq-ok}
use libvirtio.Dma.{DmaMemory}
use libvirtio.Dma.Segments.{IsDisjoint}
use libvirtio.Layout.{QueueLayout, validate}
use libvirtio.Layout.Valid.{IsValidLayout, validate_iff, reject_if-eq-ok}
use libvirtio.Device.{DeviceLayout, DeviceResources, validate_queues, validate_resources}

pub record IsAccepted (r : DeviceResources) (layout : DeviceLayout) : Type 0 where
  pub queue_count : length r.queues ≡ layout.queue_count
  pub notifiers : layout.notifier_count ≤ length r.interrupts
  pub features : bit_and r.negotiated_features layout.required_features ≡ layout.required_features
  pub queues : All (λ q. (q.size ≤ layout.maximum_queue_size) × IsValidLayout r.dma q) r.queues

module _ (dma : DmaMemory) (maximum : ℕ) (v : IsDisjoint dma.segments) where
  validate_queues-All :
      (qs : List QueueLayout)
      → validate_queues dma maximum qs ≡ ok tt
      → All (λ q. (q.size ≤ maximum) × IsValidLayout dma q) qs
  unfolding validate_queues
  validate_queues-All [] h = tt
  validate_queues-All (q ∷ qs) h =
      let (_, e1, h1) = >>=-eq-ok (reject_if _ _) _ h in
      let (_, e2, h2) = >>=-eq-ok (validate q dma) _ h1 in
      let within : ltb maximum q.size ≡ false = reject_if-eq-ok _ _ e1 in
      ((ground (arith, within), (validate_iff dma q v).0 e2), validate_queues-All qs h2)

  validate_queues_complete :
      (qs : List QueueLayout)
      → All (λ q. (q.size ≤ maximum) × IsValidLayout dma q) qs
      → validate_queues dma maximum qs ≡ ok tt
  unfolding validate_queues
  validate_queues_complete [] h = refl
  validate_queues_complete (q ∷ qs) ((le, w), rest) =
      let within : ltb maximum q.size ≡ false = ground arith in
      rw (within, (validate_iff dma q v).1 w) (validate_queues_complete qs rest)

module _ (r : DeviceResources) (layout : DeviceLayout) (v : IsDisjoint r.dma.segments) where
  validate_resources-IsAccepted : validate_resources r layout ≡ ok tt → IsAccepted r layout
  unfolding validate_resources
  validate_resources-IsAccepted h =
      let (_, e1, h1) = >>=-eq-ok (reject_if _ _) _ h in
      let (_, e2, h2) = >>=-eq-ok (reject_if _ _) _ h1 in
      let (_, e3, h3) = >>=-eq-ok (reject_if _ _) _ h2 in
      let a : not (length r.queues == layout.queue_count) ≡ false = reject_if-eq-ok _ _ e1 in
      let b : ltb (length r.interrupts) layout.notifier_count ≡ false = reject_if-eq-ok _ _ e2 in
      let c : not
            (bit_and r.negotiated_features layout.required_features == layout.required_features)
          ≡ false =
        reject_if-eq-ok _ _ e3 in
      record {
        queue_count = ground (arith, a);
        notifiers = ground (arith, b);
        features = ground (arith, c);
        queues = validate_queues-All r.dma layout.maximum_queue_size v r.queues h3;
      }

  validate_resources_complete : IsAccepted r layout → validate_resources r layout ≡ ok tt
  unfolding validate_resources
  validate_resources_complete a = ground (
    arith,
    a.queue_count,
    a.notifiers,
    a.features,
    validate_queues_complete r.dma layout.maximum_queue_size v r.queues a.queues,
  )

  -- Over disjoint segments `DeviceResources::validate` accepts exactly the resources with as many
  -- queues as the layout says, at least its number of notifiers, all its required features
  -- negotiated, and every queue within the size limit and with a valid layout.
  pub validate_resources_iff : (validate_resources r layout ≡ ok tt) ↔ IsAccepted r layout
  validate_resources_iff = (validate_resources-IsAccepted, validate_resources_complete)
