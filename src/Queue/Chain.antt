-- ===== src/Queue/Chain.antt =====
-- `read_chain`: which descriptors of the table it follows.
use libvirtio.Base.{
  ℕ, zero, suc, ◌+◌, ◌*◌, ◌≤◌, ◌<◌, ◌≡◌, ◌⊎◌, inl, inr, refl, sym, ap, subst, ◌∙◌, Bool, true,
  false, List, [], ◌∷◌, Option, none, some, arith, Bool-cases, length, leb, if◌then◌else◌,
}
use libvirtio.Error.{DeviceError}
use libvirtio.Outcome.{ok, err, ok_or}
use libvirtio.State.{
  reject_if-IsSettled, M, pure, lift, continue_with, IsSettled, continue_with-IsSettled, IsReader,
  >>=-IsReader, if-IsReader, continue_with-eq-ok,
}
use libvirtio.Dma.{DmaMemory, checked_add}
use libvirtio.Dma.Segments.{IsDisjoint}
use libvirtio.Lease.{Host}
use libvirtio.Queue.{
  VirtQueue, Descriptor, DescriptorChain, read_bytes, read_u16, parse_descriptor, read_descriptor,
  read_descriptors, follow, read_chain, has_next,
}
use libvirtio.Queue.Access.{
  Holds, read_bytes-IsSettled, read_bytes-Reads, read_bytes_sound, read_bytes_complete,
}

-- Entry `i` of the descriptor table.
abbrev pub HasDescriptor : VirtQueue → DmaMemory → Host → ℕ → Descriptor → Type 0
HasDescriptor queue memory h i d =
    (bytes : List ℕ) × (length bytes ≡ 16)
    × Holds memory h (queue.layout.descriptors.gpa + i * 16) bytes
    × (d ≡ parse_descriptor bytes)

-- The chain of descriptors from entry `i` on, by their `next` fields.
pub data Linked (queue : VirtQueue) (memory : DmaMemory) (h : Host)
    : ℕ → List Descriptor → Type 0 where
  last :
      {i : ℕ} {d : Descriptor}
      → HasDescriptor queue memory h i d
      → has_next d ≡ false
      → Linked queue memory h i (d ∷ [])
  link :
      {i : ℕ} {d : Descriptor} {ds : List Descriptor}
      → HasDescriptor queue memory h i d
      → has_next d ≡ true
      → d.next < queue.layout.size
      → Linked queue memory h d.next ds
      → Linked queue memory h i (d ∷ ds)

module _ (queue : VirtQueue) (memory : DmaMemory) (v : IsDisjoint memory.segments) where
  read_bytes-IsReader : (gpa n : ℕ) → IsReader (read_bytes memory gpa n)
  read_bytes-IsReader gpa n h = (read_bytes-Reads memory gpa n h v).0

  pub read_u16-IsReader : (gpa : ℕ) → IsReader (read_u16 memory gpa)
  unfolding read_u16
  read_u16-IsReader gpa = >>=-IsReader _ _ (read_bytes-IsReader gpa 2) (λ _ _. refl)

  read_descriptor-IsReader : (i : ℕ) → IsReader (read_descriptor queue memory i)
  unfolding read_descriptor
  read_descriptor-IsReader i =
      >>=-IsReader _ _ (λ _. refl)
        λ gpa. >>=-IsReader _ _ (read_bytes-IsReader gpa 16) (λ _ _. refl)

  read_descriptors-IsReader : (n i : ℕ) → IsReader (read_descriptors queue memory n i)
  unfolding read_descriptors
  read_descriptors-IsReader zero i = λ _. refl
  read_descriptors-IsReader (suc n) i = >>=-IsReader _ _ (read_descriptor-IsReader i) λ d.
      if-IsReader (has_next d) _ _
        (>>=-IsReader _ _ (λ _. refl)
          λ _. >>=-IsReader _ _ (read_descriptors-IsReader n d.next) (λ _ _. refl))
        (λ _. refl)

  pub read_chain-IsReader : (head : ℕ) → IsReader (read_chain queue memory head)
  unfolding read_chain
  read_chain-IsReader head =
      >>=-IsReader _ _ (λ _. refl)
        λ _. >>=-IsReader _ _ (read_descriptors-IsReader queue.layout.size head) (λ _ _. refl)

  ok_or-IsSettled : (o : Option ℕ) (e : DeviceError) → IsSettled (ok_or o e)
  ok_or-IsSettled none e = tt
  ok_or-IsSettled (some a) e = tt

  if-IsSettled :
      {A : Type 0} (b : Bool) (m k : M Host A) (h : Host)
      → IsSettled (m h).0
      → IsSettled (k h).0
      → IsSettled ((if b then m else k) h).0
  if-IsSettled true m k h x y = x
  if-IsSettled false m k h x y = y

  pub read_u16-IsSettled : (gpa : ℕ) (h : Host) → IsSettled (read_u16 memory gpa h).0
  unfolding read_u16
  read_u16-IsSettled gpa h =
      continue_with-IsSettled _ _ (read_bytes-IsSettled memory gpa 2 h v) (λ _ _. tt)

  read_descriptors-IsSettled :
      (n i : ℕ) (h : Host) → IsSettled (read_descriptors queue memory n i h).0
  unfolding read_descriptors read_descriptor
  read_descriptors-IsSettled zero i h = tt
  read_descriptors-IsSettled (suc n) i h =
      continue_with-IsSettled _ _
        (continue_with-IsSettled _ _ (ok_or-IsSettled _ _)
          λ gpa g. continue_with-IsSettled _ _ (read_bytes-IsSettled memory gpa 16 g v) (λ _ _. tt))
        λ d g.
          if-IsSettled (has_next d) _ _ g
            (continue_with-IsSettled _ _ (reject_if-IsSettled _ _) λ _ t.
              continue_with-IsSettled _ _ (read_descriptors-IsSettled n d.next t) (λ _ _. tt))
            tt

  -- `read_chain` over disjoint segments returns, with a chain or an error, whatever the guest has
  -- in the descriptor table: it neither panics nor follows links for ever.
  pub read_chain-IsSettled : (head : ℕ) (h : Host) → IsSettled (read_chain queue memory head h).0
  unfolding read_chain
  read_chain-IsSettled head h = continue_with-IsSettled _ _ (reject_if-IsSettled _ _) λ _ t.
      continue_with-IsSettled _ _ (read_descriptors-IsSettled queue.layout.size head t) (λ _ _. tt)

  read_descriptor_sound :
      (i : ℕ) (h : Host) {d : Descriptor} {g : Host}
      → read_descriptor queue memory i h ≡ (ok d, g)
      → HasDescriptor queue memory h i d
  unfolding read_descriptor
  read_descriptor_sound i h {d} {g} e =
      let (gpa, h1, e1, e2) = continue_with-eq-ok _ _ e in located gpa h1 e1 e2
    where
      table : ℕ
      table = queue.layout.descriptors.gpa

      located :
          (gpa : ℕ) (h1 : Host)
          → lift
              (ok_or
                (checked_add table (i * 16))
                (DeviceError.descriptor "descriptor GPA overflow"))
              h
            ≡ (ok gpa, h1)
          → continue_with (read_bytes memory gpa 16 h1) (λ bytes. pure (parse_descriptor bytes))
            ≡ (ok d, g)
          → HasDescriptor queue memory h i d
      located gpa h1 e1 e2 =
          let (bytes, h2, e3, e4) = continue_with-eq-ok _ _ e2 in
          let at : gpa ≡ table + i * 16 = ground (arith, e1) in
          let same : h1 ≡ h = cc e1 in
          let (_, n, holds) = read_bytes_sound memory gpa 16 h1 v e3 in
          (bytes, n, rw (same, at) at holds, cc e4)

  read_descriptor_complete :
      (i : ℕ) (h : Host) {d : Descriptor}
      → h.revoked ≡ false
      → HasDescriptor queue memory h i d
      → read_descriptor queue memory i h ≡ (ok d, h)
  unfolding read_descriptor continue_with
  read_descriptor_complete i h {d} live (bytes, n, (small, there), e) =
      let fits : checked_add table (i * 16) ≡ some (table + i * 16) = ground arith in
      rw (
        fits,
        ok_or,
        lift,
        read_bytes_complete memory (table + i * 16) 16 bytes h v live (omega arith) (rw n at there),
        e,
      )
    where
      table : ℕ
      table = queue.layout.descriptors.gpa

  last_step :
      (n i : ℕ) (h : Host) {d : Descriptor}
      → read_descriptor queue memory i h ≡ (ok d, h)
      → has_next d ≡ false
      → read_descriptors queue memory (suc n) i h ≡ (ok (d ∷ []), h)
  unfolding read_descriptors continue_with
  last_step n i h e f = rw (e, f)

  link_step :
      (n i : ℕ) (h : Host) {d : Descriptor} {ds : List Descriptor}
      → read_descriptor queue memory i h ≡ (ok d, h)
      → has_next d ≡ true
      → d.next < queue.layout.size
      → read_descriptors queue memory n d.next h ≡ (ok ds, h)
      → read_descriptors queue memory (suc n) i h ≡ (ok (d ∷ ds), h)
  unfolding read_descriptors continue_with
  link_step n i h {d} e f lt r =
      let inside : leb queue.layout.size d.next ≡ false = ground arith in rw (e, f, inside, r)

  follow_inversion :
      (d : Descriptor) (loop : ℕ → M Host (List Descriptor)) (h : Host) {ds : List Descriptor}
      {g : Host}
      → follow queue d loop h ≡ (ok ds, g)
      → ((has_next d ≡ false) × (ds ≡ d ∷ []))
        ⊎ ((has_next d ≡ true)
            × (d.next < queue.layout.size)
            × (rest : List Descriptor) × (loop d.next h ≡ (ok rest, g))
            × (ds ≡ d ∷ rest))
  unfolding follow continue_with
  follow_inversion d loop h {ds} {g} e = elim (Bool-cases (has_next d)) [
    | inr stop ↦ inl (stop, cc (rw (stop, follow) at e))
    | inl go ↦ elim (Bool-cases (leb queue.layout.size d.next)) [
      | inl out ↦ cc (rw (go, out, follow) at e)
      | inr inside ↦
          let (rest, t, e1, e2) =
            continue_with-eq-ok (loop d.next h) _ (rw (go, inside, follow) at e) in
          inr (go, ground arith, rest, cc (e1, e2), cc e2)
    ]
  ]

  step_inversion :
      (n i : ℕ) (h : Host) {ds : List Descriptor} {g : Host}
      → read_descriptors queue memory (suc n) i h ≡ (ok ds, g)
      → (d : Descriptor) × HasDescriptor queue memory h i d
        × (follow queue d (read_descriptors queue memory n) h ≡ (ok ds, g))
  unfolding read_descriptors
  step_inversion n i h {ds} {g} e =
      let (d, h1, e1, e2) = continue_with-eq-ok (read_descriptor queue memory i h) _ e in
      let same : h1 ≡ h = sym (ap (λ r. r.1) e1) ∙ read_descriptor-IsReader i h in
      (
        d,
        read_descriptor_sound i h e1,
        subst (λ t. follow queue d (read_descriptors queue memory n) t ≡ (ok ds, g)) same e2,
      )

  -- What is read is linked, and no more than the rounds allow.
  read_descriptors-Linked :
      (n i : ℕ) (h : Host) {ds : List Descriptor} {g : Host}
      → read_descriptors queue memory n i h ≡ (ok ds, g)
      → Linked queue memory h i ds × (length ds ≤ n)
  read_descriptors-Linked zero i h e = unfold read_descriptors in cc e
  read_descriptors-Linked (suc n) i h {ds} {g} e =
      let (d, has, f) = step_inversion n i h e in
      elim (follow_inversion d (read_descriptors queue memory n) h f) [
        | inl (stop, one) ↦ rw one (last has stop, omega arith)
        | inr (go, inside, rest, r, more) ↦
            let (linked, short) = read_descriptors-Linked n d.next h r in
            rw more (link has go inside linked, omega arith)
      ]

  read_descriptors_complete :
      (n i : ℕ) (h : Host) (ds : List Descriptor)
      → h.revoked ≡ false
      → Linked queue memory h i ds
      → length ds ≤ n
      → read_descriptors queue memory n i h ≡ (ok ds, h)
  read_descriptors_complete zero i h ds live (last has stop) le = absurd (omega arith)
  read_descriptors_complete zero i h ds live (link has go inside l) le = absurd (omega arith)
  read_descriptors_complete (suc n) i h ds live (last has stop) le =
      last_step n i h (read_descriptor_complete i h live has) stop
  read_descriptors_complete (suc n) i h ds live (link {d = d} {ds = rest} has go inside l) le =
      link_step n i h (read_descriptor_complete i h live has) go inside
        (read_descriptors_complete n d.next h rest live l (omega arith))

  head_out :
      (head : ℕ) (h : Host)
      → leb queue.layout.size head ≡ true
      → (read_chain queue memory head h).0
        ≡ err (DeviceError.descriptor "head index exceeds queue size")
  unfolding read_chain continue_with
  head_out head h e = rw (e, read_chain)

  head_in :
      (head : ℕ) (h : Host)
      → leb queue.layout.size head ≡ false
      → read_chain queue memory head h
        ≡ continue_with
            (read_descriptors queue memory queue.layout.size head h)
            (λ ds. pure (record { head = head; descriptors = ds }))
  unfolding read_chain continue_with
  head_in head h e = rw (e, read_chain)

  -- `read_chain` over disjoint segments leaves the host as it was. If it returns a chain, the head
  -- is the one asked for and an index below the queue size, and the descriptors, at most as many as
  -- the queue size, are those that the guest's table links from the head to the first without the
  -- NEXT flag, each further index below the queue size.
  pub read_chain-Linked :
      (head : ℕ) (h : Host) {chain : DescriptorChain} {g : Host}
      → read_chain queue memory head h ≡ (ok chain, g)
      → (g ≡ h)
        × (chain.head ≡ head)
        × (head < queue.layout.size)
        × (length chain.descriptors ≤ queue.layout.size)
        × Linked queue memory h head chain.descriptors
  read_chain-Linked head h {chain} {g} e = elim (Bool-cases (leb queue.layout.size head)) [
    | inl out ↦ cc (ap (λ r. r.0) e, head_out head h out)
    | inr inside ↦
        let (ds, t, e1, e2) = continue_with-eq-ok _ _ (sym (head_in head h inside) ∙ e) in
        let same : g ≡ h = sym (ap (λ r. r.1) e) ∙ read_chain-IsReader head h in
        let is : chain ≡ record { head = head; descriptors = ds } = cc e2 in
        let (linked, short) = read_descriptors-Linked queue.layout.size head h e1 in
        rw is (same, refl, ground (arith, inside), short, linked)
  ]

  -- Over disjoint segments, a chain that the table links from an index below the queue size, no
  -- longer than the queue size, is returned, if the memory is not revoked.
  pub read_chain_complete :
      (head : ℕ) (ds : List Descriptor) (h : Host)
      → h.revoked ≡ false
      → head < queue.layout.size
      → Linked queue memory h head ds
      → length ds ≤ queue.layout.size
      → read_chain queue memory head h ≡ (ok (record { head = head; descriptors = ds }), h)
  unfolding read_chain continue_with
  read_chain_complete head ds h live lt l le =
      let inside : leb queue.layout.size head ≡ false = ground arith in
      rw (inside, read_descriptors_complete queue.layout.size head h ds live l le)
