-- ===== src/Block/Device/Schedule.antt =====
-- The loops of `run` that look for work, whatever the queues are: no queue is passed over.
use libvirtio.Base.{
  ℕ, zero, suc, ◌+◌, ◌-◌, ◌*◌, ◌^◌, ◌%◌, ◌≤◌, ◌<◌, ◌≡◌, ◌⊎◌, inl, inr, refl, sym, ap, subst, ◌∙◌,
  Option, none, some, List, [], ◌∷◌, ◌++◌, arith, length,
}
use native.Mathlib.Decide.{dec_le}
use mathlib.Core.List.{append-nil, append_assoc}
use native.Mathlib.Nat.{mul-suc, mod-lt, mod-le, mod-eq_of_lt, mod-add-mod, add-mod_right}
use libvirtio.Outcome.{ok}
use libvirtio.State.{M, continue_with-eq-ok, continue_with-keeps, continue_with-settles, IsSettled}
use libvirtio.Block.Device.{scan, fill}

-- Among `n` numbers in a row each remainder occurs.
covers_residues : (m n i : ℕ) → i < n → (k : ℕ) × (k < n) × ((m + k) % n ≡ i)
covers_residues m n i lt =
    let small = mod-lt m {m = n} (omega (arith, lt)) in
    elim (dec_le (m % n) i) [
      | yes le ↦ (
        i - m % n,
        omega (arith, lt),
        sym (mod-add-mod m n (i - m % n)) ∙ ap (λ x. x % n) (omega arith) ∙ mod-eq_of_lt lt,
      )
      | no gt ↦ (
        i + n - m % n,
        omega (arith, gt, small),
        sym (mod-add-mod m n (i + n - m % n))
            ∙ ap (λ x. x % n) (omega (arith, gt, small))
            ∙ add-mod_right i n
            ∙ mod-eq_of_lt lt,
      )
    ]

abbrev advanced : ℕ → ℕ
advanced next = (next + 1) % 2 ^ 64

module _ {S W : Type 0} (take_from : ℕ → M S (Option W)) (queues : ℕ) where
  -- What is done with what a queue yields.
  abbrev after : ℕ → ℕ → Option W → M S (Option W × ℕ)
  after rounds next work = elim work [
    | none ↦ scan take_from queues rounds (advanced next)
    | some w ↦ λ s. (ok (some w, advanced next), s)
  ]

  -- What is done with what a scan yields.
  abbrev then_fill : ℕ → List W → Option W × ℕ → M S (List W × ℕ)
  then_fill room pending (work, next) = elim work [
    | none ↦ λ s. (ok (pending, next), s)
    | some w ↦ fill take_from queues room (pending ++ (w ∷ [])) next
  ]

module _ {S W : Type 0} (take_from : ℕ → M S (Option W)) (queues : ℕ)
    (quiet : (i : ℕ) (s t : S) → take_from i s ≡ (ok none, t) → t ≡ s) where
  -- A round finds nothing and leaves the state as it was, or it finds work.
  abbrev Found : ℕ → ℕ → S → S → Option W → ℕ → Type 0
  Found rounds next s t o n =
      ((take_from (next % queues) s ≡ (ok none, s))
        × (scan take_from queues rounds (advanced next) s ≡ (ok (o, n), t)))
      ⊎ ((w : W) × (o ≡ some w) × (n ≡ advanced next))

  found :
      (rounds next : ℕ) (s s' t : S) (o : Option W) (n : ℕ) (work : Option W)
      → take_from (next % queues) s ≡ (ok work, s')
      → after take_from queues rounds next work s' ≡ (ok (o, n), t)
      → Found rounds next s t o n
  found rounds next s s' t o n none e r =
      let same : s' ≡ s = quiet (next % queues) s s' e in
      inl (
        e ∙ ap (λ s. (ok none, s)) same,
        ap (scan take_from queues rounds (advanced next)) (sym same) ∙ r,
      )
  found rounds next s s' t o n (some w) e r = inr (w, cc r, cc r)

  scan_step :
      (rounds next : ℕ) (s t : S) (o : Option W) (n : ℕ)
      → scan take_from queues (suc rounds) next s ≡ (ok (o, n), t)
      → Found rounds next s t o n
  unfolding scan
  scan_step rounds next s t o n e =
      let (work, s', e1, r) = continue_with-eq-ok (take_from (next % queues) s) _ e in
      found rounds next s s' t o n work e1 r

  advanced_le : (next : ℕ) → advanced next ≤ next + 1
  advanced_le next = mod-le (next + 1) (2 ^ 64)

  -- The next queue moves on by no more than the rounds.
  scan_bound :
      (rounds next : ℕ) (s t : S) (o : Option W) (n : ℕ)
      → scan take_from queues rounds next s ≡ (ok (o, n), t)
      → n ≤ next + rounds
  unfolding scan
  scan_bound zero next s t o n e = let same : n ≡ next = cc e in omega (arith, same)
  scan_bound (suc rounds) next s t o n e = elim (scan_step rounds next s t o n e) [
    | inl (_, rest) ↦
        let bound = scan_bound rounds (advanced next) s t o n rest in
        omega (arith, bound, advanced_le next)
    | inr (w, _, same) ↦ omega (arith, same, advanced_le next)
  ]

  -- A scan that finds nothing has tried one queue after the other, with nothing changed.
  scan-none :
      (rounds next : ℕ) (s t : S) (n : ℕ)
      → scan take_from queues rounds next s ≡ (ok (none, n), t)
      → next + rounds ≤ 2 ^ 64
      → (t ≡ s) × ((k : ℕ) → k < rounds → take_from ((next + k) % queues) s ≡ (ok none, s))
  unfolding scan
  scan-none zero next s t n e small = (cc e, λ k lt. absurd (omega (arith, lt)))
  scan-none (suc rounds) next s t n e small = elim (scan_step rounds next s t none n e) [
    | inr (w, wrong, _) ↦ cc
    | inl (here, rest) ↦
        let bound = advanced_le next in
        let (same, others) =
          scan-none rounds (advanced next) s t n rest (omega (arith, small, bound)) in
        (same, tried here others)
  ]
    where
      tried :
          take_from (next % queues) s ≡ (ok none, s)
          → ((k : ℕ) → k < rounds → take_from ((advanced next + k) % queues) s ≡ (ok none, s))
          → (k : ℕ) → k < suc rounds
          → take_from ((next + k) % queues) s ≡ (ok none, s)
      tried here others zero lt = ap (λ i. take_from (i % queues) s) (omega arith) ∙ here
      tried here others (suc k) lt =
          let inside = mod-eq_of_lt {n = next + 1} {m = 2 ^ 64} (omega (arith, small, lt)) in
          ap (λ i. take_from (i % queues) s) (omega (arith, inside)) ∙ others k (omega (arith, lt))

  abbrev pub AllQuiet : S → Type 0
  AllQuiet s = (i : ℕ) → i < queues → take_from i s ≡ (ok none, s)

  -- What the loop that takes work is to do.
  abbrev pub Fills : ℕ → List W → List W × ℕ → S → Type 0
  Fills room pending (pending', next') t =
      ((taken : List W) × (pending' ≡ pending ++ taken)
        × (length taken ≤ room)
        × ((length taken ≡ room) ⊎ AllQuiet t))

  fill_step :
      (room next : ℕ) (pending : List W) (s t : S) (p : List W) (n : ℕ)
      → fill take_from queues (suc room) pending next s ≡ (ok (p, n), t)
      → (o : Option W) × (m : ℕ) × (s' : S) × (scan take_from queues queues next s
          ≡ (ok (o, m), s'))
        × (then_fill take_from queues room pending (o, m) s' ≡ (ok (p, n), t))
  unfolding fill
  fill_step room next pending s t p n e =
      let ((o, m), s', e1, r) = continue_with-eq-ok (scan take_from queues queues next s) _ e in
      (o, m, s', e1, r)

  quiet_all :
      (next : ℕ) (s t : S) (n : ℕ)
      → scan take_from queues queues next s ≡ (ok (none, n), t)
      → next + queues ≤ 2 ^ 64
      → AllQuiet t
  quiet_all next s t n e small i lt =
      let (same, tried) = scan-none queues next s t n e small in
      let (k, inside, place) = covers_residues next queues i lt in
      subst (λ s. take_from i s ≡ (ok none, s)) (sym same)
        (ap (λ i. take_from i s) (sym place) ∙ tried k inside)

  -- The `while` loop takes no more work than there is room for, adds it behind what was pending,
  -- and stops only when the room is used up or no queue has any work.
  pub fill-Fills :
      (room next : ℕ) (pending : List W) (s t : S) (p : List W) (n : ℕ)
      → fill take_from queues room pending next s ≡ (ok (p, n), t)
      → next + queues * room ≤ 2 ^ 64
      → Fills room pending (p, n) t
  unfolding fill
  fill-Fills zero next pending s t p n e small =
      ([], cc e ∙ sym (append-nil pending), omega arith, inl refl)
  fill-Fills (suc room) next pending s t p n e small =
      let (o, m, s', e1, r) = fill_step room next pending s t p n e in
      more o m s' e1 r (scan_bound queues next s s' o m e1)
        (λ w r bound. fill-Fills room m (pending ++ (w ∷ [])) s' t p n r bound)
    where
      product : queues * suc room ≡ queues * room + queues
      product = mul-suc queues room

      more :
          (o : Option W) (m : ℕ) (s' : S)
          → scan take_from queues queues next s ≡ (ok (o, m), s')
          → then_fill take_from queues room pending (o, m) s' ≡ (ok (p, n), t)
          → m ≤ next + queues
          → ((w : W)
              → fill take_from queues room (pending ++ (w ∷ [])) m s' ≡ (ok (p, n), t)
              → m + queues * room ≤ 2 ^ 64
              → Fills room (pending ++ (w ∷ [])) (p, n) t)
          → Fills (suc room) pending (p, n) t
      more none m s' e1 r moved ih =
          let quiet = quiet_all next s s' m e1 (omega (arith, small, product)) in
          let same : s' ≡ t = cc r in
          ([], cc r ∙ sym (append-nil pending), omega arith, inr (subst AllQuiet same quiet))
      more (some w) m s' e1 r moved ih =
          let (taken, added, bound, ends) = ih w r (omega (arith, small, product, moved)) in
          (
            w ∷ taken,
            added ∙ append_assoc pending (w ∷ []) taken,
            omega (arith, bound),
            elim ends [ inl full ↦ inl (ap suc full) | inr quiet ↦ inr quiet ],
          )

-- The loops return where the queues do, with what each of these keeps kept.
module _ {S W : Type 0} (take_from : ℕ → M S (Option W)) (queues : ℕ) (some_queue : 0 < queues)
    (P : S → Type 0) (keeps : (i : ℕ) (s : S) → P s → P (take_from i s).1)
    (settles : (i : ℕ) (s : S) → i < queues → P s → IsSettled (take_from i s).0) where
  scan_keeps : (rounds next : ℕ) (s : S) → P s → P (scan take_from queues rounds next s).1
  unfolding scan
  scan_keeps zero next s h = h
  scan_keeps (suc rounds) next s h =
      continue_with-keeps P (take_from (next % queues) s) _ (keeps (next % queues) s h)
        λ work t k. either work t k (scan_keeps rounds ((next + 1) % 2 ^ 64) t k)
    where
      either :
          (work : Option W) (t : S)
          → P t
          → P (scan take_from queues rounds ((next + 1) % 2 ^ 64) t).1
          → P (after take_from queues rounds next work t).1
      either none t k rest = rest
      either (some w) t k rest = k

  scan_settles : (rounds next : ℕ) (s : S) → P s → IsSettled (scan take_from queues rounds next s).0
  unfolding scan
  scan_settles zero next s h = tt
  scan_settles (suc rounds) next s h =
      continue_with-settles (take_from (next % queues) s) _
        (settles (next % queues) s (mod-lt next some_queue) h)
        λ work t e. either work t (
          scan_settles rounds ((next + 1) % 2 ^ 64) t
            (subst P (ap (λ r. r.1) e) (keeps (next % queues) s h)))
    where
      either :
          (work : Option W) (t : S)
          → IsSettled (scan take_from queues rounds ((next + 1) % 2 ^ 64) t).0
          → IsSettled (after take_from queues rounds next work t).0
      either none t rest = rest
      either (some w) t rest = tt

  pub fill_settles :
      (room next : ℕ) (pending : List W) (s : S)
      → P s
      → IsSettled (fill take_from queues room pending next s).0
  unfolding fill
  fill_settles zero next pending s h = tt
  fill_settles (suc room) next pending s h =
      continue_with-settles (scan take_from queues queues next s) _ (scan_settles queues next s h)
        λ (o, m) t e. either o m t λ w.
          fill_settles room m (pending ++ (w ∷ [])) t
            (subst P (ap (λ r. r.1) e) (scan_keeps queues next s h))
    where
      either :
          (o : Option W) (m : ℕ) (t : S)
          → ((w : W) → IsSettled (fill take_from queues room (pending ++ (w ∷ [])) m t).0)
          → IsSettled (then_fill take_from queues room pending (o, m) t).0
      either none m t rest = tt
      either (some w) m t rest = rest w
